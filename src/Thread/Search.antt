-- ===== src/Thread/Search.antt =====
-- get_thread and thread_exist of threads/thread.c, and the identifiers that thread_create gives out.
use cs439_pcs.Base.{ℕ, ◌≤◌, ◌<◌, true, false, some, List, [], ◌∷◌, ◌++◌}
use cs439_pcs.Base.{◌≡◌, ◌≢◌, refl, ap, sym, ◌∙◌, inl, inr, arith}
use cs439_pcs.Base.{◌+◌, ◌%◌, word_mod}
use cs439_pcs.Base.{◌==◌, Bool-cases, ==_ne, ==_is}
use cs439_pcs.Base.Each.{Each, Each-imp, Each-and, Each-append}
use cs439_pcs.Thread.{Kernel, pri_max}
use cs439_pcs.Thread.Create.{thread_create, search, get_thread, exist_loop, thread_exist}
use cs439_pcs.Thread.Invariant.{IsScheduled, Alike}
use cs439_pcs.Thread.Birth.{IsUnused, IsBorn, born_other, born_self}
use cs439_pcs.Thread.Creation.{thread_create-IsBorn}
use mathlib.Core.Path.{subst}

tid : Kernel → ℕ → ℕ
tid k t = (k.threads t).tid

-- Every identifier in use is below the next one.
unfoldable pub IsNumbered : Kernel → Type 0
IsNumbered k = Each (λ u. (k.threads u).tid < k.next_tid) k.all_list

search_new :
    (k : Kernel) (xs : List ℕ) (page n : ℕ)
    → Each (λ u. (k.threads u).tid ≢ n) xs
    → (k.threads page).tid ≡ n
    → (search k (xs ++ page ∷ []) n ≡ page) × (exist_loop k (xs ++ page ∷ []) n ≡ true)
unfolding search exist_loop Each
search_new k [] page n e q = (rw (==_is _ _ q) refl, rw (==_is _ _ q) refl)
search_new k (x ∷ xs) page n e q =
    let (a, b) = search_new k xs page n e.1 q in (rw (==_ne _ _ e.0) a, rw (==_ne _ _ e.0) b)

search_old :
    (k k' : Kernel) (xs : List ℕ) (page n : ℕ)
    → Each (λ u. (k'.threads u).tid ≡ (k.threads u).tid) xs
    → (k'.threads page).tid ≢ n
    → (search k' (xs ++ page ∷ []) n ≡ search k xs n)
      × (exist_loop k' (xs ++ page ∷ []) n ≡ exist_loop k xs n)
unfolding search exist_loop Each
search_old k k' [] page n e q = (rw (==_ne _ _ q) refl, rw (==_ne _ _ q) refl)
search_old k k' (x ∷ xs) page n e q =
    let (a, b) = search_old k k' xs page n e.1 q in
    elim (Bool-cases ((k.threads x).tid == n)) [
      | inl h ↦ (rw (e.0, h) refl, rw (e.0, h) refl)
      | inr h ↦ (rw (e.0, h) a, rw (e.0, h) b)
    ]

born_tid :
    (k k' : Kernel) (page : ℕ) (name : List ℕ) (p : ℕ)
    → IsBorn k page name p k'
    → (k'.threads page).tid ≡ k.next_tid
unfolding Alike
born_tid k k' page name p b =
    ap (λ x. x.tid) (b.alike page) ∙ ap (λ x. x.tid) (born_self k page name p)

born_tids :
    (k k' : Kernel) (page : ℕ) (name : List ℕ) (p : ℕ) (xs : List ℕ)
    → IsBorn k page name p k'
    → Each (λ u. u ≢ page) xs
    → Each (λ u. (k'.threads u).tid ≡ (k.threads u).tid) xs
unfolding Alike
born_tids k k' page name p xs b n =
    Each-imp (λ u. u ≢ page) (λ u. (k'.threads u).tid ≡ (k.threads u).tid) xs
      (λ u m. ap (λ x. x.tid) (b.alike u) ∙ ap (λ x. x.tid) (born_other k page name p u m)) n

no_wrap : (n : ℕ) → n + 1 < word_mod → (n + 1) % word_mod ≡ n + 1
no_wrap n h = omega (arith, h)

born-IsNumbered :
    (k k' : Kernel) (page : ℕ) (name : List ℕ) (p : ℕ)
    → IsBorn k page name p k'
    → k.next_tid + 1 < word_mod
    → Each (λ u. u ≢ page) k.all_list
    → IsNumbered k
    → IsNumbered k'
unfolding IsNumbered Each
born-IsNumbered k k' page name p b few n i =
    let next : k'.next_tid ≡ k.next_tid + 1 = b.tids ∙ no_wrap k.next_tid few in
    let new = born_tid k k' page name p b in
    subst (λ l. Each (λ u. (k'.threads u).tid < k'.next_tid) l) (sym b.all)
      (Each-append (λ u. (k'.threads u).tid < k'.next_tid) k.all_list (page ∷ [])
        (Each-imp (λ u. ((k'.threads u).tid ≡ (k.threads u).tid) × ((k.threads u).tid < k.next_tid))
          (λ u. (k'.threads u).tid < k'.next_tid) k.all_list (λ u (e, l). omega (arith, e, l, next))
          (Each-and (λ u. (k'.threads u).tid ≡ (k.threads u).tid)
            (λ u. (k.threads u).tid < k.next_tid) k.all_list
            (born_tids k k' page name p k.all_list b n) i))
        (omega (arith, new, next), tt))

-- With an unused page, a priority of at most PRI_MAX, identifiers that are not yet at the largest
-- int, and every identifier in use below the next one, thread_create outside an interrupt, if no
-- interrupt comes in between, gets to where it returns or where the new thread goes on first. It
-- has an identifier then under which get_thread finds the new thread, and thread_exist says that
-- there is one. Other identifiers find what they found before, and every identifier in use is still
-- below the next one. What the new thread does before thread_create returns to its caller, if it
-- goes on first, is not part of this.
pub get_thread-thread_create :
    (k : Kernel) (page child dir : ℕ) (name : List ℕ) (p : ℕ)
    → IsScheduled k
    → k.in_external_intr ≡ false
    → IsUnused k page
    → Each (λ u. u ≢ page) k.all_list
    → p ≤ pri_max
    → k.next_tid + 1 < 2147483648
    → IsNumbered k
    → (n : ℕ) × (k' : Kernel) × (thread_create k page child dir name p ≡ some (some n, k'))
      × (get_thread k' n ≡ page)
      × (thread_exist k' n ≡ true)
      × ((m : ℕ)
          → m ≢ n
          → (get_thread k' m ≡ get_thread k m) × (thread_exist k' m ≡ thread_exist k m))
      × IsNumbered k'
unfolding get_thread thread_exist IsNumbered
get_thread-thread_create k page child dir name p s off n fresh le few i =
    let (k', runs, b) = thread_create-IsBorn k page child dir name p s off n le in
    let new = born_tid k k' page name p b in
    let below : Each (λ u. (k'.threads u).tid ≢ k.next_tid) k.all_list =
      Each-imp (λ u. ((k'.threads u).tid ≡ (k.threads u).tid) × ((k.threads u).tid < k.next_tid))
        (λ u. (k'.threads u).tid ≢ k.next_tid) k.all_list (λ u (e, l) q. omega (arith, e, l, q))
        (Each-and (λ u. (k'.threads u).tid ≡ (k.threads u).tid)
          (λ u. (k.threads u).tid < k.next_tid) k.all_list
          (born_tids k k' page name p k.all_list b fresh) i) in
    let (found, there) = search_new k' k.all_list page k.next_tid below new in
    (
      k.next_tid,
      k',
      runs,
      ap (λ l. search k' l k.next_tid) b.all ∙ found,
      ap (λ l. exist_loop k' l k.next_tid) b.all ∙ there,
      λ m ne.
          let (a, c) =
            search_old k k' k.all_list page m (born_tids k k' page name p k.all_list b fresh)
              (λ q. ne (sym q ∙ new)) in
          (ap (λ l. search k' l m) b.all ∙ a, ap (λ l. exist_loop k' l m) b.all ∙ c),
      born-IsNumbered k k' page name p b (omega (arith, few)) fresh i,
    )
