-- ===== src/Thread/Birth.antt =====
-- The state of the scheduler of threads/thread.c with a new thread, before it is unblocked.
use cs439_pcs.Base.{ℕ, ◌+◌, true, false, not, ◌&&◌, some}
use cs439_pcs.Base.{List, [], ◌∷◌, ◌++◌, ◌≡◌, ◌≢◌, refl, ap, ◌∙◌, inl, inr, arith}
use cs439_pcs.Base.{◌==◌, Bool-cases, ==_ne, ==_self}
use cs439_pcs.Base.{◌%◌, word_mod, sym, ==_iff}
use mathlib.Core.Path.{subst}
use cs439_pcs.Base.Each.{Each, Each-imp, Each-append}
use cs439_pcs.Thread.{Kernel, blocked, put, is_thread}
use cs439_pcs.Thread.{thread_get_priority}
use cs439_pcs.Thread.{insert_ready, effective_priority, thread_magic}
use cs439_pcs.Thread.Create.{blank_thread}
use cs439_pcs.Thread.Invariant.{
  HasPlace, HasPlace-same, not_ready, IsScheduled, IsOrdered, priority, if_other,
}
use cs439_pcs.Thread.Invariant.{Alike}
use cs439_pcs.Thread.Frame.{Agrees, same-Agrees, Agrees-IsScheduled, same-IsOrdered}
use cs439_pcs.Thread.Queue.{current_runs, queued}

-- A page that is none of the threads that the scheduler runs or may run.
pub record IsUnused (k : Kernel) (page : ℕ) : Type 0 where
  pub there : page ≢ 0
  pub not_current : k.current ≢ page
  pub not_idle : k.idle_thread ≢ page
  pub not_ready : Each (λ u. u ≢ page) k.ready_list

-- The state when the new thread is blocked and has its identifier.
unfoldable pub born : Kernel → ℕ → List ℕ → ℕ → Kernel
born k page name p =
    let k1 = record (put k page (blank_thread name p)) { all_list = k.all_list ++ page ∷ [] } in
    let k2 = record k1 { next_tid = (k.next_tid + 1) % word_mod } in
    put k2 page (record (k2.threads page) { tid = k.next_tid })

pub born_other :
    (k : Kernel) (page : ℕ) (name : List ℕ) (p u : ℕ)
    → u ≢ page
    → (born k page name p).threads u ≡ k.threads u
unfolding born
born_other k page name p u n =
    if_other page u _ _ n ∙ if_other page u (blank_thread name p) (k.threads u) n

pub born_self :
    (k : Kernel) (page : ℕ) (name : List ℕ) (p : ℕ)
    → (born k page name p).threads page ≡ record (blank_thread name p) { tid = k.next_tid }
unfolding born
born_self k page name p = rw (==_self page) refl

pub blank_blocked : (name : List ℕ) (p : ℕ) → (blank_thread name p).status ≡ blocked
unfolding blank_thread
blank_blocked name p = refl

born_place :
    (k : Kernel) (page : ℕ) (name : List ℕ) (p : ℕ)
    → HasPlace (born k page name p) k.ready_list page
born_place k page name p =
    not_ready (born k page name p) k.ready_list page blocked
      (ap (λ x. x.status) (born_self k page name p) ∙ blank_blocked name p) refl

born_idle :
    (k : Kernel) (page : ℕ) (name : List ℕ) (p : ℕ)
    → (born k page name p).idle_thread ≡ k.idle_thread
unfolding born
born_idle k page name p = refl

born-HasPlace :
    (k : Kernel) (page : ℕ) (name : List ℕ) (p u : ℕ)
    → HasPlace k k.ready_list u
    → HasPlace (born k page name p) k.ready_list u
born-HasPlace k page name p u h = elim (Bool-cases (page == u)) [
  | inl q ↦
      subst (HasPlace (born k page name p) k.ready_list) ((==_iff page u).0 q)
        (born_place k page name p)
  | inr q ↦
      HasPlace-same k (born k page name p) k.ready_list k.ready_list u
        (ap (λ x. x.status) (born_other k page name p u (λ e. apart (sym e) q)))
        (born_idle k page name p) (λ l. l) h
]
  where
    apart : {u : ℕ} → page ≡ u → (page == u) ≡ false → ⊥
    apart {u} e q = absurd (ground arith)

pub born-IsScheduled :
    (k : Kernel) (page : ℕ) (name : List ℕ) (p : ℕ)
    → IsUnused k page
    → IsScheduled k
    → IsScheduled (born k page name p)
unfolding born Each
born-IsScheduled k page name p n s =
    let agree : (u : ℕ) → u ≢ page → Agrees k (born k page name p) u =
      λ u m. same-Agrees k (born k page name p) u (born_other k page name p u m) in
    Agrees-IsScheduled k (born k page name p) refl refl refl (agree k.current n.not_current)
      (agree k.idle_thread n.not_idle)
      (Each-imp (λ u. u ≢ page) (Agrees k (born k page name p)) k.ready_list agree n.not_ready)
      (Each-append (HasPlace (born k page name p) k.ready_list) k.all_list (page ∷ [])
        (Each-imp (HasPlace k k.ready_list) (HasPlace (born k page name p) k.ready_list) k.all_list
          (born-HasPlace k page name p) s.places)
        (born_place k page name p, tt))
      s

pub born-IsOrdered :
    (k : Kernel) (page : ℕ) (name : List ℕ) (p : ℕ)
    → IsUnused k page
    → IsOrdered k
    → IsOrdered (born k page name p)
unfolding born
born-IsOrdered k page name p n o =
    same-IsOrdered k (born k page name p) refl
      (Each-imp (λ u. u ≢ page) (λ u. priority (born k page name p) u ≡ priority k u) k.ready_list
        (λ u m. ap (λ x. x.priority) (born_other k page name p u m)) n.not_ready)
      o

pub born_live :
    (k : Kernel) (page : ℕ) (name : List ℕ) (p : ℕ)
    → page ≢ 0
    → is_thread (born k page name p) page ≡ true
unfolding is_thread blank_thread
born_live k page name p n =
    ap (λ x. not (page == 0) && x.magic == thread_magic) (born_self k page name p)
    ∙ rw (==_ne page 0 n) refl

pub own_priority : (k : Kernel) → IsScheduled k → (p : ℕ) × (thread_get_priority k ≡ some p)
unfolding thread_get_priority
own_priority k s =
    (effective_priority k k.current (k.threads k.current).donor, rw (current_runs k s) refl)

-- The states that thread_create returns: the new thread is in the last place of all threads, under
-- the identifier that it returns.
pub record IsBorn (k : Kernel) (page : ℕ) (name : List ℕ) (p : ℕ) (k' : Kernel) : Type 0 where
  pub scheduled : IsScheduled k'
  pub ordered : IsOrdered k → IsOrdered k'
  pub alike : Alike (born k page name p) k'
  pub all : k'.all_list ≡ k.all_list ++ page ∷ []
  pub tids : k'.next_tid ≡ (k.next_tid + 1) % word_mod
  pub context : k'.in_external_intr ≡ k.in_external_intr

pub queued_context : (k : Kernel) (t : ℕ) → (queued k t).in_external_intr ≡ k.in_external_intr
unfolding insert_ready
queued_context k t = refl

pub queued_all : (k : Kernel) (t : ℕ) → (queued k t).all_list ≡ k.all_list
unfolding insert_ready
queued_all k t = refl

pub queued_tids : (k : Kernel) (t : ℕ) → (queued k t).next_tid ≡ k.next_tid
unfolding insert_ready
queued_tids k t = refl
