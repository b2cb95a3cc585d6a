-- ===== src/Synch/Release.antt =====
-- The priorities that lock_release of threads/synch.c gives back.
use cs439_pcs.Base.{ℕ, List, [], ◌∷◌, false, some, ◌==◌, if◌then◌else◌}
use cs439_pcs.Base.{◌≡◌, ◌≢◌, refl, ap, sym, ◌∙◌, inl, inr, arith}
use cs439_pcs.Base.{Bool-cases, ==_iff, ==_self, ==_is, ==_ne}
use cs439_pcs.Base.Each.{Each}
use cs439_pcs.Thread.{Kernel, Thread, put, thread_current, is_thread}
use cs439_pcs.Thread.Invariant.{if_other}
use cs439_pcs.Synch.{Machine, put_thread, put_lock, remaining, rechecked, donation_back}
use cs439_pcs.Synch.{priority_recheck, release_begin, lock_held_by_current_thread}
use mathlib.Core.Path.{subst}

-- The second list is the first without the threads that wait for the lock, in the same order.
pub data Sifts (k : Kernel) (l : ℕ) : List ℕ → List ℕ → Type 0 where
  done : Sifts k l [] []
  leaves :
      {t : ℕ} {ts us : List ℕ}
      → (k.threads t).try_lock ≡ l
      → Sifts k l ts us
      → Sifts k l (t ∷ ts) us
  stays :
      {t : ℕ} {ts us : List ℕ}
      → (k.threads t).try_lock ≢ l
      → Sifts k l ts us
      → Sifts k l (t ∷ ts) (t ∷ us)

remaining-Sifts : (k : Kernel) (l : ℕ) (ts : List ℕ) → Sifts k l ts (remaining k l ts)
unfolding remaining
remaining-Sifts k l [] = done
remaining-Sifts k l (t ∷ ts) = elim (Bool-cases ((k.threads t).try_lock == l)) [
  | inl q ↦ rw q (leaves ((==_iff _ _).0 q) (remaining-Sifts k l ts))
  | inr q ↦ rw q (stays (not_same _ _ q) (remaining-Sifts k l ts))
]
  where
    not_same : (a b : ℕ) → (a == b) ≡ false → a ≢ b
    not_same a b q e = absurd (ground arith)

remaining_none :
    (k : Kernel) (l : ℕ) (ts : List ℕ)
    → Each (λ t. (k.threads t).try_lock ≡ l) ts
    → remaining k l ts ≡ []
unfolding remaining Each
remaining_none k l [] e = refl
remaining_none k l (t ∷ ts) e = rw (==_is _ _ e.0) (remaining_none k l ts e.1)

pub keeps_current :
    (k k' : Kernel)
    → k'.current ≡ k.current
    → ((u : ℕ) → (k'.threads u).magic ≡ (k.threads u).magic)
    → ((u : ℕ) → (k'.threads u).status ≡ (k.threads u).status)
    → thread_current k' ≡ thread_current k
unfolding thread_current is_thread
keeps_current k k' c m s = rw (c, m k.current, s k.current) refl

-- A thread written back with the same signature and status.
put_keeps_current :
    (k : Kernel) (cur : ℕ) (th : Thread)
    → th.magic ≡ (k.threads cur).magic
    → th.status ≡ (k.threads cur).status
    → thread_current (put k cur th) ≡ thread_current k
put_keeps_current k cur th m s =
    keeps_current k (put k cur th) refl (λ u. pointwise k cur th u (λ x. x.magic) m)
      (λ u. pointwise k cur th u (λ x. x.status) s)
  where
    pointwise :
        {B : Type 0} (k : Kernel) (cur : ℕ) (th : Thread) (u : ℕ) (f : Thread → B)
        → f th ≡ f (k.threads cur)
        → f (if cur == u then th else k.threads u) ≡ f (k.threads u)
    pointwise k cur th u f e = elim (Bool-cases (cur == u)) [
      | inl q ↦ rw q (e ∙ ap (λ v. f (k.threads v)) ((==_iff cur u).0 q))
      | inr q ↦ rw q refl
    ]

self_put : (k : Kernel) (t : ℕ) (th : Thread) → (put k t th).threads t ≡ th
self_put k t th = rw (==_self t) refl

-- The kernel after donation_back, and then after priority_recheck, on a thread with the donors `ds`
-- left.
abbrev left_with : Machine → ℕ → List ℕ → Machine
left_with m cur ds = put_thread m cur (record (m.kernel.threads cur) { donor = ds })

rechecks :
    (m : Machine) (cur : ℕ) (ds : List ℕ)
    → thread_current m.kernel ≡ some cur
    → priority_recheck (left_with m cur ds)
      ≡ some (
          put_thread (left_with m cur ds) cur (record (m.kernel.threads cur) {
            donor = ds;
            priority = rechecked (left_with m cur ds).kernel cur ds;
          }))
unfolding priority_recheck
rechecks m cur ds c =
    let k = (left_with m cur ds).kernel in
    let th : Thread = record (m.kernel.threads cur) { donor = ds } in
    let c' = put_keeps_current m.kernel cur th refl refl ∙ c in
    rw c' (
      ap
        (λ (x : Thread).
          some
            (put_thread (left_with m cur ds) cur (record x { priority = rechecked k cur x.donor })))
        (self_put m.kernel cur th))

-- The priority that is set, in terms of the state before.
rechecked_there :
    (m : Machine) (cur : ℕ) (ds : List ℕ)
    → rechecked (left_with m cur ds).kernel cur ds ≡ rechecked m.kernel cur ds
unfolding rechecked
rechecked_there m cur [] =
    ap (λ x. x.original_priority)
      (self_put m.kernel cur (record (m.kernel.threads cur) { donor = [] }))
rechecked_there m cur (t ∷ ts) = elim (Bool-cases (cur == t)) [
  | inl q ↦ rw (rechecked, q) (ap (λ v. (m.kernel.threads v).priority) ((==_iff cur t).0 q))
  | inr q ↦ rw (rechecked, q) refl
]

original : (k : Kernel) (cur : ℕ) → rechecked k cur [] ≡ (k.threads cur).original_priority
unfolding rechecked
original k cur = refl

first_donor :
    (k : Kernel) (cur t : ℕ) (ts : List ℕ) → rechecked k cur (t ∷ ts) ≡ (k.threads t).priority
unfolding rechecked
first_donor k cur t ts = refl

-- What the part of lock_release before sema_up leaves: the lock has no holder, the current thread
-- has the donors that do not wait for the lock and the priority of the first of them, or its
-- original one, and other threads are as they were.
pub record Restored (m m' : Machine) (l cur : ℕ) : Type 0 where
  pub no_holder : (m'.locks l).holder ≡ 0
  pub donors : Sifts m.kernel l (m.kernel.threads cur).donor (m'.kernel.threads cur).donor
  pub own :
      Each (λ t. (m.kernel.threads t).try_lock ≡ l) (m.kernel.threads cur).donor
      → ((m'.kernel.threads cur).donor ≡ [])
        × ((m'.kernel.threads cur).priority ≡ (m.kernel.threads cur).original_priority)
  pub lent :
      (t : ℕ) (ts : List ℕ)
      → (m'.kernel.threads cur).donor ≡ t ∷ ts
      → (m'.kernel.threads cur).priority ≡ (m.kernel.threads t).priority
  pub others : (u : ℕ) → u ≢ cur → m'.kernel.threads u ≡ m.kernel.threads u

release_runs :
    (m m1 m2 : Machine) (l cur : ℕ)
    → l ≢ 0
    → thread_current m.kernel ≡ some cur
    → (m.locks l).holder ≡ cur
    → donation_back m l ≡ some m1
    → priority_recheck m1 ≡ some m2
    → release_begin m l ≡ some (put_lock m2 l (record (m2.locks l) { holder = 0 }))
unfolding release_begin lock_held_by_current_thread
release_runs m m1 m2 l cur z c h b r = rw (==_ne l 0 z, c, ==_is _ _ h, b, r) refl

-- For the holder of a lock, which is not null, lock_release comes to its call of sema_up. By then
-- the lock has no holder, and of the threads that lent the holder their priority just those that wait for other
-- locks are left. If none is, the holder has its original priority back; else it has that of the
-- first of them. No other thread has changed.
pub release_begin-Restored :
    (m : Machine) (l cur : ℕ)
    → l ≢ 0
    → thread_current m.kernel ≡ some cur
    → (m.locks l).holder ≡ cur
    → (m' : Machine) × (release_begin m l ≡ some m') × Restored m m' l cur
unfolding donation_back
release_begin-Restored m l cur z c h =
    let ds = remaining m.kernel l (m.kernel.threads cur).donor in
    let m1 = left_with m cur ds in
    let th : Thread = record (m.kernel.threads cur) {
      donor = ds;
      priority = rechecked m1.kernel cur ds;
    } in
    let m2 = put_thread m1 cur th in
    let self = self_put m1.kernel cur th in
    let p = ap (λ x. x.priority) self ∙ rechecked_there m cur ds in
    (
      put_lock m2 l (record (m2.locks l) { holder = 0 }),
      release_runs m m1 m2 l cur z c h (rw c refl) (rechecks m cur ds c),
      record {
        no_holder = rw (==_self l) refl;
        donors =
            subst (Sifts m.kernel l (m.kernel.threads cur).donor) (sym (ap (λ x. x.donor) self))
              (remaining-Sifts m.kernel l (m.kernel.threads cur).donor);
        own = λ e.
            let none_left = remaining_none m.kernel l (m.kernel.threads cur).donor e in
            (
              ap (λ x. x.donor) self ∙ none_left,
              p ∙ ap (rechecked m.kernel cur) none_left ∙ original m.kernel cur,
            );
        lent = λ t ts e.
            p
            ∙ (ap (rechecked m.kernel cur) (sym (ap (λ x. x.donor) self) ∙ e)
                ∙ first_donor m.kernel cur t ts);
        others = λ u n. if_other cur u th _ n ∙ if_other cur u _ (m.kernel.threads u) n;
      },
    )
