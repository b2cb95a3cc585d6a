-- ===== src/Synch/Wake.antt =====
-- sema_up of threads/synch.c wakes a waiting thread of the highest priority.
use cs439_pcs.Base.{◌%◌, word_mod}
use cs439_pcs.Base.{ℕ, ◌+◌, ◌≤◌, ◌<◌, List, [], ◌∷◌, Bool, true, false, Option, some}
use cs439_pcs.Base.{◌≡◌, refl, ap, sym, ◌∙◌, ◌⊎◌, inl, inr, arith, ◌==◌, if◌then◌else◌}
use cs439_pcs.Base.{Bool-cases, ==_iff, ==_self}
use cs439_pcs.Base.Each.{Each, Falling, Listed}
use cs439_pcs.DoublyLinked.Sort.{list_sort}
use cs439_pcs.DoublyLinked.Sort.Laws.{occurrences}
use cs439_pcs.DoublyLinked.Sort.Passes.{list_sort-Falling}
use cs439_pcs.Thread.{Kernel, Semaphore, blocked, is_thread, compare_priority, check_priority}
use cs439_pcs.Thread.Invariant.{IsScheduled, IsOrdered, RunsHighest, priority}
use cs439_pcs.Thread.Queue.{
  queued, queued-Listed_self, unblock_runs, queued-IsScheduled, queued-IsOrdered,
}
use cs439_pcs.Thread.Birth.{queued_context}
use cs439_pcs.Thread.Yield.{check_priority-Rescheduled}
use cs439_pcs.Synch.{sema_up, wake_first}
use mathlib.Core.Path.{subst}

-- A thread that is blocked.
unfoldable pub IsBlocked : Kernel → ℕ → Type 0
IsBlocked k t = ((k.threads t).status ≡ blocked) × (is_thread k t ≡ true)

module _ (P : ℕ → Type 0) where
  Each-occurring : (xs : List ℕ) → Each P xs → (t : ℕ) → 0 < occurrences t xs → P t
  unfolding Each occurrences
  Each-occurring [] e t h = absurd (omega (arith, h))
  Each-occurring (x ∷ xs) e t h = elim (Bool-cases (t == x)) [
    | inl q ↦ subst P (sym ((==_iff t x).0 q)) e.0
    | inr q ↦ Each-occurring xs e.1 t (omega (arith, rw q at h))
  ]

  occurring-Each : (xs : List ℕ) → ((t : ℕ) → 0 < occurrences t xs → P t) → Each P xs
  unfolding Each occurrences
  occurring-Each [] f = tt
  occurring-Each (x ∷ xs) f = (
    f x (rw (==_self x) (omega arith)),
    occurring-Each xs (λ t h. f t (more (if t == x then 1 else 0) (occurrences t xs) h)),
  )
    where
      more : (a b : ℕ) → 0 < b → 0 < a + b
      more a b h = omega (arith, h)

  same-Each :
      (xs ys : List ℕ) → ((t : ℕ) → occurrences t ys ≡ occurrences t xs) → Each P xs → Each P ys
  same-Each xs ys f e = occurring-Each ys (λ t h. Each-occurring xs e t (omega (arith, h, f t)))

none_occurs : (xs : List ℕ) → ((t : ℕ) → occurrences t [] ≡ occurrences t xs) → xs ≡ []
unfolding occurrences
none_occurs [] f = refl
none_occurs (x ∷ xs) f = absurd (one_more (occurrences x xs) (rw (==_self x) at (f x)))
  where
    one_more : (n : ℕ) → 0 ≡ 1 + n → ⊥
    one_more n e = omega (arith, e)

sorted :
    (k : Kernel) (xs : List ℕ)
    → (ys : List ℕ) × (list_sort (compare_priority k) xs ≡ some ys)
      × Falling (priority k) ys
      × ((t : ℕ) → occurrences t ys ≡ occurrences t xs)
unfolding compare_priority
sorted k xs = list_sort-Falling (priority k) xs

-- What sema_up does with the semaphore: nobody waits, or a thread of the highest priority among
-- those that wait is taken off, and it is in the ready list, or runs.
unfoldable pub Woken : Kernel → Semaphore → Semaphore → Kernel → Type 0
Woken k sema s' k' =
    ((sema.waiters ≡ []) × (s'.waiters ≡ []))
    ⊎ ((t : ℕ) × Each (λ u. priority k u ≤ priority k t) s'.waiters
        × ((x : ℕ) → occurrences x (t ∷ s'.waiters) ≡ occurrences x sema.waiters)
        × ((k'.current ≡ t) ⊎ Listed t k'.ready_list))

-- The same before check_priority, with the thread in the ready list.
unfoldable Queued : Kernel → Semaphore → Semaphore → Kernel → Type 0
Queued k sema s' k' =
    ((sema.waiters ≡ []) × (s'.waiters ≡ []))
    ⊎ ((t : ℕ) × Each (λ u. priority k u ≤ priority k t) s'.waiters
        × ((x : ℕ) → occurrences x (t ∷ s'.waiters) ≡ occurrences x sema.waiters)
        × Listed t k'.ready_list)

-- Another thread may have taken over since.
later-Woken :
    (k : Kernel) (sema s' : Semaphore) (k1 k2 : Kernel)
    → ((u : ℕ) → Listed u k1.ready_list → (k2.current ≡ u) ⊎ Listed u k2.ready_list)
    → Queued k sema s' k1
    → Woken k sema s' k2
unfolding Woken Queued
later-Woken k sema s' k1 k2 f (inl e) = inl e
later-Woken k sema s' k1 k2 f (inr (t, h, o, l)) = inr (t, h, o, f t l)

record Wakes (k : Kernel) (sema : Semaphore) (s' : Semaphore) (k' : Kernel) : Type 0 where
  scheduled : IsScheduled k'
  ordered : IsOrdered k → IsOrdered k'
  context : k'.in_external_intr ≡ k.in_external_intr
  value : s'.value ≡ sema.value
  woken : Queued k sema s' k'

wake-Wakes :
    (k : Kernel) (sema : Semaphore) (xs : List ℕ)
    → IsScheduled k
    → Each (IsBlocked k) xs
    → Falling (priority k) xs
    → ((t : ℕ) → occurrences t xs ≡ occurrences t sema.waiters)
    → (s' : Semaphore) × (k' : Kernel) × (wake_first k sema xs ≡ some (s', k')) × Wakes k sema s' k'
unfolding wake_first Each Falling Queued IsBlocked
wake-Wakes k sema [] s b f o =
    let e = none_occurs sema.waiters o in
    (
      sema,
      k,
      refl,
      record { scheduled = s; ordered = λ q. q; context = refl; value = refl; woken = inl (e, e) },
    )
wake-Wakes k sema (t ∷ ts) s b f o = (
  record sema { waiters = ts },
  queued k t,
  rw (unblock_runs k t b.0.1 b.0.0) refl,
  record {
    scheduled = queued-IsScheduled k t s b.0.1 b.0.0;
    ordered = queued-IsOrdered k t;
    context = queued_context k t;
    value = refl;
    woken = inr (t, f.0, o, queued-Listed_self k t);
  },
)

up_runs :
    (k k1 k2 : Kernel) (sema s1 : Semaphore) (xs : List ℕ)
    → list_sort (compare_priority k) sema.waiters ≡ some xs
    → wake_first k sema xs ≡ some (s1, k1)
    → (if k1.in_external_intr then some k1 else check_priority k1) ≡ some k2
    → sema_up k sema ≡ some (record s1 { value = (s1.value + 1) % word_mod }, k2)
unfolding sema_up
up_runs k k1 k2 sema s1 xs o w c = rw (o, w, c) refl

-- sema_up of a semaphore whose waiters are blocked returns, with the scheduler's state in order and
-- the value one up, as an unsigned int. If threads wait, one of the highest priority among them is
-- off the list, which holds the others as before, and it is in the ready list or runs. Outside an
-- interrupt, and if the ready list went down by priority, no ready thread has a higher priority than
-- the one that runs.
pub sema_up-Woken :
    (k : Kernel) (sema : Semaphore)
    → IsScheduled k
    → Each (IsBlocked k) sema.waiters
    → (s' : Semaphore) × (k' : Kernel) × (sema_up k sema ≡ some (s', k'))
      × IsScheduled k'
      × (s'.value ≡ (sema.value + 1) % word_mod)
      × Woken k sema s' k'
      × (k.in_external_intr ≡ false → IsOrdered k → RunsHighest k')
unfolding Queued Woken
sema_up-Woken k sema s b =
    let (xs, sorts, f, o) = sorted k sema.waiters in
    let (s1, k1, runs, w) =
      wake-Wakes k sema xs s (same-Each (IsBlocked k) sema.waiters xs o b) f o in
    let next : Bool → Option Kernel = λ c. if c then some k1 else check_priority k1 in
    elim (Bool-cases k.in_external_intr) [
      | inl q ↦ (
        record s1 { value = (s1.value + 1) % word_mod },
        k1,
        up_runs k k1 k1 sema s1 xs sorts runs (ap next (w.context ∙ q)),
        w.scheduled,
        ap (λ v. (v + 1) % word_mod) w.value,
        later-Woken k sema (record s1 { value = (s1.value + 1) % word_mod }) k1 k1 (λ u l. inr l)
            w.woken,
        λ z. absurd (clash (sym q ∙ z)),
      )
      | inr q ↦
          let (k2, checks, r) = check_priority-Rescheduled k1 w.scheduled (w.context ∙ q) in
          (
            record s1 { value = (s1.value + 1) % word_mod },
            k2,
            up_runs k k1 k2 sema s1 xs sorts runs (ap next (w.context ∙ q) ∙ checks),
            r.scheduled,
            ap (λ v. (v + 1) % word_mod) w.value,
            later-Woken k sema (record s1 { value = (s1.value + 1) % word_mod }) k1 k2 r.keeps
                w.woken,
            λ z i. (r.highest (w.ordered i)).1,
          )
    ]
  where
    clash : true ≡ false → ⊥
    clash q = absurd (ground arith)
