-- ===== src/Thread/Schedule.antt =====
-- schedule of threads/thread.c, from a state in which the current thread gives up the processor.
use cs439_pcs.Base.{ℕ, true, some, List, [], ◌∷◌}
use cs439_pcs.Base.{◌≡◌, ◌≢◌, refl, sym, ◌∙◌, ◌⊎◌, inl, inr}
use cs439_pcs.Base.Each.{Each, Distinct, Falling, Listed, Each-imp}
use cs439_pcs.Thread.{Kernel, is_thread, next_thread_to_run}
use cs439_pcs.Thread.{schedule}
use cs439_pcs.Thread.Switch.{next-Switched}
use cs439_pcs.Thread.Invariant.{
  IsReady, IsScheduled, IsOrdered, RunsHighest, IsSwitching, HasPlace, HasPlace-same, priority,
}
use cs439_pcs.Thread.Invariant.{Switched-IsScheduled, Switched-Alike, Switched-RunsHighest, Alike}
use mathlib.Core.Path.{subst}

-- What holds after a call that ends in schedule: the scheduler's state is in order, each
-- thread is as it was but for its status, and if the ready list goes down by priority no ready thread has a higher priority
-- than the one that runs.
pub record Rescheduled (k k' : Kernel) : Type 0 where
  pub scheduled : IsScheduled k'
  pub alike : Alike k k'
  pub highest : IsOrdered k → IsOrdered k' × RunsHighest k'
  pub context : k'.in_external_intr ≡ k.in_external_intr
  pub all : k'.all_list ≡ k.all_list
  pub tids : k'.next_tid ≡ k.next_tid
  pub idle_same : k'.idle_thread ≡ k.idle_thread
  pub keeps : (u : ℕ) → Listed u k.ready_list → (k'.current ≡ u) ⊎ Listed u k'.ready_list

-- The first ready thread, or the idle thread.
next_is :
    (k : Kernel) (xs : List ℕ)
    → k.ready_list ≡ xs
    → IsSwitching k
    → (t : ℕ) × (ts : List ℕ) × (next_thread_to_run k ≡ (t, record k { ready_list = ts }))
      × (is_thread k t ≡ true)
      × Each (IsReady k) ts
      × Each (λ u. u ≢ t) ts
      × Distinct ts
      × (IsOrdered k → Falling (priority k) (t ∷ ts))
      × ((u : ℕ) → Listed u k.ready_list → Listed u (t ∷ ts))
unfolding next_thread_to_run Each Distinct IsReady Falling IsOrdered Listed
next_is k [] e s = (
  k.idle_thread,
  [],
  rw e refl,
  s.idle,
  tt,
  tt,
  tt,
  λ o. (tt, tt),
  λ u l. absurd (subst (Listed u) e l),
)
next_is k (t ∷ ts) e s =
    let r = subst (λ l. Each (IsReady k) l) e s.ready_threads in
    let d = subst Distinct e s.distinct in
    (
      t,
      ts,
      rw e refl,
      r.0.1,
      r.1,
      d.0,
      d.1,
      λ o. subst (λ l. Falling (priority k) l) e o,
      λ u. subst (Listed u) e,
    )

pub schedule-Rescheduled :
    (k : Kernel)
    → IsSwitching k
    → (k' : Kernel) × (schedule k ≡ some k') × (k'.thread_ticks ≡ 0) × Rescheduled k k'
unfolding is_thread IsReady IsOrdered Alike Listed HasPlace
schedule-Rescheduled k s =
    let (t, ts, e, live, r, n, d, f, g) = next_is k k.ready_list refl s in
    let k1 : Kernel = record k { ready_list = ts } in
    let (k', runs, sw) = next-Switched k k1 t e s.stopped live in
    let k2 : Kernel = record k1 { current = t } in
    (
      k',
      runs,
      sw.slice,
      record {
        scheduled = Switched-IsScheduled k2 k' t ts sw live r n d s.idle (
            Each-imp (HasPlace k k.ready_list) (HasPlace k2 (t ∷ ts)) k.all_list
              (λ u. HasPlace-same k k2 k.ready_list (t ∷ ts) u refl refl (g u)) s.places);
        alike = Switched-Alike k2 k' t ts sw;
        highest = λ o. Switched-RunsHighest k2 k' t ts sw (f o);
        context = sw.context;
        all = sw.all;
        tids = sw.tids;
        idle_same = sw.idle;
        keeps = λ u l. elim (g u l) [
          | inl a ↦ inl (sw.to ∙ a)
          | inr m ↦ inr (subst (Listed u) (sym sw.rest) m)
        ];
      },
    )
