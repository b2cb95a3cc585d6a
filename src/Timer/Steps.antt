-- ===== src/Timer/Steps.antt =====
-- The states that the scheduler of threads/thread.c reaches, by its own operations and interrupts of
-- the timer of devices/timer.c: priorities that threads/synch.c lends are not among them.
use cs439_pcs.Base.{ℕ, ◌≤◌, Bool, true, false, not, Option, some, List, [], ◌∷◌, inl, inr, ◌==◌}
use cs439_pcs.Base.{◌≡◌, refl, ap, sym, ◌∙◌, some_eq, assert, ◌>>=◌, ◌>>◌, Bool-cases}
use cs439_pcs.Base.Each.{Each}
use cs439_pcs.Thread.{Kernel, Thread, blocked, dying, is_thread, set_status, put, pri_max}
use cs439_pcs.Thread.{thread_unblock, thread_block, thread_yield, thread_set_priority}
use cs439_pcs.Thread.{thread_current, schedule}
use cs439_pcs.Thread.Create.{create_blocked, thread_exit, exit_end, process_exit_end, without}
use cs439_pcs.Thread.Invariant.{IsReady, IsScheduled, IsOrdered, RunsHighest, HasPlace}
use cs439_pcs.Thread.Frame.{put-IsScheduled, put-IsOrdered}
use cs439_pcs.Thread.Queue.{current_runs, unblock_runs, queued-IsScheduled, queued-IsOrdered}
use cs439_pcs.Thread.Schedule.{Rescheduled, schedule-Rescheduled}
use cs439_pcs.Thread.Yield.{status-Rescheduled, leaving-IsSwitching}
use cs439_pcs.Thread.Yield.{thread_yield-Rescheduled, thread_block-Rescheduled}
use cs439_pcs.Thread.Priority.{thread_set_priority-RunsHighest}
use cs439_pcs.Thread.Birth.{IsUnused, queued_context, born}
use cs439_pcs.Thread.Creation.{reared, create_blocked_runs}
use cs439_pcs.Thread.Birth.{born-IsScheduled, born-IsOrdered}
use cs439_pcs.Thread.Creation.{reared-IsScheduled}
use cs439_pcs.Timer.{Clock, timer_tick}
use cs439_pcs.Timer.Tick.{IsAsleep, timer_tick-Ticks}
use mathlib.Core.Path.{subst}

-- One operation, from its start to where the next thread goes on.
pub data Step (k k' : Kernel) : Type 0 where
  made :
      (page child dir : ℕ) (name : List ℕ) (p tid : ℕ)
      → IsUnused k page
      → p ≤ pri_max
      → create_blocked k page child dir name p ≡ some (tid, k')
      → Step k k'
  woken :
      (t : ℕ)
      → is_thread k t ≡ true
      → (k.threads t).status ≡ blocked
      → thread_unblock k t ≡ some k'
      → Step k k'
  slept : thread_block k ≡ some k' → Step k k'
  yielded : thread_yield k ≡ some k' → Step k k'
  prioritised : (p : ℕ) → thread_set_priority k p ≡ some k' → Step k k'
  exited : (userprog : Bool) → thread_exit userprog k ≡ some k' → Step k k'
  ticked :
      (c c' : Clock)
      → c.kernel ≡ k
      → IsAsleep c
      → timer_tick c ≡ some c'
      → c'.kernel ≡ k'
      → Step k k'

-- The scheduler's state outside an interrupt, with a ready list that goes down by priority.
pub record IsOrderly (k : Kernel) : Type 0 where
  pub scheduled : IsScheduled k
  pub outside : k.in_external_intr ≡ false
  pub ordered : IsOrdered k

pub data Reachable (first : Kernel) : Kernel → Type 0 where
  start : Reachable first first
  next : {k k' : Kernel} → Reachable first k → Step k k' → Reachable first k'

-- An operation that returns returns one state only.
only : {m : Option Kernel} {k k' : Kernel} → m ≡ some k → IsOrderly k → m ≡ some k' → IsOrderly k'
only a h b = subst IsOrderly (some_eq (sym a ∙ b)) h

exit_runs :
    (k k' : Kernel)
    → k.in_external_intr ≡ false
    → thread_current k ≡ some k.current
    → schedule (set_status (record k { all_list = without k.current k.all_list }) k.current dying)
      ≡ some k'
    → thread_exit false k ≡ some k'
unfolding thread_exit exit_end
exit_runs k k' off c r =
    let rest : ℕ → Option Kernel =
      λ cur. schedule (set_status (record k { all_list = without cur k.all_list }) cur dying) in
    ap (λ b. assert (not b) >> (thread_current k >>= rest)) off ∙ (ap (λ o. o >>= rest) c ∙ r)

Each-without : (P : ℕ → Type 0) (t : ℕ) (xs : List ℕ) → Each P xs → Each P (without t xs)
unfolding Each
Each-without P t [] e = tt
Each-without P t (x ∷ xs) e = elim (Bool-cases (t == x)) [
  | inl q ↦ rw q e.1
  | inr q ↦ rw q (e.0, Each-without P t xs e.1)
]

without-IsScheduled :
    (k : Kernel)
    → IsScheduled k
    → IsScheduled (record k { all_list = without k.current k.all_list })
unfolding IsReady is_thread HasPlace
without-IsScheduled k s = record {
  runs = s.runs;
  live = s.live;
  ready_threads = s.ready_threads;
  distinct = s.distinct;
  idle = s.idle;
  places = Each-without (HasPlace k k.ready_list) k.current k.all_list s.places;
}

exit-IsOrderly :
    (k : Kernel) → IsOrderly k → (k' : Kernel) × (thread_exit false k ≡ some k') × IsOrderly k'
unfolding IsOrdered
exit-IsOrderly k o =
    let k1 : Kernel = record k { all_list = without k.current k.all_list } in
    let s1 : IsScheduled k1 = without-IsScheduled k o.scheduled in
    let (k', runs, z, r) =
      schedule-Rescheduled (set_status k1 k1.current dying)
        (leaving-IsSwitching k1 dying s1 refl (inl refl)) in
    let r1 = status-Rescheduled k1 dying k' r in
    (
      k',
      exit_runs k k' o.outside (current_runs k o.scheduled) runs,
      record {
        scheduled = r1.scheduled;
        outside = r1.context ∙ o.outside;
        ordered = (r1.highest o.ordered).0;
      },
    )

Rescheduled-IsOrderly : (k k' : Kernel) → IsOrderly k → Rescheduled k k' → IsOrderly k'
Rescheduled-IsOrderly k k' o r = record {
  scheduled = r.scheduled;
  outside = r.context ∙ o.outside;
  ordered = (r.highest o.ordered).0;
}

-- Where USERPROG is defined, thread_exit ends in thread_block.
process_exit_runs :
    (k k' : Kernel)
    → k.in_external_intr ≡ false
    → thread_current k ≡ some k.current
    → thread_block (put k k.current (record (k.threads k.current) { pagedir = 0 })) ≡ some k'
    → thread_exit true k ≡ some k'
unfolding thread_exit process_exit_end
process_exit_runs k k' off c r =
    let rest : ℕ → Option Kernel =
      λ cur. thread_block (put k cur (record (k.threads cur) { pagedir = 0 })) in
    ap (λ b. assert (not b) >> (thread_current k >>= rest)) off ∙ (ap (λ o. o >>= rest) c ∙ r)

process_exit-IsOrderly :
    (k : Kernel) → IsOrderly k → (k' : Kernel) × (thread_exit true k ≡ some k') × IsOrderly k'
process_exit-IsOrderly k o =
    let th : Thread = record (k.threads k.current) { pagedir = 0 } in
    let (k', runs, z, r) =
      thread_block-Rescheduled (put k k.current th)
        (put-IsScheduled k k.current th refl refl o.scheduled) o.outside in
    (
      k',
      process_exit_runs k k' o.outside (current_runs k o.scheduled) runs,
      record {
        scheduled = r.scheduled;
        outside = r.context ∙ o.outside;
        ordered = (r.highest (put-IsOrdered k k.current th refl o.ordered)).0;
      },
    )

born-IsOrderly :
    (k : Kernel) (page child dir : ℕ) (name : List ℕ) (p : ℕ)
    → IsOrderly k
    → IsUnused k page
    → p ≤ pri_max
    → (k' : Kernel) × (create_blocked k page child dir name p ≡ some (k.next_tid, k'))
      × IsOrderly k'
unfolding born IsOrdered
born-IsOrderly k page child dir name p o n le =
    let (f, c, e) = create_blocked_runs k page child dir name p o.scheduled n le in
    (
      reared (born k page name p) f c,
      e,
      record {
        scheduled =
            reared-IsScheduled (born k page name p) f c
              (born-IsScheduled k page name p n o.scheduled);
        outside = o.outside;
        ordered = born-IsOrdered k page name p n o.ordered;
      },
    )

Step-IsOrderly : {k k' : Kernel} → IsOrderly k → Step k k' → IsOrderly k'
Step-IsOrderly {k} {k'} o (made page child dir name p tid n le e) =
    let (k1, runs, q) = born-IsOrderly k page child dir name p o n le in
    subst IsOrderly (ap (λ (x : ℕ × Kernel). x.1) (some_eq (sym runs ∙ e))) q
Step-IsOrderly {k} {k'} o (woken t live b e) =
    only (unblock_runs k t live b)
      (record {
        scheduled = queued-IsScheduled k t o.scheduled live b;
        outside = queued_context k t ∙ o.outside;
        ordered = queued-IsOrdered k t o.ordered;
      })
      e
Step-IsOrderly {k} {k'} o (slept e) =
    let (k1, runs, z, r) = thread_block-Rescheduled k o.scheduled o.outside in
    only runs (Rescheduled-IsOrderly k k1 o r) e
Step-IsOrderly {k} {k'} o (yielded e) =
    let (k1, runs, z, r) = thread_yield-Rescheduled k o.scheduled o.outside in
    only runs (Rescheduled-IsOrderly k k1 o r) e
Step-IsOrderly {k} {k'} o (prioritised p e) =
    let (k1, runs, s, c, q, h, own, _) =
      thread_set_priority-RunsHighest k p o.scheduled o.outside o.ordered in
    only runs (record { scheduled = s; outside = c; ordered = q }) e
Step-IsOrderly {k} {k'} o (exited false e) = let (k1, runs, q) = exit-IsOrderly k o in only runs q e
Step-IsOrderly {k} {k'} o (exited true e) =
    let (k1, runs, q) = process_exit-IsOrderly k o in only runs q e
Step-IsOrderly {k} {k'} o (ticked c c' is a e is') =
    let h = subst IsOrderly (sym is) o in
    let (c1, runs, t) = timer_tick-Ticks c h.scheduled h.outside a in
    let q : IsOrderly c1.kernel = record {
      scheduled = t.scheduled;
      outside = t.outside;
      ordered = t.ordered h.ordered;
    } in
    subst IsOrderly (ap (λ (x : Clock). x.kernel) (some_eq (sym runs ∙ e)) ∙ is') q

-- From a state that is in order, outside an interrupt and with a ready list that goes down by
-- priority, every state that thread_create, thread_unblock, thread_block, thread_yield,
-- thread_set_priority, thread_exit and interrupts of the timer lead to is so too: a thread runs in
-- the status THREAD_RUNNING; the ready list holds each thread in it once, in the status
-- THREAD_READY, and goes down by priority; and each of all threads in that status, but the idle
-- thread, is in it. thread_create is cut before it unblocks the new thread and before it yields;
-- thread_exit ends in thread_block where USERPROG is defined. New threads are on pages that are
-- not in use, and the timer's sleep list rises by time and has threads in it that sleep.
pub Reachable-IsOrderly : {first k : Kernel} → IsOrderly first → Reachable first k → IsOrderly k
Reachable-IsOrderly o start = o
Reachable-IsOrderly o (next r e) = Step-IsOrderly (Reachable-IsOrderly o r) e

-- From such a first state, in every state that is reached, with a sleep list that rises by time and
-- has threads in it that sleep, thread_yield, thread_block and the interrupt of the timer return:
-- none of their assertions fails. They leave a state that is in order in the same way, so no ready
-- thread is lost, and after thread_yield and thread_block no ready thread has a higher priority
-- than the one that runs.
pub Reachable-RunsHighest :
    {first : Kernel} (c : Clock)
    → IsOrderly first
    → Reachable first c.kernel
    → IsAsleep c
    → ((k' : Kernel) × (thread_yield c.kernel ≡ some k') × RunsHighest k' × IsOrderly k')
      × ((k' : Kernel) × (thread_block c.kernel ≡ some k') × RunsHighest k' × IsOrderly k')
      × ((c' : Clock) × (timer_tick c ≡ some c') × IsOrderly c'.kernel)
Reachable-RunsHighest c o r a =
    let k = c.kernel in
    let q = Reachable-IsOrderly o r in
    let (k1, runs1, _, r1) = thread_yield-Rescheduled k q.scheduled q.outside in
    let (k2, runs2, _, r2) = thread_block-Rescheduled k q.scheduled q.outside in
    let (c3, runs3, t) = timer_tick-Ticks c q.scheduled q.outside a in
    (
      (k1, runs1, (r1.highest q.ordered).1, Rescheduled-IsOrderly k k1 q r1),
      (k2, runs2, (r2.highest q.ordered).1, Rescheduled-IsOrderly k k2 q r2),
      (
        c3,
        runs3,
        record { scheduled = t.scheduled; outside = t.outside; ordered = t.ordered q.ordered },
      ),
    )
