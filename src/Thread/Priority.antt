-- ===== src/Thread/Priority.antt =====
-- thread_set_priority of threads/thread.c.
use cs439_pcs.Base.{ℕ, false, some}
use cs439_pcs.Base.{◌≡◌, ◌≢◌, refl, ap, ◌∙◌}
use cs439_pcs.Base.{==_self}
use cs439_pcs.Base.Each.{Each-imp}
use cs439_pcs.Thread.{Kernel, put}
use cs439_pcs.Thread.{thread_set_priority}
use cs439_pcs.Thread.Invariant.{IsScheduled, IsOrdered, RunsHighest, priority, if_other, Alike}
use cs439_pcs.Thread.Frame.{put-IsScheduled, same-IsOrdered}
use cs439_pcs.Thread.Queue.{current_runs}
use cs439_pcs.Thread.Yield.{current_not_listed, check_priority-Rescheduled}

-- The current thread with both its priorities replaced.
prioritised : Kernel → ℕ → Kernel
prioritised k p =
    put k k.current (record (k.threads k.current) { priority = p; original_priority = p })

prioritised-IsScheduled : (k : Kernel) (p : ℕ) → IsScheduled k → IsScheduled (prioritised k p)
unfolding prioritised
prioritised-IsScheduled k p =
    put-IsScheduled k k.current
      (record (k.threads k.current) { priority = p; original_priority = p }) refl refl

prioritised-IsOrdered :
    (k : Kernel) (p : ℕ) → IsScheduled k → IsOrdered k → IsOrdered (prioritised k p)
unfolding prioritised
prioritised-IsOrdered k p s o =
    same-IsOrdered k (prioritised k p) refl
      (Each-imp (λ u. u ≢ k.current) (λ u. priority (prioritised k p) u ≡ priority k u) k.ready_list
        (λ u n. ap (λ x. x.priority) (if_other k.current u _ (k.threads u) n))
        (current_not_listed k s))
      o

own_priority : (k : Kernel) (p : ℕ) → priority (prioritised k p) k.current ≡ p
unfolding prioritised
own_priority k p = rw (priority, ==_self k.current) refl

own_original : (k : Kernel) (p : ℕ) → ((prioritised k p).threads k.current).original_priority ≡ p
unfolding prioritised
own_original k p = rw (==_self k.current) refl

-- Outside an interrupt, thread_set_priority returns and keeps the scheduler's state in order, so that
-- every ready thread but the idle one is in the ready list. From a ready list that goes down by
-- priority it leaves one, with a running thread that no ready thread has a higher priority than. The
-- caller's priority and its original one, whether it still runs or not, are the new one.
pub thread_set_priority-RunsHighest :
    (k : Kernel) (new_priority : ℕ)
    → IsScheduled k
    → k.in_external_intr ≡ false
    → IsOrdered k
    → (k' : Kernel) × (thread_set_priority k new_priority ≡ some k')
      × IsScheduled k'
      × (k'.in_external_intr ≡ false)
      × IsOrdered k'
      × RunsHighest k'
      × (priority k' k.current ≡ new_priority)
      × ((k'.threads k.current).original_priority ≡ new_priority)
unfolding thread_set_priority prioritised Alike
thread_set_priority-RunsHighest k p s off o =
    let (k', runs, r) =
      check_priority-Rescheduled (prioritised k p) (prioritised-IsScheduled k p s) off in
    let (o', h) = r.highest (prioritised-IsOrdered k p s o) in
    (
      k',
      rw (current_runs k s) runs,
      r.scheduled,
      r.context ∙ off,
      o',
      h,
      ap (λ x. x.priority) (r.alike k.current) ∙ own_priority k p,
      ap (λ x. x.original_priority) (r.alike k.current) ∙ own_original k p,
    )
