-- ===== src/Timer/Tests.antt =====
-- Two threads that sleep, of which the time of one has come.
use cs439_pcs.Base.{inl, inr, false}
use cs439_pcs.Base.Each.{Listed, Falling}
use cs439_pcs.Thread.{Kernel, running, ready, thread_yield, thread_block, thread_current, schedule}
use cs439_pcs.Thread.{next_thread_to_run, thread_schedule_tail, insert_ready, compare_priority}
use cs439_pcs.DoublyLinked.Ordered.{insert_before}
use cs439_pcs.Thread.Invariant.{HasPlace, IsOrdered, RunsHighest}
use cs439_pcs.Thread.Tests.{small_kernel-IsScheduled, small_kernel-IsOrdered}
use cs439_pcs.Timer.{timer_tick}
use cs439_pcs.Timer.Tick.{IsAsleep, Ticks, timer_tick-Ticks}
use cs439_pcs.Timer.Steps.{IsOrderly, Reachable-IsOrderly, Reachable-RunsHighest, start, next}
use cs439_pcs.Timer.Steps.{yielded}
use cs439_pcs.Base.{true, some, [], ◌∷◌, ◌≡◌, refl, arith, if◌then◌else◌, ◌==◌}
use cs439_pcs.Base.Each.{Each, Distinct}
use cs439_pcs.Thread.{blocked, is_thread}
use cs439_pcs.Thread.Tests.{four_threads, thread_with, small_kernel}
use cs439_pcs.Thread.Invariant.{IsReady, IsScheduled}
use cs439_pcs.Timer.{Clock, timer_wakeup}
use cs439_pcs.Timer.Asleep.{Rising, Sleeps, time}
use cs439_pcs.Timer.Wakeup.{Wakes, timer_wakeup-Wakes}

-- The threads 5 and 6 sleep until the ticks 3 and 9.
abbrev sleepers : Clock
sleepers = record {
  kernel = record small_kernel {
    threads = λ t.
        if t == 5
        then record (thread_with 5 blocked 35) {
          time_checker = 3;
          sema_p = record { value = 0; waiters = 5 ∷ [] };
        }
        else if t == 6
        then record (thread_with 6 blocked 35) {
          time_checker = 9;
          sema_p = record { value = 0; waiters = 6 ∷ [] };
        }
        else four_threads t;
    in_external_intr = true;
  };
  ticks = 4;
  sleep_list = 5 ∷ 6 ∷ [];
}

sleepers-IsScheduled : IsScheduled sleepers.kernel
unfolding Each Distinct IsReady is_thread HasPlace Listed
sleepers-IsScheduled = record {
  runs = refl;
  live = refl;
  ready_threads = ((refl, refl), ((refl, refl), tt));
  distinct = (((λ e. omega (arith, e)), tt), (tt, tt));
  idle = refl;
  places = (inl refl, (inl refl, (inr (inr (inl refl)), (inr (inr (inr (inl refl))), tt))));
}

sleepers-Rising : Rising (time sleepers.kernel) sleepers.sleep_list
unfolding Rising Each
sleepers-Rising = ((omega arith, tt), (tt, tt))

sleepers-Distinct : Distinct sleepers.sleep_list
unfolding Distinct Each
sleepers-Distinct = (((λ e. omega (arith, e)), tt), (tt, tt))

sleepers-Sleeps : Each (Sleeps sleepers.kernel) sleepers.sleep_list
unfolding Sleeps Each is_thread
sleepers-Sleeps = ((refl, refl, refl), ((refl, refl, refl), tt))

timer_wakeup-Wakes_example :
    (c' : Clock) × (timer_wakeup sleepers ≡ some c') × Wakes sleepers sleepers.sleep_list c'
timer_wakeup-Wakes_example =
    timer_wakeup-Wakes sleepers refl sleepers-IsScheduled sleepers-Rising sleepers-Distinct
      sleepers-Sleeps

-- The same before the interrupt.
abbrev outside : Clock
outside = record sleepers { kernel = record sleepers.kernel { in_external_intr = false } }

outside-IsScheduled : IsScheduled outside.kernel
unfolding Each Distinct IsReady is_thread HasPlace Listed
outside-IsScheduled = record {
  runs = refl;
  live = refl;
  ready_threads = ((refl, refl), ((refl, refl), tt));
  distinct = (((λ e. omega (arith, e)), tt), (tt, tt));
  idle = refl;
  places = (inl refl, (inl refl, (inr (inr (inl refl)), (inr (inr (inr (inl refl))), tt))));
}

outside-Sleeps : Each (Sleeps outside.kernel) outside.sleep_list
unfolding Sleeps Each is_thread
outside-Sleeps = ((refl, refl, refl), ((refl, refl, refl), tt))

outside-IsAsleep : IsAsleep outside
outside-IsAsleep = record {
  rising = sleepers-Rising;
  distinct = sleepers-Distinct;
  sleeping = outside-Sleeps;
}

timer_tick-Ticks_example : (c' : Clock) × (timer_tick outside ≡ some c') × Ticks outside c'
timer_tick-Ticks_example = timer_tick-Ticks outside outside-IsScheduled refl outside-IsAsleep

small_kernel-IsOrderly : IsOrderly small_kernel
small_kernel-IsOrderly = record {
  scheduled = small_kernel-IsScheduled;
  outside = refl;
  ordered = small_kernel-IsOrdered;
}

outside-IsOrdered : IsOrdered outside.kernel
unfolding IsOrdered Falling Each
outside-IsOrdered = ((omega arith, tt), (tt, tt))

outside-IsOrderly : IsOrderly outside.kernel
outside-IsOrderly = record {
  scheduled = outside-IsScheduled;
  outside = refl;
  ordered = outside-IsOrdered;
}

-- The state after the running thread has yielded to the thread of priority 40.
abbrev switched_kernel : Kernel
switched_kernel = record small_kernel {
  threads = λ n.
      if 3 == n
      then thread_with 3 running 40
      else if 1 == n
      then thread_with 1 ready 31
      else four_threads n;
  current = 3;
  ready_list = 4 ∷ 1 ∷ [];
  thread_ticks = 0;
}

switch : thread_yield small_kernel ≡ some switched_kernel
unfolding thread_yield thread_current is_thread schedule next_thread_to_run thread_schedule_tail
    insert_ready insert_before compare_priority
switch = refl

Reachable-IsOrderly_example : IsOrderly switched_kernel
Reachable-IsOrderly_example =
    Reachable-IsOrderly small_kernel-IsOrderly (next start (yielded switch))

Reachable-RunsHighest_example :
    ((k' : Kernel) × (thread_yield outside.kernel ≡ some k') × RunsHighest k' × IsOrderly k')
    × ((k' : Kernel) × (thread_block outside.kernel ≡ some k') × RunsHighest k' × IsOrderly k')
    × ((c' : Clock) × (timer_tick outside ≡ some c') × IsOrderly c'.kernel)
Reachable-RunsHighest_example =
    Reachable-RunsHighest outside outside-IsOrderly start outside-IsAsleep
