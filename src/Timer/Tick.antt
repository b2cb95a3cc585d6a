-- ===== src/Timer/Tick.antt =====
-- The timer interrupt: timer_interrupt of devices/timer.c under intr_handler of threads/interrupt.c.
use cs439_pcs.Base.{ℕ, ◌+◌, ◌≤◌, ◌<◌, Bool, true, false, not, Option, some, List, ◌++◌}
use cs439_pcs.Base.{◌≡◌, refl, ap, sym, ◌∙◌, ◌⊎◌, inl, inr, arith, leb, Bool-cases}
use cs439_pcs.Base.{assert, ◌>>=◌, ◌>>◌, if◌then◌else◌}
use cs439_pcs.Base.Each.{Each, Distinct, Listed, Each-imp}
use cs439_pcs.Thread.{Kernel, thread_tick, intr_handler, thread_yield, time_slice, is_thread}
use cs439_pcs.Thread.Invariant.{IsScheduled, IsOrdered, RunsHighest}
use cs439_pcs.Thread.Queue.{current_runs}
use cs439_pcs.Thread.Tick.{thread_tick-Counted, counted_threads, IsOrdered-before}
use cs439_pcs.Thread.Yield.{thread_yield-Rescheduled}
use cs439_pcs.Timer.{Clock, timer_wakeup, timer_interrupt, timer_tick}
use cs439_pcs.Timer.Asleep.{Rising, Sleeps, time}
use cs439_pcs.Timer.Wakeup.{timer_wakeup-Wakes}
use mathlib.Core.Path.{subst}

-- The sleep list rises by time and has threads in it that sleep, each once.
pub record IsAsleep (c : Clock) : Type 0 where
  pub rising : Rising (time c.kernel) c.sleep_list
  pub distinct : Distinct c.sleep_list
  pub sleeping : Each (Sleeps c.kernel) c.sleep_list

-- What an interrupt of the timer leaves: the threads `us` are woken, `vs` sleep on.
pub record Ticks (c c' : Clock) : Type 0 where
  pub us : List ℕ
  pub vs : List ℕ
  pub splits : c.sleep_list ≡ us ++ vs
  pub sleeps_on : c'.sleep_list ≡ vs
  pub due : Each (λ t. time c.kernel t ≤ c.ticks + 1) us
  pub not_due : Each (λ t. c.ticks + 1 < time c.kernel t) vs
  pub awake : Each (λ t. (c'.kernel.current ≡ t) ⊎ Listed t c'.kernel.ready_list) us
  pub counted : c'.ticks ≡ c.ticks + 1
  pub scheduled : IsScheduled c'.kernel
  pub outside : c'.kernel.in_external_intr ≡ false
  pub ordered : IsOrdered c.kernel → IsOrdered c'.kernel
  pub early :
      c.kernel.thread_ticks + 1 < time_slice
      → (c'.kernel.current ≡ c.kernel.current)
        × (c'.kernel.thread_ticks ≡ c.kernel.thread_ticks + 1)
        × (c'.kernel.idle_ticks + c'.kernel.kernel_ticks + c'.kernel.user_ticks
            ≡ c.kernel.idle_ticks + c.kernel.kernel_ticks + c.kernel.user_ticks + 1)
  pub late :
      time_slice ≤ c.kernel.thread_ticks + 1
      → (c'.kernel.thread_ticks ≡ 0) × (IsOrdered c.kernel → RunsHighest c'.kernel)

-- The state in which the handler starts.
abbrev begun : Clock → Clock
begun c = record c {
  kernel = record c.kernel { in_external_intr = true; yield_on_return = false };
  ticks = c.ticks + 1;
}

begun-IsScheduled : (c : Clock) → IsScheduled c.kernel → IsScheduled (begun c).kernel
begun-IsScheduled c s = counted_threads c.kernel (begun c).kernel refl refl refl refl refl s

begun-IsOrdered : (c : Clock) → IsOrdered c.kernel → IsOrdered (begun c).kernel
begun-IsOrdered c = IsOrdered-before c.kernel (begun c).kernel refl refl

begun-Sleeps :
    (c : Clock) → Each (Sleeps c.kernel) c.sleep_list → Each (Sleeps (begun c).kernel) c.sleep_list
unfolding Sleeps is_thread
begun-Sleeps c e = e

handler_runs :
    (c c1 : Clock) (k1 : Kernel)
    → timer_wakeup (begun c) ≡ some c1
    → thread_tick c1.kernel ≡ some k1
    → timer_interrupt
        (record c { kernel = record c.kernel { in_external_intr = true; yield_on_return = false } })
      ≡ some (record c1 { kernel = k1 })
unfolding timer_interrupt
handler_runs c c1 k1 w t = rw (w, t) refl

tick_runs :
    (c c2 : Clock) (k' : Kernel)
    → c.kernel.in_external_intr ≡ false
    → timer_interrupt
        (record c { kernel = record c.kernel { in_external_intr = true; yield_on_return = false } })
      ≡ some c2
    → c2.kernel.in_external_intr ≡ true
    → (if c2.kernel.yield_on_return
        then thread_yield (record c2.kernel { in_external_intr = false })
        else some (record c2.kernel { in_external_intr = false }))
      ≡ some k'
    → timer_tick c ≡ some (record c2 { kernel = k' })
unfolding timer_tick intr_handler
tick_runs c c2 k' off runs on rest =
    let k2 : Kernel = record c2.kernel { in_external_intr = false } in
    let set : Option Kernel → Option Clock = λ o. o >>= λ k. some (record c2 { kernel = k }) in
    let tail : Clock → Option Clock = λ s.
      if s.kernel.yield_on_return
      then (thread_yield (record s.kernel { in_external_intr = false }) >>= λ k.
          some (record s { kernel = k }))
      else some (record s { kernel = record s.kernel { in_external_intr = false } }) in
    let handled = timer_interrupt (record c {
      kernel = record c.kernel { in_external_intr = true; yield_on_return = false };
    }) in
    ap (λ b. assert (not b) >> (handled >>= λ s. assert s.kernel.in_external_intr >> tail s)) off
    ∙ (ap (λ o. o >>= λ s. assert s.kernel.in_external_intr >> tail s) runs
        ∙ (ap (λ b. assert b >> tail c2) on ∙ elim (Bool-cases c2.kernel.yield_on_return) [
          | inl q ↦
              ap
                (λ b.
                  if b
                  then (thread_yield k2 >>= λ k. some (record c2 { kernel = k }))
                  else some (record c2 { kernel = k2 }))
                q
              ∙ ap set (ap (λ b. if b then thread_yield k2 else some k2) (sym q) ∙ rest)
          | inr q ↦
              ap
                (λ b.
                  if b
                  then (thread_yield k2 >>= λ k. some (record c2 { kernel = k }))
                  else some (record c2 { kernel = k2 }))
                q
              ∙ ap set (ap (λ b. if b then thread_yield k2 else some k2) (sym q) ∙ rest)
        ]))

-- A timer interrupt that comes in while no other one is handled, with a sleep list that rises by
-- time and threads in it that sleep, returns and counts a tick. The threads at the front of the
-- list whose time has come then leave it and are in the ready list, or run; the time of the
-- others has not come. The scheduler's state is in order, with every ready thread in the ready
-- list, no interrupt is handled, and the ready list goes down by priority if it did before. With
-- less than four ticks in the slice of the running thread, that thread goes on; from the fourth
-- tick on a new slice starts, and if the ready list went down by priority, it is the slice of a
-- thread that no ready thread has a higher priority than.
pub timer_tick-Ticks :
    (c : Clock)
    → IsScheduled c.kernel
    → c.kernel.in_external_intr ≡ false
    → IsAsleep c
    → (c' : Clock) × (timer_tick c ≡ some c') × Ticks c c'
timer_tick-Ticks c s off a =
    let (c1, e, w) =
      timer_wakeup-Wakes (begun c) refl (begun-IsScheduled c s) a.rising a.distinct
        (begun-Sleeps c a.sleeping) in
    let (k1, runs, n) =
      thread_tick-Counted c1.kernel (current_runs c1.kernel w.scheduled) w.context w.asks in
    let c2 : Clock = record c1 { kernel = k1 } in
    let k2 : Kernel = record k1 { in_external_intr = false } in
    let s2 : IsScheduled k2 =
      counted_threads c1.kernel k2 n.threads n.current n.ready n.idle n.lists w.scheduled in
    let o2 : IsOrdered c.kernel → IsOrdered k2 =
      λ o. IsOrdered-before c1.kernel k2 n.threads n.ready (w.ordered (begun-IsOrdered c o)) in
    let handled = handler_runs c c1 k1 e runs in
    let asks : k1.yield_on_return ≡ leb time_slice (c.kernel.thread_ticks + 1) =
      n.asks ∙ ap (λ t. leb time_slice (t + 1)) w.slice in
    let up : Each (λ t. Listed t k2.ready_list) w.us =
      Each-imp (λ t. Listed t c1.kernel.ready_list) (λ t. Listed t k2.ready_list) w.us
        (λ t. subst (Listed t) (sym n.ready)) w.queued_up in
    let tail : Bool → Option Kernel = λ b. if b then thread_yield k2 else some k2 in
    elim (Bool-cases (leb time_slice (c.kernel.thread_ticks + 1))) [
      | inl q ↦
          let (k', y, z, r) = thread_yield-Rescheduled k2 s2 refl in
          (
            record c2 { kernel = k' },
            tick_runs c c2 k' off handled (n.context) (ap tail (asks ∙ q) ∙ y),
            record {
              us = w.us;
              vs = w.vs;
              splits = w.splits;
              sleeps_on = w.sleeps_on;
              due = w.due;
              not_due = w.not_due;
              awake =
                  Each-imp (λ t. Listed t k2.ready_list)
                    (λ t. (k'.current ≡ t) ⊎ Listed t k'.ready_list) w.us r.keeps up;
              counted = w.same_ticks;
              scheduled = r.scheduled;
              outside = r.context;
              ordered = λ o. (r.highest (o2 o)).0;
              early = λ h. absurd (late_tick (c.kernel.thread_ticks + 1) q h);
              late = λ h. (z, λ o. (r.highest (o2 o)).1);
            },
          )
      | inr q ↦ (
        record c2 { kernel = k2 },
        tick_runs c c2 k2 off handled (n.context) (ap tail (asks ∙ q)),
        record {
          us = w.us;
          vs = w.vs;
          splits = w.splits;
          sleeps_on = w.sleeps_on;
          due = w.due;
          not_due = w.not_due;
          awake =
              Each-imp (λ t. Listed t k2.ready_list)
                (λ t. (k2.current ≡ t) ⊎ Listed t k2.ready_list) w.us (λ t l. inr l) up;
          counted = w.same_ticks;
          scheduled = s2;
          outside = refl;
          ordered = o2;
          early = λ h. (
            n.current ∙ w.current,
            n.slice ∙ ap (λ t. t + 1) w.slice,
            n.all ∙ ap (λ t. t + 1) w.counts,
          );
          late = λ h. absurd (early_tick (c.kernel.thread_ticks + 1) q h);
        },
      )
    ]
  where
    late_tick : (n : ℕ) → leb time_slice n ≡ true → n < time_slice → ⊥
    late_tick n q h = ground arith

    early_tick : (n : ℕ) → leb time_slice n ≡ false → time_slice ≤ n → ⊥
    early_tick n q h = ground arith
