-- ===== src/Timer.antt =====
-- devices/timer.c: threads that sleep until a tick. Ticks are counted from 0 and a sleep is for a
-- number of ticks that is not negative; `none` is a failed ASSERT.
pub mod Asleep
pub mod Wakeup
pub mod Tick
pub mod Steps
pub mod Tests
use cs439_pcs.Base.{ℕ, ◌+◌, ◌*◌, ◌/◌, Bool, true, false, Option, none, some, List, [], ◌∷◌}
use cs439_pcs.Base.{leb, ltb, if◌then◌else◌, ◌>>=◌, ◌>>◌}
use cs439_pcs.DoublyLinked.Ordered.{insert_before}
use cs439_pcs.Thread.{
  Kernel, Thread, Semaphore, put, thread_current, compare_timer, thread_tick, intr_handler,
}
use cs439_pcs.Synch.{sema_init, sema_down, sema_up}

-- The variables of timer.c beside the threads.
pub record Clock : Type 0 where
  pub kernel : Kernel
  pub ticks : ℕ
  pub sleep_list : List ℕ

abbrev pub timer_freq : ℕ
timer_freq = 100

-- t->sema_p = sema
abbrev pub store_sema : Kernel → ℕ → Semaphore → Kernel
store_sema k t sema = put k t (record (k.threads t) { sema_p = sema })

abbrev pub timer_ticks : Clock → ℕ
timer_ticks c = c.ticks

-- timer_sleep up to its call of sema_down, with what timer_ticks has returned to it.
unfoldable pub sleep_begin : Clock → ℕ → ℕ → Option Clock
sleep_begin c start ticks = do
  curr_thread ← thread_current c.kernel
  let timed =
      put c.kernel curr_thread
        (record (c.kernel.threads curr_thread) { time_checker = start + ticks })
  some (record c {
    kernel = store_sema timed curr_thread (sema_init 0);
    sleep_list = insert_before (compare_timer timed) curr_thread c.sleep_list;
  })

-- A round of sema_down in timer_sleep, by the thread that sleeps.
unfoldable pub sleep_down : Clock → Option (Bool × Clock)
sleep_down c = do
  t ← thread_current c.kernel
  (down, sema, k) ← sema_down c.kernel (c.kernel.threads t).sema_p
  some (down, record c { kernel = store_sema k t sema })

-- The loop of timer_wakeup, which removes each thread that it wakes.
unfoldable pub wake_loop : Clock → List ℕ → Option Clock
wake_loop c [] = some (record c { sleep_list = [] })
wake_loop c (curr_thread ∷ ts) =
    let woken =
      (sema_up c.kernel (c.kernel.threads curr_thread).sema_p >>= λ r.
      wake_loop (record c { kernel = store_sema r.1 curr_thread r.0 }) ts) in
    if leb (c.kernel.threads curr_thread).time_checker c.ticks
    then woken
    else some (record c { sleep_list = curr_thread ∷ ts })

unfoldable pub timer_wakeup : Clock → Option Clock
timer_wakeup c = wake_loop c c.sleep_list

unfoldable pub timer_interrupt : Clock → Option Clock
timer_interrupt c = do
  c' ← timer_wakeup (record c { ticks = c.ticks + 1 })
  k ← thread_tick c'.kernel
  some (record c' { kernel = k })

-- The ticks that real_time_sleep sleeps, where 0 stands for a busy wait.
unfoldable pub sleep_ticks : ℕ → ℕ → ℕ
sleep_ticks num denom = num * timer_freq / denom

-- The interrupt of the timer, whose handler is timer_interrupt.
unfoldable pub timer_tick : Clock → Option Clock
timer_tick = intr_handler (λ c. c.kernel) (λ k c. record c { kernel = k }) timer_interrupt
