-- ===== src/Intq/Tests.antt =====
-- A key put into an empty ring while a thread waits for it.
use cs439_pcs.Base.{ℕ, some, List, [], ◌∷◌, ◌++◌, ◌≡◌, refl, replicate}
use cs439_pcs.Synch.{Machine, sema_init, lock_init, put_lock}
use cs439_pcs.Thread.{is_thread, thread_unblock}
use cs439_pcs.Thread.Tests.{small_kernel}
use cs439_pcs.Thread.Queue.{queued}
use cs439_pcs.Intq.{Intq, intq_init, intq_putc, intq_getc, intq_empty, intq_full, signal_not_empty}
use cs439_pcs.Intq.{wake, signal_not_full, next_pos, input_putc}
use cs439_pcs.Intq.Ring.{Represents}
use cs439_pcs.Intq.Steps.{started, has_put, has_got, Reachable-Represents}

abbrev raw_ring : Intq
raw_ring = record {
  lock = 9;
  not_full = 5;
  not_empty = 5;
  buf = replicate 64 0;
  head = 7;
  tail = 3;
}

abbrev empty_ring : Intq
empty_ring = record {
  lock = 9;
  not_full = 0;
  not_empty = 0;
  buf = replicate 64 0;
  head = 0;
  tail = 0;
}

abbrev one_byte : Intq
one_byte = record empty_ring { buf = 65 ∷ replicate 63 0; head = 1 }

-- What the lock holds before lock_init.
abbrev raw_machine : Machine
raw_machine = record {
  kernel = small_kernel;
  locks = λ l. record { holder = 3; semaphore = sema_init 8 };
}

abbrev ready_machine : Machine
ready_machine = put_lock raw_machine 9 (record { holder = 0; semaphore = sema_init 1 })

init_runs : intq_init raw_machine raw_ring ≡ some (empty_ring, ready_machine)
unfolding intq_init lock_init
init_runs = refl

put_runs : intq_putc small_kernel empty_ring 65 ≡ some (one_byte, small_kernel)
unfolding intq_putc intq_full intq_empty signal_not_empty wake next_pos
put_runs = refl

get_runs : intq_getc small_kernel one_byte ≡ some (65, record one_byte { tail = 1 }, small_kernel)
unfolding intq_getc intq_full intq_empty signal_not_full wake next_pos
get_runs = refl

-- The thread 5 waits for a byte and is woken.
input_putc-wakes :
    input_putc small_kernel (record empty_ring { not_empty = 5 }) 65
    ≡ some (one_byte, queued small_kernel 5)
unfolding input_putc intq_putc intq_full intq_empty signal_not_empty wake next_pos thread_unblock
    is_thread
input_putc-wakes = refl

Reachable-Represents_example :
    (xs : List ℕ) × ((65 ∷ []) ≡ (65 ∷ []) ++ xs) × Represents (record one_byte { tail = 1 }) xs
Reachable-Represents_example = Reachable-Represents (
    has_got small_kernel small_kernel 65
      (has_put small_kernel small_kernel 65
        (started raw_machine ready_machine raw_ring refl init_runs) put_runs)
      get_runs)
