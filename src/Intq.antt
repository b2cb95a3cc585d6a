-- ===== src/Intq.antt =====
-- devices/intq.c and devices/input.c: a ring of bytes between an interrupt handler and a thread.
-- Interrupts are off. A call that may sleep is cut where the thread may sleep; `none` is a failed
-- ASSERT. A null pointer to a thread is 0.
pub mod Ring
pub mod Calls
pub mod Steps
pub mod Tests
use cs439_pcs.Base.{ℕ, ◌+◌, ◌%◌, Bool, not, Option, some, List, []}
use cs439_pcs.Base.{◌==◌, if◌then◌else◌, assert, get_or, set, ◌>>=◌, ◌>>◌}
use cs439_pcs.Thread.{Kernel, thread_current, thread_block, thread_unblock}
use cs439_pcs.Synch.{Machine, lock_init, acquire_begin, acquire_end, lock_release}

abbrev pub intq_bufsize : ℕ
intq_bufsize = 64

-- `lock` is the address of the member of that name.
pub record Intq : Type 0 where
  pub lock : ℕ
  pub not_full : ℕ
  pub not_empty : ℕ
  pub buf : List ℕ
  pub head : ℕ
  pub tail : ℕ

-- The place behind one in the ring.
unfoldable pub next_pos : ℕ → ℕ
next_pos pos = (pos + 1) % intq_bufsize

unfoldable pub intq_init : Machine → Intq → Option (Intq × Machine)
intq_init m q = do
  m' ← lock_init m q.lock
  some (record q { not_full = 0; not_empty = 0; head = 0; tail = 0 }, m')

unfoldable pub intq_empty : Intq → Bool
intq_empty q = q.head == q.tail

unfoldable pub intq_full : Intq → Bool
intq_full q = next_pos q.head == q.tail

-- wait, for each of the two conditions.
unfoldable pub wait_not_empty : Kernel → Intq → Option (Intq × Kernel)
wait_not_empty k q = do
  assert (not k.in_external_intr)
  assert (intq_empty q)
  waiter ← thread_current k
  k' ← thread_block k
  some (record q { not_empty = waiter }, k')

unfoldable pub wait_not_full : Kernel → Intq → Option (Intq × Kernel)
wait_not_full k q = do
  assert (not k.in_external_intr)
  assert (intq_full q)
  waiter ← thread_current k
  k' ← thread_block k
  some (record q { not_full = waiter }, k')

-- The thread that signal finds, woken.
unfoldable pub wake : Kernel → ℕ → Option Kernel
wake k waiter = let woken = thread_unblock k waiter in if waiter == 0 then some k else woken

-- signal, for each of the two conditions.
unfoldable pub signal_not_full : Kernel → Intq → Option (Intq × Kernel)
signal_not_full k q = do
  assert (not (intq_full q))
  k' ← wake k q.not_full
  some (record q { not_full = 0 }, k')

unfoldable pub signal_not_empty : Kernel → Intq → Option (Intq × Kernel)
signal_not_empty k q = do
  assert (not (intq_empty q))
  k' ← wake k q.not_empty
  some (record q { not_empty = 0 }, k')

-- A round of the loop of intq_getc up to sema_down in its call of lock_acquire.
unfoldable pub getc_acquire : Machine → Intq → Option Machine
getc_acquire m q = do
  assert (intq_empty q)
  assert (not m.kernel.in_external_intr)
  acquire_begin m q.lock

-- The same round from there to thread_block.
unfoldable pub getc_wait : Machine → Intq → Option (Intq × Machine)
getc_wait m q = do
  m' ← acquire_end m q.lock
  r ← wait_not_empty m'.kernel q
  some (r.0, record m' { kernel = r.1 })

unfoldable pub putc_acquire : Machine → Intq → Option Machine
putc_acquire m q = do
  assert (intq_full q)
  assert (not m.kernel.in_external_intr)
  acquire_begin m q.lock

unfoldable pub putc_wait : Machine → Intq → Option (Intq × Machine)
putc_wait m q = do
  m' ← acquire_end m q.lock
  r ← wait_not_full m'.kernel q
  some (r.0, record m' { kernel = r.1 })

-- The end of a round of either loop.
unfoldable pub wait_end : Machine → Intq → Option Machine
wait_end m q = lock_release m q.lock

-- intq_getc behind its loop.
unfoldable pub intq_getc : Kernel → Intq → Option (ℕ × Intq × Kernel)
intq_getc k q = do
  assert (not (intq_empty q))
  let byte = get_or q.buf q.tail 0
  r ← signal_not_full k (record q { tail = next_pos q.tail })
  some (byte, r.0, r.1)

-- intq_putc behind its loop.
unfoldable pub intq_putc : Kernel → Intq → ℕ → Option (Intq × Kernel)
intq_putc k q byte = do
  assert (not (intq_full q))
  signal_not_empty k (record q { buf = set q.buf q.head byte; head = next_pos q.head })

-- input_putc up to serial_notify.
unfoldable pub input_putc : Kernel → Intq → ℕ → Option (Intq × Kernel)
input_putc k buffer key = do assert (not (intq_full buffer)); intq_putc k buffer key
