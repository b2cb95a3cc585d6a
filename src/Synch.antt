-- ===== src/Synch.antt =====
-- threads/synch.c: semaphores and locks, with the priorities that waiting threads lend. A call that
-- may sleep is cut where the thread may sleep, since other threads run in between. `none` is a
-- failed ASSERT, or fuel that has run out.
pub mod System
pub mod Effects
pub mod Letting
pub mod Owned
pub mod Donation
pub mod Wake
pub mod Release
pub mod Exclusion
pub mod Tests
use cs439_pcs.Base.{ℕ, zero, suc, ◌+◌, ◌-◌, ◌*◌, ◌%◌, Bool, true, false, not, Option, none, some}
use cs439_pcs.Base.{List, [], ◌∷◌, ◌==◌, ltb, if◌then◌else◌, assert, ◌>>=◌, ◌>>◌, length, get_or}
use cs439_pcs.Base.{word_mod}
use cs439_pcs.DoublyLinked.Ordered.{insert_before}
use cs439_pcs.DoublyLinked.Sort.{list_sort}
use cs439_pcs.Thread.{Kernel, Thread, Semaphore, put, thread_current, thread_block, thread_unblock}
use cs439_pcs.Thread.{compare_priority, check_priority}

unfoldable pub sema_init : ℕ → Semaphore
sema_init value = record { value = value; waiters = [] }

-- A round of the loop of sema_down, with interrupts off. The result is true if the semaphore was
-- taken down; else the thread waits, another one runs, and the thread does another round when it
-- runs again.
unfoldable pub sema_down : Kernel → Semaphore → Option (Bool × Semaphore × Kernel)
sema_down k sema = do
  assert (not k.in_external_intr)
  let waits = do
    cur ← thread_current k
    let queue = insert_before (compare_priority k) cur sema.waiters
    k' ← thread_block k
    some (false, record sema { waiters = queue }, k')
  if sema.value == 0 then waits else some (true, record sema { value = sema.value - 1 }, k)

unfoldable pub sema_try_down : Semaphore → Bool × Semaphore
sema_try_down sema =
    if ltb 0 sema.value then (true, record sema { value = sema.value - 1 }) else (false, sema)

-- The part of sema_up that takes a thread off the sorted list of waiters and unblocks it.
unfoldable pub wake_first : Kernel → Semaphore → List ℕ → Option (Semaphore × Kernel)
wake_first k sema [] = some (sema, k)
wake_first k sema (t ∷ ts) = do k' ← thread_unblock k t; some (record sema { waiters = ts }, k')

-- The value is an unsigned int. The semaphore is up before another thread may run.
unfoldable pub sema_up : Kernel → Semaphore → Option (Semaphore × Kernel)
sema_up k sema = do
  sorted ← list_sort (compare_priority k) sema.waiters
  (s, k1) ← wake_first k sema sorted
  k2 ← (if k1.in_external_intr then some k1 else check_priority k1)
  some (record s { value = (s.value + 1) % word_mod }, k2)

-- struct lock
pub record Lock : Type 0 where
  pub holder : ℕ
  pub semaphore : Semaphore

-- The threads and the locks in memory, by their addresses; 0 is the null pointer.
pub record Machine : Type 0 where
  pub kernel : Kernel
  pub locks : ℕ → Lock

-- *l = lock
abbrev pub put_lock : Machine → ℕ → Lock → Machine
put_lock m l lock = record m { locks = λ j. if l == j then lock else m.locks j }

-- *t = th
abbrev pub put_thread : Machine → ℕ → Thread → Machine
put_thread m t th = record m { kernel = put m.kernel t th }

unfoldable pub lock_init : Machine → ℕ → Option Machine
lock_init m l = do
  assert (not (l == 0))
  some (put_lock m l (record { holder = 0; semaphore = sema_init 1 }))

unfoldable pub lock_held_by_current_thread : Machine → ℕ → Option Bool
lock_held_by_current_thread m l = do
  assert (not (l == 0))
  cur ← thread_current m.kernel
  some ((m.locks l).holder == cur)

-- The int that the last four bytes of a name are, as an offset number.
unfoldable pub name_word : Thread → ℕ
name_word th =
    (get_or th.name 12 0
      + 256 * get_or th.name 13 0
      + 65536 * get_or th.name 14 0
      + 16777216 * get_or th.name 15 0
      + 2147483648)
    % 4294967296

-- comparePriority on elements `donor_elem`. It takes them for `elem`, which lies 8 bytes behind, so
-- what it reads as `priority`, the int at 28 bytes of struct thread, is the one at 20 bytes, the
-- last four of `name`.
unfoldable pub compare_donor : Kernel → ℕ → ℕ → Bool
compare_donor k current_thread other_thread =
    ltb (name_word (k.threads other_thread)) (name_word (k.threads current_thread))

-- The loop of priority_donation. Fuel above the number of threads is enough.
unfoldable pub donation_loop : ℕ → Machine → ℕ → ℕ → Option Machine
donation_loop zero m cur curr_lock = none
donation_loop (suc fuel) m cur curr_lock =
    let holder = (m.locks curr_lock).holder in
    let p = (m.kernel.threads cur).priority in
    let raised = put_thread m holder (record (m.kernel.threads holder) { priority = p }) in
    let round = donation_loop fuel raised holder (m.kernel.threads holder).try_lock in
    if curr_lock == 0
    then some m
    else if holder == 0
    then some m
    else if ltb (m.kernel.threads holder).priority p
    then round
    else some m

unfoldable pub priority_donation : Machine → Option Machine
priority_donation m = do
  cur ← thread_current m.kernel
  donation_loop (suc (length m.kernel.all_list)) m cur (m.kernel.threads cur).try_lock

-- list_insert_ordered on the donor list of a thread.
unfoldable pub add_donor : Machine → ℕ → ℕ → Machine
add_donor m holder cur =
    let th = m.kernel.threads holder in
    put_thread m holder (record th { donor = insert_before (compare_donor m.kernel) cur th.donor })

-- lock_acquire up to its call of sema_down.
unfoldable pub acquire_begin : Machine → ℕ → Option Machine
acquire_begin m l = do
  assert (not (l == 0))
  assert (not m.kernel.in_external_intr)
  held ← lock_held_by_current_thread m l
  assert (not held)
  cur ← thread_current m.kernel
  let tried = put_thread m cur (record (m.kernel.threads cur) { try_lock = l })
  let donated = do m' ← priority_donation tried; some (add_donor m' (m'.locks l).holder cur)
  if (m.locks l).holder == 0 then some m else donated

-- A round of sema_down in lock_acquire.
unfoldable pub acquire_down : Machine → ℕ → Option (Bool × Machine)
acquire_down m l = do
  (down, sema, k) ← sema_down m.kernel (m.locks l).semaphore
  let m' = put_lock m l (record (m.locks l) { semaphore = sema })
  some (down, record m' { kernel = k })

-- lock_acquire behind its call of sema_down.
unfoldable pub acquire_end : Machine → ℕ → Option Machine
acquire_end m l = do
  cur ← thread_current m.kernel
  let m' = put_thread m cur (record (m.kernel.threads cur) { try_lock = 0 })
  some (put_lock m' l (record (m'.locks l) { holder = cur }))

-- lock_try_acquire up to where sema_try_down has run, in which interrupts are off.
unfoldable pub try_down : Machine → ℕ → Option (Bool × Machine)
try_down m l = do
  assert (not (l == 0))
  held ← lock_held_by_current_thread m l
  assert (not held)
  let (success, sema) = sema_try_down (m.locks l).semaphore
  some (success, put_lock m l (record (m.locks l) { semaphore = sema }))

-- lock_try_acquire from there on, after a success.
unfoldable pub try_end : Machine → ℕ → Option Machine
try_end m l = do
  cur ← thread_current m.kernel
  some (put_lock m l (record (m.locks l) { holder = cur }))

-- lock_try_acquire where no other thread runs in between.
unfoldable pub lock_try_acquire : Machine → ℕ → Option (Bool × Machine)
lock_try_acquire m l = do
  (success, m1) ← try_down m l
  m2 ← (if success then try_end m1 l else some m1)
  some (success, m2)

-- The loop of donation_back: the donors that do not wait for the lock.
unfoldable pub remaining : Kernel → ℕ → List ℕ → List ℕ
remaining k l [] = []
remaining k l (t ∷ ts) =
    if (k.threads t).try_lock == l then remaining k l ts else t ∷ remaining k l ts

unfoldable pub donation_back : Machine → ℕ → Option Machine
donation_back m l = do
  cur ← thread_current m.kernel
  let th = m.kernel.threads cur
  some (put_thread m cur (record th { donor = remaining m.kernel l th.donor }))

-- The priority that priority_recheck sets, for the donors of a thread.
unfoldable pub rechecked : Kernel → ℕ → List ℕ → ℕ
rechecked k cur [] = (k.threads cur).original_priority
rechecked k cur (t ∷ ts) = (k.threads t).priority

unfoldable pub priority_recheck : Machine → Option Machine
priority_recheck m = do
  cur ← thread_current m.kernel
  let th = m.kernel.threads cur
  some (put_thread m cur (record th { priority = rechecked m.kernel cur th.donor }))

-- lock_release up to its call of sema_up.
unfoldable pub release_begin : Machine → ℕ → Option Machine
release_begin m l = do
  assert (not (l == 0))
  held ← lock_held_by_current_thread m l
  assert held
  m1 ← donation_back m l
  m2 ← priority_recheck m1
  some (put_lock m2 l (record (m2.locks l) { holder = 0 }))

-- sema_up in lock_release.
unfoldable pub release_up : Machine → ℕ → Option Machine
release_up m l = do
  (sema, k) ← sema_up m.kernel (m.locks l).semaphore
  let m' = put_lock m l (record (m.locks l) { semaphore = sema })
  some (record m' { kernel = k })

unfoldable pub lock_release : Machine → ℕ → Option Machine
lock_release m l = do m' ← release_begin m l; release_up m' l
