-- ===== src/Synch/System.antt =====
-- Threads that acquire and release the locks of threads/synch.c, each at a stage of its call, while
-- the scheduler moves between them at will.
use cs439_pcs.Base.{ℕ, Bool, true, false, some, ◌==◌, if◌then◌else◌, ◌≡◌, []}
use cs439_pcs.Thread.{Kernel}
use cs439_pcs.Synch.{Machine, acquire_begin, acquire_down, acquire_end, try_down, try_end}
use cs439_pcs.Synch.{release_begin, release_up}

-- Where a thread stands: in no call, in the loop of sema_down of lock_acquire, behind it, in
-- lock_try_acquire behind sema_try_down that has succeeded, or in lock_release before sema_up has
-- run.
pub data Stage : Type 0 where
  outside : Stage
  acquiring : ℕ → Stage
  taking : ℕ → Stage
  trying : ℕ → Stage
  releasing : ℕ → Stage

-- The stage is one where the thread has the semaphore of the lock down and is not its holder.
unfoldable pub between : ℕ → Stage → Bool
between l outside = false
between l (acquiring j) = false
between l (taking j) = j == l
between l (trying j) = j == l
between l (releasing j) = j == l

pub record System : Type 0 where
  pub machine : Machine
  pub stages : ℕ → Stage

-- The current thread comes to a stage, on a machine.
abbrev pub move : System → Machine → Stage → System
move s m g = record {
  machine = m;
  stages = λ t. if s.machine.kernel.current == t then g else s.stages t;
}

-- The stage of the current thread.
abbrev pub stage : System → Stage
stage s = s.stages s.machine.kernel.current

pub data Step (s s' : System) : Type 0 where
  begun :
      (l : ℕ) (m : Machine)
      → stage s ≡ outside
      → acquire_begin s.machine l ≡ some m
      → s' ≡ move s m (acquiring l)
      → Step s s'
  waited :
      (l : ℕ) (m : Machine)
      → stage s ≡ acquiring l
      → acquire_down s.machine l ≡ some (false, m)
      → s' ≡ move s m (acquiring l)
      → Step s s'
  passed :
      (l : ℕ) (m : Machine)
      → stage s ≡ acquiring l
      → acquire_down s.machine l ≡ some (true, m)
      → s' ≡ move s m (taking l)
      → Step s s'
  taken :
      (l : ℕ) (m : Machine)
      → stage s ≡ taking l
      → acquire_end s.machine l ≡ some m
      → s' ≡ move s m outside
      → Step s s'
  failed :
      (l : ℕ) (m : Machine)
      → stage s ≡ outside
      → try_down s.machine l ≡ some (false, m)
      → s' ≡ move s m outside
      → Step s s'
  tried :
      (l : ℕ) (m : Machine)
      → stage s ≡ outside
      → try_down s.machine l ≡ some (true, m)
      → s' ≡ move s m (trying l)
      → Step s s'
  held_now :
      (l : ℕ) (m : Machine)
      → stage s ≡ trying l
      → try_end s.machine l ≡ some m
      → s' ≡ move s m outside
      → Step s s'
  freed :
      (l : ℕ) (m : Machine)
      → stage s ≡ outside
      → release_begin s.machine l ≡ some m
      → s' ≡ move s m (releasing l)
      → Step s s'
  upped :
      (l : ℕ) (m : Machine)
      → stage s ≡ releasing l
      → release_up s.machine l ≡ some m
      → s' ≡ move s m outside
      → Step s s'
  scheduled : (k : Kernel) → s' ≡ record s { machine = record s.machine { kernel = k } } → Step s s'

-- Locks after lock_init, and no thread in a call.
pub record IsInitial (s : System) : Type 0 where
  pub all_free :
      (l : ℕ)
      → s.machine.locks l ≡ record { holder = 0; semaphore = record { value = 1; waiters = [] } }
  pub all_outside : (t : ℕ) → s.stages t ≡ outside

pub data Reachable : System → Type 0 where
  start : {s : System} → IsInitial s → Reachable s
  next : {s s' : System} → Reachable s → Step s s' → Reachable s'
