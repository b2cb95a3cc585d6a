-- ===== src/Thread.antt =====
-- threads/thread.c: the scheduler. A thread is the address of its page, 0 the null pointer; a list
-- of elements is the list of their threads; `none` is a failed ASSERT. Interrupts are off while one
-- of these functions runs, so the interrupt level is no part of the state.
pub mod Create
pub mod Ready
pub mod Search
pub mod Tests
pub mod Priority
pub mod Birth
pub mod Creation
pub mod Tick
pub mod Frame
pub mod Yield
pub mod Queue
pub mod Schedule
pub mod Invariant
pub mod Switch
use cs439_pcs.Base.{
  ℕ, ◌+◌, ◌≤◌, Bool, true, false, not, ◌&&◌, ◌||◌, Option, none, some, List, [], ◌∷◌,
}
use cs439_pcs.Base.{◌==◌, ltb, leb, if◌then◌else◌, assert, ◌>>=◌, ◌>>◌}
use cs439_pcs.DoublyLinked.Ordered.{insert_before}

-- enum thread_status
pub data Status : Type 0 where
  running : Status
  ready : Status
  blocked : Status
  dying : Status

-- `==` on enum thread_status
abbrev pub status_eq : Status → Status → Bool
status_eq running running = true
status_eq ready ready = true
status_eq blocked blocked = true
status_eq dying dying = true
status_eq s t = false

-- struct semaphore
pub record Semaphore : Type 0 where
  pub value : ℕ
  pub waiters : List ℕ

-- struct thread, the members that the scheduler, the locks and the timer use. `name` holds its 16
-- bytes, `try_lock` is the address of a lock.
pub record Thread : Type 0 where
  pub tid : ℕ
  pub status : Status
  pub name : List ℕ
  pub priority : ℕ
  pub original_priority : ℕ
  pub donor : List ℕ
  pub try_lock : ℕ
  pub pagedir : ℕ
  pub magic : ℕ
  pub time_checker : ℕ
  pub sema_p : Semaphore

-- The members of struct thread that userprog/process.c and the file system use. `child_list` has the
-- addresses of structs child_process; `parent` is an identifier, and the others are addresses.
pub record Family : Type 0 where
  pub parent : ℕ
  pub child_proc : ℕ
  pub child_list : List ℕ
  pub cur_dir : ℕ

-- struct child_process, with the exit status as a 32-bit word.
pub record ChildProcess : Type 0 where
  pub pid : ℕ
  pub exited : Bool
  pub waited : Bool
  pub exit_status : ℕ
  pub sema_zombi : Semaphore

-- The variables of thread.c, the threads and the child processes in memory, the pages given back to
-- the allocator, and `in_external_intr` and `yield_on_return` of threads/interrupt.c.
pub record Kernel : Type 0 where
  pub threads : ℕ → Thread
  pub family : ℕ → Family
  pub children : ℕ → ChildProcess
  pub current : ℕ
  pub idle_thread : ℕ
  pub initial_thread : ℕ
  pub ready_list : List ℕ
  pub all_list : List ℕ
  pub next_tid : ℕ
  pub thread_ticks : ℕ
  pub idle_ticks : ℕ
  pub kernel_ticks : ℕ
  pub user_ticks : ℕ
  pub freed : List ℕ
  pub in_external_intr : Bool
  pub yield_on_return : Bool

abbrev pub thread_magic : ℕ
thread_magic = 3446325067

abbrev pub time_slice : ℕ
time_slice = 4

abbrev pub pri_min : ℕ
pri_min = 0

abbrev pub pri_max : ℕ
pri_max = 63

-- *t = th
abbrev pub put : Kernel → ℕ → Thread → Kernel
put k t th = record k { threads = λ u. if t == u then th else k.threads u }

-- t->status = s
abbrev pub set_status : Kernel → ℕ → Status → Kernel
set_status k t s = put k t (record (k.threads t) { status = s })

unfoldable pub is_thread : Kernel → ℕ → Bool
is_thread k t = not (t == 0) && (k.threads t).magic == thread_magic

-- thread_current, where running_thread is the thread whose stack is in use.
unfoldable pub thread_current : Kernel → Option ℕ
thread_current k = do
  assert (is_thread k k.current)
  assert (status_eq (k.threads k.current).status running)
  some k.current

unfoldable pub thread_tid : Kernel → Option ℕ
thread_tid k = do t ← thread_current k; some (k.threads t).tid

unfoldable pub thread_name : Kernel → Option (List ℕ)
thread_name k = do t ← thread_current k; some (k.threads t).name

-- comparePriority on elements of the ready list or of a semaphore.
unfoldable pub compare_priority : Kernel → ℕ → ℕ → Bool
compare_priority k current_thread other_thread =
    ltb (k.threads other_thread).priority (k.threads current_thread).priority

unfoldable pub compare_timer : Kernel → ℕ → ℕ → Bool
compare_timer k current_list other_list =
    ltb (k.threads current_list).time_checker (k.threads other_list).time_checker

-- The thread to run next, and the state without it in the ready list.
unfoldable pub next_thread_to_run : Kernel → ℕ × Kernel
next_thread_to_run k = elim k.ready_list [
  | [] ↦ (k.idle_thread, k)
  | t ∷ ts ↦ (t, record k { ready_list = ts })
]

-- thread_schedule_tail, on the stack of the new thread. process_activate loads a page directory.
unfoldable pub thread_schedule_tail : Kernel → ℕ → Option Kernel
thread_schedule_tail k prev =
    let k' = record (set_status k k.current running) { thread_ticks = 0 } in
    if not (prev == 0)
      && (status_eq (k'.threads prev).status dying && not (prev == k'.initial_thread))
    then (assert (not (prev == k'.current)) >> some (record k' { freed = prev ∷ k'.freed }))
    else some k'

-- switch_threads moves to the stack of `next`.
unfoldable pub schedule : Kernel → Option Kernel
schedule k = do
  let (next, k') = next_thread_to_run k
  assert (not (status_eq (k'.threads k.current).status running))
  assert (is_thread k' next)
  let prev = if k.current == next then 0 else k.current
  thread_schedule_tail (record k' { current = next }) prev

unfoldable pub thread_block : Kernel → Option Kernel
thread_block k = do
  assert (not k.in_external_intr)
  cur ← thread_current k
  schedule (set_status k cur blocked)

unfoldable pub insert_ready : Kernel → ℕ → Kernel
insert_ready k t = record k { ready_list = insert_before (compare_priority k) t k.ready_list }

unfoldable pub thread_unblock : Kernel → ℕ → Option Kernel
thread_unblock k t = do
  assert (is_thread k t)
  assert (status_eq (k.threads t).status blocked)
  some (set_status (insert_ready k t) t ready)

unfoldable pub thread_yield : Kernel → Option Kernel
thread_yield k = do
  cur ← thread_current k
  assert (not k.in_external_intr)
  let k' = if cur == k.idle_thread then k else insert_ready k cur
  schedule (set_status k' cur ready)

-- check_priority, on the ready list. The memory around the sentinel of an empty one is read and not
-- used.
unfoldable pub check_against : Kernel → List ℕ → Option Kernel
check_against k [] = some k
check_against k (other_thread ∷ ts) = do
  cur ← thread_current k
  let yields = thread_yield k
  if ltb (k.threads cur).priority (k.threads other_thread).priority then yields else some k

unfoldable pub check_priority : Kernel → Option Kernel
check_priority k = check_against k k.ready_list

unfoldable pub thread_set_priority : Kernel → ℕ → Option Kernel
thread_set_priority k new_priority = do
  cur ← thread_current k
  check_priority (
      put k cur
        (record (k.threads cur) { priority = new_priority; original_priority = new_priority }))

-- list_back of a list, or `d` for the empty one.
abbrev pub last_or : List ℕ → ℕ → ℕ
last_or [] d = d
last_or (x ∷ xs) d = last_or xs x

-- The result of thread_get_priority, for the threads on the donor list of the current one.
unfoldable pub effective_priority : Kernel → ℕ → List ℕ → ℕ
effective_priority k cur [] = (k.threads cur).priority
effective_priority k cur (t ∷ ts) =
    let other_priority = (k.threads (last_or ts t)).priority in
    if ltb (k.threads cur).priority other_priority then other_priority else (k.threads cur).priority

unfoldable pub thread_get_priority : Kernel → Option ℕ
thread_get_priority k = do
  cur ← thread_current k
  some (effective_priority k cur (k.threads cur).donor)

-- intr_yield_on_return of threads/interrupt.c
unfoldable pub intr_yield_on_return : Kernel → Option Kernel
intr_yield_on_return k = assert k.in_external_intr >> some (record k { yield_on_return = true })

unfoldable pub thread_tick : Kernel → Option Kernel
thread_tick k = do
  t ← thread_current k
  let counted =
      if t == k.idle_thread
      then record k { idle_ticks = k.idle_ticks + 1 }
      else if not ((k.threads t).pagedir == 0)
      then record k { user_ticks = k.user_ticks + 1 }
      else record k { kernel_ticks = k.kernel_ticks + 1 }
  let k' = record counted { thread_ticks = k.thread_ticks + 1 }
  if leb time_slice k'.thread_ticks then intr_yield_on_return k' else some k'

-- An external interrupt: intr_handler of threads/interrupt.c around a handler, on a state that the
-- threads are a part of. The interrupt controller is told of the end.
unfoldable pub intr_handler :
    {S : Type 0} → (S → Kernel) → (Kernel → S → S) → (S → Option S) → S → Option S
intr_handler kernel_of with_kernel handler s = do
  let k = kernel_of s
  assert (not k.in_external_intr)
  s1 ← handler (with_kernel (record k { in_external_intr = true; yield_on_return = false }) s)
  assert (kernel_of s1).in_external_intr
  let k2 = record (kernel_of s1) { in_external_intr = false }
  let yielded = (thread_yield k2 >>= λ k3. some (with_kernel k3 s1))
  if (kernel_of s1).yield_on_return then yielded else some (with_kernel k2 s1)
