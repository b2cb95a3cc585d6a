-- ===== src/Thread/Create.antt =====
-- threads/thread.c: threads are made, ended and looked up. The stack frames of a new thread are
-- left out. So is tid_lock: allocate_tid runs under it, so it is one step.
use cs439_pcs.Base.{ℕ, zero, suc, ◌+◌, Bool, true, false, not, ◌&&◌, Option, none, some}
use cs439_pcs.Base.{List, [], ◌∷◌, ◌++◌, ◌==◌, leb, if◌then◌else◌, assert, ◌>>=◌, ◌>>◌}
use cs439_pcs.Base.{◌%◌, word_mod}
use cs439_pcs.Thread.{Family, ChildProcess, thread_tid}
use cs439_pcs.Thread.{Kernel, Thread, running, blocked, dying, thread_magic, put, set_status}
use cs439_pcs.Thread.{pri_min, pri_max, thread_current, thread_unblock, thread_get_priority}
use cs439_pcs.Thread.{thread_yield, thread_block, schedule}

-- The first `n` bytes of a string that zeros follow.
abbrev pub pad : ℕ → List ℕ → List ℕ
pad zero xs = []
pad (suc n) [] = 0 ∷ pad n []
pad (suc n) (x ∷ xs) = x ∷ pad n xs

-- The struct thread that init_thread leaves in memory; lists and semaphores are empty.
unfoldable pub blank_thread : List ℕ → ℕ → Thread
blank_thread name priority = record {
  tid = 0;
  status = blocked;
  name = pad 15 name ++ 0 ∷ [];
  priority = priority;
  original_priority = priority;
  donor = [];
  try_lock = 0;
  pagedir = 0;
  magic = thread_magic;
  time_checker = 0;
  sema_p = record { value = 0; waiters = [] };
}

-- *t = f, for the members of struct Family.
abbrev pub put_family : Kernel → ℕ → Family → Kernel
put_family k t f = record k { family = λ u. if t == u then f else k.family u }

-- NO_PARENT, as a word.
abbrev pub no_parent : ℕ
no_parent = 4294967295

abbrev pub no_family : Family
no_family = record { parent = no_parent; child_proc = 0; child_list = []; cur_dir = 0 }

unfoldable pub init_thread : Kernel → ℕ → List ℕ → ℕ → Option Kernel
init_thread k t name priority = do
  assert (not (t == 0))
  assert (leb pri_min priority && leb priority pri_max)
  let k1 = put_family (put k t (blank_thread name priority)) t no_family
  some (record k1 { all_list = k.all_list ++ t ∷ [] })

-- An identifier is a 32-bit word.
unfoldable pub allocate_tid : Kernel → ℕ × Kernel
allocate_tid k = (k.next_tid, record k { next_tid = (k.next_tid + 1) % word_mod })

-- `initial` is the page whose stack the kernel started on; `k` is the memory at start.
unfoldable pub thread_init : Kernel → ℕ → Option Kernel
thread_init k initial = do
  let k1 = record k { ready_list = []; all_list = []; initial_thread = initial; current = initial }
  let main_name = 109 ∷ 97 ∷ 105 ∷ 110 ∷ []
  k2 ← init_thread k1 initial main_name 31
  let (tid, k3) = allocate_tid (set_status k2 initial running)
  some (put k3 initial (record (k3.threads initial) { tid = tid }))

-- INIT_EXIT_STATUS
abbrev pub init_exit_status : ℕ
init_exit_status = 4294967295

abbrev pub new_child : ℕ → ChildProcess
new_child tid = record {
  pid = tid;
  exited = false;
  waited = false;
  exit_status = init_exit_status;
  sema_zombi = record { value = 0; waiters = [] };
}

-- add_child_proc of userprog/process.c. `child` is what malloc returned; the result is the record, or
-- 0 for NULL.
unfoldable pub add_child_proc : Kernel → ℕ → ℕ → Option (ℕ × Kernel)
add_child_proc k child tid = do
  cur ← thread_current k
  let stored = record k { children = λ c. if c == child then new_child tid else k.children c }
  let mine = k.family cur
  let listed = put_family stored cur (record mine { child_list = mine.child_list ++ child ∷ [] })
  some (if child == 0 then (0, k) else (child, listed))

-- What thread_create tells the new thread and its parent of each other. `dir` is what dir_reopen
-- returns for the directory of the caller, if it has one.
unfoldable pub rear : Kernel → ℕ → ℕ → ℕ → ℕ → Option Kernel
rear k page child dir tid = do
  parent ← thread_tid k
  let k1 = put_family k page (record (k.family page) { parent = parent })
  (cp, k2) ← add_child_proc k1 child tid
  let k3 = put_family k2 page (record (k2.family page) { child_proc = cp })
  cur ← thread_current k3
  let new_dir = if (k3.family cur).cur_dir == 0 then 0 else dir
  some (put_family k3 page (record (k3.family page) { cur_dir = new_dir }))

-- thread_create up to its call of thread_unblock, for a page that is not 0: the new thread is
-- blocked.
unfoldable pub create_blocked : Kernel → ℕ → ℕ → ℕ → List ℕ → ℕ → Option (ℕ × Kernel)
create_blocked k page child dir name priority = do
  k1 ← init_thread k page name priority
  let (tid, k2) = allocate_tid k1
  k3 ← rear (put k2 page (record (k2.threads page) { tid = tid })) page child dir tid
  some (tid, k3)

-- thread_create where it is not interrupted, to where it returns or another thread goes on. `page` is
-- what palloc_get_page returned; the result is `none` for TID_ERROR.
unfoldable pub thread_create : Kernel → ℕ → ℕ → ℕ → List ℕ → ℕ → Option (Option ℕ × Kernel)
thread_create k page child dir name priority = do
  let made = do
    (tid, k3) ← create_blocked k page child dir name priority
    k4 ← thread_unblock k3 page
    own ← thread_get_priority k4
    k5 ← (if leb own priority then thread_yield k4 else some k4)
    some (some tid, k5)
  if page == 0 then some (none, k) else made

abbrev pub without : ℕ → List ℕ → List ℕ
without t [] = []
without t (u ∷ us) = if t == u then us else u ∷ without t us

-- The end of process_exit of userprog/process.c, behind what it does to the files and the relatives
-- of the process: the page directory is given up, and the thread blocks and does not go on.
unfoldable pub process_exit_end : Kernel → Option Kernel
process_exit_end k = do
  cur ← thread_current k
  thread_block (put k cur (record (k.threads cur) { pagedir = 0 }))

-- thread_exit behind its call of process_exit.
unfoldable pub exit_end : Kernel → Option Kernel
exit_end k = do
  cur ← thread_current k
  schedule (set_status (record k { all_list = without cur k.all_list }) cur dying)

-- thread_exit. `userprog` tells whether USERPROG is defined; if it is, process_exit does not return.
unfoldable pub thread_exit : Bool → Kernel → Option Kernel
thread_exit userprog k = do
  assert (not k.in_external_intr)
  let user = process_exit_end k
  if userprog then user else exit_end k

-- The loop of get_thread along the list of all threads, with 0 for NULL.
unfoldable pub search : Kernel → List ℕ → ℕ → ℕ
search k [] tid = 0
search k (t ∷ ts) tid = if (k.threads t).tid == tid then t else search k ts tid

unfoldable pub get_thread : Kernel → ℕ → ℕ
get_thread k tid = search k k.all_list tid

-- The loop of thread_exist.
unfoldable pub exist_loop : Kernel → List ℕ → ℕ → Bool
exist_loop k [] tid = false
exist_loop k (t ∷ ts) tid = if (k.threads t).tid == tid then true else exist_loop k ts tid

unfoldable pub thread_exist : Kernel → ℕ → Bool
thread_exist k tid = exist_loop k k.all_list tid

-- thread_foreach, for an action that changes the state.
unfoldable pub thread_foreach : (Kernel → ℕ → Kernel) → Kernel → List ℕ → Kernel
thread_foreach func k [] = k
thread_foreach func k (t ∷ ts) = thread_foreach func (func k t) ts

-- One round of the loop of idle.
unfoldable pub idle_round : Kernel → Option Kernel
idle_round k = thread_block k
