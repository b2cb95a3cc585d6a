-- ===== src/Thread/Tests.antt =====
-- A kernel with a running thread, two ready ones and the idle thread.
use cs439_pcs.Base.{ℕ, ◌<◌, ◌≤◌, true, false, some, List, [], ◌∷◌, ◌++◌}
use cs439_pcs.Base.{◌≡◌, ◌≢◌, refl, arith, if◌then◌else◌, ◌==◌}
use cs439_pcs.Base.Each.{Each, Distinct, Falling}
use cs439_pcs.Thread.{Kernel, Thread, Status, running, ready, blocked, thread_magic, is_thread}
use cs439_pcs.Thread.{thread_unblock, thread_set_priority}
use cs439_pcs.Base.{inl, inr}
use cs439_pcs.Base.Each.{Listed}
use cs439_pcs.Thread.Create.{no_family, new_child}
use cs439_pcs.Thread.Invariant.{HasPlace}
use cs439_pcs.Thread.Create.{thread_create, get_thread, thread_exist}
use cs439_pcs.Thread.Invariant.{IsReady, IsScheduled, IsOrdered, RunsHighest, priority}
use cs439_pcs.Thread.Queue.{thread_unblock-IsScheduled}
use cs439_pcs.Thread.Priority.{thread_set_priority-RunsHighest}
use cs439_pcs.Thread.Birth.{IsUnused}
use cs439_pcs.Thread.Search.{IsNumbered, get_thread-thread_create}

abbrev pub thread_with : ℕ → Status → ℕ → Thread
thread_with tid status p = record {
  tid = tid;
  status = status;
  name = [];
  priority = p;
  original_priority = p;
  donor = [];
  try_lock = 0;
  pagedir = 0;
  magic = thread_magic;
  time_checker = 0;
  sema_p = record { value = 0; waiters = [] };
}

-- The threads on the pages 1 to 5; 5 waits for an event.
abbrev pub four_threads : ℕ → Thread
four_threads n =
    if n == 1
    then thread_with 1 running 31
    else if n == 2
    then thread_with 2 blocked 0
    else if n == 3
    then thread_with 3 ready 40
    else if n == 4
    then thread_with 4 ready 31
    else thread_with 5 blocked 35

abbrev pub small_kernel : Kernel
small_kernel = record {
  threads = four_threads;
  family = λ t. no_family;
  children = new_child;
  current = 1;
  idle_thread = 2;
  initial_thread = 1;
  ready_list = 3 ∷ 4 ∷ [];
  all_list = 1 ∷ 2 ∷ 3 ∷ 4 ∷ [];
  next_tid = 6;
  thread_ticks = 2;
  idle_ticks = 0;
  kernel_ticks = 0;
  user_ticks = 0;
  freed = [];
  in_external_intr = false;
  yield_on_return = false;
}

pub small_kernel-IsScheduled : IsScheduled small_kernel
unfolding Each Distinct IsReady is_thread HasPlace Listed
small_kernel-IsScheduled = record {
  runs = refl;
  live = refl;
  ready_threads = ((refl, refl), ((refl, refl), tt));
  distinct = (((λ e. omega (arith, e)), tt), (tt, tt));
  idle = refl;
  places = (inl refl, (inl refl, (inr (inr (inl refl)), (inr (inr (inr (inl refl))), tt))));
}

pub small_kernel-IsOrdered : IsOrdered small_kernel
unfolding IsOrdered Falling Each
small_kernel-IsOrdered = ((omega arith, tt), (tt, tt))

small_kernel-IsNumbered : IsNumbered small_kernel
unfolding IsNumbered Each
small_kernel-IsNumbered = (omega arith, (omega arith, (omega arith, (omega arith, tt))))

page-IsUnused : IsUnused small_kernel 9
unfolding Each
page-IsUnused = record {
  there = λ e. omega (arith, e);
  not_current = λ e. omega (arith, e);
  not_idle = λ e. omega (arith, e);
  not_ready = ((λ e. omega (arith, e)), ((λ e. omega (arith, e)), tt));
}

page_unlisted : Each (λ u. u ≢ 9) small_kernel.all_list
unfolding Each
page_unlisted = (
  (λ e. omega (arith, e)),
  ((λ e. omega (arith, e)), ((λ e. omega (arith, e)), ((λ e. omega (arith, e)), tt))),
)

thread_unblock-IsScheduled_example :
    (k' : Kernel) × (thread_unblock small_kernel 5 ≡ some k')
    × IsScheduled k'
    × (IsOrdered small_kernel
        → IsOrdered k'
          × ((us vs : List ℕ) × (small_kernel.ready_list ≡ us ++ vs)
              × (k'.ready_list ≡ us ++ 5 ∷ vs)
              × Each (λ u. priority small_kernel 5 ≤ priority small_kernel u) us
              × Each (λ u. priority small_kernel u < priority small_kernel 5) vs))
unfolding is_thread
thread_unblock-IsScheduled_example =
    thread_unblock-IsScheduled small_kernel 5 small_kernel-IsScheduled refl refl

thread_set_priority-RunsHighest_example :
    (k' : Kernel) × (thread_set_priority small_kernel 10 ≡ some k')
    × IsScheduled k'
    × (k'.in_external_intr ≡ false)
    × IsOrdered k'
    × RunsHighest k'
    × (priority k' 1 ≡ 10)
    × ((k'.threads 1).original_priority ≡ 10)
thread_set_priority-RunsHighest_example =
    thread_set_priority-RunsHighest small_kernel 10 small_kernel-IsScheduled refl
      small_kernel-IsOrdered

get_thread-thread_create_example :
    (n : ℕ) × (k' : Kernel) × (thread_create small_kernel 9 12 0 [] 50 ≡ some (some n, k'))
    × (get_thread k' n ≡ 9)
    × (thread_exist k' n ≡ true)
    × ((m : ℕ)
        → m ≢ n
        → (get_thread k' m ≡ get_thread small_kernel m)
          × (thread_exist k' m ≡ thread_exist small_kernel m))
    × IsNumbered k'
get_thread-thread_create_example =
    get_thread-thread_create small_kernel 9 12 0 [] 50 small_kernel-IsScheduled refl page-IsUnused
      page_unlisted (omega arith) (omega arith) small_kernel-IsNumbered
