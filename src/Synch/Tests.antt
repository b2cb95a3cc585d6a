-- ===== src/Synch/Tests.antt =====
-- A lock that one thread holds and another waits for.
use cs439_pcs.Base.{ℕ, ◌≤◌, true, false, some, [], ◌∷◌}
use cs439_pcs.Base.{◌≡◌, refl, arith, inl, inr, if◌then◌else◌, ◌==◌}
use cs439_pcs.Base.Each.{Listed, Each}
use cs439_pcs.Base.{Bool-cases}
use cs439_pcs.Thread.{Kernel, Semaphore, thread_current, is_thread}
use cs439_pcs.Thread.Invariant.{IsScheduled, IsOrdered, RunsHighest}
use cs439_pcs.Thread.Tests.{four_threads, small_kernel, small_kernel-IsScheduled}
use cs439_pcs.Synch.{Machine, Lock, priority_donation, release_begin, sema_up, sema_try_down}
use cs439_pcs.Synch.{lock_try_acquire, try_down, try_end, lock_held_by_current_thread}
use cs439_pcs.Synch.Donation.{HoldersListed, IsDonation, IsServed, holder_of}
use cs439_pcs.Synch.Donation.{priority_donation-IsDonation}
use cs439_pcs.Synch.Release.{Restored, release_begin-Restored}
use cs439_pcs.Synch.Wake.{IsBlocked, Woken, sema_up-Woken}
use cs439_pcs.Synch.System.{
  System, Reachable, start, next, tried, held_now, trying, outside, move, IsInitial,
}
use cs439_pcs.Synch.Exclusion.{Inside, Reachable-Inside, Reachable-value}

abbrev free_lock : Lock
free_lock = record { holder = 0; semaphore = record { value = 1; waiters = [] } }

-- The running thread 1 waits for the lock 8, which thread 4 holds; thread 1 holds the lock 7.
abbrev waiting_machine : Machine
waiting_machine = record {
  kernel = record small_kernel {
    threads = λ t. if t == 1 then record (four_threads 1) { try_lock = 8 } else four_threads t;
  };
  locks = λ l.
      if l == 8
      then record free_lock { holder = 4 }
      else if l == 7
      then record free_lock { holder = 1 }
      else free_lock;
}

waiting_current : thread_current waiting_machine.kernel ≡ some 1
unfolding thread_current is_thread
waiting_current = refl

waiting_holders : HoldersListed waiting_machine
unfolding HoldersListed Listed
waiting_holders l = elim (Bool-cases (l == 8)) [
  | inl q ↦ rw (holder_of, q) (inr (inr (inr (inr (inl refl)))))
  | inr q ↦ elim (Bool-cases (l == 7)) [
    | inl r ↦ rw (holder_of, q, r) (inr (inl refl))
    | inr r ↦ rw (holder_of, q, r) (inl refl)
  ]
]

priority_donation-IsDonation_example :
    (m' : Machine) × (priority_donation waiting_machine ≡ some m')
    × IsDonation waiting_machine m' 31
    × IsServed waiting_machine m' 31 1
priority_donation-IsDonation_example =
    priority_donation-IsDonation waiting_machine 1 waiting_current waiting_holders

release_begin-Restored_example :
    (m' : Machine) × (release_begin waiting_machine 7 ≡ some m') × Restored waiting_machine m' 7 1
release_begin-Restored_example =
    release_begin-Restored waiting_machine 7 1 (λ e. omega (arith, e)) waiting_current refl

abbrev one_waiter : Semaphore
one_waiter = record { value = 0; waiters = 5 ∷ [] }

one_waiter-IsBlocked : Each (IsBlocked small_kernel) one_waiter.waiters
unfolding Each IsBlocked is_thread
one_waiter-IsBlocked = ((refl, refl), tt)

sema_up-Woken_example :
    (s' : Semaphore) × (k' : Kernel) × (sema_up small_kernel one_waiter ≡ some (s', k'))
    × IsScheduled k'
    × (s'.value ≡ 1)
    × Woken small_kernel one_waiter s' k'
    × (small_kernel.in_external_intr ≡ false → IsOrdered small_kernel → RunsHighest k')
sema_up-Woken_example =
    sema_up-Woken small_kernel one_waiter small_kernel-IsScheduled one_waiter-IsBlocked

abbrev all_free : System
all_free = record {
  machine = record { kernel = small_kernel; locks = λ l. free_lock };
  stages = λ t. outside;
}

all_free-IsInitial : IsInitial all_free
all_free-IsInitial = record { all_free = λ l. refl; all_outside = λ t. refl }

-- Thread 1 takes the lock 9 by lock_try_acquire.
abbrev down_machine : Machine
down_machine = record {
  kernel = small_kernel;
  locks = λ l.
      if 9 == l
      then record { holder = 0; semaphore = record { value = 0; waiters = [] } }
      else free_lock;
}

abbrev tried_machine : Machine
tried_machine = record {
  kernel = small_kernel;
  locks = λ l.
      if 9 == l
      then record { holder = 1; semaphore = record { value = 0; waiters = [] } }
      else down_machine.locks l;
}

try_runs : try_down all_free.machine 9 ≡ some (true, down_machine)
unfolding try_down lock_held_by_current_thread thread_current is_thread sema_try_down
try_runs = refl

end_runs : try_end down_machine 9 ≡ some tried_machine
unfolding try_end thread_current is_thread
end_runs = refl

lock_try_acquire_runs : lock_try_acquire all_free.machine 9 ≡ some (true, tried_machine)
unfolding lock_try_acquire
lock_try_acquire_runs = rw (try_runs, end_runs) refl

abbrev down_system : System
down_system = move all_free down_machine (trying 9)

abbrev tried_system : System
tried_system = move down_system tried_machine outside

tried-Reachable : Reachable tried_system
tried-Reachable =
    next {s = down_system}
      (next {s = all_free} (start all_free-IsInitial) (tried 9 down_machine refl try_runs refl))
      (held_now 9 tried_machine refl end_runs refl)

thread_one-Inside : Inside tried_system 9 1
unfolding Inside
thread_one-Inside = inl ((λ e. omega (arith, e)), refl)

Reachable-Inside_example : ◌≡◌ {A = ℕ} 1 1
Reachable-Inside_example =
    Reachable-Inside 9 1 1 tried-Reachable thread_one-Inside thread_one-Inside

Reachable-value_example :
    ((tried_machine.locks 9).semaphore.value ≤ 1)
    × ((t : ℕ) → Inside tried_system 9 t → (tried_machine.locks 9).semaphore.value ≡ 0)
Reachable-value_example = Reachable-value 9 tried-Reachable
