-- ===== src/Timer/Asleep.antt =====
-- Threads that sleep on a semaphore of their own, as timer_sleep of devices/timer.c leaves them, and
-- the state in which sema_up leaves such a thread.
use cs439_pcs.Base.{ℕ, ◌≤◌, Bool, true, Option, some, List, [], ◌∷◌}
use cs439_pcs.Base.{◌≡◌, ◌≢◌, refl, ap, ◌∙◌, arith, if◌then◌else◌}
use cs439_pcs.Base.{==_self}
use cs439_pcs.Base.Each.{Each, Each-imp, Each-and}
use cs439_pcs.DoublyLinked.Sort.{
  all_sorted, is_sorted, list_sort, sort_loop, merge_pass, find_end_of_run,
}
use cs439_pcs.Thread.{Kernel, Semaphore, ready, blocked, is_thread}
use cs439_pcs.Thread.{compare_priority, insert_ready, check_priority}
use cs439_pcs.Thread.Invariant.{IsScheduled, IsOrdered, if_other}
use cs439_pcs.Thread.Frame.{put-IsScheduled, put-IsOrdered}
use cs439_pcs.Thread.Queue.{queued, unblock_runs}
use cs439_pcs.Thread.Birth.{queued_context}
use cs439_pcs.Synch.{sema_up, wake_first}
use cs439_pcs.Timer.{store_sema}

-- The times of the threads never go down along the list.
unfoldable pub Rising : (ℕ → ℕ) → List ℕ → Type 0
Rising p [] = Unit {0}
Rising p (x ∷ xs) = Each (λ y. p x ≤ p y) xs × Rising p xs

abbrev pub time : Kernel → ℕ → ℕ
time k t = (k.threads t).time_checker

-- A thread in the midst of timer_sleep: it is blocked and waits on its own semaphore.
unfoldable pub Sleeps : Kernel → ℕ → Type 0
Sleeps k t =
    ((k.threads t).status ≡ blocked)
    × (is_thread k t ≡ true)
    × ((k.threads t).sema_p ≡ record { value = 0; waiters = t ∷ [] })

-- A thread that is ready to go on behind sema_down of timer_sleep.
unfoldable pub IsAwake : Kernel → ℕ → Type 0
IsAwake k t =
    ((k.threads t).status ≡ ready) × ((k.threads t).sema_p ≡ record { value = 1; waiters = [] })

-- The thread unblocked and its semaphore up.
abbrev pub roused : Kernel → ℕ → Kernel
roused k t = store_sema (queued k t) t (record { value = 1; waiters = [] })

sort_one : (k : Kernel) (t : ℕ) → list_sort (compare_priority k) (t ∷ []) ≡ some (t ∷ [])
unfolding list_sort sort_loop merge_pass find_end_of_run all_sorted is_sorted
sort_one k t = refl

pub up_one :
    (k : Kernel) (t : ℕ)
    → k.in_external_intr ≡ true
    → is_thread k t ≡ true
    → (k.threads t).status ≡ blocked
    → sema_up k (record { value = 0; waiters = t ∷ [] })
      ≡ some (record { value = 1; waiters = [] }, queued k t)
unfolding sema_up wake_first
up_one k t on live b =
    let next : Bool → Option Kernel =
      λ c. if c then some (queued k t) else check_priority (queued k t) in
    rw (sort_one k t, unblock_runs k t live b, ap next (queued_context k t ∙ on)) refl

pub roused_other : (k : Kernel) (t u : ℕ) → u ≢ t → (roused k t).threads u ≡ k.threads u
unfolding insert_ready
roused_other k t u n = if_other t u _ _ n ∙ if_other t u _ (k.threads u) n

pub store_sema-IsScheduled :
    (k : Kernel) (t : ℕ) (sema : Semaphore) → IsScheduled k → IsScheduled (store_sema k t sema)
store_sema-IsScheduled k t sema =
    put-IsScheduled k t (record (k.threads t) { sema_p = sema }) refl refl

pub store_sema-IsOrdered :
    (k : Kernel) (t : ℕ) (sema : Semaphore) → IsOrdered k → IsOrdered (store_sema k t sema)
store_sema-IsOrdered k t sema = put-IsOrdered k t (record (k.threads t) { sema_p = sema }) refl

pub roused-IsAwake : (k : Kernel) (t : ℕ) → IsAwake (roused k t) t
unfolding IsAwake insert_ready
roused-IsAwake k t = rw (==_self t) (refl, refl)

pub Rising-same : (p q : ℕ → ℕ) (xs : List ℕ) → Each (λ u. q u ≡ p u) xs → Rising p xs → Rising q xs
unfolding Rising Each
Rising-same p q [] e f = tt
Rising-same p q (x ∷ xs) e f = (
  Each-imp (λ u. (q u ≡ p u) × (p x ≤ p u)) (λ u. q x ≤ q u) xs
      (λ u (a, b). omega (arith, a, b, e.0))
      (Each-and (λ u. q u ≡ p u) (λ u. p x ≤ p u) xs e.1 f.0),
  Rising-same p q xs e.1 f.1,
)
