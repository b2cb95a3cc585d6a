-- ===== src/Thread/Queue.antt =====
-- thread_unblock, thread_yield, thread_block and check_priority of threads/thread.c.
use cs439_pcs.Base.{ℕ, ◌≤◌, ◌<◌, true, false, some, List, ◌∷◌, ◌++◌}
use cs439_pcs.Base.{◌≡◌, ◌≢◌, refl, ap, sym, ◌∙◌, arith, inl, inr, ◌==◌, Bool-cases, ==_iff}
use cs439_pcs.Base.Each.{Each, Distinct, Listed, Each-imp}
use cs439_pcs.Thread.{Kernel, running, ready, blocked, status_eq, set_status, is_thread}
use cs439_pcs.Thread.{thread_current, compare_priority, insert_ready, thread_unblock}
use cs439_pcs.Thread.Ready.{Each-insert_before, insert_before-Distinct, insert_before-Falling}
use cs439_pcs.Thread.Ready.{insert_before-splits, Listed-insert_self, Listed-insert_before}
use mathlib.Core.Path.{subst}
use cs439_pcs.Thread.Invariant.{IsReady, IsScheduled, IsOrdered, HasPlace, HasPlace-same, priority}
use cs439_pcs.Thread.Invariant.{set_status-IsReady, set_status-priority, set_status-is_thread}
use cs439_pcs.Thread.Invariant.{Alike, set_status-Alike, status_self, Falling-same, if_other}

-- A thread in another state than THREAD_READY is not in the ready list.
pub not_listed :
    (k : Kernel) (t : ℕ) (xs : List ℕ)
    → status_eq (k.threads t).status ready ≡ false
    → Each (IsReady k) xs
    → Each (λ u. u ≢ t) xs
unfolding IsReady
not_listed k t xs h e =
    Each-imp (IsReady k) (λ u. u ≢ t) xs
      (λ u (s, l) q.
        clash (sym (ap (λ x. status_eq x ready) (ap (λ v. (k.threads v).status) (sym q) ∙ s)) ∙ h))
      e
  where
    clash : true ≡ false → ⊥
    clash q = absurd (ground arith)

-- The thread is put in the ready list.
abbrev pub queued : Kernel → ℕ → Kernel
queued k t = set_status (insert_ready k t) t ready

pub queued-is_thread : (k : Kernel) (t u : ℕ) → is_thread (queued k t) u ≡ is_thread k u
unfolding insert_ready is_thread
queued-is_thread k t u = set_status-is_thread k t ready u

pub queued-Alike : (k : Kernel) (t : ℕ) → Alike k (queued k t)
unfolding insert_ready Alike
queued-Alike k t = set_status-Alike k t ready

pub queued-IsReady :
    (k : Kernel) (t : ℕ)
    → is_thread k t ≡ true
    → Each (λ u. u ≢ t) k.ready_list
    → Each (IsReady k) k.ready_list
    → Each (IsReady (queued k t)) (queued k t).ready_list
unfolding insert_ready compare_priority IsReady is_thread
queued-IsReady k t live n e =
    Each-insert_before (priority k) (IsReady (queued k t)) t k.ready_list
      (status_self k t ready, set_status-is_thread k t ready t ∙ live)
      (set_status-IsReady k t ready k.ready_list n e)

pub queued-Distinct :
    (k : Kernel) (t : ℕ)
    → Each (λ u. u ≢ t) k.ready_list
    → Distinct k.ready_list
    → Distinct (queued k t).ready_list
unfolding insert_ready compare_priority
queued-Distinct k t n d = insert_before-Distinct (priority k) t k.ready_list n d

pub queued-Listed_self : (k : Kernel) (t : ℕ) → Listed t (queued k t).ready_list
unfolding insert_ready compare_priority
queued-Listed_self k t = Listed-insert_self (priority k) t k.ready_list

pub queued-Listed :
    (k : Kernel) (t u : ℕ) → Listed u k.ready_list → Listed u (queued k t).ready_list
unfolding insert_ready compare_priority
queued-Listed k t u = Listed-insert_before (priority k) t u k.ready_list

queued-HasPlace :
    (k : Kernel) (t u : ℕ)
    → HasPlace k k.ready_list u
    → HasPlace (queued k t) (queued k t).ready_list u
unfolding insert_ready HasPlace
queued-HasPlace k t u p = elim (Bool-cases (t == u)) [
  | inl q ↦ inr (
      inr
        (subst (λ v. Listed v (queued k t).ready_list) ((==_iff t u).0 q) (queued-Listed_self k t)))
  | inr q ↦
      HasPlace-same k (queued k t) k.ready_list (queued k t).ready_list u (rw q refl) refl
        (queued-Listed k t u) p
]

pub queued_places :
    (k : Kernel) (t : ℕ)
    → Each (HasPlace k k.ready_list) k.all_list
    → Each (HasPlace (queued k t) (queued k t).ready_list) k.all_list
queued_places k t =
    Each-imp (HasPlace k k.ready_list) (HasPlace (queued k t) (queued k t).ready_list) k.all_list
      (queued-HasPlace k t)

pub queued-IsOrdered : (k : Kernel) (t : ℕ) → IsOrdered k → IsOrdered (queued k t)
unfolding insert_ready compare_priority IsOrdered
queued-IsOrdered k t o =
    Falling-same _ _ _ (λ u. sym (set_status-priority k t ready u))
      (insert_before-Falling (priority k) t k.ready_list o)

pub current_runs : (k : Kernel) → IsScheduled k → thread_current k ≡ some k.current
unfolding thread_current
current_runs k s = rw (s.live, s.runs) refl

blocked_not_running : blocked ≢ running
blocked_not_running e = clash (ap (λ x. status_eq x running) e)
  where
    clash : false ≡ true → ⊥
    clash q = absurd (ground arith)

still_runs :
    (k : Kernel) (t : ℕ)
    → IsScheduled k
    → (k.threads t).status ≡ blocked
    → ((queued k t).threads k.current).status ≡ running
unfolding insert_ready
still_runs k t s b =
    ap (λ x. x.status)
      (if_other t k.current _ (k.threads k.current)
        (λ e. blocked_not_running (sym b ∙ ap (λ c. (k.threads c).status) (sym e) ∙ s.runs)))
    ∙ s.runs

pub unblock_runs :
    (k : Kernel) (t : ℕ)
    → is_thread k t ≡ true
    → (k.threads t).status ≡ blocked
    → thread_unblock k t ≡ some (queued k t)
unfolding thread_unblock
unblock_runs k t live b = rw (live, b) refl

pub queued-IsScheduled :
    (k : Kernel) (t : ℕ)
    → IsScheduled k
    → is_thread k t ≡ true
    → (k.threads t).status ≡ blocked
    → IsScheduled (queued k t)
unfolding insert_ready
queued-IsScheduled k t s live b =
    let n = not_listed k t k.ready_list (ap (λ x. status_eq x ready) b) s.ready_threads in
    record {
      runs = still_runs k t s b;
      live = queued-is_thread k t k.current ∙ s.live;
      ready_threads = queued-IsReady k t live n s.ready_threads;
      distinct = queued-Distinct k t n s.distinct;
      idle = queued-is_thread k t k.idle_thread ∙ s.idle;
      places = queued_places k t s.places;
    }

-- thread_unblock of a blocked thread returns, and keeps the scheduler's state in order. In a ready
-- list that goes down by priority, the thread is put behind those whose priority is at least its
-- own and in front of those with a lower one, and the list still goes down by priority.
pub thread_unblock-IsScheduled :
    (k : Kernel) (t : ℕ)
    → IsScheduled k
    → is_thread k t ≡ true
    → (k.threads t).status ≡ blocked
    → (k' : Kernel) × (thread_unblock k t ≡ some k')
      × IsScheduled k'
      × (IsOrdered k
          → IsOrdered k'
            × ((us vs : List ℕ) × (k.ready_list ≡ us ++ vs)
                × (k'.ready_list ≡ us ++ t ∷ vs)
                × Each (λ u. priority k t ≤ priority k u) us
                × Each (λ u. priority k u < priority k t) vs))
unfolding insert_ready compare_priority IsOrdered
thread_unblock-IsScheduled k t s live b = (
  queued k t,
  unblock_runs k t live b,
  queued-IsScheduled k t s live b,
  λ o. (queued-IsOrdered k t o, insert_before-splits (priority k) t k.ready_list o),
)
