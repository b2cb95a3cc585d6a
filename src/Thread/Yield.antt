-- ===== src/Thread/Yield.antt =====
-- thread_yield, thread_block and check_priority of threads/thread.c.
use cs439_pcs.Base.{ℕ, ◌≤◌, false, Option, some, List, [], ◌∷◌}
use cs439_pcs.Base.{◌≡◌, ◌≢◌, refl, ap, sym, ◌∙◌, inl, inr, arith, not}
use cs439_pcs.Base.{◌==◌, ltb, if◌then◌else◌, Bool-cases, ==_iff, ◌⊎◌, assert, ◌>>=◌, ◌>>◌}
use cs439_pcs.Base.Each.{Each, Falling, Listed, Each-imp}
use cs439_pcs.Thread.{Kernel, Status, running, ready, blocked, status_eq, set_status}
use cs439_pcs.Thread.{schedule, thread_current, insert_ready}
use cs439_pcs.Thread.{thread_yield, thread_block, check_priority, check_against}
use cs439_pcs.Thread.Invariant.{
  IsScheduled, IsOrdered, RunsHighest, IsSwitching, HasPlace, priority, HasPlace-same,
}
use cs439_pcs.Thread.Invariant.{set_status-IsReady, set_status-priority, set_status-is_thread}
use cs439_pcs.Thread.Invariant.{Alike, set_status-Alike, trans_Alike, status_self, Falling-same}
use cs439_pcs.Thread.Schedule.{Rescheduled, schedule-Rescheduled}
use cs439_pcs.Thread.Queue.{not_listed, queued, queued-is_thread, queued-Alike, queued-IsReady}
use cs439_pcs.Thread.Queue.{queued_places, queued-Listed}
use cs439_pcs.Thread.Queue.{queued-Distinct, queued-IsOrdered, current_runs}
use mathlib.Core.Path.{subst}

stopped_by :
    (k : Kernel) (t : ℕ) (s : Status)
    → status_eq s running ≡ false
    → status_eq ((set_status k t s).threads t).status running ≡ false
stopped_by k t s h = ap (λ x. status_eq x running) (status_self k t s) ∙ h

pub current_not_listed : (k : Kernel) → IsScheduled k → Each (λ u. u ≢ k.current) k.ready_list
current_not_listed k s =
    not_listed k k.current k.ready_list (ap (λ x. status_eq x ready) s.runs) s.ready_threads

leaving-HasPlace :
    (k : Kernel) (s : Status) (u : ℕ)
    → (status_eq s ready ≡ false) ⊎ (k.current ≡ k.idle_thread)
    → HasPlace k k.ready_list u
    → HasPlace (set_status k k.current s) k.ready_list u
unfolding HasPlace
leaving-HasPlace k s u i p = elim (Bool-cases (k.current == u)) [
  | inl q ↦
      let e = (==_iff k.current u).0 q in
      elim i [ inl h ↦ inl (rw q h) | inr a ↦ inr (inl (sym e ∙ a)) ]
  | inr q ↦
      HasPlace-same k (set_status k k.current s) k.ready_list k.ready_list u (rw q refl) refl
        (λ l. l) p
]

-- The current thread takes another status and stays out of the ready list.
pub leaving-IsSwitching :
    (k : Kernel) (s : Status)
    → IsScheduled k
    → status_eq s running ≡ false
    → (status_eq s ready ≡ false) ⊎ (k.current ≡ k.idle_thread)
    → IsSwitching (set_status k k.current s)
leaving-IsSwitching k s sc h i = record {
  stopped = stopped_by k k.current s h;
  ready_threads =
      set_status-IsReady k k.current s k.ready_list (current_not_listed k sc) sc.ready_threads;
  distinct = sc.distinct;
  idle = set_status-is_thread k k.current s k.idle_thread ∙ sc.idle;
  places =
      Each-imp (HasPlace k k.ready_list) (HasPlace (set_status k k.current s) k.ready_list)
        k.all_list (λ u. leaving-HasPlace k s u i) sc.places;
}

queueing-IsSwitching : (k : Kernel) → IsScheduled k → IsSwitching (queued k k.current)
unfolding insert_ready
queueing-IsSwitching k sc = record {
  stopped = stopped_by k k.current ready refl;
  ready_threads = queued-IsReady k k.current sc.live (current_not_listed k sc) sc.ready_threads;
  distinct = queued-Distinct k k.current (current_not_listed k sc) sc.distinct;
  idle = queued-is_thread k k.current k.idle_thread ∙ sc.idle;
  places = queued_places k k.current sc.places;
}

pub Rescheduled-from :
    (k k1 k' : Kernel)
    → Alike k k1
    → (IsOrdered k → IsOrdered k1)
    → k1.in_external_intr ≡ k.in_external_intr
    → k1.all_list ≡ k.all_list
    → k1.next_tid ≡ k.next_tid
    → k1.idle_thread ≡ k.idle_thread
    → ((u : ℕ) → Listed u k.ready_list → Listed u k1.ready_list)
    → Rescheduled k1 k'
    → Rescheduled k k'
Rescheduled-from k k1 k' p o c a t i l r = record {
  scheduled = r.scheduled;
  alike = trans_Alike k k1 k' p r.alike;
  highest = λ q. r.highest (o q);
  context = r.context ∙ c;
  all = r.all ∙ a;
  tids = r.tids ∙ t;
  idle_same = r.idle_same ∙ i;
  keeps = λ u m. r.keeps u (l u m);
}

pub status-Rescheduled :
    (k : Kernel) (s : Status) (k' : Kernel)
    → Rescheduled (set_status k k.current s) k'
    → Rescheduled k k'
unfolding IsOrdered
status-Rescheduled k s k' r =
    Rescheduled-from k (set_status k k.current s) k' (set_status-Alike k k.current s)
      (λ o. Falling-same _ _ _ (λ u. sym (set_status-priority k k.current s u)) o) refl refl refl
      refl (λ u m. m) r

queued-Rescheduled : (k k' : Kernel) → Rescheduled (queued k k.current) k' → Rescheduled k k'
unfolding insert_ready
queued-Rescheduled k k' r =
    Rescheduled-from k (queued k k.current) k' (queued-Alike k k.current)
      (queued-IsOrdered k k.current) refl refl refl refl (queued-Listed k k.current) r

block_runs :
    (k k' : Kernel)
    → k.in_external_intr ≡ false
    → thread_current k ≡ some k.current
    → schedule (set_status k k.current blocked) ≡ some k'
    → thread_block k ≡ some k'
unfolding thread_block
block_runs k k' off c r =
    let rest : ℕ → Option Kernel = λ cur. schedule (set_status k cur blocked) in
    ap (λ b. assert (not b) >> (thread_current k >>= rest)) off ∙ (ap (λ o. o >>= rest) c ∙ r)

yield_runs :
    (k k' : Kernel)
    → k.in_external_intr ≡ false
    → thread_current k ≡ some k.current
    → schedule (
        set_status
          (if k.current == k.idle_thread then k else insert_ready k k.current)
          k.current
          ready)
      ≡ some k'
    → thread_yield k ≡ some k'
unfolding thread_yield
yield_runs k k' off c r =
    let rest : ℕ → Option Kernel = λ cur.
      schedule (set_status (if cur == k.idle_thread then k else insert_ready k cur) cur ready) in
    ap (λ o. o >>= λ cur. assert (not k.in_external_intr) >> rest cur) c
    ∙ (ap (λ b. assert (not b) >> rest k.current) off ∙ r)

pub thread_block-Rescheduled :
    (k : Kernel)
    → IsScheduled k
    → k.in_external_intr ≡ false
    → (k' : Kernel) × (thread_block k ≡ some k') × (k'.thread_ticks ≡ 0) × Rescheduled k k'
thread_block-Rescheduled k s off =
    let (k', runs, z, r) =
      schedule-Rescheduled (set_status k k.current blocked)
        (leaving-IsSwitching k blocked s refl (inl refl)) in
    (k', block_runs k k' off (current_runs k s) runs, z, status-Rescheduled k blocked k' r)

-- Outside an interrupt, thread_yield returns at the start of a time slice. It brings the scheduler's state back in order,
-- each thread as it was but for its status, and if the ready list went down by priority, no ready thread has a
-- higher priority than the one that runs.
pub thread_yield-Rescheduled :
    (k : Kernel)
    → IsScheduled k
    → k.in_external_intr ≡ false
    → (k' : Kernel) × (thread_yield k ≡ some k') × (k'.thread_ticks ≡ 0) × Rescheduled k k'
thread_yield-Rescheduled k s off = elim (Bool-cases (k.current == k.idle_thread)) [
  | inl q ↦
      let (k', runs, z, r) =
        schedule-Rescheduled (set_status k k.current ready)
          (leaving-IsSwitching k ready s refl (inr ((==_iff _ _).0 q))) in
      (k', yield_runs k k' off (current_runs k s) (rw q runs), z, status-Rescheduled k ready k' r)
  | inr q ↦
      let (k', runs, z, r) = schedule-Rescheduled (queued k k.current) (queueing-IsSwitching k s) in
      (k', yield_runs k k' off (current_runs k s) (rw q runs), z, queued-Rescheduled k k' r)
]

checks :
    (k : Kernel) (t : ℕ) (ts : List ℕ)
    → k.ready_list ≡ t ∷ ts
    → thread_current k ≡ some k.current
    → check_priority k
      ≡ (if ltb (priority k k.current) (priority k t) then thread_yield k else some k)
unfolding check_priority check_against
checks k t ts e c =
    ap (check_against k) e
    ∙ ap (λ o. o >>= λ cur. if ltb (priority k cur) (priority k t) then thread_yield k else some k)
        c

head_highest :
    (k : Kernel) (t : ℕ) (ts : List ℕ)
    → k.ready_list ≡ t ∷ ts
    → ltb (priority k k.current) (priority k t) ≡ false
    → IsOrdered k
    → RunsHighest k
unfolding IsOrdered RunsHighest Falling Each
head_highest k t ts e q o =
    let (f, _) : Falling (priority k) (t ∷ ts) = subst (λ l. Falling (priority k) l) e o in
    let le : priority k t ≤ priority k k.current = not_lt _ _ q in
    subst (λ l. Each (λ u. priority k u ≤ priority k k.current) l) (sym e)
      (
        le,
        Each-imp (λ u. priority k u ≤ priority k t) (λ u. priority k u ≤ priority k k.current) ts
            (λ u h. omega (arith, h, le)) f,
      )
  where
    not_lt : (a b : ℕ) → ltb a b ≡ false → b ≤ a
    not_lt a b q = ground arith

kept : (k : Kernel) → IsScheduled k → (IsOrdered k → RunsHighest k) → Rescheduled k k
unfolding Alike
kept k s h = record {
  scheduled = s;
  alike = λ u. refl;
  highest = λ o. (o, h o);
  context = refl;
  all = refl;
  tids = refl;
  idle_same = refl;
  keeps = λ u m. inr m;
}

none_highest : (k : Kernel) → k.ready_list ≡ [] → RunsHighest k
unfolding RunsHighest Each
none_highest k e = subst (λ l. Each (λ u. priority k u ≤ priority k k.current) l) (sym e) tt

check_none : (k : Kernel) → k.ready_list ≡ [] → check_priority k ≡ some k
unfolding check_priority check_against
check_none k e = ap (check_against k) e

-- Outside an interrupt, check_priority returns, with the scheduler's state in order and
-- each thread as it was but for its status. If the ready list went down by priority, no ready thread has a higher
-- priority than the running thread afterwards.
pub check_priority-Rescheduled :
    (k : Kernel)
    → IsScheduled k
    → k.in_external_intr ≡ false
    → (k' : Kernel) × (check_priority k ≡ some k') × Rescheduled k k'
check_priority-Rescheduled k s off = by_list k.ready_list refl
  where
    by_list :
        (xs : List ℕ)
        → k.ready_list ≡ xs
        → (k' : Kernel) × (check_priority k ≡ some k') × Rescheduled k k'
    by_list [] e = (k, check_none k e, kept k s (λ o. none_highest k e))
    by_list (t ∷ ts) e =
        let c = checks k t ts e (current_runs k s) in
        elim (Bool-cases (ltb (priority k k.current) (priority k t))) [
          | inl q ↦
              let (k', runs, _, r) = thread_yield-Rescheduled k s off in (k', c ∙ (rw q runs), r)
          | inr q ↦ (k, c ∙ (rw q refl), kept k s (head_highest k t ts e q))
        ]
