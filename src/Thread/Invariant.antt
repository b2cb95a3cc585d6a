-- ===== src/Thread/Invariant.antt =====
-- The states that the scheduler of threads/thread.c keeps to, and that schedule brings back.
use cs439_pcs.Base.{ℕ, ◌≤◌, true, false, List, ◌∷◌}
use cs439_pcs.Base.{◌≡◌, ◌≢◌, refl, ap, sym, ◌∙◌, inl, inr}
use cs439_pcs.Base.{
  ◌==◌, if◌then◌else◌, Bool-cases, ==_self, ==_ne, ==_is, ==_iff, false, ◌⊎◌, arith,
}
use cs439_pcs.Base.Each.{Each, Distinct, Falling, Listed, Each-imp, Each-and}
use cs439_pcs.Thread.{Kernel, Thread, Status, running, ready, status_eq, set_status}
use cs439_pcs.Thread.{is_thread}
use cs439_pcs.Thread.Switch.{Switched}
use mathlib.Core.Path.{subst}

abbrev pub priority : Kernel → ℕ → ℕ
priority k t = (k.threads t).priority

-- A thread whose page holds a struct thread, in the state THREAD_READY.
unfoldable pub IsReady : Kernel → ℕ → Type 0
IsReady k t = ((k.threads t).status ≡ ready) × (is_thread k t ≡ true)

-- A thread in the state THREAD_READY is in the list, unless it is the idle thread.
unfoldable pub HasPlace : Kernel → List ℕ → ℕ → Type 0
HasPlace k xs u =
    (status_eq (k.threads u).status ready ≡ false) ⊎ ((u ≡ k.idle_thread) ⊎ Listed u xs)

-- The scheduler has a running thread and the idle thread, the ready list holds each thread in it
-- once, in the state THREAD_READY, and of all threads each in that state but the idle one is in it.
pub record IsScheduled (k : Kernel) : Type 0 where
  pub runs : (k.threads k.current).status ≡ running
  pub live : is_thread k k.current ≡ true
  pub ready_threads : Each (IsReady k) k.ready_list
  pub distinct : Distinct k.ready_list
  pub idle : is_thread k k.idle_thread ≡ true
  pub places : Each (HasPlace k k.ready_list) k.all_list

-- The ready list goes down by priority.
unfoldable pub IsOrdered : Kernel → Type 0
IsOrdered k = Falling (priority k) k.ready_list

-- No ready thread has a higher priority than the running one.
unfoldable pub RunsHighest : Kernel → Type 0
RunsHighest k = Each (λ t. priority k t ≤ priority k k.current) k.ready_list

pub if_other {ℓ} : {A : Type ℓ} (t u : ℕ) (a b : A) → u ≢ t → (if t == u then a else b) ≡ b
if_other t u a b n = rw (==_ne t u (λ e. n (sym e))) refl

pub set_status-priority :
    (k : Kernel) (t : ℕ) (s : Status) (u : ℕ) → priority (set_status k t s) u ≡ priority k u
set_status-priority k t s u = elim (Bool-cases (t == u)) [
  | inl q ↦ rw (priority, q) (ap (priority k) ((==_iff t u).0 q))
  | inr q ↦ rw (priority, q) refl
]

pub set_status-is_thread :
    (k : Kernel) (t : ℕ) (s : Status) (u : ℕ) → is_thread (set_status k t s) u ≡ is_thread k u
unfolding is_thread
set_status-is_thread k t s u = elim (Bool-cases (t == u)) [
  | inl q ↦ rw (q, (==_iff t u).0 q) refl
  | inr q ↦ rw q refl
]

-- Each thread is as it was but for its status.
unfoldable pub Alike : Kernel → Kernel → Type 0
Alike k k' = (u : ℕ) → k'.threads u ≡ record (k.threads u) { status = (k'.threads u).status }

pub set_status-Alike : (k : Kernel) (t : ℕ) (s : Status) → Alike k (set_status k t s)
unfolding Alike
set_status-Alike k t s u = elim (Bool-cases (t == u)) [
  | inl q ↦ rw q (ap (λ v. record (k.threads v) { status = s }) ((==_iff t u).0 q))
  | inr q ↦ rw q refl
]

pub trans_Alike : (k k1 k' : Kernel) → Alike k k1 → Alike k1 k' → Alike k k'
unfolding Alike
trans_Alike k k1 k' a b u =
    b u ∙ ap (λ (x : Thread). record x { status = (k'.threads u).status }) (a u)

pub is_thread-same :
    (k k' : Kernel) (u : ℕ) → k'.threads u ≡ k.threads u → is_thread k' u ≡ is_thread k u
unfolding is_thread
is_thread-same k k' u e = rw e refl

pub set_status-IsReady :
    (k : Kernel) (t : ℕ) (s : Status) (xs : List ℕ)
    → Each (λ u. u ≢ t) xs
    → Each (IsReady k) xs
    → Each (IsReady (set_status k t s)) xs
unfolding IsReady
set_status-IsReady k t s xs n e =
    Each-imp (λ u. (u ≢ t) × IsReady k u) (IsReady (set_status k t s)) xs
      (λ u (m, (st, th)). (
        ap (λ x. x.status) (if_other t u _ (k.threads u) m) ∙ st,
        set_status-is_thread k t s u ∙ th,
      ))
      (Each-and (λ u. u ≢ t) (IsReady k) xs n e)

-- A state that schedule is called in: the current thread has left the state THREAD_RUNNING.
pub record IsSwitching (k : Kernel) : Type 0 where
  pub stopped : status_eq (k.threads k.current).status running ≡ false
  pub ready_threads : Each (IsReady k) k.ready_list
  pub distinct : Distinct k.ready_list
  pub idle : is_thread k k.idle_thread ≡ true
  pub places : Each (HasPlace k k.ready_list) k.all_list

pub Falling-same : (p q : ℕ → ℕ) (xs : List ℕ) → ((u : ℕ) → p u ≡ q u) → Falling p xs → Falling q xs
Falling-same p q xs e f = subst (λ r. Falling r xs) (λ i u. e u i) f

pub status_self : (k : Kernel) (t : ℕ) (s : Status) → ((set_status k t s).threads t).status ≡ s
status_self k t s = rw (==_self t) refl

pub IsReady-same : (k k' : Kernel) (u : ℕ) → k'.threads u ≡ k.threads u → IsReady k u → IsReady k' u
unfolding IsReady
IsReady-same k k' u e (s, l) = (ap (λ x. x.status) e ∙ s, is_thread-same k k' u e ∙ l)

pub HasPlace-same :
    (k k' : Kernel) (xs ys : List ℕ) (u : ℕ)
    → (k'.threads u).status ≡ (k.threads u).status
    → k'.idle_thread ≡ k.idle_thread
    → (Listed u xs → Listed u ys)
    → HasPlace k xs u
    → HasPlace k' ys u
unfolding HasPlace
HasPlace-same k k' xs ys u s i f (inl a) = inl (ap (λ x. status_eq x ready) s ∙ a)
HasPlace-same k k' xs ys u s i f (inr (inl a)) = inr (inl (a ∙ sym i))
HasPlace-same k k' xs ys u s i f (inr (inr a)) = inr (inr (f a))

pub not_ready :
    (k : Kernel) (xs : List ℕ) (u : ℕ) (s : Status)
    → (k.threads u).status ≡ s
    → status_eq s ready ≡ false
    → HasPlace k xs u
unfolding HasPlace
not_ready k xs u s e q = inl (ap (λ x. status_eq x ready) e ∙ q)

Switched-HasPlace :
    (k k' : Kernel) (t : ℕ) (ts : List ℕ) (u : ℕ)
    → Switched k t ts k'
    → HasPlace k (t ∷ ts) u
    → HasPlace k' k'.ready_list u
unfolding Listed
Switched-HasPlace k k' t ts u sw p = elim (Bool-cases (t == u)) [
  | inl q ↦
      not_ready k' k'.ready_list u running
        (ap (λ x. x.status) (sw.threads u)
          ∙ (ap (λ v. ((set_status k t running).threads v).status) (sym ((==_iff t u).0 q))
              ∙ status_self k t running))
        refl
  | inr q ↦
      HasPlace-same k k' (t ∷ ts) k'.ready_list u (ap (λ x. x.status) (sw.threads u) ∙ rw q refl)
        sw.idle
        (λ l. elim l [
          | inl e ↦ absurd (clash (sym (==_is t u e) ∙ q))
          | inr m ↦ subst (Listed u) (sym sw.rest) m
        ])
        p
]
  where
    clash : true ≡ false → ⊥
    clash e = absurd (ground arith)

-- After a switch to `t` the state is one that the scheduler keeps to.
pub Switched-IsScheduled :
    (k k' : Kernel) (t : ℕ) (ts : List ℕ)
    → Switched k t ts k'
    → is_thread k t ≡ true
    → Each (IsReady k) ts
    → Each (λ u. u ≢ t) ts
    → Distinct ts
    → is_thread k k.idle_thread ≡ true
    → Each (HasPlace k (t ∷ ts)) k.all_list
    → IsScheduled k'
Switched-IsScheduled k k' t ts sw live e n d idle ps =
    let same_thread : (u : ℕ) → is_thread k' u ≡ is_thread k u = λ u.
      is_thread-same (set_status k t running) k' u (sw.threads u)
      ∙ set_status-is_thread k t running u in
    let after = set_status-IsReady k t running ts n e in
    record {
      runs =
          subst (λ c. (k'.threads c).status ≡ running) (sym sw.to)
            (ap (λ x. x.status) (sw.threads t) ∙ status_self k t running);
      live = subst (λ c. is_thread k' c ≡ true) (sym sw.to) (same_thread t ∙ live);
      ready_threads =
          subst (λ l. Each (IsReady k') l) (sym sw.rest)
            (Each-imp (IsReady (set_status k t running)) (IsReady k') ts
              (λ u r. IsReady-same (set_status k t running) k' u (sw.threads u) r) after);
      distinct = subst Distinct (sym sw.rest) d;
      idle = subst (λ c. is_thread k' c ≡ true) (sym sw.idle) (same_thread k.idle_thread ∙ idle);
      places = subst (Each (HasPlace k' k'.ready_list)) (sym sw.all) (
          Each-imp (HasPlace k (t ∷ ts)) (HasPlace k' k'.ready_list) k.all_list
            (λ u. Switched-HasPlace k k' t ts u sw) ps);
    }

pub Switched-priority :
    (k k' : Kernel) (t : ℕ) (ts : List ℕ) (u : ℕ)
    → Switched k t ts k'
    → priority k' u ≡ priority k u
Switched-priority k k' t ts u sw =
    ap (λ x. x.priority) (sw.threads u) ∙ set_status-priority k t running u

pub Switched-Alike : (k k' : Kernel) (t : ℕ) (ts : List ℕ) → Switched k t ts k' → Alike k k'
unfolding Alike
Switched-Alike k k' t ts sw u =
    sw.threads u
    ∙ (set_status-Alike k t running u
        ∙ ap (λ x. record (k.threads u) { status = x.status }) (sym (sw.threads u)))

pub Switched-RunsHighest :
    (k k' : Kernel) (t : ℕ) (ts : List ℕ)
    → Switched k t ts k'
    → Falling (priority k) (t ∷ ts)
    → IsOrdered k' × RunsHighest k'
unfolding Falling IsOrdered RunsHighest
Switched-RunsHighest k k' t ts sw f =
    let same : (u : ℕ) → priority k u ≡ priority k' u =
      λ u. sym (Switched-priority k k' t ts u sw) in
    (
      subst (λ l. Falling (priority k') l) (sym sw.rest) (Falling-same _ _ ts same f.1),
      subst (λ l. Each (λ u. priority k' u ≤ priority k' k'.current) l) (sym sw.rest)
          (subst (λ c. Each (λ u. priority k' u ≤ priority k' c) ts) (sym sw.to)
            (subst (λ (r : ℕ → ℕ). Each (λ u. r u ≤ r t) ts) (λ i u. same u i) f.0)),
    )
