-- ===== src/Timer/Wakeup.antt =====
-- timer_wakeup of devices/timer.c wakes the threads whose time has come, and no others.
use cs439_pcs.Base.{ℕ, ◌+◌, ◌≤◌, ◌<◌, true, false, Option, some, List, [], ◌∷◌, ◌++◌}
use cs439_pcs.Base.{◌≡◌, ◌≢◌, refl, ap, sym, ◌∙◌, inl, inr, arith, leb, ◌>>=◌}
use cs439_pcs.Base.{Bool-cases}
use cs439_pcs.Base.Each.{Listed, Each, Distinct, Each-imp, Each-and, Each-left, Each-right}
use cs439_pcs.Thread.{Kernel, Semaphore, insert_ready}
use cs439_pcs.Thread.Invariant.{IsScheduled, IsOrdered, is_thread-same}
use cs439_pcs.Thread.Queue.{
  queued, queued-IsScheduled, queued-IsOrdered, queued-Listed, queued-Listed_self,
}
use cs439_pcs.Thread.Birth.{queued_context}
use cs439_pcs.Synch.{sema_up}
use cs439_pcs.Timer.{Clock, store_sema, wake_loop, timer_wakeup}
use mathlib.Core.Path.{subst}
use cs439_pcs.Timer.Asleep.{
  Rising, time, Sleeps, IsAwake, roused, up_one, roused_other, store_sema-IsScheduled,
  store_sema-IsOrdered, roused-IsAwake, Rising-same,
}

-- What the loop leaves: the threads `us` that it wakes, and `vs` that sleep on.
pub record Wakes (c : Clock) (ts : List ℕ) (c' : Clock) : Type 0 where
  pub us : List ℕ
  pub vs : List ℕ
  pub splits : ts ≡ us ++ vs
  pub sleeps_on : c'.sleep_list ≡ vs
  pub due : Each (λ t. time c.kernel t ≤ c.ticks) us
  pub awake : Each (IsAwake c'.kernel) us
  pub not_due : Each (λ t. c.ticks < time c.kernel t) vs
  pub unchanged : (u : ℕ) → Each (λ t. u ≢ t) us → c'.kernel.threads u ≡ c.kernel.threads u
  pub scheduled : IsScheduled c'.kernel
  pub ordered : IsOrdered c.kernel → IsOrdered c'.kernel
  pub queued_up : Each (λ t. Listed t c'.kernel.ready_list) us
  pub keeps : (u : ℕ) → Listed u c.kernel.ready_list → Listed u c'.kernel.ready_list
  pub same_ticks : c'.ticks ≡ c.ticks
  pub current : c'.kernel.current ≡ c.kernel.current
  pub context : c'.kernel.in_external_intr ≡ c.kernel.in_external_intr
  pub asks : c'.kernel.yield_on_return ≡ c.kernel.yield_on_return
  pub slice : c'.kernel.thread_ticks ≡ c.kernel.thread_ticks
  pub counts :
      c'.kernel.idle_ticks + c'.kernel.kernel_ticks + c'.kernel.user_ticks
      ≡ c.kernel.idle_ticks + c.kernel.kernel_ticks + c.kernel.user_ticks

-- The state behind the store of timer_wakeup to a thread that it wakes.
abbrev woken : Clock → ℕ → Clock
woken c t = record c { kernel = roused c.kernel t }

wake_step :
    (c : Clock) (t : ℕ) (ts : List ℕ)
    → c.kernel.in_external_intr ≡ true
    → Sleeps c.kernel t
    → leb (time c.kernel t) c.ticks ≡ true
    → wake_loop c (t ∷ ts) ≡ wake_loop (woken c t) ts
unfolding wake_loop Sleeps
wake_step c t ts on (b, live, s) q =
    let next : Option (Semaphore × Kernel) → Option Clock =
      λ o. o >>= λ r. wake_loop (record c { kernel = store_sema r.1 t r.0 }) ts in
    rw q (ap next (ap (sema_up c.kernel) s ∙ up_one c.kernel t on live b))

asleep_still :
    (k : Kernel) (t : ℕ) (ts : List ℕ)
    → Each (λ u. u ≢ t) ts
    → Each (Sleeps k) ts
    → Each (Sleeps (roused k t)) ts
unfolding Sleeps
asleep_still k t ts n e =
    Each-imp (λ u. (u ≢ t) × Sleeps k u) (Sleeps (roused k t)) ts
      (λ u (m, (b, live, s)).
        let same = roused_other k t u m in
        (
          ap (λ x. x.status) same ∙ b,
          is_thread-same k (roused k t) u same ∙ live,
          ap (λ x. x.sema_p) same ∙ s,
        ))
      (Each-and (λ u. u ≢ t) (Sleeps k) ts n e)

Rising-roused :
    (k : Kernel) (t : ℕ) (ts : List ℕ)
    → Each (λ u. u ≢ t) ts
    → Rising (time k) ts
    → Rising (time (roused k t)) ts
Rising-roused k t ts n = Rising-same (time k) (time (roused k t)) ts (
    Each-imp (λ u. u ≢ t) (λ u. time (roused k t) u ≡ time k u) ts
      (λ u m. ap (λ x. x.time_checker) (roused_other k t u m)) n)

-- The thread at the front is woken, and the rest of the loop has run.
Wakes-step :
    (c : Clock) (t : ℕ) (ts : List ℕ) (c' : Clock)
    → time c.kernel t ≤ c.ticks
    → Each (λ u. u ≢ t) ts
    → Wakes (woken c t) ts c'
    → Wakes c (t ∷ ts) c'
unfolding Each IsAwake insert_ready
Wakes-step c t ts c' le n w =
    let apart = subst (Each (λ u. u ≢ t)) w.splits n in
    let same_time : (u : ℕ) → u ≢ t → time (roused c.kernel t) u ≡ time c.kernel u =
      λ u m. ap (λ x. x.time_checker) (roused_other c.kernel t u m) in
    let left = Each-left (λ u. u ≢ t) w.us w.vs apart in
    let kept = w.unchanged t (Each-imp (λ u. u ≢ t) (λ u. t ≢ u) w.us (λ u m e. m (sym e)) left) in
    let up = roused-IsAwake c.kernel t in
    record {
      us = t ∷ w.us;
      vs = w.vs;
      splits = ap (λ l. t ∷ l) w.splits;
      sleeps_on = w.sleeps_on;
      due = (
        le,
        Each-imp (λ u. (u ≢ t) × (time (roused c.kernel t) u ≤ c.ticks))
            (λ u. time c.kernel u ≤ c.ticks) w.us
            (λ u (m, d). subst (λ x. x ≤ c.ticks) (same_time u m) d)
            (Each-and (λ u. u ≢ t) (λ u. time (roused c.kernel t) u ≤ c.ticks) w.us left w.due),
      );
      awake = ((ap (λ x. x.status) kept ∙ up.0, ap (λ x. x.sema_p) kept ∙ up.1), w.awake);
      not_due =
          Each-imp (λ u. (u ≢ t) × (c.ticks < time (roused c.kernel t) u))
            (λ u. c.ticks < time c.kernel u) w.vs
            (λ u (m, d). subst (λ x. c.ticks < x) (same_time u m) d)
            (Each-and (λ u. u ≢ t) (λ u. c.ticks < time (roused c.kernel t) u) w.vs
              (Each-right (λ u. u ≢ t) w.us w.vs apart) w.not_due);
      unchanged = λ u e. w.unchanged u e.1 ∙ roused_other c.kernel t u e.0;
      scheduled = w.scheduled;
      ordered = λ o.
          w.ordered (store_sema-IsOrdered (queued c.kernel t) t _ (queued-IsOrdered c.kernel t o));
      queued_up = (w.keeps t (queued-Listed_self c.kernel t), w.queued_up);
      keeps = λ u l. w.keeps u (queued-Listed c.kernel t u l);
      same_ticks = w.same_ticks;
      current = w.current;
      context = w.context;
      asks = w.asks;
      slice = w.slice;
      counts = w.counts;
    }

roused-IsScheduled : (k : Kernel) (t : ℕ) → IsScheduled k → Sleeps k t → IsScheduled (roused k t)
unfolding Sleeps
roused-IsScheduled k t s (b, live, _) =
    store_sema-IsScheduled (queued k t) t _ (queued-IsScheduled k t s live b)

due→le : (a b : ℕ) → leb a b ≡ true → a ≤ b
due→le a b h = ground arith

asleep→gt : (a b : ℕ) → leb a b ≡ false → b < a
asleep→gt a b h = ground arith

-- The front of the list sleeps on, and all behind it.
Wakes-stop :
    (c : Clock) (t : ℕ) (ts : List ℕ)
    → c.ticks < time c.kernel t
    → IsScheduled c.kernel
    → Rising (time c.kernel) (t ∷ ts)
    → Wakes c (t ∷ ts) (record c { sleep_list = t ∷ ts })
unfolding Each Rising
Wakes-stop c t ts lt s r = record {
  us = [];
  vs = t ∷ ts;
  splits = refl;
  sleeps_on = refl;
  due = tt;
  awake = tt;
  not_due = (
    lt,
    Each-imp (λ u. time c.kernel t ≤ time c.kernel u) (λ u. c.ticks < time c.kernel u) ts
        (λ u le. omega (arith, lt, le)) r.0,
  );
  unchanged = λ u e. refl;
  scheduled = s;
  ordered = λ o. o;
  queued_up = tt;
  keeps = λ u l. l;
  same_ticks = refl;
  current = refl;
  context = refl;
  asks = refl;
  slice = refl;
  counts = refl;
}

wake_loop-Wakes :
    (c : Clock) (ts : List ℕ)
    → c.kernel.in_external_intr ≡ true
    → IsScheduled c.kernel
    → Rising (time c.kernel) ts
    → Distinct ts
    → Each (Sleeps c.kernel) ts
    → (c' : Clock) × (wake_loop c ts ≡ some c') × Wakes c ts c'
unfolding wake_loop Rising Distinct Each
wake_loop-Wakes c [] on s r d e = (
  record c { sleep_list = [] },
  refl,
  record {
    us = [];
    vs = [];
    splits = refl;
    sleeps_on = refl;
    due = tt;
    awake = tt;
    not_due = tt;
    unchanged = λ u n. refl;
    scheduled = s;
    ordered = λ o. o;
    queued_up = tt;
    keeps = λ u l. l;
    same_ticks = refl;
    current = refl;
    context = refl;
    asks = refl;
    slice = refl;
    counts = refl;
  },
)
wake_loop-Wakes c (t ∷ ts) on s r d e = elim (Bool-cases (leb (time c.kernel t) c.ticks)) [
  | inl q ↦
      let (c', eq, w) =
        wake_loop-Wakes (woken c t) ts (queued_context c.kernel t ∙ on)
          (roused-IsScheduled c.kernel t s e.0) (Rising-roused c.kernel t ts d.0 r.1) d.1
          (asleep_still c.kernel t ts d.0 e.1) in
      (c', wake_step c t ts on e.0 q ∙ eq, Wakes-step c t ts c' (due→le _ _ q) d.0 w)
  | inr q ↦ (record c { sleep_list = t ∷ ts }, rw q refl, Wakes-stop c t ts (asleep→gt _ _ q) s r)
]

-- In an interrupt, with a sleep list that rises by time and threads in it that sleep, timer_wakeup
-- returns. The threads at the front of the list whose time has come are made ready with their
-- semaphores up, are in the ready list, and leave the sleep list, the time of no thread left in the list has come, and a thread
-- that is not woken is unchanged. The scheduler's state stays in order, and so does a ready list
-- that goes down by priority.
pub timer_wakeup-Wakes :
    (c : Clock)
    → c.kernel.in_external_intr ≡ true
    → IsScheduled c.kernel
    → Rising (time c.kernel) c.sleep_list
    → Distinct c.sleep_list
    → Each (Sleeps c.kernel) c.sleep_list
    → (c' : Clock) × (timer_wakeup c ≡ some c') × Wakes c c.sleep_list c'
unfolding timer_wakeup
timer_wakeup-Wakes c = wake_loop-Wakes c c.sleep_list
