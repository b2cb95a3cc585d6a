-- ===== src/Thread/Tick.antt =====
-- The timer tick of threads/thread.c under intr_handler of threads/interrupt.c.
use cs439_pcs.Base.{ℕ, ◌+◌, true, false, not, Option, some, List}
use cs439_pcs.Base.{◌≡◌, ◌≢◌, refl, ap, sym, ◌∙◌, inl, inr, arith}
use cs439_pcs.Base.{◌==◌, leb, if◌then◌else◌, Bool-cases, assert, ◌>>=◌, ◌>>◌}
use cs439_pcs.Base.Each.{Each, Each-imp, Each-all}
use cs439_pcs.Thread.{Kernel, Thread}
use cs439_pcs.Thread.{thread_current, thread_tick}
use cs439_pcs.Thread.{intr_yield_on_return, time_slice}
use cs439_pcs.Thread.Invariant.{IsScheduled, IsOrdered, HasPlace, priority}
use cs439_pcs.Thread.Frame.{same_places, Agrees, same-Agrees, Agrees-IsScheduled, same-IsOrdered}
use cs439_pcs.Thread.Yield.{current_not_listed}

-- A timer tick that only counts.
pub ticked_threads :
    (k : Kernel) (k' : Kernel)
    → k'.threads ≡ k.threads
    → k'.current ≡ k.current
    → k'.ready_list ≡ k.ready_list
    → k'.idle_thread ≡ k.idle_thread
    → Each (HasPlace k' k'.ready_list) k'.all_list
    → IsScheduled k
    → IsScheduled k'
ticked_threads k k' t c r i ps s =
    let same : (u : ℕ) → Agrees k k' u = λ u. same-Agrees k k' u (ap (λ f. f u) t) in
    Agrees-IsScheduled k k' c r i (same k.current) (same k.idle_thread)
      (Each-imp (λ u. u ≢ k.current) (Agrees k k') k.ready_list (λ u n. same u)
        (current_not_listed k s))
      ps s

pub counted_threads :
    (k k' : Kernel)
    → k'.threads ≡ k.threads
    → k'.current ≡ k.current
    → k'.ready_list ≡ k.ready_list
    → k'.idle_thread ≡ k.idle_thread
    → k'.all_list ≡ k.all_list
    → IsScheduled k
    → IsScheduled k'
counted_threads k k' t c r i a s =
    ticked_threads k k' t c r i
      (same_places k k' (λ u. ap (λ (f : ℕ → Thread). (f u).status) t) r i a s.places) s

-- The handler's part: the statistics, the slice, and the request to yield.
pub record Counted (k k' : Kernel) : Type 0 where
  pub threads : k'.threads ≡ k.threads
  pub current : k'.current ≡ k.current
  pub ready : k'.ready_list ≡ k.ready_list
  pub idle : k'.idle_thread ≡ k.idle_thread
  pub lists : k'.all_list ≡ k.all_list
  pub slice : k'.thread_ticks ≡ k.thread_ticks + 1
  pub context : k'.in_external_intr ≡ true
  pub asks : k'.yield_on_return ≡ leb time_slice (k.thread_ticks + 1)
  pub all :
      k'.idle_ticks + k'.kernel_ticks + k'.user_ticks
      ≡ k.idle_ticks + k.kernel_ticks + k.user_ticks + 1

tick_tail : Kernel → Option Kernel
tick_tail k = if leb time_slice k.thread_ticks then intr_yield_on_return k else some k

tail_runs :
    (k : Kernel)
    → k.in_external_intr ≡ true
    → k.yield_on_return ≡ false
    → tick_tail k ≡ some (record k { yield_on_return = leb time_slice k.thread_ticks })
unfolding tick_tail intr_yield_on_return
tail_runs k on off = elim (Bool-cases (leb time_slice k.thread_ticks)) [
  | inl q ↦
      ap (λ b. if b then intr_yield_on_return k else some k) q
      ∙ (ap (λ b. assert b >> some (record k { yield_on_return = true })) on
          ∙ ap (λ b. some (record k { yield_on_return = b })) (sym q))
  | inr q ↦
      ap (λ b. if b then intr_yield_on_return k else some k) q
      ∙ ap (λ b. some (record k { yield_on_return = b })) (off ∙ sym q)
]

tick_runs :
    (k k1 : Kernel)
    → thread_current k ≡ some k.current
    → (if k.current == k.idle_thread
        then record k { idle_ticks = k.idle_ticks + 1 }
        else if not ((k.threads k.current).pagedir == 0)
        then record k { user_ticks = k.user_ticks + 1 }
        else record k { kernel_ticks = k.kernel_ticks + 1 })
      ≡ k1
    → thread_tick k ≡ tick_tail (record k1 { thread_ticks = k.thread_ticks + 1 })
unfolding thread_tick tick_tail
tick_runs k k1 c e =
    let rest : Kernel → Option Kernel =
      λ k1. tick_tail (record k1 { thread_ticks = k.thread_ticks + 1 }) in
    ap
      (λ o. o >>= λ t. rest (
        if t == k.idle_thread
        then record k { idle_ticks = k.idle_ticks + 1 }
        else if not ((k.threads t).pagedir == 0)
        then record k { user_ticks = k.user_ticks + 1 }
        else record k { kernel_ticks = k.kernel_ticks + 1 }))
      c
    ∙ ap rest e

Counted-from :
    (k k1 : Kernel)
    → k1.threads ≡ k.threads
    → k1.current ≡ k.current
    → k1.ready_list ≡ k.ready_list
    → k1.idle_thread ≡ k.idle_thread
    → k1.all_list ≡ k.all_list
    → k1.in_external_intr ≡ true
    → k1.yield_on_return ≡ false
    → k1.idle_ticks + k1.kernel_ticks + k1.user_ticks
      ≡ k.idle_ticks + k.kernel_ticks + k.user_ticks + 1
    → (k' : Kernel) × (tick_tail (record k1 { thread_ticks = k.thread_ticks + 1 }) ≡ some k')
      × Counted k k'
Counted-from k k1 t c r i a on off all =
    let k2 : Kernel = record k1 { thread_ticks = k.thread_ticks + 1 } in
    (
      record k2 { yield_on_return = leb time_slice (k.thread_ticks + 1) },
      tail_runs k2 on off,
      record {
        threads = t;
        current = c;
        ready = r;
        idle = i;
        lists = a;
        slice = refl;
        context = on;
        asks = refl;
        all = all;
      },
    )

pub thread_tick-Counted :
    (k : Kernel)
    → thread_current k ≡ some k.current
    → k.in_external_intr ≡ true
    → k.yield_on_return ≡ false
    → (k' : Kernel) × (thread_tick k ≡ some k') × Counted k k'
thread_tick-Counted k c on off = elim (Bool-cases (k.current == k.idle_thread)) [
  | inl q ↦
      let k1 : Kernel = record k { idle_ticks = k.idle_ticks + 1 } in
      let (k', runs, cnt) = Counted-from k k1 refl refl refl refl refl on off (omega arith) in
      (k', tick_runs k k1 c (rw q refl) ∙ runs, cnt)
  | inr q ↦ elim (Bool-cases (not ((k.threads k.current).pagedir == 0))) [
    | inl p ↦
        let k1 : Kernel = record k { user_ticks = k.user_ticks + 1 } in
        let (k', runs, cnt) = Counted-from k k1 refl refl refl refl refl on off (omega arith) in
        (k', tick_runs k k1 c (rw (q, p) refl) ∙ runs, cnt)
    | inr p ↦
        let k1 : Kernel = record k { kernel_ticks = k.kernel_ticks + 1 } in
        let (k', runs, cnt) = Counted-from k k1 refl refl refl refl refl on off (omega arith) in
        (k', tick_runs k k1 c (rw (q, p) refl) ∙ runs, cnt)
  ]
]

pub IsOrdered-before :
    (k k' : Kernel)
    → k'.threads ≡ k.threads
    → k'.ready_list ≡ k.ready_list
    → IsOrdered k
    → IsOrdered k'
IsOrdered-before k k' t r o =
    same-IsOrdered k k' r (every k.ready_list (λ u. ap (λ (f : ℕ → Thread). (f u).priority) t)) o
  where
    every :
        (xs : List ℕ)
        → ((u : ℕ) → priority k' u ≡ priority k u)
        → Each (λ u. priority k' u ≡ priority k u) xs
    every xs h = Each-all (λ u. priority k' u ≡ priority k u) xs h
