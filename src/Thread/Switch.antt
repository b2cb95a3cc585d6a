-- ===== src/Thread/Switch.antt =====
-- What schedule of threads/thread.c does: the switch from one thread to the next.
use cs439_pcs.Base.{ℕ, Bool, true, false, not, ◌&&◌, some, List, ◌∷◌}
use cs439_pcs.Base.{◌≡◌, ◌≢◌, refl, sym, inl, inr, arith}
use cs439_pcs.Base.{◌==◌, if◌then◌else◌, Bool-cases, ==_ne}
use cs439_pcs.Thread.{Kernel, running, dying, status_eq, set_status}
use cs439_pcs.Thread.{is_thread, next_thread_to_run, thread_schedule_tail, schedule}

-- The kernel has switched to `t`: it runs, `ts` are ready, and nothing else has changed that later
-- switches depend on.
pub record Switched (k : Kernel) (t : ℕ) (ts : List ℕ) (k' : Kernel) : Type 0 where
  pub to : k'.current ≡ t
  pub rest : k'.ready_list ≡ ts
  pub threads : (u : ℕ) → k'.threads u ≡ (set_status k t running).threads u
  pub idle : k'.idle_thread ≡ k.idle_thread
  pub all : k'.all_list ≡ k.all_list
  pub tids : k'.next_tid ≡ k.next_tid
  pub slice : k'.thread_ticks ≡ 0
  pub context : k'.in_external_intr ≡ k.in_external_intr

nonzero : (t : ℕ) (b : Bool) → (not (t == 0) && b) ≡ true → t ≢ 0
nonzero t b h = ground arith

pub there : (k : Kernel) (t : ℕ) → is_thread k t ≡ true → t ≢ 0
unfolding is_thread
there k t h = nonzero t _ h

tail-Switched :
    (k : Kernel) (prev : ℕ)
    → prev ≢ k.current
    → (k' : Kernel) × (thread_schedule_tail k prev ≡ some k') × Switched k k.current k.ready_list k'
unfolding thread_schedule_tail
tail-Switched k prev ne =
    let k1 = record (set_status k k.current running) { thread_ticks = 0 } in
    elim (Bool-cases (
      not (prev == 0)
      && (status_eq (k1.threads prev).status dying && not (prev == k1.initial_thread)))) [
        | inl q ↦ (
          record k1 { freed = prev ∷ k1.freed },
          rw (q, ==_ne prev k.current ne) refl,
          record {
            to = refl;
            rest = refl;
            threads = λ u. refl;
            idle = refl;
            all = refl;
            tids = refl;
            slice = refl;
            context = refl;
          },
        )
        | inr q ↦ (
          k1,
          rw q refl,
          record {
            to = refl;
            rest = refl;
            threads = λ u. refl;
            idle = refl;
            all = refl;
            tids = refl;
            slice = refl;
            context = refl;
          },
        )
      ]

prev_other : (cur next : ℕ) → next ≢ 0 → (if cur == next then 0 else cur) ≢ next
prev_other cur next n = elim (Bool-cases (cur == next)) [
  | inl q ↦ rw q (λ e. n (sym e))
  | inr q ↦ rw q (λ e. elim_ne cur next q e)
]
  where
    elim_ne : (a b : ℕ) → (a == b) ≡ false → a ≢ b
    elim_ne a b q e = absurd (ground arith)

schedule_runs :
    (k k1 k' : Kernel) (t : ℕ)
    → next_thread_to_run k ≡ (t, k1)
    → status_eq (k1.threads k.current).status running ≡ false
    → is_thread k1 t ≡ true
    → thread_schedule_tail (record k1 { current = t }) (if k.current == t then 0 else k.current)
      ≡ some k'
    → schedule k ≡ some k'
unfolding schedule
schedule_runs k k1 k' t e stopped live runs = rw (e, stopped, live) runs

-- schedule, by what next_thread_to_run gives.
pub next-Switched :
    (k k1 : Kernel) (t : ℕ)
    → next_thread_to_run k ≡ (t, k1)
    → status_eq (k1.threads k.current).status running ≡ false
    → is_thread k1 t ≡ true
    → (k' : Kernel) × (schedule k ≡ some k')
      × Switched (record k1 { current = t }) t k1.ready_list k'
next-Switched k k1 t e stopped live =
    let prev = if k.current == t then 0 else k.current in
    let (k', runs, sw) =
      tail-Switched (record k1 { current = t }) prev (prev_other k.current t (there k1 t live)) in
    (k', schedule_runs k k1 k' t e stopped live runs, sw)
