-- ===== src/Synch/Effects.antt =====
-- What lock_try_acquire and the parts of lock_acquire of threads/synch.c do to the locks.
use cs439_pcs.Base.{ℕ, zero, suc, ◌-◌, Bool, true, false, not, some}
use cs439_pcs.Base.{◌≡◌, ◌≢◌, refl, ap, sym, ◌∙◌, ◌⊎◌, inl, inr, arith, ◌==◌}
use cs439_pcs.Base.{Bool-cases, ==_self, ==_ne, some-none, some_eq, Option-cases, ltb}
use cs439_pcs.Base.{◌>>=◌, length}
use cs439_pcs.Thread.{
  Kernel, Semaphore, thread_current, thread_block, is_thread, status_eq, running,
}
use cs439_pcs.Thread.Switch.{there}
use cs439_pcs.Synch.{Machine, Lock, put_lock, put_thread, sema_down, acquire_down, acquire_end}
use cs439_pcs.Synch.{try_down, try_end, sema_try_down, acquire_begin}
use cs439_pcs.Synch.{donation_loop, priority_donation}
use cs439_pcs.Synch.{lock_held_by_current_thread, add_donor}
use mathlib.Core.Path.{subst}

abbrev pub lock_value : Machine → ℕ → ℕ
lock_value m l = (m.locks l).semaphore.value

abbrev pub lock_holder : Machine → ℕ → ℕ
lock_holder m l = (m.locks l).holder

-- The semaphore of a lock is at a value and its holder is a thread; other locks are as they were.
pub record Changes (m m' : Machine) (l v h : ℕ) : Type 0 where
  pub own_value : lock_value m' l ≡ v
  pub own_holder : lock_holder m' l ≡ h
  pub others :
      (j : ℕ) → l ≢ j → (lock_value m' j ≡ lock_value m j) × (lock_holder m' j ≡ lock_holder m j)

pub put_lock-Changes :
    (m : Machine) (l : ℕ) (lock : Lock)
    → Changes m (put_lock m l lock) l lock.semaphore.value lock.holder
put_lock-Changes m l lock = record {
  own_value = rw (lock_value, ==_self l) refl;
  own_holder = rw (lock_holder, ==_self l) refl;
  others = λ j n. rw (lock_value, lock_holder, ==_ne l j n) (refl, refl);
}

pub current_there : (k : Kernel) (c : ℕ) → thread_current k ≡ some c → (k.current ≡ c) × (c ≢ 0)
unfolding thread_current
current_there k c e = elim (Bool-cases (is_thread k k.current)) [
  | inr q ↦ absurd (some-none (sym (rw q at e)))
  | inl q ↦ elim (Bool-cases (status_eq (k.threads k.current).status running)) [
    | inr r ↦ absurd (some-none (sym (rw (q, r) at e)))
    | inl r ↦ let is = some_eq (rw (q, r) at e) in (is, λ z. there k k.current q (is ∙ z))
  ]
]

donation_loop-locks :
    (fuel : ℕ) (m m' : Machine) (cur l : ℕ)
    → donation_loop fuel m cur l ≡ some m'
    → m'.locks ≡ m.locks
unfolding donation_loop
donation_loop-locks zero m m' cur l e = absurd (some-none (sym e))
donation_loop-locks (suc fuel) m m' cur l e =
    let h = (m.locks l).holder in
    elim (Bool-cases (l == 0)) [
      | inl q ↦ sym (ap (λ x. x.locks) (some_eq (rw q at e)))
      | inr q ↦ elim (Bool-cases (h == 0)) [
        | inl r ↦ sym (ap (λ x. x.locks) (some_eq (rw (q, r) at e)))
        | inr r ↦
            elim (Bool-cases (ltb (m.kernel.threads h).priority (m.kernel.threads cur).priority)) [
              | inl t ↦ donation_loop-locks fuel _ m' _ _ (rw (q, r, t) at e)
              | inr t ↦ sym (ap (λ x. x.locks) (some_eq (rw (q, r, t) at e)))
            ]
      ]
    ]

lent-locks :
    (m m' : Machine) (l cur : ℕ)
    → (priority_donation m >>= λ m1. some (add_donor m1 (m1.locks l).holder cur)) ≡ some m'
    → m'.locks ≡ m.locks
unfolding priority_donation add_donor
lent-locks m m' l cur e = elim (Option-cases (thread_current m.kernel)) [
  | inl q ↦ absurd (some-none (sym (rw q at e)))
  | inr (c, q) ↦
      let fuel = suc (length m.kernel.all_list) in
      elim (Option-cases (donation_loop fuel m c (m.kernel.threads c).try_lock)) [
        | inl r ↦ absurd (some-none (sym (rw (q, r) at e)))
        | inr (m1, r) ↦
            sym (ap (λ (x : Machine). x.locks) (some_eq (rw (q, r) at e)))
            ∙ donation_loop-locks fuel m m1 c _ r
      ]
]

pub acquire_begin-locks :
    (m m' : Machine) (l : ℕ) → acquire_begin m l ≡ some m' → m'.locks ≡ m.locks
unfolding acquire_begin lock_held_by_current_thread
acquire_begin-locks m m' l e = elim (Bool-cases (not (l == 0))) [
  | inr n ↦ absurd (some-none (sym (rw n at e)))
  | inl n ↦ elim (Bool-cases (not m.kernel.in_external_intr)) [
    | inr f ↦ absurd (some-none (sym (rw (n, f) at e)))
    | inl f ↦ elim (Option-cases (thread_current m.kernel)) [
      | inl q ↦ absurd (some-none (sym (rw (n, f, q) at e)))
      | inr (cur, q) ↦ elim (Bool-cases ((m.locks l).holder == cur)) [
        | inl h ↦ absurd (some-none (sym (rw (n, f, q, h) at e)))
        | inr h ↦ elim (Bool-cases ((m.locks l).holder == 0)) [
          | inl z ↦ sym (ap (λ (x : Machine). x.locks) (some_eq (rw (n, f, q, h, z) at e)))
          | inr z ↦
              lent-locks (put_thread m cur (record (m.kernel.threads cur) { try_lock = l })) m' l
                cur (rw (n, f, q, h, z) at e)
        ]
      ]
    ]
  ]
]

-- A lock with another semaphore, and any state of the threads.
pub with_kernel :
    (m : Machine) (l : ℕ) (sema : Semaphore) (k : Kernel) (v : ℕ)
    → sema.value ≡ v
    → Changes m
        (record (put_lock m l (record (m.locks l) { semaphore = sema })) { kernel = k })
        l
        v
        (lock_holder m l)
with_kernel m l sema k v e =
    let c = put_lock-Changes m l (record (m.locks l) { semaphore = sema }) in
    record { own_value = c.own_value ∙ e; own_holder = c.own_holder; others = c.others }

sema_down_value :
    (k : Kernel) (sema : Semaphore) (r : Bool × Semaphore × Kernel)
    → sema_down k sema ≡ some r
    → ((r.0 ≡ false) × (r.1.value ≡ sema.value))
      ⊎ ((r.0 ≡ true) × (sema.value ≢ 0) × (r.1.value ≡ sema.value - 1))
unfolding sema_down
sema_down_value k sema r e = elim (Bool-cases (not k.in_external_intr)) [
  | inr f ↦ absurd (some-none (sym (rw f at e)))
  | inl f ↦ elim (Bool-cases (sema.value == 0)) [
    | inr z ↦
        let is = some_eq (rw (f, z) at e) in
        inr (
          sym (ap (λ (x : Bool × Semaphore × Kernel). x.0) is),
          not_zero sema.value z,
          sym (ap (λ (x : Bool × Semaphore × Kernel). x.1.value) is),
        )
    | inl z ↦ elim (Option-cases (thread_current k)) [
      | inl q ↦ absurd (some-none (sym (rw (f, z, q) at e)))
      | inr (cur, q) ↦ elim (Option-cases (thread_block k)) [
        | inl b ↦ absurd (some-none (sym (rw (f, z, q, b) at e)))
        | inr (k', b) ↦
            let is = some_eq (rw (f, z, q, b) at e) in
            inl (
              sym (ap (λ (x : Bool × Semaphore × Kernel). x.0) is),
              sym (ap (λ (x : Bool × Semaphore × Kernel). x.1.value) is),
            )
      ]
    ]
  ]
]
  where
    not_zero : (n : ℕ) → (n == 0) ≡ false → n ≢ 0
    not_zero n q z = absurd (ground arith)

pub acquire_down-Changes :
    (m m' : Machine) (l : ℕ) (b : Bool)
    → acquire_down m l ≡ some (b, m')
    → ((b ≡ false) × Changes m m' l (lock_value m l) (lock_holder m l))
      ⊎ ((b ≡ true) × (lock_value m l ≢ 0) × Changes m m' l (lock_value m l - 1) (lock_holder m l))
unfolding acquire_down
acquire_down-Changes m m' l b e = elim (Option-cases (sema_down m.kernel (m.locks l).semaphore)) [
  | inl q ↦ absurd (some-none (sym (rw q at e)))
  | inr ((d, sema, k), q) ↦
      let is = some_eq (rw q at e) in
      let result : (v : ℕ) → sema.value ≡ v → Changes m m' l v (lock_holder m l) = λ v r.
        subst (λ x. Changes m x l v (lock_holder m l)) (ap (λ (x : Bool × Machine). x.1) is)
          (with_kernel m l sema k v r) in
      let same : d ≡ b = ap (λ (x : Bool × Machine). x.0) is in
      elim (sema_down_value m.kernel (m.locks l).semaphore (d, sema, k) q) [
        | inl (f, r) ↦ inl (sym same ∙ f, result (lock_value m l) r)
        | inr (t, n, r) ↦ inr (sym same ∙ t, n, result (lock_value m l - 1) r)
      ]
]

pub acquire_end-Changes :
    (m m' : Machine) (l : ℕ)
    → acquire_end m l ≡ some m'
    → (m.kernel.current ≢ 0) × Changes m m' l (lock_value m l) m.kernel.current
unfolding acquire_end
acquire_end-Changes m m' l e = elim (Option-cases (thread_current m.kernel)) [
  | inl q ↦ absurd (some-none (sym (rw q at e)))
  | inr (cur, q) ↦
      let (is, n) = current_there m.kernel cur q in
      let ended = put_lock-Changes m l (record (m.locks l) { holder = cur }) in
      (
        λ z. n (sym is ∙ z),
        subst (λ x. Changes m x l (lock_value m l) m.kernel.current) (some_eq (rw q at e))
            (record {
              own_value = ended.own_value;
              own_holder = ended.own_holder ∙ sym is;
              others = ended.others;
            }),
      )
]

pub try_down-Changes :
    (m m' : Machine) (l : ℕ) (b : Bool)
    → try_down m l ≡ some (b, m')
    → ((b ≡ false) × Changes m m' l (lock_value m l) (lock_holder m l))
      ⊎ ((b ≡ true) × (lock_value m l ≢ 0) × Changes m m' l (lock_value m l - 1) (lock_holder m l))
unfolding try_down sema_try_down lock_held_by_current_thread
try_down-Changes m m' l b e = elim (Bool-cases (not (l == 0))) [
  | inr n ↦ absurd (some-none (sym (rw n at e)))
  | inl n ↦ elim (Option-cases (thread_current m.kernel)) [
    | inl q ↦ absurd (some-none (sym (rw (n, q) at e)))
    | inr (cur, q) ↦ elim (Bool-cases ((m.locks l).holder == cur)) [
      | inl h ↦ absurd (some-none (sym (rw (n, q, h) at e)))
      | inr h ↦ elim (Bool-cases (ltb 0 (lock_value m l))) [
        | inr v ↦
            let is = some_eq (rw (n, q, h, v) at e) in
            inl (
              sym (ap (λ (x : Bool × Machine). x.0) is),
              subst (λ x. Changes m x l (lock_value m l) (lock_holder m l))
                  (ap (λ (x : Bool × Machine). x.1) is) (put_lock-Changes m l (m.locks l)),
            )
        | inl v ↦
            let is = some_eq (rw (n, q, h, v) at e) in
            let sema = record (m.locks l).semaphore { value = lock_value m l - 1 } in
            inr (
              sym (ap (λ (x : Bool × Machine). x.0) is),
              above_zero (lock_value m l) v,
              subst (λ x. Changes m x l (lock_value m l - 1) (lock_holder m l))
                  (ap (λ (x : Bool × Machine). x.1) is)
                  (put_lock-Changes m l (record (m.locks l) { semaphore = sema })),
            )
      ]
    ]
  ]
]
  where
    above_zero : (n : ℕ) → ltb 0 n ≡ true → n ≢ 0
    above_zero n q z = absurd (ground arith)

pub try_end-Changes :
    (m m' : Machine) (l : ℕ)
    → try_end m l ≡ some m'
    → (m.kernel.current ≢ 0) × Changes m m' l (lock_value m l) m.kernel.current
unfolding try_end
try_end-Changes m m' l e = elim (Option-cases (thread_current m.kernel)) [
  | inl q ↦ absurd (some-none (sym (rw q at e)))
  | inr (cur, q) ↦
      let (is, n) = current_there m.kernel cur q in
      let ended = put_lock-Changes m l (record (m.locks l) { holder = cur }) in
      (
        λ z. n (sym is ∙ z),
        subst (λ x. Changes m x l (lock_value m l) m.kernel.current) (some_eq (rw q at e))
            (record {
              own_value = ended.own_value;
              own_holder = ended.own_holder ∙ sym is;
              others = ended.others;
            }),
      )
]
