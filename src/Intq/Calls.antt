-- ===== src/Intq/Calls.antt =====
-- What each call of devices/intq.c leaves of the queue in the ring.
use cs439_pcs.Base.{ℕ, ◌<◌, true, false, not, some, List, [], ◌∷◌, ◌++◌}
use cs439_pcs.Base.{◌≡◌, ap, sym, ◌∙◌, inl, inr, arith, length, set}
use cs439_pcs.Base.{Bool-cases, Option-cases, some-none, some_eq}
use cs439_pcs.Thread.{Kernel, thread_current, thread_block}
use cs439_pcs.Synch.{Machine, acquire_end}
use cs439_pcs.Intq.{Intq, next_pos, intq_empty, intq_full, wake, wait_not_empty}
use cs439_pcs.Intq.{wait_not_full, signal_not_full, signal_not_empty, getc_wait, putc_wait}
use cs439_pcs.Intq.{intq_getc, intq_putc}
use cs439_pcs.Intq.Ring.{Represents, put_Represents, get_Represents, front_byte, empty_test}
use cs439_pcs.Intq.Ring.{full_test}
use mathlib.Core.Path.{subst}
use native.Mathlib.Decide.{dec_lt}

-- The waiting threads are no part of the queue.
Represents-waiters :
    (q : Intq) (f e : ℕ) (xs : List ℕ)
    → Represents q xs
    → Represents (record q { not_full = f; not_empty = e }) xs
Represents-waiters q f e xs r = record {
  size = r.size;
  tail = r.tail;
  room = r.room;
  head = r.head;
  bytes = r.bytes;
}

signal_not_empty-Represents :
    (k : Kernel) (q : Intq) (r : Intq × Kernel) (xs : List ℕ)
    → Represents q xs
    → signal_not_empty k q ≡ some r
    → Represents r.0 xs
unfolding signal_not_empty
signal_not_empty-Represents k q r xs h e = elim (Bool-cases (intq_empty q)) [
  | inl b ↦ absurd (some-none (sym (rw b at e)))
  | inr b ↦ elim (Option-cases (wake k q.not_empty)) [
    | inl w ↦ absurd (some-none (sym (rw (b, w) at e)))
    | inr (k', w) ↦
        subst (λ (x : Intq × Kernel). Represents x.0 xs) (some_eq (rw (b, w) at e))
          (Represents-waiters q q.not_full 0 xs h)
  ]
]

signal_not_full-Represents :
    (k : Kernel) (q : Intq) (r : Intq × Kernel) (xs : List ℕ)
    → Represents q xs
    → signal_not_full k q ≡ some r
    → Represents r.0 xs
unfolding signal_not_full
signal_not_full-Represents k q r xs h e = elim (Bool-cases (intq_full q)) [
  | inl b ↦ absurd (some-none (sym (rw b at e)))
  | inr b ↦ elim (Option-cases (wake k q.not_full)) [
    | inl w ↦ absurd (some-none (sym (rw (b, w) at e)))
    | inr (k', w) ↦
        subst (λ (x : Intq × Kernel). Represents x.0 xs) (some_eq (rw (b, w) at e))
          (Represents-waiters q 0 q.not_empty xs h)
  ]
]

not_full_room : (q : Intq) (xs : List ℕ) → Represents q xs → intq_full q ≡ false → length xs < 63
not_full_room q xs r f =
    let room = r.room in
    elim (dec_lt (length xs) 63) [
      | yes p ↦ p
      | no p ↦
          let e : true ≡ false = sym (full_test q xs r (omega (arith, p))) ∙ f in
          absurd (ground arith)
    ]

pub putc-Represents :
    (k : Kernel) (q : Intq) (b : ℕ) (r : Intq × Kernel) (xs : List ℕ)
    → Represents q xs
    → intq_putc k q b ≡ some r
    → Represents r.0 (xs ++ b ∷ [])
unfolding intq_putc
putc-Represents k q b r xs h e = elim (Bool-cases (intq_full q)) [
  | inl f ↦ absurd (some-none (sym (rw f at e)))
  | inr f ↦
      signal_not_empty-Represents k (record q { buf = set q.buf q.head b; head = next_pos q.head })
        r (xs ++ b ∷ []) (put_Represents q xs b h (not_full_room q xs h f)) (rw f at e)
]

-- What intq_getc returns is the oldest byte, and the others are left.
pub getc-Represents :
    (k : Kernel) (q : Intq) (r : ℕ × Intq × Kernel) (xs : List ℕ)
    → Represents q xs
    → intq_getc k q ≡ some r
    → (ys : List ℕ) × (xs ≡ r.0 ∷ ys) × Represents r.1 ys
unfolding intq_getc
getc-Represents k q r [] h e = absurd (some-none (sym (rw (empty_test q h) at e)))
getc-Represents k q r (x ∷ xs) h e = elim (Bool-cases (intq_empty q)) [
  | inl b ↦ absurd (some-none (sym (rw b at e)))
  | inr b ↦
      let q1 : Intq = record q { tail = next_pos q.tail } in
      elim (Option-cases (signal_not_full k q1)) [
        | inl w ↦ absurd (some-none (sym (rw (b, w) at e)))
        | inr (s, w) ↦
            let is = some_eq (rw (b, w) at e) in
            (
              xs,
              ap (λ y. y ∷ xs) (sym (front_byte q x xs h) ∙ ap (λ (y : ℕ × Intq × Kernel). y.0) is),
              subst (λ (y : ℕ × Intq × Kernel). Represents y.1 xs) is
                  (signal_not_full-Represents k q1 s xs (get_Represents q x xs h) w),
            )
      ]
]

wait_not_empty-Represents :
    (k : Kernel) (q : Intq) (r : Intq × Kernel) (xs : List ℕ)
    → Represents q xs
    → wait_not_empty k q ≡ some r
    → Represents r.0 xs
unfolding wait_not_empty
wait_not_empty-Represents k q r xs h e = elim (Bool-cases (not k.in_external_intr)) [
  | inr a ↦ absurd (some-none (sym (rw a at e)))
  | inl a ↦ elim (Bool-cases (intq_empty q)) [
    | inr b ↦ absurd (some-none (sym (rw (a, b) at e)))
    | inl b ↦ elim (Option-cases (thread_current k)) [
      | inl c ↦ absurd (some-none (sym (rw (a, b, c) at e)))
      | inr (t, c) ↦ elim (Option-cases (thread_block k)) [
        | inl d ↦ absurd (some-none (sym (rw (a, b, c, d) at e)))
        | inr (k', d) ↦
            subst (λ (x : Intq × Kernel). Represents x.0 xs) (some_eq (rw (a, b, c, d) at e))
              (Represents-waiters q q.not_full t xs h)
      ]
    ]
  ]
]

wait_not_full-Represents :
    (k : Kernel) (q : Intq) (r : Intq × Kernel) (xs : List ℕ)
    → Represents q xs
    → wait_not_full k q ≡ some r
    → Represents r.0 xs
unfolding wait_not_full
wait_not_full-Represents k q r xs h e = elim (Bool-cases (not k.in_external_intr)) [
  | inr a ↦ absurd (some-none (sym (rw a at e)))
  | inl a ↦ elim (Bool-cases (intq_full q)) [
    | inr b ↦ absurd (some-none (sym (rw (a, b) at e)))
    | inl b ↦ elim (Option-cases (thread_current k)) [
      | inl c ↦ absurd (some-none (sym (rw (a, b, c) at e)))
      | inr (t, c) ↦ elim (Option-cases (thread_block k)) [
        | inl d ↦ absurd (some-none (sym (rw (a, b, c, d) at e)))
        | inr (k', d) ↦
            subst (λ (x : Intq × Kernel). Represents x.0 xs) (some_eq (rw (a, b, c, d) at e))
              (Represents-waiters q t q.not_empty xs h)
      ]
    ]
  ]
]

pub getc_wait-Represents :
    (m : Machine) (q : Intq) (r : Intq × Machine) (xs : List ℕ)
    → Represents q xs
    → getc_wait m q ≡ some r
    → Represents r.0 xs
unfolding getc_wait
getc_wait-Represents m q r xs h e = elim (Option-cases (acquire_end m q.lock)) [
  | inl a ↦ absurd (some-none (sym (rw a at e)))
  | inr (m', a) ↦ elim (Option-cases (wait_not_empty m'.kernel q)) [
    | inl w ↦ absurd (some-none (sym (rw (a, w) at e)))
    | inr (s, w) ↦
        subst (λ (y : Intq × Machine). Represents y.0 xs) (some_eq (rw (a, w) at e))
          (wait_not_empty-Represents m'.kernel q s xs h w)
  ]
]

pub putc_wait-Represents :
    (m : Machine) (q : Intq) (r : Intq × Machine) (xs : List ℕ)
    → Represents q xs
    → putc_wait m q ≡ some r
    → Represents r.0 xs
unfolding putc_wait
putc_wait-Represents m q r xs h e = elim (Option-cases (acquire_end m q.lock)) [
  | inl a ↦ absurd (some-none (sym (rw a at e)))
  | inr (m', a) ↦ elim (Option-cases (wait_not_full m'.kernel q)) [
    | inl w ↦ absurd (some-none (sym (rw (a, w) at e)))
    | inr (s, w) ↦
        subst (λ (y : Intq × Machine). Represents y.0 xs) (some_eq (rw (a, w) at e))
          (wait_not_full-Represents m'.kernel q s xs h w)
  ]
]
