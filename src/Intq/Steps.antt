-- ===== src/Intq/Steps.antt =====
-- The bytes that go through the ring of devices/intq.c.
use cs439_pcs.Base.{ℕ, some, List, [], ◌∷◌, ◌++◌}
use cs439_pcs.Base.{not, ◌==◌, Bool-cases, inl, inr, some-none, some_eq}
use cs439_pcs.Base.{◌≡◌, refl, ap, sym, ◌∙◌, arith, length}
use cs439_pcs.Thread.{Kernel}
use cs439_pcs.Synch.{Machine, lock_init}
use cs439_pcs.Intq.{Intq, intq_init}
use cs439_pcs.Intq.{getc_wait, putc_wait}
use cs439_pcs.Intq.{intq_getc, intq_putc}
use cs439_pcs.Intq.Ring.{Represents}
use mathlib.Core.List.{append_assoc}
use cs439_pcs.Intq.Calls.{putc-Represents, getc-Represents, getc_wait-Represents}
use cs439_pcs.Intq.Calls.{putc_wait-Represents}

-- A ring with the bytes put into it and those taken out of it since intq_init, in any states of the
-- threads.
pub data Reachable : Intq → List ℕ → List ℕ → Type 0 where
  started :
      (m m' : Machine) (q : Intq) {q' : Intq}
      → length q.buf ≡ 64
      → intq_init m q ≡ some (q', m')
      → Reachable q' [] []
  has_put :
      {q q' : Intq} {ins outs : List ℕ} (k k' : Kernel) (b : ℕ)
      → Reachable q ins outs
      → intq_putc k q b ≡ some (q', k')
      → Reachable q' (ins ++ b ∷ []) outs
  has_got :
      {q q' : Intq} {ins outs : List ℕ} (k k' : Kernel) (b : ℕ)
      → Reachable q ins outs
      → intq_getc k q ≡ some (b, q', k')
      → Reachable q' ins (outs ++ b ∷ [])
  awaits_byte :
      {q q' : Intq} {ins outs : List ℕ} (m m' : Machine)
      → Reachable q ins outs
      → getc_wait m q ≡ some (q', m')
      → Reachable q' ins outs
  awaits_room :
      {q q' : Intq} {ins outs : List ℕ} (m m' : Machine)
      → Reachable q ins outs
      → putc_wait m q ≡ some (q', m')
      → Reachable q' ins outs

init-Represents :
    (m m' : Machine) (q q' : Intq)
    → length q.buf ≡ 64
    → intq_init m q ≡ some (q', m')
    → Represents q' []
unfolding intq_init lock_init
init-Represents m m' q q' size e = elim (Bool-cases (not (q.lock == 0))) [
  | inr n ↦ absurd (some-none (sym (rw n at e)))
  | inl y ↦
      let ended = ap (λ (x : Intq × Machine). x.0) (some_eq (rw y at e)) in
      rw (← ended) (record {
        size = size;
        tail = omega arith;
        room = omega arith;
        head = omega arith;
        bytes = λ i lt. absurd (omega (arith, lt));
      })
]

-- From intq_init on, whatever calls of intq_putc and intq_getc return and whichever threads wait in
-- between, the bytes taken out are the first of those put in, in the same order, and the ring holds
-- the others, which are at most 63.
pub Reachable-Represents :
    {q : Intq} {ins outs : List ℕ}
    → Reachable q ins outs
    → (xs : List ℕ) × (ins ≡ outs ++ xs) × Represents q xs
Reachable-Represents (started m m' q {q'} size e) = ([], refl, init-Represents m m' q q' size e)
Reachable-Represents (has_put {q} {q'} {ins} {outs} k k' b s e) =
    let (xs, is, r) = Reachable-Represents s in
    (
      xs ++ b ∷ [],
      ap (λ l. l ++ b ∷ []) is ∙ append_assoc outs xs (b ∷ []),
      putc-Represents k q b (q', k') xs r e,
    )
Reachable-Represents (has_got {q} {q'} {ins} {outs} k k' b s e) =
    let (xs, is, r) = Reachable-Represents s in
    let (ys, is', r') = getc-Represents k q (b, q', k') xs r e in
    (ys, is ∙ ap (λ l. outs ++ l) is' ∙ sym (append_assoc outs (b ∷ []) ys), r')
Reachable-Represents (awaits_byte {q} {q'} m m' s e) =
    let (xs, is, r) = Reachable-Represents s in (xs, is, getc_wait-Represents m q (q', m') xs r e)
Reachable-Represents (awaits_room {q} {q'} m m' s e) =
    let (xs, is, r) = Reachable-Represents s in (xs, is, putc_wait-Represents m q (q', m') xs r e)
