-- ===== src/Intq/Ring.antt =====
-- The ring of devices/intq.c is a queue of at most 63 bytes.
use native.Mathlib.Decide.{dec_lt}
use cs439_pcs.Base.{ℕ, zero, suc, ◌+◌, ◌%◌, ◌≤◌, ◌<◌, true, false}
use cs439_pcs.Base.{List, [], ◌∷◌, ◌++◌, ◌≡◌, refl, ap, sym, ◌∙◌, arith}
use cs439_pcs.Base.{length, get_or, set}
use cs439_pcs.Base.{length-append, length-set, get_or-set_self, get_or-set_ne, ==_ne, ==_is}
use cs439_pcs.Intq.{Intq, next_pos, intq_empty, intq_full}

-- The bytes in the ring, the oldest first.
pub record Represents (q : Intq) (xs : List ℕ) : Type 0 where
  pub size : length q.buf ≡ 64
  pub tail : q.tail < 64
  pub room : length xs ≤ 63
  pub head : q.head ≡ (q.tail + length xs) % 64
  pub bytes : (i : ℕ) → i < length xs → get_or q.buf ((q.tail + i) % 64) 0 ≡ get_or xs i 0

pub empty_test : (q : Intq) → Represents q [] → intq_empty q ≡ true
unfolding intq_empty
empty_test q r = let tail = r.tail in let head = r.head in ==_is q.head q.tail (omega arith)

pub some_test : (q : Intq) (x : ℕ) (xs : List ℕ) → Represents q (x ∷ xs) → intq_empty q ≡ false
unfolding intq_empty
some_test q x xs r =
    let tail = r.tail in
    let head = r.head in let room = r.room in ==_ne q.head q.tail (λ e. absurd (omega (arith, e)))

pub full_test : (q : Intq) (xs : List ℕ) → Represents q xs → length xs ≡ 63 → intq_full q ≡ true
unfolding intq_full next_pos
full_test q xs r h =
    let tail = r.tail in let head = r.head in ==_is ((q.head + 1) % 64) q.tail (omega arith)

pub room_test : (q : Intq) (xs : List ℕ) → Represents q xs → length xs < 63 → intq_full q ≡ false
unfolding intq_full next_pos
room_test q xs r h =
    let tail = r.tail in
    let head = r.head in ==_ne ((q.head + 1) % 64) q.tail (λ e. absurd (omega (arith, e)))

get_or-append_left :
    (xs ys : List ℕ) (i : ℕ) → i < length xs → get_or (xs ++ ys) i 0 ≡ get_or xs i 0
get_or-append_left [] ys i h = absurd (omega arith)
get_or-append_left (x ∷ xs) ys zero h = refl
get_or-append_left (x ∷ xs) ys (suc i) h = get_or-append_left xs ys i (omega arith)

get_or-append_last : (xs : List ℕ) (y : ℕ) → get_or (xs ++ y ∷ []) (length xs) 0 ≡ y
get_or-append_last [] y = refl
get_or-append_last (x ∷ xs) y = get_or-append_last xs y

pub put_Represents :
    (q : Intq) (xs : List ℕ) (b : ℕ)
    → Represents q xs
    → length xs < 63
    → Represents (record q { buf = set q.buf q.head b; head = next_pos q.head }) (xs ++ b ∷ [])
unfolding next_pos
put_Represents q xs b r h =
    let tail = r.tail in
    let head = r.head in
    let size = r.size in
    let long = length-append xs (b ∷ []) in
    record {
      size = length-set q.buf q.head b ∙ r.size;
      tail = tail;
      room = omega (arith, long);
      head = omega (arith, long);
      bytes = λ i lt. elim (dec_lt i (length xs)) [
        | yes p ↦
            get_or-set_ne q.buf q.head ((q.tail + i) % 64) b 0 (λ e. absurd (omega (arith, e, p)))
            ∙ r.bytes i p
            ∙ sym (get_or-append_left xs (b ∷ []) i p)
        | no p ↦
            let is : i ≡ length xs = omega (arith, long, lt, p) in
            rw is (
              ap (λ j. get_or (set q.buf q.head b) j 0) (sym head)
              ∙ get_or-set_self q.buf q.head b 0 (omega arith)
              ∙ sym (get_or-append_last xs b))
      ];
    }

pub get_Represents :
    (q : Intq) (x : ℕ) (xs : List ℕ)
    → Represents q (x ∷ xs)
    → Represents (record q { tail = next_pos q.tail }) xs
unfolding next_pos
get_Represents q x xs r =
    let tail = r.tail in
    let head = r.head in
    let room = r.room in
    record {
      size = r.size;
      tail = omega arith;
      room = omega arith;
      head = omega arith;
      bytes = λ i lt.
          let shift : ((q.tail + 1) % 64 + i) % 64 ≡ (q.tail + suc i) % 64 = omega arith in
          rw shift (r.bytes (suc i) (omega (arith, lt)));
    }

pub front_byte :
    (q : Intq) (x : ℕ) (xs : List ℕ) → Represents q (x ∷ xs) → get_or q.buf q.tail 0 ≡ x
front_byte q x xs r =
    let tail = r.tail in
    let at : (q.tail + 0) % 64 ≡ q.tail = omega arith in
    ap (λ j. get_or q.buf j 0) (sym at) ∙ r.bytes 0 (omega arith)
