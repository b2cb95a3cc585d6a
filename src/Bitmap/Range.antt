-- ===== src/Bitmap/Range.antt =====
-- The loops over a range of bits: what they write, find and count, and when they panic.
use cs439_pcs.Base.{ℕ, zero, suc, ◌+◌, ◌≤◌, ◌<◌, add32}
use cs439_pcs.Base.{Bool, true, false, not, Option, none, some}
use cs439_pcs.Base.{◌≡◌, refl, inl, inr, arith, same, if◌then◌else◌}
use cs439_pcs.Base.{le→leb, Bool-cases}
use cs439_pcs.Bitmap.{Bitmap, set_loop, set_multiple, count_loop, count}
use cs439_pcs.Bitmap.{contains_loop, contains}
use native.Mathlib.Decide.{dec_lt}
use native.Mathlib.Nat.{zero-add}
use cs439_pcs.Bitmap.Single.{bit, IsValid, Assigned, set_bit-Assigned, set_bit-panic, test-eq-bit}

-- `start + i` does not wrap below the end of the bitmap.
in_word : {b : Bitmap} (start i : ℕ) → IsValid b → start + i ≤ b.bit_cnt → add32 start i ≡ start + i
in_word start i v h = omega arith

Assigned-refl : {b : Bitmap} (k : ℕ) (value : Bool) → IsValid b → Assigned k k value b b
Assigned-refl k value v = record {
  valid = v;
  same_cnt = refl;
  same_room = refl;
  bits = λ j. ground arith;
}

Assigned-trans :
    {b c d : Bitmap} (lo mid hi : ℕ) (value : Bool)
    → lo ≤ mid
    → mid ≤ hi
    → Assigned lo mid value b c
    → Assigned mid hi value c d
    → Assigned lo hi value b d
Assigned-trans lo mid hi value p q f g = record {
  valid = g.valid;
  same_cnt = omega (arith, f.same_cnt, g.same_cnt);
  same_room = omega (arith, f.same_room, g.same_room);
  bits = λ j. ground (arith, f.bits j, g.bits j);
}

set_loop-Assigned :
    (left : ℕ) (b : Bitmap) (start i : ℕ) (value : Bool)
    → IsValid b
    → start + i + left ≤ b.bit_cnt
    → (b' : Bitmap) × (set_loop left b start i value ≡ some b')
      × Assigned (start + i) (start + i + left) value b b'
unfolding set_loop
set_loop-Assigned zero b start i value v h =
    let e : start + i + 0 ≡ start + i = omega arith in (b, refl, rw e (Assigned-refl _ value v))
set_loop-Assigned (suc left) b start i value v h =
    let (c, ec, ac) = set_bit-Assigned b (start + i) value v (omega arith) in
    let end : start + (i + 1) + left ≡ start + i + suc left = omega arith in
    let next : start + (i + 1) ≡ start + i + 1 = omega arith in
    let fits : start + (i + 1) + left ≤ c.bit_cnt = omega (arith, ac.same_cnt) in
    let (d, ed, ad) = set_loop-Assigned left c start (i + 1) value ac.valid fits in
    let ad' : Assigned (start + i + 1) (start + i + suc left) value c d = rw (← end, ← next) ad in
    (
      d,
      rw (in_word start i v (omega arith), ec) ed,
      Assigned-trans (start + i) (start + i + 1) (start + i + suc left) value (omega arith)
          (omega arith) ac ad',
    )

-- On a valid bitmap, bitmap_set_multiple over a range inside it returns a valid bitmap of the same size
-- in which exactly the bits of the range were set to the value.
pub set_multiple-Assigned :
    (b : Bitmap) (start cnt : ℕ) (value : Bool)
    → IsValid b
    → start + cnt ≤ b.bit_cnt
    → (b' : Bitmap) × (set_multiple b start cnt value ≡ some b')
      × Assigned start (start + cnt) value b b'
unfolding set_multiple
set_multiple-Assigned b start cnt value v h =
    let (c, ec, ac) = set_loop-Assigned cnt b start 0 value v (omega arith) in
    let e : start + 0 ≡ start = omega arith in
    (
      c,
      rw
          (
            le→leb start b.bit_cnt (omega arith),
            in_word start cnt v h,
            le→leb (start + cnt) b.bit_cnt h,
          )
          ec,
      rw e at ac,
    )

set_loop-panic :
    (left : ℕ) (b : Bitmap) (start i : ℕ) (value : Bool)
    → IsValid b
    → start + i ≤ b.bit_cnt
    → b.bit_cnt < start + i + left
    → set_loop left b start i value ≡ none
unfolding set_loop
set_loop-panic zero b start i value v p q = absurd (omega arith)
set_loop-panic (suc left) b start i value v p q =
    rw (in_word start i v p) (elim (dec_lt (start + i) b.bit_cnt) [
      | yes h ↦
          let (c, ec, ac) = set_bit-Assigned b (start + i) value v h in
          let here : start + (i + 1) ≤ c.bit_cnt = omega (arith, ac.same_cnt) in
          let there : c.bit_cnt < start + (i + 1) + left = omega (arith, ac.same_cnt) in
          rw ec (set_loop-panic left c start (i + 1) value ac.valid here there)
      | no h ↦ rw (set_bit-panic b (start + i) value (omega arith)) refl
    ])

-- On a valid bitmap, bitmap_set_multiple over a range that ends past its bits panics, also where
-- `start + cnt` wraps round and the assertion on it passes.
pub set_multiple-panic :
    (b : Bitmap) (start cnt : ℕ) (value : Bool)
    → IsValid b
    → b.bit_cnt < start + cnt
    → set_multiple b start cnt value ≡ none
unfolding set_multiple
set_multiple-panic b start cnt value v h = elim (dec_lt b.bit_cnt start) [
  | yes p ↦ ground arith
  | no p ↦ ground (arith, set_loop-panic cnt b start 0 value v)
]

-- All `cnt` bits from `start` on are `value`.
abbrev pub IsGroup : Bitmap → ℕ → ℕ → Bool → Type 0
IsGroup b start cnt value = (k : ℕ) → k < cnt → bit b (start + k) ≡ value

-- Some bit of the range is `value`.
abbrev pub Occurs : Bitmap → ℕ → ℕ → Bool → Type 0
Occurs b start cnt value = (k : ℕ) × (k < cnt) × (bit b (start + k) ≡ value)

-- What a search of the range for `value` returns.
pub data Searched (b : Bitmap) (start cnt : ℕ) (value : Bool) (r : Option Bool) : Type 0 where
  found : Occurs b start cnt value → r ≡ some true → Searched b start cnt value r
  absent : IsGroup b start cnt (not value) → r ≡ some false → Searched b start cnt value r

same-not : (a c : Bool) → same a c ≡ false → a ≡ not c
same-not a c h = ground arith

same_eq : (a c : Bool) → same a c ≡ true → a ≡ c
same_eq a c h = ground arith

module _ (b : Bitmap) (start cnt : ℕ) (value : Bool) (v : IsValid b)
    (fits : start + cnt ≤ b.bit_cnt) where
  contains_loop-Searched :
      (left i : ℕ)
      → i + left ≡ cnt
      → ((k : ℕ) → k < i → bit b (start + k) ≡ not value)
      → Searched b start cnt value (contains_loop left b start i value)
  unfolding contains_loop
  contains_loop-Searched zero i e before = absent (λ k h. before k (omega arith)) refl
  contains_loop-Searched (suc left) i e before =
      rw (in_word start i v (omega arith), test-eq-bit b (start + i) (omega arith))
        (elim (Bool-cases (same (bit b (start + i)) value)) [
          | inl hit ↦ rw hit (found (i, omega arith, same_eq _ _ hit) refl)
          | inr miss ↦ rw miss (
              contains_loop-Searched left (i + 1) (omega arith) λ k h. elim (dec_lt k i) [
                | yes p ↦ before k p
                | no p ↦ let e' : k ≡ i = omega arith in rw e' (same-not _ _ miss)
              ])
        ])

  -- On a valid bitmap and a range inside it, bitmap_contains returns true when a bit of the range has the
  -- value, and false when all of them have the other one.
  pub contains-Searched : Searched b start cnt value (contains b start cnt value)
  unfolding contains
  contains-Searched =
      rw
        (
          le→leb start b.bit_cnt (omega arith),
          in_word start cnt v fits,
          le→leb (start + cnt) b.bit_cnt fits,
        )
        (contains_loop-Searched cnt 0 (omega arith) (λ k h. absurd (omega arith)))

-- The number of bits of the range that are `value`, counted from its end.
unfoldable pub tally : Bitmap → ℕ → ℕ → Bool → ℕ
tally b start zero value = 0
tally b start (suc n) value =
    (if same (bit b (start + n)) value then 1 else 0) + tally b start n value

count_loop-tally :
    (left : ℕ) (b : Bitmap) (start i : ℕ) (value : Bool)
    → IsValid b
    → start + (i + left) ≤ b.bit_cnt
    → count_loop left b start i value (tally b start i value)
      ≡ some (tally b start (i + left) value)
unfolding count_loop
count_loop-tally zero b start i value v h = let e : i + 0 ≡ i = omega arith in rw e refl
count_loop-tally (suc left) b start i value v h =
    let shift : i + suc left ≡ suc i + left = omega arith in
    let step : (if same (bit b (start + i)) value
          then tally b start i value + 1
          else tally b start i value)
        ≡ tally b start (suc i) value =
      unfold tally in ground arith in
    let next : i + 1 ≡ suc i = omega arith in
    rw (in_word start i v (omega arith), test-eq-bit b (start + i) (omega arith), shift)
      (rw (step, next) (count_loop-tally left b start (suc i) value v (omega arith)))

-- On a valid bitmap and a range inside it, bitmap_count returns the number of bits of the range that
-- have the value.
pub count-eq-tally :
    (b : Bitmap) (start cnt : ℕ) (value : Bool)
    → IsValid b
    → start + cnt ≤ b.bit_cnt
    → count b start cnt value ≡ some (tally b start cnt value)
unfolding count tally
count-eq-tally b start cnt value v h =
    rw
      (
        le→leb start b.bit_cnt (omega arith),
        in_word start cnt v h,
        le→leb (start + cnt) b.bit_cnt h,
      )
      (ground (arith, count_loop-tally cnt b start 0 value v (omega arith), zero-add cnt))
