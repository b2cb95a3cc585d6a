-- ===== src/Bitmap/Single.antt =====
-- The bits of a bitmap as a function, what one-bit operations do to it, and the invariant.
use cs439_pcs.Base.{ℕ, ◌+◌, ◌-◌, ◌*◌, ◌/◌, ◌%◌, ◌^◌, ◌≤◌, ◌<◌, bit_and, bit_or, bit_xor}
use cs439_pcs.Base.{Bool, true, false, not, none, some, set, word_mod}
use cs439_pcs.Base.{◌≡◌, refl, arith, ltb, ◌==◌, leb, ◌&&◌, if◌then◌else◌}
use cs439_pcs.Base.{
  length, length-set, set_past, get_or-set_self, get_or-set_ne, lt→ltb, ==_self, ==_ne,
}
use cs439_pcs.Bits.{digit, digit-bit_or, digit-bit_and, digit-bit_xor, digit-mask, digit-complement}
use cs439_pcs.Bits.{digit-lt, bit_and-mask_iff, bit_or-lt, bit_and-lt, bit_xor-lt, mask-lt}
use cs439_pcs.Bitmap.{Bitmap, elem_at, mark, reset, flip, set_bit, test}
use native.Mathlib.Decide.{ℕ_discrete, dec_lt}

-- Bit `i`, whatever `bit_cnt` says.
unfoldable pub bit : Bitmap → ℕ → Bool
bit b i = digit (elem_at b (i / 32)) (i % 32) == 1

pub record IsValid (b : Bitmap) : Type 0 where
  pub small : b.bit_cnt + 31 < word_mod
  pub stored : b.bit_cnt ≤ 32 * length b.bits
  pub words : (j : ℕ) → elem_at b j < word_mod

-- An index in range lies in a stored element.
pub idx-lt : {b : Bitmap} {i : ℕ} → IsValid b → i < b.bit_cnt → i / 32 < length b.bits
idx-lt v h = omega arith

-- One element replaced: the bits of the others stay.
bit_of_set :
    (b : Bitmap) (i w j : ℕ)
    → i / 32 < length b.bits
    → bit (record b { bits = set b.bits (i / 32) w }) j
      ≡ (if i / 32 == j / 32 then digit w (j % 32) == 1 else bit b j)
unfolding bit
bit_of_set b i w j h = elim (ℕ_discrete (i / 32) (j / 32)) [
  | yes e ↦ rw (← e, get_or-set_self b.bits (i / 32) w 0 h, ==_self) refl
  | no ne ↦ rw (get_or-set_ne b.bits (i / 32) (j / 32) w 0 ne, ==_ne _ _ ne) refl
]

module _ (b : Bitmap) (i j : ℕ) (h : i / 32 < length b.bits) where
  pub bit-mark : bit (mark b i) j ≡ (if i == j then true else bit b j)
  unfolding mark bit
  bit-mark = ground (
    arith,
    bit_of_set b i (bit_or (elem_at b (i / 32)) (2 ^ (i % 32))) j h,
    digit-bit_or (j % 32) (elem_at b (i / 32)) (2 ^ (i % 32)),
    digit-mask (i % 32) (j % 32),
    digit-lt (elem_at b (j / 32)) (j % 32),
  )

  pub bit-reset : bit (reset b i) j ≡ (if i == j then false else bit b j)
  unfolding reset bit
  bit-reset = ground (
    arith,
    bit_of_set b i (bit_and (elem_at b (i / 32)) (word_mod - 1 - 2 ^ (i % 32))) j h,
    digit-bit_and (j % 32) (elem_at b (i / 32)) (word_mod - 1 - 2 ^ (i % 32)),
    digit-complement 32 (i % 32) (j % 32),
    digit-lt (elem_at b (j / 32)) (j % 32),
  )

  -- bitmap_flip at an index that lies in a stored element inverts that bit and no other.
  bit-flip : bit (flip b i) j ≡ (if i == j then not (bit b j) else bit b j)
  unfolding flip bit
  bit-flip = ground (
    arith,
    bit_of_set b i (bit_xor (elem_at b (i / 32)) (2 ^ (i % 32))) j h,
    digit-bit_xor (j % 32) (elem_at b (i / 32)) (2 ^ (i % 32)),
    digit-mask (i % 32) (j % 32),
    digit-lt (elem_at b (j / 32)) (j % 32),
  )

-- A replaced element that is a word keeps the invariant.
set-IsValid :
    {b : Bitmap} (k w : ℕ) → IsValid b → w < word_mod → IsValid (record b { bits = set b.bits k w })
set-IsValid {b} k w v h = record {
  small = v.small;
  stored = rw length-set v.stored;
  words = λ j. elim (ℕ_discrete k j) [
    | yes e ↦ elim (dec_lt k (length b.bits)) [
      | yes p ↦ rw (← e, get_or-set_self b.bits k w 0 p) h
      | no p ↦ rw (set_past b.bits k w (omega arith)) (v.words j)
    ]
    | no ne ↦ rw (get_or-set_ne b.bits k j w 0 ne) (v.words j)
  ];
}

pub mark-IsValid : {b : Bitmap} (i : ℕ) → IsValid b → IsValid (mark b i)
unfolding mark
mark-IsValid {b} i v =
    set-IsValid _ _ v (bit_or-lt 32 _ _ (v.words (i / 32)) (mask-lt 32 (i % 32) (omega arith)))

pub reset-IsValid : {b : Bitmap} (i : ℕ) → IsValid b → IsValid (reset b i)
unfolding reset
reset-IsValid {b} i v = set-IsValid _ _ v (bit_and-lt 32 _ _ (v.words (i / 32)))

pub flip-IsValid : {b : Bitmap} (i : ℕ) → IsValid b → IsValid (flip b i)
unfolding flip
flip-IsValid {b} i v =
    set-IsValid _ _ v (bit_xor-lt 32 _ _ (v.words (i / 32)) (mask-lt 32 (i % 32) (omega arith)))

-- `b'` is `b` with the bits from `lo` to below `hi` set to `value`, and nothing else changed.
pub record Assigned (lo hi : ℕ) (value : Bool) (b b' : Bitmap) : Type 0 where
  pub valid : IsValid b'
  pub same_cnt : b'.bit_cnt ≡ b.bit_cnt
  pub same_room : length b'.bits ≡ length b.bits
  pub bits : (j : ℕ) → bit b' j ≡ (if leb lo j && ltb j hi then value else bit b j)

pub set_bit-Assigned :
    (b : Bitmap) (i : ℕ) (value : Bool)
    → IsValid b
    → i < b.bit_cnt
    → (b' : Bitmap) × (set_bit b i value ≡ some b') × Assigned i (i + 1) value b b'
unfolding set_bit
set_bit-Assigned b i true v h = (
  mark b i,
  rw (lt→ltb _ _ h),
  record {
    valid = mark-IsValid i v;
    same_cnt = unfold mark in refl;
    same_room = unfold mark in length-set _ _ _;
    bits = λ j. ground (arith, bit-mark b i j (idx-lt v h));
  },
)
set_bit-Assigned b i false v h = (
  reset b i,
  rw (lt→ltb _ _ h),
  record {
    valid = reset-IsValid i v;
    same_cnt = unfold reset in refl;
    same_room = unfold reset in length-set _ _ _;
    bits = λ j. ground (arith, bit-reset b i j (idx-lt v h));
  },
)

pub set_bit-panic : (b : Bitmap) (i : ℕ) (value : Bool) → b.bit_cnt ≤ i → set_bit b i value ≡ none
unfolding set_bit
set_bit-panic b i value h = ground arith

-- `bitmap_test` reads the bit.
pub test-eq-bit : (b : Bitmap) (i : ℕ) → i < b.bit_cnt → test b i ≡ some (bit b i)
unfolding test bit
test-eq-bit b i h = rw (lt→ltb _ _ h, bit_and-mask_iff (i % 32) (elem_at b (i / 32))) refl
