-- ===== src/Bits/Step.antt =====
-- Bitwise or, and, and exclusive or, each by the lowest digits of its arguments and what is above
-- them. The native operations recurse on digits with the first number as fuel.
use Prim.Native.Nat.{digits, bitwise, differ, bit_and-bitwise, bit_or-bitwise, bit_xor-bitwise}
use cs439_pcs.Base.{
  ℕ, zero, suc, ◌+◌, ◌-◌, ◌*◌, ◌/◌, ◌%◌, ◌≤◌, ◌<◌, min, max, bit_and, bit_or, bit_xor,
}
use cs439_pcs.Base.{◌≡◌, refl, arith, ◌∙◌}

module _ (rest : ℕ → ℕ) (op : ℕ → ℕ → ℕ) where
  -- Fuel that covers the first number may be raised by one, and so by any amount.
  one_more : (fuel m k : ℕ) → m ≤ fuel → digits rest op (suc fuel) m k ≡ digits rest op fuel m k
  one_more zero (suc m) k h = absurd (omega arith)
  one_more (suc fuel) (suc m) k h = rw (one_more fuel (suc m / 2) (k / 2) (omega arith)) refl
  one_more zero zero k h = refl
  one_more (suc fuel) zero k h = refl

  spare :
      (extra fuel m k : ℕ) → m ≤ fuel → digits rest op (extra + fuel) m k ≡ digits rest op fuel m k
  spare zero fuel m k h = let none_extra : 0 + fuel ≡ fuel = omega arith in rw none_extra refl
  spare (suc extra) fuel m k h =
      let shift : suc extra + fuel ≡ suc (extra + fuel) = omega arith in
      rw shift (one_more (extra + fuel) m k (omega arith) ∙ spare extra fuel m k h)

  split_lowest :
      (m k : ℕ)
      → bitwise rest op (suc m) k ≡ op (suc m % 2) (k % 2) + 2 * bitwise rest op (suc m / 2) (k / 2)
  split_lowest m k =
      let half : ℕ = suc m / 2 in
      let fuel : (m - half) + half ≡ m = omega arith in
      omega (arith, rw fuel at (spare (m - half) half half (k / 2) (omega arith)))

differ-digits : (x y : ℕ) → x < 2 → y < 2 → differ x y ≡ (x + y) % 2
differ-digits zero y p q = omega arith
differ-digits (suc zero) zero p q = refl
differ-digits (suc zero) (suc zero) p q = refl
differ-digits (suc zero) (suc (suc y)) p q = absurd (omega arith)
differ-digits (suc (suc x)) y p q = absurd (omega arith)

pub bit_xor-lowest : (m k : ℕ) → bit_xor m k ≡ (m % 2 + k % 2) % 2 + 2 * bit_xor (m / 2) (k / 2)
bit_xor-lowest zero k = omega (arith, bit_xor-bitwise 0 k, bit_xor-bitwise 0 (k / 2))
bit_xor-lowest (suc m) k =
    let digit_sum = differ-digits (suc m % 2) (k % 2) (omega arith) (omega arith) in
    rw (← digit_sum) (simp bit_xor-bitwise (split_lowest (λ b. b) differ m k))

pub bit_or-lowest : (m k : ℕ) → bit_or m k ≡ max (m % 2) (k % 2) + 2 * bit_or (m / 2) (k / 2)
bit_or-lowest zero k = omega (arith, bit_or-bitwise 0 k, bit_or-bitwise 0 (k / 2))
bit_or-lowest (suc m) k = simp bit_or-bitwise (split_lowest (λ b. b) max m k)

pub bit_and-lowest : (m k : ℕ) → bit_and m k ≡ min (m % 2) (k % 2) + 2 * bit_and (m / 2) (k / 2)
bit_and-lowest zero k = omega (arith, bit_and-bitwise 0 k, bit_and-bitwise 0 (k / 2))
bit_and-lowest (suc m) k = simp bit_and-bitwise (split_lowest (λ b. zero) min m k)
