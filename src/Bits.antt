-- ===== src/Bits.antt =====
-- The bits of a number, and what `|`, `&` and `^` with a one-bit mask do to them.
mod Step
pub use Step.*
use cs439_pcs.Base.{ℕ, zero, suc, ◌+◌, ◌-◌, ◌*◌, ◌/◌, ◌%◌, ◌^◌, ◌≤◌, ◌<◌, min, max}
use cs439_pcs.Base.{bit_and, bit_or, bit_xor, ◌≡◌, refl, arith, ◌==◌, if◌then◌else◌, ap, not}
use Prim.Native.Nat.{bit_and-bitwise}
use native.Mathlib.Nat.{pow-suc, one-le-pow}

-- The binary digit of weight 2 ^ k.
unfoldable pub digit : ℕ → ℕ → ℕ
digit a zero = a % 2
digit a (suc k) = digit (a / 2) k

pub digit-zero : (k : ℕ) → digit 0 k ≡ 0
unfolding digit
digit-zero zero = refl
digit-zero (suc k) = digit-zero k

pub digit-bit_or : (k a b : ℕ) → digit (bit_or a b) k ≡ max (digit a k) (digit b k)
unfolding digit
digit-bit_or zero a b = omega (arith, bit_or-lowest a b)
digit-bit_or (suc k) a b =
    let e : bit_or a b / 2 ≡ bit_or (a / 2) (b / 2) = omega (arith, bit_or-lowest a b) in
    rw e (digit-bit_or k (a / 2) (b / 2))

pub digit-bit_and : (k a b : ℕ) → digit (bit_and a b) k ≡ min (digit a k) (digit b k)
unfolding digit
digit-bit_and zero a b = omega (arith, bit_and-lowest a b)
digit-bit_and (suc k) a b =
    let e : bit_and a b / 2 ≡ bit_and (a / 2) (b / 2) = omega (arith, bit_and-lowest a b) in
    rw e (digit-bit_and k (a / 2) (b / 2))

pub digit-bit_xor : (k a b : ℕ) → digit (bit_xor a b) k ≡ (digit a k + digit b k) % 2
unfolding digit
digit-bit_xor zero a b = omega (arith, bit_xor-lowest a b)
digit-bit_xor (suc k) a b =
    let e : bit_xor a b / 2 ≡ bit_xor (a / 2) (b / 2) = omega (arith, bit_xor-lowest a b) in
    rw e (digit-bit_xor k (a / 2) (b / 2))

-- A one-bit mask has that bit alone.
pub digit-mask : (k j : ℕ) → digit (2 ^ k) j ≡ (if k == j then 1 else 0)
unfolding digit
digit-mask zero zero = refl
digit-mask zero (suc j) = ground (arith, digit-zero j)
digit-mask (suc k) zero = ground (arith, pow-suc 2 k)
digit-mask (suc k) (suc j) =
    let e : 2 ^ suc k / 2 ≡ 2 ^ k = omega (arith, pow-suc 2 k) in
    rw e (ground (arith, digit-mask k j))

-- All bits below `n` are one in 2 ^ n - 1.
digit-ones : (n j : ℕ) → j < n → digit (2 ^ n - 1) j ≡ 1
unfolding digit
digit-ones zero j h = absurd (omega arith)
digit-ones (suc n) zero h = omega (arith, pow-suc 2 n, one-le-pow n 2)
digit-ones (suc n) (suc j) h =
    let e : (2 ^ suc n - 1) / 2 ≡ 2 ^ n - 1 = omega (arith, pow-suc 2 n, one-le-pow n 2) in
    rw e (digit-ones n j (omega arith))

-- A one-bit mask is a word of any larger width.
pub mask-lt : (n k : ℕ) → k < n → 2 ^ k < 2 ^ n
mask-lt zero k h = absurd (omega arith)
mask-lt (suc n) zero h = omega (arith, pow-suc 2 n, one-le-pow n 2)
mask-lt (suc n) (suc k) h = omega (arith, pow-suc 2 n, pow-suc 2 k, mask-lt n k (omega arith))

-- The complement of a one-bit mask, in a word of `n` bits.
pub digit-complement :
    (n k j : ℕ) → k < n → j < n → digit (2 ^ n - 1 - 2 ^ k) j ≡ (if k == j then 0 else 1)
unfolding digit
digit-complement zero k j p q = absurd (omega arith)
digit-complement (suc n) zero zero p q = omega (arith, pow-suc 2 n, one-le-pow n 2)
digit-complement (suc n) zero (suc j) p q =
    let e : (2 ^ suc n - 1 - 2 ^ 0) / 2 ≡ 2 ^ n - 1 = omega (arith, pow-suc 2 n, one-le-pow n 2) in
    rw e (ground (arith, digit-ones n j))
digit-complement (suc n) (suc k) zero p q =
    ground (arith, pow-suc 2 n, pow-suc 2 k, one-le-pow n 2, mask-lt n k (omega arith))
digit-complement (suc n) (suc k) (suc j) p q =
    let e : (2 ^ suc n - 1 - 2 ^ suc k) / 2 ≡ 2 ^ n - 1 - 2 ^ k =
      omega (arith, pow-suc 2 n, pow-suc 2 k) in
    rw e (ground (arith, digit-complement n k j))

below_pow : (x : ℕ) → x < 2 ^ x
below_pow zero = omega arith
below_pow (suc x) = omega (arith, pow-suc 2 x, below_pow x)

zero_below : (w x : ℕ) → x < 2 ^ w → bit_and x 0 ≡ 0
zero_below zero x h = let e : x ≡ 0 = omega arith in rw e refl
zero_below (suc w) x h =
    omega
      (arith, bit_and-lowest x 0, pow-suc 2 w, zero_below w (x / 2) (omega (arith, pow-suc 2 w)))

bit_and-zero : (x : ℕ) → bit_and x 0 ≡ 0
bit_and-zero x = zero_below x x (below_pow x)

-- `x & (1 << k)` is not 0 exactly when bit k of x is one.
pub bit_and-mask : (k x : ℕ) → bit_and x (2 ^ k) ≡ digit x k * 2 ^ k
unfolding digit
bit_and-mask zero x = omega (arith, bit_and-lowest x 1, bit_and-zero (x / 2))
bit_and-mask (suc k) x =
    let half : 2 ^ suc k / 2 ≡ 2 ^ k = omega (arith, pow-suc 2 k) in
    let even : 2 ^ suc k % 2 ≡ 0 = omega (arith, pow-suc 2 k) in
    let ih : bit_and (x / 2) (2 ^ suc k / 2) ≡ digit (x / 2) k * 2 ^ k =
      rw half (bit_and-mask k (x / 2)) in
    omega
      (arith, bit_and-lowest x (2 ^ suc k), ih, ap (λ (t : ℕ). digit (x / 2) k * t) (pow-suc 2 k))

pub digit-lt : (x k : ℕ) → digit x k < 2
unfolding digit
digit-lt x zero = omega arith
digit-lt x (suc k) = digit-lt (x / 2) k

pub bit_and-mask_iff : (k x : ℕ) → not (bit_and x (2 ^ k) == 0) ≡ (digit x k == 1)
bit_and-mask_iff k x = grind (arith, bit_and-mask k x, digit-lt x k, one-le-pow k 2)

-- A result has no more bits than its arguments.
pub bit_or-lt : (n a b : ℕ) → a < 2 ^ n → b < 2 ^ n → bit_or a b < 2 ^ n
bit_or-lt zero a b p q =
    let ea : a ≡ 0 = omega arith in let eb : b ≡ 0 = omega arith in rw (ea, eb) (omega arith)
bit_or-lt (suc n) a b p q =
    let ih =
      bit_or-lt n (a / 2) (b / 2) (omega (arith, pow-suc 2 n)) (omega (arith, pow-suc 2 n)) in
    omega (arith, pow-suc 2 n, bit_or-lowest a b)

pub bit_xor-lt : (n a b : ℕ) → a < 2 ^ n → b < 2 ^ n → bit_xor a b < 2 ^ n
bit_xor-lt zero a b p q =
    let ea : a ≡ 0 = omega arith in let eb : b ≡ 0 = omega arith in rw (ea, eb) (omega arith)
bit_xor-lt (suc n) a b p q =
    let ih =
      bit_xor-lt n (a / 2) (b / 2) (omega (arith, pow-suc 2 n)) (omega (arith, pow-suc 2 n)) in
    omega (arith, pow-suc 2 n, bit_xor-lowest a b)

pub bit_and-lt : (n a b : ℕ) → a < 2 ^ n → bit_and a b < 2 ^ n
bit_and-lt zero a b p = let ea : a ≡ 0 = omega arith in rw ea (omega (arith, bit_and-bitwise 0 b))
bit_and-lt (suc n) a b p =
    let ih = bit_and-lt n (a / 2) (b / 2) (omega (arith, pow-suc 2 n)) in
    omega (arith, pow-suc 2 n, bit_and-lowest a b)
