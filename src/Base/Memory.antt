-- ===== src/Base/Memory.antt =====
-- Memory as lists of bytes: memcpy between two of them.
use Prim.Native.Nat.{ℕ, zero, suc, ◌+◌, ◌-◌, ◌<◌, ◌≤◌}
use mathlib.Core.Path.{◌≡◌, refl, ap, ◌∙◌}
use mathlib.Core.Bool.{false, ◌&&◌}
use mathlib.Core.List.{List, [], ◌∷◌}
use native.Mathlib.Omega.{arith}
use cs439_pcs.Base.Lists.{length, get_or}
use cs439_pcs.Base.Tests.{leb, ltb, if◌then◌else◌}
use native.Mathlib.Decide.{dec_lt}

-- The list of `n` values of `f`, from `i` on.
unfoldable pub tabulate {ℓ} : {A : Type ℓ} → (ℕ → A) → ℕ → ℕ → List A
tabulate f i zero = []
tabulate f i (suc n) = f i ∷ tabulate f (i + 1) n

pub length-tabulate {ℓ} : {A : Type ℓ} (f : ℕ → A) (i n : ℕ) → length (tabulate f i n) ≡ n
unfolding tabulate
length-tabulate f i zero = refl
length-tabulate f i (suc n) = ap suc (length-tabulate f (i + 1) n)

pub get_or-tabulate {ℓ} :
    {A : Type ℓ} (f : ℕ → A) (i n j : ℕ) (d : A) → j < n → get_or (tabulate f i n) j d ≡ f (i + j)
unfolding tabulate
get_or-tabulate f i zero j d h = absurd (omega arith)
get_or-tabulate f i (suc n) zero d h = let e : i + 0 ≡ i = omega arith in rw e refl
get_or-tabulate f i (suc n) (suc j) d h =
    let e : i + suc j ≡ i + 1 + j = omega arith in
    rw e (get_or-tabulate f (i + 1) n j d (omega arith))

-- memcpy (dst + at, src + from, n), within the length of `dst`.
unfoldable pub memcpy : List ℕ → ℕ → List ℕ → ℕ → ℕ → List ℕ
memcpy dst at src from n =
    tabulate
      (λ k. if leb at k && ltb k (at + n) then get_or src (from + (k - at)) 0 else get_or dst k 0) 0
      (length dst)

pub length-memcpy :
    (dst : List ℕ) (at : ℕ) (src : List ℕ) (from n : ℕ)
    → length (memcpy dst at src from n) ≡ length dst
unfolding memcpy
length-memcpy dst at src from n = length-tabulate _ 0 (length dst)

get_or_past : (xs : List ℕ) (k : ℕ) → length xs ≤ k → get_or xs k 0 ≡ 0
get_or_past [] k h = refl
get_or_past (x ∷ xs) zero h = absurd (omega arith)
get_or_past (x ∷ xs) (suc k) h = get_or_past xs k (omega arith)

pub get_or-memcpy :
    (dst : List ℕ) (at : ℕ) (src : List ℕ) (from n k : ℕ)
    → at + n ≤ length dst
    → get_or (memcpy dst at src from n) k 0
      ≡ (if leb at k && ltb k (at + n) then get_or src (from + (k - at)) 0 else get_or dst k 0)
unfolding memcpy
get_or-memcpy dst at src from n k h = elim (dec_lt k (length dst)) [
  | yes p ↦
      let e : 0 + k ≡ k = omega arith in
      get_or-tabulate
        (λ j. if leb at j && ltb j (at + n) then get_or src (from + (j - at)) 0 else get_or dst j 0)
        0 (length dst) k 0 p
      ∙ rw e refl
  | no p ↦
      let out : (leb at k && ltb k (at + n)) ≡ false = ground arith in
      rw out (
        get_or_past (memcpy dst at src from n) k (omega (arith, length-memcpy dst at src from n))
        ∙ rw (get_or_past dst k (omega arith)) refl)
]
