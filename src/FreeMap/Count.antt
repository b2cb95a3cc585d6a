-- ===== src/FreeMap/Count.antt =====
-- The number of free sectors, and what allocating one sector does to it.
use cs439_pcs.Base.{ℕ, zero, suc, true, false, Option, some, List, ◌+◌, ◌≤◌, ◌<◌}
use cs439_pcs.Base.{◌≡◌, refl, arith, same, ◌∙◌, sym, Bool-cases, inl, inr}
use cs439_pcs.Bitmap.{Bitmap}
use cs439_pcs.Bitmap.Single.{bit, IsValid, Assigned}
use cs439_pcs.Bitmap.Range.{tally}
use cs439_pcs.Bitmap.Scan.{IsFirst, NoGroup}
use cs439_pcs.FreeMap.{FreeMap, store, allocate}
use cs439_pcs.FreeMap.Laws.{granted, unwritten, full, allocate-Allocated}
use mathlib.Core.Bool.{false≢true}
use native.Mathlib.Decide.{dec_lt}
use native.Mathlib.Nat.{le_refl}
use cs439_pcs.Base.{ap}

-- The free sectors of the device.
unfoldable pub free_cnt : Bitmap → ℕ
free_cnt b = tally b 0 b.bit_cnt false

tally_above :
    (b b' : Bitmap) (i n : ℕ)
    → n ≤ i
    → Assigned i (i + 1) true b b'
    → tally b' 0 n false ≡ tally b 0 n false
unfolding tally
tally_above b b' i zero h a = refl
tally_above b b' i (suc n) h a =
    ground (arith, tally_above b b' i n (omega arith) a, a.bits (0 + n))

tally_take :
    (b b' : Bitmap) (i n : ℕ)
    → i < n
    → bit b i ≡ false
    → Assigned i (i + 1) true b b'
    → tally b' 0 n false + 1 ≡ tally b 0 n false
unfolding tally
tally_take b b' i zero h z a = absurd (omega arith)
tally_take b b' i (suc n) h z a = elim (dec_lt i n) [
  | yes p ↦ ground (arith, tally_take b b' i n p z a, a.bits (0 + n))
  | no p ↦
      let e : i ≡ 0 + n = omega arith in
      let z' : bit b (0 + n) ≡ false = rw e at z in
      ground (arith, tally_above b b' i n (omega arith) a, a.bits (0 + n))
]

tally-NoGroup : (b : Bitmap) (n : ℕ) → n ≤ b.bit_cnt → NoGroup b 0 1 false → tally b 0 n false ≡ 0
unfolding tally
tally-NoGroup b zero h none_free = refl
tally-NoGroup b (suc n) h none_free = elim (Bool-cases (bit b (0 + n))) [
  | inl used ↦ rw used (ground (arith, tally-NoGroup b n (omega arith) none_free))
  | inr free ↦ absurd (
      none_free n (omega arith) (omega arith)
        (λ k q. let e : n + k ≡ 0 + n = omega arith in rw e free))
]

-- One free sector `s` of `b` is in use in `b'`, and nothing else differs.
pub record Took (b b' : Bitmap) (s : ℕ) : Type 0 where
  pub in_range : s < b.bit_cnt
  pub was_free : bit b s ≡ false
  pub assigned : Assigned s (s + 1) true b b'
  pub counted : free_cnt b' + 1 ≡ free_cnt b

first-Took :
    (b b' : Bitmap) (s : ℕ) → IsFirst b 0 1 false s → Assigned s (s + 1) true b b' → Took b b' s
unfolding free_cnt
first-Took b b' s first a =
    let here : s + 0 ≡ s = omega arith in
    let z : bit b s ≡ false = rw here at (first.group 0 (omega arith)) in
    record {
      in_range = omega (arith, first.inside);
      was_free = z;
      assigned = a;
      counted = simp a.same_cnt (tally_take b b' s b.bit_cnt (omega (arith, first.inside)) z a);
    }

module _ {File : Type 0} (write_at : File → List ℕ → ℕ → ℕ → ℕ × File) where
  -- The map's own file takes every write.
  abbrev pub Stores : Type 0
  Stores = (map : Bitmap) (file : Option File) → (store write_at map file).0 ≡ true

  -- With a valid map, a free sector on the device and a map file that takes every write,
  -- free_map_allocate of one sector returns a sector that was free, sets its bit and no other, and
  -- lowers the number of free sectors by one.
  pub allocate-Took :
      (m : FreeMap File)
      → Stores
      → IsValid m.free_map
      → 0 < free_cnt m.free_map
      → (s : ℕ) × (m' : FreeMap File) × (allocate write_at 1 m ≡ some (some s, m'))
        × Took m.free_map m'.free_map s
  unfolding free_cnt
  allocate-Took m stores v h = elim (allocate-Allocated write_at 1 m v) [
    | granted s m' first a e r ↦ (s, m', r, first-Took m.free_map m'.free_map s first a)
    | unwritten m' s map a e same r ↦
        absurd (false≢true (sym (ap (λ p. p.0) e) ∙ stores map m.free_map_file))
    | full lacking r ↦ absurd (omega (arith, tally-NoGroup m.free_map _ (le_refl _) lacking))
  ]
