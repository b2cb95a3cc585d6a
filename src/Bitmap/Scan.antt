-- ===== src/Bitmap/Scan.antt =====
-- bitmap_scan finds the first group, and bitmap_scan_and_flip takes it.
use cs439_pcs.Base.{ℕ, zero, suc, ◌+◌, ◌-◌, ◌≤◌, ◌<◌}
use cs439_pcs.Base.{Bool, true, false, not, Option, some}
use cs439_pcs.Base.{◌≡◌, refl, ◌⊎◌, arith}
use cs439_pcs.Base.{◌≢◌, le→leb, gt→leb, ==_ne}
use cs439_pcs.Bitmap.{Bitmap, scan_loop, scan, scan_and_flip, bitmap_error}
use cs439_pcs.Bitmap.Single.{IsValid, Assigned}
use cs439_pcs.Bitmap.Range.{IsGroup, found, absent, contains-Searched}
use cs439_pcs.Bitmap.Range.{set_multiple-Assigned}
use native.Mathlib.Decide.{dec_lt, dec_le}

-- `i` is the first place at or after `start` where a group of `cnt` bits of that value begins.
pub record IsFirst (b : Bitmap) (start cnt : ℕ) (value : Bool) (i : ℕ) : Type 0 where
  pub after : start ≤ i
  pub inside : i + cnt ≤ b.bit_cnt
  pub group : IsGroup b i cnt value
  pub earliest : (k : ℕ) → start ≤ k → k < i → ¬ IsGroup b k cnt value

abbrev pub NoGroup : Bitmap → ℕ → ℕ → Bool → Type 0
NoGroup b start cnt value = (k : ℕ) → start ≤ k → k + cnt ≤ b.bit_cnt → ¬ IsGroup b k cnt value

pub data Scanned (b : Bitmap) (start cnt : ℕ) (value : Bool) (r : Option ℕ) : Type 0 where
  group_at : (i : ℕ) → IsFirst b start cnt value i → r ≡ some i → Scanned b start cnt value r
  no_group : NoGroup b start cnt value → r ≡ some bitmap_error → Scanned b start cnt value r

not-not : (x : Bool) → not (not x) ≡ x
not-not true = refl
not-not false = refl

not-ne : (x y : Bool) → x ≡ y → x ≡ not y → ⊥
not-ne x y p q = ground arith

module _ (b : Bitmap) (start cnt : ℕ) (value : Bool) (v : IsValid b) where
  scan_loop-Scanned :
      (left i : ℕ)
      → start ≤ i
      → b.bit_cnt + 1 ≤ i + left + cnt
      → (left ≡ 0) ⊎ (i + left + cnt ≤ b.bit_cnt + 1)
      → ((k : ℕ) → start ≤ k → k < i → ¬ IsGroup b k cnt value)
      → Scanned b start cnt value (scan_loop left b i cnt value)
  unfolding scan_loop
  scan_loop-Scanned zero i p e f before = no_group (λ k h q. before k h (omega arith)) refl
  scan_loop-Scanned (suc left) i p e f before =
      elim (contains-Searched b i cnt (not value) v (omega arith)) [
        | found (k, hk, at) r ↦ rw r (
            scan_loop-Scanned left (i + 1) (omega arith) (omega arith) (omega arith) λ m h q g.
              elim (dec_lt m i) [
                | yes below ↦ before m h below g
                | no here ↦
                    let e' : m ≡ i = omega arith in
                    let g' : IsGroup b i cnt value = rw e' at g in not-ne _ _ (g' k hk) at
              ])
        | absent g r ↦ rw r (
            group_at i
              (record {
                after = p;
                inside = omega arith;
                group = λ k h. rw (← not-not value) (g k h);
                earliest = before;
              })
              refl)
      ]

  -- `bitmap_scan` returns the first group, or the error value when there is none.
  pub scan-Scanned : start ≤ b.bit_cnt → Scanned b start cnt value (scan b start cnt value)
  unfolding scan
  scan-Scanned h = rw (le→leb start b.bit_cnt h) (elim (dec_le cnt b.bit_cnt) [
    | yes p ↦ rw (le→leb cnt b.bit_cnt p) (
        scan_loop-Scanned (b.bit_cnt - cnt + 1 - start) start (omega arith) (omega arith)
          (omega arith) (λ k q r. absurd (omega arith)))
    | no p ↦ rw (gt→leb cnt b.bit_cnt (omega arith)) (no_group (λ k q r. absurd (omega arith)) refl)
  ])

-- What bitmap_scan_and_flip leaves, on both of its outcomes.
pub data Flipped (b : Bitmap) (start cnt : ℕ) (value : Bool) (r : Option (ℕ × Bitmap))
    : Type 0 where
  taken :
      (i : ℕ) (b' : Bitmap)
      → IsFirst b start cnt value i
      → Assigned i (i + cnt) (not value) b b'
      → r ≡ some (i, b')
      → Flipped b start cnt value r
  refused : NoGroup b start cnt value → r ≡ some (bitmap_error, b) → Flipped b start cnt value r

-- On a valid bitmap, from a start inside it, bitmap_scan_and_flip flips the first group of `cnt` bits
-- of that value and no other bit, and returns where it begins; when there is no such group, it returns
-- BITMAP_ERROR and the bitmap as it was.
pub scan_and_flip-Flipped :
    (b : Bitmap) (start cnt : ℕ) (value : Bool)
    → IsValid b
    → start ≤ b.bit_cnt
    → Flipped b start cnt value (scan_and_flip b start cnt value)
unfolding scan_and_flip
scan_and_flip-Flipped b start cnt value v h = elim (scan-Scanned b start cnt value v h) [
  | group_at i first r ↦
      let (b', eb, ab) = set_multiple-Assigned b i cnt (not value) v first.inside in
      let ne : i ≢ bitmap_error = omega (arith, first.inside, v.small) in
      taken i b' first ab (rw (r, ==_ne _ _ ne, eb) refl)
  | no_group lacking r ↦ refused lacking (rw r refl)
]
