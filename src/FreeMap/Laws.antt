-- ===== src/FreeMap/Laws.antt =====
-- What allocating and releasing sectors do to the map, on every outcome.
use cs439_pcs.Base.{ℕ, Bool, true, false, Option, none, some, List}
use cs439_pcs.Base.{◌+◌, ◌≤◌, ◌<◌, ◌≡◌, refl, ◌≢◌, arith, leb, ltb, ◌&&◌, ==_ne}
use cs439_pcs.Base.{◌∙◌, sym, inl, inr, Bool-cases, ◌-◌}
use mathlib.Core.Bool.{false≢true}
use cs439_pcs.Bitmap
use cs439_pcs.Bitmap.{Bitmap, bitmap_error}
use cs439_pcs.Bitmap.Single.{bit, IsValid, Assigned}
use cs439_pcs.Bitmap.Range.{IsGroup, found, absent, contains-Searched, set_multiple-Assigned}
use cs439_pcs.Bitmap.Scan.{IsFirst, NoGroup, taken, refused, scan_and_flip-Flipped}
use cs439_pcs.FreeMap.{FreeMap, store, keep, allocate, release}

-- The two maps agree on every bit.
pub record SameBits (b b' : Bitmap) : Type 0 where
  pub valid : IsValid b'
  pub same_cnt : b'.bit_cnt ≡ b.bit_cnt
  pub bits : (j : ℕ) → bit b' j ≡ bit b j

-- A group that was found free and set, and is cleared again.
undo-SameBits :
    {b c d : Bitmap} (i cnt : ℕ)
    → IsGroup b i cnt false
    → Assigned i (i + cnt) true b c
    → Assigned i (i + cnt) false c d
    → SameBits b d
undo-SameBits {b} i cnt g f h = record {
  valid = h.valid;
  same_cnt = h.same_cnt ∙ f.same_cnt;
  bits = λ j. elim (Bool-cases (leb i j && ltb j (i + cnt))) [
    | inl inside ↦
        let there : i + (j - i) ≡ j = ground arith in
        let clear : bit b (i + (j - i)) ≡ false = g (j - i) (ground arith) in
        h.bits j ∙ rw inside (sym (rw there at clear))
    | inr outside ↦ ground (arith, f.bits j, h.bits j)
  ];
}

module _ {File : Type 0} (write_at : File → List ℕ → ℕ → ℕ → ℕ × File) where
  abbrev pub Outcome : Type 0
  Outcome = Option (Option ℕ × FreeMap File)

  -- The outcomes of free_map_allocate. The first free group is taken if the map can be written;
  -- if it cannot, or if there is no group, no bit changes.
  pub data Allocated (cnt : ℕ) (m : FreeMap File) (r : Outcome) : Type 0 where
    granted :
        (s : ℕ) (m' : FreeMap File)
        → IsFirst m.free_map 0 cnt false s
        → Assigned s (s + cnt) true m.free_map m'.free_map
        → store write_at m'.free_map m.free_map_file ≡ (true, m'.free_map_file)
        → r ≡ some (some s, m')
        → Allocated cnt m r
    unwritten :
        (m' : FreeMap File) (s : ℕ) (map : Bitmap)
        → Assigned s (s + cnt) true m.free_map map
        → store write_at map m.free_map_file ≡ (false, m'.free_map_file)
        → SameBits m.free_map m'.free_map
        → r ≡ some (none, m')
        → Allocated cnt m r
    full : NoGroup m.free_map 0 cnt false → r ≡ some (none, m) → Allocated cnt m r

  keep-Allocated :
      (cnt s : ℕ) (m : FreeMap File) (map : Bitmap) (done : Bool) (file : Option File)
      → IsFirst m.free_map 0 cnt false s
      → Assigned s (s + cnt) true m.free_map map
      → store write_at map m.free_map_file ≡ (done, file)
      → Allocated cnt m (keep write_at cnt s map (done, file))
  unfolding keep
  keep-Allocated cnt s m map true file first a e =
      granted s (record { free_map = map; free_map_file = file }) first a e refl
  keep-Allocated cnt s m map false file first a e =
      let fits : s + cnt ≤ map.bit_cnt = omega (arith, first.inside, a.same_cnt) in
      let (map', em, am) = set_multiple-Assigned map s cnt false a.valid fits in
      unwritten (record { free_map = map'; free_map_file = file }) s map a e
        (undo-SameBits s cnt first.group a am) (rw em refl)

  -- On a valid map free_map_allocate ends in one of three ways: it sets the bits of the first free group
  -- of `cnt` sectors and returns its first sector, once the map is stored; it returns false with every
  -- bit as it was, when the map could not be stored; or it returns false and changes nothing, when there
  -- is no such group.
  pub allocate-Allocated :
      (cnt : ℕ) (m : FreeMap File) → IsValid m.free_map → Allocated cnt m (allocate write_at cnt m)
  unfolding allocate
  allocate-Allocated cnt m v = elim (scan_and_flip-Flipped m.free_map 0 cnt false v (omega arith)) [
    | taken i map first a r ↦
        let ne : i ≢ bitmap_error = omega (arith, first.inside, v.small) in
        rw (r, ==_ne _ _ ne) (keep-Allocated cnt i m map _ _ first a refl)
    | refused lacking r ↦ rw r (full lacking refl)
  ]

  -- With a valid map and an open map file, free_map_release of sectors that are on the device and all in
  -- use returns a map in which exactly their bits are cleared.
  pub release-Assigned :
      (sector cnt : ℕ) (m : FreeMap File) (file : File)
      → IsValid m.free_map
      → sector + cnt ≤ m.free_map.bit_cnt
      → IsGroup m.free_map sector cnt true
      → m.free_map_file ≡ some file
      → (m' : FreeMap File) × (release write_at sector cnt m ≡ some m')
        × Assigned sector (sector + cnt) false m.free_map m'.free_map
  unfolding release Bitmap.all
  release-Assigned sector cnt m file v fits g e =
      let (map, em, am) = set_multiple-Assigned m.free_map sector cnt false v fits in
      elim (contains-Searched m.free_map sector cnt false v fits) [
        | found (k, hk, at) r ↦ absurd (false≢true (sym at ∙ g k hk))
        | absent g' r ↦ (
          record { free_map = map; free_map_file = some (Bitmap.write write_at map file).1 },
          rw (r, em, e) refl,
          am,
        )
      ]

  -- With a valid map, free_map_release of a range on the device with a free sector in it panics.
  pub release-panic :
      (sector cnt k : ℕ) (m : FreeMap File)
      → IsValid m.free_map
      → sector + cnt ≤ m.free_map.bit_cnt
      → k < cnt
      → bit m.free_map (sector + k) ≡ false
      → release write_at sector cnt m ≡ none
  unfolding release Bitmap.all
  release-panic sector cnt k m v fits hk at =
      elim (contains-Searched m.free_map sector cnt false v fits) [
        | found o r ↦ rw r refl
        | absent g r ↦ absurd (false≢true (sym at ∙ g k hk))
      ]
