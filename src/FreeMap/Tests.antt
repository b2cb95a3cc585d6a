-- ===== src/FreeMap/Tests.antt =====
-- Free maps on a small device, and the theorems at inputs that meet their hypotheses.
use cs439_pcs.Base.{ℕ, zero, suc, ◌<◌, word_mod, true, false, some, none, List, [], ◌∷◌}
use cs439_pcs.Base.{◌≡◌, refl, arith}
use cs439_pcs.Bitmap.{
  Bitmap, elem_at, scan_and_flip, scan, scan_loop, contains, contains_loop, test,
}
use cs439_pcs.Bitmap.{set_multiple, set_loop, set_bit, mark, reset}
use cs439_pcs.Bitmap.Range.{IsGroup}
use cs439_pcs.Bitmap.Single.{IsValid, Assigned, bit}
use cs439_pcs.Bits.{digit}
use cs439_pcs.FreeMap.{FreeMap, store, allocate, release}
use cs439_pcs.FreeMap.Laws.{Allocated, allocate-Allocated, release-Assigned, release-panic}
use cs439_pcs.FreeMap.Count.{free_cnt, Took, Stores, allocate-Took}
use cs439_pcs.Bitmap.{byte_cnt}
use cs439_pcs.Bitmap.Range.{tally}
use cs439_pcs.Base.{==_self}

abbrev write_all : List ℕ → List ℕ → ℕ → ℕ → ℕ × List ℕ
write_all elems new size ofs = (size, new)

abbrev write_none : List ℕ → List ℕ → ℕ → ℕ → ℕ × List ℕ
write_none elems new size ofs = (0, elems)

-- Sectors 0 to 2 and 4 are taken.
abbrev bits : Bitmap
bits = record { bit_cnt = 32; bits = 0b10111 ∷ [] }

abbrev full_map : FreeMap (List ℕ)
full_map = record { free_map = bits; free_map_file = some [] }

bits-words : (j : ℕ) → elem_at bits j < word_mod
bits-words zero = omega arith
bits-words (suc j) = omega arith

bits-IsValid : IsValid bits
bits-IsValid = record { small = omega arith; stored = omega arith; words = bits-words }

allocate_two :
    allocate write_all 2 full_map
    ≡ some (
      some 5,
      record {
        free_map = record bits { bits = 0b1110111 ∷ [] };
        free_map_file = some (0b1110111 ∷ []);
      },
    )
unfolding allocate scan_and_flip scan scan_loop contains contains_loop test set_multiple set_loop
    set_bit mark reset cs439_pcs.Bitmap.write
allocate_two = refl

-- Where the map cannot be written the sectors are given back.
allocate_unwritten : allocate write_none 2 full_map ≡ some (none, full_map)
unfolding allocate scan_and_flip scan scan_loop contains contains_loop test set_multiple set_loop
    set_bit mark reset cs439_pcs.Bitmap.write
allocate_unwritten = refl

allocate-Allocated_example : Allocated write_all 2 full_map (allocate write_all 2 full_map)
allocate-Allocated_example = allocate-Allocated write_all 2 full_map bits-IsValid

taken : IsGroup bits 1 2 true
unfolding bit digit
taken zero h = refl
taken (suc zero) h = refl
taken (suc (suc k)) h = absurd (omega arith)

release-Assigned_example :
    (m' : FreeMap (List ℕ)) × (release write_all 1 2 full_map ≡ some m')
    × Assigned 1 3 false bits m'.free_map
release-Assigned_example =
    release-Assigned write_all 1 2 full_map [] bits-IsValid (omega arith) taken refl

free_there : bit bits 3 ≡ false
unfolding bit digit
free_there = refl

release-panic_example : release write_all 2 3 full_map ≡ none
release-panic_example =
    release-panic write_all 2 3 1 full_map bits-IsValid (omega arith) (omega arith) free_there

write_all-stores : Stores write_all
unfolding store cs439_pcs.Bitmap.write
write_all-stores map none = refl
write_all-stores map (some file) = ==_self (byte_cnt map.bit_cnt)

free_there_cnt : free_cnt bits ≡ 28
unfolding free_cnt tally bit digit
free_there_cnt = refl

allocate-Took_example :
    (s : ℕ) × (m' : FreeMap (List ℕ)) × (allocate write_all 1 full_map ≡ some (some s, m'))
    × Took bits m'.free_map s
allocate-Took_example =
    allocate-Took write_all full_map write_all-stores bits-IsValid (omega (arith, free_there_cnt))
