-- ===== src/Bitmap/Tests.antt =====
-- Bitmaps run on small inputs, and the theorems at inputs that meet their hypotheses.
use cs439_pcs.Base.{ℕ, zero, suc, ◌-◌, ◌^◌, ◌<◌, word_mod}
use cs439_pcs.Base.{true, false, some, none, List, [], ◌∷◌, ◌≡◌, refl, arith, get_or}
use cs439_pcs.Bitmap.{Bitmap, elem_at, mark, reset, set_bit, test, set_loop, set_multiple}
use cs439_pcs.Bitmap.{
  count_loop, count, contains_loop, contains, scan_loop, scan, scan_and_flip, create,
}
use cs439_pcs.Bitmap.Single.{IsValid, Assigned}
use cs439_pcs.Bitmap.Range.{Searched, tally, set_multiple-Assigned, set_multiple-panic}
use cs439_pcs.Bitmap.Range.{contains-Searched, count-eq-tally}
use cs439_pcs.Bitmap.Scan.{Flipped, scan_and_flip-Flipped}
use cs439_pcs.Bitmap.Create.{IsClear, create-IsClear}

-- Bits 0, 1, 2, 4 and 33 of 40.
abbrev sample : Bitmap
sample = record { bit_cnt = 40; bits = 0b10111 ∷ 2 ∷ [] }

sample-words : (j : ℕ) → elem_at sample j < word_mod
sample-words zero = omega arith
sample-words (suc zero) = omega arith
sample-words (suc (suc j)) = omega arith

sample-IsValid : IsValid sample
sample-IsValid = record { small = omega arith; stored = omega arith; words = sample-words }

test_bits : (test sample 4 ≡ some true) × (test sample 3 ≡ some false) × (test sample 40 ≡ none)
unfolding test
test_bits = (refl, refl, refl)

scan_two : scan_and_flip sample 0 2 false ≡ some (5, record sample { bits = 0b1110111 ∷ 2 ∷ [] })
unfolding scan_and_flip scan scan_loop contains contains_loop test set_multiple set_loop set_bit
    mark reset
scan_two = refl

count_set : count sample 0 40 true ≡ some 5
unfolding count count_loop test
count_set = refl

set_multiple-Assigned_example :
    (b : Bitmap) × (set_multiple sample 30 5 true ≡ some b) × Assigned 30 35 true sample b
set_multiple-Assigned_example = set_multiple-Assigned sample 30 5 true sample-IsValid (omega arith)

-- 5 + (2 ^ 32 - 2) is 3 in 32 bits, which the assertion lets pass.
set_multiple-panic_example : set_multiple sample 5 (2 ^ 32 - 2) true ≡ none
set_multiple-panic_example =
    set_multiple-panic sample 5 (2 ^ 32 - 2) true sample-IsValid (omega arith)

contains-Searched_example : Searched sample 5 20 true (contains sample 5 20 true)
contains-Searched_example = contains-Searched sample 5 20 true sample-IsValid (omega arith)

count-eq-tally_example : count sample 0 40 true ≡ some (tally sample 0 40 true)
count-eq-tally_example = count-eq-tally sample 0 40 true sample-IsValid (omega arith)

scan_and_flip-Flipped_example : Flipped sample 0 2 false (scan_and_flip sample 0 2 false)
scan_and_flip-Flipped_example = scan_and_flip-Flipped sample 0 2 false sample-IsValid (omega arith)

abbrev garbage : List ℕ
garbage = 7 ∷ 2 ^ 31 ∷ []

garbage-words : (j : ℕ) → get_or garbage j 0 < word_mod
garbage-words zero = omega arith
garbage-words (suc zero) = omega arith
garbage-words (suc (suc j)) = omega arith

create-IsClear_example :
    (b : Bitmap) × (create 40 true (some garbage) ≡ some (some b))
    × IsValid b
    × (b.bit_cnt ≡ 40)
    × IsClear 40 b
create-IsClear_example =
    create-IsClear 40 garbage (omega arith) (record { room = omega arith; words = garbage-words })
