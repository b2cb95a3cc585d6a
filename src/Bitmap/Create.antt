-- ===== src/Bitmap/Create.antt =====
-- Making a bitmap, and keeping it in a file.
use cs439_pcs.Base.{ℕ, ◌+◌, ◌<◌, word_mod}
use cs439_pcs.Base.{true, false, some, List}
use cs439_pcs.Base.{◌≡◌, refl, arith}
use cs439_pcs.Base.{length, get_or}
use cs439_pcs.Bitmap.{Bitmap, set_all, create, elem_cnt}
use cs439_pcs.Bitmap.Single.{bit, IsValid}
use cs439_pcs.Bitmap.Range.{set_multiple-Assigned}

-- The elements that malloc returned: enough of them, each a word.
pub record Storage (bit_cnt : ℕ) (old : List ℕ) : Type 0 where
  pub room : length old ≡ elem_cnt bit_cnt
  pub words : (j : ℕ) → get_or old j 0 < word_mod

abbrev pub IsClear : ℕ → Bitmap → Type 0
IsClear bit_cnt b = (j : ℕ) → j < bit_cnt → bit b j ≡ false

raw-IsValid :
    (bit_cnt : ℕ) (old : List ℕ)
    → bit_cnt + 31 < word_mod
    → Storage bit_cnt old
    → IsValid (record { bit_cnt = bit_cnt; bits = old })
raw-IsValid bit_cnt old h s = record { small = h; stored = omega (arith, s.room); words = s.words }

set_all-IsClear :
    (bit_cnt : ℕ) (old : List ℕ)
    → bit_cnt + 31 < word_mod
    → Storage bit_cnt old
    → (b : Bitmap) × (set_all (record { bit_cnt = bit_cnt; bits = old }) false ≡ some b)
      × IsValid b
      × (b.bit_cnt ≡ bit_cnt)
      × IsClear bit_cnt b
unfolding set_all
set_all-IsClear bit_cnt old h s =
    let raw : Bitmap = record { bit_cnt = bit_cnt; bits = old } in
    let (b, e, a) =
      set_multiple-Assigned raw 0 bit_cnt false (raw-IsValid bit_cnt old h s) (omega arith) in
    (b, e, a.valid, a.same_cnt, λ j q. ground (arith, a.bits j))

-- When both blocks of memory are granted, the second as large as asked for, bitmap_create returns a
-- valid bitmap of the size asked for, with every bit false whatever the memory held. The size plus 31
-- fits 32 bits.
pub create-IsClear :
    (bit_cnt : ℕ) (old : List ℕ)
    → bit_cnt + 31 < word_mod
    → Storage bit_cnt old
    → (b : Bitmap) × (create bit_cnt true (some old) ≡ some (some b))
      × IsValid b
      × (b.bit_cnt ≡ bit_cnt)
      × IsClear bit_cnt b
unfolding create
create-IsClear bit_cnt old h s =
    let (b, e, v, c, z) = set_all-IsClear bit_cnt old h s in (b, rw e refl, v, c, z)
