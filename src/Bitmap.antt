-- ===== src/Bitmap.antt =====
-- lib/kernel/bitmap.c: an array of bits kept in 32-bit elements. The pointers that the source
-- asserts not to be null are values here. `none` is a failed ASSERT.
pub mod Single
pub mod Range
pub mod Scan
pub mod Create
pub mod Tests
use cs439_pcs.Base.{ℕ, zero, suc, ◌+◌, ◌-◌, ◌*◌, ◌/◌, ◌%◌, ◌^◌, bit_and, bit_or, bit_xor}
use cs439_pcs.Base.{Bool, true, false, not, Option, none, some, List, [], get_or, set, word_mod}
use cs439_pcs.Base.{ltb, leb, ◌==◌, same, if◌then◌else◌, assert, ◌>>=◌, ◌>>◌, add32, div_round_up}

pub record Bitmap : Type 0 where
  pub bit_cnt : ℕ
  pub bits : List ℕ

abbrev pub elem_bits : ℕ
elem_bits = 32

abbrev pub elem_idx : ℕ → ℕ
elem_idx bit_idx = bit_idx / elem_bits

-- 1 << (bit_idx % 32), which fits 32 bits.
abbrev pub bit_mask : ℕ → ℕ
bit_mask bit_idx = 2 ^ (bit_idx % elem_bits)

abbrev pub elem_cnt : ℕ → ℕ
elem_cnt bit_cnt = div_round_up bit_cnt elem_bits

abbrev pub byte_cnt : ℕ → ℕ
byte_cnt bit_cnt = 4 * elem_cnt bit_cnt % word_mod

unfoldable pub last_mask : Bitmap → ℕ
last_mask b =
    let last_bits = b.bit_cnt % elem_bits in
    if last_bits == 0 then word_mod - 1 else 2 ^ last_bits - 1

-- sizeof (struct bitmap) is 8.
abbrev pub buf_size : ℕ → ℕ
buf_size bit_cnt = add32 8 (byte_cnt bit_cnt)

abbrev pub size : Bitmap → ℕ
size b = b.bit_cnt

-- b->bits[idx]
abbrev pub elem_at : Bitmap → ℕ → ℕ
elem_at b idx = get_or b.bits idx 0

-- A write past the elements, which C leaves undefined, changes nothing here.
unfoldable pub mark : Bitmap → ℕ → Bitmap
mark b bit_idx =
    let idx = elem_idx bit_idx in
    let mask = bit_mask bit_idx in record b { bits = set b.bits idx (bit_or (elem_at b idx) mask) }

unfoldable pub reset : Bitmap → ℕ → Bitmap
reset b bit_idx =
    let idx = elem_idx bit_idx in
    let mask = bit_mask bit_idx in
    record b { bits = set b.bits idx (bit_and (elem_at b idx) (word_mod - 1 - mask)) }

unfoldable pub flip : Bitmap → ℕ → Bitmap
flip b bit_idx =
    let idx = elem_idx bit_idx in
    let mask = bit_mask bit_idx in record b { bits = set b.bits idx (bit_xor (elem_at b idx) mask) }

unfoldable pub set_bit : Bitmap → ℕ → Bool → Option Bitmap
set_bit b idx value = do
  assert (ltb idx b.bit_cnt)
  some (if value then mark b idx else reset b idx)

unfoldable pub test : Bitmap → ℕ → Option Bool
test b idx = do
  assert (ltb idx b.bit_cnt)
  some (not (bit_and (elem_at b (elem_idx idx)) (bit_mask idx) == 0))

-- The checks at the head of the functions on a range; `start + cnt` may wrap.
abbrev pub assert_range : Bitmap → ℕ → ℕ → Option (Unit {0})
assert_range b start cnt = assert (leb start b.bit_cnt) >> assert (leb (add32 start cnt) b.bit_cnt)

-- The loop of bitmap_set_multiple at index `i`, with a number of rounds left.
unfoldable pub set_loop : ℕ → Bitmap → ℕ → ℕ → Bool → Option Bitmap
set_loop zero b start i value = some b
set_loop (suc left) b start i value = do
  b' ← set_bit b (add32 start i) value
  set_loop left b' start (i + 1) value

unfoldable pub set_multiple : Bitmap → ℕ → ℕ → Bool → Option Bitmap
set_multiple b start cnt value = do assert_range b start cnt; set_loop cnt b start 0 value

unfoldable pub set_all : Bitmap → Bool → Option Bitmap
set_all b value = set_multiple b 0 (size b) value

unfoldable pub count_loop : ℕ → Bitmap → ℕ → ℕ → Bool → ℕ → Option ℕ
count_loop zero b start i value value_cnt = some value_cnt
count_loop (suc left) b start i value value_cnt = do
  t ← test b (add32 start i)
  count_loop left b start (i + 1) value (if same t value then value_cnt + 1 else value_cnt)

unfoldable pub count : Bitmap → ℕ → ℕ → Bool → Option ℕ
count b start cnt value = do assert_range b start cnt; count_loop cnt b start 0 value 0

unfoldable pub contains_loop : ℕ → Bitmap → ℕ → ℕ → Bool → Option Bool
contains_loop zero b start i value = some false
contains_loop (suc left) b start i value = do
  t ← test b (add32 start i)
  let rest = contains_loop left b start (i + 1) value
  if same t value then some true else rest

unfoldable pub contains : Bitmap → ℕ → ℕ → Bool → Option Bool
contains b start cnt value = do assert_range b start cnt; contains_loop cnt b start 0 value

unfoldable pub any : Bitmap → ℕ → ℕ → Option Bool
any b start cnt = contains b start cnt true

unfoldable pub none_set : Bitmap → ℕ → ℕ → Option Bool
none_set b start cnt = do c ← contains b start cnt true; some (not c)

unfoldable pub all : Bitmap → ℕ → ℕ → Option Bool
all b start cnt = do c ← contains b start cnt false; some (not c)

-- SIZE_MAX
abbrev pub bitmap_error : ℕ
bitmap_error = word_mod - 1

-- The loop of bitmap_scan from `i` on, with a number of rounds left.
unfoldable pub scan_loop : ℕ → Bitmap → ℕ → ℕ → Bool → Option ℕ
scan_loop zero b i cnt value = some bitmap_error
scan_loop (suc left) b i cnt value = do
  other ← contains b i cnt (not value)
  let rest = scan_loop left b (i + 1) cnt value
  if not other then some i else rest

unfoldable pub scan : Bitmap → ℕ → ℕ → Bool → Option ℕ
scan b start cnt value = do
  assert (leb start b.bit_cnt)
  let last = b.bit_cnt - cnt
  if leb cnt b.bit_cnt then scan_loop (last + 1 - start) b start cnt value else some bitmap_error

unfoldable pub scan_and_flip : Bitmap → ℕ → ℕ → Bool → Option (ℕ × Bitmap)
scan_and_flip b start cnt value = do
  idx ← scan b start cnt value
  let flipped = set_multiple b idx cnt (not value)
  if not (idx == bitmap_error) then (flipped >>= λ b'. some (idx, b')) else some (idx, b)

-- What malloc returns is an argument: whether the struct was allocated, and the old contents of
-- the elements, if they were. The outer option is a panic, the inner one the null pointer.
unfoldable pub create : ℕ → Bool → Option (List ℕ) → Option (Option Bitmap)
create bit_cnt false storage = some none
create bit_cnt true (some old) = do
  b ← set_all (record { bit_cnt = bit_cnt; bits = old }) false
  some (some b)
create bit_cnt true none = do
  b ← set_all (record { bit_cnt = bit_cnt; bits = [] }) false
  if bit_cnt == 0 then some (some b) else some none

-- `old` is what the block holds behind the struct.
unfoldable pub create_in_buf : ℕ → List ℕ → ℕ → Option Bitmap
create_in_buf bit_cnt old block_size = do
  assert (leb (buf_size bit_cnt) block_size)
  set_all (record { bit_cnt = bit_cnt; bits = old }) false

abbrev pub file_size : Bitmap → ℕ
file_size b = byte_cnt b.bit_cnt

-- The file is whatever file_read_at and file_write_at act on. They take the elements (for a read,
-- the old ones), a number of bytes and an offset, and return the bytes transferred.
module _ {File : Type 0} (read_at : File → List ℕ → ℕ → ℕ → ℕ × List ℕ) where
  unfoldable pub read : Bitmap → File → Bool × Bitmap
  unfolding last_mask
  read b file =
      let bytes = byte_cnt b.bit_cnt in
      let (got, elems) = read_at file b.bits bytes 0 in
      let last = elem_cnt b.bit_cnt - 1 in
      if ltb 0 b.bit_cnt
      then (
        got == bytes,
        record b { bits = set elems last (bit_and (get_or elems last 0) (last_mask b)) },
      )
      else (true, b)

module _ {File : Type 0} (write_at : File → List ℕ → ℕ → ℕ → ℕ × File) where
  unfoldable pub write : Bitmap → File → Bool × File
  write b file =
      let bytes = byte_cnt b.bit_cnt in
      let (put, file') = write_at file b.bits bytes 0 in (put == bytes, file')
