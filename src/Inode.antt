-- ===== src/Inode.antt =====
-- filesys/inode.c: files as sectors reached through twelve pointers, ten direct ones, one to an
-- index block and one to an index block of index blocks.
pub mod Slots
pub mod Layout
pub mod Direct
pub mod Block
pub mod Single
pub mod Inner
pub mod Deep
pub mod Second
pub mod Levels
pub mod Growth
pub mod Grow
pub mod Dealloc
pub mod Io
pub mod Table
pub mod Tests
use cs439_pcs.Base.{
  ℕ, ◌+◌, ◌-◌, ◌*◌, ◌/◌, ◌%◌, Option, none, some, ltb, if◌then◌else◌, get_or, List,
}
use cs439_pcs.Base.{word_mod, div_round_up, ◌>>=◌}
use cs439_pcs.Device.{Device, InodeDisk, read_index, sector_size}

-- INDEX_BLOCK_SIZE, FIRST_LEV_INDEX, SECOND_LEV_INDEX
abbrev pub index_block_size : ℕ
index_block_size = 128

abbrev pub first_lev_index : ℕ
first_lev_index = 10

abbrev pub second_lev_index : ℕ
second_lev_index = 11

-- ERROR, -1, as a sector number or size_t.
abbrev pub error : ℕ
error = word_mod - 1

abbrev pub bytes_to_sectors : ℕ → ℕ
bytes_to_sectors size = div_round_up size sector_size

-- inode->data.ptr[i], and the entry `i` of an index block.
abbrev pub entry : List ℕ → ℕ → ℕ
entry pointers i = get_or pointers i 0

-- The part of byte_to_sector below the test against the length, for sector `pos` of the file. Past
-- the last index the function ends without a return.
unfoldable pub sector_at : InodeDisk → Device → ℕ → Option ℕ
sector_at d dev pos =
    let pos1 = pos - first_lev_index in
    let pos2 = pos1 - index_block_size in
    let single = (do
      block ← read_index dev (entry d.ptr first_lev_index)
      some (entry block pos1)) in
    let double = (do
      second_block ← read_index dev (entry d.ptr second_lev_index)
      block ← read_index dev (entry second_block (pos2 / index_block_size))
      some (entry block (pos2 % index_block_size))) in
    if ltb pos first_lev_index
    then some (entry d.ptr pos)
    else if ltb pos1 index_block_size
    then single
    else if ltb pos2 (index_block_size * index_block_size)
    then double
    else none

unfoldable pub byte_to_sector : InodeDisk → Device → ℕ → Option ℕ
byte_to_sector d dev pos =
    if ltb pos d.length then sector_at d dev (pos / sector_size) else some error
