-- ===== src/Inode/Grow.antt =====
-- inode_grow and its helpers: sectors are allocated one by one and their numbers stored in the
-- pointers of the inode or of an index block.
pub mod Fresh
pub mod Fill
use cs439_pcs.Base.{ℕ, zero, suc, ◌+◌, ◌-◌, ◌*◌, ◌/◌, ◌%◌, ◌<◌, Bool, true, false, not, ◌&&◌}
use cs439_pcs.Base.{Option, none, some, List, ltb, ◌==◌, if◌then◌else◌, set, word_mod, sub32}
use cs439_pcs.Base.{◌>>=◌, ◌>>◌}
use cs439_pcs.Device.{
  Device, InodeDisk, Sector, index_block, read_index, block_write, zeros, sector_size,
}
use cs439_pcs.FreeMap
use cs439_pcs.FreeMap.{FreeMap}
use cs439_pcs.Inode.{index_block_size, first_lev_index, second_lev_index, error, bytes_to_sectors}
use cs439_pcs.Inode.{entry}

-- What an inode operation works on beside the inode: the free map, whose own file is kept beside
-- the device, and the device.
pub record Fs (File : Type 0) : Type 0 where
  pub map : FreeMap File
  pub dev : Device

-- How an allocation loop ends: the index reached, the sectors still wanted, the pointers.
pub record Filled (File : Type 0) : Type 0 where
  pub index : ℕ
  pub sectors : ℕ
  pub pointers : List ℕ
  pub fs : Fs File

-- How a function that grows an inode ends: the sectors still wanted (for inode_grow, the new
-- length), the inode's data, and the rest of the state.
pub record Grown (File : Type 0) : Type 0 where
  pub sectors : ℕ
  pub data_ : InodeDisk
  pub fs : Fs File

-- The pointer that free_map_allocate was given, after it returned.
abbrev pub store_pointer : Option ℕ → List ℕ → ℕ → List ℕ
store_pointer none pointers index = pointers
store_pointer (some s) pointers index = set pointers index s

-- `junk` is what a local index block holds before anything is stored in it.
module _ {File : Type 0} (write_at : File → List ℕ → ℕ → ℕ → ℕ × File)
    (junk : Fs File → List ℕ) where
  -- free_map_allocate (1, &pointers[index]). Its result is not looked at: where it fails the
  -- pointer keeps the value it had.
  unfoldable pub allocate_into : List ℕ → ℕ → Fs File → Option (List ℕ × Fs File)
  allocate_into pointers index fs = do
    r ← FreeMap.allocate write_at 1 fs.map
    let (got, map) = r
    some (store_pointer got pointers index, record fs { map = map })

  -- The body of the three allocation loops.
  unfoldable pub place : List ℕ → ℕ → Fs File → Option (List ℕ × Fs File)
  place pointers index fs = do
    r ← allocate_into pointers index fs
    let (stored, fs') = r
    dev ← block_write fs'.dev (entry stored index) zeros
    some (stored, record fs' { dev = dev })

  -- for (; index < limit && sectors != 0; index++, sectors--)
  unfoldable pub fill : ℕ → ℕ → ℕ → List ℕ → Fs File → Option (Filled File)
  fill limit zero index pointers fs =
      some (record { index = index; sectors = 0; pointers = pointers; fs = fs })
  fill limit (suc n) index pointers fs =
      let rest = place pointers index fs >>= λ r. fill limit n (index + 1) r.0 r.1 in
      if ltb index limit
      then rest
      else some (record { index = index; sectors = suc n; pointers = pointers; fs = fs })

  -- A null index allocates the block, whose contents are then what its memory held; any other
  -- reads it. The result is the block's entries and the pointers that hold its number.
  unfoldable pub open_block :
      Bool
      → List ℕ
      → ℕ
      → Fs File
      → Option (record { block : List ℕ; pointers : List ℕ; fs : Fs File })
  open_block fresh pointers index fs =
      let made = (do
        r ← allocate_into pointers index fs
        some (record { block = junk r.1; pointers = r.0; fs = r.1 })) in
      let old = (do
        block ← read_index fs.dev (entry pointers index)
        some (record { block = block; pointers = pointers; fs = fs })) in
      if fresh then made else old

  unfoldable pub first_indir_alloc : ℕ → InodeDisk → Fs File → Option (Grown File)
  first_indir_alloc sectors d fs = do
    o ← open_block (d.first_level_index == 0) d.ptr first_lev_index fs
    f ← fill index_block_size sectors d.first_level_index o.block o.fs
    dev ← block_write f.fs.dev (entry o.pointers first_lev_index) (index_block f.pointers)
    let d' = record d { ptr = o.pointers; first_level_index = f.index }
    let full = record d' { first_level_index = 0; direct_level_index = d.direct_level_index + 1 }
    some (record {
      sectors = f.sectors;
      data_ = if f.index == index_block_size then full else d';
      fs = record f.fs { dev = dev };
    })

  -- second_indir_alloc_deep, which works on the second block in memory.
  unfoldable pub second_indir_alloc_deep :
      ℕ → InodeDisk → List ℕ → Fs File → Option (Grown File × List ℕ)
  second_indir_alloc_deep sectors d second_block fs = do
    o ← open_block (d.second_level_index == 0) second_block d.first_level_index fs
    f ← fill index_block_size sectors d.second_level_index o.block o.fs
    dev ← block_write f.fs.dev (entry o.pointers d.first_level_index) (index_block f.pointers)
    let d' = record d { second_level_index = f.index }
    let full = record d { first_level_index = d.first_level_index + 1; second_level_index = 0 }
    some (
      record {
        sectors = f.sectors;
        data_ = if f.index == index_block_size then full else d';
        fs = record f.fs { dev = dev };
      },
      o.pointers,
    )

  -- The while loop of second_indir_alloc. Each round fills the rest of one block or uses up the
  -- sectors, so 129 rounds are enough.
  unfoldable pub deep_loop : ℕ → ℕ → InodeDisk → List ℕ → Fs File → Option (Grown File × List ℕ)
  deep_loop zero sectors d second_block fs = none
  deep_loop (suc fuel) sectors d second_block fs =
      let round =
        (second_indir_alloc_deep sectors d second_block fs >>= λ r. elim (r.0.sectors == 0) [
          | true ↦ some r
          | false ↦ deep_loop fuel r.0.sectors r.0.data_ r.1 r.0.fs
        ]) in
      if ltb d.first_level_index index_block_size
      then round
      else some (record { sectors = sectors; data_ = d; fs = fs }, second_block)

  unfoldable pub second_indir_alloc : ℕ → InodeDisk → Fs File → Option (Grown File)
  second_indir_alloc sectors d fs = do
    o ← open_block (d.first_level_index == 0 && d.second_level_index == 0) d.ptr second_lev_index fs
    r ← deep_loop 129 sectors (record d { ptr = o.pointers }) o.block o.fs
    let (g, second_block) = r
    dev ← block_write g.fs.dev (entry g.data_.ptr second_lev_index) (index_block second_block)
    some (record g { fs = record (g.fs) { dev = dev } })

  -- The end of inode_grow, from the test for the second level on.
  unfoldable pub grow_second : ℕ → Grown File → Option (Grown File)
  grow_second disk_length g =
      let finish = λ (r : Grown File).
        if r.sectors == error
        then record r { sectors = error }
        else record r { sectors = sub32 disk_length (r.sectors * sector_size % word_mod) } in
      let deeper = (second_indir_alloc g.sectors g.data_ g.fs >>= λ r. some (finish r)) in
      if g.data_.direct_level_index == second_lev_index
      then deeper
      else some (record g { sectors = sub32 disk_length (g.sectors * sector_size % word_mod) })

  -- The middle of inode_grow, from the test for the first level on.
  unfoldable pub grow_first : ℕ → Grown File → Option (Grown File)
  unfolding grow_second
  grow_first disk_length g =
      let deeper =
        (first_indir_alloc g.sectors g.data_ g.fs >>= λ r.
        if r.sectors == error
        then some (record r { sectors = error })
        else if r.sectors == 0
        then some (record r { sectors = disk_length })
        else grow_second disk_length r) in
      if g.data_.direct_level_index == first_lev_index then deeper else grow_second disk_length g

  -- `sectors` of the result is the value returned, a length in bytes.
  unfoldable pub inode_grow : ℕ → InodeDisk → Fs File → Option (Grown File)
  unfolding grow_first
  inode_grow disk_length d fs =
      let sectors = sub32 (bytes_to_sectors disk_length) (bytes_to_sectors d.length) in
      let go =
        (fill first_lev_index sectors d.direct_level_index d.ptr fs >>= λ f.
        let d' = record d { ptr = f.pointers; direct_level_index = f.index } in
        if f.sectors == 0
        then some (record { sectors = disk_length; data_ = d'; fs = f.fs })
        else grow_first disk_length (record { sectors = f.sectors; data_ = d'; fs = f.fs })) in
      if sectors == 0 then some (record { sectors = disk_length; data_ = d; fs = fs }) else go
