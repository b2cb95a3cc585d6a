-- ===== src/Inode/Dealloc.antt =====
-- inode_deallocate and its helpers: the sectors of a removed file go back to the free map.
use cs439_pcs.Base.{ℕ, zero, suc, ◌+◌, Option, some, List}
use cs439_pcs.Base.{◌==◌, if◌then◌else◌, sub32, ◌>>=◌}
use cs439_pcs.Device.{Device, InodeDisk, read_index}
use cs439_pcs.FreeMap
use cs439_pcs.FreeMap.{FreeMap}
use cs439_pcs.Inode.{index_block_size, first_lev_index, second_lev_index, bytes_to_sectors, entry}

module _ {File : Type 0} (write_at : File → List ℕ → ℕ → ℕ → ℕ × File) where
  -- The loop that releases pointers[index], pointers[index + 1], … until `size` is used up or the
  -- pointers left are.
  unfoldable pub release_loop : ℕ → ℕ → ℕ → List ℕ → FreeMap File → Option (ℕ × FreeMap File)
  release_loop zero index size pointers m = some (size, m)
  release_loop (suc left) index size pointers m = do
    m' ← FreeMap.release write_at (entry pointers index) 1 m
    let size' = sub32 size 1
    let rest = release_loop left (index + 1) size' pointers m'
    if size' == 0 then some (size', m') else rest

  unfoldable pub first_level_dealloc :
      ℕ → InodeDisk → Device → FreeMap File → Option (ℕ × FreeMap File)
  unfolding release_loop
  first_level_dealloc size d dev m = do
    block ← read_index dev (entry d.ptr first_lev_index)
    release_loop index_block_size 0 size block m

  unfoldable pub second_level_dealloc_deep :
      ℕ → ℕ → List ℕ → Device → FreeMap File → Option (ℕ × FreeMap File)
  unfolding release_loop
  second_level_dealloc_deep size index second_block dev m = do
    first_block ← read_index dev (entry second_block index)
    release_loop index_block_size 0 size first_block m

  unfoldable pub second_loop :
      ℕ → ℕ → ℕ → List ℕ → Device → FreeMap File → Option (ℕ × FreeMap File)
  unfolding second_level_dealloc_deep
  second_loop zero index size second_block dev m = some (size, m)
  second_loop (suc left) index size second_block dev m = do
    r ← second_level_dealloc_deep size index second_block dev m
    let rest = second_loop left (index + 1) r.0 second_block dev r.1
    if r.0 == 0 then some r else rest

  -- Where the loop runs out the function ends without a return; its caller drops the value.
  unfoldable pub second_level_dealloc :
      ℕ → InodeDisk → Device → FreeMap File → Option (ℕ × FreeMap File)
  unfolding second_loop
  second_level_dealloc size d dev m = do
    second_block ← read_index dev (entry d.ptr second_lev_index)
    second_loop index_block_size 0 size second_block dev m

  -- The end of inode_deallocate, behind the direct pointers.
  unfoldable pub dealloc_indirect : ℕ → InodeDisk → Device → FreeMap File → Option (FreeMap File)
  unfolding first_level_dealloc second_level_dealloc
  dealloc_indirect size d dev m = do
    r ← first_level_dealloc size d dev m
    m' ← FreeMap.release write_at (entry d.ptr first_lev_index) 1 r.1
    let deeper = second_level_dealloc r.0 d dev m' >>= λ s.
        FreeMap.release write_at (entry d.ptr second_lev_index) 1 s.1
    if r.0 == 0 then some m' else deeper

  unfoldable pub inode_deallocate : InodeDisk → Device → FreeMap File → Option (FreeMap File)
  unfolding release_loop dealloc_indirect
  inode_deallocate d dev m =
      let size = bytes_to_sectors d.length in
      let go =
        (release_loop first_lev_index 0 size d.ptr m >>= λ r.
        if r.0 == 0 then some r.1 else dealloc_indirect r.0 d dev r.1) in
      if size == 0 then some m else go
