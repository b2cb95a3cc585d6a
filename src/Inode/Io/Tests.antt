-- ===== src/Inode/Io/Tests.antt =====
-- A file of 1000 bytes read, and written past its end.
use cs439_pcs.Base.{ℕ, ◌<◌, List, [], ◌∷◌, some, true, get_or, replicate, ◌≡◌, refl, arith}
use cs439_pcs.Bits.{digit}
use cs439_pcs.Bitmap.Single.{bit}
use cs439_pcs.Bitmap.Range.{tally}
use cs439_pcs.FreeMap.Count.{free_cnt}
use cs439_pcs.Device.{zeros}
use cs439_pcs.Inode.Slots.{file, place_of}
use cs439_pcs.Inode.Tests.{
  small_file, small_fs, small_file-Holds, write_all, write_all-Stores, junk,
}
use cs439_pcs.Inode.Io.{inode_read_at, inode_write_at, Wrote}
use cs439_pcs.Inode.Io.Content.{HasData, IsData, IsData-stored}
use cs439_pcs.Inode.Io.Read.{Reads, inode_read_at-Reads}
use cs439_pcs.Inode.Io.Extend.{Written, inode_write_at-Written, inode_read_at-inode_write_at}

small-IsData : (k : ℕ) → k < 2 → IsData small_fs.dev (place_of small_file small_fs.dev (file k))
unfolding zeros
small-IsData k h = IsData-stored small_fs.dev _ (replicate 512 0) refl refl

pub small-HasData : HasData small_file small_fs 2
small-HasData = record { holds = small_file-Holds; covers = omega arith; data_in = small-IsData }

inode_read_at-Reads_example :
    Reads small_file small_fs.dev 3 998 0
      (7 ∷ 8 ∷ 9 ∷ [])
      (inode_read_at small_file small_fs.dev true (7 ∷ 8 ∷ 9 ∷ []) 3 998)
inode_read_at-Reads_example = inode_read_at-Reads small-HasData (7 ∷ 8 ∷ 9 ∷ []) 3 998 (omega arith)

pub small_free : free_cnt small_fs.map.free_map ≡ 28
unfolding free_cnt tally bit digit
small_free = refl

-- Four bytes from 1022 on: two in the second sector, two in a third.
inode_write_at-Written_example :
    Written 4 1022
      (1 ∷ 2 ∷ 3 ∷ 4 ∷ [])
      2
      3
      small_file
      small_fs
      (inode_write_at write_all junk 0 small_file small_fs true (1 ∷ 2 ∷ 3 ∷ 4 ∷ []) 4 1022)
inode_write_at-Written_example =
    inode_write_at-Written write_all junk write_all-Stores (λ s. refl) 2 3 4 1022
      (1 ∷ 2 ∷ 3 ∷ 4 ∷ []) small_file small_fs small-HasData refl refl (omega arith) (omega arith)
      (omega (arith, small_free))

inode_read_at-inode_write_at_example :
    (w : Wrote (List ℕ)) × (after : List ℕ) × (inode_write_at write_all junk 0 small_file small_fs
        true
        (1 ∷ 2 ∷ 3 ∷ 4 ∷ [])
        4
        1022
      ≡ some w)
    × (inode_read_at w.data_ w.fs.dev true (replicate 4 0) 4 1022 ≡ some (4, after))
    × ((k : ℕ) → k < 4 → get_or after k 0 ≡ get_or (1 ∷ 2 ∷ 3 ∷ 4 ∷ []) k 0)
inode_read_at-inode_write_at_example =
    inode_read_at-inode_write_at write_all junk write_all-Stores (λ s. refl) 2 3 4 1022
      (1 ∷ 2 ∷ 3 ∷ 4 ∷ []) (replicate 4 0) small_file small_fs small-HasData refl refl (omega arith)
      (omega arith) (omega (arith, small_free)) (omega arith)
