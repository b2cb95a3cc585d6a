-- ===== src/FreeMap.antt =====
-- filesys/free-map.c: which sectors of the file system device are in use. The file that the map is
-- kept in is whatever file_read_at and file_write_at act on. `none` is a panic of the kernel.
pub mod Laws
pub mod Count
pub mod Tests
use cs439_pcs.Base.{ℕ, Bool, true, false, not, Option, none, some, List, ◌>>=◌, ◌>>◌, assert}
use cs439_pcs.Base.{◌==◌, if◌then◌else◌}
use cs439_pcs.Bitmap
use cs439_pcs.Bitmap.{Bitmap, bitmap_error}

-- FREE_MAP_SECTOR and ROOT_DIR_SECTOR
abbrev pub free_map_sector : ℕ
free_map_sector = 0

abbrev pub root_dir_sector : ℕ
root_dir_sector = 1

-- The two static variables. The file is null until free_map_open or free_map_create.
pub record FreeMap (File : Type 0) : Type 0 where
  pub free_map : Bitmap
  pub free_map_file : Option File

-- The arguments after the number of sectors are what malloc returns in bitmap_create.
unfoldable pub init : {File : Type 0} → ℕ → Bool → Option (List ℕ) → Option (FreeMap File)
init sectors got storage = do
  created ← Bitmap.create sectors got storage
  b ← created
  some (record {
    free_map = Bitmap.mark (Bitmap.mark b free_map_sector) root_dir_sector;
    free_map_file = none;
  })

module _ {File : Type 0} (write_at : File → List ℕ → ℕ → ℕ → ℕ × File) where
  -- bitmap_write on the map's file, as far as there is one: whether it is stored, and the file.
  unfoldable pub store : Bitmap → Option File → Bool × Option File
  store map none = (true, none)
  store map (some file) = let (done, file') = Bitmap.write write_at map file in (done, some file')

  -- What free_map_allocate does with the sector that was found: the map was flipped, and is
  -- restored when it cannot be written.
  unfoldable pub keep : ℕ → ℕ → Bitmap → Bool × Option File → Option (Option ℕ × FreeMap File)
  keep cnt sector map (true, file) =
      some (some sector, record { free_map = map; free_map_file = file })
  keep cnt sector map (false, file) = do
    map' ← Bitmap.set_multiple map sector cnt false
    some (none, record { free_map = map'; free_map_file = file })

  -- The option in the result is the sector stored through `sectorp`, `none` where it returns false.
  unfoldable pub allocate : ℕ → FreeMap File → Option (Option ℕ × FreeMap File)
  unfolding keep store
  allocate cnt m = do
    found ← Bitmap.scan_and_flip m.free_map 0 cnt false
    let (sector, map) = found
    if sector == bitmap_error
        then some (none, record m { free_map = map })
        else keep cnt sector map (store map m.free_map_file)

  -- The result of bitmap_write is not looked at. A null file is dereferenced.
  unfoldable pub release : ℕ → ℕ → FreeMap File → Option (FreeMap File)
  release sector cnt m = do
    used ← Bitmap.all m.free_map sector cnt
    assert used
    map ← Bitmap.set_multiple m.free_map sector cnt false
    file ← m.free_map_file
    some (record { free_map = map; free_map_file = some (Bitmap.write write_at map file).1 })

  -- free_map_create. `created` is the result of inode_create, `opened` that of file_open.
  unfoldable pub create : Bool → Option File → FreeMap File → Option (FreeMap File)
  create created opened m = do
    assert created
    file ← opened
    let (done, file') = Bitmap.write write_at m.free_map file
    assert done
    some (record m { free_map_file = some file' })

module _ {File : Type 0} (read_at : File → List ℕ → ℕ → ℕ → ℕ × List ℕ) where
  -- free_map_open
  unfoldable pub load : Option File → FreeMap File → Option (FreeMap File)
  load opened m = do
    file ← opened
    let (done, map) = Bitmap.read read_at m.free_map file
    assert done
    some (record { free_map = map; free_map_file = some file })
