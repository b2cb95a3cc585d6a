-- ===== src/Inode/Table.antt =====
-- The list of open inodes: inode_open, inode_reopen, inode_close and the counts that they keep. An
-- inode in memory is known by its address; malloc's answer, an address or null, is an argument.
pub mod Laws
pub mod Steps
pub mod Tests
use cs439_pcs.Base.{ℕ, suc, ◌+◌, ◌-◌, Bool, true, false, Option, none, some, List, [], ◌∷◌}
use cs439_pcs.Base.{leb, ltb, ◌==◌, if◌then◌else◌, assert, ◌>>=◌, ◌>>◌}
use cs439_pcs.Device.{Device, InodeDisk, inode_disk, block_write, read_inode}
use cs439_pcs.FreeMap
use cs439_pcs.Inode.Grow.{Fs}
use cs439_pcs.Inode.Dealloc.{inode_deallocate}

-- struct inode, less its list element, its lock and `length`, which is not used.
pub record Inode : Type 0 where
  pub open_cnt : ℕ
  pub deny_write_cnt : ℕ
  pub removed : Bool
  pub sector : ℕ
  pub data_ : InodeDisk

-- An open inode with its address.
pub record Entry : Type 0 where
  pub address : ℕ
  pub inode : Inode

-- The list of open inodes beside the free map and the device.
pub record System (File : Type 0) : Type 0 where
  pub open_inodes : List Entry
  pub fs : Fs File

-- The inode that a pointer refers to; none for a pointer to freed memory.
unfoldable pub deref : List Entry → ℕ → Option Inode
deref [] p = none
deref (e ∷ es) p = if e.address == p then some e.inode else deref es p

-- A store through a pointer.
unfoldable pub assign : List Entry → ℕ → Inode → List Entry
assign [] p i = []
assign (e ∷ es) p i = if e.address == p then record e { inode = i } ∷ es else e ∷ assign es p i

-- list_remove (&inode->elem)
unfoldable pub remove : List Entry → ℕ → List Entry
remove [] p = []
remove (e ∷ es) p = if e.address == p then es else e ∷ remove es p

-- The loop of inode_open.
unfoldable pub find_open : List Entry → ℕ → Option ℕ
find_open [] sector = none
find_open (e ∷ es) sector = if e.inode.sector == sector then some e.address else find_open es sector

module _ {File : Type 0} where
  -- inode_init
  abbrev pub inode_init : Fs File → System File
  inode_init fs = record { open_inodes = []; fs = fs }

  -- A change of the inode that a pointer refers to.
  unfoldable pub change : (Inode → Option Inode) → ℕ → System File → Option (System File)
  change f p s = do
    i ← deref s.open_inodes p
    i' ← f i
    some (record s { open_inodes = assign s.open_inodes p i' })

  -- inode_reopen, for a pointer that is not null.
  unfoldable pub inode_reopen : ℕ → System File → Option (System File)
  unfolding change
  inode_reopen p s = change (λ i. some (record i { open_cnt = i.open_cnt + 1 })) p s

  -- A new inode, put at the front of the list.
  unfoldable pub open_new : ℕ → ℕ → System File → Option (Option ℕ × System File)
  open_new sector p s = do
    d ← read_inode s.fs.dev sector
    some (
      some p,
      record s {
        open_inodes =
            record {
              address = p;
              inode = record {
                open_cnt = 1;
                deny_write_cnt = 0;
                removed = false;
                sector = sector;
                data_ = d;
              };
            }
            ∷ s.open_inodes;
      },
    )

  -- The inner option of the result is the pointer returned.
  unfoldable pub inode_open : ℕ → Option ℕ → System File → Option (Option ℕ × System File)
  unfolding inode_reopen open_new
  inode_open sector got s = elim (find_open s.open_inodes sector) [
    | some p ↦ inode_reopen p s >>= λ s'. some (some p, s')
    | none ↦ elim got [ none ↦ some (none, s) | some p ↦ open_new sector p s ]
  ]

  unfoldable pub inode_remove : ℕ → System File → Option (System File)
  inode_remove p s = change (λ i. some (record i { removed = true })) p s

  unfoldable pub inode_deny_write : ℕ → System File → Option (System File)
  inode_deny_write p s =
      change
        (λ i.
          assert (leb (i.deny_write_cnt + 1) i.open_cnt)
          >> some (record i { deny_write_cnt = i.deny_write_cnt + 1 }))
        p s

  unfoldable pub inode_allow_write : ℕ → System File → Option (System File)
  inode_allow_write p s =
      change
        (λ i.
          assert (ltb 0 i.deny_write_cnt)
          >> (assert (leb i.deny_write_cnt i.open_cnt)
              >> some (record i { deny_write_cnt = i.deny_write_cnt - 1 })))
        p s

  unfoldable pub inode_get_inumber : ℕ → System File → Option ℕ
  inode_get_inumber p s = deref s.open_inodes p >>= λ i. some i.sector

  unfoldable pub inode_length : ℕ → System File → Option ℕ
  inode_length p s = deref s.open_inodes p >>= λ i. some i.data_.length

module _ {File : Type 0} (write_at : File → List ℕ → ℕ → ℕ → ℕ × File) where
  -- What the last opener does: the sectors of a removed inode are released, the data of another
  -- one is written back.
  unfoldable pub retire : Inode → Fs File → Option (Fs File)
  retire i fs =
      let released =
        (FreeMap.release write_at i.sector 1 fs.map >>= λ m.
        inode_deallocate write_at i.data_ fs.dev m >>= λ m'. some (record fs { map = m' })) in
      let written =
        (block_write fs.dev i.sector (inode_disk i.data_) >>= λ dev.
        some (record fs { dev = dev })) in
      if i.removed then released else written

  -- inode_close, for a pointer that is not null. The count is 0 after the decrement where it was 1;
  -- that of an open inode is positive.
  unfoldable pub inode_close : ℕ → System File → Option (System File)
  unfolding retire
  inode_close p s = do
    i ← deref s.open_inodes p
    let i' = record i { open_cnt = i.open_cnt - 1 }
    let last =
        (retire i' s.fs >>= λ fs. some (record { open_inodes = remove s.open_inodes p; fs = fs }))
    let others = some (record s { open_inodes = assign s.open_inodes p i' })
    if i.open_cnt == 1 then last else others
