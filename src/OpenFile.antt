-- ===== src/OpenFile.antt =====
-- filesys/file.c: open files, each with a position in an open inode. Null pointers that the source
-- asserts not to be there are values here; `none` is a failed ASSERT or a use of freed memory.
pub mod Deny
pub mod Tests
use cs439_pcs.Base.{ℕ, ◌+◌, Bool, true, false, Option, none, some, List, if◌then◌else◌, ◌>>=◌, ◌>>◌}
use cs439_pcs.Base.{ltb, assert}
use cs439_pcs.Inode.Grow.{Fs}
use cs439_pcs.Inode.Table
use cs439_pcs.Inode.Table.{
  Inode, System, deref, assign, inode_reopen, inode_close, inode_deny_write,
}
use cs439_pcs.Inode.Table.{inode_allow_write}
use cs439_pcs.Inode.Io.{inode_read_at, inode_write_at}

-- struct file
pub record OpenFile : Type 0 where
  pub inode : ℕ
  pub pos : ℕ
  pub deny_write : Bool

-- A position of type off_t is negative from 2 ^ 31 on.
unfoldable pub file_seek : OpenFile → ℕ → Option OpenFile
file_seek f new_pos = do assert (ltb new_pos 2147483648); some (record f { pos = new_pos })

abbrev pub file_tell : OpenFile → ℕ
file_tell f = f.pos

abbrev pub file_get_inode : OpenFile → ℕ
file_get_inode f = f.inode

module _ {File : Type 0} where
  unfoldable pub file_length : OpenFile → System File → Option ℕ
  file_length f s = Table.inode_length f.inode s

  unfoldable pub file_deny_write : OpenFile → System File → Option (OpenFile × System File)
  file_deny_write f s =
      let denied =
        (inode_deny_write f.inode s >>= λ s'. some (record f { deny_write = true }, s')) in
      if f.deny_write then some (f, s) else denied

  unfoldable pub file_allow_write : OpenFile → System File → Option (OpenFile × System File)
  file_allow_write f s =
      let allowed =
        (inode_allow_write f.inode s >>= λ s'. some (record f { deny_write = false }, s')) in
      if f.deny_write then allowed else some (f, s)

  -- `bounce` is as in inode_read_at. The result is the number of bytes read and the buffer.
  unfoldable pub file_read_at : Bool → OpenFile → System File → List ℕ → ℕ → ℕ → Option (ℕ × List ℕ)
  file_read_at bounce f s buffer size file_ofs = do
    i ← deref s.open_inodes f.inode
    inode_read_at i.data_ s.fs.dev bounce buffer size file_ofs

  unfoldable pub file_read :
      Bool → OpenFile → System File → List ℕ → ℕ → Option (ℕ × List ℕ × OpenFile)
  unfolding file_read_at
  file_read bounce f s buffer size = do
    r ← file_read_at bounce f s buffer size f.pos
    some (r.0, r.1, record f { pos = f.pos + r.0 })

module _ {File : Type 0} (write_at : File → List ℕ → ℕ → ℕ → ℕ × File)
    (junk : Fs File → List ℕ) where
  -- The inode in memory takes the data that the write leaves.
  unfoldable pub file_write_at :
      Bool → OpenFile → System File → List ℕ → ℕ → ℕ → Option (ℕ × System File)
  file_write_at bounce f s buffer size file_ofs = do
    i ← deref s.open_inodes f.inode
    w ← inode_write_at write_at junk i.deny_write_cnt i.data_ s.fs bounce buffer size file_ofs
    some (
      w.cnt,
      record {
        open_inodes = assign s.open_inodes f.inode (record i { data_ = w.data_ });
        fs = w.fs;
      },
    )

  unfoldable pub file_write :
      Bool → OpenFile → System File → List ℕ → ℕ → Option (ℕ × OpenFile × System File)
  unfolding file_write_at
  file_write bounce f s buffer size = do
    r ← file_write_at bounce f s buffer size f.pos
    some (r.0, record f { pos = f.pos + r.0 }, r.1)

  -- The arguments are the inode, null or not, and whether calloc grants the structure. An inode
  -- that no structure is granted for is closed.
  unfoldable pub file_open : Option ℕ → Bool → System File → Option (Option OpenFile × System File)
  file_open none got s = some (none, s)
  file_open (some p) true s = some (some (record { inode = p; pos = 0; deny_write = false }), s)
  file_open (some p) false s = do s' ← inode_close write_at p s; some (none, s')

  unfoldable pub file_reopen :
      OpenFile → Bool → System File → Option (Option OpenFile × System File)
  unfolding file_open
  file_reopen f got s = do s' ← inode_reopen f.inode s; file_open (some f.inode) got s'

  unfoldable pub file_close : Option OpenFile → System File → Option (System File)
  file_close none s = some s
  file_close (some f) s = do r ← file_allow_write f s; inode_close write_at f.inode r.1
