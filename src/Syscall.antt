-- ===== src/Syscall.antt =====
-- userprog/syscall.c: the files of a process by their descriptors, and the system calls on them. An
-- int that is ERROR is `none` in a result; an outer `none` is a fault or a failed ASSERT. What
-- filesys/filesys.c and filesys/directory.c do, which the repository does not have, is a parameter.
pub mod Table
pub mod Steps
pub mod Opening
pub mod Transfer
pub mod Closing
pub mod Tests
use cs439_pcs.Base.{
  ℕ, zero, suc, ◌+◌, Bool, true, false, not, Option, none, some, List, [], ◌∷◌, ◌++◌,
}
use cs439_pcs.Base.{◌==◌, if◌then◌else◌, take, assert, ◌>>=◌, ◌>>◌}
use cs439_pcs.Inode.Grow.{Fs}
use cs439_pcs.Inode.Table.{System, deref, inode_get_inumber}
use cs439_pcs.OpenFile.{
  OpenFile, file_length, file_read, file_write, file_seek, file_tell, file_close,
}

-- struct file_process. malloc does not clear it, so the member that is not set holds anything.
pub record FileProcess (Dir : Type 0) : Type 0 where
  pub file : OpenFile
  pub dir : Dir
  pub fd : ℕ
  pub is_dir : Bool

-- The members `fd` and `file_list` of struct thread.
pub record Process (Dir : Type 0) : Type 0 where
  pub fd : ℕ
  pub file_list : List (FileProcess Dir)

-- The running process beside the open inodes and the bytes put on the console.
pub record Session (File Dir : Type 0) : Type 0 where
  pub process : Process Dir
  pub system : System File
  pub console : List ℕ

abbrev pub stdin_fileno : ℕ
stdin_fileno = 0

abbrev pub stdout_fileno : ℕ
stdout_fileno = 1

module _ {Dir : Type 0} where
  -- The loop of get_file.
  unfoldable pub find_fd : List (FileProcess Dir) → ℕ → Option (FileProcess Dir)
  find_fd [] cur_fd = none
  find_fd (fp ∷ fps) cur_fd = if fp.fd == cur_fd then some fp else find_fd fps cur_fd

  unfoldable pub get_file : Process Dir → ℕ → Option (FileProcess Dir)
  get_file p cur_fd = find_fd p.file_list cur_fd

  -- list_remove (&fp->file_elem), for the structure that get_file finds.
  unfoldable pub remove_fd : List (FileProcess Dir) → ℕ → List (FileProcess Dir)
  remove_fd [] cur_fd = []
  remove_fd (fp ∷ fps) cur_fd = if fp.fd == cur_fd then fps else fp ∷ remove_fd fps cur_fd

  -- *fp->file = f, for the structure that get_file finds.
  unfoldable pub store_file : List (FileProcess Dir) → ℕ → OpenFile → List (FileProcess Dir)
  store_file [] cur_fd f = []
  store_file (fp ∷ fps) cur_fd f =
      if fp.fd == cur_fd then record fp { file = f } ∷ fps else fp ∷ store_file fps cur_fd f

  -- `memory` is what malloc returned, with what it holds.
  unfoldable pub add_file :
      OpenFile → Option (FileProcess Dir) → Process Dir → Option ℕ × Process Dir
  add_file f none p = (none, p)
  add_file f (some memory) p =
      let fp = record memory { file = f; fd = p.fd; is_dir = false } in
      (some p.fd, record { fd = p.fd + 1; file_list = p.file_list ++ fp ∷ [] })

  unfoldable pub add_dir : Dir → Option (FileProcess Dir) → Process Dir → Option ℕ × Process Dir
  add_dir dir none p = (none, p)
  add_dir dir (some memory) p =
      let fp = record memory { dir = dir; fd = p.fd; is_dir = true } in
      (some p.fd, record { fd = p.fd + 1; file_list = p.file_list ++ fp ∷ [] })

  unfoldable pub sys_isdir : ℕ → Process Dir → Bool
  sys_isdir fd p = elim (get_file p fd) [ none ↦ false | some fp ↦ fp.is_dir ]

-- The loop of read on the keyboard; `input_getc` gives the keys in their order.
unfoldable pub read_keys : (ℕ → ℕ) → ℕ → ℕ → List ℕ → List ℕ
read_keys input_getc counter zero buffer = buffer
read_keys input_getc counter (suc left) [] = []
read_keys input_getc counter (suc left) (b ∷ buffer) =
    input_getc counter ∷ read_keys input_getc (counter + 1) left buffer

module _ {File Dir : Type 0} where
  -- `f` is what filesys_open returned. `as_dir` is the cast of a pointer to struct dir.
  unfoldable pub sys_open :
      (OpenFile → Dir)
      → Option OpenFile
      → Option (FileProcess Dir)
      → Session File Dir
      → Option (Option ℕ × Session File Dir)
  sys_open as_dir none memory x = some (none, x)
  sys_open as_dir (some f) memory x = do
    inode ← deref x.system.open_inodes f.inode
    let (result, p) =
        if inode.data_.sub_dir
        then add_dir (as_dir f) memory x.process
        else add_file f memory x.process
    some (result, record x { process = p })

  unfoldable pub sys_filesize : ℕ → Session File Dir → Option (Option ℕ)
  sys_filesize fd x = elim (get_file x.process fd) [
    | none ↦ some none
    | some fp ↦ file_length fp.file x.system >>= λ size. some (some size)
  ]

  -- The part of read behind get_file.
  unfoldable pub read_from :
      Bool
      → Option (FileProcess Dir)
      → List ℕ
      → ℕ
      → Session File Dir
      → Option (Option ℕ × List ℕ × Session File Dir)
  read_from bounce none buffer size x = some (none, buffer, x)
  read_from bounce (some fp) buffer size x = do
    r ← file_read bounce fp.file x.system buffer size
    let fps = store_file x.process.file_list fp.fd r.2
    some (some r.0, r.1, record x { process = record x.process { file_list = fps } })

  -- The result has the buffer beside the value returned.
  unfoldable pub sys_read :
      (ℕ → ℕ)
      → Bool
      → ℕ
      → List ℕ
      → ℕ
      → Session File Dir
      → Option (Option ℕ × List ℕ × Session File Dir)
  sys_read input_getc bounce fd buffer size x =
      if fd == stdin_fileno
      then some (some size, read_keys input_getc 0 size buffer, x)
      else read_from bounce (get_file x.process fd) buffer size x

  unfoldable pub sys_seek : ℕ → ℕ → Session File Dir → Option (Session File Dir)
  sys_seek fd position x = elim (get_file x.process fd) [
    | none ↦ none
    | some fp ↦
        let sought : Option (Session File Dir) =
          (file_seek fp.file position >>= λ f. some (record x {
            process = record x.process { file_list = store_file x.process.file_list fd f };
          })) in
        if fp.is_dir then some x else sought
  ]

  -- tell computes the position and returns nothing, so what the caller gets is `junk`.
  unfoldable pub sys_tell : ℕ → ℕ → Session File Dir → Option ℕ
  sys_tell junk fd x = elim (get_file x.process fd) [ none ↦ none | some fp ↦ some junk ]

module _ {File Dir : Type 0} (write_at : File → List ℕ → ℕ → ℕ → ℕ × File)
    (junk : Fs File → List ℕ) where
  -- The part of write behind get_file.
  unfoldable pub write_to :
      Bool
      → Option (FileProcess Dir)
      → List ℕ
      → ℕ
      → Session File Dir
      → Option (Option ℕ × Session File Dir)
  write_to bounce none buffer size x = some (none, x)
  write_to bounce (some fp) buffer size x =
      let written =
        (file_write write_at junk bounce fp.file x.system buffer size >>= λ r. some (
          some r.0,
          record x {
            process = record x.process { file_list = store_file x.process.file_list fp.fd r.1 };
            system = r.2;
          },
        )) in
      if fp.is_dir then some (none, x) else written

  unfoldable pub sys_write :
      Bool → ℕ → List ℕ → ℕ → Session File Dir → Option (Option ℕ × Session File Dir)
  sys_write bounce fd buffer size x =
      let shown = record x { console = x.console ++ take size buffer } in
      if fd == stdout_fileno
      then some (some size, shown)
      else write_to bounce (get_file x.process fd) buffer size x

module _ {File Dir : Type 0} (write_at : File → List ℕ → ℕ → ℕ → ℕ × File) (junk : Fs File → List ℕ)
    (dir_close : Dir → System File → Option (System File)) where
  -- The part of close behind get_file.
  unfoldable pub close_entry :
      FileProcess Dir → Process Dir → System File → Option (Process Dir × System File)
  close_entry fp p s = do
    let closed = file_close write_at junk (some fp.file) s
    s' ← (if fp.is_dir then dir_close fp.dir s else closed)
    some (record p { file_list = remove_fd p.file_list fp.fd }, s')

  unfoldable pub sys_close : ℕ → Process Dir → System File → Option (Process Dir × System File)
  sys_close fd p s = elim (get_file p fd) [ none ↦ some (p, s) | some fp ↦ close_entry fp p s ]

  -- The loop of close_all_file along the list as it was at the start.
  unfoldable pub close_loop :
      List (FileProcess Dir) → Process Dir → System File → Option (Process Dir × System File)
  close_loop [] p s = some (p, s)
  close_loop (fp ∷ fps) p s = do r ← sys_close fp.fd p s; close_loop fps r.0 r.1

  unfoldable pub close_all_file : Process Dir → System File → Option (Process Dir × System File)
  close_all_file p s = close_loop p.file_list p s
