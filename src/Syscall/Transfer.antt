-- ===== src/Syscall/Transfer.antt =====
-- Bytes written and read through a descriptor of userprog/syscall.c.
use cs439_pcs.Base.{ℕ, ◌+◌, ◌≤◌, ◌<◌, max, true, false, some, List}
use cs439_pcs.Base.{◌≡◌, ◌≢◌, refl, ap, sym, ◌∙◌}
use cs439_pcs.Base.{==_ne, lt→ltb, arith, some_eq, get_or, length, word_mod}
use cs439_pcs.Inode.{bytes_to_sectors}
use cs439_pcs.FreeMap.Count.{Stores}
use cs439_pcs.Inode.Grow.{Fs}
use cs439_pcs.Inode.Grow.Fresh.{free_sectors}
use cs439_pcs.Inode.Slots.{max_sectors, total}
use cs439_pcs.Inode.Io.{inode_read_at, inode_write_at, Wrote}
use cs439_pcs.Inode.Io.Content.{HasData}
use cs439_pcs.Inode.Io.Extend.{inode_write_at-Written, inode_read_at-inode_write_at}
use cs439_pcs.Inode.Table.{Inode, deref, assign}
use cs439_pcs.Inode.Table.Laws.{deref-assign_self}
use cs439_pcs.OpenFile.{OpenFile, file_read, file_read_at, file_write, file_write_at, file_seek}
use cs439_pcs.Syscall.{FileProcess, Session, find_fd, store_file, get_file}
use cs439_pcs.Syscall.{sys_read, read_from, sys_write, write_to, sys_seek}
use cs439_pcs.Syscall.Table.{find_fd-store_file, find_fd-fd}
use mathlib.Core.Path.{subst}

-- A file within the reach of its pointers ends below 2 ^ 31.
low_end :
    (m bytes : ℕ)
    → m ≡ bytes_to_sectors bytes
    → m ≤ max_sectors
    → bytes + 511 < word_mod
    → bytes < 2147483648
low_end m bytes em reach small = omega (arith, em, reach, small)

module _ {File Dir : Type 0} where
  -- A session with another file behind a descriptor.
  abbrev pub with_file : Session File Dir → ℕ → OpenFile → Session File Dir
  with_file x fd f = record x {
    process = record x.process { file_list = store_file x.process.file_list fd f };
  }

  -- A session in which an inode has taken the data of a write.
  abbrev pub with_data : Session File Dir → ℕ → Inode → Wrote File → Session File Dir
  with_data x p i w = record x {
    system = record {
      open_inodes = assign x.system.open_inodes p (record i { data_ = w.data_ });
      fs = w.fs;
    };
  }

  seek_runs :
      (fd position : ℕ) (x : Session File Dir) (fp : FileProcess Dir)
      → get_file x.process fd ≡ some fp
      → fp.is_dir ≡ false
      → position < 2147483648
      → sys_seek fd position x ≡ some (with_file x fd (record fp.file { pos = position }))
  unfolding sys_seek file_seek
  seek_runs fd position x fp g d low = rw (sys_seek, g, d, lt→ltb position 2147483648 low) refl

  read_runs :
      (keys : ℕ → ℕ) (fd : ℕ) (buffer after : List ℕ) (size cnt : ℕ) (x : Session File Dir)
      (fp : FileProcess Dir) (i : Inode)
      → fd ≢ 0
      → get_file x.process fd ≡ some fp
      → deref x.system.open_inodes fp.file.inode ≡ some i
      → inode_read_at i.data_ x.system.fs.dev true buffer size fp.file.pos ≡ some (cnt, after)
      → sys_read keys true fd buffer size x
        ≡ some (some cnt, after, with_file x fp.fd (record fp.file { pos = fp.file.pos + cnt }))
  unfolding sys_read read_from file_read file_read_at
  read_runs keys fd buffer after size cnt x fp i n g d r =
      rw (==_ne fd 0 n, g, read_from, d, r) refl

  module _ (write_at : File → List ℕ → ℕ → ℕ → ℕ × File) (junk : Fs File → List ℕ) where
    write_runs :
        (fd : ℕ) (buffer : List ℕ) (size : ℕ) (x : Session File Dir) (fp : FileProcess Dir)
        (i : Inode) (w : Wrote File)
        → fd ≢ 1
        → get_file x.process fd ≡ some fp
        → fp.is_dir ≡ false
        → deref x.system.open_inodes fp.file.inode ≡ some i
        → inode_write_at write_at junk i.deny_write_cnt i.data_ x.system.fs true buffer size
            fp.file.pos
          ≡ some w
        → sys_write write_at junk true fd buffer size x
          ≡ some (
            some w.cnt,
            with_data
                (with_file x fp.fd (record fp.file { pos = fp.file.pos + w.cnt }))
                fp.file.inode
                i
                w,
          )
    unfolding sys_write write_to file_write file_write_at
    write_runs fd buffer size x fp i w n g d e r = rw (==_ne fd 1 n, g, write_to, d, e, r) refl

    -- For a descriptor of a file, not of a directory or of the console, on an open inode that denies
    -- no writes and whose sectors hold the file's bytes, with enough free sectors for the file to grow
    -- within the reach of its pointers and a map file that takes every write: write returns the
    -- number of bytes it was given; seek to where the file stood before works; and read of as many
    -- bytes into a buffer with room for them returns that number, and the buffer has the bytes that
    -- were written.
    pub sys_read-sys_write :
        (stores : Stores write_at) (junk_full : (fs : Fs File) → length (junk fs) ≡ 128)
        (keys : ℕ → ℕ) (n m size fd : ℕ) (buffer buffer' : List ℕ) (x : Session File Dir)
        (fp : FileProcess Dir) (i : Inode)
        → fd ≢ 0
        → fd ≢ 1
        → get_file x.process fd ≡ some fp
        → fp.is_dir ≡ false
        → deref x.system.open_inodes fp.file.inode ≡ some i
        → i.deny_write_cnt ≡ 0
        → HasData i.data_ x.system.fs n
        → n ≡ bytes_to_sectors i.data_.length
        → m ≡ bytes_to_sectors (max i.data_.length (fp.file.pos + size))
        → m ≤ max_sectors
        → max i.data_.length (fp.file.pos + size) + 511 < word_mod
        → total m ≤ free_sectors x.system.fs + total n
        → size ≤ length buffer'
        → (x1 x2 x3 : Session File Dir) × (after : List ℕ) × (sys_write write_at junk true fd buffer
              size x
            ≡ some (some size, x1))
          × (sys_seek fd fp.file.pos x1 ≡ some x2)
          × (sys_read keys true fd buffer' size x2 ≡ some (some size, after, x3))
          × ((k : ℕ) → k < size → get_or after k 0 ≡ get_or buffer k 0)
    unfolding get_file
    sys_read-sys_write stores junk_full keys n m size fd buffer buffer' x fp i n0 n1 g d e z h en em
          reach small enough room =
        let pos = fp.file.pos in
        let whole =
          inode_write_at-Written write_at junk stores junk_full n m size pos buffer i.data_
            x.system.fs h en em reach small enough in
        let (w, after, puts, gets, same) =
          inode_read_at-inode_write_at write_at junk stores junk_full n m size pos buffer buffer'
            i.data_ x.system.fs h en em reach small enough room in
        let cnt : w.cnt ≡ size =
          ap (λ (r : Wrote File). r.cnt) (some_eq (sym puts ∙ whole.returns)) ∙ whole.complete in
        let is : fp.fd ≡ fd = find_fd-fd x.process.file_list fd fp g in
        let f1 : OpenFile = record fp.file { pos = pos + w.cnt } in
        let x1 : Session File Dir = with_data (with_file x fp.fd f1) fp.file.inode i w in
        let fp1 : FileProcess Dir = record fp { file = f1 } in
        let g1 : get_file x1.process fd ≡ some fp1 =
          subst (λ a. find_fd (store_file x.process.file_list a f1) fd ≡ some fp1) (sym is)
            (find_fd-store_file x.process.file_list fd fp f1 g) in
        let at_pos : OpenFile = record f1 { pos = pos } in
        let x2 : Session File Dir = with_file x1 fd at_pos in
        let fp2 : FileProcess Dir = record fp1 { file = at_pos } in
        let g2 : get_file x2.process fd ≡ some fp2 =
          find_fd-store_file x1.process.file_list fd fp1 at_pos g1 in
        (
          x1,
          x2,
          _,
          after,
          write_runs fd buffer size x fp i w n1 g d e (
                ap (λ c. inode_write_at write_at junk c i.data_ x.system.fs true buffer size pos) z
                ∙ puts)
              ∙ ap (λ c. some (some c, x1)) cnt,
          seek_runs fd pos x1 fp1 g1 d (omega (arith, low_end m _ em reach small)),
          read_runs keys fd buffer' after size size x2 fp2 (record i { data_ = w.data_ }) n0 g2
              (deref-assign_self x.system.open_inodes fp.file.inode i (record i { data_ = w.data_ })
                e)
              gets,
          same,
        )
