-- ===== src/Syscall/Tests.antt =====
-- A process with one open file of 1000 bytes.
use cs439_pcs.Base.{ℕ, ◌<◌, true, false, Option, some, List, [], ◌∷◌}
use cs439_pcs.Base.{◌≡◌, refl, arith, get_or, replicate, ◌>>=◌}
use cs439_pcs.Inode.Tests.{small_file, small_fs, write_all, write_all-Stores, junk}
use cs439_pcs.Inode.Io.Tests.{small-HasData, small_free}
use cs439_pcs.Inode.Table.{Inode, System, deref}
use cs439_pcs.OpenFile.{OpenFile}
use cs439_pcs.Syscall.{FileProcess, Session, find_fd, get_file}
use cs439_pcs.Syscall.{sys_write, sys_seek, sys_read, close_all_file}
use cs439_pcs.Syscall.Transfer.{sys_read-sys_write}
use cs439_pcs.Syscall.Closing.{close_each, close_all_file-close_each}

abbrev small_inode : Inode
small_inode = record {
  open_cnt = 1;
  deny_write_cnt = 0;
  removed = false;
  sector = 1;
  data_ = small_file;
}

abbrev small_system : System (List ℕ)
small_system = record {
  open_inodes = record { address = 4096; inode = small_inode } ∷ [];
  fs = small_fs;
}

abbrev at_end : OpenFile
at_end = record { inode = 4096; pos = 1022; deny_write = false }

-- A directory is the address of its structure.
abbrev no_dirs : ℕ → System (List ℕ) → Option (System (List ℕ))
no_dirs dir s = some s

abbrev as_dir : OpenFile → ℕ
as_dir f = f.inode

abbrev entry : FileProcess ℕ
entry = record { file = at_end; dir = 0; fd = 2; is_dir = false }

abbrev empty_session : Session (List ℕ) ℕ
empty_session = record {
  process = record { fd = 2; file_list = [] };
  system = small_system;
  console = [];
}

abbrev one_file : Session (List ℕ) ℕ
one_file = record {
  process = record { fd = 3; file_list = entry ∷ [] };
  system = small_system;
  console = [];
}

inode_there : deref small_system.open_inodes 4096 ≡ some small_inode
unfolding deref
inode_there = refl

found : get_file one_file.process 2 ≡ some entry
unfolding get_file find_fd
found = refl

sys_read-sys_write_example :
    (x1 x2 x3 : Session (List ℕ) ℕ) × (after : List ℕ) × (sys_write write_all junk true 2
        (1 ∷ 2 ∷ 3 ∷ 4 ∷ [])
        4
        one_file
      ≡ some (some 4, x1))
    × (sys_seek 2 1022 x1 ≡ some x2)
    × (sys_read (λ n. 0) true 2 (replicate 4 0) 4 x2 ≡ some (some 4, after, x3))
    × ((k : ℕ) → k < 4 → get_or after k 0 ≡ get_or (1 ∷ 2 ∷ 3 ∷ 4 ∷ []) k 0)
sys_read-sys_write_example =
    sys_read-sys_write write_all junk write_all-Stores (λ s. refl) (λ n. 0) 2 3 4 2
      (1 ∷ 2 ∷ 3 ∷ 4 ∷ []) (replicate 4 0) one_file entry small_inode (λ e. omega (arith, e))
      (λ e. omega (arith, e)) found refl inode_there refl small-HasData refl refl (omega arith)
      (omega arith) (omega (arith, small_free)) (omega arith)

close_all_file-close_each_example :
    close_all_file write_all junk no_dirs one_file.process small_system ≡ (
      close_each write_all junk no_dirs (entry ∷ []) small_system >>= λ s'.
      some (record one_file.process { file_list = [] }, s'))
close_all_file-close_each_example =
    close_all_file-close_each write_all junk no_dirs one_file.process small_system
