-- ===== src/Inode/Table/Tests.antt =====
-- One inode opened twice, and the theorems at inputs that meet their hypotheses.
use cs439_pcs.Base.{ℕ, List, [], ◌∷◌, some, none, false, ◌≡◌, refl, arith}
use cs439_pcs.Device.{inode_disk, read_inode, block_read}
use cs439_pcs.Inode.Grow.{Fs}
use cs439_pcs.Inode.Tests.{small_file, small_fs, write_all}
use cs439_pcs.Inode.Table.{
  Entry, System, deref, find_open, inode_open, inode_close, open_new, inode_init,
}
use cs439_pcs.Inode.Table.{assign, change, inode_reopen}
use cs439_pcs.Inode.Table.Laws.{IsTable, HasNone}
use cs439_pcs.Inode.Table.Steps.{
  Leads, opened, Reachable, start, next, Reachable-IsTable, inode_close-inode_open,
}

-- Every sector holds the inode.
abbrev disk : Fs (List ℕ)
disk = record small_fs { dev = record { size = 32; sectors = λ k. inode_disk small_file } }

abbrev pub entry_at : ℕ → ℕ → Entry
entry_at p cnt = record {
  address = p;
  inode = record {
    open_cnt = cnt;
    deny_write_cnt = 0;
    removed = false;
    sector = 5;
    data_ = small_file;
  };
}

abbrev pub one_open : System (List ℕ)
one_open = record { open_inodes = entry_at 4096 1 ∷ []; fs = disk }

first_open : inode_open 5 (some 4096) (inode_init disk) ≡ some (some 4096, one_open)
unfolding inode_open find_open open_new read_inode block_read
first_open = refl

second_open :
    inode_open 5 (some 8192) one_open
    ≡ some (some 4096, record { open_inodes = entry_at 4096 2 ∷ []; fs = disk })
unfolding inode_open find_open inode_reopen change deref assign
second_open = refl

no_inode : deref [] 4096 ≡ none
unfolding deref
no_inode = refl

one_open-Reachable : Reachable write_all one_open
one_open-Reachable = next (start disk) (opened 5 4096 (some 4096) no_inode first_open)

Reachable-IsTable_example :
    IsTable one_open.open_inodes × Leads 5 (inode_open 5 (some 8192) one_open)
Reachable-IsTable_example = Reachable-IsTable write_all 5 (some 8192) one_open-Reachable

one_open-IsTable : IsTable one_open.open_inodes
unfolding IsTable HasNone deref
one_open-IsTable = (refl, tt, omega arith, tt)

there : deref one_open.open_inodes 4096 ≡ some (entry_at 4096 1).inode
unfolding deref
there = refl

inode_close-inode_open_example :
    (s' : System (List ℕ)) × (inode_open 5 none one_open ≡ some (some 4096, s'))
    × (deref s'.open_inodes 4096 ≡ some (entry_at 4096 2).inode)
    × (inode_close write_all 4096 s' ≡ some one_open)
inode_close-inode_open_example =
    inode_close-inode_open write_all 4096 (entry_at 4096 1).inode none one_open one_open-IsTable
      there
