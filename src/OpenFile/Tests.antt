-- ===== src/OpenFile/Tests.antt =====
-- A file on an inode with one opener.
use cs439_pcs.Base.{ℕ, List, some, false, ◌≡◌, refl, arith}
use cs439_pcs.Inode.Table.{Inode, System, deref}
use cs439_pcs.Inode.Table.Tests.{one_open, entry_at}
use cs439_pcs.OpenFile.{OpenFile, file_deny_write, file_allow_write}
use cs439_pcs.OpenFile.Deny.{file_allow_write-file_deny_write}

abbrev on_one : OpenFile
on_one = record { inode = 4096; pos = 7; deny_write = false }

abbrev the_inode : Inode
the_inode = (entry_at 4096 1).inode

its_inode : deref one_open.open_inodes 4096 ≡ some the_inode
unfolding deref
its_inode = refl

file_allow_write-file_deny_write_example :
    (f' : OpenFile) × (s' : System (List ℕ)) × (file_deny_write on_one one_open ≡ some (f', s'))
    × (deref s'.open_inodes 4096 ≡ some (record the_inode { deny_write_cnt = 1 }))
    × (file_deny_write f' s' ≡ some (f', s'))
    × (file_allow_write f' s' ≡ some (on_one, one_open))
file_allow_write-file_deny_write_example =
    file_allow_write-file_deny_write on_one one_open the_inode refl its_inode (omega arith)
