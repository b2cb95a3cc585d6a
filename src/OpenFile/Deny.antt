-- ===== src/OpenFile/Deny.antt =====
-- Denying writes to a file and allowing them again.
use cs439_pcs.Base.{◌+◌, ◌-◌, ◌<◌, true, false, some}
use cs439_pcs.Base.{◌≡◌, refl, ap, sym, ◌∙◌, arith, leb, ltb}
use cs439_pcs.Inode.Table.{
  Inode, System, deref, assign, change, inode_deny_write, inode_allow_write,
}
use cs439_pcs.Inode.Table.Laws.{deref-assign_self, assign-assign, assign_same}
use cs439_pcs.OpenFile.{OpenFile, file_deny_write, file_allow_write}

module _ {File : Type 0} where
  -- For a file that does not deny writes, on an inode with an opener more than it has deniers,
  -- file_deny_write raises the inode's count and marks the file, a second call changes nothing, and
  -- file_allow_write brings the file and the state back as they were.
  pub file_allow_write-file_deny_write :
      (f : OpenFile) (s : System File) (i : Inode)
      → f.deny_write ≡ false
      → deref s.open_inodes f.inode ≡ some i
      → i.deny_write_cnt < i.open_cnt
      → (f' : OpenFile) × (s' : System File) × (file_deny_write f s ≡ some (f', s'))
        × (deref s'.open_inodes f.inode ≡ some (record i { deny_write_cnt = i.deny_write_cnt + 1 }))
        × (file_deny_write f' s' ≡ some (f', s'))
        × (file_allow_write f' s' ≡ some (f, s))
  unfolding file_deny_write file_allow_write inode_deny_write inode_allow_write change
  file_allow_write-file_deny_write f s i off d room =
      let i' : Inode = record i { deny_write_cnt = i.deny_write_cnt + 1 } in
      let es = assign s.open_inodes f.inode i' in
      let held = deref-assign_self s.open_inodes f.inode i i' d in
      let back : assign es f.inode i ≡ s.open_inodes =
        assign-assign s.open_inodes f.inode i' i ∙ assign_same s.open_inodes f.inode i d in
      let undone : i.deny_write_cnt + 1 - 1 ≡ i.deny_write_cnt = omega arith in
      let fits : leb (i.deny_write_cnt + 1) i.open_cnt ≡ true = ground arith in
      let some_denied : ltb 0 (i.deny_write_cnt + 1) ≡ true = ground arith in
      (
        record f { deny_write = true },
        record s { open_inodes = es },
        rw (off, d, fits) refl,
        held,
        refl,
        rw (held, some_denied, fits, undone)
            (ap
                (λ b.
                  some
                    (record f { deny_write = b }, record s { open_inodes = assign es f.inode i }))
                (sym off)
              ∙ ap (λ l. some (f, record s { open_inodes = l })) back),
      )
