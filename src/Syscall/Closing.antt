-- ===== src/Syscall/Closing.antt =====
-- close_all_file of userprog/syscall.c, against the files closed one by one.
use cs439_pcs.Base.{ℕ, Option, some, List, [], ◌∷◌}
use cs439_pcs.Base.{◌≡◌, refl, ap, inl, inr, if◌then◌else◌, ◌>>=◌, Option-cases, ==_self}
use cs439_pcs.Inode.Grow.{Fs}
use cs439_pcs.Inode.Table.{System}
use cs439_pcs.OpenFile.{file_close}
use cs439_pcs.Syscall.{FileProcess, Process, find_fd, remove_fd, get_file, sys_close, close_entry}
use cs439_pcs.Syscall.{close_loop, close_all_file}

module _ {File Dir : Type 0} (write_at : File → List ℕ → ℕ → ℕ → ℕ × File) (junk : Fs File → List ℕ)
    (dir_close : Dir → System File → Option (System File)) where
  -- A file or a directory closed.
  unfoldable pub close_one : FileProcess Dir → System File → Option (System File)
  close_one fp s =
      if fp.is_dir then dir_close fp.dir s else file_close write_at junk (some fp.file) s

  -- The files and directories of a list closed in their order.
  unfoldable pub close_each : List (FileProcess Dir) → System File → Option (System File)
  close_each [] s = some s
  close_each (fp ∷ fps) s = close_one fp s >>= close_each fps

  finds_head :
      (fp : FileProcess Dir) (fps : List (FileProcess Dir)) (n : ℕ)
      → get_file (record { fd = n; file_list = fp ∷ fps }) fp.fd ≡ some fp
  unfolding get_file find_fd
  finds_head fp fps n = rw (==_self fp.fd) refl

  removes_head :
      (fp : FileProcess Dir) (fps : List (FileProcess Dir)) → remove_fd (fp ∷ fps) fp.fd ≡ fps
  unfolding remove_fd
  removes_head fp fps = rw (==_self fp.fd) refl

  entry_closes :
      (fp : FileProcess Dir) (fps : List (FileProcess Dir)) (n : ℕ) (s : System File)
      → close_entry write_at junk dir_close fp (record { fd = n; file_list = fp ∷ fps }) s
        ≡ (close_one fp s >>= λ s'. some (record { fd = n; file_list = fps }, s'))
  unfolding close_entry close_one
  entry_closes fp fps n s =
      ap (λ l. close_one fp s >>= λ s'. some (record { fd = n; file_list = l }, s'))
        (removes_head fp fps)

  head_closes :
      (fp : FileProcess Dir) (fps : List (FileProcess Dir)) (n : ℕ) (s : System File)
      → sys_close write_at junk dir_close fp.fd (record { fd = n; file_list = fp ∷ fps }) s
        ≡ (close_one fp s >>= λ s'. some (record { fd = n; file_list = fps }, s'))
  unfolding sys_close
  head_closes fp fps n s = rw (sys_close, finds_head fp fps n) (entry_closes fp fps n s)

  loop_closes :
      (fps : List (FileProcess Dir)) (n : ℕ) (s : System File)
      → close_loop write_at junk dir_close fps (record { fd = n; file_list = fps }) s
        ≡ (close_each fps s >>= λ s'. some (record { fd = n; file_list = [] }, s'))
  unfolding close_loop close_each
  loop_closes [] n s = refl
  loop_closes (fp ∷ fps) n s = elim (Option-cases (close_one fp s)) [
    | inl q ↦ rw (head_closes fp fps n s, q) refl
    | inr (s', q) ↦ rw (head_closes fp fps n s, q) (loop_closes fps n s')
  ]

  -- close_all_file closes each file of the process by file_close and each directory by dir_close,
  -- in the order in which they were opened, and leaves no descriptor; where one of these calls fails
  -- so does it.
  pub close_all_file-close_each :
      (p : Process Dir) (s : System File)
      → close_all_file write_at junk dir_close p s
        ≡ (close_each p.file_list s >>= λ s'. some (record p { file_list = [] }, s'))
  unfolding close_all_file
  close_all_file-close_each p s = loop_closes p.file_list p.fd s
