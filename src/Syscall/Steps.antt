-- ===== src/Syscall/Steps.antt =====
-- The system calls of userprog/syscall.c on a process's descriptors.
use cs439_pcs.Base.{ℕ, Bool, Option, some, List, []}
use cs439_pcs.Base.{◌≡◌}
use cs439_pcs.Base.Each.{Each}
use cs439_pcs.Inode.Grow.{Fs}
use cs439_pcs.Inode.Table.{System}
use cs439_pcs.OpenFile.{OpenFile}
use cs439_pcs.Syscall.{FileProcess, Process, Session}
use cs439_pcs.Syscall.{sys_open, sys_read, sys_write, sys_seek}
use cs439_pcs.Syscall.{sys_close}

module _ {File Dir : Type 0} (write_at : File → List ℕ → ℕ → ℕ → ℕ × File) (junk : Fs File → List ℕ)
    (dir_close : Dir → System File → Option (System File)) (as_dir : OpenFile → Dir) where
  -- One system call, with the arguments and the results of the code that it calls.
  pub data Step (x x' : Session File Dir) : Type 0 where
    opened :
        (f : Option OpenFile) (memory : Option (FileProcess Dir)) (r : Option ℕ)
        → sys_open as_dir f memory x ≡ some (r, x')
        → Step x x'
    has_read :
        (keys : ℕ → ℕ) (bounce : Bool) (fd : ℕ) (buffer : List ℕ) (size : ℕ) (r : Option ℕ)
        (after : List ℕ)
        → sys_read keys bounce fd buffer size x ≡ some (r, after, x')
        → Step x x'
    has_written :
        (bounce : Bool) (fd : ℕ) (buffer : List ℕ) (size : ℕ) (r : Option ℕ)
        → sys_write write_at junk bounce fd buffer size x ≡ some (r, x')
        → Step x x'
    sought : (fd position : ℕ) → sys_seek fd position x ≡ some x' → Step x x'
    closed :
        (fd : ℕ) (p : Process Dir) (s : System File)
        → sys_close write_at junk dir_close fd x.process x.system ≡ some (p, s)
        → x' ≡ record x { process = p; system = s }
        → Step x x'

  -- From a process as init_thread leaves it.
  pub data Reachable : Session File Dir → Type 0 where
    start :
        (s : System File) (c : List ℕ)
        → Reachable
            (record { process = record { fd = 2; file_list = [] }; system = s; console = c })
    next : {x x' : Session File Dir} → Reachable x → Step x x' → Reachable x'
