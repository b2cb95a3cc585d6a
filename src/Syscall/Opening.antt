-- ===== src/Syscall/Opening.antt =====
-- A file opened and its descriptor closed again, by open and close of userprog/syscall.c.
use cs439_pcs.Base.Each.{Each}
use cs439_pcs.Inode.Table.{Inode}
use cs439_pcs.OpenFile.{OpenFile}
