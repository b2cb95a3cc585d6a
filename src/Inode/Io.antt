-- ===== src/Inode/Io.antt =====
-- inode_read_at and inode_write_at: bytes copied sector by sector between a buffer and the sectors
-- of a file. Sizes and offsets are not negative, and `offset + size` fits an off_t.
pub mod Content
pub mod Patch
pub mod Read
pub mod Write
pub mod Extend
pub mod Tests
use cs439_pcs.Base.{ℕ, zero, suc, ◌+◌, ◌-◌, ◌*◌, ◌/◌, ◌%◌, min, Bool, true, false, not, ◌&&◌, ◌||◌}
use cs439_pcs.Base.{
  Option, none, some, List, ltb, ◌==◌, if◌then◌else◌, ◌>>=◌, ◌>>◌, replicate, memcpy,
}
use cs439_pcs.Device.{Device, InodeDisk, bytes, read_bytes, block_write, sector_size}
use cs439_pcs.Inode.{byte_to_sector}
use cs439_pcs.Inode.Grow.{Fs, Grown, inode_grow}

-- chunk_size: the lesser of the bytes wanted, those left in the inode and those left in the sector.
-- The bytes left in the inode are negative behind its end, where the difference here is 0; the
-- loops stop at both.
unfoldable pub chunk_size : InodeDisk → ℕ → ℕ → ℕ
chunk_size d size offset =
    let sector_ofs = offset % sector_size in
    let inode_left = d.length - offset in
    let sector_left = sector_size - sector_ofs in
    let min_left = if ltb inode_left sector_left then inode_left else sector_left in
    if ltb size min_left then size else min_left

-- A chunk that is a whole sector needs no bounce buffer.
unfoldable pub is_whole : ℕ → ℕ → Bool
is_whole chunk offset = offset % sector_size == 0 && chunk == sector_size

-- `bounce` says whether malloc grants the bounce buffer. The bytes that reach the caller's buffer
-- are the same with it and without it. A round advances, so a fuel above `size` is enough.
unfoldable pub read_loop : ℕ → InodeDisk → Device → Bool → ℕ → ℕ → ℕ → List ℕ → Option (ℕ × List ℕ)
read_loop zero d dev bounce size offset bytes_read buffer = none
read_loop (suc fuel) d dev bounce size offset bytes_read buffer =
    let chunk = chunk_size d size offset in
    let round =
      (byte_to_sector d dev offset >>= λ sector_idx.
      let go =
        (read_bytes dev sector_idx >>= λ sector.
        read_loop fuel d dev bounce (size - chunk) (offset + chunk) (bytes_read + chunk)
          (memcpy buffer bytes_read sector (offset % sector_size) chunk)) in
      if chunk == 0
      then some (bytes_read, buffer)
      else if is_whole chunk offset || bounce
      then go
      else some (bytes_read, buffer)) in
    if size == 0 then some (bytes_read, buffer) else round

-- The number of bytes read, and the buffer.
unfoldable pub inode_read_at : InodeDisk → Device → Bool → List ℕ → ℕ → ℕ → Option (ℕ × List ℕ)
inode_read_at d dev bounce buffer size offset =
    read_loop (size + 1) d dev bounce size offset 0 buffer

-- The sector that a chunk is written into: read from the device if the chunk leaves a part of it,
-- and zeros else.
unfoldable pub bounce_sector : Device → ℕ → ℕ → ℕ → Option (List ℕ)
bounce_sector dev sector_idx sector_ofs chunk =
    if ltb 0 sector_ofs || ltb chunk (sector_size - sector_ofs)
    then read_bytes dev sector_idx
    else some (replicate sector_size 0)

unfoldable pub write_loop : ℕ → InodeDisk → Device → Bool → ℕ → ℕ → ℕ → List ℕ → Option (ℕ × Device)
write_loop zero d dev bounce size offset bytes_written buffer = none
write_loop (suc fuel) d dev bounce size offset bytes_written buffer =
    let chunk = chunk_size d size offset in
    let next = (λ (dev' : Device).
      write_loop fuel d dev' bounce (size - chunk) (offset + chunk) (bytes_written + chunk)
        buffer) in
    let round =
      (byte_to_sector d dev offset >>= λ sector_idx.
      let direct =
        (block_write dev sector_idx
            (bytes (memcpy (replicate sector_size 0) 0 buffer bytes_written sector_size))
          >>= next) in
      let through =
        (bounce_sector dev sector_idx (offset % sector_size) chunk >>= λ sector.
        block_write dev sector_idx
          (bytes (memcpy sector (offset % sector_size) buffer bytes_written chunk))
        >>= next) in
      if chunk == 0
      then some (bytes_written, dev)
      else if is_whole chunk offset
      then direct
      else if bounce
      then through
      else some (bytes_written, dev)) in
    if size == 0 then some (bytes_written, dev) else round

-- How a write ends: the bytes written, the inode's data and the rest of the state.
pub record Wrote (File : Type 0) : Type 0 where
  pub cnt : ℕ
  pub data_ : InodeDisk
  pub fs : Fs File

module _ {File : Type 0} (write_at : File → List ℕ → ℕ → ℕ → ℕ × File)
    (junk : Fs File → List ℕ) where
  -- The loop, on the state that growth left.
  unfoldable pub write_into : InodeDisk → Fs File → Bool → List ℕ → ℕ → ℕ → Option (Wrote File)
  write_into d fs bounce buffer size offset = do
    r ← write_loop (size + 1) d fs.dev bounce size offset 0 buffer
    some (record { cnt = r.0; data_ = d; fs = record fs { dev = r.1 } })

  unfoldable pub inode_write_at :
      ℕ → InodeDisk → Fs File → Bool → List ℕ → ℕ → ℕ → Option (Wrote File)
  inode_write_at deny_write_cnt d fs bounce buffer size offset =
      let grown =
        (inode_grow write_at junk (offset + size) d fs >>= λ g.
        write_into (record (g.data_) { length = g.sectors }) g.fs bounce buffer size offset) in
      let kept = write_into d fs bounce buffer size offset in
      if not (deny_write_cnt == 0)
      then some (record { cnt = 0; data_ = d; fs = fs })
      else if ltb d.length (offset + size)
      then grown
      else kept
