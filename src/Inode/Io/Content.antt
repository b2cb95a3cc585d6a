-- ===== src/Inode/Io/Content.antt =====
-- The bytes of a file, as its sectors hold them.
use cs439_pcs.Base.{ℕ, ◌-◌, ◌*◌, ◌/◌, ◌%◌, ◌≤◌, ◌<◌, some, List, [], get_or, length}
use cs439_pcs.Base.{◌≡◌, refl, ap, sym, ◌∙◌, arith, lt→ltb}
use cs439_pcs.Device.{Device, InodeDisk, bytes, block_read, read_bytes}
use cs439_pcs.Inode.Grow.{Fs}
use cs439_pcs.Inode.Slots.{file, place_of}
use cs439_pcs.Inode.Layout.{Holds}
use cs439_pcs.Inode.Io.{chunk_size}

abbrev pub bytes_at : Device → ℕ → List ℕ
bytes_at dev s = elim (dev.sectors s) [ bytes p ↦ p | _ ↦ [] ]

-- The sector holds 512 bytes.
pub record IsData (dev : Device) (s : ℕ) : Type 0 where
  pub kind : dev.sectors s ≡ bytes (bytes_at dev s)
  pub full : length (bytes_at dev s) ≡ 512

-- Byte `pos` of the file.
abbrev pub content : InodeDisk → Device → ℕ → ℕ
content d dev pos = get_or (bytes_at dev (place_of d dev (file (pos / 512)))) (pos % 512) 0

pub read_bytes_lem :
    (dev : Device) (s : ℕ) → s < dev.size → IsData dev s → read_bytes dev s ≡ some (bytes_at dev s)
unfolding read_bytes block_read
read_bytes_lem dev s h i = rw (lt→ltb s dev.size h) (rw i.kind refl)

pub bytes_at-kept :
    (dev dev' : Device) (s : ℕ) → dev'.sectors s ≡ dev.sectors s → bytes_at dev' s ≡ bytes_at dev s
bytes_at-kept dev dev' s e = ap (λ c. elim c [ bytes p ↦ p | _ ↦ [] ]) e

pub IsData-kept :
    (dev dev' : Device) (s : ℕ) → dev'.sectors s ≡ dev.sectors s → IsData dev s → IsData dev' s
IsData-kept dev dev' s e i =
    let same_bytes = bytes_at-kept dev dev' s e in
    record { kind = e ∙ i.kind ∙ ap bytes (sym same_bytes); full = ap length same_bytes ∙ i.full }

pub IsData-stored :
    (dev : Device) (s : ℕ) (new : List ℕ)
    → dev.sectors s ≡ bytes new
    → length new ≡ 512
    → IsData dev s
IsData-stored dev s new e full =
    let stored : bytes_at dev s ≡ new = rw (e, bytes_at) refl in
    record { kind = e ∙ ap bytes (sym stored); full = ap length stored ∙ full }

-- A file laid out in `n` sectors, each with 512 bytes in it, that hold all bytes below its length.
pub record HasData {File : Type 0} (d : InodeDisk) (fs : Fs File) (n : ℕ) : Type 0 where
  pub holds : Holds d fs n
  pub covers : d.length ≤ 512 * n
  pub data_in : (k : ℕ) → k < n → IsData fs.dev (place_of d fs.dev (file k))

-- What a chunk is bounded by.
pub record IsChunk (d : InodeDisk) (size offset c : ℕ) : Type 0 where
  pub wanted : c ≤ size
  pub inside : c ≤ d.length - offset
  pub in_sector : c ≤ 512 - offset % 512
  pub advances : 0 < size → offset < d.length → 0 < c

pub chunk_size-IsChunk :
    (d : InodeDisk) (size offset : ℕ) → IsChunk d size offset (chunk_size d size offset)
unfolding chunk_size
chunk_size-IsChunk d size offset = record {
  wanted = ground arith;
  inside = ground arith;
  in_sector = ground arith;
  advances = λ p q. ground arith;
}

module _ {File : Type 0} {d : InodeDisk} {fs : Fs File} {n : ℕ} (h : HasData d fs n) where
  pub place-lt : (k : ℕ) → k < n → place_of d fs.dev (file k) < fs.dev.size
  place-lt k q = rw (h.holds.ready.sized) (h.holds.owns.in_range (file k) q)

  pub sector_of-lt : (pos : ℕ) → pos < d.length → pos / 512 < n
  sector_of-lt pos p = omega (arith, h.covers)
