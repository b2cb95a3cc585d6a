-- ===== src/Inode/Io/Write.antt =====
-- What inode_write_at stores when the file is long enough.
use cs439_pcs.Base.{ℕ, zero, suc, ◌+◌, ◌-◌, ◌*◌, ◌/◌, ◌%◌, ◌≤◌, ◌<◌, min, true, false, ◌&&◌, ◌||◌}
use cs439_pcs.Base.{
  Option, some, List, get_or, length, memcpy, length-memcpy, get_or-memcpy, replicate,
}
use cs439_pcs.Base.{◌≡◌, refl, ap, ◌∙◌, arith, ltb, leb, if◌then◌else◌, ==_ne, ==_is}
use cs439_pcs.Base.{Bool-cases, inl, inr, lt→ltb}
use cs439_pcs.Device.{Device, InodeDisk, read_bytes, block_write}
use cs439_pcs.Inode.{byte_to_sector}
use cs439_pcs.Inode.Grow.{Fs}
use cs439_pcs.Inode.Slots.{file, place_of}
use cs439_pcs.Inode.Layout.{byte_to_sector_lem}
use cs439_pcs.Inode.Io.{chunk_size, is_whole, bounce_sector, write_loop}
use cs439_pcs.Inode.Io.Content.{HasData, IsChunk, chunk_size-IsChunk, bytes_at, read_bytes_lem}
use cs439_pcs.Inode.Io.Content.{place-lt, sector_of-lt}
use cs439_pcs.Inode.Io.Patch.{Patched, Patched-none, Patched-trans, with_bytes, stored-Patched}
use native.Mathlib.Decide.{dec_lt}

-- With no byte to write, or none left in the file, the loop ends at once.
write_stop :
    (fuel : ℕ) (d : InodeDisk) (dev : Device) (size offset at : ℕ) (buffer : List ℕ)
    → min size (d.length - offset) ≡ 0
    → write_loop (suc fuel) d dev true size offset at buffer ≡ some (at, dev)
unfolding write_loop byte_to_sector
write_stop fuel d dev zero offset at buffer e = refl
write_stop fuel d dev (suc size) offset at buffer e =
    let past : ltb offset d.length ≡ false = ground arith in
    let ch = chunk_size-IsChunk d (suc size) offset in
    let gone : chunk_size d (suc size) offset ≡ 0 = omega (arith, ch.inside) in
    rw (==_ne (suc size) 0 (omega arith), past, ==_is _ _ gone) refl

-- What one round stores in a sector that held `old`: the chunk of the buffer at its place.
pub record IsBlend (old new buffer : List ℕ) (ofs at c : ℕ) : Type 0 where
  pub full : length new ≡ 512
  pub blend :
      (j : ℕ)
      → j < 512
      → get_or new j 0 ≡ (
          if leb ofs j && ltb j (ofs + c) then get_or buffer (at + (j - ofs)) 0 else get_or old j 0)

whole-IsBlend :
    (old buffer : List ℕ) (offset at c : ℕ)
    → is_whole c offset ≡ true
    → IsBlend old (memcpy (replicate 512 0) 0 buffer at 512) buffer (offset % 512) at c
unfolding is_whole
whole-IsBlend old buffer offset at c e =
    let start : offset % 512 ≡ 0 = ground arith in
    let all : c ≡ 512 = ground arith in
    let clear : List ℕ = replicate 512 0 in
    let room : length clear ≡ 512 = refl in
    record {
      full = length-memcpy clear 0 buffer at 512 ∙ room;
      blend = λ j q.
          let copy = get_or-memcpy clear 0 buffer at 512 j (omega (arith, room)) in
          let ins : ltb j 512 ≡ true = lt→ltb j 512 q in
          let low : leb 0 j ≡ true = ground arith in
          rw (start, all, low, ins) (rw (low, ins) at copy);
    }

part-IsBlend :
    (old buffer : List ℕ) (ofs at c : ℕ)
    → length old ≡ 512
    → ofs + c ≤ 512
    → IsBlend old (memcpy old ofs buffer at c) buffer ofs at c
part-IsBlend old buffer ofs at c full fits = record {
  full = length-memcpy old ofs buffer at c ∙ full;
  blend = λ j q. get_or-memcpy old ofs buffer at c j (omega (arith, full));
}

module _ (fuel : ℕ) (d : InodeDisk) (dev : Device) (size offset at s : ℕ) (buffer old : List ℕ)
    (p : 0 < size) (q : 0 < chunk_size d size offset) (e : byte_to_sector d dev offset ≡ some s)
    (r : s < dev.size) where
  -- The state of the loop after a round that stored `new`.
  abbrev next_round : List ℕ → Option (ℕ × Device)
  next_round new =
      write_loop fuel d (with_bytes dev s new) true (size - chunk_size d size offset)
        (offset + chunk_size d size offset) (at + chunk_size d size offset) buffer

  whole_step :
      is_whole (chunk_size d size offset) offset ≡ true
      → write_loop (suc fuel) d dev true size offset at buffer
        ≡ next_round (memcpy (replicate 512 0) 0 buffer at 512)
  unfolding write_loop block_write
  whole_step w =
      rw
        (
          ==_ne size 0 (omega arith),
          e,
          ==_ne (chunk_size d size offset) 0 (omega arith),
          w,
          lt→ltb s dev.size r,
        )
        refl

  part_step :
      is_whole (chunk_size d size offset) offset ≡ false
      → bounce_sector dev s (offset % 512) (chunk_size d size offset) ≡ some old
      → write_loop (suc fuel) d dev true size offset at buffer
        ≡ next_round (memcpy old (offset % 512) buffer at (chunk_size d size offset))
  unfolding write_loop block_write
  part_step w f =
      rw
        (
          ==_ne size 0 (omega arith),
          e,
          ==_ne (chunk_size d size offset) 0 (omega arith),
          w,
          f,
          lt→ltb s dev.size r,
        )
        refl

  bounce_read :
      is_whole (chunk_size d size offset) offset ≡ false
      → chunk_size d size offset ≤ 512 - offset % 512
      → read_bytes dev s ≡ some old
      → bounce_sector dev s (offset % 512) (chunk_size d size offset) ≡ some old
  unfolding is_whole bounce_sector
  bounce_read w fits f =
      let reads : (ltb 0 (offset % 512) || ltb (chunk_size d size offset) (512 - offset % 512))
          ≡ true =
        ground arith in
      rw reads f

  -- One round stores a blend of the chunk with what the sector held.
  write_step :
      length old ≡ 512
      → chunk_size d size offset ≤ 512 - offset % 512
      → read_bytes dev s ≡ some old
      → (new : List ℕ) × IsBlend old new buffer (offset % 512) at (chunk_size d size offset)
        × (write_loop (suc fuel) d dev true size offset at buffer ≡ next_round new)
  write_step full fits f = elim (Bool-cases (is_whole (chunk_size d size offset) offset)) [
    | inl w ↦ (_, whole-IsBlend old buffer offset at _ w, whole_step w)
    | inr w ↦ (
      _,
      part-IsBlend old buffer (offset % 512) at _ full (omega arith),
      part_step w (bounce_read w fits f),
    )
  ]

-- `r` returns the number of bytes that the file has room for from `offset` on, `size` at most, having
-- stored those bytes of the buffer, from `at` on, in the file.
pub record Writes {File : Type 0} (n : ℕ) (d : InodeDisk) (fs : Fs File) (size offset at : ℕ)
    (buffer : List ℕ) (r : Option (ℕ × Device)) : Type 0 where
  pub after : Device
  pub returns : r ≡ some (at + min size (d.length - offset), after)
  pub patched :
      Patched n offset
        (offset + min size (d.length - offset))
        (λ pos. get_or buffer (at + (pos - offset)) 0)
        d
        fs
        (record fs { dev = after })

-- A blend by the positions in the file instead of those in the sector.
blended :
    (new : List ℕ) (offset at c : ℕ) (buffer old : List ℕ)
    → IsBlend old new buffer (offset % 512) at c
    → (j : ℕ) → j < 512
    → get_or new j 0 ≡ (
        if leb offset (512 * (offset / 512) + j) && ltb (512 * (offset / 512) + j) (offset + c)
        then get_or buffer (at + (512 * (offset / 512) + j - offset)) 0
        else get_or old j 0)
blended new offset at c buffer old b j q =
    let low : leb offset (512 * (offset / 512) + j) ≡ leb (offset % 512) j = ground arith in
    let high : ltb (512 * (offset / 512) + j) (offset + c) ≡ ltb j (offset % 512 + c) =
      ground arith in
    let place : 512 * (offset / 512) + j - offset ≡ j - offset % 512 = omega arith in
    rw (low, high, place) (b.blend j q)

module _ {File : Type 0} {d : InodeDisk} {n : ℕ} where
  Writes-nothing :
      (fs : Fs File) (size offset at : ℕ) (buffer : List ℕ)
      → HasData d fs n
      → min size (d.length - offset) ≡ 0
      → Writes n d fs size offset at buffer (some (at, fs.dev))
  Writes-nothing fs size offset at buffer h e = record {
    after = fs.dev;
    returns =
        let same_cnt : at + min size (d.length - offset) ≡ at = omega arith in rw same_cnt refl;
    patched =
        let same_end : offset + min size (d.length - offset) ≡ offset = omega arith in
        rw same_end (Patched-none h);
  }

  Writes-more :
      (fs : Fs File) (dev' : Device) (size offset at c : ℕ) (buffer : List ℕ)
      (r : Option (ℕ × Device))
      → IsChunk d size offset c
      → Patched n offset
          (offset + c)
          (λ pos. get_or buffer (at + (pos - offset)) 0)
          d
          fs
          (record fs { dev = dev' })
      → Writes n d (record fs { dev = dev' }) (size - c) (offset + c) (at + c) buffer r
      → Writes n d fs size offset at buffer r
  Writes-more fs dev' size offset at c buffer r ch first w =
      let all : at + c + min (size - c) (d.length - (offset + c))
          ≡ at + min size (d.length - offset) =
        omega (arith, ch.wanted, ch.inside) in
      let end : offset + c + min (size - c) (d.length - (offset + c))
          ≡ offset + min size (d.length - offset) =
        omega (arith, ch.wanted, ch.inside) in
      record {
        after = w.after;
        returns = w.returns ∙ ap (λ i. some (i, w.after)) all;
        patched =
            Patched-trans (omega arith) (omega (arith, ch.wanted, ch.inside))
              (λ pos past. ap (λ i. get_or buffer i 0) (omega arith)) first (rw end at w.patched);
      }

  pub write_loop-Writes :
      (fuel size offset at : ℕ) (buffer : List ℕ) (fs : Fs File)
      → HasData d fs n
      → size < fuel
      → Writes n d fs size offset at buffer (write_loop fuel d fs.dev true size offset at buffer)
  write_loop-Writes zero size offset at buffer fs h more = absurd (omega arith)
  write_loop-Writes (suc fuel) size offset at buffer fs h more =
      elim (dec_lt 0 (min size (d.length - offset))) [
        | no nothing ↦
            rw (write_stop fuel d fs.dev size offset at buffer (omega arith))
              (Writes-nothing fs size offset at buffer h (omega arith))
        | yes some_left ↦
            let inside : offset < d.length = omega arith in
            let c : ℕ = chunk_size d size offset in
            let ch : IsChunk d size offset c = chunk_size-IsChunk d size offset in
            let advances = ch.advances (omega arith) inside in
            let k-lt = sector_of-lt h offset inside in
            let place : ℕ = place_of d fs.dev (file (offset / 512)) in
            let held = h.data_in _ k-lt in
            let (new, b, step) =
              write_step fuel d fs.dev size offset at place buffer (bytes_at fs.dev place)
                (omega arith) advances (byte_to_sector_lem d fs n offset h.holds inside k-lt)
                (place-lt h _ k-lt) held.full ch.in_sector
                (read_bytes_lem fs.dev _ (place-lt h _ k-lt) held) in
            let first =
              stored-Patched h (offset / 512) k-lt new b.full offset (offset + c)
                (λ pos. get_or buffer (at + (pos - offset)) 0) (omega arith)
                (omega (arith, ch.in_sector)) (blended new offset at c buffer _ b) in
            rw step (
              Writes-more fs (with_bytes fs.dev place new) size offset at c buffer _ ch first (
                write_loop-Writes fuel (size - c) (offset + c) (at + c) buffer
                  (record fs { dev = with_bytes fs.dev place new }) first.data_in (omega arith)))
      ]
