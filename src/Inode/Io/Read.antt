-- ===== src/Inode/Io/Read.antt =====
-- What inode_read_at copies.
use cs439_pcs.Base.{ℕ, zero, suc, ◌+◌, ◌-◌, ◌/◌, ◌%◌, ◌≤◌, ◌<◌, min, Bool, true, false, ◌&&◌, ◌||◌}
use cs439_pcs.Base.{Option, some, List, get_or, length, memcpy, length-memcpy, get_or-memcpy}
use cs439_pcs.Base.{◌≡◌, refl, ap, ◌∙◌, arith, ltb, leb, if◌then◌else◌, ==_ne, ==_is}
use cs439_pcs.Device.{Device, InodeDisk, read_bytes}
use cs439_pcs.Inode.{byte_to_sector}
use cs439_pcs.Inode.Grow.{Fs}
use cs439_pcs.Inode.Slots.{file, place_of}
use cs439_pcs.Inode.Layout.{byte_to_sector_lem}
use cs439_pcs.Inode.Io.{chunk_size, is_whole, read_loop, inode_read_at}
use cs439_pcs.Inode.Io.Content.{
  HasData, IsChunk, chunk_size-IsChunk, content, bytes_at, read_bytes_lem,
}
use cs439_pcs.Inode.Io.Content.{place-lt, sector_of-lt}
use native.Mathlib.Decide.{dec_lt}

-- `r` returns the bytes that the file has from `offset` on, `size` at most, behind the first `at`
-- bytes of the buffer, and no other byte of the buffer changes.
pub record Reads (d : InodeDisk) (dev : Device) (size offset at : ℕ) (buffer : List ℕ)
    (r : Option (ℕ × List ℕ)) : Type 0 where
  pub after : List ℕ
  pub returns : r ≡ some (at + min size (d.length - offset), after)
  pub same_room : length after ≡ length buffer
  pub copied :
      (k : ℕ)
      → get_or after k 0 ≡ (
          if leb at k && ltb k (at + min size (d.length - offset))
          then content d dev (offset + (k - at))
          else get_or buffer k 0)

or_true : (b : Bool) → (b || true) ≡ true
or_true true = refl
or_true false = refl

-- One round of the loop that finds its sector.
read_step :
    (fuel : ℕ) (d : InodeDisk) (dev : Device) (size offset at s : ℕ) (buffer sector : List ℕ)
    → 0 < size
    → 0 < chunk_size d size offset
    → byte_to_sector d dev offset ≡ some s
    → read_bytes dev s ≡ some sector
    → read_loop (suc fuel) d dev true size offset at buffer
      ≡ read_loop fuel d dev true
          (size - chunk_size d size offset)
          (offset + chunk_size d size offset)
          (at + chunk_size d size offset)
          (memcpy buffer at sector (offset % 512) (chunk_size d size offset))
unfolding read_loop
read_step fuel d dev size offset at s buffer sector p q e e' =
    rw
      (
        ==_ne size 0 (omega arith),
        e,
        ==_ne (chunk_size d size offset) 0 (omega arith),
        or_true (is_whole (chunk_size d size offset) offset),
        e',
      )
      refl

-- With no byte wanted, or none left in the file, the loop ends at once.
read_stop :
    (fuel : ℕ) (d : InodeDisk) (dev : Device) (size offset at : ℕ) (buffer : List ℕ)
    → min size (d.length - offset) ≡ 0
    → read_loop (suc fuel) d dev true size offset at buffer ≡ some (at, buffer)
unfolding read_loop byte_to_sector
read_stop fuel d dev zero offset at buffer e = refl
read_stop fuel d dev (suc size) offset at buffer e =
    let past : ltb offset d.length ≡ false = ground arith in
    let ch = chunk_size-IsChunk d (suc size) offset in
    let gone : chunk_size d (suc size) offset ≡ 0 = omega (arith, ch.inside) in
    rw (==_ne (suc size) 0 (omega arith), past, ==_is _ _ gone) refl

Reads-nothing :
    (d : InodeDisk) (dev : Device) (size offset at : ℕ) (buffer : List ℕ)
    → min size (d.length - offset) ≡ 0
    → Reads d dev size offset at buffer (some (at, buffer))
Reads-nothing d dev size offset at buffer e = record {
  after = buffer;
  returns = let same_cnt : at + min size (d.length - offset) ≡ at = omega arith in rw same_cnt refl;
  same_room = refl;
  copied = λ k.
      let out : (leb at k && ltb k (at + min size (d.length - offset))) ≡ false = ground arith in
      rw out refl;
}

module _ {File : Type 0} {d : InodeDisk} {fs : Fs File} {n : ℕ} (h : HasData d fs n) where
  -- A chunk, and then what is behind it.
  Reads-more :
      (size offset at c : ℕ) (buffer : List ℕ) (r : Option (ℕ × List ℕ))
      → IsChunk d size offset c
      → offset < d.length
      → at + size ≤ length buffer
      → Reads d fs.dev
          (size - c)
          (offset + c)
          (at + c)
          (memcpy buffer at
            (bytes_at fs.dev (place_of d fs.dev (file (offset / 512))))
            (offset % 512)
            c)
          r
      → Reads d fs.dev size offset at buffer r
  Reads-more size offset at c buffer r ch inside room w =
      let src : List ℕ = bytes_at fs.dev (place_of d fs.dev (file (offset / 512))) in
      let all : at + c + min (size - c) (d.length - (offset + c))
          ≡ at + min size (d.length - offset) =
        omega (arith, ch.wanted, ch.inside) in
      record {
        after = w.after;
        returns = w.returns ∙ ap (λ i. some (i, w.after)) all;
        same_room = w.same_room ∙ length-memcpy buffer at src (offset % 512) c;
        copied = λ k.
            let copy = get_or-memcpy buffer at src (offset % 512) c k (omega (arith, ch.wanted)) in
            elim (dec_lt k at) [
              | yes before ↦ ground (arith, w.copied k, copy)
              | no from ↦ elim (dec_lt k (at + c)) [
                | yes here ↦
                    let quot : (offset + (k - at)) / 512 ≡ offset / 512 =
                      omega (arith, ch.in_sector) in
                    let rem : (offset + (k - at)) % 512 ≡ offset % 512 + (k - at) =
                      omega (arith, ch.in_sector) in
                    let out : (leb (at + c) k && ltb k (at + min size (d.length - offset)))
                        ≡ false =
                      ground arith in
                    let ins : (leb at k && ltb k (at + c)) ≡ true = ground arith in
                    let ins' : (leb at k && ltb k (at + min size (d.length - offset))) ≡ true =
                      ground (arith, ch.wanted, ch.inside) in
                    let got = rw (all, out) at (w.copied k) in
                    let got' = rw ins at copy in rw (ins', quot, rem) (got ∙ got')
                | no past ↦
                    let far : offset + c + (k - (at + c)) ≡ offset + (k - at) = omega arith in
                    let same_test : (leb (at + c) k && ltb k (at + min size (d.length - offset)))
                        ≡ (leb at k && ltb k (at + min size (d.length - offset))) =
                      ground arith in
                    let out : (leb at k && ltb k (at + c)) ≡ false = ground arith in
                    let got = rw (all, far, same_test) at (w.copied k) in
                    let got' = rw out at copy in rw got' at got
              ]
            ];
      }

  read_loop-Reads :
      (fuel size offset at : ℕ) (buffer : List ℕ)
      → size < fuel
      → at + size ≤ length buffer
      → Reads d fs.dev size offset at buffer (read_loop fuel d fs.dev true size offset at buffer)
  read_loop-Reads zero size offset at buffer more room = absurd (omega arith)
  read_loop-Reads (suc fuel) size offset at buffer more room =
      elim (dec_lt 0 (min size (d.length - offset))) [
        | no nothing ↦
            rw (read_stop fuel d fs.dev size offset at buffer (omega arith))
              (Reads-nothing d fs.dev size offset at buffer (omega arith))
        | yes some_left ↦
            let inside : offset < d.length = omega arith in
            let c : ℕ = chunk_size d size offset in
            let ch : IsChunk d size offset c = chunk_size-IsChunk d size offset in
            let k-lt = sector_of-lt h offset inside in
            let src : List ℕ = bytes_at fs.dev (place_of d fs.dev (file (offset / 512))) in
            let moved : List ℕ = memcpy buffer at src (offset % 512) c in
            let same_room = length-memcpy buffer at src (offset % 512) c in
            let step =
              read_step fuel d fs.dev size offset at _ buffer src (omega arith)
                (ch.advances (omega arith) inside)
                (byte_to_sector_lem d fs n offset h.holds inside k-lt)
                (read_bytes_lem fs.dev _ (place-lt h _ k-lt) (h.data_in _ k-lt)) in
            rw step (
              Reads-more size offset at c buffer _ ch inside room (
                read_loop-Reads fuel (size - c) (offset + c) (at + c) moved
                  (omega (arith, ch.advances (omega arith) inside)) (omega (arith, ch.wanted))))
      ]

  -- In a file whose sectors hold all bytes below its length, and with the bounce buffer granted,
  -- inode_read_at returns the bytes from `offset` on, as many as are wanted or as the file has, and
  -- puts them at the start of the buffer, which has room for those wanted; it changes nothing else.
  pub inode_read_at-Reads :
      (buffer : List ℕ) (size offset : ℕ)
      → size ≤ length buffer
      → Reads d fs.dev size offset 0 buffer (inode_read_at d fs.dev true buffer size offset)
  unfolding inode_read_at
  inode_read_at-Reads buffer size offset room =
      let next : size + 1 ≡ suc size = omega arith in
      rw next (read_loop-Reads (suc size) size offset 0 buffer (omega arith) (omega arith))
