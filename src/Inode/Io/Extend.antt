-- ===== src/Inode/Io/Extend.antt =====
-- inode_write_at as a whole: a file that is too short is grown first, and the bytes written are read
-- back by inode_read_at.
use cs439_pcs.Base.{ℕ, ◌+◌, ◌-◌, ◌*◌, ◌/◌, ◌%◌, ◌≤◌, ◌<◌, min, max, true, false, ◌&&◌}
use cs439_pcs.Base.{Option, some, List, [], get_or, length, replicate, get_or-replicate, word_mod}
use cs439_pcs.Base.{◌≡◌, ◌≢◌, refl, ap, sym, ◌∙◌, arith, ltb, leb, if◌then◌else◌, lt→ltb}
use cs439_pcs.Device.{Device, InodeDisk, bytes, zeros}
use cs439_pcs.FreeMap.Count.{Stores}
use cs439_pcs.Inode.{bytes_to_sectors}
use cs439_pcs.Inode.Grow.{Fs, Grown, inode_grow}
use cs439_pcs.Inode.Grow.Fresh.{Used, free_sectors, IsFresh-ne}
use cs439_pcs.Inode.Slots.{Slot, file, place_of, Has, max_sectors, total}
use cs439_pcs.Inode.Layout.{Holds, Grew, meta_ne_file}
use cs439_pcs.Inode.Growth.{Grows, inode_grow-Grows}
use cs439_pcs.Inode.Io.{write_loop, write_into, inode_write_at, inode_read_at, Wrote}
use cs439_pcs.Inode.Io.Content.{
  HasData, IsData, IsData-kept, IsData-stored, content, bytes_at, bytes_at-kept,
}
use cs439_pcs.Inode.Io.Content.{sector_of-lt}
use cs439_pcs.Inode.Io.Write.{write_loop-Writes}
use cs439_pcs.Inode.Io.Read.{inode_read_at-Reads}
use native.Mathlib.Decide.{dec_lt}
use mathlib.Core.Path.{subst}

-- Byte `pos` of a file that had `n` sectors and then was given zeros.
abbrev pub padded : InodeDisk → Device → ℕ → ℕ → ℕ
padded d dev n pos = if ltb (pos / 512) n then content d dev pos else 0

module _ {File : Type 0} where
  -- A write of `size` bytes at `offset`: all were written and the file has them there; elsewhere the
  -- sectors that it had are as they were, and those that it took hold zeros; sectors in use that are
  -- not the file's are as they were.
  pub record Written (size offset : ℕ) (buffer : List ℕ) (n m : ℕ) (d : InodeDisk) (fs : Fs File)
      (r : Option (Wrote File)) : Type 0 where
    pub result : Wrote File
    pub returns : r ≡ some result
    pub complete : result.cnt ≡ size
    pub data_in : HasData result.data_ result.fs m
    pub same_length : result.data_.length ≡ max d.length (offset + size)
    pub written :
        (pos : ℕ)
        → pos / 512 < m
        → content result.data_ result.fs.dev pos ≡ (
            if leb offset pos && ltb pos (offset + size)
            then get_or buffer (pos - offset) 0
            else padded d fs.dev n pos)
    pub others :
        (s : ℕ)
        → Used fs s
        → ((t : Slot) → Has n t → place_of d fs.dev t ≢ s)
        → result.fs.dev.sectors s ≡ fs.dev.sectors s

  -- The layout does not depend on the length.
  with_length-Holds :
      {d : InodeDisk} {fs : Fs File} {n : ℕ} (l : ℕ)
      → Holds d fs n
      → Holds (record d { length = l }) fs n
  with_length-Holds l h = record {
    ready = h.ready;
    counters = record { low = h.counters.low; high = h.counters.high };
    room = h.room;
    fits = h.fits;
    owns = h.owns;
    blocks = h.blocks;
  }

  module _ {d d' : InodeDisk} {fs fs' : Fs File} {n m : ℕ} (h : HasData d fs n)
      (g : Grew n m d fs d' fs') where
    kept_there :
        (k : ℕ)
        → k < n
        → fs'.dev.sectors (place_of d fs.dev (file k)) ≡ fs.dev.sectors (place_of d fs.dev (file k))
    kept_there k q =
        g.spread.kept _ (h.holds.owns.used (file k) q)
          (λ t m l e. meta_ne_file t k m (h.holds.owns.apart t (file k) l q e))

    grown_IsData : (k : ℕ) → k < m → IsData fs'.dev (place_of d' fs'.dev (file k))
    unfolding zeros
    grown_IsData k q = elim (dec_lt k n) [
      | yes p ↦
          rw (g.spread.same_slots (file k) p)
            (IsData-kept fs.dev fs'.dev _ (kept_there k p) (h.data_in k p))
      | no p ↦ IsData-stored fs'.dev _ (replicate 512 0) (g.spread.zeroed k (omega arith) q) refl
    ]

    grown_content : (pos : ℕ) → pos / 512 < m → content d' fs'.dev pos ≡ padded d fs.dev n pos
    unfolding zeros
    grown_content pos q = elim (dec_lt (pos / 512) n) [
      | yes p ↦
          let held = bytes_at-kept fs.dev fs'.dev _ (kept_there (pos / 512) p) in
          rw (lt→ltb (pos / 512) n p, g.spread.same_slots (file (pos / 512)) p, held) refl
      | no p ↦
          let fresh : ltb (pos / 512) n ≡ false = ground arith in
          let clear : bytes_at fs'.dev (place_of d' fs'.dev (file (pos / 512))) ≡ replicate 512 0 =
            ap (λ c. elim c [ bytes p ↦ p | _ ↦ [] ])
              (g.spread.zeroed (pos / 512) (omega arith) q) in
          rw (fresh, clear) (get_or-replicate 512 (pos % 512) 0)
    ]

    grown_HasData : (l : ℕ) → l ≤ 512 * m → HasData (record d' { length = l }) fs' m
    grown_HasData l fits = record {
      holds = with_length-Holds l g.holds;
      covers = fits;
      data_in = grown_IsData;
    }

    -- A sector in use that is not the file's is not one of the grown file's either, and is kept.
    grown_others :
        (s : ℕ)
        → Used fs s
        → ((t : Slot) → Has n t → place_of d fs.dev t ≢ s)
        → (fs'.dev.sectors s ≡ fs.dev.sectors s)
          × ((k : ℕ) → k < m → place_of d' fs'.dev (file k) ≢ s)
    grown_others s u away = (
      g.spread.kept s u (λ t i l. away t l),
      λ k q. elim (dec_lt k n) [
        | yes p ↦ λ e. away (file k) p (sym (g.spread.same_slots (file k) p) ∙ e)
        | no p ↦ IsFresh-ne (g.spread.fresh (file k) q p) u
      ],
    )

module _ {File : Type 0} (write_at : File → List ℕ → ℕ → ℕ → ℕ × File)
    (junk : Fs File → List ℕ) where
  -- What the two branches of inode_write_at come to, by where their loop starts.
  write_into-runs :
      (d : InodeDisk) (fs : Fs File) (buffer : List ℕ) (size offset cnt : ℕ) (after : Device)
      → write_loop (size + 1) d fs.dev true size offset 0 buffer ≡ some (cnt, after)
      → write_into write_at junk d fs true buffer size offset
        ≡ some (record { cnt = cnt; data_ = d; fs = record fs { dev = after } })
  unfolding write_into
  write_into-runs d fs buffer size offset cnt after e = rw e refl

  long_enough :
      (d : InodeDisk) (fs : Fs File) (buffer : List ℕ) (size offset : ℕ)
      → offset + size ≤ d.length
      → inode_write_at write_at junk 0 d fs true buffer size offset
        ≡ write_into write_at junk d fs true buffer size offset
  unfolding inode_write_at
  long_enough d fs buffer size offset h =
      let no : ltb d.length (offset + size) ≡ false = ground arith in rw no refl

  too_short :
      (d : InodeDisk) (fs : Fs File) (buffer : List ℕ) (size offset : ℕ) (g : Grown File)
      → d.length < offset + size
      → inode_grow write_at junk (offset + size) d fs ≡ some g
      → inode_write_at write_at junk 0 d fs true buffer size offset
        ≡ write_into write_at junk
            (record (g.data_) { length = g.sectors })
            g.fs
            true
            buffer
            size
            offset
  unfolding inode_write_at
  too_short d fs buffer size offset g h e = rw (lt→ltb _ _ h, e) refl

  -- The loop run on the file as it is after growth.
  finish :
      (d d1 : InodeDisk) (fs fs1 : Fs File) (n m size offset : ℕ) (buffer : List ℕ)
      → HasData d1 fs1 m
      → d1.length ≡ max d.length (offset + size)
      → ((pos : ℕ) → pos / 512 < m → content d1 fs1.dev pos ≡ padded d fs.dev n pos)
      → ((s : ℕ)
          → Used fs s
          → ((t : Slot) → Has n t → place_of d fs.dev t ≢ s)
          → (fs1.dev.sectors s ≡ fs.dev.sectors s)
            × ((k : ℕ) → k < m → place_of d1 fs1.dev (file k) ≢ s))
      → Written size offset buffer n m d fs
          (write_into write_at junk d1 fs1 true buffer size offset)
  finish d d1 fs fs1 n m size offset buffer h len was away =
      let w = write_loop-Writes (size + 1) size offset 0 buffer fs1 h (omega arith) in
      let all : min size (d1.length - offset) ≡ size = omega (arith, len) in
      record {
        result = record {
          cnt = 0 + min size (d1.length - offset);
          data_ = d1;
          fs = record fs1 { dev = w.after };
        };
        returns = write_into-runs d1 fs1 buffer size offset _ w.after w.returns;
        complete = omega (arith, all);
        data_in = w.patched.data_in;
        same_length = len;
        written = λ pos q.
            let start : 0 + (pos - offset) ≡ pos - offset = omega arith in
            rw (← was pos q, ← start) (rw all at (w.patched.written pos q));
        others = λ s u f. let (kept, ne) = away s u f in w.patched.others s ne ∙ kept;
      }

  module _ (stores : Stores write_at) (junk_full : (fs : Fs File) → length (junk fs) ≡ 128) where
    -- Growth that is not cut short.
    grown_whole :
        (n n' m disk_length : ℕ) (d : InodeDisk) (fs : Fs File) (r : Option (Grown File))
        → n' ≡ m
        → n ≤ m
        → Grows write_at junk stores junk_full n n' (m - n) disk_length d fs r
        → (x : Grown File) × (r ≡ some x) × Grew n m d fs x.data_ x.fs × (x.sectors ≡ disk_length)
    grown_whole n n' m disk_length d fs r e more x = (
      x.grown,
      x.returns,
      subst (λ i. Grew n i d fs x.grown.data_ x.grown.fs) e x.grew,
      omega (arith, x.new_length),
    )

    -- With the bounce buffer granted, no writer denied, enough free sectors and a map file that takes
    -- every write, inode_write_at writes all bytes to a file whose sectors hold its bytes, also where
    -- it must grow within the reach of its pointers. The length is the greater of the old one and
    -- the end of the write, and the file has the new bytes where they were written. Elsewhere the
    -- bytes of the sectors that the file had are as they were, also behind its old end, and those of
    -- the sectors that it took are zeros. Other sectors in use are as they were.
    pub inode_write_at-Written :
        (n m size offset : ℕ) (buffer : List ℕ) (d : InodeDisk) (fs : Fs File)
        → HasData d fs n
        → n ≡ bytes_to_sectors d.length
        → m ≡ bytes_to_sectors (max d.length (offset + size))
        → m ≤ max_sectors
        → max d.length (offset + size) + 511 < word_mod
        → total m ≤ free_sectors fs + total n
        → Written size offset buffer n m d fs
            (inode_write_at write_at junk 0 d fs true buffer size offset)
    inode_write_at-Written n m size offset buffer d fs h en em reachable small enough =
        elim (dec_lt d.length (offset + size)) [
          | yes short ↦
              let top : max d.length (offset + size) ≡ offset + size = omega arith in
              let em' : m ≡ bytes_to_sectors (offset + size) = rw (← top) em in
              let end : min m max_sectors ≡ m = omega arith in
              let (x, returns, g, len) =
                grown_whole n _ m (offset + size) d fs _ end (omega arith) (
                  inode_grow-Grows write_at junk stores junk_full (offset + size) n m d fs h.holds
                    en em' (omega arith) (omega arith) (rw end enough)) in
              rw (too_short d fs buffer size offset x short returns) (
                finish d (record (x.data_) { length = x.sectors }) fs x.fs n m size offset buffer
                  (grown_HasData h g x.sectors (omega arith)) (omega arith) (grown_content h g)
                  (grown_others h g))
          | no long ↦
              let same_end : max d.length (offset + size) ≡ d.length = omega arith in
              let same_cnt : m ≡ n = em ∙ rw same_end (sym en) in
              rw (same_cnt, long_enough d fs buffer size offset (omega arith))
                (finish d d fs fs n n size offset buffer h (sym same_end)
                  (λ pos q. rw (lt→ltb (pos / 512) n q) refl)
                  (λ s u away. (refl, λ k q. away (file k) q)))
        ]

    -- With the bounce buffer granted, no writer denied, enough free sectors and a map file that takes
    -- every write, after inode_write_at to a file whose sectors hold its bytes, within the reach of
    -- its pointers, inode_read_at of the bytes just written, into a buffer with room for them,
    -- returns all of them, as they stood in the buffer of the write.
    pub inode_read_at-inode_write_at :
        (n m size offset : ℕ) (buffer buffer' : List ℕ) (d : InodeDisk) (fs : Fs File)
        → HasData d fs n
        → n ≡ bytes_to_sectors d.length
        → m ≡ bytes_to_sectors (max d.length (offset + size))
        → m ≤ max_sectors
        → max d.length (offset + size) + 511 < word_mod
        → total m ≤ free_sectors fs + total n
        → size ≤ length buffer'
        → (w : Wrote File) × (after : List ℕ) × (inode_write_at write_at junk 0 d fs true buffer
              size offset
            ≡ some w)
          × (inode_read_at w.data_ w.fs.dev true buffer' size offset ≡ some (size, after))
          × ((k : ℕ) → k < size → get_or after k 0 ≡ get_or buffer k 0)
    inode_read_at-inode_write_at n m size offset buffer buffer' d fs h en em reachable small enough
          room =
        let w = inode_write_at-Written n m size offset buffer d fs h en em reachable small enough in
        let r = inode_read_at-Reads w.data_in buffer' size offset room in
        let all : 0 + min size (w.result.data_.length - offset) ≡ size =
          omega (arith, w.same_length) in
        (
          w.result,
          r.after,
          w.returns,
          r.returns ∙ ap (λ i. some (i, r.after)) all,
          λ k q.
              let read : (leb 0 k && ltb k (0 + min size (w.result.data_.length - offset))) ≡ true =
                ground arith in
              let place : k - 0 ≡ k = omega arith in
              let inside : (leb offset (offset + k) && ltb (offset + k) (offset + size)) ≡ true =
                ground arith in
              let back : offset + k - offset ≡ k = omega arith in
              let got = rw (read, place) at (r.copied k) in
              let put =
                rw (inside, back) at
                  (w.written (offset + k)
                    (sector_of-lt w.data_in (offset + k) (omega (arith, w.same_length)))) in
              got ∙ put,
        )
