-- ===== src/Inode/Layout.antt =====
-- An inode laid out on the device: what holds of it, what growing it means, and where
-- byte_to_sector finds its bytes.
use cs439_pcs.Base.{ℕ, ◌+◌, ◌-◌, ◌*◌, ◌/◌, ◌≤◌, ◌<◌, some, false, true}
use cs439_pcs.Base.{◌≡◌, ◌≢◌, refl, sym, ◌∙◌, ◌⊎◌, inl, inr, arith, ltb, length}
use cs439_pcs.Base.{lt→ltb}
use cs439_pcs.Device.{InodeDisk, zeros, sector_size}
use cs439_pcs.Inode.{sector_at, byte_to_sector}
use cs439_pcs.Inode.Grow.{Fs}
use cs439_pcs.Inode.Grow.Fresh.{Used, sector_cnt, free_sectors, IsReady, IsFresh, IsFresh-ne}
use cs439_pcs.Inode.Grow.Fresh.{not_used}
use cs439_pcs.Inode.Slots.{Slot, file, single, double, inner, entries, slot_at, place_of, Live, Has}
use cs439_pcs.Inode.Slots.{Live-dec, IsMeta, max_sectors, total, Counters, IsIndex, read_index_lem}
use cs439_pcs.Device.{read_index}
use native.Mathlib.Decide.{dec_lt}

pub Live-more :
    {n b n' b' : ℕ} (t : Slot) → n ≤ n' → (138 < b → 138 < b') → Live n b t → Live n' b' t
Live-more (file k) h h' l = omega arith
Live-more single h h' l = omega arith
Live-more double h h' l = h' l
Live-more (inner j) h h' l = omega arith

pub meta_ne_file : (t : Slot) (k : ℕ) → IsMeta t → t ≢ file k
meta_ne_file (file j) k m e = absurd m
meta_ne_file single k m e = cc
meta_ne_file double k m e = cc
meta_ne_file (inner j) k m e = cc

pub file_injective : (k j : ℕ) → file k ≡ file j → k ≡ j
file_injective k j e = cc

module _ {File : Type 0} where
  -- The slots `L` have sectors of their own, which are in use.
  pub record Owns (L : Slot → Type 0) (at : Slot → ℕ) (fs : Fs File) : Type 0 where
    pub used : (t : Slot) → L t → Used fs (at t)
    pub in_range : (t : Slot) → L t → at t < sector_cnt fs
    pub apart : (t u : Slot) → L t → L u → at t ≡ at u → t ≡ u

  -- Slots `N` are added, with distinct fresh sectors.
  pub Owns-extend :
      (L N L' : Slot → Type 0) (at at' : Slot → ℕ) {fs fs' : Fs File}
      → Owns L at fs
      → sector_cnt fs' ≡ sector_cnt fs
      → ((s : ℕ) → Used fs s → Used fs' s)
      → ((t : Slot) → L t → at' t ≡ at t)
      → ((t : Slot) → L' t → L t ⊎ N t)
      → ((t : Slot) → N t → IsFresh fs fs' (at' t))
      → ((t u : Slot) → N t → N u → at' t ≡ at' u → t ≡ u)
      → Owns L' at' fs'
  Owns-extend L N L' at at' {fs} {fs'} o same_cnt still same split fresh distinct = record {
    used = λ t l. elim (split t l) [
      | inl old ↦ rw (same t old) (still _ (o.used t old))
      | inr new ↦ (fresh t new).taken
    ];
    in_range = λ t l. elim (split t l) [
      | inl old ↦ rw (same t old, same_cnt) (o.in_range t old)
      | inr new ↦ rw same_cnt ((fresh t new).in_range)
    ];
    apart = λ t u l m e. elim (split t l) [
      | inl old ↦ elim (split u m) [
        | inl old' ↦ o.apart t u old old' (sym (same t old) ∙ e ∙ same u old')
        | inr new' ↦ absurd (IsFresh-ne (fresh u new') (o.used t old) (sym e ∙ same t old))
      ]
      | inr new ↦ elim (split u m) [
        | inl old' ↦ absurd (IsFresh-ne (fresh t new) (o.used u old') (e ∙ same u old'))
        | inr new' ↦ distinct t u new new' e
      ]
    ];
  }

  -- The inode's data describes a file of `n` sectors: its counters say where the next sector goes,
  -- and its slots have distinct sectors in use, those of index blocks with index blocks in them.
  pub record Holds (d : InodeDisk) (fs : Fs File) (n : ℕ) : Type 0 where
    pub ready : IsReady fs
    pub counters : Counters d n
    pub room : length d.ptr ≡ 12
    pub fits : n ≤ max_sectors
    pub owns : Owns (Has n) (place_of d fs.dev) fs
    pub blocks : (t : Slot) → Has n t → IsMeta t → IsIndex fs.dev (place_of d fs.dev t)

  -- From the slots of `n` sectors to those of `n'`: the slots keep their sectors, the new ones are
  -- fresh, those of the file with zeros in them, and no sector that was in use and is not an index
  -- block of the file was written.
  pub record Spread (n b n' b' : ℕ) (at at' : Slot → ℕ) (fs fs' : Fs File) : Type 0 where
    pub more : n ≤ n'
    pub more_b : 138 < b → 138 < b'
    pub same_cnt : sector_cnt fs' ≡ sector_cnt fs
    pub same_slots : (t : Slot) → Live n b t → at' t ≡ at t
    pub fresh : (t : Slot) → Live n' b' t → ¬ Live n b t → IsFresh fs fs' (at' t)
    pub zeroed : (k : ℕ) → n ≤ k → k < n' → fs'.dev.sectors (at' (file k)) ≡ zeros
    pub still : (s : ℕ) → Used fs s → Used fs' s
    pub kept :
        (s : ℕ)
        → Used fs s
        → ((t : Slot) → IsMeta t → Live n b t → at t ≢ s)
        → fs'.dev.sectors s ≡ fs.dev.sectors s

  -- A file of `n` sectors grew to `n'`, and took as many sectors as it needs.
  pub record Grew (n n' : ℕ) (d : InodeDisk) (fs : Fs File) (d' : InodeDisk) (fs' : Fs File)
      : Type 0 where
    pub holds : Holds d' fs' n'
    pub same_length : d'.length ≡ d.length
    pub spread : Spread n n n' n' (place_of d fs.dev) (place_of d' fs'.dev) fs fs'
    pub counted : free_sectors fs' + total n' ≡ free_sectors fs + total n

  pub Spread-trans :
      {n b n' b' n'' b'' : ℕ} {at at' at'' : Slot → ℕ} {fs fs' fs'' : Fs File}
      → Owns (Live n' b') at' fs'
      → Spread n b n' b' at at' fs fs'
      → Spread n' b' n'' b'' at' at'' fs' fs''
      → Spread n b n'' b'' at at'' fs fs''
  Spread-trans {n} {b} {n'} {b'} {n''} {b''} {at} {at'} {at''} {fs} {fs'} {fs''} o g h = record {
    more = omega (arith, g.more, h.more);
    more_b = λ q. h.more_b (g.more_b q);
    same_cnt = h.same_cnt ∙ g.same_cnt;
    same_slots = λ t l. h.same_slots t (Live-more t g.more g.more_b l) ∙ g.same_slots t l;
    fresh = λ t l nl. elim (Live-dec n' b' t) [
      | yes mid ↦ rw (h.same_slots t mid) (record {
        in_range = (g.fresh t mid nl).in_range;
        was_free = (g.fresh t mid nl).was_free;
        taken = h.still _ (g.fresh t mid nl).taken;
      })
      | no nm ↦ record {
        in_range = rw (← g.same_cnt) ((h.fresh t l nm).in_range);
        was_free = not_used _ _ (g.still _) (h.fresh t l nm).was_free;
        taken = (h.fresh t l nm).taken;
      }
    ];
    zeroed = λ k p q. elim (dec_lt k n') [
      | yes r ↦ rw (h.same_slots (file k) r) (
          h.kept _ (o.used (file k) r) (λ t m l e. meta_ne_file t k m (o.apart t (file k) l r e))
          ∙ g.zeroed k p r)
      | no r ↦ h.zeroed k (omega arith) q
    ];
    still = λ s u. h.still s (g.still s u);
    kept = λ s u away.
        h.kept s (g.still s u) (λ t m l e. elim (Live-dec n b t) [
          | yes old ↦ away t m old (sym (g.same_slots t old) ∙ e)
          | no new ↦ IsFresh-ne (g.fresh t l new) u e
        ])
        ∙ g.kept s u away;
  }

  pub Grew-trans :
      {n n' n'' : ℕ} {d d' d'' : InodeDisk} {fs fs' fs'' : Fs File}
      → Grew n n' d fs d' fs'
      → Grew n' n'' d' fs' d'' fs''
      → Grew n n'' d fs d'' fs''
  Grew-trans g h = record {
    holds = h.holds;
    same_length = h.same_length ∙ g.same_length;
    spread = Spread-trans g.holds.owns g.spread h.spread;
    counted = omega (arith, g.counted, h.counted);
  }

  in_device :
      {d : InodeDisk} {fs : Fs File} {n : ℕ} (t : Slot)
      → Holds d fs n
      → Has n t
      → place_of d fs.dev t < fs.dev.size
  in_device t h l = rw h.ready.sized (h.owns.in_range t l)

  meta_read :
      {d : InodeDisk} {fs : Fs File} {n : ℕ} (t : Slot)
      → Holds d fs n
      → Has n t
      → IsMeta t
      → read_index fs.dev (place_of d fs.dev t) ≡ some (entries fs.dev (place_of d fs.dev t))
  meta_read t h l m = read_index_lem _ _ (in_device t h l) (h.blocks t l m)

  pub sector_at_lem :
      (d : InodeDisk) (fs : Fs File) (n k : ℕ)
      → Holds d fs n
      → k < n
      → sector_at d fs.dev k ≡ some (place_of d fs.dev (file k))
  unfolding sector_at slot_at
  sector_at_lem d fs n k h q = elim (dec_lt k 10) [
    | yes p ↦ rw (lt→ltb k 10 p) refl
    | no p ↦ elim (dec_lt k 138) [
      | yes r ↦
          let one : 10 < n = omega arith in
          let e = meta_read single h one tt in
          let past : ltb k 10 ≡ false = ground arith in
          let below : ltb (k - 10) 128 ≡ true = ground arith in
          rw (past, below, lt→ltb k 138 r, e) refl
      | no r ↦
          let two : 138 < n = omega arith in
          let third : 138 + 128 * ((k - 138) / 128) < n = omega arith in
          let e = meta_read double h two tt in
          let e' = meta_read (inner ((k - 138) / 128)) h third tt in
          let past : ltb k 10 ≡ false = ground arith in
          let past' : ltb k 138 ≡ false = ground arith in
          let past'' : ltb (k - 10) 128 ≡ false = ground arith in
          let below : ltb (k - 10 - 128) (128 * 128) ≡ true = ground (arith, h.fits) in
          let shift : k - 10 - 128 ≡ k - 138 = omega arith in
          rw (past, past', past'', below, shift, e, e') refl
    ]
  ]

  -- A byte below the length, of a file laid out in `n` sectors, is in the sector of its slot.
  pub byte_to_sector_lem :
      (d : InodeDisk) (fs : Fs File) (n pos : ℕ)
      → Holds d fs n
      → pos < d.length
      → pos / sector_size < n
      → byte_to_sector d fs.dev pos ≡ some (place_of d fs.dev (file (pos / sector_size)))
  unfolding byte_to_sector
  byte_to_sector_lem d fs n pos h p q = rw (lt→ltb _ _ p) (sector_at_lem d fs n (pos / 512) h q)

  -- In a file laid out in `n` sectors that no two of its slots share, two bytes below the length and in
  -- the first `n` blocks of 512 bytes of the file are each found in the sector of the slot of their
  -- block, which is in use, and in one sector only if they are in one block.
  pub byte_to_sector_injective :
      (d : InodeDisk) (fs : Fs File) (n pos pos' : ℕ)
      → Holds d fs n
      → pos < d.length
      → pos' < d.length
      → pos / sector_size < n
      → pos' / sector_size < n
      → (s s' : ℕ) × (byte_to_sector d fs.dev pos ≡ some s)
        × (byte_to_sector d fs.dev pos' ≡ some s')
        × (s ≡ place_of d fs.dev (file (pos / sector_size)))
        × (s' ≡ place_of d fs.dev (file (pos' / sector_size)))
        × Used fs s
        × Used fs s'
        × (s ≡ s' → pos / sector_size ≡ pos' / sector_size)
  byte_to_sector_injective d fs n pos pos' h p p' q q' = (
    place_of d fs.dev (file (pos / 512)),
    place_of d fs.dev (file (pos' / 512)),
    byte_to_sector_lem d fs n pos h p q,
    byte_to_sector_lem d fs n pos' h p' q',
    refl,
    refl,
    h.owns.used (file (pos / 512)) q,
    h.owns.used (file (pos' / 512)) q',
    λ e. file_injective _ _ (h.owns.apart (file (pos / 512)) (file (pos' / 512)) q q' e),
  )
