-- ===== src/Inode/Inner.antt =====
-- One round of the second level: an inner index block is filled further, while the block that lists
-- the inner ones is in memory.
use cs439_pcs.Base.{ℕ, ◌+◌, ◌-◌, ◌*◌, ◌/◌, ◌%◌, ◌≤◌, ◌<◌, List, false}
use cs439_pcs.Base.{
  ◌≡◌, ◌≢◌, refl, sym, ◌∙◌, ap, ◌⊎◌, inl, inr, arith, ltb, if◌then◌else◌, length, ◌==◌,
}
use cs439_pcs.Base.{==_ne, ==_is}
use mathlib.Core.Path.{ap₂}
use cs439_pcs.Device.{InodeDisk}
use cs439_pcs.Inode.{entry}
use cs439_pcs.Inode.Grow.{Fs}
use cs439_pcs.Inode.Grow.Fresh.{Used, free_sectors, IsReady, IsFresh, IsFresh-ne}
use cs439_pcs.Inode.Block.{Opened, Extended, allocated, present}
use cs439_pcs.Inode.Slots.{Slot, file, single, double, inner, entries, slot_at, Live}
use cs439_pcs.Inode.Slots.{
  IsMeta, max_sectors, Counters, IsIndex, IsIndex-kept, IsIndex-stored, entries-kept,
}
use cs439_pcs.Inode.Layout.{Owns, Owns-extend, Spread}
use cs439_pcs.Inode.Direct.{direct_place}
use cs439_pcs.Inode.Single.{single_place, single_lem}
use native.Mathlib.Decide.{dec_lt, ℕ_discrete}
use mathlib.Core.Bool.{false≢true}

-- A file sector from the 138th on is listed in an inner index block.
pub inner_place :
    (ptr second : List ℕ) (rd : ℕ → List ℕ) (k : ℕ)
    → 138 ≤ k
    → slot_at ptr second rd (file k) ≡ entry (rd (entry second ((k - 138) / 128))) ((k - 138) % 128)
unfolding slot_at
inner_place ptr second rd k p =
    let past : ltb k 10 ≡ false = ground arith in
    let past' : ltb k 138 ≡ false = ground arith in rw (past, past') refl

pub inner_lem :
    (ptr second : List ℕ) (rd : ℕ → List ℕ) (j : ℕ)
    → slot_at ptr second rd (inner j) ≡ entry second j
unfolding slot_at
inner_lem ptr second rd j = refl

pub double_lem :
    (ptr second : List ℕ) (rd : ℕ → List ℕ) → slot_at ptr second rd double ≡ entry ptr 11
unfolding slot_at
double_lem ptr second rd = refl

-- The slots of `n` sectors and the second level's block, whether it lists anything or not.
abbrev pub Open : ℕ → Slot → Type 0
Open n = Live n 139

-- The state in the loop of second_indir_alloc: the entries `second` are not on the device yet.
pub record Working {File : Type 0} (d : InodeDisk) (second : List ℕ) (fs : Fs File) (n : ℕ)
    : Type 0 where
  pub ready : IsReady fs
  pub counters : Counters d n
  pub from : 138 ≤ n
  pub fits : n ≤ max_sectors
  pub room : length d.ptr ≡ 12
  pub full : length second ≡ 128
  pub owns : Owns (Open n) (slot_at d.ptr second (entries fs.dev)) fs
  pub blocks :
      (t : Slot)
      → Open n t
      → IsMeta t
      → t ≢ double
      → IsIndex fs.dev (slot_at d.ptr second (entries fs.dev) t)

-- The new slots when a file of `n` sectors grows to `n'` in an inner block.
abbrev NewInner : ℕ → ℕ → Slot → Type 0
NewInner n n' (file k) = (n ≤ k) × (k < n')
NewInner n n' single = ⊥
NewInner n n' double = ⊥
NewInner n n' (inner j) = n ≡ 138 + 128 * j

-- The inode when the index reached is `index`.
abbrev pub inner_done : InodeDisk → ℕ → InodeDisk
inner_done d index =
    let d' = record d { second_level_index = index } in
    let full = record d { first_level_index = d.first_level_index + 1; second_level_index = 0 } in
    if index == 128 then full else d'

pub ptr-inner_done : (d : InodeDisk) (index : ℕ) → (inner_done d index).ptr ≡ d.ptr
ptr-inner_done d index = ground arith

pub length-inner_done : (d : InodeDisk) (index : ℕ) → (inner_done d index).length ≡ d.length
length-inner_done d index = ground arith

inner_injective : (i j : ℕ) → inner i ≡ inner j → i ≡ j
inner_injective i j e = cc

-- `j` is the number of the inner block, and `r` the entry at which it goes on.
module _ {File : Type 0} (d : InodeDisk) (n n' j r : ℕ) (second block second' new : List ℕ)
    {fs mid fs' : Fs File} (w : Working d second fs n) (ej : j ≡ (n - 138) / 128)
    (er : r ≡ (n - 138) % 128) (more : n < n') (most : n' ≤ 138 + 128 * j + 128)
    (small : n < max_sectors) (o : Opened (r == 0) second j fs block second' mid)
    (x : Extended (r == 0) r (r + (n' - n)) (entry second' j) block new fs fs') where
  from : 138 ≤ n
  from = w.from

  start : 138 + 128 * j + r ≡ n
  start = omega (arith, w.from)

  before : Slot → ℕ
  before = slot_at d.ptr second (entries fs.dev)

  after : Slot → ℕ
  after = slot_at d.ptr second' (entries fs'.dev)

  stored : entries fs'.dev (entry second' j) ≡ new
  stored = rw (x.stored, entries) refl

  was_present : 0 < r → (r == 0) ≡ false
  was_present q = ==_ne r 0 (λ e. omega arith)

  block_fresh : r ≡ 0 → IsFresh fs fs' (entry second' j)
  block_fresh e = elim x.source [
    | allocated q f ↦ f
    | present q u p ↦ absurd (false≢true (sym q ∙ ==_is r 0 e))
  ]

  -- A slot in use that is not the block written keeps its contents.
  spared_slot : (t : Slot) → Open n t → t ≢ inner j → before t ≢ entry second' j
  unfolding before
  spared_slot t l ne e = elim (ℕ_discrete r 0) [
    | yes z ↦ IsFresh-ne (block_fresh z) (w.owns.used t l) (sym e)
    | no nz ↦
        let listed : entry second' j ≡ entry second j =
          ap (λ s. entry s j) (o.old (was_present (omega arith))).0 in
        ne
          (w.owns.apart t (inner j) l (omega (arith, start)) (e ∙ listed ∙ sym (inner_lem _ _ _ j)))
  ]

  same_entries :
      (t : Slot) → Open n t → t ≢ inner j → entries fs'.dev (before t) ≡ entries fs.dev (before t)
  unfolding before
  same_entries t l ne =
      entries-kept fs.dev fs'.dev (before t)
        (x.kept (before t) (w.owns.used t l) (spared_slot t l ne))

  no_single : single ≢ inner j
  no_single e = cc

  at_new : (k : ℕ) → 138 + 128 * j ≤ k → k < n' → after (file k) ≡ entry new (k - (138 + 128 * j))
  unfolding after
  at_new k p q =
      let here : (k - 138) / 128 ≡ j = omega arith in
      let there : (k - 138) % 128 ≡ k - (138 + 128 * j) = omega arith in
      rw (inner_place d.ptr second' (entries fs'.dev) k (omega arith), here, there, stored) refl

  same_file : (k : ℕ) → k < n → after (file k) ≡ before (file k)
  unfolding after before
  same_file k l = elim (dec_lt k 10) [
    | yes p ↦ direct_place _ _ _ k p ∙ sym (direct_place _ _ _ k p)
    | no p ↦ elim (dec_lt k 138) [
      | yes q ↦
          single_place _ _ _ k (omega arith) q
          ∙ ap (λ e. entry e (k - 10))
              (rw single_lem at (same_entries single (omega arith) no_single))
          ∙ sym (single_place _ _ _ k (omega arith) q)
      | no q ↦ elim (ℕ_discrete ((k - 138) / 128) j) [
        | yes e ↦
            let going : 0 < r = omega (arith, start) in
            let index : k - (138 + 128 * j) ≡ (k - 138) % 128 = omega arith in
            at_new k (omega arith) (omega arith)
            ∙ x.before (k - (138 + 128 * j)) (omega (arith, start))
            ∙ ap₂ entry (o.old (was_present going)).1 index
            ∙ ap (λ i. entry (entries fs.dev (entry second i)) ((k - 138) % 128)) (sym e)
            ∙ sym (inner_place _ _ _ k (omega arith))
        | no ne ↦
            let i : ℕ = (k - 138) / 128 in
            let live : Open n (inner i) = omega (arith, start) in
            let other : inner i ≢ inner j = λ e. ne (inner_injective _ _ e) in
            inner_place _ _ _ k (omega arith)
            ∙ ap (λ s. entry (entries fs'.dev s) ((k - 138) % 128)) (o.others i ne)
            ∙ ap (λ e. entry e ((k - 138) % 128))
                (rw inner_lem at (same_entries (inner i) live other))
            ∙ sym (inner_place _ _ _ k (omega arith))
      ]
    ]
  ]

  same : (t : Slot) → Open n t → after t ≡ before t
  unfolding after before
  same (file k) l = same_file k l
  same single l = single_lem _ _ _ ∙ sym (single_lem _ _ _)
  same double l = double_lem _ _ _ ∙ sym (double_lem _ _ _)
  same (inner i) l = elim (ℕ_discrete i j) [
    | yes e ↦
        inner_lem _ _ _ i
        ∙ ap (λ s. entry s i) (o.old (was_present (omega (arith, start)))).0
        ∙ sym (inner_lem _ _ _ i)
    | no ne ↦ inner_lem _ _ _ i ∙ o.others i ne ∙ sym (inner_lem _ _ _ i)
  ]

  split : (t : Slot) → Open n' t → Open n t ⊎ NewInner n n' t
  split (file k) l = elim (dec_lt k n) [ yes p ↦ inl p | no p ↦ inr (omega arith, l) ]
  split single l = inl (omega (arith, start))
  split double l = inl l
  split (inner i) l = elim (dec_lt (138 + 128 * i) n) [
    | yes p ↦ inl p
    | no p ↦ inr (omega (arith, start))
  ]

  -- A new inner slot is the block that is being filled.
  is_here : (i : ℕ) → n ≡ 138 + 128 * i → i ≡ j
  is_here i e = omega (arith, start)

  fresh : (t : Slot) → NewInner n n' t → IsFresh fs fs' (after t)
  unfolding after
  fresh (file k) (p, q) =
      rw (at_new k (omega (arith, start)) q)
        (x.added (k - (138 + 128 * j)) (omega (arith, start)) (omega (arith, start)))
  fresh single l = absurd l
  fresh double l = absurd l
  fresh (inner i) e = rw (is_here i e, inner_lem) (block_fresh (omega (arith, start, is_here i e)))

  apart_block : (k i : ℕ) → n ≤ k → k < n' → n ≡ 138 + 128 * i → after (file k) ≢ after (inner i)
  unfolding after
  apart_block k i p q e same_sector =
      x.apart (k - (138 + 128 * j)) (omega (arith, start)) (omega (arith, start)) (
        sym (at_new k (omega (arith, start)) q)
        ∙ same_sector
        ∙ inner_lem _ _ _ i
        ∙ ap (entry second') (is_here i e))

  apart : (t u : Slot) → NewInner n n' t → NewInner n n' u → after t ≡ after u → t ≡ u
  apart (file k) (file m) (p, q) (p', q') e =
      let a : 138 + 128 * j ≤ k = omega (arith, start) in
      let b : 138 + 128 * j ≤ m = omega (arith, start) in
      let same_index =
        x.distinct (k - (138 + 128 * j)) (m - (138 + 128 * j)) (omega (arith, start))
          (omega (arith, start)) (omega (arith, start)) (omega (arith, start))
          (sym (at_new k a q) ∙ e ∙ at_new m b q') in
      ap file (omega arith)
  apart (file k) single l m e = absurd m
  apart (file k) double l m e = absurd m
  apart (file k) (inner i) (p, q) m e = absurd (apart_block k i p q m e)
  apart single u l m e = absurd l
  apart double u l m e = absurd l
  apart (inner i) (file m) l (p, q) e = absurd (apart_block m i p q l (sym e))
  apart (inner i) single l m e = absurd m
  apart (inner i) double l m e = absurd m
  apart (inner i) (inner i') l m e = ap inner (is_here i l ∙ sym (is_here i' m))

  block_IsIndex : IsIndex fs'.dev (entry second' j)
  block_IsIndex = IsIndex-stored fs'.dev _ new x.stored x.full

  old_IsIndex :
      (t : Slot) → Open n t → IsMeta t → t ≢ double → t ≢ inner j → IsIndex fs'.dev (after t)
  unfolding before
  old_IsIndex t l m nd nj = rw (same t l) (
      IsIndex-kept fs.dev fs'.dev (before t)
        (x.kept (before t) (w.owns.used t l) (spared_slot t l nj)) (w.blocks t l m nd))

  after_blocks : (t : Slot) → Open n' t → IsMeta t → t ≢ double → IsIndex fs'.dev (after t)
  unfolding after
  after_blocks (file k) l m nd = absurd m
  after_blocks single l m nd = old_IsIndex single (omega (arith, start)) m nd no_single
  after_blocks double l m nd = absurd (nd refl)
  after_blocks (inner i) l m nd = elim (ℕ_discrete i j) [
    | yes e ↦ rw (e, inner_lem) block_IsIndex
    | no ne ↦ elim (split (inner i) l) [
      | inl old ↦ old_IsIndex (inner i) old m nd (λ e. ne (inner_injective _ _ e))
      | inr new_slot ↦ absurd (ne (is_here i new_slot))
    ]
  ]

  -- The sectors in use that are no index block of the file are not written.
  spared :
      (t : ℕ) → Used fs t → ((v : Slot) → IsMeta v → Open n v → before v ≢ t) → t ≢ entry second' j
  unfolding before
  spared t u away e = elim (ℕ_discrete r 0) [
    | yes z ↦ IsFresh-ne (block_fresh z) u (sym e)
    | no nz ↦
        let listed : entry second' j ≡ entry second j =
          ap (λ s. entry s j) (o.old (was_present (omega arith))).0 in
        away (inner j) tt (omega (arith, start)) (inner_lem _ _ _ j ∙ sym listed ∙ sym e)
  ]

  pub inner-Spread :
      Spread n 139 n' 139
        (slot_at d.ptr second (entries fs.dev))
        (slot_at d.ptr second' (entries fs'.dev))
        fs
        fs'
  unfolding before after
  inner-Spread = record {
    more = omega arith;
    more_b = λ q. q;
    same_cnt = x.same_cnt;
    same_slots = same;
    fresh =
        λ t l nl. elim (split t l) [ inl old ↦ absurd (nl old) | inr new_slot ↦ fresh t new_slot ];
    zeroed = λ k p q.
        rw (at_new k (omega (arith, start)) q)
          (x.zeroed (k - (138 + 128 * j)) (omega (arith, start)) (omega (arith, start)));
    still = x.still;
    kept = λ t u away. x.kept t u (spared t u away);
  }

  inner-Counters : Counters (inner_done d (r + (n' - n))) n'
  inner-Counters = record {
    low = λ q. absurd (omega (arith, start));
    high = λ q. ground (arith, start, w.counters.high from);
  }

  pub inner-Working : Working (inner_done d (r + (n' - n))) second' fs' n'
  unfolding after before
  inner-Working = record {
    ready = x.ready;
    counters = inner-Counters;
    from = omega (arith, start);
    fits = omega (arith, start);
    room = ap length (ptr-inner_done d (r + (n' - n))) ∙ w.room;
    full = o.same_length ∙ w.full;
    owns = rw ptr-inner_done (
        Owns-extend (Open n) (NewInner n n') (Open n') before after w.owns x.same_cnt x.still same
          split fresh apart);
    blocks = rw ptr-inner_done after_blocks;
  }

  pub inner_counted :
      free_sectors fs' + (n' + (n' - 138 + 127) / 128)
      ≡ free_sectors fs + (n + (n - 138 + 127) / 128)
  inner_counted = ground (arith, start, x.counted)
