-- ===== src/Inode/Single.antt =====
-- Growing a file within the index block of the first level.
use cs439_pcs.Base.{ℕ, ◌+◌, ◌-◌, ◌≤◌, ◌<◌, List, false}
use cs439_pcs.Base.{
  ◌≡◌, ◌≢◌, refl, sym, ◌∙◌, ap, ◌⊎◌, inl, inr, arith, ltb, if◌then◌else◌, length, lt→ltb, ◌==◌,
}
use cs439_pcs.Base.{==_ne, ==_is}
use cs439_pcs.Device.{InodeDisk}
use cs439_pcs.Inode.{entry}
use cs439_pcs.Inode.Grow.{Fs}
use cs439_pcs.Inode.Grow.Fresh.{Used, IsFresh, IsFresh-ne}
use cs439_pcs.Inode.Block.{Opened, Extended, allocated, present, cost}
use cs439_pcs.Inode.Slots.{Slot, file, single, double, inner, entries, slot_at, place_of, Has}
use cs439_pcs.Inode.Slots.{IsMeta, total, Counters, IsIndex, IsIndex-stored}
use cs439_pcs.Inode.Layout.{Owns-extend, Holds, Grew}
use cs439_pcs.Inode.Direct.{direct_place}
use native.Mathlib.Decide.{dec_lt}
use mathlib.Core.Bool.{false≢true}

-- A file sector from the tenth on is listed in the first index block.
pub single_place :
    (ptr second : List ℕ) (rd : ℕ → List ℕ) (k : ℕ)
    → 10 ≤ k
    → k < 138
    → slot_at ptr second rd (file k) ≡ entry (rd (entry ptr 10)) (k - 10)
unfolding slot_at
single_place ptr second rd k p q =
    let past : ltb k 10 ≡ false = ground arith in rw (past, lt→ltb k 138 q) refl

pub single_lem :
    (ptr second : List ℕ) (rd : ℕ → List ℕ) → slot_at ptr second rd single ≡ entry ptr 10
unfolding slot_at
single_lem ptr second rd = refl

-- The new slots when a file of `n` sectors grows to `n'` in its first index block.
abbrev NewSingle : ℕ → ℕ → Slot → Type 0
NewSingle n n' (file k) = (n ≤ k) × (k < n')
NewSingle n n' single = n ≡ 10
NewSingle n n' double = ⊥
NewSingle n n' (inner j) = ⊥

-- The inode when the index reached is `n' - 10`.
abbrev pub single_done : InodeDisk → ℕ → List ℕ → InodeDisk
single_done d n' pointers =
    let d' = record d { ptr = pointers; first_level_index = n' - 10 } in
    let full = record d' { first_level_index = 0; direct_level_index = d.direct_level_index + 1 } in
    if n' - 10 == 128 then full else d'

ptr-single_done :
    (d : InodeDisk) (n' : ℕ) (pointers : List ℕ) → (single_done d n' pointers).ptr ≡ pointers
ptr-single_done d n' pointers = ground arith

length-single_done :
    (d : InodeDisk) (n' : ℕ) (pointers : List ℕ) → (single_done d n' pointers).length ≡ d.length
length-single_done d n' pointers = ground arith

module _ {File : Type 0} (d : InodeDisk) (n n' : ℕ) (block pointers new : List ℕ)
    {fs mid fs' : Fs File} (h : Holds d fs n) (from : 10 ≤ n) (below : n < 138) (more : n < n')
    (most : n' ≤ 138) (o : Opened (n == 10) d.ptr 10 fs block pointers mid)
    (x : Extended (n == 10) (n - 10) (n' - 10) (entry pointers 10) block new fs fs') where
  sector : ℕ
  sector = entry pointers 10

  after : Slot → ℕ
  after = slot_at pointers (entries fs'.dev (entry pointers 11)) (entries fs'.dev)

  stored : entries fs'.dev (entry pointers 10) ≡ new
  stored = rw (x.stored, entries) refl

  was_present : 10 < n → (n == 10) ≡ false
  was_present q = ==_ne n 10 (λ e. omega arith)

  same_ptr : 10 < n → pointers ≡ d.ptr
  same_ptr q = (o.old (was_present q)).0

  at_listed : (k : ℕ) → 10 ≤ k → k < n' → after (file k) ≡ entry new (k - 10)
  unfolding after
  at_listed k p q = single_place _ _ _ k p (omega arith) ∙ ap (λ l. entry l (k - 10)) stored

  old_listed : (k : ℕ) → 10 ≤ k → k < n → entry new (k - 10) ≡ place_of d fs.dev (file k)
  old_listed k p q =
      x.before (k - 10) (omega arith)
      ∙ ap (λ l. entry l (k - 10)) (o.old (was_present (omega arith))).1
      ∙ sym (single_place _ _ _ k p (omega arith))

  same : (t : Slot) → Has n t → after t ≡ place_of d fs.dev t
  unfolding after
  same (file k) l = elim (dec_lt k 10) [
    | yes p ↦ direct_place _ _ _ k p ∙ o.others k (λ e. omega arith) ∙ sym (direct_place _ _ _ k p)
    | no p ↦ at_listed k (omega arith) (omega arith) ∙ old_listed k (omega arith) l
  ]
  same single l = single_lem _ _ _ ∙ ap (λ p. entry p 10) (same_ptr l) ∙ sym (single_lem _ _ _)
  same double l = absurd (omega arith)
  same (inner j) l = absurd (omega arith)

  split : (t : Slot) → Has n' t → Has n t ⊎ NewSingle n n' t
  split (file k) l = elim (dec_lt k n) [ yes p ↦ inl p | no p ↦ inr (omega arith, l) ]
  split single l = elim (dec_lt 10 n) [ yes p ↦ inl p | no p ↦ inr (omega arith) ]
  split double l = absurd (omega arith)
  split (inner j) l = absurd (omega arith)

  block_fresh : n ≡ 10 → IsFresh fs fs' (entry pointers 10)
  block_fresh e = elim x.source [
    | allocated q f ↦ f
    | present q u p ↦ absurd (false≢true (sym q ∙ ==_is n 10 e))
  ]

  fresh : (t : Slot) → NewSingle n n' t → IsFresh fs fs' (after t)
  unfolding after
  fresh (file k) (p, q) =
      rw (at_listed k (omega arith) q) (x.added (k - 10) (omega arith) (omega arith))
  fresh single e = rw single_lem (block_fresh e)
  fresh double l = absurd l
  fresh (inner j) l = absurd l

  apart_block : (k : ℕ) → n ≤ k → k < n' → after (file k) ≢ after single
  unfolding after
  apart_block k p q e =
      x.apart (k - 10) (omega arith) (omega arith)
        (sym (at_listed k (omega arith) q) ∙ e ∙ single_lem _ _ _)

  apart : (t u : Slot) → NewSingle n n' t → NewSingle n n' u → after t ≡ after u → t ≡ u
  apart (file k) (file j) (p, q) (p', q') e =
      let same_index =
        x.distinct (k - 10) (j - 10) (omega arith) (omega arith) (omega arith) (omega arith)
          (sym (at_listed k (omega arith) q) ∙ e ∙ at_listed j (omega arith) q') in
      ap file (omega arith)
  apart (file k) single (p, q) m e = absurd (apart_block k p q e)
  apart (file k) double l m e = absurd m
  apart (file k) (inner j) l m e = absurd m
  apart single (file j) l (p, q) e = absurd (apart_block j p q (sym e))
  apart single single l m e = refl
  apart single double l m e = absurd m
  apart single (inner j) l m e = absurd m
  apart double u l m e = absurd l
  apart (inner j) u l m e = absurd l

  -- The state as an extension: the block itself is the one sector in use that may be written.
  spared :
      (t : ℕ)
      → Used fs t
      → ((v : Slot) → IsMeta v → Has n v → place_of d fs.dev v ≢ t)
      → t ≢ entry pointers 10
  spared t u away e = elim (dec_lt 10 n) [
    | yes q ↦ away single tt q (single_lem _ _ _ ∙ ap (λ p. entry p 10) (sym (same_ptr q)) ∙ sym e)
    | no q ↦ IsFresh-ne (block_fresh (omega arith)) u (sym e)
  ]

  no_other : (t : Slot) → Has n' t → IsMeta t → t ≡ single
  no_other (file k) l m = absurd m
  no_other single l m = refl
  no_other double l m = absurd (omega arith)
  no_other (inner j) l m = absurd (omega arith)

  block_IsIndex : IsIndex fs'.dev (after single)
  unfolding after
  block_IsIndex = rw single_lem (IsIndex-stored fs'.dev _ new x.stored x.full)

  counters : Counters (single_done d n' pointers) n'
  counters = record {
    low = λ q. ground (arith, h.counters.low below);
    high = λ q. ground (arith, h.counters.low below);
  }

  total_more : (n' - n) + cost (n == 10) + total n ≡ total n'
  total_more = ground arith

  pub single-Grew : Grew n n' d fs (single_done d n' pointers) fs'
  unfolding after
  single-Grew = record {
    holds = record {
      ready = x.ready;
      counters = counters;
      room = ap length (ptr-single_done d n' pointers) ∙ o.same_length ∙ h.room;
      fits = omega arith;
      owns = rw ptr-single_done (
          Owns-extend (Has n) (NewSingle n n') (Has n') (place_of d fs.dev) after h.owns x.same_cnt
            x.still same split fresh apart);
      blocks = λ t l m. rw (no_other t l m, ptr-single_done) block_IsIndex;
    };
    same_length = length-single_done d n' pointers;
    spread = record {
      more = omega arith;
      more_b = λ q. omega arith;
      same_cnt = x.same_cnt;
      same_slots = λ t l. rw ptr-single_done (same t l);
      fresh = λ t l nl. elim (split t l) [
        | inl old ↦ absurd (nl old)
        | inr new_slot ↦ rw ptr-single_done (fresh t new_slot)
      ];
      zeroed = λ k p q.
          rw (ptr-single_done, at_listed k (omega arith) q)
            (x.zeroed (k - 10) (omega arith) (omega arith));
      still = x.still;
      kept = λ t u away. x.kept t u (spared t u away);
    };
    counted = omega (arith, x.counted, total_more);
  }
