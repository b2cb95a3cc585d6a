-- ===== src/Inode/Second.antt =====
-- Entering and leaving the second level: the block that lists the inner blocks is read or allocated
-- before the loop, and written back behind it.
use cs439_pcs.Base.{ℕ, ◌-◌, ◌/◌, ◌%◌, ◌≤◌, ◌<◌, List, false}
use cs439_pcs.Base.{◌≡◌, ◌≢◌, refl, sym, ◌∙◌, ap, ◌⊎◌, inl, inr, arith, ◌==◌}
use cs439_pcs.Base.{==_ne, ==_is, ==_self}
use cs439_pcs.Device.{InodeDisk, index_block}
use cs439_pcs.Inode.{entry}
use cs439_pcs.Inode.Grow.{Fs}
use cs439_pcs.Inode.Grow.Fresh.{IsFresh, written}
use cs439_pcs.Inode.Block.{Opened, allocated, present}
use cs439_pcs.Inode.Slots.{
  Slot, file, single, double, inner, entries, slot_at, place_of, Has, IsMeta,
}
use cs439_pcs.Inode.Slots.{IsIndex, IsIndex-kept, IsIndex-stored, entries-kept}
use cs439_pcs.Inode.Layout.{Owns-extend, Holds, Spread}
use cs439_pcs.Inode.Direct.{direct_place}
use cs439_pcs.Inode.Single.{single_place, single_lem}
use cs439_pcs.Inode.Inner.{Open, Working, inner_place, inner_lem, double_lem}
use native.Mathlib.Decide.{dec_lt}
use mathlib.Core.Bool.{false≢true}

-- The block of the second level is new when the file has 138 sectors.
abbrev NewDouble : ℕ → Slot → Type 0
NewDouble n (file k) = ⊥
NewDouble n single = ⊥
NewDouble n double = n ≡ 138
NewDouble n (inner j) = ⊥

module _ {File : Type 0} (d : InodeDisk) (n : ℕ) (block pointers : List ℕ) {fs mid : Fs File}
    (h : Holds d fs n) (from : 138 ≤ n) (o : Opened (n == 138) d.ptr 11 fs block pointers mid) where
  opened : Slot → ℕ
  opened = slot_at pointers block (entries mid.dev)

  was_present : 138 < n → (n == 138) ≡ false
  was_present q = ==_ne n 138 (λ e. omega arith)

  opened_file : (k : ℕ) → k < 138 → opened (file k) ≡ place_of d fs.dev (file k)
  unfolding opened
  opened_file k q = elim (dec_lt k 10) [
    | yes p ↦ direct_place _ _ _ k p ∙ o.others k (λ e. omega arith) ∙ sym (direct_place _ _ _ k p)
    | no p ↦
        single_place _ _ _ k (omega arith) q
        ∙ ap (λ s. entry (entries mid.dev s) (k - 10)) (o.others 10 (λ e. omega arith))
        ∙ ap (λ v. entry (entries v (entry d.ptr 10)) (k - 10)) o.same_dev
        ∙ sym (single_place _ _ _ k (omega arith) q)
  ]

  -- A block that was there already leaves every slot where it is.
  opened_present : 138 < n → (t : Slot) → opened t ≡ place_of d fs.dev t
  unfolding opened
  opened_present q t = rw ((o.old (was_present q)).0, (o.old (was_present q)).1, o.same_dev) refl

  opened_same : (t : Slot) → Has n t → opened t ≡ place_of d fs.dev t
  unfolding opened
  opened_same t l = elim (dec_lt 138 n) [
    | yes q ↦ opened_present q t
    | no q ↦ below t l (omega arith)
  ]
    where
      below : (v : Slot) → Has n v → n ≡ 138 → opened v ≡ place_of d fs.dev v
      below (file k) l e = opened_file k (omega arith)
      below single l e = single_lem _ _ _ ∙ o.others 10 (λ q. omega arith) ∙ sym (single_lem _ _ _)
      below double l e = absurd (omega arith)
      below (inner j) l e = absurd (omega arith)

  opened_split : (t : Slot) → Open n t → Has n t ⊎ NewDouble n t
  opened_split (file k) l = inl l
  opened_split single l = inl l
  opened_split double l = elim (dec_lt 138 n) [ yes p ↦ inl p | no p ↦ inr (omega arith) ]
  opened_split (inner j) l = inl l

  opened_fresh : (t : Slot) → NewDouble n t → IsFresh fs mid (opened t)
  unfolding opened
  opened_fresh double e = rw double_lem (elim o.source [
    | allocated q f ↦ f
    | present q u p ↦ absurd (false≢true (sym q ∙ ==_is n 138 e))
  ])
  opened_fresh (file k) l = absurd l
  opened_fresh single l = absurd l
  opened_fresh (inner j) l = absurd l

  opened_apart : (t u : Slot) → NewDouble n t → NewDouble n u → opened t ≡ opened u → t ≡ u
  opened_apart double double l m e = refl
  opened_apart double (file k) l m e = absurd m
  opened_apart double single l m e = absurd m
  opened_apart double (inner j) l m e = absurd m
  opened_apart (file k) u l m e = absurd l
  opened_apart single u l m e = absurd l
  opened_apart (inner j) u l m e = absurd l

  opened_blocks : (t : Slot) → Open n t → IsMeta t → t ≢ double → IsIndex mid.dev (opened t)
  opened_blocks t l m nd = elim (opened_split t l) [
    | inl old ↦ rw (opened_same t old, o.same_dev) (h.blocks t old m)
    | inr new_slot ↦ absurd (nd (only_double t new_slot))
  ]
    where
      only_double : (v : Slot) → NewDouble n v → v ≡ double
      only_double double q = refl
      only_double (file k) q = absurd q
      only_double single q = absurd q
      only_double (inner j) q = absurd q

  abbrev pub entered : InodeDisk
  entered = record d { ptr = pointers }

  pub enter-Working : Working entered block mid n
  unfolding opened
  enter-Working = record {
    ready = o.extends.ready;
    counters = record { low = h.counters.low; high = h.counters.high };
    from = from;
    fits = h.fits;
    room = o.same_length ∙ h.room;
    full = o.full;
    owns =
        Owns-extend (Has n) (NewDouble n) (Open n) (place_of d fs.dev) opened h.owns
          o.extends.same_cnt o.extends.still opened_same opened_split opened_fresh opened_apart;
    blocks = opened_blocks;
  }

  pub enter-Spread :
      Spread n n n 139 (place_of d fs.dev) (slot_at pointers block (entries mid.dev)) fs mid
  unfolding opened
  enter-Spread = record {
    more = omega arith;
    more_b = λ q. omega arith;
    same_cnt = o.extends.same_cnt;
    same_slots = opened_same;
    fresh = λ t l nl. elim (opened_split t l) [
      | inl old ↦ absurd (nl old)
      | inr new_slot ↦ opened_fresh t new_slot
    ];
    zeroed = λ k p q. absurd (omega arith);
    still = o.extends.still;
    kept = λ s u away. o.extends.kept s u;
  }

-- The block is written back when more than 138 sectors are reached.
module _ {File : Type 0} (d : InodeDisk) (n : ℕ) (second : List ℕ) {fs : Fs File}
    (w : Working d second fs n) (past : 138 < n) where
  abbrev pub left : Fs File
  left = written fs (entry d.ptr 11) (index_block second)

  abbrev inside : Slot → ℕ
  inside = slot_at d.ptr second (entries fs.dev)

  abbrev outside : Slot → ℕ
  outside = place_of d left.dev

  listed : entries left.dev (entry d.ptr 11) ≡ second
  listed = rw (==_self (entry d.ptr 11), entries) refl

  elsewhere : (s : ℕ) → s ≢ entry d.ptr 11 → left.dev.sectors s ≡ fs.dev.sectors s
  elsewhere s ne = rw (==_ne (entry d.ptr 11) s (λ e. ne (sym e))) refl

  not_double : (t : Slot) → Open n t → t ≢ double → inside t ≢ entry d.ptr 11
  not_double t l nd e = nd (w.owns.apart t double l (omega arith) (e ∙ sym (double_lem _ _ _)))

  same_entries :
      (t : Slot) → Open n t → t ≢ double → entries left.dev (inside t) ≡ entries fs.dev (inside t)
  same_entries t l nd =
      entries-kept fs.dev left.dev (inside t) (elsewhere (inside t) (not_double t l nd))

  left_same : (t : Slot) → Open n t → outside t ≡ inside t
  left_same (file k) l = elim (dec_lt k 138) [
    | yes q ↦ elim (dec_lt k 10) [
      | yes p ↦ direct_place _ _ _ k p ∙ sym (direct_place _ _ _ k p)
      | no p ↦
          single_place _ _ _ k (omega arith) q
          ∙ ap (λ e. entry e (k - 10))
              (rw single_lem at (same_entries single (omega arith) (λ e. cc)))
          ∙ sym (single_place _ _ _ k (omega arith) q)
    ]
    | no q ↦
        let i : ℕ = (k - 138) / 128 in
        let live : Open n (inner i) = omega arith in
        inner_place _ _ _ k (omega arith)
        ∙ ap (λ e. entry (entries left.dev (entry e i)) ((k - 138) % 128)) listed
        ∙ ap (λ e. entry e ((k - 138) % 128))
            (rw inner_lem at (same_entries (inner i) live (λ e. cc)))
        ∙ sym (inner_place _ _ _ k (omega arith))
  ]
  left_same single l = single_lem _ _ _ ∙ sym (single_lem _ _ _)
  left_same double l = double_lem _ _ _ ∙ sym (double_lem _ _ _)
  left_same (inner j) l = inner_lem _ _ _ j ∙ ap (λ e. entry e j) listed ∙ sym (inner_lem _ _ _ j)

  Has-Open : (t : Slot) → Has n t → Open n t
  Has-Open (file k) l = l
  Has-Open single l = l
  Has-Open double l = omega arith
  Has-Open (inner j) l = l

  other_block : (t : Slot) → Has n t → IsMeta t → t ≢ double → IsIndex left.dev (outside t)
  other_block t l m nd =
      let l' = Has-Open t l in
      rw (left_same t l') (
        IsIndex-kept fs.dev left.dev (inside t) (elsewhere (inside t) (not_double t l' nd))
          (w.blocks t l' m nd))

  left_blocks : (t : Slot) → Has n t → IsMeta t → IsIndex left.dev (outside t)
  left_blocks (file k) l m = absurd m
  left_blocks single l m = other_block single l m (λ e. cc)
  left_blocks double l m =
      rw double_lem (IsIndex-stored left.dev _ second (rw (==_self (entry d.ptr 11)) refl) w.full)
  left_blocks (inner j) l m = other_block (inner j) l m (λ e. cc)

  pub leave-Holds : Holds d left n
  leave-Holds = record {
    ready = record { valid = w.ready.valid; sized = w.ready.sized };
    counters = w.counters;
    room = w.room;
    fits = w.fits;
    owns = record {
      used = λ t l. rw (left_same t (Has-Open t l)) (w.owns.used t (Has-Open t l));
      in_range = λ t l. rw (left_same t (Has-Open t l)) (w.owns.in_range t (Has-Open t l));
      apart = λ t u l m e.
          let l' = Has-Open t l in
          let m' = Has-Open u m in
          w.owns.apart t u l' m' (sym (left_same t l') ∙ e ∙ left_same u m');
    };
    blocks = left_blocks;
  }

  pub leave-Spread : Spread n 139 n n inside outside fs left
  leave-Spread = record {
    more = omega arith;
    more_b = λ q. past;
    same_cnt = refl;
    same_slots = left_same;
    fresh = λ t l nl. absurd (nl (Has-Open t l));
    zeroed = λ k p q. absurd (omega arith);
    still = λ s u. u;
    kept = λ s u away. elsewhere s (λ e. away double tt (omega arith) (double_lem _ _ _ ∙ sym e));
  }
