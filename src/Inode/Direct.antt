-- ===== src/Inode/Direct.antt =====
-- Growing a file within its ten direct pointers.
use cs439_pcs.Base.{ℕ, ◌≤◌, ◌<◌, List}
use cs439_pcs.Base.{◌≡◌, refl, sym, ◌∙◌, ap, ◌⊎◌, inl, inr, arith, lt→ltb}
use cs439_pcs.Device.{InodeDisk}
use cs439_pcs.Inode.{entry}
use cs439_pcs.Inode.Grow.{Fs}
use cs439_pcs.Inode.Grow.Fresh.{IsFresh}
use cs439_pcs.Inode.Grow.Fill.{Run}
use cs439_pcs.Inode.Slots.{Slot, file, single, double, inner, slot_at, place_of, Has}
use cs439_pcs.Inode.Slots.{IsMeta}
use cs439_pcs.Inode.Layout.{Owns-extend, Holds, Grew}
use native.Mathlib.Decide.{dec_lt}

-- A file sector below the tenth is at its direct pointer, whatever the rest.
pub direct_place :
    (ptr second : List ℕ) (rd : ℕ → List ℕ) (k : ℕ)
    → k < 10
    → slot_at ptr second rd (file k) ≡ entry ptr k
unfolding slot_at
direct_place ptr second rd k h = rw (lt→ltb k 10 h) refl

-- The slots that are new when a file of `n` sectors grows to `n'`, without index blocks.
abbrev NewFile : ℕ → ℕ → Slot → Type 0
NewFile n n' (file k) = (n ≤ k) × (k < n')
NewFile n n' single = ⊥
NewFile n n' double = ⊥
NewFile n n' (inner j) = ⊥

module _ {File : Type 0} (d : InodeDisk) (n n' : ℕ) (pointers : List ℕ) {fs fs' : Fs File}
    (h : Holds d fs n) (more : n ≤ n') (most : n' ≤ 10) (run : Run n n' d.ptr pointers fs fs') where
  abbrev pub direct_done : InodeDisk
  direct_done = record d { ptr = pointers; direct_level_index = n' }

  direct_at : (k : ℕ) → k < n' → place_of direct_done fs'.dev (file k) ≡ entry pointers k
  direct_at k q = direct_place _ _ _ k (omega arith)

  direct_same : (t : Slot) → Has n t → place_of direct_done fs'.dev t ≡ place_of d fs.dev t
  direct_same (file k) l =
      direct_at k (omega arith)
      ∙ run.outside k (inl l)
      ∙ sym (direct_place d.ptr _ _ k (omega arith))
  direct_same single l = absurd (omega arith)
  direct_same double l = absurd (omega arith)
  direct_same (inner j) l = absurd (omega arith)

  direct_split : (t : Slot) → Has n' t → Has n t ⊎ NewFile n n' t
  direct_split (file k) l = elim (dec_lt k n) [ yes p ↦ inl p | no p ↦ inr (omega arith, l) ]
  direct_split single l = absurd (omega arith)
  direct_split double l = absurd (omega arith)
  direct_split (inner j) l = absurd (omega arith)

  direct_fresh : (t : Slot) → NewFile n n' t → IsFresh fs fs' (place_of direct_done fs'.dev t)
  direct_fresh (file k) (p, q) = rw (direct_at k q) (run.fresh k p q)
  direct_fresh single l = absurd l
  direct_fresh double l = absurd l
  direct_fresh (inner j) l = absurd l

  direct_apart :
      (t u : Slot)
      → NewFile n n' t
      → NewFile n n' u
      → place_of direct_done fs'.dev t ≡ place_of direct_done fs'.dev u
      → t ≡ u
  direct_apart (file k) (file j) (p, q) (p', q') e =
      ap file (run.distinct k j p q p' q' (sym (direct_at k q) ∙ e ∙ direct_at j q'))
  direct_apart (file k) single l m e = absurd m
  direct_apart (file k) double l m e = absurd m
  direct_apart (file k) (inner j) l m e = absurd m
  direct_apart single u l m e = absurd l
  direct_apart double u l m e = absurd l
  direct_apart (inner j) u l m e = absurd l

  direct_new : (t : Slot) → Has n' t → ¬ Has n t → NewFile n n' t
  direct_new t l nl = elim (direct_split t l) [ inl old ↦ absurd (nl old) | inr new ↦ new ]

  no_meta : (t : Slot) → Has n' t → IsMeta t → ⊥
  no_meta (file k) l m = m
  no_meta single l m = omega arith
  no_meta double l m = omega arith
  no_meta (inner j) l m = omega arith

  pub direct-Grew : Grew n n' d fs direct_done fs'
  direct-Grew = record {
    holds = record {
      ready = run.extends.ready;
      counters = record {
        low = λ p. (
          omega arith,
          omega (arith, h.counters.low (omega arith)),
          (h.counters.low (omega arith)).2,
        );
        high = λ p. absurd (omega arith);
      };
      room = run.same_length ∙ h.room;
      fits = omega arith;
      owns =
          Owns-extend (Has n) (NewFile n n') (Has n') (place_of d fs.dev)
            (place_of direct_done fs'.dev) h.owns run.extends.same_cnt run.extends.still direct_same
            direct_split direct_fresh direct_apart;
      blocks = λ t l m. absurd (no_meta t l m);
    };
    same_length = refl;
    spread = record {
      more = more;
      more_b = λ q. omega arith;
      same_cnt = run.extends.same_cnt;
      same_slots = direct_same;
      fresh = λ t l nl. direct_fresh t (direct_new t l nl);
      zeroed = λ k p q. rw (direct_at k q) (run.zeroed k p q);
      still = run.extends.still;
      kept = λ s u away. run.extends.kept s u;
    };
    counted = ground (arith, run.counted);
  }
