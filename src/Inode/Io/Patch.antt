-- ===== src/Inode/Io/Patch.antt =====
-- A sector of a file overwritten: where the file's sectors are and what the others hold stays.
use cs439_pcs.Base.{ℕ, ◌+◌, ◌-◌, ◌*◌, ◌/◌, ◌%◌, ◌≤◌, ◌<◌, false, List, get_or, length, ◌&&◌}
use cs439_pcs.Base.{
  ◌≡◌, ◌≢◌, refl, sym, ◌∙◌, arith, ltb, leb, if◌then◌else◌, ==_self, ==_ne, lt→ltb,
}
use cs439_pcs.Device.{Device, InodeDisk, bytes, update}
use cs439_pcs.Inode.Grow.{Fs}
use cs439_pcs.Inode.Slots.{Slot, file, single, double, inner, entries-kept, slot_at, place_of}
use cs439_pcs.Inode.Slots.{Has, IsMeta, IsIndex-kept}
use cs439_pcs.Inode.Layout.{Holds, meta_ne_file, file_injective}
use cs439_pcs.Inode.Io.Content.{
  HasData, IsData, content, bytes_at, bytes_at-kept, IsData-kept, IsData-stored,
}
use native.Mathlib.Decide.{dec_lt, ℕ_discrete}

-- The bytes of the file from `lo` to below `hi` become those of `f`; nothing else changes.
pub record Patched {File : Type 0} (n lo hi : ℕ) (f : ℕ → ℕ) (d : InodeDisk) (fs fs' : Fs File)
    : Type 0 where
  pub data_in : HasData d fs' n
  pub same_map : fs'.map ≡ fs.map
  pub same_places : (t : Slot) → Has n t → place_of d fs'.dev t ≡ place_of d fs.dev t
  pub written :
      (pos : ℕ)
      → pos / 512 < n
      → content d fs'.dev pos ≡ (if leb lo pos && ltb pos hi then f pos else content d fs.dev pos)
  pub others :
      (s : ℕ)
      → ((k : ℕ) → k < n → place_of d fs.dev (file k) ≢ s)
      → fs'.dev.sectors s ≡ fs.dev.sectors s

pub Patched-none :
    {File : Type 0} {n lo : ℕ} {f : ℕ → ℕ} {d : InodeDisk} {fs : Fs File}
    → HasData d fs n
    → Patched n lo lo f d fs fs
Patched-none {lo = lo} h = record {
  data_in = h;
  same_map = refl;
  same_places = λ t l. refl;
  written = λ pos q. let out : (leb lo pos && ltb pos lo) ≡ false = ground arith in rw out refl;
  others = λ s away. refl;
}

pub Patched-trans :
    {File : Type 0} {n lo mid hi : ℕ} {f g : ℕ → ℕ} {d : InodeDisk} {fs fs' fs'' : Fs File}
    → lo ≤ mid
    → mid ≤ hi
    → ((pos : ℕ) → mid ≤ pos → g pos ≡ f pos)
    → Patched n lo mid f d fs fs'
    → Patched n mid hi g d fs' fs''
    → Patched n lo hi f d fs fs''
Patched-trans {n = n} {lo} {mid} {hi} p q agree a b = record {
  data_in = b.data_in;
  same_map = b.same_map ∙ a.same_map;
  same_places = λ t l. b.same_places t l ∙ a.same_places t l;
  written = λ pos r. elim (dec_lt pos mid) [
    | yes early ↦ ground (arith, a.written pos r, b.written pos r)
    | no late ↦ ground (arith, a.written pos r, b.written pos r, agree pos (omega arith))
  ];
  others = λ s away.
      b.others s (λ k r e. away k r (sym (a.same_places (file k) r) ∙ e)) ∙ a.others s away;
}

-- Where no index block of the file changes, its slots keep their sectors.
places-kept :
    (d : InodeDisk) (dev dev' : Device) (n : ℕ)
    → ((t : Slot)
        → Has n t
        → IsMeta t
        → dev'.sectors (place_of d dev t) ≡ dev.sectors (place_of d dev t))
    → (t : Slot) → Has n t
    → place_of d dev' t ≡ place_of d dev t
unfolding slot_at
places-kept d dev dev' n same (file k) l = elim (dec_lt k 10) [
  | yes p ↦ rw (lt→ltb k 10 p) refl
  | no p ↦
      let past : ltb k 10 ≡ false = ground arith in
      elim (dec_lt k 138) [
        | yes q ↦
            let e = entries-kept dev dev' _ (same single (omega arith) tt) in
            rw (past, lt→ltb k 138 q, e) refl
        | no q ↦
            let past' : ltb k 138 ≡ false = ground arith in
            let e = entries-kept dev dev' _ (same double (omega arith) tt) in
            let e' = entries-kept dev dev' _ (same (inner ((k - 138) / 128)) (omega arith) tt) in
            rw (past, past', e, e') refl
      ]
]
places-kept d dev dev' n same single l = refl
places-kept d dev dev' n same double l = refl
places-kept d dev dev' n same (inner j) l =
    let e = entries-kept dev dev' _ (same double (omega arith) tt) in rw e refl

-- The device with bytes stored in a sector.
abbrev pub with_bytes : Device → ℕ → List ℕ → Device
with_bytes dev s new = record dev { sectors = update dev.sectors s (bytes new) }

module _ {File : Type 0} {d : InodeDisk} {fs : Fs File} {n : ℕ} (h : HasData d fs n) (k : ℕ)
    (q : k < n) (new : List ℕ) (full : length new ≡ 512) where
  abbrev at_k : ℕ
  at_k = place_of d fs.dev (file k)

  abbrev dev' : Device
  dev' = with_bytes fs.dev at_k new

  elsewhere : (s : ℕ) → at_k ≢ s → dev'.sectors s ≡ fs.dev.sectors s
  elsewhere s ne = rw (==_ne at_k s ne) refl

  here : dev'.sectors at_k ≡ bytes new
  here = rw (==_self at_k) refl

  meta_kept :
      (t : Slot)
      → Has n t
      → IsMeta t
      → dev'.sectors (place_of d fs.dev t) ≡ fs.dev.sectors (place_of d fs.dev t)
  meta_kept t l m =
      elsewhere (place_of d fs.dev t)
        (λ e. meta_ne_file t k m (sym (h.holds.owns.apart (file k) t q l e)))

  same_places : (t : Slot) → Has n t → place_of d dev' t ≡ place_of d fs.dev t
  same_places = places-kept d fs.dev dev' n meta_kept

  files_hold : (i : ℕ) → i < n → IsData dev' (place_of d fs.dev (file i))
  files_hold i r = elim (ℕ_discrete at_k (place_of d fs.dev (file i))) [
    | yes e ↦ rw (← e) (IsData-stored dev' at_k new here full)
    | no ne ↦ IsData-kept fs.dev dev' _ (elsewhere _ ne) (h.data_in i r)
  ]

  abbrev stored : Fs File
  stored = record fs { dev = dev' }

  stored-Holds : Holds d stored n
  stored-Holds = record {
    ready = record { valid = h.holds.ready.valid; sized = h.holds.ready.sized };
    counters = h.holds.counters;
    room = h.holds.room;
    fits = h.holds.fits;
    owns = record {
      used = λ t l. rw (same_places t l) (h.holds.owns.used t l);
      in_range = λ t l. rw (same_places t l) (h.holds.owns.in_range t l);
      apart = λ t u l m e. h.holds.owns.apart t u l m (sym (same_places t l) ∙ e ∙ same_places u m);
    };
    blocks = λ t l m.
        rw (same_places t l) (IsIndex-kept fs.dev dev' _ (meta_kept t l m) (h.holds.blocks t l m));
  }

  stored-HasData : HasData d stored n
  stored-HasData = record {
    holds = stored-Holds;
    covers = h.covers;
    data_in = λ i r. rw (same_places (file i) r) (files_hold i r);
  }

  content_here : (pos : ℕ) → pos / 512 ≡ k → content d dev' pos ≡ get_or new (pos % 512) 0
  content_here pos e =
      let place : place_of d dev' (file (pos / 512)) ≡ at_k = rw e (same_places (file k) q) in
      rw (place, here, bytes_at) refl

  content_elsewhere :
      (pos : ℕ) → pos / 512 < n → pos / 512 ≢ k → content d dev' pos ≡ content d fs.dev pos
  content_elsewhere pos r ne =
      let away : at_k ≢ place_of d fs.dev (file (pos / 512)) =
        λ e. ne (sym (file_injective _ _ (h.holds.owns.apart (file k) (file (pos / 512)) q r e))) in
      let held = bytes_at-kept fs.dev dev' _ (elsewhere _ away) in
      rw (same_places (file (pos / 512)) r, held) refl

  -- Sector `k` of the file stored with new bytes from `lo` to below `hi`, which lie in it.
  pub stored-Patched :
      (lo hi : ℕ) (f : ℕ → ℕ)
      → 512 * k ≤ lo
      → hi ≤ 512 * k + 512
      → ((j : ℕ)
          → j < 512
          → get_or new j 0 ≡ (
              if leb lo (512 * k + j) && ltb (512 * k + j) hi
              then f (512 * k + j)
              else get_or (bytes_at fs.dev at_k) j 0))
      → Patched n lo hi f d fs stored
  stored-Patched lo hi f from below new_bytes = record {
    data_in = stored-HasData;
    same_map = refl;
    same_places = same_places;
    written = λ pos r. elim (ℕ_discrete (pos / 512) k) [
      | yes e ↦
          let whole : 512 * k + pos % 512 ≡ pos = omega arith in
          let old : content d fs.dev pos ≡ get_or (bytes_at fs.dev at_k) (pos % 512) 0 =
            rw e refl in
          content_here pos e ∙ rw old (rw whole at (new_bytes (pos % 512) (omega arith)))
      | no ne ↦
          let out : (leb lo pos && ltb pos hi) ≡ false = ground arith in
          rw out (content_elsewhere pos r ne)
    ];
    others = λ s away. elsewhere s (away k q);
  }
