-- ===== src/Inode/Grow/Fresh.antt =====
-- One sector taken from the free map, and how the rest of the state goes on from there.
use cs439_pcs.Base.{ℕ, ◌+◌, ◌<◌, Bool, true, false, some, List, set}
use cs439_pcs.Base.{◌≡◌, refl, sym, ◌∙◌, ◌≢◌, arith, length, get_or-set_self}
use cs439_pcs.Base.{lt→ltb, ==_self, ==_ne}
use cs439_pcs.Bitmap.Single.{bit, IsValid}
use cs439_pcs.FreeMap.Count.{free_cnt, Stores, allocate-Took}
use cs439_pcs.Device.{Sector, block_write, zeros, update}
use cs439_pcs.Inode.{entry}
use cs439_pcs.Inode.Grow.{Fs, allocate_into, place}
use mathlib.Core.Bool.{false≢true}

pub not_used : (a b : Bool) → (a ≡ true → b ≡ true) → b ≡ false → a ≡ false
not_used true b h z = absurd (false≢true (sym z ∙ h refl))
not_used false b h z = refl

module _ {File : Type 0} where
  -- The bit of a sector in the free map.
  abbrev pub in_use : Fs File → ℕ → Bool
  in_use fs s = bit fs.map.free_map s

  abbrev pub Used : Fs File → ℕ → Type 0
  Used fs s = in_use fs s ≡ true

  abbrev pub sector_cnt : Fs File → ℕ
  sector_cnt fs = fs.map.free_map.bit_cnt

  abbrev pub free_sectors : Fs File → ℕ
  free_sectors fs = free_cnt fs.map.free_map

  -- The map is valid and has a bit for each sector of the device.
  pub record IsReady (fs : Fs File) : Type 0 where
    pub valid : IsValid fs.map.free_map
    pub sized : fs.dev.size ≡ sector_cnt fs

  -- What was in use stays in use, and its contents stay.
  pub record Extends (fs fs' : Fs File) : Type 0 where
    pub ready : IsReady fs'
    pub same_cnt : sector_cnt fs' ≡ sector_cnt fs
    pub still : (s : ℕ) → Used fs s → Used fs' s
    pub kept : (s : ℕ) → Used fs s → fs'.dev.sectors s ≡ fs.dev.sectors s

  -- Sector `s` was free and now is in use.
  pub record IsFresh (fs fs' : Fs File) (s : ℕ) : Type 0 where
    pub in_range : s < sector_cnt fs
    pub was_free : in_use fs s ≡ false
    pub taken : Used fs' s

  pub Extends-refl : {fs : Fs File} → IsReady fs → Extends fs fs
  Extends-refl r = record { ready = r; same_cnt = refl; still = λ s u. u; kept = λ s u. refl }

  pub Extends-trans : {fs fs' fs'' : Fs File} → Extends fs fs' → Extends fs' fs'' → Extends fs fs''
  Extends-trans e f = record {
    ready = f.ready;
    same_cnt = f.same_cnt ∙ e.same_cnt;
    still = λ s u. f.still s (e.still s u);
    kept = λ s u. f.kept s (e.still s u) ∙ e.kept s u;
  }

  -- What was fresh at first or only later is no sector that was in use at first.
  pub IsFresh-ne : {fs fs' : Fs File} {s t : ℕ} → IsFresh fs fs' s → Used fs t → s ≢ t
  IsFresh-ne f u e = false≢true (sym f.was_free ∙ (rw e u))

  pub IsFresh-later :
      {fs fs' fs'' : Fs File} {s : ℕ} → IsFresh fs fs' s → Extends fs' fs'' → IsFresh fs fs'' s
  IsFresh-later f e = record {
    in_range = f.in_range;
    was_free = f.was_free;
    taken = e.still _ f.taken;
  }

  pub IsFresh-earlier :
      {fs fs' fs'' : Fs File} {s : ℕ} → Extends fs fs' → IsFresh fs' fs'' s → IsFresh fs fs'' s
  IsFresh-earlier {s} e f = record {
    in_range = omega (arith, f.in_range, e.same_cnt);
    was_free = not_used _ _ (e.still s) f.was_free;
    taken = f.taken;
  }

  -- A sector that is in use written: the others stay.
  abbrev pub written : Fs File → ℕ → Sector → Fs File
  written fs s x = record fs { dev = record (fs.dev) { sectors = update fs.dev.sectors s x } }

  pub block_write_lem :
      (fs : Fs File) (s : ℕ) (x : Sector)
      → IsReady fs
      → s < sector_cnt fs
      → block_write fs.dev s x ≡ some (written fs s x).dev
  unfolding block_write
  block_write_lem fs s x r h = rw (lt→ltb s fs.dev.size (omega (arith, r.sized))) refl

module _ {File : Type 0} (write_at : File → List ℕ → ℕ → ℕ → ℕ × File) (junk : Fs File → List ℕ)
    (stores : Stores write_at) where
  pub allocate_into_lem :
      (pointers : List ℕ) (index : ℕ) (fs : Fs File)
      → IsReady fs
      → 0 < free_sectors fs
      → (s : ℕ) × (fs' : Fs File) × (allocate_into write_at junk pointers index fs
          ≡ some (set pointers index s, fs'))
        × Extends fs fs'
        × IsFresh fs fs' s
        × (fs'.dev ≡ fs.dev)
        × (free_sectors fs' + 1 ≡ free_sectors fs)
  unfolding allocate_into
  allocate_into_lem pointers index fs r h =
      let (s, m, e, t) = allocate-Took write_at fs.map stores r.valid h in
      (
        s,
        record fs { map = m },
        rw e refl,
        record {
          ready = record { valid = t.assigned.valid; sized = r.sized ∙ sym t.assigned.same_cnt };
          same_cnt = t.assigned.same_cnt;
          still = λ j u. ground (arith, t.assigned.bits j);
          kept = λ j u. refl;
        },
        record {
          in_range = t.in_range;
          was_free = t.was_free;
          taken = ground (arith, t.assigned.bits s);
        },
        refl,
        t.counted,
      )

  pub place_lem :
      (pointers : List ℕ) (index : ℕ) (fs : Fs File)
      → IsReady fs
      → index < length pointers
      → 0 < free_sectors fs
      → (s : ℕ) × (fs' : Fs File) × (place write_at junk pointers index fs
          ≡ some (set pointers index s, fs'))
        × Extends fs fs'
        × IsFresh fs fs' s
        × (fs'.dev.sectors s ≡ zeros)
        × (free_sectors fs' + 1 ≡ free_sectors fs)
  unfolding place
  place_lem pointers index fs r hi h =
      let (s, mid, e, x, f, same_dev, c) = allocate_into_lem pointers index fs r h in
      let at : entry (set pointers index s) index ≡ s = get_or-set_self pointers index s 0 hi in
      let here : s < sector_cnt mid = omega (arith, f.in_range, x.same_cnt) in
      (
        s,
        written mid s zeros,
        rw (e, at, block_write_lem mid s zeros x.ready here) refl,
        record {
          ready = record { valid = x.ready.valid; sized = x.ready.sized };
          same_cnt = x.same_cnt;
          still = x.still;
          kept = λ j u. rw (==_ne s j (IsFresh-ne f u)) (x.kept j u);
        },
        record { in_range = f.in_range; was_free = f.was_free; taken = f.taken },
        rw (==_self s) refl,
        c,
      )
