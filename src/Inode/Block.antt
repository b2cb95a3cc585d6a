-- ===== src/Inode/Block.antt =====
-- One index block filled further: it is allocated or read, the loop stores fresh sectors in it, and
-- it is written back. Both levels do this.
use cs439_pcs.Base.{ℕ, ◌+◌, ◌-◌, ◌≤◌, ◌<◌, List, some, Bool, false, true, set}
use cs439_pcs.Base.{◌≡◌, ◌≢◌, refl, sym, ◌∙◌, inl, arith, length, length-set}
use cs439_pcs.Base.{get_or-set_self, get_or-set_ne, ==_ne, ==_self}
use cs439_pcs.FreeMap.Count.{Stores}
use cs439_pcs.Device.{index_block, zeros}
use cs439_pcs.Inode.{entry}
use cs439_pcs.Inode.Grow.{Fs, open_block}
use cs439_pcs.Inode.Grow.Fresh.{
  Used, sector_cnt, free_sectors, IsReady, Extends, IsFresh, IsFresh-ne, written,
}
use cs439_pcs.Inode.Grow.Fresh.{Extends-refl, Extends-trans, IsFresh-later, IsFresh-earlier}
use cs439_pcs.Inode.Grow.Fresh.{allocate_into_lem}
use cs439_pcs.Inode.Grow.Fill.{Run}
use cs439_pcs.Inode.Slots.{entries, IsIndex, read_index_lem}

-- A block that is in use already, or the fresh one that was just allocated.
pub data Source {File : Type 0} (fresh : Bool) (fs fs' : Fs File) (s : ℕ) : Type 0 where
  allocated : fresh ≡ true → IsFresh fs fs' s → Source fresh fs fs' s
  present : fresh ≡ false → Used fs s → s < sector_cnt fs → Source fresh fs fs' s

abbrev pub cost : Bool → ℕ
cost true = 1
cost false = 0

-- What open_block did.
pub record Opened {File : Type 0} (fresh : Bool) (pointers : List ℕ) (index : ℕ) (fs : Fs File)
    (block pointers' : List ℕ) (fs' : Fs File) : Type 0 where
  pub extends : Extends fs fs'
  pub same_dev : fs'.dev ≡ fs.dev
  pub source : Source fresh fs fs' (entry pointers' index)
  pub others : (j : ℕ) → j ≢ index → entry pointers' j ≡ entry pointers j
  pub same_length : length pointers' ≡ length pointers
  pub full : length block ≡ 128
  pub old : fresh ≡ false → (pointers' ≡ pointers) × (block ≡ entries fs.dev (entry pointers index))
  pub counted : free_sectors fs' + cost fresh ≡ free_sectors fs

module _ {File : Type 0} (write_at : File → List ℕ → ℕ → ℕ → ℕ × File) (junk : Fs File → List ℕ)
    (stores : Stores write_at) (junk_full : (fs : Fs File) → length (junk fs) ≡ 128) where
  pub open_block-Opened :
      (fresh : Bool) (pointers : List ℕ) (index : ℕ) (fs : Fs File)
      → IsReady fs
      → index < length pointers
      → cost fresh ≤ free_sectors fs
      → (fresh ≡ false
          → Used fs (entry pointers index)
            × (entry pointers index < sector_cnt fs)
            × IsIndex fs.dev (entry pointers index))
      → (block pointers' : List ℕ) × (fs' : Fs File) × (open_block write_at junk fresh pointers
            index fs
          ≡ some (record { block = block; pointers = pointers'; fs = fs' }))
        × Opened fresh pointers index fs block pointers' fs'
  unfolding open_block
  open_block-Opened true pointers index fs r hi enough old =
      let (s, fs', e, x, f, same, c) =
        allocate_into_lem write_at junk stores pointers index fs r enough in
      let at : entry (set pointers index s) index ≡ s = get_or-set_self pointers index s 0 hi in
      (
        junk fs',
        set pointers index s,
        fs',
        rw e refl,
        record {
          extends = x;
          same_dev = same;
          source = rw at (allocated refl f);
          others = λ j ne. get_or-set_ne pointers index j s 0 (λ q. ne (sym q));
          same_length = length-set pointers index s;
          full = junk_full fs';
          old = cc;
          counted = c;
        },
      )
  open_block-Opened false pointers index fs r hi enough old =
      let (u, p, i) = old refl in
      let e = read_index_lem fs.dev (entry pointers index) (rw r.sized p) i in
      (
        entries fs.dev (entry pointers index),
        pointers,
        fs,
        rw e refl,
        record {
          extends = Extends-refl r;
          same_dev = refl;
          source = present refl u p;
          others = λ j ne. refl;
          same_length = refl;
          full = i.full;
          old = λ q. (refl, refl);
          counted = omega arith;
        },
      )

-- The block at sector `s`, filled from entry `lo` to below `hi` and written back.
pub record Extended {File : Type 0} (fresh : Bool) (lo hi s : ℕ) (block new : List ℕ)
    (fs fs' : Fs File) : Type 0 where
  pub ready : IsReady fs'
  pub same_cnt : sector_cnt fs' ≡ sector_cnt fs
  pub still : (t : ℕ) → Used fs t → Used fs' t
  pub kept : (t : ℕ) → Used fs t → t ≢ s → fs'.dev.sectors t ≡ fs.dev.sectors t
  pub stored : fs'.dev.sectors s ≡ index_block new
  pub full : length new ≡ 128
  pub source : Source fresh fs fs' s
  pub before : (j : ℕ) → j < lo → entry new j ≡ entry block j
  pub added : (j : ℕ) → lo ≤ j → j < hi → IsFresh fs fs' (entry new j)
  pub apart : (j : ℕ) → lo ≤ j → j < hi → entry new j ≢ s
  pub zeroed : (j : ℕ) → lo ≤ j → j < hi → fs'.dev.sectors (entry new j) ≡ zeros
  pub distinct : (i j : ℕ) → lo ≤ i → i < hi → lo ≤ j → j < hi → entry new i ≡ entry new j → i ≡ j
  pub counted : free_sectors fs' + (hi - lo) + cost fresh ≡ free_sectors fs

module _ {File : Type 0} where
  -- The block's sector is in use once it is open.
  Source-Used :
      (fresh : Bool) {fs fs' : Fs File} {s : ℕ}
      → Source fresh fs fs' s
      → Extends fs fs'
      → Used fs' s × (s < sector_cnt fs')
  Source-Used fresh (allocated e f) x = (f.taken, rw x.same_cnt f.in_range)
  Source-Used fresh (present e u p) x = (x.still _ u, rw x.same_cnt p)

  Source-later :
      (fresh : Bool) {fs fs' fs'' : Fs File} {s : ℕ}
      → Source fresh fs fs' s
      → Extends fs' fs''
      → Source fresh fs fs'' s
  Source-later fresh (allocated e f) x = allocated e (IsFresh-later f x)
  Source-later fresh (present e u p) x = present e u p

  pub Run-Extended :
      (fresh : Bool) (index lo hi : ℕ) (pointers block pointers' new : List ℕ)
      {fs fs' fs'' : Fs File}
      → Opened fresh pointers index fs block pointers' fs'
      → Run lo hi block new fs' fs''
      → let s = entry pointers' index in
        Extended fresh lo hi s block new fs (written fs'' s (index_block new))
  Run-Extended fresh index lo hi pointers block pointers' new {fs} {fs'} {fs''} o r = record {
    ready = record { valid = x.ready.valid; sized = x.ready.sized };
    same_cnt = x.same_cnt;
    still = x.still;
    kept = λ t u ne. rw (==_ne s t (λ e. ne (sym e))) (x.kept t u);
    stored = rw (==_self s) refl;
    full = r.same_length ∙ o.full;
    source = again (Source-later fresh o.source r.extends);
    before = λ j p. r.outside j (inl p);
    added = λ j p q. renew (IsFresh-earlier o.extends (r.fresh j p q));
    apart = λ j p q. IsFresh-ne (r.fresh j p q) taken;
    zeroed = λ j p q.
        rw (==_ne s (entry new j) (λ e. IsFresh-ne (r.fresh j p q) taken (sym e))) (r.zeroed j p q);
    distinct = r.distinct;
    counted = omega (arith, r.counted, o.counted);
  }
    where
      s : ℕ
      s = entry pointers' index

      x : Extends fs fs''
      x = Extends-trans o.extends r.extends

      taken : Used fs' s
      taken = (Source-Used fresh o.source o.extends).0

      renew : {t : ℕ} → IsFresh fs fs'' t → IsFresh fs (written fs'' s (index_block new)) t
      renew f = record { in_range = f.in_range; was_free = f.was_free; taken = f.taken }

      again : Source fresh fs fs'' s → Source fresh fs (written fs'' s (index_block new)) s
      again (allocated e f) = allocated e (renew f)
      again (present e u p) = present e u p

  pub Source-range :
      (fresh : Bool) {fs fs' : Fs File} {s : ℕ} → Source fresh fs fs' s → s < sector_cnt fs
  Source-range fresh (allocated e f) = f.in_range
  Source-range fresh (present e u p) = p
