-- ===== src/Inode/Levels.antt =====
-- What each of the three levels of inode_grow does to a file that it may go on with.
use cs439_pcs.Base.{ℕ, zero, suc, ◌+◌, ◌-◌, ◌≤◌, ◌<◌, List, Option, some, false, min, Bool}
use cs439_pcs.Base.{◌≡◌, ◌≢◌, refl, sym, ◌∙◌, ap, arith, ltb, length, ◌==◌, ◌&&◌}
use cs439_pcs.FreeMap.Count.{Stores}
use cs439_pcs.Device.{InodeDisk, index_block, block_write}
use cs439_pcs.Inode.{entry}
use cs439_pcs.Inode.Grow.{
  Fs, Grown, Filled, fill, open_block, first_indir_alloc, second_indir_alloc, deep_loop,
}
use cs439_pcs.Inode.Grow.Fresh.{Used, sector_cnt, free_sectors, written, block_write_lem}
use cs439_pcs.Inode.Grow.Fill.{Run, fill-Run}
use cs439_pcs.Inode.Block.{Opened, Extended, Run-Extended, open_block-Opened, Source-range}
use cs439_pcs.Inode.Slots.{
  Slot, single, double, entries, place_of, Has, max_sectors, total, IsIndex,
}
use cs439_pcs.Inode.Layout.{Holds, Grew, Spread-trans}
use cs439_pcs.Inode.Direct.{direct-Grew}
use cs439_pcs.Inode.Single.{single-Grew, single_done, single_lem}
use cs439_pcs.Inode.Inner.{Working, double_lem}
use cs439_pcs.Inode.Deep.{Reached, deep_loop-Reached}
use cs439_pcs.Inode.Second.{enter-Working, enter-Spread, leave-Holds, leave-Spread}
use mathlib.Core.Path.{subst}

pub Grew-refl :
    {File : Type 0} {n : ℕ} {d : InodeDisk} {fs : Fs File} → Holds d fs n → Grew n n d fs d fs
Grew-refl h = record {
  holds = h;
  same_length = refl;
  spread = record {
    more = omega arith;
    more_b = λ q. q;
    same_cnt = refl;
    same_slots = λ t l. refl;
    fresh = λ t l nl. absurd (nl l);
    zeroed = λ k p q. absurd (omega arith);
    still = λ s u. u;
    kept = λ s u away. refl;
  };
  counted = refl;
}

pub Grew-at :
    {File : Type 0} {n n' m : ℕ} {d d' : InodeDisk} {fs fs' : Fs File}
    → n' ≡ m
    → Grew n n' d fs d' fs'
    → Grew n m d fs d' fs'
Grew-at {n} {d} {d'} {fs} {fs'} e g = subst (λ i. Grew n i d fs d' fs') e g

ne_of_test : (a b : ℕ) → (a == b) ≡ false → a ≢ b
ne_of_test a b q = ground arith

direct_filled-Grew :
    {File : Type 0} (n n' : ℕ) (d : InodeDisk) (fs : Fs File) (f : Filled File)
    → Holds d fs n
    → n ≤ n'
    → n' ≤ 10
    → f.index ≡ n'
    → Run n f.index d.ptr f.pointers fs f.fs
    → Grew n n' d fs (record d { ptr = f.pointers; direct_level_index = f.index }) f.fs
direct_filled-Grew n n' d fs f h more most e run =
    let run' : Run n n' d.ptr f.pointers fs f.fs =
      subst (λ i. Run n i d.ptr f.pointers fs f.fs) e run in
    subst (λ i. Grew n n' d fs (record d { ptr = f.pointers; direct_level_index = i }) f.fs) (sym e)
      (direct-Grew d n n' f.pointers h more most run')

module _ {File : Type 0} (write_at : File → List ℕ → ℕ → ℕ → ℕ × File) (junk : Fs File → List ℕ)
    (stores : Stores write_at) (junk_full : (fs : Fs File) → length (junk fs) ≡ 128) where
  -- `r` is a state in which the file has `n'` sectors and the others of `sectors` are still wanted.
  pub record Leads (n n' sectors : ℕ) (d : InodeDisk) (fs : Fs File) (r : Option (Grown File))
      : Type 0 where
    pub grown : Grown File
    pub returns : r ≡ some grown
    pub grew : Grew n n' d fs grown.data_ grown.fs
    pub left : grown.sectors ≡ sectors - (n' - n)

  meta_at :
      {d : InodeDisk} {fs : Fs File} {n : ℕ} (t : Slot) (s : ℕ)
      → Holds d fs n
      → Has n t
      → place_of d fs.dev t ≡ s
      → IsIndex fs.dev (place_of d fs.dev t)
      → Used fs s × (s < sector_cnt fs) × IsIndex fs.dev s
  meta_at t s h l e i = (rw e at (h.owns.used t l), rw e at (h.owns.in_range t l), rw e at i)

  first_runs :
      (sectors r : ℕ) (d : InodeDisk) (fs : Fs File) (block pointers : List ℕ) (mid : Fs File)
      (f : Filled File)
      → d.first_level_index ≡ r
      → open_block write_at junk (r == 0) d.ptr 10 fs
        ≡ some (record { block = block; pointers = pointers; fs = mid })
      → fill write_at junk 128 sectors r block mid ≡ some f
      → block_write f.fs.dev (entry pointers 10) (index_block f.pointers)
        ≡ some (written f.fs (entry pointers 10) (index_block f.pointers)).dev
      → first_indir_alloc write_at junk sectors d fs
        ≡ some (record {
          sectors = f.sectors;
          data_ = single_done d (10 + f.index) pointers;
          fs = written f.fs (entry pointers 10) (index_block f.pointers);
        })
  unfolding first_indir_alloc
  first_runs sectors r d fs block pointers mid f er eo ef ew =
      let back : 10 + f.index - 10 ≡ f.index = omega arith in rw (er, eo, ef, ew, back) refl

  first_finish :
      (sectors n : ℕ) (d : InodeDisk) (fs : Fs File) (block pointers : List ℕ) (mid : Fs File)
      (f : Filled File) (h : Holds d fs n)
      → let n' = n + min sectors (138 - n) in
        0 < sectors
        → 10 ≤ n
        → n < 138
        → open_block write_at junk (n - 10 == 0) d.ptr 10 fs
          ≡ some (record { block = block; pointers = pointers; fs = mid })
        → Opened (n == 10) d.ptr 10 fs block pointers mid
        → fill write_at junk 128 sectors (n - 10) block mid ≡ some f
        → f.index ≡ n' - 10
        → f.sectors ≡ sectors - (138 - n)
        → Run (n - 10) f.index block f.pointers mid f.fs
        → Leads n n' sectors d fs (first_indir_alloc write_at junk sectors d fs)
  first_finish sectors n d fs block pointers mid f h pos from below eo o ef ei es run =
      let n' : ℕ = n + min sectors (138 - n) in
      let s : ℕ = entry pointers 10 in
      let out : Fs File = written f.fs s (index_block f.pointers) in
      let x : Extended (n == 10) (n - 10) f.index s block f.pointers fs out =
        Run-Extended (n == 10) 10 (n - 10) f.index d.ptr block pointers f.pointers o run in
      let here : s < sector_cnt f.fs = omega (arith, Source-range _ x.source, x.same_cnt) in
      let x' : Extended (n == 10) (n - 10) (n' - 10) s block f.pointers fs out =
        subst (λ i. Extended (n == 10) (n - 10) i s block f.pointers fs out) ei x in
      let end : 10 + f.index ≡ n' = omega (arith, ei) in
      record {
        grown = record {
          sectors = f.sectors;
          data_ = single_done d (10 + f.index) pointers;
          fs = out;
        };
        returns =
            first_runs sectors (n - 10) d fs block pointers mid f (h.counters.low below).1 eo ef
              (block_write_lem f.fs s (index_block f.pointers) run.extends.ready here);
        grew = rw end (
            single-Grew d n n' block pointers f.pointers h from below (omega arith) (omega arith) o
              x');
        left = omega (arith, es);
      }

  pub first_indir_alloc-Leads :
      (sectors n : ℕ) (d : InodeDisk) (fs : Fs File)
      → Holds d fs n
      → 0 < sectors
      → 10 ≤ n
      → n < 138
      → let n' = n + min sectors (138 - n) in
        total n' ≤ free_sectors fs + total n
        → Leads n n' sectors d fs (first_indir_alloc write_at junk sectors d fs)
  first_indir_alloc-Leads sectors n d fs h pos from below enough =
      let same_test : (n - 10 == 0) ≡ (n == 10) = ground arith in
      let (block, pointers, mid, eo, o) =
        open_block-Opened write_at junk stores junk_full (n == 10) d.ptr 10 fs h.ready
          (omega (arith, h.room)) (ground arith)
          (λ q.
            meta_at single (entry d.ptr 10) h (omega (arith, ne_of_test n 10 q)) (single_lem _ _ _)
              (h.blocks single (omega (arith, ne_of_test n 10 q)) tt)) in
      let (f, ef, ei, es, run) =
        fill-Run write_at junk stores 128 sectors (n - 10) block mid o.extends.ready
          (omega (arith, o.full)) (omega arith) (ground (arith, o.counted)) in
      first_finish sectors n d fs block pointers mid f h pos from below (rw same_test eo) o ef
        (omega (arith, ei)) (omega (arith, es)) run

  second_runs :
      (sectors : ℕ) (fresh : Bool) (d : InodeDisk) (fs : Fs File) (block pointers : List ℕ)
      (mid : Fs File) (g : Grown File) (second : List ℕ)
      → ((d.first_level_index == 0) && (d.second_level_index == 0)) ≡ fresh
      → open_block write_at junk fresh d.ptr 11 fs
        ≡ some (record { block = block; pointers = pointers; fs = mid })
      → deep_loop write_at junk 129 sectors (record d { ptr = pointers }) block mid
        ≡ some (g, second)
      → block_write g.fs.dev (entry g.data_.ptr 11) (index_block second)
        ≡ some (written g.fs (entry g.data_.ptr 11) (index_block second)).dev
      → second_indir_alloc write_at junk sectors d fs
        ≡ some (record g { fs = written g.fs (entry g.data_.ptr 11) (index_block second) })
  unfolding second_indir_alloc
  second_runs sectors fresh d fs block pointers mid g second et eo el ew = rw (et, eo, el, ew) refl

  second_finish :
      (sectors n n' : ℕ) (d : InodeDisk) (fs : Fs File) (block pointers : List ℕ) (mid : Fs File)
      (h : Holds d fs n) (from : 138 ≤ n)
      → n' ≡ n + min sectors (max_sectors - n)
      → 0 < sectors
      → open_block write_at junk (n == 138) d.ptr 11 fs
        ≡ some (record { block = block; pointers = pointers; fs = mid })
      → Opened (n == 138) d.ptr 11 fs block pointers mid
      → Reached write_at junk stores junk_full n n' sectors
          (record d { ptr = pointers })
          block
          mid
          (deep_loop write_at junk 129 sectors (record d { ptr = pointers }) block mid)
      → Leads n n' sectors d fs (second_indir_alloc write_at junk sectors d fs)
  second_finish sectors n n' d fs block pointers mid h from en pos eo o q =
      let g : Grown File = q.grown in
      let past : 138 < n' = omega (arith, h.fits) in
      let w : Working g.data_ q.second' g.fs n' = q.deeper.working in
      let s : ℕ = entry g.data_.ptr 11 in
      let here : s < sector_cnt g.fs =
        rw (double_lem g.data_.ptr q.second' (entries g.fs.dev)) at
          (w.owns.in_range double (omega arith)) in
      let both : ((d.first_level_index == 0) && (d.second_level_index == 0)) ≡ (n == 138) =
        ground (arith, h.counters.high from) in
      record {
        grown = record g { fs = written g.fs s (index_block q.second') };
        returns =
            second_runs sectors (n == 138) d fs block pointers mid g q.second' both eo q.returns
              (block_write_lem g.fs s (index_block q.second') w.ready here);
        grew = record {
          holds = leave-Holds g.data_ n' q.second' w past;
          same_length = q.deeper.same_length;
          spread =
              Spread-trans (enter-Working d n block pointers h from o).owns
                (enter-Spread d n block pointers h from o)
                (Spread-trans w.owns q.deeper.spread (leave-Spread g.data_ n' q.second' w past));
          counted = ground (arith, q.deeper.counted, o.counted);
        };
        left = q.left;
      }

  pub second_indir_alloc-Leads :
      (sectors n : ℕ) (d : InodeDisk) (fs : Fs File)
      → Holds d fs n
      → 0 < sectors
      → 138 ≤ n
      → let n' = n + min sectors (max_sectors - n) in
        total n' ≤ free_sectors fs + total n
        → Leads n n' sectors d fs (second_indir_alloc write_at junk sectors d fs)
  second_indir_alloc-Leads sectors n d fs h pos from enough =
      let n' : ℕ = n + min sectors (max_sectors - n) in
      let (block, pointers, mid, eo, o) =
        open_block-Opened write_at junk stores junk_full (n == 138) d.ptr 11 fs h.ready
          (omega (arith, h.room)) (ground (arith, h.fits))
          (λ q.
            meta_at double (entry d.ptr 11) h (omega (arith, ne_of_test n 138 q)) (double_lem _ _ _)
              (h.blocks double (omega (arith, ne_of_test n 138 q)) tt)) in
      second_finish sectors n n' d fs block pointers mid h from refl pos eo o (
        deep_loop-Reached write_at junk stores junk_full 129 sectors n (record d { ptr = pointers })
          block mid (enter-Working d n block pointers h from o) pos (omega arith)
          (ground (arith, o.counted, h.fits)))

  -- The loop over the direct pointers, which does nothing once they are used up.
  pub direct-Leads :
      (sectors n : ℕ) (d : InodeDisk) (fs : Fs File)
      → Holds d fs n
      → n ≤ 10
      → let n' = n + min sectors (10 - n) in
        n' ≤ free_sectors fs + n
        → (f : Filled File) × (fill write_at junk 10 sectors d.direct_level_index d.ptr fs ≡ some f)
          × Grew n n' d fs (record d { ptr = f.pointers; direct_level_index = f.index }) f.fs
          × (f.sectors ≡ sectors - (n' - n))
  direct-Leads sectors n d fs h few enough =
      let at : d.direct_level_index ≡ n = omega (arith, h.counters.low (omega arith)) in
      let (f, ef, ei, es, run) =
        fill-Run write_at junk stores 10 sectors n d.ptr fs h.ready (omega (arith, h.room)) few
          (omega arith) in
      let n' : ℕ = n + min sectors (10 - n) in
      (
        f,
        ap (λ i. fill write_at junk 10 sectors i d.ptr fs) at ∙ ef,
        direct_filled-Grew n n' d fs f h (omega arith) (omega arith) ei run,
        omega (arith, es),
      )

  pub direct_stop :
      (sectors : ℕ) (d : InodeDisk) (fs : Fs File)
      → 10 ≤ d.direct_level_index
      → fill write_at junk 10 sectors d.direct_level_index d.ptr fs
        ≡ some
            (record { index = d.direct_level_index; sectors = sectors; pointers = d.ptr; fs = fs })
  unfolding fill
  direct_stop zero d fs h = refl
  direct_stop (suc sectors) d fs h =
      let stop : ltb d.direct_level_index 10 ≡ false = ground arith in rw stop refl
