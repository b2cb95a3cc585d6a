-- ===== src/Inode/Deep.antt =====
-- The loop over the inner index blocks, from any point of the second level on.
use cs439_pcs.Base.{
  ℕ, zero, suc, ◌+◌, ◌-◌, ◌*◌, ◌/◌, ◌%◌, ◌≤◌, ◌<◌, List, Option, some, false, true, min, Bool,
}
use cs439_pcs.Base.{◌≡◌, ◌≢◌, refl, ◌∙◌, arith, ltb, length, ◌==◌}
use cs439_pcs.FreeMap.Count.{Stores}
use cs439_pcs.Device.{InodeDisk, index_block, block_write}
use cs439_pcs.Inode.{entry}
use cs439_pcs.Inode.Grow.{Fs, Grown, Filled, fill, open_block, second_indir_alloc_deep, deep_loop}
use cs439_pcs.Inode.Grow.Fresh.{Used, sector_cnt, free_sectors, written, block_write_lem}
use cs439_pcs.Inode.Grow.Fill.{Run, fill-Run}
use cs439_pcs.Inode.Block.{Opened, Extended, Run-Extended, open_block-Opened, Source-range}
use cs439_pcs.Inode.Slots.{inner, entries, slot_at, max_sectors, IsIndex}
use cs439_pcs.Inode.Layout.{Spread, Spread-trans}
use cs439_pcs.Inode.Inner.{
  Working, inner_done, inner-Spread, inner-Working, inner_counted, inner_lem,
}
use cs439_pcs.Inode.Inner.{ptr-inner_done, length-inner_done}
use mathlib.Core.Path.{subst}
use native.Mathlib.Decide.{dec_lt}

ne_of_test : (a : ℕ) → (a == 0) ≡ false → a ≢ 0
ne_of_test a q = ground arith

-- The sectors of the second level's files with their inner blocks.
abbrev pub inner_total : ℕ → ℕ
inner_total n = n + (n - 138 + 127) / 128

-- From `n` sectors the second level grew to `n'`.
pub record Deeper {File : Type 0} (n n' : ℕ) (d : InodeDisk) (second : List ℕ) (fs : Fs File)
    (d' : InodeDisk) (second' : List ℕ) (fs' : Fs File) : Type 0 where
  pub working : Working d' second' fs' n'
  pub spread :
      Spread n 139 n' 139
        (slot_at d.ptr second (entries fs.dev))
        (slot_at d'.ptr second' (entries fs'.dev))
        fs
        fs'
  pub same_ptr : d'.ptr ≡ d.ptr
  pub same_length : d'.length ≡ d.length
  pub counted : free_sectors fs' + inner_total n' ≡ free_sectors fs + inner_total n

Deeper-refl :
    {File : Type 0} {n : ℕ} {d : InodeDisk} {second : List ℕ} {fs : Fs File}
    → Working d second fs n
    → Deeper n n d second fs d second fs
Deeper-refl {n} w = record {
  working = w;
  spread = record {
    more = omega arith;
    more_b = λ q. q;
    same_cnt = refl;
    same_slots = λ t l. refl;
    fresh = λ t l nl. absurd (nl l);
    zeroed = λ k p q. absurd (omega arith);
    still = λ s u. u;
    kept = λ s u away. refl;
  };
  same_ptr = refl;
  same_length = refl;
  counted = refl;
}

Deeper-at :
    {File : Type 0} {n n' m : ℕ} {d d' : InodeDisk} {second second' : List ℕ} {fs fs' : Fs File}
    → n' ≡ m
    → Deeper n n' d second fs d' second' fs'
    → Deeper n m d second fs d' second' fs'
Deeper-at {n} {d} {d'} {second} {second'} {fs} {fs'} e g =
    subst (λ i. Deeper n i d second fs d' second' fs') e g

Deeper-trans :
    {File : Type 0} {n n' n'' : ℕ} {d d' d'' : InodeDisk} {second second' second'' : List ℕ}
    {fs fs' fs'' : Fs File}
    → Deeper n n' d second fs d' second' fs'
    → Deeper n' n'' d' second' fs' d'' second'' fs''
    → Deeper n n'' d second fs d'' second'' fs''
Deeper-trans g h = record {
  working = h.working;
  spread = Spread-trans g.working.owns g.spread h.spread;
  same_ptr = h.same_ptr ∙ g.same_ptr;
  same_length = h.same_length ∙ g.same_length;
  counted = omega (arith, g.counted, h.counted);
}

module _ {File : Type 0} (write_at : File → List ℕ → ℕ → ℕ → ℕ × File) (junk : Fs File → List ℕ)
    (stores : Stores write_at) (junk_full : (fs : Fs File) → length (junk fs) ≡ 128) where
  -- What a round, or the loop, returns when it goes from `n` to `n'` sectors.
  pub record Reached (n n' sectors : ℕ) (d : InodeDisk) (second : List ℕ) (fs : Fs File)
      (r : Option (Grown File × List ℕ)) : Type 0 where
    pub grown : Grown File
    pub second' : List ℕ
    pub returns : r ≡ some (grown, second')
    pub deeper : Deeper n n' d second fs grown.data_ second' grown.fs
    pub left : grown.sectors ≡ sectors - (n' - n)

  inner_old :
      {d : InodeDisk} {second : List ℕ} {fs : Fs File} {n : ℕ}
      → Working d second fs n
      → (n - 138) % 128 ≢ 0
      → let s = entry second ((n - 138) / 128) in Used fs s × (s < sector_cnt fs) × IsIndex fs.dev s
  inner_old {d} {second} {fs} {n} w ne =
      let j : ℕ = (n - 138) / 128 in
      let l : 138 + 128 * j < n = omega (arith, w.from) in
      let e = inner_lem d.ptr second (entries fs.dev) j in
      (
        rw e at (w.owns.used (inner j) l),
        rw e at (w.owns.in_range (inner j) l),
        rw e at (w.blocks (inner j) l tt (λ q. cc)),
      )

  Extended-at :
      {fresh : Bool} {lo hi hi' s : ℕ} {block new : List ℕ} {fs fs' : Fs File}
      → hi ≡ hi'
      → Extended fresh lo hi s block new fs fs'
      → Extended fresh lo hi' s block new fs fs'
  Extended-at {fresh} {lo} {hi} {hi'} {s} {block} {new} {fs} {fs'} e x =
      subst (λ i. Extended fresh lo i s block new fs fs') e x

  deep_runs :
      (sectors : ℕ) (d : InodeDisk) (second : List ℕ) (fs : Fs File) (j r : ℕ)
      (block pointers : List ℕ) (mid : Fs File) (f : Filled File)
      → d.first_level_index ≡ j
      → d.second_level_index ≡ r
      → open_block write_at junk (r == 0) second j fs
        ≡ some (record { block = block; pointers = pointers; fs = mid })
      → fill write_at junk 128 sectors r block mid ≡ some f
      → block_write f.fs.dev (entry pointers j) (index_block f.pointers)
        ≡ some (written f.fs (entry pointers j) (index_block f.pointers)).dev
      → second_indir_alloc_deep write_at junk sectors d second fs
        ≡ some (
          record {
            sectors = f.sectors;
            data_ = inner_done d f.index;
            fs = written f.fs (entry pointers j) (index_block f.pointers);
          },
          pointers,
        )
  unfolding second_indir_alloc_deep
  deep_runs sectors d second fs j r block pointers mid f ej er eo ef ew =
      rw (er, ej, eo, ef, ew) refl

  -- The round's result, once its block is open and filled.
  deep_finish :
      (sectors n : ℕ) (d : InodeDisk) (second : List ℕ) (fs : Fs File) (block pointers : List ℕ)
      (mid : Fs File) (f : Filled File) (w : Working d second fs n)
      → let j = (n - 138) / 128 in
        let r = (n - 138) % 128 in
        let n' = n + min sectors (128 - r) in
        0 < sectors
        → n < max_sectors
        → open_block write_at junk (r == 0) second j fs
          ≡ some (record { block = block; pointers = pointers; fs = mid })
        → Opened (r == 0) second j fs block pointers mid
        → fill write_at junk 128 sectors r block mid ≡ some f
        → f.index ≡ r + min sectors (128 - r)
        → f.sectors ≡ sectors - (128 - r)
        → Run r f.index block f.pointers mid f.fs
        → Reached n n' sectors d second fs
            (second_indir_alloc_deep write_at junk sectors d second fs)
  deep_finish sectors n d second fs block pointers mid f w pos small eo o ef ei es run =
      let j : ℕ = (n - 138) / 128 in
      let r : ℕ = (n - 138) % 128 in
      let n' : ℕ = n + min sectors (128 - r) in
      let s : ℕ = entry pointers j in
      let out : Fs File = written f.fs s (index_block f.pointers) in
      let x : Extended (r == 0) r f.index s block f.pointers fs out =
        Run-Extended (r == 0) j r f.index second block pointers f.pointers o run in
      let here : s < sector_cnt f.fs = omega (arith, Source-range _ x.source, x.same_cnt) in
      let same_index : f.index ≡ r + (n' - n) = omega (arith, ei) in
      let x' : Extended (r == 0) r (r + (n' - n)) s block f.pointers fs out =
        Extended-at same_index x in
      let more : n < n' = omega arith in
      let most : n' ≤ 138 + 128 * j + 128 = omega (arith, w.from) in
      record {
        grown = record { sectors = f.sectors; data_ = inner_done d f.index; fs = out };
        second' = pointers;
        returns =
            deep_runs sectors d second fs j r block pointers mid f (w.counters.high w.from).1
              (w.counters.high w.from).2 eo ef
              (block_write_lem f.fs s (index_block f.pointers) run.extends.ready here);
        deeper = rw same_index (record {
          working =
              inner-Working d n n' j r second block pointers f.pointers w refl refl more most small
                o x';
          spread = rw ptr-inner_done (
              inner-Spread d n n' j r second block pointers f.pointers w refl refl more most small o
                x');
          same_ptr = ptr-inner_done d _;
          same_length = length-inner_done d _;
          counted =
              inner_counted d n n' j r second block pointers f.pointers w refl refl more most small
                o x';
        });
        left = omega (arith, es);
      }

  pub deep-Reached :
      (sectors n : ℕ) (d : InodeDisk) (second : List ℕ) (fs : Fs File)
      → Working d second fs n
      → 0 < sectors
      → n < max_sectors
      → let n' = n + min sectors (128 - (n - 138) % 128) in
        inner_total n' ≤ free_sectors fs + inner_total n
        → Reached n n' sectors d second fs
            (second_indir_alloc_deep write_at junk sectors d second fs)
  deep-Reached sectors n d second fs w pos small enough =
      let j : ℕ = (n - 138) / 128 in
      let r : ℕ = (n - 138) % 128 in
      let (block, pointers, mid, eo, o) =
        open_block-Opened write_at junk stores junk_full (r == 0) second j fs w.ready
          (omega (arith, w.full, w.from)) (ground (arith, w.from))
          (λ q. inner_old w (ne_of_test r q)) in
      let (f, ef, ei, es, run) =
        fill-Run write_at junk stores 128 sectors r block mid o.extends.ready
          (omega (arith, o.full)) (omega arith) (ground (arith, w.from, o.counted)) in
      deep_finish sectors n d second fs block pointers mid f w pos small eo o ef ei es run

  module _ (fuel sectors : ℕ) (d : InodeDisk) (second : List ℕ) (fs : Fs File) (g : Grown File)
      (second' : List ℕ) (going : ltb d.first_level_index 128 ≡ true)
      (round : second_indir_alloc_deep write_at junk sectors d second fs ≡ some (g, second')) where
    loop_last :
        g.sectors ≡ 0 → deep_loop write_at junk (suc fuel) sectors d second fs ≡ some (g, second')
    unfolding deep_loop
    loop_last done = rw (going, round) (ground arith)

    loop_more :
        g.sectors ≢ 0
        → deep_loop write_at junk (suc fuel) sectors d second fs
          ≡ deep_loop write_at junk fuel g.sectors g.data_ second' g.fs
    unfolding deep_loop
    loop_more more = rw (going, round) (ground arith)

  Reached-at :
      {n n' m sectors : ℕ} {d : InodeDisk} {second : List ℕ} {fs : Fs File}
      {r : Option (Grown File × List ℕ)}
      → n' ≡ m
      → Reached n n' sectors d second fs r
      → Reached n m sectors d second fs r
  Reached-at {n} {sectors} {d} {second} {fs} {r} e q =
      subst (λ i. Reached n i sectors d second fs r) e q

  module _ (fuel sectors n n1 : ℕ) (d : InodeDisk) (second : List ℕ) (fs : Fs File)
      (going : ltb d.first_level_index 128 ≡ true)
      (q : Reached n n1 sectors d second fs
        (second_indir_alloc_deep write_at junk sectors d second fs)) where
    -- The last round ends the loop.
    Reached-last :
        (m : ℕ)
        → q.grown.sectors ≡ 0
        → n1 ≡ m
        → Reached n m sectors d second fs (deep_loop write_at junk (suc fuel) sectors d second fs)
    Reached-last m done e = record {
      grown = q.grown;
      second' = q.second';
      returns = loop_last fuel sectors d second fs q.grown q.second' going q.returns done;
      deeper = Deeper-at e q.deeper;
      left = rw (← e) q.left;
    }

    -- A round and the rest of the loop.
    Reached-more :
        (n2 : ℕ)
        → q.grown.sectors ≢ 0
        → n ≤ n1
        → n1 ≤ n2
        → Reached n1 n2 q.grown.sectors q.grown.data_ q.second' q.grown.fs
            (deep_loop write_at junk fuel q.grown.sectors q.grown.data_ q.second' q.grown.fs)
        → Reached n n2 sectors d second fs (deep_loop write_at junk (suc fuel) sectors d second fs)
    Reached-more n2 more p p' z = record {
      grown = z.grown;
      second' = z.second';
      returns =
          rw (loop_more fuel sectors d second fs q.grown q.second' going q.returns more) z.returns;
      deeper = Deeper-trans q.deeper z.deeper;
      left = omega (arith, q.left, z.left);
    }

  -- The loop goes on until the sectors are used up or the second level is full.
  pub deep_loop-Reached :
      (fuel sectors n : ℕ) (d : InodeDisk) (second : List ℕ) (fs : Fs File)
      → Working d second fs n
      → 0 < sectors
      → 128 < (n - 138) / 128 + fuel
      → let n' = n + min sectors (max_sectors - n) in
        inner_total n' ≤ free_sectors fs + inner_total n
        → Reached n n' sectors d second fs (deep_loop write_at junk fuel sectors d second fs)
  unfolding deep_loop
  deep_loop-Reached zero sectors n d second fs w pos fuel enough = absurd (omega (arith, w.fits))
  deep_loop-Reached (suc fuel) sectors n d second fs w pos enough_fuel enough =
      elim (dec_lt n max_sectors) [
        | yes small ↦
            let n1 : ℕ = n + min sectors (128 - (n - 138) % 128) in
            let n2 : ℕ = n + min sectors (max_sectors - n) in
            let q = deep-Reached sectors n d second fs w pos small (omega (arith, w.from)) in
            let going : ltb d.first_level_index 128 ≡ true =
              ground (arith, w.counters.high w.from) in
            elim (dec_lt (n1 - n) sectors) [
              | no done ↦
                  Reached-last fuel sectors n n1 d second fs going q n2 (omega (arith, q.left))
                    (omega (arith, w.from))
              | yes more ↦
                  let same_end : n1 + min q.grown.sectors (max_sectors - n1) ≡ n2 =
                    omega (arith, q.left, w.from) in
                  Reached-more fuel sectors n n1 d second fs going q n2 (omega (arith, q.left))
                    (omega arith) (omega (arith, w.from))
                    (Reached-at same_end (
                      deep_loop-Reached fuel q.grown.sectors n1 q.grown.data_ q.second' q.grown.fs
                        q.deeper.working (omega (arith, q.left)) (omega (arith, w.from))
                        (omega (arith, q.left, q.deeper.counted, w.from))))
            ]
        | no full ↦
            let stop : ltb d.first_level_index 128 ≡ false =
              ground (arith, w.counters.high w.from, w.fits) in
            record {
              grown = record { sectors = sectors; data_ = d; fs = fs };
              second' = second;
              returns = rw stop refl;
              deeper = Deeper-at (omega arith) (Deeper-refl w);
              left = omega arith;
            }
      ]
