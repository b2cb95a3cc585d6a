-- ===== src/Inode/Growth.antt =====
-- inode_grow from any state of a file: what it allocates, and the length that it returns.
use cs439_pcs.Base.{ℕ, ◌+◌, ◌-◌, ◌*◌, ◌%◌, ◌≤◌, ◌<◌, List, Option, some, min}
use cs439_pcs.Base.{◌≡◌, ◌≢◌, refl, ◌∙◌, arith, if◌then◌else◌, length, ◌==◌, word_mod, sub32}
use cs439_pcs.Base.{==_ne, ==_is}
use cs439_pcs.FreeMap.Count.{Stores}
use cs439_pcs.Device.{InodeDisk, sector_size}
use cs439_pcs.Inode.{bytes_to_sectors, error}
use cs439_pcs.Inode.Grow.{
  Fs, Grown, Filled, fill, first_indir_alloc, second_indir_alloc, grow_second, grow_first,
  inode_grow,
}
use cs439_pcs.Inode.Grow.Fresh.{free_sectors}
use cs439_pcs.Inode.Slots.{max_sectors, total}
use cs439_pcs.Inode.Layout.{Holds, Grew, Grew-trans}
use cs439_pcs.Inode.Levels.{
  Leads, Grew-refl, Grew-at, first_indir_alloc-Leads, second_indir_alloc-Leads,
}
use cs439_pcs.Inode.Levels.{direct-Leads, direct_stop}
use native.Mathlib.Decide.{dec_lt, ℕ_discrete}

-- Where growing a file that wants `sectors` more stops.
abbrev pub reach : ℕ → ℕ → ℕ
reach n sectors = n + min sectors (max_sectors - n)

module _ {File : Type 0} (write_at : File → List ℕ → ℕ → ℕ → ℕ × File) (junk : Fs File → List ℕ)
    (stores : Stores write_at) (junk_full : (fs : Fs File) → length (junk fs) ≡ 128) where
  -- `r` returns the length that the file may take, having grown to `n'` sectors where `sectors`
  -- more were wanted.
  pub record Grows (n n' sectors disk_length : ℕ) (d : InodeDisk) (fs : Fs File)
      (r : Option (Grown File)) : Type 0 where
    pub grown : Grown File
    pub returns : r ≡ some grown
    pub grew : Grew n n' d fs grown.data_ grown.fs
    pub new_length : grown.sectors ≡ disk_length - (sectors - (n' - n)) * sector_size

  second_runs :
      (disk_length : ℕ) (g r : Grown File)
      → g.data_.direct_level_index ≡ 11
      → second_indir_alloc write_at junk g.sectors g.data_ g.fs ≡ some r
      → r.sectors ≢ error
      → grow_second write_at junk disk_length g
        ≡ some (record r { sectors = sub32 disk_length (r.sectors * sector_size % word_mod) })
  unfolding grow_second
  second_runs disk_length g r e er ne = rw (==_is _ _ e, er) (ground arith)

  grow_second-Grows :
      (disk_length n : ℕ) (g : Grown File)
      → Holds g.data_ g.fs n
      → 138 ≤ n
      → 0 < g.sectors
      → g.sectors * sector_size ≤ disk_length
      → disk_length < word_mod
      → total (reach n g.sectors) ≤ free_sectors g.fs + total n
      → Grows n
          (reach n g.sectors)
          g.sectors
          disk_length
          g.data_
          g.fs
          (grow_second write_at junk disk_length g)
  grow_second-Grows disk_length n g h from pos small word enough =
      let q =
        second_indir_alloc-Leads write_at junk stores junk_full g.sectors n g.data_ g.fs h pos from
          enough in
      finish q
    where
      finish :
          Leads write_at junk stores junk_full n
            (reach n g.sectors)
            g.sectors
            g.data_
            g.fs
            (second_indir_alloc write_at junk g.sectors g.data_ g.fs)
          → Grows n
              (reach n g.sectors)
              g.sectors
              disk_length
              g.data_
              g.fs
              (grow_second write_at junk disk_length g)
      finish q = record {
        grown = record (q.grown) {
          sectors = sub32 disk_length (q.grown.sectors * sector_size % word_mod);
        };
        returns =
            second_runs disk_length g q.grown (h.counters.high from).0 q.returns
              (omega (arith, q.left));
        grew = q.grew;
        new_length = omega (arith, q.left);
      }

  first_runs :
      (disk_length : ℕ) (g r : Grown File)
      → g.data_.direct_level_index ≡ 10
      → first_indir_alloc write_at junk g.sectors g.data_ g.fs ≡ some r
      → r.sectors ≢ error
      → grow_first write_at junk disk_length g ≡ (
          if r.sectors == 0
          then some (record r { sectors = disk_length })
          else grow_second write_at junk disk_length r)
  unfolding grow_first
  first_runs disk_length g r e er ne = rw (==_is _ _ e, er) (ground arith)

  first_skips :
      (disk_length : ℕ) (g : Grown File)
      → g.data_.direct_level_index ≡ 11
      → grow_first write_at junk disk_length g ≡ grow_second write_at junk disk_length g
  unfolding grow_first
  first_skips disk_length g e = rw e refl

  -- The first level, and the second where that is not enough.
  first_finish :
      (disk_length n n1 : ℕ) (g : Grown File) (h : Holds g.data_ g.fs n)
      → n1 ≡ n + min g.sectors (138 - n)
      → 10 ≤ n
      → n < 138
      → 0 < g.sectors
      → g.sectors * sector_size ≤ disk_length
      → disk_length < word_mod
      → total (reach n g.sectors) ≤ free_sectors g.fs + total n
      → Leads write_at junk stores junk_full n n1 g.sectors g.data_ g.fs
          (first_indir_alloc write_at junk g.sectors g.data_ g.fs)
      → Grows n
          (reach n g.sectors)
          g.sectors
          disk_length
          g.data_
          g.fs
          (grow_first write_at junk disk_length g)
  first_finish disk_length n n1 g h e1 from below pos small word enough q =
      elim (ℕ_discrete q.grown.sectors 0) [
        | yes done ↦
            let end : n1 ≡ reach n g.sectors = omega (arith, q.left) in
            record {
              grown = record (q.grown) { sectors = disk_length };
              returns = runs ∙ rw done refl;
              grew = Grew-at end q.grew;
              new_length = omega (arith, q.left);
            }
        | no more ↦ deeper more (
            grow_second-Grows disk_length n1 q.grown q.grew.holds (omega (arith, q.left))
              (omega arith) (omega (arith, q.left)) word (budget more))
      ]
    where
      runs : grow_first write_at junk disk_length g ≡ (
          if q.grown.sectors == 0
          then some (record (q.grown) { sectors = disk_length })
          else grow_second write_at junk disk_length q.grown)
      runs =
          first_runs disk_length g q.grown (omega (arith, h.counters.low below)) q.returns
            (omega (arith, q.left))

      same_end : q.grown.sectors ≢ 0 → reach n1 q.grown.sectors ≡ reach n g.sectors
      same_end more = omega (arith, q.left)

      budget :
          q.grown.sectors ≢ 0
          → total (reach n1 q.grown.sectors) ≤ free_sectors q.grown.fs + total n1
      budget more = rw (same_end more) (omega (arith, q.grew.counted))

      deeper :
          q.grown.sectors ≢ 0
          → Grows n1
              (reach n1 q.grown.sectors)
              q.grown.sectors
              disk_length
              q.grown.data_
              q.grown.fs
              (grow_second write_at junk disk_length q.grown)
          → Grows n
              (reach n g.sectors)
              g.sectors
              disk_length
              g.data_
              g.fs
              (grow_first write_at junk disk_length g)
      deeper more z = record {
        grown = z.grown;
        returns = runs ∙ rw (==_ne q.grown.sectors 0 more) z.returns;
        grew = Grew-at (same_end more) (Grew-trans q.grew z.grew);
        new_length = omega (arith, z.new_length, q.left, same_end more);
      }

  grow_first-Grows :
      (disk_length n : ℕ) (g : Grown File)
      → Holds g.data_ g.fs n
      → 10 ≤ n
      → 0 < g.sectors
      → g.sectors * sector_size ≤ disk_length
      → disk_length < word_mod
      → total (reach n g.sectors) ≤ free_sectors g.fs + total n
      → Grows n
          (reach n g.sectors)
          g.sectors
          disk_length
          g.data_
          g.fs
          (grow_first write_at junk disk_length g)
  grow_first-Grows disk_length n g h from pos small word enough = elim (dec_lt n 138) [
    | yes below ↦
        first_finish disk_length n (n + min g.sectors (138 - n)) g h refl from below pos small word
          enough
          (first_indir_alloc-Leads write_at junk stores junk_full g.sectors n g.data_ g.fs h pos
            from below (ground (arith, enough)))
    | no above ↦
        rw (first_skips disk_length g (h.counters.high (omega arith)).0)
          (grow_second-Grows disk_length n g h (omega arith) pos small word enough)
  ]

  direct_runs :
      (disk_length sectors : ℕ) (d : InodeDisk) (fs : Fs File) (f : Filled File)
      → sub32 (bytes_to_sectors disk_length) (bytes_to_sectors d.length) ≡ sectors
      → sectors ≢ 0
      → fill write_at junk 10 sectors d.direct_level_index d.ptr fs ≡ some f
      → let d' = record d { ptr = f.pointers; direct_level_index = f.index } in
        inode_grow write_at junk disk_length d fs ≡ (
          if f.sectors == 0
          then some (record { sectors = disk_length; data_ = d'; fs = f.fs })
          else grow_first write_at junk disk_length
              (record { sectors = f.sectors; data_ = d'; fs = f.fs }))
  unfolding inode_grow
  direct_runs disk_length sectors d fs f es ne ef = rw (es, ef) (ground arith)

  -- Behind the direct pointers: done, or on to the first level.
  after_direct :
      (disk_length sectors n n1 : ℕ) (d : InodeDisk) (fs : Fs File) (f : Filled File)
      → sub32 (bytes_to_sectors disk_length) (bytes_to_sectors d.length) ≡ sectors
      → sectors ≢ 0
      → fill write_at junk 10 sectors d.direct_level_index d.ptr fs ≡ some f
      → Grew n n1 d fs (record d { ptr = f.pointers; direct_level_index = f.index }) f.fs
      → f.sectors ≡ sectors - (n1 - n)
      → n ≤ n1
      → n1 ≤ n + sectors
      → (f.sectors ≢ 0 → 10 ≤ n1)
      → sectors * sector_size ≤ disk_length + 511
      → n1 ≢ 0
      → n1 * sector_size + f.sectors * sector_size ≤ disk_length + 511
      → disk_length < word_mod
      → total (reach n sectors) ≤ free_sectors fs + total n
      → Grows n
          (reach n sectors)
          sectors
          disk_length
          d
          fs
          (inode_grow write_at junk disk_length d fs)
  after_direct disk_length sectors n n1 d fs f es ne ef g left p p' on small some_there fits word
        enough =
      elim (ℕ_discrete f.sectors 0) [
        | yes done ↦
            let end : n1 ≡ reach n sectors = omega (arith, g.holds.fits) in
            record {
              grown = record { sectors = disk_length; data_ = d'; fs = f.fs };
              returns = runs ∙ rw done refl;
              grew = Grew-at end g;
              new_length = omega (arith, g.holds.fits);
            }
        | no more ↦ deeper more (
            grow_first-Grows disk_length n1 (record { sectors = f.sectors; data_ = d'; fs = f.fs })
              g.holds (on more) (omega arith) (omega arith) word
              (rw (same_end more) (omega (arith, g.counted))))
      ]
    where
      d' : InodeDisk
      d' = record d { ptr = f.pointers; direct_level_index = f.index }

      runs : inode_grow write_at junk disk_length d fs ≡ (
          if f.sectors == 0
          then some (record { sectors = disk_length; data_ = d'; fs = f.fs })
          else grow_first write_at junk disk_length
              (record { sectors = f.sectors; data_ = d'; fs = f.fs }))
      runs = direct_runs disk_length sectors d fs f es ne ef

      same_end : f.sectors ≢ 0 → reach n1 f.sectors ≡ reach n sectors
      same_end more = omega (arith, g.holds.fits)

      deeper :
          f.sectors ≢ 0
          → Grows n1 (reach n1 f.sectors) f.sectors disk_length d' f.fs (
              grow_first write_at junk disk_length
                (record { sectors = f.sectors; data_ = d'; fs = f.fs }))
          → Grows n
              (reach n sectors)
              sectors
              disk_length
              d
              fs
              (inode_grow write_at junk disk_length d fs)
      deeper more z = record {
        grown = z.grown;
        returns = runs ∙ rw (==_ne f.sectors 0 more) z.returns;
        grew = Grew-at (same_end more) (Grew-trans g z.grew);
        new_length = omega (arith, z.new_length, same_end more, g.holds.fits);
      }

  nothing_wanted :
      (disk_length : ℕ) (d : InodeDisk) (fs : Fs File)
      → sub32 (bytes_to_sectors disk_length) (bytes_to_sectors d.length) ≡ 0
      → inode_grow write_at junk disk_length d fs
        ≡ some (record { sectors = disk_length; data_ = d; fs = fs })
  unfolding inode_grow
  nothing_wanted disk_length d fs e = rw e refl

  -- A file laid out in `n` sectors is grown by inode_grow to `disk_length` bytes, which need `m`
  -- sectors, on a device with enough free sectors for the data and index blocks, when the map's file
  -- takes every write: the function returns, the file is laid out in the lesser of `m` and the
  -- most its pointers reach, its old sectors stay where they were, the new ones are fresh and hold
  -- zeros, no sector in use is written but the file's own index blocks, the sectors taken are counted
  -- exactly, and the value is `disk_length` less 512 for each sector that was out of reach.
  pub inode_grow-Grows :
      (disk_length n m : ℕ) (d : InodeDisk) (fs : Fs File)
      → Holds d fs n
      → n ≡ bytes_to_sectors d.length
      → m ≡ bytes_to_sectors disk_length
      → n ≤ m
      → disk_length + 511 < word_mod
      → total (min m max_sectors) ≤ free_sectors fs + total n
      → Grows n
          (min m max_sectors)
          (m - n)
          disk_length
          d
          fs
          (inode_grow write_at junk disk_length d fs)
  inode_grow-Grows disk_length n m d fs h en em le small enough =
      let end : reach n (m - n) ≡ min m max_sectors = omega (arith, h.fits) in
      let es : sub32 (bytes_to_sectors disk_length) (bytes_to_sectors d.length) ≡ m - n =
        omega arith in
      let enough' : total (reach n (m - n)) ≤ free_sectors fs + total n = rw end enough in
      rw (← end) (elim (ℕ_discrete m n) [
        | yes same ↦ record {
          grown = record { sectors = disk_length; data_ = d; fs = fs };
          returns = nothing_wanted disk_length d fs (omega arith);
          grew = Grew-at (omega arith) (Grew-refl h);
          new_length = omega arith;
        }
        | no more ↦ elim (dec_lt n 10) [
          | yes few ↦
              let (f, ef, g, left) =
                direct-Leads write_at junk stores junk_full (m - n) n d fs h (omega arith)
                  (ground (arith, enough')) in
              after_direct disk_length (m - n) n (n + min (m - n) (10 - n)) d fs f es (omega arith)
                ef g left (omega arith) (omega arith) (λ q. omega arith) (omega arith) (omega arith)
                (omega arith) (omega arith) enough'
          | no many ↦
              let used_up : 10 ≤ d.direct_level_index =
                ground (arith, h.counters.low, h.counters.high) in
              after_direct disk_length (m - n) n n d fs
                (record {
                  index = d.direct_level_index;
                  sectors = m - n;
                  pointers = d.ptr;
                  fs = fs;
                })
                es (omega arith) (direct_stop write_at junk stores junk_full (m - n) d fs used_up)
                (Grew-refl h) (omega arith) (omega arith) (omega arith) (λ q. omega arith)
                (omega arith) (omega arith) (omega arith) (omega arith) enough'
        ]
      ])
