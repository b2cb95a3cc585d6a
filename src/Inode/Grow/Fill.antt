-- ===== src/Inode/Grow/Fill.antt =====
-- The allocation loop stores distinct fresh sectors of zeros, and leaves all else alone.
use cs439_pcs.Base.{ℕ, zero, suc, ◌+◌, ◌-◌, ◌≤◌, ◌<◌, false, some, List, set, min}
use cs439_pcs.Base.{◌≡◌, refl, sym, ◌∙◌, ap, ◌≢◌, ◌⊎◌, inl, arith, length, length-set}
use cs439_pcs.Base.{get_or-set_self, get_or-set_ne, ltb, lt→ltb}
use cs439_pcs.FreeMap.Count.{Stores}
use cs439_pcs.Device.{zeros}
use cs439_pcs.Inode.{entry}
use cs439_pcs.Inode.Grow.{Fs, Filled, fill}
use cs439_pcs.Inode.Grow.Fresh.{free_sectors, IsReady, Extends, IsFresh, Extends-refl}
use cs439_pcs.Inode.Grow.Fresh.{
  Extends-trans, IsFresh-ne, IsFresh-later, IsFresh-earlier, place_lem,
}
use native.Mathlib.Decide.{ℕ_discrete, dec_lt}

-- Entries `lo` to below `hi` of the pointers were filled with fresh sectors.
pub record Run {File : Type 0} (lo hi : ℕ) (old new : List ℕ) (fs fs' : Fs File) : Type 0 where
  pub same_length : length new ≡ length old
  pub outside : (j : ℕ) → (j < lo) ⊎ (hi ≤ j) → entry new j ≡ entry old j
  pub fresh : (j : ℕ) → lo ≤ j → j < hi → IsFresh fs fs' (entry new j)
  pub zeroed : (j : ℕ) → lo ≤ j → j < hi → fs'.dev.sectors (entry new j) ≡ zeros
  pub distinct : (i j : ℕ) → lo ≤ i → i < hi → lo ≤ j → j < hi → entry new i ≡ entry new j → i ≡ j
  pub extends : Extends fs fs'
  pub counted : free_sectors fs' + (hi - lo) ≡ free_sectors fs

module _ {File : Type 0} where
  Run-nil :
      (k : ℕ) (pointers : List ℕ) {fs : Fs File} → IsReady fs → Run k k pointers pointers fs fs
  Run-nil k pointers r = record {
    same_length = refl;
    outside = λ j h. refl;
    fresh = λ j p q. absurd (omega arith);
    zeroed = λ j p q. absurd (omega arith);
    distinct = λ i j p q. absurd (omega arith);
    extends = Extends-refl r;
    counted = omega arith;
  }

  Run-cons :
      (lo hi s : ℕ) (old new : List ℕ) {fs fs' fs'' : Fs File}
      → lo < hi
      → lo < length old
      → Extends fs fs'
      → IsFresh fs fs' s
      → fs'.dev.sectors s ≡ zeros
      → free_sectors fs' + 1 ≡ free_sectors fs
      → Run (lo + 1) hi (set old lo s) new fs' fs''
      → Run lo hi old new fs fs''
  Run-cons lo hi s old new {fs} {fs'} {fs''} h in_old x f z c r = record {
    same_length = r.same_length ∙ length-set old lo s;
    outside = λ j q. r.outside j (beyond j q) ∙ get_or-set_ne old lo j s 0 (apart j q);
    fresh = λ j p q. elim (ℕ_discrete lo j) [
      | yes e ↦ rw (← e, first) (IsFresh-later f r.extends)
      | no ne ↦ IsFresh-earlier x (r.fresh j (omega arith) q)
    ];
    zeroed = λ j p q. elim (ℕ_discrete lo j) [
      | yes e ↦ rw (← e, first) (r.extends.kept s f.taken ∙ z)
      | no ne ↦ r.zeroed j (omega arith) q
    ];
    distinct = λ i j p q p' q' e. elim (ℕ_discrete lo i) [
      | yes ei ↦ elim (ℕ_discrete lo j) [
        | yes ej ↦ sym ei ∙ ej
        | no nj ↦ absurd (later j (omega arith) q' (sym e ∙ ap (entry new) (sym ei) ∙ first))
      ]
      | no ni ↦ elim (ℕ_discrete lo j) [
        | yes ej ↦ absurd (later i (omega arith) q (e ∙ ap (entry new) (sym ej) ∙ first))
        | no nj ↦ r.distinct i j (omega arith) q (omega arith) q' e
      ]
    ];
    extends = Extends-trans x r.extends;
    counted = omega (arith, r.counted, c);
  }
    where
      first : entry new lo ≡ s
      first = r.outside lo (inl (omega arith)) ∙ get_or-set_self old lo s 0 in_old

      later : (j : ℕ) → lo + 1 ≤ j → j < hi → entry new j ≢ s
      later j p q = IsFresh-ne (r.fresh j p q) f.taken

      beyond : (j : ℕ) → (j < lo) ⊎ (hi ≤ j) → (j < lo + 1) ⊎ (hi ≤ j)
      beyond j q = omega arith

      apart : (j : ℕ) → (j < lo) ⊎ (hi ≤ j) → lo ≢ j
      apart j q = omega arith

module _ {File : Type 0} (write_at : File → List ℕ → ℕ → ℕ → ℕ × File) (junk : Fs File → List ℕ)
    (stores : Stores write_at) (limit : ℕ) where
  -- From `index` the loop fills as many entries as are wanted and fit below the limit.
  pub fill-Run :
      (n index : ℕ) (pointers : List ℕ) (fs : Fs File)
      → IsReady fs
      → limit ≤ length pointers
      → index ≤ limit
      → min n (limit - index) ≤ free_sectors fs
      → (f : Filled File) × (fill write_at junk limit n index pointers fs ≡ some f)
        × (f.index ≡ index + min n (limit - index))
        × (f.sectors ≡ n - (limit - index))
        × Run index f.index pointers f.pointers fs f.fs
  unfolding fill
  fill-Run zero index pointers fs r room below enough =
      (_, refl, omega arith, omega arith, Run-nil index pointers r)
  fill-Run (suc n) index pointers fs r room below enough = elim (dec_lt index limit) [
    | yes h ↦
        let (s, mid, e, x, f, z, c) =
          place_lem write_at junk stores pointers index fs r (omega arith) (omega arith) in
        let room' : limit ≤ length (set pointers index s) = rw length-set room in
        let (out, eo, ei, es, run) =
          fill-Run n (index + 1) (set pointers index s) mid x.ready room' (omega arith)
            (omega (arith, c)) in
        (
          out,
          rw (lt→ltb _ _ h, e) eo,
          omega (arith, ei),
          omega (arith, es),
          Run-cons index out.index s pointers out.pointers (omega (arith, ei)) (omega arith) x f z c
              run,
        )
    | no h ↦
        let stop : ltb index limit ≡ false = ground arith in
        (
          record { index = index; sectors = suc n; pointers = pointers; fs = fs },
          rw stop refl,
          omega arith,
          omega arith,
          Run-nil index pointers r,
        )
  ]
