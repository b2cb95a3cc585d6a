-- ===== src/Inode/Table/Steps.antt =====
-- The operations on open inodes as steps, the invariant of the states they reach, and a close that
-- undoes an open.
use cs439_pcs.Base.{some-none, some_eq}
use cs439_pcs.Base.{ℕ, ◌+◌, ◌-◌, ◌<◌, false, Option, none, some, List}
use cs439_pcs.Base.{◌≡◌, refl, ap, sym, ◌∙◌, arith, ltb, leb, ◌==◌}
use cs439_pcs.Base.{==_self, Bool-cases, Option-cases, inl, inr}
use cs439_pcs.Device.{read_inode}
use cs439_pcs.Inode.Grow.{Fs}
use cs439_pcs.Inode.Table.{Inode, System, deref, assign, find_open, change, inode_reopen}
use cs439_pcs.Inode.Table.{open_new, inode_open, inode_remove, inode_deny_write, inode_allow_write}
use cs439_pcs.Inode.Table.{retire, inode_close, inode_init}
use cs439_pcs.Inode.Table.Laws.{
  IsTable, assign-IsTable, remove-IsTable, find_open-deref, find_open-HasNone, deref-find_open,
  deref-opened,
}
use cs439_pcs.Inode.Table.Laws.{deref-assign_self, assign-assign, assign_same}

-- What inode_open returns for a sector: an address is that of an open inode of the sector.
unfoldable pub Leads : {File : Type 0} → ℕ → Option (Option ℕ × System File) → Type 0
Leads sector none = Unit
Leads sector (some (none, s)) = Unit
Leads sector (some (some p, s)) =
    (i : Inode) × (deref s.open_inodes p ≡ some i) × (i.sector ≡ sector)

module _ {File : Type 0} (write_at : File → List ℕ → ℕ → ℕ → ℕ × File) where
  -- One call that returns. malloc gives an address that no open inode has.
  pub data Step (s s' : System File) : Type 0 where
    opened :
        (sector p : ℕ) (r : Option ℕ)
        → deref s.open_inodes p ≡ none
        → inode_open sector (some p) s ≡ some (r, s')
        → Step s s'
    refused : (sector : ℕ) (r : Option ℕ) → inode_open sector none s ≡ some (r, s') → Step s s'
    reopened : (p : ℕ) → inode_reopen p s ≡ some s' → Step s s'
    closed : (p : ℕ) → inode_close write_at p s ≡ some s' → Step s s'
    marked : (p : ℕ) → inode_remove p s ≡ some s' → Step s s'
    denied : (p : ℕ) → inode_deny_write p s ≡ some s' → Step s s'
    allowed : (p : ℕ) → inode_allow_write p s ≡ some s' → Step s s'

  -- The states reached from a system with no inode open.
  pub data Reachable : System File → Type 0 where
    start : (fs : Fs File) → Reachable (inode_init fs)
    next : {s s' : System File} → Reachable s → Step s s' → Reachable s'

  change-IsTable :
      (f : Inode → Option Inode) (p : ℕ) (s s' : System File)
      → ((i j : Inode) → f i ≡ some j → 0 < i.open_cnt → (j.sector ≡ i.sector) × (0 < j.open_cnt))
      → IsTable s.open_inodes
      → change f p s ≡ some s'
      → IsTable s'.open_inodes
  unfolding change
  change-IsTable f p s s' keeps t e = elim (Option-cases (deref s.open_inodes p)) [
    | inl d ↦ absurd (some-none (sym (rw d at e)))
    | inr (i, d) ↦ elim (Option-cases (f i)) [
      | inl g ↦ absurd (some-none (sym (rw (d, g) at e)))
      | inr (j, g) ↦
          let (same_sector, positive) = keeps i j g (deref-opened s.open_inodes p i t d) in
          let ended = some_eq (rw (d, g) at e) in
          rw (← ended) (assign-IsTable s.open_inodes p i j d same_sector positive t)
    ]
  ]

  kept_by :
      (i x j : Inode)
      → x.sector ≡ i.sector
      → 0 < x.open_cnt
      → some x ≡ some j
      → (j.sector ≡ i.sector) × (0 < j.open_cnt)
  kept_by i x j e c h = let same_inode = some_eq h in rw (← same_inode) (e, c)

  reopen-IsTable :
      (p : ℕ) (s s' : System File)
      → IsTable s.open_inodes
      → inode_reopen p s ≡ some s'
      → IsTable s'.open_inodes
  unfolding inode_reopen
  reopen-IsTable p s s' t e =
      change-IsTable _ p s s'
        (λ i j g c. kept_by i (record i { open_cnt = i.open_cnt + 1 }) j refl (omega arith) g) t e

  remove_mark-IsTable :
      (p : ℕ) (s s' : System File)
      → IsTable s.open_inodes
      → inode_remove p s ≡ some s'
      → IsTable s'.open_inodes
  unfolding inode_remove
  remove_mark-IsTable p s s' t e = change-IsTable _ p s s' (λ i j g c. kept_by i _ j refl c g) t e

  deny-IsTable :
      (p : ℕ) (s s' : System File)
      → IsTable s.open_inodes
      → inode_deny_write p s ≡ some s'
      → IsTable s'.open_inodes
  unfolding inode_deny_write
  deny-IsTable p s s' t e =
      change-IsTable _ p s s'
        (λ i j g c. elim (Bool-cases (leb (i.deny_write_cnt + 1) i.open_cnt)) [
          | inl y ↦ kept_by i _ j refl c (rw y at g)
          | inr n ↦ absurd (some-none (sym (rw n at g)))
        ])
        t e

  allow-IsTable :
      (p : ℕ) (s s' : System File)
      → IsTable s.open_inodes
      → inode_allow_write p s ≡ some s'
      → IsTable s'.open_inodes
  unfolding inode_allow_write
  allow-IsTable p s s' t e =
      change-IsTable _ p s s'
        (λ i j g c. elim (Bool-cases (ltb 0 i.deny_write_cnt)) [
          | inr n ↦ absurd (some-none (sym (rw n at g)))
          | inl y ↦ elim (Bool-cases (leb i.deny_write_cnt i.open_cnt)) [
            | inl z ↦ kept_by i _ j refl c (rw (y, z) at g)
            | inr n ↦ absurd (some-none (sym (rw (y, n) at g)))
          ]
        ])
        t e

  new-IsTable :
      (sector p : ℕ) (r : Option ℕ) (s s' : System File)
      → IsTable s.open_inodes
      → deref s.open_inodes p ≡ none
      → find_open s.open_inodes sector ≡ none
      → open_new sector p s ≡ some (r, s')
      → IsTable s'.open_inodes
  unfolding open_new IsTable
  new-IsTable sector p r s s' t fresh alone e = elim (Option-cases (read_inode s.fs.dev sector)) [
    | inl d ↦ absurd (some-none (sym (rw d at e)))
    | inr (contents, d) ↦
        let ended = ap (λ (x : Option ℕ × System File). x.1) (some_eq (rw d at e)) in
        rw (← ended) (fresh, find_open-HasNone s.open_inodes sector alone, omega arith, t)
  ]

  unopened-IsTable :
      (sector : ℕ) (got r : Option ℕ) (s s' : System File)
      → IsTable s.open_inodes
      → ((p : ℕ) → got ≡ some p → deref s.open_inodes p ≡ none)
      → find_open s.open_inodes sector ≡ none
      → inode_open sector got s ≡ some (r, s')
      → IsTable s'.open_inodes
  unfolding inode_open
  unopened-IsTable sector none r s s' t fresh f e =
      let ended = ap (λ (x : Option ℕ × System File). x.1) (some_eq (rw (inode_open, f) at e)) in
      rw (← ended) t
  unopened-IsTable sector (some p) r s s' t fresh f e =
      new-IsTable sector p r s s' t (fresh p refl) f (rw (inode_open, f) at e)

  open-IsTable :
      (sector : ℕ) (got r : Option ℕ) (s s' : System File)
      → IsTable s.open_inodes
      → ((p : ℕ) → got ≡ some p → deref s.open_inodes p ≡ none)
      → inode_open sector got s ≡ some (r, s')
      → IsTable s'.open_inodes
  unfolding inode_open
  open-IsTable sector got r s s' t fresh e = elim (Option-cases (find_open s.open_inodes sector)) [
    | inr (p, f) ↦ elim (Option-cases (inode_reopen p s)) [
      | inl d ↦ absurd (some-none (sym (rw (inode_open, f, d) at e)))
      | inr (s'', d) ↦
          let ended =
            ap (λ (x : Option ℕ × System File). x.1) (some_eq (rw (inode_open, f, d) at e)) in
          rw (← ended) (reopen-IsTable p s s'' t d)
    ]
    | inl f ↦ unopened-IsTable sector got r s s' t fresh f e
  ]

  close-IsTable :
      (p : ℕ) (s s' : System File)
      → IsTable s.open_inodes
      → inode_close write_at p s ≡ some s'
      → IsTable s'.open_inodes
  unfolding inode_close
  close-IsTable p s s' t e = elim (Option-cases (deref s.open_inodes p)) [
    | inl d ↦ absurd (some-none (sym (rw d at e)))
    | inr (i, d) ↦ elim (Bool-cases (i.open_cnt == 1)) [
      | inr more ↦
          let ended = some_eq (rw (d, more) at e) in
          let positive : 0 < i.open_cnt - 1 = ground (arith, deref-opened s.open_inodes p i t d) in
          rw (← ended) (assign-IsTable s.open_inodes p i _ d refl positive t)
      | inl last ↦
          elim (Option-cases (retire write_at (record i { open_cnt = i.open_cnt - 1 }) s.fs)) [
            | inl g ↦ absurd (some-none (sym (rw (d, last, g) at e)))
            | inr (fs, g) ↦
                let ended = some_eq (rw (d, last, g) at e) in
                rw (← ended) (remove-IsTable s.open_inodes p t)
          ]
    ]
  ]

  Step-IsTable : {s s' : System File} → IsTable s.open_inodes → Step s s' → IsTable s'.open_inodes
  Step-IsTable t (opened sector p r fresh e) =
      open-IsTable sector (some p) r _ _ t (λ q g. rw (some_eq g) at fresh) e
  Step-IsTable t (refused sector r e) =
      open-IsTable sector none r _ _ t (λ q g. absurd (some-none (sym g))) e
  Step-IsTable t (reopened p e) = reopen-IsTable p _ _ t e
  Step-IsTable t (closed p e) = close-IsTable p _ _ t e
  Step-IsTable t (marked p e) = remove_mark-IsTable p _ _ t e
  Step-IsTable t (denied p e) = deny-IsTable p _ _ t e
  Step-IsTable t (allowed p e) = allow-IsTable p _ _ t e

  reached-IsTable : {s : System File} → Reachable s → IsTable s.open_inodes
  unfolding IsTable
  reached-IsTable (start fs) = tt
  reached-IsTable (next r e) = Step-IsTable (reached-IsTable r) e

  reopen-Leads :
      (sector p : ℕ) (got : Option ℕ) (s : System File)
      → IsTable s.open_inodes
      → find_open s.open_inodes sector ≡ some p
      → Leads sector (inode_open sector got s)
  unfolding Leads inode_open inode_reopen change
  reopen-Leads sector p got s t f =
      let (i, d, e) = deref-find_open s.open_inodes sector p t f in
      let more : Inode = record i { open_cnt = i.open_cnt + 1 } in
      rw (inode_open, f, d) (more, deref-assign_self s.open_inodes p i more d, e)

  new-Leads : (sector p : ℕ) (s : System File) → Leads sector (open_new sector p s)
  unfolding Leads open_new deref
  new-Leads sector p s = elim (Option-cases (read_inode s.fs.dev sector)) [
    | inl d ↦ rw d tt
    | inr (contents, d) ↦
        let made : Inode = record {
          open_cnt = 1;
          deny_write_cnt = 0;
          removed = false;
          sector = sector;
          data_ = contents;
        } in
        rw d (made, rw (==_self p) refl, refl)
  ]

  open-Leads :
      (sector : ℕ) (got : Option ℕ) (s : System File)
      → IsTable s.open_inodes
      → Leads sector (inode_open sector got s)
  unfolding inode_open Leads
  open-Leads sector none s t = elim (Option-cases (find_open s.open_inodes sector)) [
    | inr (p, f) ↦ reopen-Leads sector p none s t f
    | inl f ↦ rw (inode_open, f) tt
  ]
  open-Leads sector (some q) s t = elim (Option-cases (find_open s.open_inodes sector)) [
    | inr (p, f) ↦ reopen-Leads sector p (some q) s t f
    | inl f ↦ rw (inode_open, f) (new-Leads sector q s)
  ]

  -- In each state reached from one with no inode open by calls of inode_open, inode_reopen,
  -- inode_close, inode_remove, inode_deny_write and inode_allow_write, where malloc gives addresses
  -- that no open inode has, the open inodes have distinct addresses and distinct sectors, and each
  -- has an opener; and an address that inode_open of a sector returns there is that of an open inode
  -- of this sector.
  pub Reachable-IsTable :
      {s : System File} (sector : ℕ) (got : Option ℕ)
      → Reachable s
      → IsTable s.open_inodes × Leads sector (inode_open sector got s)
  Reachable-IsTable {s} sector got r = let t = reached-IsTable r in (t, open-Leads sector got s t)

  -- On a table, inode_open of the sector of an open inode returns the address of that inode, whatever
  -- malloc would give, and counts one more opener of it, and an inode_close of that address brings
  -- the state back as it was.
  pub inode_close-inode_open :
      (p : ℕ) (i : Inode) (got : Option ℕ) (s : System File)
      → IsTable s.open_inodes
      → deref s.open_inodes p ≡ some i
      → (s' : System File) × (inode_open i.sector got s ≡ some (some p, s'))
        × (deref s'.open_inodes p ≡ some (record i { open_cnt = i.open_cnt + 1 }))
        × (inode_close write_at p s' ≡ some s)
  unfolding inode_open inode_reopen change inode_close
  inode_close-inode_open p i got s t d =
      let f = find_open-deref s.open_inodes p i t d in
      let more : Inode = record i { open_cnt = i.open_cnt + 1 } in
      let undone : i.open_cnt + 1 - 1 ≡ i.open_cnt = omega arith in
      let shared : (i.open_cnt + 1 == 1) ≡ false =
        ground (arith, deref-opened s.open_inodes p i t d) in
      let restored : assign (assign s.open_inodes p more) p i ≡ s.open_inodes =
        assign-assign s.open_inodes p more i ∙ assign_same s.open_inodes p i d in
      (
        record s { open_inodes = assign s.open_inodes p more },
        rw (inode_open, f, d) refl,
        deref-assign_self s.open_inodes p i more d,
        rw (deref-assign_self s.open_inodes p i more d, shared, undone)
            (ap (λ es. some (record s { open_inodes = es })) restored),
      )
