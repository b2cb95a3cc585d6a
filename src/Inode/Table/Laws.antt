-- ===== src/Inode/Table/Laws.antt =====
-- The list of open inodes as a table, and what stores and removals do to it.
use cs439_pcs.Base.{some-none, some_eq}
use cs439_pcs.Base.{ℕ, ◌<◌, none, some, List, [], ◌∷◌}
use cs439_pcs.Base.{◌≡◌, refl, ap, sym, ◌∙◌, ◌==◌}
use cs439_pcs.Base.{◌≢◌, true, arith, ==_ne, ==_is, ==_iff, Bool-cases, inl, inr}
use cs439_pcs.Inode.Table.{Inode, Entry, deref, assign, remove, find_open}

-- No inode of the list has the sector.
unfoldable pub HasNone : List Entry → ℕ → Type 0
HasNone [] sector = Unit
HasNone (e ∷ es) sector = (e.inode.sector ≢ sector) × HasNone es sector

-- Each entry has an address and a sector of its own, and at least one opener.
unfoldable pub IsTable : List Entry → Type 0
IsTable [] = Unit
IsTable (e ∷ es) =
    (deref es e.address ≡ none) × HasNone es e.inode.sector × (0 < e.inode.open_cnt) × IsTable es

pub deref-assign_self :
    (es : List Entry) (p : ℕ) (i j : Inode) → deref es p ≡ some i → deref (assign es p j) p ≡ some j
unfolding deref assign
deref-assign_self [] p i j h = absurd (some-none (sym h))
deref-assign_self (e ∷ es) p i j h = elim (Bool-cases (e.address == p)) [
  | inl y ↦ rw (y, y) refl
  | inr n ↦ rw (n, n) (deref-assign_self es p i j (rw n at h))
]

deref-assign-none :
    (es : List Entry) (p q : ℕ) (j : Inode) → deref es q ≡ none → deref (assign es p j) q ≡ none
unfolding deref assign
deref-assign-none [] p q j h = refl
deref-assign-none (e ∷ es) p q j h = elim (Bool-cases (e.address == p)) [
  | inl y ↦ elim (Bool-cases (e.address == q)) [
    | inl z ↦ absurd (some-none (rw z at h))
    | inr z ↦ rw (y, z) (rw z at h)
  ]
  | inr n ↦ elim (Bool-cases (e.address == q)) [
    | inl z ↦ absurd (some-none (rw z at h))
    | inr z ↦ rw (n, z) (deref-assign-none es p q j (rw z at h))
  ]
]

pub assign-assign :
    (es : List Entry) (p : ℕ) (i j : Inode) → assign (assign es p i) p j ≡ assign es p j
unfolding assign
assign-assign [] p i j = refl
assign-assign (e ∷ es) p i j = elim (Bool-cases (e.address == p)) [
  | inl y ↦ rw (y, y) refl
  | inr n ↦ rw (n, n) (ap (λ t. e ∷ t) (assign-assign es p i j))
]

pub assign_same : (es : List Entry) (p : ℕ) (i : Inode) → deref es p ≡ some i → assign es p i ≡ es
unfolding deref assign
assign_same [] p i h = refl
assign_same (e ∷ es) p i h = elim (Bool-cases (e.address == p)) [
  | inl y ↦
      let same_inode : some e.inode ≡ some i = rw y at h in
      rw y
        (ap (λ o. elim o [ none ↦ e ∷ es | some x ↦ record e { inode = x } ∷ es ]) (sym same_inode))
  | inr n ↦ rw n (ap (λ t. e ∷ t) (assign_same es p i (rw n at h)))
]

-- What the loop of inode_open looks for.
pub find_open-HasNone :
    (es : List Entry) (sector : ℕ) → find_open es sector ≡ none → HasNone es sector
unfolding HasNone find_open
find_open-HasNone [] sector h = tt
find_open-HasNone (x ∷ es) sector h = elim (Bool-cases (x.inode.sector == sector)) [
  | inl z ↦ absurd (some-none (rw z at h))
  | inr z ↦ (
    λ same_sector. absurd (ground (arith, same_sector, z)),
    find_open-HasNone es sector (rw z at h),
  )
]

HasNone-assign :
    (es : List Entry) (p sector : ℕ) (i j : Inode)
    → deref es p ≡ some i
    → j.sector ≡ i.sector
    → HasNone es sector
    → HasNone (assign es p j) sector
unfolding deref assign HasNone
HasNone-assign [] p sector i j d e h = tt
HasNone-assign (x ∷ es) p sector i j d e (other, h) = elim (Bool-cases (x.address == p)) [
  | inl y ↦
      let held : x.inode ≡ i = some_eq (rw y at d) in
      let js : j.sector ≡ x.inode.sector = e ∙ sym (ap (λ k. k.sector) held) in
      rw y (λ q. other (sym js ∙ q), h)
  | inr n ↦ rw n (other, HasNone-assign es p sector i j (rw n at d) e h)
]

pub assign-IsTable :
    (es : List Entry) (p : ℕ) (i j : Inode)
    → deref es p ≡ some i
    → j.sector ≡ i.sector
    → 0 < j.open_cnt
    → IsTable es
    → IsTable (assign es p j)
unfolding IsTable deref assign
assign-IsTable [] p i j d e c t = tt
assign-IsTable (x ∷ es) p i j d e c (fresh, alone, opened, t) = elim (Bool-cases (x.address == p)) [
  | inl y ↦
      let held : x.inode ≡ i = some_eq (rw y at d) in
      let js : j.sector ≡ x.inode.sector = e ∙ sym (ap (λ k. k.sector) held) in
      rw y (fresh, rw js alone, c, t)
  | inr n ↦ rw n (
    deref-assign-none es p x.address j fresh,
    HasNone-assign es p x.inode.sector i j (rw n at d) e alone,
    opened,
    assign-IsTable es p i j (rw n at d) e c t,
  )
]

deref-remove-none : (es : List Entry) (p q : ℕ) → deref es q ≡ none → deref (remove es p) q ≡ none
unfolding deref remove
deref-remove-none [] p q h = refl
deref-remove-none (x ∷ es) p q h = elim (Bool-cases (x.address == q)) [
  | inl z ↦ absurd (some-none (rw z at h))
  | inr z ↦ elim (Bool-cases (x.address == p)) [
    | inl y ↦ rw y (rw z at h)
    | inr n ↦ rw (n, z) (deref-remove-none es p q (rw z at h))
  ]
]

HasNone-remove : (es : List Entry) (p sector : ℕ) → HasNone es sector → HasNone (remove es p) sector
unfolding HasNone remove
HasNone-remove [] p sector h = tt
HasNone-remove (x ∷ es) p sector (other, h) = elim (Bool-cases (x.address == p)) [
  | inl y ↦ rw y h
  | inr n ↦ rw n (other, HasNone-remove es p sector h)
]

pub remove-IsTable : (es : List Entry) (p : ℕ) → IsTable es → IsTable (remove es p)
unfolding IsTable remove
remove-IsTable [] p t = tt
remove-IsTable (x ∷ es) p (fresh, alone, opened, t) = elim (Bool-cases (x.address == p)) [
  | inl y ↦ rw y t
  | inr n ↦ rw n (
    deref-remove-none es p x.address fresh,
    HasNone-remove es p x.inode.sector alone,
    opened,
    remove-IsTable es p t,
  )
]

HasNone-deref :
    (es : List Entry) (p sector : ℕ) (i : Inode)
    → HasNone es sector
    → deref es p ≡ some i
    → i.sector ≢ sector
unfolding HasNone deref
HasNone-deref [] p sector i h d = absurd (some-none (sym d))
HasNone-deref (x ∷ es) p sector i (other, h) d = elim (Bool-cases (x.address == p)) [
  | inl y ↦ let held : x.inode ≡ i = some_eq (rw y at d) in rw (← held) other
  | inr n ↦ HasNone-deref es p sector i h (rw n at d)
]

-- The loop of inode_open finds an open inode by its sector.
pub find_open-deref :
    (es : List Entry) (p : ℕ) (i : Inode)
    → IsTable es
    → deref es p ≡ some i
    → find_open es i.sector ≡ some p
unfolding IsTable find_open deref
find_open-deref [] p i t d = absurd (some-none (sym d))
find_open-deref (x ∷ es) p i (fresh, alone, opened, t) d = elim (Bool-cases (x.address == p)) [
  | inl y ↦
      let held : x.inode ≡ i = some_eq (rw y at d) in
      let same_sector : (x.inode.sector == i.sector) ≡ true = ==_is _ _ (ap (λ k. k.sector) held) in
      rw same_sector (ap some ((==_iff _ _).0 y))
  | inr n ↦
      let d' : deref es p ≡ some i = rw n at d in
      let differ = HasNone-deref es p x.inode.sector i alone d' in
      rw (==_ne x.inode.sector i.sector (λ q. differ (sym q))) (find_open-deref es p i t d')
]

-- What the loop of inode_open finds is an open inode of the sector.
pub deref-find_open :
    (es : List Entry) (sector p : ℕ)
    → IsTable es
    → find_open es sector ≡ some p
    → (i : Inode) × (deref es p ≡ some i) × (i.sector ≡ sector)
unfolding IsTable find_open deref
deref-find_open [] sector p t h = absurd (some-none (sym h))
deref-find_open (x ∷ es) sector p (fresh, alone, opened, t) h =
    elim (Bool-cases (x.inode.sector == sector)) [
      | inl z ↦
          let here : x.address ≡ p = some_eq (rw z at h) in
          (x.inode, rw (==_is _ _ here) refl, (==_iff _ _).0 z)
      | inr z ↦
          let (i, d, e) = deref-find_open es sector p t (rw z at h) in
          elim (Bool-cases (x.address == p)) [
            | inl y ↦
                let same_address : x.address ≡ p = (==_iff _ _).0 y in
                absurd (some-none (sym d ∙ rw same_address at fresh))
            | inr n ↦ (i, rw n d, e)
          ]
    ]

pub deref-opened :
    (es : List Entry) (p : ℕ) (i : Inode) → IsTable es → deref es p ≡ some i → 0 < i.open_cnt
unfolding IsTable deref
deref-opened [] p i t h = absurd (some-none (sym h))
deref-opened (x ∷ es) p i (fresh, alone, opened, t) h = elim (Bool-cases (x.address == p)) [
  | inl y ↦ let held : x.inode ≡ i = some_eq (rw y at h) in rw (← held) opened
  | inr n ↦ deref-opened es p i t (rw n at h)
]
