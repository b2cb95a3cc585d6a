-- ===== src/Thread/Ready.antt =====
-- The order of the ready list of threads/thread.c, and which thread is scheduled.
use cs439_pcs.Base.{ℕ, ◌<◌, ◌≤◌, Bool, false}
use cs439_pcs.Base.{List, [], ◌∷◌, ◌++◌, ◌≡◌, ◌≢◌, refl, ap, sym, inl, inr, arith}
use cs439_pcs.Base.{ltb, Bool-cases, ltb→lt}
use cs439_pcs.Base.Each.{Each, Falling, Distinct, Listed, Each-imp}
use cs439_pcs.DoublyLinked.Ordered.{insert_before}

ltb-none : (a b : ℕ) → ltb a b ≡ false → b ≤ a
ltb-none a b h = ground arith

module _ (p : ℕ → ℕ) where
  abbrev pub higher : ℕ → ℕ → Bool
  higher t u = ltb (p u) (p t)

  pub Each-insert_before :
      (P : ℕ → Type 0) (t : ℕ) (xs : List ℕ) → P t → Each P xs → Each P (insert_before higher t xs)
  unfolding insert_before Each
  Each-insert_before P t [] h e = (h, tt)
  Each-insert_before P t (x ∷ xs) h e = elim (Bool-cases (higher t x)) [
    | inl q ↦ rw q (h, e)
    | inr q ↦ rw q (e.0, Each-insert_before P t xs h e.1)
  ]

  -- The element goes in behind those with numbers at least its own, and in front of the others.
  pub insert_before-splits :
      (t : ℕ) (xs : List ℕ)
      → Falling p xs
      → (us vs : List ℕ) × (xs ≡ us ++ vs)
        × (insert_before higher t xs ≡ us ++ t ∷ vs)
        × Each (λ u. p t ≤ p u) us
        × Each (λ u. p u < p t) vs
  unfolding insert_before Each Falling
  insert_before-splits t [] f = ([], [], refl, refl, tt, tt)
  insert_before-splits t (x ∷ xs) f = elim (Bool-cases (higher t x)) [
    | inl q ↦
        let lt = ltb→lt (p x) (p t) q in
        (
          [],
          x ∷ xs,
          refl,
          rw q refl,
          tt,
          (lt, Each-imp (λ y. p y ≤ p x) (λ y. p y < p t) xs (λ y e. omega (arith, e, lt)) f.0),
        )
    | inr q ↦
        let (us, vs, e, e', up, down) = insert_before-splits t xs f.1 in
        (
          x ∷ us,
          vs,
          ap (λ l. x ∷ l) e,
          rw q (ap (λ l. x ∷ l) e'),
          (ltb-none (p x) (p t) q, up),
          down,
        )
  ]

  pub insert_before-Falling :
      (t : ℕ) (xs : List ℕ) → Falling p xs → Falling p (insert_before higher t xs)
  unfolding insert_before Falling Each
  insert_before-Falling t [] f = (tt, tt)
  insert_before-Falling t (x ∷ xs) f = elim (Bool-cases (higher t x)) [
    | inl q ↦
        let lt = ltb→lt (p x) (p t) q in
        rw q (
          (
            omega (arith, lt),
            Each-imp (λ y. p y ≤ p x) (λ y. p y ≤ p t) xs (λ y e. omega (arith, e, lt)) f.0,
          ),
          f,
        )
    | inr q ↦ rw q (
      Each-insert_before (λ y. p y ≤ p x) t xs (ltb-none (p x) (p t) q) f.0,
      insert_before-Falling t xs f.1,
    )
  ]

  pub insert_before-Distinct :
      (t : ℕ) (xs : List ℕ)
      → Each (λ u. u ≢ t) xs
      → Distinct xs
      → Distinct (insert_before higher t xs)
  unfolding insert_before Distinct Each
  insert_before-Distinct t [] n d = (tt, tt)
  insert_before-Distinct t (x ∷ xs) n d = elim (Bool-cases (higher t x)) [
    | inl q ↦ rw q (n, d)
    | inr q ↦ rw q (
      Each-insert_before (λ y. y ≢ x) t xs (λ e. n.0 (sym e)) d.0,
      insert_before-Distinct t xs n.1 d.1,
    )
  ]

  pub Listed-insert_self : (t : ℕ) (xs : List ℕ) → Listed t (insert_before higher t xs)
  unfolding insert_before Listed
  Listed-insert_self t [] = inl refl
  Listed-insert_self t (x ∷ xs) = elim (Bool-cases (higher t x)) [
    | inl q ↦ rw q (inl refl)
    | inr q ↦ rw q (inr (Listed-insert_self t xs))
  ]

  pub Listed-insert_before :
      (t u : ℕ) (xs : List ℕ) → Listed u xs → Listed u (insert_before higher t xs)
  unfolding insert_before Listed
  Listed-insert_before t u [] l = absurd l
  Listed-insert_before t u (x ∷ xs) l = elim (Bool-cases (higher t x)) [
    | inl q ↦ rw q (inr l)
    | inr q ↦ rw q (elim l [ inl e ↦ inl e | inr m ↦ inr (Listed-insert_before t u xs m) ])
  ]
