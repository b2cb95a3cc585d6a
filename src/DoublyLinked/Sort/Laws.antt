-- ===== src/DoublyLinked/Sort/Laws.antt =====
-- list_sort sorts: for elements ordered by falling numbers, its result goes down and holds each
-- element as often as before.
use cs439_pcs.Base.{ℕ, ◌+◌, ◌≤◌, Bool, false, List, [], ◌∷◌, ◌++◌}
use cs439_pcs.Base.{◌≡◌, refl, ap, ◌∙◌, inl, inr, arith}
use cs439_pcs.Base.{◌==◌, ltb, if◌then◌else◌, Bool-cases, ltb→lt}
use cs439_pcs.Base.Each.{Each, Falling, Each-imp}
use cs439_pcs.DoublyLinked.Sort.{find_end_of_run, merge_until, inplace_merge}

-- How often `t` occurs in a list.
unfoldable pub occurrences : ℕ → List ℕ → ℕ
occurrences t [] = 0
occurrences t (x ∷ xs) = (if t == x then 1 else 0) + occurrences t xs

pub occurrences-append :
    (t : ℕ) (xs ys : List ℕ) → occurrences t (xs ++ ys) ≡ occurrences t xs + occurrences t ys
unfolding occurrences
occurrences-append t [] ys = omega arith
occurrences-append t (x ∷ xs) ys = omega (arith, occurrences-append t xs ys)

pub not_above : (b c : ℕ) → ltb b c ≡ false → c ≤ b
not_above b c q = ground arith

zero_plus : (n : ℕ) → 0 + n ≡ n
zero_plus n = omega arith

module _ (p : ℕ → ℕ) where
  abbrev pub above : ℕ → ℕ → Bool
  above t u = ltb (p u) (p t)

  -- The places where an element follows one with a lower number.
  unfoldable pub drops : ℕ → List ℕ → ℕ
  drops a [] = 0
  drops a (x ∷ xs) = (if above x a then 1 else 0) + drops x xs

  unfoldable pub runs : List ℕ → ℕ
  runs [] = 0
  runs (x ∷ xs) = 1 + drops x xs

  -- A run, and what follows it.
  pub run_split :
      (a : ℕ) (xs : List ℕ)
      → (xs ≡ (find_end_of_run above a xs).0 ++ (find_end_of_run above a xs).1)
        × Falling p (a ∷ (find_end_of_run above a xs).0)
        × (drops a xs ≡ runs (find_end_of_run above a xs).1)
  unfolding find_end_of_run drops runs Falling Each
  run_split a [] = (refl, (tt, tt), refl)
  run_split a (x ∷ xs) =
      let (e, f, n) = run_split x xs in
      elim (Bool-cases (above x a)) [
        | inl q ↦ rw q (refl, (tt, tt), refl)
        | inr q ↦
            let le = not_above (p a) (p x) q in
            rw q (
              ap (λ l. x ∷ l) e,
              (
                (
                  le,
                  Each-imp (λ y. p y ≤ p x) (λ y. p y ≤ p a) _ (λ y h. omega (arith, h, le)) f.0,
                ),
                f,
              ),
              zero_plus (drops x xs) ∙ n,
            )
      ]

  -- What holds of the elements of two runs holds of those of their merge.
  Each-merge_until :
      (P : ℕ → Type 0) (a : ℕ) (rest : List ℕ → List ℕ) (bs : List ℕ)
      → P a
      → ((ys : List ℕ) → Each P ys → Each P (rest ys))
      → Each P bs
      → Each P (merge_until above a rest bs)
  unfolding merge_until Each
  Each-merge_until P a rest [] h r e = (h, r [] tt)
  Each-merge_until P a rest (b ∷ bs) h r e = elim (Bool-cases (above b a)) [
    | inl q ↦ rw q (e.0, Each-merge_until P a rest bs h r e.1)
    | inr q ↦ rw q (h, r (b ∷ bs) e)
  ]

  Each-inplace_merge :
      (P : ℕ → Type 0) (xs bs : List ℕ) → Each P xs → Each P bs → Each P (inplace_merge above xs bs)
  unfolding inplace_merge Each
  Each-inplace_merge P [] bs d e = e
  Each-inplace_merge P (a ∷ xs) bs d e =
      Each-merge_until P a (inplace_merge above xs) bs d.0
        (λ ys h. Each-inplace_merge P xs ys d.1 h) e

  merge_until-Falling :
      (a : ℕ) (xs bs : List ℕ)
      → ((ys : List ℕ) → Falling p ys → Falling p (inplace_merge above xs ys))
      → Falling p (a ∷ xs)
      → Falling p bs
      → Falling p (merge_until above a (inplace_merge above xs) bs)
  unfolding merge_until Falling Each
  merge_until-Falling a xs [] r f g = (Each-inplace_merge (λ y. p y ≤ p a) xs [] f.0 tt, r [] tt)
  merge_until-Falling a xs (b ∷ bs) r f g = elim (Bool-cases (above b a)) [
    | inl q ↦
        let lt = ltb→lt (p a) (p b) q in
        rw q (
          Each-merge_until (λ y. p y ≤ p b) a (inplace_merge above xs) bs (omega (arith, lt))
              (λ ys h.
                Each-inplace_merge (λ y. p y ≤ p b) xs ys
                  (Each-imp (λ y. p y ≤ p a) (λ y. p y ≤ p b) xs (λ y k. omega (arith, k, lt)) f.0)
                  h)
              g.0,
          merge_until-Falling a xs bs r f g.1,
        )
    | inr q ↦
        let le = not_above (p a) (p b) q in
        rw q (
          Each-inplace_merge (λ y. p y ≤ p a) xs (b ∷ bs) f.0
              (le, Each-imp (λ y. p y ≤ p b) (λ y. p y ≤ p a) bs (λ y k. omega (arith, k, le)) g.0),
          r (b ∷ bs) g,
        )
  ]

  pub inplace_merge-Falling :
      (xs bs : List ℕ) → Falling p xs → Falling p bs → Falling p (inplace_merge above xs bs)
  unfolding inplace_merge Falling
  inplace_merge-Falling [] bs f g = g
  inplace_merge-Falling (a ∷ xs) bs f g =
      merge_until-Falling a xs bs (λ ys h. inplace_merge-Falling xs ys f.1 h) f g

  occurrences-merge_until :
      (t a : ℕ) (xs bs : List ℕ)
      → ((ys : List ℕ)
          → occurrences t (inplace_merge above xs ys) ≡ occurrences t xs + occurrences t ys)
      → occurrences t (merge_until above a (inplace_merge above xs) bs)
        ≡ occurrences t (a ∷ xs) + occurrences t bs
  unfolding merge_until occurrences
  occurrences-merge_until t a xs [] r = omega (arith, r [])
  occurrences-merge_until t a xs (b ∷ bs) r = elim (Bool-cases (above b a)) [
    | inl q ↦ rw q (omega (arith, occurrences-merge_until t a xs bs r))
    | inr q ↦ rw q (omega (arith, r (b ∷ bs)))
  ]

  pub occurrences-inplace_merge :
      (t : ℕ) (xs bs : List ℕ)
      → occurrences t (inplace_merge above xs bs) ≡ occurrences t xs + occurrences t bs
  unfolding inplace_merge occurrences
  occurrences-inplace_merge t [] bs = omega arith
  occurrences-inplace_merge t (a ∷ xs) bs =
      occurrences-merge_until t a xs bs (λ ys. occurrences-inplace_merge t xs ys)
