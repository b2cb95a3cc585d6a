-- ===== src/Base/Each.antt =====
-- A predicate that holds of every element of a list of numbers, and lists without repetition.
use Prim.Native.Nat.{ℕ, ◌≤◌}
use mathlib.Core.Path.{◌≡◌}
use mathlib.Core.Logic.{◌≢◌, ◌⊎◌}
use mathlib.Core.List.{List, [], ◌∷◌, ◌++◌}

unfoldable pub Each {ℓ} : (ℕ → Type ℓ) → List ℕ → Type ℓ
Each P [] = Unit {_}
Each P (x ∷ xs) = P x × Each P xs

unfoldable pub Distinct : List ℕ → Type 0
Distinct [] = Unit {0}
Distinct (x ∷ xs) = Each (λ y. y ≢ x) xs × Distinct xs

-- The number is an element of the list.
unfoldable pub Listed : ℕ → List ℕ → Type 0
Listed t [] = ⊥
Listed t (x ∷ xs) = (x ≡ t) ⊎ Listed t xs

-- The numbers of the elements under `p` never rise along the list.
unfoldable pub Falling : (ℕ → ℕ) → List ℕ → Type 0
Falling p [] = Unit {0}
Falling p (x ∷ xs) = Each (λ y. p y ≤ p x) xs × Falling p xs

module _ {ℓ κ} (P : ℕ → Type ℓ) (Q : ℕ → Type κ) where
  pub Each-imp : (xs : List ℕ) → ((x : ℕ) → P x → Q x) → Each P xs → Each Q xs
  unfolding Each
  Each-imp [] f e = tt
  Each-imp (x ∷ xs) f e = (f x e.0, Each-imp xs f e.1)

  pub Each-and : (xs : List ℕ) → Each P xs → Each Q xs → Each (λ x. P x × Q x) xs
  unfolding Each
  Each-and [] e d = tt
  Each-and (x ∷ xs) e d = ((e.0, d.0), Each-and xs e.1 d.1)

module _ {ℓ} (P : ℕ → Type ℓ) where
  pub Each-append : (xs ys : List ℕ) → Each P xs → Each P ys → Each P (xs ++ ys)
  unfolding Each
  Each-append [] ys e d = d
  Each-append (x ∷ xs) ys e d = (e.0, Each-append xs ys e.1 d)

  pub Each-left : (xs ys : List ℕ) → Each P (xs ++ ys) → Each P xs
  unfolding Each
  Each-left [] ys e = tt
  Each-left (x ∷ xs) ys e = (e.0, Each-left xs ys e.1)

  pub Each-right : (xs ys : List ℕ) → Each P (xs ++ ys) → Each P ys
  unfolding Each
  Each-right [] ys e = e
  Each-right (x ∷ xs) ys e = Each-right xs ys e.1

  pub Each-all : (xs : List ℕ) → ((x : ℕ) → P x) → Each P xs
  unfolding Each
  Each-all [] h = tt
  Each-all (x ∷ xs) h = (h x, Each-all xs h)
