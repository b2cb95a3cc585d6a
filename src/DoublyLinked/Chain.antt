-- ===== src/DoublyLinked/Chain.antt =====
-- Which list of elements a memory holds, and what inserting makes of it.
use cs439_pcs.Base.{ℕ, List, [], ◌∷◌, ◌++◌}
use cs439_pcs.Base.{◌≡◌, ◌≢◌, refl, sym, ◌∙◌, ◌==◌}
use cs439_pcs.Base.{==_self, ==_ne, ==_is, Bool-cases, inl, inr}
use cs439_pcs.DoublyLinked.{Memory, ListHead, set_prev, set_next}

-- From the element `a` on the list goes through `xs` and comes to `z`, linked both ways.
unfoldable pub Linked : Memory → ℕ → List ℕ → ℕ → Type 0
Linked mem a [] z = ((mem a).next ≡ z) × ((mem z).prev ≡ a)
Linked mem a (x ∷ xs) z = ((mem a).next ≡ x) × ((mem x).prev ≡ a) × Linked mem x xs z

-- No element of the list is this address.
unfoldable pub Avoids : List ℕ → ℕ → Type 0
Avoids [] p = Unit
Avoids (x ∷ xs) p = (x ≢ p) × Avoids xs p

unfoldable pub Apart : List ℕ → Type 0
Apart [] = Unit
Apart (x ∷ xs) = Avoids xs x × Apart xs

-- The list holds the elements `xs`: they are linked from its head to its tail, at distinct addresses
-- that are not null, and the outer links are null.
pub record IsList (mem : Memory) (l : ListHead) (xs : List ℕ) : Type 0 where
  pub linked : Linked mem l.head xs l.tail
  pub first_null : (mem l.head).prev ≡ 0
  pub last_null : (mem l.tail).next ≡ 0
  pub apart : Apart (l.head ∷ xs)
  pub before_tail : Avoids (l.head ∷ xs) l.tail
  pub no_null : Avoids (l.head ∷ xs) 0
  pub tail_there : l.tail ≢ 0

-- The element that a list goes on with: the first of `ys`, or its end.
unfoldable pub first : List ℕ → ℕ → ℕ
first [] z = z
first (y ∷ ys) z = y

-- The list behind that element.
unfoldable pub Rest : Memory → List ℕ → ℕ → Type 0
Rest mem [] z = Unit
Rest mem (y ∷ ys) z = Linked mem y ys z

pub Linked-split :
    (mem : Memory) (a : ℕ) (xs ys : List ℕ) (z : ℕ)
    → Linked mem a (xs ++ ys) z
    → Linked mem a xs (first ys z) × Rest mem ys z
unfolding Linked first Rest
Linked-split mem a [] [] z h = (h, tt)
Linked-split mem a [] (y ∷ ys) z (p, q, r) = ((p, q), r)
Linked-split mem a (x ∷ xs) ys z (p, q, r) =
    let (s, t) = Linked-split mem x xs ys z r in ((p, q, s), t)

pub Avoids-left : (xs ys : List ℕ) (p : ℕ) → Avoids (xs ++ ys) p → Avoids xs p
unfolding Avoids
Avoids-left [] ys p h = tt
Avoids-left (x ∷ xs) ys p (n, h) = (n, Avoids-left xs ys p h)

pub Avoids-right : (xs ys : List ℕ) (p : ℕ) → Avoids (xs ++ ys) p → Avoids ys p
unfolding Avoids
Avoids-right [] ys p h = h
Avoids-right (x ∷ xs) ys p (n, h) = Avoids-right xs ys p h

pub Avoids-insert :
    (xs ys : List ℕ) (e p : ℕ) → e ≢ p → Avoids (xs ++ ys) p → Avoids (xs ++ e ∷ ys) p
unfolding Avoids
Avoids-insert [] ys e p ne h = (ne, h)
Avoids-insert (x ∷ xs) ys e p ne (n, h) = (n, Avoids-insert xs ys e p ne h)

pub Apart-insert :
    (xs ys : List ℕ) (e : ℕ) → Avoids (xs ++ ys) e → Apart (xs ++ ys) → Apart (xs ++ e ∷ ys)
unfolding Apart Avoids
Apart-insert [] ys e h a = (h, a)
Apart-insert (x ∷ xs) ys e (n, h) (f, a) =
    (Avoids-insert xs ys e x (λ q. n (sym q)) f, Apart-insert xs ys e h a)

pub Apart-left : (xs ys : List ℕ) → Apart (xs ++ ys) → Apart xs
unfolding Apart
Apart-left [] ys a = tt
Apart-left (x ∷ xs) ys (f, a) = (Avoids-left xs ys x f, Apart-left xs ys a)

pub Apart-right : (xs ys : List ℕ) → Apart (xs ++ ys) → Apart ys
unfolding Apart
Apart-right [] ys a = a
Apart-right (x ∷ xs) ys (f, a) = Apart-right xs ys a

-- The element before `b` is one of those that lead to it.
pub prev_ne :
    (mem : Memory) (a : ℕ) (xs : List ℕ) (b q : ℕ)
    → Linked mem a xs b
    → Avoids (a ∷ xs) q
    → (mem b).prev ≢ q
unfolding Linked Avoids
prev_ne mem a [] b q (h, k) (n, f) e = n (sym k ∙ e)
prev_ne mem a (x ∷ xs) b q (h, k, r) (n, f) e = prev_ne mem x xs b q r f e

pub prev_avoided :
    (mem : Memory) (a : ℕ) (xs ys : List ℕ) (b : ℕ)
    → Linked mem a xs b
    → Apart (a ∷ xs ++ ys)
    → Avoids ys (mem b).prev
unfolding Linked Apart
prev_avoided mem a [] ys b (h, k) (f, p) = rw k f
prev_avoided mem a (x ∷ xs) ys b (h, k, r) (f, p) = prev_avoided mem x xs ys b r p

module _ (mem : Memory) (b elem : ℕ) (ne : elem ≢ b) where
  -- The memory that list_insert leaves.
  abbrev pub inserted : Memory
  inserted =
      set_prev (set_next (set_next (set_prev mem elem (mem b).prev) elem b) (mem b).prev elem) b
        elem

  pub next_same : (q : ℕ) → elem ≢ q → (mem b).prev ≢ q → (inserted q).next ≡ (mem q).next
  next_same q n m = elim (Bool-cases (b == q)) [
    | inl y ↦ rw (y, ==_ne _ _ n, ==_ne _ _ m) refl
    | inr y ↦ rw (y, ==_ne _ _ n, ==_ne _ _ m) refl
  ]

  pub prev_same : (q : ℕ) → elem ≢ q → b ≢ q → (inserted q).prev ≡ (mem q).prev
  prev_same q n m = elim (Bool-cases ((mem b).prev == q)) [
    | inl y ↦ rw (y, ==_ne _ _ n, ==_ne _ _ m) refl
    | inr y ↦ rw (y, ==_ne _ _ n, ==_ne _ _ m) refl
  ]

  pub Linked-kept :
      (y : ℕ) (ys : List ℕ) (z : ℕ)
      → Linked mem y ys z
      → Avoids (y ∷ ys) elem
      → Avoids (y ∷ ys) (mem b).prev
      → Avoids ys b
      → z ≢ elem
      → z ≢ b
      → Linked inserted y ys z
  unfolding Linked Avoids
  Linked-kept y [] z (p, q) (n, f) (n', f') g ze zb = (
    next_same y (λ e. n (sym e)) (λ e. n' (sym e)) ∙ p,
    prev_same z (λ e. ze (sym e)) (λ e. zb (sym e)) ∙ q,
  )
  Linked-kept y (x ∷ xs) z (p, q, r) (n, f) (n', f') (m, g) ze zb = (
    next_same y (λ e. n (sym e)) (λ e. n' (sym e)) ∙ p,
    prev_same x (λ e. f.0 (sym e)) (λ e. m (sym e)) ∙ q,
    Linked-kept x xs z r f f' g ze zb,
  )

  elem_next : (mem b).prev ≢ elem → (inserted elem).next ≡ b
  elem_next n = rw (==_ne b elem (λ e. ne (sym e)), ==_ne _ _ n, ==_self elem) refl

  elem_prev : (inserted elem).prev ≡ (mem b).prev
  elem_prev = elim (Bool-cases ((mem b).prev == elem)) [
    | inl y ↦ rw (==_ne b elem (λ e. ne (sym e)), y, ==_self elem) refl
    | inr y ↦ rw (==_ne b elem (λ e. ne (sym e)), y, ==_self elem) refl
  ]

  before_next : (a : ℕ) → (mem b).prev ≡ a → (inserted a).next ≡ elem
  before_next a e = elim (Bool-cases (b == a)) [
    | inl y ↦ rw (y, ==_is (mem b).prev a e) refl
    | inr y ↦ rw (y, ==_is (mem b).prev a e) refl
  ]

  after_prev : (z : ℕ) → b ≡ z → (inserted z).prev ≡ elem
  after_prev z e = rw (==_is b z e) refl

  pub behind_elem :
      (ys : List ℕ) (z : ℕ)
      → b ≡ first ys z
      → (mem b).prev ≢ elem
      → (Rest inserted ys z)
      → Linked inserted elem ys z
  unfolding Linked first Rest
  behind_elem [] z e n r = (elem_next n ∙ e, after_prev z e)
  behind_elem (y ∷ ys) z e n r = (elem_next n ∙ e, after_prev y e, r)

  pub segment_insert :
      (a : ℕ) (xs ys : List ℕ) (z : ℕ)
      → Linked mem a xs b
      → Apart (a ∷ xs)
      → Avoids (a ∷ xs) elem
      → Avoids (a ∷ xs) b
      → Linked inserted elem ys z
      → Linked inserted a (xs ++ elem ∷ ys) z
  unfolding Linked Apart Avoids
  segment_insert a [] ys z (h, k) p (n, f) (n', f') r = (before_next a k, elem_prev ∙ k, r)
  segment_insert a (x ∷ xs) ys z (h, k, s) (g, p) (n, f) (n', f') r = (
    next_same a (λ e. n (sym e)) (prev_ne mem x xs b a s g) ∙ h,
    prev_same x (λ e. f.0 (sym e)) (λ e. f'.0 (sym e)) ∙ k,
    segment_insert x xs ys z s p f f' r,
  )
