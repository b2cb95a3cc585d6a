-- ===== src/DoublyLinked/Ordered.antt =====
-- list_insert_ordered and list_size, which walk along a list.
use cs439_pcs.Base.{ℕ, zero, suc, ◌+◌, ◌<◌, Bool, some, List, [], ◌∷◌, ◌++◌}
use cs439_pcs.Base.{◌≡◌, ◌≢◌, refl, ap, sym, ◌∙◌, arith, if◌then◌else◌, length}
use cs439_pcs.Base.{==_self, ==_ne, Bool-cases, inl, inr}
use cs439_pcs.DoublyLinked.{Memory, ListHead, is_head, is_interior, list_next, list_begin}
use cs439_pcs.DoublyLinked.{place_loop, list_insert_ordered, list_insert, size_loop, list_size}
use cs439_pcs.DoublyLinked.Chain.{Linked, Avoids, IsList, first}
use cs439_pcs.DoublyLinked.Insert.{list_insert-IsList}
use mathlib.Core.Path.{subst}

Linked-first :
    (mem : Memory) (a : ℕ) (ys : List ℕ) (z : ℕ) → Linked mem a ys z → (mem a).next ≡ first ys z
unfolding Linked first
Linked-first mem a [] z h = h.0
Linked-first mem a (y ∷ ys) z h = h.0

first_there : (ys : List ℕ) (z : ℕ) → Avoids ys 0 → z ≢ 0 → first ys z ≢ 0
unfolding Avoids first
first_there [] z f n = n
first_there (y ∷ ys) z f n = f.0

next_runs :
    (mem : Memory) (y k : ℕ)
    → y ≢ 0
    → (mem y).prev ≢ 0
    → (mem y).next ≡ k
    → k ≢ 0
    → list_next mem y ≡ some k
unfolding list_next is_head is_interior
next_runs mem y k ny np e nk =
    let nn : (mem y).next ≢ 0 = λ q. nk (sym e ∙ q) in
    rw (==_ne _ _ ny, ==_ne _ _ np, ==_ne _ _ nn) (ap some e)

-- An element of the list leads to the one behind it, or to the end.
walk :
    (mem : Memory) (a y : ℕ) (ys : List ℕ) (z : ℕ)
    → Linked mem a (y ∷ ys) z
    → a ≢ 0
    → Avoids (y ∷ ys) 0
    → z ≢ 0
    → list_next mem y ≡ some (first ys z)
unfolding Linked Avoids
walk mem a y ys z (h, k, r) na (ny, f) nz =
    next_runs mem y (first ys z) ny (λ e. na (sym k ∙ e)) (Linked-first mem y ys z r)
      (first_there ys z f nz)

size_loop-length :
    (fuel : ℕ) (mem : Memory) (l : ListHead) (a : ℕ) (ys : List ℕ) (cnt : ℕ)
    → Linked mem a ys l.tail
    → a ≢ 0
    → Avoids ys 0
    → Avoids ys l.tail
    → l.tail ≢ 0
    → length ys < fuel
    → size_loop fuel mem l (first ys l.tail) cnt ≡ some (cnt + length ys)
unfolding size_loop Linked Avoids first
size_loop-length zero mem l a ys cnt h na f g nz more = absurd (omega arith)
size_loop-length (suc fuel) mem l a [] cnt h na f g nz more =
    let e : cnt + 0 ≡ cnt = omega arith in rw (==_self l.tail, e) refl
size_loop-length (suc fuel) mem l a (y ∷ ys) cnt h na f g nz more =
    let e : cnt + suc (length ys) ≡ cnt + 1 + length ys = omega arith in
    rw (==_ne _ _ g.0, walk mem a y ys l.tail h na f nz, e)
      (size_loop-length fuel mem l y ys (cnt + 1) h.2 f.0 f.1 g.1 nz (omega arith))

-- With fuel above the number of elements, list_size of a memory that holds a list is its length.
pub list_size-length :
    (fuel : ℕ) (mem : Memory) (l : ListHead) (xs : List ℕ)
    → IsList mem l xs
    → length xs < fuel
    → list_size fuel mem l ≡ some (length xs)
unfolding list_size Avoids
list_size-length fuel mem l xs h more =
    let e : 0 + length xs ≡ length xs = omega arith in
    rw (Linked-first mem l.head xs l.tail h.linked, ← e)
      (size_loop-length fuel mem l l.head xs 0 h.linked h.no_null.0 h.no_null.1 h.before_tail.1
        h.tail_there more)

module _ (less : ℕ → ℕ → Bool) where
  -- The element before the first one that it is less than.
  unfoldable pub insert_before : ℕ → List ℕ → List ℕ
  insert_before elem [] = elem ∷ []
  insert_before elem (y ∷ ys) = if less elem y then elem ∷ y ∷ ys else y ∷ insert_before elem ys

  place_loop-runs :
      (fuel : ℕ) (mem : Memory) (l : ListHead) (elem a : ℕ) (ys : List ℕ)
      → Linked mem a ys l.tail
      → a ≢ 0
      → Avoids ys 0
      → Avoids ys l.tail
      → l.tail ≢ 0
      → length ys < fuel
      → (us vs : List ℕ) × (ys ≡ us ++ vs)
        × (us ++ elem ∷ vs ≡ insert_before elem ys)
        × (place_loop less fuel mem l elem (first ys l.tail) ≡ some (first vs l.tail))
  unfolding place_loop insert_before Linked Avoids first
  place_loop-runs zero mem l elem a ys h na f g nz more = absurd (omega arith)
  place_loop-runs (suc fuel) mem l elem a [] h na f g nz more =
      ([], [], refl, refl, rw (==_self l.tail) refl)
  place_loop-runs (suc fuel) mem l elem a (y ∷ ys) h na f g nz more =
      elim (Bool-cases (less elem y)) [
        | inl q ↦ ([], y ∷ ys, refl, rw q refl, rw (==_ne _ _ g.0, q) refl)
        | inr q ↦
            let (us, vs, e, e', r) =
              place_loop-runs fuel mem l elem y ys h.2 f.0 f.1 g.1 nz (omega arith) in
            (
              y ∷ us,
              vs,
              ap (λ t. y ∷ t) e,
              rw q (ap (λ t. y ∷ t) e'),
              rw (==_ne _ _ g.0, q, walk mem a y ys l.tail h na f nz) r,
            )
      ]

  ordered_runs :
      (fuel : ℕ) (mem mem' : Memory) (l : ListHead) (elem e : ℕ)
      → place_loop less fuel mem l elem (list_begin mem l) ≡ some e
      → list_insert mem e elem ≡ some mem'
      → list_insert_ordered less fuel mem l elem ≡ some mem'
  unfolding list_insert_ordered
  ordered_runs fuel mem mem' l elem e p q = rw (p, q) refl

  -- With fuel above the number of elements, list_insert_ordered of a new element into a memory that
  -- holds `xs` returns one that holds `xs` with the element before the first that it is less than,
  -- or at the end.
  pub list_insert_ordered-IsList :
      (fuel : ℕ) (mem : Memory) (l : ListHead) (xs : List ℕ) (elem : ℕ)
      → IsList mem l xs
      → Avoids (l.head ∷ xs) elem
      → l.tail ≢ elem
      → elem ≢ 0
      → length xs < fuel
      → (mem' : Memory) × (list_insert_ordered less fuel mem l elem ≡ some mem')
        × IsList mem' l (insert_before elem xs)
  unfolding Avoids
  list_insert_ordered-IsList fuel mem l xs elem h fresh nt n0 more =
      let (us, vs, e, e', r) =
        place_loop-runs fuel mem l elem l.head xs h.linked h.no_null.0 h.no_null.1 h.before_tail.1
          h.tail_there more in
      let (mem', runs, now) =
        list_insert-IsList mem l us vs elem (subst (λ t. IsList mem l t) e h)
          (subst (λ t. Avoids (l.head ∷ t) elem) e fresh) nt n0 in
      (
        mem',
        ordered_runs fuel mem mem' l elem (first vs l.tail)
            (ap (λ k. place_loop less fuel mem l elem k)
                (Linked-first mem l.head xs l.tail h.linked)
              ∙ r)
            runs,
        subst (λ t. IsList mem' l t) e' now,
      )
