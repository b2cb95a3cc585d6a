-- ===== src/DoublyLinked/Tests.antt =====
-- A list of two elements at 10 and 11, between a head at 1 and a tail at 2.
use cs439_pcs.Base.{List, some, ℕ, [], ◌∷◌, some, ◌≡◌, refl, arith, ltb, ◌==◌, if◌then◌else◌}
use cs439_pcs.DoublyLinked.{Memory, ListHead, list_insert, list_insert_ordered, list_size}
use cs439_pcs.DoublyLinked.Chain.{Linked, Avoids, Apart, IsList, first}
use cs439_pcs.DoublyLinked.Insert.{list_insert-IsList}
use cs439_pcs.DoublyLinked.Ordered.{list_size-length, list_insert_ordered-IsList, insert_before}
use cs439_pcs.Base.Each.{Falling}
use cs439_pcs.DoublyLinked.Sort.{list_sort}
use cs439_pcs.DoublyLinked.Sort.Laws.{above, occurrences}
use cs439_pcs.DoublyLinked.Sort.Passes.{list_sort-Falling}

abbrev two : Memory
two k =
    if k == 1
    then record { prev = 0; next = 10 }
    else if k == 10
    then record { prev = 1; next = 11 }
    else if k == 11
    then record { prev = 10; next = 2 }
    else if k == 2
    then record { prev = 11; next = 0 }
    else record { prev = 0; next = 0 }

abbrev ends : ListHead
ends = record { head = 1; tail = 2 }

two-IsList : IsList two ends (10 ∷ 11 ∷ [])
unfolding Linked Avoids Apart
two-IsList = record {
  linked = (refl, refl, (refl, refl, (refl, refl)));
  first_null = refl;
  last_null = refl;
  apart = ((omega arith, (omega arith, tt)), ((omega arith, tt), (tt, tt)));
  before_tail = (omega arith, (omega arith, (omega arith, tt)));
  no_null = (omega arith, (omega arith, (omega arith, tt)));
  tail_there = omega arith;
}

fresh_twelve : Avoids (1 ∷ 10 ∷ 11 ∷ []) 12
unfolding Avoids
fresh_twelve = (omega arith, (omega arith, (omega arith, tt)))

list_insert-IsList_example :
    (mem : Memory) × (list_insert two (first (11 ∷ []) 2) 12 ≡ some mem)
    × IsList mem ends (10 ∷ 12 ∷ 11 ∷ [])
list_insert-IsList_example =
    list_insert-IsList two ends (10 ∷ []) (11 ∷ []) 12 two-IsList fresh_twelve (omega arith)
      (omega arith)

list_size-length_example : list_size 3 two ends ≡ some 2
list_size-length_example = list_size-length 3 two ends (10 ∷ 11 ∷ []) two-IsList (omega arith)

list_insert_ordered-IsList_example :
    (mem : Memory) × (list_insert_ordered ltb 3 two ends 12 ≡ some mem)
    × IsList mem ends (insert_before ltb 12 (10 ∷ 11 ∷ []))
list_insert_ordered-IsList_example =
    list_insert_ordered-IsList ltb 3 two ends (10 ∷ 11 ∷ []) 12 two-IsList fresh_twelve
      (omega arith) (omega arith) (omega arith)

list_sort-Falling_example :
    (ys : List ℕ) × (list_sort (above (λ u. u)) (3 ∷ 1 ∷ 2 ∷ []) ≡ some ys)
    × Falling (λ u. u) ys
    × ((t : ℕ) → occurrences t ys ≡ occurrences t (3 ∷ 1 ∷ 2 ∷ []))
list_sort-Falling_example = list_sort-Falling (λ u. u) (3 ∷ 1 ∷ 2 ∷ [])
