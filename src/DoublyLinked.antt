-- ===== src/DoublyLinked.antt =====
-- lib/kernel/list.c: doubly linked lists with a head and a tail element, on a memory of elements. An
-- address is a number, 0 the null pointer; `none` is a failed ASSERT.
pub mod Chain
pub mod Insert
pub mod Ordered
pub mod Sort
pub mod Tests
use cs439_pcs.Base.{ℕ, zero, suc, ◌+◌, Bool, true, false, not, ◌&&◌, ◌||◌, Option, none, some}
use cs439_pcs.Base.{◌==◌, if◌then◌else◌, assert, ◌>>=◌, ◌>>◌}

-- struct list_elem
pub record ListElem : Type 0 where
  pub prev : ℕ
  pub next : ℕ

abbrev pub Memory : Type 0
Memory = ℕ → ListElem

-- struct list, by the addresses of its two elements.
pub record ListHead : Type 0 where
  pub head : ℕ
  pub tail : ℕ

-- elem->prev = p, and elem->next = p
abbrev pub set_prev : Memory → ℕ → ℕ → Memory
set_prev mem elem p k = if elem == k then record (mem k) { prev = p } else mem k

abbrev pub set_next : Memory → ℕ → ℕ → Memory
set_next mem elem p k = if elem == k then record (mem k) { next = p } else mem k

unfoldable pub is_head : Memory → ℕ → Bool
is_head mem elem = not (elem == 0) && ((mem elem).prev == 0 && not ((mem elem).next == 0))

unfoldable pub is_interior : Memory → ℕ → Bool
is_interior mem elem = not (elem == 0) && (not ((mem elem).prev == 0) && not ((mem elem).next == 0))

unfoldable pub is_tail : Memory → ℕ → Bool
is_tail mem elem = not (elem == 0) && (not ((mem elem).prev == 0) && (mem elem).next == 0)

unfoldable pub list_init : Memory → ListHead → Memory
list_init mem l =
    set_next (set_prev (set_next (set_prev mem l.head 0) l.head l.tail) l.tail l.head) l.tail 0

abbrev pub list_begin : Memory → ListHead → ℕ
list_begin mem l = (mem l.head).next

unfoldable pub list_next : Memory → ℕ → Option ℕ
list_next mem elem = do assert (is_head mem elem || is_interior mem elem); some (mem elem).next

abbrev pub list_end : ListHead → ℕ
list_end l = l.tail

abbrev pub list_rbegin : Memory → ListHead → ℕ
list_rbegin mem l = (mem l.tail).prev

unfoldable pub list_prev : Memory → ℕ → Option ℕ
list_prev mem elem = do assert (is_interior mem elem || is_tail mem elem); some (mem elem).prev

abbrev pub list_rend : ListHead → ℕ
list_rend l = l.head

unfoldable pub list_insert : Memory → ℕ → ℕ → Option Memory
list_insert mem before elem = do
  assert (is_interior mem before || is_tail mem before)
  assert (not (elem == 0))
  let mem1 = set_prev mem elem (mem before).prev
  let mem2 = set_next mem1 elem before
  let mem3 = set_next mem2 (mem2 before).prev elem
  some (set_prev mem3 before elem)

-- The result is the memory, and the element that followed the one removed.
unfoldable pub list_remove : Memory → ℕ → Option (ℕ × Memory)
list_remove mem elem = do
  assert (is_interior mem elem)
  let mem1 = set_next mem (mem elem).prev (mem elem).next
  let mem2 = set_prev mem1 (mem1 elem).next (mem1 elem).prev
  some ((mem2 elem).next, mem2)

unfoldable pub list_push_front : Memory → ListHead → ℕ → Option Memory
list_push_front mem l elem = list_insert mem (list_begin mem l) elem

unfoldable pub list_push_back : Memory → ListHead → ℕ → Option Memory
list_push_back mem l elem = list_insert mem (list_end l) elem

unfoldable pub list_empty : Memory → ListHead → Bool
list_empty mem l = list_begin mem l == list_end l

unfoldable pub list_front : Memory → ListHead → Option ℕ
list_front mem l = do assert (not (list_empty mem l)); some (mem l.head).next

unfoldable pub list_back : Memory → ListHead → Option ℕ
list_back mem l = do assert (not (list_empty mem l)); some (mem l.tail).prev

unfoldable pub list_pop_front : Memory → ListHead → Option (ℕ × Memory)
list_pop_front mem l = do front ← list_front mem l; r ← list_remove mem front; some (front, r.1)

unfoldable pub list_pop_back : Memory → ListHead → Option (ℕ × Memory)
list_pop_back mem l = do back ← list_back mem l; r ← list_remove mem back; some (back, r.1)

-- The loop of list_size from `e` on. Any fuel above the number of elements is enough.
unfoldable pub size_loop : ℕ → Memory → ListHead → ℕ → ℕ → Option ℕ
size_loop zero mem l e cnt = none
size_loop (suc fuel) mem l e cnt =
    let round = (list_next mem e >>= λ e'. size_loop fuel mem l e' (cnt + 1)) in
    if e == list_end l then some cnt else round

unfoldable pub list_size : ℕ → Memory → ListHead → Option ℕ
list_size fuel mem l = size_loop fuel mem l (list_begin mem l) 0

-- `less` compares the structures that two elements are in.
module _ (less : ℕ → ℕ → Bool) where
  -- The loop of list_insert_ordered: the element that the new one goes before.
  unfoldable pub place_loop : ℕ → Memory → ListHead → ℕ → ℕ → Option ℕ
  place_loop zero mem l elem e = none
  place_loop (suc fuel) mem l elem e =
      let round = (list_next mem e >>= λ e'. place_loop fuel mem l elem e') in
      if e == list_end l then some e else if less elem e then some e else round

  unfoldable pub list_insert_ordered : ℕ → Memory → ListHead → ℕ → Option Memory
  list_insert_ordered fuel mem l elem = do
    e ← place_loop fuel mem l elem (list_begin mem l)
    list_insert mem e elem

  -- The loop of list_max from `e` on.
  unfoldable pub max_loop : ℕ → Memory → ListHead → ℕ → ℕ → Option ℕ
  max_loop zero mem l e best = none
  max_loop (suc fuel) mem l e best =
      let round =
        (list_next mem e >>= λ e'. max_loop fuel mem l e' (if less best e then e else best)) in
      if e == list_end l then some best else round

  unfoldable pub list_max : ℕ → Memory → ListHead → Option ℕ
  list_max fuel mem l =
      let first = list_begin mem l in
      let search = (list_next mem first >>= λ e. max_loop fuel mem l e first) in
      if first == list_end l then some first else search

  -- The loop of list_min from `e` on.
  unfoldable pub min_loop : ℕ → Memory → ListHead → ℕ → ℕ → Option ℕ
  min_loop zero mem l e best = none
  min_loop (suc fuel) mem l e best =
      let round =
        (list_next mem e >>= λ e'. min_loop fuel mem l e' (if less e best then e else best)) in
      if e == list_end l then some best else round

  unfoldable pub list_min : ℕ → Memory → ListHead → Option ℕ
  list_min fuel mem l =
      let first = list_begin mem l in
      let search = (list_next mem first >>= λ e. min_loop fuel mem l e first) in
      if first == list_end l then some first else search
