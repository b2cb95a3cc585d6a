-- ===== src/DoublyLinked/Sort.antt =====
-- list_sort of lib/kernel/list.c, the natural merge sort, on the sequence of a list's elements.
-- `none` is fuel that has run out, or a failed ASSERT.
pub mod Laws
pub mod Passes
use cs439_pcs.Base.{ℕ, zero, suc, ◌+◌, Bool, true, false, not, List, [], ◌∷◌, ◌++◌}
use cs439_pcs.Base.{Option, none, some, ltb, if◌then◌else◌, length, assert, ◌>>=◌, ◌>>◌}

module _ (less : ℕ → ℕ → Bool) where
  -- is_sorted, from an element on.
  unfoldable pub is_sorted : ℕ → List ℕ → Bool
  is_sorted a [] = true
  is_sorted a (x ∷ xs) = if less x a then false else is_sorted x xs

  -- find_end_of_run: what follows `a` in its run, and what comes behind the run.
  unfoldable pub find_end_of_run : ℕ → List ℕ → List ℕ × List ℕ
  find_end_of_run a [] = ([], [])
  find_end_of_run a (x ∷ xs) =
      let rest = find_end_of_run x xs in if less x a then ([], x ∷ xs) else (x ∷ rest.0, rest.1)

  -- The rounds of inplace_merge until `a0` is passed; `rest` does the others.
  unfoldable pub merge_until : ℕ → (List ℕ → List ℕ) → List ℕ → List ℕ
  merge_until a0 rest [] = a0 ∷ rest []
  merge_until a0 rest (b ∷ bs) =
      let spliced = merge_until a0 rest bs in if less b a0 then b ∷ spliced else a0 ∷ rest (b ∷ bs)

  -- inplace_merge of two runs that are next to each other.
  unfoldable pub inplace_merge : List ℕ → List ℕ → List ℕ
  inplace_merge [] bs = bs
  inplace_merge (a ∷ xs) bs = merge_until a (inplace_merge xs) bs

  -- A pass over the list: the number of runs that it puts out, and the list. Fuel of the length of
  -- the list is enough.
  unfoldable pub merge_pass : ℕ → List ℕ → ℕ × List ℕ
  merge_pass zero xs = (0, xs)
  merge_pass (suc fuel) [] = (0, [])
  merge_pass (suc fuel) (a ∷ xs) =
      let (run, rest) = find_end_of_run a xs in
      elim rest [
        | [] ↦ (1, a ∷ run)
        | b ∷ ys ↦
            let (run', rest') = find_end_of_run b ys in
            let (output_run_cnt, out) = merge_pass fuel rest' in
            (output_run_cnt + 1, inplace_merge (a ∷ run) (b ∷ run') ++ out)
      ]

  -- The passes of list_sort. Fuel of one more than the length of the list is enough.
  unfoldable pub sort_loop : ℕ → List ℕ → Option (List ℕ)
  sort_loop zero xs = none
  sort_loop (suc fuel) xs =
      let (output_run_cnt, out) = merge_pass (length xs) xs in
      let again = sort_loop fuel out in if ltb 1 output_run_cnt then again else some out

  -- is_sorted on a whole list.
  unfoldable pub all_sorted : List ℕ → Bool
  all_sorted [] = true
  all_sorted (x ∷ xs) = is_sorted x xs

  unfoldable pub list_sort : List ℕ → Option (List ℕ)
  list_sort xs = do ys ← sort_loop (suc (length xs)) xs; assert (all_sorted ys); some ys
