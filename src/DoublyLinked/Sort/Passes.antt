-- ===== src/DoublyLinked/Sort/Passes.antt =====
-- The passes of list_sort of lib/kernel/list.c: each halves the number of runs.
use cs439_pcs.Base.{ℕ, zero, suc, ◌+◌, ◌≤◌, false, List, [], ◌∷◌, ◌++◌}
use cs439_pcs.Base.{◌≡◌, refl, ap, sym, ◌∙◌, inl, inr, arith, ◌⊎◌}
use cs439_pcs.Base.{ltb, Bool-cases, length, length-append, ltb→lt}
use cs439_pcs.Base.Each.{Each, Falling, Each-imp}
use cs439_pcs.Base.{true, Option, some}
use cs439_pcs.DoublyLinked.Sort.{
  is_sorted, all_sorted, find_end_of_run, inplace_merge, merge_pass, sort_loop, list_sort,
}
use cs439_pcs.DoublyLinked.Sort.Laws.{
  occurrences, occurrences-append, above, drops, runs, run_split,
}
use cs439_pcs.DoublyLinked.Sort.Laws.{inplace_merge-Falling, occurrences-inplace_merge, not_above}
use mathlib.Core.Path.{subst}

List-cases : (xs : List ℕ) → (xs ≡ []) ⊎ ((y : ℕ) × (ys : List ℕ) × (xs ≡ y ∷ ys))
List-cases [] = inl refl
List-cases (y ∷ ys) = inr (y, ys, refl)

module _ (p : ℕ → ℕ) where
  drops_join : (a : ℕ) (xs out : List ℕ) → Falling p (a ∷ xs) → drops p a (xs ++ out) ≤ runs p out
  unfolding drops runs Falling Each
  drops_join a [] [] f = omega arith
  drops_join a [] (y ∷ out) f = elim (Bool-cases (above p y a)) [
    | inl q ↦ rw q (omega arith)
    | inr q ↦ rw q (omega arith)
  ]
  drops_join a (x ∷ xs) out f =
      let q : above p x a ≡ false = not_less (p a) (p x) f.0.0 in
      rw q (omega (arith, drops_join x xs out f.1))
    where
      not_less : (b c : ℕ) → c ≤ b → ltb b c ≡ false
      not_less b c h = ground arith

  runs_join : (xs out : List ℕ) → Falling p xs → runs p (xs ++ out) ≤ 1 + runs p out
  unfolding runs
  runs_join [] out f = omega arith
  runs_join (a ∷ xs) out f = omega (arith, drops_join a xs out f)

  append_nil : (l : List ℕ) → l ++ [] ≡ l
  append_nil [] = refl
  append_nil (x ∷ l) = ap (λ r. x ∷ r) (append_nil l)

  one_run : (xs : List ℕ) → Falling p xs → runs p xs ≤ 1
  unfolding runs
  one_run xs f = subst (λ l. runs p l ≤ 1) (append_nil xs) (runs_join xs [] f)

  drops_none : (a : ℕ) (xs : List ℕ) → drops p a xs ≡ 0 → Falling p (a ∷ xs)
  unfolding drops Falling Each
  drops_none a [] e = (tt, tt)
  drops_none a (x ∷ xs) e = elim (Bool-cases (above p x a)) [
    | inl q ↦ absurd (one_more (drops p x xs) (rw q at e))
    | inr q ↦
        let le = not_above (p a) (p x) q in
        let f = drops_none x xs (omega (arith, rw q at e)) in
        ((le, Each-imp (λ y. p y ≤ p x) (λ y. p y ≤ p a) xs (λ y h. omega (arith, h, le)) f.0), f)
  ]
    where
      one_more : (n : ℕ) → 1 + n ≡ 0 → ⊥
      one_more n e = omega (arith, e)

  few_runs : (xs : List ℕ) → runs p xs ≤ 1 → Falling p xs
  unfolding runs Falling
  few_runs [] h = tt
  few_runs (a ∷ xs) h = drops_none a xs (omega (arith, h))

  -- What a pass over `xs` gives.
  record Passes (xs : List ℕ) (r : ℕ × List ℕ) : Type 0 where
    fewer : r.0 + r.0 ≤ runs p xs + 1
    left : runs p r.1 ≤ r.0
    kept : (t : ℕ) → occurrences t r.1 ≡ occurrences t xs

  pass_one :
      (fuel a : ℕ) (xs : List ℕ)
      → (find_end_of_run (above p) a xs).1 ≡ []
      → merge_pass (above p) (suc fuel) (a ∷ xs) ≡ (1, a ∷ (find_end_of_run (above p) a xs).0)
  unfolding merge_pass
  pass_one fuel a xs e = rw (merge_pass, e) refl

  pass_two :
      (fuel a : ℕ) (xs : List ℕ) (b : ℕ) (ys : List ℕ)
      → (find_end_of_run (above p) a xs).1 ≡ b ∷ ys
      → merge_pass (above p) (suc fuel) (a ∷ xs) ≡ (
        (merge_pass (above p) fuel (find_end_of_run (above p) b ys).1).0 + 1,
        inplace_merge
              (above p)
              (a ∷ (find_end_of_run (above p) a xs).0)
              (b ∷ (find_end_of_run (above p) b ys).0)
            ++ (merge_pass (above p) fuel (find_end_of_run (above p) b ys).1).1,
      )
  unfolding merge_pass
  pass_two fuel a xs b ys e = rw (merge_pass, e) refl

  empty-Passes : (fuel : ℕ) → Passes [] (merge_pass (above p) fuel [])
  unfolding merge_pass runs occurrences
  empty-Passes zero = record { fewer = omega arith; left = omega arith; kept = λ t. refl }
  empty-Passes (suc n) = record { fewer = omega arith; left = omega arith; kept = λ t. refl }

  one-Passes :
      (a : ℕ) (xs run : List ℕ) → Falling p (a ∷ run) → xs ≡ run → Passes (a ∷ xs) (1, a ∷ run)
  unfolding runs
  one-Passes a xs run f e = record {
    fewer = omega arith;
    left = one_run (a ∷ run) f;
    kept = λ t. ap (λ l. occurrences t (a ∷ l)) (sym e);
  }

  -- Two runs at the front of `xs` and the passes over the rest.
  two-Passes :
      (a : ℕ) (xs run : List ℕ) (b : ℕ) (ys run' rest : List ℕ) (r : ℕ × List ℕ)
      → xs ≡ run ++ b ∷ ys
      → ys ≡ run' ++ rest
      → Falling p (a ∷ run)
      → Falling p (b ∷ run')
      → drops p a xs ≡ runs p (b ∷ ys)
      → drops p b ys ≡ runs p rest
      → Passes rest r
      → Passes (a ∷ xs) (r.0 + 1, inplace_merge (above p) (a ∷ run) (b ∷ run') ++ r.1)
  unfolding runs occurrences
  two-Passes a xs run b ys run' rest r e e' f f' n n' c =
      let merged = inplace_merge-Falling p (a ∷ run) (b ∷ run') f f' in
      record {
        fewer = omega (arith, c.fewer, n, n');
        left = omega (arith, runs_join _ r.1 merged, c.left);
        kept = λ t. omega (
          arith,
          occurrences-append t (inplace_merge (above p) (a ∷ run) (b ∷ run')) r.1,
          occurrences-inplace_merge p t (a ∷ run) (b ∷ run'),
          c.kept t,
          ap (occurrences t) e,
          occurrences-append t run (b ∷ ys),
          ap (occurrences t) e',
          occurrences-append t run' rest,
        );
      }

  pass-Passes :
      (fuel : ℕ) (xs : List ℕ) → length xs ≤ fuel → Passes xs (merge_pass (above p) fuel xs)
  pass-Passes fuel [] h = empty-Passes fuel
  pass-Passes zero (a ∷ xs) h = absurd (omega (arith, h))
  pass-Passes (suc fuel) (a ∷ xs) h =
      let (e, f, n) = run_split p a xs in
      let run = (find_end_of_run (above p) a xs).0 in
      elim (List-cases (find_end_of_run (above p) a xs).1) [
        | inl q ↦
            subst (Passes (a ∷ xs)) (sym (pass_one fuel a xs q))
              (one-Passes a xs run f (e ∙ (ap (λ l. run ++ l) q ∙ append_nil run)))
        | inr (b, ys, q) ↦
            let (e', f', n') = run_split p b ys in
            let run' = (find_end_of_run (above p) b ys).0 in
            let rest = (find_end_of_run (above p) b ys).1 in
            let ex = e ∙ ap (λ l. run ++ l) q in
            let shorter : length rest ≤ fuel = omega (
              arith,
              h,
              ap length ex,
              length-append run (b ∷ ys),
              ap length e',
              length-append run' rest,
            ) in
            subst (Passes (a ∷ xs)) (sym (pass_two fuel a xs b ys q)) (
              two-Passes a xs run b ys run' rest (merge_pass (above p) fuel rest) ex e' f f'
                (n ∙ ap (runs p) q) n' (pass-Passes fuel rest shorter))
      ]

  not_more : (n : ℕ) → n ≤ 1 → ltb 1 n ≡ false
  not_more n h = ground arith

  -- The passes end, in order and with the same elements.
  record Sorts (xs : List ℕ) (r : Option (List ℕ)) : Type 0 where
    ys : List ℕ
    ends : r ≡ some ys
    falls : Falling p ys
    same : (t : ℕ) → occurrences t ys ≡ occurrences t xs

  loop-Sorts :
      (fuel : ℕ) (xs : List ℕ) → runs p xs ≤ fuel → Sorts xs (sort_loop (above p) (suc fuel) xs)
  unfolding sort_loop
  loop-Sorts zero xs h =
      let r = merge_pass (above p) (length xs) xs in
      let c = pass-Passes (length xs) xs (omega arith) in
      let few : r.0 ≤ 1 = omega (arith, c.fewer, h) in
      record {
        ys = r.1;
        ends = rw (not_more r.0 few) refl;
        falls = few_runs r.1 (omega (arith, c.left, few));
        same = c.kept;
      }
  loop-Sorts (suc fuel) xs h =
      let r = merge_pass (above p) (length xs) xs in
      let c = pass-Passes (length xs) xs (omega arith) in
      elim (Bool-cases (ltb 1 r.0)) [
        | inl q ↦
            let more = ltb→lt 1 r.0 q in
            let s = loop-Sorts fuel r.1 (omega (arith, h, more, c.fewer, c.left)) in
            record {
              ys = s.ys;
              ends = rw q s.ends;
              falls = s.falls;
              same = λ t. s.same t ∙ c.kept t;
            }
        | inr q ↦
            let few = not_above 1 r.0 q in
            record {
              ys = r.1;
              ends = rw q refl;
              falls = few_runs r.1 (omega (arith, c.left, few));
              same = c.kept;
            }
      ]

  runs_bound : (xs : List ℕ) → runs p xs ≤ length xs
  unfolding runs drops
  runs_bound [] = omega arith
  runs_bound (x ∷ xs) = drops_bound x xs
    where
      drops_bound : (a : ℕ) (ys : List ℕ) → 1 + drops p a ys ≤ suc (length ys)
      drops_bound a [] = omega arith
      drops_bound a (y ∷ ys) = elim (Bool-cases (above p y a)) [
        | inl q ↦ rw q (omega (arith, drops_bound y ys))
        | inr q ↦ rw q (omega (arith, drops_bound y ys))
      ]

  falls-is_sorted : (a : ℕ) (xs : List ℕ) → Falling p (a ∷ xs) → is_sorted (above p) a xs ≡ true
  unfolding is_sorted Falling Each
  falls-is_sorted a [] f = refl
  falls-is_sorted a (x ∷ xs) f =
      let low : above p x a ≡ false = not_over (p x) (p a) f.0.0 in
      rw low (falls-is_sorted x xs f.1)
    where
      not_over : (m n : ℕ) → m ≤ n → ltb n m ≡ false
      not_over m n h = ground arith

  falls-all_sorted : (xs : List ℕ) → Falling p xs → all_sorted (above p) xs ≡ true
  unfolding all_sorted
  falls-all_sorted [] f = refl
  falls-all_sorted (x ∷ xs) f = falls-is_sorted x xs f

  -- list_sort, for elements of which one goes before another if its number is higher, ends, with its
  -- assertion true, in a list of the elements that it was given, each as often, in an order in which
  -- the numbers never rise.
  pub list_sort-Falling :
      (xs : List ℕ)
      → (ys : List ℕ) × (list_sort (above p) xs ≡ some ys)
        × Falling p ys
        × ((t : ℕ) → occurrences t ys ≡ occurrences t xs)
  unfolding list_sort
  list_sort-Falling xs =
      let s = loop-Sorts (length xs) xs (runs_bound xs) in
      (s.ys, rw (s.ends, falls-all_sorted s.ys s.falls) refl, s.falls, s.same)
