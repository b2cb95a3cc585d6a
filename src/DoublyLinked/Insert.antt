-- ===== src/DoublyLinked/Insert.antt =====
-- list_insert, list_push_front and list_push_back on a list.
use cs439_pcs.Base.{ℕ, some, List, [], ◌∷◌, ◌++◌}
use cs439_pcs.Base.{◌≡◌, ◌≢◌, refl, sym, ◌∙◌, ◌==◌}
use cs439_pcs.Base.{==_ne, Bool-cases, inl, inr}
use cs439_pcs.DoublyLinked.{Memory, ListHead, is_interior, is_tail, list_insert}
use cs439_pcs.DoublyLinked.Chain.{
  Linked, Avoids, Apart, IsList, first, Rest, Linked-split, inserted,
}
use cs439_pcs.DoublyLinked.Chain.{
  Avoids-left, Avoids-right, Avoids-insert, Apart-insert, Apart-left,
}
use cs439_pcs.DoublyLinked.Chain.{
  Apart-right, prev_ne, prev_avoided, next_same, prev_same, Linked-kept,
}
use cs439_pcs.DoublyLinked.Chain.{behind_elem, segment_insert}

-- The assertions of list_insert hold of an element with one before it.
insert_runs :
    (mem : Memory) (b elem : ℕ)
    → b ≢ 0
    → (mem b).prev ≢ 0
    → elem ≢ 0
    → (ne : elem ≢ b) → list_insert mem b elem ≡ some (inserted mem b elem ne)
unfolding list_insert is_interior is_tail
insert_runs mem b elem nb np n0 ne = elim (Bool-cases ((mem b).next == 0)) [
  | inl y ↦ rw (==_ne _ _ nb, ==_ne _ _ np, y, ==_ne _ _ n0, ==_ne _ _ ne) refl
  | inr y ↦ rw (==_ne _ _ nb, ==_ne _ _ np, y, ==_ne _ _ n0, ==_ne _ _ ne) refl
]

first-Avoids : (xs ys : List ℕ) (z p : ℕ) → Avoids (xs ++ ys) p → z ≢ p → first ys z ≢ p
unfolding Avoids first
first-Avoids xs [] z p h n = n
first-Avoids xs (y ∷ ys) z p h n = (Avoids-right xs (y ∷ ys) p h).0

-- The part behind the new element is as it was.
Rest-kept :
    (mem : Memory) (a elem z : ℕ) (xs ys : List ℕ) (ne : elem ≢ first ys z)
    → Linked mem a xs (first ys z)
    → Rest mem ys z
    → Apart (a ∷ xs ++ ys)
    → Avoids (xs ++ ys) elem
    → Avoids (xs ++ ys) z
    → z ≢ elem
    → Rest (inserted mem (first ys z) elem ne) ys z
unfolding Rest first Apart Avoids
Rest-kept mem a elem z xs [] ne h r p f g n = tt
Rest-kept mem a elem z xs (y ∷ ys) ne h r p f g n =
    Linked-kept mem y elem ne y ys z r (Avoids-right xs (y ∷ ys) elem f)
      (prev_avoided mem a xs (y ∷ ys) y h p) (Apart-right xs (y ∷ ys) p.1).0 n
      (λ e. (Avoids-right xs (y ∷ ys) z g).0 (sym e))

before_first :
    (a z : ℕ) (xs ys : List ℕ)
    → Apart (a ∷ xs ++ ys)
    → Avoids (a ∷ xs) z
    → Avoids (a ∷ xs) (first ys z)
unfolding Apart Avoids first
before_first a z xs [] p f = f
before_first a z [] (y ∷ ys) p f = ((λ e. (p.0).0 (sym e)), tt)
before_first a z (x ∷ xs) (y ∷ ys) (g, p) (n, f) =
    ((λ e. (Avoids-right (x ∷ xs) (y ∷ ys) a g).0 (sym e)), before_first x z xs (y ∷ ys) p f)

-- In a memory that holds the list `xs` followed by `ys`, list_insert of an element that is none of
-- the list's, not its tail and not null, before the first of `ys`, or before the tail where `ys` is
-- empty, returns a memory that holds `xs`, the element, and `ys`.
pub list_insert-IsList :
    (mem : Memory) (l : ListHead) (xs ys : List ℕ) (elem : ℕ)
    → IsList mem l (xs ++ ys)
    → Avoids (l.head ∷ xs ++ ys) elem
    → l.tail ≢ elem
    → elem ≢ 0
    → (mem' : Memory) × (list_insert mem (first ys l.tail) elem ≡ some mem')
      × IsList mem' l (xs ++ elem ∷ ys)
unfolding Avoids
list_insert-IsList mem l xs ys elem h fresh nt n0 =
    let b : ℕ = first ys l.tail in
    let split = Linked-split mem l.head xs ys l.tail h.linked in
    let ne : elem ≢ b = λ e. first-Avoids (l.head ∷ xs) ys l.tail elem fresh nt (sym e) in
    let nb : b ≢ 0 = first-Avoids (l.head ∷ xs) ys l.tail 0 h.no_null h.tail_there in
    let front = Avoids-left (l.head ∷ xs) ys elem fresh in
    let np = prev_ne mem l.head xs b 0 split.0 (Avoids-left (l.head ∷ xs) ys 0 h.no_null) in
    let npe = prev_ne mem l.head xs b elem split.0 front in
    let here =
      before_first l.head l.tail xs ys h.apart
        (Avoids-left (l.head ∷ xs) ys l.tail h.before_tail) in
    let mem' : Memory = inserted mem b elem ne in
    let behind =
      Rest-kept mem l.head elem l.tail xs ys ne split.0 split.1 h.apart
        (Avoids-right (l.head ∷ []) (xs ++ ys) elem fresh)
        (Avoids-right (l.head ∷ []) (xs ++ ys) l.tail h.before_tail) nt in
    (
      mem',
      insert_runs mem b elem nb np n0 ne,
      record {
        linked =
            segment_insert mem b elem ne l.head xs ys l.tail split.0
              (Apart-left (l.head ∷ xs) ys h.apart) front here
              (behind_elem mem b elem ne ys l.tail refl npe behind);
        first_null =
            prev_same mem b elem ne l.head (λ e. front.0 (sym e)) (λ e. here.0 (sym e))
            ∙ h.first_null;
        last_null =
            next_same mem b elem ne l.tail (λ e. nt (sym e))
              (prev_ne mem l.head xs b l.tail split.0
                (Avoids-left (l.head ∷ xs) ys l.tail h.before_tail))
            ∙ h.last_null;
        apart = Apart-insert (l.head ∷ xs) ys elem fresh h.apart;
        before_tail = Avoids-insert (l.head ∷ xs) ys elem l.tail (λ e. nt (sym e)) h.before_tail;
        no_null = Avoids-insert (l.head ∷ xs) ys elem 0 n0 h.no_null;
        tail_there = h.tail_there;
      },
    )
