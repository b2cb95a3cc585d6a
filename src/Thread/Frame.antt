-- ===== src/Thread/Frame.antt =====
-- The scheduler's state is in order in any state that agrees with one on the status and the
-- signature of the threads that it depends on.
use cs439_pcs.Base.{not, ◌&&◌}
use cs439_pcs.Base.{
  ℕ, ◌≤◌, true, List, [], ◌∷◌, arith, ◌≡◌, sym, ap, ◌∙◌, refl, inl, inr, ◌==◌, Bool-cases, ==_iff,
}
use cs439_pcs.Base.Each.{Each, Distinct, Falling, Listed, Each-imp, Each-and, Each-all}
use cs439_pcs.Thread.{Kernel, Thread, put, running, is_thread, thread_magic}
use cs439_pcs.Thread.Invariant.{
  IsReady, IsScheduled, IsOrdered, HasPlace, HasPlace-same, priority, is_thread-same,
}
use mathlib.Core.Path.{subst}

-- The two states have the thread in the same status and both or neither with its signature.
unfoldable pub Agrees : Kernel → Kernel → ℕ → Type 0
Agrees k k' u = ((k'.threads u).status ≡ (k.threads u).status) × (is_thread k' u ≡ is_thread k u)

pub same-Agrees : (k k' : Kernel) (u : ℕ) → k'.threads u ≡ k.threads u → Agrees k k' u
unfolding Agrees
same-Agrees k k' u e = (ap (λ x. x.status) e, is_thread-same k k' u e)

-- The places of the threads, where no status has changed.
pub same_places :
    (k k' : Kernel)
    → ((u : ℕ) → (k'.threads u).status ≡ (k.threads u).status)
    → k'.ready_list ≡ k.ready_list
    → k'.idle_thread ≡ k.idle_thread
    → k'.all_list ≡ k.all_list
    → Each (HasPlace k k.ready_list) k.all_list
    → Each (HasPlace k' k'.ready_list) k'.all_list
same_places k k' s r i a ps = subst (Each (HasPlace k' k'.ready_list)) (sym a) (
    Each-imp (HasPlace k k.ready_list) (HasPlace k' k'.ready_list) k.all_list
      (λ u. HasPlace-same k k' k.ready_list k'.ready_list u (s u) i (subst (Listed u) (sym r))) ps)

pub Agrees-IsScheduled :
    (k k' : Kernel)
    → k'.current ≡ k.current
    → k'.ready_list ≡ k.ready_list
    → k'.idle_thread ≡ k.idle_thread
    → Agrees k k' k.current
    → Agrees k k' k.idle_thread
    → Each (Agrees k k') k.ready_list
    → Each (HasPlace k' k'.ready_list) k'.all_list
    → IsScheduled k
    → IsScheduled k'
unfolding Agrees IsReady
Agrees-IsScheduled k k' c r i ac ai ar ps s = record {
  runs = subst (λ t. (k'.threads t).status ≡ running) (sym c) (ac.0 ∙ s.runs);
  live = subst (λ t. is_thread k' t ≡ true) (sym c) (ac.1 ∙ s.live);
  ready_threads =
      subst (λ l. Each (IsReady k') l) (sym r)
        (Each-imp (λ u. Agrees k k' u × IsReady k u) (IsReady k') k.ready_list
          (λ u ((a, b), (st, th)). (a ∙ st, b ∙ th))
          (Each-and (Agrees k k') (IsReady k) k.ready_list ar s.ready_threads));
  distinct = subst Distinct (sym r) s.distinct;
  idle = subst (λ t. is_thread k' t ≡ true) (sym i) (ai.1 ∙ s.idle);
  places = ps;
}

Falling-on : (p q : ℕ → ℕ) (xs : List ℕ) → Each (λ u. q u ≡ p u) xs → Falling p xs → Falling q xs
unfolding Falling Each
Falling-on p q [] e f = tt
Falling-on p q (x ∷ xs) e f = (
  Each-imp (λ u. (q u ≡ p u) × (p u ≤ p x)) (λ u. q u ≤ q x) xs
      (λ u (a, b). omega (arith, a, b, e.0))
      (Each-and (λ u. q u ≡ p u) (λ u. p u ≤ p x) xs e.1 f.0),
  Falling-on p q xs e.1 f.1,
)

pub same-IsOrdered :
    (k k' : Kernel)
    → k'.ready_list ≡ k.ready_list
    → Each (λ u. priority k' u ≡ priority k u) k.ready_list
    → IsOrdered k
    → IsOrdered k'
unfolding IsOrdered
same-IsOrdered k k' r e o =
    subst (λ l. Falling (priority k') l) (sym r)
      (Falling-on (priority k) (priority k') k.ready_list e o)

-- A store to one thread that leaves a field of it leaves the field of each thread.
pub put_field :
    {A : Type 0} (f : Thread → A) (k : Kernel) (t : ℕ) (x : Thread) (u : ℕ)
    → f x ≡ f (k.threads t)
    → f ((put k t x).threads u) ≡ f (k.threads u)
put_field f k t x u h = elim (Bool-cases (t == u)) [
  | inl q ↦ rw q (h ∙ ap (λ v. f (k.threads v)) ((==_iff t u).0 q))
  | inr q ↦ rw q refl
]

-- A store to one thread that leaves its status and its signature.
pub put-IsScheduled :
    (k : Kernel) (t : ℕ) (x : Thread)
    → x.status ≡ (k.threads t).status
    → x.magic ≡ (k.threads t).magic
    → IsScheduled k
    → IsScheduled (put k t x)
unfolding Agrees is_thread
put-IsScheduled k t x s m h =
    let agree : (u : ℕ) → Agrees k (put k t x) u = λ u. (
      put_field (λ x. x.status) k t x u s,
      ap (λ m. not (u == 0) && m == thread_magic) (put_field (λ x. x.magic) k t x u m),
    ) in
    Agrees-IsScheduled k (put k t x) refl refl refl (agree k.current) (agree k.idle_thread)
      (Each-all (Agrees k (put k t x)) k.ready_list agree)
      (same_places k (put k t x) (λ u. put_field (λ x. x.status) k t x u s) refl refl refl h.places)
      h

pub put-IsOrdered :
    (k : Kernel) (t : ℕ) (x : Thread)
    → x.priority ≡ (k.threads t).priority
    → IsOrdered k
    → IsOrdered (put k t x)
put-IsOrdered k t x p = same-IsOrdered k (put k t x) refl (
    Each-all (λ u. priority (put k t x) u ≡ priority k u) k.ready_list
      (λ u. put_field (λ x. x.priority) k t x u p))
