-- ===== src/Synch/Letting.antt =====
-- What the parts of lock_release of threads/synch.c do to the locks.
use cs439_pcs.Base.{not, ◌%◌, word_mod, ℕ, ◌+◌, List, [], ◌∷◌, some}
use cs439_pcs.Base.{◌≡◌, ◌≢◌, ap, sym, ◌∙◌, inl, inr, ◌==◌, if◌then◌else◌}
use cs439_pcs.Base.{Bool-cases, ==_iff, some-none, some_eq, Option-cases}
use cs439_pcs.Thread.{Kernel, Semaphore, thread_current, thread_unblock}
use cs439_pcs.Thread.{compare_priority, check_priority}
use cs439_pcs.DoublyLinked.Sort.{list_sort}
use cs439_pcs.Synch.{Machine, Lock, put_lock}
use cs439_pcs.Synch.{release_begin, release_up}
use cs439_pcs.Synch.{sema_up, wake_first, donation_back}
use cs439_pcs.Synch.{priority_recheck, lock_held_by_current_thread}
use mathlib.Core.Path.{subst}
use cs439_pcs.Synch.Effects.{
  lock_value, lock_holder, Changes, put_lock-Changes, current_there, with_kernel,
}

back-locks : (m m' : Machine) (l : ℕ) → donation_back m l ≡ some m' → m'.locks ≡ m.locks
unfolding donation_back
back-locks m m' l e = elim (Option-cases (thread_current m.kernel)) [
  | inl q ↦ absurd (some-none (sym (rw q at e)))
  | inr (cur, q) ↦ sym (ap (λ (x : Machine). x.locks) (some_eq (rw q at e)))
]

recheck-locks : (m m' : Machine) → priority_recheck m ≡ some m' → m'.locks ≡ m.locks
unfolding priority_recheck
recheck-locks m m' e = elim (Option-cases (thread_current m.kernel)) [
  | inl q ↦ absurd (some-none (sym (rw q at e)))
  | inr (cur, q) ↦ sym (ap (λ (x : Machine). x.locks) (some_eq (rw q at e)))
]

let_go :
    (m m2 : Machine) (l : ℕ)
    → m2.locks ≡ m.locks
    → Changes m (put_lock m2 l (record (m2.locks l) { holder = 0 })) l (lock_value m l) 0
let_go m m2 l same =
    let freed = put_lock-Changes m2 l (record (m2.locks l) { holder = 0 }) in
    record {
      own_value = freed.own_value ∙ ap (λ (f : ℕ → Lock). (f l).semaphore.value) same;
      own_holder = freed.own_holder;
      others = λ j ne.
          let (v, w) = freed.others j ne in
          (
            v ∙ ap (λ (f : ℕ → Lock). (f j).semaphore.value) same,
            w ∙ ap (λ (f : ℕ → Lock). (f j).holder) same,
          );
    }

pub release_begin-Changes :
    (m m' : Machine) (l : ℕ)
    → release_begin m l ≡ some m'
    → (m.kernel.current ≢ 0)
      × (lock_holder m l ≡ m.kernel.current)
      × Changes m m' l (lock_value m l) 0
unfolding release_begin lock_held_by_current_thread
release_begin-Changes m m' l e = elim (Bool-cases (not (l == 0))) [
  | inr n ↦ absurd (some-none (sym (rw n at e)))
  | inl n ↦ elim (Option-cases (thread_current m.kernel)) [
    | inl q ↦ absurd (some-none (sym (rw (n, q) at e)))
    | inr (cur, q) ↦ elim (Bool-cases ((m.locks l).holder == cur)) [
      | inr h ↦ absurd (some-none (sym (rw (n, q, h) at e)))
      | inl h ↦ elim (Option-cases (donation_back m l)) [
        | inl b ↦ absurd (some-none (sym (rw (n, q, h, b) at e)))
        | inr (m1, b) ↦ elim (Option-cases (priority_recheck m1)) [
          | inl r ↦ absurd (some-none (sym (rw (n, q, h, b, r) at e)))
          | inr (m2, r) ↦
              let (is, there) = current_there m.kernel cur q in
              (
                λ z. there (sym is ∙ z),
                (==_iff _ _).0 h ∙ sym is,
                subst (λ x. Changes m x l (lock_value m l) 0) (some_eq (rw (n, q, h, b, r) at e))
                    (let_go m m2 l (recheck-locks m1 m2 r ∙ back-locks m m1 l b)),
              )
        ]
      ]
    ]
  ]
]

wake_first_value :
    (k : Kernel) (sema : Semaphore) (ts : List ℕ) (r : Semaphore × Kernel)
    → wake_first k sema ts ≡ some r
    → r.0.value ≡ sema.value
unfolding wake_first
wake_first_value k sema [] r e = sym (ap (λ (x : Semaphore × Kernel). x.0.value) (some_eq e))
wake_first_value k sema (t ∷ ts) r e = elim (Option-cases (thread_unblock k t)) [
  | inl q ↦ absurd (some-none (sym (rw q at e)))
  | inr (k', q) ↦ sym (ap (λ (x : Semaphore × Kernel). x.0.value) (some_eq (rw q at e)))
]

sema_up_value :
    (k : Kernel) (sema : Semaphore) (r : Semaphore × Kernel)
    → sema_up k sema ≡ some r
    → r.0.value ≡ (sema.value + 1) % word_mod
unfolding sema_up
sema_up_value k sema r e = elim (Option-cases (list_sort (compare_priority k) sema.waiters)) [
  | inl o ↦ absurd (some-none (sym (rw o at e)))
  | inr (sorted, o) ↦ elim (Option-cases (wake_first k sema sorted)) [
    | inl q ↦ absurd (some-none (sym (rw (o, q) at e)))
    | inr ((s, k1), q) ↦
        elim (Option-cases (if k1.in_external_intr then some k1 else check_priority k1)) [
          | inl c ↦ absurd (some-none (sym (rw (o, q, c) at e)))
          | inr (k2, c) ↦
              sym (ap (λ (x : Semaphore × Kernel). x.0.value) (some_eq (rw (o, q, c) at e)))
              ∙ ap (λ v. (v + 1) % word_mod) (wake_first_value k sema _ (s, k1) q)
        ]
  ]
]

pub release_up-Changes :
    (m m' : Machine) (l : ℕ)
    → release_up m l ≡ some m'
    → Changes m m' l ((lock_value m l + 1) % word_mod) (lock_holder m l)
unfolding release_up
release_up-Changes m m' l e = elim (Option-cases (sema_up m.kernel (m.locks l).semaphore)) [
  | inl q ↦ absurd (some-none (sym (rw q at e)))
  | inr ((sema, k), q) ↦
      subst (λ x. Changes m x l ((lock_value m l + 1) % word_mod) (lock_holder m l))
        (some_eq (rw q at e))
        (with_kernel m l sema k _ (sema_up_value m.kernel (m.locks l).semaphore (sema, k) q))
]
