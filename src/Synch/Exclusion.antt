-- ===== src/Synch/Exclusion.antt =====
-- At most one thread is past sema_down of a lock of threads/synch.c.
use cs439_pcs.Base.{==_self, ℕ, ◌≤◌, true, false}
use cs439_pcs.Base.{◌≡◌, ◌≢◌, refl, ap, sym, ◌∙◌, ◌⊎◌, inl, inr, arith}
use cs439_pcs.Synch.Effects.{acquire_begin-locks, acquire_down-Changes}
use cs439_pcs.Synch.Effects.{acquire_end-Changes, try_down-Changes, try_end-Changes}
use cs439_pcs.Synch.Letting.{release_begin-Changes, release_up-Changes}
use cs439_pcs.Thread.Switch.{there}
use cs439_pcs.Synch.{Lock}
use cs439_pcs.Synch.System.{
  begun, waited, passed, taken, failed, tried, held_now, trying, freed, upped, scheduled, outside,
  acquiring, taking, releasing, between, System, move,
}
use cs439_pcs.Synch.System.{Step, Reachable, start, next}
use mathlib.Core.Path.{subst}
use cs439_pcs.Synch.Owned.{
  NoneBetween, Owned, free, held, passing, moved, keep, by_lock, pass-Owned, take-Owned,
  release-Owned, up-Owned, idle-Owned, apart, owner_is, clash,
}

-- A thread is inside a lock: it holds it, or it has its semaphore down in a call.
unfoldable pub Inside : System → ℕ → ℕ → Type 0
Inside s l t = ((t ≢ 0) × ((s.machine.locks l).holder ≡ t)) ⊎ (between l (s.stages t) ≡ true)

Step-Owned : (j : ℕ) {s s' : System} → Owned s j → Step s s' → Owned s' j
unfolding between
Step-Owned j {s} o (begun l m g e is) =
    let same = acquire_begin-locks s.machine m l e in
    subst (λ x. Owned x j) (sym is)
      (keep s (move s m (acquiring l)) j (ap (λ (f : ℕ → Lock). (f j).semaphore.value) same)
        (ap (λ (f : ℕ → Lock). (f j).holder) same)
        (λ t. moved s m (acquiring l) j t (sym (ap (between j) g))) o)
Step-Owned j {s} o (waited l m g e is) =
    subst (λ x. Owned x j) (sym is)
      (elim (acquire_down-Changes s.machine m l false e) [
        | inl (_, c) ↦
            by_lock s m (acquiring l) l _ _ j c (λ n. sym (ap (between j) g))
              (idle-Owned s m (acquiring l) l (sym (ap (between l) g)) c) o
        | inr (f, _, _) ↦ absurd (clash (sym f))
      ])
Step-Owned j {s} o (passed l m g e is) =
    subst (λ x. Owned x j) (sym is)
      (elim (acquire_down-Changes s.machine m l true e) [
        | inl (f, _) ↦ absurd (clash f)
        | inr (_, nz, c) ↦
            by_lock s m (taking l) l _ _ j c (λ n. apart l j n ∙ sym (ap (between j) g))
              (pass-Owned s m (taking l) l (==_self l) nz c) o
      ])
Step-Owned j {s} o (taken l m g e is) =
    let (nz, c) = acquire_end-Changes s.machine m l e in
    subst (λ x. Owned x j) (sym is)
      (by_lock s m outside l _ _ j c (λ n. sym (ap (between j) g ∙ apart l j n))
        (take-Owned s m l (ap (between l) g ∙ ==_self l) nz c) o)
Step-Owned j {s} o (failed l m g e is) =
    subst (λ x. Owned x j) (sym is)
      (elim (try_down-Changes s.machine m l false e) [
        | inl (_, c) ↦
            by_lock s m outside l _ _ j c (λ n. sym (ap (between j) g))
              (idle-Owned s m outside l (sym (ap (between l) g)) c) o
        | inr (f, _, _) ↦ absurd (clash (sym f))
      ])
Step-Owned j {s} o (tried l m g e is) =
    subst (λ x. Owned x j) (sym is)
      (elim (try_down-Changes s.machine m l true e) [
        | inl (f, _) ↦ absurd (clash f)
        | inr (_, nz, c) ↦
            by_lock s m (trying l) l _ _ j c (λ n. apart l j n ∙ sym (ap (between j) g))
              (pass-Owned s m (trying l) l (==_self l) nz c) o
      ])
Step-Owned j {s} o (held_now l m g e is) =
    let (nz, c) = try_end-Changes s.machine m l e in
    subst (λ x. Owned x j) (sym is)
      (by_lock s m outside l _ _ j c (λ n. sym (ap (between j) g ∙ apart l j n))
        (take-Owned s m l (ap (between l) g ∙ ==_self l) nz c) o)
Step-Owned j {s} o (freed l m g e is) =
    let (there, h, c) = release_begin-Changes s.machine m l e in
    subst (λ x. Owned x j) (sym is)
      (by_lock s m (releasing l) l _ _ j c (λ n. apart l j n ∙ sym (ap (between j) g))
        (release-Owned s m l there h c) o)
Step-Owned j {s} o (upped l m g e is) =
    subst (λ x. Owned x j) (sym is)
      (by_lock s m outside l _ _ j (release_up-Changes s.machine m l e)
        (λ n. sym (ap (between j) g ∙ apart l j n))
        (up-Owned s m l g (release_up-Changes s.machine m l e)) o)
Step-Owned j {s} o (scheduled k is) =
    subst (λ x. Owned x j) (sym is)
      (keep s (record s { machine = record s.machine { kernel = k } }) j refl refl (λ t. refl) o)

Reachable-Owned : (j : ℕ) {s : System} → Reachable s → Owned s j
unfolding NoneBetween between
Reachable-Owned j (start i) =
    free (ap (λ (x : Lock). x.semaphore.value) (i.all_free j))
      (ap (λ (x : Lock). x.holder) (i.all_free j)) (λ t. ap (between j) (i.all_outside t))
Reachable-Owned j (next r e) = Step-Owned j (Reachable-Owned j r) e

Owned-alone : (s : System) (l t u : ℕ) → Owned s l → Inside s l t → Inside s l u → t ≡ u
unfolding Inside NoneBetween
Owned-alone s l t u (free v h n) (inl (z, a)) b = absurd (z (sym a ∙ h))
Owned-alone s l t u (free v h n) (inr a) b = absurd (clash (sym a ∙ n t))
Owned-alone s l t u (held v h n) (inr a) b = absurd (clash (sym a ∙ n t))
Owned-alone s l t u (held v h n) (inl (z, a)) (inl (_, b)) = sym a ∙ b
Owned-alone s l t u (held v h n) (inl (z, a)) (inr b) = absurd (clash (sym b ∙ n u))
Owned-alone s l t u (passing o v h i n) (inl (z, a)) b = absurd (z (sym a ∙ h))
Owned-alone s l t u (passing o v h i n) (inr a) (inl (z, b)) = absurd (z (sym b ∙ h))
Owned-alone s l t u (passing o v h i n) (inr a) (inr b) =
    owner_is s l t o a n ∙ sym (owner_is s l u o b n)

-- In every state that threads reach from locks after lock_init by the parts of lock_acquire,
-- lock_try_acquire and lock_release, with the scheduler free to run any thread in between, two
-- threads that are inside the same lock are one: a thread is inside while it is the lock's holder,
-- and while it has the lock's semaphore down before it becomes the holder or after it was.
pub Reachable-Inside : (l t u : ℕ) {s : System} → Reachable s → Inside s l t → Inside s l u → t ≡ u
Reachable-Inside l t u {s} r a b = Owned-alone s l t u (Reachable-Owned l r) a b

-- In every such state the value of a lock's semaphore is 0 or 1, and it is 0 while a thread is
-- inside the lock.
pub Reachable-value :
    (l : ℕ) {s : System}
    → Reachable s
    → ((s.machine.locks l).semaphore.value ≤ 1)
      × ((t : ℕ) → Inside s l t → (s.machine.locks l).semaphore.value ≡ 0)
unfolding Inside NoneBetween
Reachable-value l {s} r = at_most (Reachable-Owned l r)
  where
    at_most :
        Owned s l
        → ((s.machine.locks l).semaphore.value ≤ 1)
          × ((t : ℕ) → Inside s l t → (s.machine.locks l).semaphore.value ≡ 0)
    at_most (free v h n) = (
      omega (arith, v),
      λ t a. elim a [ inl (z, b) ↦ absurd (z (sym b ∙ h)) | inr b ↦ absurd (clash (sym b ∙ n t)) ],
    )
    at_most (held v h n) = (omega (arith, v), λ t a. v)
    at_most (passing o v h i n) = (omega (arith, v), λ t a. v)
