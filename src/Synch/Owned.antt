-- ===== src/Synch/Owned.antt =====
-- Who owns a lock of threads/synch.c: how each part of a call passes it on.
use cs439_pcs.Base.{◌%◌, word_mod, ℕ, ◌+◌, ◌-◌, true, false}
use cs439_pcs.Base.{◌≡◌, ◌≢◌, refl, ap, sym, ◌∙◌, inl, inr, arith, ◌==◌}
use cs439_pcs.Base.{Bool-cases, ==_iff, ==_self, ==_ne}
use cs439_pcs.Synch.Effects.{Changes}
use cs439_pcs.Thread.Switch.{there}
use cs439_pcs.Synch.{Machine}
use cs439_pcs.Synch.System.{Stage, outside, releasing, between, System, move}
use cs439_pcs.Synch.System.{stage}
use mathlib.Core.Path.{subst}

abbrev pub value : System → ℕ → ℕ
value s l = (s.machine.locks l).semaphore.value

abbrev pub holder : System → ℕ → ℕ
holder s l = (s.machine.locks l).holder

-- No thread is in a call with the semaphore of the lock down.
unfoldable pub NoneBetween : System → ℕ → Type 0
NoneBetween s l = (t : ℕ) → between l (s.stages t) ≡ false

-- The lock is free, or held by a thread, or down for one that is in a call.
pub data Owned (s : System) (l : ℕ) : Type 0 where
  free : value s l ≡ 1 → holder s l ≡ 0 → NoneBetween s l → Owned s l
  held : value s l ≡ 0 → holder s l ≢ 0 → NoneBetween s l → Owned s l
  passing :
      (owner : ℕ)
      → value s l ≡ 0
      → holder s l ≡ 0
      → between l (s.stages owner) ≡ true
      → ((t : ℕ) → t ≢ owner → between l (s.stages t) ≡ false)
      → Owned s l

pub moved :
    (s : System) (m : Machine) (g : Stage) (j t : ℕ)
    → between j g ≡ between j (stage s)
    → between j ((move s m g).stages t) ≡ between j (s.stages t)
moved s m g j t e = elim (Bool-cases (s.machine.kernel.current == t)) [
  | inl q ↦ rw q (e ∙ ap (λ u. between j (s.stages u)) ((==_iff _ _).0 q))
  | inr q ↦ rw q refl
]

-- Nothing that matters to the lock has changed.
pub keep :
    (s s' : System) (j : ℕ)
    → value s' j ≡ value s j
    → holder s' j ≡ holder s j
    → ((t : ℕ) → between j (s'.stages t) ≡ between j (s.stages t))
    → Owned s j
    → Owned s' j
unfolding NoneBetween
keep s s' j v h b (free v1 h1 n) = free (v ∙ v1) (h ∙ h1) (λ t. b t ∙ n t)
keep s s' j v h b (held v0 h1 n) = held (v ∙ v0) (λ z. h1 (sym h ∙ z)) (λ t. b t ∙ n t)
keep s s' j v h b (passing o v0 h0 i n) =
    passing o (v ∙ v0) (h ∙ h0) (b o ∙ i) (λ t ne. b t ∙ n t ne)

pub not_same : (a b : ℕ) → (a == b) ≡ false → a ≢ b
not_same a b q e = absurd (ground arith)

-- A step of the current thread on a lock, seen by each lock.
pub by_lock :
    (s : System) (m : Machine) (g : Stage) (l v h j : ℕ)
    → Changes s.machine m l v h
    → (l ≢ j → between j g ≡ between j (stage s))
    → (Owned s l → Owned (move s m g) l)
    → Owned s j
    → Owned (move s m g) j
by_lock s m g l v h j c b own o = elim (Bool-cases (l == j)) [
  | inl q ↦
      let e = (==_iff l j).0 q in subst (Owned (move s m g)) e (own (subst (Owned s) (sym e) o))
  | inr q ↦
      let ne : l ≢ j = not_same l j q in
      keep s (move s m g) j (c.others j ne).0 (c.others j ne).1 (λ t. moved s m g j t (b ne)) o
]

now : (s : System) (m : Machine) (g : Stage) → (move s m g).stages s.machine.kernel.current ≡ g
now s m g = rw (==_self s.machine.kernel.current) refl

others_stay :
    (s : System) (m : Machine) (g : Stage) (t : ℕ)
    → t ≢ s.machine.kernel.current
    → (move s m g).stages t ≡ s.stages t
others_stay s m g t n = rw (==_ne _ _ (λ e. n (sym e))) refl

pub clash : true ≡ false → ⊥
clash q = absurd (ground arith)

-- The current thread passes sema_down or sema_try_down of a lock that it finds up.
pub pass-Owned :
    (s : System) (m : Machine) (g : Stage) (l : ℕ)
    → between l g ≡ true
    → value s l ≢ 0
    → Changes s.machine m l (value s l - 1) (holder s l)
    → Owned s l
    → Owned (move s m g) l
unfolding NoneBetween between
pass-Owned s m g l b nz c (held v0 h1 n) = absurd (nz v0)
pass-Owned s m g l b nz c (passing o v0 h0 i n) = absurd (nz v0)
pass-Owned s m g l b nz c (free v1 h0 n) =
    passing s.machine.kernel.current (c.own_value ∙ omega (arith, v1)) (c.own_holder ∙ h0)
      (ap (between l) (now s m g) ∙ b) (λ t ne. ap (between l) (others_stay s m g t ne) ∙ n t)

pub owner_is :
    (s : System) (l t o : ℕ)
    → between l (s.stages t) ≡ true
    → ((u : ℕ) → u ≢ o → between l (s.stages u) ≡ false)
    → t ≡ o
owner_is s l t o i n = elim (Bool-cases (t == o)) [
  | inl q ↦ (==_iff t o).0 q
  | inr q ↦ absurd (clash (sym i ∙ n t (not_same t o q)))
]

-- The thread that has passed becomes the holder.
pub take-Owned :
    (s : System) (m : Machine) (l : ℕ)
    → between l (stage s) ≡ true
    → s.machine.kernel.current ≢ 0
    → Changes s.machine m l (value s l) s.machine.kernel.current
    → Owned s l
    → Owned (move s m outside) l
unfolding NoneBetween between
take-Owned s m l g nz c (free v1 h0 n) = absurd (clash (sym (g) ∙ n s.machine.kernel.current))
take-Owned s m l g nz c (held v0 h1 n) = absurd (clash (sym (g) ∙ n s.machine.kernel.current))
take-Owned s m l g nz c (passing o v0 h0 i n) =
    let is = owner_is s l s.machine.kernel.current o (g) n in
    held (c.own_value ∙ v0) (λ z. nz (sym c.own_holder ∙ z))
      (λ t. elim (Bool-cases (s.machine.kernel.current == t)) [
        | inl q ↦ rw q refl
        | inr q ↦ rw q (n t (λ e. not_same _ _ q (is ∙ sym e)))
      ])

-- The holder lets go of the lock, whose semaphore is still down.
pub release-Owned :
    (s : System) (m : Machine) (l : ℕ)
    → s.machine.kernel.current ≢ 0
    → holder s l ≡ s.machine.kernel.current
    → Changes s.machine m l (value s l) 0
    → Owned s l
    → Owned (move s m (releasing l)) l
unfolding NoneBetween between
release-Owned s m l there h c (free v1 h0 n) = absurd (there (sym h ∙ h0))
release-Owned s m l there h c (passing o v0 h0 i n) = absurd (there (sym h ∙ h0))
release-Owned s m l there h c (held v0 h1 n) =
    passing s.machine.kernel.current (c.own_value ∙ v0) c.own_holder
      (ap (between l) (now s m (releasing l)) ∙ ==_self l)
      (λ t ne. ap (between l) (others_stay s m (releasing l) t ne) ∙ n t)

-- The semaphore is up again.
pub up-Owned :
    (s : System) (m : Machine) (l : ℕ)
    → stage s ≡ releasing l
    → Changes s.machine m l ((value s l + 1) % word_mod) (holder s l)
    → Owned s l
    → Owned (move s m outside) l
unfolding NoneBetween between
up-Owned s m l g c (free v1 h0 n) =
    absurd (clash (sym (ap (between l) g ∙ ==_self l) ∙ n s.machine.kernel.current))
up-Owned s m l g c (held v0 h1 n) =
    absurd (clash (sym (ap (between l) g ∙ ==_self l) ∙ n s.machine.kernel.current))
up-Owned s m l g c (passing o v0 h0 i n) =
    let is = owner_is s l s.machine.kernel.current o (ap (between l) g ∙ ==_self l) n in
    free (c.own_value ∙ ap (λ v. (v + 1) % word_mod) v0) (c.own_holder ∙ h0) (λ t.
      elim (Bool-cases (s.machine.kernel.current == t)) [
        | inl q ↦ rw q refl
        | inr q ↦ rw q (n t (λ e. not_same _ _ q (is ∙ sym e)))
      ])

-- The lock stays as it is and so does the stage of every thread, as the lock sees it.
pub idle-Owned :
    (s : System) (m : Machine) (g : Stage) (l : ℕ)
    → between l g ≡ between l (stage s)
    → Changes s.machine m l (value s l) (holder s l)
    → Owned s l
    → Owned (move s m g) l
idle-Owned s m g l e c o = keep s (move s m g) l c.own_value c.own_holder (λ t. moved s m g l t e) o

pub apart : (l j : ℕ) → l ≢ j → (l == j) ≡ false
apart l j n = ==_ne l j n
