-- ===== src/Synch/Donation.antt =====
-- priority_donation of threads/synch.c ends, and what it does along a chain of threads that wait for
-- each other's locks.
use cs439_pcs.Base.Each.{Listed}
use cs439_pcs.Base.{ℕ, zero, suc, ◌+◌, ◌≤◌, ◌<◌, List, [], ◌∷◌, true, false, some}
use cs439_pcs.Base.{◌≡◌, ◌≢◌, refl, ap, sym, ◌∙◌, ◌⊎◌, inl, inr, arith, ◌==◌, if◌then◌else◌, length}
use cs439_pcs.Base.{Bool-cases, ==_iff, ==_self, ltb, ltb→lt}
use cs439_pcs.Thread.{Thread, thread_current}
use cs439_pcs.Synch.{Machine, put_thread, donation_loop, priority_donation}
use mathlib.Core.Path.{subst}

-- The elements whose number is below `p`.
lower : ℕ → (ℕ → ℕ) → List ℕ → ℕ
lower p q [] = 0
lower p q (x ∷ xs) = (if ltb (q x) p then 1 else 0) + lower p q xs

lower_bound : (p : ℕ) (q : ℕ → ℕ) (xs : List ℕ) → lower p q xs ≤ length xs
unfolding lower
lower_bound p q [] = omega arith
lower_bound p q (x ∷ xs) = elim (Bool-cases (ltb (q x) p)) [
  | inl h ↦ rw h (omega (arith, lower_bound p q xs))
  | inr h ↦ rw h (omega (arith, lower_bound p q xs))
]

-- One number raised to `p`.
abbrev raise : ℕ → ℕ → (ℕ → ℕ) → ℕ → ℕ
raise h p q u = if h == u then p else q u

not_below : (p : ℕ) → ltb p p ≡ false
not_below p = ground arith

lower-raise : (h p : ℕ) (q : ℕ → ℕ) (xs : List ℕ) → lower p (raise h p q) xs ≤ lower p q xs
unfolding lower
lower-raise h p q [] = omega arith
lower-raise h p q (x ∷ xs) =
    let ih = lower-raise h p q xs in
    elim (Bool-cases (h == x)) [
      | inl e ↦ rw (e, not_below p) (omega (arith, ih))
      | inr e ↦ rw e (omega (arith, ih))
    ]

lower_less :
    (h p : ℕ) (q : ℕ → ℕ) (xs : List ℕ)
    → Listed h xs
    → ltb (q h) p ≡ true
    → lower p (raise h p q) xs < lower p q xs
unfolding lower Listed
lower_less h p q [] m l = absurd m
lower_less h p q (x ∷ xs) (inl e) l =
    let ih = lower-raise h p q xs in rw (e, ==_self h, not_below p, l) (omega (arith, ih))
lower_less h p q (x ∷ xs) (inr m) l =
    let ih = lower_less h p q xs m l in
    elim (Bool-cases (h == x)) [
      | inl e ↦ rw (e, not_below p) (omega (arith, ih))
      | inr e ↦ rw e (omega (arith, ih))
    ]

abbrev pub prio : Machine → ℕ → ℕ
prio m u = (m.kernel.threads u).priority

-- The thread that holds a lock.
abbrev pub holder_of : Machine → ℕ → ℕ
holder_of m l = (m.locks l).holder

abbrev pub waits_for : Machine → ℕ → ℕ
waits_for m u = (m.kernel.threads u).try_lock

-- Every holder is one of all threads.
unfoldable pub HoldersListed : Machine → Type 0
HoldersListed m = (l : ℕ) → (holder_of m l ≡ 0) ⊎ Listed (holder_of m l) m.kernel.all_list

-- The thread's priority was below `p` and is `p` now.
unfoldable pub IsRaised : Machine → Machine → ℕ → ℕ → Type 0
IsRaised m m' p u = (prio m u < p) × (prio m' u ≡ p)

-- The holder of the lock that a thread waits for, if there is one, has at least the priority `p`.
unfoldable pub IsServed : Machine → Machine → ℕ → ℕ → Type 0
IsServed m m' p u =
    waits_for m u ≢ 0 → holder_of m (waits_for m u) ≢ 0 → p ≤ prio m' (holder_of m (waits_for m u))

-- A donation of the priority `p`: priorities apart, threads and locks are as they were; a priority
-- is raised to `p` or as it was; and whom a raised thread waits for has at least `p`.
pub record IsDonation (m m' : Machine) (p : ℕ) : Type 0 where
  pub locks : m'.locks ≡ m.locks
  pub threads : (u : ℕ) → m'.kernel.threads u ≡ record (m.kernel.threads u) { priority = prio m' u }
  pub all : m'.kernel.all_list ≡ m.kernel.all_list
  pub raised : (u : ℕ) → (prio m' u ≡ prio m u) ⊎ IsRaised m m' p u
  pub served : (u : ℕ) → IsRaised m m' p u → IsServed m m' p u

-- One thread raised.
abbrev lifted : Machine → ℕ → ℕ → Machine
lifted m h p = put_thread m h (record (m.kernel.threads h) { priority = p })

prio-lifted : (m : Machine) (h p u : ℕ) → prio (lifted m h p) u ≡ raise h p (prio m) u
prio-lifted m h p u = elim (Bool-cases (h == u)) [
  | inl q ↦ rw (prio, q) refl
  | inr q ↦ rw (prio, q) refl
]

lifted_self : (m : Machine) (h p : ℕ) → prio (lifted m h p) h ≡ p
lifted_self m h p = rw (prio, ==_self h) refl

lifted_other :
    (m : Machine) (h p u : ℕ)
    → (h == u) ≡ false
    → (lifted m h p).kernel.threads u ≡ m.kernel.threads u
lifted_other m h p u q = rw q refl

lifted_threads :
    (m : Machine) (h p u v : ℕ)
    → record ((lifted m h p).kernel.threads u) { priority = v }
      ≡ record (m.kernel.threads u) { priority = v }
lifted_threads m h p u v = elim (Bool-cases (h == u)) [
  | inl q ↦ rw q (ap (λ t. record (m.kernel.threads t) { priority = v }) ((==_iff h u).0 q))
  | inr q ↦ rw q refl
]

lower-lifted :
    (m : Machine) (h p : ℕ) (xs : List ℕ)
    → Listed h xs
    → ltb (prio m h) p ≡ true
    → lower p (prio (lifted m h p)) xs < lower p (prio m) xs
lower-lifted m h p xs listed l =
    let e : prio (lifted m h p) ≡ raise h p (prio m) = λ i u. prio-lifted m h p u i in
    subst (λ q. lower p q xs < lower p (prio m) xs) (sym e) (lower_less h p (prio m) xs listed l)

same-IsDonation : (m : Machine) (p : ℕ) → IsDonation m m p
unfolding IsRaised
same-IsDonation m p = record {
  locks = refl;
  threads = λ u. refl;
  all = refl;
  raised = λ u. inl refl;
  served = λ u (l, e). absurd (omega (arith, l, e));
}

final_prio : (m m' : Machine) (h p : ℕ) → IsDonation (lifted m h p) m' p → prio m' h ≡ p
unfolding IsRaised
final_prio m m' h p d = elim (d.raised h) [ inl e ↦ e ∙ lifted_self m h p | inr (l, e) ↦ e ]

lifted_waits : (m : Machine) (h p : ℕ) → waits_for (lifted m h p) h ≡ waits_for m h
lifted_waits m h p = rw (waits_for, ==_self h) refl

IsServed-there : (m m' : Machine) (h p : ℕ) → IsServed (lifted m h p) m' p h → IsServed m m' p h
unfolding IsServed
IsServed-there m m' h p s =
    subst (λ w. w ≢ 0 → holder_of m w ≢ 0 → p ≤ prio m' (holder_of m w)) (lifted_waits m h p) s

lifted-IsDonation :
    (m m' : Machine) (h p : ℕ)
    → prio m h < p
    → IsDonation (lifted m h p) m' p
    → IsServed (lifted m h p) m' p h
    → IsDonation m m' p
unfolding IsRaised IsServed
lifted-IsDonation m m' h p l d s = record {
  locks = d.locks;
  threads = λ u. d.threads u ∙ lifted_threads m h p u (prio m' u);
  all = d.all;
  raised = λ u. elim (Bool-cases (h == u)) [
    | inl q ↦
        let is = (==_iff h u).0 q in
        inr (subst (λ t. prio m t < p) is l, subst (λ t. prio m' t ≡ p) is (final_prio m m' h p d))
    | inr q ↦
        let same : prio (lifted m h p) u ≡ prio m u =
          ap (λ x. x.priority) (lifted_other m h p u q) in
        elim (d.raised u) [
          | inl e ↦ inl (e ∙ same)
          | inr (lt, e) ↦ inr (subst (λ n. n < p) same lt, e)
        ]
  ];
  served = λ u (lt, e). elim (Bool-cases (h == u)) [
    | inl q ↦ subst (λ t. IsServed m m' p t) ((==_iff h u).0 q) (IsServed-there m m' h p s)
    | inr q ↦
        let same = lifted_other m h p u q in
        let r = d.served u (subst (λ x. x.priority < p) (sym same) lt, e) in
        subst
          (λ (x : Thread).
            x.try_lock ≢ 0 → holder_of m x.try_lock ≢ 0 → p ≤ prio m' (holder_of m x.try_lock))
          same r
  ];
}

holder-Listed :
    (m : Machine) (h : ℕ)
    → (h ≡ 0) ⊎ Listed h m.kernel.all_list
    → (h == 0) ≡ false
    → Listed h m.kernel.all_list
holder-Listed m h (inl z) r = absurd (zero_is h z r)
  where
    zero_is : (n : ℕ) → n ≡ 0 → (n == 0) ≡ false → ⊥
    zero_is n z r = ground arith
holder-Listed m h (inr l) r = l

loop_from :
    (m : Machine) (h p : ℕ) (m' : Machine) (fuel : ℕ)
    → donation_loop fuel (lifted m h p) h (waits_for (lifted m h p) h) ≡ some m'
    → donation_loop fuel (lifted m h p) h (waits_for m h) ≡ some m'
loop_from m h p m' fuel r =
    subst (λ w. donation_loop fuel (lifted m h p) h w ≡ some m') (lifted_waits m h p) r

-- The loop of priority_donation on a thread that waits for a lock.
loop_donates :
    (fuel : ℕ) (m : Machine) (cur p : ℕ)
    → prio m cur ≡ p
    → HoldersListed m
    → lower p (prio m) m.kernel.all_list < fuel
    → (m' : Machine) × (donation_loop fuel m cur (waits_for m cur) ≡ some m')
      × IsDonation m m' p
      × IsServed m m' p cur
unfolding donation_loop HoldersListed IsServed
loop_donates zero m cur p e hs f = absurd (omega (arith, f))
loop_donates (suc fuel) m cur p e hs f =
    let l = waits_for m cur in
    let h = holder_of m l in
    elim (Bool-cases (l == 0)) [
      | inl q ↦ (m, rw q refl, same-IsDonation m p, λ w n. absurd (w ((==_iff l 0).0 q)))
      | inr q ↦ elim (Bool-cases (h == 0)) [
        | inl r ↦ (m, rw (q, r) refl, same-IsDonation m p, λ w n. absurd (n ((==_iff h 0).0 r)))
        | inr r ↦ elim (Bool-cases (ltb (prio m h) p)) [
          | inr t ↦ (m, rw (q, r, e, t) refl, same-IsDonation m p, λ w n. at_least (prio m h) p t)
          | inl t ↦
              let listed = holder-Listed m h (hs l) r in
              let (m', runs, d, s) =
                loop_donates fuel (lifted m h p) h p (lifted_self m h p) hs
                  (omega (arith, f, lower-lifted m h p m.kernel.all_list listed t)) in
              (
                m',
                rw (q, r, e, t) (loop_from m h p m' fuel runs),
                lifted-IsDonation m m' h p (ltb→lt _ _ t) d s,
                λ w n. omega (arith, final_prio m m' h p d),
              )
        ]
      ]
    ]
  where
    at_least : (a b : ℕ) → ltb a b ≡ false → b ≤ a
    at_least a b q = ground arith

-- If every holder of a lock is one of all threads, priority_donation ends, also where threads wait
-- for each other in a circle. It changes priorities only: one that was lower than the current
-- thread's may be raised to that, and all others are as they were. Afterwards the holder of the lock
-- that the current thread waits for has at least its priority, and so has the holder of the lock
-- that any raised thread waits for.
pub priority_donation-IsDonation :
    (m : Machine) (cur : ℕ)
    → thread_current m.kernel ≡ some cur
    → HoldersListed m
    → (m' : Machine) × (priority_donation m ≡ some m')
      × IsDonation m m' (prio m cur)
      × IsServed m m' (prio m cur) cur
unfolding priority_donation
priority_donation-IsDonation m cur c hs =
    let (m', runs, d, s) =
      loop_donates (suc (length m.kernel.all_list)) m cur (prio m cur) refl hs
        (omega (arith, lower_bound (prio m cur) (prio m) m.kernel.all_list)) in
    (m', rw c runs, d, s)
