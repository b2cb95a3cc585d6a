-- ===== src/Syscall/Table.antt =====
-- The list of descriptors of userprog/syscall.c as a table.
use cs439_pcs.Base.{ℕ, ◌+◌, ◌≤◌, ◌<◌, true, false, some, List, [], ◌∷◌, ◌++◌}
use cs439_pcs.Base.{◌≡◌, ◌≢◌, refl, ap, sym, ◌∙◌, inl, inr, arith, ◌==◌}
use cs439_pcs.Base.{Bool-cases, ==_iff, ==_self, ==_ne, some-none, some_eq}
use cs439_pcs.Base.Each.{Each, Distinct, Each-imp, Each-append}
use cs439_pcs.OpenFile.{OpenFile}
use cs439_pcs.Syscall.{FileProcess, Process, find_fd, remove_fd, store_file}
use mathlib.Core.Path.{subst}

clash : true ≡ false → ⊥
clash q = absurd (ground arith)

not_same : (a b : ℕ) → (a == b) ≡ false → a ≢ b
not_same a b q e = absurd (ground arith)

Distinct-append :
    (xs : List ℕ) (n : ℕ) → Each (λ m. m < n) xs → Distinct xs → Distinct (xs ++ n ∷ [])
unfolding Distinct Each
Distinct-append [] n e d = (tt, tt)
Distinct-append (x ∷ xs) n e d = (
  Each-append (λ y. y ≢ x) xs (n ∷ []) d.0 ((λ q. omega (arith, q, e.0)), tt),
  Distinct-append xs n e.1 d.1,
)

module _ {Dir : Type 0} where
  abbrev pub fds : List (FileProcess Dir) → List ℕ
  fds [] = []
  fds (fp ∷ fps) = fp.fd ∷ fds fps

  -- Descriptors are distinct, at least 2, and below the next one.
  pub record IsFdTable (p : Process Dir) : Type 0 where
    pub past_console : 2 ≤ p.fd
    pub in_range : Each (λ n. (2 ≤ n) × (n < p.fd)) (fds p.file_list)
    pub distinct : Distinct (fds p.file_list)

  fds-append :
      (fps : List (FileProcess Dir)) (fp : FileProcess Dir)
      → fds (fps ++ fp ∷ []) ≡ fds fps ++ fp.fd ∷ []
  fds-append [] fp = refl
  fds-append (x ∷ fps) fp = ap (λ l. x.fd ∷ l) (fds-append fps fp)

  pub fds-store_file :
      (fps : List (FileProcess Dir)) (n : ℕ) (f : OpenFile) → fds (store_file fps n f) ≡ fds fps
  unfolding store_file
  fds-store_file [] n f = refl
  fds-store_file (fp ∷ fps) n f = elim (Bool-cases (fp.fd == n)) [
    | inl q ↦ rw q refl
    | inr q ↦ rw q (ap (λ l. fp.fd ∷ l) (fds-store_file fps n f))
  ]

  Each-remove_fd :
      (P : ℕ → Type 0) (fps : List (FileProcess Dir)) (n : ℕ)
      → Each P (fds fps)
      → Each P (fds (remove_fd fps n))
  unfolding remove_fd Each
  Each-remove_fd P [] n e = e
  Each-remove_fd P (fp ∷ fps) n e = elim (Bool-cases (fp.fd == n)) [
    | inl q ↦ rw q e.1
    | inr q ↦ rw q (e.0, Each-remove_fd P fps n e.1)
  ]

  Distinct-remove_fd :
      (fps : List (FileProcess Dir)) (n : ℕ) → Distinct (fds fps) → Distinct (fds (remove_fd fps n))
  unfolding remove_fd Distinct
  Distinct-remove_fd [] n d = d
  Distinct-remove_fd (fp ∷ fps) n d = elim (Bool-cases (fp.fd == n)) [
    | inl q ↦ rw q d.1
    | inr q ↦ rw q (Each-remove_fd (λ y. y ≢ fp.fd) fps n d.0, Distinct-remove_fd fps n d.1)
  ]

  -- A new entry under the next descriptor.
  pub added-IsFdTable :
      (p : Process Dir) (fp : FileProcess Dir)
      → IsFdTable p
      → fp.fd ≡ p.fd
      → IsFdTable (record { fd = p.fd + 1; file_list = p.file_list ++ fp ∷ [] })
  unfolding Each
  added-IsFdTable p fp t e =
      let more : Each (λ n. (2 ≤ n) × (n < p.fd + 1)) (fds p.file_list ++ fp.fd ∷ []) =
        Each-append (λ n. (2 ≤ n) × (n < p.fd + 1)) (fds p.file_list) (fp.fd ∷ [])
          (Each-imp (λ n. (2 ≤ n) × (n < p.fd)) (λ n. (2 ≤ n) × (n < p.fd + 1)) (fds p.file_list)
            (λ n (a, b). (a, omega (arith, b))) t.in_range)
          ((omega (arith, t.past_console, e), omega (arith, e)), tt) in
      let below : Each (λ n. n < fp.fd) (fds p.file_list) =
        Each-imp (λ n. (2 ≤ n) × (n < p.fd)) (λ n. n < fp.fd) (fds p.file_list)
          (λ n (a, b). omega (arith, b, e)) t.in_range in
      let list = sym (fds-append p.file_list fp) in
      record {
        past_console = omega (arith, t.past_console);
        in_range = subst (Each (λ n. (2 ≤ n) × (n < p.fd + 1))) list more;
        distinct = subst Distinct list (Distinct-append (fds p.file_list) fp.fd below t.distinct);
      }

  pub removed-IsFdTable :
      (p : Process Dir) (n : ℕ)
      → IsFdTable p
      → IsFdTable (record p { file_list = remove_fd p.file_list n })
  removed-IsFdTable p n t = record {
    past_console = t.past_console;
    in_range = Each-remove_fd (λ n. (2 ≤ n) × (n < p.fd)) p.file_list n t.in_range;
    distinct = Distinct-remove_fd p.file_list n t.distinct;
  }

  pub stored-IsFdTable :
      (p : Process Dir) (n : ℕ) (f : OpenFile)
      → IsFdTable p
      → IsFdTable (record p { file_list = store_file p.file_list n f })
  stored-IsFdTable p n f t =
      let list = sym (fds-store_file p.file_list n f) in
      record {
        past_console = t.past_console;
        in_range = subst (Each (λ n. (2 ≤ n) × (n < p.fd))) list t.in_range;
        distinct = subst Distinct list t.distinct;
      }

  -- What find_fd finds in a longer, a shorter and a changed list.
  pub find_fd-append_new :
      (fps : List (FileProcess Dir)) (fp : FileProcess Dir)
      → Each (λ n. n ≢ fp.fd) (fds fps)
      → find_fd (fps ++ fp ∷ []) fp.fd ≡ some fp
  unfolding find_fd Each
  find_fd-append_new [] fp e = rw (==_self fp.fd) refl
  find_fd-append_new (x ∷ fps) fp e = rw (==_ne _ _ e.0) (find_fd-append_new fps fp e.1)

  pub find_fd-append_old :
      (fps : List (FileProcess Dir)) (fp : FileProcess Dir) (m : ℕ)
      → m ≢ fp.fd
      → find_fd (fps ++ fp ∷ []) m ≡ find_fd fps m
  unfolding find_fd
  find_fd-append_old [] fp m n = rw (==_ne fp.fd m (λ e. n (sym e))) refl
  find_fd-append_old (x ∷ fps) fp m n = elim (Bool-cases (x.fd == m)) [
    | inl q ↦ rw q refl
    | inr q ↦ rw q (find_fd-append_old fps fp m n)
  ]

  pub remove_fd-append :
      (fps : List (FileProcess Dir)) (fp : FileProcess Dir)
      → Each (λ n. n ≢ fp.fd) (fds fps)
      → remove_fd (fps ++ fp ∷ []) fp.fd ≡ fps
  unfolding remove_fd Each
  remove_fd-append [] fp e = rw (==_self fp.fd) refl
  remove_fd-append (x ∷ fps) fp e =
      rw (==_ne _ _ e.0) (ap (λ l. x ∷ l) (remove_fd-append fps fp e.1))

  pub find_fd-fd :
      (fps : List (FileProcess Dir)) (n : ℕ) (fp : FileProcess Dir)
      → find_fd fps n ≡ some fp
      → fp.fd ≡ n
  unfolding find_fd
  find_fd-fd [] n fp e = absurd (some-none (sym e))
  find_fd-fd (x ∷ fps) n fp e = elim (Bool-cases (x.fd == n)) [
    | inl q ↦ sym (ap (λ (y : FileProcess Dir). y.fd) (some_eq (rw q at e))) ∙ (==_iff _ _).0 q
    | inr q ↦ find_fd-fd fps n fp (rw q at e)
  ]

  pub find_fd-store_file :
      (fps : List (FileProcess Dir)) (n : ℕ) (fp : FileProcess Dir) (f : OpenFile)
      → find_fd fps n ≡ some fp
      → find_fd (store_file fps n f) n ≡ some (record fp { file = f })
  unfolding find_fd store_file
  find_fd-store_file [] n fp f e = absurd (some-none (sym e))
  find_fd-store_file (x ∷ fps) n fp f e = elim (Bool-cases (x.fd == n)) [
    | inl q ↦
        rw (q, q) (ap (λ (y : FileProcess Dir). some (record y { file = f })) (some_eq (rw q at e)))
    | inr q ↦ rw (q, q) (find_fd-store_file fps n fp f (rw q at e))
  ]
