-- ===== src/Process/Start.antt =====
-- The stack on which a user program starts, as setup_stack of userprog/process.c leaves it.
use cs439_pcs.Base.{ℕ, suc, ◌+◌, ◌*◌, ◌%◌, ◌≤◌, ◌<◌, true, some}
use cs439_pcs.Base.{List, [], ◌∷◌, ◌++◌, ◌≡◌, refl, ap, sym, ◌∙◌, arith}
use cs439_pcs.Base.{leb, ltb, ◌&&◌, if◌then◌else◌, length, replicate, ◌>>=◌}
use cs439_pcs.Base.{length-append, length-replicate}
use cs439_pcs.Process.{Stack, phys_base, stack_page, page_size, push, word_bytes}
use cs439_pcs.Process.{push_words, push_align, finish_stack, setup_stack}
use cs439_pcs.Process.Memory.{Holds, Extends, Extends-trans, push-Pushes}
use cs439_pcs.Process.Arguments.{word_at, word_at-same, args_size, Placed, Placed-Extends, Words}
use cs439_pcs.Process.Arguments.{Words-same, push_args-Pushed, push_word, AreWords}
use cs439_pcs.Process.Arguments.{push_words-Tabled}
use mathlib.Core.Path.{subst}

-- A table of addresses of the arguments, each of which ends with a zero, behind which a null pointer
-- stands.
unfoldable pub Points : (ℕ → ℕ) → ℕ → List (List ℕ) → Type 0
Points memory a [] = word_at memory a ≡ 0
Points memory a (arg ∷ args) =
    Holds memory (word_at memory a) (arg ++ 0 ∷ []) × Points memory (a + 4) args

-- The stack that main is called on: from the stack pointer on there are a return address, argc and
-- argv.
pub record IsStartStack (argv : List (List ℕ)) (st : Stack) : Type 0 where
  pub aligned : st.esp % 4 ≡ 0
  pub return_address : word_at st.memory st.esp ≡ 0
  pub argc : word_at st.memory (st.esp + 4) ≡ length argv
  pub table : word_at st.memory (st.esp + 8) ≡ st.esp + 12
  pub arguments : Points st.memory (st.esp + 12) argv

Words-Points :
    (st : Stack) (a : ℕ) (address : List ℕ) (args : List (List ℕ))
    → Placed st address args
    → Words st.memory a (address ++ 0 ∷ [])
    → Points st.memory a args
unfolding Placed Words Points
Words-Points st a [] [] p w = w.0
Words-Points st a [] (arg ∷ args) p w = absurd p
Words-Points st a (x ∷ address) [] p w = absurd p
Words-Points st a (x ∷ address) (arg ∷ args) (h, _, _, p) w = (
  subst (λ b. Holds st.memory b (arg ++ 0 ∷ [])) (sym w.0) h,
  Words-Points st (a + 4) address args p w.1,
)

Placed-AreWords :
    (st : Stack) (address : List ℕ) (args : List (List ℕ))
    → Placed st address args
    → AreWords (address ++ 0 ∷ [])
unfolding Placed AreWords
Placed-AreWords st [] args p = (omega arith, tt)
Placed-AreWords st (x ∷ address) [] p = absurd p
Placed-AreWords st (x ∷ address) (arg ∷ args) (_, _, lt, p) =
    (omega (arith, lt), Placed-AreWords st address args p)

length-Placed :
    (st : Stack) (address : List ℕ) (args : List (List ℕ))
    → Placed st address args
    → length address ≡ length args
unfolding Placed
length-Placed st [] [] p = refl
length-Placed st [] (arg ∷ args) p = absurd p
length-Placed st (x ∷ address) [] p = absurd p
length-Placed st (x ∷ address) (arg ∷ args) (_, _, _, p) = ap suc (length-Placed st address args p)

-- The stack pointer put on a multiple of four.
push_align_runs :
    (st : Stack)
    → stack_page + 3 ≤ st.esp
    → (st' : Stack) × (push_align st ≡ some st')
      × (st'.esp % 4 ≡ 0)
      × (st.esp ≤ st'.esp + 3)
      × Extends st st'
unfolding push_align
push_align_runs st h =
    let few = length-replicate {A = ℕ} (st.esp % 4) 0 in
    let (st', p) = push-Pushes st (replicate (st.esp % 4) 0) (omega (arith, few, h)) in
    let size = p.size in
    (st', p.runs, omega (arith, few, size), omega (arith, few, size), p.extends)

finish_chain :
    (argc : ℕ) (address : List ℕ) (st st0 st1 st2 st3 st4 : Stack)
    → push_align st ≡ some st0
    → push_words (address ++ 0 ∷ []) st0 ≡ some st1
    → push st1 (word_bytes st1.esp) ≡ some st2
    → push st2 (word_bytes argc) ≡ some st3
    → push st3 (word_bytes 0) ≡ some st4
    → finish_stack argc (true, address, st) ≡ some (true, st4)
unfolding finish_stack
finish_chain argc address st st0 st1 st2 st3 st4 a b c d e = rw a (rw b (rw c (rw d (rw e refl))))

-- What the stores behind the first loop leave.
finish_runs :
    (argc : ℕ) (argv : List (List ℕ)) (address : List ℕ) (st : Stack)
    → Placed st address argv
    → argc ≡ length argv
    → argc < 4294967296
    → st.esp ≤ phys_base
    → stack_page + 4 * argc + 19 ≤ st.esp
    → (st' : Stack) × (finish_stack argc (true, address, st) ≡ some (true, st'))
      × IsStartStack argv st'
finish_runs argc argv address st p is lt top h =
    let count = length-Placed st address argv p in
    let long = length-append address (0 ∷ []) in
    let (st0, run0, even, near, e0) = push_align_runs st (omega (arith, h)) in
    let (st1, t) =
      push_words-Tabled (address ++ 0 ∷ []) st0 (Placed-AreWords st address argv p)
        (omega (arith, h, near, count, long, is)) in
    let size1 = t.size in
    let below = e0.down in
    let (st2, run2, size2, is2, e2) =
      push_word st1 st1.esp (omega (arith, h, near, count, long, is, size1))
        (omega (arith, below, top, size1)) in
    let (st3, run3, size3, is3, e3) =
      push_word st2 argc (omega (arith, h, near, count, long, is, size1, size2)) lt in
    let (st4, run4, size4, is4, e4) =
      push_word st3 0 (omega (arith, h, near, count, long, is, size1, size2, size3))
        (omega arith) in
    let e24 = Extends-trans st2 st3 st4 e3 e4 in
    let e14 = Extends-trans st1 st2 st4 e2 e24 in
    let e04 = Extends-trans st st0 st4 e0 (Extends-trans st0 st1 st4 t.extends e14) in
    let at3 : st4.esp + 4 ≡ st3.esp = size4 in
    let at2 : st4.esp + 8 ≡ st2.esp = omega (arith, size3, size4) in
    let at1 : st4.esp + 12 ≡ st1.esp = omega (arith, size2, size3, size4) in
    (
      st4,
      finish_chain argc address st st0 st1 st2 st3 st4 run0 t.runs run2 run3 run4,
      record {
        aligned = omega (arith, even, size1, size2, size3, size4);
        return_address = is4;
        argc = rw at3 (word_at-same st3 st4 st3.esp e4 (omega arith) ∙ is3 ∙ is);
        table = rw at2 (word_at-same st2 st4 st2.esp e24 (omega arith) ∙ is2 ∙ sym at1);
        arguments =
            subst (λ a. Points st4.memory a argv) (sym at1)
              (Words-Points st4 st1.esp address argv (Placed-Extends st st4 address argv e04 p)
                (Words-same st1 st4 st1.esp (address ++ 0 ∷ []) e14 (omega arith) t.words));
      },
    )

args_size_top : (args : List (List ℕ)) → length args ≤ args_size args
unfolding args_size
args_size_top [] = omega arith
args_size_top (arg ∷ args) = omega (arith, args_size_top args)

-- With a page for the stack that is mapped, and arguments that fit into it beside their addresses,
-- setup_stack returns true, and the stack is one to start main on: the stack pointer is a multiple of
-- four; at it are a null return address, the number of arguments, and the address of a table right
-- behind; and the table has, in order, the address of each argument's bytes with a zero behind them,
-- and then a null pointer.
pub setup_stack-IsStartStack :
    (argv : List (List ℕ)) (st : Stack)
    → args_size argv + 4 * length argv + 19 ≤ page_size
    → (st' : Stack) × (setup_stack true true st argv ≡ some (true, st')) × IsStartStack argv st'
unfolding setup_stack
setup_stack-IsStartStack argv st h =
    let zeroed : ℕ → ℕ = λ k. if leb stack_page k && ltb k phys_base then 0 else st.memory k in
    let (address, st1, p) =
      push_args-Pushed argv (record { esp = phys_base; memory = zeroed }) refl (omega (arith, h)) in
    let size = p.size in
    let few = args_size_top argv in
    let (st2, run, good) =
      finish_runs (length argv) argv address st1 p.placed refl (omega (arith, h, few))
        (omega (arith, size)) (omega (arith, h, size)) in
    (st2, ap (λ o. o >>= λ r. finish_stack (length argv) r) p.runs ∙ run, good)
