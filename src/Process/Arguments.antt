-- ===== src/Process/Arguments.antt =====
-- What setup_stack of userprog/process.c leaves on the stack of a new program.
use cs439_pcs.Base.{ℕ, ◌+◌, ◌-◌, ◌*◌, ◌≤◌, ◌<◌, true, false, some}
use cs439_pcs.Base.{List, [], ◌∷◌, ◌++◌, ◌≡◌, refl, ap, sym, ◌∙◌, arith}
use cs439_pcs.Base.{ltb, length, ◌>>=◌}
use cs439_pcs.Base.{length-append}
use cs439_pcs.Process.{Stack, phys_base, stack_page, push, word_bytes, push_arg, push_args}
use cs439_pcs.Process.{push_words, max_args_size}
use cs439_pcs.Process.Memory.{Holds, Extends, Extends-trans, Holds-same, push-Pushes}
use mathlib.Core.Path.{subst}

-- The 32-bit word at an address.
unfoldable pub word_at : (ℕ → ℕ) → ℕ → ℕ
word_at memory a =
    memory a + 256 * memory (a + 1) + 65536 * memory (a + 1 + 1) + 16777216 * memory (a + 1 + 1 + 1)

word_at-word_bytes :
    (memory : ℕ → ℕ) (a w : ℕ)
    → w < 4294967296
    → Holds memory a (word_bytes w)
    → word_at memory a ≡ w
unfolding word_at Holds word_bytes
word_at-word_bytes memory a w h e = rw (e.0, e.1.0, e.1.1.0, e.1.1.1.0) (omega (arith, h))

pub word_at-same :
    (st st' : Stack) (a : ℕ)
    → Extends st st'
    → st.esp ≤ a
    → word_at st'.memory a ≡ word_at st.memory a
unfolding word_at
word_at-same st st' a e h =
    rw
      (
        e.kept a h,
        e.kept (a + 1) (omega arith),
        e.kept (a + 1 + 1) (omega arith),
        e.kept (a + 1 + 1 + 1) (omega arith),
      )
      refl

-- The bytes that the arguments take, with their ends.
unfoldable pub args_size : List (List ℕ) → ℕ
args_size [] = 0
args_size (arg ∷ args) = length arg + 1 + args_size args

-- Each address is that of its argument, on the stack.
unfoldable pub Placed : Stack → List ℕ → List (List ℕ) → Type 0
Placed st [] [] = Unit {0}
Placed st [] (arg ∷ args) = ⊥
Placed st (a ∷ address) [] = ⊥
Placed st (a ∷ address) (arg ∷ args) =
    Holds st.memory a (arg ++ 0 ∷ []) × (st.esp ≤ a) × (a < phys_base) × Placed st address args

pub Placed-Extends :
    (st st' : Stack) (address : List ℕ) (args : List (List ℕ))
    → Extends st st'
    → Placed st address args
    → Placed st' address args
unfolding Placed
Placed-Extends st st' [] [] e p = tt
Placed-Extends st st' [] (arg ∷ args) e p = p
Placed-Extends st st' (a ∷ address) [] e p = p
Placed-Extends st st' (a ∷ address) (arg ∷ args) e (h, le, lt, p) =
    let down = e.down in
    (
      Holds-same st.memory st'.memory a st.esp (arg ++ 0 ∷ []) le e.kept h,
      omega (arith, le, down),
      lt,
      Placed-Extends st st' address args e p,
    )

-- The words stand in memory from the address on.
unfoldable pub Words : (ℕ → ℕ) → ℕ → List ℕ → Type 0
Words memory a [] = Unit {0}
Words memory a (w ∷ ws) = (word_at memory a ≡ w) × Words memory (a + 4) ws

pub Words-same :
    (st st' : Stack) (a : ℕ) (ws : List ℕ)
    → Extends st st'
    → st.esp ≤ a
    → Words st.memory a ws
    → Words st'.memory a ws
unfolding Words
Words-same st st' a [] e h w = tt
Words-same st st' a (x ∷ ws) e h w =
    (word_at-same st st' a e h ∙ w.0, Words-same st st' (a + 4) ws e (omega arith) w.1)

-- The first loop has gone through, and each argument is on the stack.
pub record Pushed (args : List (List ℕ)) (st0 : Stack) (address : List ℕ) (st : Stack)
    : Type 0 where
  pub runs : push_args args st0 ≡ some (true, address, st)
  pub size : st.esp + args_size args ≡ phys_base
  pub placed : Placed st address args

push_arg_runs :
    (arg : List ℕ) (address : List ℕ) (st st' : Stack)
    → phys_base ≤ st.esp + max_args_size - (length arg + 1)
    → st'.esp + (length arg + 1) ≡ st.esp
    → push st (arg ++ 0 ∷ []) ≡ some st'
    → push_arg arg (true, address, st) ≡ some (true, st'.esp ∷ address, st')
unfolding push_arg
push_arg_runs arg address st st' fit size run =
    let low : ltb max_args_size (phys_base - (st.esp - (length arg + 1))) ≡ false = ground arith in
    let is : st.esp - (length arg + 1) ≡ st'.esp = omega (arith, size) in rw (low, run, is) refl

pub push_args-Pushed :
    (args : List (List ℕ)) (st0 : Stack)
    → st0.esp ≡ phys_base
    → args_size args ≤ max_args_size
    → (address : List ℕ) × (st : Stack) × Pushed args st0 address st
unfolding push_args args_size Placed
push_args-Pushed [] st0 top h =
    ([], st0, record { runs = refl; size = omega (arith, top); placed = tt })
push_args-Pushed (arg ∷ args) st0 top h =
    let (address, st, p) = push_args-Pushed args st0 top (omega arith) in
    let rest = p.size in
    let long : length (arg ++ 0 ∷ []) ≡ length arg + 1 = length-append arg (0 ∷ []) in
    let (st', q) = push-Pushes st (arg ++ 0 ∷ []) (omega (arith, long, rest, h)) in
    let size = q.size in
    let down : st'.esp + (length arg + 1) ≡ st.esp = omega (arith, long, size) in
    (
      st'.esp ∷ address,
      st',
      record {
        runs =
            ap (λ o. o >>= λ r. push_arg arg r) p.runs
            ∙ push_arg_runs arg address st st' (omega (arith, rest, h)) down q.runs;
        size = omega (arith, rest, down);
        placed = (
          q.holds,
          omega arith,
          omega (arith, rest, down),
          Placed-Extends st st' address args q.extends p.placed,
        );
      },
    )

-- The second loop has put the words on the stack.
pub record Tabled (ws : List ℕ) (st st' : Stack) : Type 0 where
  pub runs : push_words ws st ≡ some st'
  pub size : st'.esp + 4 * length ws ≡ st.esp
  pub words : Words st'.memory st'.esp ws
  pub extends : Extends st st'

-- A word pushed.
pub push_word :
    (st : Stack) (w : ℕ)
    → stack_page + 4 ≤ st.esp
    → w < 4294967296
    → (st' : Stack) × (push st (word_bytes w) ≡ some st')
      × (st'.esp + 4 ≡ st.esp)
      × (word_at st'.memory st'.esp ≡ w)
      × Extends st st'
unfolding word_bytes
push_word st w h lt =
    let (st', q) = push-Pushes st (word_bytes w) h in
    (st', q.runs, q.size, word_at-word_bytes st'.memory st'.esp w lt q.holds, q.extends)

-- Each word is below 2 ^ 32.
unfoldable pub AreWords : List ℕ → Type 0
AreWords [] = Unit {0}
AreWords (w ∷ ws) = (w < 4294967296) × AreWords ws

pub push_words-Tabled :
    (ws : List ℕ) (st : Stack)
    → AreWords ws
    → stack_page + 4 * length ws ≤ st.esp
    → (st' : Stack) × Tabled ws st st'
unfolding push_words AreWords Words
push_words-Tabled [] st a h = (
  st,
  record {
    runs = refl;
    size = omega arith;
    words = tt;
    extends = record { down = omega arith; kept = λ k le. refl };
  },
)
push_words-Tabled (w ∷ ws) st a h =
    let (st1, t) = push_words-Tabled ws st a.1 (omega arith) in
    let size1 = t.size in
    let (st2, run, size, is, e) = push_word st1 w (omega (arith, size1, h)) a.0 in
    let up : st2.esp + 4 ≡ st1.esp = size in
    (
      st2,
      record {
        runs = ap (λ o. o >>= λ x. push x (word_bytes w)) t.runs ∙ run;
        size = omega (arith, size1, size);
        words = (
          is,
          subst (λ a. Words st2.memory a ws) (sym up)
              (Words-same st1 st2 st1.esp ws e (omega arith) t.words),
        );
        extends = Extends-trans st st1 st2 t.extends e;
      },
    )
