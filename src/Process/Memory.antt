-- ===== src/Process/Memory.antt =====
-- The user memory that setup_stack of userprog/process.c stores to, downwards from the top.
use cs439_pcs.Base.{ℕ, ◌+◌, ◌-◌, ◌≤◌, false, some}
use cs439_pcs.Base.{List, [], ◌∷◌, ◌≡◌, refl, ◌∙◌, arith}
use cs439_pcs.Base.{ltb, length}
use cs439_pcs.Base.{==_ne, ==_self}
use cs439_pcs.Process.{Stack, stack_page, store_bytes, push}

-- The bytes stand in memory from the address on.
unfoldable pub Holds : (ℕ → ℕ) → ℕ → List ℕ → Type 0
Holds memory a [] = Unit {0}
Holds memory a (b ∷ bs) = (memory a ≡ b) × Holds memory (a + 1) bs

-- The stack has grown down to the second state, and what was on it is there still.
pub record Extends (st st' : Stack) : Type 0 where
  pub down : st'.esp ≤ st.esp
  pub kept : (k : ℕ) → st.esp ≤ k → st'.memory k ≡ st.memory k

pub Extends-trans : (a b c : Stack) → Extends a b → Extends b c → Extends a c
Extends-trans a b c e f =
    let e_down = e.down in
    let f_down = f.down in
    record { down = omega arith; kept = λ k h. f.kept k (omega arith) ∙ e.kept k h }

store_bytes_above :
    (memory : ℕ → ℕ) (at : ℕ) (bs : List ℕ) (k : ℕ)
    → at + length bs ≤ k
    → store_bytes memory at bs k ≡ memory k
unfolding store_bytes
store_bytes_above memory at [] k h = refl
store_bytes_above memory at (b ∷ bs) k h =
    rw (==_ne k at (λ e. absurd (omega (arith, e, h))))
      (store_bytes_above memory (at + 1) bs k (omega arith))

pub Holds-same :
    (memory memory' : ℕ → ℕ) (a lo : ℕ) (bs : List ℕ)
    → lo ≤ a
    → ((k : ℕ) → lo ≤ k → memory' k ≡ memory k)
    → Holds memory a bs
    → Holds memory' a bs
unfolding Holds
Holds-same memory memory' a lo [] h same e = tt
Holds-same memory memory' a lo (b ∷ bs) h same e =
    (same a h ∙ e.0, Holds-same memory memory' (a + 1) lo bs (omega arith) same e.1)

store_bytes-Holds : (memory : ℕ → ℕ) (at : ℕ) (bs : List ℕ) → Holds (store_bytes memory at bs) at bs
unfolding Holds store_bytes
store_bytes-Holds memory at [] = tt
store_bytes-Holds memory at (b ∷ bs) = (
  rw (==_self at) refl,
  Holds-same (store_bytes memory (at + 1) bs) (store_bytes memory at (b ∷ bs)) (at + 1) (at + 1) bs
      (omega arith) (λ k h. rw (==_ne k at (λ e. absurd (omega (arith, e, h)))) refl)
      (store_bytes-Holds memory (at + 1) bs),
)

-- A push within the page of the stack.
pub record Pushes (st : Stack) (bs : List ℕ) (st' : Stack) : Type 0 where
  pub runs : push st bs ≡ some st'
  pub size : st'.esp + length bs ≡ st.esp
  pub holds : Holds st'.memory st'.esp bs
  pub extends : Extends st st'

pub push-Pushes :
    (st : Stack) (bs : List ℕ) → stack_page + length bs ≤ st.esp → (st' : Stack) × Pushes st bs st'
unfolding push
push-Pushes st bs h =
    let esp = st.esp - length bs in
    let fits : ltb st.esp (stack_page + length bs) ≡ false = ground arith in
    (
      record { esp = esp; memory = store_bytes st.memory esp bs },
      record {
        runs = rw fits refl;
        size = omega arith;
        holds = store_bytes-Holds st.memory esp bs;
        extends = record {
          down = omega arith;
          kept = λ k le. store_bytes_above st.memory esp bs k (omega arith);
        };
      },
    )
