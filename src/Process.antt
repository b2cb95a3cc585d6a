-- ===== src/Process.antt =====
-- userprog/process.c: the stack on which a user program starts. `none` is a fault: below the one page
-- of the stack nothing is mapped.
pub mod Memory
pub mod Arguments
pub mod Start
pub mod Tests
use cs439_pcs.Base.{ℕ, ◌+◌, ◌-◌, ◌*◌, ◌/◌, ◌%◌, Bool, true, false, Option, none, some}
use cs439_pcs.Base.{List, [], ◌∷◌, ◌++◌}
use cs439_pcs.Base.{leb, ltb, ◌==◌, ◌&&◌, if◌then◌else◌, length, replicate, ◌>>=◌, ◌>>◌}

abbrev pub phys_base : ℕ
phys_base = 3221225472

abbrev pub page_size : ℕ
page_size = 4096

abbrev pub max_args_size : ℕ
max_args_size = 4096

abbrev pub stack_page : ℕ
stack_page = phys_base - page_size

-- The stack pointer *esp and the bytes of user memory by their addresses.
pub record Stack : Type 0 where
  pub esp : ℕ
  pub memory : ℕ → ℕ

unfoldable pub store_bytes : (ℕ → ℕ) → ℕ → List ℕ → ℕ → ℕ
store_bytes memory at [] = memory
store_bytes memory at (b ∷ bs) = λ k. if k == at then b else store_bytes memory (at + 1) bs k

-- *esp -= n, and memcpy of n bytes to *esp.
unfoldable pub push : Stack → List ℕ → Option Stack
push st bs =
    let esp = st.esp - length bs in
    if ltb st.esp (stack_page + length bs)
    then none
    else some (record { esp = esp; memory = store_bytes st.memory esp bs })

-- The bytes of a 32-bit word, the lowest first.
unfoldable pub word_bytes : ℕ → List ℕ
word_bytes w = w % 256 ∷ w / 256 % 256 ∷ w / 65536 % 256 ∷ w / 16777216 % 256 ∷ []

-- A round of the first loop of setup_stack. The Boolean tells whether the loop goes on; the list is
-- the array `address` from the index on.
unfoldable pub push_arg : List ℕ → Bool × List ℕ × Stack → Option (Bool × List ℕ × Stack)
push_arg arg (false, address, st) = some (false, address, st)
push_arg arg (true, address, st) =
    let len_arg = length arg + 1 in
    let esp = st.esp - len_arg in
    let pushed = (push st (arg ++ 0 ∷ []) >>= λ st'. some (true, esp ∷ address, st')) in
    if ltb max_args_size (phys_base - esp)
    then some (false, esp ∷ address, record st { esp = esp })
    else pushed

-- The first loop, from the last argument to the first.
unfoldable pub push_args : List (List ℕ) → Stack → Option (Bool × List ℕ × Stack)
push_args [] st = some (true, [], st)
push_args (arg ∷ args) st = push_args args st >>= λ r. push_arg arg r

-- The second loop, from the last word to the first.
unfoldable pub push_words : List ℕ → Stack → Option Stack
push_words [] st = some st
push_words (w ∷ ws) st = push_words ws st >>= λ st'. push st' (word_bytes w)

unfoldable pub push_align : Stack → Option Stack
push_align st = push st (replicate (st.esp % 4) 0)

-- setup_stack behind the first loop.
unfoldable pub finish_stack : ℕ → Bool × List ℕ × Stack → Option (Bool × Stack)
finish_stack argc (false, address, st) = some (false, st)
finish_stack argc (true, address, st) = do
  aligned ← push_align st
  table ← push_words (address ++ 0 ∷ []) aligned
  st1 ← push table (word_bytes table.esp)
  st2 ← push st1 (word_bytes argc)
  st3 ← push st2 (word_bytes 0)
  some (true, st3)

-- `kpage` tells whether palloc_get_page gave a page, and `installed` what install_page returned.
unfoldable pub setup_stack : Bool → Bool → Stack → List (List ℕ) → Option (Bool × Stack)
setup_stack kpage installed st argv =
    let zeroed : ℕ → ℕ = λ k. if leb stack_page k && ltb k phys_base then 0 else st.memory k in
    let built =
      (push_args argv (record { esp = phys_base; memory = zeroed }) >>= λ r.
      finish_stack (length argv) r) in
    if kpage && installed then built else some (false, st)
