-- ===== src/Process/Tests.antt =====
-- The stack of a program with two arguments.
use cs439_pcs.Base.{ℕ, ◌+◌, ◌*◌, ◌≤◌, true, some, List, [], ◌∷◌, ◌≡◌, arith, length}
use cs439_pcs.Process.{Stack, setup_stack, page_size}
use cs439_pcs.Process.Arguments.{args_size}
use cs439_pcs.Process.Start.{IsStartStack, setup_stack-IsStartStack}

-- "ls" and "-l".
abbrev command : List (List ℕ)
command = (108 ∷ 115 ∷ []) ∷ (45 ∷ 108 ∷ []) ∷ []

abbrev no_stack : Stack
no_stack = record { esp = 0; memory = λ k. 0 }

command_fits : args_size command + 4 * length command + 19 ≤ page_size
unfolding args_size
command_fits = omega arith

setup_stack-IsStartStack_example :
    (st' : Stack) × (setup_stack true true no_stack command ≡ some (true, st'))
    × IsStartStack command st'
setup_stack-IsStartStack_example = setup_stack-IsStartStack command no_stack command_fits
