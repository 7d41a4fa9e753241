-- ===== src/Vm/Execute/Rounds.antt =====
-- One round of the loop, as equations.
use manhattan_group.Base.{ℕ, suc, ◌+◌, ◌≡◌, List, none, some, get_elem?}
use manhattan_group.Vm.Stack.{Stack, stack_pop}
use manhattan_group.Vm.Opcode.{decode}
use manhattan_group.Vm.Execute.{step, run, continue_run}

module _ (bytecode : List ℕ) (fuel pc : ℕ) (s : Stack) where
  pub run_end : get_elem? bytecode pc ≡ none → run (suc fuel) bytecode pc s ≡ some (stack_pop s)
  unfolding run
  run_end e = rw (e, run)

  pub run_round :
      (c : ℕ)
      → get_elem? bytecode pc ≡ some c
      → run (suc fuel) bytecode pc s
        ≡ continue_run (run fuel bytecode) (step bytecode (decode c) (pc + 1) s)
  unfolding run
  run_round c e = rw (e, run)
