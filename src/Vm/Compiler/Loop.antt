-- ===== src/Vm/Compiler/Loop.antt =====
-- A loop in bytecode: `while (x != 0) x = x o e`, with `x` on the top of the stack.
pub mod Rounds
pub mod Same
use manhattan_group.Base.{
  ℕ, zero, suc, ◌+◌, ◌-◌, ◌≤◌, ◌<◌, ◌≡◌, refl, sym, ◌∙◌, ap, inl, inr, Bool, true, false, List, [],
  ◌∷◌, ◌++◌, length, length-append, Option, none, some, get_elem?, Bool-cases, if◌then◌else◌, ◌==◌,
  arith,
}
use manhattan_group.Base.{ℤ, pos, eqb_ℤ}
use manhattan_group.Vm.Outcome.{Result, ok, exits, undefined, ◌>>=◌, bind_assoc}
use manhattan_group.Vm.Int64.{to_uint32}
use manhattan_group.Vm.Stack.{Stack, stack_pop}
use manhattan_group.Vm.Compare
use manhattan_group.Vm.Compare.{of_Bool}
use manhattan_group.Vm.Opcode.{decode}
use manhattan_group.Vm.Execute.{Next, goes, step, run, continue_run, execute_bytecode}
use manhattan_group.Vm.Execute.Rounds.{run_end, run_round}
use manhattan_group.Vm.Execute.Fuel.{run_more_fuel}
use manhattan_group.Vm.Execute.Jumps.{Reads}
use manhattan_group.Vm.Compiler.{Operator, meaning, code_of, Expr, value, size_of, compile, depth}
use manhattan_group.Vm.Compiler.Runs.{
  Leads, Leads-step, Leads-bind, Leads-then, Leads-more, Reads-append, Reads-at,
}
use manhattan_group.Vm.Compiler.Steps.{
  with_items, step-combine, step-iszero, step-push, step-jump, step-jumpi, step-label, step-dup,
  step-swap,
}
use manhattan_group.Vm.Compiler.Correct.{length-compile, compile-Computes, depth_pos}
use manhattan_group.Vm.Compiler.Whole.{Reads-suffix, get_elem?-past}

module _ (o : Operator) (e : Expr) where
  abbrev pub loop_code : List ℕ
  loop_code =
      0x5b
      ∷ 0x80
      ∷ 0x15
      ∷ 0x60
      ∷ (11 + size_of e)
      ∷ 0x90
      ∷ 0x57
      ∷ (compile 7 e ++ code_of o ∷ 0x60 ∷ 0 ∷ 0x56 ∷ 0x5b ∷ [])

  abbrev pub body_value : ℤ → Result ℤ
  body_value x = value e >>= meaning o x

  abbrev pub onward : (ℤ → Option (Result ℤ)) → Result ℤ → Option (Result ℤ)
  onward again (ok y) = again y
  onward again (exits c) = some (exits c)
  onward again undefined = some undefined

  -- At most so many tests of the condition; `none` means that more are needed.
  abbrev pub while_value : ℕ → ℤ → Option (Result ℤ)
  while_value zero x = none
  while_value (suc k) x =
      let again = onward (while_value k) (body_value x) in
      if eqb_ℤ x (pos 0) then some (ok x) else again
