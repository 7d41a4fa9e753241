-- ===== src/Vm/Witnesses.antt =====
-- The theorems on vm.c at concrete programs, stacks and operands.
use manhattan_group.Vm.Arith
use manhattan_group.Vm.Compare
use manhattan_group.Vm.Compiler.{Operator, Expr, literal, combine, choose}
use manhattan_group.Base.{
  ℕ, zero, suc, ◌+◌, ◌^◌, ◌<◌, ◌≤◌, ◌≡◌, refl, arith, List, [], ◌∷◌, some, All, length, replicate,
  drop, false,
}
use manhattan_group.Base.{ℤ, pos, negsuc, abs, pos_part, neg_part, ◌+ℤ◌, ◌*ℤ◌}
use manhattan_group.Vm.Outcome.{Result, ok, exits, undefined, stack_underflow}
use manhattan_group.Vm.Stack.{Stack, stack_dup, stack_swap}
use manhattan_group.Vm.Stack.Blocks.{stack_dup_lem, stack_swap_lem}
use manhattan_group.Vm.Stack.Printed.{print_stack, read_items, read_items-print_stack}
use manhattan_group.Vm.Arith.{div, rem, sdiv, smod, exp}
use manhattan_group.Vm.Arith.Division.{div_and_rem}
use manhattan_group.Vm.Arith.Signed.{sdiv-div}
use manhattan_group.Vm.Arith.PowerFits.{exp_total}
use manhattan_group.Vm.Compare.{lt, slt, gt, sgt, eq, shl, shr, sar}
use manhattan_group.Vm.Access.{sload, sstore}
use manhattan_group.Vm.Execute.{execute_bytecode, push_bytes, goes}
use manhattan_group.Vm.Execute.Jumps.{push_bytes_lem, storage_undefined}
use manhattan_group.Vm.Execute.Fuel.{IsNoJump, execute_bytecode_ends}
use manhattan_group.Vm.Valid.Stack.{IsByte, IsValid}
use manhattan_group.Vm.Valid.Run.{RunValid, execute_bytecode-Valid}
use manhattan_group.Vm.Tests.{created}

All-replicate : (n : ℕ) → All IsByte (replicate n 0)
All-replicate zero = tt
All-replicate (suc n) = (omega arith, All-replicate n)

-- A stack of `main` with some values on it.
abbrev holding : List ℤ → Stack
holding xs = record created { items = xs }

abbrev four : List ℤ
four = pos 4 ∷ pos 3 ∷ pos 2 ∷ pos 1 ∷ []

created-IsValid : IsValid created
created-IsValid = record {
  int_size = omega arith;
  room = omega arith;
  values = tt;
  memory_size = refl;
  all_bytes = refl;
  bytes = All-replicate 32;
}

-- PUSH1 3, PUSH1 4, SUB.
abbrev three_less_four : List ℕ
three_less_four = 0x60 ∷ 3 ∷ 0x60 ∷ 4 ∷ 0x03 ∷ []

execute_bytecode-Valid_example : RunValid (execute_bytecode 6 three_less_four created)
execute_bytecode-Valid_example =
    execute_bytecode-Valid three_less_four 6 created
      (omega arith, (omega arith, (omega arith, (omega arith, (omega arith, tt))))) (omega arith)
      created-IsValid

execute_bytecode_ends_example :
    (r : Result (ℤ × Stack)) × (execute_bytecode
        (length three_less_four + 1)
        three_less_four
        created
      ≡ some r)
execute_bytecode_ends_example = execute_bytecode_ends three_less_four created no_jumps
  where
    no_jumps : All IsNoJump three_less_four
    no_jumps = ground arith

read_items-print_stack_example :
    read_items false 0 (drop 7 (print_stack (holding (negsuc 41 ∷ pos 0 ∷ pos 1024 ∷ []))))
    ≡ negsuc 41 ∷ pos 0 ∷ pos 1024 ∷ []
read_items-print_stack_example =
    read_items-print_stack (holding (negsuc 41 ∷ pos 0 ∷ pos 1024 ∷ []))

stack_dup_lem_example : stack_dup (holding four) 2 ≡ ok (holding (pos 4 ∷ pos 3 ∷ four))
stack_dup_lem_example = stack_dup_lem (holding four) 2 (omega arith)

div_and_rem_example :
    (q : ℤ) × (r : ℤ) × (div (negsuc 6) (pos 2) ≡ ok q)
    × (rem (negsuc 6) (pos 2) ≡ ok r)
    × (q *ℤ pos 2 +ℤ r ≡ negsuc 6)
    × (abs r < 2)
    × (pos_part r ≤ 0)
    × (neg_part r ≤ 7)
div_and_rem_example =
    div_and_rem (negsuc 6) (pos 2) (omega arith) (λ e. absurd (cc)) (λ o. absurd (cc))

sdiv-div_example : sdiv (negsuc 6) (pos 2) ≡ div (negsuc 6) (pos 2)
sdiv-div_example = sdiv-div (negsuc 6) (pos 2) (omega arith)

exp_total_example : exp (pos 3) (pos 5) ≡ ok (pos (3 ^ 5))
exp_total_example = exp_total 3 5 (omega arith) (omega arith) (omega arith)

storage_undefined_example : (sload (holding four) ≡ undefined) × (sstore (holding four) ≡ undefined)
storage_undefined_example = storage_undefined (holding four)

push_bytes_lem_example :
    push_bytes three_less_four 2 1 created ≡ ok (goes 3 (holding (pos 0x60 ∷ pos 3 ∷ [])))
push_bytes_lem_example =
    push_bytes_lem three_less_four (3 ∷ 0x60 ∷ []) 1 created (refl, (refl, tt)) (omega arith)

swapped : stack_swap (holding four) 2 ≡ ok (holding (pos 2 ∷ pos 3 ∷ pos 4 ∷ pos 1 ∷ []))
unfolding stack_swap
swapped = refl

stack_swap_lem_example :
    (some (pos 2) ≡ some (pos 2))
    × (stack_swap (holding (pos 2 ∷ pos 3 ∷ pos 4 ∷ pos 1 ∷ [])) 2 ≡ ok (holding four))
stack_swap_lem_example =
    stack_swap_lem (holding four) (holding (pos 2 ∷ pos 3 ∷ pos 4 ∷ pos 1 ∷ [])) 2 0 swapped
      (omega arith)

no_fuel_lost : execute_bytecode 6 (0x01 ∷ []) created ≡ some (exits stack_underflow)
unfolding execute_bytecode
no_fuel_lost = refl

-- if 3 < 4 then 6 * 7 else 1 / 0
abbrev guarded : Expr
guarded =
    choose (combine Operator.lt (literal 3) (literal 4))
      (combine Operator.mul (literal 6) (literal 7)) (combine Operator.div (literal 1) (literal 0))
