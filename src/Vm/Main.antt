-- ===== src/Vm/Main.antt =====
-- `main` of vm.c: the programs that it runs, in order, on its two stacks.
use manhattan_group.Base.{ℕ, List, [], ◌∷◌, Option, none, some}
use manhattan_group.Base.{ℤ}
use manhattan_group.Vm.Outcome.{Result, ok, exits, undefined}
use manhattan_group.Vm.Stack.{Stack, stack_clear}
use manhattan_group.Vm.Execute.{execute_bytecode}

-- `main` runs a program on a stack, or clears it.
pub data Action : Type 0 where
  runs : List ℕ → Action
  clears : Action

-- The values that the programs return, in order, and the stack at the end.
abbrev pub then_value :
    (Stack → Option (Result (List ℤ × Stack)))
    → Result (ℤ × Stack)
    → Option (Result (List ℤ × Stack))
then_value later (ok (v, s)) = elim (later s) [
  | none ↦ none
  | some (ok (vs, t)) ↦ some (ok (v ∷ vs, t))
  | some (exits e) ↦ some (exits e)
  | some undefined ↦ some undefined
]
then_value later (exits e) = some (exits e)
then_value later undefined = some undefined

unfoldable pub run_actions : ℕ → List Action → Stack → Option (Result (List ℤ × Stack))
unfolding execute_bytecode stack_clear
run_actions fuel [] s = some (ok ([], s))
run_actions fuel (clears ∷ actions) s = run_actions fuel actions (stack_clear s)
run_actions fuel (runs bytecode ∷ actions) s = elim (execute_bytecode fuel bytecode s) [
  | none ↦ none
  | some r ↦ then_value (run_actions fuel actions) r
]

abbrev pub bytecode1 : List ℕ
bytecode1 = 0x60 ∷ 0x01 ∷ 0x60 ∷ 0x02 ∷ 0x01 ∷ []

-- On the first stack.
abbrev pub on_first_stack : List Action
on_first_stack = runs bytecode1 ∷ []

-- On `stack2`.
abbrev pub bytecode_stop : List ℕ
bytecode_stop = 0x60 ∷ 0x01 ∷ 0x60 ∷ 0x02 ∷ 0x00 ∷ []

abbrev pub bytecode2 : List ℕ
bytecode2 = 0x60 ∷ 0x03 ∷ 0x60 ∷ 0x02 ∷ 0x02 ∷ []

abbrev pub bytecode3 : List ℕ
bytecode3 = 0x60 ∷ 0x03 ∷ 0x60 ∷ 0x04 ∷ 0x03 ∷ []

abbrev pub bytecode4 : List ℕ
bytecode4 = 0x60 ∷ 0x24 ∷ 0x60 ∷ 0x12 ∷ 0x04 ∷ []

abbrev pub bytecode5 : List ℕ
bytecode5 = 0x60 ∷ 0x24 ∷ 0x60 ∷ 0x12 ∷ 0x05 ∷ []

abbrev pub bytecode6 : List ℕ
bytecode6 = 0x60 ∷ 0x26 ∷ 0x60 ∷ 0x12 ∷ 0x06 ∷ []

abbrev pub bytecode7 : List ℕ
bytecode7 = 0x60 ∷ 0x28 ∷ 0x60 ∷ 0x12 ∷ 0x07 ∷ []

abbrev pub bytecode8 : List ℕ
bytecode8 = 0x60 ∷ 0x28 ∷ 0x60 ∷ 0x13 ∷ 0x60 ∷ 0x05 ∷ 0x08 ∷ []

abbrev pub bytecode9 : List ℕ
bytecode9 = 0x60 ∷ 0x28 ∷ 0x60 ∷ 0x13 ∷ 0x60 ∷ 0x05 ∷ 0x09 ∷ []

abbrev pub bytecode10 : List ℕ
bytecode10 = 0x60 ∷ 0x02 ∷ 0x60 ∷ 0x03 ∷ 0x0a ∷ []

abbrev pub bytecode11 : List ℕ
bytecode11 = 0x60 ∷ 0x01 ∷ 0x60 ∷ 0x01 ∷ 0x60 ∷ 0x80 ∷ 0x0b ∷ []

abbrev pub bytecode12 : List ℕ
bytecode12 = 0x60 ∷ 0x09 ∷ 0x60 ∷ 0x0a ∷ 0x10 ∷ []

abbrev pub bytecode13 : List ℕ
bytecode13 = 0x60 ∷ 0x09 ∷ 0x60 ∷ 0x0a ∷ 0x11 ∷ []

abbrev pub bytecode14 : List ℕ
bytecode14 = 0x60 ∷ 0x09 ∷ 0x60 ∷ 0x0a ∷ 0x12 ∷ []

abbrev pub bytecode15 : List ℕ
bytecode15 = 0x60 ∷ 0x09 ∷ 0x60 ∷ 0x0a ∷ 0x13 ∷ []

abbrev pub bytecode16 : List ℕ
bytecode16 = 0x60 ∷ 0x0a ∷ 0x60 ∷ 0x0a ∷ 0x14 ∷ []

abbrev pub bytecode17 : List ℕ
bytecode17 = 0x60 ∷ 0x00 ∷ 0x15 ∷ []

abbrev pub bytecode18 : List ℕ
bytecode18 = 0x60 ∷ 0x0f ∷ 0x60 ∷ 0xff ∷ 0x16 ∷ []

abbrev pub bytecode19 : List ℕ
bytecode19 = 0x60 ∷ 0x0f ∷ 0x60 ∷ 0x0a ∷ 0x17 ∷ []

abbrev pub bytecode_xor : List ℕ
bytecode_xor = 0x60 ∷ 0x0f ∷ 0x60 ∷ 0x0a ∷ 0x18 ∷ []

abbrev pub bytecode_not : List ℕ
bytecode_not = 0x60 ∷ 0x0a ∷ 0x19 ∷ []

abbrev pub bytecode_byte : List ℕ
bytecode_byte = 0x60 ∷ 0x20 ∷ 0x60 ∷ 0x01 ∷ 0x1a ∷ []

abbrev pub bytecode_shl : List ℕ
bytecode_shl = 0x60 ∷ 0x01 ∷ 0x60 ∷ 0x02 ∷ 0x1b ∷ []

abbrev pub bytecode_shr : List ℕ
bytecode_shr = 0x60 ∷ 0x01 ∷ 0x60 ∷ 0x02 ∷ 0x1c ∷ []

abbrev pub bytecode_sar : List ℕ
bytecode_sar = 0x60 ∷ 0x01 ∷ 0x60 ∷ 0x02 ∷ 0x1d ∷ []

abbrev pub bytecode_push0 : List ℕ
bytecode_push0 =
    0x60 ∷ 0x0a ∷ 0x61 ∷ 0x08 ∷ 0x07 ∷ 0x62 ∷ 0x07 ∷ 0x06 ∷ 0x05 ∷ 0x63 ∷ 0x04 ∷ 0x03 ∷ 0x02 ∷ 0x01
    ∷ 0x64 ∷ 0x09 ∷ 0x08 ∷ 0x07 ∷ 0x06 ∷ 0x05 ∷ 0x65 ∷ 0x04 ∷ 0x03 ∷ 0x02 ∷ 0x01 ∷ 0x09 ∷ 0x08
    ∷ 0x66 ∷ 0x07 ∷ 0x06 ∷ 0x05 ∷ 0x04 ∷ 0x03 ∷ 0x02 ∷ 0x01 ∷ 0x67 ∷ 0x09 ∷ 0x08 ∷ 0x07 ∷ 0x06
    ∷ 0x05 ∷ 0x04 ∷ 0x03 ∷ 0x02 ∷ 0x68 ∷ 0x09 ∷ 0x08 ∷ 0x07 ∷ 0x06 ∷ 0x05 ∷ 0x04 ∷ 0x03 ∷ 0x02
    ∷ 0x01 ∷ 0x69 ∷ 0x09 ∷ 0x08 ∷ 0x07 ∷ 0x06 ∷ 0x05 ∷ 0x04 ∷ 0x03 ∷ 0x02 ∷ 0x01 ∷ 0x09 ∷ 0x6a
    ∷ 0x09 ∷ 0x08 ∷ 0x07 ∷ 0x06 ∷ 0x05 ∷ 0x04 ∷ 0x03 ∷ 0x02 ∷ 0x01 ∷ 0x09 ∷ 0x08 ∷ 0x6b ∷ 0x09
    ∷ 0x08 ∷ 0x07 ∷ 0x06 ∷ 0x05 ∷ 0x04 ∷ 0x03 ∷ 0x02 ∷ 0x01 ∷ 0x09 ∷ 0x08 ∷ 0x07 ∷ 0x6c ∷ 0x09
    ∷ 0x08 ∷ 0x07 ∷ 0x06 ∷ 0x05 ∷ 0x04 ∷ 0x03 ∷ 0x02 ∷ 0x01 ∷ 0x09 ∷ 0x08 ∷ 0x07 ∷ 0x06 ∷ 0x6d
    ∷ 0x09 ∷ 0x08 ∷ 0x07 ∷ 0x06 ∷ 0x05 ∷ 0x04 ∷ 0x03 ∷ 0x02 ∷ 0x01 ∷ 0x09 ∷ 0x08 ∷ 0x07 ∷ 0x06
    ∷ 0x05 ∷ 0x6e ∷ 0x09 ∷ 0x08 ∷ 0x07 ∷ 0x06 ∷ 0x05 ∷ 0x04 ∷ 0x03 ∷ 0x02 ∷ 0x01 ∷ 0x09 ∷ 0x08
    ∷ 0x07 ∷ 0x06 ∷ 0x05 ∷ 0x04 ∷ 0x6f ∷ 0x09 ∷ 0x08 ∷ 0x07 ∷ 0x06 ∷ 0x05 ∷ 0x04 ∷ 0x03 ∷ 0x02
    ∷ 0x01 ∷ 0x09 ∷ 0x08 ∷ 0x07 ∷ 0x06 ∷ 0x05 ∷ 0x04 ∷ 0x03 ∷ 0x70 ∷ 0x09 ∷ 0x08 ∷ 0x07 ∷ 0x06
    ∷ 0x05 ∷ 0x04 ∷ 0x03 ∷ 0x02 ∷ 0x01 ∷ 0x09 ∷ 0x08 ∷ 0x07 ∷ 0x06 ∷ 0x05 ∷ 0x04 ∷ 0x03 ∷ 0x02
    ∷ 0x71 ∷ 0x09 ∷ 0x08 ∷ 0x07 ∷ 0x06 ∷ 0x05 ∷ 0x04 ∷ 0x03 ∷ 0x02 ∷ 0x01 ∷ 0x09 ∷ 0x08 ∷ 0x07
    ∷ 0x06 ∷ 0x05 ∷ 0x04 ∷ 0x03 ∷ 0x02 ∷ 0x01 ∷ 0x72 ∷ 0x09 ∷ 0x08 ∷ 0x07 ∷ 0x06 ∷ 0x05 ∷ 0x04
    ∷ 0x03 ∷ 0x02 ∷ 0x01 ∷ 0x09 ∷ 0x08 ∷ 0x07 ∷ 0x06 ∷ 0x05 ∷ 0x04 ∷ 0x03 ∷ 0x02 ∷ 0x01 ∷ 0x09
    ∷ 0x73 ∷ 0x09 ∷ 0x08 ∷ 0x07 ∷ 0x06 ∷ 0x05 ∷ 0x04 ∷ 0x03 ∷ 0x02 ∷ 0x01 ∷ 0x09 ∷ 0x08 ∷ 0x07
    ∷ 0x06 ∷ 0x05 ∷ 0x04 ∷ 0x03 ∷ 0x02 ∷ 0x01 ∷ 0x09 ∷ 0x08 ∷ 0x74 ∷ 0x09 ∷ 0x08 ∷ 0x07 ∷ 0x06
    ∷ 0x05 ∷ 0x04 ∷ 0x03 ∷ 0x02 ∷ 0x01 ∷ 0x09 ∷ 0x08 ∷ 0x07 ∷ 0x06 ∷ 0x05 ∷ 0x04 ∷ 0x03 ∷ 0x02
    ∷ 0x01 ∷ 0x09 ∷ 0x08 ∷ 0x07 ∷ 0x75 ∷ 0x09 ∷ 0x08 ∷ 0x07 ∷ 0x06 ∷ 0x05 ∷ 0x04 ∷ 0x03 ∷ 0x02
    ∷ 0x01 ∷ 0x09 ∷ 0x08 ∷ 0x07 ∷ 0x06 ∷ 0x05 ∷ 0x04 ∷ 0x03 ∷ 0x02 ∷ 0x01 ∷ 0x09 ∷ 0x08 ∷ 0x07
    ∷ 0x06 ∷ 0x76 ∷ 0x09 ∷ 0x08 ∷ 0x07 ∷ 0x06 ∷ 0x05 ∷ 0x04 ∷ 0x03 ∷ 0x02 ∷ 0x01 ∷ 0x09 ∷ 0x08
    ∷ 0x07 ∷ 0x06 ∷ 0x05 ∷ 0x04 ∷ 0x03 ∷ 0x02 ∷ 0x01 ∷ 0x09 ∷ 0x08 ∷ 0x07 ∷ 0x06 ∷ 0x05 ∷ 0x77
    ∷ 0x09 ∷ 0x08 ∷ 0x07 ∷ 0x06 ∷ 0x05 ∷ 0x04 ∷ 0x03 ∷ 0x02 ∷ 0x01 ∷ 0x09 ∷ 0x08 ∷ 0x07 ∷ 0x06
    ∷ 0x05 ∷ 0x04 ∷ 0x03 ∷ 0x02 ∷ 0x01 ∷ 0x09 ∷ 0x08 ∷ 0x08 ∷ 0x07 ∷ 0x06 ∷ 0x05 ∷ 0x78 ∷ 0x09
    ∷ 0x08 ∷ 0x07 ∷ 0x06 ∷ 0x05 ∷ 0x04 ∷ 0x03 ∷ 0x02 ∷ 0x01 ∷ 0x09 ∷ 0x08 ∷ 0x07 ∷ 0x06 ∷ 0x05
    ∷ 0x04 ∷ 0x03 ∷ 0x02 ∷ 0x01 ∷ 0x09 ∷ 0x08 ∷ 0x07 ∷ 0x08 ∷ 0x07 ∷ 0x06 ∷ 0x05 ∷ 0x79 ∷ 0x09
    ∷ 0x08 ∷ 0x07 ∷ 0x06 ∷ 0x05 ∷ 0x04 ∷ 0x03 ∷ 0x02 ∷ 0x01 ∷ 0x09 ∷ 0x08 ∷ 0x07 ∷ 0x06 ∷ 0x05
    ∷ 0x04 ∷ 0x03 ∷ 0x02 ∷ 0x01 ∷ 0x09 ∷ 0x08 ∷ 0x07 ∷ 0x06 ∷ 0x08 ∷ 0x07 ∷ 0x06 ∷ 0x05 ∷ 0x7a
    ∷ 0x09 ∷ 0x08 ∷ 0x07 ∷ 0x06 ∷ 0x05 ∷ 0x04 ∷ 0x03 ∷ 0x02 ∷ 0x01 ∷ 0x09 ∷ 0x08 ∷ 0x07 ∷ 0x06
    ∷ 0x05 ∷ 0x04 ∷ 0x03 ∷ 0x02 ∷ 0x01 ∷ 0x09 ∷ 0x08 ∷ 0x07 ∷ 0x06 ∷ 0x08 ∷ 0x07 ∷ 0x06 ∷ 0x05
    ∷ 0x04 ∷ 0x7b ∷ 0x09 ∷ 0x08 ∷ 0x07 ∷ 0x06 ∷ 0x05 ∷ 0x04 ∷ 0x03 ∷ 0x02 ∷ 0x01 ∷ 0x09 ∷ 0x08
    ∷ 0x07 ∷ 0x06 ∷ 0x05 ∷ 0x04 ∷ 0x03 ∷ 0x02 ∷ 0x01 ∷ 0x09 ∷ 0x08 ∷ 0x07 ∷ 0x06 ∷ 0x08 ∷ 0x07
    ∷ 0x06 ∷ 0x05 ∷ 0x04 ∷ 0x03 ∷ 0x7c ∷ 0x09 ∷ 0x08 ∷ 0x07 ∷ 0x06 ∷ 0x05 ∷ 0x04 ∷ 0x03 ∷ 0x02
    ∷ 0x01 ∷ 0x09 ∷ 0x08 ∷ 0x07 ∷ 0x06 ∷ 0x05 ∷ 0x04 ∷ 0x03 ∷ 0x02 ∷ 0x01 ∷ 0x09 ∷ 0x08 ∷ 0x07
    ∷ 0x06 ∷ 0x08 ∷ 0x07 ∷ 0x06 ∷ 0x05 ∷ 0x04 ∷ 0x03 ∷ 0x02 ∷ 0x7d ∷ 0x09 ∷ 0x08 ∷ 0x07 ∷ 0x06
    ∷ 0x05 ∷ 0x04 ∷ 0x03 ∷ 0x02 ∷ 0x01 ∷ 0x09 ∷ 0x08 ∷ 0x07 ∷ 0x06 ∷ 0x05 ∷ 0x04 ∷ 0x03 ∷ 0x02
    ∷ 0x01 ∷ 0x09 ∷ 0x08 ∷ 0x07 ∷ 0x06 ∷ 0x08 ∷ 0x07 ∷ 0x06 ∷ 0x05 ∷ 0x04 ∷ 0x03 ∷ 0x02 ∷ 0x01
    ∷ 0x7e ∷ 0x09 ∷ 0x08 ∷ 0x07 ∷ 0x06 ∷ 0x05 ∷ 0x04 ∷ 0x03 ∷ 0x02 ∷ 0x01 ∷ 0x09 ∷ 0x08 ∷ 0x07
    ∷ 0x06 ∷ 0x05 ∷ 0x04 ∷ 0x03 ∷ 0x02 ∷ 0x01 ∷ 0x09 ∷ 0x08 ∷ 0x07 ∷ 0x06 ∷ 0x08 ∷ 0x07 ∷ 0x06
    ∷ 0x05 ∷ 0x04 ∷ 0x03 ∷ 0x02 ∷ 0x01 ∷ 0x09 ∷ 0x7f ∷ 0x09 ∷ 0x08 ∷ 0x07 ∷ 0x06 ∷ 0x05 ∷ 0x04
    ∷ 0x03 ∷ 0x02 ∷ 0x01 ∷ 0x09 ∷ 0x08 ∷ 0x07 ∷ 0x06 ∷ 0x05 ∷ 0x04 ∷ 0x03 ∷ 0x02 ∷ 0x01 ∷ 0x09
    ∷ 0x08 ∷ 0x07 ∷ 0x06 ∷ 0x08 ∷ 0x07 ∷ 0x06 ∷ 0x05 ∷ 0x04 ∷ 0x03 ∷ 0x02 ∷ 0x01 ∷ 0x09 ∷ 0x0a ∷ []

abbrev pub bytecode_mstore : List ℕ
bytecode_mstore = 0x60 ∷ 0x01 ∷ 0x62 ∷ 0x02 ∷ 0x03 ∷ 0x04 ∷ 0x52 ∷ []

abbrev pub bytecode_mload : List ℕ
bytecode_mload = 0x60 ∷ 0x05 ∷ 0x51 ∷ 0x60 ∷ 0x06 ∷ 0x50 ∷ []

abbrev pub bytecode_mstore8 : List ℕ
bytecode_mstore8 = 0x60 ∷ 0x07 ∷ 0x60 ∷ 0x08 ∷ 0x53 ∷ 0x60 ∷ 0x09 ∷ 0x51 ∷ 0x60 ∷ 0x0a ∷ 0x50 ∷ []

abbrev pub bytecode_sstore : List ℕ
bytecode_sstore = 0x61 ∷ 0x0b ∷ 0x02 ∷ 0x60 ∷ 0x03 ∷ 0x55 ∷ []

abbrev pub bytecode_sload : List ℕ
bytecode_sload = 0x60 ∷ 0x00 ∷ 0x54 ∷ []

abbrev pub bytecode_pc : List ℕ
bytecode_pc = 0x58 ∷ []

abbrev pub bytecode_msize : List ℕ
bytecode_msize = 0x59 ∷ []

abbrev pub bytecode_d : List ℕ
bytecode_d = 0x65 ∷ 0x01 ∷ 0x02 ∷ 0x03 ∷ 0x04 ∷ 0x05 ∷ 0x06 ∷ 0x83 ∷ []

abbrev pub bytecode_swap : List ℕ
bytecode_swap = 0x63 ∷ 0x04 ∷ 0x03 ∷ 0x02 ∷ 0x01 ∷ 0x92 ∷ []

abbrev pub bytecode_log0 : List ℕ
bytecode_log0 = 0x61 ∷ 0x01 ∷ 0x02 ∷ 0xa0 ∷ 0x60 ∷ 0x00 ∷ []

abbrev pub bytecode_log1 : List ℕ
bytecode_log1 = 0x62 ∷ 0x01 ∷ 0x02 ∷ 0x03 ∷ 0xa1 ∷ 0x60 ∷ 0x00 ∷ []

abbrev pub bytecode_log2 : List ℕ
bytecode_log2 = 0x63 ∷ 0x01 ∷ 0x02 ∷ 0x03 ∷ 0x04 ∷ 0xa2 ∷ 0x60 ∷ 0x00 ∷ []

abbrev pub bytecode_log3 : List ℕ
bytecode_log3 = 0x64 ∷ 0x01 ∷ 0x02 ∷ 0x03 ∷ 0x04 ∷ 0x05 ∷ 0xa3 ∷ 0x60 ∷ 0x00 ∷ []

abbrev pub bytecode_log4 : List ℕ
bytecode_log4 = 0x65 ∷ 0x01 ∷ 0x02 ∷ 0x03 ∷ 0x04 ∷ 0x05 ∷ 0x06 ∷ 0xa4 ∷ 0x60 ∷ 0x00 ∷ []

abbrev pub before_storage : List Action
before_storage =
    runs bytecode_stop
    ∷ runs bytecode2
    ∷ runs bytecode3
    ∷ runs bytecode4
    ∷ runs bytecode5
    ∷ runs bytecode6
    ∷ runs bytecode7
    ∷ runs bytecode8
    ∷ runs bytecode9
    ∷ runs bytecode10
    ∷ runs bytecode11
    ∷ clears
    ∷ runs bytecode12
    ∷ runs bytecode13
    ∷ runs bytecode14
    ∷ runs bytecode15
    ∷ clears
    ∷ runs bytecode16
    ∷ runs bytecode17
    ∷ runs bytecode18
    ∷ clears
    ∷ runs bytecode19
    ∷ runs bytecode_xor
    ∷ runs bytecode_not
    ∷ runs bytecode_byte
    ∷ runs bytecode_shl
    ∷ runs bytecode_shr
    ∷ runs bytecode_sar
    ∷ clears
    ∷ runs bytecode_push0
    ∷ clears
    ∷ runs bytecode_mstore
    ∷ runs bytecode_mload
    ∷ clears
    ∷ runs bytecode_mstore8
    ∷ clears
    ∷ []

abbrev pub from_storage : List Action
from_storage =
    runs bytecode_sstore
    ∷ runs bytecode_sload
    ∷ runs bytecode_pc
    ∷ runs bytecode_msize
    ∷ clears
    ∷ runs bytecode_d
    ∷ clears
    ∷ runs bytecode_swap
    ∷ clears
    ∷ runs bytecode_log0
    ∷ runs bytecode_log1
    ∷ runs bytecode_log2
    ∷ runs bytecode_log3
    ∷ runs bytecode_log4
    ∷ []
