-- ===== src/Vm/Execute.antt =====
-- `execute_bytecode`: the body of each case, and the loop. `size` is the length of `bytecode`, as
-- in every call.
pub mod Jumps
pub mod Rounds
pub mod Fuel
use manhattan_group.Base.{
  ℕ, zero, suc, ◌+◌, ◌*◌, List, Option, none, some, length, get_elem?, ltb, ◌==◌, if◌then◌else◌,
}
use manhattan_group.Base.{ℤ, pos, negsuc, sub_ℕ}
use manhattan_group.Vm.Outcome.{
  Result, ok, exits, undefined, ◌>>=◌, ◌>>◌, exit_if, stack_underflow, not_enough_elements,
  invalid_opcode,
}
use manhattan_group.Vm.Int64.{to_uint32}
use manhattan_group.Vm.Stack.{Stack, stack_push, stack_pop, stack_dup, stack_swap, stack_log}
use manhattan_group.Vm.Access.{
  Flow, stays, returns, stays_with, mload, mstore, mstore8, sload, sstore,
}
use manhattan_group.Vm.Opcode.{Op, decode}
use manhattan_group.Vm.Arith
use manhattan_group.Vm.Compare

-- `b = stack_pop(stack); a = stack_pop(stack); stack_push(stack, ...)`.
unfoldable pub binary : (ℤ → ℤ → Result ℤ) → Stack → Result Stack
unfolding stack_pop stack_push
binary f s = do (b, t) ← stack_pop s; (a, u) ← stack_pop t; v ← f a b; stack_push u v

unfoldable pub unary : (ℤ → Result ℤ) → Stack → Result Stack
unfolding stack_pop stack_push
unary f s = do (a, t) ← stack_pop s; v ← f a; stack_push t v

unfoldable pub ternary : (ℤ → ℤ → ℤ → Result ℤ) → Stack → Result Stack
unfolding stack_pop stack_push
ternary f s = do
  (c, t) ← stack_pop s
  (b, u) ← stack_pop t
  (a, w) ← stack_pop u
  v ← f a b c
  stack_push w v

-- The test of the depth at the head of a case: `top < n - 1`.
abbrev pub needs : ℕ → Stack → Result Stack → Result Stack
needs n s k = exit_if (ltb (length s.items) n) not_enough_elements >> k

-- `--stack->top`, behind its own test.
unfoldable pub drop_top : Stack → Result Stack
unfolding stack_pop
drop_top s = exit_if (ltb (length s.items) 1) stack_underflow >> (stack_pop s >>= λ (v, t). ok t)

-- The cases that neither read the code nor change the program counter. (`step` below never passes
-- on JUMP, JUMPI, PC and PUSHn, so the last clause stands for the cases with an empty body.)
unfoldable pub perform : Op → Stack → Result Flow
unfolding binary unary ternary drop_top stack_dup stack_swap stack_log mload mstore mstore8 sload
    sstore
perform Op.stop s = ok (returns (sub_ℕ (length s.items) 1) s)
perform Op.add s = stays_with (binary Arith.add s)
perform Op.mul s = stays_with (binary Arith.mul s)
perform Op.sub s = stays_with (binary Arith.sub s)
perform Op.div s = stays_with (binary Arith.div s)
perform Op.sdiv s = stays_with (binary Arith.sdiv s)
perform Op.rem s = stays_with (binary Arith.rem s)
perform Op.smod s = stays_with (binary Arith.smod s)
perform Op.addmod s = stays_with (ternary Arith.addmod s)
perform Op.mulmod s = stays_with (ternary Arith.mulmod s)
perform Op.exp s = stays_with (binary Arith.exp s)
perform Op.signextend s = stays_with (needs 3 s (binary Arith.signextend s))
perform Op.lt s = stays_with (needs 2 s (binary Compare.lt s))
perform Op.gt s = stays_with (needs 2 s (binary Compare.gt s))
perform Op.slt s = stays_with (needs 2 s (binary Compare.slt s))
perform Op.sgt s = stays_with (needs 2 s (binary Compare.sgt s))
perform Op.eq s = stays_with (needs 2 s (binary Compare.eq s))
perform Op.iszero s = stays_with (needs 1 s (unary Compare.iszero s))
perform Op.bitwise_and s = stays_with (needs 2 s (binary Compare.bitwise_and s))
perform Op.bitwise_or s = stays_with (needs 2 s (binary Compare.bitwise_or s))
perform Op.bitwise_xor s = stays_with (needs 2 s (binary Compare.bitwise_xor s))
perform Op.bitwise_not s = stays_with (needs 1 s (unary Compare.bitwise_not s))
perform Op.byte s = stays_with (needs 2 s (binary Compare.byte s))
perform Op.shl s = stays_with (needs 2 s (binary Compare.shl s))
perform Op.shr s = stays_with (needs 2 s (binary Compare.shr s))
perform Op.sar s = stays_with (needs 2 s (binary Compare.sar s))
perform Op.balance s = stays_with (needs 1 s (ok s))
perform Op.pop s = stays_with (drop_top s)
perform Op.mload s = mload s
perform Op.mstore s = mstore s
perform Op.mstore8 s = mstore8 s
perform Op.sload s = sload s
perform Op.sstore s = sstore s
perform Op.msize s = stays_with (stack_push s (pos (s.memory.size * 8)))
perform Op.push0 s = stays_with (stack_push s (pos 0))
perform (Op.dup n) s = stays_with (stack_dup s n)
perform (Op.swap n) s = stays_with (stack_swap s n)
perform (Op.log n) s = stays_with (stack_log s n)
perform (Op.invalid c) s = exits (invalid_opcode c)
perform _ s = ok (stays s)

-- The state at the head of the loop, or the value that `execute_bytecode` returns.
pub data Next : Type 0 where
  goes : ℕ → Stack → Next
  halts : ℤ → Stack → Next

abbrev pub next_at : ℕ → Flow → Next
next_at pc (stays s) = goes pc s
next_at pc (returns v s) = halts v s

-- The destination of JUMP and of JUMPI: `none` is `return -1`.
unfoldable pub destination : List ℕ → ℤ → Option ℕ
destination bytecode (negsuc a) = none
destination bytecode (pos a) = elim (get_elem? bytecode a) [
  | none ↦ none
  | some opcode ↦ if opcode == 0x5b then some a else none
]

abbrev pub jump_to : Option ℕ → Stack → Next
jump_to none s = halts (negsuc 0) s
jump_to (some a) s = goes a s

unfoldable pub jump : List ℕ → Stack → Result Next
unfolding stack_pop destination
jump bytecode s = do (a, t) ← stack_pop s; ok (jump_to (destination bytecode a) t)

-- `b` is the 32-bit variable here too.
unfoldable pub jumpi : List ℕ → ℕ → Stack → Result Next
unfolding stack_pop destination
jumpi bytecode pc s = do
  (v, t) ← stack_pop s
  (a, u) ← stack_pop t
  if to_uint32 v == 0 then ok (goes pc u) else ok (jump_to (destination bytecode a) u)

-- A read past the end of the bytecode is undefined.
unfoldable pub push_byte : Option ℕ → Stack → Result Stack
unfolding stack_push
push_byte none s = undefined
push_byte (some v) s = stack_push s (pos v)

-- PUSHn: the `n` bytes behind the opcode, each a push of its own.
unfoldable pub push_bytes : List ℕ → ℕ → ℕ → Stack → Result Next
unfolding push_byte
push_bytes bytecode zero pc s = ok (goes pc s)
push_bytes bytecode (suc n) pc s = do
  t ← push_byte (get_elem? bytecode pc) s
  push_bytes bytecode n (pc + 1) t

-- One round of the loop; `pc` is already past the opcode.
unfoldable pub step : List ℕ → Op → ℕ → Stack → Result Next
unfolding perform jump jumpi push_bytes
step bytecode Op.jump pc s = jump bytecode s
step bytecode Op.jumpi pc s = jumpi bytecode pc s
step bytecode Op.pc pc s = stack_push s (pos pc) >>= λ t. ok (goes pc t)
step bytecode (Op.push n) pc s = push_bytes bytecode n pc s
step bytecode op pc s = perform op s >>= λ flow. ok (next_at pc flow)

-- What follows a round: `again` is the rest of the loop.
abbrev pub continue_run :
    (ℕ → Stack → Option (Result (ℤ × Stack))) → Result Next → Option (Result (ℤ × Stack))
continue_run again (ok (goes pc s)) = again pc s
continue_run again (ok (halts v s)) = some (ok (v, s))
continue_run again (exits e) = some (exits e)
continue_run again undefined = some undefined

-- `while (pc < bytecode + size)` with fuel; `none` means that the fuel ran out.
unfoldable pub run : ℕ → List ℕ → ℕ → Stack → Option (Result (ℤ × Stack))
unfolding step decode stack_pop
run zero bytecode pc s = none
run (suc fuel) bytecode pc s = elim (get_elem? bytecode pc) [
  | none ↦ some (stack_pop s)
  | some opcode ↦ continue_run (run fuel bytecode) (step bytecode (decode opcode) (pc + 1) s)
]

unfoldable pub execute_bytecode : ℕ → List ℕ → Stack → Option (Result (ℤ × Stack))
unfolding run
execute_bytecode fuel bytecode s = run fuel bytecode 0 s
