-- ===== src/Vm/Tests.antt =====
-- Programs of `main` in vm.c, and some of the behaviours that its tests do not reach.
use manhattan_group.Base.{ℕ, ◌≡◌, refl, List, [], ◌∷◌, Option, none, some, replicate}
use manhattan_group.Base.{ℤ, pos, negsuc, ◌+ℤ◌, ◌-ℤ◌, ◌*ℤ◌, neg, tdiv, tmod}
use manhattan_group.Vm.Outcome.{
  Result, ok, exits, undefined, ExitCause, stack_underflow, invalid_opcode,
}
use manhattan_group.Vm.Int64.{
  checked, add64, sub64, mul64, neg64, div64, mod64, and64, or64, xor64, not64, shl64, shr64,
}
use manhattan_group.Vm.Stack.{Stack, push_all}
use manhattan_group.Vm.Arith
use manhattan_group.Vm.Compare
use manhattan_group.Vm.Execute.{execute_bytecode}
use manhattan_group.Vm.Main.{Action, run_actions, before_storage, on_first_stack}

-- What `stack_create(1024)` makes where the fresh memory holds zeros.
abbrev pub created : Stack
created = record {
  size = 1024;
  items = [];
  memory = record { size = 32; bytes = replicate 32 0 };
  storage = replicate 4 none;
  log = [];
}

-- The value that the program returns, on a new stack.
data Value : Type 0 where
  value : ℤ → Value
  stopped : ExitCause → Value
  no_value running : Value

value_of : Option (Result (ℤ × Stack)) → Value
value_of none = running
value_of (some (ok (v, s))) = value v
value_of (some (exits e)) = stopped e
value_of (some undefined) = no_value

run_new : List ℕ → Value
unfolding execute_bytecode value_of Arith.add Arith.mul Arith.sub Arith.div Arith.sdiv Arith.rem
    Arith.smod Arith.sdiv_corrected Arith.smod_corrected Arith.addmod Arith.mulmod Arith.exp
    Arith.exp_loop Arith.exp_multiply Arith.exp_square Arith.signextend Compare.lt Compare.gt
    Compare.slt Compare.sgt Compare.eq Compare.iszero Compare.bitwise_and Compare.bitwise_or
    Compare.bitwise_xor Compare.bitwise_not Compare.byte Compare.shl Compare.shr Compare.sar checked
    add64 sub64 mul64 neg64 div64 mod64 and64 or64 xor64 not64 shl64 shr64 ◌+ℤ◌ ◌-ℤ◌ ◌*ℤ◌ neg tdiv
    tmod push_all
run_new code = value_of (execute_bytecode 100 code created)

tests_of_arithmetic :
    (run_new (0x60 ∷ 0x01 ∷ 0x60 ∷ 0x02 ∷ 0x01 ∷ []) ≡ value (pos 3))
    × (run_new (0x60 ∷ 0x01 ∷ 0x60 ∷ 0x02 ∷ 0x00 ∷ []) ≡ value (pos 1))
    × (run_new (0x60 ∷ 0x03 ∷ 0x60 ∷ 0x02 ∷ 0x02 ∷ []) ≡ value (pos 6))
    × (run_new (0x60 ∷ 0x03 ∷ 0x60 ∷ 0x04 ∷ 0x03 ∷ []) ≡ value (negsuc 0))
    × (run_new (0x60 ∷ 0x24 ∷ 0x60 ∷ 0x12 ∷ 0x05 ∷ []) ≡ value (pos 2))
    × (run_new (0x60 ∷ 0x28 ∷ 0x60 ∷ 0x12 ∷ 0x07 ∷ []) ≡ value (pos 4))
    × (run_new (0x60 ∷ 0x28 ∷ 0x60 ∷ 0x13 ∷ 0x60 ∷ 0x05 ∷ 0x09 ∷ []) ≡ value (pos 0))
    × (run_new (0x60 ∷ 0x02 ∷ 0x60 ∷ 0x03 ∷ 0x0a ∷ []) ≡ value (pos 8))
unfolding run_new
tests_of_arithmetic = (refl, refl, refl, refl, refl, refl, refl, refl)

tests_of_words :
    (run_new (0x60 ∷ 0x09 ∷ 0x60 ∷ 0x0a ∷ 0x10 ∷ []) ≡ value (pos 1))
    × (run_new (0x60 ∷ 0x0a ∷ 0x60 ∷ 0x0a ∷ 0x14 ∷ []) ≡ value (pos 1))
    × (run_new (0x60 ∷ 0x00 ∷ 0x15 ∷ []) ≡ value (pos 1))
    × (run_new (0x60 ∷ 0x0f ∷ 0x60 ∷ 0xff ∷ 0x16 ∷ []) ≡ value (pos 15))
    × (run_new (0x60 ∷ 0x0f ∷ 0x60 ∷ 0x0a ∷ 0x18 ∷ []) ≡ value (pos 5))
    × (run_new (0x60 ∷ 0x0a ∷ 0x19 ∷ []) ≡ value (negsuc 10))
    × (run_new (0x60 ∷ 0x20 ∷ 0x60 ∷ 0x01 ∷ 0x1a ∷ []) ≡ value (pos 0))
    × (run_new (0x60 ∷ 0x01 ∷ 0x60 ∷ 0x02 ∷ 0x1b ∷ []) ≡ value (pos 4))
unfolding run_new
tests_of_words = (refl, refl, refl, refl, refl, refl, refl, refl)

-- MSTORE8 and MLOAD, DUP4, SWAP3, LOG2, and a jump that does not end.
tests_of_state :
    (run_new (0x60 ∷ 0x08 ∷ 0x60 ∷ 0x07 ∷ 0x53 ∷ 0x60 ∷ 0x08 ∷ 0x51 ∷ []) ≡ value (pos 7))
    × (run_new (0x65 ∷ 1 ∷ 2 ∷ 3 ∷ 4 ∷ 5 ∷ 6 ∷ 0x83 ∷ 0x00 ∷ []) ≡ value (pos 9))
    × (run_new (0x63 ∷ 4 ∷ 3 ∷ 2 ∷ 1 ∷ 0x92 ∷ []) ≡ value (pos 4))
    × (run_new (0x63 ∷ 1 ∷ 2 ∷ 3 ∷ 4 ∷ 0xa2 ∷ 0x60 ∷ 0 ∷ []) ≡ value (pos 0))
    × (run_new (0x5b ∷ 0x60 ∷ 0x00 ∷ 0x56 ∷ []) ≡ running)
    × (run_new (0x01 ∷ []) ≡ stopped stack_underflow)
    × (run_new (0x0c ∷ []) ≡ stopped (invalid_opcode 0x0c))
    × (run_new (0x60 ∷ 0x00 ∷ 0x54 ∷ []) ≡ no_value)
unfolding run_new
tests_of_state = (refl, refl, refl, refl, refl, refl, refl, refl)

-- The values that the programs of `main` return on `stack2`, up to its SSTORE, whose storage address is undefined.
values_of : Option (Result (List ℤ × Stack)) → List ℤ
values_of (some (ok (vs, s))) = vs
values_of _ = []

values : List Action → List ℤ
unfolding run_actions values_of Arith.add Arith.mul Arith.sub Arith.div Arith.sdiv Arith.rem
    Arith.smod Arith.sdiv_corrected Arith.smod_corrected Arith.addmod Arith.mulmod Arith.exp
    Arith.exp_loop Arith.exp_multiply Arith.exp_square Arith.signextend Compare.lt Compare.gt
    Compare.slt Compare.sgt Compare.eq Compare.iszero Compare.bitwise_and Compare.bitwise_or
    Compare.bitwise_xor Compare.bitwise_not Compare.byte Compare.shl Compare.shr Compare.sar checked
    add64 sub64 mul64 neg64 div64 mod64 and64 or64 xor64 not64 shl64 shr64 ◌+ℤ◌ ◌-ℤ◌ ◌*ℤ◌ neg tdiv
    tmod push_all
values actions = values_of (run_actions 100 actions created)

test_of_main :
    values before_storage
    ≡ pos 1
      ∷ pos 6
      ∷ negsuc 0
      ∷ pos 2
      ∷ pos 2
      ∷ pos 2
      ∷ pos 4
      ∷ pos 4
      ∷ pos 0
      ∷ pos 8
      ∷ pos 1
      ∷ pos 1
      ∷ pos 0
      ∷ pos 1
      ∷ pos 0
      ∷ pos 1
      ∷ pos 1
      ∷ pos 15
      ∷ pos 15
      ∷ pos 5
      ∷ negsuc 10
      ∷ pos 0
      ∷ pos 4
      ∷ pos 0
      ∷ pos 0
      ∷ pos 10
      ∷ pos 2
      ∷ pos 1
      ∷ pos 0
      ∷ []
unfolding values
test_of_main = refl

test_of_first : values on_first_stack ≡ pos 3 ∷ []
unfolding values
test_of_first = refl
