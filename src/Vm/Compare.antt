-- ===== src/Vm/Compare.antt =====
-- The comparisons, bit operations and shifts of `execute_bytecode`, opcodes 0x10 to 0x1d. The case
-- of SIGNEXTEND declares `uint32_t b`, and the scope of that declaration is the rest of the switch:
-- in all the cases below it `b` is the popped value modulo 2 ^ 32.
pub mod Truncated
use manhattan_group.Base.{◌*◌, Bool, ltb, leb, if◌then◌else◌}
use manhattan_group.Base.{ℤ, pos, ltb_ℤ, eqb_ℤ}
use manhattan_group.Vm.Outcome.{Result, ok, ◌>>=◌, ◌>>◌, exit_if, byte_offset_out_of_range}
use manhattan_group.Vm.Int64.{int64_min, and64, or64, xor64, not64, shl64, shr64, to_uint32}

abbrev pub of_Bool : Bool → ℤ
of_Bool b = if b then pos 1 else pos 0

-- The first argument is the deeper operand, `b` the one that is popped into the 32-bit variable.
unfoldable pub lt : ℤ → ℤ → Result ℤ
lt a b = ok (of_Bool (ltb_ℤ a (pos (to_uint32 b))))

unfoldable pub gt : ℤ → ℤ → Result ℤ
gt a b = ok (of_Bool (ltb_ℤ (pos (to_uint32 b)) a))

unfoldable pub slt : ℤ → ℤ → Result ℤ
slt a b = ok (of_Bool (ltb_ℤ a (pos (to_uint32 b))))

unfoldable pub sgt : ℤ → ℤ → Result ℤ
sgt a b = ok (of_Bool (ltb_ℤ (pos (to_uint32 b)) a))

-- EQ, AND, OR and XOR pop `a` first, so `b` is the deeper operand here.
unfoldable pub eq : ℤ → ℤ → Result ℤ
eq b a = ok (of_Bool (eqb_ℤ a (pos (to_uint32 b))))

unfoldable pub iszero : ℤ → Result ℤ
iszero a = ok (of_Bool (eqb_ℤ a (pos 0)))

unfoldable pub bitwise_and : ℤ → ℤ → Result ℤ
bitwise_and b a = ok (and64 a (pos (to_uint32 b)))

unfoldable pub bitwise_or : ℤ → ℤ → Result ℤ
bitwise_or b a = ok (or64 a (pos (to_uint32 b)))

unfoldable pub bitwise_xor : ℤ → ℤ → Result ℤ
bitwise_xor b a = ok (xor64 a (pos (to_uint32 b)))

unfoldable pub bitwise_not : ℤ → Result ℤ
bitwise_not a = ok (not64 a)

-- BYTE; `b < 0` is false of an unsigned `b`.
unfoldable pub byte : ℤ → ℤ → Result ℤ
byte a top = do
  let b = to_uint32 top
  exit_if (leb 32 b) byte_offset_out_of_range
  w ← shr64 a (8 * b)
  ok (and64 w (pos 0xff))

unfoldable pub shl : ℤ → ℤ → Result ℤ
shl a top = let b = to_uint32 top in if ltb 255 b then ok (pos 0) else shl64 a b

unfoldable pub shr : ℤ → ℤ → Result ℤ
shr a top = let b = to_uint32 top in if ltb 255 b then ok (pos 0) else shr64 a b

unfoldable pub sar : ℤ → ℤ → Result ℤ
sar a top =
    let b = to_uint32 top in
    if ltb 63 b then ok (if ltb_ℤ a (pos 0) then int64_min else pos 0) else shr64 a b
