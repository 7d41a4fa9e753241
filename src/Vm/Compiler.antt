-- ===== src/Vm/Compiler.antt =====
-- A small language of expressions, its values, and its translation to the bytecode of vm.c: a
-- specification against which `execute_bytecode` is checked on whole programs with jumps.
pub mod Runs
pub mod Steps
pub mod Branches
pub mod Correct
pub mod Whole
pub mod Loop
use manhattan_group.Base.{ℕ, ◌+◌, ◌^◌, ◌<◌, List, [], ◌∷◌, ◌++◌, leb, ◌==◌, if◌then◌else◌}
use manhattan_group.Base.{ℤ, pos}
use manhattan_group.Vm.Outcome.{Result, ok, ◌>>=◌}
use manhattan_group.Vm.Int64.{to_uint32}
use manhattan_group.Vm.Opcode.{Op}
use manhattan_group.Vm.Arith
use manhattan_group.Vm.Compare

-- The instructions on two operands.
pub data Operator : Type 0 where
  add mul sub div sdiv rem smod exp : Operator
  lt gt slt sgt eq : Operator
  bitwise_and bitwise_or bitwise_xor shl shr sar : Operator

-- The deeper operand first.
abbrev pub meaning : Operator → ℤ → ℤ → Result ℤ
meaning Operator.add = Arith.add
meaning Operator.mul = Arith.mul
meaning Operator.sub = Arith.sub
meaning Operator.div = Arith.div
meaning Operator.sdiv = Arith.sdiv
meaning Operator.rem = Arith.rem
meaning Operator.smod = Arith.smod
meaning Operator.exp = Arith.exp
meaning Operator.lt = Compare.lt
meaning Operator.gt = Compare.gt
meaning Operator.slt = Compare.slt
meaning Operator.sgt = Compare.sgt
meaning Operator.eq = Compare.eq
meaning Operator.bitwise_and = Compare.bitwise_and
meaning Operator.bitwise_or = Compare.bitwise_or
meaning Operator.bitwise_xor = Compare.bitwise_xor
meaning Operator.shl = Compare.shl
meaning Operator.shr = Compare.shr
meaning Operator.sar = Compare.sar

abbrev pub op_of : Operator → Op
op_of Operator.add = Op.add
op_of Operator.mul = Op.mul
op_of Operator.sub = Op.sub
op_of Operator.div = Op.div
op_of Operator.sdiv = Op.sdiv
op_of Operator.rem = Op.rem
op_of Operator.smod = Op.smod
op_of Operator.exp = Op.exp
op_of Operator.lt = Op.lt
op_of Operator.gt = Op.gt
op_of Operator.slt = Op.slt
op_of Operator.sgt = Op.sgt
op_of Operator.eq = Op.eq
op_of Operator.bitwise_and = Op.bitwise_and
op_of Operator.bitwise_or = Op.bitwise_or
op_of Operator.bitwise_xor = Op.bitwise_xor
op_of Operator.shl = Op.shl
op_of Operator.shr = Op.shr
op_of Operator.sar = Op.sar

abbrev pub code_of : Operator → ℕ
code_of Operator.add = 0x01
code_of Operator.mul = 0x02
code_of Operator.sub = 0x03
code_of Operator.div = 0x04
code_of Operator.sdiv = 0x05
code_of Operator.rem = 0x06
code_of Operator.smod = 0x07
code_of Operator.exp = 0x0a
code_of Operator.lt = 0x10
code_of Operator.gt = 0x11
code_of Operator.slt = 0x12
code_of Operator.sgt = 0x13
code_of Operator.eq = 0x14
code_of Operator.bitwise_and = 0x16
code_of Operator.bitwise_or = 0x17
code_of Operator.bitwise_xor = 0x18
code_of Operator.shl = 0x1b
code_of Operator.shr = 0x1c
code_of Operator.sar = 0x1d

-- `choose c t f` is `t` where the low 32 bits of `c` are not all 0, and else `f`.
pub data Expr : Type 0 where
  literal : ℕ → Expr
  is_zero complement : Expr → Expr
  combine : Operator → Expr → Expr → Expr
  choose : Expr → Expr → Expr → Expr

unfoldable pub value : Expr → Result ℤ
value (literal n) = ok (pos n)
value (is_zero e) = value e >>= Compare.iszero
value (complement e) = value e >>= Compare.bitwise_not
value (combine o l r) = do a ← value l; b ← value r; meaning o a b
value (choose c t f) = do
  v ← value c
  let first = value t
  let second = value f
  if to_uint32 v == 0 then second else first

-- The number of bytes of the code.
abbrev pub size_of : Expr → ℕ
size_of (literal n) = 2
size_of (is_zero e) = size_of e + 1
size_of (complement e) = size_of e + 1
size_of (combine o l r) = size_of l + size_of r + 1
size_of (choose c t f) = size_of c + size_of f + size_of t + 8

-- A condition, between the label of the first branch and the test; the second branch, with a jump to
-- the end; the first branch.
abbrev pub branches : ℕ → ℕ → List ℕ → List ℕ → List ℕ → List ℕ
branches label end c t f =
    0x60 ∷ label ∷ (c ++ 0x57 ∷ (f ++ 0x60 ∷ end ∷ 0x56 ∷ 0x5b ∷ (t ++ 0x5b ∷ [])))

-- The code that stands at the position `p`.
abbrev pub compile : ℕ → Expr → List ℕ
compile p (literal n) = 0x60 ∷ n ∷ []
compile p (is_zero e) = compile p e ++ 0x15 ∷ []
compile p (complement e) = compile p e ++ 0x19 ∷ []
compile p (combine o l r) = compile p l ++ (compile (p + size_of l) r ++ code_of o ∷ [])
compile p (choose c t f) =
    let label = p + size_of c + size_of f + 6 in
    branches label (label + size_of t + 1) (compile (p + 2) c) (compile (label + 1) t)
      (compile (p + size_of c + 3) f)

abbrev pub larger : ℕ → ℕ → ℕ
larger a b = if leb a b then b else a

-- The values that the code has on the stack at once.
abbrev pub depth : Expr → ℕ
depth (literal n) = 1
depth (is_zero e) = depth e
depth (complement e) = depth e
depth (combine o l r) = larger (depth l) (depth r + 1)
depth (choose c t f) = larger (depth c + 1) (larger (depth t) (depth f))

-- Every literal is a byte.
abbrev pub IsBytes : Expr → Type 0
IsBytes (literal n) = n < 2 ^ 8
IsBytes (is_zero e) = IsBytes e
IsBytes (complement e) = IsBytes e
IsBytes (combine o l r) = IsBytes l × IsBytes r
IsBytes (choose c t f) = IsBytes c × IsBytes t × IsBytes f
