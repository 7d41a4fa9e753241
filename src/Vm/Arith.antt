-- ===== src/Vm/Arith.antt =====
-- The arithmetic instructions of `execute_bytecode`, opcodes 0x01 to 0x0b: the value that is pushed,
-- from the operands in the order in which they lie on the stack, the deeper one first.
pub mod Division
pub mod Corrected
pub mod Signed
pub mod Power
pub mod PowerFits
pub mod Rounds
use manhattan_group.Base.{
  ℕ, zero, suc, ◌-◌, ◌*◌, ◌/◌, ◌%◌, ◌^◌, true, false, not, ◌&&◌, ◌==◌, bit_and, if◌then◌else◌,
}
use manhattan_group.Base.{ℤ, pos, negsuc, ltb_ℤ, eqb_ℤ}
use manhattan_group.Vm.Outcome.{
  Result, ok, undefined, ◌>>=◌, ◌>>◌, exit_if, division_by_zero, modulo_by_zero, exponent_overflow,
}
use manhattan_group.Vm.Int64.{add64, sub64, mul64, neg64, div64, mod64, and64, xor64, to_uint32}

unfoldable pub add : ℤ → ℤ → Result ℤ
unfolding add64
add a b = add64 a b

unfoldable pub mul : ℤ → ℤ → Result ℤ
unfolding mul64
mul a b = mul64 a b

unfoldable pub sub : ℤ → ℤ → Result ℤ
unfolding sub64
sub a b = sub64 a b

unfoldable pub div : ℤ → ℤ → Result ℤ
div a b = do exit_if (eqb_ℤ b (pos 0)) division_by_zero; div64 a b

-- The branch that corrects the quotient: `-((-(a - (a % b))) / b)`.
unfoldable pub sdiv_corrected : ℤ → ℤ → Result ℤ
sdiv_corrected a b = do r ← mod64 a b; d ← sub64 a r; m ← neg64 d; q ← div64 m b; neg64 q

unfoldable pub sdiv : ℤ → ℤ → Result ℤ
sdiv a b = do
  exit_if (eqb_ℤ b (pos 0)) division_by_zero
  result ← div64 a b
  r ← mod64 a b
  if ltb_ℤ (xor64 a b) (pos 0) && not (eqb_ℤ r (pos 0)) then sdiv_corrected a b else ok result

-- MOD, 0x06.
unfoldable pub rem : ℤ → ℤ → Result ℤ
rem a b = do exit_if (eqb_ℤ b (pos 0)) division_by_zero; mod64 a b

-- The branch of SMOD that corrects the remainder: `(-a / b) * b + a`.
unfoldable pub smod_corrected : ℤ → ℤ → Result ℤ
smod_corrected a b = do m ← neg64 a; q ← div64 m b; p ← mul64 q b; add64 p a

unfoldable pub smod : ℤ → ℤ → Result ℤ
smod a b = do
  exit_if (eqb_ℤ b (pos 0)) division_by_zero
  result ← mod64 a b
  if ltb_ℤ (xor64 a b) (pos 0) && not (eqb_ℤ result (pos 0)) then smod_corrected a b else ok result

unfoldable pub addmod : ℤ → ℤ → ℤ → Result ℤ
addmod a b c = do exit_if (eqb_ℤ c (pos 0)) modulo_by_zero; t ← add64 a b; mod64 t c

unfoldable pub mulmod : ℤ → ℤ → ℤ → Result ℤ
mulmod a b c = do exit_if (eqb_ℤ c (pos 0)) modulo_by_zero; t ← mul64 a b; mod64 t c

-- `result *= a`, with the test that follows it.
unfoldable pub exp_multiply : ℤ → ℤ → Result ℤ
exp_multiply result a = do p ← mul64 result a; exit_if (ltb_ℤ p a) exponent_overflow; ok p

-- `a *= a`, with the test that follows it.
unfoldable pub exp_square : ℤ → Result ℤ
exp_square a = do p ← mul64 a a; exit_if (ltb_ℤ p (pos 1)) exponent_overflow; ok p

-- The loop on a positive exponent. It halves the exponent, which is below 2 ^ 63, so 64 rounds of
-- fuel are never used up.
unfoldable pub exp_loop : ℕ → ℤ → ℤ → ℕ → Result ℤ
exp_loop zero result a exponent = undefined
exp_loop (suc fuel) result a exponent = elim (exponent == 0) [
  | true ↦ ok result
  | false ↦ (if bit_and exponent 1 == 1 then exp_multiply result a else ok result) >>= λ r.
      exp_square a >>= λ a'. exp_loop fuel r a' (exponent / 2)
]

-- A negative exponent does not enter the loop.
unfoldable pub exp : ℤ → ℤ → Result ℤ
exp a (pos n) = exp_loop 64 (pos 1) a n
exp a (negsuc n) = ok (pos 1)

-- `a &= ~(~0u << (b & 0x1f))` if the top bit of the 32-bit `b` is set; else `a` is kept.
unfoldable pub signextend : ℤ → ℤ → Result ℤ
signextend a top =
    let b = to_uint32 top in
    if bit_and b 0x8000_0000 == 0
    then ok a
    else ok (and64 a (pos (2 ^ 32 - 1 - (2 ^ 32 - 1) * 2 ^ bit_and b 0x1f % 2 ^ 32)))
