-- ===== src/Vm/Int64.antt =====
-- `int64_t` as gcc compiles it: a value is an integer, an overflow of `+ - * /` is undefined, the
-- bit operations and `<<` work on the two's complement pattern, `>>` keeps the sign.
pub mod Range
use manhattan_group.Base.{
  ℕ, ◌-◌, ◌*◌, ◌/◌, ◌%◌, ◌^◌, ◌<◌, bit_and, bit_or, bit_xor, Bool, ltb, if◌then◌else◌,
}
use manhattan_group.Base.{ℤ, pos, negsuc, ◌+ℤ◌, ◌-ℤ◌, ◌*ℤ◌, neg, tdiv, tmod, eqb_ℤ}
use manhattan_group.Vm.Outcome.{Result, ok, undefined}

abbrev pub IsInt64 : ℤ → Type 0
IsInt64 (pos n) = n < 2 ^ 63
IsInt64 (negsuc n) = n < 2 ^ 63

abbrev pub fits64 : ℤ → Bool
fits64 (pos n) = ltb n (2 ^ 63)
fits64 (negsuc n) = ltb n (2 ^ 63)

abbrev pub int64_min : ℤ
int64_min = negsuc (2 ^ 63 - 1)

unfoldable pub checked : ℤ → Result ℤ
checked z = if fits64 z then ok z else undefined

unfoldable pub add64 : ℤ → ℤ → Result ℤ
add64 a b = checked (a +ℤ b)

unfoldable pub sub64 : ℤ → ℤ → Result ℤ
sub64 a b = checked (a -ℤ b)

unfoldable pub mul64 : ℤ → ℤ → Result ℤ
mul64 a b = checked (a *ℤ b)

unfoldable pub neg64 : ℤ → Result ℤ
neg64 a = checked (neg a)

unfoldable pub div64 : ℤ → ℤ → Result ℤ
div64 a b = if eqb_ℤ b (pos 0) then undefined else checked (tdiv a b)

-- `a % b` is undefined where `a / b` is.
unfoldable pub mod64 : ℤ → ℤ → Result ℤ
mod64 a b =
    if eqb_ℤ b (pos 0) then undefined else if fits64 (tdiv a b) then ok (tmod a b) else undefined

-- The pattern of a value, the value of a pattern, and the conversion to `uint32_t`.
abbrev pub word64 : ℤ → ℕ
word64 (pos n) = n % 2 ^ 64
word64 (negsuc n) = 2 ^ 64 - 1 - n % 2 ^ 64

abbrev pub to_int64 : ℕ → ℤ
to_int64 w = let v = w % 2 ^ 64 in if ltb v (2 ^ 63) then pos v else negsuc (2 ^ 64 - 1 - v)

abbrev pub to_uint32 : ℤ → ℕ
to_uint32 (pos n) = n % 2 ^ 32
to_uint32 (negsuc n) = 2 ^ 32 - 1 - n % 2 ^ 32

unfoldable pub and64 : ℤ → ℤ → ℤ
and64 a b = to_int64 (bit_and (word64 a) (word64 b))

unfoldable pub or64 : ℤ → ℤ → ℤ
or64 a b = to_int64 (bit_or (word64 a) (word64 b))

unfoldable pub xor64 : ℤ → ℤ → ℤ
xor64 a b = to_int64 (bit_xor (word64 a) (word64 b))

unfoldable pub not64 : ℤ → ℤ
not64 a = to_int64 (2 ^ 64 - 1 - word64 a)

-- Shifts by a count that is already known not to be negative.
unfoldable pub shl64 : ℤ → ℕ → Result ℤ
shl64 a k = if ltb k 64 then ok (to_int64 (word64 a * 2 ^ k)) else undefined

abbrev pub shift_right : ℤ → ℕ → ℤ
shift_right (pos n) k = pos (n / 2 ^ k)
shift_right (negsuc n) k = negsuc (n / 2 ^ k)

unfoldable pub shr64 : ℤ → ℕ → Result ℤ
shr64 a k = if ltb k 64 then ok (shift_right a k) else undefined
