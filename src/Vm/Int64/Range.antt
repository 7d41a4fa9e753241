-- ===== src/Vm/Int64/Range.antt =====
-- The results of the `int64_t` operations are in range.
use manhattan_group.Base.{
  ℕ, zero, suc, ◌+◌, ◌/◌, ◌%◌, ◌^◌, ◌≤◌, ◌<◌, ◌≡◌, true, false, arith, ltb, Bool-cases, inl, inr,
}
use manhattan_group.Base.{ℤ, pos, negsuc, neg, tdiv, tmod, abs, eqb_ℤ}
use manhattan_group.Vm.Outcome.{ok, undefined, Returns}
use manhattan_group.Vm.Int64.{
  IsInt64, fits64, checked, div64, mod64, to_int64, to_uint32, shl64, shr64, shift_right,
}

pub to_int64-IsInt64 : (w : ℕ) → IsInt64 (to_int64 w)
to_int64-IsInt64 w = elim (Bool-cases (ltb (w % 2 ^ 64) (2 ^ 63))) [
  | inl e ↦ rw e (ground arith)
  | inr e ↦ rw e (ground arith)
]

pub to_uint32-lt : (a : ℤ) → to_uint32 a < 2 ^ 32
to_uint32-lt (pos n) = omega arith
to_uint32-lt (negsuc n) = omega arith

pub fits64→IsInt64 : (z : ℤ) → fits64 z ≡ true → IsInt64 z
fits64→IsInt64 (pos n) h = ground arith
fits64→IsInt64 (negsuc n) h = ground arith

pub IsInt64→fits64 : (z : ℤ) → IsInt64 z → fits64 z ≡ true
IsInt64→fits64 (pos n) h = ground arith
IsInt64→fits64 (negsuc n) h = ground arith

pub checked-InRange : (z : ℤ) → Returns IsInt64 (checked z)
unfolding checked
checked-InRange z = elim (Bool-cases (fits64 z)) [
  | inl e ↦ rw e (fits64→IsInt64 z e)
  | inr e ↦ rw e tt
]

-- A checked value that fits is returned.
pub checked_fits : (z : ℤ) → IsInt64 z → checked z ≡ ok z
unfolding checked
checked_fits z h = rw (IsInt64→fits64 z h)

pub checked_too_big : (z : ℤ) → fits64 z ≡ false → checked z ≡ undefined
unfolding checked
checked_too_big z h = rw h

tmod_nonneg : (a b : ℕ) → a < 2 ^ 63 → a % b < 2 ^ 63
tmod_nonneg a zero h = grind arith
tmod_nonneg a (suc b) h = grind arith

pub neg_pos-IsInt64 : (n : ℕ) → n < 2 ^ 63 + 1 → IsInt64 (neg (pos n))
unfolding neg
neg_pos-IsInt64 zero h = ground arith
neg_pos-IsInt64 (suc n) h = ground arith

pub mod-le : (a b : ℕ) → a % b ≤ a
mod-le a b = grind arith

pub tmod-IsInt64 : (a b : ℤ) → IsInt64 a → IsInt64 (tmod a b)
unfolding tmod
tmod-IsInt64 (pos a) b h = tmod_nonneg a (abs b) h
tmod-IsInt64 (negsuc a) b h =
    neg_pos-IsInt64 (suc a % abs b) (omega (arith, mod-le (suc a) (abs b)))

pub mod64-InRange : (a b : ℤ) → IsInt64 a → Returns IsInt64 (mod64 a b)
unfolding mod64
mod64-InRange a b h = elim (Bool-cases (eqb_ℤ b (pos 0))) [
  | inl e ↦ rw e tt
  | inr e ↦ elim (Bool-cases (fits64 (tdiv a b))) [
    | inl f ↦ rw (e, f) (tmod-IsInt64 a b h)
    | inr f ↦ rw (e, f) tt
  ]
]

pub div64-InRange : (a b : ℤ) → Returns IsInt64 (div64 a b)
unfolding div64
div64-InRange a b = elim (Bool-cases (eqb_ℤ b (pos 0))) [
  | inl e ↦ rw e tt
  | inr e ↦ rw e (checked-InRange (tdiv a b))
]

shift_right-IsInt64 : (a : ℤ) (k : ℕ) → IsInt64 a → IsInt64 (shift_right a k)
shift_right-IsInt64 (pos n) k h = div_lt n (2 ^ k) h
  where
    div_lt : (m d : ℕ) → m < 2 ^ 63 → m / d < 2 ^ 63
    div_lt m d h = grind arith
shift_right-IsInt64 (negsuc n) k h = div_lt n (2 ^ k) h
  where
    div_lt : (m d : ℕ) → m < 2 ^ 63 → m / d < 2 ^ 63
    div_lt m d h = grind arith

pub shr64-InRange : (a : ℤ) (k : ℕ) → IsInt64 a → Returns IsInt64 (shr64 a k)
unfolding shr64
shr64-InRange a k h = elim (Bool-cases (ltb k 64)) [
  | inl e ↦ rw e (shift_right-IsInt64 a k h)
  | inr e ↦ rw e tt
]

pub shl64-InRange : (a : ℤ) (k : ℕ) → Returns IsInt64 (shl64 a k)
unfolding shl64
shl64-InRange a k = elim (Bool-cases (ltb k 64)) [
  | inl e ↦ rw e (to_int64-IsInt64 _)
  | inr e ↦ rw e tt
]
