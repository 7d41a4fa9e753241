-- ===== src/Vm/Compare/Truncated.antt =====
-- What opcodes 0x10 to 0x1d of vm.c compute, with the 32-bit variable that some of them pop into.
use native.Mathlib.Nat.{one-le-pow, mul-div_cancel, div-eq_of_lt-le}
use manhattan_group.Base.{
  ℕ, zero, suc, ◌+◌, ◌-◌, ◌*◌, ◌/◌, ◌%◌, ◌^◌, ◌≤◌, ◌<◌, ◌≡◌, refl, ap, true, false, arith, ltb, leb,
  if◌then◌else◌, Bool-cases, inl, inr,
}
use manhattan_group.Base.{ℤ, pos, negsuc, ltb_ℤ, eqb_ℤ, pos_part, ◌⊎◌, ◌==◌, not, ◌&&◌}
use manhattan_group.Base.Bits.{and_low_mask}
use manhattan_group.Vm.Outcome.{ok, undefined, exits, byte_offset_out_of_range}
use manhattan_group.Vm.Int64.{
  IsInt64, int64_min, and64, shl64, shr64, shift_right, to_uint32, to_int64, word64,
}
use manhattan_group.Vm.Compare.{of_Bool, lt, gt, slt, sgt, eq, byte, shl, shr, sar}

small32 : (n : ℕ) → n < 2 ^ 32 → to_uint32 (pos n) ≡ n
small32 n h = omega arith

-- The comparison is with the value of the top operand if that is from 0 to 2 ^ 32 - 1 (for EQ, if the
-- deeper operand is): LT and SLT test a < b, GT and SGT test b < a, and EQ tests a = b.
pub comparisons_exact :
    (a : ℤ) (n : ℕ)
    → n < 2 ^ 32
    → (lt a (pos n) ≡ ok (of_Bool (ltb_ℤ a (pos n))))
      × (slt a (pos n) ≡ ok (of_Bool (ltb_ℤ a (pos n))))
      × (gt a (pos n) ≡ ok (of_Bool (ltb_ℤ (pos n) a)))
      × (sgt a (pos n) ≡ ok (of_Bool (ltb_ℤ (pos n) a)))
      × (eq (pos n) a ≡ ok (of_Bool (eqb_ℤ a (pos n))))
unfolding lt slt gt sgt eq
comparisons_exact a n h = rw (small32 n h) (refl, refl, refl, refl, refl)

-- EQ of an `int64_t` with itself is 1 exactly if the value is from 0 to 2 ^ 32 - 1, and else 0.
pub eq_self :
    (a : ℤ) → IsInt64 a → eq a a ≡ ok (of_Bool (ltb (pos_part a) (2 ^ 32) && not (ltb_ℤ a (pos 0))))
unfolding eq
eq_self (pos n) h = self_nonneg (Bool-cases (n == n % 2 ^ 32))
  where
    self_nonneg :
        ((n == n % 2 ^ 32) ≡ true) ⊎ ((n == n % 2 ^ 32) ≡ false)
        → eq (pos n) (pos n) ≡ ok (of_Bool (ltb n (2 ^ 32) && not (ltb_ℤ (pos n) (pos 0))))
    self_nonneg c = ground arith
eq_self (negsuc n) h = ground arith

small_int64 : (w : ℕ) → w < 2 ^ 63 → to_int64 w ≡ pos w
small_int64 w h = ground arith

and64-ff : (w : ℤ) → and64 w (pos 0xff) ≡ pos (word64 w % 256)
unfolding and64
and64-ff w = rw (and_low_mask 8 (word64 w), small_int64 (word64 w % 256) (omega arith))

shifted_byte :
    (a : ℤ) (b : ℕ)
    → IsInt64 a
    → b < 8
    → word64 (shift_right a (8 * b)) % 256 ≡ word64 a / 2 ^ (8 * b) % 256
shifted_byte (pos n) zero h k = omega arith
shifted_byte (negsuc n) zero h k = omega arith
shifted_byte (pos n) (suc zero) h k = omega arith
shifted_byte (negsuc n) (suc zero) h k = omega arith
shifted_byte (pos n) (suc (suc zero)) h k = omega arith
shifted_byte (negsuc n) (suc (suc zero)) h k = omega arith
shifted_byte (pos n) (suc (suc (suc zero))) h k = omega arith
shifted_byte (negsuc n) (suc (suc (suc zero))) h k = omega arith
shifted_byte (pos n) (suc (suc (suc (suc zero)))) h k = omega arith
shifted_byte (negsuc n) (suc (suc (suc (suc zero)))) h k = omega arith
shifted_byte (pos n) (suc (suc (suc (suc (suc zero))))) h k = omega arith
shifted_byte (negsuc n) (suc (suc (suc (suc (suc zero))))) h k = omega arith
shifted_byte (pos n) (suc (suc (suc (suc (suc (suc zero)))))) h k = omega arith
shifted_byte (negsuc n) (suc (suc (suc (suc (suc (suc zero)))))) h k = omega arith
shifted_byte (pos n) (suc (suc (suc (suc (suc (suc (suc zero))))))) h k = omega arith
shifted_byte (negsuc n) (suc (suc (suc (suc (suc (suc (suc zero))))))) h k = omega arith
shifted_byte a (suc (suc (suc (suc (suc (suc (suc (suc b)))))))) h k = absurd (omega arith)

-- BYTE of an `int64_t` with an offset b below 8 is the byte of the two's complement pattern that has b bytes below
-- it: offset 0 is the lowest byte.
pub byte_lem :
    (a : ℤ) (b : ℕ) → IsInt64 a → b < 8 → byte a (pos b) ≡ ok (pos (word64 a / 2 ^ (8 * b) % 256))
unfolding byte shr64
byte_lem a b h k = rw (
  small32 b (omega arith),
  below32 b k,
  below64 b k,
  and64-ff (shift_right a (8 * b)),
  shifted_byte a b h k,
)
  where
    below32 : (b : ℕ) → b < 8 → leb 32 b ≡ false
    below32 b k = ground arith

    below64 : (b : ℕ) → b < 8 → ltb (8 * b) 64 ≡ true
    below64 b k = ground arith

-- BYTE with an offset from 8 to 31 shifts an `int64_t` by 64 or more, which is undefined; with one from
-- 32 to 2 ^ 32 - 1 it exits.
pub byte_too_far :
    (a : ℤ) (b : ℕ)
    → 8 ≤ b
    → b < 2 ^ 32
    → byte a (pos b) ≡ (if ltb b 32 then undefined else exits byte_offset_out_of_range)
unfolding byte shr64
byte_too_far a b h k = ground arith

-- For a count below 2 ^ 32: SHL and SHR by 64 to 255 are undefined and by more give 0; SAR by 64 or
-- more gives 0 for a value that is not negative and INT64_MIN (not -1) for a negative one.
pub large_shifts :
    (a : ℤ) (k : ℕ)
    → 64 ≤ k
    → k < 2 ^ 32
    → (shl a (pos k) ≡ (if leb k 255 then undefined else ok (pos 0)))
      × (shr a (pos k) ≡ (if leb k 255 then undefined else ok (pos 0)))
      × (sar a (pos k) ≡ ok (if ltb_ℤ a (pos 0) then int64_min else pos 0))
unfolding shl shr sar shl64 shr64
large_shifts a k h l = rw (small32 k l) (elim (Bool-cases (leb k 255)) [
  | inl e ↦ rw (above k e, far k h, long k h, e) (refl, refl, refl)
  | inr e ↦ rw (beyond k e, long k h, e) (refl, refl, refl)
])
  where
    above : (k : ℕ) → leb k 255 ≡ true → ltb 255 k ≡ false
    above k e = ground arith

    beyond : (k : ℕ) → leb k 255 ≡ false → ltb 255 k ≡ true
    beyond k e = ground arith

    far : (k : ℕ) → 64 ≤ k → ltb k 64 ≡ false
    far k h = ground arith

    long : (k : ℕ) → 64 ≤ k → ltb 63 k ≡ true
    long k h = ground arith

-- The multiples of 2 ^ k, for SHL.
abbrev pub scaled : ℤ → ℕ → ℤ
scaled (pos n) k = pos (n * 2 ^ k)
scaled (negsuc n) k = negsuc (n * 2 ^ k + 2 ^ k - 1)

wrapped_product : (w n p : ℕ) → w + n + 1 ≡ 2 ^ 64 → w * p + (n * p + p) ≡ 2 ^ 64 * p
wrapped_product w n p e = omega (arith, ap (λ (t : ℕ). t * p) e)

top_pattern :
    (w m p : ℕ)
    → w * p + (m + p) ≡ 2 ^ 64 * p
    → 1 ≤ p
    → m + p - 1 < 2 ^ 63
    → to_int64 (w * p) ≡ negsuc (m + p - 1)
top_pattern w m p e h l = ground arith

shifted_pattern :
    (a : ℤ) (k : ℕ) → IsInt64 a → IsInt64 (scaled a k) → to_int64 (word64 a * 2 ^ k) ≡ scaled a k
shifted_pattern (pos n) k h f = rw (small64 n h) (small_int64 (n * 2 ^ k) f)
  where
    small64 : (n : ℕ) → n < 2 ^ 63 → n % 2 ^ 64 ≡ n
    small64 n h = omega arith
shifted_pattern (negsuc n) k h f =
    top_pattern (word64 (negsuc n)) (n * 2 ^ k) (2 ^ k)
      (wrapped_product (word64 (negsuc n)) n (2 ^ k) (omega arith)) (one-le-pow k 2 (omega arith)) f

shift_back : (a : ℤ) (k : ℕ) → shift_right (scaled a k) k ≡ a
shift_back (pos n) k = ap pos (mul-div_cancel n (one-le-pow k 2 (omega arith)))
shift_back (negsuc n) k = ap negsuc (round_down (2 ^ k) (one-le-pow k 2 (omega arith)))
  where
    round_down : (p : ℕ) → 1 ≤ p → (n * p + p - 1) / p ≡ n
    round_down p h = div-eq_of_lt-le p (omega arith) (omega arith)

-- Where a and a * 2 ^ k are in the range of an `int64_t` and k is below 64, SHL by k gives that product
-- (of a negative value too), and SAR and SHR of it by k give the value back.
pub shl_lem :
    (a : ℤ) (k : ℕ)
    → IsInt64 a
    → IsInt64 (scaled a k)
    → k < 64
    → (shl a (pos k) ≡ ok (scaled a k))
      × (sar (scaled a k) (pos k) ≡ ok a)
      × (shr (scaled a k) (pos k) ≡ ok a)
unfolding shl shr sar shl64 shr64
shl_lem a k h f l =
    rw
      (
        small32 k (omega arith),
        not_far k l,
        not_long k l,
        near k l,
        shifted_pattern a k h f,
        shift_back a k,
      )
      (refl, refl, refl)
  where
    not_far : (k : ℕ) → k < 64 → ltb 255 k ≡ false
    not_far k l = ground arith

    not_long : (k : ℕ) → k < 64 → ltb 63 k ≡ false
    not_long k l = ground arith

    near : (k : ℕ) → k < 64 → ltb k 64 ≡ true
    near k l = ground arith
