-- ===== src/Vm/Valid/Values.antt =====
-- The values that the instructions push are `int64_t` values.
use manhattan_group.Base.{
  ℕ, zero, suc, ◌*◌, ◌/◌, Bool, true, false, not, ◌&&◌, ◌==◌, bit_and, ltb, leb, if◌then◌else◌,
  arith,
}
use manhattan_group.Base.{ℤ, pos, negsuc, ltb_ℤ, eqb_ℤ}
use manhattan_group.Vm.Outcome.{
  Result, ok, exits, undefined, ◌>>=◌, Returns, Returns-bind, Returns-exit_if, Returns-if,
  division_by_zero, modulo_by_zero, byte_offset_out_of_range, exponent_overflow,
}
use manhattan_group.Vm.Int64.{
  IsInt64, int64_min, to_uint32, add64, sub64, mul64, neg64, div64, mod64, and64, or64, xor64,
  not64, shr64,
}
use manhattan_group.Vm.Int64.Range.{
  to_int64-IsInt64, checked-InRange, mod64-InRange, div64-InRange, shr64-InRange, shl64-InRange,
}
use manhattan_group.Vm.Arith
use manhattan_group.Vm.Compare
use manhattan_group.Vm.Compare.{of_Bool}

abbrev pub InRange : Result ℤ → Type 0
InRange = Returns IsInt64

-- The results of a chain of operations are those of its last one.
then-InRange : (m : Result ℤ) (f : ℤ → Result ℤ) → ((a : ℤ) → InRange (f a)) → InRange (m >>= f)
then-InRange (ok a) f h = h a
then-InRange (exits e) f h = tt
then-InRange undefined f h = tt

pub add-InRange : (a b : ℤ) → InRange (Arith.add a b)
unfolding Arith.add
add-InRange a b = checked-InRange _

pub mul-InRange : (a b : ℤ) → InRange (Arith.mul a b)
unfolding Arith.mul
mul-InRange a b = checked-InRange _

pub sub-InRange : (a b : ℤ) → InRange (Arith.sub a b)
unfolding Arith.sub
sub-InRange a b = checked-InRange _

pub div-InRange : (a b : ℤ) → InRange (Arith.div a b)
unfolding Arith.div
div-InRange a b = Returns-exit_if IsInt64 (eqb_ℤ b (pos 0)) division_by_zero _ (div64-InRange a b)

neg64-InRange : (a : ℤ) → InRange (neg64 a)
unfolding neg64
neg64-InRange a = checked-InRange _

sdiv_corrected-InRange : (a b : ℤ) → InRange (Arith.sdiv_corrected a b)
unfolding Arith.sdiv_corrected
sdiv_corrected-InRange a b = then-InRange (mod64 a b) _ λ r.
    then-InRange (sub64 a r) _
      λ d. then-InRange (neg64 d) _ λ m. then-InRange (div64 m b) _ neg64-InRange

pub sdiv-InRange : (a b : ℤ) → InRange (Arith.sdiv a b)
unfolding Arith.sdiv
sdiv-InRange a b = Returns-exit_if IsInt64 (eqb_ℤ b (pos 0)) division_by_zero _ (
    Returns-bind IsInt64 IsInt64 (div64 a b) _ (div64-InRange a b) λ q hq.
      then-InRange (mod64 a b) _ λ r.
        Returns-if IsInt64 (ltb_ℤ (xor64 a b) (pos 0) && not (eqb_ℤ r (pos 0))) _ _
          (sdiv_corrected-InRange a b) hq)

pub rem-InRange : (a b : ℤ) → IsInt64 a → InRange (Arith.rem a b)
unfolding Arith.rem
rem-InRange a b h =
    Returns-exit_if IsInt64 (eqb_ℤ b (pos 0)) division_by_zero _ (mod64-InRange a b h)

add64-InRange : (a b : ℤ) → InRange (add64 a b)
unfolding add64
add64-InRange a b = checked-InRange _

smod_corrected-InRange : (a b : ℤ) → InRange (Arith.smod_corrected a b)
unfolding Arith.smod_corrected
smod_corrected-InRange a b =
    then-InRange (neg64 a) _
      λ m. then-InRange (div64 m b) _ λ q. then-InRange (mul64 q b) _ λ p. add64-InRange p a

pub smod-InRange : (a b : ℤ) → IsInt64 a → InRange (Arith.smod a b)
unfolding Arith.smod
smod-InRange a b h = Returns-exit_if IsInt64 (eqb_ℤ b (pos 0)) division_by_zero _ (
    Returns-bind IsInt64 IsInt64 (mod64 a b) _ (mod64-InRange a b h) λ r hr.
      Returns-if IsInt64 (ltb_ℤ (xor64 a b) (pos 0) && not (eqb_ℤ r (pos 0))) _ _
        (smod_corrected-InRange a b) hr)

pub addmod-InRange : (a b c : ℤ) → InRange (Arith.addmod a b c)
unfolding Arith.addmod
addmod-InRange a b c =
    Returns-exit_if IsInt64 (eqb_ℤ c (pos 0)) modulo_by_zero _
      (Returns-bind IsInt64 IsInt64 (add64 a b) _ (add64-InRange a b) λ t h. mod64-InRange t c h)

mul64-InRange : (a b : ℤ) → InRange (mul64 a b)
unfolding mul64
mul64-InRange a b = checked-InRange _

pub mulmod-InRange : (a b c : ℤ) → InRange (Arith.mulmod a b c)
unfolding Arith.mulmod
mulmod-InRange a b c =
    Returns-exit_if IsInt64 (eqb_ℤ c (pos 0)) modulo_by_zero _
      (Returns-bind IsInt64 IsInt64 (mul64 a b) _ (mul64-InRange a b) λ t h. mod64-InRange t c h)

exp_multiply-InRange : (r a : ℤ) → InRange (Arith.exp_multiply r a)
unfolding Arith.exp_multiply
exp_multiply-InRange r a =
    Returns-bind IsInt64 IsInt64 (mul64 r a) _ (mul64-InRange r a)
      λ p h. Returns-exit_if IsInt64 (ltb_ℤ p a) exponent_overflow _ h

exp_loop-InRange : (f : ℕ) (r a : ℤ) (n : ℕ) → IsInt64 r → InRange (Arith.exp_loop f r a n)
unfolding Arith.exp_loop
exp_loop-InRange zero r a n h = tt
exp_loop-InRange (suc f) r a n h =
    elim (n == 0)
      as (λ b. InRange (elim b [
        | true ↦ ok r
        | false ↦ (if bit_and n 1 == 1 then Arith.exp_multiply r a else ok r) >>= λ r'.
            Arith.exp_square a >>= λ a'. Arith.exp_loop f r' a' (n / 2)
      ])) [
        | true ↦ h
        | false ↦
            Returns-bind IsInt64 IsInt64 (if bit_and n 1 == 1 then Arith.exp_multiply r a else ok r)
              _ (Returns-if IsInt64 (bit_and n 1 == 1) _ _ (exp_multiply-InRange r a) h)
              λ r' hr. then-InRange (Arith.exp_square a) _ λ a'. exp_loop-InRange f r' a' (n / 2) hr
      ]

pub exp-InRange : (a b : ℤ) → InRange (Arith.exp a b)
unfolding Arith.exp
exp-InRange a (pos n) = exp_loop-InRange 64 (pos 1) a n (omega arith)
exp-InRange a (negsuc n) = omega arith

pub signextend-InRange : (a b : ℤ) → IsInt64 a → InRange (Arith.signextend a b)
unfolding Arith.signextend and64
signextend-InRange a b h =
    Returns-if IsInt64 (bit_and (to_uint32 b) 0x8000_0000 == 0) _ _ h (to_int64-IsInt64 _)

of_Bool-IsInt64 : (b : Bool) → IsInt64 (of_Bool b)
of_Bool-IsInt64 true = omega arith
of_Bool-IsInt64 false = omega arith

module _ (a b : ℤ) where
  pub lt-InRange : InRange (Compare.lt a b)
  unfolding Compare.lt
  lt-InRange = of_Bool-IsInt64 _

  pub gt-InRange : InRange (Compare.gt a b)
  unfolding Compare.gt
  gt-InRange = of_Bool-IsInt64 _

  pub slt-InRange : InRange (Compare.slt a b)
  unfolding Compare.slt
  slt-InRange = of_Bool-IsInt64 _

  pub sgt-InRange : InRange (Compare.sgt a b)
  unfolding Compare.sgt
  sgt-InRange = of_Bool-IsInt64 _

  pub eq-InRange : InRange (Compare.eq a b)
  unfolding Compare.eq
  eq-InRange = of_Bool-IsInt64 _

  pub and-InRange : InRange (Compare.bitwise_and a b)
  unfolding Compare.bitwise_and and64
  and-InRange = to_int64-IsInt64 _

  pub or-InRange : InRange (Compare.bitwise_or a b)
  unfolding Compare.bitwise_or or64
  or-InRange = to_int64-IsInt64 _

  pub xor-InRange : InRange (Compare.bitwise_xor a b)
  unfolding Compare.bitwise_xor xor64
  xor-InRange = to_int64-IsInt64 _

  pub byte-InRange : InRange (Compare.byte a b)
  unfolding Compare.byte and64
  byte-InRange =
      Returns-exit_if IsInt64 (leb 32 (to_uint32 b)) byte_offset_out_of_range _
        (then-InRange (shr64 a (8 * to_uint32 b)) _ λ w. to_int64-IsInt64 _)

  pub shl-InRange : InRange (Compare.shl a b)
  unfolding Compare.shl
  shl-InRange =
      Returns-if IsInt64 (ltb 255 (to_uint32 b)) _ _ (omega arith) (shl64-InRange a (to_uint32 b))

  pub shr-InRange : IsInt64 a → InRange (Compare.shr a b)
  unfolding Compare.shr
  shr-InRange h =
      Returns-if IsInt64 (ltb 255 (to_uint32 b)) _ _ (omega arith) (shr64-InRange a (to_uint32 b) h)

  pub sar-InRange : IsInt64 a → InRange (Compare.sar a b)
  unfolding Compare.sar
  sar-InRange h =
      Returns-if IsInt64 (ltb 63 (to_uint32 b)) _ _ (sign _) (shr64-InRange a (to_uint32 b) h)
    where
      sign : (t : Bool) → IsInt64 (if t then int64_min else pos 0)
      sign true = omega arith
      sign false = omega arith

pub iszero-InRange : (a : ℤ) → InRange (Compare.iszero a)
unfolding Compare.iszero
iszero-InRange a = of_Bool-IsInt64 _

pub not-InRange : (a : ℤ) → InRange (Compare.bitwise_not a)
unfolding Compare.bitwise_not not64
not-InRange a = to_int64-IsInt64 _
