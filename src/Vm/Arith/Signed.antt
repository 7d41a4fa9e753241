-- ===== src/Vm/Arith/Signed.antt =====
-- SDIV is DIV, and SMOD is MOD but at the least value.
use manhattan_group.Base.{
  ℕ, zero, suc, ◌%◌, ◌^◌, ◌<◌, ◌≡◌, ◌≢◌, refl, Bool, true, false, arith, Bool-cases, inl, inr, ◌⊎◌,
  not, ◌&&◌, if◌then◌else◌,
}
use manhattan_group.Base.{ℤ, pos, negsuc, tdiv, tmod, eqb_ℤ, ltb_ℤ}
use manhattan_group.Base.Bits.{xor_fields}
use manhattan_group.Vm.Outcome.{Result, ok, undefined}
use manhattan_group.Vm.Int64.{IsInt64, int64_min, div64, mod64, xor64, checked}
use manhattan_group.Vm.Arith.{div, rem, sdiv, smod, sdiv_corrected, smod_corrected}
use manhattan_group.Vm.Arith.Division.{Overflows, div64_lem, mod64_lem, ne_zero}
use manhattan_group.Vm.Arith.Corrected.{sdiv_corrected_lem, smod_corrected_lem, neg64_least}

zero_or_not : (z : ℤ) → (z ≡ pos 0) ⊎ (z ≢ pos 0)
zero_or_not (pos zero) = inl refl
zero_or_not (pos (suc n)) = inr (λ e. ground arith)
zero_or_not (negsuc n) = inr (λ e. cc)

-- A test and a correction that changes nothing.
same_either_way :
    (t : Bool) (r : ℤ) (x : Result ℤ) (v : ℤ)
    → (r ≢ pos 0 → x ≡ ok v)
    → (if t && not (eqb_ℤ r (pos 0)) then x else ok v) ≡ ok v
same_either_way t (pos zero) x v h = ground arith
same_either_way true (pos (suc n)) x v h =
    let ne : pos (suc n) ≢ pos 0 = λ e. ground arith in rw (ne_zero (pos (suc n)) ne) (h ne)
same_either_way true (negsuc n) x v h =
    let ne : negsuc n ≢ pos 0 = λ e. cc in rw (ne_zero (negsuc n) ne) (h ne)
same_either_way false (pos (suc n)) x v h = refl
same_either_way false (negsuc n) x v h = refl

eqb→eq : (a b : ℤ) → eqb_ℤ a b ≡ true → a ≡ b
eqb→eq a b h = ground arith

eqb_refl_ne : (a b : ℤ) → eqb_ℤ a b ≡ false → a ≢ b
eqb_refl_ne a b h = λ e. ground arith

Overflows-or_not : (a b : ℤ) → Overflows a b ⊎ (¬ Overflows a b)
Overflows-or_not a b = elim (Bool-cases (eqb_ℤ a int64_min)) [
  | inr ne ↦ inr (λ o. eqb_refl_ne a int64_min ne o.0)
  | inl ea ↦ elim (Bool-cases (eqb_ℤ b (negsuc 0))) [
    | inr ne ↦ inr (λ o. eqb_refl_ne b (negsuc 0) ne o.1)
    | inl eb ↦ inl (eqb→eq a int64_min ea, eqb→eq b (negsuc 0) eb)
  ]
]

sdiv_overflow : (a b : ℤ) → Overflows a b → sdiv a b ≡ div a b
unfolding sdiv div div64 checked tdiv
sdiv_overflow a b o = rw (o.0, o.1)

sdiv_regular : (a b : ℤ) → IsInt64 a → b ≢ pos 0 → ¬ Overflows a b → sdiv a b ≡ div a b
unfolding sdiv div
sdiv_regular a b ha hb no_overflow =
    rw (ne_zero b hb, div64_lem a b ha hb no_overflow, mod64_lem a b ha hb no_overflow)
      (same_either_way (ltb_ℤ (xor64 a b) (pos 0)) (tmod a b) (sdiv_corrected a b) (tdiv a b)
        (sdiv_corrected_lem a b ha hb))

-- SDIV does what DIV does, for every `int64_t` as the dividend: the same quotient, the same `exit(1)` for a divisor 0,
-- the same undefined overflow.
pub sdiv-div : (a b : ℤ) → IsInt64 a → sdiv a b ≡ div a b
sdiv-div a b ha = elim (zero_or_not b) [
  | inl e ↦ by_zero e
  | inr hb ↦ elim (Overflows-or_not a b) [
    | inl o ↦ sdiv_overflow a b o
    | inr no_overflow ↦ sdiv_regular a b ha hb no_overflow
  ]
]
  where
    by_zero : b ≡ pos 0 → sdiv a b ≡ div a b
    by_zero e = unfold sdiv div in rw e

-- SMOD does what MOD does for every `int64_t` but the least as the dividend.
pub smod-rem : (a b : ℤ) → IsInt64 a → a ≢ int64_min → smod a b ≡ rem a b
smod-rem a b ha ne = elim (zero_or_not b) [ inl e ↦ by_zero e | inr hb ↦ regular hb ]
  where
    by_zero : b ≡ pos 0 → smod a b ≡ rem a b
    by_zero e = unfold smod rem in rw e

    regular : b ≢ pos 0 → smod a b ≡ rem a b
    regular hb =
        unfold smod rem in
        rw (ne_zero b hb, mod64_lem a b ha hb (λ o. ne o.0))
          (same_either_way (ltb_ℤ (xor64 a b) (pos 0)) (tmod a b) (smod_corrected a b) (tmod a b)
            (smod_corrected_lem a b ha hb ne))

-- The least `int64_t` and a positive divisor differ in sign.
signs_differ : (n : ℕ) → n < 2 ^ 63 → ltb_ℤ (xor64 int64_min (pos n)) (pos 0) ≡ true
unfolding xor64
signs_differ n h = rw word (ground (arith, xor_fields 63 1 n h))
  where
    word : n % 2 ^ 64 ≡ n
    word = omega arith

-- With the least `int64_t` as the dividend and a positive `int64_t` that leaves a remainder as the
-- divisor, SMOD is undefined (it negates the dividend), where MOD gives the remainder.
pub smod_least :
    (n : ℕ)
    → n < 2 ^ 63
    → tmod int64_min (pos n) ≢ pos 0
    → 0 < n
    → (smod int64_min (pos n) ≡ undefined) × (rem int64_min (pos n) ≡ ok (tmod int64_min (pos n)))
unfolding smod rem smod_corrected
smod_least n h hr positive = (
  rw (ne_zero (pos n) hb, defined, signs_differ n h, nonzero, neg64_least),
  rw (ne_zero (pos n) hb, defined),
)
  where
    hb : pos n ≢ pos 0
    hb e = ground arith

    defined : mod64 int64_min (pos n) ≡ ok (tmod int64_min (pos n))
    defined = mod64_lem int64_min (pos n) (omega arith) hb (λ o. cc o.1)

    nonzero : eqb_ℤ (tmod int64_min (pos n)) (pos 0) ≡ false
    nonzero = ne_zero (tmod int64_min (pos n)) hr
