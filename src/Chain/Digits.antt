-- ===== src/Chain/Digits.antt =====
-- The digits that `%d` and `%ld` print, one by one.
use manhattan_group.Base.{
  ℕ, zero, suc, ◌/◌, ◌%◌, ◌≤◌, ◌<◌, ◌≡◌, sym, ◌∙◌, ap, Bool, true, false, List, [], ◌∷◌, ◌++◌, ◌==◌,
  ◌+◌, arith,
}
use mathlib.Core.List.{append_assoc}
use native.Mathlib.Decide.{dec_lt}
use manhattan_group.Chain.Text.{digits_of}

pub digits_of-one :
    (fuel n : ℕ) (later : List ℕ) → n < 10 → digits_of (suc fuel) n later ≡ (48 + n % 10) ∷ later
digits_of-one fuel n later small = ap on_test is_last
  where
    on_test : Bool → List ℕ
    on_test true = (48 + n % 10) ∷ later
    on_test false = digits_of fuel (n / 10) ((48 + n % 10) ∷ later)

    is_last : (n / 10 == 0) ≡ true
    is_last = ground arith

pub digits_of-more :
    (fuel n : ℕ) (later : List ℕ)
    → 10 ≤ n
    → digits_of (suc fuel) n later ≡ digits_of fuel (n / 10) ((48 + n % 10) ∷ later)
digits_of-more fuel n later large = ap on_test is_more
  where
    on_test : Bool → List ℕ
    on_test true = (48 + n % 10) ∷ later
    on_test false = digits_of fuel (n / 10) ((48 + n % 10) ∷ later)

    is_more : (n / 10 == 0) ≡ false
    is_more = ground arith

-- The digits stand in front of what follows, with any fuel that is enough.
pub digits_of-append :
    (f g n : ℕ) (later : List ℕ) → n < f → n < g → digits_of f n later ≡ digits_of g n [] ++ later
digits_of-append zero g n later hf hg = absurd (omega arith)
digits_of-append (suc f) zero n later hf hg = absurd (omega arith)
digits_of-append (suc f) (suc g) n later hf hg = elim (dec_lt n 10) [
  | yes small ↦
      digits_of-one f n later small
      ∙ ap (λ (xs : List ℕ). xs ++ later) (sym (digits_of-one g n [] small))
  | no large ↦
      digits_of-more f n later (omega arith)
      ∙ digits_of-append f g (n / 10) ((48 + n % 10) ∷ later) (omega arith) (omega arith)
      ∙ sym (append_assoc (digits_of g (n / 10) []) ((48 + n % 10) ∷ []) later)
      ∙ ap (λ (xs : List ℕ). xs ++ later)
          (sym (
            digits_of-more g n [] (omega arith)
            ∙ digits_of-append g g (n / 10) ((48 + n % 10) ∷ []) (omega arith) (omega arith)))
]
