-- ===== src/Chain/Verify/Shifted.antt =====
-- The text that is hashed has no separators: blocks that differ can have the same one.
use manhattan_group.Base.{
  ℕ, suc, ◌+◌, ◌*◌, ◌/◌, ◌%◌, ◌≤◌, ◌<◌, ◌≡◌, refl, sym, ◌∙◌, ap, List, [], ◌∷◌, ◌++◌, arith,
}
use manhattan_group.Base.{ℤ, pos, negsuc}
use mathlib.Core.Path.{fun_ext}
use mathlib.Core.List.{append_assoc}
use manhattan_group.Vm.Outcome.{ok, ◌>>=◌}
use manhattan_group.Chain.Text.{c_string, print_ℤ, digits_of}
use manhattan_group.Chain.Digits.{digits_of-one, digits_of-more, digits_of-append}
use manhattan_group.Chain.Block.{Block, block_text}
use manhattan_group.Chain.Verify.{validate_block}

-- The decimal digits of a number and one more.
print-digit :
    (t d : ℕ) → 1 ≤ t → d < 10 → print_ℤ (pos (10 * t + d)) ≡ print_ℤ (pos t) ++ (48 + d) ∷ []
unfolding print_ℤ
print-digit t d pos_t small =
    let n = 10 * t + d in
    ap (λ (f : ℕ). digits_of f n []) (next n)
    ∙ digits_of-more n n [] (omega arith)
    ∙ digits_of-append n (t + 1) (n / 10) ((48 + n % 10) ∷ []) (omega arith) (omega arith)
    ∙ ap (λ (q : ℕ). digits_of (t + 1) q [] ++ (48 + n % 10) ∷ []) (quotient t d small)
    ∙ ap (λ (r : ℕ). digits_of (t + 1) t [] ++ (48 + r) ∷ []) (remainder t d small)
  where
    next : (n : ℕ) → n + 1 ≡ suc n
    next n = omega arith

    quotient : (t d : ℕ) → d < 10 → (10 * t + d) / 10 ≡ t
    quotient t d h = omega arith

    remainder : (t d : ℕ) → d < 10 → (10 * t + d) % 10 ≡ d
    remainder t d h = omega arith

print-one : (d : ℕ) → d < 10 → print_ℤ (pos d) ≡ (48 + d) ∷ []
unfolding print_ℤ
print-one d small =
    ap (λ (f : ℕ). digits_of f d []) (next d)
    ∙ digits_of-one d d [] small
    ∙ ap (λ (r : ℕ). (48 + r) ∷ []) (same d small)
  where
    next : (n : ℕ) → n + 1 ≡ suc n
    next n = omega arith

    same : (d : ℕ) → d < 10 → d % 10 ≡ d
    same d h = omega arith

-- A time and a count of two digits print as the time with the first of them and the second.
print-shifted :
    (t d n : ℕ)
    → 1 ≤ t
    → 1 ≤ d
    → d < 10
    → n < 10
    → print_ℤ (pos t) ++ print_ℤ (pos (10 * d + n)) ≡ print_ℤ (pos (10 * t + d)) ++ print_ℤ (pos n)
print-shifted t d n pos_t pos_d small_d small_n =
    rw
      (
        print-digit t d pos_t small_d,
        print-digit d n pos_d small_n,
        print-one d small_d,
        print-one n small_n,
        append_assoc,
      )
      refl

module _ (b : Block) (t d n : ℕ) where
  -- The same block with the first digit of its count behind its time.
  abbrev pub at_time : Block
  at_time = record b { timestamp = pos t; transaction_count = pos (10 * d + n) }

  abbrev pub shifted : Block
  shifted = record b { timestamp = pos (10 * t + d); transaction_count = pos n }

  block_text-shifted : 1 ≤ t → 1 ≤ d → d < 10 → n < 10 → block_text at_time ≡ block_text shifted
  unfolding block_text
  block_text-shifted pos_t pos_d small_d small_n =
      ap
        (λ (text : List ℕ → List ℕ → List ℕ).
          c_string b.previous_hash >>= λ p. c_string b.transaction_bundle >>= λ x. ok (text p x))
        (fun_ext λ p. fun_ext λ x. ap (λ (front : List ℕ). front ++ x) (regroup p))
    where
      front : List ℕ → List ℕ
      front p = print_ℤ b.block_index ++ p

      regroup :
          (p : List ℕ)
          → front p ++ print_ℤ (pos t) ++ print_ℤ (pos (10 * d + n))
            ≡ front p ++ print_ℤ (pos (10 * t + d)) ++ print_ℤ (pos n)
      regroup p =
          append_assoc (front p) (print_ℤ (pos t)) (print_ℤ (pos (10 * d + n)))
          ∙ ap (λ (ys : List ℕ). front p ++ ys) (print-shifted t d n pos_t pos_d small_d small_n)
          ∙ sym (append_assoc (front p) (print_ℤ (pos (10 * t + d))) (print_ℤ (pos n)))

  -- A block with a positive time and a count of transactions from 10 to 99 has the same hashes as the
  -- block in which the first digit of the count stands behind the time instead: with every nonce and
  -- difficulty `validate_block` says the same of the two, so a mined block can be changed into another
  -- that is accepted.
  pub validate_block-shifted :
      (sha384 : List ℕ → List ℕ) (difficulty : ℤ)
      → 1 ≤ t
      → 1 ≤ d
      → d < 10
      → n < 10
      → validate_block sha384 at_time difficulty ≡ validate_block sha384 shifted difficulty
  unfolding validate_block
  validate_block-shifted sha384 (pos k) pos_t pos_d small_d small_n =
      rw (block_text-shifted pos_t pos_d small_d small_n) refl
  validate_block-shifted sha384 (negsuc k) pos_t pos_d small_d small_n =
      rw (block_text-shifted pos_t pos_d small_d small_n) refl
