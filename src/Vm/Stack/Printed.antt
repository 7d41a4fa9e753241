-- ===== src/Vm/Stack/Printed.antt =====
-- What `print_stack` of vm.c prints.
use manhattan_group.Base.{
  ℕ, zero, suc, ◌+◌, ◌-◌, ◌*◌, ◌/◌, ◌%◌, ◌<◌, ◌≡◌, refl, sym, ◌∙◌, ap, Bool, true, false, List, [],
  ◌∷◌, ◌++◌, drop, ◌==◌, arith,
}
use manhattan_group.Base.{ℤ, pos, negsuc}
use mathlib.Core.List.{append_assoc}
use native.Mathlib.Decide.{dec_lt}
use manhattan_group.Chain.Text.{print_ℤ, digits_of}
use manhattan_group.Chain.Digits.{digits_of-one, digits_of-more, digits_of-append}
use manhattan_group.Vm.Stack.{Stack}

-- The loop, from `top` down.
abbrev pub print_items : List ℤ → List ℕ
print_items [] = []
print_items (v ∷ vs) = print_ℤ v ++ 32 ∷ print_items vs

-- "Stack:", a newline, the values, and a newline.
unfoldable pub print_stack : Stack → List ℕ
print_stack s = 83 ∷ 116 ∷ 97 ∷ 99 ∷ 107 ∷ 58 ∷ 10 ∷ print_items s.items ++ 10 ∷ []

abbrev pub read_sign : Bool → ℕ → ℤ
read_sign false n = pos n
read_sign true zero = pos 0
read_sign true (suc n) = negsuc n

-- The values of a text in which each is followed by a space, where `n` is read of the first one.
abbrev pub read_items : Bool → ℕ → List ℕ → List ℤ
read_items negative n [] = []
read_items negative n (c ∷ text) = elim (c == 32) [
  | true ↦ read_sign negative n ∷ read_items false 0 text
  | false ↦ elim (c == 45) [
    | true ↦ read_items true n text
    | false ↦ read_items negative (10 * n + (c - 48)) text
  ]
]

read_items-digit :
    (negative : Bool) (n d : ℕ) (text : List ℕ)
    → d < 10
    → read_items negative n ((48 + d) ∷ text) ≡ read_items negative (10 * n + d) text
read_items-digit negative n d text small =
    ap on_space no_space
    ∙ ap on_sign no_sign
    ∙ ap (λ k. read_items negative (10 * n + k) text) value
  where
    on_sign : Bool → List ℤ
    on_sign true = read_items true n text
    on_sign false = read_items negative (10 * n + (48 + d - 48)) text

    on_space : Bool → List ℤ
    on_space true = read_sign negative n ∷ read_items false 0 text
    on_space false = on_sign (48 + d == 45)

    no_space : (48 + d == 32) ≡ false
    no_space = ground arith

    no_sign : (48 + d == 45) ≡ false
    no_sign = ground arith

    value : 48 + d - 48 ≡ d
    value = omega arith

read_items-digits_of :
    (negative : Bool) (fuel n : ℕ) (text : List ℕ)
    → n < fuel
    → read_items negative 0 (digits_of fuel n text) ≡ read_items negative n text
read_items-digits_of negative zero n text h = absurd (omega arith)
read_items-digits_of negative (suc fuel) n text h = elim (dec_lt n 10) [
  | yes small ↦
      ap (read_items negative 0) (digits_of-one fuel n text small)
      ∙ read_items-digit negative 0 (n % 10) text (omega arith)
      ∙ ap (λ k. read_items negative k text) (omega arith)
  | no large ↦
      ap (read_items negative 0) (digits_of-more fuel n text (omega arith))
      ∙ read_items-digits_of negative fuel (n / 10) ((48 + n % 10) ∷ text) (omega arith)
      ∙ read_items-digit negative (n / 10) (n % 10) text (omega arith)
      ∙ ap (λ k. read_items negative k text) (omega arith)
]

-- One value.
read_items-print_ℤ :
    (v : ℤ) (text : List ℕ)
    → read_items false 0 (print_ℤ v ++ 32 ∷ text) ≡ v ∷ read_items false 0 text
unfolding print_ℤ
read_items-print_ℤ (pos n) text =
    ap (read_items false 0)
      (sym (digits_of-append (n + 1) (n + 1) n (32 ∷ text) (omega arith) (omega arith)))
    ∙ read_items-digits_of false (n + 1) n (32 ∷ text) (omega arith)
read_items-print_ℤ (negsuc n) text =
    ap (read_items true 0)
      (sym (digits_of-append (n + 2) (n + 2) (n + 1) (32 ∷ text) (omega arith) (omega arith)))
    ∙ read_items-digits_of true (n + 2) (n + 1) (32 ∷ text) (omega arith)
    ∙ ap (λ k. read_sign true k ∷ read_items false 0 text) (next n)
  where
    next : (n : ℕ) → n + 1 ≡ suc n
    next n = omega arith

read_items-print_items :
    (vs : List ℤ) (text : List ℕ)
    → read_items false 0 text ≡ []
    → read_items false 0 (print_items vs ++ text) ≡ vs
read_items-print_items [] text h = h
read_items-print_items (v ∷ vs) text h =
    ap (read_items false 0) (append_assoc (print_ℤ v) (32 ∷ print_items vs) text)
    ∙ read_items-print_ℤ v (print_items vs ++ text)
    ∙ ap (λ ws. v ∷ ws) (read_items-print_items vs text h)

-- The values of a stack, from the top down, can be read back from what is printed of it behind the
-- title: no two stacks with different values print the same.
pub read_items-print_stack : (s : Stack) → read_items false 0 (drop 7 (print_stack s)) ≡ s.items
unfolding print_stack
read_items-print_stack s = read_items-print_items s.items (10 ∷ []) refl
