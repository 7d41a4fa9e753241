-- ===== src/Vm/Compiler/Whole.antt =====
-- `execute_bytecode` on the code of an expression.
use mathlib.Core.List.{append_assoc}
use manhattan_group.Base.{
  ℕ, ◌≤◌, ◌≡◌, refl, inl, inr, List, [], ◌∷◌, ◌++◌, length, length-append, none, some, get_elem?,
  get_elem?-some_lt, Option-cases, arith,
}
use manhattan_group.Vm.Stack.{Stack}
use manhattan_group.Vm.Execute.Jumps.{Reads}

get_elem?-length :
    (xs : List ℕ) (y : ℕ) (ys : List ℕ) → get_elem? (xs ++ y ∷ ys) (length xs) ≡ some y
get_elem?-length [] y ys = refl
get_elem?-length (x ∷ xs) y ys = get_elem?-length xs y ys

pub Reads-suffix : (xs ys : List ℕ) → Reads (xs ++ ys) (length xs) ys
Reads-suffix xs [] = tt
Reads-suffix xs (y ∷ ys) = (
  get_elem?-length xs y ys,
  (rw (append_assoc xs (y ∷ []) ys, length-append {0} xs (y ∷ [])) at
      (Reads-suffix (xs ++ y ∷ []) ys)),
)

pub get_elem?-past : (xs : List ℕ) (i : ℕ) → length xs ≤ i → get_elem? xs i ≡ none
get_elem?-past xs i h = elim (Option-cases (get_elem? xs i)) [
  | inl e ↦ e
  | inr (c, e) ↦ absurd (omega (arith, get_elem?-some_lt xs i c e))
]
