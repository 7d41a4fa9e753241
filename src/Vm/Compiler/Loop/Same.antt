-- ===== src/Vm/Compiler/Loop/Same.antt =====
-- The loop and the run of its code come to the same.
use manhattan_group.Base.{ℕ, ◌+◌, ◌≤◌, ◌≡◌, length, some}
use manhattan_group.Base.{ℤ}
use manhattan_group.Vm.Outcome.{Result, ok, ◌>>=◌}
use manhattan_group.Vm.Stack.{Stack}
use manhattan_group.Vm.Compiler.{Operator, Expr, depth}
use manhattan_group.Vm.Compiler.Loop.{while_value}

module _ (o : Operator) (body : Expr) where
  module _ (s : Stack) (room : length s.items + depth body + 3 ≤ s.size) where
    abbrev leaving : Result ℤ → Result (ℤ × Stack)
    leaving r = r >>= λ v. ok (v, s)

    -- What the loop comes to, where the run of its code comes to `q`.
    abbrev ComesTo : ℤ → Result (ℤ × Stack) → Type 0
    ComesTo x q = (k : ℕ) × (r : Result ℤ) × ((while_value o body) k x ≡ some r) × (q ≡ leaving r)
