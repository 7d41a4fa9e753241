-- ===== src/Vm/Compiler/Runs.antt =====
-- Parts of a run: rounds of the loop one after another.
use manhattan_group.Base.{
  ℕ, suc, ◌+◌, ◌≤◌, ◌≡◌, ◌∙◌, ap, List, [], ◌∷◌, ◌++◌, length, some, get_elem?, arith,
}
use manhattan_group.Vm.Outcome.{Result, ok, exits, undefined, ◌>>=◌}
use manhattan_group.Vm.Stack.{Stack}
use manhattan_group.Vm.Opcode.{decode}
use manhattan_group.Vm.Execute.{Next, goes, step, run, continue_run}
use manhattan_group.Vm.Execute.Rounds.{run_round}
use manhattan_group.Vm.Execute.Jumps.{Reads}

module _ (bytecode : List ℕ) where
  -- At most `n` rounds from `pc` on end as `m` says.
  abbrev pub Leads : ℕ → ℕ → Stack → Result Next → Type 0
  Leads n pc s m =
      (k : ℕ) × (k ≤ n)
      × ((fuel : ℕ) → run (k + fuel) bytecode pc s ≡ continue_run (run fuel bytecode) m)

  Leads-round :
      (pc c : ℕ) (s : Stack)
      → get_elem? bytecode pc ≡ some c
      → Leads 1 pc s (step bytecode (decode c) (pc + 1) s)
  Leads-round pc c s e =
      (1, omega arith, λ fuel. rw (one_more fuel) (run_round bytecode fuel pc s c e))
    where
      one_more : (fuel : ℕ) → 1 + fuel ≡ suc fuel
      one_more fuel = omega arith

  pub Leads-step :
      (pc c : ℕ) (s : Stack) (m : Result Next)
      → get_elem? bytecode pc ≡ some c
      → step bytecode (decode c) (pc + 1) s ≡ m
      → Leads 1 pc s m
  Leads-step pc c s m e same =
      let (k, small, h) = Leads-round pc c s e in
      (k, small, λ fuel. h fuel ∙ ap (continue_run (run fuel bytecode)) same)

  -- Rounds that compute a value, and those that follow.
  pub Leads-bind {ℓ} :
      {A : Type ℓ} (n n' pc q : ℕ) (s : Stack) (r : Result A) (t : A → Stack) (g : A → Result Next)
      → Leads n pc s (r >>= λ v. ok (goes q (t v)))
      → ((v : A) → Leads n' q (t v) (g v))
      → Leads (n + n') pc s (r >>= g)
  Leads-bind n n' pc q s (ok v) t g (k, small, e) later =
      let (k', small', e') = later v in
      (
        k + k',
        omega arith,
        λ fuel. ap (λ (j : ℕ). run j bytecode pc s) (regroup k k' fuel) ∙ e (k' + fuel) ∙ e' fuel,
      )
    where
      regroup : (k k' fuel : ℕ) → k + k' + fuel ≡ k + (k' + fuel)
      regroup k k' fuel = omega arith
  Leads-bind n n' pc q s (exits c) t g (k, small, e) later = (k, omega arith, e)
  Leads-bind n n' pc q s undefined t g (k, small, e) later = (k, omega arith, e)

  pub Leads-then :
      (n n' pc q : ℕ) (s t : Stack) (m : Result Next)
      → Leads n pc s (ok (goes q t))
      → Leads n' q t m
      → Leads (n + n') pc s m
  Leads-then n n' pc q s t m first later =
      Leads-bind n n' pc q s (ok tt) (λ (_ : Unit {0}). t) (λ _. m) first (λ _. later)

  pub Leads-more :
      (n n' pc : ℕ) (s : Stack) (m m' : Result Next)
      → n ≤ n'
      → m ≡ m'
      → Leads n pc s m
      → Leads n' pc s m'
  Leads-more n n' pc s m m' more same (k, small, e) =
      (k, omega arith, λ fuel. e fuel ∙ ap (continue_run (run fuel bytecode)) same)

  pub Reads-append :
      (pc : ℕ) (xs ys : List ℕ)
      → Reads bytecode pc (xs ++ ys)
      → Reads bytecode pc xs × Reads bytecode (pc + length xs) ys
  Reads-append pc [] ys h = (tt, let e : pc ≡ pc + 0 = omega arith in rw e at h)
  Reads-append pc (x ∷ xs) ys (here, later) =
      let (first, second) = Reads-append (pc + 1) xs ys later in
      let e : pc + 1 + length xs ≡ pc + suc (length xs) = omega arith in
      ((here, first), rw e at second)

  pub Reads-at : (pc q : ℕ) (xs : List ℕ) → pc ≡ q → Reads bytecode pc xs → Reads bytecode q xs
  Reads-at pc q xs e h = rw e at h
