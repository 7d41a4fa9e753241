-- ===== src/Vm/Execute/Fuel.antt =====
-- Runs and their fuel: more fuel changes no result, and a program without jumps needs no more than
-- one unit for each byte.
use manhattan_group.Base.{
  ℕ, zero, suc, ◌+◌, ◌≤◌, ◌<◌, ◌≡◌, ◌≢◌, refl, sym, ◌∙◌, Bool, true, false, not, ◌||◌, List, Option,
  some, arith, All, All-get_elem?, length, get_elem?, get_elem?-some_lt, Option-cases, inl, inr,
  ◌==◌,
}
use manhattan_group.Base.{ℤ, pos}
use manhattan_group.Base.Table.{all_below, all_below→}
use manhattan_group.Vm.Outcome.{
  Result, ok, exits, undefined, ◌>>=◌, Returns, Returns-bind, Returns-any,
}
use manhattan_group.Vm.Stack.{Stack, stack_push}
use manhattan_group.Vm.Access.{Flow, stays, returns}
use manhattan_group.Vm.Opcode.{Op, decode}
use manhattan_group.Vm.Execute.{
  perform, Next, goes, halts, next_at, push_byte, push_bytes, step, run, continue_run,
  execute_bytecode,
}
use manhattan_group.Vm.Execute.Rounds.{run_end, run_round}

continue_run-fuel :
    (again later : ℕ → Stack → Option (Result (ℤ × Stack))) (m : Result Next)
    (r : Result (ℤ × Stack))
    → ((pc : ℕ) (s : Stack) → again pc s ≡ some r → later pc s ≡ some r)
    → continue_run again m ≡ some r
    → continue_run later m ≡ some r
continue_run-fuel again later (ok (goes pc s)) r h e = h pc s e
continue_run-fuel again later (ok (halts v s)) r h e = e
continue_run-fuel again later (exits c) r h e = e
continue_run-fuel again later undefined r h e = e

pub run_more_fuel :
    (bytecode : List ℕ) (f g pc : ℕ) (s : Stack) (r : Result (ℤ × Stack))
    → f ≤ g
    → run f bytecode pc s ≡ some r
    → run g bytecode pc s ≡ some r
run_more_fuel bytecode zero g pc s r h e = absurd (unfold run in (cc))
run_more_fuel bytecode (suc f) zero pc s r h e = absurd (omega arith)
run_more_fuel bytecode (suc f) (suc g) pc s r h e = elim (Option-cases (get_elem? bytecode pc)) [
  | inl end ↦ run_end bytecode g pc s end ∙ sym (run_end bytecode f pc s end) ∙ e
  | inr (c, at) ↦
      run_round bytecode g pc s c at
      ∙ continue_run-fuel (run f bytecode) (run g bytecode) (step bytecode (decode c) (pc + 1) s) r
          (λ pc' t e'. run_more_fuel bytecode f g pc' t r (omega arith) e')
          (sym (run_round bytecode f pc s c at) ∙ e)
]

-- A result that `execute_bytecode` returns does not depend on the fuel that it was given.
pub execute_bytecode_more_fuel :
    (bytecode : List ℕ) (f g : ℕ) (s : Stack) (r : Result (ℤ × Stack))
    → f ≤ g
    → execute_bytecode f bytecode s ≡ some r
    → execute_bytecode g bytecode s ≡ some r
unfolding execute_bytecode
execute_bytecode_more_fuel bytecode f g s r h e = run_more_fuel bytecode f g 0 s r h e

abbrev pub is_jump : Op → Bool
is_jump Op.jump = true
is_jump Op.jumpi = true
is_jump _ = false

-- The bytes of a program in which neither JUMP nor JUMPI stands.
abbrev pub IsNoJump : ℕ → Type 0
IsNoJump c = (c < 256) × (c ≢ 0x56) × (c ≢ 0x57)

jump_table : all_below 256 (λ c. c == 0x56 || c == 0x57 || not (is_jump (decode c))) ≡ true
unfolding all_below decode
jump_table = refl

no_jump : (c : ℕ) → IsNoJump c → is_jump (decode c) ≡ false
no_jump c h = ground (
  arith,
  all_below→ 256 (λ c. c == 0x56 || c == 0x57 || not (is_jump (decode c))) c jump_table h.0,
)

abbrev Advances : ℕ → Next → Type 0
Advances pc (goes pc' s) = pc ≤ pc'
Advances pc (halts v s) = Unit

next_at-Advances : (pc : ℕ) (f : Flow) → Advances pc (next_at pc f)
next_at-Advances pc (stays s) = omega arith
next_at-Advances pc (returns v s) = tt

Advances-of_later : (p q : ℕ) (n : Next) → p ≤ q → Advances q n → Advances p n
Advances-of_later p q (goes pc s) h a = omega arith
Advances-of_later p q (halts v s) h a = tt

module _ (bytecode : List ℕ) where
  push_bytes-Advances : (n pc : ℕ) (s : Stack) → Returns (Advances pc) (push_bytes bytecode n pc s)
  unfolding push_bytes
  push_bytes-Advances zero pc s = omega arith
  push_bytes-Advances (suc n) pc s =
      Returns-bind (λ _. Unit {0}) (Advances pc) (push_byte (get_elem? bytecode pc) s) _
        (Returns-any _)
        λ t _. later (push_bytes bytecode n (pc + 1) t) (push_bytes-Advances n (pc + 1) t)
    where
      later : (m : Result Next) → Returns (Advances (pc + 1)) m → Returns (Advances pc) m
      later (ok m) h = Advances-of_later pc (pc + 1) m (omega arith) h
      later (exits e) h = tt
      later undefined h = tt

  other-Advances :
      (op : Op) (pc : ℕ) (s : Stack)
      → Returns (Advances pc) (perform op s >>= λ flow. ok (next_at pc flow))
  other-Advances op pc s =
      Returns-bind (λ _. Unit {0}) (Advances pc) (perform op s) _ (Returns-any _)
        λ flow _. next_at-Advances pc flow

  step-Advances :
      (op : Op) (pc : ℕ) (s : Stack)
      → is_jump op ≡ false
      → Returns (Advances pc) (step bytecode op pc s)
  unfolding step
  step-Advances Op.jump pc s h = absurd (cc)
  step-Advances Op.jumpi pc s h = absurd (cc)
  step-Advances Op.pc pc s h =
      Returns-bind (λ _. Unit {0}) (Advances pc) (stack_push s (pos pc)) _ (Returns-any _)
        λ t _. omega arith
  step-Advances (Op.push n) pc s h = push_bytes-Advances n pc s
  step-Advances op pc s h = other-Advances op pc s

  abbrev Ends : Option (Result (ℤ × Stack)) → Type 0
  Ends o = (r : Result (ℤ × Stack)) × (o ≡ some r)

  continue_run-Ends :
      (again : ℕ → Stack → Option (Result (ℤ × Stack))) (pc : ℕ) (m : Result Next)
      → Returns (Advances pc) m
      → ((pc' : ℕ) (s : Stack) → pc ≤ pc' → Ends (again pc' s))
      → Ends (continue_run again m)
  continue_run-Ends again pc (ok (goes pc' s)) h k = k pc' s h
  continue_run-Ends again pc (ok (halts v s)) h k = (_, refl)
  continue_run-Ends again pc (exits e) h k = (_, refl)
  continue_run-Ends again pc undefined h k = (_, refl)

  module _ (no_jumps : All IsNoJump bytecode) where
    run-Ends :
        (fuel pc : ℕ) (s : Stack)
        → 0 < fuel
        → length bytecode < pc + fuel
        → Ends (run fuel bytecode pc s)
    run-Ends zero pc s some_fuel h = absurd (omega arith)
    run-Ends (suc fuel) pc s some_fuel h = elim (Option-cases (get_elem? bytecode pc)) [
      | inl e ↦ rw (run_end bytecode fuel pc s e) (_, refl)
      | inr (c, e) ↦ rw (run_round bytecode fuel pc s c e) (
          let inside : pc < length bytecode = get_elem?-some_lt bytecode pc c e in
          continue_run-Ends (run fuel bytecode) (pc + 1) (step bytecode (decode c) (pc + 1) s)
            (step-Advances (decode c) (pc + 1) s
              (no_jump c (All-get_elem? IsNoJump bytecode pc no_jumps e)))
            (λ pc' t later. run-Ends fuel pc' t (omega arith) (omega arith)))
    ]

-- A program in which no byte is JUMP or JUMPI ends, with a result, within one round more than its
-- length.
pub execute_bytecode_ends :
    (bytecode : List ℕ) (s : Stack)
    → All IsNoJump bytecode
    → (r : Result (ℤ × Stack)) × (execute_bytecode (length bytecode + 1) bytecode s ≡ some r)
unfolding execute_bytecode
execute_bytecode_ends bytecode s h =
    run-Ends bytecode h (length bytecode + 1) 0 s (omega arith) (omega arith)
