-- ===== src/Vm/Valid/Run.antt =====
-- A run of `execute_bytecode` keeps the invariant.
use manhattan_group.Base.{
  ℕ, zero, suc, ◌+◌, ◌^◌, ◌<◌, ◌≡◌, List, Option, none, some, arith, All, length, get_elem?,
  All-get_elem?, refl, Option-cases, inl, inr, get_elem?-some_lt, ◌==◌,
}
use manhattan_group.Base.{ℤ, pos}
use manhattan_group.Vm.Outcome.{
  Result, ok, exits, undefined, ◌>>=◌, Returns, Returns-bind, Returns-if,
}
use manhattan_group.Vm.Int64.{IsInt64, to_uint32}
use manhattan_group.Vm.Stack.{Stack, stack_push, stack_pop}
use manhattan_group.Vm.Access.{Flow, stays, returns}
use manhattan_group.Vm.Opcode.{Op, decode}
use manhattan_group.Vm.Execute.{
  perform, Next, goes, halts, next_at, destination, jump_to, jump, jumpi, push_byte, push_bytes,
  step, continue_run, run, execute_bytecode,
}
use manhattan_group.Vm.Execute.Rounds.{run_end, run_round}
use manhattan_group.Vm.Valid.Stack.{IsByte, IsValid, Popped, stack_push-IsValid, stack_pop-IsValid}
use manhattan_group.Vm.Valid.Access.{FlowValid}
use manhattan_group.Vm.Valid.Steps.{perform-Valid}

abbrev pub NextValid : Next → Type 0
NextValid (goes pc s) = IsValid s
NextValid (halts v s) = IsInt64 v × IsValid s

jump_to-Valid : (o : Option ℕ) (s : Stack) → IsValid s → NextValid (jump_to o s)
jump_to-Valid none s h = (omega arith, h)
jump_to-Valid (some a) s h = h

next_at-Valid : (pc : ℕ) (f : Flow) → FlowValid f → NextValid (next_at pc f)
next_at-Valid pc (stays s) h = h
next_at-Valid pc (returns v s) h = h

-- A run has not ended, or it ends in a valid stack and an `int64_t`, or by `exit(1)`, or in undefined
-- behaviour.
abbrev pub RunValid : Option (Result (ℤ × Stack)) → Type 0
RunValid none = Unit
RunValid (some r) = Returns Popped r

push_byte-Valid :
    (o : Option ℕ) (s : Stack)
    → IsValid s
    → ((a : ℕ) → o ≡ some a → IsByte a)
    → Returns IsValid (push_byte o s)
unfolding push_byte
push_byte-Valid none s h hb = tt
push_byte-Valid (some v) s h hb = stack_push-IsValid s (pos v) h (omega (arith, hb v refl))

after :
    (bytecode : List ℕ) (fuel : ℕ) (m : Result Next)
    → Returns NextValid m
    → ((pc : ℕ) (s : Stack) → IsValid s → RunValid (run fuel bytecode pc s))
    → RunValid (continue_run (run fuel bytecode) m)
after bytecode fuel (ok (goes pc s)) h k = k pc s h
after bytecode fuel (ok (halts v s)) h k = h
after bytecode fuel (exits e) h k = tt
after bytecode fuel undefined h k = tt

module _ (bytecode : List ℕ) (bytes : All IsByte bytecode) where
  jump-Valid : (s : Stack) → IsValid s → Returns NextValid (jump bytecode s)
  unfolding jump
  jump-Valid s h =
      Returns-bind Popped NextValid (stack_pop s) _ (stack_pop-IsValid s h)
        λ (a, t) ht. jump_to-Valid (destination bytecode a) t ht.1

  jumpi-Valid : (pc : ℕ) (s : Stack) → IsValid s → Returns NextValid (jumpi bytecode pc s)
  unfolding jumpi
  jumpi-Valid pc s h =
      Returns-bind Popped NextValid (stack_pop s) _ (stack_pop-IsValid s h) λ (v, t) ht.
        Returns-bind Popped NextValid (stack_pop t) _ (stack_pop-IsValid t ht.1) λ (a, u) hu.
          Returns-if NextValid (to_uint32 v == 0) (ok (goes pc u))
            (ok (jump_to (destination bytecode a) u)) hu.1
            (jump_to-Valid (destination bytecode a) u hu.1)

  push_bytes-Valid :
      (n pc : ℕ) (s : Stack) → IsValid s → Returns NextValid (push_bytes bytecode n pc s)
  unfolding push_bytes
  push_bytes-Valid zero pc s h = h
  push_bytes-Valid (suc n) pc s h =
      Returns-bind IsValid NextValid (push_byte (get_elem? bytecode pc) s) _
        (push_byte-Valid (get_elem? bytecode pc) s h
          (λ a e. All-get_elem? IsByte bytecode pc bytes e))
        λ t ht. push_bytes-Valid n (pc + 1) t ht

  pc-Valid :
      (pc : ℕ) (s : Stack)
      → pc < 2 ^ 63
      → IsValid s
      → Returns NextValid (stack_push s (pos pc) >>= λ t. ok (goes pc t))
  pc-Valid pc s small h =
      Returns-bind IsValid NextValid (stack_push s (pos pc)) _
        (stack_push-IsValid s (pos pc) h small) λ t ht. ht

  other-Valid :
      (op : Op) (pc : ℕ) (s : Stack)
      → IsValid s
      → Returns NextValid (perform op s >>= λ flow. ok (next_at pc flow))
  other-Valid op pc s h =
      Returns-bind FlowValid NextValid (perform op s) _ (perform-Valid s h op)
        λ flow hf. next_at-Valid pc flow hf

  step-Valid :
      (op : Op) (pc : ℕ) (s : Stack)
      → pc < 2 ^ 63
      → IsValid s
      → Returns NextValid (step bytecode op pc s)
  unfolding step
  step-Valid Op.jump pc s small h = jump-Valid s h
  step-Valid Op.jumpi pc s small h = jumpi-Valid pc s h
  step-Valid Op.pc pc s small h = pc-Valid pc s small h
  step-Valid (Op.push n) pc s small h = push_bytes-Valid n pc s h
  step-Valid op pc s small h = other-Valid op pc s h

  module _ (short : length bytecode < 2 ^ 63) where
    pub run-Valid : (fuel pc : ℕ) (s : Stack) → IsValid s → RunValid (run fuel bytecode pc s)
    run-Valid zero pc s h = unfold run in tt
    run-Valid (suc fuel) pc s h = elim (Option-cases (get_elem? bytecode pc)) [
      | inl e ↦ rw (run_end bytecode fuel pc s e) (stack_pop-IsValid s h)
      | inr (c, e) ↦ rw (run_round bytecode fuel pc s c e) (
          after bytecode fuel (step bytecode (decode c) (pc + 1) s)
            (step-Valid (decode c) (pc + 1) s (omega (arith, get_elem?-some_lt bytecode pc c e)) h)
            (λ pc' t ht. run-Valid fuel pc' t ht))
    ]

-- A run of a program of bytes, shorter than 2 ^ 63, that ends with a value on a valid stack ends with
-- a valid stack, and the value is an `int64_t`; with every fuel.
pub execute_bytecode-Valid :
    (bytecode : List ℕ) (fuel : ℕ) (s : Stack)
    → All IsByte bytecode
    → length bytecode < 2 ^ 63
    → IsValid s
    → RunValid (execute_bytecode fuel bytecode s)
unfolding execute_bytecode
execute_bytecode-Valid bytecode fuel s bytes short h = run-Valid bytecode bytes short fuel 0 s h
