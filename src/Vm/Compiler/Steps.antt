-- ===== src/Vm/Compiler/Steps.antt =====
-- The rounds of the loop that compiled code is made of.
use manhattan_group.Base.{
  ℕ, ◌+◌, ◌<◌, ◌≡◌, refl, ◌∙◌, ap, Bool, true, false, List, [], ◌∷◌, length, ltb, leb, some,
  get_elem?, ◌==◌, if◌then◌else◌, arith, le→leb,
}
use manhattan_group.Base.{ℤ, pos}
use manhattan_group.Vm.Outcome.{
  Result, ok, exits, undefined, ◌>>=◌, ◌>>◌, exit_if, not_enough_elements,
}
use manhattan_group.Vm.Int64.{to_uint32}
use manhattan_group.Vm.Stack.{Stack, stack_pop, stack_push, push_all, stack_dup, stack_swap}
use manhattan_group.Vm.Access.{stays_with}
use manhattan_group.Vm.Opcode.{decode}
use manhattan_group.Vm.Execute.{goes, next_at, binary, unary, perform, destination, jump, step}
use manhattan_group.Vm.Execute.Jumps.{push_bytes_lem, jumpi_lem, destination_iff}
use manhattan_group.Vm.Arith
use manhattan_group.Vm.Compare
use manhattan_group.Vm.Compiler.{Operator, meaning, code_of}

-- The stack with other values on it.
abbrev pub with_items : Stack → List ℤ → Stack
with_items s items = record s { items = items }

module _ (bytecode : List ℕ) (pc : ℕ) (s : Stack) where
  steps :
      (m : Result Stack)
      → (stays_with m >>= λ flow. ok (next_at pc flow)) ≡ (m >>= λ t. ok (goes pc t))
  steps (ok t) = refl
  steps (exits c) = refl
  steps undefined = refl

  bind_ok :
      (r : Result ℤ) (t : ℤ → Stack)
      → ((r >>= λ v. ok (t v)) >>= λ u. ok (goes pc u)) ≡ (r >>= λ v. ok (goes pc (t v)))
  bind_ok (ok v) t = refl
  bind_ok (exits c) t = refl
  bind_ok undefined t = refl

  module _ (rest : List ℤ) (room : length rest < s.size) where
    is_room : leb s.size (length rest) ≡ false
    is_room = ground arith

    binary_lem :
        (f : ℤ → ℤ → Result ℤ) (a b : ℤ)
        → binary f (with_items s (b ∷ a ∷ rest)) ≡ (f a b >>= λ v. ok (with_items s (v ∷ rest)))
    unfolding binary stack_pop stack_push
    binary_lem f a b = rw is_room refl

    unary_lem :
        (f : ℤ → Result ℤ) (a : ℤ)
        → unary f (with_items s (a ∷ rest)) ≡ (f a >>= λ v. ok (with_items s (v ∷ rest)))
    unfolding unary stack_pop stack_push
    unary_lem f a = rw is_room refl

  module _ (a b : ℤ) (rest : List ℤ) where
    abbrev there : Stack
    there = with_items s (b ∷ a ∷ rest)

    needed :
        (m : Result Stack)
        → (stays_with (exit_if (ltb (length there.items) 2) not_enough_elements >> m) >>= λ flow.
            ok (next_at pc flow))
          ≡ (m >>= λ t. ok (goes pc t))
    needed m = rw few (steps m)
      where
        few : ltb (length there.items) 2 ≡ false
        few = ground arith

    operator_step :
        (o : Operator)
        → step bytecode (decode (code_of o)) pc there
          ≡ (binary (meaning o) there >>= λ t. ok (goes pc t))
    unfolding step perform decode
    operator_step Operator.add = steps (binary Arith.add there)
    operator_step Operator.mul = steps (binary Arith.mul there)
    operator_step Operator.sub = steps (binary Arith.sub there)
    operator_step Operator.div = steps (binary Arith.div there)
    operator_step Operator.sdiv = steps (binary Arith.sdiv there)
    operator_step Operator.rem = steps (binary Arith.rem there)
    operator_step Operator.smod = steps (binary Arith.smod there)
    operator_step Operator.exp = steps (binary Arith.exp there)
    operator_step Operator.lt = needed (binary Compare.lt there)
    operator_step Operator.gt = needed (binary Compare.gt there)
    operator_step Operator.slt = needed (binary Compare.slt there)
    operator_step Operator.sgt = needed (binary Compare.sgt there)
    operator_step Operator.eq = needed (binary Compare.eq there)
    operator_step Operator.bitwise_and = needed (binary Compare.bitwise_and there)
    operator_step Operator.bitwise_or = needed (binary Compare.bitwise_or there)
    operator_step Operator.bitwise_xor = needed (binary Compare.bitwise_xor there)
    operator_step Operator.shl = needed (binary Compare.shl there)
    operator_step Operator.shr = needed (binary Compare.shr there)
    operator_step Operator.sar = needed (binary Compare.sar there)

  module _ (rest : List ℤ) (room : length rest < s.size) where
    pub step-combine :
        (o : Operator) (a b : ℤ)
        → step bytecode (decode (code_of o)) pc (with_items s (b ∷ a ∷ rest))
          ≡ (meaning o a b >>= λ v. ok (goes pc (with_items s (v ∷ rest))))
    step-combine o a b =
        operator_step a b rest o
        ∙ ap (λ (m : Result Stack). m >>= λ t. ok (goes pc t))
            (binary_lem rest room (meaning o) a b)
        ∙ bind_ok (meaning o a b) (λ v. with_items s (v ∷ rest))

    unary_step :
        (f : ℤ → Result ℤ) (a : ℤ)
        → (stays_with (
              exit_if (ltb (length (a ∷ rest)) 1) not_enough_elements
              >> unary f (with_items s (a ∷ rest)))
            >>= λ flow. ok (next_at pc flow))
          ≡ (f a >>= λ v. ok (goes pc (with_items s (v ∷ rest))))
    unary_step f a = rw few (
        steps (unary f (with_items s (a ∷ rest)))
        ∙ ap (λ (m : Result Stack). m >>= λ t. ok (goes pc t)) (unary_lem rest room f a)
        ∙ bind_ok (f a) (λ v. with_items s (v ∷ rest)))
      where
        few : ltb (length (a ∷ rest)) 1 ≡ false
        few = ground arith

    pub step-iszero :
        (a : ℤ)
        → step bytecode (decode 0x15) pc (with_items s (a ∷ rest))
          ≡ (Compare.iszero a >>= λ v. ok (goes pc (with_items s (v ∷ rest))))
    unfolding step perform decode
    step-iszero a = unary_step Compare.iszero a

    pub step-not :
        (a : ℤ)
        → step bytecode (decode 0x19) pc (with_items s (a ∷ rest))
          ≡ (Compare.bitwise_not a >>= λ v. ok (goes pc (with_items s (v ∷ rest))))
    unfolding step perform decode
    step-not a = unary_step Compare.bitwise_not a

    pub step-push :
        (n : ℕ)
        → get_elem? bytecode pc ≡ some n
        → step bytecode (decode 0x60) pc (with_items s rest)
          ≡ ok (goes (pc + 1) (with_items s (pos n ∷ rest)))
    unfolding step decode
    step-push n e =
        push_bytes_lem bytecode (n ∷ []) pc (with_items s rest) (e, tt) (omega arith)
        ∙ rw (le→leb (length rest + 1) s.size (omega arith)) refl

  module _ (q : ℕ) (rest : List ℤ) (label : get_elem? bytecode q ≡ some 0x5b) where
    found : destination bytecode (pos q) ≡ some q
    found = (destination_iff bytecode (pos q) q).1 (refl, label)

    pub step-jump :
        step bytecode (decode 0x56) pc (with_items s (pos q ∷ rest))
        ≡ ok (goes q (with_items s rest))
    unfolding step decode jump stack_pop
    step-jump = rw found refl

    pub step-jumpi :
        (v : ℤ)
        → step bytecode (decode 0x57) pc (with_items s (v ∷ pos q ∷ rest))
          ≡ ok (goes (if to_uint32 v == 0 then pc else q) (with_items s rest))
    unfolding step decode jump stack_pop
    step-jumpi v =
        jumpi_lem bytecode pc (with_items s (v ∷ pos q ∷ rest)) v (pos q) rest refl
        ∙ rw found (by_test (to_uint32 v == 0))
      where
        by_test :
            (b : Bool)
            → (if b then ok (goes pc (with_items s rest)) else ok (goes q (with_items s rest)))
              ≡ ok (goes (if b then pc else q) (with_items s rest))
        by_test true = refl
        by_test false = refl

  pub step-label : (t : Stack) → step bytecode (decode 0x5b) pc t ≡ ok (goes pc t)
  unfolding step perform decode
  step-label t = refl

  module _ (a : ℤ) (rest : List ℤ) where
    -- DUP1 and SWAP1.
    pub step-dup :
        length rest + 1 < s.size
        → step bytecode (decode 0x80) pc (with_items s (a ∷ rest))
          ≡ ok (goes pc (with_items s (a ∷ a ∷ rest)))
    unfolding step perform decode stack_dup push_all stack_push
    step-dup room = rw (full, few) refl
      where
        full : leb s.size (length (a ∷ rest)) ≡ false
        full = ground arith

        few : ltb (length (a ∷ rest)) 1 ≡ false
        few = ground arith

    pub step-swap :
        (b : ℤ)
        → step bytecode (decode 0x90) pc (with_items s (b ∷ a ∷ rest))
          ≡ ok (goes pc (with_items s (a ∷ b ∷ rest)))
    unfolding step perform decode stack_swap
    step-swap b = rw few refl
      where
        few : leb (length (b ∷ a ∷ rest)) 1 ≡ false
        few = ground arith
