-- ===== src/Vm/Compiler/Loop/Rounds.antt =====
-- The rounds of a turn of the loop.
use manhattan_group.Base.{
  ℕ, suc, ◌+◌, ◌≤◌, ◌≡◌, refl, sym, ◌∙◌, ap, Bool, true, false, [], ◌∷◌, ◌++◌, length,
  length-append, some, if◌then◌else◌, ◌==◌, arith,
}
use manhattan_group.Base.{ℤ, pos, eqb_ℤ}
use manhattan_group.Vm.Outcome.{Result, ok, ◌>>=◌, bind_assoc}
use manhattan_group.Vm.Int64.{to_uint32}
use manhattan_group.Vm.Stack.{Stack, stack_pop}
use manhattan_group.Vm.Compare
use manhattan_group.Vm.Compare.{of_Bool}
use manhattan_group.Vm.Execute.{Next, goes, run, continue_run}
use manhattan_group.Vm.Execute.Rounds.{run_end, run_round}
use manhattan_group.Vm.Execute.Jumps.{Reads}
use manhattan_group.Vm.Compiler.{Operator, meaning, code_of, Expr, value, size_of, compile, depth}
use manhattan_group.Vm.Compiler.Runs.{
  Leads, Leads-step, Leads-bind, Leads-then, Leads-more, Reads-append, Reads-at,
}
use manhattan_group.Vm.Compiler.Steps.{
  with_items, step-combine, step-iszero, step-push, step-jump, step-jumpi, step-label, step-dup,
  step-swap,
}
use manhattan_group.Vm.Compiler.Correct.{length-compile, compile-Computes}
use manhattan_group.Vm.Compiler.Whole.{Reads-suffix, get_elem?-past}
use manhattan_group.Vm.Compiler.Loop.{loop_code, body_value}

module _ (o : Operator) (e : Expr) where
  module _ (s : Stack) (room : length s.items + depth e + 3 ≤ s.size) where
    abbrev pub here : ℤ → Stack
    here x = with_items s (x ∷ s.items)

    abbrev end : ℕ
    end = 11 + size_of e

    body_code : Reads (loop_code o e) 7 (compile 7 e ++ code_of o ∷ 0x60 ∷ 0 ∷ 0x56 ∷ 0x5b ∷ [])
    body_code =
        Reads-suffix (0x5b ∷ 0x80 ∷ 0x15 ∷ 0x60 ∷ end ∷ 0x90 ∷ 0x57 ∷ [])
          (compile 7 e ++ code_of o ∷ 0x60 ∷ 0 ∷ 0x56 ∷ 0x5b ∷ [])

    tail_code : Reads (loop_code o e) (7 + size_of e) (code_of o ∷ 0x60 ∷ 0 ∷ 0x56 ∷ 0x5b ∷ [])
    tail_code =
        (rw (length-compile 7 e) at (
          (Reads-append (loop_code o e) 7 (compile 7 e) (code_of o ∷ 0x60 ∷ 0 ∷ 0x56 ∷ 0x5b ∷ [])
            body_code).1))

    at_end : Reads (loop_code o e) end (0x5b ∷ [])
    at_end =
        let (op, (push, (zero_byte, (jump, label)))) = tail_code in
        Reads-at (loop_code o e) (7 + size_of e + 1 + 1 + 1 + 1) end (0x5b ∷ []) (omega arith) label

    -- From behind the first byte to behind the test.
    head-Leads :
        (x : ℤ)
        → Leads
            (loop_code o e)
            5
            1
            (here x)
            (ok (goes (if eqb_ℤ x (pos 0) then end else 7) (here x)))
    unfolding Compare.iszero
    head-Leads x =
        let z = of_Bool (eqb_ℤ x (pos 0)) in
        let done : Result Next = ok (goes (if eqb_ℤ x (pos 0) then end else 7) (here x)) in
        Leads-then (loop_code o e) 1 4 1 2 (here x) (with_items s (x ∷ x ∷ s.items)) done
          (Leads-step (loop_code o e) 1 0x80 (here x) _ refl
            (step-dup (loop_code o e) 2 s x s.items (omega arith)))
          (Leads-then (loop_code o e) 1 3 2 3 (with_items s (x ∷ x ∷ s.items))
            (with_items s (z ∷ x ∷ s.items)) done
            (Leads-step (loop_code o e) 2 0x15 (with_items s (x ∷ x ∷ s.items)) _ refl
              (step-iszero (loop_code o e) 3 s (x ∷ s.items) (omega arith) x))
            (Leads-then (loop_code o e) 1 2 3 5 (with_items s (z ∷ x ∷ s.items))
              (with_items s (pos end ∷ z ∷ x ∷ s.items)) done
              (Leads-step (loop_code o e) 3 0x60 (with_items s (z ∷ x ∷ s.items)) _ refl
                (step-push (loop_code o e) 4 s (z ∷ x ∷ s.items) (omega arith) end refl))
              (Leads-then (loop_code o e) 1 1 5 6 (with_items s (pos end ∷ z ∷ x ∷ s.items))
                (with_items s (z ∷ pos end ∷ x ∷ s.items)) done
                (Leads-step (loop_code o e) 5 0x90 (with_items s (pos end ∷ z ∷ x ∷ s.items)) _ refl
                  (step-swap (loop_code o e) 6 s z (x ∷ s.items) (pos end)))
                (Leads-step (loop_code o e) 6 0x57 (with_items s (z ∷ pos end ∷ x ∷ s.items)) _ refl
                  (step-jumpi (loop_code o e) 7 s end (x ∷ s.items) at_end.0 z
                    ∙ tested (eqb_ℤ x (pos 0)))))))
      where
        tested :
            (b : Bool)
            → ◌≡◌ {A = Result Next}
                (ok (goes (if to_uint32 (of_Bool b) == 0 then 7 else end) (here x)))
                (ok (goes (if b then end else 7) (here x)))
        tested true = refl
        tested false = refl

    -- From behind the test round to the first byte.
    body-Leads :
        (x : ℤ)
        → Leads
            (loop_code o e)
            (size_of e + 3)
            7
            (here x)
            ((body_value o e) x >>= λ y. ok (goes 0 (here y)))
    body-Leads x =
        let (op, (push, (zero_byte, (jump, label)))) = tail_code in
        let q = 7 + size_of e in
        let back : ℤ → Result Next = λ y. ok (goes 0 (here y)) in
        let (at_e, later) =
          Reads-append (loop_code o e) 7 (compile 7 e) (code_of o ∷ 0x60 ∷ 0 ∷ 0x56 ∷ 0x5b ∷ [])
            body_code in
        Leads-more (loop_code o e) (size_of e + (1 + (1 + 1))) (size_of e + 3) 7 (here x)
          (value e >>= λ b. meaning o x b >>= back) ((body_value o e) x >>= back) (omega arith)
          (sym (bind_assoc (value e) (meaning o x) back))
          (Leads-bind (loop_code o e) (size_of e) (1 + (1 + 1)) 7 q (here x) (value e)
            (λ b. with_items s (b ∷ x ∷ s.items)) (λ b. meaning o x b >>= back)
            (compile-Computes (loop_code o e) s e 7 (x ∷ s.items) at_e (omega arith))
            (λ b.
              Leads-bind (loop_code o e) 1 (1 + 1) q (q + 1) (with_items s (b ∷ x ∷ s.items))
                (meaning o x b) here back
                (Leads-step (loop_code o e) q (code_of o) (with_items s (b ∷ x ∷ s.items)) _ op
                  (step-combine (loop_code o e) (q + 1) s s.items (omega arith) o x b))
                (λ y.
                  Leads-then (loop_code o e) 1 1 (q + 1) (q + 1 + 1 + 1) (here y)
                    (with_items s (pos 0 ∷ y ∷ s.items)) (back y)
                    (Leads-step (loop_code o e) (q + 1) 0x60 (here y) _ push (
                      step-push (loop_code o e) (q + 1 + 1) s (y ∷ s.items) (omega arith) 0
                        zero_byte))
                    (Leads-step (loop_code o e) (q + 1 + 1 + 1) 0x56
                      (with_items s (pos 0 ∷ y ∷ s.items)) _ jump
                      (step-jump (loop_code o e) (q + 1 + 1 + 1 + 1) s 0 (y ∷ s.items) refl)))))

    unfoldable pub back : ℤ → Result Next
    back y = ok (goes 0 (here y))

    first_round :
        (x : ℤ) (fuel : ℕ)
        → run (suc fuel) (loop_code o e) 0 (here x) ≡ run fuel (loop_code o e) 1 (here x)
    first_round x fuel =
        run_round (loop_code o e) fuel 0 (here x) 0x5b refl
        ∙ ap (continue_run (run fuel (loop_code o e))) (step-label (loop_code o e) 1 s (here x))

    last_round :
        (x : ℤ) (fuel : ℕ) → run (suc (suc fuel)) (loop_code o e) end (here x) ≡ some (ok (x, s))
    unfolding stack_pop
    last_round x fuel =
        run_round (loop_code o e) (suc fuel) end (here x) 0x5b at_end.0
        ∙ ap (continue_run (run (suc fuel) (loop_code o e)))
            (step-label (loop_code o e) (end + 1) s (here x))
        ∙ run_end (loop_code o e) fuel (end + 1) (here x) (
            get_elem?-past (loop_code o e) (end + 1) (
              omega (
                arith,
                length-append {0} (compile 7 e) (code_of o ∷ 0x60 ∷ 0 ∷ 0x56 ∷ 0x5b ∷ []),
                length-compile 7 e,
              )))

    -- The rounds of the last test.
    pub exit-run :
        (x : ℤ)
        → eqb_ℤ x (pos 0) ≡ true
        → (k : ℕ) × ((fuel : ℕ)
            → run (suc (k + suc (suc fuel))) (loop_code o e) 0 (here x) ≡ some (ok (x, s)))
    exit-run x zero_now =
        let (k, few, h) = head-Leads x in
        (
          k,
          λ fuel.
              first_round x (k + suc (suc fuel))
              ∙ h (suc (suc fuel))
              ∙ ap
                  (λ (b : Bool).
                    run (suc (suc fuel)) (loop_code o e) (if b then end else 7) (here x))
                  zero_now
              ∙ last_round x fuel,
        )

    -- The rounds of a test and the body.
    pub turn-run :
        (x : ℤ)
        → eqb_ℤ x (pos 0) ≡ false
        → (k : ℕ) × ((fuel : ℕ)
            → run (suc (k + fuel)) (loop_code o e) 0 (here x)
              ≡ continue_run (run fuel (loop_code o e)) ((body_value o e) x >>= back))
    unfolding back
    turn-run x not_zero =
        let (k, few, h) = head-Leads x in
        let (j, few', h') = body-Leads x in
        (
          k + j,
          λ fuel.
              ap (λ (n : ℕ). run (suc n) (loop_code o e) 0 (here x)) (regroup k j fuel)
              ∙ first_round x (k + (j + fuel))
              ∙ h (j + fuel)
              ∙ ap (λ (b : Bool). run (j + fuel) (loop_code o e) (if b then end else 7) (here x))
                  not_zero
              ∙ h' fuel,
        )
      where
        regroup : (k j fuel : ℕ) → k + j + fuel ≡ k + (j + fuel)
        regroup k j fuel = omega arith
