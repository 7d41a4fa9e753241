-- ===== src/Vm/Compiler/Branches.antt =====
-- The code of a literal and of a conditional.
use manhattan_group.Base.{
  ℕ, ◌+◌, ◌<◌, ◌≡◌, refl, sym, ◌∙◌, ap, Bool, true, false, List, [], ◌∷◌, length, ◌==◌,
  if◌then◌else◌, arith,
}
use manhattan_group.Base.{ℤ, pos}
use manhattan_group.Vm.Outcome.{Result, ok, ◌>>=◌, bind_assoc}
use manhattan_group.Vm.Int64.{to_uint32}
use manhattan_group.Vm.Stack.{Stack}
use manhattan_group.Vm.Execute.{Next, goes}
use manhattan_group.Vm.Execute.Jumps.{Reads}
use manhattan_group.Vm.Compiler.{branches}
use manhattan_group.Vm.Compiler.Runs.{
  Leads, Leads-step, Leads-bind, Leads-then, Leads-more, Reads-append, Reads-at,
}
use manhattan_group.Vm.Compiler.Steps.{with_items, step-push, step-jump, step-jumpi, step-label}

module _ (bytecode : List ℕ) (s : Stack) where
  -- The code at `p` pushes a value and goes on at `q`.
  abbrev pub Computes : ℕ → ℕ → ℕ → List ℤ → Result ℤ → Type 0
  Computes n p q items r =
      Leads bytecode n p (with_items s items) (r >>= λ v. ok (goes q (with_items s (v ∷ items))))

  pub literal-Computes :
      (p n : ℕ) (items : List ℤ)
      → Reads bytecode p (0x60 ∷ n ∷ [])
      → length items < s.size
      → Computes 2 p (p + 2) items (ok (pos n))
  literal-Computes p n items (opcode, (byte, _)) room =
      Leads-more bytecode 1 2 p (with_items s items) _ _ (omega arith)
        (ap (λ (q : ℕ). ok (goes q (with_items s (pos n ∷ items)))) (two p))
        (Leads-step bytecode p 0x60 (with_items s items) _ opcode
          (step-push bytecode (p + 1) s items room n byte))
    where
      two : (p : ℕ) → p + 1 + 1 ≡ p + 2
      two p = omega arith

  -- Where the parts of the code of a conditional stand.
  module _ (p label end : ℕ) (c t f : List ℕ) (at_label : label ≡ p + length c + length f + 6)
      (at_end : end ≡ label + length t + 1)
      (code : Reads bytecode p (branches label end c t f)) where
    abbrev pub Parts : Type 0
    Parts =
        Reads bytecode p (0x60 ∷ label ∷ [])
        × Reads bytecode (p + 2) c
        × Reads bytecode (p + 2 + length c) (0x57 ∷ [])
        × Reads bytecode (p + length c + 3) f
        × Reads bytecode (p + length c + 3 + length f) (0x60 ∷ end ∷ 0x56 ∷ 0x5b ∷ [])
        × Reads bytecode (label + 1) t
        × Reads bytecode end (0x5b ∷ [])

    pub Reads-branches : Parts
    Reads-branches =
        let (test, r₁) = Reads-append bytecode p (0x60 ∷ label ∷ []) _ code in
        let (at_c, r₂) = Reads-append bytecode (p + 2) c _ r₁ in
        let (jump_if, r₃) = Reads-append bytecode (p + 2 + length c) (0x57 ∷ []) _ r₂ in
        let (at_f, r₄) = Reads-append bytecode (p + 2 + length c + 1) f _ r₃ in
        let (jump, r₅) =
          Reads-append bytecode (p + 2 + length c + 1 + length f) (0x60 ∷ end ∷ 0x56 ∷ 0x5b ∷ []) _
            r₄ in
        let (at_t, last) =
          Reads-append bytecode (p + 2 + length c + 1 + length f + 4) t (0x5b ∷ []) r₅ in
        (
          test,
          at_c,
          jump_if,
          Reads-at bytecode (p + 2 + length c + 1) (p + length c + 3) f (omega arith) at_f,
          Reads-at bytecode (p + 2 + length c + 1 + length f) (p + length c + 3 + length f)
              (0x60 ∷ end ∷ 0x56 ∷ 0x5b ∷ []) (omega arith) jump,
          Reads-at bytecode (p + 2 + length c + 1 + length f + 4) (label + 1) t
              (omega (arith, at_label)) at_t,
          Reads-at bytecode (p + 2 + length c + 1 + length f + 4 + length t) end (0x5b ∷ [])
              (omega (arith, at_label, at_end)) last,
        )

    module _ (items : List ℤ) (v w u : Result ℤ)
        (c-Computes : Computes (length c) (p + 2) (p + 2 + length c) (pos label ∷ items) v)
        (f-Computes : Computes (length f) (p + length c + 3) (p + length c + 3 + length f) items w)
        (t-Computes : Computes (length t) (label + 1) end items u)
        (room : length items + 1 < s.size) where
      abbrev done_with : ℤ → Result Next
      done_with x = ok (goes (end + 1) (with_items s (x ∷ items)))

      at_end-Leads : (x : ℤ) → Leads bytecode 1 end (with_items s (x ∷ items)) (done_with x)
      at_end-Leads x =
          Leads-step bytecode end 0x5b (with_items s (x ∷ items)) (done_with x) Reads-branches.6.0
            (step-label bytecode (end + 1) s (with_items s (x ∷ items)))

      -- From behind the second branch over the first one.
      jump_over :
          (x : ℤ)
          → Leads bytecode 3 (p + length c + 3 + length f) (with_items s (x ∷ items)) (done_with x)
      jump_over x =
          let (opcode, (byte, (jump, _))) = Reads-branches.4 in
          let from = p + length c + 3 + length f in
          Leads-then bytecode 1 2 from (from + 1 + 1) (with_items s (x ∷ items))
            (with_items s (pos end ∷ x ∷ items)) (done_with x)
            (Leads-step bytecode from 0x60 (with_items s (x ∷ items))
              (ok (goes (from + 1 + 1) (with_items s (pos end ∷ x ∷ items)))) opcode
              (step-push bytecode (from + 1) s (x ∷ items) (omega arith) end byte))
            (Leads-then bytecode 1 1 (from + 1 + 1) end (with_items s (pos end ∷ x ∷ items))
              (with_items s (x ∷ items)) (done_with x)
              (Leads-step bytecode (from + 1 + 1) 0x56 (with_items s (pos end ∷ x ∷ items))
                (ok (goes end (with_items s (x ∷ items)))) jump
                (step-jump bytecode (from + 1 + 1 + 1) s end (x ∷ items) Reads-branches.6.0))
              (at_end-Leads x))

      label_here : Reads bytecode label (0x5b ∷ [])
      label_here =
          let (opcode, (byte, (jump, here))) = Reads-branches.4 in
          Reads-at bytecode (p + length c + 3 + length f + 1 + 1 + 1) label (0x5b ∷ [])
            (omega (arith, at_label)) here

      branch-Computes :
          (b : Bool)
          → Leads bytecode
              (length f + length t + 4)
              (if b then p + length c + 3 else label)
              (with_items s items)
              ((if b then w else u) >>= done_with)
      branch-Computes true =
          Leads-more bytecode (length f + 3) (length f + length t + 4) (p + length c + 3)
            (with_items s items) (w >>= done_with) (w >>= done_with) (omega arith) refl
            (Leads-bind bytecode (length f) 3 (p + length c + 3) (p + length c + 3 + length f)
              (with_items s items) w (λ x. with_items s (x ∷ items)) done_with f-Computes jump_over)
      branch-Computes false =
          Leads-more bytecode (1 + (length t + 1)) (length f + length t + 4) label
            (with_items s items) (u >>= done_with) (u >>= done_with) (omega arith) refl
            (Leads-then bytecode 1 (length t + 1) label (label + 1) (with_items s items)
              (with_items s items) (u >>= done_with)
              (Leads-step bytecode label 0x5b (with_items s items)
                (ok (goes (label + 1) (with_items s items))) label_here.0
                (step-label bytecode (label + 1) s (with_items s items)))
              (Leads-bind bytecode (length t) 1 (label + 1) end (with_items s items) u
                (λ x. with_items s (x ∷ items)) done_with t-Computes at_end-Leads))

      tested : ℤ → Bool
      tested x = to_uint32 x == 0

      -- The test of the condition, and the branch that it chooses.
      test-Leads :
          (x : ℤ)
          → Leads bytecode
              (1 + (length f + length t + 4))
              (p + 2 + length c)
              (with_items s (x ∷ pos label ∷ items))
              ((if tested x then w else u) >>= done_with)
      unfolding tested
      test-Leads x =
          Leads-then bytecode 1 (length f + length t + 4) (p + 2 + length c)
            (if tested x then p + length c + 3 else label) (with_items s (x ∷ pos label ∷ items))
            (with_items s items) ((if tested x then w else u) >>= done_with)
            (Leads-step bytecode (p + 2 + length c) 0x57 (with_items s (x ∷ pos label ∷ items))
              (ok (goes (if tested x then p + length c + 3 else label) (with_items s items)))
              Reads-branches.2.0
              (step-jumpi bytecode (p + 2 + length c + 1) s label items label_here.0 x
                ∙ ap (λ (q : ℕ). ok (goes (if tested x then q else label) (with_items s items)))
                    (behind p (length c))))
            (branch-Computes (tested x))
        where
          behind : (p n : ℕ) → p + 2 + n + 1 ≡ p + n + 3
          behind p n = omega arith

      -- The code of a conditional computes its value, where its parts do theirs.
      pub branches-Computes :
          Computes
            (length c + length f + length t + 8)
            p
            (end + 1)
            items
            (v >>= λ x. if to_uint32 x == 0 then w else u)
      unfolding tested
      branches-Computes =
          Leads-more bytecode (2 + (length c + (1 + (length f + length t + 4))))
            (length c + length f + length t + 8) p (with_items s items)
            (v >>= λ x. (if tested x then w else u) >>= done_with)
            ((v >>= λ x. if tested x then w else u) >>= done_with) (omega arith)
            (sym (bind_assoc v (λ x. if tested x then w else u) done_with))
            (Leads-then bytecode 2 (length c + (1 + (length f + length t + 4))) p (p + 2)
              (with_items s items) (with_items s (pos label ∷ items))
              (v >>= λ x. (if tested x then w else u) >>= done_with)
              (literal-Computes p label items Reads-branches.0 (omega arith))
              (Leads-bind bytecode (length c) (1 + (length f + length t + 4)) (p + 2)
                (p + 2 + length c) (with_items s (pos label ∷ items)) v
                (λ x. with_items s (x ∷ pos label ∷ items))
                (λ x. (if tested x then w else u) >>= done_with) c-Computes test-Leads))
