-- ===== src/Vm/Compiler/Correct.antt =====
-- Compiled code computes the value of its expression.
use manhattan_group.Base.{
  ℕ, ◌+◌, ◌≤◌, ◌<◌, ◌≡◌, refl, sym, ◌∙◌, ap, List, [], ◌∷◌, ◌++◌, length, length-append, ◌==◌,
  if◌then◌else◌, arith,
}
use manhattan_group.Base.{ℤ, pos}
use manhattan_group.Vm.Outcome.{Result, ok, exits, undefined, ◌>>=◌, bind_assoc}
use manhattan_group.Vm.Int64.{to_uint32}
use manhattan_group.Vm.Stack.{Stack}
use manhattan_group.Vm.Execute.{Next, goes, step}
use manhattan_group.Vm.Opcode.{decode}
use manhattan_group.Vm.Execute.Jumps.{Reads}
use manhattan_group.Vm.Compare
use manhattan_group.Vm.Compiler.{
  Operator, meaning, code_of, Expr, literal, is_zero, complement, combine, choose, value, size_of,
  branches, compile, larger, depth,
}
use manhattan_group.Vm.Compiler.Runs.{Leads-step, Leads-bind, Leads-more, Reads-append}
use manhattan_group.Vm.Compiler.Steps.{with_items, step-combine, step-iszero, step-not}
use manhattan_group.Vm.Compiler.Branches.{
  Computes, literal-Computes, Reads-branches, branches-Computes,
}

length-branches :
    (label end : ℕ) (c t f : List ℕ)
    → length (branches label end c t f) ≡ length c + length f + length t + 8
length-branches label end c t f = omega (
  arith,
  length-append {0} c (0x57 ∷ (f ++ 0x60 ∷ end ∷ 0x56 ∷ 0x5b ∷ (t ++ 0x5b ∷ []))),
  length-append {0} f (0x60 ∷ end ∷ 0x56 ∷ 0x5b ∷ (t ++ 0x5b ∷ [])),
  length-append {0} t (0x5b ∷ []),
)

pub length-compile : (p : ℕ) (e : Expr) → length (compile p e) ≡ size_of e
length-compile p (literal n) = refl
length-compile p (is_zero e) =
    omega (arith, length-append {0} (compile p e) (0x15 ∷ []), length-compile p e)
length-compile p (complement e) =
    omega (arith, length-append {0} (compile p e) (0x19 ∷ []), length-compile p e)
length-compile p (combine o l r) = omega (
  arith,
  length-append {0} (compile p l) (compile (p + size_of l) r ++ code_of o ∷ []),
  length-append {0} (compile (p + size_of l) r) (code_of o ∷ []),
  length-compile p l,
  length-compile (p + size_of l) r,
)
length-compile p (choose c t f) =
    let label = p + size_of c + size_of f + 6 in
    omega (
      arith,
      length-branches label (label + size_of t + 1) (compile (p + 2) c) (compile (label + 1) t)
          (compile (p + size_of c + 3) f),
      length-compile (p + 2) c,
      length-compile (label + 1) t,
      length-compile (p + size_of c + 3) f,
    )

pub depth_pos : (e : Expr) → 1 ≤ depth e
depth_pos (literal n) = omega arith
depth_pos (is_zero e) = depth_pos e
depth_pos (complement e) = depth_pos e
depth_pos (combine o l r) = ground (arith, depth_pos l)
depth_pos (choose c t f) = ground (arith, depth_pos c)

larger-le : (a b : ℕ) → (a ≤ larger a b) × (b ≤ larger a b)
larger-le a b = ground arith

regroup_binds :
    (l r : Result ℤ) (g : ℤ → ℤ → Result ℤ) (done : ℤ → Result Next)
    → (l >>= λ a. r >>= λ b. g a b >>= done) ≡ ((l >>= λ a. r >>= λ b. g a b) >>= done)
regroup_binds (ok a) r g done = sym (bind_assoc r (g a) done)
regroup_binds (exits c) r g done = refl
regroup_binds undefined r g done = refl

-- The rounds that compute an operand, and one more.
module _ (bytecode : List ℕ) (s : Stack) where
  unary-Computes :
      (n p c : ℕ) (items : List ℤ) (r : Result ℤ) (f : ℤ → Result ℤ)
      → Computes bytecode s n p (p + n) items r
      → Reads bytecode (p + n) (c ∷ [])
      → ((a : ℤ)
          → step bytecode (decode c) (p + n + 1) (with_items s (a ∷ items))
            ≡ (f a >>= λ v. ok (goes (p + n + 1) (with_items s (v ∷ items)))))
      → Computes bytecode s (n + 1) p (p + (n + 1)) items (r >>= f)
  unary-Computes n p c items r f operand at round =
      let done : ℤ → Result Next = λ v. ok (goes (p + n + 1) (with_items s (v ∷ items))) in
      Leads-more bytecode (n + 1) (n + 1) p (with_items s items) (r >>= λ a. f a >>= done) _
        (omega arith)
        (sym (bind_assoc r f done)
          ∙ ap (λ (q : ℕ). (r >>= f) >>= λ v. ok (goes q (with_items s (v ∷ items)))) (regroup p n))
        (Leads-bind bytecode n 1 p (p + n) (with_items s items) r (λ a. with_items s (a ∷ items))
          (λ a. f a >>= done) operand
          (λ a. Leads-step bytecode (p + n) c (with_items s (a ∷ items)) _ at.0 (round a)))
    where
      regroup : (p n : ℕ) → p + n + 1 ≡ p + (n + 1)
      regroup p n = omega arith

  binary-Computes :
      (n m p : ℕ) (items : List ℤ) (l r : Result ℤ) (o : Operator)
      → length items < s.size
      → Computes bytecode s n p (p + n) items l
      → ((a : ℤ) → Computes bytecode s m (p + n) (p + n + m) (a ∷ items) r)
      → Reads bytecode (p + n + m) (code_of o ∷ [])
      → Computes bytecode s
          (n + m + 1)
          p
          (p + (n + m + 1))
          items
          (l >>= λ a. r >>= λ b. meaning o a b)
  binary-Computes n m p items l r o room first second at =
      let done : ℤ → Result Next = λ v. ok (goes (p + n + m + 1) (with_items s (v ∷ items))) in
      Leads-more bytecode (n + (m + 1)) (n + m + 1) p (with_items s items)
        (l >>= λ a. r >>= λ b. meaning o a b >>= done) _ (omega arith)
        (regroup_binds l r (meaning o) done
          ∙ ap
              (λ (q : ℕ). (l >>= λ a. r >>= λ b. meaning o a b) >>= λ v.
                ok (goes q (with_items s (v ∷ items))))
              (regroup p n m))
        (Leads-bind bytecode n (m + 1) p (p + n) (with_items s items) l
          (λ a. with_items s (a ∷ items)) (λ a. r >>= λ b. meaning o a b >>= done) first
          (λ a.
            Leads-bind bytecode m 1 (p + n) (p + n + m) (with_items s (a ∷ items)) r
              (λ b. with_items s (b ∷ a ∷ items)) (λ b. meaning o a b >>= done) (second a)
              (λ b.
                Leads-step bytecode (p + n + m) (code_of o) (with_items s (b ∷ a ∷ items)) _ at.0
                  (step-combine bytecode (p + n + m + 1) s items room o a b))))
    where
      regroup : (p n m : ℕ) → p + n + m + 1 ≡ p + (n + m + 1)
      regroup p n m = omega arith

  pub compile-Computes :
      (e : Expr) (p : ℕ) (items : List ℤ)
      → Reads bytecode p (compile p e)
      → length items + depth e ≤ s.size
      → Computes bytecode s (size_of e) p (p + size_of e) items (value e)
  unfolding value
  compile-Computes (literal n) p items code room =
      literal-Computes bytecode s p n items code (omega arith)
  compile-Computes (is_zero e) p items code room =
      let (operand, at) = Reads-append bytecode p (compile p e) (0x15 ∷ []) code in
      unary-Computes (size_of e) p 0x15 items (value e) Compare.iszero
        (compile-Computes e p items operand room) (rw (length-compile p e) at (at))
        (step-iszero bytecode (p + size_of e + 1) s items (omega (arith, depth_pos e)))
  compile-Computes (complement e) p items code room =
      let (operand, at) = Reads-append bytecode p (compile p e) (0x19 ∷ []) code in
      unary-Computes (size_of e) p 0x19 items (value e) Compare.bitwise_not
        (compile-Computes e p items operand room) (rw (length-compile p e) at (at))
        (step-not bytecode (p + size_of e + 1) s items (omega (arith, depth_pos e)))
  compile-Computes (combine o l r) p items code room =
      let q = p + size_of l in
      let (at_l, rest) =
        Reads-append bytecode p (compile p l) (compile q r ++ code_of o ∷ []) code in
      let (at_r, at_o) =
        Reads-append bytecode q (compile q r) (code_of o ∷ [])
          (rw (length-compile p l) at (rest)) in
      let (l_fits, r_fits) = larger-le (depth l) (depth r + 1) in
      binary-Computes (size_of l) (size_of r) p items (value l) (value r) o
        (omega (arith, depth_pos l, l_fits))
        (compile-Computes l p items at_l (omega (arith, l_fits)))
        (λ a. compile-Computes r q (a ∷ items) at_r (omega (arith, r_fits)))
        (rw (length-compile q r) at (at_o))
  compile-Computes (choose c t f) p items code room =
      let label = p + size_of c + size_of f + 6 in
      let end = label + size_of t + 1 in
      let code_c = compile (p + 2) c in
      let code_t = compile (label + 1) t in
      let code_f = compile (p + size_of c + 3) f in
      let at_label : label ≡ p + length code_c + length code_f + 6 =
        omega (arith, length-compile (p + 2) c, length-compile (p + size_of c + 3) f) in
      let at_end : end ≡ label + length code_t + 1 = omega (arith, length-compile (label + 1) t) in
      let (at_test, at_c, at_if, at_f, at_jump, at_t, at_last) =
        Reads-branches bytecode s p label end code_c code_t code_f at_label at_end code in
      let (c_fits, later_fit) = larger-le (depth c + 1) (larger (depth t) (depth f)) in
      let (t_fits, f_fits) = larger-le (depth t) (depth f) in
      Leads-more bytecode (length code_c + length code_f + length code_t + 8)
        (size_of (choose c t f)) p (with_items s items) _ _
        (omega (
          arith,
          length-compile (p + 2) c,
          length-compile (label + 1) t,
          length-compile (p + size_of c + 3) f,
        ))
        (ap
          (λ (q : ℕ). (value c >>= λ x. if to_uint32 x == 0 then value f else value t) >>= λ v.
            ok (goes q (with_items s (v ∷ items))))
          (last p (size_of c) (size_of f) (size_of t)))
        (branches-Computes bytecode s p label end code_c code_t code_f at_label at_end code items
          (value c) (value f) (value t)
          (rw (length-compile (p + 2) c)
            (compile-Computes c (p + 2) (pos label ∷ items) at_c (omega (arith, c_fits))))
          (rw (length-compile (p + 2) c, length-compile (p + size_of c + 3) f)
            (compile-Computes f (p + size_of c + 3) items (rw (length-compile (p + 2) c) at (at_f))
              (omega (arith, later_fit, f_fits))))
          (rw (length-compile (label + 1) t, behind label (size_of t))
            (compile-Computes t (label + 1) items at_t (omega (arith, later_fit, t_fits))))
          (omega (arith, c_fits, depth_pos c)))
    where
      last : (p n m k : ℕ) → p + n + m + 6 + k + 1 + 1 ≡ p + (n + m + k + 8)
      last p n m k = omega arith

      behind : (q n : ℕ) → q + n + 1 ≡ q + 1 + n
      behind q n = omega arith
