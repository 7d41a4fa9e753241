-- ===== src/Chain/Verify/Work.antt =====
-- What `validate_block` of verifications.c accepts.
use manhattan_group.Base.{
  ℕ, zero, suc, ◌≡◌, refl, ◌∙◌, ap, Bool, true, false, arith, List, [], ◌∷◌, ◌++◌, ◌==◌, ==_iff,
  ◌↔◌, take, replicate,
}
use manhattan_group.Base.{pos}
use manhattan_group.Vm.Outcome.{ok, ◌>>=◌, bind-ok}
use manhattan_group.Chain.Text.{print_ℤ}
use manhattan_group.Chain.Block.{Block, block_text, leading_zeros}
use manhattan_group.Chain.Verify.{validate_block}

zeros_at_front : (d : ℕ) (hash : List ℕ) → leading_zeros d hash ≡ ok d → take d hash ≡ replicate d 0
zeros_at_front zero hash e = refl
zeros_at_front (suc d) [] e = absurd (cc)
zeros_at_front (suc d) (zero ∷ hash) e =
    let (n, at, e₁) = bind-ok (leading_zeros d hash) _ (suc d) e in
    let same : n ≡ d = ground (arith, e₁) in
    ap (λ xs. 0 ∷ xs) (zeros_at_front d hash (at ∙ ap ok same))
zeros_at_front (suc d) (suc c ∷ hash) e = absurd (ground arith)

counted : (d : ℕ) (hash : List ℕ) → take d hash ≡ replicate d 0 → leading_zeros d hash ≡ ok d
counted zero hash e = refl
counted (suc d) [] e = absurd (cc)
counted (suc d) (zero ∷ hash) e = rw (counted d hash (cc)) refl
counted (suc d) (suc c ∷ hash) e = absurd (ground arith)

-- `validate_block` with a difficulty that is not negative answers 1 exactly if the text of the block
-- is defined and its hash, with the nonce behind it, begins with as many zero bytes.
pub validate_block_iff :
    (sha384 : List ℕ → List ℕ) (b : Block) (d : ℕ)
    → (validate_block sha384 b (pos d) ≡ ok true) ↔ (
        (text : List ℕ) × (block_text b ≡ ok text)
        × (take d (sha384 (text ++ print_ℤ b.nonce)) ≡ replicate d 0))
unfolding validate_block
validate_block_iff sha384 b d = (
  λ e.
      let (text, at, e₁) =
        bind-ok (block_text b)
          (λ text. leading_zeros d (sha384 (text ++ print_ℤ b.nonce)) >>= λ zeros. ok (zeros == d))
          true e in
      let (zeros, count, e₂) =
        bind-ok (leading_zeros d (sha384 (text ++ print_ℤ b.nonce))) (λ zeros. ok (zeros == d)) true
          e₁ in
      (
        text,
        at,
        zeros_at_front d (sha384 (text ++ print_ℤ b.nonce))
            (count ∙ ap ok ((==_iff zeros d).0 (ok_true (zeros == d) e₂))),
      ),
  λ (text, at, front).
      rw (at, counted d (sha384 (text ++ print_ℤ b.nonce)) front) (ap ok ((==_iff d d).1 refl)),
)
  where
    ok_true : (t : Bool) → ok t ≡ ok true → t ≡ true
    ok_true true e = refl
    ok_true false e = absurd (cc)
