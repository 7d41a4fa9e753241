-- ===== src/Chain/Verify.antt =====
-- verifications.c: `validate_block` and `validate_blockchain`.
pub mod Links
pub mod Work
pub mod Shifted
use manhattan_group.Base.{ℕ, ◌++◌, Bool, true, false, List, [], ◌∷◌, ◌==◌}
use manhattan_group.Base.{ℤ, pos, negsuc}
use manhattan_group.Vm.Outcome.{Result, ok, ◌>>=◌}
use manhattan_group.Chain.Text.{strcmp_equal, print_ℤ}
use manhattan_group.Chain.Block.{Block, block_text, leading_zeros}

-- `leading_zeros == difficulty`; no round of the loop is made for a negative difficulty.
module _ (sha384 : List ℕ → List ℕ) where
  unfoldable pub validate_block : Block → ℤ → Result Bool
  unfolding block_text print_ℤ
  validate_block b (negsuc d) = block_text b >>= λ text. ok false
  validate_block b (pos d) = do
    text ← block_text b
    zeros ← leading_zeros d (sha384 (text ++ print_ℤ b.nonce))
    ok (zeros == d)

unfoldable pub validate_blockchain : List Block → Result Bool
validate_blockchain [] = ok true
validate_blockchain (b ∷ []) = ok true
validate_blockchain (b ∷ c ∷ blocks) = strcmp_equal c.previous_hash b.block_hash >>= λ same.
    elim same [ true ↦ validate_blockchain (c ∷ blocks) | false ↦ ok false ]
