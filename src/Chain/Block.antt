-- ===== src/Chain/Block.antt =====
-- `struct block` of blockchain_cryptocurrency/functions.h, and the text that is hashed.
use manhattan_group.Base.{ℕ, zero, suc, List, [], ◌∷◌, ◌++◌}
use manhattan_group.Base.{ℤ}
use manhattan_group.Vm.Outcome.{Result, ok, undefined, ◌>>=◌}
use manhattan_group.Chain.Text.{c_string, print_ℤ}

pub record Block : Type 0 where
  pub block_index : ℤ
  pub previous_hash : List ℕ
  pub block_hash : List ℕ
  pub block_hash_hex : List ℕ
  pub transaction_bundle : List ℕ
  pub transaction_count : ℤ
  pub timestamp : ℤ
  pub nonce : ℤ

-- The text before the nonce. (The arrays `data` of the callers are larger than the fields can fill.)
unfoldable pub block_text : Block → Result (List ℕ)
unfolding print_ℤ
block_text b = do
  p ← c_string b.previous_hash
  t ← c_string b.transaction_bundle
  ok (print_ℤ b.block_index ++ p ++ print_ℤ b.timestamp ++ print_ℤ b.transaction_count ++ t)

-- The count of the zero bytes at the front, up to a limit.
abbrev pub leading_zeros : ℕ → List ℕ → Result ℕ
leading_zeros zero hash = ok 0
leading_zeros (suc limit) [] = undefined
leading_zeros (suc limit) (zero ∷ rest) = leading_zeros limit rest >>= λ n. ok (suc n)
leading_zeros (suc limit) (suc c ∷ rest) = ok 0
