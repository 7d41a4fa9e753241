-- ===== src/Wallet/Transaction/Id.antt =====
-- `get_txid` of blockchain_cryptocurrency/transactions.c, whose `txid` has 96 bytes in functions.h.
use manhattan_group.Base.{
  ℕ, ◌*◌, ◌/◌, ◌%◌, ◌≤◌, ◌<◌, ◌≡◌, ◌∙◌, ap, ◌⊎◌, inl, inr, List, [], ◌∷◌, ◌++◌, length, drop, arith,
}
use native.Mathlib.Decide.{dec_lt}
use manhattan_group.Vm.Outcome.{ok, undefined}
use manhattan_group.Chain.Text.{hex_digit, hex_pair}
use manhattan_group.Wallet.Hex.{hex_text}
use manhattan_group.Wallet.Hex.RoundTrip.{encode_hex_lem, encode_hex-any, encode_hex-overruns}
use manhattan_group.Wallet.Keys.{Signer}
use manhattan_group.Wallet.Transaction.{get_txid}

module _ (signer : Signer) (sha3_384 : List ℕ → List ℕ) (strtol : ℕ → ℕ → ℕ) where
  pub get_txid-overruns :
      (structure txid : List ℕ)
      → length (sha3_384 structure) ≡ 48
      → length txid ≤ 96
      → get_txid signer sha3_384 strtol structure txid ≡ undefined
  unfolding get_txid
  get_txid-overruns structure txid size few =
      encode_hex-overruns hex_pair (sha3_384 structure) txid (omega (arith, size))
        (omega (arith, size))

  -- Where SHA3-384 gives 48 bytes: with a `txid` of 96 bytes, as the source declares it, or fewer,
  -- `get_txid` writes past its end; with more, it leaves the 96 digits of the hash of the structure, a 0,
  -- and what was behind.
  pub get_txid_lem :
      (structure txid : List ℕ)
      → length (sha3_384 structure) ≡ 48
      → ((length txid ≤ 96) × (get_txid signer sha3_384 strtol structure txid ≡ undefined))
        ⊎ ((96 < length txid)
            × (get_txid signer sha3_384 strtol structure txid
                ≡ ok (hex_text hex_pair (sha3_384 structure) ++ 0 ∷ drop 97 txid)))
  unfolding get_txid
  get_txid_lem structure [] size =
      inl (omega arith, get_txid-overruns structure [] size (omega arith))
  get_txid_lem structure (old ∷ rest) size = elim (dec_lt (length rest) 96) [
    | yes few ↦ inl (omega arith, get_txid-overruns structure (old ∷ rest) size (omega arith))
    | no enough ↦
        let twice : 2 * length (sha3_384 structure) ≡ 96 = omega (arith, size) in
        inr (
          omega arith,
          encode_hex-any hex_pair (sha3_384 structure) rest old (omega (arith, size))
              ∙ encode_hex_lem (λ b. hex_digit (b / 16)) (λ b. hex_digit (b % 16))
                  (sha3_384 structure) rest (omega (arith, size))
              ∙ ap (λ n. ok (hex_text hex_pair (sha3_384 structure) ++ 0 ∷ drop n rest)) twice,
        )
  ]
