-- ===== src/Chain/Coinbase.antt =====
-- coinbase.c: a coinbase transaction is filled and printed.
use mathlib.Core.List.{append-nil}
use manhattan_group.Base.{
  ℕ, ◌<◌, ◌≡◌, refl, sym, true, ap, ◌∙◌, length-append, List, [], ◌∷◌, ◌++◌, length, take,
  replicate, All, leb, le→leb, if◌then◌else◌, ltb, take-append, arith,
}
use manhattan_group.Base.{ℤ, pos}
use manhattan_group.Vm.Outcome.{Result, ok, undefined, ◌>>=◌}
use manhattan_group.Chain.Text.{print_ℤ, print_hex, hex_pair}
use manhattan_group.Net.Exchange.{int_of_bytes}
use manhattan_group.Wallet.Hex.{hex_text}

pub record CoinbaseTransaction : Type 0 where
  pub prev_block_hash : List ℕ
  pub coinbase_output : List ℕ
  pub nonce : ℤ

-- `memcpy` of 32 bytes from an array.
unfoldable pub create_coinbase_transaction : List ℕ → ℤ → Result CoinbaseTransaction
create_coinbase_transaction prev_block_hash nonce =
    if leb 32 (length prev_block_hash)
    then ok (record {
      prev_block_hash = take 32 prev_block_hash;
      coinbase_output = replicate 8 0;
      nonce = nonce;
    })
    else undefined

abbrev pub print_bytes : List ℕ → List ℕ
print_bytes [] = []
print_bytes (byte ∷ bytes) = print_hex byte ++ print_bytes bytes

-- The first 4 bytes of the output as an `int`.
abbrev pub output_int : List ℕ → Result ℤ
output_int (a ∷ b ∷ c ∷ d ∷ rest) = ok (int_of_bytes a b c d)
output_int _ = undefined

-- The three texts that `print_coinbase_transaction` prints behind its labels.
unfoldable pub print_coinbase_transaction : CoinbaseTransaction → Result (List ℕ × List ℕ × List ℕ)
unfolding print_ℤ
print_coinbase_transaction t = output_int t.coinbase_output >>= λ output.
    ok (print_bytes (take 32 t.prev_block_hash), print_ℤ output, print_ℤ t.nonce)

-- `main`.
unfoldable pub run_coinbase : Result (List ℕ × List ℕ × List ℕ)
unfolding create_coinbase_transaction print_coinbase_transaction
run_coinbase =
    create_coinbase_transaction (replicate 32 0) (pos 12345) >>= print_coinbase_transaction

print_bytes-small :
    (bytes : List ℕ) → All (λ b. b < 128) bytes → print_bytes bytes ≡ hex_text hex_pair bytes
print_bytes-small [] h = refl
print_bytes-small (byte ∷ bytes) h = rw (is_small byte h.0, print_bytes-small bytes h.1) refl
  where
    is_small : (b : ℕ) → b < 128 → ltb b 128 ≡ true
    is_small b h = ground arith

-- A transaction prints with an output of 0 and, if the bytes of the hash are below 0x80, with two
-- digits for each of them.
pub print_coinbase_transaction_lem :
    (hash rest : List ℕ) (nonce : ℤ)
    → length hash ≡ 32
    → All (λ b. b < 128) hash
    → (create_coinbase_transaction (hash ++ rest) nonce >>= print_coinbase_transaction)
      ≡ ok (hex_text hex_pair hash, 48 ∷ [], print_ℤ nonce)
unfolding create_coinbase_transaction print_coinbase_transaction
print_coinbase_transaction_lem hash rest nonce size small =
    let copied : take 32 (hash ++ rest) ≡ hash = take-append hash rest 32 size in
    let printed : take 32 hash ≡ hash =
      ap (take 32) (sym (append-nil hash)) ∙ take-append hash [] 32 size in
    rw
      (
        le→leb 32 (length (hash ++ rest)) (omega (arith, length-append hash rest, size)),
        copied,
        printed,
        print_bytes-small hash small,
      )
      refl
