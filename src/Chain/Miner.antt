-- ===== src/Chain/Miner.antt =====
-- miner.c: `hash_block` searches for a nonce, `create_block` makes a block of the transactions in
-- the pool. SHA-384 is OpenSSL's, and the results of the two queries are SQLite's: parameters.
pub mod Proof
pub mod Hex
pub mod Total
pub mod Create
use manhattan_group.Base.{
  ℕ, zero, suc, ◌+◌, ◌*◌, ◌^◌, true, false, List, [], ◌∷◌, ◌++◌, length, Option, none, some, ◌==◌,
}
use manhattan_group.Base.{ℤ, pos}
use manhattan_group.Vm.Outcome.{Result, ok, undefined, ◌>>=◌}
use manhattan_group.Chain.Text.{write_text, print_ℤ, print_hex}
use manhattan_group.Chain.Block.{Block, block_text, leading_zeros}

abbrev pub difficulty : ℕ
difficulty = 3

-- The values of an `int` from 0 on.
unfoldable pub int_values : ℕ
int_values = 2 ^ 31

-- The loop that writes `block_hash_hex`, from the byte `i` on.
unfoldable pub write_hex : ℕ → List ℕ → List ℕ → Result (List ℕ)
unfolding write_text
write_hex i [] array = ok array
write_hex i (byte ∷ bytes) array =
    write_text array (i * 2) (print_hex byte) >>= λ written. write_hex (i + 1) bytes written

-- A row of the transaction table as text; `strlen` of a null pointer is undefined.
abbrev pub row_text : List (Option (List ℕ)) → Result (List ℕ)
row_text [] = ok (10 ∷ [])
row_text (none ∷ cells) = undefined
row_text (some cell ∷ cells) = row_text cells >>= λ rest. ok (cell ++ 44 ∷ rest)

abbrev pub bundle_text : List (List (Option (List ℕ))) → Result (List ℕ)
bundle_text [] = ok []
bundle_text (row ∷ rows) = do t ← row_text row; rest ← bundle_text rows; ok (t ++ rest)

-- `strcpy` of the text that `get_previous_hash` found; it is null where there is no block.
abbrev pub copy_previous : List ℕ → Option (List ℕ) → Result (List ℕ)
copy_previous array none = undefined
copy_previous array (some previous) = write_text array 0 previous

module _ (sha384 : List ℕ → List ℕ) where
  -- The loop over the nonces, with `left` values to go before `nonce++` overflows an `int`. (The test
  -- `nonce < UINT32_MAX` holds of every `int` that is not negative.)
  unfoldable pub find_nonce : ℕ → List ℕ → ℕ → Result ℕ
  unfolding print_ℤ
  find_nonce zero text nonce = undefined
  find_nonce (suc left) text nonce =
      leading_zeros difficulty (sha384 (text ++ print_ℤ (pos nonce))) >>= λ zeros.
      elim (zeros == difficulty) [ true ↦ ok nonce | false ↦ find_nonce left text (nonce + 1) ]

  -- What follows the search: the hash, the nonce and the hash in hexadecimal are stored.
  unfoldable pub finish_block : Block → List ℕ → ℕ → Result Block
  finish_block b text nonce =
      let new_hash = sha384 (text ++ print_ℤ (pos nonce)) in
      write_hex 0 new_hash b.block_hash_hex >>= λ hex.
      ok (record b { block_hash = new_hash; nonce = pos nonce; block_hash_hex = hex })

  unfoldable pub hash_block : Block → Result Block
  hash_block b = do
    text ← block_text b
    nonce ← find_nonce int_values text 0
    finish_block b text nonce

  -- `fresh` is the block before it is filled, `rows` the transaction pool, `now` the time.
  unfoldable pub create_block :
      Block → List (List (Option (List ℕ))) → Option (List ℕ) → ℤ → Result Block
  unfolding write_text
  create_block fresh rows previous now = do
    output ← bundle_text rows
    bundle ← write_text fresh.transaction_bundle 0 output
    link ← copy_previous fresh.previous_hash previous
    hash_block (record fresh {
      timestamp = now;
      transaction_bundle = bundle;
      previous_hash = link;
      transaction_count = pos (length rows);
      nonce = pos 0;
    })
