-- ===== src/Wallet/Keys/Stored.antt =====
-- The keys that `generate_address` stores, read back by `test_keys_in_wallet`.
use manhattan_group.Base.{
  ℕ, zero, suc, ◌+◌, ◌/◌, ◌<◌, ◌≡◌, refl, ◌∙◌, ap, Bool, true, List, [], ◌∷◌, length, take,
  replicate, Option, some, All, ◌++◌, ◌⊎◌, inl, inr, ◌==◌, arith,
}
use manhattan_group.Vm.Outcome.{ok, undefined, bind-ok}
use manhattan_group.Chain.Text.{IsNonzero}
use manhattan_group.Wallet.Hex.{upper_pair, hex_text}
use manhattan_group.Wallet.Hex.RoundTrip.{IsByte, length-hex_text, hex2bin-hex_text}
use manhattan_group.Wallet.Keys.Filled.{row_of, fill_wallet_lem, fill_wallet-overruns}
use manhattan_group.Wallet.Keys.{
  public_key_size, secret_key_size, Signer, validate_key_pair, WalletRow, RoundCalls, new_row,
  generate_key_pair, generate_new_address, generate_rows, generate_address, read_key, test_rows,
  test_keys_in_wallet,
}

abbrev pub KeyPair : Type 0
KeyPair = List ℕ × List ℕ

module _ (signer : Signer) where
  -- A key pair of the sizes of Dilithium2, whose signatures are valid.
  pub record IsKeyPair (pair : KeyPair) : Type 0 where
    pub public_size : length (pair.0) ≡ public_key_size
    pub private_size : length (pair.1) ≡ secret_key_size
    pub public_bytes : All IsByte (pair.0)
    pub private_bytes : All IsByte (pair.1)
    pub signs :
        (message : List ℕ)
        → (signature : List ℕ) × (signer.sign message pair.1 ≡ some signature)
          × (signer.verify message signature pair.0 ≡ true)

  validate_key_pair_lem :
      (pair : KeyPair) (message : List ℕ)
      → IsKeyPair pair
      → validate_key_pair signer true message pair.0 pair.1 ≡ ok (0, pair.1)
  unfolding validate_key_pair
  validate_key_pair_lem pair message K =
      let (signature, signed, valid) = K.signs message in rw (signed, valid) refl

  -- A round in which every call succeeds.
  abbrev pub well_round : ℕ → KeyPair → List ℕ → RoundCalls
  well_round behind pair message = record {
    behind = behind;
    sig_made = true;
    keypair = some pair;
    digest = record { created = true; begun = true; updated = true; ended = true };
    sig_made_again = true;
    message = message;
    inserted = true;
  }

  module _ (sha3_384 b58enc : List ℕ → List ℕ) (pairs : ℕ → KeyPair) (messages : ℕ → List ℕ)
      (keys : (i : ℕ) → IsKeyPair (pairs i))
      (base58 : (hash : List ℕ) → (length (b58enc hash) < 69) × All IsNonzero (b58enc hash)) where
    -- The row of a key pair: its address and the texts of its keys.
    abbrev pub stored : ℕ → WalletRow
    stored i = row_of (b58enc (sha3_384 (take public_key_size ((pairs i).0)))) (pairs i)

    abbrev pub stored_rows : ℕ → ℕ → List WalletRow
    stored_rows zero i = []
    stored_rows (suc left) i = stored i ∷ stored_rows left (i + 1)

    new_row_lem :
        (behind i : ℕ)
        → new_row signer sha3_384 b58enc (well_round (suc behind) (pairs i) (messages i))
          ≡ ok (stored i)
    unfolding new_row generate_key_pair generate_new_address
    new_row_lem behind i =
        let hash = sha3_384 (take public_key_size ((pairs i).0)) in
        let K = keys i in
        let (w, filled, row) =
          fill_wallet_lem behind (pairs i).0 (pairs i).1 (b58enc hash) K.public_size K.private_size
            (base58 hash).0 (base58 hash).1 in
        rw (validate_key_pair_lem (pairs i) (messages i) K, filled) (ap ok row)

    new_row-overruns :
        (i : ℕ) → new_row signer sha3_384 b58enc (well_round 0 (pairs i) (messages i)) ≡ undefined
    unfolding new_row generate_key_pair generate_new_address
    new_row-overruns i =
        let hash = sha3_384 (take public_key_size ((pairs i).0)) in
        let K = keys i in
        rw
          (
            validate_key_pair_lem (pairs i) (messages i) K,
            fill_wallet-overruns (pairs i).0 (pairs i).1 (b58enc hash) K.public_size,
          )
          refl

    generate_rows-overruns :
        (left i : ℕ)
        → generate_rows signer sha3_384 b58enc
            (suc left)
            (λ j. well_round 0 (pairs j) (messages j))
            i
          ≡ undefined
    unfolding generate_rows
    generate_rows-overruns left i = rw (new_row-overruns i) refl

    generate_rows_lem :
        (behind left i : ℕ)
        → generate_rows signer sha3_384 b58enc left
            (λ j. well_round (suc behind) (pairs j) (messages j))
            i
          ≡ ok (0, stored_rows left i)
    unfolding generate_rows
    generate_rows_lem behind zero i = refl
    generate_rows_lem behind (suc left) i =
        rw (new_row_lem behind i, generate_rows_lem behind left (i + 1)) refl

    module _ (sscanf : List ℕ → Option ℕ) (memory : ℕ → List ℕ) (tested : ℕ → List ℕ)
        (room : (n : ℕ) → length (memory n) ≡ n) where
      read_key_lem :
          (bytes : List ℕ)
          → All IsByte bytes
          → read_key signer sscanf memory (hex_text upper_pair bytes) ≡ bytes
      read_key_lem bytes h =
          ap (λ (r : Bool × List ℕ). r.1)
            (hex2bin-hex_text sscanf bytes (memory (length (hex_text upper_pair bytes) / 2)) h (
              room (length (hex_text upper_pair bytes) / 2) ∙ omega (arith, length-hex_text bytes)))

      test_rows_lem :
          (left i k : ℕ)
          → test_rows signer sscanf memory true tested k (stored_rows left i)
            ≡ ok (replicate left true)
      unfolding test_rows
      test_rows_lem zero i k = refl
      test_rows_lem (suc left) i k =
          let K = keys i in
          rw
            (
              read_key_lem (pairs i).0 K.public_bytes,
              read_key_lem (pairs i).1 K.private_bytes,
              validate_key_pair_lem (pairs i) (tested k) K,
              test_rows_lem left (i + 1) (k + 1),
            )
            refl

      -- Tests of the rows that were there, and then of new ones.
      test_rows-append :
          (left i k : ℕ) (older : List WalletRow) (passed : List Bool)
          → test_rows signer sscanf memory true tested k older ≡ ok passed
          → test_rows signer sscanf memory true tested k (older ++ stored_rows left i)
            ≡ ok (passed ++ replicate left true)
      unfolding test_rows
      test_rows-append left i k [] passed e =
          let none_passed : [] ≡ passed = cc in rw (← none_passed) (test_rows_lem left i k)
      test_rows-append left i k (row ∷ older) passed e =
          let (v, tests, e₁) =
            bind-ok
              (validate_key_pair signer true (tested k)
                (read_key signer sscanf memory row.public_key)
                (read_key signer sscanf memory row.private_key))
              _ passed e in
          let (r, later, e₂) =
            bind-ok (test_rows signer sscanf memory true tested (k + 1) older) _ passed e₁ in
          let all_passed : (v.0 == 0) ∷ r ≡ passed = cc in
          rw (tests, test_rows-append left i (k + 1) older r later)
            (ap (λ (xs : List Bool). ok (xs ++ replicate left true)) all_passed)

      -- Where every call succeeds, liboqs makes key pairs of its sizes whose signatures it verifies,
      -- the Base58 text of an address has at most 68 characters, and the tests of the rows that the
      -- wallet has are defined: with the arrays of `h_wallet` as they are declared, `generate_address`
      -- writes past the end of one; with a byte behind the two arrays of the keys' texts, it returns 0
      -- after five more rows, which hold the addresses and the keys as hexadecimal text, and
      -- `test_keys_in_wallet`, which reads the keys back from these texts, passes each of the five,
      -- whatever messages it takes. (Its arrays have the lengths that they are made with.)
      pub generate_address_lem :
          (behind : ℕ) (older : List WalletRow) (passed : List Bool)
          → test_rows signer sscanf memory true tested 0 older ≡ ok passed
          → let r =
              generate_address signer sha3_384 b58enc true true
                (λ j. well_round behind (pairs j) (messages j))
                (test_keys_in_wallet signer sscanf true true memory true tested)
                older in
            ((behind ≡ 0) × (r ≡ undefined))
            ⊎ ((0 < behind) × (r ≡ ok (0, (stored_rows 5 0, passed ++ replicate 5 true))))
      unfolding generate_address test_keys_in_wallet
      generate_address_lem zero older passed e = inl (refl, rw (generate_rows-overruns 4 0) refl)
      generate_address_lem (suc behind) older passed e = inr (
        omega arith,
        rw (generate_rows_lem behind 5 0, test_rows-append 5 0 0 older passed e) refl,
      )
