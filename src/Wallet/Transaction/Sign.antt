-- ===== src/Wallet/Transaction/Sign.antt =====
-- `sign_transaction` of blockchain_cryptocurrency/transactions.c with keys of the wallet.
use manhattan_group.Base.{
  ℕ, ◌+◌, ◌*◌, ◌/◌, ◌%◌, ◌≤◌, ◌<◌, ◌≡◌, refl, ◌∙◌, ap, ◌⊎◌, inl, inr, true, false, List, [], ◌∷◌,
  ◌++◌, length, drop, some, All, ◌==◌, if_holds, length-drop, take-append, arith,
}
use native.Mathlib.Decide.{dec_lt}
use manhattan_group.Vm.Outcome.{Result, ok, undefined, ◌>>=◌}
use manhattan_group.Chain.Text.{hex_digit, hex_pair}
use manhattan_group.Net.OwnAddress.Found.{until_zero-text}
use manhattan_group.Wallet.Hex.{upper_pair, hex_text, hex_to_bin, rounds_for}
use manhattan_group.Wallet.Hex.RoundTrip.{
  IsByte, encode_hex_lem, encode_hex-any, length-hex_text, hex_to_bin-hex_text, hex_to_bin-overruns,
}
use manhattan_group.Wallet.Keys.{Signer, public_key_size, secret_key_size, hex_size}
use manhattan_group.Wallet.Keys.Filled.{hex_text-IsNonzero}
use manhattan_group.Wallet.Keys.Stored.{KeyPair, IsKeyPair}
use manhattan_group.Wallet.Transaction.{
  signature_size, Signed, refused, signed, Arrays, is_refused, message_digest, sign_message,
  sign_transaction,
}

module _ (signer : Signer) (sha3_384 : List ℕ → List ℕ) (strtol : ℕ → ℕ → ℕ) where
  sign_message-overruns :
      (n m : ℕ) (arrays : Arrays) (digest private_key public_key : List ℕ)
      → length arrays.private_bin ≤ n
      → sign_message signer sha3_384 strtol n m arrays digest private_key public_key ≡ undefined
  unfolding sign_message
  sign_message-overruns n m arrays digest private_key public_key size =
      rw
        (hex_to_bin-overruns strtol (rounds_for (hex_size n)) private_key arrays.private_bin
          (omega (arith, size)))
        refl

  -- With the array that the source declares, a call that is not refused writes past it.
  pub sign_transaction-overruns :
      (arrays : Arrays) (sender receiver amount private_key public_key : List ℕ)
      → length arrays.private_bin ≡ secret_key_size
      → let r =
          sign_transaction signer sha3_384 strtol arrays sender receiver amount private_key
            public_key in
        (r ≡ ok refused) ⊎ (r ≡ undefined)
  unfolding sign_transaction
  sign_transaction-overruns arrays sender receiver amount private_key public_key size =
      if_holds (λ (r : Result Signed). (r ≡ ok refused) ⊎ (r ≡ undefined))
        (is_refused signer sha3_384 strtol sender receiver private_key public_key) (inl refl)
        (inr (
          sign_message-overruns secret_key_size public_key_size arrays
            (message_digest signer sha3_384 strtol sender receiver amount) private_key public_key
            (omega (arith, size))))

  last_round :
      (x : ℕ) (rest array : List ℕ)
      → 0 < length array
      → (more : List ℕ) × (hex_to_bin strtol 1 (0 ∷ x ∷ rest) array ≡ ok more)
  unfolding hex_to_bin
  last_round x rest [] h = absurd (omega arith)
  last_round x rest (y ∷ array) h = (strtol 0 x ∷ array, refl)

  -- One round more than the key has bytes, over its text, the 0 behind it and a byte more.
  key_read :
      (bytes rest array : List ℕ) (x : ℕ)
      → All IsByte bytes
      → length bytes < length array
      → (more : List ℕ) × (hex_to_bin strtol
            (length bytes + 1)
            (hex_text upper_pair bytes ++ 0 ∷ x ∷ rest)
            array
          ≡ ok (bytes ++ more))
  key_read bytes rest array x h room =
      let (more, e) =
        last_round x rest (drop (length bytes) array)
          (omega (arith, length-drop (length bytes) array)) in
      (
        more,
        hex_to_bin-hex_text strtol bytes (0 ∷ x ∷ rest) array 1 h (omega arith)
            ∙ ap (λ r. r >>= λ xs. ok (bytes ++ xs)) e,
      )

  accepted :
      (sender receiver : List ℕ) (pair : KeyPair) (rest rest' : List ℕ)
      → IsKeyPair signer pair
      → 0 < length sender
      → length sender ≤ 69
      → length receiver ≤ 69
      → is_refused signer sha3_384 strtol sender receiver
          (hex_text upper_pair pair.1 ++ 0 ∷ rest)
          (hex_text upper_pair pair.0 ++ 0 ∷ rest')
        ≡ false
  accepted sender receiver pair rest rest' K some_sender short short' =
      rw
        (
          until_zero-text (hex_text upper_pair pair.1) rest (hex_text-IsNonzero pair.1),
          until_zero-text (hex_text upper_pair pair.0) rest' (hex_text-IsNonzero pair.0),
        )
        (ground
          (arith, length-hex_text pair.1, length-hex_text pair.0, K.public_size, K.private_size))

  -- The signature of a message, with arrays that have a byte more than the keys.
  sign_message_lem :
      (n m : ℕ) (arrays : Arrays) (digest : List ℕ) (pair : KeyPair) (x y old : ℕ)
      (rest rest' array signature : List ℕ)
      → length (pair.1) ≡ n
      → length (pair.0) ≡ m
      → All IsByte (pair.1)
      → All IsByte (pair.0)
      → n < length arrays.private_bin
      → m < length arrays.public_bin
      → arrays.signature ≡ old ∷ array
      → 2 * length signature ≤ length array
      → length signature ≡ signature_size
      → signer.sign digest pair.1 ≡ some signature
      → signer.verify digest signature pair.0 ≡ true
      → sign_message signer sha3_384 strtol n m arrays digest
          (hex_text upper_pair pair.1 ++ 0 ∷ x ∷ rest)
          (hex_text upper_pair pair.0 ++ 0 ∷ y ∷ rest')
        ≡ ok (signed (hex_text hex_pair signature ++ 0 ∷ drop (2 * length signature) array))
  unfolding sign_message
  sign_message_lem n m arrays digest pair x y old rest rest' array signature e e' bytes bytes' room
        room' split room'' size made valid =
      let (more, read) = key_read pair.1 rest arrays.private_bin x bytes (omega (arith, e)) in
      let (more', read') = key_read pair.0 rest' arrays.public_bin y bytes' (omega (arith, e')) in
      let rounds : rounds_for (hex_size n) ≡ length (pair.1) + 1 = omega (arith, e) in
      let rounds' : rounds_for (hex_size m) ≡ length (pair.0) + 1 = omega (arith, e') in
      let whole : (length signature == signature_size) ≡ true = ground (arith, size) in
      rw
        (
          rounds,
          rounds',
          read,
          read',
          take-append pair.1 more n e,
          made,
          take-append pair.0 more' m e',
          valid,
          whole,
          split,
          encode_hex-any hex_pair signature array old (omega (arith, size)),
          encode_hex_lem (λ b. hex_digit (b / 16)) (λ b. hex_digit (b % 16)) signature array room'',
        )
        refl

  public_overruns :
      (n m : ℕ) (arrays : Arrays) (digest : List ℕ) (pair : KeyPair) (x : ℕ)
      (rest public_key : List ℕ)
      → length (pair.1) ≡ n
      → All IsByte (pair.1)
      → n < length arrays.private_bin
      → length arrays.public_bin ≤ m
      → sign_message signer sha3_384 strtol n m arrays digest
          (hex_text upper_pair pair.1 ++ 0 ∷ x ∷ rest)
          public_key
        ≡ undefined
  unfolding sign_message
  public_overruns n m arrays digest pair x rest public_key e bytes room few =
      let (more, read) = key_read pair.1 rest arrays.private_bin x bytes (omega (arith, e)) in
      let rounds : rounds_for (hex_size n) ≡ length (pair.1) + 1 = omega (arith, e) in
      rw
        (
          rounds,
          read,
          hex_to_bin-overruns strtol (rounds_for (hex_size m)) public_key arrays.public_bin
              (omega arith),
        )
        refl

  -- For a key pair of liboqs as `generate_address` stores it, a sender of 1 to 69 characters and a
  -- recipient of at most 69, where signatures have 2420 bytes and the signature's array has room for
  -- their text: with an array for the bytes of either key that has the key's size, as the source
  -- declares both, or less, `sign_transaction` writes past its end; with a byte more in both, it fills
  -- the signature's array with the hexadecimal text of a signature that liboqs verifies for the hash of
  -- sender, recipient and amount.
  pub sign_transaction_lem :
      (arrays : Arrays) (sender receiver amount : List ℕ) (pair : KeyPair) (x y old : ℕ)
      (rest rest' array : List ℕ)
      → IsKeyPair signer pair
      → ((message key signature : List ℕ)
          → signer.sign message key ≡ some signature
          → length signature ≡ signature_size)
      → 0 < length sender
      → length sender ≤ 69
      → length receiver ≤ 69
      → arrays.signature ≡ old ∷ array
      → 2 * signature_size ≤ length array
      → let r =
          sign_transaction signer sha3_384 strtol arrays sender receiver amount
            (hex_text upper_pair pair.1 ++ 0 ∷ x ∷ rest)
            (hex_text upper_pair pair.0 ++ 0 ∷ y ∷ rest') in
        (((length arrays.private_bin ≤ secret_key_size)
            ⊎ (length arrays.public_bin ≤ public_key_size))
          × (r ≡ undefined))
        ⊎ ((secret_key_size < length arrays.private_bin)
            × (public_key_size < length arrays.public_bin)
            × (signature : List ℕ) × (r
                ≡ ok
                    (signed (hex_text hex_pair signature ++ 0 ∷ drop (2 * length signature) array)))
            × (signer.verify
                  (message_digest signer sha3_384 strtol sender receiver amount)
                  signature
                  pair.0
                ≡ true))
  unfolding sign_transaction
  sign_transaction_lem arrays sender receiver amount pair x y old rest rest' array K sizes
        some_sender short short' split room'' =
      let digest = message_digest signer sha3_384 strtol sender receiver amount in
      let (signature, made, valid) = K.signs digest in
      let size = sizes digest pair.1 signature made in
      let goes_on =
        accepted sender receiver pair (x ∷ rest) (y ∷ rest') K some_sender short short' in
      elim (dec_lt secret_key_size (length arrays.private_bin)) [
        | no few ↦ inl (
          inl (omega arith),
          rw goes_on (
              sign_message-overruns secret_key_size public_key_size arrays digest
                (hex_text upper_pair pair.1 ++ 0 ∷ x ∷ rest)
                (hex_text upper_pair pair.0 ++ 0 ∷ y ∷ rest') (omega arith)),
        )
        | yes room ↦ elim (dec_lt public_key_size (length arrays.public_bin)) [
          | no few ↦ inl (
            inr (omega arith),
            rw goes_on (
                public_overruns secret_key_size public_key_size arrays digest pair x rest
                  (hex_text upper_pair pair.0 ++ 0 ∷ y ∷ rest') K.private_size K.private_bytes room
                  (omega arith)),
          )
          | yes room' ↦ inr (
            room,
            room',
            signature,
            rw goes_on (
                sign_message_lem secret_key_size public_key_size arrays digest pair x y old rest
                  rest' array signature K.private_size K.public_size K.private_bytes K.public_bytes
                  room room' split (omega (arith, size)) size made valid),
            valid,
          )
        ]
      ]
