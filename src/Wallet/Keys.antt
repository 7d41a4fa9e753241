-- ===== src/Wallet/Keys.antt =====
-- Key pairs and addresses: `generate_key_pair`, `generate_new_address` and `generate_address` of
-- blockchain_cryptocurrency/wallet.c; `validate_key_pair` and `test_keys_in_wallet` of verifications.c;
-- `cleanup_stack` of transactions.c. liboqs, OpenSSL, libbase58 and SQLite are parameters.
pub mod Filled
pub mod Stored
use manhattan_group.Base.{
  ℕ, zero, suc, ◌+◌, ◌-◌, ◌*◌, ◌/◌, ◌%◌, Bool, true, false, ◌&&◌, List, [], ◌∷◌, ◌++◌, length, take,
  drop, set, replicate, Option, none, some, ltb, leb, ◌==◌, if◌then◌else◌,
}
use manhattan_group.Vm.Outcome.{Result, ok, undefined, ◌>>=◌}
use manhattan_group.Chain.Text.{write_text}
use manhattan_group.Net.OwnAddress.{until_zero}
use manhattan_group.Wallet.Hex.{upper_pair, encode_hex, hex2bin}

-- The sizes of Dilithium2, and of a text of twice as many digits and a 0.
abbrev pub public_key_size : ℕ
public_key_size = 1312

abbrev pub secret_key_size : ℕ
secret_key_size = 2528

abbrev pub hex_size : ℕ → ℕ
hex_size n = n * 2 + 1

-- liboqs: a signature of a message by a key, if there is one; and its verification.
pub record Signer : Type 0 where
  pub sign : List ℕ → List ℕ → Option (List ℕ)
  pub verify : List ℕ → List ℕ → List ℕ → Bool

-- The code, and the two arrays: zeros until `OQS_SIG_keypair` has filled them.
unfoldable pub generate_key_pair : Bool → Option (List ℕ × List ℕ) → ℕ × (List ℕ × List ℕ)
generate_key_pair false pair = (2, (replicate public_key_size 0, replicate secret_key_size 0))
generate_key_pair true none = (3, (replicate public_key_size 0, replicate secret_key_size 0))
generate_key_pair true (some pair) = (0, pair)

pub record DigestCalls : Type 0 where
  pub created : Bool
  pub begun : Bool
  pub updated : Bool
  pub ended : Bool

-- The code, and the 48 bytes of the address.
unfoldable pub generate_new_address : (List ℕ → List ℕ) → DigestCalls → List ℕ → ℕ × List ℕ
generate_new_address sha3_384 calls public_key =
    let address = replicate 48 0 in
    if calls.created
    then if calls.begun
      then if calls.updated
        then if calls.ended then (0, sha3_384 (take public_key_size public_key)) else (5, address)
        else (4, address)
      else (3, address)
    else (2, address)

-- `OQS_MEM_cleanse` of so many bytes.
abbrev pub cleanup_stack : List ℕ → ℕ → Result (List ℕ)
cleanup_stack secret_key size =
    if leb size (length secret_key)
    then ok (replicate size 0 ++ drop size secret_key)
    else undefined

module _ (signer : Signer) where
  -- The code, and the private key, which is cleansed where a signature or its verification fails.
  abbrev pub verified : List ℕ → List ℕ → List ℕ → Option (List ℕ) → Result (ℕ × List ℕ)
  verified message public_key private_key none =
      cleanup_stack private_key secret_key_size >>= λ k. ok (1, k)
  verified message public_key private_key (some signature) =
      if signer.verify message signature public_key
      then ok (0, private_key)
      else (cleanup_stack private_key secret_key_size >>= λ k. ok (2, k))

  -- With whether `OQS_SIG_new` succeeds, and the random message. The pointers are never NULL.
  unfoldable pub validate_key_pair : Bool → List ℕ → List ℕ → List ℕ → Result (ℕ × List ℕ)
  validate_key_pair sig_made message public_key private_key =
      if sig_made
      then verified message public_key private_key (signer.sign message private_key)
      else ok (2, private_key)

-- `struct enc_wallet`, as far as `generate_address` fills it.
pub record EncWallet : Type 0 where
  pub public_key : List ℕ
  pub private_key : List ℕ
  pub address : List ℕ

-- The 0 that is written one past the end of a text's array, which has so many bytes behind it that may
-- be written as part of it: none, as the source declares it.
abbrev pub end_text : ℕ → List ℕ → Result (List ℕ)
end_text zero array = undefined
end_text (suc behind) array = ok array

-- From the first `memset` of the texts to `h_wallet.address[69] = '\0'`, with the bytes behind the
-- arrays of the keys' texts, and the text that `b58enc` writes.
unfoldable pub fill_wallet : ℕ → List ℕ → List ℕ → List ℕ → Result EncWallet
unfolding encode_hex write_text
fill_wallet behind public_key private_key base58 = do
  public_text ← encode_hex upper_pair public_key (replicate (hex_size public_key_size) 0)
  public ← end_text behind public_text
  private_text ← encode_hex upper_pair private_key (replicate (hex_size secret_key_size) 0)
  private ← end_text behind private_text
  address ← write_text (replicate 72 0) 0 base58
  ok (record { public_key = public; private_key = private; address = set address 69 0 })

-- `%.ns`.
abbrev pub limited : ℕ → List ℕ → List ℕ
limited n array = until_zero (take n array)

-- A row of the table `wallet`.
pub record WalletRow : Type 0 where
  pub address : List ℕ
  pub private_key : List ℕ
  pub public_key : List ℕ

abbrev pub wallet_row : EncWallet → WalletRow
wallet_row w = record {
  address = limited 69 w.address;
  private_key = limited (secret_key_size * 2) w.private_key;
  public_key = limited (public_key_size * 2) w.public_key;
}

-- What the calls of a round come to, and the bytes behind the arrays of the texts in `h_wallet`.
pub record RoundCalls : Type 0 where
  pub behind : ℕ
  pub sig_made : Bool
  pub keypair : Option (List ℕ × List ℕ)
  pub digest : DigestCalls
  pub sig_made_again : Bool
  pub message : List ℕ
  pub inserted : Bool

-- `test_keys_in_wallet`: the code, and for each row whether "Keypair passed!" is printed.
module _ (signer : Signer) (sscanf : List ℕ → Option ℕ) where
  -- The arrays hold what was in their memory until `hex2bin` fills them.
  abbrev pub read_key : (ℕ → List ℕ) → List ℕ → List ℕ
  read_key memory text = (hex2bin sscanf (memory (length text / 2)) text).1

  unfoldable pub test_rows :
      (ℕ → List ℕ) → Bool → (ℕ → List ℕ) → ℕ → List WalletRow → Result (List Bool)
  unfolding hex2bin validate_key_pair
  test_rows memory sig_made messages i [] = ok []
  test_rows memory sig_made messages i (row ∷ rows) =
      let rest = test_rows memory sig_made messages (i + 1) rows in
      validate_key_pair signer sig_made (messages i) (read_key memory row.public_key)
        (read_key memory row.private_key)
      >>= λ v. rest >>= λ r. ok ((v.0 == 0) ∷ r)

  unfoldable pub test_keys_in_wallet :
      Bool → Bool → (ℕ → List ℕ) → Bool → (ℕ → List ℕ) → List WalletRow → Result (ℕ × List Bool)
  unfolding test_rows
  test_keys_in_wallet opened prepared memory sig_made messages rows =
      if opened
      then if prepared
        then (test_rows memory sig_made messages 0 rows >>= λ r. ok (0, r))
        else ok (2, [])
      else ok (1, [])

module _ (signer : Signer) (sha3_384 : List ℕ → List ℕ) (b58enc : List ℕ → List ℕ) where
  -- A round of the loop: the row that it inserts, whatever the codes of the three calls.
  unfoldable pub new_row : RoundCalls → Result WalletRow
  unfolding generate_key_pair generate_new_address validate_key_pair fill_wallet
  new_row calls =
      let keys = (generate_key_pair calls.sig_made calls.keypair).1 in
      let address = (generate_new_address sha3_384 calls.digest keys.0).1 in
      validate_key_pair signer calls.sig_made_again calls.message keys.0 keys.1 >>= λ v.
      fill_wallet calls.behind keys.0 v.1 (b58enc address) >>= λ w. ok (wallet_row w)

  -- The rounds that are left: the code of `generate_address`, and the rows that were inserted.
  unfoldable pub generate_rows : ℕ → (ℕ → RoundCalls) → ℕ → Result (ℕ × List WalletRow)
  unfolding new_row
  generate_rows zero calls i = ok (0, [])
  generate_rows (suc left) calls i =
      let rest = generate_rows left calls (i + 1) in
      new_row (calls i) >>= λ row.
      if (calls i).inserted then (rest >>= λ r. ok (r.0, row ∷ r.1)) else ok (1, [])

  -- The code; the rows that were inserted; and what is printed for the keys in the table at the end,
  -- by `test_keys_in_wallet` of the rows that were there and the new ones.
  abbrev pub Generated : Type 0
  Generated = ℕ × (List WalletRow × List Bool)

  abbrev pub test_all :
      (List WalletRow → Result (ℕ × List Bool))
      → List WalletRow
      → ℕ × List WalletRow
      → Result Generated
  test_all tests older (zero, rows) = tests (older ++ rows) >>= λ t. ok (0, (rows, t.1))
  test_all tests older (suc code, rows) = ok (suc code, (rows, []))

  unfoldable pub generate_address :
      Bool
      → Bool
      → (ℕ → RoundCalls)
      → (List WalletRow → Result (ℕ × List Bool))
      → List WalletRow
      → Result Generated
  unfolding generate_rows
  generate_address opened table_made calls tests older =
      if opened && table_made
      then (generate_rows 5 calls 0 >>= test_all tests older)
      else ok (1, ([], []))
