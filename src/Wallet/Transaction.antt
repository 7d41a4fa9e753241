-- ===== src/Wallet/Transaction.antt =====
-- blockchain_cryptocurrency/transactions.c: `sign_transaction`, `get_txid` and `create_transaction`.
-- The numbers of a transaction are kept as the texts that were entered: they are `long double`s.
pub mod Id
pub mod Sign
pub mod Create
pub mod Validate
use manhattan_group.Base.{
  ℕ, zero, suc, ◌+◌, ◌-◌, ◌*◌, ◌/◌, Bool, true, false, not, ◌&&◌, ◌||◌, List, [], ◌∷◌, ◌++◌, length,
  take, drop, replicate, Option, none, some, ltb, leb, ◌==◌, if◌then◌else◌,
}
use manhattan_group.Vm.Outcome.{Result, ok, undefined, ◌>>=◌}
use manhattan_group.Chain.Text.{hex_pair}
use manhattan_group.Net.OwnAddress.{until_zero}
use manhattan_group.Net.Nodes.{same_text}
use manhattan_group.Wallet.Hex.{encode_hex, hex_to_bin, rounds_for}
use manhattan_group.Wallet.Keys.{
  Signer, public_key_size, secret_key_size, hex_size, cleanup_stack, limited, WalletRow,
}

abbrev pub signature_size : ℕ
signature_size = 2420

-- How `sign_transaction` ends: it returns -1 before it has done anything; it returns OQS_ERROR, with
-- the private key's text cleansed in part; or it has filled the signature.
pub data Signed : Type 0 where
  refused : Signed
  oqs_error : List ℕ → Signed
  signed : List ℕ → Signed

-- The arrays that the functions fill, as they are in memory, with what can be written behind them: the
-- bytes of the keys, the signature's text, and the transaction's id.
pub record Arrays : Type 0 where
  pub private_bin : List ℕ
  pub public_bin : List ℕ
  pub signature : List ℕ
  pub txid : List ℕ

-- What is entered for a transaction, as `create_transaction` keeps it.
pub record Input : Type 0 where
  pub sender : List ℕ
  pub recipient : List ℕ
  pub amount : List ℕ
  pub miners_fee : List ℕ
  pub moonshot_fee : List ℕ
  pub contents : List ℕ

module _ (signer : Signer) (sha3_384 : List ℕ → List ℕ) (strtol : ℕ → ℕ → ℕ) where
  -- The tests at the front: of two strings, and of the texts at two pointers.
  abbrev pub is_refused : List ℕ → List ℕ → List ℕ → List ℕ → Bool
  is_refused sender receiver private_key public_key =
      length sender == 0
      || ltb 69 (length sender)
      || ltb 69 (length receiver)
      || not (length (until_zero private_key) == hex_size secret_key_size - 1)
      || not (length (until_zero public_key) == hex_size public_key_size - 1)

  -- The message that is signed: the amount is printed into 20 bytes.
  abbrev pub message_digest : List ℕ → List ℕ → List ℕ → List ℕ
  message_digest sender receiver amount = sha3_384 (sender ++ 58 ∷ receiver ++ 58 ∷ take 19 amount)

  abbrev pub fails_with : List ℕ → Result Signed
  fails_with private_key = cleanup_stack private_key secret_key_size >>= λ k. ok (oqs_error k)

  -- From the signature on, with the size of a public key.
  abbrev pub sign_digest : ℕ → List ℕ → List ℕ → List ℕ → List ℕ → Option (List ℕ) → Result Signed
  sign_digest public_size digest private_key public_bin array none = fails_with private_key
  sign_digest public_size digest private_key public_bin array (some signature) =
      if signer.verify digest signature (take public_size public_bin)
      then (if length signature == signature_size
          then (encode_hex hex_pair signature array >>= λ text. ok (signed text))
          else undefined)
      else fails_with private_key

  -- Behind the tests: the keys are read from their texts, and the message is signed, with the sizes of
  -- the two keys.
  unfoldable pub sign_message : ℕ → ℕ → Arrays → List ℕ → List ℕ → List ℕ → Result Signed
  unfolding encode_hex hex_to_bin
  sign_message private_size public_size arrays digest private_key public_key =
      hex_to_bin strtol (rounds_for (hex_size private_size)) private_key arrays.private_bin
      >>= λ private_bin.
          hex_to_bin strtol (rounds_for (hex_size public_size)) public_key arrays.public_bin
          >>= λ public_bin.
              sign_digest public_size digest private_key public_bin arrays.signature
                (signer.sign digest (take private_size private_bin))

  unfoldable pub sign_transaction :
      Arrays → List ℕ → List ℕ → List ℕ → List ℕ → List ℕ → Result Signed
  unfolding sign_message
  sign_transaction arrays sender receiver amount private_key public_key =
      if is_refused sender receiver private_key public_key
      then ok refused
      else sign_message secret_key_size public_key_size arrays
          (message_digest sender receiver amount) private_key public_key

  -- `get_txid` hashes the bytes of the structure, which are a parameter.
  unfoldable pub get_txid : List ℕ → List ℕ → Result (List ℕ)
  unfolding encode_hex
  get_txid structure txid = encode_hex hex_pair (sha3_384 structure) txid

-- `fgets` of so many characters and an end: the text, with its newline if it has one, and what is left.
abbrev pub fgets : ℕ → List ℕ → List ℕ × List ℕ
fgets zero stdin = ([], stdin)
fgets (suc n) [] = ([], [])
fgets (suc n) (c ∷ stdin) =
    let (line, later) = fgets n stdin in if c == 10 then (c ∷ [], stdin) else (c ∷ line, later)

-- The text before the first newline.
abbrev pub before_newline : List ℕ → List ℕ
before_newline [] = []
before_newline (c ∷ text) = if c == 10 then [] else c ∷ before_newline text

-- `fgets` into a buffer: at the end of the input it leaves the text that is there.
abbrev pub fgets_into : List ℕ → ℕ → List ℕ → List ℕ × List ℕ
fgets_into old n [] = (old, [])
fgets_into old n (c ∷ stdin) = fgets n (c ∷ stdin)

-- What is read from the standard input, one line after the other, each with what is left behind it: a
-- `getchar` stands before the sender, the recipient and the data, and the newline is taken off the
-- sender and the numbers only. `t` has what the buffers held before, that of the numbers as `amount`.
-- The limits are those of the buffers.
module _ (address_limit number_limit data_limit : ℕ) where
  abbrev pub with_contents : Input → List ℕ × List ℕ → Input
  with_contents t (line, later) = record t { contents = line }

  abbrev pub with_moonshot_fee : Input → List ℕ × List ℕ → Input
  with_moonshot_fee t (line, later) =
      with_contents (record t { moonshot_fee = before_newline line })
        (fgets_into t.contents data_limit (drop 1 later))

  abbrev pub with_miners_fee : Input → List ℕ × List ℕ → Input
  with_miners_fee t (line, later) =
      with_moonshot_fee (record t { miners_fee = before_newline line })
        (fgets_into (before_newline line) number_limit later)

  abbrev pub with_amount : Input → List ℕ × List ℕ → Input
  with_amount t (line, later) =
      with_miners_fee (record t { amount = before_newline line })
        (fgets_into (before_newline line) number_limit later)

  abbrev pub with_recipient : Input → List ℕ × List ℕ → Input
  with_recipient t (line, later) =
      with_amount (record t { recipient = line }) (fgets_into t.amount number_limit later)

  abbrev pub with_sender : Input → List ℕ × List ℕ → Input
  with_sender t (line, later) =
      with_recipient (record t { sender = before_newline line })
        (fgets_into t.recipient address_limit (drop 1 later))

  abbrev pub read_lines : Input → List ℕ → Input
  read_lines old stdin = with_sender old (fgets_into old.sender address_limit (drop 1 stdin))

unfoldable pub read_transaction : Input → List ℕ → Input
read_transaction old stdin = read_lines 71 127 1023 old stdin

-- How the search for the keys of an address ends.
pub data Lookup : Type 0 where
  null_address : Lookup
  absent : Lookup
  key_texts : List ℕ → List ℕ → Lookup

-- The rows of the wallet, `none` for one whose address is NULL.
unfoldable pub find_keys : List ℕ → List (Option WalletRow) → Lookup
find_keys sender [] = absent
find_keys sender (none ∷ rows) = null_address
find_keys sender (some row ∷ rows) =
    let rest = find_keys sender rows in
    if same_text row.address sender then key_texts row.private_key row.public_key else rest

-- `strncpy` of a text into an array of so many bytes.
abbrev pub padded : ℕ → List ℕ → List ℕ
padded zero text = []
padded (suc n) [] = 0 ∷ padded n []
padded (suc n) (c ∷ text) = c ∷ padded n text

-- The text of a key of so many bytes, in its array in `wallet_keys`.
abbrev pub key_array : ℕ → List ℕ → List ℕ
key_array size text = padded (hex_size size) (take (size * 2) text)

pub record TransactionRow : Type 0 where
  pub txid : List ℕ
  pub entered : Input
  pub signature : List ℕ

-- How `create_transaction` ends: with a failing call, or past its last statement, with the row that
-- was inserted if the insertion succeeded.
pub data Created : Type 0 where
  fails : Created
  stores : Option TransactionRow → Created

-- How the calls end, and what the buffers hold before anything is read into them.
pub record CreateCalls : Type 0 where
  pub buffers : Input
  pub opened : Bool
  pub table_made : Bool
  pub wallet_opened : Bool
  pub prepared : Bool
  pub reopened : Bool
  pub opened_again : Bool
  pub executed : Bool

-- `structure` is how the entered values and the signature's text stand in memory, `behind` what lies
-- behind the private key's text in `wallet_keys`.
module _ (signer : Signer) (sha3_384 : List ℕ → List ℕ) (strtol : ℕ → ℕ → ℕ)
    (structure : Input → List ℕ → List ℕ) (arrays : Arrays) (behind : List ℕ) where
  abbrev pub store : CreateCalls → Input → List ℕ → List ℕ → Result Created
  store calls entered signature txid =
      if calls.reopened && calls.opened_again
      then ok (
          stores (
            if calls.executed
            then some (record { txid = txid; entered = entered; signature = signature })
            else none))
      else ok fails

  -- From `get_txid` on, with the bytes of the signature's array.
  abbrev pub with_signature : CreateCalls → Input → List ℕ → Result Created
  with_signature calls entered signature =
      get_txid signer sha3_384 strtol (structure entered signature) arrays.txid >>= λ txid.
      store calls entered signature txid

  -- What `sign_transaction` returns is not looked at: where it made no signature, the array has the
  -- bytes that it had.
  abbrev pub after_signing : CreateCalls → Input → Signed → Result Created
  after_signing calls entered (signed signature) = with_signature calls entered signature
  after_signing calls entered refused = with_signature calls entered arrays.signature
  after_signing calls entered (oqs_error private_key) =
      with_signature calls entered arrays.signature

  -- Without keys the arrays of `wallet_keys` were never written.
  abbrev pub after_lookup : CreateCalls → Input → Lookup → Result Created
  after_lookup calls entered null_address = ok fails
  after_lookup calls entered absent = undefined
  after_lookup calls entered (key_texts private_text public_text) =
      let private_key = key_array secret_key_size private_text ++ behind in
      sign_transaction signer sha3_384 strtol arrays entered.sender entered.recipient entered.amount
        private_key (key_array public_key_size public_text ++ private_key)
      >>= after_signing calls entered

  unfoldable pub create_transaction :
      CreateCalls → List ℕ → List (Option WalletRow) → Result Created
  unfolding sign_transaction get_txid read_transaction find_keys
  create_transaction calls stdin wallet =
      let entered = read_transaction calls.buffers stdin in
      let rest = after_lookup calls entered (find_keys entered.sender wallet) in
      if calls.opened && calls.table_made && calls.wallet_opened && calls.prepared
      then rest
      else ok fails
