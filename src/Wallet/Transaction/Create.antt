-- ===== src/Wallet/Transaction/Create.antt =====
-- `create_transaction` of blockchain_cryptocurrency/transactions.c: what it reads, and how it ends.
use manhattan_group.Base.{
  ℕ, zero, suc, ◌<◌, ◌≡◌, ◌≢◌, refl, ◌⊎◌, inl, inr, false, ◌&&◌, List, [], ◌∷◌, ◌++◌, length,
  Option, All, ◌==◌, if_holds, arith,
}
use manhattan_group.Vm.Outcome.{Result, ok, undefined, ◌>>=◌}
use manhattan_group.Wallet.Keys.{Signer, secret_key_size, public_key_size, WalletRow}
use manhattan_group.Wallet.Transaction.{
  Signed, refused, Arrays, Input, fgets, fgets_into, before_newline, get_txid, read_transaction,
  read_lines, find_keys, Lookup, null_address, absent, key_texts, key_array, CreateCalls, Created,
  fails, after_signing, after_lookup, create_transaction,
}
use manhattan_group.Wallet.Transaction.Id.{get_txid-overruns}
use manhattan_group.Wallet.Transaction.Sign.{sign_transaction-overruns}

abbrev pub NoNewline : ℕ → Type 0
NoNewline c = c ≢ 10

not_newline : (c : ℕ) → c ≢ 10 → (c == 10) ≡ false
not_newline c h = ground arith

fgets_lem :
    (n : ℕ) (text rest : List ℕ)
    → length text < n
    → All NoNewline text
    → fgets n (text ++ 10 ∷ rest) ≡ (text ++ 10 ∷ [], rest)
fgets_lem zero text rest h clean = absurd (omega arith)
fgets_lem (suc n) [] rest h clean = refl
fgets_lem (suc n) (c ∷ text) rest h clean =
    rw (not_newline c clean.0, fgets_lem n text rest (omega arith) clean.1) refl

fgets_into_lem :
    (old : List ℕ) (n : ℕ) (text rest : List ℕ)
    → length text < n
    → All NoNewline text
    → fgets_into old n (text ++ 10 ∷ rest) ≡ (text ++ 10 ∷ [], rest)
fgets_into_lem old n [] rest h clean = fgets_lem n [] rest h clean
fgets_into_lem old n (c ∷ text) rest h clean = fgets_lem n (c ∷ text) rest h clean

before_newline_lem :
    (text rest : List ℕ) → All NoNewline text → before_newline (text ++ 10 ∷ rest) ≡ text
before_newline_lem [] rest clean = refl
before_newline_lem (c ∷ text) rest clean =
    rw (not_newline c clean.0, before_newline_lem text rest clean.1) refl

module _ (signer : Signer) (sha3_384 : List ℕ → List ℕ) (strtol : ℕ → ℕ → ℕ)
    (structure : Input → List ℕ → List ℕ) (arrays : Arrays) (behind : List ℕ) where
  -- Whatever is entered and whatever the wallet holds: where SHA3-384 gives 48 bytes, with the array for
  -- the private key that `sign_transaction` declares and the `txid` of `struct transaction`,
  -- `create_transaction` ends with a failing call or runs into undefined behaviour.
  pub create_transaction_undefined :
      (calls : CreateCalls) (stdin : List ℕ) (wallet : List (Option WalletRow))
      → length arrays.private_bin ≡ secret_key_size
      → length arrays.txid ≡ 96
      → ((message : List ℕ) → length (sha3_384 message) ≡ 48)
      → let r =
          create_transaction signer sha3_384 strtol structure arrays behind calls stdin wallet in
        (r ≡ ok fails) ⊎ (r ≡ undefined)
  unfolding create_transaction
  create_transaction_undefined calls stdin wallet size id_size hash_size =
      if_holds Ends (calls.opened && calls.table_made && calls.wallet_opened && calls.prepared)
        (by_lookup (read_transaction calls.buffers stdin)
          (find_keys (read_transaction calls.buffers stdin).sender wallet))
        (inl refl)
    where
      Ends : Result Created → Type 0
      Ends r = (r ≡ ok fails) ⊎ (r ≡ undefined)

      no_id : (bytes : List ℕ) → get_txid signer sha3_384 strtol bytes arrays.txid ≡ undefined
      no_id bytes =
          get_txid-overruns signer sha3_384 strtol bytes arrays.txid (hash_size bytes)
            (omega (arith, id_size))

      by_signing :
          (entered : Input) (r : Result Signed)
          → (r ≡ ok refused) ⊎ (r ≡ undefined)
          → Ends (r >>= after_signing signer sha3_384 strtol structure arrays behind calls entered)
      by_signing entered r (inl e) = rw (e, no_id (structure entered arrays.signature)) (inr refl)
      by_signing entered r (inr e) = rw e (inr refl)

      by_lookup :
          (entered : Input) (found : Lookup)
          → Ends (after_lookup signer sha3_384 strtol structure arrays behind calls entered found)
      by_lookup entered null_address = inl refl
      by_lookup entered absent = inr refl
      by_lookup entered (key_texts private_text public_text) =
          let private_key = key_array secret_key_size private_text ++ behind in
          by_signing entered _ (
            sign_transaction-overruns signer sha3_384 strtol arrays entered.sender entered.recipient
              entered.amount private_key (key_array public_key_size public_text ++ private_key)
              size)

abbrev pub line : List ℕ → List ℕ → List ℕ
line word later = word ++ 10 ∷ later

-- The rest of the menu's line, and the six that are entered.
abbrev pub entered_lines :
    (sender recipient amount miners_fee moonshot_fee contents later : List ℕ) (first first' : ℕ)
    → List ℕ
entered_lines sender recipient amount miners_fee moonshot_fee contents later first first' =
    10
    ∷ line sender (
        first
        ∷ line recipient
            (line amount (line miners_fee (line moonshot_fee (first' ∷ line contents later)))))

read_lines_lem :
    (n m o : ℕ) (old : Input)
    (sender recipient amount miners_fee moonshot_fee contents later : List ℕ) (first first' : ℕ)
    → (length sender < n)
      × (length recipient < n)
      × (length amount < m)
      × (length miners_fee < m)
      × (length moonshot_fee < m)
      × (length contents < o)
    → All NoNewline sender
      × All NoNewline recipient
      × All NoNewline amount
      × All NoNewline miners_fee
      × All NoNewline moonshot_fee
      × All NoNewline contents
    → read_lines n m o old
        (entered_lines sender recipient amount miners_fee moonshot_fee contents later first first')
      ≡ record {
        sender = sender;
        recipient = recipient ++ 10 ∷ [];
        amount = amount;
        miners_fee = miners_fee;
        moonshot_fee = moonshot_fee;
        contents = contents ++ 10 ∷ [];
      }
read_lines_lem n m o old sender recipient amount miners_fee moonshot_fee contents later first first'
      (a, b, c, d, e, f) (clean_a, clean_b, clean_c, clean_d, clean_e, clean_f) =
    let after_moonshot = first' ∷ line contents later in
    let after_miners = line moonshot_fee after_moonshot in
    let after_amount = line miners_fee after_miners in
    let after_recipient = line amount after_amount in
    let after_sender = first ∷ line recipient after_recipient in
    rw
      (
        fgets_into_lem old.sender n sender after_sender a clean_a,
        fgets_into_lem old.recipient n recipient after_recipient b clean_b,
        fgets_into_lem old.amount m amount after_amount c clean_c,
        before_newline_lem amount [] clean_c,
        fgets_into_lem amount m miners_fee after_miners d clean_d,
        before_newline_lem miners_fee [] clean_d,
        fgets_into_lem miners_fee m moonshot_fee after_moonshot e clean_e,
        fgets_into_lem old.contents o contents later f clean_f,
        before_newline_lem sender [] clean_a,
        before_newline_lem moonshot_fee [] clean_e,
      )
      refl

-- What `create_transaction` takes from six lines that follow the line of the menu's choice: the sender
-- and the three numbers without their newlines, but the recipient and the data without their first
-- character, and with their newlines, whatever the buffers held. (The lines are shorter than the
-- buffers.)
pub read_transaction_lem :
    (old : Input) (sender recipient amount miners_fee moonshot_fee contents later : List ℕ)
    (first first' : ℕ)
    → (length sender < 71)
      × (length recipient < 71)
      × (length amount < 127)
      × (length miners_fee < 127)
      × (length moonshot_fee < 127)
      × (length contents < 1023)
    → All NoNewline sender
      × All NoNewline recipient
      × All NoNewline amount
      × All NoNewline miners_fee
      × All NoNewline moonshot_fee
      × All NoNewline contents
    → read_transaction old
        (entered_lines sender recipient amount miners_fee moonshot_fee contents later first first')
      ≡ record {
        sender = sender;
        recipient = recipient ++ 10 ∷ [];
        amount = amount;
        miners_fee = miners_fee;
        moonshot_fee = moonshot_fee;
        contents = contents ++ 10 ∷ [];
      }
unfolding read_transaction
read_transaction_lem = read_lines_lem 71 127 1023
