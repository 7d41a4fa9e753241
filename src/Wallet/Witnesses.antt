-- ===== src/Wallet/Witnesses.antt =====
-- The theorems on keys and transactions at a concrete signer.
use manhattan_group.Base.{
  ℕ, zero, suc, ◌*◌, ◌<◌, ◌≤◌, ◌≡◌, refl, sym, ◌∙◌, ap, ◌⊎◌, true, false, List, [], ◌∷◌, ◌++◌,
  length, drop, replicate, length-replicate, none, some, All, arith,
}
use mathlib.Core.Option.{some-injective}
use manhattan_group.Vm.Outcome.{ok, undefined}
use manhattan_group.Chain.Text.{hex_pair, c_string}
use manhattan_group.Base.{ℤ, pos}
use manhattan_group.Chain.Block.{Block}
use manhattan_group.Chain.Mine.Once.{genesis_row}
use manhattan_group.Chain.Database.{mine_answered}
use manhattan_group.Chain.Rows.{epoch}
use manhattan_group.Chain.Miner.{int_values, find_nonce, finish_block, hash_block, write_hex}
use manhattan_group.Chain.Text.{print_ℤ}
use manhattan_group.Chain.Block.{block_text}
use manhattan_group.Chain.Database.Two.{IsChain}
use manhattan_group.Wallet.Menu.Blocks.{InOrder, run_menu_blocks}
use manhattan_group.Wallet.Menu.{
  Operations, entry_of, run_menu, returned, Databases, Outside, operations, run_menu_pool,
}
use manhattan_group.Wallet.Hex.{upper_pair, hex_text}
use manhattan_group.Wallet.Hex.RoundTrip.{IsByte}
use manhattan_group.Wallet.Keys.{
  Signer, public_key_size, secret_key_size, generate_address, test_keys_in_wallet, WalletRow,
  test_rows, validate_key_pair,
}
use manhattan_group.Wallet.Keys.Stored.{
  KeyPair, IsKeyPair, well_round, stored_rows, generate_address_lem,
}
use manhattan_group.Wallet.Transaction.{
  Input, signature_size, signed, Arrays, message_digest, sign_transaction, CreateCalls,
  create_transaction, fails, read_transaction, get_txid,
}
use manhattan_group.Wallet.Transaction.Validate.{
  validate_transaction, validate_transaction-signed, IsHexDigit,
}
use manhattan_group.Wallet.Transaction.Id.{get_txid_lem}
use manhattan_group.Wallet.Transaction.Sign.{sign_transaction_lem}
use manhattan_group.Wallet.Transaction.Create.{
  create_transaction_undefined, read_transaction_lem, entered_lines, NoNewline,
}

abbrev zeros : ℕ → List ℕ
zeros n = replicate n 0

zeros-IsByte : (n : ℕ) → All IsByte (zeros n)
zeros-IsByte zero = tt
zeros-IsByte (suc n) = (omega arith, zeros-IsByte n)

-- Every signature is the same, and valid.
abbrev any_signer : Signer
any_signer = record {
  sign = λ message key. some (zeros signature_size);
  verify = λ message signature key. true;
}

abbrev zero_pair : KeyPair
zero_pair = (zeros public_key_size, zeros secret_key_size)

zero_pair-IsKeyPair : IsKeyPair any_signer zero_pair
zero_pair-IsKeyPair = record {
  public_size = length-replicate {A = ℕ} public_key_size 0;
  private_size = length-replicate {A = ℕ} secret_key_size 0;
  public_bytes = zeros-IsByte public_key_size;
  private_bytes = zeros-IsByte secret_key_size;
  signs = λ message. (zeros signature_size, refl, refl);
}

abbrev same_hash : List ℕ → List ℕ
same_hash message = zeros 48

same_hash_size : (message : List ℕ) → length (same_hash message) ≡ 48
same_hash_size message = length-replicate {A = ℕ} 48 0

abbrev two_letters : List ℕ → List ℕ
two_letters hash = 50 ∷ 71 ∷ []

-- A wallet with one row, whose keys are empty.
abbrev old_row : WalletRow
old_row = record { address = 50 ∷ []; private_key = []; public_key = [] }

old_passed :
    test_rows any_signer (λ word. none) zeros true (λ j. 7 ∷ []) 0 (old_row ∷ []) ≡ ok (true ∷ [])
unfolding test_rows validate_key_pair
old_passed = refl

generate_address_lem_example :
    let r =
      generate_address any_signer same_hash two_letters true true
        (λ j. well_round any_signer 1 zero_pair [])
        (test_keys_in_wallet any_signer (λ word. none) true true zeros true (λ j. 7 ∷ []))
        (old_row ∷ []) in
    ((◌≡◌ {A = ℕ} 1 0) × (r ≡ undefined))
    ⊎ ((0 < 1)
        × (r
            ≡ ok (
              0,
              (
                stored_rows any_signer same_hash two_letters
                    (λ i. zero_pair)
                    (λ i. [])
                    (λ i. zero_pair-IsKeyPair)
                    (λ hash. (omega arith, (omega arith, (omega arith, tt))))
                    5
                    0,
                (true ∷ []) ++ replicate 5 true,
              ),
            )))
generate_address_lem_example =
    generate_address_lem any_signer same_hash two_letters (λ i. zero_pair) (λ i. [])
      (λ i. zero_pair-IsKeyPair) (λ hash. (omega arith, (omega arith, (omega arith, tt))))
      (λ word. none) zeros (λ j. 7 ∷ []) (λ n. length-replicate {A = ℕ} n 0) 1 (old_row ∷ [])
      (true ∷ []) old_passed

abbrev roomy : Arrays
roomy = record {
  private_bin = 0 ∷ zeros secret_key_size;
  public_bin = 0 ∷ zeros public_key_size;
  signature = 0 ∷ zeros (2 * signature_size);
  txid = zeros 97;
}

sign_transaction_lem_example :
    let r =
      sign_transaction any_signer same_hash
        (λ c d. 0)
        roomy
        (65 ∷ [])
        (66 ∷ [])
        (53 ∷ [])
        (hex_text upper_pair zero_pair.1 ++ 0 ∷ 0 ∷ [])
        (hex_text upper_pair zero_pair.0 ++ 0 ∷ 0 ∷ []) in
    (((length roomy.private_bin ≤ secret_key_size) ⊎ (length roomy.public_bin ≤ public_key_size))
      × (r ≡ undefined))
    ⊎ ((secret_key_size < length roomy.private_bin)
        × (public_key_size < length roomy.public_bin)
        × (signature : List ℕ) × (r
            ≡ ok (
                signed (
                  hex_text hex_pair signature
                  ++ 0 ∷ drop (2 * length signature) (zeros (2 * signature_size)))))
        × (any_signer.verify
              (message_digest any_signer same_hash (λ c d. 0) (65 ∷ []) (66 ∷ []) (53 ∷ []))
              signature
              zero_pair.0
            ≡ true))
sign_transaction_lem_example =
    sign_transaction_lem any_signer same_hash (λ c d. 0) roomy (65 ∷ []) (66 ∷ []) (53 ∷ [])
      zero_pair 0 0 0 [] [] (zeros (2 * signature_size)) zero_pair-IsKeyPair
      (λ message key signature e.
        ap length (sym (some-injective (zeros signature_size) signature e))
        ∙ length-replicate {A = ℕ} signature_size 0)
      (omega arith) (omega arith) (omega arith) refl
      (omega (arith, length-replicate {A = ℕ} (2 * signature_size) 0))

abbrev declared : Arrays
declared = record {
  private_bin = zeros secret_key_size;
  public_bin = zeros public_key_size;
  signature = zeros 4841;
  txid = zeros 96;
}

abbrev unread : Input
unread = record {
  sender = 1 ∷ [];
  recipient = [];
  amount = [];
  miners_fee = [];
  moonshot_fee = [];
  contents = [];
}

abbrev well_called : CreateCalls
well_called = record {
  buffers = unread;
  opened = true;
  table_made = true;
  wallet_opened = true;
  prepared = true;
  reopened = true;
  opened_again = true;
  executed = true;
}

abbrev typed : List ℕ
typed = entered_lines (65 ∷ []) (66 ∷ []) (53 ∷ []) (49 ∷ []) (50 ∷ []) (67 ∷ []) [] 88 89

create_transaction_undefined_example :
    let r =
      create_transaction any_signer same_hash
        (λ c d. 0)
        (λ entered signature. [])
        declared
        (0 ∷ [])
        well_called
        typed
        (some (record { address = 65 ∷ []; private_key = []; public_key = [] }) ∷ []) in
    (r ≡ ok fails) ⊎ (r ≡ undefined)
create_transaction_undefined_example =
    create_transaction_undefined any_signer same_hash (λ c d. 0) (λ entered signature. []) declared
      (0 ∷ []) well_called typed
      (some (record { address = 65 ∷ []; private_key = []; public_key = [] }) ∷ [])
      (length-replicate {A = ℕ} secret_key_size 0) (length-replicate {A = ℕ} 96 0) same_hash_size

other : (c : ℕ) → 10 < c → NoNewline c
other c h e = absurd (omega (arith, e))

read_transaction_lem_example : read_transaction unread typed ≡ record {
  sender = 65 ∷ [];
  recipient = 66 ∷ 10 ∷ [];
  amount = 53 ∷ [];
  miners_fee = 49 ∷ [];
  moonshot_fee = 50 ∷ [];
  contents = 67 ∷ 10 ∷ [];
}
read_transaction_lem_example =
    read_transaction_lem unread (65 ∷ []) (66 ∷ []) (53 ∷ []) (49 ∷ []) (50 ∷ []) (67 ∷ []) [] 88 89
      (omega arith, omega arith, omega arith, omega arith, omega arith, omega arith)
      (
        (other 65 (omega arith), tt),
        (other 66 (omega arith), tt),
        (other 53 (omega arith), tt),
        (other 49 (omega arith), tt),
        (other 50 (omega arith), tt),
        (other 67 (omega arith), tt),
      )

-- A hash of 48 digits.
abbrev digit_hash : List ℕ → List ℕ
digit_hash message = replicate 48 48

accepted :
    validate_transaction digit_hash
      (65 ∷ 0 ∷ [])
      (66 ∷ 0 ∷ [])
      []
      (hex_text hex_pair (zeros 24) ++ 0 ∷ [])
    ≡ ok true
unfolding validate_transaction
accepted = refl

validate_transaction-signed_example :
    (s : List ℕ) × (r : List ℕ) × (c_string (65 ∷ 0 ∷ []) ≡ ok s)
    × (c_string (66 ∷ 0 ∷ []) ≡ ok r)
    × All IsHexDigit (digit_hash (s ++ r ++ []))
validate_transaction-signed_example =
    validate_transaction-signed digit_hash (65 ∷ 0 ∷ []) (66 ∷ 0 ∷ []) [] (zeros 24) (0 ∷ [])
      (omega (arith, length-replicate {A = ℕ} 24 0)) (zeros-IsByte 24) accepted

abbrev blank : Block
blank = record {
  block_index = pos 0;
  previous_hash = zeros 96;
  block_hash = zeros 48;
  block_hash_hex = zeros 128;
  transaction_bundle = zeros 19999;
  transaction_count = pos 0;
  timestamp = pos 0;
  nonce = pos 0;
}

-- The database of transactions cannot be opened.
abbrev world : Outside
world = record {
  generate_opened = λ i. true;
  table_made = λ i. true;
  rounds = λ i j. well_round any_signer 1 zero_pair [];
  create_calls = λ i. record well_called { opened = false };
  stdin = λ i. typed;
  answers = λ i. record {
    chain_opened = true;
    counted = true;
    genesis_run = true;
    allocated = true;
    pool_opened = true;
    pool_read = true;
    first_byte = 0;
    hash_opened = true;
    hash_prepared = true;
    hash_stepped = true;
    blocks_opened = true;
    insert_prepared = true;
    insert_run = true;
  };
  earlier = true;
  fresh = λ i. blank;
  before = λ i. pos 9;
  now = λ i. pos 9;
}

abbrev menu : Operations
menu =
    operations any_signer same_hash same_hash two_letters (λ c d. 0) (λ i rows. ok (0, []))
      (λ entered signature. []) declared [] (λ row. []) world

abbrev empty : Databases
empty = record { turn = 0; wallet = []; pool = []; blocks = [] }

abbrev after_one : Databases
after_one = record empty { turn = 1 }

-- A transaction, the addresses, a number that is no entry, and the end.
abbrev choices : List ℤ
choices = pos 3 ∷ pos 2 ∷ pos 99 ∷ pos 13 ∷ []

ran : run_menu menu choices empty ≡ ok (returned after_one)
unfolding run_menu entry_of create_transaction
ran = refl

run_menu_pool_example : after_one.pool ≡ empty.pool
run_menu_pool_example =
    run_menu_pool any_signer same_hash same_hash two_letters (λ c d. 0) (λ i rows. ok (0, []))
      (λ entered signature. []) declared [] (λ row. []) world choices empty (returned after_one)
      (length-replicate {A = ℕ} secret_key_size 0) (length-replicate {A = ℕ} 96 0) same_hash_size
      ran

world_times : InOrder world
world_times = record {
  clock = λ i. 9;
  begun = λ i. 8;
  made = λ i. 9;
  before_lem = λ i. refl;
  now_lem = λ i. refl;
  starts = λ i. omega arith;
  goes_on = λ i. omega arith;
  ends = λ i. omega arith;
  fits = λ i. omega arith;
}

-- Its first nonce is a proof.
abbrev zero_hash : List ℕ → List ℕ
zero_hash text = zeros 48

abbrev mining_menu : Operations
mining_menu =
    operations any_signer same_hash zero_hash two_letters (λ c d. 0) (λ i rows. ok (0, []))
      (λ entered signature. []) declared [] (λ row. []) world

abbrev mined_chain : Databases
mined_chain = record empty {
  turn = 1;
  blocks =
      genesis_row 8
      ∷ record {
        block_hash = replicate 96 48;
        previous_hash = epoch;
        block_data = [];
        transaction_count = pos 0;
        timestamp = pos 9;
        nonce = pos 0;
      }
      ∷ [];
}

-- A number that is no entry, a block, and the end.
mined_ran : run_menu mining_menu (pos 99 ∷ pos 5 ∷ pos 13 ∷ []) empty ≡ ok (returned mined_chain)
unfolding run_menu entry_of mine_answered hash_block finish_block find_nonce write_hex block_text
    print_ℤ int_values
mined_ran = refl

run_menu_blocks_example : IsChain 9 mined_chain.blocks
run_menu_blocks_example =
    run_menu_blocks any_signer same_hash zero_hash two_letters (λ c d. 0) (λ i rows. ok (0, []))
      (λ entered signature. []) declared [] (λ row. []) world
      (λ text. length-replicate {A = ℕ} 48 0) (λ i. length-replicate {A = ℕ} 96 0)
      (λ i. length-replicate {A = ℕ} 128 0) world_times (pos 99 ∷ pos 5 ∷ pos 13 ∷ []) empty
      (returned mined_chain) tt mined_ran

-- Each structure has the same hash, and the array has two bytes more than the source declares.
get_txid_lem_example :
    ((length (zeros 98) ≤ 96)
      × (get_txid any_signer (λ m. replicate 48 200) (λ c d. 0) (1 ∷ 2 ∷ []) (zeros 98)
          ≡ undefined))
    ⊎ ((96 < length (zeros 98))
        × (get_txid any_signer (λ m. replicate 48 200) (λ c d. 0) (1 ∷ 2 ∷ []) (zeros 98)
            ≡ ok (hex_text hex_pair (replicate 48 200) ++ 0 ∷ drop 97 (zeros 98))))
get_txid_lem_example =
    get_txid_lem any_signer (λ m. replicate 48 200) (λ c d. 0) (1 ∷ 2 ∷ []) (zeros 98) refl
