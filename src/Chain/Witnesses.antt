-- ===== src/Chain/Witnesses.antt =====
-- The miner and the verification with a small function in the place of SHA-384: its hashes begin with
-- three zero bytes where the text ends with the digit 3.
use manhattan_group.Base.{
  ℕ, ◌<◌, ◌≡◌, ◌↔◌, refl, ap, Bool, true, false, arith, List, [], ◌∷◌, ◌++◌, length, Option, some,
  All, ◌==◌, replicate, if◌then◌else◌,
}
use manhattan_group.Base.{ℤ, pos}
use manhattan_group.Vm.Outcome.{Result, ok}
use manhattan_group.Chain.Text.{c_string, print_ℤ, IsNonzero, write_text}
use manhattan_group.Chain.Block.{Block, block_text}
use manhattan_group.Chain.Miner.{
  int_values, find_nonce, finish_block, hash_block, write_hex, create_block,
}
use manhattan_group.Chain.Miner.Proof.{IsProof, IsLeast, validate_block-hash_block}
use manhattan_group.Chain.Miner.Hex.{hex_text, write_hex_lem}
use manhattan_group.Chain.Miner.Total.{hash_block_lem}
use manhattan_group.Chain.Miner.Create.{new_text, create_block_lem}
use manhattan_group.Chain.Verify.{validate_block, validate_blockchain}
use manhattan_group.Chain.Verify.Shifted.{validate_block-shifted}
use manhattan_group.Chain.Verify.Links.{
  IsLinked, validate_blockchain_iff, validate_blockchain-hash_block,
}
use manhattan_group.Chain.Mine.{mine}
use manhattan_group.Chain.Mine.Once.{mine_once, genesis_row}
use manhattan_group.Chain.Rows.{Row, epoch}
use manhattan_group.Chain.Database.{
  Answers, mine_answered, start_answered, insertion, create_answered, pool_rows, previous_answered,
}
use manhattan_group.Chain.Database.Whole.{mine_answered-mine}
use manhattan_group.Chain.Database.Two.{IsChain, Mines, mines_two}

abbrev last : List ℕ → ℕ
last [] = 0
last (x ∷ []) = x
last (x ∷ y ∷ xs) = last (y ∷ xs)

abbrev hash_head : Bool → List ℕ
hash_head b = if b then replicate 3 0 else replicate 3 1

abbrev toy_hash : List ℕ → List ℕ
toy_hash text = hash_head (last text == 51) ++ replicate 45 200

toy_hash-size : (text : List ℕ) → length (toy_hash text) ≡ 48
toy_hash-size text = by_test (last text == 51)
  where
    by_test : (b : Bool) → length (hash_head b ++ replicate 45 200) ≡ 48
    by_test true = refl
    by_test false = refl

abbrev blank : Block
blank = record {
  block_index = pos 0;
  previous_hash = replicate 96 0;
  block_hash = replicate 48 0;
  block_hash_hex = replicate 128 0;
  transaction_bundle = replicate 19999 0;
  transaction_count = pos 0;
  timestamp = pos 7;
  nonce = pos 0;
}

-- What is written for the hash: 0xc8, the last byte, is printed as `ffffffc8`.
abbrev mined_digits : List ℕ
mined_digits = replicate 6 48 ++ replicate 88 102 ++ replicate 6 102 ++ 99 ∷ 56 ∷ []

abbrev mined : Block
mined = record blank {
  block_hash = replicate 3 0 ++ replicate 45 200;
  nonce = pos 3;
  block_hash_hex = mined_digits ++ replicate 26 0;
}

hash_block_run : hash_block toy_hash blank ≡ ok mined
unfolding hash_block finish_block find_nonce write_hex write_text block_text print_ℤ int_values
hash_block_run = refl

validate_block-hash_block_example : validate_block toy_hash mined (pos 3) ≡ ok true
validate_block-hash_block_example = validate_block-hash_block toy_hash blank mined hash_block_run

-- "070": the index, no previous hash, the time, the count, no transactions.
abbrev blank_text : List ℕ
blank_text = 48 ∷ 55 ∷ 48 ∷ []

blank_text_lem : block_text blank ≡ ok blank_text
unfolding block_text print_ℤ
blank_text_lem = refl

three-IsProof : IsProof toy_hash blank_text 3
unfolding print_ℤ
three-IsProof = refl

hash_block_lem_example :
    (k : ℕ) × (hex : List ℕ) × IsLeast toy_hash blank_text 0 k
    × (c_string hex ≡ ok (hex_text (toy_hash (blank_text ++ print_ℤ (pos k)))))
    × (hash_block toy_hash blank
        ≡ ok (record blank {
          block_hash = toy_hash (blank_text ++ print_ℤ (pos k));
          nonce = pos k;
          block_hash_hex = hex;
        }))
hash_block_lem_example =
    hash_block_lem toy_hash toy_hash-size blank blank_text 3 blank_text_lem refl (omega arith)
      three-IsProof

write_hex_lem_example :
    (hex : List ℕ) × (write_hex 0 (0xc8 ∷ 0x12 ∷ []) (replicate 16 0) ≡ ok hex)
    × (c_string hex ≡ ok (102 ∷ 102 ∷ 49 ∷ 50 ∷ []))
write_hex_lem_example =
    write_hex_lem (0xc8 ∷ 0x12 ∷ []) (replicate 16 0) (omega arith) (omega arith)

validate_blockchain_iff_example :
    (validate_blockchain (mined ∷ blank ∷ []) ≡ ok true) ↔ IsLinked (mined ∷ blank ∷ [])
validate_blockchain_iff_example = validate_blockchain_iff (mined ∷ blank ∷ [])

accepted : validate_blockchain (mined ∷ blank ∷ []) ≡ ok true
unfolding validate_blockchain
accepted = refl

validate_blockchain-hash_block_example : c_string (replicate 96 0) ≡ ok []
validate_blockchain-hash_block_example =
    validate_blockchain-hash_block toy_hash blank mined blank [] hash_block_run accepted

-- One transaction with the columns "A" and "B".
abbrev pool : List (List (Option (List ℕ)))
pool = (some (65 ∷ []) ∷ some (66 ∷ []) ∷ []) ∷ []

abbrev pool_text : List ℕ
pool_text = 65 ∷ 44 ∷ 66 ∷ 44 ∷ 10 ∷ []

pool_text-IsNonzero : All IsNonzero pool_text
pool_text-IsNonzero = (omega arith, (omega arith, (omega arith, (omega arith, (omega arith, tt)))))

epoch-IsNonzero_here : All IsNonzero epoch
epoch-IsNonzero_here = (omega arith, (omega arith, (omega arith, (omega arith, (omega arith, tt)))))

bundle_room : length pool_text < length blank.transaction_bundle
bundle_room = omega arith

pool-IsProof : IsProof toy_hash (new_text blank pool pool_text epoch (pos 9)) 3
unfolding print_ℤ
pool-IsProof = refl

create_block_lem_example :
    (c : Block) × (k : ℕ) × (create_block toy_hash blank pool (some epoch) (pos 9) ≡ ok c)
    × (c_string c.transaction_bundle ≡ ok pool_text)
    × (c_string c.previous_hash ≡ ok epoch)
    × (c.timestamp ≡ pos 9)
    × (c.transaction_count ≡ pos 1)
    × (c.nonce ≡ pos k)
    × (c.block_hash ≡ toy_hash (new_text blank pool pool_text epoch (pos 9) ++ print_ℤ (pos k)))
    × (c_string c.block_hash_hex ≡ ok (hex_text c.block_hash))
    × IsLeast toy_hash (new_text blank pool pool_text epoch (pos 9)) 0 k
create_block_lem_example =
    create_block_lem toy_hash toy_hash-size blank pool pool_text epoch (pos 9) 3 refl
      pool_text-IsNonzero epoch-IsNonzero_here bundle_room (omega arith) refl (omega arith)
      pool-IsProof

mine_once_example :
    (row : Row) × (mine toy_hash true blank pool (pos 8) (pos 9) [] ≡ ok (genesis_row 7 ∷ row ∷ []))
    × (row.previous_hash ≡ epoch)
    × (row.block_data ≡ pool_text)
    × (¬ (mine toy_hash true blank [] (pos 20) (pos 20) (genesis_row 7 ∷ row ∷ []) ≡ ok []))
mine_once_example =
    mine_once toy_hash toy_hash-size true blank blank pool [] pool_text 7 9 3 (pos 20) (pos 20) []
      refl pool_text-IsNonzero bundle_room refl refl (omega arith) pool-IsProof (omega arith)
      (omega arith) refl

abbrev answering : Answers
answering = record {
  chain_opened = true;
  counted = true;
  genesis_run = true;
  allocated = true;
  pool_opened = true;
  pool_read = true;
  first_byte = 0;
  hash_opened = true;
  hash_prepared = true;
  hash_stepped = true;
  blocks_opened = true;
  insert_prepared = true;
  insert_run = true;
}

first_mine :
    (row : Row) × (mine toy_hash true blank pool (pos 8) (pos 9) [] ≡ ok (genesis_row 7 ∷ row ∷ []))
    × (row.previous_hash ≡ epoch)
    × (row.block_data ≡ pool_text)
    × (¬ (mine toy_hash true blank [] (pos 20) (pos 20) (genesis_row 7 ∷ row ∷ []) ≡ ok []))
first_mine =
    mine_once toy_hash toy_hash-size true blank blank pool [] pool_text 7 9 3 (pos 20) (pos 20) []
      refl pool_text-IsNonzero bundle_room refl refl (omega arith) pool-IsProof (omega arith)
      (omega arith) refl

abbrev after_one : List Row
after_one = genesis_row 7 ∷ first_mine.0 ∷ []

first_answered :
    mine_answered toy_hash answering true blank pool (pos 8) (pos 9) [] ≡ (ok after_one, ok (pos 0))
first_answered =
    mine_answered-mine answering
      (refl, refl, refl, refl, refl, refl, refl, refl, refl, refl, refl, refl) toy_hash true blank
      pool (pos 8) (pos 9) [] after_one first_mine.1

-- A call that cannot open the table of blocks twice, and exits.
abbrev failing : Answers
failing = record answering { chain_opened = false; hash_opened = false }

second_answered :
    (mine_answered toy_hash failing true blank [] (pos 20) (pos 20) after_one).0 ≡ ok after_one
unfolding mine_answered start_answered insertion create_answered pool_rows previous_answered
    write_text
second_answered = refl

-- A call that mines a block, and one that exits.
mines_two_example : IsChain 20 after_one
mines_two_example = mines_two toy_hash toy_hash-size true (
    Mines.mined failing blank [] 19 20
      (Mines.mined answering blank pool 7 9 Mines.new refl refl (omega arith) (omega arith)
        (omega arith) (ap (λ (r : Result (List Row) × Result ℤ). r.0) first_answered))
      refl refl (omega arith) (omega arith) (omega arith) second_answered)

validate_block-shifted_example :
    validate_block toy_hash (record mined { timestamp = pos 8; transaction_count = pos 12 }) (pos 3)
    ≡ validate_block toy_hash
        (record mined { timestamp = pos 81; transaction_count = pos 2 })
        (pos 3)
validate_block-shifted_example =
    validate_block-shifted mined 8 1 2 toy_hash (pos 3) (omega arith) (omega arith) (omega arith)
      (omega arith)
