-- ===== src/Chain/Rows.antt =====
-- The rows of the table of blocks: the one that `start_blockchain` of blockchain.c inserts into an
-- empty table, and the one that `add_block` of miner.c inserts for a block. The table itself is
-- SQLite's.
pub mod First
use manhattan_group.Base.{ℕ, ◌-◌, ◌^◌, List, [], ◌∷◌, Option, none, some, ltb, ◌==◌, if◌then◌else◌}
use manhattan_group.Base.{ℤ, pos, negsuc, ◌-ℤ◌}
use manhattan_group.Vm.Outcome.{Result, ok, ◌>>=◌}
use manhattan_group.Vm.Int64.{to_uint32}
use manhattan_group.Chain.Text.{c_string}
use manhattan_group.Chain.Block.{Block}

pub record Row : Type 0 where
  pub block_hash : List ℕ
  pub previous_hash : List ℕ
  pub block_data : List ℕ
  pub transaction_count : ℤ
  pub timestamp : ℤ
  pub nonce : ℤ

-- The conversion of a `time_t` to the `int` of `sqlite3_bind_int`.
abbrev pub to_int32 : ℤ → ℤ
to_int32 t = let w = to_uint32 t in if ltb w (2 ^ 31) then pos w else negsuc (2 ^ 32 - 1 - w)

-- The text "EPOCH".
abbrev pub epoch : List ℕ
epoch = 69 ∷ 80 ∷ 79 ∷ 67 ∷ 72 ∷ []

-- With the number of rows of the table and the time: the row that is inserted, if any.
unfoldable pub start_blockchain : ℕ → ℤ → Option Row
unfolding ◌-ℤ◌
start_blockchain row_count now =
    if row_count == 0
    then some (record {
      block_hash = epoch;
      previous_hash = epoch;
      block_data = epoch;
      transaction_count = pos 0;
      timestamp = to_int32 (now -ℤ pos 1);
      nonce = pos 0;
    })
    else none

unfoldable pub add_block : Block → Result Row
add_block new_block = do
  hash ← c_string new_block.block_hash_hex
  link ← c_string new_block.previous_hash
  bundle ← c_string new_block.transaction_bundle
  ok (record {
    block_hash = hash;
    previous_hash = link;
    block_data = bundle;
    transaction_count = new_block.transaction_count;
    timestamp = to_int32 new_block.timestamp;
    nonce = new_block.nonce;
  })
