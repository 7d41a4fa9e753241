-- ===== src/Chain/Rows/First.antt =====
-- The first mined block of a new chain, from the genesis row to its own row.
use manhattan_group.Base.{ℕ, ◌^◌, ◌<◌, ◌≡◌, refl, arith, List, length, Option, some, All}
use manhattan_group.Base.{ℤ, pos, ◌-ℤ◌}
use manhattan_group.Vm.Outcome.{ok}
use manhattan_group.Chain.Text.{IsNonzero}
use manhattan_group.Chain.Block.{Block}
use manhattan_group.Chain.Miner.{bundle_text, create_block}
use manhattan_group.Chain.Miner.Proof.{IsProof}
use manhattan_group.Chain.Miner.Hex.{hex_text}
use manhattan_group.Chain.Miner.Create.{new_text, create_block_lem}
use manhattan_group.Chain.Rows.{Row, to_int32, epoch, start_blockchain, add_block}

pub epoch-IsNonzero : All IsNonzero epoch
epoch-IsNonzero = (omega arith, (omega arith, (omega arith, (omega arith, (omega arith, tt)))))

-- The first block on a new chain: `start_blockchain` inserts a genesis row into the empty table, and
-- `create_block` with the hash of that row, `add_block` with the block that it returns give a row that
-- carries the genesis row's hash as its previous hash, the text of the transaction pool, their number,
-- and the digits of the block's hash. (The hash has 48 bytes, the text fits into the bundle, the
-- arrays have room, and some nonce below 2 ^ 31 gives three zero bytes.)
pub add_block-create_block :
    (sha384 : List ℕ → List ℕ) (size : (text : List ℕ) → length (sha384 text) ≡ 48) (fresh : Block)
    (rows : List (List (Option (List ℕ)))) (output : List ℕ) (before now : ℤ) (n : ℕ)
    → bundle_text rows ≡ ok output
    → All IsNonzero output
    → length output < length fresh.transaction_bundle
    → length fresh.previous_hash ≡ 96
    → length fresh.block_hash_hex ≡ 128
    → n < 2 ^ 31
    → IsProof sha384 (new_text fresh rows output epoch now) n
    → (genesis : Row) × (c : Block) × (row : Row) × (start_blockchain 0 before ≡ some genesis)
      × (create_block sha384 fresh rows (some genesis.block_hash) now ≡ ok c)
      × (add_block c ≡ ok row)
      × (row.previous_hash ≡ genesis.block_hash)
      × (row.block_data ≡ output)
      × (row.transaction_count ≡ pos (length rows))
      × (row.block_hash ≡ hex_text c.block_hash)
unfolding start_blockchain add_block
add_block-create_block sha384 size fresh rows output before now n at out room link_room hex_room
      small p =
    let (c, k, made, bundle, link, time, count, nonce, hash, digits, least) =
      create_block_lem sha384 size fresh rows output epoch now n at out epoch-IsNonzero room
        (omega arith) hex_room small p in
    (
      record {
        block_hash = epoch;
        previous_hash = epoch;
        block_data = epoch;
        transaction_count = pos 0;
        timestamp = to_int32 (before -ℤ pos 1);
        nonce = pos 0;
      },
      c,
      record {
        block_hash = hex_text c.block_hash;
        previous_hash = epoch;
        block_data = output;
        transaction_count = c.transaction_count;
        timestamp = to_int32 c.timestamp;
        nonce = c.nonce;
      },
      refl,
      made,
      rw (digits, link, bundle) refl,
      refl,
      refl,
      count,
      refl,
    )
