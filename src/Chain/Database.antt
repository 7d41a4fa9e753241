-- ===== src/Chain/Database.antt =====
-- `start_blockchain` of blockchain.c, and `create_block`, `get_previous_hash`, `add_block` and `mine` of
-- miner.c, where the calls of SQLite and of the allocator may fail. The table of blocks outlives the
-- program, so a call has the table that it leaves beside what it does.
pub mod Inserted
pub mod Two
pub mod Whole
use manhattan_group.Base.{
  ℕ, zero, suc, ◌≡◌, Bool, true, false, not, ◌&&◌, List, [], ◌∷◌, length, Option, none, some, ◌==◌,
  if◌then◌else◌,
}
use manhattan_group.Base.{ℤ, pos}
use manhattan_group.Vm.Outcome.{Result, ok, exits, undefined, ◌>>=◌, ◌>>◌, exit_if, database_failed}
use manhattan_group.Chain.Text.{write_text}
use manhattan_group.Chain.Block.{Block}
use manhattan_group.Chain.Miner.{bundle_text, hash_block}
use manhattan_group.Chain.Rows.{Row, start_blockchain, add_block}
use manhattan_group.Chain.Mine.{get_previous_hash, insert_row, started}

-- What the calls of one `mine` answer. A failing `CREATE TABLE` shows in the calls after it.
pub record Answers : Type 0 where
  -- `start_blockchain`: the database is opened, its rows are counted, the insertion is run
  pub chain_opened : Bool
  pub counted : Bool
  pub genesis_run : Bool
  -- `create_block`: `malloc` and `realloc` succeed (as `strdup` is taken to), the pool is opened and read; what `malloc(1)` holds
  pub allocated : Bool
  pub pool_opened : Bool
  pub pool_read : Bool
  pub first_byte : ℕ
  -- `get_previous_hash`: the database is opened, the query is prepared, and gives a row if there is one
  pub hash_opened : Bool
  pub hash_prepared : Bool
  pub hash_stepped : Bool
  -- `add_block`: the database is opened, the insertion is prepared and run
  pub blocks_opened : Bool
  pub insert_prepared : Bool
  pub insert_run : Bool

-- Every call succeeds.
abbrev pub Succeeds : Answers → Type 0
Succeeds a =
    (a.chain_opened ≡ true)
    × (a.counted ≡ true)
    × (a.genesis_run ≡ true)
    × (a.allocated ≡ true)
    × (a.pool_opened ≡ true)
    × (a.pool_read ≡ true)
    × (a.hash_opened ≡ true)
    × (a.hash_prepared ≡ true)
    × (a.hash_stepped ≡ true)
    × (a.blocks_opened ≡ true)
    × (a.insert_prepared ≡ true)
    × (a.insert_run ≡ true)

-- The variable `row_count`: the callback sets it, and else it stays 0.
abbrev pub row_count : Bool → List Row → ℕ
row_count true table = length table
row_count false table = 0

-- The value that `start_blockchain` returns, and the table. With a statement that was not prepared the
-- calls on it do nothing.
unfoldable pub start_answered : Answers → ℤ → List Row → ℤ × List Row
unfolding start_blockchain
start_answered a now table =
    if a.chain_opened
    then (
      pos 0,
      if a.genesis_run
          then started table (start_blockchain (row_count a.counted table) now)
          else table,
    )
    else (pos 1, table)

-- The rows whose text `output` holds in the end. A query on a closed database and a write through a
-- null pointer are undefined; without an answer to the query `output` is what `malloc(1)` returned,
-- which is a text only if its byte is 0.
unfoldable pub pool_rows :
    Answers → List (List (Option (List ℕ))) → Result (List (List (Option (List ℕ))))
pool_rows a pool =
    if a.allocated && a.pool_opened
    then if a.pool_read then ok pool else if a.first_byte == 0 then ok [] else undefined
    else undefined

-- `strdup` of the text of a row that is not there.
abbrev pub text_of : Option (List ℕ) → Result (List ℕ)
text_of none = undefined
text_of (some text) = ok text

unfoldable pub previous_answered : Answers → Bool → List Row → Result (List ℕ)
unfolding get_previous_hash
previous_answered a earlier table = do
  exit_if (not a.hash_opened) database_failed
  exit_if (not a.hash_prepared) database_failed
  text_of (if a.hash_stepped then get_previous_hash earlier table else none)

-- The row that is inserted, if the insertion succeeds. A statement on a closed database is undefined.
unfoldable pub add_answered : Answers → Block → Result (Option Row)
unfolding add_block
add_answered a new_block =
    if a.blocks_opened
    then exit_if (not a.insert_prepared) database_failed
      >> (add_block new_block >>= λ row. ok (if a.insert_run then some row else none))
    else undefined

-- The table after an insertion that was reached, or not; an exit before it leaves the table, and
-- undefined behaviour leaves none to speak of.
abbrev pub table_after : List Row → Result (Option Row) → Result (List Row)
table_after table (ok (some row)) = ok (insert_row table row)
table_after table (ok none) = ok table
table_after table (exits e) = ok table
table_after table undefined = undefined

module _ (sha384 : List ℕ → List ℕ) (a : Answers) (earlier : Bool) (fresh : Block)
    (pool : List (List (Option (List ℕ)))) where
  unfoldable pub create_answered : ℤ → List Row → Result Block
  unfolding pool_rows previous_answered write_text hash_block
  create_answered now table = do
    rows ← pool_rows a pool
    output ← bundle_text rows
    bundle ← write_text fresh.transaction_bundle 0 output
    previous ← previous_answered a earlier table
    link ← write_text fresh.previous_hash 0 previous
    hash_block sha384 (record fresh {
      timestamp = now;
      transaction_bundle = bundle;
      previous_hash = link;
      transaction_count = pos (length rows);
      nonce = pos 0;
    })

  unfoldable pub insertion : ℤ → List Row → Result (Option Row)
  unfolding create_answered add_answered
  insertion now table = create_answered now table >>= add_answered a

  -- The table that `mine` leaves, and what it returns. It does not look at what `start_blockchain`
  -- returns, nor whether a row was inserted.
  unfoldable pub mine_answered : ℤ → ℤ → List Row → Result (List Row) × Result ℤ
  unfolding start_answered insertion
  mine_answered before now table =
      let begun = (start_answered a before table).1 in
      (table_after begun (insertion now begun), insertion now begun >>= λ _. ok (pos 0))
