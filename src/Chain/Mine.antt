-- ===== src/Chain/Mine.antt =====
-- `get_previous_hash` and `mine` of miner.c, over the rows of the table of blocks.
pub mod Once
use manhattan_group.Base.{
  ℕ, zero, suc, ◌+◌, Bool, true, false, not, ◌&&◌, ◌||◌, List, [], ◌∷◌, ◌++◌, length, Option, none,
  some, if◌then◌else◌,
}
use manhattan_group.Base.{ℤ, pos, ltb_ℤ}
use manhattan_group.Vm.Outcome.{Result, ok, undefined, ◌>>=◌}
use manhattan_group.Chain.Block.{Block}
use manhattan_group.Chain.Miner.{create_block}
use manhattan_group.Chain.Rows.{Row, start_blockchain, add_block}
use manhattan_group.Net.Nodes.{same_text}

-- The first row of `ORDER BY timestamp DESC`; `earlier` says whether SQLite gives the earlier of two
-- rows with the same timestamp first.
abbrev pub later_row : Bool → Row → Option Row → Row
later_row earlier row none = row
later_row earlier row (some other) =
    if ltb_ℤ row.timestamp other.timestamp
    then other
    else if ltb_ℤ other.timestamp row.timestamp || earlier
    then row
    else other

unfoldable pub newest : Bool → List Row → Option Row
newest earlier [] = none
newest earlier (row ∷ rows) = some (later_row earlier row (newest earlier rows))

-- The text that `get_previous_hash` copies; there is none in an empty table.
abbrev pub hash_of : Option Row → Option (List ℕ)
hash_of none = none
hash_of (some row) = some row.block_hash

unfoldable pub get_previous_hash : Bool → List Row → Option (List ℕ)
unfolding newest
get_previous_hash earlier table = hash_of (newest earlier table)

abbrev pub has_hash : List ℕ → List Row → Bool
has_hash hash [] = false
has_hash hash (row ∷ rows) = same_text row.block_hash hash || has_hash hash rows

-- An insertion; the hash is the primary key, and a row with the hash of another one is refused.
abbrev pub insert_row : List Row → Row → List Row
insert_row table row = if has_hash row.block_hash table then table else table ++ row ∷ []

-- The table after `start_blockchain`.
abbrev pub started : List Row → Option Row → List Row
started table none = table
started table (some genesis) = insert_row table genesis

-- With the times of `start_blockchain` and of `create_block`: the table after `mine`.
unfoldable pub mine :
    (List ℕ → List ℕ)
    → Bool
    → Block
    → List (List (Option (List ℕ)))
    → ℤ
    → ℤ
    → List Row
    → Result (List Row)
unfolding get_previous_hash start_blockchain create_block add_block
mine sha384 earlier fresh pool before now table =
    let begun = started table (start_blockchain (length table) before) in
    create_block sha384 fresh pool (get_previous_hash earlier begun) now >>= λ new_block.
    add_block new_block >>= λ row. ok (insert_row begun row)
