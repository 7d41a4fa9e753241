-- ===== src/Net/Nodes.antt =====
-- The table of nodes of node_discovery: `process_nodes_db` and `insert_node` of
-- node_discovery/functions.h. The table is SQLite's: an interface.
pub mod Merge
pub mod Random
pub mod Threads
pub mod Interleaved
pub mod Meeting
use manhattan_group.Base.{
  ℕ, zero, suc, ◌+◌, ◌≡◌, Bool, true, false, ◌&&◌, List, [], ◌∷◌, Option, none, some, ◌==◌,
  if◌then◌else◌,
}
use manhattan_group.Base.{ℤ, pos, negsuc}

-- A row of the table, without its number; `uptime` is the pattern of a double.
pub record NodeRow : Type 0 where
  pub ip : List ℕ
  pub port : ℤ
  pub uptime : ℕ
  pub conecterror : ℤ
  pub exp1 : ℤ
  pub exp2 : ℤ
  pub exp3 : ℤ

-- The columns that are unique together.
abbrev pub Address : Type 0
Address = List ℕ × ℤ

abbrev pub address : NodeRow → Address
address row = (row.ip, row.port)

abbrev pub same_text : List ℕ → List ℕ → Bool
same_text [] [] = true
same_text [] (y ∷ ys) = false
same_text (x ∷ xs) [] = false
same_text (x ∷ xs) (y ∷ ys) = x == y && same_text xs ys

abbrev pub same_int : ℤ → ℤ → Bool
same_int (pos m) (pos n) = m == n
same_int (pos m) (negsuc n) = false
same_int (negsuc m) (pos n) = false
same_int (negsuc m) (negsuc n) = m == n

abbrev pub same_address : Address → Address → Bool
same_address (ip, port) (ip', port') = same_text ip ip' && same_int port port'

abbrev pub first_of {ℓ} : {A : Type ℓ} → Option A → Option A → Option A
first_of (some a) o = some a
first_of none o = o

-- The table: the entry of an address, and an insertion that does nothing on a conflict.
pub record NodeStore : Type 1 where
  pub State : Type 0
  pub entry : State → Address → Option NodeRow
  pub insert : State → NodeRow → State

-- What `ON CONFLICT (ip, port) DO NOTHING` and `INSERT OR IGNORE` are documented to do.
pub record IsLawful (S : NodeStore) : Type 0 where
  pub entry-insert :
      (s : S.State) (row : NodeRow) (a : Address)
      → S.entry (S.insert s row) a
        ≡ first_of (S.entry s a) (if same_address a (address row) then some row else none)

-- Which of the calls of `process_nodes_db` succeed; `prepared` and `stepped` are asked for each row.
pub record ProcessCalls : Type 0 where
  pub opened : Bool
  pub opened_temp : Bool
  pub selected : Bool
  pub prepared : ℕ → Bool
  pub stepped : ℕ → Bool
  pub unlinked : Bool

-- What `insert_node` inserts.
abbrev pub own_row : List ℕ → ℤ → NodeRow
own_row ip port = record {
  ip = ip;
  port = port;
  uptime = 0;
  conecterror = pos 0;
  exp1 = pos 0;
  exp2 = pos 0;
  exp3 = pos 0;
}

module _ (S : NodeStore) where
  -- The loop over the rows of the second table: whether it came to its end, and the table.
  unfoldable pub insert_rows : ProcessCalls → ℕ → List NodeRow → S.State → Bool × S.State
  insert_rows calls i [] s = (true, s)
  insert_rows calls i (row ∷ rows) s =
      if calls.prepared i
      then insert_rows calls (i + 1) rows (if calls.stepped i then S.insert s row else s)
      else (false, s)

  -- What `process_nodes_db` returns, and leaves: the table, and `nodes_.db`.
  abbrev pub Processed : Type 0
  Processed = ℕ × (S.State × Option (List ℕ))

  abbrev pub finish_process : ProcessCalls → List ℕ → Bool × S.State → Processed
  finish_process calls file (false, s) = (1, (s, some file))
  finish_process calls file (true, s) = (0, (s, if calls.unlinked then none else some file))

  -- `rows_of` is how SQLite reads a file.
  unfoldable pub process_nodes_db :
      (List ℕ → List NodeRow) → ProcessCalls → S.State → Option (List ℕ) → Processed
  unfolding insert_rows
  process_nodes_db rows_of calls s none = (1, (s, none))
  process_nodes_db rows_of calls s (some file) =
      if calls.opened && calls.opened_temp && calls.selected
      then finish_process calls file (insert_rows calls 0 (rows_of file) s)
      else (1, (s, some file))

  -- `insert_node`, with the calls that open the table and run the statement.
  unfoldable pub insert_node : Bool → Bool → S.State → List ℕ → ℤ → ℕ × S.State
  insert_node opened executed s ip port =
      if opened && executed then (0, S.insert s (own_row ip port)) else (1, s)
