-- ===== src/Net/Nodes/Threads.antt =====
-- The three threads of node_discovery/node_discovery.c (`thread_server`, `thread_client`,
-- `thread_tasks`, which `main` starts) as one step relation on what they share: the table of
-- `nodes.db`, the file `nodes_.db`, and where the client's loop stands. A call of
-- `connect_to_server`, `the_server`, `process_nodes_db` or `insert_node` is one step, at the moment
-- it returns; one that does not return, or is undefined, makes none.
pub mod Safe
pub mod Round
use manhattan_group.Base.{ℕ, ◌≡◌, ◌⊎◌, Bool, List, [], Option, none, some}
use manhattan_group.Base.{ℤ, pos}
use manhattan_group.Net.Socket.{Socket}
use manhattan_group.Net.Io.{World, Outcome, done, returns_1}
use manhattan_group.Net.Exchange.{ClientCalls, connect_to_server, ServerCalls, the_server}
use manhattan_group.Net.Nodes.{
  NodeRow, Address, NodeStore, ProcessCalls, process_nodes_db, insert_node,
}
use manhattan_group.Net.Nodes.Random.{
  Chosen, chosen, unset, overflowed, RandomCalls, get_random_node,
}

abbrev pub port_number : ℤ
port_number = pos 5001

-- Before `get_random_node`; before `connect_to_server`; before `process_nodes_db`; or past a call of
-- `get_random_node` after which the loop prints a text that was never written, or has overrun one.
pub data Client : Type 0 where
  choosing : Client
  connecting : NodeRow → Client
  processing : Client
  prints_unset : Client
  overran : Client

abbrev pub client_after : Chosen → Client
client_after (chosen row) = connecting row
client_after unset = prints_unset
client_after overflowed = overran

module _ (S : NodeStore) where
  pub record Shared : Type 0 where
    pub table : S.State
    pub temp : Option (List ℕ)
    pub client : Client

  -- What the rest of the world does: the files that peers send, the addresses that the node has, how
  -- SQLite reads a file, and how it keeps a table in one.
  pub record Environment : Type 1 where
    pub Offers : List ℕ → Type 0
    pub Assigns : List ℕ → Type 0
    pub rows_of : List ℕ → List NodeRow
    pub file_of : S.State → List ℕ

  -- What `ORDER BY RANDOM() LIMIT 1` may give: an entry of the table; or none.
  abbrev pub Picks : S.State → Option NodeRow → Type 0
  Picks s none = Unit
  Picks s (some row) = (a : Address) × (S.entry s a ≡ some row)

  abbrev pub EndsIn : Outcome (Unit {0}) → World → Type 0
  EndsIn o w = (o ≡ done tt w) ⊎ (o ≡ returns_1 w)

  abbrev pub world_of : Environment → Shared → Socket → World
  world_of E σ socket = record {
    local_file = E.file_of σ.table;
    temp_file = σ.temp;
    socket = socket;
    sent = [];
  }

  -- The file after a call was there before it, or is one that a peer sends.
  abbrev pub Comes : Environment → Shared → World → Type 0
  Comes E σ w = (file : List ℕ) → w.temp_file ≡ some file → (σ.temp ≡ some file) ⊎ E.Offers file

  pub data Step (E : Environment) : Shared → Shared → Type 0 where
    client_chooses :
        (σ : Shared) (calls : RandomCalls) (row : Option NodeRow)
        → σ.client ≡ choosing
        → Picks σ.table row
        → Step E σ (record σ { client = client_after (get_random_node calls row) })
    client_receives :
        (σ : Shared) (row : NodeRow) (calls : ClientCalls) (socket : Socket) (w : World)
        → σ.client ≡ connecting row
        → connect_to_server calls (world_of E σ socket) ≡ done tt w
        → Comes E σ w
        → Step E σ (record σ { temp = w.temp_file; client = processing })
    client_fails :
        (σ : Shared) (row : NodeRow) (calls : ClientCalls) (socket : Socket) (w : World)
        → σ.client ≡ connecting row
        → connect_to_server calls (world_of E σ socket) ≡ returns_1 w
        → Comes E σ w
        → Step E σ (record σ { temp = w.temp_file; client = choosing })
    client_processes :
        (σ : Shared) (calls : ProcessCalls)
        → σ.client ≡ processing
        → Step E σ (record {
          table = (process_nodes_db S E.rows_of calls σ.table σ.temp).1.0;
          temp = (process_nodes_db S E.rows_of calls σ.table σ.temp).1.1;
          client = choosing;
        })
    server_serves :
        (σ : Shared) (calls : ServerCalls) (socket : Socket) (w : World)
        → EndsIn (the_server calls (world_of E σ socket)) w
        → Comes E σ w
        → Step E σ (record σ { temp = w.temp_file })
    tasks_insert :
        (σ : Shared) (ip : List ℕ) (opened executed : Bool)
        → E.Assigns ip
        → Step E σ (record σ { table = (insert_node S opened executed σ.table ip port_number).1 })

  -- Steps of the three threads in any order, the last one outermost.
  pub data Runs (E : Environment) : Shared → Shared → Type 0 where
    stays : (σ : Shared) → Runs E σ σ
    and_then : (σ τ υ : Shared) → Runs E σ τ → Step E τ υ → Runs E σ υ
