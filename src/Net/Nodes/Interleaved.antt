-- ===== src/Net/Nodes/Interleaved.antt =====
-- The threads of node_discovery with the loop of `process_nodes_db` taken apart: the other threads run
-- between its insertions, and before it removes `nodes_.db`. SQLite is taken to read the rows as they
-- were when the file was opened. The other calls are single steps, as in Threads.
pub mod Kept
pub mod Merged
use manhattan_group.Base.{
  ℕ, zero, ◌+◌, ◌≡◌, ◌≢◌, Bool, true, false, ◌&&◌, List, [], ◌∷◌, Option, none, some, if◌then◌else◌,
}
use manhattan_group.Net.Socket.{Socket}
use manhattan_group.Net.Io.{World}
use manhattan_group.Net.Exchange.{ServerCalls, the_server}
use manhattan_group.Net.Nodes.{NodeRow, NodeStore, ProcessCalls, insert_node}
use manhattan_group.Net.Nodes.Threads.{
  Client, choosing, processing, Shared, Environment, EndsIn, world_of, Comes, Step, port_number,
}

-- Where the client's loop stands: outside `process_nodes_db`; in its loop, before the insertion of the
-- row with a number, with the rows that are left; or behind that loop.
pub data Phase : Type 0 where
  outside : Client → Phase
  merging : ProcessCalls → ℕ → List NodeRow → Phase
  removing : ProcessCalls → Phase

module _ (S : NodeStore) where
  pub record Fine : Type 0 where
    pub table : S.State
    pub temp : Option (List ℕ)
    pub phase : Phase

  -- What the threads share, with the client at some place.
  abbrev pub shared : Fine → Client → Shared S
  shared σ c = record { table = σ.table; temp = σ.temp; client = c }

  abbrev pub fine : Shared S → Fine
  fine τ = record { table = τ.table; temp = τ.temp; phase = outside τ.client }

  abbrev pub reads : ProcessCalls → Bool
  reads calls = calls.opened && calls.opened_temp && calls.selected

  module _ (E : Environment S) where
    pub data FineStep : Fine → Fine → Type 0 where
      -- A step of Threads but `process_nodes_db`.
      whole_call :
          (σ : Fine) (c : Client) (τ : Shared S)
          → σ.phase ≡ outside c
          → c ≢ processing
          → Step S E (shared σ c) τ
          → FineStep σ (fine τ)
      server_serves :
          (σ : Fine) (calls : ServerCalls) (socket : Socket) (w : World)
          → EndsIn S (the_server calls (world_of S E (shared σ choosing) socket)) w
          → Comes S E (shared σ choosing) w
          → FineStep σ (record σ { temp = w.temp_file })
      tasks_insert :
          (σ : Fine) (ip : List ℕ) (opened executed : Bool)
          → E.Assigns ip
          → FineStep σ
              (record σ { table = (insert_node S opened executed σ.table ip port_number).1 })
      begins :
          (σ : Fine) (file : List ℕ) (calls : ProcessCalls)
          → σ.phase ≡ outside processing
          → σ.temp ≡ some file
          → reads calls ≡ true
          → FineStep σ (record σ { phase = merging calls 0 (E.rows_of file) })
      -- A missing file, or a call that fails.
      refuses :
          (σ : Fine)
          → σ.phase ≡ outside processing
          → FineStep σ (record σ { phase = outside choosing })
      inserts :
          (σ : Fine) (calls : ProcessCalls) (i : ℕ) (row : NodeRow) (rows : List NodeRow)
          → σ.phase ≡ merging calls i (row ∷ rows)
          → calls.prepared i ≡ true
          → FineStep σ (record σ {
            table = if calls.stepped i then S.insert σ.table row else σ.table;
            phase = merging calls (i + 1) rows;
          })
      breaks_off :
          (σ : Fine) (calls : ProcessCalls) (i : ℕ) (row : NodeRow) (rows : List NodeRow)
          → σ.phase ≡ merging calls i (row ∷ rows)
          → calls.prepared i ≡ false
          → FineStep σ (record σ { phase = outside choosing })
      comes_to_end :
          (σ : Fine) (calls : ProcessCalls) (i : ℕ)
          → σ.phase ≡ merging calls i []
          → FineStep σ (record σ { phase = removing calls })
      -- `unlink` removes the file that is there then.
      removes :
          (σ : Fine) (calls : ProcessCalls)
          → σ.phase ≡ removing calls
          → FineStep σ (record σ {
            temp = if calls.unlinked then none else σ.temp;
            phase = outside choosing;
          })

    pub data FineRuns : Fine → Fine → Type 0 where
      stays : (σ : Fine) → FineRuns σ σ
      and_then : (σ τ υ : Fine) → FineRuns σ τ → FineStep τ υ → FineRuns σ υ
