-- ===== src/Net/Nodes/Threads/Safe.antt =====
-- What every interleaving of the threads of node_discovery keeps.
use manhattan_group.Base.{
  ℕ, ◌≡◌, ◌⊎◌, inl, inr, ◌<◌, true, ◌&&◌, List, none, some, All, length, ltb, if_holds, arith,
}
use manhattan_group.Net.Nodes.{NodeRow, NodeStore, IsLawful, insert_node, own_row}
use manhattan_group.Net.Nodes.Merge.{
  AllEntries, Keeps, insert-Keeps, insert-AllEntries, process_nodes_db-Keeps,
  process_nodes_db-AllEntries, process_nodes_db-temp,
}
use manhattan_group.Net.Nodes.Random.{Chosen, copied_row, get_random_node}
use manhattan_group.Net.Nodes.Threads.{
  Client, connecting, overran, client_after, port_number, Shared, Environment, Step, client_chooses,
  client_receives, client_fails, client_processes, server_serves, tasks_insert, Runs, stays,
  and_then,
}

-- The text of a row and its end fit into 16 bytes.
abbrev pub Fits : NodeRow → Type 0
Fits row = length row.ip < 16

abbrev pub ClientFits : Client → Type 0
ClientFits (connecting row) = Fits row
ClientFits overran = ⊥
ClientFits _ = Unit

module _ (S : NodeStore) (E : Environment S) where
  -- Every row of the table, of `nodes_.db` and of the client fits, and none has overrun.
  pub record AllFit (σ : Shared S) : Type 0 where
    pub entries : AllEntries S Fits σ.table
    pub received : (file : List ℕ) → σ.temp ≡ some file → All Fits (E.rows_of file)
    pub client : ClientFits σ.client

module _ (S : NodeStore) (L : IsLawful S) (E : Environment S) where
  pub Step-Keeps : (σ τ : Shared S) → Step S E σ τ → Keeps S σ.table τ.table
  unfolding insert_node
  Step-Keeps σ τ (client_chooses _ calls row e p) = λ a m h. h
  Step-Keeps σ τ (client_receives _ row calls socket w e r c) = λ a m h. h
  Step-Keeps σ τ (client_fails _ row calls socket w e r c) = λ a m h. h
  Step-Keeps σ τ (client_processes _ calls e) =
      process_nodes_db-Keeps S L E.rows_of calls σ.table σ.temp
  Step-Keeps σ τ (server_serves _ calls socket w r c) = λ a m h. h
  Step-Keeps σ τ (tasks_insert _ ip opened executed p) =
      if_holds (λ (r : ℕ × S.State). Keeps S σ.table (r.1)) (opened && executed)
        (insert-Keeps S L σ.table (own_row ip port_number)) (λ a m h. h)

  module _ (offers : (file : List ℕ) → E.Offers file → All Fits (E.rows_of file))
      (assigns : (ip : List ℕ) → E.Assigns ip → length ip < 16) where
    pub comes :
        (σ : Shared S) (file : List ℕ)
        → AllFit S E σ
        → (σ.temp ≡ some file) ⊎ E.Offers file
        → All Fits (E.rows_of file)
    comes σ file I (inl e) = I.received file e
    comes σ file I (inr o) = offers file o

    random_fits : (row : NodeRow) → Fits row → ClientFits (client_after (copied_row row))
    random_fits row h = rw (is_true row h) h
      where
        is_true : (row : NodeRow) → Fits row → ltb (length row.ip) 16 ≡ true
        is_true row h = ground arith

    pub Step-AllFit : (σ τ : Shared S) → Step S E σ τ → AllFit S E σ → AllFit S E τ
    unfolding insert_node get_random_node
    Step-AllFit σ τ (client_chooses _ calls none e p) I = record {
      entries = I.entries;
      received = I.received;
      client = tt;
    }
    Step-AllFit σ τ (client_chooses _ calls (some row) e p) I = record {
      entries = I.entries;
      received = I.received;
      client =
          if_holds (λ (c : Chosen). ClientFits (client_after c))
            (calls.granted && calls.opened && calls.prepared)
            (random_fits row (I.entries p.0 row p.1)) tt;
    }
    Step-AllFit σ τ (client_receives _ row calls socket w e r c) I = record {
      entries = I.entries;
      received = λ file h. comes σ file I (c file h);
      client = tt;
    }
    Step-AllFit σ τ (client_fails _ row calls socket w e r c) I = record {
      entries = I.entries;
      received = λ file h. comes σ file I (c file h);
      client = tt;
    }
    Step-AllFit σ τ (client_processes _ calls e) I = record {
      entries =
          process_nodes_db-AllEntries S L Fits E.rows_of calls σ.table σ.temp I.received I.entries;
      received = λ file h.
          I.received file (process_nodes_db-temp S L E.rows_of calls σ.table σ.temp file h);
      client = tt;
    }
    Step-AllFit σ τ (server_serves _ calls socket w r c) I = record {
      entries = I.entries;
      received = λ file h. comes σ file I (c file h);
      client = I.client;
    }
    Step-AllFit σ τ (tasks_insert _ ip opened executed p) I = record {
      entries =
          if_holds (λ (r : ℕ × S.State). AllEntries S Fits (r.1)) (opened && executed)
            (insert-AllEntries S L Fits σ.table (own_row ip port_number) I.entries (assigns ip p))
            I.entries;
      received = I.received;
      client = I.client;
    }

    -- Where the addresses of the table, of `nodes_.db`, of the files that peers send and of the node
    -- itself are shorter than 16 bytes: in any interleaving of the three threads no entry of the table
    -- is lost or changed, these addresses stay as short, and `get_random_node` never writes past its
    -- buffer.
    pub run_safe :
        (σ τ : Shared S) → Runs S E σ τ → AllFit S E σ → Keeps S σ.table τ.table × AllFit S E τ
    run_safe σ τ (stays _) I = ((λ a m h. h), I)
    run_safe σ τ (and_then _ ρ _ before last) I =
        let (k, J) = run_safe σ ρ before I in
        ((λ a m h. Step-Keeps ρ τ last a m (k a m h)), Step-AllFit ρ τ last J)
