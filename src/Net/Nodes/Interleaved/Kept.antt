-- ===== src/Net/Nodes/Interleaved/Kept.antt =====
-- What every interleaving keeps, the loop of `process_nodes_db` taken apart.
use manhattan_group.Base.{
  ℕ, ◌≡◌, ◌<◌, Bool, true, false, ◌&&◌, List, none, some, All, length, if_holds, if◌then◌else◌,
}
use manhattan_group.Net.Nodes.{NodeStore, IsLawful, insert_node, own_row}
use manhattan_group.Net.Nodes.Merge.{AllEntries, Keeps, insert-Keeps, insert-AllEntries}
use manhattan_group.Net.Nodes.Threads.{Client, choosing, Environment, port_number}
use manhattan_group.Net.Nodes.Threads.Safe.{
  Fits, ClientFits, AllFit, Step-Keeps, Step-AllFit, comes,
}
use manhattan_group.Net.Nodes.Interleaved.{
  Phase, outside, merging, removing, Fine, shared, FineStep, whole_call, server_serves,
  tasks_insert, begins, refuses, inserts, breaks_off, comes_to_end, removes, FineRuns, stays,
  and_then,
}

abbrev PhaseFits : Phase → Type 0
PhaseFits (outside c) = ClientFits c
PhaseFits (merging calls i rows) = All Fits rows
PhaseFits (removing calls) = Unit

module _ (S : NodeStore) (E : Environment S) where
  -- Every row of the table, of `nodes_.db`, of the client and of the loop fits, and none has overrun.
  pub record FineFit (σ : Fine S) : Type 0 where
    pub entries : AllEntries S Fits σ.table
    pub received : (file : List ℕ) → σ.temp ≡ some file → All Fits (E.rows_of file)
    pub phase : PhaseFits σ.phase

module _ (S : NodeStore) (L : IsLawful S) (E : Environment S) where
  FineStep-Keeps : (σ τ : Fine S) → FineStep S E σ τ → Keeps S σ.table τ.table
  unfolding insert_node
  FineStep-Keeps σ _ (whole_call _ c τ at other step) = Step-Keeps S L E (shared S σ c) τ step
  FineStep-Keeps σ τ (server_serves _ calls socket w ends c) = λ a m h. h
  FineStep-Keeps σ τ (tasks_insert _ ip opened executed p) =
      if_holds (λ (r : ℕ × S.State). Keeps S σ.table (r.1)) (opened && executed)
        (insert-Keeps S L σ.table (own_row ip port_number)) (λ a m h. h)
  FineStep-Keeps σ τ (begins _ file calls at there read) = λ a m h. h
  FineStep-Keeps σ τ (refuses _ at) = λ a m h. h
  FineStep-Keeps σ τ (inserts _ calls i row rows at prepared) =
      if_holds (Keeps S σ.table) (calls.stepped i) (insert-Keeps S L σ.table row) (λ a m h. h)
  FineStep-Keeps σ τ (breaks_off _ calls i row rows at failed) = λ a m h. h
  FineStep-Keeps σ τ (comes_to_end _ calls i at) = λ a m h. h
  FineStep-Keeps σ τ (removes _ calls at) = λ a m h. h

  module _ (offers : (file : List ℕ) → E.Offers file → All Fits (E.rows_of file))
      (assigns : (ip : List ℕ) → E.Assigns ip → length ip < 16) where
    at_client :
        (σ : Fine S) (c : Client) → σ.phase ≡ outside c → FineFit S E σ → AllFit S E (shared S σ c)
    at_client σ c at I = record {
      entries = I.entries;
      received = I.received;
      client = rw at at (I.phase);
    }

    at_choosing : (σ : Fine S) → FineFit S E σ → AllFit S E (shared S σ choosing)
    at_choosing σ I = record { entries = I.entries; received = I.received; client = tt }

    removed_fits :
        (σ : Fine S) (b : Bool)
        → FineFit S E σ
        → (file : List ℕ) → (if b then none else σ.temp) ≡ some file
        → All Fits (E.rows_of file)
    removed_fits σ true I file e = absurd (cc)
    removed_fits σ false I file e = I.received file e

    FineStep-FineFit : (σ τ : Fine S) → FineStep S E σ τ → FineFit S E σ → FineFit S E τ
    unfolding insert_node
    FineStep-FineFit σ _ (whole_call _ c τ at other step) I =
        let J = Step-AllFit S L E offers assigns (shared S σ c) τ step (at_client σ c at I) in
        record { entries = J.entries; received = J.received; phase = J.client }
    FineStep-FineFit σ τ (server_serves _ calls socket w ends c) I = record {
      entries = I.entries;
      received = λ file h.
          comes S L E offers assigns (shared S σ choosing) file (at_choosing σ I) (c file h);
      phase = I.phase;
    }
    FineStep-FineFit σ τ (tasks_insert _ ip opened executed p) I = record {
      entries =
          if_holds (λ (r : ℕ × S.State). AllEntries S Fits (r.1)) (opened && executed)
            (insert-AllEntries S L Fits σ.table (own_row ip port_number) I.entries (assigns ip p))
            I.entries;
      received = I.received;
      phase = I.phase;
    }
    FineStep-FineFit σ τ (begins _ file calls at there read) I = record {
      entries = I.entries;
      received = I.received;
      phase = I.received file there;
    }
    FineStep-FineFit σ τ (refuses _ at) I = record {
      entries = I.entries;
      received = I.received;
      phase = tt;
    }
    FineStep-FineFit σ τ (inserts _ calls i row rows at prepared) I =
        let fit : Fits row × All Fits rows = rw at at (I.phase) in
        record {
          entries =
              if_holds (AllEntries S Fits) (calls.stepped i)
                (insert-AllEntries S L Fits σ.table row I.entries fit.0) I.entries;
          received = I.received;
          phase = fit.1;
        }
    FineStep-FineFit σ τ (breaks_off _ calls i row rows at failed) I = record {
      entries = I.entries;
      received = I.received;
      phase = tt;
    }
    FineStep-FineFit σ τ (comes_to_end _ calls i at) I = record {
      entries = I.entries;
      received = I.received;
      phase = tt;
    }
    FineStep-FineFit σ τ (removes _ calls at) I = record {
      entries = I.entries;
      received = removed_fits σ calls.unlinked I;
      phase = tt;
    }

    -- Where the addresses of the table, of `nodes_.db`, of the files that peers send and of the node
    -- itself are shorter than 16 bytes: in any interleaving of the three threads, in which the server
    -- and the tasks may also run between two insertions of `process_nodes_db` and before it removes the
    -- file, no entry of the table is lost or changed, these addresses stay as short, and
    -- `get_random_node` never writes past its buffer.
    pub fine_run_safe :
        (σ τ : Fine S) → FineRuns S E σ τ → FineFit S E σ → Keeps S σ.table τ.table × FineFit S E τ
    fine_run_safe σ τ (stays _) I = ((λ a m h. h), I)
    fine_run_safe σ τ (and_then _ ρ _ before last) I =
        let (k, J) = fine_run_safe σ ρ before I in
        ((λ a m h. FineStep-Keeps ρ τ last a m (k a m h)), FineStep-FineFit ρ τ last J)
