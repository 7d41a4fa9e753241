-- ===== src/Net/Nodes/Threads/Round.antt =====
-- A round of the client's thread of node_discovery.
use manhattan_group.Base.{
  ℕ, ◌≡◌, refl, sym, ◌∙◌, ap, ◌≤◌, ◌<◌, ◌^◌, inr, true, List, Option, none, some, All, length,
  arith,
}
use mathlib.Core.Path.{subst}
use mathlib.Core.Option.{some-injective}
use manhattan_group.Net.Socket.{Event}
use manhattan_group.Net.Socket.Loop.{Arrives}
use manhattan_group.Net.Exchange.Whole.{client_well, connect_to_server_lem}
use manhattan_group.Net.Nodes.{
  NodeRow, Address, NodeStore, IsLawful, process_nodes_db, first_of, Processed,
}
use manhattan_group.Net.Nodes.Merge.{all_well, find_row, process_nodes_db_lem}
use manhattan_group.Net.Nodes.Random.{RandomCalls, chosen, copied_row, get_random_node}
use manhattan_group.Net.Nodes.Threads.{
  Client, choosing, connecting, processing, client_after, Shared, Environment, Step, client_chooses,
  client_receives, client_processes,
}

abbrev pub random_well : RandomCalls
random_well = record { granted = true; opened = true; prepared = true }

copied_lem : (row : NodeRow) → length row.ip < 16 → copied_row row ≡ chosen row
copied_lem row h = ground arith

module _ (S : NodeStore) (L : IsLawful S) (E : Environment S) where
  -- What a round with an entry and a received file comes to: the three steps of it, each of which takes
  -- the client's loop from one place to the next, and the state at its end.
  pub record Learns (σ : Shared S) (row : NodeRow) (file : List ℕ) (τ : Shared S) : Type 0 where
    pub picks : Step S E σ (record σ { client = connecting row })
    pub receives :
        Step S E
          (record σ { client = connecting row })
          (record σ { temp = some file; client = processing })
    pub merges : Step S E (record σ { temp = some file; client = processing }) τ
    pub entries :
        (a : Address)
        → S.entry τ.table a ≡ first_of (S.entry σ.table a) (find_row (E.rows_of file) a)
    pub removed : τ.temp ≡ none
    pub again : τ.client ≡ choosing

  -- From every state in which the client's loop begins a round, and for every entry of the table whose
  -- address is shorter than 16 bytes and every file that the peer offers, three steps of the client's
  -- loop can follow: it picks that entry, receives that file as `nodes_.db`, and processes it. Then the
  -- table has each entry that it had, and for the other addresses the file's first one, `nodes_.db` is
  -- gone, and the loop is where it began. (The calls succeed, the file is below 2 ^ 31 bytes, the first
  -- `recv` gets the 4 bytes of its size, and the network gives as many further events as it has bytes.)
  pub client_round :
      (s : S.State) (temp : Option (List ℕ)) (a : Address) (row : NodeRow) (file : List ℕ) (k : ℕ)
      (events : List Event)
      → S.entry s a ≡ some row
      → length row.ip < 16
      → E.Offers file
      → length file < 2 ^ 31
      → 3 ≤ k
      → All Arrives events
      → length file ≤ length events
      → (τ : Shared S) × Learns (record { table = s; temp = temp; client = choosing }) row file τ
  unfolding get_random_node
  client_round s temp a row file k events known fits offered small first all enough =
      let (w, exchanged, (kept, saved, sent)) =
        connect_to_server_lem (E.file_of s) file temp k events small first all enough in
      let (t, merged, entries) = process_nodes_db_lem S L E.rows_of s file in
      let begun : Shared S = record { table = s; temp = temp; client = choosing } in
      let picked : Shared S = record begun { client = connecting row } in
      let received : Shared S = record { table = s; temp = some file; client = processing } in
      let made : Processed S = process_nodes_db S E.rows_of all_well s (some file) in
      (
        record { table = made.1.0; temp = made.1.1; client = choosing },
        record {
          picks =
              subst (λ (c : Client). Step S E begun (record begun { client = c }))
                (ap client_after (copied_lem row fits))
                (client_chooses begun random_well (some row) refl (a, known));
          receives =
              subst
                (λ (temp' : Option (List ℕ)).
                  Step S E picked (record { table = s; temp = temp'; client = processing }))
                saved
                (client_receives picked row client_well _ w refl exchanged
                  (λ f e. inr (subst E.Offers (some-injective file f (sym saved ∙ e)) offered)));
          merges = client_processes received all_well refl;
          entries = λ b. ap (λ (r : Processed S). S.entry (r.1.0) b) merged ∙ entries b;
          removed = ap (λ (r : Processed S). r.1.1) merged;
          again = refl;
        },
      )
