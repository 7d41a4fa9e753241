-- ===== src/Net/Witnesses.antt =====
-- The theorems on the peer-to-peer programs at concrete tables, files and schedules.
use mathlib.Core.Option.{none-ne-some, some-injective}
use manhattan_group.Base.{
  ℕ, ◌≡◌, refl, sym, ◌∙◌, ap, ◌≤◌, ◌<◌, ◌-◌, ◌^◌, true, false, List, [], ◌∷◌, ◌++◌, none, some,
  length, All, if◌then◌else◌, ◌==◌, arith,
}
use manhattan_group.Base.{ℤ, pos, negsuc}
use manhattan_group.Net.Socket.{arrives, breaks, Socket}
use manhattan_group.Net.Io.{World, done, never_returns}
use manhattan_group.Net.Exchange.{int_bytes, connect_to_server, the_server}
use manhattan_group.Net.Exchange.Whole.{
  client_well, server_well, before, connect_to_server-the_server,
}
use manhattan_group.Net.Exchange.Closed.{receive_file_closed}
use manhattan_group.Net.Nodes.{
  NodeRow, Address, address, same_address, first_of, NodeStore, IsLawful, own_row, process_nodes_db,
  insert_rows, insert_node,
}
use manhattan_group.Net.Nodes.Merge.{
  find_row, all_well, process_nodes_db_lem, Keeps, insert-AllEntries, first_of_assoc, first_of-none,
}
use manhattan_group.Net.Nodes.Meeting.{
  SameKnown, Peer, Meets, client_node, server_node, meetings-SameKnown, Reads,
}
use manhattan_group.Net.Nodes.Threads.{choosing, processing, Shared, Environment, port_number}
use manhattan_group.Net.Nodes.Interleaved.{
  outside, merging, removing, Fine, begins, inserts, tasks_insert, FineRuns, stays, and_then,
}
use manhattan_group.Net.Nodes.Interleaved.Kept.{FineFit, fine_run_safe}
use manhattan_group.Net.Nodes.Interleaved.Merged.{received_lost}
use manhattan_group.Net.Nodes.Threads.Safe.{Fits}
use manhattan_group.Net.Nodes.Threads.Round.{Learns, client_round}
use manhattan_group.Net.OwnAddress.{found, tasks_round, part}
use manhattan_group.Net.OwnAddress.Found.{IsDotted, IsGroup, web_well, tasks_round_lem}
use manhattan_group.Net.Propagation.{readable, receive_message, returns}
use manhattan_group.Net.Propagation.Message.{receive_message_closed}
use manhattan_group.Net.Propagation.Main.{Line, run_main, returns_0, undefined}
use manhattan_group.Net.Propagation.Main
use manhattan_group.Net.Propagation.Main.Reports.{
  run_main_lem, well_read, NoMessage, Reached, Missed, Quiet,
}

-- A table as a list of rows, in which the first one of an address counts.
abbrev list_store : NodeStore
list_store = record {
  State = List NodeRow;
  entry = find_row;
  insert = λ rows row. rows ++ row ∷ [];
}

list_store-IsLawful : IsLawful list_store
list_store-IsLawful = record { entry-insert = λ rows row a. go rows row a }
  where
    go :
        (rows : List NodeRow) (row : NodeRow) (a : Address)
        → find_row (rows ++ row ∷ []) a
          ≡ first_of (find_row rows a) (if same_address a (address row) then some row else none)
    go [] row a = first_of-none _
    go (old ∷ rows) row a =
        ap (first_of (if same_address a (address old) then some old else none)) (go rows row a)
        ∙ sym (
            first_of_assoc (if same_address a (address old) then some old else none)
              (find_row rows a) (if same_address a (address row) then some row else none))

-- "1.2.3.4" and "5.6.7.8".
abbrev text_1 : List ℕ
text_1 = 49 ∷ 46 ∷ 50 ∷ 46 ∷ 51 ∷ 46 ∷ 52 ∷ []

abbrev text_2 : List ℕ
text_2 = 53 ∷ 46 ∷ 54 ∷ 46 ∷ 55 ∷ 46 ∷ 56 ∷ []

abbrev row_1 : NodeRow
row_1 = own_row text_1 (pos 5001)

abbrev row_2 : NodeRow
row_2 = own_row text_2 (pos 5000)

-- A file of one byte stands for the table with the two rows.
abbrev rows_of : List ℕ → List NodeRow
rows_of [] = []
rows_of (b ∷ bytes) = row_1 ∷ row_2 ∷ []

process_nodes_db_lem_example :
    (t : List NodeRow) × (process_nodes_db list_store rows_of all_well (row_1 ∷ []) (some (7 ∷ []))
      ≡ (0, (t, none)))
    × ((a : Address)
        → find_row t a ≡ first_of (find_row (row_1 ∷ []) a) (find_row (row_1 ∷ row_2 ∷ []) a))
process_nodes_db_lem_example =
    process_nodes_db_lem list_store list_store-IsLawful rows_of (row_1 ∷ []) (7 ∷ [])

abbrev peers : Environment list_store
peers = record {
  Offers = λ file. file ≡ 7 ∷ [];
  Assigns = λ ip. ip ≡ text_2;
  rows_of = rows_of;
  file_of = λ rows. [];
}

connect_to_server-the_server_example :
    (client : World) × (server : World) × (connect_to_server client_well
        (before (7 ∷ []) none server.sent (arrives 9 ∷ arrives 0 ∷ arrives 3 ∷ []))
      ≡ done tt client)
    × (the_server server_well (before (8 ∷ 9 ∷ []) none client.sent (arrives 3 ∷ arrives 0 ∷ []))
        ≡ done tt server)
    × (client.temp_file ≡ some (8 ∷ 9 ∷ []))
    × (server.temp_file ≡ some (7 ∷ []))
    × (client.local_file ≡ 7 ∷ [])
    × (server.local_file ≡ 8 ∷ 9 ∷ [])
connect_to_server-the_server_example =
    connect_to_server-the_server (7 ∷ []) (8 ∷ 9 ∷ []) none none 9 3 (arrives 0 ∷ arrives 3 ∷ [])
      (arrives 0 ∷ []) (omega arith) (omega arith) (omega arith) (omega arith) (tt, (tt, tt))
      (tt, tt) (omega arith) (omega arith)

receive_file_closed_example :
    let w = before [] none (int_bytes 5 ++ 1 ∷ 2 ∷ []) (arrives 3 ∷ arrives 7 ∷ []) in
    (connect_to_server client_well w ≡ never_returns) × (the_server server_well w ≡ never_returns)
receive_file_closed_example =
    receive_file_closed [] (1 ∷ 2 ∷ []) none 5 3 (arrives 7 ∷ []) (omega arith) (omega arith)
      (omega arith) (tt, tt)

-- Of the port of a row.
abbrev row_code : ℤ → ℕ
row_code (pos n) = n - 5000
row_code (negsuc n) = 0

-- A file has a byte for each row.
abbrev coded : List NodeRow → List ℕ
coded [] = []
coded (row ∷ rows) = row_code row.port ∷ coded rows

abbrev decoded : List ℕ → List NodeRow
decoded [] = []
decoded (b ∷ bytes) = (if b == 1 then row_1 else row_2) ∷ decoded bytes

abbrev knows_1 : Peer list_store decoded coded
knows_1 = record { table = row_1 ∷ []; temp = none }

abbrev knows_2 : Peer list_store decoded coded
knows_2 = record { table = row_2 ∷ []; temp = some (9 ∷ []) }

abbrev met_1 : Peer list_store decoded coded
met_1 = client_node list_store list_store-IsLawful decoded coded knows_1 knows_2

abbrev met_2 : Peer list_store decoded coded
met_2 = server_node list_store list_store-IsLawful decoded coded knows_1 knows_2

abbrev last_1 : Peer list_store decoded coded
last_1 = server_node list_store list_store-IsLawful decoded coded met_2 met_1

abbrev last_2 : Peer list_store decoded coded
last_2 = client_node list_store list_store-IsLawful decoded coded met_2 met_1

knows_2-Reads : Reads list_store decoded coded knows_2.table
knows_2-Reads a = refl

met_table : met_1.table ≡ row_1 ∷ row_2 ∷ []
unfolding process_nodes_db insert_rows
met_table = refl

met_1-Reads : Reads list_store decoded coded met_1.table
met_1-Reads a = rw met_table refl

small_met : length (coded met_1.table) < 2 ^ 31
small_met = rw met_table (omega arith)

-- The first row alone, the second row alone; then each connects to the other.
meetings-SameKnown_example :
    Meets list_store decoded coded knows_1 knows_2
      (arrives 3 ∷ arrives 0 ∷ [])
      (arrives 7 ∷ arrives 0 ∷ [])
      met_1
      met_2
    × Meets list_store decoded coded met_2 met_1
        (arrives 4 ∷ arrives 1 ∷ arrives 0 ∷ [])
        (arrives 3 ∷ arrives 9 ∷ [])
        last_2
        last_1
    × ((a : Address)
        → (find_row last_1.table a ≡ first_of (find_row knows_1.table a) (find_row knows_2.table a))
          × (find_row last_2.table a
              ≡ first_of (find_row knows_2.table a) (find_row knows_1.table a))
          × SameKnown (find_row last_1.table a) (find_row last_2.table a))
meetings-SameKnown_example =
    meetings-SameKnown list_store list_store-IsLawful decoded coded knows_1 knows_2 3 7 4 3
      (arrives 0 ∷ []) (arrives 0 ∷ []) (arrives 1 ∷ arrives 0 ∷ []) (arrives 9 ∷ []) knows_2-Reads
      met_1-Reads (omega arith) (omega arith) small_met (omega arith, (tt, tt), omega arith)
      (omega arith, (tt, tt), omega arith) (omega arith, (tt, (tt, tt)), rw met_table (omega arith))
      (omega arith, (tt, tt), omega arith)

abbrev begun : Shared list_store
begun = record { table = row_1 ∷ []; temp = none; client = choosing }

client_round_example :
    (τ : Shared list_store) × Learns list_store list_store-IsLawful peers begun row_1 (7 ∷ []) τ
client_round_example =
    client_round list_store list_store-IsLawful peers (row_1 ∷ []) none (text_1, pos 5001) row_1
      (7 ∷ []) 3 (arrives 0 ∷ []) refl (omega arith) refl (omega arith) (omega arith) (tt, tt)
      (omega arith)

rows_fit : (file : List ℕ) → file ≡ 7 ∷ [] → All Fits (rows_of file)
rows_fit file e = rw e (omega arith, (omega arith, tt))

-- The client has received a file of two rows. The node inserts its own address between the two.
abbrev to_process : Fine list_store
to_process = record { table = row_1 ∷ []; temp = some (7 ∷ []); phase = outside processing }

abbrev loop_begun : Fine list_store
loop_begun = record to_process { phase = merging all_well 0 (rows_of (7 ∷ [])) }

abbrev own_inserted : Fine list_store
own_inserted = record loop_begun {
  table = (insert_node list_store true true (row_1 ∷ []) text_2 port_number).1;
}

abbrev one_inserted : Fine list_store
one_inserted = record own_inserted {
  table = own_inserted.table ++ row_1 ∷ [];
  phase = merging all_well 1 (row_2 ∷ []);
}

interleaving : FineRuns list_store peers to_process one_inserted
interleaving =
    and_then to_process own_inserted one_inserted
      (and_then to_process loop_begun own_inserted
        (and_then to_process to_process loop_begun (stays to_process)
          (begins to_process (7 ∷ []) all_well refl refl refl))
        (tasks_insert loop_begun text_2 true true refl))
      (inserts own_inserted all_well 0 row_1 (row_2 ∷ []) refl refl)

to_process-FineFit : FineFit list_store peers to_process
to_process-FineFit = record {
  entries =
      insert-AllEntries list_store list_store-IsLawful Fits [] row_1
        (λ a m e. absurd (none-ne-some m e)) (omega arith);
  received = λ file e. rows_fit file (sym (some-injective (7 ∷ []) file e));
  phase = tt;
}

fine_run_safe_example :
    Keeps list_store to_process.table one_inserted.table × FineFit list_store peers one_inserted
fine_run_safe_example =
    fine_run_safe list_store list_store-IsLawful peers rows_fit (λ ip e. rw e (omega arith))
      to_process one_inserted interleaving to_process-FineFit

received_lost_example :
    (τ : Fine list_store) × (υ : Fine list_store) × FineRuns list_store peers
      (record to_process { phase = removing all_well })
      τ
    × FineRuns list_store peers τ υ
    × (τ.temp ≡ some (7 ∷ []))
    × (τ.table ≡ row_1 ∷ [])
    × (υ.temp ≡ none)
    × (υ.table ≡ row_1 ∷ [])
    × (υ.phase ≡ outside choosing)
received_lost_example =
    received_lost list_store peers all_well (row_1 ∷ []) (some (7 ∷ [])) (7 ∷ []) 3 (arrives 0 ∷ [])
      refl refl (omega arith) (omega arith) (tt, tt) (omega arith)

digit : (c : ℕ) → 48 ≤ c → c ≤ 57 → IsGroup (c ∷ [])
digit c low high = (((low, high), tt), omega arith, omega arith)

dotted : IsDotted (part 0 7 text_1)
dotted = record {
  a = 49 ∷ [];
  b = 50 ∷ [];
  c = 51 ∷ [];
  d = 52 ∷ [];
  groups = (
    digit 49 (omega arith) (omega arith),
    digit 50 (omega arith) (omega arith),
    digit 51 (omega arith) (omega arith),
    digit 52 (omega arith) (omega arith),
  );
  is_joined = refl;
}

tasks_round_lem_example :
    (tasks_round list_store
        (λ text. found 0 7)
        web_well
        (some [])
        (record {
          incoming = text_1;
          events =
              arrives 2
              ∷ arrives 9
              ∷ arrives 0
              ∷ arrives 0
              ∷ arrives 0
              ∷ arrives 0
              ∷ arrives 0
              ∷ arrives 0
              ∷ [];
        })
        true
        true
        true
        (row_2 ∷ [])
      ≡ some ((insert_node list_store true true (row_2 ∷ []) (part 0 7 text_1) (pos 5001)).1))
    × (length (part 0 7 text_1) < 16)
tasks_round_lem_example =
    tasks_round_lem list_store (λ text. found 0 7) text_1
      (arrives 2
        ∷ arrives 9
        ∷ arrives 0
        ∷ arrives 0
        ∷ arrives 0
        ∷ arrives 0
        ∷ arrives 0
        ∷ arrives 0
        ∷ [])
      0 7 (row_2 ∷ [])
      (
        omega arith,
        (
          omega arith,
          (
            omega arith,
            (omega arith, (omega arith, (omega arith, (omega arith, (omega arith, tt))))),
          ),
        ),
      )
      (
        omega arith,
        (
          omega arith,
          (omega arith, (omega arith, (omega arith, (omega arith, (omega arith, tt))))),
        ),
      )
      (omega arith) refl (omega arith) (omega arith) dotted

receive_message_closed_example :
    let s : Socket = record {
      incoming = 1 ∷ 2 ∷ [];
      events = arrives 0 ∷ arrives 5 ∷ arrives 5 ∷ [];
    } in
    (3 ≤ length s.incoming
      → (bytes : List ℕ) × (later : List ℕ) × (receive_message readable s 3 ≡ returns 0 none bytes)
        × (s.incoming ≡ bytes ++ later)
        × (length bytes ≡ 3))
    × (length s.incoming < 3 → receive_message readable s 3 ≡ returns 3 (some (pos 0)) s.incoming)
receive_message_closed_example =
    receive_message_closed
      (record { incoming = 1 ∷ 2 ∷ []; events = arrives 0 ∷ arrives 5 ∷ arrives 5 ∷ [] }) 3
      (tt, (tt, (tt, tt))) (omega arith)

abbrev propagation_rows : List (List ℕ × ℤ)
propagation_rows = (text_1, pos 5001) ∷ (text_2, pos 5000) ∷ []

abbrev greeting : Socket
greeting = record { incoming = 104 ∷ 105 ∷ []; events = arrives 0 ∷ arrives 5 ∷ breaks ∷ [] }

greeting-Quiet : (i : ℕ) → Quiet greeting
greeting-Quiet i = (omega arith, omega arith)

abbrev propagation : Main.World
propagation = record {
  count = well_read (pos 2 ∷ []);
  granted = true;
  nodes = well_read propagation_rows;
  connects = λ i. record {
    socket_made = pos 3;
    flags_got = true;
    flags_set = true;
    address_parsed = true;
    connected = i == 0;
    in_progress = false;
    bytes_sent = some 14;
  };
  ready = λ i. readable;
  sockets = λ i. greeting;
}

-- The second node refuses.
run_main_lem_example :
    (Reached propagation.connects propagation.ready propagation.sockets greeting-Quiet 0
        propagation_rows
      → (lines : List Line) × (run_main propagation ≡ returns_0 lines)
        × (length lines ≡ 2)
        × All NoMessage lines)
    × (Missed propagation.connects propagation.ready propagation.sockets greeting-Quiet 0
          propagation_rows
        → run_main propagation ≡ undefined)
run_main_lem_example =
    run_main_lem propagation propagation_rows refl refl refl (omega arith, (omega arith, tt))
      greeting-Quiet
