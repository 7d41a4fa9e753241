-- ===== src/Net/Propagation/Main/Reports.antt =====
-- What `main` of propagation_latency/propagation.c reports.
use manhattan_group.Base.{
  ℕ, suc, ◌+◌, ◌<◌, ◌≡◌, ◌≢◌, refl, ◌∙◌, ap, ◌⊎◌, inl, inr, true, false, not, ◌&&◌, ◌||◌, List, [],
  ◌∷◌, map, Option, none, some, length, ltb, ◌==◌, if◌then◌else◌, if_holds, All, arith,
}
use manhattan_group.Base.{ℤ, pos}
use manhattan_group.Net.Socket.{Socket}
use manhattan_group.Net.Propagation.{
  Node, fresh_node, Query, get_node_count, fill_nodes, get_nodes, ConnectCalls, is_negative,
  connect_to_server, Ready, select_fails, timeout, readable, Answer, returns, receive_message,
}
use manhattan_group.Net.Propagation.Message.{receive_message_short}
use manhattan_group.Net.Propagation.Main.{
  Line, received_message, timeout_occurred, connection_closed, error_receiving, Run, returns_0,
  undefined, reach_out, connect_all, print_answer, visit, receive_all, are_written, repeat_node,
  World, run_main, max_message_length,
}

abbrev pub TableRow : Type 0
TableRow = List ℕ × ℤ

abbrev pub node_of : TableRow → Node
node_of (ip, port) = record fresh_node { ip = some ip; port = some port }

abbrev pub IsShort : TableRow → Type 0
IsShort (ip, port) = length ip < 16

fill_nodes-repeat_node :
    (rows : List TableRow)
    → All IsShort rows
    → fill_nodes rows (repeat_node (length rows)) ≡ some (map node_of rows)
unfolding fill_nodes
fill_nodes-repeat_node [] h = refl
fill_nodes-repeat_node ((ip, port) ∷ rows) h =
    rw (fill_nodes-repeat_node rows h.1, fits ip h.0) refl
  where
    fits : (ip : List ℕ) → length ip < 16 → ltb (length ip) 16 ≡ true
    fits ip h = ground arith

are_written-map : (rows : List TableRow) → are_written (map node_of rows) ≡ true
unfolding are_written
are_written-map [] = refl
are_written-map ((ip, port) ∷ rows) = are_written-map rows

-- A node's status after `connect_to_server`, where it had none.
status_after :
    (calls : ConnectCalls) (row : TableRow)
    → (reach_out calls (node_of row)).status
      ≡ (if (connect_to_server calls (node_of row)).0 == 0 then some (pos 1) else none)
unfolding connect_to_server
status_after calls (ip, port) =
    if_holds P
      (is_negative calls.socket_made
        || not (calls.flags_got && calls.flags_set && calls.address_parsed))
      refl (if_holds P (calls.connected || calls.in_progress) refl refl)
  where
    P : ℕ × Node → Type 0
    P r = r.1.status ≡ (if r.0 == 0 then some (pos 1) else none)

-- A socket on which fewer bytes come than `main` asks for, and one more event than these.
abbrev pub Quiet : Socket → Type 0
Quiet s = (length s.incoming < length s.events) × (length s.incoming < max_message_length)

abbrev pub NoMessage : Line → Type 0
NoMessage (received_message bytes) = ⊥
NoMessage _ = Unit

abbrev Prints : Answer → Type 0
Prints answer = (line : Line) × (print_answer answer ≡ returns_0 line) × NoMessage line

failing_line :
    (rc : ℕ) (status : Option ℤ) (bytes : List ℕ)
    → (rc ≡ 1) ⊎ (rc ≡ 3)
    → Prints (returns rc status bytes)
failing_line rc status bytes (inl e) = (error_receiving, rw e refl, tt)
failing_line rc status bytes (inr e) = (connection_closed, rw e refl, tt)

nothing_read :
    (ready : Ready) (s : Socket)
    → (ready ≡ select_fails) ⊎ (ready ≡ timeout)
    → Prints (receive_message ready s max_message_length)
unfolding receive_message
nothing_read ready s (inl e) = rw e (error_receiving, refl, tt)
nothing_read ready s (inr e) = rw e (timeout_occurred, refl, tt)

quiet_line :
    (ready : Ready) (s : Socket) → Quiet s → Prints (receive_message ready s max_message_length)
quiet_line select_fails s q = nothing_read select_fails s (inl refl)
quiet_line timeout s q = nothing_read timeout s (inr refl)
quiet_line readable s q =
    let (rc, status, bytes, e, which) = receive_message_short s max_message_length q.0 q.1 in
    rw e (failing_line rc status bytes which)

-- The last two loops over the nodes of some rows, from number i on.
module _ (connects : ℕ → ConnectCalls) (ready : ℕ → Ready) (sockets : ℕ → Socket)
    (quiet : (i : ℕ) → Quiet (sockets i)) where
  abbrev pub Reached : ℕ → List TableRow → Type 0
  Reached i [] = Unit
  Reached i (row ∷ rows) =
      ((connect_to_server (connects i) (node_of row)).0 ≡ 0) × Reached (i + 1) rows

  abbrev pub Missed : ℕ → List TableRow → Type 0
  Missed i [] = ⊥
  Missed i (row ∷ rows) =
      ((connect_to_server (connects i) (node_of row)).0 ≢ 0) ⊎ Missed (i + 1) rows

  abbrev loops : ℕ → List TableRow → Run (List Line)
  loops i rows = receive_all ready sockets i (connect_all connects i (map node_of rows))

  -- A round of the last loop, by the code of `connect_to_server`.
  loops_step :
      (i : ℕ) (row : TableRow) (rows : List TableRow)
      → loops i (row ∷ rows)
        ≡ visit
            (if (connect_to_server (connects i) (node_of row)).0 == 0 then some (pos 1) else none)
            (print_answer (receive_message (ready i) (sockets i) max_message_length))
            (loops (i + 1) rows)
  unfolding receive_all connect_all
  loops_step i row rows =
      ap
        (λ status.
          visit status (print_answer (receive_message (ready i) (sockets i) max_message_length))
            (loops (i + 1) rows))
        (status_after (connects i) row)

  loops-Reached :
      (i : ℕ) (rows : List TableRow)
      → Reached i rows
      → (lines : List Line) × (loops i rows ≡ returns_0 lines)
        × (length lines ≡ length rows)
        × All NoMessage lines
  unfolding receive_all connect_all
  loops-Reached i [] h = ([], refl, refl, tt)
  loops-Reached i (row ∷ rows) h =
      let (line, printed, quiet_one) = quiet_line (ready i) (sockets i) (quiet i) in
      let (lines, ran, size, none_of_them) = loops-Reached (i + 1) rows h.1 in
      (
        line ∷ lines,
        loops_step i row rows ∙ rw (h.0, printed, ran) refl,
        ap suc size,
        (quiet_one, none_of_them),
      )

  loops-Missed : (i : ℕ) (rows : List TableRow) → Missed i rows → loops i rows ≡ undefined
  loops-Missed i [] h = absurd h
  loops-Missed i (row ∷ rows) (inl h) = loops_step i row rows ∙ rw (not_zero _ h) refl
    where
      not_zero : (c : ℕ) → c ≢ 0 → (c == 0) ≡ false
      not_zero c h = ground arith
  loops-Missed i (row ∷ rows) (inr h) =
      let (line, printed, quiet_one) = quiet_line (ready i) (sockets i) (quiet i) in
      loops_step i row rows
      ∙ rw (printed, loops-Missed (i + 1) rows h)
          (if_holds (λ status. visit status (returns_0 line) undefined ≡ undefined)
            ((connect_to_server (connects i) (node_of row)).0 == 0) refl refl)

abbrev pub well_read {ℓ} : {A : Type ℓ} → List A → Query A
well_read rows = record { opened = true; prepared = true; rows = rows; ended = true }

-- Where SQLite gives the count and the rows, every text is shorter than 16 bytes, and every node
-- sends fewer than 1024 bytes (its socket has an event more than bytes): if `connect_to_server`
-- returns 0 for each node, `main` returns 0 and prints one line for each, none of which is a received
-- message; if it returns 1 for any, `main` reads a status that was never written.
pub run_main_lem :
    (w : World) (rows : List TableRow)
    → w.count ≡ well_read (pos (length rows) ∷ [])
    → w.granted ≡ true
    → w.nodes ≡ well_read rows
    → All IsShort rows
    → (quiet : (i : ℕ) → Quiet (w.sockets i))
    → (Reached w.connects w.ready w.sockets quiet 0 rows
        → (lines : List Line) × (run_main w ≡ returns_0 lines)
          × (length lines ≡ length rows)
          × All NoMessage lines)
      × (Missed w.connects w.ready w.sockets quiet 0 rows → run_main w ≡ undefined)
unfolding run_main get_node_count get_nodes
run_main_lem w rows counted granted read short quiet =
    let run : run_main w ≡ loops w.connects w.ready w.sockets quiet 0 rows =
      rw (counted, granted, read, fill_nodes-repeat_node rows short, are_written-map rows) refl in
    (
      λ h.
          let (lines, ran, size, none_of_them) =
            loops-Reached w.connects w.ready w.sockets quiet 0 rows h in
          (lines, run ∙ ran, size, none_of_them),
      λ h. run ∙ loops-Missed w.connects w.ready w.sockets quiet 0 rows h,
    )
