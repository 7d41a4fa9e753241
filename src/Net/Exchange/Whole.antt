-- ===== src/Net/Exchange/Whole.antt =====
-- An exchange of node_discovery in which every call succeeds, however the network cuts the streams.
use mathlib.Core.List.{append_assoc, append-nil}
use manhattan_group.Base.{
  ℕ, zero, suc, ◌+◌, ◌-◌, ◌*◌, ◌/◌, ◌%◌, ◌^◌, ◌≤◌, ◌<◌, ◌≡◌, refl, sym, ◌∙◌, ap, true, arith, List,
  [], ◌∷◌, ◌++◌, length, take, drop, Option, some, ltb, All, if◌then◌else◌, take-append-drop,
  length-drop, length-append, take-append, drop-append,
}
use manhattan_group.Base.{pos, negsuc}
use manhattan_group.Net.Socket.{Event, arrives, recv, receive, smaller}
use manhattan_group.Net.Socket.Loop.{Arrives, receive_events-complete}
use manhattan_group.Net.Io.{World, done}
use manhattan_group.Net.Exchange.{
  int_bytes, int_of_bytes, receive_size, receive_file, save_file, send_size, send_file, send_chunks,
  ClientCalls, connect_to_server, ServerCalls, the_server,
}

-- What is sent for a file.
abbrev pub message : List ℕ → List ℕ
message file = int_bytes (length file) ++ file

int_of_bytes-int_bytes :
    (n : ℕ)
    → n < 2 ^ 31
    → int_of_bytes (n % 256) (n / 2 ^ 8 % 256) (n / 2 ^ 16 % 256) (n / 2 ^ 24 % 256) ≡ pos n
int_of_bytes-int_bytes n h =
    of_sum
      (n % 256 + n / 2 ^ 8 % 256 * 2 ^ 8 + n / 2 ^ 16 % 256 * 2 ^ 16 + n / 2 ^ 24 % 256 * 2 ^ 24)
      (omega arith)
  where
    of_sum : (w : ℕ) → w ≡ n → (if ltb w (2 ^ 31) then pos w else negsuc (2 ^ 32 - 1 - w)) ≡ pos n
    of_sum w e = ground arith

-- The chunks of a file are the file.
pub send_chunks-all :
    (fuel i : ℕ) (file : List ℕ) (w : World)
    → length file ≤ fuel
    → send_chunks (λ j. true) fuel i file w ≡ done tt (record w { sent = w.sent ++ file })
unfolding send_chunks
send_chunks-all fuel i [] w h =
    ap (λ xs. done tt (record w { sent = xs })) (sym (append-nil w.sent))
send_chunks-all zero i (x ∷ xs) w h = absurd (omega arith)
send_chunks-all (suc fuel) i (x ∷ xs) w h =
    send_chunks-all fuel (i + 1) (drop 1024 (x ∷ xs))
      (record w { sent = w.sent ++ take 1024 (x ∷ xs) }) (omega (arith, length-drop 1024 (x ∷ xs)))
    ∙ ap (λ ys. done tt (record w { sent = ys }))
        (append_assoc w.sent (take 1024 (x ∷ xs)) (drop 1024 (x ∷ xs))
          ∙ ap (λ ys. w.sent ++ ys) (take-append-drop 1024 (x ∷ xs)))

four_at_once : (k : ℕ) → 3 ≤ k → smaller 4 (suc k) ≡ 4
four_at_once k h = ground arith

pub receive_size_lem :
    (n k : ℕ) (rest : List ℕ) (later : List Event) (w : World)
    → n < 2 ^ 31
    → 3 ≤ k
    → w.socket ≡ record { incoming = int_bytes n ++ rest; events = arrives k ∷ later }
    → receive_size w
      ≡ done (pos n) (record w { socket = record { incoming = rest; events = later } })
unfolding receive_size recv
receive_size_lem n k rest later w small enough e =
    rw (e, four_at_once k enough)
      (ap (λ z. done z (record w { socket = record { incoming = rest; events = later } }))
        (int_of_bytes-int_bytes n small))

receive_file_lem :
    (file rest : List ℕ) (events : List Event) (w : World)
    → All Arrives events
    → length file ≤ length events
    → w.socket ≡ record { incoming = file ++ rest; events = events }
    → (later : List Event) × (receive_file (λ z. true) (pos (length file)) w
        ≡ done file (record w { socket = record { incoming = rest; events = later } }))
unfolding receive_file receive
receive_file_lem file rest events w all enough e =
    let (later, read) =
      receive_events-complete events (length file) (file ++ rest) all
        (omega (arith, length-append file rest)) enough in
    (
      later,
      rw
          (
            e,
            read,
            take-append file rest (length file) refl,
            drop-append file rest (length file) refl,
          )
          refl,
    )

abbrev pub client_well : ClientCalls
client_well = record {
  socket_made = true;
  address_parsed = true;
  connected = true;
  file_opened = true;
  size_sent = true;
  chunk_sent = λ i. true;
  granted = λ z. true;
  temp_opened = true;
}

abbrev pub server_well : ServerCalls
server_well = record {
  accepted = true;
  granted = λ z. true;
  temp_opened = true;
  file_opened = true;
  size_sent = true;
  chunk_sent = λ i. true;
}

-- A world before a call: nothing is sent yet.
abbrev pub before : List ℕ → Option (List ℕ) → List ℕ → List Event → World
before file temp incoming events = record {
  local_file = file;
  temp_file = temp;
  socket = record { incoming = incoming; events = events };
  sent = [];
}

module _ (file other : List ℕ) (temp : Option (List ℕ)) (k : ℕ) (events : List Event)
    (small : length other < 2 ^ 31) (first : 3 ≤ k) (all : All Arrives events)
    (enough : length other ≤ length events) where
  -- After a call: the other file is saved, and the own one sent.
  abbrev pub Exchanged : World → Type 0
  Exchanged w = (w.local_file ≡ file) × (w.temp_file ≡ some other) × (w.sent ≡ message file)

  abbrev pub start : World
  start = before file temp (message other) (arrives k ∷ events)

  sized : World
  sized = record start { socket = record { incoming = other; events = events } }

  received : Option (List ℕ) → List ℕ → (later : List Event) → World
  received saved sent later = record {
    local_file = file;
    temp_file = saved;
    socket = record { incoming = []; events = later };
    sent = sent;
  }

  size_read :
      (sent : List ℕ)
      → receive_size (record start { sent = sent })
        ≡ done (pos (length other)) (record sized { sent = sent })
  unfolding sized
  size_read sent =
      receive_size_lem (length other) k other events (record start { sent = sent }) small first refl

  file_read :
      (sent : List ℕ)
      → (later : List Event) × (receive_file
            (λ z. true)
            (pos (length other))
            (record sized { sent = sent })
          ≡ done other (received temp sent later))
  unfolding sized received
  file_read sent =
      receive_file_lem other [] events (record sized { sent = sent }) all enough
        (ap (λ xs. record { incoming = xs; events = events }) (sym (append-nil other)))

  pub the_server_lem : (w : World) × (the_server server_well start ≡ done tt w) × Exchanged w
  unfolding the_server send_size send_file save_file received
  the_server_lem =
      let (later, read) = file_read [] in
      let after_send : send_chunks (λ i. true) (length file) 0 file
            (received (some other) (int_bytes (length file)) later)
          ≡ done tt (received (some other) (message file) later) =
        send_chunks-all (length file) 0 file (received (some other) (int_bytes (length file)) later)
          (omega arith) in
      (
        received (some other) (message file) later,
        rw (size_read [], read) after_send,
        (refl, refl, refl),
      )

  pub connect_to_server_lem :
      (w : World) × (connect_to_server client_well start ≡ done tt w) × Exchanged w
  unfolding connect_to_server send_size send_file save_file received
  connect_to_server_lem =
      let (later, read) = file_read (message file) in
      let after_send : send_chunks (λ i. true) (length file) 0 file
            (record start { sent = int_bytes (length file) })
          ≡ done tt (record start { sent = message file }) =
        send_chunks-all (length file) 0 file (record start { sent = int_bytes (length file) })
          (omega arith) in
      (
        received (some other) (message file) later,
        rw (after_send, size_read (message file), read) refl,
        (refl, refl, refl),
      )

-- An exchange in which every call succeeds: `connect_to_server` of a node with one table and
-- `the_server` of a node with another, each reading what the other sends, both return 0; each has
-- then saved the other's table whole and kept its own. The tables are below 2 ^ 31 bytes, each side's
-- first `recv` gets the 4 bytes of the size at once, and the later calls, as many as there are bytes,
-- get the rest in parts of any size.
pub connect_to_server-the_server :
    (a b : List ℕ) (old_a old_b : Option (List ℕ)) (i j : ℕ) (es fs : List Event)
    → length a < 2 ^ 31
    → length b < 2 ^ 31
    → 3 ≤ i
    → 3 ≤ j
    → All Arrives es
    → All Arrives fs
    → length b ≤ length es
    → length a ≤ length fs
    → (client : World) × (server : World) × (connect_to_server client_well
          (before a old_a server.sent (arrives i ∷ es))
        ≡ done tt client)
      × (the_server server_well (before b old_b client.sent (arrives j ∷ fs)) ≡ done tt server)
      × (client.temp_file ≡ some b)
      × (server.temp_file ≡ some a)
      × (client.local_file ≡ a)
      × (server.local_file ≡ b)
connect_to_server-the_server a b old_a old_b i j es fs small_a small_b first_i first_j all_es all_fs
      enough_b enough_a =
    let (client, ran, (kept, saved, sent)) =
      connect_to_server_lem a b old_a i es small_b first_i all_es enough_b in
    let (server, served, (kept', saved', sent')) =
      the_server_lem b a old_b j fs small_a first_j all_fs enough_a in
    (client, server, rw sent' ran, rw sent served, saved, saved', kept, kept')
