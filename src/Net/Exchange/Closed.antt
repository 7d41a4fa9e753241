-- ===== src/Net/Exchange/Closed.antt =====
-- An exchange of node_discovery in which the peer closes the connection too early.
use manhattan_group.Base.{
  ℕ, ◌^◌, ◌≤◌, ◌<◌, ◌≡◌, refl, true, arith, List, [], ◌∷◌, ◌++◌, length, Option, All,
}
use manhattan_group.Base.{pos}
use manhattan_group.Net.Socket.{Event, arrives, receive}
use manhattan_group.Net.Socket.Loop.{Arrives, receive_events-unfinished}
use manhattan_group.Net.Io.{World, done, never_returns}
use manhattan_group.Net.Exchange.{
  int_bytes, receive_size, receive_file, send_size, send_file, connect_to_server, the_server,
}
use manhattan_group.Net.Exchange.Whole.{
  receive_size_lem, send_chunks-all, client_well, server_well, before,
}

receive_file-never :
    (n : ℕ) (rest : List ℕ) (events : List Event) (w : World)
    → All Arrives events
    → length rest < n
    → w.socket ≡ record { incoming = rest; events = events }
    → receive_file (λ z. true) (pos n) w ≡ never_returns
unfolding receive_file receive
receive_file-never n rest events w all short e =
    rw (e, receive_events-unfinished events n rest all short) refl

-- A peer that announces a size below 2 ^ 31 and closes the connection before it has sent so many bytes
-- keeps both `connect_to_server` and `the_server` from ever returning, where every other call
-- succeeds: however many calls of `recv` follow, the loop adds 0 and goes on. (The first `recv` gets
-- the 4 bytes of the size at once.)
pub receive_file_closed :
    (file rest : List ℕ) (temp : Option (List ℕ)) (n k : ℕ) (events : List Event)
    → n < 2 ^ 31
    → length rest < n
    → 3 ≤ k
    → All Arrives events
    → let w = before file temp (int_bytes n ++ rest) (arrives k ∷ events) in
      (connect_to_server client_well w ≡ never_returns) × (the_server server_well w ≡ never_returns)
unfolding connect_to_server the_server send_size send_file
receive_file_closed file rest temp n k events small short first all = (client, server)
  where
    at : List ℕ → World
    at sent = record {
      local_file = file;
      temp_file = temp;
      socket = record { incoming = int_bytes n ++ rest; events = arrives k ∷ events };
      sent = sent;
    }

    sized : List ℕ → World
    sized sent = record (at sent) { socket = record { incoming = rest; events = events } }

    size_read : (sent : List ℕ) → receive_size (at sent) ≡ done (pos n) (sized sent)
    size_read sent = receive_size_lem n k rest events (at sent) small first refl

    stuck : (sent : List ℕ) → receive_file (λ z. true) (pos n) (sized sent) ≡ never_returns
    stuck sent = receive_file-never n rest events (sized sent) all short refl

    client : connect_to_server client_well (at []) ≡ never_returns
    client =
        rw
          (
            send_chunks-all (length file) 0 file (at (int_bytes (length file))) (omega arith),
            size_read (int_bytes (length file) ++ file),
            stuck (int_bytes (length file) ++ file),
          )
          refl

    server : the_server server_well (at []) ≡ never_returns
    server = rw (size_read [], stuck []) refl
