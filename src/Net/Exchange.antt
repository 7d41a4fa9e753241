-- ===== src/Net/Exchange.antt =====
-- node_discovery/functions.h: `connect_to_server` and `the_server` send each other `nodes.db`, the
-- size first, and save what they receive as `nodes_.db`.
pub mod Whole
pub mod Closed
use manhattan_group.Base.{
  ℕ, zero, suc, ◌+◌, ◌-◌, ◌*◌, ◌/◌, ◌%◌, ◌^◌, Bool, true, false, List, [], ◌∷◌, ◌++◌, length, take,
  drop, some, ltb, if◌then◌else◌,
}
use manhattan_group.Base.{ℤ, pos, negsuc}
use manhattan_group.Net.Socket.{
  Reply, got, negative, blocked, recv, Received, complete, broken, unfinished, receive,
}
use manhattan_group.Net.Io.{
  World, Outcome, done, returns_1, never_returns, undefined, Io, after, ◌>>=◌, ◌>>◌, requires,
}

-- An `int` as its 4 bytes, the lowest first; `ftell` gives a `long`, which is cut to an `int`.
abbrev pub int_bytes : ℕ → List ℕ
int_bytes n = n % 256 ∷ n / 2 ^ 8 % 256 ∷ n / 2 ^ 16 % 256 ∷ n / 2 ^ 24 % 256 ∷ []

abbrev pub int_of_bytes : ℕ → ℕ → ℕ → ℕ → ℤ
int_of_bytes a b c d =
    let w = a + b * 2 ^ 8 + c * 2 ^ 16 + d * 2 ^ 24 in
    if ltb w (2 ^ 31) then pos w else negsuc (2 ^ 32 - 1 - w)

-- The `int` after `recv` of its 4 bytes; with less than 4 it holds bytes that were never written.
abbrev pub size_from : Reply → Io ℤ
size_from (got (a ∷ b ∷ c ∷ d ∷ []) s) w = done (int_of_bytes a b c d) (record w { socket = s })
size_from (got _ s) w = undefined
size_from (negative s) w = returns_1 (record w { socket = s })
size_from blocked w = never_returns

unfoldable pub receive_size : Io ℤ
unfolding recv
receive_size w = size_from (recv 4 w.socket) w

abbrev pub file_from : Received → Io (List ℕ)
file_from (complete bytes s) w = done bytes (record w { socket = s })
file_from (broken s) w = returns_1 (record w { socket = s })
file_from unfinished w = never_returns

-- `malloc`, asked for the size as a `size_t`, and the receiving loop, which makes no round for a
-- negative size.
unfoldable pub receive_file : (ℤ → Bool) → ℤ → Io (List ℕ)
unfolding receive
receive_file granted (pos size) w =
    (requires (granted (pos size)) >> λ v. file_from (receive size v.socket) v) w
receive_file granted (negsuc size) w = (requires (granted (negsuc size)) >> done []) w

-- `fopen` and `fwrite` of the received file; a negative size is a count past every buffer.
unfoldable pub save_file : Bool → ℤ → List ℕ → Io (Unit {0})
save_file opened (pos size) bytes =
    requires opened >> λ w. done tt (record w { temp_file = some bytes })
save_file opened (negsuc size) bytes = requires opened >> λ w. undefined

abbrev pub sends : List ℕ → Io (Unit {0})
sends bytes w = done tt (record w { sent = w.sent ++ bytes })

unfoldable pub send_size : Bool → Io (Unit {0})
send_size ok = requires ok >> λ w. sends (int_bytes (length w.local_file)) w

-- `while ((bytes_read = fread(buffer, 1, 1024, fp)) > 0)`; each round takes a byte at least, so as
-- much fuel as the file has bytes is enough.
unfoldable pub send_chunks : (ℕ → Bool) → ℕ → ℕ → List ℕ → Io (Unit {0})
send_chunks ok fuel i [] w = done tt w
send_chunks ok zero i (x ∷ xs) w = never_returns
send_chunks ok (suc fuel) i (x ∷ xs) w =
    (requires (ok i)
        >> sends (take 1024 (x ∷ xs))
        >> send_chunks ok fuel (i + 1) (drop 1024 (x ∷ xs)))
      w

unfoldable pub send_file : (ℕ → Bool) → Io (Unit {0})
unfolding send_chunks
send_file ok w = send_chunks ok (length w.local_file) 0 w.local_file w

-- Which of the other calls succeed, in the order of the source; `chunk_sent` is asked for each chunk.
pub record ClientCalls : Type 0 where
  pub socket_made : Bool
  pub address_parsed : Bool
  pub connected : Bool
  pub file_opened : Bool
  pub size_sent : Bool
  pub chunk_sent : ℕ → Bool
  pub granted : ℤ → Bool
  pub temp_opened : Bool

unfoldable pub connect_to_server : ClientCalls → Io (Unit {0})
connect_to_server calls = do
  requires calls.socket_made
  requires calls.address_parsed
  requires calls.connected
  requires calls.file_opened
  send_size calls.size_sent
  send_file calls.chunk_sent
  recv_file_size ← receive_size
  recv_buffer ← receive_file calls.granted recv_file_size
  save_file calls.temp_opened recv_file_size recv_buffer

pub record ServerCalls : Type 0 where
  pub accepted : Bool
  pub granted : ℤ → Bool
  pub temp_opened : Bool
  pub file_opened : Bool
  pub size_sent : Bool
  pub chunk_sent : ℕ → Bool

unfoldable pub the_server : ServerCalls → Io (Unit {0})
the_server calls = do
  requires calls.accepted
  file_size ← receive_size
  buffer ← receive_file calls.granted file_size
  save_file calls.temp_opened file_size buffer
  requires calls.file_opened
  send_size calls.size_sent
  send_file calls.chunk_sent
