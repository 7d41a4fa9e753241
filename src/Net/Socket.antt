-- ===== src/Net/Socket.antt =====
-- A connected socket, as the receiving loops of node_discovery and propagation_latency see it. What
-- the peer sends is a list of bytes, after which it closes; how a stream is cut into the results of
-- `recv` is up to the network: a list of events, one for each call.
pub mod Loop
use manhattan_group.Base.{
  ℕ, zero, suc, ◌-◌, List, [], ◌∷◌, ◌++◌, length, take, drop, ltb, if◌then◌else◌,
}

-- `arrives k`: the call returns up to k + 1 bytes, as far as it asks for so many and the stream has
-- them; none of them at the end of the stream. `breaks`: it returns a negative number.
pub data Event : Type 0 where
  arrives : ℕ → Event
  breaks : Event

pub record Socket : Type 0 where
  pub incoming : List ℕ
  pub events : List Event

-- What a call of `recv` comes back with, if it comes back.
pub data Reply : Type 0 where
  got : List ℕ → Socket → Reply
  negative : Socket → Reply
  blocked : Reply

abbrev pub smaller : ℕ → ℕ → ℕ
smaller a b = if ltb a b then a else b

-- `recv` of at most so many bytes.
unfoldable pub recv : ℕ → Socket → Reply
recv size s = elim s.events [
  | [] ↦ blocked
  | breaks ∷ later ↦ negative (record s { events = later })
  | arrives k ∷ later ↦
      let n = smaller size (suc k) in
      got (take n s.incoming) (record { incoming = drop n s.incoming; events = later })
]

-- How a loop over `recv` ends, if it ends.
pub data Received : Type 0 where
  complete : List ℕ → Socket → Received
  broken : Socket → Received
  unfinished : Received

abbrev pub behind : List ℕ → Received → Received
behind bytes (complete more s) = complete (bytes ++ more) s
behind bytes (broken s) = broken s
behind bytes unfinished = unfinished

-- `while (bytes_received < size)` in `connect_to_server` and in `the_server`, with the bytes that are
-- left and the events to come. A result of 0 is added like any other.
unfoldable pub receive_events : List Event → ℕ → List ℕ → Received
receive_events events zero incoming = complete [] (record { incoming = incoming; events = events })
receive_events [] (suc left) incoming = unfinished
receive_events (breaks ∷ later) (suc left) incoming =
    broken (record { incoming = incoming; events = later })
receive_events (arrives k ∷ later) (suc left) incoming =
    let n = smaller (suc left) (suc k) in
    let bytes = take n incoming in
    behind bytes (receive_events later (suc left - length bytes) (drop n incoming))

unfoldable pub receive : ℕ → Socket → Received
unfolding receive_events
receive size s = receive_events s.events size s.incoming
