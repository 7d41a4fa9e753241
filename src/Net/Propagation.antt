-- ===== src/Net/Propagation.antt =====
-- propagation_latency/functions.h: the nodes of a table, and a message to and from each of them.
pub mod Message
pub mod Main
use manhattan_group.Base.{
  ℕ, zero, suc, ◌+◌, ◌-◌, Bool, true, false, not, ◌&&◌, ◌||◌, List, [], ◌∷◌, ◌++◌, length, take,
  drop, get_elem?, set, Option, none, some, ltb, ◌==◌, if◌then◌else◌,
}
use manhattan_group.Base.{ℤ, pos, negsuc}
use manhattan_group.Net.Socket.{Event, arrives, breaks, Socket, smaller}

-- An element of the array; `none` is a field that was never written.
pub record Node : Type 0 where
  pub ip : Option (List ℕ)
  pub port : Option ℤ
  pub sockfd : Option ℤ
  pub status : Option ℤ

-- What `malloc` gives.
abbrev pub fresh_node : Node
fresh_node = record { ip = none; port = none; sockfd = none; status = none }

-- A query of SQLite: whether it can be opened and prepared, the rows, and whether it ends well.
pub record Query {ℓ} (Row : Type ℓ) : Type ℓ where
  pub opened : Bool
  pub prepared : Bool
  pub rows : List Row
  pub ended : Bool

-- `get_node_count`: the number in the first row, or a return of 1.
unfoldable pub get_node_count : Query ℤ → Option ℤ
get_node_count q =
    if q.opened && q.prepared then elim q.rows [ [] ↦ none | count ∷ more ↦ some count ] else none

abbrev pub put_before : Node → Option (List Node) → Option (List Node)
put_before node none = none
put_before node (some nodes) = some (node ∷ nodes)

-- The loop of `get_nodes` over the rows, with the array from `nodes[i]` on: `none` where it writes
-- past the array or past the 16 bytes of a text.
unfoldable pub fill_nodes : List (List ℕ × ℤ) → List Node → Option (List Node)
fill_nodes [] nodes = some nodes
fill_nodes (row ∷ rows) [] = none
fill_nodes ((ip, port) ∷ rows) (node ∷ nodes) =
    let rest = fill_nodes rows nodes in
    if ltb (length ip) 16
    then put_before (record node { ip = some ip; port = some port }) rest
    else none

pub data Filled : Type 0 where
  filled : List Node → Filled
  fails : Filled
  overflows : Filled

abbrev pub filled_if : Bool → Option (List Node) → Filled
filled_if ended none = overflows
filled_if true (some nodes) = filled nodes
filled_if false (some nodes) = fails

unfoldable pub get_nodes : Query (List ℕ × ℤ) → List Node → Filled
unfolding fill_nodes
get_nodes q nodes =
    if q.opened && q.prepared then filled_if q.ended (fill_nodes q.rows nodes) else fails

-- What the calls of `connect_to_server` and of `send_message` come to.
pub record ConnectCalls : Type 0 where
  pub socket_made : ℤ
  pub flags_got : Bool
  pub flags_set : Bool
  pub address_parsed : Bool
  pub connected : Bool
  pub in_progress : Bool
  pub bytes_sent : Option ℕ

abbrev pub is_negative : ℤ → Bool
is_negative (pos n) = false
is_negative (negsuc n) = true

-- The code, and the node after it.
unfoldable pub connect_to_server : ConnectCalls → Node → ℕ × Node
connect_to_server calls node =
    let opened = record node { sockfd = some calls.socket_made } in
    if is_negative calls.socket_made
      || not (calls.flags_got && calls.flags_set && calls.address_parsed)
    then (1, opened)
    else if calls.connected || calls.in_progress
    then (0, record opened { status = some (pos 1) })
    else (1, opened)

-- The code, and what went out: `send` may take less than it is given.
unfoldable pub send_message : ConnectCalls → List ℕ → ℕ × List ℕ
send_message calls message = elim calls.bytes_sent [ none ↦ (1, []) | some n ↦ (0, take n message) ]

-- What `select` comes to.
pub data Ready : Type 0 where
  select_fails : Ready
  timeout : Ready
  readable : Ready

-- A return with a code, the status that the node is given if it is given one, and the bytes that
-- were put into `message`. The socket is not blocking: where nothing is there, `recv` `breaks`.
pub data Answer : Type 0 where
  returns : ℕ → Option ℤ → List ℕ → Answer
  unfinished : Answer

-- The loop over `recv`, with the bytes that are left and those that were received.
unfoldable pub receive_rest : List Event → ℕ → List ℕ → List ℕ → Answer
receive_rest events zero received incoming = returns 0 none received
receive_rest [] (suc left) received incoming = unfinished
receive_rest (breaks ∷ later) (suc left) received incoming = returns 1 none received
receive_rest (arrives k ∷ later) (suc left) received incoming =
    let n = smaller (suc left) (suc k) in
    let bytes = take n incoming in
    let rest = receive_rest later (suc left - length bytes) (received ++ bytes) (drop n incoming) in
    if length bytes == 0 then returns 3 (some (pos 0)) received else rest

unfoldable pub receive_message : Ready → Socket → ℕ → Answer
unfolding receive_rest
receive_message select_fails s message_length = returns 1 none []
receive_message timeout s message_length = returns 2 none []
receive_message readable s message_length = receive_rest s.events message_length [] s.incoming
