-- ===== src/Net/Propagation/Main.antt =====
-- `main` of propagation_latency/propagation.c.
pub mod Reports
use manhattan_group.Base.{
  ℕ, zero, suc, ◌+◌, ◌==◌, Bool, true, false, List, [], ◌∷◌, Option, none, some, length,
  if◌then◌else◌,
}
use manhattan_group.Base.{ℤ, pos, negsuc}
use manhattan_group.Net.Socket.{Socket}
use manhattan_group.Net.OwnAddress.{until_zero}
use manhattan_group.Net.Propagation.{
  Node, fresh_node, Query, get_node_count, Filled, filled, fails, overflows, get_nodes,
  ConnectCalls, connect_to_server, send_message, Ready, Answer, returns, unfinished,
  receive_message,
}

abbrev pub max_message_length : ℕ
max_message_length = 1024

-- "AM/PM Wake up!"
abbrev pub wake_up : List ℕ
wake_up = 65 ∷ 77 ∷ 47 ∷ 80 ∷ 77 ∷ 32 ∷ 87 ∷ 97 ∷ 107 ∷ 101 ∷ 32 ∷ 117 ∷ 112 ∷ 33 ∷ []

-- What is printed for a node in the last loop.
pub data Line : Type 0 where
  received_message : List ℕ → Line
  timeout_occurred : Line
  connection_closed : Line
  error_receiving : Line

pub data Run {ℓ} (A : Type ℓ) : Type ℓ where
  returns_0 : A → Run A
  returns_1 : Run A
  waits : Run A
  undefined : Run A

-- What the two calls for a node of the second loop do: the node after them.
abbrev pub reach_out : ConnectCalls → Node → Node
reach_out calls node = (connect_to_server calls node).1

unfoldable pub connect_all : (ℕ → ConnectCalls) → ℕ → List Node → List Node
connect_all calls i [] = []
connect_all calls i (node ∷ nodes) = reach_out (calls i) node ∷ connect_all calls (i + 1) nodes

-- What goes out to the nodes.
abbrev pub sent_to : ConnectCalls → Node → List ℕ
sent_to calls node =
    if (connect_to_server calls node).0 == 0 then (send_message calls wake_up).1 else []

unfoldable pub send_all : (ℕ → ConnectCalls) → ℕ → List Node → List (List ℕ)
send_all calls i [] = []
send_all calls i (node ∷ nodes) = sent_to (calls i) node ∷ send_all calls (i + 1) nodes

-- `%s` of the full buffer ends at its first zero; without one it reads past it.
abbrev pub print_message : List ℕ → Run Line
print_message bytes =
    if length (until_zero bytes) == max_message_length
    then undefined
    else returns_0 (received_message (until_zero bytes))

abbrev pub print_answer : Answer → Run Line
print_answer (returns rc status bytes) =
    if rc == 0
    then print_message bytes
    else if rc == 2
    then returns_0 timeout_occurred
    else if rc == 3
    then returns_0 connection_closed
    else returns_0 error_receiving
print_answer unfinished = waits

abbrev pub line_before : Run Line → Run (List Line) → Run (List Line)
line_before (returns_0 line) (returns_0 lines) = returns_0 (line ∷ lines)
line_before (returns_0 line) returns_1 = returns_1
line_before (returns_0 line) waits = waits
line_before (returns_0 line) undefined = undefined
line_before returns_1 rest = returns_1
line_before waits rest = waits
line_before undefined rest = undefined

-- A round of the third loop: a status that was never written decides a branch.
abbrev pub visit : Option ℤ → Run Line → Run (List Line) → Run (List Line)
visit none line rest = undefined
visit (some (pos zero)) line rest = rest
visit (some (pos (suc n))) line rest = line_before line rest
visit (some (negsuc n)) line rest = line_before line rest

unfoldable pub receive_all : (ℕ → Ready) → (ℕ → Socket) → ℕ → List Node → Run (List Line)
receive_all ready sockets i [] = returns_0 []
receive_all ready sockets i (node ∷ nodes) =
    visit node.status (print_answer (receive_message (ready i) (sockets i) max_message_length))
      (receive_all ready sockets (i + 1) nodes)

-- The echo prints the text and the port of every element of the array.
unfoldable pub are_written : List Node → Bool
are_written [] = true
are_written (node ∷ nodes) = elim node.ip [ none ↦ false | some ip ↦ are_written nodes ]

abbrev pub repeat_node : ℕ → List Node
repeat_node zero = []
repeat_node (suc n) = fresh_node ∷ repeat_node n

pub record World : Type 0 where
  pub count : Query ℤ
  pub granted : Bool
  pub nodes : Query (List ℕ × ℤ)
  pub connects : ℕ → ConnectCalls
  pub ready : ℕ → Ready
  pub sockets : ℕ → Socket

-- From the array on.
abbrev pub run_filled : World → Filled → Run (List Line)
run_filled w (filled nodes) =
    if are_written nodes
    then receive_all w.ready w.sockets 0 (connect_all w.connects 0 nodes)
    else undefined
run_filled w fails = returns_1
run_filled w overflows = undefined

-- A negative count is a size that `malloc` refuses.
abbrev pub run_counted : World → Option ℤ → Run (List Line)
run_counted w none = returns_1
run_counted w (some (negsuc n)) = returns_1
run_counted w (some (pos n)) =
    if w.granted then run_filled w (get_nodes w.nodes (repeat_node n)) else returns_1

unfoldable pub run_main : World → Run (List Line)
unfolding receive_all connect_all are_written get_node_count get_nodes
run_main w = run_counted w (get_node_count w.count)
