-- ===== src/Net/OwnAddress.antt =====
-- How a node of node_discovery finds its own address: `get_public_ip` and `extract_ipv4` of
-- node_discovery/functions.h, and a round of `thread_tasks` of node_discovery/node_discovery.c.
pub mod Found
use manhattan_group.Base.{
  ℕ, zero, suc, ◌+◌, ◌-◌, ◌*◌, ◌%◌, Bool, true, false, List, [], ◌∷◌, ◌++◌, length, take, drop,
  get_elem?, Option, none, some, ltb, leb, ◌==◌, ◌&&◌, if◌then◌else◌,
}
use manhattan_group.Net.Socket.{Event, arrives, breaks, Socket, smaller}
use manhattan_group.Net.Nodes.{NodeStore, insert_node}
use manhattan_group.Net.Nodes.Threads.{port_number}

-- How a function ends: NULL; a text; or, for `undefined`, a write or read outside of a buffer. A
-- receiving loop whose peer is silent does not end.
pub data Text : Type 0 where
  null : Text
  text : List ℕ → Text
  never_ends : Text
  undefined : Text

-- A C string in bytes: what stands before the first zero.
abbrev pub until_zero : List ℕ → List ℕ
until_zero [] = []
until_zero (zero ∷ bytes) = []
until_zero (suc x ∷ bytes) = suc x ∷ until_zero bytes

-- `BUFFER_SIZE - 1`, what `recv` is asked for, and `MYIP_BUFFER`, the size of the buffer.
abbrev pub recv_size : ℕ
recv_size = 2 * 1024 * 1024 - 1

abbrev pub myip_buffer : ℕ
myip_buffer = 1024

-- The loop over `recv`: the events to come, the text of `response` and `response_length`. A chunk and
-- its end have to fit into `buffer`, and the text and its end into what `realloc` gives.
unfoldable pub receive_text : List Event → List ℕ → ℕ → List ℕ → Text
receive_text [] response response_length incoming = never_ends
receive_text (breaks ∷ later) response response_length incoming = null
receive_text (arrives k ∷ later) response response_length incoming =
    let n = smaller recv_size (suc k) in
    let bytes = take n incoming in
    let size = response_length + length bytes in
    let longer = response ++ until_zero bytes in
    let rest = receive_text later longer size (drop n incoming) in
    if length bytes == 0
    then text response
    else if ltb (length bytes) myip_buffer && leb (length longer) size
    then rest
    else undefined

pub record WebCalls : Type 0 where
  pub resolved : Bool
  pub socket_made : Bool
  pub connected : Bool
  pub request_sent : Bool

-- `fresh` is the text that the memory from `malloc` happens to begin with, if it has an end.
unfoldable pub get_public_ip : WebCalls → Option (List ℕ) → Socket → Text
unfolding receive_text
get_public_ip calls none s = undefined
get_public_ip calls (some fresh) s =
    if calls.resolved && calls.socket_made && calls.connected && calls.request_sent
    then receive_text s.events fresh 0 s.incoming
    else null

-- What `regexec` finds: where the match begins and ends, that there is none, or that it fails.
pub data Match : Type 0 where
  found : ℕ → ℕ → Match
  no_match : Match
  match_fails : Match

abbrev pub part : ℕ → ℕ → List ℕ → List ℕ
part from to str = take (to - from) (drop from str)

-- The copy of the match into 16 bytes; `malloc` is taken to succeed.
abbrev pub copy_match : List ℕ → Match → Text
copy_match str (found from to) =
    if ltb (to - from) 16 then text (until_zero (part from to str)) else undefined
copy_match str no_match = null
copy_match str match_fails = null

-- With `compiled` whether `regcomp` succeeds or had succeeded.
unfoldable pub extract_ipv4 : (List ℕ → Match) → Bool → Text → Text
extract_ipv4 regexec false str = null
extract_ipv4 regexec true (text str) = copy_match str (regexec str)
extract_ipv4 regexec true null = undefined
extract_ipv4 regexec true never_ends = never_ends
extract_ipv4 regexec true undefined = undefined

module _ (S : NodeStore) where
  -- A round of `thread_tasks`: the text is printed and put into a statement, NULL or not.
  abbrev pub insert_own : Bool → Bool → S.State → Text → Option S.State
  insert_own opened executed s (text ip) = some ((insert_node S opened executed s ip port_number).1)
  insert_own opened executed s null = none
  insert_own opened executed s never_ends = none
  insert_own opened executed s undefined = none

  -- The table after a round that ends and is defined.
  unfoldable pub tasks_round :
      (List ℕ → Match)
      → WebCalls
      → Option (List ℕ)
      → Socket
      → Bool
      → Bool
      → Bool
      → S.State
      → Option S.State
  unfolding extract_ipv4 get_public_ip
  tasks_round regexec calls fresh socket compiled opened executed s =
      insert_own opened executed s
        (extract_ipv4 regexec compiled (get_public_ip calls fresh socket))
