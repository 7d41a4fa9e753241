-- ===== src/Net/Nodes/Random.antt =====
-- `get_random_node` of node_discovery/functions.h, and what the client's thread does with its result.
use manhattan_group.Base.{Bool, ◌&&◌, Option, none, some, length, ltb, if◌then◌else◌}
use manhattan_group.Net.Nodes.{NodeRow}

-- How the function ends: 0 with a row copied_row to the caller's variables; 1 with a fresh `*ip` that
-- holds nothing (or is NULL) and the others as they were; or with a text copied_row past the 16 bytes
-- of `*ip`.
pub data Chosen : Type 0 where
  chosen : NodeRow → Chosen
  unset : Chosen
  overflowed : Chosen

pub record RandomCalls : Type 0 where
  pub granted : Bool
  pub opened : Bool
  pub prepared : Bool

-- `strcpy` of a text and its end into 16 bytes.
abbrev pub copied_row : NodeRow → Chosen
copied_row row = if ltb (length row.ip) 16 then chosen row else overflowed

-- With what `sqlite3_step` comes to: a row, or none.
unfoldable pub get_random_node : RandomCalls → Option NodeRow → Chosen
get_random_node calls none = unset
get_random_node calls (some row) =
    if calls.granted && calls.opened && calls.prepared then copied_row row else unset
