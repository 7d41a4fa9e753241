-- ===== src/Net/Nodes/Meeting.antt =====
-- Two nodes of node_discovery that connect to each other: `connect_to_server` of one, `the_server` of
-- the other, and then `process_nodes_db` of the first, as the loop of `thread_client` calls them.
use manhattan_group.Base.{
  ℕ, ◌≡◌, refl, sym, ◌∙◌, ap, ◌≤◌, ◌<◌, ◌^◌, List, ◌∷◌, Option, none, some, length, All,
}
use mathlib.Core.Option.{none-ne-some}
use manhattan_group.Net.Socket.{Event, arrives}
use manhattan_group.Net.Socket.Loop.{Arrives}
use manhattan_group.Net.Io.{World, done}
use manhattan_group.Net.Exchange.{connect_to_server, the_server}
use manhattan_group.Net.Exchange.Whole.{
  client_well, server_well, before, connect_to_server-the_server,
}
use manhattan_group.Net.Nodes.{NodeRow, Address, NodeStore, IsLawful, process_nodes_db, first_of}
use manhattan_group.Net.Nodes.Merge.{all_well, find_row, process_nodes_db_lem}

-- Both are missing, or neither is.
abbrev pub SameKnown {ℓ} : {A : Type ℓ} → Option A → Option A → Type ℓ
SameKnown o p = (o ≡ none → p ≡ none) × (p ≡ none → o ≡ none)

first_of-left {ℓ} : {A : Type ℓ} (o p : Option A) → first_of o p ≡ none → o ≡ none
first_of-left none p e = refl
first_of-left (some m) p e = absurd (none-ne-some m (sym e))

first_of-right {ℓ} : {A : Type ℓ} (o p : Option A) → first_of o p ≡ none → p ≡ none
first_of-right none p e = e
first_of-right (some m) p e = absurd (none-ne-some m (sym e))

both_none {ℓ} : {A : Type ℓ} (o p : Option A) → o ≡ none → p ≡ none → first_of o p ≡ none
both_none o p e f = ap (λ x. first_of x p) e ∙ f

swapped_known {ℓ} : {A : Type ℓ} (o p : Option A) → SameKnown (first_of o p) (first_of p o)
swapped_known o p = (
  λ e. both_none p o (first_of-right o p e) (first_of-left o p e),
  λ e. both_none o p (first_of-right p o e) (first_of-left p o e),
)

first_of_again {ℓ} : {A : Type ℓ} (o p : Option A) → first_of p (first_of o p) ≡ first_of p o
first_of_again o (some m) = refl
first_of_again none none = refl
first_of_again (some n) none = refl

-- A network that gives the 4 bytes of a size at once, and then enough events for `n` bytes.
abbrev pub Carries : ℕ → List Event → ℕ → Type 0
Carries first events n = (3 ≤ first) × All Arrives events × (n ≤ length events)

module _ (S : NodeStore) (rows_of : List ℕ → List NodeRow) (file_of : S.State → List ℕ) where
  pub record Peer : Type 0 where
    pub table : S.State
    pub temp : Option (List ℕ)

  -- SQLite reads the file of a table as that table.
  abbrev pub Reads : S.State → Type 0
  Reads s = (a : Address) → find_row (rows_of (file_of s)) a ≡ S.entry s a

  -- The table of a node that has met one with table `t`.
  abbrev pub merged : S.State → S.State → S.State
  merged s t = (process_nodes_db S rows_of all_well s (some (file_of t))).1.0

  -- `u` connects to `v` and processes what it received; what each gets is what the other sends.
  pub record Meets (u v : Peer) (es fs : List Event) (u' v' : Peer) : Type 0 where
    pub client : World
    pub server : World
    pub connected :
        connect_to_server client_well (before (file_of u.table) u.temp server.sent es)
        ≡ done tt client
    pub served :
        the_server server_well (before (file_of v.table) v.temp client.sent fs) ≡ done tt server
    pub processed :
        process_nodes_db S rows_of all_well u.table client.temp_file ≡ (0, (u'.table, u'.temp))
    pub kept : v' ≡ record { table = v.table; temp = server.temp_file }

module _ (S : NodeStore) (L : IsLawful S) (rows_of : List ℕ → List NodeRow)
    (file_of : S.State → List ℕ) where
  -- The two nodes after `u` has met `v`, as client and as server.
  abbrev pub client_node : Peer S rows_of file_of → Peer S rows_of file_of → Peer S rows_of file_of
  client_node u v = record { table = merged S rows_of file_of u.table v.table; temp = none }

  abbrev pub server_node : Peer S rows_of file_of → Peer S rows_of file_of → Peer S rows_of file_of
  server_node u v = record { table = v.table; temp = some (file_of u.table) }

  -- The two of them do meet.
  meeting :
      (u v : Peer S rows_of file_of) (i j : ℕ) (es fs : List Event)
      → length (file_of u.table) < 2 ^ 31
      → length (file_of v.table) < 2 ^ 31
      → Carries i es (length (file_of v.table))
      → Carries j fs (length (file_of u.table))
      → Meets S rows_of file_of u v
          (arrives i ∷ es)
          (arrives j ∷ fs)
          (client_node u v)
          (server_node u v)
  meeting u v i j es fs small_u small_v (first_i, all_es, enough_v) (first_j, all_fs, enough_u) =
      let (client, server, connected, served, saved, saved', kept, kept') =
        connect_to_server-the_server (file_of u.table) (file_of v.table) u.temp v.temp i j es fs
          small_u small_v first_i first_j all_es all_fs enough_v enough_u in
      let (t, result, entries) = process_nodes_db_lem S L rows_of u.table (file_of v.table) in
      record {
        client = client;
        server = server;
        connected = connected;
        served = served;
        processed =
            ap (process_nodes_db S rows_of all_well u.table) saved
            ∙ result
            ∙ ap (λ (x : S.State). (0, (x, none))) (sym (ap (λ r. r.1.0) result));
        kept = ap (λ x. record { table = v.table; temp = x }) (sym saved');
      }

  merged-entry :
      (s t : S.State) (a : Address)
      → Reads S rows_of file_of t
      → S.entry (merged S rows_of file_of s t) a ≡ first_of (S.entry s a) (S.entry t a)
  merged-entry s t a reads =
      let (x, result, entries) = process_nodes_db_lem S L rows_of s (file_of t) in
      ap (λ r. S.entry (r.1.0) a) result ∙ entries a ∙ ap (first_of (S.entry s a)) (reads a)

  -- `u` connects to `v`, and then `v` to `u`, where SQLite reads the files of `v`'s table and of the
  -- merged one back as those tables, the three files are below 2 ^ 31 bytes, the calls succeed, and
  -- the network carries each file. Both meetings take place. Then `u` has each entry that it had,
  -- and for the other addresses that of `v`; `v` has each entry that it had, and for the others that
  -- of `u`; so the two know the same addresses.
  pub meetings-SameKnown :
      (u v : Peer S rows_of file_of) (i j k l : ℕ) (es fs gs hs : List Event)
      → Reads S rows_of file_of v.table
      → Reads S rows_of file_of (merged S rows_of file_of u.table v.table)
      → length (file_of u.table) < 2 ^ 31
      → length (file_of v.table) < 2 ^ 31
      → length (file_of (merged S rows_of file_of u.table v.table)) < 2 ^ 31
      → Carries i es (length (file_of v.table))
      → Carries j fs (length (file_of u.table))
      → Carries k gs (length (file_of (merged S rows_of file_of u.table v.table)))
      → Carries l hs (length (file_of v.table))
      → let u' = client_node u v in
        let v' = server_node u v in
        let last_u = server_node v' u' in
        let last_v = client_node v' u' in
        Meets S rows_of file_of u v (arrives i ∷ es) (arrives j ∷ fs) u' v'
        × Meets S rows_of file_of v' u' (arrives k ∷ gs) (arrives l ∷ hs) last_v last_u
        × ((a : Address)
            → (S.entry last_u.table a ≡ first_of (S.entry u.table a) (S.entry v.table a))
              × (S.entry last_v.table a ≡ first_of (S.entry v.table a) (S.entry u.table a))
              × SameKnown (S.entry last_u.table a) (S.entry last_v.table a))
  meetings-SameKnown u v i j k l es fs gs hs reads_v reads_u small_u small_v small_merged first
        second third fourth =
      (
        meeting u v i j es fs small_u small_v first second,
        meeting (server_node u v) (client_node u v) k l gs hs small_v small_merged third fourth,
        λ a.
            let o = S.entry u.table a in
            let p = S.entry v.table a in
            let of_u = merged-entry u.table v.table a reads_v in
            let of_v =
              merged-entry v.table (merged S rows_of file_of u.table v.table) a reads_u
              ∙ ap (first_of p) of_u
              ∙ first_of_again o p in
            (of_u, of_v, rw (of_u, of_v) (swapped_known o p)),
      )
