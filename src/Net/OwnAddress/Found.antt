-- ===== src/Net/OwnAddress/Found.antt =====
-- A round of `thread_tasks` of node_discovery in which its calls succeed.
use mathlib.Core.List.{append_assoc, append-nil}
use manhattan_group.Base.{
  ℕ, zero, suc, ◌+◌, ◌-◌, ◌≤◌, ◌<◌, ◌≡◌, refl, sym, ◌∙◌, ap, true, List, [], ◌∷◌, ◌++◌, length,
  take, drop, some, ltb, leb, ◌==◌, ◌&&◌, if◌then◌else◌, All, All-take, All-drop, length-append,
  length-take, length-drop, length-parts, length-take_le, take-append-drop, arith,
}
use manhattan_group.Chain.Text.{IsNonzero}
use manhattan_group.Net.Socket.{Event, arrives, breaks, smaller}
use manhattan_group.Net.Nodes.{NodeStore, insert_node}
use manhattan_group.Net.Nodes.Threads.{port_number}
use manhattan_group.Net.OwnAddress.{
  text, undefined, until_zero, recv_size, myip_buffer, receive_text, WebCalls, get_public_ip, Match,
  found, part, extract_ipv4, tasks_round,
}

until_zero-all : (bytes : List ℕ) → All IsNonzero bytes → until_zero bytes ≡ bytes
until_zero-all [] h = refl
until_zero-all (zero ∷ bytes) h = absurd (omega (arith, h.0))
until_zero-all (suc x ∷ bytes) h = ap (λ xs. suc x ∷ xs) (until_zero-all bytes h.1)

-- A string in memory.
pub until_zero-text :
    (word rest : List ℕ) → All IsNonzero word → until_zero (word ++ 0 ∷ rest) ≡ word
until_zero-text [] rest h = refl
until_zero-text (zero ∷ word) rest h = absurd (omega (arith, h.0))
until_zero-text (suc c ∷ word) rest h = ap (λ xs. suc c ∷ xs) (until_zero-text word rest h.1)

-- A call that returns less than the buffer holds.
abbrev pub Small : Event → Type 0
Small (arrives k) = suc k < myip_buffer
Small breaks = ⊥

small_size : (k : ℕ) → suc k < myip_buffer → smaller recv_size (suc k) ≡ suc k
small_size k h = ground arith

-- A round with a chunk that is not empty and fits.
chunk_added :
    (later : List Event) (response bytes rest : List ℕ)
    → 0 < length bytes
    → length bytes < myip_buffer
    → All IsNonzero bytes
    → (if length bytes == 0
        then text response
        else if ltb (length bytes) myip_buffer
            && leb (length (response ++ until_zero bytes)) (length response + length bytes)
        then receive_text later (response ++ until_zero bytes) (length response + length bytes) rest
        else undefined)
      ≡ receive_text later (response ++ bytes) (length (response ++ bytes)) rest
chunk_added later response bytes rest some_bytes fits nonzero =
    rw (until_zero-all bytes nonzero, length-append response bytes) (ground arith)

receive_text_lem :
    (events : List Event) (response incoming : List ℕ)
    → All Small events
    → All IsNonzero incoming
    → length incoming < length events
    → receive_text events response (length response) incoming ≡ text (response ++ incoming)
unfolding receive_text
receive_text_lem [] response incoming small nonzero enough = absurd (omega arith)
receive_text_lem (breaks ∷ later) response incoming small nonzero enough = absurd small.0
receive_text_lem (arrives k ∷ later) response [] small nonzero enough =
    rw (small_size k small.0) (ap text (sym (append-nil response)))
receive_text_lem (arrives k ∷ later) response (x ∷ xs) small nonzero enough =
    let bytes = take (suc k) (x ∷ xs) in
    let later_bytes = drop (suc k) (x ∷ xs) in
    let size : length bytes + length later_bytes ≡ length (x ∷ xs) =
      length-parts (suc k) (x ∷ xs) in
    rw (small_size k small.0) (
      chunk_added later response bytes later_bytes (omega arith)
        (omega (arith, small.0, length-take_le k xs)) (All-take IsNonzero (suc k) (x ∷ xs) nonzero)
      ∙ receive_text_lem later (response ++ bytes) later_bytes small.1
          (All-drop IsNonzero (suc k) (x ∷ xs) nonzero) (omega (arith, size))
      ∙ ap text (
          append_assoc response bytes later_bytes
          ∙ ap (λ ys. response ++ ys) (take-append-drop (suc k) (x ∷ xs))))

-- What the pattern of `extract_ipv4` matches: four groups of one to three digits, with dots between.
abbrev pub IsDigit : ℕ → Type 0
IsDigit c = (48 ≤ c) × (c ≤ 57)

abbrev pub IsGroup : List ℕ → Type 0
IsGroup w = All IsDigit w × (1 ≤ length w) × (length w ≤ 3)

pub record IsDotted (w : List ℕ) : Type 0 where
  pub a : List ℕ
  pub b : List ℕ
  pub c : List ℕ
  pub d : List ℕ
  pub groups : IsGroup a × IsGroup b × IsGroup c × IsGroup d
  pub is_joined : w ≡ a ++ 46 ∷ (b ++ 46 ∷ (c ++ 46 ∷ d))

pub IsDotted-short : (w : List ℕ) → IsDotted w → length w < 16
IsDotted-short w D =
    let (ga, gb, gc, gd) = D.groups in
    omega (
      arith,
      ap length D.is_joined,
      length-append D.a (46 ∷ (D.b ++ 46 ∷ (D.c ++ 46 ∷ D.d))),
      length-append D.b (46 ∷ (D.c ++ 46 ∷ D.d)),
      length-append D.c (46 ∷ D.d),
      ga.2,
      gb.2,
      gc.2,
      gd.2,
    )

abbrev pub web_well : WebCalls
web_well = record { resolved = true; socket_made = true; connected = true; request_sent = true }

module _ (S : NodeStore) where
  -- Where `malloc` gives memory that begins with a zero, every call succeeds, the answer of the
  -- service has no zero byte and comes in parts below 1024 bytes, and `regexec` finds a part of it of
  -- the form of the pattern: a round of `thread_tasks` inserts that part with port 5001, and the
  -- part and its end fit into the 16 bytes of the copy.
  pub tasks_round_lem :
      (regexec : List ℕ → Match) (answer : List ℕ) (events : List Event) (from to : ℕ) (s : S.State)
      → All Small events
      → All IsNonzero answer
      → length answer < length events
      → regexec answer ≡ found from to
      → from ≤ to
      → to ≤ length answer
      → IsDotted (part from to answer)
      → (tasks_round S regexec web_well
            (some [])
            (record { incoming = answer; events = events })
            true
            true
            true
            s
          ≡ some ((insert_node S true true s (part from to answer) port_number).1))
        × (length (part from to answer) < 16)
  unfolding tasks_round get_public_ip extract_ipv4
  tasks_round_lem regexec answer events from to s small nonzero enough matched ordered inside
        dotted =
      let fits = IsDotted-short (part from to answer) dotted in
      let size : length (part from to answer) ≡ to - from =
        length-take (to - from) (drop from answer) (omega (arith, length-drop from answer)) in
      let below : ltb (to - from) 16 ≡ true = ground (arith, size) in
      let clean : until_zero (part from to answer) ≡ part from to answer =
        until_zero-all (part from to answer) (
          All-take IsNonzero (to - from) (drop from answer)
            (All-drop IsNonzero from answer nonzero)) in
      (
        rw (receive_text_lem events [] answer small nonzero enough, matched, below, clean) refl,
        fits,
      )
