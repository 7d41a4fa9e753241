-- ===== src/Net/Socket/Loop.antt =====
-- The receiving loop of node_discovery: what it reads, and when it does not end.
use manhattan_group.Base.{
  ℕ, zero, suc, ◌-◌, ◌≤◌, ◌<◌, ◌≡◌, refl, ◌∙◌, ap, arith, List, [], ◌∷◌, ◌++◌, length, take, drop,
  All, length-drop, length-take, length-parts, take-split, drop-drop,
}
use manhattan_group.Net.Socket.{
  Event, arrives, breaks, complete, unfinished, behind, smaller, receive_events,
}

abbrev pub Arrives : Event → Type 0
Arrives (arrives k) = Unit
Arrives breaks = ⊥

pub smaller-le : (a b : ℕ) → smaller a b ≤ a
smaller-le a b = ground arith

pub smaller_pos : (a b : ℕ) → 0 < smaller (suc a) (suc b)
smaller_pos a b = ground arith

-- Reading `left` bytes of a stream that has them.
pub receive_events-complete :
    (events : List Event) (left : ℕ) (incoming : List ℕ)
    → All Arrives events
    → left ≤ length incoming
    → left ≤ length events
    → (later : List Event) × (receive_events events left incoming
        ≡ complete (take left incoming) (record { incoming = drop left incoming; events = later }))
unfolding receive_events
receive_events-complete events zero incoming all long enough = (events, refl)
receive_events-complete [] (suc left) incoming all long enough = absurd (omega arith)
receive_events-complete (breaks ∷ later) (suc left) incoming all long enough = absurd all.0
receive_events-complete (arrives k ∷ later) (suc left) incoming all long enough =
    let n = smaller (suc left) (suc k) in
    let size : length (take n incoming) ≡ n =
      length-take n incoming (omega (arith, smaller-le (suc left) (suc k))) in
    let (rest, e) =
      receive_events-complete later (suc left - length (take n incoming)) (drop n incoming) all.1
        (omega (arith, size, length-drop n incoming)) (omega (arith, size, smaller_pos left k)) in
    (
      rest,
      ap (behind (take n incoming)) e
          ∙ ap
              (λ j.
                complete (take n incoming ++ take (suc left - j) (drop n incoming))
                  (record { incoming = drop (suc left - j) (drop n incoming); events = rest }))
              size
          ∙ ap
              (λ xs.
                complete xs
                  (record { incoming = drop (suc left - n) (drop n incoming); events = rest }))
              (take-split n (suc left) incoming (smaller-le (suc left) (suc k)))
          ∙ ap (λ xs. complete (take (suc left) incoming) (record { incoming = xs; events = rest }))
              (drop-drop n (suc left) incoming (smaller-le (suc left) (suc k))),
    )

-- A stream that ends too early: no schedule of arrivals ends the loop.
pub receive_events-unfinished :
    (events : List Event) (left : ℕ) (incoming : List ℕ)
    → All Arrives events
    → length incoming < left
    → receive_events events left incoming ≡ unfinished
unfolding receive_events
receive_events-unfinished events zero incoming all short = absurd (omega arith)
receive_events-unfinished [] (suc left) incoming all short = refl
receive_events-unfinished (breaks ∷ later) (suc left) incoming all short = absurd all.0
receive_events-unfinished (arrives k ∷ later) (suc left) incoming all short =
    let n = smaller (suc left) (suc k) in
    ap (behind (take n incoming)) (
      receive_events-unfinished later (suc left - length (take n incoming)) (drop n incoming) all.1
        (omega (arith, length-parts n incoming)))
