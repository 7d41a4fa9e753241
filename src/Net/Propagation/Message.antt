-- ===== src/Net/Propagation/Message.antt =====
-- `receive_message` of propagation_latency/functions.h.
use mathlib.Core.Path.{subst}
use mathlib.Core.List.{append_assoc, append-nil}
use manhattan_group.Base.{
  ℕ, zero, suc, ◌-◌, ◌≤◌, ◌<◌, ◌≡◌, refl, sym, ◌∙◌, ap, ◌⊎◌, inl, inr, false, List, [], ◌∷◌, ◌++◌,
  length, take, drop, Option, none, some, ◌==◌, if◌then◌else◌, length-append, length-take_le,
  take-append-drop, take-nil, All, arith,
}
use manhattan_group.Base.{ℤ, pos}
use manhattan_group.Net.Socket.{Event, arrives, breaks, Socket, smaller}
use manhattan_group.Net.Socket.Loop.{Arrives, smaller-le, smaller_pos}
use manhattan_group.Net.Propagation.{
  readable, Answer, returns, unfinished, receive_rest, receive_message,
}

-- What an answer says of the stream and of the events that there were, where some bytes had been
-- received and some were left.
pub data Explained (events : List Event) (incoming received : List ℕ) (left : ℕ)
    : Answer → Type 0 where
  all_received :
      (bytes later : List ℕ)
      → incoming ≡ bytes ++ later
      → length bytes ≡ left
      → Explained events incoming received left (returns 0 none (received ++ bytes))
  fails_after :
      (bytes later : List ℕ)
      → incoming ≡ bytes ++ later
      → length bytes < left
      → ¬ All Arrives events
      → Explained events incoming received left (returns 1 none (received ++ bytes))
  closed_after :
      length incoming < left
      → Explained events incoming received left (returns 3 (some (pos 0)) (received ++ incoming))
  goes_on : length events ≤ length incoming → Explained events incoming received left unfinished

-- A round that brings some bytes.
Explained-more :
    (event : Event) (later : List Event) (left : ℕ) (received bytes rest : List ℕ) (answer : Answer)
    → 0 < length bytes
    → length bytes ≤ left
    → Explained later rest (received ++ bytes) (left - length bytes) answer
    → Explained (event ∷ later) (bytes ++ rest) received left answer
Explained-more event later left received bytes rest _ some_bytes fits
      (all_received more after e size) =
    subst (λ xs. Explained (event ∷ later) (bytes ++ rest) received left (returns 0 none xs))
      (sym (append_assoc received bytes more))
      (all_received (bytes ++ more) after
        (ap (λ xs. bytes ++ xs) e ∙ sym (append_assoc bytes more after))
        (omega (arith, length-append bytes more, size)))
Explained-more event later left received bytes rest _ some_bytes fits
      (fails_after more after e size broke) =
    subst (λ xs. Explained (event ∷ later) (bytes ++ rest) received left (returns 1 none xs))
      (sym (append_assoc received bytes more))
      (fails_after (bytes ++ more) after
        (ap (λ xs. bytes ++ xs) e ∙ sym (append_assoc bytes more after))
        (omega (arith, length-append bytes more, size)) (λ all. broke all.1))
Explained-more event later left received bytes rest _ some_bytes fits (closed_after short) =
    subst
      (λ xs. Explained (event ∷ later) (bytes ++ rest) received left (returns 3 (some (pos 0)) xs))
      (sym (append_assoc received bytes rest))
      (closed_after (omega (arith, length-append bytes rest, short)))
Explained-more event later left received bytes rest _ some_bytes fits (goes_on few) =
    goes_on (omega (arith, length-append bytes rest, few))

suc_nonzero : (m : ℕ) → (suc m == 0) ≡ false
suc_nonzero m = ground arith

-- A call that gets up to n bytes of a stream that has some.
Explained-arrival :
    (k n left : ℕ) (later : List Event) (received : List ℕ) (x : ℕ) (xs : List ℕ)
    → ((m : ℕ) (got left_over : List ℕ)
        → Explained later left_over got m (receive_rest later m got left_over))
    → 0 < n
    → n ≤ suc left
    → Explained (arrives k ∷ later) (x ∷ xs) received (suc left) (
        if length (take n (x ∷ xs)) == 0
        then returns 3 (some (pos 0)) received
        else receive_rest later
            (suc left - length (take n (x ∷ xs)))
            (received ++ take n (x ∷ xs))
            (drop n (x ∷ xs)))
Explained-arrival k zero left later received x xs ih h fits = absurd (omega arith)
Explained-arrival k (suc n) left later received x xs ih h fits =
    let bytes = x ∷ take n xs in
    let answer = receive_rest later (suc left - length bytes) (received ++ bytes) (drop n xs) in
    rw (suc_nonzero (length (take n xs))) (
      subst (λ ys. Explained (arrives k ∷ later) ys received (suc left) answer)
        (take-append-drop (suc n) (x ∷ xs))
        (Explained-more (arrives k) later (suc left) received bytes (drop n xs) answer (omega arith)
          (omega (arith, length-take_le n xs))
          (ih (suc left - length bytes) (received ++ bytes) (drop n xs))))

receive_rest_lem :
    (events : List Event) (left : ℕ) (received incoming : List ℕ)
    → Explained events incoming received left (receive_rest events left received incoming)
unfolding receive_rest
receive_rest_lem events zero received incoming =
    subst (λ xs. Explained events incoming received 0 (returns 0 none xs)) (append-nil received)
      (all_received [] incoming refl refl)
receive_rest_lem [] (suc left) received incoming = goes_on (omega arith)
receive_rest_lem (breaks ∷ later) (suc left) received incoming =
    subst (λ xs. Explained (breaks ∷ later) incoming received (suc left) (returns 1 none xs))
      (append-nil received) (fails_after [] incoming refl (omega arith) (λ all. absurd all.0))
receive_rest_lem (arrives k ∷ later) (suc left) received [] =
    rw (take-nil {A = ℕ} (smaller (suc left) (suc k))) (
      subst
        (λ xs. Explained (arrives k ∷ later) [] received (suc left) (returns 3 (some (pos 0)) xs))
        (append-nil received) (closed_after (omega arith)))
receive_rest_lem (arrives k ∷ later) (suc left) received (x ∷ xs) =
    Explained-arrival k (smaller (suc left) (suc k)) left later received x xs
      (receive_rest_lem later) (smaller_pos left k) (smaller-le (suc left) (suc k))

-- What `receive_message` says on every schedule, once `select` says that the socket is readable.
pub receive_message_lem :
    (s : Socket) (message_length : ℕ)
    → Explained s.events s.incoming [] message_length (receive_message readable s message_length)
unfolding receive_message
receive_message_lem s message_length = receive_rest_lem s.events message_length [] s.incoming

-- On every schedule that has an event more than the stream has bytes, `receive_message` returns; and
-- if the peer sends fewer bytes than `message_length`, it returns 1 or 3, never 0.
pub receive_message_short :
    (s : Socket) (message_length : ℕ)
    → length s.incoming < length s.events
    → length s.incoming < message_length
    → (rc : ℕ) × (status : Option ℤ) × (bytes : List ℕ) × (receive_message readable s message_length
        ≡ returns rc status bytes)
      × ((rc ≡ 1) ⊎ (rc ≡ 3))
receive_message_short s message_length enough short =
    read_off (receive_message readable s message_length) (receive_message_lem s message_length)
  where
    read_off :
        (answer : Answer)
        → Explained s.events s.incoming [] message_length answer
        → (rc : ℕ) × (status : Option ℤ) × (bytes : List ℕ) × (answer ≡ returns rc status bytes)
          × ((rc ≡ 1) ⊎ (rc ≡ 3))
    read_off _ (all_received bytes later e size) =
        absurd (omega (arith, ap length e, length-append bytes later))
    read_off _ (fails_after bytes later e size broke) = (1, none, bytes, refl, inl refl)
    read_off _ (closed_after fewer) = (3, some (pos 0), s.incoming, refl, inr refl)
    read_off _ (goes_on few) = absurd (omega arith)

-- Where `select` finds the socket readable, no `recv` fails, and there is an event more than the stream
-- has bytes: `receive_message` returns 0 with the first `message_length` bytes if the peer sends as many, and otherwise 3 with all
-- of them, the node marked as disconnected.
pub receive_message_closed :
    (s : Socket) (message_length : ℕ)
    → All Arrives s.events
    → length s.incoming < length s.events
    → (message_length ≤ length s.incoming
        → (bytes : List ℕ) × (later : List ℕ) × (receive_message readable s message_length
            ≡ returns 0 none bytes)
          × (s.incoming ≡ bytes ++ later)
          × (length bytes ≡ message_length))
      × (length s.incoming < message_length
          → receive_message readable s message_length ≡ returns 3 (some (pos 0)) s.incoming)
receive_message_closed s message_length all enough =
    read_off (receive_message readable s message_length) (receive_message_lem s message_length)
  where
    read_off :
        (answer : Answer)
        → Explained s.events s.incoming [] message_length answer
        → (message_length ≤ length s.incoming
            → (bytes : List ℕ) × (later : List ℕ) × (answer ≡ returns 0 none bytes)
              × (s.incoming ≡ bytes ++ later)
              × (length bytes ≡ message_length))
          × (length s.incoming < message_length → answer ≡ returns 3 (some (pos 0)) s.incoming)
    read_off _ (all_received bytes later e size) = (
      (λ h. (bytes, later, refl, e, size)),
      (λ h. absurd (omega (arith, ap length e, length-append bytes later))),
    )
    read_off _ (fails_after bytes later e size broke) = absurd (broke all)
    read_off _ (closed_after fewer) = ((λ h. absurd (omega arith)), (λ h. refl))
    read_off _ (goes_on few) = absurd (omega arith)
