-- ===== src/Vm/Stack/Blocks.antt =====
-- What DUPn and SWAPn do to the stack: they work on whole blocks of values.
use mathlib.Core.List.{reverse-cons, append_assoc, reverse-reverse}
use manhattan_group.Base.{
  ℕ, zero, suc, ◌+◌, ◌-◌, ◌≤◌, ◌<◌, ◌≡◌, refl, ◌∙◌, ap, true, false, arith, List, [], ◌∷◌, ◌++◌,
  reverse, some, Bool-cases, inl, inr, length, length-append, length-reverse, length-take,
  length-drop, take, drop, take-append, drop-append, take-append-drop, get_elem?, leb, ltb, ltb→lt,
  if◌then◌else◌,
}
use manhattan_group.Base.{ℤ}
use manhattan_group.Vm.Outcome.{Result, ok, exits, stack_overflow, stack_underflow}
use manhattan_group.Vm.Stack.{Stack, stack_push, push_all, stack_dup, stack_swap}

-- The items after a series of pushes, where there is room for them.
abbrev pub pushed : Stack → ℕ → List ℤ → Result Stack
pushed s n xs =
    if leb (length s.items + n) s.size then ok (record s { items = xs }) else exits stack_overflow

reverse-cons-append : (v : ℤ) (vs xs : List ℤ) → reverse (v ∷ vs) ++ xs ≡ reverse vs ++ v ∷ xs
reverse-cons-append v vs xs = rw (reverse-cons v vs, append_assoc)

pub push_all_lem :
    (s : Stack) (vs : List ℤ)
    → length s.items ≤ s.size
    → push_all s vs ≡ pushed s (length vs) (reverse vs ++ s.items)
unfolding push_all stack_push
push_all_lem s [] h = ground arith
push_all_lem s (v ∷ vs) h = elim (Bool-cases (leb s.size (length s.items))) [
  | inl full ↦ rw full (overflows (length vs) full)
  | inr room ↦
      rw (room, reverse-cons-append v vs s.items)
        (push_all_lem (record s { items = v ∷ s.items }) vs (ground arith) ∙ shifted (length vs))
]
  where
    overflows :
        (n : ℕ)
        → leb s.size (length s.items) ≡ true
        → exits stack_overflow ≡ pushed s (suc n) (reverse (v ∷ vs) ++ s.items)
    overflows n full = ground arith

    shifted :
        (n : ℕ)
        → pushed (record s { items = v ∷ s.items }) n (reverse vs ++ v ∷ s.items)
          ≡ pushed s (suc n) (reverse vs ++ v ∷ s.items)
    shifted n =
        ap
          (λ (t : ℕ).
            if leb t s.size
            then ok (record s { items = reverse vs ++ v ∷ s.items })
            else exits stack_overflow)
          (let e : suc (length s.items) + n ≡ length s.items + suc n = omega arith in e)

-- DUPn on a stack within its capacity: with less than n values on the stack it exits with an
-- underflow, without room for n more with an overflow, and else it pushes a copy of the top n values,
-- in their order (not the n-th value alone).
pub stack_dup_lem :
    (s : Stack) (x : ℕ)
    → length s.items ≤ s.size
    → stack_dup s x ≡ (
        if ltb (length s.items) x
        then exits stack_underflow
        else if leb (length s.items + x) s.size
        then ok (record s { items = take x s.items ++ s.items })
        else exits stack_overflow)
unfolding stack_dup
stack_dup_lem s x h = elim (Bool-cases (ltb (length s.items) x)) [
  | inl e ↦ rw e
  | inr e ↦ rw e (
      push_all_lem s (reverse (take x s.items)) h
      ∙ rw (reverse-reverse, length-reverse (take x s.items), length-take x s.items (ground arith)))
]

-- SWAPn reverses the top n + 1 values.
swap_items : ℕ → List ℤ → List ℤ
swap_items x xs = reverse (take (x + 1) xs) ++ drop (x + 1) xs

deep_enough : (x n : ℕ) → leb n x ≡ false → x + 1 ≤ n
deep_enough x n e = ground arith

swap_items-swap_items :
    (x : ℕ) (xs : List ℤ) → x + 1 ≤ length xs → swap_items x (swap_items x xs) ≡ xs
unfolding swap_items
swap_items-swap_items x xs h =
    rw
      (
        take-append (reverse (take (x + 1) xs)) (drop (x + 1) xs) (x + 1) front,
        drop-append (reverse (take (x + 1) xs)) (drop (x + 1) xs) (x + 1) front,
        reverse-reverse,
      )
      (take-append-drop (x + 1) xs)
  where
    front : length (reverse (take (x + 1) xs)) ≡ x + 1
    front = length-reverse (take (x + 1) xs) ∙ length-take (x + 1) xs h

length-swap_items : (x : ℕ) (xs : List ℤ) → x + 1 ≤ length xs → length (swap_items x xs) ≡ length xs
unfolding swap_items
length-swap_items x xs h = omega (
  arith,
  length-append (reverse (take (x + 1) xs)) (drop (x + 1) xs),
  length-reverse (take (x + 1) xs),
  length-take (x + 1) xs h,
  length-drop (x + 1) xs,
)

stack_swap_deep :
    (s : Stack) (x : ℕ)
    → leb (length s.items) x ≡ false
    → stack_swap s x ≡ ok (record s { items = swap_items x s.items })
unfolding stack_swap swap_items
stack_swap_deep s x e = rw e

stack_swap_shallow :
    (s : Stack) (x : ℕ) → leb (length s.items) x ≡ true → stack_swap s x ≡ exits stack_underflow
unfolding stack_swap
stack_swap_shallow s x e = rw e

append_last : (x : ℤ) (us ys : List ℤ) (n : ℕ) → length us ≡ n → get_elem? (us ++ x ∷ ys) n ≡ some x
append_last x [] ys zero e = refl
append_last x [] ys (suc n) e = absurd (omega arith)
append_last x (u ∷ us) ys zero e = absurd (omega arith)
append_last x (u ∷ us) ys (suc n) e = append_last x us ys n (omega arith)

get_elem?-reverse :
    (xs ys : List ℤ) (i : ℕ)
    → i < length xs
    → get_elem? (reverse xs ++ ys) i ≡ get_elem? xs (length xs - 1 - i)
get_elem?-reverse [] ys i h = absurd (omega arith)
get_elem?-reverse (x ∷ xs) ys i h =
    rw (reverse-cons-append x xs ys) (elim (Bool-cases (ltb i (length xs))) [
      | inl e ↦
          get_elem?-reverse xs (x ∷ ys) i (ltb→lt i (length xs) e)
          ∙ ap (λ (t : ℕ). get_elem? (x ∷ xs) t) (below (length xs) i (ltb→lt i (length xs) e))
      | inr e ↦
          append_last x (reverse xs) ys i (length-reverse xs ∙ at_end (length xs) i h e)
          ∙ ap (λ (t : ℕ). get_elem? (x ∷ xs) t) (first (length xs) i h e)
    ])
  where
    below : (n i : ℕ) → i < n → suc (n - 1 - i) ≡ suc n - 1 - i
    below n i h = omega arith

    first : (n i : ℕ) → i < suc n → ltb i n ≡ false → 0 ≡ suc n - 1 - i
    first n i h e = ground arith

    at_end : (n i : ℕ) → i < suc n → ltb i n ≡ false → n ≡ i
    at_end n i h e = ground arith

get_elem?-take : (xs : List ℤ) (n i : ℕ) → i < n → get_elem? (take n xs) i ≡ get_elem? xs i
get_elem?-take xs zero i h = absurd (omega arith)
get_elem?-take [] (suc n) i h = refl
get_elem?-take (x ∷ xs) (suc n) zero h = refl
get_elem?-take (x ∷ xs) (suc n) (suc i) h = get_elem?-take xs n i (omega arith)

swap_items_lem :
    (x : ℕ) (xs : List ℤ) (i : ℕ)
    → x + 1 ≤ length xs
    → i ≤ x
    → get_elem? (swap_items x xs) i ≡ get_elem? xs (x - i)
unfolding swap_items
swap_items_lem x xs i h le =
    get_elem?-reverse (take (x + 1) xs) (drop (x + 1) xs) i
      (omega (arith, length-take (x + 1) xs h))
    ∙ ap (λ (t : ℕ). get_elem? (take (x + 1) xs) t) place
    ∙ get_elem?-take xs (x + 1) (x - i) (omega arith)
  where
    place : length (take (x + 1) xs) - 1 - i ≡ x - i
    place = omega (arith, length-take (x + 1) xs h)

swap_back :
    (s : Stack) (x : ℕ)
    → leb (length s.items) x ≡ false
    → stack_swap (record s { items = swap_items x s.items }) x ≡ ok s
swap_back s x deep =
    stack_swap_deep (record s { items = swap_items x s.items }) x
      (rw (length-swap_items x s.items (deep_enough x (length s.items) deep)) deep)
    ∙ ap (λ (xs : List ℤ). ok (record s { items = xs }))
        (swap_items-swap_items x s.items (deep_enough x (length s.items) deep))

-- A SWAPn that returns leaves the i-th value from the top where the one n - i from the top was, for
-- each i up to n (all of the n + 1 values, not the two outer ones alone), and a second SWAPn undoes it.
pub stack_swap_lem :
    (s t : Stack) (x i : ℕ)
    → stack_swap s x ≡ ok t
    → i ≤ x
    → (get_elem? t.items i ≡ get_elem? s.items (x - i)) × (stack_swap t x ≡ ok s)
stack_swap_lem s t x i e le = elim (Bool-cases (leb (length s.items) x)) [
  | inl shallow ↦ absurd (impossible shallow)
  | inr deep ↦ returned deep
]
  where
    impossible : leb (length s.items) x ≡ true → ⊥
    impossible shallow = cc (stack_swap_shallow s x shallow)

    swapped : leb (length s.items) x ≡ false → t ≡ record s { items = swap_items x s.items }
    swapped deep = cc (stack_swap_deep s x deep)

    returned :
        leb (length s.items) x ≡ false
        → (get_elem? t.items i ≡ get_elem? s.items (x - i)) × (stack_swap t x ≡ ok s)
    returned deep =
        rw (swapped deep)
          (swap_items_lem x s.items i (deep_enough x (length s.items) deep) le, swap_back s x deep)
