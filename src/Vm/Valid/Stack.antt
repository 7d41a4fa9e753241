-- ===== src/Vm/Valid/Stack.antt =====
-- The functions on the stack keep the invariant.
use manhattan_group.Base.{
  ℕ, zero, suc, ◌+◌, ◌^◌, ◌≤◌, ◌<◌, ◌≡◌, List, [], ◌∷◌, arith, All, reverse, Bool-cases, inl, inr,
  length, length-append, length-reverse, length-take, length-drop, take, drop, leb, ltb, false,
  All-append, All-reverse, All-take, All-drop,
}
use manhattan_group.Base.{ℤ}
use manhattan_group.Vm.Outcome.{Returns, Returns-bind, Returns-exit_if, stack_underflow}
use manhattan_group.Vm.Int64.{IsInt64}
use manhattan_group.Vm.Stack.{
  Stack, stack_push, stack_pop, pop_items, push_all, stack_dup, stack_swap, pop_topics,
}

abbrev pub IsByte : ℕ → Type 0
IsByte b = b < 2 ^ 8

pub record IsValid (s : Stack) : Type 0 where
  pub int_size : s.size < 2 ^ 31
  pub room : length s.items ≤ s.size
  pub values : All IsInt64 s.items
  pub memory_size : s.memory.size ≡ 32
  pub all_bytes : length s.memory.bytes ≡ 32
  pub bytes : All IsByte s.memory.bytes

-- With other items that fit and are in range a valid stack stays valid.
pub IsValid-items :
    (s : Stack) (xs : List ℤ)
    → IsValid s
    → length xs ≤ s.size
    → All IsInt64 xs
    → IsValid (record s { items = xs })
IsValid-items s xs v h a = record {
  int_size = v.int_size;
  room = h;
  values = a;
  memory_size = v.memory_size;
  all_bytes = v.all_bytes;
  bytes = v.bytes;
}

pub stack_push-IsValid :
    (s : Stack) (v : ℤ) → IsValid s → IsInt64 v → Returns IsValid (stack_push s v)
unfolding stack_push
stack_push-IsValid s v h fits = elim (Bool-cases (leb s.size (length s.items))) [
  | inl e ↦ rw e tt
  | inr e ↦ rw e (IsValid-items s (v ∷ s.items) h (ground arith) (fits, h.values))
]

abbrev pub Popped : ℤ × Stack → Type 0
Popped p = IsInt64 p.0 × IsValid p.1

pop_items-IsValid :
    (s : Stack) (xs : List ℤ)
    → IsValid s
    → length xs ≤ s.size
    → All IsInt64 xs
    → Returns Popped (pop_items s xs)
pop_items-IsValid s [] v h a = tt
pop_items-IsValid s (x ∷ xs) v h a = (a.0, IsValid-items s xs v (omega arith) a.1)

pub stack_pop-IsValid : (s : Stack) → IsValid s → Returns Popped (stack_pop s)
unfolding stack_pop
stack_pop-IsValid s v = pop_items-IsValid s s.items v v.room v.values

pub push_all-IsValid :
    (s : Stack) (vs : List ℤ) → IsValid s → All IsInt64 vs → Returns IsValid (push_all s vs)
unfolding push_all
push_all-IsValid s [] h a = h
push_all-IsValid s (v ∷ vs) h a =
    Returns-bind IsValid IsValid (stack_push s v) _ (stack_push-IsValid s v h a.0)
      λ t ht. push_all-IsValid t vs ht a.1

pub stack_dup-IsValid : (s : Stack) (x : ℕ) → IsValid s → Returns IsValid (stack_dup s x)
unfolding stack_dup
stack_dup-IsValid s x h = Returns-exit_if IsValid (ltb (length s.items) x) stack_underflow _ (
    push_all-IsValid s (reverse (take x s.items)) h
      (All-reverse IsInt64 _ (All-take IsInt64 x s.items h.values)))

pub stack_swap-IsValid : (s : Stack) (x : ℕ) → IsValid s → Returns IsValid (stack_swap s x)
unfolding stack_swap
stack_swap-IsValid s x h = elim (Bool-cases (leb (length s.items) x)) [
  | inl e ↦ rw e tt
  | inr e ↦ rw e (
      IsValid-items s _ h
        (omega (
          arith,
          length-append (reverse (take (x + 1) s.items)) (drop (x + 1) s.items),
          length-reverse (take (x + 1) s.items),
          length-take (x + 1) s.items (ground arith),
          length-drop (x + 1) s.items,
          h.room,
          deep,
        ))
        (All-append IsInt64 _ _ (All-reverse IsInt64 _ (All-take IsInt64 (x + 1) s.items h.values))
          (All-drop IsInt64 (x + 1) s.items h.values)))
]
  where
    deep : leb (length s.items) x ≡ false → x < length s.items
    deep e = ground arith

pub pop_topics-IsValid :
    (n : ℕ) (s : Stack) → IsValid s → Returns (λ p. IsValid p.1) (pop_topics n s)
unfolding pop_topics
pop_topics-IsValid zero s h = h
pop_topics-IsValid (suc n) s h =
    Returns-bind Popped (λ p. IsValid p.1) (stack_pop s) _ (stack_pop-IsValid s h)
      λ (v, t) ht.
        Returns-bind (λ p. IsValid p.1) (λ p. IsValid p.1) (pop_topics n t) _
          (pop_topics-IsValid n t ht.1) λ (vs, u) hu. hu
