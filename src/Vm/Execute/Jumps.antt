-- ===== src/Vm/Execute/Jumps.antt =====
-- JUMP, JUMPI and PUSHn of vm.c, and the storage instructions, as `execute_bytecode` runs them.
use manhattan_group.Base.{
  ℕ, suc, ◌+◌, ◌≤◌, ◌≡◌, refl, ◌∙◌, ap, arith, List, [], ◌∷◌, ◌++◌, map, reverse, none, some,
  Option-cases, Bool-cases, inl, inr, length, get_elem?, ◌==◌, ltb, leb, if◌then◌else◌, ◌↔◌,
}
use manhattan_group.Base.{ℤ, pos, negsuc}
use manhattan_group.Vm.Outcome.{
  Result, ok, exits, undefined, ◌>>=◌, stack_overflow, stack_underflow,
}
use manhattan_group.Vm.Int64.{to_uint32, shr64}
use manhattan_group.Vm.Stack.{
  Stack, stack_pop, stack_push, push_all, stack_set_storage, stack_get_storage_address, key_address,
}
use manhattan_group.Vm.Stack.Blocks.{push_all_lem}
use manhattan_group.Vm.Access.{sload, sstore}
use manhattan_group.Vm.Execute.{Next, goes, destination, jump, jumpi, push_byte, push_bytes}

module _ (bytecode : List ℕ) (n : ℕ) where
  destination_past : get_elem? bytecode n ≡ none → destination bytecode (pos n) ≡ none
  unfolding destination
  destination_past e = rw (e, destination)

  destination_at :
      (c : ℕ)
      → get_elem? bytecode n ≡ some c
      → destination bytecode (pos n) ≡ (if c == 0x5b then some n else none)
  unfolding destination
  destination_at c e = rw (e, destination)

-- The destinations that JUMP accepts: the positions of a JUMPDEST byte, those in the data of a PUSHn
-- included.
pub destination_iff :
    (bytecode : List ℕ) (v : ℤ) (a : ℕ)
    → (destination bytecode v ≡ some a) ↔ ((v ≡ pos a) × (get_elem? bytecode a ≡ some 0x5b))
unfolding destination
destination_iff bytecode (negsuc n) a = ground arith
destination_iff bytecode (pos n) a = elim (Option-cases (get_elem? bytecode n)) [
  | inl e ↦ rw (destination_past bytecode n e) (ground (arith, e))
  | inr (c, e) ↦ rw (destination_at bytecode n c e) (ground (arith, e))
]

-- JUMPI with a condition that is a multiple of 2 ^ 32 (not 0 alone) goes on behind the instruction,
-- and with any other condition it does what JUMP does.
pub jumpi_lem :
    (bytecode : List ℕ) (pc : ℕ) (s : Stack) (v a : ℤ) (rest : List ℤ)
    → s.items ≡ v ∷ a ∷ rest
    → jumpi bytecode pc s ≡ (
        if to_uint32 v == 0
        then ok (goes pc (record s { items = rest }))
        else jump bytecode (record s { items = a ∷ rest }))
unfolding jumpi jump stack_pop
jumpi_lem bytecode pc s v a rest e = rw e refl

-- The bytes of the code from `pc` on begin with `args`.
abbrev pub Reads : List ℕ → ℕ → List ℕ → Type 0
Reads bytecode pc [] = Unit
Reads bytecode pc (x ∷ args) = (get_elem? bytecode pc ≡ some x) × Reads bytecode (pc + 1) args

length-map : (args : List ℕ) → length (map pos args) ≡ length args
length-map [] = refl
length-map (x ∷ args) = ap suc (length-map args)

bind_then :
    (m : Result Stack) (f : Stack → Result Stack) (g h : Stack → Result Next)
    → ((t : Stack) → h t ≡ (f t >>= g))
    → (m >>= h) ≡ ((m >>= f) >>= g)
bind_then (ok t) f g h e = e t
bind_then (exits c) f g h e = refl
bind_then undefined f g h e = refl

module _ (bytecode : List ℕ) where
  push_bytes-suc :
      (n pc x : ℕ) (s : Stack)
      → get_elem? bytecode pc ≡ some x
      → push_bytes bytecode (suc n) pc s
        ≡ (stack_push s (pos x) >>= λ t. push_bytes bytecode n (pc + 1) t)
  unfolding push_bytes push_byte
  push_bytes-suc n pc x s e = rw (e, push_byte) refl

  push_bytes-push_all :
      (args : List ℕ) (pc : ℕ) (s : Stack)
      → Reads bytecode pc args
      → push_bytes bytecode (length args) pc s
        ≡ (push_all s (map pos args) >>= λ t. ok (goes (pc + length args) t))
  unfolding push_all stack_push push_bytes
  push_bytes-push_all [] pc s r =
      ap (λ (q : ℕ). ok (goes q s)) (let e : pc ≡ pc + 0 = omega arith in e)
  push_bytes-push_all (x ∷ args) pc s r =
      push_bytes-suc (length args) pc x s r.0
      ∙ bind_then (stack_push s (pos x)) _ _ _ λ t.
        push_bytes-push_all args (pc + 1) t r.1
        ∙ ap (λ (q : ℕ). push_all t (map pos args) >>= λ u. ok (goes q u))
            (let e : pc + 1 + length args ≡ pc + suc (length args) = omega arith in e)

-- PUSHn, with its n bytes in the code behind it, on a stack within its capacity: where there is room
-- for n more values, each byte is pushed as a value of its own (the last one ends on the top) and the
-- program goes on behind them; else it exits with an overflow.
pub push_bytes_lem :
    (bytecode args : List ℕ) (pc : ℕ) (s : Stack)
    → Reads bytecode pc args
    → length s.items ≤ s.size
    → push_bytes bytecode (length args) pc s ≡ (
        if leb (length s.items + length args) s.size
        then ok (goes (pc + length args) (record s { items = reverse (map pos args) ++ s.items }))
        else exits stack_overflow)
push_bytes_lem bytecode args pc s r h =
    push_bytes-push_all bytecode args pc s r
    ∙ rw (push_all_lem s (map pos args) h, length-map args)
        (elim (Bool-cases (leb (length s.items + length args) s.size)) [
          | inl e ↦ rw e refl
          | inr e ↦ rw e refl
        ])

storage_by_items :
    (s : Stack) (xs : List ℤ)
    → s.items ≡ xs
    → (sload s ≡ (if ltb (length xs) 1 then exits stack_underflow else undefined))
      × (sstore s ≡ (if ltb (length xs) 2 then exits stack_underflow else undefined))
unfolding sload sstore stack_pop stack_set_storage stack_get_storage_address key_address shr64
storage_by_items s [] e = rw e (refl, refl)
storage_by_items s (v ∷ []) e = rw e (refl, refl)
storage_by_items s (v ∷ a ∷ rest) e = rw e (ground arith, ground arith)

-- SLOAD and SSTORE: with an operand too few they exit, and else what they do is undefined, whatever
-- the key: `stack_get_storage_address` shifts an `int64_t` by 248.
pub storage_undefined :
    (s : Stack)
    → (sload s ≡ (if ltb (length s.items) 1 then exits stack_underflow else undefined))
      × (sstore s ≡ (if ltb (length s.items) 2 then exits stack_underflow else undefined))
storage_undefined s = storage_by_items s s.items refl
