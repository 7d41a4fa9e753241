-- ===== src/Vm/Stack.antt =====
-- The `Stack` of vm.c with its memory and storage, and the functions on it. The list `items` is
-- `data[top]` down to `data[0]`, so `top` is its length less one. A capacity is below 2 ^ 31, as
-- `int size` holds it (`main` asks for 1024).
pub mod Blocks
pub mod Logs
pub mod Heap
pub mod Printed
use manhattan_group.Base.{
  ℕ, zero, suc, ◌+◌, ◌-◌, ◌*◌, ◌/◌, Bool, not, ◌||◌, List, [], ◌∷◌, ◌++◌, reverse, Option, none,
  some, length, get_elem?, set, take, drop, replicate, ltb, leb, if◌then◌else◌,
}
use manhattan_group.Base.{ℤ, pos, negsuc, ◌+ℤ◌, bit_and}
use manhattan_group.Vm.Outcome.{
  Result, ok, undefined, exits, ◌>>=◌, ◌>>◌, exit_if, stack_overflow, stack_underflow,
  allocation_failed, memory_out_of_bounds,
}
use manhattan_group.Vm.Int64.{shr64, word64}

pub record Memory : Type 0 where
  pub size : ℕ
  pub bytes : List ℕ

-- What `stack_LOG` prints: the number of topics, the memory read, and the topics.
pub record LogEntry : Type 0 where
  pub topic_count : ℕ
  pub memory_data : List ℕ
  pub topics : List ℤ

-- A storage cell is a null pointer or points to a value.
pub record Stack : Type 0 where
  pub size : ℕ
  pub items : List ℤ
  pub memory : Memory
  pub storage : List (Option ℤ)
  pub log : List LogEntry

-- `granted` says whether the allocator meets a request of so many bytes, `fresh` what the 32 bytes
-- of memory hold before they are written.
unfoldable pub stack_create : (ℕ → Bool) → List ℕ → ℕ → Result Stack
stack_create granted fresh initial_capacity = do
  exit_if (not (granted 32)) allocation_failed
  exit_if (not (granted (initial_capacity * 8))) allocation_failed
  exit_if (not (granted 16)) allocation_failed
  exit_if (not (granted 32) || not (granted (8 * (32 / 8)))) allocation_failed
  ok (record {
    size = initial_capacity;
    items = [];
    memory = record { size = 32; bytes = fresh };
    storage = replicate (32 / 8) none;
    log = [];
  })

unfoldable pub stack_push : Stack → ℤ → Result Stack
stack_push s value =
    if leb s.size (length s.items)
    then exits stack_overflow
    else ok (record s { items = value ∷ s.items })

abbrev pub pop_items : Stack → List ℤ → Result (ℤ × Stack)
pop_items s [] = exits stack_underflow
pop_items s (v ∷ rest) = ok (v, record s { items = rest })

unfoldable pub stack_pop : Stack → Result (ℤ × Stack)
stack_pop s = pop_items s s.items

-- The second loop of `stack_dup`, over the array from its last entry to its first.
unfoldable pub push_all : Stack → List ℤ → Result Stack
push_all s [] = ok s
push_all s (v ∷ vs) = do t ← stack_push s v; push_all t vs

unfoldable pub stack_dup : Stack → ℕ → Result Stack
stack_dup s x = do
  exit_if (ltb (length s.items) x) stack_underflow
  let a = take x s.items
  push_all s (reverse a)

-- `data[top - i] = a[x - i]` for `i` from 0 to `x`.
unfoldable pub stack_swap : Stack → ℕ → Result Stack
stack_swap s x = do
  exit_if (leb (length s.items) x) stack_underflow
  let a = take (x + 1) s.items
  ok (record s { items = reverse a ++ drop (x + 1) s.items })

-- The loop that reads the topics.
unfoldable pub pop_topics : ℕ → Stack → Result (List ℤ × Stack)
pop_topics zero s = ok ([], s)
pop_topics (suc n) s = do (v, t) ← stack_pop s; (vs, u) ← pop_topics n t; ok (v ∷ vs, u)

-- A pointer into the memory, or one past its end; any other is undefined.
abbrev pub pointer_at : Memory → ℤ → Result ℕ
pointer_at m (pos n) = if leb n m.size then ok n else undefined
pointer_at m (negsuc n) = undefined

-- The bytes from `memory_data` up to `memory_end`, with the test of the range.
unfoldable pub read_memory : Memory → ℤ → ℤ → Result (List ℕ)
read_memory m offset size = do
  memory_data ← pointer_at m offset
  memory_end ← pointer_at m (offset +ℤ size)
  exit_if (ltb memory_data 0 || ltb m.size memory_end) memory_out_of_bounds
  ok (take (memory_end - memory_data) (drop memory_data m.bytes))

unfoldable pub stack_log : Stack → ℕ → Result Stack
unfolding stack_pop pop_topics read_memory
stack_log s topic_count = do
  exit_if (ltb (length s.items) (topic_count + 2)) stack_underflow
  (offset, s₁) ← stack_pop s
  (size, s₂) ← stack_pop s₁
  (topics, s₃) ← pop_topics topic_count s₂
  bytes ← read_memory s₃.memory offset size
  ok (record s₃ {
    log = record { topic_count = topic_count; memory_data = bytes; topics = topics } ∷ s₃.log;
  })

-- The loop that fills `address`, with `left` of its 32 rounds to go: `i` is `32 - left`.
unfoldable pub key_address : ℕ → ℤ → Result (List ℕ)
key_address zero key = ok []
key_address (suc left) key = do
  w ← shr64 key (8 * left)
  rest ← key_address left key
  ok (bit_and (word64 w) 0xff ∷ rest)

-- The pointer that is returned, as the index of a storage cell. Past a cell that is set the source
-- returns the address of a local variable, which is read after its lifetime.
abbrev pub storage_cell : Stack → List ℕ → Result ℕ
storage_cell s [] = undefined
storage_cell s (first ∷ rest) = elim (get_elem? s.storage first) [
  | none ↦ undefined
  | some none ↦ ok first
  | some (some v) ↦ undefined
]

unfoldable pub stack_get_storage_address : Stack → ℤ → Result ℕ
unfolding key_address
stack_get_storage_address s key = do address ← key_address 32 key; storage_cell s address

unfoldable pub stack_set_storage : Stack → ℤ → ℤ → Result Stack
unfolding stack_get_storage_address
stack_set_storage s key value = do
  storage_address ← stack_get_storage_address s key
  ok (record s { storage = set s.storage storage_address (some value) })

unfoldable pub stack_clear : Stack → Stack
stack_clear s = record s { items = [] }
