-- ===== src/Vm/Access.antt =====
-- MLOAD, MSTORE, MSTORE8, SLOAD and SSTORE, opcodes 0x51 to 0x55. Offsets count bits: the byte is
-- `offset / 8`, and the low `offset % 8` bits of it are skipped.
pub mod RoundTrip
use manhattan_group.Base.{
  ℕ, ◌-◌, ◌*◌, ◌/◌, ◌%◌, ◌^◌, Option, none, some, get_elem?, set, leb, bit_and, bit_or,
  if◌then◌else◌,
}
use manhattan_group.Base.{ℤ, pos, negsuc}
use manhattan_group.Vm.Outcome.{Result, ok, undefined, ◌>>=◌}
use manhattan_group.Vm.Int64.{to_uint32}
use manhattan_group.Vm.Stack.{
  Memory, Stack, stack_push, stack_pop, stack_get_storage_address, stack_set_storage,
}

-- An instruction either goes on, or `execute_bytecode` returns a value.
pub data Flow : Type 0 where
  stays : Stack → Flow
  returns : ℤ → Stack → Flow

abbrev pub stays_with : Result Stack → Result Flow
stays_with m = m >>= λ s. ok (stays s)

-- `a < 0 || a >= stack->memory->size * 8`, turned round.
abbrev pub offset_in : Memory → ℤ → Option ℕ
offset_in m (pos a) = if leb (m.size * 8) a then none else some a
offset_in m (negsuc a) = none

-- The byte at an index below `size`.
abbrev pub byte_at : Memory → ℕ → Result ℕ
byte_at m i = elim (get_elem? m.bytes i) [ none ↦ undefined | some w ↦ ok w ]

abbrev pub load_bits : ℕ → ℕ → ℕ
load_bits load_word load_bit_offset = bit_and (load_word / 2 ^ load_bit_offset) 0xff

unfoldable pub mload_at : Option ℕ → Stack → Result Flow
unfolding stack_push
mload_at none s = ok (returns (pos 0) s)
mload_at (some a) s = do
  load_word ← byte_at s.memory (a / 8)
  stays_with (stack_push s (pos (load_bits load_word (a % 8) % 2 ^ 32)))

unfoldable pub mload : Stack → Result Flow
unfolding stack_pop mload_at
mload s = do (a, t) ← stack_pop s; mload_at (offset_in t.memory a) t

-- `(old & ~(0xFF << off)) | ((b & 0xFF) << off)`, stored into a byte.
unfoldable pub store_bits : ℕ → ℕ → ℕ → ℕ
store_bits old off b =
    bit_or (bit_and old (2 ^ 32 - 1 - 0xff * 2 ^ off)) (bit_and b 0xff * 2 ^ off % 2 ^ 32) % 2 ^ 8

unfoldable pub mstore_at : Option ℕ → ℕ → Stack → Result Flow
unfolding store_bits
mstore_at none b s = ok (returns (negsuc 0) s)
mstore_at (some a) b s = do
  old ← byte_at s.memory (a / 8)
  ok (
      stays (record s {
        memory = record {
          size = s.memory.size;
          bytes = set s.memory.bytes (a / 8) (store_bits old (a % 8) b);
        };
      }))

unfoldable pub mstore : Stack → Result Flow
unfolding stack_pop mstore_at
mstore s = do
  (v, t) ← stack_pop s
  let b = to_uint32 v
  (a, u) ← stack_pop t
  mstore_at (offset_in u.memory a) b u

unfoldable pub mstore8 : Stack → Result Flow
unfolding stack_pop mstore_at
mstore8 s = do
  (v, t) ← stack_pop s
  let b = bit_and (to_uint32 v) 0xff
  (a, u) ← stack_pop t
  mstore_at (offset_in u.memory a) b u

-- The value that a storage pointer points to, or 0 for a null pointer.
abbrev pub cell_value : Option (Option ℤ) → ℤ
cell_value (some (some v)) = v
cell_value _ = pos 0

unfoldable pub sload : Stack → Result Flow
unfolding stack_pop stack_push stack_get_storage_address
sload s = do
  (a, t) ← stack_pop s
  cell ← stack_get_storage_address t a
  stays_with (stack_push t (cell_value (get_elem? t.storage cell)))

unfoldable pub sstore : Stack → Result Flow
unfolding stack_pop stack_set_storage
sstore s = do
  (v, t) ← stack_pop s
  (a, u) ← stack_pop t
  stays_with (stack_set_storage u a (pos (to_uint32 v)))
