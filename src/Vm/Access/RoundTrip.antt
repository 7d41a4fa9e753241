-- ===== src/Vm/Access/RoundTrip.antt =====
-- What MLOAD reads of what MSTORE or MSTORE8 wrote.
use manhattan_group.Base.{
  ℕ, ◌-◌, ◌*◌, ◌/◌, ◌%◌, ◌^◌, ◌≡◌, refl, ap, arith, bit_and, bit_or, List, Option, none, some, set,
}
use manhattan_group.Base.{ℤ}
use manhattan_group.Base.Bits.{and_low_mask}
use manhattan_group.Vm.Outcome.{ok, ◌>>=◌}
use manhattan_group.Vm.Int64.{to_uint32}
use manhattan_group.Vm.Stack.{Stack, stack_pop}
use manhattan_group.Vm.Access.{stays, offset_in, byte_at, store_bits, mstore_at, mstore, mstore8}

low_byte : (b : ℕ) → bit_and b 0xff ≡ b % 256
low_byte b = and_low_mask 8 b

-- The machine after a store into the byte `i`.
abbrev stored : Stack → List ℤ → ℕ → ℕ → Stack
stored s rest i v = record s {
  items = rest;
  memory = record { size = s.memory.size; bytes = set s.memory.bytes i v };
}

store_masked : (old off b : ℕ) → store_bits old off (bit_and b 0xff) ≡ store_bits old off b
unfolding store_bits
store_masked old off b =
    ap
      (λ (t : ℕ). bit_or (bit_and old (2 ^ 32 - 1 - 0xff * 2 ^ off)) (t * 2 ^ off % 2 ^ 32) % 2 ^ 8)
      twice
  where
    twice : bit_and (bit_and b 0xff) 0xff ≡ bit_and b 0xff
    twice = rw (low_byte (bit_and b 0xff), low_byte b) (omega arith)

mstore_at_masked :
    (o : Option ℕ) (b : ℕ) (s : Stack) → mstore_at o (bit_and b 0xff) s ≡ mstore_at o b s
unfolding mstore_at
mstore_at_masked none b s = refl
mstore_at_masked (some a) b s = λ i. byte_at s.memory (a / 8) >>= λ old. ok (
    stays (record s {
      memory = record {
        size = s.memory.size;
        bytes = set s.memory.bytes (a / 8) (store_masked old (a % 8) b i);
      };
    }))

-- MSTORE8 does what MSTORE does: the cut to 8 bits that it makes is made there too.
pub mstore8-mstore : (s : Stack) → mstore8 s ≡ mstore s
unfolding mstore8 mstore
mstore8-mstore s = λ i. stack_pop s >>= λ (v, t).
    stack_pop t >>= λ (a, u). mstore_at_masked (offset_in u.memory a) (to_uint32 v) u i
