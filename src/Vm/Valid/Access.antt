-- ===== src/Vm/Valid/Access.antt =====
-- MLOAD, MSTORE, MSTORE8, SLOAD and SSTORE keep the invariant.
use manhattan_group.Base.{
  ℕ, ◌/◌, ◌%◌, ◌^◌, ◌≡◌, refl, Option, none, some, arith, length-set, set, All-set, bit_and,
}
use manhattan_group.Base.{ℤ, pos}
use manhattan_group.Vm.Outcome.{Result, undefined, Returns, Returns-bind, Returns-any}
use manhattan_group.Vm.Int64.{IsInt64, to_uint32, shr64}
use manhattan_group.Vm.Stack.{
  Stack, stack_pop, key_address, stack_get_storage_address, stack_set_storage,
}
use manhattan_group.Vm.Access.{
  Flow, stays, returns, stays_with, offset_in, byte_at, load_bits, store_bits, mload_at, mload,
  mstore_at, mstore, mstore8, sload, sstore,
}
use manhattan_group.Vm.Valid.Stack.{IsByte, IsValid, Popped, stack_push-IsValid, stack_pop-IsValid}

abbrev pub FlowValid : Flow → Type 0
FlowValid (stays s) = IsValid s
FlowValid (returns v s) = IsInt64 v × IsValid s

pub stays_with-Valid : (m : Result Stack) → Returns IsValid m → Returns FlowValid (stays_with m)
stays_with-Valid m h = Returns-bind IsValid FlowValid m _ h λ s v. v

mload_at-Valid : (o : Option ℕ) (s : Stack) → IsValid s → Returns FlowValid (mload_at o s)
unfolding mload_at
mload_at-Valid none s h = (omega arith, h)
mload_at-Valid (some a) s h =
    Returns-bind (λ _. Unit {0}) FlowValid (byte_at s.memory (a / 8)) _ (Returns-any _)
      λ w _.
        stays_with-Valid _ (stack_push-IsValid s (pos (load_bits w (a % 8) % 2 ^ 32)) h (small _))
  where
    small : (v : ℕ) → IsInt64 (pos (v % 2 ^ 32))
    small v = omega arith

pub mload-Valid : (s : Stack) → IsValid s → Returns FlowValid (mload s)
unfolding mload
mload-Valid s h =
    Returns-bind Popped FlowValid (stack_pop s) _ (stack_pop-IsValid s h)
      λ (a, t) ht. mload_at-Valid (offset_in t.memory a) t ht.1

store_bits-IsByte : (old off b : ℕ) → IsByte (store_bits old off b)
unfolding store_bits
store_bits-IsByte old off b = omega arith

IsValid-bytes :
    (s : Stack) (i v : ℕ)
    → IsValid s
    → IsByte v
    → IsValid
        (record s { memory = record { size = s.memory.size; bytes = set s.memory.bytes i v } })
IsValid-bytes s i v h hv = record {
  int_size = h.int_size;
  room = h.room;
  values = h.values;
  memory_size = h.memory_size;
  all_bytes = omega (arith, length-set s.memory.bytes i v, h.all_bytes);
  bytes = All-set IsByte s.memory.bytes i v h.bytes hv;
}

mstore_at-Valid :
    (o : Option ℕ) (b : ℕ) (s : Stack) → IsValid s → Returns FlowValid (mstore_at o b s)
unfolding mstore_at
mstore_at-Valid none b s h = (omega arith, h)
mstore_at-Valid (some a) b s h =
    Returns-bind (λ _. Unit {0}) FlowValid (byte_at s.memory (a / 8)) _ (Returns-any _)
      λ old _.
        IsValid-bytes s (a / 8) (store_bits old (a % 8) b) h (store_bits-IsByte old (a % 8) b)

pub mstore-Valid : (s : Stack) → IsValid s → Returns FlowValid (mstore s)
unfolding mstore
mstore-Valid s h =
    Returns-bind Popped FlowValid (stack_pop s) _ (stack_pop-IsValid s h) λ (v, t) ht.
      Returns-bind Popped FlowValid (stack_pop t) _ (stack_pop-IsValid t ht.1)
        λ (a, u) hu. mstore_at-Valid (offset_in u.memory a) (to_uint32 v) u hu.1

pub mstore8-Valid : (s : Stack) → IsValid s → Returns FlowValid (mstore8 s)
unfolding mstore8
mstore8-Valid s h =
    Returns-bind Popped FlowValid (stack_pop s) _ (stack_pop-IsValid s h) λ (v, t) ht.
      Returns-bind Popped FlowValid (stack_pop t) _ (stack_pop-IsValid t ht.1)
        λ (a, u) hu. mstore_at-Valid (offset_in u.memory a) (bit_and (to_uint32 v) 0xff) u hu.1

-- The first shift of the key is by 248.
pub stack_get_storage_address_undefined :
    (s : Stack) (key : ℤ) → stack_get_storage_address s key ≡ undefined
unfolding stack_get_storage_address key_address shr64
stack_get_storage_address_undefined s key = refl

pub sload-Valid : (s : Stack) → Returns FlowValid (sload s)
unfolding sload
sload-Valid s =
    Returns-bind (λ _. Unit {0}) FlowValid (stack_pop s) _ (Returns-any _)
      λ (a, t) _. rw (stack_get_storage_address_undefined t a) tt

pub sstore-Valid : (s : Stack) → Returns FlowValid (sstore s)
unfolding sstore stack_set_storage
sstore-Valid s =
    Returns-bind (λ _. Unit {0}) FlowValid (stack_pop s) _ (Returns-any _)
      λ (v, t) _.
        Returns-bind (λ _. Unit {0}) FlowValid (stack_pop t) _ (Returns-any _)
          λ (a, u) _. rw (stack_get_storage_address_undefined u a) tt
