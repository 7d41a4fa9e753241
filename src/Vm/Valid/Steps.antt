-- ===== src/Vm/Valid/Steps.antt =====
-- Every instruction, and so every run, keeps the invariant.
use manhattan_group.Base.{ℕ, ◌*◌, arith, length, ltb}
use manhattan_group.Base.{ℤ, pos, sub_ℕ}
use manhattan_group.Vm.Outcome.{
  Result, ok, Returns, Returns-bind, Returns-exit_if, not_enough_elements, stack_underflow,
}
use manhattan_group.Vm.Int64.{IsInt64}
use manhattan_group.Vm.Stack.{Stack, stack_push, stack_pop}
use manhattan_group.Vm.Access.{stays_with}
use manhattan_group.Vm.Opcode.{Op}
use manhattan_group.Vm.Execute.{binary, unary, ternary, needs, drop_top, perform}
use manhattan_group.Vm.Arith
use manhattan_group.Vm.Compare
use manhattan_group.Vm.Valid.Stack.{
  IsValid, Popped, stack_push-IsValid, stack_pop-IsValid, stack_dup-IsValid, stack_swap-IsValid,
}
use manhattan_group.Vm.Valid.Log.{stack_log-IsValid}
use manhattan_group.Vm.Valid.Access.{
  FlowValid, stays_with-Valid, mload-Valid, mstore-Valid, mstore8-Valid, sload-Valid, sstore-Valid,
}
use manhattan_group.Vm.Valid.Values.{InRange}
use manhattan_group.Vm.Valid.Values

module _ (s : Stack) (h : IsValid s) where
  binary-Valid :
      (f : ℤ → ℤ → Result ℤ)
      → ((a b : ℤ) → IsInt64 a → InRange (f a b))
      → Returns IsValid (binary f s)
  unfolding binary
  binary-Valid f hf =
      Returns-bind Popped IsValid (stack_pop s) _ (stack_pop-IsValid s h) λ (b, t) ht.
        Returns-bind Popped IsValid (stack_pop t) _ (stack_pop-IsValid t ht.1) λ (a, u) hu.
          Returns-bind IsInt64 IsValid (f a b) _ (hf a b hu.0)
            λ v hv. stack_push-IsValid u v hu.1 hv

  unary-Valid : (f : ℤ → Result ℤ) → ((a : ℤ) → InRange (f a)) → Returns IsValid (unary f s)
  unfolding unary
  unary-Valid f hf =
      Returns-bind Popped IsValid (stack_pop s) _ (stack_pop-IsValid s h) λ (a, t) ht.
        Returns-bind IsInt64 IsValid (f a) _ (hf a) λ v hv. stack_push-IsValid t v ht.1 hv

  ternary-Valid :
      (f : ℤ → ℤ → ℤ → Result ℤ) → ((a b c : ℤ) → InRange (f a b c)) → Returns IsValid (ternary f s)
  unfolding ternary
  ternary-Valid f hf =
      Returns-bind Popped IsValid (stack_pop s) _ (stack_pop-IsValid s h) λ (c, t) ht.
        Returns-bind Popped IsValid (stack_pop t) _ (stack_pop-IsValid t ht.1) λ (b, u) hu.
          Returns-bind Popped IsValid (stack_pop u) _ (stack_pop-IsValid u hu.1) λ (a, w) hw.
            Returns-bind IsInt64 IsValid (f a b c) _ (hf a b c)
              λ v hv. stack_push-IsValid w v hw.1 hv

  drop_top-Valid : Returns IsValid (drop_top s)
  unfolding drop_top
  drop_top-Valid =
      Returns-exit_if IsValid (ltb (length s.items) 1) stack_underflow _
        (Returns-bind Popped IsValid (stack_pop s) _ (stack_pop-IsValid s h) λ (v, t) ht. ht.1)

  -- An instruction that pushes the value of `f`, behind the test of the depth.
  needs-Valid :
      (n : ℕ) (k : Result Stack) → Returns IsValid k → Returns FlowValid (stays_with (needs n s k))
  needs-Valid n k hk =
      stays_with-Valid (needs n s k)
        (Returns-exit_if IsValid (ltb (length s.items) n) not_enough_elements k hk)

  two :
      (f : ℤ → ℤ → Result ℤ)
      → ((a b : ℤ) → IsInt64 a → InRange (f a b))
      → Returns FlowValid (stays_with (binary f s))
  two f hf = stays_with-Valid (binary f s) (binary-Valid f hf)

  deep_two :
      (n : ℕ) (f : ℤ → ℤ → Result ℤ)
      → ((a b : ℤ) → IsInt64 a → InRange (f a b))
      → Returns FlowValid (stays_with (needs n s (binary f s)))
  deep_two n f hf = needs-Valid n (binary f s) (binary-Valid f hf)

  push-Valid : (v : ℤ) → IsInt64 v → Returns FlowValid (stays_with (stack_push s v))
  push-Valid v hv = stays_with-Valid (stack_push s v) (stack_push-IsValid s v h hv)

  top-IsInt64 : IsInt64 (sub_ℕ (length s.items) 1)
  top-IsInt64 = ground (arith, h.room, h.int_size)

  memory_bits : IsInt64 (pos (s.memory.size * 8))
  memory_bits = omega (arith, h.memory_size)

  pub perform-Valid : (op : Op) → Returns FlowValid (perform op s)
  unfolding perform
  perform-Valid Op.stop = (top-IsInt64, h)
  perform-Valid Op.add = two Arith.add (λ a b _. Values.add-InRange a b)
  perform-Valid Op.mul = two Arith.mul (λ a b _. Values.mul-InRange a b)
  perform-Valid Op.sub = two Arith.sub (λ a b _. Values.sub-InRange a b)
  perform-Valid Op.div = two Arith.div (λ a b _. Values.div-InRange a b)
  perform-Valid Op.sdiv = two Arith.sdiv (λ a b _. Values.sdiv-InRange a b)
  perform-Valid Op.rem = two Arith.rem Values.rem-InRange
  perform-Valid Op.smod = two Arith.smod Values.smod-InRange
  perform-Valid Op.addmod = stays_with-Valid _ (ternary-Valid Arith.addmod Values.addmod-InRange)
  perform-Valid Op.mulmod = stays_with-Valid _ (ternary-Valid Arith.mulmod Values.mulmod-InRange)
  perform-Valid Op.exp = two Arith.exp (λ a b _. Values.exp-InRange a b)
  perform-Valid Op.signextend = deep_two 3 Arith.signextend Values.signextend-InRange
  perform-Valid Op.lt = deep_two 2 Compare.lt (λ a b _. Values.lt-InRange a b)
  perform-Valid Op.gt = deep_two 2 Compare.gt (λ a b _. Values.gt-InRange a b)
  perform-Valid Op.slt = deep_two 2 Compare.slt (λ a b _. Values.slt-InRange a b)
  perform-Valid Op.sgt = deep_two 2 Compare.sgt (λ a b _. Values.sgt-InRange a b)
  perform-Valid Op.eq = deep_two 2 Compare.eq (λ a b _. Values.eq-InRange a b)
  perform-Valid Op.iszero = needs-Valid 1 _ (unary-Valid Compare.iszero Values.iszero-InRange)
  perform-Valid Op.bitwise_and = deep_two 2 Compare.bitwise_and (λ a b _. Values.and-InRange a b)
  perform-Valid Op.bitwise_or = deep_two 2 Compare.bitwise_or (λ a b _. Values.or-InRange a b)
  perform-Valid Op.bitwise_xor = deep_two 2 Compare.bitwise_xor (λ a b _. Values.xor-InRange a b)
  perform-Valid Op.bitwise_not =
      needs-Valid 1 _ (unary-Valid Compare.bitwise_not Values.not-InRange)
  perform-Valid Op.byte = deep_two 2 Compare.byte (λ a b _. Values.byte-InRange a b)
  perform-Valid Op.shl = deep_two 2 Compare.shl (λ a b _. Values.shl-InRange a b)
  perform-Valid Op.shr = deep_two 2 Compare.shr Values.shr-InRange
  perform-Valid Op.sar = deep_two 2 Compare.sar Values.sar-InRange
  perform-Valid Op.balance = needs-Valid 1 (ok s) h
  perform-Valid Op.pop = stays_with-Valid _ drop_top-Valid
  perform-Valid Op.mload = mload-Valid s h
  perform-Valid Op.mstore = mstore-Valid s h
  perform-Valid Op.mstore8 = mstore8-Valid s h
  perform-Valid Op.sload = sload-Valid s
  perform-Valid Op.sstore = sstore-Valid s
  perform-Valid Op.msize = push-Valid _ memory_bits
  perform-Valid Op.push0 = push-Valid (pos 0) (omega arith)
  perform-Valid (Op.dup n) = stays_with-Valid _ (stack_dup-IsValid s n h)
  perform-Valid (Op.swap n) = stays_with-Valid _ (stack_swap-IsValid s n h)
  perform-Valid (Op.log n) = stays_with-Valid _ (stack_log-IsValid n s h)
  perform-Valid (Op.invalid c) = tt
  perform-Valid _ = h
