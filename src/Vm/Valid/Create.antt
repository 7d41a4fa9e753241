-- ===== src/Vm/Valid/Create.antt =====
-- `stack_create` of vm.c: the stack that it returns is valid.
use manhattan_group.Base.{ℕ, ◌*◌, ◌/◌, ◌<◌, ◌≡◌, ◌^◌, Bool, not, ◌||◌, arith, List, length, All}
use manhattan_group.Vm.Outcome.{Returns, Returns-exit_if, allocation_failed}
use manhattan_group.Vm.Stack.{stack_create}
use manhattan_group.Vm.Valid.Stack.{IsByte, IsValid}

-- For a capacity that an `int` holds, and whatever the 32 bytes of fresh memory hold, a stack that
-- `stack_create` returns (it exits where the allocator fails) satisfies the invariant.
pub stack_create-IsValid :
    (granted : ℕ → Bool) (fresh : List ℕ) (initial_capacity : ℕ)
    → length fresh ≡ 32
    → All IsByte fresh
    → initial_capacity < 2 ^ 31
    → Returns IsValid (stack_create granted fresh initial_capacity)
unfolding stack_create
stack_create-IsValid granted fresh initial_capacity all bytes small =
    Returns-exit_if IsValid (not (granted 32)) allocation_failed _ (
      Returns-exit_if IsValid (not (granted (initial_capacity * 8))) allocation_failed _ (
        Returns-exit_if IsValid (not (granted 16)) allocation_failed _ (
          Returns-exit_if IsValid (not (granted 32) || not (granted (8 * (32 / 8))))
            allocation_failed _
            (record {
              int_size = small;
              room = omega arith;
              values = tt;
              memory_size = omega arith;
              all_bytes = all;
              bytes = bytes;
            }))))
