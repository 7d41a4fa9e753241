-- ===== src/Vm/Valid/Log.antt =====
-- `stack_LOG` keeps the invariant.
use manhattan_group.Base.{ℕ, ◌+◌, List, length, ltb}
use manhattan_group.Vm.Outcome.{
  Returns, Returns-bind, Returns-any, Returns-exit_if, stack_underflow,
}
use manhattan_group.Vm.Stack.{Stack, LogEntry, stack_pop, pop_topics, stack_log, read_memory}
use manhattan_group.Vm.Valid.Stack.{IsValid, Popped, stack_pop-IsValid, pop_topics-IsValid}

-- The log is no part of the invariant.
IsValid-log :
    (s : Stack) (entries : List LogEntry) → IsValid s → IsValid (record s { log = entries })
IsValid-log s entries v = record {
  int_size = v.int_size;
  room = v.room;
  values = v.values;
  memory_size = v.memory_size;
  all_bytes = v.all_bytes;
  bytes = v.bytes;
}

pub stack_log-IsValid : (n : ℕ) (s : Stack) → IsValid s → Returns IsValid (stack_log s n)
unfolding stack_log
stack_log-IsValid n s h = Returns-exit_if IsValid (ltb (length s.items) (n + 2)) stack_underflow _ (
    Returns-bind Popped IsValid (stack_pop s) _ (stack_pop-IsValid s h) λ (offset, s₁) h₁.
      Returns-bind Popped IsValid (stack_pop s₁) _ (stack_pop-IsValid s₁ h₁.1) λ (size, s₂) h₂.
        Returns-bind (λ p. IsValid p.1) IsValid (pop_topics n s₂) _ (pop_topics-IsValid n s₂ h₂.1)
          λ (topics, s₃) h₃.
            Returns-bind (λ _. Unit {0}) IsValid (read_memory s₃.memory offset size) _
              (Returns-any _) λ bytes _. IsValid-log s₃ _ h₃)
