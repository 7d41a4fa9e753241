-- ===== src/Vm/Stack/Logs.antt =====
-- What LOGn does: the range of memory and the topics that it logs.
use manhattan_group.Base.{
  ℕ, suc, ◌+◌, ◌-◌, ◌≤◌, ◌≡◌, refl, ap, false, arith, List, [], ◌∷◌, ◌++◌, length, length-append,
  take, drop, ltb, ◌||◌,
}
use manhattan_group.Base.{ℤ, pos, ◌+ℤ◌}
use manhattan_group.Vm.Outcome.{ok, ◌>>◌, exit_if, memory_out_of_bounds}
use manhattan_group.Vm.Stack.{
  Stack, stack_pop, pop_topics, stack_log, read_memory, pointer_at, Memory,
}

pop_topics_lem :
    (s : Stack) (topics rest : List ℤ)
    → pop_topics (length topics) (record s { items = topics ++ rest })
      ≡ ok (topics, record s { items = rest })
unfolding pop_topics stack_pop
pop_topics_lem s [] rest = refl
pop_topics_lem s (v ∷ topics) rest = rw (pop_topics_lem s topics rest)

sum_pos : (a b : ℕ) → pos a +ℤ pos b ≡ pos (a + b)
unfolding ◌+ℤ◌
sum_pos a b = ground arith

pointer_inside : (m : Memory) (n : ℕ) → n ≤ m.size → pointer_at m (pos n) ≡ ok n
pointer_inside m n h = ground arith

range_inside :
    (m : Memory) (start end : ℕ) (xs : List ℕ)
    → end ≤ m.size
    → (exit_if (ltb start 0 || ltb m.size end) memory_out_of_bounds >> ok xs) ≡ ok xs
range_inside m start end xs h = ground arith

read_memory_lem :
    (m : Memory) (offset size : ℕ)
    → offset + size ≤ m.size
    → read_memory m (pos offset) (pos size) ≡ ok (take size (drop offset m.bytes))
unfolding read_memory
read_memory_lem m offset size h =
    rw
      (
        pointer_inside m offset (omega arith),
        sum_pos offset size,
        pointer_inside m (offset + size) h,
        range_inside m offset (offset + size) (take (offset + size - offset) (drop offset m.bytes))
            h,
      )
      (ap (λ (t : ℕ). ok (take t (drop offset m.bytes)))
        (let e : offset + size - offset ≡ size = omega arith in e))

log_deep : (n m : ℕ) → n ≤ m → (ltb (suc (suc m)) (n + 2)) ≡ false
log_deep n m h = ground arith

-- LOGn with an offset, a size and n topics on the stack, of a range that lies in the memory, pops them
-- and logs the bytes of the range and the topics, the upper one first; nothing else changes.
pub stack_log_lem :
    (s : Stack) (offset size : ℕ) (topics rest : List ℤ)
    → s.items ≡ pos offset ∷ pos size ∷ (topics ++ rest)
    → offset + size ≤ s.memory.size
    → stack_log s (length topics)
      ≡ ok (record s {
        items = rest;
        log =
            record {
              topic_count = length topics;
              memory_data = take size (drop offset s.memory.bytes);
              topics = topics;
            }
            ∷ s.log;
      })
unfolding stack_log stack_pop
stack_log_lem s offset size topics rest e h = rw (
  e,
  log_deep (length topics) (length (topics ++ rest)) (omega (arith, length-append topics rest)),
  pop_topics_lem s topics rest,
  read_memory_lem s.memory offset size h,
)
