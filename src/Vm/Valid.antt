-- ===== src/Vm/Valid.antt =====
-- The invariant of the machine of vm.c: no more values than the capacity, every value an `int64_t`,
-- and 32 bytes of memory.
pub mod Stack
pub mod Log
pub mod Values
pub mod Access
pub mod Steps
pub mod Run
pub mod Create
