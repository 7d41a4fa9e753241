-- ===== src/Vm.antt =====
-- smart_contract_platform/vm.c: the stack machine that executes contract bytecode.
pub mod Outcome
pub mod Int64
pub mod Stack
pub mod Arith
pub mod Compare
pub mod Access
pub mod Opcode
pub mod Execute
pub mod Compiler
pub mod Main
mod Tests
mod Witnesses
pub mod Valid
