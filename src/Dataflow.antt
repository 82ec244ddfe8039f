-- ===== src/Dataflow.antt =====
-- src/dataflow: the abstract machine, the shared opcode semantics and the worklist engine.
pub mod StackMachine
pub mod Coverage
pub mod Decode
pub mod OpcodeSemantics
pub mod Worklist
