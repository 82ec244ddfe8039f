-- ===== src/Rules/LockRelease/Paths.antt =====
-- What the rule of src/rules/lock_not_released_on_exception_path/mod.rs looks for, stated on the
-- control flow graph alone.
use inspequte.Base.{ℕ, ◌+◌, ◌≤◌, ◌≡◌, some, false, length, get_elem?}
use inspequte.Ir.{Instruction, BasicBlock, Method}
use inspequte.Dataflow.Worklist.Graph.{Edge}
use inspequte.Rules.LockRelease.{is_unlock_invocation}
use mathlib.Core.List.{Memᴰ}

-- From the instruction `index` of the block that starts at `start`, some path reaches the end of a
-- block that no edge leaves, and passes no unlock.
pub data Leaks (method : Method) : ℕ → ℕ → Type 0 where
  exit :
      {block : BasicBlock} {index : ℕ}
      → Memᴰ block method.cfg.blocks
      → length block.instructions ≤ index
      → ((t : ℕ) → ¬ Edge method.cfg.edges block.start_offset t)
      → Leaks method block.start_offset index
  jump :
      {block : BasicBlock} {index t : ℕ}
      → Memᴰ block method.cfg.blocks
      → length block.instructions ≤ index
      → Edge method.cfg.edges block.start_offset t
      → Leaks method t 0
      → Leaks method block.start_offset index
  pass :
      {block : BasicBlock} {index : ℕ} {instruction : Instruction}
      → Memᴰ block method.cfg.blocks
      → get_elem? block.instructions index ≡ some instruction
      → is_unlock_invocation instruction ≡ false
      → Leaks method block.start_offset (index + 1)
      → Leaks method block.start_offset index
