-- ===== src/Rules/LockRelease/Visits.antt =====
-- One round of the engine under the analysis of
-- src/rules/lock_not_released_on_exception_path/mod.rs.
use inspequte.Base.{
  ℕ, ◌+◌, ◌≤◌, ◌<◌, ◌≡◌, refl, Bool, true, false, ◌||◌, none, some, List, [], ◌∷◌, length,
  get_elem?, arith, leb, ltb, Bool-cases, Option-cases, inl, inr, leb→le, ltb→lt, leb-false,
  ==_refl,
}
use inspequte.Base.BTree.{get}
use inspequte.Base.Result.{Result, ok}
use inspequte.Ir.{Instruction, BasicBlock, Method}
use inspequte.Dataflow.Worklist.{
  Semantics, BlockEndStep, visit, visit_block, execute, end_block, enqueue, new_graph,
  successors_for,
}
use inspequte.Rules.LockRelease.{
  LockSite, ExplorationState, lock_path_semantics, equal_states, same_flag, block_end,
  is_unlock_invocation,
}

get_elem?-inside {ℓ} :
    {A : Type ℓ} (xs : List A) (i : ℕ) → i < length xs → (x : A) × (get_elem? xs i ≡ some x)
get_elem?-inside [] i h = absurd (omega arith)
get_elem?-inside (x ∷ xs) ℕ.zero h = (x, refl)
get_elem?-inside (x ∷ xs) (ℕ.suc i) h = get_elem?-inside xs i (omega arith)

pub equal_states_refl : (s : ExplorationState) → equal_states s s ≡ true
equal_states_refl s =
    ground (arith, ==_refl s.block_start, ==_refl s.instruction_index, flag s.unlock_seen)
  where
    flag : (b : Bool) → same_flag b b ≡ true
    flag true = refl
    flag false = refl

pub equal_states_sound : (s t : ExplorationState) → equal_states s t ≡ true → s ≡ t
equal_states_sound s t h = ground arith

module _ (method : Method) (site : LockSite) where
  abbrev sem : Semantics ExplorationState (Unit {0})
  sem = lock_path_semantics site

  -- what the end of a block adds
  abbrev pub at_end : ExplorationState → BlockEndStep ExplorationState (Unit {0})
  at_end s =
      enqueue (lock_path_semantics site) method
        (block_end s (successors_for (new_graph method) s.block_start))

  -- the state after an instruction
  abbrev pub after : ExplorationState → Instruction → ExplorationState
  after s i = record {
    block_start = s.block_start;
    instruction_index = s.instruction_index + 1;
    unlock_seen = s.unlock_seen || is_unlock_invocation i;
  }

  -- the rounds: no block, the end of a block, an instruction inside a block, the last instruction
  pub data Visited (s : ExplorationState) (o : BlockEndStep ExplorationState (Unit {0}))
      : Type 0 where
    no_block :
        get s.block_start (new_graph method).blocks ≡ none
        → o ≡ record { findings = []; next_states = [] }
        → Visited s o
    ended :
        (block : BasicBlock)
        → get s.block_start (new_graph method).blocks ≡ some block
        → length block.instructions ≤ s.instruction_index
        → o ≡ at_end s
        → Visited s o
    inside :
        (block : BasicBlock) (i : Instruction)
        → get s.block_start (new_graph method).blocks ≡ some block
        → get_elem? block.instructions s.instruction_index ≡ some i
        → s.instruction_index + 1 < length block.instructions
        → o ≡ record { findings = []; next_states = after s i ∷ [] }
        → Visited s o
    last :
        (block : BasicBlock) (i : Instruction)
        → get s.block_start (new_graph method).blocks ≡ some block
        → get_elem? block.instructions s.instruction_index ≡ some i
        → length block.instructions ≤ s.instruction_index + 1
        → o ≡ at_end (after s i)
        → Visited s o

  abbrev Round : ExplorationState → Result (BlockEndStep ExplorationState (Unit {0})) → Type 0
  Round s r = (o : BlockEndStep ExplorationState (Unit {0})) × (r ≡ ok o) × Visited s o

  execute-Round :
      (s : ExplorationState) (block : BasicBlock) (i : Instruction)
      → get s.block_start (new_graph method).blocks ≡ some block
      → get_elem? block.instructions s.instruction_index ≡ some i
      → Round s (execute sem method s (some i))
  unfolding execute lock_path_semantics end_block
  execute-Round s block i found here =
      elim (Bool-cases (ltb (s.instruction_index + 1) (length block.instructions))) [
        | inl more ↦ (
          record { findings = []; next_states = after s i ∷ [] },
          rw found (rw more refl),
          Visited.inside block i found here (ltb→lt _ _ more) refl,
        )
        | inr done ↦ (
          at_end (after s i),
          rw found (rw done refl),
          Visited.last block i found here
              (omega (arith, ltb_ge (s.instruction_index + 1) (length block.instructions) done))
              refl,
        )
      ]
    where
      ltb_ge : (a b : ℕ) → ltb a b ≡ false → b ≤ a
      ltb_ge a b h = ground arith

  block-Round :
      (s : ExplorationState) (block : BasicBlock)
      → get s.block_start (new_graph method).blocks ≡ some block
      → Round s (visit_block sem method s (some block))
  unfolding visit_block lock_path_semantics end_block
  block-Round s block found =
      elim (Bool-cases (leb (length block.instructions) s.instruction_index)) [
        | inl over ↦ (at_end s, rw over refl, Visited.ended block found (leb→le _ _ over) refl)
        | inr more ↦
            let (i, here) =
              get_elem?-inside block.instructions s.instruction_index (leb-false _ _ more) in
            let (o, e, v) = execute-Round s block i found here in (o, rw (more, here) e, v)
      ]

  pub visit-Visited :
      (s : ExplorationState)
      → (o : BlockEndStep ExplorationState (Unit {0})) × (visit sem method s ≡ ok o) × Visited s o
  unfolding visit lock_path_semantics
  visit-Visited s = elim (Option-cases (get s.block_start (new_graph method).blocks)) [
    | inl missing ↦
        (record { findings = []; next_states = [] }, rw missing refl, Visited.no_block missing refl)
    | inr found ↦ let (o, e, v) = block-Round s found.0 found.1 in (o, rw (found.1) e, v)
  ]
