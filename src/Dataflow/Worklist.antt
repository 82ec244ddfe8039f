-- ===== src/Dataflow/Worklist.antt =====
-- src/dataflow/worklist.rs: the engine that runs an analysis over the blocks of a method. The
-- analysis is the record `Semantics`, the source's trait `WorklistSemantics` with the trait
-- `WorklistState` of its states.
pub mod Graph
pub mod Blocks
pub mod Reached
pub mod Runs
pub mod Terminates
use inspequte.Base.{
  ℕ, zero, suc, ◌+◌, ◌≡◌, refl, Bool, true, false, ◌||◌, Option, none, some, List, [], ◌∷◌, ◌++◌,
  map, length, get_elem?, leb, ltb, ◌==◌, if◌then◌else◌,
}
use inspequte.Base.BTree.{BTreeMap, get, insert, map_values}
use inspequte.Base.Result.{Result, ok, err, panic, ◌>>=◌}
use inspequte.Ir.{Instruction, FlowEdge, BasicBlock, Method}

-- `InstructionStep`
pub record InstructionStep (Finding : Type 0) : Type 0 where
  pub findings : List Finding
  pub terminate_path : Bool

-- `BlockEndStep`
pub record BlockEndStep (State Finding : Type 0) : Type 0 where
  pub findings : List Finding
  pub next_states : List State

abbrev pub continue_path : {Finding : Type 0} → InstructionStep Finding
continue_path = record { findings = []; terminate_path = false }

abbrev pub terminate : {Finding : Type 0} → InstructionStep Finding
terminate = record { findings = []; terminate_path = true }

-- `InstructionStep::with_finding`
abbrev pub with_finding :
    {Finding : Type 0} → Finding → InstructionStep Finding → InstructionStep Finding
with_finding finding step = record {
  findings = step.findings ++ finding ∷ [];
  terminate_path = step.terminate_path;
}

abbrev pub terminal : {State Finding : Type 0} → BlockEndStep State Finding
terminal = record { findings = []; next_states = [] }

-- `BlockEndStep::with_finding`
abbrev pub end_with_finding :
    {State Finding : Type 0} → Finding → BlockEndStep State Finding → BlockEndStep State Finding
end_with_finding finding step = record {
  findings = step.findings ++ finding ∷ [];
  next_states = step.next_states;
}

-- `transfer_instruction` changes the state in place: it returns the state with its step.
pub record Semantics (State Finding : Type 0) : Type 0 where
  pub block_start : State → ℕ
  pub instruction_index : State → ℕ
  pub set_position : State → ℕ → ℕ → State
  pub equal : State → State → Bool
  pub initial_states : Method → List State
  pub canonicalize_state : State → State
  pub transfer_instruction : Method → Instruction → State → Result (State × InstructionStep Finding)
  pub on_block_end : Method → State → List ℕ → Result (BlockEndStep State Finding)

-- `BlockEndStep::follow_all_successors`, what `on_block_end` is when an analysis gives none
abbrev pub follow_all_successors :
    {State Finding : Type 0} → (State → ℕ → ℕ → State) → State → List ℕ → BlockEndStep State Finding
follow_all_successors set_position state successors = record {
  findings = [];
  next_states = map (λ successor. set_position state successor 0) successors;
}

-- `MethodGraph`
pub record MethodGraph : Type 0 where
  pub blocks : BTreeMap BasicBlock
  pub successors : BTreeMap (List ℕ)

unfoldable pub insert_blocks : List BasicBlock → BTreeMap BasicBlock → BTreeMap BasicBlock
insert_blocks [] blocks = blocks
insert_blocks (block ∷ rest) blocks = insert_blocks rest (insert block.start_offset block blocks)

-- `entry(key).or_default()` followed by a change of the value
abbrev pub at_entry : Option (List ℕ) → List ℕ
at_entry none = []
at_entry (some targets) = targets

unfoldable pub default_entries : List BasicBlock → BTreeMap (List ℕ) → BTreeMap (List ℕ)
default_entries [] successors = successors
default_entries (block ∷ rest) successors =
    default_entries rest
      (insert block.start_offset (at_entry (get block.start_offset successors)) successors)

unfoldable pub push_edges : List FlowEdge → BTreeMap (List ℕ) → BTreeMap (List ℕ)
push_edges [] successors = successors
push_edges (edge ∷ rest) successors =
    push_edges rest
      (insert edge.from (at_entry (get edge.from successors) ++ edge.to ∷ []) successors)

-- `sort`: by insertion
abbrev pub sort_insert : ℕ → List ℕ → List ℕ
sort_insert x [] = x ∷ []
sort_insert x (y ∷ ys) = if leb x y then x ∷ y ∷ ys else y ∷ sort_insert x ys

unfoldable pub sort : List ℕ → List ℕ
sort [] = []
sort (x ∷ xs) = sort_insert x (sort xs)

-- `dedup`
unfoldable pub dedup : List ℕ → List ℕ
dedup [] = []
dedup (x ∷ []) = x ∷ []
dedup (x ∷ y ∷ ys) = let rest = dedup (y ∷ ys) in if x == y then rest else x ∷ rest

-- `MethodGraph::new`
unfoldable pub new_graph : Method → MethodGraph
new_graph method = record {
  blocks = insert_blocks method.cfg.blocks [];
  successors =
      map_values (λ targets. dedup (sort targets))
        (push_edges method.cfg.edges (default_entries method.cfg.blocks []));
}

unfoldable pub successors_for : MethodGraph → ℕ → List ℕ
successors_for graph block_start = at_entry (get block_start graph.successors)

-- the next round, or the early return of an error
abbrev pub go_on {ℓ κ} :
    {A : Type ℓ} {B : Type κ} → (A → Option (Result B)) → Result A → Option (Result B)
go_on continue (ok a) = continue a
go_on continue (err e) = some (err e)
go_on continue panic = some panic

module _ {State Finding : Type 0} (semantics : Semantics State Finding) (method : Method) where
  -- What a round adds: findings, and states for the queue.
  abbrev pub Outcome : Type 0
  Outcome = BlockEndStep State Finding

  abbrev pub nothing : Outcome
  nothing = record { findings = []; next_states = [] }

  -- `enqueue_block_end_step`
  unfoldable pub enqueue : Outcome → Outcome
  enqueue step = record {
    findings = step.findings;
    next_states = map semantics.canonicalize_state step.next_states;
  }

  abbrev pub graph : MethodGraph
  graph = new_graph method

  unfoldable pub end_block : State → Result Outcome
  unfolding enqueue
  end_block state = do
    step ← semantics.on_block_end method state (successors_for graph (semantics.block_start state))
    ok (enqueue step)

  abbrev pub add_findings : List Finding → Outcome → Outcome
  add_findings findings outcome = record {
    findings = findings ++ outcome.findings;
    next_states = outcome.next_states;
  }

  -- after a transfer that goes on, in the block of the next state
  unfoldable pub continue_in : Option BasicBlock → State → Result Outcome
  unfolding end_block
  continue_in none next = ok nothing
  continue_in (some block) next =
      if ltb (semantics.instruction_index next) (length block.instructions)
      then ok (record { findings = []; next_states = next ∷ [] })
      else end_block next

  -- after the transfer of an instruction
  unfoldable pub after_transfer : State × InstructionStep Finding → Result Outcome
  unfolding continue_in
  after_transfer (next, step) =
      if step.terminate_path
      then ok (record { findings = step.findings; next_states = [] })
      else (do
        let next' = semantics.canonicalize_state next
        rest ← continue_in (get (semantics.block_start next') graph.blocks) next'
        ok (add_findings step.findings rest))

  -- the instruction at the state's index, which indexing panics without
  unfoldable pub execute : State → Option Instruction → Result Outcome
  unfolding after_transfer
  execute state none = panic
  execute state (some instruction) =
      semantics.transfer_instruction method instruction (
        semantics.set_position state (semantics.block_start state)
          (semantics.instruction_index state + 1))
      >>= after_transfer

  unfoldable pub visit_block : State → Option BasicBlock → Result Outcome
  unfolding end_block execute
  visit_block state none = ok nothing
  visit_block state (some block) =
      if leb (length block.instructions) (semantics.instruction_index state)
      then end_block state
      else execute state (get_elem? block.instructions (semantics.instruction_index state))

  -- the body of the loop from the lookup of the block on
  unfoldable pub visit : State → Result Outcome
  unfolding visit_block
  visit state = visit_block state (get (semantics.block_start state) graph.blocks)

  -- `visited.contains(&state)`
  unfoldable pub seen : State → List State → Bool
  seen state [] = false
  seen state (s ∷ visited) = semantics.equal state s || seen state visited

  -- `while let Some(state) = queue.pop_front()`, on fuel: `none` when it runs out. The findings are
  -- appended as the rounds produce them.
  unfoldable pub run : ℕ → List State → List State → List Finding → Option (Result (List Finding))
  unfolding visit seen
  run zero queue visited findings = none
  run (suc fuel) [] visited findings = some (ok findings)
  run (suc fuel) (q ∷ queue) visited findings =
      let state = semantics.canonicalize_state q in
      let skip = run fuel queue visited findings in
      if seen state visited
      then skip
      else go_on (λ o. run fuel (queue ++ o.next_states) (state ∷ visited) (findings ++ o.findings))
          (visit state)

  unfoldable pub analyze_method : ℕ → Option (Result (List Finding))
  unfolding run
  analyze_method fuel =
      run fuel (map semantics.canonicalize_state (semantics.initial_states method)) [] []
