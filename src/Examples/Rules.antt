-- ===== src/Examples/Rules.antt =====
-- A method that takes a lock and may leave without releasing it.
use inspequte.Base.{ℕ, ◌≡◌, ◌↔◌, refl, Bool, true, some, none, List, [], ◌∷◌, leb→le}
use inspequte.Base.Result.{ok}
use inspequte.Ir.{
  invoke, other, virtual, Instruction, BasicBlock, FlowEdge, EdgeKind, Method, unknown_nullness,
}
use inspequte.Dataflow.Worklist.{
  new_graph, successors_for, analyze_method, insert_blocks, push_edges, default_entries, dedup,
  sort,
}
use inspequte.Base.BTree.{get, insert}
use inspequte.Dataflow.Worklist.Graph.{Edge, successors_for-Edge}
use inspequte.Dataflow.Worklist.Blocks.{Distinct}
use inspequte.Rules.LockRelease.{
  LockSite, lock_path_semantics, is_unlock_invocation, has_exit_path_without_unlock,
}
use inspequte.Rules.LockRelease.Paths.{Leaks}
use inspequte.Rules.LockRelease.Found.{has_exit_path_without_unlock-Leaks}
use Prim.Native.String.{String}
use mathlib.Core.List.{Memᴰ}

abbrev call : ℕ → String → Instruction
call offset name = record {
  offset = offset;
  opcode = 182;
  kind = invoke (record {
    owner = "java/util/concurrent/locks/Lock";
    name = name;
    descriptor = "()V";
    kind = virtual;
    offset = offset;
  });
}

abbrev simple : ℕ → ℕ → Instruction
simple offset opcode = record { offset = offset; opcode = opcode; kind = other opcode }

-- lock and branch; the branch returns, the other path unlocks and returns
abbrev blocks : List BasicBlock
blocks =
    record { start_offset = 0; end_offset = 7; instructions = call 1 "lock" ∷ simple 4 153 ∷ [] }
    ∷ record {
      start_offset = 7;
      end_offset = 12;
      instructions = call 8 "unlock" ∷ simple 11 177 ∷ [];
    }
    ∷ record { start_offset = 12; end_offset = 13; instructions = simple 12 177 ∷ [] }
    ∷ []

abbrev edges : List FlowEdge
edges =
    record { from = 0; to = 7; kind = EdgeKind.fall_through }
    ∷ record { from = 0; to = 12; kind = EdgeKind.branch }
    ∷ []

abbrev method : Method
method = record {
  name = "update";
  descriptor = "(I)V";
  signature = none;
  access = record {
    is_public = true;
    is_static = Bool.false;
    is_synchronized = Bool.false;
    is_abstract = Bool.false;
    is_synthetic = Bool.false;
    is_bridge = Bool.false;
  };
  nullness = unknown_nullness 1;
  type_use = none;
  bytecode = 42 ∷ 182 ∷ 0 ∷ 1 ∷ 153 ∷ 0 ∷ 8 ∷ 42 ∷ 182 ∷ 0 ∷ 2 ∷ 177 ∷ 177 ∷ [];
  line_numbers = [];
  cfg = record { blocks = blocks; edges = edges };
  calls = [];
  string_literals = [];
  exception_handlers = [];
  local_variables = [];
  local_variable_types = [];
}

abbrev site : LockSite
site = record { block_start = 0; instruction_index = 0; offset = 1 }

blocks-Distinct : Distinct method.cfg.blocks
blocks-Distinct = (((λ e. cc e), ((λ e. cc e), tt)), (((λ e. cc e), tt), (tt, tt)))

has_exit_path_without_unlock-Leaks_example :
    (b : Bool) × (has_exit_path_without_unlock 200 method site ≡ some (ok b))
    × ((b ≡ true) ↔ Leaks method 0 1)
has_exit_path_without_unlock-Leaks_example =
    has_exit_path_without_unlock-Leaks method site blocks-Distinct 200 (leb→le _ _ refl)

leaks_lem : has_exit_path_without_unlock 200 method site ≡ some (ok true)
unfolding has_exit_path_without_unlock analyze_method lock_path_semantics get new_graph
    insert_blocks insert successors_for push_edges default_entries dedup sort is_unlock_invocation
leaks_lem = refl

successors_for-Edge_example :
    Memᴰ 12 (successors_for (new_graph method) 0) ↔ Edge method.cfg.edges 0 12
successors_for-Edge_example = successors_for-Edge method 0 12
