-- ===== src/Cfg.antt =====
-- src/cfg.rs: basic blocks and edges from the instructions of a method. A target is computed in `i32`
-- and cut to `u16`; as in src/scan.rs, a sum that overflows panics.
pub mod Targets
pub mod Overflow
pub mod Blocks
pub mod Leaders
pub mod Edges
pub mod Correct
use inspequte.Base.{
  ℕ, zero, suc, ◌+◌, ◌%◌, ◌^◌, Bool, ◌&&◌, ◌||◌, Option, none, some, List, [], ◌∷◌, ◌++◌, map,
  length, last?, keep, leb, ltb, ◌==◌, if◌then◌else◌,
}
use inspequte.Base.BTree.{BTreeSet, set_insert}
use inspequte.Base.Int.{ℤ, pos, negsuc, ◌+ℤ◌, wrap}
use inspequte.Base.Result.{Result, ok, panic, ◌>>=◌, context, invalid_tableswitch_range}
use inspequte.Bytecode.{
  between, byte_at, i16_of, read_u16, read_i32, switch_count, padding, opcode_length,
}
use inspequte.Ir.{Instruction, EdgeKind, FlowEdge, BasicBlock, ControlFlowGraph}
use inspequte.Opcodes

-- `(offset as i32 + branch) as u16`
abbrev pub fits_i32 : ℤ → Bool
fits_i32 (pos n) = ltb n (2 ^ 31)
fits_i32 (negsuc n) = ltb n (2 ^ 31)

unfoldable pub target_of : ℕ → ℤ → Result ℕ
target_of offset branch =
    let sum = pos offset +ℤ branch in if fits_i32 sum then ok (wrap sum (2 ^ 16)) else panic

unfoldable pub read_i16 : List ℕ → ℕ → Result ℤ
read_i16 code offset = do value ← read_u16 code offset; ok (i16_of value)

-- `for _ in 0..count` over the table, at `idx` and every `stride` bytes
unfoldable pub read_targets : List ℕ → ℕ → ℕ → ℕ → ℕ → Result (List ℕ)
read_targets code offset stride zero idx = ok []
read_targets code offset stride (suc count) idx = do
  branch ← read_i32 code idx
  target ← target_of offset branch
  rest ← read_targets code offset stride count (idx + stride)
  ok (target ∷ rest)

-- the rounds of `0..count` for an `i32` count
abbrev pub rounds : ℤ → ℕ
rounds (pos n) = n
rounds (negsuc n) = 0

unfoldable pub tableswitch_targets : List ℕ → ℕ → Result (List ℕ)
tableswitch_targets code offset = do
  let base = offset + 1 + padding offset
  default ← read_i32 code base
  low ← read_i32 code (base + 4)
  high ← read_i32 code (base + 8)
  count ← context invalid_tableswitch_range (switch_count high low)
  target ← target_of offset default
  rest ← read_targets code offset 4 (rounds count) (base + 12)
  ok (target ∷ rest)

unfoldable pub lookupswitch_targets : List ℕ → ℕ → Result (List ℕ)
lookupswitch_targets code offset = do
  let base = offset + 1 + padding offset
  default ← read_i32 code base
  npairs ← read_i32 code (base + 4)
  target ← target_of offset default
  rest ← read_targets code offset 8 (rounds npairs) (base + 12)
  ok (target ∷ rest)

abbrev pub short_branch : ℕ → Bool
short_branch opcode =
    between 0x99 0xa6 opcode
    || opcode == Opcodes.goto
    || opcode == Opcodes.jsr
    || opcode == 0xc6
    || opcode == 0xc7

unfoldable pub targets_of_opcode : List ℕ → ℕ → ℕ → Result (Option (List ℕ))
targets_of_opcode code offset opcode =
    if short_branch opcode
    then (do
      branch ← read_i16 code (offset + 1)
      target ← target_of offset branch
      ok (some (target ∷ [])))
    else if opcode == Opcodes.goto_w || opcode == Opcodes.jsr_w
    then (do
      branch ← read_i32 code (offset + 1)
      target ← target_of offset branch
      ok (some (target ∷ [])))
    else if opcode == Opcodes.tableswitch
    then (do targets ← tableswitch_targets code offset; ok (some targets))
    else if opcode == Opcodes.lookupswitch
    then (do targets ← lookupswitch_targets code offset; ok (some targets))
    else ok none

unfoldable pub branch_targets : List ℕ → ℕ → Result (Option (List ℕ))
unfolding targets_of_opcode
branch_targets code offset = do opcode ← byte_at code offset; targets_of_opcode code offset opcode

unfoldable pub is_exit_opcode : ℕ → Bool
is_exit_opcode opcode =
    opcode == Opcodes.ireturn
    || opcode == Opcodes.lreturn
    || opcode == Opcodes.freturn
    || opcode == Opcodes.dreturn
    || opcode == Opcodes.areturn
    || opcode == Opcodes.return
    || opcode == Opcodes.athrow

unfoldable pub is_unconditional_branch : ℕ → Bool
is_unconditional_branch opcode =
    opcode == Opcodes.goto
    || opcode == Opcodes.jsr
    || opcode == Opcodes.goto_w
    || opcode == Opcodes.jsr_w

-- `for x in xs { leaders.insert(x); }`
abbrev pub insert_all : List ℕ → BTreeSet → BTreeSet
insert_all [] leaders = leaders
insert_all (x ∷ xs) leaders = insert_all xs (set_insert x leaders)

-- `inst.offset + opcode_length(…)? as u32`
abbrev pub next_offset : List ℕ → Instruction → Result ℕ
next_offset code inst = do n ← opcode_length code inst.offset; ok ((inst.offset + n) % 2 ^ 32)

abbrev pub insert_next : List ℕ → Instruction → BTreeSet → Result BTreeSet
insert_next code inst leaders = do next ← next_offset code inst; ok (set_insert next leaders)

-- `if let Some(targets) = … { … }`
abbrev pub branch_leaders : List ℕ → Instruction → Option (List ℕ) → BTreeSet → Result BTreeSet
branch_leaders code inst none leaders = ok leaders
branch_leaders code inst (some targets) leaders = insert_next code inst (insert_all targets leaders)

-- the body of the loop over the instructions
unfoldable pub instruction_leaders : List ℕ → Instruction → BTreeSet → Result BTreeSet
instruction_leaders code inst leaders = do
  targets ← branch_targets code inst.offset
  leaders' ← branch_leaders code inst targets leaders
  if is_exit_opcode inst.opcode then insert_next code inst leaders' else ok leaders'

unfoldable pub all_leaders : List ℕ → List Instruction → BTreeSet → Result BTreeSet
all_leaders code [] leaders = ok leaders
all_leaders code (inst ∷ insts) leaders =
    instruction_leaders code inst leaders >>= all_leaders code insts

-- `leaders` as a sorted vector without what lies past the code; a `BTreeSet` iterates in ascending
-- order, so the `sort` and `dedup` that follow in the source change nothing
unfoldable pub leader_list : List ℕ → List Instruction → List ℕ → Result (List ℕ)
leader_list code instructions handlers = do
  leaders ← all_leaders code instructions (insert_all handlers (set_insert 0 []))
  ok (keep (λ offset. ltb offset (length code % 2 ^ 32)) leaders)

-- the loop over `windows(2)`, and the last block
unfoldable pub make_blocks : List ℕ → List Instruction → List ℕ → List BasicBlock
make_blocks code instructions [] = []
make_blocks code instructions (start ∷ []) =
    record {
      start_offset = start;
      end_offset = length code % 2 ^ 32;
      instructions = keep (λ inst. leb start inst.offset) instructions;
    }
    ∷ []
make_blocks code instructions (start ∷ end ∷ leaders) =
    record {
      start_offset = start;
      end_offset = end;
      instructions = keep (λ inst. leb start inst.offset && ltb inst.offset end) instructions;
    }
    ∷ make_blocks code instructions (end ∷ leaders)

unfoldable pub next_block_start : List BasicBlock → ℕ → Option ℕ
next_block_start [] offset = none
next_block_start (block ∷ blocks) offset =
    if block.start_offset == offset then some block.start_offset else next_block_start blocks offset

-- `if let Some(next) = next_block_start(…) { edges.push(…) }`
abbrev pub fall_edges : BasicBlock → Option ℕ → List FlowEdge
fall_edges block none = []
fall_edges block (some next) =
    record { from = block.start_offset; to = next; kind = EdgeKind.fall_through } ∷ []

abbrev pub branch_edges : BasicBlock → List ℕ → List FlowEdge
branch_edges block =
    map (λ target. record { from = block.start_offset; to = target; kind = EdgeKind.branch })

abbrev pub edges_by_targets :
    List BasicBlock → BasicBlock → Instruction → Option (List ℕ) → List FlowEdge
edges_by_targets blocks block last (some targets) =
    branch_edges block targets
    ++ (if is_unconditional_branch last.opcode
        then []
        else fall_edges block (next_block_start blocks block.end_offset))
edges_by_targets blocks block last none =
    if is_exit_opcode last.opcode
    then []
    else fall_edges block (next_block_start blocks block.end_offset)

-- the body of the loop over the blocks
abbrev pub edges_after :
    List ℕ → List BasicBlock → BasicBlock → Option Instruction → Result (List FlowEdge)
edges_after code blocks block none = ok []
edges_after code blocks block (some last) = do
  targets ← branch_targets code last.offset
  ok (edges_by_targets blocks block last targets)

unfoldable pub make_edges : List ℕ → List BasicBlock → List BasicBlock → Result (List FlowEdge)
make_edges code blocks [] = ok []
make_edges code blocks (block ∷ rest) = do
  edges ← edges_after code blocks block (last? block.instructions)
  more ← make_edges code blocks rest
  ok (edges ++ more)

unfoldable pub build_cfg : List ℕ → List Instruction → List ℕ → Result ControlFlowGraph
build_cfg code instructions handlers = do
  leaders ← leader_list code instructions handlers
  let blocks = make_blocks code instructions leaders
  edges ← make_edges code blocks blocks
  ok (record { blocks = blocks; edges = edges })
