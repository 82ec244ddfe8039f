-- ===== src/Rules/LockRelease.antt =====
-- src/rules/lock_not_released_on_exception_path/mod.rs: the rule that looks for an exit reached with a
-- lock held. The rule is modelled up to the sites that it reports: the message and the location of
-- a report are left out.
pub mod Paths
pub mod Visits
pub mod Space
pub mod Correct
pub mod Found
use inspequte.Base.{
  ℕ, zero, suc, ◌+◌, Bool, true, false, not, ◌&&◌, ◌||◌, ◌++◌, Option, none, some, List, [], ◌∷◌,
  ◌==◌, if◌then◌else◌,
}
use inspequte.Base.BTree.{BTreeSet, contains, set_insert}
use inspequte.Base.Result.{Result, ok, err, panic}
use inspequte.Base.Sorting.{sort_by_key}
use inspequte.Base.Text.{equal_text}
use inspequte.Ir.{CallSite, Instruction, InstructionKind, invoke, BasicBlock, Method}
use Prim.Native.String.{String}
use inspequte.Dataflow.Worklist.{
  Semantics, BlockEndStep, InstructionStep, continue_path, terminal, end_with_finding,
  follow_all_successors, analyze_method,
}

pub record LockSite : Type 0 where
  pub block_start : ℕ
  pub instruction_index : ℕ
  pub offset : ℕ

pub record ExplorationState : Type 0 where
  pub block_start : ℕ
  pub instruction_index : ℕ
  pub unlock_seen : Bool

abbrev pub lock_owner : String → Bool
lock_owner owner =
    equal_text owner "java/util/concurrent/locks/Lock"
    || equal_text owner "java/util/concurrent/locks/ReentrantLock"

-- the test of both functions below, on the name of the method
abbrev pub lock_call : String → InstructionKind → Bool
lock_call name (invoke call) =
    equal_text call.name name && equal_text call.descriptor "()V" && lock_owner call.owner
lock_call name _ = false

unfoldable pub is_lock_invocation : Instruction → Bool
is_lock_invocation instruction = lock_call "lock" instruction.kind

unfoldable pub is_unlock_invocation : Instruction → Bool
is_unlock_invocation instruction = lock_call "unlock" instruction.kind

-- the derived equality of `ExplorationState`
abbrev pub same_flag : Bool → Bool → Bool
same_flag true b = b
same_flag false b = not b

abbrev pub equal_states : ExplorationState → ExplorationState → Bool
equal_states s t =
    s.block_start == t.block_start
    && s.instruction_index == t.instruction_index
    && same_flag s.unlock_seen t.unlock_seen

abbrev pub move_to : ExplorationState → ℕ → ℕ → ExplorationState
move_to s block_start instruction_index = record s {
  block_start = block_start;
  instruction_index = instruction_index;
}

-- `on_block_end` at a block without successors
abbrev pub exit_step : Bool → BlockEndStep ExplorationState (Unit {0})
exit_step true = terminal
exit_step false = end_with_finding tt terminal

-- `on_block_end`
abbrev pub block_end : ExplorationState → List ℕ → BlockEndStep ExplorationState (Unit {0})
block_end state [] = exit_step state.unlock_seen
block_end state (s ∷ successors) = follow_all_successors move_to state (s ∷ successors)

unfoldable pub lock_path_semantics : LockSite → Semantics ExplorationState (Unit {0})
lock_path_semantics site = record {
  block_start = λ s. s.block_start;
  instruction_index = λ s. s.instruction_index;
  set_position = move_to;
  equal = equal_states;
  initial_states = λ method.
      record {
        block_start = site.block_start;
        instruction_index = site.instruction_index + 1;
        unlock_seen = false;
      }
      ∷ [];
  canonicalize_state = λ s. s;
  transfer_instruction = λ method instruction s.
      ok (
        record s { unlock_seen = s.unlock_seen || is_unlock_invocation instruction },
        continue_path,
      );
  on_block_end = λ method s successors. ok (block_end s successors);
}

-- `!findings.is_empty()`
abbrev pub found_any : List (Unit {0}) → Bool
found_any [] = false
found_any (f ∷ findings) = true

abbrev pub any_finding : Option (Result (List (Unit {0}))) → Option (Result Bool)
any_finding (some (ok findings)) = some (ok (found_any findings))
any_finding (some (err e)) = some (err e)
any_finding (some panic) = some panic
any_finding none = none

-- on the fuel of the engine
unfoldable pub has_exit_path_without_unlock : ℕ → Method → LockSite → Option (Result Bool)
has_exit_path_without_unlock fuel method site =
    any_finding (analyze_method (lock_path_semantics site) method fuel)

-- the sites of a block, from an index on
unfoldable pub block_sites : ℕ → ℕ → List Instruction → List LockSite
unfolding is_lock_invocation
block_sites block_start index [] = []
block_sites block_start index (instruction ∷ rest) =
    let sites = block_sites block_start (index + 1) rest in
    if is_lock_invocation instruction
    then record {
      block_start = block_start;
      instruction_index = index;
      offset = instruction.offset;
    }
      ∷ sites
    else sites

-- the loops over the blocks and their instructions
unfoldable pub all_sites : List BasicBlock → List LockSite
unfolding block_sites
all_sites [] = []
all_sites (block ∷ blocks) = block_sites block.start_offset 0 block.instructions ++ all_sites blocks

unfoldable pub sort_sites : List LockSite → List LockSite
unfolding sort_by_key
sort_sites sites = sort_by_key (λ site. site.offset) sites

unfoldable pub lock_sites : Method → List LockSite
unfolding all_sites sort_sites
lock_sites method = sort_sites (all_sites method.cfg.blocks)

-- a report of the site, or none, before those of the later sites
abbrev pub report :
    LockSite
    → Option (Result Bool)
    → Option (Result (List LockSite))
    → Option (Result (List LockSite))
report site (some (ok leaks)) (some (ok reports)) =
    some (ok (if leaks then site ∷ reports else reports))
report site (some (ok leaks)) rest = rest
report site (some (err e)) rest = some (err e)
report site (some panic) rest = some panic
report site none rest = none

-- the loop over the sites of a method; `seen_offsets` skips an offset that came before
unfoldable pub report_sites :
    ℕ → Method → BTreeSet → List LockSite → Option (Result (List LockSite))
unfolding has_exit_path_without_unlock
report_sites fuel method seen_offsets [] = some (ok [])
report_sites fuel method seen_offsets (site ∷ sites) =
    let skipped = report_sites fuel method seen_offsets sites in
    let later = report_sites fuel method (set_insert site.offset seen_offsets) sites in
    if contains site.offset seen_offsets
    then skipped
    else report site (has_exit_path_without_unlock fuel method site) later

-- the body of the loop over the methods
unfoldable pub run_method : ℕ → Method → Option (Result (List LockSite))
unfolding report_sites lock_sites
run_method fuel method = method_reports method.bytecode
  where
    method_reports : List ℕ → Option (Result (List LockSite))
    method_reports [] = some (ok [])
    method_reports (b ∷ bytes) = report_sites fuel method [] (lock_sites method)
