-- ===== src/Dataflow/Coverage.antt =====
-- src/dataflow/opcode_semantics.rs: the coverage counters. A counter is an unbounded number: it
-- counts executed instructions, in a `usize`.
pub mod Laws
use inspequte.Base.{ℕ, ◌+◌, List, [], ◌∷◌}
use inspequte.Base.BTree.{BTreeMap, get, insert}
use inspequte.Dataflow.StackMachine.{unwrap_or}

pub record SemanticsCoverage : Type 0 where
  pub applied_by_hook : ℕ
  pub applied_by_default : ℕ
  pub fallback_not_handled : ℕ
  pub overridden_opcodes : BTreeMap ℕ
  pub fallback_opcodes : BTreeMap ℕ

-- `SemanticsCoverage::default()`
abbrev pub default_coverage : SemanticsCoverage
default_coverage = record {
  applied_by_hook = 0;
  applied_by_default = 0;
  fallback_not_handled = 0;
  overridden_opcodes = [];
  fallback_opcodes = [];
}

-- `map.get(&opcode).copied().unwrap_or(0)`
unfoldable pub count_of : ℕ → BTreeMap ℕ → ℕ
count_of opcode counts = unwrap_or (get opcode counts) 0

-- `*map.entry(opcode).or_insert(0) += count`
unfoldable pub add_count : ℕ → ℕ → BTreeMap ℕ → BTreeMap ℕ
unfolding count_of
add_count opcode count counts = insert opcode (count_of opcode counts + count) counts

unfoldable pub record_hook_override : ℕ → SemanticsCoverage → SemanticsCoverage
record_hook_override opcode c = record c {
  applied_by_hook = c.applied_by_hook + 1;
  overridden_opcodes = add_count opcode 1 c.overridden_opcodes;
}

unfoldable pub record_default_apply : SemanticsCoverage → SemanticsCoverage
record_default_apply c = record c { applied_by_default = c.applied_by_default + 1 }

unfoldable pub record_fallback : ℕ → SemanticsCoverage → SemanticsCoverage
record_fallback opcode c = record c {
  fallback_not_handled = c.fallback_not_handled + 1;
  fallback_opcodes = add_count opcode 1 c.fallback_opcodes;
}

abbrev pub hook_override_count : ℕ → SemanticsCoverage → ℕ
hook_override_count opcode c = count_of opcode c.overridden_opcodes

abbrev pub fallback_count : ℕ → SemanticsCoverage → ℕ
fallback_count opcode c = count_of opcode c.fallback_opcodes

-- one of the `for` loops of `merge_from`, over the entries of the other map
unfoldable pub merge_counts : BTreeMap ℕ → BTreeMap ℕ → BTreeMap ℕ
merge_counts [] counts = counts
merge_counts ((opcode, count) ∷ others) counts = merge_counts others (add_count opcode count counts)

unfoldable pub merge_from : SemanticsCoverage → SemanticsCoverage → SemanticsCoverage
merge_from other c = record {
  applied_by_hook = c.applied_by_hook + other.applied_by_hook;
  applied_by_default = c.applied_by_default + other.applied_by_default;
  fallback_not_handled = c.fallback_not_handled + other.fallback_not_handled;
  overridden_opcodes = merge_counts other.overridden_opcodes c.overridden_opcodes;
  fallback_opcodes = merge_counts other.fallback_opcodes c.fallback_opcodes;
}
