-- ===== src/Examples/Engine.antt =====
-- A method of one block, its analysis and its coverage.
use inspequte.Base.{
  ℕ, ◌+◌, ◌≤◌, ◌≡◌, refl, sym, ◌∙◌, subst, true, false, none, some, List, [], ◌∷◌, length, arith,
  All, ◌==◌, ==→eq, ==_refl,
}
use inspequte.Base.BTree.{get, insert}
use inspequte.Base.Result.{Result, ok, ok-injective}
use inspequte.Ir.{other, BasicBlock, EdgeKind, Method, unknown_nullness}
use inspequte.Dataflow.Worklist.{
  Semantics, BlockEndStep, with_finding, continue_path, terminal, visit, analyze_method, new_graph,
  insert_blocks,
}
use inspequte.Dataflow.Worklist.Reached.{
  Queued, Produced, analyze_method-Produced, analyze_method_complete,
}
use inspequte.Dataflow.Worklist.Terminates.{analyze_method-Ends}
use inspequte.Dataflow.Coverage.{
  SemanticsCoverage, record_fallback, add_count, default_coverage, merge_from, hook_override_count,
  fallback_count,
}
use inspequte.Dataflow.Coverage.Laws.{IsCounted, merge_from-IsCounted}
use inspequte.Dataflow.Decode.{decode, swap}
use inspequte.Dataflow.OpcodeSemantics.{
  ValueDomain, SemanticsHooks, ApplyOutcome, Applying, not_handled, apply_effect, apply_semantics,
}
use inspequte.Dataflow.OpcodeSemantics.Effects.{on, swapped, apply_effect-Shift}
use inspequte.Dataflow.OpcodeSemantics.Counting.{taker, IsCall, apply_semantics-IsCall}
use inspequte.Dataflow.StackMachine.{StackMachine, default_config}
use inspequte.Dataflow.StackMachine.Keeps.{IsValid}
use mathlib.Core.List.{Memᴰ}

abbrev block : BasicBlock
block = record {
  start_offset = 0;
  end_offset = 3;
  instructions = record { offset = 0; opcode = 167; kind = other 167 } ∷ [];
}

-- goto 0
abbrev method : Method
method = record {
  name = "spin";
  descriptor = "()V";
  signature = none;
  access = record {
    is_public = true;
    is_static = true;
    is_synchronized = false;
    is_abstract = false;
    is_synthetic = false;
    is_bridge = false;
  };
  nullness = unknown_nullness 0;
  type_use = none;
  bytecode = 167 ∷ 0 ∷ 0 ∷ [];
  line_numbers = [];
  cfg = record {
    blocks = block ∷ [];
    edges = record { from = 0; to = 0; kind = EdgeKind.branch } ∷ [];
  };
  calls = [];
  string_literals = [];
  exception_handlers = [];
  local_variables = [];
  local_variable_types = [];
}

-- An analysis with one abstract state, at the start of the block, which reports the opcode.
abbrev semantics : Semantics ℕ ℕ
semantics = record {
  block_start = λ s. 0;
  instruction_index = λ s. 0;
  set_position = λ s b i. s + 1;
  equal = λ s t. s == t;
  initial_states = λ m. 5 ∷ [];
  canonicalize_state = λ s. 0;
  transfer_instruction = λ m i s. ok (s, with_finding i.opcode continue_path);
  on_block_end = λ m s successors. ok terminal;
}

returned : analyze_method semantics method 4 ≡ some (ok (167 ∷ []))
unfolding analyze_method get new_graph insert_blocks insert
returned = refl

analyze_method-Produced_example : All (Produced semantics method) (167 ∷ [])
analyze_method-Produced_example = analyze_method-Produced semantics method 4 (167 ∷ []) returned

analyze_method_complete_example :
    (o : BlockEndStep ℕ ℕ) × (visit semantics method 0 ≡ ok o)
    × All (λ f. Memᴰ f (167 ∷ [])) o.findings
analyze_method_complete_example =
    analyze_method_complete semantics method (λ s t h. ==→eq s t h) 4 (167 ∷ []) returned 0
      (Queued.initial (Memᴰ.head refl))

visited :
    (s : ℕ) → visit semantics method s ≡ ok (record { findings = 167 ∷ []; next_states = 0 ∷ [] })
unfolding visit get new_graph insert_blocks insert
visited s = refl

few_added :
    (s : ℕ) (o : BlockEndStep ℕ ℕ) → visit semantics method s ≡ ok o → length o.next_states ≤ 1
few_added s o h =
    subst (λ p. length p.next_states ≤ 1) (ok-injective (sym (visited s) ∙ h)) (omega arith)

analyze_method-Ends_example : (r : Result (List ℕ)) × (analyze_method semantics method 3 ≡ some r)
analyze_method-Ends_example =
    analyze_method-Ends semantics method (λ s. ==_refl s) 1 few_added (0 ∷ [])
      (λ q h. Memᴰ.head refl) 3 (omega arith)

abbrev one_hook : SemanticsCoverage
one_hook = record default_coverage { applied_by_hook = 2; overridden_opcodes = (87, 2) ∷ [] }

abbrev one_fallback : SemanticsCoverage
one_fallback = record default_coverage {
  fallback_not_handled = 1;
  fallback_opcodes = (202, 1) ∷ [];
}

one_hook-IsCounted : IsCounted one_hook
one_hook-IsCounted = record {
  overridden_keys = tt;
  fallback_keys = tt;
  overridden_total = refl;
  fallback_total = refl;
}

one_fallback-IsCounted : IsCounted one_fallback
one_fallback-IsCounted = record {
  overridden_keys = tt;
  fallback_keys = tt;
  overridden_total = refl;
  fallback_total = refl;
}

merge_from-IsCounted_example :
    IsCounted (merge_from one_hook one_fallback)
    × ((opcode : ℕ)
        → (hook_override_count opcode (merge_from one_hook one_fallback)
            ≡ hook_override_count opcode one_fallback + hook_override_count opcode one_hook)
          × (fallback_count opcode (merge_from one_hook one_fallback)
              ≡ fallback_count opcode one_fallback + fallback_count opcode one_hook))
merge_from-IsCounted_example =
    merge_from-IsCounted one_hook one_fallback one_hook-IsCounted one_fallback-IsCounted

abbrev machine : StackMachine ℕ
machine = record {
  stack = 1 ∷ 2 ∷ [];
  locals = [];
  default_value = 0;
  config = record default_config { max_stack_depth = some 3 };
}

machine-IsValid : IsValid machine
machine-IsValid = record { depth = omega arith; ordered = tt; indices = tt }

abbrev domain : ValueDomain ℕ
domain = record { unknown_value = 0; scalar_value = 1 }

abbrev unbounded : StackMachine ℕ
unbounded = record machine { config = default_config }

apply_effect-Shift_example :
    apply_effect domain method 0 swap (on domain method 0 unbounded (7 ∷ 1 ∷ 2 ∷ []))
    ≡ ok (on domain method 0 unbounded (7 ∷ 2 ∷ 1 ∷ []))
apply_effect-Shift_example =
    apply_effect-Shift domain method 0 unbounded refl swap (7 ∷ 1 ∷ 2 ∷ [])
      (on domain method 0 unbounded (7 ∷ 2 ∷ 1 ∷ [])) (swapped (7 ∷ []) 1 2)

-- hooks that leave every opcode to the defaults
abbrev no_hooks : SemanticsHooks ℕ (Unit {0})
no_hooks = record {
  pre_apply = λ h m method offset opcode. ok (not_handled, h, m);
  post_apply = λ h m method offset opcode outcome. ok (h, m);
}

abbrev after_call : Applying ℕ (Unit {0})
after_call = record {
  outcome = not_handled;
  machine = machine;
  hooks = tt;
  coverage = record one_fallback { fallback_not_handled = 2; fallback_opcodes = (202, 2) ∷ [] };
}

call_returns : apply_semantics domain no_hooks machine method 0 202 tt one_fallback ≡ ok after_call
unfolding apply_semantics decode record_fallback add_count insert get
call_returns = refl

apply_semantics-IsCall_example :
    (p : ApplyOutcome × Unit {0} × StackMachine ℕ) × (ok (not_handled, tt, machine) ≡ ok p)
    × IsCall (taker p.0 (decode 202)) 202 one_fallback not_handled after_call.coverage
apply_semantics-IsCall_example =
    apply_semantics-IsCall domain no_hooks machine method 0 202 tt one_fallback
      one_fallback-IsCounted call_returns
