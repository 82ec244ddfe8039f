-- ===== src/Dataflow/OpcodeSemantics/Counting.antt =====
-- `apply_semantics` of src/dataflow/opcode_semantics.rs: its outcome and its counters.
use inspequte.Base.{
  ℕ, ◌+◌, ◌≡◌, refl, subst, Bool, true, false, ◌&&◌, ◌==◌, if◌then◌else◌, Option, none, some, arith,
}
use inspequte.Base.Result.{ok, >>=-eq-ok, ok-injective}
use inspequte.Ir.{Method}
use inspequte.Dataflow.StackMachine.{StackMachine}
use inspequte.Dataflow.Coverage.{
  SemanticsCoverage, record_hook_override, record_default_apply, record_fallback,
  hook_override_count, fallback_count,
}
use inspequte.Dataflow.Coverage.Laws.{
  count_of-add_count, IsCounted, record_hook_override-IsCounted, record_default_apply-IsCounted,
  record_fallback-IsCounted,
}
use inspequte.Dataflow.Decode.{Effect, decode}
use inspequte.Dataflow.OpcodeSemantics.{
  ValueDomain, SemanticsHooks, ApplyOutcome, applied, not_handled, Applying, apply_effect, finish,
  apply_decoded, after_pre, apply_semantics,
}

-- who takes an opcode: the hook, the table of defaults, or nobody
pub data Taker : Type 0 where
  hook default nobody : Taker

abbrev pub default_or_nobody : Option Effect → Taker
default_or_nobody (some effect) = default
default_or_nobody none = nobody

-- the hook comes first
abbrev pub taker : ApplyOutcome → Option Effect → Taker
taker applied o = hook
taker not_handled o = default_or_nobody o

abbrev pub outcome_of : Taker → ApplyOutcome
outcome_of hook = applied
outcome_of default = applied
outcome_of nobody = not_handled

abbrev pub is_hook : Taker → Bool
is_hook hook = true
is_hook _ = false

abbrev pub is_default : Taker → Bool
is_default default = true
is_default _ = false

abbrev pub is_nobody : Taker → Bool
is_nobody nobody = true
is_nobody _ = false

abbrev pub one_if : Bool → ℕ
one_if true = 1
one_if false = 0

-- One call of `apply_semantics` on an opcode that `t` takes: the outcome says whether anybody did, the
-- counter of the taker goes up by one and no other, and so does the entry of this opcode in the map
-- of the hook, or in that of nobody, and no other entry.
pub record IsCall (t : Taker) (opcode : ℕ) (before : SemanticsCoverage) (outcome : ApplyOutcome)
    (after : SemanticsCoverage) : Type 0 where
  pub same_outcome : outcome ≡ outcome_of t
  pub by_hook : after.applied_by_hook ≡ before.applied_by_hook + one_if (is_hook t)
  pub by_default : after.applied_by_default ≡ before.applied_by_default + one_if (is_default t)
  pub by_nobody : after.fallback_not_handled ≡ before.fallback_not_handled + one_if (is_nobody t)
  pub overridden :
      (j : ℕ)
      → hook_override_count j after
        ≡ hook_override_count j before + one_if (is_hook t && j == opcode)
  pub fallback :
      (j : ℕ)
      → fallback_count j after ≡ fallback_count j before + one_if (is_nobody t && j == opcode)
  pub counted : IsCounted after

-- one more in a map
one_more :
    (j opcode c n : ℕ)
    → n ≡ (if j == opcode then c + 1 else c)
    → n ≡ c + one_if (true && j == opcode)
one_more j opcode c n e = ground (arith, e)

module _ (opcode : ℕ) (before : SemanticsCoverage) (c : IsCounted before) where
  hook-IsCall : IsCall hook opcode before applied (record_hook_override opcode before)
  unfolding record_hook_override
  hook-IsCall = record {
    same_outcome = refl;
    by_hook = refl;
    by_default = omega arith;
    by_nobody = omega arith;
    overridden =
        λ j. one_more j opcode _ _ (count_of-add_count j opcode 1 before.overridden_opcodes);
    fallback = λ j. omega arith;
    counted = record_hook_override-IsCounted opcode before c;
  }

  default-IsCall : IsCall default opcode before applied (record_default_apply before)
  unfolding record_default_apply
  default-IsCall = record {
    same_outcome = refl;
    by_hook = omega arith;
    by_default = refl;
    by_nobody = omega arith;
    overridden = λ j. omega arith;
    fallback = λ j. omega arith;
    counted = record_default_apply-IsCounted before c;
  }

  nobody-IsCall : IsCall nobody opcode before not_handled (record_fallback opcode before)
  unfolding record_fallback
  nobody-IsCall = record {
    same_outcome = refl;
    by_hook = omega arith;
    by_default = omega arith;
    by_nobody = refl;
    overridden = λ j. omega arith;
    fallback = λ j. one_more j opcode _ _ (count_of-add_count j opcode 1 before.fallback_opcodes);
    counted = record_fallback-IsCounted opcode before c;
  }

module _ {ℓ κ} {V : Type ℓ} {H : Type κ} (domain : ValueDomain V) (hooks : SemanticsHooks V H) where
  -- `finish` passes on the outcome and the coverage
  IsCall-finish :
      (t : Taker) (before : SemanticsCoverage) (outcome : ApplyOutcome) (method : Method)
      (offset opcode : ℕ) (h : H) (coverage : SemanticsCoverage) (m : StackMachine V)
      {r : Applying V H}
      → IsCall t opcode before outcome coverage
      → finish domain hooks outcome method offset opcode h coverage m ≡ ok r
      → IsCall t opcode before r.outcome r.coverage
  IsCall-finish t before outcome method offset opcode h coverage m call e =
      let (p, first, rest) = >>=-eq-ok (hooks.post_apply h m method offset opcode outcome) _ e in
      subst (λ (x : Applying V H). IsCall t opcode before x.outcome x.coverage) (ok-injective rest)
        call

  apply_decoded-IsCall :
      (o : Option Effect) (method : Method) (offset opcode : ℕ) (h : H)
      (coverage : SemanticsCoverage) (m : StackMachine V) {r : Applying V H}
      → IsCounted coverage
      → apply_decoded domain hooks o method offset opcode h coverage m ≡ ok r
      → IsCall (default_or_nobody o) opcode coverage r.outcome r.coverage
  apply_decoded-IsCall (some effect) method offset opcode h coverage m c e =
      let (m', first, rest) = >>=-eq-ok (apply_effect domain method offset effect m) _ e in
      IsCall-finish default coverage applied method offset opcode h _ m'
        (default-IsCall opcode coverage c) rest
  apply_decoded-IsCall none method offset opcode h coverage m c e =
      IsCall-finish nobody coverage not_handled method offset opcode h _ m
        (nobody-IsCall opcode coverage c) e

  after_pre-IsCall :
      (outcome : ApplyOutcome) (method : Method) (offset opcode : ℕ) (h : H)
      (coverage : SemanticsCoverage) (m : StackMachine V) {r : Applying V H}
      → IsCounted coverage
      → after_pre domain hooks outcome method offset opcode h coverage m ≡ ok r
      → IsCall (taker outcome (decode opcode)) opcode coverage r.outcome r.coverage
  after_pre-IsCall applied method offset opcode h coverage m c e =
      IsCall-finish hook coverage applied method offset opcode h _ m (hook-IsCall opcode coverage c)
        e
  after_pre-IsCall not_handled method offset opcode h coverage m c e =
      apply_decoded-IsCall (decode opcode) method offset opcode h coverage m c e

  -- On a coverage whose counters agree with its maps, a call of `apply_semantics` that returns has the
  -- opcode taken by the hook when `pre_apply` says so, else by the table of defaults when it decodes
  -- the opcode, else by nobody; the outcome, the three counters and both maps say so, for this opcode
  -- and once, and the counters still agree with the maps.
  pub apply_semantics-IsCall :
      (m : StackMachine V) (method : Method) (offset opcode : ℕ) (h : H)
      (coverage : SemanticsCoverage) {r : Applying V H}
      → IsCounted coverage
      → apply_semantics domain hooks m method offset opcode h coverage ≡ ok r
      → (p : ApplyOutcome × H × StackMachine V) × (hooks.pre_apply h m method offset opcode ≡ ok p)
        × IsCall (taker p.0 (decode opcode)) opcode coverage r.outcome r.coverage
  unfolding apply_semantics
  apply_semantics-IsCall m method offset opcode h coverage c e =
      let (p, first, rest) = >>=-eq-ok (hooks.pre_apply h m method offset opcode) _ e in
      (p, first, after_pre-IsCall p.0 method offset opcode p.1 coverage p.2 c rest)
