-- ===== src/Dataflow/OpcodeSemantics.antt =====
-- src/dataflow/opcode_semantics.rs: the default effects on the machine, and the hooks of a rule
-- around them. Log events are left out.
pub mod Counting
pub mod Effects
use inspequte.Base.{ℕ, ◌+◌, ◌-◌, Option, none, some, List, [], ◌∷◌, get_elem?, leb, if◌then◌else◌}
use inspequte.Base.Result.{Result, ok, ◌>>=◌}
use inspequte.Ir.{Method}
use inspequte.Dataflow.StackMachine.{
  StackMachine, stack_len, push, peek, pop, pop_n, load_local, store_local, unwrap_or,
}
use inspequte.Dataflow.Coverage.{
  SemanticsCoverage, record_hook_override, record_default_apply, record_fallback,
}
use inspequte.Dataflow.Decode.{
  LocalSlot, operand_u8, fixed, PushKind, Effect, noop, push_unknown, push_scalar, dup, dup2, swap,
  pop_and_push, multi_a_new_array, decode,
}

pub record ValueDomain {ℓ} (V : Type ℓ) : Type ℓ where
  pub unknown_value : V
  pub scalar_value : V

pub data ApplyOutcome : Type 0 where
  applied not_handled : ApplyOutcome

unfoldable pub local_index : Method → ℕ → LocalSlot → ℕ
local_index method offset operand_u8 = unwrap_or (get_elem? method.bytecode (offset + 1)) 0
local_index method offset (fixed index) = index

module _ {ℓ} {V : Type ℓ} (domain : ValueDomain V) where
  abbrev pub pushed_value : PushKind → V
  pushed_value PushKind.unknown = domain.unknown_value
  pushed_value PushKind.scalar = domain.scalar_value

  -- `if let Some(value) = …` around one push
  abbrev pub push_some : Option V → StackMachine V → Result (StackMachine V)
  push_some none m = ok m
  push_some (some value) m = push value m

  -- `if let (Some(left), Some(right)) = …` around two pushes
  abbrev pub push_both : Option V → Option V → StackMachine V → Result (StackMachine V)
  push_both (some left) (some right) m = push left m >>= push right
  push_both _ _ m = ok m

  unfoldable pub apply_effect : Method → ℕ → Effect → StackMachine V → Result (StackMachine V)
  apply_effect method offset noop m = ok m
  apply_effect method offset push_unknown m = push domain.unknown_value m
  apply_effect method offset push_scalar m = push domain.scalar_value m
  apply_effect method offset (Effect.load_local slot) m =
      push (load_local (local_index method offset slot) m) m
  apply_effect method offset (Effect.store_local slot) m =
      let (value, popped) = pop m in ok (store_local (local_index method offset slot) value popped)
  apply_effect method offset (Effect.pop count) m = ok (pop_n count m)
  apply_effect method offset dup m = push_some (peek m) m
  apply_effect method offset dup2 m =
      if leb 2 (stack_len m)
      then push_both (get_elem? m.stack (stack_len m - 2)) (get_elem? m.stack (stack_len m - 1)) m
      else push_both (peek m) (peek m) m
  apply_effect method offset swap m =
      let (right, m₁) = pop m in let (left, m₂) = pop m₁ in push right m₂ >>= push left
  apply_effect method offset (pop_and_push pop_count kind) m =
      push (pushed_value kind) (pop_n pop_count m)
  apply_effect method offset multi_a_new_array m =
      push domain.unknown_value (pop_n (unwrap_or (get_elem? method.bytecode (offset + 3)) 1) m)

-- A rule's hooks, with the state that `&mut self` threads. A hook may panic, as `push` may.
pub record SemanticsHooks {ℓ κ} (V : Type ℓ) (H : Type κ) : Type (ℓ ⊔ κ) where
  pub pre_apply : H → StackMachine V → Method → ℕ → ℕ → Result (ApplyOutcome × H × StackMachine V)
  pub post_apply : H → StackMachine V → Method → ℕ → ℕ → ApplyOutcome → Result (H × StackMachine V)

-- what `apply_semantics` returns and mutates
pub record Applying {ℓ κ} (V : Type ℓ) (H : Type κ) : Type (ℓ ⊔ κ) where
  pub outcome : ApplyOutcome
  pub machine : StackMachine V
  pub hooks : H
  pub coverage : SemanticsCoverage

module _ {ℓ κ} {V : Type ℓ} {H : Type κ} (domain : ValueDomain V) (hooks : SemanticsHooks V H) where
  -- the call of `post_apply` on both ways out
  abbrev pub finish :
      ApplyOutcome → Method → ℕ → ℕ → H → SemanticsCoverage → StackMachine V → Result (Applying V H)
  finish outcome method offset opcode h coverage m = do
    (h', m') ← hooks.post_apply h m method offset opcode outcome
    ok (record { outcome = outcome; machine = m'; hooks = h'; coverage = coverage })

  -- `if let Some(effect) = decode(opcode) { … } else { … }`
  abbrev pub apply_decoded :
      Option Effect
      → Method
      → ℕ
      → ℕ
      → H
      → SemanticsCoverage
      → StackMachine V
      → Result (Applying V H)
  apply_decoded (some effect) method offset opcode h coverage m = do
    m' ← apply_effect domain method offset effect m
    finish applied method offset opcode h (record_default_apply coverage) m'
  apply_decoded none method offset opcode h coverage m =
      finish not_handled method offset opcode h (record_fallback opcode coverage) m

  abbrev pub after_pre :
      ApplyOutcome → Method → ℕ → ℕ → H → SemanticsCoverage → StackMachine V → Result (Applying V H)
  after_pre applied method offset opcode h coverage m =
      finish applied method offset opcode h (record_hook_override opcode coverage) m
  after_pre not_handled method offset opcode h coverage m =
      apply_decoded (decode opcode) method offset opcode h coverage m

  unfoldable pub apply_semantics :
      StackMachine V → Method → ℕ → ℕ → H → SemanticsCoverage → Result (Applying V H)
  apply_semantics m method offset opcode h coverage = do
    (outcome, h', m') ← hooks.pre_apply h m method offset opcode
    after_pre outcome method offset opcode h' coverage m'
