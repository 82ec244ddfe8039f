-- ===== src/Examples/Machine.antt =====
-- A machine of src/dataflow/stack_machine.rs whose values are identities or unknown.
use inspequte.Base.{
  ℕ, ◌+◌, ◌≡◌, ◌↔◌, refl, Option, none, some, List, [], ◌∷◌, arith, ◌==◌, ◌&&◌, not, if◌then◌else◌,
  map, ◌-◌, take, length,
}
use inspequte.Base.BTree.{get}
use inspequte.Base.Result.{ok, panic}
use inspequte.Dataflow.StackMachine.{
  StackMachine, StackMachineConfig, default_config, push, pop, pop_n, with_config, store_local,
  load_local, is_local_out_of_budget, number_ids, canonicalize_symbolic_ids_u32,
  enforce_symbolic_identity_cap_u32, rewrite_values, Numbering, live_ids,
}
use inspequte.Dataflow.StackMachine.Stack.{
  push_all, push_all-recent, push-eq-panic, pop-push, HasRoom, pop_n_lem,
}
use inspequte.Dataflow.StackMachine.Locals.{load_local-store_local}
use inspequte.Dataflow.StackMachine.Canonical.{IsCompact, number_ids-IsCompact}
use inspequte.Dataflow.StackMachine.Renaming.{IsLens, rename, canonicalize-rename}
use inspequte.Dataflow.StackMachine.Cap.{IsCapped, enforce-IsCapped, enforce_within_cap}
use inspequte.Dataflow.StackMachine.Keeps.{IsValid}
use inspequte.Dataflow.StackMachine.Invariant.{
  Call, push_call, store_call, pop_call, canonicalize_call, run_calls, run_calls-IsValid,
}

abbrev Value : Type 0
Value = Option ℕ

abbrev identity : Value → Option ℕ
identity v = v

abbrev identify : Value → ℕ → Value
identify v i = some i

abbrev forget_value : Value → Value
forget_value v = none

abbrev tight : StackMachineConfig
tight = record { max_stack_depth = some 3; max_locals = some 4; max_symbolic_identities = some 1 }

abbrev machine : StackMachine Value
machine = record {
  stack = some 7 ∷ none ∷ [];
  locals = (0, some 3) ∷ (2, some 7) ∷ [];
  default_value = none;
  config = tight;
}

abbrev empty_machine : StackMachine Value
empty_machine = record {
  stack = [];
  locals = [];
  default_value = none;
  config = record tight { max_stack_depth = some 0 };
}

push_all-recent_example :
    push_all (some 9 ∷ some 4 ∷ []) machine
    ≡ ok (record machine { stack = none ∷ some 9 ∷ some 4 ∷ [] })
push_all-recent_example = push_all-recent (some 9 ∷ some 4 ∷ []) machine (omega arith) (omega arith)

push-eq-panic_example :
    (push (some 1) empty_machine ≡ panic)
    ↔ ((empty_machine.config.max_stack_depth ≡ some 0) × (empty_machine.stack ≡ []))
push-eq-panic_example = push-eq-panic (some 1) empty_machine

abbrev pushed : StackMachine Value
pushed = record machine { stack = some 7 ∷ none ∷ some 1 ∷ [] }

pushed_lem : push (some 1) machine ≡ ok pushed
unfolding push
pushed_lem = refl

pop-push_example :
    ((pop pushed).0 ≡ some 1)
    × (HasRoom machine.config.max_stack_depth machine.stack → (pop pushed).1 ≡ machine)
pop-push_example = pop-push (some 1) machine pushed_lem

pop_n_lem_example : pop_n 1 machine ≡ record machine { stack = some 7 ∷ [] }
pop_n_lem_example = pop_n_lem 1 machine

load_local-store_local_example :
    load_local 2 (store_local 2 (some 8) machine)
    ≡ (if 2 == 2 && not (is_local_out_of_budget 2 machine) then some 8 else load_local 2 machine)
load_local-store_local_example = load_local-store_local 2 2 (some 8) machine

number_ids-IsCompact_example : IsCompact (number_ids identity machine (9 ∷ [])).mapping
number_ids-IsCompact_example = number_ids-IsCompact identity machine (9 ∷ []) (omega arith)

identity-IsLens : IsLens identity identify
identity-IsLens = record { extract_assign = λ v i j h. refl; assign_assign = λ v i j k h. refl }

abbrev shifted : ℕ → ℕ
shifted i = i + 10

shifted-injective : (i j : ℕ) → shifted i ≡ shifted j → i ≡ j
shifted-injective i j h = omega (arith, h)

canonicalize-rename_example :
    let c = canonicalize_symbolic_ids_u32 identity identify (9 ∷ []) machine in
    let c' =
      canonicalize_symbolic_ids_u32 identity identify
        (map shifted (9 ∷ []))
        (rewrite_values (rename identity identify shifted) machine) in
    (c'.0 ≡ c.0) × ((i : ℕ) → get (shifted i) c'.1 ≡ get i c.1)
canonicalize-rename_example =
    canonicalize-rename identity identify identity-IsLens shifted shifted-injective machine (9 ∷ [])

enforce-IsCapped_example :
    IsCapped identity forget_value 1 machine
      (enforce_symbolic_identity_cap_u32 identity forget_value machine)
enforce-IsCapped_example = enforce-IsCapped identity forget_value machine 1 refl

abbrev roomy : StackMachine Value
roomy = record machine { config = record tight { max_symbolic_identities = some 2 } }

roomy_few : length (live_ids identity roomy) ≡ 2
unfolding live_ids inspequte.Dataflow.StackMachine.collect_ids inspequte.Base.BTree.set_insert
roomy_few = refl

enforce_within_cap_example :
    (enforce_symbolic_identity_cap_u32 identity forget_value roomy).0 ≡ roomy
enforce_within_cap_example =
    enforce_within_cap identity forget_value roomy 2 refl (omega (arith, roomy_few))

abbrev calls : List (Call Value)
calls =
    push_call (some 5)
    ∷ store_call 9 (some 5)
    ∷ push_call none
    ∷ pop_call
    ∷ canonicalize_call identity identify []
    ∷ []

run_calls-IsValid_example :
    (m : StackMachine Value) × (run_calls calls (with_config none tight) ≡ ok m)
    × IsValid m
    × (m.config ≡ tight)
run_calls-IsValid_example = run_calls-IsValid calls none tight (omega arith)
