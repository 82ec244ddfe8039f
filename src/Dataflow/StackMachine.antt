-- ===== src/Dataflow/StackMachine.antt =====
-- src/dataflow/stack_machine.rs: the abstract machine of JVM operand stack and local variables,
-- generic in the abstract value. The stack is a list in the order of the `Vec`, bottom first; the
-- locals are a `BTreeMap` in ascending key order. A method that mutates returns the new machine.
pub mod Stack
pub mod Locals
pub mod Canonical
pub mod Known
pub mod Renaming
pub mod Tracked
pub mod Cap
pub mod Keeps
pub mod Invariant
use inspequte.Base.{
  ℕ, ◌+◌, ◌%◌, ◌^◌, Bool, Option, none, some, List, [], ◌∷◌, ◌++◌, map, length, take, last?,
  drop_last, leb, if◌then◌else◌,
}
use inspequte.Base.BTree.{
  BTreeMap, BTreeSet, get, insert, values, is_empty, map_values, retain, contains, set_insert,
  from_iter,
}
use inspequte.Base.Result.{Result, ok, panic, ◌>>=◌}
use mathlib.Core.List.{reverse}

pub record StackMachineConfig : Type 0 where
  pub max_stack_depth : Option ℕ
  pub max_locals : Option ℕ
  pub max_symbolic_identities : Option ℕ

pub record StackMachine {ℓ} (V : Type ℓ) : Type ℓ where
  pub stack : List V
  pub locals : BTreeMap V
  pub default_value : V
  pub config : StackMachineConfig

-- `StackMachineConfig::default()`
abbrev pub default_config : StackMachineConfig
default_config = record {
  max_stack_depth = none;
  max_locals = none;
  max_symbolic_identities = none;
}

module _ {ℓ} {V : Type ℓ} where
  unfoldable pub with_config : V → StackMachineConfig → StackMachine V
  with_config default_value config = record {
    stack = [];
    locals = [];
    default_value = default_value;
    config = config;
  }

  unfoldable pub new : V → StackMachine V
  unfolding with_config
  new default_value = with_config default_value default_config

  abbrev pub stack_len : StackMachine V → ℕ
  stack_len m = length m.stack

  abbrev pub stack_values : StackMachine V → List V
  stack_values m = m.stack

  -- `self.stack.remove(0)`, which panics on an empty `Vec`
  abbrev pub remove_first : List V → Result (List V)
  remove_first [] = panic
  remove_first (x ∷ xs) = ok xs

  -- the room that `push` makes before it appends
  abbrev pub make_room : Option ℕ → List V → Result (List V)
  make_room none stack = ok stack
  make_room (some max_depth) stack =
      if leb max_depth (length stack) then remove_first stack else ok stack

  unfoldable pub push : V → StackMachine V → Result (StackMachine V)
  push value m = do
    room ← make_room m.config.max_stack_depth m.stack
    ok (record m { stack = room ++ value ∷ [] })

  unfoldable pub peek : StackMachine V → Option V
  peek m = last? m.stack

  abbrev pub unwrap_or : Option V → V → V
  unwrap_or none d = d
  unwrap_or (some v) d = v

  unfoldable pub pop : StackMachine V → V × StackMachine V
  pop m = (unwrap_or (last? m.stack) m.default_value, record m { stack = drop_last m.stack })

  unfoldable pub pop_n : ℕ → StackMachine V → StackMachine V
  unfolding pop
  pop_n ℕ.zero m = m
  pop_n (ℕ.suc count) m = pop_n count (pop m).1

  abbrev pub is_local_out_of_budget : ℕ → StackMachine V → Bool
  is_local_out_of_budget index m = elim m.config.max_locals [
    | none ↦ Bool.false
    | some max_locals ↦ leb max_locals index
  ]

  unfoldable pub load_local : ℕ → StackMachine V → V
  load_local index m =
      if is_local_out_of_budget index m
      then m.default_value
      else unwrap_or (get index m.locals) m.default_value

  unfoldable pub store_local : ℕ → V → StackMachine V → StackMachine V
  store_local index value m =
      if is_local_out_of_budget index m
      then m
      else record m { locals = insert index value m.locals }

  unfoldable pub retain_locals : (ℕ → V → Bool) → StackMachine V → StackMachine V
  retain_locals predicate m = record m { locals = retain predicate m.locals }

  -- the two `for` loops, over the stack and over `locals.values_mut()`
  unfoldable pub rewrite_values : (V → V) → StackMachine V → StackMachine V
  rewrite_values rewrite m = record m {
    stack = map rewrite m.stack;
    locals = map_values rewrite m.locals;
  }

-- `mapping` and `next_id`, the loop state of `canonicalize_symbolic_ids_u32`
pub record Numbering : Type 0 where
  pub mapping : BTreeMap ℕ
  pub next_id : ℕ

-- `mapping.entry(id).or_insert_with(…)`
unfoldable pub assign_id : ℕ → Numbering → Numbering
assign_id id n = elim (get id n.mapping) [
  | none ↦ record { mapping = insert id n.next_id n.mapping; next_id = (n.next_id + 1) % 2 ^ 32 }
  | some _ ↦ n
]

unfoldable pub assign_ids : List ℕ → Numbering → Numbering
assign_ids [] n = n
assign_ids (id ∷ ids) n = assign_ids ids (assign_id id n)

-- `if let Some(id) = extract(value) { … }`
unfoldable pub assign_option : Option ℕ → Numbering → Numbering
assign_option none n = n
assign_option (some id) n = assign_id id n

-- `live_ids.iter().rev().take(max).copied().collect()`
unfoldable pub tracked_ids : ℕ → BTreeSet → BTreeSet
tracked_ids max live = from_iter (take max (reverse live))

-- `if let Some(id) = extract(value) { live_ids.insert(id); }`
abbrev pub add_live : Option ℕ → BTreeSet → BTreeSet
add_live none live = live
add_live (some id) live = set_insert id live

module _ {ℓ} {V : Type ℓ} (extract : V → Option ℕ) where
  -- a loop over values
  unfoldable pub assign_values : List V → Numbering → Numbering
  assign_values [] n = n
  assign_values (v ∷ vs) n = assign_values vs (assign_option (extract v) n)

  unfoldable pub number_ids : StackMachine V → List ℕ → Numbering
  number_ids m extra_ids = assign_ids extra_ids (
      assign_values (values m.locals)
        (assign_values m.stack (record { mapping = []; next_id = 0 })))

  -- the body of the second pair of loops
  unfoldable pub reassign : (V → ℕ → V) → BTreeMap ℕ → V → V
  reassign assign mapping v = elim (extract v) [
    | none ↦ v
    | some id ↦ elim (get id mapping) [ none ↦ v | some mapped ↦ assign v mapped ]
  ]

  unfoldable pub canonicalize_symbolic_ids_u32 :
      (V → ℕ → V) → List ℕ → StackMachine V → StackMachine V × BTreeMap ℕ
  canonicalize_symbolic_ids_u32 assign extra_ids m =
      let mapping = (number_ids m extra_ids).mapping in
      if is_empty mapping
      then (m, mapping)
      else (rewrite_values (reassign assign mapping) m, mapping)

  -- `live_ids`: the identities of stack and locals
  unfoldable pub collect_ids : List V → BTreeSet → BTreeSet
  collect_ids [] live = live
  collect_ids (v ∷ vs) live = collect_ids vs (add_live (extract v) live)

  unfoldable pub live_ids : StackMachine V → BTreeSet
  live_ids m = collect_ids (m.stack ++ values m.locals) []

  unfoldable pub forget : (V → V) → BTreeSet → V → V
  forget set_unknown tracked v = elim (extract v) [
    | none ↦ v
    | some id ↦ if contains id tracked then v else set_unknown v
  ]

  -- `let max = self.config.max_symbolic_identities?` and what follows it
  abbrev pub enforce_cap : (V → V) → StackMachine V → Option ℕ → StackMachine V × Option BTreeSet
  enforce_cap set_unknown m none = (m, none)
  enforce_cap set_unknown m (some max) =
      let tracked = tracked_ids max (live_ids m) in
      (rewrite_values (forget set_unknown tracked) m, some tracked)

  unfoldable pub enforce_symbolic_identity_cap_u32 :
      (V → V) → StackMachine V → StackMachine V × Option BTreeSet
  enforce_symbolic_identity_cap_u32 set_unknown m =
      enforce_cap set_unknown m m.config.max_symbolic_identities
