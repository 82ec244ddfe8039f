-- ===== src/Dataflow/StackMachine/Invariant.antt =====
-- The budgets of src/dataflow/stack_machine.rs over any sequence of calls.
use inspequte.Base.{ℕ, ◌≡◌, sym, ◌∙◌, subst, Bool, Option, none, some, List, [], ◌∷◌, arith}
use inspequte.Base.Result.{Result, ok, ◌>>=◌}
use inspequte.Dataflow.StackMachine.{
  StackMachine, StackMachineConfig, with_config, push, pop, pop_n, store_local, retain_locals,
  rewrite_values, canonicalize_symbolic_ids_u32, enforce_symbolic_identity_cap_u32,
}
use inspequte.Dataflow.StackMachine.Stack.{CanPush, Fits}
use inspequte.Dataflow.StackMachine.Keeps.{
  IsValid, WithinLocals, Keeps, rewrite_values-Keeps, push-Keeps, pop_n-Keeps, pop-pop_n,
  store_local-Keeps, retain_locals-Keeps, unchanged-Keeps, canonicalize-Keeps, enforce_cap-Keeps,
}

-- a call of one of the methods that change the machine
pub data Call {ℓ} (V : Type ℓ) : Type ℓ where
  push_call : V → Call V
  pop_call : Call V
  pop_n_call : ℕ → Call V
  store_call : ℕ → V → Call V
  retain_call : (ℕ → V → Bool) → Call V
  rewrite_call : (V → V) → Call V
  canonicalize_call : (V → Option ℕ) → (V → ℕ → V) → List ℕ → Call V
  enforce_call : (V → Option ℕ) → (V → V) → Call V

fresh-Fits {ℓ} : (V : Type ℓ) (max : Option ℕ) → Fits {V = V} max []
fresh-Fits V none = tt
fresh-Fits V (some d) = omega arith

fresh-WithinLocals : (max : Option ℕ) → WithinLocals max []
fresh-WithinLocals none = tt
fresh-WithinLocals (some d) = tt

module _ {ℓ} {V : Type ℓ} where
  pub run_call : Call V → StackMachine V → Result (StackMachine V)
  run_call (push_call v) m = push v m
  run_call pop_call m = ok (pop m).1
  run_call (pop_n_call count) m = ok (pop_n count m)
  run_call (store_call index v) m = ok (store_local index v m)
  run_call (retain_call predicate) m = ok (retain_locals predicate m)
  run_call (rewrite_call f) m = ok (rewrite_values f m)
  run_call (canonicalize_call extract assign extra) m =
      ok (canonicalize_symbolic_ids_u32 extract assign extra m).0
  run_call (enforce_call extract set_unknown) m =
      ok (enforce_symbolic_identity_cap_u32 extract set_unknown m).0

  pub run_calls : List (Call V) → StackMachine V → Result (StackMachine V)
  run_calls [] m = ok m
  run_calls (c ∷ cs) m = run_call c m >>= run_calls cs

  fresh-IsValid :
      (default_value : V) (config : StackMachineConfig) → IsValid (with_config default_value config)
  unfolding with_config
  fresh-IsValid default_value config = record {
    depth = fresh-Fits V config.max_stack_depth;
    ordered = tt;
    indices = fresh-WithinLocals config.max_locals;
  }

  run_call-Keeps :
      (c : Call V) (m : StackMachine V)
      → CanPush m.config.max_stack_depth
      → IsValid m
      → Keeps m (run_call c m)
  unfolding run_call enforce_symbolic_identity_cap_u32
  run_call-Keeps (push_call v) m c h = push-Keeps v m c h
  run_call-Keeps pop_call m c h = rw (pop-pop_n m) (pop_n-Keeps 1 m h)
  run_call-Keeps (pop_n_call count) m c h = pop_n-Keeps count m h
  run_call-Keeps (store_call index v) m c h = store_local-Keeps index v m h
  run_call-Keeps (retain_call p) m c h = retain_locals-Keeps p m h
  run_call-Keeps (rewrite_call f) m c h = rewrite_values-Keeps f m h
  run_call-Keeps (canonicalize_call extract assign extra) m c h =
      canonicalize-Keeps extract assign extra m h
  run_call-Keeps (enforce_call extract set_unknown) m c h =
      enforce_cap-Keeps extract set_unknown m.config.max_symbolic_identities m h

  run_calls-Keeps :
      (cs : List (Call V)) (m : StackMachine V)
      → CanPush m.config.max_stack_depth
      → IsValid m
      → Keeps m (run_calls cs m)
  unfolding run_calls
  run_calls-Keeps [] m c h = unchanged-Keeps m h
  run_calls-Keeps (call ∷ cs) m c h =
      let first = run_call-Keeps call m c h in
      let rest =
        run_calls-Keeps cs first.machine
          (subst (λ g. CanPush g.max_stack_depth) (sym first.same_config) c) first.valid in
      rw first.returned (record {
        machine = rest.machine;
        returned = rest.returned;
        valid = rest.valid;
        same_config = rest.same_config ∙ first.same_config;
      })

  -- Any sequence of calls of the methods, on a fresh machine whose depth budget is not zero, never
  -- panics, and ends in a machine within its depth and locals budgets, with its configuration kept.
  pub run_calls-IsValid :
      (cs : List (Call V)) (default_value : V) (config : StackMachineConfig)
      → CanPush config.max_stack_depth
      → (m : StackMachine V) × (run_calls cs (with_config default_value config) ≡ ok m)
        × IsValid m
        × (m.config ≡ config)
  unfolding with_config
  run_calls-IsValid cs default_value config c =
      let k =
        run_calls-Keeps cs (with_config default_value config) c
          (fresh-IsValid default_value config) in
      (k.machine, k.returned, k.valid, k.same_config)
