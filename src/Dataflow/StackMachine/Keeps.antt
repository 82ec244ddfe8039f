-- ===== src/Dataflow/StackMachine/Keeps.antt =====
-- The budgets of src/dataflow/stack_machine.rs, method by method.
use inspequte.Base.{
  ℕ, ◌-◌, ◌<◌, ◌≤◌, ◌≡◌, refl, sym, subst, Bool, false, Option, none, some, List, [], ◌∷◌, ◌++◌,
  map, length, length-map, take, arith, leb, leb-false, Bool-cases, inl, inr, All,
}
use inspequte.Base.Result.{Result, ok}
use inspequte.Base.BTree.{
  BTreeMap, keys, insert, is_empty, retain, Ascending, set_insert-Ascending, keys-insert,
  keys-map_values, All-keys-retain, keys-retain-Ascending, All-set_insert,
}
use inspequte.Dataflow.StackMachine.{
  StackMachine, push, pop, pop_n, store_local, retain_locals, rewrite_values,
  canonicalize_symbolic_ids_u32, enforce_cap, is_local_out_of_budget, number_ids, reassign, forget,
  tracked_ids, live_ids,
}
use inspequte.Dataflow.StackMachine.Stack.{
  CanPush, Fits, recent, recent_bound, push-recent, pop_n_lem,
}

abbrev pub WithinLocals : Option ℕ → List ℕ → Type 0
WithinLocals none ks = Unit
WithinLocals (some max_locals) ks = All (λ k. k < max_locals) ks

-- The stack is within its budget, and the locals are a `BTreeMap` with indices within theirs.
pub record IsValid {ℓ} {V : Type ℓ} (m : StackMachine V) : Type 0 where
  pub depth : Fits m.config.max_stack_depth m.stack
  pub ordered : Ascending (keys m.locals)
  pub indices : WithinLocals m.config.max_locals (keys m.locals)

module _ {ℓ} {V : Type ℓ} where
  Fits-length :
      (max : Option ℕ) (xs ys : List V) → length ys ≤ length xs → Fits max xs → Fits max ys
  Fits-length none xs ys h f = tt
  Fits-length (some d) xs ys h f = omega arith

  Fits-map : (max : Option ℕ) (f : V → V) (xs : List V) → Fits max xs → Fits max (map f xs)
  Fits-map max f xs = Fits-length max xs (map f xs) (omega (arith, length-map f xs))

  length-take_le : (n : ℕ) (xs : List V) → length (take n xs) ≤ length xs
  length-take_le ℕ.zero xs = omega arith
  length-take_le (ℕ.suc n) [] = omega arith
  length-take_le (ℕ.suc n) (x ∷ xs) = omega (arith, length-take_le n xs)

  -- a call that returns, with what it keeps
  pub record Keeps (m : StackMachine V) (r : Result (StackMachine V)) : Type ℓ where
    pub machine : StackMachine V
    pub returned : r ≡ ok machine
    pub valid : IsValid machine
    pub same_config : machine.config ≡ m.config

  pub rewrite_values-Keeps :
      (f : V → V) (m : StackMachine V) → IsValid m → Keeps m (ok (rewrite_values f m))
  unfolding rewrite_values
  rewrite_values-Keeps f m v = record {
    machine = rewrite_values f m;
    returned = refl;
    valid = record {
      depth = Fits-map m.config.max_stack_depth f m.stack v.depth;
      ordered = subst Ascending (sym (keys-map_values f m.locals)) v.ordered;
      indices =
          subst (WithinLocals m.config.max_locals) (sym (keys-map_values f m.locals)) v.indices;
    };
    same_config = refl;
  }

  pub push-Keeps :
      (v : V) (m : StackMachine V)
      → CanPush m.config.max_stack_depth
      → IsValid m
      → Keeps m (push v m)
  push-Keeps v m c h = record {
    machine = record m { stack = recent m.config.max_stack_depth (m.stack ++ v ∷ []) };
    returned = push-recent v m c h.depth;
    valid = record {
      depth = recent_bound m.config.max_stack_depth (m.stack ++ v ∷ []);
      ordered = h.ordered;
      indices = h.indices;
    };
    same_config = refl;
  }

  take-Keeps :
      (n : ℕ) (m : StackMachine V) → IsValid m → Keeps m (ok (record m { stack = take n m.stack }))
  take-Keeps n m h = record {
    machine = record m { stack = take n m.stack };
    returned = refl;
    valid = record {
      depth = Fits-length m.config.max_stack_depth m.stack _ (length-take_le n m.stack) h.depth;
      ordered = h.ordered;
      indices = h.indices;
    };
    same_config = refl;
  }

  pub pop_n-Keeps : (count : ℕ) (m : StackMachine V) → IsValid m → Keeps m (ok (pop_n count m))
  pop_n-Keeps count m h = rw (pop_n_lem count m) (take-Keeps (length m.stack - count) m h)

  pub pop-pop_n : (m : StackMachine V) → (pop m).1 ≡ pop_n 1 m
  unfolding pop_n
  pop-pop_n m = refl

  -- the one budget that a store must respect
  insert-WithinLocals :
      (max : Option ℕ) (index : ℕ) (v : V) (m : BTreeMap V)
      → (elim max [ none ↦ false | some max_locals ↦ leb max_locals index ]) ≡ false
      → WithinLocals max (keys m)
      → WithinLocals max (keys (insert index v m))
  insert-WithinLocals none index v m h w = tt
  insert-WithinLocals (some d) index v m h w =
      rw (keys-insert index v m)
        (All-set_insert (λ k. k < d) index (keys m) (leb-false d index h) w)

  pub store_local-Keeps :
      (index : ℕ) (v : V) (m : StackMachine V) → IsValid m → Keeps m (ok (store_local index v m))
  unfolding store_local
  store_local-Keeps index v m h = elim (Bool-cases (is_local_out_of_budget index m)) [
    | inl out ↦ rw out (record { machine = m; returned = refl; valid = h; same_config = refl })
    | inr fine ↦ rw fine (record {
      machine = record m { locals = insert index v m.locals };
      returned = refl;
      valid = record {
        depth = h.depth;
        ordered = rw (keys-insert index v m.locals) (set_insert-Ascending index _ h.ordered);
        indices = insert-WithinLocals m.config.max_locals index v m.locals fine h.indices;
      };
      same_config = refl;
    })
  ]

  retain-WithinLocals :
      (max : Option ℕ) (p : ℕ → V → Bool) (m : BTreeMap V)
      → WithinLocals max (keys m)
      → WithinLocals max (keys (retain p m))
  retain-WithinLocals none p m w = tt
  retain-WithinLocals (some d) p m w = All-keys-retain (λ k. k < d) p m w

  pub retain_locals-Keeps :
      (p : ℕ → V → Bool) (m : StackMachine V) → IsValid m → Keeps m (ok (retain_locals p m))
  unfolding retain_locals
  retain_locals-Keeps p m h = record {
    machine = record m { locals = retain p m.locals };
    returned = refl;
    valid = record {
      depth = h.depth;
      ordered = keys-retain-Ascending p m.locals h.ordered;
      indices = retain-WithinLocals m.config.max_locals p m.locals h.indices;
    };
    same_config = refl;
  }

  pub unchanged-Keeps : (m : StackMachine V) → IsValid m → Keeps m (ok m)
  unchanged-Keeps m h = record { machine = m; returned = refl; valid = h; same_config = refl }

  pub canonicalize-Keeps :
      (extract : V → Option ℕ) (assign : V → ℕ → V) (extra : List ℕ) (m : StackMachine V)
      → IsValid m
      → Keeps m (ok (canonicalize_symbolic_ids_u32 extract assign extra m).0)
  unfolding canonicalize_symbolic_ids_u32
  canonicalize-Keeps extract assign extra m h =
      let mapping = (number_ids extract m extra).mapping in
      elim (Bool-cases (is_empty mapping)) [
        | inl empty ↦ rw empty (unchanged-Keeps m h)
        | inr full ↦ rw full (rewrite_values-Keeps (reassign extract assign mapping) m h)
      ]

  pub enforce_cap-Keeps :
      (extract : V → Option ℕ) (set_unknown : V → V) (max : Option ℕ) (m : StackMachine V)
      → IsValid m
      → Keeps m (ok (enforce_cap extract set_unknown m max).0)
  enforce_cap-Keeps extract set_unknown none m h = unchanged-Keeps m h
  enforce_cap-Keeps extract set_unknown (some max) m h =
      rewrite_values-Keeps (forget extract set_unknown (tracked_ids max (live_ids extract m))) m h
