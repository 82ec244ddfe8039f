-- ===== src/Dataflow/StackMachine/Locals.antt =====
-- The local variables of src/dataflow/stack_machine.rs.
use inspequte.Base.{ℕ, ◌≡◌, arith, ◌==◌, if◌then◌else◌, ◌&&◌, not}
use inspequte.Base.BTree.{get-insert}
use inspequte.Dataflow.StackMachine.{StackMachine, load_local, store_local, is_local_out_of_budget}

module _ {ℓ} {V : Type ℓ} where
  -- A load after a store reads the stored value at that index when the index is within the budget,
  -- and what it read before the store otherwise.
  pub load_local-store_local :
      (index j : ℕ) (value : V) (m : StackMachine V)
      → load_local j (store_local index value m)
        ≡ (if j == index && not (is_local_out_of_budget index m) then value else load_local j m)
  unfolding load_local store_local
  load_local-store_local index j value m = ground (arith, get-insert j index value m.locals)
