-- ===== src/Dataflow/StackMachine/Known.antt =====
-- The identities that `canonicalize_symbolic_ids_u32` of src/dataflow/stack_machine.rs has numbered.
use inspequte.Base.{
  ℕ, ◌≡◌, Option, none, some, List, [], ◌∷◌, arith, Option-cases, inl, inr, All, All-imp,
}
use inspequte.Base.BTree.{BTreeMap, get, values, get-insert, get-insert_self}
use inspequte.Dataflow.StackMachine.{
  StackMachine, Numbering, assign_id, assign_option, assign_ids, assign_values, number_ids,
}
use inspequte.Dataflow.StackMachine.Canonical.{assign_id_new, assign_id_old}

-- An identity that the map numbers, or none.
abbrev pub Known : BTreeMap ℕ → Option ℕ → Type 0
Known mapping none = Unit
Known mapping (some i) = (j : ℕ) × (get i mapping ≡ some j)

Known-assign_id :
    (o : Option ℕ) (id : ℕ) (n : Numbering) → Known n.mapping o → Known (assign_id id n).mapping o
Known-assign_id none id n k = tt
Known-assign_id (some i) id n (j, e) = elim (Option-cases (get id n.mapping)) [
  | inl new ↦ rw (assign_id_new id n new) (j, ground (arith, get-insert i id n.next_id n.mapping))
  | inr (w, old) ↦ rw (assign_id_old id n old) (j, e)
]

assign_id-Known : (id : ℕ) (n : Numbering) → Known (assign_id id n).mapping (some id)
assign_id-Known id n = elim (Option-cases (get id n.mapping)) [
  | inl new ↦ rw (assign_id_new id n new) (n.next_id, get-insert_self id n.next_id n.mapping)
  | inr (w, old) ↦ rw (assign_id_old id n old) (w, old)
]

Known-assign_option :
    (o p : Option ℕ) (n : Numbering) → Known n.mapping o → Known (assign_option p n).mapping o
unfolding assign_option
Known-assign_option o none n k = k
Known-assign_option o (some id) n k = Known-assign_id o id n k

assign_option-Known : (o : Option ℕ) (n : Numbering) → Known (assign_option o n).mapping o
unfolding assign_option
assign_option-Known none n = tt
assign_option-Known (some id) n = assign_id-Known id n

Known-assign_ids :
    (o : Option ℕ) (ids : List ℕ) (n : Numbering)
    → Known n.mapping o
    → Known (assign_ids ids n).mapping o
unfolding assign_ids
Known-assign_ids o [] n k = k
Known-assign_ids o (id ∷ ids) n k = Known-assign_ids o ids _ (Known-assign_id o id n k)

module _ {ℓ} {V : Type ℓ} (extract : V → Option ℕ) where
  Known-assign_values :
      (o : Option ℕ) (vs : List V) (n : Numbering)
      → Known n.mapping o
      → Known (assign_values extract vs n).mapping o
  unfolding assign_values
  Known-assign_values o [] n k = k
  Known-assign_values o (v ∷ vs) n k =
      Known-assign_values o vs _ (Known-assign_option o (extract v) n k)

  abbrev pub AllKnown : BTreeMap ℕ → List V → Type 0
  AllKnown mapping = All (λ v. Known mapping (extract v))

  assign_values-AllKnown :
      (vs : List V) (n : Numbering) → AllKnown (assign_values extract vs n).mapping vs
  unfolding assign_values
  assign_values-AllKnown [] n = tt
  assign_values-AllKnown (v ∷ vs) n =
      let n' = assign_option (extract v) n in
      (
        Known-assign_values (extract v) vs n' (assign_option-Known (extract v) n),
        assign_values-AllKnown vs n',
      )

  pub number_ids-AllKnown :
      (m : StackMachine V) (extra_ids : List ℕ)
      → AllKnown (number_ids extract m extra_ids).mapping m.stack
        × AllKnown (number_ids extract m extra_ids).mapping (values m.locals)
  unfolding number_ids
  number_ids-AllKnown m extra_ids =
      let n = assign_values extract m.stack (record { mapping = []; next_id = 0 }) in
      let n' = assign_values extract (values m.locals) n in
      (
        All-imp
            (λ v k.
              Known-assign_ids (extract v) extra_ids n'
                (Known-assign_values (extract v) (values m.locals) n k))
            m.stack (assign_values-AllKnown m.stack _),
        All-imp (λ v k. Known-assign_ids (extract v) extra_ids n' k) (values m.locals)
            (assign_values-AllKnown (values m.locals) n),
      )
