-- ===== src/Dataflow/StackMachine/Renaming.antt =====
-- `canonicalize_symbolic_ids_u32` of src/dataflow/stack_machine.rs under a renaming of identities.
use inspequte.Base.{
  ℕ, ◌≡◌, refl, sym, ap, ap₂, ◌∙◌, true, Option, none, some, List, [], ◌∷◌, map, arith, ◌==◌,
  Bool-cases, Option-cases, inl, inr,
}
use inspequte.Base.BTree.{
  BTreeMap, get, values, is_empty, map_values, get-insert, is_empty-insert, get-empty,
  values-map_values,
}
use inspequte.Dataflow.StackMachine.{
  StackMachine, Numbering, assign_id, assign_option, assign_ids, assign_values, number_ids,
  reassign, rewrite_values, canonicalize_symbolic_ids_u32,
}
use inspequte.Dataflow.StackMachine.Canonical.{assign_id_new, assign_id_old}
use inspequte.Dataflow.StackMachine.Known.{Known, AllKnown, number_ids-AllKnown}
use mathlib.Core.Option as CoreOption

-- What the callers' closures do: `assign` overwrites the identity of a value that has one.
pub record IsLens {ℓ} {V : Type ℓ} (extract : V → Option ℕ) (assign : V → ℕ → V) : Type ℓ where
  pub extract_assign : (v : V) (i j : ℕ) → extract v ≡ some i → extract (assign v j) ≡ some j
  pub assign_assign : (v : V) (i j k : ℕ) → extract v ≡ some i → assign (assign v j) k ≡ assign v k

module _ (rename_id : ℕ → ℕ) (injective : (i j : ℕ) → rename_id i ≡ rename_id j → i ≡ j) where
  -- the same numbering, of renamed identities
  record Renamed (n n' : Numbering) : Type 0 where
    same_next : n'.next_id ≡ n.next_id
    same_get : (i : ℕ) → get (rename_id i) n'.mapping ≡ get i n.mapping
    same_empty : is_empty n'.mapping ≡ is_empty n.mapping

  same_test : (i j : ℕ) → (rename_id i == rename_id j) ≡ (i == j)
  same_test i j = ground (arith, injective i j)

  assign_id-Renamed :
      (id : ℕ) (n n' : Numbering)
      → Renamed n n'
      → Renamed (assign_id id n) (assign_id (rename_id id) n')
  assign_id-Renamed id n n' r = elim (Option-cases (get id n.mapping)) [
    | inl new ↦
        rw (assign_id_new id n new, assign_id_new (rename_id id) n' (r.same_get id ∙ new))
          (record {
            same_next = rw r.same_next;
            same_get = λ i. rw (get-insert, same_test, r.same_next, r.same_get i, ← get-insert);
            same_empty = is_empty-insert _ _ n'.mapping ∙ sym (is_empty-insert _ _ n.mapping);
          })
    | inr (j, old) ↦
        rw (assign_id_old id n old, assign_id_old (rename_id id) n' (r.same_get id ∙ old)) r
  ]

  assign_option-Renamed :
      (o o' : Option ℕ) (n n' : Numbering)
      → o' ≡ CoreOption.map rename_id o
      → Renamed n n'
      → Renamed (assign_option o n) (assign_option o' n')
  unfolding assign_option
  assign_option-Renamed none o' n n' e r = rw e r
  assign_option-Renamed (some id) o' n n' e r = rw e (assign_id-Renamed id n n' r)

  assign_ids-Renamed :
      (ids : List ℕ) (n n' : Numbering)
      → Renamed n n'
      → Renamed (assign_ids ids n) (assign_ids (map rename_id ids) n')
  unfolding assign_ids
  assign_ids-Renamed [] n n' r = r
  assign_ids-Renamed (id ∷ ids) n n' r = assign_ids-Renamed ids _ _ (assign_id-Renamed id n n' r)

module _ {ℓ} {V : Type ℓ} (extract : V → Option ℕ) (assign : V → ℕ → V) where
  -- a value with its identity renamed
  abbrev pub rename : (ℕ → ℕ) → V → V
  rename rename_id v = elim (extract v) [ none ↦ v | some i ↦ assign v (rename_id i) ]

  rename-none : (rename_id : ℕ → ℕ) (v : V) → extract v ≡ none → rename rename_id v ≡ v
  rename-none rename_id v e = rw (e, rename)

  rename-some :
      (rename_id : ℕ → ℕ) (v : V) {i : ℕ}
      → extract v ≡ some i
      → rename rename_id v ≡ assign v (rename_id i)
  rename-some rename_id v e = rw (e, rename)

  reassign-none :
      (mapping : BTreeMap ℕ) (v : V) → extract v ≡ none → reassign extract assign mapping v ≡ v
  unfolding reassign
  reassign-none mapping v e = rw (e, reassign)

  reassign-some :
      (mapping : BTreeMap ℕ) (v : V) {i j : ℕ}
      → extract v ≡ some i
      → get i mapping ≡ some j
      → reassign extract assign mapping v ≡ assign v j
  unfolding reassign
  reassign-some mapping v e g = rw (e, reassign, g)

  module _ (lens : IsLens extract assign) (rename_id : ℕ → ℕ) where
    extract-rename : (v : V) → extract (rename rename_id v) ≡ CoreOption.map rename_id (extract v)
    extract-rename v = elim (Option-cases (extract v)) [
      | inl e ↦ rw (rename-none rename_id v e, e)
      | inr (i, e) ↦ rw (rename-some rename_id v e, e) (lens.extract_assign v i (rename_id i) e)
    ]

    reassign-rename :
        (mapping mapping' : BTreeMap ℕ) (v : V)
        → ((i : ℕ) → get (rename_id i) mapping' ≡ get i mapping)
        → Known mapping (extract v)
        → reassign extract assign mapping' (rename rename_id v) ≡ reassign extract assign mapping v
    reassign-rename mapping mapping' v same k = elim (Option-cases (extract v)) [
      | inl e ↦
          ap (reassign extract assign mapping') (rename-none rename_id v e)
          ∙ reassign-none mapping' v e
          ∙ sym (reassign-none mapping v e)
      | inr (i, e) ↦
          let (j, g) = rw e at k in
          ap (reassign extract assign mapping') (rename-some rename_id v e)
          ∙ reassign-some mapping' (assign v (rename_id i))
              (lens.extract_assign v i (rename_id i) e) (same i ∙ g)
          ∙ lens.assign_assign v i (rename_id i) j e
          ∙ sym (reassign-some mapping v e g)
    ]

    -- the same along the stack and the locals
    reassign-rename_list :
        (mapping mapping' : BTreeMap ℕ) (vs : List V)
        → ((i : ℕ) → get (rename_id i) mapping' ≡ get i mapping)
        → AllKnown extract mapping vs
        → map (reassign extract assign mapping') (map (rename rename_id) vs)
          ≡ map (reassign extract assign mapping) vs
    reassign-rename_list mapping mapping' [] same k = refl
    reassign-rename_list mapping mapping' (v ∷ vs) same k =
        ap₂ ◌∷◌ (reassign-rename mapping mapping' v same k.0)
          (reassign-rename_list mapping mapping' vs same k.1)

    reassign-rename_locals :
        (mapping mapping' : BTreeMap ℕ) (m : BTreeMap V)
        → ((i : ℕ) → get (rename_id i) mapping' ≡ get i mapping)
        → AllKnown extract mapping (values m)
        → map_values (reassign extract assign mapping') (map_values (rename rename_id) m)
          ≡ map_values (reassign extract assign mapping) m
    reassign-rename_locals mapping mapping' [] same k = refl
    reassign-rename_locals mapping mapping' ((i, v) ∷ m) same k =
        ap₂ (λ w r. (i, w) ∷ r) (reassign-rename mapping mapping' v same k.0)
          (reassign-rename_locals mapping mapping' m same k.1)

    -- with no identity in sight, a renaming changes nothing
    rename_unknown :
        (mapping : BTreeMap ℕ) (v : V)
        → is_empty mapping ≡ true
        → Known mapping (extract v)
        → rename rename_id v ≡ v
    rename_unknown mapping v empty k = elim (Option-cases (extract v)) [
      | inl e ↦ rename-none rename_id v e
      | inr (i, e) ↦ let (j, g) = rw e at k in cc (get-empty i mapping empty, g)
    ]

    rename_unknown_list :
        (mapping : BTreeMap ℕ) (vs : List V)
        → is_empty mapping ≡ true
        → AllKnown extract mapping vs
        → map (rename rename_id) vs ≡ vs
    rename_unknown_list mapping [] empty k = refl
    rename_unknown_list mapping (v ∷ vs) empty k =
        ap₂ ◌∷◌ (rename_unknown mapping v empty k.0) (rename_unknown_list mapping vs empty k.1)

    rename_unknown_locals :
        (mapping : BTreeMap ℕ) (m : BTreeMap V)
        → is_empty mapping ≡ true
        → AllKnown extract mapping (values m)
        → map_values (rename rename_id) m ≡ m
    rename_unknown_locals mapping [] empty k = refl
    rename_unknown_locals mapping ((i, v) ∷ m) empty k =
        ap₂ (λ w r. (i, w) ∷ r) (rename_unknown mapping v empty k.0)
          (rename_unknown_locals mapping m empty k.1)

    unchanged :
        (m : StackMachine V) (mapping : BTreeMap ℕ)
        → is_empty mapping ≡ true
        → AllKnown extract mapping m.stack
        → AllKnown extract mapping (values m.locals)
        → rewrite_values (rename rename_id) m ≡ m
    unfolding rewrite_values
    unchanged m mapping empty ks kl =
        ap₂ (λ s l. record m { stack = s; locals = l })
          (rename_unknown_list mapping m.stack empty ks)
          (rename_unknown_locals mapping m.locals empty kl)

    renumbered :
        (m : StackMachine V) (mapping mapping' : BTreeMap ℕ)
        → ((i : ℕ) → get (rename_id i) mapping' ≡ get i mapping)
        → AllKnown extract mapping m.stack
        → AllKnown extract mapping (values m.locals)
        → rewrite_values (reassign extract assign mapping') (rewrite_values (rename rename_id) m)
          ≡ rewrite_values (reassign extract assign mapping) m
    unfolding rewrite_values
    renumbered m mapping mapping' same ks kl =
        ap₂ (λ s l. record m { stack = s; locals = l })
          (reassign-rename_list mapping mapping' m.stack same ks)
          (reassign-rename_locals mapping mapping' m.locals same kl)

    module _ (injective : (i j : ℕ) → rename_id i ≡ rename_id j → i ≡ j) where
      assign_values-Renamed :
          (vs : List V) (n n' : Numbering)
          → Renamed rename_id injective n n'
          → Renamed rename_id injective
              (assign_values extract vs n)
              (assign_values extract (map (rename rename_id) vs) n')
      unfolding assign_values
      assign_values-Renamed [] n n' r = r
      assign_values-Renamed (v ∷ vs) n n' r =
          assign_values-Renamed vs _ _
            (assign_option-Renamed rename_id injective (extract v) _ n n' (extract-rename v) r)

      number_ids-Renamed :
          (m : StackMachine V) (extra_ids : List ℕ)
          → Renamed rename_id injective
              (number_ids extract m extra_ids)
              (number_ids extract (rewrite_values (rename rename_id) m) (map rename_id extra_ids))
      unfolding number_ids rewrite_values get
      number_ids-Renamed m extra_ids = assign_ids-Renamed rename_id injective extra_ids _ _ (
          rw (values-map_values (rename rename_id) m.locals) (
            assign_values-Renamed (values m.locals) _ _ (
              assign_values-Renamed m.stack _ _
                (record { same_next = refl; same_get = λ i. refl; same_empty = refl }))))

      -- Two machines that differ by an injective renaming of their identities have the same
      -- canonical machine, provided that the caller's closure overwrites identities (`IsLens`); and
      -- the two returned maps number an identity and its renaming alike.
      pub canonicalize-rename :
          (m : StackMachine V) (extra_ids : List ℕ)
          → let c = canonicalize_symbolic_ids_u32 extract assign extra_ids m in
            let c' =
              canonicalize_symbolic_ids_u32 extract assign
                (map rename_id extra_ids)
                (rewrite_values (rename rename_id) m) in
            (c'.0 ≡ c.0) × ((i : ℕ) → get (rename_id i) c'.1 ≡ get i c.1)
      unfolding canonicalize_symbolic_ids_u32
      canonicalize-rename m extra_ids =
          let mapping = (number_ids extract m extra_ids).mapping in
          let mapping' =
            (number_ids extract (rewrite_values (rename rename_id) m)
              (map rename_id extra_ids)).mapping in
          let r = number_ids-Renamed m extra_ids in
          let known = number_ids-AllKnown extract m extra_ids in
          elim (Bool-cases (is_empty mapping)) [
            | inl empty ↦
                rw (r.same_empty, empty) (unchanged m mapping empty known.0 known.1, r.same_get)
            | inr full ↦
                rw (r.same_empty, full)
                  (renumbered m mapping mapping' r.same_get known.0 known.1, r.same_get)
          ]
