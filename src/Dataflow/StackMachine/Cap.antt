-- ===== src/Dataflow/StackMachine/Cap.antt =====
-- `enforce_symbolic_identity_cap_u32` of src/dataflow/stack_machine.rs.
use inspequte.Base.{
  ℕ, ◌≤◌, ◌<◌, ◌≡◌, refl, sym, ap, ap₂, ◌∙◌, subst, true, false, Option, none, some, List, [], ◌∷◌,
  ◌++◌, map, length, arith, Option-cases, inl, inr, All, All-split, All-imp,
}
use inspequte.Base.BTree.{
  BTreeMap, BTreeSet, values, map_values, values-map_values, contains, Ascending,
  contains-set_insert, set_insert-Ascending,
}
use inspequte.Dataflow.StackMachine.{
  StackMachine, add_live, collect_ids, live_ids, tracked_ids, forget, enforce_cap,
  enforce_symbolic_identity_cap_u32, rewrite_values,
}
use inspequte.Dataflow.StackMachine.Tracked.{
  tracked_ids_lem, tracked_ids_all, length-tracked_ids, tracked_ids-live,
}
use mathlib.Core.List.{map-append}

add_live-Ascending : (o : Option ℕ) (live : BTreeSet) → Ascending live → Ascending (add_live o live)
add_live-Ascending none live a = a
add_live-Ascending (some id) live a = set_insert-Ascending id live a

contains-add_live :
    (o : Option ℕ) (j : ℕ) (live : BTreeSet)
    → contains j live ≡ true
    → contains j (add_live o live) ≡ true
contains-add_live none j live c = c
contains-add_live (some id) j live c = ground (arith, contains-set_insert j id live)

add_live-contains :
    (o : Option ℕ) (live : BTreeSet) (i : ℕ) → o ≡ some i → contains i (add_live o live) ≡ true
add_live-contains none live i e = cc
add_live-contains (some id) live i e = ground (arith, contains-set_insert i id live)

module _ {ℓ} {V : Type ℓ} (extract : V → Option ℕ) where
  collect_ids-Ascending :
      (vs : List V) (live : BTreeSet) → Ascending live → Ascending (collect_ids extract vs live)
  unfolding collect_ids
  collect_ids-Ascending [] live a = a
  collect_ids-Ascending (v ∷ vs) live a =
      collect_ids-Ascending vs _ (add_live-Ascending (extract v) live a)

  contains-collect_ids :
      (j : ℕ) (vs : List V) (live : BTreeSet)
      → contains j live ≡ true
      → contains j (collect_ids extract vs live) ≡ true
  unfolding collect_ids
  contains-collect_ids j [] live c = c
  contains-collect_ids j (v ∷ vs) live c =
      contains-collect_ids j vs _ (contains-add_live (extract v) j live c)

  -- every identity of the values lies in the set
  abbrev pub IdsWithin : BTreeSet → List V → Type 0
  IdsWithin s = All (λ v. (i : ℕ) → extract v ≡ some i → contains i s ≡ true)

  collect_ids-IdsWithin :
      (vs : List V) (live : BTreeSet) → IdsWithin (collect_ids extract vs live) vs
  unfolding collect_ids
  collect_ids-IdsWithin [] live = tt
  collect_ids-IdsWithin (v ∷ vs) live = (
    λ i e. contains-collect_ids i vs _ (add_live-contains (extract v) live i e),
    collect_ids-IdsWithin vs (add_live (extract v) live),
  )

  -- all values of a machine
  abbrev pub all_values : StackMachine V → List V
  all_values m = m.stack ++ values m.locals

  all_values-rewrite :
      (f : V → V) (m : StackMachine V) → all_values (rewrite_values f m) ≡ map f (all_values m)
  unfolding rewrite_values
  all_values-rewrite f m =
      ap (λ r. map f m.stack ++ r) (values-map_values f m.locals)
      ∙ sym (map-append f m.stack (values m.locals))

  module _ (set_unknown : V → V) where
    -- what a set of tracked identities does to a value: one without an identity, or with a tracked one,
    -- stays, and any other loses its identity
    pub record IsForgetting (tracked : BTreeSet) (f : V → V) : Type ℓ where
      pub plain : (v : V) → extract v ≡ none → f v ≡ v
      pub kept : (v : V) (i : ℕ) → extract v ≡ some i → contains i tracked ≡ true → f v ≡ v
      pub lost :
          (v : V) (i : ℕ) → extract v ≡ some i → contains i tracked ≡ false → f v ≡ set_unknown v

    -- Under a cap of `max`, the returned set has `max` members, or all live identities when these are
    -- fewer; its members are live, and every live identity that is not in it is smaller than each
    -- member; and every value of the stack and the locals stays or, when its identity is not in the
    -- set, loses it.
    pub record IsCapped (max : ℕ) (m : StackMachine V) (result : StackMachine V × Option BTreeSet)
        : Type ℓ where
      pub tracked : BTreeSet
      pub returned : result.1 ≡ some tracked
      pub all_if_few :
          length (live_ids extract m) ≤ max
          → (i : ℕ) → contains i tracked ≡ contains i (live_ids extract m)
      pub full : max ≤ length (live_ids extract m) → length tracked ≡ max
      pub live : (i : ℕ) → contains i tracked ≡ true → contains i (live_ids extract m) ≡ true
      pub largest :
          (i j : ℕ)
          → contains i tracked ≡ true
          → contains j (live_ids extract m) ≡ true
          → contains j tracked ≡ false
          → j < i
      pub change : V → V
      pub values : all_values result.0 ≡ map change (all_values m)
      pub forgetting : IsForgetting tracked change

    forget-IsForgetting :
        (tracked : BTreeSet) → IsForgetting tracked (forget extract set_unknown tracked)
    unfolding forget
    forget-IsForgetting tracked = record {
      plain = λ v e. rw (e, forget) refl;
      kept = λ v i e c. rw (e, forget, c) refl;
      lost = λ v i e c. rw (e, forget, c) refl;
    }

    live_ids-Ascending : (m : StackMachine V) → Ascending (live_ids extract m)
    unfolding live_ids
    live_ids-Ascending m = collect_ids-Ascending (all_values m) [] tt

    -- With a cap of `max`, the machine and the set that are returned satisfy `IsCapped`: the set holds
    -- the `max` largest live identities, or all when they are fewer, and exactly the values with
    -- another identity lose theirs.
    pub enforce-IsCapped :
        (m : StackMachine V) (max : ℕ)
        → m.config.max_symbolic_identities ≡ some max
        → IsCapped max m (enforce_symbolic_identity_cap_u32 extract set_unknown m)
    unfolding enforce_symbolic_identity_cap_u32
    enforce-IsCapped m max e =
        let live = live_ids extract m in
        let tracked = tracked_ids max live in
        let capped : IsCapped max m (enforce_cap extract set_unknown m (some max)) = record {
          tracked = tracked;
          returned = refl;
          all_if_few = λ few i. tracked_ids_all max live i few;
          full = length-tracked_ids max live (live_ids-Ascending m);
          live = tracked_ids-live max live;
          largest = (tracked_ids_lem max live (live_ids-Ascending m)).1;
          change = forget extract set_unknown tracked;
          values = all_values-rewrite (forget extract set_unknown tracked) m;
          forgetting = forget-IsForgetting tracked;
        } in
        subst (λ o. IsCapped max m (enforce_cap extract set_unknown m o)) (sym e) capped

    forget_inside :
        (tracked : BTreeSet) (v : V)
        → ((i : ℕ) → extract v ≡ some i → contains i tracked ≡ true)
        → forget extract set_unknown tracked v ≡ v
    unfolding forget
    forget_inside tracked v h = elim (Option-cases (extract v)) [
      | inl none_here ↦ rw (none_here, forget)
      | inr (id, here) ↦ rw (here, forget, h id here)
    ]

    forget_inside_list :
        (tracked : BTreeSet) (vs : List V)
        → IdsWithin tracked vs
        → map (forget extract set_unknown tracked) vs ≡ vs
    forget_inside_list tracked [] h = refl
    forget_inside_list tracked (v ∷ vs) (h, hs) =
        ap₂ ◌∷◌ (forget_inside tracked v h) (forget_inside_list tracked vs hs)

    forget_inside_locals :
        (tracked : BTreeSet) (m : BTreeMap V)
        → IdsWithin tracked (values m)
        → map_values (forget extract set_unknown tracked) m ≡ m
    forget_inside_locals tracked [] h = refl
    forget_inside_locals tracked ((k, v) ∷ m) (h, hs) =
        ap₂ (λ w r. (k, w) ∷ r) (forget_inside tracked v h) (forget_inside_locals tracked m hs)

    -- A machine with a cap and no more live identities than the cap is left as it is.
    pub enforce_within_cap :
        (m : StackMachine V) (max : ℕ)
        → m.config.max_symbolic_identities ≡ some max
        → length (live_ids extract m) ≤ max
        → (enforce_symbolic_identity_cap_u32 extract set_unknown m).0 ≡ m
    unfolding enforce_symbolic_identity_cap_u32 rewrite_values live_ids
    enforce_within_cap m max e few =
        let live = live_ids extract m in
        let tracked = tracked_ids max live in
        let inside : IdsWithin tracked (all_values m) =
          All-imp (λ v h i here. tracked_ids_all max live i few ∙ h i here) (all_values m)
            (collect_ids-IdsWithin (all_values m) []) in
        let (on_stack, in_locals) = All-split _ m.stack (values m.locals) inside in
        ap (λ o. (enforce_cap extract set_unknown m o).0) e
        ∙ (ap₂ (λ s l. record m { stack = s; locals = l })
            (forget_inside_list tracked m.stack on_stack)
            (forget_inside_locals tracked m.locals in_locals))
