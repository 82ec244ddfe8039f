-- ===== src/Dataflow/StackMachine/Canonical.antt =====
-- The numbering that `canonicalize_symbolic_ids_u32` of src/dataflow/stack_machine.rs builds.
use inspequte.Base.{
  ℕ, suc, ◌+◌, ◌%◌, ◌^◌, ◌≤◌, ◌<◌, ◌≡◌, refl, Option, none, some, List, [], ◌∷◌, length, arith,
  Option-cases, inl, inr, length-map,
}
use inspequte.Base.BTree.{BTreeMap, get, insert, values, get-insert, get-insert_self, length-insert}
use inspequte.Dataflow.StackMachine.{
  StackMachine, Numbering, assign_id, assign_option, assign_ids, assign_values, number_ids,
}
use native.Mathlib.Decide.{dec_lt}

-- The identities of the map are numbered 0, 1, … with no gap and no number twice.
pub record IsCompact (mapping : BTreeMap ℕ) : Type 0 where
  pub bounded : (i j : ℕ) → get i mapping ≡ some j → j < length mapping
  pub injective : (i k j : ℕ) → get i mapping ≡ some j → get k mapping ≡ some j → i ≡ k
  pub onto : (j : ℕ) → j < length mapping → (i : ℕ) × (get i mapping ≡ some j)

record IsNumbering (n : Numbering) : Type 0 where
  counted : n.next_id ≡ length n.mapping
  compact : IsCompact n.mapping

empty-IsNumbering : IsNumbering (record { mapping = []; next_id = 0 })
unfolding get
empty-IsNumbering = record {
  counted = refl;
  compact = record { bounded = λ i j h. cc; injective = λ i k j h. cc; onto = λ j h. elim h [ ] };
}

insert_onto :
    (id : ℕ) (m : BTreeMap ℕ)
    → get id m ≡ none
    → IsCompact m
    → (j : ℕ) → j < suc (length m)
    → (i : ℕ) × (get i (insert id (length m) m) ≡ some j)
insert_onto id m new c j h = elim (dec_lt j (length m)) [
  | yes below ↦ let (i, e) = c.onto j below in (i, ground (arith, get-insert i id (length m) m))
  | no above ↦
      let last : j ≡ length m = omega arith in (id, rw last (get-insert_self id (length m) m))
]

-- a compact map, extended by the next number
insert-IsCompact :
    (id : ℕ) (m : BTreeMap ℕ) → get id m ≡ none → IsCompact m → IsCompact (insert id (length m) m)
insert-IsCompact id m new c = record {
  bounded = λ i j.
      ground
        (arith, get-insert i id (length m) m, length-insert id (length m) m new, c.bounded i j);
  injective = λ i k j. ground (
    arith,
    get-insert i id (length m) m,
    get-insert k id (length m) m,
    c.bounded i j,
    c.bounded k j,
    c.injective i k j,
  );
  onto = λ j h. insert_onto id m new c j (omega (arith, length-insert id (length m) m new));
}

pub assign_id_new :
    (id : ℕ) (n : Numbering)
    → get id n.mapping ≡ none
    → assign_id id n
      ≡ record { mapping = insert id n.next_id n.mapping; next_id = (n.next_id + 1) % 2 ^ 32 }
unfolding assign_id
assign_id_new id n new = rw (new, assign_id)

pub assign_id_old :
    (id : ℕ) (n : Numbering) {j : ℕ} → get id n.mapping ≡ some j → assign_id id n ≡ n
unfolding assign_id
assign_id_old id n old = rw (old, assign_id)

-- a numbering that has grown by at most `k` identities
record Grown (k : ℕ) (n n' : Numbering) : Type 0 where
  valid : IsNumbering n'
  bound : length n'.mapping ≤ length n.mapping + k

assign_id-Grown :
    (id : ℕ) (n : Numbering)
    → length n.mapping + 1 < 2 ^ 32
    → IsNumbering n
    → Grown 1 n (assign_id id n)
assign_id-Grown id n h v = elim (Option-cases (get id n.mapping)) [
  | inl new ↦ rw (assign_id_new id n new) (record {
    valid = record {
      counted = omega (arith, length-insert id n.next_id n.mapping new, v.counted);
      compact = rw v.counted (insert-IsCompact id n.mapping new v.compact);
    };
    bound = omega (arith, length-insert id n.next_id n.mapping new);
  })
  | inr (j, old) ↦ rw (assign_id_old id n old) (record { valid = v; bound = omega arith })
]

assign_option-Grown :
    (o : Option ℕ) (n : Numbering)
    → length n.mapping + 1 < 2 ^ 32
    → IsNumbering n
    → Grown 1 n (assign_option o n)
unfolding assign_option
assign_option-Grown none n h v = record { valid = v; bound = omega arith }
assign_option-Grown (some id) n h v = assign_id-Grown id n h v

assign_ids-Grown :
    (ids : List ℕ) (n : Numbering)
    → length n.mapping + length ids < 2 ^ 32
    → IsNumbering n
    → Grown (length ids) n (assign_ids ids n)
unfolding assign_ids
assign_ids-Grown [] n h v = record { valid = v; bound = omega arith }
assign_ids-Grown (id ∷ ids) n h v =
    let g = assign_id-Grown id n (omega arith) v in
    let g' = assign_ids-Grown ids (assign_id id n) (omega (arith, g.bound)) g.valid in
    record { valid = g'.valid; bound = omega (arith, g.bound, g'.bound) }

module _ {ℓ} {V : Type ℓ} (extract : V → Option ℕ) where
  assign_values-Grown :
      (vs : List V) (n : Numbering)
      → length n.mapping + length vs < 2 ^ 32
      → IsNumbering n
      → Grown (length vs) n (assign_values extract vs n)
  unfolding assign_values
  assign_values-Grown [] n h v = record { valid = v; bound = omega arith }
  assign_values-Grown (w ∷ ws) n h v =
      let g = assign_option-Grown (extract w) n (omega arith) v in
      let g' =
        assign_values-Grown ws (assign_option (extract w) n) (omega (arith, g.bound)) g.valid in
      record { valid = g'.valid; bound = omega (arith, g.bound, g'.bound) }

  -- The numbering that canonicalization returns is compact: its numbers are 0, 1, … up to the number
  -- of distinct identities, each given once, provided that there are fewer than 2^32 values.
  pub number_ids-IsCompact :
      (m : StackMachine V) (extra_ids : List ℕ)
      → length m.stack + length m.locals + length extra_ids < 2 ^ 32
      → IsCompact (number_ids extract m extra_ids).mapping
  unfolding number_ids
  number_ids-IsCompact m extra_ids h =
      let start : Numbering = record { mapping = []; next_id = 0 } in
      let same = length-map (λ (e : ℕ × V). e.1) m.locals in
      let g = assign_values-Grown m.stack start (omega arith) empty-IsNumbering in
      let n = assign_values extract m.stack start in
      let g' = assign_values-Grown (values m.locals) n (omega (arith, same, g.bound)) g.valid in
      let n' = assign_values extract (values m.locals) n in
      (assign_ids-Grown extra_ids n' (omega (arith, same, g.bound, g'.bound))
        g'.valid).valid.compact
