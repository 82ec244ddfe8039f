-- ===== src/Dataflow/Coverage/Laws.antt =====
-- The counters of src/dataflow/opcode_semantics.rs and their merge.
use inspequte.Base.{
  ℕ, ◌+◌, ◌<◌, ◌≡◌, refl, ap, ◌∙◌, none, [], ◌∷◌, arith, ◌==◌, if◌then◌else◌, All, All-imp, true,
}
use inspequte.Base.BTree.{
  BTreeMap, get, insert, keys, get-insert, Ascending, Ascending-above, Ascending-tail, keys-insert,
  set_insert-Ascending,
}
use inspequte.Dataflow.StackMachine.{unwrap_or}
use inspequte.Dataflow.Coverage.{
  SemanticsCoverage, count_of, add_count, merge_counts, merge_from, hook_override_count,
  fallback_count, record_hook_override, record_fallback, record_default_apply,
}

pub count_of-add_count :
    (j opcode count : ℕ) (counts : BTreeMap ℕ)
    → count_of j (add_count opcode count counts)
      ≡ (if j == opcode then count_of j counts + count else count_of j counts)
unfolding add_count
count_of-add_count j opcode count counts =
    ground (arith, get-insert j opcode (count_of opcode counts + count) counts)

-- the sum of all entries
abbrev pub total : BTreeMap ℕ → ℕ
total [] = 0
total ((opcode, count) ∷ counts) = count + total counts

get_below : (k : ℕ) (m : BTreeMap ℕ) → All (λ j. k < j) (keys m) → get k m ≡ none
unfolding get
get_below k [] h = refl
get_below k ((j, v) ∷ m) h = ground (arith, get_below k m h.1)

total-insert :
    (k v : ℕ) (m : BTreeMap ℕ)
    → Ascending (keys m)
    → total (insert k v m) + count_of k m ≡ total m + v
unfolding insert count_of get
total-insert k v [] a = omega arith
total-insert k v ((j, w) ∷ m) a =
    ground (arith, total-insert k v m (Ascending-tail j (keys m) a), below_lem k j m a)
  where
    below_lem : (k j : ℕ) (m : BTreeMap ℕ) → Ascending (j ∷ keys m) → k < j → get k m ≡ none
    below_lem k j m a h =
        get_below k m (All-imp (λ i g. omega arith) (keys m) (Ascending-above j (keys m) a))

total-add_count :
    (opcode count : ℕ) (counts : BTreeMap ℕ)
    → Ascending (keys counts)
    → total (add_count opcode count counts) ≡ total counts + count
unfolding add_count
total-add_count opcode count counts a =
    omega (arith, total-insert opcode (count_of opcode counts + count) counts a)

add_count-Ascending :
    (opcode count : ℕ) (counts : BTreeMap ℕ)
    → Ascending (keys counts)
    → Ascending (keys (add_count opcode count counts))
unfolding add_count
add_count-Ascending opcode count counts a =
    rw (keys-insert opcode (count_of opcode counts + count) counts)
      (set_insert-Ascending opcode (keys counts) a)

count_of_below :
    (k j : ℕ) (m : BTreeMap ℕ) → Ascending (j ∷ keys m) → (k == j) ≡ true → count_of k m ≡ 0
unfolding count_of
count_of_below k j m a e =
    let same : k ≡ j = ground arith in
    ap (λ o. unwrap_or o 0) (get_below k m (rw same (Ascending-above j (keys m) a)))

count_of-nil : (k : ℕ) → count_of k [] ≡ 0
unfolding count_of get
count_of-nil k = refl

count_of-cons :
    (k j v : ℕ) (m : BTreeMap ℕ) → count_of k ((j, v) ∷ m) ≡ (if k == j then v else count_of k m)
unfolding count_of get
count_of-cons k j v m = ground arith

count_of-merge_counts :
    (j : ℕ) (others counts : BTreeMap ℕ)
    → Ascending (keys others)
    → count_of j (merge_counts others counts) ≡ count_of j counts + count_of j others
unfolding merge_counts
count_of-merge_counts j [] counts a = omega (arith, count_of-nil j)
count_of-merge_counts j ((opcode, count) ∷ others) counts a =
    count_of-merge_counts j others (add_count opcode count counts)
      (Ascending-tail opcode (keys others) a)
    ∙ ground (
      arith,
      count_of-add_count j opcode count counts,
      count_of-cons j opcode count others,
      count_of_below j opcode others a,
    )

merge_counts-Ascending :
    (others counts : BTreeMap ℕ)
    → Ascending (keys counts)
    → Ascending (keys (merge_counts others counts))
unfolding merge_counts
merge_counts-Ascending [] counts a = a
merge_counts-Ascending ((opcode, count) ∷ others) counts a =
    merge_counts-Ascending others _ (add_count-Ascending opcode count counts a)

total-merge_counts :
    (others counts : BTreeMap ℕ)
    → Ascending (keys counts)
    → total (merge_counts others counts) ≡ total counts + total others
unfolding merge_counts
total-merge_counts [] counts a = omega arith
total-merge_counts ((opcode, count) ∷ others) counts a = omega (
  arith,
  total-merge_counts others (add_count opcode count counts)
      (add_count-Ascending opcode count counts a),
  total-add_count opcode count counts a,
)

-- Each opcode map is a `BTreeMap` and sums up to its counter.
pub record IsCounted (c : SemanticsCoverage) : Type 0 where
  pub overridden_keys : Ascending (keys c.overridden_opcodes)
  pub fallback_keys : Ascending (keys c.fallback_opcodes)
  pub overridden_total : total c.overridden_opcodes ≡ c.applied_by_hook
  pub fallback_total : total c.fallback_opcodes ≡ c.fallback_not_handled

pub record_hook_override-IsCounted :
    (opcode : ℕ) (c : SemanticsCoverage) → IsCounted c → IsCounted (record_hook_override opcode c)
unfolding record_hook_override
record_hook_override-IsCounted opcode c h = record {
  overridden_keys = add_count-Ascending opcode 1 c.overridden_opcodes h.overridden_keys;
  fallback_keys = h.fallback_keys;
  overridden_total =
      omega (
        arith,
        total-add_count opcode 1 c.overridden_opcodes h.overridden_keys,
        h.overridden_total,
      );
  fallback_total = h.fallback_total;
}

pub record_fallback-IsCounted :
    (opcode : ℕ) (c : SemanticsCoverage) → IsCounted c → IsCounted (record_fallback opcode c)
unfolding record_fallback
record_fallback-IsCounted opcode c h = record {
  overridden_keys = h.overridden_keys;
  fallback_keys = add_count-Ascending opcode 1 c.fallback_opcodes h.fallback_keys;
  overridden_total = h.overridden_total;
  fallback_total =
      omega (arith, total-add_count opcode 1 c.fallback_opcodes h.fallback_keys, h.fallback_total);
}

pub record_default_apply-IsCounted :
    (c : SemanticsCoverage) → IsCounted c → IsCounted (record_default_apply c)
unfolding record_default_apply
record_default_apply-IsCounted c h = record {
  overridden_keys = h.overridden_keys;
  fallback_keys = h.fallback_keys;
  overridden_total = h.overridden_total;
  fallback_total = h.fallback_total;
}

-- Merging two well-formed coverages gives a well-formed one, and for each opcode the merged counts
-- are the sums of the two counts.
pub merge_from-IsCounted :
    (other c : SemanticsCoverage)
    → IsCounted other
    → IsCounted c
    → IsCounted (merge_from other c)
      × ((opcode : ℕ)
          → (hook_override_count opcode (merge_from other c)
              ≡ hook_override_count opcode c + hook_override_count opcode other)
            × (fallback_count opcode (merge_from other c)
                ≡ fallback_count opcode c + fallback_count opcode other))
unfolding merge_from
merge_from-IsCounted other c ho hc = (
  record {
    overridden_keys = merge_counts-Ascending other.overridden_opcodes _ hc.overridden_keys;
    fallback_keys = merge_counts-Ascending other.fallback_opcodes _ hc.fallback_keys;
    overridden_total = omega (
      arith,
      total-merge_counts other.overridden_opcodes c.overridden_opcodes hc.overridden_keys,
      hc.overridden_total,
      ho.overridden_total,
    );
    fallback_total = omega (
      arith,
      total-merge_counts other.fallback_opcodes c.fallback_opcodes hc.fallback_keys,
      hc.fallback_total,
      ho.fallback_total,
    );
  },
  λ opcode. (
    count_of-merge_counts opcode other.overridden_opcodes c.overridden_opcodes ho.overridden_keys,
    count_of-merge_counts opcode other.fallback_opcodes c.fallback_opcodes ho.fallback_keys,
  ),
)
