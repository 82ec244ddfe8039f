-- ===== src/Dataflow/Worklist/Blocks.antt =====
-- `MethodGraph` of src/dataflow/worklist.rs: its size, and the blocks of the method.
use inspequte.Base.{
  ℕ, ◌+◌, ◌≤◌, ◌≡◌, ◌≢◌, ◌⊎◌, inl, inr, refl, sym, ap, ◌∙◌, subst, some, List, [], ◌∷◌, ◌++◌,
  length, length-append, arith, ◌==◌, ==→eq, ==_refl, ne→==, Bool-cases, All,
}
use inspequte.Base.BTree.{BTreeMap, get, insert, get-insert}
use inspequte.Ir.{FlowEdge, BasicBlock, Method}
use inspequte.Dataflow.Worklist.{
  at_entry, insert_blocks, default_entries, push_edges, sort_insert, sort, dedup, new_graph,
  successors_for,
}
use inspequte.Dataflow.Worklist.Graph.{at_entry-insert, at_entry-map_values, default_entries-same}
use mathlib.Core.List.{Memᴰ}

length-sort_insert : (x : ℕ) (ys : List ℕ) → length (sort_insert x ys) ≡ length ys + 1
length-sort_insert x [] = refl
length-sort_insert x (y ∷ ys) = ground (arith, length-sort_insert x ys)

length-sort : (xs : List ℕ) → length (sort xs) ≡ length xs
unfolding sort
length-sort [] = refl
length-sort (x ∷ xs) = omega (arith, length-sort_insert x (sort xs), length-sort xs)

length-dedup : (xs : List ℕ) → length (dedup xs) ≤ length xs
unfolding dedup
length-dedup [] = omega arith
length-dedup (x ∷ []) = omega arith
length-dedup (x ∷ y ∷ ys) = ground (arith, length-dedup (y ∷ ys))

length-push_edges :
    (edges : List FlowEdge) (m : BTreeMap (List ℕ)) (b : ℕ)
    → length (at_entry (get b (push_edges edges m))) ≤ length (at_entry (get b m)) + length edges
unfolding push_edges
length-push_edges [] m b = omega arith
length-push_edges (e ∷ edges) m b =
    let rest = length-push_edges edges (insert e.from (at_entry (get e.from m) ++ e.to ∷ []) m) b in
    let put = at_entry-insert b e.from (at_entry (get e.from m) ++ e.to ∷ []) m in
    elim (Bool-cases (b == e.from)) [
      | inl same ↦
          let from : b ≡ e.from = ==→eq b e.from same in
          let now : length
                (at_entry (get b (insert e.from (at_entry (get e.from m) ++ e.to ∷ []) m)))
              ≡ length (at_entry (get b m)) + 1 =
            ap length put
            ∙ rw same (
                length-append (at_entry (get e.from m)) (e.to ∷ [])
                ∙ ap (λ k. length (at_entry (get k m)) + 1) (sym from)) in
          omega (arith, rest, now)
      | inr other ↦
          let now : length
                (at_entry (get b (insert e.from (at_entry (get e.from m) ++ e.to ∷ []) m)))
              ≡ length (at_entry (get b m)) =
            ap length put ∙ rw other refl in
          omega (arith, rest, now)
    ]

-- a block has at most as many successors as there are edges
pub length-successors_for :
    (method : Method) (b : ℕ)
    → length (successors_for (new_graph method) b) ≤ length method.cfg.edges
unfolding successors_for new_graph get
length-successors_for method b =
    let pushed = push_edges method.cfg.edges (default_entries method.cfg.blocks []) in
    let all = at_entry (get b pushed) in
    omega (
      arith,
      ap length (at_entry-map_values b pushed),
      length-dedup (sort all),
      length-sort all,
      length-push_edges method.cfg.edges (default_entries method.cfg.blocks []) b,
      ap length (default_entries-same b method.cfg.blocks []),
    )

-- the block starts differ
abbrev pub Distinct : List BasicBlock → Type 0
Distinct [] = Unit
Distinct (b ∷ blocks) =
    All (λ (c : BasicBlock). b.start_offset ≢ c.start_offset) blocks × Distinct blocks

insert_blocks-Mem :
    (blocks : List BasicBlock) (m : BTreeMap BasicBlock) (b : ℕ) (block : BasicBlock)
    → get b (insert_blocks blocks m) ≡ some block
    → (Memᴰ block blocks × (block.start_offset ≡ b)) ⊎ (get b m ≡ some block)
unfolding insert_blocks
insert_blocks-Mem [] m b block h = inr h
insert_blocks-Mem (c ∷ blocks) m b block h = elim (insert_blocks-Mem blocks _ b block h) [
  | inl (k, e) ↦ inl (Memᴰ.tail k, e)
  | inr now ↦ elim (Bool-cases (b == c.start_offset)) [
    | inl same ↦
        let eq : some c ≡ some block = sym (get-insert b c.start_offset c m ∙ rw same refl) ∙ now in
        let eq' : block ≡ c = cc eq in
        inl (
          Memᴰ.head eq',
          ap (λ (x : BasicBlock). x.start_offset) eq' ∙ sym (==→eq b c.start_offset same),
        )
    | inr other ↦ inr (sym (get-insert b c.start_offset c m ∙ rw other refl) ∙ now)
  ]
]

insert_blocks-other :
    (blocks : List BasicBlock) (m : BTreeMap BasicBlock) (b : ℕ)
    → All (λ (c : BasicBlock). b ≢ c.start_offset) blocks
    → get b (insert_blocks blocks m) ≡ get b m
unfolding insert_blocks
insert_blocks-other [] m b h = refl
insert_blocks-other (c ∷ blocks) m b (h, hs) =
    insert_blocks-other blocks _ b hs
    ∙ get-insert b c.start_offset c m
    ∙ rw (ne→== b c.start_offset h) refl

Mem-insert_blocks :
    (blocks : List BasicBlock) (m : BTreeMap BasicBlock) (block : BasicBlock)
    → Distinct blocks
    → Memᴰ block blocks
    → get block.start_offset (insert_blocks blocks m) ≡ some block
unfolding insert_blocks
Mem-insert_blocks [] m block d h = elim h [ ]
Mem-insert_blocks (c ∷ blocks) m block (d, ds) (Memᴰ.tail h) = Mem-insert_blocks blocks _ block ds h
Mem-insert_blocks (c ∷ blocks) m block (d, ds) (Memᴰ.head e) =
    subst
      (λ (x : BasicBlock).
        get x.start_offset (insert_blocks blocks (insert c.start_offset c m)) ≡ some x)
      (sym e)
      (insert_blocks-other blocks _ c.start_offset d
        ∙ get-insert c.start_offset c.start_offset c m
        ∙ rw (==_refl c.start_offset) refl)

-- The table of blocks finds the blocks of the method.
pub blocks-Mem :
    (method : Method) (b : ℕ) (block : BasicBlock)
    → get b (new_graph method).blocks ≡ some block
    → Memᴰ block method.cfg.blocks × (block.start_offset ≡ b)
unfolding new_graph get
blocks-Mem method b block h = elim (insert_blocks-Mem method.cfg.blocks [] b block h) [
  | inl k ↦ k
  | inr e ↦ absurd (cc e)
]

pub Mem-blocks :
    (method : Method) (block : BasicBlock)
    → Distinct method.cfg.blocks
    → Memᴰ block method.cfg.blocks
    → get block.start_offset (new_graph method).blocks ≡ some block
unfolding new_graph
Mem-blocks method block d h = Mem-insert_blocks method.cfg.blocks [] block d h
