-- ===== src/Dataflow/Worklist/Graph.antt =====
-- `MethodGraph` of src/dataflow/worklist.rs and the edges of the method's control flow graph.
use inspequte.Base.{
  ℕ, ◌≡◌, ◌↔◌, ◌⊎◌, inl, inr, refl, sym, ap, ◌∙◌, subst, true, false, List, [], ◌∷◌, arith, leb,
  ◌==◌, ==→eq, ==_refl, if◌then◌else◌, Bool-cases,
}
use inspequte.Base.BTree.{BTreeMap, get, insert, get-insert, map_values}
use inspequte.Base.Members.{Mem-append, Mem-append_left, Mem-append_right}
use inspequte.Ir.{FlowEdge, BasicBlock, Method}
use inspequte.Dataflow.Worklist.{
  at_entry, default_entries, push_edges, sort_insert, sort, dedup, new_graph, successors_for,
}
use mathlib.Core.List.{Memᴰ}

pub at_entry-insert :
    (k j : ℕ) (v : List ℕ) (m : BTreeMap (List ℕ))
    → at_entry (get k (insert j v m)) ≡ (if k == j then v else at_entry (get k m))
at_entry-insert k j v m = ground (arith, get-insert k j v m)

pub default_entries-same :
    (k : ℕ) (blocks : List BasicBlock) (m : BTreeMap (List ℕ))
    → at_entry (get k (default_entries blocks m)) ≡ at_entry (get k m)
unfolding default_entries
default_entries-same k [] m = refl
default_entries-same k (b ∷ blocks) m =
    default_entries-same k blocks _
    ∙ ground (arith, at_entry-insert k b.start_offset (at_entry (get b.start_offset m)) m)

-- an edge from `b` to `t`
abbrev pub Edge : List FlowEdge → ℕ → ℕ → Type 0
Edge edges b t = (e : FlowEdge) × Memᴰ e edges × (e.from ≡ b) × (e.to ≡ t)

Edge-tail : (e : FlowEdge) (edges : List FlowEdge) (b t : ℕ) → Edge edges b t → Edge (e ∷ edges) b t
Edge-tail e edges b t (x, m, f, g) = (x, Memᴰ.tail m, f, g)

at_entry_other :
    (k j : ℕ) (v : List ℕ) (m : BTreeMap (List ℕ))
    → (k == j) ≡ false
    → at_entry (get k (insert j v m)) ≡ at_entry (get k m)
at_entry_other k j v m h = at_entry-insert k j v m ∙ rw h

at_entry_same :
    (k j : ℕ) (v : List ℕ) (m : BTreeMap (List ℕ))
    → (k == j) ≡ true
    → at_entry (get k (insert j v m)) ≡ v
at_entry_same k j v m h = at_entry-insert k j v m ∙ rw h

push_edges-Edge :
    (edges : List FlowEdge) (m : BTreeMap (List ℕ)) (b t : ℕ)
    → Memᴰ t (at_entry (get b (push_edges edges m)))
    → Memᴰ t (at_entry (get b m)) ⊎ Edge edges b t
unfolding push_edges
push_edges-Edge [] m b t h = inl h
push_edges-Edge (e ∷ edges) m b t h = elim (push_edges-Edge edges _ b t h) [
  | inr later ↦ inr (Edge-tail e edges b t later)
  | inl now ↦ elim (Bool-cases (b == e.from)) [
    | inr other ↦ inl (subst (Memᴰ t) (at_entry_other b e.from _ m other) now)
    | inl same ↦
        let from : b ≡ e.from = ==→eq b e.from same in
        elim (Mem-append (at_entry (get e.from m)) (e.to ∷ [])
          (subst (Memᴰ t) (at_entry_same b e.from _ m same) now)) [
            | inl old ↦ inl (subst (λ k. Memᴰ t (at_entry (get k m))) (sym from) old)
            | inr (Memᴰ.head eq) ↦ inr (e, Memᴰ.head refl, sym from, sym eq)
            | inr (Memᴰ.tail none_left) ↦ elim none_left [ ]
          ]
  ]
]

push_edges-keeps :
    (edges : List FlowEdge) (m : BTreeMap (List ℕ)) (b t : ℕ)
    → Memᴰ t (at_entry (get b m))
    → Memᴰ t (at_entry (get b (push_edges edges m)))
unfolding push_edges
push_edges-keeps [] m b t h = h
push_edges-keeps (e ∷ edges) m b t h =
    push_edges-keeps edges _ b t (elim (Bool-cases (b == e.from)) [
      | inr other ↦ subst (Memᴰ t) (sym (at_entry_other b e.from _ m other)) h
      | inl same ↦ subst (Memᴰ t) (sym (at_entry_same b e.from _ m same)) (
          Mem-append_left (at_entry (get e.from m)) (e.to ∷ [])
            (subst (λ k. Memᴰ t (at_entry (get k m))) (==→eq b e.from same) h))
    ])

Edge-push_edges :
    (edges : List FlowEdge) (m : BTreeMap (List ℕ)) (b t : ℕ)
    → Edge edges b t
    → Memᴰ t (at_entry (get b (push_edges edges m)))
unfolding push_edges
Edge-push_edges [] m b t (e, h, f, g) = elim h [ ]
Edge-push_edges (e ∷ edges) m b t (x, Memᴰ.tail h, f, g) = Edge-push_edges edges _ b t (x, h, f, g)
Edge-push_edges (e ∷ edges) m b t (x, Memᴰ.head h, f, g) =
    let from : b ≡ e.from = sym f ∙ ap (λ (y : FlowEdge). y.from) h in
    let to : t ≡ e.to = sym g ∙ ap (λ (y : FlowEdge). y.to) h in
    push_edges-keeps edges _ b t (
      subst (Memᴰ t)
        (sym (at_entry_same b e.from _ m (subst (λ k. (b == k) ≡ true) from (==_refl b))))
        (Mem-append_right (at_entry (get e.from m)) (e.to ∷ []) (Memᴰ.head to)))

-- the same members
abbrev SameMembers : List ℕ → List ℕ → Type 0
SameMembers xs ys = (t : ℕ) → Memᴰ t xs ↔ Memᴰ t ys

sort_insert-SameMembers : (x : ℕ) (ys : List ℕ) → SameMembers (sort_insert x ys) (x ∷ ys)
sort_insert-SameMembers x [] t = ((λ m. m), λ m. m)
sort_insert-SameMembers x (y ∷ ys) t = elim (Bool-cases (leb x y)) [
  | inl before ↦ rw before ((λ m. m), λ m. m)
  | inr after ↦ rw after (
    (λ m. swap_back (sort_insert-SameMembers x ys t) m),
    λ m. swap_forth (sort_insert-SameMembers x ys t) m,
  )
]
  where
    swap_back :
        (Memᴰ t (sort_insert x ys) ↔ Memᴰ t (x ∷ ys))
        → Memᴰ t (y ∷ sort_insert x ys)
        → Memᴰ t (x ∷ y ∷ ys)
    swap_back ih (Memᴰ.head e) = Memᴰ.tail (Memᴰ.head e)
    swap_back ih (Memᴰ.tail m) = elim (ih.0 m) [
      | Memᴰ.head e ↦ Memᴰ.head e
      | Memᴰ.tail k ↦ Memᴰ.tail (Memᴰ.tail k)
    ]

    swap_forth :
        (Memᴰ t (sort_insert x ys) ↔ Memᴰ t (x ∷ ys))
        → Memᴰ t (x ∷ y ∷ ys)
        → Memᴰ t (y ∷ sort_insert x ys)
    swap_forth ih (Memᴰ.head e) = Memᴰ.tail (ih.1 (Memᴰ.head e))
    swap_forth ih (Memᴰ.tail (Memᴰ.head e)) = Memᴰ.head e
    swap_forth ih (Memᴰ.tail (Memᴰ.tail m)) = Memᴰ.tail (ih.1 (Memᴰ.tail m))

sort-SameMembers : (xs : List ℕ) → SameMembers (sort xs) xs
unfolding sort
sort-SameMembers [] t = ((λ m. m), λ m. m)
sort-SameMembers (x ∷ xs) t =
    let ih = sort-SameMembers xs t in
    let first = sort_insert-SameMembers x (sort xs) t in
    (
      (λ m. elim (first.0 m) [ Memᴰ.head e ↦ Memᴰ.head e | Memᴰ.tail k ↦ Memᴰ.tail (ih.0 k) ]),
      λ m. first.1 (under ih.1 m),
    )
  where
    under : (Memᴰ t xs → Memᴰ t (sort xs)) → Memᴰ t (x ∷ xs) → Memᴰ t (x ∷ sort xs)
    under f (Memᴰ.head e) = Memᴰ.head e
    under f (Memᴰ.tail m) = Memᴰ.tail (f m)

dedup-SameMembers : (xs : List ℕ) → SameMembers (dedup xs) xs
unfolding dedup
dedup-SameMembers [] t = ((λ m. m), λ m. m)
dedup-SameMembers (x ∷ []) t = ((λ m. m), λ m. m)
dedup-SameMembers (x ∷ y ∷ ys) t =
    let ih = dedup-SameMembers (y ∷ ys) t in
    elim (Bool-cases (x == y)) [
      | inl same ↦ rw same ((λ m. Memᴰ.tail (ih.0 m)), drop_first (==→eq x y same) ih.1)
      | inr other ↦ rw other (keep_first ih.0, keep_first ih.1)
    ]
  where
    drop_first :
        x ≡ y
        → (Memᴰ t (y ∷ ys) → Memᴰ t (dedup (y ∷ ys)))
        → Memᴰ t (x ∷ y ∷ ys)
        → Memᴰ t (dedup (y ∷ ys))
    drop_first e f (Memᴰ.head h) = f (Memᴰ.head (h ∙ e))
    drop_first e f (Memᴰ.tail m) = f m

    keep_first : {us vs : List ℕ} → (Memᴰ t us → Memᴰ t vs) → Memᴰ t (x ∷ us) → Memᴰ t (x ∷ vs)
    keep_first f (Memᴰ.head e) = Memᴰ.head e
    keep_first f (Memᴰ.tail m) = Memᴰ.tail (f m)

pub at_entry-map_values :
    (b : ℕ) (m : BTreeMap (List ℕ))
    → at_entry (get b (map_values (λ targets. dedup (sort targets)) m))
      ≡ dedup (sort (at_entry (get b m)))
unfolding get sort dedup
at_entry-map_values b [] = refl
at_entry-map_values b ((k, v) ∷ m) = elim (Bool-cases (b == k)) [
  | inl here ↦ rw here refl
  | inr other ↦ rw other (at_entry-map_values b m)
]

-- The successors of a block in the tables are exactly the targets of the edges that leave it.
pub successors_for-Edge :
    (method : Method) (b t : ℕ)
    → Memᴰ t (successors_for (new_graph method) b) ↔ Edge method.cfg.edges b t
unfolding successors_for new_graph get
successors_for-Edge method b t =
    let pushed = push_edges method.cfg.edges (default_entries method.cfg.blocks []) in
    let all = at_entry (get b pushed) in
    let same : SameMembers (dedup (sort all)) all = λ x. (
      (λ m. (sort-SameMembers all x).0 ((dedup-SameMembers (sort all) x).0 m)),
      λ m. (dedup-SameMembers (sort all) x).1 ((sort-SameMembers all x).1 m),
    ) in
    rw (at_entry-map_values b pushed) (
      (λ m.
          elim (push_edges-Edge method.cfg.edges (default_entries method.cfg.blocks []) b t
            ((same t).0 m)) [
              | inl old ↦
                  elim (subst (Memᴰ t) (default_entries-same b method.cfg.blocks []) old) [ ]
              | inr e ↦ e
            ]),
      λ e. (same t).1 (Edge-push_edges method.cfg.edges _ b t e),
    )
