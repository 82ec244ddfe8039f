-- ===== src/Rules/LockRelease/Space.antt =====
-- The states that the analysis of src/rules/lock_not_released_on_exception_path/mod.rs can reach are
-- finitely many.
use inspequte.Base.{
  ℕ, zero, suc, ◌+◌, ◌*◌, ◌≤◌, ◌<◌, ◌≡◌, refl, sym, ap, ◌∙◌, subst, Bool, true, false, some, List,
  [], ◌∷◌, ◌++◌, map, length, length-map, arith, inl, inr, Bool-cases, ◌==◌, ==→eq,
}
use inspequte.Base.Members.{Mem-append_left, Mem-append_right, Mem-map, Mem-of-map}
use inspequte.Base.Result.{ok, ok-injective}
use inspequte.Ir.{Instruction, BasicBlock, FlowEdge, Method}
use inspequte.Dataflow.Worklist.{
  Semantics, BlockEndStep, visit, analyze_method, enqueue, new_graph, successors_for,
}
use inspequte.Dataflow.Worklist.Graph.{Edge, successors_for-Edge}
use inspequte.Dataflow.Worklist.Blocks.{length-successors_for, blocks-Mem}
use inspequte.Dataflow.Worklist.Reached.{Queued}
use inspequte.Dataflow.Worklist.Terminates.{analyze_method-Ends}
use inspequte.Dataflow.Worklist.Runs.{analyze_method-ok}
use inspequte.Rules.LockRelease.{
  LockSite, ExplorationState, lock_path_semantics, block_end, exit_step, move_to,
}
use inspequte.Rules.LockRelease.Visits.{at_end, after, Visited, visit-Visited, equal_states_refl}
use mathlib.Core.List.{Memᴰ}

abbrev state : ℕ → ℕ → Bool → ExplorationState
state block_start index unlock_seen = record {
  block_start = block_start;
  instruction_index = index;
  unlock_seen = unlock_seen;
}

-- all states of a block with an index up to `n`
abbrev pub column : ℕ → ℕ → List ExplorationState
column k zero = state k zero true ∷ state k zero false ∷ []
column k (suc n) = state k (suc n) true ∷ state k (suc n) false ∷ column k n

abbrev pub grid : List ℕ → ℕ → List ExplorationState
grid [] n = []
grid (k ∷ ks) n = column k n ++ grid ks n

column_has : (k n i : ℕ) (b : Bool) → i ≤ n → Memᴰ (state k i b) (column k n)
column_has k zero zero true h = Memᴰ.head refl
column_has k zero zero false h = Memᴰ.tail (Memᴰ.head refl)
column_has k zero (suc i) b h = absurd (omega arith)
column_has k (suc n) i b h = elim (Bool-cases (i == suc n)) [
  | inl same ↦
      subst (λ j. Memᴰ (state k j b) (column k (suc n))) (sym (==→eq i (suc n) same)) (top b)
  | inr other ↦ Memᴰ.tail (Memᴰ.tail (column_has k n i b (ground arith)))
]
  where
    top : (c : Bool) → Memᴰ (state k (suc n) c) (column k (suc n))
    top true = Memᴰ.head refl
    top false = Memᴰ.tail (Memᴰ.head refl)

grid_has :
    (ks : List ℕ) (n : ℕ) (s : ExplorationState)
    → Memᴰ s.block_start ks
    → s.instruction_index ≤ n
    → Memᴰ s (grid ks n)
grid_has [] n s m h = elim m [ ]
grid_has (k ∷ ks) n s (Memᴰ.head e) h = Mem-append_left (column k n) (grid ks n) (
    subst (λ j. Memᴰ s (column j n)) e
      (column_has s.block_start n s.instruction_index s.unlock_seen h))
grid_has (k ∷ ks) n s (Memᴰ.tail m) h =
    Mem-append_right (column k n) (grid ks n) (grid_has ks n s m h)

-- all instructions of the blocks
abbrev pub instruction_count : List BasicBlock → ℕ
instruction_count [] = 0
instruction_count (b ∷ blocks) = length b.instructions + instruction_count blocks

block_count :
    (blocks : List BasicBlock) (b : BasicBlock)
    → Memᴰ b blocks
    → length b.instructions ≤ instruction_count blocks
block_count [] b m = elim m [ ]
block_count (c ∷ blocks) b (Memᴰ.head e) =
    subst (λ (x : BasicBlock). length x.instructions ≤ instruction_count (c ∷ blocks)) (sym e)
      (omega arith)
block_count (c ∷ blocks) b (Memᴰ.tail m) = omega (arith, block_count blocks b m)

abbrev target_of_edge : FlowEdge → ℕ
target_of_edge e = e.to

module _ (method : Method) (site : LockSite) where
  abbrev sem : Semantics ExplorationState (Unit {0})
  sem = lock_path_semantics site

  -- the blocks that the analysis starts in or can be led to
  abbrev pub keys : List ℕ
  keys = site.block_start ∷ map target_of_edge method.cfg.edges

  abbrev pub top : ℕ
  top = site.instruction_index + 1 + instruction_count method.cfg.blocks

  abbrev pub space : List ExplorationState
  space = grid keys top

  abbrev Bounded : ExplorationState → Type 0
  Bounded s = Memᴰ s.block_start keys × (s.instruction_index ≤ top)

  at_end-Bounded : (s t : ExplorationState) → Memᴰ t (at_end method site s).next_states → Bounded t
  unfolding enqueue lock_path_semantics
  at_end-Bounded s t m =
      go (successors_for (new_graph method) s.block_start)
        (λ x k. (successors_for-Edge method s.block_start x).0 k) m
    where
      edge_key : (x : ℕ) → Edge method.cfg.edges s.block_start x → Memᴰ x keys
      edge_key x (e, k, f, g) = Memᴰ.tail (
          subst (λ y. Memᴰ y (map target_of_edge method.cfg.edges)) g
            (Mem-map target_of_edge method.cfg.edges k))

      go :
          (successors : List ℕ)
          → ((x : ℕ) → Memᴰ x successors → Edge method.cfg.edges s.block_start x)
          → Memᴰ t (map (λ y. y) (block_end s successors).next_states)
          → Bounded t
      go [] edges m = exit_none s.unlock_seen m
        where
          exit_none : (b : Bool) → Memᴰ t (map (λ y. y) (exit_step b).next_states) → Bounded t
          exit_none true m = elim m [ ]
          exit_none false m = elim m [ ]
      go (x ∷ xs) edges m =
          let (q, e, k) =
            Mem-of-map (λ y. y) (map (λ successor. move_to s successor 0) (x ∷ xs)) m in
          let (y, e', k') = Mem-of-map (λ successor. move_to s successor 0) (x ∷ xs) k in
          subst Bounded (sym (e ∙ e')) (edge_key y (edges y k'), omega arith)

  after-Bounded :
      (s : ExplorationState) (i : Instruction) (block : BasicBlock)
      → Bounded s
      → Memᴰ block method.cfg.blocks
      → s.instruction_index + 1 < length block.instructions
      → Bounded (after method site s i)
  after-Bounded s i block (k, _) m h = (k, omega (arith, h, block_count method.cfg.blocks block m))

  Visited-Bounded :
      (s : ExplorationState) (o : BlockEndStep ExplorationState (Unit {0}))
      → Visited method site s o
      → Bounded s
      → (t : ExplorationState) → Memᴰ t o.next_states
      → Bounded t
  Visited-Bounded s o (Visited.no_block missing e) b t m =
      elim (subst (λ (p : BlockEndStep ExplorationState (Unit {0})). Memᴰ t p.next_states) e m) [ ]
  Visited-Bounded s o (Visited.ended block found over e) b t m =
      at_end-Bounded s t
        (subst (λ (p : BlockEndStep ExplorationState (Unit {0})). Memᴰ t p.next_states) e m)
  Visited-Bounded s o (Visited.last block i found here over e) b t m =
      at_end-Bounded (after method site s i) t
        (subst (λ (p : BlockEndStep ExplorationState (Unit {0})). Memᴰ t p.next_states) e m)
  Visited-Bounded s o (Visited.inside block i found here more e) b t m =
      one (subst (λ (p : BlockEndStep ExplorationState (Unit {0})). Memᴰ t p.next_states) e m)
    where
      one : Memᴰ t (after method site s i ∷ []) → Bounded t
      one (Memᴰ.head h) =
          subst Bounded (sym h)
            (after-Bounded s i block b (blocks-Mem method s.block_start block found).0 more)
      one (Memᴰ.tail h) = elim h [ ]

  Queued-Bounded : (q : ExplorationState) → Queued sem method q → Bounded q
  unfolding lock_path_semantics
  Queued-Bounded q (Queued.initial (Memᴰ.head e)) =
      subst Bounded (sym e) (Memᴰ.head refl, omega arith)
  Queued-Bounded q (Queued.initial (Memᴰ.tail m)) = elim m [ ]
  Queued-Bounded t (Queued.next {q = q} {o = o} h v m) =
      let (p, e, k) = visit-Visited method site q in
      Visited-Bounded q o (subst (Visited method site q) (ok-injective (sym e ∙ v)) k)
        (Queued-Bounded q h) t m

  length-at_end :
      (s : ExplorationState) → length (at_end method site s).next_states ≤ length method.cfg.edges
  unfolding enqueue lock_path_semantics
  length-at_end s =
      go (successors_for (new_graph method) s.block_start)
        (length-successors_for method s.block_start)
    where
      exit_none :
          (b : Bool) → length (map (λ y. y) (exit_step b).next_states) ≤ length method.cfg.edges
      exit_none true = omega arith
      exit_none false = omega arith

      go :
          (successors : List ℕ)
          → length successors ≤ length method.cfg.edges
          → length (map (λ y. y) (block_end s successors).next_states) ≤ length method.cfg.edges
      go [] h = exit_none s.unlock_seen
      go (x ∷ xs) h = omega (
        arith,
        h,
        length-map (λ (y : ExplorationState). y)
            (map (λ successor. move_to s successor 0) (x ∷ xs)),
        length-map (λ successor. move_to s successor 0) (x ∷ xs),
      )

  few_added :
      (s : ExplorationState) (o : BlockEndStep ExplorationState (Unit {0}))
      → visit sem method s ≡ ok o
      → length o.next_states ≤ length method.cfg.edges + 1
  few_added s o v =
      let (p, e, k) = visit-Visited method site s in
      subst
        (λ (x : BlockEndStep ExplorationState (Unit {0})).
          length x.next_states ≤ length method.cfg.edges + 1)
        (ok-injective (sym e ∙ v)) (few p k)
    where
      few :
          (p : BlockEndStep ExplorationState (Unit {0}))
          → Visited method site s p
          → length p.next_states ≤ length method.cfg.edges + 1
      few p (Visited.no_block missing e) = rw e (omega arith)
      few p (Visited.inside block i found here more e) = rw e (omega arith)
      few p (Visited.ended block found over e) = rw e (omega (arith, length-at_end s))
      few p (Visited.last block i found here over e) =
          rw e (omega (arith, length-at_end (after method site s i)))

  -- the rounds that suffice
  abbrev pub enough : ℕ
  enough = 2 + length space * (length method.cfg.edges + 1)

  pub lock_analysis-ok :
      (fuel : ℕ)
      → enough ≤ fuel
      → (fs : List (Unit {0})) × (analyze_method sem method fuel ≡ some (ok fs))
  unfolding lock_path_semantics
  lock_analysis-ok fuel h =
      let (r, e) =
        analyze_method-Ends sem method equal_states_refl (length method.cfg.edges + 1) few_added
          space (λ q k. let (m, b) = Queued-Bounded q k in grid_has keys top q m b) fuel
          (omega (arith, h)) in
      let (fs, e') =
        analyze_method-ok sem method (λ s. let (o, v, _) = visit-Visited method site s in (o, v))
          fuel r e in
      (fs, e ∙ ap some e')
