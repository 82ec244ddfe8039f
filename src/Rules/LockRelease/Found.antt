-- ===== src/Rules/LockRelease/Found.antt =====
-- src/rules/lock_not_released_on_exception_path/mod.rs: a path without an unlock leads to a finding.
use inspequte.Base.{
  ℕ, ◌+◌, ◌≤◌, ◌<◌, ◌≡◌, ◌↔◌, refl, sym, ap, ◌∙◌, subst, Bool, true, false, Option, some, List, [],
  ◌∷◌, map, length, get_elem?, arith, inl, inr, ◌⊎◌, All,
}
use inspequte.Base.BTree.{get}
use inspequte.Base.Members.{get_elem?-bound, Mem-map, member}
use inspequte.Base.Result.{ok, ok-injective}
use inspequte.Ir.{Instruction, BasicBlock, Method}
use inspequte.Dataflow.Worklist.{
  Semantics, BlockEndStep, visit, analyze_method, enqueue, new_graph, successors_for,
}
use inspequte.Dataflow.Worklist.Graph.{Edge, successors_for-Edge}
use inspequte.Dataflow.Worklist.Blocks.{Distinct, Mem-blocks}
use inspequte.Dataflow.Worklist.Reached.{Queued, analyze_method-Produced, analyze_method_complete}
use inspequte.Rules.LockRelease.{
  LockSite, ExplorationState, lock_path_semantics, block_end, exit_step, move_to, found_any,
  any_finding, has_exit_path_without_unlock,
}
use inspequte.Rules.LockRelease.Paths.{Leaks}
use inspequte.Rules.LockRelease.Visits.{at_end, after, Visited, visit-Visited, equal_states_sound}
use inspequte.Rules.LockRelease.Space.{enough, lock_analysis-ok}
use inspequte.Rules.LockRelease.Correct.{Produced-Start}
use mathlib.Core.List.{Memᴰ}

some_same {ℓ} : {A : Type ℓ} {o : Option A} {a b : A} → o ≡ some a → o ≡ some b → a ≡ b
some_same e f = cc (e, f)

module _ (method : Method) (site : LockSite) (distinct : Distinct method.cfg.blocks) where
  abbrev sem : Semantics ExplorationState (Unit {0})
  sem = lock_path_semantics site

  abbrev Step : Type 0
  Step = BlockEndStep ExplorationState (Unit {0})

  module _ (r : List (Unit {0}))
      (complete : (q : ExplorationState)
        → Queued sem method q
        → (o : Step) × (visit sem method q ≡ ok o) × All (λ f. Memᴰ f r) o.findings) where
    -- the findings are among the results, and what is added is queued
    abbrev Adopted : Step → Type 0
    Adopted o =
        All (λ f. Memᴰ f r) o.findings
        × ((t : ExplorationState) → Memᴰ t o.next_states → Queued sem method t)

    -- a state that is queued, or whose block has just ended
    abbrev Handled : ExplorationState → BasicBlock → Type 0
    Handled s block =
        Queued sem method s
        ⊎ ((length block.instructions ≤ s.instruction_index) × Adopted (at_end method site s))

    Queued-Adopted :
        (q : ExplorationState)
        → Queued sem method q
        → (o : Step) × Visited method site q o × Adopted o
    unfolding lock_path_semantics
    Queued-Adopted q h =
        let (o, v, found) = complete q h in
        let (p, e, k) = visit-Visited method site q in
        (
          o,
          subst (Visited method site q) (ok-injective (sym e ∙ v)) k,
          (found, λ t m. Queued.next h v m),
        )

    Handled-End :
        (s : ExplorationState) (block : BasicBlock)
        → get s.block_start (new_graph method).blocks ≡ some block
        → length block.instructions ≤ s.instruction_index
        → Handled s block
        → Adopted (at_end method site s)
    Handled-End s block found over (inr (_, adopted)) = adopted
    Handled-End s block found over (inl queued) = go (Queued-Adopted s queued)
      where
        go : (o : Step) × Visited method site s o × Adopted o → Adopted (at_end method site s)
        go (o, Visited.no_block missing e, a) = absurd (cc (missing, found))
        go (o, Visited.ended c found' over' e, a) = subst Adopted e a
        go (o, Visited.inside c i found' here more e, a) =
            let eq : c ≡ block = some_same found' found in
            absurd (
              omega (
                arith,
                over,
                subst (λ (x : BasicBlock). s.instruction_index + 1 < length x.instructions) eq more,
              ))
        go (o, Visited.last c i found' here done e, a) =
            let eq : c ≡ block = some_same found' found in
            absurd (
              omega (
                arith,
                over,
                get_elem?-bound block.instructions s.instruction_index (
                    subst
                      (λ (x : BasicBlock). get_elem? x.instructions s.instruction_index ≡ some i) eq
                      here),
              ))

    Handled-after :
        (s : ExplorationState) (block : BasicBlock) (i : Instruction)
        → get s.block_start (new_graph method).blocks ≡ some block
        → get_elem? block.instructions s.instruction_index ≡ some i
        → Handled s block
        → Handled (after method site s i) block
    Handled-after s block i found here (inr (over, _)) =
        absurd (omega (arith, over, get_elem?-bound block.instructions s.instruction_index here))
    Handled-after s block i found here (inl queued) = go (Queued-Adopted s queued)
      where
        same_instruction :
            (c : BasicBlock) (j : Instruction)
            → c ≡ block
            → get_elem? c.instructions s.instruction_index ≡ some j
            → j ≡ i
        same_instruction c j eq e =
            some_same
              (subst (λ (x : BasicBlock). get_elem? x.instructions s.instruction_index ≡ some j) eq
                e)
              here

        go :
            (o : Step) × Visited method site s o × Adopted o → Handled (after method site s i) block
        go (o, Visited.no_block missing e, a) = absurd (cc (missing, found))
        go (o, Visited.ended c found' over e, a) =
            let eq : c ≡ block = some_same found' found in
            absurd (
              omega (
                arith,
                get_elem?-bound block.instructions s.instruction_index here,
                subst (λ (x : BasicBlock). length x.instructions ≤ s.instruction_index) eq over,
              ))
        go (o, Visited.inside c j found' here' more e, a) =
            let eq = same_instruction c j (some_same found' found) here' in
            inl (
              subst (λ k. Queued sem method (after method site s k)) eq
                ((subst Adopted e a).1 (after method site s j) (Memᴰ.head refl)))
        go (o, Visited.last c j found' here' done e, a) =
            let eqb : c ≡ block = some_same found' found in
            let eq = same_instruction c j eqb here' in
            inr (
              subst (λ (x : BasicBlock). length x.instructions ≤ s.instruction_index + 1) eqb done,
              subst (λ k. Adopted (at_end method site (after method site s k))) eq
                  (subst Adopted e a),
            )

    -- the end of a block that no edge leaves, without an unlock
    exit_found :
        (s : ExplorationState)
        → ((t : ℕ) → ¬ Edge method.cfg.edges s.block_start t)
        → s.unlock_seen ≡ false
        → Adopted (at_end method site s)
        → Memᴰ tt r
    unfolding enqueue lock_path_semantics
    exit_found s none_leaves quiet (found, nexts) =
        go (successors_for (new_graph method) s.block_start)
          (λ t. successors_for-Edge method s.block_start t) found
      where
        exit : (b : Bool) → b ≡ false → All (λ f. Memᴰ f r) (exit_step b).findings → Memᴰ tt r
        exit true e k = cc e
        exit false e (k, _) = k

        go :
            (successors : List ℕ)
            → ((t : ℕ) → Memᴰ t successors ↔ Edge method.cfg.edges s.block_start t)
            → All (λ f. Memᴰ f r) (block_end s successors).findings
            → Memᴰ tt r
        go [] same k = exit s.unlock_seen quiet k
        go (x ∷ xs) same k = absurd (none_leaves x ((same x).0 (Memᴰ.head refl)))

    -- the state at the start of a block that an edge leads to
    jump-Queued :
        (s : ExplorationState) (t : ℕ)
        → Edge method.cfg.edges s.block_start t
        → Adopted (at_end method site s)
        → Queued sem method (move_to s t 0)
    unfolding enqueue lock_path_semantics
    jump-Queued s t edge (found, nexts) =
        go (successors_for (new_graph method) s.block_start)
          ((successors_for-Edge method s.block_start t).1 edge) nexts
      where
        go :
            (successors : List ℕ)
            → Memᴰ t successors
            → ((q : ExplorationState)
                → Memᴰ q (map (λ y. y) (block_end s successors).next_states)
                → Queued sem method q)
            → Queued sem method (move_to s t 0)
        go [] m k = elim m [ ]
        go (x ∷ xs) m k = k (move_to s t 0) (
            Mem-map (λ y. y) (map (λ successor. move_to s successor 0) (x ∷ xs))
              (Mem-map (λ successor. move_to s successor 0) (x ∷ xs) m))

    same_start :
        (c block : BasicBlock)
        → Memᴰ c method.cfg.blocks
        → Memᴰ block method.cfg.blocks
        → c.start_offset ≡ block.start_offset
        → c ≡ block
    same_start c block k m e =
        some_same (Mem-blocks method c distinct k)
          (ap (λ b. get b (new_graph method).blocks) e ∙ Mem-blocks method block distinct m)

    -- the state at a position with no unlock seen
    abbrev Quiet : ℕ → ℕ → ExplorationState
    Quiet b i = record { block_start = b; instruction_index = i; unlock_seen = false }

    Leaks-found :
        (b i : ℕ)
        → Leaks method b i
        → (start : (block : BasicBlock)
            → Memᴰ block method.cfg.blocks
            → block.start_offset ≡ b
            → Handled (Quiet b i) block)
        → Memᴰ tt r
    Leaks-found b i (Leaks.exit {block = block} m over none_leaves) start =
        exit_found (Quiet b i) none_leaves refl (
          Handled-End (Quiet b i) block (Mem-blocks method block distinct m) over
            (start block m refl))
    Leaks-found b i (Leaks.jump {block = block} {t = t} m over edge l) start =
        let queued = jump-Queued (Quiet b i) t edge (
          Handled-End (Quiet b i) block (Mem-blocks method block distinct m) over
            (start block m refl)) in
        Leaks-found t 0 l (λ c k e. inl queued)
    Leaks-found b i (Leaks.pass {block = block} {instruction = instruction} m here quiet l) start =
        let s = Quiet b i in
        let next =
          Handled-after s block instruction (Mem-blocks method block distinct m) here
            (start block m refl) in
        let same : after method site s instruction ≡ Quiet b (i + 1) =
          ap (λ u. record { block_start = b; instruction_index = i + 1; unlock_seen = u }) quiet in
        Leaks-found b (i + 1) l λ c k e.
          subst (Handled (Quiet b (i + 1))) (sym (same_start c block k m e))
            (subst (λ (z : ExplorationState). Handled z block) same next)

  -- A path without an unlock from the start of the analysis leads to a finding.
  Start-found :
      (fuel : ℕ) (r : List (Unit {0}))
      → analyze_method sem method fuel ≡ some (ok r)
      → Leaks method site.block_start (site.instruction_index + 1)
      → Memᴰ tt r
  unfolding lock_path_semantics
  Start-found fuel r e l =
      Leaks-found r (analyze_method_complete sem method equal_states_sound fuel r e)
        site.block_start (site.instruction_index + 1) l
        λ c k same. inl (Queued.initial (Memᴰ.head refl))

  found_any_iff :
      (r : List (Unit {0}))
      → ((f : Unit {0}) → Memᴰ f r → Leaks method site.block_start (site.instruction_index + 1))
      → (Leaks method site.block_start (site.instruction_index + 1) → Memᴰ tt r)
      → (found_any r ≡ true) ↔ Leaks method site.block_start (site.instruction_index + 1)
  found_any_iff [] sound complete = ((λ e. cc e), λ l. elim (complete l) [ ])
  found_any_iff (f ∷ r) sound complete = ((λ e. sound f (Memᴰ.head refl)), λ l. refl)

-- On a method whose blocks start at different offsets, and with enough fuel for all states,
-- `has_exit_path_without_unlock` returns, without an error, whether some path of the control flow
-- graph leads from behind the lock to the end of a block that no edge leaves, and passes no unlock.
pub has_exit_path_without_unlock-Leaks :
    (method : Method) (site : LockSite)
    → Distinct method.cfg.blocks
    → (fuel : ℕ) → enough method site ≤ fuel
    → (b : Bool) × (has_exit_path_without_unlock fuel method site ≡ some (ok b))
      × ((b ≡ true) ↔ Leaks method site.block_start (site.instruction_index + 1))
unfolding has_exit_path_without_unlock
has_exit_path_without_unlock-Leaks method site distinct fuel h =
    let (r, e) = lock_analysis-ok method site fuel h in
    (
      found_any r,
      ap any_finding e,
      found_any_iff method site distinct r
          (λ f m.
            Produced-Start method site f
              (member _ r f (analyze_method-Produced (lock_path_semantics site) method fuel r e) m))
          (Start-found method site distinct fuel r e),
    )
