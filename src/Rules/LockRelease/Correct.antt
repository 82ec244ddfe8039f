-- ===== src/Rules/LockRelease/Correct.antt =====
-- src/rules/lock_not_released_on_exception_path/mod.rs: the answer of the analysis and the paths of the
-- control flow graph.
use inspequte.Base.{
  ℕ, ◌+◌, ◌≤◌, ◌≡◌, ◌↔◌, refl, sym, ◌∙◌, subst, Bool, true, false, ◌||◌, some, List, [], ◌∷◌, map,
  length, get_elem?, arith,
}
use inspequte.Base.BTree.{get}
use inspequte.Base.Members.{Mem-of-map}
use inspequte.Base.Result.{ok, ok-injective}
use inspequte.Ir.{Instruction, BasicBlock, Method}
use inspequte.Dataflow.Worklist.{Semantics, BlockEndStep, visit, enqueue, new_graph, successors_for}
use inspequte.Dataflow.Worklist.Graph.{Edge, successors_for-Edge}
use inspequte.Dataflow.Worklist.Blocks.{blocks-Mem}
use inspequte.Dataflow.Worklist.Reached.{Queued, Produced}
use inspequte.Rules.LockRelease.{
  LockSite, ExplorationState, lock_path_semantics, block_end, exit_step, move_to,
  is_unlock_invocation,
}
use inspequte.Rules.LockRelease.Paths.{Leaks}
use inspequte.Rules.LockRelease.Visits.{at_end, after, Visited, visit-Visited}
use mathlib.Core.List.{Memᴰ}

or_false : (a b : Bool) → (a || b) ≡ false → (a ≡ false) × (b ≡ false)
or_false a b h = ground arith

module _ (method : Method) (site : LockSite) where
  abbrev sem : Semantics ExplorationState (Unit {0})
  sem = lock_path_semantics site

  abbrev Step : Type 0
  Step = BlockEndStep ExplorationState (Unit {0})

  abbrev LeaksAt : ExplorationState → Type 0
  LeaksAt s = Leaks method s.block_start s.instruction_index

  -- the end of a block: its findings, and what it adds to the queue
  abbrev EndFacts : ExplorationState → Type 0
  EndFacts s =
      ((f : Unit {0})
        → Memᴰ f (at_end method site s).findings
        → (s.unlock_seen ≡ false) × LeaksAt s)
      × ((t : ExplorationState)
          → Memᴰ t (at_end method site s).next_states
          → (t.unlock_seen ≡ s.unlock_seen) × (LeaksAt t → LeaksAt s))

  at_end-EndFacts :
      (s : ExplorationState) (block : BasicBlock)
      → Memᴰ block method.cfg.blocks
      → block.start_offset ≡ s.block_start
      → length block.instructions ≤ s.instruction_index
      → EndFacts s
  unfolding enqueue lock_path_semantics
  at_end-EndFacts s block m e over =
      facts (successors_for (new_graph method) s.block_start)
        (λ t. successors_for-Edge method s.block_start t)
    where
      at_start : (i : ℕ) → Leaks method block.start_offset i → Leaks method s.block_start i
      at_start i l = subst (λ b. Leaks method b i) e l

      no_edge :
          ((t : ℕ) → Memᴰ t [] ↔ Edge method.cfg.edges s.block_start t)
          → (t : ℕ) → ¬ Edge method.cfg.edges block.start_offset t
      no_edge same t edge = elim ((same t).1 (subst (λ b. Edge method.cfg.edges b t) e edge)) [ ]

      exit_found : (b : Bool) (f : Unit {0}) → Memᴰ f (exit_step b).findings → b ≡ false
      exit_found true f k = elim k [ ]
      exit_found false f k = refl

      exit_next :
          (b : Bool) (t : ExplorationState) → ¬ Memᴰ t (map (λ y. y) (exit_step b).next_states)
      exit_next true t k = elim k [ ]
      exit_next false t k = elim k [ ]

      facts :
          (successors : List ℕ)
          → ((t : ℕ) → Memᴰ t successors ↔ Edge method.cfg.edges s.block_start t)
          → ((f : Unit {0})
              → Memᴰ f (block_end s successors).findings
              → (s.unlock_seen ≡ false) × LeaksAt s)
            × ((t : ExplorationState)
                → Memᴰ t (map (λ y. y) (block_end s successors).next_states)
                → (t.unlock_seen ≡ s.unlock_seen) × (LeaksAt t → LeaksAt s))
      facts [] same = (
        (λ f k. (
          exit_found s.unlock_seen f k,
          at_start s.instruction_index (Leaks.exit m over (no_edge same)),
        )),
        λ t k. absurd (exit_next s.unlock_seen t k),
      )
      facts (x ∷ xs) same = (
        (λ f k. elim k [ ]),
        λ t k.
            let (q, eq, k') =
              Mem-of-map (λ y. y) (map (λ successor. move_to s successor 0) (x ∷ xs)) k in
            let (y, eq', k'') = Mem-of-map (λ successor. move_to s successor 0) (x ∷ xs) k' in
            let edge : Edge method.cfg.edges block.start_offset y =
              subst (λ b. Edge method.cfg.edges b y) (sym e) ((same y).0 k'') in
            subst
              (λ (z : ExplorationState). (z.unlock_seen ≡ s.unlock_seen) × (LeaksAt z → LeaksAt s))
              (sym (eq ∙ eq')) (refl, λ l. at_start s.instruction_index (Leaks.jump m over edge l)),
      )

  pass-LeaksAt :
      (s : ExplorationState) (block : BasicBlock) (i : Instruction)
      → get s.block_start (new_graph method).blocks ≡ some block
      → get_elem? block.instructions s.instruction_index ≡ some i
      → (after method site s i).unlock_seen ≡ false
      → LeaksAt (after method site s i)
      → (s.unlock_seen ≡ false) × LeaksAt s
  pass-LeaksAt s block i found here quiet l =
      let (m, e) = blocks-Mem method s.block_start block found in
      let (before, now) = or_false s.unlock_seen (is_unlock_invocation i) quiet in
      (
        before,
        subst (λ b. Leaks method b s.instruction_index) e
            (Leaks.pass m here now
              (subst (λ b. Leaks method b (s.instruction_index + 1)) (sym e) l)),
      )

  -- a round: its findings, and what it adds to the queue
  abbrev RoundFacts : ExplorationState → Step → Type 0
  RoundFacts s o =
      ((f : Unit {0}) → Memᴰ f o.findings → (s.unlock_seen ≡ false) × LeaksAt s)
      × ((t : ExplorationState)
          → Memᴰ t o.next_states
          → t.unlock_seen ≡ false
          → LeaksAt t
          → (s.unlock_seen ≡ false) × LeaksAt s)

  Visited-RoundFacts : (s : ExplorationState) (o : Step) → Visited method site s o → RoundFacts s o
  Visited-RoundFacts s o (Visited.no_block missing e) =
      subst (RoundFacts s) (sym e) ((λ f k. elim k [ ]), λ t k. elim k [ ])
  Visited-RoundFacts s o (Visited.ended block found over e) =
      let (m, start) = blocks-Mem method s.block_start block found in
      let (finds, nexts) = at_end-EndFacts s block m start over in
      subst (RoundFacts s) (sym e)
        (finds, λ t k quiet l. let (same, back) = nexts t k in (sym same ∙ quiet, back l))
  Visited-RoundFacts s o (Visited.inside block i found here more e) =
      subst (RoundFacts s) (sym e) ((λ f k. elim k [ ]), one)
    where
      one :
          (t : ExplorationState)
          → Memᴰ t (after method site s i ∷ [])
          → t.unlock_seen ≡ false
          → LeaksAt t
          → (s.unlock_seen ≡ false) × LeaksAt s
      one t (Memᴰ.tail k) quiet l = elim k [ ]
      one t (Memᴰ.head eq) quiet l =
          pass-LeaksAt s block i found here
            (subst (λ (z : ExplorationState). z.unlock_seen ≡ false) eq quiet) (subst LeaksAt eq l)
  Visited-RoundFacts s o (Visited.last block i found here over e) =
      let (m, start) = blocks-Mem method s.block_start block found in
      let (finds, nexts) = at_end-EndFacts (after method site s i) block m start over in
      subst (RoundFacts s) (sym e) (
        (λ f k. let (quiet, l) = finds f k in pass-LeaksAt s block i found here quiet l),
        λ t k quiet l.
            let (same, back) = nexts t k in
            pass-LeaksAt s block i found here (sym same ∙ quiet) (back l),
      )

  visit-RoundFacts : (s : ExplorationState) (o : Step) → visit sem method s ≡ ok o → RoundFacts s o
  visit-RoundFacts s o v =
      let (p, e, k) = visit-Visited method site s in
      subst (RoundFacts s) (ok-injective (sym e ∙ v)) (Visited-RoundFacts s p k)

  abbrev Start : Type 0
  Start = Leaks method site.block_start (site.instruction_index + 1)

  Queued-Start :
      (q : ExplorationState) → Queued sem method q → q.unlock_seen ≡ false → LeaksAt q → Start
  unfolding lock_path_semantics
  Queued-Start q (Queued.initial (Memᴰ.head e)) quiet l = subst LeaksAt e l
  Queued-Start q (Queued.initial (Memᴰ.tail m)) quiet l = elim m [ ]
  Queued-Start t (Queued.next {q = q} {o = o} h v m) quiet l =
      let (quiet', l') = (visit-RoundFacts q o v).1 t m quiet l in Queued-Start q h quiet' l'

  pub Produced-Start : (f : Unit {0}) → Produced sem method f → Start
  unfolding lock_path_semantics
  Produced-Start f p =
      let (quiet, l) = (visit-RoundFacts p.state p.outcome p.visited).0 f p.found in
      Queued-Start p.state p.queued quiet l
