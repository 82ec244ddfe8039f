-- ===== src/Dataflow/Worklist/Terminates.antt =====
-- The number of rounds of `analyze_method` of src/dataflow/worklist.rs.
use inspequte.Base.{
  ℕ, zero, suc, ◌+◌, ◌*◌, ◌≤◌, ◌<◌, ◌≡◌, refl, subst, true, false, Option, some, List, [], ◌∷◌,
  ◌++◌, length, length-append, length-map, All, All-append, Bool-cases, inl, inr, arith,
  if◌then◌else◌,
}
use inspequte.Base.Result.{Result, ok, err, panic}
use inspequte.Ir.{Method}
use inspequte.Dataflow.Worklist.{Semantics, BlockEndStep, go_on, visit, seen, run, analyze_method}
use inspequte.Base.Members.{all_members, all_map}
use inspequte.Dataflow.Worklist.Reached.{Queued}
use mathlib.Core.List.{Memᴰ}

module _ {State Finding : Type 0} (semantics : Semantics State Finding) (method : Method)
    (equal_refl : (s : State) → semantics.equal s s ≡ true) (bound : ℕ)
    (few_added : (s : State) (o : BlockEndStep State Finding)
      → visit semantics method s ≡ ok o
      → length o.next_states ≤ bound)
    (space : List State)
    (inside : (q : State)
      → Queued semantics method q
      → Memᴰ (semantics.canonicalize_state q) space) where
  -- what the states not yet visited may still add to the queue
  budget : List State → List State → ℕ
  budget [] visited = 0
  budget (s ∷ ss) visited =
      (if seen semantics method s visited then 0 else bound) + budget ss visited

  budget_visit : (s : State) (ss visited : List State) → budget ss (s ∷ visited) ≤ budget ss visited
  unfolding seen budget
  budget_visit s [] visited = omega arith
  budget_visit s (t ∷ ss) visited = elim (Bool-cases (semantics.equal t s)) [
    | inl e ↦ rw e (omega (arith, budget_visit s ss visited))
    | inr e ↦ rw e (omega (arith, budget_visit s ss visited))
  ]

  budget_new :
      (s : State) (ss visited : List State)
      → Memᴰ s ss
      → seen semantics method s visited ≡ false
      → budget ss (s ∷ visited) + bound ≤ budget ss visited
  unfolding seen budget
  budget_new s [] visited m new = elim m [ ]
  budget_new s (t ∷ ss) visited (Memᴰ.head e) new =
      subst (λ x. budget (x ∷ ss) (s ∷ visited) + bound ≤ budget (x ∷ ss) visited) e
        (rw (new, equal_refl s) (omega (arith, budget_visit s ss visited)))
  budget_new s (t ∷ ss) visited (Memᴰ.tail m) new = elim (Bool-cases (semantics.equal t s)) [
    | inl e ↦ rw e (omega (arith, budget_new s ss visited m new))
    | inr e ↦ rw e (omega (arith, budget_new s ss visited m new))
  ]

  budget_start : (ss : List State) → budget ss [] ≤ length ss * bound
  unfolding seen budget
  budget_start [] = omega arith
  budget_start (s ∷ ss) = ground (arith, budget_start ss)

  abbrev Ends : Option (Result (List Finding)) → Type 0
  Ends o = (r : Result (List Finding)) × (o ≡ some r)

  go_on-Ends :
      (continue : BlockEndStep State Finding → Option (Result (List Finding)))
      (s : Result (BlockEndStep State Finding))
      → ((o : BlockEndStep State Finding) → s ≡ ok o → Ends (continue o))
      → Ends (go_on continue s)
  go_on-Ends continue (ok o) f = f o refl
  go_on-Ends continue (err e) f = (err e, refl)
  go_on-Ends continue panic f = (panic, refl)

  run-Ends :
      (fuel : ℕ) (queue visited : List State) (findings : List Finding)
      → All (Queued semantics method) queue
      → length queue + budget space visited < fuel
      → Ends (run semantics method fuel queue visited findings)
  unfolding run
  run-Ends zero queue visited findings hq h = absurd (omega arith)
  run-Ends (suc fuel) [] visited findings hq h = (ok findings, refl)
  run-Ends (suc fuel) (q ∷ queue) visited findings (k, hq) h =
      let state = semantics.canonicalize_state q in
      elim (Bool-cases (seen semantics method state visited)) [
        | inl old ↦ rw old (run-Ends fuel queue visited findings hq (omega arith))
        | inr new ↦ rw new (
            go_on-Ends _ (visit semantics method state) λ o v.
              run-Ends fuel (queue ++ o.next_states) (state ∷ visited) (findings ++ o.findings)
                (All-append _ queue o.next_states hq
                  (all_members _ o.next_states λ t m. Queued.next k v m))
                (omega (
                  arith,
                  length-append queue o.next_states,
                  few_added state o v,
                  budget_new state space visited (inside q k) new,
                )))
      ]

  -- When the equality test holds of each state and itself, the loop of `analyze_method` ends within any
  -- fuel above the following bound. When the states that the analysis reaches lie in a finite list
  -- and a round adds at most `bound` states, it needs one round for every initial state, and `bound`
  -- rounds for every state of the list.
  pub analyze_method-Ends :
      (fuel : ℕ)
      → length (semantics.initial_states method) + length space * bound < fuel
      → (r : Result (List Finding)) × (analyze_method semantics method fuel ≡ some r)
  unfolding analyze_method
  analyze_method-Ends fuel h =
      run-Ends fuel _ [] []
        (all_map _ semantics.canonicalize_state (semantics.initial_states method)
          λ s m. Queued.initial m)
        (omega (
          arith,
          h,
          budget_start space,
          length-map semantics.canonicalize_state (semantics.initial_states method),
        ))
