-- ===== src/Dataflow/Worklist/Reached.antt =====
-- The findings of `analyze_method` of src/dataflow/worklist.rs, and the states it reaches.
use inspequte.Base.{
  ℕ, zero, suc, ◌≡◌, refl, sym, ap, ◌∙◌, subst, true, ◌⊎◌, inl, inr, Option, some, List, [], ◌∷◌,
  ◌++◌, map, All, All-imp, All-append, Bool-cases,
}
use inspequte.Base.Result.{Result, ok, err, panic, ok-injective}
use inspequte.Ir.{Method}
use inspequte.Dataflow.Worklist.{Semantics, BlockEndStep, go_on, visit, seen, run, analyze_method}
use inspequte.Base.Members.{Mem-append_left, Mem-append_right, all_members, member, all_map}
use mathlib.Core.List.{Memᴰ}

same_some {ℓ} : {A : Type ℓ} {a b : A} → some (ok a) ≡ some (ok b) → a ≡ b
same_some h = cc

module _ {State Finding : Type 0} (semantics : Semantics State Finding) (method : Method) where
  abbrev canon : State → State
  canon = semantics.canonicalize_state

  -- The states that the analysis puts in its queue: the initial states, and those that a round on a
  -- state of the queue adds.
  pub data Queued : State → Type 0 where
    initial :
        {s : State}
        → Memᴰ s (semantics.initial_states method)
        → Queued (semantics.canonicalize_state s)
    next :
        {q t : State} {o : BlockEndStep State Finding}
        → Queued q
        → visit semantics method (semantics.canonicalize_state q) ≡ ok o
        → Memᴰ t o.next_states
        → Queued t

  -- A finding of a round on a state of the queue.
  pub record Produced (f : Finding) : Type 0 where
    pub state : State
    pub queued : Queued state
    pub outcome : BlockEndStep State Finding
    pub visited : visit semantics method (semantics.canonicalize_state state) ≡ ok outcome
    pub found : Memᴰ f outcome.findings

  go_on-ok {κ} :
      {B : Type κ} (continue : BlockEndStep State Finding → Option (Result B))
      (s : Result (BlockEndStep State Finding)) {r : B}
      → go_on continue s ≡ some (ok r)
      → (o : BlockEndStep State Finding) × (s ≡ ok o) × (continue o ≡ some (ok r))
  go_on-ok continue (ok o) h = (o, refl, h)
  go_on-ok continue (err e) h = cc
  go_on-ok continue panic h = cc

  run-Produced :
      (fuel : ℕ) (queue visited : List State) (findings r : List Finding)
      → All Queued queue
      → All Produced findings
      → run semantics method fuel queue visited findings ≡ some (ok r)
      → All Produced r
  unfolding run
  run-Produced zero queue visited findings r hq hf e = cc
  run-Produced (suc fuel) [] visited findings r hq hf e = subst (All Produced) (same_some e) hf
  run-Produced (suc fuel) (q ∷ queue) visited findings r (h, hq) hf e =
      elim (Bool-cases (seen semantics method (canon q) visited)) [
        | inl old ↦ run-Produced fuel queue visited findings r hq hf (rw old at e)
        | inr new ↦
            let (o, v, e') = go_on-ok _ (visit semantics method (canon q)) (rw new at e) in
            run-Produced fuel (queue ++ o.next_states) (canon q ∷ visited) (findings ++ o.findings)
              r
              (All-append Queued queue o.next_states hq
                (all_members Queued o.next_states λ t m. Queued.next h v m))
              (All-append Produced findings o.findings hf (
                all_members Produced o.findings
                  λ f m. record { state = q; queued = h; outcome = o; visited = v; found = m }))
              e'
      ]

  -- Every finding that `analyze_method` returns was found on a state that the analysis reaches.
  pub analyze_method-Produced :
      (fuel : ℕ) (r : List Finding)
      → analyze_method semantics method fuel ≡ some (ok r)
      → All Produced r
  unfolding analyze_method
  analyze_method-Produced fuel r e =
      run-Produced fuel _ [] [] r
        (all_map Queued canon (semantics.initial_states method) λ s m. Queued.initial m) tt e

  -- a queued state that is either still to come or done
  abbrev Tracked : List State → List State → State → Type 0
  Tracked queue visited t = Memᴰ t queue ⊎ Memᴰ (canon t) visited

  -- The round on a visited state returned; its findings are recorded and its states are tracked.
  record Done (queue visited : List State) (findings : List Finding) (v : State) : Type 0 where
    pub outcome : BlockEndStep State Finding
    pub returned : visit semantics method v ≡ ok outcome
    pub found : All (λ f. Memᴰ f findings) outcome.findings
    pub tracked : All (Tracked queue visited) outcome.next_states

  Done-imp :
      (queue queue' visited visited' : List State) (findings findings' : List Finding)
      → ((t : State) → Tracked queue visited t → Tracked queue' visited' t)
      → ((f : Finding) → Memᴰ f findings → Memᴰ f findings')
      → (vs : List State) → All (Done queue visited findings) vs
      → All (Done queue' visited' findings') vs
  Done-imp queue queue' visited visited' findings findings' ht hf vs =
      All-imp
        (λ v d. record {
          outcome = d.outcome;
          returned = d.returned;
          found = All-imp hf d.outcome.findings d.found;
          tracked = All-imp ht d.outcome.next_states d.tracked;
        })
        vs

  -- What the loop keeps: all visited states are done, and the states `ts` are tracked.
  record IsRun (queue visited : List State) (findings : List Finding) (ts : List State)
      : Type 0 where
    pub done : All (Done queue visited findings) visited
    pub starts : All (Tracked queue visited) ts

  skip-Tracked :
      (q : State) (queue visited : List State)
      → Memᴰ (canon q) visited
      → (t : State) → Tracked (q ∷ queue) visited t
      → Tracked queue visited t
  skip-Tracked q queue visited h t (inl (Memᴰ.head e)) =
      inr (subst (λ x. Memᴰ (canon x) visited) (sym e) h)
  skip-Tracked q queue visited h t (inl (Memᴰ.tail m)) = inl m
  skip-Tracked q queue visited h t (inr m) = inr m

  visit-Tracked :
      (q : State) (queue added visited : List State) (t : State)
      → Tracked (q ∷ queue) visited t
      → Tracked (queue ++ added) (canon q ∷ visited) t
  visit-Tracked q queue added visited t (inl (Memᴰ.head e)) = inr (Memᴰ.head (ap canon e))
  visit-Tracked q queue added visited t (inl (Memᴰ.tail m)) = inl (Mem-append_left queue added m)
  visit-Tracked q queue added visited t (inr m) = inr (Memᴰ.tail m)

  module _ (equal_sound : (s t : State) → semantics.equal s t ≡ true → s ≡ t) where
    seen-Mem :
        (s : State) (visited : List State) → seen semantics method s visited ≡ true → Memᴰ s visited
    unfolding seen
    seen-Mem s [] h = cc
    seen-Mem s (v ∷ visited) h = elim (Bool-cases (semantics.equal s v)) [
      | inl e ↦ Memᴰ.head (equal_sound s v e)
      | inr e ↦ Memᴰ.tail (seen-Mem s visited (rw e at h))
    ]

    run-IsRun :
        (fuel : ℕ) (queue visited : List State) (findings r : List Finding) (ts : List State)
        → IsRun queue visited findings ts
        → run semantics method fuel queue visited findings ≡ some (ok r)
        → (end : List State) × IsRun [] end r ts
    unfolding run
    run-IsRun zero queue visited findings r ts i e = cc
    run-IsRun (suc fuel) [] visited findings r ts i e =
        (visited, subst (λ fs. IsRun [] visited fs ts) (same_some e) i)
    run-IsRun (suc fuel) (q ∷ queue) visited findings r ts i e =
        elim (Bool-cases (seen semantics method (canon q) visited)) [
          | inl old ↦
              let keep_tracked = skip-Tracked q queue visited (seen-Mem (canon q) visited old) in
              run-IsRun fuel queue visited findings r ts
                (record {
                  done =
                      Done-imp (q ∷ queue) queue visited visited findings findings keep_tracked
                        (λ f m. m) visited i.done;
                  starts = All-imp keep_tracked ts i.starts;
                })
                (rw old at e)
          | inr new ↦
              let (o, v, e') = go_on-ok _ (visit semantics method (canon q)) (rw new at e) in
              let keep_tracked = visit-Tracked q queue o.next_states visited in
              run-IsRun fuel (queue ++ o.next_states) (canon q ∷ visited) (findings ++ o.findings) r
                ts
                (record {
                  done = (
                    record {
                      outcome = o;
                      returned = v;
                      found =
                          all_members _ o.findings λ f m. Mem-append_right findings o.findings m;
                      tracked =
                          all_members _ o.next_states
                            λ t m. inl (Mem-append_right queue o.next_states m);
                    },
                    Done-imp (q ∷ queue) _ visited _ findings _ keep_tracked
                        (λ f m. Mem-append_left findings o.findings m) visited i.done,
                  );
                  starts = All-imp keep_tracked ts i.starts;
                })
                e'
        ]

    ends : (visited : List State) (t : State) → Tracked [] visited t → Memᴰ (canon t) visited
    ends visited t (inl m) = elim m [ ]
    ends visited t (inr m) = m

    map-Mem : (s : State) (ss : List State) → Memᴰ s ss → Memᴰ (canon s) (map canon ss)
    map-Mem s [] m = elim m [ ]
    map-Mem s (t ∷ ss) (Memᴰ.head e) = Memᴰ.head (ap canon e)
    map-Mem s (t ∷ ss) (Memᴰ.tail m) = Memᴰ.tail (map-Mem s ss m)

    Queued-visited :
        (end : List State) (r : List Finding)
        → IsRun [] end r (map canon (semantics.initial_states method))
        → (q : State) → Queued q
        → Memᴰ (canon q) end
    Queued-visited end r i q (Queued.initial m) =
        ends end _
          (member _ (map canon (semantics.initial_states method)) _ i.starts (map-Mem _ _ m))
    Queued-visited end r i t (Queued.next {q} h v m) =
        let d = member _ end (canon q) i.done (Queued-visited end r i q h) in
        ends end t (
          member _ d.outcome.next_states t d.tracked
            (subst (λ o. Memᴰ t o.next_states) (ok-injective (sym v ∙ d.returned)) m))

    -- When `analyze_method` returns, a round on any state that the analysis reaches returns, and all
    -- its findings are among the results, given that the order on states equates only equal states.
    pub analyze_method_complete :
        (fuel : ℕ) (r : List Finding)
        → analyze_method semantics method fuel ≡ some (ok r)
        → (q : State) → Queued q
        → (o : BlockEndStep State Finding) × (visit semantics method (canon q) ≡ ok o)
          × All (λ f. Memᴰ f r) o.findings
    unfolding analyze_method
    analyze_method_complete fuel r e q h =
        let inits = map canon (semantics.initial_states method) in
        let (end, i) =
          run-IsRun fuel inits [] [] r inits
            (record { done = tt; starts = all_members _ inits λ t m. inl m }) e in
        let d = member _ end (canon q) i.done (Queued-visited end r i q h) in
        (d.outcome, d.returned, d.found)
