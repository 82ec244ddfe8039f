-- ===== src/Dataflow/Worklist/Runs.antt =====
-- `analyze_method` of src/dataflow/worklist.rs for an analysis whose callbacks do not fail.
use inspequte.Base.{
  ℕ, zero, suc, ◌≡◌, refl, sym, ◌∙◌, Option, some, List, [], ◌∷◌, ◌++◌, Bool-cases, inl, inr,
}
use inspequte.Base.Result.{Result, ok}
use inspequte.Ir.{Method}
use inspequte.Dataflow.Worklist.{Semantics, BlockEndStep, go_on, visit, seen, run, analyze_method}

module _ {State Finding : Type 0} (semantics : Semantics State Finding) (method : Method)
    (visits : (s : State)
      → (o : BlockEndStep State Finding) × (visit semantics method s ≡ ok o)) where
  go_on-visit :
      (continue : BlockEndStep State Finding → Option (Result (List Finding))) (s : State)
      {r : Result (List Finding)}
      → go_on continue (visit semantics method s) ≡ some r
      → (o : BlockEndStep State Finding) × (continue o ≡ some r)
  go_on-visit continue s h = let (o, e) = visits s in (o, sym (rw e refl) ∙ h)

  run-ok :
      (fuel : ℕ) (queue visited : List State) (findings : List Finding) (r : Result (List Finding))
      → run semantics method fuel queue visited findings ≡ some r
      → (fs : List Finding) × (r ≡ ok fs)
  unfolding run
  run-ok zero queue visited findings r h = cc
  run-ok (suc fuel) [] visited findings r h = (findings, cc)
  run-ok (suc fuel) (q ∷ queue) visited findings r h =
      let state = semantics.canonicalize_state q in
      elim (Bool-cases (seen semantics method state visited)) [
        | inl old ↦ run-ok fuel queue visited findings r (rw old at h)
        | inr new ↦
            let (o, e) = go_on-visit _ state (rw new at h) in
            run-ok fuel (queue ++ o.next_states) (state ∷ visited) (findings ++ o.findings) r e
      ]

  -- What `analyze_method` returns is not an error.
  pub analyze_method-ok :
      (fuel : ℕ) (r : Result (List Finding))
      → analyze_method semantics method fuel ≡ some r
      → (fs : List Finding) × (r ≡ ok fs)
  unfolding analyze_method
  analyze_method-ok fuel r h = run-ok fuel _ [] [] r h
