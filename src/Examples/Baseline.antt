-- ===== src/Examples/Baseline.antt =====
-- A baseline of one result.
use inspequte.Base.{◌≡◌, ◌↔◌, some, List, [], ◌∷◌}
use inspequte.Base.Int.{pos}
use inspequte.Baseline.{SarifResult, Baseline, entry_from, capture, filter, load_baseline}
use inspequte.Baseline.Filter.{filter-capture}
use inspequte.Baseline.Load.{filter-load_baseline}
use Prim.Native.String.{String}
use mathlib.Core.List.{Memᴰ}

abbrev result : String → SarifResult
result rule = record {
  rule_id = some rule;
  message_text = some "found";
  locations = some (
      record {
        logical_names = some (some "A.run" ∷ []);
        physical_location = some (record {
          artifact_uri = some (some "A.java");
          region_start_line = some (some (pos 7));
        });
      }
      ∷ []);
}

abbrev results : List SarifResult
results = result "B" ∷ result "A" ∷ []

filter-capture_example :
    ((r : SarifResult)
      → Memᴰ r (filter (capture (result "A" ∷ [])) results) ↔ (
          Memᴰ r results
          × ((k : SarifResult) → Memᴰ k (result "A" ∷ []) → ¬ (entry_from k ≡ entry_from r))))
    × (filter (capture (result "A" ∷ [])) (result "A" ∷ []) ≡ [])
filter-capture_example = filter-capture (result "A" ∷ []) results

abbrev repeated : Baseline
repeated = record {
  version = 1;
  findings = entry_from (result "B") ∷ entry_from (result "A") ∷ entry_from (result "B") ∷ [];
}

filter-load_baseline_example :
    Memᴰ (result "A") (filter (load_baseline repeated) results)
    ↔ (Memᴰ (result "A") results × (¬ Memᴰ (entry_from (result "A")) repeated.findings))
filter-load_baseline_example = filter-load_baseline repeated results (result "A")
