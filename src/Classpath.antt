-- ===== src/Classpath.antt =====
-- src/classpath.rs: which artifact each class comes from. The warning on a duplicate is left out, and the
-- missing classes, which the source collects and does not use.
pub mod Names
pub mod Smallest
pub mod Resolved
use inspequte.Base.{
  ℕ, zero, suc, Bool, true, false, Option, none, some, List, [], ◌∷◌, ◌++◌, map, length, ltb,
  get_elem?, Ordering, if◌then◌else◌, ◌||◌,
}
use inspequte.Base.Int.{ℤ, pos, negsuc}
use inspequte.Base.Result.{Result, ok, err, panic, ◌>>=◌, duplicate_classes}
use inspequte.Base.Text.{equal_text, no_text}
use inspequte.Baseline.{sort}
use inspequte.Ir.{Class}
use Prim.Native.String.{String, compare}

-- `BTreeMap<String, _>`
module _ {ℓ} {V : Type ℓ} where
  unfoldable pub get_text : String → List (String × V) → Option V
  get_text k [] = none
  get_text k ((j, v) ∷ m) = let later = get_text k m in if equal_text k j then some v else later

  unfoldable pub insert_text : String → V → List (String × V) → List (String × V)
  insert_text k v [] = (k, v) ∷ []
  insert_text k v ((j, w) ∷ m) =
      let later = insert_text k v m in
      elim (compare k j) [
        | Ordering.lt ↦ (k, v) ∷ (j, w) ∷ m
        | Ordering.eq ↦ (k, v) ∷ m
        | Ordering.gt ↦ (j, w) ∷ later
      ]

-- `or_default`
abbrev pub indices_at : Option (List ℤ) → List ℤ
indices_at none = []
indices_at (some indices) = indices

unfoldable pub class_map : List Class → List (String × List ℤ) → List (String × List ℤ)
unfolding get_text insert_text
class_map [] m = m
class_map (class ∷ classes) m =
    class_map classes
      (insert_text class.name (indices_at (get_text class.name m) ++ class.artifact_index ∷ []) m)

-- what the source reads of the crate serde_sarif's artifacts: the location's URI
abbrev pub uri_at : Option (Option (Option String)) → String
uri_at (some (some (some uri))) = uri
uri_at _ = no_text

-- an index that is negative lies beyond any list once it is a `usize`
unfoldable pub artifact_uri : List (Option (Option String)) → ℤ → String
artifact_uri artifacts (pos index) = uri_at (get_elem? artifacts index)
artifact_uri artifacts (negsuc index) = no_text

-- the comparison of the URIs, and `sort_by` with it
abbrev pub compare_uris : List (Option (Option String)) → ℤ → ℤ → Ordering
compare_uris artifacts a b = compare (artifact_uri artifacts a) (artifact_uri artifacts b)

unfoldable pub sort_by_uri : List (Option (Option String)) → List ℤ → List ℤ
unfolding sort
sort_by_uri artifacts = sort (compare_uris artifacts)

-- a list of two or more
abbrev pub is_duplicate : List ℤ → Bool
is_duplicate indices = ltb 1 (length indices)

-- the loop over the class map
unfoldable pub any_duplicate : List (String × List ℤ) → Bool
any_duplicate [] = false
any_duplicate ((name, indices) ∷ m) = let later = any_duplicate m in is_duplicate indices || later

unfoldable pub order_indices :
    List (Option (Option String)) → List (String × List ℤ) → List (String × List ℤ)
unfolding sort_by_uri
order_indices artifacts [] = []
order_indices artifacts ((name, indices) ∷ m) =
    (name, (if is_duplicate indices then sort_by_uri artifacts indices else indices))
    ∷ order_indices artifacts m

-- the first index of each class, which `expect` panics without
abbrev pub first_index : List ℤ → Result ℤ
first_index [] = panic
first_index (index ∷ indices) = ok index

unfoldable pub first_indices : List (String × List ℤ) → Result (List (String × ℤ))
first_indices [] = ok []
first_indices ((name, indices) ∷ m) = do
  index ← first_index indices
  rest ← first_indices m
  ok ((name, index) ∷ rest)

unfoldable pub resolve_classpath :
    List Class → List (Option (Option String)) → Bool → Result (List (String × ℤ))
unfolding class_map order_indices any_duplicate first_indices
resolve_classpath classes artifacts true =
    first_indices (order_indices artifacts (class_map classes []))
resolve_classpath classes artifacts false =
    if any_duplicate (class_map classes [])
    then err duplicate_classes
    else first_indices (class_map classes [])
