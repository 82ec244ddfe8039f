-- ===== src/Baseline.antt =====
-- src/baseline.rs: the baseline of known findings, and the filter by it. Reading and writing the file
-- belong to the standard library and the crate serde_json.
pub mod Order
pub mod Search
pub mod Sorted
pub mod Filter
pub mod Load
use inspequte.Base.{
  ℕ, zero, suc, ◌-◌, ◌/◌, length, take, drop, get_elem?, ltb, Bool, true, false, not, ◌||◌, Option,
  none, some, List, [], ◌∷◌, map, Ordering, if◌then◌else◌,
}
use inspequte.Base.Orders.{chain}
use inspequte.Base.Int.{ℤ, pos, negsuc}
use inspequte.Base.Text.{no_text}
use Prim.Native.Nat.{compare}
use Prim.Native.String.{String, compare as compare_text}

-- what the source reads of the crate serde_sarif's results and locations
pub record PhysicalLocation : Type 0 where
  pub artifact_uri : Option (Option String)
  pub region_start_line : Option (Option ℤ)

pub record Location : Type 0 where
  pub logical_names : Option (List (Option String))
  pub physical_location : Option PhysicalLocation

pub record SarifResult : Type 0 where
  pub rule_id : Option String
  pub message_text : Option String
  pub locations : Option (List Location)

pub record BaselineLocation : Type 0 where
  pub logical : Option String
  pub uri : Option String
  pub start_line : Option ℤ

pub record BaselineEntry : Type 0 where
  pub rule_id : String
  pub message : String
  pub locations : List BaselineLocation

pub record Baseline : Type 0 where
  pub version : ℕ
  pub findings : List BaselineEntry

-- the derived orders, field by field
abbrev pub compare_int : ℤ → ℤ → Ordering
compare_int (pos m) (pos n) = compare m n
compare_int (pos m) (negsuc n) = Ordering.gt
compare_int (negsuc m) (pos n) = Ordering.lt
compare_int (negsuc m) (negsuc n) = compare n m

module _ {ℓ} {A : Type ℓ} (cmp : A → A → Ordering) where
  abbrev pub compare_option : Option A → Option A → Ordering
  compare_option none none = Ordering.eq
  compare_option none (some b) = Ordering.lt
  compare_option (some a) none = Ordering.gt
  compare_option (some a) (some b) = cmp a b

  abbrev pub compare_list : List A → List A → Ordering
  compare_list [] [] = Ordering.eq
  compare_list [] (b ∷ others) = Ordering.lt
  compare_list (a ∷ rest) [] = Ordering.gt
  compare_list (a ∷ rest) (b ∷ others) = chain (cmp a b) (compare_list rest others)

  -- `BTreeSet::insert`
  unfoldable pub set_insert : A → List A → List A
  set_insert x [] = x ∷ []
  set_insert x (y ∷ ys) =
      let later = set_insert x ys in
      elim (cmp x y) [ Ordering.lt ↦ x ∷ y ∷ ys | Ordering.eq ↦ y ∷ ys | Ordering.gt ↦ y ∷ later ]

  -- `sort`, by insertion
  unfoldable pub sort_insert : A → List A → List A
  sort_insert x [] = x ∷ []
  sort_insert x (y ∷ ys) =
      let later = sort_insert x ys in
      elim (cmp x y) [
        | Ordering.lt ↦ x ∷ y ∷ ys
        | Ordering.eq ↦ x ∷ y ∷ ys
        | Ordering.gt ↦ y ∷ later
      ]

  unfoldable pub sort : List A → List A
  unfolding sort_insert
  sort [] = []
  sort (x ∷ xs) = sort_insert x (sort xs)

  -- `dedup`
  unfoldable pub dedup : List A → List A
  dedup [] = []
  dedup (x ∷ []) = x ∷ []
  dedup (x ∷ y ∷ ys) =
      let rest = dedup (y ∷ ys) in
      elim (cmp x y) [ Ordering.eq ↦ rest | Ordering.lt ↦ x ∷ rest | Ordering.gt ↦ x ∷ rest ]

  -- one round of `binary_search` on the rest of the slice: the answer at its middle says which part is
  -- searched next, and the middle stays in both
  abbrev pub narrowed : Ordering → ℕ → List A → List A
  narrowed Ordering.gt half rest = drop half rest
  narrowed Ordering.eq half rest = drop half rest
  narrowed Ordering.lt half rest = take (length rest - half) rest

  abbrev pub at_middle : A → ℕ → List A → Option A → List A
  at_middle x half rest none = rest
  at_middle x half rest (some middle) = narrowed (cmp x middle) half rest

  -- the last comparison, on the one element that is left
  abbrev pub is_same : A → List A → Bool
  is_same x [] = false
  is_same x (y ∷ ys) = elim (cmp x y) [
    | Ordering.lt ↦ false
    | Ordering.eq ↦ true
    | Ordering.gt ↦ false
  ]

  -- the rounds, while more than one element is left
  unfoldable pub search : ℕ → A → List A → Bool
  search zero x rest = is_same x rest
  search (suc rounds) x rest =
      let half = length rest / 2 in
      if ltb 1 (length rest)
      then search rounds x (at_middle x half rest (get_elem? rest half))
      else is_same x rest

  -- `binary_search(&x).is_ok()`
  unfoldable pub is_found : A → List A → Bool
  unfolding search
  is_found x ys = search (length ys) x ys

abbrev pub compare_location : BaselineLocation → BaselineLocation → Ordering
compare_location a b = chain (compare_option compare_text a.logical b.logical) (
    chain (compare_option compare_text a.uri b.uri)
      (compare_option compare_int a.start_line b.start_line))

abbrev pub compare_entry : BaselineEntry → BaselineEntry → Ordering
compare_entry a b = chain (compare_text a.rule_id b.rule_id) (
    chain (compare_text a.message b.message)
      (compare_list compare_location a.locations b.locations))

-- `and_then` and `first`
abbrev pub flatten {ℓ} : {A : Type ℓ} → Option (Option A) → Option A
flatten none = none
flatten (some o) = o

abbrev pub first_name : Option (List (Option String)) → Option String
first_name none = none
first_name (some []) = none
first_name (some (name ∷ names)) = name

abbrev pub uri_of : Option PhysicalLocation → Option String
uri_of none = none
uri_of (some physical) = flatten physical.artifact_uri

abbrev pub line_of : Option PhysicalLocation → Option ℤ
line_of none = none
line_of (some physical) = flatten physical.region_start_line

unfoldable pub location_from : Location → BaselineLocation
location_from location = record {
  logical = first_name location.logical_names;
  uri = uri_of location.physical_location;
  start_line = line_of location.physical_location;
}

-- `unwrap_or_default`
abbrev pub or_empty : Option String → String
or_empty none = no_text
or_empty (some text) = text

abbrev pub locations_from : Option (List Location) → List BaselineLocation
locations_from none = []
locations_from (some locations) = map location_from locations

unfoldable pub entry_from : SarifResult → BaselineEntry
unfolding location_from sort
entry_from result = record {
  rule_id = or_empty result.rule_id;
  message = or_empty result.message_text;
  locations = sort compare_location (locations_from result.locations);
}

unfoldable pub capture_all : List SarifResult → List BaselineEntry → List BaselineEntry
unfolding entry_from set_insert
capture_all [] findings = findings
capture_all (result ∷ results) findings =
    capture_all results (set_insert compare_entry (entry_from result) findings)

-- `Baseline::capture`
unfoldable pub capture : List SarifResult → Baseline
unfolding capture_all
capture results = record { version = 1; findings = capture_all results [] }

-- `Baseline::filter`
unfoldable pub filter : Baseline → List SarifResult → List SarifResult
unfolding is_found entry_from
filter baseline [] = []
filter baseline (result ∷ results) =
    let rest = filter baseline results in
    if is_found compare_entry (entry_from result) baseline.findings then rest else result ∷ rest

-- `load_baseline` on the baseline that the file holds
unfoldable pub load_baseline : Baseline → Baseline
unfolding sort dedup
load_baseline baseline = record baseline {
  findings = dedup compare_entry (sort compare_entry baseline.findings);
}
