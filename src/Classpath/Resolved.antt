-- ===== src/Classpath/Resolved.antt =====
-- What `resolve_classpath` of src/classpath.rs returns.
use inspequte.Base.{
  ◌≤◌, ◌≡◌, refl, sym, ap, ◌∙◌, subst, Bool, true, false, ◌||◌, ◌⊎◌, inl, inr, Option, some, List,
  [], ◌∷◌, length, arith, All, Bool-cases, Option-cases, if◌then◌else◌,
}
use inspequte.Base.Int.{ℤ}
use inspequte.Base.Result.{ok, err, duplicate_classes}
use inspequte.Base.Text.{equal_text}
use inspequte.Baseline.Search.{Ordered}
use inspequte.Baseline.Load.{SameMembers}
use inspequte.Classpath.{
  get_text, indices_at, class_map, compare_uris, sort_by_uri, is_duplicate, any_duplicate,
  order_indices, first_indices, resolve_classpath,
}
use inspequte.Ir.{Class}
use Prim.Native.String.{String}
use mathlib.Core.List.{Memᴰ}
use inspequte.Classpath.Smallest.{
  IsSmallest, sort_by_uri-Ordered, sort_by_uri-SameMembers, nonempty, first-IsSmallest,
}
use inspequte.Classpath.Names.{
  indices_of, class_map-indices_of, Memᴰ-indices_of, NonEmpty, class_map-NonEmpty, get_text-Memᴰ,
  class_map-KeysAscending,
}

-- an index that is the first of its list
FirstOf : List (String × List ℤ) → List (String × ℤ) → Type 0
FirstOf m idx =
    (n : String) (v : List ℤ)
    → get_text n m ≡ some v
    → (i : ℤ) × (get_text n idx ≡ some i) × (rest : List ℤ) × (v ≡ i ∷ rest)

first_indices-FirstOf :
    (m : List (String × List ℤ))
    → All (λ (e : String × List ℤ). 1 ≤ length e.1) m
    → (idx : List (String × ℤ)) × (first_indices m ≡ ok idx) × FirstOf m idx
unfolding first_indices get_text FirstOf
first_indices-FirstOf [] h = ([], refl, λ n v e. absurd (cc e))
first_indices-FirstOf ((name, []) ∷ m) (h, hs) = absurd (omega (arith, h))
first_indices-FirstOf ((name, i ∷ is) ∷ m) (h, hs) =
    let (rest, made, f) = first_indices-FirstOf m hs in
    (
      (name, i) ∷ rest,
      rw made refl,
      λ n v e. elim (Bool-cases (equal_text n name)) [
        | inl same ↦ (i, rw same refl, is, sym (some_eq (rw same at e)))
        | inr other ↦ let (j, g, r, k) = f n v (rw other at e) in (j, rw other g, r, k)
      ],
    )
  where
    some_eq : {a b : List ℤ} → some a ≡ some b → a ≡ b
    some_eq e = cc e

-- the indices of a name after the sorting
Sorted : List (Option (Option String)) → List (String × List ℤ) → Type 0
Sorted artifacts m =
    NonEmpty (order_indices artifacts m)
    × ((n : String) (v : List ℤ)
        → get_text n m ≡ some v
        → (w : List ℤ) × (get_text n (order_indices artifacts m) ≡ some w)
          × SameMembers w v
          × Ordered (compare_uris artifacts) w)

some_same : {a b : List ℤ} → some a ≡ some b → a ≡ b
some_same e = cc e

short-Ordered :
    (artifacts : List (Option (Option String))) (is : List ℤ)
    → length is ≤ 1
    → Ordered (compare_uris artifacts) is
short-Ordered artifacts [] h = tt
short-Ordered artifacts (i ∷ []) h = (tt, tt)
short-Ordered artifacts (i ∷ j ∷ is) h = absurd (omega (arith, h))

order_indices-Sorted :
    (artifacts : List (Option (Option String))) (m : List (String × List ℤ))
    → NonEmpty m
    → Sorted artifacts m
unfolding order_indices Sorted get_text
order_indices-Sorted artifacts [] h = (tt, λ n v e. absurd (cc e))
order_indices-Sorted artifacts ((name, is) ∷ m) (h, hs) =
    let (full, found) = order_indices-Sorted artifacts m hs in
    let (members, sorted) = chosen_facts in
    (
      (nonempty artifacts is chosen members h, full),
      λ n v e. elim (Bool-cases (equal_text n name)) [
        | inl same ↦ (
          chosen,
          rw same refl,
          subst (SameMembers chosen) (some_same (rw same at e)) members,
          sorted,
        )
        | inr other ↦ let (w, g, k, o) = found n v (rw other at e) in (w, rw other g, k, o)
      ],
    )
  where
    chosen : List ℤ
    chosen = if is_duplicate is then sort_by_uri artifacts is else is

    chosen_facts : SameMembers chosen is × Ordered (compare_uris artifacts) chosen
    chosen_facts = elim (Bool-cases (is_duplicate is)) [
      | inl e ↦ rw e (sort_by_uri-SameMembers artifacts is, sort_by_uri-Ordered artifacts is)
      | inr e ↦ rw e ((λ z. ((λ k. k), λ k. k)), short-Ordered artifacts is (ground (arith, e)))
    ]

-- the entry of a class in the map
class_map-entry :
    (classes : List Class) (c : Class)
    → Memᴰ c classes
    → (v : List ℤ) × (get_text c.name (class_map classes []) ≡ some v)
      × (v ≡ indices_of c.name classes)
unfolding get_text
class_map-entry classes c h = elim (Option-cases (get_text c.name (class_map classes []))) [
  | inl missing ↦ absurd (
      no_member (
        subst (Memᴰ c.artifact_index)
          (sym (class_map-indices_of c.name classes []) ∙ ap indices_at missing)
          (Memᴰ-indices_of c classes h)))
  | inr found ↦
      (found.0, found.1, sym (ap indices_at (found.1)) ∙ class_map-indices_of c.name classes [])
]
  where
    no_member : Memᴰ c.artifact_index [] → ⊥
    no_member m = elim m [ ]

no_duplicate :
    (m : List (String × List ℤ)) (n : String) (v : List ℤ)
    → any_duplicate m ≡ false
    → get_text n m ≡ some v
    → length v ≤ 1
unfolding any_duplicate get_text
no_duplicate [] n v h e = cc e
no_duplicate ((name, is) ∷ m) n v h e = elim (Bool-cases (equal_text n name)) [
  | inl same ↦ subst (λ (x : List ℤ). length x ≤ 1) (some_eq (rw same at e)) (ground (arith, h))
  | inr other ↦ no_duplicate m n v (later (is_duplicate is) (any_duplicate m) h) (rw other at e)
]
  where
    some_eq : {a b : List ℤ} → some a ≡ some b → a ≡ b
    some_eq e = cc e

    later : (a b : Bool) → (a || b) ≡ false → b ≡ false
    later a b h = ground arith

-- a list of two or more in the map
duplicate_entry :
    (m : List (String × List ℤ))
    → any_duplicate m ≡ true
    → (n : String) × (v : List ℤ) × Memᴰ (n, v) m × (2 ≤ length v)
unfolding any_duplicate
duplicate_entry [] h = cc h
duplicate_entry ((name, is) ∷ m) h = elim (Bool-cases (is_duplicate is)) [
  | inl two ↦ (name, is, Memᴰ.head refl, ground (arith, two))
  | inr single ↦
      let (n, v, k, l) = duplicate_entry m (later (is_duplicate is) (any_duplicate m) single h) in
      (n, v, Memᴰ.tail k, l)
]
  where
    later : (a b : Bool) → a ≡ false → (a || b) ≡ true → b ≡ true
    later a b e h = ground arith

-- the list of a name in the map
class_map-get :
    (classes : List Class) (n : String) (v : List ℤ)
    → get_text n (class_map classes []) ≡ some v
    → v ≡ indices_of n classes
unfolding get_text
class_map-get classes n v e = sym (ap indices_at e) ∙ class_map-indices_of n classes []

-- a name that two or more of the classes have
abbrev pub HasDuplicate : List Class → Type 0
HasDuplicate classes = (n : String) × (2 ≤ length (indices_of n classes))

duplicate-HasDuplicate :
    (classes : List Class) → any_duplicate (class_map classes []) ≡ true → HasDuplicate classes
duplicate-HasDuplicate classes h =
    let (n, v, k, l) = duplicate_entry (class_map classes []) h in
    let found =
      get_text-Memᴰ n v (class_map classes []) (class_map-KeysAscending classes [] tt) k in
    (n, subst (λ (x : List ℤ). 2 ≤ length x) (class_map-get classes n v found) l)

-- a list of at most one index with a given member
only_member : (i j : ℤ) (rest v : List ℤ) → length v ≤ 1 → v ≡ i ∷ rest → Memᴰ j v → i ≡ j
only_member i j rest [] h e k = elim k [ ]
only_member i j rest (x ∷ []) h e (Memᴰ.head f) = cc (e, f)
only_member i j rest (x ∷ []) h e (Memᴰ.tail k) = elim k [ ]
only_member i j rest (x ∷ y ∷ v) h e k = absurd (omega (arith, h))

-- `resolve_classpath` does not panic. When duplicates are allowed it returns an index, which gives each
-- class the artifact with the smallest URI among those of the classes of its name. When they are
-- not, it returns the error for duplicates exactly when two or more of the classes have one name, and
-- else an index that gives each class its own artifact.
pub resolve_classpath-artifacts :
    (classes : List Class) (artifacts : List (Option (Option String)))
    → ((idx : List (String × ℤ)) × (resolve_classpath classes artifacts true ≡ ok idx)
        × ((c : Class)
            → Memᴰ c classes
            → (i : ℤ) × (get_text c.name idx ≡ some i)
              × IsSmallest artifacts i (indices_of c.name classes)))
      × (((resolve_classpath classes artifacts false ≡ err duplicate_classes)
            × HasDuplicate classes)
          ⊎ ((idx : List (String × ℤ)) × (resolve_classpath classes artifacts false ≡ ok idx)
              × (¬ HasDuplicate classes)
              × ((c : Class) → Memᴰ c classes → get_text c.name idx ≡ some c.artifact_index)))
unfolding resolve_classpath FirstOf Sorted
resolve_classpath-artifacts classes artifacts =
    let m = class_map classes [] in
    let full = class_map-NonEmpty classes [] tt in
    let (sorted, ordered) = order_indices-Sorted artifacts m full in
    let (idx, made, firsts) = first_indices-FirstOf (order_indices artifacts m) sorted in
    let (own, made', own_firsts) = first_indices-FirstOf m full in
    (
      (
        idx,
        made,
        λ c h.
            let (v, found, same) = class_map-entry classes c h in
            let (w, kept, members, in_order) = ordered c.name v found in
            let (i, g, rest, e) = firsts c.name w kept in
            (
              i,
              g,
              subst (IsSmallest artifacts i) same (
                  first-IsSmallest artifacts i rest v
                    (subst (Ordered (compare_uris artifacts)) e in_order)
                    (subst (λ x. SameMembers x v) e members)),
            ),
      ),
      elim (Bool-cases (any_duplicate m)) [
        | inl repeated ↦ inl (rw repeated refl, duplicate-HasDuplicate classes repeated)
        | inr single ↦ inr (
          own,
          rw single made',
          (λ d. no_name_twice single d),
          λ c h.
              let (v, found, same) = class_map-entry classes c h in
              let (i, g, rest, e) = own_firsts c.name v found in
              g
              ∙ ap some (
                  only_member i c.artifact_index rest v (no_duplicate m c.name v single found) e
                    (subst (Memᴰ c.artifact_index) (sym same) (Memᴰ-indices_of c classes h))),
        )
      ],
    )
  where
    no_name_twice : any_duplicate (class_map classes []) ≡ false → HasDuplicate classes → ⊥
    no_name_twice single (n, two) = elim (Option-cases (get_text n (class_map classes []))) [
      | inl missing ↦
          let none_left : [] ≡ indices_of n classes =
            sym (ap indices_at missing) ∙ class_map-indices_of n classes [] in
          absurd (omega (arith, two, ap length none_left))
      | inr (v, found) ↦ absurd (
          omega (
            arith,
            two,
            no_duplicate (class_map classes []) n v single found,
            ap length (class_map-get classes n v found),
          ))
    ]
