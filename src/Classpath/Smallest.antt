-- ===== src/Classpath/Smallest.antt =====
-- The sort by URI in `resolve_classpath` of src/classpath.rs puts the smallest URI first.
use inspequte.Base.{◌≤◌, ◌≡◌, refl, sym, subst, Option, List, [], ◌∷◌, length, arith, All, Ordering}
use inspequte.Base.Int.{ℤ}
use inspequte.Base.Orders.{Follows, compare_text-Follows, AtMost}
use inspequte.Baseline.Search.{Ordered}
use inspequte.Baseline.Sorted.{sort-Ordered}
use inspequte.Baseline.Load.{SameMembers, sort-SameMembers}
use inspequte.Classpath.{artifact_uri, compare_uris, sort_by_uri}
use Prim.Native.String.{String, compare}
use text.Mathlib.TextPositions.{compare_refl}
use mathlib.Core.List.{Memᴰ}

-- an index whose artifact has the smallest URI of the list
abbrev pub IsSmallest : List (Option (Option String)) → ℤ → List ℤ → Type 0
IsSmallest artifacts i v =
    Memᴰ i v
    × ((j : ℤ) → Memᴰ j v → AtMost (compare (artifact_uri artifacts i) (artifact_uri artifacts j)))

module _ (artifacts : List (Option (Option String))) where
  self_equal : (i : ℤ) → compare_uris artifacts i i ≡ Ordering.eq
  self_equal i = compare_refl (artifact_uri artifacts i)

  uris-Follows :
      (a b c : ℤ)
      → Follows
          (compare_uris artifacts a b)
          (compare_uris artifacts b c)
          (compare_uris artifacts a c)
  uris-Follows a b c =
      compare_text-Follows (artifact_uri artifacts a) (artifact_uri artifacts b)
        (artifact_uri artifacts c)

  pub sort_by_uri-Ordered :
      (xs : List ℤ) → Ordered (compare_uris artifacts) (sort_by_uri artifacts xs)
  unfolding sort_by_uri
  sort_by_uri-Ordered = sort-Ordered (compare_uris artifacts) self_equal uris-Follows

  pub sort_by_uri-SameMembers : (xs : List ℤ) → SameMembers (sort_by_uri artifacts xs) xs
  unfolding sort_by_uri
  sort_by_uri-SameMembers = sort-SameMembers (compare_uris artifacts)

  -- a list with the members of one that is not empty is not empty
  pub nonempty : (xs ys : List ℤ) → SameMembers ys xs → 1 ≤ length xs → 1 ≤ length ys
  nonempty [] ys s h = absurd (omega (arith, h))
  nonempty (x ∷ xs) [] s h = elim ((s x).1 (Memᴰ.head refl)) [ ]
  nonempty (x ∷ xs) (y ∷ ys) s h = omega arith

  -- the first of an ordered list is the smallest
  pub first-IsSmallest :
      (i : ℤ) (rest v : List ℤ)
      → Ordered (compare_uris artifacts) (i ∷ rest)
      → SameMembers (i ∷ rest) v
      → IsSmallest artifacts i v
  first-IsSmallest i rest v (h, hs) s = ((s i).0 (Memᴰ.head refl), λ j m. smallest j ((s j).1 m))
    where
      later :
          (j : ℤ) (ys : List ℤ)
          → All (λ y. AtMost (compare_uris artifacts i y)) ys
          → Memᴰ j ys
          → AtMost (compare_uris artifacts i j)
      later j [] h m = elim m [ ]
      later j (y ∷ ys) h (Memᴰ.head e) =
          subst (λ x. AtMost (compare_uris artifacts i x)) (sym e) h.0
      later j (y ∷ ys) h (Memᴰ.tail m) = later j ys h.1 m

      smallest : (j : ℤ) → Memᴰ j (i ∷ rest) → AtMost (compare_uris artifacts i j)
      smallest j (Memᴰ.head e) =
          subst (λ x. AtMost (compare_uris artifacts i x)) (sym e)
            (subst AtMost (sym (self_equal i)) tt)
      smallest j (Memᴰ.tail m) = later j rest h m
