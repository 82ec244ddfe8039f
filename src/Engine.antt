-- ===== src/Engine.antt =====
-- src/engine.rs: which classes are analyzed and which only looked up. The set of target artifacts is
-- its membership test, and the map from an artifact to its parent a function.
pub mod Partition
use inspequte.Base.{
  ℕ, zero, suc, Bool, true, false, Option, none, some, List, [], ◌∷◌, if◌then◌else◌,
}
use inspequte.Base.Int.{ℤ}
use inspequte.Ir.{Class}

pub record ArtifactSet : Type 0 where
  pub contains : ℤ → Bool
  pub is_empty : Bool

-- `while let Some(index) = current`, on fuel: `none` when it runs out
unfoldable pub chase : ℕ → ArtifactSet → (ℤ → Option ℤ) → Option ℤ → Option Bool
chase zero targets parents current = none
chase (suc fuel) targets parents none = some false
chase (suc fuel) targets parents (some index) =
    let rest = chase fuel targets parents (parents index) in
    if targets.contains index then some true else rest

unfoldable pub is_analysis_target_artifact : ℕ → ArtifactSet → (ℤ → Option ℤ) → ℤ → Option Bool
unfolding chase
is_analysis_target_artifact fuel targets parents artifact_index =
    chase fuel targets parents (some artifact_index)

-- the class goes to the front of one of the two lists
abbrev pub push_class : Class → Bool → List Class × List Class → List Class × List Class
push_class c true (targets, dependencies) = (c ∷ targets, dependencies)
push_class c false (targets, dependencies) = (targets, c ∷ dependencies)

abbrev pub push_tested :
    Class → Option Bool → Option (List Class × List Class) → Option (List Class × List Class)
push_tested c (some b) (some rest) = some (push_class c b rest)
push_tested c _ _ = none

-- the loop over the classes, which keeps their order in both vectors
unfoldable pub split_classes :
    ℕ → ArtifactSet → (ℤ → Option ℤ) → List Class → Option (List Class × List Class)
unfolding is_analysis_target_artifact
split_classes fuel targets parents [] = some ([], [])
split_classes fuel targets parents (c ∷ classes) =
    push_tested c (is_analysis_target_artifact fuel targets parents c.artifact_index)
      (split_classes fuel targets parents classes)

unfoldable pub partition_classes :
    ℕ → ArtifactSet → (ℤ → Option ℤ) → List Class → Option (List Class × List Class)
unfolding split_classes
partition_classes fuel targets parents classes =
    let split = split_classes fuel targets parents classes in
    if targets.is_empty then some (classes, []) else split
