-- ===== src/Engine/Partition.antt =====
-- src/engine.rs: what the partition of the classes is.
use inspequte.Base.{
  ℕ, zero, suc, ◌+◌, ◌<◌, ◌≡◌, ◌↔◌, refl, ◌∙◌, subst, Bool, true, false, Option, none, some, List,
  [], ◌∷◌, All, Bool-cases, inl, inr, arith, if◌then◌else◌,
}
use inspequte.Base.Int.{ℤ}
use inspequte.Ir.{Class}
use inspequte.Engine.{
  ArtifactSet, chase, is_analysis_target_artifact, push_class, split_classes, partition_classes,
}

-- An artifact is a target, or its parent is under a target.
pub data Under (targets : ArtifactSet) (parents : ℤ → Option ℤ) : ℤ → Type 0 where
  target : {i : ℤ} → targets.contains i ≡ true → Under targets parents i
  parent : {i j : ℤ} → parents i ≡ some j → Under targets parents j → Under targets parents i

-- The list is put together from the two others, in order.
pub data Merges {ℓ} {A : Type ℓ} : List A → List A → List A → Type ℓ where
  done : Merges [] [] []
  left : {x : A} {xs ys zs : List A} → Merges xs ys zs → Merges (x ∷ xs) (x ∷ ys) zs
  right : {x : A} {xs ys zs : List A} → Merges xs ys zs → Merges (x ∷ xs) ys (x ∷ zs)

if-false {ℓ} : {A : Type ℓ} (b : Bool) (x y : A) → b ≡ false → (if b then x else y) ≡ y
if-false true x y h = cc
if-false false x y h = refl

module _ (targets : ArtifactSet) (parents : ℤ → Option ℤ) (depth : ℤ → ℕ)
    (above : (i j : ℤ) → parents i ≡ some j → depth j < depth i) where
  abbrev Is : ℤ → Type 0
  Is = Under targets parents

  Under-cases : (i : ℤ) → targets.contains i ≡ false → Is i → (j : ℤ) × (parents i ≡ some j) × Is j
  Under-cases i out (Under.target h) = cc
  Under-cases i out (Under.parent {j = j} e u) = (j, e, u)

  abbrev Answers : ℤ → Option Bool → Type 0
  Answers i o = (b : Bool) × (o ≡ some b) × ((b ≡ true) ↔ Is i)

  parent-Answers :
      (fuel : ℕ) (i : ℤ) (o : Option ℤ)
      → 0 < fuel
      → targets.contains i ≡ false
      → parents i ≡ o
      → ((j : ℤ) → parents i ≡ some j → Answers j (chase fuel targets parents (some j)))
      → Answers i (chase fuel targets parents o)
  unfolding chase
  parent-Answers zero i o positive out e ih = absurd (omega arith)
  parent-Answers (suc fuel) i none positive out e ih =
      (false, refl, ((λ h. cc), λ u. let (j, e', _) = Under-cases i out u in absurd (cc (e, e'))))
  parent-Answers (suc fuel) i (some j) positive out e ih =
      let (b, found, same) = ih j e in
      (
        b,
        found,
        (
          (λ h. Under.parent e (same.0 h)),
          λ u.
              let (k, e', v) = Under-cases i out u in
              let eq : k ≡ j = cc (e, e') in same.1 (subst Is eq v),
        ),
      )

  chase-Answers :
      (fuel : ℕ) (i : ℤ) → depth i + 1 < fuel → Answers i (chase fuel targets parents (some i))
  unfolding chase
  chase-Answers zero i h = absurd (omega arith)
  chase-Answers (suc fuel) i h = elim (Bool-cases (targets.contains i)) [
    | inl here ↦ rw here (true, refl, ((λ _. Under.target here), λ _. refl))
    | inr out ↦ rw out (
        parent-Answers fuel i (parents i) (omega arith) out refl
          λ j e. chase-Answers fuel j (omega (arith, above i j e)))
  ]

  -- The classes split into those under a target and the others, in their order.
  pub record IsSplit (classes : List Class) (split : List Class × List Class) : Type 0 where
    pub merges : Merges classes split.0 split.1
    pub analyzed : All (λ (c : Class). Is c.artifact_index) split.0
    pub looked_up : All (λ (c : Class). ¬ Is c.artifact_index) split.1

  push-IsSplit :
      (c : Class) (b : Bool) (classes : List Class) (split : List Class × List Class)
      → ((b ≡ true) ↔ Is c.artifact_index)
      → IsSplit classes split
      → IsSplit (c ∷ classes) (push_class c b split)
  push-IsSplit c true classes (ts, ds) same s = record {
    merges = Merges.left s.merges;
    analyzed = (same.0 refl, s.analyzed);
    looked_up = s.looked_up;
  }
  push-IsSplit c false classes (ts, ds) same s = record {
    merges = Merges.right s.merges;
    analyzed = s.analyzed;
    looked_up = ((λ u. absurd (cc (same.1 u))), s.looked_up);
  }

  split_classes-IsSplit :
      (fuel : ℕ) (classes : List Class)
      → All (λ (c : Class). depth c.artifact_index + 1 < fuel) classes
      → (split : List Class × List Class) × (split_classes fuel targets parents classes
          ≡ some split)
        × IsSplit classes split
  unfolding split_classes is_analysis_target_artifact
  split_classes-IsSplit fuel [] h =
      (([], []), refl, record { merges = Merges.done; analyzed = tt; looked_up = tt })
  split_classes-IsSplit fuel (c ∷ classes) (h, hs) =
      let (b, found, same) = chase-Answers fuel c.artifact_index h in
      let (split, e, s) = split_classes-IsSplit fuel classes hs in
      (push_class c b split, rw (found, e) refl, push-IsSplit c b classes split same s)

  -- With targets given and a parent map without cycles (a depth falls from an artifact to its parent),
  -- `partition_classes` ends within any fuel above the depths, and splits the classes, in their order,
  -- into those whose artifact is a target or lies under one, and the others.
  pub partition_classes-IsSplit :
      (fuel : ℕ) (classes : List Class)
      → targets.is_empty ≡ false
      → All (λ (c : Class). depth c.artifact_index + 1 < fuel) classes
      → (split : List Class × List Class) × (partition_classes fuel targets parents classes
          ≡ some split)
        × IsSplit classes split
  unfolding partition_classes
  partition_classes-IsSplit fuel classes given h =
      let (split, e, s) = split_classes-IsSplit fuel classes h in
      (split, if-false targets.is_empty _ _ given ∙ e, s)
