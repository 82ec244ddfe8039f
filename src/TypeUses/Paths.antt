-- ===== src/TypeUses/Paths.antt =====
-- What the annotations and the default change, position by position.
use inspequte.Base.{
  ℕ, zero, suc, ◌≡◌, refl, ap, ◌∙◌, Bool, true, false, ◌&&◌, Option, none, some, List, [], ◌∷◌, map,
  ◌==◌, ==→eq, arith, subst, if◌then◌else◌, Bool-cases, inl, inr,
}
use inspequte.Ir.{
  Nullness, unknown, nullable, non_null, TypeUse, type_use, TypeUseKind, array, class, wildcard,
  base, type_var, void, class_type_use, MaybeTypeUse, absent, present, TypeUses, nil, cons,
}
use inspequte.TypeUses.{
  apply_nullness, Step, component, inner, bound, no_step, argument, TypePathEntry, step_of,
  in_present, in_argument, change_at, annotate, apply_type_use_annotation, default_of,
  apply_default_nullness, default_kind, default_maybe, default_arguments,
}
use mathlib.Core.Option as Options

module _ {ℓ} {B : Type ℓ} where
  abbrev look_present : (TypeUse → Option B) → MaybeTypeUse → Option B
  look_present g absent = none
  look_present g (present t) = g t

  abbrev look_argument : (TypeUse → Option B) → ℕ → TypeUses → Option B
  look_argument g i nil = none
  look_argument g zero (cons t args) = g t
  look_argument g (suc i) (cons t args) = look_argument g i args

  -- the part that a step leads to
  abbrev look : Step → (TypeUse → Option B) → TypeUseKind → Option B
  look component g (array t) = g t
  look inner g (class (class_type_use name args i)) = look_present g i
  look bound g (wildcard b) = look_present g b
  look (argument i) g (class (class_type_use name args inside)) = look_argument g i args
  look _ g kind = none

  -- a reading of the part at the end of a path, where there is one
  abbrev pub at_path : (TypeUse → B) → List Step → TypeUse → Option B
  at_path f [] t = some (f t)
  at_path f (step ∷ path) (type_use n kind) = look step (at_path f path) kind

abbrev pub nullness_of : TypeUse → Nullness
nullness_of (type_use n kind) = n

abbrev same_step : Step → Step → Bool
same_step component component = true
same_step inner inner = true
same_step bound bound = true
same_step (argument i) (argument j) = i == j
same_step no_step no_step = true
same_step _ _ = false

-- the paths lead to the same part
abbrev pub same_path : List Step → List Step → Bool
same_path [] [] = true
same_path (s ∷ p) (t ∷ q) = same_step s t && same_path p q
same_path _ _ = false

module _ {ℓ} {B : Type ℓ} where
  -- readings that agree on all types agree behind a step
  look_argument_cong :
      (g h : TypeUse → Option B)
      → ((t : TypeUse) → g t ≡ h t)
      → (i : ℕ) (args : TypeUses) → look_argument g i args ≡ look_argument h i args
  look_argument_cong g h e i nil = refl
  look_argument_cong g h e zero (cons t args) = e t
  look_argument_cong g h e (suc i) (cons t args) = look_argument_cong g h e i args

  look_present_cong :
      (g h : TypeUse → Option B)
      → ((t : TypeUse) → g t ≡ h t)
      → (m : MaybeTypeUse) → look_present g m ≡ look_present h m
  look_present_cong g h e absent = refl
  look_present_cong g h e (present t) = e t

  look_cong :
      (g h : TypeUse → Option B)
      → ((t : TypeUse) → g t ≡ h t)
      → (s : Step) (kind : TypeUseKind) → look s g kind ≡ look s h kind
  look_cong g h e component (array t) = e t
  look_cong g h e inner (class (class_type_use name args i)) = look_present_cong g h e i
  look_cong g h e bound (wildcard b) = look_present_cong g h e b
  look_cong g h e (argument i) (class (class_type_use name args inside)) =
      look_argument_cong g h e i args
  look_cong g h e _ _ = refl

  look_argument_same :
      (g : TypeUse → Option B) (f : TypeUse → TypeUse) (i : ℕ) (args : TypeUses)
      → look_argument g i (in_argument f i args) ≡ look_argument (λ t. g (f t)) i args
  look_argument_same g f i nil = refl
  look_argument_same g f zero (cons t args) = refl
  look_argument_same g f (suc i) (cons t args) = look_argument_same g f i args

  look_argument_other :
      (g : TypeUse → Option B) (f : TypeUse → TypeUse) (i j : ℕ) (args : TypeUses)
      → (i == j) ≡ false
      → look_argument g j (in_argument f i args) ≡ look_argument g j args
  look_argument_other g f i j nil h = refl
  look_argument_other g f zero zero (cons t args) h = ground arith
  look_argument_other g f zero (suc j) (cons t args) h = refl
  look_argument_other g f (suc i) zero (cons t args) h = refl
  look_argument_other g f (suc i) (suc j) (cons t args) h =
      look_argument_other g f i j args (ground arith)

  look_present_same :
      (g : TypeUse → Option B) (f : TypeUse → TypeUse) (m : MaybeTypeUse)
      → look_present g (in_present f m) ≡ look_present (λ t. g (f t)) m
  look_present_same g f absent = refl
  look_present_same g f (present t) = refl

  -- a change behind a step, read behind the same step
  look-change_at_same :
      (g : TypeUse → Option B) (f : TypeUse → TypeUse) (s : Step) (kind : TypeUseKind)
      → look s g (change_at s f kind) ≡ look s (λ t. g (f t)) kind
  unfolding change_at
  look-change_at_same g f component (array t) = refl
  look-change_at_same g f inner (class (class_type_use name args i)) = look_present_same g f i
  look-change_at_same g f bound (wildcard b) = look_present_same g f b
  look-change_at_same g f (argument i) (class (class_type_use name args inside)) =
      look_argument_same g f i args
  look-change_at_same g f _ _ = refl

  -- and behind another one
  look-change_at_other :
      (g : TypeUse → Option B) (f : TypeUse → TypeUse) (s r : Step) (kind : TypeUseKind)
      → same_step s r ≡ false
      → look r g (change_at s f kind) ≡ look r g kind
  unfolding change_at
  look-change_at_other g f component component (array t) h = cc h
  look-change_at_other g f component r (array t) h = refl
  look-change_at_other g f component r _ h = refl
  look-change_at_other g f inner inner (class (class_type_use name args i)) h = cc h
  look-change_at_other g f inner r (class (class_type_use name args i)) h = refl
  look-change_at_other g f inner r _ h = refl
  look-change_at_other g f bound bound (wildcard b) h = cc h
  look-change_at_other g f bound r (wildcard b) h = refl
  look-change_at_other g f bound r _ h = refl
  look-change_at_other g f (argument i) (argument j) (class (class_type_use name args inside)) h =
      look_argument_other g f i j args h
  look-change_at_other g f (argument i) r (class (class_type_use name args inside)) h = refl
  look-change_at_other g f (argument i) r _ h = refl
  look-change_at_other g f no_step r _ h = refl

look_argument-map {ℓ κ} :
    {B : Type ℓ} {C : Type κ} (f : B → C) (g : TypeUse → Option B) (i : ℕ) (args : TypeUses)
    → look_argument (λ t. Options.map f (g t)) i args ≡ Options.map f (look_argument g i args)
look_argument-map f g i nil = refl
look_argument-map f g zero (cons t args) = refl
look_argument-map f g (suc i) (cons t args) = look_argument-map f g i args

look_present-map {ℓ κ} :
    {B : Type ℓ} {C : Type κ} (f : B → C) (g : TypeUse → Option B) (m : MaybeTypeUse)
    → look_present (λ t. Options.map f (g t)) m ≡ Options.map f (look_present g m)
look_present-map f g absent = refl
look_present-map f g (present t) = refl

look-map {ℓ κ} :
    {B : Type ℓ} {C : Type κ} (f : B → C) (g : TypeUse → Option B) (s : Step) (kind : TypeUseKind)
    → look s (λ t. Options.map f (g t)) kind ≡ Options.map f (look s g kind)
look-map f g component (array t) = refl
look-map f g inner (class (class_type_use name args i)) = look_present-map f g i
look-map f g bound (wildcard b) = look_present-map f g b
look-map f g (argument i) (class (class_type_use name args inside)) = look_argument-map f g i args
look-map f g _ _ = refl

-- the nullness at a path after an annotation
abbrev pub expected : Bool → Nullness → Option Nullness → Option Nullness
expected same value n = if same then Options.map (λ target. apply_nullness target value) n else n

look-expected :
    (b : Bool) (value : Nullness) (g : TypeUse → Option Nullness) (s : Step) (kind : TypeUseKind)
    → look s (λ t. expected b value (g t)) kind ≡ expected b value (look s g kind)
look-expected true value g s kind = look-map (λ target. apply_nullness target value) g s kind
look-expected false value g s kind = refl

same_step_eq : (s r : Step) → same_step s r ≡ true → s ≡ r
same_step_eq component component h = refl
same_step_eq inner inner h = refl
same_step_eq bound bound h = refl
same_step_eq no_step no_step h = refl
same_step_eq (argument i) (argument j) h = ap argument (==→eq i j h)
same_step_eq _ _ h = cc h

annotate_lem :
    (p q : List Step) (value : Nullness) (t : TypeUse)
    → at_path nullness_of q (annotate p value t)
      ≡ expected (same_path p q) value (at_path nullness_of q t)
unfolding annotate
annotate_lem [] [] value (type_use n kind) = refl
annotate_lem [] (r ∷ q) value (type_use n kind) = refl
annotate_lem (s ∷ p) [] value (type_use n kind) = refl
annotate_lem (s ∷ p) (r ∷ q) value (type_use n kind) =
    let reading = at_path nullness_of q in
    elim (Bool-cases (same_step s r)) [
      | inr e ↦ rw e (look-change_at_other reading (annotate p value) s r kind e)
      | inl e ↦ rw e (
          subst
            (λ x.
              look x reading (change_at s (annotate p value) kind)
              ≡ expected (same_path p q) value (look x reading kind))
            (same_step_eq s r e)
            (look-change_at_same reading (annotate p value) s kind
              ∙ look_cong _ _ (λ t. annotate_lem p q value t) s kind
              ∙ look-expected (same_path p q) value reading s kind))
    ]

-- After an annotation the nullness at its path, where the type has that path, is the old one combined
-- with the value, and the nullness at any other path is the old one; no path is gained or lost.
pub apply_type_use_annotation_lem :
    (p : List TypePathEntry) (q : List Step) (value : Nullness) (t : TypeUse)
    → at_path nullness_of q (apply_type_use_annotation p value t)
      ≡ expected (same_path (map step_of p) q) value (at_path nullness_of q t)
unfolding apply_type_use_annotation
apply_type_use_annotation_lem p q value t = annotate_lem (map step_of p) q value t

-- the default
look_argument_default :
    (g : TypeUse → Option Nullness) (i : ℕ) (args : TypeUses)
    → look_argument g i (default_arguments args)
      ≡ look_argument (λ t. g (apply_default_nullness t)) i args
unfolding apply_default_nullness
look_argument_default g i nil = refl
look_argument_default g zero (cons t args) = refl
look_argument_default g (suc i) (cons t args) = look_argument_default g i args

look_present_default :
    (g : TypeUse → Option Nullness) (m : MaybeTypeUse)
    → look_present g (default_maybe m) ≡ look_present (λ t. g (apply_default_nullness t)) m
unfolding apply_default_nullness
look_present_default g absent = refl
look_present_default g (present t) = refl

look-default_kind :
    (g : TypeUse → Option Nullness) (s : Step) (kind : TypeUseKind)
    → look s g (default_kind kind) ≡ look s (λ t. g (apply_default_nullness t)) kind
unfolding apply_default_nullness
look-default_kind g component (array t) = refl
look-default_kind g component _ = refl
look-default_kind g inner (class (class_type_use name args i)) = look_present_default g i
look-default_kind g inner _ = refl
look-default_kind g bound (wildcard b) = look_present_default g b
look-default_kind g bound _ = refl
look-default_kind g (argument i) (class (class_type_use name args inside)) =
    look_argument_default g i args
look-default_kind g (argument i) _ = refl
look-default_kind g no_step _ = refl

-- The default of a part: a class, an array, a type variable or a wildcard without a nullness is
-- non-null, and every other nullness is what it was.
abbrev pub defaulted : TypeUse → Nullness
defaulted (type_use unknown (array t)) = non_null
defaulted (type_use unknown (class c)) = non_null
defaulted (type_use unknown (type_var name)) = non_null
defaulted (type_use unknown (wildcard b)) = non_null
defaulted (type_use unknown (base b)) = unknown
defaulted (type_use unknown void) = unknown
defaulted (type_use nullable kind) = nullable
defaulted (type_use non_null kind) = non_null

default_of_lem : (t : TypeUse) → default_of t ≡ defaulted t
default_of_lem (type_use unknown (array t)) = refl
default_of_lem (type_use unknown (class c)) = refl
default_of_lem (type_use unknown (type_var name)) = refl
default_of_lem (type_use unknown (wildcard b)) = refl
default_of_lem (type_use unknown (base b)) = refl
default_of_lem (type_use unknown void) = refl
default_of_lem (type_use nullable (array t)) = refl
default_of_lem (type_use nullable (class c)) = refl
default_of_lem (type_use nullable (type_var name)) = refl
default_of_lem (type_use nullable (wildcard b)) = refl
default_of_lem (type_use nullable (base b)) = refl
default_of_lem (type_use nullable void) = refl
default_of_lem (type_use non_null (array t)) = refl
default_of_lem (type_use non_null (class c)) = refl
default_of_lem (type_use non_null (type_var name)) = refl
default_of_lem (type_use non_null (wildcard b)) = refl
default_of_lem (type_use non_null (base b)) = refl
default_of_lem (type_use non_null void) = refl

-- After `apply_default_nullness` every class, array, type variable and wildcard without a nullness is
-- non-null, at every path; a part with a nullness keeps it, a base type and `void` are left without
-- one, and no path is gained or lost.
pub apply_default_nullness_lem :
    (q : List Step) (t : TypeUse)
    → at_path nullness_of q (apply_default_nullness t) ≡ at_path defaulted q t
unfolding apply_default_nullness
apply_default_nullness_lem [] (type_use n kind) = ap some (default_of_lem (type_use n kind))
apply_default_nullness_lem (s ∷ q) (type_use n kind) =
    look-default_kind (at_path nullness_of q) s kind
    ∙ look_cong _ _ (λ t. apply_default_nullness_lem q t) s kind
