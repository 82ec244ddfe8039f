-- ===== src/TypeUses.antt =====
-- The nullness of the parts of a type in src/scan.rs: the types of descriptors, the annotations at type
-- paths, and the default.
pub mod Paths
pub mod Descriptors
use inspequte.Base.{
  ℕ, zero, suc, Bool, true, false, ◌&&◌, Option, none, some, List, [], ◌∷◌, map, ◌==◌,
  if◌then◌else◌,
}
use inspequte.Ir.{
  Nullness, unknown, non_null, nullable, TypeUse, type_use, TypeUseKind, base, array, type_var,
  class, wildcard, void, ClassTypeUse, class_type_use, MaybeTypeUse, absent, present, TypeUses, nil,
  cons, TypeParameterUse, MethodTypeUse,
}
use Prim.Native.String.{String}

-- the derived equality of `Nullness`
abbrev pub same_nullness : Nullness → Nullness → Bool
same_nullness unknown unknown = true
same_nullness non_null non_null = true
same_nullness nullable nullable = true
same_nullness _ _ = false

abbrev pub is_unknown : Nullness → Bool
is_unknown unknown = true
is_unknown _ = false

unfoldable pub apply_nullness : Nullness → Nullness → Nullness
apply_nullness target value =
    if is_unknown target then value else (if same_nullness target value then target else unknown)

-- `path_kind` and `path_index` of the crate jclassfile's `TypePathEntry`
pub record TypePathEntry : Type 0 where
  pub path_kind : ℕ
  pub path_index : ℕ

-- the arms of the match on `path_kind`
pub data Step : Type 0 where
  component inner bound no_step : Step
  argument : ℕ → Step

unfoldable pub step_of : TypePathEntry → Step
step_of entry =
    if entry.path_kind == 0
    then component
    else (if entry.path_kind == 1
        then inner
        else (if entry.path_kind == 2
            then bound
            else (if entry.path_kind == 3 then argument entry.path_index else no_step)))

-- a change of the part that a step leads to, which is none where the source returns early
abbrev pub in_present : (TypeUse → TypeUse) → MaybeTypeUse → MaybeTypeUse
in_present change absent = absent
in_present change (present t) = present (change t)

-- `type_arguments.get_mut(index)`
abbrev pub in_argument : (TypeUse → TypeUse) → ℕ → TypeUses → TypeUses
in_argument change i nil = nil
in_argument change zero (cons t args) = cons (change t) args
in_argument change (suc i) (cons t args) = cons t (in_argument change i args)

unfoldable pub change_at : Step → (TypeUse → TypeUse) → TypeUseKind → TypeUseKind
change_at component change (array t) = array (change t)
change_at inner change (class (class_type_use name args i)) =
    class (class_type_use name args (in_present change i))
change_at bound change (wildcard b) = wildcard (in_present change b)
change_at (argument i) change (class (class_type_use name args inside)) =
    class (class_type_use name (in_argument change i args) inside)
change_at _ change kind = kind

unfoldable pub annotate : List Step → Nullness → TypeUse → TypeUse
unfolding apply_nullness change_at
annotate [] value (type_use n kind) = type_use (apply_nullness n value) kind
annotate (step ∷ path) value (type_use n kind) =
    type_use n (change_at step (annotate path value) kind)

unfoldable pub apply_type_use_annotation : List TypePathEntry → Nullness → TypeUse → TypeUse
unfolding annotate step_of
apply_type_use_annotation path value target = annotate (map step_of path) value target

abbrev pub is_reference_type_use : TypeUseKind → Bool
is_reference_type_use (array t) = true
is_reference_type_use (class c) = true
is_reference_type_use (type_var name) = true
is_reference_type_use (wildcard b) = true
is_reference_type_use _ = false

abbrev pub default_of : TypeUse → Nullness
default_of (type_use n kind) = if is_reference_type_use kind && is_unknown n then non_null else n

-- `apply_default_nullness` and `apply_default_nullness_to_class_type`
unfoldable mutual
  pub apply_default_nullness : TypeUse → TypeUse
  apply_default_nullness (type_use n kind) =
      type_use (default_of (type_use n kind)) (default_kind kind)

  pub default_kind : TypeUseKind → TypeUseKind
  default_kind (array t) = array (apply_default_nullness t)
  default_kind (class c) = class (apply_default_nullness_to_class_type c)
  default_kind (wildcard b) = wildcard (default_maybe b)
  default_kind (base b) = base b
  default_kind (type_var name) = type_var name
  default_kind void = void

  pub apply_default_nullness_to_class_type : ClassTypeUse → ClassTypeUse
  apply_default_nullness_to_class_type (class_type_use name args i) =
      class_type_use name (default_arguments args) (default_maybe i)

  pub default_maybe : MaybeTypeUse → MaybeTypeUse
  default_maybe absent = absent
  default_maybe (present t) = present (apply_default_nullness t)

  pub default_arguments : TypeUses → TypeUses
  default_arguments nil = nil
  default_arguments (cons t args) = cons (apply_default_nullness t) (default_arguments args)

unfoldable pub apply_default_nullness_to_type_parameter : TypeParameterUse → TypeParameterUse
unfolding apply_default_nullness
apply_default_nullness_to_type_parameter parameter = record parameter {
  class_bound = default_bound parameter.class_bound;
  interface_bounds = map apply_default_nullness parameter.interface_bounds;
}
  where
    default_bound : Option TypeUse → Option TypeUse
    default_bound none = none
    default_bound (some t) = some (apply_default_nullness t)

-- `apply_type_parameter_bound_annotation`
abbrev pub on_some : (TypeUse → TypeUse) → Option TypeUse → Option TypeUse
on_some change none = none
on_some change (some t) = some (change t)

-- `get_mut`
abbrev pub change_nth {ℓ} : {A : Type ℓ} → (A → A) → ℕ → List A → List A
change_nth change i [] = []
change_nth change zero (x ∷ xs) = change x ∷ xs
change_nth change (suc i) (x ∷ xs) = x ∷ change_nth change i xs

-- the class bound has the index 0, the interface bounds follow
abbrev pub change_bound : (TypeUse → TypeUse) → ℕ → TypeParameterUse → TypeParameterUse
change_bound change zero parameter = record parameter {
  class_bound = on_some change parameter.class_bound;
}
change_bound change (suc i) parameter = record parameter {
  interface_bounds = change_nth change i parameter.interface_bounds;
}

unfoldable pub apply_type_parameter_bound_annotation :
    List TypeParameterUse → ℕ → ℕ → List TypePathEntry → Nullness → List TypeParameterUse
unfolding apply_type_use_annotation
apply_type_parameter_bound_annotation parameters parameter_index bound_index path value =
    change_nth (change_bound (apply_type_use_annotation path value) bound_index) parameter_index
      parameters

-- the variants of the crate jdescriptor's `TypeDescriptor`, as the match of
-- `type_use_from_descriptor` lists them
pub data TypeDescriptor : Type 0 where
  byte_type char_type double_type float_type integer_type long_type short_type boolean_type
        void_type :
      TypeDescriptor
  object_type : String → TypeDescriptor
  array_type : TypeDescriptor → ℕ → TypeDescriptor

-- the loop over the dimensions
abbrev pub arrays : ℕ → TypeUse → TypeUse
arrays zero current = current
arrays (suc depth) current = arrays depth (type_use unknown (array current))

abbrev pub base_use : ℕ → TypeUse
base_use b = type_use unknown (base b)

unfoldable pub type_use_from_descriptor : TypeDescriptor → TypeUse
type_use_from_descriptor byte_type = base_use 66
type_use_from_descriptor char_type = base_use 67
type_use_from_descriptor double_type = base_use 68
type_use_from_descriptor float_type = base_use 70
type_use_from_descriptor integer_type = base_use 73
type_use_from_descriptor long_type = base_use 74
type_use_from_descriptor short_type = base_use 83
type_use_from_descriptor boolean_type = base_use 90
type_use_from_descriptor void_type = type_use unknown void
type_use_from_descriptor (object_type name) =
    type_use unknown (class (class_type_use name nil absent))
type_use_from_descriptor (array_type t depth) = arrays depth (type_use_from_descriptor t)

-- `method_type_use_from_descriptor` on the types of a parsed descriptor
abbrev pub return_use : TypeDescriptor → Option TypeUse
return_use void_type = none
return_use t = some (type_use_from_descriptor t)

unfoldable pub method_type_use_from_descriptor :
    List TypeDescriptor → TypeDescriptor → MethodTypeUse
unfolding type_use_from_descriptor
method_type_use_from_descriptor parameter_types return_type = record {
  type_parameters = [];
  parameters = map type_use_from_descriptor parameter_types;
  return_type = return_use return_type;
}
