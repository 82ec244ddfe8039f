-- ===== src/Signature.antt =====
-- The parser of generic signatures of src/scan.rs, `TypeUseSignatureParser`. Its state is the list of
-- the bytes that are left. A failed parse keeps them too, since `parse_type_parameters` goes on
-- after one. The functions that call one another run on fuel.
pub mod Method
pub mod Total
pub mod Grammar
pub mod Complete
use inspequte.Base.{
  ℕ, zero, suc, ◌+◌, ◌*◌, Bool, true, false, ◌||◌, Option, none, some, List, [], ◌∷◌, length, ◌==◌,
  if◌then◌else◌,
}
use inspequte.Base.Result.{
  Result, Error, ok, err, invalid_method_signature, invalid_type_parameters, invalid_parameter_type,
  invalid_return_type, invalid_type_signature,
}
use inspequte.Base.Text.{no_text, in_front}
use inspequte.Ir.{
  unknown, TypeUse, type_use, base, array, type_var, class, wildcard, void, ClassTypeUse,
  class_type_use, MaybeTypeUse, absent, present, TypeUses, nil, cons, TypeParameterUse,
  MethodTypeUse,
}
use Prim.Native.String.{String}

pub data Parsed {ℓ} (A : Type ℓ) : Type ℓ where
  no_fuel : Parsed A
  failed : (rest : List ℕ) → Parsed A
  parsed : (value : A) (rest : List ℕ) → Parsed A

module _ {ℓ κ} {A : Type ℓ} {B : Type κ} where
  abbrev pub and_then : Parsed A → (A → List ℕ → Parsed B) → Parsed B
  and_then no_fuel next = no_fuel
  and_then (failed rest) next = failed rest
  and_then (parsed value rest) next = next value rest

-- `TypeUse` with the nullness of a fresh parse
abbrev pub array_of : TypeUse → TypeUse
array_of component = type_use unknown (array component)

abbrev pub class_of : ClassTypeUse → TypeUse
class_of c = type_use unknown (class c)

-- the bytes of a name up to the first that satisfies `stop`, and what is left
unfoldable pub take_name : (ℕ → Bool) → List ℕ → String × List ℕ
take_name stop [] = (no_text, [])
take_name stop (b ∷ s) =
    let (name, rest) = take_name stop s in
    if stop b then (no_text, b ∷ s) else (in_front b name, rest)

-- `b';' | b'<' | b'.'`
abbrev pub ends_class_name : ℕ → Bool
ends_class_name b = b == 59 || b == 60 || b == 46

-- `b';'`
abbrev pub ends_variable : ℕ → Bool
ends_variable b = b == 59

-- the bytes that `parse_type_signature` tells apart
pub data Lead : Type 0 where
  base_lead void_lead array_lead variable_lead class_lead no_lead : Lead

-- `b'B' | b'C' | b'D' | b'F' | b'I' | b'J' | b'S' | b'Z'`
abbrev pub is_base : ℕ → Bool
is_base b = b == 66 || b == 67 || b == 68 || b == 70 || b == 73 || b == 74 || b == 83 || b == 90

abbrev pub lead : ℕ → Lead
lead b =
    if is_base b
    then base_lead
    else (if b == 86
        then void_lead
        else (if b == 91
            then array_lead
            else (if b == 84 then variable_lead else (if b == 76 then class_lead else no_lead))))

-- the end of the loop in `parse_type_variable`: the `;`, where there is one
abbrev pub skip_semicolon : List ℕ → List ℕ
skip_semicolon [] = []
skip_semicolon (b ∷ s) = if b == 59 then s else b ∷ s

abbrev pub variable_of : String × List ℕ → Parsed TypeUse
variable_of (name, rest) = parsed (type_use unknown (type_var name)) (skip_semicolon rest)

-- `parse_type_variable`, which each caller calls on a `T`
unfoldable pub parse_type_variable : List ℕ → Parsed TypeUse
unfolding take_name
parse_type_variable [] = failed []
parse_type_variable (b ∷ s) =
    if b == 84 then variable_of (take_name ends_variable s) else failed (b ∷ s)

-- the end of `parse_class_type_signature`
abbrev pub expect_semicolon : ClassTypeUse → List ℕ → Parsed ClassTypeUse
expect_semicolon root [] = failed []
expect_semicolon root (b ∷ s) = if b == 59 then parsed root s else failed (b ∷ s)

-- the bytes that `parse_type_argument` tells apart
pub data ArgumentLead : Type 0 where
  any_argument bounded_argument exact_argument : ArgumentLead

abbrev pub argument_lead : ℕ → ArgumentLead
argument_lead b =
    if b == 42
    then any_argument
    else (if b == 43 || b == 45 then bounded_argument else exact_argument)

unfoldable mutual
  unfolding take_name parse_type_variable

  pub parse_type_signature : ℕ → List ℕ → Parsed TypeUse
  parse_type_signature zero s = no_fuel
  parse_type_signature (suc fuel) [] = failed []
  parse_type_signature (suc fuel) (b ∷ s) = elim (lead b) [
    | base_lead ↦ parsed (type_use unknown (base b)) s
    | void_lead ↦ parsed (type_use unknown void) s
    | array_lead ↦
        and_then (parse_type_signature fuel s) λ component rest. parsed (array_of component) rest
    | variable_lead ↦ parse_type_variable (b ∷ s)
    | class_lead ↦
        and_then (parse_class_type_signature fuel (b ∷ s)) λ c rest. parsed (class_of c) rest
    | no_lead ↦ failed (b ∷ s)
  ]

  pub parse_reference_type_signature : ℕ → List ℕ → Parsed TypeUse
  parse_reference_type_signature zero s = no_fuel
  parse_reference_type_signature (suc fuel) [] = failed []
  parse_reference_type_signature (suc fuel) (b ∷ s) = elim (lead b) [
    | class_lead ↦
        and_then (parse_class_type_signature fuel (b ∷ s)) λ c rest. parsed (class_of c) rest
    | variable_lead ↦ parse_type_variable (b ∷ s)
    | array_lead ↦
        and_then (parse_type_signature fuel s) λ component rest. parsed (array_of component) rest
    | base_lead ↦ failed (b ∷ s)
    | void_lead ↦ failed (b ∷ s)
    | no_lead ↦ failed (b ∷ s)
  ]

  pub parse_class_type_signature : ℕ → List ℕ → Parsed ClassTypeUse
  parse_class_type_signature zero s = no_fuel
  parse_class_type_signature (suc fuel) [] = failed []
  parse_class_type_signature (suc fuel) (b ∷ s) = elim (b == 76) [
    | false ↦ failed (b ∷ s)
    | true ↦
        let (name, rest) = take_name ends_class_name s in
        and_then (parse_type_arguments fuel rest) λ type_arguments rest1.
          and_then (parse_inner_classes fuel rest1)
            λ inner rest2. expect_semicolon (class_type_use name type_arguments inner) rest2
  ]

  -- the loop over the inner classes, which stand inside one another
  pub parse_inner_classes : ℕ → List ℕ → Parsed MaybeTypeUse
  parse_inner_classes zero s = no_fuel
  parse_inner_classes (suc fuel) [] = parsed absent []
  parse_inner_classes (suc fuel) (b ∷ s) = elim (b == 46) [
    | false ↦ parsed absent (b ∷ s)
    | true ↦
        let (inner_name, rest) = take_name ends_class_name s in
        and_then (parse_type_arguments fuel rest) λ inner_arguments rest1.
          and_then (parse_inner_classes fuel rest1) λ inner rest2.
            parsed (present (class_of (class_type_use inner_name inner_arguments inner))) rest2
  ]

  pub parse_type_arguments : ℕ → List ℕ → Parsed TypeUses
  parse_type_arguments zero s = no_fuel
  parse_type_arguments (suc fuel) [] = parsed nil []
  parse_type_arguments (suc fuel) (b ∷ s) = elim (b == 60) [
    | false ↦ parsed nil (b ∷ s)
    | true ↦ parse_arguments_loop fuel s
  ]

  -- the loop of `parse_type_arguments`
  pub parse_arguments_loop : ℕ → List ℕ → Parsed TypeUses
  parse_arguments_loop zero s = no_fuel
  parse_arguments_loop (suc fuel) [] = parsed nil []
  parse_arguments_loop (suc fuel) (b ∷ s) = elim (b == 62) [
    | true ↦ parsed nil s
    | false ↦ and_then (parse_type_argument fuel (b ∷ s)) λ arg rest.
        and_then (parse_arguments_loop fuel rest) λ args rest1. parsed (cons arg args) rest1
  ]

  pub parse_type_argument : ℕ → List ℕ → Parsed TypeUse
  parse_type_argument zero s = no_fuel
  parse_type_argument (suc fuel) [] = failed []
  parse_type_argument (suc fuel) (b ∷ s) = elim (argument_lead b) [
    | any_argument ↦ parsed (type_use unknown (wildcard absent)) s
    | bounded_argument ↦
        and_then (parse_reference_type_signature fuel s)
          λ bound rest. parsed (type_use unknown (wildcard (present bound))) rest
    | exact_argument ↦ parse_reference_type_signature fuel (b ∷ s)
  ]
