-- ===== src/Signature/Method.antt =====
-- The signatures of methods: `parse_type_parameters`, `parse_method_type_use_signature` and
-- `parse_type_use_signature` of src/scan.rs.
pub mod Total
pub mod Grammar
pub mod Complete
use inspequte.Base.{
  ℕ, zero, suc, ◌+◌, ◌*◌, Bool, true, false, Option, none, some, List, [], ◌∷◌, length, ◌==◌,
  if◌then◌else◌,
}
use inspequte.Base.Result.{
  Result, Error, ok, err, invalid_method_signature, invalid_type_parameters, invalid_parameter_type,
  invalid_return_type, invalid_type_signature,
}
use inspequte.Ir.{TypeUse, TypeParameterUse, MethodTypeUse}
use inspequte.Signature.{
  Parsed, no_fuel, failed, parsed, and_then, take_name, parse_type_signature,
  parse_reference_type_signature,
}
use Prim.Native.String.{String}

-- the loop over the interface bounds of a type parameter
unfoldable pub parse_interface_bounds : ℕ → List ℕ → Parsed (List TypeUse)
unfolding parse_reference_type_signature
parse_interface_bounds zero s = no_fuel
parse_interface_bounds (suc fuel) [] = parsed [] []
parse_interface_bounds (suc fuel) (b ∷ s) = elim (b == 58) [
  | false ↦ parsed [] (b ∷ s)
  | true ↦ and_then (parse_reference_type_signature fuel s) λ bound rest.
      and_then (parse_interface_bounds fuel rest) λ bounds rest1. parsed (bound ∷ bounds) rest1
]

-- what a failed parse leaves counts as no bound
abbrev pub optional : Parsed TypeUse → Parsed (Option TypeUse)
optional no_fuel = no_fuel
optional (failed rest) = parsed none rest
optional (parsed bound rest) = parsed (some bound) rest

unfoldable pub parse_class_bound : ℕ → List ℕ → Parsed (Option TypeUse)
unfolding parse_reference_type_signature
parse_class_bound fuel [] = optional (parse_reference_type_signature fuel [])
parse_class_bound fuel (b ∷ s) = elim (b == 58) [
  | true ↦ parsed none (b ∷ s)
  | false ↦ optional (parse_reference_type_signature fuel (b ∷ s))
]

abbrev pub is_colon : ℕ → Bool
is_colon b = b == 58

-- a type parameter after its name
unfoldable pub parse_bounds : ℕ → String → List ℕ → Parsed TypeParameterUse
unfolding parse_class_bound parse_interface_bounds
parse_bounds fuel name [] = failed []
parse_bounds fuel name (b ∷ s) = elim (b == 58) [
  | false ↦ failed (b ∷ s)
  | true ↦ and_then (parse_class_bound fuel s) λ class_bound rest.
      and_then (parse_interface_bounds fuel rest) λ interface_bounds rest1.
        parsed
          (record { name = name; class_bound = class_bound; interface_bounds = interface_bounds })
          rest1
]

unfoldable pub parse_parameters_loop : ℕ → List ℕ → Parsed (List TypeParameterUse)
unfolding take_name parse_bounds
parse_parameters_loop zero s = no_fuel
parse_parameters_loop (suc fuel) [] = parsed [] []
parse_parameters_loop (suc fuel) (b ∷ s) = elim (b == 62) [
  | true ↦ parsed [] s
  | false ↦
      let (name, rest) = take_name is_colon (b ∷ s) in
      and_then (parse_bounds fuel name rest) λ parameter rest1.
        and_then (parse_parameters_loop fuel rest1)
          λ parameters rest2. parsed (parameter ∷ parameters) rest2
]

unfoldable pub parse_type_parameters : ℕ → List ℕ → Parsed (List TypeParameterUse)
unfolding parse_parameters_loop
parse_type_parameters fuel [] = parsed [] []
parse_type_parameters fuel (b ∷ s) = elim (b == 60) [
  | false ↦ parsed [] (b ∷ s)
  | true ↦ parse_parameters_loop fuel s
]

-- the loop over the parameters of a method
unfoldable pub parse_parameter_types : ℕ → List ℕ → Parsed (List TypeUse)
unfolding parse_type_signature
parse_parameter_types zero s = no_fuel
parse_parameter_types (suc fuel) [] = parsed [] []
parse_parameter_types (suc fuel) (b ∷ s) = elim (b == 41) [
  | true ↦ parsed [] s
  | false ↦ and_then (parse_type_signature fuel (b ∷ s)) λ param rest.
      and_then (parse_parameter_types fuel rest) λ params rest1. parsed (param ∷ params) rest1
]

unfoldable pub parse_return_type : ℕ → List ℕ → Parsed (Option TypeUse)
unfolding parse_type_signature
parse_return_type fuel [] = failed []
parse_return_type fuel (b ∷ s) = elim (b == 86) [
  | true ↦ parsed none s
  | false ↦
      and_then (parse_type_signature fuel (b ∷ s))
        λ return_type rest. parsed (some return_type) rest
]

-- a step of a function that returns `Result`: a failed parse becomes the error of its `context`
abbrev pub or_error {ℓ κ} :
    {A : Type ℓ} {B : Type κ}
    → Error
    → Parsed A
    → (A → List ℕ → Option (Result B))
    → Option (Result B)
or_error e no_fuel next = none
or_error e (failed rest) next = some (err e)
or_error e (parsed value rest) next = next value rest

-- the opening parenthesis
unfoldable pub expect_open : List ℕ → Parsed (Unit {0})
expect_open [] = failed []
expect_open (b ∷ s) = if b == 40 then parsed tt s else failed (b ∷ s)

-- `parse_method_type_use_signature`
unfoldable pub parse_method_on : ℕ → List ℕ → Option (Result MethodTypeUse)
unfolding parse_type_parameters expect_open parse_parameter_types parse_return_type
parse_method_on fuel signature =
    or_error invalid_type_parameters (parse_type_parameters fuel signature) λ type_parameters rest.
      or_error invalid_method_signature (expect_open rest) λ _ rest1.
        or_error invalid_parameter_type (parse_parameter_types fuel rest1) λ params rest2.
          or_error invalid_return_type (parse_return_type fuel rest2) λ return_type rest3. some (
            ok (record {
              type_parameters = type_parameters;
              parameters = params;
              return_type = return_type;
            }))

-- the rounds of the parser on an input of this length
abbrev pub rounds : List ℕ → ℕ
rounds s = 4 * length s + 8

unfoldable pub parse_method_type_use_signature : List ℕ → Option (Result MethodTypeUse)
unfolding parse_method_on
parse_method_type_use_signature signature = parse_method_on (rounds signature) signature

-- `parse_type_use_signature`
unfoldable pub parse_type_use_signature : List ℕ → Option (Result TypeUse)
unfolding parse_type_signature
parse_type_use_signature signature =
    or_error invalid_type_signature (parse_type_signature (rounds signature) signature)
      λ type rest. some (ok type)
