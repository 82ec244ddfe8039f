-- ===== src/Signature/Method/Complete.antt =====
-- The parser of method signatures accepts the grammar.
use inspequte.Base.{
  ℕ, zero, suc, ◌+◌, ◌*◌, ◌≤◌, ◌≡◌, refl, ap, ◌∙◌, true, false, Option, some, List, ◌∷◌, length,
  length-append, arith, ◌==◌, Bool-cases, inl, inr,
}
use inspequte.Base.Result.{ok}
use inspequte.Ir.{TypeUse, TypeParameterUse, MethodTypeUse}
use inspequte.Signature.{
  parsed, failed, and_then, is_base, parse_type_signature, parse_reference_type_signature,
}
use inspequte.Signature.Grammar.{
  JavaType, base_type, reference_type, Reference, class_reference, variable, array_reference,
  class_type,
}
use inspequte.Signature.Total.{reference-Ends, type-Ends}
use inspequte.Signature.Complete.{parsed-Ends, take_name-append, type_complete, Reference-complete}
use inspequte.Signature.Method.{
  parse_interface_bounds, optional, parse_class_bound, is_colon, parse_bounds,
  parse_parameters_loop, parse_type_parameters, parse_parameter_types, parse_return_type,
  expect_open, parse_method_on, rounds, parse_method_type_use_signature, parse_type_use_signature,
}
use inspequte.Signature.Method.Total.{
  class_bound-Ends, bounds_loop-Ends, parameters_loop-Ends, parameter_types-Ends,
}
use inspequte.Signature.Method.Grammar.{
  InterfaceBounds, no_bound, next_bound, ClassBound, class_bound, no_class_bound, TypeParameters,
  no_parameter, next_parameter, ParameterTypes, no_type, next_type, ReturnType, void_return,
  type_return, MethodSignature, simple_method, generic_method,
}

bounds_complete :
    {s r : List ℕ} {bs : List TypeUse}
    → InterfaceBounds s bs r
    → (f : ℕ) → 4 * length s + 2 ≤ f
    → parse_interface_bounds f s ≡ parsed bs r
unfolding parse_interface_bounds
bounds_complete _ zero k = absurd (omega arith)
bounds_complete (no_bound h) (suc f) k = rw (h, parse_interface_bounds) refl
bounds_complete (next_bound {s = s} {s' = s'} d ds) (suc f) k =
    let first = Reference-complete d f (omega (arith, k)) in
    let short : length s' + 1 ≤ length s =
      parsed-Ends 1 (length s) first (reference-Ends f s (omega (arith, k))) in
    rw (first, bounds_complete ds f (omega (arith, k, short)), parse_interface_bounds) refl

-- a reference does not start with a colon
class_bound_of_Reference :
    {s r : List ℕ} {t : TypeUse} (f : ℕ)
    → Reference s t r
    → parse_class_bound f s ≡ optional (parse_reference_type_signature f s)
unfolding parse_class_bound
class_bound_of_Reference f (class_reference (class_type n h d)) = refl
class_bound_of_Reference f (variable n h) = refl
class_bound_of_Reference f (array_reference d) = refl

-- no reference starts with another byte
no_reference :
    (b : ℕ) (r : List ℕ) (f : ℕ)
    → (b == 76) ≡ false
    → (b == 84) ≡ false
    → (b == 91) ≡ false
    → parse_reference_type_signature (suc f) (b ∷ r) ≡ failed (b ∷ r)
unfolding parse_reference_type_signature
no_reference b r f l t a = elim (Bool-cases (is_base b)) [
  | inl base ↦ rw (base, parse_reference_type_signature) refl
  | inr other ↦ elim (Bool-cases (b == 86)) [
    | inl void ↦ rw (other, void, parse_reference_type_signature) refl
    | inr rest ↦ rw (other, rest, a, t, l, parse_reference_type_signature) refl
  ]
]

ClassBound-complete :
    {s r : List ℕ} {c : Option TypeUse}
    → ClassBound s c r
    → (f : ℕ) → 4 * length s + 2 ≤ f
    → parse_class_bound f s ≡ parsed c r
unfolding parse_class_bound
ClassBound-complete (class_bound d) f k =
    class_bound_of_Reference f d ∙ ap optional (Reference-complete d f k)
ClassBound-complete (no_class_bound {b = b} l t a) zero k = absurd (omega (arith, k))
ClassBound-complete (no_class_bound {b = b} {r = r} l t a) (suc f) k = elim (Bool-cases (b == 58)) [
  | inl colon ↦ rw (colon, parse_class_bound) refl
  | inr other ↦ rw (other, parse_class_bound) (ap optional (no_reference b r f l t a))
]

parameters_complete :
    {s r : List ℕ} {ps : List TypeParameterUse}
    → TypeParameters s ps r
    → (f : ℕ) → 4 * length s + 2 ≤ f
    → parse_parameters_loop f s ≡ parsed ps r
unfolding parse_parameters_loop parse_bounds
parameters_complete _ zero k = absurd (omega arith)
parameters_complete no_parameter (suc f) k = refl
parameters_complete (next_parameter {b = b} {s = s} {s' = s'} {s'' = s''} n other name c bs ps)
      (suc f) k =
    let long = length-append n (58 ∷ s) in
    let bound = ClassBound-complete c f (omega (arith, k, long)) in
    let short : length s' + 0 ≤ length s =
      parsed-Ends 0 (length s) bound (class_bound-Ends f s (omega (arith, k, long))) in
    let bounds = bounds_complete bs f (omega (arith, k, long, short)) in
    let short' : length s'' + 0 ≤ length s' =
      parsed-Ends 0 (length s') bounds (bounds_loop-Ends f s' (omega (arith, k, long, short))) in
    let named = take_name-append is_colon (b ∷ n) (58 ∷ s) name refl in
    rw
      (
        other,
        named,
        bound,
        bounds,
        parameters_complete {s = s''} ps f (omega (arith, k, long, short, short')),
        named,
        parse_parameters_loop,
        parse_bounds,
      )
      refl

base_other : (b c : ℕ) → is_base b ≡ true → is_base c ≡ false → (b == c) ≡ false
base_other b c h g = ground arith

-- a type does not start with a closing parenthesis
loop_of_type :
    {s r : List ℕ} {t : TypeUse} (f : ℕ)
    → JavaType s t r
    → parse_parameter_types (suc f) s
      ≡ and_then (parse_type_signature f s) λ param rest.
        and_then (parse_parameter_types f rest) λ params rest1. parsed (param ∷ params) rest1
unfolding parse_parameter_types
loop_of_type f (base_type {b = b} h) = rw (base_other b 41 h refl, parse_parameter_types) refl
loop_of_type f (reference_type (class_reference (class_type n h d))) = refl
loop_of_type f (reference_type (variable n h)) = refl
loop_of_type f (reference_type (array_reference d)) = refl

return_of_type :
    {s r : List ℕ} {t : TypeUse} (f : ℕ)
    → JavaType s t r
    → parse_return_type f s
      ≡ and_then (parse_type_signature f s) λ return_type rest. parsed (some return_type) rest
unfolding parse_return_type
return_of_type f (base_type {b = b} h) = rw (base_other b 86 h refl, parse_return_type) refl
return_of_type f (reference_type (class_reference (class_type n h d))) = refl
return_of_type f (reference_type (variable n h)) = refl
return_of_type f (reference_type (array_reference d)) = refl

types_complete :
    {s r : List ℕ} {ts : List TypeUse}
    → ParameterTypes s ts r
    → (f : ℕ) → 4 * length s + 3 ≤ f
    → parse_parameter_types f s ≡ parsed ts r
unfolding parse_parameter_types
types_complete _ zero k = absurd (omega arith)
types_complete no_type (suc f) k = refl
types_complete (next_type {s = s} {s' = s'} d ds) (suc f) k =
    let first = type_complete d f (omega (arith, k)) in
    let short : length s' + 1 ≤ length s =
      parsed-Ends 1 (length s) first (type-Ends f s (omega (arith, k))) in
    loop_of_type f d ∙ rw (first, types_complete ds f (omega (arith, k, short))) refl

return_complete :
    {s r : List ℕ} {t : Option TypeUse}
    → ReturnType s t r
    → (f : ℕ) → 4 * length s + 2 ≤ f
    → parse_return_type f s ≡ parsed t r
unfolding parse_return_type
return_complete void_return f k = refl
return_complete (type_return d) f k = return_of_type f d ∙ rw (type_complete d f k) refl

method_complete :
    {s r : List ℕ} {m : MethodTypeUse}
    → MethodSignature s m r
    → (f : ℕ) → 4 * length s + 8 ≤ f
    → parse_method_on f s ≡ some (ok m)
unfolding parse_method_on parse_type_parameters expect_open
method_complete (simple_method {s = s} {s' = s'} ts t) f k =
    let types = types_complete ts f (omega (arith, k)) in
    let short : length s' + 0 ≤ length s =
      parsed-Ends 0 (length s) types (parameter_types-Ends f s (omega (arith, k))) in
    rw (types, return_complete t f (omega (arith, k, short))) refl
method_complete (generic_method {s = s} {s' = s'} {s'' = s''} ps ts t) f k =
    let parameters = parameters_complete ps f (omega (arith, k)) in
    let short : length (40 ∷ s') + 0 ≤ length s =
      parsed-Ends 0 (length s) parameters (parameters_loop-Ends f s (omega (arith, k))) in
    let types = types_complete ts f (omega (arith, k, short)) in
    let short' : length s'' + 0 ≤ length s' =
      parsed-Ends 0 (length s') types (parameter_types-Ends f s' (omega (arith, k, short))) in
    rw (parameters, types, return_complete t f (omega (arith, k, short, short'))) refl

-- A method signature of the grammar parses to its tree. Its identifiers are in ASCII, and a type
-- parameter without any bound stands only in front of a byte that begins no reference type.
pub parse_method_type_use_signature-MethodSignature :
    {s r : List ℕ} {m : MethodTypeUse}
    → MethodSignature s m r
    → parse_method_type_use_signature s ≡ some (ok m)
unfolding parse_method_type_use_signature
parse_method_type_use_signature-MethodSignature {s = s} d =
    method_complete d (rounds s) (omega arith)

-- A type signature of the grammar parses to its tree.
pub parse_type_use_signature-JavaType :
    {s r : List ℕ} {t : TypeUse} → JavaType s t r → parse_type_use_signature s ≡ some (ok t)
unfolding parse_type_use_signature
parse_type_use_signature-JavaType {s = s} d = rw (type_complete d (rounds s) (omega arith)) refl
