-- ===== src/Signature/Method/Total.antt =====
-- The parsers of the signatures of methods, fields and variables end on every input.
use inspequte.Base.{
  ℕ, zero, suc, ◌+◌, ◌*◌, ◌≤◌, ◌≡◌, refl, Option, some, List, [], ◌∷◌, length, arith, ◌⊎◌, inl, inr,
  Bool-cases, ◌==◌,
}
use inspequte.Base.Result.{Result, Error, ok, err}
use inspequte.Ir.{TypeUse}
use inspequte.Signature.{Parsed, no_fuel, failed, parsed, take_name}
use inspequte.Signature.Method.{
  parse_interface_bounds, optional, parse_class_bound, is_colon, parse_bounds,
  parse_parameters_loop, parse_type_parameters, parse_parameter_types, parse_return_type, or_error,
  expect_open, parse_method_on, rounds, parse_method_type_use_signature, parse_type_use_signature,
}
use inspequte.Signature.Total.{
  Ends, and_then-Ends, Ends-weaken, take_name-length, type-Ends, reference-Ends,
}
use Prim.Native.String.{String}

pub bounds_loop-Ends :
    (f : ℕ) (s : List ℕ) → 4 * length s + 2 ≤ f → Ends 0 (length s) (parse_interface_bounds f s)
unfolding parse_interface_bounds
bounds_loop-Ends zero s h = absurd (omega arith)
bounds_loop-Ends (suc f) [] h = omega arith
bounds_loop-Ends (suc f) (b ∷ s) h = elim (Bool-cases (b == 58)) [
  | inr e ↦ rw (e, Ends) (omega arith)
  | inl e ↦
      rw (e, Ends)
        (and_then-Ends 1 0 (length s) (suc (length s)) _ _ (omega arith)
          (reference-Ends f s (omega (arith, h)))
          λ bound rest k.
            and_then-Ends 0 0 (length rest) (suc (length s)) _ _ (omega (arith, k))
              (bounds_loop-Ends f rest (omega (arith, h, k)))
              λ bounds rest1 k1. omega (arith, k, k1))
]

optional-Ends : (n : ℕ) (r : Parsed TypeUse) → Ends 1 n r → Ends 0 n (optional r)
optional-Ends n no_fuel h = h
optional-Ends n (failed rest) h = omega (arith, h)
optional-Ends n (parsed bound rest) h = omega (arith, h)

pub class_bound-Ends :
    (f : ℕ) (s : List ℕ) → 4 * length s + 2 ≤ f → Ends 0 (length s) (parse_class_bound f s)
unfolding parse_class_bound
class_bound-Ends f [] h = optional-Ends 0 _ (reference-Ends f [] h)
class_bound-Ends f (b ∷ s) h = elim (Bool-cases (b == 58)) [
  | inl e ↦ rw (e, Ends) (omega arith)
  | inr e ↦ rw (e, Ends) (optional-Ends (suc (length s)) _ (reference-Ends f (b ∷ s) h))
]

pub bounds-Ends :
    (f : ℕ) (name : String) (s : List ℕ)
    → 4 * length s ≤ f + 2
    → Ends 1 (length s) (parse_bounds f name s)
unfolding parse_bounds
bounds-Ends f name [] h = omega arith
bounds-Ends f name (b ∷ s) h = elim (Bool-cases (b == 58)) [
  | inr e ↦ rw (e, Ends) (omega arith)
  | inl e ↦
      rw (e, Ends)
        (and_then-Ends 0 1 (length s) (suc (length s)) _ _ (omega arith)
          (class_bound-Ends f s (omega (arith, h)))
          λ bound rest k.
            and_then-Ends 0 1 (length rest) (suc (length s)) _ _ (omega (arith, k))
              (bounds_loop-Ends f rest (omega (arith, h, k)))
              λ bounds rest1 k1. omega (arith, k, k1))
]

pub parameters_loop-Ends :
    (f : ℕ) (s : List ℕ) → 4 * length s + 2 ≤ f → Ends 0 (length s) (parse_parameters_loop f s)
unfolding parse_parameters_loop
parameters_loop-Ends zero s h = absurd (omega arith)
parameters_loop-Ends (suc f) [] h = omega arith
parameters_loop-Ends (suc f) (b ∷ s) h = elim (Bool-cases (b == 62)) [
  | inl e ↦ rw (e, Ends) (omega arith)
  | inr e ↦
      rw (e, Ends)
        (let short = take_name-length is_colon (b ∷ s) in
          and_then-Ends 1 0 (length (take_name is_colon (b ∷ s)).1) (suc (length s)) _ _
            (omega (arith, short))
            (bounds-Ends f (take_name is_colon (b ∷ s)).0 (take_name is_colon (b ∷ s)).1
              (omega (arith, short, h)))
            λ parameter rest k.
              and_then-Ends 0 0 (length rest) (suc (length s)) _ _ (omega (arith, short, k))
                (parameters_loop-Ends f rest (omega (arith, short, h, k)))
                λ parameters rest1 k1. omega (arith, short, k, k1))
]

pub type_parameters-Ends :
    (f : ℕ) (s : List ℕ) → 4 * length s + 2 ≤ f → Ends 0 (length s) (parse_type_parameters f s)
unfolding parse_type_parameters
type_parameters-Ends f [] h = omega arith
type_parameters-Ends f (b ∷ s) h = elim (Bool-cases (b == 60)) [
  | inr e ↦ rw (e, Ends) (omega arith)
  | inl e ↦
      rw (e, Ends)
        (Ends-weaken 0 (length s) (suc (length s)) _ (omega arith)
          (parameters_loop-Ends f s (omega (arith, h))))
]

pub parameter_types-Ends :
    (f : ℕ) (s : List ℕ) → 4 * length s + 3 ≤ f → Ends 0 (length s) (parse_parameter_types f s)
unfolding parse_parameter_types
parameter_types-Ends zero s h = absurd (omega arith)
parameter_types-Ends (suc f) [] h = omega arith
parameter_types-Ends (suc f) (b ∷ s) h = elim (Bool-cases (b == 41)) [
  | inl e ↦ rw (e, Ends) (omega arith)
  | inr e ↦
      rw (e, Ends)
        (and_then-Ends 1 0 (suc (length s)) (suc (length s)) _ _ (omega arith)
          (type-Ends f (b ∷ s) (omega (arith, h)))
          λ param rest k.
            and_then-Ends 0 0 (length rest) (suc (length s)) _ _ (omega (arith, k))
              (parameter_types-Ends f rest (omega (arith, h, k)))
              λ params rest1 k1. omega (arith, k, k1))
]

return_type-Ends :
    (f : ℕ) (s : List ℕ) → 4 * length s + 2 ≤ f → Ends 0 (length s) (parse_return_type f s)
unfolding parse_return_type
return_type-Ends f [] h = omega arith
return_type-Ends f (b ∷ s) h = elim (Bool-cases (b == 86)) [
  | inl e ↦ rw (e, Ends) (omega arith)
  | inr e ↦
      rw (e, Ends)
        (and_then-Ends 1 0 (suc (length s)) (suc (length s)) _ _ (omega arith)
          (type-Ends f (b ∷ s) h) λ return_type rest k. omega (arith, k))
]

expect_open-Ends : (s : List ℕ) → Ends 0 (length s) (expect_open s)
unfolding expect_open
expect_open-Ends [] = omega arith
expect_open-Ends (b ∷ s) = elim (Bool-cases (b == 40)) [
  | inl e ↦ rw (e, Ends) (omega arith)
  | inr e ↦ rw (e, Ends) (omega arith)
]

-- a result or an error, and no panic
abbrev pub Answers {ℓ} : {A : Type ℓ} → Option (Result A) → Type ℓ
Answers {A = A} r = ((a : A) × (r ≡ some (ok a))) ⊎ ((e : Error) × (r ≡ some (err e)))

or_error-Answers {ℓ κ} :
    {A : Type ℓ} {B : Type κ} (k n : ℕ) (e : Error) (r : Parsed A)
    (next : A → List ℕ → Option (Result B))
    → Ends k n r
    → ((value : A) (rest : List ℕ) → length rest + k ≤ n → Answers (next value rest))
    → Answers (or_error e r next)
or_error-Answers k n e no_fuel next h f = elim h [ ]
or_error-Answers k n e (failed rest) next h f = inr (e, refl)
or_error-Answers k n e (parsed value rest) next h f = f value rest h

method_on-Answers : (f : ℕ) (s : List ℕ) → 4 * length s + 3 ≤ f → Answers (parse_method_on f s)
unfolding parse_method_on
method_on-Answers f s h =
    or_error-Answers 0 (length s) _ _ _ (type_parameters-Ends f s (omega (arith, h))) λ ps r k.
      or_error-Answers 0 (length r) _ _ _ (expect_open-Ends r) λ _ r1 k1.
        or_error-Answers 0 (length r1) _ _ _ (parameter_types-Ends f r1 (omega (arith, h, k, k1)))
          λ ts r2 k2.
            or_error-Answers 0 (length r2) _ _ _
              (return_type-Ends f r2 (omega (arith, h, k, k1, k2))) λ t r3 k3. inl (_, refl)

-- On any bytes, the parsers of method signatures and of type signatures end, with a type or with an
-- error, and do not panic.
pub signature_parsers_total :
    (s : List ℕ)
    → Answers (parse_method_type_use_signature s) × Answers (parse_type_use_signature s)
unfolding parse_method_type_use_signature parse_type_use_signature
signature_parsers_total s = (
  method_on-Answers (rounds s) s (omega arith),
  or_error-Answers 1 (length s) _ _ _ (type-Ends (rounds s) s (omega arith)) λ t r k. inl (t, refl),
)
