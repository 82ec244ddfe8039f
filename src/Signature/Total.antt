-- ===== src/Signature/Total.antt =====
-- The parser of generic signatures ends on every input.
use inspequte.Base.{
  ℕ, zero, suc, ◌+◌, ◌*◌, ◌≤◌, ◌≡◌, refl, Bool, List, [], ◌∷◌, length, arith, inl, inr, Bool-cases,
  ◌==◌,
}
use inspequte.Ir.{ClassTypeUse}
use inspequte.Signature.{
  Parsed, no_fuel, failed, parsed, and_then, take_name, ends_class_name, ends_variable, Lead,
  base_lead, void_lead, array_lead, variable_lead, class_lead, no_lead, lead, skip_semicolon,
  parse_type_variable, expect_semicolon, ArgumentLead, any_argument, bounded_argument,
  exact_argument, argument_lead, parse_type_signature, parse_reference_type_signature,
  parse_class_type_signature, parse_inner_classes, parse_type_arguments, parse_arguments_loop,
  parse_type_argument,
}

-- The parse ends on an input of length `n`: a failure leaves no more than was there, and a value
-- takes at least `k` bytes.
abbrev pub Ends {ℓ} : {A : Type ℓ} → ℕ → ℕ → Parsed A → Type 0
Ends k n no_fuel = ⊥
Ends k n (failed rest) = length rest ≤ n
Ends k n (parsed value rest) = length rest + k ≤ n

pub and_then-Ends {ℓ κ} :
    {A : Type ℓ} {B : Type κ} (k k' n n' : ℕ) (r : Parsed A) (next : A → List ℕ → Parsed B)
    → n ≤ n'
    → Ends k n r
    → ((value : A) (rest : List ℕ) → length rest + k ≤ n → Ends k' n' (next value rest))
    → Ends k' n' (and_then r next)
and_then-Ends k k' n n' no_fuel next h r f = elim r [ ]
and_then-Ends k k' n n' (failed rest) next h r f = omega (arith, h, r)
and_then-Ends k k' n n' (parsed value rest) next h r f = f value rest r

pub take_name-length : (stop : ℕ → Bool) (s : List ℕ) → length (take_name stop s).1 ≤ length s
unfolding take_name
take_name-length stop [] = omega arith
take_name-length stop (b ∷ s) = elim (Bool-cases (stop b)) [
  | inl e ↦ rw e (omega arith)
  | inr e ↦ rw e (omega (arith, take_name-length stop s))
]

-- the ways a byte leads
data LeadCase (l : Lead) : Type 0 where
  base_case : l ≡ base_lead → LeadCase l
  void_case : l ≡ void_lead → LeadCase l
  array_case : l ≡ array_lead → LeadCase l
  variable_case : l ≡ variable_lead → LeadCase l
  class_case : l ≡ class_lead → LeadCase l
  no_case : l ≡ no_lead → LeadCase l

lead_case : (l : Lead) → LeadCase l
lead_case base_lead = base_case refl
lead_case void_lead = void_case refl
lead_case array_lead = array_case refl
lead_case variable_lead = variable_case refl
lead_case class_lead = class_case refl
lead_case no_lead = no_case refl

data ArgumentCase (l : ArgumentLead) : Type 0 where
  any_case : l ≡ any_argument → ArgumentCase l
  bounded_case : l ≡ bounded_argument → ArgumentCase l
  exact_case : l ≡ exact_argument → ArgumentCase l

argument_case : (l : ArgumentLead) → ArgumentCase l
argument_case any_argument = any_case refl
argument_case bounded_argument = bounded_case refl
argument_case exact_argument = exact_case refl

length-skip_semicolon : (s : List ℕ) → length (skip_semicolon s) ≤ length s
length-skip_semicolon [] = omega arith
length-skip_semicolon (b ∷ s) = ground arith

variable-Ends : (s : List ℕ) → Ends 1 (length s) (parse_type_variable s)
unfolding parse_type_variable
variable-Ends [] = omega arith
variable-Ends (b ∷ s) = elim (Bool-cases (b == 84)) [
  | inr e ↦ rw e (omega arith)
  | inl e ↦ rw e (
      omega (
        arith,
        take_name-length ends_variable s,
        length-skip_semicolon (take_name ends_variable s).1,
      ))
]

expect-Ends : (root : ClassTypeUse) (s : List ℕ) → Ends 1 (length s) (expect_semicolon root s)
expect-Ends root [] = omega arith
expect-Ends root (b ∷ s) = elim (Bool-cases (b == 59)) [
  | inl e ↦ rw e (omega arith)
  | inr e ↦ rw e (omega arith)
]

pub Ends-weaken {ℓ} : {A : Type ℓ} (k n n' : ℕ) (r : Parsed A) → n ≤ n' → Ends k n r → Ends k n' r
Ends-weaken k n n' no_fuel h r = r
Ends-weaken k n n' (failed rest) h r = omega (arith, h, r)
Ends-weaken k n n' (parsed value rest) h r = omega (arith, h, r)

-- a value made of a parsed one
wrap-Ends {ℓ κ} :
    {A : Type ℓ} {B : Type κ} (n n' : ℕ) (f : A → B) (r : Parsed A)
    → n ≤ n'
    → Ends 1 n r
    → Ends 1 n' (and_then r λ value rest. parsed (f value) rest)
wrap-Ends n n' f no_fuel h r = r
wrap-Ends n n' f (failed rest) h r = omega (arith, h, r)
wrap-Ends n n' f (parsed value rest) h r = omega (arith, h, r)

mutual
  unfolding parse_type_signature

  pub type-Ends :
      (f : ℕ) (s : List ℕ) → 4 * length s + 2 ≤ f → Ends 1 (length s) (parse_type_signature f s)
  type-Ends zero s h = absurd (omega arith)
  type-Ends (suc f) [] h = omega arith
  type-Ends (suc f) (b ∷ s) h = elim (lead_case (lead b)) [
    | base_case e ↦ rw (e, Ends) (omega arith)
    | void_case e ↦ rw (e, Ends) (omega arith)
    | array_case e ↦
        rw (e, Ends)
          (wrap-Ends (length s) (suc (length s)) _ _ (omega arith) (type-Ends f s (omega arith)))
    | variable_case e ↦ rw (e, Ends) (variable-Ends (b ∷ s))
    | class_case e ↦
        rw (e, Ends)
          (wrap-Ends (suc (length s)) (suc (length s)) _ _ (omega arith)
            (class-Ends f (b ∷ s) (omega arith)))
    | no_case e ↦ rw (e, Ends) (omega arith)
  ]

  pub reference-Ends :
      (f : ℕ) (s : List ℕ)
      → 4 * length s + 2 ≤ f
      → Ends 1 (length s) (parse_reference_type_signature f s)
  reference-Ends zero s h = absurd (omega arith)
  reference-Ends (suc f) [] h = omega arith
  reference-Ends (suc f) (b ∷ s) h = elim (lead_case (lead b)) [
    | base_case e ↦ rw (e, Ends) (omega arith)
    | void_case e ↦ rw (e, Ends) (omega arith)
    | array_case e ↦
        rw (e, Ends)
          (wrap-Ends (length s) (suc (length s)) _ _ (omega arith) (type-Ends f s (omega arith)))
    | variable_case e ↦ rw (e, Ends) (variable-Ends (b ∷ s))
    | class_case e ↦
        rw (e, Ends)
          (wrap-Ends (suc (length s)) (suc (length s)) _ _ (omega arith)
            (class-Ends f (b ∷ s) (omega arith)))
    | no_case e ↦ rw (e, Ends) (omega arith)
  ]

  pub class-Ends :
      (f : ℕ) (s : List ℕ)
      → 4 * length s + 1 ≤ f
      → Ends 1 (length s) (parse_class_type_signature f s)
  class-Ends zero s h = absurd (omega arith)
  class-Ends (suc f) [] h = omega arith
  class-Ends (suc f) (b ∷ s) h = elim (Bool-cases (b == 76)) [
    | inr e ↦ rw (e, Ends) (omega arith)
    | inl e ↦
        rw (e, Ends)
          (let short = take_name-length ends_class_name s in
            and_then-Ends 0 1 _ (suc (length s)) _ _ (omega (arith, short))
              (arguments-Ends f (take_name ends_class_name s).1 (omega (arith, short, h)))
              λ args rest k.
                and_then-Ends 0 1 _ (suc (length s)) _ _ (omega (arith, short, k))
                  (inner-Ends f rest (omega (arith, short, h, k)))
                  λ inner rest1 k1.
                    Ends-weaken 1 (length rest1) (suc (length s)) _ (omega (arith, short, k, k1))
                      (expect-Ends _ rest1))
  ]

  pub inner-Ends :
      (f : ℕ) (s : List ℕ) → 4 * length s + 1 ≤ f → Ends 0 (length s) (parse_inner_classes f s)
  inner-Ends zero s h = absurd (omega arith)
  inner-Ends (suc f) [] h = omega arith
  inner-Ends (suc f) (b ∷ s) h = elim (Bool-cases (b == 46)) [
    | inr e ↦ rw (e, Ends) (omega arith)
    | inl e ↦
        rw (e, Ends)
          (let short = take_name-length ends_class_name s in
            and_then-Ends 0 0 _ (suc (length s)) _ _ (omega (arith, short))
              (arguments-Ends f (take_name ends_class_name s).1 (omega (arith, short, h)))
              λ args rest k.
                and_then-Ends 0 0 _ (suc (length s)) _ _ (omega (arith, short, k))
                  (inner-Ends f rest (omega (arith, short, h, k)))
                  λ inner rest1 k1. omega (arith, short, k, k1))
  ]

  pub arguments-Ends :
      (f : ℕ) (s : List ℕ) → 4 * length s + 1 ≤ f → Ends 0 (length s) (parse_type_arguments f s)
  arguments-Ends zero s h = absurd (omega arith)
  arguments-Ends (suc f) [] h = omega arith
  arguments-Ends (suc f) (b ∷ s) h = elim (Bool-cases (b == 60)) [
    | inr e ↦ rw (e, Ends) (omega arith)
    | inl e ↦
        rw (e, Ends)
          (Ends-weaken 0 (length s) (suc (length s)) _ (omega arith)
            (loop-Ends f s (omega (arith, h))))
  ]

  pub loop-Ends :
      (f : ℕ) (s : List ℕ) → 4 * length s + 4 ≤ f → Ends 0 (length s) (parse_arguments_loop f s)
  loop-Ends zero s h = absurd (omega arith)
  loop-Ends (suc f) [] h = omega arith
  loop-Ends (suc f) (b ∷ s) h = elim (Bool-cases (b == 62)) [
    | inl e ↦ rw (e, Ends) (omega arith)
    | inr e ↦
        rw (e, Ends)
          (and_then-Ends 1 0 (suc (length s)) (suc (length s)) _ _ (omega arith)
            (argument-Ends f (b ∷ s) (omega (arith, h)))
            λ arg rest k.
              and_then-Ends 0 0 (length rest) (suc (length s)) _ _ (omega (arith, k))
                (loop-Ends f rest (omega (arith, h, k))) λ args rest1 k1. omega (arith, k, k1))
  ]

  pub argument-Ends :
      (f : ℕ) (s : List ℕ) → 4 * length s + 3 ≤ f → Ends 1 (length s) (parse_type_argument f s)
  argument-Ends zero s h = absurd (omega arith)
  argument-Ends (suc f) [] h = omega arith
  argument-Ends (suc f) (b ∷ s) h = elim (argument_case (argument_lead b)) [
    | any_case e ↦ rw (e, Ends) (omega arith)
    | bounded_case e ↦
        rw (e, Ends)
          (wrap-Ends (length s) (suc (length s)) _ _ (omega arith)
            (reference-Ends f s (omega arith)))
    | exact_case e ↦ rw (e, Ends) (reference-Ends f (b ∷ s) (omega arith))
  ]
