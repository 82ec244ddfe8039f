-- ===== src/Signature/Complete.antt =====
-- The parser of generic signatures accepts the grammar.
use inspequte.Base.{
  ℕ, zero, suc, ◌+◌, ◌*◌, ◌≤◌, ◌≡◌, refl, ◌∙◌, subst, Bool, true, List, [], ◌∷◌, ◌++◌, length,
  length-append, arith,
}
use inspequte.Ir.{
  unknown, TypeUse, type_use, type_var, ClassTypeUse, MaybeTypeUse, TypeUses, nil, cons,
}
use inspequte.Signature.{
  Parsed, parsed, and_then, take_name, is_base, ends_class_name, ends_variable, lead, base_lead,
  parse_type_variable, parse_type_signature, parse_reference_type_signature,
  parse_class_type_signature, parse_inner_classes, parse_type_arguments, parse_arguments_loop,
  parse_type_argument,
}
use inspequte.Signature.Total.{Ends, argument-Ends, loop-Ends}
use inspequte.Signature.Grammar.{
  latin, Name, JavaType, base_type, reference_type, Reference, class_reference, variable,
  array_reference, ClassType, class_type, ClassRest, plain, generic, Suffix, close, inner_class,
  Arguments, last, next, Argument, any, extends, super, exact,
}

abbrev pub Starts : (ℕ → Bool) → List ℕ → Type 0
Starts stop [] = ⊥
Starts stop (b ∷ s) = stop b ≡ true

pub take_name-append :
    (stop : ℕ → Bool) (n s : List ℕ)
    → Name stop n
    → Starts stop s
    → take_name stop (n ++ s) ≡ (latin n, s)
unfolding take_name
take_name-append stop [] [] h e = absurd e
take_name-append stop [] (b ∷ s) h e = rw e refl
take_name-append stop (b ∷ n) s ((h, hs), (_, g)) e =
    rw (h, take_name-append stop n s (hs, g) e) refl

ClassRest-Starts :
    {s r : List ℕ} {args : TypeUses} {inner : MaybeTypeUse}
    → ClassRest s args inner r
    → Starts ends_class_name s
ClassRest-Starts (plain close) = refl
ClassRest-Starts (plain (inner_class n h d)) = refl
ClassRest-Starts (generic d e) = refl

pub parsed-Ends {ℓ} :
    {A : Type ℓ} (k n : ℕ) {r : Parsed A} {a : A} {rest : List ℕ}
    → r ≡ parsed a rest
    → Ends k n r
    → length rest + k ≤ n
parsed-Ends k n e h = subst (Ends k n) e h

variable_found :
    (n r : List ℕ)
    → Name ends_variable n
    → parse_type_variable (84 ∷ n ++ 59 ∷ r) ≡ parsed (type_use unknown (type_var (latin n))) r
unfolding parse_type_variable
variable_found n r h = rw (take_name-append ends_variable n (59 ∷ r) h refl) refl

base_lead_lem : (b : ℕ) → is_base b ≡ true → lead b ≡ base_lead
base_lead_lem b h = rw h refl

-- a reference starts with its own byte
type_of_Reference :
    {s r : List ℕ} {t : TypeUse} (f : ℕ)
    → Reference s t r
    → parse_type_signature (suc f) s ≡ parse_reference_type_signature (suc f) s
unfolding parse_type_signature
type_of_Reference f (class_reference (class_type n h d)) = refl
type_of_Reference f (variable n h) = refl
type_of_Reference f (array_reference d) = refl

argument_of_Reference :
    {s r : List ℕ} {t : TypeUse} (f : ℕ)
    → Reference s t r
    → parse_type_argument (suc f) s ≡ parse_reference_type_signature f s
unfolding parse_type_signature
argument_of_Reference f (class_reference (class_type n h d)) = refl
argument_of_Reference f (variable n h) = refl
argument_of_Reference f (array_reference d) = refl

-- an argument does not start with the closing angle
loop_of_Argument :
    {s s' : List ℕ} {a : TypeUse} (f : ℕ)
    → Argument s a s'
    → parse_arguments_loop (suc f) s
      ≡ and_then (parse_type_argument f s) λ arg rest.
        and_then (parse_arguments_loop f rest) λ args rest1. parsed (cons arg args) rest1
unfolding parse_type_signature
loop_of_Argument f any = refl
loop_of_Argument f (extends d) = refl
loop_of_Argument f (super d) = refl
loop_of_Argument f (exact (class_reference (class_type n h d))) = refl
loop_of_Argument f (exact (variable n h)) = refl
loop_of_Argument f (exact (array_reference d)) = refl

no_arguments :
    {s r : List ℕ} {inner : MaybeTypeUse} (f : ℕ)
    → Suffix s inner r
    → parse_type_arguments (suc f) s ≡ parsed nil s
unfolding parse_type_signature
no_arguments f close = refl
no_arguments f (inner_class n h d) = refl

mutual
  unfolding parse_type_signature

  pub type_complete :
      {s r : List ℕ} {t : TypeUse}
      → JavaType s t r
      → (f : ℕ) → 4 * length s + 2 ≤ f
      → parse_type_signature f s ≡ parsed t r
  type_complete _ zero k = absurd (omega arith)
  type_complete (base_type {b = b} h) (suc f) k = rw (base_lead_lem b h, parse_type_signature) refl
  type_complete (reference_type d) (suc f) k =
      type_of_Reference f d ∙ Reference-complete d (suc f) (omega (arith, k))

  pub Reference-complete :
      {s r : List ℕ} {t : TypeUse}
      → Reference s t r
      → (f : ℕ) → 4 * length s + 2 ≤ f
      → parse_reference_type_signature f s ≡ parsed t r
  Reference-complete _ zero k = absurd (omega arith)
  Reference-complete (class_reference (class_type n h d)) (suc f) k =
      rw (class_complete (class_type n h d) f (omega (arith, k)), parse_reference_type_signature)
        refl
  Reference-complete (variable {r = r} n h) (suc f) k = variable_found n r h
  Reference-complete (array_reference d) (suc f) k =
      rw (type_complete d f (omega (arith, k)), parse_reference_type_signature) refl

  class_complete :
      {s r : List ℕ} {c : ClassTypeUse}
      → ClassType s c r
      → (f : ℕ) → 4 * length s + 1 ≤ f
      → parse_class_type_signature f s ≡ parsed c r
  class_complete _ zero k = absurd (omega arith)
  class_complete (class_type {s = s} n h d) (suc f) k =
      let (s', args, inner) = rest_complete d f (omega (arith, k, length-append n s)) in
      rw
        (
          take_name-append ends_class_name n s h (ClassRest-Starts d),
          args,
          inner,
          parse_class_type_signature,
        )
        refl

  rest_complete :
      {s r : List ℕ} {args : TypeUses} {inner : MaybeTypeUse}
      → ClassRest s args inner r
      → (f : ℕ) → 4 * length s + 1 ≤ f
      → (s' : List ℕ) × (parse_type_arguments f s ≡ parsed args s')
        × (parse_inner_classes f s' ≡ parsed inner (59 ∷ r))
  rest_complete _ zero k = absurd (omega arith)
  rest_complete (plain {s = s} d) (suc f) k = (s, no_arguments f d, suffix_complete d (suc f) k)
  rest_complete (generic {s = s} {s' = s'} d e) (suc f) k =
      let args = Arguments-complete d f (omega (arith, k)) in
      let short : length s' + 0 ≤ length s =
        parsed-Ends 0 (length s) args (loop-Ends f s (omega (arith, k))) in
      (s', args, suffix_complete e (suc f) (omega (arith, k, short)))

  suffix_complete :
      {s r : List ℕ} {inner : MaybeTypeUse}
      → Suffix s inner r
      → (f : ℕ) → 4 * length s + 1 ≤ f
      → parse_inner_classes f s ≡ parsed inner (59 ∷ r)
  suffix_complete _ zero k = absurd (omega arith)
  suffix_complete close (suc f) k = refl
  suffix_complete (inner_class {s = s} n h d) (suc f) k =
      let (s', args, inner) = rest_complete d f (omega (arith, k, length-append n s)) in
      rw
        (
          take_name-append ends_class_name n s h (ClassRest-Starts d),
          args,
          inner,
          parse_inner_classes,
        )
        refl

  Arguments-complete :
      {s r : List ℕ} {args : TypeUses}
      → Arguments s args r
      → (f : ℕ) → 4 * length s + 4 ≤ f
      → parse_arguments_loop f s ≡ parsed args r
  Arguments-complete _ zero k = absurd (omega arith)
  Arguments-complete (last d) (suc zero) k = absurd (omega (arith, k))
  Arguments-complete (last d) (suc (suc f)) k =
      loop_of_Argument (suc f) d ∙ rw (Argument-complete d (suc f) (omega (arith, k))) refl
  Arguments-complete (next {s = s} {s' = s'} d e) (suc f) k =
      let arg = Argument-complete d f (omega (arith, k)) in
      let short : length s' + 1 ≤ length s =
        parsed-Ends 1 (length s) arg (argument-Ends f s (omega (arith, k))) in
      loop_of_Argument f d ∙ rw (arg, Arguments-complete e f (omega (arith, k, short))) refl

  Argument-complete :
      {s r : List ℕ} {a : TypeUse}
      → Argument s a r
      → (f : ℕ) → 4 * length s + 3 ≤ f
      → parse_type_argument f s ≡ parsed a r
  Argument-complete _ zero k = absurd (omega arith)
  Argument-complete any (suc f) k = refl
  Argument-complete (extends d) (suc f) k =
      rw (Reference-complete d f (omega (arith, k)), parse_type_argument) refl
  Argument-complete (super d) (suc f) k =
      rw (Reference-complete d f (omega (arith, k)), parse_type_argument) refl
  Argument-complete (exact d) (suc f) k =
      argument_of_Reference f d ∙ Reference-complete d f (omega (arith, k))
