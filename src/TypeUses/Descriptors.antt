-- ===== src/TypeUses/Descriptors.antt =====
-- A descriptor is a signature too: `parse_field_type_use` and `parse_method_type_use` of src/scan.rs
-- read the one where the other is missing, and both give the same type.
use inspequte.Base.{ℕ, zero, suc, ◌≡◌, refl, sym, ap, subst, some, List, [], ◌∷◌, ◌++◌, map}
use inspequte.Base.Result.{ok}
use inspequte.Ir.{unknown, TypeUse, type_use, array}
use inspequte.Signature.{ends_class_name}
use inspequte.Signature.Grammar.{
  latin, Name, JavaType, base_type, reference_type, class_reference, array_reference, class_type,
  plain, close,
}
use inspequte.Signature.Method.{parse_method_type_use_signature, parse_type_use_signature}
use inspequte.Signature.Method.Grammar.{
  ParameterTypes, no_type, next_type, ReturnType, void_return, type_return, simple_method,
}
use inspequte.Signature.Method.Complete.{
  parse_method_type_use_signature-MethodSignature, parse_type_use_signature-JavaType,
}
use inspequte.TypeUses.{
  TypeDescriptor, byte_type, char_type, double_type, float_type, integer_type, long_type,
  short_type, boolean_type, void_type, object_type, array_type, arrays, return_use,
  type_use_from_descriptor, method_type_use_from_descriptor,
}

abbrev pub brackets : ℕ → List ℕ → List ℕ
brackets zero s = s
brackets (suc depth) s = 91 ∷ brackets depth s

-- FieldDescriptor of the Java Virtual Machine Specification, section 4.3.2, with class names in
-- ASCII: the input, the
-- descriptor, and the input that is left
pub data FieldDescriptor : List ℕ → TypeDescriptor → List ℕ → Type 0 where
  byte_field : {r : List ℕ} → FieldDescriptor (66 ∷ r) byte_type r
  char_field : {r : List ℕ} → FieldDescriptor (67 ∷ r) char_type r
  double_field : {r : List ℕ} → FieldDescriptor (68 ∷ r) double_type r
  float_field : {r : List ℕ} → FieldDescriptor (70 ∷ r) float_type r
  integer_field : {r : List ℕ} → FieldDescriptor (73 ∷ r) integer_type r
  long_field : {r : List ℕ} → FieldDescriptor (74 ∷ r) long_type r
  short_field : {r : List ℕ} → FieldDescriptor (83 ∷ r) short_type r
  boolean_field : {r : List ℕ} → FieldDescriptor (90 ∷ r) boolean_type r
  object_field :
      {r : List ℕ} (n : List ℕ)
      → Name ends_class_name n
      → FieldDescriptor (76 ∷ n ++ 59 ∷ r) (object_type (latin n)) r
  array_field :
      {s r : List ℕ} {t : TypeDescriptor} (depth : ℕ)
      → FieldDescriptor s t r
      → FieldDescriptor (brackets depth s) (array_type t depth) r

brackets_inside : (depth : ℕ) (s : List ℕ) → brackets depth (91 ∷ s) ≡ 91 ∷ brackets depth s
brackets_inside zero s = refl
brackets_inside (suc depth) s = ap (λ x. 91 ∷ x) (brackets_inside depth s)

arrays-JavaType :
    (depth : ℕ) (s r : List ℕ) (t : TypeUse)
    → JavaType s t r
    → JavaType (brackets depth s) (arrays depth t) r
arrays-JavaType zero s r t d = d
arrays-JavaType (suc depth) s r t d =
    subst (λ x. JavaType x (arrays depth (type_use unknown (array t))) r) (brackets_inside depth s)
      (arrays-JavaType depth (91 ∷ s) r (type_use unknown (array t))
        (reference_type (array_reference d)))

FieldDescriptor-JavaType :
    {s r : List ℕ} {t : TypeDescriptor}
    → FieldDescriptor s t r
    → JavaType s (type_use_from_descriptor t) r
unfolding type_use_from_descriptor
FieldDescriptor-JavaType byte_field = base_type refl
FieldDescriptor-JavaType char_field = base_type refl
FieldDescriptor-JavaType double_field = base_type refl
FieldDescriptor-JavaType float_field = base_type refl
FieldDescriptor-JavaType integer_field = base_type refl
FieldDescriptor-JavaType long_field = base_type refl
FieldDescriptor-JavaType short_field = base_type refl
FieldDescriptor-JavaType boolean_field = base_type refl
FieldDescriptor-JavaType (object_field n h) =
    reference_type (class_reference (class_type n h (plain close)))
FieldDescriptor-JavaType (array_field {s = s} {r = r} {t = t} depth d) =
    arrays-JavaType depth s r (type_use_from_descriptor t) (FieldDescriptor-JavaType d)

-- the types of the parameters, up to the closing parenthesis
pub data ParameterDescriptors : List ℕ → List TypeDescriptor → List ℕ → Type 0 where
  no_descriptor : {r : List ℕ} → ParameterDescriptors (41 ∷ r) [] r
  next_descriptor :
      {s s' r : List ℕ} {t : TypeDescriptor} {ts : List TypeDescriptor}
      → FieldDescriptor s t s'
      → ParameterDescriptors s' ts r
      → ParameterDescriptors s (t ∷ ts) r

pub data ReturnDescriptor : List ℕ → TypeDescriptor → Type 0 where
  void_descriptor : ReturnDescriptor (86 ∷ []) void_type
  field_descriptor :
      {s : List ℕ} {t : TypeDescriptor} → FieldDescriptor s t [] → ReturnDescriptor s t

ParameterDescriptors-ParameterTypes :
    {s r : List ℕ} {ts : List TypeDescriptor}
    → ParameterDescriptors s ts r
    → ParameterTypes s (map type_use_from_descriptor ts) r
ParameterDescriptors-ParameterTypes no_descriptor = no_type
ParameterDescriptors-ParameterTypes (next_descriptor d ds) =
    next_type (FieldDescriptor-JavaType d) (ParameterDescriptors-ParameterTypes ds)

return_use_of_field :
    {s r : List ℕ} {t : TypeDescriptor}
    → FieldDescriptor s t r
    → return_use t ≡ some (type_use_from_descriptor t)
return_use_of_field byte_field = refl
return_use_of_field char_field = refl
return_use_of_field double_field = refl
return_use_of_field float_field = refl
return_use_of_field integer_field = refl
return_use_of_field long_field = refl
return_use_of_field short_field = refl
return_use_of_field boolean_field = refl
return_use_of_field (object_field n h) = refl
return_use_of_field (array_field depth d) = refl

ReturnDescriptor-ReturnType :
    {s : List ℕ} {t : TypeDescriptor} → ReturnDescriptor s t → ReturnType s (return_use t) []
ReturnDescriptor-ReturnType void_descriptor = void_return
ReturnDescriptor-ReturnType (field_descriptor {s = s} d) =
    subst (λ x. ReturnType s x []) (sym (return_use_of_field d))
      (type_return (FieldDescriptor-JavaType d))

-- On a field descriptor whose class names are in ASCII, the parser of type signatures gives the type that
-- `type_use_from_descriptor` gives for the parsed descriptor.
pub parse_type_use_signature-type_use_from_descriptor :
    {s : List ℕ} {t : TypeDescriptor}
    → FieldDescriptor s t []
    → parse_type_use_signature s ≡ some (ok (type_use_from_descriptor t))
parse_type_use_signature-type_use_from_descriptor d =
    parse_type_use_signature-JavaType (FieldDescriptor-JavaType d)

-- On a method descriptor whose class names are in ASCII, the parser of method signatures gives the
-- types that `method_type_use_from_descriptor` gives for the parsed descriptor.
pub parse_method_type_use_signature-method_type_use_from_descriptor :
    {s s' : List ℕ} {ts : List TypeDescriptor} {t : TypeDescriptor}
    → ParameterDescriptors s ts s'
    → ReturnDescriptor s' t
    → parse_method_type_use_signature (40 ∷ s) ≡ some (ok (method_type_use_from_descriptor ts t))
unfolding method_type_use_from_descriptor
parse_method_type_use_signature-method_type_use_from_descriptor ds d =
    parse_method_type_use_signature-MethodSignature
      (simple_method (ParameterDescriptors-ParameterTypes ds) (ReturnDescriptor-ReturnType d))
