-- ===== src/Examples/Signatures.antt =====
-- Signatures, descriptors and annotations of a few types.
use inspequte.Base.{arith, ℕ, ◌≡◌, refl, some, List, [], ◌∷◌, map}
use inspequte.Base.Result.{ok}
use inspequte.Ir.{
  unknown, nullable, TypeUse, type_use, base, type_var, wildcard, ClassTypeUse, class_type_use,
  absent, present, nil, cons, MethodTypeUse,
}
use inspequte.Signature.{array_of, class_of}
use inspequte.Signature.Grammar.{
  latin, variable, reference_type, base_type, array_reference, class_reference, class_type, plain,
  generic, close, inner_class, last, extends,
}
use inspequte.Signature.Method.{parse_method_type_use_signature, parse_type_use_signature}
use inspequte.Signature.Method.Grammar.{
  MethodSignature, generic_method, next_parameter, no_parameter, class_bound, no_bound, next_type,
  no_type, type_return,
}
use inspequte.Signature.Method.Complete.{parse_method_type_use_signature-MethodSignature}
use inspequte.Signature.Method.Total.{Answers, signature_parsers_total}
use inspequte.TypeUses.{
  component, argument, TypePathEntry, step_of, apply_type_use_annotation, apply_default_nullness,
  integer_type, void_type, object_type, array_type, method_type_use_from_descriptor,
}
use inspequte.TypeUses.Paths.{
  at_path, defaulted, nullness_of, same_path, expected, apply_type_use_annotation_lem,
  apply_default_nullness_lem,
}
use inspequte.TypeUses.Descriptors.{
  next_descriptor, no_descriptor, void_descriptor, object_field, array_field, integer_field,
  parse_method_type_use_signature-method_type_use_from_descriptor,
}

-- <T:LA;>(TT;[I)LB<+TT;>.C;
abbrev signature : List ℕ
signature =
    60 ∷ 84 ∷ 58 ∷ 76 ∷ 65 ∷ 59 ∷ 62 ∷ 40 ∷ 84 ∷ 84 ∷ 59 ∷ 91 ∷ 73 ∷ 41 ∷ 76 ∷ 66 ∷ 60 ∷ 43 ∷ 84
    ∷ 84 ∷ 59 ∷ 62 ∷ 46 ∷ 67 ∷ 59 ∷ []

abbrev variable_use : TypeUse
variable_use = type_use unknown (type_var (latin (84 ∷ [])))

abbrev plain_class : ℕ → ClassTypeUse
plain_class b = class_type_use (latin (b ∷ [])) nil absent

abbrev method_type : MethodTypeUse
method_type = record {
  type_parameters =
      record {
        name = latin (84 ∷ []);
        class_bound = some (class_of (plain_class 65));
        interface_bounds = [];
      }
      ∷ [];
  parameters = variable_use ∷ array_of (type_use unknown (base 73)) ∷ [];
  return_type = some (
      class_of (
        class_type_use (latin (66 ∷ []))
          (cons (type_use unknown (wildcard (present variable_use))) nil)
          (present (class_of (plain_class 67)))));
}

signature-MethodSignature : MethodSignature signature method_type []
signature-MethodSignature =
    generic_method
      (next_parameter {b = 84} [] refl ((refl, tt), (omega arith, tt))
        (class_bound
          (class_reference (class_type (65 ∷ []) ((refl, tt), (omega arith, tt)) (plain close))))
        (no_bound refl) no_parameter)
      (next_type (reference_type (variable (84 ∷ []) ((refl, tt), (omega arith, tt))))
        (next_type (reference_type (array_reference (base_type refl))) no_type))
      (type_return (
        reference_type (
          class_reference (
            class_type (66 ∷ []) ((refl, tt), (omega arith, tt))
              (generic (last (extends (variable (84 ∷ []) ((refl, tt), (omega arith, tt)))))
                (inner_class (67 ∷ []) ((refl, tt), (omega arith, tt)) (plain close)))))))

parse_method_type_use_signature-MethodSignature_example :
    parse_method_type_use_signature signature ≡ some (ok method_type)
parse_method_type_use_signature-MethodSignature_example =
    parse_method_type_use_signature-MethodSignature signature-MethodSignature

signature_parsers_total_example :
    Answers (parse_method_type_use_signature signature)
    × Answers (parse_type_use_signature signature)
signature_parsers_total_example = signature_parsers_total signature

-- ([[ILA;)V
parse_method_type_use_signature-method_type_use_from_descriptor_example :
    parse_method_type_use_signature (40 ∷ 91 ∷ 91 ∷ 73 ∷ 76 ∷ 65 ∷ 59 ∷ 41 ∷ 86 ∷ [])
    ≡ some (
        ok (
          method_type_use_from_descriptor
            (array_type integer_type 2 ∷ object_type (latin (65 ∷ [])) ∷ [])
            void_type))
parse_method_type_use_signature-method_type_use_from_descriptor_example =
    parse_method_type_use_signature-method_type_use_from_descriptor
      (next_descriptor (array_field 2 integer_field)
        (next_descriptor (object_field (65 ∷ []) ((refl, tt), (omega arith, tt))) no_descriptor))
      void_descriptor

-- a list of arrays of `T`
abbrev nested : TypeUse
nested = class_of (class_type_use (latin (76 ∷ [])) (cons (array_of variable_use) nil) absent)

abbrev to_array : List TypePathEntry
to_array = record { path_kind = 3; path_index = 0 } ∷ []

apply_type_use_annotation_lem_example :
    at_path nullness_of (argument 0 ∷ []) (apply_type_use_annotation to_array nullable nested)
    ≡ expected
        (same_path (map step_of to_array) (argument 0 ∷ []))
        nullable
        (at_path nullness_of (argument 0 ∷ []) nested)
apply_type_use_annotation_lem_example =
    apply_type_use_annotation_lem to_array (argument 0 ∷ []) nullable nested

apply_default_nullness_lem_example :
    at_path nullness_of (argument 0 ∷ component ∷ []) (apply_default_nullness nested)
    ≡ at_path defaulted (argument 0 ∷ component ∷ []) nested
apply_default_nullness_lem_example = apply_default_nullness_lem (argument 0 ∷ component ∷ []) nested
