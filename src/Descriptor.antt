-- ===== src/Descriptor.antt =====
-- src/descriptor.rs: what the analyses read off a method descriptor. The descriptor is parsed by the
-- crate jdescriptor, whose functions are the record `Descriptors`.
pub mod Slots
use inspequte.Base.{ℕ, ◌+◌, ◌%◌, ◌^◌, Option, none, some, List, [], ◌∷◌, length}
use inspequte.Base.Result.{Result, ok, ◌>>=◌, context, parse_method_descriptor}
use Prim.Native.String.{String}

-- the variants of a `TypeDescriptor` that the source tells apart
pub data Variant : Type 0 where
  void long double array other : Variant
  object : String → Variant

-- `MethodDescriptor::from_str`, `return_type`, `parameter_types`, and a type's variant
pub record Descriptors : Type 1 where
  pub MethodDescriptor : Type 0
  pub TypeDescriptor : Type 0
  pub from_str : String → Option MethodDescriptor
  pub return_type : MethodDescriptor → TypeDescriptor
  pub parameter_types : MethodDescriptor → List TypeDescriptor
  pub variant : TypeDescriptor → Variant

pub data ReturnKind : Type 0 where
  void primitive reference : ReturnKind

pub record MethodDescriptorSummary : Type 0 where
  pub param_count : ℕ
  pub return_kind : ReturnKind

-- the `match` on the return type
abbrev pub kind_of : Variant → ReturnKind
kind_of Variant.void = ReturnKind.void
kind_of (Variant.object name) = ReturnKind.reference
kind_of Variant.array = ReturnKind.reference
kind_of Variant.long = ReturnKind.primitive
kind_of Variant.double = ReturnKind.primitive
kind_of Variant.other = ReturnKind.primitive

abbrev pub class_of : Variant → Option String
class_of (Variant.object name) = some name
class_of _ = none

abbrev pub width_of : Variant → ℕ
width_of Variant.long = 2
width_of Variant.double = 2
width_of _ = 1

module _ (descriptors : Descriptors) where
  unfoldable pub method_descriptor_summary : String → Result MethodDescriptorSummary
  method_descriptor_summary descriptor = do
    parsed ← context parse_method_descriptor (descriptors.from_str descriptor)
    ok (record {
      param_count = length (descriptors.parameter_types parsed);
      return_kind = kind_of (descriptors.variant (descriptors.return_type parsed));
    })

  unfoldable pub method_param_count : String → Result ℕ
  unfolding method_descriptor_summary
  method_param_count descriptor = do
    summary ← method_descriptor_summary descriptor
    ok summary.param_count

  unfoldable pub method_return_kind : String → Result ReturnKind
  unfolding method_descriptor_summary
  method_return_kind descriptor = do
    summary ← method_descriptor_summary descriptor
    ok summary.return_kind

  unfoldable pub method_return_class_name : String → Result (Option String)
  method_return_class_name descriptor = do
    desc ← context parse_method_descriptor (descriptors.from_str descriptor)
    ok (class_of (descriptors.variant (descriptors.return_type desc)))

  unfoldable pub slot_width : descriptors.TypeDescriptor → ℕ
  slot_width ty = width_of (descriptors.variant ty)

  -- the sum of the widths
  unfoldable pub sum_widths : List descriptors.TypeDescriptor → ℕ
  sum_widths [] = 0
  sum_widths (param ∷ params) = slot_width param + sum_widths params

  unfoldable pub method_param_slots : String → Result ℕ
  method_param_slots descriptor = do
    desc ← context parse_method_descriptor (descriptors.from_str descriptor)
    ok (sum_widths (descriptors.parameter_types desc))

  -- the loop, whose `slot` is a `u16`
  unfoldable pub start_slots : ℕ → List descriptors.TypeDescriptor → List ℕ
  start_slots slot [] = []
  start_slots slot (param ∷ params) = slot ∷ start_slots ((slot + slot_width param) % 2 ^ 16) params

  unfoldable pub method_param_start_slots : String → Result (List ℕ)
  method_param_start_slots descriptor = do
    desc ← context parse_method_descriptor (descriptors.from_str descriptor)
    ok (start_slots 0 (descriptors.parameter_types desc))
