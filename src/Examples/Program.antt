-- ===== src/Examples/Program.antt =====
-- A descriptor of two parameters, two classes in a nested archive, and the interfaces of a class file.
use inspequte.Base.{
  ◌*◌, ◌≤◌, ◌+◌, ℕ, zero, suc, ◌^◌, ◌<◌, ◌≡◌, refl, Bool, true, false, Option, none, some, List, [],
  ◌∷◌, length, arith,
}
use inspequte.Base.Int.{ℤ, pos, negsuc}
use inspequte.Base.Result.{ok, Returns}
use inspequte.Ir.{Class}
use inspequte.ClassFile.{CpEntryMin, skip_fields, skip_methods, parse_interfaces_minimal}
use inspequte.ClassFile.Cursor.{Moves, class_file_cursor}
use inspequte.Descriptor.{
  Descriptors, Variant, sum_widths, slot_width, method_param_count, method_param_slots,
  method_param_start_slots, method_return_class_name,
}
use inspequte.Descriptor.Slots.{Laid, method_param_start_slots-Laid}
use inspequte.Engine.{ArtifactSet, partition_classes}
use inspequte.Engine.Partition.{IsSplit, partition_classes-IsSplit}

-- a parser that reads every descriptor as (JI)Ljava/lang/String;
abbrev descriptors : Descriptors
descriptors = record {
  MethodDescriptor = Unit {0};
  TypeDescriptor = Variant;
  from_str = λ s. some tt;
  return_type = λ d. Variant.object "java/lang/String";
  parameter_types = λ d. Variant.long ∷ Variant.other ∷ [];
  variant = λ v. v;
}

three_slots : sum_widths descriptors (Variant.long ∷ Variant.other ∷ []) < 2 ^ 16
unfolding sum_widths slot_width
three_slots = omega arith

method_param_start_slots-Laid_example :
    (slots : List ℕ) × (end : ℕ) × (method_param_start_slots descriptors "(JI)Ljava/lang/String;"
      ≡ ok slots)
    × (method_param_slots descriptors "(JI)Ljava/lang/String;" ≡ ok end)
    × (method_param_count descriptors "(JI)Ljava/lang/String;" ≡ ok (length slots))
    × Laid descriptors 0 slots (Variant.long ∷ Variant.other ∷ []) end
method_param_start_slots-Laid_example =
    method_param_start_slots-Laid descriptors "(JI)Ljava/lang/String;" {parsed = tt} refl
      three_slots

return_class :
    method_return_class_name descriptors "()Ljava/lang/String;" ≡ ok (some "java/lang/String")
unfolding method_return_class_name
return_class = refl

abbrev class_of_artifact : ℤ → Class
class_of_artifact index = record {
  name = "A";
  source_file = none;
  super_name = none;
  interfaces = [];
  type_parameters = [];
  referenced_classes = [];
  fields = [];
  methods = [];
  annotation_defaults = [];
  artifact_index = index;
  is_record = false;
}

-- artifact 0 is the target, artifact 1 lies in it, and all others stand alone
abbrev is_zero : ℤ → Bool
is_zero (pos zero) = true
is_zero _ = false

abbrev targets : ArtifactSet
targets = record { contains = is_zero; is_empty = false }

abbrev parents : ℤ → Option ℤ
parents (pos (suc zero)) = some (pos 0)
parents _ = none

abbrev depth : ℤ → ℕ
depth (pos n) = n
depth (negsuc n) = 0

parents-above : (i j : ℤ) → parents i ≡ some j → depth j < depth i
parents-above (pos zero) j h = cc
parents-above (pos (suc zero)) (pos n) h = ground (arith, h)
parents-above (pos (suc zero)) (negsuc n) h = cc
parents-above (pos (suc (suc n))) j h = cc
parents-above (negsuc n) j h = cc

abbrev classes : List Class
classes = class_of_artifact (pos 1) ∷ class_of_artifact (pos 2) ∷ []

partition_classes-IsSplit_example :
    (split : List Class × List Class) × (partition_classes 4 targets parents classes ≡ some split)
    × IsSplit targets parents depth parents-above classes split
partition_classes-IsSplit_example =
    partition_classes-IsSplit targets parents depth parents-above 4 classes refl
      (omega arith, (omega arith, tt))

-- one interface, the class that the third entry of the pool names
abbrev file : List ℕ
file = 0 ∷ 1 ∷ 0 ∷ 2 ∷ 0 ∷ 0 ∷ []

class_file_cursor_example :
    Moves file 2 0 (skip_fields file 0)
    × Moves file 2 0 (skip_methods file 0)
    × Returns
        (λ r. (r.1 ≡ 0 + 2 + 2 * length r.0) × (r.1 ≤ length file))
        (parse_interfaces_minimal file
          (CpEntryMin.other ∷ CpEntryMin.utf8 "A" ∷ [])
          (none ∷ none ∷ some 1 ∷ [])
          0)
class_file_cursor_example =
    class_file_cursor file 0 (CpEntryMin.other ∷ CpEntryMin.utf8 "A" ∷ [])
      (none ∷ none ∷ some 1 ∷ [])
