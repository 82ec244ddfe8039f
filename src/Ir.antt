-- ===== src/Ir.antt =====
-- src/ir.rs: the intermediate representation of parsed classes and methods. A `u16` or `u32` is a
-- native number, an `i64` an integer, and an `f64` its 64 bits.
use inspequte.Base.{ℕ, zero, suc, Bool, Option, none, some, List, [], ◌∷◌, leb, if◌then◌else◌}
use inspequte.Base.Int.{ℤ}
use Prim.Native.String.{String}

pub data Nullness : Type 0 where
  unknown non_null nullable : Nullness

-- `Option<Box<TypeUse>>` and `Vec<TypeUse>` stand in the block as `MaybeTypeUse` and `TypeUses`.
mutual
  pub data TypeUse : Type 0 where
    type_use : Nullness → TypeUseKind → TypeUse

  pub data TypeUseKind : Type 0 where
    base : ℕ → TypeUseKind
    array : TypeUse → TypeUseKind
    type_var : String → TypeUseKind
    class : ClassTypeUse → TypeUseKind
    wildcard : MaybeTypeUse → TypeUseKind
    void : TypeUseKind

  pub data ClassTypeUse : Type 0 where
    class_type_use : String → TypeUses → MaybeTypeUse → ClassTypeUse

  pub data MaybeTypeUse : Type 0 where
    absent : MaybeTypeUse
    present : TypeUse → MaybeTypeUse

  pub data TypeUses : Type 0 where
    nil : TypeUses
    cons : TypeUse → TypeUses → TypeUses

pub record TypeParameterUse : Type 0 where
  pub name : String
  pub class_bound : Option TypeUse
  pub interface_bounds : List TypeUse

pub record MethodTypeUse : Type 0 where
  pub type_parameters : List TypeParameterUse
  pub parameters : List TypeUse
  pub return_type : Option TypeUse

pub record MethodNullness : Type 0 where
  pub return_nullness : Nullness
  pub parameter_nullness : List Nullness

-- `vec![Nullness::Unknown; param_count]`
abbrev pub unknowns : ℕ → List Nullness
unknowns zero = []
unknowns (suc param_count) = unknown ∷ unknowns param_count

-- `MethodNullness::unknown`
abbrev pub unknown_nullness : ℕ → MethodNullness
unknown_nullness param_count = record {
  return_nullness = unknown;
  parameter_nullness = unknowns param_count;
}

pub data CallKind : Type 0 where
  virtual interface special static : CallKind

pub record CallSite : Type 0 where
  pub owner : String
  pub name : String
  pub descriptor : String
  pub kind : CallKind
  pub offset : ℕ

pub record FieldRef : Type 0 where
  pub owner : String
  pub name : String
  pub descriptor : String

pub data InstructionKind : Type 0 where
  invoke : CallSite → InstructionKind
  field_access : FieldRef → InstructionKind
  invoke_dynamic : String → Option String → InstructionKind
  const_string : String → InstructionKind
  const_class : String → InstructionKind
  const_int : ℤ → InstructionKind
  const_float : ℕ → InstructionKind
  other : ℕ → InstructionKind

pub record Instruction : Type 0 where
  pub offset : ℕ
  pub opcode : ℕ
  pub kind : InstructionKind

pub data EdgeKind : Type 0 where
  fall_through branch exception : EdgeKind

pub record FlowEdge : Type 0 where
  pub from : ℕ
  pub to : ℕ
  pub kind : EdgeKind

pub record BasicBlock : Type 0 where
  pub start_offset : ℕ
  pub end_offset : ℕ
  pub instructions : List Instruction

pub record ControlFlowGraph : Type 0 where
  pub blocks : List BasicBlock
  pub edges : List FlowEdge

pub record LineNumber : Type 0 where
  pub start_pc : ℕ
  pub line : ℕ

pub record ExceptionHandler : Type 0 where
  pub start_pc : ℕ
  pub end_pc : ℕ
  pub handler_pc : ℕ
  pub catch_type : Option String

pub record MethodAccess : Type 0 where
  pub is_public : Bool
  pub is_static : Bool
  pub is_synchronized : Bool
  pub is_abstract : Bool
  pub is_synthetic : Bool
  pub is_bridge : Bool

pub record LocalVariableType : Type 0 where
  pub name : String
  pub signature : String
  pub type_use : Option TypeUse
  pub index : ℕ
  pub start_pc : ℕ
  pub length : ℕ

pub record LocalVariable : Type 0 where
  pub name : String
  pub descriptor : String
  pub index : ℕ
  pub start_pc : ℕ
  pub length : ℕ

pub record Method : Type 0 where
  pub name : String
  pub descriptor : String
  pub signature : Option String
  pub access : MethodAccess
  pub nullness : MethodNullness
  pub type_use : Option MethodTypeUse
  pub bytecode : List ℕ
  pub line_numbers : List LineNumber
  pub cfg : ControlFlowGraph
  pub calls : List CallSite
  pub string_literals : List String
  pub exception_handlers : List ExceptionHandler
  pub local_variables : List LocalVariable
  pub local_variable_types : List LocalVariableType

pub record FieldAccess : Type 0 where
  pub is_static : Bool
  pub is_private : Bool
  pub is_final : Bool
  pub is_volatile : Bool

pub record Field : Type 0 where
  pub name : String
  pub descriptor : String
  pub signature : Option String
  pub type_use : Option TypeUse
  pub access : FieldAccess

pub data AnnotationDefaultNumeric : Type 0 where
  int : ℤ → AnnotationDefaultNumeric
  float : ℕ → AnnotationDefaultNumeric

pub record AnnotationDefaultValue : Type 0 where
  pub method_name : String
  pub method_descriptor : String
  pub value : AnnotationDefaultNumeric

pub record Class : Type 0 where
  pub name : String
  pub source_file : Option String
  pub super_name : Option String
  pub interfaces : List String
  pub type_parameters : List TypeParameterUse
  pub referenced_classes : List String
  pub fields : List Field
  pub methods : List Method
  pub annotation_defaults : List AnnotationDefaultValue
  pub artifact_index : ℤ
  pub is_record : Bool

-- the loop of `line_for_offset`: the line of the last entry before the first that starts later
unfoldable pub line_loop : ℕ → Option ℕ → List LineNumber → Option ℕ
line_loop offset candidate [] = candidate
line_loop offset candidate (entry ∷ entries) =
    let rest = line_loop offset (some entry.line) entries in
    if leb entry.start_pc offset then rest else candidate

unfoldable pub line_for_offset : Method → ℕ → Option ℕ
unfolding line_loop
line_for_offset m offset = line_loop offset none m.line_numbers
