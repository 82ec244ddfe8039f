-- ===== src/Bytecode/Parse.antt =====
-- `parse_bytecode` of src/scan.rs. The constant pool is a value of the crate jclassfile, so the
-- functions that look an index up in it are parameters (`Resolvers`).
pub mod Tiles
pub mod Total
use inspequte.Base.{
  ℕ, zero, suc, ◌+◌, ◌%◌, ◌^◌, Bool, ◌&&◌, ◌||◌, Option, none, some, List, [], ◌∷◌, ◌++◌, length,
  get_elem?, leb, ltb, ◌==◌, if◌then◌else◌,
}
use inspequte.Base.Int.{ℤ, pos}
use inspequte.Base.Result.{
  Result, ok, err, panic, ◌>>=◌, context, invalid_bytecode_length, bipush_operand, sipush_operand,
  ldc_index,
}
use inspequte.Bytecode.{byte_at, get_range, u16_of, i16_of, i8_of, read_u16, opcode_length}
use inspequte.Ir.{
  CallKind, CallSite, FieldRef, InstructionKind, invoke, field_access, invoke_dynamic, const_string,
  const_class, const_int, other, Instruction,
}
use inspequte.Opcodes
use Prim.Native.String.{String}

pub record MethodRef : Type 0 where
  pub owner : String
  pub name : String
  pub descriptor : String

-- the lookups in the constant pool and the bootstrap methods
pub record Resolvers : Type 0 where
  pub resolve_method_ref : ℕ → Result MethodRef
  pub resolve_field_ref : ℕ → Result FieldRef
  pub resolve_string_literal : ℕ → Result (Option String)
  pub resolve_class_literal : ℕ → Result (Option String)
  pub resolve_numeric_literal : ℕ → Result (Option InstructionKind)
  pub resolve_invoke_dynamic_descriptor : ℕ → Result String
  pub resolve_invoke_dynamic_impl_method : ℕ → Option String

-- the three vectors that the loop fills
pub record Parsed : Type 0 where
  pub instructions : List Instruction
  pub calls : List CallSite
  pub string_literals : List String

-- an instruction's kind, with what its arm of the `match` pushes
pub record Decoded : Type 0 where
  pub kind : InstructionKind
  pub calls : List CallSite
  pub string_literals : List String

abbrev pub plain : InstructionKind → Decoded
plain kind = record { kind = kind; calls = []; string_literals = [] }

abbrev pub call_kind : ℕ → CallKind
call_kind opcode =
    if opcode == Opcodes.invokevirtual
    then CallKind.virtual
    else if opcode == Opcodes.invokespecial
    then CallKind.special
    else if opcode == Opcodes.invokestatic
    then CallKind.static
    else if opcode == Opcodes.invokeinterface
    then CallKind.interface
    else CallKind.virtual

module _ (pool : Resolvers) (code : List ℕ) where
  unfoldable pub decode_invoke : ℕ → ℕ → Result Decoded
  decode_invoke opcode offset = do
    method_index ← read_u16 code (offset + 1)
    method_ref ← pool.resolve_method_ref method_index
    let call : CallSite = record {
      owner = method_ref.owner;
      name = method_ref.name;
      descriptor = method_ref.descriptor;
      kind = call_kind opcode;
      offset = offset % 2 ^ 32;
    }
    ok (record { kind = invoke call; calls = call ∷ []; string_literals = [] })

  unfoldable pub decode_field : ℕ → Result Decoded
  decode_field offset = do
    field_index ← read_u16 code (offset + 1)
    field_ref ← pool.resolve_field_ref field_index
    ok (plain (field_access field_ref))

  unfoldable pub decode_bipush : ℕ → Result Decoded
  decode_bipush offset = do
    value ← context bipush_operand (get_elem? code (offset + 1))
    ok (plain (const_int (i8_of value)))

  unfoldable pub decode_sipush : ℕ → Result Decoded
  decode_sipush offset = do
    bytes ← context sipush_operand (get_range code (offset + 1) (offset + 3))
    value ← u16_of bytes
    ok (plain (const_int (i16_of value)))

  -- the chain of `if let … else if let …` of the three load-constant opcodes
  abbrev pub numeric_or : ℕ → Option InstructionKind → Decoded
  numeric_or opcode (some kind) = plain kind
  numeric_or opcode none = plain (other opcode)

  abbrev pub class_or : ℕ → ℕ → Option String → Result Decoded
  class_or opcode index (some value) = ok (plain (const_class value))
  class_or opcode index none = do
    numeric ← pool.resolve_numeric_literal index
    ok (numeric_or opcode numeric)

  abbrev pub string_or : ℕ → ℕ → Option String → Result Decoded
  string_or opcode index (some value) =
      ok (record { kind = const_string value; calls = []; string_literals = value ∷ [] })
  string_or opcode index none = pool.resolve_class_literal index >>= class_or opcode index

  unfoldable pub decode_constant : ℕ → ℕ → Result Decoded
  decode_constant opcode index = pool.resolve_string_literal index >>= string_or opcode index

  unfoldable pub decode_invoke_dynamic : ℕ → Result Decoded
  decode_invoke_dynamic offset = do
    call_site_index ← read_u16 code (offset + 1)
    descriptor ← pool.resolve_invoke_dynamic_descriptor call_site_index
    ok (plain (invoke_dynamic descriptor (pool.resolve_invoke_dynamic_impl_method call_site_index)))

  -- the `match opcode` of the loop body
  unfoldable pub decode_kind : ℕ → ℕ → Result Decoded
  decode_kind opcode offset =
      if opcode == Opcodes.invokevirtual
        || opcode == Opcodes.invokespecial
        || opcode == Opcodes.invokestatic
        || opcode == Opcodes.invokeinterface
      then decode_invoke opcode offset
      else if opcode == Opcodes.getfield
          || opcode == Opcodes.putfield
          || opcode == Opcodes.getstatic
          || opcode == Opcodes.putstatic
      then decode_field offset
      else if opcode == Opcodes.bipush
      then decode_bipush offset
      else if opcode == Opcodes.sipush
      then decode_sipush offset
      else if opcode == Opcodes.ldc
      then context ldc_index (get_elem? code (offset + 1)) >>= decode_constant opcode
      else if opcode == Opcodes.ldc_w || opcode == Opcodes.ldc2_w
      then read_u16 code (offset + 1) >>= decode_constant opcode
      else if opcode == Opcodes.invokedynamic
      then decode_invoke_dynamic offset
      else ok (plain (other opcode))

  abbrev pub push_instruction : ℕ → ℕ → Decoded → Parsed → Parsed
  push_instruction offset opcode d p = record {
    instructions =
        p.instructions ++ record { offset = offset % 2 ^ 32; opcode = opcode; kind = d.kind } ∷ [];
    calls = p.calls ++ d.calls;
    string_literals = p.string_literals ++ d.string_literals;
  }

  -- `if length == 0 || offset + length > code.len() { bail }`
  abbrev pub check_length : ℕ → ℕ → Result (Unit {0})
  check_length offset n =
      if n == 0 || ltb (length code) (offset + n) then err invalid_bytecode_length else ok tt

  -- the body of the `while` loop: the next offset and the extended vectors
  unfoldable pub parse_step : ℕ → Parsed → Result (ℕ × Parsed)
  parse_step offset p = do
    opcode ← byte_at code offset
    n ← opcode_length code offset
    _ ← check_length offset n
    d ← decode_kind opcode offset
    ok (offset + n, push_instruction offset opcode d p)

  -- the next round, or the early return of an error
  abbrev pub next_round :
      (ℕ → Parsed → Option (Result Parsed)) → Result (ℕ × Parsed) → Option (Result Parsed)
  next_round continue (ok (offset, p)) = continue offset p
  next_round continue (err e) = some (err e)
  next_round continue panic = some panic

  -- `none` when the fuel runs out
  unfoldable pub parse_loop : ℕ → ℕ → Parsed → Option (Result Parsed)
  parse_loop zero offset p = none
  parse_loop (suc fuel) offset p =
      if ltb offset (length code)
      then next_round (parse_loop fuel) (parse_step offset p)
      else some (ok p)

  unfoldable pub parse_bytecode : Option (Result Parsed)
  parse_bytecode =
      parse_loop (suc (length code)) 0
        (record { instructions = []; calls = []; string_literals = [] })
