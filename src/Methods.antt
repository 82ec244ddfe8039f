-- ===== src/Methods.antt =====
-- `parse_methods` of src/scan.rs, for one method, from its code attribute on: the line numbers, the
-- exception handlers, the instructions and the graph become a `Method`.
pub mod Built
pub mod Lines
use inspequte.Base.{
  ℕ, zero, suc, Bool, Option, none, some, List, [], ◌∷◌, ◌++◌, map, ◌==◌, if◌then◌else◌,
}
use inspequte.Base.Result.{Result, ok, err, panic, ◌>>=◌}
use inspequte.Base.Sorting.{sort_by_key}
use inspequte.Bytecode.Parse.{Resolvers, Parsed, parse_bytecode}
use inspequte.Cfg.{build_cfg}
use inspequte.Ir.{
  Instruction, LineNumber, ExceptionHandler, LocalVariable, LocalVariableType, ControlFlowGraph,
  MethodAccess, MethodNullness, MethodTypeUse, Method,
}
use Prim.Native.String.{String}

-- the accessors of the crate jclassfile's line number records
pub record LineRecord : Type 0 where
  pub start_pc : ℕ
  pub line_number : ℕ

-- an attribute: a line number table, or another
abbrev pub line_entries : List LineRecord → List LineNumber
line_entries records =
    map (λ (r : LineRecord). record { start_pc = r.start_pc; line = r.line_number }) records

unfoldable pub collect_lines : List (Option (List LineRecord)) → List LineNumber
collect_lines [] = []
collect_lines (none ∷ attributes) = collect_lines attributes
collect_lines (some table ∷ attributes) = line_entries table ++ collect_lines attributes

unfoldable pub parse_line_numbers : List (Option (List LineRecord)) → List LineNumber
unfolding collect_lines sort_by_key
parse_line_numbers attributes = sort_by_key (λ entry. entry.start_pc) (collect_lines attributes)

-- the accessors of the crate's exception records
pub record ExceptionRecord : Type 0 where
  pub start_pc : ℕ
  pub end_pc : ℕ
  pub handler_pc : ℕ
  pub catch_type : ℕ

abbrev pub handler_of : ExceptionRecord → Option String → ExceptionHandler
handler_of entry catch_type = record {
  start_pc = entry.start_pc;
  end_pc = entry.end_pc;
  handler_pc = entry.handler_pc;
  catch_type = catch_type;
}

-- what `parse_methods` has of a method before its code, with the results of the two parsers of the
-- local variable tables
pub record MethodInfo : Type 0 where
  pub name : String
  pub descriptor : String
  pub signature : Option String
  pub access : MethodAccess
  pub nullness : MethodNullness
  pub type_use : Option MethodTypeUse
  pub code : List ℕ
  pub exception_table : List ExceptionRecord
  pub line_number_tables : List (Option (List LineRecord))
  pub local_variables : Result (List LocalVariable)
  pub local_variable_types : Result (List LocalVariableType)

-- `resolve_class_name` looks a class up in the constant pool.
module _ (pool : Resolvers) (resolve_class_name : ℕ → Result String) where
  unfoldable pub resolve_catch_type : ℕ → Result (Option String)
  resolve_catch_type catch_type =
      if catch_type == 0 then ok none else (do name ← resolve_class_name catch_type; ok (some name))

  unfoldable pub parse_exception_handlers : List ExceptionRecord → Result (List ExceptionHandler)
  unfolding resolve_catch_type
  parse_exception_handlers [] = ok []
  parse_exception_handlers (entry ∷ table) = do
    catch_type ← resolve_catch_type entry.catch_type
    handlers ← parse_exception_handlers table
    ok (handler_of entry catch_type ∷ handlers)

  -- from the parsed bytecode on
  unfoldable pub finish_method : MethodInfo → Parsed → Result Method
  unfolding parse_exception_handlers parse_line_numbers build_cfg
  finish_method info parsed = do
    exception_handlers ← parse_exception_handlers info.exception_table
    local_variables ← info.local_variables
    local_variable_types ← info.local_variable_types
    cfg ←
        build_cfg info.code parsed.instructions
          (map (λ (handler : ExceptionHandler). handler.handler_pc) exception_handlers)
    ok (record {
      name = info.name;
      descriptor = info.descriptor;
      signature = info.signature;
      access = info.access;
      nullness = info.nullness;
      type_use = info.type_use;
      bytecode = info.code;
      line_numbers = parse_line_numbers info.line_number_tables;
      cfg = cfg;
      calls = parsed.calls;
      string_literals = parsed.string_literals;
      exception_handlers = exception_handlers;
      local_variables = local_variables;
      local_variable_types = local_variable_types;
    })

  abbrev pub after_bytecode :
      (Parsed → Result Method) → Option (Result Parsed) → Option (Result Method)
  after_bytecode finish none = none
  after_bytecode finish (some r) = some (r >>= finish)

  -- on the fuel of `parse_bytecode`
  unfoldable pub parse_method : MethodInfo → Option (Result Method)
  unfolding finish_method parse_bytecode
  parse_method info = after_bytecode (finish_method info) (parse_bytecode pool info.code)
