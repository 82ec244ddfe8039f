-- ===== src/Examples/Methods.antt =====
-- A method built from its bytes, with its lines, and the rule about locks on it.
use inspequte.Base.{
  ℕ, ◌≡◌, ◌↔◌, refl, Bool, true, false, Option, none, some, List, [], ◌∷◌, arith, leb→le,
}
use inspequte.Base.Int.{pos}
use inspequte.Base.Result.{Result, ok, err, unresolved, Outcome}
use inspequte.Examples.Code.{pool, pool-IsSound, code, instruction}
use inspequte.Base.BTree.{set_insert}
use inspequte.Base.Sorting.{sort_by_key, insert_by_key}
use inspequte.Bytecode.{opcode_length, read_u16}
use inspequte.Bytecode.Parse.{parse_loop, parse_step, decode_kind, decode_bipush}
use inspequte.Cfg.{
  leader_list, all_leaders, instruction_leaders, branch_targets, is_exit_opcode, read_i16,
  make_edges, make_blocks, is_unconditional_branch, next_block_start, targets_of_opcode, target_of,
}
use inspequte.Ir.{other, const_int, Method, EdgeKind, unknown_nullness, line_for_offset}
use inspequte.Methods.{
  LineRecord, MethodInfo, parse_method, collect_lines, parse_line_numbers, parse_exception_handlers,
  resolve_catch_type,
}
use inspequte.Methods.Lines.{IsLineAt, line_for_offset-parse_line_numbers}
use inspequte.Methods.Built.{CodeOverflows, IsMethodOf, parse_method-IsMethodOf, parse_method-Leaks}
use inspequte.Rules.LockRelease.{LockSite, has_exit_path_without_unlock}
use inspequte.Rules.LockRelease.Paths.{Leaks}
use Prim.Native.String.{String}

-- a constant pool without class names
abbrev resolve_class_name : ℕ → Result String
resolve_class_name i = err unresolved

abbrev tables : List (Option (List LineRecord))
tables =
    some
      (record { start_pc = 4; line_number = 12 } ∷ record { start_pc = 0; line_number = 11 } ∷ [])
    ∷ none
    ∷ some (record { start_pc = 6; line_number = 13 } ∷ [])
    ∷ []

abbrev info : MethodInfo
info = record {
  name = "pick";
  descriptor = "(I)I";
  signature = none;
  access = record {
    is_public = true;
    is_static = true;
    is_synchronized = false;
    is_abstract = false;
    is_synthetic = false;
    is_bridge = false;
  };
  nullness = unknown_nullness 1;
  type_use = none;
  code = code;
  exception_table = record { start_pc = 0; end_pc = 4; handler_pc = 6; catch_type = 0 } ∷ [];
  line_number_tables = tables;
  local_variables = ok [];
  local_variable_types = ok [];
}

abbrev method : Method
method = record {
  name = "pick";
  descriptor = "(I)I";
  signature = none;
  access = info.access;
  nullness = unknown_nullness 1;
  type_use = none;
  bytecode = code;
  line_numbers =
      record { start_pc = 0; line = 11 }
      ∷ record { start_pc = 4; line = 12 }
      ∷ record { start_pc = 6; line = 13 }
      ∷ [];
  cfg = record {
    blocks =
        record {
          start_offset = 0;
          end_offset = 4;
          instructions = instruction 0 26 (other 26) ∷ instruction 1 153 (other 153) ∷ [];
        }
        ∷ record {
          start_offset = 4;
          end_offset = 6;
          instructions = instruction 4 16 (const_int (pos 5)) ∷ [];
        }
        ∷ record {
          start_offset = 6;
          end_offset = 7;
          instructions = instruction 6 172 (other 172) ∷ [];
        }
        ∷ [];
    edges =
        record { from = 0; to = 6; kind = EdgeKind.branch }
        ∷ record { from = 0; to = 4; kind = EdgeKind.fall_through }
        ∷ record { from = 4; to = 6; kind = EdgeKind.fall_through }
        ∷ [];
  };
  calls = [];
  string_literals = [];
  exception_handlers = record { start_pc = 0; end_pc = 4; handler_pc = 6; catch_type = none } ∷ [];
  local_variables = [];
  local_variable_types = [];
}

method_built : parse_method pool resolve_class_name info ≡ some (ok method)
unfolding parse_method parse_loop parse_step opcode_length decode_kind decode_bipush leader_list
    all_leaders instruction_leaders branch_targets is_exit_opcode read_i16 read_u16 make_edges
    make_blocks set_insert is_unconditional_branch next_block_start sort_by_key insert_by_key
    collect_lines parse_exception_handlers resolve_catch_type targets_of_opcode target_of
method_built = refl

parse_method-IsMethodOf_example :
    (s : Result Method) × (parse_method pool resolve_class_name info ≡ some s)
    × Outcome
        (IsMethodOf code)
        (CodeOverflows pool pool-IsSound resolve_class_name (λ i. tt) code)
        s
parse_method-IsMethodOf_example =
    parse_method-IsMethodOf pool pool-IsSound resolve_class_name (λ i. tt) info (omega arith) tt tt

abbrev site : LockSite
site = record { block_start = 0; instruction_index = 0; offset = 0 }

parse_method-Leaks_example :
    (b : Bool) × (has_exit_path_without_unlock 200 method site ≡ some (ok b))
    × ((b ≡ true) ↔ Leaks method 0 1)
parse_method-Leaks_example =
    parse_method-Leaks pool pool-IsSound resolve_class_name (λ i. tt) info method (omega arith) tt
      tt method_built site 200 (leb→le _ _ refl)

lines_sorted : method.line_numbers ≡ parse_line_numbers tables
unfolding parse_line_numbers
lines_sorted = refl

line_for_offset-parse_line_numbers_example :
    IsLineAt (collect_lines tables) 5 (line_for_offset method 5)
line_for_offset-parse_line_numbers_example =
    line_for_offset-parse_line_numbers method tables 5 lines_sorted
