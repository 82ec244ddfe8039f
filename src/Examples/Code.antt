-- ===== src/Examples/Code.antt =====
-- A small method: its bytes, its instructions and its graph.
use inspequte.Base.{ℕ, ◌≤◌, ◌≡◌, refl, none, some, List, [], ◌∷◌, arith}
use inspequte.Base.Int.{pos}
use inspequte.Base.Result.{Result, ok, err, unresolved, Returns, Outcome}
use inspequte.Ir.{Instruction, InstructionKind, const_int, other}
use inspequte.Bytecode.{opcode_length}
use inspequte.Bytecode.Lengths.{Safe, opcode_length-AtLeastOne}
use inspequte.Bytecode.Parse.{
  Resolvers, Parsed, parse_bytecode, parse_loop, parse_step, decode_kind, decode_bipush,
}
use inspequte.Bytecode.Parse.Total.{IsSound, parse_bytecode_total}
use inspequte.Bytecode.Parse.Tiles.{Tiles, all_calls, all_literals, parse_bytecode-Tiles}
use inspequte.Cfg.{branch_targets, build_cfg}
use inspequte.Cfg.Targets.{OverflowAt, branch_targets-OverflowAt}
use inspequte.Cfg.Overflow.{Overflows}
use inspequte.Cfg.Correct.{IsGraphOf, build_cfg-IsGraphOf}

-- a pool in which every lookup of a name fails and no constant is a literal
abbrev pub pool : Resolvers
pool = record {
  resolve_method_ref = λ i. err unresolved;
  resolve_field_ref = λ i. err unresolved;
  resolve_string_literal = λ i. ok none;
  resolve_class_literal = λ i. ok none;
  resolve_numeric_literal = λ i. ok (some (const_int (pos i)));
  resolve_invoke_dynamic_descriptor = λ i. err unresolved;
  resolve_invoke_dynamic_impl_method = λ i. none;
}

pub pool-IsSound : IsSound pool
pool-IsSound = record {
  method_ref = λ i. tt;
  field_ref = λ i. tt;
  string_literal = λ i. tt;
  class_literal = λ i. tt;
  numeric_literal = λ i. (refl, refl);
  descriptor = λ i. tt;
}

-- iload_0; ifeq 6; bipush 5; ireturn
abbrev pub code : List ℕ
code = 26 ∷ 153 ∷ 0 ∷ 5 ∷ 16 ∷ 5 ∷ 172 ∷ []

abbrev pub instruction : ℕ → ℕ → InstructionKind → Instruction
instruction offset opcode kind = record { offset = offset; opcode = opcode; kind = kind }

abbrev parsed : Parsed
parsed = record {
  instructions =
      instruction 0 26 (other 26)
      ∷ instruction 1 153 (other 153)
      ∷ instruction 4 16 (const_int (pos 5))
      ∷ instruction 6 172 (other 172)
      ∷ [];
  calls = [];
  string_literals = [];
}

parsed_lem : parse_bytecode pool code ≡ some (ok parsed)
unfolding parse_bytecode parse_loop parse_step opcode_length decode_kind decode_bipush
parsed_lem = refl

opcode_length-AtLeastOne_example : Returns (λ n. 1 ≤ n) (opcode_length code 1)
opcode_length-AtLeastOne_example = opcode_length-AtLeastOne code 1 (omega arith)

parse_bytecode_total_example : (r : Result Parsed) × (parse_bytecode pool code ≡ some r) × Safe r
parse_bytecode_total_example = parse_bytecode_total pool pool-IsSound code

parse_bytecode-Tiles_example :
    Tiles code 0 parsed.instructions
    × (parsed.calls ≡ all_calls parsed.instructions)
    × (parsed.string_literals ≡ all_literals parsed.instructions)
parse_bytecode-Tiles_example =
    parse_bytecode-Tiles pool pool-IsSound code (omega arith) parsed parsed_lem

branch_targets-OverflowAt_example :
    Outcome (λ _. Unit {0}) (OverflowAt code 1) (branch_targets code 1)
branch_targets-OverflowAt_example = branch_targets-OverflowAt code 1 (omega arith)

build_cfg-IsGraphOf_example :
    Outcome
      (IsGraphOf code parsed.instructions)
      (Overflows code parsed.instructions)
      (build_cfg code parsed.instructions [])
build_cfg-IsGraphOf_example =
    build_cfg-IsGraphOf code parsed.instructions [] (omega arith)
      (omega arith, (omega arith, (omega arith, (omega arith, tt))))
      (omega arith, (omega arith, (omega arith, (omega arith, tt))))
