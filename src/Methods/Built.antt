-- ===== src/Methods/Built.antt =====
-- The method that `parse_methods` of src/scan.rs builds, from its bytes to its graph.
use inspequte.Base.{
  ℕ, ◌+◌, ◌^◌, ◌≤◌, ◌<◌, ◌≡◌, ◌↔◌, ◌≢◌, refl, ap, Bool, true, Option, some, List, [], ◌∷◌, length,
  map, arith, All, ◌==◌,
}
use inspequte.Base.Result.{
  Result, ok, err, panic, Returns-bind, Outcome, Outcome-after, Outcome-bind, Outcome-value,
  Settles-value, Settles-if, settled,
}
use inspequte.Bytecode.Lengths.{Safe}
use inspequte.Bytecode.Parse.{Resolvers, Parsed, parse_bytecode}
use inspequte.Bytecode.Parse.Total.{IsSound, parse_bytecode_total}
use inspequte.Bytecode.Parse.Tiles.{Tiles, all_calls, all_literals, parse_bytecode-Tiles}
use inspequte.Cfg.{build_cfg}
use inspequte.Cfg.Blocks.{SortedFrom, Chained}
use inspequte.Cfg.Overflow.{Overflows}
use inspequte.Cfg.Correct.{IsGraphOf, build_cfg-IsGraphOf}
use inspequte.Dataflow.Worklist.Blocks.{Distinct}
use inspequte.Ir.{Instruction, BasicBlock, ExceptionHandler, Method}
use inspequte.Methods.{
  MethodInfo, ExceptionRecord, resolve_catch_type, parse_exception_handlers, finish_method,
  after_bytecode, parse_method,
}
use inspequte.Rules.LockRelease.{LockSite, has_exit_path_without_unlock}
use inspequte.Rules.LockRelease.Paths.{Leaks}
use inspequte.Rules.LockRelease.Space.{enough}
use inspequte.Rules.LockRelease.Found.{has_exit_path_without_unlock-Leaks}
use Prim.Native.String.{String}

Tiles-SortedFrom :
    (code : List ℕ) (lo offset : ℕ) (is : List Instruction)
    → lo ≤ offset
    → Tiles code offset is
    → SortedFrom lo is
Tiles-SortedFrom code lo offset [] h t = tt
Tiles-SortedFrom code lo offset (i ∷ is) h (e, _, (n, _, positive, _, t)) = (
  omega (arith, e, h),
  Tiles-SortedFrom code (i.offset + 1) (offset + n) is (omega (arith, e, positive)) t,
)

Tiles-inside :
    (code : List ℕ) (offset : ℕ) (is : List Instruction)
    → Tiles code offset is
    → All (λ (i : Instruction). i.offset < length code) is
Tiles-inside code offset [] t = tt
Tiles-inside code offset (i ∷ is) (e, _, (n, _, positive, fits, t)) =
    (omega (arith, e, positive, fits), Tiles-inside code (offset + n) is t)

Chained-beyond :
    (at end lo : ℕ) (bs : List BasicBlock)
    → lo < at
    → Chained at end bs
    → All (λ (c : BasicBlock). lo ≢ c.start_offset) bs
Chained-beyond at end lo [] h c = tt
Chained-beyond at end lo (b ∷ bs) h (e, forward, _, c) = (
  (λ same. absurd (omega (arith, h, e, same))),
  Chained-beyond b.end_offset end lo bs (omega (arith, h, forward)) c,
)

Chained-Distinct : (at end : ℕ) (bs : List BasicBlock) → Chained at end bs → Distinct bs
Chained-Distinct at end [] c = tt
Chained-Distinct at end (b ∷ bs) (e, forward, _, c) = (
  Chained-beyond b.end_offset end b.start_offset bs (omega (arith, e, forward)) c,
  Chained-Distinct b.end_offset end bs c,
)

-- What a method has to be: its instructions tile its code, its calls and literals are those of the
-- instructions, and its graph is one of them.
pub record IsMethodOf (code : List ℕ) (m : Method) : Type 0 where
  pub instructions : List Instruction
  pub bytecode : m.bytecode ≡ code
  pub tiles : Tiles code 0 instructions
  pub calls : m.calls ≡ all_calls instructions
  pub string_literals : m.string_literals ≡ all_literals instructions
  pub graph : IsGraphOf code instructions m.cfg

module _ (pool : Resolvers) (sound : IsSound pool) (resolve_class_name : ℕ → Result String)
    (resolves : (i : ℕ) → Safe (resolve_class_name i)) where
  catch_type-Safe : (i : ℕ) → Safe (resolve_catch_type pool resolve_class_name i)
  unfolding resolve_catch_type
  catch_type-Safe i = Settles-value (
      Settles-if (i == 0) (settled tt) (
        settled (
          Returns-bind (λ _. Unit {0}) (λ _. Unit {0}) (resolve_class_name i) _ (resolves i)
            λ name _. tt)))

  handlers-Safe :
      (table : List ExceptionRecord) → Safe (parse_exception_handlers pool resolve_class_name table)
  unfolding parse_exception_handlers
  handlers-Safe [] = tt
  handlers-Safe (entry ∷ table) =
      Returns-bind (λ _. Unit {0}) _ (resolve_catch_type pool resolve_class_name entry.catch_type) _
        (catch_type-Safe entry.catch_type)
        λ c _.
          Returns-bind (λ _. Unit {0}) _ (parse_exception_handlers pool resolve_class_name table) _
            (handlers-Safe table) λ hs _. tt

  -- the instructions of a code have a branch target that overflows an `i32`
  abbrev pub CodeOverflows : List ℕ → Type 0
  CodeOverflows code =
      (p : Parsed) × (parse_bytecode pool code ≡ some (ok p)) × Overflows code p.instructions

  finish_method-IsMethodOf :
      (info : MethodInfo) (p : Parsed)
      → length info.code < 2 ^ 32
      → Safe info.local_variables
      → Safe info.local_variable_types
      → Tiles info.code 0 p.instructions
        × (p.calls ≡ all_calls p.instructions)
        × (p.string_literals ≡ all_literals p.instructions)
      → Outcome
          (IsMethodOf info.code)
          (Overflows info.code p.instructions)
          (finish_method pool resolve_class_name info p)
  unfolding finish_method
  finish_method-IsMethodOf info p short lv lvt (tiles, calls, literals) =
      Outcome-after _ _ (λ _. Unit {0})
        (parse_exception_handlers pool resolve_class_name info.exception_table) _
        (handlers-Safe info.exception_table)
        λ hs _.
          Outcome-after _ _ (λ _. Unit {0}) info.local_variables _ lv
            λ ls _.
              Outcome-after _ _ (λ _. Unit {0}) info.local_variable_types _ lvt
                λ ts _.
                  Outcome-bind _ _ (IsGraphOf info.code p.instructions)
                    (build_cfg info.code p.instructions
                      (map (λ (h : ExceptionHandler). h.handler_pc) hs))
                    _
                    (build_cfg-IsGraphOf info.code p.instructions
                      (map (λ (h : ExceptionHandler). h.handler_pc) hs) short
                      (Tiles-SortedFrom info.code 0 0 p.instructions (omega arith) tiles)
                      (Tiles-inside info.code 0 p.instructions tiles))
                    λ cfg g. record {
                      instructions = p.instructions;
                      bytecode = refl;
                      tiles = tiles;
                      calls = calls;
                      string_literals = literals;
                      graph = g;
                    }

  explained :
      (code : List ℕ) (p : Parsed) (r : Result Method)
      → parse_bytecode pool code ≡ some (ok p)
      → Outcome (IsMethodOf code) (Overflows code p.instructions) r
      → Outcome (IsMethodOf code) (CodeOverflows code) r
  explained code p panic h o = (p, h, o)
  explained code p (err e) h o = tt
  explained code p (ok m) h o = o

  finished :
      (info : MethodInfo)
      → length info.code < 2 ^ 32
      → Safe info.local_variables
      → Safe info.local_variable_types
      → (r : Result Parsed) → parse_bytecode pool info.code ≡ some r
      → Safe r
      → (s : Result Method) × (parse_method pool resolve_class_name info ≡ some s)
        × Outcome (IsMethodOf info.code) (CodeOverflows info.code) s
  unfolding parse_method
  finished info short lv lvt (err e) h g =
      (err e, ap (after_bytecode pool resolve_class_name _) h, tt)
  finished info short lv lvt panic h g = elim g [ ]
  finished info short lv lvt (ok p) h g = (
    finish_method pool resolve_class_name info p,
    ap (after_bytecode pool resolve_class_name _) h,
    explained info.code p (finish_method pool resolve_class_name info p) h (
        finish_method-IsMethodOf info p short lv lvt
          (parse_bytecode-Tiles pool sound info.code short p h)),
  )

  -- For a code shorter than 2^32 bytes, when the lookups in the constant pool and the parsers of the
  -- local variable tables do not panic and no numeric literal is a call or a string (`IsSound`),
  -- building a method ends, a method that it returns has instructions that tile its code, the calls
  -- and literals of these, and a graph of these (`IsMethodOf`), and it panics only when a branch
  -- target of these instructions overflows an `i32`.
  pub parse_method-IsMethodOf :
      (info : MethodInfo)
      → length info.code < 2 ^ 32
      → Safe info.local_variables
      → Safe info.local_variable_types
      → (s : Result Method) × (parse_method pool resolve_class_name info ≡ some s)
        × Outcome (IsMethodOf info.code) (CodeOverflows info.code) s
  parse_method-IsMethodOf info short lv lvt =
      let (r, h, g) = parse_bytecode_total pool sound info.code in finished info short lv lvt r h g

  -- For a code shorter than 2^32 bytes,
  -- without a panic in the lookups of the constant pool and the parsers of the local variable tables, and
  -- no numeric literal that is a call or a string, the analysis of the lock rule on a method so
  -- built needs no condition on the graph: for any site and enough fuel it returns, without an error,
  -- whether a path leads from behind the site to the end of a block that no edge leaves and passes
  -- no unlock.
  pub parse_method-Leaks :
      (info : MethodInfo) (m : Method)
      → length info.code < 2 ^ 32
      → Safe info.local_variables
      → Safe info.local_variable_types
      → parse_method pool resolve_class_name info ≡ some (ok m)
      → (site : LockSite) (fuel : ℕ) → enough m site ≤ fuel
      → (b : Bool) × (has_exit_path_without_unlock fuel m site ≡ some (ok b))
        × ((b ≡ true) ↔ Leaks m site.block_start (site.instruction_index + 1))
  parse_method-Leaks info m short lv lvt h site fuel k =
      let (s, e, g) = parse_method-IsMethodOf info short lv lvt in
      let same : s ≡ ok m = some_same e h in
      let built = Outcome-value _ _ s g same in
      has_exit_path_without_unlock-Leaks m site
        (Chained-Distinct 0 (length info.code) m.cfg.blocks built.graph.chained) fuel k
    where
      some_same :
          {o : Option (Result Method)} {a b : Result Method} → o ≡ some a → o ≡ some b → a ≡ b
      some_same e f = cc (e, f)
