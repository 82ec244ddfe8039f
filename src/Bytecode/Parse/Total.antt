-- ===== src/Bytecode/Parse/Total.antt =====
-- The loop of `parse_bytecode` of src/scan.rs.
use inspequte.Base.{
  ℕ, zero, suc, ◌+◌, ◌-◌, ◌≤◌, ◌<◌, ◌≡◌, refl, sym, ap, ◌∙◌, Option, none, some, List, [], ◌∷◌,
  length, get_elem?, arith, ltb, ltb→lt, ◌==◌, ◌||◌, Bool-cases, inl, inr,
}
use inspequte.Base.Result.{
  Result, ok, err, panic, ◌>>=◌, context, Returns, Returns-bind, Returns-context, Settles, settled,
  Settles-value, Settles-if, bipush_operand, sipush_operand, ldc_index,
}
use inspequte.Bytecode.{get_range, byte_at, read_u16, u16_of, opcode_length}
use inspequte.Bytecode.Lengths.{
  Safe, read_u16-Safe, u16_of-Safe, context-Returns, length-get_range, byte_at-Safe,
  opcode_length-AtLeastOne,
}
use inspequte.Bytecode.Parse.{
  Resolvers, Parsed, Decoded, plain, decode_invoke, decode_field, decode_bipush, decode_sipush,
  numeric_or, class_or, string_or, decode_constant, decode_invoke_dynamic, decode_kind,
  check_length, parse_step, next_round, parse_loop, parse_bytecode,
}
use inspequte.Ir.{CallSite, InstructionKind, invoke, const_string, other}
use Prim.Native.String.{String}

-- the call site and the string literal of an instruction
abbrev pub calls_of : InstructionKind → List CallSite
calls_of (invoke call) = call ∷ []
calls_of _ = []

abbrev pub literals_of : InstructionKind → List String
literals_of (const_string value) = value ∷ []
literals_of _ = []

-- The vectors of a decoded instruction hold what its kind shows.
abbrev pub Consistent : Decoded → Type 0
Consistent d = (d.calls ≡ calls_of d.kind) × (d.string_literals ≡ literals_of d.kind)

abbrev pub Numeric : Option InstructionKind → Type 0
Numeric none = Unit
Numeric (some kind) = (calls_of kind ≡ []) × (literals_of kind ≡ [])

-- What the parser relies on: no lookup panics, and a numeric literal is neither a call nor a string.
pub record IsSound (pool : Resolvers) : Type 0 where
  pub method_ref : (i : ℕ) → Safe (pool.resolve_method_ref i)
  pub field_ref : (i : ℕ) → Safe (pool.resolve_field_ref i)
  pub string_literal : (i : ℕ) → Safe (pool.resolve_string_literal i)
  pub class_literal : (i : ℕ) → Safe (pool.resolve_class_literal i)
  pub numeric_literal : (i : ℕ) → Returns Numeric (pool.resolve_numeric_literal i)
  pub descriptor : (i : ℕ) → Safe (pool.resolve_invoke_dynamic_descriptor i)

abbrev Good : Result Decoded → Type 0
Good = Settles Consistent

other-Good : (opcode : ℕ) → Good (ok (plain (other opcode)))
other-Good opcode = settled (refl, refl)

module _ (pool : Resolvers) (sound : IsSound pool) (code : List ℕ) where
  read_then {ℓ} :
      {A : Type ℓ} (r : Result A) (f : A → Result Decoded)
      → Safe r
      → ((a : A) → Returns Consistent (f a))
      → Returns Consistent (r >>= f)
  read_then r f h next = Returns-bind (λ _. Unit {0}) Consistent r f h (λ a _. next a)

  decode_invoke-Good : (opcode offset : ℕ) → Good (decode_invoke pool code opcode offset)
  unfolding decode_invoke
  decode_invoke-Good opcode offset = settled (
      read_then (read_u16 code (offset + 1)) _ (read_u16-Safe code (offset + 1))
        λ i. read_then (pool.resolve_method_ref i) _ (sound.method_ref i) λ r. (refl, refl))

  decode_field-Good : (offset : ℕ) → Good (decode_field pool code offset)
  unfolding decode_field
  decode_field-Good offset = settled (
      read_then (read_u16 code (offset + 1)) _ (read_u16-Safe code (offset + 1))
        λ i. read_then (pool.resolve_field_ref i) _ (sound.field_ref i) λ r. (refl, refl))

  decode_bipush-Good : (offset : ℕ) → Good (decode_bipush pool code offset)
  unfolding decode_bipush
  decode_bipush-Good offset = settled (
      read_then (context bipush_operand (get_elem? code (offset + 1))) _
        (Returns-context _ (get_elem? code (offset + 1))) λ v. (refl, refl))

  decode_sipush-Good : (offset : ℕ) → Good (decode_sipush pool code offset)
  unfolding decode_sipush
  decode_sipush-Good offset = settled (
      Returns-bind (λ s. length s ≡ 2) Consistent
        (context sipush_operand (get_range code (offset + 1) (offset + 3))) _
        (context-Returns _ sipush_operand (get_range code (offset + 1) (offset + 3)) two)
        λ s h. read_then (u16_of s) _ (u16_of-Safe s h) λ v. (refl, refl))
    where
      two : (s : List ℕ) → get_range code (offset + 1) (offset + 3) ≡ some s → length s ≡ 2
      two s e =
          length-get_range code (offset + 1) 2 (ap (get_range code (offset + 1)) (omega arith) ∙ e)

  string_or-Good :
      (opcode index : ℕ) (o : Option String)
      → Returns Consistent (string_or pool code opcode index o)
  string_or-Good opcode index (some value) = (refl, refl)
  string_or-Good opcode index none =
      read_then (pool.resolve_class_literal index) _ (sound.class_literal index)
        (class_or-Good opcode index)
    where
      numeric_or-Good :
          (opcode : ℕ) (k : Option InstructionKind)
          → Numeric k
          → Consistent (numeric_or pool code opcode k)
      numeric_or-Good opcode none h = (refl, refl)
      numeric_or-Good opcode (some kind) h = (sym h.0, sym h.1)

      class_or-Good :
          (opcode index : ℕ) (o : Option String)
          → Returns Consistent (class_or pool code opcode index o)
      class_or-Good opcode index (some value) = (refl, refl)
      class_or-Good opcode index none =
          Returns-bind Numeric Consistent (pool.resolve_numeric_literal index) _
            (sound.numeric_literal index) (numeric_or-Good opcode)

  decode_constant-Returns :
      (opcode index : ℕ) → Returns Consistent (decode_constant pool code opcode index)
  unfolding decode_constant
  decode_constant-Returns opcode index =
      read_then (pool.resolve_string_literal index) _ (sound.string_literal index)
        (string_or-Good opcode index)

  decode_invoke_dynamic-Good : (offset : ℕ) → Good (decode_invoke_dynamic pool code offset)
  unfolding decode_invoke_dynamic
  decode_invoke_dynamic-Good offset = settled (
      read_then (read_u16 code (offset + 1)) _ (read_u16-Safe code (offset + 1)) λ i.
        read_then (pool.resolve_invoke_dynamic_descriptor i) _ (sound.descriptor i)
          λ r. (refl, refl))

  decode_kind-Good : (opcode offset : ℕ) → Good (decode_kind pool code opcode offset)
  unfolding decode_kind
  decode_kind-Good opcode offset = Settles-if _ (decode_invoke-Good opcode offset) (
      Settles-if _ (decode_field-Good offset) (
        Settles-if _ (decode_bipush-Good offset) (
          Settles-if _ (decode_sipush-Good offset) (
            Settles-if _
              (settled (
                read_then (context ldc_index (get_elem? code (offset + 1))) _
                  (Returns-context _ (get_elem? code (offset + 1)))
                  (decode_constant-Returns opcode)))
              (Settles-if _
                (settled (
                  read_then (read_u16 code (offset + 1)) _ (read_u16-Safe code (offset + 1))
                    (decode_constant-Returns opcode)))
                (Settles-if _ (decode_invoke_dynamic-Good offset) (other-Good opcode)))))))

  pub decode_kind-Returns :
      (opcode offset : ℕ) → Returns Consistent (decode_kind pool code opcode offset)
  decode_kind-Returns opcode offset = Settles-value (decode_kind-Good opcode offset)

  -- the next offset of one round
  Advances : ℕ → ℕ × Parsed → Type 0
  Advances offset r = (offset < r.0) × (r.0 ≤ length code)

  parse_step-Advances :
      (offset : ℕ) (p : Parsed)
      → offset < length code
      → Returns (Advances offset) (parse_step pool code offset p)
  unfolding parse_step Advances
  parse_step-Advances offset p h =
      Returns-bind (λ _. Unit {0}) _ (byte_at code offset) _ (byte_at-Safe code offset h)
        λ opcode _.
          Returns-bind (λ n. 1 ≤ n) _ (opcode_length code offset) _
            (opcode_length-AtLeastOne code offset h)
            λ n pos_n.
              Returns-bind (λ _. offset + n ≤ length code) _ (check_length pool code offset n) _
                (check_length-Returns offset n)
                λ _ fits.
                  Returns-bind Consistent _ (decode_kind pool code opcode offset) _
                    (decode_kind-Returns opcode offset) λ d _. (omega arith, fits)
    where
      check_length-Returns :
          (offset n : ℕ) → Returns (λ _. offset + n ≤ length code) (check_length pool code offset n)
      check_length-Returns offset n = elim (Bool-cases (n == 0 || ltb (length code) (offset + n))) [
        | inl bad ↦ rw bad tt
        | inr fine ↦ rw fine (ground arith)
      ]

  round_total :
      (continue : ℕ → Parsed → Option (Result Parsed)) (offset : ℕ) (s : Result (ℕ × Parsed))
      → Returns (Advances offset) s
      → ((o : ℕ) (p : Parsed) → offset < o → (r : Result Parsed) × (continue o p ≡ some r) × Safe r)
      → (r : Result Parsed) × (next_round pool code continue s ≡ some r) × Safe r
  unfolding Advances
  round_total continue offset (ok (o, p)) a next = next o p a.0
  round_total continue offset (err e) a next = (err e, refl, tt)
  round_total continue offset panic a next = elim a [ ]

  parse_loop_total :
      (fuel offset : ℕ) (p : Parsed)
      → length code - offset < fuel
      → (r : Result Parsed) × (parse_loop pool code fuel offset p ≡ some r) × Safe r
  unfolding parse_loop
  parse_loop_total zero offset p h = absurd (omega arith)
  parse_loop_total (suc fuel) offset p h = elim (Bool-cases (ltb offset (length code))) [
    | inr done ↦ rw done (ok p, refl, tt)
    | inl more ↦
        let before = ltb→lt offset (length code) more in
        rw more (
          round_total (parse_loop pool code fuel) offset (parse_step pool code offset p)
            (parse_step-Advances offset p before)
            (λ o p' l. parse_loop_total fuel o p' (omega arith)))
  ]

  -- For any bytes, `parse_bytecode` ends within its fuel and does not panic, provided that the lookups
  -- in the constant pool do not panic and a numeric literal is neither a call nor a string (`IsSound`).
  pub parse_bytecode_total : (r : Result Parsed) × (parse_bytecode pool code ≡ some r) × Safe r
  unfolding parse_bytecode
  parse_bytecode_total = parse_loop_total (suc (length code)) 0 _ (omega arith)
