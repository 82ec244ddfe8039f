-- ===== src/Bytecode/Parse/Tiles.antt =====
-- `parse_bytecode` of src/scan.rs: what the instructions that it returns are.
use inspequte.Base.{
  ℕ, zero, suc, ◌+◌, ◌%◌, ◌^◌, ◌≤◌, ◌<◌, ◌≡◌, refl, sym, ap, ◌∙◌, subst, Option, some, List, [],
  ◌∷◌, ◌++◌, length, get_elem?, arith, ltb, ltb→lt, false, Bool-cases, inl, inr,
}
use inspequte.Base.Result.{Result, ok, err, panic, >>=-eq-ok, ok-injective, Returns-ok}
use inspequte.Bytecode.{byte_at, opcode_length}
use inspequte.Bytecode.Lengths.{opcode_length-AtLeastOne}
use inspequte.Bytecode.Parse.{
  Resolvers, Parsed, decode_kind, check_length, next_round, parse_step, parse_loop, parse_bytecode,
}
use inspequte.Bytecode.Parse.Total.{calls_of, literals_of, Consistent, IsSound, decode_kind-Returns}
use inspequte.Ir.{CallSite, Instruction}
use Prim.Native.String.{String}
use mathlib.Core.List.{append_assoc, append-nil}
use native.Mathlib.Nat.{mod-eq_of_lt}

-- The instructions cover the code from the offset to its end with no gap: each has the offset at
-- which the one before it ends, the opcode that stands there, and the length of `opcode_length`.
abbrev pub Tiles : List ℕ → ℕ → List Instruction → Type 0
Tiles code offset [] = offset ≡ length code
Tiles code offset (i ∷ is) =
    (i.offset ≡ offset)
    × (get_elem? code offset ≡ some i.opcode)
    × ((n : ℕ) × (opcode_length code offset ≡ ok n)
        × (1 ≤ n)
        × (offset + n ≤ length code)
        × Tiles code (offset + n) is)

-- the calls and the string literals of the instructions, in order
abbrev pub all_calls : List Instruction → List CallSite
all_calls [] = []
all_calls (i ∷ is) = calls_of i.kind ++ all_calls is

abbrev pub all_literals : List Instruction → List String
all_literals [] = []
all_literals (i ∷ is) = literals_of i.kind ++ all_literals is

not_before : (a b : ℕ) → ltb a b ≡ false → b ≤ a
not_before a b h = ground arith

some_ok {ℓ} : {A : Type ℓ} {a b : A} → some (ok a) ≡ some (ok b) → a ≡ b
some_ok h = cc

byte_at-get :
    (code : List ℕ) (offset : ℕ) {b : ℕ}
    → byte_at code offset ≡ ok b
    → get_elem? code offset ≡ some b
byte_at-get code offset h = ground arith

module _ (pool : Resolvers) (sound : IsSound pool) (code : List ℕ)
    (short : length code < 2 ^ 32) where
  -- what one round adds
  record IsRound (offset : ℕ) (p : Parsed) (r : ℕ × Parsed) : Type 0 where
    instruction : Instruction
    size : ℕ
    at_offset : instruction.offset ≡ offset
    opcode_there : get_elem? code offset ≡ some instruction.opcode
    sized : opcode_length code offset ≡ ok size
    positive : 1 ≤ size
    fits : offset + size ≤ length code
    next_offset : r.0 ≡ offset + size
    pushed : r.1.instructions ≡ p.instructions ++ instruction ∷ []
    pushed_calls : r.1.calls ≡ p.calls ++ calls_of instruction.kind
    pushed_literals : r.1.string_literals ≡ p.string_literals ++ literals_of instruction.kind

  parse_step-IsRound :
      (offset : ℕ) (p : Parsed) {r : ℕ × Parsed}
      → offset < length code
      → parse_step pool code offset p ≡ ok r
      → IsRound offset p r
  unfolding parse_step
  parse_step-IsRound offset p {r} h e =
      let (opcode, e₁, k₁) = >>=-eq-ok (byte_at code offset) _ e in
      let (n, e₂, k₂) = >>=-eq-ok (opcode_length code offset) _ k₁ in
      let (_, e₃, k₃) = >>=-eq-ok (check_length pool code offset n) _ k₂ in
      let (d, e₄, k₄) = >>=-eq-ok (decode_kind pool code opcode offset) _ k₃ in
      let same = ok-injective k₄ in
      let consistent =
        Returns-ok Consistent (decode_kind pool code opcode offset)
          (decode_kind-Returns pool sound code opcode offset) e₄ in
      record {
        instruction = record { offset = offset % 2 ^ 32; opcode = opcode; kind = d.kind };
        size = n;
        at_offset = mod-eq_of_lt (omega arith);
        opcode_there = byte_at-get code offset e₁;
        sized = e₂;
        positive =
            Returns-ok (λ n. 1 ≤ n) (opcode_length code offset)
              (opcode_length-AtLeastOne code offset h) e₂;
        fits = ground arith;
        next_offset = ap (λ (r : ℕ × Parsed). r.0) (sym same);
        pushed = ap (λ (r : ℕ × Parsed). r.1.instructions) (sym same);
        pushed_calls =
            ap (λ (r : ℕ × Parsed). r.1.calls) (sym same) ∙ ap (λ c. p.calls ++ c) consistent.0;
        pushed_literals =
            ap (λ (r : ℕ × Parsed). r.1.string_literals) (sym same)
            ∙ ap (λ c. p.string_literals ++ c) consistent.1;
      }

  -- what the loop adds from an offset on
  record Parses (offset : ℕ) (p r : Parsed) : Type 0 where
    added : List Instruction
    tiles : Tiles code offset added
    instructions : r.instructions ≡ p.instructions ++ added
    calls : r.calls ≡ p.calls ++ all_calls added
    string_literals : r.string_literals ≡ p.string_literals ++ all_literals added

  Parses-next :
      (offset : ℕ) (p : Parsed) (s : ℕ × Parsed) (r : Parsed)
      → IsRound offset p s
      → Parses s.0 s.1 r
      → Parses offset p r
  Parses-next offset p s r first rest =
      let i = first.instruction in
      record {
        added = i ∷ rest.added;
        tiles = (
          first.at_offset,
          first.opcode_there,
          (
            first.size,
            first.sized,
            first.positive,
            first.fits,
            subst (λ o. Tiles code o rest.added) first.next_offset rest.tiles,
          ),
        );
        instructions =
            rest.instructions
            ∙ ap (λ is. is ++ rest.added) first.pushed
            ∙ append_assoc p.instructions (i ∷ []) rest.added;
        calls =
            rest.calls
            ∙ ap (λ cs. cs ++ all_calls rest.added) first.pushed_calls
            ∙ append_assoc p.calls (calls_of i.kind) (all_calls rest.added);
        string_literals =
            rest.string_literals
            ∙ ap (λ cs. cs ++ all_literals rest.added) first.pushed_literals
            ∙ append_assoc p.string_literals (literals_of i.kind) (all_literals rest.added);
      }

  round-Parses :
      (continue : ℕ → Parsed → Option (Result Parsed)) (offset : ℕ) (p r : Parsed)
      (s : Result (ℕ × Parsed))
      → offset < length code
      → parse_step pool code offset p ≡ s
      → next_round pool code continue s ≡ some (ok r)
      → ((o : ℕ) (p' : Parsed) → o ≤ length code → continue o p' ≡ some (ok r) → Parses o p' r)
      → Parses offset p r
  round-Parses continue offset p r (ok (o, p')) h e done next =
      let first = parse_step-IsRound offset p h e in
      Parses-next offset p (o, p') r first
        (next o p' (omega (arith, first.next_offset, first.fits)) done)
  round-Parses continue offset p r (err x) h e done next = cc
  round-Parses continue offset p r panic h e done next = cc

  parse_loop-Parses :
      (fuel offset : ℕ) (p r : Parsed)
      → offset ≤ length code
      → parse_loop pool code fuel offset p ≡ some (ok r)
      → Parses offset p r
  unfolding parse_loop
  parse_loop-Parses zero offset p r h e = cc
  parse_loop-Parses (suc fuel) offset p r h e = elim (Bool-cases (ltb offset (length code))) [
    | inl more ↦
        round-Parses (parse_loop pool code fuel) offset p r (parse_step pool code offset p)
          (ltb→lt offset (length code) more) refl (rw more at e)
          (λ o p' b. parse_loop-Parses fuel o p' r b)
    | inr finished ↦
        let same : p ≡ r = some_ok (rw finished at e) in
        let end : offset ≡ length code = omega (arith, not_before offset (length code) finished) in
        rw (← same) (record {
          added = [];
          tiles = end;
          instructions = sym (append-nil p.instructions);
          calls = sym (append-nil p.calls);
          string_literals = sym (append-nil p.string_literals);
        })
  ]

  -- Provided that no lookup in the constant pool panics and a numeric literal is neither a call nor a
  -- string (`IsSound`), a successful parse of a code shorter than 2^32 bytes returns instructions that cover the code
  -- from its first byte to its last with no gap and no overlap, each with the opcode that stands at
  -- its offset; and the returned calls and string literals are those of the instructions, in order.
  pub parse_bytecode-Tiles :
      (r : Parsed)
      → parse_bytecode pool code ≡ some (ok r)
      → Tiles code 0 r.instructions
        × (r.calls ≡ all_calls r.instructions)
        × (r.string_literals ≡ all_literals r.instructions)
  unfolding parse_bytecode
  parse_bytecode-Tiles r e =
      let p = parse_loop-Parses (suc (length code)) 0 _ r (omega arith) e in
      (
        subst (Tiles code 0) (sym p.instructions) p.tiles,
        p.calls ∙ ap all_calls (sym p.instructions),
        p.string_literals ∙ ap all_literals (sym p.instructions),
      )
