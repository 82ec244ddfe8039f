-- ===== src/Bytecode/Lengths.antt =====
-- The readers and the instruction lengths of src/scan.rs.
use inspequte.Base.{
  ℕ, zero, suc, ◌+◌, ◌-◌, ◌≤◌, ◌<◌, ◌≡◌, refl, ap, ◌∙◌, Option, none, some, List, [], ◌∷◌, length,
  take, drop, get_elem?, arith, length-drop, Bool-cases, inl, inr, leb, leb→le, ◌||◌, ◌==◌,
}
use inspequte.Base.Int.{ℤ, pos, negsuc}
use inspequte.Base.Result.{
  Result, ok, err, context, Error, u16_out_of_bounds, u32_out_of_bounds, invalid_tableswitch_range,
  invalid_lookupswitch_pairs, missing_wide_opcode, Returns, Returns-bind, Returns-context, Settles,
  settled, Settles-value, Settles-if,
}
use inspequte.Opcodes
use inspequte.Bytecode.{
  get_range, byte_at, u16_of, u32_of, i32_of, read_u16, read_u32, read_i32, switch_count, padding,
  non_negative, between, tableswitch_length, lookupswitch_length, wide_length, length_of_opcode,
  opcode_length,
}

-- a value of any kind, without a panic
abbrev pub Safe {ℓ} : {A : Type ℓ} → Result A → Type 0
Safe = Returns (λ _. Unit {0})

length-take_exact : (n : ℕ) (xs : List ℕ) → n ≤ length xs → length (take n xs) ≡ n
length-take_exact zero xs h = refl
length-take_exact (suc n) [] h = absurd (omega arith)
length-take_exact (suc n) (x ∷ xs) h = ap suc (length-take_exact n xs (omega arith))

-- a range that is read has the length that was asked for
pub length-get_range :
    (code : List ℕ) (lo k : ℕ) {slice : List ℕ}
    → get_range code lo (lo + k) ≡ some slice
    → length slice ≡ k
length-get_range code lo k {slice} h = elim (Bool-cases (leb (lo + k) (length code))) [
  | inl inside ↦
      let bound = leb→le (lo + k) (length code) inside in
      let e : length (take (lo + k - lo) (drop lo code)) ≡ k =
        length-take_exact (lo + k - lo) (drop lo code) (omega (arith, length-drop lo code))
        ∙ omega arith in
      ground (arith, e)
  | inr outside ↦ ground arith
]

pub u16_of-Safe : (slice : List ℕ) → length slice ≡ 2 → Safe (u16_of slice)
u16_of-Safe [] h = absurd (omega arith)
u16_of-Safe (a ∷ []) h = absurd (omega arith)
u16_of-Safe (a ∷ b ∷ rest) h = tt

pub u32_of-Safe : (slice : List ℕ) → length slice ≡ 4 → Safe (u32_of slice)
u32_of-Safe [] h = absurd (omega arith)
u32_of-Safe (a ∷ []) h = absurd (omega arith)
u32_of-Safe (a ∷ b ∷ []) h = absurd (omega arith)
u32_of-Safe (a ∷ b ∷ c ∷ []) h = absurd (omega arith)
u32_of-Safe (a ∷ b ∷ c ∷ d ∷ rest) h = tt

pub context-Returns {ℓ} :
    {A : Type ℓ} (P : A → Type 0) (e : Error) (o : Option A)
    → ((a : A) → o ≡ some a → P a)
    → Returns P (context e o)
context-Returns P e none h = tt
context-Returns P e (some a) h = h a refl

pub read_u16-Safe : (code : List ℕ) (offset : ℕ) → Safe (read_u16 code offset)
unfolding read_u16
read_u16-Safe code offset =
    Returns-bind (λ s. length s ≡ 2) _
      (context u16_out_of_bounds (get_range code offset (offset + 2))) u16_of
      (context-Returns _ u16_out_of_bounds (get_range code offset (offset + 2))
        (λ s e. length-get_range code offset 2 e))
      u16_of-Safe

pub read_u32-Safe : (code : List ℕ) (offset : ℕ) → Safe (read_u32 code offset)
unfolding read_u32
read_u32-Safe code offset =
    Returns-bind (λ s. length s ≡ 4) _
      (context u32_out_of_bounds (get_range code offset (offset + 4))) u32_of
      (context-Returns _ u32_out_of_bounds (get_range code offset (offset + 4))
        (λ s e. length-get_range code offset 4 e))
      u32_of-Safe

pub read_i32-Safe : (code : List ℕ) (offset : ℕ) → Safe (read_i32 code offset)
unfolding read_i32
read_i32-Safe code offset =
    Returns-bind _ _ (read_u32 code offset) (λ v. ok (i32_of v)) (read_u32-Safe code offset)
      (λ v h. tt)

pub byte_at-Safe : (code : List ℕ) (offset : ℕ) → offset < length code → Safe (byte_at code offset)
byte_at-Safe [] offset h = absurd (omega arith)
byte_at-Safe (b ∷ code) zero h = tt
byte_at-Safe (b ∷ code) (suc offset) h = byte_at-Safe code offset (omega arith)

abbrev AtLeastOne : Result ℕ → Type 0
AtLeastOne = Returns (λ n. 1 ≤ n)

non_negative-Safe : (e : Error) (v : ℤ) → Safe (non_negative (err e) v)
non_negative-Safe e (pos n) = tt
non_negative-Safe e (negsuc n) = tt

tableswitch_length-AtLeastOne :
    (code : List ℕ) (offset : ℕ) → AtLeastOne (tableswitch_length code offset)
unfolding tableswitch_length
tableswitch_length-AtLeastOne code offset =
    let base : ℕ = offset + 1 + padding offset in
    Returns-bind (λ _. Unit {0}) _ (read_i32 code (base + 4)) _ (read_i32-Safe code (base + 4))
      λ low _.
        Returns-bind (λ _. Unit {0}) _ (read_i32 code (base + 8)) _ (read_i32-Safe code (base + 8))
          λ high _.
            Returns-bind (λ _. Unit {0}) _
              (context invalid_tableswitch_range (switch_count high low)) _
              (Returns-context _ (switch_count high low))
              λ signed _.
                Returns-bind (λ _. Unit {0}) _ (non_negative (err invalid_tableswitch_range) signed)
                  _ (non_negative-Safe _ signed) λ count _. omega arith

lookupswitch_length-AtLeastOne :
    (code : List ℕ) (offset : ℕ) → AtLeastOne (lookupswitch_length code offset)
unfolding lookupswitch_length
lookupswitch_length-AtLeastOne code offset =
    let base : ℕ = offset + 1 + padding offset in
    Returns-bind (λ _. Unit {0}) _ (read_i32 code (base + 4)) _ (read_i32-Safe code (base + 4))
      λ signed _.
        Returns-bind (λ _. Unit {0}) _ (non_negative (err invalid_lookupswitch_pairs) signed) _
          (non_negative-Safe _ signed) λ count _. omega arith

wide_length-AtLeastOne : (code : List ℕ) (offset : ℕ) → AtLeastOne (wide_length code offset)
unfolding wide_length
wide_length-AtLeastOne code offset =
    Returns-bind (λ _. Unit {0}) _ (context missing_wide_opcode (get_elem? code (offset + 1))) _
      (Returns-context _ (get_elem? code (offset + 1)))
      λ opcode _. Settles-value (
        Settles-if {P = λ n. 1 ≤ n} (opcode == 0x84) (settled (omega arith))
          (settled (omega arith)))

length_of_opcode-Settles :
    (code : List ℕ) (offset opcode : ℕ) → Settles (λ n. 1 ≤ n) (length_of_opcode code offset opcode)
unfolding length_of_opcode
length_of_opcode-Settles code offset opcode =
    Settles-if (between 0x00 0x0f opcode) (settled (omega arith)) (
      Settles-if (opcode == 0x10) (settled (omega arith)) (
        Settles-if (opcode == 0x11) (settled (omega arith)) (
          Settles-if (opcode == Opcodes.ldc) (settled (omega arith)) (
            Settles-if (opcode == Opcodes.ldc_w || opcode == Opcodes.ldc2_w) (settled (omega arith))
              (Settles-if (between 0x15 0x19 opcode) (settled (omega arith)) (
                Settles-if (between 0x1a 0x35 opcode) (settled (omega arith)) (
                  Settles-if (between 0x36 0x3a opcode) (settled (omega arith)) (
                    Settles-if (between 0x3b 0x4e opcode) (settled (omega arith)) (
                      Settles-if (between 0x4f 0x56 opcode) (settled (omega arith)) (
                        Settles-if (between 0x57 0x5f opcode) (settled (omega arith)) (
                          Settles-if (between 0x60 0x83 opcode) (settled (omega arith)) (
                            Settles-if (opcode == 0x84) (settled (omega arith)) (
                              Settles-if (between 0x85 0x98 opcode) (settled (omega arith)) (
                                Settles-if (between 0x99 0xa6 opcode) (settled (omega arith)) (
                                  Settles-if (opcode == Opcodes.goto || opcode == Opcodes.jsr)
                                    (settled (omega arith))
                                    (Settles-if (opcode == 0xa9) (settled (omega arith)) (
                                      Settles-if (opcode == 0xaa)
                                        (settled (tableswitch_length-AtLeastOne code offset))
                                        (Settles-if (opcode == 0xab)
                                          (settled (lookupswitch_length-AtLeastOne code offset))
                                          (Settles-if (between 0xac 0xb1 opcode)
                                            (settled (omega arith))
                                            (Settles-if (between 0xb2 0xb5 opcode)
                                              (settled (omega arith))
                                              (Settles-if
                                                (opcode == Opcodes.invokevirtual
                                                  || opcode == Opcodes.invokespecial
                                                  || opcode == Opcodes.invokestatic)
                                                (settled (omega arith))
                                                (Settles-if
                                                  (opcode == Opcodes.invokeinterface
                                                    || opcode == Opcodes.invokedynamic)
                                                  (settled (omega arith))
                                                  (Settles-if (opcode == 0xbb)
                                                    (settled (omega arith))
                                                    (Settles-if (opcode == 0xbc)
                                                      (settled (omega arith))
                                                      (Settles-if (opcode == 0xbd)
                                                        (settled (omega arith))
                                                        (Settles-if
                                                          (opcode == 0xbe || opcode == 0xbf)
                                                          (settled (omega arith))
                                                          (Settles-if
                                                            (opcode == 0xc0 || opcode == 0xc1)
                                                            (settled (omega arith))
                                                            (Settles-if
                                                            (opcode == 0xc2 || opcode == 0xc3)
                                                            (settled (omega arith))
                                                            (Settles-if (opcode == 0xc4)
                                                            (settled
                                                            (wide_length-AtLeastOne code offset))
                                                            (Settles-if (opcode == 0xc5)
                                                            (settled (omega arith))
                                                            (Settles-if
                                                            (opcode == 0xc6 || opcode == 0xc7)
                                                            (settled (omega arith))
                                                            (Settles-if
                                                            (opcode == Opcodes.goto_w
                                                            || opcode == Opcodes.jsr_w)
                                                            (settled (omega arith))
                                                            (Settles-if (opcode == 0xca)
                                                            (settled (omega arith))
                                                            (Settles-if
                                                            (opcode == 0xfe || opcode == 0xff)
                                                            (settled (omega arith))
                                                            (settled
                                                            tt)))))))))))))))))))))))))))))))))))

-- At an offset within the code, `opcode_length` does not panic, and a length that it returns is at
-- least 1.
pub opcode_length-AtLeastOne :
    (code : List ℕ) (offset : ℕ)
    → offset < length code
    → Returns (λ n. 1 ≤ n) (opcode_length code offset)
unfolding opcode_length
opcode_length-AtLeastOne code offset h =
    Returns-bind (λ _. Unit {0}) _ (byte_at code offset) _ (byte_at-Safe code offset h)
      λ opcode _. Settles-value (length_of_opcode-Settles code offset opcode)
