-- ===== src/Bytecode.antt =====
-- src/scan.rs: reading the bytes of a method's code, and the length of an instruction. A byte is a
-- number, `usize` arithmetic is unbounded, and an index out of range is a panic.
pub mod Reading
pub mod Lengths
pub mod Parse
use inspequte.Base.{
  ℕ, ◌+◌, ◌-◌, ◌*◌, ◌%◌, ◌^◌, Bool, ◌&&◌, ◌||◌, Option, none, some, List, [], ◌∷◌, length, take,
  drop, get_elem?, leb, ltb, ◌==◌, if◌then◌else◌,
}
use inspequte.Base.Int.{ℤ, pos, negsuc, ◌+ℤ◌, ◌-ℤ◌, pos_part}
use inspequte.Base.Result.{
  Result, ok, err, panic, ◌>>=◌, context, u16_out_of_bounds, u32_out_of_bounds, unsupported_opcode,
  invalid_tableswitch_range, invalid_lookupswitch_pairs, missing_wide_opcode,
}
use inspequte.Opcodes

-- `code.get(lo..hi)`
abbrev pub get_range : List ℕ → ℕ → ℕ → Option (List ℕ)
get_range code lo hi =
    if leb lo hi && leb hi (length code) then some (take (hi - lo) (drop lo code)) else none

-- `code[offset]`
abbrev pub byte_at : List ℕ → ℕ → Result ℕ
byte_at code offset = elim (get_elem? code offset) [ none ↦ panic | some b ↦ ok b ]

-- `u16::from_be_bytes([slice[0], slice[1]])`
abbrev pub u16_of : List ℕ → Result ℕ
u16_of (a ∷ b ∷ _) = ok (a * 256 + b)
u16_of _ = panic

abbrev pub u32_of : List ℕ → Result ℕ
u32_of (a ∷ b ∷ c ∷ d ∷ _) = ok (((a * 256 + b) * 256 + c) * 256 + d)
u32_of _ = panic

unfoldable pub read_u16 : List ℕ → ℕ → Result ℕ
read_u16 code offset = do
  slice ← context u16_out_of_bounds (get_range code offset (offset + 2))
  u16_of slice

unfoldable pub read_u32 : List ℕ → ℕ → Result ℕ
read_u32 code offset = do
  slice ← context u32_out_of_bounds (get_range code offset (offset + 4))
  u32_of slice

-- `i32::from_be_bytes(value.to_be_bytes())`: the same bits, signed
abbrev pub i32_of : ℕ → ℤ
i32_of value = if ltb value (2 ^ 31) then pos value else negsuc (2 ^ 32 - 1 - value)

abbrev pub i16_of : ℕ → ℤ
i16_of value = if ltb value (2 ^ 15) then pos value else negsuc (2 ^ 16 - 1 - value)

abbrev pub i8_of : ℕ → ℤ
i8_of value = if ltb value (2 ^ 7) then pos value else negsuc (2 ^ 8 - 1 - value)

unfoldable pub read_i32 : List ℕ → ℕ → Result ℤ
read_i32 code offset = do value ← read_u32 code offset; ok (i32_of value)

-- `Some(v)` for an integer in the range of `i32`, as the checked operations return it
abbrev pub checked_i32 : ℤ → Option ℤ
checked_i32 (pos n) = if ltb n (2 ^ 31) then some (pos n) else none
checked_i32 (negsuc n) = if ltb n (2 ^ 31) then some (negsuc n) else none

-- `high.checked_sub(low).and_then(|v| v.checked_add(1))`
unfoldable pub switch_count : ℤ → ℤ → Option ℤ
switch_count high low = elim (checked_i32 (high -ℤ low)) [
  | none ↦ none
  | some v ↦ checked_i32 (v +ℤ pos 1)
]

unfoldable pub padding : ℕ → ℕ
padding offset = (4 - (offset + 1) % 4) % 4

-- `if count < 0 { bail }`, and then `count as usize`
abbrev pub non_negative : Result ℕ → ℤ → Result ℕ
non_negative failure (pos n) = ok n
non_negative failure (negsuc n) = failure

unfoldable pub tableswitch_length : List ℕ → ℕ → Result ℕ
tableswitch_length code offset = do
  let base = offset + 1 + padding offset
  low ← read_i32 code (base + 4)
  high ← read_i32 code (base + 8)
  signed ← context invalid_tableswitch_range (switch_count high low)
  count ← non_negative (err invalid_tableswitch_range) signed
  ok (1 + padding offset + 12 + count * 4)

unfoldable pub lookupswitch_length : List ℕ → ℕ → Result ℕ
lookupswitch_length code offset = do
  let base = offset + 1 + padding offset
  signed ← read_i32 code (base + 4)
  npairs ← non_negative (err invalid_lookupswitch_pairs) signed
  ok (1 + padding offset + 8 + npairs * 8)

unfoldable pub wide_length : List ℕ → ℕ → Result ℕ
wide_length code offset = do
  opcode ← context missing_wide_opcode (get_elem? code (offset + 1))
  if opcode == 0x84 then ok 6 else ok 4

-- `lo..=hi`
abbrev pub between : ℕ → ℕ → ℕ → Bool
between lo hi opcode = leb lo opcode && leb opcode hi

-- the arms of the `match`, in the order of the source
unfoldable pub length_of_opcode : List ℕ → ℕ → ℕ → Result ℕ
length_of_opcode code offset opcode =
    if between 0x00 0x0f opcode
    then ok 1
    else if opcode == 0x10
    then ok 2
    else if opcode == 0x11
    then ok 3
    else if opcode == Opcodes.ldc
    then ok 2
    else if opcode == Opcodes.ldc_w || opcode == Opcodes.ldc2_w
    then ok 3
    else if between 0x15 0x19 opcode
    then ok 2
    else if between 0x1a 0x35 opcode
    then ok 1
    else if between 0x36 0x3a opcode
    then ok 2
    else if between 0x3b 0x4e opcode
    then ok 1
    else if between 0x4f 0x56 opcode
    then ok 1
    else if between 0x57 0x5f opcode
    then ok 1
    else if between 0x60 0x83 opcode
    then ok 1
    else if opcode == 0x84
    then ok 3
    else if between 0x85 0x98 opcode
    then ok 1
    else if between 0x99 0xa6 opcode
    then ok 3
    else if opcode == Opcodes.goto || opcode == Opcodes.jsr
    then ok 3
    else if opcode == 0xa9
    then ok 2
    else if opcode == 0xaa
    then tableswitch_length code offset
    else if opcode == 0xab
    then lookupswitch_length code offset
    else if between 0xac 0xb1 opcode
    then ok 1
    else if between 0xb2 0xb5 opcode
    then ok 3
    else if opcode == Opcodes.invokevirtual
        || opcode == Opcodes.invokespecial
        || opcode == Opcodes.invokestatic
    then ok 3
    else if opcode == Opcodes.invokeinterface || opcode == Opcodes.invokedynamic
    then ok 5
    else if opcode == 0xbb
    then ok 3
    else if opcode == 0xbc
    then ok 2
    else if opcode == 0xbd
    then ok 3
    else if opcode == 0xbe || opcode == 0xbf
    then ok 1
    else if opcode == 0xc0 || opcode == 0xc1
    then ok 3
    else if opcode == 0xc2 || opcode == 0xc3
    then ok 1
    else if opcode == 0xc4
    then wide_length code offset
    else if opcode == 0xc5
    then ok 4
    else if opcode == 0xc6 || opcode == 0xc7
    then ok 3
    else if opcode == Opcodes.goto_w || opcode == Opcodes.jsr_w
    then ok 5
    else if opcode == 0xca
    then ok 1
    else if opcode == 0xfe || opcode == 0xff
    then ok 1
    else err unsupported_opcode

unfoldable pub opcode_length : List ℕ → ℕ → Result ℕ
unfolding length_of_opcode
opcode_length code offset = do opcode ← byte_at code offset; length_of_opcode code offset opcode
