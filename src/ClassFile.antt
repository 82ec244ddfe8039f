-- ===== src/ClassFile.antt =====
-- The minimal class file reader of src/scan.rs from its constant pool on: the cursor functions, the
-- interfaces, and what it skips. The cursor `&mut offset` is passed on: a reader returns its value
-- with the new offset.
pub mod Cursor
pub mod Pool
pub mod Minimal
pub mod PoolTotal
pub mod MinimalTotal
use inspequte.Base.{ℕ, zero, suc, ◌+◌, Option, none, some, List, [], ◌∷◌, get_elem?}
use inspequte.Base.Result.{
  Result, ok, err, panic, ◌>>=◌, context, class_file_out_of_bounds, missing_class_entry,
  missing_class_name, missing_utf8,
}
use inspequte.Bytecode.{get_range, u16_of, u32_of}
use Prim.Native.String.{String}

pub data CpEntryMin : Type 0 where
  utf8 : String → CpEntryMin
  other : CpEntryMin

-- an entry of the constant pool that holds a name
abbrev pub utf8_of : Option CpEntryMin → Result String
utf8_of (some (CpEntryMin.utf8 value)) = ok value
utf8_of (some CpEntryMin.other) = err missing_utf8
utf8_of none = err missing_utf8

unfoldable pub resolve_class_name_minimal : List CpEntryMin → List (Option ℕ) → ℕ → Result String
resolve_class_name_minimal entries class_entries class_index = do
  entry ← context missing_class_entry (get_elem? class_entries class_index)
  name_index ← context missing_class_name entry
  utf8_of (get_elem? entries name_index)

module _ (data_bytes : List ℕ) where
  unfoldable pub read_bytes_class : ℕ → ℕ → Result (List ℕ × ℕ)
  read_bytes_class len offset = do
    slice ← context class_file_out_of_bounds (get_range data_bytes offset (offset + len))
    ok (slice, offset + len)

  unfoldable pub skip_class_bytes : ℕ → ℕ → Result ℕ
  unfolding read_bytes_class
  skip_class_bytes len offset = do (bytes, next) ← read_bytes_class len offset; ok next

  unfoldable pub read_u8_class : ℕ → Result (ℕ × ℕ)
  read_u8_class offset = do
    byte ← context class_file_out_of_bounds (get_elem? data_bytes offset)
    ok (byte, offset + 1)

  unfoldable pub read_u16_class : ℕ → Result (ℕ × ℕ)
  unfolding read_bytes_class
  read_u16_class offset = do
    (bytes, next) ← read_bytes_class 2 offset
    value ← u16_of bytes
    ok (value, next)

  unfoldable pub read_u32_class : ℕ → Result (ℕ × ℕ)
  unfolding read_bytes_class
  read_u32_class offset = do
    (bytes, next) ← read_bytes_class 4 offset
    value ← u32_of bytes
    ok (value, next)

  -- `for _ in 0..count`
  abbrev pub times : ℕ → (ℕ → Result ℕ) → ℕ → Result ℕ
  times zero body offset = ok offset
  times (suc count) body offset = body offset >>= times count body

  unfoldable pub skip_attribute : ℕ → Result ℕ
  skip_attribute offset = do
    named ← skip_class_bytes 2 offset
    (length, next) ← read_u32_class named
    skip_class_bytes length next

  unfoldable pub skip_attributes : ℕ → Result ℕ
  skip_attributes offset = do (count, next) ← read_u16_class offset; times count skip_attribute next

  -- the body of the loops of `skip_fields` and `skip_methods`
  unfoldable pub skip_member : ℕ → Result ℕ
  skip_member offset = skip_class_bytes 6 offset >>= skip_attributes

  unfoldable pub skip_fields : ℕ → Result ℕ
  skip_fields offset = do (count, next) ← read_u16_class offset; times count skip_member next

  unfoldable pub skip_methods : ℕ → Result ℕ
  skip_methods offset = do (count, next) ← read_u16_class offset; times count skip_member next

  -- the loop of `parse_interfaces_minimal`
  unfoldable pub read_interfaces :
      List CpEntryMin → List (Option ℕ) → ℕ → ℕ → Result (List String × ℕ)
  read_interfaces entries class_entries zero offset = ok ([], offset)
  read_interfaces entries class_entries (suc count) offset = do
    (index, next) ← read_u16_class offset
    name ← resolve_class_name_minimal entries class_entries index
    (names, end) ← read_interfaces entries class_entries count next
    ok (name ∷ names, end)

  unfoldable pub parse_interfaces_minimal :
      List CpEntryMin → List (Option ℕ) → ℕ → Result (List String × ℕ)
  parse_interfaces_minimal entries class_entries offset = do
    (count, next) ← read_u16_class offset
    read_interfaces entries class_entries count next
