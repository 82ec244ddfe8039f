-- ===== src/ClassFile/Cursor.antt =====
-- The cursor of the class file reader of src/scan.rs.
use inspequte.Base.{
  ℕ, zero, suc, ◌+◌, ◌*◌, ◌≤◌, ◌≡◌, refl, Option, none, some, List, length, get_elem?, arith,
}
use inspequte.Base.Result.{
  Result, ◌>>=◌, context, Returns, Returns-bind, Returns-imp, Returns-context,
  class_file_out_of_bounds, missing_class_entry, missing_class_name,
}
use inspequte.Bytecode.{get_range, u16_of, u32_of}
use inspequte.Bytecode.Lengths.{Safe, length-get_range, u16_of-Safe, u32_of-Safe, context-Returns}
use Prim.Native.String.{String}
use inspequte.ClassFile.{
  CpEntryMin, utf8_of, resolve_class_name_minimal, read_bytes_class, skip_class_bytes,
  read_u16_class, read_u32_class, times, skip_attribute, skip_attributes, skip_member, skip_fields,
  skip_methods, read_interfaces, parse_interfaces_minimal,
}

module _ (bytes : List ℕ) where
  get_range-end :
      (lo hi : ℕ) {slice : List ℕ} → get_range bytes lo hi ≡ some slice → hi ≤ length bytes
  get_range-end lo hi h = ground arith

  -- No panic, and the cursor ends `least` bytes or more after `offset`, within the file.
  abbrev pub Moves : ℕ → ℕ → Result ℕ → Type 0
  Moves least offset = Returns (λ end. (offset + least ≤ end) × (end ≤ length bytes))

  abbrev pub MovesWith {ℓ} : {A : Type ℓ} → ℕ → ℕ → Result (A × ℕ) → Type 0
  MovesWith least offset = Returns (λ r. (offset + least ≤ r.1) × (r.1 ≤ length bytes))

  abbrev pub IsRead : ℕ → ℕ → List ℕ × ℕ → Type 0
  IsRead len offset r = (length r.0 ≡ len) × (r.1 ≡ offset + len) × (offset + len ≤ length bytes)

  pub read_bytes_class-IsRead :
      (len offset : ℕ) → Returns (IsRead len offset) (read_bytes_class bytes len offset)
  unfolding read_bytes_class
  read_bytes_class-IsRead len offset =
      Returns-bind (λ s. (length s ≡ len) × (offset + len ≤ length bytes)) (IsRead len offset)
        (context class_file_out_of_bounds (get_range bytes offset (offset + len))) _
        (context-Returns _ class_file_out_of_bounds (get_range bytes offset (offset + len))
          λ s e. (length-get_range bytes offset len e, get_range-end offset (offset + len) e))
        λ s h. (h.0, refl, h.1)

  pub skip_class_bytes-Moves :
      (len offset : ℕ) → Moves len offset (skip_class_bytes bytes len offset)
  unfolding skip_class_bytes
  skip_class_bytes-Moves len offset =
      Returns-bind _ _ (read_bytes_class bytes len offset) _ (read_bytes_class-IsRead len offset)
        λ r h. (omega (arith, h.1), omega (arith, h.1, h.2))

  read_u16_class-Exact :
      (offset : ℕ)
      → Returns (λ r. (r.1 ≡ offset + 2) × (r.1 ≤ length bytes)) (read_u16_class bytes offset)
  unfolding read_u16_class
  read_u16_class-Exact offset =
      Returns-bind _ _ (read_bytes_class bytes 2 offset) _ (read_bytes_class-IsRead 2 offset) λ r h.
        Returns-bind _ _ (u16_of r.0) _ (u16_of-Safe r.0 h.0)
          λ value _. (h.1, omega (arith, h.1, h.2))

  pub read_u16_class-MovesWith : (offset : ℕ) → MovesWith 2 offset (read_u16_class bytes offset)
  read_u16_class-MovesWith offset =
      Returns-imp (read_u16_class bytes offset) (read_u16_class-Exact offset)
        λ r h. (omega (arith, h.0), h.1)

  pub read_u32_class-MovesWith : (offset : ℕ) → MovesWith 4 offset (read_u32_class bytes offset)
  unfolding read_u32_class
  read_u32_class-MovesWith offset =
      Returns-bind _ _ (read_bytes_class bytes 4 offset) _ (read_bytes_class-IsRead 4 offset) λ r h.
        Returns-bind _ _ (u32_of r.0) _ (u32_of-Safe r.0 h.0)
          λ value _. (omega (arith, h.1), omega (arith, h.1, h.2))

  times-Moves :
      (least count : ℕ) (body : ℕ → Result ℕ)
      → ((offset : ℕ) → Moves least offset (body offset))
      → (offset : ℕ) → offset ≤ length bytes
      → Moves 0 offset (times bytes count body offset)
  times-Moves least zero body moves offset inside = (omega arith, inside)
  times-Moves least (suc count) body moves offset inside =
      Returns-bind _ _ (body offset) _ (moves offset) λ next h.
        Returns-imp (times bytes count body next) (times-Moves least count body moves next h.1)
          λ end g. (omega (arith, h, g), g.1)

  skip_attribute-Moves : (offset : ℕ) → Moves 6 offset (skip_attribute bytes offset)
  unfolding skip_attribute
  skip_attribute-Moves offset =
      Returns-bind _ _ (skip_class_bytes bytes 2 offset) _ (skip_class_bytes-Moves 2 offset)
        λ named h.
          Returns-bind _ _ (read_u32_class bytes named) _ (read_u32_class-MovesWith named) λ r g.
            Returns-imp (skip_class_bytes bytes r.0 r.1) (skip_class_bytes-Moves r.0 r.1)
              λ end k. (omega (arith, h, g, k), k.1)

  -- a counted loop after its count
  counted-Moves :
      (least : ℕ) (body : ℕ → Result ℕ)
      → ((offset : ℕ) → Moves least offset (body offset))
      → (offset : ℕ)
      → Moves 2 offset (read_u16_class bytes offset >>= λ r. times bytes r.0 body r.1)
  counted-Moves least body moves offset =
      Returns-bind _ _ (read_u16_class bytes offset) _ (read_u16_class-MovesWith offset) λ r h.
        Returns-imp (times bytes r.0 body r.1) (times-Moves least r.0 body moves r.1 h.1)
          λ end g. (omega (arith, h, g), g.1)

  pub skip_attributes-Moves : (offset : ℕ) → Moves 2 offset (skip_attributes bytes offset)
  unfolding skip_attributes
  skip_attributes-Moves offset = counted-Moves 6 (skip_attribute bytes) skip_attribute-Moves offset

  skip_member-Moves : (offset : ℕ) → Moves 8 offset (skip_member bytes offset)
  unfolding skip_member
  skip_member-Moves offset =
      Returns-bind _ _ (skip_class_bytes bytes 6 offset) _ (skip_class_bytes-Moves 6 offset)
        λ next h.
          Returns-imp (skip_attributes bytes next) (skip_attributes-Moves next)
            λ end g. (omega (arith, h, g), g.1)

  utf8_of-Safe : (o : Option CpEntryMin) → Safe (utf8_of o)
  utf8_of-Safe none = tt
  utf8_of-Safe (some (CpEntryMin.utf8 value)) = tt
  utf8_of-Safe (some CpEntryMin.other) = tt

  pub resolve-Safe :
      (entries : List CpEntryMin) (class_entries : List (Option ℕ)) (index : ℕ)
      → Safe (resolve_class_name_minimal entries class_entries index)
  unfolding resolve_class_name_minimal
  resolve-Safe entries class_entries index =
      Returns-bind _ _ (context missing_class_entry (get_elem? class_entries index)) _
        (Returns-context missing_class_entry (get_elem? class_entries index))
        λ entry _.
          Returns-bind _ _ (context missing_class_name entry) _
            (Returns-context missing_class_name entry)
            λ name_index _. utf8_of-Safe (get_elem? entries name_index)

  -- the names read, one for each round, and two bytes of the file for each
  Named : ℕ → ℕ → List String × ℕ → Type 0
  Named count offset r = (length r.0 ≡ count) × (r.1 ≡ offset + 2 * count) × (r.1 ≤ length bytes)

  read_interfaces-Named :
      (entries : List CpEntryMin) (class_entries : List (Option ℕ)) (count offset : ℕ)
      → offset ≤ length bytes
      → Returns (Named count offset) (read_interfaces bytes entries class_entries count offset)
  unfolding read_interfaces Named
  read_interfaces-Named entries class_entries zero offset inside = (refl, omega arith, inside)
  read_interfaces-Named entries class_entries (suc count) offset inside =
      Returns-bind (λ r. (r.1 ≡ offset + 2) × (r.1 ≤ length bytes)) _ (read_u16_class bytes offset)
        _ (read_u16_class-Exact offset)
        λ r h.
          Returns-bind _ _ (resolve_class_name_minimal entries class_entries r.0) _
            (resolve-Safe entries class_entries r.0)
            λ name _.
              Returns-bind _ _ (read_interfaces bytes entries class_entries count r.1) _
                (read_interfaces-Named entries class_entries count r.1 h.1)
                λ q g. (omega (arith, g.0), omega (arith, h.0, g.1), g.2)

  -- From any offset and on any bytes, `skip_fields`, `skip_methods` and `parse_interfaces_minimal` do
  -- not panic. When `skip_fields` or `skip_methods` returns, the cursor has moved on by at least the
  -- two bytes of the count and lies within the file; when `parse_interfaces_minimal` returns, it has
  -- moved on by two bytes for the count and two for each name, and lies within the file.
  pub class_file_cursor :
      (offset : ℕ) (entries : List CpEntryMin) (class_entries : List (Option ℕ))
      → Moves 2 offset (skip_fields bytes offset)
        × Moves 2 offset (skip_methods bytes offset)
        × Returns
            (λ r. (r.1 ≡ offset + 2 + 2 * length r.0) × (r.1 ≤ length bytes))
            (parse_interfaces_minimal bytes entries class_entries offset)
  unfolding skip_fields skip_methods parse_interfaces_minimal Named
  class_file_cursor offset entries class_entries = (
    counted-Moves 8 (skip_member bytes) skip_member-Moves offset,
    counted-Moves 8 (skip_member bytes) skip_member-Moves offset,
    Returns-bind (λ r. (r.1 ≡ offset + 2) × (r.1 ≤ length bytes)) _ (read_u16_class bytes offset) _
        (read_u16_class-Exact offset)
        λ r h.
          Returns-imp (read_interfaces bytes entries class_entries r.0 r.1)
            (read_interfaces-Named entries class_entries r.0 r.1 h.1)
            λ q g. (omega (arith, h.0, g.0, g.1), g.2),
  )
