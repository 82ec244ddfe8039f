-- ===== src/ClassFile/MinimalTotal.antt =====
-- The minimal class file reader of src/scan.rs ends, and what it returns.
use inspequte.Base.{
  ℕ, ◌+◌, ◌%◌, ◌^◌, ◌<◌, ◌≡◌, refl, ap, false, Option, none, some, List, [], ◌∷◌, arith, Bool-cases,
  inl, inr, ◌==◌,
}
use inspequte.Base.Result.{
  Result, ok, err, panic, ◌>>=◌, Returns, Returns-bind, Returns-imp, Settles-value, Settles-if,
  settled,
}
use inspequte.Base.Text.{equal_text, equal_text_iff}
use inspequte.Bytecode.Lengths.{Safe}
use inspequte.ClassFile.{
  CpEntryMin, read_u16_class, read_u32_class, resolve_class_name_minimal, parse_interfaces_minimal,
  skip_fields, skip_methods, skip_attributes,
}
use inspequte.ClassFile.Cursor.{
  MovesWith, read_u16_class-MovesWith, read_u32_class-MovesWith, resolve-Safe, class_file_cursor,
  skip_attributes-Moves,
}
use inspequte.ClassFile.Pool.{Pool, start_pool, after_count, parse_constant_pool_minimal}
use inspequte.ClassFile.PoolTotal.{pool_loop-Loops, length-no_classes}
use inspequte.ClassFile.Minimal.{
  ParsedClass, collect_referenced, insert_normalized, normalize_class_name, resolve_super,
  remove_text, read_referenced, read_class_body, read_header, check_magic, after_pool, after_header,
  parse_class_bytes_minimal,
}
use Prim.Native.String.{String}
use mathlib.Core.List.{Memᴰ}

remove_text-absent : (x : String) (ys : List String) → ¬ Memᴰ x (remove_text x ys)
unfolding remove_text
remove_text-absent x [] m = elim m [ ]
remove_text-absent x (y ∷ ys) m = elim (Bool-cases (equal_text x y)) [
  | inl e ↦ remove_text-absent x ys (rw e at m)
  | inr e ↦ elim (rw e at m) [
    | Memᴰ.head same ↦ absurd (ne e same)
    | Memᴰ.tail k ↦ remove_text-absent x ys k
  ]
]
  where
    ne : equal_text x y ≡ false → x ≡ y → ⊥
    ne e same = absurd (cc (e, (equal_text_iff x y).1 same))

collect_referenced-Safe :
    (entries : List CpEntryMin) (class_entries rest : List (Option ℕ)) (index : ℕ)
    (referenced : List String)
    → Safe (collect_referenced entries class_entries rest index referenced)
unfolding collect_referenced
collect_referenced-Safe entries class_entries [] index referenced = tt
collect_referenced-Safe entries class_entries (none ∷ rest) index referenced =
    collect_referenced-Safe entries class_entries rest (index + 1) referenced
collect_referenced-Safe entries class_entries (some n ∷ rest) index referenced =
    Returns-bind (λ _. Unit {0}) _
      (resolve_class_name_minimal entries class_entries (index % 2 ^ 16)) _
      (resolve-Safe [] entries class_entries (index % 2 ^ 16))
      λ name _.
        collect_referenced-Safe entries class_entries rest (index + 1)
          (insert_normalized (normalize_class_name name) referenced)

resolve_super-Safe :
    (entries : List CpEntryMin) (class_entries : List (Option ℕ)) (super_class : ℕ)
    → Safe (resolve_super entries class_entries super_class)
unfolding resolve_super
resolve_super-Safe entries class_entries super_class = Settles-value (
    Settles-if (super_class == 0) (settled tt) (
      settled (
        Returns-bind (λ _. Unit {0}) (λ _. Unit {0})
          (resolve_class_name_minimal entries class_entries super_class) _
          (resolve-Safe [] entries class_entries super_class) λ name _. tt)))

-- the class does not refer to itself
abbrev pub NoSelf : ParsedClass → Type 0
NoSelf c = ¬ Memᴰ c.name c.referenced_classes

module _ (from_utf8_lossy : List ℕ → String) (bytes : List ℕ) where
  read_referenced-absent :
      (pool : Pool) (name : String)
      → Returns (λ names. ¬ Memᴰ name names) (read_referenced from_utf8_lossy bytes pool name)
  unfolding read_referenced
  read_referenced-absent pool name =
      Returns-bind (λ _. Unit {0}) _
        (collect_referenced pool.entries pool.class_entries pool.class_entries 0 []) _
        (collect_referenced-Safe pool.entries pool.class_entries pool.class_entries 0 [])
        λ referenced _. remove_text-absent name referenced

  body-NoSelf : (s : Pool × ℕ) → Returns NoSelf (read_class_body from_utf8_lossy bytes s)
  unfolding read_class_body
  body-NoSelf (pool, offset) =
      Returns-bind _ _ (read_u16_class bytes offset) _ (read_u16_class-MovesWith bytes offset)
        λ a _.
          Returns-bind _ _ (read_u16_class bytes a.1) _ (read_u16_class-MovesWith bytes a.1) λ b _.
            Returns-bind _ _ (read_u16_class bytes b.1) _ (read_u16_class-MovesWith bytes b.1)
              λ c _.
                Returns-bind (λ _. Unit {0}) _
                  (resolve_class_name_minimal pool.entries pool.class_entries b.0) _
                  (resolve-Safe bytes pool.entries pool.class_entries b.0)
                  λ name _.
                    Returns-bind (λ _. Unit {0}) _
                      (resolve_super pool.entries pool.class_entries c.0) _
                      (resolve_super-Safe pool.entries pool.class_entries c.0)
                      λ super_name _.
                        Returns-bind _ _
                          (parse_interfaces_minimal bytes pool.entries pool.class_entries c.1) _
                          ((class_file_cursor bytes c.1 pool.entries pool.class_entries).2)
                          λ is _.
                            Returns-bind _ _ (skip_fields bytes is.1) _
                              ((class_file_cursor bytes is.1 [] []).0)
                              λ f _.
                                Returns-bind _ _ (skip_methods bytes f) _
                                  ((class_file_cursor bytes f [] []).1)
                                  λ m _.
                                    Returns-bind _ _ (skip_attributes bytes m) _
                                      (skip_attributes-Moves bytes m)
                                      λ end _.
                                        Returns-bind _ _
                                          (read_referenced from_utf8_lossy bytes pool name) _
                                          (read_referenced-absent pool name) λ names absent. absent

  header-Safe : Safe (read_header from_utf8_lossy bytes)
  unfolding read_header
  header-Safe =
      Returns-bind _ _ (read_u32_class bytes 0) _ (read_u32_class-MovesWith bytes 0) λ m _.
        Returns-bind (λ _. Unit {0}) _ (check_magic from_utf8_lossy bytes m.0) _
          (Settles-value (Settles-if (m.0 == 3405691582) (settled tt) (settled tt)))
          λ _ _.
            Returns-bind _ _ (read_u16_class bytes m.1) _ (read_u16_class-MovesWith bytes m.1)
              λ a _.
                Returns-bind _ _ (read_u16_class bytes a.1) _ (read_u16_class-MovesWith bytes a.1)
                  λ b _. tt

  -- the count of the constant pool is below its largest value
  abbrev pub ShortPool : ℕ → Type 0
  ShortPool offset =
      (count next : ℕ) → read_u16_class bytes offset ≡ ok (count, next) → count + 1 < 2 ^ 16

  abbrev EndsPool : Option (Result (Pool × ℕ)) → Type 0
  EndsPool o = (r : Result (Pool × ℕ)) × (o ≡ some r) × Safe r

  pool-EndsPool :
      (offset : ℕ)
      → ShortPool offset
      → EndsPool (parse_constant_pool_minimal from_utf8_lossy bytes offset)
  unfolding parse_constant_pool_minimal
  pool-EndsPool offset short =
      go (read_u16_class bytes offset) (read_u16_class-MovesWith bytes offset) short
    where
      go :
          (r : Result (ℕ × ℕ))
          → MovesWith bytes 2 offset r
          → ((count next : ℕ) → r ≡ ok (count, next) → count + 1 < 2 ^ 16)
          → EndsPool (after_count from_utf8_lossy bytes r)
      go (err e) h k = (err e, refl, tt)
      go panic h k = elim h [ ]
      go (ok (count, next)) h k =
          let (r, e, g) =
            pool_loop-Loops from_utf8_lossy bytes count (k count next refl) (count + 1)
              (start_pool from_utf8_lossy bytes count, next)
              (length-no_classes count, omega arith, omega arith, h.1) (omega arith)
              (omega arith) in
          (r, e, Returns-imp r g λ s _. tt)

  abbrev EndsClass : Option (Result ParsedClass) → Type 0
  EndsClass o = (r : Result ParsedClass) × (o ≡ some r) × Returns NoSelf r

  after_pool-EndsClass :
      (o : Option (Result (Pool × ℕ))) → EndsPool o → EndsClass (after_pool from_utf8_lossy bytes o)
  after_pool-EndsClass o (r, e, g) = (
    (r >>= read_class_body from_utf8_lossy bytes),
    ap (after_pool from_utf8_lossy bytes) e,
    Returns-bind (λ _. Unit {0}) NoSelf r (read_class_body from_utf8_lossy bytes) g
        λ s _. body-NoSelf s,
  )

  -- On any bytes whose constant pool has a count below 65535, the minimal reader ends without a panic,
  -- and a class that it returns is not among the classes it refers to.
  pub parse_class_bytes_minimal_total :
      ((offset : ℕ) → read_header from_utf8_lossy bytes ≡ ok offset → ShortPool offset)
      → (r : Result ParsedClass) × (parse_class_bytes_minimal from_utf8_lossy bytes ≡ some r)
        × Returns NoSelf r
  unfolding parse_class_bytes_minimal
  parse_class_bytes_minimal_total short = go (read_header from_utf8_lossy bytes) header-Safe short
    where
      go :
          (r : Result ℕ)
          → Safe r
          → ((offset : ℕ) → r ≡ ok offset → ShortPool offset)
          → EndsClass (after_header from_utf8_lossy bytes r)
      go (err e) h k = (err e, refl, tt)
      go panic h k = elim h [ ]
      go (ok offset) h k = after_pool-EndsClass _ (pool-EndsPool offset (k offset refl))
