-- ===== src/ClassFile/Minimal.antt =====
-- `parse_class_bytes_minimal` and `normalize_class_name` of src/scan.rs.
use inspequte.Base.{
  ℕ, ◌+◌, ◌%◌, ◌^◌, Bool, false, Option, none, some, List, [], ◌∷◌, Ordering, ◌==◌, if◌then◌else◌,
}
use inspequte.Base.Result.{Result, ok, err, panic, ◌>>=◌, invalid_magic}
use inspequte.Base.Text.{equal_text}
use inspequte.Ir.{TypeParameterUse, Field, Method, AnnotationDefaultValue}
use inspequte.ClassFile.{
  CpEntryMin, read_u16_class, read_u32_class, resolve_class_name_minimal, parse_interfaces_minimal,
  skip_fields, skip_methods, skip_attributes,
}
use inspequte.ClassFile.Pool.{Pool, parse_constant_pool_minimal}
use Prim.Native.Char.{Char, code}
use Prim.Native.String.{String, compare}
use Prim.Native.String as Texts

pub record ParsedClass : Type 0 where
  pub name : String
  pub source_file : Option String
  pub super_name : Option String
  pub interfaces : List String
  pub type_parameters : List TypeParameterUse
  pub referenced_classes : List String
  pub fields : List Field
  pub methods : List Method
  pub annotation_defaults : List AnnotationDefaultValue
  pub is_record : Bool

-- the loop that strips `[`
unfoldable pub strip_brackets : String → String
strip_brackets Texts.[] = Texts.[]
strip_brackets (Texts.String.◌∷◌ c s) =
    let rest = strip_brackets s in if code c == 91 then rest else Texts.String.◌∷◌ c s

-- `strip_suffix(';')`
unfoldable pub strip_semicolon : String → Option String
strip_semicolon Texts.[] = none
strip_semicolon (Texts.String.◌∷◌ c s) =
    let rest = strip_semicolon s in
    elim rest [ some inside ↦ some (Texts.String.◌∷◌ c inside) | none ↦ last c s ]
  where
    last : Char → String → Option String
    last c Texts.[] = if code c == 59 then some Texts.[] else none
    last c (Texts.String.◌∷◌ d s) = none

-- `strip_prefix('L')` and `strip_suffix(';')`
unfoldable pub class_in : String → Option String
unfolding strip_semicolon
class_in Texts.[] = none
class_in (Texts.String.◌∷◌ c s) =
    let inside = strip_semicolon s in if code c == 76 then inside else none

unfoldable pub normalize_class_name : String → Option String
unfolding strip_brackets class_in
normalize_class_name Texts.[] = some Texts.[]
normalize_class_name (Texts.String.◌∷◌ c s) =
    if code c == 91 then class_in (strip_brackets s) else some (Texts.String.◌∷◌ c s)

-- `BTreeSet<String>`, in ascending order
unfoldable pub insert_text : String → List String → List String
insert_text x [] = x ∷ []
insert_text x (y ∷ ys) =
    let later = insert_text x ys in
    elim (compare x y) [ Ordering.lt ↦ x ∷ y ∷ ys | Ordering.eq ↦ y ∷ ys | Ordering.gt ↦ y ∷ later ]

unfoldable pub remove_text : String → List String → List String
remove_text x [] = []
remove_text x (y ∷ ys) = let rest = remove_text x ys in if equal_text x y then rest else y ∷ rest

abbrev pub insert_normalized : Option String → List String → List String
insert_normalized none referenced = referenced
insert_normalized (some name) referenced = insert_text name referenced

-- the loop over the class entries, from an index on
unfoldable pub collect_referenced :
    List CpEntryMin → List (Option ℕ) → List (Option ℕ) → ℕ → List String → Result (List String)
unfolding normalize_class_name insert_text
collect_referenced entries class_entries [] index referenced = ok referenced
collect_referenced entries class_entries (none ∷ rest) index referenced =
    collect_referenced entries class_entries rest (index + 1) referenced
collect_referenced entries class_entries (some name_index ∷ rest) index referenced = do
  name ← resolve_class_name_minimal entries class_entries (index % 2 ^ 16)
  collect_referenced entries class_entries rest (index + 1)
      (insert_normalized (normalize_class_name name) referenced)

unfoldable pub resolve_super : List CpEntryMin → List (Option ℕ) → ℕ → Result (Option String)
resolve_super entries class_entries super_class =
    if super_class == 0
    then ok none
    else (do name ← resolve_class_name_minimal entries class_entries super_class; ok (some name))

module _ (from_utf8_lossy : List ℕ → String) (bytes : List ℕ) where
  unfoldable pub read_referenced : Pool → String → Result (List String)
  unfolding collect_referenced remove_text
  read_referenced pool class_name = do
    referenced ← collect_referenced pool.entries pool.class_entries pool.class_entries 0 []
    ok (remove_text class_name referenced)

  -- from the constant pool on
  unfoldable pub read_class_body : Pool × ℕ → Result ParsedClass
  unfolding resolve_super read_referenced
  read_class_body (pool, offset) = do
    (access_flags, at_this) ← read_u16_class bytes offset
    (this_class, at_super) ← read_u16_class bytes at_this
    (super_class, at_interfaces) ← read_u16_class bytes at_super
    class_name ← resolve_class_name_minimal pool.entries pool.class_entries this_class
    super_name ← resolve_super pool.entries pool.class_entries super_class
    (interfaces, at_fields) ←
        parse_interfaces_minimal bytes pool.entries pool.class_entries at_interfaces
    at_methods ← skip_fields bytes at_fields
    at_attributes ← skip_methods bytes at_methods
    end ← skip_attributes bytes at_attributes
    referenced_classes ← read_referenced pool class_name
    ok (record {
      name = class_name;
      source_file = none;
      super_name = super_name;
      interfaces = interfaces;
      type_parameters = [];
      referenced_classes = referenced_classes;
      fields = [];
      methods = [];
      annotation_defaults = [];
      is_record = false;
    })

  -- the magic number and the version
  abbrev pub check_magic : ℕ → Result (Unit {0})
  check_magic magic = if magic == 3405691582 then ok tt else err invalid_magic

  unfoldable pub read_header : Result ℕ
  read_header = do
    (magic, at_minor) ← read_u32_class bytes 0
    checked ← check_magic magic
    (minor, at_major) ← read_u16_class bytes at_minor
    (major, at_pool) ← read_u16_class bytes at_major
    ok at_pool

  abbrev pub after_pool : Option (Result (Pool × ℕ)) → Option (Result ParsedClass)
  after_pool none = none
  after_pool (some r) = some (r >>= read_class_body)

  abbrev pub after_header : Result ℕ → Option (Result ParsedClass)
  after_header (ok offset) = after_pool (parse_constant_pool_minimal from_utf8_lossy bytes offset)
  after_header (err e) = some (err e)
  after_header panic = some panic

  unfoldable pub parse_class_bytes_minimal : Option (Result ParsedClass)
  unfolding read_header parse_constant_pool_minimal read_class_body
  parse_class_bytes_minimal = after_header read_header
