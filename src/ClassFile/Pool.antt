-- ===== src/ClassFile/Pool.antt =====
-- `parse_constant_pool_minimal` of src/scan.rs.
use inspequte.Base.{
  ℕ, zero, suc, ◌+◌, ◌^◌, ◌||◌, Option, none, some, List, [], ◌∷◌, ◌++◌, ltb, ◌==◌, if◌then◌else◌,
}
use inspequte.Base.Result.{Result, ok, err, panic, ◌>>=◌, unsupported_tag}
use inspequte.ClassFile.{
  CpEntryMin, other, utf8, read_bytes_class, skip_class_bytes, read_u8_class, read_u16_class,
}
use Prim.Native.String.{String}

-- the local variables of the loop
pub record Pool : Type 0 where
  pub index : ℕ
  pub entries : List CpEntryMin
  pub class_entries : List (Option ℕ)

-- `vec![None; count]`
abbrev pub no_classes : ℕ → List (Option ℕ)
no_classes zero = []
no_classes (suc count) = none ∷ no_classes count

-- `index += 1` on a `u16`, which panics on overflow (where the build checks it)
unfoldable pub next_index : ℕ → Result ℕ
next_index index = if ltb (index + 1) (2 ^ 16) then ok (index + 1) else panic

-- `class_entries[index] = Some(name_index)`
unfoldable pub set_class : ℕ → ℕ → List (Option ℕ) → Result (List (Option ℕ))
set_class index name_index [] = panic
set_class zero name_index (c ∷ classes) = ok (some name_index ∷ classes)
set_class (suc index) name_index (c ∷ classes) = do
  rest ← set_class index name_index classes
  ok (c ∷ rest)

abbrev pub push_entry : CpEntryMin → Pool → Pool
push_entry entry pool = record pool { entries = pool.entries ++ entry ∷ [] }

-- the bytes of an entry that only is skipped and takes one index
abbrev pub skipped_width : ℕ → Option ℕ
skipped_width tag =
    if tag == 3 || tag == 4
    then some 4
    else (if tag == 8
        then some 2
        else (if tag == 9 || tag == 10 || tag == 11 || tag == 12 || tag == 18
            then some 4
            else (if tag == 15
                then some 3
                else (if tag == 16 || tag == 19 || tag == 20
                    then some 2
                    else (if tag == 17 then some 4 else none)))))

-- `String::from_utf8_lossy` turns bytes into a text.
module _ (from_utf8_lossy : List ℕ → String) (bytes : List ℕ) where
  unfoldable pub read_utf8 : Pool → ℕ → Result (Pool × ℕ)
  read_utf8 pool offset = do
    (len, start) ← read_u16_class bytes offset
    (text, next) ← read_bytes_class bytes len start
    ok (push_entry (utf8 (from_utf8_lossy text)) pool, next)

  unfoldable pub read_class : Pool → ℕ → Result (Pool × ℕ)
  unfolding set_class
  read_class pool offset = do
    (name_index, next) ← read_u16_class bytes offset
    class_entries ← set_class pool.index name_index pool.class_entries
    ok (record (push_entry other pool) { class_entries = class_entries }, next)

  -- a long or a double takes two indices
  unfoldable pub read_wide : Pool → ℕ → Result (Pool × ℕ)
  unfolding next_index
  read_wide pool offset = do
    next ← skip_class_bytes bytes 8 offset
    index ← next_index pool.index
    ok (record (push_entry other (push_entry other pool)) { index = index }, next)

  abbrev pub read_skipped : Pool → ℕ → Option ℕ → Result (Pool × ℕ)
  read_skipped pool offset none = err unsupported_tag
  read_skipped pool offset (some width) = do
    next ← skip_class_bytes bytes width offset
    ok (push_entry other pool, next)

  -- the `match` on the tag
  unfoldable pub read_entry : ℕ → Pool → ℕ → Result (Pool × ℕ)
  unfolding read_utf8 read_class read_wide
  read_entry tag pool offset =
      if tag == 1
      then read_utf8 pool offset
      else (if tag == 7
          then read_class pool offset
          else (if tag == 5 || tag == 6
              then read_wide pool offset
              else read_skipped pool offset (skipped_width tag)))

  -- the body of the loop
  unfoldable pub pool_step : Pool × ℕ → Result (Pool × ℕ)
  unfolding read_entry
  pool_step (pool, offset) = do
    (tag, start) ← read_u8_class bytes offset
    (next_pool, next) ← read_entry tag pool start
    index ← next_index next_pool.index
    ok (record next_pool { index = index }, next)

  abbrev pub next_round :
      (Pool × ℕ → Option (Result (Pool × ℕ))) → Result (Pool × ℕ) → Option (Result (Pool × ℕ))
  next_round continue (ok s) = continue s
  next_round continue (err e) = some (err e)
  next_round continue panic = some panic

  -- `while index < count`, on fuel
  unfoldable pub pool_loop : ℕ → ℕ → Pool × ℕ → Option (Result (Pool × ℕ))
  unfolding pool_step
  pool_loop zero count s = none
  pool_loop (suc fuel) count s =
      if ltb (s.0).index count then next_round (pool_loop fuel count) (pool_step s) else some (ok s)

  abbrev pub start_pool : ℕ → Pool
  start_pool count = record { index = 1; entries = other ∷ []; class_entries = no_classes count }

  abbrev pub after_count : Result (ℕ × ℕ) → Option (Result (Pool × ℕ))
  after_count (ok (count, offset)) = pool_loop (count + 1) count (start_pool count, offset)
  after_count (err e) = some (err e)
  after_count panic = some panic

  unfoldable pub parse_constant_pool_minimal : ℕ → Option (Result (Pool × ℕ))
  unfolding pool_loop
  parse_constant_pool_minimal offset = after_count (read_u16_class bytes offset)
