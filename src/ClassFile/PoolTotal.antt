-- ===== src/ClassFile/PoolTotal.antt =====
-- The minimal constant pool reader of src/scan.rs ends.
use inspequte.Base.{
  ℕ, zero, suc, ◌+◌, ◌^◌, ◌≤◌, ◌<◌, ◌≡◌, refl, ◌∙◌, ◌||◌, Option, none, some, List, [], ◌∷◌, length,
  arith, Bool-cases, inl, inr, ltb, ltb→lt, ◌==◌, get_elem?,
}
use inspequte.Base.Result.{
  Result, ok, err, panic, Returns, Returns-bind, Settles-value, Settles-if, settled, context,
  class_file_out_of_bounds,
}
use inspequte.Base.Members.{get_elem?-bound}
use inspequte.Bytecode.Lengths.{context-Returns}
use inspequte.ClassFile.{read_bytes_class, skip_class_bytes, read_u8_class, read_u16_class}
use inspequte.ClassFile.Cursor.{
  skip_class_bytes-Moves, read_u16_class-MovesWith, read_bytes_class-IsRead,
}
use inspequte.ClassFile.Pool.{
  Pool, no_classes, next_index, set_class, skipped_width, read_utf8, read_class, read_wide,
  read_skipped, read_entry, pool_step, next_round, pool_loop,
}
use Prim.Native.String.{String}

pub length-no_classes : (count : ℕ) → length (no_classes count) ≡ count
length-no_classes zero = refl
length-no_classes (suc count) = omega (arith, length-no_classes count)

set_class-length :
    (index name_index : ℕ) (classes : List (Option ℕ))
    → index < length classes
    → Returns (λ cs. length cs ≡ length classes) (set_class index name_index classes)
unfolding set_class
set_class-length index name_index [] h = absurd (omega arith)
set_class-length zero name_index (c ∷ classes) h = refl
set_class-length (suc index) name_index (c ∷ classes) h =
    Returns-bind _ _ (set_class index name_index classes) _
      (set_class-length index name_index classes (omega arith)) λ rest e. omega (arith, e)

next_index-Returns :
    (index : ℕ) → index + 1 < 2 ^ 16 → Returns (λ n. n ≡ index + 1) (next_index index)
unfolding next_index
next_index-Returns index h = elim (Bool-cases (ltb (index + 1) (2 ^ 16))) [
  | inl e ↦ rw (e, Returns) refl
  | inr e ↦ absurd (ground arith)
]

module _ (from_utf8_lossy : List ℕ → String) (bytes : List ℕ) (count : ℕ) where
  -- what a step keeps of the loop's variables: as many classes as entries, and a cursor in the file
  abbrev Kept : ℕ → ℕ → Pool × ℕ → Type 0
  Kept low high s =
      (length s.0.class_entries ≡ count)
      × (low ≤ s.0.index)
      × (s.0.index ≤ high)
      × (s.1 ≤ length bytes)

  read_u8-inside : (offset : ℕ) → Returns (λ r. r.1 ≤ length bytes) (read_u8_class bytes offset)
  unfolding read_u8_class
  read_u8-inside offset =
      Returns-bind (λ b. offset + 1 ≤ length bytes) _
        (context class_file_out_of_bounds (get_elem? bytes offset)) _
        (context-Returns _ class_file_out_of_bounds (get_elem? bytes offset)
          λ b e. omega (arith, get_elem?-bound bytes offset e))
        λ b h. h

  module _ (pool : Pool) (classes : length pool.class_entries ≡ count) where
    abbrev Entry : Result (Pool × ℕ) → Type 0
    Entry = Returns (Kept pool.index (pool.index + 1))

    read_utf8-Kept : (offset : ℕ) → Entry (read_utf8 from_utf8_lossy bytes pool offset)
    unfolding read_utf8
    read_utf8-Kept offset =
        Returns-bind _ _ (read_u16_class bytes offset) _ (read_u16_class-MovesWith bytes offset)
          λ r h.
            Returns-bind _ _ (read_bytes_class bytes r.0 r.1) _
              (read_bytes_class-IsRead bytes r.0 r.1)
              λ q g. (classes, omega arith, omega arith, omega (arith, g.1, g.2))

    read_class-Kept :
        pool.index < count → (offset : ℕ) → Entry (read_class from_utf8_lossy bytes pool offset)
    unfolding read_class
    read_class-Kept below offset =
        Returns-bind _ _ (read_u16_class bytes offset) _ (read_u16_class-MovesWith bytes offset)
          λ r h.
            Returns-bind _ _ (set_class pool.index r.0 pool.class_entries) _
              (set_class-length pool.index r.0 pool.class_entries (omega (arith, classes, below)))
              λ cs e. (e ∙ classes, omega arith, omega arith, h.1)

    read_wide-Kept :
        pool.index + 1 < 2 ^ 16 → (offset : ℕ) → Entry (read_wide from_utf8_lossy bytes pool offset)
    unfolding read_wide
    read_wide-Kept short offset =
        Returns-bind _ _ (skip_class_bytes bytes 8 offset) _ (skip_class_bytes-Moves bytes 8 offset)
          λ next h.
            Returns-bind _ _ (next_index pool.index) _ (next_index-Returns pool.index short)
              λ index e. (classes, omega (arith, e), omega (arith, e), h.1)

    read_skipped-Kept :
        (offset : ℕ) (width : Option ℕ)
        → Entry (read_skipped from_utf8_lossy bytes pool offset width)
    read_skipped-Kept offset none = tt
    read_skipped-Kept offset (some width) =
        Returns-bind _ _ (skip_class_bytes bytes width offset) _
          (skip_class_bytes-Moves bytes width offset)
          λ next h. (classes, omega arith, omega arith, h.1)

    read_entry-Kept :
        pool.index < count
        → pool.index + 1 < 2 ^ 16
        → (tag offset : ℕ) → Entry (read_entry from_utf8_lossy bytes tag pool offset)
    unfolding read_entry
    read_entry-Kept below short tag offset = Settles-value (
        Settles-if (tag == 1) (settled (read_utf8-Kept offset)) (
          Settles-if (tag == 7) (settled (read_class-Kept below offset)) (
            Settles-if (tag == 5 || tag == 6) (settled (read_wide-Kept short offset))
              (settled (read_skipped-Kept offset (skipped_width tag))))))

  pool_step-Kept :
      count + 1 < 2 ^ 16
      → (s : Pool × ℕ) → length s.0.class_entries ≡ count
      → s.0.index < count
      → Returns (Kept (s.0.index + 1) (count + 1)) (pool_step from_utf8_lossy bytes s)
  unfolding pool_step
  pool_step-Kept short (pool, offset) classes below =
      Returns-bind _ _ (read_u8_class bytes offset) _ (read_u8-inside offset) λ t _.
        Returns-bind _ _ (read_entry from_utf8_lossy bytes t.0 pool t.1) _
          (read_entry-Kept pool classes below (omega (arith, short, below)) t.0 t.1)
          λ r k.
            Returns-bind _ _ (next_index r.0.index) _
              (next_index-Returns r.0.index (omega (arith, short, below, k.2)))
              λ index e. (k.0, omega (arith, e, k.1), omega (arith, e, below, k.2), k.3)

  -- the loop ends, with an error or with a pool of all indices
  abbrev Loops : Option (Result (Pool × ℕ)) → Type 0
  Loops o = (r : Result (Pool × ℕ)) × (o ≡ some r) × Returns (Kept count (count + 1)) r

  round-Loops :
      (continue : Pool × ℕ → Option (Result (Pool × ℕ))) (low : ℕ) (r : Result (Pool × ℕ))
      → Returns (Kept low (count + 1)) r
      → ((s : Pool × ℕ) → Kept low (count + 1) s → Loops (continue s))
      → Loops (next_round from_utf8_lossy bytes continue r)
  round-Loops continue low (ok s) k f = f s k
  round-Loops continue low (err e) k f = (err e, refl, tt)
  round-Loops continue low panic k f = elim k [ ]

  pub pool_loop-Loops :
      count + 1 < 2 ^ 16
      → (fuel : ℕ) (s : Pool × ℕ) → Kept 0 (count + 1) s
      → 1 ≤ fuel
      → count + 1 ≤ fuel + s.0.index
      → Loops (pool_loop from_utf8_lossy bytes fuel count s)
  unfolding pool_loop
  pool_loop-Loops short zero s k f h = absurd (omega arith)
  pool_loop-Loops short (suc fuel) s k f h = elim (Bool-cases (ltb s.0.index count)) [
    | inr done ↦ (ok s, rw done refl, (k.0, ground arith, k.2, k.3))
    | inl more ↦
        let below = ltb→lt s.0.index count more in
        let (r, e, g) =
          round-Loops (pool_loop from_utf8_lossy bytes fuel count) (s.0.index + 1)
            (pool_step from_utf8_lossy bytes s) (pool_step-Kept short s k.0 below)
            λ t j.
              pool_loop-Loops short fuel t (j.0, omega arith, j.2, j.3) (omega (arith, below, h))
                (omega (arith, h, j.1)) in
        (r, rw more e, g)
  ]
