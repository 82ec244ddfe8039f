-- ===== src/Methods/Lines.antt =====
-- The lines of a method: `parse_line_numbers` of src/scan.rs and `line_for_offset` of src/ir.rs.
use inspequte.Base.{
  ℕ, ◌≤◌, ◌<◌, ◌≡◌, refl, sym, subst, Option, none, some, List, [], ◌∷◌, arith, All, All-imp,
  Bool-cases, inl, inr, leb, leb→le, leb-false,
}
use inspequte.Base.Members.{all_members, member}
use inspequte.Base.Sorting.{
  sort_by_key, Ascending, sort_by_key-All, All-sort_by_key, sort_by_key-Ascending,
}
use inspequte.Ir.{LineNumber, Method, line_loop, line_for_offset}
use inspequte.Methods.{LineRecord, collect_lines, parse_line_numbers}
use mathlib.Core.List.{Memᴰ}

-- The line of an offset among entries in any order: of an entry with the largest start that is not
-- beyond the offset, and none when all entries start beyond it.
abbrev pub IsLineAt : List LineNumber → ℕ → Option ℕ → Type 0
IsLineAt entries offset none = All (λ (x : LineNumber). offset < x.start_pc) entries
IsLineAt entries offset (some line) =
    (e : LineNumber) × Memᴰ e entries
    × (e.line ≡ line)
    × (e.start_pc ≤ offset)
    × All (λ (x : LineNumber). x.start_pc ≤ offset → x.start_pc ≤ e.start_pc) entries

abbrev start_of : LineNumber → ℕ
start_of x = x.start_pc

-- the loop from a candidate on
from_candidate :
    (offset : ℕ) (c : LineNumber) (xs : List LineNumber)
    → c.start_pc ≤ offset
    → All (λ (x : LineNumber). c.start_pc ≤ x.start_pc) xs
    → Ascending start_of xs
    → (e : LineNumber) × Memᴰ e (c ∷ xs)
      × (line_loop offset (some c.line) xs ≡ some e.line)
      × (c.start_pc ≤ e.start_pc)
      × (e.start_pc ≤ offset)
      × All (λ (x : LineNumber). x.start_pc ≤ offset → x.start_pc ≤ e.start_pc) xs
unfolding line_loop
from_candidate offset c [] h least a = (c, Memᴰ.head refl, refl, omega arith, h, tt)
from_candidate offset c (x ∷ xs) h (first, least) (above, a) =
    elim (Bool-cases (leb x.start_pc offset)) [
      | inl e ↦
          let (y, m, r, g, k, all) =
            from_candidate offset x xs (leb→le x.start_pc offset e) above a in
          (y, Memᴰ.tail m, rw e r, omega (arith, first, g), k, ((λ _. g), all))
      | inr e ↦
          let beyond = leb-false x.start_pc offset e in
          (
            c,
            Memᴰ.head refl,
            rw e refl,
            omega arith,
            h,
            (
              (λ k. absurd (omega (arith, beyond, k))),
              All-imp (λ y l k. absurd (omega (arith, beyond, l, k))) xs above,
            ),
          )
    ]

sorted_lines :
    (offset : ℕ) (xs : List LineNumber)
    → Ascending start_of xs
    → IsLineAt xs offset (line_loop offset none xs)
unfolding line_loop
sorted_lines offset [] a = tt
sorted_lines offset (x ∷ xs) (above, a) = elim (Bool-cases (leb x.start_pc offset)) [
  | inl e ↦
      let (y, m, r, g, k, all) = from_candidate offset x xs (leb→le x.start_pc offset e) above a in
      rw (e, r, IsLineAt) (y, m, refl, k, ((λ _. g), all))
  | inr e ↦
      let beyond = leb-false x.start_pc offset e in
      rw (e, IsLineAt) (beyond, All-imp (λ y l. omega (arith, beyond, l)) xs above)
]

unsorted :
    (xs : List LineNumber) (offset : ℕ) (o : Option ℕ)
    → IsLineAt (sort_by_key start_of xs) offset o
    → IsLineAt xs offset o
unsorted xs offset none h = All-sort_by_key start_of _ xs h
unsorted xs offset (some line) (e, m, r, k, all) = (
  e,
  member (λ x. Memᴰ x xs) (sort_by_key start_of xs) e
      (sort_by_key-All start_of (λ x. Memᴰ x xs) xs (all_members (λ x. Memᴰ x xs) xs λ x k. k)) m,
  r,
  k,
  All-sort_by_key start_of _ xs all,
)

-- For a method with the line numbers of its tables, `line_for_offset` gives the line of an entry of the
-- tables with the largest start that is not beyond the offset, in whatever order the entries stand,
-- and none only when all entries start beyond it.
pub line_for_offset-parse_line_numbers :
    (method : Method) (tables : List (Option (List LineRecord))) (offset : ℕ)
    → method.line_numbers ≡ parse_line_numbers tables
    → IsLineAt (collect_lines tables) offset (line_for_offset method offset)
unfolding line_for_offset parse_line_numbers
line_for_offset-parse_line_numbers method tables offset e =
    unsorted (collect_lines tables) offset (line_for_offset method offset) (
      subst
        (λ ns.
          IsLineAt (sort_by_key start_of (collect_lines tables)) offset (line_loop offset none ns))
        (sym e)
        (sorted_lines offset (sort_by_key start_of (collect_lines tables))
          (sort_by_key-Ascending start_of (collect_lines tables))))
