-- ===== src/Examples/ClassFile.antt =====
-- A class file without members.
use inspequte.Base.{ℕ, ◌+◌, ◌^◌, ◌<◌, ◌≡◌, refl, sym, ap, ◌∙◌, subst, some, List, [], ◌∷◌, arith}
use inspequte.Base.Result.{Result, ok, ok-injective, Returns}
use inspequte.ClassFile.{read_bytes_class, read_u16_class, read_u32_class}
use inspequte.ClassFile.Minimal.{ParsedClass, read_header, parse_class_bytes_minimal}
use inspequte.ClassFile.MinimalTotal.{NoSelf, parse_class_bytes_minimal_total}
use inspequte.Signature.Grammar.{latin}

-- class A, with no superclass
abbrev bytes : List ℕ
bytes =
    202 ∷ 254 ∷ 186 ∷ 190 ∷ 0 ∷ 0 ∷ 0 ∷ 52 ∷ 0 ∷ 3 ∷ 1 ∷ 0 ∷ 1 ∷ 65 ∷ 7 ∷ 0 ∷ 1 ∷ 0 ∷ 33 ∷ 0 ∷ 2 ∷ 0
    ∷ 0 ∷ 0 ∷ 0 ∷ 0 ∷ 0 ∷ 0 ∷ 0 ∷ 0 ∷ 0 ∷ []

header_lem : read_header latin bytes ≡ ok 8
unfolding read_header read_u32_class read_u16_class read_bytes_class
header_lem = refl

count_lem : read_u16_class bytes 8 ≡ ok (3, 10)
unfolding read_u16_class read_bytes_class
count_lem = refl

short_pool : (count next : ℕ) → read_u16_class bytes 8 ≡ ok (count, next) → count + 1 < 2 ^ 16
short_pool count next h =
    let same : count ≡ 3 = ap (λ (r : ℕ × ℕ). r.0) (ok-injective (sym h ∙ count_lem)) in
    omega (arith, same)

parse_class_bytes_minimal_total_example :
    (r : Result ParsedClass) × (parse_class_bytes_minimal latin bytes ≡ some r) × Returns NoSelf r
parse_class_bytes_minimal_total_example = parse_class_bytes_minimal_total latin bytes λ offset h.
    subst (λ at. (count next : ℕ) → read_u16_class bytes at ≡ ok (count, next) → count + 1 < 2 ^ 16)
      (ok-injective (sym header_lem ∙ h)) short_pool
