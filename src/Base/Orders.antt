-- ===== src/Base/Orders.antt =====
-- Comparisons as orders: what the answers on three values have to do with one another.
use Prim.Native.Nat.{ℕ, Ordering, compare}
use Prim.Native.Char.{Char, code}
use Prim.Native.String.{String, [], ◌∷◌, compare as compare_text, then}
use Prim.Native.String.compare as text_clauses
use native.Mathlib.Omega.{arith}
use mathlib.Core.Path.{◌≡◌, refl, sym, subst}

-- the answers of a comparison
pub data Answer (o : Ordering) : Type 0 where
  less : o ≡ Ordering.lt → Answer o
  equal : o ≡ Ordering.eq → Answer o
  greater : o ≡ Ordering.gt → Answer o

pub answer : (o : Ordering) → Answer o
answer Ordering.lt = less refl
answer Ordering.eq = equal refl
answer Ordering.gt = greater refl

-- the derived orders: the first answer that is not `eq`
abbrev pub chain : Ordering → Ordering → Ordering
chain o p = then o p

-- `q` compares the first of three values with the third, when `o` compares it with the second and `p`
-- the second with the third
abbrev pub Follows : Ordering → Ordering → Ordering → Type 0
Follows Ordering.lt Ordering.gt q = Unit
Follows Ordering.lt p q = q ≡ Ordering.lt
Follows Ordering.eq p q = q ≡ p
Follows Ordering.gt Ordering.lt q = Unit
Follows Ordering.gt p q = q ≡ Ordering.gt

pub below_Follows : (o : Ordering) → Follows Ordering.lt o Ordering.lt
below_Follows Ordering.lt = refl
below_Follows Ordering.eq = refl
below_Follows Ordering.gt = tt

pub above_Follows : (o : Ordering) → Follows Ordering.gt o Ordering.gt
above_Follows Ordering.lt = tt
above_Follows Ordering.eq = refl
above_Follows Ordering.gt = refl

pub Follows-above : (o : Ordering) → Follows o Ordering.gt Ordering.gt
Follows-above Ordering.lt = tt
Follows-above Ordering.eq = refl
Follows-above Ordering.gt = refl

pub Follows-below : (o : Ordering) → Follows o Ordering.lt Ordering.lt
Follows-below Ordering.lt = refl
Follows-below Ordering.eq = refl
Follows-below Ordering.gt = tt

pub Follows-same : (o : Ordering) → Follows Ordering.eq o o
Follows-same o = refl

pub chain-Follows :
    (o p q o' p' q' : Ordering)
    → Follows o p q
    → Follows o' p' q'
    → Follows (chain o o') (chain p p') (chain q q')
chain-Follows Ordering.lt Ordering.lt q o' p' q' h k = rw h refl
chain-Follows Ordering.lt Ordering.eq q o' Ordering.lt q' h k = rw h refl
chain-Follows Ordering.lt Ordering.eq q o' Ordering.eq q' h k = rw h refl
chain-Follows Ordering.lt Ordering.eq q o' Ordering.gt q' h k = tt
chain-Follows Ordering.lt Ordering.gt q o' p' q' h k = tt
chain-Follows Ordering.gt Ordering.gt q o' p' q' h k = rw h refl
chain-Follows Ordering.gt Ordering.eq q o' Ordering.lt q' h k = tt
chain-Follows Ordering.gt Ordering.eq q o' Ordering.eq q' h k = rw h refl
chain-Follows Ordering.gt Ordering.eq q o' Ordering.gt q' h k = rw h refl
chain-Follows Ordering.gt Ordering.lt q o' p' q' h k = tt
chain-Follows Ordering.eq Ordering.eq q o' p' q' h k = rw h k
chain-Follows Ordering.eq Ordering.lt q Ordering.lt p' q' h k = rw h refl
chain-Follows Ordering.eq Ordering.lt q Ordering.eq p' q' h k = rw h refl
chain-Follows Ordering.eq Ordering.lt q Ordering.gt p' q' h k = tt
chain-Follows Ordering.eq Ordering.gt q Ordering.lt p' q' h k = tt
chain-Follows Ordering.eq Ordering.gt q Ordering.eq p' q' h k = rw h refl
chain-Follows Ordering.eq Ordering.gt q Ordering.gt p' q' h k = rw h refl

pub compare-Follows : (l m n : ℕ) → Follows (compare l m) (compare m n) (compare l n)
compare-Follows l m n = elim (answer (compare l m)) [
  | less e ↦ elim (answer (compare m n)) [
    | less f ↦ rw (e, f) (ground (arith, e, f))
    | equal f ↦ rw (e, f) (ground (arith, e, f))
    | greater f ↦ rw (e, f) tt
  ]
  | equal e ↦ elim (answer (compare m n)) [
    | less f ↦ rw (e, f) (ground (arith, e, f))
    | equal f ↦ rw (e, f) (ground (arith, e, f))
    | greater f ↦ rw (e, f) (ground (arith, e, f))
  ]
  | greater e ↦ elim (answer (compare m n)) [
    | less f ↦ rw (e, f) tt
    | equal f ↦ rw (e, f) (ground (arith, e, f))
    | greater f ↦ rw (e, f) (ground (arith, e, f))
  ]
]

pub compare_reverse-Follows : (l m n : ℕ) → Follows (compare m l) (compare n m) (compare n l)
compare_reverse-Follows l m n = elim (answer (compare m l)) [
  | less e ↦ elim (answer (compare n m)) [
    | less f ↦ rw (e, f) (ground (arith, e, f))
    | equal f ↦ rw (e, f) (ground (arith, e, f))
    | greater f ↦ rw (e, f) tt
  ]
  | equal e ↦ elim (answer (compare n m)) [
    | less f ↦ rw (e, f) (ground (arith, e, f))
    | equal f ↦ rw (e, f) (ground (arith, e, f))
    | greater f ↦ rw (e, f) (ground (arith, e, f))
  ]
  | greater e ↦ elim (answer (compare n m)) [
    | less f ↦ rw (e, f) tt
    | equal f ↦ rw (e, f) (ground (arith, e, f))
    | greater f ↦ rw (e, f) (ground (arith, e, f))
  ]
]

text_nil : compare_text [] [] ≡ Ordering.eq
text_nil = λ i. text_clauses.nil-nil i

text_less : (d : Char) (t : String) → compare_text [] (d ∷ t) ≡ Ordering.lt
text_less d t = λ i. text_clauses.nil-cons d t i

text_greater : (c : Char) (s : String) → compare_text (c ∷ s) [] ≡ Ordering.gt
text_greater c s = λ i. text_clauses.cons-nil c s i

text_cons :
    (c d : Char) (s t : String)
    → compare_text (c ∷ s) (d ∷ t) ≡ chain (compare (code c) (code d)) (compare_text s t)
text_cons c d s t = λ i. text_clauses.cons-cons c d s t i

pub compare_text-Follows :
    (s t u : String) → Follows (compare_text s t) (compare_text t u) (compare_text s u)
compare_text-Follows [] [] [] = rw text_nil refl
compare_text-Follows [] [] (e ∷ u) = refl
compare_text-Follows [] (d ∷ t) [] = rw (text_less d t, text_greater d t) tt
compare_text-Follows [] (d ∷ t) (e ∷ u) = rw (text_less d t, text_less e u) (below_Follows _)
compare_text-Follows (c ∷ s) [] [] = rw (text_nil, text_greater c s) refl
compare_text-Follows (c ∷ s) [] (e ∷ u) = rw (text_greater c s, text_less e u) tt
compare_text-Follows (c ∷ s) (d ∷ t) [] = rw (text_greater d t, text_greater c s) (Follows-above _)
compare_text-Follows (c ∷ s) (d ∷ t) (e ∷ u) =
    rw (text_cons c d s t, text_cons d e t u, text_cons c e s u)
      (chain-Follows (compare (code c) (code d)) (compare (code d) (code e))
        (compare (code c) (code e)) (compare_text s t) (compare_text t u) (compare_text s u)
        (compare-Follows (code c) (code d) (code e)) (compare_text-Follows s t u))

-- not greater
abbrev pub AtMost : Ordering → Type 0
AtMost Ordering.gt = ⊥
AtMost o = Unit

pub AtMost-Follows : (o p q : Ordering) → Follows o p q → AtMost o → AtMost p → AtMost q
AtMost-Follows Ordering.lt Ordering.lt q f h k = subst AtMost (sym f) tt
AtMost-Follows Ordering.lt Ordering.eq q f h k = subst AtMost (sym f) tt
AtMost-Follows Ordering.lt Ordering.gt q f h k = elim k [ ]
AtMost-Follows Ordering.eq p q f h k = subst AtMost (sym f) k
AtMost-Follows Ordering.gt p q f h k = elim h [ ]

-- the answer with the two values the other way round, where `r` compares a value with itself
pub AtMost-reverse :
    (o p r : Ordering) → Follows o p r → r ≡ Ordering.eq → o ≡ Ordering.gt → AtMost p
AtMost-reverse o Ordering.lt r f e g = tt
AtMost-reverse o Ordering.eq r f e g = tt
AtMost-reverse Ordering.lt Ordering.gt r f e g = cc g
AtMost-reverse Ordering.eq Ordering.gt r f e g = cc g
AtMost-reverse Ordering.gt Ordering.gt r f e g = absurd (cc (f, e))
