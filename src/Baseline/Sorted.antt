-- ===== src/Baseline/Sorted.antt =====
-- `BTreeSet::insert`, `sort` and `dedup` of src/baseline.rs leave sorted lists.
use inspequte.Base.{◌≡◌, subst, sym, List, [], ◌∷◌, All, All-imp, Ordering}
use inspequte.Base.Orders.{
  less, equal, greater, answer, Follows, AtMost, AtMost-Follows, AtMost-reverse,
}
use inspequte.Baseline.{set_insert, sort_insert, sort, dedup}
use inspequte.Baseline.Search.{Ordered}

module _ {ℓ} {A : Type ℓ} (cmp : A → A → Ordering) (self_equal : (a : A) → cmp a a ≡ Ordering.eq)
    (follows : (a b c : A) → Follows (cmp a b) (cmp b c) (cmp a c)) where
  -- an element that is at most the first is at most all
  before :
      (x y : A) (ys : List A)
      → AtMost (cmp x y)
      → All (λ z. AtMost (cmp y z)) ys
      → All (λ z. AtMost (cmp x z)) ys
  before x y ys h = All-imp (λ z k. AtMost-Follows _ _ _ (follows x y z) h k) ys

  above : (x y : A) → cmp x y ≡ Ordering.gt → AtMost (cmp y x)
  above x y e = AtMost-reverse (cmp x y) (cmp y x) (cmp x x) (follows x y x) (self_equal x) e

  module _ {κ} (P : A → Type κ) where
    set_insert-All : (x : A) (ys : List A) → P x → All P ys → All P (set_insert cmp x ys)
    unfolding set_insert
    set_insert-All x [] h hs = (h, tt)
    set_insert-All x (y ∷ ys) h (k, ks) = elim (answer (cmp x y)) [
      | less e ↦ rw (e, set_insert, All) (h, (k, ks))
      | equal e ↦ rw (e, set_insert, All) (k, ks)
      | greater e ↦ rw (e, set_insert, All) (k, set_insert-All x ys h ks)
    ]

    sort_insert-All : (x : A) (ys : List A) → P x → All P ys → All P (sort_insert cmp x ys)
    unfolding sort_insert
    sort_insert-All x [] h hs = (h, tt)
    sort_insert-All x (y ∷ ys) h (k, ks) = elim (answer (cmp x y)) [
      | less e ↦ rw (e, sort_insert, All) (h, (k, ks))
      | equal e ↦ rw (e, sort_insert, All) (h, (k, ks))
      | greater e ↦ rw (e, sort_insert, All) (k, sort_insert-All x ys h ks)
    ]

    dedup-All : (ys : List A) → All P ys → All P (dedup cmp ys)
    unfolding dedup
    dedup-All [] h = tt
    dedup-All (x ∷ []) h = h
    dedup-All (x ∷ y ∷ ys) (h, hs) = elim (answer (cmp x y)) [
      | less e ↦ rw (e, dedup, All) (h, dedup-All (y ∷ ys) hs)
      | equal e ↦ rw (e, dedup, All) (dedup-All (y ∷ ys) hs)
      | greater e ↦ rw (e, dedup, All) (h, dedup-All (y ∷ ys) hs)
    ]

  pub set_insert-Ordered :
      (x : A) (ys : List A) → Ordered cmp ys → Ordered cmp (set_insert cmp x ys)
  unfolding set_insert
  set_insert-Ordered x [] s = (tt, tt)
  set_insert-Ordered x (y ∷ ys) (h, hs) = elim (answer (cmp x y)) [
    | less e ↦
        let below : AtMost (cmp x y) = subst AtMost (sym e) tt in
        rw (e, set_insert, Ordered) ((below, before x y ys below h), (h, hs))
    | equal e ↦ rw (e, set_insert, Ordered) (h, hs)
    | greater e ↦
        rw (e, set_insert, Ordered)
          (set_insert-All _ x ys (above x y e) h, set_insert-Ordered x ys hs)
  ]

  sort_insert-Ordered : (x : A) (ys : List A) → Ordered cmp ys → Ordered cmp (sort_insert cmp x ys)
  unfolding sort_insert
  sort_insert-Ordered x [] s = (tt, tt)
  sort_insert-Ordered x (y ∷ ys) (h, hs) = elim (answer (cmp x y)) [
    | less e ↦
        let below : AtMost (cmp x y) = subst AtMost (sym e) tt in
        rw (e, sort_insert, Ordered) ((below, before x y ys below h), (h, hs))
    | equal e ↦
        let below : AtMost (cmp x y) = subst AtMost (sym e) tt in
        rw (e, sort_insert, Ordered) ((below, before x y ys below h), (h, hs))
    | greater e ↦
        rw (e, sort_insert, Ordered)
          (sort_insert-All _ x ys (above x y e) h, sort_insert-Ordered x ys hs)
  ]

  pub sort-Ordered : (xs : List A) → Ordered cmp (sort cmp xs)
  unfolding sort
  sort-Ordered [] = tt
  sort-Ordered (x ∷ xs) = sort_insert-Ordered x (sort cmp xs) (sort-Ordered xs)

  pub dedup-Ordered : (xs : List A) → Ordered cmp xs → Ordered cmp (dedup cmp xs)
  unfolding dedup
  dedup-Ordered [] s = tt
  dedup-Ordered (x ∷ []) s = s
  dedup-Ordered (x ∷ y ∷ ys) (h, hs) = elim (answer (cmp x y)) [
    | less e ↦ rw (e, dedup, Ordered) (dedup-All _ (y ∷ ys) h, dedup-Ordered (y ∷ ys) hs)
    | equal e ↦ rw (e, dedup, Ordered) (dedup-Ordered (y ∷ ys) hs)
    | greater e ↦ rw (e, dedup, Ordered) (dedup-All _ (y ∷ ys) h, dedup-Ordered (y ∷ ys) hs)
  ]
