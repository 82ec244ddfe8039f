-- ===== src/Base/Sorting.antt =====
-- `sort_by_key`, which is stable: by insertion.
use inspequte.Base.Tests.{leb, leb→le, leb-false, Bool-cases, if◌then◌else◌}
use inspequte.Base.Lists.{All, All-imp}
use Prim.Native.Nat.{ℕ, ◌≤◌}
use native.Mathlib.Omega.{arith}
use mathlib.Core.Logic.{inl, inr}
use mathlib.Core.List.{List, [], ◌∷◌}

module _ {ℓ} {A : Type ℓ} (key : A → ℕ) where
  unfoldable pub insert_by_key : A → List A → List A
  insert_by_key x [] = x ∷ []
  insert_by_key x (y ∷ ys) = if leb (key x) (key y) then x ∷ y ∷ ys else y ∷ insert_by_key x ys

  unfoldable pub sort_by_key : List A → List A
  unfolding insert_by_key
  sort_by_key [] = []
  sort_by_key (x ∷ xs) = insert_by_key x (sort_by_key xs)

  -- every later key is at least as large
  abbrev pub Ascending : List A → Type ℓ
  Ascending [] = Unit
  Ascending (x ∷ xs) = All (λ y. key x ≤ key y) xs × Ascending xs

  module _ {κ} (P : A → Type κ) where
    insert_by_key-All : (x : A) (ys : List A) → P x → All P ys → All P (insert_by_key x ys)
    unfolding insert_by_key
    insert_by_key-All x [] p h = (p, tt)
    insert_by_key-All x (y ∷ ys) p (h, hs) = elim (Bool-cases (leb (key x) (key y))) [
      | inl e ↦ rw (e, All) (p, (h, hs))
      | inr e ↦ rw (e, All) (h, insert_by_key-All x ys p hs)
    ]

    pub sort_by_key-All : (xs : List A) → All P xs → All P (sort_by_key xs)
    unfolding sort_by_key
    sort_by_key-All [] h = tt
    sort_by_key-All (x ∷ xs) (h, hs) =
        insert_by_key-All x (sort_by_key xs) h (sort_by_key-All xs hs)

    All-insert_by_key : (x : A) (ys : List A) → All P (insert_by_key x ys) → P x × All P ys
    unfolding insert_by_key
    All-insert_by_key x [] h = h
    All-insert_by_key x (y ∷ ys) h = elim (Bool-cases (leb (key x) (key y))) [
      | inl e ↦ rw (e, All) at h
      | inr e ↦
          let (p, hs) : P y × All P (insert_by_key x ys) = rw (e, All) at h in
          let (q, qs) = All-insert_by_key x ys hs in (q, (p, qs))
    ]

    pub All-sort_by_key : (xs : List A) → All P (sort_by_key xs) → All P xs
    unfolding sort_by_key
    All-sort_by_key [] h = tt
    All-sort_by_key (x ∷ xs) h =
        let (p, hs) = All-insert_by_key x (sort_by_key xs) h in (p, All-sort_by_key xs hs)

  insert_by_key-Ascending : (x : A) (ys : List A) → Ascending ys → Ascending (insert_by_key x ys)
  unfolding insert_by_key
  insert_by_key-Ascending x [] h = (tt, tt)
  insert_by_key-Ascending x (y ∷ ys) (h, hs) = elim (Bool-cases (leb (key x) (key y))) [
    | inl e ↦
        let below = leb→le (key x) (key y) e in
        rw (e, Ascending) ((below, All-imp (λ z g. omega (arith, below, g)) ys h), (h, hs))
    | inr e ↦
        let above = leb-false (key x) (key y) e in
        rw (e, Ascending)
          (
            insert_by_key-All (λ z. key y ≤ key z) x ys (omega (arith, above)) h,
            insert_by_key-Ascending x ys hs,
          )
  ]

  pub sort_by_key-Ascending : (xs : List A) → Ascending (sort_by_key xs)
  unfolding sort_by_key
  sort_by_key-Ascending [] = tt
  sort_by_key-Ascending (x ∷ xs) =
      insert_by_key-Ascending x (sort_by_key xs) (sort_by_key-Ascending xs)
