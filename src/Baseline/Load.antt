-- ===== src/Baseline/Load.antt =====
-- A baseline read from a file, in src/baseline.rs: the order and the repetitions of its entries.
use inspequte.Base.{◌≡◌, ◌↔◌, ◌∙◌, List, [], ◌∷◌, Ordering}
use inspequte.Baseline.{
  SarifResult, Baseline, compare_entry, sort_insert, sort, dedup, entry_from, filter, load_baseline,
}
use inspequte.Base.Orders.{less, equal, greater, answer}
use inspequte.Baseline.Order.{Decides, compare_entry-Decides, compare_entry-Follows}
use inspequte.Baseline.Sorted.{sort-Ordered, dedup-Ordered}
use inspequte.Baseline.Filter.{filter-Mem}
use mathlib.Core.List.{Memᴰ}

module _ {ℓ} {A : Type ℓ} where
  -- the members stay
  abbrev pub SameMembers : List A → List A → Type ℓ
  SameMembers xs ys = (z : A) → Memᴰ z xs ↔ Memᴰ z ys

  under : {xs ys : List A} (x z : A) → (Memᴰ z xs → Memᴰ z ys) → Memᴰ z (x ∷ xs) → Memᴰ z (x ∷ ys)
  under x z f (Memᴰ.head e) = Memᴰ.head e
  under x z f (Memᴰ.tail m) = Memᴰ.tail (f m)

  swap : (x y z : A) (ys : List A) → Memᴰ z (x ∷ y ∷ ys) → Memᴰ z (y ∷ x ∷ ys)
  swap x y z ys (Memᴰ.head e) = Memᴰ.tail (Memᴰ.head e)
  swap x y z ys (Memᴰ.tail (Memᴰ.head e)) = Memᴰ.head e
  swap x y z ys (Memᴰ.tail (Memᴰ.tail m)) = Memᴰ.tail (Memᴰ.tail m)

module _ {ℓ} {A : Type ℓ} (cmp : A → A → Ordering) where
  sort_insert-SameMembers : (x : A) (ys : List A) → SameMembers (sort_insert cmp x ys) (x ∷ ys)
  unfolding sort_insert
  sort_insert-SameMembers x [] z = ((λ m. m), λ m. m)
  sort_insert-SameMembers x (y ∷ ys) z = elim (answer (cmp x y)) [
    | less e ↦ rw (e, sort_insert) ((λ m. m), λ m. m)
    | equal e ↦ rw (e, sort_insert) ((λ m. m), λ m. m)
    | greater e ↦
        rw (e, sort_insert)
          (
            (λ m. swap y x z ys (under y z (sort_insert-SameMembers x ys z).0 m)),
            λ m. under y z (sort_insert-SameMembers x ys z).1 (swap x y z ys m),
          )
  ]

  pub sort-SameMembers : (xs : List A) → SameMembers (sort cmp xs) xs
  unfolding sort
  sort-SameMembers [] z = ((λ m. m), λ m. m)
  sort-SameMembers (x ∷ xs) z = (
    (λ m. under x z (sort-SameMembers xs z).0 ((sort_insert-SameMembers x (sort cmp xs) z).0 m)),
    λ m. (sort_insert-SameMembers x (sort cmp xs) z).1 (under x z (sort-SameMembers xs z).1 m),
  )

module _ {ℓ} {A : Type ℓ} (cmp : A → A → Ordering) (decides : Decides cmp) where
  drop_equal : (x y z : A) (ys : List A) → x ≡ y → Memᴰ z (x ∷ y ∷ ys) → Memᴰ z (y ∷ ys)
  drop_equal x y z ys e (Memᴰ.head f) = Memᴰ.head (f ∙ e)
  drop_equal x y z ys e (Memᴰ.tail m) = m

  dedup-SameMembers : (xs : List A) → SameMembers (dedup cmp xs) xs
  unfolding dedup
  dedup-SameMembers [] z = ((λ m. m), λ m. m)
  dedup-SameMembers (x ∷ []) z = ((λ m. m), λ m. m)
  dedup-SameMembers (x ∷ y ∷ ys) z = elim (answer (cmp x y)) [
    | equal e ↦
        rw (e, dedup)
          (
            (λ m. Memᴰ.tail ((dedup-SameMembers (y ∷ ys) z).0 m)),
            λ m. (dedup-SameMembers (y ∷ ys) z).1 (drop_equal x y z ys (decides.sound x y e) m),
          )
    | less e ↦
        rw (e, dedup)
          (under x z (dedup-SameMembers (y ∷ ys) z).0, under x z (dedup-SameMembers (y ∷ ys) z).1)
    | greater e ↦
        rw (e, dedup)
          (under x z (dedup-SameMembers (y ∷ ys) z).0, under x z (dedup-SameMembers (y ∷ ys) z).1)
  ]

-- The filter by a loaded baseline keeps exactly the results whose entry is not in the file, whatever
-- the order and the repetitions of the entries there.
pub filter-load_baseline :
    (baseline : Baseline) (results : List SarifResult) (r : SarifResult)
    → Memᴰ r (filter (load_baseline baseline) results)
      ↔ (Memᴰ r results × (¬ Memᴰ (entry_from r) baseline.findings))
unfolding load_baseline
filter-load_baseline baseline results r =
    let sorted = sort-SameMembers compare_entry baseline.findings (entry_from r) in
    let single =
      dedup-SameMembers compare_entry compare_entry-Decides (sort compare_entry baseline.findings)
        (entry_from r) in
    let kept =
      filter-Mem (load_baseline baseline)
        (dedup-Ordered compare_entry compare_entry-Decides.same compare_entry-Follows
          (sort compare_entry baseline.findings)
          (sort-Ordered compare_entry compare_entry-Decides.same compare_entry-Follows
            baseline.findings))
        results r in
    (
      (λ m. ((kept.0 m).0, λ k. (kept.0 m).1 (single.1 (sorted.1 k)))),
      λ h. kept.1 (h.0, λ k. h.1 (sorted.0 (single.0 k))),
    )
