-- ===== src/Dataflow/StackMachine/Tracked.antt =====
-- `tracked_ids` in `enforce_symbolic_identity_cap_u32` of src/dataflow/stack_machine.rs.
use inspequte.Base.{
  ℕ, zero, suc, ◌+◌, ◌≤◌, ◌<◌, ◌≡◌, refl, sym, ap, ◌∙◌, true, false, ◌||◌, List, [], ◌∷◌, ◌++◌,
  length, take, length-take, length-append, arith, ◌==◌, All, All-append, Bool-cases, inl, inr,
}
use inspequte.Base.BTree.{
  BTreeSet, contains, set_insert, from_iter, Ascending, Ascending-above, Ascending-tail,
  contains-set_insert,
}
use inspequte.Dataflow.StackMachine.{tracked_ids}
use mathlib.Core.List.{reverse, reverse-append}

length-set_insert : (k : ℕ) (s : BTreeSet) → length (set_insert k s) ≤ length s + 1
unfolding set_insert
length-set_insert k [] = omega arith
length-set_insert k (j ∷ s) = ground (arith, length-set_insert k s)

length-from_iter : (ks : List ℕ) → length (from_iter ks) ≤ length ks
unfolding from_iter
length-from_iter [] = omega arith
length-from_iter (k ∷ ks) = omega (arith, length-from_iter ks, length-set_insert k (from_iter ks))

contains-from_iter : (j : ℕ) (ks : List ℕ) → contains j (from_iter ks) ≡ contains j ks
unfolding from_iter contains
contains-from_iter j [] = refl
contains-from_iter j (k ∷ ks) =
    contains-set_insert j k (from_iter ks) ∙ ap (λ b. j == k || b) (contains-from_iter j ks)

-- each key is below those before it
abbrev Descending : List ℕ → Type 0
Descending [] = Unit
Descending (k ∷ []) = Unit
Descending (k ∷ j ∷ s) = (j < k) × Descending (j ∷ s)

contains_below : (j k : ℕ) (s : List ℕ) → Descending (k ∷ s) → contains j s ≡ true → j < k
unfolding contains
contains_below j k [] d c = cc
contains_below j k (i ∷ s) (h, d) c = ground (arith, contains_below j i s d)

take_one : (n k j : ℕ) → contains j (take (suc n) (k ∷ [])) ≡ false → contains j (k ∷ []) ≡ false
unfolding contains
take_one zero k j h = h
take_one (suc n) k j h = h

-- what a prefix of a descending list leaves out is below the prefix
take_above :
    (n : ℕ) (s : List ℕ) (i j : ℕ)
    → Descending s
    → contains i (take n s) ≡ true
    → contains j s ≡ true
    → contains j (take n s) ≡ false
    → j < i
unfolding contains
take_above zero s i j d ci cj nj = cc
take_above (suc n) [] i j d ci cj nj = cc
take_above (suc n) (k ∷ []) i j d ci cj nj = cc (cj, take_one n k j nj)
take_above (suc n) (k ∷ l ∷ s) i j d ci cj nj =
    ground (arith, contains_below j k (l ∷ s) d, take_above n (l ∷ s) i j d.1)

contains-append :
    (j : ℕ) (xs ys : List ℕ) → contains j (xs ++ ys) ≡ (contains j xs || contains j ys)
unfolding contains
contains-append j [] ys = refl
contains-append j (x ∷ xs) ys = ground (arith, contains-append j xs ys)

contains-reverse : (j : ℕ) (xs : List ℕ) → contains j (reverse xs) ≡ contains j xs
unfolding contains
contains-reverse j [] = refl
contains-reverse j (x ∷ xs) =
    ap (contains j) (reverse-append (x ∷ []) xs)
    ∙ ground (arith, contains-append j (reverse xs) (x ∷ []), contains-reverse j xs)

Descending-append :
    (x : ℕ) (xs : List ℕ) → Descending xs → All (λ y. x < y) xs → Descending (xs ++ x ∷ [])
Descending-append x [] d h = tt
Descending-append x (y ∷ []) d h = (h.0, tt)
Descending-append x (y ∷ z ∷ xs) d h = (d.0, Descending-append x (z ∷ xs) d.1 h.1)

All-reverse {κ} : (P : ℕ → Type κ) (xs : List ℕ) → All P xs → All P (reverse xs)
All-reverse P [] h = tt
All-reverse P (x ∷ xs) h =
    rw (reverse-append (x ∷ []) xs)
      (All-append P (reverse xs) (x ∷ []) (All-reverse P xs h.1) (h.0, tt))

reverse-Descending : (xs : List ℕ) → Ascending xs → Descending (reverse xs)
reverse-Descending [] a = tt
reverse-Descending (x ∷ xs) a = rw (reverse-append (x ∷ []) xs) (
    Descending-append x (reverse xs) (reverse-Descending xs (Ascending-tail x xs a))
      (All-reverse (λ y. x < y) xs (Ascending-above x xs a)))

-- `tracked_ids` keeps at most `max` identities, and none that it drops is above one that it keeps.
pub tracked_ids_lem :
    (max : ℕ) (live : BTreeSet)
    → Ascending live
    → (length (tracked_ids max live) ≤ max)
      × ((i j : ℕ)
          → contains i (tracked_ids max live) ≡ true
          → contains j live ≡ true
          → contains j (tracked_ids max live) ≡ false
          → j < i)
unfolding tracked_ids
tracked_ids_lem max live a = (
  omega (arith, length-from_iter (take max (reverse live)), length-take max (reverse live)),
  λ i j ci cj nj.
      take_above max (reverse live) i j (reverse-Descending live a)
        (sym (contains-from_iter i _) ∙ ci) (contains-reverse j live ∙ cj)
        (sym (contains-from_iter j _) ∙ nj),
)

take_all : (n : ℕ) (xs : List ℕ) → length xs ≤ n → take n xs ≡ xs
take_all zero [] h = refl
take_all zero (x ∷ xs) h = absurd (omega arith)
take_all (suc n) [] h = refl
take_all (suc n) (x ∷ xs) h = ap (λ r. x ∷ r) (take_all n xs (omega arith))

length-reverse : (xs : List ℕ) → length (reverse xs) ≡ length xs
length-reverse [] = refl
length-reverse (x ∷ xs) =
    ap length (reverse-append (x ∷ []) xs)
    ∙ omega (arith, length-append (reverse xs) (x ∷ []), length-reverse xs)

-- With no more live identities than `max`, all are tracked.
pub tracked_ids_all :
    (max : ℕ) (live : BTreeSet) (j : ℕ)
    → length live ≤ max
    → contains j (tracked_ids max live) ≡ contains j live
unfolding tracked_ids
tracked_ids_all max live j h =
    contains-from_iter j (take max (reverse live))
    ∙ ap (contains j) (take_all max (reverse live) (omega (arith, length-reverse live)))
    ∙ contains-reverse j live

length-set_insert_new :
    (k : ℕ) (s : BTreeSet) → contains k s ≡ false → length (set_insert k s) ≡ length s + 1
unfolding set_insert contains
length-set_insert_new k [] h = omega arith
length-set_insert_new k (j ∷ s) h = ground (arith, h, length-set_insert_new k s)

Descending-tail : (k : ℕ) (s : List ℕ) → Descending (k ∷ s) → Descending s
Descending-tail k [] d = tt
Descending-tail k (j ∷ s) d = d.1

-- a descending list has no repetitions
not_again : (k : ℕ) (s : List ℕ) → Descending (k ∷ s) → contains k s ≡ false
not_again k s d = elim (Bool-cases (contains k s)) [
  | inl again ↦ absurd (omega (arith, contains_below k k s d again))
  | inr fresh ↦ fresh
]

length-from_iter-Descending : (ks : List ℕ) → Descending ks → length (from_iter ks) ≡ length ks
unfolding from_iter
length-from_iter-Descending [] d = refl
length-from_iter-Descending (k ∷ ks) d =
    length-set_insert_new k (from_iter ks) (contains-from_iter k ks ∙ not_again k ks d)
    ∙ omega (arith, length-from_iter-Descending ks (Descending-tail k ks d))

take-Descending : (n : ℕ) (ks : List ℕ) → Descending ks → Descending (take n ks)
take-Descending zero ks d = tt
take-Descending (suc n) [] d = tt
take-Descending (suc zero) (k ∷ ks) d = tt
take-Descending (suc (suc n)) (k ∷ []) d = tt
take-Descending (suc (suc n)) (k ∷ j ∷ ks) d = (d.0, take-Descending (suc n) (j ∷ ks) d.1)

length-take_full : (n : ℕ) (ks : List ℕ) → n ≤ length ks → length (take n ks) ≡ n
length-take_full zero ks h = refl
length-take_full (suc n) [] h = absurd (omega (arith, h))
length-take_full (suc n) (k ∷ ks) h = omega (arith, length-take_full n ks (omega (arith, h)))

-- With at least `max` live identities, `max` are tracked.
pub length-tracked_ids :
    (max : ℕ) (live : BTreeSet)
    → Ascending live
    → max ≤ length live
    → length (tracked_ids max live) ≡ max
unfolding tracked_ids
length-tracked_ids max live a h =
    length-from_iter-Descending (take max (reverse live))
      (take-Descending max (reverse live) (reverse-Descending live a))
    ∙ length-take_full max (reverse live) (omega (arith, h, length-reverse live))

contains-take : (j n : ℕ) (ks : List ℕ) → contains j (take n ks) ≡ true → contains j ks ≡ true
unfolding contains
contains-take j zero ks h = cc h
contains-take j (suc n) [] h = cc h
contains-take j (suc n) (k ∷ ks) h = ground (arith, h, contains-take j n ks)

-- A tracked identity is live.
pub tracked_ids-live :
    (max : ℕ) (live : BTreeSet) (j : ℕ)
    → contains j (tracked_ids max live) ≡ true
    → contains j live ≡ true
unfolding tracked_ids
tracked_ids-live max live j h =
    sym (contains-reverse j live)
    ∙ contains-take j max (reverse live) (sym (contains-from_iter j (take max (reverse live))) ∙ h)
