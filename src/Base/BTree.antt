-- ===== src/Base/BTree.antt =====
-- `BTreeMap` and `BTreeSet` with integer keys: association lists and lists in ascending order.
use inspequte.Base.Tests.{◌==◌, if◌then◌else◌, ==_refl, Bool-cases}
use inspequte.Base.Lists.{length, All}
use Prim.Native.Nat.{ℕ, suc, ◌<◌, compare, Ordering}
use mathlib.Core.Path.{◌≡◌, refl, ap}
use mathlib.Core.Logic.{inl, inr}
use mathlib.Core.Bool.{Bool, true, false, ◌||◌}
use mathlib.Core.Option.{Option, none, some}
use mathlib.Core.List.{List, [], ◌∷◌, map}
use native.Mathlib.Omega.{arith}

abbrev pub BTreeMap {ℓ} : Type ℓ → Type ℓ
BTreeMap V = List (ℕ × V)

abbrev pub BTreeSet : Type 0
BTreeSet = List ℕ

module _ {ℓ} {V : Type ℓ} where
  unfoldable pub get : ℕ → BTreeMap V → Option V
  get k [] = none
  get k ((j, v) ∷ m) = if k == j then some v else get k m

  unfoldable pub insert : ℕ → V → BTreeMap V → BTreeMap V
  insert k v [] = (k, v) ∷ []
  insert k v ((j, w) ∷ m) = elim (compare k j) [
    | Ordering.lt ↦ (k, v) ∷ (j, w) ∷ m
    | Ordering.eq ↦ (k, v) ∷ m
    | Ordering.gt ↦ (j, w) ∷ insert k v m
  ]

  unfoldable pub retain : (ℕ → V → Bool) → BTreeMap V → BTreeMap V
  retain p [] = []
  retain p ((k, v) ∷ m) = if p k v then (k, v) ∷ retain p m else retain p m

  -- `BTreeMap::is_empty`
  abbrev pub is_empty : BTreeMap V → Bool
  is_empty [] = true
  is_empty (x ∷ m) = false

  abbrev pub values : BTreeMap V → List V
  values = map (λ e. e.1)

  abbrev pub keys : BTreeMap V → BTreeSet
  keys = map (λ e. e.0)

  -- a lookup after an insertion
  pub get-insert :
      (j k : ℕ) (v : V) (m : BTreeMap V)
      → get j (insert k v m) ≡ (if j == k then some v else get j m)
  unfolding get insert
  get-insert j k v [] = refl
  get-insert j k v ((i, w) ∷ m) = ground (arith, get-insert j k v m)

  pub get-insert_self : (k : ℕ) (v : V) (m : BTreeMap V) → get k (insert k v m) ≡ some v
  get-insert_self k v m = rw (get-insert, ==_refl k)

  pub is_empty-insert : (k : ℕ) (v : V) (m : BTreeMap V) → is_empty (insert k v m) ≡ false
  unfolding insert
  is_empty-insert k v [] = refl
  is_empty-insert k v ((j, w) ∷ m) = ground arith

  -- a new key makes the map one longer
  pub length-insert :
      (k : ℕ) (v : V) (m : BTreeMap V) → get k m ≡ none → length (insert k v m) ≡ suc (length m)
  unfolding get insert
  length-insert k v [] h = refl
  length-insert k v ((j, w) ∷ m) h = ground (arith, length-insert k v m)

  pub get-empty : (k : ℕ) (m : BTreeMap V) → is_empty m ≡ true → get k m ≡ none
  unfolding get
  get-empty k [] h = refl
  get-empty k (x ∷ m) h = cc

  abbrev pub map_values : (V → V) → BTreeMap V → BTreeMap V
  map_values f [] = []
  map_values f ((k, v) ∷ m) = (k, f v) ∷ map_values f m

  pub values-map_values : (f : V → V) (m : BTreeMap V) → values (map_values f m) ≡ map f (values m)
  values-map_values f [] = refl
  values-map_values f ((k, v) ∷ m) = ap (λ r. f v ∷ r) (values-map_values f m)

-- `BTreeSet::insert`
unfoldable pub set_insert : ℕ → BTreeSet → BTreeSet
set_insert k [] = k ∷ []
set_insert k (j ∷ s) = elim (compare k j) [
  | Ordering.lt ↦ k ∷ j ∷ s
  | Ordering.eq ↦ j ∷ s
  | Ordering.gt ↦ j ∷ set_insert k s
]

unfoldable pub contains : ℕ → BTreeSet → Bool
contains k [] = false
contains k (j ∷ s) = k == j || contains k s

-- `collect::<BTreeSet<_>>()`
unfoldable pub from_iter : List ℕ → BTreeSet
from_iter [] = []
from_iter (k ∷ ks) = set_insert k (from_iter ks)

-- each key is above those before it
abbrev pub Ascending : BTreeSet → Type 0
Ascending [] = Unit
Ascending (k ∷ []) = Unit
Ascending (k ∷ j ∷ s) = (k < j) × Ascending (j ∷ s)

pub contains-set_insert :
    (j k : ℕ) (s : BTreeSet) → contains j (set_insert k s) ≡ (j == k || contains j s)
unfolding contains set_insert
contains-set_insert j k [] = refl
contains-set_insert j k (i ∷ s) = ground (arith, contains-set_insert j k s)

-- an ascending set stays ascending
pub set_insert-Ascending : (k : ℕ) (s : BTreeSet) → Ascending s → Ascending (set_insert k s)
unfolding set_insert
set_insert-Ascending k [] h = tt
set_insert-Ascending k (j ∷ []) h = ground arith
set_insert-Ascending k (j ∷ i ∷ s) h = ground (arith, set_insert-Ascending k (i ∷ s) h.1)

pub from_iter-Ascending : (ks : List ℕ) → Ascending (from_iter ks)
unfolding from_iter
from_iter-Ascending [] = tt
from_iter-Ascending (k ∷ ks) = set_insert-Ascending k (from_iter ks) (from_iter-Ascending ks)

pub Ascending-above : (x : ℕ) (xs : List ℕ) → Ascending (x ∷ xs) → All (λ y. x < y) xs
Ascending-above x [] a = tt
Ascending-above x (y ∷ []) a = (a.0, tt)
Ascending-above x (y ∷ z ∷ xs) a =
    (a.0, Ascending-above x (z ∷ xs) (omega (arith, a.0, a.1.0), a.1.1))

pub Ascending-tail : (x : ℕ) (xs : List ℕ) → Ascending (x ∷ xs) → Ascending xs
Ascending-tail x [] a = tt
Ascending-tail x (y ∷ xs) a = a.1

pub Ascending-cons : (x : ℕ) (xs : List ℕ) → All (λ y. x < y) xs → Ascending xs → Ascending (x ∷ xs)
Ascending-cons x [] h a = tt
Ascending-cons x (y ∷ xs) h a = (h.0, a)

module _ {ℓ} {V : Type ℓ} where
  pub keys-insert : (k : ℕ) (v : V) (m : BTreeMap V) → keys (insert k v m) ≡ set_insert k (keys m)
  unfolding insert set_insert
  keys-insert k v [] = refl
  keys-insert k v ((j, w) ∷ m) = ground (arith, keys-insert k v m)

  pub keys-map_values : (f : V → V) (m : BTreeMap V) → keys (map_values f m) ≡ keys m
  keys-map_values f [] = refl
  keys-map_values f ((k, v) ∷ m) = ap (λ r. k ∷ r) (keys-map_values f m)

  pub All-keys-retain {κ} :
      (P : ℕ → Type κ) (p : ℕ → V → Bool) (m : BTreeMap V)
      → All P (keys m)
      → All P (keys (retain p m))
  unfolding retain
  All-keys-retain P p [] h = tt
  All-keys-retain P p ((k, v) ∷ m) h = elim (Bool-cases (p k v)) [
    | inl kept ↦ rw kept (h.0, All-keys-retain P p m h.1)
    | inr gone ↦ rw gone (All-keys-retain P p m h.1)
  ]

  pub keys-retain-Ascending :
      (p : ℕ → V → Bool) (m : BTreeMap V) → Ascending (keys m) → Ascending (keys (retain p m))
  unfolding retain
  keys-retain-Ascending p [] a = tt
  keys-retain-Ascending p ((k, v) ∷ m) a =
      let rest = keys-retain-Ascending p m (Ascending-tail k (keys m) a) in
      elim (Bool-cases (p k v)) [
        | inl kept ↦ rw kept (
            Ascending-cons k (keys (retain p m))
              (All-keys-retain (λ y. k < y) p m (Ascending-above k (keys m) a)) rest)
        | inr gone ↦ rw gone rest
      ]

pub All-set_insert {κ} :
    (P : ℕ → Type κ) (k : ℕ) (s : BTreeSet) → P k → All P s → All P (set_insert k s)
unfolding set_insert
All-set_insert P k [] h hs = (h, tt)
All-set_insert P k (j ∷ s) h hs = ground (arith, All-set_insert P k s h hs.1)
