-- ===== src/Baseline/Order.antt =====
-- The derived orders of src/baseline.rs decide equality.
use inspequte.Base.{ℕ, ◌≡◌, refl, sym, ap, ap₂, Option, none, some, List, [], ◌∷◌, Ordering, arith}
use inspequte.Base.Orders.{
  chain, Follows, below_Follows, above_Follows, Follows-above, Follows-below, Follows-same,
  chain-Follows, compare-Follows, compare_reverse-Follows, compare_text-Follows,
}
use inspequte.Base.Int.{ℤ, pos, negsuc}
use inspequte.Baseline.{
  compare_int, compare_option, compare_list, BaselineLocation, BaselineEntry, compare_location,
  compare_entry,
}
use Prim.Native.Nat.{compare}
use Prim.Native.String.{compare as compare_text}
use text.Mathlib.TextEquality.{path_by_compare}
use text.Mathlib.TextPositions.{compare_refl}

-- `eq` stands for equality
pub record Decides {ℓ} {A : Type ℓ} (cmp : A → A → Ordering) : Type ℓ where
  pub sound : (a b : A) → cmp a b ≡ Ordering.eq → a ≡ b
  pub same : (a : A) → cmp a a ≡ Ordering.eq

chain-eq : (o p : Ordering) → chain o p ≡ Ordering.eq → (o ≡ Ordering.eq) × (p ≡ Ordering.eq)
chain-eq Ordering.lt p h = absurd (cc h)
chain-eq Ordering.eq p h = (refl, h)
chain-eq Ordering.gt p h = absurd (cc h)

text-Decides : Decides compare_text
text-Decides = record { sound = path_by_compare; same = compare_refl }

compare_sound : (m n : ℕ) → compare m n ≡ Ordering.eq → m ≡ n
compare_sound m n h = ground arith

compare_same : (m : ℕ) → compare m m ≡ Ordering.eq
compare_same m = ground arith

int-Decides : Decides compare_int
int-Decides = record { sound = sound; same = same }
  where
    sound : (a b : ℤ) → compare_int a b ≡ Ordering.eq → a ≡ b
    sound (pos m) (pos n) h = ap pos (compare_sound m n h)
    sound (pos m) (negsuc n) h = cc h
    sound (negsuc m) (pos n) h = cc h
    sound (negsuc m) (negsuc n) h = ap negsuc (sym (compare_sound n m h))

    same : (a : ℤ) → compare_int a a ≡ Ordering.eq
    same (pos m) = compare_same m
    same (negsuc m) = compare_same m

module _ {ℓ} {A : Type ℓ} (cmp : A → A → Ordering) (decides : Decides cmp) where
  option-Decides : Decides (compare_option cmp)
  option-Decides = record { sound = sound; same = same }
    where
      sound : (a b : Option A) → compare_option cmp a b ≡ Ordering.eq → a ≡ b
      sound none none h = refl
      sound none (some b) h = cc h
      sound (some a) none h = cc h
      sound (some a) (some b) h = ap some (decides.sound a b h)

      same : (a : Option A) → compare_option cmp a a ≡ Ordering.eq
      same none = refl
      same (some a) = decides.same a

  list_sound : (xs ys : List A) → compare_list cmp xs ys ≡ Ordering.eq → xs ≡ ys
  list_sound [] [] h = refl
  list_sound [] (y ∷ ys) h = cc h
  list_sound (x ∷ xs) [] h = cc h
  list_sound (x ∷ xs) (y ∷ ys) h =
      let (e, f) = chain-eq (cmp x y) (compare_list cmp xs ys) h in
      ap₂ (λ a rest. a ∷ rest) (decides.sound x y e) (list_sound xs ys f)

  list_same : (xs : List A) → compare_list cmp xs xs ≡ Ordering.eq
  list_same [] = refl
  list_same (x ∷ xs) = rw (decides.same x) (list_same xs)

  list-Decides : Decides (compare_list cmp)
  list-Decides = record { sound = list_sound; same = list_same }

location-Decides : Decides compare_location
location-Decides = record { sound = sound; same = same }
  where
    texts : Decides (compare_option compare_text)
    texts = option-Decides compare_text text-Decides

    ints : Decides (compare_option compare_int)
    ints = option-Decides compare_int int-Decides

    sound : (a b : BaselineLocation) → compare_location a b ≡ Ordering.eq → a ≡ b
    sound a b h =
        let (e, rest) = chain-eq (compare_option compare_text a.logical b.logical) _ h in
        let (f, g) = chain-eq (compare_option compare_text a.uri b.uri) _ rest in
        let e' = texts.sound a.logical b.logical e in
        let f' = texts.sound a.uri b.uri f in
        let g' = ints.sound a.start_line b.start_line g in
        λ i. record { logical = e' i; uri = f' i; start_line = g' i }

    same : (a : BaselineLocation) → compare_location a a ≡ Ordering.eq
    same a = rw (texts.same a.logical, texts.same a.uri) (ints.same a.start_line)

pub compare_entry-Decides : Decides compare_entry
compare_entry-Decides = record { sound = sound; same = same }
  where
    places : Decides (compare_list compare_location)
    places = list-Decides compare_location location-Decides

    sound : (a b : BaselineEntry) → compare_entry a b ≡ Ordering.eq → a ≡ b
    sound a b h =
        let (e, rest) = chain-eq (compare_text a.rule_id b.rule_id) _ h in
        let (f, g) = chain-eq (compare_text a.message b.message) _ rest in
        let e' = path_by_compare a.rule_id b.rule_id e in
        let f' = path_by_compare a.message b.message f in
        let g' = places.sound a.locations b.locations g in
        λ i. record { rule_id = e' i; message = f' i; locations = g' i }

    same : (a : BaselineEntry) → compare_entry a a ≡ Ordering.eq
    same a = rw (compare_refl a.rule_id, compare_refl a.message) (places.same a.locations)

int-Follows : (a b c : ℤ) → Follows (compare_int a b) (compare_int b c) (compare_int a c)
int-Follows (pos l) (pos m) (pos n) = compare-Follows l m n
int-Follows (pos l) (pos m) (negsuc n) = Follows-above _
int-Follows (pos l) (negsuc m) (pos n) = tt
int-Follows (pos l) (negsuc m) (negsuc n) = above_Follows _
int-Follows (negsuc l) (pos m) (pos n) = below_Follows _
int-Follows (negsuc l) (pos m) (negsuc n) = tt
int-Follows (negsuc l) (negsuc m) (pos n) = Follows-below _
int-Follows (negsuc l) (negsuc m) (negsuc n) = compare_reverse-Follows l m n

module _ {ℓ} {A : Type ℓ} (cmp : A → A → Ordering)
    (follows : (a b c : A) → Follows (cmp a b) (cmp b c) (cmp a c)) where
  option-Follows :
      (a b c : Option A)
      → Follows (compare_option cmp a b) (compare_option cmp b c) (compare_option cmp a c)
  option-Follows none none c = Follows-same _
  option-Follows none (some b) none = tt
  option-Follows none (some b) (some c) = below_Follows _
  option-Follows (some a) none none = refl
  option-Follows (some a) none (some c) = tt
  option-Follows (some a) (some b) none = Follows-above _
  option-Follows (some a) (some b) (some c) = follows a b c

  list-Follows :
      (xs ys zs : List A)
      → Follows (compare_list cmp xs ys) (compare_list cmp ys zs) (compare_list cmp xs zs)
  list-Follows [] [] zs = Follows-same _
  list-Follows [] (y ∷ ys) [] = tt
  list-Follows [] (y ∷ ys) (z ∷ zs) = below_Follows _
  list-Follows (x ∷ xs) [] [] = refl
  list-Follows (x ∷ xs) [] (z ∷ zs) = tt
  list-Follows (x ∷ xs) (y ∷ ys) [] = Follows-above _
  list-Follows (x ∷ xs) (y ∷ ys) (z ∷ zs) =
      chain-Follows (cmp x y) (cmp y z) (cmp x z) (compare_list cmp xs ys) (compare_list cmp ys zs)
        (compare_list cmp xs zs) (follows x y z) (list-Follows xs ys zs)

location-Follows :
    (a b c : BaselineLocation)
    → Follows (compare_location a b) (compare_location b c) (compare_location a c)
location-Follows a b c =
    chain-Follows _ _ _ _ _ _
      (option-Follows compare_text compare_text-Follows a.logical b.logical c.logical)
      (chain-Follows _ _ _ _ _ _
        (option-Follows compare_text compare_text-Follows a.uri b.uri c.uri)
        (option-Follows compare_int int-Follows a.start_line b.start_line c.start_line))

pub compare_entry-Follows :
    (a b c : BaselineEntry) → Follows (compare_entry a b) (compare_entry b c) (compare_entry a c)
compare_entry-Follows a b c =
    chain-Follows _ _ _ _ _ _ (compare_text-Follows a.rule_id b.rule_id c.rule_id) (
      chain-Follows _ _ _ _ _ _ (compare_text-Follows a.message b.message c.message)
        (list-Follows compare_location location-Follows a.locations b.locations c.locations))
