-- ===== src/Base/Members.antt =====
-- Members of a list, as `Memᴰ`, and `All`.
use inspequte.Base.Lists.{get_elem?, length, All}
use Prim.Native.Nat.{ℕ, zero, suc, ◌<◌}
use native.Mathlib.Omega.{arith}
use mathlib.Core.Option.{some}
use mathlib.Core.Path.{◌≡◌, refl, sym, ap, subst}
use mathlib.Core.Logic.{◌⊎◌, inl, inr}
use mathlib.Core.List.{List, [], ◌∷◌, ◌++◌, map, Memᴰ}

module _ {ℓ} {A : Type ℓ} where
  pub Mem-append_left : {x : A} (xs ys : List A) → Memᴰ x xs → Memᴰ x (xs ++ ys)
  Mem-append_left [] ys h = elim h [ ]
  Mem-append_left (y ∷ xs) ys (Memᴰ.head e) = Memᴰ.head e
  Mem-append_left (y ∷ xs) ys (Memᴰ.tail h) = Memᴰ.tail (Mem-append_left xs ys h)

  pub Mem-append_right : {x : A} (xs ys : List A) → Memᴰ x ys → Memᴰ x (xs ++ ys)
  Mem-append_right [] ys h = h
  Mem-append_right (y ∷ xs) ys h = Memᴰ.tail (Mem-append_right xs ys h)

  pub Mem-append : {x : A} (xs ys : List A) → Memᴰ x (xs ++ ys) → Memᴰ x xs ⊎ Memᴰ x ys
  Mem-append [] ys h = inr h
  Mem-append (y ∷ xs) ys (Memᴰ.head e) = inl (Memᴰ.head e)
  Mem-append (y ∷ xs) ys (Memᴰ.tail h) = elim (Mem-append xs ys h) [
    | inl m ↦ inl (Memᴰ.tail m)
    | inr m ↦ inr m
  ]

  pub all_members {κ} : (P : A → Type κ) (xs : List A) → ((x : A) → Memᴰ x xs → P x) → All P xs
  all_members P [] f = tt
  all_members P (x ∷ xs) f = (f x (Memᴰ.head refl), all_members P xs λ y h. f y (Memᴰ.tail h))

  pub member {κ} : (P : A → Type κ) (xs : List A) (x : A) → All P xs → Memᴰ x xs → P x
  member P [] x h m = elim m [ ]
  member P (y ∷ xs) x (h, hs) (Memᴰ.head e) = subst P (sym e) h
  member P (y ∷ xs) x (h, hs) (Memᴰ.tail t) = member P xs x hs t

pub all_map {ℓ κ μ} :
    {A : Type ℓ} {B : Type κ} (P : B → Type μ) (f : A → B) (xs : List A)
    → ((x : A) → Memᴰ x xs → P (f x))
    → All P (map f xs)
all_map P f [] h = tt
all_map P f (x ∷ xs) h = (h x (Memᴰ.head refl), all_map P f xs λ y m. h y (Memᴰ.tail m))

pub Mem-map {ℓ κ} :
    {A : Type ℓ} {B : Type κ} (f : A → B) (xs : List A) {x : A} → Memᴰ x xs → Memᴰ (f x) (map f xs)
Mem-map f [] m = elim m [ ]
Mem-map f (y ∷ xs) (Memᴰ.head e) = Memᴰ.head (ap f e)
Mem-map f (y ∷ xs) (Memᴰ.tail m) = Memᴰ.tail (Mem-map f xs m)

pub Mem-of-map {ℓ κ} :
    {A : Type ℓ} {B : Type κ} (f : A → B) (xs : List A) {y : B}
    → Memᴰ y (map f xs)
    → (x : A) × (y ≡ f x) × Memᴰ x xs
Mem-of-map f [] m = elim m [ ]
Mem-of-map f (x ∷ xs) (Memᴰ.head e) = (x, e, Memᴰ.head refl)
Mem-of-map f (x ∷ xs) (Memᴰ.tail m) = let (z, e, k) = Mem-of-map f xs m in (z, e, Memᴰ.tail k)

pub get_elem?-bound {ℓ} :
    {A : Type ℓ} (xs : List A) (i : ℕ) {x : A} → get_elem? xs i ≡ some x → i < length xs
get_elem?-bound [] i h = cc
get_elem?-bound (y ∷ xs) zero h = omega arith
get_elem?-bound (y ∷ xs) (suc i) h = omega (arith, get_elem?-bound xs i h)
