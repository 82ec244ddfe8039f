-- ===== src/Baseline/Search.antt =====
-- `binary_search` on a sorted slice, as src/baseline.rs uses it, and the lists that are sorted.
use inspequte.Base.{
  ℕ, zero, suc, ◌-◌, ◌/◌, ◌≤◌, ◌+◌, ◌≢◌, ◌≡◌, ◌↔◌, refl, sym, subst, ◌∙◌, true, none, some, List,
  [], ◌∷◌, length, take, drop, get_elem?, ltb, arith, All, Bool-cases, Option-cases, inl, inr,
  Ordering, length-drop,
}
use inspequte.Base.Orders.{less, equal, greater, answer, Follows, AtMost}
use inspequte.Baseline.{at_middle, is_same, search, is_found}
use inspequte.Baseline.Order.{Decides}
use mathlib.Core.List.{Memᴰ}

module _ {ℓ} {A : Type ℓ} (cmp : A → A → Ordering) where
  -- no element is greater than a later one
  abbrev pub Ordered : List A → Type ℓ
  Ordered [] = Unit
  Ordered (x ∷ xs) = All (λ y. AtMost (cmp x y)) xs × Ordered xs

some_same {ℓ} : {A : Type ℓ} {a b : A} → some a ≡ some b → a ≡ b
some_same e = cc e

All-get {ℓ κ} :
    {A : Type ℓ} (P : A → Type κ) (xs : List A) (i : ℕ) {y : A}
    → All P xs
    → get_elem? xs i ≡ some y
    → P y
All-get P [] i h e = cc e
All-get P (x ∷ xs) zero h e = subst P (some_same e) h.0
All-get P (x ∷ xs) (suc i) h e = All-get P xs i h.1 e

get_elem-drop {ℓ} :
    {A : Type ℓ} (xs : List A) (i : ℕ) {y : A} → get_elem? xs i ≡ some y → Memᴰ y (drop i xs)
get_elem-drop [] i e = cc e
get_elem-drop (x ∷ xs) zero e = Memᴰ.head (cc e)
get_elem-drop (x ∷ xs) (suc i) e = get_elem-drop xs i e

take-Mem {ℓ} : {A : Type ℓ} (x : A) (k : ℕ) (ys : List A) → Memᴰ x (take k ys) → Memᴰ x ys
take-Mem x zero ys m = elim m [ ]
take-Mem x (suc k) [] m = elim m [ ]
take-Mem x (suc k) (y ∷ ys) (Memᴰ.head e) = Memᴰ.head e
take-Mem x (suc k) (y ∷ ys) (Memᴰ.tail m) = Memᴰ.tail (take-Mem x k ys m)

drop-Mem {ℓ} : {A : Type ℓ} (x : A) (k : ℕ) (ys : List A) → Memᴰ x (drop k ys) → Memᴰ x ys
drop-Mem x zero ys m = m
drop-Mem x (suc k) [] m = elim m [ ]
drop-Mem x (suc k) (y ∷ ys) m = Memᴰ.tail (drop-Mem x k ys m)

All-take {ℓ κ} : {A : Type ℓ} (P : A → Type κ) (k : ℕ) (ys : List A) → All P ys → All P (take k ys)
All-take P zero ys h = tt
All-take P (suc k) [] h = tt
All-take P (suc k) (y ∷ ys) (h, hs) = (h, All-take P k ys hs)

get_elem_inside {ℓ} : {A : Type ℓ} (xs : List A) (i : ℕ) → i + 1 ≤ length xs → get_elem? xs i ≢ none
get_elem_inside [] i h e = absurd (omega (arith, h))
get_elem_inside (x ∷ xs) zero h e = cc e
get_elem_inside (x ∷ xs) (suc i) h e = get_elem_inside xs i (omega (arith, h)) e

length-take_short {ℓ} : {A : Type ℓ} (k : ℕ) (xs : List A) → length (take k xs) ≤ k
length-take_short zero xs = omega arith
length-take_short (suc k) [] = omega arith
length-take_short (suc k) (x ∷ xs) = omega (arith, length-take_short k xs)

module _ {ℓ} {A : Type ℓ} (cmp : A → A → Ordering) (decides : Decides cmp)
    (follows : (a b c : A) → Follows (cmp a b) (cmp b c) (cmp a c)) where
  take-Ordered : (k : ℕ) (ys : List A) → Ordered cmp ys → Ordered cmp (take k ys)
  take-Ordered zero ys h = tt
  take-Ordered (suc k) [] h = tt
  take-Ordered (suc k) (y ∷ ys) (h, hs) = (All-take _ k ys h, take-Ordered k ys hs)

  drop-Ordered : (k : ℕ) (ys : List A) → Ordered cmp ys → Ordered cmp (drop k ys)
  drop-Ordered zero ys h = h
  drop-Ordered (suc k) [] h = tt
  drop-Ordered (suc k) (y ∷ ys) (h, hs) = drop-Ordered k ys hs

  same_eq : (x y : A) → x ≡ y → cmp x y ≡ Ordering.eq
  same_eq x y f = subst (λ z. cmp x z ≡ Ordering.eq) f (decides.same x)

  not_below : (x y : A) → cmp x y ≡ Ordering.lt → AtMost (cmp y x) → ⊥
  not_below x y e h =
      let back : AtMost (cmp x x) → ⊥ = λ g.
        clash (cmp y x) (cmp x x) (subst (λ o. Follows o (cmp y x) (cmp x x)) e (follows x y x))
          (decides.same x) h in
      back (subst AtMost (sym (decides.same x)) tt)
    where
      clash : (p r : Ordering) → Follows Ordering.lt p r → r ≡ Ordering.eq → AtMost p → ⊥
      clash Ordering.lt r f e h = absurd (cc (f, e))
      clash Ordering.eq r f e h = absurd (cc (f, e))
      clash Ordering.gt r f e h = h

  -- below the middle element
  Mem-take :
      (x y : A) (h k : ℕ) (ys : List A)
      → Ordered cmp ys
      → get_elem? ys h ≡ some y
      → cmp x y ≡ Ordering.lt
      → h ≤ k
      → Memᴰ x ys
      → Memᴰ x (take k ys)
  Mem-take x y h k [] s e b l m = cc e
  Mem-take x y zero k (z ∷ ys) s e b l (Memᴰ.head f) =
      absurd (cc (b, same_eq x y (f ∙ some_same e)))
  Mem-take x y zero k (z ∷ ys) s e b l (Memᴰ.tail m) =
      absurd (not_below x y b (subst (λ w. AtMost (cmp w x)) (some_same e) (All-Mem ys s.0 m)))
    where
      All-Mem : (zs : List A) → All (λ w. AtMost (cmp z w)) zs → Memᴰ x zs → AtMost (cmp z x)
      All-Mem [] h m = elim m [ ]
      All-Mem (w ∷ zs) h (Memᴰ.head f) = subst (λ v. AtMost (cmp z v)) (sym f) h.0
      All-Mem (w ∷ zs) h (Memᴰ.tail m) = All-Mem zs h.1 m
  Mem-take x y (suc h) zero (z ∷ ys) s e b l m = absurd (omega (arith, l))
  Mem-take x y (suc h) (suc k) (z ∷ ys) s e b l (Memᴰ.head f) = Memᴰ.head f
  Mem-take x y (suc h) (suc k) (z ∷ ys) s e b l (Memᴰ.tail m) =
      Memᴰ.tail (Mem-take x y h k ys s.1 e b (omega (arith, l)) m)

  -- not below the middle element
  Mem-drop :
      (x y : A) (h : ℕ) (ys : List A)
      → Ordered cmp ys
      → get_elem? ys h ≡ some y
      → (cmp x y ≡ Ordering.lt → ⊥)
      → Memᴰ x ys
      → Memᴰ x (drop h ys)
  Mem-drop x y zero ys s e b m = m
  Mem-drop x y (suc h) [] s e b m = cc e
  Mem-drop x y (suc h) (z ∷ ys) s e b (Memᴰ.tail m) = Mem-drop x y h ys s.1 e b m
  Mem-drop x y (suc h) (z ∷ ys) s e b (Memᴰ.head f) =
      let below = subst (λ v. AtMost (cmp v y)) (sym f) (All-get _ ys h s.0 e) in
      elim (answer (cmp x y)) [
        | less l ↦ absurd (b l)
        | equal l ↦
            subst (λ v. Memᴰ v (drop h ys)) (sym (decides.sound x y l)) (get_elem-drop ys h e)
        | greater l ↦ absurd (subst AtMost l below)
      ]

  -- one round keeps what is looked for, the order, and gets shorter
  pub record Narrows (x : A) (ys zs : List A) : Type ℓ where
    pub members : Memᴰ x ys ↔ Memᴰ x zs
    pub ordered : Ordered cmp zs
    pub shorter : length zs + 1 ≤ length ys

  drop-Narrows :
      (x y : A) (ys : List A)
      → 2 ≤ length ys
      → Ordered cmp ys
      → get_elem? ys (length ys / 2) ≡ some y
      → (cmp x y ≡ Ordering.lt → ⊥)
      → Narrows x ys (drop (length ys / 2) ys)
  drop-Narrows x y ys l s e b = record {
    members = (Mem-drop x y (length ys / 2) ys s e b, drop-Mem x (length ys / 2) ys);
    ordered = drop-Ordered (length ys / 2) ys s;
    shorter = omega (arith, l, length-drop (length ys / 2) ys);
  }

  round-Narrows :
      (x : A) (ys : List A)
      → 2 ≤ length ys
      → Ordered cmp ys
      → Narrows x ys (at_middle cmp x (length ys / 2) ys (get_elem? ys (length ys / 2)))
  round-Narrows x ys l s = elim (Option-cases (get_elem? ys (length ys / 2))) [
    | inl missing ↦ absurd (get_elem_inside ys (length ys / 2) (omega (arith, l)) missing)
    | inr (y, e) ↦ elim (answer (cmp x y)) [
      | less b ↦
          rw (e, b)
            (record {
              members = (
                Mem-take x y (length ys / 2) (length ys - length ys / 2) ys s e b (omega arith),
                take-Mem x (length ys - length ys / 2) ys,
              );
              ordered = take-Ordered (length ys - length ys / 2) ys s;
              shorter = omega (arith, l, length-take_short (length ys - length ys / 2) ys);
            })
      | equal b ↦ rw (e, b) (drop-Narrows x y ys l s e (λ c. cc (b, c)))
      | greater b ↦ rw (e, b) (drop-Narrows x y ys l s e (λ c. cc (b, c)))
    ]
  ]

  is_same-Mem : (x : A) (ys : List A) → length ys ≤ 1 → (is_same cmp x ys ≡ true) ↔ Memᴰ x ys
  is_same-Mem x [] l = ((λ e. cc e), λ m. elim m [ ])
  is_same-Mem x (y ∷ z ∷ ys) l = absurd (omega (arith, l))
  is_same-Mem x (y ∷ []) l = elim (answer (cmp x y)) [
    | equal e ↦ rw (e, is_same) ((λ _. Memᴰ.head (decides.sound x y e)), λ _. refl)
    | less e ↦ rw (e, is_same) ((λ h. cc h), λ m. absurd (cc (e, same_eq x y (only m))))
    | greater e ↦ rw (e, is_same) ((λ h. cc h), λ m. absurd (cc (e, same_eq x y (only m))))
  ]
    where
      only : Memᴰ x (y ∷ []) → x ≡ y
      only (Memᴰ.head f) = f
      only (Memᴰ.tail m) = elim m [ ]

  search-Mem :
      (rounds : ℕ) (x : A) (ys : List A)
      → length ys ≤ rounds
      → Ordered cmp ys
      → (search cmp rounds x ys ≡ true) ↔ Memᴰ x ys
  unfolding search
  search-Mem zero x ys l s = is_same-Mem x ys (omega (arith, l))
  search-Mem (suc rounds) x ys l s = elim (Bool-cases (ltb 1 (length ys))) [
    | inr short ↦ rw short (is_same-Mem x ys (ground arith))
    | inl long ↦
        let next = round-Narrows x ys (ground arith) s in
        let rest = search-Mem rounds x _ (omega (arith, l, next.shorter)) next.ordered in
        rw long ((λ h. next.members.1 (rest.0 h)), λ m. rest.1 (next.members.0 m))
  ]

  -- On a sorted list, the binary search finds the elements of the list.
  pub is_found-Mem : (x : A) (ys : List A) → Ordered cmp ys → (is_found cmp x ys ≡ true) ↔ Memᴰ x ys
  unfolding is_found
  is_found-Mem x ys s = search-Mem (length ys) x ys (omega arith) s
