-- ===== src/Classpath/Names.antt =====
-- The map from class names to artifact indices that `resolve_classpath` of src/classpath.rs builds.
use inspequte.Base.{
  ◌≤◌, ◌≡◌, refl, sym, ap, ◌∙◌, subst, Bool, true, false, inl, inr, some, List, [], ◌∷◌, ◌++◌,
  length, length-append, arith, All, Ordering, Bool-cases, if◌then◌else◌,
}
use inspequte.Base.Int.{ℤ}
use inspequte.Base.Text.{equal_text, equal_text_iff}
use inspequte.Base.Orders.{less, equal, greater, answer, Follows, compare_text-Follows}
use inspequte.Classpath.{get_text, insert_text, indices_at, class_map}
use inspequte.Ir.{Class}
use Prim.Native.String.{String, compare}
use text.Mathlib.TextEquality.{path_by_compare}
use text.Mathlib.TextPositions.{compare_refl}
use mathlib.Core.List.{Memᴰ, append_assoc, append-nil}

equal_text_same : (s : String) → equal_text s s ≡ true
equal_text_same s = (equal_text_iff s s).1 refl

module _ {ℓ} {V : Type ℓ} where
  get_text-insert_text :
      (n k : String) (v : V) (m : List (String × V))
      → get_text n (insert_text k v m) ≡ (if equal_text n k then some v else get_text n m)
  unfolding get_text insert_text
  get_text-insert_text n k v [] = refl
  get_text-insert_text n k v ((j, w) ∷ m) = elim (answer (compare k j)) [
    | less e ↦ rw (e, insert_text) refl
    | equal e ↦ rw (e, insert_text) (replaced (path_by_compare k j e))
    | greater e ↦
        rw (e, insert_text, get_text-insert_text n k v m)
          (passed (equal_text n j) (equal_text n k)
            (λ at_j at_k. apart e ((equal_text_iff n j).0 at_j) ((equal_text_iff n k).0 at_k)))
  ]
    where
      replaced :
          k ≡ j
          → (if equal_text n k then some v else get_text n m)
            ≡ (if equal_text n k then some v else (if equal_text n j then some w else get_text n m))
      replaced same = elim (Bool-cases (equal_text n k)) [
        | inl e ↦ rw e refl
        | inr e ↦ rw (e, subst (λ x. equal_text n x ≡ false) same e) refl
      ]

      apart : compare k j ≡ Ordering.gt → n ≡ j → n ≡ k → ⊥
      apart e f g =
          absurd (cc (e, subst (λ x. compare k x ≡ Ordering.eq) (sym g ∙ f) (compare_refl k)))

      passed :
          (a b : Bool)
          → (a ≡ true → b ≡ true → ⊥)
          → (if a then some w else (if b then some v else get_text n m))
            ≡ (if b then some v else (if a then some w else get_text n m))
      passed true true h = absurd (h refl refl)
      passed true false h = refl
      passed false b h = refl

-- the artifact indices of the classes of a name, in order
abbrev pub indices_of : String → List Class → List ℤ
indices_of n [] = []
indices_of n (c ∷ classes) =
    if equal_text n c.name then c.artifact_index ∷ indices_of n classes else indices_of n classes

pub class_map-indices_of :
    (n : String) (classes : List Class) (m : List (String × List ℤ))
    → indices_at (get_text n (class_map classes m))
      ≡ indices_at (get_text n m) ++ indices_of n classes
unfolding class_map
class_map-indices_of n [] m = sym (append-nil (indices_at (get_text n m)))
class_map-indices_of n (c ∷ classes) m =
    let added = insert_text c.name (indices_at (get_text c.name m) ++ c.artifact_index ∷ []) m in
    class_map-indices_of n classes added
    ∙ rw (get_text-insert_text n c.name (indices_at (get_text c.name m) ++ c.artifact_index ∷ []) m)
        (elim (Bool-cases (equal_text n c.name)) [
          | inr e ↦ rw e refl
          | inl e ↦
              rw (e, (equal_text_iff n c.name).0 e)
                (append_assoc (indices_at (get_text c.name m)) (c.artifact_index ∷ [])
                    (indices_of c.name classes)
                  ∙ ap
                      (λ x.
                        indices_at (get_text c.name m) ++ c.artifact_index ∷ indices_of x classes)
                      (sym ((equal_text_iff n c.name).0 e)))
        ])

pub Memᴰ-indices_of :
    (c : Class) (classes : List Class)
    → Memᴰ c classes
    → Memᴰ c.artifact_index (indices_of c.name classes)
Memᴰ-indices_of c [] h = elim h [ ]
Memᴰ-indices_of c (d ∷ classes) (Memᴰ.head e) =
    rw (ap (λ (x : Class). equal_text c.name x.name) (sym e) ∙ equal_text_same c.name)
      (Memᴰ.head (ap (λ (x : Class). x.artifact_index) e))
Memᴰ-indices_of c (d ∷ classes) (Memᴰ.tail h) = elim (Bool-cases (equal_text c.name d.name)) [
  | inl e ↦ rw e (Memᴰ.tail (Memᴰ-indices_of c classes h))
  | inr e ↦ rw e (Memᴰ-indices_of c classes h)
]

abbrev pub NonEmpty : List (String × List ℤ) → Type 0
NonEmpty m = All (λ (e : String × List ℤ). 1 ≤ length e.1) m

insert_text-NonEmpty :
    (k : String) (v : List ℤ) (m : List (String × List ℤ))
    → 1 ≤ length v
    → NonEmpty m
    → NonEmpty (insert_text k v m)
unfolding insert_text
insert_text-NonEmpty k v [] h hs = (h, tt)
insert_text-NonEmpty k v ((j, w) ∷ m) h (g, gs) = elim (answer (compare k j)) [
  | less e ↦ rw (e, insert_text, All) (h, (g, gs))
  | equal e ↦ rw (e, insert_text, All) (h, gs)
  | greater e ↦ rw (e, insert_text, All) (g, insert_text-NonEmpty k v m h gs)
]

pub class_map-NonEmpty :
    (classes : List Class) (m : List (String × List ℤ))
    → NonEmpty m
    → NonEmpty (class_map classes m)
unfolding class_map
class_map-NonEmpty [] m h = h
class_map-NonEmpty (c ∷ classes) m h = class_map-NonEmpty classes _ (
    insert_text-NonEmpty c.name (indices_at (get_text c.name m) ++ c.artifact_index ∷ []) m
      (omega (arith, length-append (indices_at (get_text c.name m)) (c.artifact_index ∷ []))) h)

-- the answer the other way round
reversed : (o p q : Ordering) → Follows o p q → q ≡ Ordering.eq → o ≡ Ordering.gt → p ≡ Ordering.lt
reversed o Ordering.lt q f e g = refl
reversed Ordering.gt Ordering.eq q f e g = absurd (cc (f, e))
reversed Ordering.gt Ordering.gt q f e g = absurd (cc (f, e))
reversed Ordering.lt p q f e g = absurd (cc g)
reversed Ordering.eq p q f e g = absurd (cc g)

-- ascending keys, none of them twice
abbrev pub KeysAscending {ℓ} : {V : Type ℓ} → List (String × V) → Type ℓ
KeysAscending [] = Unit
KeysAscending ((k, v) ∷ m) = All (λ e. compare k e.0 ≡ Ordering.lt) m × KeysAscending m

module _ {ℓ} {V : Type ℓ} where
  insert_text-All :
      (j k : String) (v : V) (m : List (String × V))
      → compare j k ≡ Ordering.lt
      → All (λ e. compare j e.0 ≡ Ordering.lt) m
      → All (λ e. compare j e.0 ≡ Ordering.lt) (insert_text k v m)
  unfolding insert_text
  insert_text-All j k v [] h hs = (h, tt)
  insert_text-All j k v ((i, w) ∷ m) h (g, gs) = elim (answer (compare k i)) [
    | less e ↦ rw (e, insert_text, All) (h, (g, gs))
    | equal e ↦ rw (e, insert_text, All) (h, gs)
    | greater e ↦ rw (e, insert_text, All) (g, insert_text-All j k v m h gs)
  ]

  below_later :
      (i k : String) (m : List (String × V))
      → compare k i ≡ Ordering.lt
      → All (λ e. compare i e.0 ≡ Ordering.lt) m
      → All (λ e. compare k e.0 ≡ Ordering.lt) m
  below_later i k [] h g = tt
  below_later i k ((j, w) ∷ m) h (g, gs) = (
    chained (compare k i) (compare i j) (compare k j) (compare_text-Follows k i j) h g,
    below_later i k m h gs,
  )
    where
      chained :
          (o p q : Ordering) → Follows o p q → o ≡ Ordering.lt → p ≡ Ordering.lt → q ≡ Ordering.lt
      chained Ordering.lt Ordering.lt q f e g = f
      chained Ordering.lt Ordering.eq q f e g = f
      chained Ordering.lt Ordering.gt q f e g = absurd (cc g)
      chained Ordering.eq p q f e g = absurd (cc e)
      chained Ordering.gt p q f e g = absurd (cc e)

  insert_text-KeysAscending :
      (k : String) (v : V) (m : List (String × V))
      → KeysAscending m
      → KeysAscending (insert_text k v m)
  unfolding insert_text
  insert_text-KeysAscending k v [] h = (tt, tt)
  insert_text-KeysAscending k v ((i, w) ∷ m) (h, hs) = elim (answer (compare k i)) [
    | less e ↦ rw (e, insert_text, KeysAscending) ((e, below_later i k m e h), (h, hs))
    | equal e ↦
        rw (e, insert_text, KeysAscending)
          (
            subst (λ x. All (λ (y : String × V). compare x y.0 ≡ Ordering.lt) m)
                (sym (path_by_compare k i e)) h,
            hs,
          )
    | greater e ↦
        rw (e, insert_text, KeysAscending)
          (
            insert_text-All i k v m
                (reversed (compare k i) (compare i k) (compare k k) (compare_text-Follows k i k)
                  (compare_refl k) e)
                h,
            insert_text-KeysAscending k v m hs,
          )
  ]

  -- an entry is found under its key
  pub get_text-Memᴰ :
      (n : String) (v : V) (m : List (String × V))
      → KeysAscending m
      → Memᴰ (n, v) m
      → get_text n m ≡ some v
  unfolding get_text
  get_text-Memᴰ n v [] h k = elim k [ ]
  get_text-Memᴰ n v ((j, w) ∷ m) (h, hs) (Memᴰ.head e) =
      let same : n ≡ j = ap (λ (x : String × V). x.0) e in
      rw ((equal_text_iff n j).1 same) (ap some (sym (ap (λ (x : String × V). x.1) e)))
  get_text-Memᴰ n v ((j, w) ∷ m) (h, hs) (Memᴰ.tail k) = elim (Bool-cases (equal_text n j)) [
    | inr other ↦ rw other (get_text-Memᴰ n v m hs k)
    | inl same ↦ absurd (
        cc (
          key_below m h k,
          subst (λ x. compare x n ≡ Ordering.eq) ((equal_text_iff n j).0 same) (compare_refl n),
        ))
  ]
    where
      key_below :
          (ms : List (String × V))
          → All (λ e. compare j e.0 ≡ Ordering.lt) ms
          → Memᴰ (n, v) ms
          → compare j n ≡ Ordering.lt
      key_below [] h k = elim k [ ]
      key_below (e ∷ ms) h (Memᴰ.head f) =
          subst (λ (x : String × V). compare j x.0 ≡ Ordering.lt) (sym f) h.0
      key_below (e ∷ ms) h (Memᴰ.tail k) = key_below ms h.1 k

pub class_map-KeysAscending :
    (classes : List Class) (m : List (String × List ℤ))
    → KeysAscending m
    → KeysAscending (class_map classes m)
unfolding class_map
class_map-KeysAscending [] m h = h
class_map-KeysAscending (c ∷ classes) m h =
    class_map-KeysAscending classes _ (insert_text-KeysAscending c.name _ m h)
