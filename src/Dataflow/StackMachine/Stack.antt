-- ===== src/Dataflow/StackMachine/Stack.antt =====
-- The operand stack of src/dataflow/stack_machine.rs: the depth budget and the order of values.
use inspequte.Base.{
  ℕ, zero, suc, ◌+◌, ◌-◌, ◌≤◌, ◌<◌, ◌≡◌, ◌↔◌, refl, sym, ap, ◌∙◌, Option, none, some, List, [], ◌∷◌,
  ◌++◌, length, drop, take, drop_last, arith, leb, Bool-cases, inl, inr, length-append, length-drop,
  leb-false, length-drop_last, last?-append, drop_last-append, leb→le, leb_of_lt,
}
use inspequte.Base.Result.{Result, ok, panic, ◌>>=◌, >>=-eq-ok}
use inspequte.Dataflow.StackMachine.{StackMachine, push, pop, pop_n, make_room}
use mathlib.Core.List.{append_assoc, append-nil}
use Prim.Native.Nat.add

-- A depth budget at which `push` can make room.
abbrev pub CanPush : Option ℕ → Type 0
CanPush none = Unit
CanPush (some max_depth) = 0 < max_depth

abbrev pub Fits {ℓ} : {V : Type ℓ} → Option ℕ → List V → Type 0
Fits none stack = Unit
Fits (some max_depth) stack = length stack ≤ max_depth

-- the last `max_depth` values
abbrev pub recent {ℓ} : {V : Type ℓ} → Option ℕ → List V → List V
recent none stack = stack
recent (some max_depth) stack = drop (length stack - max_depth) stack

module _ {ℓ} {V : Type ℓ} where
  take_all : (xs : List V) (n : ℕ) → length xs ≤ n → take n xs ≡ xs
  take_all [] zero h = refl
  take_all [] (suc n) h = refl
  take_all (x ∷ xs) zero h = absurd (omega arith)
  take_all (x ∷ xs) (suc n) h = ap (λ r. x ∷ r) (take_all xs n (omega arith))

  take-nil : (n : ℕ) → take {A = V} n [] ≡ []
  take-nil zero = refl
  take-nil (suc n) = refl

  take-drop_last_below : (xs : List V) (n : ℕ) → n < length xs → take n (drop_last xs) ≡ take n xs
  take-drop_last_below [] n h = absurd (omega arith)
  take-drop_last_below (x ∷ xs) zero h = refl
  take-drop_last_below (x ∷ []) (suc n) h = absurd (omega arith)
  take-drop_last_below (x ∷ y ∷ xs) (suc n) h =
      ap (λ r. x ∷ r) (take-drop_last_below (y ∷ xs) n (omega arith))

  take-drop_last :
      (xs : List V) (count : ℕ)
      → take (length (drop_last xs) - count) (drop_last xs) ≡ take (length xs - suc count) xs
  take-drop_last [] count =
      take-nil (length {A = V} [] - count) ∙ sym (take-nil (length {A = V} [] - suc count))
  take-drop_last (x ∷ xs) count =
      let n : ℕ = length (x ∷ xs) - suc count in
      ap (λ t. take t (drop_last (x ∷ xs))) (omega (arith, length-drop_last (x ∷ xs)))
      ∙ take-drop_last_below (x ∷ xs) n (omega arith)

  drop_none : (xs : List V) (n : ℕ) → n ≡ 0 → drop n xs ≡ xs
  drop_none xs n e = rw e

  pub recent-Fits : (max : Option ℕ) (xs : List V) → Fits max xs → recent max xs ≡ xs
  recent-Fits none xs h = refl
  recent-Fits (some d) xs h = drop_none xs (length xs - d) (omega arith)

  drop-append : (n : ℕ) (xs ys : List V) → n ≤ length xs → drop n (xs ++ ys) ≡ drop n xs ++ ys
  drop-append zero xs ys h = refl
  drop-append (suc n) [] ys h = absurd (omega arith)
  drop-append (suc n) (x ∷ xs) ys h = drop-append n xs ys (omega arith)

  drop-nil : (n : ℕ) → drop {A = V} n [] ≡ []
  drop-nil zero = refl
  drop-nil (suc n) = refl

  drop-drop : (n k : ℕ) (xs : List V) → drop n (drop k xs) ≡ drop (k + n) xs
  drop-drop n zero xs = rw add.zero
  drop-drop n (suc k) [] = drop-nil n ∙ sym (drop-nil (suc k + n))
  drop-drop n (suc k) (x ∷ xs) = rw add.suc (drop-drop n k xs)

  pub recent-append :
      (max : Option ℕ) (xs ys : List V) → recent max (recent max xs ++ ys) ≡ recent max (xs ++ ys)
  recent-append none xs ys = refl
  recent-append (some d) xs ys =
      let k : ℕ = length xs - d in
      let n : ℕ = length (drop k xs ++ ys) - d in
      let count : k + n ≡ length (xs ++ ys) - d =
        omega (arith, length-append xs ys, length-append (drop k xs) ys, length-drop k xs) in
      ap (drop n) (sym (drop-append k xs ys (omega arith)))
      ∙ drop-drop n k (xs ++ ys)
      ∙ ap (λ t. drop t (xs ++ ys)) count

  pub recent_bound : (max : Option ℕ) (xs : List V) → Fits max (recent max xs)
  recent_bound none xs = tt
  recent_bound (some d) xs = omega (arith, length-drop (length xs - d) xs)

  -- appending to a full stack
  recent_full :
      (d : ℕ) (x : V) (xs : List V) (v : V)
      → length (x ∷ xs) ≡ d
      → recent (some d) ((x ∷ xs) ++ v ∷ []) ≡ xs ++ v ∷ []
  recent_full d x xs v e =
      let one : length (x ∷ (xs ++ v ∷ [])) - d ≡ 1 = omega (arith, length-append xs (v ∷ [])) in
      ap (λ t. drop t (x ∷ (xs ++ v ∷ []))) one

  make_room-recent :
      (max : Option ℕ) (stack : List V) (v : V)
      → CanPush max
      → Fits max stack
      → (room : List V) × (make_room max stack ≡ ok room)
        × (room ++ v ∷ [] ≡ recent max (stack ++ v ∷ []))
  make_room-recent none stack v c f = (stack, refl, refl)
  make_room-recent (some d) [] v c f = ([], ground arith, sym (recent-Fits (some d) (v ∷ []) c))
  make_room-recent (some d) (x ∷ xs) v c f = elim (Bool-cases (leb d (length (x ∷ xs)))) [
    | inl full ↦ (xs, rw full, sym (recent_full d x xs v (omega (arith, leb→le _ _ full))))
    | inr free ↦ (
      x ∷ xs,
      rw free,
      sym (
          recent-Fits (some d) ((x ∷ xs) ++ v ∷ [])
            (omega (arith, leb-false _ _ free, length-append xs (v ∷ [])))),
    )
  ]

  -- `push` appends and keeps the most recent values of the budget.
  pub push-recent :
      (v : V) (m : StackMachine V)
      → CanPush m.config.max_stack_depth
      → Fits m.config.max_stack_depth m.stack
      → push v m ≡ ok (record m { stack = recent m.config.max_stack_depth (m.stack ++ v ∷ []) })
  unfolding push
  push-recent v m c f =
      let (room, made, kept) = make_room-recent m.config.max_stack_depth m.stack v c f in
      rw (made, kept)

  -- Values pushed one after another.
  abbrev pub push_all : List V → StackMachine V → Result (StackMachine V)
  push_all [] m = ok m
  push_all (v ∷ vs) m = push v m >>= push_all vs

  -- Pushing values one after another onto a machine whose stack is within a positive depth budget
  -- (or has no budget) never panics, and leaves exactly the most recent values that fit.
  pub push_all-recent :
      (vs : List V) (m : StackMachine V)
      → CanPush m.config.max_stack_depth
      → Fits m.config.max_stack_depth m.stack
      → push_all vs m ≡ ok (record m { stack = recent m.config.max_stack_depth (m.stack ++ vs) })
  push_all-recent [] m c f =
      ap (λ s. ok (record m { stack = s }))
        (sym (recent-Fits m.config.max_stack_depth m.stack f)
          ∙ ap (recent m.config.max_stack_depth) (sym (append-nil m.stack)))
  push_all-recent (v ∷ vs) m c f =
      let max = m.config.max_stack_depth in
      let pushed = recent max (m.stack ++ v ∷ []) in
      rw (push-recent v m c f) (
        push_all-recent vs (record m { stack = pushed }) c (recent_bound max _)
        ∙ ap (λ s. ok (record m { stack = s }))
            (recent-append max (m.stack ++ v ∷ []) vs
              ∙ ap (recent max) (append_assoc m.stack (v ∷ []) vs)))

  -- `push` panics exactly when the depth budget is zero and the stack is empty.
  pub push-eq-panic :
      (v : V) (m : StackMachine V)
      → (push v m ≡ panic) ↔ ((m.config.max_stack_depth ≡ some 0) × (m.stack ≡ []))
  unfolding push
  push-eq-panic v m = make_room-eq-panic m.config.max_stack_depth m.stack
    where
      make_room-eq-panic :
          (max : Option ℕ) (stack : List V)
          → ((make_room max stack >>= λ room. ok (record m { stack = room ++ v ∷ [] })) ≡ panic)
            ↔ ((max ≡ some 0) × (stack ≡ []))
      make_room-eq-panic none stack = ((λ h. cc), (λ h. cc (h.0)))
      make_room-eq-panic (some d) [] = (ground arith, ground arith)
      make_room-eq-panic (some d) (x ∷ xs) = (ground arith, ground arith)

  -- a stack below its budget
  abbrev pub HasRoom : Option ℕ → List V → Type 0
  HasRoom none stack = Unit
  HasRoom (some d) stack = length stack < d

  make_room-HasRoom :
      (max : Option ℕ) (stack : List V) {room : List V}
      → make_room max stack ≡ ok room
      → HasRoom max stack
      → room ≡ stack
  make_room-HasRoom none stack h r = cc
  make_room-HasRoom (some d) stack h r = ground (arith, leb_of_lt d (length stack))

  -- A `pop` returns the value just pushed, and gives back the machine as it was where the stack was
  -- below its budget.
  pub pop-push :
      (v : V) (m : StackMachine V) {m' : StackMachine V}
      → push v m ≡ ok m'
      → ((pop m').0 ≡ v) × (HasRoom m.config.max_stack_depth m.stack → (pop m').1 ≡ m)
  unfolding push pop
  pop-push v m {m'} h =
      let (room, made, e) =
        >>=-eq-ok (make_room m.config.max_stack_depth m.stack)
          (λ room. ok (record m { stack = room ++ v ∷ [] })) h in
      let final : record m { stack = room ++ v ∷ [] } ≡ m' = cc in
      (
        rw (← final, last?-append),
        λ r.
            rw (← final, drop_last-append)
              (ap (λ s. record m { stack = s }) (make_room-HasRoom _ m.stack made r)),
      )

  -- `pop_n` drops `count` values from the top, and everything when there are fewer.
  pub pop_n_lem :
      (count : ℕ) (m : StackMachine V)
      → pop_n count m ≡ record m { stack = take (length m.stack - count) m.stack }
  unfolding pop_n pop
  pop_n_lem zero m =
      ap (λ s. record m { stack = s }) (sym (take_all m.stack (length m.stack - 0) (omega arith)))
  pop_n_lem (suc count) m =
      pop_n_lem count (record m { stack = drop_last m.stack })
      ∙ ap (λ s. record m { stack = s }) (take-drop_last m.stack count)
