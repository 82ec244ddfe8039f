-- ===== src/Dataflow/OpcodeSemantics/Effects.antt =====
-- What `apply_effect` of src/dataflow/opcode_semantics.rs does to the stack.
use inspequte.Base.{
  ℕ, ◌+◌, ◌-◌, ◌≡◌, refl, sym, ap, ◌∙◌, subst, true, none, some, List, [], ◌∷◌, ◌++◌, length, take,
  get_elem?, last?-append, drop_last-append, length-append, leb, arith,
}
use inspequte.Base.Result.{ok, ◌>>=◌}
use inspequte.Ir.{Method}
use inspequte.Dataflow.StackMachine.{
  StackMachine, push, peek, pop, pop_n, load_local, store_local, unwrap_or,
}
use inspequte.Dataflow.StackMachine.Stack.{pop_n_lem}
use inspequte.Dataflow.Decode.{
  LocalSlot, PushKind, Effect, noop, push_unknown, push_scalar, dup, dup2, swap, pop_and_push,
  multi_a_new_array,
}
use inspequte.Dataflow.OpcodeSemantics.{
  ValueDomain, apply_effect, local_index, push_some, pushed_value,
}
use mathlib.Core.List.{append_assoc}

take_front {ℓ} : {A : Type ℓ} (xs ys : List A) → take (length xs) (xs ++ ys) ≡ xs
take_front [] ys = refl
take_front (x ∷ xs) ys = ap (λ r. x ∷ r) (take_front xs ys)

get_elem_after {ℓ} :
    {A : Type ℓ} (xs : List A) (y : A) (ys : List A) → get_elem? (xs ++ y ∷ ys) (length xs) ≡ some y
get_elem_after [] y ys = refl
get_elem_after (x ∷ xs) y ys = get_elem_after xs y ys

append_one {ℓ} : {A : Type ℓ} (xs : List A) (y z : A) → (xs ++ y ∷ []) ++ z ∷ [] ≡ xs ++ y ∷ z ∷ []
append_one [] y z = refl
append_one (x ∷ xs) y z = ap (λ r. x ∷ r) (append_one xs y z)

module _ {ℓ} {V : Type ℓ} (domain : ValueDomain V) (method : Method) (offset : ℕ)
    (m : StackMachine V) where
  -- the machine with another stack
  abbrev pub on : List V → StackMachine V
  on s = record m { stack = s }

  abbrev pub value_of : PushKind → V
  value_of PushKind.unknown = domain.unknown_value
  value_of PushKind.scalar = domain.scalar_value

  -- the values that an effect takes from the top of the stack, which is the end of the list, and the
  -- machine with those that it leaves there
  pub data Shift : Effect → List V → StackMachine V → Type ℓ where
    nothing : (s : List V) → Shift noop s (on s)
    unknown_pushed : (s : List V) → Shift push_unknown s (on (s ++ domain.unknown_value ∷ []))
    scalar_pushed : (s : List V) → Shift push_scalar s (on (s ++ domain.scalar_value ∷ []))
    loaded :
        (s : List V) (slot : LocalSlot)
        → Shift
            (Effect.load_local slot)
            s
            (on (s ++ load_local (local_index method offset slot) (on s) ∷ []))
    stored :
        (s : List V) (slot : LocalSlot) (v : V)
        → Shift
            (Effect.store_local slot)
            (s ++ v ∷ [])
            (store_local (local_index method offset slot) v (on s))
    popped : (s : List V) (vs : List V) → Shift (Effect.pop (length vs)) (s ++ vs) (on s)
    doubled : (s : List V) (v : V) → Shift dup (s ++ v ∷ []) (on (s ++ v ∷ v ∷ []))
    pair_doubled :
        (s : List V) (v w : V) → Shift dup2 (s ++ v ∷ w ∷ []) (on (s ++ v ∷ w ∷ v ∷ w ∷ []))
    lone_doubled : (v : V) → Shift dup2 (v ∷ []) (on (v ∷ v ∷ v ∷ []))
    nothing_doubled : Shift dup2 [] (on [])
    swapped : (s : List V) (v w : V) → Shift swap (s ++ v ∷ w ∷ []) (on (s ++ w ∷ v ∷ []))
    replaced :
        (s : List V) (vs : List V) (kind : PushKind)
        → Shift (pop_and_push (length vs) kind) (s ++ vs) (on (s ++ value_of kind ∷ []))
    array_made :
        (s : List V) (dimensions : List V)
        → length dimensions ≡ unwrap_or (get_elem? method.bytecode (offset + 3)) 1
        → Shift multi_a_new_array (s ++ dimensions) (on (s ++ domain.unknown_value ∷ []))

  push_on :
      m.config.max_stack_depth ≡ none → (v : V) (s : List V) → push v (on s) ≡ ok (on (s ++ v ∷ []))
  unfolding push
  push_on e v s = rw e refl

  pop_on : (v : V) (s : List V) → pop (on (s ++ v ∷ [])) ≡ (v, on s)
  unfolding pop
  pop_on v s = rw (last?-append s v, drop_last-append s v) refl

  pop_n_on : (vs s : List V) → pop_n (length vs) (on (s ++ vs)) ≡ on s
  pop_n_on vs s =
      pop_n_lem (length vs) (on (s ++ vs))
      ∙ ap (λ n. on (take n (s ++ vs))) (omega (arith, length-append s vs))
      ∙ ap on (take_front s vs)

  two_pushes :
      m.config.max_stack_depth ≡ none
      → (v w : V) (s : List V) → (push v (on s) >>= push w) ≡ ok (on (s ++ v ∷ w ∷ []))
  two_pushes e v w s =
      rw (push_on e v s) (push_on e w (s ++ v ∷ []) ∙ ap (λ r. ok (on r)) (append_one s v w))

  peek_on : (v : V) (s : List V) → peek (on (s ++ v ∷ [])) ≡ some v
  unfolding peek
  peek_on v s = last?-append s v

  peek_empty : peek (on []) ≡ none
  unfolding peek
  peek_empty = refl

  push_kind :
      m.config.max_stack_depth ≡ none
      → (kind : PushKind) (s : List V)
      → push (pushed_value domain kind) (on s) ≡ ok (on (s ++ value_of kind ∷ []))
  push_kind e PushKind.unknown s = push_on e domain.unknown_value s
  push_kind e PushKind.scalar s = push_on e domain.scalar_value s

  swapped_on :
      m.config.max_stack_depth ≡ none
      → (v w : V) (s : List V)
      → apply_effect domain method offset swap (on (s ++ v ∷ w ∷ [])) ≡ ok (on (s ++ w ∷ v ∷ []))
  unfolding apply_effect
  swapped_on e v w s =
      let first : pop (on (s ++ v ∷ w ∷ [])) ≡ (w, on (s ++ v ∷ [])) =
        subst (λ r. pop (on r) ≡ (w, on (s ++ v ∷ []))) (append_one s v w)
          (pop_on w (s ++ v ∷ [])) in
      ap (λ p. (let (left, rest) = pop p.1 in push p.0 rest >>= push left)) first
      ∙ ap (λ p. push w p.1 >>= push p.0) (pop_on v s)
      ∙ two_pushes e w v s

  pair_doubled_on :
      m.config.max_stack_depth ≡ none
      → (v w : V) (s : List V)
      → apply_effect domain method offset dup2 (on (s ++ v ∷ w ∷ []))
        ≡ ok (on (s ++ v ∷ w ∷ v ∷ w ∷ []))
  unfolding apply_effect
  pair_doubled_on e v w s =
      let all = s ++ v ∷ w ∷ [] in
      let long : length all ≡ length s + 2 = length-append s (v ∷ w ∷ []) in
      let enough : leb 2 (length all) ≡ true = ground (arith, long) in
      let left : get_elem? all (length all - 2) ≡ some v =
        ap (get_elem? all) (omega (arith, long)) ∙ get_elem_after s v (w ∷ []) in
      let right : get_elem? all (length all - 1) ≡ some w =
        ap (get_elem? all) (omega (arith, long, length-append s (v ∷ [])))
        ∙ subst (λ r. get_elem? r (length (s ++ v ∷ [])) ≡ some w) (append_one s v w)
            (get_elem_after (s ++ v ∷ []) w []) in
      rw (enough, left, right)
        (two_pushes e v w all ∙ ap (λ r. ok (on r)) (append_assoc s (v ∷ w ∷ []) (v ∷ w ∷ [])))

  -- On a machine without a depth budget whose stack has the values that `Shift` lists for an effect on
  -- its top, the effect leaves what `Shift` lists: the values below stay, and those on top are
  -- replaced as given there. `dup2` on a single value pushes it twice.
  pub apply_effect-Shift :
      m.config.max_stack_depth ≡ none
      → (effect : Effect) (before : List V) (after : StackMachine V) → Shift effect before after
      → apply_effect domain method offset effect (on before) ≡ ok after
  unfolding apply_effect
  apply_effect-Shift e _ _ _ (nothing s) = refl
  apply_effect-Shift e _ _ _ (unknown_pushed s) = push_on e domain.unknown_value s
  apply_effect-Shift e _ _ _ (scalar_pushed s) = push_on e domain.scalar_value s
  apply_effect-Shift e _ _ _ (loaded s slot) =
      push_on e (load_local (local_index method offset slot) (on s)) s
  apply_effect-Shift e _ _ _ (stored s slot v) =
      ap (λ p. ok (store_local (local_index method offset slot) p.0 p.1)) (pop_on v s)
  apply_effect-Shift e _ _ _ (popped s vs) = ap ok (pop_n_on vs s)
  apply_effect-Shift e _ _ _ (doubled s v) =
      ap (λ o. push_some domain o (on (s ++ v ∷ []))) (peek_on v s)
      ∙ push_on e v (s ++ v ∷ [])
      ∙ ap (λ r. ok (on r)) (append_one s v v)
  apply_effect-Shift e _ _ _ (pair_doubled s v w) = pair_doubled_on e v w s
  apply_effect-Shift e _ _ _ (lone_doubled v) = rw (peek_on v []) (two_pushes e v v (v ∷ []))
  apply_effect-Shift e _ _ _ nothing_doubled = rw peek_empty refl
  apply_effect-Shift e _ _ _ (swapped s v w) = swapped_on e v w s
  apply_effect-Shift e _ _ _ (replaced s vs kind) =
      ap (push (pushed_value domain kind)) (pop_n_on vs s) ∙ push_kind e kind s
  apply_effect-Shift e _ _ _ (array_made s dimensions h) =
      ap (λ n. push domain.unknown_value (pop_n n (on (s ++ dimensions)))) (sym h)
      ∙ ap (push domain.unknown_value) (pop_n_on dimensions s)
      ∙ push_on e domain.unknown_value s
