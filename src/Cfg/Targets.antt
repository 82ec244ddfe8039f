-- ===== src/Cfg/Targets.antt =====
-- The branch targets of src/cfg.rs: when their computation panics.
use inspequte.Base.{
  ℕ, zero, suc, ◌+◌, ◌<◌, ◌≡◌, refl, sym, subst, Bool, true, false, ◌||◌, ◌==◌, Option, none, some,
  [], ◌∷◌, if◌then◌else◌, List, length, ◌⊎◌, inl, inr, Bool-cases,
}
use inspequte.Base.Int.{ℤ, pos, ◌+ℤ◌}
use inspequte.Base.Result.{
  Result, ok, err, panic, ◌>>=◌, context, Returns, Returns-bind, Returns-context, Outcome,
  Outcome-after, Outcome-bind, invalid_tableswitch_range,
}
use inspequte.Opcodes
use inspequte.Bytecode.{byte_at, read_u16, read_i32, switch_count, padding}
use inspequte.Bytecode.Lengths.{Safe, read_u16-Safe, read_i32-Safe, byte_at-Safe}
use inspequte.Cfg.{
  fits_i32, target_of, short_branch, read_i16, read_targets, rounds, tableswitch_targets,
  lookupswitch_targets, targets_of_opcode, branch_targets,
}

-- an operand in the code whose sum with the offset is no `i32`
abbrev pub OverflowAt : List ℕ → ℕ → Type 0
OverflowAt code offset =
    (v : ℤ) × (fits_i32 (pos offset +ℤ v) ≡ false)
    × (at : ℕ) × ((read_i16 code at ≡ ok v) ⊎ (read_i32 code at ≡ ok v))

read_self : {A : Type 0} (r : Result A) → Safe r → Returns (λ v. r ≡ ok v) r
read_self (ok v) h = refl
read_self (err e) h = tt
read_self panic h = elim h [ ]

read_i16-Safe : (code : List ℕ) (offset : ℕ) → Safe (read_i16 code offset)
unfolding read_i16
read_i16-Safe code offset =
    Returns-bind (λ _. Unit {0}) (λ _. Unit {0}) (read_u16 code offset) _
      (read_u16-Safe code offset) λ v _. tt

-- `Outcome`, as a type that an `if` does not compute away
data Explains {ℓ} {A : Type ℓ} (O : Type 0) (r : Result A) : Type 0 where
  explains : Outcome (λ _. Unit {0}) O r → Explains O r

explained {ℓ} :
    {A : Type ℓ} {O : Type 0} {r : Result A} → Explains O r → Outcome (λ _. Unit {0}) O r
explained (explains h) = h

Explains-if {ℓ} :
    {A : Type ℓ} {O : Type 0} (b : Bool) {x y : Result A}
    → Explains O x
    → Explains O y
    → Explains O (if b then x else y)
Explains-if true hx hy = hx
Explains-if false hx hy = hy

module _ (code : List ℕ) (offset : ℕ) where
  -- a panic is an overflow
  abbrev Overflowing {ℓ} : {A : Type ℓ} → Result A → Type 0
  Overflowing = Outcome (λ _. Unit {0}) (OverflowAt code offset)

  target_of-Overflowing :
      (at : ℕ) (v : ℤ)
      → (read_i16 code at ≡ ok v) ⊎ (read_i32 code at ≡ ok v)
      → Overflowing (target_of offset v)
  unfolding target_of
  target_of-Overflowing at v h = elim (Bool-cases (fits_i32 (pos offset +ℤ v))) [
    | inl fits ↦ rw fits tt
    | inr over ↦ rw over (v, over, at, h)
  ]

  -- the reading of an operand, and the rest with it
  after_i32 {ℓ} :
      {A : Type ℓ} (at : ℕ) (next : ℤ → Result A)
      → ((v : ℤ) → read_i32 code at ≡ ok v → Overflowing (next v))
      → Overflowing (read_i32 code at >>= next)
  after_i32 at next =
      Outcome-after _ _ (λ v. read_i32 code at ≡ ok v) (read_i32 code at) next
        (read_self (read_i32 code at) (read_i32-Safe code at))

  after_target {ℓ} :
      {A : Type ℓ} (at : ℕ) (v : ℤ) (next : ℕ → Result A)
      → (read_i16 code at ≡ ok v) ⊎ (read_i32 code at ≡ ok v)
      → ((target : ℕ) → Overflowing (next target))
      → Overflowing (target_of offset v >>= next)
  after_target at v next h rest =
      Outcome-bind _ _ (λ _. Unit {0}) (target_of offset v) next (target_of-Overflowing at v h)
        λ target _. rest target

  read_targets-Overflowing :
      (stride count idx : ℕ) → Overflowing (read_targets code offset stride count idx)
  unfolding read_targets
  read_targets-Overflowing stride zero idx = tt
  read_targets-Overflowing stride (suc count) idx = after_i32 idx _ λ v h.
      after_target idx v _ (inr h) λ target.
        Outcome-bind _ _ (λ _. Unit {0}) (read_targets code offset stride count (idx + stride)) _
          (read_targets-Overflowing stride count (idx + stride)) λ rest _. tt

  tableswitch_targets-Overflowing : Overflowing (tableswitch_targets code offset)
  unfolding tableswitch_targets
  tableswitch_targets-Overflowing =
      let base : ℕ = offset + 1 + padding offset in
      after_i32 base _ λ default h. after_i32 (base + 4) _ λ low _. after_i32 (base + 8) _ λ high _.
        Outcome-after _ _ (λ _. Unit {0})
          (context invalid_tableswitch_range (switch_count high low)) _
          (Returns-context _ (switch_count high low))
          λ count _. after_target base default _ (inr h) λ target.
            Outcome-bind _ _ (λ _. Unit {0}) (read_targets code offset 4 (rounds count) (base + 12))
              _ (read_targets-Overflowing 4 (rounds count) (base + 12)) λ rest _. tt

  lookupswitch_targets-Overflowing : Overflowing (lookupswitch_targets code offset)
  unfolding lookupswitch_targets
  lookupswitch_targets-Overflowing =
      let base : ℕ = offset + 1 + padding offset in
      after_i32 base _ λ default h. after_i32 (base + 4) _ λ npairs _.
        after_target base default _ (inr h) λ target.
          Outcome-bind _ _ (λ _. Unit {0}) (read_targets code offset 8 (rounds npairs) (base + 12))
            _ (read_targets-Overflowing 8 (rounds npairs) (base + 12)) λ rest _. tt

  one_target : ℤ → Result (Option (List ℕ))
  one_target branch = do target ← target_of offset branch; ok (some (target ∷ []))

  short-Overflowing : Overflowing (read_i16 code (offset + 1) >>= one_target)
  unfolding one_target
  short-Overflowing =
      Outcome-after _ _ (λ v. read_i16 code (offset + 1) ≡ ok v) (read_i16 code (offset + 1))
        one_target (read_self (read_i16 code (offset + 1)) (read_i16-Safe code (offset + 1)))
        λ v h. after_target (offset + 1) v (λ t. ok (some (t ∷ []))) (inl h) λ target. tt

  wide-Overflowing : Overflowing (read_i32 code (offset + 1) >>= one_target)
  unfolding one_target
  wide-Overflowing =
      after_i32 (offset + 1) one_target
        λ v h. after_target (offset + 1) v (λ t. ok (some (t ∷ []))) (inr h) λ target. tt

  all_targets-Overflowing :
      (r : Result (List ℕ)) → Overflowing r → Overflowing (r >>= λ targets. ok (some targets))
  all_targets-Overflowing r h =
      Outcome-bind _ _ (λ _. Unit {0}) r (λ targets. ok (some targets)) h λ targets _. tt

  none-Explains : (r : Result (Option (List ℕ))) → r ≡ ok none → Explains (OverflowAt code offset) r
  none-Explains r e = subst (Explains (OverflowAt code offset)) (sym e) (explains tt)

  targets_of_opcode-Explains :
      (opcode : ℕ) → Explains (OverflowAt code offset) (targets_of_opcode code offset opcode)
  unfolding targets_of_opcode one_target
  targets_of_opcode-Explains opcode =
      Explains-if (short_branch opcode) (explains short-Overflowing) (
        Explains-if (opcode == Opcodes.goto_w || opcode == Opcodes.jsr_w)
          (explains wide-Overflowing)
          (Explains-if (opcode == Opcodes.tableswitch)
            (explains (
              all_targets-Overflowing (tableswitch_targets code offset)
                tableswitch_targets-Overflowing))
            (Explains-if (opcode == Opcodes.lookupswitch)
              (explains (
                all_targets-Overflowing (lookupswitch_targets code offset)
                  lookupswitch_targets-Overflowing))
              (none-Explains (ok none) refl))))

pub branch_targets-OverflowAt :
    (code : List ℕ) (offset : ℕ)
    → offset < length code
    → Outcome (λ _. Unit {0}) (OverflowAt code offset) (branch_targets code offset)
unfolding branch_targets
branch_targets-OverflowAt code offset h =
    Outcome-after _ _ (λ _. Unit {0}) (byte_at code offset) _ (byte_at-Safe code offset h)
      λ opcode _. explained (targets_of_opcode-Explains code offset opcode)
