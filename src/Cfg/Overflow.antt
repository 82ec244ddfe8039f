-- ===== src/Cfg/Overflow.antt =====
-- When a branch target overflows in `build_cfg` of src/cfg.rs.
use inspequte.Base.{ℕ, ◌≡◌, refl, ◌⊎◌, inl, inr, List, [], ◌∷◌, All}
use inspequte.Base.Result.{Result, ok, err, panic, >>=-eq-ok}
use inspequte.Bytecode.Lengths.{Safe}
use inspequte.Ir.{Instruction, ControlFlowGraph}
use inspequte.Cfg.{branch_targets, instruction_leaders, all_leaders, leader_list, build_cfg}
use mathlib.Core.List.{Memᴰ}

-- an instruction whose branch targets overflow an `i32`
abbrev pub Overflows : List ℕ → List Instruction → Type 0
Overflows code is = (i : Instruction) × Memᴰ i is × (branch_targets code i.offset ≡ panic)

pub targets_decided :
    (code : List ℕ) (is : List Instruction)
    → All (λ (i : Instruction). Safe (branch_targets code i.offset)) is ⊎ Overflows code is
targets_decided code [] = inl tt
targets_decided code (i ∷ is) = elim (panic_decided (branch_targets code i.offset)) [
  | inr overflow ↦ inr (i, Memᴰ.head refl, overflow)
  | inl safe ↦ elim (targets_decided code is) [
    | inl rest ↦ inl (safe, rest)
    | inr (j, k, overflow) ↦ inr (j, Memᴰ.tail k, overflow)
  ]
]
  where
    panic_decided : {A : Type 0} (r : Result A) → Safe r ⊎ (r ≡ panic)
    panic_decided (ok a) = inl tt
    panic_decided (err e) = inl tt
    panic_decided panic = inr refl

all_leaders-Safe :
    (code : List ℕ) (is : List Instruction) (s t : List ℕ)
    → all_leaders code is s ≡ ok t
    → All (λ (i : Instruction). Safe (branch_targets code i.offset)) is
unfolding all_leaders instruction_leaders
all_leaders-Safe code [] s t h = tt
all_leaders-Safe code (i ∷ is) s t h =
    let (u, first, rest) = >>=-eq-ok (instruction_leaders code i s) (all_leaders code is) h in
    let (o, targets, _) = >>=-eq-ok (branch_targets code i.offset) _ first in
    (rw targets tt, all_leaders-Safe code is u t rest)

pub build_cfg-Safe :
    (code : List ℕ) (is : List Instruction) (handlers : List ℕ) {g : ControlFlowGraph}
    → build_cfg code is handlers ≡ ok g
    → All (λ (i : Instruction). Safe (branch_targets code i.offset)) is
unfolding build_cfg leader_list
build_cfg-Safe code is handlers h =
    let (leaders, first, _) = >>=-eq-ok (leader_list code is handlers) _ h in
    let (all, collected, _) = >>=-eq-ok (all_leaders code is _) _ first in
    all_leaders-Safe code is _ all collected
