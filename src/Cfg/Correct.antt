-- ===== src/Cfg/Correct.antt =====
-- `build_cfg` of src/cfg.rs as a whole.
use inspequte.Base.{
  ℕ, ◌+◌, ◌%◌, ◌^◌, ◌≤◌, ◌<◌, ◌≡◌, refl, sym, ◌∙◌, subst, true, Option, none, some, List, [], ◌∷◌,
  length, arith, All, Bool-cases, inl, inr, ◌⊎◌, ltb→lt, ltb,
}
use inspequte.Base.BTree.{contains}
use inspequte.Base.Result.{
  ok, ok-injective, Returns, Returns-bind, Returns-imp, Returns-ok, Outcome, Outcome-Returns,
  Outcome-ok,
}
use inspequte.Bytecode.{opcode_length}
use inspequte.Bytecode.Lengths.{Safe, opcode_length-AtLeastOne}
use inspequte.Ir.{Instruction, BasicBlock, ControlFlowGraph}
use inspequte.Cfg.{branch_targets, is_exit_opcode, make_blocks, make_edges, build_cfg, leader_list}
use inspequte.Cfg.Overflow.{Overflows, targets_decided, build_cfg-Safe}
use inspequte.Cfg.Blocks.{
  SortedFrom, SortedFrom-All, from_start_beyond, all_instructions, make_blocks-instructions,
  Chained, make_blocks-Chained, keep-All,
}
use inspequte.Cfg.Leaders.{Leads, TargetsIn, Inside, IsLeaderList, leader_list-Returns}
use inspequte.Cfg.Edges.{
  starts, starts-make_blocks, Uncut, make_blocks-Uncut, IsEdge, Covered, Aims, Ready,
  make_edges-IsEdge,
}
use native.Mathlib.Nat.{mod-eq_of_lt}

All-pair {ℓ κ κ'} :
    {A : Type ℓ} (P : A → Type κ) (Q : A → Type κ') (xs : List A)
    → All P xs
    → All Q xs
    → All (λ x. P x × Q x) xs
All-pair P Q [] h g = tt
All-pair P Q (x ∷ xs) (h, hs) (g, gs) = ((h, g), All-pair P Q xs hs gs)

All-given {ℓ κ κ'} :
    {A : Type ℓ} (P : A → Type κ) (Q : A → Type κ') (xs : List A)
    → ((x : A) → P x → Q x)
    → All P xs
    → All Q xs
All-given P Q [] f h = tt
All-given P Q (x ∷ xs) f (h, hs) = (f x h, All-given P Q xs f hs)

make_blocks-All {κ} :
    (P : Instruction → Type κ) (code : List ℕ) (is : List Instruction) (leaders : List ℕ)
    → All P is
    → All (λ (b : BasicBlock). All P b.instructions) (make_blocks code is leaders)
unfolding make_blocks
make_blocks-All P code is [] h = tt
make_blocks-All P code is (s ∷ []) h = (keep-All P _ is (All-given P _ is (λ i p e. p) h), tt)
make_blocks-All P code is (s ∷ e ∷ leaders) h =
    (keep-All P _ is (All-given P _ is (λ i p k. p) h), make_blocks-All P code is (e ∷ leaders) h)

abbrev Holds : BasicBlock → Instruction → Type 0
Holds b i = (b.start_offset ≤ i.offset) × (i.offset < b.end_offset)

Chained-Holds :
    (at end : ℕ) (bs : List BasicBlock)
    → Chained at end bs
    → All (λ (b : BasicBlock). All (Holds b) b.instructions) bs
Chained-Holds at end [] h = tt
Chained-Holds at end (b ∷ bs) (e, _, h, hs) = (
  All-given _ (Holds b) b.instructions (λ i g. (omega (arith, e, g), g.1)) h,
  Chained-Holds b.end_offset end bs hs,
)

contains-later : (x : ℕ) (y : ℕ) (s : List ℕ) → contains y s ≡ true → contains y (x ∷ s) ≡ true
unfolding contains
contains-later x y s h = ground arith

starts-contained :
    (blocks all : List BasicBlock)
    → ((y : ℕ) → contains y (starts blocks) ≡ true → contains y (starts all) ≡ true)
    → All (λ (b : BasicBlock). contains b.start_offset (starts all) ≡ true) blocks
unfolding contains
starts-contained [] all f = tt
starts-contained (b ∷ blocks) all f = (
  f b.start_offset (ground arith),
  starts-contained blocks all λ y h. f y (contains-later b.start_offset y (starts blocks) h),
)

-- The instruction returns, throws or has branch targets.
abbrev pub Diverts : List ℕ → Instruction → Type 0
Diverts code i =
    (is_exit_opcode i.opcode ≡ true)
    ⊎ ((targets : List ℕ) × (branch_targets code i.offset ≡ ok (some targets)))

-- An instruction that diverts is the last of its block.
abbrev pub EndsBlock : List ℕ → BasicBlock → Instruction → Type 0
EndsBlock code b i =
    (n : ℕ) → opcode_length code i.offset ≡ ok n → Diverts code i → b.end_offset ≤ i.offset + n

-- What a graph of the instructions `is` of `code` has to be: its blocks follow one another from 0 to
-- the end of the code, none empty, and hold the instructions in order; its edges join block starts
-- (a branch may leave the code); and only the end of a block diverts.
pub record IsGraphOf (code : List ℕ) (is : List Instruction) (g : ControlFlowGraph) : Type 0 where
  pub chained : Chained 0 (length code) g.blocks
  pub instructions : all_instructions g.blocks ≡ is
  pub edges : All (IsEdge (length code) (starts g.blocks)) g.edges
  pub straight : All (λ (b : BasicBlock). All (EndsBlock code b) b.instructions) g.blocks

TargetsIn-Covered :
    (code : List ℕ) (blocks : List BasicBlock) (all : List ℕ) (o : Option (List ℕ))
    → ((j : ℕ) → contains j all ≡ true → j < length code → contains j (starts blocks) ≡ true)
    → TargetsIn all o
    → Covered code blocks o
TargetsIn-Covered code blocks all none f h = tt
TargetsIn-Covered code blocks all (some ts) f h = All-given _ _ ts (λ t c l. f t c l) h

next-EndsBlock :
    (code all leaders : List ℕ) (b : BasicBlock) (i : Instruction)
    → length code < 2 ^ 32
    → Leads code i all
    → ((j : ℕ) → contains j all ≡ true → j < length code → contains j leaders ≡ true)
    → Uncut (length code) leaders b
    → i.offset < length code
    → Holds b i
    → EndsBlock code b i
next-EndsBlock code all leaders b i short l kept (uncut, bound) inside holds n e d =
    elim (Bool-cases (ltb (i.offset + n) (length code))) [
      | inr beyond ↦ ground (arith, bound)
      | inl within ↦
          let below = ltb→lt (i.offset + n) (length code) within in
          let small : (i.offset + n) % 2 ^ 32 ≡ i.offset + n = mod-eq_of_lt (omega arith) in
          let next : contains (i.offset + n) all ≡ true =
            subst (λ x. contains x all ≡ true) small
              (elim d [ inl x ↦ l.after_exit x n e | inr t ↦ l.after_branch _ t.1 tt n e ]) in
          let forward : 1 ≤ n =
            subst (Returns (λ m. 1 ≤ m)) e (opcode_length-AtLeastOne code i.offset inside) in
          uncut (i.offset + n) (kept (i.offset + n) next below) (omega (arith, holds.0))
    ]

module _ (code : List ℕ) (is : List Instruction) (short : length code < 2 ^ 32) where
  abbrev Known : List ℕ → Instruction → Type 0
  Known all i = ((i.offset < length code) × Safe (branch_targets code i.offset)) × Leads code i all

  abbrev blocks_of : List ℕ → List BasicBlock
  blocks_of leaders = make_blocks code is leaders

  module _ (leaders all : List ℕ)
      (kept : (j : ℕ) → contains j all ≡ true → j < length code → contains j leaders ≡ true)
      (known : All (Known all) is) where
    kept_starts :
        (j : ℕ)
        → contains j all ≡ true
        → j < length code
        → contains j (starts (blocks_of leaders)) ≡ true
    kept_starts j h g = rw (starts-make_blocks code is leaders) (kept j h g)

    same_targets :
        (i : Instruction) (o p : Option (List ℕ))
        → branch_targets code i.offset ≡ ok o
        → branch_targets code i.offset ≡ ok p
        → o ≡ p
    same_targets i o p h g = ok-injective (sym h ∙ g)

    blocks-Ready : All (Ready code (blocks_of leaders)) (blocks_of leaders)
    blocks-Ready =
        All-pair _ _ (blocks_of leaders)
          (starts-contained (blocks_of leaders) (blocks_of leaders) λ y h. h)
          (make_blocks-All (Aims code (blocks_of leaders)) code is leaders (
            All-given _ _ is
              (λ i k. (
                k.0.1,
                λ o e.
                    TargetsIn-Covered code (blocks_of leaders) all o kept_starts (k.1.targets o e),
              ))
              known))

    blocks-straight :
        All (Uncut (length code) leaders) (blocks_of leaders)
        → Chained 0 (length code) (blocks_of leaders)
        → All (λ (b : BasicBlock). All (EndsBlock code b) b.instructions) (blocks_of leaders)
    blocks-straight uncut chained =
        All-given _ _ (blocks_of leaders)
          (λ b h.
            All-given _ (EndsBlock code b) b.instructions
              (λ i g. next-EndsBlock code all leaders b i short g.1.1 kept h.0 g.1.0.0 g.0)
              (All-pair (Holds b) (Known all) b.instructions h.1.0 h.1.1))
          (All-pair (Uncut (length code) leaders) _ (blocks_of leaders) uncut (
            All-pair _ _ (blocks_of leaders)
              (Chained-Holds 0 (length code) (blocks_of leaders) chained)
              (make_blocks-All (Known all) code is leaders known)))

    blocks-IsGraphOf :
        Chained 0 (length code) (blocks_of leaders)
        → all_instructions (blocks_of leaders) ≡ is
        → All (Uncut (length code) leaders) (blocks_of leaders)
        → Returns
            (λ edges. IsGraphOf code is (record { blocks = blocks_of leaders; edges = edges }))
            (make_edges code (blocks_of leaders) (blocks_of leaders))
    blocks-IsGraphOf chained instructions uncut =
        Returns-imp (make_edges code (blocks_of leaders) (blocks_of leaders))
          (make_edges-IsEdge code (blocks_of leaders) (blocks_of leaders) blocks-Ready)
          λ edges h. record {
            chained = chained;
            instructions = instructions;
            edges = h;
            straight = blocks-straight uncut chained;
          }

  leaders-IsGraphOf :
      (leaders : List ℕ)
      → SortedFrom 0 is
      → Inside code is
      → IsLeaderList code is leaders
      → Returns
          (λ edges.
            IsGraphOf code is (record { blocks = make_blocks code is leaders; edges = edges }))
          (make_edges code (make_blocks code is leaders) (make_blocks code is leaders))
  unfolding make_blocks make_edges
  leaders-IsGraphOf [] sorted inside l = empty is inside
    where
      no_code : length code ≡ 0
      no_code = elim (Bool-cases (ltb 0 (length code))) [
        | inl some_code ↦
            let (_, e) = l.zero_first (ltb→lt 0 (length code) some_code) in absurd (cc e)
        | inr none_left ↦ ground arith
      ]

      empty :
          (js : List Instruction)
          → Inside code js
          → Returns
              (λ edges.
                IsGraphOf code js (record { blocks = make_blocks code js []; edges = edges }))
              (make_edges code (make_blocks code js []) (make_blocks code js []))
      empty [] h = record { chained = sym no_code; instructions = refl; edges = tt; straight = tt }
      empty (j ∷ js) h = absurd (omega (arith, no_code, h.0.0))
  leaders-IsGraphOf (start ∷ leaders) sorted inside l =
      let first : start ≡ 0 = let (_, e) = l.zero_first (omega (arith, l.inside.0)) in cc e in
      blocks-IsGraphOf (start ∷ leaders) l.all l.kept (All-pair _ _ is inside l.leads)
        (subst (λ s. Chained s (length code) (blocks_of (start ∷ leaders))) first
          (make_blocks-Chained code is start leaders short l.ascending l.inside
            (All-given _ _ is (λ i h. h.0) inside)))
        (make_blocks-instructions code is start leaders 0 l.ascending sorted
          ∙ from_start_beyond start is (
              All-given _ _ is (λ (i : Instruction) h. omega (arith, first))
                (SortedFrom-All 0 is sorted)))
        (make_blocks-Uncut code is start leaders short l.ascending l.inside)

safe-IsGraphOf :
    (code : List ℕ) (is : List Instruction) (handlers : List ℕ)
    → length code < 2 ^ 32
    → SortedFrom 0 is
    → Inside code is
    → Returns (IsGraphOf code is) (build_cfg code is handlers)
unfolding build_cfg
safe-IsGraphOf code is handlers short sorted inside =
    Returns-bind _ _ (leader_list code is handlers) _
      (leader_list-Returns code is handlers short inside)
      λ leaders l.
        Returns-bind _ _
          (make_edges code (make_blocks code is leaders) (make_blocks code is leaders)) _
          (leaders-IsGraphOf code is short leaders sorted inside l) λ edges g. g

-- For a code shorter than 2^32 bytes and instructions at increasing offsets inside it, a graph that
-- `build_cfg` returns is one of these instructions (`IsGraphOf`): the blocks partition the code and
-- the instructions in order, every edge joins two block starts or is a branch out of the code, none
-- is an exception edge, and a jump or an exit is the last of its block. It panics only when a branch
-- target of one of the instructions overflows an `i32`.
pub build_cfg-IsGraphOf :
    (code : List ℕ) (is : List Instruction) (handlers : List ℕ)
    → length code < 2 ^ 32
    → SortedFrom 0 is
    → All (λ (i : Instruction). i.offset < length code) is
    → Outcome (IsGraphOf code is) (Overflows code is) (build_cfg code is handlers)
build_cfg-IsGraphOf code is handlers short sorted inside = elim (targets_decided code is) [
  | inl safe ↦ Outcome-Returns _ _ (build_cfg code is handlers) (good safe)
  | inr overflow ↦ Outcome-ok _ _ (build_cfg code is handlers) overflow λ g e.
      Returns-ok (IsGraphOf code is) (build_cfg code is handlers)
        (good (build_cfg-Safe code is handlers e)) e
]
  where
    good :
        All (λ (i : Instruction). Safe (branch_targets code i.offset)) is
        → Returns (IsGraphOf code is) (build_cfg code is handlers)
    good safe = safe-IsGraphOf code is handlers short sorted (All-pair _ _ is inside safe)
