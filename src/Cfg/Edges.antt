-- ===== src/Cfg/Edges.antt =====
-- The edges of src/cfg.rs, and where its blocks end.
use inspequte.Base.{
  ℕ, ◌%◌, ◌^◌, ◌≤◌, ◌<◌, ◌≡◌, refl, ap, subst, true, Option, none, some, List, [], ◌∷◌, map, length,
  last?, arith, All, All-imp, All-append, Bool-cases, Option-cases, inl, inr,
}
use inspequte.Base.BTree.{contains, Ascending, Ascending-above}
use inspequte.Base.Result.{ok, Returns, Returns-bind}
use inspequte.Ir.{Instruction, EdgeKind, FlowEdge, BasicBlock}
use inspequte.Cfg.{
  branch_targets, is_exit_opcode, is_unconditional_branch, make_blocks, next_block_start,
  fall_edges, branch_edges, edges_by_targets, edges_after, make_edges,
}
use inspequte.Bytecode.Lengths.{Safe}
use inspequte.Cfg.Leaders.{Returns-self}
use native.Mathlib.Nat.{mod-eq_of_lt}

abbrev pub starts : List BasicBlock → List ℕ
starts = map (λ (b : BasicBlock). b.start_offset)

pub starts-make_blocks :
    (code : List ℕ) (is : List Instruction) (leaders : List ℕ)
    → starts (make_blocks code is leaders) ≡ leaders
unfolding make_blocks
starts-make_blocks code is [] = refl
starts-make_blocks code is (s ∷ []) = refl
starts-make_blocks code is (s ∷ e ∷ leaders) =
    ap (λ r. s ∷ r) (starts-make_blocks code is (e ∷ leaders))

contains_above : (x : ℕ) (s : List ℕ) (l : ℕ) → All (λ y. x < y) s → contains l s ≡ true → x < l
unfolding contains
contains_above x [] l h c = cc
contains_above x (y ∷ s) l (h, hs) c = ground (arith, contains_above x s l hs)

-- No leader lies strictly inside a block, and the block ends within the code.
abbrev pub Uncut : ℕ → List ℕ → BasicBlock → Type 0
Uncut end leaders b =
    ((l : ℕ) → contains l leaders ≡ true → b.start_offset < l → b.end_offset ≤ l)
    × (b.end_offset ≤ end)

abbrev UncutFrom : ℕ → ℕ → List ℕ → BasicBlock → Type 0
UncutFrom lo end leaders b = (lo ≤ b.start_offset) × Uncut end leaders b

UncutFrom-cons :
    (s e end : ℕ) (leaders : List ℕ) (b : BasicBlock)
    → s < e
    → UncutFrom e end leaders b
    → UncutFrom s end (s ∷ leaders) b
unfolding contains
UncutFrom-cons s e end leaders b h (g, (u, k)) = (omega arith, ((λ l c q. ground (arith, u l)), k))

make_blocks-UncutFrom :
    (code : List ℕ) (is : List Instruction) (start : ℕ) (leaders : List ℕ)
    → length code < 2 ^ 32
    → Ascending (start ∷ leaders)
    → All (λ l. l < length code) (start ∷ leaders)
    → All (UncutFrom start (length code) (start ∷ leaders)) (make_blocks code is (start ∷ leaders))
unfolding make_blocks contains
make_blocks-UncutFrom code is s [] short a below =
    let whole : length code % 2 ^ 32 ≡ length code = mod-eq_of_lt short in
    ((omega arith, ((λ l c h. absurd (ground arith)), omega (arith, whole))), tt)
make_blocks-UncutFrom code is s (e ∷ leaders) short a below = (
  (
    omega arith,
    (
      (λ l c h. ground (arith, contains_above e leaders l (Ascending-above e leaders a.1))),
      omega (arith, below.1.0),
    ),
  ),
  All-imp {P = UncutFrom e (length code) (e ∷ leaders)}
      {Q = UncutFrom s (length code) (s ∷ e ∷ leaders)}
      (λ b u. UncutFrom-cons s e (length code) (e ∷ leaders) b a.0 u)
      (make_blocks code is (e ∷ leaders))
      (make_blocks-UncutFrom code is e leaders short a.1 below.1),
)

pub make_blocks-Uncut :
    (code : List ℕ) (is : List Instruction) (start : ℕ) (leaders : List ℕ)
    → length code < 2 ^ 32
    → Ascending (start ∷ leaders)
    → All (λ l. l < length code) (start ∷ leaders)
    → All (Uncut (length code) (start ∷ leaders)) (make_blocks code is (start ∷ leaders))
make_blocks-Uncut code is start leaders short a below =
    All-imp {P = UncutFrom start (length code) (start ∷ leaders)}
      {Q = Uncut (length code) (start ∷ leaders)} (λ b u. u.1)
      (make_blocks code is (start ∷ leaders))
      (make_blocks-UncutFrom code is start leaders short a below)

-- where an edge of a kind may lead in a code of `end` bytes
abbrev pub LeadsTo : ℕ → List ℕ → EdgeKind → ℕ → Type 0
LeadsTo end leaders EdgeKind.fall_through to = contains to leaders ≡ true
LeadsTo end leaders EdgeKind.branch to = to < end → contains to leaders ≡ true
LeadsTo end leaders EdgeKind.exception to = ⊥

-- An edge leaves a block. A fall through enters a block, and so does a branch into the code.
abbrev pub IsEdge : ℕ → List ℕ → FlowEdge → Type 0
IsEdge end leaders e = (contains e.from leaders ≡ true) × LeadsTo end leaders e.kind e.to

next_block_start-contains :
    (blocks : List BasicBlock) (offset : ℕ) (next : ℕ)
    → next_block_start blocks offset ≡ some next
    → contains next (starts blocks) ≡ true
unfolding next_block_start contains
next_block_start-contains [] offset next h = cc
next_block_start-contains (b ∷ blocks) offset next h =
    ground (arith, next_block_start-contains blocks offset next)

last-All {κ} :
    (P : Instruction → Type κ) (is : List Instruction) (i : Instruction)
    → All P is
    → last? is ≡ some i
    → P i
last-All P [] i h e = cc
last-All P (j ∷ []) i h e = subst P (ground (arith, e)) h.0
last-All P (j ∷ k ∷ is) i h e = last-All P (k ∷ is) i h.1 e

abbrev pub Covered : List ℕ → List BasicBlock → Option (List ℕ) → Type 0
Covered code blocks none = Unit
Covered code blocks (some targets) =
    All (λ t. t < length code → contains t (starts blocks) ≡ true) targets

-- The targets of the instruction are computed, and those that lie inside the code are block starts.
abbrev pub Aims : List ℕ → List BasicBlock → Instruction → Type 0
Aims code blocks i =
    Safe (branch_targets code i.offset)
    × ((o : Option (List ℕ)) → branch_targets code i.offset ≡ ok o → Covered code blocks o)

module _ (code : List ℕ) (blocks : List BasicBlock) (block : BasicBlock)
    (from_in : contains block.start_offset (starts blocks) ≡ true) where
  fall_edges-IsEdge :
      All
        (IsEdge (length code) (starts blocks))
        (fall_edges block (next_block_start blocks block.end_offset))
  fall_edges-IsEdge = elim (Option-cases (next_block_start blocks block.end_offset)) [
    | inl e ↦ rw e tt
    | inr e ↦ rw (e.1) ((from_in, next_block_start-contains blocks block.end_offset e.0 e.1), tt)
  ]

  branch_edges-IsEdge :
      (targets : List ℕ)
      → All (λ t. t < length code → contains t (starts blocks) ≡ true) targets
      → All (IsEdge (length code) (starts blocks)) (branch_edges block targets)
  branch_edges-IsEdge [] h = tt
  branch_edges-IsEdge (t ∷ ts) (h, hs) = ((from_in, h), branch_edges-IsEdge ts hs)

  edges_by_targets-IsEdge :
      (last : Instruction) (o : Option (List ℕ))
      → Covered code blocks o
      → All (IsEdge (length code) (starts blocks)) (edges_by_targets blocks block last o)
  edges_by_targets-IsEdge last none h = elim (Bool-cases (is_exit_opcode last.opcode)) [
    | inl e ↦ rw e tt
    | inr e ↦ rw e fall_edges-IsEdge
  ]
  edges_by_targets-IsEdge last (some ts) h =
      elim (Bool-cases (is_unconditional_branch last.opcode)) [
        | inl e ↦ rw e (All-append _ (branch_edges block ts) [] (branch_edges-IsEdge ts h) tt)
        | inr e ↦
            rw e
              (All-append _ (branch_edges block ts) _ (branch_edges-IsEdge ts h) fall_edges-IsEdge)
      ]

  edges_after-IsEdge :
      (last : Option Instruction)
      → ((i : Instruction) → last ≡ some i → Aims code blocks i)
      → Returns (All (IsEdge (length code) (starts blocks))) (edges_after code blocks block last)
  edges_after-IsEdge none h = tt
  edges_after-IsEdge (some i) h =
      let aims = h i refl in
      Returns-bind _ _ (branch_targets code i.offset) _
        (Returns-self _ (branch_targets code i.offset) aims.0)
        λ o g. edges_by_targets-IsEdge i o (aims.1 o g.1)

abbrev pub Ready : List ℕ → List BasicBlock → BasicBlock → Type 0
Ready code blocks b =
    (contains b.start_offset (starts blocks) ≡ true) × All (Aims code blocks) b.instructions

pub make_edges-IsEdge :
    (code : List ℕ) (blocks rest : List BasicBlock)
    → All (Ready code blocks) rest
    → Returns (All (IsEdge (length code) (starts blocks))) (make_edges code blocks rest)
unfolding make_edges
make_edges-IsEdge code blocks [] h = tt
make_edges-IsEdge code blocks (b ∷ rest) (h, hs) =
    Returns-bind _ _ (edges_after code blocks b (last? b.instructions)) _
      (edges_after-IsEdge code blocks b h.0 (last? b.instructions)
        λ i e. last-All (Aims code blocks) b.instructions i h.1 e)
      λ edges g.
        Returns-bind _ _ (make_edges code blocks rest) _ (make_edges-IsEdge code blocks rest hs)
          λ more k. All-append _ edges more g k
