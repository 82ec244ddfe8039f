-- ===== src/Cfg/Blocks.antt =====
-- The basic blocks of src/cfg.rs: their order and their instructions.
use inspequte.Base.{
  ℕ, ◌+◌, ◌%◌, ◌^◌, ◌≤◌, ◌<◌, ◌≡◌, refl, ap, ◌∙◌, Bool, true, ◌&&◌, List, [], ◌∷◌, ◌++◌, length,
  keep, arith, leb, ltb, All, All-imp, Bool-cases, leb→le, inl, inr,
}
use inspequte.Base.BTree.{BTreeSet, Ascending}
use inspequte.Ir.{Instruction, BasicBlock}
use inspequte.Cfg.{make_blocks}
use mathlib.Core.List.{append-nil}
use native.Mathlib.Nat.{mod-eq_of_lt}

-- offsets strictly increase, from `lo` on
abbrev pub SortedFrom : ℕ → List Instruction → Type 0
SortedFrom lo [] = Unit
SortedFrom lo (i ∷ is) = (lo ≤ i.offset) × SortedFrom (i.offset + 1) is

pub SortedFrom-All :
    (lo : ℕ) (is : List Instruction)
    → SortedFrom lo is
    → All (λ (i : Instruction). lo ≤ i.offset) is
SortedFrom-All lo [] s = tt
SortedFrom-All lo (i ∷ is) (h, s) =
    (h, All-imp (λ (j : Instruction) g. omega arith) is (SortedFrom-All (i.offset + 1) is s))

abbrev pub from_start : ℕ → List Instruction → List Instruction
from_start start = keep (λ (inst : Instruction). leb start inst.offset)

abbrev in_range : ℕ → ℕ → List Instruction → List Instruction
in_range start end = keep (λ (inst : Instruction). leb start inst.offset && ltb inst.offset end)

-- beyond the end of a range nothing of it is left
in_range_beyond :
    (start end : ℕ) (is : List Instruction)
    → All (λ (i : Instruction). end ≤ i.offset) is
    → in_range start end is ≡ []
in_range_beyond start end [] h = refl
in_range_beyond start end (i ∷ is) (h, hs) = ground (arith, in_range_beyond start end is hs)

pub from_start_beyond :
    (start : ℕ) (is : List Instruction)
    → All (λ (i : Instruction). start ≤ i.offset) is
    → from_start start is ≡ is
from_start_beyond start [] h = refl
from_start_beyond start (i ∷ is) (h, hs) = ground (arith, from_start_beyond start is hs)

-- a range and what follows it
in_range-append :
    (start end lo : ℕ) (is : List Instruction)
    → start ≤ end
    → SortedFrom lo is
    → in_range start end is ++ from_start end is ≡ from_start start is
in_range-append start end lo [] h s = refl
in_range-append start end lo (i ∷ is) h (g, s) = elim (Bool-cases (leb end i.offset)) [
  | inr before ↦ ground (arith, in_range-append start end (i.offset + 1) is h s)
  | inl beyond ↦
      let later : All (λ (j : Instruction). end ≤ j.offset) is =
        All-imp (λ (j : Instruction) q. ground arith) is (SortedFrom-All (i.offset + 1) is s) in
      let later' : All (λ (j : Instruction). start ≤ j.offset) is =
        All-imp (λ (j : Instruction) q. omega arith) is later in
      ground (
        arith,
        in_range_beyond start end is later,
        from_start_beyond end is later,
        from_start_beyond start is later',
      )
]

-- the instructions of all blocks, in order
abbrev pub all_instructions : List BasicBlock → List Instruction
all_instructions [] = []
all_instructions (b ∷ bs) = b.instructions ++ all_instructions bs

pub make_blocks-instructions :
    (code : List ℕ) (is : List Instruction) (start : ℕ) (leaders : BTreeSet) (lo : ℕ)
    → Ascending (start ∷ leaders)
    → SortedFrom lo is
    → all_instructions (make_blocks code is (start ∷ leaders)) ≡ from_start start is
unfolding make_blocks
make_blocks-instructions code is start [] lo a s = append-nil (from_start start is)
make_blocks-instructions code is start (end ∷ leaders) lo a s =
    ap (λ r. in_range start end is ++ r) (make_blocks-instructions code is end leaders lo a.1 s)
    ∙ in_range-append start end lo is (omega (arith, a.0)) s

-- The blocks follow one another from `at` to `end`, none empty, and each holds instructions of its
-- range only.
abbrev pub Chained : ℕ → ℕ → List BasicBlock → Type 0
Chained at end [] = at ≡ end
Chained at end (b ∷ bs) =
    (b.start_offset ≡ at)
    × (at < b.end_offset)
    × All (λ (i : Instruction). (at ≤ i.offset) × (i.offset < b.end_offset)) b.instructions
    × Chained b.end_offset end bs

pub keep-All {κ} :
    (P : Instruction → Type κ) (p : Instruction → Bool) (is : List Instruction)
    → All (λ i. p i ≡ true → P i) is
    → All P (keep p is)
keep-All P p [] h = tt
keep-All P p (i ∷ is) (h, hs) = elim (Bool-cases (p i)) [
  | inl kept ↦ rw kept (h kept, keep-All P p is hs)
  | inr gone ↦ rw gone (keep-All P p is hs)
]

abbrev Within : ℕ → ℕ → Instruction → Type 0
Within start end i = (start ≤ i.offset) × (i.offset < end)

keep-Within :
    (p : Instruction → Bool) (start end bound : ℕ) (is : List Instruction)
    → ((i : Instruction) → i.offset < bound → p i ≡ true → Within start end i)
    → All (λ (i : Instruction). i.offset < bound) is
    → All (Within start end) (keep p is)
keep-Within p start end bound is f h = keep-All (Within start end) p is (
    All-imp {P = λ (i : Instruction). i.offset < bound} {Q = λ i. p i ≡ true → Within start end i} f
      is h)

pub make_blocks-Chained :
    (code : List ℕ) (is : List Instruction) (start : ℕ) (leaders : BTreeSet)
    → length code < 2 ^ 32
    → Ascending (start ∷ leaders)
    → All (λ l. l < length code) (start ∷ leaders)
    → All (λ (i : Instruction). i.offset < length code) is
    → Chained start (length code) (make_blocks code is (start ∷ leaders))
unfolding make_blocks
make_blocks-Chained code is start [] short a below inside =
    let whole : length code % 2 ^ 32 ≡ length code = mod-eq_of_lt short in
    (
      refl,
      omega (arith, below.0),
      keep-Within _ start (length code % 2 ^ 32) (length code) is
          (λ i h k. (leb→le start i.offset k, omega arith)) inside,
      whole,
    )
make_blocks-Chained code is start (end ∷ leaders) short a below inside = (
  refl,
  a.0,
  keep-Within _ start end (length code) is (λ i h k. ground arith) inside,
  make_blocks-Chained code is end leaders short a.1 below.1 inside,
)
