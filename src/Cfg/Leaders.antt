-- ===== src/Cfg/Leaders.antt =====
-- The block leaders that `build_cfg` of src/cfg.rs collects.
use inspequte.Base.{
  ℕ, zero, suc, ◌+◌, ◌%◌, ◌^◌, ◌<◌, ◌≡◌, refl, sym, ap, ◌∙◌, subst, Bool, true, Option, none, some,
  List, [], ◌∷◌, length, keep, arith, ltb, lt→ltb, All, All-imp, Bool-cases, inl, inr,
  if◌then◌else◌,
}
use inspequte.Base.BTree.{
  BTreeSet, set_insert, contains, contains-set_insert, Ascending, set_insert-Ascending,
  Ascending-cons, Ascending-above, Ascending-tail,
}
use inspequte.Base.Result.{Result, ok, err, panic, ok-injective, Returns, Returns-bind, Returns-imp}
use inspequte.Bytecode.{opcode_length}
use inspequte.Bytecode.Lengths.{Safe, opcode_length-AtLeastOne}
use inspequte.Ir.{Instruction}
use inspequte.Cfg.{
  branch_targets, is_exit_opcode, insert_all, next_offset, insert_next, branch_leaders,
  instruction_leaders, all_leaders, leader_list,
}
use native.Mathlib.Nat.{mod-eq_of_lt}

-- a larger set, still in ascending order
pub record Extends (s s' : BTreeSet) : Type 0 where
  pub keeps : (j : ℕ) → contains j s ≡ true → contains j s' ≡ true
  pub ascending : Ascending s → Ascending s'

Extends-refl : (s : BTreeSet) → Extends s s
Extends-refl s = record { keeps = λ j h. h; ascending = λ a. a }

Extends-trans : {s t u : BTreeSet} → Extends s t → Extends t u → Extends s u
Extends-trans e f = record {
  keeps = λ j h. f.keeps j (e.keeps j h);
  ascending = λ a. f.ascending (e.ascending a);
}

set_insert-Extends : (k : ℕ) (s : BTreeSet) → Extends s (set_insert k s)
set_insert-Extends k s = record {
  keeps = λ j h. ground (arith, contains-set_insert j k s);
  ascending = set_insert-Ascending k s;
}

insert_all-Extends : (xs : List ℕ) (s : BTreeSet) → Extends s (insert_all xs s)
insert_all-Extends [] s = Extends-refl s
insert_all-Extends (x ∷ xs) s =
    Extends-trans (set_insert-Extends x s) (insert_all-Extends xs (set_insert x s))

contains_self : (k : ℕ) (s : BTreeSet) → contains k (set_insert k s) ≡ true
contains_self k s = ground (arith, contains-set_insert k k s)

insert_all-contains :
    (xs : List ℕ) (s : BTreeSet) → All (λ x. contains x (insert_all xs s) ≡ true) xs
insert_all-contains [] s = tt
insert_all-contains (x ∷ xs) s = (
  (insert_all-Extends xs (set_insert x s)).keeps x (contains_self x s),
  insert_all-contains xs (set_insert x s),
)

abbrev pub TargetsIn : BTreeSet → Option (List ℕ) → Type 0
TargetsIn s none = Unit
TargetsIn s (some targets) = All (λ t. contains t s ≡ true) targets

-- The offset after the instruction is a leader.
abbrev pub NextIn : List ℕ → Instruction → BTreeSet → Type 0
NextIn code inst s =
    (n : ℕ) → opcode_length code inst.offset ≡ ok n → contains ((inst.offset + n) % 2 ^ 32) s ≡ true

abbrev pub Branches : Option (List ℕ) → Type 0
Branches none = ⊥
Branches (some targets) = Unit

-- The targets of the instruction are leaders, and so is the offset after a branch or an exit.
pub record Leads (code : List ℕ) (inst : Instruction) (s : BTreeSet) : Type 0 where
  pub targets : (o : Option (List ℕ)) → branch_targets code inst.offset ≡ ok o → TargetsIn s o
  pub after_branch :
      (o : Option (List ℕ))
      → branch_targets code inst.offset ≡ ok o
      → Branches o
      → NextIn code inst s
  pub after_exit : is_exit_opcode inst.opcode ≡ true → NextIn code inst s

TargetsIn-Extends :
    {s t : BTreeSet} (o : Option (List ℕ)) → Extends s t → TargetsIn s o → TargetsIn t o
TargetsIn-Extends none e h = tt
TargetsIn-Extends (some ts) e h = All-imp (λ x. e.keeps x) ts h

Leads-Extends :
    {code : List ℕ} {inst : Instruction} {s t : BTreeSet}
    → Extends s t
    → Leads code inst s
    → Leads code inst t
Leads-Extends e l = record {
  targets = λ o h. TargetsIn-Extends o e (l.targets o h);
  after_branch = λ o h b n g. e.keeps _ (l.after_branch o h b n g);
  after_exit = λ h n g. e.keeps _ (l.after_exit h n g);
}

pub Returns-self :
    {A : Type 0} (P : A → Type 0) (r : Result A) → Returns P r → Returns (λ a. (P a) × (r ≡ ok a)) r
Returns-self P (ok a) h = (h, refl)
Returns-self P (err e) h = tt
Returns-self P panic h = elim h [ ]

module _ (code : List ℕ) (inst : Instruction) (inside : inst.offset < length code)
    (safe : Safe (branch_targets code inst.offset)) where
  insert_next-Returns :
      (s : BTreeSet) → Returns (λ t. Extends s t × NextIn code inst t) (insert_next code inst s)
  insert_next-Returns s =
      Returns-bind
        (λ next.
          (n : ℕ) → opcode_length code inst.offset ≡ ok n → (inst.offset + n) % 2 ^ 32 ≡ next)
        _ (next_offset code inst) (λ next. ok (set_insert next s))
        (Returns-bind _ _ (opcode_length code inst.offset) (λ n. ok ((inst.offset + n) % 2 ^ 32))
          (Returns-self _ (opcode_length code inst.offset)
            (opcode_length-AtLeastOne code inst.offset inside))
          (λ n h m g. ap (λ k. (inst.offset + k) % 2 ^ 32) (ok-injective (sym g ∙ h.1))))
        (λ next h. (set_insert-Extends next s, λ n g. rw (h n g) (contains_self next s)))

  branch_leaders-Returns :
      (o : Option (List ℕ)) (s : BTreeSet)
      → Returns
          (λ t. Extends s t × TargetsIn t o × (Branches o → NextIn code inst t))
          (branch_leaders code inst o s)
  branch_leaders-Returns none s = (Extends-refl s, tt, λ b. elim b [ ])
  branch_leaders-Returns (some ts) s =
      Returns-imp (insert_next code inst (insert_all ts s)) (insert_next-Returns (insert_all ts s))
        λ t h. (
          Extends-trans (insert_all-Extends ts s) h.0,
          TargetsIn-Extends (some ts) h.0 (insert_all-contains ts s),
          λ b. h.1,
        )

  instruction_leaders-Returns :
      (s : BTreeSet)
      → Returns (λ t. Extends s t × Leads code inst t) (instruction_leaders code inst s)
  unfolding instruction_leaders
  instruction_leaders-Returns s =
      Returns-bind _ _ (branch_targets code inst.offset) _
        (Returns-self _ (branch_targets code inst.offset) safe)
        λ o h.
          Returns-bind _ _ (branch_leaders code inst o s) _ (branch_leaders-Returns o s)
            λ t g. exit_leaders o h.1 t g
    where
      same_targets :
          (o p : Option (List ℕ))
          → branch_targets code inst.offset ≡ ok o
          → branch_targets code inst.offset ≡ ok p
          → o ≡ p
      same_targets o p h g = ok-injective (sym h ∙ g)

      exit_leaders :
          (o : Option (List ℕ))
          → branch_targets code inst.offset ≡ ok o
          → (t : BTreeSet) → Extends s t × TargetsIn t o × (Branches o → NextIn code inst t)
          → Returns
              (λ u. Extends s u × Leads code inst u)
              (if is_exit_opcode inst.opcode then insert_next code inst t else ok t)
      exit_leaders o h t g = elim (Bool-cases (is_exit_opcode inst.opcode)) [
        | inl exits ↦ rw exits (
            Returns-imp (insert_next code inst t) (insert_next-Returns t) λ u k. (
              Extends-trans g.0 k.0,
              record {
                targets =
                    λ p q. subst (TargetsIn u) (same_targets o p h q) (TargetsIn-Extends o k.0 g.1);
                after_branch =
                    λ p q b n l. k.0.keeps _ (g.2 (subst Branches (same_targets p o q h) b) n l);
                after_exit = λ x. k.1;
              },
            ))
        | inr stays ↦ rw stays (
          g.0,
          record {
            targets = λ p q. subst (TargetsIn t) (same_targets o p h q) g.1;
            after_branch = λ p q b. g.2 (subst Branches (same_targets p o q h) b);
            after_exit = λ x. cc (x, stays);
          },
        )
      ]

module _ (code : List ℕ) where
  abbrev pub Inside : List Instruction → Type 0
  Inside = All (λ (i : Instruction). (i.offset < length code) × Safe (branch_targets code i.offset))

  all_leaders-Returns :
      (is : List Instruction) (s : BTreeSet)
      → Inside is
      → Returns (λ t. Extends s t × All (λ i. Leads code i t) is) (all_leaders code is s)
  unfolding all_leaders
  all_leaders-Returns [] s h = (Extends-refl s, tt)
  all_leaders-Returns (i ∷ is) s (h, hs) =
      Returns-bind _ _ (instruction_leaders code i s) (all_leaders code is)
        (instruction_leaders-Returns code i h.0 h.1 s)
        λ t g.
          Returns-imp (all_leaders code is t) (all_leaders-Returns is t hs)
            λ u k. (Extends-trans g.0 k.0, (Leads-Extends k.0 g.1, k.1))

keep-contains :
    (p : ℕ → Bool) (j : ℕ) (s : List ℕ)
    → contains j s ≡ true
    → p j ≡ true
    → contains j (keep p s) ≡ true
unfolding contains
keep-contains p j [] h g = cc
keep-contains p j (x ∷ s) h g = ground (arith, keep-contains p j s)

keep-below : (p : ℕ → Bool) (x : ℕ) (s : List ℕ) → All (λ y. x < y) s → All (λ y. x < y) (keep p s)
keep-below p x [] h = tt
keep-below p x (y ∷ s) (h, hs) = ground (arith, keep-below p x s hs)

keep-Ascending : (p : ℕ → Bool) (s : List ℕ) → Ascending s → Ascending (keep p s)
keep-Ascending p [] a = tt
keep-Ascending p (x ∷ s) a =
    let rest = keep-Ascending p s (Ascending-tail x s a) in
    elim (Bool-cases (p x)) [
      | inl kept ↦
          rw kept (Ascending-cons x (keep p s) (keep-below p x s (Ascending-above x s a)) rest)
      | inr gone ↦ rw gone rest
    ]

keep-holds : (bound : ℕ) (s : List ℕ) → All (λ y. y < bound) (keep (λ y. ltb y bound) s)
keep-holds bound [] = tt
keep-holds bound (x ∷ s) = ground (arith, keep-holds bound s)

-- an ascending list with 0 in it begins with 0
first_zero : (s : List ℕ) → Ascending s → contains 0 s ≡ true → (rest : List ℕ) × (s ≡ 0 ∷ rest)
unfolding contains
first_zero [] a h = cc
first_zero (zero ∷ s) a h = (s, refl)
first_zero (suc x ∷ []) a h = absurd (ground arith)
first_zero (suc x ∷ y ∷ s) a h =
    let (rest, e) = first_zero (y ∷ s) a.1 (ground arith) in
    absurd (omega (arith, a.0, ap head_or e))
  where
    head_or : List ℕ → ℕ
    head_or [] = 0
    head_or (z ∷ zs) = z

-- The leaders of a code shorter than 2^32 bytes: ascending, within the code, 0 first, with every
-- target and every offset after a branch or an exit that lies in the code.
pub record IsLeaderList (code : List ℕ) (is : List Instruction) (leaders : List ℕ) : Type 0 where
  pub ascending : Ascending leaders
  pub inside : All (λ l. l < length code) leaders
  pub zero_first : 0 < length code → (rest : List ℕ) × (leaders ≡ 0 ∷ rest)
  pub all : BTreeSet
  pub leads : All (λ i. Leads code i all) is
  pub kept : (j : ℕ) → contains j all ≡ true → j < length code → contains j leaders ≡ true

pub leader_list-Returns :
    (code : List ℕ) (is : List Instruction) (handlers : List ℕ)
    → length code < 2 ^ 32
    → Inside code is
    → Returns (IsLeaderList code is) (leader_list code is handlers)
unfolding leader_list
leader_list-Returns code is handlers short inside =
    let start = set_insert 0 [] in
    let entry = insert_all-Extends handlers start in
    let bound : length code % 2 ^ 32 ≡ length code = mod-eq_of_lt short in
    rw bound (
      Returns-bind _ _ (all_leaders code is (insert_all handlers start)) _
        (all_leaders-Returns code is (insert_all handlers start) inside)
        λ t h.
          let sorted = h.0.ascending (entry.ascending (set_insert-Ascending 0 [] tt)) in
          let sorted' = keep-Ascending (λ o. ltb o (length code)) t sorted in
          let kept : (j : ℕ)
              → contains j t ≡ true
              → j < length code
              → contains j (keep (λ o. ltb o (length code)) t) ≡ true =
            λ j c l. keep-contains (λ o. ltb o (length code)) j t c (lt→ltb j (length code) l) in
          record {
            ascending = sorted';
            inside = keep-holds (length code) t;
            zero_first = λ l.
                first_zero _ sorted' (kept 0 (h.0.keeps 0 (entry.keeps 0 (contains_self 0 []))) l);
            all = t;
            leads = h.1;
            kept = kept;
          })
