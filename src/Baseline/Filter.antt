-- ===== src/Baseline/Filter.antt =====
-- What the filter of src/baseline.rs keeps.
use inspequte.Base.{
  ◌≡◌, ◌↔◌, refl, sym, ap, ◌∙◌, subst, ◌⊎◌, inl, inr, List, [], ◌∷◌, Ordering, Bool-cases,
}
use inspequte.Baseline.{
  SarifResult, Baseline, BaselineEntry, compare_entry, set_insert, is_found, entry_from,
  capture_all, capture, filter,
}
use inspequte.Base.Orders.{less, equal, greater, answer}
use inspequte.Baseline.Order.{Decides, compare_entry-Decides, compare_entry-Follows}
use inspequte.Baseline.Search.{Ordered, is_found-Mem}
use inspequte.Baseline.Sorted.{set_insert-Ordered}
use mathlib.Core.List.{Memᴰ}

module _ {ℓ} {A : Type ℓ} (cmp : A → A → Ordering) (decides : Decides cmp) where
  set_insert-Mem : (x z : A) (ys : List A) → Memᴰ z (set_insert cmp x ys) → (z ≡ x) ⊎ Memᴰ z ys
  unfolding set_insert
  set_insert-Mem x z [] (Memᴰ.head e) = inl e
  set_insert-Mem x z [] (Memᴰ.tail m) = elim m [ ]
  set_insert-Mem x z (y ∷ ys) m = elim (answer (cmp x y)) [
    | less e ↦ elim (rw (e, set_insert) at m) [ Memᴰ.head f ↦ inl f | Memᴰ.tail k ↦ inr k ]
    | equal e ↦ inr (rw (e, set_insert) at m)
    | greater e ↦ elim (rw (e, set_insert) at m) [
      | Memᴰ.head f ↦ inr (Memᴰ.head f)
      | Memᴰ.tail k ↦ elim (set_insert-Mem x z ys k) [ inl f ↦ inl f | inr j ↦ inr (Memᴰ.tail j) ]
    ]
  ]

  Mem-set_insert : (x z : A) (ys : List A) → (z ≡ x) ⊎ Memᴰ z ys → Memᴰ z (set_insert cmp x ys)
  unfolding set_insert
  Mem-set_insert x z [] (inl e) = Memᴰ.head e
  Mem-set_insert x z [] (inr m) = elim m [ ]
  Mem-set_insert x z (y ∷ ys) h = elim (answer (cmp x y)) [
    | less e ↦ rw (e, set_insert) (elim h [ inl f ↦ Memᴰ.head f | inr m ↦ Memᴰ.tail m ])
    | equal e ↦
        rw (e, set_insert) (elim h [ inl f ↦ Memᴰ.head (f ∙ decides.sound x y e) | inr m ↦ m ])
    | greater e ↦
        rw (e, set_insert)
          (elim h [
            | inl f ↦ Memᴰ.tail (Mem-set_insert x z ys (inl f))
            | inr (Memᴰ.head f) ↦ Memᴰ.head f
            | inr (Memᴰ.tail k) ↦ Memᴰ.tail (Mem-set_insert x z ys (inr k))
          ])
  ]

-- an entry of one of the results
abbrev Known : List SarifResult → BaselineEntry → Type 0
Known results entry = (r : SarifResult) × Memᴰ r results × (entry ≡ entry_from r)

capture_all-Mem :
    (results : List SarifResult) (findings : List BaselineEntry) (z : BaselineEntry)
    → Memᴰ z (capture_all results findings)
    → Memᴰ z findings ⊎ Known results z
unfolding capture_all
capture_all-Mem [] findings z m = inl m
capture_all-Mem (r ∷ results) findings z m =
    elim (capture_all-Mem results (set_insert compare_entry (entry_from r) findings) z m) [
      | inr (q, k, e) ↦ inr (q, Memᴰ.tail k, e)
      | inl k ↦
          elim (set_insert-Mem compare_entry compare_entry-Decides (entry_from r) z findings k) [
            | inl e ↦ inr (r, Memᴰ.head refl, e)
            | inr old ↦ inl old
          ]
    ]

Mem-capture_all :
    (results : List SarifResult) (findings : List BaselineEntry) (z : BaselineEntry)
    → Memᴰ z findings ⊎ Known results z
    → Memᴰ z (capture_all results findings)
unfolding capture_all
Mem-capture_all [] findings z (inl m) = m
Mem-capture_all [] findings z (inr (q, k, e)) = elim k [ ]
Mem-capture_all (r ∷ results) findings z (inl m) =
    Mem-capture_all results _ z
      (inl (Mem-set_insert compare_entry compare_entry-Decides (entry_from r) z findings (inr m)))
Mem-capture_all (r ∷ results) findings z (inr (q, Memᴰ.tail k, e)) =
    Mem-capture_all results _ z (inr (q, k, e))
Mem-capture_all (r ∷ results) findings z (inr (q, Memᴰ.head f, e)) = Mem-capture_all results _ z (
    inl (
      Mem-set_insert compare_entry compare_entry-Decides (entry_from r) z findings
        (inl (e ∙ ap entry_from f))))

capture_all-Ordered :
    (results : List SarifResult) (findings : List BaselineEntry)
    → Ordered compare_entry findings
    → Ordered compare_entry (capture_all results findings)
unfolding capture_all
capture_all-Ordered [] findings s = s
capture_all-Ordered (r ∷ results) findings s = capture_all-Ordered results _ (
    set_insert-Ordered compare_entry compare_entry-Decides.same compare_entry-Follows (entry_from r)
      findings s)

pub filter-Mem :
    (baseline : Baseline)
    → Ordered compare_entry baseline.findings
    → (results : List SarifResult) (r : SarifResult)
    → Memᴰ r (filter baseline results)
      ↔ (Memᴰ r results × (¬ Memᴰ (entry_from r) baseline.findings))
unfolding filter
filter-Mem baseline s [] r = ((λ m. elim m [ ]), λ h. elim (h.0) [ ])
filter-Mem baseline s (q ∷ results) r =
    let test =
      is_found-Mem compare_entry compare_entry-Decides compare_entry-Follows (entry_from q)
        baseline.findings s in
    let ih = filter-Mem baseline s results r in
    elim (Bool-cases (is_found compare_entry (entry_from q) baseline.findings)) [
      | inl known ↦ rw known (
        (λ m. (Memᴰ.tail ((ih.0 m).0), (ih.0 m).1)),
        λ h. elim (h.0) [
          | Memᴰ.head f ↦
              absurd
                (h.1 (subst (λ x. Memᴰ (entry_from x) baseline.findings) (sym f) (test.0 known)))
          | Memᴰ.tail k ↦ ih.1 (k, h.1)
        ],
      )
      | inr fresh ↦ rw fresh (
        (λ m. elim m [
          | Memᴰ.head f ↦ (
            Memᴰ.head f,
            λ j.
                absurd
                  (cc (fresh, test.1 (subst (λ x. Memᴰ (entry_from x) baseline.findings) f j))),
          )
          | Memᴰ.tail k ↦ (Memᴰ.tail ((ih.0 k).0), (ih.0 k).1)
        ]),
        λ h. elim (h.0) [ Memᴰ.head f ↦ Memᴰ.head f | Memᴰ.tail k ↦ Memᴰ.tail (ih.1 (k, h.1)) ],
      )
    ]

nothing_left : (rs : List SarifResult) → ((r : SarifResult) → ¬ Memᴰ r rs) → rs ≡ []
nothing_left [] h = refl
nothing_left (r ∷ rs) h = absurd (h r (Memᴰ.head refl))

-- The filter by a captured baseline keeps exactly the results whose entry is that of no captured
-- result, and it leaves nothing of the captured results themselves.
pub filter-capture :
    (known results : List SarifResult)
    → ((r : SarifResult)
        → Memᴰ r (filter (capture known) results)
          ↔ (Memᴰ r results × ((k : SarifResult) → Memᴰ k known → ¬ (entry_from k ≡ entry_from r))))
      × (filter (capture known) known ≡ [])
unfolding capture
filter-capture known results =
    let sorted = capture_all-Ordered known [] tt in
    (
      (λ r. (
        (λ m.
            let (k, fresh) = (filter-Mem (capture known) sorted results r).0 m in
            (k, λ q j e. fresh (Mem-capture_all known [] (entry_from r) (inr (q, j, sym e))))),
        λ h. (filter-Mem (capture known) sorted results r).1 (
          h.0,
          λ m. elim (capture_all-Mem known [] (entry_from r) m) [
            | inl old ↦ elim old [ ]
            | inr (q, j, e) ↦ h.1 q j (sym e)
          ],
        ),
      )),
      nothing_left (filter (capture known) known) λ r m.
          let (k, fresh) = (filter-Mem (capture known) sorted known r).0 m in
          fresh (Mem-capture_all known [] (entry_from r) (inr (r, k, refl))),
    )
