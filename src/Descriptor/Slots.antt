-- ===== src/Descriptor/Slots.antt =====
-- src/descriptor.rs: the slots of the parameters.
use inspequte.Base.{
  ℕ, suc, ◌+◌, ◌%◌, ◌^◌, ◌<◌, ◌≡◌, refl, sym, ap, subst, some, List, [], ◌∷◌, length, arith,
}
use inspequte.Base.Result.{ok}
use inspequte.Descriptor.{
  Descriptors, slot_width, sum_widths, start_slots, method_param_count, method_param_slots,
  method_param_start_slots, method_descriptor_summary,
}
use Prim.Native.String.{String}
use native.Mathlib.Nat.{mod-eq_of_lt}

module _ (descriptors : Descriptors) where
  -- The parameters stand side by side from `at` to `end`, each at its slot of the list.
  abbrev pub Laid : ℕ → List ℕ → List descriptors.TypeDescriptor → ℕ → Type 0
  Laid at [] [] end = at ≡ end
  Laid at [] (param ∷ params) end = ⊥
  Laid at (slot ∷ slots) [] end = ⊥
  Laid at (slot ∷ slots) (param ∷ params) end =
      (slot ≡ at) × Laid (at + slot_width descriptors param) slots params end

  start_slots-Laid :
      (params : List descriptors.TypeDescriptor) (at : ℕ)
      → at + sum_widths descriptors params < 2 ^ 16
      → Laid at (start_slots descriptors at params) params (at + sum_widths descriptors params)
  unfolding sum_widths start_slots
  start_slots-Laid [] at h = omega arith
  start_slots-Laid (param ∷ params) at h =
      let width = slot_width descriptors param in
      let small : (at + width) % 2 ^ 16 ≡ at + width = mod-eq_of_lt (omega arith) in
      let rest = start_slots-Laid params (at + width) (omega arith) in
      let same : at + width + sum_widths descriptors params
          ≡ at + (width + sum_widths descriptors params) =
        omega arith in
      (
        refl,
        rw small (
            subst (Laid (at + width) (start_slots descriptors (at + width) params) params) same
              rest),
      )

  length-start_slots :
      (params : List descriptors.TypeDescriptor) (at : ℕ)
      → length (start_slots descriptors at params) ≡ length params
  unfolding start_slots
  length-start_slots [] at = refl
  length-start_slots (param ∷ params) at = ap suc (length-start_slots params _)

  -- Of a descriptor that parses and whose parameters take fewer than 2^16 slots,
  -- `method_param_start_slots` returns one slot for each of the `method_param_count` parameters: the
  -- parameters lie side by side from slot 0 on and end at the slot `method_param_slots`.
  pub method_param_start_slots-Laid :
      (descriptor : String) {parsed : descriptors.MethodDescriptor}
      → descriptors.from_str descriptor ≡ some parsed
      → sum_widths descriptors (descriptors.parameter_types parsed) < 2 ^ 16
      → (slots : List ℕ) × (end : ℕ) × (method_param_start_slots descriptors descriptor ≡ ok slots)
        × (method_param_slots descriptors descriptor ≡ ok end)
        × (method_param_count descriptors descriptor ≡ ok (length slots))
        × Laid 0 slots (descriptors.parameter_types parsed) end
  unfolding method_param_start_slots method_param_slots method_param_count method_descriptor_summary
  method_param_start_slots-Laid descriptor {parsed} e h =
      let params = descriptors.parameter_types parsed in
      (
        start_slots descriptors 0 params,
        sum_widths descriptors params,
        rw e refl,
        rw e refl,
        rw e (ap ok (sym (length-start_slots params 0))),
        subst (Laid 0 (start_slots descriptors 0 params) params) (omega arith)
            (start_slots-Laid params 0 (omega (arith, h))),
      )
