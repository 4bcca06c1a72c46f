-- ===== src/Apic/Tables.antt =====
-- Which entries of its table kernel/src/apic.rs takes.
use prometheos.Base.{
  ℕ, ◌≡◌, refl, ap, ◌∙◌, Option, none, some, List, [], ◌∷◌, ◌==◌, if◌then◌else◌, inl, inr,
  Bool-cases,
}
use prometheos.Apic.{
  Subtable, ioapic, interrupt_source_override, other, Decision, go_on, break, ioapic_cb, IsoCtx,
  iso_cb, found_ioapic, find_ioapic, resolve_isa_irq,
}

-- The callback on each entry in turn, until it breaks.
abbrev pub next_entry : {S : Type 0} → S × Decision → (S → S) → S
next_entry (s, go_on) rest = rest s
next_entry (s, break) rest = s

unfoldable pub visit : {S : Type 0} → (Subtable → S → S × Decision) → List Subtable → S → S
visit cb [] s = s
visit cb (entry ∷ entries) s = next_entry (cb entry s) (visit cb entries)

-- The first entries that matter.
unfoldable pub first_ioapic : List Subtable → Option (ℕ × ℕ)
first_ioapic [] = none
first_ioapic (ioapic address gsi_base ∷ entries) = some (address, gsi_base)
first_ioapic (interrupt_source_override source gsi ∷ entries) = first_ioapic entries
first_ioapic (other ∷ entries) = first_ioapic entries

unfoldable pub first_override : (source : ℕ) → List Subtable → ℕ
first_override irq [] = irq
first_override irq (ioapic address gsi_base ∷ entries) = first_override irq entries
first_override irq (interrupt_source_override source gsi ∷ entries) =
    let rest = first_override irq entries in if source == irq then gsi else rest
first_override irq (other ∷ entries) = first_override irq entries

visit-ioapic_cb : (entries : List Subtable) → visit ioapic_cb entries none ≡ first_ioapic entries
unfolding visit ioapic_cb first_ioapic
visit-ioapic_cb [] = refl
visit-ioapic_cb (ioapic address gsi_base ∷ entries) = refl
visit-ioapic_cb (interrupt_source_override source gsi ∷ entries) = visit-ioapic_cb entries
visit-ioapic_cb (other ∷ entries) = visit-ioapic_cb entries

visit-iso_cb :
    (irq : ℕ) (entries : List Subtable)
    → (visit iso_cb entries (record { source = irq; gsi = irq })).gsi ≡ first_override irq entries
unfolding visit iso_cb first_override
visit-iso_cb irq [] = refl
visit-iso_cb irq (ioapic address gsi_base ∷ entries) = visit-iso_cb irq entries
visit-iso_cb irq (interrupt_source_override source gsi ∷ entries) =
    elim (Bool-cases (source == irq)) [
      | inl same ↦ rw same refl
      | inr differs ↦ rw differs (visit-iso_cb irq entries)
    ]
visit-iso_cb irq (other ∷ entries) = visit-iso_cb irq entries

-- What the library documents: a table has entries, and the iteration visits them in order.
pub record IsForEach {Table : Type 0}
    (for_each : (S : Type 0) → Table → (Subtable → S → S × Decision) → S → S)
    (entries : Table → List Subtable) : Type 1 where
  pub visits :
      (S : Type 0) (table : Table) (cb : Subtable → S → S × Decision) (s : S)
      → for_each S table cb s ≡ visit cb (entries table) s

module _ {Table : Type 0} (for_each : (S : Type 0) → Table → (Subtable → S → S × Decision) → S → S)
    (entries : Table → List Subtable) (is : IsForEach for_each entries) where
  -- With the library's iteration visiting the entries of a table in order until the callback breaks,
  -- `find_ioapic` returns the first IO-APIC of the table, or the error that there is none, and
  -- `resolve_isa_irq` the line of the first override for a source, or the source's own number.
  pub find_ioapic_lem :
      (table : Table) (source : ℕ)
      → (find_ioapic for_each (some table) ≡ found_ioapic for_each (first_ioapic (entries table)))
        × (resolve_isa_irq for_each (some table) source ≡ first_override source (entries table))
  unfolding find_ioapic resolve_isa_irq
  find_ioapic_lem table source = (
    ap (found_ioapic for_each)
        (is.visits (Option (ℕ × ℕ)) table ioapic_cb none ∙ visit-ioapic_cb (entries table)),
    ap (λ (ctx : IsoCtx). ctx.gsi)
          (is.visits IsoCtx table iso_cb (record { source = source; gsi = source }))
        ∙ visit-iso_cb source (entries table),
  )
