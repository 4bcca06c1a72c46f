-- ===== src/Apic/Examples.antt =====
-- The theorem about kernel/src/apic.rs on a table whose override moves the timer's line.
use prometheos.Base.{◌≡◌, refl, List, [], ◌∷◌, some}
use prometheos.Apic.{
  Subtable, ioapic, interrupt_source_override, other, Decision, found_ioapic, find_ioapic,
  resolve_isa_irq,
}
use prometheos.Apic.Tables.{visit, first_ioapic, first_override, IsForEach, find_ioapic_lem}

-- A table is the list of its entries.
abbrev iterate : (S : Type 0) → List Subtable → (Subtable → S → S × Decision) → S → S
iterate S table cb s = visit cb table s

iterate-IsForEach : IsForEach iterate (λ table. table)
iterate-IsForEach = record { visits = λ S table cb s. refl }

abbrev madt : List Subtable
madt =
    other ∷ interrupt_source_override 0 2 ∷ ioapic 0xFEC00000 0 ∷ interrupt_source_override 9 9 ∷ []

find_ioapic_lem_example :
    (find_ioapic iterate (some madt) ≡ found_ioapic iterate (first_ioapic madt))
    × (resolve_isa_irq iterate (some madt) 0 ≡ first_override 0 madt)
find_ioapic_lem_example = find_ioapic_lem iterate (λ table. table) iterate-IsForEach madt 0
