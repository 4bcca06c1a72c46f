-- ===== src/Apic.antt =====
-- kernel/src/apic.rs: which IO-APIC serves the keyboard, by which line, and the start of it.
use prometheos.Base.{
  ℕ, ◌+◌, ◌-◌, ◌%◌, bit_or, Bool, true, false, Option, none, some, leb, ◌==◌, if◌then◌else◌, Panic,
  ok, panic, check,
}
use prometheos.Base.Exec.{Outcome, done, fail, Exec, ◌>>=◌, ◌>>◌, pure, raise, lift}
use prometheos.Vmm.Paging.{Paging, base}
use prometheos.Vmm.Machine.{Machine}
use prometheos.Vmm.Map.{MapError}
use prometheos.Vmm.Range.{map_hhdm}
use prometheos.Idt.{Cpu, install_handler}
pub mod Tables
pub mod Examples

-- An entry of the table APIC, of a type that the code asks for or of another one.
pub data Subtable : Type 0 where
  ioapic : (address gsi_base : ℕ) → Subtable
  interrupt_source_override : (source gsi : ℕ) → Subtable
  other : Subtable

-- What a callback decides.
pub data Decision : Type 0 where
  go_on break : Decision

pub data ApicError : Type 0 where
  acpi_table_not_found ioapic_not_found : ApicError
  could_not_map : MapError → ApicError

unfoldable pub ioapic_cb : Subtable → Option (ℕ × ℕ) → Option (ℕ × ℕ) × Decision
ioapic_cb (ioapic address gsi_base) out = (some (address, gsi_base), break)
ioapic_cb (interrupt_source_override source gsi) out = (out, go_on)
ioapic_cb other out = (out, go_on)

pub record IsoCtx : Type 0 where
  pub source : ℕ
  pub gsi : ℕ

unfoldable pub iso_cb : Subtable → IsoCtx → IsoCtx × Decision
iso_cb (interrupt_source_override source gsi) ctx =
    if source == ctx.source then (record ctx { gsi = gsi }, break) else (ctx, go_on)
iso_cb (ioapic address gsi_base) ctx = (ctx, go_on)
iso_cb other ctx = (ctx, go_on)

-- `for_each` is the ACPI library's iteration over a table; the table is `none` if it is not found.
module _ {Table : Type 0}
    (for_each : (S : Type 0) → Table → (Subtable → S → S × Decision) → S → S) where
  unfoldable pub found_ioapic : Option (ℕ × ℕ) → Outcome ApicError (ℕ × ℕ)
  found_ioapic none = fail ioapic_not_found
  found_ioapic (some found) = done found

  unfoldable pub find_ioapic : Option Table → Outcome ApicError (ℕ × ℕ)
  unfolding ioapic_cb found_ioapic
  find_ioapic none = fail acpi_table_not_found
  find_ioapic (some table) = found_ioapic (for_each (Option (ℕ × ℕ)) table ioapic_cb none)

  unfoldable pub resolve_isa_irq : Option Table → (source : ℕ) → ℕ
  unfolding iso_cb
  resolve_isa_irq none source = source
  resolve_isa_irq (some table) source =
      (for_each IsoCtx table iso_cb (record { source = source; gsi = source })).gsi

  -- `lapic_attached` is the call of the local APIC's `attach`, and `enabled` the call of the IO-APIC's `enable`: its address, the line and the processor.
  pub record ApicState (H : Type 0) : Type 0 where
    pub machine : Machine
    pub cpu : Cpu H
    pub pic_masked : Bool
    pub lapic_attached : Bool
    pub enabled : Option (ℕ × ℕ × ℕ)
    pub interrupts : Bool

  -- `keyboard` is the handler, and `bsp_id` the processor's number.
  module _ {H : Type 0} (x : Paging) (keyboard : H) (bsp_id : ℕ) where
    abbrev pub Init : Type 0 → Type 0
    Init = Exec (ApicState H) ApicError

    abbrev pub returning : {A : Type 0} → Outcome ApicError A → Init A
    returning (done a) = pure a
    returning (fail e) = raise e

    abbrev pub register_flags : ℕ
    register_flags = bit_or (bit_or (bit_or (bit_or x.p x.writable) x.xd) x.pcd) x.pwt

    unfoldable pub map_registers : (phys : ℕ) → Init ℕ
    unfolding map_hhdm
    map_registers phys s = elim (map_hhdm x phys register_flags base s.machine) [
      | ok (done virt, m) ↦ ok (done virt, record s { machine = m })
      | ok (fail e, m) ↦ ok (fail (could_not_map e), record s { machine = m })
      | panic why ↦ panic why
    ]

    unfoldable pub init : Option Table → Init (Unit {0})
    unfolding find_ioapic resolve_isa_irq map_registers install_handler
    init table = do
      λ s. pure tt (record s {
        pic_masked = true;
        lapic_attached = true;
        cpu = install_handler 0x21 keyboard s.cpu;
      })
      (phys, base_gsi) ← returning (find_ioapic table)
      let kb_gsi = resolve_isa_irq table 1
      lift (check (leb base_gsi kb_gsi) Panic.gsi_below_base)
      virt ← map_registers phys
      λ s. pure tt (record s {
        enabled = some (virt, (kb_gsi - base_gsi) % 256, bsp_id % 256);
        interrupts = true;
      })
