-- ===== src/Pci/Init.antt =====
-- `init` of kernel/src/pci.rs: the table MCFG, the mapping of the registers, and the enumeration.
use prometheos.Base.{ℕ, ◌*◌, ◌^◌, bit_or, List, [], ok, panic, add64, sub64}
use prometheos.Base.Exec.{Outcome, done, fail, Exec, ◌>>=◌, ◌>>◌, lift}
use prometheos.Vmm.Paging.{Paging, large, bytes}
use prometheos.Vmm.Machine.{Machine}
use prometheos.Vmm.Map.{MapError}
use prometheos.Vmm.Range.{map_range_static}
use prometheos.Heap.Sizes.{div_ceil}
use prometheos.Pci.Access.{PciAddress, Access}
use prometheos.Pci.Enumerate.{Cut, enum_bus}

-- The first entry of the table MCFG.
pub record McfgEntry : Type 0 where
  pub phys : ℕ
  pub start_bus : ℕ
  pub end_bus : ℕ

-- `PciError`, and the stop of the enumeration at a depth.
pub data PciError (Message : Type 0) : Type 0 where
  mcfg_not_found : Message → PciError Message
  could_not_map : MapError → PciError Message
  cut : Cut → PciError Message

-- `mcfg_address` is the static `MCFG_ADDRESS`.
pub record PciState : Type 0 where
  pub machine : Machine
  pub mcfg_address : ℕ

abbrev pub Started : Type 0 → Type 0
Started Message = Outcome (PciError Message) (List PciAddress) × PciState

-- The register_flags of the pages that hold the registers.
abbrev pub register_flags : Paging → ℕ
register_flags x = bit_or (bit_or (bit_or (bit_or x.p x.writable) x.xd) x.pcd) x.pwt

-- `answer` is the hardware. It answers at every address, as if all were mapped: a page fault, which the
-- code has at a register that is not, is no part of this. `find` is what the library for ACPI returns for the table: a message, or
-- the table's entry.
module _ (x : Paging) (answer : Access → ℕ) {Message : Type 0}
    (find : Outcome Message McfgEntry) where
  abbrev pub Init : Type 0 → Type 0
  Init = Exec PciState (PciError Message)

  abbrev pub found_entry : Init McfgEntry
  found_entry s = elim find [
    | done entry ↦ ok (done entry, s)
    | fail why ↦ ok (fail (mcfg_not_found why), s)
  ]

  unfoldable pub map_registers : (virt phys pages : ℕ) → Init (Unit {0})
  unfolding map_range_static
  map_registers virt phys pages s =
      elim (map_range_static x virt phys pages (register_flags x) large s.machine) [
        | ok (done _, m) ↦ ok (done tt, record s { machine = m })
        | ok (fail e, m) ↦ ok (fail (could_not_map e), record s { machine = m })
        | panic why ↦ panic why
      ]

  abbrev pub hhdm_offset : Init ℕ
  hhdm_offset s = ok (done s.machine.hhdm, s)

  abbrev pub set_mcfg_address : ℕ → Init (Unit {0})
  set_mcfg_address virt s = ok (done tt, record s { mcfg_address = virt })

  -- `enum_bus` on an empty vector; it reads the static.
  unfoldable pub enum_all : (bus : ℕ) → Init (List PciAddress)
  unfolding enum_bus
  enum_all bus s = elim (enum_bus s.mcfg_address answer 256 bus []) [
    | ok (done _, devices) ↦ ok (done devices, s)
    | ok (fail e, _) ↦ ok (fail (cut e), s)
    | panic why ↦ panic why
  ]

  unfoldable pub init : Init (List PciAddress)
  unfolding bytes map_registers enum_all
  init = do
    entry ← found_entry
    buses ← lift (sub64 entry.end_bus entry.start_bus)
    bus_count ← lift (add64 buses 1)
    hhdm ← hhdm_offset
    virt ← lift (add64 entry.phys hhdm)
    map_registers virt entry.phys (div_ceil (bus_count * 2 ^ 20) (bytes x large))
    set_mcfg_address virt
    enum_all entry.start_bus
