-- ===== src/Pci/Examples.antt =====
-- The theorems about kernel/src/pci.rs on a machine with a bridge.
use mathlib.Core.Bool.{true≢false}
use prometheos.Base.{
  ℕ, ◌+◌, ◌-◌, ◌*◌, ◌/◌, ◌%◌, ◌^◌, ◌≤◌, ◌<◌, ◌≡◌, refl, ap, ◌∙◌, sym, bit_and, ◌||◌, subst, ◌&&◌,
  arith, inl, inr, Bool-cases, true, some, none, mul64, add64, [], ◌∷◌, ◌==◌, if◌then◌else◌, ok,
}
use prometheos.Base.Exec.{done}
use prometheos.Vmm.Paging.{bytes}
use prometheos.Vmm.Machine.{Machine, page, set_entry}
use prometheos.Vmm.Map.{map}
use prometheos.Vmm.Range.{map_range_static}
use prometheos.Vmm.Examples.{paging}
use prometheos.Pci.Init.{McfgEntry, PciState, init}
use prometheos.Pci.Started.{mapping, started, init_lem}
use prometheos.Pci.Confined.{IsConfined}
use prometheos.Pci.Access.{PciAddress, Access}
use prometheos.Pci.Functions.{Info, is_bridge}
use prometheos.Pci.Enumerate.{pci_address, enum_bus}
use prometheos.Pci.Listing.{IsAddress, IsRising, register, is_there, info, secondary, listing}
use prometheos.Pci.Found.{enum_bus_lem}
use prometheos.Pci.Addresses.{mmio_address-inj}

abbrev base : ℕ
base = 2 ^ 32

-- Function 0 of device 0 of bus 0 is a bridge to bus 1, whose device 0 has function 0.
abbrev bridge_registers : ℕ → ℕ
bridge_registers a =
    if a == 0
    then 0x12348086
    else if a == 8
    then 0x06040000
    else if a == 12
    then 0x00010000
    else if a == 0x18
    then 0x100
    else if a == 2 ^ 20
    then 0x56788086
    else 0xFFFFFFFF

abbrev answer : Access → ℕ
answer (Access.memory_read size a) = bridge_registers (a - base)
answer (Access.memory_write size a value) = 0xFFFFFFFF
answer (Access.port_read size select port) = 0xFFFFFFFF
answer (Access.port_write size select port value) = 0xFFFFFFFF

test : listing base answer 2 0 ≡ (pci_address 0 0 0 ∷ pci_address 1 0 0 ∷ [])
unfolding listing
test = refl

-- Only the registers of the bridge hold the class of a bridge.
bridge_registers-class :
    (n : ℕ) → (bridge_registers (n * 4096 + 8) / 2 ^ 24 % 256 == 6) ≡ true → n ≡ 0
bridge_registers-class n h = ground arith

bridge-class : (i : Info) → is_bridge i ≡ true → (i.class_code == 6) ≡ true
unfolding is_bridge
bridge-class i h = elim (Bool-cases (i.class_code == 6)) [
  | inl same ↦ same
  | inr other ↦ absurd (
      true≢false (
        sym h
        ∙ ap (λ t. t && (i.subclass == 4 || i.subclass == 9) && bit_and i.header_byte 0x7F == 1)
            other))
]

place : (addr : PciAddress) → ℕ
place addr = addr.bus * 256 + addr.device * 8 + addr.function

module _ (addr : PciAddress) where
  register-at :
      (offset : ℕ)
      → register base answer addr offset ≡ bridge_registers (place addr * 4096 + offset)
  unfolding register place
  register-at offset =
      let same : base
            + addr.bus * 2 ^ 20
            + addr.device * 2 ^ 15
            + addr.function * 2 ^ 12
            + offset
            - base
          ≡ (addr.bus * 256 + addr.device * 8 + addr.function) * 4096 + offset =
        omega arith in
      ap bridge_registers same

  rising :
      IsAddress addr
      → is_there base answer addr ≡ true
      → is_bridge (info base answer addr) ≡ true
      → addr.bus < secondary base answer addr
  unfolding info is_bridge secondary place
  rising h there bridge =
      let first : place addr ≡ 0 = bridge_registers-class (place addr) (
        subst (λ r. (r / 2 ^ 24 % 256 == 6) ≡ true) (register-at 8)
          (bridge-class (info base answer addr) bridge)) in
      let bus : addr.bus ≡ 0 = omega arith in rw (register-at 0x18, first, bus) (omega arith)

  at_most :
      IsAddress addr
      → is_there base answer addr ≡ true
      → is_bridge (info base answer addr) ≡ true
      → secondary base answer addr ≤ 1
  unfolding info is_bridge secondary place
  at_most h there bridge =
      let first : place addr ≡ 0 = bridge_registers-class (place addr) (
        subst (λ r. (r / 2 ^ 24 % 256 == 6) ≡ true) (register-at 8)
          (bridge-class (info base answer addr) bridge)) in
      rw (register-at 0x18, first) (omega arith)

bridge_rising : IsRising base answer
unfolding IsRising
bridge_rising = rising

-- The enumeration finds the bridge, and the function behind it.
enum_bus_lem_example : enum_bus base answer 256 0 [] ≡ ok (done tt, listing base answer 256 0)
enum_bus_lem_example =
    enum_bus_lem base answer (omega arith) bridge_rising 256 0 (omega arith) (omega arith) []

in_range : IsAddress (pci_address 1 2 3)
in_range = record { bus = omega arith; device = omega arith; function = omega arith }

mmio_address-inj_example : (pci_address 1 2 3 ≡ pci_address 1 2 3) × (◌≡◌ {A = ℕ} 8 8)
mmio_address-inj_example =
    mmio_address-inj base (omega arith) (pci_address 1 2 3) (pci_address 1 2 3) in_range in_range 8
      8 (omega arith) (omega arith) refl

-- The tables on the way to the registers are there, and the last one is empty.
abbrev walked : ℕ → ℕ → ℕ
walked a i = if a == 0 then 4096 + 7 else if a == 4096 then 8192 + 7 else 0

abbrev machine : Machine
machine = record { pmm = none; vmm = some 0; hhdm = 0; table = walked; cr3 = 0; flushes = [] }

abbrev system : PciState
system = record { machine = machine; mcfg_address = 0 }

abbrev entry : McfgEntry
entry = record { phys = base; start_bus = 0; end_bus = 1 }

abbrev mapped_machine : Machine
mapped_machine = record machine {
  table = set_entry walked 8192 0 (base + 155);
  flushes = page base ∷ [];
}

maps : mapping paging system entry ≡ ok (done tt, mapped_machine)
unfolding map_range_static mul64 add64 map
maps = refl

-- The only bridge is that on bus 0, and leads to bus 1.
bridge-IsConfined : IsConfined base answer 1
bridge-IsConfined addr h low there bridge = at_most addr h there bridge

init_lem_example :
    init paging answer {Message = ℕ} (done entry) system
    ≡ started paging answer {Message = ℕ} system entry (mapping paging system entry)
unfolding bytes
init_lem_example =
    init_lem paging (omega arith) answer answer {Message = ℕ} system entry refl (omega arith)
      (omega arith) bridge_rising (λ a inside. refl) bridge-IsConfined
