-- ===== src/Acpi/Devices.antt =====
-- The accesses to configuration registers and to ports in kernel/src/acpi/uacpi.rs.
use prometheos.Base.{
  ℕ, ◌+◌, ◌%◌, ◌^◌, Option, none, some, ltb, if◌then◌else◌, Panic, Result, ok, panic, ◌>>=◌,
}
use prometheos.Pci.Access.{PciAddress, Access, pci_read, pci_write}
use prometheos.Acpi.Boxes.{Boxes, into_raw, free_box}
use prometheos.Acpi.Status.{Status, success}

-- `handle` is the address of the new box.
unfoldable pub pci_device_open :
    Boxes PciAddress → (handle : ℕ) → PciAddress → Boxes PciAddress × ℕ × Status
unfolding into_raw
pci_device_open boxes handle address =
    let (boxes', out_handle) = into_raw boxes handle address in (boxes', out_handle, success)

unfoldable pub pci_device_close : Boxes PciAddress → Option ℕ → Boxes PciAddress
unfolding free_box
pci_device_close boxes handle = free_box boxes handle

-- `*(device as *const PciAddress)`, which wants the box to be there.
abbrev pub device_at : Boxes PciAddress → (device : ℕ) → Result PciAddress
device_at boxes device = elim (boxes device) [
  | some address ↦ ok address
  | none ↦ panic Panic.unwrap_none
]

-- `uacpi_kernel_pci_read8`, `16` and `32`, by the number of bytes, and the writes.
unfoldable pub kernel_pci_read :
    (mcfg : ℕ)
    → (answer : Access → ℕ) → Boxes PciAddress
    → (size device offset : ℕ) → Result (ℕ × Status)
unfolding pci_read
kernel_pci_read mcfg answer boxes size device offset = do
  address ← device_at boxes device
  access ← pci_read mcfg size address offset
  ok (answer access, success)

unfoldable pub kernel_pci_write :
    (mcfg : ℕ) → Boxes PciAddress → (size device offset value : ℕ) → Result (Access × Status)
unfolding pci_write
kernel_pci_write mcfg boxes size device offset value = do
  address ← device_at boxes device
  access ← pci_write mcfg size address offset value
  ok (access, success)

-- An access of `size` bytes to a port.
pub data PortAccess : Type 0 where
  port_in : (size port : ℕ) → PortAccess
  port_out : (size port value : ℕ) → PortAccess

unfoldable pub io_map : (base : ℕ) → ℕ × Status
io_map base = (base, success)

-- `handle as u16 + offset as u16`
unfoldable pub port_at : (handle offset : ℕ) → Result ℕ
port_at handle offset =
    let port = handle % 2 ^ 16 + offset % 2 ^ 16 in
    if ltb port (2 ^ 16) then ok port else panic Panic.overflow

-- `uacpi_kernel_io_read8`, `16` and `32`, by the number of bytes, and the writes.
unfoldable pub io_read : (size handle offset : ℕ) → Result PortAccess
unfolding port_at
io_read size handle offset = do port ← port_at handle offset; ok (port_in size port)

unfoldable pub io_write : (size handle offset value : ℕ) → Result PortAccess
unfolding port_at
io_write size handle offset value = do port ← port_at handle offset; ok (port_out size port value)
