-- ===== src/Pci/Access.antt =====
-- `pci_read` and `pci_write` of kernel/src/pci.rs, as the accesses that they make.
use prometheos.Base.{
  ℕ, ◌+◌, ◌*◌, ◌%◌, ◌^◌, bit_and, bit_or, Bool, ◌||◌, ◌==◌, if◌then◌else◌, Result, ok, Panic, ◌>>=◌,
  ◌>>◌, check, add64,
}

-- Three bytes.
pub record PciAddress : Type 0 where
  pub bus : ℕ
  pub device : ℕ
  pub function : ℕ

-- A shift on `u32` and on `u64` drops the high bits; those of a byte by 16 or 20 places drop none.
unfoldable pub io_address : PciAddress → (offset : ℕ) → ℕ
io_address addr offset =
    bit_or
      (bit_or (bit_or (bit_or 0x8000_0000 (addr.bus * 2 ^ 16)) (addr.device * 2 ^ 11))
        (addr.function * 2 ^ 8))
      (bit_and (offset % 2 ^ 32) 0xFC)

unfoldable pub mmio_address : PciAddress → (offset mcfg : ℕ) → Result ℕ
mmio_address addr offset mcfg = do
  bus ← add64 mcfg (addr.bus * 2 ^ 20)
  device ← add64 bus (addr.device * 2 ^ 15)
  function ← add64 device (addr.function * 2 ^ 12)
  add64 function offset

-- An access of `size` bytes: at an address, or through the ports 0xCF8, which takes the register, and
-- one of the four from 0xCFC on. A write carries its value.
pub data Access : Type 0 where
  memory_read : (size address : ℕ) → Access
  port_read : (size select port : ℕ) → Access
  memory_write : (size address value : ℕ) → Access
  port_write : (size select port value : ℕ) → Access

abbrev pub is_size : ℕ → Bool
is_size size = size == 1 || size == 2 || size == 4

-- `0xCFC + (offset as u16 & 3)`
abbrev pub port_of : ℕ → ℕ
port_of offset = 0xCFC + bit_and (offset % 2 ^ 16) 3

-- `mcfg` is the static `MCFG_ADDRESS`, and `size` the type's.
unfoldable pub pci_read : (mcfg size : ℕ) → PciAddress → (offset : ℕ) → Result Access
unfolding io_address mmio_address
pci_read mcfg size addr offset = do
  check (is_size size) Panic.unsupported_size
  if mcfg == 0
      then ok (Access.port_read size (io_address addr offset) (port_of offset))
      else do address ← mmio_address addr offset mcfg; ok (Access.memory_read size address)

unfoldable pub pci_write : (mcfg size : ℕ) → PciAddress → (offset value : ℕ) → Result Access
unfolding io_address mmio_address
pci_write mcfg size addr offset value = do
  check (is_size size) Panic.unsupported_size
  if mcfg == 0
      then ok (Access.port_write size (io_address addr offset) (port_of offset) value)
      else do address ← mmio_address addr offset mcfg; ok (Access.memory_write size address value)
