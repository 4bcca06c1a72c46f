-- ===== src/Pci/Functions.antt =====
-- What `enum_device` of kernel/src/pci.rs reads of a function's configuration space.
use prometheos.Base.{ℕ, ◌/◌, ◌%◌, ◌^◌, bit_and, Bool, not, ◌&&◌, ◌||◌, ◌==◌, Result, ok, ◌>>=◌}
use prometheos.Pci.Access.{PciAddress, Access, pci_read}

pub record Info : Type 0 where
  pub class_code : ℕ
  pub subclass : ℕ
  pub header_byte : ℕ

-- `class_code == 0x06 && matches!(subclass, 0x04 | 0x09) && header_type == 1`
unfoldable pub is_bridge : Info → Bool
is_bridge info =
    info.class_code == 0x06
    && (info.subclass == 0x04 || info.subclass == 0x09)
    && bit_and info.header_byte 0x7F == 1

unfoldable pub is_multifunction : Info → Bool
is_multifunction info = not (bit_and info.header_byte 0x80 == 0)

-- `answer` is the hardware: the value of a read.
module _ (mcfg : ℕ) (answer : Access → ℕ) where
  -- `pci_read::<u32>`
  unfoldable pub read32 : PciAddress → (offset : ℕ) → Result ℕ
  unfolding pci_read
  read32 addr offset = do access ← pci_read mcfg 4 addr offset; ok (answer access)

  unfoldable pub vendor_of : PciAddress → Result ℕ
  unfolding read32
  vendor_of addr = do value ← read32 addr 0x00; ok (value % 2 ^ 16)

  unfoldable pub info_of : PciAddress → Result Info
  unfolding read32
  info_of addr = do
    class_info ← read32 addr 0x08
    header_reg ← read32 addr 0x0C
    ok (record {
      class_code = class_info / 2 ^ 24 % 256;
      subclass = class_info / 2 ^ 16 % 256;
      header_byte = header_reg / 2 ^ 16 % 256;
    })

  -- `(pci_read::<u32>(pciaddr, 0x18) >> 8) as u8`
  unfoldable pub secondary_bus : PciAddress → Result ℕ
  unfolding read32
  secondary_bus addr = do value ← read32 addr 0x18; ok (value / 2 ^ 8 % 256)
