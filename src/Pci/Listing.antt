-- ===== src/Pci/Listing.antt =====
-- What `enum_bus` of kernel/src/pci.rs is to find, without its state and its early stops.
use prometheos.Base.{
  ℕ, zero, suc, ◌+◌, ◌*◌, ◌/◌, ◌%◌, ◌^◌, ◌≤◌, ◌<◌, ◌≡◌, refl, inl, inr, Bool, true, not, ◌&&◌, ◌||◌,
  List, [], ◌∷◌, ◌++◌, ◌==◌, if◌then◌else◌, Bool-cases, arith, ok, add64-ok,
}
use prometheos.Pci.Access.{PciAddress, Access, io_address, mmio_address, port_of, pci_read}
use prometheos.Pci.Functions.{Info, is_bridge, is_multifunction, read32}
use prometheos.Pci.Enumerate.{pci_address}

-- The lists of `left` numbers from one on, joined.
abbrev pub join_from : {A : Type 0} → (left first : ℕ) → (ℕ → List A) → List A
join_from zero first f = []
join_from (suc left) first f = f first ++ join_from left (first + 1) f

-- An address whose three numbers are in range.
pub record IsAddress (addr : PciAddress) : Type 0 where
  pub bus : addr.bus < 256
  pub device : addr.device < 32
  pub function : addr.function < 8

module _ (mcfg : ℕ) (answer : Access → ℕ) where
  -- The value of a register, and what is read of it.
  unfoldable pub register : PciAddress → (offset : ℕ) → ℕ
  unfolding io_address
  register addr offset =
      if mcfg == 0
      then answer (Access.port_read 4 (io_address addr offset) (port_of offset))
      else answer (
          Access.memory_read 4
            (mcfg + addr.bus * 2 ^ 20 + addr.device * 2 ^ 15 + addr.function * 2 ^ 12 + offset))

  unfoldable pub is_there : PciAddress → Bool
  unfolding register
  is_there addr = not (register addr 0x00 % 2 ^ 16 == 0xFFFF)

  unfoldable pub info : PciAddress → Info
  unfolding register
  info addr = record {
    class_code = register addr 0x08 / 2 ^ 24 % 256;
    subclass = register addr 0x08 / 2 ^ 16 % 256;
    header_byte = register addr 0x0C / 2 ^ 16 % 256;
  }

  unfoldable pub secondary : PciAddress → ℕ
  unfolding register
  secondary addr = register addr 0x18 / 2 ^ 8 % 256

  -- A function is found if it is there and, unless it is the first one, the first one is there and
  -- says that the device has several.
  unfoldable pub is_found : (bus device function : ℕ) → Bool
  unfolding is_there info is_multifunction
  is_found bus device function =
      let first = pci_address bus device 0 in
      is_there (pci_address bus device function)
      && (function == 0 || is_there first && is_multifunction (info first))

  module _ (below : ℕ → List PciAddress) where
    -- A function, and what is behind it.
    unfoldable pub node : PciAddress → List PciAddress
    unfolding info is_bridge secondary
    node addr = addr ∷ (if is_bridge (info addr) then below (secondary addr) else [])

    unfoldable pub found : (bus device function : ℕ) → List PciAddress
    unfolding is_found node
    found bus device function =
        if is_found bus device function then node (pci_address bus device function) else []

  -- The functions of a bus, with those behind its bridges, down to a depth.
  unfoldable pub listing : (depth bus : ℕ) → List PciAddress
  unfolding found
  listing zero bus = []
  listing (suc depth) bus =
      join_from 32 0 (λ device. join_from 8 0 (found (listing depth) bus device))

  -- Every bridge that is there leads to a bus after its own.
  unfoldable pub IsRising : Type 0
  IsRising =
      (addr : PciAddress)
      → IsAddress addr
      → is_there addr ≡ true
      → is_bridge (info addr) ≡ true
      → addr.bus < secondary addr

  module _ (fits : mcfg + 2 ^ 28 ≤ 2 ^ 64) where
    pub read32-register :
        (addr : PciAddress)
        → IsAddress addr
        → (offset : ℕ) → offset < 4096
        → read32 mcfg answer addr offset ≡ ok (register addr offset)
    unfolding read32 pci_read mmio_address register
    read32-register addr h offset small = elim (Bool-cases (mcfg == 0)) [
      | inl e ↦ rw e refl
      | inr e ↦
          rw
            (
              e,
              add64-ok mcfg (addr.bus * 2 ^ 20) (omega (arith, h.bus)),
              add64-ok (mcfg + addr.bus * 2 ^ 20) (addr.device * 2 ^ 15)
                  (omega (arith, h.bus, h.device)),
              add64-ok (mcfg + addr.bus * 2 ^ 20 + addr.device * 2 ^ 15) (addr.function * 2 ^ 12)
                  (omega (arith, h.bus, h.device, h.function)),
              add64-ok (mcfg + addr.bus * 2 ^ 20 + addr.device * 2 ^ 15 + addr.function * 2 ^ 12)
                  offset (omega (arith, h.bus, h.device, h.function)),
            )
            refl
    ]
