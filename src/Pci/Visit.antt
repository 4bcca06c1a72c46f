-- ===== src/Pci/Visit.antt =====
-- One turn of the loop of `enum_device` in kernel/src/pci.rs.
use mathlib.Core.List.{append_assoc}
use prometheos.Base.{
  ℕ, ◌+◌, ◌%◌, ◌^◌, ◌≤◌, ◌≡◌, refl, inl, inr, true, false, not, ◌&&◌, List, [], ◌∷◌, ◌++◌, ◌==◌,
  Bool-cases, arith, ok,
}
use prometheos.Base.Exec.{done}
use prometheos.Pci.Access.{PciAddress, Access}
use prometheos.Pci.Functions.{is_bridge, is_multifunction, vendor_of, info_of, secondary_bus}
use prometheos.Pci.Enumerate.{Scan, enum_function}
use prometheos.Pci.Listing.{IsAddress, register, is_there, info, secondary, node, read32-register}

module _ (mcfg : ℕ) (answer : Access → ℕ) (fits : mcfg + 2 ^ 28 ≤ 2 ^ 64) where
  vendor_of-register :
      (addr : PciAddress)
      → IsAddress addr
      → vendor_of mcfg answer addr ≡ ok (register mcfg answer addr 0x00 % 2 ^ 16)
  unfolding vendor_of
  vendor_of-register addr h = rw (read32-register mcfg answer fits addr h 0x00 (omega arith)) refl

  info_of-info :
      (addr : PciAddress) → IsAddress addr → info_of mcfg answer addr ≡ ok (info mcfg answer addr)
  unfolding info_of info
  info_of-info addr h =
      rw
        (
          read32-register mcfg answer fits addr h 0x08 (omega arith),
          read32-register mcfg answer fits addr h 0x0C (omega arith),
        )
        refl

  secondary_bus-secondary :
      (addr : PciAddress)
      → IsAddress addr
      → secondary_bus mcfg answer addr ≡ ok (secondary mcfg answer addr)
  unfolding secondary_bus secondary
  secondary_bus-secondary addr h =
      rw (read32-register mcfg answer fits addr h 0x18 (omega arith)) refl

  -- A function that is not there is passed over.
  pub enum_function-absent :
      (scan : ℕ → Scan (Unit {0})) (addr : PciAddress) (h : IsAddress addr)
      → is_there mcfg answer addr ≡ false
      → (funcs : List PciAddress)
      → enum_function mcfg answer scan addr funcs ≡ ok (done (not (addr.function == 0)), funcs)
  unfolding enum_function is_there
  enum_function-absent scan addr h e funcs =
      elim (Bool-cases (register mcfg answer addr 0x00 % 2 ^ 16 == 0xFFFF)) [
        | inl gone ↦ rw (vendor_of-register addr h, gone) refl
        | inr other ↦ absurd (cc)
      ]

  pub enum_function-there :
      (scan : ℕ → Scan (Unit {0})) (below : ℕ → List PciAddress) (addr : PciAddress)
      (h : IsAddress addr) (there : is_there mcfg answer addr ≡ true)
      (behind : is_bridge (info mcfg answer addr) ≡ true
        → (funcs : List PciAddress)
        → scan (secondary mcfg answer addr) funcs
          ≡ ok (done tt, funcs ++ below (secondary mcfg answer addr)))
      (funcs : List PciAddress)
      → enum_function mcfg answer scan addr funcs
        ≡ ok (
          done (not (addr.function == 0 && not (is_multifunction (info mcfg answer addr)))),
          funcs ++ node mcfg answer below addr,
        )
  unfolding enum_function is_there node
  enum_function-there scan below addr h there behind funcs =
      elim (Bool-cases (register mcfg answer addr 0x00 % 2 ^ 16 == 0xFFFF)) [
        | inl gone ↦ absurd (cc)
        | inr other ↦ elim (Bool-cases (is_bridge (info mcfg answer addr))) [
          | inl bridge ↦
              rw
                (
                  vendor_of-register addr h,
                  other,
                  info_of-info addr h,
                  bridge,
                  secondary_bus-secondary addr h,
                  behind bridge (funcs ++ (addr ∷ [])),
                  append_assoc funcs (addr ∷ []) (below (secondary mcfg answer addr)),
                )
                refl
          | inr plain ↦ rw (vendor_of-register addr h, other, info_of-info addr h, plain) refl
        ]
      ]
