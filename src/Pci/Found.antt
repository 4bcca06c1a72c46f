-- ===== src/Pci/Found.antt =====
-- `enum_bus` of kernel/src/pci.rs ends, and finds what it is to find.
use mathlib.Core.List.{append_assoc, append-nil}
use prometheos.Base.{
  ℕ, zero, suc, ◌+◌, ◌^◌, ◌≤◌, ◌<◌, ◌≡◌, refl, ap, ◌∙◌, inl, inr, Bool, true, false, not, ◌&&◌,
  List, [], ◌++◌, ◌==◌, Bool-cases, arith, ok, ne→==,
}
use prometheos.Base.Exec.{done}
use prometheos.Pci.Access.{PciAddress, Access}
use prometheos.Pci.Functions.{is_bridge, is_multifunction}
use prometheos.Pci.Enumerate.{
  Scan, pci_address, enum_function, enum_functions, enum_device, enum_devices, enum_bus,
}
use prometheos.Pci.Listing.{
  join_from, IsAddress, is_there, info, secondary, is_found, node, found, listing, IsRising,
}
use prometheos.Pci.Visit.{enum_function-absent, enum_function-there}

after : (n : ℕ) → (n + 1 == 0) ≡ false
after n = ne→== (n + 1) 0 (omega arith)

module _ (mcfg : ℕ) (answer : Access → ℕ) (fits : mcfg + 2 ^ 28 ≤ 2 ^ 64) where
  -- What is asked of a bus: behind its bridges, the search finds what it is to find.
  IsSearched : (scan : ℕ → Scan (Unit {0})) (below : ℕ → List PciAddress) (bus : ℕ) → Type 0
  IsSearched scan below bus =
      (addr : PciAddress)
      → IsAddress addr
      → addr.bus ≡ bus
      → is_there mcfg answer addr ≡ true
      → is_bridge (info mcfg answer addr) ≡ true
      → (funcs : List PciAddress)
      → scan (secondary mcfg answer addr) funcs
        ≡ ok (done tt, funcs ++ below (secondary mcfg answer addr))

  module _ (scan : ℕ → Scan (Unit {0})) (below : ℕ → List PciAddress) (bus : ℕ) (small : bus < 256)
      (behind : IsSearched scan below bus) where
    module _ (device : ℕ) (small_device : device < 32) where
      abbrev several : Bool
      several =
          is_there mcfg answer (pci_address bus device 0)
          && is_multifunction (info mcfg answer (pci_address bus device 0))

      several_lem :
          {there more : Bool}
          → is_there mcfg answer (pci_address bus device 0) ≡ there
          → is_multifunction (info mcfg answer (pci_address bus device 0)) ≡ more
          → several ≡ (there && more)
      several_lem h k = rw (h, k) refl

      at : (function : ℕ) → function < 8 → IsAddress (pci_address bus device function)
      at function h = record { bus = small; device = small_device; function = h }

      visit :
          (function : ℕ)
          → function < 8
          → is_there mcfg answer (pci_address bus device function) ≡ true
          → (funcs : List PciAddress)
          → enum_function mcfg answer scan (pci_address bus device function) funcs
            ≡ ok (
              done (
                  not (
                    function == 0
                    && not
                        (is_multifunction (info mcfg answer (pci_address bus device function))))),
              funcs ++ node mcfg answer below (pci_address bus device function),
            )
      unfolding IsSearched
      visit function h there funcs =
          enum_function-there mcfg answer fits scan below (pci_address bus device function)
            (at function h) there
            (behind (pci_address bus device function) (at function h) refl there) funcs

      -- The functions after the first one, of a device with several.
      later_functions :
          several ≡ true
          → (left function : ℕ) → function + 1 + left ≤ 8
          → (funcs : List PciAddress)
          → enum_functions mcfg answer scan bus device left (function + 1) funcs
            ≡ ok (
              done tt,
              funcs ++ join_from left (function + 1) (found mcfg answer below bus device),
            )
      unfolding enum_functions found is_found
      later_functions e zero function h funcs = rw (append-nil funcs) refl
      later_functions e (suc left) function h funcs =
          elim (Bool-cases (is_there mcfg answer (pci_address bus device (function + 1)))) [
            | inl there ↦
                rw
                  (
                    visit (function + 1) (omega (arith, h)) there funcs,
                    there,
                    e,
                    after function,
                    later_functions e left (function + 1) (omega (arith, h))
                        (funcs ++ node mcfg answer below (pci_address bus device (function + 1))),
                    append_assoc funcs
                        (node mcfg answer below (pci_address bus device (function + 1)))
                        (join_from left (function + 1 + 1) (found mcfg answer below bus device)),
                  )
                  refl
            | inr gone ↦
                rw
                  (
                    enum_function-absent mcfg answer fits scan
                        (pci_address bus device (function + 1))
                        (at (function + 1) (omega (arith, h))) gone funcs,
                    gone,
                    after function,
                  )
                  (later_functions e left (function + 1) (omega (arith, h)) funcs)
          ]

      no_functions :
          several ≡ false
          → (left function : ℕ)
          → join_from left (function + 1) (found mcfg answer below bus device) ≡ []
      unfolding found is_found
      no_functions e zero function = refl
      no_functions e (suc left) function =
          elim (Bool-cases (is_there mcfg answer (pci_address bus device (function + 1)))) [
            | inl there ↦ rw (there, e, after function, no_functions e left (function + 1)) refl
            | inr gone ↦ rw (gone, no_functions e left (function + 1)) refl
          ]

      first_function :
          (left : ℕ)
          → left < 8
          → (funcs : List PciAddress)
          → enum_functions mcfg answer scan bus device (suc left) 0 funcs
            ≡ ok (done tt, funcs ++ join_from (suc left) 0 (found mcfg answer below bus device))
      unfolding enum_functions found is_found
      first_function left h funcs =
          elim (Bool-cases (is_there mcfg answer (pci_address bus device 0))) [
            | inr gone ↦
                rw
                  (
                    enum_function-absent mcfg answer fits scan (pci_address bus device 0)
                        (at 0 (omega arith)) gone funcs,
                    gone,
                    no_functions (several_lem gone refl) left 0,
                    append-nil funcs,
                  )
                  refl
            | inl there ↦
                let first = node mcfg answer below (pci_address bus device 0) in
                let rest = join_from left 1 (found mcfg answer below bus device) in
                elim (Bool-cases (is_multifunction (info mcfg answer (pci_address bus device 0)))) [
                  | inl more ↦
                      rw
                        (
                          visit 0 (omega arith) there funcs,
                          there,
                          more,
                          later_functions (several_lem there more) left 0 (omega (arith, h))
                              (funcs ++ first),
                          append_assoc funcs first rest,
                        )
                        refl
                  | inr alone ↦
                      rw
                        (
                          visit 0 (omega arith) there funcs,
                          there,
                          alone,
                          no_functions (several_lem there alone) left 0,
                          append-nil first,
                        )
                        refl
                ]
          ]

      enum_device_lem :
          (funcs : List PciAddress)
          → enum_device mcfg answer scan bus device funcs
            ≡ ok (done tt, funcs ++ join_from 8 0 (found mcfg answer below bus device))
      unfolding enum_device
      enum_device_lem funcs = first_function 7 (omega arith) funcs

    enum_devices_lem :
        (left device : ℕ)
        → device + left ≤ 32
        → (funcs : List PciAddress)
        → enum_devices mcfg answer scan bus left device funcs
          ≡ ok (
            done tt,
            funcs
                ++ join_from left device
                    (λ device. join_from 8 0 (found mcfg answer below bus device)),
          )
    unfolding enum_devices
    enum_devices_lem zero device h funcs = rw (append-nil funcs) refl
    enum_devices_lem (suc left) device h funcs =
        let here = join_from 8 0 (found mcfg answer below bus device) in
        rw (enum_device_lem device (omega (arith, h)) funcs) (
          enum_devices_lem left (device + 1) (omega (arith, h)) (funcs ++ here)
          ∙ ap (λ t. ok (done tt, t))
              (append_assoc funcs here (
                join_from left (device + 1)
                  (λ device. join_from 8 0 (found mcfg answer below bus device)))))

  secondary-lt : (addr : PciAddress) → secondary mcfg answer addr < 256
  unfolding secondary
  secondary-lt addr = omega arith

  -- When every bridge that is there leads to a bus after its own, and all registers are below 2^64,
  -- `enum_bus` of a bus ends, with fuel for as many buses as follow it and for itself, and adds its
  -- listing to the vector: each function that is there, unless it is a later one of a device whose
  -- first one is missing or says that it is the only one, and behind a bridge the functions of its bus.
  pub enum_bus_lem :
      (rising : IsRising mcfg answer) (fuel bus : ℕ) (small : bus < 256) (enough : 256 ≤ bus + fuel)
      (funcs : List PciAddress)
      → enum_bus mcfg answer fuel bus funcs ≡ ok (done tt, funcs ++ listing mcfg answer fuel bus)
  unfolding enum_bus listing IsSearched IsRising
  enum_bus_lem rising zero bus small enough funcs = absurd (omega arith)
  enum_bus_lem rising (suc fuel) bus small enough funcs =
      enum_devices_lem (enum_bus mcfg answer fuel) (listing mcfg answer fuel) bus small
        (λ addr h at_bus there bridge so_far.
          enum_bus_lem rising fuel (secondary mcfg answer addr) (secondary-lt addr)
            (omega (arith, enough, at_bus, rising addr h there bridge)) so_far)
        32 0 (omega arith) funcs
