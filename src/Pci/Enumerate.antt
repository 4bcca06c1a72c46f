-- ===== src/Pci/Enumerate.antt =====
-- `enum_device` and `enum_bus` of kernel/src/pci.rs.
use prometheos.Base.{
  ℕ, zero, suc, ◌+◌, Bool, not, ◌&&◌, List, [], ◌∷◌, ◌++◌, ◌==◌, if◌then◌else◌, ok,
}
use prometheos.Base.Exec.{Exec, ◌>>=◌, ◌>>◌, done, pure, raise, lift, when}
use prometheos.Pci.Access.{PciAddress, Access}
use prometheos.Pci.Functions.{is_bridge, is_multifunction, vendor_of, info_of, secondary_bus}

-- What stops the model where the code's recursion would go on.
pub data Cut : Type 0 where
  too_deep : Cut

-- The state is the vector of functions found so far.
abbrev pub Scan : Type 0 → Type 0
Scan = Exec (List PciAddress) Cut

abbrev pub push : PciAddress → Scan (Unit {0})
push addr funcs = ok (done tt, funcs ++ (addr ∷ []))

abbrev pub pci_address : (bus device function : ℕ) → PciAddress
pci_address b d f = record { bus = b; device = d; function = f }

-- `answer` is the hardware: the value of a read.
module _ (mcfg : ℕ) (answer : Access → ℕ) where
  module _ (scan : ℕ → Scan (Unit {0})) where
    -- One turn of the loop over functions, and whether the loop goes on. `scan` is `enum_bus`.
    unfoldable pub enum_function : PciAddress → Scan Bool
    unfolding vendor_of info_of is_bridge is_multifunction secondary_bus
    enum_function addr = do
      vendor_id ← lift (vendor_of mcfg answer addr)
      if vendor_id == 0xFFFF then pure (not (addr.function == 0)) else do
        info ← lift (info_of mcfg answer addr)
        push addr
        when (is_bridge info) (do bus ← lift (secondary_bus mcfg answer addr); scan bus)
        pure (not (addr.function == 0 && not (is_multifunction info)))

    -- The loop of `enum_device`: `left` functions are left, from `function` on.
    unfoldable pub enum_functions : (bus device left function : ℕ) → Scan (Unit {0})
    unfolding enum_function
    enum_functions bus device zero function = pure tt
    enum_functions bus device (suc left) function = do
      more ← enum_function (pci_address bus device function)
      when more (enum_functions bus device left (function + 1))

    unfoldable pub enum_device : (bus device : ℕ) → Scan (Unit {0})
    unfolding enum_functions
    enum_device bus device = enum_functions bus device 8 0

    -- The loop of `enum_bus`: `left` devices are left, from `device` on.
    unfoldable pub enum_devices : (bus left device : ℕ) → Scan (Unit {0})
    unfolding enum_device
    enum_devices bus zero device = pure tt
    enum_devices bus (suc left) device = do
      enum_device bus device
      enum_devices bus left (device + 1)

  -- The fuel bounds the depth of the buses.
  unfoldable pub enum_bus : (fuel bus : ℕ) → Scan (Unit {0})
  unfolding enum_devices
  enum_bus zero bus = raise too_deep
  enum_bus (suc fuel) bus = enum_devices (enum_bus fuel) bus 32 0
