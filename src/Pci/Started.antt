-- ===== src/Pci/Started.antt =====
-- What `init` of kernel/src/pci.rs does, with and without its errors.
use prometheos.Base.{
  ℕ, ◌+◌, ◌-◌, ◌*◌, ◌^◌, ◌≤◌, ◌<◌, ◌≡◌, refl, arith, [], Result, ok, panic, ◌∙◌, add64-ok, sub64-ok,
}
use prometheos.Base.Exec.{Outcome, done, fail}
use prometheos.Vmm.Paging.{Paging, large, bytes}
use prometheos.Vmm.Machine.{Machine}
use prometheos.Vmm.Map.{MapError}
use prometheos.Vmm.Range.{map_range_static}
use prometheos.Heap.Sizes.{div_ceil}
use prometheos.Pci.Access.{Access}
use prometheos.Pci.Listing.{listing, IsRising}
use prometheos.Pci.Addresses.{div_ceil-le}
use prometheos.Pci.Confined.{IsAlike, IsConfined, listing-alike}
use prometheos.Pci.Found.{enum_bus_lem}
use prometheos.Pci.Init.{
  McfgEntry, PciError, could_not_map, PciState, Started, register_flags, map_registers, enum_all,
  init,
}

-- Where the registers are mapped, and in how many pages.
abbrev pub virt_of : McfgEntry → PciState → ℕ
virt_of entry s = entry.phys + s.machine.hhdm

abbrev pub pages_of : Paging → McfgEntry → ℕ
pages_of x entry = div_ceil ((entry.end_bus - entry.start_bus + 1) * 2 ^ 20) (bytes x large)

-- What `init` returns and leaves, by what the mapping of the registers did.
abbrev pub started :
    Paging
    → (seen : Access → ℕ) → {Message : Type 0} → PciState
    → McfgEntry
    → Result (Outcome MapError (Unit {0}) × Machine)
    → Result (Started Message)
started x seen s entry (ok (done _, m)) = ok (
  done (listing (virt_of entry s) seen 256 entry.start_bus),
  record { machine = m; mcfg_address = virt_of entry s },
)
started x seen s entry (ok (fail e, m)) = ok (fail (could_not_map e), record s { machine = m })
started x seen s entry (panic why) = panic why

-- The mapping that `init` asks for.
abbrev pub mapping : Paging → PciState → McfgEntry → Result (Outcome MapError (Unit {0}) × Machine)
mapping x s entry =
    map_range_static x (virt_of entry s) entry.phys (pages_of x entry) (register_flags x) large
      s.machine

module _ (x : Paging) (answer : Access → ℕ) {Message : Type 0} (s : PciState) (entry : McfgEntry)
    (order : entry.start_bus ≤ entry.end_bus) (small : entry.end_bus < 256)
    (fits : virt_of entry s + 2 ^ 28 ≤ 2 ^ 64) (rising : IsRising (virt_of entry s) answer) where
  abbrev outcome :
      Result (Outcome MapError (Unit {0}) × Machine)
      → Result (Outcome (PciError Message) (Unit {0}) × PciState)
  outcome (ok (done _, m)) = ok (done tt, record s { machine = m })
  outcome (ok (fail e, m)) = ok (fail (could_not_map e), record s { machine = m })
  outcome (panic why) = panic why

  map_registers_lem :
      (r : Result (Outcome MapError (Unit {0}) × Machine))
      → mapping x s entry ≡ r
      → map_registers x answer {Message = Message}
          (done entry)
          (virt_of entry s)
          entry.phys
          (pages_of x entry)
          s
        ≡ outcome r
  unfolding map_registers
  map_registers_lem (ok (done _, m)) maps = rw (map_registers, maps) refl
  map_registers_lem (ok (fail e, m)) maps = rw (map_registers, maps) refl
  map_registers_lem (panic why) maps = rw (map_registers, maps) refl

  enum_all_lem :
      (m : Machine)
      → enum_all x answer {Message = Message}
          (done entry)
          entry.start_bus
          (record { machine = m; mcfg_address = virt_of entry s })
        ≡ ok (
          done (listing (virt_of entry s) answer 256 entry.start_bus),
          record { machine = m; mcfg_address = virt_of entry s },
        )
  unfolding enum_all
  enum_all_lem m =
      rw
        (
          enum_all,
          enum_bus_lem (virt_of entry s) answer fits rising 256 entry.start_bus
              (omega (arith, order, small)) (omega arith) [],
        )
        refl

  init-started :
      (r : Result (Outcome MapError (Unit {0}) × Machine))
      → mapping x s entry ≡ r
      → init x answer {Message = Message} (done entry) s ≡ started x answer s entry r
  unfolding init
  init-started (ok (done _, m)) maps =
      rw
        (
          sub64-ok entry.end_bus entry.start_bus order,
          add64-ok (entry.end_bus - entry.start_bus) 1 (omega (arith, small)),
          add64-ok entry.phys s.machine.hhdm (omega (arith, fits)),
          map_registers_lem (ok (done tt, m)) maps,
          enum_all_lem m,
        )
        refl
  init-started (ok (fail e, m)) maps =
      rw
        (
          sub64-ok entry.end_bus entry.start_bus order,
          add64-ok (entry.end_bus - entry.start_bus) 1 (omega (arith, small)),
          add64-ok entry.phys s.machine.hhdm (omega (arith, fits)),
          map_registers_lem (ok (fail e, m)) maps,
        )
        refl
  init-started (panic why) maps =
      rw
        (
          sub64-ok entry.end_bus entry.start_bus order,
          add64-ok (entry.end_bus - entry.start_bus) 1 (omega (arith, small)),
          add64-ok entry.phys s.machine.hhdm (omega (arith, fits)),
          map_registers_lem (panic why) maps,
        )
        refl

started-seen :
    (x : Paging) (answer seen : Access → ℕ) {Message : Type 0} (s : PciState) (entry : McfgEntry)
    → listing (virt_of entry s) answer 256 entry.start_bus
      ≡ listing (virt_of entry s) seen 256 entry.start_bus
    → (r : Result (Outcome MapError (Unit {0}) × Machine))
    → started x answer {Message = Message} s entry r ≡ started x seen s entry r
started-seen x answer seen s entry same (ok (done _, m)) = rw same refl
started-seen x answer seen s entry same (ok (fail e, m)) = refl
started-seen x answer seen s entry same (panic why) = refl

-- `init` with the table found, whose buses are those from 0 to a last one below 256, whose registers
-- lie below 2^64, on hardware whose bridges that are there lead to buses after their own, and those up
-- to the last bus to buses up to it. It asks for pages at the registers' address. If mapping them
-- panics, so does `init`, and if it fails, `init` returns that error and leaves the static. If they
-- are mapped, `init` leaves the address in the static and returns the listing of bus 0, which no
-- register outside those pages has a part in: it is the one of any answers `seen` that are the
-- hardware's on all accesses within the pages.
pub init_lem :
    (x : Paging) (pos : 0 < bytes x large) (answer seen : Access → ℕ) {Message : Type 0}
    (s : PciState) (entry : McfgEntry) (first : entry.start_bus ≡ 0) (small : entry.end_bus < 256)
    (fits : virt_of entry s + 2 ^ 28 ≤ 2 ^ 64) (rising : IsRising (virt_of entry s) answer)
    (alike : IsAlike (virt_of entry s) (pages_of x entry * bytes x large) answer seen)
    (confined : IsConfined (virt_of entry s) seen entry.end_bus)
    → init x answer {Message = Message} (done entry) s ≡ started x seen s entry (mapping x s entry)
init_lem x pos answer seen s entry first small fits rising alike confined =
    let enough : (entry.end_bus + 1) * 2 ^ 20 ≤ pages_of x entry * bytes x large =
      let n = (entry.end_bus - entry.start_bus + 1) * 2 ^ 20 in
      omega (arith, first, div_ceil-le n (bytes x large) pos) in
    init-started x answer s entry (omega (arith, first)) small fits rising (mapping x s entry) refl
    ∙ started-seen x answer seen s entry
        (listing-alike (virt_of entry s) answer seen entry.end_bus
          (pages_of x entry * bytes x large) small enough alike confined 256 entry.start_bus
          (omega (arith, first)))
        (mapping x s entry)
