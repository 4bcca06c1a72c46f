-- ===== src/Pci/Confined.antt =====
-- Which registers the listing of kernel/src/pci.rs depends on.
use prometheos.Base.{
  ℕ, zero, suc, ◌+◌, ◌*◌, ◌^◌, ◌≤◌, ◌<◌, ◌≡◌, refl, ap, arith, inl, inr, Bool, true, false, ◌||◌,
  List, ◌==◌, ltb, Bool-cases,
}
use prometheos.Pci.Access.{PciAddress, Access}
use prometheos.Pci.Functions.{is_bridge, is_multifunction}
use prometheos.Pci.Enumerate.{pci_address}
use prometheos.Pci.Listing.{
  IsAddress, join_from, register, is_there, info, secondary, is_found, node, found, listing,
}

-- Whether an access reads memory that is not within `bytes` bytes from an address on.
abbrev pub is_outside : (start bytes : ℕ) → Access → Bool
is_outside start bytes (Access.memory_read size a) = ltb a start || ltb (start + bytes) (a + size)
is_outside start bytes _ = false

-- Two ways to answer that differ on such accesses at most.
abbrev pub IsAlike : (start bytes : ℕ) → (answer seen : Access → ℕ) → Type 0
IsAlike start bytes answer seen =
    (a : Access) → is_outside start bytes a ≡ false → answer a ≡ seen a

-- The bridges that are there, on the buses up to the last one, lead to buses up to it.
abbrev pub IsConfined : (mcfg : ℕ) → (answer : Access → ℕ) → (end_bus : ℕ) → Type 0
IsConfined mcfg answer end_bus =
    (addr : PciAddress)
    → IsAddress addr
    → addr.bus ≤ end_bus
    → is_there mcfg answer addr ≡ true
    → is_bridge (info mcfg answer addr) ≡ true
    → secondary mcfg answer addr ≤ end_bus

join_from-ext :
    {A : Type 0} (left first : ℕ) (f g : ℕ → List A)
    → ((i : ℕ) → i < first + left → f i ≡ g i)
    → join_from left first f ≡ join_from left first g
join_from-ext zero first f g same = refl
join_from-ext (suc left) first f g same =
    rw (same first (omega arith), join_from-ext left (first + 1) f g (λ i h. same i (omega arith)))
      refl

module _ (mcfg : ℕ) (answer seen : Access → ℕ) (end_bus bytes : ℕ) (small : end_bus < 256)
    (enough : (end_bus + 1) * 2 ^ 20 ≤ bytes) (alike : IsAlike mcfg bytes answer seen)
    (confined : IsConfined mcfg seen end_bus) where
  module _ (addr : PciAddress) (h : IsAddress addr) (low : addr.bus ≤ end_bus) where
    register-alike :
        (offset : ℕ)
        → offset + 4 ≤ 4096
        → register mcfg answer addr offset ≡ register mcfg seen addr offset
    unfolding register
    register-alike offset in_space = elim (Bool-cases (mcfg == 0)) [
      | inl e ↦ rw (e, alike _ refl) refl
      | inr e ↦
          let a =
            mcfg + addr.bus * 2 ^ 20 + addr.device * 2 ^ 15 + addr.function * 2 ^ 12 + offset in
          let inside : is_outside mcfg bytes (Access.memory_read 4 a) ≡ false =
            let d = h.device in let f = h.function in ground arith in
          rw (e, alike (Access.memory_read 4 a) inside) refl
    ]

    is_there-alike : is_there mcfg answer addr ≡ is_there mcfg seen addr
    unfolding is_there
    is_there-alike = rw (register-alike 0 (omega arith)) refl

    info-alike : info mcfg answer addr ≡ info mcfg seen addr
    unfolding info
    info-alike = rw (register-alike 8 (omega arith), register-alike 12 (omega arith)) refl

    secondary-alike : secondary mcfg answer addr ≡ secondary mcfg seen addr
    unfolding secondary
    secondary-alike = rw (register-alike 0x18 (omega arith)) refl

    node-alike :
        (below below' : ℕ → List PciAddress)
        → ((bus : ℕ) → bus ≤ end_bus → below bus ≡ below' bus)
        → is_there mcfg seen addr ≡ true
        → node mcfg answer below addr ≡ node mcfg seen below' addr
    unfolding node
    node-alike below below' same there =
        let bridges = ap is_bridge info-alike in
        elim (Bool-cases (is_bridge (info mcfg seen addr))) [
          | inl bridge ↦
              rw
                (
                  node,
                  bridges,
                  bridge,
                  secondary-alike,
                  same (secondary mcfg seen addr) (confined addr h low there bridge),
                )
                refl
          | inr other ↦ rw (node, bridges, other) refl
        ]

  module _ (below below' : ℕ → List PciAddress)
      (same : (bus : ℕ) → bus ≤ end_bus → below bus ≡ below' bus) (bus device function : ℕ)
      (low : bus ≤ end_bus) (h : device < 32) (h' : function < 8) where
    address : (f : ℕ) → f < 8 → IsAddress (pci_address bus device f)
    address f in_device = record {
      bus = omega (arith, low, small);
      device = h;
      function = in_device;
    }

    is_found-alike :
        is_found mcfg answer bus device function ≡ is_found mcfg seen bus device function
    unfolding is_found
    is_found-alike =
        let first = pci_address bus device 0 in
        rw
          (
            is_there-alike (pci_address bus device function) (address function h') low,
            is_there-alike first (address 0 (omega arith)) low,
            ap is_multifunction (info-alike first (address 0 (omega arith)) low),
          )
          refl

    found-there :
        is_found mcfg seen bus device function ≡ true
        → is_there mcfg seen (pci_address bus device function) ≡ true
    unfolding is_found
    found-there h = ground arith

    found-alike :
        found mcfg answer below bus device function ≡ found mcfg seen below' bus device function
    unfolding found
    found-alike = elim (Bool-cases (is_found mcfg seen bus device function)) [
      | inl there ↦
          rw
            (
              is_found-alike,
              there,
              node-alike (pci_address bus device function) (address function h') low below below'
                  same (found-there there),
            )
            refl
      | inr missing ↦ rw (is_found-alike, missing) refl
    ]

  pub listing-alike :
      (depth bus : ℕ) → bus ≤ end_bus → listing mcfg answer depth bus ≡ listing mcfg seen depth bus
  unfolding listing
  listing-alike zero bus low = refl
  listing-alike (suc depth) bus low = join_from-ext 32 0 _ _ (λ device h.
      join_from-ext 8 0 _ _ (λ function h'.
        found-alike (listing mcfg answer depth) (listing mcfg seen depth) (listing-alike depth) bus
          device function low h h'))
