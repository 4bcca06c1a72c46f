-- ===== src/Pci/Addresses.antt =====
-- Where the registers of kernel/src/pci.rs lie in memory.
use native.Mathlib.Nat.{div-add-mod', mod-lt}
use prometheos.Base.{
  ℕ, ◌+◌, ◌*◌, ◌%◌, ◌^◌, ◌≤◌, ◌<◌, ◌≡◌, refl, ◌∙◌, sym, inl, inr, Bool-cases, ◌==◌, arith, ok,
  add64-ok,
}
use prometheos.Pci.Access.{PciAddress, mmio_address}
use prometheos.Pci.Listing.{IsAddress}
use prometheos.Heap.Sizes.{div_ceil}

offset_of : (addr : PciAddress) (offset : ℕ) → ℕ
offset_of addr offset = addr.bus * 2 ^ 20 + addr.device * 2 ^ 15 + addr.function * 2 ^ 12 + offset

pub div_ceil-le : (n d : ℕ) → 0 < d → n ≤ div_ceil n d * d
div_ceil-le n d pos = elim (Bool-cases (n % d == 0)) [
  | inl whole ↦
      let exact : n % d ≡ 0 = ground arith in rw whole (omega (arith, div-add-mod' n d, exact))
  | inr part ↦ rw part (omega (arith, div-add-mod' n d, mod-lt n pos))
]

module _ (mcfg : ℕ) (fits : mcfg + 2 ^ 28 ≤ 2 ^ 64) where
  pub mmio_address-ok :
      (addr : PciAddress) (h : IsAddress addr) (offset : ℕ) (small : offset < 4096)
      → mmio_address addr offset mcfg
        ≡ ok (mcfg + addr.bus * 2 ^ 20 + addr.device * 2 ^ 15 + addr.function * 2 ^ 12 + offset)
  unfolding mmio_address
  mmio_address-ok addr h offset small =
      rw
        (
          add64-ok mcfg (addr.bus * 2 ^ 20) (omega (arith, h.bus)),
          add64-ok (mcfg + addr.bus * 2 ^ 20) (addr.device * 2 ^ 15)
              (omega (arith, h.bus, h.device)),
          add64-ok (mcfg + addr.bus * 2 ^ 20 + addr.device * 2 ^ 15) (addr.function * 2 ^ 12)
              (omega (arith, h.bus, h.device, h.function)),
          add64-ok (mcfg + addr.bus * 2 ^ 20 + addr.device * 2 ^ 15 + addr.function * 2 ^ 12) offset
              (omega (arith, h.bus, h.device, h.function)),
        )
        refl

  ok-inj : {a b : ℕ} → ok a ≡ ok b → a ≡ b
  ok-inj e = cc

  -- With all registers below 2^64, two registers of functions in range that have the same address are
  -- the same register of the same function.
  pub mmio_address-inj :
      (a b : PciAddress) (ha : IsAddress a) (hb : IsAddress b) (o o' : ℕ) (small : o < 4096)
      (small' : o' < 4096)
      → mmio_address a o mcfg ≡ mmio_address b o' mcfg
      → (a ≡ b) × (o ≡ o')
  mmio_address-inj a b ha hb o o' small small' e =
      let same : mcfg + a.bus * 2 ^ 20 + a.device * 2 ^ 15 + a.function * 2 ^ 12 + o
          ≡ mcfg + b.bus * 2 ^ 20 + b.device * 2 ^ 15 + b.function * 2 ^ 12 + o' =
        ok-inj (sym (mmio_address-ok a ha o small) ∙ e ∙ mmio_address-ok b hb o' small') in
      let bus : a.bus ≡ b.bus = omega (arith, ha.device, ha.function, hb.device, hb.function) in
      let device : a.device ≡ b.device = omega (arith, ha.function, hb.function) in
      let function : a.function ≡ b.function = omega arith in
      let offset : o ≡ o' = omega arith in
      ((λ i. record { bus = bus i; device = device i; function = function i }), offset)
