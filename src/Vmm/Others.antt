-- ===== src/Vmm/Others.antt =====
-- What `unmap` of kernel/src/mm/vmm.rs leaves of the other pages.
use prometheos.Base.{
  ℕ, ◌%◌, ◌≡◌, ◌≢◌, refl, sym, ◌∙◌, ap, arith, Bool, true, false, ◌&&◌, Option, ◌⊎◌, inl, inr, ok,
  add64, ◌-◌, bit_and, ◌==◌,
}
use prometheos.Base.Exec.{done}
use prometheos.Pmm.{Pmm}
use prometheos.Vmm.Paging.{Paging, Level, pml4, pdpt, pd, pt, base}
use prometheos.Vmm.Machine.{Machine, is_canonical}
use prometheos.Vmm.Unmap.{unmap}
use prometheos.Vmm.Translate.{in_page, translate}
use prometheos.Vmm.Tables.{IsPaging, IsTables, depth}
use prometheos.Vmm.Enter.{table_mut-ok}
use prometheos.Vmm.Reclaimed.{Settled}
use prometheos.Vmm.Unmapping.{IsWalk, Unmapped, is_pdpt, is_pd, is_pt, apart, unmap_steps}
use prometheos.Vmm.Unmapped.{point_at}
use prometheos.Vmm.Linked.{IsBits, walked, in_page-other, linked_below}

module _ (x : Paging) (paging : IsPaging x) (bits : IsBits x) (tables : Level → ℕ → Bool) (p : Pmm)
    (m : Machine) (is : IsTables x tables p m) (top_level virt c3 c2 c1 : ℕ)
    (here : tables pml4 top_level ≡ true) (walk : IsWalk x m top_level virt c3 c2 c1)
    (virt' d3 d2 d1 : ℕ) (walk' : IsWalk x m top_level virt' d3 d2 d1)
    (other : (d1 == c1 && x.index pt virt' == x.index pt virt) ≡ false) (s : Machine)
    (so : Unmapped x paging tables p m is top_level virt c3 c2 c1 here walk s)
    (settled1 : Settled x m so.pmm s c2 (x.index pd virt) c1)
    (settled2 : Settled x m so.pmm s c3 (x.index pdpt virt) c2)
    (settled3 : Settled x m so.pmm s top_level (x.index pml4 virt) c3) where
  -- The tables of the two walks that stand on different levels are different.
  record Levels : Type 0 where
    pub t1 : top_level ≢ d1
    pub t2 : top_level ≢ d2
    pub t3 : top_level ≢ d3
    pub d1c2 : d1 ≢ c2
    pub d1c3 : d1 ≢ c3
    pub d2c1 : d2 ≢ c1
    pub d2c3 : d2 ≢ c3
    pub d3c1 : d3 ≢ c1
    pub d3c2 : d3 ≢ c2
    pub tc1 : top_level ≢ c1
    pub tc2 : top_level ≢ c2
    pub tc3 : top_level ≢ c3

  c_pdpt : tables pdpt c3 ≡ true
  c_pdpt = is_pdpt x paging tables p m is top_level virt c3 c2 c1 here walk

  c_pd : tables pd c2 ≡ true
  c_pd = is_pd x paging tables p m is top_level virt c3 c2 c1 here walk

  c_pt : tables pt c1 ≡ true
  c_pt = is_pt x paging tables p m is top_level virt c3 c2 c1 here walk

  d_pdpt : tables pdpt d3 ≡ true
  d_pdpt = is_pdpt x paging tables p m is top_level virt' d3 d2 d1 here walk'

  d_pd : tables pd d2 ≡ true
  d_pd = is_pd x paging tables p m is top_level virt' d3 d2 d1 here walk'

  d_pt : tables pt d1 ≡ true
  d_pt = is_pt x paging tables p m is top_level virt' d3 d2 d1 here walk'

  ne :
      (l l' : Level) (a b : ℕ) → tables l a ≡ true → tables l' b ≡ true → depth l ≢ depth l' → a ≢ b
  ne = apart x paging tables p m is top_level virt c3 c2 c1 here walk

  levels : Levels
  levels = record {
    t1 = ne pml4 pt top_level d1 here d_pt (omega arith);
    t2 = ne pml4 pd top_level d2 here d_pd (omega arith);
    t3 = ne pml4 pdpt top_level d3 here d_pdpt (omega arith);
    d1c2 = ne pt pd d1 c2 d_pt c_pd (omega arith);
    d1c3 = ne pt pdpt d1 c3 d_pt c_pdpt (omega arith);
    d2c1 = ne pd pt d2 c1 d_pd c_pt (omega arith);
    d2c3 = ne pd pdpt d2 c3 d_pd c_pdpt (omega arith);
    d3c1 = ne pdpt pt d3 c1 d_pdpt c_pt (omega arith);
    d3c2 = ne pdpt pd d3 c2 d_pdpt c_pd (omega arith);
    tc1 = ne pml4 pt top_level c1 here c_pt (omega arith);
    tc2 = ne pml4 pd top_level c2 here c_pd (omega arith);
    tc3 = ne pml4 pdpt top_level c3 here c_pdpt (omega arith);
  }

  kept_pt : s.table d1 (x.index pt virt') ≡ m.table d1 (x.index pt virt')
  kept_pt = elim (so.entries d1 (x.index pt virt')) [
    | inl same ↦ same
    | inr (_, on) ↦
        absurd (let a = levels.d1c2 in let b = levels.d1c3 in let c = levels.t1 in ground arith)
  ]

  kept_pd : s.table d2 (x.index pd virt') ≡ m.table d2 (x.index pd virt')
  kept_pd =
      linked_below x bits m so.pmm s c2 (x.index pd virt) c1 d2 (x.index pd virt') d1 settled1
        (elim (so.entries d2 (x.index pd virt')) [
          | inl same ↦ inl same
          | inr (_, on) ↦
              inr (let a = levels.d2c1 in let b = levels.d2c3 in let c = levels.t2 in ground arith)
        ])
        (λ table index. sym walk'.address2 ∙ (rw (table, index) walk.address2)) pt
        (x.index pt virt') (bits.in_table pt virt') (rw kept_pt walk'.present1)

  kept_pdpt : s.table d3 (x.index pdpt virt') ≡ m.table d3 (x.index pdpt virt')
  kept_pdpt =
      linked_below x bits m so.pmm s c3 (x.index pdpt virt) c2 d3 (x.index pdpt virt') d2 settled2
        (elim (so.entries d3 (x.index pdpt virt')) [
          | inl same ↦ inl same
          | inr (_, on) ↦
              inr (let a = levels.d3c1 in let b = levels.d3c2 in let c = levels.t3 in ground arith)
        ])
        (λ table index. sym walk'.address3 ∙ (rw (table, index) walk.address3)) pd
        (x.index pd virt') (bits.in_table pd virt') (rw kept_pd walk'.present2)

  kept_top : s.table top_level (x.index pml4 virt') ≡ m.table top_level (x.index pml4 virt')
  kept_top =
      linked_below x bits m so.pmm s top_level (x.index pml4 virt) c3 top_level (x.index pml4 virt')
        d3 settled3
        (elim (so.entries top_level (x.index pml4 virt')) [
          | inl same ↦ inl same
          | inr (_, on) ↦
              inr (let a = levels.tc1 in let b = levels.tc2 in let c = levels.tc3 in ground arith)
        ])
        (λ table index. sym walk'.address4 ∙ (rw index walk.address4)) pdpt (x.index pdpt virt')
        (bits.in_table pdpt virt') (rw kept_pdpt walk'.present3)

  after-IsWalk : IsWalk x s top_level virt' d3 d2 d1
  after-IsWalk = record {
    present4 = rw kept_top walk'.present4;
    address4 = rw kept_top walk'.address4;
    present3 = rw kept_pdpt walk'.present3;
    table3 = rw kept_pdpt walk'.table3;
    address3 = rw kept_pdpt walk'.address3;
    present2 = rw kept_pd walk'.present2;
    table2 = rw kept_pd walk'.table2;
    address2 = rw kept_pd walk'.address2;
    present1 = rw kept_pt walk'.present1;
  }

  module _ (E : Type 0) where
    in_walk :
        (a : ℕ)
        → ((a ≡ top_level) ⊎ (a ≡ d3)) ⊎ ((a ≡ d2) ⊎ (a ≡ d1))
        → (l : Level) × (tables l a ≡ true)
    in_walk a (inl (inl e)) = (pml4, rw e here)
    in_walk a (inl (inr e)) = (pdpt, rw e d_pdpt)
    in_walk a (inr (inl e)) = (pd, rw e d_pd)
    in_walk a (inr (inr e)) = (pt, rw e d_pt)

    pub translate-after :
        is_canonical virt' ≡ true
        → (r : Option (ℕ × ℕ)) → translate {E = E} x top_level virt' m ≡ ok (done r, m)
        → translate {E = E} x top_level virt' s ≡ ok (done r, s)
    translate-after canonical r before =
        let page_at = x.address pt (m.table d1 (x.index pt virt')) in
        let flags = x.flags (m.table d1 (x.index pt virt')) in
        let in_m =
          walked {E = E} x m top_level virt' d3 d2 d1 walk'
            (λ a h. let (l, is_table) = in_walk a h in table_mut-ok x tables p m is l a is_table)
            canonical in
        let in_s =
          walked {E = E} x s top_level virt' d3 d2 d1 after-IsWalk
            (λ a h.
              let (l, is_table) = in_walk a h in
              point_at x paging tables p m is top_level virt c3 c2 c1 here walk E s so l a is_table)
            canonical in
        in_s
        ∙ ap (λ e. in_page {E = E} x virt' x.base_page_size (x.address pt e) (x.flags e) s) kept_pt
        ∙ in_page-other {E = E} x virt' x.base_page_size page_at flags m s r
            (add64 page_at (bit_and virt' (x.base_page_size - 1))) refl (sym in_m ∙ before)

-- With well-formed tables, two pages of the base size mapped at canonical addresses, the first a
-- multiple of the page size, and the second by another entry: `unmap` of the first returns without a
-- panic or an error, and what `translate` of the second address gave before it gives afterwards.
pub translate-unmap :
    (E : Type 0) (x : Paging) (paging : IsPaging x) (bits : IsBits x) (tables : Level → ℕ → Bool)
    (p : Pmm) (m : Machine)
    → (is : IsTables x tables p m) → (top_level virt c3 c2 c1 : ℕ) → tables pml4 top_level ≡ true
    → IsWalk x m top_level virt c3 c2 c1
    → is_canonical virt ≡ true
    → virt % 4096 ≡ 0
    → (virt' d3 d2 d1 : ℕ) → IsWalk x m top_level virt' d3 d2 d1
    → is_canonical virt' ≡ true
    → (d1 == c1 && x.index pt virt' == x.index pt virt) ≡ false
    → (r : Option (ℕ × ℕ)) → translate {E = E} x top_level virt' m ≡ ok (done r, m)
    → (s : Machine) × (unmap x top_level virt base m ≡ ok (done tt, s))
      × (translate {E = E} x top_level virt' s ≡ ok (done r, s))
translate-unmap E x paging bits tables p m is top_level virt c3 c2 c1 here walk canonical aligned
      virt' d3 d2 d1 walk' canonical' other r before =
    let (s, e, so, (settled1, settled2, settled3)) =
      unmap_steps x paging tables p m is top_level virt c3 c2 c1 here walk canonical aligned in
    (
      s,
      e,
      translate-after x paging bits tables p m is top_level virt c3 c2 c1 here walk virt' d3 d2 d1
          walk' other s so settled1 settled2 settled3 E canonical' r before,
    )
