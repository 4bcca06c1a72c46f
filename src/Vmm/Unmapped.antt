-- ===== src/Vmm/Unmapped.antt =====
-- `unmap` of kernel/src/mm/vmm.rs for pages of the base size.
use prometheos.Base.{
  ℕ, ◌*◌, ◌%◌, ◌≡◌, ◌≢◌, refl, ap, ◌∙◌, arith, Bool, true, false, some, none, ◌⊎◌, inl, inr, ok,
  add64-ok,
}
use prometheos.Base.Exec.{done}
use prometheos.Pmm.{Pmm, frame_size}
use prometheos.Pmm.Valid.{IsValid}
use prometheos.Pmm.Step.{is_free}
use prometheos.Vmm.Paging.{Paging, Level, pml4, pdpt, pd, pt, base}
use prometheos.Vmm.Machine.{Machine, table_mut, is_canonical}
use prometheos.Vmm.Unmap.{unmap}
use prometheos.Vmm.Translate.{translate, translate_pdpt, translate_pd, translate_pt}
use prometheos.Vmm.Tables.{IsPaging, IsTables}
use prometheos.Vmm.Reclaimed.{Flushed, Settled}
use prometheos.Vmm.Unmapping.{IsWalk, Unmapped, on_walk, is_pdpt, is_pd, is_pt, unmap_steps}

module _ (x : Paging) (paging : IsPaging x) (tables : Level → ℕ → Bool) (p : Pmm) (m : Machine)
    (is : IsTables x tables p m) (top_level virt c3 c2 c1 : ℕ) (here : tables pml4 top_level ≡ true)
    (walk : IsWalk x m top_level virt c3 c2 c1) where
  has_pdpt : tables pdpt c3 ≡ true
  has_pdpt = is_pdpt x paging tables p m is top_level virt c3 c2 c1 here walk

  has_pd : tables pd c2 ≡ true
  has_pd = is_pd x paging tables p m is top_level virt c3 c2 c1 here walk

  has_pt : tables pt c1 ≡ true
  has_pt = is_pt x paging tables p m is top_level virt c3 c2 c1 here walk

  module _ (E : Type 0) (s : Machine)
      (so : Unmapped x paging tables p m is top_level virt c3 c2 c1 here walk s) where
    pub point_at :
        (l : Level) (a : ℕ) → tables l a ≡ true → table_mut {E = E} a s.hhdm s ≡ ok (done a, s)
    unfolding table_mut
    point_at l a h =
        let (f, at, fits, _) = is.in_use l a h in
        rw (add64-ok a s.hhdm (omega (arith, is.reachable, so.hhdm))) refl

    -- An entry that was present is absent, or as it was.
    absent_or_same :
        (l : Level) (a i : ℕ) → (x.is_present l (s.table a i) ≡ false) ⊎ (s.table a i ≡ m.table a i)
    absent_or_same l a i = elim (so.entries a i) [
      | inl same ↦ inr same
      | inr (zeroed, _) ↦ inl (ap (x.is_present l) zeroed ∙ paging.zero_absent l)
    ]

    none_pt : translate_pt {E = E} x virt c1 s ≡ ok (done none, s)
    unfolding translate_pt
    none_pt =
        let absent = ap (x.is_present pt) so.gone ∙ paging.zero_absent pt in
        rw (point_at pt c1 has_pt, absent) refl

    none_pd : translate_pd {E = E} x virt c2 s ≡ ok (done none, s)
    unfolding translate_pd
    none_pd = elim (absent_or_same pd c2 (x.index pd virt)) [
      | inl absent ↦ rw (point_at pd c2 has_pd, absent) refl
      | inr same ↦
          rw (point_at pd c2 has_pd, same, walk.present2, walk.table2, walk.address2, none_pt) refl
    ]

    none_pdpt : translate_pdpt {E = E} x virt c3 s ≡ ok (done none, s)
    unfolding translate_pdpt
    none_pdpt = elim (absent_or_same pdpt c3 (x.index pdpt virt)) [
      | inl absent ↦ rw (point_at pdpt c3 has_pdpt, absent) refl
      | inr same ↦
          rw (point_at pdpt c3 has_pdpt, same, walk.present3, walk.table3, walk.address3, none_pd)
            refl
    ]

    none_top : is_canonical virt ≡ true → translate {E = E} x top_level virt s ≡ ok (done none, s)
    unfolding translate
    none_top canonical = elim (absent_or_same pml4 top_level (x.index pml4 virt)) [
      | inl absent ↦ rw (canonical, point_at pml4 top_level here, absent) refl
      | inr same ↦
          rw
            (canonical, point_at pml4 top_level here, same, walk.present4, walk.address4, none_pdpt)
            refl
    ]

-- With well-formed tables and a page of the base size mapped at a canonical address that is a
-- multiple of the page size, `unmap` of it returns without a panic or an error. `translate` of the
-- address then gives nothing. Of the three tables below the top level on the way to the page, each
-- whose entries are all absent is taken out of its parent and its frame is free, and each other one
-- keeps its parent's entry and its frame. All other table entries but the page's own are as they
-- were, frames of no such table stay used, frames that were free stay free, and the allocator is
-- valid. The page's address is flushed, and after that all addresses, a number of times that is not 0
-- if a table is taken out, and nothing else is.
pub unmap_lem :
    (E : Type 0) (x : Paging) (paging : IsPaging x) (tables : Level → ℕ → Bool) (p : Pmm)
    (m : Machine)
    → (is : IsTables x tables p m) → (top_level virt c3 c2 c1 : ℕ) → tables pml4 top_level ≡ true
    → IsWalk x m top_level virt c3 c2 c1
    → is_canonical virt ≡ true
    → virt % 4096 ≡ 0
    → (s : Machine) × (q : Pmm) × (unmap x top_level virt base m ≡ ok (done tt, s))
      × (translate {E = E} x top_level virt s ≡ ok (done none, s))
      × (s.pmm ≡ some q)
      × IsValid q
      × ((j : ℕ) → is_free p j ≡ true → is_free q j ≡ true)
      × ((j : ℕ)
          → is_free p j ≡ false
          → j * frame_size ≢ c1
          → j * frame_size ≢ c2
          → j * frame_size ≢ c3
          → is_free q j ≡ false)
      × ((a i : ℕ)
          → (s.table a i ≡ m.table a i)
            ⊎ ((s.table a i ≡ 0) × (on_walk x top_level virt c3 c2 c1 a i ≡ true)))
      × Settled x m q s c2 (x.index pd virt) c1
      × Settled x m q s c3 (x.index pdpt virt) c2
      × Settled x m q s top_level (x.index pml4 virt) c3
      × Flushed virt m s
unmap_lem E x paging tables p m is top_level virt c3 c2 c1 here walk canonical aligned =
    let (s, e, so, (settled1, settled2, settled3)) =
      unmap_steps x paging tables p m is top_level virt c3 c2 c1 here walk canonical aligned in
    let none_left =
      none_top x paging tables p m is top_level virt c3 c2 c1 here walk E s so canonical in
    (
      s,
      so.pmm,
      e,
      none_left,
      so.installed,
      so.valid,
      so.grown,
      (λ j used ne1 ne2 ne3. so.still j used (ground arith)),
      so.entries,
      settled1,
      settled2,
      settled3,
      so.flushed,
    )
