-- ===== src/Vmm/Unmapping.antt =====
-- The walk of `unmap` of kernel/src/mm/vmm.rs to a page of the base size, and the steps back up.
use prometheos.Base.{
  ℕ, sym, ◌%◌, ◌≡◌, ◌≢◌, refl, ap, ◌∙◌, subst, arith, Bool, true, false, ◌&&◌, inl, inr, ok,
  Bool-cases, ◌==◌, ◌∷◌,
}
use prometheos.Base.Exec.{done}
use prometheos.Pmm.{Pmm}
use prometheos.Vmm.Paging.{Paging, Level, pml4, pdpt, pd, pt, base, bytes}
use prometheos.Vmm.Machine.{Machine, set_entry, page, is_canonical}
use prometheos.Vmm.Unmap.{UnmapError, take_page, child, unmap_pt, unmap_pd, unmap_pdpt, unmap}
use prometheos.Vmm.Tables.{IsPaging, IsTables, depth}
use prometheos.Vmm.Enter.{table_mut-ok}
use prometheos.Vmm.Reclaimed.{
  IsCleared, Settled, Settled-IsStep, or_frame, or_entry, reclaim_lem, reclaim_pdpt_lem,
}

-- The tables at `c3`, `c2` and `c1` are those on the way to an address, and the last one's entry is
-- present: a page of the base size is mapped.
pub record IsWalk (x : Paging) (m : Machine) (top_level virt c3 c2 c1 : ℕ) : Type 0 where
  pub present4 : x.is_present pml4 (m.table top_level (x.index pml4 virt)) ≡ true
  pub address4 : x.address pml4 (m.table top_level (x.index pml4 virt)) ≡ c3
  pub present3 : x.is_present pdpt (m.table c3 (x.index pdpt virt)) ≡ true
  pub table3 : x.is_page pdpt (m.table c3 (x.index pdpt virt)) ≡ false
  pub address3 : x.address pdpt (m.table c3 (x.index pdpt virt)) ≡ c2
  pub present2 : x.is_present pd (m.table c2 (x.index pd virt)) ≡ true
  pub table2 : x.is_page pd (m.table c2 (x.index pd virt)) ≡ false
  pub address2 : x.address pd (m.table c2 (x.index pd virt)) ≡ c1
  pub present1 : x.is_present pt (m.table c1 (x.index pt virt)) ≡ true

abbrev no_frame : ℕ → Bool
no_frame a = false

abbrev no_entry : ℕ → ℕ → Bool
no_entry a i = false

-- Whether an entry is one of the four on the way to an address.
abbrev pub on_walk : Paging → (top_level virt c3 c2 c1 : ℕ) → ℕ → ℕ → Bool
on_walk x top_level virt c3 c2 c1 =
    or_entry
      (or_entry (or_entry (or_entry no_entry c1 (x.index pt virt)) c2 (x.index pd virt)) c3
        (x.index pdpt virt))
      top_level (x.index pml4 virt)

module _ (x : Paging) (paging : IsPaging x) (tables : Level → ℕ → Bool) (p : Pmm) (m : Machine)
    (is : IsTables x tables p m) (top_level virt c3 c2 c1 : ℕ) (here : tables pml4 top_level ≡ true)
    (walk : IsWalk x m top_level virt c3 c2 c1) where
  pub is_pdpt : tables pdpt c3 ≡ true
  is_pdpt =
      let below =
        is.below pml4 top_level (x.index pml4 virt) (omega arith) here walk.present4
          (paging.top_table _) in
      subst (λ t. tables pdpt t ≡ true) walk.address4 below

  pub is_pd : tables pd c2 ≡ true
  is_pd =
      subst (λ t. tables pd t ≡ true) walk.address3
        (is.below pdpt c3 (x.index pdpt virt) (omega arith) is_pdpt walk.present3 walk.table3)

  pub is_pt : tables pt c1 ≡ true
  is_pt =
      subst (λ t. tables pt t ≡ true) walk.address2
        (is.below pd c2 (x.index pd virt) (omega arith) is_pd walk.present2 walk.table2)

  pub apart :
      (l l' : Level) (a b : ℕ) → tables l a ≡ true → tables l' b ≡ true → depth l ≢ depth l' → a ≢ b
  apart l l' a b ha hb ne e = ne (is.apart l l' b (subst (λ t. tables l t ≡ true) e ha) hb)

  -- The page's entry is gone.
  cleared : Machine
  cleared = record m {
    table = set_entry m.table c1 (x.index pt virt) 0;
    flushes = page virt ∷ m.flushes;
  }

  abbrev Cleared : (ℕ → Bool) → (ℕ → ℕ → Bool) → Machine → Type 0
  Cleared = IsCleared p m c1 (x.index pt virt) virt

  cleared-IsCleared : Cleared no_frame (or_entry no_entry c1 (x.index pt virt)) cleared
  unfolding cleared
  cleared-IsCleared = record {
    pmm = p;
    installed = is.installed;
    valid = is.valid;
    total = refl;
    hhdm = refl;
    grown = λ j h. h;
    still = λ j h _. h;
    entries = λ a i. elim (Bool-cases (a == c1 && i == x.index pt virt)) [
      | inl written ↦ inr (rw written refl, rw written refl)
      | inr other ↦ inl (rw other refl)
    ];
    gone = ground arith;
    flushed = (0, refl);
  }

  unmap_pt_lem : unmap_pt x virt c1 m ≡ ok (done tt, cleared)
  unfolding unmap_pt take_page cleared
  unmap_pt_lem =
      let point = table_mut-ok {E = UnmapError} x tables p m is pt c1 is_pt in
      rw (point, walk.present1) refl

  abbrev cleared2 : ℕ → ℕ → Bool
  cleared2 = or_entry (or_entry no_entry c1 (x.index pt virt)) c2 (x.index pd virt)

  abbrev cleared3 : ℕ → ℕ → Bool
  cleared3 = or_entry cleared2 c3 (x.index pdpt virt)

  ne21 : c2 ≢ c1
  ne21 = apart pd pt c2 c1 is_pd is_pt (omega arith)

  ne31 : c3 ≢ c1
  ne31 = apart pdpt pt c3 c1 is_pdpt is_pt (omega arith)

  ne32 : c3 ≢ c2
  ne32 = apart pdpt pd c3 c2 is_pdpt is_pd (omega arith)

  ne41 : top_level ≢ c1
  ne41 = apart pml4 pt top_level c1 here is_pt (omega arith)

  ne42 : top_level ≢ c2
  ne42 = apart pml4 pd top_level c2 here is_pd (omega arith)

  ne43 : top_level ≢ c3
  ne43 = apart pml4 pdpt top_level c3 here is_pdpt (omega arith)

  -- An entry outside those that may have become 0.
  entry_intact :
      (freed : ℕ → Bool) (cleared' : ℕ → ℕ → Bool) (s : Machine)
      → Cleared freed cleared' s
      → (a i : ℕ) → cleared' a i ≡ false
      → s.table a i ≡ m.table a i
  entry_intact freed cleared' s so a i out = elim (so.entries a i) [
    | inl same ↦ same
    | inr (_, on) ↦ absurd (cc)
  ]

  -- The table below an entry of the walk is settled.
  abbrev Settled1 :
      (freed : ℕ → Bool) → (on : ℕ → ℕ → Bool) → (s : Machine) → Cleared freed on s → Type 0
  Settled1 freed on s so = Settled x m so.pmm s c2 (x.index pd virt) c1

  abbrev Settled2 :
      (freed : ℕ → Bool) → (on : ℕ → ℕ → Bool) → (s : Machine) → Cleared freed on s → Type 0
  Settled2 freed on s so = Settled x m so.pmm s c3 (x.index pdpt virt) c2

  unmap_pd_lem :
      (s : Machine) × (unmap_pd x virt base c2 m ≡ ok (done tt, s))
      × (so : Cleared (or_frame no_frame c1) cleared2 s) × Settled1
          (or_frame no_frame c1)
          cleared2
          s
          so
  unfolding unmap_pd child
  unmap_pd_lem =
      let point = table_mut-ok {E = UnmapError} x tables p m is pd c2 is_pd in
      let intact : cleared.table c2 (x.index pd virt) ≡ m.table c2 (x.index pd virt) =
        entry_intact no_frame (or_entry no_entry c1 (x.index pt virt)) cleared cleared-IsCleared c2
          (x.index pd virt) (let ne = ne21 in ground arith) in
      let (s, e, so, step, settled) =
        reclaim_lem x tables p m is c1 (x.index pt virt) virt no_frame
          (or_entry no_entry c1 (x.index pt virt)) cleared cleared-IsCleared c2 (x.index pd virt) c1
          pt is_pt refl (λ e. ne21 (sym e)) intact pd (ap (x.is_page pd) intact ∙ walk.table2) in
      (s, rw (point, walk.present2, walk.table2, walk.address2, unmap_pt_lem, e) refl, so, settled)

  abbrev freed2 : ℕ → Bool
  freed2 = or_frame (or_frame no_frame c1) c2

  unmap_pdpt_lem :
      (s : Machine) × (unmap_pdpt x virt base c3 m ≡ ok (done tt, s))
      × (so : Cleared freed2 cleared3 s) × Settled1 freed2 cleared3 s so
      × Settled2 freed2 cleared3 s so
  unfolding unmap_pdpt child
  unmap_pdpt_lem =
      let point = table_mut-ok {E = UnmapError} x tables p m is pdpt c3 is_pdpt in
      let (s1, e1, so1, settled1) = unmap_pd_lem in
      let intact =
        entry_intact (or_frame no_frame c1) cleared2 s1 so1 c3 (x.index pdpt virt)
          (let ne = ne31 in let ne' = ne32 in ground arith) in
      let (s, e, so, step, settled) =
        reclaim_lem x tables p m is c1 (x.index pt virt) virt (or_frame no_frame c1) cleared2 s1 so1
          c3 (x.index pdpt virt) c2 pd is_pd (let ne = ne21 in ground arith) (λ e. ne32 (sym e))
          intact pdpt (ap (x.is_page pdpt) intact ∙ walk.table3) in
      (
        s,
        rw (point, walk.present3, walk.table3, walk.address3, e1, e) refl,
        so,
        Settled-IsStep x m so1.pmm s1 so.pmm s c2 (x.index pd virt) c1 c3 (x.index pdpt virt) c2
            ne31 ne32 ne21 step settled1,
        settled,
      )

  abbrev freed3 : ℕ → Bool
  freed3 = or_frame freed2 c3

  abbrev pub Unmapped : Machine → Type 0
  Unmapped = Cleared freed3 (on_walk x top_level virt c3 c2 c1)

  abbrev pub AllSettled : Pmm → Machine → Type 0
  AllSettled q s =
      Settled x m q s c2 (x.index pd virt) c1
      × Settled x m q s c3 (x.index pdpt virt) c2
      × Settled x m q s top_level (x.index pml4 virt) c3

  pub unmap_steps :
      is_canonical virt ≡ true
      → virt % 4096 ≡ 0
      → (s : Machine) × (unmap x top_level virt base m ≡ ok (done tt, s))
        × (so : Unmapped s) × AllSettled so.pmm s
  unfolding unmap bytes
  unmap_steps canonical aligned =
      let point = table_mut-ok {E = UnmapError} x tables p m is pml4 top_level here in
      let (s1, e1, so1, settled1, settled2) = unmap_pdpt_lem in
      let intact =
        entry_intact freed2 cleared3 s1 so1 top_level (x.index pml4 virt)
          (let ne = ne41 in let ne' = ne42 in let ne'' = ne43 in ground arith) in
      let (s, e, so, step, settled) =
        reclaim_pdpt_lem x tables p m is c1 (x.index pt virt) virt freed2 cleared3 s1 so1 top_level
          (x.index pml4 virt) c3 pdpt is_pdpt (let ne = ne31 in let ne' = ne32 in ground arith)
          (λ e. ne43 (sym e)) intact in
      (
        s,
        simp (canonical, paging.page_size, aligned, point, walk.present4, walk.address4, e1, e)
            refl,
        so,
        (
          Settled-IsStep x m so1.pmm s1 so.pmm s c2 (x.index pd virt) c1 top_level
              (x.index pml4 virt) c3 ne41 ne42 ne31 step settled1,
          Settled-IsStep x m so1.pmm s1 so.pmm s c3 (x.index pdpt virt) c2 top_level
              (x.index pml4 virt) c3 ne42 ne43 ne32 step settled2,
          settled,
        ),
      )
