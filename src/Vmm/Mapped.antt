-- ===== src/Vmm/Mapped.antt =====
-- `map` of kernel/src/mm/vmm.rs for pages of the base size, on every branch.
use prometheos.Base.{
  ℕ, ◌+◌, ◌*◌, ◌%◌, ◌<◌, ◌≡◌, refl, sym, ap, ◌∙◌, subst, arith, Bool, true, false, some, ◌⊎◌, inl,
  inr, ok, Bool-cases, bit_and, add64-ok,
}
use prometheos.Base.Bits.{bit_and-low}
use prometheos.Base.Exec.{done, fail, continue, ◌>>◌}
use prometheos.Pmm.{Pmm}
use prometheos.Vmm.Paging.{Paging, Level, pml4, pdpt, pd, pt, base, bytes}
use prometheos.Vmm.Machine.{Machine, is_canonical}
use prometheos.Vmm.Map.{
  MapError, already_mapped, Mapping, undo_table, enter, no_page, put_page, map_pt, map_pd, map_pdpt,
  map,
}
use prometheos.Vmm.Translate.{translate, translate_pdpt, translate_pd, translate_pt, in_page}
use prometheos.Vmm.Tables.{IsPaging, IsPageFlags, IsTables, max_frames}
use prometheos.Vmm.Undo.{Undoes}
use prometheos.Vmm.Enter.{table_mut-ok}
use prometheos.Vmm.Descend.{Clean, Clean-present, IsMapped, Ends, descend_lem}
use prometheos.Vmm.Placed.{page_entry, target, mapped, other, mapped-IsTables, mapped_entries}

module _ (E : Type 0) (x : Paging) (paging : IsPaging x) (virt f flags : ℕ) (fits : f < max_frames)
    (page_flags : IsPageFlags x flags) (aligned : virt % 4096 ≡ 0) (tables0 : Level → ℕ → Bool)
    (p0 : Pmm) (start : Machine) where
  module _ (tables : Level → ℕ → Bool) (p : Pmm) (m : Machine) (is : IsTables x tables p m)
      (a : ℕ) where
    translate_pt-mapped :
        tables pt a ≡ true
        → translate_pt {E = E} x virt a (mapped x virt f flags m a)
          ≡ ok (done (some (target x f flags)), mapped x virt f flags m a)
    unfolding translate_pt in_page
    translate_pt-mapped here =
        let after = mapped x virt f flags m a in
        let written : after.table a (x.index pt virt) ≡ page_entry x f flags = ground arith in
        let low : bit_and virt 4095 ≡ 0 = bit_and-low 12 virt ∙ aligned in
        let point =
          table_mut-ok {E = E} x tables p after
            (mapped-IsTables x virt f flags tables p m is a here) pt a here in
        let sum = add64-ok (f * 4096) 0 (omega (arith, fits)) in
        let plus : f * 4096 + 0 ≡ f * 4096 = omega arith in
        rw
          (
            point,
            written,
            page_flags.present f fits,
            page_flags.address f fits,
            page_flags.same f fits,
            paging.page_size,
            low,
            sum,
            plus,
          )
          refl

    map_pt_lem :
        tables pt a ≡ true
        → Clean start m a
        → Ends x tables0 p0 start
            (IsMapped {E = E} x tables m pt (translate_pt x virt a) (target x f flags))
            (map_pt x virt (f * 4096) flags a m)
    unfolding map_pt put_page
    map_pt_lem here clean =
        let point = table_mut-ok {E = MapError} x tables p m is pt a here in
        elim (Bool-cases (x.is_present pt (m.table a (x.index pt virt)))) [
          | inl present ↦
              let same = Clean-present x paging start m pt a (x.index pt virt) clean present in
              inr (inl (rw (point, present) (ap (λ s. ok (fail already_mapped, s)) same)))
          | inr absent ↦ inl (
            mapped x virt f flags m a,
            rw (point, absent) refl,
            record {
              tables' = tables;
              pmm = p;
              is = mapped-IsTables x virt f flags tables p m is a here;
              grows = λ l' a' h. h;
              kept = λ l' a' j h above. other x virt f flags tables p m is a here l' a' j h above;
              entries =
                  λ l' a' j h. mapped_entries x virt f flags tables p m is a here absent l' a' j h;
              found = translate_pt-mapped here;
            },
          )
        ]

    -- At a level whose entries may be pages, `no_page` fails as nothing has changed, or the entry is
    -- no page.
    no_page_lem :
        (l : Level) (i : ℕ)
        → Clean start m a
        → (no_page x l a i m ≡ ok (fail already_mapped, start))
          ⊎ ((no_page x l a i m ≡ ok (done tt, m))
              × (x.is_present l (m.table a i) ≡ true → x.is_page l (m.table a i) ≡ false))
    unfolding no_page
    no_page_lem l i clean = elim (Bool-cases (x.is_present l (m.table a i))) [
      | inr absent ↦ inr (rw absent refl, λ present. cc)
      | inl present ↦ elim (Bool-cases (x.is_page l (m.table a i))) [
        | inr table ↦ inr (rw (present, table) refl, λ _. table)
        | inl is_page ↦
            let same = Clean-present x paging start m l a i clean present in
            inl (rw (present, is_page) (ap (λ s. ok (fail already_mapped, s)) same))
      ]
    ]

  -- Two undos, one after the other.
  undo_both :
      (tables tables' : Level → ℕ → Bool) (p p' : Pmm) (m m' : Machine)
      (first second : Mapping (Unit {0}))
      → Undoes x tables p m tables' p' m' first
      → Undoes x tables0 p0 start tables p m second
      → Undoes x tables0 p0 start tables' p' m' (do first; second)
  undo_both tables tables' p p' m m' first second h h' s like =
      let (s1, e1, like1) = h s like in
      let (s2, e2, like2) = h' s1 like1 in (s2, rw (e1, e2) refl, like2)

  module _ (tables : Level → ℕ → Bool) (p : Pmm) (m : Machine) (is : IsTables x tables p m) (a : ℕ)
      (clean : Clean start m a) (undo : Mapping (Unit {0}))
      (undoes : Undoes x tables0 p0 start tables p m undo) where
    map_pd_lem :
        tables pd a ≡ true
        → Ends x tables0 p0 start
            (IsMapped {E = E} x tables m pd (translate_pd x virt a) (target x f flags))
            (map_pd x virt (f * 4096) flags base a undo m)
    unfolding map_pd
    map_pd_lem here =
        let point = table_mut-ok {E = MapError} x tables p m is pd a here in
        elim (no_page_lem tables p m is a pd (x.index pd virt) clean) [
          | inl stopped ↦ inr (inl (rw (point, stopped) refl))
          | inr (passed, table) ↦
              rw (point, passed)
                (descend_lem {E = E} x paging tables0 p0 start tables p m is pd a (x.index pd virt)
                  (omega arith) here clean (target x f flags) (translate_pd x virt a)
                  (translate_pt x virt) undo (λ t. map_pt x virt (f * 4096) flags t.0) undoes table
                  (λ c m' present no_page address tables' p' is' here' found.
                    let point' = table_mut-ok {E = E} x tables' p' m' is' pd a here' in
                    unfold translate_pd in rw (point', present, no_page, address, found) refl)
                  (λ c added m' e clean'. map_pt_lem e.tables' e.pmm m' e.is c e.child clean'))
        ]

  module _ (tables : Level → ℕ → Bool) (p : Pmm) (m : Machine) (is : IsTables x tables p m) (a : ℕ)
      (clean : Clean start m a) (undo : Mapping (Unit {0}))
      (undoes : Undoes x tables0 p0 start tables p m undo) where
    map_pdpt_lem :
        tables pdpt a ≡ true
        → Ends x tables0 p0 start
            (IsMapped {E = E} x tables m pdpt (translate_pdpt x virt a) (target x f flags))
            (map_pdpt x virt (f * 4096) flags base a undo m)
    unfolding map_pdpt
    map_pdpt_lem here =
        let point = table_mut-ok {E = MapError} x tables p m is pdpt a here in
        let index = x.index pdpt virt in
        elim (no_page_lem tables p m is a pdpt index clean) [
          | inl stopped ↦ inr (inl (rw (point, stopped) refl))
          | inr (passed, table) ↦
              rw (point, passed)
                (descend_lem {E = E} x paging tables0 p0 start tables p m is pdpt a index
                  (omega arith) here clean (target x f flags) (translate_pdpt x virt a)
                  (translate_pd x virt) undo
                  (λ t.
                    map_pd x virt (f * 4096) flags base t.0 (do undo_table x t.1 a index t.0; undo))
                  undoes table
                  (λ c m' present no_page address tables' p' is' here' found.
                    let point' = table_mut-ok {E = E} x tables' p' m' is' pdpt a here' in
                    unfold translate_pdpt in rw (point', present, no_page, address, found) refl)
                  (λ c added m' e clean'.
                    map_pd_lem e.tables' e.pmm m' e.is c clean'
                      (do undo_table x added a index c; undo)
                      (undo_both tables e.tables' p e.pmm m m' (undo_table x added a index c) undo
                        e.undoes undoes)
                      e.child))
        ]

-- The guards of `map` pass.
map-enter :
    (x : Paging) (paging : IsPaging x) (tables : Level → ℕ → Bool) (p : Pmm) (m : Machine)
    → IsTables x tables p m
    → (top_level : ℕ) → tables pml4 top_level ≡ true
    → (virt f flags : ℕ) → is_canonical virt ≡ true
    → virt % 4096 ≡ 0
    → map x top_level virt (f * 4096) flags base m
      ≡ continue (enter x pml4 top_level (x.index pml4 virt) (λ s. ok (done tt, s)) m) (λ t.
        map_pdpt x virt
          (f * 4096)
          flags
          base
          t.0
          (undo_table x t.1 top_level (x.index pml4 virt) t.0))
unfolding map bytes
map-enter x paging tables p m is top_level here virt f flags canonical aligned =
    let point = table_mut-ok {E = MapError} x tables p m is pml4 top_level here in
    let even : f * 4096 % 4096 ≡ 0 = omega arith in
    simp (canonical, paging.page_size, aligned, even, point) refl

-- With well-formed tables, `map` of a page of the base size to a frame, at a canonical address that
-- is a multiple of the page size, returns without a panic, in one of three ways. It maps: the tables
-- with those it added are well formed, entries of the tables that were present are as they were, and
-- `translate` of the address gives the frame's address and the flags with the bit for present. It
-- fails as already mapped, and nothing has changed. It fails as out of memory: the free frames and
-- their number are the same as before, and so are the present entries of all tables.
pub map_lem :
    (E : Type 0) (x : Paging) (paging : IsPaging x) (tables : Level → ℕ → Bool) (p : Pmm)
    (m : Machine)
    → IsTables x tables p m
    → (top_level : ℕ) → tables pml4 top_level ≡ true
    → (virt f flags : ℕ) → is_canonical virt ≡ true
    → virt % 4096 ≡ 0
    → f < max_frames
    → IsPageFlags x flags
    → Ends x tables p m
        (IsMapped {E = E} x tables m pml4 (translate x top_level virt) (target x f flags))
        (map x top_level virt (f * 4096) flags base m)
map_lem E x paging tables p m is top_level here virt f flags canonical aligned fits page_flags =
    let index = x.index pml4 virt in
    let mapped =
      descend_lem {E = E} x paging tables p m tables p m is pml4 top_level index (omega arith) here
        (inl refl) (target x f flags) (translate x top_level virt) (translate_pdpt x virt)
        (λ s. ok (done tt, s))
        (λ t. map_pdpt x virt (f * 4096) flags base t.0 (undo_table x t.1 top_level index t.0))
        (λ s like. (s, refl, like)) (λ _. paging.top_table (m.table top_level index))
        (λ c m' present no_page address tables' p' is' here' found.
          let point' = table_mut-ok {E = E} x tables' p' m' is' pml4 top_level here' in
          unfold translate in rw (canonical, point', present, address, found) refl)
        (λ c added m' e clean'.
          map_pdpt_lem E x paging virt f flags fits page_flags aligned tables p m e.tables' e.pmm m'
            e.is c clean' (undo_table x added top_level index c) e.undoes e.child) in
    subst
      (Ends x tables p m
        (IsMapped {E = E} x tables m pml4 (translate x top_level virt) (target x f flags)))
      (sym (map-enter x paging tables p m is top_level here virt f flags canonical aligned)) mapped
