-- ===== src/Vmm/Linked.antt =====
-- How `translate` of kernel/src/mm/vmm.rs finds a page, and which entries lead to tables in use.
use prometheos.Base.{
  ℕ, zero, suc, ◌+◌, ◌≡◌, ◌<◌, refl, sym, ◌∙◌, ap, arith, true, false, not, Option, ◌⊎◌, inl, inr,
  Result, ok, panic, Panic, add64, some, ◌-◌, bit_and, ◌==◌,
}
use prometheos.Base.Exec.{Outcome, done}
use prometheos.Pmm.{Pmm}
use prometheos.Vmm.Paging.{Paging, Level, pt}
use prometheos.Vmm.Machine.{Machine, table_mut, is_canonical}
use prometheos.Vmm.Unmap.{all_absent}
use prometheos.Vmm.Translate.{in_page, translate, translate_pdpt, translate_pd, translate_pt}
use prometheos.Vmm.Reclaimed.{Settled}
use prometheos.Vmm.Unmapping.{IsWalk}

-- Of the x86 crate: an entry is present if its lowest bit is 1, and an address has an entry in each
-- table.
pub record IsBits (x : Paging) : Type 0 where
  pub low_bit : (l : Level) (e : ℕ) → x.is_present l e ≡ not (bit_and e 1 == 0)
  pub in_table : (l : Level) (virt : ℕ) → x.index l virt < x.page_size_entries

module _ (x : Paging) (bits : IsBits x) where
  -- A table with a present entry is not empty.
  all_absent-present :
      (n : ℕ) (entries : ℕ → ℕ) (first : ℕ)
      → all_absent x n entries first ≡ true
      → (l : Level) (k : ℕ) → k < n
      → x.is_present l (entries (first + k)) ≡ false
  unfolding all_absent
  all_absent-present zero entries first h l k in_range = absurd (omega arith)
  all_absent-present (suc n) entries first h l zero in_range =
      let at : first + 0 ≡ first = omega arith in
      let absent : (bit_and (entries first) 1 == 0) ≡ true = ground arith in
      rw (at, bits.low_bit l (entries first), absent) refl
  all_absent-present (suc n) entries first h l (suc k) in_range =
      let at : first + suc k ≡ first + 1 + k = omega arith in
      rw at (all_absent-present n entries (first + 1) (ground arith) l k (omega arith))

module _ {E : Type 0} (x : Paging) (m : Machine) (top_level virt c3 c2 c1 : ℕ)
    (walk : IsWalk x m top_level virt c3 c2 c1)
    (point : (a : ℕ)
      → (((a ≡ top_level) ⊎ (a ≡ c3)) ⊎ ((a ≡ c2) ⊎ (a ≡ c1)))
      → table_mut {E = E} a m.hhdm m ≡ ok (done a, m)) where
  walked_pt :
      translate_pt {E = E} x virt c1 m
      ≡ in_page x virt x.base_page_size
          (x.address pt (m.table c1 (x.index pt virt)))
          (x.flags (m.table c1 (x.index pt virt)))
          m
  unfolding translate_pt
  walked_pt = rw (point c1 (inr (inr refl)), walk.present1) refl

  walked_pd : translate_pd {E = E} x virt c2 m ≡ translate_pt x virt c1 m
  unfolding translate_pd
  walked_pd = rw (point c2 (inr (inl refl)), walk.present2, walk.table2, walk.address2) refl

  walked_pdpt : translate_pdpt {E = E} x virt c3 m ≡ translate_pd x virt c2 m
  unfolding translate_pdpt
  walked_pdpt = rw (point c3 (inl (inr refl)), walk.present3, walk.table3, walk.address3) refl

  pub walked :
      is_canonical virt ≡ true
      → translate {E = E} x top_level virt m
        ≡ in_page x virt x.base_page_size
            (x.address pt (m.table c1 (x.index pt virt)))
            (x.flags (m.table c1 (x.index pt virt)))
            m
  unfolding translate
  walked canonical =
      rw (canonical, point top_level (inl (inl refl)), walk.present4, walk.address4)
        (walked_pdpt ∙ walked_pd ∙ walked_pt)

done_injective :
    {A E : Type 0} {a b : A} {m : Machine}
    → ◌≡◌ {A = Result (Outcome E A × Machine)} (ok (done a, m)) (ok (done b, m))
    → a ≡ b
done_injective e = cc

no_result : {A B : Type 0} {a : A} {why : Panic} → ◌≡◌ {A = Result A} (panic why) (ok a) → B
no_result e = cc

module _ {E : Type 0} (x : Paging) (virt size address flags : ℕ) where
  in_page_ok :
      (phys : ℕ)
      → add64 address (bit_and virt (size - 1)) ≡ ok phys
      → (m : Machine)
      → in_page {E = E} x virt size address flags m ≡ ok (done (some (phys, flags)), m)
  unfolding in_page
  in_page_ok phys e m = rw e refl

  in_page_panic :
      (why : Panic)
      → add64 address (bit_and virt (size - 1)) ≡ panic why
      → (m : Machine) → in_page {E = E} x virt size address flags m ≡ panic why
  unfolding in_page
  in_page_panic why e m = rw e refl

  -- What a page gives does not depend on the state.
  pub in_page-other :
      (m s : Machine) (r : Option (ℕ × ℕ)) (a : Result ℕ)
      → add64 address (bit_and virt (size - 1)) ≡ a
      → in_page {E = E} x virt size address flags m ≡ ok (done r, m)
      → in_page {E = E} x virt size address flags s ≡ ok (done r, s)
  in_page-other m s r (ok phys) e h =
      in_page_ok phys e s
      ∙ ap (λ r. ok (done r, s)) (done_injective (sym (in_page_ok phys e m) ∙ h))
  in_page-other m s r (panic why) e h = no_result (sym (in_page_panic why e m) ∙ h)

-- An entry that leads to a table that is not empty is kept.
pub linked_below :
    (x : Paging) (bits : IsBits x) (m : Machine) (q : Pmm) (s : Machine) (a i c b j d : ℕ)
    → Settled x m q s a i c
    → (s.table b j ≡ m.table b j) ⊎ ((b ≡ a) × (j ≡ i))
    → (b ≡ a → j ≡ i → d ≡ c)
    → (l : Level) (k : ℕ) → k < x.page_size_entries
    → x.is_present l (s.table d k) ≡ true
    → s.table b j ≡ m.table b j
linked_below x bits m q s a i c b j d settled (inl same) leads l k in_range present = same
linked_below x bits m q s a i c b j d (inr left) (inr (table, index)) leads l k in_range present =
    rw (table, index) left.linked
linked_below x bits m q s a i c b j d (inl gone) (inr (table, index)) leads l k in_range present =
    let at : d ≡ c = leads table index in
    let absent =
      all_absent-present x bits x.page_size_entries (s.table c) 0 gone.empty l k in_range in
    let there : x.is_present l (s.table c (0 + k)) ≡ true =
      let zero_add : 0 + k ≡ k = omega arith in rw (zero_add, ← at) present in
    cc
