-- ===== src/Vmm/Placed.antt =====
-- The state of kernel/src/mm/vmm.rs after `map` writes a page's entry to a page table.
use prometheos.Base.{
  ℕ, ◌*◌, ◌<◌, ◌≡◌, ◌≢◌, refl, sym, subst, arith, Bool, true, false, ◌&&◌, ◌⊎◌, inl, inr,
  Bool-cases, bit_or, ◌==◌, ◌∷◌,
}
use prometheos.Pmm.{Pmm}
use prometheos.Vmm.Paging.{Paging, Level, pt}
use prometheos.Vmm.Machine.{Machine, set_entry, page}
use prometheos.Vmm.Tables.{IsTables, next, depth}
use prometheos.Vmm.Added.{depth_injective}

-- The entry of a page, and what `translate` says of its address.
abbrev pub page_entry : Paging → (f flags : ℕ) → ℕ
page_entry x f flags = x.new pt (f * 4096) (bit_or flags x.p)

abbrev pub target : Paging → (f flags : ℕ) → ℕ × ℕ
target x f flags = (f * 4096, bit_or flags x.p)

abbrev pub mapped : Paging → (virt f flags : ℕ) → Machine → (a : ℕ) → Machine
mapped x virt f flags m a = record m {
  table = set_entry m.table a (x.index pt virt) (page_entry x f flags);
  flushes = page virt ∷ m.flushes;
}

module _ (x : Paging) (virt f flags : ℕ) (tables : Level → ℕ → Bool) (p : Pmm) (m : Machine)
    (is : IsTables x tables p m) (a : ℕ) (here : tables pt a ≡ true) where
  pub other :
      (l : Level) (a' j : ℕ)
      → tables l a' ≡ true
      → depth l < 3
      → (mapped x virt f flags m a).table a' j ≡ m.table a' j
  other l a' j h above =
      let apart : a' ≢ a =
        λ e. let same = is.apart l pt a (subst (λ t. tables l t ≡ true) e h) here in omega arith in
      ground arith

  -- A page table's entries lead to no tables.
  pub mapped-IsTables : IsTables x tables p (mapped x virt f flags m a)
  mapped-IsTables = record {
    installed = is.installed;
    valid = is.valid;
    physical = is.physical;
    reachable = is.reachable;
    in_use = is.in_use;
    apart = is.apart;
    below = λ l a' j above h present no_page.
        let same = other l a' j h above in
        subst (λ t. tables (next l) (x.address l t) ≡ true) (sym same)
          (is.below l a' j above h (subst (λ t. x.is_present l t ≡ true) same present)
            (subst (λ t. x.is_page l t ≡ false) same no_page));
  }

pub mapped_entries :
    (x : Paging) (virt f flags : ℕ) (tables : Level → ℕ → Bool) (p : Pmm) (m : Machine)
    → IsTables x tables p m
    → (a : ℕ) → tables pt a ≡ true
    → x.is_present pt (m.table a (x.index pt virt)) ≡ false
    → (l : Level) (a' j : ℕ) → tables l a' ≡ true
    → ((mapped x virt f flags m a).table a' j ≡ m.table a' j)
      ⊎ (x.is_present l (m.table a' j) ≡ false)
mapped_entries x virt f flags tables p m is a here absent l a' j h =
    elim (Bool-cases (a' == a && j == x.index pt virt)) [
      | inr other ↦ inl (rw other refl)
      | inl written ↦
          let same_a : a' ≡ a = ground arith in
          let same_i : j ≡ x.index pt virt = ground arith in
          let level : l ≡ pt =
            depth_injective l pt (is.apart l pt a (subst (λ t. tables l t ≡ true) same_a h) here) in
          inr (rw (same_a, same_i, level) absent)
    ]
