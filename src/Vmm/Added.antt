-- ===== src/Vmm/Added.antt =====
-- A table in a new frame, as `map` of kernel/src/mm/vmm.rs adds it below an entry: the invariant.
use prometheos.Base.{
  ℕ, zero, suc, ◌*◌, ◌<◌, ◌≡◌, ◌≢◌, refl, sym, ap, ◌∙◌, subst, arith, Bool, true, false, ◌&&◌, ◌||◌,
  some, ◌⊎◌, inl, inr, ◌==◌, Bool-cases,
}
use prometheos.Pmm.{Pmm, frame_size}
use prometheos.Pmm.Step.{is_free}
use prometheos.Pmm.Alloc.{IsAlloc}
use prometheos.Vmm.Paging.{Paging, Level, pml4, pdpt, pd, pt}
use prometheos.Vmm.Machine.{Machine, set_entry, clear_table}
use prometheos.Vmm.Map.{parent}
use prometheos.Vmm.Tables.{IsPaging, IsTables, next, depth, with_table, max_frames}

at_depth : ℕ → Level
at_depth zero = pml4
at_depth (suc zero) = pdpt
at_depth (suc (suc zero)) = pd
at_depth _ = pt

at_depth-depth : (l : Level) → at_depth (depth l) ≡ l
unfolding at_depth
at_depth-depth pml4 = refl
at_depth-depth pdpt = refl
at_depth-depth pd = refl
at_depth-depth pt = refl

pub depth_injective : (l l' : Level) → depth l ≡ depth l' → l ≡ l'
depth_injective l l' h = sym (at_depth-depth l) ∙ ap at_depth h ∙ at_depth-depth l'

pub or_cases : (a b : Bool) → (a || b) ≡ true → (a ≡ true) ⊎ (b ≡ true)
or_cases true b h = inl refl
or_cases false b h = inr h

pub same_frame : (f g : ℕ) → f * frame_size ≡ g * frame_size → f ≡ g
same_frame f g h = omega arith

-- The state after the new table at `c` is cleared and entered at index `i` of the one at `a`.
abbrev pub added_state : Paging → (q : Pmm) → Machine → Level → (a i c : ℕ) → Machine
added_state x q m l a i c = record m {
  pmm = some q;
  table = set_entry (clear_table m.table c) a i (x.new l c (parent x));
}

module _ (x : Paging) (paging : IsPaging x) (tables : Level → ℕ → Bool) (p q : Pmm) (m : Machine)
    (is : IsTables x tables p m) (l : Level) (a i c : ℕ) (inner : depth l < 3)
    (here : tables l a ≡ true) (got : IsAlloc p q 0 c) where
  abbrev added : Machine
  added = added_state x q m l a i c

  abbrev new_tables : Level → ℕ → Bool
  new_tables = with_table tables (next l) c

  small : got.frame < max_frames
  small = omega (arith, got.fits, is.physical)

  was_free : is_free p got.frame ≡ true
  was_free = got.was_free got.frame (ground arith)

  taken : is_free q got.frame ≡ false
  taken = got.freed got.frame ∙ ground arith

  -- No table stood in the new frame.
  pub table-ne : (l' : Level) (a' : ℕ) → tables l' a' ≡ true → a' ≢ c
  table-ne l' a' old e =
      let (f, at, fits, used) = is.in_use l' a' old in
      let same : f ≡ got.frame = same_frame f got.frame (sym at ∙ e ∙ got.at) in
      let free : is_free p f ≡ true = subst (λ t. is_free p t ≡ true) (sym same) was_free in cc

  still_used : (f : ℕ) → is_free p f ≡ false → is_free q f ≡ false
  still_used f used = got.freed f ∙ rw used refl

  new_in_use :
      (l' : Level) (a' : ℕ)
      → new_tables l' a' ≡ true
      → (f : ℕ) × (a' ≡ f * frame_size) × (f < q.total_frames) × (is_free q f ≡ false)
  new_in_use l' a' h = elim (or_cases _ _ h) [
    | inl old ↦
        let (f, at, fits, used) = is.in_use l' a' old in
        (f, at, omega (arith, got.total), still_used f used)
    | inr new ↦
        let e : a' ≡ c = ground arith in
        (got.frame, e ∙ got.at, omega (arith, got.total, got.fits), taken)
  ]

  new_apart :
      (l1 l2 : Level) (a' : ℕ)
      → new_tables l1 a' ≡ true
      → new_tables l2 a' ≡ true
      → depth l1 ≡ depth l2
  new_apart l1 l2 a' h1 h2 = elim (or_cases _ _ h1) [
    | inl old1 ↦ elim (or_cases _ _ h2) [
      | inl old2 ↦ is.apart l1 l2 a' old1 old2
      | inr new2 ↦ let e : a' ≡ c = ground arith in absurd (table-ne l1 a' old1 e)
    ]
    | inr new1 ↦ elim (or_cases _ _ h2) [
      | inl old2 ↦ let e : a' ≡ c = ground arith in absurd (table-ne l2 a' old2 e)
      | inr new2 ↦ ground arith
    ]
  ]

  -- The entry that was written leads to the new table.
  pub added_points :
      (x.is_present l (added.table a i) ≡ true)
      × (x.is_page l (added.table a i) ≡ false)
      × (x.address l (added.table a i) ≡ c)
  added_points =
      let entry : added.table a i ≡ x.new l (got.frame * 4096) (parent x) =
        ground arith ∙ ap (λ t. x.new l t (parent x)) got.at in
      rw entry (
        paging.parent_present l got.frame small,
        paging.parent_table l got.frame small,
        paging.parent_address l got.frame small ∙ sym got.at,
      )

  -- The other entries of tables, and those of the new one.
  pub added_other : (a' j : ℕ) → a' ≢ c → a' ≢ a → added.table a' j ≡ m.table a' j
  added_other a' j h h' = ground arith

  pub added_zero : (j : ℕ) → added.table c j ≡ 0
  added_zero j = let apart = table-ne l a here in ground arith

  pub added_same : (a' j : ℕ) → a' ≢ c → j ≢ i → added.table a' j ≡ m.table a' j
  added_same a' j h h' = ground arith

  leads_to_new : new_tables (next l) c ≡ true
  leads_to_new = ground arith

  below_old :
      (l' : Level) (a' j : ℕ)
      → depth l' < 3
      → tables l' a' ≡ true
      → x.is_present l' (added.table a' j) ≡ true
      → x.is_page l' (added.table a' j) ≡ false
      → new_tables (next l') (x.address l' (added.table a' j)) ≡ true
  below_old l' a' j inner' old present no_page = elim (Bool-cases (a' == a && j == i)) [
    | inl written ↦
        let same_a : a' ≡ a = ground arith in
        let same_i : j ≡ i = ground arith in
        let old_a = subst (λ t. tables l' t ≡ true) same_a old in
        let level : l' ≡ l = depth_injective l' l (is.apart l' l a old_a here) in
        let (_, _, address) = added_points in rw (same_a, same_i, level, address) leads_to_new
    | inr kept ↦
        let apart = table-ne l' a' old in
        let same : added.table a' j ≡ m.table a' j = ground arith in
        let child =
          is.below l' a' j inner' old (subst (λ t. x.is_present l' t ≡ true) same present)
            (subst (λ t. x.is_page l' t ≡ false) same no_page) in
        rw (same, child) refl
  ]

  below_new :
      (l' : Level) (a' j : ℕ)
      → depth l' < 3
      → new_tables l' a' ≡ true
      → x.is_present l' (added.table a' j) ≡ true
      → x.is_page l' (added.table a' j) ≡ false
      → new_tables (next l') (x.address l' (added.table a' j)) ≡ true
  below_new l' a' j inner' h present no_page = elim (or_cases _ _ h) [
    | inl old ↦ below_old l' a' j inner' old present no_page
    | inr new ↦
        let e : a' ≡ c = ground arith in
        let zero_entry : added.table a' j ≡ 0 = rw e (added_zero j) in
        let absent = paging.zero_absent l' in
        absurd (let on = subst (λ t. x.is_present l' t ≡ true) zero_entry present in cc)
  ]

  -- The tables with the new one are well formed.
  pub added-IsTables : IsTables x new_tables q added
  added-IsTables = record {
    installed = refl;
    valid = got.valid;
    physical = omega (arith, is.physical, got.total);
    reachable = omega (arith, is.reachable, got.total);
    in_use = new_in_use;
    apart = new_apart;
    below = below_new;
  }
