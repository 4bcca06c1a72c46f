-- ===== src/Vmm/Undo.antt =====
-- What `map` of kernel/src/mm/vmm.rs takes back when the frames run out.
use prometheos.Base.{
  ℕ, ◌<◌, ◌≡◌, refl, ◌∙◌, subst, arith, Bool, true, false, ◌&&◌, ◌||◌, some, ◌⊎◌, inl, inr, ◌==◌,
  Bool-cases, ok,
}
use prometheos.Base.Exec.{done}
use prometheos.Pmm.{Pmm}
use prometheos.Pmm.Valid.{IsValid}
use prometheos.Pmm.Orders.{in_block}
use prometheos.Pmm.Step.{is_free}
use prometheos.Pmm.Alloc.{IsAlloc}
use prometheos.Vmm.Paging.{Paging, Level}
use prometheos.Vmm.Machine.{Machine, set_entry}
use prometheos.Vmm.Map.{MapError, Mapping, undo_table}
use prometheos.Vmm.Tables.{IsPaging, IsTables, next, depth, with_table}
use prometheos.Vmm.Frames.{free_frame_lem}
use prometheos.Vmm.Added.{added_state, depth_injective, table-ne}

-- A state with the same free frames as another one, and in its tables the same present entries.
pub record IsRestored (x : Paging) (tables : Level → ℕ → Bool) (p : Pmm) (m s : Machine)
    : Type 0 where
  pub pmm : Pmm
  pub installed : s.pmm ≡ some pmm
  pub valid : IsValid pmm
  pub free : (j : ℕ) → is_free pmm j ≡ is_free p j
  pub counted : pmm.free_frames ≡ p.free_frames
  pub total : pmm.total_frames ≡ p.total_frames
  pub hhdm : s.hhdm ≡ m.hhdm
  pub entries :
      (l : Level) (a i : ℕ)
      → tables l a ≡ true
      → (s.table a i ≡ m.table a i)
        ⊎ ((x.is_present l (m.table a i) ≡ false) × (x.is_present l (s.table a i) ≡ false))

pub IsRestored-refl :
    (x : Paging) (tables : Level → ℕ → Bool) (p : Pmm) (m : Machine)
    → IsTables x tables p m
    → IsRestored x tables p m m
IsRestored-refl x tables p m is = record {
  pmm = p;
  installed = is.installed;
  valid = is.valid;
  free = λ j. refl;
  counted = refl;
  total = refl;
  hhdm = refl;
  entries = λ l a i h. inl refl;
}

-- `undo` ends, and leads from any state like `m` to one like `start`.
abbrev pub Undoes :
    Paging
    → (Level → ℕ → Bool)
    → (p0 : Pmm) → (start : Machine) → (Level → ℕ → Bool)
    → (p : Pmm) → (m : Machine) → Mapping (Unit {0})
    → Type 0
Undoes x tables0 p0 start tables p m undo =
    (s : Machine)
    → IsRestored x tables p m s
    → (s' : Machine) × (undo s ≡ ok (done tt, s')) × IsRestored x tables0 p0 start s'

module _ (x : Paging) (paging : IsPaging x) (tables : Level → ℕ → Bool) (p q : Pmm) (m : Machine)
    (is : IsTables x tables p m) (l : Level) (a i c : ℕ) (inner : depth l < 3)
    (here : tables l a ≡ true) (absent : x.is_present l (m.table a i) ≡ false)
    (got : IsAlloc p q 0 c) (s : Machine)
    (like : IsRestored x (with_table tables (next l) c) q (added_state x q m l a i c) s) where
  -- The new table is taken out of its entry, and its frame is free again.
  undone : Pmm → Machine
  undone r = record s { pmm = some r; table = set_entry s.table a i 0 }

  in_use : is_free like.pmm got.frame ≡ false
  in_use = like.free got.frame ∙ got.freed got.frame ∙ ground arith

  free_again : (j : ℕ) → (is_free like.pmm j || in_block got.frame 1 j) ≡ is_free p j
  free_again j = elim (Bool-cases (in_block got.frame 1 j)) [
    | inl within ↦
        let was = got.was_free j within in
        let now = like.free j ∙ got.freed j in rw (within, was) (ground arith)
    | inr beyond ↦ let now = like.free j ∙ got.freed j in rw (beyond, now) (ground arith)
  ]

  old_entries :
      (r : Pmm) (l' : Level) (a' j : ℕ)
      → tables l' a' ≡ true
      → ((undone r).table a' j ≡ m.table a' j)
        ⊎ ((x.is_present l' (m.table a' j) ≡ false)
            × (x.is_present l' ((undone r).table a' j) ≡ false))
  unfolding undone
  old_entries r l' a' j old = elim (Bool-cases (a' == a && j == i)) [
    | inl written ↦
        let same_a : a' ≡ a = ground arith in
        let same_i : j ≡ i = ground arith in
        let old_a = subst (λ t. tables l' t ≡ true) same_a old in
        let level : l' ≡ l = depth_injective l' l (is.apart l' l a old_a here) in
        inr (rw (same_a, same_i, level) absent, rw written (paging.zero_absent l'))
    | inr kept ↦
        let apart = table-ne x paging tables p q m is l a i c inner here got l' a' old in
        let same : (added_state x q m l a i c).table a' j ≡ m.table a' j = ground arith in
        let grown : with_table tables (next l) c l' a' ≡ true = rw old refl in
        rw (kept, ← same) (like.entries l' a' j grown)
  ]

  pub undo_table_lem :
      (s' : Machine) × (undo_table x true a i c s ≡ ok (done tt, s')) × IsRestored x tables p m s'
  unfolding undo_table undone
  undo_table_lem =
      let fits : got.frame < like.pmm.total_frames =
        omega (arith, like.total, got.total, got.fits) in
      let cleared : Machine = record s { table = set_entry s.table a i 0 } in
      let (r, e, freed) =
        free_frame_lem {E = MapError} cleared like.pmm like.installed like.valid got.frame fits
          in_use in
      (
        undone r,
        rw got.at e,
        record {
          pmm = r;
          installed = refl;
          valid = freed.valid;
          free = λ j. freed.freed j ∙ free_again j;
          counted = omega (arith, freed.counted, like.counted, got.counted);
          total = omega (arith, freed.total, like.total, got.total);
          hhdm = like.hhdm;
          entries = old_entries r;
        },
      )
