-- ===== src/Vmm/Reclaimed.antt =====
-- The tables that `unmap` of kernel/src/mm/vmm.rs gives back, one level at a time.
use prometheos.Base.{
  ℕ, zero, suc, ap, List, ◌*◌, ◌≡◌, ◌≢◌, refl, sym, ◌∙◌, subst, arith, Bool, true, false, ◌&&◌,
  ◌||◌, some, ◌⊎◌, inl, inr, Result, ok, Bool-cases, add64-ok, ◌==◌, ◌∷◌,
}
use prometheos.Base.Exec.{Outcome, done}
use prometheos.Pmm.{Pmm, frame_size}
use prometheos.Pmm.Valid.{IsValid}
use prometheos.Pmm.Orders.{in_block}
use prometheos.Pmm.Step.{is_free}
use prometheos.Vmm.Paging.{Paging, Level}
use prometheos.Vmm.Machine.{Machine, table_mut, Flush, page, set_entry, all}
use prometheos.Vmm.Unmap.{UnmapError, all_absent, is_empty, reclaim, reclaim_pdpt}
use prometheos.Vmm.Tables.{IsTables}
use prometheos.Vmm.Frames.{free_frame_lem}

-- The page's address was flushed, and after that all addresses, a number of times.
abbrev pub flush_all : ℕ → List Flush → List Flush
flush_all zero flushes = flushes
flush_all (suc n) flushes = all ∷ flush_all n flushes

abbrev pub Flushed : (virt : ℕ) → (m s : Machine) → Type 0
Flushed virt m s = (n : ℕ) × (s.flushes ≡ flush_all n (page virt ∷ m.flushes))

-- A state of the walk back up: frames of `freed` may have become free and no others, the entries of
-- `cleared` may have become 0 and no others changed, the page's entry is 0, and its address was
-- flushed.
pub record IsCleared (p : Pmm) (m : Machine) (a0 i0 virt : ℕ) (freed : ℕ → Bool)
    (cleared : ℕ → ℕ → Bool) (s : Machine) : Type 0 where
  pub pmm : Pmm
  pub installed : s.pmm ≡ some pmm
  pub valid : IsValid pmm
  pub total : pmm.total_frames ≡ p.total_frames
  pub hhdm : s.hhdm ≡ m.hhdm
  pub grown : (j : ℕ) → is_free p j ≡ true → is_free pmm j ≡ true
  pub still : (j : ℕ) → is_free p j ≡ false → freed (j * frame_size) ≡ false → is_free pmm j ≡ false
  pub entries : (a i : ℕ) → (s.table a i ≡ m.table a i) ⊎ ((s.table a i ≡ 0) × (cleared a i ≡ true))
  pub gone : s.table a0 i0 ≡ 0
  pub flushed : Flushed virt m s

abbrev pub or_frame : (ℕ → Bool) → ℕ → ℕ → Bool
or_frame freed c a = freed a || a == c

abbrev pub or_entry : (ℕ → ℕ → Bool) → ℕ → ℕ → ℕ → ℕ → Bool
or_entry cleared a i a' i' = cleared a' i' || (a' == a && i' == i)

-- A table that is empty has lost its parent's entry, its frame is free, and the last flush was one of
-- all addresses; one that is not has kept the entry and the frame.
pub record IsEmptied (x : Paging) (q : Pmm) (s : Machine) (a i c : ℕ) : Type 0 where
  pub empty : all_absent x x.page_size_entries (s.table c) 0 ≡ true
  pub unlinked : s.table a i ≡ 0
  pub given : (f : ℕ) → c ≡ f * frame_size → is_free q f ≡ true
  pub forgotten : (flushes : List Flush) × (s.flushes ≡ all ∷ flushes)

pub record IsKept (x : Paging) (m : Machine) (q : Pmm) (s : Machine) (a i c : ℕ) : Type 0 where
  pub used : all_absent x x.page_size_entries (s.table c) 0 ≡ false
  pub linked : s.table a i ≡ m.table a i
  pub held : (f : ℕ) → c ≡ f * frame_size → is_free q f ≡ false

abbrev pub Settled : Paging → Machine → (q : Pmm) → (s : Machine) → (a i c : ℕ) → Type 0
Settled x m q s a i c = IsEmptied x q s a i c ⊎ IsKept x m q s a i c

-- What one step back up changes: an entry at most, and the frame of one table.
pub record IsStep (q : Pmm) (s : Machine) (q' : Pmm) (s' : Machine) (a i c : ℕ) : Type 0 where
  pub same : (a' i' : ℕ) → (a' == a && i' == i) ≡ false → s'.table a' i' ≡ s.table a' i'
  pub others : (j : ℕ) → (j * frame_size == c) ≡ false → is_free q' j ≡ is_free q j
  pub flushes : (s'.flushes ≡ s.flushes) ⊎ (s'.flushes ≡ all ∷ s.flushes)

still_forgotten :
    {old new : List Flush}
    → (new ≡ old) ⊎ (new ≡ all ∷ old)
    → (flushes : List Flush) × (old ≡ all ∷ flushes)
    → (flushes : List Flush) × (new ≡ all ∷ flushes)
still_forgotten (inl same) (flushes, e) = (flushes, same ∙ e)
still_forgotten {old} (inr more) last = (old, more)

-- A table that is settled stays so when steps above it are made.
pub Settled-IsStep :
    (x : Paging) (m : Machine) (q : Pmm) (s : Machine) (q' : Pmm) (s' : Machine)
    (a i c a' i' c' : ℕ)
    → a' ≢ c
    → a' ≢ a
    → c' ≢ c
    → IsStep q s q' s' a' i' c'
    → Settled x m q s a i c
    → Settled x m q' s' a i c
Settled-IsStep x m q s q' s' a i c a' i' c' ne ne' ne_frame step settled =
    let rows : s'.table c ≡ s.table c = λ k j. step.same c j (ground arith) k in
    let entry : s'.table a i ≡ s.table a i = step.same a i (ground arith) in
    let frames : (f : ℕ) → c ≡ f * frame_size → is_free q' f ≡ is_free q f =
      λ f at. step.others f (ground (arith, at)) in
    let empty = ap (λ t. all_absent x x.page_size_entries t 0) rows in
    elim settled [
      | inl gone ↦ inl (record {
        empty = empty ∙ gone.empty;
        unlinked = entry ∙ gone.unlinked;
        given = λ f at. frames f at ∙ gone.given f at;
        forgotten = still_forgotten step.flushes gone.forgotten;
      })
      | inr left ↦ inr (record {
        used = empty ∙ left.used;
        linked = entry ∙ left.linked;
        held = λ f at. frames f at ∙ left.held f at;
      })
    ]

module _ (x : Paging) (tables : Level → ℕ → Bool) (p : Pmm) (m : Machine)
    (is : IsTables x tables p m) (a0 i0 virt : ℕ) (freed : ℕ → Bool) (cleared : ℕ → ℕ → Bool)
    (s : Machine) (so : IsCleared p m a0 i0 virt freed cleared s) (a i c : ℕ) (level : Level)
    (here : tables level c ≡ true) (kept : freed c ≡ false) (above : c ≢ a)
    (intact : s.table a i ≡ m.table a i) where
  -- Nothing need have happened.
  weaker : IsCleared p m a0 i0 virt (or_frame freed c) (or_entry cleared a i) s
  weaker = record {
    pmm = so.pmm;
    installed = so.installed;
    valid = so.valid;
    total = so.total;
    hhdm = so.hhdm;
    grown = so.grown;
    still = λ j used out. so.still j used (ground arith);
    entries = λ a' i'. elim (so.entries a' i') [
      | inl same ↦ inl same
      | inr (zeroed, in_cleared) ↦ inr (zeroed, rw in_cleared refl)
    ];
    gone = so.gone;
    flushed = so.flushed;
  }

  is_empty-ok :
      is_empty x c m.hhdm s ≡ ok (done (all_absent x x.page_size_entries (s.table c) 0), s)
  unfolding is_empty table_mut
  is_empty-ok =
      let (f, at, fits, _) = is.in_use level c here in
      rw (add64-ok c m.hhdm (omega (arith, is.reachable))) refl

  out_still :
      (f : ℕ)
      → c ≡ f * frame_size
      → (j : ℕ) → is_free p j ≡ false
      → or_frame freed c (j * frame_size) ≡ false
      → (is_free so.pmm j || in_block f 1 j) ≡ false
  out_still f at j used out =
      let before = so.still j used (ground arith) in
      let ne : j ≢ f = λ e. ground arith in rw before (ground arith)

  out_entries :
      (a' i' : ℕ)
      → (set_entry s.table a i 0 a' i' ≡ m.table a' i')
        ⊎ ((set_entry s.table a i 0 a' i' ≡ 0) × (or_entry cleared a i a' i' ≡ true))
  out_entries a' i' = elim (Bool-cases (a' == a && i' == i)) [
    | inl written ↦ inr (rw written refl, ground arith)
    | inr other ↦
        let same : set_entry s.table a i 0 a' i' ≡ s.table a' i' = rw other refl in
        subst (λ t. (t ≡ m.table a' i') ⊎ ((t ≡ 0) × (or_entry cleared a i a' i' ≡ true)))
          (sym same) (weaker.entries a' i')
  ]

  -- The frame of the table, when it is given back and when it is not.
  frame_held : (f : ℕ) → c ≡ f * frame_size → is_free so.pmm f ≡ false
  frame_held f at =
      let (g, at', fits, used) = is.in_use level c here in
      let same : f ≡ g = omega (arith, at, at') in
      so.still f (ap (is_free p) same ∙ used) (subst (λ t. freed t ≡ false) at kept)

  abbrev pub After : Result (Outcome UnmapError (Unit {0}) × Machine) → Type 0
  After r =
      (s' : Machine) × (r ≡ ok (done tt, s'))
      × (so' : IsCleared p m a0 i0 virt (or_frame freed c) (or_entry cleared a i) s') × IsStep
          so.pmm s so'.pmm s' a i c
      × Settled x m so'.pmm s' a i c

  unchanged :
      all_absent x x.page_size_entries (s.table c) 0 ≡ false
      → IsStep so.pmm s so.pmm s a i c × Settled x m so.pmm s a i c
  unchanged in_use = (
    record { same = λ a' i' h. refl; others = λ j h. refl; flushes = inl refl },
    inr (record { used = in_use; linked = intact; held = frame_held }),
  )

  pub reclaim_pdpt_lem : After (reclaim_pdpt x a i c m.hhdm s)
  unfolding reclaim_pdpt weaker
  reclaim_pdpt_lem = elim (Bool-cases (all_absent x x.page_size_entries (s.table c) 0)) [
    | inr in_use ↦
        let (step, settled) = unchanged in_use in
        (s, rw (is_empty-ok, in_use) refl, weaker, step, settled)
    | inl empty ↦
        let (f, at, fits, used) = is.in_use level c here in
        let out : Machine = record s { table = set_entry s.table a i 0 } in
        let (r, e, free) =
          free_frame_lem {E = UnmapError} out so.pmm so.installed so.valid f
            (omega (arith, fits, so.total))
            (so.still f used (subst (λ t. freed t ≡ false) at kept)) in
        (
          record out { pmm = some r; flushes = all ∷ s.flushes },
          rw (is_empty-ok, empty, rw (← at) at e) refl,
          record {
            pmm = r;
            installed = refl;
            valid = free.valid;
            total = free.total ∙ so.total;
            hhdm = so.hhdm;
            grown = λ j was. free.freed j ∙ rw (so.grown j was) refl;
            still = λ j was out_of. free.freed j ∙ out_still f at j was out_of;
            entries = out_entries;
            gone = let before = so.gone in ground arith;
            flushed = let (n, flushes) = so.flushed in (suc n, ap (λ t. all ∷ t) flushes);
          },
          record {
            same = λ a' i' h. rw h refl;
            others = λ j h. free.freed j ∙ ground (arith, at, h);
            flushes = inr refl;
          },
          inl (record {
            empty = ap (λ t. all_absent x x.page_size_entries t 0) (λ k j. rows j k) ∙ empty;
            unlinked = ground arith;
            given = λ g at'.
                let same : g ≡ f = omega (arith, at, at') in free.freed g ∙ ground (arith, same);
            forgotten = (s.flushes, refl);
          }),
        )
  ]
    where
      rows : (j : ℕ) → set_entry s.table a i 0 c j ≡ s.table c j
      rows j = ground arith

  pub reclaim_lem :
      (l : Level) → x.is_page l (s.table a i) ≡ false → After (reclaim x l a i c m.hhdm s)
  unfolding reclaim
  reclaim_lem l table = rw table reclaim_pdpt_lem
