-- ===== src/Vmm/Descend.antt =====
-- How a level of the walk of `map` of kernel/src/mm/vmm.rs follows from the one below it.
use prometheos.Base.{
  ℕ, ◌<◌, ◌≡◌, refl, sym, ap, ◌∙◌, subst, arith, Bool, true, false, Option, some, ◌⊎◌, inl, inr,
  Result, ok,
}
use prometheos.Base.Exec.{Outcome, done, fail, continue}
use prometheos.Pmm.{Pmm}
use prometheos.Vmm.Paging.{Paging, Level, pml4, pdpt, pd, pt}
use prometheos.Vmm.Machine.{Machine, Kernel}
use prometheos.Vmm.Map.{MapError, already_mapped, out_of_memory, Mapping, enter}
use prometheos.Vmm.Tables.{IsPaging, IsTables, next, depth}
use prometheos.Vmm.Undo.{Undoes, IsRestored, IsRestored-refl}
use prometheos.Vmm.Enter.{Entered, enter_lem}

-- Nothing has changed since `start`, or the table at `a` is a new one.
abbrev pub Clean : (start m : Machine) → (a : ℕ) → Type 0
Clean start m a = (m ≡ start) ⊎ ((j : ℕ) → m.table a j ≡ 0)

-- A present entry shows that nothing has changed.
pub Clean-present :
    (x : Paging)
    → IsPaging x
    → (start m : Machine) (l : Level) (a i : ℕ) → Clean start m a
    → x.is_present l (m.table a i) ≡ true
    → m ≡ start
Clean-present x paging start m l a i (inl same) present = same
Clean-present x paging start m l a i (inr empty) present =
    let entry = empty i in
    let absent = paging.zero_absent l in
    let on = subst (λ t. x.is_present l t ≡ true) entry present in absurd (cc)

-- What a state after `map` has to do with the one before, at a table of a level: the frames of
-- tables are well formed, the tables of the levels above are the same, entries that were present are
-- the same, and `walk` finds the target.
pub record IsMapped {E : Type 0} (x : Paging) (tables : Level → ℕ → Bool) (m : Machine) (l : Level)
    (walk : Kernel E (Option (ℕ × ℕ))) (target : ℕ × ℕ) (m' : Machine) : Type 0 where
  pub tables' : Level → ℕ → Bool
  pub pmm : Pmm
  pub is : IsTables x tables' pmm m'
  pub grows : (l' : Level) (a' : ℕ) → tables l' a' ≡ true → tables' l' a' ≡ true
  pub kept :
      (l' : Level) (a' j : ℕ)
      → tables l' a' ≡ true
      → depth l' < depth l
      → m'.table a' j ≡ m.table a' j
  pub entries :
      (l' : Level) (a' j : ℕ)
      → tables l' a' ≡ true
      → (m'.table a' j ≡ m.table a' j) ⊎ (x.is_present l' (m.table a' j) ≡ false)
  pub found : walk m' ≡ ok (done (some target), m')

-- A result of `map`: the page is there, or the address was mapped and nothing has changed since
-- `start`, or there was no frame for a table and what `start` had is back.
abbrev pub Ends :
    Paging
    → (tables0 : Level → ℕ → Bool) → (p0 : Pmm) → (start : Machine) → (Machine → Type 0)
    → Result (Outcome MapError (Unit {0}) × Machine)
    → Type 0
Ends x tables0 p0 start Goal r =
    ((m' : Machine) × (r ≡ ok (done tt, m')) × Goal m')
    ⊎ ((r ≡ ok (fail already_mapped, start))
        ⊎ ((m' : Machine) × (r ≡ ok (fail out_of_memory, m')) × IsRestored x tables0 p0 start m'))

next_depth : (l : Level) → depth l < 3 → depth l < depth (next l)
next_depth pml4 inner = omega arith
next_depth pdpt inner = omega arith
next_depth pd inner = omega arith
next_depth pt inner = absurd (omega arith)

module _ {E : Type 0} (x : Paging) (paging : IsPaging x) (tables0 : Level → ℕ → Bool) (p0 : Pmm)
    (start : Machine) (tables : Level → ℕ → Bool) (p : Pmm) (m : Machine)
    (is : IsTables x tables p m) (l : Level) (a i : ℕ) (inner : depth l < 3)
    (here : tables l a ≡ true) (clean : Clean start m a) (target : ℕ × ℕ)
    (walk : Kernel E (Option (ℕ × ℕ))) (walk_below : ℕ → Kernel E (Option (ℕ × ℕ))) where
  -- The table below is new, or nothing has changed.
  Clean-next :
      (c : ℕ) (added : Bool) (m' : Machine)
      → Entered x tables p m l a i c added m'
      → Clean start m' c
  Clean-next c added m' e = elim e.fresh [
    | inr empty ↦ inr empty
    | inl same ↦
        let present = subst (λ s. x.is_present l (s.table a i) ≡ true) same e.present in
        inl (same ∙ Clean-present x paging start m l a i clean present)
  ]

  -- How `walk` goes on in the table below, once the entry leads there.
  abbrev pub Follows : Type 0
  Follows =
      (c : ℕ) (m' : Machine)
      → x.is_present l (m'.table a i) ≡ true
      → x.is_page l (m'.table a i) ≡ false
      → x.address l (m'.table a i) ≡ c
      → (tables' : Level → ℕ → Bool) (p' : Pmm) → IsTables x tables' p' m'
      → tables' l a ≡ true
      → walk_below c m' ≡ ok (done (some target), m')
      → walk m' ≡ ok (done (some target), m')

  entries_both :
      (l' : Level) (e1 e2 e3 : ℕ)
      → (e3 ≡ e2) ⊎ (x.is_present l' e2 ≡ false)
      → (e2 ≡ e1) ⊎ (x.is_present l' e1 ≡ false)
      → (e3 ≡ e1) ⊎ (x.is_present l' e1 ≡ false)
  entries_both l' e1 e2 e3 (inl same) (inl same') = inl (same ∙ same')
  entries_both l' e1 e2 e3 (inr absent) (inl same) = inr (ap (x.is_present l') (sym same) ∙ absent)
  entries_both l' e1 e2 e3 _ (inr absent) = inr absent

  IsMapped-up :
      (c : ℕ) (added : Bool) (m' m'' : Machine) (e : Entered x tables p m l a i c added m')
      → Follows
      → IsMapped x e.tables' m' (next l) (walk_below c) target m''
      → IsMapped x tables m l walk target m''
  IsMapped-up c added m' m'' e follows mapped =
      let deeper = next_depth l inner in
      let same : m''.table a i ≡ m'.table a i = mapped.kept l a i (e.grows l a here) deeper in
      record {
        tables' = mapped.tables';
        pmm = mapped.pmm;
        is = mapped.is;
        grows = λ l' a' h. mapped.grows l' a' (e.grows l' a' h);
        kept = λ l' a' j h above.
            mapped.kept l' a' j (e.grows l' a' h) (omega (arith, deeper))
            ∙ e.kept l' a' j h (λ eq. omega arith);
        entries = λ l' a' j h.
            entries_both l' (m.table a' j) (m'.table a' j) (m''.table a' j)
              (mapped.entries l' a' j (e.grows l' a' h)) (e.entries l' a' j h);
        found =
            follows c m'' (ap (x.is_present l) same ∙ e.present) (ap (x.is_page l) same ∙ e.table)
              (ap (x.address l) same ∙ e.address) mapped.tables' mapped.pmm mapped.is
              (mapped.grows l a (e.grows l a here)) mapped.found;
      }

  -- A level of `map` ends well if the one below does, for every table that `enter` leads to.
  pub descend_lem :
      (undo : Mapping (Unit {0})) (rest : ℕ × Bool → Mapping (Unit {0}))
      → Undoes x tables0 p0 start tables p m undo
      → (x.is_present l (m.table a i) ≡ true → x.is_page l (m.table a i) ≡ false)
      → Follows
      → ((c : ℕ) (added : Bool) (m' : Machine) (e : Entered x tables p m l a i c added m')
          → Clean start m' c
          → Ends x tables0 p0 start
              (IsMapped x e.tables' m' (next l) (walk_below c) target)
              (rest (c, added) m'))
      → Ends x tables0 p0 start
          (IsMapped x tables m l walk target)
          (continue (enter x l a i undo m) rest)
  descend_lem undo rest undoes no_page follows down =
      elim (enter_lem x paging tables p m is l a i inner here undo no_page) [
        | inr none_left ↦
            let (m'', e, restored) = undoes m (IsRestored-refl x tables p m is) in
            inr (inr (m'', rw (none_left, e) refl, restored))
        | inl (c, added, m', e, entered) ↦
            rw e (elim (down c added m' entered (Clean-next c added m' entered)) [
              | inl (m'', e', mapped) ↦
                  inl (m'', e', IsMapped-up c added m' m'' entered follows mapped)
              | inr (inl unchanged) ↦ inr (inl unchanged)
              | inr (inr (m'', e', restored)) ↦ inr (inr (m'', e', restored))
            ])
      ]
