-- ===== src/Vmm/Frames.antt =====
-- Frames for tables in kernel/src/mm/vmm.rs: `alloc_frame` and `free_frame` on the machine.
use prometheos.Base.{
  ℕ, ◌*◌, ◌<◌, ◌≡◌, refl, sym, ap, ◌∙◌, arith, Option, none, some, ◌⊎◌, inl, inr, ok, false,
}
use prometheos.Base.Exec.{done}
use prometheos.Pmm.{Pmm, alloc_pages, frame_size}
use prometheos.Pmm.Valid.{IsValid}
use prometheos.Pmm.Step.{is_free}
use prometheos.Pmm.Alloc.{IsAlloc, AllocPost, alloc_pages_lem}
use prometheos.Pmm.Free.{IsFreed, free_pages-frees}
use prometheos.Pmm.Push.{IsUnused}
use prometheos.Pmm.Static
use prometheos.Vmm.Machine.{Machine, alloc_frame, free_frame}

module _ {E : Type 0} (m : Machine) (p : Pmm) (installed : m.pmm ≡ some p) (v : IsValid p) where
  -- There is a frame, or nothing happens.
  pub alloc_frame_lem :
      (alloc_frame {E = E} m ≡ ok (done none, m))
      ⊎ ((a : ℕ) × (q : Pmm) × (alloc_frame {E = E} m
            ≡ ok (done (some a), record m { pmm = some q }))
          × IsAlloc p q 0 a)
  unfolding alloc_frame Static.alloc_frame
  alloc_frame_lem =
      let ((found, q), e, post) = alloc_pages_lem p 0 v (omega arith) in by_result found q e post
    where
      by_result :
          (found : Option ℕ) (q : Pmm)
          → alloc_pages p 0 ≡ ok (found, q)
          → AllocPost p 0 found q
          → (alloc_frame {E = E} m ≡ ok (done none, m))
            ⊎ ((a : ℕ) × (q : Pmm) × (alloc_frame {E = E} m
                  ≡ ok (done (some a), record m { pmm = some q }))
                × IsAlloc p q 0 a)
      by_result none q e (same, _) =
          let whole : some q ≡ m.pmm = ap some same ∙ sym installed in
          inl (simp (installed, e) (ap (λ s. ok (done none, record m { pmm = s })) whole))
      by_result (some a) q e post = inr (a, q, simp (installed, e) refl, post)

  pub free_frame_lem :
      (f : ℕ)
      → f < p.total_frames
      → is_free p f ≡ false
      → (q : Pmm) × (free_frame {E = E} (f * frame_size) m
          ≡ ok (done tt, record m { pmm = some q }))
        × IsFreed p q f 0
  unfolding free_frame Static.free_frame
  free_frame_lem f fits used =
      let unused : IsUnused p f 0 = record {
        order_in = omega arith;
        aligned = omega arith;
        fits = omega arith;
        unused = λ j lo hi. let same : j ≡ f = omega arith in rw same (ground arith);
      } in
      let (q, e, freed) = free_pages-frees p v f 0 unused in (q, simp (installed, e) refl, freed)
