-- ===== src/Pmm/Split.antt =====
-- The inner loop of `alloc_pages` in kernel/src/mm/pmm.rs, which gives the upper halves back.
use native.Mathlib.Nat.{pow-suc, pow-le-pow_right}
use prometheos.Base.{
  ℕ, zero, suc, ◌+◌, ◌*◌, ◌%◌, ◌^◌, ◌≡◌, refl, ◌∙◌, not, if◌then◌else◌, arith, ok, add64-ok,
}
use prometheos.Base.Blocks.{aligned_lower, aligned_upper}
use prometheos.Pmm.{Pmm, split}
use prometheos.Pmm.Orders.{in_block, free_count}
use prometheos.Pmm.Valid.{IsBuddy}
use prometheos.Pmm.Push.{IsUnused}
use prometheos.Pmm.Step.{is_free, Marks, push_step}

-- After the split of a block of order `order + rounds` only its lowest part, of order `order`, is
-- in use.
pub record IsSplit (p q : Pmm) (frame order rounds : ℕ) : Type 0 where
  pub buddy : IsBuddy q
  pub aligned : frame % 2 ^ order ≡ 0
  pub freed :
      (j : ℕ)
      → is_free q j ≡ (
          if in_block frame (2 ^ (order + rounds)) j
          then not (in_block frame (2 ^ order) j)
          else is_free p j)
  pub total : q.total_frames ≡ p.total_frames
  pub free : q.free_frames ≡ p.free_frames
  pub count : free_count q.frame_order + 2 ^ order ≡ free_count p.frame_order + 2 ^ (order + rounds)

pub split_lem :
    (rounds : ℕ) (p : Pmm) (frame order : ℕ)
    → IsBuddy p
    → IsUnused p frame (order + rounds)
    → (q : Pmm) × (split rounds p frame order ≡ ok q) × IsSplit p q frame order rounds
unfolding split
split_lem zero p frame order b h =
    let e : order + 0 ≡ order = omega arith in
    (
      p,
      refl,
      record {
        buddy = b;
        aligned = rw e at h.aligned;
        freed = λ j. rw e (ground (arith, rw e at h.unused j));
        total = refl;
        free = refl;
        count = rw e;
      },
    )
split_lem (suc rounds) p frame order b h =
    let (p', e, b', m, c) = push_step p (frame + half) top b upper in
    let (q, e', s) = split_lem rounds p' frame order b' (lower p' m) in
    (
      q,
      rw (add64-ok frame half (omega (arith, b.addressable, h.fits, double)), e) e',
      record {
        buddy = s.buddy;
        aligned = s.aligned;
        freed = λ j. ground (
          arith,
          s.freed j,
          m.order j,
          double,
          h.order_in,
          pow-le-pow_right {n = 2} (omega arith) {i = order} {j = top} (omega arith),
        );
        total = s.total ∙ m.total;
        free = s.free ∙ m.free;
        count = omega (arith, s.count, c, double);
      },
    )
  where
    top : ℕ
    top = order + rounds

    half : ℕ
    half = 2 ^ top

    double : 2 ^ (order + suc rounds) ≡ 2 * half
    double =
        let e : order + suc rounds ≡ suc top = omega arith in rw e (omega (arith, pow-suc 2 top))

    aligned : frame % (2 * half) ≡ 0
    aligned = rw (← double) h.aligned

    upper : IsUnused p (frame + half) top
    upper = record {
      order_in = omega (arith, h.order_in);
      aligned = aligned_upper half frame aligned;
      fits = omega (arith, h.fits, double);
      unused = λ j lo hi. h.unused j (omega arith) (omega (arith, double));
    }

    lower : (p' : Pmm) → Marks p p' (frame + half) half top → IsUnused p' frame top
    lower p' m = record {
      order_in = omega (arith, h.order_in);
      aligned = aligned_lower half frame aligned;
      fits = omega (arith, h.fits, double, m.total);
      unused = λ j lo hi. ground (arith, m.order j, h.unused j, double);
    }
