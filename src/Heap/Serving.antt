-- ===== src/Heap/Serving.antt =====
-- The objects that kernel/src/mm/heap.rs cuts from a frame serve the layouts of their bucket.
use native.Mathlib.Nat.{
  dvd_trans, dvd-add, dvd-mul_left, dvd-mul_right, dvd_refl, pow-le-pow_right, one-le-pow,
  dvd_of_mod-eq-zero, mod-eq-zero_of_dvd, pow-suc,
}
use prometheos.Base.{
  ℕ, zero, suc, ◌+◌, ◌-◌, ◌/◌, ◌%◌, ◌^◌, ◌<◌, ◌≤◌, ◌≡◌, refl, subst, arith, some, Bool-cases, inl,
  inr, ltb,
}
use prometheos.Heap.Sizes.{Layout, obj_size, bucket_for}
use prometheos.Heap.Slabs.{object_count, header_size}
use prometheos.Heap.Layouts.{FitsBucket, bucket_for_lem}
use prometheos.Heap.Objects.{object}
use prometheos.Heap.Geometry.{object-fits, object-apart}

pow-mod : (m n : ℕ) → m ≤ n → 2 ^ n % 2 ^ m ≡ 0
pow-mod m zero h = let e : m ≡ 0 = omega arith in rw e refl
pow-mod m (suc n) h = elim (Bool-cases (ltb n m)) [
  | inl same ↦
      let e : m ≡ suc n = ground arith in
      rw e (mod-eq-zero_of_dvd (2 ^ suc n) (dvd_refl (2 ^ suc n)))
  | inr more ↦
      let below = dvd_of_mod-eq-zero (2 ^ m) (pow-mod m n (ground arith)) in
      rw (pow-suc 2 n)
        (mod-eq-zero_of_dvd (2 ^ m) (dvd_trans (2 ^ m) below (dvd-mul_right (2 ^ n) 2)))
]

-- What a layout's block gets: it is aligned, within the frame at `base` and behind the header, and ends
-- before the objects after it.
pub record IsServing (layout : Layout) (base bucket i : ℕ) : Type 0 where
  pub aligned : object base bucket i % layout.align ≡ 0
  pub behind : base + header_size ≤ object base bucket i
  pub within : object base bucket i + layout.size ≤ base + 4096
  pub apart : (j : ℕ) → i < j → object base bucket i + layout.size ≤ object base bucket j

-- For a layout whose alignment is a power of two, every object of a slab of the bucket that
-- `bucket_for` chooses, in a frame, is aligned as the layout asks; the layout's size from there on lies
-- within the frame, behind the slab's header, and before the later objects.
pub bucket_for-IsServing :
    (layout : Layout) (k bucket base i : ℕ)
    → layout.align ≡ 2 ^ k
    → bucket_for layout ≡ some bucket
    → base % 4096 ≡ 0
    → i < object_count bucket
    → IsServing layout base bucket i
bucket_for-IsServing layout k bucket base i power chosen whole counted =
    let fits : FitsBucket layout (some bucket) =
      subst (FitsBucket layout) chosen (bucket_for_lem layout) in
    let (known, size, align, _) = fits in
    let (behind, within) = object-fits base bucket i known counted in
    let large : k ≤ 4 + bucket = elim (Bool-cases (ltb (4 + bucket) k)) [
      | inl over ↦
          let grown =
            pow-le-pow_right {n = 2} (omega arith) {i = suc (4 + bucket)} {j = k} (ground arith) in
          let double = pow-suc 2 (4 + bucket) in
          let pos = one-le-pow (4 + bucket) 2 (omega arith) in
          absurd (omega (arith, grown, double, pos, power, align))
      | inr in_range ↦ ground arith
    ] in
    let unit = dvd_of_mod-eq-zero (2 ^ k) (pow-mod k (4 + bucket) large) in
    let frame =
      dvd_trans (2 ^ k) (dvd_of_mod-eq-zero (2 ^ k) (pow-mod k 12 (omega arith)))
        (dvd_of_mod-eq-zero 4096 whole) in
    let offset =
      dvd_trans (2 ^ k) unit
        (dvd-mul_left (obj_size bucket) ((header_size + obj_size bucket - 1) / obj_size bucket)) in
    let index = dvd_trans (2 ^ k) unit (dvd-mul_left (obj_size bucket) i) in
    record {
      aligned =
          rw power
            (mod-eq-zero_of_dvd (2 ^ k) (dvd-add (2 ^ k) (dvd-add (2 ^ k) frame offset) index));
      behind = behind;
      within = omega (arith, within, size);
      apart = λ j later. omega (arith, object-apart base bucket i j later, size);
    }
