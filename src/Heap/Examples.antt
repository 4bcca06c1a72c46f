-- ===== src/Heap/Examples.antt =====
-- The theorems about kernel/src/mm/heap.rs at concrete layouts, and on heaps with few slabs.
use prometheos.Base.{
  ◌≡◌, refl, arith, some, none, [], ◌∷◌, ok, replicate, ◌==◌, ◌||◌, if◌then◌else◌, is_some,
}
use prometheos.Base.Words.{trailing_zeros, bit_length_from}
use prometheos.Heap.Sizes.{next_power_of_two, Layout, bucket_for, order_for_large}
use prometheos.Heap.Slabs.{Heap, alloc_small, dealloc_small, slab_of, is_target}
use prometheos.Heap.Layouts.{FitsBucket, FitsOrder, bucket_for_lem, order_for_large_lem}
use prometheos.Heap.Objects.{object}
use prometheos.Heap.Geometry.{slab_of-object}
use prometheos.Heap.Free.{IsReturned, dealloc_small_lem}
use prometheos.Heap.Buckets.{IsBucket, dealloc_small-IsBucket}
use prometheos.Heap.Served.{Answer}
use prometheos.Heap.Serving.{IsServing, bucket_for-IsServing}
use prometheos.Heap.Large.{LargeAnswer, alloc-LargeAnswer}
use prometheos.Heap.Small.{alloc_small_lem}
use prometheos.Pmm.Examples.{empty, empty-IsValid}

abbrev word : Layout
word = record { size = 24; align = 8 }

abbrev pages : Layout
pages = record { size = 10000; align = 4096 }

bucket_for_lem_example : FitsBucket word (bucket_for word)
bucket_for_lem_example = bucket_for_lem word

order_for_large_lem_example : FitsOrder pages (order_for_large pages)
order_for_large_lem_example = order_for_large_lem pages (omega arith) (omega arith) (omega arith)

slab_of-object_example : slab_of (object 0x10000 2 5) ≡ 0x10000
slab_of-object_example = slab_of-object 0x10000 2 5 (omega arith) (omega arith) refl (omega arith)

abbrev blank : Heap
blank = record {
  active = replicate 7 none;
  partial = replicate 7 none;
  slab_next = λ a. none;
  slab_free = λ a. none;
  obj_next = λ a. none;
  pmm = none;
  hhdm = 0;
}

-- A heap whose first bucket has an active slab with a free object.
abbrev serving : Heap
serving = record blank {
  active = some 0x10000 ∷ replicate 6 none;
  slab_free = λ a. if a == 0x10000 then some 0x10400 else none;
  obj_next = λ a. none;
}

serving-IsBucket : IsBucket serving 0 []
serving-IsBucket = record {
  active_known = omega arith;
  partial_known = omega arith;
  listed = refl;
  stocked = tt;
  distinct = tt;
  idle = tt;
}

dealloc_small-IsBucket_example :
    (h' : Heap) × (dealloc_small serving 0 0x20000 0x20400 ≡ ok h')
    × IsBucket h' 0 (
        if is_target (some 0x10000) 0x20000 || is_some (serving.slab_free 0x20000)
        then []
        else 0x20000 ∷ [])
dealloc_small-IsBucket_example =
    dealloc_small-IsBucket serving 0 0x20000 0x20400 [] serving-IsBucket

-- A heap whose first bucket has a full active slab and a partial one.
abbrev waiting : Heap
waiting = record serving {
  partial = some 0x20000 ∷ replicate 6 none;
  slab_free = λ a. if a == 0x20000 then some 0x20400 else none;
  pmm = some empty;
}

waiting-IsBucket : IsBucket waiting 0 (0x20000 ∷ [])
waiting-IsBucket = record {
  active_known = omega arith;
  partial_known = omega arith;
  listed = (refl, refl);
  stocked = (refl, tt);
  distinct = (tt, tt);
  idle = (λ e. ground (arith, e), tt);
}

alloc_small_lem_example : Answer waiting empty 0 (0x20000 ∷ []) (alloc_small waiting 0)
alloc_small_lem_example =
    alloc_small_lem waiting empty 0 (0x20000 ∷ []) waiting-IsBucket (omega arith) refl empty-IsValid
      (omega arith)

-- A full slab takes an object back.
dealloc_small_lem_example :
    (h' : Heap) × (dealloc_small blank 6 0x10000 0x10400 ≡ ok h')
    × IsReturned blank 6 0x10000 (omega arith) 0x10400 [] h'
dealloc_small_lem_example =
    dealloc_small_lem blank 6 0x10000 (omega arith) (omega arith) 0x10400 [] refl tt

word_bucket : bucket_for word ≡ some 1
unfolding bucket_for next_power_of_two trailing_zeros bit_length_from
word_bucket = refl

bucket_for-IsServing_example : IsServing word 0x10000 1 5
bucket_for-IsServing_example =
    bucket_for-IsServing word 3 1 0x10000 5 refl word_bucket refl (omega arith)

no_bucket : bucket_for pages ≡ none
unfolding bucket_for
no_bucket = refl

alloc-LargeAnswer_example :
    LargeAnswer waiting empty pages no_bucket refl empty-IsValid (omega arith)
alloc-LargeAnswer_example =
    alloc-LargeAnswer waiting empty pages no_bucket refl empty-IsValid (omega arith) (omega arith)
      (omega arith) (omega arith)
