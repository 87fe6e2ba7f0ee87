-- ===== src/Kheap/Examples.antt =====
-- The theorems about the heap of kernel/kheap.c on small heaps.
use deanos.Kheap.Blocks.{Block}
use deanos.Kheap.Malloc.{MallocOutcome, IsSound, kmalloc-MallocOutcome}
use deanos.Kheap.Release.{Freed, kfree-Freed}
use deanos.Kheap.{
  Words, kfree, Heap, kmalloc, allocate, coalesce_neighbors, store, kheap_initialize, merge_next,
  find_fit, merge_prev, find_from, initialize_at, free_list_remove, free_list_insert, take_block,
  paging_heap_base, paging_heap_size, kcalloc, krealloc, grow,
}
use deanos.Prelude.{false, true, ◌∷◌, [], arith, refl, ◌≡◌, ◌+◌, ◌≤◌, ◌⊎◌, ◌<◌}
use deanos.Kheap.Live.{Runs, requested, started}
use deanos.Kheap.Service.{Runs-apart, krealloc-Runs}

-- A block in use of 16 bytes at 8, and a free one of 32 bytes behind it.
abbrev small_words : Words
small_words = store (store (store (store (λ w. 0) 8 17) 20 17) 24 32) 52 32

abbrev small_heap : Heap
small_heap = record {
  mem = small_words;
  heap_base = 8;
  heap_end = 56;
  free_head = 28;
  initialized = true;
}

abbrev in_use_block : Block
in_use_block = record { size = 16; used = true }

abbrev free_block : Block
free_block = record { size = 32; used = false }

small_heap-IsSound : IsSound 8 56 small_heap (in_use_block ∷ free_block ∷ [])
small_heap-IsSound = record {
  listed = 24 ∷ [];
  valid = record {
    base_is = refl;
    end_is = refl;
    ready = refl;
    low = omega arith;
    based = refl;
    tiles = (
      record { header = refl; footer = refl; aligned = refl; large = omega arith },
      (record { header = refl; footer = refl; aligned = refl; large = omega arith }, refl),
    );
    chain = (refl, refl, refl);
    complete = λ h. ground arith;
  };
  merged = refl;
}

kmalloc_cuts : (kmalloc 8 small_heap).0 ≡ 28
unfolding kmalloc allocate find_fit find_from
kmalloc_cuts = refl

kmalloc-MallocOutcome_example :
    MallocOutcome 8 56 8 (in_use_block ∷ free_block ∷ []) small_heap (kmalloc 8 small_heap)
kmalloc-MallocOutcome_example =
    kmalloc-MallocOutcome 8 56 8 (in_use_block ∷ free_block ∷ []) small_heap
      (record { not_zero = ground arith; no_wrap = omega arith }) small_heap-IsSound

kfree_joins : ((kfree 12 small_heap).mem 8 ≡ 48) × ((kfree 12 small_heap).free_head ≡ 12)
unfolding kfree coalesce_neighbors merge_next merge_prev free_list_remove free_list_insert
kfree_joins = (refl, refl)

kfree-Freed_example : Freed 8 56 [] in_use_block (free_block ∷ []) small_heap (kfree 12 small_heap)
kfree-Freed_example =
    kfree-Freed 8 56 small_heap [] in_use_block (free_block ∷ []) refl small_heap-IsSound

-- Two calls on a heap that was just set up.
abbrev unset : Heap
unset = record { mem = λ w. 0; heap_base = 0; heap_end = 0; free_head = 0; initialized = false }

abbrev one_call : Heap
one_call = (kmalloc 100 (kheap_initialize unset)).1

first_pointer : (kmalloc 100 (kheap_initialize unset)).0 ≡ 1073741828
unfolding kmalloc allocate find_fit find_from kheap_initialize initialize_at free_list_insert
first_pointer = refl

second_pointer : (kmalloc 20 one_call).0 ≡ 1073741940
unfolding kmalloc allocate find_fit find_from kheap_initialize initialize_at free_list_insert
    take_block free_list_remove
second_pointer = refl

two_calls : Runs (kmalloc 20 one_call).1 ((1073741940, 20) ∷ (1073741828, 100) ∷ [])
unfolding kmalloc allocate find_fit find_from kheap_initialize initialize_at free_list_insert
    take_block free_list_remove
two_calls =
    requested one_call ((1073741828, 100) ∷ []) 20
      (requested (kheap_initialize unset) [] 100 (started unset refl) (omega arith)) (omega arith)

Runs-apart_example :
    ((1073741940 + 20 ≤ 1073741828) ⊎ (1073741828 + 100 ≤ 1073741940))
    × (paging_heap_base < 1073741940)
    × (1073741940 + 20 < paging_heap_base + paging_heap_size)
Runs-apart_example =
    Runs-apart (kmalloc 20 one_call).1 [] 1073741940 20 [] 1073741828 100 [] two_calls

abbrev two_called : Heap
two_called = (kmalloc 20 one_call).1

moved_pointer : (krealloc 1073741828 200 two_called).0 ≡ 1073741972
unfolding krealloc grow kmalloc allocate find_fit find_from kheap_initialize initialize_at
    free_list_insert take_block free_list_remove
moved_pointer = refl

krealloc-Runs_example :
    (krealloc 1073741828 200 two_called).1.mem ((krealloc 1073741828 200 two_called).0 + 40)
    ≡ two_called.mem (1073741828 + 40)
krealloc-Runs_example =
    krealloc-Runs two_called ((1073741940, 20) ∷ []) 1073741828 100 [] 200 40 two_calls
      (omega arith) (omega arith) (ground (arith, moved_pointer))

zeroed_pointer : (kcalloc 4 5 two_called).0 ≡ 1073741972
unfolding kcalloc kmalloc allocate find_fit find_from kheap_initialize initialize_at
    free_list_insert take_block free_list_remove
zeroed_pointer = refl

kcalloc_overflows : (kcalloc 65536 65536 two_called).0 ≡ 0
unfolding kcalloc kmalloc
kcalloc_overflows = refl

-- Nearly 4 GiB: the sizes wrap.
wrapped_request : (kmalloc 4294967295 small_heap).0 ≡ 28
unfolding kmalloc allocate find_fit find_from
wrapped_request = refl
