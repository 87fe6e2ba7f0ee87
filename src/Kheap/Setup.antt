-- ===== src/Kheap/Setup.antt =====
-- `kheap_initialize` of kernel/kheap.c makes a sound heap.
use deanos.Kheap.{
  kheap_initialize, Heap, initialize_at, put_free, free_list_insert, paging_heap_base, size_of,
  align8, paging_heap_size,
}
use deanos.Prelude.{
  ℕ, ◌≤◌, ◌≡◌, ◌%◌, List, false, ◌+◌, if◌then◌else◌, true, ◌∷◌, [], ◌==◌, arith, refl,
}
use deanos.Kheap.Valid.{IsHeap}
use deanos.Kheap.Blocks.{Block}
use deanos.Kheap.Malloc.{IsSound}
use deanos.Kheap.Insert.{free_list_insert-Listed}
use deanos.Kheap.Replace.{mirror-Tagged, Tagged-IsBlock}

module _ (a n : ℕ) (low : 8 ≤ a) (based : a % 8 ≡ 0) (aligned : n % 8 ≡ 0) (large : 16 ≤ n)
    (s : Heap) where
  abbrev pub free_row : List Block
  free_row = record { size = n; used = false } ∷ []

  set_up : Heap
  set_up = record {
    mem = put_free a n s.mem;
    heap_base = a;
    heap_end = a + n;
    free_head = 0;
    initialized = true;
  }

  set_up-IsHeap : IsHeap a (a + n) (λ g. (if a == g then 1 else 0) + 0) set_up free_row []
  unfolding set_up
  set_up-IsHeap =
      let t = mirror-Tagged s.mem a n n (omega (arith, aligned)) (omega (arith, large)) in
      record {
        base_is = refl;
        end_is = refl;
        ready = refl;
        low = low;
        based = based;
        tiles = (
          Tagged-IsBlock s.mem (put_free a n s.mem) a (record { size = n; used = false }) t aligned
              large,
          refl,
        );
        chain = refl;
        complete = λ g. ground arith;
      }

  pub initialize_at-IsSound :
      size_of (align8 n) ≡ n
      → s.initialized ≡ false
      → IsSound a (a + n) (initialize_at a n s) free_row
  unfolding initialize_at set_up free_list_insert
  initialize_at-IsSound same fresh =
      let put = free_list_insert-Listed a (a + n) (λ g. 0) a set_up free_row [] set_up-IsHeap in
      rw (fresh, same) (record { listed = a ∷ []; valid = put.valid; merged = refl })

-- All of the memory is one free block after `kheap_initialize`.
pub kheap_initialize-IsSound :
    (s : Heap)
    → s.initialized ≡ false
    → IsSound paging_heap_base
        (paging_heap_base + paging_heap_size)
        (kheap_initialize s)
        (record { size = paging_heap_size; used = false } ∷ [])
unfolding kheap_initialize
kheap_initialize-IsSound s fresh =
    initialize_at-IsSound paging_heap_base paging_heap_size (omega arith) refl refl (omega arith) s
      refl fresh
