-- ===== src/Kheap/Service.antt =====
-- What clients of the heap of kernel/kheap.c can rely on.
use deanos.Kheap.Remove.{store_ne}
use deanos.Kheap.{Heap, paging_heap_base, paging_heap_size, krealloc, store}
use deanos.Prelude.{
  List, ℕ, ◌++◌, ◌∷◌, ◌+◌, ◌≤◌, ◌⊎◌, ◌^◌, ◌<◌, false, [], ◌≢◌, arith, ◌≡◌, Bool-cases, ltb, inl,
  inr,
}
use deanos.Kheap.Live.{
  Runs, ServesAll, started, times-append, needs-append, requested, returned, zeroed, resized,
  written,
}
use deanos.Kheap.Setup.{kheap_initialize-IsSound}
use deanos.Kheap.Held.{held, held-within, held_apart}
use deanos.Kheap.Resize.{krealloc_content, serve_zeroed, serve_resized}
use deanos.Kheap.Clients.{serve_requested, serve_returned, serve_written}
use deanos.Kheap.Remove.{store_ne}

pub Runs-ServesAll :
    (s : Heap) (live : List (ℕ × ℕ))
    → Runs s live
    → ServesAll paging_heap_base (paging_heap_base + paging_heap_size) s live
Runs-ServesAll _ _ (started s fresh) = record {
  blocks = record { size = paging_heap_size; used = false } ∷ [];
  sound = kheap_initialize-IsSound s fresh;
  once = λ p. omega arith;
  enough = λ p. omega arith;
}
Runs-ServesAll _ _ (requested s live size r no_wrap) =
    serve_requested paging_heap_base (paging_heap_base + paging_heap_size) size s live no_wrap
      (Runs-ServesAll s live r)
Runs-ServesAll _ _ (returned s newer p size older r) =
    serve_returned paging_heap_base (paging_heap_base + paging_heap_size) s newer p size older
      (Runs-ServesAll s (newer ++ ((p, size) ∷ older)) r)
Runs-ServesAll _ _ (zeroed s live nmemb size r no_wrap) =
    serve_zeroed paging_heap_base (paging_heap_base + paging_heap_size) nmemb size s live no_wrap
      (Runs-ServesAll s live r)
Runs-ServesAll _ _ (resized s newer p size older new_size r no_wrap) =
    serve_resized paging_heap_base (paging_heap_base + paging_heap_size) s newer p size older
      (Runs-ServesAll s (newer ++ ((p, size) ∷ older)) r) new_size no_wrap
Runs-ServesAll _ _ (written s newer p size older w value r le lt) =
    serve_written paging_heap_base (paging_heap_base + paging_heap_size) s newer p size older
      (Runs-ServesAll s (newer ++ ((p, size) ∷ older)) r) (store s.mem w value)
      (λ k out. store_ne s.mem w value k (λ same. absurd (ground (arith, out, same, le, lt))))

-- After any sequence of kmalloc, kcalloc and krealloc calls for at most 2^32 - 16 bytes, of kfree calls,
-- these and krealloc with live pointers, and of writes to live memory, on a heap that kheap_initialize
-- set up: for two live pointers p and q with the sizes n and k, no byte of the n bytes at p is one of the k bytes at q, and the n bytes at p
-- lie in the region of the heap.
pub Runs-apart :
    (s : Heap) (newer : List (ℕ × ℕ)) (p n : ℕ) (between : List (ℕ × ℕ)) (q k : ℕ)
    (older : List (ℕ × ℕ))
    → Runs s (newer ++ ((p, n) ∷ (between ++ ((q, k) ∷ older))))
    → ((p + n ≤ q) ⊎ (q + k ≤ p))
      × (paging_heap_base < p)
      × (p + n < paging_heap_base + paging_heap_size)
Runs-apart s newer p n between q k older r =
    let e = paging_heap_base + paging_heap_size in
    let v = Runs-ServesAll s (newer ++ ((p, n) ∷ (between ++ ((q, k) ∷ older)))) r in
    let tiles = v.sound.valid.tiles in
    let one = v.once p in
    let p_times = times-append p newer ((p, n) ∷ (between ++ ((q, k) ∷ older))) in
    let p_later = times-append p between ((q, k) ∷ older) in
    let p_needs = needs-append p newer ((p, n) ∷ (between ++ ((q, k) ∷ older))) in
    let q_needs = needs-append q newer ((p, n) ∷ (between ++ ((q, k) ∷ older))) in
    let q_later = needs-append q between ((q, k) ∷ older) in
    let p_enough = v.enough p in
    let q_enough = v.enough q in
    let p_room : n + 8 ≤ held p paging_heap_base v.blocks = ground (arith, p_needs, p_enough) in
    let q_room : k + 8 ≤ held q paging_heap_base v.blocks =
      ground (arith, q_needs, q_later, q_enough) in
    let apart : p ≢ q = λ same. absurd (ground (arith, one, p_times, p_later, same)) in
    let within = held-within s.mem p paging_heap_base v.blocks e tiles (omega (arith, p_room)) in
    let sides : (p + n ≤ q) ⊎ (q + k ≤ p) = elim (Bool-cases (ltb p q)) [
      | inl less ↦
          let end =
            held_apart s.mem p q paging_heap_base v.blocks e tiles (omega (arith, p_room))
              (omega (arith, q_room)) (ground (arith, less)) in
          inl (omega (arith, end, p_room))
      | inr more ↦
          let end =
            held_apart s.mem q p paging_heap_base v.blocks e tiles (omega (arith, q_room))
              (omega (arith, p_room)) (ground (arith, more, apart)) in
          inr (omega (arith, end, q_room))
    ] in
    (sides, omega (arith, within.0), omega (arith, within.1, p_room))

-- When krealloc of a live pointer to a size of at most 2^32 - 16 does not answer NULL, each of the old
-- words that has its place in the old size is at the same offset of the new memory.
pub krealloc-Runs :
    (s : Heap) (newer : List (ℕ × ℕ)) (p size : ℕ) (older : List (ℕ × ℕ)) (new_size w : ℕ)
    → Runs s (newer ++ ((p, size) ∷ older))
    → new_size + 16 ≤ 2 ^ 32
    → w < size
    → (krealloc p new_size s).0 ≢ 0
    → (krealloc p new_size s).1.mem ((krealloc p new_size s).0 + w) ≡ s.mem (p + w)
krealloc-Runs s newer p size older new_size w r no_wrap lt given =
    krealloc_content paging_heap_base (paging_heap_base + paging_heap_size) s newer p size older
      (Runs-ServesAll s (newer ++ ((p, size) ∷ older)) r) new_size no_wrap w lt given
