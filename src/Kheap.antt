-- ===== src/Kheap.antt =====
-- kernel/kheap.c: the kernel heap, a boundary-tag allocator with a doubly linked list of free blocks.
--
-- The memory is one function from the addresses of 32-bit words, which are multiples of 4, to their
-- values, so that headers, footers and links can alias. The heap lies below 2^32, where the arithmetic
-- on addresses does not wrap; the arithmetic on requested sizes can, and its wrap-around is written out.
pub mod Blocks
pub mod Chain
pub mod Valid
pub mod Remove
pub mod Insert
pub mod Replace
pub mod Fit
pub mod Allocate
pub mod Malloc
pub mod Merge
pub mod Neighbors
pub mod Previous
pub mod Release
pub mod Setup
pub mod Held
pub mod Live
pub mod Clients
pub mod Resize
pub mod Service
mod Examples
use deanos.Prelude.{
  ℕ, ◌-◌, if◌then◌else◌, Option, ◌+◌, none, Bool, some, ◌%◌, suc, ◌==◌, ◌/◌, leb, true, ltb, not,
  ◌^◌, ◌*◌, ◌&&◌, zero,
}

abbrev pub Words : Type 0
Words = ℕ → ℕ

abbrev pub store : Words → (a v : ℕ) → Words
store m a v w = if w == a then v else m w

-- g_free_head is the address of the first node, 0 for NULL.
pub record Heap : Type 0 where
  pub mem : Words
  pub heap_base : ℕ
  pub heap_end : ℕ
  pub free_head : ℕ
  pub initialized : Bool

-- `ALIGN8(x)` on a size_t
abbrev pub align8 : ℕ → ℕ
align8 x = (x + 7) % 2 ^ 32 / 8 * 8

-- Without the flag, which is the lowest bit.
abbrev pub size_of : ℕ → ℕ
size_of tag = tag - tag % 2

abbrev pub blk_size : Words → ℕ → ℕ
blk_size m h = size_of (m h)

abbrev pub blk_alloc : Words → ℕ → Bool
blk_alloc m h = m h % 2 == 1

abbrev pub blk_footer : Words → ℕ → ℕ
blk_footer m h = h + blk_size m h - 4

-- `blk_footer(h)->size_and_flags = h->size_and_flags;`
abbrev pub mirror : Words → ℕ → Words
mirror m h = store m (blk_footer m h) (m h)

-- `none` is NULL.
abbrev pub blk_next : Heap → ℕ → Option ℕ
blk_next s h = if leb s.heap_end (h + blk_size s.mem h) then none else some (h + blk_size s.mem h)

abbrev pub blk_prev : Heap → ℕ → Option ℕ
blk_prev s h =
    let psz = size_of (s.mem (h - 4)) in
    let p = if leb psz h then h - psz else h + 2 ^ 32 - psz in
    if leb h s.heap_base
    then none
    else if ltb (h - 4) s.heap_base
    then none
    else if ltb p s.heap_base
    then none
    else some p

abbrev pub min_block_size : ℕ
min_block_size = 16

-- The links of a free block stand behind its header: `prev` at h + 4, `next` at h + 8. A link holds the
-- address of a node, which is 4 above its header.
unfoldable pub free_list_insert : ℕ → Heap → Heap
free_list_insert h s =
    let marked = store s.mem h (blk_size s.mem h) in
    let mirrored = mirror marked h in
    let linked = store (store mirrored (h + 4) 0) (h + 8) s.free_head in
    let m = if s.free_head == 0 then linked else store linked s.free_head (h + 4) in
    record s { mem = m; free_head = h + 4 }

unfoldable pub free_list_remove : ℕ → Heap → Heap
free_list_remove h s =
    let prev = s.mem (h + 4) in
    let next = s.mem (h + 8) in
    let m = if prev == 0 then s.mem else store s.mem (prev + 4) next in
    let head = if prev == 0 then next else s.free_head in
    let next' = m (h + 8) in
    let m' = if next' == 0 then m else store m next' (m (h + 4)) in
    record s { mem = m'; free_head = head }

-- The loop of `find_fit`; there are at most as many free blocks as blocks of the smallest size.
unfoldable pub find_from : ℕ → Words → (cur total : ℕ) → Option ℕ
find_from zero m cur total = none
find_from (suc fuel) m cur total =
    let h = cur - 4 in
    let rest = find_from fuel m (m (cur + 4)) total in
    if cur == 0
    then none
    else if not (blk_alloc m h) && leb total (blk_size m h)
    then some h
    else rest

unfoldable pub find_fit : ℕ → Heap → Option ℕ
unfolding find_from
find_fit total s =
    find_from ((s.heap_end - s.heap_base) / min_block_size + 1) s.mem s.free_head total

-- The header and the footer of a free block of `size` bytes.
abbrev pub put_free : ℕ → ℕ → Words → Words
put_free h size m = mirror (store m h size) h

-- `coalesce_neighbors`, first the next block and then the previous one.
unfoldable pub merge_next : ℕ → Heap → Heap
merge_next h s = elim (blk_next s h) as (λ _. Heap) [
  | none ↦ s
  | some n ↦
      let s' = free_list_remove n s in
      if blk_alloc s.mem n
      then s
      else record s' { mem = put_free h (blk_size s'.mem h + blk_size s'.mem n) s'.mem }
]

-- The block that is merged, and the heap.
unfoldable pub merge_prev : ℕ → Heap → ℕ × Heap
merge_prev h s = elim (blk_prev s h) as (λ _. ℕ × Heap) [
  | none ↦ (h, s)
  | some p ↦
      let s' = free_list_remove p s in
      if blk_alloc s.mem p
      then (h, s)
      else (p, record s' { mem = put_free p (blk_size s'.mem p + blk_size s'.mem h) s'.mem })
]

unfoldable pub coalesce_neighbors : ℕ → Heap → ℕ × Heap
coalesce_neighbors h s = merge_prev h (merge_next h s)

-- KHEAP_BASE and KHEAP_SIZE of kernel/paging.c
abbrev pub paging_heap_base : ℕ
paging_heap_base = 1073741824

abbrev pub paging_heap_size : ℕ
paging_heap_size = 4194304

-- `kheap_initialize` on a heap with the given place.
unfoldable pub initialize_at : (base size : ℕ) → Heap → Heap
initialize_at base size s =
    if s.initialized
    then s
    else record (free_list_insert base (record s {
      mem = put_free base (size_of (align8 size)) s.mem;
      heap_base = base;
      heap_end = base + size;
      free_head = 0;
    })) { initialized = true }

unfoldable pub kheap_initialize : Heap → Heap
kheap_initialize s = initialize_at paging_heap_base paging_heap_size s

-- The size of the block for a request.
abbrev pub block_size_for : ℕ → ℕ
block_size_for size =
    let total = (align8 size + 8) % 2 ^ 32 in
    if ltb total min_block_size then min_block_size else total

-- What `kmalloc` does with the block `h` that fits, after it was taken off the free list.
unfoldable pub take_block : (total h : ℕ) → Heap → Heap
take_block total h s =
    let size = blk_size s.mem h in
    let rem = if ltb total size then size - total else 0 in
    let front = mirror (store s.mem h (total + 1)) h in
    let split = free_list_insert (h + total) (record s { mem = put_free (h + total) rem front }) in
    let whole = record s { mem = mirror (store s.mem h (size + 1)) h } in
    if leb min_block_size rem then split else whole

-- `kmalloc` on a heap that is set up, for a size that is not 0; 0 is NULL.
unfoldable pub allocate : ℕ → Heap → ℕ × Heap
allocate size s = elim (find_fit (block_size_for size) s) as (λ _. ℕ × Heap) [
  | none ↦ (0, s)
  | some h ↦ (h + 4, take_block (block_size_for size) h (free_list_remove h s))
]

unfoldable pub kmalloc : (size : ℕ) → Heap → ℕ × Heap
kmalloc size s =
    let s' = if s.initialized then s else kheap_initialize s in
    if size == 0 then (0, s) else allocate size s'

unfoldable pub kfree : (ptr : ℕ) → Heap → Heap
kfree ptr s =
    let h = ptr - 4 in
    let marked = record s { mem = mirror (store s.mem h (blk_size s.mem h)) h } in
    let merged = coalesce_neighbors h marked in
    if ptr == 0 then s else if not s.initialized then s else free_list_insert merged.0 merged.1

-- `memset(p, 0, n)` on little-endian words, for a `p` that is a multiple of 4. The last word can keep its
-- upper bytes.
abbrev pub zero_bytes : (p n : ℕ) → Words → Words
zero_bytes p n m w =
    let upper = 2 ^ (8 * (p + n - w)) in
    if leb p w && ltb w (p + n)
    then (if leb (w + 4) (p + n) then 0 else m w / upper * upper)
    else m w

-- `memcpy(dst, src, n)` for multiples of 4 and memory that does not overlap.
abbrev pub copy_words : (dst src n : ℕ) → Words → Words
copy_words dst src n m w = if leb dst w && ltb w (dst + n) then m (src + (w - dst)) else m w

unfoldable pub kcalloc : (nmemb size : ℕ) → Heap → ℕ × Heap
kcalloc nmemb size s =
    let total = nmemb * size % 2 ^ 32 in
    let (p, s') = kmalloc total s in
    if not (nmemb == 0) && ltb ((2 ^ 32 - 1) / nmemb) size
    then (0, s)
    else if p == 0
    then (0, s')
    else (p, record s' { mem = zero_bytes p total s'.mem })

-- What `krealloc` does when the block is too small.
unfoldable pub grow : (ptr old_payload new_size : ℕ) → Heap → ℕ × Heap
grow ptr old_payload new_size s =
    let (np, s') = kmalloc new_size s in
    if np == 0
    then (0, s')
    else (np, kfree ptr (record s' { mem = copy_words np ptr old_payload s'.mem }))

unfoldable pub krealloc : (ptr new_size : ℕ) → Heap → ℕ × Heap
krealloc ptr new_size s =
    let old_payload = blk_size s.mem (ptr - 4) - 8 in
    if ptr == 0
    then kmalloc new_size s
    else if new_size == 0
    then (0, kfree ptr s)
    else if leb new_size old_payload
    then (ptr, s)
    else grow ptr old_payload new_size s
