-- ===== src/Kheap/Malloc.antt =====
-- `kmalloc` of kernel/kheap.c on a sound heap.
use deanos.Prelude.{
  ℕ, Bool, List, ◌+◌, ◌≢◌, false, ◌≤◌, ◌++◌, Option, true, ◌∷◌, ◌≡◌, arith, ◌^◌, ◌||◌, [], ◌<◌,
  ◌&&◌, none, ◌%◌, ◌∙◌, refl, ◌==◌, ◌⊎◌, ◌-◌, inl, ap, inr, if◌then◌else◌, some, subst, sym,
}
use deanos.Kheap.{
  Heap, kmalloc, block_size_for, allocate, blk_size, blk_alloc, find_fit, take_block,
  free_list_remove, size_of, kheap_initialize,
}
use deanos.Kheap.Blocks.{Block, total, IsBlock, Tiles-split, free_at-Located, free_at-append}
use deanos.Kheap.Valid.{IsHeap, listed-free}
use deanos.Kheap.Allocate.{Split, whole, cut, free_tag, take_block-Taken, Taken}
use deanos.Kheap.Fit.{Fits, find_fit-Fits, nothing_fits, fits}
use deanos.Kheap.Chain.{occurs}
use deanos.Kheap.Remove.{Spares, free_list_remove-Unlisted}

-- No free block follows a free block; `last` says whether the block before is allocated.
abbrev pub is_spread : (last : Bool) → List Block → Bool
is_spread last [] = true
is_spread last (b ∷ bs) = (last || b.used) && is_spread b.used bs

abbrev pub last_used : Bool → List Block → Bool
last_used last [] = last
last_used last (b ∷ bs) = last_used b.used bs

pub is_spread-append :
    (last : Bool) (xs ys : List Block)
    → is_spread last (xs ++ ys) ≡ (is_spread last xs && is_spread (last_used last xs) ys)
is_spread-append last [] ys = refl
is_spread-append last (x ∷ xs) ys = ground (arith, is_spread-append x.used xs ys)

pub last_used-append :
    (last : Bool) (xs ys : List Block)
    → last_used last (xs ++ ys) ≡ last_used (last_used last xs) ys
last_used-append last [] ys = refl
last_used-append last (x ∷ xs) ys = last_used-append x.used xs ys

pub is_spread_mono : (bs : List Block) → is_spread false bs ≡ true → is_spread true bs ≡ true
is_spread_mono [] h = refl
is_spread_mono (b ∷ bs) h = ground (arith, h)

-- Between operations: the memory from `a` to `e` has the blocks, all free ones are listed, and
-- neighbours are merged.
pub record IsSound (a e : ℕ) (s : Heap) (blocks : List Block) : Type 0 where
  pub listed : List ℕ
  pub valid : IsHeap a e (λ g. 0) s blocks listed
  pub merged : is_spread true blocks ≡ true

-- What a call that gives memory does: the free block `block` is taken whole or cut, the pointer is behind
-- its header, and no word outside of free blocks changes.
pub record Allocated (a e size : ℕ) (blocks : List Block) (s : Heap) (ptr : ℕ) (s' : Heap)
    : Type 0 where
  pub before : List Block
  pub block : Block
  pub behind : List Block
  pub pieces : List Block
  pub parts : blocks ≡ before ++ (block ∷ behind)
  pub free : block.used ≡ false
  pub pointer : ptr ≡ a + total before + 4
  pub room : size + 8 ≤ block_size_for size
  pub split : Split block (block_size_for size) pieces
  pub sound : IsSound a e s' (before ++ (pieces ++ behind))
  pub spared : Spares a blocks s.mem s'.mem

pub data MallocOutcome (a e size : ℕ) (blocks : List Block) (s : Heap) : ℕ × Heap → Type 0 where
  exhausted :
      ((xs : List Block) (b : Block) (zs : List Block)
        → blocks ≡ xs ++ (b ∷ zs)
        → b.used ≡ false
        → b.size < block_size_for size)
      → MallocOutcome a e size blocks s (0, s)
  allocated :
      (ptr : ℕ) (s' : Heap)
      → Allocated a e size blocks s ptr s'
      → MallocOutcome a e size blocks s (ptr, s')

Split-is_spread :
    (xs : List Block) (b : Block) (zs pieces : List Block) (wanted : ℕ)
    → Split b wanted pieces
    → b.used ≡ false
    → is_spread true (xs ++ (b ∷ zs)) ≡ true
    → is_spread true (xs ++ (pieces ++ zs)) ≡ true
Split-is_spread xs b zs _ wanted (whole enough small) free h =
    let old = is_spread-append true xs (b ∷ zs) in
    let mono = is_spread_mono zs in
    is_spread-append true xs (record { size = b.size; used = true } ∷ zs)
    ∙ ground (arith, old, h, free, mono)
Split-is_spread xs b zs _ wanted (cut room) free h =
    let old = is_spread-append true xs (b ∷ zs) in
    is_spread-append true xs
      (record { size = wanted; used = true } ∷ record { size = b.size - wanted; used = false } ∷ zs)
    ∙ ground (arith, old, h, free)

pub record IsRequest (size : ℕ) : Type 0 where
  pub not_zero : size ≢ 0
  pub no_wrap : size + 16 ≤ 2 ^ 32

block_size :
    (size : ℕ)
    → IsRequest size
    → (size + 8 ≤ block_size_for size) × (block_size_for size % 8 ≡ 0) × (16 ≤ block_size_for size)
block_size size r = ground (arith, r.not_zero, r.no_wrap)

ready_heap :
    (s : Heap) → s.initialized ≡ true → (if s.initialized then s else kheap_initialize s) ≡ s
ready_heap s ready = rw ready refl

module _ (a e size : ℕ) (blocks : List Block) (s : Heap) (request : IsRequest size)
    (sound : IsSound a e s blocks) where
  -- A listed block of the size that is wanted is taken.
  take_listed :
      (h : ℕ)
      → 1 ≤ occurs h sound.listed
      → block_size_for size ≤ blk_size s.mem h
      → Allocated a e size blocks s
          (h + 4)
          (take_block (block_size_for size) h (free_list_remove h s))
  take_listed h one enough =
      let wanted = block_size_for size in
      let asked = block_size size request in
      let v = sound.valid in
      let l = free_at-Located h a blocks (listed-free (λ g. 0) s blocks sound.listed v h one) in
      let u = free_list_remove-Unlisted a e (λ g. 0) h s blocks sound.listed v one in
      let s' = free_list_remove h s in
      let old : IsHeap a e (λ g. 0) s (l.before ++ (l.block ∷ l.behind)) sound.listed =
        rw (← l.parts) v in
      let here : IsBlock s.mem (a + total l.before) l.block =
        (Tiles-split s.mem a l.before (l.block ∷ l.behind) e old.tiles).1.0 in
      let size_here : blk_size s.mem h ≡ l.block.size =
        ap (blk_size s.mem) l.place
        ∙ ap size_of (here.header ∙ free_tag l.block l.free)
        ∙ omega (arith, here.aligned) in
      let at_h : IsHeap a e (λ g. (if a + total l.before == g then 1 else 0) + 0) s'
          (l.before ++ (l.block ∷ l.behind)) u.rest =
        rw (← l.place, ← l.parts) u.valid in
      let spread : is_spread true (l.before ++ (l.block ∷ l.behind)) ≡ true =
        rw (← l.parts) sound.merged in
      let taken : Taken a e l.before l.block l.behind wanted s' (take_block wanted h s') =
        subst (λ (k : ℕ). Taken a e l.before l.block l.behind wanted s' (take_block wanted k s'))
          (sym l.place)
          (take_block-Taken a e wanted s' l.before l.block l.behind u.rest l.free at_h asked.2
            (omega (arith, enough, size_here)) asked.1) in
      record {
        before = l.before;
        block = l.block;
        behind = l.behind;
        pieces = taken.pieces;
        parts = l.parts;
        free = l.free;
        pointer = omega (arith, l.place);
        room = asked.0;
        split = taken.split;
        sound = record {
          listed = taken.listed;
          valid = taken.valid;
          merged =
              Split-is_spread l.before l.block l.behind taken.pieces wanted taken.split l.free
                spread;
        };
        spared = λ w out. taken.spared w (rw (← l.parts) out) ∙ u.spared w out;
      }

  -- When nothing listed fits, no free block does.
  none_fits :
      ((h : ℕ)
        → 1 ≤ occurs h sound.listed
        → (blk_alloc s.mem h ≡ true) ⊎ (blk_size s.mem h < block_size_for size))
      → (xs : List Block) (b : Block) (zs : List Block) → blocks ≡ xs ++ (b ∷ zs)
      → b.used ≡ false
      → b.size < block_size_for size
  none_fits small xs b zs parts free =
      let h = a + total xs in
      let v : IsHeap a e (λ g. 0) s (xs ++ (b ∷ zs)) sound.listed = rw (← parts) sound.valid in
      let here : IsBlock s.mem h b = (Tiles-split s.mem a xs (b ∷ zs) e v.tiles).1.0 in
      let is_tag : s.mem h ≡ b.size = here.header ∙ free_tag b free in
      let one : 1 ≤ occurs h sound.listed =
        ground (arith, v.complete h, free_at-append h a xs (b ∷ zs), free) in
      elim (small h one) [
        | inl taken ↦ absurd (ground (arith, taken, is_tag, here.aligned))
        | inr less ↦ omega (arith, less, is_tag, here.aligned)
      ]

  by_fit :
      (o : Option ℕ)
      → Fits s.mem (block_size_for size) sound.listed o
      → MallocOutcome a e size blocks s (elim o as (λ _. ℕ × Heap) [
        | none ↦ (0, s)
        | some h ↦ (h + 4, take_block (block_size_for size) h (free_list_remove h s))
      ])
  by_fit _ (nothing_fits small) = exhausted (none_fits small)
  by_fit _ (fits h one large) =
      allocated (h + 4) (take_block (block_size_for size) h (free_list_remove h s))
        (take_listed h one large)

  -- For a size that is not 0 and leaves 16 below 2^32, kmalloc on a sound heap either gives NULL and
  -- changes nothing, and then each free block is too small, or it takes a free block that has room for
  -- the size and for the tags, whole or cut in two with the rest free. The heap is sound again with
  -- these blocks, and no word outside of the blocks that were free has changed.
  pub kmalloc-MallocOutcome : MallocOutcome a e size blocks s (kmalloc size s)
  unfolding kmalloc allocate
  kmalloc-MallocOutcome =
      let positive : (size == 0) ≡ false = ground (arith, request.not_zero) in
      rw (positive, ready_heap s sound.valid.ready)
        (by_fit (find_fit (block_size_for size) s)
          (find_fit-Fits a e (λ g. 0) s blocks sound.listed (block_size_for size) sound.valid))
