-- ===== src/Kheap/Clients.antt =====
-- What clients of the heap of kernel/kheap.c can rely on.
use deanos.Prelude.{
  ℕ, List, ◌++◌, ◌≡◌, ◌∷◌, false, ◌+◌, ◌≤◌, ◌<◌, ap, arith, ◌∙◌, refl, ◌≢◌, [], ◌-◌, Bool-cases,
  ◌==◌, inl, inr, ◌^◌, ◌⊎◌, sym,
}
use deanos.Kheap.Blocks.{Block, total, Tiles-split, total-append}
use deanos.Kheap.{Heap, kfree, kmalloc, Words, blk_size}
use deanos.Kheap.Neighbors.{
  JoinsRight, JoinsLeft, used_right, used_left, free_left, free_right, no_right, no_left,
}
use deanos.Kheap.Live.{
  ServesAll, needs-append, times-append, needs_gone, times, served, serve_outcome, needs,
}
use deanos.Kheap.Held.{held, HeldAt, held-HeldAt, held_place, held-append, held-in_free}
use deanos.Kheap.Malloc.{IsSound, kmalloc-MallocOutcome, MallocOutcome, exhausted, allocated}
use deanos.Kheap.Release.{Freed, kfree-Freed, freed, marked-IsHeap, marked}
use deanos.Kheap.Merge.{join, read_tag}
use deanos.Kheap.Replace.{replace-IsHeap}

-- Joining free blocks takes nothing away.
right-held :
    (p x : ℕ) (b : Block) (zs : List Block) (c : Block) (behind : List Block)
    → JoinsRight b zs c behind
    → b.used ≡ false
    → held p x (c ∷ behind) ≡ held p x (b ∷ zs)
right-held p x b _ _ _ no_right free = refl
right-held p x b _ _ _ (used_right z zs taken) free = refl
right-held p x b _ _ _ (free_right z zs z_free) free =
    let same : x + (b.size + z.size) ≡ x + b.size + z.size = omega arith in
    let far = ap (λ (k : ℕ). held p k zs) same in ground (arith, far, free, z_free)

left-held :
    (p a : ℕ) (c : Block) (xs before : List Block) (d : Block) (behind : List Block)
    → JoinsLeft c xs before d
    → c.used ≡ false
    → held p a (before ++ (d ∷ behind)) ≡ held p a (xs ++ (c ∷ behind))
left-held p a c _ _ _ behind no_left free = refl
left-held p a c _ _ _ behind (used_left ys y taken) free = refl
left-held p a c _ _ _ behind (free_left ys y y_free) free =
    let new = held-append p a ys (join y c ∷ behind) in
    let parts = held-append p a ys (y ∷ []) in
    let old = held-append p a (ys ++ (y ∷ [])) (c ∷ behind) in
    let place : a + total (ys ++ (y ∷ [])) + c.size ≡ a + total ys + (y.size + c.size) =
      omega (arith, total-append ys (y ∷ [])) in
    let far = ap (λ (k : ℕ). held p k behind) place in
    ground (arith, new, parts, old, far, free, y_free)

module _ (a e : ℕ) (s : Heap) (newer : List (ℕ × ℕ)) (p size : ℕ) (older : List (ℕ × ℕ))
    (v : ServesAll a e s (newer ++ ((p, size) ∷ older))) where
  -- A live pointer has a block that is large enough.
  has_block : size + 8 ≤ held p a v.blocks
  has_block =
      let whole = needs-append p newer ((p, size) ∷ older) in ground (arith, v.enough p, whole)

  at : HeldAt p a v.blocks
  at = held-HeldAt p a v.blocks (omega (arith, has_block))

  at-IsSound : IsSound a e s (at.before ++ (at.block ∷ at.behind))
  at-IsSound = rw (← at.parts) v.sound

  at_size : held p a v.blocks ≡ at.block.size
  at_size =
      ap (held p a) at.parts
      ∙ held_place s.mem p a at.before at.block at.behind e at-IsSound.valid.tiles at.place
      ∙ ground (arith, at.in_use)

  pub serve_returned : ServesAll a e (kfree p s) (newer ++ older)
  serve_returned =
      let f : Freed a e at.before at.block at.behind s (kfree p s) =
        rw (at.place) (kfree-Freed a e s at.before at.block at.behind at.in_use at-IsSound) in
      record {
        blocks = f.before ++ (f.block ∷ f.behind);
        sound = f.sound;
        once = λ q.
            let one = v.once q in
            omega
              (arith, one, times-append q newer ((p, size) ∷ older), times-append q newer older);
        enough = λ q.
            let one = v.once q in
            let was = v.enough q in
            let whole = times-append q newer ((p, size) ∷ older) in
            let rest = times-append q newer older in
            let needs_whole = needs-append q newer ((p, size) ∷ older) in
            let needs_rest = needs-append q newer older in
            let gone = needs_gone q (newer ++ older) in
            let left =
              left-held q a f.middle at.before f.before f.block f.behind f.to_left
                (right_free (freed at.block) at.behind f.middle f.behind f.to_right refl) in
            let right =
              right-held q (a + total at.before) (freed at.block) at.behind f.middle f.behind
                f.to_right refl in
            let old = ap (held q a) at.parts ∙ held-append q a at.before (at.block ∷ at.behind) in
            let new = left ∙ held-append q a at.before (f.middle ∷ f.behind) in
            elim (Bool-cases (p == q)) [
              | inl same ↦
                  let none_left : times q (newer ++ older) ≡ 0 =
                    ground (arith, same, one, whole, rest) in
                  omega (arith, gone none_left)
              | inr other ↦
                  let place = at.place in
                  ground (arith, other, was, needs_whole, needs_rest, right, old, new, place)
            ];
      }
    where
      right_free :
          (b : Block) (zs : List Block) (c : Block) (behind : List Block)
          → JoinsRight b zs c behind
          → b.used ≡ false
          → c.used ≡ false
      right_free b _ _ _ no_right free = free
      right_free b _ _ _ (used_right z zs taken) free = free
      right_free b _ _ _ (free_right z zs z_free) free = refl

  -- Writes to live memory.
  pub serve_written :
      (m' : Words)
      → ((w : ℕ) → (w < p) ⊎ (p + size ≤ w) → m' w ≡ s.mem w)
      → ServesAll a e (record s { mem = m' }) (newer ++ ((p, size) ∷ older))
  serve_written m' outside =
      let h = a + total at.before in
      let row =
        (Tiles-split s.mem a at.before (at.block ∷ at.behind) e at-IsSound.valid.tiles).1.0 in
      let place = at.place in
      let room : p + size + 4 ≤ h + at.block.size = omega (arith, place, has_block, at_size) in
      record {
        blocks = v.blocks;
        sound = rw at.parts (record {
          listed = at-IsSound.listed;
          valid =
              replace-IsHeap a e (λ g. 0) (λ g. 0) s m' at.before (at.block ∷ []) (at.block ∷ [])
                at.behind at-IsSound.listed at-IsSound.valid
                (
                  record {
                    header = outside h (inl (omega (arith, place))) ∙ row.header;
                    footer =
                        outside (h + at.block.size - 4) (inr (omega (arith, room))) ∙ row.footer;
                    aligned = row.aligned;
                    large = row.large;
                  },
                  omega arith,
                )
                (λ k out. outside k (ground (arith, out, room, place)))
                (λ g one. ground (arith, at.in_use)) (λ g. refl);
          merged = at-IsSound.merged;
        });
        once = v.once;
        enough = v.enough;
      }

  -- The block's size, read from the header behind the pointer.
  pub payload :
      (4 ≤ p) × (blk_size s.mem (p - 4) ≡ held p a v.blocks) × (size + 8 ≤ held p a v.blocks)
  payload =
      let row =
        (Tiles-split s.mem a at.before (at.block ∷ at.behind) e at-IsSound.valid.tiles).1.0 in
      let place = at.place in
      let header : p - 4 ≡ a + total at.before = omega (arith, place) in
      (
        omega (arith, place),
        ap (blk_size s.mem) header
            ∙ (read_tag s.mem (a + total at.before) at.block row).0
            ∙ sym at_size,
        has_block,
      )

  -- A kfree of this pointer leaves the memory at another live one.
  pub kfree_spares :
      (q k w : ℕ)
      → k + 8 ≤ needs q (newer ++ older)
      → q ≤ w
      → w < q + k
      → (kfree p s).mem w ≡ s.mem w
  kfree_spares q k w other le lt =
      let f : Freed a e at.before at.block at.behind s (kfree p s) =
        rw at.place (kfree-Freed a e s at.before at.block at.behind at.in_use at-IsSound) in
      let marks = marked-IsHeap a e s at.before at.block at.behind at.in_use at-IsSound in
      let after = at.before ++ (freed at.block ∷ at.behind) in
      let one = v.once q in
      let was = v.enough q in
      let place = at.place in
      let whole = times-append q newer ((p, size) ∷ older) in
      let rest = times-append q newer older in
      let needs_whole = needs-append q newer ((p, size) ∷ older) in
      let needs_rest = needs-append q newer older in
      let gone = needs_gone q (newer ++ older) in
      let apart : p ≢ q = λ same.
        let none_left : times q (newer ++ older) ≡ 0 = ground (arith, same, one, whole, rest) in
        absurd (omega (arith, gone none_left, other)) in
      let old = ap (held q a) at.parts ∙ held-append q a at.before (at.block ∷ at.behind) in
      let new = held-append q a at.before (freed at.block ∷ at.behind) in
      let room : k + 8 ≤ held q a after =
        ground (arith, apart, other, was, needs_whole, needs_rest, old, new, place) in
      f.spared w (
        held-in_free (marked a e s at.before at.block at.behind at.in_use at-IsSound).mem q a after
          e w marks.tiles (omega (arith, room)) (omega (arith, le)) (omega (arith, lt, room)))

pub serve_requested :
    (a e size : ℕ) (s : Heap) (live : List (ℕ × ℕ))
    → size + 16 ≤ 2 ^ 32
    → ServesAll a e s live
    → ServesAll a e (kmalloc size s).1 (served (kmalloc size s).0 size live)
unfolding kmalloc
serve_requested a e size s live no_wrap v = elim (Bool-cases (size == 0)) [
  | inl nothing ↦ rw nothing v
  | inr positive ↦ serve_outcome a e size live s v (kmalloc size s) (
      kmalloc-MallocOutcome a e size v.blocks s
        (record { not_zero = ground (arith, positive); no_wrap = no_wrap }) v.sound)
]

-- A kmalloc leaves the memory at a live pointer.
pub kmalloc_spares :
    (a e size : ℕ) (s : Heap) (live : List (ℕ × ℕ)) (q k w : ℕ)
    → size + 16 ≤ 2 ^ 32
    → ServesAll a e s live
    → k + 8 ≤ needs q live
    → q ≤ w
    → w < q + k
    → (kmalloc size s).1.mem w ≡ s.mem w
unfolding kmalloc
kmalloc_spares a e size s live q k w no_wrap v other le lt = elim (Bool-cases (size == 0)) [
  | inl nothing ↦ rw nothing refl
  | inr positive ↦ by_outcome (kmalloc size s) (
      kmalloc-MallocOutcome a e size v.blocks s
        (record { not_zero = ground (arith, positive); no_wrap = no_wrap }) v.sound)
]
  where
    by_outcome : (r : ℕ × Heap) → MallocOutcome a e size v.blocks s r → r.1.mem w ≡ s.mem w
    by_outcome _ (exhausted small) = refl
    by_outcome _ (allocated p s' t) =
        let was = v.enough q in
        t.spared w (
          held-in_free s.mem q a v.blocks e w v.sound.valid.tiles (omega (arith, was, other))
            (omega (arith, le)) (omega (arith, lt, was, other)))
