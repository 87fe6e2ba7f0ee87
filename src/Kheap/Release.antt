-- ===== src/Kheap/Release.antt =====
-- `kfree` of kernel/kheap.c on a sound heap.
use deanos.Prelude.{
  ℕ, false, List, ◌≡◌, true, ◌++◌, ◌∷◌, arith, ◌+◌, if◌then◌else◌, [], refl, ◌==◌, ◌∙◌, ◌-◌,
  if_split, not,
}
use deanos.Kheap.Blocks.{Block, IsBlock, total, Tiles-split}
use deanos.Kheap.{Heap, kfree, mirror, coalesce_neighbors, store, free_list_insert, merge_next}
use deanos.Kheap.Neighbors.{
  JoinsRight, JoinsLeft, used_right, used_left, free_right, no_right, merge_next-NextMerged,
  free_left, no_left,
}
use deanos.Kheap.Malloc.{IsSound, is_spread, is_spread-append, last_used-append}
use deanos.Kheap.Valid.{IsHeap}
use deanos.Kheap.Remove.{Spares}
use deanos.Kheap.Replace.{Tagged, in_free-three, mirror-Tagged, replace-IsHeap, Tagged-IsBlock}
use deanos.Kheap.Merge.{read_tag, join}
use deanos.Kheap.Previous.{PrevMerged, merge_prev-PrevMerged}
use deanos.Kheap.Insert.{free_list_insert-Listed}

abbrev pub freed : Block → Block
freed b = record { size = b.size; used = false }

-- What a call that takes memory back does: the block is free, joined with a free block behind it and a
-- free block before it, and no word outside of the blocks that are free then changes.
pub record Freed (a e : ℕ) (xs : List Block) (b : Block) (zs : List Block) (s s' : Heap)
    : Type 0 where
  pub middle : Block
  pub before : List Block
  pub block : Block
  pub behind : List Block
  pub to_right : JoinsRight (freed b) zs middle behind
  pub to_left : JoinsLeft middle xs before block
  pub sound : IsSound a e s' (before ++ (block ∷ behind))
  pub spared : Spares a (xs ++ (freed b ∷ zs)) s.mem s'.mem

right_spread :
    (b : Block) (zs : List Block) (c : Block) (behind : List Block)
    → JoinsRight b zs c behind
    → b.used ≡ false
    → is_spread true zs ≡ true
    → (c.used ≡ false) × (is_spread false behind ≡ true)
right_spread b _ _ _ no_right free h = (free, refl)
right_spread b _ _ _ (used_right z zs taken) free h = (free, ground (arith, h, taken))
right_spread b _ _ _ (free_right z zs z_free) free h = (refl, ground (arith, h, z_free))

left_spread :
    (c : Block) (xs before : List Block) (d : Block) (behind : List Block)
    → JoinsLeft c xs before d
    → c.used ≡ false
    → is_spread true xs ≡ true
    → is_spread false behind ≡ true
    → is_spread true (before ++ (d ∷ behind)) ≡ true
left_spread c _ _ _ behind no_left free h rest = ground (arith, free, rest)
left_spread c _ _ _ behind (used_left ys y taken) free h rest =
    let old = is_spread-append true ys (y ∷ []) in
    let last = last_used-append true ys (y ∷ []) in
    is_spread-append true (ys ++ (y ∷ [])) (c ∷ behind) ∙ ground (arith, h, last, free, rest, taken)
left_spread c _ _ _ behind (free_left ys y y_free) free h rest =
    let old = is_spread-append true ys (y ∷ []) in
    is_spread-append true ys (join y c ∷ behind) ∙ ground (arith, old, h, rest, y_free)

-- A sound heap with a block that is in use, behind the blocks `xs`.
module _ (a e : ℕ) (s : Heap) (xs : List Block) (b : Block) (zs : List Block)
    (taken : b.used ≡ true) (sound : IsSound a e s (xs ++ (b ∷ zs))) where
  row : IsBlock s.mem (a + total xs) b
  row = (Tiles-split s.mem a xs (b ∷ zs) e sound.valid.tiles).1.0

  pub marked : Heap
  marked = record s { mem = mirror (store s.mem (a + total xs) b.size) (a + total xs) }

  tagged : Tagged s.mem marked.mem (a + total xs) b.size b.size
  unfolding marked
  tagged =
      mirror-Tagged s.mem (a + total xs) b.size b.size (omega (arith, row.aligned))
        (omega (arith, row.large))

  -- The block has the tags of a free one, and is on no list yet.
  pub marked-IsHeap :
      IsHeap a e
        (λ g. (if a + total xs == g then 1 else 0) + 0)
        marked
        (xs ++ (freed b ∷ zs))
        sound.listed
  unfolding marked
  marked-IsHeap =
      replace-IsHeap a e (λ g. 0) (λ g. (if a + total xs == g then 1 else 0) + 0) s marked.mem xs
        (b ∷ []) (freed b ∷ []) zs sound.listed sound.valid
        (
          Tagged-IsBlock s.mem marked.mem (a + total xs) (freed b) tagged row.aligned row.large,
          omega arith,
        )
        (λ w out.
          tagged.others w (λ same. absurd (ground (arith, out, same, row.large)))
            (λ same. absurd (ground (arith, out, same, row.large))))
        (λ g one. ground (arith, taken)) (λ g. ground (arith, taken))

  marked-Spares : Spares a (xs ++ (freed b ∷ zs)) s.mem marked.mem
  unfolding marked
  marked-Spares w out =
      let three = in_free-three a xs (freed b ∷ []) zs w in
      tagged.others w (λ same. absurd (ground (arith, three, out, same, row.large)))
        (λ same. absurd (ground (arith, three, out, same, row.large)))

  merged-Freed :
      (r : ℕ × Heap)
      → r ≡ coalesce_neighbors (a + total xs) marked
      → Freed a e xs b zs s (free_list_insert r.0 r.1)
  unfolding coalesce_neighbors
  merged-Freed r is_r =
      let h = a + total xs in
      let n = merge_next-NextMerged a e marked xs (freed b) sound.listed refl zs marked-IsHeap in
      let parts = is_spread-append true xs (b ∷ zs) in
      let spread =
        right_spread (freed b) zs n.block n.behind n.joins refl
          (ground (arith, parts, sound.merged, taken)) in
      let s' = merge_next h marked in
      let p : PrevMerged a e (xs ++ (n.block ∷ n.behind)) s' xs n.block n.behind r = rw is_r (
        merge_prev-PrevMerged a e s' n.block n.behind n.merged.listed spread.0 xs n.merged.valid) in
      let blocks = p.before ++ (p.block ∷ n.behind) in
      let put =
        free_list_insert-Listed a e (λ g. 0) r.0 r.1 blocks p.merged.listed
          (rw p.place p.merged.valid) in
      record {
        middle = n.block;
        before = p.before;
        block = p.block;
        behind = n.behind;
        to_right = n.joins;
        to_left = p.joins;
        sound = record {
          listed = r.0 ∷ p.merged.listed;
          valid = put.valid;
          merged =
              left_spread n.block xs p.before p.block n.behind p.joins spread.0
                (ground (arith, parts, sound.merged)) spread.1;
        };
        spared = λ w out.
            put.spared w (p.merged.same_free w ∙ n.merged.same_free w ∙ out)
            ∙ p.merged.spared w (n.merged.same_free w ∙ out)
            ∙ n.merged.spared w out
            ∙ marked-Spares w out;
      }

  -- On a sound heap, kfree of the pointer behind the header of a block in use makes the block free and
  -- joins it with the next block if that is free, and then with the previous one if that is free. The heap
  -- is sound again with these blocks, and no word outside of the old free blocks and this one changes.
  pub kfree-Freed : Freed a e xs b zs s (kfree (a + total xs + 4) s)
  unfolding kfree marked
  kfree-Freed =
      let size = (read_tag s.mem (a + total xs) b row).0 in
      let at_h : a + total xs + 4 - 4 ≡ a + total xs = omega arith in
      let some_ptr : (a + total xs + 4 == 0) ≡ false = ground arith in
      rw (some_ptr, at_h, size)
        (if_split (λ (s' : Heap). Freed a e xs b zs s s') (not s.initialized)
          (λ bad. absurd (ground (arith, bad, sound.valid.ready)))
          (λ good. merged-Freed (coalesce_neighbors (a + total xs) marked) refl))
