-- ===== src/Kheap/Allocate.antt =====
-- `kmalloc` of kernel/kheap.c takes a free block that is large enough, or splits it.
use deanos.Kheap.Blocks.{Block, total, in_free, IsBlock, free_at, Tiles-split, Tiles, tag}
use deanos.Prelude.{
  ℕ, List, ◌<◌, ◌≡◌, ◌++◌, false, ◌+◌, true, if◌then◌else◌, ◌∷◌, [], ◌==◌, ◌≤◌, ◌%◌, ◌-◌, ◌⊎◌,
  arith, ◌∙◌, ap, ltb, if_split, leb, refl,
}
use deanos.Kheap.{
  Heap, Words, mirror, store, free_list_insert, put_free, take_block, blk_size, size_of,
  min_block_size,
}
use deanos.Kheap.Valid.{IsHeap, free_at-once}
use deanos.Kheap.Remove.{Spares}
use deanos.Kheap.Replace.{
  mirror-Tagged, free_at-three, in_free-three, replace-IsHeap, Tagged-IsBlock, Tagged,
}
use deanos.Kheap.Chain.{occurs}
use deanos.Kheap.Insert.{free_list_insert-Listed}

-- The block that is taken, and what is left of it.
pub data Split (b : Block) (wanted : ℕ) : List Block → Type 0 where
  whole :
      wanted ≤ b.size
      → b.size < wanted + 16
      → Split b wanted (record { size = b.size; used = true } ∷ [])
  cut :
      wanted + 16 ≤ b.size
      → Split b wanted (
          record { size = wanted; used = true }
          ∷ record { size = b.size - wanted; used = false }
          ∷ [])

-- Taking the free block `b` behind the blocks `xs`.
pub record Taken (a e : ℕ) (xs : List Block) (b : Block) (zs : List Block) (wanted : ℕ)
    (s s' : Heap) : Type 0 where
  pub pieces : List Block
  pub split : Split b wanted pieces
  pub listed : List ℕ
  pub valid : IsHeap a e (λ g. 0) s' (xs ++ (pieces ++ zs)) listed
  pub spared : Spares a (xs ++ (b ∷ zs)) s.mem s'.mem

pub free_tag : (b : Block) → b.used ≡ false → tag b ≡ b.size
free_tag b free = rw free refl

module _ (a e wanted : ℕ) (s : Heap) (xs : List Block) (b : Block) (zs : List Block)
    (listed : List ℕ) (free : b.used ≡ false)
    (v : IsHeap a e (λ g. (if a + total xs == g then 1 else 0) + 0) s (xs ++ (b ∷ zs)) listed)
    (large : 16 ≤ wanted) (fits : wanted ≤ b.size) (aligned : wanted % 8 ≡ 0) where
  here : IsBlock s.mem (a + total xs) b
  here = (Tiles-split s.mem a xs (b ∷ zs) e v.tiles).1.0

  -- The block is on no list.
  unlisted : (g : ℕ) → 1 ≤ occurs g listed → free_at g (a + total xs) (b ∷ []) ≡ 0
  unlisted g one =
      let h = a + total xs in
      let three = free_at-three g a xs (b ∷ []) zs in
      ground (arith, v.complete g, three, free, free_at-once s.mem g a (xs ++ (b ∷ zs)) e v.tiles)

  -- All of it is free memory.
  inside :
      (w : ℕ)
      → in_free a (xs ++ (b ∷ zs)) w ≡ false
      → (w < a + total xs) ⊎ (a + total xs + b.size ≤ w)
  inside w out = let three = in_free-three a xs (b ∷ []) zs w in ground (arith, three, free, out)

  take_whole : Words
  take_whole = mirror (store s.mem (a + total xs) (b.size + 1)) (a + total xs)

  Taken-whole : b.size < wanted + 16 → Taken a e xs b zs wanted s (record s { mem = take_whole })
  unfolding take_whole
  Taken-whole small =
      let h = a + total xs in
      let c : Block = record { size = b.size; used = true } in
      let t =
        mirror-Tagged s.mem h b.size (b.size + 1) (omega (arith, here.aligned))
          (omega (arith, here.large)) in
      let outside : (w : ℕ) → (w < h) ⊎ (h + b.size ≤ w) → take_whole w ≡ s.mem w = λ w out.
        t.others w (λ e'. absurd (ground (arith, out, e', here.large)))
          (λ e'. absurd (ground (arith, out, e', here.large))) in
      record {
        pieces = c ∷ [];
        split = whole fits small;
        listed = listed;
        valid =
            replace-IsHeap a e (λ g. (if h == g then 1 else 0) + 0) (λ g. 0) s take_whole xs
              (b ∷ []) (c ∷ []) zs listed v
              (Tagged-IsBlock s.mem take_whole h c t here.aligned here.large, omega arith)
              (λ w out. outside w (ground (arith, out))) unlisted (λ g. ground (arith, free));
        spared = λ w out. outside w (inside w out);
      }

  cut_front : Words
  cut_front = mirror (store s.mem (a + total xs) (wanted + 1)) (a + total xs)

  cut_words : Words
  unfolding cut_front
  cut_words = put_free (a + total xs + wanted) (b.size - wanted) cut_front

  front_tag : Tagged s.mem cut_front (a + total xs) wanted (wanted + 1)
  unfolding cut_front
  front_tag =
      mirror-Tagged s.mem (a + total xs) wanted (wanted + 1) (omega (arith, aligned))
        (omega (arith, large))

  rest_tag :
      wanted + 16 ≤ b.size
      → Tagged cut_front cut_words (a + total xs + wanted) (b.size - wanted) (b.size - wanted)
  unfolding cut_words
  rest_tag room =
      mirror-Tagged cut_front (a + total xs + wanted) (b.size - wanted) (b.size - wanted)
        (omega (arith, here.aligned, aligned)) (omega arith)

  -- The tags of the two pieces, and nothing outside of the block.
  cut-Tiles :
      wanted + 16 ≤ b.size
      → Tiles cut_words
          (a + total xs)
          (record { size = wanted; used = true }
            ∷ record { size = b.size - wanted; used = false }
            ∷ [])
          (a + total xs + (b.size + 0))
  cut-Tiles room =
      let h = a + total xs in
      let t = front_tag in
      let u = rest_tag room in
      (
        record {
          header = u.others h (λ e'. absurd (omega arith)) (λ e'. absurd (omega arith)) ∙ t.header;
          footer =
              u.others (h + wanted - 4) (λ e'. absurd (omega arith)) (λ e'. absurd (omega arith))
              ∙ t.footer;
          aligned = aligned;
          large = large;
        },
        (
          record {
            header = u.header;
            footer = u.footer;
            aligned = omega (arith, here.aligned, aligned);
            large = omega arith;
          },
          omega arith,
        ),
      )

  cut_outside :
      wanted + 16 ≤ b.size
      → (w : ℕ) → (w < a + total xs) ⊎ (a + total xs + b.size ≤ w)
      → cut_words w ≡ s.mem w
  cut_outside room w out =
      let t = front_tag in
      let u = rest_tag room in
      u.others w (λ e'. absurd (ground (arith, out, e'))) (λ e'. absurd (ground (arith, out, e')))
      ∙ t.others w (λ e'. absurd (ground (arith, out, e'))) (λ e'. absurd (ground (arith, out, e')))

  Taken-cut :
      wanted + 16 ≤ b.size
      → Taken a e xs b zs wanted s
          (free_list_insert (a + total xs + wanted) (record s { mem = cut_words }))
  Taken-cut room =
      let h = a + total xs in
      let c : Block = record { size = wanted; used = true } in
      let r : Block = record { size = b.size - wanted; used = false } in
      let s' : Heap = record s { mem = cut_words } in
      let replaced =
        replace-IsHeap a e (λ g. (if h == g then 1 else 0) + 0)
          (λ g. (if h + wanted == g then 1 else 0) + 0) s cut_words xs (b ∷ []) (c ∷ r ∷ []) zs
          listed v (cut-Tiles room) (λ w out. cut_outside room w (ground (arith, out))) unlisted
          (λ g. ground (arith, free)) in
      let put =
        free_list_insert-Listed a e (λ g. 0) (h + wanted) s' (xs ++ (c ∷ r ∷ zs)) listed replaced in
      record {
        pieces = c ∷ r ∷ [];
        split = cut room;
        listed = (h + wanted) ∷ listed;
        valid = put.valid;
        spared = λ w out.
            put.spared w (
              ground (
                arith,
                in_free-three a xs (b ∷ []) zs w,
                in_free-three a xs (c ∷ r ∷ []) zs w,
                free,
                out,
              ))
            ∙ cut_outside room w (inside w out);
      }

  pub take_block-Taken : Taken a e xs b zs wanted s (take_block wanted (a + total xs) s)
  unfolding take_block take_whole cut_words cut_front
  take_block-Taken =
      let size : blk_size s.mem (a + total xs) ≡ b.size =
        let is_size : s.mem (a + total xs) ≡ b.size = here.header ∙ free_tag b free in
        ap size_of is_size ∙ omega (arith, here.aligned) in
      let rem = if ltb wanted b.size then b.size - wanted else 0 in
      rw size (
        if_split (Taken a e xs b zs wanted s) (leb min_block_size rem)
          (λ room.
            let more : ltb wanted b.size ≡ true = ground (arith, room) in
            let is_rem : rem ≡ b.size - wanted = rw more refl in
            rw is_rem (Taken-cut (ground (arith, is_rem, room))))
          (λ full. Taken-whole (ground (arith, full, fits))))
