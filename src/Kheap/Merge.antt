-- ===== src/Kheap/Merge.antt =====
-- `coalesce_neighbors` of kernel/kheap.c joins a free block with the free blocks beside it.
use deanos.Kheap.{Words, Heap, blk_size, blk_alloc, put_free, size_of}
use deanos.Prelude.{
  ℕ, List, ◌+◌, ◌≡◌, false, ◌++◌, if◌then◌else◌, Bool-cases, ◌∷◌, inl, ◌==◌, ◌≤◌, ◌<◌, ◌∙◌, ◌⊎◌, ap,
  [], arith, inr, refl,
}
use deanos.Kheap.Blocks.{Block, IsBlock, total, in_free, Tiles-split, free_at}
use deanos.Kheap.Valid.{IsHeap, free_at-once}
use deanos.Kheap.Replace.{Tagged, mirror-Tagged, in_free-three, replace-IsHeap, Tagged-IsBlock}
use deanos.Kheap.Remove.{Spares}
use deanos.Kheap.Chain.{occurs}

-- The tag of a block, read back.
pub read_tag :
    (m : Words) (h : ℕ) (b : Block)
    → IsBlock m h b
    → (blk_size m h ≡ b.size) × (blk_alloc m h ≡ b.used)
read_tag m h b k = elim (Bool-cases b.used) [
  | inl taken ↦
      let is_tag : m h ≡ b.size + 1 = k.header ∙ rw taken refl in
      (ap size_of is_tag ∙ omega (arith, k.aligned), ground (arith, is_tag, k.aligned, taken))
  | inr free ↦
      let is_tag : m h ≡ b.size = k.header ∙ rw free refl in
      (ap size_of is_tag ∙ omega (arith, k.aligned), ground (arith, is_tag, k.aligned, free))
]

abbrev pub join : Block → Block → Block
join c d = record { size = c.size + d.size; used = false }

-- A free block that is on no list, behind the blocks `xs`, after it was joined with a neighbour or not. The
-- memory outside of the blocks `old` that were free stays.
pub record Merged (a e : ℕ) (old : List Block) (s s' : Heap) (xs : List Block) (c : Block)
    (zs : List Block) : Type 0 where
  pub listed : List ℕ
  pub valid : IsHeap a e (λ g. (if a + total xs == g then 1 else 0) + 0) s' (xs ++ (c ∷ zs)) listed
  pub same_free : (w : ℕ) → in_free a (xs ++ (c ∷ zs)) w ≡ in_free a old w
  pub spared : Spares a old s.mem s'.mem

module _ (a e : ℕ) (loose : ℕ → ℕ) (s : Heap) (xs : List Block) (c d : Block) (zs : List Block)
    (listed : List ℕ) (c_free : c.used ≡ false) (d_free : d.used ≡ false)
    (v : IsHeap a e loose s (xs ++ (c ∷ d ∷ zs)) listed)
    (both : (g : ℕ)
      → loose g
        ≡ (if a + total xs == g then 1 else 0)
          + (if a + total xs + c.size == g then 1 else 0)) where
  first : IsBlock s.mem (a + total xs) c
  first = (Tiles-split s.mem a xs (c ∷ d ∷ zs) e v.tiles).1.0

  second : IsBlock s.mem (a + total xs + c.size) d
  second = (Tiles-split s.mem a xs (c ∷ d ∷ zs) e v.tiles).1.1.0

  unlisted : (g : ℕ) → 1 ≤ occurs g listed → free_at g (a + total xs) (c ∷ d ∷ []) ≡ 0
  unlisted g one = ground (
    arith,
    v.complete g,
    both g,
    c_free,
    d_free,
    free_at-once s.mem g a (xs ++ (c ∷ d ∷ zs)) e v.tiles,
  )

  tagged :
      Tagged s.mem
        (put_free (a + total xs) (c.size + d.size) s.mem)
        (a + total xs)
        (c.size + d.size)
        (c.size + d.size)
  tagged =
      mirror-Tagged s.mem (a + total xs) (c.size + d.size) (c.size + d.size)
        (omega (arith, first.aligned, second.aligned)) (omega (arith, first.large))

  outside :
      (w : ℕ)
      → (w < a + total xs) ⊎ (a + total xs + c.size + d.size ≤ w)
      → put_free (a + total xs) (c.size + d.size) s.mem w ≡ s.mem w
  outside w out =
      tagged.others w (λ same. absurd (ground (arith, out, same, first.large)))
        (λ same. absurd (ground (arith, out, same, first.large)))

  -- Two free blocks that are on no list become one.
  pub joined-Merged :
      Merged a e
        (xs ++ (c ∷ d ∷ zs))
        s
        (record s { mem = put_free (a + total xs) (c.size + d.size) s.mem })
        xs
        (join c d)
        zs
  joined-Merged =
      let x = a + total xs in
      let old = in_free-three a xs (c ∷ d ∷ []) zs in
      record {
        listed = listed;
        valid =
            replace-IsHeap a e loose (λ g. (if x == g then 1 else 0) + 0) s
              (put_free x (c.size + d.size) s.mem) xs (c ∷ d ∷ []) (join c d ∷ []) zs listed v
              (
                Tagged-IsBlock s.mem (put_free x (c.size + d.size) s.mem) x (join c d) tagged
                    (omega (arith, first.aligned, second.aligned)) (omega (arith, first.large)),
                omega arith,
              )
              (λ w out. outside w (ground (arith, out))) unlisted
              (λ g. ground (arith, both g, c_free, d_free));
        same_free =
            λ w. in_free-three a xs (join c d ∷ []) zs w ∙ ground (arith, old w, c_free, d_free);
        spared = λ w out. outside w (ground (arith, old w, out, c_free, d_free));
      }
