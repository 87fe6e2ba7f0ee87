-- ===== src/Kheap/Replace.antt =====
-- Blocks of the heap of kernel/kheap.c get new tags: they are split, marked or merged.
use deanos.Kheap.{Words, Heap, size_of, mirror, store}
use deanos.Prelude.{
  ℕ, List, ◌≡◌, ◌+◌, ◌≤◌, ◌++◌, ◌-◌, ◌%◌, ◌||◌, ◌≢◌, ◌<◌, ◌∙◌, ◌⊎◌, arith, ap, Bool, refl, inl, inr,
  Bool-cases, leb,
}
use deanos.Kheap.Blocks.{
  Block, tag, in_free, free_at, total, Tiles, IsBlock, free_at-append, in_free-append, Tiles-split,
  Tiles-end, Tiles-frame, Tiles-append, free_at-within,
}
use deanos.Kheap.Valid.{IsHeap}
use deanos.Kheap.Remove.{store_self, store_ne}
use deanos.Kheap.Chain.{occurs, Chain-frame}

-- What writing the tag `t` of a block of `size` bytes at `h` changes.
pub record Tagged (m m' : Words) (h size t : ℕ) : Type 0 where
  pub header : m' h ≡ t
  pub footer : m' (h + size - 4) ≡ t
  pub others : (w : ℕ) → w ≢ h → w ≢ h + size - 4 → m' w ≡ m w

pub mirror-Tagged :
    (m : Words) (h size t : ℕ)
    → size_of t ≡ size
    → 8 ≤ size
    → Tagged m (mirror (store m h t) h) h size t
mirror-Tagged m h size t is_size large =
    let marked = store_self m h t h refl in
    rw (marked, is_size)
      (record {
        header =
            store_ne (store m h t) (h + size - 4) t h (λ e. absurd (omega arith))
            ∙ store_self m h t h refl;
        footer = store_self (store m h t) (h + size - 4) t (h + size - 4) refl;
        others = λ w e e'. store_ne (store m h t) (h + size - 4) t w e' ∙ store_ne m h t w e;
      })

pub Tagged-IsBlock :
    (m m' : Words) (h : ℕ) (b : Block)
    → Tagged m m' h b.size (tag b)
    → b.size % 8 ≡ 0
    → 16 ≤ b.size
    → IsBlock m' h b
Tagged-IsBlock m m' h b t aligned large = record {
  header = t.header;
  footer = t.footer;
  aligned = aligned;
  large = large;
}

-- Three runs of blocks.
pub free_at-three :
    (g a : ℕ) (xs ys zs : List Block)
    → free_at g a (xs ++ (ys ++ zs))
      ≡ free_at g a xs + free_at g (a + total xs) ys + free_at g (a + total xs + total ys) zs
free_at-three g a xs ys zs =
    free_at-append g a xs (ys ++ zs)
    ∙ ap (λ (n : ℕ). free_at g a xs + n) (free_at-append g (a + total xs) ys zs)
    ∙ omega arith

pub in_free-three :
    (a : ℕ) (xs ys zs : List Block) (w : ℕ)
    → in_free a (xs ++ (ys ++ zs)) w
      ≡ (in_free a xs w || (in_free (a + total xs) ys w || in_free (a + total xs + total ys) zs w))
in_free-three a xs ys zs w =
    in_free-append a xs (ys ++ zs) w
    ∙ ap (λ (b : Bool). in_free a xs w || b) (in_free-append (a + total xs) ys zs w)

-- A run of blocks is replaced by another one of the same size, and nothing else is written. No block of
-- the old run is on the free list.
pub replace-IsHeap :
    (a e : ℕ) (loose loose' : ℕ → ℕ) (s : Heap) (m' : Words) (xs ys ys' zs : List Block)
    (listed : List ℕ)
    → IsHeap a e loose s (xs ++ (ys ++ zs)) listed
    → Tiles m' (a + total xs) ys' (a + total xs + total ys)
    → ((w : ℕ) → (w < a + total xs) ⊎ (a + total xs + total ys ≤ w) → m' w ≡ s.mem w)
    → ((g : ℕ) → 1 ≤ occurs g listed → free_at g (a + total xs) ys ≡ 0)
    → ((g : ℕ) → loose' g + free_at g (a + total xs) ys ≡ loose g + free_at g (a + total xs) ys')
    → IsHeap a e loose' (record s { mem = m' }) (xs ++ (ys' ++ zs)) listed
replace-IsHeap a e loose loose' s m' xs ys ys' zs listed v run outside apart balance =
    let x = a + total xs in
    let y = x + total ys in
    let first = Tiles-split s.mem a xs (ys ++ zs) e v.tiles in
    let second = Tiles-split s.mem x ys zs e first.1 in
    let same_total : total ys' ≡ total ys = omega (arith, Tiles-end m' x ys' y run) in
    let z_end = Tiles-end s.mem y zs e second.1 in
    let before = Tiles-frame s.mem m' a xs x first.0 (λ w le lt. outside w (inl lt)) in
    let behind = Tiles-frame s.mem m' y zs e second.1 (λ w le lt. outside w (inr le)) in
    record {
      base_is = v.base_is;
      end_is = v.end_is;
      ready = v.ready;
      low = v.low;
      based = v.based;
      tiles = Tiles-append m' a xs (ys' ++ zs) x e before (Tiles-append m' x ys' zs y e run behind);
      chain = Chain-frame s.mem m' 0 s.free_head listed v.chain (λ g one.
          let here : 1 ≤ free_at g a xs + free_at g y zs =
            omega (arith, v.complete g, free_at-three g a xs ys zs, apart g one) in
          let place : (g + 16 ≤ x) ⊎ (y ≤ g) = elim (Bool-cases (leb 1 (free_at g a xs))) [
            | inl left ↦ inl (free_at-within s.mem g a xs x first.0 (ground (arith, left))).1
            | inr right ↦ inr (free_at-within s.mem g y zs e second.1 (ground (arith, right))).0
          ] in
          elim place [
            | inl left ↦ (outside (g + 4) (inl (omega arith)), outside (g + 8) (inl (omega arith)))
            | inr right ↦ (outside (g + 4) (inr (omega arith)), outside (g + 8) (inr (omega arith)))
          ]);
      complete = λ g.
          let old = free_at-three g a xs ys zs in
          let new : free_at g a (xs ++ (ys' ++ zs))
              ≡ free_at g a xs + free_at g x ys' + free_at g y zs =
            free_at-three g a xs ys' zs
            ∙ ap (λ (n : ℕ). free_at g a xs + free_at g x ys' + free_at g (x + n) zs) same_total in
          omega (arith, v.complete g, old, new, balance g);
    }
