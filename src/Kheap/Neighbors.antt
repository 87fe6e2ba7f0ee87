-- ===== src/Kheap/Neighbors.antt =====
-- What `coalesce_neighbors` of kernel/kheap.c joins, and `merge_next`, its first half.
use deanos.Prelude.{
  ℕ, List, [], ◌≡◌, true, ◌++◌, false, ◌∷◌, if◌then◌else◌, ◌+◌, refl, ◌==◌, ◌≤◌, arith, leb, ◌∙◌,
  if_split, sym,
}
use deanos.Kheap.Blocks.{Block, total, Tiles-split, Tiles-end, free_at-append}
use deanos.Kheap.{Heap, merge_next, free_list_remove, put_free, blk_size, blk_alloc}
use deanos.Kheap.Merge.{Merged, join, read_tag, joined-Merged}
use deanos.Kheap.Valid.{IsHeap}
use deanos.Kheap.Chain.{occurs}
use deanos.Kheap.Remove.{free_list_remove-Unlisted}

-- The freed block `b` and the blocks behind it, and what they become.
pub data JoinsRight (b : Block) : List Block → Block → List Block → Type 0 where
  no_right : JoinsRight b [] b []
  used_right : (z : Block) (zs : List Block) → z.used ≡ true → JoinsRight b (z ∷ zs) b (z ∷ zs)
  free_right : (z : Block) (zs : List Block) → z.used ≡ false → JoinsRight b (z ∷ zs) (join b z) zs

-- The freed block `b` and the blocks before it, and what they become.
pub data JoinsLeft (b : Block) : List Block → List Block → Block → Type 0 where
  no_left : JoinsLeft b [] [] b
  used_left :
      (ys : List Block) (y : Block)
      → y.used ≡ true
      → JoinsLeft b (ys ++ (y ∷ [])) (ys ++ (y ∷ [])) b
  free_left :
      (ys : List Block) (y : Block) → y.used ≡ false → JoinsLeft b (ys ++ (y ∷ [])) ys (join y b)

pub record NextMerged (a e : ℕ) (s s' : Heap) (xs : List Block) (b : Block) (zs : List Block)
    : Type 0 where
  pub block : Block
  pub behind : List Block
  pub joins : JoinsRight b zs block behind
  pub merged : Merged a e (xs ++ (b ∷ zs)) s s' xs block behind

module _ (a e : ℕ) (s : Heap) (xs : List Block) (b : Block) (listed : List ℕ)
    (free : b.used ≡ false) where
  abbrev pub only : ℕ → ℕ
  only g = (if a + total xs == g then 1 else 0) + 0

  pub unchanged :
      (zs : List Block)
      → IsHeap a e only s (xs ++ (b ∷ zs)) listed
      → Merged a e (xs ++ (b ∷ zs)) s s xs b zs
  unchanged zs v = record {
    listed = listed;
    valid = v;
    same_free = λ w. refl;
    spared = λ w out. refl;
  }

  merge_free_next :
      (z : Block) (zs : List Block)
      → IsHeap a e only s (xs ++ (b ∷ z ∷ zs)) listed
      → z.used ≡ false
      → (let s' = free_list_remove (a + total xs + b.size) s in
          NextMerged a e s
            (record s' {
              mem =
                  put_free
                    (a + total xs)
                    (blk_size s'.mem (a + total xs) + blk_size s'.mem (a + total xs + b.size))
                    s'.mem;
            })
            xs
            b
            (z ∷ zs))
  merge_free_next z zs v z_free =
      let h = a + total xs in
      let n = h + b.size in
      let rows = (Tiles-split s.mem a xs (b ∷ z ∷ zs) e v.tiles).1 in
      let one : 1 ≤ occurs n listed =
        ground
          (arith, v.complete n, free_at-append n a xs (b ∷ z ∷ zs), free, z_free, (rows.0).large) in
      let u = free_list_remove-Unlisted a e only n s (xs ++ (b ∷ z ∷ zs)) listed v one in
      let s' = free_list_remove n s in
      let rows' = (Tiles-split s'.mem a xs (b ∷ z ∷ zs) e u.valid.tiles).1 in
      let b_size = (read_tag s'.mem h b rows'.0).0 in
      let z_size = (read_tag s'.mem n z rows'.1.0).0 in
      let j =
        joined-Merged a e (λ g. (if n == g then 1 else 0) + only g) s' xs b z zs u.rest free z_free
          u.valid (λ g. ground arith) in
      rw (b_size, z_size)
        (record {
          block = join b z;
          behind = zs;
          joins = free_right z zs z_free;
          merged = record {
            listed = j.listed;
            valid = j.valid;
            same_free = j.same_free;
            spared = λ w out. j.spared w out ∙ u.spared w out;
          };
        })

  pub merge_next-NextMerged :
      (zs : List Block)
      → IsHeap a e only s (xs ++ (b ∷ zs)) listed
      → NextMerged a e s (merge_next (a + total xs) s) xs b zs
  unfolding merge_next
  merge_next-NextMerged [] v =
      let h = a + total xs in
      let rows = (Tiles-split s.mem a xs (b ∷ []) e v.tiles).1 in
      let b_size = (read_tag s.mem h b rows.0).0 in
      let at_end : leb s.heap_end (h + b.size) ≡ true = ground (arith, rows.1, v.end_is) in
      rw (merge_next, b_size, at_end)
        (record { block = b; behind = []; joins = no_right; merged = unchanged [] v })
  merge_next-NextMerged (z ∷ zs) v =
      let h = a + total xs in
      let n = h + b.size in
      let rows = (Tiles-split s.mem a xs (b ∷ z ∷ zs) e v.tiles).1 in
      let b_size = (read_tag s.mem h b rows.0).0 in
      let z_alloc = (read_tag s.mem n z rows.1.0).1 in
      let end = Tiles-end s.mem (n + z.size) zs e rows.1.1 in
      let inside : leb s.heap_end n ≡ false = ground (arith, v.end_is, end, (rows.1.0).large) in
      rw (merge_next, b_size, inside)
        (if_split (λ (s' : Heap). NextMerged a e s s' xs b (z ∷ zs)) (blk_alloc s.mem n)
          (λ taken. record {
            block = b;
            behind = z ∷ zs;
            joins = used_right z zs (sym z_alloc ∙ taken);
            merged = unchanged (z ∷ zs) v;
          })
          (λ z_free. merge_free_next z zs v (sym z_alloc ∙ z_free)))
