-- ===== src/Kheap/Previous.antt =====
-- `merge_prev` of kernel/kheap.c.
use mathlib.Core.List
use deanos.Prelude.{
  ℕ, List, ◌≡◌, [], false, ◌+◌, ◌⊎◌, ◌++◌, ◌∷◌, inl, arith, inr, subst, leb, ap, refl, ◌≤◌, true,
  ◌-◌, ◌∙◌, sym, ltb, if◌then◌else◌, if_split, ◌==◌, ◌^◌,
}
use deanos.Kheap.Blocks.{Block, total, total-append, Tiles-split, free_at-append}
use deanos.Kheap.{Heap, merge_prev, free_list_remove, put_free, blk_size, size_of, blk_alloc}
use deanos.Kheap.Neighbors.{JoinsLeft, only, no_left, unchanged, used_left, free_left}
use deanos.Kheap.Valid.{IsHeap}
use deanos.Kheap.Merge.{Merged, read_tag, joined-Merged, join}
use deanos.Kheap.Chain.{occurs}
use deanos.Kheap.Remove.{free_list_remove-Unlisted}

-- What `merge_prev` gives, the header of the block and the heap.
pub record PrevMerged (a e : ℕ) (old : List Block) (s : Heap) (xs : List Block) (b : Block)
    (zs : List Block) (r : ℕ × Heap) : Type 0 where
  pub before : List Block
  pub block : Block
  pub joins : JoinsLeft b xs before block
  pub place : r.0 ≡ a + total before
  pub merged : Merged a e old s r.1 before block zs

-- The list is empty or has a last element.
last_cases :
    (xs : List Block) → (xs ≡ []) ⊎ ((ys : List Block) × (y : Block) × (xs ≡ ys ++ (y ∷ [])))
last_cases [] = inl refl
last_cases (x ∷ xs) = elim (last_cases xs) [
  | inl nothing ↦ inr ([], x, ap (λ (l : List Block). x ∷ l) nothing)
  | inr (ys, y, parts) ↦ inr (x ∷ ys, y, ap (λ (l : List Block). x ∷ l) parts)
]

module _ (a e : ℕ) (s : Heap) (b : Block) (zs : List Block) (listed : List ℕ)
    (free : b.used ≡ false) where
  merge_free_prev :
      (ys : List Block) (y : Block)
      → IsHeap a e (only a e s (ys ++ (y ∷ [])) b listed free) s (ys ++ (y ∷ b ∷ zs)) listed
      → y.used ≡ false
      → (let p = a + total ys in
          let s' = free_list_remove p s in
          PrevMerged a e (ys ++ (y ∷ b ∷ zs)) s (ys ++ (y ∷ [])) b zs (
            p,
            record s' {
              mem =
                  put_free p
                    (blk_size s'.mem p + blk_size s'.mem (a + total (ys ++ (y ∷ []))))
                    s'.mem;
            },
          ))
  merge_free_prev ys y v y_free =
      let p = a + total ys in
      let h = a + total (ys ++ (y ∷ [])) in
      let is_h : h ≡ p + y.size = omega (arith, total-append ys (y ∷ [])) in
      let rows = (Tiles-split s.mem a ys (y ∷ b ∷ zs) e v.tiles).1 in
      let one : 1 ≤ occurs p listed =
        ground
          (arith, v.complete p, free_at-append p a ys (y ∷ b ∷ zs), y_free, is_h, (rows.0).large) in
      let loose = only a e s (ys ++ (y ∷ [])) b listed free in
      let u = free_list_remove-Unlisted a e loose p s (ys ++ (y ∷ b ∷ zs)) listed v one in
      let s' = free_list_remove p s in
      let rows' = (Tiles-split s'.mem a ys (y ∷ b ∷ zs) e u.valid.tiles).1 in
      let y_size = (read_tag s'.mem p y rows'.0).0 in
      let b_size : blk_size s'.mem h ≡ b.size =
        ap (blk_size s'.mem) is_h ∙ (read_tag s'.mem (p + y.size) b rows'.1.0).0 in
      let j =
        joined-Merged a e (λ g. (if p == g then 1 else 0) + loose g) s' ys y b zs u.rest y_free free
          u.valid (λ g. ground (arith, is_h)) in
      rw (y_size, b_size)
        (record {
          before = ys;
          block = join y b;
          joins = free_left ys y y_free;
          place = refl;
          merged = record {
            listed = j.listed;
            valid = j.valid;
            same_free = j.same_free;
            spared = λ w out. j.spared w out ∙ u.spared w out;
          };
        })

  merge_prev_last :
      (ys : List Block) (y : Block) (old : List Block)
      → old ≡ ys ++ (y ∷ b ∷ zs)
      → IsHeap a e (only a e s (ys ++ (y ∷ [])) b listed free) s old listed
      → Merged a e old s s (ys ++ (y ∷ [])) b zs
      → PrevMerged a e old s (ys ++ (y ∷ [])) b zs (merge_prev (a + total (ys ++ (y ∷ []))) s)
  unfolding merge_prev
  merge_prev_last ys y old parts v same =
      let p = a + total ys in
      let h = a + total (ys ++ (y ∷ [])) in
      let is_h : h ≡ p + y.size = omega (arith, total-append ys (y ∷ [])) in
      let v' : IsHeap a e (only a e s (ys ++ (y ∷ [])) b listed free) s (ys ++ (y ∷ b ∷ zs))
          listed =
        rw (← parts) v in
      let y_row = (Tiles-split s.mem a ys (y ∷ b ∷ zs) e v'.tiles).1.0 in
      let y_tag = read_tag s.mem p y y_row in
      let size_before : size_of (s.mem (h - 4)) ≡ y.size =
        ap (λ (k : ℕ). size_of (s.mem (k - 4))) is_h
        ∙ ap size_of (y_row.footer ∙ sym y_row.header)
        ∙ y_tag.0 in
      let psz = size_of (s.mem (h - 4)) in
      let at_p : (if leb psz h then h - psz else h + 2 ^ 32 - psz) ≡ p =
        ground (arith, is_h, size_before) in
      let not_first : leb h s.heap_base ≡ false = ground (arith, v.base_is, is_h, y_row.large) in
      let footer_inside : ltb (h - 4) s.heap_base ≡ false =
        ground (arith, v.base_is, is_h, y_row.large) in
      let header_inside : ltb p s.heap_base ≡ false = ground (arith, v.base_is) in
      rw (merge_prev, not_first, footer_inside, at_p, header_inside)
        (if_split (λ (r : ℕ × Heap). PrevMerged a e old s (ys ++ (y ∷ [])) b zs r)
          (blk_alloc s.mem p)
          (λ taken. record {
            before = ys ++ (y ∷ []);
            block = b;
            joins = used_left ys y (sym y_tag.1 ∙ taken);
            place = refl;
            merged = same;
          })
          (λ y_free. rw parts (merge_free_prev ys y v' (sym y_tag.1 ∙ y_free))))

  pub merge_prev-PrevMerged :
      (xs : List Block)
      → IsHeap a e (only a e s xs b listed free) s (xs ++ (b ∷ zs)) listed
      → PrevMerged a e (xs ++ (b ∷ zs)) s xs b zs (merge_prev (a + total xs) s)
  unfolding merge_prev
  merge_prev-PrevMerged xs v = elim (last_cases xs) [
    | inl nothing ↦
        let v' : IsHeap a e (only a e s [] b listed free) s (b ∷ zs) listed =
          subst
            (λ (l : List Block). IsHeap a e (only a e s l b listed free) s (l ++ (b ∷ zs)) listed)
            nothing v in
        let at_start : leb (a + 0) s.heap_base ≡ true = ground (arith, v.base_is) in
        rw nothing (
          rw (merge_prev, at_start)
            (record {
              before = [];
              block = b;
              joins = no_left;
              place = refl;
              merged = unchanged a e s [] b listed free zs v';
            }))
    | inr (ys, y, parts) ↦
        let v' =
          subst
            (λ (l : List Block). IsHeap a e (only a e s l b listed free) s (l ++ (b ∷ zs)) listed)
            parts v in
        rw parts (
          merge_prev_last ys y ((ys ++ (y ∷ [])) ++ (b ∷ zs))
            (List.append_assoc ys (y ∷ []) (b ∷ zs)) v'
            (unchanged a e s (ys ++ (y ∷ [])) b listed free zs v'))
  ]
