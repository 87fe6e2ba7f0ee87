-- ===== src/Kheap/Insert.antt =====
-- A free block is put on the free list of kernel/kheap.c.
use deanos.Kheap.{free_list_insert, Words, Heap, mirror, store, blk_size}
use deanos.Prelude.{
  ℕ, ◌+◌, List, ◌%◌, ◌≡◌, ◌-◌, ◌≢◌, if◌then◌else◌, ◌∷◌, ◌⊎◌, ◌==◌, arith, ◌≤◌, inl, refl, ◌∙◌,
  Bool-cases, inr, ap, [], sym,
}
use deanos.Kheap.Blocks.{Block, free_at}
use deanos.Kheap.Chain.{Proper, occurs, Chain, Chain-frame}
use deanos.Kheap.Valid.{
  IsHeap, IsNoLink, listed-Proper, free_at-block, Tiles-links, free_at-aligned, free_at-once,
  free_at-in_free, listed-free,
}
use deanos.Kheap.Remove.{IsLink, Spares}

-- What `free_list_insert` writes: the tags stay, and the block's links and the one back from the old
-- first block are set.
record Linked (m m' : Words) (h head : ℕ) : Type 0 where
  first : m' (h + 4) ≡ 0
  onward : m' (h + 8) ≡ head
  back : head ≢ 0 → m' head ≡ h + 4
  others : (w : ℕ) → w ≢ h + 4 → w ≢ h + 8 → (head ≡ 0) ⊎ (w ≢ head) → m' w ≡ m w

-- Writing the tags of a free block again changes nothing.
same_tags :
    (m : Words) (h : ℕ)
    → m h % 2 ≡ 0
    → m (h + m h - 4) ≡ m h
    → (w : ℕ) → mirror (store m h (blk_size m h)) h w ≡ m w
same_tags m h even mirrored w =
    let size : blk_size m h ≡ m h = omega (arith, even) in
    let marked : (v : ℕ) → store m h (m h) v ≡ m v = λ v. elim (Bool-cases (v == h)) [
      | inl here ↦ let e : v ≡ h = ground (arith, here) in rw here (ap m (sym e))
      | inr other ↦ rw other refl
    ] in
    let at_h : store m h (m h) h ≡ m h = marked h in
    rw (size, at_h, size)
      (elim (Bool-cases (w == h + m h - 4)) [
        | inl here ↦
            let e : w ≡ h + m h - 4 = ground (arith, here) in rw here (sym mirrored ∙ ap m (sym e))
        | inr other ↦ rw other (marked w)
      ])

inserted-Linked :
    (h : ℕ) (s : Heap)
    → s.mem h % 2 ≡ 0
    → s.mem (h + s.mem h - 4) ≡ s.mem h
    → h % 8 ≡ 0
    → IsLink s.free_head
    → s.free_head ≢ h + 4
    → Linked s.mem (free_list_insert h s).mem h s.free_head
unfolding free_list_insert
inserted-Linked h s even mirrored aligned link apart =
    let same = same_tags s.mem h even mirrored in
    record {
      first = ground (arith, apart);
      onward = ground (arith, link, aligned);
      back = λ filled. ground (arith, filled);
      others = λ w e e' e''. ground (arith, same w, e, e', e'');
    }

-- The chain behind the new first block.
Linked-Chain :
    (m m' : Words) (h head : ℕ) (hs : List ℕ)
    → Linked m m' h head
    → h % 8 ≡ 0
    → Proper hs
    → occurs h hs ≡ 0
    → Chain m 0 head hs
    → Chain m' (h + 4) head hs
Linked-Chain m m' h head [] l aligned proper fresh c = c
Linked-Chain m m' h head (y ∷ ys) l aligned proper fresh c =
    let head_y : head ≡ y + 4 = c.0 in
    let apart : (g : ℕ) → 1 ≤ occurs g (y ∷ ys) → (g % 8 ≡ 0) × (g ≢ h) = λ g one. (
      (proper g one).0,
      λ same.
          let gone : occurs g (y ∷ ys) ≡ 0 = ap (λ (k : ℕ). occurs k (y ∷ ys)) same ∙ fresh in
          absurd (omega arith),
    ) in
    let next_kept : (g : ℕ) → 1 ≤ occurs g (y ∷ ys) → m' (g + 8) ≡ m (g + 8) = λ g one.
      let k = apart g one in
      let y_aligned = (apart y (ground arith)).0 in
      l.others (g + 8) (λ e. absurd (omega (arith, k.0))) (λ e. k.1 (omega arith))
        (inr (λ e. absurd (omega (arith, k.0, y_aligned)))) in
    (
      head_y,
      ap m' (sym head_y) ∙ l.back (λ zero_head. absurd (omega arith)),
      rw (next_kept y (ground arith)) (
          Chain-frame m m' (y + 4) (m (y + 8)) ys c.2 (λ g one.
            let in_all : 1 ≤ occurs g (y ∷ ys) = omega (arith, one) in
            let k = apart g in_all in
            let g_not_y : g ≢ y = λ same.
              let twice = (proper g in_all).2 in absurd (ground (arith, twice, one, same)) in
            (
              l.others (g + 4) (λ e. k.1 (omega arith)) (λ e. absurd (omega (arith, k.0)))
                  (inr (λ e. g_not_y (omega arith))),
              next_kept g in_all,
            ))),
    )

-- `h` was put on the free list.
pub record Listed (a e : ℕ) (loose : ℕ → ℕ) (h : ℕ) (blocks : List Block) (listed : List ℕ)
    (s s' : Heap) : Type 0 where
  pub valid : IsHeap a e loose s' blocks (h ∷ listed)
  pub spared : Spares a blocks s.mem s'.mem

module _ (a e : ℕ) (loose : ℕ → ℕ) (h : ℕ) (s : Heap) (blocks : List Block) (listed : List ℕ)
    (v : IsHeap a e (λ g. (if h == g then 1 else 0) + loose g) s blocks listed) where
  -- The block is free, and not listed yet.
  is_free : 1 ≤ free_at h a blocks
  is_free = ground (arith, v.complete h)

  is_fresh : occurs h listed ≡ 0
  is_fresh = ground (arith, v.complete h, free_at-once s.mem h a blocks e v.tiles)

  aligned : h % 8 ≡ 0
  aligned = free_at-aligned s.mem h a blocks e v.tiles v.based is_free

  proper : Proper listed
  proper = listed-Proper (λ g. (if h == g then 1 else 0) + loose g) s blocks listed v

  head-IsLink : IsLink s.free_head × (s.free_head ≢ h + 4)
  head-IsLink = by_list listed proper is_fresh v.chain
    where
      by_list :
          (hs : List ℕ)
          → Proper hs
          → occurs h hs ≡ 0
          → Chain s.mem 0 s.free_head hs
          → IsLink s.free_head × (s.free_head ≢ h + 4)
      by_list [] p fresh c = (inl c, λ same. absurd (omega (arith, c)))
      by_list (y ∷ ys) p fresh c =
          let y_aligned = (p y (ground arith)).0 in
          (
            inr (omega (arith, c.0)),
            λ same. absurd (let y_h : y ≡ h = omega (arith, c.0) in ground (arith, fresh, y_h)),
          )

  linked : Linked s.mem (free_list_insert h s).mem h s.free_head
  linked =
      let (b, free, k) = free_at-block s.mem h a blocks e v.tiles is_free in
      let tag_size : s.mem h ≡ b.size = k.header ∙ rw free refl in
      inserted-Linked h s (omega (arith, tag_size, k.aligned))
        (ap (λ (n : ℕ). s.mem (h + n - 4)) tag_size ∙ k.footer ∙ sym k.header) aligned head-IsLink.0
        head-IsLink.1

  -- Only links of free blocks change.
  links_only : (w : ℕ) → IsNoLink a blocks w → (free_list_insert h s).mem w ≡ s.mem w
  links_only w no_link =
      let mine = no_link h is_free in
      linked.others w mine.0 mine.1 (
        by_list listed v.chain
          (listed-free (λ g. (if h == g then 1 else 0) + loose g) s blocks listed v))
    where
      by_list :
          (hs : List ℕ)
          → Chain s.mem 0 s.free_head hs
          → ((g : ℕ) → 1 ≤ occurs g hs → 1 ≤ free_at g a blocks)
          → (s.free_head ≡ 0) ⊎ (w ≢ s.free_head)
      by_list [] c free = inl c
      by_list (y ∷ ys) c free =
          let y_apart = no_link y (free y (ground arith)) in
          inr (λ same. y_apart.0 (omega (arith, c.0)))

  new-Chain : Chain (free_list_insert h s).mem 0 (h + 4) (h ∷ listed)
  new-Chain = (
    refl,
    linked.first,
    rw linked.onward (
        Linked-Chain s.mem (free_list_insert h s).mem h s.free_head listed linked aligned proper
          is_fresh v.chain),
  )

  -- A free block that is not on the list is put on it, and no word outside of free blocks changes.
  pub free_list_insert-Listed : Listed a e loose h blocks listed s (free_list_insert h s)
  unfolding free_list_insert
  free_list_insert-Listed = record {
    valid = record {
      base_is = v.base_is;
      end_is = v.end_is;
      ready = v.ready;
      low = v.low;
      based = v.based;
      tiles =
          Tiles-links s.mem (free_list_insert h s).mem a blocks e v.tiles
            (λ w le lt no_link. links_only w no_link);
      chain = new-Chain;
      complete = λ g. omega (arith, v.complete g);
    };
    spared = λ w out. links_only w (λ g one.
        let inside = free_at-in_free s.mem g a blocks e w v.tiles one in
        (
          (λ same. absurd (ground (arith, out, inside (omega arith) (omega arith)))),
          (λ same. absurd (ground (arith, out, inside (omega arith) (omega arith)))),
        ));
  }
