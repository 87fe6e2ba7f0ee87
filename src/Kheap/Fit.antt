-- ===== src/Kheap/Fit.antt =====
-- `find_fit` of kernel/kheap.c looks at every free block.
use deanos.Kheap.{Words, find_fit, find_from, Heap, blk_alloc, blk_size, min_block_size}
use deanos.Prelude.{
  ℕ, List, length, Option, ◌∷◌, ◌≤◌, ◌≡◌, if◌then◌else◌, ◌<◌, ◌+◌, arith, ◌==◌, true, ◌-◌, ◌*◌, [],
  suc, not, ◌⊎◌, refl, ◌/◌, ◌&&◌, leb, none, some, false, Bool-cases, inl, inr, if_split, zero,
}
use deanos.Kheap.Blocks.{Block, Tiles, free_at}
use deanos.Kheap.Chain.{Chain, occurs}
use deanos.Kheap.Valid.{IsHeap, free_at-once}

-- The list without an element.
abbrev drop_all : ℕ → List ℕ → List ℕ
drop_all a [] = []
drop_all a (x ∷ xs) = let rest = drop_all a xs in if x == a then rest else x ∷ rest

length-drop_all : (a : ℕ) (xs : List ℕ) → length xs ≡ occurs a xs + length (drop_all a xs)
length-drop_all a [] = omega arith
length-drop_all a (x ∷ xs) = ground (arith, length-drop_all a xs)

occurs-drop_all :
    (a g : ℕ) (xs : List ℕ) → occurs g (drop_all a xs) ≡ (if a == g then 0 else occurs g xs)
occurs-drop_all a g [] = ground arith
occurs-drop_all a g (x ∷ xs) = ground (arith, occurs-drop_all a g xs)

none_occur : (hs : List ℕ) → ((g : ℕ) → occurs g hs ≤ 0) → length hs ≡ 0
none_occur [] none_left = refl
none_occur (x ∷ xs) none_left = let first = none_left x in absurd (ground (arith, first))

-- There is room for each listed block.
length-listed :
    (m : Words) (a : ℕ) (bs : List Block) (e : ℕ) (hs : List ℕ)
    → Tiles m a bs e
    → ((g : ℕ) → occurs g hs ≤ free_at g a bs)
    → 16 * length hs + a ≤ e
length-listed m a [] e hs t few = omega (arith, none_occur hs few, t)
length-listed m a (b ∷ bs) e hs t few =
    let rest = length-listed m (a + b.size) bs e (drop_all a hs) t.1 (λ g.
      let here = few g in let later = occurs-drop_all a g hs in ground (arith, here, later)) in
    omega (arith, rest, length-drop_all a hs, few a, free_at-once m a a (b ∷ bs) e t, (t.0).large)

-- What a search for `wanted` bytes finds in the list.
pub data Fits (m : Words) (wanted : ℕ) (hs : List ℕ) : Option ℕ → Type 0 where
  nothing_fits :
      ((h : ℕ) → 1 ≤ occurs h hs → (blk_alloc m h ≡ true) ⊎ (blk_size m h < wanted))
      → Fits m wanted hs none
  fits : (h : ℕ) → 1 ≤ occurs h hs → wanted ≤ blk_size m h → Fits m wanted hs (some h)

find_from-Fits :
    (fuel : ℕ) (m : Words) (p cur wanted : ℕ) (hs : List ℕ)
    → Chain m p cur hs
    → length hs < fuel
    → Fits m wanted hs (find_from fuel m cur wanted)
unfolding find_from
find_from-Fits zero m p cur wanted hs c enough = absurd (omega arith)
find_from-Fits (suc fuel) m p cur wanted [] c enough =
    let at_end : (cur == 0) ≡ true = ground (arith, c) in
    rw at_end (nothing_fits (λ h one. absurd (omega arith)))
find_from-Fits (suc fuel) m p cur wanted (h ∷ hs) c enough =
    let inside : (cur == 0) ≡ false = ground (arith, c.0) in
    let is_h : cur - 4 ≡ h = omega (arith, c.0) in
    let is_next : cur + 4 ≡ h + 8 = omega (arith, c.0) in
    let rest = find_from-Fits fuel m (h + 4) (m (h + 8)) wanted hs c.2 (omega arith) in
    rw (inside, is_h, is_next)
      (if_split (Fits m wanted (h ∷ hs)) (not (blk_alloc m h) && leb wanted (blk_size m h))
        (λ good. fits h (ground arith) (ground (arith, good)))
        (λ bad. later (find_from fuel m (m (h + 8)) wanted) rest bad))
  where
    later :
        (o : Option ℕ)
        → Fits m wanted hs o
        → (not (blk_alloc m h) && leb wanted (blk_size m h)) ≡ false
        → Fits m wanted (h ∷ hs) o
    later _ (nothing_fits small) bad = nothing_fits (λ g one. elim (Bool-cases (h == g)) [
      | inl here ↦
          let same : h ≡ g = ground (arith, here) in
          rw (← same) (elim (Bool-cases (blk_alloc m h)) [
            | inl taken ↦ inl taken
            | inr free ↦ inr (ground (arith, bad, free))
          ])
      | inr other ↦ small g (ground (arith, other))
    ])
    later _ (fits g one large) bad = fits g (ground (arith, one)) large

pub find_fit-Fits :
    (a e : ℕ) (loose : ℕ → ℕ) (s : Heap) (blocks : List Block) (listed : List ℕ) (wanted : ℕ)
    → IsHeap a e loose s blocks listed
    → Fits s.mem wanted listed (find_fit wanted s)
unfolding find_fit
find_fit-Fits a e loose s blocks listed wanted v =
    let short = length-listed s.mem a blocks e listed v.tiles (λ g. omega (arith, v.complete g)) in
    rw (v.base_is, v.end_is)
      (find_from-Fits ((e - a) / min_block_size + 1) s.mem 0 s.free_head wanted listed v.chain
        (omega (arith, short)))
