-- ===== src/Kheap/Valid.antt =====
-- What holds of the heap of kernel/kheap.c between and during its operations.
use deanos.Prelude.{
  ℕ, List, ◌≤◌, ◌<◌, ◌%◌, ◌∷◌, ◌≢◌, arith, ◌+◌, ◌≡◌, false, inl, Bool-cases, ◌⊎◌, true, leb, inr,
  ◌∙◌, [], ◌-◌, refl,
}
use deanos.Kheap.{Words, Heap}
use deanos.Kheap.Blocks.{Block, Tiles, free_at, free_at-within, Tiles-end, in_free, IsBlock}
use deanos.Kheap.Chain.{Proper, occurs, Chain}

-- Between the addresses `a` and `e` the memory has the blocks, and the free list has each free block once, but for `loose` ones, which an
-- operation in progress has taken off or not put on yet.
pub record IsHeap (a e : ℕ) (loose : ℕ → ℕ) (s : Heap) (blocks : List Block) (listed : List ℕ)
    : Type 0 where
  pub base_is : s.heap_base ≡ a
  pub end_is : s.heap_end ≡ e
  pub ready : s.initialized ≡ true
  pub low : 8 ≤ a
  pub based : a % 8 ≡ 0
  pub tiles : Tiles s.mem a blocks e
  pub chain : Chain s.mem 0 s.free_head listed
  pub complete : (h : ℕ) → occurs h listed + loose h ≡ free_at h a blocks

free_at-here :
    (h a : ℕ) (b : Block) (bs : List Block)
    → 1 ≤ free_at h a (b ∷ bs)
    → ((b.used ≡ false) × (a ≡ h)) ⊎ (1 ≤ free_at h (a + b.size) bs)
free_at-here h a b bs one = ground arith

-- A free block starts at a multiple of 8, and just once.
pub free_at-aligned :
    (m : Words) (h a : ℕ) (bs : List Block) (e : ℕ)
    → Tiles m a bs e
    → a % 8 ≡ 0
    → 1 ≤ free_at h a bs
    → h % 8 ≡ 0
free_at-aligned m h a [] e t based one = absurd (omega (arith, one))
free_at-aligned m h a (b ∷ bs) e t based one = elim (free_at-here h a b bs one) [
  | inl here ↦ omega (arith, here.1)
  | inr later ↦ free_at-aligned m h (a + b.size) bs e t.1 (omega (arith, (t.0).aligned)) later
]

pub free_at-once :
    (m : Words) (h a : ℕ) (bs : List Block) (e : ℕ) → Tiles m a bs e → free_at h a bs ≤ 1
free_at-once m h a [] e t = omega arith
free_at-once m h a (b ∷ bs) e t =
    let rest = free_at-once m h (a + b.size) bs e t.1 in
    let within = free_at-within m h (a + b.size) bs e t.1 in
    let large = (t.0).large in
    elim (Bool-cases (leb 1 (free_at h (a + b.size) bs))) [
      | inl later ↦
          let apart = within (ground (arith, later)) in ground (arith, rest, apart.0, large)
      | inr gone ↦ ground (arith, gone)
    ]

-- The block that starts there.
pub free_at-block :
    (m : Words) (h a : ℕ) (bs : List Block) (e : ℕ)
    → Tiles m a bs e
    → 1 ≤ free_at h a bs
    → (b : Block) × (b.used ≡ false) × IsBlock m h b
free_at-block m h a [] e t one = absurd (omega (arith, one))
free_at-block m h a (b ∷ bs) e t one = elim (free_at-here h a b bs one) [
  | inl here ↦ (b, here.0, rw (← here.1) t.0)
  | inr later ↦ free_at-block m h (a + b.size) bs e t.1 later
]

-- The words of the links of a free block lie in it.
pub free_at-in_free :
    (m : Words) (h a : ℕ) (bs : List Block) (e w : ℕ)
    → Tiles m a bs e
    → 1 ≤ free_at h a bs
    → h ≤ w
    → w < h + 16
    → in_free a bs w ≡ true
free_at-in_free m h a [] e w t one le lt = absurd (omega (arith, one))
free_at-in_free m h a (b ∷ bs) e w t one le lt = elim (free_at-here h a b bs one) [
  | inl here ↦ let large = (t.0).large in ground (arith, here.0, here.1, large)
  | inr later ↦
      let rest = free_at-in_free m h (a + b.size) bs e w t.1 later le lt in ground (arith, rest)
]

-- The address is no link of a free block.
abbrev pub IsNoLink : (a : ℕ) → List Block → ℕ → Type 0
IsNoLink a bs w = (g : ℕ) → 1 ≤ free_at g a bs → (w ≢ g + 4) × (w ≢ g + 8)

-- Links are no part of headers and footers, since no block is below 16 bytes.
pub Tiles-links :
    (m m' : Words) (a : ℕ) (bs : List Block) (e : ℕ)
    → Tiles m a bs e
    → ((w : ℕ) → a ≤ w → w < e → IsNoLink a bs w → m' w ≡ m w)
    → Tiles m' a bs e
Tiles-links m m' a [] e t same = t
Tiles-links m m' a (b ∷ bs) e t same =
    let k = t.0 in
    let end = Tiles-end m (a + b.size) bs e t.1 in
    let behind : (g : ℕ) → 1 ≤ free_at g a (b ∷ bs) → (a ≡ g) ⊎ (a + b.size ≤ g) = λ g one.
      elim (free_at-here g a b bs one) [
        | inl here ↦ inl here.1
        | inr later ↦ inr (free_at-within m g (a + b.size) bs e t.1 later).0
      ] in
    let no_link : (w : ℕ) → ((w ≡ a) ⊎ (a + 12 ≤ w)) → w < a + b.size → IsNoLink a (b ∷ bs) w =
      λ w place lt g one. elim (behind g one) [
        | inl here ↦
            ((λ e'. ground (arith, place, here, e')), (λ e'. ground (arith, place, here, e')))
        | inr later ↦ ((λ e'. omega (arith, later)), (λ e'. omega (arith, later)))
      ] in
    (
      record {
        header =
            same a (omega arith) (omega (arith, k.large))
              (no_link a (inl refl) (omega (arith, k.large)))
            ∙ k.header;
        footer =
            same (a + b.size - 4) (omega (arith, k.large)) (omega (arith, k.large))
              (no_link (a + b.size - 4) (inr (omega (arith, k.large))) (omega (arith, k.large)))
            ∙ k.footer;
        aligned = k.aligned;
        large = k.large;
      },
      Tiles-links m m' (a + b.size) bs e t.1 (λ w le lt apart. same w (omega arith) lt (λ g one.
          elim (free_at-here g a b bs one) [
            | inl here ↦
                ((λ e'. omega (arith, k.large, here.1)), (λ e'. omega (arith, k.large, here.1)))
            | inr later ↦ apart g later
          ])),
    )

-- The address is a link of a listed block, so of a free one.
module _ {a e : ℕ} (loose : ℕ → ℕ) (s : Heap) (blocks : List Block) (listed : List ℕ)
    (v : IsHeap a e loose s blocks listed) where
  pub listed-free : (h : ℕ) → 1 ≤ occurs h listed → 1 ≤ free_at h a blocks
  listed-free h one = omega (arith, v.complete h)

  pub listed-Proper : Proper listed
  listed-Proper h one =
      let free = listed-free h one in
      let within = free_at-within s.mem h a blocks e v.tiles free in
      (
        free_at-aligned s.mem h a blocks e v.tiles v.based free,
        omega (arith, v.low, within.0),
        omega (arith, v.complete h, one, free_at-once s.mem h a blocks e v.tiles),
      )
