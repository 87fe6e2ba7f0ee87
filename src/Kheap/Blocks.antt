-- ===== src/Kheap/Blocks.antt =====
-- The heap of kernel/kheap.c as a row of blocks.
use deanos.Prelude.{
  ℕ, List, ◌≡◌, ◌++◌, ◌∷◌, if◌then◌else◌, ◌≤◌, Bool, ◌+◌, not, ◌||◌, ◌<◌, false, arith, ◌∙◌,
  Bool-cases, ◌-◌, ◌&&◌, [], sym, refl, leb, ◌==◌, ◌%◌, inl, ltb, inr, ap,
}
use deanos.Kheap.{Words}

-- A block in address order: its size in bytes with header and footer, and whether it is allocated.
pub record Block : Type 0 where
  pub size : ℕ
  pub used : Bool

abbrev pub tag : Block → ℕ
tag b = if b.used then b.size + 1 else b.size

-- The memory has the block at `a`.
pub record IsBlock (m : Words) (a : ℕ) (b : Block) : Type 0 where
  pub header : m a ≡ tag b
  pub footer : m (a + b.size - 4) ≡ tag b
  pub aligned : b.size % 8 ≡ 0
  pub large : 16 ≤ b.size

-- The memory has the blocks one behind the other from `a` to `e`.
abbrev pub Tiles : Words → (a : ℕ) → List Block → (e : ℕ) → Type 0
Tiles m a [] e = a ≡ e
Tiles m a (b ∷ bs) e = IsBlock m a b × Tiles m (a + b.size) bs e

abbrev pub total : List Block → ℕ
total [] = 0
total (b ∷ bs) = b.size + total bs

-- How many free blocks start at `h`, with the first block at `a`.
abbrev pub free_at : (h a : ℕ) → List Block → ℕ
free_at h a [] = 0
free_at h a (b ∷ bs) = (if not b.used && a == h then 1 else 0) + free_at h (a + b.size) bs

-- The address lies in a free block.
abbrev pub in_free : (a : ℕ) → List Block → (w : ℕ) → Bool
in_free a [] w = false
in_free a (b ∷ bs) w = not b.used && (leb a w && ltb w (a + b.size)) || in_free (a + b.size) bs w

pub total-append : (xs ys : List Block) → total (xs ++ ys) ≡ total xs + total ys
total-append [] ys = omega arith
total-append (x ∷ xs) ys = omega (arith, total-append xs ys)

pub Tiles-end : (m : Words) (a : ℕ) (bs : List Block) (e : ℕ) → Tiles m a bs e → e ≡ a + total bs
Tiles-end m a [] e t = omega (arith, t)
Tiles-end m a (b ∷ bs) e t = omega (arith, Tiles-end m (a + b.size) bs e t.1)

pub Tiles-frame :
    (m m' : Words) (a : ℕ) (bs : List Block) (e : ℕ)
    → Tiles m a bs e
    → ((w : ℕ) → a ≤ w → w < e → m' w ≡ m w)
    → Tiles m' a bs e
Tiles-frame m m' a [] e t same = t
Tiles-frame m m' a (b ∷ bs) e t same =
    let end = Tiles-end m (a + b.size) bs e t.1 in
    let k = t.0 in
    (
      record {
        header = same a (omega arith) (omega (arith, k.large)) ∙ k.header;
        footer = same (a + b.size - 4) (omega (arith, k.large)) (omega (arith, k.large)) ∙ k.footer;
        aligned = k.aligned;
        large = k.large;
      },
      Tiles-frame m m' (a + b.size) bs e t.1 (λ w le lt. same w (omega arith) lt),
    )

pub Tiles-append :
    (m : Words) (a : ℕ) (xs ys : List Block) (x e : ℕ)
    → Tiles m a xs x
    → Tiles m x ys e
    → Tiles m a (xs ++ ys) e
Tiles-append m a [] ys x e t u = rw t u
Tiles-append m a (b ∷ xs) ys x e t u = (t.0, Tiles-append m (a + b.size) xs ys x e t.1 u)

pub Tiles-split :
    (m : Words) (a : ℕ) (xs ys : List Block) (e : ℕ)
    → Tiles m a (xs ++ ys) e
    → Tiles m a xs (a + total xs) × Tiles m (a + total xs) ys e
Tiles-split m a [] ys e t = let same : a + 0 ≡ a = omega arith in (sym same, rw same t)
Tiles-split m a (b ∷ xs) ys e t =
    let same : a + b.size + total xs ≡ a + (b.size + total xs) = omega arith in
    let (u, v) = Tiles-split m (a + b.size) xs ys e t.1 in ((t.0, rw (← same) u), rw (← same) v)

pub free_at-append :
    (h a : ℕ) (xs ys : List Block)
    → free_at h a (xs ++ ys) ≡ free_at h a xs + free_at h (a + total xs) ys
free_at-append h a [] ys = let same : a + 0 ≡ a = omega arith in rw same (omega arith)
free_at-append h a (b ∷ xs) ys =
    let same : a + b.size + total xs ≡ a + (b.size + total xs) = omega arith in
    rw (free_at-append h (a + b.size) xs ys, same) (omega arith)

pub in_free-append :
    (a : ℕ) (xs ys : List Block) (w : ℕ)
    → in_free a (xs ++ ys) w ≡ (in_free a xs w || in_free (a + total xs) ys w)
in_free-append a [] ys w = let same : a + 0 ≡ a = omega arith in rw same refl
in_free-append a (b ∷ xs) ys w =
    let same : a + b.size + total xs ≡ a + (b.size + total xs) = omega arith in
    rw (in_free-append (a + b.size) xs ys w, same) (ground arith)

-- A free block that starts at `h` lies within the row.
pub free_at-within :
    (m : Words) (h a : ℕ) (bs : List Block) (e : ℕ)
    → Tiles m a bs e
    → 1 ≤ free_at h a bs
    → (a ≤ h) × (h + 16 ≤ e)
free_at-within m h a [] e t one = absurd (omega (arith, one))
free_at-within m h a (b ∷ bs) e t one =
    let end = Tiles-end m (a + b.size) bs e t.1 in
    let large = (t.0).large in
    elim (Bool-cases (not b.used && a == h)) [
      | inl here ↦ (ground (arith, here), ground (arith, here, end, large))
      | inr other ↦
          let rest = free_at-within m h (a + b.size) bs e t.1 (ground (arith, other)) in
          (omega (arith, rest.0), omega (arith, rest.1))
    ]

-- The place of a free block in the row.
pub record Located (h a : ℕ) (bs : List Block) : Type 0 where
  pub before : List Block
  pub block : Block
  pub behind : List Block
  pub parts : bs ≡ before ++ (block ∷ behind)
  pub place : h ≡ a + total before
  pub free : block.used ≡ false

pub free_at-Located : (h a : ℕ) (bs : List Block) → 1 ≤ free_at h a bs → Located h a bs
free_at-Located h a [] one = absurd (omega (arith, one))
free_at-Located h a (b ∷ bs) one = elim (Bool-cases (not b.used && a == h)) [
  | inl here ↦ record {
    before = [];
    block = b;
    behind = bs;
    parts = refl;
    place = ground (arith, here);
    free = ground (arith, here);
  }
  | inr other ↦
      let rest = free_at-Located h (a + b.size) bs (ground (arith, other)) in
      record {
        before = b ∷ rest.before;
        block = rest.block;
        behind = rest.behind;
        parts = ap (λ (l : List Block). b ∷ l) rest.parts;
        place = omega (arith, rest.place);
        free = rest.free;
      }
]
