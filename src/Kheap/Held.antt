-- ===== src/Kheap/Held.antt =====
-- The memory that the heap of kernel/kheap.c has given away, by pointers.
use deanos.Kheap.{Words}
use deanos.Prelude.{
  ℕ, List, ◌++◌, ◌≤◌, ◌≡◌, ◌∷◌, ◌+◌, ◌<◌, arith, if◌then◌else◌, true, ◌&&◌, ◌⊎◌, inl, [], inr, ◌==◌,
  Bool-cases, ap, leb, refl, false,
}
use deanos.Kheap.Blocks.{Block, Tiles, total, Tiles-end, Tiles-split, in_free}

-- The size of the block in use behind whose header `p` points, 0 for no such block.
abbrev pub held : (p a : ℕ) → List Block → ℕ
held p a [] = 0
held p a (b ∷ bs) = (if b.used && a + 4 == p then b.size else 0) + held p (a + b.size) bs

pub held-append :
    (p a : ℕ) (xs ys : List Block) → held p a (xs ++ ys) ≡ held p a xs + held p (a + total xs) ys
held-append p a [] ys = let same : a + 0 ≡ a = omega arith in rw same (omega arith)
held-append p a (b ∷ xs) ys =
    let same : a + b.size + total xs ≡ a + (b.size + total xs) = omega arith in
    rw (held-append p (a + b.size) xs ys, same) (omega arith)

held_cases :
    (p a : ℕ) (b : Block) (bs : List Block)
    → 1 ≤ held p a (b ∷ bs)
    → ((b.used ≡ true) × (a + 4 ≡ p)) ⊎ (1 ≤ held p (a + b.size) bs)
held_cases p a b bs one = ground arith

pub held-within :
    (m : Words) (p a : ℕ) (bs : List Block) (e : ℕ)
    → Tiles m a bs e
    → 1 ≤ held p a bs
    → (a + 4 ≤ p) × (p + held p a bs ≤ e + 4)
held-within m p a [] e t one = absurd (omega (arith, one))
held-within m p a (b ∷ bs) e t one =
    let end = Tiles-end m (a + b.size) bs e t.1 in
    let large = (t.0).large in
    elim (Bool-cases (leb 1 (held p (a + b.size) bs))) [
      | inl later ↦
          let rest = held-within m p (a + b.size) bs e t.1 (ground (arith, later)) in
          (omega (arith, rest.0), ground (arith, rest.0, rest.1, large))
      | inr gone ↦ (ground (arith, gone), ground (arith, gone, end))
    ]

-- Blocks at different places do not overlap.
pub held_apart :
    (m : Words) (p q a : ℕ) (bs : List Block) (e : ℕ)
    → Tiles m a bs e
    → 1 ≤ held p a bs
    → 1 ≤ held q a bs
    → p < q
    → p + held p a bs ≤ q
held_apart m p q a [] e t one_p one_q lt = absurd (omega (arith, one_p))
held_apart m p q a (b ∷ bs) e t one_p one_q lt =
    let large = (t.0).large in
    let within_p = held-within m p (a + b.size) bs e t.1 in
    let within_q = held-within m q (a + b.size) bs e t.1 in
    let q_later : 1 ≤ held q (a + b.size) bs = elim (held_cases q a b bs one_q) [
      | inl here ↦ elim (held_cases p a b bs one_p) [
        | inl here_p ↦ absurd (omega (arith, here.1, here_p.1))
        | inr later ↦ absurd (omega (arith, here.1, (within_p later).0))
      ]
      | inr later ↦ later
    ] in
    elim (Bool-cases (leb 1 (held p (a + b.size) bs))) [
      | inl later ↦
          let p_later : 1 ≤ held p (a + b.size) bs = ground (arith, later) in
          let rest = held_apart m p q (a + b.size) bs e t.1 p_later q_later lt in
          ground (arith, rest, (within_p p_later).0, large)
      | inr gone ↦ ground (arith, gone, (within_q q_later).0, one_p)
    ]

-- The place of a block in use.
pub record HeldAt (p a : ℕ) (bs : List Block) : Type 0 where
  pub before : List Block
  pub block : Block
  pub behind : List Block
  pub parts : bs ≡ before ++ (block ∷ behind)
  pub place : p ≡ a + total before + 4
  pub in_use : block.used ≡ true

pub held-HeldAt : (p a : ℕ) (bs : List Block) → 1 ≤ held p a bs → HeldAt p a bs
held-HeldAt p a [] one = absurd (omega (arith, one))
held-HeldAt p a (b ∷ bs) one = elim (held_cases p a b bs one) [
  | inl here ↦ record {
    before = [];
    block = b;
    behind = bs;
    parts = refl;
    place = omega (arith, here.1);
    in_use = here.0;
  }
  | inr later ↦
      let rest = held-HeldAt p (a + b.size) bs later in
      record {
        before = b ∷ rest.before;
        block = rest.block;
        behind = rest.behind;
        parts = ap (λ (l : List Block). b ∷ l) rest.parts;
        place = omega (arith, rest.place);
        in_use = rest.in_use;
      }
]

-- The block behind `xs` is the only one there.
pub held_place :
    (m : Words) (p a : ℕ) (xs : List Block) (b : Block) (zs : List Block) (e : ℕ)
    → Tiles m a (xs ++ (b ∷ zs)) e
    → p ≡ a + total xs + 4
    → held p a (xs ++ (b ∷ zs)) ≡ (if b.used then b.size else 0)
held_place m p a xs b zs e t place =
    let rows = Tiles-split m a xs (b ∷ zs) e t in
    let whole = held-append p a xs (b ∷ zs) in
    let large = (rows.1.0).large in
    let left : held p a xs ≡ 0 = elim (Bool-cases (leb 1 (held p a xs))) [
      | inl some_left ↦ absurd (
          let w = held-within m p a xs (a + total xs) rows.0 (ground (arith, some_left)) in
          ground (arith, w.1, place, some_left))
      | inr gone ↦ ground (arith, gone)
    ] in
    let x = a + total xs + b.size in
    let right : held p x zs ≡ 0 = elim (Bool-cases (leb 1 (held p x zs))) [
      | inl some_right ↦ absurd (
          let w = held-within m p x zs e rows.1.1 (ground (arith, some_right)) in
          omega (arith, w.0, place, large))
      | inr gone ↦ ground (arith, gone)
    ] in
    ground (arith, whole, left, right, place)

in_free_before : (a : ℕ) (bs : List Block) (w : ℕ) → w < a → in_free a bs w ≡ false
in_free_before a [] w lt = refl
in_free_before a (b ∷ bs) w lt =
    let rest = in_free_before (a + b.size) bs w (omega (arith, lt)) in ground (arith, rest, lt)

-- No word of a block in use lies in a free block.
pub held-in_free :
    (m : Words) (p a : ℕ) (bs : List Block) (e w : ℕ)
    → Tiles m a bs e
    → 1 ≤ held p a bs
    → p ≤ w + 4
    → w + 4 < p + held p a bs
    → in_free a bs w ≡ false
held-in_free m p a [] e w t one le lt = refl
held-in_free m p a (b ∷ bs) e w t one le lt =
    let large = (t.0).large in
    let within = held-within m p (a + b.size) bs e t.1 in
    elim (Bool-cases (leb 1 (held p (a + b.size) bs))) [
      | inl later ↦
          let more = within (ground (arith, later)) in
          let rest =
            held-in_free m p (a + b.size) bs e w t.1 (ground (arith, later)) le
              (ground (arith, lt, more.0, large)) in
          ground (arith, rest, more.0, le)
      | inr gone ↦
          let rest = in_free_before (a + b.size) bs w (ground (arith, gone, lt, one)) in
          ground (arith, gone, one, rest)
    ]
