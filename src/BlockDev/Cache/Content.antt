-- ===== src/BlockDev/Cache/Content.antt =====
-- What a cache and the disks behind it hold together, block by block, and when they are coherent.
use deanos.BlockDev.{Block, Driver, Entry, entry, matches, block_cache_find, cache_entries}
use deanos.Prelude.{
  List, ℕ, ◌<◌, is_negative, length, some, none, ◌∙◌, ◌≡◌, false, sym, arith, true, inl, inr, ap,
  ◌⊎◌, refl,
}
use deanos.BlockDev.Cache.Clock.{SameSlots}
use deanos.BlockDev.Cache.Find.{block_cache_find-cases}

-- What the cache relies on of a driver: reads give the stored block and change no disk, a failed read
-- leaves the buffer alone, a successful write stores the block, and no write touches another block.
pub record DriverLaws {World : Type 0} (drv : Driver World) (stored : World → ℕ → ℕ → Block)
    : Type 0 where
  pub read_ok :
      (w : World) (d l : ℕ) (b : Block)
      → is_negative (drv.read_block w d l b).0 ≡ false
      → (drv.read_block w d l b).1 ≡ stored w d l
  pub read_fail :
      (w : World) (d l : ℕ) (b : Block)
      → is_negative (drv.read_block w d l b).0 ≡ true
      → (drv.read_block w d l b).1 ≡ b
  pub read_keeps :
      (w : World) (d l : ℕ) (b : Block) (d' l' : ℕ)
      → stored (drv.read_block w d l b).2 d' l' ≡ stored w d' l'
  pub write_ok :
      (w : World) (d l : ℕ) (b : Block)
      → is_negative (drv.write_block w d l b).0 ≡ false
      → stored (drv.write_block w d l b).1 d l ≡ b
  pub write_other :
      (w : World) (d l : ℕ) (b : Block) (d' l' : ℕ)
      → ¬ ((d ≡ d') × (l ≡ l'))
      → stored (drv.write_block w d l b).1 d' l' ≡ stored w d' l'

-- Every two slots that match the same block are one slot.
abbrev pub Unique : List Entry → Type 0
Unique c =
    (i j d l : ℕ)
    → i < cache_entries
    → j < cache_entries
    → matches (entry c i) d l ≡ true
    → matches (entry c j) d l ≡ true
    → i ≡ j

-- `disk` gives the stored blocks.
abbrev pub Clean : List Entry → (ℕ → ℕ → Block) → Type 0
Clean c disk =
    (i : ℕ)
    → i < cache_entries
    → (entry c i).valid ≡ true
    → (entry c i).dirty ≡ false
    → (entry c i).bytes ≡ disk (entry c i).dev_index (entry c i).lba

pub record Coherent (c : List Entry) (disk : ℕ → ℕ → Block) : Type 0 where
  pub size : length c ≡ cache_entries
  pub unique : Unique c
  pub clean : Clean c disk

-- The block that a reader sees: the cached one if there is one, else the stored one.
pub content : List Entry → (ℕ → ℕ → Block) → (dev lba : ℕ) → Block
content c disk dev lba = elim (block_cache_find c dev lba) [
  | some i ↦ (entry c i).bytes
  | none ↦ disk dev lba
]

-- The same, as a relation: a slot that matches holds `b`, or none matches and `b` is stored.
abbrev pub Shown : List Entry → (ℕ → ℕ → Block) → (dev lba : ℕ) → Block → Type 0
Shown c disk dev lba b =
    ((i : ℕ) × (i < cache_entries) × (matches (entry c i) dev lba ≡ true) × ((entry c i).bytes ≡ b))
    ⊎ (((i : ℕ) → i < cache_entries → matches (entry c i) dev lba ≡ false) × (disk dev lba ≡ b))

module _ (c : List Entry) (disk : ℕ → ℕ → Block) (dev lba : ℕ) where
  pub content-found :
      (i : ℕ) → block_cache_find c dev lba ≡ some i → content c disk dev lba ≡ (entry c i).bytes
  unfolding content
  content-found i found = rw (found, content)

  pub content-Shown : length c ≡ cache_entries → Shown c disk dev lba (content c disk dev lba)
  unfolding content
  content-Shown size = elim (block_cache_find-cases c dev lba) [
    | inl (i, h, found, m) ↦ rw (found, content) (inl (i, omega arith, m, refl))
    | inr (found, all) ↦ rw (found, content) (inr ((λ i h. all i (omega arith)), refl))
  ]

  pub content_of_Shown :
      (b : Block)
      → length c ≡ cache_entries
      → Unique c
      → Shown c disk dev lba b
      → content c disk dev lba ≡ b
  unfolding content
  content_of_Shown b size uniq shown = elim (block_cache_find-cases c dev lba) [
    | inl (i, h, found, m) ↦
        rw (found, content)
          (elim shown [
            | inl (j, hj, mj, e) ↦
                ap (λ (k : ℕ). (entry c k).bytes) (uniq i j dev lba (omega arith) hj m mj) ∙ e
            | inr (no_slot, e) ↦ let none_here = no_slot i (omega arith) in cc
          ])
    | inr (found, all) ↦
        rw (found, content)
          (elim shown [
            | inl (j, hj, mj, e) ↦ let none_here = all j (omega arith) in cc
            | inr (no_slot, e) ↦ e
          ])
  ]

-- A cache that differs only in reference bits shows the same blocks, and stays coherent.
module _ {c c' : List Entry} (same : SameSlots c c') where
  pub matches-same : (i d l : ℕ) → matches (entry c' i) d l ≡ matches (entry c i) d l
  matches-same i d l = ground (arith, same.valid i, same.dev_index i, same.lba i)

  pub SameSlots-Coherent : (disk : ℕ → ℕ → Block) → Coherent c disk → Coherent c' disk
  SameSlots-Coherent disk h = record {
    size = same.size ∙ h.size;
    unique = λ i j d l hi hj mi mj.
        h.unique i j d l hi hj (sym (matches-same i d l) ∙ mi) (sym (matches-same j d l) ∙ mj);
    clean = λ i hi v d.
        rw (same.bytes i, same.dev_index i, same.lba i)
          (h.clean i hi (sym (same.valid i) ∙ v) (sym (same.dirty i) ∙ d));
  }

  pub content-SameSlots :
      (disk : ℕ → ℕ → Block)
      → Coherent c disk
      → (d l : ℕ) → content c' disk d l ≡ content c disk d l
  content-SameSlots disk h d l =
      content_of_Shown c' disk d l (content c disk d l) (same.size ∙ h.size)
        (SameSlots-Coherent disk h).unique
        (elim (content-Shown c disk d l h.size) [
          | inl (i, hi, m, e) ↦ inl (i, hi, matches-same i d l ∙ m, same.bytes i ∙ e)
          | inr (no_slot, e) ↦ inr ((λ i hi. matches-same i d l ∙ no_slot i hi), e)
        ])
