-- ===== src/BlockDev/Cache/Find.antt =====
-- The search of kernel/blockdev.c for a cached block.
use deanos.BlockDev.{Entry, entry, matches, cache_find_from, block_cache_find}
use deanos.Prelude.{
  List, ℕ, ◌<◌, length, ◌≡◌, some, false, ◌+◌, true, ◌⊎◌, none, inr, inl, ◌∙◌, arith, ap, ◌∷◌, suc,
  Bool-cases, [], refl, zero,
}

abbrev NoneMatches : List Entry → (dev lba : ℕ) → Type 0
NoneMatches cache dev lba = (i : ℕ) → i < length cache → matches (entry cache i) dev lba ≡ false

cache_find_from-cases :
    (cache : List Entry) (k dev lba : ℕ)
    → ((i : ℕ) × (i < length cache)
        × (cache_find_from cache k dev lba ≡ some (k + i))
        × (matches (entry cache i) dev lba ≡ true))
      ⊎ ((cache_find_from cache k dev lba ≡ none) × NoneMatches cache dev lba)
unfolding cache_find_from
cache_find_from-cases [] k dev lba = inr (refl, λ i h. absurd (omega arith))
cache_find_from-cases (e ∷ es) k dev lba = elim (Bool-cases (matches e dev lba)) [
  | inl hit ↦ rw hit (inl (0, omega arith, ap (λ (j : ℕ). some j) (omega arith), hit))
  | inr miss ↦ elim (cache_find_from-cases es (k + 1) dev lba) [
    | inl (i, h, found, m) ↦
        rw miss (inl (suc i, omega arith, found ∙ ap (λ (j : ℕ). some j) (omega arith), m))
    | inr (found, all) ↦ rw miss (inr (found, below miss all))
  ]
]
  where
    below : matches e dev lba ≡ false → NoneMatches es dev lba → NoneMatches (e ∷ es) dev lba
    below miss all zero h = miss
    below miss all (suc i) h = all i (omega arith)

-- The search finds a slot that matches, or there is none.
pub block_cache_find-cases :
    (cache : List Entry) (dev lba : ℕ)
    → ((i : ℕ) × (i < length cache)
        × (block_cache_find cache dev lba ≡ some i)
        × (matches (entry cache i) dev lba ≡ true))
      ⊎ ((block_cache_find cache dev lba ≡ none)
          × ((i : ℕ) → i < length cache → matches (entry cache i) dev lba ≡ false))
unfolding block_cache_find
block_cache_find-cases cache dev lba = elim (cache_find_from-cases cache 0 dev lba) [
  | inl (i, h, found, m) ↦ inl (i, h, found ∙ ap (λ (j : ℕ). some j) (omega arith), m)
  | inr r ↦ inr r
]
