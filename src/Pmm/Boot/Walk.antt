-- ===== src/Pmm/Boot/Walk.antt =====
-- The entries that the walk over the memory map of kernel/pmm.c visits.
use deanos.Pmm.Boot.{MmapTag, MmapEntry, entries_from, entries, header_size}
use deanos.Prelude.{
  ◌<◌, ℕ, suc, ◌+◌, length, ◌↔◌, ◌*◌, ◌≤◌, ◌≡◌, get_or, arith, List, ◌∷◌, Bool-cases, leb, inr, inl,
  zero, ap, ◌∙◌,
}

module _ (tag : MmapTag) (d : MmapEntry) (pos : 0 < tag.entry_size) where
  times_suc : (i : ℕ) → suc i * tag.entry_size ≡ tag.entry_size + i * tag.entry_size
  times_suc i = grind arith

  -- What the list says of the place `i` of the walk from `cur` on.
  abbrev IsWalk : List MmapEntry → (cur i : ℕ) → Type 0
  IsWalk es cur i =
      ((i < length es) ↔ (cur + i * tag.entry_size + 24 ≤ tag.size))
      × (i < length es → get_or es i d ≡ tag.entry_at (cur + i * tag.entry_size))

  visited-IsWalk :
      (rest : List MmapEntry) (cur i : ℕ)
      → cur + 24 ≤ tag.size
      → ((k : ℕ) → IsWalk rest (cur + tag.entry_size) k)
      → IsWalk (tag.entry_at cur ∷ rest) cur i
  visited-IsWalk rest cur zero fits_in later =
      (((λ lt. omega (arith, fits_in)), (λ le. omega arith)), λ lt. ap tag.entry_at (omega arith))
  visited-IsWalk rest cur (suc k) fits_in later =
      let here = later k in
      let place : cur + tag.entry_size + k * tag.entry_size ≡ cur + suc k * tag.entry_size =
        omega (arith, times_suc k) in
      (
        (
          (λ lt. omega (arith, here.0.0 (omega (arith, lt)), place)),
          (λ le. omega (arith, here.0.1 (omega (arith, le, place)))),
        ),
        λ lt. here.1 (omega (arith, lt)) ∙ ap tag.entry_at place,
      )

  entries_from-IsWalk :
      (fuel cur i : ℕ) → tag.size < cur + fuel → IsWalk (entries_from fuel tag cur) cur i
  unfolding entries_from
  entries_from-IsWalk zero cur i enough = (
    ((λ lt. absurd (omega (arith, lt))), (λ le. absurd (omega (arith, le)))),
    (λ lt. absurd (omega (arith, lt))),
  )
  entries_from-IsWalk (suc fuel) cur i enough = elim (Bool-cases (leb (cur + 24) tag.size)) [
    | inr past ↦
        let stop : tag.size < cur + 24 = ground (arith, past) in
        rw past (
          ((λ lt. absurd (omega (arith, lt))), (λ le. absurd (omega (arith, le, stop)))),
          (λ lt. absurd (omega (arith, lt))),
        )
    | inl inside ↦
        let fits_in : cur + 24 ≤ tag.size = ground (arith, inside) in
        rw inside (
          visited-IsWalk (entries_from fuel tag (cur + tag.entry_size)) cur i fits_in
            (λ k. entries_from-IsWalk fuel (cur + tag.entry_size) k (omega (arith, enough, pos))))
  ]

  -- With an entry size that is not 0, the walk over the map visits just the entries that lie wholly in
  -- the tag, one entry size apart from behind the header on, in their order: it has an i-th entry exactly
  -- when those 24 bytes end in the tag, and that is the one at this place.
  pub entries-total :
      (i : ℕ)
      → ((i < length (entries tag)) ↔ (16 + i * tag.entry_size + 24 ≤ tag.size))
        × (i < length (entries tag)
            → get_or (entries tag) i d ≡ tag.entry_at (16 + i * tag.entry_size))
  unfolding entries
  entries-total i = entries_from-IsWalk (tag.size + 1) header_size i (omega arith)
