-- ===== src/Ramfs/Room.antt =====
-- The room that kernel/ramfs.c makes for the data of a file.
use deanos.Prelude.{
  List, ℕ, get_or, Bool, ◌≤◌, replicate, ◌≡◌, Option, ◌++◌, length, ◌∷◌, ◌⊎◌, suc, ◌+◌, false,
  if◌then◌else◌, none, [], ◌*◌, zero, some, refl, arith, ◌==◌, if_split, ◌%◌, leb, ◌^◌, ltb, not,
  Bool-cases, inl, ◌-◌, inr, length-append, length-replicate, true, ◌<◌, ◌∙◌, ap,
}
use deanos.Ramfs.{grow_to, ramfs_ensure_capacity, vfs_max_file}

grow_to-enough :
    (fuel new_cap needed : ℕ)
    → 256 ≤ new_cap
    → new_cap ≤ vfs_max_file
    → needed ≤ vfs_max_file
    → needed ≤ new_cap + 256 * fuel
    → (needed ≤ grow_to fuel new_cap needed)
      × (256 ≤ grow_to fuel new_cap needed)
      × (grow_to fuel new_cap needed ≤ vfs_max_file)
unfolding grow_to
grow_to-enough zero new_cap needed low high small enough = (omega arith, low, high)
grow_to-enough (suc fuel) new_cap needed low high small enough =
    let doubled = (new_cap * 2) % 2 ^ 32 in
    let next = if ltb vfs_max_file doubled then vfs_max_file else doubled in
    let rest = grow_to-enough fuel next needed (ground arith) (ground arith) small (ground arith) in
    elim (Bool-cases (ltb new_cap needed)) [
      | inl more ↦ rw more rest
      | inr stop ↦ rw stop (ground (arith, stop), low, high)
    ]

zeros : (n i : ℕ) → get_or {A = ℕ} (replicate n 0) i 0 ≡ 0
zeros zero i = refl
zeros (suc n) zero = refl
zeros (suc n) (suc i) = zeros n i

padded : (xs : List ℕ) (n i : ℕ) → get_or (xs ++ replicate n 0) i 0 ≡ get_or xs i 0
padded [] n i = zeros n i
padded (x ∷ xs) n zero = refl
padded (x ∷ xs) n (suc i) = padded xs n i

-- The data of a file, with room for `needed` bytes.
pub record Roomy (block : List ℕ) (needed : ℕ) (block' : List ℕ) : Type 0 where
  pub same : (i : ℕ) → get_or block' i 0 ≡ get_or block i 0
  pub longer : length block ≤ length block'
  pub enough : needed ≤ length block'
  pub limited : length block' ≤ vfs_max_file
  pub grown : (length block' ≡ 0) ⊎ (256 ≤ length block')

not-true : (b : Bool) → not b ≡ true → b ≡ false
not-true true e = cc
not-true false e = refl

grown_block :
    (block : List ℕ) (needed new_cap : ℕ)
    → length block < needed
    → needed ≤ new_cap
    → 256 ≤ new_cap
    → new_cap ≤ vfs_max_file
    → Roomy block needed (block ++ replicate (new_cap - length block) 0)
grown_block block needed new_cap more enough low high =
    let zeroed = new_cap - length block in
    let longer : length (block ++ replicate zeroed 0) ≡ new_cap =
      length-append block (replicate zeroed 0)
      ∙ ap (λ (n : ℕ). length block + n) (length-replicate zeroed 0)
      ∙ omega arith in
    record {
      same = padded block zeroed;
      longer = omega (arith, longer);
      enough = omega (arith, longer);
      limited = omega (arith, longer);
      grown = inr (omega (arith, longer));
    }

-- There is room unless the heap has no memory for some size.
pub data MadeRoom (krealloc : ℕ → Bool) (block : List ℕ) (needed : ℕ)
    : Option (List ℕ) → Type 0 where
  refused : (n : ℕ) → krealloc n ≡ false → MadeRoom krealloc block needed none
  made :
      (block' : List ℕ) → Roomy block needed block' → MadeRoom krealloc block needed (some block')

pub ramfs_ensure_capacity-MadeRoom :
    (krealloc : ℕ → Bool) (block : List ℕ) (needed : ℕ)
    → (length block ≡ 0) ⊎ (256 ≤ length block)
    → length block ≤ vfs_max_file
    → needed ≤ vfs_max_file
    → MadeRoom krealloc block needed (ramfs_ensure_capacity krealloc block needed)
unfolding ramfs_ensure_capacity
ramfs_ensure_capacity-MadeRoom krealloc block needed grown limited small =
    let P = MadeRoom krealloc block needed in
    let start = if length block == 0 then 256 else length block in
    let new_cap = grow_to 256 start needed in
    let below : leb needed (length block) ≡ false → length block < needed =
      λ e. ground (arith, e) in
    let over : ltb vfs_max_file needed ≡ true → ⊥ = λ e. ground (arith, e) in
    let large =
      grow_to-enough 256 start needed (ground arith) (ground arith) small (ground arith) in
    if_split P (leb needed (length block))
      (λ fits. made block (record {
        same = λ i. refl;
        longer = omega arith;
        enough = ground (arith, fits);
        limited = limited;
        grown = grown;
      }))
      (λ more.
        if_split P (ltb vfs_max_file needed) (λ big. absurd (over big))
          (λ fine.
            if_split P (not (krealloc new_cap))
              (λ lack. refused new_cap (not-true (krealloc new_cap) lack))
              (λ yes.
                made (block ++ replicate (new_cap - length block) 0)
                  (grown_block block needed new_cap (below more) large.0 large.1 large.2))))
