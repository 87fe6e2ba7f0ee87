-- ===== src/Memory/Copy.antt =====
-- memmove of libc/string, and memcpy of blocks apart, copy their block and change nothing else.
use deanos.Memory.{copy_up, memcpy, copy_down, memmove, Memory, byte}
use deanos.Prelude.{
  ℕ, ◌+◌, length, ◌≡◌, ◌≤◌, ◌⊎◌, Bool-cases, ◌<◌, arith, suc, ltb, inl, set, inr, length-set, ◌≢◌,
  ap, get_or-set_ne, refl, get_or-set_self, ◌∙◌, zero,
}

-- `after` has at `dest` the `num` bytes that `m` has at `src`, and is `m` elsewhere.
pub record Copied (m : Memory) (dest src num : ℕ) (after : Memory) : Type 0 where
  pub same_size : length after ≡ length m
  pub inside : (i : ℕ) → i < num → byte after (dest + i) ≡ byte m (src + i)
  pub outside : (p : ℕ) → (p < dest) ⊎ (dest + num ≤ p) → byte after p ≡ byte m p

copy_up-Copied :
    (num : ℕ) (m : Memory) (dest src : ℕ)
    → dest + num ≤ length m
    → (dest ≤ src) ⊎ (src + num ≤ dest)
    → Copied m dest src num (copy_up num m dest src)
unfolding copy_up
copy_up-Copied zero m dest src fits apart = record {
  same_size = refl;
  inside = λ i h. absurd (omega arith);
  outside = λ p h. refl;
}
copy_up-Copied (suc n) m dest src fits apart =
    let m' = set m dest (byte m src) in
    let size = length-set m dest (byte m src) in
    let rest = copy_up-Copied n m' (dest + 1) (src + 1) (omega (arith, size)) (ground arith) in
    let unwritten : (p : ℕ) → dest ≢ p → byte m' p ≡ byte m p =
      λ p ne. get_or-set_ne m dest p (byte m src) 0 ne in
    record {
      same_size = rest.same_size ∙ size;
      inside = λ i.
          elim i
            as (λ k.
              k < suc n → byte (copy_up n m' (dest + 1) (src + 1)) (dest + k) ≡ byte m (src + k)) [
                | zero ↦ λ h.
                    let here : dest + 0 ≡ dest = omega arith in
                    let there : src + 0 ≡ src = omega arith in
                    rw (here, there)
                      (rest.outside dest (inl (omega arith))
                        ∙ get_or-set_self m dest (byte m src) 0 (omega arith))
                | suc k ↦ λ h.
                    let here : dest + suc k ≡ dest + 1 + k = omega arith in
                    let there : src + suc k ≡ src + 1 + k = omega arith in
                    rw (here, there)
                      (rest.inside k (omega arith) ∙ unwritten (src + 1 + k) (ground arith))
              ];
      outside = λ p h. rest.outside p (ground arith) ∙ unwritten p (ground arith);
    }

copy_down-Copied :
    (num : ℕ) (m : Memory) (dest src : ℕ)
    → dest + num ≤ length m
    → src ≤ dest
    → Copied m dest src num (copy_down num m dest src)
unfolding copy_down
copy_down-Copied zero m dest src fits le = record {
  same_size = refl;
  inside = λ i h. absurd (omega arith);
  outside = λ p h. refl;
}
copy_down-Copied (suc n) m dest src fits le =
    let m' = set m (dest + n) (byte m (src + n)) in
    let size = length-set m (dest + n) (byte m (src + n)) in
    let rest = copy_down-Copied n m' dest src (omega (arith, size)) le in
    let unwritten : (p : ℕ) → dest + n ≢ p → byte m' p ≡ byte m p =
      λ p ne. get_or-set_ne m (dest + n) p (byte m (src + n)) 0 ne in
    let last : byte m' (dest + n) ≡ byte m (src + n) =
      get_or-set_self m (dest + n) (byte m (src + n)) 0 (omega arith) in
    record {
      same_size = rest.same_size ∙ size;
      inside = λ i h. elim (Bool-cases (ltb i n)) [
        | inl lt ↦ rest.inside i (ground arith) ∙ unwritten (src + i) (ground arith)
        | inr ge ↦
            let at_last : i ≡ n = ground arith in
            rw at_last (rest.outside (dest + n) (inr (omega arith)) ∙ last)
      ];
      outside = λ p h. rest.outside p (ground arith) ∙ unwritten p (ground arith);
    }

-- memmove copies a block of `num` bytes that fits the memory, also onto one that it overlaps, and
-- changes no byte outside the destination.
pub memmove-Copied :
    (m : Memory) (dest src num : ℕ)
    → dest + num ≤ length m
    → Copied m dest src num (memmove m dest src num)
unfolding memmove
memmove-Copied m dest src num fits = elim (Bool-cases (ltb dest src)) [
  | inl below ↦ rw below (copy_up-Copied num m dest src fits (inl (ground arith)))
  | inr not_below ↦ elim (Bool-cases (ltb src dest)) [
    | inl above ↦ rw (not_below, above) (copy_down-Copied num m dest src fits (ground arith))
    | inr not_above ↦
        let same : dest ≡ src = ground arith in
        rw (not_below, not_above)
          (record {
            same_size = refl;
            inside = λ i h. ap (λ p. byte m (p + i)) same;
            outside = λ p h. refl;
          })
  ]
]

-- memcpy does the same for blocks that do not overlap.
pub memcpy-Copied :
    (m : Memory) (dest src num : ℕ)
    → dest + num ≤ length m
    → (dest + num ≤ src) ⊎ (src + num ≤ dest)
    → Copied m dest src num (memcpy m dest src num)
unfolding memcpy
memcpy-Copied m dest src num fits apart = copy_up-Copied num m dest src fits (ground arith)
