-- ===== src/Memory/Compare.antt =====
-- memcmp of libc/string, and what it says of blocks that were copied.
use deanos.Memory.{memcmp, Memory, compare_bytes, byte, byte_difference, memcpy}
use deanos.Prelude.{
  ℕ, ◌≢◌, ◌≡◌, ◌+◌, ◌<◌, ◌≤◌, pos, length, arith, suc, ◌↔◌, ap, ◌⊎◌, ◌∙◌, zero, sym, refl,
}
use deanos.Memory.Copy.{memcpy-Copied}

compare_bytes-zero :
    (num : ℕ) (m : Memory) (p q : ℕ)
    → ((i : ℕ) → i < num → byte m (p + i) ≡ byte m (q + i))
    → compare_bytes num m p q ≡ pos 0
unfolding compare_bytes
compare_bytes-zero zero m p q same = refl
compare_bytes-zero (suc n) m p q same =
    let first : byte m p ≡ byte m q =
      ap (byte m) (omega arith) ∙ same 0 (omega arith) ∙ ap (byte m) (omega arith) in
    let rest =
      compare_bytes-zero n m (p + 1) (q + 1) (λ i h.
        ap (byte m) (omega arith) ∙ same (suc i) (omega arith) ∙ ap (byte m) (omega arith)) in
    ground (arith, rest)

byte_difference-ne : (a b : ℕ) → a ≢ b → byte_difference a b ≢ pos 0
byte_difference-ne a b ne e = grind arith

compare_bytes-same :
    (num : ℕ) (m : Memory) (p q : ℕ)
    → compare_bytes num m p q ≡ pos 0
    → (i : ℕ) → i < num
    → byte m (p + i) ≡ byte m (q + i)
unfolding compare_bytes
compare_bytes-same zero m p q e i h = absurd (omega arith)
compare_bytes-same (suc n) m p q e i h =
    let ne = byte_difference-ne (byte m p) (byte m q) in
    let first : byte m p ≡ byte m q = ground (arith, ne) in
    let later : compare_bytes n m (p + 1) (q + 1) ≡ pos 0 = ground (arith, first) in
    elim i as (λ k. k < suc n → byte m (p + k) ≡ byte m (q + k)) [
      | zero ↦ λ lt. ap (byte m) (omega arith) ∙ first ∙ ap (byte m) (omega arith)
      | suc k ↦ λ lt.
          ap (byte m) (omega arith)
          ∙ compare_bytes-same n m (p + 1) (q + 1) later k (omega arith)
          ∙ ap (byte m) (omega arith)
    ]
      h

-- memcmp gives 0 exactly for blocks with the same bytes.
pub memcmp-zero_iff :
    (m : Memory) (p q num : ℕ)
    → (memcmp m p q num ≡ pos 0) ↔ ((i : ℕ) → i < num → byte m (p + i) ≡ byte m (q + i))
unfolding memcmp
memcmp-zero_iff m p q num = (compare_bytes-same num m p q, compare_bytes-zero num m p q)

-- After memcpy the two blocks, which do not overlap, compare as equal.
pub memcmp-memcpy :
    (m : Memory) (dest src num : ℕ)
    → dest + num ≤ length m
    → (dest + num ≤ src) ⊎ (src + num ≤ dest)
    → memcmp (memcpy m dest src num) dest src num ≡ pos 0
memcmp-memcpy m dest src num fits apart =
    let copied = memcpy-Copied m dest src num fits apart in
    (memcmp-zero_iff (memcpy m dest src num) dest src num).1
      (λ i h. copied.inside i h ∙ sym (copied.outside (src + i) (ground arith)))
