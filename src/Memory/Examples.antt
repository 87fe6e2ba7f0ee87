-- ===== src/Memory/Examples.antt =====
-- The theorems about the blocks of bytes of libc/string at a small memory.
use deanos.Memory.{Memory, memcmp, memcpy, memmove, byte}
use deanos.Memory.Copy.{Copied, memmove-Copied}
use deanos.Prelude.{◌≡◌, ◌∷◌, [], pos, ◌↔◌, arith, ℕ, inl, ◌<◌, ◌+◌}
use deanos.Memory.Compare.{memcmp-memcpy, memcmp-zero_iff}

abbrev six_bytes : Memory
six_bytes = 1 ∷ 2 ∷ 3 ∷ 4 ∷ 5 ∷ 6 ∷ []

-- Two blocks that overlap.
memmove-Copied_example : Copied six_bytes 2 1 3 (memmove six_bytes 2 1 3)
memmove-Copied_example = memmove-Copied six_bytes 2 1 3 (omega arith)

memcmp-zero_iff_example :
    (memcmp six_bytes 0 3 2 ≡ pos 0)
    ↔ ((i : ℕ) → i < 2 → byte six_bytes (0 + i) ≡ byte six_bytes (3 + i))
memcmp-zero_iff_example = memcmp-zero_iff six_bytes 0 3 2

memcmp-memcpy_example : memcmp (memcpy six_bytes 0 3 3) 0 3 3 ≡ pos 0
memcmp-memcpy_example = memcmp-memcpy six_bytes 0 3 3 (omega arith) (inl (omega arith))
