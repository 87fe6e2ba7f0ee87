-- ===== src/Memory.antt =====
-- libc/string/memcmp.c and libc/string/memset.c: the operations on blocks of bytes, on one memory with
-- addresses from 0 on, so that blocks can overlap.
pub mod Copy
pub mod Compare
mod Examples
use deanos.Prelude.{
  List, ℕ, if◌then◌else◌, suc, ◌%◌, get_or, ℤ, pos, leb, ltb, set, ◌^◌, ◌-◌, ◌+◌, zero, neg, not,
  ◌==◌,
}

abbrev pub Memory : Type 0
Memory = List ℕ

abbrev pub byte : Memory → ℕ → ℕ
byte m p = get_or m p 0

-- The loop that copies upwards.
unfoldable pub copy_up : ℕ → Memory → (dest src : ℕ) → Memory
copy_up zero m dest src = m
copy_up (suc n) m dest src = copy_up n (set m dest (byte m src)) (dest + 1) (src + 1)

-- The loop that copies downwards.
unfoldable pub copy_down : ℕ → Memory → (dest src : ℕ) → Memory
copy_down zero m dest src = m
copy_down (suc n) m dest src = copy_down n (set m (dest + n) (byte m (src + n))) dest src

unfoldable pub memcpy : Memory → (dest src num : ℕ) → Memory
unfolding copy_up
memcpy m dest src num = copy_up num m dest src

unfoldable pub memmove : Memory → (dest src num : ℕ) → Memory
unfolding copy_up copy_down
memmove m dest src num =
    if ltb dest src
    then copy_up num m dest src
    else if ltb src dest
    then copy_down num m dest src
    else m

unfoldable pub set_bytes : ℕ → Memory → (p val : ℕ) → Memory
set_bytes zero m p val = m
set_bytes (suc n) m p val = set_bytes n (set m p val) (p + 1) val

-- `value` is converted to an unsigned char.
unfoldable pub memset : Memory → (p value num : ℕ) → Memory
unfolding set_bytes
memset m p value num = set_bytes num m p (value % 2 ^ 8)

-- The difference of two bytes as an int.
abbrev pub byte_difference : ℕ → ℕ → ℤ
byte_difference a b = if leb b a then pos (a - b) else neg (b - a)

unfoldable pub compare_bytes : ℕ → Memory → (p q : ℕ) → ℤ
compare_bytes zero m p q = pos 0
compare_bytes (suc n) m p q =
    let rest = compare_bytes n m (p + 1) (q + 1) in
    if not (byte m p == byte m q) then byte_difference (byte m p) (byte m q) else rest

unfoldable pub memcmp : Memory → (p q num : ℕ) → ℤ
unfolding compare_bytes
memcmp m p q num = compare_bytes num m p q
