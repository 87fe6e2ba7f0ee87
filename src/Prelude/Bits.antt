-- ===== src/Prelude/Bits.antt =====
-- One bit of a word: the C expressions `(w >> k) & 1`, `w | (1 << k)` and `w & ~(1 << k)`, by
-- recursion on `k`, and the laws between them.
use Prim.Native.Nat.{ℕ, zero, suc, ◌+◌, ◌*◌, ◌/◌, ◌%◌, ◌<◌}
use mathlib.Core.Path.{◌≡◌, refl, ap}
use mathlib.Core.Logic.{◌≢◌}
use mathlib.Core.Bool.{Bool, true, false}
use native.Mathlib.Omega.{arith}
use deanos.Prelude.Tests.{◌==◌}

-- `(w >> k) & 1`
unfoldable pub bit_test : ℕ → ℕ → Bool
bit_test w zero = w % 2 == 1
bit_test w (suc k) = bit_test (w / 2) k

-- `w | (1 << k)`
unfoldable pub bit_set : ℕ → ℕ → ℕ
bit_set w zero = w / 2 * 2 + 1
bit_set w (suc k) = bit_set (w / 2) k * 2 + w % 2

-- `w & ~(1 << k)`
unfoldable pub bit_clear : ℕ → ℕ → ℕ
bit_clear w zero = w / 2 * 2
bit_clear w (suc k) = bit_clear (w / 2) k * 2 + w % 2

pub bit_test-bit_set_self : (w k : ℕ) → bit_test (bit_set w k) k ≡ true
unfolding bit_test bit_set
bit_test-bit_set_self w zero = ground arith
bit_test-bit_set_self w (suc k) =
    let e : (bit_set (w / 2) k * 2 + w % 2) / 2 ≡ bit_set (w / 2) k = omega arith in
    rw e (bit_test-bit_set_self (w / 2) k)

pub bit_test-bit_clear_self : (w k : ℕ) → bit_test (bit_clear w k) k ≡ false
unfolding bit_test bit_clear
bit_test-bit_clear_self w zero = ground arith
bit_test-bit_clear_self w (suc k) =
    let e : (bit_clear (w / 2) k * 2 + w % 2) / 2 ≡ bit_clear (w / 2) k = omega arith in
    rw e (bit_test-bit_clear_self (w / 2) k)

pub bit_test-bit_set_ne : (w k j : ℕ) → k ≢ j → bit_test (bit_set w k) j ≡ bit_test w j
unfolding bit_test bit_set
bit_test-bit_set_ne w zero zero h = absurd (h refl)
bit_test-bit_set_ne w zero (suc j) h = ap (λ (v : ℕ). bit_test v j) (omega arith)
bit_test-bit_set_ne w (suc k) zero h = ground arith
bit_test-bit_set_ne w (suc k) (suc j) h =
    let e : (bit_set (w / 2) k * 2 + w % 2) / 2 ≡ bit_set (w / 2) k = omega arith in
    rw e (bit_test-bit_set_ne (w / 2) k j (λ p. h (ap suc p)))

pub bit_test-bit_clear_ne : (w k j : ℕ) → k ≢ j → bit_test (bit_clear w k) j ≡ bit_test w j
unfolding bit_test bit_clear
bit_test-bit_clear_ne w zero zero h = absurd (h refl)
bit_test-bit_clear_ne w zero (suc j) h = ap (λ (v : ℕ). bit_test v j) (omega arith)
bit_test-bit_clear_ne w (suc k) zero h = ground arith
bit_test-bit_clear_ne w (suc k) (suc j) h =
    let e : (bit_clear (w / 2) k * 2 + w % 2) / 2 ≡ bit_clear (w / 2) k = omega arith in
    rw e (bit_test-bit_clear_ne (w / 2) k j (λ p. h (ap suc p)))

-- Clearing a bit that was clear before it was set gives the word back.
pub bit_clear-bit_set : (w k : ℕ) → bit_test w k ≡ false → bit_clear (bit_set w k) k ≡ w
unfolding bit_test bit_set bit_clear
bit_clear-bit_set w zero h = ground arith
bit_clear-bit_set w (suc k) h =
    let e : (bit_set (w / 2) k * 2 + w % 2) / 2 ≡ bit_set (w / 2) k = omega arith in
    rw (e, bit_clear-bit_set (w / 2) k h) (omega arith)

-- The word whose lowest `n` bits are set.
unfoldable pub ones : ℕ → ℕ
ones zero = 0
ones (suc n) = ones n * 2 + 1

pub bit_test-ones : (n k : ℕ) → k < n → bit_test (ones n) k ≡ true
unfolding bit_test ones
bit_test-ones zero k h = elim h [ ]
bit_test-ones (suc n) zero h = ground arith
bit_test-ones (suc n) (suc k) h =
    let e : (ones n * 2 + 1) / 2 ≡ ones n = omega arith in rw e (bit_test-ones n k (omega arith))
