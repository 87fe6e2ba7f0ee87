-- ===== src/Pmm/Bitmap.antt =====
-- The bitmap of kernel/pmm.c as a set of frames: each macro at its own bit and at the others.
use deanos.Prelude.{
  ℕ, zero, suc, ◌/◌, ◌%◌, ◌<◌, ◌≤◌, ◌≡◌, ◌≢◌, refl, ap, true, false, List, arith, if◌then◌else◌,
  length, get_or, length-set, get_or-set_self, get_or-set_ne, set-set, set-get_or, bit_test,
  bit_set, bit_clear, bit_test-bit_set_self, bit_test-bit_clear_self, bit_test-bit_set_ne,
  bit_test-bit_clear_ne, bit_clear-bit_set,
}
use native.Mathlib.Decide.{ℕ_discrete}
use deanos.Pmm.{bit_tst, bit_set_in, bit_clr_in}

-- The number of clear bits among the first `n`.
unfoldable pub count_free : List ℕ → ℕ → ℕ
count_free arr zero = 0
count_free arr (suc n) = if bit_tst arr n then count_free arr n else suc (count_free arr n)

module _ (arr : List ℕ) (i : ℕ) where
  pub length-bit_set_in : length (bit_set_in arr i) ≡ length arr
  unfolding bit_set_in
  length-bit_set_in = length-set arr (i / 32) _

  pub length-bit_clr_in : length (bit_clr_in arr i) ≡ length arr
  unfolding bit_clr_in
  length-bit_clr_in = length-set arr (i / 32) _

  module _ (h : i / 32 < length arr) where
    pub bit_tst-bit_set_in_self : bit_tst (bit_set_in arr i) i ≡ true
    unfolding bit_tst bit_set_in
    bit_tst-bit_set_in_self =
        rw (get_or-set_self arr (i / 32) (bit_set (get_or arr (i / 32) 0) (i % 32)) 0 h)
          (bit_test-bit_set_self (get_or arr (i / 32) 0) (i % 32))

    pub bit_tst-bit_clr_in_self : bit_tst (bit_clr_in arr i) i ≡ false
    unfolding bit_tst bit_clr_in
    bit_tst-bit_clr_in_self =
        rw (get_or-set_self arr (i / 32) (bit_clear (get_or arr (i / 32) 0) (i % 32)) 0 h)
          (bit_test-bit_clear_self (get_or arr (i / 32) 0) (i % 32))

    pub bit_tst-bit_set_in_ne : (j : ℕ) → i ≢ j → bit_tst (bit_set_in arr i) j ≡ bit_tst arr j
    unfolding bit_tst bit_set_in
    bit_tst-bit_set_in_ne j ne = elim (ℕ_discrete (i / 32) (j / 32)) [
      | yes e ↦
          rw (← e, get_or-set_self arr (i / 32) (bit_set (get_or arr (i / 32) 0) (i % 32)) 0 h)
            (bit_test-bit_set_ne (get_or arr (i / 32) 0) (i % 32) (j % 32) (omega arith))
      | no n ↦ ap (λ (w : ℕ). bit_test w (j % 32)) (get_or-set_ne arr (i / 32) (j / 32) _ 0 n)
    ]

    pub bit_tst-bit_clr_in_ne : (j : ℕ) → i ≢ j → bit_tst (bit_clr_in arr i) j ≡ bit_tst arr j
    unfolding bit_tst bit_clr_in
    bit_tst-bit_clr_in_ne j ne = elim (ℕ_discrete (i / 32) (j / 32)) [
      | yes e ↦
          rw (← e, get_or-set_self arr (i / 32) (bit_clear (get_or arr (i / 32) 0) (i % 32)) 0 h)
            (bit_test-bit_clear_ne (get_or arr (i / 32) 0) (i % 32) (j % 32) (omega arith))
      | no n ↦ ap (λ (w : ℕ). bit_test w (j % 32)) (get_or-set_ne arr (i / 32) (j / 32) _ 0 n)
    ]

    pub bit_clr_in-bit_set_in : bit_tst arr i ≡ false → bit_clr_in (bit_set_in arr i) i ≡ arr
    unfolding bit_tst bit_set_in bit_clr_in
    bit_clr_in-bit_set_in free =
        rw
          (
            get_or-set_self arr (i / 32) (bit_set (get_or arr (i / 32) 0) (i % 32)) 0 h,
            bit_clear-bit_set (get_or arr (i / 32) 0) (i % 32) free,
            set-set arr (i / 32) (bit_set (get_or arr (i / 32) 0) (i % 32)) (get_or arr (i / 32) 0),
          )
          (set-get_or arr (i / 32) 0)

-- Beyond the bits it counts, a change of the bitmap does not show.
count_free-bit_set_in_out :
    (arr : List ℕ) (i n : ℕ)
    → i / 32 < length arr
    → n ≤ i
    → count_free (bit_set_in arr i) n ≡ count_free arr n
unfolding count_free
count_free-bit_set_in_out arr i zero h le = refl
count_free-bit_set_in_out arr i (suc n) h le = rw (
  bit_tst-bit_set_in_ne arr i h n (omega arith),
  count_free-bit_set_in_out arr i n h (omega arith),
)

count_free-bit_clr_in_out :
    (arr : List ℕ) (i n : ℕ)
    → i / 32 < length arr
    → n ≤ i
    → count_free (bit_clr_in arr i) n ≡ count_free arr n
unfolding count_free
count_free-bit_clr_in_out arr i zero h le = refl
count_free-bit_clr_in_out arr i (suc n) h le = rw (
  bit_tst-bit_clr_in_ne arr i h n (omega arith),
  count_free-bit_clr_in_out arr i n h (omega arith),
)

-- Setting a clear bit takes one from the count.
pub count_free-bit_set_in :
    (arr : List ℕ) (i n : ℕ)
    → i / 32 < length arr
    → i < n
    → bit_tst arr i ≡ false
    → suc (count_free (bit_set_in arr i) n) ≡ count_free arr n
unfolding count_free
count_free-bit_set_in arr i zero h lt free = absurd (omega arith)
count_free-bit_set_in arr i (suc n) h lt free = elim (ℕ_discrete i n) [
  | yes e ↦ rw (
    ← e,
    bit_tst-bit_set_in_self arr i h,
    free,
    count_free-bit_set_in_out arr i i h (omega arith),
  )
  | no ne ↦
      rw (bit_tst-bit_set_in_ne arr i h n ne)
        (ground (arith, count_free-bit_set_in arr i n h (omega arith) free))
]

-- Clearing a set bit adds one to the count.
pub count_free-bit_clr_in :
    (arr : List ℕ) (i n : ℕ)
    → i / 32 < length arr
    → i < n
    → bit_tst arr i ≡ true
    → count_free (bit_clr_in arr i) n ≡ suc (count_free arr n)
unfolding count_free
count_free-bit_clr_in arr i zero h lt used = absurd (omega arith)
count_free-bit_clr_in arr i (suc n) h lt used = elim (ℕ_discrete i n) [
  | yes e ↦ rw (
    ← e,
    bit_tst-bit_clr_in_self arr i h,
    used,
    count_free-bit_clr_in_out arr i i h (omega arith),
  )
  | no ne ↦
      rw (bit_tst-bit_clr_in_ne arr i h n ne)
        (ground (arith, count_free-bit_clr_in arr i n h (omega arith) used))
]

pub count_free-le : (arr : List ℕ) (n : ℕ) → count_free arr n ≤ n
unfolding count_free
count_free-le arr zero = omega arith
count_free-le arr (suc n) = ground (arith, count_free-le arr n)

-- A clear bit makes the count positive.
pub count_free_pos : (arr : List ℕ) (i n : ℕ) → i < n → bit_tst arr i ≡ false → 0 < count_free arr n
unfolding count_free
count_free_pos arr i zero lt free = absurd (omega arith)
count_free_pos arr i (suc n) lt free = elim (ℕ_discrete i n) [
  | yes e ↦ rw (← e, free) (omega arith)
  | no ne ↦ ground (arith, count_free_pos arr i n (omega arith) free)
]

-- With no clear bit the count is 0.
pub count_free-none :
    (arr : List ℕ) (n : ℕ) → ((i : ℕ) → i < n → bit_tst arr i ≡ true) → count_free arr n ≡ 0
unfolding count_free
count_free-none arr zero all = refl
count_free-none arr (suc n) all =
    rw (all n (omega arith)) (count_free-none arr n (λ i h. all i (omega arith)))
