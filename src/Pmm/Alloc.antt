-- ===== src/Pmm/Alloc.antt =====
-- What the callers of kernel/pmm.c rely on: which frame an allocation takes, when it fails, and
-- that a free undoes it.
use deanos.Prelude.{
  ℕ, zero, suc, ◌+◌, ◌-◌, ◌/◌, ◌%◌, ◌^◌, ◌<◌, ◌≡◌, ◌≢◌, refl, ap, ◌∙◌, sym, true, false, not, List,
  arith, if◌then◌else◌, ◌==◌, leb, ltb, ◌⊎◌, ◌↔◌, inl, inr, Bool-cases, length, get_or, set,
  get_or-set_self, set-set, set-get_or, ◌&&◌, [], ◌∷◌, get_or-set_ne,
}
use native.Mathlib.Decide.{ℕ_discrete}
use deanos.Pmm.{
  is_null, Pmm, bit_tst, take_frame, release_frame, phys_alloc_frame, alloc_scan, phys_free_frame,
  pmm_frame_refcount, frame_to_addr, addr_to_frame, frame_valid,
}
use deanos.Pmm.Bitmap.{
  bit_tst-bit_set_in_self, bit_tst-bit_set_in_ne, count_free-bit_set_in, bit_clr_in-bit_set_in,
  count_free_pos, count_free-le, count_free-none,
}
use deanos.Pmm.Invariant.{IsValid, word_in, take_frame-IsValid}

-- Frame 0 is never handed out, so that address 0 can mean failure.
abbrev pub ZeroReserved : Pmm → Type 0
ZeroReserved s = bit_tst s.bitmap 0 ≡ true

-- No frame among the first `n` is free.
abbrev pub AllUsed : Pmm → ℕ → Type 0
AllUsed s n = (j : ℕ) → j < n → bit_tst s.bitmap j ≡ true

-- The two outcomes of an allocation.
pub record Took (s : Pmm) (r : ℕ × Pmm) (i : ℕ) : Type 0 where
  pub in_range : i < s.bits
  pub was_free : bit_tst s.bitmap i ≡ false
  pub lowest : AllUsed s i
  pub address : r.0 ≡ frame_to_addr i
  pub after : r.1 ≡ take_frame s i

alloc_scan-cases :
    (n i : ℕ) (s : Pmm)
    → i + n ≡ s.bits
    → AllUsed s i
    → (AllUsed s s.bits × (alloc_scan n i s ≡ (0, s))) ⊎ ((k : ℕ) × Took s (alloc_scan n i s) k)
unfolding alloc_scan
alloc_scan-cases zero i s e all = inl ((λ j h. all j (omega arith)), refl)
alloc_scan-cases (suc n) i s e all = elim (Bool-cases (bit_tst s.bitmap i)) [
  | inl used ↦ rw used (alloc_scan-cases n (i + 1) s (omega arith) (extend used))
  | inr free ↦ rw free (
      inr (
        i,
        record {
          in_range = omega arith;
          was_free = free;
          lowest = all;
          address = refl;
          after = refl;
        },
      ))
]
  where
    extend : bit_tst s.bitmap i ≡ true → AllUsed s (i + 1)
    extend used j h = elim (ℕ_discrete j i) [ yes e' ↦ rw e' used | no ne ↦ all j (omega arith) ]

-- Either every frame is used and nothing changes, or the lowest free frame is taken.
pub phys_alloc_frame-cases :
    (s : Pmm)
    → (AllUsed s s.bits × (phys_alloc_frame s ≡ (0, s))) ⊎ ((k : ℕ) × Took s (phys_alloc_frame s) k)
unfolding phys_alloc_frame
phys_alloc_frame-cases s = alloc_scan-cases s.bits 0 s (omega arith) (λ j h. absurd (omega arith))

-- A frame below the limit has an address of 32 bits that gives the frame back.
addr_to_frame-frame_to_addr :
    (s : Pmm) (i : ℕ) → IsValid s → i < s.bits → addr_to_frame (frame_to_addr i) ≡ i
addr_to_frame-frame_to_addr s i v h = omega (arith, v.small)

-- A frame in range passes `frame_valid`.
pub frame_valid_of_lt : (s : Pmm) (f : ℕ) → IsValid s → f < s.bits → frame_valid s f ≡ true
unfolding frame_valid
frame_valid_of_lt s f v h = go s.bitmap (omega (arith, v.words))
  where
    go : (bm : List ℕ) → 0 < length bm → (ltb f s.bits && not (is_null bm)) ≡ true
    go [] p = absurd (omega arith)
    go (w ∷ ws) p = ground arith

-- The reference count of a frame in range: that of the array where the frame is used.
pub refcount-at :
    (s : Pmm) (a k : ℕ)
    → IsValid s
    → addr_to_frame a ≡ k
    → k < s.bits
    → pmm_frame_refcount s a ≡ (if bit_tst s.bitmap k then get_or s.refcounts k 0 else 0)
unfolding pmm_frame_refcount
refcount-at s a k v e h = elim (Bool-cases (bit_tst s.bitmap k)) [
  | inl used ↦ rw (e, frame_valid_of_lt s k v h, used)
  | inr free ↦ rw (e, frame_valid_of_lt s k v h, free)
]

module _ (s : Pmm) (v : IsValid s) (z : ZeroReserved s) where
  Took-pos : {r : ℕ × Pmm} {k : ℕ} → Took s r k → r.0 ≢ 0
  Took-pos {r} {k} t e = elim (ℕ_discrete k 0) [
    | yes k0 ↦ let free = t.was_free in cc (ap (λ (j : ℕ). bit_tst s.bitmap j) k0)
    | no ne ↦ omega (arith, v.small, t.address, t.in_range)
  ]

  -- An allocation fails exactly when the count of free frames is 0, and then changes nothing.
  pub phys_alloc_frame-fails_iff : ((phys_alloc_frame s).0 ≡ 0) ↔ (s.free_frames ≡ 0)
  phys_alloc_frame-fails_iff = elim (phys_alloc_frame-cases s) [
    | inl (all, e) ↦
        ((λ _. v.tally ∙ count_free-none s.bitmap s.bits all), (λ _. ap (λ (r : ℕ × Pmm). r.0) e))
    | inr (k, t) ↦ (
      (λ e. absurd (Took-pos t e)),
      (λ e.
          absurd (omega (arith, v.tally, count_free_pos s.bitmap k s.bits t.in_range t.was_free))),
    )
  ]

  taken_count :
      (k : ℕ)
      → k < s.bits
      → k / 32 < length s.bitmap
      → (if bit_tst (take_frame s k).bitmap k then get_or (take_frame s k).refcounts k 0 else 0) ≡ 1
  unfolding take_frame
  taken_count k h w =
      rw (bit_tst-bit_set_in_self s.bitmap k w)
        (get_or-set_self s.refcounts k 1 0 (omega (arith, v.counts)))

  one_fewer :
      (k : ℕ)
      → k < s.bits
      → bit_tst s.bitmap k ≡ false
      → k / 32 < length s.bitmap
      → (take_frame s k).free_frames + 1 ≡ s.free_frames
  unfolding take_frame
  one_fewer k h free w = ground (arith, v.tally, count_free-bit_set_in s.bitmap k s.bits w h free)

  -- What a successful allocation gives: a free frame's page-aligned address, now with one
  -- reference, one free frame fewer, and bit and reference count of every other frame as before.
  pub phys_alloc_frame-takes :
      (phys_alloc_frame s).0 ≢ 0
      → let (a, t) = phys_alloc_frame s in
        (a % 4096 ≡ 0)
        × (pmm_frame_refcount s a ≡ 0)
        × (pmm_frame_refcount t a ≡ 1)
        × (t.free_frames + 1 ≡ s.free_frames)
        × ((j : ℕ)
            → j ≢ addr_to_frame a
            → (bit_tst t.bitmap j ≡ bit_tst s.bitmap j)
              × (get_or t.refcounts j 0 ≡ get_or s.refcounts j 0))
  unfolding take_frame
  phys_alloc_frame-takes ne = elim (phys_alloc_frame-cases s) [
    | inl (all, e) ↦ absurd (ne (ap (λ (r : ℕ × Pmm). r.0) e))
    | inr (k, t) ↦
        let w = word_in v k t.in_range in
        let back = addr_to_frame-frame_to_addr s k v t.in_range in
        let after = take_frame-IsValid s k v t.in_range t.was_free in
        rw (t.address, t.after)
          (
            omega arith,
            refcount-at s (frame_to_addr k) k v back t.in_range ∙ rw t.was_free,
            refcount-at (take_frame s k) (frame_to_addr k) k after back t.in_range
                ∙ taken_count k t.in_range w,
            omega (arith, one_fewer k t.in_range t.was_free w),
            λ j ne'. (
              bit_tst-bit_set_in_ne s.bitmap k w j (λ e. ne' (sym e ∙ sym back)),
              get_or-set_ne s.refcounts k j 1 0 (λ e. ne' (sym e ∙ sym back)),
            ),
          )
  ]

  uncounted :
      (k : ℕ)
      → k < s.bits
      → bit_tst s.bitmap k ≡ false
      → set (set s.refcounts k 1) k 0 ≡ s.refcounts
  uncounted k h free =
      let gone = (v.fits k h).2 free in
      set-set s.refcounts k 1 0
      ∙ (ap (λ (c : ℕ). set s.refcounts k c) (sym gone) ∙ set-get_or s.refcounts k 0)

  released :
      (k : ℕ)
      → k < s.bits
      → bit_tst s.bitmap k ≡ false
      → k / 32 < length s.bitmap
      → release_frame (take_frame s k) k ≡ s
  unfolding release_frame take_frame
  released k h free w =
      let fewer = count_free-bit_set_in s.bitmap k s.bits w h free in
      let n : ((if s.free_frames == 0 then s.free_frames else s.free_frames - 1) + 1) % 2 ^ 32
          ≡ s.free_frames =
        ground (arith, v.tally, v.small, fewer, count_free-le s.bitmap s.bits) in
      rw (bit_tst-bit_set_in_self s.bitmap k w) λ i. record {
        bitmap = bit_clr_in-bit_set_in s.bitmap k w free i;
        refcounts = uncounted k h free i;
        bits = s.bits;
        free_frames = n i;
      }

  free-taken :
      (k : ℕ)
      → k < s.bits
      → bit_tst s.bitmap k ≡ false
      → k / 32 < length s.bitmap
      → phys_free_frame (take_frame s k) (frame_to_addr k) ≡ s
  unfolding phys_free_frame take_frame
  free-taken k h free w =
      let within : leb s.bits k ≡ false = ground arith in
      rw (addr_to_frame-frame_to_addr s k v h, within) (released k h free w)

  -- Freeing what was just allocated gives back the very state from before.
  pub phys_free_frame-phys_alloc_frame :
      (phys_alloc_frame s).0 ≢ 0 → phys_free_frame (phys_alloc_frame s).1 (phys_alloc_frame s).0 ≡ s
  phys_free_frame-phys_alloc_frame ne = elim (phys_alloc_frame-cases s) [
    | inl (all, e) ↦ absurd (ne (ap (λ (r : ℕ × Pmm). r.0) e))
    | inr (k, t) ↦
        rw (t.address, t.after) (free-taken k t.in_range t.was_free (word_in v k t.in_range))
  ]

  taken_twice :
      (k : ℕ)
      → k < s.bits
      → k / 32 < length s.bitmap
      → bit_tst (take_frame s k).bitmap k ≡ false
      → ⊥
  unfolding take_frame
  taken_twice k h w free = let set_now = bit_tst-bit_set_in_self s.bitmap k w in cc

  -- Two allocations in a row never give one frame twice.
  phys_alloc_frame-distinct :
      (phys_alloc_frame s).0 ≢ 0
      → (phys_alloc_frame (phys_alloc_frame s).1).0 ≢ (phys_alloc_frame s).0
  phys_alloc_frame-distinct ne = elim (phys_alloc_frame-cases s) [
    | inl (all, e) ↦ absurd (ne (ap (λ (r : ℕ × Pmm). r.0) e))
    | inr (k, t) ↦ elim (phys_alloc_frame-cases (phys_alloc_frame s).1) [
      | inl (all, e) ↦ λ same. ne (sym same ∙ ap (λ (r : ℕ × Pmm). r.0) e)
      | inr (j, u) ↦ λ same.
          let w = word_in v k t.in_range in
          let after = take_frame-IsValid s k v t.in_range t.was_free in
          let in_range : j < (take_frame s k).bits = rw t.after at (u.in_range) in
          let free : bit_tst (take_frame s k).bitmap j ≡ false = rw t.after at (u.was_free) in
          let jk : j ≡ k =
            sym (addr_to_frame-frame_to_addr (take_frame s k) j after in_range)
            ∙ (ap addr_to_frame (sym u.address ∙ same ∙ t.address)
                ∙ addr_to_frame-frame_to_addr s k v t.in_range) in
          taken_twice k t.in_range w (rw jk at free)
    ]
  ]
