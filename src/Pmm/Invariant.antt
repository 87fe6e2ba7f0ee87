-- ===== src/Pmm/Invariant.antt =====
-- The invariant of the frame allocator of kernel/pmm.c, and that its operations keep it.
use deanos.Prelude.{
  ℕ, zero, suc, ◌+◌, ◌-◌, ◌/◌, ◌%◌, ◌^◌, ◌<◌, ◌≤◌, ◌≡◌, ◌≢◌, refl, ◌∙◌, Bool, true, false, List,
  arith, ◌==◌, leb, ltb, inl, inr, Bool-cases, length, get_or, set, length-set, get_or-set_self,
  get_or-set_ne,
}
use native.Mathlib.Decide.{ℕ_discrete}
use deanos.Pmm.{
  Pmm, bit_tst, bit_set_in, bit_clr_in, take_frame, release_frame, phys_alloc_frame, alloc_scan,
  phys_free_frame, pmm_frame_ref, pmm_frame_unref, addr_to_frame, frame_valid,
}
use deanos.Pmm.Bitmap.{
  count_free, length-bit_set_in, length-bit_clr_in, bit_tst-bit_set_in_self,
  bit_tst-bit_clr_in_self, bit_tst-bit_set_in_ne, bit_tst-bit_clr_in_ne, count_free-bit_set_in,
  count_free-bit_clr_in, count_free-le,
}

-- The largest number of frames that `pmm_initialize` tracks: 0x8200000 bytes of 4 KiB.
abbrev pub max_frames : ℕ
max_frames = 0x8200

-- What the reference count of a frame is, by its bit.
abbrev pub CountFits : Bool → ℕ → Type 0
CountFits used c = (c < 2 ^ 16) × ((used ≡ true) → c ≢ 0) × ((used ≡ false) → c ≡ 0)

pub record IsValid (s : Pmm) : Type 0 where
  pub small : s.bits ≤ max_frames
  pub words : length s.bitmap ≡ (s.bits + 31) / 32
  pub counts : length s.refcounts ≡ s.bits
  pub tally : s.free_frames ≡ count_free s.bitmap s.bits
  pub fits : (i : ℕ) → i < s.bits → CountFits (bit_tst s.bitmap i) (get_or s.refcounts i 0)

pub word_in : {s : Pmm} → IsValid s → (i : ℕ) → i < s.bits → i / 32 < length s.bitmap
word_in v i h = omega (arith, v.words)

-- A frame's bit and count after an update at another frame, or at itself.
fits_after :
    (s : Pmm) (bm : List ℕ) (i c : ℕ)
    → IsValid s
    → i < s.bits
    → CountFits (bit_tst bm i) c
    → ((j : ℕ) → i ≢ j → bit_tst bm j ≡ bit_tst s.bitmap j)
    → (j : ℕ) → j < s.bits
    → CountFits (bit_tst bm j) (get_or (set s.refcounts i c) j 0)
fits_after s bm i c v hi here others j hj = elim (ℕ_discrete i j) [
  | yes e ↦ rw (← e, get_or-set_self s.refcounts i c 0 (omega (arith, v.counts))) here
  | no ne ↦ rw (others j ne, get_or-set_ne s.refcounts i j c 0 ne) (v.fits j hj)
]

pub take_frame-IsValid :
    (s : Pmm) (i : ℕ)
    → IsValid s
    → i < s.bits
    → bit_tst s.bitmap i ≡ false
    → IsValid (take_frame s i)
unfolding take_frame
take_frame-IsValid s i v hi free =
    let w = word_in v i hi in
    let fewer = count_free-bit_set_in s.bitmap i s.bits w hi free in
    record {
      small = v.small;
      words = length-bit_set_in s.bitmap i ∙ v.words;
      counts = length-set s.refcounts i 1 ∙ v.counts;
      tally = ground (arith, v.tally, fewer);
      fits =
          fits_after s (bit_set_in s.bitmap i) i 1 v hi
            (rw (bit_tst-bit_set_in_self s.bitmap i w) (ground arith))
            (bit_tst-bit_set_in_ne s.bitmap i w);
    }

pub release_frame-IsValid : (s : Pmm) (i : ℕ) → IsValid s → i < s.bits → IsValid (release_frame s i)
unfolding release_frame
release_frame-IsValid s i v hi = elim (Bool-cases (bit_tst s.bitmap i)) [
  | inl used ↦
      let w = word_in v i hi in
      let more = count_free-bit_clr_in s.bitmap i s.bits w hi used in
      rw used (record {
        small = v.small;
        words = length-bit_clr_in s.bitmap i ∙ v.words;
        counts = length-set s.refcounts i 0 ∙ v.counts;
        tally = omega (arith, v.tally, more, v.small, count_free-le (bit_clr_in s.bitmap i) s.bits);
        fits =
            fits_after s (bit_clr_in s.bitmap i) i 0 v hi
              (rw (bit_tst-bit_clr_in_self s.bitmap i w) (ground arith))
              (bit_tst-bit_clr_in_ne s.bitmap i w);
      })
  | inr free ↦ rw free v
]

-- The scan keeps the invariant wherever it stands.
alloc_scan-IsValid : (n i : ℕ) (s : Pmm) → i + n ≡ s.bits → IsValid s → IsValid (alloc_scan n i s).1
unfolding alloc_scan
alloc_scan-IsValid zero i s e v = v
alloc_scan-IsValid (suc n) i s e v = elim (Bool-cases (bit_tst s.bitmap i)) [
  | inl used ↦ rw used (alloc_scan-IsValid n (i + 1) s (omega arith) v)
  | inr free ↦ rw free (take_frame-IsValid s i v (omega arith) free)
]

pub phys_alloc_frame-IsValid : (s : Pmm) → IsValid s → IsValid (phys_alloc_frame s).1
unfolding phys_alloc_frame
phys_alloc_frame-IsValid s v = alloc_scan-IsValid s.bits 0 s (omega arith) v

pub phys_free_frame-IsValid : (s : Pmm) (addr : ℕ) → IsValid s → IsValid (phys_free_frame s addr)
unfolding phys_free_frame
phys_free_frame-IsValid s addr v = elim (Bool-cases (leb s.bits (addr_to_frame addr))) [
  | inl out ↦ rw out v
  | inr in_range ↦ rw in_range (release_frame-IsValid s (addr_to_frame addr) v (ground arith))
]

-- A used frame may be given any other count that is not 0.
recount-IsValid :
    (s : Pmm) (f c : ℕ)
    → IsValid s
    → f < s.bits
    → bit_tst s.bitmap f ≡ true
    → c < 2 ^ 16
    → c ≢ 0
    → IsValid (record s { refcounts = set s.refcounts f c })
recount-IsValid s f c v hf used small pos = record {
  small = v.small;
  words = v.words;
  counts = length-set s.refcounts f c ∙ v.counts;
  tally = v.tally;
  fits = fits_after s s.bitmap f c v hf (rw used (small, (λ _. pos), (λ e. cc))) (λ j ne. refl);
}

pub frame_valid-lt : (s : Pmm) (f : ℕ) → frame_valid s f ≡ true → f < s.bits
unfolding frame_valid
frame_valid-lt s f h = ground arith

pub pmm_frame_ref-IsValid : (s : Pmm) (addr : ℕ) → IsValid s → IsValid (pmm_frame_ref s addr)
unfolding pmm_frame_ref
pmm_frame_ref-IsValid s addr v = elim (Bool-cases (frame_valid s (addr_to_frame addr))) [
  | inr bad ↦ rw bad v
  | inl good ↦ elim (Bool-cases (bit_tst s.bitmap (addr_to_frame addr))) [
    | inr free ↦ rw (good, free) v
    | inl used ↦ elim (Bool-cases (get_or s.refcounts (addr_to_frame addr) 0 == 0xffff)) [
      | inl full ↦ rw (good, used, full) v
      | inr room ↦
          let f = addr_to_frame addr in
          let hf = frame_valid-lt s f good in
          let lim = (v.fits f hf).0 in
          rw (good, used, room)
            (recount-IsValid s f ((get_or s.refcounts f 0 + 1) % 2 ^ 16) v hf used (omega arith)
              (ground arith))
    ]
  ]
]

pub pmm_frame_unref-IsValid : (s : Pmm) (addr : ℕ) → IsValid s → IsValid (pmm_frame_unref s addr)
unfolding pmm_frame_unref
pmm_frame_unref-IsValid s addr v = elim (Bool-cases (frame_valid s (addr_to_frame addr))) [
  | inr bad ↦ rw bad v
  | inl good ↦ elim (Bool-cases (bit_tst s.bitmap (addr_to_frame addr))) [
    | inr free ↦ rw (good, free) v
    | inl used ↦ elim (Bool-cases (ltb 1 (get_or s.refcounts (addr_to_frame addr) 0))) [
      | inr last ↦ rw (good, used, last) (phys_free_frame-IsValid s addr v)
      | inl shared ↦
          let f = addr_to_frame addr in
          let hf = frame_valid-lt s f good in
          let lim = (v.fits f hf).0 in
          rw (good, used, shared)
            (recount-IsValid s f (get_or s.refcounts f 0 - 1) v hf used (omega arith)
              (ground arith))
    ]
  ]
]

-- An allocation, a free and both operations on references keep the invariant, at every address.
pub operations-IsValid :
    (s : Pmm) (addr : ℕ)
    → IsValid s
    → IsValid (phys_alloc_frame s).1
      × IsValid (phys_free_frame s addr)
      × IsValid (pmm_frame_ref s addr)
      × IsValid (pmm_frame_unref s addr)
operations-IsValid s addr v = (
  phys_alloc_frame-IsValid s v,
  phys_free_frame-IsValid s addr v,
  pmm_frame_ref-IsValid s addr v,
  pmm_frame_unref-IsValid s addr v,
)
