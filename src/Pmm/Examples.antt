-- ===== src/Pmm/Examples.antt =====
-- The theorems about kernel/pmm.c at small states, and runs of it.
use deanos.Pmm.{
  Pmm, phys_free_frame, pmm_frame_refcount, phys_alloc_frame, bit_tst, pmm_frame_unref,
  pmm_frame_ref, addr_to_frame,
}
use deanos.Pmm.Invariant.{IsValid, CountFits, operations-IsValid}
use deanos.Pmm.Boot.{entries, MmapTag, MmapEntry}
use deanos.Pmm.Bitmap.{count_free}
use deanos.Prelude.{
  ◌+◌, ◌∷◌, ◌≡◌, ◌%◌, bit_test, ◌≢◌, arith, ◌↔◌, [], refl, ℕ, ◌-◌, ◌<◌, get_or, suc, zero, length,
  ◌*◌, ◌≤◌,
}
use deanos.Pmm.Alloc.{
  ZeroReserved, phys_free_frame-phys_alloc_frame, phys_alloc_frame-fails_iff,
  phys_alloc_frame-takes,
}
use deanos.Pmm.Boot.Walk.{entries-total}
use deanos.Pmm.Refcount.{counted_up, refcount_changes}

-- Two frames: frame 0 in use, frame 1 free.
abbrev small : Pmm
small = record { bitmap = 1 ∷ []; refcounts = 1 ∷ 0 ∷ []; bits = 2; free_frames = 1 }

small-fits : (i : ℕ) → i < 2 → CountFits (bit_tst (1 ∷ []) i) (get_or (1 ∷ 0 ∷ []) i 0)
unfolding bit_tst bit_test
small-fits zero h = (omega arith, (λ e. omega arith), λ e. cc)
small-fits (suc zero) h = (omega arith, (λ e. cc), λ e. refl)
small-fits (suc (suc i)) h = absurd (omega arith)

small-IsValid : IsValid small
unfolding count_free bit_tst bit_test
small-IsValid = record {
  small = omega arith;
  words = refl;
  counts = refl;
  tally = refl;
  fits = small-fits;
}

small-ZeroReserved : ZeroReserved small
unfolding bit_tst bit_test
small-ZeroReserved = refl

alloc-small : (phys_alloc_frame small).0 ≡ 4096
unfolding phys_alloc_frame bit_tst bit_test
alloc-small = refl

alloc-ne-zero : (phys_alloc_frame small).0 ≢ 0
alloc-ne-zero = omega (arith, alloc-small)

-- One free megabyte from 1 MiB on, the kernel ending one page into it.
abbrev map_tag : MmapTag
map_tag = record {
  size = 40;
  entry_size = 24;
  entry_at = λ off. record { addr = 0x10_0000; len = 0x10_0000; kind = 1 };
}

abbrev no_region : MmapEntry
no_region = record { addr = 0; len = 0; kind = 0 }

phys_alloc_frame-fails_iff_example : ((phys_alloc_frame small).0 ≡ 0) ↔ (small.free_frames ≡ 0)
phys_alloc_frame-fails_iff_example =
    phys_alloc_frame-fails_iff small small-IsValid small-ZeroReserved

phys_alloc_frame-takes_example :
    let (a, t) = phys_alloc_frame small in
    (a % 4096 ≡ 0)
    × (pmm_frame_refcount small a ≡ 0)
    × (pmm_frame_refcount t a ≡ 1)
    × (t.free_frames + 1 ≡ 1)
    × ((j : ℕ)
        → j ≢ addr_to_frame a
        → (bit_tst t.bitmap j ≡ bit_tst (1 ∷ []) j)
          × (get_or t.refcounts j 0 ≡ get_or (1 ∷ 0 ∷ []) j 0))
phys_alloc_frame-takes_example =
    phys_alloc_frame-takes small small-IsValid small-ZeroReserved alloc-ne-zero

phys_free_frame-phys_alloc_frame_example :
    phys_free_frame (phys_alloc_frame small).1 (phys_alloc_frame small).0 ≡ small
phys_free_frame-phys_alloc_frame_example =
    phys_free_frame-phys_alloc_frame small small-IsValid small-ZeroReserved alloc-ne-zero

operations-IsValid_example :
    IsValid (phys_alloc_frame small).1
    × IsValid (phys_free_frame small 0x123)
    × IsValid (pmm_frame_ref small 0x123)
    × IsValid (pmm_frame_unref small 0x123)
operations-IsValid_example = operations-IsValid small 0x123 small-IsValid

refcount_changes_example :
    (pmm_frame_refcount (pmm_frame_unref small 0x10) 0x20 ≡ pmm_frame_refcount small 0x20 - 1)
    × (pmm_frame_refcount (pmm_frame_ref small 0x10) 0x20
        ≡ counted_up (pmm_frame_refcount small 0x20))
refcount_changes_example = refcount_changes small small-IsValid 0x10 0x20

entries-total_example :
    ((1 < length (entries map_tag)) ↔ (16 + 1 * map_tag.entry_size + 24 ≤ map_tag.size))
    × (1 < length (entries map_tag)
        → get_or (entries map_tag) 1 no_region ≡ map_tag.entry_at (16 + 1 * map_tag.entry_size))
entries-total_example = entries-total map_tag no_region (omega arith) 1
