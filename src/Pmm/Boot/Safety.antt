-- ===== src/Pmm/Boot/Safety.antt =====
-- `pmm_initialize` of kernel/pmm.c as a whole: the first state keeps the allocator's invariant, and
-- its free frames are those of available memory above the kernel and the allocator's own tables.

use deanos.Pmm.Boot.{fresh, MmapEntry}
use deanos.Pmm.{Pmm, bit_tst}
use deanos.Prelude.{
  ℕ, ◌≡◌, ones, ◌<◌, arith, replicate, get_or-replicate, ◌+◌, true, ◌/◌, bit_test-ones, ◌%◌, false,
  ◌≢◌, ◌↔◌, List,
}
use deanos.Pmm.Boot.Loading.{SomeCovers}
use deanos.Pmm.Invariant.{IsValid}
use deanos.Pmm.Alloc.{ZeroReserved}

pub fresh-bit :
    (bits f : ℕ) → f < bits → bit_tst (replicate ((bits + 31) / 32) 0xffff_ffff) f ≡ true
unfolding bit_tst ones
fresh-bit bits f h =
    rw (get_or-replicate {A = ℕ} ((bits + 31) / 32) (f / 32) 0xffff_ffff 0 (omega arith))
      (bit_test-ones 32 (f % 32) (omega arith))

-- The first address behind the kernel, the bitmap and the reference counts.
abbrev pub reserved_end : ℕ → ℕ → ℕ
reserved_end kernel_end bits = (fresh kernel_end bits).0

-- What the state `s` for `bits` frames and the entries `es` promises.
pub record Boots (kernel_end bits : ℕ) (es : List MmapEntry) (s : Pmm) : Type 0 where
  pub valid : IsValid s
  pub zero_reserved : ZeroReserved s
  pub frames : s.bits ≡ bits
  pub free_iff :
      (f : ℕ)
      → f < bits
      → (bit_tst s.bitmap f ≡ false) ↔ ((f ≢ 0) × SomeCovers (reserved_end kernel_end bits) es f)
