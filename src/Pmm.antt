-- ===== src/Pmm.antt =====
-- kernel/pmm.c: the allocator of physical 4 KiB frames, with a bitmap and reference counts.
--
-- `uintptr_t` has 32 bits (i386). `g_bitmap` is the list of its 32-bit words and `g_refcounts` the
-- list of its counts; each is empty where the pointer is NULL. The three macros on bits are those of
-- `Prelude.Bits` at word `i / 32`, bit `i % 32`.
pub mod Bitmap
pub mod Invariant
pub mod Alloc
pub mod Refcount
pub mod Boot
mod Examples
use deanos.Prelude.{
  ℕ, zero, suc, ◌+◌, ◌-◌, ◌*◌, ◌/◌, ◌%◌, ◌^◌, Bool, true, false, not, ◌&&◌, ◌||◌, List, [], ◌∷◌,
  ltb, leb, ◌==◌, if◌then◌else◌, get_or, set, bit_test, bit_set, bit_clear,
}

pub record Pmm : Type 0 where
  pub bitmap : List ℕ
  pub refcounts : List ℕ
  pub bits : ℕ
  pub free_frames : ℕ

abbrev pub frame_size : ℕ
frame_size = 4096

-- BIT_TST, BIT_SET and BIT_CLR
unfoldable pub bit_tst : List ℕ → ℕ → Bool
bit_tst arr i = bit_test (get_or arr (i / 32) 0) (i % 32)

unfoldable pub bit_set_in : List ℕ → ℕ → List ℕ
bit_set_in arr i = set arr (i / 32) (bit_set (get_or arr (i / 32) 0) (i % 32))

unfoldable pub bit_clr_in : List ℕ → ℕ → List ℕ
bit_clr_in arr i = set arr (i / 32) (bit_clear (get_or arr (i / 32) 0) (i % 32))

-- `(uint32_t)(addr >> 12)` and `((uintptr_t)frame) << 12`
abbrev pub addr_to_frame : ℕ → ℕ
addr_to_frame addr = addr / 4096 % 2 ^ 32

abbrev pub frame_to_addr : ℕ → ℕ
frame_to_addr frame = frame * 4096 % 2 ^ 32

abbrev pub is_null : List ℕ → Bool
is_null [] = true
is_null (_ ∷ _) = false

unfoldable pub frame_valid : Pmm → ℕ → Bool
frame_valid s frame = ltb frame s.bits && not (is_null s.bitmap)

-- Marks frame `i` used with one reference, as `phys_alloc_frame` does where it finds it free.
unfoldable pub take_frame : Pmm → ℕ → Pmm
take_frame s i = record s {
  bitmap = bit_set_in s.bitmap i;
  refcounts = set s.refcounts i 1;
  free_frames = if s.free_frames == 0 then s.free_frames else s.free_frames - 1;
}

-- Marks frame `f` free: the body that `bitmap_free_range` and `phys_free_frame` share.
unfoldable pub release_frame : Pmm → ℕ → Pmm
release_frame s f =
    if bit_tst s.bitmap f
    then record s {
      bitmap = bit_clr_in s.bitmap f;
      refcounts = set s.refcounts f 0;
      free_frames = (s.free_frames + 1) % 2 ^ 32;
    }
    else s

-- The scan of `phys_alloc_frame` with `n` frames left, the next being `i`.
alloc_scan : ℕ → ℕ → Pmm → ℕ × Pmm
alloc_scan zero i s = (0, s)
alloc_scan (suc n) i s =
    if bit_tst s.bitmap i then alloc_scan n (i + 1) s else (frame_to_addr i, take_frame s i)

unfoldable pub phys_alloc_frame : Pmm → ℕ × Pmm
unfolding alloc_scan
phys_alloc_frame s = alloc_scan s.bits 0 s

unfoldable pub phys_free_frame : Pmm → ℕ → Pmm
phys_free_frame s phys_addr =
    let f = addr_to_frame phys_addr in if leb s.bits f then s else release_frame s f

unfoldable pub pmm_frame_ref : Pmm → ℕ → Pmm
pmm_frame_ref s phys_addr =
    let f = addr_to_frame phys_addr in
    if not (frame_valid s f)
    then s
    else if not (bit_tst s.bitmap f)
    then s
    else if not (get_or s.refcounts f 0 == 0xffff)
    then record s { refcounts = set s.refcounts f ((get_or s.refcounts f 0 + 1) % 2 ^ 16) }
    else s

unfoldable pub pmm_frame_unref : Pmm → ℕ → Pmm
pmm_frame_unref s phys_addr =
    let f = addr_to_frame phys_addr in
    if not (frame_valid s f)
    then s
    else if not (bit_tst s.bitmap f)
    then s
    else if ltb 1 (get_or s.refcounts f 0)
    then record s { refcounts = set s.refcounts f (get_or s.refcounts f 0 - 1) }
    else phys_free_frame s phys_addr

unfoldable pub pmm_frame_refcount : Pmm → ℕ → ℕ
pmm_frame_refcount s phys_addr =
    let f = addr_to_frame phys_addr in
    if not (frame_valid s f) || not (bit_tst s.bitmap f) then 0 else get_or s.refcounts f 0

unfoldable pub pmm_total_frames : Pmm → ℕ
pmm_total_frames s = s.bits

unfoldable pub pmm_free_frames : Pmm → ℕ
pmm_free_frames s = s.free_frames
