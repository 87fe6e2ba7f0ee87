-- ===== src/Pmm/Boot.antt =====
-- `pmm_initialize` of kernel/pmm.c: from the multiboot2 memory map to the first state of the frame
-- allocator. The tag is its two fields and the entry found at each byte offset from its start;
-- `kernel_end` is the linker's symbol `_kernel_end`.
pub mod Walk
pub mod Loading
pub mod Safety
use deanos.Prelude.{
  ℕ, zero, suc, ◌+◌, ◌-◌, ◌*◌, ◌/◌, ◌%◌, ◌^◌, Bool, true, false, not, ◌&&◌, ◌||◌, List, [], ◌∷◌,
  ltb, leb, ◌==◌, if◌then◌else◌, set, replicate, Option, none, some,
}
use deanos.Pmm.{Pmm, bit_tst, bit_set_in, release_frame, addr_to_frame}

-- struct multiboot_mmap_entry
pub record MmapEntry : Type 0 where
  pub addr : ℕ
  pub len : ℕ
  pub kind : ℕ

-- struct multiboot_tag_mmap
pub record MmapTag : Type 0 where
  pub size : ℕ
  pub entry_size : ℕ
  pub entry_at : ℕ → MmapEntry

abbrev pub header_size : ℕ
header_size = 16

abbrev pub mmap_entry_size : ℕ
mmap_entry_size = 24

-- The entries that `while (cur + sizeof(entry) <= end)` visits from offset `cur` on.
unfoldable pub entries_from : ℕ → MmapTag → ℕ → List MmapEntry
entries_from zero tag cur = []
entries_from (suc fuel) tag cur =
    let rest = entries_from fuel tag (cur + tag.entry_size) in
    if leb (cur + mmap_entry_size) tag.size then tag.entry_at cur ∷ rest else []

unfoldable pub entries : MmapTag → List MmapEntry
unfolding entries_from
entries tag = entries_from (tag.size + 1) tag header_size

abbrev pub is_available : MmapEntry → Bool
is_available e = (e.kind == 1) && not (e.len == 0)

-- Pass 1: the end of the highest available region, in 64 bits.
unfoldable pub highest_end : List MmapEntry → ℕ → ℕ
highest_end [] highest = highest
highest_end (e ∷ es) highest =
    let region_end = (e.addr + e.len) % 2 ^ 64 in
    highest_end es (if is_available e && ltb highest region_end then region_end else highest)

-- ALIGN_UP on a 32-bit value, `a` a power of two
abbrev pub align_up : ℕ → ℕ → ℕ
align_up x a = (x + (a - 1)) % 2 ^ 32 / a * a

-- `boot_alloc`: the block's address and the next free address.
abbrev pub boot_alloc : ℕ → ℕ → ℕ → ℕ × ℕ
boot_alloc ptr bytes align =
    let base = align_up ptr (if ltb align 4 then 4 else align) in
    (base, (base + align_up bytes 4) % 2 ^ 32)

-- The loop of `bitmap_free_range` over `n` frames from `f` on.
unfoldable pub free_frames_from : ℕ → ℕ → Pmm → Pmm
free_frames_from zero f s = s
free_frames_from (suc n) f s = free_frames_from n (f + 1) (release_frame s f)

unfoldable pub bitmap_free_range : Pmm → ℕ → ℕ → Pmm
unfolding free_frames_from
bitmap_free_range s start stop =
    let first = addr_to_frame (align_up start 4096) in
    let last = addr_to_frame stop in
    let last' = if ltb s.bits last then s.bits else last in
    if leb stop start then s else free_frames_from (last' - first) first s

-- Pass 2 at one entry, with 32-bit bounds of the region.
unfoldable pub free_entry : ℕ → MmapEntry → Pmm → Pmm
unfolding bitmap_free_range
free_entry reserved_end e p =
    let s = e.addr % 2 ^ 32 in
    let t = (e.addr + e.len) % 2 ^ 64 % 2 ^ 32 in
    let fs = if ltb s reserved_end then reserved_end else s in
    if is_available e && ltb reserved_end t && ltb fs t then bitmap_free_range p fs t else p

unfoldable pub free_entries : ℕ → List MmapEntry → Pmm → Pmm
free_entries reserved_end [] p = p
free_entries reserved_end (e ∷ es) p = free_entries reserved_end es (free_entry reserved_end e p)

-- Frame 0 is reserved again if a region freed it.
unfoldable pub reserve_zero : Pmm → Pmm
reserve_zero p =
    if not (p.bits == 0) && not (bit_tst p.bitmap 0)
    then record p {
      bitmap = bit_set_in p.bitmap 0;
      free_frames = if p.free_frames == 0 then p.free_frames else p.free_frames - 1;
    }
    else p

-- The counts after the first `n` rounds of the loop that gives each used frame one reference.
unfoldable pub count_used : ℕ → Pmm → List ℕ
count_used zero p = p.refcounts
count_used (suc n) p =
    let counts = count_used n p in if bit_tst p.bitmap n then set counts n 1 else counts

abbrev pub max_bytes : ℕ
max_bytes = 0x8200000

-- The state with every frame used, and the first address behind bitmap and reference counts.
unfoldable pub fresh : ℕ → ℕ → ℕ × Pmm
fresh kernel_end bits =
    let words = (bits + 31) / 32 in
    let (_, ptr) = boot_alloc (align_up kernel_end 4096) (words * 4) 4096 in
    let (_, ptr') = boot_alloc ptr (bits * 2) 4 in
    (
      ptr',
      record {
        bitmap = replicate words 0xffff_ffff;
        refcounts = replicate bits 0;
        bits = bits;
        free_frames = 0;
      },
    )

-- `g_bitmap_bits` for a map: the frames up to the highest end, at most 130 MiB.
unfoldable pub frames_tracked : List MmapEntry → ℕ
frames_tracked es =
    let highest = highest_end es 0 in
    ((if ltb max_bytes highest then max_bytes else highest) + 4095) / 4096

-- Everything from the tables to the reserved frame 0, for `bits` frames.
unfoldable pub load_map : ℕ → ℕ → List MmapEntry → Pmm
load_map kernel_end bits es =
    let (reserved_end, p) = fresh kernel_end bits in reserve_zero (free_entries reserved_end es p)

unfoldable pub count_all : Pmm → Pmm
count_all p = record p { refcounts = count_used p.bits p }

-- `none` where the source returns with the allocator left as it was.
unfoldable pub pmm_initialize : ℕ → Option MmapTag → Option Pmm
pmm_initialize kernel_end none = none
pmm_initialize kernel_end (some tag) =
    let es = entries tag in
    if ltb tag.entry_size mmap_entry_size || ltb 128 tag.entry_size
    then none
    else if highest_end es 0 == 0
    then none
    else some (count_all (load_map kernel_end (frames_tracked es) es))
