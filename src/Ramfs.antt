-- ===== src/Ramfs.antt =====
-- kernel/ramfs.c: the data of a file that is kept in memory, and the entries of a directory.
--
-- Numbers are the uint32_t of the source; a result that is an int32_t is pos or negsuc. The heap is
-- asked for memory by `krealloc` alone, whose answer for a size is a parameter; the block that it gives
-- starts with the old bytes.
pub mod Directory
pub mod Bytes
pub mod Room
pub mod Writing
mod Examples
use deanos.Prelude.{
  ℕ, List, ℤ, Bool, ◌*◌, ◌∷◌, take, suc, ◌+◌, drop, ◌-◌, set, ◌%◌, Option, if◌then◌else◌, [], ◌^◌,
  length, ◌==◌, ltb, ◌&&◌, zero, leb, some, pos, neg, none, not, ◌++◌, replicate,
}

abbrev pub vfs_max_file : ℕ
vfs_max_file = 64 * 1024

-- ramfs_file_data_t, and the size that the node keeps; the capacity is the length of the data.
pub record File : Type 0 where
  pub content : List ℕ
  pub size : ℕ

-- The bytes of a block from `offset` on, `n` of them.
abbrev pub bytes_at : ℕ → ℕ → List ℕ → List ℕ
bytes_at offset n bs = take n (drop offset bs)

-- What is put into the buffer, and the result. A file without data has size 0.
unfoldable pub ramfs_read : File → (offset size : ℕ) → ℤ × List ℕ
ramfs_read f offset size =
    let avail = f.size - offset in
    let n = if ltb avail size then avail else size in
    if leb f.size offset then (pos 0, []) else (pos n, bytes_at offset n f.content)

-- `while (new_cap < needed)`; a round at least doubles the capacity, or reaches the limit.
unfoldable pub grow_to : ℕ → (new_cap needed : ℕ) → ℕ
grow_to zero new_cap needed = new_cap
grow_to (suc fuel) new_cap needed =
    let doubled = (new_cap * 2) % 2 ^ 32 in
    let next = if ltb vfs_max_file doubled then vfs_max_file else doubled in
    let rest = grow_to fuel next needed in if ltb new_cap needed then rest else new_cap

-- The data with the new capacity; `none` is -1. The new bytes are 0.
unfoldable pub ramfs_ensure_capacity :
    (ℕ → Bool) → (block : List ℕ) → (needed : ℕ) → Option (List ℕ)
unfolding grow_to
ramfs_ensure_capacity krealloc block needed =
    let capacity = length block in
    let new_cap = grow_to 256 (if capacity == 0 then 256 else capacity) needed in
    if leb needed capacity
    then some block
    else if ltb vfs_max_file needed
    then none
    else if not (krealloc new_cap)
    then none
    else some (block ++ replicate (new_cap - capacity) 0)

-- `memcpy(data + offset, buf, size)`, within the data.
unfoldable pub put_bytes : List ℕ → ℕ → List ℕ → List ℕ
put_bytes block offset [] = block
put_bytes block offset (b ∷ bs) = put_bytes (set block offset b) (offset + 1) bs

-- The end of `ramfs_write`: `none` is a refusal of `ramfs_ensure_capacity`.
unfoldable pub store_bytes : File → (offset size end : ℕ) → List ℕ → Option (List ℕ) → ℤ × File
unfolding put_bytes
store_bytes f offset size end buf none = (neg 1, f)
store_bytes f offset size end buf (some block) = (
  pos size,
  record {
    content = put_bytes block offset (take size buf);
    size = if ltb f.size end then end else f.size;
  },
)

-- The bytes that are to be written are those of `buf`.
unfoldable pub ramfs_write : (ℕ → Bool) → File → (offset : ℕ) → (buf : List ℕ) → ℤ × File
unfolding ramfs_ensure_capacity store_bytes
ramfs_write krealloc f offset buf =
    let end = (offset + length buf) % 2 ^ 32 in
    let clamped = ltb vfs_max_file end in
    let size = if clamped then vfs_max_file - offset else length buf in
    let end' = if clamped then vfs_max_file else end in
    if clamped && leb vfs_max_file offset
    then (neg 1, f)
    else store_bytes f offset size end' buf (ramfs_ensure_capacity krealloc f.content end')
