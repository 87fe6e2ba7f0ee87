-- ===== src/BlockDev/Sync.antt =====
-- The synchronous paths of kernel/blockdev.c: `blockdev_read_sync_impl`, `blockdev_write_sync_impl`,
-- `blockdev_flush_sync_impl` and the loop of `blockdev_flush_all` over the cache.
use deanos.BlockDev.{
  Block, Driver, BlockDev, device, entry, bump, cache_entries, blockdev_should_cache,
  block_cache_find, block_cache_get_slot, block_cache_writeback_entry, block_cache_load,
}
use deanos.Prelude.{
  List, ℕ, ℤ, Option, some, set, pos, Bool, true, suc, if◌then◌else◌, ◌∷◌, neg, [], leb, not,
  is_negative, ◌+◌, none, ◌||◌, length, zero, ◌==◌, ◌&&◌, ltb, ◌-◌,
}

module _ {World : Type 0} where
  abbrev pub count_hit : BlockDev World → BlockDev World
  count_hit s = record s { stats = record (s.stats) { hits = bump s.stats.hits } }

  abbrev pub count_miss : BlockDev World → BlockDev World
  count_miss s = record s { stats = record (s.stats) { misses = bump s.stats.misses } }

  -- The last three lines of a round of the write loop.
  unfoldable pub fill : BlockDev World → (slot dev lba : ℕ) → Block → BlockDev World
  fill s slot dev lba block = record s {
    cache = set s.cache slot (record {
      valid = true;
      dirty = true;
      ref = true;
      dev_index = dev;
      lba = lba;
      bytes = block;
    });
  }

  module _ (drv : Driver World) where
    -- The part that the read and the write loop share on a miss: a slot, written back if it must be.
    -- `no_slot` is the code for no slot.
    unfoldable pub evict : ℤ → BlockDev World → ℤ × ℕ × BlockDev World
    evict no_slot s = elim (block_cache_get_slot s) [
      | none ↦ (no_slot, 0, s)
      | some (slot, s') ↦
          let e = entry s'.cache slot in
          let (wrc, s'') = block_cache_writeback_entry drv s' slot in
          if e.valid && e.dirty
          then (if is_negative wrc then (wrc, slot, s'') else (pos 0, slot, s''))
          else (pos 0, slot, s')
    ]

    -- One round of the read loop: the block that `memcpy` takes to the buffer, on success.
    unfoldable pub read_one : BlockDev World → (dev lba : ℕ) → ℤ × Block × BlockDev World
    read_one s dev lba = elim (block_cache_find s.cache dev lba) [
      | some slot ↦
          let e = entry s.cache slot in
          (
            pos 0,
            e.bytes,
            record (count_hit s) { cache = set s.cache slot (record e { ref = true }) },
          )
      | none ↦
          let (rc, slot, s') = evict (neg 5) (count_miss s) in
          let (lrc, s'') = block_cache_load drv s' slot dev lba in
          if is_negative rc
          then (rc, [], s')
          else if is_negative lrc
          then (lrc, [], s'')
          else (pos 0, (entry s''.cache slot).bytes, s'')
    ]

    -- One round of the write loop. A hit finds the entry valid for `dev` and `lba` already.
    unfoldable pub write_one : BlockDev World → (dev lba : ℕ) → Block → ℤ × BlockDev World
    write_one s dev lba block = elim (block_cache_find s.cache dev lba) [
      | some slot ↦ (pos 0, fill (count_hit s) slot dev lba block)
      | none ↦
          let (rc, slot, s') = evict (neg 6) (count_miss s) in
          if is_negative rc then (rc, s') else (pos 0, fill s' slot dev lba block)
    ]

    -- The read loop over `n` blocks from `lba` on, with the blocks copied so far.
    unfoldable pub read_blocks :
        ℕ → BlockDev World → (dev lba : ℕ) → ℤ × List Block × BlockDev World
    read_blocks zero s dev lba = (pos 0, [], s)
    read_blocks (suc n) s dev lba =
        let (rc, block, s') = read_one s dev lba in
        let (rc', blocks, s'') = read_blocks n s' dev (lba + 1) in
        if is_negative rc then (rc, [], s') else (rc', block ∷ blocks, s'')

    unfoldable pub write_blocks : List Block → BlockDev World → (dev lba : ℕ) → ℤ × BlockDev World
    write_blocks [] s dev lba = (pos 0, s)
    write_blocks (block ∷ blocks) s dev lba =
        let (rc, s') = write_one s dev lba block in
        let rest = write_blocks blocks s' dev (lba + 1) in if is_negative rc then (rc, s') else rest

    -- The driver calls of a device that is not cached. They can reach more than devices and cache, in a
    -- state `S` that `keep` gives for devices and cache with the rest as it is.
    module _ {S : Type 0} (keep : BlockDev World → S)
        (nested_read : BlockDev World → (dev lba count : ℕ) → ℤ × List Block × S)
        (nested_write : BlockDev World → (dev lba : ℕ) → List Block → ℤ × S) where
      -- `has_buffer` says that the buffer is not NULL. The bounds checks keep `lba + i` from wrapping.
      unfoldable pub blockdev_read_sync_impl :
          BlockDev World → (index lba count : ℕ) → Bool → ℤ × List Block × S
      blockdev_read_sync_impl s index lba count has_buffer =
          let d = device s index in
          let (rc, blocks, s') = read_blocks count s index lba in
          if leb (length s.devs) index || not has_buffer || count == 0
          then (neg 1, [], keep s)
          else if not d.has_read
          then (neg 2, [], keep s)
          else if leb d.block_count lba
          then (neg 3, [], keep s)
          else if ltb (d.block_count - lba) count
          then (neg 4, [], keep s)
          else if not (blockdev_should_cache d)
          then nested_read s index lba count
          else (rc, blocks, keep s')

      -- The buffer holds `count` blocks; `none` is NULL.
      unfoldable pub blockdev_write_sync_impl :
          BlockDev World → (index lba : ℕ) → Option (List Block) → ℤ × S
      blockdev_write_sync_impl s index lba none = (neg 1, keep s)
      blockdev_write_sync_impl s index lba (some blocks) =
          let d = device s index in
          let (rc, s') = write_blocks blocks s index lba in
          if leb (length s.devs) index || length blocks == 0
          then (neg 1, keep s)
          else if not d.has_write
          then (neg 2, keep s)
          else if d.readonly
          then (neg 3, keep s)
          else if leb d.block_count lba
          then (neg 4, keep s)
          else if ltb (d.block_count - lba) (length blocks)
          then (neg 5, keep s)
          else if not (blockdev_should_cache d)
          then nested_write s index lba blocks
          else (rc, keep s')

    -- The loop of a flush over the `n` slots from `i` on, for the devices that `wanted` picks.
    unfoldable pub flush_slots : (ℕ → Bool) → ℕ → ℕ → BlockDev World → ℤ × BlockDev World
    flush_slots wanted zero i s = (pos 0, s)
    flush_slots wanted (suc n) i s =
        let e = entry s.cache i in
        let skip = not e.valid || not e.dirty || not (wanted e.dev_index) in
        let (rc, s') = block_cache_writeback_entry drv s i in
        let rest = flush_slots wanted n (i + 1) (if skip then s else s') in
        if not skip && is_negative rc then (rc, s') else rest

    -- `parent` is the result of `mbr_partition_parent_index` for the device, if it gives one.
    unfoldable pub blockdev_flush_sync_impl : BlockDev World → ℕ → Option ℕ → ℤ × BlockDev World
    blockdev_flush_sync_impl s index parent =
        let d = device s index in
        let target_b : ℕ =
          if d.partition then elim parent [ some p ↦ p | none ↦ 0xffff_ffff ] else 0xffff_ffff in
        if leb (length s.devs) index
        then (neg 1, s)
        else flush_slots (λ dev. dev == index || dev == target_b) cache_entries 0 s

    -- The loop of `blockdev_flush_all`, after the queue has drained.
    unfoldable pub flush_all_slots : BlockDev World → ℤ × BlockDev World
    flush_all_slots s = flush_slots (λ dev. true) cache_entries 0 s
