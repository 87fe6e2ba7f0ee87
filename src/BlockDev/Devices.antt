-- ===== src/BlockDev/Devices.antt =====
-- Reading, writing and flushing through the cache of kernel/blockdev.c leave the table of devices alone.
use deanos.BlockDev.{
  BlockDev, Driver, Block, block_cache_get_slot, write_through, block_cache_writeback_entry,
  block_cache_load, find_invalid, clock, clock_fuel, entry, block_cache_find, bump,
}
use deanos.BlockDev.Sync.{
  write_one, flush_slots, write_blocks, read_one, evict, read_blocks, fill, count_miss,
}
use deanos.Prelude.{
  ℕ, ◌≡◌, List, Bool, ℤ, suc, arith, ◌∷◌, Option-cases, inr, both_branches, inl, is_negative, ◌&&◌,
  not, ◌||◌, ◌+◌, neg, ◌∙◌, if◌then◌else◌, zero, [], refl,
}

module _ {World : Type 0} (drv : Driver World) where
  writeback-devs :
      (s : BlockDev World) (slot : ℕ) → (block_cache_writeback_entry drv s slot).1.devs ≡ s.devs
  unfolding block_cache_writeback_entry write_through
  writeback-devs s slot = ground arith

  load-devs :
      (s : BlockDev World) (slot dev lba : ℕ)
      → (block_cache_load drv s slot dev lba).1.devs ≡ s.devs
  unfolding block_cache_load
  load-devs s slot dev lba = ground arith

  evict-devs : (rc : ℤ) (s : BlockDev World) → (evict drv rc s).2.devs ≡ s.devs
  unfolding evict block_cache_get_slot
  evict-devs rc s = elim (Option-cases (find_invalid s.cache 0)) [
    | inr (i, found) ↦
        let P : ℤ × ℕ × BlockDev World → Type 0 = λ r. r.2.devs ≡ s.devs in
        let e = entry s.cache i in
        rw (evict, block_cache_get_slot, found)
          (both_branches P (e.valid && e.dirty)
            (both_branches P (is_negative (block_cache_writeback_entry drv s i).0)
              (writeback-devs s i) (writeback-devs s i))
            refl)
    | inl full ↦ elim (Option-cases (clock clock_fuel s.cache s.hand)) [
      | inl lost ↦ rw (evict, block_cache_get_slot, full, lost) refl
      | inr ((i, cache, hand), found) ↦
          let P : ℤ × ℕ × BlockDev World → Type 0 = λ r. r.2.devs ≡ s.devs in
          let e = entry cache i in
          let s' : BlockDev World = record s {
            cache = cache;
            hand = hand;
            stats = record (s.stats) { evictions = bump s.stats.evictions };
          } in
          rw (evict, block_cache_get_slot, full, found)
            (both_branches P (e.valid && e.dirty)
              (both_branches P (is_negative (block_cache_writeback_entry drv s' i).0)
                (writeback-devs s' i) (writeback-devs s' i))
              refl)
    ]
  ]

  read_one-devs : (s : BlockDev World) (dev lba : ℕ) → (read_one drv s dev lba).2.devs ≡ s.devs
  unfolding read_one
  read_one-devs s dev lba = elim (Option-cases (block_cache_find s.cache dev lba)) [
    | inr (slot, hit) ↦ rw (read_one, hit) refl
    | inl miss ↦
        let P : ℤ × Block × BlockDev World → Type 0 = λ r. r.2.devs ≡ s.devs in
        let ev = evict drv (neg 5) (count_miss s) in
        let one = evict-devs (neg 5) (count_miss s) in
        let two = load-devs ev.2 ev.1 dev lba ∙ one in
        rw (read_one, miss)
          (both_branches P (is_negative ev.0) one
            (both_branches P (is_negative (block_cache_load drv ev.2 ev.1 dev lba).0) two two))
  ]

  write_one-devs :
      (s : BlockDev World) (dev lba : ℕ) (b : Block) → (write_one drv s dev lba b).1.devs ≡ s.devs
  unfolding write_one fill
  write_one-devs s dev lba b = elim (Option-cases (block_cache_find s.cache dev lba)) [
    | inr (slot, hit) ↦ rw (write_one, hit) refl
    | inl miss ↦
        let P : ℤ × BlockDev World → Type 0 = λ r. r.1.devs ≡ s.devs in
        let one = evict-devs (neg 6) (count_miss s) in
        rw (write_one, miss)
          (both_branches P (is_negative (evict drv (neg 6) (count_miss s)).0) one one)
  ]

  pub read_blocks-devs :
      (n : ℕ) (s : BlockDev World) (dev lba : ℕ) → (read_blocks drv n s dev lba).2.devs ≡ s.devs
  unfolding read_blocks
  read_blocks-devs zero s dev lba = refl
  read_blocks-devs (suc n) s dev lba =
      let P : ℤ × List Block × BlockDev World → Type 0 = λ r. r.2.devs ≡ s.devs in
      let r = read_one drv s dev lba in
      let one = read_one-devs s dev lba in
      both_branches P (is_negative r.0) one (read_blocks-devs n r.2 dev (lba + 1) ∙ one)

  pub write_blocks-devs :
      (bs : List Block) (s : BlockDev World) (dev lba : ℕ)
      → (write_blocks drv bs s dev lba).1.devs ≡ s.devs
  unfolding write_blocks
  write_blocks-devs [] s dev lba = refl
  write_blocks-devs (b ∷ bs) s dev lba =
      let P : ℤ × BlockDev World → Type 0 = λ r. r.1.devs ≡ s.devs in
      let r = write_one drv s dev lba b in
      let one = write_one-devs s dev lba b in
      both_branches P (is_negative r.0) one (write_blocks-devs bs r.1 dev (lba + 1) ∙ one)

  pub flush_slots-devs :
      (wanted : ℕ → Bool) (n i : ℕ) (s : BlockDev World)
      → (flush_slots drv wanted n i s).1.devs ≡ s.devs
  unfolding flush_slots
  flush_slots-devs wanted zero i s = refl
  flush_slots-devs wanted (suc n) i s =
      let P : ℤ × BlockDev World → Type 0 = λ r. r.1.devs ≡ s.devs in
      let e = entry s.cache i in
      let skip = not e.valid || not e.dirty || not (wanted e.dev_index) in
      let r = block_cache_writeback_entry drv s i in
      let one = writeback-devs s i in
      let next = if skip then s else r.1 in
      let here : next.devs ≡ s.devs =
        both_branches (λ (x : BlockDev World). x.devs ≡ s.devs) skip refl one in
      both_branches P (not skip && is_negative r.0) one
        (flush_slots-devs wanted n (i + 1) next ∙ here)
