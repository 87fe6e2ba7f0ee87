-- ===== src/BlockDev/Examples.antt =====
-- The theorems about the cache of kernel/blockdev.c at a small machine: one disk whose driver never
-- fails, behind an empty cache.
use deanos.BlockDev.{
  blockdev_should_cache, BlockDev, Device, Driver, Block, cache_entries, entry, no_entry, matches,
  block_cache_get_slot, clock, find_invalid, clock_fuel, block_cache_find, cache_find_from,
}
use deanos.BlockDev.Cache.Content.{DriverLaws}
use deanos.BlockDev.Sync.{
  blockdev_read_sync_impl, blockdev_flush_sync_impl, blockdev_write_sync_impl, flush_all_slots,
  write_blocks, write_one, evict, fill,
}
use deanos.BlockDev.Cache.Evict.{IsCoherent, Unseen, view}
use deanos.Prelude.{
  ℕ, List, ℤ, ◌<◌, ◌≡◌, ◌∷◌, pos, replicate, true, [], some, Bool, refl, neg, if◌then◌else◌,
  is_negative, false, get_or-replicate, Bool-cases, arith, inr, inl, ◌⊎◌,
}
use deanos.BlockDev.Cache.Clock.{Turned, clock-total}
use deanos.BlockDev.Cache.Read.{Quiet, view_from}
use deanos.BlockDev.Cache.Write.{Wrote}
use deanos.BlockDev.Cache.Service.{
  InBounds, blockdev_write_sync_impl-view, blockdev_flush_sync_impl-durable,
  flush_all_slots-durable, blockdev_read_sync_impl-view, read-write, IsFlushed,
}
use deanos.BlockDev.Cache.Steps.{same_key}

-- Each device's blocks by number.
abbrev pub Disks : Type 0
Disks = ℕ → ℕ → Block

abbrev stored : Disks → ℕ → ℕ → Block
stored w d l = w d l

abbrev pub memory : Driver Disks
memory = record {
  read_block = λ w d l b. (pos 0, w d l, w);
  write_block = λ w d l b. (pos 0, λ d' l'. if same_key d l d' l' then b else w d' l');
}

memory-laws : DriverLaws memory stored
memory-laws = record {
  read_ok = λ w d l b ok. refl;
  read_fail = λ w d l b bad. cc;
  read_keeps = λ w d l b d' l'. refl;
  write_ok = λ w d l b ok. ground arith;
  write_other = λ w d l b d' l' ne. other w d l b d' l' ne;
}
  where
    other :
        (w : Disks) (d l : ℕ) (b : Block) (d' l' : ℕ)
        → ¬ ((d ≡ d') × (l ≡ l'))
        → (if same_key d l d' l' then b else w d' l') ≡ w d' l'
    other w d l b d' l' ne = elim (Bool-cases (same_key d l d' l')) [
      | inr off ↦ rw off
      | inl on ↦ absurd (ne (ground arith, ground arith))
    ]

abbrev disk0 : Device
disk0 = record {
  name = [];
  block_size = 512;
  block_count = 1000;
  readonly = false;
  atapi = false;
  partition = false;
  has_read = true;
  has_write = true;
}

abbrev pub machine : BlockDev Disks
machine = record {
  devs = disk0 ∷ [];
  cache = replicate cache_entries no_entry;
  hand = 0;
  stats = record { hits = 0; misses = 0; evictions = 0; writebacks = 0 };
  world = λ d l. l ∷ [];
}

empty_slot : (i : ℕ) → i < cache_entries → entry (replicate cache_entries no_entry) i ≡ no_entry
empty_slot i h = get_or-replicate cache_entries i no_entry no_entry h

machine-IsCoherent : IsCoherent stored machine
machine-IsCoherent = record {
  blocks = record {
    size = refl;
    unique = λ i j d l hi hj mi mj.
        let no_match : matches (entry (replicate cache_entries no_entry) i) d l ≡ false =
          rw (empty_slot i hi) in
        absurd (clash no_match mi);
    clean = λ i hi v d.
        let unused : (entry (replicate cache_entries no_entry) i).valid ≡ false =
          rw (empty_slot i hi) in
        absurd (clash unused v);
  };
  hand_in = omega arith;
}
  where
    clash : {b : Bool} → b ≡ false → b ≡ true → ⊥
    clash p q = cc

-- The driver calls of devices that are not cached; there are none here.
abbrev no_read : BlockDev Disks → (dev lba count : ℕ) → ℤ × List Block × BlockDev Disks
no_read s dev lba count = (neg 1, [], s)

abbrev no_write : BlockDev Disks → (dev lba : ℕ) → List Block → ℤ × BlockDev Disks
no_write s dev lba blocks = (neg 1, s)

abbrev two_blocks : List Block
two_blocks = (7 ∷ []) ∷ (8 ∷ []) ∷ []

pub disk0-cached : blockdev_should_cache disk0 ≡ true
unfolding blockdev_should_cache
disk0-cached = refl

clock-total_example :
    Turned
      (replicate cache_entries no_entry)
      (clock clock_fuel (replicate cache_entries no_entry) 5)
clock-total_example = clock-total (replicate cache_entries no_entry) 5 (omega arith) refl

blockdev_read_sync_impl-view_example :
    let (rc, blocks, s) =
      blockdev_read_sync_impl memory (λ s. s) no_read no_write machine 0 10 2 true in
    Quiet stored machine s
    × ((is_negative rc ≡ true)
        ⊎ (InBounds machine 0 10 2 × (blocks ≡ view_from stored 2 machine 0 10)))
blockdev_read_sync_impl-view_example =
    blockdev_read_sync_impl-view stored memory-laws no_read no_write machine 0 10 2 true
      machine-IsCoherent disk0-cached

blockdev_write_sync_impl-view_example :
    let r =
      blockdev_write_sync_impl memory (λ s. s) no_read no_write machine 0 10 (some two_blocks) in
    Wrote stored machine 0 10 two_blocks r × ((is_negative r.0 ≡ true) ⊎ InBounds machine 0 10 2)
blockdev_write_sync_impl-view_example =
    blockdev_write_sync_impl-view stored memory-laws no_read no_write machine 0 10 two_blocks
      machine-IsCoherent disk0-cached

-- The disk, and a partition of it.
abbrev partitioned : BlockDev Disks
partitioned = record machine { devs = disk0 ∷ record disk0 { partition = true } ∷ [] }

partitioned-IsCoherent : IsCoherent stored partitioned
partitioned-IsCoherent = record {
  blocks = machine-IsCoherent.blocks;
  hand_in = machine-IsCoherent.hand_in;
}

blockdev_flush_sync_impl-durable_example :
    let (rc, s) = blockdev_flush_sync_impl memory partitioned 1 (some 0) in
    Unseen stored partitioned s
    × ((is_negative rc ≡ true)
        ⊎ ((d l : ℕ)
            → IsFlushed partitioned 1 (some 0) d
            → stored s.world d l ≡ view stored partitioned d l))
blockdev_flush_sync_impl-durable_example =
    blockdev_flush_sync_impl-durable stored memory-laws no_read no_write partitioned 1 (some 0)
      partitioned-IsCoherent

flush_all_slots-durable_example :
    let (rc, s) = flush_all_slots memory machine in
    Unseen stored machine s
    × ((is_negative rc ≡ true) ⊎ ((d l : ℕ) → stored s.world d l ≡ view stored machine d l))
flush_all_slots-durable_example =
    flush_all_slots-durable stored memory-laws no_read no_write machine machine-IsCoherent

-- The read and the write of the example succeed.
write_succeeds :
    (blockdev_write_sync_impl memory (λ s. s) no_read no_write machine 0 10 (some two_blocks)).0
    ≡ pos 0
unfolding blockdev_write_sync_impl write_blocks write_one evict block_cache_get_slot find_invalid
    fill blockdev_should_cache block_cache_find cache_find_from
write_succeeds = refl

read-write_example :
    let (wrc, s) =
      blockdev_write_sync_impl memory (λ s. s) no_read no_write machine 0 10 (some two_blocks) in
    let (rrc, got, t) = blockdev_read_sync_impl memory (λ s. s) no_read no_write s 0 10 2 true in
    (is_negative wrc ≡ true) ⊎ ((is_negative rrc ≡ true) ⊎ (got ≡ two_blocks))
read-write_example =
    read-write stored memory-laws no_read no_write machine 0 10 two_blocks machine-IsCoherent
      disk0-cached
