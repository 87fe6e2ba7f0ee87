-- ===== src/BlockDev.antt =====
-- kernel/blockdev.c: block devices behind a write-back cache of 128 blocks with clock eviction.
--
-- A block is the list of its bytes; the code only copies whole blocks. The disks behind the drivers
-- are a type `World` with the two driver calls on one block that the cache makes. The driver of a
-- device that is not cached is a function on the whole state, since the driver of a partition comes
-- back into this module.
pub mod Sync
pub mod Cache
pub mod Ring
pub mod Queue
pub mod Requests
pub mod Devices
pub mod Executing
mod Examples
use deanos.Prelude.{
  Option, false, ℕ, Bool, List, [], if◌then◌else◌, get_or, none, ◌&&◌, ℤ, ◌+◌, some, ◌%◌, ◌==◌, suc,
  is_negative, not, ◌∷◌, ◌||◌, ◌^◌, set, pos, zero, true, leb, length, neg,
}

abbrev pub Block : Type 0
Block = List ℕ

-- The driver calls `d->read(ctx, lba, 1, buf)` and `d->write(ctx, lba, 1, buf)` for device `dev`: the
-- result code, for a read also what is in `buf` then, and the disks after the call.
pub record Driver (World : Type 0) : Type 0 where
  pub read_block : World → (dev lba : ℕ) → Block → ℤ × Block × World
  pub write_block : World → (dev lba : ℕ) → Block → ℤ × World

-- block_device_t; a function pointer is whether it is set.
pub record Device : Type 0 where
  pub name : List ℕ
  pub block_size : ℕ
  pub block_count : ℕ
  pub readonly : Bool
  pub atapi : Bool
  pub partition : Bool
  pub has_read : Bool
  pub has_write : Bool

-- block_cache_entry_t
pub record Entry : Type 0 where
  pub valid : Bool
  pub dirty : Bool
  pub ref : Bool
  pub dev_index : ℕ
  pub lba : ℕ
  pub bytes : Block

pub record Stats : Type 0 where
  pub hits : ℕ
  pub misses : ℕ
  pub evictions : ℕ
  pub writebacks : ℕ

pub record BlockDev (World : Type 0) : Type 0 where
  pub devs : List Device
  pub cache : List Entry
  pub hand : ℕ
  pub stats : Stats
  pub world : World

abbrev pub cache_entries : ℕ
cache_entries = 128

abbrev pub blockdev_max : ℕ
blockdev_max = 16

-- Memory that `memset` cleared.
abbrev pub no_entry : Entry
no_entry = record { valid = false; dirty = false; ref = false; dev_index = 0; lba = 0; bytes = [] }

abbrev pub no_device : Device
no_device = record {
  name = [];
  block_size = 0;
  block_count = 0;
  readonly = false;
  atapi = false;
  partition = false;
  has_read = false;
  has_write = false;
}

abbrev pub bump : ℕ → ℕ
bump n = (n + 1) % 2 ^ 32

abbrev pub device : {World : Type 0} → BlockDev World → ℕ → Device
device s i = get_or s.devs i no_device

abbrev pub entry : List Entry → ℕ → Entry
entry cache i = get_or cache i no_entry

unfoldable pub blockdev_should_cache : Device → Bool
blockdev_should_cache d =
    if not d.has_read then false else if d.partition then false else d.block_size == 512

-- The test of `block_cache_find` on one entry.
abbrev pub matches : Entry → (dev lba : ℕ) → Bool
matches e dev lba = e.valid && e.dev_index == dev && e.lba == lba

-- `none` is the source's -1; the search starts at slot `i`.
unfoldable pub cache_find_from : List Entry → ℕ → (dev lba : ℕ) → Option ℕ
cache_find_from [] i dev lba = none
cache_find_from (e ∷ es) i dev lba =
    let rest = cache_find_from es (i + 1) dev lba in if matches e dev lba then some i else rest

unfoldable pub block_cache_find : List Entry → (dev lba : ℕ) → Option ℕ
unfolding cache_find_from
block_cache_find cache dev lba = cache_find_from cache 0 dev lba

-- The first slot that is not valid, from slot `i` on.
unfoldable pub find_invalid : List Entry → ℕ → Option ℕ
find_invalid [] i = none
find_invalid (e ∷ es) i = let rest = find_invalid es (i + 1) in if not e.valid then some i else rest

-- The clock: entries that were used since the last round get a second chance. `none` means that the
-- fuel ran out.
unfoldable pub clock : ℕ → List Entry → ℕ → Option (ℕ × List Entry × ℕ)
clock zero cache hand = none
clock (suc fuel) cache hand =
    let e = entry cache hand in
    let next = (hand + 1) % cache_entries in
    let rest = clock fuel (set cache hand (record e { ref = false })) next in
    if not e.ref then some (hand, cache, next) else rest

-- Two rounds of the clock are enough: see Cache/Clock.
abbrev pub clock_fuel : ℕ
clock_fuel = 256

module _ {World : Type 0} where
  -- The slot, and the state after it was chosen. The `none` never happens.
  unfoldable pub block_cache_get_slot : BlockDev World → Option (ℕ × BlockDev World)
  unfolding find_invalid clock
  block_cache_get_slot s = elim (find_invalid s.cache 0) [
    | some i ↦ some (i, s)
    | none ↦ elim (clock clock_fuel s.cache s.hand) [
      | none ↦ none
      | some (victim, cache, hand) ↦ some (
        victim,
        record s {
          cache = cache;
          hand = hand;
          stats = record (s.stats) { evictions = bump s.stats.evictions };
        },
      )
    ]
  ]

  module _ (drv : Driver World) where
    -- The end of `block_cache_writeback_entry`: the driver's call and what follows it.
    unfoldable pub write_through : BlockDev World → ℕ → ℤ × BlockDev World
    write_through s slot =
        let e = entry s.cache slot in
        let (rc, w) = drv.write_block s.world e.dev_index e.lba e.bytes in
        if is_negative rc then (rc, record s { world = w }) else (
          pos 0,
          record s {
            world = w;
            cache = set s.cache slot (record e { dirty = false });
            stats = record (s.stats) { writebacks = bump s.stats.writebacks };
          },
        )

    unfoldable pub block_cache_writeback_entry : BlockDev World → ℕ → ℤ × BlockDev World
    block_cache_writeback_entry s slot =
        let e = entry s.cache slot in
        let d = device s e.dev_index in
        if not e.valid || not e.dirty
        then (pos 0, s)
        else if leb (length s.devs) e.dev_index
        then (neg 1, s)
        else if not d.has_write
        then (neg 1, s)
        else if d.readonly
        then (neg 1, s)
        else write_through s slot

    -- A failed read leaves the entry as it was but for the bytes that the driver put there.
    unfoldable pub block_cache_load : BlockDev World → (slot dev lba : ℕ) → ℤ × BlockDev World
    block_cache_load s slot dev lba =
        let e = entry s.cache slot in
        let (rc, bytes, w) = drv.read_block s.world dev lba e.bytes in
        if is_negative rc
        then (rc, record s { world = w; cache = set s.cache slot (record e { bytes = bytes }) })
        else (
          pos 0,
          record s {
            world = w;
            cache = set s.cache slot (record {
              valid = true;
              dirty = false;
              ref = true;
              dev_index = dev;
              lba = lba;
              bytes = bytes;
            });
          },
        )
