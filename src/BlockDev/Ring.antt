-- ===== src/BlockDev/Ring.antt =====
-- The two ring buffers of kernel/blockdev.c, g_pending and g_completed, which have the same code:
-- 64 slots, the index of the oldest entry, the index of the next free slot, and the count.
pub mod Fifo
use deanos.Prelude.{
  ℕ, List, Option, replicate, if◌then◌else◌, ◌==◌, leb, none, some, get_or, set, ◌+◌, ◌%◌, ◌-◌, suc,
}

pub record Ring {ℓ} (A : Type ℓ) : Type ℓ where
  pub slots : List A
  pub head : ℕ
  pub tail : ℕ
  pub count : ℕ

abbrev pub queue_depth : ℕ
queue_depth = 64

module _ {ℓ} {A : Type ℓ} where
  -- The ring after a push that found room.
  abbrev pub pushed : A → Ring A → Ring A
  pushed x r = record r {
    slots = set r.slots r.tail x;
    tail = (r.tail + 1) % queue_depth;
    count = suc r.count;
  }

  -- `none` is the source's -1, for a full ring.
  unfoldable pub push : A → Ring A → Option (Ring A)
  push x r = if leb queue_depth r.count then none else some (pushed x r)

  -- The ring after a pop that found an entry.
  abbrev pub popped : Ring A → Ring A
  popped r = record r { head = (r.head + 1) % queue_depth; count = r.count - 1 }

  -- `none` is the source's -1, for an empty ring; `cleared` is an entry of cleared memory.
  unfoldable pub pop : A → Ring A → Option (A × Ring A)
  pop cleared r = if r.count == 0 then none else some (get_or r.slots r.head cleared, popped r)

  abbrev pub empty : A → Ring A
  empty cleared = record { slots = replicate queue_depth cleared; head = 0; tail = 0; count = 0 }
