-- ===== src/BlockDev/Requests.antt =====
-- The requests of kernel/blockdev.c on the device table and the cache: what is checked before a request
-- is queued, what executing it does, and the calls `blockdev_read`, `blockdev_write`, `blockdev_flush`
-- and `blockdev_flush_all` that wait for theirs.
use deanos.Prelude.{
  ℕ, Option, ℤ, List, Bool, if◌then◌else◌, some, leb, false, take, none, length, true, ◌==◌, neg,
  [], pos, ◌||◌, not, ltb, ◌-◌,
}
use deanos.BlockDev.{BlockDev, Driver, Block, device}
use deanos.BlockDev.Queue.{
  Request, Queue, blockdev_drain_async, no_callback, no_request, blockdev_submit_and_wait,
}
use deanos.BlockDev.Sync.{
  blockdev_write_sync_impl, blockdev_flush_sync_impl, flush_all_slots, blockdev_read_sync_impl,
}

abbrev pub req_read : ℕ
req_read = 1

abbrev pub req_write : ℕ
req_write = 2

abbrev pub req_flush : ℕ
req_flush = 3

abbrev pub has_buffer : Option (List Block) → Bool
has_buffer none = false
has_buffer (some blocks) = true

abbrev pub first_blocks : ℕ → Option (List Block) → Option (List Block)
first_blocks n none = none
first_blocks n (some blocks) = some (take n blocks)

module _ {World : Type 0} where
  unfoldable pub blockdev_validate_request : BlockDev World → Request → ℤ
  blockdev_validate_request s req =
      let d = device s req.dev_index in
      if leb (length s.devs) req.dev_index
      then neg 2
      else if req.op == req_flush
      then pos 0
      else if req.count == 0 || not (has_buffer req.buffer)
      then neg 3
      else if leb d.block_count req.lba
      then neg 4
      else if ltb (d.block_count - req.lba) req.count
      then neg 5
      else if req.op == req_read
      then (if not d.has_read then neg 6 else pos 0)
      else if req.op == req_write
      then (if not d.has_write then neg 6 else if d.readonly then neg 7 else pos 0)
      else neg 8

  -- `parent_of` is `mbr_partition_parent_index`. The nested calls are the driver calls of devices that
  -- are not cached, which can submit requests and pump the queue. A write takes the first `count`
  -- blocks of the buffer.
  module _ (drv : Driver World)
      (nested_read : Queue (BlockDev World)
        → (dev lba count : ℕ) → ℤ × List Block × Queue (BlockDev World))
      (nested_write : Queue (BlockDev World)
        → (dev lba : ℕ) → List Block
        → ℤ × Queue (BlockDev World))
      (parent_of : ℕ → Option ℕ) where
    unfoldable pub blockdev_execute_request :
        Queue (BlockDev World) → Request → ℤ × List Block × Queue (BlockDev World)
    blockdev_execute_request q req =
        let keep = λ (s : BlockDev World). record q { inner = s } in
        let read = λ (s : BlockDev World). nested_read (keep s) in
        let write = λ (s : BlockDev World). nested_write (keep s) in
        let (wrc, wq) =
          blockdev_write_sync_impl drv keep read write q.inner req.dev_index req.lba
            (first_blocks req.count req.buffer) in
        let (frc, fs) =
          blockdev_flush_sync_impl drv q.inner req.dev_index (parent_of req.dev_index) in
        if req.op == req_read
        then blockdev_read_sync_impl drv keep read write q.inner req.dev_index req.lba req.count
            (has_buffer req.buffer)
        else if req.op == req_write
        then (wrc, [], wq)
        else if req.op == req_flush
        then (frc, [], keep fs)
        else (neg 1, [], q)

    abbrev submit_and_wait :
        Request → Queue (BlockDev World) → Option (ℤ × List Block × Queue (BlockDev World))
    submit_and_wait req q =
        blockdev_submit_and_wait blockdev_execute_request blockdev_validate_request req q

    -- `room` is the caller's buffer, `none` for NULL.
    unfoldable pub blockdev_read :
        (index lba count : ℕ)
        → Option (List Block)
        → Queue (BlockDev World)
        → Option (ℤ × List Block × Queue (BlockDev World))
    blockdev_read index lba count room q =
        submit_and_wait
          (record {
            op = req_read;
            dev_index = index;
            lba = lba;
            count = count;
            buffer = room;
            completion = no_callback;
          })
          q

    unfoldable pub blockdev_write :
        (index lba count : ℕ)
        → Option (List Block)
        → Queue (BlockDev World)
        → Option (ℤ × List Block × Queue (BlockDev World))
    blockdev_write index lba count blocks q =
        submit_and_wait
          (record {
            op = req_write;
            dev_index = index;
            lba = lba;
            count = count;
            buffer = blocks;
            completion = no_callback;
          })
          q

    unfoldable pub blockdev_flush :
        ℕ → Queue (BlockDev World) → Option (ℤ × List Block × Queue (BlockDev World))
    blockdev_flush index q =
        submit_and_wait (record no_request { op = req_flush; dev_index = index }) q

    unfoldable pub blockdev_flush_all : Queue (BlockDev World) → ℤ × Queue (BlockDev World)
    blockdev_flush_all q =
        let q' = blockdev_drain_async blockdev_execute_request q in
        let (rc, s) = flush_all_slots drv q'.inner in (rc, record q' { inner = s })
