-- ===== src/BlockDev/Queue/Examples.antt =====
-- The theorems about the queue of kernel/blockdev.c at a machine with one disk.
use deanos.Prelude.{
  ℕ, arith, ℤ, some, [], pos, refl, false, ◌≡◌, true, List, is_negative, none, neg,
}
use deanos.BlockDev.Queue.Progress.{no_wait, callbacks}
use deanos.BlockDev.Queue.Settle.{QueueFits, ready, todo, Executor}
use deanos.BlockDev.Queue.Drain.{Drained, blockdev_drain_async-Drained}
use deanos.BlockDev.Queue.{
  Queue, no_callback, Callback, blockdev_drain_async, Request, blockdev_submit_and_wait, callback,
  no_request, no_completion,
}
use deanos.BlockDev.Queue.Service.{Serves, blockdev_submit_and_wait-Serves, for_caller}
use deanos.BlockDev.Ring.Fifo.{contents, entries_at}
use deanos.BlockDev.Ring.{pushed, empty}
use deanos.BlockDev.{blockdev_should_cache, BlockDev, Block}
use deanos.BlockDev.Requests.{blockdev_validate_request}
use deanos.BlockDev.Examples.{Disks, machine, memory}
use deanos.BlockDev.Executing.{disk_requests}

-- No device here is left uncached.
abbrev nested_read :
    Queue (BlockDev Disks) → (dev lba count : ℕ) → ℤ × List Block × Queue (BlockDev Disks)
nested_read q dev lba count = (neg 1, [], q)

abbrev nested_write :
    Queue (BlockDev Disks) → (dev lba : ℕ) → List Block → ℤ × Queue (BlockDev Disks)
nested_write q dev lba blocks = (neg 1, q)

abbrev execute : Executor (BlockDev Disks)
execute = disk_requests memory (λ dev. none) nested_read nested_write

abbrev request : (lba : ℕ) → Callback → Request
request lba k = record {
  op = 1;
  dev_index = 0;
  lba = lba;
  count = 1;
  buffer = some [];
  completion = k;
}

-- A queue with two requests in it.
abbrev two_pending : Queue (BlockDev Disks)
two_pending = record {
  pending = pushed (request 5 (callback 2)) (pushed (request 4 (callback 1)) (empty no_request));
  completed = empty no_completion;
  inflight = false;
  async_submitted = 2;
  async_completed = 0;
  async_failed = 0;
  async_pending = 2;
  told = record { delivered = []; waiter_status = pos 0; waiter_blocks = []; waiter_done = false };
  inner = machine;
}

two_pending-QueueFits : QueueFits execute two_pending
unfolding contents entries_at blockdev_should_cache
two_pending-QueueFits = record {
  pending_fits = record {
    full_size = refl;
    head_in = omega arith;
    few = omega arith;
    tail_at = refl;
  };
  completed_fits = record {
    full_size = refl;
    head_in = omega arith;
    few = omega arith;
    tail_at = refl;
  };
  at_rest = refl;
  none_returns = refl;
}

blockdev_drain_async-Drained_example :
    Drained execute two_pending (blockdev_drain_async execute.call two_pending)
blockdev_drain_async-Drained_example =
    blockdev_drain_async-Drained execute two_pending two_pending-QueueFits

two_pending-quiet :
    no_wait (callbacks (ready execute two_pending) (todo execute two_pending)) ≡ true
unfolding no_wait contents entries_at
two_pending-quiet = refl

request-ok :
    is_negative (blockdev_validate_request machine (for_caller (request 6 no_callback))) ≡ false
unfolding blockdev_validate_request
request-ok = refl

request-direct : execute.direct machine (for_caller (request 6 no_callback)) ≡ true
unfolding blockdev_should_cache
request-direct = refl

blockdev_submit_and_wait-Serves_example : Serves execute (request 6 no_callback) two_pending (
    blockdev_submit_and_wait execute.call blockdev_validate_request
      (request 6 no_callback)
      two_pending)
blockdev_submit_and_wait-Serves_example =
    blockdev_submit_and_wait-Serves execute blockdev_validate_request (request 6 no_callback)
      two_pending two_pending-QueueFits two_pending-quiet (omega arith) request-ok request-direct
