-- ===== src/BlockDev/Queue.antt =====
-- The asynchronous queue of kernel/blockdev.c: requests wait in one ring, their completions in another,
-- and `blockdev_pump` moves both on. `blockdev_submit_and_wait` pumps until its own request is done.
--
-- A request carries what is in its buffer; what a read puts there comes with the completion. Calls of
-- completion callbacks are kept in the order in which they are made. Executing a request can come back
-- into the queue, which the driver of a partition does when it reads or writes the parent. `waiter` is
-- that of the call of `blockdev_submit_and_wait` that is looked at; calls inside of a driver have theirs.
pub mod Settle
mod Progress
pub mod Drain
pub mod Service
mod Examples
use deanos.Prelude.{
  List, none, ℕ, ◌+◌, pos, ℤ, true, suc, if◌then◌else◌, Option, Bool, some, ◌++◌, [], false, ◌*◌,
  zero, ◌==◌, ◌∷◌, neg, ◌&&◌, is_negative, not,
}
use deanos.BlockDev.Ring.{pop, Ring, push, queue_depth}
use deanos.BlockDev.{Block, bump}

-- `completion` and its `user_data`: NULL, `blockdev_wait_callback`, or one of the caller's.
pub data Callback : Type 0 where
  no_callback : Callback
  wait_callback : Callback
  callback : ℕ → Callback

-- blockdev_request_t
pub record Request : Type 0 where
  pub op : ℕ
  pub dev_index : ℕ
  pub lba : ℕ
  pub count : ℕ
  pub buffer : Option (List Block)
  pub completion : Callback

-- blockdev_completion_entry_t
pub record Completion : Type 0 where
  pub req : Request
  pub status : ℤ
  pub blocks : List Block

abbrev pub no_request : Request
no_request = record {
  op = 0;
  dev_index = 0;
  lba = 0;
  count = 0;
  buffer = none;
  completion = no_callback;
}

abbrev pub no_completion : Completion
no_completion = record { req = no_request; status = pos 0; blocks = [] }

-- What the callbacks were told: the calls of the callers' own, and `waiter` with what was read for it.
pub record Told : Type 0 where
  pub delivered : List Completion
  pub waiter_status : ℤ
  pub waiter_blocks : List Block
  pub waiter_done : Bool

unfoldable pub call_back : Callback → Completion → Told → Told
call_back no_callback c t = t
call_back wait_callback c t = record t {
  waiter_status = c.status;
  waiter_blocks = c.blocks;
  waiter_done = true;
}
call_back (callback k) c t = record t { delivered = t.delivered ++ (c ∷ []) }

abbrev pub notify : Completion → Told → Told
notify c t = call_back c.req.completion c t

pub record Queue (S : Type 0) : Type 0 where
  pub pending : Ring Request
  pub completed : Ring Completion
  pub inflight : Bool
  pub async_submitted : ℕ
  pub async_completed : ℕ
  pub async_failed : ℕ
  pub async_pending : ℕ
  pub told : Told
  pub inner : S

-- Each request is moved on twice: see Queue/Service.
abbrev pub drain_fuel : ℕ
drain_fuel = 3 * queue_depth

module _ {S : Type 0} where
  abbrev pub blockdev_update_async_pending_stat : Queue S → Queue S
  blockdev_update_async_pending_stat q = record q {
    async_pending = q.pending.count + q.completed.count + (if q.inflight then 1 else 0);
  }

  -- One round of `blockdev_dispatch_completions`. With none left a round does nothing, as `break`.
  unfoldable pub dispatch_one : Queue S → Queue S
  dispatch_one q = elim (pop no_completion q.completed) [
    | none ↦ q
    | some (c, ring) ↦
        let q' = blockdev_update_async_pending_stat (record q { completed = ring }) in
        record q' { told = notify c q'.told }
  ]

  unfoldable pub dispatch : ℕ → Queue S → Queue S
  dispatch zero q = q
  dispatch (suc n) q = dispatch n (dispatch_one q)

  -- What a round of `blockdev_pump` does with the outcome of `blockdev_execute_request`.
  unfoldable pub finish : Request → ℤ × List Block × Queue S → Queue S
  finish req (status, blocks, q) =
      let c : Completion = record { req = req; status = status; blocks = blocks } in
      let q' = record (blockdev_update_async_pending_stat (record q { inflight = false })) {
        async_failed = if is_negative status then bump q.async_failed else q.async_failed;
        async_completed = bump q.async_completed;
      } in
      elim (push c q'.completed) [
        | none ↦ record q' { told = notify c q'.told }
        | some ring ↦ blockdev_update_async_pending_stat (record q' { completed = ring })
      ]

  -- `execute` is `blockdev_execute_request`.
  module _ (execute : Queue S → Request → ℤ × List Block × Queue S) where
    -- The part of a round of `blockdev_pump` from the call of `blockdev_execute_request` on.
    unfoldable pub complete : Request → Queue S → Queue S
    unfolding finish
    complete req q =
        finish req (execute (blockdev_update_async_pending_stat (record q { inflight = true })) req)

    -- One round of `blockdev_pump`. With nothing pending a round does nothing, as `break`.
    unfoldable pub pump_round : Queue S → Queue S
    unfolding complete dispatch_one
    pump_round q = elim (pop no_request q.pending) [
      | none ↦ q
      | some (req, ring) ↦
          dispatch_one
            (complete req (blockdev_update_async_pending_stat (record q { pending = ring })))
    ]

    unfoldable pub pump_rounds : ℕ → Queue S → Queue S
    pump_rounds zero q = q
    pump_rounds (suc n) q = pump_rounds n (pump_round q)

    unfoldable pub blockdev_pump : ℕ → Queue S → Queue S
    blockdev_pump budget q =
        let n = if budget == 0 then 1 else budget in pump_rounds n (dispatch n q)

    abbrev pub is_idle : Queue S → Bool
    is_idle q = q.pending.count == 0 && (q.completed.count == 0 && not q.inflight)

    -- The loop of `blockdev_drain_async`; each round but the last moves a request on.
    unfoldable pub drain : ℕ → Queue S → Queue S
    drain zero q = q
    drain (suc fuel) q = let rest = drain fuel (blockdev_pump 8 q) in if is_idle q then q else rest

    unfoldable pub blockdev_drain_async : Queue S → Queue S
    unfolding drain
    blockdev_drain_async q = drain drain_fuel q

    -- The loop of `blockdev_submit_and_wait`: `waiter[0]`, with what was read, and the queue then.
    -- `none` means that the fuel ran out.
    unfoldable pub wait : ℕ → Queue S → Option (ℤ × List Block × Queue S)
    wait zero q = none
    wait (suc fuel) q =
        let rest = wait fuel (blockdev_pump 1 q) in
        if q.told.waiter_done then some (q.told.waiter_status, q.told.waiter_blocks, q) else rest

    -- `validate` is `blockdev_validate_request`.
    module _ (validate : S → Request → ℤ) where
      unfoldable pub blockdev_submit_async : Request → Queue S → ℤ × Queue S
      blockdev_submit_async req q =
          let vrc = validate q.inner req in
          let pushed_q : ℤ × Queue S = elim (push req q.pending) [
            | none ↦ (neg 9, q)
            | some ring ↦ (
              pos 0,
              record (blockdev_update_async_pending_stat (record q { pending = ring })) {
                async_submitted = bump q.async_submitted;
              },
            )
          ] in
          if is_negative vrc then (vrc, q) else pushed_q

      unfoldable pub blockdev_submit_and_wait :
          Request → Queue S → Option (ℤ × List Block × Queue S)
      unfolding blockdev_submit_async wait
      blockdev_submit_and_wait req q =
          let waiting = record q {
            told = record (q.told) {
              waiter_status = pos 0;
              waiter_blocks = [];
              waiter_done = false;
            };
          } in
          let (src, q') =
            blockdev_submit_async (record req { completion = wait_callback }) waiting in
          let done = wait (drain_fuel + 1) q' in
          if is_negative src then some (src, [], q') else done
