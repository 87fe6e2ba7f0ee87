-- ===== src/BlockDev/Queue/Service.antt =====
-- What the queue of kernel/blockdev.c promises while no request in it comes back into it: a caller that
-- waits gets the result of its own request.
use deanos.BlockDev.Queue.{
  Request, Queue, wait_callback, blockdev_update_async_pending_stat, blockdev_submit_and_wait,
  Completion, blockdev_pump, blockdev_submit_async, wait, call_back, Callback, is_idle, notify,
  no_request, drain_fuel, Told,
}
use deanos.Prelude.{
  pos, ℤ, List, [], false, Option, ◌≡◌, length, ℕ, ◌<◌, ◌++◌, true, ◌+◌, ◌∷◌, some, suc, arith, ap,
  is_negative, if◌then◌else◌, refl, inr, inl, subst, sym, ◌∙◌, zero,
}
use deanos.BlockDev.Ring.{pushed, queue_depth}
use deanos.BlockDev.{bump, Block}
use deanos.BlockDev.Queue.Settle.{
  settle, QueueFits, run_all, tell_all, todo, ready, completion_of, run_all-append, Executor,
  all_direct-snoc,
}
use deanos.BlockDev.Queue.Progress.{
  ends_wait, callbacks, no_wait, Keeps, Waits, load, ends_wait-snoc, Keeps-trans, Keeps-refl,
}
use deanos.BlockDev.Queue.Drain.{
  Drained, idle_or_left, idle-reached, pump_some-fewer_at, todo_few, pump_some-Keeps, ready_few,
}
use deanos.BlockDev.Ring.Fifo.{push_lem}

abbrev pub for_caller : Request → Request
for_caller req = record req { completion = wait_callback }

module _ {S : Type 0} where
  -- The queue as `blockdev_submit_and_wait` starts it, with the caller's `waiter` cleared.
  abbrev pub waiting : Queue S → Queue S
  waiting q = record q {
    told = record (q.told) { waiter_status = pos 0; waiter_blocks = []; waiter_done = false };
  }

  abbrev pub submitted : Request → Queue S → Queue S
  submitted req q =
      record (blockdev_update_async_pending_stat (record q { pending = pushed req q.pending })) {
        async_submitted = bump q.async_submitted;
      }

module _ {S : Type 0} (execute : Executor S) where
  callbacks-nil :
      (cs : List Completion) (reqs : List Request)
      → callbacks cs reqs ≡ []
      → (reqs ≡ []) × (cs ≡ [])
  callbacks-nil [] [] e = (refl, refl)
  callbacks-nil [] (req ∷ reqs) e = absurd (omega (arith, ap length e))
  callbacks-nil (c ∷ cs) reqs e = absurd (omega (arith, ap length e))

  -- The result of the wait: it ends, on a drained queue.
  pub record Returns (q : Queue S) (r : Option (ℤ × List Block × Queue S)) : Type 0 where
    pub last : Queue S
    pub returned : r ≡ some (last.told.waiter_status, last.told.waiter_blocks, last)
    pub drained : Drained execute q last

  wait-told :
      (fuel : ℕ) (q : Queue S)
      → q.told.waiter_done ≡ true
      → wait execute.call (suc fuel) q ≡ some (q.told.waiter_status, q.told.waiter_blocks, q)
  unfolding wait
  wait-told fuel q e =
      ap
        (λ b.
          if b
          then some (q.told.waiter_status, q.told.waiter_blocks, q)
          else wait execute.call fuel (blockdev_pump execute.call 1 q))
        e

  wait-untold :
      (fuel : ℕ) (q : Queue S)
      → q.told.waiter_done ≡ false
      → wait execute.call (suc fuel) q ≡ wait execute.call fuel (blockdev_pump execute.call 1 q)
  unfolding wait
  wait-untold fuel q e =
      ap
        (λ b.
          if b
          then some (q.told.waiter_status, q.told.waiter_blocks, q)
          else wait execute.call fuel (blockdev_pump execute.call 1 q))
        e

  length-callbacks :
      (cs : List Completion) (reqs : List Request)
      → length (callbacks cs reqs) ≡ length cs + length reqs
  length-callbacks [] [] = refl
  length-callbacks [] (req ∷ reqs) = omega (arith, length-callbacks [] reqs)
  length-callbacks (c ∷ cs) reqs = omega (arith, length-callbacks cs reqs)

  ends_wait-some : (ks : List Callback) → ends_wait ks ≡ true → 0 < length ks
  unfolding ends_wait
  ends_wait-some [] e = ground arith
  ends_wait-some (k ∷ ks) e = omega arith

  wait-Returns :
      (fuel : ℕ) (q0 q : Queue S)
      → Keeps execute q0 q
      → Waits execute q
      → load execute q < fuel
      → Returns q0 (wait execute.call fuel q)
  unfolding blockdev_pump
  wait-Returns zero q0 q k w few = absurd (omega arith)
  wait-Returns (suc fuel) q0 q k w few = elim w [
    | inr told ↦
        let nothing = callbacks-nil (ready execute q) (todo execute q) told.0 in
        let no_load : load execute q ≡ 0 =
          omega (arith, ap length nothing.0, ap length nothing.1) in
        let idle : is_idle execute.call q ≡ true = elim (idle_or_left execute q k.fits) [
          | inl idle ↦ idle
          | inr busy ↦ absurd (omega (arith, busy.1))
        ] in
        record {
          last = q;
          returned = wait-told fuel q told.1;
          drained = idle-reached execute q0 q k idle;
        }
    | inl still ↦
        let q' = blockdev_pump execute.call 1 q in
        let left : 0 < load execute q = omega (
          arith,
          ends_wait-some (callbacks (ready execute q) (todo execute q)) still.0,
          length-callbacks (ready execute q) (todo execute q),
        ) in
        let fewer = pump_some-fewer_at execute 0 (ready execute q) q k.fits refl left in
        let one = pump_some-Keeps execute 0 q k.fits in
        let rest =
          wait-Returns fuel q0 q' (Keeps-trans execute q0 q q' k one) (one.still_waits (inl still))
            (omega (arith, fewer)) in
        subst (Returns q0) (sym (wait-untold fuel q still.1)) rest
  ]

  callbacks-todo_snoc :
      (cs : List Completion) (reqs : List Request) (req : Request)
      → callbacks cs (reqs ++ (req ∷ [])) ≡ callbacks cs reqs ++ (req.completion ∷ [])
  callbacks-todo_snoc [] [] req = refl
  callbacks-todo_snoc [] (r ∷ reqs) req =
      ap (λ ks. r.completion ∷ ks) (callbacks-todo_snoc [] reqs req)
  callbacks-todo_snoc (c ∷ cs) reqs req =
      ap (λ ks. c.req.completion ∷ ks) (callbacks-todo_snoc cs reqs req)

  submitted-settle :
      (req : Request) (q : Queue S)
      → todo execute (submitted req q) ≡ todo execute q ++ (req ∷ [])
      → settle execute (submitted req q) ≡ (
        notify (completion_of execute req (settle execute q).1) (settle execute q).0,
        (execute.run (settle execute q).1 req).2,
      )
  unfolding settle run_all tell_all
  submitted-settle req q e =
      rw
        (
          e,
          run_all-append execute (todo execute q) (req ∷ []) (tell_all (ready execute q) q.told)
              q.inner,
        )
        refl

  -- What a caller gets for `req` from the queue `q`: `early` is where the requests before it lead.
  pub record Serves (req : Request) (q : Queue S) (r : Option (ℤ × List Block × Queue S))
      : Type 0 where
    pub last : Queue S
    pub returned :
        let early = settle execute (waiting q) in
        r
        ≡ some (
          (execute.run early.1 (for_caller req)).0,
          (execute.run early.1 (for_caller req)).1,
          last,
        )
    pub inner : last.inner ≡ (execute.run (settle execute (waiting q)).1 (for_caller req)).2
    pub delivered : last.told.delivered ≡ (settle execute (waiting q)).0.delivered
    pub fits : QueueFits execute last
    pub idle : is_idle execute.call last ≡ true

  submit_async-accepts :
      (validate : S → Request → ℤ) (req : Request) (q : Queue S)
      → QueueFits execute q
      → q.pending.count < queue_depth
      → is_negative (validate q.inner req) ≡ false
      → blockdev_submit_async execute.call validate req q ≡ (pos 0, submitted req q)
  unfolding blockdev_submit_async
  submit_async-accepts validate req q h room ok =
      rw (ok, (push_lem no_request req q.pending h.pending_fits room).0) refl

  -- On a well-formed queue with room, in which no other caller waits, and when neither the requests in it
  -- nor the new one come back into the queue, as those for partitions do, a request that is valid is
  -- served: `blockdev_submit_and_wait` returns, every request submitted before has been executed and reported
  -- in order then, and the result is that of executing the caller's request after those. Nothing is left
  -- in the queue.
  pub blockdev_submit_and_wait-Serves :
      (validate : S → Request → ℤ) (req : Request) (q : Queue S)
      → QueueFits execute q
      → no_wait (callbacks (ready execute q) (todo execute q)) ≡ true
      → q.pending.count < queue_depth
      → is_negative (validate q.inner (for_caller req)) ≡ false
      → execute.direct q.inner (for_caller req) ≡ true
      → Serves req q (blockdev_submit_and_wait execute.call validate req q)
  unfolding blockdev_submit_and_wait call_back
  blockdev_submit_and_wait-Serves validate req q h quiet room ok d =
      let w = waiting q in
      let req' = for_caller req in
      let hw : QueueFits execute w = record {
        pending_fits = h.pending_fits;
        completed_fits = h.completed_fits;
        at_rest = h.at_rest;
        none_returns = h.none_returns;
      } in
      let pushing = push_lem no_request req' q.pending h.pending_fits room in
      let q' = submitted req' w in
      let h' : QueueFits execute q' = record {
        pending_fits = pushing.2;
        completed_fits = h.completed_fits;
        at_rest = h.at_rest;
        none_returns =
            rw pushing.1 (all_direct-snoc execute q.inner (todo execute q) req' h.none_returns d);
      } in
      let last_one : Waits execute q' = inl (
        rw (pushing.1, callbacks-todo_snoc (ready execute q) (todo execute q) req')
            (ends_wait-snoc (callbacks (ready execute q) (todo execute q)) quiet),
        refl,
      ) in
      let few : load execute q' < drain_fuel + 1 =
        omega (arith, todo_few execute q' h', ready_few execute q' h') in
      let done = wait-Returns (drain_fuel + 1) q' q' (Keeps-refl execute q' h') last_one few in
      let there = done.drained.reached ∙ submitted-settle req' w pushing.1 in
      rw (submit_async-accepts validate req' w hw room ok) (record {
        last = done.last;
        returned =
            done.returned
            ∙ ap (λ (r : Told × S). some (r.0.waiter_status, r.0.waiter_blocks, done.last)) there;
        inner = ap (λ r. r.1) there;
        delivered = ap (λ r. r.0.delivered) there;
        fits = done.drained.fits;
        idle = done.drained.idle;
      })
