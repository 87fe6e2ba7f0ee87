-- ===== src/BlockDev/Queue/Drain.antt =====
-- While no request comes back into its queue, the pump of kernel/blockdev.c gets to the end: with
-- anything left to do a call leaves less, and `blockdev_drain_async` leaves nothing.
use deanos.BlockDev.Queue.{
  Queue, drain, dispatch, pump_rounds, blockdev_pump, Completion, is_idle, no_request,
  no_completion, dispatch_one, pump_round, blockdev_drain_async, drain_fuel,
}
use deanos.Prelude.{
  List, length, ℕ, ◌≡◌, ◌≤◌, [], suc, refl, true, ◌<◌, ◌∷◌, inl, arith, zero, inr, sym, ◌∙◌, ap,
  ◌⊎◌, false,
}
use deanos.BlockDev.Queue.Settle.{
  settle, QueueFits, run_all, ready, todo, tell_all, dispatch_one-none, Executor,
}
use deanos.BlockDev.Queue.Progress.{
  Keeps, load, Keeps-trans, dispatch-Keeps, dispatch_one-Keeps_at, pump_rounds-Keeps,
  pump_round-Keeps_at, Keeps-refl,
}
use deanos.BlockDev.Ring.{queue_depth}
use deanos.BlockDev.Ring.Fifo.{length-contents}

module _ {S : Type 0} (execute : Executor S) where
  pub ready_few : (q : Queue S) → QueueFits execute q → length (ready execute q) ≤ queue_depth
  ready_few q h = omega (arith, length-contents no_completion q.completed, h.completed_fits.few)

  pub todo_few : (q : Queue S) → QueueFits execute q → length (todo execute q) ≤ queue_depth
  todo_few q h = omega (arith, length-contents no_request q.pending, h.pending_fits.few)

  dispatched-Keeps :
      (n : ℕ) (q : Queue S)
      → QueueFits execute q
      → Keeps execute q (dispatch (suc n) q)
        × (length (ready execute (dispatch (suc n) q)) < queue_depth)
  dispatched-Keeps n q h =
      let d = dispatch-Keeps execute (suc n) q h in (d.0, omega (arith, d.1, ready_few q h))

  pub pump_some-Keeps :
      (n : ℕ) (q : Queue S)
      → QueueFits execute q
      → Keeps execute q (pump_rounds execute.call (suc n) (dispatch (suc n) q))
  pump_some-Keeps n q h =
      let d = dispatched-Keeps n q h in
      let q' = dispatch (suc n) q in
      Keeps-trans execute q q' (pump_rounds execute.call (suc n) q') d.0
        (pump_rounds-Keeps execute (suc n) q' d.0.fits d.1)

  dispatch-none : (n : ℕ) (q : Queue S) → ready execute q ≡ [] → dispatch n q ≡ q
  unfolding dispatch
  dispatch-none zero q e = refl
  dispatch-none (suc n) q e = rw (dispatch_one-none execute q e) (dispatch-none n q e)

  -- With anything left to do, a call of the pump leaves less.
  pub pump_some-fewer_at :
      (n : ℕ) (cs : List Completion) (q : Queue S)
      → QueueFits execute q
      → ready execute q ≡ cs
      → 0 < load execute q
      → load execute (pump_rounds execute.call (suc n) (dispatch (suc n) q)) < load execute q
  unfolding dispatch pump_rounds
  pump_some-fewer_at n (c ∷ cs) q h e left =
      let one = dispatch_one-Keeps_at execute (c ∷ cs) q h e in
      let q' = dispatch (suc n) q in
      let rest = dispatch-Keeps execute n (dispatch_one q) one.0.fits in
      let d = dispatched-Keeps n q h in
      let all = pump_rounds-Keeps execute (suc n) q' d.0.fits d.1 in
      omega (arith, one.2 (omega arith), rest.0.load_le, all.load_le)
  pump_some-fewer_at n [] q h e left =
      let none_ready : length (ready execute q) ≡ 0 = ap length e in
      let one = pump_round-Keeps_at execute (todo execute q) q h refl (omega (arith, none_ready)) in
      let q' = pump_round execute.call q in
      let room : length (ready execute q') < queue_depth =
        omega (arith, one.0.ready_le, none_ready) in
      let rest = pump_rounds-Keeps execute n q' one.0.fits room in
      rw (dispatch-none (suc n) q e)
        (omega (arith, one.1 (omega (arith, none_ready)), rest.load_le))

  -- When nothing is left, the queue is where it was heading.
  settled_when_done :
      (q : Queue S)
      → todo execute q ≡ []
      → ready execute q ≡ []
      → settle execute q ≡ (q.told, q.inner)
  unfolding settle run_all tell_all
  settled_when_done q e e' = rw (e, e') refl

  length_zero : {A : Type 0} (xs : List A) → length xs ≡ 0 → xs ≡ []
  length_zero [] e = refl
  length_zero (x ∷ xs) e = absurd (omega (arith, e))

  -- What `blockdev_drain_async` leaves.
  pub record Drained (q q' : Queue S) : Type 0 where
    pub fits : QueueFits execute q'
    pub idle : is_idle execute.call q' ≡ true
    pub reached : (q'.told, q'.inner) ≡ settle execute q

  pub idle-reached :
      (q q' : Queue S) → Keeps execute q q' → is_idle execute.call q' ≡ true → Drained q q'
  idle-reached q q' k idle =
      let none_todo : todo execute q' ≡ [] =
        length_zero (todo execute q') (ground (arith, length-contents no_request q'.pending)) in
      let none_ready : ready execute q' ≡ [] =
        length_zero (ready execute q')
          (ground (arith, length-contents no_completion q'.completed)) in
      record {
        fits = k.fits;
        idle = idle;
        reached = sym (settled_when_done q' none_todo none_ready) ∙ k.settled;
      }

  pub idle_or_left :
      (q : Queue S)
      → QueueFits execute q
      → (is_idle execute.call q ≡ true) ⊎ ((is_idle execute.call q ≡ false) × (0 < load execute q))
  idle_or_left q h = ground (
    arith,
    length-contents no_request q.pending,
    length-contents no_completion q.completed,
    h.at_rest,
  )

  drain-Drained :
      (fuel : ℕ) (q0 q : Queue S)
      → Keeps execute q0 q
      → load execute q ≤ fuel
      → Drained q0 (drain execute.call fuel q)
  unfolding drain blockdev_pump
  drain-Drained zero q0 q k few = elim (idle_or_left q k.fits) [
    | inl idle ↦ idle-reached q0 q k idle
    | inr busy ↦ absurd (omega (arith, busy.1))
  ]
  drain-Drained (suc fuel) q0 q k few =
      let q' = blockdev_pump execute.call 8 q in
      elim (idle_or_left q k.fits) [
        | inl idle ↦ rw idle (idle-reached q0 q k idle)
        | inr busy ↦
            let fewer = pump_some-fewer_at 7 (ready execute q) q k.fits refl busy.1 in
            rw busy.0 (
              drain-Drained fuel q0 q' (Keeps-trans execute q0 q q' k (pump_some-Keeps 7 q k.fits))
                (omega (arith, fewer)))
      ]

  -- Draining a well-formed queue, of which no request comes back into it as those for partitions do, ends
  -- with nothing left in it: the completions that were waiting have been delivered in order, and then
  -- every pending request has been executed and reported, in the order of submission.
  pub blockdev_drain_async-Drained :
      (q : Queue S) → QueueFits execute q → Drained q (blockdev_drain_async execute.call q)
  unfolding blockdev_drain_async
  blockdev_drain_async-Drained q h =
      drain-Drained drain_fuel q q (Keeps-refl execute q h)
        (omega (arith, todo_few q h, ready_few q h))
