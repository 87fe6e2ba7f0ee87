-- ===== src/BlockDev/Queue/Progress.antt =====
-- While no request comes back into the queue of kernel/blockdev.c, its pump keeps where that is heading,
-- keeps the waiting caller's request the last one until it is told, and has less left to do after each
-- call.
use deanos.Prelude.{
  List, Bool, ◌∷◌, false, ◌≡◌, ◌++◌, true, [], ap, ◌⊎◌, refl, inl, inr, arith, ◌∙◌, length, ℕ, ◌*◌,
  ◌≤◌, ◌<◌, ◌+◌, suc, subst, ◌-◌, zero, length-append,
}
use deanos.BlockDev.Queue.{
  call_back, Completion, Callback, Told, Request, callback, no_callback, wait_callback, Queue,
  dispatch, dispatch_one, pump_rounds, pump_round, complete, no_completion,
}
use deanos.BlockDev.Queue.Settle.{
  settle, QueueFits, ready, tell_all, Delivers, todo, run_all, Executes, completion_of,
  dispatch_one-none, tell_all-append, pump_round-none, dispatch_one-Delivers, taken,
  complete-Executes, pump_round-some, Executor,
}
use deanos.BlockDev.Ring.{queue_depth}
use deanos.BlockDev.Ring.Fifo.{length-contents}

-- The callbacks still to be called, in order.
abbrev pub callbacks : List Completion → List Request → List Callback
callbacks [] [] = []
callbacks [] (req ∷ reqs) = req.completion ∷ callbacks [] reqs
callbacks (c ∷ cs) reqs = c.req.completion ∷ callbacks cs reqs

-- The waiting caller's callback comes last, and only there.
unfoldable pub ends_wait : List Callback → Bool
ends_wait [] = false
ends_wait (wait_callback ∷ []) = true
ends_wait (wait_callback ∷ k ∷ ks) = false
ends_wait (no_callback ∷ ks) = ends_wait ks
ends_wait (callback i ∷ ks) = ends_wait ks

-- No caller waits for a request in the queue.
unfoldable pub no_wait : List Callback → Bool
no_wait [] = true
no_wait (wait_callback ∷ ks) = false
no_wait (no_callback ∷ ks) = no_wait ks
no_wait (callback i ∷ ks) = no_wait ks

pub ends_wait-snoc :
    (ks : List Callback) → no_wait ks ≡ true → ends_wait (ks ++ (wait_callback ∷ [])) ≡ true
unfolding no_wait ends_wait
ends_wait-snoc [] e = refl
ends_wait-snoc (wait_callback ∷ ks) e = ground arith
ends_wait-snoc (no_callback ∷ ks) e = ends_wait-snoc ks e
ends_wait-snoc (callback i ∷ ks) e = ends_wait-snoc ks e

-- The caller is still to be told, last of all, or has been told and nothing is left.
abbrev pub Waiting : List Callback → Bool → Type 0
Waiting ks done = ((ends_wait ks ≡ true) × (done ≡ false)) ⊎ ((ks ≡ []) × (done ≡ true))

callbacks-snoc :
    (cs : List Completion) (c : Completion) (reqs : List Request)
    → callbacks (cs ++ (c ∷ [])) reqs ≡ callbacks cs (c.req ∷ reqs)
callbacks-snoc [] c reqs = refl
callbacks-snoc (d ∷ cs) c reqs = ap (λ ks. d.req.completion ∷ ks) (callbacks-snoc cs c reqs)

Waiting-call_back :
    (k : Callback) (ks : List Callback) (c : Completion) (t : Told)
    → Waiting (k ∷ ks) t.waiter_done
    → Waiting ks (call_back k c t).waiter_done
unfolding call_back ends_wait
Waiting-call_back no_callback ks c t w = elim w [
  | inl still ↦ inl still
  | inr told ↦ absurd (omega (arith, ap length told.0))
]
Waiting-call_back (callback i) ks c t w = elim w [
  | inl still ↦ inl still
  | inr told ↦ absurd (omega (arith, ap length told.0))
]
Waiting-call_back wait_callback [] c t w = inr (refl, refl)
Waiting-call_back wait_callback (k ∷ ks) c t w = elim w [
  | inl still ↦ ground (arith, still.0)
  | inr told ↦ absurd (omega (arith, ap length told.0))
]

module _ {S : Type 0} (execute : Executor S) where
  abbrev pub Waits : Queue S → Type 0
  Waits q = Waiting (callbacks (ready execute q) (todo execute q)) q.told.waiter_done

  -- Twice the requests pending, and the completions waiting.
  abbrev pub load : Queue S → ℕ
  load q = 2 * length (todo execute q) + length (ready execute q)

  -- What each step of the pump keeps.
  pub record Keeps (q q' : Queue S) : Type 0 where
    pub fits : QueueFits execute q'
    pub settled : settle execute q' ≡ settle execute q
    pub still_waits : Waits q → Waits q'
    pub ready_le : length (ready execute q') ≤ length (ready execute q)
    pub load_le : load q' ≤ load q

  pub Keeps-refl : (q : Queue S) → QueueFits execute q → Keeps q q
  Keeps-refl q h = record {
    fits = h;
    settled = refl;
    still_waits = λ w. w;
    ready_le = omega arith;
    load_le = omega arith;
  }

  pub Keeps-trans : (p q r : Queue S) → Keeps p q → Keeps q r → Keeps p r
  Keeps-trans p q r a b = record {
    fits = b.fits;
    settled = b.settled ∙ a.settled;
    still_waits = λ w. b.still_waits (a.still_waits w);
    ready_le = omega (arith, a.ready_le, b.ready_le);
    load_le = omega (arith, a.load_le, b.load_le);
  }

  Delivers-Keeps :
      (c : Completion) (cs : List Completion) (q q' : Queue S)
      → ready execute q ≡ c ∷ cs
      → Delivers execute c cs q q'
      → Keeps q q'
        × (load q' < load q)
        × (suc (length (ready execute q')) ≡ length (ready execute q))
  unfolding settle tell_all
  Delivers-Keeps c cs q q' e d =
      let short : suc (length (ready execute q')) ≡ length (ready execute q) =
        rw (e, d.ready_rest) refl in
      let same : length (todo execute q') ≡ length (todo execute q) = ap length d.todo_same in
      (
        record {
          fits = d.fits;
          settled = rw (d.todo_same, d.ready_rest, d.inner_same, d.notified, e) refl;
          still_waits = λ w.
              rw (d.ready_rest, d.todo_same, d.notified)
                (Waiting-call_back c.req.completion (callbacks cs (todo execute q)) c q.told
                  (subst (λ l. Waiting (callbacks l (todo execute q)) q.told.waiter_done) e w));
          ready_le = omega (arith, short);
          load_le = omega (arith, short, same);
        },
        omega (arith, short, same),
        short,
      )

  -- A round of the dispatch, with the rest of the completions named.
  pub dispatch_one-Keeps_at :
      (cs : List Completion) (q : Queue S)
      → QueueFits execute q
      → ready execute q ≡ cs
      → Keeps q (dispatch_one q)
        × (length (ready execute (dispatch_one q)) ≡ length cs - 1)
        × (0 < length cs → load (dispatch_one q) < load q)
  dispatch_one-Keeps_at [] q h e =
      rw (dispatch_one-none execute q e) (Keeps-refl q h, ap length e, λ lt. absurd (omega arith))
  dispatch_one-Keeps_at (c ∷ cs) q h e =
      let d = dispatch_one-Delivers execute c cs q h e in
      let keeps = Delivers-Keeps c cs q (dispatch_one q) e d in
      (keeps.0, omega (arith, ap length d.ready_rest), λ lt. keeps.1)

  pub dispatch-Keeps :
      (n : ℕ) (q : Queue S)
      → QueueFits execute q
      → Keeps q (dispatch n q)
        × (length (ready execute (dispatch n q)) ≡ length (ready execute q) - n)
  unfolding dispatch
  dispatch-Keeps zero q h = (Keeps-refl q h, omega arith)
  dispatch-Keeps (suc n) q h =
      let one = dispatch_one-Keeps_at (ready execute q) q h refl in
      let rest = dispatch-Keeps n (dispatch_one q) one.0.fits in
      (
        Keeps-trans q (dispatch_one q) (dispatch n (dispatch_one q)) one.0 rest.0,
        omega (arith, one.1, rest.1),
      )

  complete-settle :
      (req : Request) (reqs : List Request) (q q' : Queue S)
      → todo execute q ≡ req ∷ reqs
      → Executes execute req reqs q q'
      → settle execute q' ≡ settle execute q
  unfolding settle run_all tell_all
  complete-settle req reqs q q' e d =
      let c = completion_of execute req q.inner in
      rw
        (
          d.todo_rest,
          d.ready_more,
          d.inner_next,
          d.told_same,
          e,
          tell_all-append (ready execute q) (c ∷ []) q.told,
        )
        refl

  complete-Waits :
      (req : Request) (reqs : List Request) (q q' : Queue S)
      → todo execute q ≡ req ∷ reqs
      → Executes execute req reqs q q'
      → Waits q
      → Waits q'
  complete-Waits req reqs q q' e d w =
      let c = completion_of execute req q.inner in
      rw (d.todo_rest, d.ready_more, d.told_same, callbacks-snoc (ready execute q) c reqs)
        (subst (λ l. Waiting (callbacks (ready execute q) l) q.told.waiter_done) e w)

  -- A round of the pump executes a request and delivers a completion.
  pub pump_round-Keeps_at :
      (reqs : List Request) (q : Queue S)
      → QueueFits execute q
      → todo execute q ≡ reqs
      → length (ready execute q) < queue_depth
      → Keeps q (pump_round execute.call q)
        × (0 < length reqs → load (pump_round execute.call q) < load q)
  pump_round-Keeps_at [] q h e room =
      rw (pump_round-none execute q e) (Keeps-refl q h, λ lt. absurd (omega arith))
  pump_round-Keeps_at (req ∷ reqs) q h e room =
      let q' = complete execute.call req (taken execute q) in
      let few : q.completed.count < queue_depth =
        omega (arith, length-contents no_completion q.completed) in
      let d = complete-Executes execute req reqs q h e few in
      let one = dispatch_one-Keeps_at (ready execute q') q' d.fits refl in
      let c = completion_of execute req q.inner in
      let more : length (ready execute q') ≡ length (ready execute q) + 1 =
        ap length d.ready_more ∙ length-append (ready execute q) (c ∷ []) in
      let p : suc (length (todo execute q')) ≡ length (todo execute q) = rw (d.todo_rest, e) refl in
      rw (pump_round-some execute req reqs q h e) (
        record {
          fits = one.0.fits;
          settled = one.0.settled ∙ complete-settle req reqs q q' e d;
          still_waits = λ w. one.0.still_waits (complete-Waits req reqs q q' e d w);
          ready_le = omega (arith, one.1, more);
          load_le = omega (arith, one.0.load_le, more, p);
        },
        λ lt. omega (arith, one.0.load_le, more, p),
      )

  pub pump_rounds-Keeps :
      (n : ℕ) (q : Queue S)
      → QueueFits execute q
      → length (ready execute q) < queue_depth
      → Keeps q (pump_rounds execute.call n q)
  unfolding pump_rounds
  pump_rounds-Keeps zero q h room = Keeps-refl q h
  pump_rounds-Keeps (suc n) q h room =
      let q' = pump_round execute.call q in
      let one = (pump_round-Keeps_at (todo execute q) q h refl room).0 in
      let rest = pump_rounds-Keeps n q' one.fits (omega (arith, one.ready_le)) in
      Keeps-trans q q' (pump_rounds execute.call n q') one rest
