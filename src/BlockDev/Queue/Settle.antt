-- ===== src/BlockDev/Queue/Settle.antt =====
-- Where the queue of kernel/blockdev.c is heading: the waiting completions are delivered in order, then
-- each pending request is executed and its completion delivered, in order. While no request
-- comes back into the queue, every step of the pump leaves that as it is and brings the queue nearer to
-- it.
use deanos.BlockDev.Queue.{
  Request, Completion, Told, complete, dispatch_one, pump_round, Queue,
  blockdev_update_async_pending_stat, notify, no_request, no_completion, finish,
}
use deanos.Prelude.{
  List, ℤ, ◌∷◌, ◌++◌, ◌≡◌, ◌<◌, [], refl, false, Bool, true, arith, subst, ◌&&◌, sym,
}
use deanos.BlockDev.{Block}
use deanos.BlockDev.Ring.Fifo.{contents, RingFits, pop_lem, pop-empty, push_lem}
use deanos.BlockDev.Ring.{popped, queue_depth}

-- A way to execute requests. A direct one, such as for a disk of which blocks are cached, leaves the queue
-- alone, and `run` says what it does to the state behind the queue. What the others do is left open:
-- the driver of a partition submits requests of its own and pumps the queue until they are done.
pub record Executor (S : Type 0) : Type 0 where
  pub call : Queue S → Request → ℤ × List Block × Queue S
  pub direct : S → Request → Bool
  pub run : S → Request → ℤ × List Block × S
  pub stays :
      (q : Queue S) (req : Request)
      → direct q.inner req ≡ true
      → call q req
        ≡ ((run q.inner req).0, (run q.inner req).1, record q { inner = (run q.inner req).2 })
  pub still_direct :
      (s : S) (req other : Request)
      → direct s req ≡ true
      → direct s other ≡ true
      → direct (run s req).2 other ≡ true

-- Delivering completions, the first one first.
unfoldable pub tell_all : List Completion → Told → Told
tell_all [] t = t
tell_all (c ∷ cs) t = tell_all cs (notify c t)

pub tell_all-append :
    (cs ds : List Completion) (t : Told) → tell_all (cs ++ ds) t ≡ tell_all ds (tell_all cs t)
unfolding tell_all
tell_all-append [] ds t = refl
tell_all-append (c ∷ cs) ds t = tell_all-append cs ds (notify c t)

module _ {S : Type 0} (execute : Executor S) where
  abbrev pub completion_of : Request → S → Completion
  completion_of req s = record {
    req = req;
    status = (execute.run s req).0;
    blocks = (execute.run s req).1;
  }

  -- Executing requests one at a time, each with its completion delivered before the next.
  unfoldable pub run_all : List Request → Told → S → Told × S
  run_all [] t s = (t, s)
  run_all (req ∷ reqs) t s = run_all reqs (notify (completion_of req s) t) (execute.run s req).2

  pub run_all-append :
      (reqs more : List Request) (t : Told) (s : S)
      → run_all (reqs ++ more) t s ≡ run_all more (run_all reqs t s).0 (run_all reqs t s).1
  unfolding run_all
  run_all-append [] more t s = refl
  run_all-append (req ∷ reqs) more t s =
      run_all-append reqs more (notify (completion_of req s) t) (execute.run s req).2

  abbrev pub todo : Queue S → List Request
  todo q = contents no_request q.pending

  abbrev pub ready : Queue S → List Completion
  ready q = contents no_completion q.completed

  unfoldable pub settle : Queue S → Told × S
  unfolding tell_all run_all
  settle q = run_all (todo q) (tell_all (ready q) q.told) q.inner

  -- None of the requests comes back into the queue.
  abbrev pub all_direct : S → List Request → Bool
  all_direct s [] = true
  all_direct s (req ∷ reqs) = execute.direct s req && all_direct s reqs

  pub all_direct-snoc :
      (s : S) (reqs : List Request) (req : Request)
      → all_direct s reqs ≡ true
      → execute.direct s req ≡ true
      → all_direct s (reqs ++ (req ∷ [])) ≡ true
  all_direct-snoc s [] req h d = ground (arith, d)
  all_direct-snoc s (r ∷ reqs) req h d =
      let rest = all_direct-snoc s reqs req (ground (arith, h)) d in ground (arith, h, rest)

  all_direct-run :
      (s : S) (req : Request) (reqs : List Request)
      → execute.direct s req ≡ true
      → all_direct s reqs ≡ true
      → all_direct (execute.run s req).2 reqs ≡ true
  all_direct-run s req [] d h = refl
  all_direct-run s req (r ∷ reqs) d h =
      let one = execute.still_direct s req r d (ground (arith, h)) in
      let rest = all_direct-run s req reqs d (ground (arith, h)) in ground (arith, one, rest)

  pub record QueueFits (q : Queue S) : Type 0 where
    pub pending_fits : RingFits no_request q.pending
    pub completed_fits : RingFits no_completion q.completed
    pub at_rest : q.inflight ≡ false
    pub none_returns : all_direct q.inner (todo q) ≡ true

  -- How a step that delivers a completion changes the queue.
  pub record Delivers (c : Completion) (cs : List Completion) (q q' : Queue S) : Type 0 where
    pub fits : QueueFits q'
    pub todo_same : todo q' ≡ todo q
    pub ready_rest : ready q' ≡ cs
    pub inner_same : q'.inner ≡ q.inner
    pub notified : q'.told ≡ notify c q.told

  pub dispatch_one-Delivers :
      (c : Completion) (cs : List Completion) (q : Queue S)
      → QueueFits q
      → ready q ≡ c ∷ cs
      → Delivers c cs q (dispatch_one q)
  unfolding dispatch_one
  dispatch_one-Delivers c cs q h e =
      let popping = pop_lem no_completion c cs q.completed h.completed_fits e in
      rw (dispatch_one, popping.0)
        (record {
          fits = record {
            pending_fits = h.pending_fits;
            completed_fits = popping.2;
            at_rest = h.at_rest;
            none_returns = h.none_returns;
          };
          todo_same = refl;
          ready_rest = popping.1;
          inner_same = refl;
          notified = refl;
        })

  pub dispatch_one-none : (q : Queue S) → ready q ≡ [] → dispatch_one q ≡ q
  unfolding dispatch_one
  dispatch_one-none q e = rw (dispatch_one, pop-empty no_completion q.completed e) refl

  -- How a step that executes a request and keeps its completion changes the queue.
  pub record Executes (req : Request) (reqs : List Request) (q q' : Queue S) : Type 0 where
    pub fits : QueueFits q'
    pub todo_rest : todo q' ≡ reqs
    pub ready_more : ready q' ≡ ready q ++ (completion_of req q.inner ∷ [])
    pub inner_next : q'.inner ≡ (execute.run q.inner req).2
    pub told_same : q'.told ≡ q.told

  abbrev pub taken : Queue S → Queue S
  taken q = blockdev_update_async_pending_stat (record q { pending = popped q.pending })

  pub complete-Executes :
      (req : Request) (reqs : List Request) (q : Queue S)
      → QueueFits q
      → todo q ≡ req ∷ reqs
      → q.completed.count < queue_depth
      → Executes req reqs q (complete execute.call req (taken q))
  unfolding complete finish
  complete-Executes req reqs q h e room =
      let popping = pop_lem no_request req reqs q.pending h.pending_fits e in
      let c = completion_of req q.inner in
      let pushing = push_lem no_completion c q.completed h.completed_fits room in
      let h' : all_direct q.inner (req ∷ reqs) ≡ true =
        subst (λ l. all_direct q.inner l ≡ true) e h.none_returns in
      let d : execute.direct q.inner req ≡ true = ground (arith, h') in
      let rest_direct : all_direct q.inner reqs ≡ true = ground (arith, h') in
      let started = blockdev_update_async_pending_stat (record (taken q) { inflight = true }) in
      subst (λ r. Executes req reqs q (finish req r)) (sym (execute.stays started req d))
        (rw (finish, pushing.0)
          (record {
            fits = record {
              pending_fits = popping.2;
              completed_fits = pushing.2;
              at_rest = refl;
              none_returns = rw popping.1 (all_direct-run q.inner req reqs d rest_direct);
            };
            todo_rest = popping.1;
            ready_more = pushing.1;
            inner_next = refl;
            told_same = refl;
          }))

  pub pump_round-some :
      (req : Request) (reqs : List Request) (q : Queue S)
      → QueueFits q
      → todo q ≡ req ∷ reqs
      → pump_round execute.call q ≡ dispatch_one (complete execute.call req (taken q))
  unfolding pump_round
  pump_round-some req reqs q h e =
      rw (pump_round, (pop_lem no_request req reqs q.pending h.pending_fits e).0) refl

  pub pump_round-none : (q : Queue S) → todo q ≡ [] → pump_round execute.call q ≡ q
  unfolding pump_round
  pump_round-none q e = rw (pump_round, pop-empty no_request q.pending e) refl
