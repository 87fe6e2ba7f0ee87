-- ===== src/Task/Valid/Steps.antt =====
-- Single steps, the tick and the exit of kernel/task.c, and the invariant of the task table.
use deanos.Task.Schedule.{
  wake_from, do_switch, wake_one, preempted, started, reschedule, start_of, pick_from,
  scheduler_tick, pick_next_ready, wake_blocked_tasks, ticked, refilled,
}
use deanos.Prelude.{
  List, ℕ, arith, ◌≡◌, set, some, suc, ◌<◌, ◌+◌, length, zero, length-set, ◌∙◌, get_or-set_self,
  ◌≢◌, get_or-set_ne, Bool-cases, ◌==◌, inl, inr, false, sym, refl, ap, true, Option-cases, Option,
  ◌%◌, none, ◌^◌, subst, both_branches, not, pos, ltb, leb, ◌||◌,
}
use deanos.Task.{
  Tasks, Task, task_at, update_task, no_task, is_running, is_ready, find_task_index_by_id,
  init_task_id, raise_signal, sigchld, is_dead,
}
use deanos.Task.Valid.{
  IsTaskTable, IsQuieter, Quiet, IsQuieter-refl, IsQuieter-trans, IsQuieter-IsTaskTable,
  set-IsQuieter, map-IsQuieter,
}
use deanos.Task.Life.{
  is_current, mark_task_dead_index, task_exit_with_status, notify_parent_sigchld, ended,
  reparent_children, reparent,
}
use native.Mathlib.Nat.{mod-lt}

wake_one-Quiet : (ts : List Task) (now : ℕ) (t : Task) → Quiet t (wake_one ts now t)
unfolding wake_one
wake_one-Quiet ts now t = ground arith

wake_from-IsQuieter : (n i now : ℕ) (ts : List Task) → IsQuieter ts (wake_from n i now ts)
unfolding wake_from
wake_from-IsQuieter zero i now ts = IsQuieter-refl ts
wake_from-IsQuieter (suc n) i now ts =
    let ts' = set ts i (wake_one ts now (task_at ts i)) in
    IsQuieter-trans ts ts' (wake_from n (i + 1) now ts')
      (set-IsQuieter ts i (wake_one ts now (task_at ts i)) (wake_one-Quiet ts now (task_at ts i)))
      (wake_from-IsQuieter n (i + 1) now ts')

pub update_task-IsTaskTable :
    (k : Tasks) (i : ℕ) (t : Task)
    → IsTaskTable k
    → Quiet (task_at k.tasks i) t
    → IsTaskTable (update_task k i t)
update_task-IsTaskTable k i t v q =
    IsQuieter-IsTaskTable k (set k.tasks i t) k.sched_ticks k.effects v
      (set-IsQuieter k.tasks i t q)

-- The running task stops running, and another starts.
preempted-IsQuieter : (ts : List Task) (p : ℕ) → IsQuieter ts (set ts p (preempted (task_at ts p)))
preempted-IsQuieter ts p = set-IsQuieter ts p (preempted (task_at ts p)) (ground arith)

preempted-stops : (t : Task) → is_running (preempted t).state ≡ false
preempted-stops t = ground arith

do_switch-IsTaskTable :
    (c next : ℕ) (k : Tasks)
    → IsTaskTable k
    → k.current ≡ some c
    → next < length k.tasks
    → IsTaskTable (do_switch (some c) next k)
unfolding do_switch
do_switch-IsTaskTable c next k v e lt =
    let ts = set k.tasks c (preempted (task_at k.tasks c)) in
    let quiet = preempted-IsQuieter k.tasks c in
    let v' = IsQuieter-IsTaskTable k ts k.sched_ticks k.effects v quiet in
    let t = task_at ts next in
    let ts' = set ts next (started t) in
    let size : length ts' ≡ length k.tasks = length-set ts next (started t) ∙ quiet.same_length in
    let at_next : task_at ts' next ≡ started t =
      get_or-set_self ts next (started t) no_task (omega (arith, quiet.same_length)) in
    let elsewhere : (i : ℕ) → next ≢ i → task_at ts' i ≡ task_at ts i =
      λ i ne. get_or-set_ne ts next i (started t) no_task ne in
    let same_id : (i : ℕ) → (task_at ts' i).id ≡ (task_at ts i).id = λ i.
      elim (Bool-cases (next == i)) [
        | inl here ↦ let e' : next ≡ i = ground arith in rw (← e', at_next) refl
        | inr other ↦ rw (elsewhere i (ground (arith, other))) refl
      ] in
    let stopped : is_running (task_at ts c).state ≡ false =
      rw (get_or-set_self k.tasks c (preempted (task_at k.tasks c)) no_task (v.current_in c e))
        (preempted-stops (task_at k.tasks c)) in
    record {
      few = omega (arith, size, v.few);
      current_in = λ c' e'. omega (arith, size, ap start_of e');
      one_runs = λ i h run. elim (Bool-cases (next == i)) [
        | inl here ↦ ap some (ground arith)
        | inr other ↦
            let run' : is_running (task_at ts i).state ≡ true =
              ap (λ u. is_running u.state) (sym (elsewhere i (ground (arith, other)))) ∙ run in
            let at_i = v'.one_runs i (omega (arith, size, quiet.same_length)) run' in
            let same : c ≡ i = ap start_of (sym e ∙ at_i) in absurd (cc (rw same at stopped, run'))
      ];
      distinct = λ i j hi hj e'.
          v'.distinct i j (omega (arith, size, quiet.same_length))
            (omega (arith, size, quiet.same_length)) (sym (same_id i) ∙ e' ∙ same_id j);
      fresh = λ i h. omega (arith, same_id i, v'.fresh i (omega (arith, size, quiet.same_length)));
    }

pick_from-within :
    (n i : ℕ) (ts : List Task) (best : Option ℕ)
    → 0 < length ts
    → ((x : ℕ) → best ≡ some x → x < length ts)
    → (x : ℕ) → pick_from n i ts best ≡ some x
    → x < length ts
unfolding pick_from
pick_from-within zero i ts best some_there ok x e = ok x e
pick_from-within (suc n) i ts best some_there ok x e =
    elim (Bool-cases (is_ready (task_at ts (i % length ts)).state)) [
      | inr waits ↦ pick_from-within n (i + 1) ts best some_there ok x (rw waits at e)
      | inl ready ↦ elim (Bool-cases (i % length ts == 0)) [
        | inl idle ↦
            pick_from-within n (i + 1) ts (some 0) some_there
              (λ y e'. omega (arith, ap start_of e')) x (rw (ready, idle) at e)
        | inr other ↦
            let e' : some (i % length ts) ≡ some x = rw (ready, other) at e in
            omega (arith, ap start_of e', mod-lt i some_there)
      ]
    ]

-- Choosing the next task.
reschedule-IsTaskTable :
    (k : Tasks) (c : ℕ) → IsTaskTable k → k.current ≡ some c → IsTaskTable (reschedule k)
unfolding reschedule
reschedule-IsTaskTable k c v e = elim (Option-cases (pick_next_ready k.tasks k.current)) [
  | inl nothing ↦ rw (reschedule, nothing) v
  | inr (next, found) ↦
      let some_there : 0 < length k.tasks = omega (arith, v.current_in c e) in
      let lt : next < length k.tasks =
        pick_from-within (length k.tasks) (start_of k.current + 1) k.tasks none some_there
          (λ x e'. absurd (cc)) next found in
      elim (Bool-cases (is_current next k.current)) [
        | inl same ↦
            rw (reschedule, found, same)
              (update_task-IsTaskTable k next (refilled (task_at k.tasks next)) v (refl, λ h. h))
        | inr other ↦
            let e' : k.current ≡ some c = e in
            rw (reschedule, found, other)
              (subst (λ cur. IsTaskTable (do_switch cur next k)) (sym e')
                (do_switch-IsTaskTable c next k v e lt))
      ]
]

-- A tick keeps the invariant.
pub scheduler_tick-IsTaskTable :
    (k : Tasks) (c : ℕ) → IsTaskTable k → k.current ≡ some c → IsTaskTable (scheduler_tick k)
unfolding scheduler_tick wake_blocked_tasks
scheduler_tick-IsTaskTable k c v e =
    let now = (k.sched_ticks + 1) % 2 ^ 64 in
    let ts = wake_blocked_tasks now k.tasks in
    let k' : Tasks = record k { sched_ticks = now; tasks = ts } in
    let v' : IsTaskTable k' =
      IsQuieter-IsTaskTable k ts now k.effects v
        (wake_from-IsQuieter (length k.tasks) 0 now k.tasks) in
    let t = task_at ts c in
    let v'' : IsTaskTable (update_task k' c (ticked t)) =
      update_task-IsTaskTable k' c (ticked t) v' (refl, λ h. h) in
    let last = reschedule-IsTaskTable (update_task k' c (ticked t)) c v'' e in
    let next = reschedule-IsTaskTable k' c v' e in
    rw (scheduler_tick, e)
      (both_branches IsTaskTable (not (is_running t.state)) next
        (both_branches IsTaskTable (ltb 0 (ticked t).ticks_left) v'' last))

ended-Quiet : (status term_sig : ℕ) (t : Task) → Quiet t (ended status term_sig t)
ended-Quiet status term_sig t = (refl, λ h. absurd (cc))

notify-IsQuieter : (id : ℕ) (ts : List Task) → IsQuieter ts (notify_parent_sigchld id ts)
unfolding notify_parent_sigchld
notify-IsQuieter id ts =
    elim (find_task_index_by_id ts (pos id))
      as (λ r. IsQuieter ts (elim r [
        | none ↦ ts
        | some i ↦
            let t = task_at ts i in
            set ts i (record t { pending_signals = raise_signal t.pending_signals sigchld })
      ])) [ none ↦ IsQuieter-refl ts | some i ↦ set-IsQuieter ts i _ (refl, λ h. h) ]

-- The end of a task keeps the invariant.
pub mark_task_dead_index-IsTaskTable :
    (i status term_sig : ℕ) (k : Tasks)
    → IsTaskTable k
    → IsTaskTable (mark_task_dead_index i status term_sig k)
unfolding mark_task_dead_index reparent_children
mark_task_dead_index-IsTaskTable i status term_sig k v =
    let t = task_at k.tasks i in
    let old = t.id in
    let init = init_task_id k.tasks in
    let ts = reparent_children old init k.tasks in
    let q1 : IsQuieter k.tasks ts = map-IsQuieter (reparent old init) k.tasks (λ u. ground arith) in
    let dying = task_at ts i in
    let ts' = set ts i (ended status term_sig dying) in
    let q2 = set-IsQuieter ts i (ended status term_sig dying) (ended-Quiet status term_sig dying) in
    let q3 = notify-IsQuieter t.parent_id ts' in
    let q =
      IsQuieter-trans k.tasks ts (notify_parent_sigchld t.parent_id ts') q1
        (IsQuieter-trans ts ts' (notify_parent_sigchld t.parent_id ts') q2 q3) in
    both_branches IsTaskTable (leb (length k.tasks) i || is_dead t.state) v
      (IsQuieter-IsTaskTable k (notify_parent_sigchld t.parent_id ts') k.sched_ticks _ v q)

pub task_exit_with_status-IsTaskTable :
    (status : ℕ) (k : Tasks) → IsTaskTable k → IsTaskTable (task_exit_with_status status k)
unfolding task_exit_with_status
task_exit_with_status-IsTaskTable status k v =
    elim k.current
      as (λ cur.
        IsTaskTable
          (elim cur as (λ _. Tasks) [ none ↦ k | some c ↦ mark_task_dead_index c status 0 k ])) [
            | none ↦ v
            | some c ↦ mark_task_dead_index-IsTaskTable c status 0 k v
          ]
