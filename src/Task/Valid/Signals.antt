-- ===== src/Task/Valid/Signals.antt =====
-- Signals, groups and sessions of kernel/task.c keep the invariant of the table.
use deanos.Task.Sending.{
  task_send_signal_pgid, set_group, deliver, task_setpgid, task_send_signal, signal_group,
  task_setsid, target_index, signal_is_supported, interrupted, current_member,
  signal_is_fatal_default, signal_default_exit_status,
}
use deanos.Task.{
  Tasks, task_at, Task, update_task, find_task_index_by_id, is_dead, raise_signal, drop_signal,
}
use deanos.Prelude.{
  ℕ, ℤ, Bool, suc, Option-cases, length, either_way, both_branches, false, not, inl, refl, arith,
  inr, ◌||◌, ◌==◌, pos, if◌then◌else◌, ◌&&◌, neg, ◌+◌, true, zero,
}
use deanos.Task.Valid.{IsTaskTable, Quiet}
use deanos.Task.Valid.Steps.{
  update_task-IsTaskTable, task_exit_with_status-IsTaskTable, mark_task_dead_index-IsTaskTable,
}
use deanos.Task.Life.{is_current}

deliver-IsTaskTable : (i sig : ℕ) (k : Tasks) → IsTaskTable k → IsTaskTable (deliver i sig k)
unfolding deliver
deliver-IsTaskTable i sig k v =
    let t = task_at k.tasks i in
    let quiet : (t' : Task) → Quiet t t' → IsTaskTable (update_task k i t') =
      λ t'. update_task-IsTaskTable k i t' v in
    let raised = record t { pending_signals = raise_signal t.pending_signals sig } in
    let dropped = record t {
      pending_signals = drop_signal (raise_signal t.pending_signals sig) sig;
    } in
    both_branches IsTaskTable _ (quiet dropped (refl, λ h. h)) (
      both_branches IsTaskTable _ (quiet (interrupted raised) (ground arith)) (
        both_branches IsTaskTable _ (quiet raised (refl, λ h. h)) (
          both_branches IsTaskTable _
            (task_exit_with_status-IsTaskTable (signal_default_exit_status sig)
              (update_task k i dropped) (quiet dropped (refl, λ h. h)))
            (mark_task_dead_index-IsTaskTable i (signal_default_exit_status sig) sig
              (update_task k i dropped) (quiet dropped (refl, λ h. h))))))

pub task_send_signal-IsTaskTable :
    (pid : ℤ) (sig : ℕ) (k : Tasks) → IsTaskTable k → IsTaskTable (task_send_signal pid sig k).1
unfolding task_send_signal
task_send_signal-IsTaskTable pid sig k v = elim (Option-cases (find_task_index_by_id k.tasks pid)) [
  | inl missing ↦ rw (task_send_signal, missing) v
  | inr (i, found) ↦
      let P : ℤ × Tasks → Type 0 = λ r. IsTaskTable r.1 in
      let done : ℤ × Tasks = (pos 0, deliver i sig k) in
      let dead = is_dead (task_at k.tasks i).state in
      let idle = i == 0 && signal_is_fatal_default sig in
      let live : ℤ × Tasks = if dead then (pos 0, k) else done in
      let other : ℤ × Tasks = if idle then (neg 2, k) else live in
      rw (task_send_signal, found)
        (both_branches P (not (signal_is_supported sig)) {x = (neg 1, k)} {y = other} v (
          both_branches P idle {x = (neg 2, k)} {y = live} v
            (both_branches P dead {x = (pos 0, k)} {y = done} v (deliver-IsTaskTable i sig k v))))
]

signal_group-IsTaskTable :
    (n i pgid sig : ℕ) (matched : Bool) (k : Tasks)
    → IsTaskTable k
    → IsTaskTable (signal_group n i pgid sig matched k).1
unfolding signal_group
signal_group-IsTaskTable zero i pgid sig matched k v = v
signal_group-IsTaskTable (suc n) i pgid sig matched k v =
    let t = task_at k.tasks i in
    let P : Bool × Tasks → Type 0 = λ r. IsTaskTable r.1 in
    both_branches P
      (is_dead t.state || not (t.pgid == pgid) || i == 0 && signal_is_fatal_default sig)
      (signal_group-IsTaskTable n (i + 1) pgid sig matched k v)
      (both_branches P (is_current i k.current)
        (signal_group-IsTaskTable n (i + 1) pgid sig true k v)
        (signal_group-IsTaskTable n (i + 1) pgid sig true (task_send_signal (pos t.id) sig k).1
          (task_send_signal-IsTaskTable (pos t.id) sig k v)))

pub task_send_signal_pgid-IsTaskTable :
    (pgid sig : ℕ) (k : Tasks) → IsTaskTable k → IsTaskTable (task_send_signal_pgid pgid sig k).1
unfolding task_send_signal_pgid
task_send_signal_pgid-IsTaskTable pgid sig k v =
    let P : ℤ × Tasks → Type 0 = λ r. IsTaskTable r.1 in
    let k' = (signal_group (length k.tasks) 0 pgid sig false k).1 in
    let v' = signal_group-IsTaskTable (length k.tasks) 0 pgid sig false k v in
    both_branches P (not (signal_is_supported sig)) v (
      both_branches P (pgid == 0) v (
        either_way IsTaskTable (current_member pgid sig k) v'
          (λ id. task_send_signal-IsTaskTable id sig k' v')))

set_group-IsTaskTable :
    (c i pgid : ℕ) (k : Tasks) → IsTaskTable k → IsTaskTable (set_group c i pgid k).1
unfolding set_group
set_group-IsTaskTable c i pgid k v =
    let target = task_at k.tasks i in
    let joined : (group : ℕ) → IsTaskTable (update_task k i (record target { pgid = group })) =
      λ group. update_task-IsTaskTable k i (record target { pgid = group }) v (refl, λ h. h) in
    ground (arith, joined (if pgid == 0 then target.id else pgid))

pub task_setpgid-IsTaskTable :
    (pid : ℤ) (pgid : ℕ) (k : Tasks) → IsTaskTable k → IsTaskTable (task_setpgid pid pgid k).1
unfolding task_setpgid
task_setpgid-IsTaskTable pid pgid k v =
    let P : ℤ × Tasks → Type 0 = λ r. IsTaskTable r.1 in
    either_way P k.current v
      λ c. either_way P (target_index k c pid) v λ i. set_group-IsTaskTable c i pgid k v

pub task_setsid-IsTaskTable : (k : Tasks) → IsTaskTable k → IsTaskTable (task_setsid k).1
unfolding task_setsid
task_setsid-IsTaskTable k v =
    let P : ℤ × Tasks → Type 0 = λ r. IsTaskTable r.1 in
    either_way P k.current v λ c.
      let self = task_at k.tasks c in
      both_branches P _ v (
        update_task-IsTaskTable k c (record self { sid = self.id; pgid = self.id }) v
          (refl, λ h. h))
