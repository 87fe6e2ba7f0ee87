-- ===== src/Task/Sending.antt =====
-- kernel/task.c: sending a signal to a task or a process group, and sessions and groups.
--
-- A signal number is a natural number; a negative one is not supported, as 0 is not.
use deanos.Task.{
  raise_signal, Tasks, Task, find_task_index_by_id, sigkill, task_at, drop_signal, has_signal,
  is_blocked, sigint, is_dead, task_ready, sigterm, update_task, sigchld,
}
use deanos.Prelude.{
  find_first, ℕ, ℤ, List, ◌+◌, Bool, length, if◌then◌else◌, Option, pos, ◌==◌, suc, not, false,
  some, ◌||◌, true, ◌&&◌, neg, get_or, ltb, zero, none,
}
use deanos.Task.Life.{mark_task_dead_index, task_exit_with_status, is_current}

unfoldable pub signal_is_supported : ℕ → Bool
signal_is_supported sig = sig == sigint || sig == sigkill || sig == sigterm || sig == sigchld

unfoldable pub signal_is_fatal_default : ℕ → Bool
signal_is_fatal_default sig = sig == sigint || sig == sigterm || sig == sigkill

abbrev pub signal_default_exit_status : ℕ → ℕ
signal_default_exit_status sig = 128 + sig

-- A blocked task that a handler waits for is made ready.
abbrev pub interrupted : Task → Task
interrupted t =
    if is_blocked t.state
    then record t { state = task_ready; wake_tick = 0; wait_task_id = pos 0 }
    else t

-- `task_send_signal` for the live task at index `i`. The end of the running task does not return in
-- the source; what it leaves is the result here.
unfoldable pub deliver : ℕ → ℕ → Tasks → Tasks
unfolding raise_signal drop_signal has_signal mark_task_dead_index task_exit_with_status
    signal_is_fatal_default
deliver i sig k =
    let t = task_at k.tasks i in
    let raised = record t { pending_signals = raise_signal t.pending_signals sig } in
    let dropped = record t {
      pending_signals = drop_signal (raise_signal t.pending_signals sig) sig;
    } in
    let disposition = get_or t.signal_handlers sig 0 in
    if has_signal t.ignored_signals sig || disposition == 1
    then update_task k i dropped
    else if ltb 1 disposition
    then update_task k i (interrupted raised)
    else if sig == sigchld || not (signal_is_fatal_default sig)
    then update_task k i raised
    else if is_current i k.current
    then task_exit_with_status (signal_default_exit_status sig) (update_task k i dropped)
    else mark_task_dead_index i (signal_default_exit_status sig) sig (update_task k i dropped)

unfoldable pub task_send_signal : ℤ → ℕ → Tasks → ℤ × Tasks
unfolding signal_is_supported signal_is_fatal_default find_task_index_by_id deliver
task_send_signal pid sig k = elim (find_task_index_by_id k.tasks pid) [
  | none ↦ (neg 1, k)
  | some i ↦
      if not (signal_is_supported sig)
      then (neg 1, k)
      else if i == 0 && signal_is_fatal_default sig
      then (neg 2, k)
      else if is_dead (task_at k.tasks i).state
      then (pos 0, k)
      else (pos 0, deliver i sig k)
]

abbrev pub task_kill : ℤ → Tasks → ℤ × Tasks
task_kill id k = task_send_signal id sigkill k

-- The loop of `task_send_signal_pgid` over the `n` tasks from `i` on: whether one matched, and the
-- table. The running task is left out.
unfoldable pub signal_group : ℕ → ℕ → ℕ → ℕ → Bool → Tasks → Bool × Tasks
unfolding task_send_signal
signal_group zero i pgid sig matched k = (matched, k)
signal_group (suc n) i pgid sig matched k =
    let t = task_at k.tasks i in
    let skipped = signal_group n (i + 1) pgid sig matched k in
    let deferred = signal_group n (i + 1) pgid sig true k in
    let sent = signal_group n (i + 1) pgid sig true (task_send_signal (pos t.id) sig k).1 in
    if is_dead t.state || not (t.pgid == pgid) || i == 0 && signal_is_fatal_default sig
    then skipped
    else if is_current i k.current
    then deferred
    else sent

-- The member of the group that runs, which is signalled last.
abbrev pub current_member : ℕ → ℕ → Tasks → Option ℤ
current_member pgid sig k = elim k.current [
  | none ↦ none
  | some c ↦
      let t = task_at k.tasks c in
      if is_dead t.state || not (t.pgid == pgid) || c == 0 && signal_is_fatal_default sig
      then none
      else some (pos t.id)
]

unfoldable pub task_send_signal_pgid : ℕ → ℕ → Tasks → ℤ × Tasks
unfolding signal_group
task_send_signal_pgid pgid sig k =
    let (matched, k') = signal_group (length k.tasks) 0 pgid sig false k in
    let k'' = elim (current_member pgid sig k) as (λ _. Tasks) [
      | none ↦ k'
      | some id ↦ (task_send_signal id sig k').1
    ] in
    if not (signal_is_supported sig)
    then (neg 1, k)
    else if pgid == 0
    then (neg 1, k)
    else (if matched then pos 0 else neg 1, k'')

abbrev pub in_group : ℕ → ℕ → Task → Bool
in_group sid pgid t = not (is_dead t.state) && (t.sid == sid && t.pgid == pgid)

unfoldable pub task_pgid_exists_in_session : List Task → (sid pgid : ℕ) → Bool
unfolding find_first
task_pgid_exists_in_session ts sid pgid =
    if sid == 0 || pgid == 0
    then false
    else elim (find_first (in_group sid pgid) ts) [ none ↦ false | some i ↦ true ]

-- `resolve_target_task_index`
abbrev pub target_index : Tasks → ℕ → ℤ → Option ℕ
target_index k c (pos zero) = some c
target_index k c pid = find_task_index_by_id k.tasks pid

-- `task_setpgid` for the running task `c`, the target `i` and a group from 0 on.
unfoldable pub set_group : ℕ → ℕ → ℕ → Tasks → ℤ × Tasks
unfolding task_pgid_exists_in_session
set_group c i pgid k =
    let caller = task_at k.tasks c in
    let target = task_at k.tasks i in
    let group = if pgid == 0 then target.id else pgid in
    if is_dead target.state
    then (neg 1, k)
    else if not (i == c) && not (target.parent_id == caller.id)
    then (neg 1, k)
    else if group == 0
    then (neg 1, k)
    else if not (target.sid == caller.sid)
    then (neg 1, k)
    else if not (group == target.id) && not (task_pgid_exists_in_session k.tasks target.sid group)
    then (neg 1, k)
    else (pos 0, update_task k i (record target { pgid = group }))

unfoldable pub task_setpgid : ℤ → ℕ → Tasks → ℤ × Tasks
unfolding set_group find_task_index_by_id
task_setpgid pid pgid k = elim k.current [
  | none ↦ (neg 1, k)
  | some c ↦ elim (target_index k c pid) [ none ↦ (neg 1, k) | some i ↦ set_group c i pgid k ]
]

unfoldable pub task_setsid : Tasks → ℤ × Tasks
task_setsid k = elim k.current [
  | none ↦ (neg 1, k)
  | some c ↦
      let self = task_at k.tasks c in
      if self.pgid == self.id
      then (neg 1, k)
      else (pos self.id, update_task k c (record self { sid = self.id; pgid = self.id }))
]
