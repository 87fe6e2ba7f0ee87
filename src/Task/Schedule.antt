-- ===== src/Task/Schedule.antt =====
-- kernel/task.c: waking blocked tasks, choosing the next one round-robin, the tick, and blocking.
use deanos.Prelude.{
  List, Option, ℤ, ℕ, if◌then◌else◌, suc, Bool, some, map, ◌+◌, length, neg, ◌-◌, set, ◌%◌, ◌/◌,
  negsuc, none, ◌==◌, true, ◌^◌, not, ◌&&◌, pos, false, zero, ◌||◌, ltb, leb,
}
use deanos.Task.{
  find_task_index_by_id, Task, Tasks, task_running, is_task_dead_or_missing, is_blocked,
  find_waitable_child_index, is_running, task_at, task_ready, task_blocked, is_ready, is_positive,
  update_task, is_dead,
}
use deanos.Task.Life.{is_current}

-- `t->wait_task_id == -1`
abbrev pub waits_for_any : ℤ → Bool
waits_for_any (negsuc zero) = true
waits_for_any _ = false

-- The round of `wake_blocked_tasks` for one task, at tick `now`.
unfoldable pub wake_one : List Task → ℕ → Task → Task
unfolding find_task_index_by_id is_task_dead_or_missing find_waitable_child_index
wake_one ts now t =
    let woken = record t { wait_task_id = pos 0; state = task_ready } in
    let child_ended =
      is_positive t.wait_task_id
      && (is_task_dead_or_missing ts t.wait_task_id
          && elim (find_task_index_by_id ts t.wait_task_id) as (λ _. Bool) [
            | none ↦ true
            | some i ↦ is_dead (task_at ts i).state && not (task_at ts i).wait_collected
          ]) in
    let any_ended =
      waits_for_any t.wait_task_id
      && elim (find_waitable_child_index ts t.id (negsuc 0)) as (λ _. Bool) [
        | none ↦ false
        | some i ↦ true
      ] in
    if not (is_blocked t.state)
    then t
    else if child_ended
    then woken
    else if any_ended
    then woken
    else if not (t.wake_tick == 0) && leb t.wake_tick now
    then record t { wake_tick = 0; state = task_ready }
    else t

-- The loop over the `n` tasks from `i` on; each round sees what the rounds before it changed.
unfoldable pub wake_from : ℕ → ℕ → ℕ → List Task → List Task
unfolding wake_one
wake_from zero i now ts = ts
wake_from (suc n) i now ts = wake_from n (i + 1) now (set ts i (wake_one ts now (task_at ts i)))

unfoldable pub wake_blocked_tasks : ℕ → List Task → List Task
unfolding wake_from
wake_blocked_tasks now ts = wake_from (length ts) 0 now ts

-- The loop of `pick_next_ready` over the `n` places from `i` on, counted around the table.
unfoldable pub pick_from : ℕ → ℕ → List Task → Option ℕ → Option ℕ
pick_from zero i ts best = best
pick_from (suc n) i ts best =
    let j = i % length ts in
    let idle = pick_from n (i + 1) ts (some 0) in
    let rest = pick_from n (i + 1) ts best in
    if not (is_ready (task_at ts j).state) then rest else if j == 0 then idle else some j

abbrev pub start_of : Option ℕ → ℕ
start_of none = 0
start_of (some c) = c

unfoldable pub pick_next_ready : List Task → Option ℕ → Option ℕ
unfolding pick_from
pick_next_ready ts current = pick_from (length ts) (start_of current + 1) ts none

abbrev pub preempted : Task → Task
preempted t = if is_running t.state then record t { state = task_ready } else t

abbrev pub started : Task → Task
started t = record t { state = task_running; ticks_left = t.quantum }

-- `do_switch` up to `context_switch`; the address space and the stack of the processor follow.
unfoldable pub do_switch : Option ℕ → ℕ → Tasks → Tasks
do_switch prev next k =
    let ts = elim prev as (λ _. List Task) [
      | none ↦ k.tasks
      | some p ↦ set k.tasks p (preempted (task_at k.tasks p))
    ] in
    record k { tasks = set ts next (started (task_at ts next)); current = some next }

abbrev pub refilled : Task → Task
refilled t = record t { ticks_left = t.quantum }

-- The end of `scheduler_tick`: the quantum is used up or the task does not run any more.
unfoldable pub reschedule : Tasks → Tasks
unfolding pick_next_ready do_switch
reschedule k = elim (pick_next_ready k.tasks k.current) [
  | none ↦ k
  | some next ↦
      if is_current next k.current
      then update_task k next (refilled (task_at k.tasks next))
      else do_switch k.current next k
]

-- `ticks_left`, with one tick taken from it.
abbrev pub ticked : Task → Task
ticked t = record t { ticks_left = t.ticks_left - 1 }

-- `scheduler_tick` after the network and the block devices had their turn.
unfoldable pub scheduler_tick : Tasks → Tasks
unfolding wake_blocked_tasks reschedule
scheduler_tick k =
    let now = (k.sched_ticks + 1) % 2 ^ 64 in
    let k' = record k { sched_ticks = now; tasks = wake_blocked_tasks now k.tasks } in
    elim k.current [
      | none ↦ reschedule k'
      | some c ↦
          let t = task_at k'.tasks c in
          let k'' = update_task k' c (ticked t) in
          if not (is_running t.state)
          then reschedule k'
          else if ltb 0 (ticked t).ticks_left
          then k''
          else reschedule k''
    ]

-- What is blocked in `task_sleep_ticks`, `task_sleep_ms` and `task_block_on_keyboard`; each yields then.
abbrev pub sleeping : ℕ → ℕ → Task → Task
sleeping now ticks t = record t {
  wake_tick = (now + ticks) % 2 ^ 64;
  wait_task_id = pos 0;
  state = task_blocked;
}

unfoldable pub task_sleep_ticks : ℕ → Tasks → Tasks
task_sleep_ticks ticks k = elim k.current [
  | none ↦ k
  | some c ↦
      if ticks == 0 || c == 0
      then k
      else update_task k c (sleeping k.sched_ticks ticks (task_at k.tasks c))
]

unfoldable pub task_sleep_ms : ℕ → Tasks → Tasks
unfolding task_sleep_ticks
task_sleep_ms milliseconds k =
    let ticks = (milliseconds + 9) / 10 in task_sleep_ticks (if ticks == 0 then 1 else ticks) k

abbrev pub on_keyboard : ℤ
on_keyboard = neg 2

unfoldable pub task_block_on_keyboard : Tasks → ℤ × Tasks
task_block_on_keyboard k = elim k.current [
  | none ↦ (neg 1, k)
  | some c ↦
      let t = task_at k.tasks c in
      if c == 0 then (neg 1, k) else (
        pos 0,
        update_task k c
            (record t { wait_task_id = on_keyboard; wake_tick = 0; state = task_blocked }),
      )
]

abbrev pub waits_for_keyboard : ℤ → Bool
waits_for_keyboard (negsuc (suc zero)) = true
waits_for_keyboard _ = false

abbrev pub wake_typed : Task → Task
wake_typed t =
    if is_blocked t.state && waits_for_keyboard t.wait_task_id
    then record t { wait_task_id = pos 0; state = task_ready }
    else t

unfoldable pub task_wake_keyboard_waiters : Tasks → Tasks
task_wake_keyboard_waiters k = record k { tasks = map wake_typed k.tasks }
