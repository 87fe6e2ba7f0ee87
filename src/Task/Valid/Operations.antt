-- ===== src/Task/Valid/Operations.antt =====
-- Sleeping, the keyboard, waiting and creation in kernel/task.c, and the invariant of the task table; then
-- the operations on the table together.
use deanos.Task.Life.{
  reap_task_index, is_current, waitpid_round, sweep, task_waitpid, sweep_reapable_tasks, wait_for,
  WaitResult, task_create_named, new_task, parent_of, task_exit_with_status,
}
use deanos.Task.Sending.{task_setsid, task_setpgid, task_send_signal, task_send_signal_pgid}
use deanos.Task.Schedule.{
  task_wake_keyboard_waiters, task_block_on_keyboard, task_sleep_ticks, wake_typed, on_keyboard,
  sleeping, scheduler_tick,
}
use deanos.Prelude.{
  ℕ, ℤ, both_branches, Bool-cases, Option-cases, leb, inl, map, length, refl, inr, ◌||◌, arith, not,
  ◌<◌, ◌≡◌, false, if◌then◌else◌, ◌==◌, ap, sym, ◌∙◌, either_way, Bool, suc, pos, ◌+◌, zero, negsuc,
  true, List, Option, ◌%◌, ◌^◌, ◌≤◌, some, none, neg, ◌++◌, ◌∷◌, [], subst, if_split,
}
use deanos.Task.{
  Tasks, task_at, Task, update_task, is_dead, task_blocked, init_task_id, find_waitable_child_index,
  Effect, is_running, task_max, retain_mm,
}
use deanos.Task.Valid.{IsTaskTable, IsQuieter-IsTaskTable, map-IsQuieter}
use deanos.Task.Valid.Steps.{
  update_task-IsTaskTable, task_exit_with_status-IsTaskTable, scheduler_tick-IsTaskTable,
}
use deanos.Task.Valid.Removal.{remove_at-IsTaskTable, added-IsTaskTable}
use deanos.Task.Valid.Signals.{
  task_send_signal-IsTaskTable, task_send_signal_pgid-IsTaskTable, task_setpgid-IsTaskTable,
  task_setsid-IsTaskTable,
}

task_sleep_ticks-IsTaskTable :
    (ticks : ℕ) (k : Tasks) → IsTaskTable k → IsTaskTable (task_sleep_ticks ticks k)
unfolding task_sleep_ticks
task_sleep_ticks-IsTaskTable ticks k v = either_way IsTaskTable k.current v λ c.
    both_branches IsTaskTable _ v (
      update_task-IsTaskTable k c (sleeping k.sched_ticks ticks (task_at k.tasks c)) v
        (refl, λ h. absurd (cc)))

task_block_on_keyboard-IsTaskTable :
    (k : Tasks) → IsTaskTable k → IsTaskTable (task_block_on_keyboard k).1
unfolding task_block_on_keyboard
task_block_on_keyboard-IsTaskTable k v =
    let P : ℤ × Tasks → Type 0 = λ r. IsTaskTable r.1 in
    either_way P k.current v λ c.
      let self = task_at k.tasks c in
      let waiting = record self {
        wait_task_id = on_keyboard;
        wake_tick = 0;
        state = task_blocked;
      } in
      both_branches P _ v (update_task-IsTaskTable k c waiting v (refl, λ h. absurd (cc)))

task_wake_keyboard_waiters-IsTaskTable :
    (k : Tasks) → IsTaskTable k → IsTaskTable (task_wake_keyboard_waiters k)
unfolding task_wake_keyboard_waiters
task_wake_keyboard_waiters-IsTaskTable k v =
    IsQuieter-IsTaskTable k (map wake_typed k.tasks) k.sched_ticks k.effects v
      (map-IsQuieter wake_typed k.tasks (λ t. ground arith))

-- A task is reaped only if it is dead and not the running one.
reap_task_index-IsTaskTable :
    (i : ℕ) (k : Tasks) → IsTaskTable k → IsTaskTable (reap_task_index i k)
unfolding reap_task_index
reap_task_index-IsTaskTable i k v =
    elim (Bool-cases (
      leb (length k.tasks) i
      || is_current i k.current
      || not (is_dead (task_at k.tasks i).state))) [
        | inl kept ↦ rw kept v
        | inr gone ↦
            let lt : i < length k.tasks = ground arith in
            let not_running : is_current i k.current ≡ false = ground arith in
            rw gone (
              remove_at-IsTaskTable i k _ v lt (λ e.
                let clash : (i == i) ≡ false = ap (is_current i) (sym e) ∙ not_running in
                ground arith))
      ]

waitpid_round-IsTaskTable :
    (c : ℕ) (pid : ℤ) (nohang : Bool) (k : Tasks)
    → IsTaskTable k
    → IsTaskTable (waitpid_round c pid nohang k).1
unfolding waitpid_round
waitpid_round-IsTaskTable c pid nohang k v =
    let self = task_at k.tasks c in
    let blocked = record self {
      wait_task_id = wait_for pid;
      wake_tick = 0;
      state = task_blocked;
    } in
    let blocked_ok = update_task-IsTaskTable k c blocked v (refl, λ h. absurd (cc)) in
    let collected : ℕ → Task = λ i. record (task_at k.tasks i) { wait_collected = true } in
    let reaped : (i : ℕ) → IsTaskTable (reap_task_index i (update_task k i (collected i))) = λ i.
      reap_task_index-IsTaskTable i (update_task k i (collected i))
        (update_task-IsTaskTable k i (collected i) v (refl, λ h. h)) in
    elim (Option-cases (find_waitable_child_index k.tasks self.id pid)) [
      | inl no_child ↦ rw (waitpid_round, no_child) (ground (arith, blocked_ok))
      | inr (i, found) ↦ rw (waitpid_round, found) (reaped i)
    ]

task_waitpid-IsTaskTable :
    (pid : ℤ) (nohang : Bool) (k : Tasks)
    → IsTaskTable k
    → IsTaskTable (task_waitpid pid nohang k).1
unfolding task_waitpid
task_waitpid-IsTaskTable (pos zero) nohang k v =
    either_way (λ (r : WaitResult × Tasks). IsTaskTable r.1) k.current v (λ c. v)
task_waitpid-IsTaskTable (negsuc (suc n)) nohang k v =
    either_way (λ (r : WaitResult × Tasks). IsTaskTable r.1) k.current v (λ c. v)
task_waitpid-IsTaskTable (pos (suc n)) nohang k v =
    either_way (λ (r : WaitResult × Tasks). IsTaskTable r.1) k.current v
      (λ c. waitpid_round-IsTaskTable c (pos (suc n)) nohang k v)
task_waitpid-IsTaskTable (negsuc zero) nohang k v =
    either_way (λ (r : WaitResult × Tasks). IsTaskTable r.1) k.current v
      (λ c. waitpid_round-IsTaskTable c (negsuc zero) nohang k v)

sweep-IsTaskTable :
    (n i init_id : ℕ) (k : Tasks) → IsTaskTable k → IsTaskTable (sweep n i init_id k)
unfolding sweep
sweep-IsTaskTable zero i init_id k v = v
sweep-IsTaskTable (suc n) i init_id k v =
    both_branches IsTaskTable _
      (sweep-IsTaskTable n i init_id (reap_task_index i k) (reap_task_index-IsTaskTable i k v))
      (sweep-IsTaskTable n (i + 1) init_id k v)

sweep_reapable_tasks-IsTaskTable :
    (k : Tasks) → IsTaskTable k → IsTaskTable (sweep_reapable_tasks k)
unfolding sweep_reapable_tasks
sweep_reapable_tasks-IsTaskTable k v =
    sweep-IsTaskTable (length k.tasks) 0 (init_task_id k.tasks) k v

new_task-fresh :
    (p : Option Task) (id quantum cr3 stack : ℕ)
    → ((new_task p id quantum cr3 stack).id ≡ id)
      × (is_running (new_task p id quantum cr3 stack).state ≡ false)
new_task-fresh none id quantum cr3 stack = (refl, refl)
new_task-fresh (some p) id quantum cr3 stack = (refl, refl)

later-IsTaskTable :
    (k : Tasks) (next : ℕ) (es : List Effect)
    → IsTaskTable k
    → k.next_id ≤ next
    → IsTaskTable (record k { next_id = next; effects = es })
later-IsTaskTable k next es v le = record {
  few = v.few;
  current_in = v.current_in;
  one_runs = v.one_runs;
  distinct = v.distinct;
  fresh = λ i h. omega (arith, v.fresh i h);
}

sweep-next_id : (n i init_id : ℕ) (k : Tasks) → (sweep n i init_id k).next_id ≡ k.next_id
unfolding sweep reap_task_index
sweep-next_id zero i init_id k = refl
sweep-next_id (suc n) i init_id k =
    both_branches (λ (r : Tasks). r.next_id ≡ k.next_id) _
      (sweep-next_id n i init_id (reap_task_index i k)
        ∙ both_branches (λ (r : Tasks). r.next_id ≡ k.next_id) _ refl refl)
      (sweep-next_id n (i + 1) init_id k)

not_full : (n : ℕ) → leb task_max n ≡ false → n < task_max
not_full n h = ground arith

-- Where the counter of the ids does not wrap.
task_create_named-IsTaskTable :
    (has_entry : Bool) (quantum cr3 stack : ℕ) (k : Tasks)
    → IsTaskTable k
    → k.next_id + 1 < 2 ^ 32
    → IsTaskTable (task_create_named has_entry quantum cr3 stack k).1
unfolding task_create_named sweep_reapable_tasks
task_create_named-IsTaskTable has_entry quantum cr3 stack k v bound =
    let k' = if leb task_max (length k.tasks) then sweep_reapable_tasks k else k in
    let v' : IsTaskTable k' =
      both_branches IsTaskTable _ (sweep_reapable_tasks-IsTaskTable k v) v in
    let same : k'.next_id ≡ k.next_id =
      both_branches (λ (r : Tasks). r.next_id ≡ k.next_id) _
        (sweep-next_id (length k.tasks) 0 (init_task_id k.tasks) k) refl in
    let t = new_task (parent_of k') k'.next_id quantum cr3 stack in
    let is_new = new_task-fresh (parent_of k') k'.next_id quantum cr3 stack in
    let es = k'.effects ++ (retain_mm t.mm_cr3 ∷ []) in
    let next : (k'.next_id + 1) % 2 ^ 32 ≡ suc k'.next_id = omega (arith, same) in
    let k'' : Tasks = record k' { next_id = (k'.next_id + 1) % 2 ^ 32; effects = es } in
    let v'' : IsTaskTable k'' =
      later-IsTaskTable k' ((k'.next_id + 1) % 2 ^ 32) es v' (omega (arith, next)) in
    let P : ℤ × Tasks → Type 0 = λ r. IsTaskTable r.1 in
    let made : ℤ × Tasks = (pos t.id, record k'' { tasks = k''.tasks ++ (t ∷ []) }) in
    let stacked : ℤ × Tasks = if stack == 0 then (neg 3, k'') else made in
    let added : length k'.tasks < task_max → IsTaskTable made.1 = λ room.
      subst
        (λ (n : ℕ).
          IsTaskTable (record k' { tasks = k'.tasks ++ (t ∷ []); next_id = n; effects = es }))
        (sym next) (added-IsTaskTable t k' es v' room is_new.0 is_new.1) in
    let tried : ℤ × Tasks = if leb task_max (length k'.tasks) then (neg 2, k') else stacked in
    both_branches P (not has_entry) {x = (neg 1, k)} {y = tried} v (
      if_split P (leb task_max (length k'.tasks)) {x = (neg 2, k')} {y = stacked} (λ full. v')
        (λ room.
          both_branches P (stack == 0) {x = (neg 3, k'')} {y = made} v''
            (added (not_full (length k'.tasks) room))))

-- While a task runs and the counter of the ids does not wrap, each of these operations of the task table
-- keeps its invariant: a tick of the scheduler, creation, exit, a round of waitpid, signals to a task and
-- to a group, setpgid, setsid, sleeping, blocking on the keyboard and waking from it. By the invariant the
-- table fits its array, the running task is in it and no other one runs, and no two tasks have one id,
-- nor one that is still to be given out.
pub operations-IsTaskTable :
    (k : Tasks) (c : ℕ) (pid : ℤ) (sig pgid status ticks quantum cr3 stack : ℕ)
    (nohang has_entry : Bool)
    → IsTaskTable k
    → k.current ≡ some c
    → k.next_id + 1 < 2 ^ 32
    → IsTaskTable (scheduler_tick k)
      × IsTaskTable (task_create_named has_entry quantum cr3 stack k).1
      × IsTaskTable (task_exit_with_status status k)
      × IsTaskTable (task_waitpid pid nohang k).1
      × IsTaskTable (task_send_signal pid sig k).1
      × IsTaskTable (task_send_signal_pgid pgid sig k).1
      × IsTaskTable (task_setpgid pid pgid k).1
      × IsTaskTable (task_setsid k).1
      × IsTaskTable (task_sleep_ticks ticks k)
      × IsTaskTable (task_block_on_keyboard k).1
      × IsTaskTable (task_wake_keyboard_waiters k)
operations-IsTaskTable k c pid sig pgid status ticks quantum cr3 stack nohang has_entry v e bound =
    (
      scheduler_tick-IsTaskTable k c v e,
      task_create_named-IsTaskTable has_entry quantum cr3 stack k v bound,
      task_exit_with_status-IsTaskTable status k v,
      task_waitpid-IsTaskTable pid nohang k v,
      task_send_signal-IsTaskTable pid sig k v,
      task_send_signal_pgid-IsTaskTable pgid sig k v,
      task_setpgid-IsTaskTable pid pgid k v,
      task_setsid-IsTaskTable k v,
      task_sleep_ticks-IsTaskTable ticks k v,
      task_block_on_keyboard-IsTaskTable k v,
      task_wake_keyboard_waiters-IsTaskTable k v,
    )
