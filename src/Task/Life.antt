-- ===== src/Task/Life.antt =====
-- kernel/task.c: creating a task, its end, and collecting it.
use deanos.Task.{
  Fd, Tasks, find_task_index_by_id, find_waitable_child_index, raise_signal, task_at, Effect,
  has_child_for_wait, Task, is_positive, init_task_id, no_task, is_dead, no_fd, close_node,
  task_dead, update_task, task_max, clear_mappings, sigchld, task_blocked, release_mm, free_memory,
  retain_mm,
}
use deanos.Prelude.{
  Option, ℕ, ℤ, List, some, if◌then◌else◌, suc, Bool, ◌∷◌, length, ◌==◌, false, map, leb, [], pos,
  ◌+◌, ltb, ◌-◌, ◌++◌, ◌&&◌, none, ◌||◌, zero, neg, negsuc, ◌%◌, set, not, true, ◌^◌,
}

-- `reparent_children`
abbrev pub reparent : ℕ → ℕ → Task → Task
reparent old new t = if t.parent_id == old then record t { parent_id = new } else t

unfoldable pub reparent_children : ℕ → ℕ → List Task → List Task
reparent_children old new ts = map (reparent old new) ts

-- `task_fd_table_close_all`: the nodes that are closed, and the table after.
abbrev pub closed_nodes : List Fd → List Effect
closed_nodes [] = []
closed_nodes (f ∷ fs) = if f.in_use then close_node f.node ∷ closed_nodes fs else closed_nodes fs

abbrev pub close_fd : Fd → Fd
close_fd f = if f.in_use then no_fd else f

unfoldable pub notify_parent_sigchld : ℕ → List Task → List Task
unfolding find_task_index_by_id raise_signal
notify_parent_sigchld parent_id ts = elim (find_task_index_by_id ts (pos parent_id)) [
  | none ↦ ts
  | some i ↦
      let t = task_at ts i in
      set ts i (record t { pending_signals = raise_signal t.pending_signals sigchld })
]

-- The fields that the end of a task sets; its mappings and its address space are given back.
abbrev pub ended : ℕ → ℕ → Task → Task
ended status term_sig t = record t {
  fds = map close_fd t.fds;
  mm_cr3 = 0;
  wake_tick = 0;
  wait_task_id = pos 0;
  exit_status = status;
  term_signal = term_sig;
  pending_signals = 0;
  signal_in_handler = false;
  signal_active = 0;
  wait_collected = false;
  state = task_dead;
}

unfoldable pub mark_task_dead_index : ℕ → ℕ → ℕ → Tasks → Tasks
unfolding reparent_children notify_parent_sigchld
mark_task_dead_index i status term_sig k =
    let t = task_at k.tasks i in
    let ts = reparent_children t.id (init_task_id k.tasks) k.tasks in
    let dying = task_at ts i in
    let given_back =
      closed_nodes dying.fds ++ (clear_mappings t.id ∷ release_mm dying.mm_cr3 ∷ []) in
    let ts' = notify_parent_sigchld t.parent_id (set ts i (ended status term_sig dying)) in
    if leb (length k.tasks) i || is_dead t.state
    then k
    else record k { tasks = ts'; effects = k.effects ++ given_back }

abbrev pub remove_at {ℓ} : {A : Type ℓ} → ℕ → List A → List A
remove_at i [] = []
remove_at zero (x ∷ xs) = xs
remove_at (suc i) (x ∷ xs) = x ∷ remove_at i xs

-- g_current after the entries behind `i` have moved down.
abbrev pub current_after_reap : ℕ → Option ℕ → Option ℕ
current_after_reap i none = none
current_after_reap i (some c) = if ltb i c then some (c - 1) else some c

abbrev pub is_current : ℕ → Option ℕ → Bool
is_current i none = false
is_current i (some c) = i == c

unfoldable pub reap_task_index : ℕ → Tasks → Tasks
reap_task_index i k =
    let t = task_at k.tasks i in
    if leb (length k.tasks) i || is_current i k.current || not (is_dead t.state)
    then k
    else record k {
      tasks = remove_at i k.tasks;
      current = current_after_reap i k.current;
      effects =
          if t.kstack_base == 0 then k.effects else k.effects ++ (free_memory t.kstack_base ∷ []);
    }

-- Entries that a sweep gives back.
abbrev pub is_reapable : ℕ → Task → Bool
is_reapable init_id t =
    is_dead t.state && (not (t.id == init_id) && (t.wait_collected || t.parent_id == init_id))

-- The loop of `sweep_reapable_tasks` over the `n` entries from `i` on: the entry that moves into the
-- place of one that was reaped is next. The entry of the running task is never dead there.
unfoldable pub sweep : ℕ → ℕ → ℕ → Tasks → Tasks
unfolding reap_task_index
sweep zero i init_id k = k
sweep (suc n) i init_id k =
    let reaped = sweep n i init_id (reap_task_index i k) in
    let next = sweep n (i + 1) init_id k in
    if is_reapable init_id (task_at k.tasks i) then reaped else next

unfoldable pub sweep_reapable_tasks : Tasks → Tasks
unfolding sweep
sweep_reapable_tasks k = sweep (length k.tasks) 0 (init_task_id k.tasks) k

-- What `task_create_named` takes from the task that runs; the first task has defaults.
abbrev pub parent_of : Tasks → Option Task
parent_of k = elim k.current [ none ↦ none | some c ↦ some (task_at k.tasks c) ]

abbrev pub new_task : Option Task → (id quantum cr3 stack : ℕ) → Task
new_task none id quantum cr3 stack = record no_task {
  id = id;
  quantum = if quantum == 0 then 5 else quantum;
  ticks_left = if quantum == 0 then 5 else quantum;
  mm_cr3 = cr3;
  sid = id;
  pgid = id;
  kstack_base = stack;
}
new_task (some p) id quantum cr3 stack = record no_task {
  id = id;
  parent_id = p.id;
  quantum = if quantum == 0 then 5 else quantum;
  ticks_left = if quantum == 0 then 5 else quantum;
  mm_cr3 = p.mm_cr3;
  sid = p.sid;
  pgid = p.pgid;
  uid = p.uid;
  gid = p.gid;
  kstack_base = stack;
}

-- `has_entry` says that `entry` is not NULL, `stack` is what `kmalloc` gives for the kernel stack, 0 for NULL, and `cr3` is
-- `paging_current_cr3()`. Without a stack the id is used up and the address space stays retained.
unfoldable pub task_create_named : (has_entry : Bool) → (quantum cr3 stack : ℕ) → Tasks → ℤ × Tasks
unfolding sweep_reapable_tasks
task_create_named has_entry quantum cr3 stack k =
    let k' = if leb task_max (length k.tasks) then sweep_reapable_tasks k else k in
    let t = new_task (parent_of k') k'.next_id quantum cr3 stack in
    let k'' = record k' {
      next_id = (k'.next_id + 1) % 2 ^ 32;
      effects = k'.effects ++ (retain_mm t.mm_cr3 ∷ []);
    } in
    if not has_entry
    then (neg 1, k)
    else if leb task_max (length k'.tasks)
    then (neg 2, k')
    else if stack == 0
    then (neg 3, k'')
    else (pos t.id, record k'' { tasks = k''.tasks ++ (t ∷ []) })

-- `task_exit_with_status` up to the yield that does not come back.
unfoldable pub task_exit_with_status : ℕ → Tasks → Tasks
unfolding mark_task_dead_index
task_exit_with_status status k = elim k.current [
  | none ↦ k
  | some c ↦ mark_task_dead_index c status 0 k
]

-- One round of `task_waitpid`: it returns a code, with the status if it collected a child, or it
-- blocks and yields, and the next round starts when the task runs again.
pub data WaitResult : Type 0 where
  returns : ℤ → Option ℕ → WaitResult
  blocks : WaitResult

abbrev pub wait_for : ℤ → ℤ
wait_for pid = if is_positive pid then pid else neg 1

unfoldable pub waitpid_round : ℕ → ℤ → Bool → Tasks → WaitResult × Tasks
unfolding find_waitable_child_index has_child_for_wait reap_task_index
waitpid_round c pid nohang k =
    let self = task_at k.tasks c in
    elim (find_waitable_child_index k.tasks self.id pid) [
      | some i ↦
          let child = task_at k.tasks i in
          (
            returns (pos child.id) (some child.exit_status),
            reap_task_index i (update_task k i (record child { wait_collected = true })),
          )
      | none ↦
          if not (has_child_for_wait k.tasks self.id pid)
          then (returns (neg 3) none, k)
          else if nohang
          then (returns (pos 0) none, k)
          else (
            blocks,
            update_task k c
                (record self { wait_task_id = wait_for pid; wake_tick = 0; state = task_blocked }),
          )
    ]

unfoldable pub task_waitpid : ℤ → Bool → Tasks → WaitResult × Tasks
unfolding waitpid_round
task_waitpid pid nohang k = elim k.current [
  | none ↦ (returns (neg 1) none, k)
  | some c ↦
      let round = waitpid_round c pid nohang k in
      elim pid [
        | pos zero ↦ (returns (neg 2) none, k)
        | pos (suc n) ↦ round
        | negsuc zero ↦ round
        | negsuc (suc n) ↦ (returns (neg 2) none, k)
      ]
]
