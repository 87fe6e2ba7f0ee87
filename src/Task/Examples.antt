-- ===== src/Task/Examples.antt =====
-- The theorems about kernel/task.c at a table of three tasks, of which the first idles.
use deanos.Task.Turns.{TakesTurn, pick_next_ready-TakesTurn}
use deanos.Prelude.{ℕ, List, ◌<◌, some, arith, [], ◌∷◌, ◌≡◌, refl, true, pos, suc, false, ap, zero}
use deanos.Task.{Tasks, Task, TaskState, is_running, task_ready, no_task, task_at, task_running}
use deanos.Task.Valid.{IsTaskTable}
use deanos.Task.Schedule.{
  scheduler_tick, start_of, task_sleep_ticks, task_block_on_keyboard, task_wake_keyboard_waiters,
}
use deanos.Task.Life.{task_create_named, task_exit_with_status, task_waitpid}
use deanos.Task.Sending.{task_send_signal, task_send_signal_pgid, task_setpgid, task_setsid}
use deanos.Task.Valid.Operations.{operations-IsTaskTable}

abbrev task_of : ℕ → TaskState → Task
task_of id state = record no_task {
  id = id;
  parent_id = 1;
  state = state;
  quantum = 5;
  sid = 1;
  pgid = 1;
}

abbrev three_tasks : List Task
three_tasks = task_of 1 task_ready ∷ task_of 2 task_running ∷ task_of 3 task_ready ∷ []

abbrev running_system : Tasks
running_system = record {
  tasks = three_tasks;
  current = some 1;
  next_id = 4;
  sched_ticks = 100;
  effects = [];
}

running_system-IsTaskTable : IsTaskTable running_system
running_system-IsTaskTable = record {
  few = omega arith;
  current_in = λ c e. omega (arith, ap start_of e);
  one_runs = one;
  distinct = apart;
  fresh = below;
}
  where
    one : (i : ℕ) → i < 3 → is_running (task_at three_tasks i).state ≡ true → some 1 ≡ some i
    one zero h e = absurd (cc)
    one (suc zero) h e = refl
    one (suc (suc zero)) h e = absurd (cc)
    one (suc (suc (suc i))) h e = absurd (omega arith)

    id_is : (i : ℕ) → i < 3 → (task_at three_tasks i).id ≡ suc i
    id_is zero h = refl
    id_is (suc zero) h = refl
    id_is (suc (suc zero)) h = refl
    id_is (suc (suc (suc i))) h = absurd (omega arith)

    apart :
        (i j : ℕ) → i < 3 → j < 3 → (task_at three_tasks i).id ≡ (task_at three_tasks j).id → i ≡ j
    apart i j hi hj e = omega (arith, id_is i hi, id_is j hj)

    below : (i : ℕ) → i < 3 → (task_at three_tasks i).id < 4
    below i h = omega (arith, id_is i h)

pick_next_ready-TakesTurn_example : TakesTurn three_tasks 1 2
pick_next_ready-TakesTurn_example =
    pick_next_ready-TakesTurn three_tasks 1 2 (omega arith) (omega arith) (omega arith) refl

operations-IsTaskTable_example :
    IsTaskTable (scheduler_tick running_system)
    × IsTaskTable (task_create_named true 5 0 4096 running_system).1
    × IsTaskTable (task_exit_with_status 0 running_system)
    × IsTaskTable (task_waitpid (pos 3) false running_system).1
    × IsTaskTable (task_send_signal (pos 3) 9 running_system).1
    × IsTaskTable (task_send_signal_pgid 1 9 running_system).1
    × IsTaskTable (task_setpgid (pos 3) 1 running_system).1
    × IsTaskTable (task_setsid running_system).1
    × IsTaskTable (task_sleep_ticks 10 running_system)
    × IsTaskTable (task_block_on_keyboard running_system).1
    × IsTaskTable (task_wake_keyboard_waiters running_system)
operations-IsTaskTable_example =
    operations-IsTaskTable running_system 1 (pos 3) 9 1 0 10 5 0 4096 false true
      running_system-IsTaskTable refl (omega arith)
