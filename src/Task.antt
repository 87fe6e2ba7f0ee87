-- ===== src/Task.antt =====
-- kernel/task.c: the task table, the scheduler, waiting and exiting, and sending signals.
--
-- The table is the list of its first g_task_count entries. g_current is `none` for -1. What the code
-- asks of other parts (closing a file node, giving back an address space, freeing memory) is kept in
-- `effects`, in order. Ids and ticks are the numbers of the source; an id fits an int.
pub mod Life
pub mod Schedule
pub mod Sending
pub mod Turns
pub mod Valid
mod Examples
use deanos.Prelude.{
  [], find_first, bit_test, bit_set, ℕ, pos, false, bit_clear, Bool, List, ℤ, set, Option, true,
  ◌==◌, get_or, ◌&&◌, ◌++◌, ltb, ◌-◌, replicate, ◌∷◌, if◌then◌else◌, ◌+◌, not, negsuc, ◌||◌, none,
  some,
}

pub data TaskState : Type 0 where
  task_ready task_running task_blocked task_dead : TaskState

abbrev pub is_ready : TaskState → Bool
is_ready task_ready = true
is_ready _ = false

abbrev pub is_running : TaskState → Bool
is_running task_running = true
is_running _ = false

abbrev pub is_blocked : TaskState → Bool
is_blocked task_blocked = true
is_blocked _ = false

abbrev pub is_dead : TaskState → Bool
is_dead task_dead = true
is_dead _ = false

-- task_fd_t; a node is the number of its object.
pub record Fd : Type 0 where
  pub node : ℕ
  pub offset : ℕ
  pub open_flags : ℕ
  pub fd_flags : ℕ
  pub in_use : Bool

abbrev pub no_fd : Fd
no_fd = record { node = 0; offset = 0; open_flags = 0; fd_flags = 0; in_use = false }

-- The registers that a signal changes, and the others in a list.
pub record Registers : Type 0 where
  pub eip : ℕ
  pub useresp : ℕ
  pub cs : ℕ
  pub others : List ℕ

-- task_t, without the kernel stack's contents, the mappings and the fork frame.
pub record Task : Type 0 where
  pub id : ℕ
  pub parent_id : ℕ
  pub state : TaskState
  pub quantum : ℕ
  pub ticks_left : ℕ
  pub wake_tick : ℕ
  pub wait_task_id : ℤ
  pub exit_status : ℕ
  pub pending_signals : ℕ
  pub ignored_signals : ℕ
  pub signal_handlers : List ℕ
  pub signal_restorers : List ℕ
  pub signal_in_handler : Bool
  pub signal_active : ℕ
  pub signal_saved_regs : Registers
  pub term_signal : ℕ
  pub wait_collected : Bool
  pub kstack_base : ℕ
  pub mm_cr3 : ℕ
  pub sid : ℕ
  pub pgid : ℕ
  pub uid : ℕ
  pub gid : ℕ
  pub fds : List Fd

pub data Effect : Type 0 where
  close_node retain_mm release_mm free_memory clear_mappings : ℕ → Effect

pub record Tasks : Type 0 where
  pub tasks : List Task
  pub current : Option ℕ
  pub next_id : ℕ
  pub sched_ticks : ℕ
  pub effects : List Effect

abbrev pub task_max : ℕ
task_max = 32

abbrev pub task_max_fds : ℕ
task_max_fds = 64

abbrev pub ksig_max : ℕ
ksig_max = 31

abbrev pub no_registers : Registers
no_registers = record { eip = 0; useresp = 0; cs = 0; others = [] }

abbrev pub no_task : Task
no_task = record {
  id = 0;
  parent_id = 0;
  state = task_ready;
  quantum = 0;
  ticks_left = 0;
  wake_tick = 0;
  wait_task_id = pos 0;
  exit_status = 0;
  pending_signals = 0;
  ignored_signals = 0;
  signal_handlers = replicate (ksig_max + 1) 0;
  signal_restorers = replicate (ksig_max + 1) 0;
  signal_in_handler = false;
  signal_active = 0;
  signal_saved_regs = no_registers;
  term_signal = 0;
  wait_collected = false;
  kstack_base = 0;
  mm_cr3 = 0;
  sid = 0;
  pgid = 0;
  uid = 0;
  gid = 0;
  fds = replicate task_max_fds no_fd;
}

abbrev pub task_at : List Task → ℕ → Task
task_at ts i = get_or ts i no_task

-- `(int)t->id == id`
abbrev pub has_id : ℤ → Task → Bool
has_id (pos n) t = t.id == n
has_id (negsuc n) t = false

abbrev pub is_positive : ℤ → Bool
is_positive (pos n) = ltb 0 n
is_positive (negsuc n) = false

-- `none` is the source's -1, here and in the other searches.
unfoldable pub find_task_index_by_id : List Task → ℤ → Option ℕ
unfolding find_first
find_task_index_by_id ts id = if is_positive id then find_first (has_id id) ts else none

unfoldable pub is_task_dead_or_missing : List Task → ℤ → Bool
unfolding find_first
is_task_dead_or_missing ts id = elim (find_first (has_id id) ts) [
  | none ↦ true
  | some i ↦ is_dead (task_at ts i).state
]

-- The tests of `has_child_for_wait` and `find_waitable_child_index`.
abbrev pub is_child : ℕ → ℤ → Task → Bool
is_child parent_id pid_filter t =
    t.parent_id == parent_id && (not (is_positive pid_filter) || has_id pid_filter t)

abbrev pub is_waitable : ℕ → ℤ → Task → Bool
is_waitable parent_id pid_filter t =
    is_child parent_id pid_filter t && (is_dead t.state && not t.wait_collected)

abbrev pub is_awaited : ℕ → ℤ → Task → Bool
is_awaited parent_id pid_filter t =
    is_child parent_id pid_filter t && not (is_dead t.state && t.wait_collected)

unfoldable pub has_child_for_wait : List Task → ℕ → ℤ → Bool
unfolding find_first
has_child_for_wait ts parent_id pid_filter =
    elim (find_first (is_awaited parent_id pid_filter) ts) [ none ↦ false | some i ↦ true ]

unfoldable pub find_waitable_child_index : List Task → ℕ → ℤ → Option ℕ
unfolding find_first
find_waitable_child_index ts parent_id pid_filter = find_first (is_waitable parent_id pid_filter) ts

-- The id of the idle task, which stands first.
abbrev pub init_task_id : List Task → ℕ
init_task_id [] = 1
init_task_id (t ∷ ts) = t.id

-- `g_tasks[i] = ...` for one task.
abbrev pub update_task : Tasks → ℕ → Task → Tasks
update_task k i t = record k { tasks = set k.tasks i t }

abbrev pub act : Tasks → List Effect → Tasks
act k es = record k { effects = k.effects ++ es }

abbrev pub sigint : ℕ
sigint = 2

abbrev pub sigkill : ℕ
sigkill = 9

abbrev pub sigterm : ℕ
sigterm = 15

abbrev pub sigchld : ℕ
sigchld = 17

-- `mask | KSIG_BIT(sig)`
unfoldable pub raise_signal : ℕ → ℕ → ℕ
unfolding bit_set
raise_signal mask sig = bit_set mask (sig - 1)

-- `mask & ~KSIG_BIT(sig)`
unfoldable pub drop_signal : ℕ → ℕ → ℕ
unfolding bit_clear
drop_signal mask sig = bit_clear mask (sig - 1)

-- `mask & KSIG_BIT(sig)`
unfoldable pub has_signal : ℕ → ℕ → Bool
unfolding bit_test
has_signal mask sig = bit_test mask (sig - 1)
