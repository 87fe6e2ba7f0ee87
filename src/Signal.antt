-- ===== src/Signal.antt =====
-- kernel/signal.c: the dispositions of the running task, the call of a handler on the way back to user
-- mode, and the return from it.
--
-- A call changes the running task, the saved registers of the interrupt, and two words on the user's
-- stack: the address and the values of that write are `frame`.
pub mod Delivery
mod Examples
use deanos.Prelude.{
  ℤ, ℕ, suc, get_or, Bool, ◌&&◌, none, Option, if◌then◌else◌, ◌+◌, ◌^◌, not, zero, ◌==◌, neg, ◌%◌,
  ◌-◌, ltb, pos, ◌||◌, some, false, true, set, leb,
}
use deanos.Task.{
  drop_signal, has_signal, Task, Registers, ksig_max, raise_signal, sigkill, is_dead, sigchld,
}
use deanos.Task.Sending.{signal_is_supported}

abbrev pub signal_can_install_handler : ℕ → Bool
signal_can_install_handler sig = signal_is_supported sig && not (sig == sigkill)

-- `signal_pick_pending`, over the `n` signals from `sig` on; 0 is no signal.
unfoldable pub pick_pending_from : ℕ → ℕ → ℕ → ℕ
unfolding has_signal
pick_pending_from zero sig pending = 0
pick_pending_from (suc n) sig pending =
    let rest = pick_pending_from n (sig + 1) pending in if has_signal pending sig then sig else rest

unfoldable pub signal_pick_pending : ℕ → ℕ
unfolding pick_pending_from
signal_pick_pending pending = pick_pending_from ksig_max 1 pending

-- ksigaction_t
pub record Action : Type 0 where
  pub sa_handler : ℕ
  pub sa_restorer : ℕ

abbrev pub current_action : Task → ℕ → Action
current_action t sig = record {
  sa_handler = get_or t.signal_handlers sig 0;
  sa_restorer = get_or t.signal_restorers sig 0;
}

-- The result, the old action where the source stores it, and the task.
unfoldable pub signal_set_action_current : ℕ → Option Action → Task → ℤ × Option Action × Task
unfolding signal_is_supported raise_signal drop_signal
signal_set_action_current sig none t =
    if not (signal_is_supported sig)
    then (neg 1, none, t)
    else (pos 0, some (current_action t sig), t)
signal_set_action_current sig (some a) t =
    let t' = record t {
      signal_handlers = set t.signal_handlers sig a.sa_handler;
      signal_restorers =
          set t.signal_restorers sig (if ltb 1 a.sa_handler then a.sa_restorer else 0);
    } in
    if not (signal_is_supported sig)
    then (neg 1, none, t)
    else if not (signal_can_install_handler sig)
    then (neg 1, some (current_action t sig), t)
    else if ltb 1 a.sa_handler && a.sa_restorer == 0
    then (neg 1, some (current_action t sig), t)
    else if a.sa_handler == 1
    then (
      pos 0,
      some (current_action t sig),
      record t' {
        ignored_signals = raise_signal t.ignored_signals sig;
        pending_signals = drop_signal t.pending_signals sig;
      },
    )
    else (
      pos 0,
      some (current_action t sig),
      record t' { ignored_signals = drop_signal t.ignored_signals sig },
    )

-- The two words that a call puts at `at`: the restorer and the signal.
pub record Frame : Type 0 where
  pub at : ℕ
  pub restorer : ℕ
  pub sig : ℕ

pub record Dispatched : Type 0 where
  pub result : ℤ
  pub task : Task
  pub regs : Registers
  pub frame : Option Frame

abbrev pub dispatched : ℤ → Task → Registers → Dispatched
dispatched rc t regs = record { result = rc; task = t; regs = regs; frame = none }

abbrev pub without_signal : Task → ℕ → Task
without_signal t sig = record t { pending_signals = drop_signal t.pending_signals sig }

-- The call of a handler, from the check of the stack on. `access_ok` is `paging_access_ok` for 8 bytes
-- that are written.
unfoldable pub enter_handler : (ℕ → Bool) → ℕ → Task → Registers → Dispatched
unfolding drop_signal raise_signal
enter_handler access_ok sig t regs =
    let a = current_action t sig in
    let new_sp = (regs.useresp + (2 ^ 32 - 8)) % 2 ^ 32 in
    if ltb regs.useresp new_sp || not (access_ok new_sp)
    then dispatched (pos 0) (record t { pending_signals = raise_signal t.pending_signals sig }) regs
    else record {
      result = pos 1;
      task = record (without_signal t sig) {
        signal_saved_regs = regs;
        signal_in_handler = true;
        signal_active = sig;
      };
      regs = record regs { useresp = new_sp; eip = a.sa_handler };
      frame = some (record { at = new_sp; restorer = a.sa_restorer; sig = sig });
    }

-- What is done with the pending signal `sig`.
unfoldable pub dispatch_signal : (ℕ → Bool) → ℕ → Task → Registers → Dispatched
unfolding enter_handler has_signal drop_signal
dispatch_signal access_ok sig t regs =
    let a = current_action t sig in
    if has_signal t.ignored_signals sig || a.sa_handler == 1
    then dispatched (pos 1) (without_signal t sig) regs
    else if leb a.sa_handler 1
    then (if sig == sigchld
        then dispatched (pos 1) (without_signal t sig) regs
        else dispatched (pos 0) t regs)
    else if a.sa_restorer == 0
    then dispatched (pos 0) (without_signal t sig) regs
    else enter_handler access_ok sig t regs

unfoldable pub signal_dispatch_current : (ℕ → Bool) → Task → Registers → Dispatched
unfolding signal_pick_pending dispatch_signal
signal_dispatch_current access_ok t regs =
    let sig = signal_pick_pending t.pending_signals in
    if not (regs.cs % 4 == 3)
    then dispatched (pos 0) t regs
    else if is_dead t.state
    then dispatched (pos 0) t regs
    else if t.signal_in_handler
    then dispatched (pos 0) t regs
    else if sig == 0
    then dispatched (pos 0) t regs
    else dispatch_signal access_ok sig t regs

unfoldable pub signal_sigreturn_current : Task → Registers → ℤ × Task × Registers
signal_sigreturn_current t regs =
    if not t.signal_in_handler
    then (neg 1, t, regs)
    else (pos 0, record t { signal_in_handler = false; signal_active = 0 }, t.signal_saved_regs)
