-- ===== src/Signal/Delivery.antt =====
-- A handler of kernel/signal.c is called with the state saved, and the return from it restores that.
use deanos.Signal.{Frame, Dispatched, signal_sigreturn_current, without_signal, signal_pick_pending}
use deanos.Task.{Task, Registers, has_signal, is_dead, raise_signal, drop_signal}
use deanos.Prelude.{
  ℕ, ◌≡◌, true, ◌≤◌, ◌<◌, false, get_or, ◌+◌, pos, ◌==◌, none, Bool, ◌⊎◌, some, ◌-◌, ◌%◌, ltb, not,
  leb, ◌&&◌,
}

-- Whether the way back to user mode calls the handler of the pending signal `sig`: the registers are those
-- of user mode, the task lives and is in no handler, the signal is not ignored and has a handler and a
-- restorer, and the 8 bytes below the stack pointer can be written.
abbrev pub may_call : (ℕ → Bool) → Task → Registers → ℕ → Bool
may_call access_ok t regs sig =
    regs.cs % 4 == 3
    && not (is_dead t.state)
    && not t.signal_in_handler
    && not (has_signal t.ignored_signals sig)
    && ltb 1 (get_or t.signal_handlers sig 0)
    && not (get_or t.signal_restorers sig 0 == 0)
    && leb 8 regs.useresp
    && access_ok (regs.useresp - 8)

-- The call of a handler for `sig`, as the return from it sees it.
pub record Entered (access_ok : ℕ → Bool) (t : Task) (regs : Registers) (f : Frame) (d : Dispatched)
    : Type 0 where
  pub pending : has_signal t.pending_signals f.sig ≡ true
  pub first : (s : ℕ) → 1 ≤ s → s < f.sig → has_signal t.pending_signals s ≡ false
  pub allowed : may_call access_ok t regs f.sig ≡ true
  pub handler : d.regs.eip ≡ get_or t.signal_handlers f.sig 0
  pub restorer : f.restorer ≡ get_or t.signal_restorers f.sig 0
  pub below : f.at + 8 ≡ regs.useresp
  pub stack : d.regs.useresp ≡ f.at
  pub undone : signal_sigreturn_current d.task d.regs ≡ (
    pos 0,
    record (without_signal t f.sig) {
      signal_saved_regs = regs;
      signal_in_handler = false;
      signal_active = 0;
    },
    regs,
  )

-- The pending signals stay, or the lowest one, `sig`, is taken off or set again.
abbrev pub MayBecome : (sig pending pending' : ℕ) → Type 0
MayBecome sig pending pending' =
    (pending' ≡ pending)
    ⊎ ((pending' ≡ drop_signal pending sig) ⊎ (pending' ≡ raise_signal pending sig))

-- No handler is called, as no signal is pending or the lowest one may not be: registers and stack stay, and
-- of the task at most the lowest signal's place among the pending ones changes.
pub record Skipped (access_ok : ℕ → Bool) (t : Task) (regs : Registers) (d : Dispatched)
    : Type 0 where
  pub reason :
      (signal_pick_pending t.pending_signals ≡ 0)
      ⊎ (may_call access_ok t regs (signal_pick_pending t.pending_signals) ≡ false)
  pub no_frame : d.frame ≡ none
  pub same_regs : d.regs ≡ regs
  pub same_task : d.task ≡ record t { pending_signals = d.task.pending_signals }
  pub signals :
      MayBecome (signal_pick_pending t.pending_signals) t.pending_signals d.task.pending_signals

-- What may come of the way back to user mode.
abbrev pub IsUndoable : (ℕ → Bool) → Task → Registers → Dispatched → Type 0
IsUndoable access_ok t regs d =
    Skipped access_ok t regs d ⊎ ((f : Frame) × (d.frame ≡ some f) × Entered access_ok t regs f d)

module _ (access_ok : ℕ → Bool) (t : Task) (regs : Registers) where
  sig : ℕ
  sig = signal_pick_pending t.pending_signals
