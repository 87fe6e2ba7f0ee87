-- ===== src/Signal/Examples.antt =====
-- The theorems about kernel/signal.c at a task with a handler and a pending signal.
use deanos.Signal.{
  signal_dispatch_current, signal_pick_pending, pick_pending_from, enter_handler, dispatch_signal,
}
use deanos.Task.{Task, Registers, no_task, has_signal}
use deanos.Prelude.{ℕ, true, [], set, replicate, bit_test, ◌≡◌, refl}

abbrev handler_at : ℕ
handler_at = 0x40_1000

abbrev waiting_task : Task
waiting_task = record no_task {
  id = 3;
  pending_signals = 0x4000;
  signal_handlers = set (replicate 32 0) 15 handler_at;
  signal_restorers = set (replicate 32 0) 15 0x40_2000;
}

abbrev in_user_mode : Registers
in_user_mode = record { eip = 0x40_0010; useresp = 0xb000_0000; cs = 0x1b; others = [] }

-- The handler is called.
dispatched_pc :
    (signal_dispatch_current (λ p. true) waiting_task in_user_mode).regs.eip ≡ handler_at
unfolding signal_dispatch_current signal_pick_pending pick_pending_from dispatch_signal
    enter_handler has_signal bit_test
dispatched_pc = refl
