-- ===== src/Klog/Examples.antt =====
-- Examples about kernel/log.c.
use deanos.Klog.History.{Holds, klog-Holds, klog_read-Holds}
use deanos.Prelude.{List, ℕ, [], replicate, ◌≡◌, length-replicate, ◌∷◌, arith, refl}
use deanos.Klog.{klog_read, Log, klog}

abbrev empty_log : Log
empty_log = record { buf = replicate 4096 0; head = 0 }

empty_log-Holds : Holds empty_log []
empty_log-Holds = record {
  ring = length-replicate {A = ℕ} 4096 0;
  all = refl;
  bounded = omega arith;
  kept = λ i h near. absurd (omega arith);
}

-- "up"
abbrev up : List ℕ
up = 117 ∷ 112 ∷ []

klog-Holds_example : Holds (klog up empty_log) (117 ∷ 112 ∷ 10 ∷ [])
klog-Holds_example = klog-Holds up empty_log [] empty_log-Holds (omega arith)

klog_read-Holds_example : klog_read 2 (klog up empty_log) ≡ 117 ∷ 112 ∷ []
klog_read-Holds_example =
    klog_read-Holds 2 (klog up empty_log) (117 ∷ 112 ∷ 10 ∷ []) klog-Holds_example
