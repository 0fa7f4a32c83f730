-- ===== src/Store/Breaker.antt =====
-- The disk circuit breaker of db.py.
use code_workflow.Prelude.{ℕ, String, Option, none, some, Bool, false, not, ◌==◌, if◌then◌else◌}
use code_workflow.Store.Rows.{Store, Breaker}

-- bool(row and row["disk_paused"])
abbrev pub is_open : Option Breaker → Bool
is_open none = false
is_open (some b) = not (b.disk_paused == 0)

unfoldable pub is_disk_paused : Store → Bool
is_disk_paused s = is_open s.circuit_breaker

abbrev pub set_breaker : ℕ → Bool → Option String → Option Breaker → Option Breaker
set_breaker now paused reason none = none
set_breaker now paused reason (some b) =
    some (record { disk_paused = if paused then 1 else 0; reason = reason; updated_at = now })

unfoldable pub set_disk_paused : ℕ → Bool → Option String → Store → Store
set_disk_paused now paused reason s = record s {
  circuit_breaker = set_breaker now paused reason s.circuit_breaker;
}

pub record BreakerState : Type 0 where
  pub disk_paused : Bool
  pub reason : Option String
  pub updated_at : ℕ

abbrev pub state_of : Option Breaker → BreakerState
state_of none = record { disk_paused = false; reason = none; updated_at = 0 }
state_of (some b) = record {
  disk_paused = not (b.disk_paused == 0);
  reason = b.reason;
  updated_at = b.updated_at;
}

unfoldable pub breaker_state : Store → BreakerState
breaker_state s = state_of s.circuit_breaker
