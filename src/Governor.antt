-- ===== src/Governor.antt =====
-- agentd/src/agentd/governor.py: the disk circuit breaker.
-- Free space is compared and never computed with, so a reading and the two limits are numbers of one
-- unit; the reader is a parameter, as are the formatted texts of the reasons.
pub mod Latch
use code_workflow.Prelude.{
  ℕ, String, Option, none, some, List, [], ◌∷◌, Bool, true, false, not, ◌&&◌, if◌then◌else◌, ltb,
}
use code_workflow.Store.Rows.{Store}
use code_workflow.Store.Breaker.{is_disk_paused, set_disk_paused}

pub record Limits : Type 0 where
  pub floor : ℕ
  pub resume : ℕ
  -- the reason texts of a trip and of a reset
  pub trip_reason : ℕ → String
  pub reset_reason : ℕ → String

pub record Sample : Type 0 where
  pub store : Store
  -- `notify` and `on_trip` were called
  pub tripped : Bool
  pub free : Option ℕ

abbrev pub judge_free : Limits → ℕ → ℕ → Store → Sample
judge_free limits now free s =
    if ltb free limits.floor && not (is_disk_paused s)
    then record {
      store = set_disk_paused now true (some (limits.trip_reason free)) s;
      tripped = true;
      free = some free;
    }
    else if ltb limits.resume free && is_disk_paused s
    then record {
      store = set_disk_paused now false (some (limits.reset_reason free)) s;
      tripped = false;
      free = some free;
    }
    else record { store = s; tripped = false; free = some free }

-- `now` is the time of the sample, `none` a volume that cannot be read.
unfoldable pub sample_once : Limits → ℕ → Option ℕ → Store → Sample
sample_once limits now none s = record { store = s; tripped = false; free = none }
sample_once limits now (some free) s = judge_free limits now free s
