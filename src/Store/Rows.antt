-- ===== src/Store/Rows.antt =====
-- The tables of `SCHEMA` in db.py, a record for each row. A nullable column is an `Option`.
use code_workflow.Prelude.{ℕ, ◌+◌, String, Option, none, some, List, [], ◌∷◌, Bool, ◌==◌, map}
use code_workflow.Fsm.{SessionState}
use code_workflow.Payload.{Payload}
use Prim.Native.Nat.{max}

-- The texts that the daemon writes to `deliveries.status`.
pub data Status : Type 0 where
  queued deferred routed done dropped : Status

abbrev rank : Status → ℕ
rank queued = 0
rank deferred = 1
rank routed = 2
rank done = 3
rank dropped = 4

abbrev pub status_eq : Status → Status → Bool
status_eq a b = rank a == rank b

pub record Delivery : Type 0 where
  pub delivery_id : String
  pub event : String
  pub action : Option String
  pub repo : String
  pub issue_num : Option ℕ
  pub sender : String
  pub received_at : ℕ
  pub payload : Payload
  pub status : Status
  pub next_attempt_at : ℕ
  pub defer_count : ℕ

pub record DeliveryNode : Type 0 where
  pub node_id : String
  pub delivery_id : String
  pub seen_at : ℕ

pub record Breaker : Type 0 where
  pub disk_paused : ℕ
  pub reason : Option String
  pub updated_at : ℕ

pub record Runner : Type 0 where
  pub project_key : String
  pub container_id : Option String
  pub endpoint : Option String
  pub token : Option String
  pub tier : String
  pub last_seen_at : Option ℕ

pub record Session : Type 0 where
  pub session_key : String
  pub project_key : String
  pub repo : String
  pub issue_num : ℕ
  pub state : SessionState
  pub paused_reason : Option String
  pub resume_state : Option SessionState
  pub stall_open_threads : Option (List String)
  pub architect : String
  pub developer : String
  pub roles_locked : ℕ
  pub design_pr : Option ℕ
  pub feature_pr : Option ℕ
  pub design_pr_head : Option String
  pub feature_pr_head : Option String
  pub turn_count : ℕ
  pub consec_agent_turns : ℕ
  pub review_rounds : ℕ
  pub progress_fp : Option String
  pub progress_repeat : ℕ
  pub zero_thread_rounds : ℕ
  pub silent_turns : ℕ
  pub gh_watermark : Option ℕ
  pub verified_at : Option ℕ
  pub classification : Option String
  pub closed_issue_escalated_at : Option ℕ
  pub created_at : ℕ
  pub updated_at : ℕ

pub record Turn : Type 0 where
  pub turn_id : String
  pub session_key : String
  pub role : String
  pub delivery_id : Option String
  pub started_at : ℕ
  pub ended_at : Option ℕ
  pub status : Option String
  pub summary : Option String
  pub public_actions : Option String
  pub resume_attempts : ℕ

pub record Artifact : Type 0 where
  pub id : ℕ
  pub session_key : String
  pub role : String
  pub kind : String
  pub ref : String
  pub created_at : ℕ
  pub removed_at : Option ℕ

pub record Escalation : Type 0 where
  pub id : ℕ
  pub session_key : String
  pub role : Option String
  pub reason : String
  pub comment_id : Option ℕ
  pub opened_at : ℕ
  pub resolved_at : Option ℕ

pub record ProjectBlock : Type 0 where
  pub project_key : String
  pub reason : String
  pub session_key : Option String
  pub issue_num : Option ℕ
  pub comment_id : Option ℕ
  pub opened_at : ℕ
  pub resolved_at : Option ℕ

pub record Store : Type 0 where
  pub deliveries : List Delivery
  pub delivery_nodes : List DeliveryNode
  pub circuit_breaker : Option Breaker
  pub runners : List Runner
  pub sessions : List Session
  pub turns : List Turn
  pub artifacts : List Artifact
  pub escalations : List Escalation
  pub project_blocks : List ProjectBlock

-- The store that `executescript(SCHEMA)` makes in an empty file.
abbrev pub empty_store : Store
empty_store = record {
  deliveries = [];
  delivery_nodes = [];
  circuit_breaker = some (record { disk_paused = 0; reason = none; updated_at = 0 });
  runners = [];
  sessions = [];
  turns = [];
  artifacts = [];
  escalations = [];
  project_blocks = [];
}

-- The id that SQLite gives a new row of an INTEGER PRIMARY KEY table: one above the largest.
abbrev pub largest : List ℕ → ℕ
largest [] = 0
largest (n ∷ ns) = max n (largest ns)

abbrev pub next_id {ℓ} : {A : Type ℓ} → (A → ℕ) → List A → ℕ
next_id id rows = largest (map id rows) + 1
