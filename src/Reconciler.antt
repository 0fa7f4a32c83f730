-- ===== src/Reconciler.antt =====
-- agentd/src/agentd/reconciler.py: one pass of the reconciler over containers, runners, open turns and
-- GitHub. This file has the report of a pass and the verdict on one container.
-- Docker, GitHub, the probe of a runner and the posting of comments are the record `Seams`. No other
-- thread writes during a pass, and the clock does not move within it.
pub mod Containers
pub mod OpenTurns
pub mod Synthesis
pub mod Sweep
pub mod Makes
pub mod Github
pub mod Pass
pub mod Kept
pub mod Cap
pub mod Quiet
pub mod Totals
pub mod Removals
pub mod Retired
pub mod Unpaused
pub mod Resumes
pub mod DrySweep
pub mod DryRun
use code_workflow.Prelude.{
  ℕ, ◌+◌, String, Option, none, some, List, [], Bool, true, false, not, ◌&&◌, ◌||◌, ◌==◌,
  if◌then◌else◌, str_eq, ltb, starts_with, get_or, is_some,
}
use code_workflow.Prelude.Int.{ℤ, sub_ℕ}
use code_workflow.Payload.{Label}
use code_workflow.Store.Rows.{Store, Session, Runner}
use code_workflow.Store.Turns.{TurnView}
use code_workflow.SessionLoop.{Posted}

abbrev pub container_age_floor_s : ℕ
container_age_floor_s = 600

abbrev pub inflight_turn_max_age_s : ℕ
inflight_turn_max_age_s = 900

abbrev pub synthesis_cap : ℕ
synthesis_cap = 50

abbrev pub resume_max_attempts : ℕ
resume_max_attempts = 2

-- What the inventory says of a container; `started_at` is 0 where Docker's text is no date.
pub record Container : Type 0 where
  pub id : String
  pub project : String
  pub started_at : ℕ
  pub running : Bool

pub data Action : Type 0 where
  keep spare remove missing_runner : Action

pub record Decision : Type 0 where
  pub action : Action
  pub reason : String

-- a == b or a.startswith(b) or b.startswith(a), for texts that are not empty
unfoldable pub cid_match : String → String → Bool
cid_match a b =
    if str_eq a "" || str_eq b "" then false else str_eq a b || starts_with a b || starts_with b a

-- started_at <= 0 or now - started_at < CONTAINER_AGE_FLOOR_S, without the subtraction
abbrev pub is_young : ℕ → Container → Bool
is_young now c = c.started_at == 0 || ltb now (c.started_at + container_age_floor_s)

-- whether the runner's row names the container
abbrev pub names : Option Runner → Container → Bool
unfolding cid_match
names none c = false
names (some r) c = cid_match (get_or "" r.container_id) c.id

unfoldable pub decide : ℕ → Container → Bool → Bool → Option Runner → Decision
unfolding cid_match
decide now c live inflight runner =
    if live && names runner c
    then record { action = keep; reason = "live runner" }
    else if is_young now c
    then record { action = spare; reason = "age < 10m" }
    else if inflight
    then record { action = spare; reason = "open turn" }
    else if live && not (is_some runner)
    then record { action = missing_runner; reason = "no runners row" }
    else if live
    then record { action = remove; reason = "extra container" }
    else record { action = remove; reason = "no live session" }

pub record Entry : Type 0 where
  pub id : String
  pub project : String
  pub age_s : ℤ
  pub action : Action
  pub reason : String

pub record StaleRunner : Type 0 where
  pub project : String
  pub container_id : String

-- What a runner says of itself when it is probed.
pub record ProbePayload : Type 0 where
  pub rss_bytes : Option ℕ
  pub cli_rss_kb : Option ℕ
  pub rss_peak_bytes : Option ℕ
  pub sampled_at : Option ℕ

pub record ProbeResult : Type 0 where
  pub serviceable : Bool
  pub reason : String
  pub payload : ProbePayload

pub record Attached : Type 0 where
  pub project : String
  pub id : String
  pub reason : String
  pub payload : ProbePayload

-- An entry of `unattached` or `probe_skipped`.
pub record Missed : Type 0 where
  pub project : String
  pub id : String
  pub reason : String

-- The dictionary `report`, but for `closed_live`, which no part of the pass reads.
pub record Report : Type 0 where
  pub orphans : List Entry
  pub spared : List Entry
  -- the containers for which `remove_container` was called
  pub removed : List Entry
  pub cleared_rows : List StaleRunner
  pub missing_runners : List Entry
  pub stale_runners : List StaleRunner
  pub open_turns : List TurnView
  pub nodes_seen : ℕ
  pub synthesized : ℕ
  pub capped : ℕ
  pub adopted : ℕ
  pub escalated : ℕ
  pub holds_lifted : ℕ
  pub retired : ℕ
  pub resumed : ℕ
  pub attached : List Attached
  pub unattached : List Missed
  pub probe_skipped : List Missed
  pub inventory_error : Bool

abbrev pub new_report : List TurnView → Report
new_report turns = record {
  orphans = [];
  spared = [];
  removed = [];
  cleared_rows = [];
  missing_runners = [];
  stale_runners = [];
  open_turns = turns;
  nodes_seen = 0;
  synthesized = 0;
  capped = 0;
  adopted = 0;
  escalated = 0;
  holds_lifted = 0;
  retired = 0;
  resumed = 0;
  attached = [];
  unattached = [];
  probe_skipped = [];
  inventory_error = false;
}

-- A comment, pull request or review that the snapshot of a session lists. Of the body that is made of
-- it, a delivery keeps the parts of `Envelope`; the titles, texts and heads are not among them.
pub record Node : Type 0 where
  pub id : String
  pub kind : String
  pub author : String
  pub created_at : Option ℕ
  pub number : ℕ

pub record Snapshot : Type 0 where
  pub issue_state : String
  pub issue_node_id : String
  pub issue_labels : List Label
  pub feature_merged : Bool
  pub design_merged : Bool
  pub design_head_sha : String
  pub feature_head_sha : String
  pub nodes : List Node

-- An open pull request as GitHub lists it.
pub record OpenPr : Type 0 where
  pub number : ℕ
  pub node_id : String
  pub merged : Bool
  pub state : String
  pub head_ref : String
  pub head_sha : String
  pub author : String

pub record Seams : Type 0 where
  pub now : ℕ
  pub resume_max_age_s : ℕ
  -- `none` where the call raises
  pub list_containers : Option (List Container)
  pub probe_runner : Runner → Option ProbeResult
  -- `none` where no snapshot can be had: the call raises, or GitHub gives none
  pub fetch_snapshot : Option (Session → Option Snapshot)
  -- after how many of its steps an exception ends `_apply_snapshot` for a session, if one does
  pub breaks_off : Session → Option ℕ
  -- of the repository and the head; `none` where the call raises
  pub fetch_open_prs : Option (String → String → Option (List OpenPr))
  -- of a session's key and the reason; absent without a session loop
  pub post_comment : Option (String → String → Posted)
  -- the turns that the daemon is running
  pub inflight_turn : String → Bool
