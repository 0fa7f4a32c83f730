-- ===== src/ReviewStats.antt =====
-- agentd/src/agentd/review_stats.py: what `agentctl review-stats` reports of a session.
-- What the stored payload of a delivery holds is the parameter `parts`; it is empty for a payload that
-- cannot be read. A dictionary from ids to counts is a function.
pub mod Inline
use code_workflow.Prelude.{
  ℕ, ◌+◌, String, Option, none, some, List, [], ◌∷◌, ◌++◌, Bool, true, false, not, ◌&&◌, ◌==◌,
  if◌then◌else◌, str_eq, any, get_or, lower, length, map,
}
use code_workflow.Prelude.Tables.{select, count_where, sort_by}
use code_workflow.Store.Rows.{Store, Session, Turn, Delivery}
use code_workflow.Store.Deliveries.{list_deliveries_for}
use code_workflow.Store.Turns.{list_turns}
use code_workflow.SessionLoop.Kinds.{is_action}

-- The fields of a payload, by `_as_int` where they are numbers.
pub record Parts : Type 0 where
  pub review_id : Option ℕ
  pub review_state : Option String
  pub pull_number : Option ℕ
  pub comment_review_id : Option ℕ

pub record Submitted : Type 0 where
  pub delivery_id : String
  pub review_id : Option ℕ
  pub pr : Option ℕ
  pub state : String

pub record Tally : Type 0 where
  pub submitted : List Submitted
  -- the members of the set, some more than once
  pub submitted_ids : List ℕ
  pub comment_review_ids : List (Option ℕ)
  pub thread_events : ℕ
  pub issue_comment_created : ℕ

pub record Matched : Type 0 where
  pub comments_by_review : ℕ → ℕ
  pub unmatched : ℕ

pub record ReviewOut : Type 0 where
  pub review_id : Option ℕ
  pub pr : Option ℕ
  pub state : String
  pub inline_comments : ℕ
  pub turn_id : Option String
  pub turns_woken : ℕ
  pub turns_empty : ℕ

pub record SessionStats : Type 0 where
  pub session_key : String
  pub reviews : List ReviewOut
  pub thread_events : ℕ
  pub issue_comment_created : ℕ
  pub unmatched_inline_comments : ℕ
  pub total_turns : ℕ
  pub total_empty : ℕ

abbrev add_num : Option ℕ → List ℕ → List ℕ
add_num none nums = nums
add_num (some n) nums = if any (λ m. m == n) nums then nums else nums ++ n ∷ []

unfoldable pub session_issue_nums : Session → List ℕ
session_issue_nums sess =
    add_num sess.feature_pr (add_num sess.design_pr (add_num (some sess.issue_num) []))

abbrev is_empty_actions : Turn → Bool
is_empty_actions t = elim t.public_actions [
  | none ↦ true
  | some a ↦ if str_eq a "" then true else str_eq a "[]"
]

-- turns_by_delivery[did] holds the turn
abbrev is_woken_by : String → Turn → Bool
is_woken_by did t = elim t.delivery_id [ none ↦ false | some d ↦ not (str_eq d "") && str_eq d did ]

abbrev pub add_id : Option ℕ → List ℕ → List ℕ
add_id none ids = ids
add_id (some id) ids = ids ++ id ∷ []

abbrev or_number : Option ℕ → Option ℕ → Option ℕ
or_number none n = n
or_number (some p) n = some p

abbrev pub is_submitted : Delivery → Bool
is_submitted row = str_eq row.event "pull_request_review" && is_action row.action "submitted"

abbrev pub is_inline_comment : Delivery → Bool
is_inline_comment row =
    str_eq row.event "pull_request_review_comment" && is_action row.action "created"

abbrev pub new_tally : Tally
new_tally = record {
  submitted = [];
  submitted_ids = [];
  comment_review_ids = [];
  thread_events = 0;
  issue_comment_created = 0;
}

abbrev pub no_matches : Matched
no_matches = record { comments_by_review = λ id. 0; unmatched = 0 }

unfoldable pub match_comment : List ℕ → Option ℕ → Matched → Matched
match_comment ids none m = record m { unmatched = m.unmatched + 1 }
match_comment ids (some rid) m =
    if any (λ id. id == rid) ids
    then record m {
      comments_by_review =
          λ id. if id == rid then m.comments_by_review id + 1 else m.comments_by_review id;
    }
    else record m { unmatched = m.unmatched + 1 }

unfoldable pub match_comments : List ℕ → List (Option ℕ) → Matched → Matched
unfolding match_comment
match_comments ids [] m = m
match_comments ids (c ∷ cs) m = match_comments ids cs (match_comment ids c m)

abbrev pub inline_of : Matched → Option ℕ → ℕ
inline_of m none = 0
inline_of m (some rid) = m.comments_by_review rid

abbrev first_turn : List Turn → Option String
first_turn [] = none
first_turn (t ∷ ts) = some t.turn_id

unfoldable pub review_out : List Turn → Matched → Submitted → ReviewOut
review_out turns m item =
    let tlist = sort_by (λ t. t.started_at) (select (is_woken_by item.delivery_id) turns) in
    record {
      review_id = item.review_id;
      pr = item.pr;
      state = item.state;
      inline_comments = inline_of m item.review_id;
      turn_id = first_turn tlist;
      turns_woken = length tlist;
      turns_empty = count_where is_empty_actions tlist;
    }

module _ (parts : Delivery → Parts) where
  abbrev pub submitted_by : Delivery → Submitted
  unfolding lower
  submitted_by row = record {
    delivery_id = row.delivery_id;
    review_id = (parts row).review_id;
    pr = or_number (parts row).pull_number row.issue_num;
    state = lower (get_or "" (parts row).review_state);
  }

  unfoldable pub tally_row : Delivery → Tally → Tally
  unfolding lower
  tally_row row t =
      if is_submitted row
      then record t {
        submitted = t.submitted ++ submitted_by row ∷ [];
        submitted_ids = add_id (parts row).review_id t.submitted_ids;
      }
      else if is_inline_comment row
      then record t {
        comment_review_ids = t.comment_review_ids ++ (parts row).comment_review_id ∷ [];
      }
      else if str_eq row.event "pull_request_review_thread"
      then record t { thread_events = t.thread_events + 1 }
      else if str_eq row.event "issue_comment" && is_action row.action "created"
      then record t { issue_comment_created = t.issue_comment_created + 1 }
      else t

  unfoldable pub tally_rows : List Delivery → Tally → Tally
  unfolding tally_row
  tally_rows [] t = t
  tally_rows (row ∷ rows) t = tally_rows rows (tally_row row t)

  unfoldable pub collect_session_review_stats : Store → Session → SessionStats
  unfolding tally_rows match_comments review_out session_issue_nums list_deliveries_for list_turns
  collect_session_review_stats s sess =
      let rows = list_deliveries_for sess.repo (session_issue_nums sess) s in
      let turns = list_turns sess.session_key s in
      let t = tally_rows rows new_tally in
      let m = match_comments t.submitted_ids t.comment_review_ids no_matches in
      record {
        session_key = sess.session_key;
        reviews = map (review_out turns m) t.submitted;
        thread_events = t.thread_events;
        issue_comment_created = t.issue_comment_created;
        unmatched_inline_comments = m.unmatched;
        total_turns = length turns;
        total_empty = count_where is_empty_actions turns;
      }

  unfoldable pub collect_review_stats : Store → List Session → List SessionStats
  unfolding collect_session_review_stats
  collect_review_stats s sessions = map (collect_session_review_stats s) sessions
