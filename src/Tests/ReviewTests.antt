-- ===== src/Tests/ReviewTests.antt =====
-- agentd/src/agentd/review_stats.py on a review with one of its two comments.
use code_workflow.Prelude.{
  ◌≡◌, ◌+◌, ℕ, String, refl, none, some, [], ◌∷◌, if◌then◌else◌, str_eq, lower,
}
use code_workflow.Prelude.Tables.{count_where}
use code_workflow.Store.Rows.{Store, Delivery, empty_store, done}
use code_workflow.Store.Deliveries.{list_deliveries_for}
use code_workflow.ReviewStats.{
  Parts, is_inline_comment, session_issue_nums, collect_session_review_stats,
}
use code_workflow.ReviewStats.Inline.{
  IsDistinct, review_ids, total_inline, collect_session_review_stats-total,
}
use code_workflow.Tests.RowTests.{the_session, a_turn}

abbrev a_row : String → String → String → ℕ → Delivery
a_row delivery_id event action received_at = record {
  delivery_id = delivery_id;
  event = event;
  action = some action;
  repo = "o/r";
  issue_num = some 7;
  sender = "alice";
  received_at = received_at;
  payload = none;
  status = done;
  next_attempt_at = 0;
  defer_count = 0;
}

abbrev reviewed : Store
reviewed = record empty_store {
  deliveries =
      a_row "d1" "pull_request_review" "submitted" 3
      ∷ a_row "d2" "pull_request_review_comment" "created" 2
      ∷ a_row "d3" "pull_request_review_comment" "created" 4
      ∷ [];
  turns = a_turn ∷ [];
}

-- The comment of d3 names a review that was not submitted here.
abbrev parts : Delivery → Parts
parts row = record {
  review_id = some 5;
  review_state = some "APPROVED";
  pull_number = none;
  comment_review_id = if str_eq row.delivery_id "d2" then some 5 else some 9;
}

one_review :
    (collect_session_review_stats parts reviewed the_session).reviews
    ≡ record {
      review_id = some 5;
      pr = some 7;
      state = "approved";
      inline_comments = 1;
      turn_id = some "t1";
      turns_woken = 1;
      turns_empty = 1;
    }
      ∷ []
unfolding collect_session_review_stats lower
one_review = refl

one_review-IsDistinct :
    IsDistinct (review_ids (collect_session_review_stats parts reviewed the_session).reviews)
unfolding collect_session_review_stats
one_review-IsDistinct = (refl, tt)

collect_session_review_stats-total_example :
    total_inline (collect_session_review_stats parts reviewed the_session).reviews
      + (collect_session_review_stats parts reviewed the_session).unmatched_inline_comments
    ≡ count_where is_inline_comment
        (list_deliveries_for the_session.repo (session_issue_nums the_session) reviewed)
collect_session_review_stats-total_example =
    collect_session_review_stats-total parts reviewed the_session one_review-IsDistinct
