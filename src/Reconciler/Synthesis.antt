-- ===== src/Reconciler/Synthesis.antt =====
-- The deliveries that agentd/src/agentd/reconciler.py makes of what it finds on GitHub:
-- `_synthesize_node`, `_synthesize_synchronize`, `_synthesize_opened`.
use code_workflow.Prelude.{
  ℕ, String, Option, none, some, List, [], ◌∷◌, Bool, ◌&&◌, ◌==◌, if◌then◌else◌, str_eq,
}
use code_workflow.Prelude.Split.{◌+++◌}
use code_workflow.Prelude.Decimal.{decimal}
use code_workflow.Payload.{Envelope}
use code_workflow.Store.Rows.{Store, Session, queued}
use code_workflow.Store.Deliveries.{NewDelivery, insert_delivery}
use code_workflow.Reconciler.{Node, Snapshot, OpenPr, Seams}

-- A text, absent if it is empty.
abbrev pub present : String → Option String
present s = if str_eq s "" then none else some s

abbrev pub no_parts : Envelope
no_parts = record {
  comment_node = none;
  review_node = none;
  pull_request_node = none;
  issue_node = none;
  issue_association = none;
  association = none;
  issue_labels = [];
  label = none;
}

-- A queued delivery of the session's repository and issue.
abbrev pub delivery_for : Session → String → String → String → String → Envelope → NewDelivery
delivery_for sess id event action sender body = record {
  delivery_id = id;
  event = event;
  action = some action;
  repo = some sess.repo;
  issue_num = some sess.issue_num;
  sender = some sender;
  payload = some body;
  status = queued;
}

abbrev pub node_delivery_id : String → String
node_delivery_id nid = "recon:" +++ nid

-- The event, the action and the body for a node; `none` for a kind that is not known.
abbrev pub node_delivery : Session → Snapshot → Node → Option NewDelivery
node_delivery sess snap node =
    let id = node_delivery_id node.id in
    if str_eq node.kind "comment"
    then some (
        delivery_for sess id "issue_comment" "created" node.author (record no_parts {
          comment_node = present node.id;
          issue_node = present snap.issue_node_id;
          issue_labels = snap.issue_labels;
        }))
    else if str_eq node.kind "pull_request"
    then some (
        delivery_for sess id "pull_request" "opened" node.author
          (record no_parts { pull_request_node = present node.id }))
    else if str_eq node.kind "review"
    then some (
        delivery_for sess id "pull_request_review" "submitted" node.author
          (record no_parts { review_node = present node.id }))
    else none

abbrev pub insert_some : ℕ → Option NewDelivery → Store → Store
insert_some now none s = s
insert_some now (some d) s = (insert_delivery now d s).0

unfoldable pub synthesize_node : Seams → Session → Snapshot → Node → Store → Store
unfolding insert_delivery
synthesize_node x sess snap node s = insert_some x.now (node_delivery sess snap node) s

-- The first node that is the pull request of the number.
abbrev pub pull_node : ℕ → List Node → Option Node
pull_node n [] = none
pull_node n (node ∷ nodes) =
    let rest = pull_node n nodes in
    if str_eq node.kind "pull_request" && node.number == n then some node else rest

abbrev author_of : Option Node → String
author_of none = ""
author_of (some node) = node.author

abbrev node_id_of : Option Node → String
node_id_of none = ""
node_id_of (some node) = node.id

abbrev pub synchronize_delivery : Session → Snapshot → ℕ → String → NewDelivery
unfolding decimal
synchronize_delivery sess snap pr_number head_sha =
    let node = pull_node pr_number snap.nodes in
    delivery_for sess ("recon:sync:" +++ decimal pr_number +++ ":" +++ head_sha) "pull_request"
      "synchronize" (author_of node)
      (record no_parts { pull_request_node = present (node_id_of node) })

unfoldable pub synthesize_synchronize :
    Seams → Session → Snapshot → ℕ → String → Store → Store × Bool
unfolding insert_delivery
synthesize_synchronize x sess snap pr_number head_sha s =
    insert_delivery x.now (synchronize_delivery sess snap pr_number head_sha) s

abbrev pub opened_delivery : Session → OpenPr → NewDelivery
unfolding decimal
opened_delivery sess pr =
    delivery_for sess ("recon:open:" +++ decimal pr.number +++ ":" +++ pr.head_sha) "pull_request"
      "opened" pr.author (record no_parts { pull_request_node = present pr.node_id })

unfoldable pub synthesize_opened : Seams → Session → OpenPr → Store → Store × Bool
unfolding insert_delivery
synthesize_opened x sess pr s = insert_delivery x.now (opened_delivery sess pr) s
