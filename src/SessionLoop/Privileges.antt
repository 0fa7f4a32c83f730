-- ===== src/SessionLoop/Privileges.antt =====
-- Which kinds `_event_kind` of session_loop.py can give.
use code_workflow.Prelude.{
  ◌≡◌, ◌↔◌, refl, String, Option, none, Bool, true, false, ◌&&◌, ◌||◌, arith, if◌then◌else◌, str_eq,
  eq_iff, get_or, lower, Bool-cases, inl, inr,
}
use code_workflow.Fsm.{
  EventKind, escalation, issues_closed, session_created, design_approved, merge_authorized,
  merge_design, owner_reply,
}
use code_workflow.SessionLoop.Kinds.{
  EventData, is_action, pull_request_kind, review_kind, plain_kind, is_owner_comment, event_kind,
}

-- The kinds that the daemon gives on its own authority.
abbrev pub is_privileged : EventKind → Bool
is_privileged escalation = true
is_privileged issues_closed = true
is_privileged session_created = true
is_privileged design_approved = true
is_privileged merge_authorized = true
is_privileged merge_design = true
is_privileged _ = false

abbrev is_reply : EventKind → Bool
is_reply owner_reply = true
is_reply _ = false

pull_request_kind_lem :
    (action : Option String) (d : EventData) (k : EventKind)
    → is_privileged k ≡ false
    → (is_privileged (get_or k (pull_request_kind action d)) ≡ false)
unfolding event_kind
pull_request_kind_lem action d k h = ground arith

review_kind_lem :
    (d : EventData) (k : EventKind)
    → is_privileged k ≡ false
    → (is_privileged (get_or k (review_kind d)) ≡ false)
unfolding event_kind
review_kind_lem d k h = ground arith

-- No event by itself has a kind that the daemon gives on its own authority: an escalation, the close
-- of an issue, the creation of a session, an approval or an order to merge.
pub event_kind-unprivileged :
    (event : String) (action : Option String) (d : EventData) (sender owner : String)
    → is_privileged (event_kind event action d sender owner) ≡ false
unfolding event_kind
event_kind-unprivileged event action d sender owner =
    let rest =
      if is_owner_comment event action sender owner then owner_reply else plain_kind event action in
    let quiet : is_privileged rest ≡ false = ground arith in
    ground (arith, pull_request_kind_lem action d rest quiet, review_kind_lem d rest quiet, quiet)

-- A kind that is none of a pull request's and of a review's is no reply.
named_kind_lem :
    (event : String) (action : Option String) (d : EventData) (k : EventKind)
    → is_reply (
        get_or k (
          if str_eq event "pull_request"
          then pull_request_kind action d
          else if str_eq event "pull_request_review"
          then review_kind d
          else none))
      ≡ true
    → is_reply k ≡ true
named_kind_lem event action d k h = elim (Bool-cases (is_reply k)) [
  | inl e ↦ e
  | inr e ↦ ground arith
]

is_reply_of : (k : EventKind) → (k ≡ owner_reply) ↔ (is_reply k ≡ true)
is_reply_of k = ground arith

rest_is_reply :
    (event : String) (action : Option String) (owned : Bool)
    → is_reply (if owned then owner_reply else plain_kind event action) ≡ true
    → owned ≡ true
rest_is_reply event action true h = refl
rest_is_reply event action false h = cc h

reply_of_owner :
    (event : String) (action : Option String) (d : EventData) (sender owner : String)
    → is_reply (event_kind event action d sender owner) ≡ true
    → is_owner_comment event action sender owner ≡ true
unfolding event_kind
reply_of_owner event action d sender owner h =
    elim (Bool-cases (
      str_eq event "issues"
      && (is_action action "opened"
          || is_action action "reopened"
          || is_action action "labeled"))) [
            | inl e ↦ cc (rw e at h)
            | inr e ↦ rest_is_reply event action _ (
                named_kind_lem event action d
                  (if is_owner_comment event action sender owner
                    then owner_reply
                    else plain_kind event action)
                  (rw e at h))
          ]

is_owner_comment_lem :
    (event : String) (action : Option String) (sender owner : String)
    → is_owner_comment event action sender owner ≡ true
    → (event ≡ "issue_comment") × (is_action action "created" ≡ true) × (lower sender ≡ lower owner)
is_owner_comment_lem event action sender owner h =
    ground (arith, eq_iff event "issue_comment", eq_iff (lower sender) (lower owner))

-- An event is an owner's reply exactly if it is the creation of an issue comment by the owner, but for
-- the case of the login.
pub event_kind-owner_reply :
    (event : String) (action : Option String) (d : EventData) (sender owner : String)
    → (event_kind event action d sender owner ≡ owner_reply) ↔ (
        (event ≡ "issue_comment")
        × (is_action action "created" ≡ true)
        × (lower sender ≡ lower owner))
unfolding event_kind
event_kind-owner_reply event action d sender owner =
    let reply = is_reply_of (event_kind event action d sender owner) in
    (
      λ h.
          is_owner_comment_lem event action sender owner
            (reply_of_owner event action d sender owner (reply.0 h)),
      λ (e, a, o). rw (e, a, o, (eq_iff (lower owner) (lower owner)).1 refl) refl,
    )
