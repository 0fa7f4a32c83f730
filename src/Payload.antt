-- ===== src/Payload.antt =====
-- The parts of a webhook's JSON body that the modelled code reads. `Payload` is what
-- `json.loads` gives on the body: `none` when it raises `JSONDecodeError`, else the object.
-- (The webhook handler reads keys of the body before it stores it, so a body that is JSON and not
-- an object raises there and is never stored.)
use code_workflow.Prelude.{String, Option, List}

-- An element of `labels`, or the `label` of an issues.labeled event.
pub data Label : Type 0 where
  -- a dictionary, with its `name` if that is truthy
  named : Option String → Label
  text : String → Label
  junk : Label

-- A field is `none` when its key is absent, null or otherwise falsy.
pub record Envelope : Type 0 where
  -- data["comment"]["node_id"], and so on
  pub comment_node : Option String
  pub review_node : Option String
  pub pull_request_node : Option String
  pub issue_node : Option String
  -- data["issue"]["author_association"], and the one at the top
  pub issue_association : Option String
  pub association : Option String
  pub issue_labels : List Label
  pub label : Option Label

abbrev pub Payload : Type 0
Payload = Option Envelope
