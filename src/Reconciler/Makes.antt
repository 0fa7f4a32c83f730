-- ===== src/Reconciler/Makes.antt =====
-- The deliveries that the GitHub sweep of agentd/src/agentd/reconciler.py makes, and the cap on them:
-- `_synth_head_drift`, `_synth_untracked_opened` and the loop over the nodes in `_apply_snapshot`.
use code_workflow.Prelude.{
  ℕ, ◌+◌, ◌-◌, String, Option, none, some, List, [], ◌∷◌, Bool, true, false, not, ◌&&◌, ◌||◌, ◌==◌,
  if◌then◌else◌, str_eq, ltb, get_or, is_some,
}
use code_workflow.Prelude.Int.{ℤ, pos}
use code_workflow.Prelude.Split.{◌+++◌, partition}
use code_workflow.Prelude.Tables.{select, sort_by}
use code_workflow.Fsm.{
  SessionState, EventKind, design_rework, code_rework, design_pr_opened, feature_pr_opened,
  transition,
}
use code_workflow.Gitops.{
  parse_role_branch, is_design_head_ref, is_feature_head_ref, role_branch_name,
}
use code_workflow.Store.Rows.{Store, Session}
use code_workflow.Store.Deliveries.{has_delivery_node}
use code_workflow.Store.Sessions.Fields.{Field}
use code_workflow.SessionLoop.{Role, architect, developer}
use code_workflow.SessionLoop.Process.{role_text}
use code_workflow.Reconciler.{Node, Snapshot, OpenPr, Seams}
use code_workflow.Reconciler.Synthesis.{synthesize_node, synthesize_synchronize, synthesize_opened}
use code_workflow.Reconciler.Sweep.{Sweep, is_set, save}

abbrev pub cap_one : Sweep → Sweep
cap_one w = record w { report = record w.report { capped = w.report.capped + 1 } }

-- one delivery more, in the report and off the cap
abbrev pub spend : Sweep → Sweep
spend w = record w {
  report = record w.report { synthesized = w.report.synthesized + 1 };
  remaining = w.remaining - 1;
}

abbrev pub spend_if : Sweep → Store × Bool → Sweep
spend_if w (s, inserted) = let w' = record w { store = s } in if inserted then spend w' else w'

-- One tracked pull request in `_synth_head_drift`, and whether the session is in its rework state.
pub record Half : Type 0 where
  pub pr : Option ℕ
  pub live : String
  pub merged : Bool
  pub stored : String
  pub in_rework : Bool
  pub watermark : Option String → Field
  pub stamp : String → Session → Session

abbrev is_design_rework : SessionState → Bool
is_design_rework design_rework = true
is_design_rework _ = false

abbrev is_code_rework : SessionState → Bool
is_code_rework code_rework = true
is_code_rework _ = false

abbrev pub design_half : Session → Snapshot → Half
design_half sess snap = record {
  pr = sess.design_pr;
  live = snap.design_head_sha;
  merged = snap.design_merged;
  stored = get_or "" sess.design_pr_head;
  in_rework = is_design_rework sess.state;
  watermark = Field.design_pr_head;
  stamp = λ sha y. record y { design_pr_head = some sha };
}

abbrev pub feature_half : Session → Snapshot → Half
feature_half sess snap = record {
  pr = sess.feature_pr;
  live = snap.feature_head_sha;
  merged = snap.feature_merged;
  stored = get_or "" sess.feature_pr_head;
  in_rework = is_code_rework sess.state;
  watermark = Field.feature_pr_head;
  stamp = λ sha y. record y { feature_pr_head = some sha };
}

-- An open pull request from a branch of the role for the session's issue.
abbrev is_of_issue : ℕ → Option (ℤ × String) → Bool
is_of_issue n none = false
is_of_issue n (some (pos m, role)) = m == n
is_of_issue n (some (ℤ.negsuc m, role)) = false

abbrev is_owned : Role → String → String → Bool
unfolding is_design_head_ref is_feature_head_ref
is_owned architect ref repo = is_design_head_ref (some ref) repo
is_owned developer ref repo = is_feature_head_ref (some ref) repo

unfoldable pub is_match : Session → Role → OpenPr → Bool
unfolding is_design_head_ref is_feature_head_ref parse_role_branch
is_match sess role pr =
    not pr.merged
    && (str_eq pr.state "" || str_eq pr.state "open")
    && is_owned role pr.head_ref sess.repo
    && is_of_issue sess.issue_num (parse_role_branch (some pr.head_ref) sess.repo)

-- owner:branch
abbrev pub head_name : Session → Role → String
unfolding partition role_branch_name
head_name sess role =
    (partition "/" sess.repo).0
    +++ ":"
    +++ role_branch_name sess.repo (pos sess.issue_num) (role_text role)

abbrev pub is_issue_kind : String → Bool
is_issue_kind kind =
    str_eq kind "issue" || str_eq kind "issues.edited" || str_eq kind "issues.closed"

abbrev pub is_before : Option ℕ → ℕ → Bool
is_before none floor = false
is_before (some created) floor = ltb created floor

-- The nodes that the set difference passes over.
unfoldable pub is_skipped : Session → Store → Node → Bool
unfolding has_delivery_node
is_skipped sess s node =
    str_eq node.id ""
    || is_issue_kind node.kind
    || is_before node.created_at sess.created_at
    || has_delivery_node node.id s

module _ (x : Seams) (dry_run : Bool) where
  unfoldable pub drift : ℕ → Half → Snapshot → Sweep → Sweep
  unfolding save synthesize_synchronize
  drift pr h snap w =
      if str_eq h.stored h.live
      then w
      else if str_eq h.stored "" && not h.in_rework
      then save x dry_run (h.stamp h.live) (h.watermark (some h.live) ∷ []) w
      else if w.remaining == 0
      then cap_one w
      else if dry_run
      then spend w
      else spend_if w (synthesize_synchronize x w.sess snap pr h.live w.store)

  unfoldable pub drift_of : Half → Snapshot → Sweep → Option ℕ → Sweep
  unfolding drift
  drift_of h snap w none = w
  drift_of h snap w (some pr) =
      if h.merged || pr == 0 || str_eq h.live "" then w else drift pr h snap w

  unfoldable pub synth_half : Half → Snapshot → Sweep → Sweep
  unfolding drift_of
  synth_half h snap w = drift_of h snap w h.pr

  unfoldable pub synth_head_drift : Snapshot → Sweep → Sweep
  unfolding synth_half
  synth_head_drift snap w =
      synth_half (feature_half w.sess snap) snap (synth_half (design_half w.sess snap) snap w)

  unfoldable pub open_first : List OpenPr → Sweep → Sweep
  unfolding synthesize_opened
  open_first [] w = w
  open_first (pr ∷ prs) w =
      if dry_run then spend w else spend_if w (synthesize_opened x w.sess pr w.store)

  unfoldable pub open_listed : Role → Option (List OpenPr) → Sweep → Sweep
  unfolding is_match open_first
  open_listed role none w = w
  open_listed role (some listed) w =
      open_first (sort_by (λ p. p.number) (select (is_match w.sess role) listed)) w

  unfoldable pub open_half :
      (String → String → Option (List OpenPr))
      → Role
      → EventKind
      → Option ℕ
      → SessionState
      → Sweep
      → Sweep
  unfolding open_listed partition role_branch_name transition
  open_half fetch role kind pr state w =
      if is_set pr || not (is_some (transition (some state) kind))
      then w
      else if w.remaining == 0
      then cap_one w
      else open_listed role (fetch w.sess.repo (head_name w.sess role)) w

  unfoldable pub open_halves : Option (String → String → Option (List OpenPr)) → Sweep → Sweep
  unfolding open_half
  open_halves none w = w
  open_halves (some fetch) w =
      if str_eq w.sess.repo "" || w.sess.issue_num == 0
      then w
      else open_half fetch developer feature_pr_opened w.sess.feature_pr w.sess.state
          (open_half fetch architect design_pr_opened w.sess.design_pr w.sess.state w)

  unfoldable pub synth_untracked_opened : Sweep → Sweep
  unfolding open_halves
  synth_untracked_opened w = open_halves x.fetch_open_prs w

  unfoldable pub sweep_node : Snapshot → Node → Sweep → Sweep
  unfolding is_skipped synthesize_node
  sweep_node snap node w =
      if is_skipped w.sess w.store node
      then w
      else if w.remaining == 0
      then cap_one w
      else record (spend w) {
        store = if dry_run then w.store else synthesize_node x w.sess snap node w.store;
      }

  unfoldable pub sweep_nodes : Snapshot → List Node → Sweep → Sweep
  unfolding sweep_node
  sweep_nodes snap [] w = w
  sweep_nodes snap (node ∷ nodes) w = sweep_nodes snap nodes (sweep_node snap node w)
