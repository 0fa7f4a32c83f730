-- ===== src/SessionLoop/Process/Approvals.antt =====
-- The two approvals that `_process_one` of agentd/src/agentd/session_loop.py verifies before the state
-- machine sees them, and `_defuse_feature_pr_closing_keywords`.
use code_workflow.Prelude.{
  ℕ, suc, String, Option, none, some, List, [], ◌∷◌, Bool, true, false, if◌then◌else◌, get_or, ◌==◌,
  str_eq, ltb,
}
use code_workflow.Prelude.Tables.{select}
use code_workflow.Prelude.Split.{◌+++◌}
use code_workflow.Prelude.Decimal.{decimal}
use code_workflow.Fsm.{
  EventKind, design_approved_unverified, feature_approved_unverified, merge_authorized,
}
use code_workflow.Store.Rows.{Store, Session, dropped}
use code_workflow.Verify.{ApprovalCheck, verify_design_approval}
use code_workflow.Verify.Merge.{verify_feature_merge}
use code_workflow.SessionLoop.Process.{
  Incoming, World, Outcome, next, finished, ◌▷◌, Outside, end_with, escalate_done, count_at,
}
use code_workflow.SessionLoop.Process.Admit.{Taken}
use code_workflow.SessionLoop.Process.Events.{Classified}

-- `dig.get("pr") or sess.get(…)`, 0 without either
abbrev pub pr_or : Option ℕ → Incoming → ℕ
pr_or tracked e = get_or (get_or 0 tracked) e.pull_number

abbrev pub with_kind : EventKind → Classified → Classified
with_kind kind c = record c { kind = kind }

abbrev pub is_design_unverified : EventKind → Bool
is_design_unverified design_approved_unverified = true
is_design_unverified _ = false

abbrev pub is_feature_unverified : EventKind → Bool
is_feature_unverified feature_approved_unverified = true
is_feature_unverified _ = false

-- The counter's entry is removed, which reads as 0.
abbrev pub forget_attempts : Incoming → World → World
forget_attempts e w = record w {
  merge_auth_attempts = count_at e.delivery_id 0 w.merge_auth_attempts;
}

-- _MERGE_AUTH_MAX_ATTEMPTS
abbrev pub merge_auth_max_attempts : ℕ
merge_auth_max_attempts = 5

abbrev nonzero_nums : List Session → List ℕ
nonzero_nums [] = []
nonzero_nums (x ∷ xs) =
    let rest = nonzero_nums xs in if x.issue_num == 0 then rest else x.issue_num ∷ rest

-- `_session_issue_nums`; the set is a list of its members
unfoldable pub session_issue_nums : String → Store → List ℕ
session_issue_nums repo s = nonzero_nums (select (λ x. str_eq x.repo repo) s.sessions)

module _ (o : Outside) where
  abbrev pub judge_design : Classified → World → ApprovalCheck → Outcome Classified
  judge_design c w check =
      if check.ok
      then next (with_kind EventKind.design_approved c) w
      else if check.superseded
      then end_with dropped c.taken.incoming w
      else escalate_done o c.taken.session_key
          ("unverified design approval: " +++ o.reason_text check.reason) c.taken.incoming w

  abbrev pub check_design : Taken → ApprovalCheck
  check_design t =
      let e = t.incoming in
      verify_design_approval o.github e.repo (pr_or t.sess.design_pr e) t.developer e.head_sha
        o.approval_token

  unfoldable pub approve_design : Classified → World → Outcome Classified
  unfolding verify_design_approval
  approve_design c w =
      if is_design_unverified c.kind then judge_design c w (check_design c.taken) else next c w

  -- A transient refusal leaves the delivery as it is, until the last attempt.
  abbrev pub transient_refusal : Classified → ApprovalCheck → World → Outcome Classified
  transient_refusal c check w =
      let e = c.taken.incoming in
      let n = suc (w.merge_auth_attempts e.delivery_id) in
      if ltb n merge_auth_max_attempts
      then finished
          (record w { merge_auth_attempts = count_at e.delivery_id n w.merge_auth_attempts })
      else escalate_done o c.taken.session_key
          ("feature merge authorization still not ready after "
            +++ decimal n
            +++ " attempts (was transient): "
            +++ o.reason_text check.reason)
          e (forget_attempts e w)

  abbrev pub patched : Classified → ℕ → World → Option String → Outcome Classified
  patched c pr w none = next c w
  patched c pr w (some body) =
      if o.patch_issue_body c.taken.incoming.repo pr body
      then next c w
      else escalate_done o c.taken.session_key
          ("failed to defuse closing keyword on Feature PR #"
            +++ decimal pr
            +++ "; merge not authorised")
          c.taken.incoming w

  abbrev pub defused : Classified → ℕ → World → Option String → Outcome Classified
  defused c pr w none =
      escalate_done o c.taken.session_key
        ("could not read Feature PR #" +++ decimal pr +++ " body to defuse closing keywords")
        c.taken.incoming w
  defused c pr w (some body) =
      let repo = c.taken.incoming.repo in
      patched c pr w (o.defuse_closing_keywords body (session_issue_nums repo w.store) repo)

  unfoldable pub defuse_feature_pr_closing_keywords : Classified → ℕ → World → Outcome Classified
  unfolding session_issue_nums
  defuse_feature_pr_closing_keywords c pr w = defused c pr w (o.issue_body c.taken.incoming.repo pr)

  abbrev pub judge_merge_auth : Classified → World → ApprovalCheck → Outcome Classified
  judge_merge_auth c w check =
      let e = c.taken.incoming in
      if check.ok
      then defuse_feature_pr_closing_keywords c (pr_or c.taken.sess.feature_pr e)
          (forget_attempts e w)
        ▷ (λ c' w'. next (with_kind merge_authorized c') w')
      else if check.superseded
      then end_with dropped e (forget_attempts e w)
      else if check.transient
      then transient_refusal c check w
      else escalate_done o c.taken.session_key
          ("unverified feature merge authorization (permanent): " +++ o.reason_text check.reason) e
          (forget_attempts e w)

  abbrev pub check_feature : Taken → ApprovalCheck
  check_feature t =
      let e = t.incoming in
      verify_feature_merge o.github e.repo (pr_or t.sess.feature_pr e) t.architect e.head_sha
        o.api_token (o.required_checks e.repo)

  unfoldable pub approve_feature : Classified → World → Outcome Classified
  unfolding verify_feature_merge defuse_feature_pr_closing_keywords
  approve_feature c w =
      if is_feature_unverified c.kind
      then judge_merge_auth c w (check_feature c.taken)
      else next c w
