-- ===== src/SessionLoop/Process/Heads.antt =====
-- `_fetch_live_pr` and `_pr_is_spent` of agentd/src/agentd/session_loop.py, and the look of
-- `_process_one` at the heads of a pull request before its transition.
use code_workflow.Prelude.{
  ℕ, String, Option, none, some, ◌∷◌, Bool, true, false, not, ◌&&◌, if◌then◌else◌, ◌==◌, str_eq,
  any, get_or,
}
use code_workflow.Prelude.Int.{ℤ, pos, negsuc}
use code_workflow.Prelude.Split.{is_empty}
use code_workflow.Fsm.{
  EventKind, design_pr_opened, design_revised, feature_pr_opened, feature_revised,
}
use code_workflow.Store.Rows.{Session, done}
use code_workflow.SessionLoop.Process.{World, Outcome, next, Outside, LivePr, end_with}
use code_workflow.SessionLoop.Process.Resolve.{pr_number_from_payload, payload_head_sha}
use code_workflow.SessionLoop.Process.Route.{Routed}

abbrev pub ℤ_eq : ℤ → ℤ → Bool
ℤ_eq (pos m) (pos n) = m == n
ℤ_eq (negsuc m) (negsuc n) = m == n
ℤ_eq _ _ = false

-- (repo, int(pr_number)) in _spent_prs
abbrev pub is_cached : String → ℤ → World → Bool
is_cached repo n w = any (λ p. str_eq p.0 repo && ℤ_eq p.1 n) w.spent_prs

abbrev pub remember_spent : String → ℤ → World → World
remember_spent repo n w = record w { spent_prs = (repo, n) ∷ w.spent_prs }

abbrev pub is_merged : Option LivePr → Bool
is_merged none = false
is_merged (some pr) = pr.merged

module _ (o : Outside) where
  unfoldable pub fetch_live_pr : String → ℤ → World → Option LivePr × World
  fetch_live_pr repo n w =
      if is_cached repo n w
      then (some (record { merged = true; state = "closed"; head_sha = none }), w)
      else if is_merged (o.fetch_pr repo n)
      then (o.fetch_pr repo n, remember_spent repo n w)
      else (o.fetch_pr repo n, w)

  -- The answer for what GitHub shows of the pull request, if anything.
  abbrev pub spent_by : String → ℤ → Option LivePr × World → Bool × World
  spent_by repo n (none, w) = (false, w)
  spent_by repo n (some pr, w) =
      if pr.merged then (true, remember_spent repo n w) else (str_eq pr.state "closed", w)

  abbrev pub or_fetch : String → ℤ → World → Option LivePr → Option LivePr × World
  or_fetch repo n w none = fetch_live_pr repo n w
  or_fetch repo n w (some pr) = (some pr, w)

  unfoldable pub pr_is_spent : String → ℤ → Option LivePr → World → Bool × World
  unfolding fetch_live_pr
  pr_is_spent repo n live w =
      if is_cached repo n w then (true, w) else spent_by repo n (or_fetch repo n w live)

-- The columns of `_HEAD_WM`.
pub data Watermark : Type 0 where
  design_pr_head feature_pr_head : Watermark

abbrev pub head_wm : EventKind → Option Watermark
head_wm design_pr_opened = some design_pr_head
head_wm design_revised = some design_pr_head
head_wm feature_pr_opened = some feature_pr_head
head_wm feature_revised = some feature_pr_head
head_wm _ = none

abbrev pub stored_wm : Watermark → Session → String
stored_wm design_pr_head x = get_or "" x.design_pr_head
stored_wm feature_pr_head x = get_or "" x.feature_pr_head

abbrev pub is_opened : EventKind → Bool
is_opened design_pr_opened = true
is_opened feature_pr_opened = true
is_opened _ = false

-- The column of the pull request that the kind opens.
abbrev pub opened_column : EventKind → Session → Option ℕ
opened_column design_pr_opened x = x.design_pr
opened_column _ x = x.feature_pr

abbrev pub is_number : ℤ → Option ℕ → Bool
is_number n none = false
is_number n (some m) = ℤ_eq (pos m) n

abbrev pub live_sha : Option LivePr → String
live_sha none = ""
live_sha (some pr) = get_or "" pr.head_sha

-- A routed delivery, with the pull request as GitHub shows it where that was read.
pub record Headed : Type 0 where
  pub routed : Routed
  pub live_pr : Option LivePr

abbrev pub headed : Routed → Option LivePr → Headed
headed r live = record { routed = r; live_pr = live }

-- A pull request that the session tracks already is no news.
abbrev pub check_opened : Routed → ℤ → Option LivePr × World → Outcome Headed
check_opened r n (live, w) =
    let c = r.classified in
    if is_number n (opened_column c.kind c.taken.sess)
    then end_with done c.taken.incoming w
    else next (headed r live) w

abbrev pub is_taken_head : Watermark → String → Session → Bool
is_taken_head wm sha x = not (is_empty (stored_wm wm x)) && str_eq sha (stored_wm wm x)

abbrev pub is_stale_head : String → Option LivePr → Bool
is_stale_head sha live = not (is_empty (live_sha live)) && not (str_eq sha (live_sha live))

-- A head that was taken already, or one that is not the pull request's head any more.
abbrev pub check_revised : Routed → Watermark → String → Option LivePr × World → Outcome Headed
check_revised r wm sha (live, w) =
    if is_taken_head wm sha r.classified.taken.sess
    then end_with done r.classified.taken.incoming w
    else if is_stale_head sha live
    then end_with done r.classified.taken.incoming w
    else next (headed r live) w

module _ (o : Outside) where
  abbrev pub head_of_kind :
      Routed → World → Bool → Option Watermark → Option String → Option ℤ → Outcome Headed
  head_of_kind r w true wm sha (some n) =
      check_opened r n (fetch_live_pr o r.classified.taken.incoming.repo n w)
  head_of_kind r w false (some wm) (some sha) (some n) =
      check_revised r wm sha (fetch_live_pr o r.classified.taken.incoming.repo n w)
  head_of_kind r w _ _ _ _ = next (headed r none) w

  unfoldable pub check_heads : Routed → World → Outcome Headed
  unfolding fetch_live_pr pr_number_from_payload
  check_heads r w =
      let c = r.classified in
      head_of_kind r w (is_opened c.kind) (head_wm c.kind) (payload_head_sha c.taken.incoming)
        (pr_number_from_payload c.taken.incoming c.taken.issue_num)
