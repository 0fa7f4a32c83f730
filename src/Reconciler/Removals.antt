-- ===== src/Reconciler/Removals.antt =====
-- Which containers a pass of agentd/src/agentd/reconciler.py removes.
use code_workflow.Prelude.{
  ℕ, ◌+◌, String, ◌≡◌, refl, sym, ap, ◌∙◌, map, Option, List, [], ◌∷◌, ◌++◌, Bool, true, false, not,
  ◌&&◌, arith, str_eq, ltb, leb, if◌then◌else◌, inl, inr, Bool-cases,
}
use mathlib.Core.List.{append-nil, append_assoc}
use code_workflow.Prelude.Tables.{select, first_where}
use code_workflow.Store.Rows.{Store, Runner}
use code_workflow.Store.Sessions.{live_project_keys}
use code_workflow.Store.Runners.{is_runner_of, list_runners, get_runner}
use code_workflow.Store.Turns.{projects_with_open_turns, list_open_turns}
use code_workflow.Reconciler.{
  Container, Action, keep, spare, remove, missing_runner, names, decide, Entry, Report, new_report,
}
use code_workflow.Reconciler.Containers.{
  Targets, runner_in, place, decision_on, entry_of, judge_containers,
}
use code_workflow.Reconciler.Pass.{take_inventory}

-- A container that was started at least ten minutes ago, whose project has no open turn of the last 15
-- minutes, and which is not the one that the runner's row of a live project names.
abbrev pub is_abandoned : ℕ → Store → Container → Bool
is_abandoned now s c =
    ltb 0 c.started_at
    && leb (c.started_at + 600) now
    && not (projects_with_open_turns now 900 s c.project)
    && not (live_project_keys s c.project && names (get_runner c.project s) c)

abbrev removes : Action → Bool
removes keep = false
removes spare = false
removes remove = true
removes missing_runner = true

removes-decide :
    (now : ℕ) (c : Container) (live inflight : Bool) (r : Option Runner)
    → removes (decide now c live inflight r).action ≡ (
        ltb 0 c.started_at
        && leb (c.started_at + 600) now
        && not inflight
        && not (live && names r c))
unfolding decide
removes-decide now c live inflight r = ground arith

runner_in-get :
    (pk : String) (rs : List Runner)
    → str_eq pk "" ≡ false
    → runner_in pk rs ≡ first_where (is_runner_of pk) rs
runner_in-get pk [] h = refl
runner_in-get pk (r ∷ rs) h = ground (arith, h, runner_in-get pk rs h)

removes-decision :
    (now : ℕ) (s : Store) (c : Container)
    → removes (decision_on now (take_inventory now s) c).action ≡ is_abandoned now s c
unfolding decision_on take_inventory get_runner list_runners
removes-decision now s c =
    let inv = take_inventory now s in
    let judged =
      removes-decide now c (not (str_eq c.project "") && inv.live c.project)
        (not (str_eq c.project "") && inv.inflight c.project) (runner_in c.project s.runners) in
    elim (Bool-cases (str_eq c.project "")) [
      | inl e ↦ judged ∙ rw e refl
      | inr e ↦ judged ∙ rw (e, runner_in-get c.project s.runners e) refl
    ]

-- The entries of `removed` after one container.
removed-place :
    (a : Action) (e : Entry) (c : Container) (rt : Report × Targets)
    → (place false a e c rt).0.removed ≡ rt.0.removed ++ (if removes a then e ∷ [] else [])
removed-place keep e c (r, ts) = sym (append-nil r.removed)
removed-place spare e c (r, ts) = sym (append-nil r.removed)
removed-place remove e c (r, ts) = refl
removed-place missing_runner e c (r, ts) = refl

abbrev abandoned : ℕ → Store → List Container → List Entry
abandoned now s cs = map (entry_of now (take_inventory now s)) (select (is_abandoned now s) cs)

abandoned-cons :
    (now : ℕ) (s : Store) (c : Container) (cs : List Container)
    → (if is_abandoned now s c then entry_of now (take_inventory now s) c ∷ [] else [])
        ++ abandoned now s cs
      ≡ abandoned now s (c ∷ cs)
abandoned-cons now s c cs = elim (Bool-cases (is_abandoned now s c)) [
  | inl e ↦ rw e refl
  | inr e ↦ rw e refl
]

judge_containers-removed :
    (now : ℕ) (s : Store) (cs : List Container) (rt : Report × Targets)
    → (judge_containers now (take_inventory now s) false cs rt).0.removed
      ≡ rt.0.removed ++ abandoned now s cs
unfolding judge_containers
judge_containers-removed now s [] rt = sym (append-nil rt.0.removed)
judge_containers-removed now s (c ∷ cs) rt =
    let inv = take_inventory now s in
    let a = (decision_on now inv c).action in
    let e = entry_of now inv c in
    let new = if is_abandoned now s c then e ∷ [] else [] in
    let one : (place false a e c rt).0.removed ≡ rt.0.removed ++ new =
      removed-place a e c rt ∙ rw (removes-decision now s c) refl in
    judge_containers-removed now s cs (place false a e c rt)
    ∙ ap (λ es. es ++ abandoned now s cs) one
    ∙ append_assoc rt.0.removed new (abandoned now s cs)
    ∙ ap (λ es. rt.0.removed ++ es) (abandoned-cons now s c cs)

-- A pass that is no dry run calls for the removal of exactly the containers that were started at least
-- ten minutes ago, whose project has had no turn open that began in the last fifteen minutes, and
-- which the runner's row of a live project does not name; each once, in the order of the inventory.
pub removed_lem :
    (now : ℕ) (s : Store) (cs : List Container)
    → let judged =
        judge_containers now (take_inventory now s) false cs (new_report (list_open_turns s), []) in
      map (λ e. e.id) judged.0.removed ≡ map (λ c. c.id) (select (is_abandoned now s) cs)
unfolding entry_of
removed_lem now s cs =
    ap (map (λ e. e.id)) (judge_containers-removed now s cs (new_report (list_open_turns s), []))
    ∙ ids (select (is_abandoned now s) cs)
  where
    ids :
        (kept : List Container)
        → map (λ e. e.id) (map (entry_of now (take_inventory now s)) kept) ≡ map (λ c. c.id) kept
    ids [] = refl
    ids (c ∷ kept) = ap (λ t. c.id ∷ t) (ids kept)
