-- ===== src/SessionLoop/Replies.antt =====
-- The owner's reply, in session_loop.py, to a session that has been escalated.
use Prim.Native.String.append
use Prim.Native.String.{◌++◌ as append_text}
use text.Mathlib.TextPositions.{starts_with-append}
use code_workflow.Prelude.{
  suc, ℕ, String, ◌≡◌, ◌≢◌, refl, ap, sym, ◌∙◌, Option, none, some, List, [], ◌∷◌, Bool, true,
  false, starts_with, if◌then◌else◌, arith,
}
use code_workflow.Prelude.Int.{pos}
use code_workflow.Fsm.{SessionState, owner_reply, paused_human, closed, is_terminal}
use code_workflow.Store.Rows.{Store, Session, done}
use code_workflow.Store.Deliveries.{set_delivery_status}
use code_workflow.Store.Sessions.Writes.{find}
use code_workflow.SessionLoop.{
  posted_reason, prev_state, clip, close_reconcile_prefix, close_reconcile_held,
  resume_from_escalation,
}
use code_workflow.SessionLoop.Pause.{
  Escalating, paused_row, escalate_by, escalate_found, IsResumed, resume_lem,
}
use code_workflow.SessionLoop.Process.{Incoming, World, finished, Outside, put, end_handled}
use code_workflow.SessionLoop.Process.Route.{Routed, routed, reply_to_pause}

-- The escalations in order; an error ends the run.
unfoldable pub escalate_all : String → List Escalating → Store → Option Store
escalate_all key [] s = some s
escalate_all key (e ∷ es) s = elim (escalate_by key e s) [
  | none ↦ none
  | some s' ↦ escalate_all key es s'
]

abbrev pub last_of : Escalating → List Escalating → Escalating
last_of e [] = e
last_of e (e' ∷ es) = last_of e' es

-- The reason of the pause that an escalation writes.
abbrev reason_of : Escalating → String
reason_of e =
    let reason = posted_reason e.reason e.posted in
    clip 500 (if e.hold then append_text close_reconcile_prefix reason else reason)

-- The pause is a hold of a closed issue: the escalation asked for one, or its reason reads as one.
abbrev pub is_held : Escalating → Bool
is_held e = starts_with (reason_of e) close_reconcile_prefix

-- The length of a text, added to a number.
abbrev add_length : String → ℕ → ℕ
add_length String.[] n = n
add_length (String.◌∷◌ c s) n = suc (add_length s n)

clip-append :
    (s t : String) (n : ℕ) → clip (add_length s n) (append_text s t) ≡ append_text s (clip n t)
clip-append String.[] t n = ap (clip n) (append.nil t) ∙ sym (append.nil (clip n t))
clip-append (String.◌∷◌ c s) t n =
    ap (clip (suc (add_length s n))) (append.cons c s t)
    ∙ ap (λ u. String.◌∷◌ c u) (clip-append s t n)
    ∙ sym (append.cons c s (clip n t))

pub hold-is_held : (e : Escalating) → e.hold ≡ true → is_held e ≡ true
hold-is_held e h =
    let reason = posted_reason e.reason e.posted in
    rw (h, clip-append close_reconcile_prefix reason 484)
      (starts_with-append close_reconcile_prefix (clip 484 reason))

-- What a run of escalations, the last of them `e`, leaves of the session that was in state `from`.
abbrev IsPausedBy : Escalating → SessionState → String → Store → Session → Type 0
IsPausedBy e from key s p =
    (find key s ≡ some p)
    × (p.state ≡ paused_human)
    × (p.resume_state ≡ some from)
    × (p.paused_reason ≡ some (reason_of e))

escalate_again :
    (from : SessionState) (key : String) (e : Escalating) (es : List Escalating) (s : Store)
    (p : Session)
    → IsPausedBy e from key s p
    → (q : Store) × (p' : Session) × (escalate_all key es s ≡ some q)
      × IsPausedBy (last_of e es) from key q p'
unfolding escalate_all
escalate_again from key e [] s p h = (s, p, refl, h)
escalate_again from key e (e' ∷ es) s p (found, paused, back, why) =
    let (s1, written, row) = escalate_found key e' s found (λ c. ground (arith, c, paused)) in
    let again : prev_state p ≡ from = rw (paused, back) refl in
    let (s2, p', rest, last) =
      escalate_again from key e' es s1 (paused_row e' p) (row, refl, ap some again, refl) in
    (s2, p', rw (escalate_all, written) rest, last)

escalate_all-IsPausedBy :
    (key : String) (first : Escalating) (more : List Escalating) (s : Store) (x : Session)
    → find key s ≡ some x
    → x.state ≢ paused_human
    → x.state ≢ closed
    → (q : Store) × (p : Session) × (escalate_all key (first ∷ more) s ≡ some q)
      × IsPausedBy (last_of first more) x.state key q p
unfolding escalate_all
escalate_all-IsPausedBy key first more s x found running live =
    let (s1, written, row) = escalate_found key first s found live in
    let from : prev_state x ≡ x.state = ground arith in
    let (q, p, rest, still) =
      escalate_again x.state key first more s1 (paused_row first x)
        (row, refl, ap some from, refl) in
    (q, p, rw (escalate_all, written) rest, still)

held_by :
    (e : Escalating) (p : Session)
    → p.state ≡ paused_human
    → p.paused_reason ≡ some (reason_of e)
    → close_reconcile_held p.state p ≡ is_held e
unfolding close_reconcile_held
held_by e p paused why = rw (paused, why) refl

-- A comment of the owner, once it has been classified and routed for a paused session.
abbrev pub reply_of : Outside → Incoming → Session → Routed
reply_of o e p = routed o (record {
  taken = record {
    incoming = e;
    issue_num = pos p.issue_num;
    session_key = p.session_key;
    sess = p;
    architect = p.architect;
    developer = p.developer;
  };
  state = p.state;
  paused = true;
  kind = owner_reply;
})

module _ (o : Outside) (e : Incoming) (w : World) where
  -- The reply to a hold ends the delivery.
  to_hold :
      (p : Session)
      → close_reconcile_held p.state p ≡ true
      → reply_to_pause o (reply_of o e p) w
        ≡ finished (put (set_delivery_status e.delivery_id done w.store) w)
  to_hold p h = rw h refl

  -- The reply to a question hands the resumed session on to the turn.
  to_question :
      (p : Session) (r : Store)
      → p.state ≡ paused_human
      → close_reconcile_held p.state p ≡ false
      → resume_from_escalation o.now p e.delivery_id w.store ≡ some r
      → reply_to_pause o (reply_of o e p) w
        ≡ end_handled (o.resume_turn e p (pos p.issue_num) (put r w))
  unfolding is_terminal
  to_question p r paused h resumed = rw (h, resumed, paused) refl

-- A session that is neither paused nor CLOSED can be escalated any number of times: it is paused. If the
-- last escalation asked for no hold, and its reason does not begin as that of a hold, then the owner's
-- reply hands on, to the turn that follows, a store in which the session is back in the state it had
-- before the first escalation, a terminal one included: nothing is left of the pause, the two counters
-- are 0 and no escalation of it is open.
pub escalations-resume :
    (o : Outside) (e : Incoming) (w : World) (key : String) (first : Escalating)
    (more : List Escalating) (s : Store) (x : Session)
    → find key s ≡ some x
    → x.state ≢ paused_human
    → x.state ≢ closed
    → is_held (last_of first more) ≡ false
    → (q : Store) × (p : Session) × (r : Store) × (escalate_all key (first ∷ more) s ≡ some q)
      × (find key q ≡ some p)
      × (p.state ≡ paused_human)
      × (reply_to_pause o (reply_of o e p) (put q w)
          ≡ end_handled (o.resume_turn e p (pos p.issue_num) (put r (put q w))))
      × IsResumed x.state key r
escalations-resume o e w key first more s x found running live question =
    let (q, p, written, still) = escalate_all-IsPausedBy key first more s x found running live in
    let (at_q, paused, back, why) = still in
    let (r, resumed, restored) =
      resume_lem o.now key e.delivery_id x.state q p at_q paused back running in
    let lifted = held_by (last_of first more) p paused why ∙ question in
    (q, p, r, written, at_q, paused, to_question o e (put q w) p r paused lifted resumed, restored)

-- If a session that is neither paused nor CLOSED is escalated any number of times, and the last escalation
-- asked for a hold, as that of a closed issue does, then it is paused, and the owner's reply only ends
-- its delivery as done: the session stays paused, with the state it had before the first escalation as
-- the one to resume.
pub escalations-stay_held :
    (o : Outside) (e : Incoming) (w : World) (key : String) (first : Escalating)
    (more : List Escalating) (s : Store) (x : Session)
    → find key s ≡ some x
    → x.state ≢ paused_human
    → x.state ≢ closed
    → (last_of first more).hold ≡ true
    → (q : Store) × (p : Session) × (escalate_all key (first ∷ more) s ≡ some q)
      × (reply_to_pause o (reply_of o e p) (put q w)
          ≡ finished (put (set_delivery_status e.delivery_id done q) w))
      × (find key (set_delivery_status e.delivery_id done q) ≡ some p)
      × (p.state ≡ paused_human)
      × (p.resume_state ≡ some x.state)
unfolding set_delivery_status
escalations-stay_held o e w key first more s x found running live hold =
    let (q, p, written, still) = escalate_all-IsPausedBy key first more s x found running live in
    let (at_q, paused, back, why) = still in
    let last = last_of first more in
    let held = held_by last p paused why ∙ hold-is_held last hold in
    (q, p, written, to_hold o e (put q w) p held, at_q, paused, back)
