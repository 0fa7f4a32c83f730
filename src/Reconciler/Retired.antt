-- ===== src/Reconciler/Retired.antt =====
-- The turns that a pass of agentd/src/agentd/reconciler.py retires.
use code_workflow.Prelude.{
  ℕ, ◌≤◌, String, ◌≡◌, ◌≢◌, eq_iff, Option, none, some, List, [], ◌∷◌, Bool, true, false, arith,
  str_eq, Memᴰ, if◌then◌else◌,
}
use mathlib.Core.List.Memᴰ
use mathlib.Core.Path.{subst}
use code_workflow.Prelude.Split.{◌+++◌}
use code_workflow.Prelude.Tables.{count_where, update_where, count-update_cleared}
use code_workflow.Store.Rows.{Store, Turn}
use code_workflow.Store.Turns.{
  TurnView, is_open_turn, finished, finish_turn, resuming, mark_turn_resuming, list_open_turns,
}
use code_workflow.SessionLoop.{clip}
use code_workflow.Reconciler.{Report, Seams}
use code_workflow.Reconciler.Kept.{escalate_by-Kept}
use code_workflow.Reconciler.OpenTurns.{
  is_lost, retire_reason, retire_turn, apply_open_turn, apply_open_turns, handle_open_turns,
}

-- The open turns with an id.
abbrev pub open_count : String → Store → ℕ
open_count id s = count_where (is_open_turn id) s.turns

-- A write that opens no turn.
count-update_le :
    (p q : Turn → Bool) (f : Turn → Turn)
    → ((t : Turn) → q (f t) ≡ true → q t ≡ true)
    → (ts : List Turn) → count_where q (update_where p f ts) ≤ count_where q ts
count-update_le p q f closes [] = omega arith
count-update_le p q f closes (t ∷ ts) = ground (arith, closes t, count-update_le p q f closes ts)

finish_turn-open_count :
    (id other : String) (at : ℕ) (status : String) (summary actions : Option String) (s : Store)
    → open_count id (finish_turn other at status summary actions s) ≤ open_count id s
unfolding finish_turn
finish_turn-open_count id other at status summary actions s =
    count-update_le (is_open_turn other) (is_open_turn id) (finished at status summary actions)
      (λ t h. ground arith) s.turns

finish_turn-closes :
    (id : String) (at : ℕ) (status : String) (summary actions : Option String) (s : Store)
    → open_count id (finish_turn id at status summary actions s) ≡ 0
unfolding finish_turn
finish_turn-closes id at status summary actions s =
    count-update_cleared (is_open_turn id) (finished at status summary actions) (λ t. ground arith)
      s.turns

mark_turn_resuming-open_count :
    (id other : String) (s : Store) → open_count id (mark_turn_resuming other s).0 ≤ open_count id s
unfolding mark_turn_resuming
mark_turn_resuming-open_count id other s =
    count-update_le (is_open_turn other) (is_open_turn id) resuming (λ t h. h) s.turns

module _ (x : Seams) where
  -- An escalation leaves the turns as they are.
  retire_turn-turns :
      (t : Turn) (reason : String) (escalates : Bool) (s : Store)
      → (retire_turn x t reason escalates s).turns
        ≡ (finish_turn t.turn_id x.now "interrupted" (some (clip 500 reason)) none s).turns
  unfolding retire_turn finish_turn
  retire_turn-turns t reason escalates s = ground (
    arith,
    (escalate_by-Kept x x.post_comment t.session_key
        ("interrupted turn " +++ t.turn_id +++ " retired after failed resume: " +++ reason) false
        (finish_turn t.turn_id x.now "interrupted" (some (clip 500 reason)) none s)).turns,
  )

  retire_turn-open_count :
      (id : String) (t : Turn) (reason : String) (escalates : Bool) (s : Store)
      → open_count id (retire_turn x t reason escalates s) ≤ open_count id s
  retire_turn-open_count id t reason escalates s =
      rw (retire_turn-turns t reason escalates s)
        (finish_turn-open_count id t.turn_id x.now "interrupted" (some (clip 500 reason)) none s)

  retire_turn-closes :
      (t : Turn) (reason : String) (escalates : Bool) (s : Store)
      → open_count t.turn_id (retire_turn x t reason escalates s) ≡ 0
  retire_turn-closes t reason escalates s =
      rw (retire_turn-turns t reason escalates s)
        (finish_turn-closes t.turn_id x.now "interrupted" (some (clip 500 reason)) none s)

  apply_open_turn-open_count :
      (id : String) (v : TurnView) (rs : Report × Store)
      → open_count id (apply_open_turn x false v rs).1 ≤ open_count id rs.1
  unfolding apply_open_turn
  apply_open_turn-open_count id v (r, s) = ground (
    arith,
    retire_turn-open_count id v.turn (retire_reason x v) false s,
    retire_turn-open_count id v.turn "resume failed twice" true s,
    mark_turn_resuming-open_count id v.turn.turn_id s,
  )

  apply_open_turn-closes :
      (v : TurnView) (rs : Report × Store)
      → x.inflight_turn v.turn.turn_id ≡ false
      → is_lost x v ≡ true
      → open_count v.turn.turn_id (apply_open_turn x false v rs).1 ≡ 0
  unfolding apply_open_turn
  apply_open_turn-closes v (r, s) idle lost =
      rw (idle, lost) (retire_turn-closes v.turn (retire_reason x v) false s)

  apply_open_turns-open_count :
      (id : String) (vs : List TurnView) (rs : Report × Store)
      → open_count id (apply_open_turns x false vs rs).1 ≤ open_count id rs.1
  unfolding apply_open_turns
  apply_open_turns-open_count id [] rs = omega arith
  apply_open_turns-open_count id (v ∷ vs) rs =
      let next = if str_eq v.turn.turn_id "" then rs else apply_open_turn x false v rs in
      let one : open_count id next.1 ≤ open_count id rs.1 =
        ground (arith, apply_open_turn-open_count id v rs) in
      omega (arith, apply_open_turns-open_count id vs next, one)

  first_closes :
      (v : TurnView) (vs : List TurnView) (rs : Report × Store)
      → str_eq v.turn.turn_id "" ≡ false
      → x.inflight_turn v.turn.turn_id ≡ false
      → is_lost x v ≡ true
      → open_count v.turn.turn_id (apply_open_turns x false (v ∷ vs) rs).1 ≡ 0
  unfolding apply_open_turns
  first_closes v vs rs named idle lost =
      let next = if str_eq v.turn.turn_id "" then rs else apply_open_turn x false v rs in
      let none_left : open_count v.turn.turn_id next.1 ≡ 0 =
        rw named (apply_open_turn-closes v rs idle lost) in
      omega (arith, apply_open_turns-open_count v.turn.turn_id vs next, none_left)

  apply_open_turns-closes :
      (v : TurnView) (vs : List TurnView) (rs : Report × Store)
      → Memᴰ v vs
      → str_eq v.turn.turn_id "" ≡ false
      → x.inflight_turn v.turn.turn_id ≡ false
      → is_lost x v ≡ true
      → open_count v.turn.turn_id (apply_open_turns x false vs rs).1 ≡ 0
  unfolding apply_open_turns
  apply_open_turns-closes v [] rs m named idle lost = absurd (Memᴰ.not-nil m)
  apply_open_turns-closes v (u ∷ vs) rs (Memᴰ.head q) named idle lost =
      subst (λ u. open_count v.turn.turn_id (apply_open_turns x false (u ∷ vs) rs).1 ≡ 0) q
        (first_closes v vs rs named idle lost)
  apply_open_turns-closes v (u ∷ vs) rs (Memᴰ.tail m) named idle lost =
      apply_open_turns-closes v vs
        (if str_eq u.turn.turn_id "" then rs else apply_open_turn x false u rs) m named idle lost

  -- After a pass that is no dry run over the open turns, no turn is open that was listed with an id,
  -- is not being run by the daemon, and whose session does not run or which is too old.
  pub handle_open_turns-closes :
      (v : TurnView) (r : Report) (s : Store)
      → Memᴰ v (list_open_turns s)
      → v.turn.turn_id ≢ ""
      → x.inflight_turn v.turn.turn_id ≡ false
      → is_lost x v ≡ true
      → open_count v.turn.turn_id (handle_open_turns x false (r, s)).1 ≡ 0
  unfolding handle_open_turns
  handle_open_turns-closes v r s m named idle lost =
      apply_open_turns-closes v (list_open_turns s) (r, s) m
        (ground (arith, named, eq_iff v.turn.turn_id "")) idle lost
