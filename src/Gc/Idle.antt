-- ===== src/Gc/Idle.antt =====
-- Where agentd/src/agentd/gc.py runs `git gc`.
use code_workflow.Prelude.{
  String, ◌≡◌, refl, ◌⊎◌, inl, inr, List, [], ◌∷◌, ◌++◌, Bool, true, false, not, ◌||◌, arith,
  str_eq, any, All, Memᴰ, Bool-cases, if◌then◌else◌,
}
use code_workflow.Gitops.{shared_clone_path}
use code_workflow.Store.Rows.{Store, Session}
use code_workflow.Store.Sessions.{list_sessions, live_project_keys}
use code_workflow.Gc.{Surroundings, no_admit_lock, GcReport, new_gc_report}
use code_workflow.Gc.Collect.{project_of, has_clone, git_gc_of, maybe_git_gc, collect_clone}

module _ (x : Surroundings) (s : Store) where
  -- A clone of a stored session whose project has no session that is not CLOSED.
  pub record IsIdle (sessions : List Session) (clone : String) : Type 0 where
    pub sess : Session
    pub listed : Memᴰ sess sessions
    pub its_clone : clone ≡ shared_clone_path x.root sess.repo
    pub idle : live_project_keys s (project_of x false sess) ≡ false

  All-append :
      (P : String → Type 0) (cs : List String) (a : String) → All P cs → P a → All P (cs ++ a ∷ [])
  All-append P [] a h p = (p, tt)
  All-append P (b ∷ bs) a (q, h) p = (q, All-append P bs a h p)

  not-or : (a b c : Bool) → (a || b || c) ≡ false → c ≡ false
  not-or a b c h = ground arith

  git_gc_of-IsIdle :
      (ss : List Session) (seen : List String) (todo : List Session) (r : GcReport)
      → ((sess : Session) → Memᴰ sess todo → Memᴰ sess ss)
      → All (IsIdle ss) r.git_gc_runs
      → All (IsIdle ss) (git_gc_of x false s seen todo r).git_gc_runs
  unfolding git_gc_of
  git_gc_of-IsIdle ss seen [] r within h = h
  git_gc_of-IsIdle ss seen (sess ∷ todo) r within h =
      let clone = shared_clone_path x.root sess.repo in
      let passed = str_eq sess.repo "" || any (str_eq sess.repo) seen in
      let live = live_project_keys s (project_of x false sess) in
      let skip = passed || not (has_clone x false clone) || live in
      let seen' = if passed then seen else sess.repo ∷ seen in
      let rest = λ (y : Session) (m : Memᴰ y todo). within y (Memᴰ.tail m) in
      let next = if skip then r else collect_clone x false sess.repo clone r in
      let kept : All (IsIdle ss) next.git_gc_runs = elim (Bool-cases skip) [
        | inl e ↦ rw e h
        | inr e ↦ rw e (
            All-append (IsIdle ss) r.git_gc_runs clone h (record {
              sess = sess;
              listed = within sess (Memᴰ.head refl);
              its_clone = refl;
              idle = not-or passed (not (has_clone x false clone)) live e;
            }))
      ] in
      git_gc_of-IsIdle ss seen' todo next rest kept

  -- A pass runs `git gc` only with the admission lock at hand, and only in a clone of a stored session
  -- whose project has no session that is not CLOSED.
  pub maybe_git_gc-IsIdle :
      ((x.has_admit_lock ≡ true) ⊎ ((maybe_git_gc x false s new_gc_report).git_gc_runs ≡ []))
      × All (IsIdle (list_sessions s)) (maybe_git_gc x false s new_gc_report).git_gc_runs
  unfolding maybe_git_gc
  maybe_git_gc-IsIdle = locked x.has_admit_lock
    where
      locked :
          (b : Bool)
          → let r =
              if b
              then git_gc_of x false s [] (list_sessions s) new_gc_report
              else record new_gc_report { git_gc = no_admit_lock ∷ [] } in
            ((b ≡ true) ⊎ (r.git_gc_runs ≡ [])) × All (IsIdle (list_sessions s)) r.git_gc_runs
      locked true = (
        inl refl,
        git_gc_of-IsIdle (list_sessions s) [] (list_sessions s) new_gc_report (λ y m. m) tt,
      )
      locked false = (inr refl, tt)
