-- ===== src/Lib.antt =====
-- The gateway daemon of agentd, its store and the decisions it takes, as executable definitions.
--
-- agentd keeps a ledger of GitHub webhook deliveries in SQLite. The dispatcher takes queued
-- deliveries through the intake gate and defers them to the session loop, which moves one session for
-- each issue through a state machine, hands turns to an architect or a developer agent, pauses the
-- session for its owner, and checks GitHub before a merge. A governor stops all of it while the disk is
-- short.
--
-- Which file models which part, all under agentd/src/agentd:
--   fsm.py            Fsm.antt: `transition`, the states and the event kinds
--   loop_safety.py    LoopSafety.antt: BudgetState, SilentTurnTracker, StallTracker
--   db.py             Store.antt and Store/: a record for each table of SCHEMA (Store/Rows), the store
--                     as the lists of rows, a function for each method of `Store`
--   intake.py         Intake.antt: `evaluate_intake`, `_label_names`; Payload.antt is the parsed body
--   dispatcher.py     Dispatcher.antt: `_handle`, `drain_once`
--   governor.py       Governor.antt: `sample_once`
--   verify.py         Verify.antt (approvals), Verify/CheckClasses (required checks), Verify/Merge
--                     (`verify_feature_merge`), Verify/BranchRules (`verify_branch_pull_request_rules`)
--   session_loop.py   SessionLoop.antt: `_pick_recipient`, `_escalate`, `_resume_from_escalation` up to
--                     the supervisor's call, the FSM step of `_process_one`;
--                     SessionLoop/StallSignals: `_observe_stall_signals`;
--                     SessionLoop/Kinds: `_event_kind`;
--                     SessionLoop/Process: `_process_one` as a chain of steps, each of which hands a
--                     value on, ends the delivery or raises: Resolve and Admit (which session), Events
--                     (what ends early), Approvals and Merges (what GitHub must show), Route, Heads,
--                     Step (the transition and its gates), Dispatch (the turn, its retries and
--                     counters), Whole (the chain, and `process_deferred_batch`)
--                     SessionLoop/Resuming: `process_resuming_turns`, `resume_interrupted_turn`
--   reconciler.py     Reconciler.antt (the report, `_decide`) and Reconciler/: Containers (containers,
--                     runners, probes), OpenTurns, Synthesis (the deliveries made of what GitHub
--                     shows), Sweep (the notes of a closed issue, `_adopt_forward`), Makes (head
--                     drift, untracked pull requests, nodes), Github (`_sweep_github`), Pass
--                     (`reconcile_once`)
--   review_stats.py   ReviewStats.antt: `collect_session_review_stats`, `collect_review_stats`
--   routing.py        Routing.antt: the markers, the footers, `route_for_recipient`
--   gitops.py         Gitops.antt: the names of directories and branches, `parse_role_branch`,
--                     `local_branch_gone`, `scratch_dir_cleared`
--   gc.py             Gc.antt (the report, the archive), Gc/Sweeps (directories, worktrees, containers),
--                     Gc/Collect (the ledger, `git gc`, `collect_once`)
-- Prelude.antt holds what the files share; Prelude/Tables reads SELECT, COUNT, UPDATE, DELETE and ORDER
-- BY as functions on lists, Prelude/Regex a pattern of `re` as a list of pieces matched with
-- backtracking, Prelude/Decimal `str` and `int` of a number. The other files below a part's module
-- hold its proofs; Tests holds runs on concrete inputs.
--
-- How the program is read:
--   - A method of the store is one transaction: a function from the store to the store and its result.
--     A Python exception is `none` or a constructor of the result. `time.time()` is an argument `now`.
--   - Numbers are natural numbers. Times and ids are not negative in the program either.
--   - States, statuses and reasons are constructors where the program has texts; a text that the
--     program does not name is the constructor `other` with it.
--   - GitHub is the record `Github` of functions, `none` where the call raises. The disk reader, posted
--     comments, SHA-256, the threads and diffs of a pull request and the session loop's batch calls of
--     the dispatcher are arguments too.
--   - Rows with equal sort keys keep the order of their insertion. `lower` and `upper` act on the ASCII
--     letters, which are those of logins, states and labels.
--   - `_process_one` has its surroundings as the record `Outside`: settings, GitHub, the supervisor, the
--     runner's turn, and the handlers of a closed or edited issue, which are not modelled. It reads the
--     clock once for a delivery. The in-memory dictionaries are fields of the record `World`.
--   - The reconciler has Docker, GitHub, the probe of a runner and its settings as the record `Seams`, and
--     the runner's answer to a resumed turn is the record `Calls`; each pass reads the clock once.
--     `breaks_off` says after how many of its steps an exception ends the sweep of a session.
--   - The store raises nothing but what its methods raise themselves. The handlers that are not modelled
--     may raise, and `_dispatch_turn` and the sources of the stall signals too; `_process_one` then ends
--     with `raised`, which `process_deferred_batch` counts.
--   - The garbage collection has the files, Docker and git as the records `Surroundings` and `Disk`.
--     What it unlinks and the clones it hands to `git gc` are lists of its report. The statistics of
--     reviews have what a stored payload holds as the function `parts`.
--   - White space is that of `str.isspace`; `\w`, digits, `lower` and `upper` are those of ASCII.
--   - Recursion is on lists, texts and numbers. The digits of a number are made with one more fuel than
--     the number, which each division by ten lowers.
--
-- Not modelled: threads and locks (each operation runs alone), the SQL of migrations, HTTP and HMAC, the
-- git subprocesses, Docker, the runner in the container, the verification block, and the rest of the
-- session loop: `_dispatch_turn`, the handlers of a closed or edited issue and of a structural refusal,
-- and the teardown. The owner's reply restores a paused session by `_resume_from_escalation`, and not by
-- the state machine.
pub mod Dispatcher
pub mod Fsm
pub mod Gc
pub mod Gitops
pub mod Governor
pub mod Intake
pub mod LoopSafety
pub mod Payload
pub mod Prelude
pub mod Reconciler
pub mod ReviewStats
pub mod Routing
pub mod SessionLoop
pub mod Store
pub mod Tests
pub mod Verify
