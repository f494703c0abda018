-- ===== src/Deployments.antt =====
-- `src/kai/cockpit/deployments.py`, `deployment_process.py` and `deployment_helpers.py`: the life of a
-- bot deployment, from its start to its deletion, and the restart of crashed bots.
pub mod Ports
pub mod Lifecycle
pub mod Reconcile
pub mod Samples
use meetkai.Common.{
  ℕ, zero, suc, ◌+◌, String, Bool, true, false, not, ◌&&◌, ◌||◌, Option, none, some, List, [], ◌∷◌,
  ◌++◌, any, ltb, ◌==◌, str_eq, if◌then◌else◌, is_some,
}
use meetkai.Common.Text.{is_empty}
use meetkai.Common.Dict.{Dict, lookup, put, remove}
use meetkai.Common.Try.{Try, returned, raised, ◌>>=◌}
use meetkai.Runs.{Machine, RunRecord, RunsFile, absent, get}

-- A value of the settings: only whether it is an integer matters here.
pub data Setting : Type 0 where
  int : ℕ → Setting
  other : String → Setting

-- A row of the table. `control_port` is a key of `settings`; the fields that an edit writes are left
-- out.
pub record Deployment : Type 0 where
  pub id : ℕ
  pub instance_id : String
  pub bot_type : String
  pub run_id : Option String
  pub status : String
  pub desired_state : String
  pub settings : Dict Setting
  pub needs_restart : Bool

-- The integers under `control_port` of the running rows.
unfoldable pub used_ports : List Deployment → List ℕ
unfolding lookup
used_ports [] = []
used_ports (d ∷ ds) =
    let rest = used_ports ds in
    if str_eq d.status "running"
    then elim (lookup "control_port" d.settings) [
      | some (int port) ↦ port ∷ rest
      | some (other text) ↦ rest
      | none ↦ rest
    ]
    else rest

abbrev pub is_used : ℕ → List ℕ → Bool
is_used port used = any (λ p. p == port) used

-- The loop over `range(8200, 8300)`, of which `left` ports are left.
unfoldable pub first_free : List ℕ → ℕ → ℕ → Option ℕ
first_free used zero port = none
first_free used (suc left) port =
    let later = first_free used left (port + 1) in if is_used port used then later else some port

-- `allocate_control_port`; `raised` is its RuntimeError.
unfoldable pub allocate_control_port : List Deployment → Try ℕ
unfolding used_ports first_free
allocate_control_port rows = elim (first_free (used_ports rows) 100 8200) [
  | none ↦ raised
  | some port ↦ returned port
]

-- A `run_id` that is None or empty is no run.
abbrev pub run_of : Deployment → Option String
run_of d = elim d.run_id [ none ↦ none | some run ↦ if is_empty run then none else some run ]

-- `resolve_run`: the live record of the instance's file if it is this run's, and the file, from which
-- `get` may have pruned a stale record. Each operation below empties the cache first, so the file is
-- read.
unfoldable pub resolve_run : Machine → Deployment → RunsFile → Option RunRecord × RunsFile
unfolding get
resolve_run os d file = elim (run_of d) [
  | none ↦ (none, file)
  | some run ↦
      let (found, file') = get os file in
      elim found [
        | none ↦ (none, file')
        | some r ↦ if str_eq r.run_id run then (some r, file') else (none, file')
      ]
]

unfoldable pub clear_control_port : Deployment → Deployment
unfolding remove
clear_control_port d = record d { settings = remove "control_port" d.settings }

pub data Signal : Type 0 where
  sigterm sigkill : Signal

-- The polls of `record_is_live` after SIGTERM, at most 20 in the loop and one after it: whether one
-- of the first `n` finds the process gone.
unfoldable pub goes_away : (ℕ → Bool) → ℕ → Bool
goes_away live zero = false
goes_away live (suc n) = not (live n) || goes_away live n

-- The signals that `stop` sends to a live run, and whether it goes on; `denied` tells which signals
-- the system does not let it send, a PermissionError. An absent process is passed over.
unfoldable pub send_signals :
    (ℕ → Bool) → (Signal → Bool) → RunRecord → List (Signal × ℕ) × Try (Unit {0})
unfolding goes_away
send_signals live denied r =
    if denied sigterm
    then ((sigterm, r.pid) ∷ [], raised)
    else if goes_away live 20 || not (live 20)
    then ((sigterm, r.pid) ∷ [], returned tt)
    else (
      (sigterm, r.pid) ∷ (sigkill, r.pid) ∷ [],
      (if denied sigkill then raised else returned tt),
    )

abbrev stopped_row : Deployment → Deployment
stopped_row d = record d { status = "stopped"; desired_state = "stopped"; needs_restart = false }

abbrev pub stopped_run : Deployment → Deployment
stopped_run d = clear_control_port (record (stopped_row d) { run_id = none })

-- What a stop leaves: the signals that it tried, whether it returns, the row and the file.
pub record Stop : Type 0 where
  pub tried : List (Signal × ℕ)
  pub done : Try (Unit {0})
  pub row : Deployment
  pub file : RunsFile

-- `stop`; `live` answers the polls. An exception leaves the row and the file as they are.
unfoldable pub stop : Machine → (ℕ → Bool) → (Signal → Bool) → Deployment → RunsFile → Stop
unfolding resolve_run clear_control_port send_signals
stop os live denied d file = elim (run_of d) [
  | none ↦ record {
    tried = [];
    done = returned tt;
    row = clear_control_port (stopped_row d);
    file = file;
  }
  | some run ↦
      let (found, file') = resolve_run os d file in
      elim found [
        | none ↦ record { tried = []; done = returned tt; row = stopped_run d; file = file' }
        | some r ↦
            let (tried, sent) = send_signals live denied r in
            elim sent [
              | raised ↦ record { tried = tried; done = raised; row = d; file = file' }
              | returned u ↦ record {
                tried = tried;
                done = returned tt;
                row = stopped_run d;
                file = absent;
              }
            ]
      ]
]

-- How a start ends: unknown bot type, a live run, a missing connection, a spawn that fails, or a run.
pub data Started : Type 0 where
  unknown_type already_running connection_required startup_failed : Started
  running_as : String → Started

-- What a start reads: whether the bot type is known, whether the required connections are ready, and
-- what the spawned process does (the run id that it registers, or none).
pub record Launch : Type 0 where
  pub known_type : Bool
  pub connected : Bool
  pub spawn : Option String

-- `start`. The second component tells whether a process was spawned.
unfoldable pub start :
    Machine → Launch → Deployment → RunsFile → Started × Bool × Deployment × RunsFile
unfolding resolve_run
start os l d file =
    let (found, file') = resolve_run os d file in
    if not l.known_type
    then (unknown_type, false, d, file)
    else if is_some found
    then (already_running, false, d, file')
    else if not l.connected
    then (connection_required, false, d, file')
    else elim l.spawn [
      | none ↦ (startup_failed, true, d, file')
      | some run ↦ (
        running_as run,
        true,
        record d {
          run_id = some run;
          status = "running";
          desired_state = "running";
          needs_restart = false;
        },
        file',
      )
    ]

-- One round of the first loop of `reconcile_deployments`; `fetch_status` tells whether the bot answers,
-- and an exception of it ends the reconciliation.
unfoldable pub check_row : (Deployment → Try Bool) → Deployment → Try Deployment
unfolding clear_control_port
check_row fetch_status d =
    if str_eq d.status "running"
    then elim (fetch_status d) [
      | raised ↦ raised
      | returned true ↦ returned d
      | returned false ↦
          returned (clear_control_port (record d { status = "stopped"; needs_restart = false }))
    ]
    else returned d

unfoldable pub clear_stale : (Deployment → Try Bool) → List Deployment → Try (List Deployment)
unfolding check_row
clear_stale fetch_status [] = returned []
clear_stale fetch_status (d ∷ ds) =
    check_row fetch_status d >>= λ d'. clear_stale fetch_status ds >>= λ ds'. returned (d' ∷ ds')

-- The second loop: the deployments that it starts, in order. A bot that answers is left alone, and so
-- is one whose probe raises; an exception of `start` is logged.
unfoldable pub to_restart : (Deployment → Try Bool) → List Deployment → List Deployment
to_restart fetch_status [] = []
to_restart fetch_status (d ∷ ds) =
    let rest = to_restart fetch_status ds in
    if str_eq d.desired_state "running"
    then elim (fetch_status d) [ returned false ↦ d ∷ rest | returned true ↦ rest | raised ↦ rest ]
    else rest

unfoldable pub topbar_level : ℕ → ℕ → String
topbar_level running unexpected_down =
    if not (unexpected_down == 0)
    then (if running == 0 then "down" else "warn")
    else if ltb 0 running
    then "ok"
    else "warn"

unfoldable pub count_running : List Deployment → ℕ
count_running [] = 0
count_running (d ∷ ds) = (if str_eq d.status "running" then 1 else 0) + count_running ds

unfoldable pub count_unexpected_down : List Deployment → ℕ
count_unexpected_down [] = 0
count_unexpected_down (d ∷ ds) =
    (if str_eq d.desired_state "running" && not (str_eq d.status "running") then 1 else 0)
    + count_unexpected_down ds

-- `topbar_status` for the rows of a user that is logged in.
unfoldable pub topbar_status : List Deployment → String
unfolding topbar_level count_running count_unexpected_down
topbar_status [] = "none"
topbar_status (d ∷ ds) = topbar_level (count_running (d ∷ ds)) (count_unexpected_down (d ∷ ds))
