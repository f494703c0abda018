-- ===== src/Deployments/Lifecycle.antt =====
-- What a start and a stop do to a deployment, its registry file and its process.
use meetkai.Common.Try.{Try, returned, raised}
use meetkai.Common.{
  ◌⊎◌, ◌≤◌, List, ℕ, ◌≡◌, ◌≢◌, refl, ap, sym, ◌∙◌, inl, inr, String, Bool, true, false, Option,
  none, some, [], arith, Bool-cases, Option-cases, str_eq, eq_iff,
}
use meetkai.Common.Dict.{lookup}
use meetkai.Runs.{Machine, RunRecord, RunsFile, absent, valid, get, record_is_live}
use meetkai.Deployments.{
  Deployment, run_of, resolve_run, Signal, sigterm, sigkill, Stop, stopped_run, stop, Launch, start,
}

-- A record that is the deployment's own: it stands in the file, its process is live, and its run is
-- the one of the row.
pub record IsOwn (os : Machine) (d : Deployment) (file : RunsFile) (r : RunRecord) : Type 0 where
  pub in_file : file ≡ valid r
  pub live : record_is_live os r ≡ true
  pub own : run_of d ≡ some r.run_id

-- What `stop` leaves of the row, on every branch.
pub record IsStopped (d : Deployment) : Type 0 where
  pub stopped : d.status ≡ "stopped"
  pub wanted_stopped : d.desired_state ≡ "stopped"
  pub no_restart : d.needs_restart ≡ false
  pub no_run : run_of d ≡ none
  pub no_port : lookup "control_port" d.settings ≡ none

-- A signal that is tried is for the process of the deployment's own record, which was live when it
-- was looked up; SIGKILL is tried only if the process was found live at all 21 polls after SIGTERM.
abbrev pub Sent : Machine → (ℕ → Bool) → Deployment → RunsFile → Signal × ℕ → Type 0
Sent os live d file (sigterm, pid) = (r : RunRecord) × IsOwn os d file r × (pid ≡ r.pid)
Sent os live d file (sigkill, pid) =
    ((r : RunRecord) × IsOwn os d file r × (pid ≡ r.pid)) × ((n : ℕ) → n ≤ 20 → live n ≡ true)

-- A stop either returns, with the row stopped, or raises, since a signal was denied, with the row
-- and the file's record as they were.
abbrev pub Ends : (Signal → Bool) → Deployment → Stop → Type 0
Ends denied d s =
    ((s.done ≡ returned tt) × IsStopped s.row)
    ⊎ ((s.done ≡ raised) × (s.row ≡ d) × ((sig : Signal) × (denied sig ≡ true)))

-- What `stop` makes of the signals of a live run.
abbrev after_signals : Deployment → RunsFile → List (Signal × ℕ) × Try (Unit {0}) → Stop
after_signals d file (tried, sent) = elim sent [
  | raised ↦ record { tried = tried; done = raised; row = d; file = file }
  | returned u ↦ record { tried = tried; done = returned tt; row = stopped_run d; file = absent }
]

get-live :
    (os : Machine) (r : RunRecord)
    → record_is_live os r ≡ true
    → get os (valid r) ≡ (some r, valid r)
unfolding get
get-live os r alive = rw alive refl

foreign_run :
    (os : Machine) (d : Deployment) (r : RunRecord) (run : String)
    → record_is_live os r ≡ true
    → run_of d ≡ some run
    → str_eq r.run_id run ≡ false
    → resolve_run os d (valid r) ≡ (none, valid r)
unfolding resolve_run
foreign_run os d r run alive e other =
    rw (e, get-live os r alive, resolve_run, other)
      (ap (λ (p : Option RunRecord × RunsFile). (none, p.1)) (get-live os r alive))

-- The registry file of a live run that is not the deployment's own is left as it is by a stop, which
-- sends no signal.
pub stop-foreign_run :
    (os : Machine) (live : ℕ → Bool) (denied : Signal → Bool) (d : Deployment) (r : RunRecord)
    → record_is_live os r ≡ true
    → run_of d ≢ some r.run_id
    → ((stop os live denied d (valid r)).tried ≡ [])
      × ((stop os live denied d (valid r)).file ≡ valid r)
unfolding stop
stop-foreign_run os live denied d r alive foreign = elim (Option-cases (run_of d)) [
  | inl no_run ↦ rw (no_run, stop) (refl, refl)
  | inr (run, e) ↦ elim (Bool-cases (str_eq r.run_id run)) [
    | inl ours ↦ absurd (foreign (e ∙ ap some (sym ((eq_iff r.run_id run).0 ours))))
    | inr other ↦
        let unowned = foreign_run os d r run alive e other in
        rw (e, stop, unowned) (refl, ap (λ (p : Option RunRecord × RunsFile). p.1) unowned)
  ]
]

-- A start spawns a process only for a known bot type with its connections ready and with no live run
-- of its own.
pub start-spawns :
    (os : Machine) (l : Launch) (d : Deployment) (file : RunsFile)
    → (start os l d file).1 ≡ true
    → (l.known_type ≡ true) × (l.connected ≡ true) × ((resolve_run os d file).0 ≡ none)
unfolding start
start-spawns os l d file h = elim (Option-cases (resolve_run os d file).0) [
  | inr (r, found) ↦ absurd (ground (arith, found))
  | inl missing ↦ (ground (arith, missing), ground (arith, missing), missing)
]
