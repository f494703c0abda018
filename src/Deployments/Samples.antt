-- ===== src/Deployments/Samples.antt =====
-- Examples: two deployments, of which the first is running on port 8200, and its registry file.
use meetkai.Common.{Bool, false, ◌≡◌, ◌≢◌, refl, Bool, true, none, some, [], ◌∷◌, arith, str_eq}
use meetkai.Common.Try.{Try, returned}
use meetkai.Runs.{Machine, RunRecord, valid, get, record_is_live}
use meetkai.Deployments.{
  Signal, Deployment, int, allocate_control_port, run_of, Launch, start, clear_stale,
}

abbrev mailer : Deployment
mailer = record {
  id = 1;
  instance_id = "email-a@b";
  bot_type = "email";
  run_id = some "r1";
  status = "running";
  desired_state = "running";
  settings = ("control_port", int 8200) ∷ [];
  needs_restart = true;
}

abbrev idle : Deployment
idle = record mailer { id = 2; run_id = none; status = "stopped"; settings = [] }

abbrev os : Machine
os = record { proc_start_time = λ pid. some 7; pid_alive = λ pid. true }

abbrev own_run : RunRecord
own_run = record {
  run_id = "r1";
  endpoint = "http://127.0.0.1:8200";
  hmac_key = "k";
  hmac_algorithm = "sha512";
  pid = 42;
  pid_start = some 7;
  started_at = "now";
}

abbrev manual_run : RunRecord
manual_run = record own_run { run_id = "r2" }

abbrev launch : Launch
launch = record { known_type = true; connected = true; spawn = some "r3" }

-- The probe of the idle deployment finds no bot, and that of the other one answers.
abbrev probe : Deployment → Try Bool
probe d = returned (str_eq d.status "running")

allocated : allocate_control_port (mailer ∷ idle ∷ []) ≡ returned 8201
unfolding allocate_control_port
allocated = refl

handed_out : (get os (valid own_run)).0 ≡ some own_run
unfolding get
handed_out = refl

spawned : (start os launch idle (valid manual_run)).1 ≡ true
unfolding start
spawned = refl

other_run : run_of mailer ≢ some "r2"
other_run h = let same : str_eq "r1" "r2" ≡ true = cc h in absurd (ground (arith, same))

checked : clear_stale probe (mailer ∷ idle ∷ []) ≡ returned (mailer ∷ idle ∷ [])
unfolding clear_stale
checked = refl

manual-live : record_is_live os manual_run ≡ true
unfolding record_is_live
manual-live = refl

abbrev never_denied : Signal → Bool
never_denied s = false
