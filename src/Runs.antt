-- ===== src/Runs.antt =====
-- `src/kai/runs.py`: the registry file of one bot instance, which holds at most one live run.
pub mod Registry
use Prim.Native.Char.{Char, code}
use meetkai.Common.{
  ℕ, zero, ◌+◌, ◌≡◌, String, Bool, true, false, ◌&&◌, ◌||◌, Option, none, some, List, [], ◌∷◌, leb,
  ◌==◌, if◌then◌else◌,
}
use meetkai.Common.Text.{is_empty}

pub record RunRecord : Type 0 where
  pub run_id : String
  pub endpoint : String
  pub hmac_key : String
  pub hmac_algorithm : String
  pub pid : ℕ
  pub pid_start : Option ℕ
  pub started_at : String

-- What the operating system tells of processes: the start tick of a pid, if it can be read, and
-- whether a process with that pid exists.
pub record Machine : Type 0 where
  pub proc_start_time : ℕ → Option ℕ
  pub pid_alive : ℕ → Bool

unfoldable pub record_is_live : Machine → RunRecord → Bool
record_is_live os r = elim r.pid_start [
  | none ↦ os.pid_alive r.pid
  | some start ↦ elim (os.proc_start_time r.pid) [
    | none ↦ os.pid_alive r.pid
    | some current ↦ current == start
  ]
]

-- The file: it may be missing, hold no JSON object, hold an object that is no record, or a record.
pub data RunsFile : Type 0 where
  absent unreadable invalid : RunsFile
  valid : RunRecord → RunsFile

-- `RunRegistry.get`: the live record, and the file afterwards.
unfoldable pub get : Machine → RunsFile → Option RunRecord × RunsFile
unfolding record_is_live
get os absent = (none, absent)
get os unreadable = (none, unreadable)
get os invalid = (none, absent)
get os (valid r) = if record_is_live os r then (some r, valid r) else (none, absent)

-- `RunRegistry.replace`
unfoldable pub replace : RunRecord → RunsFile → RunsFile
replace r file = valid r

-- `[A-Za-z0-9._@+-]`
unfoldable pub is_safe : ℕ → Bool
is_safe c =
    (leb b'A' c && leb c b'Z')
    || (leb b'a' c && leb c b'z')
    || (leb b'0' c && leb c b'9')
    || c == b'.'
    || c == b'_'
    || c == b'@'
    || c == b'+'
    || c == b'-'

unfoldable pub clean : String → String
unfolding is_safe
clean String.[] = String.[]
clean (String.◌∷◌ c s) = String.◌∷◌ (if is_safe (code c) then c else "_") (clean s)

unfoldable pub sanitize_instance_id : String → String
unfolding clean
sanitize_instance_id instance_id =
    let cleaned = clean instance_id in if is_empty cleaned then "unknown" else cleaned
