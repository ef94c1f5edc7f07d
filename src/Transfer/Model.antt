-- ===== src/Transfer/Model.antt =====
-- internal/model/types.go (TransferJob) and internal/transfer/manager.go: the jobs, the events and
-- the state of the manager. `m.mu` makes each locked section one function here.
use host_ftp.Base.{
  ℕ, ◌+◌, ◌-◌, ◌^◌, ◌%◌, Bytes, Bool, true, false, List, [], ◌∷◌, ◌++◌, Option, none, ltb,
  if◌then◌else◌, length, drop,
}
use host_ftp.Remote.Errors.{GoError}

-- The texts that the source keeps in `Status`.
pub data Status : Type 0 where
  queued running done failed cancelled skipped : Status

-- The float64 values that the source computes are kept as the expressions that compute them:
-- `share t n` is float64(t) * 100 / float64(n), cut off at 100.
pub data Percent : Type 0 where
  zero_percent full_percent : Percent
  share : ℕ → ℕ → Percent

-- `over b d` is float64(b) divided by d nanoseconds in seconds.
pub data Rate : Type 0 where
  no_rate : Rate
  over : ℕ → ℕ → Rate

-- `estimate left r` is int64(float64(left) / r + 0.5).
pub data Eta : Type 0 where
  no_eta : Eta
  estimate : ℕ → Rate → Eta

-- What stands in `Error`: nothing, "Otkazano", "Datoteka već postoji", the text that closes the
-- application ("Otkazano zatvaranjem aplikacije"), a reason from the caller, or the text of
-- usererror.Message for an error and one of its two fallbacks in finishJob.
pub data Fallback : Type 0 where
  not_cleaned not_successful : Fallback

pub data JobError : Type 0 where
  no_error cancelled_text exists_text closing_text : JobError
  reason : Bytes → JobError
  explained : GoError → Fallback → JobError

pub record Job : Type 0 where
  pub id : Bytes
  pub direction : Bytes
  pub local_path : Bytes
  pub remote_path : Bytes
  pub local_root : Bytes
  pub status : Status
  pub progress : Percent
  pub bytes_transferred : ℕ
  pub bytes_total : ℕ
  pub bytes_per_second : Rate
  pub eta_seconds : Eta
  pub started_at : Option ℕ  -- nanoseconds; `none` is ""
  pub attempts : ℕ
  pub error : JobError
  pub created_at : ℕ

unfoldable pub is_queued : Job → Bool
is_queued j = elim j.status [ queued ↦ true | _ ↦ false ]

unfoldable pub is_running : Job → Bool
is_running j = elim j.status [ running ↦ true | _ ↦ false ]

unfoldable pub is_active : Job → Bool
is_active j = elim j.status [ queued ↦ true | running ↦ true | _ ↦ false ]

-- "done", "failed", "cancelled" and "skipped".
unfoldable pub is_terminal : Job → Bool
is_terminal j = elim j.status [ queued ↦ false | running ↦ false | _ ↦ true ]

-- `Type: "job"` with one job, or `Type: "state"` with all jobs and the paused flag.
pub data Body : Type 0 where
  job_event : Job → Body
  state_event : List Job → Bool → Body

pub record Event : Type 0 where
  pub seq : ℕ
  pub body : Body

-- The fields of `Manager` but its lock and its two collaborators, and below them what its calls do
-- outside: contexts are numbered in the order in which they are made, `signalled` holds those whose
-- cancel function has been called, and `spawned` the goroutines that were started, with the context
-- and the job of each, newest first. `workers_idle` tells whether that channel is closed.
pub record Manager : Type 0 where
  pub jobs : List Job
  pub paused : Bool
  pub accepting : Bool
  pub closed : Bool
  pub running : ℕ
  pub workers : ℕ
  pub workers_idle : Bool
  pub reserved : ℕ
  pub generation : ℕ  -- uint64
  pub cancels : List (Bytes × ℕ)
  pub job_connections : List (Bytes × Bytes)
  pub events : List Event
  pub seq : ℕ  -- int64, from 0 by steps of 1: its overflow is out of reach
  pub next_context : ℕ
  pub signalled : List ℕ
  pub spawned : List (ℕ × Bytes)

unfoldable pub new : Manager
new = record {
  jobs = [];
  paused = false;
  accepting = true;
  closed = false;
  running = 0;
  workers = 0;
  workers_idle = true;
  reserved = 0;
  generation = 0;
  cancels = [];
  job_connections = [];
  events = [];
  seq = 0;
  next_context = 0;
  signalled = [];
  spawned = [];
}

abbrev pub max_transfer_jobs : ℕ
max_transfer_jobs = 20000

abbrev pub max_events : ℕ
max_events = 1000

abbrev pub kept_events : ℕ
kept_events = 500

-- The ring of events: past 1000 only the last 500 are kept.
unfoldable pub trim_events : List Event → List Event
trim_events es = if ltb max_events (length es) then drop (length es - kept_events) es else es

unfoldable pub emit : Body → Manager → Manager
unfolding trim_events
emit b m = record m {
  seq = m.seq + 1;
  events = trim_events (m.events ++ record { seq = m.seq + 1; body = b } ∷ []);
}

unfoldable pub emit_state : Manager → Manager
unfolding emit
emit_state m = emit (state_event m.jobs m.paused) m

-- `m.generation++` on a uint64.
unfoldable pub next_generation : ℕ → ℕ
next_generation g = (g + 1) % 2 ^ 64

-- progress.go, resetTransferMetrics (its second argument is not read).
unfoldable pub reset_transfer_metrics : Job → Job
reset_transfer_metrics j = record j {
  progress = zero_percent;
  bytes_transferred = 0;
  bytes_total = 0;
  bytes_per_second = no_rate;
  eta_seconds = no_eta;
  started_at = none;
}
