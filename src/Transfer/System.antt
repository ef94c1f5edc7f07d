-- ===== src/Transfer/System.antt =====
-- The queue in its surroundings: goroutines and callers take turns at the manager's lock, in any
-- order. internal/api/engine.go says when the connection comes and goes: Connect refuses while a
-- session stands and enables the queue once it has one, and Disconnect and Close disable the queue
-- before they end the session. (Overlapping calls of Connect and Disconnect are not modelled.)
use host_ftp.Base.{
  ℕ, suc, ◌+◌, ◌^◌, ◌≤◌, ◌<◌, ◌≡◌, arith, Bytes, Bool, true, false, List, [], ◌∷◌, ◌++◌, Option,
  none, some, All, In, text_eq,
}
use host_ftp.Remote.Errors.{GoError}
use host_ftp.Transfer.Model.{Manager, Job, new}
use host_ftp.Transfer.Requests.{ok}
use host_ftp.Transfer.Scheduler.{pump, worker_exited, finish_job, set_attempt, update_progress}
use host_ftp.Transfer.Queue.{
  Reservation, reserve_batch, cancel_reservation, commit_locked, pause, resume_locked, cancel_batch,
  retry_locked, clear_finished, enable_locked, disable_and_cancel, shutdown,
}
use host_ftp.Transfer.Reorder.{QueuedMove, moved, move_queued}

-- What ReserveBatch and RetryBatch have in hand between their two locks: the state at the first
-- lock, and the answer of ConnectionIdentity.
pub record Inquiry : Type 0 where
  pub before : Manager
  pub connection : Bytes

-- `entered` holds the states at first locks, `executing` the goroutines that run `execute` and
-- have not come to finishJob, with context and job, and `leaving` counts those behind it.
pub record System : Type 0 where
  pub manager : Manager
  pub session : Option Bytes
  pub reservations : List Reservation
  pub entered : List Manager
  pub inquiries : List Inquiry
  pub executing : List (ℕ × Bytes)
  pub leaving : ℕ

unfoldable pub start : System
unfolding new
start = record {
  manager = new;
  session = none;
  reservations = [];
  entered = [];
  inquiries = [];
  executing = [];
  leaving = 0;
}

-- No job of the list has the id.
abbrev pub LacksId : Bytes → List Job → Type 0
LacksId id = All (λ j. text_eq j.id id ≡ false)

-- The ids of a batch are new, and differ from one another (80 random bits each).
abbrev pub IsFresh : List Job → List Job → Type 0
IsFresh old [] = Unit {0}
IsFresh old (j ∷ js) = LacksId j.id old × LacksId j.id js × IsFresh old js

abbrev pub max_parallelism : ℕ
max_parallelism = 8

-- A reservation as a call of Cancel or Commit leaves it. (Such a call may come again: the callers
-- defer Cancel also where they commit.)
pub data IsSettled : Reservation → Type 0 where
  by_cancel : (r : Reservation) (m : Manager) → IsSettled (cancel_reservation r m).0
  by_commit : (r : Reservation) (m : Manager) → IsSettled (commit_locked r m).0

-- One locked section, or one act of the surroundings.
pub data Step (s : System) : System → Type 0 where
  enters : Step s (record s { entered = s.manager ∷ s.entered })
  inquires :
      (before : Manager) (c : Bytes)
      → In before s.entered
      → s.session ≡ some c
      → Step s (record s { inquiries = record { before = before; connection = c } ∷ s.inquiries })
  reserves :
      (q : Inquiry) (jobs : List Job) (m : Manager) (r : Reservation)
      → In q s.inquiries
      → reserve_batch q.before (some q.connection) jobs s.manager ≡ ok (m, r)
      → Step s (record s { manager = m; reservations = r ∷ s.reservations })
  abandons :
      (front back : List Reservation) (r : Reservation)
      → s.reservations ≡ front ++ r ∷ back
      → Step s
          (record s { manager = (cancel_reservation r s.manager).1; reservations = front ++ back })
  abandons_again :
      (r : Reservation)
      → IsSettled r
      → Step s (record s { manager = (cancel_reservation r s.manager).1 })
  commits_again :
      (r : Reservation)
      → IsSettled r
      → Step s (record s { manager = (commit_locked r s.manager).1 })
  commits :
      (front back : List Reservation) (r : Reservation)
      → s.reservations ≡ front ++ r ∷ back
      → IsFresh s.manager.jobs r.jobs
      → Step s (record s { manager = (commit_locked r s.manager).1; reservations = front ++ back })
  pumps :
      (limit : ℕ) → limit ≤ max_parallelism → Step s (record s { manager = pump limit s.manager })
  pauses : Step s (record s { manager = pause s.manager })
  resumes : Step s (record s { manager = resume_locked s.manager })
  cancels :
      (wanted : List Bytes) (m : Manager)
      → cancel_batch wanted s.manager ≡ ok m
      → Step s (record s { manager = m })
  retries :
      (q : Inquiry) (wanted : List Bytes) (m : Manager)
      → In q s.inquiries
      → retry_locked q.before (some q.connection) wanted s.manager ≡ ok m
      → Step s (record s { manager = m })
  moves :
      (id : Bytes) (move : QueuedMove) (m : Manager)
      → move_queued id move s.manager ≡ moved m
      → Step s (record s { manager = m })
  clears : Step s (record s { manager = clear_finished s.manager })
  enables :
      (c : Bytes)
      → s.session ≡ some c
      → s.manager.generation + 1 < 2 ^ 64
      → Step s (record s { manager = enable_locked s.manager })
  disables :
      (why : Bytes)
      → s.manager.generation + 1 < 2 ^ 64
      → Step s (record s { manager = disable_and_cancel why s.manager })
  shuts_down :
      s.manager.generation + 1 < 2 ^ 64 → Step s (record s { manager = shutdown s.manager })
  begins :
      (front back : List (ℕ × Bytes)) (w : ℕ × Bytes)
      → s.manager.spawned ≡ front ++ w ∷ back
      → Step s (record s {
        manager = record (s.manager) { spawned = front ++ back };
        executing = w ∷ s.executing;
      })
  attempts :
      (w : ℕ × Bytes) (attempt : ℕ)
      → In w s.executing
      → Step s (record s { manager = set_attempt w.1 attempt s.manager })
  progresses :
      (w : ℕ × Bytes) (now transferred total : ℕ)
      → In w s.executing
      → Step s (record s { manager = update_progress now w.1 transferred total s.manager })
  finishes :
      (front back : List (ℕ × Bytes)) (w : ℕ × Bytes) (ctx_done : Bool) (e : GoError)
      → s.executing ≡ front ++ w ∷ back
      → Step s (record s {
        manager = finish_job ctx_done w.1 e s.manager;
        executing = front ++ back;
        leaving = s.leaving + 1;
      })
  exits :
      (n : ℕ)
      → s.leaving ≡ suc n
      → Step s (record s { manager = worker_exited s.manager; leaving = n })
  connects : (c : Bytes) → s.session ≡ none → Step s (record s { session = some c })
  hangs_up : s.manager.accepting ≡ false → Step s (record s { session = none })

-- Any history.
pub data Reach (s : System) : System → Type 0 where
  here : Reach s s
  next : {t u : System} → Reach s t → Step t u → Reach s u

IsSettled-done : {r : Reservation} → IsSettled r → r.done ≡ true
unfolding cancel_reservation commit_locked
IsSettled-done (by_cancel r m) = ground arith
IsSettled-done (by_commit r m) = ground arith

-- A call on a settled reservation leaves the manager as it is.
pub settled_lem :
    (r : Reservation) (m : Manager)
    → IsSettled r
    → ((cancel_reservation r m).1 ≡ m) × ((commit_locked r m).1 ≡ m)
unfolding cancel_reservation commit_locked
settled_lem r m h = (ground (arith, IsSettled-done h), ground (arith, IsSettled-done h))
