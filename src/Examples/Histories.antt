-- ===== src/Examples/Histories.antt =====
-- Histories of the transfer queue: internal/transfer/manager.go.
use host_ftp.Base.{
  List, ◌++◌, ◌+◌, ◌-◌, ◌≤◌, ◌<◌, ◌≡◌, refl, Bytes, codes, false, [], ◌∷◌, none, some, arith,
  length, count, In, replace_first, text_eq,
}
use host_ftp.Transfer.Model.{
  Event, Status, Job, Manager, Percent, Rate, Eta, no_error, new, emit, emit_state, state_event,
  trim_events, is_queued,
}
use host_ftp.Transfer.Scheduler.{pump}
use host_ftp.Transfer.Queue.{Reservation, reserve_batch, commit_locked, events_since}
use host_ftp.Transfer.Reorder.{move_top, moved, move_queued}
use host_ftp.Transfer.Slots.{KeepsJobs, move_queued_lem}
use host_ftp.Transfer.System.{
  System, Inquiry, start, Reach, here, next, enters, inquires, reserves, commits, pumps, begins,
  connects,
}
use host_ftp.Transfer.Events.{IsRing, emit-IsRing, Consecutive, events_since_complete}
use host_ftp.Transfer.Events.Rings.{Reach-IsRing}
use host_ftp.Transfer.Workers.{IsCounted, Reach-IsCounted}
use host_ftp.Transfer.Capacity.{HasRoom, Reach-HasRoom}
use host_ftp.Transfer.Binding.{IsBound}
use host_ftp.Transfer.Binding.Steps.{Reach-IsBound}

abbrev job_named : Bytes → Status → Job
job_named id st = record {
  id = id;
  direction = codes "upload";
  local_path = codes "/home/a/f.txt";
  remote_path = codes "/f.txt";
  local_root = [];
  status = st;
  progress = Percent.zero_percent;
  bytes_transferred = 0;
  bytes_total = 0;
  bytes_per_second = Rate.no_rate;
  eta_seconds = Eta.no_eta;
  started_at = none;
  attempts = 0;
  error = no_error;
  created_at = 1;
}

abbrev one : Job
one = job_named (codes "1") Status.queued

abbrev two : Job
two = job_named (codes "2") Status.queued

abbrev server : Bytes
server = codes "user@host"

abbrev held : Reservation
held = record { jobs = one ∷ two ∷ []; generation = 0; connection_id = server; done = false }

connected : Manager → System
connected m = record {
  manager = m;
  session = some server;
  reservations = [];
  entered = [];
  inquiries = [];
  executing = [];
  leaving = 0;
}

asked : Inquiry
asked = record { before = new; connection = server }

connected_history : Reach start (connected new)
unfolding start connected
connected_history = next here (connects server refl)

reserved_history : Reach start (record (connected (record new { reserved = 2 })) {
  entered = new ∷ [];
  inquiries = asked ∷ [];
  reservations = held ∷ [];
})
unfolding connected asked new
reserved_history = next (next (next connected_history enters) (inquires new server In.hd refl)) (
    reserves asked (one ∷ two ∷ []) (record new { reserved = 2 }) held In.hd
      (unfold reserve_batch in refl))

-- Both jobs run on two goroutines; the first has come to its first attempt.
committed : Manager
committed = (commit_locked held (record new { reserved = 2 })).1

pumped : Manager
pumped = pump 2 committed

working : System
working = record (connected (record pumped { spawned = (1, codes "2") ∷ [] })) {
  entered = new ∷ [];
  inquiries = asked ∷ [];
  executing = (0, codes "1") ∷ [];
}

pumped_history :
    Reach start (record (connected pumped) { entered = new ∷ []; inquiries = asked ∷ [] })
unfolding connected asked committed pumped new
pumped_history =
    next
      (next reserved_history
        (commits [] [] held refl (unfold text_eq in (tt, (refl, tt), (tt, tt, tt)))))
      (pumps 2 (omega arith))

two_spawned : pumped.spawned ≡ (1, codes "2") ∷ (0, codes "1") ∷ []
unfolding pumped committed commit_locked new pump replace_first is_queued
two_spawned = refl

working_history : Reach start working
unfolding working connected
working_history = next pumped_history (begins ((1, codes "2") ∷ []) [] (0, codes "1") two_spawned)

both_running : count is_queued working.manager.jobs ≡ 0
unfolding working connected pumped committed commit_locked new pump count is_queued replace_first
both_running = refl

Reach-IsBound_example : IsBound working
Reach-IsBound_example = Reach-IsBound working_history

Reach-IsCounted_example : IsCounted working
Reach-IsCounted_example = Reach-IsCounted working_history

Reach-HasRoom_example : HasRoom working
Reach-HasRoom_example = Reach-HasRoom working_history

-- Three events have been reported, and the client has seen one.
three_events : Manager
three_events = emit_state (emit_state (emit_state new))

three_events-IsRing : IsRing three_events
unfolding three_events emit_state new
three_events-IsRing = emit-IsRing _ _ (
    emit-IsRing _ _ (
      emit-IsRing _ new (record {
        short = omega arith;
        within = omega arith;
        filled = λ h. absurd (omega arith);
        consecutive = tt;
      })))

three_events_lem : (three_events.seq ≡ 3) × (length three_events.events ≡ 3)
unfolding three_events emit_state new emit trim_events
three_events_lem = (refl, refl)

events_since_complete_example :
    (three_events.seq - length three_events.events ≤ 1
      → Consecutive 1 (events_since 1 three_events).0
        × (1 + length (events_since 1 three_events).0 ≡ three_events.seq)
        × ((old : List Event) × (three_events.events ≡ old ++ (events_since 1 three_events).0)))
    × (1 < three_events.seq - length three_events.events
        → (events_since 1 three_events).0
          ≡ record {
            seq = three_events.seq;
            body = state_event three_events.jobs three_events.paused;
          }
            ∷ [])
events_since_complete_example =
    events_since_complete 1 three_events three_events-IsRing (omega arith)
      (omega (arith, three_events_lem.0))

-- Two jobs wait around one that runs; the last one is moved to the top.
waiting : Manager
waiting = record new { jobs = one ∷ job_named (codes "3") Status.running ∷ two ∷ [] }

reordered_jobs : Manager
reordered_jobs =
    emit_state (record waiting { jobs = two ∷ job_named (codes "3") Status.running ∷ one ∷ [] })

moved_to_top : move_queued (codes "2") move_top waiting ≡ moved reordered_jobs
unfolding move_queued waiting reordered_jobs new text_eq is_queued
moved_to_top = refl

move_queued_lem_example : KeepsJobs waiting.jobs reordered_jobs.jobs
move_queued_lem_example = move_queued_lem (codes "2") move_top waiting reordered_jobs moved_to_top

Reach-IsRing_example : IsRing working.manager
Reach-IsRing_example = Reach-IsRing working_history
