-- ===== src/Transfer/Binding/Steps.antt =====
-- A queued job never meets another connection than the one that it was queued for.
use host_ftp.Base.{◌≤◌, refl, sym, subst, arith, All-In}
use host_ftp.Transfer.Model.{Manager, new}
use host_ftp.Transfer.Queue.{cancel_one, over_jobs}
use host_ftp.Transfer.Frame.{over_jobs-Quiet, cancel_one-Quiet, cancel_inv}
use host_ftp.Transfer.Jobs.{
  pump-IsCalm, cancel-IsCalm, finish_job-IsCalm, set_attempt-IsCalm, update_progress-IsCalm,
}
use host_ftp.Transfer.System.{
  System, Step, Reach, start, enters, inquires, reserves, abandons, abandons_again, commits_again,
  settled_lem, commits, pumps, pauses, resumes, cancels, retries, moves, clears, enables, disables,
  shuts_down, begins, attempts, progresses, finishes, exits, connects, hangs_up, here, next,
}
use host_ftp.Transfer.Binding.{Binding, IsBound, keep_bound}
use host_ftp.Transfer.Binding.Counts.{move-Binding}
use host_ftp.Transfer.Binding.Control.{
  Quiet-control, pump_control, finish_control, exited, attempt_control, progress_control,
}
use host_ftp.Transfer.Binding.Moves.{
  clear-Binding, enable-Binding, disable-Binding, shutdown-Binding, pause-Binding, resume-Binding,
  still-Binding, retry-Binding, commit-Binding, abandon-Binding, reserve-Binding,
  unconnected-Binding, hung_up-Binding,
}

-- Every step keeps the queued jobs bound.
pub Step-IsBound : {s t : System} → Step s t → IsBound s → IsBound t
Step-IsBound enters v = record {
  bound = v.bound;
  distinct = v.distinct;
  drained = v.drained;
  past = (omega arith, v.past);
  inquired = v.inquired;
  reserved = v.reserved;
}
Step-IsBound {s} (inquires before c i e) v = record {
  bound = v.bound;
  distinct = v.distinct;
  drained = v.drained;
  past = v.past;
  inquired = (
    (All-In (λ (n : Manager). n.generation ≤ s.manager.generation) i v.past, λ _ _. e),
    v.inquired,
  );
  reserved = v.reserved;
}
Step-IsBound {s} (reserves q jobs m r i h) v = reserve-Binding q jobs s.manager m r i h v
Step-IsBound {s} (abandons front back r e) v =
    abandon-Binding front back r s.manager
      (subst (Binding s.manager s.session s.entered s.inquiries) e v)
Step-IsBound {s} (commits front back r e f) v =
    commit-Binding front back r s.manager f
      (subst (Binding s.manager s.session s.entered s.inquiries) e v)
Step-IsBound {s} (abandons_again r h) v =
    subst (λ m. IsBound (record s { manager = m })) (sym (settled_lem r s.manager h).0) v
Step-IsBound {s} (commits_again r h) v =
    subst (λ m. IsBound (record s { manager = m })) (sym (settled_lem r s.manager h).1) v
Step-IsBound {s} (pumps limit h) v =
    keep_bound s.manager _ (pump_control limit s.manager) (pump-IsCalm limit s.manager) v
Step-IsBound {s} pauses v = pause-Binding s.manager v
Step-IsBound {s} resumes v = resume-Binding s.manager v
Step-IsBound {s} (cancels wanted m h) v =
    subst (λ o. Binding o s.session s.entered s.inquiries s.reservations)
      (sym (cancel_inv wanted s.manager m h))
      (keep_bound s.manager (over_jobs (cancel_one wanted) s.manager)
        (Quiet-control _ _
          (over_jobs-Quiet (cancel_one wanted) (cancel_one-Quiet wanted) s.manager))
        (cancel-IsCalm wanted s.manager) v)
Step-IsBound {s} (retries q wanted m i h) v = retry-Binding q wanted s.manager m i h v
Step-IsBound {s} (moves id move m h) v = move-Binding id move s.manager m h v
Step-IsBound {s} clears v = clear-Binding s.manager v
Step-IsBound {s} (enables c e g) v = enable-Binding s.manager g v
Step-IsBound {s} (disables why g) v = disable-Binding why s.manager g v
Step-IsBound {s} (shuts_down g) v = shutdown-Binding s.manager g v
Step-IsBound {s} (begins front back w e) v = still-Binding s.manager _ refl (ground arith) v
Step-IsBound {s} (attempts w n i) v =
    keep_bound s.manager _ (attempt_control w.1 n s.manager) (set_attempt-IsCalm w.1 n s.manager) v
Step-IsBound {s} (progresses w now t n i) v =
    keep_bound s.manager _ (progress_control now w.1 t n s.manager)
      (update_progress-IsCalm now w.1 t n s.manager) v
Step-IsBound {s} (finishes front back w ctx_done e q) v =
    keep_bound s.manager _ (finish_control ctx_done w.1 e s.manager)
      (finish_job-IsCalm ctx_done w.1 e s.manager) v
Step-IsBound {s} (exits n e) v =
    still-Binding s.manager _ (exited s.manager).0 (exited s.manager).1 v
Step-IsBound {s} (connects c e) v = unconnected-Binding c s.manager e v
Step-IsBound {s} (hangs_up a) v = hung_up-Binding s.manager a v

-- After any history of calls, disconnects and reconnects: a job that waits in the queue is bound
-- to the connection that stands, so a transfer never starts on another server or account.
pub Reach-IsBound : {s : System} → Reach start s → IsBound s
unfolding start new
Reach-IsBound here = record {
  bound = tt;
  distinct = tt;
  drained = λ _. tt;
  past = tt;
  inquired = tt;
  reserved = tt;
}
Reach-IsBound (next r st) = Step-IsBound st (Reach-IsBound r)
