-- ===== src/Examples/Batches.antt =====
-- Examples on batches, starts and versions: internal/transfer/manager.go and internal/updatecheck.
use host_ftp.Base.{
  ◌+◌, ◌-◌, ◌≡◌, refl, min, Bytes, codes, true, List, [], ◌∷◌, none, some, arith, All, Each, count,
  text_eq, trim_space, is_blank, text_mem,
}
use host_ftp.Transfer.Model.{
  Status, Job, Manager, Percent, Rate, Eta, no_error, new, is_queued, is_active,
}
use host_ftp.Transfer.Requests.{ok, selected_ids, add_id, collect_ids}
use host_ftp.Transfer.Scheduler.{pump}
use host_ftp.Transfer.Queue.{cancel_batch, retry_locked}
use host_ftp.Transfer.Starts.{pump_starts, run_first}
use host_ftp.Transfer.Binding.{Distinct}
use host_ftp.Transfer.Selections.{Names}
use host_ftp.Transfer.Selections.Batches.{
  Cancels, Retries, IsRetriable, IsOpenSince, cancel_batch_lem, retry_locked_lem,
}
use host_ftp.Update.Versions.{Version, IsSmall, parse_version, format_version}
use host_ftp.Update.Printing.{parse_version-format_version}

abbrev release : Version
release = record { major = 1; minor = 20; patch = 0 }

release-IsSmall : IsSmall release
unfolding IsSmall
release-IsSmall = (omega arith, omega arith, omega arith)

parse_version-format_version_example : parse_version (format_version release) ≡ some release
parse_version-format_version_example = parse_version-format_version release release-IsSmall

abbrev job_of : Bytes → Status → Job
job_of id st = record {
  id = id;
  direction = codes "download";
  local_path = codes "/home/a/g.txt";
  remote_path = codes "/g.txt";
  local_root = [];
  status = st;
  progress = Percent.zero_percent;
  bytes_transferred = 0;
  bytes_total = 0;
  bytes_per_second = Rate.no_rate;
  eta_seconds = Eta.no_eta;
  started_at = none;
  attempts = 0;
  error = no_error;
  created_at = 2;
}

-- One job waits, one runs and one has failed.
abbrev three : Manager
three = record new {
  accepting = true;
  running = 1;
  jobs =
      job_of (codes "a") Status.queued
      ∷ job_of (codes "b") Status.running
      ∷ job_of (codes "c") Status.failed
      ∷ [];
  job_connections = (codes "c", codes "server") ∷ [];
}

pump_starts_example :
    ((pump 3 three).running ≡ three.running + min (3 - three.running) (count is_queued three.jobs))
    × (count is_queued (pump 3 three).jobs
        ≡ count is_queued three.jobs - min (3 - three.running) (count is_queued three.jobs))
    × ((pump 3 three).jobs ≡ run_first (3 - three.running) three.jobs)
pump_starts_example = pump_starts 3 three refl (unfold new in refl) (unfold new in refl)

three-Distinct : Distinct three.jobs
unfolding text_eq
three-Distinct = ((refl, (refl, tt)), ((refl, tt), (tt, tt)))

abbrev both : List Bytes
both = codes " a" ∷ codes "b" ∷ codes "a" ∷ []

both_chosen : selected_ids both ≡ ok (codes "b" ∷ codes "a" ∷ [])
unfolding selected_ids collect_ids add_id trim_space is_blank text_mem text_eq
both_chosen = refl

cancel_batch_lem_example :
    (All (Names (λ j. is_active j ≡ true) three.jobs) (codes "b" ∷ codes "a" ∷ [])
      → (n : Manager) × (cancel_batch (codes "b" ∷ codes "a" ∷ []) three ≡ ok n))
    × ((n : Manager)
        → cancel_batch (codes "b" ∷ codes "a" ∷ []) three ≡ ok n
        → All (Names (λ j. is_active j ≡ true) three.jobs) (codes "b" ∷ codes "a" ∷ [])
          × Each (Cancels (codes "b" ∷ codes "a" ∷ [])) three.jobs n.jobs)
cancel_batch_lem_example =
    cancel_batch_lem both (codes "b" ∷ codes "a" ∷ []) three both_chosen three-Distinct

failed_chosen : selected_ids (codes "c" ∷ []) ≡ ok (codes "c" ∷ [])
unfolding selected_ids collect_ids add_id trim_space is_blank text_mem text_eq
failed_chosen = refl

retry_locked_lem_example :
    (IsOpenSince three three
      → All (Names (IsRetriable (codes "server") three) three.jobs) (codes "c" ∷ [])
      → (n : Manager) × (retry_locked three (some (codes "server")) (codes "c" ∷ []) three ≡ ok n))
    × ((n : Manager)
        → retry_locked three (some (codes "server")) (codes "c" ∷ []) three ≡ ok n
        → IsOpenSince three three
          × All (Names (IsRetriable (codes "server") three) three.jobs) (codes "c" ∷ [])
          × Each (Retries (codes "c" ∷ [])) three.jobs n.jobs)
retry_locked_lem_example =
    retry_locked_lem three (codes "server") (codes "c" ∷ []) (codes "c" ∷ []) three failed_chosen
      three-Distinct
