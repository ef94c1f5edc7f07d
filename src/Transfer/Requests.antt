-- ===== src/Transfer/Requests.antt =====
-- internal/transfer/manager.go: validateRequest, buildJobs and selectedIDs; and the checks of
-- internal/security on a remote file path that they call.
use host_ftp.Base.{
  ℕ, ◌+◌, Bytes, codes, Bool, true, false, ◌&&◌, ◌||◌, not, List, [], ◌∷◌, Option, none, some, ltb,
  if◌then◌else◌, length, text_eq, text_mem, is_blank, contains_any, has_suffix, split, replace_byte,
  trim_space, is_utf8,
}
use host_ftp.Transfer.Model.{Job, Status, zero_percent, no_rate, no_eta, no_error}

-- One constructor for each `errors.New` of the package.
pub data Fault : Type 0 where
  nothing_selected invalid_selection : Fault
  invalid_direction missing_paths invalid_local_path invalid_local_root : Fault
  invalid_remote_path remote_path_with_dots remote_path_required : Fault
  remote_path_is_directory remote_path_no_file invalid_remote_name : Fault
  nothing_to_add random_failed not_connected : Fault
  in_request : ℕ → Fault → Fault
  manager_closed not_accepting connection_changed queue_full : Fault
  reservation_inactive connection_lost : Fault
  no_longer_active not_found : Fault
  cannot_retry retry_not_accepting other_connection : Fault

-- What a function with an error result returns.
pub data Result {ℓ} (V : Type ℓ) : Type ℓ where
  err : Fault → Result V
  ok : V → Result V

-- `if bad { return err }`.
abbrev pub refuse : Bool → Fault → Result (Unit {0})
refuse false fault = ok tt
refuse true fault = err fault

infixl 5 ◌>>◌
abbrev pub ◌>>◌ {ℓ} : {V : Type ℓ} → Result (Unit {0}) → Result V → Result V
err fault >> rest = err fault
ok u >> rest = rest

infixl 5 ◌>>=◌
abbrev pub ◌>>=◌ {ℓ κ} : {V : Type ℓ} {W : Type κ} → Result V → (V → Result W) → Result W
err fault >>= rest = err fault
ok v >>= rest = rest v

pub record Request : Type 0 where
  pub direction : Bytes
  pub local_path : Bytes
  pub remote_path : Bytes
  pub local_root : Bytes

-- "\x00\r\n".
abbrev pub line_breaks : Bytes
line_breaks = 0 ∷ 13 ∷ 10 ∷ []

abbrev upload_text : Bytes
upload_text = codes "upload"

abbrev download_text : Bytes
download_text = codes "download"

unfoldable pub validate_remote_name : Bytes → Result (Unit {0})
validate_remote_name name =
    refuse
      (is_blank name
        || text_eq name (codes ".")
        || text_eq name (codes "..")
        || ltb 1024 (length name)
        || not (is_utf8 name)
        || contains_any name (0 ∷ 13 ∷ 10 ∷ b'/' ∷ b'\\' ∷ []))
      invalid_remote_name

unfoldable pub validate_remote_path : Bytes → Result (Unit {0})
validate_remote_path p = if is_blank p then ok tt else do
  refuse (ltb 4096 (length p) || not (is_utf8 p) || contains_any p line_breaks) invalid_remote_path
  refuse (text_mem (codes "..") (split b'/' (replace_byte b'\\' b'/' p))) remote_path_with_dots

-- `clean` and `base` are `path.Clean` and `path.Base`; `abs` is whether `filepath.Abs` succeeds,
-- which depends on the working directory.
module _ (clean base : Bytes → Bytes) (abs : Bytes → Bool) where
  unfoldable pub validate_remote_file_path : Bytes → Result (Unit {0})
  unfolding validate_remote_path validate_remote_name
  validate_remote_file_path p = do
    validate_remote_path p
    refuse (is_blank p) remote_path_required
    let normalized = replace_byte b'\\' b'/' p
    refuse (has_suffix normalized (codes "/")) remote_path_is_directory
    let cleaned = clean normalized
    refuse (text_eq cleaned (codes ".") || text_eq cleaned (codes "/")) remote_path_no_file
    validate_remote_name (base cleaned)

  valid_local : Bytes → Fault → Result (Unit {0})
  valid_local p e = do
    refuse (ltb 32767 (length p) || contains_any p line_breaks) e
    refuse (not (abs p)) e

  unfoldable pub validate_request : Request → Result (Unit {0})
  unfolding validate_remote_file_path valid_local
  validate_request r = do
    refuse (not (text_eq r.direction upload_text) && not (text_eq r.direction download_text))
        invalid_direction
    refuse (is_blank (trim_space r.local_path) || is_blank (trim_space r.remote_path)) missing_paths
    valid_local r.local_path invalid_local_path
    if is_blank r.local_root then ok tt else valid_local r.local_root invalid_local_root
    validate_remote_file_path r.remote_path

  new_job : Bytes → ℕ → Request → Job
  new_job id now r = record {
    id = id;
    direction = r.direction;
    local_path = r.local_path;
    remote_path = r.remote_path;
    local_root = r.local_root;
    status = Status.queued;
    progress = zero_percent;
    bytes_transferred = 0;
    bytes_total = 0;
    bytes_per_second = no_rate;
    eta_seconds = no_eta;
    started_at = none;
    attempts = 0;
    error = no_error;
    created_at = now;
  }

  abbrev or_in_request : ℕ → Result (Unit {0}) → Result (Unit {0})
  or_in_request i (ok a) = ok a
  or_in_request i (err e) = err (in_request (i + 1) e)

  abbrev or_random_failed : Option Bytes → Result Bytes
  or_random_failed none = err random_failed
  or_random_failed (some s) = ok s

  -- The loop of buildJobs from request `i` on; `draw i` is what `id()` returns in that round.
  unfoldable pub build_from : (ℕ → Option Bytes) → ℕ → ℕ → List Request → Result (List Job)
  unfolding validate_request new_job
  build_from draw now i [] = ok []
  build_from draw now i (r ∷ rs) =
      let rest = build_from draw now (i + 1) rs in
      do
        or_in_request i (validate_request r)
        id ← or_random_failed (draw i)
        js ← rest
        ok (new_job id now r ∷ js)

  unfoldable pub build_jobs : (ℕ → Option Bytes) → ℕ → List Request → Result (List Job)
  unfolding build_from
  build_jobs draw now [] = err nothing_to_add
  build_jobs draw now (r ∷ rs) = build_from draw now 0 (r ∷ rs)

-- The keys of the map `wanted`, each once.
unfoldable pub add_id : Bytes → List Bytes → List Bytes
add_id s ids = if text_mem s ids then ids else s ∷ ids

unfoldable pub collect_ids : List Bytes → List Bytes → Result (List Bytes)
unfolding add_id
collect_ids [] wanted = ok wanted
collect_ids (s ∷ ss) wanted =
    let rest = collect_ids ss (add_id (trim_space s) wanted) in
    if is_blank (trim_space s) then err invalid_selection else rest

unfoldable pub selected_ids : List Bytes → Result (List Bytes)
unfolding collect_ids
selected_ids [] = err nothing_selected
selected_ids (s ∷ ss) = collect_ids (s ∷ ss) []
