-- ===== src/Remote/Errors.antt =====
-- internal/remote/util.go (toolError, IsRetryable), remote_cleanup_hardening.go and types.go
-- (ErrSkipped): Go's error values, and what `errors.Is` and `errors.As` find in them.
use host_ftp.Base.{
  ℤ, Bytes, codes, Bool, true, false, ◌||◌, List, [], ◌∷◌, ◌++◌, Option, none, some, if◌then◌else◌,
  contains,
}

pub record ToolError : Type 0 where
  pub tool : Bytes
  pub code : ℤ
  pub kind : Bytes
  pub retryable : Bool

-- An `error` value: `nil`, a sentinel (ErrSkipped, context.Canceled, context.DeadlineExceeded), a
-- plain text, a *toolError, a text around another error (`%w`), or a *remoteResidualArtifactError
-- with its object, operation error, cleanup error and `committed`.
pub data GoError : Type 0 where
  nil skipped canceled deadline : GoError
  text : Bytes → GoError
  tool_error : ToolError → GoError
  wrapped : Bytes → GoError → GoError
  residual : Bytes → GoError → GoError → Bool → GoError

unfoldable pub is_nil : GoError → Bool
is_nil nil = true
is_nil _ = false

-- `errors.Is(err, target)` for the three sentinels.
unfoldable pub is_skipped : GoError → Bool
is_skipped skipped = true
is_skipped (wrapped t e) = is_skipped e
is_skipped (residual o e c b) = is_skipped e || is_skipped c
is_skipped _ = false

unfoldable pub is_canceled : GoError → Bool
is_canceled canceled = true
is_canceled (wrapped t e) = is_canceled e
is_canceled (residual o e c b) = is_canceled e || is_canceled c
is_canceled _ = false

unfoldable pub is_deadline : GoError → Bool
is_deadline deadline = true
is_deadline (wrapped t e) = is_deadline e
is_deadline (residual o e c b) = is_deadline e || is_deadline c
is_deadline _ = false

-- `errors.As(err, &residual)`.
unfoldable pub is_residual : GoError → Bool
is_residual (residual o e c b) = true
is_residual (wrapped t e) = is_residual e
is_residual _ = false

unfoldable pub has_uncertain_remote_state : GoError → Bool
unfolding is_residual
has_uncertain_remote_state e = is_residual e

or_else : Option ToolError → Option ToolError → Option ToolError
or_else (some t) o = some t
or_else none o = o

-- `errors.As(err, &te)` for *toolError.
unfoldable pub as_tool_error : GoError → Option ToolError
unfolding or_else
as_tool_error (tool_error t) = some t
as_tool_error (wrapped t e) = as_tool_error e
as_tool_error (residual o e c b) = or_else (as_tool_error e) (as_tool_error c)
as_tool_error _ = none

-- `err.Error()`, as far as IsRetryable reads it: of an error with no *toolError and no residual
-- artifact in it. (The text of ErrSkipped is not read either; it is left out.)
unfoldable pub error_text : GoError → Bytes
error_text canceled = codes "context canceled"
error_text deadline = codes "context deadline exceeded"
error_text (text t) = t
error_text (wrapped t e) = t ++ error_text e
error_text _ = []

unfoldable pub contains_marker : Bytes → List Bytes → Bool
contains_marker msg [] = false
contains_marker msg (m ∷ ms) = contains msg m || contains_marker msg ms

abbrev pub permanent_markers : List Bytes
permanent_markers =
    codes "permission denied"
    ∷ codes "access denied"
    ∷ codes "authentication failed"
    ∷ codes "login denied"
    ∷ codes "login incorrect"
    ∷ codes "host key verification failed"
    ∷ codes "fingerprint"
    ∷ codes "no such file"
    ∷ codes "not found"
    ∷ codes "not a directory"
    ∷ codes "is a directory"
    ∷ codes "file exists"
    ∷ codes "already exists"
    ∷ codes "invalid argument"
    ∷ codes "unsupported"
    ∷ codes "not implemented"
    ∷ []

abbrev pub transport_markers : List Bytes
transport_markers =
    codes "connection reset"
    ∷ codes "connection timed out"
    ∷ codes "operation timed out"
    ∷ codes "connection timeout"
    ∷ codes "failed to connect"
    ∷ codes "couldn't connect"
    ∷ codes "could not connect"
    ∷ codes "connection refused"
    ∷ codes "connection closed"
    ∷ codes "broken pipe"
    ∷ codes "network is unreachable"
    ∷ codes "no route to host"
    ∷ codes "temporary failure in name resolution"
    ∷ codes "could not resolve"
    ∷ codes "recv failure"
    ∷ codes "send failure"
    ∷ codes "partial file"
    ∷ codes "server returned nothing"
    ∷ []

-- The last part of IsRetryable, on the error's lower-case text.
text_retryable : Bytes → Bool
text_retryable msg =
    if contains_marker msg permanent_markers
    then false
    else if contains_marker msg transport_markers
    then true
    else false

-- `lower` is `strings.ToLower`.
unfoldable pub is_retryable : (Bytes → Bytes) → GoError → Bool
unfolding text_retryable
is_retryable lower e =
    if is_nil e || is_skipped e || is_canceled e || is_deadline e
    then false
    else if is_residual e
    then false
    else elim (as_tool_error e) [
      | some t ↦ t.retryable
      | none ↦ text_retryable (lower (error_text e))
    ]
