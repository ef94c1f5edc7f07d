-- ===== src/Transfer/Attempts.antt =====
-- internal/transfer/manager.go: execute and runAttempt, a job's attempts and the errors after which
-- there is another one.
use host_ftp.Base.{
  ℕ, zero, suc, ℤ, ◌+◌, ◌≤◌, ◌≡◌, Bytes, codes, Bool, true, false, ◌&&◌, ◌||◌, not, List, [], ◌∷◌,
  arith, ◌==◌, if◌then◌else◌, length, text_eq, is_blank,
}
use host_ftp.Remote.Errors.{GoError, nil, is_nil, is_skipped, is_residual, is_retryable}
use host_ftp.Config.Settings.{Settings}
use host_ftp.Transfer.Model.{Job}
use host_ftp.Transfer.Bandwidth.{bandwidth_limit_bytes_per_second}

pub record TransferOptions : Type 0 where
  pub keep_backup : Bool
  pub skip_existing : Bool
  pub local_root : Bytes
  pub bandwidth_limit : ℤ

-- `dir` is `filepath.Dir`.
unfoldable pub attempt_root : (Bytes → Bytes) → Job → Bytes
attempt_root dir j =
    if text_eq j.direction (codes "download") && is_blank j.local_root
    then dir j.local_path
    else j.local_root

-- The options that runAttempt hands to the session: `settings` are those of the start of execute,
-- `current` those of this attempt.
unfoldable pub attempt_options : (Bytes → Bytes) → Job → Settings → Settings → TransferOptions
unfolding attempt_root
attempt_options dir j settings current = record {
  keep_backup = settings.backup_before_overwrite;
  skip_existing = settings.skip_existing;
  local_root = attempt_root dir j;
  bandwidth_limit = bandwidth_limit_bytes_per_second current j.direction;
}

-- What happens around attempt n: `ctx.Err()` before it, what runAttempt returns, whether the
-- context has ended behind it, and what waitRetryDelay returns.
pub record Course : Type 0 where
  pub before : ℕ → GoError
  pub run : ℕ → GoError
  pub ended : ℕ → Bool
  pub wait : ℕ → GoError

module _ (lower : Bytes → Bytes) (c : Course) where
  -- The loop of execute with `left` attempts left and attempt a next: the attempts that are made,
  -- and the error for finishJob.
  unfoldable pub attempts_from : ℕ → ℕ → List ℕ × GoError
  attempts_from zero a = ([], nil)
  attempts_from (suc left) a =
      let rest = attempts_from left (a + 1) in
      if not (is_nil (c.before a))
      then ([], c.before a)
      else if is_nil (c.run a) || is_skipped (c.run a)
      then (a ∷ [], c.run a)
      else if c.ended a || left == 0 || not (is_retryable lower (c.run a))
      then (a ∷ [], c.run a)
      else if not (is_nil (c.wait a))
      then (a ∷ [], c.wait a)
      else (a ∷ rest.0, rest.1)

  -- `auto_retry_count` is not negative in valid settings. (A job that is no longer there fails
  -- before; a panic ends the loop with an error.)
  unfoldable pub execute : ℕ → List ℕ × GoError
  unfolding attempts_from
  execute auto_retry_count = attempts_from (1 + auto_retry_count) 1

  -- After each attempt but the last came a retryable error that leaves the server's state known.
  pub IsCautious : List ℕ → Type 0
  IsCautious [] = Unit
  IsCautious (a ∷ []) = Unit
  IsCautious (a ∷ b ∷ bs) =
      (is_retryable lower (c.run a) ≡ true)
      × (is_residual (c.run a) ≡ false)
      × (c.ended a ≡ false)
      × IsCautious (b ∷ bs)

  IsCautious-cons :
      (a : ℕ) (bs : List ℕ)
      → is_retryable lower (c.run a) ≡ true
      → is_residual (c.run a) ≡ false
      → c.ended a ≡ false
      → IsCautious bs
      → IsCautious (a ∷ bs)
  unfolding IsCautious
  IsCautious-cons a [] r u e h = tt
  IsCautious-cons a (b ∷ bs) r u e h = (r, u, e, h)

  retryable_certain : (e : GoError) → is_retryable lower e ≡ true → is_residual e ≡ false
  unfolding is_retryable
  retryable_certain e h = ground (arith, h)

  -- The rounds by their outcome: none, one attempt and the end, or one attempt and the rest.
  attempts_cases {κ} :
      (P : List ℕ → Type κ) (left a : ℕ)
      → P []
      → P (a ∷ [])
      → (is_retryable lower (c.run a) ≡ true
          → c.ended a ≡ false
          → P (a ∷ (attempts_from left (a + 1)).0))
      → P (attempts_from (suc left) a).0
  unfolding attempts_from
  attempts_cases P left a x y z = ground (arith, x, y, z)

  attempts_lem :
      (left a : ℕ) → (length (attempts_from left a).0 ≤ left) × IsCautious (attempts_from left a).0
  unfolding attempts_from IsCautious
  attempts_lem zero a = (omega arith, tt)
  attempts_lem (suc left) a =
      let (n, h) = attempts_lem left (a + 1) in
      attempts_cases (λ made. (length made ≤ suc left) × IsCautious made) left a (omega arith, tt)
        (omega arith, tt)
        (λ r e. (
          omega (arith, n),
          IsCautious-cons a (attempts_from left (a + 1)).0 r (retryable_certain (c.run a) r) e h,
        ))

  -- At most one attempt more than the settings' number of retries is made, and another one only
  -- after a retryable error that leaves the server's state known, with the context still alive.
  pub execute_lem :
      (auto_retry_count : ℕ)
      → (length (execute auto_retry_count).0 ≤ 1 + auto_retry_count)
        × IsCautious (execute auto_retry_count).0
  unfolding execute
  execute_lem auto_retry_count = attempts_lem (1 + auto_retry_count) 1
