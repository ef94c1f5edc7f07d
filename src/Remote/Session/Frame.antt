-- ===== src/Remote/Session/Frame.antt =====
-- What Connect leaves alone: internal/remote/manager.go.
use host_ftp.Base.{
  ℕ, ◌+◌, ◌≡◌, ◌⊎◌, refl, ◌∙◌, Bytes, Bool, List, Option, none, some, inl, inr, arith, if_cases,
  Bool-cases, is_blank,
}
use host_ftp.Remote.Secrets.{Secrets, no_secrets}
use host_ftp.Remote.Session.{
  Platform, ConnectionConfig, PendingTrust, Manager, Session, Resolved, ConnectError,
}
use host_ftp.Remote.Session.Trust.{
  Protections, clear_pending_trust, stash_passphrase, stash_password, stash_pending_trust,
  apply_pending_trust, take_trust, waiting,
}
use host_ftp.Remote.Session.Connect.{
  Outside, Request, Outcome, fails, probe, start_session, stash_or_fail, trusted_sftp,
  connect_resolved, connect_body, run_deferred, connect,
}
use host_ftp.Remote.Session.Branches.{trusted_cases, scanned_cases, resolved_cases, body_cases}

-- The sessions, their contexts and the operations are the same.
pub record SameLife (m n : Manager) : Type 0 where
  pub same_session : n.session ≡ m.session
  pub same_closing : n.closing ≡ m.closing
  pub same_ops : n.active_ops ≡ m.active_ops
  pub same_next : n.next_session ≡ m.next_session
  pub same_cancelled : n.cancelled ≡ m.cancelled

-- A new session stands where there was none.
pub record Opens (m n : Manager) : Type 0 where
  pub was_free : m.session ≡ none
  pub was_closed : m.closing ≡ none
  pub opened : (x : Session) × (n.session ≡ some x) × (x.number ≡ m.next_session)
  pub not_closing : n.closing ≡ none
  pub ops_kept : n.active_ops ≡ m.active_ops
  pub next_number : n.next_session ≡ m.next_session + 1
  pub cancelled_kept : n.cancelled ≡ m.cancelled

pub clear-SameLife : (m : Manager) → SameLife m (clear_pending_trust m)
unfolding clear_pending_trust
clear-SameLife m = ground arith

trans_life : (m n o : Manager) → SameLife m n → SameLife n o → SameLife m o
trans_life m n o p q = ground arith

open_trans : (m n o : Manager) → Opens m n → SameLife n o → Opens m o
open_trans m n o p q = record {
  was_free = p.was_free;
  was_closed = p.was_closed;
  opened = (p.opened.0, q.same_session ∙ p.opened.1, p.opened.2);
  not_closing = q.same_closing ∙ p.not_closing;
  ops_kept = q.same_ops ∙ p.ops_kept;
  next_number = q.same_next ∙ p.next_number;
  cancelled_kept = q.same_cancelled ∙ p.cancelled_kept;
}

deferred-SameLife : (o : Outcome) → SameLife o.manager (run_deferred o).0
unfolding run_deferred clear_pending_trust
deferred-SameLife o =
    if_cases (SameLife o.manager) o.preserve _ _ (λ _. ground arith) (λ _. ground arith)

module _ (m : Manager) where
  record IsFramed (o : Outcome) : Type 0 where
    framed : SameLife m o.manager ⊎ Opens m o.manager

  still : (o : Outcome) → SameLife m o.manager → IsFramed o
  still o h = record { framed = inl h }

  failed-IsFramed :
      (e : ConnectError) (s : Secrets) (n : Manager) → SameLife m n → IsFramed (fails e s n)
  unfolding fails
  failed-IsFramed e s n h = record { framed = inl h }

  stashed_passphrase :
      (r : Resolved) (fp : Bytes) (p : PendingTrust) (password : Bytes) (owns : Bool) (n : Manager)
      (o : Option (Bytes × Bool × List Bytes))
      → SameLife m n
      → IsFramed (stash_or_fail r fp (stash_passphrase p password owns n o))
  unfolding stash_passphrase stash_or_fail fails
  stashed_passphrase r fp p password owns n none h = record { framed = inl (ground (arith, h)) }
  stashed_passphrase r fp p password owns n (some (b, k, l)) h = record {
    framed = inl (ground (arith, h));
  }

  stashed_password :
      (r : Resolved) (fp : Bytes) (p : PendingTrust) (given : Bytes) (answers : Protections)
      (n : Manager) (o : Option (Bytes × Bool × List Bytes))
      → SameLife m n
      → IsFramed (stash_or_fail r fp (stash_password p given r.secrets answers n o))
  unfolding stash_password
  stashed_password r fp p given answers n none h =
      unfold stash_or_fail fails in record { framed = inl h }
  stashed_password r fp p given answers n (some (b, k, l)) h =
      stashed_passphrase r fp p b k (record n { live = l }) _ (ground (arith, h))

  stashed :
      (E : Platform) (cfg : ConnectionConfig) (r : Resolved) (fp : Bytes) (now : ℕ)
      (answers : Protections) (n : Manager)
      → SameLife m n
      → IsFramed (stash_or_fail r fp (stash_pending_trust E cfg r.secrets fp now answers n))
  unfolding stash_pending_trust
  stashed E cfg r fp now answers n h =
      stashed_password r fp (waiting E cfg fp now) cfg.passphrase answers (clear_pending_trust n) _
        (trans_life m n (clear_pending_trust n) h (clear-SameLife n))

  apply-SameLife :
      (E : Platform) (cfg : ConnectionConfig) (r : Secrets) (fp : Bytes) (now : ℕ) (n : Manager)
      → SameLife m n
      → SameLife m (apply_pending_trust E cfg r fp now n).0
  unfolding apply_pending_trust take_trust
  apply-SameLife E cfg r fp now n h = ground (arith, h)

  started-IsFramed :
      (out : Outside) (cfg : ConnectionConfig) (t : Secrets → Secrets → Secrets × Secrets)
      (built : Option Secrets × List Bytes) (s : Secrets) (n : Manager)
      → m.session ≡ none
      → m.closing ≡ none
      → SameLife m n
      → IsFramed (start_session out cfg t built s n)
  unfolding start_session probe fails
  started-IsFramed out cfg t (none, live) s n e f h = record { framed = inl (ground (arith, h)) }
  started-IsFramed out cfg t (some k, live) s n e f h = elim (Bool-cases out.listed) [
    | inl l ↦ rw l (record {
      framed = inr (record {
        was_free = e;
        was_closed = f;
        opened = (record { number = n.next_session; secrets = (t s k).1 }, refl, h.same_next);
        not_closing = h.same_closing ∙ f;
        ops_kept = h.same_ops;
        next_number = omega (arith, h.same_next);
        cancelled_kept = h.same_cancelled;
      });
    })
    | inr l ↦ rw l (record { framed = inl (ground (arith, h)) })
  ]

  module _ (E : Platform) (out : Outside) (q : Request) (e : m.session ≡ none)
      (f : m.closing ≡ none) where
    trusted-IsFramed :
        (r : Resolved) (fp : Bytes) (n : Manager) (s : Secrets)
        → SameLife m n
        → IsFramed (trusted_sftp E out q r fp n s)
    trusted-IsFramed r fp n s h =
        trusted_cases IsFramed E out q r fp n s (λ x. failed-IsFramed x s n h)
          (started-IsFramed out _ _ _ s n e f h)

    connect_resolved-IsFramed :
        (r : Resolved) (n : Manager) → SameLife m n → IsFramed (connect_resolved E out q r n)
    connect_resolved-IsFramed r n h =
        resolved_cases IsFramed E out q r n (λ x. failed-IsFramed x r.secrets n h)
          (λ fp _ _.
            scanned_cases IsFramed E out q r fp n (λ x. failed-IsFramed x r.secrets n h)
              (λ x.
                failed-IsFramed x r.secrets (clear_pending_trust n)
                  (trans_life m n (clear_pending_trust n) h (clear-SameLife n)))
              (stashed E r.config r fp out.now out.protections n h)
              (λ _. trusted-IsFramed r fp n r.secrets h)
              (λ _. trusted-IsFramed r fp _ _ (apply-SameLife E r.config r.secrets fp out.now n h)))
          (λ _. started-IsFramed out r.config _ _ r.secrets n e f h)

  body-IsFramed : (E : Platform) (out : Outside) (q : Request) → IsFramed (connect_body E out q m)
  body-IsFramed E out q =
      body_cases IsFramed E out q m (λ x. failed-IsFramed x no_secrets m (ground arith))
        (λ x. failed-IsFramed x no_secrets (clear_pending_trust m) (clear-SameLife m))
        (λ r e f _.
          if_cases (λ n. IsFramed (connect_resolved E out q r n)) (is_blank q.trust)
            (clear_pending_trust m) m
            (λ _.
              connect_resolved-IsFramed E out q e f r (clear_pending_trust m) (clear-SameLife m))
            (λ _. connect_resolved-IsFramed E out q e f r m (ground arith)))

  -- Connect opens a session where there is none, or leaves the sessions as they are.
  pub connect_frame :
      (E : Platform) (out : Outside) (q : Request)
      → SameLife m (connect E out q m).0 ⊎ Opens m (connect E out q m).0
  unfolding connect
  connect_frame E out q =
      let o = connect_body E out q m in
      elim (body-IsFramed E out q).framed [
        | inl h ↦ inl (trans_life m o.manager (run_deferred o).0 h (deferred-SameLife o))
        | inr h ↦ inr (open_trans m o.manager (run_deferred o).0 h (deferred-SameLife o))
      ]
