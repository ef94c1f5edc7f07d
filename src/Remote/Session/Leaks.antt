-- ===== src/Remote/Session/Leaks.antt =====
-- No secret outlives its use: internal/remote/manager.go.
use host_ftp.Base.{
  ℕ, ◌+◌, ◌≡◌, ap, sym, ◌∙◌, subst, ◌⊎◌, List, ◌∷◌, none, some, inl, inr, arith, Option-cases,
  text_mem,
}
use host_ftp.Remote.Secrets.{alive, owned, forget_owned-Holds}
use host_ftp.Remote.Session.{Platform, Manager, Session, ConnectionConfig, no_config, new_manager}
use host_ftp.Remote.Session.Trust.{clear_pending_trust}
use host_ftp.Remote.Session.Connect.{disconnect, finish_session_close, operation, release}
use host_ftp.Remote.Session.Ownership.{IsKept, owners, session_owns, clear-IsKept}
use host_ftp.Remote.Session.Owners.{connect-IsKept}
use host_ftp.Remote.Session.Lifecycle.{Reach-IsAlive, not_both, begin_frame}
use host_ftp.Remote.Session.Frame.{clear-SameLife}
use host_ftp.Remote.Session.Histories.{
  System, start, Step, Reach, connects, cancels_trust, disconnects, begins, ends, closes, here,
  next,
}

closed-IsKept :
    (x : Session) (m : Manager) → m.closing ≡ some x → IsKept m → IsKept (finish_session_close x m)
unfolding finish_session_close owners session_owns
closed-IsKept x m e h =
    forget_owned-Holds x.secrets m.live (owners m)
      (λ b. owned m.pending_trust.secrets b + session_owns m.session b + 0)
      (λ b. omega (arith, ap (λ o. session_owns o b) e)) h

-- The section of Disconnect on a session.
moved-IsKept :
    (x : Session) (m : Manager)
    → m.session ≡ some x
    → m.closing ≡ none
    → IsKept m
    → (cfg : ConnectionConfig) (cancelled : List ℕ)
    → IsKept (record m { session = none; config = cfg; closing = some x; cancelled = cancelled })
unfolding owners session_owns
moved-IsKept x m e f h cfg cancelled b =
    omega (arith, h b, ap (λ o. session_owns o b) e, ap (λ o. session_owns o b) f)

disconnect-none : (m : Manager) → m.session ≡ none → disconnect m ≡ clear_pending_trust m
unfolding disconnect
disconnect-none m e = ground (arith, e, (clear-SameLife m).same_session)

disconnect-some :
    (m : Manager) (x : Session)
    → m.session ≡ some x
    → disconnect m ≡ record (clear_pending_trust m) {
      session = none;
      config = no_config;
      closing = some x;
      cancelled = x.number ∷ (clear_pending_trust m).cancelled;
    }
unfolding disconnect
disconnect-some m x e = ground (arith, e, (clear-SameLife m).same_session)

disconnected-IsKept :
    (m : Manager) → (m.session ≡ none) ⊎ (m.closing ≡ none) → IsKept m → IsKept (disconnect m)
disconnected-IsKept m v h = elim (Option-cases m.session) [
  | inl e ↦ subst IsKept (sym (disconnect-none m e)) (clear-IsKept m h)
  | inr (x, e) ↦
      let c : Manager = clear_pending_trust m in
      let same = clear-SameLife m in
      subst IsKept (sym (disconnect-some m x e)) (
        moved-IsKept x c (same.same_session ∙ e) (same.same_closing ∙ not_both m x e v)
          (clear-IsKept m h) no_config (x.number ∷ c.cancelled))
]

begun-IsKept : (x : Session) (m n : Manager) → operation m ≡ some (x, n) → IsKept m → IsKept n
unfolding owners
begun-IsKept x m n e h = subst IsKept (sym (begin_frame m n x e).1) h

-- Every step keeps each live secret with one owner.
Step-IsKept :
    (E : Platform) {s t : System}
    → Step E s t
    → (s.manager.session ≡ none) ⊎ (s.manager.closing ≡ none)
    → IsKept s.manager
    → IsKept t.manager
unfolding release owners
Step-IsKept E {s} (connects out q f) u v = connect-IsKept E out q s.manager f v
Step-IsKept E {s} cancels_trust u v = clear-IsKept s.manager v
Step-IsKept E {s} disconnects u v = disconnected-IsKept s.manager u v
Step-IsKept E {s} (begins x m e) u v = begun-IsKept x s.manager m e v
Step-IsKept E (ends front back n e) u v = v
Step-IsKept E {s} (closes x e z) u v = closed-IsKept x s.manager e v

-- After any history each secret that the broker holds has exactly one owner - the secrets that wait
-- for the confirmation of a key, the session, or the session that is being closed - and what these
-- own is held.
pub Reach-IsKept : (E : Platform) {s : System} → Reach E start s → IsKept s.manager
unfolding start new_manager owners session_owns owned alive text_mem
Reach-IsKept E here = λ b. ground arith
Reach-IsKept E (next r st) = Step-IsKept E st (Reach-IsAlive E r).single (Reach-IsKept E r)
