-- ===== src/Remote/Session/Histories.antt =====
-- The connection in the course of time: internal/remote/manager.go. A step is one call, or the
-- section of a call between two waits; the calls of the engine and the operations of transfers
-- take turns in any order.
use host_ftp.Base.{ℕ, ◌≡◌, List, [], ◌∷◌, ◌++◌, some}
use host_ftp.Remote.Session.{Platform, Manager, Session, new_manager}
use host_ftp.Remote.Session.Trust.{clear_pending_trust}
use host_ftp.Remote.Session.Connect.{
  Outside, Request, connect, disconnect, finish_session_close, operation, release,
}
use host_ftp.Remote.Session.Handover.{IsFresh}

-- The manager, the session that each running operation uses, and the sessions that were closed.
pub record System : Type 0 where
  pub manager : Manager
  pub operations : List ℕ
  pub closed : List ℕ

unfoldable pub start : System
start = record { manager = new_manager; operations = []; closed = [] }

pub data Step (E : Platform) : System → System → Type 0 where
  connects :
      {s : System} (out : Outside) (q : Request)
      → IsFresh out.protections s.manager.live
      → Step E s (record s { manager = (connect E out q s.manager).0 })
  cancels_trust : {s : System} → Step E s (record s { manager = clear_pending_trust s.manager })
  disconnects : {s : System} → Step E s (record s { manager = disconnect s.manager })
  begins :
      {s : System} (x : Session) (m : Manager)
      → operation s.manager ≡ some (x, m)
      → Step E s (record s { manager = m; operations = x.number ∷ s.operations })
  ends :
      {s : System} (front back : List ℕ) (n : ℕ)
      → s.operations ≡ front ++ n ∷ back
      → Step E s (record s { manager = release s.manager; operations = front ++ back })
  closes :
      {s : System} (x : Session)
      → s.manager.closing ≡ some x
      → s.manager.active_ops ≡ 0
      → Step E s
          (record s { manager = finish_session_close x s.manager; closed = x.number ∷ s.closed })

pub data Reach (E : Platform) (s : System) : System → Type 0 where
  here : Reach E s s
  next : {t u : System} → Reach E s t → Step E t u → Reach E s u
