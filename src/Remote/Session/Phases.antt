-- ===== src/Remote/Session/Phases.antt =====
-- What a connection promises its users, and that internal/remote/manager.go keeps to it.
use host_ftp.Base.{
  ℕ, ◌+◌, ◌≡◌, refl, sym, ap, ◌∙◌, subst, List, [], ◌∷◌, ◌++◌, Option, none, some, inl, inr, arith,
  length, length-append, All,
}
use host_ftp.Remote.Session.{Platform, Manager, Session, new_manager}
use host_ftp.Remote.Session.Trust.{clear_pending_trust}
use host_ftp.Remote.Session.Connect.{connect, disconnect, finish_session_close, release}
use host_ftp.Remote.Session.Frame.{SameLife, Opens, clear-SameLife, connect_frame}
use host_ftp.Remote.Session.Lifecycle.{
  IsAlive, Reach-IsAlive, InUse, Closes, disconnect_frame, begin_frame, not_both, other_none,
  unused,
}
use host_ftp.Remote.Session.Histories.{
  System, start, Step, Reach, connects, cancels_trust, disconnects, begins, ends, closes,
}

pub data Phase : Type 0 where
  idle : Phase
  standing closing : ℕ → Phase

-- The phase, the running operations and the number of the next session.
pub record Connection : Type 0 where
  pub phase : Phase
  pub users : ℕ
  pub upcoming : ℕ

abbrev pub unused_yet : Connection
unused_yet = record { phase = idle; users = 0; upcoming = 0 }

-- The promise: a session is opened only while there is none and nobody uses one, with a new number;
-- an operation begins only on the open session; a session that was left stays until the last
-- operation has ended.
-- The kinds of steps.
pub data Deed : Type 0 where
  connecting cancelling disconnecting beginning ending finishing : Deed

-- Only Connect, the cancelling of a trust and Disconnect may leave the connection as it is.
pub data IsIdling : Deed → Type 0 where
  no_session_opened : IsIdling Deed.connecting
  trust_dropped : IsIdling Deed.cancelling
  nothing_left : IsIdling Deed.disconnecting

pub data Moves : Deed → Connection → Connection → Type 0 where
  rests : {d : Deed} {a : Connection} → IsIdling d → Moves d a a
  opens :
      {n : ℕ}
      → Moves Deed.connecting
          (record { phase = idle; users = 0; upcoming = n })
          (record { phase = standing n; users = 0; upcoming = n + 1 })
  uses :
      {n k m : ℕ}
      → Moves Deed.beginning
          (record { phase = standing n; users = k; upcoming = m })
          (record { phase = standing n; users = k + 1; upcoming = m })
  stops :
      {p : Phase} {k m : ℕ}
      → Moves Deed.ending
          (record { phase = p; users = k + 1; upcoming = m })
          (record { phase = p; users = k; upcoming = m })
  leaves :
      {n k m : ℕ}
      → Moves Deed.disconnecting
          (record { phase = standing n; users = k; upcoming = m })
          (record { phase = closing n; users = k; upcoming = m })
  finishes :
      {n m : ℕ}
      → Moves Deed.finishing
          (record { phase = closing n; users = 0; upcoming = m })
          (record { phase = idle; users = 0; upcoming = m })

-- How a manager is seen.
closing_phase : Option Session → Phase
closing_phase none = idle
closing_phase (some x) = closing x.number

phase_of : Option Session → Option Session → Phase
unfolding closing_phase
phase_of none c = closing_phase c
phase_of (some x) c = standing x.number

pub view : Manager → Connection
view m = record {
  phase = phase_of m.session m.closing;
  users = m.active_ops;
  upcoming = m.next_session;
}

same-view : (m n : Manager) → SameLife m n → view n ≡ view m
unfolding view
same-view m n h = rw (h.same_session, h.same_closing, h.same_ops, h.same_next) refl

rest-Moves : (d : Deed) (m n : Manager) → IsIdling d → SameLife m n → Moves d (view m) (view n)
rest-Moves d m n i h = subst (Moves d (view m)) (sym (same-view m n h)) (rests i)

-- The view from its three parts.
view_lem :
    (m : Manager) (o c : Option Session) (k n : ℕ)
    → m.session ≡ o
    → m.closing ≡ c
    → m.active_ops ≡ k
    → m.next_session ≡ n
    → view m ≡ record { phase = phase_of o c; users = k; upcoming = n }
unfolding view
view_lem m o c k n e f g h = rw (e, f, g, h) refl

open-Moves :
    (m n : Manager) → Opens m n → m.active_ops ≡ 0 → Moves Deed.connecting (view m) (view n)
unfolding phase_of closing_phase
open-Moves m n h z =
    let (x, e, f) = h.opened in
    rw
      (
        view_lem m none none 0 m.next_session h.was_free h.was_closed z refl,
        view_lem n (some x) none 0 (m.next_session + 1) e h.not_closing (h.ops_kept ∙ z)
            h.next_number,
        f,
      )
      opens

leave-Moves :
    (x : Session) (m n : Manager)
    → m.session ≡ some x
    → m.closing ≡ none
    → Closes x m n
    → Moves Deed.disconnecting (view m) (view n)
unfolding phase_of closing_phase
leave-Moves x m n e f h =
    rw
      (
        view_lem m (some x) none m.active_ops m.next_session e f refl refl,
        view_lem n none (some x) m.active_ops m.next_session h.left h.right h.ops_same h.next_same,
      )
      leaves

use-Moves :
    (x : Session) (m n : Manager)
    → m.session ≡ some x
    → n ≡ record m { active_ops = m.active_ops + 1 }
    → Moves Deed.beginning (view m) (view n)
unfolding phase_of closing_phase
use-Moves x m n e f =
    rw
      (
        f,
        view_lem m (some x) m.closing m.active_ops m.next_session e refl refl refl,
        view_lem (record m { active_ops = m.active_ops + 1 }) (some x) m.closing (m.active_ops + 1)
            m.next_session e refl refl refl,
      )
      uses

stop-Moves :
    (m : Manager) (k : ℕ) → m.active_ops ≡ k + 1 → Moves Deed.ending (view m) (view (release m))
unfolding release
stop-Moves m k e =
    rw
      (
        view_lem m m.session m.closing (k + 1) m.next_session refl refl e refl,
        view_lem (release m) m.session m.closing k m.next_session refl refl (omega (arith, e)) refl,
      )
      stops

finish-Moves :
    (x : Session) (m : Manager)
    → m.session ≡ none
    → m.closing ≡ some x
    → m.active_ops ≡ 0
    → Moves Deed.finishing (view m) (view (finish_session_close x m))
unfolding phase_of closing_phase finish_session_close
finish-Moves x m e f z =
    rw
      (
        view_lem m none (some x) 0 m.next_session e f z refl,
        view_lem (finish_session_close x m) none none 0 m.next_session e refl z refl,
      )
      finishes

-- Without a session nobody uses one.
nobody :
    (s : System)
    → s.manager.session ≡ none
    → s.manager.closing ≡ none
    → IsAlive s
    → s.manager.active_ops ≡ 0
nobody s e f v = v.counted ∙ empty s.operations v.in_use
  where
    empty : (ns : List ℕ) → All (InUse s.manager) ns → length ns ≡ 0
    empty [] h = refl
    empty (n ∷ ns) h = absurd (unused s.manager n e f h.0)

unfoldable pub deed : {E : Platform} {s t : System} → Step E s t → Deed
deed (connects out q f) = Deed.connecting
deed cancels_trust = Deed.cancelling
deed disconnects = Deed.disconnecting
deed (begins x m e) = Deed.beginning
deed (ends front back n e) = Deed.ending
deed (closes x e z) = Deed.finishing

Step-Moves :
    (E : Platform) {s t : System} (st : Step E s t)
    → IsAlive s
    → Moves (deed st) (view s.manager) (view t.manager)
unfolding deed
Step-Moves E {s} (connects out q f) v = elim (connect_frame s.manager E out q) [
  | inl h ↦
      rest-Moves Deed.connecting s.manager (connect E out q s.manager).0 IsIdling.no_session_opened
        h
  | inr h ↦
      open-Moves s.manager (connect E out q s.manager).0 h (nobody s h.was_free h.was_closed v)
]
Step-Moves E {s} cancels_trust v =
    rest-Moves Deed.cancelling s.manager (clear_pending_trust s.manager) IsIdling.trust_dropped
      (clear-SameLife s.manager)
Step-Moves E {s} disconnects v = elim (disconnect_frame s.manager) [
  | inl h ↦ rest-Moves Deed.disconnecting s.manager (disconnect s.manager) IsIdling.nothing_left h
  | inr (x, e, h) ↦
      leave-Moves x s.manager (disconnect s.manager) e (not_both s.manager x e v.single) h
]
Step-Moves E {s} (begins x m e) v =
    let b = begin_frame s.manager m x e in use-Moves x s.manager m b.0 b.1
Step-Moves E {s} (ends front back n e) v = stop-Moves s.manager (length (front ++ back)) (
    omega (arith, v.counted, ap length e, length-append front (n ∷ back), length-append front back))
Step-Moves E {s} (closes x e z) v = finish-Moves x s.manager (other_none s.manager x e v.single) e z

-- After any history, each further step of the manager is, seen from outside, a move that the promise
-- allows for a step of its kind; and a new manager is seen without a session and unused.
pub Reach-Moves :
    (E : Platform) {s t : System}
    → Reach E start s
    → (st : Step E s t)
    → (view new_manager ≡ unused_yet) × Moves (deed st) (view s.manager) (view t.manager)
unfolding new_manager view phase_of closing_phase
Reach-Moves E r st = (refl, Step-Moves E st (Reach-IsAlive E r))
