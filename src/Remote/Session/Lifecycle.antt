-- ===== src/Remote/Session/Lifecycle.antt =====
-- Which sessions are in use: internal/remote/manager.go, `session`, `closing` and `activeOps`.
use host_ftp.Base.{
  ℕ, ◌+◌, ◌<◌, ◌≡◌, ◌≢◌, ◌⊎◌, refl, sym, ap, ◌∙◌, subst, List, [], ◌∷◌, ◌++◌, Option, none, some,
  inl, inr, arith, All, All-map, All-middle, length, length-append, Option-cases,
}
use host_ftp.Remote.Session.{Platform, Manager, Session, new_manager}
use host_ftp.Remote.Session.Trust.{clear_pending_trust}
use host_ftp.Remote.Session.Connect.{connect, disconnect, finish_session_close, operation, release}
use host_ftp.Remote.Session.Frame.{SameLife, Opens, clear-SameLife, connect_frame}
use host_ftp.Remote.Session.Histories.{
  System, start, Step, Reach, connects, cancels_trust, disconnects, begins, ends, closes, here,
  next,
}

abbrev pub HasNumber : Option Session → ℕ → Type 0
HasNumber o n = (x : Session) × (o ≡ some x) × (x.number ≡ n)

-- The session that was open last, or is being closed.
abbrev pub InUse : Manager → ℕ → Type 0
InUse m n = HasNumber m.session n ⊎ HasNumber m.closing n

number_of : Option Session → ℕ
number_of none = 0
number_of (some x) = x.number

same_number : (x y : Session) → some x ≡ some y → x.number ≡ y.number
unfolding number_of
same_number x y e = ap number_of e

-- What a number that was given to a closed session is not.
abbrev pub IsOver : Manager → ℕ → Type 0
IsOver m c = (c < m.next_session) × ((n : ℕ) → InUse m n → c ≢ n)

-- The counter of the operations is right, each uses the session or the one that is being closed,
-- there are not both of these, and closed sessions are gone.
pub record IsAlive (s : System) : Type 0 where
  pub counted : s.manager.active_ops ≡ length s.operations
  pub in_use : All (InUse s.manager) s.operations
  pub single : (s.manager.session ≡ none) ⊎ (s.manager.closing ≡ none)
  pub numbered : (n : ℕ) → InUse s.manager n → n < s.manager.next_session
  pub over : All (IsOver s.manager) s.closed

InUse-same : (m n : Manager) → SameLife m n → (k : ℕ) → InUse m k → InUse n k
InUse-same m n h k (inl (x, e, f)) = inl (x, h.same_session ∙ e, f)
InUse-same m n h k (inr (x, e, f)) = inr (x, h.same_closing ∙ e, f)

same_back : (m n : Manager) → SameLife m n → SameLife n m
same_back m n h = ground (arith, h)

IsOver-same : (m n : Manager) → SameLife m n → (c : ℕ) → IsOver m c → IsOver n c
IsOver-same m n h c (l, k) =
    (omega (arith, l, h.same_next), λ i u. k i (InUse-same n m (same_back m n h) i u))

keep-IsAlive :
    (s : System) (n : Manager)
    → SameLife s.manager n
    → IsAlive s
    → IsAlive (record s { manager = n })
keep-IsAlive s n h v = record {
  counted = h.same_ops ∙ v.counted;
  in_use = All-map (InUse-same s.manager n h) s.operations v.in_use;
  single = ground (arith, h, v.single);
  numbered = λ k u.
      omega
        (arith, v.numbered k (InUse-same n s.manager (same_back s.manager n h) k u), h.same_next);
  over = All-map (IsOver-same s.manager n h) s.closed v.over;
}

-- While there is no session, no operation runs.
pub unused : (m : Manager) (k : ℕ) → m.session ≡ none → m.closing ≡ none → ¬ InUse m k
unused m k e f (inl (x, g, _)) = ground (arith, e, g)
unused m k e f (inr (x, g, _)) = ground (arith, f, g)

opened_number : (m n : Manager) → Opens m n → (k : ℕ) → InUse n k → k ≡ m.next_session
opened_number m n h k (inl (x, g, e)) =
    sym e ∙ same_number x h.opened.0 (sym g ∙ h.opened.1) ∙ h.opened.2
opened_number m n h k (inr (x, g, e)) = absurd (ground (arith, h.not_closing, g))

open-IsAlive :
    (s : System) (n : Manager) → Opens s.manager n → IsAlive s → IsAlive (record s { manager = n })
open-IsAlive s n h v = record {
  counted = h.ops_kept ∙ v.counted;
  in_use =
      All-map (λ k u. absurd (unused s.manager k h.was_free h.was_closed u)) s.operations v.in_use;
  single = inr h.not_closing;
  numbered = λ k u. omega (arith, opened_number s.manager n h k u, h.next_number);
  over =
      All-map
        (λ c o. (
          omega (arith, o.0, h.next_number),
          λ k u e. omega (arith, o.0, opened_number s.manager n h k u, e),
        ))
        s.closed v.over;
}

clear-IsAlive :
    (s : System) → IsAlive s → IsAlive (record s { manager = clear_pending_trust s.manager })
clear-IsAlive s v = keep-IsAlive s (clear_pending_trust s.manager) (clear-SameLife s.manager) v

-- Disconnect makes the session the one that is being closed.
pub record Closes (x : Session) (m n : Manager) : Type 0 where
  pub left : n.session ≡ none
  pub right : n.closing ≡ some x
  pub ops_same : n.active_ops ≡ m.active_ops
  pub next_same : n.next_session ≡ m.next_session

pub disconnect_frame :
    (m : Manager)
    → SameLife m (disconnect m) ⊎ ((x : Session) × (m.session ≡ some x) × Closes x m (disconnect m))
unfolding disconnect clear_pending_trust
disconnect_frame m = elim (Option-cases m.session) [
  | inl e ↦ inl (ground (arith, e))
  | inr (x, e) ↦ inr (x, e, ground (arith, e))
]

Closes-InUse :
    (x : Session) (m n : Manager)
    → m.session ≡ some x
    → Closes x m n
    → (k : ℕ) → InUse n k
    → InUse m k
Closes-InUse x m n e h k (inl (y, g, f)) = absurd (ground (arith, h.left, g))
Closes-InUse x m n e h k (inr (y, g, f)) = inl (x, e, same_number x y (sym h.right ∙ g) ∙ f)

InUse-Closes :
    (x : Session) (m n : Manager)
    → m.session ≡ some x
    → m.closing ≡ none
    → Closes x m n
    → (k : ℕ) → InUse m k
    → InUse n k
InUse-Closes x m n e c h k (inl (y, g, f)) = inr (y, h.right ∙ sym e ∙ g, f)
InUse-Closes x m n e c h k (inr (y, g, f)) = absurd (ground (arith, c, g))

close-IsAlive :
    (s : System) (x : Session) (n : Manager)
    → s.manager.session ≡ some x
    → s.manager.closing ≡ none
    → Closes x s.manager n
    → IsAlive s
    → IsAlive (record s { manager = n })
close-IsAlive s x n e c h v = record {
  counted = h.ops_same ∙ v.counted;
  in_use = All-map (InUse-Closes x s.manager n e c h) s.operations v.in_use;
  single = inl h.left;
  numbered = λ k u. omega (arith, v.numbered k (Closes-InUse x s.manager n e h k u), h.next_same);
  over =
      All-map
        (λ c o.
          (omega (arith, o.0, h.next_same), λ k u. o.1 k (Closes-InUse x s.manager n e h k u)))
        s.closed v.over;
}

pub not_both :
    (m : Manager) (x : Session)
    → m.session ≡ some x
    → (m.session ≡ none) ⊎ (m.closing ≡ none)
    → m.closing ≡ none
not_both m x e (inl f) = absurd (ground (arith, e, f))
not_both m x e (inr f) = f

disconnect-IsAlive :
    (s : System) → IsAlive s → IsAlive (record s { manager = disconnect s.manager })
disconnect-IsAlive s v = elim (disconnect_frame s.manager) [
  | inl h ↦ keep-IsAlive s (disconnect s.manager) h v
  | inr (x, e, h) ↦ close-IsAlive s x (disconnect s.manager) e (not_both s.manager x e v.single) h v
]

pub begin_frame :
    (m n : Manager) (x : Session)
    → operation m ≡ some (x, n)
    → (m.session ≡ some x) × (n ≡ record m { active_ops = m.active_ops + 1 })
unfolding operation
begin_frame m n x h = elim (Option-cases m.session) [
  | inl e ↦ absurd (ground (arith, h, e))
  | inr (y, e) ↦ (ground (arith, h, e), ground (arith, h, e))
]

begin-IsAlive :
    (s : System) (x : Session) (n : Manager)
    → operation s.manager ≡ some (x, n)
    → IsAlive s
    → IsAlive (record s { manager = n; operations = x.number ∷ s.operations })
begin-IsAlive s x n h v =
    let (e, same) = begin_frame s.manager n x h in
    subst (λ m. IsAlive (record s { manager = m; operations = x.number ∷ s.operations })) (sym same)
      (record {
        counted = omega (arith, v.counted);
        in_use = (inl (x, e, refl), v.in_use);
        single = v.single;
        numbered = v.numbered;
        over = v.over;
      })

end-IsAlive :
    (s : System) (front back : List ℕ) (n : ℕ)
    → s.operations ≡ front ++ n ∷ back
    → IsAlive s
    → IsAlive (record s { manager = release s.manager; operations = front ++ back })
unfolding release
end-IsAlive s front back n e v = record {
  counted =
      omega
        (arith, v.counted, ap length e, length-append front (n ∷ back), length-append front back);
  in_use = (All-middle (InUse s.manager) front back n (subst (All (InUse s.manager)) e v.in_use)).1;
  single = v.single;
  numbered = v.numbered;
  over = v.over;
}

pub other_none :
    (m : Manager) (x : Session)
    → m.closing ≡ some x
    → (m.session ≡ none) ⊎ (m.closing ≡ none)
    → m.session ≡ none
other_none m x e (inl f) = f
other_none m x e (inr f) = absurd (ground (arith, e, f))

pub none_running : (ns : List ℕ) → length ns ≡ 0 → ns ≡ []
none_running [] h = refl
none_running (n ∷ ns) h = absurd (omega (arith, h))

finish-IsAlive :
    (s : System) (x : Session)
    → s.manager.closing ≡ some x
    → s.manager.active_ops ≡ 0
    → IsAlive s
    → IsAlive
        (record s { manager = finish_session_close x s.manager; closed = x.number ∷ s.closed })
unfolding finish_session_close
finish-IsAlive s x e z v =
    let m : Manager = finish_session_close x s.manager in
    let gone : s.manager.session ≡ none = other_none s.manager x e v.single in
    record {
      counted = v.counted;
      in_use =
          subst (All (InUse m)) (sym (none_running s.operations (omega (arith, v.counted, z)))) tt;
      single = inl gone;
      numbered = λ k u. absurd (unused m k gone refl u);
      over = (
        (v.numbered x.number (inr (x, e, refl)), λ k u. absurd (unused m k gone refl u)),
        All-map (λ c o. (o.0, λ k u. absurd (unused m k gone refl u))) s.closed v.over,
      );
    }

-- Every step keeps the sessions that are used open.
pub Step-IsAlive : (E : Platform) {s t : System} → Step E s t → IsAlive s → IsAlive t
Step-IsAlive E {s} (connects out q f) v = elim (connect_frame s.manager E out q) [
  | inl h ↦ keep-IsAlive s (connect E out q s.manager).0 h v
  | inr h ↦ open-IsAlive s (connect E out q s.manager).0 h v
]
Step-IsAlive E {s} cancels_trust v = clear-IsAlive s v
Step-IsAlive E {s} disconnects v = disconnect-IsAlive s v
Step-IsAlive E {s} (begins x m e) v = begin-IsAlive s x m e v
Step-IsAlive E {s} (ends front back n e) v = end-IsAlive s front back n e v
Step-IsAlive E {s} (closes x e z) v = finish-IsAlive s x e z v

-- … in any history.
pub Reach-IsAlive : (E : Platform) {s : System} → Reach E start s → IsAlive s
unfolding start new_manager
Reach-IsAlive E here = record {
  counted = refl;
  in_use = tt;
  single = inl refl;
  numbered = λ k u. absurd (unused start.manager k refl refl u);
  over = tt;
}
Reach-IsAlive E (next r st) = Step-IsAlive E st (Reach-IsAlive E r)

apart_from :
    (m : Manager) (n : ℕ) (cs : List ℕ) → InUse m n → All (IsOver m) cs → All (λ c. c ≢ n) cs
apart_from m n cs u h = All-map (λ c o. o.1 n u) cs h

-- After any history of connecting, disconnecting and operations that come and go, the counter is the
-- number of running operations, none of them uses a session that was closed, and a session that is
-- open excludes one that is still being closed.
pub Reach-closes_unused :
    (E : Platform) {s : System}
    → Reach E start s
    → (s.manager.active_ops ≡ length s.operations)
      × All (λ n. All (λ c. c ≢ n) s.closed) s.operations
      × ((s.manager.session ≡ none) ⊎ (s.manager.closing ≡ none))
Reach-closes_unused E {s} r =
    let v = Reach-IsAlive E r in
    (
      v.counted,
      All-map (λ n u. apart_from s.manager n s.closed u v.over) s.operations v.in_use,
      v.single,
    )
