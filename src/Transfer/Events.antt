-- ===== src/Transfer/Events.antt =====
-- The ring of events: internal/transfer/manager.go, emitLocked and Events.
pub mod Rings
use host_ftp.Base.{
  ℕ, zero, suc, ◌+◌, ◌-◌, ◌≤◌, ◌<◌, ◌≡◌, refl, ap, subst, inl, inr, false, List, [], ◌∷◌, ◌++◌,
  arith, ltb, lt→ltb, length, drop, length-append, length-drop, Bool-cases,
}
use host_ftp.Transfer.Model.{
  Manager, Event, Body, state_event, emit, trim_events, max_events, kept_events,
}
use host_ftp.Transfer.Queue.{events_since, after_seq, has_gap}

-- The events carry the numbers n + 1, n + 2, ... in turn.
abbrev pub Consecutive : ℕ → List Event → Type 0
Consecutive n [] = Unit {0}
Consecutive n (e ∷ es) = (e.seq ≡ n + 1) × Consecutive (n + 1) es

-- The ring holds the last events that were emitted, at most 1000 of them, with no gap.
pub record IsRing (m : Manager) : Type 0 where
  pub short : length m.events ≤ max_events
  pub within : length m.events ≤ m.seq
  pub filled : 0 < m.seq → 0 < length m.events
  pub consecutive : Consecutive (m.seq - length m.events) m.events

Consecutive-append :
    (n : ℕ) (es : List Event) (e : Event)
    → Consecutive n es
    → e.seq ≡ n + length es + 1
    → Consecutive n (es ++ e ∷ [])
Consecutive-append n [] e h s = (omega arith, tt)
Consecutive-append n (x ∷ es) e h s = (h.0, Consecutive-append (n + 1) es e h.1 (omega arith))

Consecutive-drop :
    (n k : ℕ) (es : List Event) → Consecutive n es → k ≤ length es → Consecutive (n + k) (drop k es)
Consecutive-drop n zero es h l = subst (λ i. Consecutive i es) (omega arith) h
Consecutive-drop n (suc k) [] h l = tt
Consecutive-drop n (suc k) (e ∷ es) h l =
    subst (λ i. Consecutive i (drop k es)) (omega arith)
      (Consecutive-drop (n + 1) k es h.1 (omega arith))

-- A ring whose events are not yet trimmed.
trimmed :
    (seq : ℕ) (es : List Event)
    → length es ≤ max_events + 1
    → length es ≤ seq
    → Consecutive (seq - length es) es
    → 0 < length es
    → (length (trim_events es) ≤ max_events)
      × (0 < length (trim_events es))
      × (length (trim_events es) ≤ seq)
      × Consecutive (seq - length (trim_events es)) (trim_events es)
unfolding trim_events
trimmed seq es short within h some_event = elim (Bool-cases (ltb max_events (length es))) [
  | inr e ↦ rw e (ground arith, some_event, within, h)
  | inl e ↦
      let k : ℕ = length es - kept_events in
      let l : length (drop k es) ≡ length es - k = length-drop k es in
      rw e (
        ground arith,
        ground arith,
        ground arith,
        subst (λ i. Consecutive i (drop k es)) (ground arith)
            (Consecutive-drop (seq - length es) k es h (omega arith)),
      )
]

pub emit-IsRing : (b : Body) (m : Manager) → IsRing m → IsRing (emit b m)
unfolding emit
emit-IsRing b m v = record { short = t.0; within = t.2; filled = λ _. t.1; consecutive = t.3 }
  where
    es : List Event
    es = m.events ++ record { seq = m.seq + 1; body = b } ∷ []

    l : length es ≡ length m.events + 1
    l = length-append m.events (record { seq = m.seq + 1; body = b } ∷ [])

    t :
        (length (trim_events es) ≤ max_events)
        × (0 < length (trim_events es))
        × (length (trim_events es) ≤ m.seq + 1)
        × Consecutive (m.seq + 1 - length (trim_events es)) (trim_events es)
    t =
        trimmed (m.seq + 1) es (omega (arith, l, v.short)) (omega (arith, l, v.within))
          (subst (λ i. Consecutive i es) (omega (arith, l, v.within))
            (Consecutive-append (m.seq - length m.events) m.events _ v.consecutive
              (omega (arith, v.within))))
          (omega (arith, l))

after_seq_all :
    (since n : ℕ) (es : List Event) → Consecutive n es → since ≤ n → after_seq since es ≡ es
unfolding after_seq
after_seq_all since n [] h l = refl
after_seq_all since n (e ∷ es) h l = ground (arith, after_seq_all since (n + 1) es h.1)

after_seq_lem :
    (since n : ℕ) (es : List Event)
    → Consecutive n es
    → n ≤ since
    → since ≤ n + length es
    → Consecutive since (after_seq since es)
      × (since + length (after_seq since es) ≡ n + length es)
      × ((old : List Event) × (es ≡ old ++ after_seq since es))
unfolding after_seq
after_seq_lem since n [] h l u = (tt, omega arith, ([], refl))
after_seq_lem since n (e ∷ es) h l u = elim (Bool-cases (ltb since e.seq)) [
  | inl new ↦
      let same : n ≡ since = ground arith in
      rw (new, after_seq_all since (n + 1) es h.1 (ground arith), ← same) (h, refl, ([], refl))
  | inr old ↦
      let (c, k, (front, q)) = after_seq_lem since (n + 1) es h.1 (ground arith) (omega arith) in
      rw old (c, omega (arith, k), (e ∷ front, ap (◌∷◌ e) q))
]

has_gap_lem :
    (since n : ℕ) (es : List Event)
    → Consecutive n es
    → 0 < length es
    → 0 < since
    → has_gap since es ≡ ltb since n
unfolding has_gap
has_gap_lem since n [] h l p = absurd (omega arith)
has_gap_lem since n (e ∷ es) h l p = ground arith

-- A client that has seen the events up to a positive `since` gets exactly the end of the ring with
-- the numbers after it, up to the manager's number, if the ring still holds them; otherwise one
-- snapshot of the whole queue. (Polls from 0 are excluded: they get the ring as it is.)
pub events_since_complete :
    (since : ℕ) (m : Manager)
    → IsRing m
    → 0 < since
    → since ≤ m.seq
    → (m.seq - length m.events ≤ since
        → Consecutive since (events_since since m).0
          × (since + length (events_since since m).0 ≡ m.seq)
          × ((old : List Event) × (m.events ≡ old ++ (events_since since m).0)))
      × (since < m.seq - length m.events
          → (events_since since m).0
            ≡ record { seq = m.seq; body = state_event m.jobs m.paused } ∷ [])
unfolding events_since
events_since_complete since m v pos le = (held, λ lost. rw (gap, lt→ltb _ _ lost))
  where
    first : ℕ
    first = m.seq - length m.events

    gap : has_gap since m.events ≡ ltb since first
    gap = has_gap_lem since first m.events v.consecutive (v.filled (omega arith)) pos

    held :
        first ≤ since
        → Consecutive since (events_since since m).0
          × (since + length (events_since since m).0 ≡ m.seq)
          × ((old : List Event) × (m.events ≡ old ++ (events_since since m).0))
    held l =
        let (c, k, front) =
          after_seq_lem since first m.events v.consecutive l (omega (arith, v.within)) in
        let no_gap : has_gap since m.events ≡ false = ground (arith, gap) in
        rw no_gap (c, omega (arith, k, v.within), front)
