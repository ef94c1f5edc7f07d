-- ===== src/Transfer/Binding.antt =====
-- Which connection a job belongs to: internal/transfer/manager.go, jobConnections and generation.
pub mod Publish
pub mod Control
pub mod Moves
pub mod Counts
pub mod Steps
use host_ftp.Base.{
  ℕ, zero, suc, ◌+◌, ◌-◌, ◌^◌, ◌≤◌, ◌<◌, ◌≡◌, refl, ap, sym, subst, ◌∙◌, Bytes, Bool, true, false,
  not, List, [], ◌∷◌, ◌++◌, Option, none, some, inl, inr, arith, keep, put, All, All-append,
  All-map, All-Each, All-In, Each, nil, cons, In, text_eq, text_mem, text_eq_refl, eq_of_text_eq,
  lookup, lookup-put, lookup-delete, delete, if◌then◌else◌, Bool-cases,
}
use host_ftp.Transfer.Model.{
  Manager, Job, new, emit, emit_state, is_queued, is_terminal, job_event, next_generation,
}
use host_ftp.Transfer.Requests.{Result, ok, err, refuse, ◌>>=◌, ◌>>◌}
use host_ftp.Transfer.Queue.{
  Reservation, connection_of, publish, delete_all, check_retry, count_wanted, retry_one,
  retried_job,
}
use host_ftp.Transfer.Jobs.{Calm, IsCalm}
use host_ftp.Transfer.System.{System, LacksId, IsFresh, Inquiry}

-- A queued job was reserved or retried over the connection that stands now.
abbrev pub IsBoundTo : Option Bytes → List (Bytes × Bytes) → Job → Type 0
IsBoundTo session conns j =
    is_queued j ≡ true → (c : Bytes) × (session ≡ some c) × (connection_of j.id conns ≡ c)

abbrev pub Distinct : List Job → Type 0
Distinct [] = Unit {0}
Distinct (j ∷ js) = LacksId j.id js × Distinct js

-- What was learnt in generation `g`, that the connection is `c`, is true while `g` lasts.
abbrev pub IsCurrent : Manager → Option Bytes → ℕ → Bytes → Type 0
IsCurrent m session g c =
    (g ≤ m.generation) × (g ≡ m.generation → m.accepting ≡ true → session ≡ some c)

pub record Binding (m : Manager) (session : Option Bytes) (entered : List Manager)
    (inquiries : List Inquiry) (reservations : List Reservation) : Type 0 where
  pub bound : All (IsBoundTo session m.job_connections) m.jobs
  pub distinct : Distinct m.jobs
  pub drained : m.accepting ≡ false → All (λ j. is_queued j ≡ false) m.jobs
  pub past : All (λ (n : Manager). n.generation ≤ m.generation) entered
  pub inquired :
      All (λ (q : Inquiry). IsCurrent m session q.before.generation q.connection) inquiries
  pub reserved :
      All (λ (r : Reservation). IsCurrent m session r.generation r.connection_id) reservations

abbrev pub IsBound : System → Type 0
IsBound s = Binding s.manager s.session s.entered s.inquiries s.reservations

-- Changes that keep the ids keep them apart.
module _ {κ} {R : Job → Job → Type κ} (same : (j k : Job) → R j k → k.id ≡ j.id) where
  LacksId-Each : (id : Bytes) {js ks : List Job} → Each R js ks → LacksId id js → LacksId id ks
  LacksId-Each id = All-Each _ _ (λ j k c h. subst (λ i. text_eq i id ≡ false) (sym (same j k c)) h)

  pub Distinct-Each : {js ks : List Job} → Each R js ks → Distinct js → Distinct ks
  Distinct-Each nil h = tt
  Distinct-Each (cons {x = j} {y = k} {xs = js} c e) h =
      (LacksId-Each k.id e (subst (λ i. LacksId i js) (sym (same j k c)) h.0), Distinct-Each e h.1)

-- Calm changes keep the jobs bound.
bound-Calm :
    (session : Option Bytes) (conns : List (Bytes × Bytes)) {js ks : List Job}
    → Each Calm js ks
    → All (IsBoundTo session conns) js
    → All (IsBoundTo session conns) ks
bound-Calm session conns = All-Each _ _ (λ j k c h q.
    subst (λ i. (c' : Bytes) × (session ≡ some c') × (connection_of i conns ≡ c')) (sym c.same_id)
      (h (c.not_requeued q)))

drained-Calm :
    {js ks : List Job}
    → Each Calm js ks
    → All (λ j. is_queued j ≡ false) js
    → All (λ j. is_queued j ≡ false) ks
drained-Calm = All-Each _ _ (λ j k c h. ground (arith, c.not_requeued))

-- The control fields that binding rests on.
pub record SameControl (m n : Manager) : Type 0 where
  pub c_accepting : n.accepting ≡ m.accepting
  pub c_generation : n.generation ≡ m.generation
  pub c_connections : n.job_connections ≡ m.job_connections

-- What was learnt stays true where the generation and the session stay.
pub IsCurrent-kept :
    {session : Option Bytes} (m n : Manager) (g : ℕ) (c : Bytes)
    → n.generation ≡ m.generation
    → n.accepting ≡ m.accepting
    → IsCurrent m session g c
    → IsCurrent n session g c
IsCurrent-kept m n g c eg ea h = (omega (arith, h.0, eg), λ e a. h.1 (e ∙ eg) (sym ea ∙ a))

module _ {session : Option Bytes} {entered : List Manager} {inquiries : List Inquiry}
    {reservations : List Reservation} where
  pub keep_bound :
      (m n : Manager)
      → SameControl m n
      → IsCalm m n
      → Binding m session entered inquiries reservations
      → Binding n session entered inquiries reservations
  keep_bound m n q c v = record {
    bound =
        subst (λ conns. All (IsBoundTo session conns) n.jobs) (sym q.c_connections)
          (bound-Calm session m.job_connections c v.bound);
    distinct = Distinct-Each (λ j k d. d.same_id) c v.distinct;
    drained = λ a. drained-Calm c (v.drained (sym q.c_accepting ∙ a));
    past = All-map (λ p h. omega (arith, h, q.c_generation)) entered v.past;
    inquired =
        All-map
          (λ p. IsCurrent-kept m n p.before.generation p.connection q.c_generation q.c_accepting)
          inquiries v.inquired;
    reserved =
        All-map (λ r. IsCurrent-kept m n r.generation r.connection_id q.c_generation q.c_accepting)
          reservations v.reserved;
  }

  -- A new generation: what was learnt before is out of date.
  pub next_bound :
      (m n : Manager)
      → n.generation ≡ m.generation + 1
      → All (IsBoundTo session n.job_connections) n.jobs
      → Distinct n.jobs
      → (n.accepting ≡ false → All (λ j. is_queued j ≡ false) n.jobs)
      → Binding m session entered inquiries reservations
      → Binding n session entered inquiries reservations
  next_bound m n g b d e v = record {
    bound = b;
    distinct = d;
    drained = e;
    past = All-map (λ p h. omega (arith, h, g)) entered v.past;
    inquired =
        All-map (λ p h. (omega (arith, h.0, g), λ q. absurd (omega (arith, h.0, g, q)))) inquiries
          v.inquired;
    reserved =
        All-map (λ p h. (omega (arith, h.0, g), λ q. absurd (omega (arith, h.0, g, q))))
          reservations v.reserved;
  }

-- Jobs that are not queued are bound in any case.
pub drained_bound :
    (session : Option Bytes) (conns : List (Bytes × Bytes)) (js : List Job)
    → All (λ j. is_queued j ≡ false) js
    → All (IsBoundTo session conns) js
drained_bound session conns js = All-map (λ j h q. absurd (ground arith)) js
