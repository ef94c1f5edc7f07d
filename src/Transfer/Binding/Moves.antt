-- ===== src/Transfer/Binding/Moves.antt =====
-- Each operation that touches the jobs, the generation or the session, on a bound queue.
use host_ftp.Base.{
  ◌+◌, ◌-◌, ◌^◌, All-middle, All-keep, ◌<◌, ◌≡◌, refl, sym, subst, ◌∙◌, inl, inr, Bytes, true,
  false, not, List, ◌∷◌, ◌++◌, Option, none, some, arith, All, All-append, All-map, All-both,
  All-In, All-Each, Each, Each-refl, In, text_mem, length,
}
use host_ftp.Transfer.Model.{Manager, Job, new, emit, emit_state, is_terminal, next_generation}
use host_ftp.Transfer.Requests.{ok}
use host_ftp.Transfer.Queue.{
  Reservation, reserve_batch, connection_of, publish, release_reserved, cancel_reservation,
  commit_locked, pause, resume_locked, retry_one, retry_locked, clear_finished, enable_locked,
  disable_and_cancel, shutdown, over_jobs,
}
use host_ftp.Transfer.Frame.{
  Quiet, over_jobs-Quiet, over_jobs-Each, retry_one-Quiet, reserve_inv, retry_inv, commit_cases,
  published,
}
use host_ftp.Transfer.Jobs.{Calm, Calm-refl, shutdown-IsCalm, disable-IsCalm}
use host_ftp.Transfer.System.{Inquiry, IsFresh}
use host_ftp.Transfer.Binding.{
  IsBoundTo, Distinct, Distinct-Each, IsCurrent, Binding, SameControl, keep_bound, next_bound,
  drained_bound, IsCurrent-kept,
}
use host_ftp.Transfer.Binding.Publish.{
  publish-connections, publish-binds, publish-same, Distinct-batch, clear_bound, Distinct-keep,
  retry_checked,
}
use host_ftp.Transfer.Binding.Control.{
  shutdown_drained, enable_cases, pause_same, resume_same, disable_drained, disable_generation,
  released, abandoned, retry_one-Retried, Retried,
}

module _ {session : Option Bytes} {entered : List Manager} {inquiries : List Inquiry} where
  pub dropped :
      (front back : List Reservation) (r : Reservation) (m : Manager)
      → Binding m session entered inquiries (front ++ r ∷ back)
      → Binding m session entered inquiries (front ++ back)
  dropped front back r m v = record {
    bound = v.bound;
    distinct = v.distinct;
    drained = v.drained;
    past = v.past;
    inquired = v.inquired;
    reserved = (All-middle _ front back r v.reserved).1;
  }

  pub retried_bound :
      {reservations : List Reservation} (c : Bytes) (wanted : List Bytes) (m : Manager)
      → session ≡ some c
      → m.accepting ≡ true
      → All (λ j. text_mem j.id wanted ≡ true → connection_of j.id m.job_connections ≡ c) m.jobs
      → Binding m session entered inquiries reservations
      → Binding (over_jobs (retry_one wanted) m) session entered inquiries reservations
  retried_bound {reservations} c wanted m live a checked v = record {
    bound =
        subst (λ conns. All (IsBoundTo session conns) o.jobs) (sym q.same_connections)
          (All-Each _ _ requeue each (All-both _ _ _ (λ j b w. (b, w)) m.jobs v.bound checked));
    distinct = Distinct-Each (λ j k d. d.0) each v.distinct;
    drained = λ b. absurd (ground (arith, q.same_accepting));
    past = All-map (λ p h. omega (arith, h, q.same_generation)) entered v.past;
    inquired =
        All-map
          (λ p.
            IsCurrent-kept m o p.before.generation p.connection q.same_generation q.same_accepting)
          inquiries v.inquired;
    reserved =
        All-map
          (λ r. IsCurrent-kept m o r.generation r.connection_id q.same_generation q.same_accepting)
          reservations v.reserved;
  }
    where
      o : Manager
      o = over_jobs (retry_one wanted) m

      q : Quiet m o
      q = over_jobs-Quiet (retry_one wanted) (retry_one-Quiet wanted) m

      each : Each (Retried wanted) m.jobs o.jobs
      each = over_jobs-Each (retry_one wanted) (retry_one-Retried wanted) m

      requeue :
          (j k : Job)
          → Retried wanted j k
          → IsBoundTo session m.job_connections j
            × (text_mem j.id wanted ≡ true → connection_of j.id m.job_connections ≡ c)
          → IsBoundTo session m.job_connections k
      requeue j k r b queued = elim (r.1 queued) [
        | inl old ↦
            subst (λ i. (d : Bytes) × (session ≡ some d) × (connection_of i m.job_connections ≡ d))
              (sym r.0) (b.0 old)
        | inr new ↦
            subst (λ i. (d : Bytes) × (session ≡ some d) × (connection_of i m.job_connections ≡ d))
              (sym r.0) (c, live, b.1 new)
      ]

  module _ {reservations : List Reservation} where
    pub clear-Binding :
        (m : Manager)
        → Binding m session entered inquiries reservations
        → Binding (clear_finished m) session entered inquiries reservations
    unfolding clear_finished emit_state emit
    clear-Binding m v = record {
      bound = clear_bound session m.job_connections m.jobs v.distinct v.bound;
      distinct = Distinct-keep (λ j. not (is_terminal j)) m.jobs v.distinct;
      drained = λ a. All-keep _ _ m.jobs (All-map (λ j h _. h) m.jobs (v.drained a));
      past = v.past;
      inquired =
          All-map
            (λ p. IsCurrent-kept m (clear_finished m) p.before.generation p.connection refl refl)
            inquiries v.inquired;
      reserved =
          All-map (λ r. IsCurrent-kept m (clear_finished m) r.generation r.connection_id refl refl)
            reservations v.reserved;
    }

    pub enable-Binding :
        (m : Manager)
        → m.generation + 1 < 2 ^ 64
        → Binding m session entered inquiries reservations
        → Binding (enable_locked m) session entered inquiries reservations
    unfolding emit_state emit next_generation
    enable-Binding m g v =
        enable_cases (λ n. Binding n session entered inquiries reservations) m v
          (next_bound m _ (omega arith) v.bound v.distinct (λ a. absurd (cc)) v)

    pub disable-Binding :
        (why : Bytes) (m : Manager)
        → m.generation + 1 < 2 ^ 64
        → Binding m session entered inquiries reservations
        → Binding (disable_and_cancel why m) session entered inquiries reservations
    disable-Binding why m g v =
        let d = disable_drained why m in
        next_bound m (disable_and_cancel why m) (disable_generation why m g)
          (drained_bound session _ _ d)
          (Distinct-Each (λ j k c. c.same_id) (disable-IsCalm why m) v.distinct) (λ _. d) v

    pub shutdown-Binding :
        (m : Manager)
        → m.generation + 1 < 2 ^ 64
        → Binding m session entered inquiries reservations
        → Binding (shutdown m) session entered inquiries reservations
    unfolding shutdown next_generation
    shutdown-Binding m g v =
        let d = shutdown_drained m.jobs in
        next_bound m _ (omega arith) (drained_bound session _ _ d)
          (Distinct-Each (λ j k c. c.same_id) (shutdown-IsCalm m) v.distinct) (λ _. d) v

    pub pause-Binding :
        (m : Manager)
        → Binding m session entered inquiries reservations
        → Binding (pause m) session entered inquiries reservations
    pause-Binding m =
        keep_bound m (pause m) (pause_same m).1
          (subst (λ js. Each Calm m.jobs js) (sym (pause_same m).0) (Each-refl Calm-refl m.jobs))

    pub resume-Binding :
        (m : Manager)
        → Binding m session entered inquiries reservations
        → Binding (resume_locked m) session entered inquiries reservations
    resume-Binding m =
        keep_bound m (resume_locked m) (resume_same m).1
          (subst (λ js. Each Calm m.jobs js) (sym (resume_same m).0) (Each-refl Calm-refl m.jobs))

    -- The same jobs under the same control.
    pub still-Binding :
        (m n : Manager)
        → n.jobs ≡ m.jobs
        → SameControl m n
        → Binding m session entered inquiries reservations
        → Binding n session entered inquiries reservations
    still-Binding m n e q =
        keep_bound m n q (subst (λ js. Each Calm m.jobs js) (sym e) (Each-refl Calm-refl m.jobs))

    pub retry-Binding :
        (q : Inquiry) (wanted : List Bytes) (m n : Manager)
        → In q inquiries
        → retry_locked q.before (some q.connection) wanted m ≡ ok n
        → Binding m session entered inquiries reservations
        → Binding n session entered inquiries reservations
    retry-Binding q wanted m n i h v =
        let (e, g, a, (k, checked)) = retry_inv q.before q.connection wanted m n h in
        subst (λ o. Binding o session entered inquiries reservations) (sym e)
          (retried_bound q.connection wanted m
            ((All-In (λ (p : Inquiry). IsCurrent m session p.before.generation p.connection) i
                v.inquired).1
              (sym g) a)
            a (retry_checked q.connection wanted m m.jobs k checked) v)

  published-Binding :
      (front back : List Reservation) (r : Reservation) (m : Manager)
      → IsFresh m.jobs r.jobs
      → r.generation ≡ m.generation
      → m.accepting ≡ true
      → Binding m session entered inquiries (front ++ r ∷ back)
      → Binding (published r m) session entered inquiries (front ++ back)
  unfolding release_reserved
  published-Binding front back r m f g a v = record {
    bound = subst (All (IsBoundTo session after.job_connections)) (sym same.0) (
        All-append _ m.jobs r.jobs (All-map old m.jobs v.bound) (
          All-map (λ j h _. (r.connection_id, live, h)) r.jobs
            (publish-binds r.connection_id r.jobs more)));
    distinct = subst Distinct (sym same.0) (Distinct-batch m.jobs r.jobs v.distinct f);
    drained = λ b. absurd (ground (arith, same.1));
    past = All-map (λ p h. omega (arith, h, same.2)) entered v.past;
    inquired =
        All-map (λ p. IsCurrent-kept m after p.before.generation p.connection same.2 same.1)
          inquiries v.inquired;
    reserved =
        All-map (λ p. IsCurrent-kept m after p.generation p.connection_id same.2 same.1)
          (front ++ back) rest.1;
  }
    where
      more : Manager
      more = record m { reserved = m.reserved - length r.jobs; jobs = m.jobs ++ r.jobs }

      after : Manager
      after = publish r.connection_id r.jobs more

      same :
          (after.jobs ≡ m.jobs ++ r.jobs)
          × (after.accepting ≡ m.accepting)
          × (after.generation ≡ m.generation)
      same = publish-same r.connection_id r.jobs more

      rest :
          IsCurrent m session r.generation r.connection_id
          × All
              (λ (p : Reservation). IsCurrent m session p.generation p.connection_id)
              (front ++ back)
      rest = All-middle _ front back r v.reserved

      live : session ≡ some r.connection_id
      live = rest.0.1 g a

      old :
          (j : Job)
          → IsBoundTo session m.job_connections j
          → IsBoundTo session after.job_connections j
      old j h queued =
          let (c, e, k) = h queued in
          (
            r.connection_id,
            live,
            publish-connections r.connection_id j.id r.jobs more (k ∙ ground (arith, e, live)),
          )

  pub commit-Binding :
      (front back : List Reservation) (r : Reservation) (m : Manager)
      → IsFresh m.jobs r.jobs
      → Binding m session entered inquiries (front ++ r ∷ back)
      → Binding (commit_locked r m).1 session entered inquiries (front ++ back)
  commit-Binding front back r m f v =
      commit_cases (λ n. Binding n session entered inquiries (front ++ back)) r m
        (λ _. dropped front back r m v)
        (still-Binding m (release_reserved r m) (released r m).0 (released r m).1
          (dropped front back r m v))
        (λ g a. published-Binding front back r m f g a v)

  pub abandon-Binding :
      (front back : List Reservation) (r : Reservation) (m : Manager)
      → Binding m session entered inquiries (front ++ r ∷ back)
      → Binding (cancel_reservation r m).1 session entered inquiries (front ++ back)
  abandon-Binding front back r m v =
      still-Binding m _ (abandoned r m).0 (abandoned r m).1 (dropped front back r m v)

  pub reserve-Binding :
      {reservations : List Reservation} (q : Inquiry) (jobs : List Job) (m n : Manager)
      (r : Reservation)
      → In q inquiries
      → reserve_batch q.before (some q.connection) jobs m ≡ ok (n, r)
      → Binding m session entered inquiries reservations
      → Binding n session entered inquiries (r ∷ reservations)
  reserve-Binding q jobs m n r i h v =
      let (em, er, g, _, _) = reserve_inv q.before q.connection jobs m n r h in
      let w = still-Binding m n (ground (arith, em)) (ground (arith, em)) v in
      let known =
        All-In (λ (p : Inquiry). IsCurrent n session p.before.generation p.connection) i
          w.inquired in
      record {
        bound = w.bound;
        distinct = w.distinct;
        drained = w.drained;
        past = w.past;
        inquired = w.inquired;
        reserved = (
          subst (λ (p : Reservation). IsCurrent n session p.generation p.connection_id) (sym er)
              known,
          w.reserved,
        );
      }

-- Without a session there is no queued job and nothing current that could be wrong about it.
pub unconnected-Binding :
    {entered : List Manager} {inquiries : List Inquiry} {reservations : List Reservation}
    {session : Option Bytes} (c : Bytes) (m : Manager)
    → session ≡ none
    → Binding m session entered inquiries reservations
    → Binding m (some c) entered inquiries reservations
unconnected-Binding {inquiries} {reservations} c m e v = record {
  bound = All-map (λ j h q. let (d, f, k) = h q in absurd (ground (arith, e, f))) m.jobs v.bound;
  distinct = v.distinct;
  drained = v.drained;
  past = v.past;
  inquired =
      All-map (λ p h. (h.0, λ g a. absurd (ground (arith, e, h.1 g a)))) inquiries v.inquired;
  reserved =
      All-map (λ p h. (h.0, λ g a. absurd (ground (arith, e, h.1 g a)))) reservations v.reserved;
}

pub hung_up-Binding :
    {entered : List Manager} {inquiries : List Inquiry} {reservations : List Reservation}
    {session : Option Bytes} (m : Manager)
    → m.accepting ≡ false
    → Binding m session entered inquiries reservations
    → Binding m none entered inquiries reservations
hung_up-Binding {inquiries} {reservations} m a v = record {
  bound = drained_bound none m.job_connections m.jobs (v.drained a);
  distinct = v.distinct;
  drained = v.drained;
  past = v.past;
  inquired = All-map (λ p h. (h.0, λ _ b. absurd (ground (arith, a, b)))) inquiries v.inquired;
  reserved = All-map (λ p h. (h.0, λ _ b. absurd (ground (arith, a, b)))) reservations v.reserved;
}
