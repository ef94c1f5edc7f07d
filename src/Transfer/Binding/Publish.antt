-- ===== src/Transfer/Binding/Publish.antt =====
-- Commit, RetryBatch and ClearFinished on the map `jobConnections`.
use host_ftp.Base.{
  ℕ, ◌≡◌, refl, ◌∙◌, Bytes, Bool, true, false, not, List, [], ◌∷◌, ◌++◌, Option, inl, inr, arith,
  keep, put, delete, All, All-append, All-map, All-both, All-keep, text_eq, text_mem, text_eq_refl,
  eq_of_text_eq, lookup-put, lookup-delete, if◌then◌else◌, Bool-cases,
}
use host_ftp.Transfer.Model.{Manager, Job, emit, is_terminal, job_event}
use host_ftp.Transfer.Requests.{ok}
use host_ftp.Transfer.Queue.{connection_of, publish, delete_all, check_retry, count_wanted}
use host_ftp.Transfer.Frame.{Result-cases}
use host_ftp.Transfer.System.{LacksId, IsFresh}
use host_ftp.Transfer.Binding.{Distinct, IsBoundTo}

connection_of-put :
    (k id c : Bytes) (conns : List (Bytes × Bytes))
    → connection_of id (put k c conns) ≡ (if text_eq k id then c else connection_of id conns)
unfolding connection_of
connection_of-put k id c conns = ground (arith, lookup-put k id c conns)

connection_of-delete :
    (k id : Bytes) (conns : List (Bytes × Bytes))
    → text_eq k id ≡ false
    → connection_of id (delete k conns) ≡ connection_of id conns
unfolding connection_of
connection_of-delete k id conns h = ground (arith, lookup-delete k id conns)

pub publish-connections :
    (c id : Bytes) (js : List Job) (m : Manager)
    → connection_of id m.job_connections ≡ c
    → connection_of id (publish c js m).job_connections ≡ c
unfolding publish emit
publish-connections c id [] m h = h
publish-connections c id (j ∷ js) m h =
    publish-connections c id js
      (emit (job_event j) (record m { job_connections = put j.id c m.job_connections }))
      (ground (arith, connection_of-put j.id id c m.job_connections))

pub publish-binds :
    (c : Bytes) (js : List Job) (m : Manager)
    → All (λ j. connection_of j.id (publish c js m).job_connections ≡ c) js
unfolding publish emit
publish-binds c [] m = tt
publish-binds c (j ∷ js) m =
    let told = emit (job_event j) (record m { job_connections = put j.id c m.job_connections }) in
    (
      publish-connections c j.id js told
          (ground (arith, connection_of-put j.id j.id c m.job_connections, text_eq_refl j.id)),
      publish-binds c js told,
    )

pub publish-same :
    (c : Bytes) (js : List Job) (m : Manager)
    → ((publish c js m).jobs ≡ m.jobs)
      × ((publish c js m).accepting ≡ m.accepting)
      × ((publish c js m).generation ≡ m.generation)
unfolding publish emit
publish-same c [] m = (refl, refl, refl)
publish-same c (j ∷ js) m =
    publish-same c js
      (emit (job_event j) (record m { job_connections = put j.id c m.job_connections }))

text_eq_comm : (s t : Bytes) → text_eq s t ≡ text_eq t s
text_eq_comm s t =
    ground (arith, eq_of_text_eq s t, eq_of_text_eq t s, text_eq_refl s, text_eq_refl t)

fresh_head : (j : Job) (js ks : List Job) → IsFresh (j ∷ js) ks → LacksId j.id ks
fresh_head j js [] f = tt
fresh_head j js (k ∷ ks) f = (text_eq_comm k.id j.id ∙ f.0.0, fresh_head j js ks f.2)

IsFresh-tail : (j : Job) (js ks : List Job) → IsFresh (j ∷ js) ks → IsFresh js ks
IsFresh-tail j js [] f = tt
IsFresh-tail j js (k ∷ ks) f = (f.0.1, f.1, IsFresh-tail j js ks f.2)

-- A fresh batch keeps the ids apart.
pub Distinct-batch : (js ks : List Job) → Distinct js → IsFresh js ks → Distinct (js ++ ks)
Distinct-batch [] [] h f = tt
Distinct-batch [] (k ∷ ks) h f = (f.1, Distinct-batch [] ks tt f.2)
Distinct-batch (j ∷ js) ks h f = (
  All-append _ js ks h.0 (fresh_head j js ks f),
  Distinct-batch js ks h.1 (IsFresh-tail j js ks f),
)

-- ClearFinished deletes only the entries of the jobs that it drops.
delete_all-other :
    (id : Bytes) (js : List Job) (conns : List (Bytes × Bytes))
    → All (λ k. is_terminal k ≡ true → text_eq k.id id ≡ false) js
    → connection_of id (delete_all js conns) ≡ connection_of id conns
unfolding delete_all
delete_all-other id [] conns h = refl
delete_all-other id (k ∷ js) conns h = elim (Bool-cases (is_terminal k)) [
  | inl t ↦
      rw t (
        delete_all-other id js (delete k.id conns) h.1 ∙ connection_of-delete k.id id conns (h.0 t))
  | inr t ↦ rw t (delete_all-other id js conns h.1)
]

-- No entry of the list that is dropped has the id.
abbrev IsApart : List Job → Job → Type 0
IsApart js j =
    is_terminal j ≡ false → All (λ k. is_terminal k ≡ true → text_eq k.id j.id ≡ false) js

Distinct-IsApart : (js : List Job) → Distinct js → All (IsApart js) js
Distinct-IsApart [] h = tt
Distinct-IsApart (x ∷ js) h = (
  (λ live. (λ t. absurd (ground (arith, live, t)), All-map (λ k e _. e) js h.0)),
  All-both _ _ _ (λ j e rest live. ((λ _. text_eq_comm x.id j.id ∙ e), rest live)) js h.0
      (Distinct-IsApart js h.1),
)

pub clear_bound :
    (session : Option Bytes) (conns : List (Bytes × Bytes)) (js : List Job)
    → Distinct js
    → All (IsBoundTo session conns) js
    → All (IsBoundTo session (delete_all js conns)) (keep (λ j. not (is_terminal j)) js)
clear_bound session conns js d b = All-keep _ _ js (
    All-both _ _ _
      (λ j here apart live queued.
        let (c, e, f) = here queued in
        (c, e, delete_all-other j.id js conns (apart (ground (arith, live))) ∙ f))
      js b (Distinct-IsApart js d))

pub Distinct-keep : (p : Job → Bool) (js : List Job) → Distinct js → Distinct (keep p js)
unfolding keep
Distinct-keep p [] h = tt
Distinct-keep p (j ∷ js) h = elim (Bool-cases (p j)) [
  | inl e ↦ rw e (All-keep _ p js (All-map (λ k f _. f) js h.0), Distinct-keep p js h.1)
  | inr e ↦ rw e (Distinct-keep p js h.1)
]

-- What RetryBatch has checked of a wanted job.
pub retry_checked :
    (c : Bytes) (wanted : List Bytes) (m : Manager) (js : List Job) (n : ℕ)
    → count_wanted (check_retry c m) wanted js ≡ ok n
    → All (λ j. text_mem j.id wanted ≡ true → connection_of j.id m.job_connections ≡ c) js
unfolding count_wanted check_retry
retry_checked c wanted m [] n h = tt
retry_checked c wanted m (j ∷ js) n h =
    elim (Result-cases (count_wanted (check_retry c m) wanted js)) [
      | inl (k, e) ↦ (
        (λ w. ground (arith, e, eq_of_text_eq (connection_of j.id m.job_connections) c)),
        retry_checked c wanted m js k e,
      )
      | inr (x, e) ↦ absurd (ground (arith, e))
    ]
