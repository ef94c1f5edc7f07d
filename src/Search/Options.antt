-- ===== src/Search/Options.antt =====
-- internal/filesearch/types.go.
use host_ftp.Base.{
  ◌≡◌, ◌≤◌, subst, arith, inl, inr, Option-cases, false, ℕ, ℤ, pos, negsuc, Bytes, ◌||◌, Option,
  none, some, ltb, ◌==◌, if◌then◌else◌, is_blank, trim_space,
}
use host_ftp.Remote.Names.{Item}

-- The options as a caller gives them; the time limit is in nanoseconds.
pub record Request : Type 0 where
  pub query : Bytes
  pub max_depth : ℤ
  pub max_visited : ℤ
  pub max_results : ℤ
  pub batch_size : ℤ
  pub timeout : ℤ

-- The options that the walk runs with.
pub record Limits : Type 0 where
  pub query : Bytes
  pub max_depth : ℕ
  pub max_visited : ℕ
  pub max_results : ℕ
  pub batch_size : ℕ
  pub timeout : ℕ

pub record Found : Type 0 where
  pub path : Bytes
  pub parent : Bytes
  pub depth : ℕ
  pub item : Item

pub data StopReason : Type 0 where
  stop_none depth_limit item_limit result_limit time_limit : StopReason

pub record Stats : Type 0 where
  pub visited : ℕ
  pub directories : ℕ
  pub results : ℕ
  pub stop_reason : StopReason

-- One numeric option: 0 stands for the default, and it must be between `low` and `high` then.
unfoldable pub limit : ℕ → ℕ → ℕ → ℤ → Option ℕ
limit fallback low high (pos n) =
    let v = if n == 0 then fallback else n in if ltb v low || ltb high v then none else some v
limit fallback low high (negsuc n) = none

-- NormalizeOptions: `none` for each of its errors.
unfoldable pub normalize_options : Request → Option Limits
unfolding limit
normalize_options r =
    if is_blank (trim_space r.query) then none else elim (limit 12 1 32 r.max_depth) [
      | none ↦ none
      | some d ↦ elim (limit 20000 1 50000 r.max_visited) [
        | none ↦ none
        | some v ↦ elim (limit 1000 1 5000 r.max_results) [
          | none ↦ none
          | some n ↦ elim (limit 50 1 200 r.batch_size) [
            | none ↦ none
            | some b ↦ elim (limit 20000000000 1000000000 60000000000 r.timeout) [
              | none ↦ none
              | some t ↦ some (record {
                query = trim_space r.query;
                max_depth = d;
                max_visited = v;
                max_results = n;
                batch_size = b;
                timeout = t;
              })
            ]
          ]
        ]
      ]
    ]

limit_lem :
    (fallback low high : ℕ) (z : ℤ) (v : ℕ)
    → limit fallback low high z ≡ some v
    → (low ≤ v) × (v ≤ high)
unfolding limit
limit_lem fallback low high (pos n) v h = ground (arith, h)
limit_lem fallback low high (negsuc n) v h = absurd (ground (arith, h))

-- The options that are accepted are in the safe ranges.
pub record IsSafe (o : Limits) : Type 0 where
  pub safe_depth : (1 ≤ o.max_depth) × (o.max_depth ≤ 32)
  pub safe_visited : (1 ≤ o.max_visited) × (o.max_visited ≤ 50000)
  pub safe_results : (1 ≤ o.max_results) × (o.max_results ≤ 5000)
  pub safe_batch : (1 ≤ o.batch_size) × (o.batch_size ≤ 200)

pub normalize_options-IsSafe : (r : Request) (o : Limits) → normalize_options r ≡ some o → IsSafe o
unfolding normalize_options
normalize_options-IsSafe r o h = elim (Option-cases (limit 12 1 32 r.max_depth)) [
  | inl e ↦ absurd (ground (arith, h, e))
  | inr (d, e) ↦ elim (Option-cases (limit 20000 1 50000 r.max_visited)) [
    | inl f ↦ absurd (ground (arith, h, e, f))
    | inr (v, f) ↦ elim (Option-cases (limit 1000 1 5000 r.max_results)) [
      | inl i ↦ absurd (ground (arith, h, e, f, i))
      | inr (n, i) ↦ elim (Option-cases (limit 50 1 200 r.batch_size)) [
        | inl j ↦ absurd (ground (arith, h, e, f, i, j))
        | inr (b, j) ↦ elim (Option-cases (limit 20000000000 1000000000 60000000000 r.timeout)) [
          | inl k ↦ absurd (ground (arith, h, e, f, i, j, k))
          | inr (t, k) ↦
              let blank : is_blank (trim_space r.query) ≡ false = ground (arith, h) in
              let same : record {
                query = trim_space r.query;
                max_depth = d;
                max_visited = v;
                max_results = n;
                batch_size = b;
                timeout = t;
              }
                  ≡ o =
                ground (arith, h, blank, e, f, i, j, k) in
              subst IsSafe same (record {
                safe_depth = limit_lem 12 1 32 r.max_depth d e;
                safe_visited = limit_lem 20000 1 50000 r.max_visited v f;
                safe_results = limit_lem 1000 1 5000 r.max_results n i;
                safe_batch = limit_lem 50 1 200 r.batch_size b j;
              })
        ]
      ]
    ]
  ]
]
