-- ===== src/Search/Bounds.antt =====
-- That the recursive search ends and stays within its limits: internal/filesearch/walk.go.
use host_ftp.Base.{ℕ, ◌+◌, ◌-◌, ◌≤◌, ◌<◌, ◌≡◌, true, false, List, [], ◌∷◌, length, All}
use host_ftp.Search.Options.{Limits, Found}
use host_ftp.Search.Walk.{Walk, Course, goes, ends, World}

-- The results in the batches.
abbrev pub told : List (List Found) → ℕ
told [] = 0
told (b ∷ bs) = length b + told bs

module _ (w : World) (opts : Limits) (some_batch : 0 < opts.batch_size)
    (some_result : 0 < opts.max_results) where
  -- The limits hold: items visited, results, and the size of each batch that is handed out.
  record IsWithin (s : Walk) : Type 0 where
    few_visited : s.stats.visited ≤ opts.max_visited
    few_results : s.stats.results ≤ opts.max_results
    small_batch : length s.batch ≤ opts.batch_size
    few_told : told s.emitted + length s.batch ≤ s.stats.results
    small_batches : All (λ b. length b ≤ opts.batch_size) s.emitted

  -- Where the loop goes on: at most `r` results, room in the batch, and at most `k` directories
  -- that are waiting or can still be found.
  record IsGoing (r k : ℕ) (s : Walk) : Type 0 where
    g_visited : s.stats.visited ≤ opts.max_visited
    g_results : s.stats.results ≤ r
    g_batch : length s.batch < opts.batch_size
    g_batches : All (λ b. length b ≤ opts.batch_size) s.emitted
    g_told : told s.emitted + length s.batch ≤ s.stats.results
    g_slack : length s.queue + (opts.max_visited - s.stats.visited) ≤ k

  IsOk : ℕ → ℕ → Course → Type 0
  IsOk r k (goes s) = IsGoing r k s
  IsOk r k (ends s e) = IsWithin s

  HasEnded : Course → Type 0
  HasEnded (goes s) = false ≡ true
  HasEnded (ends s e) = true ≡ true
