-- ===== src/Search/Walk.antt =====
-- internal/filesearch/walk.go.
use host_ftp.Base.{
  ℕ, zero, suc, ◌+◌, Bytes, Bool, true, false, ◌&&◌, ◌||◌, not, List, [], ◌∷◌, ◌++◌, Option, none,
  some, ltb, leb, if◌then◌else◌, length,
}
use host_ftp.Remote.Names.{Item}
use host_ftp.Search.Options.{
  Limits, Found, StopReason, stop_none, depth_limit, item_limit, result_limit, time_limit, Stats,
}

pub record Node : Type 0 where
  pub path : Bytes
  pub depth : ℕ

-- What stopForContext finds: the search goes on, its own time is up, or it is cancelled.
pub data Signal : Type 0 where
  carry_on time_is_up cancelled : Signal

-- `asked` numbers the questions to the contexts and the calls of the three functions: their
-- answers may depend on when they are asked. `emitted` holds the batches handed out, newest first.
pub record Walk : Type 0 where
  pub queue : List Node
  pub stats : Stats
  pub batch : List Found
  pub emitted : List (List Found)
  pub depth_limited : Bool
  pub asked : ℕ

pub data Ending : Type 0 where
  finished context_error list_error join_error emit_error : Ending

-- A section of the loop goes on, or the function returns.
pub data Course : Type 0 where
  goes : Walk → Course
  ends : Walk → Ending → Course

-- The functions that the caller supplies, and the contexts. `silent` is `emit == nil`, and
-- `emit_fails` tells whether the call returns an error. `matches` is itemlist.MatchesName.
pub record World : Type 0 where
  pub signal : ℕ → Signal
  pub list : ℕ → Bytes → Option (List Item)
  pub join : Bytes → Bytes → Option Bytes
  pub matches : Bytes → Bytes → Bool
  pub silent : Bool
  pub emit_fails : ℕ → Bool

module _ (w : World) (opts : Limits) where
  is_empty : List Found → Bool
  is_empty [] = true
  is_empty (f ∷ fs) = false

  -- flush, and then a return with `e`, or with emit's error.
  unfoldable pub flush : Walk → Ending → Course
  unfolding is_empty
  flush s e =
      if is_empty s.batch || w.silent
      then ends (record s { batch = [] }) e
      else if w.emit_fails s.asked
      then ends (record s { batch = []; emitted = s.batch ∷ s.emitted; asked = s.asked + 1 })
          emit_error
      else ends (record s { batch = []; emitted = s.batch ∷ s.emitted; asked = s.asked + 1 }) e

  -- flush where the loop goes on.
  unfoldable pub flush_on : Walk → Course
  unfolding is_empty
  flush_on s =
      if is_empty s.batch || w.silent
      then goes (record s { batch = [] })
      else if w.emit_fails s.asked
      then ends (record s { batch = []; emitted = s.batch ∷ s.emitted; asked = s.asked + 1 })
          emit_error
      else goes (record s { batch = []; emitted = s.batch ∷ s.emitted; asked = s.asked + 1 })

  unfoldable pub stopped : Walk → StopReason → Walk
  stopped s r = record s { stats = record (s.stats) { stop_reason = r } }

  -- stopForContext, with what its callers do where it stops.
  unfoldable pub on_signal : Signal → Walk → Course
  unfolding flush stopped
  on_signal carry_on s = goes s
  on_signal time_is_up s = flush (stopped s time_limit) finished
  on_signal cancelled s = flush s context_error

  unfoldable pub check_context : Walk → Course
  unfolding on_signal
  check_context s = on_signal (w.signal s.asked) (record s { asked = s.asked + 1 })

  -- A result joins the batch; a full batch goes out.
  unfoldable pub add_result : Found → Walk → Course
  unfolding flush_on
  add_result f s =
      let s' = record s {
        batch = s.batch ++ f ∷ [];
        stats = record (s.stats) { results = s.stats.results + 1 };
      } in
      if leb opts.batch_size (length s'.batch) then flush_on s' else goes s'

  unfoldable pub limit_results : Course → Course
  unfolding flush stopped
  limit_results (ends s e) = ends s e
  limit_results (goes s) =
      if leb opts.max_results s.stats.results
      then flush (stopped s result_limit) finished
      else goes s

  unfoldable pub descend : Node → Bytes → Item → Course → Course
  descend node child item (ends s e) = ends s e
  descend node child item (goes s) =
      if item.is_directory && not item.is_symlink
      then if ltb node.depth opts.max_depth
        then goes
            (record s { queue = s.queue ++ record { path = child; depth = node.depth + 1 } ∷ [] })
        else goes (record s { depth_limited = true })
      else goes s

  unfoldable pub count_visit : Walk → Walk
  count_visit s = record s { stats = record (s.stats) { visited = s.stats.visited + 1 } }

  unfoldable pub found : Node → Bytes → Item → Found
  found node child item = record {
    path = child;
    parent = node.path;
    depth = node.depth + 1;
    item = item;
  }

  -- The body of the inner loop, from the item limit on.
  unfoldable pub visit : Node → Item → Walk → Course
  unfolding flush stopped count_visit add_result limit_results descend found
  visit node item s =
      if leb opts.max_visited s.stats.visited
      then flush (stopped s item_limit) finished
      else elim (w.join node.path item.name) [
        | none ↦ ends s join_error
        | some child ↦
            if w.matches item.name opts.query
            then descend node child item
                (limit_results (add_result (found node child item) (count_visit s)))
            else descend node child item (goes (count_visit s))
      ]

  unfoldable pub after : (Walk → Course) → Course → Course
  after f (ends s e) = ends s e
  after f (goes s) = f s

  unfoldable pub visit_all : Node → List Item → Walk → Course
  unfolding after visit check_context
  visit_all node [] s = goes s
  visit_all node (i ∷ items) s =
      after (visit_all node items) (after (visit node i) (check_context s))

  unfoldable pub count_directory : Walk → Walk
  count_directory s = record s {
    stats = record (s.stats) { directories = s.stats.directories + 1 };
  }

  -- A listing failed: the contexts are asked first.
  unfoldable pub list_failed : Course → Course
  list_failed (ends s e) = ends s e
  list_failed (goes s) = ends s list_error

  -- One directory, taken from the queue.
  unfoldable pub visit_node : Node → Walk → Course
  unfolding visit_all count_directory list_failed check_context
  visit_node node s =
      let s' = record s { asked = s.asked + 1 } in
      elim (w.list s.asked node.path) [
        | none ↦ list_failed (check_context s')
        | some items ↦ visit_all node items (count_directory s')
      ]

  -- What stands behind the loop: the stop reason is set where the last flush returns nil.
  unfoldable pub limit_depth : Bool → Course → Course
  unfolding stopped
  limit_depth true (ends s finished) = ends (stopped s depth_limit) finished
  limit_depth _ c = c

  unfoldable pub conclude : Walk → Course
  unfolding flush limit_depth
  conclude s = limit_depth s.depth_limited (flush s finished)

  -- One turn of the outer loop, with the nodes of the queue.
  unfoldable pub turn_on : List Node → Walk → Course
  unfolding after visit_node check_context conclude
  turn_on [] s = conclude s
  turn_on (node ∷ rest) s =
      after (λ t. visit_node node (record t { queue = rest })) (check_context s)

  unfoldable pub turn : Walk → Course
  unfolding turn_on
  turn s = turn_on s.queue s

  -- The outer loop, on fuel: `none` where it runs out.
  unfoldable pub run_from : ℕ → Course → Option (Walk × Ending)
  unfolding turn
  run_from fuel (ends s e) = some (s, e)
  run_from zero (goes s) = none
  run_from (suc fuel) (goes s) = run_from fuel (turn s)

  unfoldable pub run : ℕ → Walk → Option (Walk × Ending)
  unfolding run_from
  run fuel s = run_from fuel (goes s)

  unfoldable pub begin : Bytes → Walk
  begin root = record {
    queue = record { path = root; depth = 0 } ∷ [];
    stats = record { visited = 0; directories = 0; results = 0; stop_reason = stop_none };
    batch = [];
    emitted = [];
    depth_limited = false;
    asked = 0;
  }
