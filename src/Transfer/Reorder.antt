-- ===== src/Transfer/Reorder.antt =====
-- internal/transfer/queue_order.go: moveQueued and its four callers.
use host_ftp.Base.{
  ℕ, zero, suc, ◌+◌, ◌-◌, Bytes, List, [], ◌∷◌, Option, none, some, ltb, ◌==◌, if◌then◌else◌,
  length, get_elem?, set, text_eq,
}
use host_ftp.Transfer.Model.{Job, Manager, is_queued, emit_state}

pub data QueuedMove : Type 0 where
  move_top move_up move_down move_bottom : QueuedMove

pub data OrderFault : Type 0 where
  order_closed order_missing order_not_queued : OrderFault

-- nil with the new state, or an error; then the state is the old one.
pub data OrderAnswer : Type 0 where
  moved : Manager → OrderAnswer
  refused_move : OrderFault → OrderAnswer

unfoldable pub index_of : Bytes → List Job → Option ℕ
index_of id [] = none
index_of id (j ∷ js) =
    let rest = index_of id js in
    if text_eq j.id id then some 0 else elim rest [ none ↦ none | some i ↦ some (suc i) ]

-- The indices of the queued jobs; `i` is the index of the first job of the list.
unfoldable pub queued_slots : ℕ → List Job → List ℕ
queued_slots i [] = []
queued_slots i (j ∷ js) =
    let rest = queued_slots (suc i) js in if is_queued j then i ∷ rest else rest

-- Where an index stands among the slots.
unfoldable pub position_in : ℕ → List ℕ → Option ℕ
position_in i [] = none
position_in i (s ∷ ss) =
    let rest = position_in i ss in
    if s == i then some 0 else elim rest [ none ↦ none | some p ↦ some (suc p) ]

unfoldable pub destination : QueuedMove → ℕ → ℕ → ℕ
destination move_top position n = 0
destination move_up position n = if ltb 0 position then position - 1 else position
destination move_down position n = if ltb (position + 1) n then position + 1 else position
destination move_bottom position n = n - 1

-- `jobs[slots[to]] = jobs[slots[from]]`.
unfoldable pub copy_slot : List ℕ → ℕ → ℕ → List Job → List Job
copy_slot slots to from jobs = elim (get_elem? slots to) [
  | none ↦ jobs
  | some t ↦ elim (get_elem? slots from) [
    | none ↦ jobs
    | some f ↦ elim (get_elem? jobs f) [ none ↦ jobs | some j ↦ set jobs t j ]
  ]
]

-- The two loops, each over as many rounds as the two positions are apart.
unfoldable pub shift_down : List ℕ → ℕ → ℕ → List Job → List Job
unfolding copy_slot
shift_down slots zero position jobs = jobs
shift_down slots (suc n) position jobs =
    shift_down slots n (position - 1) (copy_slot slots position (position - 1) jobs)

unfoldable pub shift_up : List ℕ → ℕ → ℕ → List Job → List Job
unfolding copy_slot
shift_up slots zero position jobs = jobs
shift_up slots (suc n) position jobs =
    shift_up slots n (position + 1) (copy_slot slots position (position + 1) jobs)

unfoldable pub put_slot : List ℕ → ℕ → Job → List Job → List Job
put_slot slots position j jobs = elim (get_elem? slots position) [
  | none ↦ jobs
  | some i ↦ set jobs i j
]

-- The jobs after a move from one position of the queue to another.
unfoldable pub reordered : List ℕ → ℕ → ℕ → Job → List Job → List Job
unfolding shift_down shift_up put_slot
reordered slots position dest selected jobs =
    if ltb dest position
    then put_slot slots dest selected (shift_down slots (position - dest) position jobs)
    else put_slot slots dest selected (shift_up slots (dest - position) position jobs)

-- From the index of a queued job on.
unfoldable pub move_at : QueuedMove → ℕ → Job → Manager → OrderAnswer
unfolding queued_slots position_in destination reordered
move_at move index selected m =
    let slots = queued_slots 0 m.jobs in
    elim (position_in index slots) [
      | none ↦ refused_move order_not_queued
      | some position ↦
          let dest = destination move position (length slots) in
          if dest == position
          then moved m
          else moved
              (emit_state (record m { jobs = reordered slots position dest selected m.jobs }))
    ]

-- (The operations outside the four are no values here.)
unfoldable pub move_queued : Bytes → QueuedMove → Manager → OrderAnswer
unfolding index_of move_at
move_queued id move m = if m.closed then refused_move order_closed else elim (index_of id m.jobs) [
  | none ↦ refused_move order_missing
  | some index ↦ elim (get_elem? m.jobs index) [
    | none ↦ refused_move order_missing
    | some selected ↦
        if is_queued selected then move_at move index selected m else refused_move order_not_queued
  ]
]

unfoldable pub move_queued_top : Bytes → Manager → OrderAnswer
unfolding move_queued
move_queued_top id m = move_queued id move_top m

unfoldable pub move_queued_up : Bytes → Manager → OrderAnswer
unfolding move_queued
move_queued_up id m = move_queued id move_up m

unfoldable pub move_queued_down : Bytes → Manager → OrderAnswer
unfolding move_queued
move_queued_down id m = move_queued id move_down m

unfoldable pub move_queued_bottom : Bytes → Manager → OrderAnswer
unfolding move_queued
move_queued_bottom id m = move_queued id move_bottom m
