-- ===== src/Parsers/LifeTime.antt =====
-- libIWeb/ILibParsers.c: the `ILibLifeTime` timers. The doubly linked list `LM` is the list of its
-- nodes from the head on; what the callbacks do to it is a parameter of `check`. A tick is a
-- second of `gettimeofday`, and no timer is set for the past.
pub mod Order
pub mod Tests
pub mod Removal
pub mod Block
use tv_now.Common.{
  ℕ, ◌+◌, Bool, true, false, Option, none, some, List, [], ◌∷◌, ◌++◌, ltb, leb, ◌==◌, if◌then◌else◌,
}
use tv_now.Common.Int.{ℤ, pos, negsuc, sub_ℕ}

-- `struct LifeTimeMonitorData` without its links; functions and data are named by numbers, as
-- only their identity is read.
pub record Timer : Type 0 where
  pub data_ptr : ℕ
  pub expiration_tick : ℕ
  pub callback_ptr : ℕ
  pub destroy_ptr : Option ℕ

-- The loop of `ILibLifeTime_Add`: the node is linked in front of `temp`, behind it, or later.
add_loop : Timer → Timer → List Timer → List Timer
add_loop ltms temp [] =
    if leb ltms.expiration_tick temp.expiration_tick then ltms ∷ temp ∷ [] else temp ∷ ltms ∷ []
add_loop ltms temp (next ∷ rest) =
    if leb ltms.expiration_tick temp.expiration_tick
    then ltms ∷ temp ∷ next ∷ rest
    else temp ∷ add_loop ltms next rest

-- `NeedUnBlock`: the node is the head now.
need_unblock : Timer → List Timer → Bool
need_unblock ltms [] = true
need_unblock ltms (temp ∷ rest) = leb ltms.expiration_tick temp.expiration_tick

link : Timer → List Timer → List Timer
link ltms [] = ltms ∷ []
link ltms (temp ∷ rest) = add_loop ltms temp rest

-- The list after `ILibLifeTime_Add` at the tick `now`, and whether it unblocks the chain.
unfoldable pub add : ℕ → List Timer → ℕ → ℕ → ℕ → Option ℕ → List Timer × Bool
unfolding link add_loop need_unblock
add now lm datum seconds callback destroy =
    let ltms : Timer = record {
      data_ptr = datum;
      expiration_tick = now + seconds;
      callback_ptr = callback;
      destroy_ptr = destroy;
    } in
    (link ltms lm, need_unblock ltms lm)

-- The first loop of `ILibLifeTime_Check`: the nodes cut off, and the list that stays.
unfoldable pub expire : ℕ → List Timer → List Timer × List Timer
expire now [] = ([], [])
expire now (temp ∷ rest) =
    let r = expire now rest in
    if leb temp.expiration_tick now then (temp ∷ r.0, r.1) else ([], temp ∷ rest)

-- `a < b`.
pub ltb_ℤ : ℤ → ℤ → Bool
ltb_ℤ (pos a) (pos b) = ltb a b
ltb_ℤ (pos a) (negsuc b) = false
ltb_ℤ (negsuc a) (pos b) = true
ltb_ℤ (negsuc a) (negsuc b) = ltb b a

-- `*blocktime` at the end of `ILibLifeTime_Check`.
next_block : ℕ → List Timer → ℤ → ℤ
next_block now [] blocktime = blocktime
next_block now (t ∷ rest) blocktime =
    let nexttick = sub_ℕ t.expiration_tick now in
    if ltb_ℤ nexttick blocktime then nexttick else blocktime

-- The second loop: each callback is called with the list as the one before has left it.
run_callbacks : (ℕ → ℕ → List Timer → List Timer) → List Timer → List Timer → List Timer
run_callbacks call [] lm = lm
run_callbacks call (t ∷ evt) lm = run_callbacks call evt (call t.callback_ptr t.data_ptr lm)

-- The list after `ILibLifeTime_Check`, and `*blocktime`.
unfoldable pub check : (ℕ → ℕ → List Timer → List Timer) → ℕ → List Timer → ℤ → List Timer × ℤ
unfolding expire run_callbacks next_block ltb_ℤ
check call now [] blocktime = ([], blocktime)
check call now (t ∷ rest) blocktime =
    let (evt, lm) = expire now (t ∷ rest) in
    let lm' = run_callbacks call evt lm in (lm', next_block now lm' blocktime)

-- The loop of `ILibLifeTime_Remove`: the list, and the nodes moved to `evt`. A node that is moved
-- gets `Next = NULL` before `first = first->Next`, so that the loop ends behind it.
unfoldable pub remove : List Timer → ℕ → List Timer × List Timer
remove [] datum = ([], [])
remove (first ∷ rest) datum =
    let r = remove rest datum in
    if first.data_ptr == datum then (rest, first ∷ []) else (first ∷ r.0, r.1)

-- The calls of `DestroyPtr`, with the data, that `ILibLifeTime_Remove` and `ILibLifeTime_Flush`
-- make for the nodes that they free.
unfoldable pub destroy_calls : List Timer → List (ℕ × ℕ)
destroy_calls [] = []
destroy_calls (t ∷ evt) =
    let rest = destroy_calls evt in
    elim t.destroy_ptr [ none ↦ rest | some f ↦ (f, t.data_ptr) ∷ rest ]

-- `ILibLifeTime_Flush`: the empty list, and its calls.
unfoldable pub flush : List Timer → List Timer × List (ℕ × ℕ)
unfolding destroy_calls
flush lm = ([], destroy_calls lm)
