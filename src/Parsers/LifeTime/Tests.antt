-- ===== src/Parsers/LifeTime/Tests.antt =====
-- The timers, run on concrete lists.
use tv_now.Common.{ℕ, ◌≡◌, ◌++◌, refl, none, some, List, [], ◌∷◌, All, arith}
use tv_now.Common.Int.{pos}
use tv_now.Parsers.LifeTime.{Timer, add, expire, check, remove, flush}
use tv_now.Parsers.LifeTime.Order.{
  Sorted, DueBefore, DueFrom, Placed, add-Placed, add-Sorted, expire-Due, Reachable, created, after,
  adds, removes, Reachable-Sorted,
}
use tv_now.Parsers.LifeTime.Removal.{IsFirstRemoved, remove-IsFirstRemoved}
use tv_now.Parsers.LifeTime.Block.{InTime, check-InTime}

abbrev timer : ℕ → ℕ → Timer
timer datum tick = record {
  data_ptr = datum;
  expiration_tick = tick;
  callback_ptr = 1;
  destroy_ptr = some 2;
}

abbrev timers : List Timer
timers = timer 7 10 ∷ timer 8 12 ∷ timer 7 20 ∷ []

timers-Sorted : Sorted timers
timers-Sorted = ((omega arith, (omega arith, tt)), ((omega arith, tt), (tt, tt)))

-- A callback that sets its timer again.
abbrev again : ℕ → ℕ → List Timer → List Timer
again callback datum lm = (add 12 lm datum 5 callback none).0

add-Placed_run : Placed (timer 9 12) timers (add 10 timers 9 2 1 (some 2)).0
add-Placed_run = add-Placed 10 timers 9 2 1 (some 2) timers-Sorted

expire-Due_run :
    (timers ≡ (expire 12 timers).0 ++ (expire 12 timers).1)
    × DueBefore 13 (expire 12 timers).0
    × DueFrom 13 (expire 12 timers).1
expire-Due_run = expire-Due 12 timers timers-Sorted

remove-IsFirstRemoved_run : IsFirstRemoved timers 7 (remove timers 7)
remove-IsFirstRemoved_run = remove-IsFirstRemoved timers 7

-- Of two timers with the datum, the later one stays.
remove_test : (remove timers 7).0 ≡ timer 8 12 ∷ timer 7 20 ∷ []
unfolding remove
remove_test = refl

flush_test : flush timers ≡ ([], (2, 7) ∷ (2, 8) ∷ (2, 7) ∷ [])
unfolding flush
flush_test = refl

check-InTime_example :
    Sorted (check again 12 timers (pos 60)).0
    × All (InTime 12 (check again 12 timers (pos 60)).1) (check again 12 timers (pos 60)).0
check-InTime_example =
    check-InTime again 12 timers (pos 60) (λ c d l h. add-Sorted 12 l d 5 c none h) timers-Sorted

abbrev after_two : List Timer
after_two = (remove (add 10 (add 10 [] 7 9 1 none).0 8 2 1 none).0 7).0

after_two-Reachable : Reachable after_two
after_two-Reachable =
    after (after (after created (adds 10 7 9 1 none)) (adds 10 8 2 1 none)) (removes 7)

Reachable-Sorted_example : Sorted after_two
Reachable-Sorted_example = Reachable-Sorted after_two after_two-Reachable
