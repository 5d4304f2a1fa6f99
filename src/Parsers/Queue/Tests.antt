-- ===== src/Parsers/Queue/Tests.antt =====
-- The queue, run on concrete data.
use tv_now.Common.{ℕ, ◌≡◌, ◌≢◌, refl, none, some, [], ◌∷◌, inr, All, arith, ◌==◌, if◌then◌else◌}
use tv_now.Parsers.Queue.{Queue, Store, en_queue, de_queue, peek_queue, is_empty}
use tv_now.Parsers.Queue.Fifo.{
  Holds, first, is_nil, en_queue-Holds, de_queue-Holds, peek_queue-Holds,
}

-- Two nodes, at 1 and 2.
abbrev two : Store
two a = if a == 1 then record { datum = 70; next = some 2 } else record { datum = 80; next = none }

abbrev q : Queue
q = record { head = some 1; tail = some 2 }

q-Holds : Holds two q (1 ∷ 2 ∷ []) (70 ∷ 80 ∷ [])
q-Holds = inr (1 ∷ [], 2, refl, refl, (refl, refl), refl, refl, ((λ e. omega (arith, e)), tt))

q-Fresh : All (λ (b : ℕ). b ≢ 3) (1 ∷ 2 ∷ [])
q-Fresh = ((λ e. omega (arith, e)), ((λ e. omega (arith, e)), tt))

en_queue-Holds_example :
    (st' : Store) × (q' : Queue) × (en_queue two q 3 90 ≡ some (st', q'))
    × Holds st' q' (1 ∷ 2 ∷ 3 ∷ []) (70 ∷ 80 ∷ 90 ∷ [])
en_queue-Holds_example = en_queue-Holds two q (1 ∷ 2 ∷ []) (70 ∷ 80 ∷ []) 3 90 q-Holds q-Fresh

de_queue-Holds_example :
    ((de_queue two q).1 ≡ some 70) × Holds two (de_queue two q).0 (2 ∷ []) (80 ∷ [])
de_queue-Holds_example = de_queue-Holds two q 1 (2 ∷ []) 70 (80 ∷ []) q-Holds

peek_queue_run :
    (peek_queue two q ≡ first (70 ∷ 80 ∷ []))
    × ((de_queue two q).1 ≡ first (70 ∷ 80 ∷ []))
    × (is_empty q ≡ is_nil (70 ∷ 80 ∷ []))
peek_queue_run = peek_queue-Holds two q (1 ∷ 2 ∷ []) (70 ∷ 80 ∷ []) q-Holds
