-- ===== src/Parsers/LifeTime/Block.antt =====
-- How long the chain may block.
use tv_now.Common.{choose, ℕ, ◌≡◌, ◌≤◌, false, List, [], ◌∷◌, All, arith}
use tv_now.Common.Int.{ℤ, pos, negsuc, sub_ℕ}
use tv_now.Parsers.LifeTime.{Timer, expire, run_callbacks, ltb_ℤ, next_block, check}
use tv_now.Parsers.LifeTime.Order.{Sorted, expire-Sorted}

-- The block time `b` ends no later than the timer is due.
abbrev pub InTime : ℕ → ℤ → Timer → Type 0
InTime now b t = ltb_ℤ (sub_ℕ t.expiration_tick now) b ≡ false

later :
    (now : ℕ) (b : ℤ) (t u : Timer)
    → t.expiration_tick ≤ u.expiration_tick
    → InTime now b t
    → InTime now b u
unfolding ltb_ℤ
later now (pos b) t u h k = ground arith
later now (negsuc b) t u h k = ground arith

later_each :
    (now : ℕ) (b : ℤ) (t : Timer) (ts : List Timer)
    → All (λ u. t.expiration_tick ≤ u.expiration_tick) ts
    → InTime now b t
    → All (InTime now b) ts
later_each now b t [] h k = tt
later_each now b t (u ∷ us) (hu, h) k = (later now b t u hu k, later_each now b t us h k)

ltb_ℤ_irrefl : (a : ℤ) → ltb_ℤ a a ≡ false
unfolding ltb_ℤ
ltb_ℤ_irrefl (pos a) = ground arith
ltb_ℤ_irrefl (negsuc a) = ground arith

next_block-InTime :
    (now : ℕ) (lm : List Timer) (b : ℤ) → Sorted lm → All (InTime now (next_block now lm b)) lm
unfolding next_block
next_block-InTime now [] b h = tt
next_block-InTime now (t ∷ ts) b (ht, h) =
    let n = sub_ℕ t.expiration_tick now in
    choose (λ c. All (InTime now c) (t ∷ ts)) (ltb_ℤ n b) n b
      (λ sooner. let k = ltb_ℤ_irrefl n in (k, later_each now n t ts ht k))
      (λ not_sooner. (not_sooner, later_each now b t ts ht not_sooner))

run_callbacks-Sorted :
    (call : ℕ → ℕ → List Timer → List Timer)
    → ((c d : ℕ) (lm : List Timer) → Sorted lm → Sorted (call c d lm))
    → (evt lm : List Timer) → Sorted lm
    → Sorted (run_callbacks call evt lm)
unfolding run_callbacks
run_callbacks-Sorted call keeps [] lm h = h
run_callbacks-Sorted call keeps (t ∷ evt) lm h =
    run_callbacks-Sorted call keeps evt _ (keeps _ _ lm h)

-- After `ILibLifeTime_Check`, whatever its callbacks do to the list as long as they keep its
-- order, the list is in order and the block time is not past the tick of any timer in it.
pub check-InTime :
    (call : ℕ → ℕ → List Timer → List Timer) (now : ℕ) (lm : List Timer) (blocktime : ℤ)
    → ((c d : ℕ) (l : List Timer) → Sorted l → Sorted (call c d l))
    → Sorted lm
    → Sorted (check call now lm blocktime).0
      × All (InTime now (check call now lm blocktime).1) (check call now lm blocktime).0
unfolding check
check-InTime call now [] blocktime keeps h = (tt, tt)
check-InTime call now (t ∷ ts) blocktime keeps h =
    let r = expire now (t ∷ ts) in
    let s = run_callbacks-Sorted call keeps r.0 r.1 (expire-Sorted now (t ∷ ts) h) in
    (s, next_block-InTime now (run_callbacks call r.0 r.1) blocktime s)
