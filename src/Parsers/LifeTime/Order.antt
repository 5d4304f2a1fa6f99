-- ===== src/Parsers/LifeTime/Order.antt =====
-- The timers are kept in the order of their ticks.
use mathlib.Core.Path.{subst}
use tv_now.Common.{
  ℕ, suc, sym, ◌==◌, All-append, ◌+◌, ◌≤◌, ◌<◌, ◌≡◌, refl, ap, Option, List, [], ◌∷◌, ◌++◌, All,
  Bool-cases, inl, inr, leb, arith,
}
use tv_now.Parsers.LifeTime.{Timer, add, link, add_loop, expire, remove, flush}

-- No timer behind is due before one in front.
abbrev pub Sorted : List Timer → Type 0
Sorted [] = Unit
Sorted (t ∷ ts) = All (λ u. t.expiration_tick ≤ u.expiration_tick) ts × Sorted ts

abbrev pub DueBefore : ℕ → List Timer → Type 0
DueBefore n = All (λ u. u.expiration_tick < n)

abbrev pub DueFrom : ℕ → List Timer → Type 0
DueFrom n = All (λ u. n ≤ u.expiration_tick)

DueFrom-trans : (m n : ℕ) (ts : List Timer) → m ≤ n → DueFrom n ts → DueFrom m ts
DueFrom-trans m n [] h hs = tt
DueFrom-trans m n (t ∷ ts) h (ht, hs) = (omega arith, DueFrom-trans m n ts h hs)

-- The list `out` is `lm` with `x` between what is due before it and the rest.
abbrev pub Placed : Timer → List Timer → List Timer → Type 0
Placed x lm out =
    (front : List Timer) × (back : List Timer) × (lm ≡ front ++ back)
    × (out ≡ front ++ (x ∷ back))
    × DueBefore x.expiration_tick front
    × DueFrom x.expiration_tick back

add_loop-Placed :
    (x temp : Timer) (rest : List Timer)
    → Sorted (temp ∷ rest)
    → Placed x (temp ∷ rest) (add_loop x temp rest)
unfolding add_loop
add_loop-Placed x temp [] (h, hs) = elim (Bool-cases (leb x.expiration_tick temp.expiration_tick)) [
  | inl due ↦ rw due ([], temp ∷ [], refl, refl, tt, (ground arith, tt))
  | inr later ↦ rw later (temp ∷ [], [], refl, refl, (ground arith, tt), tt)
]
add_loop-Placed x temp (next ∷ rest) (h, hs) =
    elim (Bool-cases (leb x.expiration_tick temp.expiration_tick)) [
      | inl due ↦
          let le : x.expiration_tick ≤ temp.expiration_tick = ground arith in
          rw due (
            [],
            temp ∷ next ∷ rest,
            refl,
            refl,
            tt,
            (le, DueFrom-trans x.expiration_tick temp.expiration_tick (next ∷ rest) le h),
          )
      | inr later ↦
          let (front, back, e, o, hf, hb) = add_loop-Placed x next rest hs in
          rw later (temp ∷ front, back, ap (◌∷◌ temp) e, ap (◌∷◌ temp) o, (ground arith, hf), hb)
    ]

link-Placed : (x : Timer) (lm : List Timer) → Sorted lm → Placed x lm (link x lm)
unfolding link
link-Placed x [] h = ([], [], refl, refl, tt, tt)
link-Placed x (t ∷ ts) h = add_loop-Placed x t ts h

-- `ILibLifeTime_Add` to a list in order of ticks places the timer behind exactly the timers that
-- are due before it, and leaves the others as they are.
pub add-Placed :
    (now : ℕ) (lm : List Timer) (datum seconds callback : ℕ) (destroy : Option ℕ)
    → Sorted lm
    → Placed
        (record {
          data_ptr = datum;
          expiration_tick = now + seconds;
          callback_ptr = callback;
          destroy_ptr = destroy;
        })
        lm
        (add now lm datum seconds callback destroy).0
unfolding add
add-Placed now lm datum seconds callback destroy h = link-Placed _ lm h

Sorted-append :
    (n : ℕ) (front back : List Timer)
    → Sorted front
    → Sorted back
    → DueBefore n front
    → DueFrom n back
    → Sorted (front ++ back)
Sorted-append n [] back hf hb bf bb = hb
Sorted-append n (t ∷ front) back (ht, hf) hb (bt, bf) bb = (
  All-append _ front back ht (DueFrom-trans t.expiration_tick n back (omega arith) bb),
  Sorted-append n front back hf hb bf bb,
)

split-Sorted : (front back : List Timer) → Sorted (front ++ back) → Sorted front × Sorted back
split-Sorted [] back h = (tt, h)
split-Sorted (t ∷ front) back (ht, h) =
    let (hf, hb) = split-Sorted front back h in ((All-front front back ht, hf), hb)
  where
    All-front :
        (front back : List Timer)
        → All (λ u. t.expiration_tick ≤ u.expiration_tick) (front ++ back)
        → All (λ u. t.expiration_tick ≤ u.expiration_tick) front
    All-front [] back h = tt
    All-front (u ∷ front) back (hu, h) = (hu, All-front front back h)

Placed-Sorted : (x : Timer) (lm out : List Timer) → Sorted lm → Placed x lm out → Sorted out
Placed-Sorted x lm out h (front, back, e, o, hf, hb) =
    let (sf, sb) = split-Sorted front back (subst Sorted e h) in
    subst Sorted (sym o)
      (Sorted-append x.expiration_tick front (x ∷ back) sf (hb, sb) hf (omega arith, hb))

pub add-Sorted :
    (now : ℕ) (lm : List Timer) (datum seconds callback : ℕ) (destroy : Option ℕ)
    → Sorted lm
    → Sorted (add now lm datum seconds callback destroy).0
add-Sorted now lm datum seconds callback destroy h =
    Placed-Sorted _ lm _ h (add-Placed now lm datum seconds callback destroy h)

-- What `ILibLifeTime_Check` cuts off is due, in order, what it leaves is not, and nothing is lost.
pub expire-Due :
    (now : ℕ) (lm : List Timer)
    → Sorted lm
    → (lm ≡ (expire now lm).0 ++ (expire now lm).1)
      × DueBefore (suc now) (expire now lm).0
      × DueFrom (suc now) (expire now lm).1
unfolding expire
expire-Due now [] h = (refl, tt, tt)
expire-Due now (t ∷ ts) (ht, h) = elim (Bool-cases (leb t.expiration_tick now)) [
  | inl due ↦ let (e, hf, hb) = expire-Due now ts h in rw due (ap (◌∷◌ t) e, (ground arith, hf), hb)
  | inr later ↦
      let le : suc now ≤ t.expiration_tick = ground arith in
      rw later (refl, tt, (le, DueFrom-trans (suc now) t.expiration_tick ts le ht))
]

pub expire-Sorted : (now : ℕ) (lm : List Timer) → Sorted lm → Sorted (expire now lm).1
expire-Sorted now lm h =
    let (e, hf, hb) = expire-Due now lm h in
    (split-Sorted (expire now lm).0 (expire now lm).1 (subst Sorted e h)).1

All-remove :
    (P : Timer → Type 0) (lm : List Timer) (datum : ℕ) → All P lm → All P (remove lm datum).0
unfolding remove
All-remove P [] datum h = tt
All-remove P (t ∷ ts) datum (ht, h) = elim (Bool-cases (t.data_ptr == datum)) [
  | inl same ↦ rw same h
  | inr other ↦ rw other (ht, All-remove P ts datum h)
]

remove-Sorted : (lm : List Timer) (datum : ℕ) → Sorted lm → Sorted (remove lm datum).0
unfolding remove
remove-Sorted [] datum h = tt
remove-Sorted (t ∷ ts) datum (ht, h) = elim (Bool-cases (t.data_ptr == datum)) [
  | inl same ↦ rw same h
  | inr other ↦ rw other (All-remove _ ts datum ht, remove-Sorted ts datum h)
]

-- What the program does to a monitor's list: it adds, removes and flushes timers, from callbacks
-- as well, and a check cuts off what is due.
pub data Step : List Timer → List Timer → Type 0 where
  adds :
      {lm : List Timer} (now datum seconds callback : ℕ) (destroy : Option ℕ)
      → Step lm (add now lm datum seconds callback destroy).0
  expires : {lm : List Timer} (now : ℕ) → Step lm (expire now lm).1
  removes : {lm : List Timer} (datum : ℕ) → Step lm (remove lm datum).0
  flushes : {lm : List Timer} → Step lm (flush lm).0

-- The lists that a monitor comes to from the empty one of `ILibCreateLifeTime`.
pub data Reachable : List Timer → Type 0 where
  created : Reachable []
  after : {lm lm' : List Timer} → Reachable lm → Step lm lm' → Reachable lm'

Step-Sorted : (lm lm' : List Timer) → Step lm lm' → Sorted lm → Sorted lm'
unfolding add flush
Step-Sorted lm _ (adds now datum seconds callback destroy) h =
    add-Sorted now lm datum seconds callback destroy h
Step-Sorted lm _ (expires now) h = expire-Sorted now lm h
Step-Sorted lm _ (removes datum) h = remove-Sorted lm datum h
Step-Sorted lm _ flushes h = tt

-- In every order of additions, checks, removals and flushes the timers stay in the order of their
-- ticks.
pub Reachable-Sorted : (lm : List Timer) → Reachable lm → Sorted lm
Reachable-Sorted _ created = tt
Reachable-Sorted lm (after {lm = before} r s) = Step-Sorted before lm s (Reachable-Sorted before r)
