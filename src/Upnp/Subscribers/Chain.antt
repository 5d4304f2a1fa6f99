-- ===== src/Upnp/Subscribers/Chain.antt =====
-- Well-formed lists of subscribers: the nodes from the head on, each with a link to the one before.
use tv_now.Common.{
  ℕ, ◌≡◌, ◌≢◌, ◌∙◌, ◌⊎◌, refl, sym, ap, inl, inr, Option, none, some, List, [], ◌∷◌, ◌++◌, All,
  All-append, ==_refl, length, arith,
}
use tv_now.Common.Int.{pos}
use tv_now.Upnp.Subscribers.{
  Subscription, SubscriberInfo, Subscribers, Store, done, write, load, update_node,
}

abbrev pub Entry : Type 0
Entry = ℕ × Subscription

abbrev pub node : Subscription → Option ℕ → Option ℕ → SubscriberInfo
node s next previous = record { subscription = s; next = next; previous = previous }

-- The address of the first entry, or else the pointer behind the list.
abbrev pub pointer : List Entry → Option ℕ → Option ℕ
pointer [] end = end
pointer (x ∷ xs) end = some x.0

-- The address of the last entry, or else the pointer before the list.
abbrev pub last_pointer : Option ℕ → List Entry → Option ℕ
last_pointer before [] = before
last_pointer before (x ∷ xs) = last_pointer (some x.0) xs

-- The store holds these entries, linked in both directions, between two pointers.
abbrev pub Segment : Store → Option ℕ → List Entry → Option ℕ → Type 0
Segment st before [] end = Unit
Segment st before (x ∷ xs) end =
    (st x.0 ≡ some (node x.1 (pointer xs end) before)) × Segment st (some x.0) xs end

-- The address is that of none of the entries.
abbrev pub Fresh : ℕ → List Entry → Type 0
Fresh a = All (λ (x : Entry). x.0 ≢ a)

abbrev pub Apart : List Entry → Type 0
Apart [] = Unit
Apart (x ∷ xs) = Fresh x.0 xs × Apart xs

-- The list of a service has these entries, newest first, and counts them.
abbrev pub Holds : Store → Subscribers → List Entry → Type 0
Holds st l xs =
    (l.head ≡ pointer xs none) × (l.total ≡ pos (length xs)) × Apart xs × Segment st none xs none

pub write_same : (st : Store) (a : ℕ) (n : SubscriberInfo) → write st a n a ≡ some n
unfolding write
write_same st a n = rw (==_refl a) refl

pub write_other : (st : Store) (a b : ℕ) (n : SubscriberInfo) → b ≢ a → write st a n b ≡ st b
unfolding write
write_other st a b n h = ground arith

pub load_lem : (st : Store) (a : ℕ) {n : SubscriberInfo} → st a ≡ some n → load st a ≡ done n
unfolding load
load_lem st a e = rw (e, load) refl

pub update_lem :
    (st : Store) (a : ℕ) (f : SubscriberInfo → SubscriberInfo) {n : SubscriberInfo}
    → st a ≡ some n
    → update_node st a f ≡ done (write st a (f n))
unfolding update_node
update_lem st a f e = rw (load_lem st a e) refl

-- A write elsewhere.
pub write-Segment :
    (st : Store) (a : ℕ) (n : SubscriberInfo) (before : Option ℕ) (xs : List Entry) (end : Option ℕ)
    → Fresh a xs
    → Segment st before xs end
    → Segment (write st a n) before xs end
write-Segment st a n before [] end h s = s
write-Segment st a n before (x ∷ xs) end (hx, h) (e, s) =
    (write_other st a x.0 n hx ∙ e, write-Segment st a n (some x.0) xs end h s)

pub split-Segment :
    (st : Store) (before : Option ℕ) (ys zs : List Entry) (end : Option ℕ)
    → Segment st before (ys ++ zs) end
    → Segment st before ys (pointer zs end) × Segment st (last_pointer before ys) zs end
split-Segment st before [] zs end s = (tt, s)
split-Segment st before (y ∷ []) zs end (e, s) = ((e, tt), s)
split-Segment st before (y ∷ y' ∷ ys) zs end (e, s) =
    let (l, r) = split-Segment st (some y.0) (y' ∷ ys) zs end s in ((e, l), r)

pub join-Segment :
    (st : Store) (before : Option ℕ) (ys zs : List Entry) (end : Option ℕ)
    → Segment st before ys (pointer zs end)
    → Segment st (last_pointer before ys) zs end
    → Segment st before (ys ++ zs) end
join-Segment st before [] zs end l r = r
join-Segment st before (y ∷ []) zs end (e, l) r = (e, r)
join-Segment st before (y ∷ y' ∷ ys) zs end (e, l) r =
    (e, join-Segment st (some y.0) (y' ∷ ys) zs end l r)

pub split-Fresh : (a : ℕ) (ys zs : List Entry) → Fresh a (ys ++ zs) → Fresh a ys × Fresh a zs
split-Fresh a [] zs h = (tt, h)
split-Fresh a (y ∷ ys) zs (hy, h) = let (l, r) = split-Fresh a ys zs h in ((hy, l), r)

-- An entry in the middle lies apart from all the others, which lie apart.
pub split-Apart :
    (ys : List Entry) (x : Entry) (zs : List Entry)
    → Apart (ys ++ x ∷ zs)
    → Fresh x.0 ys × Fresh x.0 zs × Apart (ys ++ zs)
split-Apart [] x zs (h, d) = (tt, h, d)
split-Apart (y ∷ ys) x zs (h, d) =
    let (l, r, p) = split-Apart ys x zs d in
    let (hl, (hx, hr)) = split-Fresh y.0 ys (x ∷ zs) h in
    ((λ e. hx (sym e), l), r, (All-append (λ (x : Entry). x.0 ≢ y.0) ys zs hl hr, p))

-- A list is empty or has a last entry.
pub last_cases :
    (xs : List Entry) → (xs ≡ []) ⊎ ((ys : List Entry) × (y : Entry) × (xs ≡ ys ++ y ∷ []))
last_cases [] = inl refl
last_cases (x ∷ xs) = elim (last_cases xs) [
  | inl e ↦ inr ([], x, ap (◌∷◌ x) e)
  | inr (ys, y, e) ↦ inr (x ∷ ys, y, ap (◌∷◌ x) e)
]

pub last_pointer_snoc :
    (before : Option ℕ) (ys : List Entry) (y : Entry)
    → last_pointer before (ys ++ y ∷ []) ≡ some y.0
last_pointer_snoc before [] y = refl
last_pointer_snoc before (x ∷ ys) y = last_pointer_snoc (some x.0) ys y

-- What the first entry of a segment holds.
pub read-Segment :
    (st : Store) (before : Option ℕ) (ys : List Entry) (x : Entry) (zs : List Entry)
    (end : Option ℕ)
    → Segment st before (ys ++ x ∷ zs) end
    → st x.0 ≡ some (node x.1 (pointer zs end) (last_pointer before ys))
read-Segment st before ys x zs end s = (split-Segment st before ys (x ∷ zs) end s).1.0
