-- ===== src/Upnp/Subscribers/TakeOut.antt =====
-- `UpnpRemoveSubscriberInfo`: how a node is taken out of the list of a service.
use mathlib.Core.Path.{subst}
use tv_now.Common.{
  append_assoc, ℕ, ◌≡◌, ◌≢◌, ◌∙◌, refl, sym, ap, inl, inr, Option, none, some, List, [], ◌∷◌, ◌++◌,
  append_assoc,
}
use tv_now.Upnp.Subscribers.{
  SubscriberInfo, Subscribers, Store, write, set_next, set_previous, set_next, set_slot,
  link_behind, take_out, decrement,
}
use tv_now.Upnp.Subscribers.Chain.{
  last_pointer_snoc, read-Segment, last_cases, Entry, node, pointer, last_pointer, Segment, Fresh,
  Apart, Holds, write_same, write_other, load_lem, update_lem, write-Segment, split-Segment,
  join-Segment, split-Fresh, split-Apart, last_cases, last_pointer_snoc, read-Segment,
}
use tv_now.Upnp.Subscribers.Relink.{
  relink_last, relink_first, TakenOut, decrement-length, between-ne, cleared,
}

only : (st : Store) (l : Subscribers) (x : Entry) → Holds st l (x ∷ []) → TakenOut st l [] x []
unfolding take_out set_slot
only st l x (h, t, d, (e, _)) = (
  write st x.0 (node x.1 none none),
  _,
  rw (load_lem st x.0 e, update_lem st x.0 _ e) refl,
  (refl, ap decrement t ∙ decrement-length [] x [], tt, tt),
  write_same st x.0 _,
  λ c f. write_other st x.0 c _ (λ q. f.0 (sym q)),
)

first :
    (st : Store) (l : Subscribers) (x z : Entry) (zs : List Entry)
    → Holds st l (x ∷ z ∷ zs)
    → TakenOut st l [] x (z ∷ zs)
unfolding take_out set_slot link_behind
first st l x z zs (h, t, ((zx, fx), (fz, d)), (ex, (ez, s))) =
    let st1 : Store = write st z.0 (node z.1 (pointer zs none) none) in
    let ex1 : st1 x.0 ≡ some (node x.1 (some z.0) none) =
      write_other st z.0 x.0 _ (λ e. zx (sym e)) ∙ ex in
    let (held, frame) =
      cleared st st1 l [] x (z ∷ zs) (h, t, ((zx, fx), (fz, d)), (ex, (ez, s)))
        (relink_first st (some x.0) none z zs none fz (ez, s))
        (λ c f. write_other st z.0 c _ (λ e. f.1.0 (sym e))) in
    (
      write st1 x.0 (node x.1 none none),
      record { head = some z.0; total = decrement l.total },
      rw (load_lem st x.0 ex, update_lem st z.0 (set_previous none) ez, update_lem st1 x.0 _ ex1)
          refl,
      held,
      write_same st1 x.0 _,
      frame,
    )

-- The front of a list does not depend on what is behind.
pointer-append :
    (ys : List Entry) (y : Entry) (vs ws : List Entry)
    → pointer ((ys ++ y ∷ []) ++ vs) none ≡ pointer ((ys ++ y ∷ []) ++ ws) none
pointer-append [] y vs ws = refl
pointer-append (x ∷ ys) y vs ws = refl

-- What the nodes around `x` hold, if `y` stands directly before it.
module _ (st : Store) (l : Subscribers) (ys : List Entry) (y x : Entry) (zs : List Entry)
    (h : Holds st l ((ys ++ y ∷ []) ++ x ∷ zs)) where
  front : Segment st none (ys ++ y ∷ []) (some x.0)
  front = (split-Segment st none (ys ++ y ∷ []) (x ∷ zs) none h.3).0

  behind : Segment st (some x.0) zs none
  behind = (split-Segment st none (ys ++ y ∷ []) (x ∷ zs) none h.3).1.1

  own : st x.0 ≡ some (node x.1 (pointer zs none) (some y.0))
  own = rw (last_pointer_snoc none ys y) at (read-Segment st none (ys ++ y ∷ []) x zs none h.3)

  before : st y.0 ≡ some (node y.1 (some x.0) (last_pointer none ys))
  before = read-Segment st none ys y [] (some x.0) front

  y-Fresh : Fresh y.0 ys × Fresh y.0 (x ∷ zs)
  y-Fresh =
      let (a, b, _) =
        split-Apart ys y (x ∷ zs) (subst Apart (append_assoc ys (y ∷ []) (x ∷ zs)) h.2) in
      (a, b)

  kept_head : l.head ≡ pointer ((ys ++ y ∷ []) ++ zs) none
  kept_head = h.0 ∙ pointer-append ys y (x ∷ zs) zs

last :
    (st : Store) (l : Subscribers) (ys : List Entry) (y x : Entry)
    → Holds st l ((ys ++ y ∷ []) ++ x ∷ [])
    → TakenOut st l (ys ++ y ∷ []) x []
unfolding take_out set_slot
last st l ys y x h =
    let fy = y-Fresh st l ys y x [] h in
    let st1 : Store = write st y.0 (node y.1 none (last_pointer none ys)) in
    let ex1 : st1 x.0 ≡ some (node x.1 none (some y.0)) =
      write_other st y.0 x.0 _ fy.1.0 ∙ own st l ys y x [] h in
    let (held, frame) =
      cleared st st1 l (ys ++ y ∷ []) x [] h
        (join-Segment st1 none (ys ++ y ∷ []) [] none
          (relink_last st none ys y (some x.0) none fy.0 (front st l ys y x [] h)) tt)
        (λ c f.
          write_other st y.0 c _
            (between-ne c ys y [] (split-Fresh c (ys ++ y ∷ []) (x ∷ []) f).0)) in
    (
      write st1 x.0 (node x.1 none none),
      record { head = l.head; total = decrement l.total },
      rw
          (
            last_pointer_snoc none ys y,
            load_lem st x.0 (own st l ys y x [] h),
            update_lem st y.0 (set_next none) (before st l ys y x [] h),
            update_lem st1 x.0 _ ex1,
          )
          refl,
      (kept_head st l ys y x [] h, held.1, held.2, held.3),
      write_same st1 x.0 _,
      frame,
    )

-- Two segments, one that ends at `y` and one that begins at `z`, while these two are linked.
module _ (ys : List Entry) (y z : Entry) (zs : List Entry) where
  abbrev Both : Store → Option ℕ → Option ℕ → Type 0
  Both st p q = Segment st none (ys ++ y ∷ []) p × Segment st q (z ∷ zs) none

  abbrev left : SubscriberInfo
  left = node y.1 (some z.0) (last_pointer none ys)

  abbrev right : SubscriberInfo
  right = node z.1 (pointer zs none) (some y.0)

  link_left :
      (st : Store) (p q : Option ℕ)
      → Fresh y.0 ys
      → Fresh y.0 (z ∷ zs)
      → Both st p q
      → Both (write st y.0 left) (some z.0) q
  link_left st p q fy fz (a, b) =
      (relink_last st none ys y p (some z.0) fy a, write-Segment st y.0 left q (z ∷ zs) none fz b)

  link_right :
      (st : Store) (p q : Option ℕ)
      → Fresh z.0 (ys ++ y ∷ [])
      → Fresh z.0 zs
      → Both st p q
      → Both (write st z.0 right) p (some y.0)
  link_right st p q fy fz (a, b) = (
    write-Segment st z.0 right none (ys ++ y ∷ []) p fy a,
    relink_first st q (some y.0) z zs none fz b,
  )

  read_left :
      (st : Store) (p q : Option ℕ)
      → Both st p q
      → st y.0 ≡ some (node y.1 p (last_pointer none ys))
  read_left st p q (a, b) = read-Segment st none ys y [] p a

  linked : Store → Store
  linked st = write (write st y.0 left) z.0 right

  linked_other : (st : Store) (c : ℕ) → c ≢ y.0 → c ≢ z.0 → linked st c ≡ st c
  unfolding linked
  linked_other st c hy hz =
      write_other (write st y.0 left) z.0 c right hz ∙ write_other st y.0 c left hy

middle :
    (st : Store) (l : Subscribers) (ys : List Entry) (y x z : Entry) (zs : List Entry)
    → Holds st l ((ys ++ y ∷ []) ++ x ∷ z ∷ zs)
    → TakenOut st l (ys ++ y ∷ []) x (z ∷ zs)
unfolding take_out set_slot link_behind linked
middle st l ys y x z zs h =
    let (fy, (yx, fyz)) = y-Fresh st l ys y x (z ∷ zs) h in
    let (xf, (zx, xzs), d) = split-Apart (ys ++ y ∷ []) x (z ∷ zs) h.2 in
    let (zf, zzs, _) = split-Apart (ys ++ y ∷ []) z zs d in
    let st1 : Store = write st y.0 (left ys y z zs) in
    let st2 : Store = linked ys y z zs st in
    let st3 : Store = write st2 y.0 (left ys y z zs) in
    let st4 : Store = linked ys y z zs st2 in
    let b1 =
      link_left ys y z zs st (some x.0) (some x.0) fy fyz
        (front st l ys y x (z ∷ zs) h, behind st l ys y x (z ∷ zs) h) in
    let b2 = link_right ys y z zs st1 (some z.0) (some x.0) zf zzs b1 in
    let b3 = link_left ys y z zs st2 (some z.0) (some y.0) fy fyz b2 in
    let b4 = link_right ys y z zs st3 (some z.0) (some y.0) zf zzs b3 in
    let other : (c : ℕ) → c ≢ y.0 → c ≢ z.0 → st4 c ≡ st c =
      λ c hy hz. linked_other ys y z zs st2 c hy hz ∙ linked_other ys y z zs st c hy hz in
    let ex4 : st4 x.0 ≡ some (node x.1 (some z.0) (some y.0)) =
      other x.0 yx (λ e. zx (sym e)) ∙ own st l ys y x (z ∷ zs) h in
    let (held, frame) =
      cleared st st4 l (ys ++ y ∷ []) x (z ∷ zs) h
        (join-Segment st4 none (ys ++ y ∷ []) (z ∷ zs) none b4.0
          (rw (last_pointer_snoc none ys y) b4.1))
        (λ c f.
          let (f1, f2) = split-Fresh c (ys ++ y ∷ []) (x ∷ z ∷ zs) f in
          other c (between-ne c ys y [] f1) (λ e. f2.1.0 (sym e))) in
    (
      write st4 x.0 (node x.1 none none),
      record { head = l.head; total = decrement l.total },
      rw
          (
            last_pointer_snoc none ys y,
            load_lem st x.0 (own st l ys y x (z ∷ zs) h),
            update_lem st y.0 (set_next (some z.0)) (before st l ys y x (z ∷ zs) h),
            update_lem st1 z.0 (set_previous (some y.0)) b1.1.0,
            update_lem st2 y.0 (set_next (some z.0)) (read_left ys y z zs st2 _ _ b2),
            update_lem st3 z.0 (set_previous (some y.0)) b3.1.0,
            update_lem st4 x.0 _ ex4,
          )
          refl,
      (kept_head st l ys y x (z ∷ zs) h, held.1, held.2, held.3),
      write_same st4 x.0 _,
      frame,
    )

-- Whatever stands around it, an entry is taken out.
pub take_out-TakenOut :
    (st : Store) (l : Subscribers) (ys : List Entry) (x : Entry) (zs : List Entry)
    → Holds st l (ys ++ x ∷ zs)
    → TakenOut st l ys x zs
take_out-TakenOut st l ys x [] h = elim (last_cases ys) [
  | inl e ↦
      subst (λ (v : List Entry). TakenOut st l v x []) (sym e)
        (only st l x (subst (λ (v : List Entry). Holds st l (v ++ x ∷ [])) e h))
  | inr (vs, y, e) ↦
      subst (λ (v : List Entry). TakenOut st l v x []) (sym e)
        (last st l vs y x (subst (λ (v : List Entry). Holds st l (v ++ x ∷ [])) e h))
]
take_out-TakenOut st l ys x (z ∷ zs) h = elim (last_cases ys) [
  | inl e ↦
      subst (λ (v : List Entry). TakenOut st l v x (z ∷ zs)) (sym e)
        (first st l x z zs (subst (λ (v : List Entry). Holds st l (v ++ x ∷ z ∷ zs)) e h))
  | inr (vs, y, e) ↦
      subst (λ (v : List Entry). TakenOut st l v x (z ∷ zs)) (sym e)
        (middle st l vs y x z zs (subst (λ (v : List Entry). Holds st l (v ++ x ∷ z ∷ zs)) e h))
]
