-- ===== src/Upnp/Subscribers/Relink.antt =====
-- How the links around a node of a list of subscribers change, and what taking it out leaves.
use tv_now.Common.{
  ℕ, suc, ◌≡◌, ◌≢◌, ◌∙◌, refl, sym, ap, Option, none, some, List, [], ◌∷◌, ◌++◌, All-append, length,
  length-append, arith,
}
use tv_now.Common.Int.{pos}
use tv_now.Upnp.Subscribers.{Subscribers, Store, done, write, take_out, decrement}
use tv_now.Upnp.Subscribers.Chain.{
  Entry, node, pointer, last_pointer, Segment, Fresh, Holds, write_same, write_other, write-Segment,
  split-Segment, join-Segment, split-Fresh, split-Apart,
}

-- The last entry of a segment gets another link to what is behind.
pub relink_last :
    (st : Store) (before : Option ℕ) (ys : List Entry) (y : Entry) (end end' : Option ℕ)
    → Fresh y.0 ys
    → Segment st before (ys ++ y ∷ []) end
    → Segment (write st y.0 (node y.1 end' (last_pointer before ys))) before (ys ++ y ∷ []) end'
relink_last st before ys y end end' h s =
    let (l, _) = split-Segment st before ys (y ∷ []) end s in
    join-Segment _ before ys (y ∷ []) end' (write-Segment st y.0 _ before ys (some y.0) h l)
      (write_same st y.0 _, tt)

-- The first entry of a segment gets another link to what is before.
pub relink_first :
    (st : Store) (before before' : Option ℕ) (z : Entry) (zs : List Entry) (end : Option ℕ)
    → Fresh z.0 zs
    → Segment st before (z ∷ zs) end
    → Segment (write st z.0 (node z.1 (pointer zs end) before')) before' (z ∷ zs) end
relink_first st before before' z zs end h (e, s) =
    (write_same st z.0 _, write-Segment st z.0 _ (some z.0) zs end h s)

-- A store that differs from another only at some of the entries.
abbrev pub Frame : Store → Store → List Entry → Type 0
Frame st st' xs = (c : ℕ) → Fresh c xs → st' c ≡ st c

-- What taking out the entry `x` leaves: the others, linked, and the node without links.
abbrev pub TakenOut : Store → Subscribers → List Entry → Entry → List Entry → Type 0
TakenOut st l ys x zs =
    (st' : Store) × (l' : Subscribers) × (take_out st l x.0 (last_pointer none ys) ≡ done (st', l'))
    × Holds st' l' (ys ++ zs)
    × (st' x.0 ≡ some (node x.1 none none))
    × Frame st st' (ys ++ x ∷ zs)

pub decrement-length :
    (ys : List Entry) (x : Entry) (zs : List Entry)
    → decrement (pos (length (ys ++ x ∷ zs))) ≡ pos (length (ys ++ zs))
unfolding decrement
decrement-length [] x zs = refl
decrement-length (y ∷ ys) x zs =
    let e : length (ys ++ x ∷ zs) ≡ suc (length (ys ++ zs)) =
      omega (arith, length-append ys (x ∷ zs), length-append ys zs) in
    rw e refl

-- The address of the entry between the two lists is none of those that the frame is about.
pub between-ne :
    (c : ℕ) (ys : List Entry) (x : Entry) (zs : List Entry) → Fresh c (ys ++ x ∷ zs) → c ≢ x.0
between-ne c ys x zs f e = (split-Fresh c ys (x ∷ zs) f).1.0 (sym e)

-- The last step, which clears the links of the node that is out of the list.
module _ (st st1 : Store) (l : Subscribers) (ys : List Entry) (x : Entry) (zs : List Entry) where
  pub cleared :
      (h : Holds st l (ys ++ x ∷ zs))
      → Segment st1 none (ys ++ zs) none
      → Frame st st1 (ys ++ x ∷ zs)
      → Holds
          (write st1 x.0 (node x.1 none none))
          (record { head = pointer (ys ++ zs) none; total = decrement l.total })
          (ys ++ zs)
        × Frame st (write st1 x.0 (node x.1 none none)) (ys ++ x ∷ zs)
  cleared (h, t, d, s) s1 f =
      let (fy, fz, d') = split-Apart ys x zs d in
      (
        (
          refl,
          ap decrement t ∙ decrement-length ys x zs,
          d',
          write-Segment st1 x.0 _ none (ys ++ zs) none (All-append _ ys zs fy fz) s1,
        ),
        λ c fc. write_other st1 x.0 c _ (between-ne c ys x zs fc) ∙ f c fc,
      )
