-- ===== src/Parsers/Queue/Fifo.antt =====
-- The queue gives its data in the order in which they came.
use tv_now.Common.{
  ℕ, ◌≡◌, ◌≢◌, ◌∙◌, ◌⊎◌, refl, sym, ap, inl, inr, Bool, true, false, Option, none, some, List, [],
  ◌∷◌, ◌++◌, All, All-append, ==_refl, arith,
}
use tv_now.Parsers.Queue.{
  Node, Queue, Store, write, create, is_empty, link_tail, link_node, en_queue, unlink_node,
  de_queue, peek_queue,
}

-- The chain from the pointer `p` goes over these addresses and comes to the pointer `q`.
abbrev pub Segment : Store → Option ℕ → List ℕ → Option ℕ → Type 0
Segment st p [] q = p ≡ q
Segment st p (a ∷ ps) q = (p ≡ some a) × Segment st (st a).next ps q

abbrev pub values : Store → List ℕ → List ℕ
values st [] = []
values st (a ∷ ps) = (st a).datum ∷ values st ps

-- The queue holds the nodes at `live`, with the data `xs`: none, or a chain from the head that
-- ends at the tail.
abbrev pub Holds : Store → Queue → List ℕ → List ℕ → Type 0
Holds st q live xs =
    ((live ≡ []) × (xs ≡ []) × (q ≡ create))
    ⊎ ((front : List ℕ) × (t : ℕ) × (live ≡ front ++ t ∷ [])
        × (xs ≡ values st front ++ (st t).datum ∷ [])
        × Segment st q.head front (some t)
        × (q.tail ≡ some t)
        × ((st t).next ≡ none)
        × All (λ b. b ≢ t) front)

write_other : (st : Store) (a b : ℕ) (n : Node) → b ≢ a → write st a n b ≡ st b
unfolding write
write_other st a b n h = ground arith

write_same : (st : Store) (a : ℕ) (n : Node) → write st a n a ≡ n
unfolding write
write_same st a n = rw (==_refl a) refl

write-Segment :
    (st : Store) (a : ℕ) (n : Node) (ps : List ℕ) (p q : Option ℕ)
    → All (λ b. b ≢ a) ps
    → Segment st p ps q
    → Segment (write st a n) p ps q
write-Segment st a n [] p q h s = s
write-Segment st a n (b ∷ ps) p q (hb, h) (e, s) =
    (e, rw (write_other st a b n hb) (write-Segment st a n ps (st b).next q h s))

values-write :
    (st : Store) (a : ℕ) (n : Node) (ps : List ℕ)
    → All (λ b. b ≢ a) ps
    → values (write st a n) ps ≡ values st ps
values-write st a n [] h = refl
values-write st a n (b ∷ ps) (hb, h) = rw (write_other st a b n hb, values-write st a n ps h) refl

Segment-append :
    (st : Store) (ps : List ℕ) (t : ℕ) (p q : Option ℕ)
    → Segment st p ps (some t)
    → (st t).next ≡ q
    → Segment st p (ps ++ t ∷ []) q
Segment-append st [] t p q s e = (s, e)
Segment-append st (b ∷ ps) t p q (h, s) e = (h, Segment-append st ps t (st b).next q s e)

values-append : (st : Store) (ps bs : List ℕ) → values st (ps ++ bs) ≡ values st ps ++ values st bs
values-append st [] bs = refl
values-append st (a ∷ ps) bs = ap (◌∷◌ (st a).datum) (values-append st ps bs)

-- A chain to a node does not start at NULL.
starts_somewhere :
    (st : Store) (p : Option ℕ) (ps : List ℕ) (t : ℕ)
    → Segment st p ps (some t)
    → (h : ℕ) × (p ≡ some h)
starts_somewhere st p [] t s = (t, s)
starts_somewhere st p (a ∷ ps) t (e, s) = (a, e)

-- `ILibQueue_DeQueue` of a queue with data gives the one that came first and leaves the others.
pub de_queue-Holds :
    (st : Store) (q : Queue) (a : ℕ) (live : List ℕ) (x : ℕ) (xs : List ℕ)
    → Holds st q (a ∷ live) (x ∷ xs)
    → ((de_queue st q).1 ≡ some x) × Holds st (de_queue st q).0 live xs
unfolding de_queue unlink_node
de_queue-Holds st q a live x xs (inl (l, v, e)) = cc
de_queue-Holds st q a live x xs (inr ([], t, l, v, s, e, n, d)) =
    let ex : (st t).datum ≡ x = cc in rw (s, n) (ap some ex, inl (cc, cc, refl))
de_queue-Holds st q a live x xs (inr (b ∷ front, t, l, v, (hb, s), e, n, (db, d))) =
    let (h, eh) = starts_somewhere st (st b).next front t s in
    let ex : (st b).datum ≡ x = cc in
    rw (hb, eh) (ap some ex, inr (front, t, cc, cc, rw eh at s, e, n, d))

split-All : (P : ℕ → Type 0) (xs ys : List ℕ) → All P (xs ++ ys) → All P xs × All P ys
split-All P [] ys h = (tt, h)
split-All P (x ∷ xs) ys (hx, h) = let (k, l) = split-All P xs ys h in ((hx, k), l)

-- The store after both writes of an insertion behind the tail `t`.
abbrev linked : Store → ℕ → ℕ → Node → Store
linked st t sn new =
    write (write st sn new) t (record { datum = (write st sn new t).datum; next = some sn })

module _ (st : Store) (front : List ℕ) (t sn : ℕ) (new : Node) (ht : t ≢ sn) where
  linked_tail : linked st t sn new t ≡ record { datum = (st t).datum; next = some sn }
  linked_tail = rw (write_same, write_other st sn t new ht) refl

  linked_new : linked st t sn new sn ≡ new
  linked_new = write_other (write st sn new) t sn _ (λ e. ht (sym e)) ∙ write_same st sn new

  values-linked :
      All (λ b. b ≢ t) front
      → All (λ b. b ≢ sn) front
      → values (linked st t sn new) (front ++ t ∷ []) ≡ values st front ++ (st t).datum ∷ []
  values-linked d h =
      rw
        (
          values-append (linked st t sn new) front (t ∷ []),
          values-write (write st sn new) t _ front d,
          values-write st sn new front h,
          linked_tail,
        )
        refl

  linked-Segment :
      (p : Option ℕ)
      → All (λ b. b ≢ t) front
      → All (λ b. b ≢ sn) front
      → Segment st p front (some t)
      → Segment (linked st t sn new) p (front ++ t ∷ []) (some sn)
  linked-Segment p d h s =
      Segment-append (linked st t sn new) front t p (some sn)
        (write-Segment (write st sn new) t _ front p (some t) d
          (write-Segment st sn new front p (some t) h s))
        (rw linked_tail refl)

-- `ILibQueue_EnQueue` with a node at an address that the queue does not hold succeeds, and puts
-- the datum behind the others.
pub en_queue-Holds :
    (st : Store) (q : Queue) (live xs : List ℕ) (sn datum : ℕ)
    → Holds st q live xs
    → All (λ b. b ≢ sn) live
    → (st' : Store) × (q' : Queue) × (en_queue st q sn datum ≡ some (st', q'))
      × Holds st' q' (live ++ sn ∷ []) (xs ++ datum ∷ [])
unfolding en_queue link_node link_tail
en_queue-Holds st q live xs sn datum (inl (l, v, e)) fresh =
    let new : Node = record { datum = datum; next = none } in
    let same = write_same st sn new in
    (
      write st sn new,
      record { head = some sn; tail = some sn },
      rw e refl,
      inr ([], sn, rw l refl, rw (v, same) refl, refl, refl, rw same refl, tt),
    )
en_queue-Holds st q live xs sn datum (inr (front, t, l, v, s, e, n, d)) fresh =
    let new : Node = record { datum = datum; next = none } in
    let (h, eh) = starts_somewhere st q.head front t s in
    let (hf, (ht, _)) = split-All (λ b. b ≢ sn) front (t ∷ []) (rw l at fresh) in
    (
      linked st t sn new,
      record q { tail = some sn },
      rw (eh, e) refl,
      inr (
        front ++ t ∷ [],
        sn,
        rw l refl,
        rw (v, values-linked st front t sn new ht d hf, linked_new st front t sn new ht) refl,
        linked-Segment st front t sn new ht q.head d hf s,
        refl,
        rw (linked_new st front t sn new ht) refl,
        All-append _ front (t ∷ []) hf (ht, tt),
      ),
    )

abbrev pub first : List ℕ → Option ℕ
first [] = none
first (x ∷ xs) = some x

abbrev pub is_nil : List ℕ → Bool
is_nil [] = true
is_nil (x ∷ xs) = false

-- `ILibQueue_PeekQueue` and `ILibQueue_DeQueue` both give the datum that came first, or NULL, and
-- `ILibQueue_IsEmpty` tells which.
pub peek_queue-Holds :
    (st : Store) (q : Queue) (live xs : List ℕ)
    → Holds st q live xs
    → (peek_queue st q ≡ first xs) × ((de_queue st q).1 ≡ first xs) × (is_empty q ≡ is_nil xs)
unfolding peek_queue de_queue unlink_node is_empty
peek_queue-Holds st q live xs (inl (l, v, e)) = rw (v, e) (refl, refl, refl)
peek_queue-Holds st q live xs (inr ([], t, l, v, s, e, n, d)) = rw (v, s) (refl, refl, refl)
peek_queue-Holds st q live xs (inr (b ∷ front, t, l, v, (hb, s), e, n, d)) =
    rw (v, hb) (refl, refl, refl)
