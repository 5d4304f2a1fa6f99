-- ===== src/Upnp/Expiry/Spin.antt =====
-- `UpnpExpireSubscriberInfo` of the first of several subscribers leaves a list in which the walk
-- to the first node does not end.
use tv_now.Common.{
  ℕ, zero, suc, ◌≡◌, ◌≢◌, ◌∙◌, refl, sym, inl, inr, true, false, Option, none, some, List, [], ◌∷◌,
  All, Bool-cases, ==_refl, if◌then◌else◌, if_true, if_false, arith,
}
use tv_now.Upnp.Subscribers.{
  SubscriberInfo, Store, done, spent, write, free, destruct, set_previous, set_ref_count, decrement,
  release, is_zero,
}
use tv_now.Upnp.Subscribers.Chain.{
  Entry, node, pointer, Segment, Fresh, Holds, write_same, write_other, load_lem, update_lem,
  write-Segment,
}
use tv_now.Upnp.Expiry.{
  Services, first_loop, points, count_down, link_previous, released, unlink, expire_subscriber_info,
}

pub free_other : (st : Store) (a b : ℕ) → b ≢ a → free st a b ≡ st b
unfolding free
free_other st a b h = ground arith

-- A node that is there is released, and no other is touched.
pub release_lem :
    (st : Store) (a : ℕ) {n : SubscriberInfo}
    → st a ≡ some n
    → (st' : Store) × (release st a ≡ done st') × ((c : ℕ) → c ≢ a → st' c ≡ st c)
unfolding release destruct
release_lem st a {n} e =
    let k = decrement n.subscription.ref_count in
    let st1 : Store = write st a (set_ref_count k n) in
    let counted : release st a ≡ (if is_zero k then destruct st1 a else done st1) =
      rw (load_lem st a e) refl in
    elim (Bool-cases (is_zero k)) [
      | inl last ↦ (
        free st1 a,
        counted ∙ if_true (is_zero k) _ _ last ∙ rw (load_lem st1 a (write_same st a _)) refl,
        λ c h. free_other st1 a c h ∙ write_other st a c _ h,
      )
      | inr more ↦ (st1, counted ∙ if_false (is_zero k) _ _ more, λ c h. write_other st a c _ h)
    ]

-- A segment without the node.
pub kept-Segment :
    (st st' : Store) (a : ℕ) (before : Option ℕ) (xs : List Entry) (end : Option ℕ)
    → ((c : ℕ) → c ≢ a → st' c ≡ st c)
    → Fresh a xs
    → Segment st before xs end
    → Segment st' before xs end
kept-Segment st st' a before [] end k h s = tt
kept-Segment st st' a before (x ∷ xs) end k (hx, h) (e, s) =
    (k x.0 hx ∙ e, kept-Segment st st' a (some x.0) xs end k h s)

-- However many rounds the walk to the first node takes, it is not there.
abbrev pub Spins : Store → ℕ → Type 0
Spins st a = (fuel : ℕ) → first_loop fuel st a ≡ spent

-- A node whose link leads to itself.
self_Spins :
    (st : Store) (a : ℕ) {n : SubscriberInfo} → st a ≡ some n → n.previous ≡ some a → Spins st a
unfolding first_loop
self_Spins st a e p zero = refl
self_Spins st a e p (suc fuel) = rw (load_lem st a e, p) (self_Spins st a e p fuel)

step_Spins :
    (st : Store) (a p : ℕ) {n : SubscriberInfo}
    → st a ≡ some n
    → n.previous ≡ some p
    → Spins st p
    → Spins st a
unfolding first_loop
step_Spins st a p e q s zero = refl
step_Spins st a p e q s (suc fuel) = rw (load_lem st a e, q) (s fuel)

-- All nodes behind such a node.
behind_Spins :
    (st : Store) (p : ℕ) (xs : List Entry)
    → Segment st (some p) xs none
    → Spins st p
    → All (λ (x : Entry). Spins st x.0) xs
behind_Spins st p [] s h = tt
behind_Spins st p (x ∷ xs) (e, s) h =
    let k = step_Spins st x.0 p e refl h in (k, behind_Spins st x.0 xs s k)

-- The service without its first subscriber.
abbrev without_first : Services → Option ℕ → Services
without_first d p = record d {
  content_directory = record { head = p; total = decrement d.content_directory.total };
}

-- What the call does with the first subscriber of ContentDirectory.
expire_first :
    (st : Store) (d : Services) (x y : Entry) (p : Option ℕ) (rounds : ℕ)
    → st x.0 ≡ some (node x.1 (some y.0) none)
    → st y.0 ≡ some (node y.1 p (some x.0))
    → points d.content_directory.head x.0 ≡ true
    → points d.connection_manager.head x.0 ≡ false
    → expire_subscriber_info (suc rounds) st d x.0
      ≡ released (without_first d (some y.0)) x.0 (write st y.0 (node y.1 p (some y.0)))
unfolding expire_subscriber_info first_loop count_down unlink link_previous
expire_first st d x y p rounds ex ey h q =
    rw (load_lem st x.0 ex, q, h, update_lem st y.0 (set_previous (some y.0)) ey) (rw (q, h) refl)

-- A walk that does not end keeps the call from ending.
expire-Spins :
    (st : Store) (d : Services) (a : ℕ)
    → Spins st a
    → (fuel : ℕ) → expire_subscriber_info fuel st d a ≡ spent
unfolding expire_subscriber_info
expire-Spins st d a s fuel = rw (s fuel) refl

All-map :
    {P Q : Entry → Type 0} → ((w : Entry) → P w → Q w) → (xs : List Entry) → All P xs → All Q xs
All-map f [] h = tt
All-map f (x ∷ xs) (hx, h) = (f x hx, All-map f xs h)

-- `UpnpExpireSubscriberInfo` of the first of at least two subscribers of ContentDirectory ends,
-- but then the same call for any other of them does not: its walk to the first node goes on
-- however many rounds it is given.
pub expire_subscriber_info-spinning :
    (st : Store) (d : Services) (x y : Entry) (zs : List Entry) (rounds : ℕ)
    → Holds st d.content_directory (x ∷ y ∷ zs)
    → points d.connection_manager.head x.0 ≡ false
    → (st' : Store) × (d' : Services) × (expire_subscriber_info (suc rounds) st d x.0
        ≡ done (st', d'))
      × (d'.content_directory.head ≡ some y.0)
      × All (λ (w : Entry). (fuel : ℕ) → expire_subscriber_info fuel st' d' w.0 ≡ spent) (y ∷ zs)
unfolding points
expire_subscriber_info-spinning st d x y zs rounds (h, t, ((xy, fx), (fy, p)), (ex, (ey, s))) q =
    let other : SubscriberInfo = node y.1 (pointer zs none) (some y.0) in
    let st1 : Store = write st y.0 other in
    let (st', e, keeps) =
      release_lem st1 x.0 (write_other st y.0 x.0 other (λ k. xy (sym k)) ∙ ex) in
    let pts : points d.content_directory.head x.0 ≡ true = rw (h, points) (==_refl x.0) in
    let d' = without_first d (some y.0) in
    let spin = self_Spins st' y.0 (keeps y.0 xy ∙ write_same st y.0 other) refl in
    let rest =
      kept-Segment st1 st' x.0 (some y.0) zs none keeps fx
        (write-Segment st y.0 other (some y.0) zs none fy s) in
    (
      st',
      d',
      expire_first st d x y (pointer zs none) rounds ex ey pts q ∙ rw e refl,
      refl,
      All-map (λ w. expire-Spins st' d' w.0) (y ∷ zs) (spin, behind_Spins st' y.0 zs rest spin),
    )
