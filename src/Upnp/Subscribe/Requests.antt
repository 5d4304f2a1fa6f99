-- ===== src/Upnp/Subscribe/Requests.antt =====
-- What SUBSCRIBE and UNSUBSCRIBE requests do to the list of a service.
use tv_now.Common.{
  ℕ, zero, suc, ◌+◌, ◌≡◌, ◌<◌, ◌∙◌, refl, sym, ap, true, false, Option, none, some, List, [], ◌∷◌,
  ◌++◌, All, Bytes, codes, length, ltb, arith, lt→ltb,
}
use tv_now.Common.Int.{ℤ, pos}
use tv_now.Parsers.Packets.{decimal}
use tv_now.Upnp.Subscribers.{
  Subscription, SubscriberInfo, Subscribers, Store, done, write, set_previous,
}
use tv_now.Upnp.Subscribers.Chain.{
  Entry, node, pointer, Segment, Fresh, Holds, write_same, write_other, load_lem, update_lem,
  write-Segment,
}
use tv_now.Upnp.Subscribers.Relink.{Frame, relink_first}
use tv_now.Upnp.Callback.{target}
use tv_now.Upnp.Expiry.{Services, is_expired}
use tv_now.Upnp.Eventing.{
  Stack, Service, connection_manager, content_directory, subscribers, increment,
}
use tv_now.Upnp.Eventing.Delivery.{
  notified, message, IsLive, is_expired_lem, told, send_event_body_lem,
}
use tv_now.Upnp.Subscribe.{
  set_subscribers, with_list, drop_loop, link_first, accept, subscribe_to, try_to_subscribe,
  has_room, later_by, long_to_int, reply_subscribed, initial_event_body,
}

-- The loop leaves a list alone in which nothing has expired.
drop_loop_live :
    (fuel now : ℕ) (st : Store) (l : Subscribers) (before : Option ℕ) (xs : List Entry)
    → length xs < fuel
    → Segment st before xs none
    → All (IsLive now) xs
    → drop_loop fuel now st l (pointer xs none) ≡ done (st, l)
unfolding drop_loop is_expired
drop_loop_live zero now st l before xs f s h = absurd (omega arith)
drop_loop_live (suc fuel) now st l before [] f s h = refl
drop_loop_live (suc fuel) now st l before (x ∷ xs) f (e, s) (hx, h) =
    let live : ltb x.1.renew_by now ≡ false = is_expired_lem now x.1 (pointer xs none) before hx in
    rw (load_lem st x.0 e, live) (drop_loop_live fuel now st l (some x.0) xs (omega arith) s h)

increment_lem : (n : ℕ) → increment (pos n) ≡ pos (suc n)
unfolding increment
increment_lem n = ap pos (omega arith)

-- A new node in front of a list that does not have it.
link_first-Holds :
    (st : Store) (l : Subscribers) (new : ℕ) (s : Subscription) (xs : List Entry)
    → Holds st l xs
    → Fresh new xs
    → (st' : Store) × (l' : Subscribers) × (link_first st l new s ≡ done (st', l'))
      × Holds st' l' ((new, s) ∷ xs)
      × Frame st st' ((new, s) ∷ xs)
unfolding link_first
link_first-Holds st l new s [] (h, t, d, k) f = (
  write st new (node s none none),
  record { head = some new; total = increment l.total },
  simp h,
  (refl, ap increment t ∙ increment_lem 0, (tt, tt), (write_same st new _, tt)),
  λ c g. write_other st new c _ (λ e. g.0 (sym e)),
)
link_first-Holds st l new s (x ∷ xs) (h, t, (fx, d), (e, k)) (nx, f) =
    let st1 : Store = write st new (node s (some x.0) none) in
    let moved : SubscriberInfo = node x.1 (pointer xs none) (some new) in
    let e1 : st1 x.0 ≡ some (node x.1 (pointer xs none) none) = write_other st new x.0 _ nx ∙ e in
    let behind = write-Segment st new (node s (some x.0) none) none (x ∷ xs) none (nx, f) (e, k) in
    (
      write st1 x.0 moved,
      record { head = some new; total = increment l.total },
      simp h (rw (update_lem st1 x.0 (set_previous (some new)) e1) refl),
      (
        refl,
        ap increment t ∙ increment_lem (suc (length xs)),
        ((nx, f), (fx, d)),
        (
          write_other st1 x.0 new moved (λ q. nx (sym q)) ∙ write_same st new _,
          relink_first st1 none (some new) x xs none fx behind,
        ),
      ),
      λ c g.
          write_other st1 x.0 c moved (λ q. g.1.0 (sym q))
          ∙ write_other st new c _ (λ q. g.0 (sym q)),
    )

-- The subscription that a request makes.
abbrev pub subscription_of : Stack → ℕ → ℤ → ℕ → ℕ → Bytes → Subscription
subscription_of u now timeout address port path = record {
  sid = codes "uuid:" ++ decimal (pos (u.sid + 1));
  seq = 0;
  address = address;
  port = port;
  path = path;
  ref_count = pos 1;
  renew_by = later_by now (long_to_int timeout);
}

pub subscribers_with :
    (d : Services) (service : Service) (l : Subscribers)
    → subscribers (set_subscribers d service l) service ≡ l
subscribers_with d connection_manager l = refl
subscribers_with d content_directory l = refl

pub same_list :
    (d : Services) (service : Service) → set_subscribers d service (subscribers d service) ≡ d
same_list d connection_manager = refl
same_list d content_directory = refl

-- The subscription is in the list, newest first, and its first event is on its way.
abbrev pub Subscribed : Stack → Stack → Service → ℕ → Subscription → List Entry → Type 0
Subscribed u w service new s xs =
    Holds w.store (subscribers w.services service) (notified (new, s) ∷ xs)
    × Frame u.store w.store ((new, s) ∷ xs)
    × (w.requests ≡ u.requests ++ message (initial_event_body u service) (new, s) ∷ [])

body_with :
    (u : Stack) (service : Service) (st : Store) (d : Services) (n : ℕ)
    → initial_event_body (record u { store = st; services = d; sid = n }) service
      ≡ initial_event_body u service
unfolding initial_event_body
body_with u connection_manager st d n = refl
body_with u content_directory st d n = refl

accept-Subscribed :
    (u : Stack) (service : Service) (new now : ℕ) (timeout : ℤ) (address port : ℕ) (path : Bytes)
    (xs : List Entry)
    → Holds u.store (subscribers u.services service) xs
    → Fresh new xs
    → (w : Stack) × (accept (record u { sid = u.sid + 1 }) service new now timeout address port path
        ≡ done (w, reply_subscribed (codes "uuid:" ++ decimal (pos (u.sid + 1))) timeout))
      × Subscribed u w service new (subscription_of u now timeout address port path) xs
unfolding accept
accept-Subscribed u service new now timeout address port path xs h f =
    let s = subscription_of u now timeout address port path in
    let (st', l', e, (eh, et, (fx, d), (own, rest)), frame) =
      link_first-Holds u.store (subscribers u.services service) new s xs h f in
    let v = with_list (record u { sid = u.sid + 1 }) service st' l' in
    let body = initial_event_body v service in
    let w = told v body (new, s) (pointer xs none) none in
    (
      w,
      rw (e, send_event_body_lem v body (new, s) (pointer xs none) none own) refl,
      (
        (
          ap (λ (l : Subscribers). l.head) (subscribers_with u.services service l') ∙ eh,
          ap (λ (l : Subscribers). l.total) (subscribers_with u.services service l') ∙ et,
          (fx, d),
          (write_same st' new _, write-Segment st' new _ (some new) xs none fx rest),
        ),
        λ c g. write_other st' new c _ (λ q. g.0 (sym q)) ∙ frame c g,
        ap (λ (b : Bytes). u.requests ++ message b (new, s) ∷ []) (body_with u service _ _ _),
      ),
    )

-- `UpnpTryToSubscribe` with a callback that has an address, on a well-formed list of less than 10 subscribers of which none
-- has expired: the new subscription is in front, the reply tells its SID and timeout, its
-- first event is handed to the web client with the sequence number 0, and of the other nodes only the Previous link
-- of the old head changes.
pub try_to_subscribe-Subscribed :
    (fuel : ℕ) (u : Stack) (service : Service) (new now : ℕ) (timeout : ℤ) (address port : ℕ)
    (path : Bytes) (xs : List Entry)
    → Holds u.store (subscribers u.services service) xs
    → All (IsLive now) xs
    → Fresh new xs
    → length xs < 10
    → length xs < fuel
    → (w : Stack) × (try_to_subscribe fuel u service new now timeout (target address port path)
        ≡ done (w, reply_subscribed (codes "uuid:" ++ decimal (pos (u.sid + 1))) timeout))
      × Subscribed u w service new (subscription_of u now timeout address port path) xs
unfolding try_to_subscribe subscribe_to
try_to_subscribe-Subscribed fuel u service new now timeout address port path xs h live f room fu =
    let (w, e, r) = accept-Subscribed u service new now timeout address port path xs h f in
    let kept =
      drop_loop_live fuel now u.store (subscribers u.services service) none xs fu h.3 live in
    let n : has_room (subscribers u.services service).total ≡ true =
      rw h.1 (lt→ltb (length xs) 10 room) in
    (w, simp h.0 (rw (kept, same_list u.services service, n) e), r)
