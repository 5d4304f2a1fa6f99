-- ===== src/Upnp/Eventing/Delivery.antt =====
-- `UpnpSendEvent` gives every subscriber of the service its message, in order.
use tv_now.Common.{
  ltb, ℕ, zero, suc, ◌+◌, ◌≡◌, ◌≤◌, ◌<◌, ◌∙◌, refl, sym, ap, false, Option, none, some, List, [],
  ◌∷◌, ◌++◌, append_assoc, append-nil, map, All, Bytes, length, arith,
}
use tv_now.Common.Int.{pos}
use tv_now.Upnp.Subscribers.{Subscription, Subscribers, done, write}
use tv_now.Upnp.Subscribers.Chain.{
  Entry, node, pointer, Segment, Fresh, Apart, Holds, write_same, write_other, load_lem,
  write-Segment,
}
use tv_now.Upnp.Subscribers.Relink.{Frame}
use tv_now.Upnp.Expiry.{is_expired}
use tv_now.Upnp.Eventing.{
  Request, Stack, Service, increment, notify_packet, send_event_body, send_loop, send_event,
  subscribers,
}

-- A subscription after one more message, and that message.
abbrev pub notified : Entry → Entry
notified x = (x.0, record x.1 { seq = x.1.seq + 1; ref_count = increment x.1.ref_count })

abbrev pub message : Bytes → Entry → Request
message body x = record { subscriber = x.0; packet = notify_packet x.1 body; disposing = false }

abbrev pub IsLive : ℕ → Entry → Type 0
IsLive now x = now ≤ x.1.renew_by

pointer-notified : (xs : List Entry) → pointer (map notified xs) none ≡ pointer xs none
pointer-notified [] = refl
pointer-notified (x ∷ xs) = refl

length-notified : (xs : List Entry) → length (map notified xs) ≡ length xs
length-notified [] = refl
length-notified (x ∷ xs) = ap suc (length-notified xs)

Fresh-notified : (a : ℕ) (xs : List Entry) → Fresh a xs → Fresh a (map notified xs)
Fresh-notified a [] h = tt
Fresh-notified a (x ∷ xs) (hx, h) = (hx, Fresh-notified a xs h)

Apart-notified : (xs : List Entry) → Apart xs → Apart (map notified xs)
Apart-notified [] h = tt
Apart-notified (x ∷ xs) (hx, h) = (Fresh-notified x.0 xs hx, Apart-notified xs h)

pub is_expired_lem :
    (now : ℕ) (s : Subscription) (p q : Option ℕ)
    → now ≤ s.renew_by
    → is_expired now (node s p q) ≡ false
unfolding is_expired
is_expired_lem now s p q h = ground arith

-- The stack after the message to one subscriber.
abbrev pub told : Stack → Bytes → Entry → Option ℕ → Option ℕ → Stack
told u body x p q = record u {
  store = write u.store x.0 (node (notified x).1 p q);
  requests = u.requests ++ message body x ∷ [];
}

pub send_event_body_lem :
    (u : Stack) (body : Bytes) (x : Entry) (p q : Option ℕ)
    → u.store x.0 ≡ some (node x.1 p q)
    → send_event_body u body x.0 ≡ done (told u body x p q)
unfolding send_event_body
send_event_body_lem u body x p q e = rw (load_lem u.store x.0 e) refl

-- One round of the loop, at a subscription that is not expired.
send_round :
    (fuel walk now : ℕ) (u : Stack) (body : Bytes) (x : Entry) (p q : Option ℕ)
    → u.store x.0 ≡ some (node x.1 p q)
    → now ≤ x.1.renew_by
    → send_loop (suc fuel) walk now u body (some x.0)
      ≡ send_loop fuel walk now (told u body x p q) body p
unfolding send_loop is_expired
send_round fuel walk now u body x p q e h =
    let live : ltb x.1.renew_by now ≡ false = is_expired_lem now x.1 p q h in
    rw (load_lem u.store x.0 e, live)
      (rw (load_lem (told u body x p q).store x.0 (write_same u.store x.0 _)) refl)

-- Only the store and the requests differ.
abbrev pub SameElse : Stack → Stack → Type 0
SameElse u v = v ≡ record u { store = v.store; requests = v.requests }

-- The entries have had their messages; the rest of the store and of the stack is as before.
abbrev pub Told : Stack → Stack → Bytes → Option ℕ → List Entry → Type 0
Told u v body before xs =
    Segment v.store before (map notified xs) none
    × Frame u.store v.store xs
    × (v.requests ≡ u.requests ++ map (message body) xs)
    × SameElse u v

send_loop-Told :
    (fuel walk now : ℕ) (u : Stack) (body : Bytes) (before : Option ℕ) (xs : List Entry)
    → length xs < fuel
    → Segment u.store before xs none
    → Apart xs
    → All (IsLive now) xs
    → (v : Stack) × (send_loop fuel walk now u body (pointer xs none) ≡ done v)
      × Told u v body before xs
send_loop-Told (suc fuel) walk now u body before [] f s d h =
    unfold send_loop in (u, refl, (tt, λ c k. refl, sym (append-nil u.requests), refl))
send_loop-Told zero walk now u body before xs f s d h = absurd (omega arith)
send_loop-Told (suc fuel) walk now u body before (x ∷ xs) f (e, s) (fx, d) (hx, h) =
    let u1 = told u body x (pointer xs none) before in
    let (v, ran, (seg, frame, requests, elsewhere)) =
      send_loop-Told fuel walk now u1 body (some x.0) xs (omega arith)
        (write-Segment u.store x.0 _ (some x.0) xs none fx s) d h in
    (
      v,
      send_round fuel walk now u body x (pointer xs none) before e hx ∙ ran,
      (
        (
          frame x.0 fx
              ∙ write_same u.store x.0 _
              ∙ ap (λ (p : Option ℕ). some (node (notified x).1 p before))
                  (sym (pointer-notified xs)),
          seg,
        ),
        λ c k. frame c k.1 ∙ write_other u.store x.0 c _ (λ q. k.0 (sym q)),
        requests ∙ append_assoc u.requests (message body x ∷ []) (map (message body) xs),
        elsewhere,
      ),
    )

-- `UpnpSendEvent` on a well-formed list whose subscriptions have not expired, with a round for
-- each and one more: one message for each subscriber is handed to the web client, in the order of the list and
-- with the sequence number of its subscription; that number and the reference count go up by
-- one, and nothing else of the store, the lists of subscribers, the counter of the SIDs and the state variables
-- changes.
pub send_event-Told :
    (fuel walk now : ℕ) (u : Stack) (body : Bytes) (service : Service) (xs : List Entry)
    → Holds u.store (subscribers u.services service) xs
    → All (IsLive now) xs
    → length xs < fuel
    → (v : Stack) × (send_event fuel walk now u body service ≡ done v)
      × Holds v.store (subscribers v.services service) (map notified xs)
      × Frame u.store v.store xs
      × (v.requests ≡ u.requests ++ map (message body) xs)
      × SameElse u v
unfolding send_event
send_event-Told fuel walk now u body service xs (h, t, d, s) live f =
    let (v, ran, (seg, frame, requests, elsewhere)) =
      send_loop-Told fuel walk now u body none xs f s d live in
    let same = ap (λ (w : Stack). subscribers w.services service) elsewhere in
    (
      v,
      rw h ran,
      (
        ap (λ (l : Subscribers). l.head) same ∙ h ∙ sym (pointer-notified xs),
        ap (λ (l : Subscribers). l.total) same ∙ t ∙ ap pos (sym (length-notified xs)),
        Apart-notified xs d,
        seg,
      ),
      frame,
      requests,
      elsewhere,
    )
