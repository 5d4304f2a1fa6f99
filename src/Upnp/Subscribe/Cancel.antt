-- ===== src/Upnp/Subscribe/Cancel.antt =====
-- What UNSUBSCRIBE does to the list of a service.
use mathlib.Core.Path.{subst}
use tv_now.Common.{
  ℕ, suc, ◌≡◌, ◌≢◌, ◌≤◌, ◌<◌, ◌∙◌, ◌⊎◌, refl, ap, inl, inr, true, none, some, List, ◌∷◌, ◌++◌,
  All-append, Bytes, length, arith, ==_refl,
}
use tv_now.Common.Int.{pos}
use tv_now.Upnp.Subscribers.{
  SubscriberInfo, Subscribers, Store, done, freed, write, load, update_node, release,
  remove_subscriber_info, is_bad_sid, decrement, free, destruct, set_ref_count,
}
use tv_now.Upnp.Subscribers.Chain.{Entry, Apart, Holds, write_same, load_lem, split-Apart}
use tv_now.Upnp.Subscribers.Relink.{Frame, between-ne}
use tv_now.Upnp.Subscribers.Removal.{Others, Found, remove_subscriber_info-Holds}
use tv_now.Upnp.Expiry.Spin.{release_lem, kept-Segment}
use tv_now.Upnp.Eventing.{Stack, Service, subscribers, send_loop, send_event}
use tv_now.Upnp.Subscribe.{with_list, reply_ok, reply_invalid_sid, unsubscribe, give_up}
use tv_now.Upnp.Subscribe.Requests.{subscribers_with, same_list}

-- The list without the entry, and the rest of the store as before.
abbrev pub Unsubscribed : Stack → Stack → Service → List Entry → Entry → List Entry → Type 0
Unsubscribed u v service ys x zs =
    Holds v.store (subscribers v.services service) (ys ++ zs) × Frame u.store v.store (ys ++ x ∷ zs)

-- UNSUBSCRIBE with a SID of 1 to 64 bytes, on a well-formed list of at most 100 subscribers: the first subscriber
-- with the SID is out of the list, no node outside the list changes and the reply is 200; or there is none, nothing
-- changes and the reply is 412.
pub unsubscribe-Holds :
    (fuel : ℕ) (u : Stack) (service : Service) (xs : List Entry) (sid : Bytes)
    → Holds u.store (subscribers u.services service) xs
    → length xs ≤ 100
    → 1 ≤ length sid
    → length sid ≤ 64
    → length xs < fuel
    → ((f : Found sid xs) × (v : Stack) × (unsubscribe fuel u (some service) sid
          ≡ done (v, reply_ok))
        × Unsubscribed u v service f.0 f.1 f.2)
      ⊎ (Others sid xs × (unsubscribe fuel u (some service) sid ≡ done (u, reply_invalid_sid)))
unfolding unsubscribe give_up
unsubscribe-Holds fuel u service xs sid h n a b k =
    let l = subscribers u.services service in
    elim (remove_subscriber_info-Holds fuel u.store l xs sid h n a b k) [
      | inr (o, e) ↦ inr (o, rw (e, same_list u.services service) refl)
      | inl ((ys, x, zs, split, o, q), (st1, l', e, (eh, et, d, seg), own, frame)) ↦
          let (st2, e2, keeps) = release_lem st1 x.0 own in
          let (fy, fz, _) = split-Apart ys x zs (subst Apart split h.2) in
          inl (
            (ys, x, zs, split, o, q),
            with_list u service st2 l',
            rw (e, e2) refl,
            (
              (
                ap (λ (w : Subscribers). w.head) (subscribers_with u.services service l') ∙ eh,
                ap (λ (w : Subscribers). w.total) (subscribers_with u.services service l') ∙ et,
                d,
                kept-Segment st1 st2 x.0 none (ys ++ zs) none keeps
                    (All-append (λ (w : Entry). w.0 ≢ x.0) ys zs fy fz) seg,
              ),
              λ c g. keeps c (between-ne c ys x zs g) ∙ frame c g,
            ),
          )
    ]

-- A node that nobody else holds is freed.
release_last :
    (st : Store) (a : ℕ) {n : SubscriberInfo}
    → st a ≡ some n
    → n.subscription.ref_count ≡ pos 1
    → (st' : Store) × (release st a ≡ done st') × (st' a ≡ none)
unfolding release destruct free update_node decrement
release_last st a {n} e k = (
  free (write st a (set_ref_count (pos 0) n)) a,
  rw (load_lem st a e, k, load_lem (write st a (set_ref_count (pos 0) n)) a (write_same st a _))
      refl,
  rw (==_refl a) refl,
)

is_bad_sid_lem : (sid : Bytes) → (length sid ≡ 0) ⊎ (64 < length sid) → is_bad_sid sid ≡ true
unfolding is_bad_sid
is_bad_sid_lem sid h = ground arith

bad_removal :
    (fuel : ℕ) (st : Store) (l : Subscribers) (sid : Bytes)
    → is_bad_sid sid ≡ true
    → remove_subscriber_info fuel st l sid ≡ done ((st, l), l.head)
unfolding remove_subscriber_info
bad_removal fuel st l sid h = ground (arith, h)

load_gone : (st : Store) (a : ℕ) → st a ≡ none → load st a ≡ freed
unfolding load
load_gone st a e = rw (e, load) refl

-- An event to a service whose head is a freed node.
send_event_gone :
    (rounds walk now : ℕ) (v : Stack) (body : Bytes) (service : Service) (a : ℕ)
    → (subscribers v.services service).head ≡ some a
    → v.store a ≡ none
    → send_event (suc rounds) walk now v body service ≡ freed
unfolding send_event send_loop
send_event_gone rounds walk now v body service a h e = rw h (rw (load_gone v.store a e) refl)

-- UNSUBSCRIBE with a SID of no byte or of more than 64: the reply is 200, and the first subscriber of the service, if no
-- event is on its way to it, is freed but still the head of the list, so that the
-- next event of the service reads a freed node.
pub unsubscribe-bad_sid :
    (fuel : ℕ) (u : Stack) (service : Service) (x : Entry) (xs : List Entry) (sid body : Bytes)
    (rounds walk now : ℕ)
    → Holds u.store (subscribers u.services service) (x ∷ xs)
    → (length sid ≡ 0) ⊎ (64 < length sid)
    → x.1.ref_count ≡ pos 1
    → (v : Stack) × (unsubscribe fuel u (some service) sid ≡ done (v, reply_ok))
      × ((subscribers v.services service).head ≡ some x.0)
      × (v.store x.0 ≡ none)
      × (send_event (suc rounds) walk now v body service ≡ freed)
unfolding unsubscribe give_up
unsubscribe-bad_sid fuel u service x xs sid body rounds walk now (h, t, d, (e, s)) bad k =
    let l = subscribers u.services service in
    let (st', r, gone) = release_last u.store x.0 e k in
    let e1 = bad_removal fuel u.store l sid (is_bad_sid_lem sid bad) in
    let eh = ap (λ (w : Subscribers). w.head) (subscribers_with u.services service l) ∙ h in
    (
      with_list u service st' l,
      rw e1 (ap (give_up (with_list u service u.store l)) h ∙ rw r refl),
      eh,
      gone,
      send_event_gone rounds walk now (with_list u service st' l) body service x.0 eh gone,
    )
