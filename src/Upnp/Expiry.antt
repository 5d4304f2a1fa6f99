-- ===== src/Upnp/Expiry.antt =====
-- UpnpMicroStack.c: `UpnpExpireSubscriberInfo` and `UpnpSubscriptionExpired`, on the lists of both
-- services. The walk to the first node of a list has its rounds as fuel.
pub mod Spin
use tv_now.Common.{ℕ, zero, suc, Bool, true, false, Option, none, some, ◌==◌, ltb, if◌then◌else◌}
use tv_now.Upnp.Subscribers.{
  SubscriberInfo, Subscribers, Store, Outcome, done, spent, ◌>>=◌, load, update_node, set_next,
  set_previous, decrement, release,
}

-- The lists of `struct UpnpDataObject`.
pub record Services : Type 0 where
  pub connection_manager : Subscribers
  pub content_directory : Subscribers

-- `while(t->Previous!=NULL) {t = t->Previous;}`.
unfoldable pub first_loop : ℕ → Store → ℕ → Outcome ℕ
unfolding load
first_loop zero st t = spent
first_loop (suc fuel) st t =
    load st t >>= λ n. elim n.previous [ none ↦ done t | some p ↦ first_loop fuel st p ]

-- `pointer == t`.
unfoldable pub points : Option ℕ → ℕ → Bool
points none t = false
points (some a) t = a == t

abbrev pub counted_down : Subscribers → Subscribers
counted_down l = record l { total = decrement l.total }

-- The list whose head is the first node has one entry less.
unfoldable pub count_down : Services → ℕ → Services
unfolding points decrement
count_down d t =
    if points d.connection_manager.head t
    then record d { connection_manager = counted_down d.connection_manager }
    else if points d.content_directory.head t
    then record d { content_directory = counted_down d.content_directory }
    else d

-- `if(p!=NULL) {p->Previous = q;}`.
unfoldable pub link_previous : Store → Option ℕ → Option ℕ → Outcome Store
unfolding update_node
link_previous st none q = done st
link_previous st (some p) q = update_node st p (set_previous q)

abbrev pub released : Services → ℕ → Store → Outcome (Store × Services)
released d a st = release st a >>= λ st'. done (st', d)

-- The removal of a node that is not the first, and of one that is: what is behind it becomes the
-- head, and its link to the node before is set to that head.
unfoldable pub unlink :
    Store → Services → ℕ → SubscriberInfo → Option ℕ → Outcome (Store × Services)
unfolding update_node link_previous points release
unlink st d a n (some p) =
    update_node st p (set_next n.next) >>= λ st1. link_previous st1 n.next (some p) >>= released d a
unlink st d a n none =
    let cm = record d.connection_manager { head = n.next } in
    let cd = record d.content_directory { head = n.next } in
    if points d.connection_manager.head a
    then link_previous st n.next n.next >>= released (record d { connection_manager = cm }) a
    else if points d.content_directory.head a
    then link_previous st n.next n.next >>= released (record d { content_directory = cd }) a
    else done (st, d)

-- `UpnpExpireSubscriberInfo`.
unfoldable pub expire_subscriber_info : ℕ → Store → Services → ℕ → Outcome (Store × Services)
unfolding first_loop count_down load unlink
expire_subscriber_info fuel st d a =
    first_loop fuel st a >>= λ t. load st a >>= λ n. unlink st (count_down d t) a n n.previous

-- `UpnpSubscriptionExpired`.
unfoldable pub is_expired : ℕ → SubscriberInfo → Bool
is_expired now n = ltb n.subscription.renew_by now
