-- ===== src/Upnp/Tests.antt =====
-- The UPnP stack on concrete inputs: two subscribers of ContentDirectory, and none of ConnectionManager.
use tv_now.Common.{
  ◌++◌, ◌+◌, ◌≤◌, ◌⊎◌, All, map, length, ℕ, false, ◌≡◌, refl, [], ◌∷◌, none, some, inl, codes,
  arith,
}
use tv_now.Common.Int.{pos}
use tv_now.Parsers.Packets.{decimal, decimal_onto}
use tv_now.Upnp.Subscribers.{Subscription, Store, write, done, spent, freed}
use tv_now.Upnp.Subscribers.Chain.{Entry, node, Holds}
use tv_now.Upnp.Subscribers.Removal.{Found, Others}
use tv_now.Upnp.Subscribers.Relink.{Frame}
use tv_now.Upnp.Expiry.{Services, points, expire_subscriber_info}
use tv_now.Upnp.Expiry.Spin.{expire_subscriber_info-spinning}
use tv_now.Upnp.Callback.{target, callback_target, freed_twice}
use tv_now.Upnp.Eventing.{envelope, Stack, content_directory, send_event, notify_packet}
use tv_now.Upnp.Eventing.Delivery.{notified, message, SameElse, send_event-Told}
use tv_now.Upnp.Eventing.Message.{notify_head, notify_packet-content_length}
use tv_now.Upnp.Subscribe.{
  unsubscribe, try_to_subscribe, reply_ok, reply_subscribed, reply_invalid_sid,
}
use tv_now.Upnp.Subscribe.Requests.{Subscribed, subscription_of, try_to_subscribe-Subscribed}
use tv_now.Upnp.Subscribe.Cancel.{Unsubscribed, unsubscribe-Holds, unsubscribe-bad_sid}

abbrev subscription : ℕ → Subscription
subscription n = record {
  sid = codes "uuid:" ++ n ∷ [];
  seq = 3;
  address = 16885952;
  port = 8080;
  path = codes "/event";
  ref_count = pos 1;
  renew_by = 2000;
}

abbrev first : Entry
first = (1, subscription b'5')

abbrev second : Entry
second = (2, subscription b'4')

abbrev nodes : Store
nodes = write (write (λ _. none) 1 (node first.1 (some 2) none)) 2 (node second.1 none (some 1))

abbrev services : Services
services = record {
  connection_manager = record { head = none; total = pos 0 };
  content_directory = record { head = some 1; total = pos 2 };
}

abbrev stack : Stack
stack = record {
  store = nodes;
  services = services;
  sid = 5;
  requests = [];
  source_protocol_info = codes "http-get:*:*:*";
  sink_protocol_info = [];
  current_connection_ids = [];
  system_update_id = codes "0";
}

two_subscribers : Holds nodes services.content_directory (first ∷ second ∷ [])
unfolding write
two_subscribers = (refl, refl, (((λ e. absurd (omega arith)), tt), (tt, tt)), (refl, (refl, tt)))

expire_subscriber_info-spinning_example :
    (st' : Store) × (d' : Services) × (expire_subscriber_info 1 nodes services 1 ≡ done (st', d'))
    × (d'.content_directory.head ≡ some 2)
    × All (λ (w : Entry). (fuel : ℕ) → expire_subscriber_info fuel st' d' w.0 ≡ spent) (second ∷ [])
expire_subscriber_info-spinning_example =
    expire_subscriber_info-spinning nodes services first second [] 0 two_subscribers no_head
  where
    no_head : points none 1 ≡ false
    no_head = unfold points in refl

send_event-Told_example :
    (v : Stack) × (send_event 3 0 2000 stack
        (codes "SystemUpdateID>1</SystemUpdateID")
        content_directory
      ≡ done v)
    × Holds v.store v.services.content_directory (map notified (first ∷ second ∷ []))
    × Frame nodes v.store (first ∷ second ∷ [])
    × (v.requests
        ≡ [] ++ map (message (codes "SystemUpdateID>1</SystemUpdateID")) (first ∷ second ∷ []))
    × SameElse stack v
send_event-Told_example =
    send_event-Told 3 0 2000 stack (codes "SystemUpdateID>1</SystemUpdateID") content_directory
      (first ∷ second ∷ []) two_subscribers (omega arith) (omega arith)

notify_packet-content_length_example :
    (notify_packet first.1 (codes "A>1</A")
      ≡ notify_head first.1
        ++ (decimal (pos (length (envelope (codes "A>1</A"))))
            ++ (codes "\r\n\r\n" ++ envelope (codes "A>1</A"))))
    × (length (notify_packet first.1 (codes "A>1</A")) + 1 ≤ 395)
notify_packet-content_length_example =
    notify_packet-content_length first.1 (codes "A>1</A") (omega arith)

try_to_subscribe-Subscribed_example :
    (w : Stack) × (try_to_subscribe 3 stack content_directory 7 2000
        (pos 1800)
        (target 1 80 (codes "/"))
      ≡ done (w, reply_subscribed (codes "uuid:6") (pos 1800)))
    × Subscribed stack w content_directory 7
        (subscription_of stack 2000 (pos 1800) 1 80 (codes "/"))
        (first ∷ second ∷ [])
unfolding decimal_onto
try_to_subscribe-Subscribed_example =
    try_to_subscribe-Subscribed 3 stack content_directory 7 2000 (pos 1800) 1 80 (codes "/")
      (first ∷ second ∷ []) two_subscribers (omega arith) (omega arith) (omega arith) (omega arith)

unsubscribe-Holds_example :
    ((f : Found (codes "uuid:4") (first ∷ second ∷ [])) × (v : Stack) × (unsubscribe 3 stack
          (some content_directory)
          (codes "uuid:4")
        ≡ done (v, reply_ok))
      × Unsubscribed stack v content_directory f.0 f.1 f.2)
    ⊎ (Others (codes "uuid:4") (first ∷ second ∷ [])
        × (unsubscribe 3 stack (some content_directory) (codes "uuid:4")
            ≡ done (stack, reply_invalid_sid)))
unsubscribe-Holds_example =
    unsubscribe-Holds 3 stack content_directory (first ∷ second ∷ []) (codes "uuid:4")
      two_subscribers (omega arith) (omega arith) (omega arith) (omega arith)

unsubscribe-bad_sid_example :
    (v : Stack) × (unsubscribe 3 stack (some content_directory) [] ≡ done (v, reply_ok))
    × (v.services.content_directory.head ≡ some 1)
    × (v.store 1 ≡ none)
    × (send_event 5 5 2000 v (codes "A>1</A") content_directory ≡ freed)
unsubscribe-bad_sid_example =
    unsubscribe-bad_sid 3 stack content_directory first (second ∷ []) [] (codes "A>1</A") 4 5 2000
      two_subscribers (inl refl) refl

-- A callback without a valid address.
no_address : callback_target (λ t. none) false 0 (codes "<http://host/a>") ≡ freed_twice
unfolding callback_target
no_address = refl

-- A callback with an address, a port and a path.
with_port :
    callback_target (λ t. some 1) false 0 (codes "<http://1.0.0.0:8080/a>")
    ≡ target 1 8080 (codes "/a")
unfolding callback_target
with_port = refl

-- Without a port the last byte of the path is the one that the buffer held.
without_port :
    callback_target (λ t. some 1) false b'?' (codes "<http://1.0.0.0/abc>")
    ≡ target 1 80 (codes "/ab?")
unfolding callback_target
without_port = refl
