-- ===== src/Upnp/Subscribe.antt =====
-- UpnpMicroStack.c: SUBSCRIBE and UNSUBSCRIBE requests, `UpnpTryToSubscribe`, `UpnpSubscribeEvents`,
-- `UpnpRenewEvents`, `UpnpProcessSUBSCRIBE` and `UpnpProcessUNSUBSCRIBE`. The reply is the text that goes
-- to the session. The C library's `inet_addr`, the address of a new node and the byte that an
-- unwritten place of a buffer holds are parameters; header data have no NUL.
pub mod Requests
pub mod Cancel
use tv_now.Common.{
  ℕ, zero, suc, ◌+◌, ◌-◌, Bool, true, ◌&&◌, Option, none, some, List, [], ◌∷◌, ◌++◌, Bytes, codes,
  ◌==◌, ltb, if◌then◌else◌, length, drop, equal,
}
use tv_now.Common.Int.{ℤ, pos, negsuc}
use tv_now.MyString.Libc.{strncasecmp_eq, to_int, negated}
use tv_now.Parsers.Split.{text, parse_string}
use tv_now.Parsers.Packets.{HeaderField, decimal_onto, decimal}
use tv_now.Parsers.Numbers.{get_long}
use tv_now.Upnp.Subscribers.{
  Subscription, SubscriberInfo, Subscribers, Store, Outcome, done, freed, spent, ◌>>=◌, write, load,
  update_node, set_previous, remove_subscriber_info, destruct, release,
}
use tv_now.Upnp.Callback.{Callback, refused, crashed, freed_twice, target, callback_target}
use tv_now.Upnp.Expiry.{Services, is_expired}
use tv_now.Upnp.Eventing.{
  Stack, Service, connection_manager, content_directory, subscribers, increment, send_event_body,
}

-- The data of the last header field with the name.
unfoldable pub header_data : Bytes → List HeaderField → Option Bytes
unfolding strncasecmp_eq
header_data name [] = none
header_data name (f ∷ fs) =
    let this : Option Bytes =
      if length f.field == length name && strncasecmp_eq (length name) f.field name
      then some f.field_data
      else none in
    elim (header_data name fs) [ none ↦ this | some later ↦ some later ]

-- `DirectiveObjLength==24 && memcmp(DirectiveObj+1,"ConnectionManager/event",23)==0`, and the same for the
-- other service.
unfoldable pub event_service : Bytes → Option Service
unfolding equal
event_service obj =
    if length obj == 24 && equal (drop 1 obj) (codes "ConnectionManager/event")
    then some connection_manager
    else if length obj == 23 && equal (drop 1 obj) (codes "ContentDirectory/event")
    then some content_directory
    else none

abbrev pub set_subscribers : Services → Service → Subscribers → Services
set_subscribers d connection_manager l = record d { connection_manager = l }
set_subscribers d content_directory l = record d { content_directory = l }

abbrev pub with_list : Stack → Service → Store → Subscribers → Stack
with_list u service st l = record u { store = st; services = set_subscribers u.services service l }

abbrev pub no_content : Bytes
no_content = codes "\r\nContent-Length: 0\r\n\r\n"

abbrev pub reply_ok : Bytes
reply_ok = codes "HTTP/1.1 200 OK" ++ no_content

abbrev pub reply_invalid_sid : Bytes
reply_invalid_sid = codes "HTTP/1.1 412 Invalid SID" ++ no_content

abbrev pub reply_failed : Bytes
reply_failed = codes "HTTP/1.1 412 Precondition Failed" ++ no_content

abbrev pub reply_too_many : Bytes
reply_too_many = codes "HTTP/1.1 412 Too Many Subscribers" ++ no_content

abbrev pub reply_no_service : Bytes
reply_no_service = codes "HTTP/1.1 412 Invalid Service Name" ++ no_content

-- The release of the node that was taken out, and the reply.
unfoldable pub give_up : Stack → Option ℕ → Outcome (Stack × Bytes)
give_up u none = done (u, reply_invalid_sid)
give_up u (some a) = release u.store a >>= λ st. done (record u { store = st }, reply_ok)

-- `UpnpProcessUNSUBSCRIBE` from the lock on, for a SID.
unfoldable pub unsubscribe : ℕ → Stack → Option Service → Bytes → Outcome (Stack × Bytes)
unsubscribe fuel u none sid = give_up u none
unsubscribe fuel u (some service) sid =
    remove_subscriber_info fuel u.store (subscribers u.services service) sid >>= λ x.
    give_up (with_list u service x.0.0 x.0.1) x.1

-- `UpnpProcessUNSUBSCRIBE`, for the directive's object and the header fields.
unfoldable pub process_unsubscribe : ℕ → Stack → Bytes → List HeaderField → Outcome (Stack × Bytes)
unfolding header_data event_service unsubscribe
process_unsubscribe fuel u obj fields = elim (header_data (codes "SID") fields) [
  | none ↦ done (u, reply_invalid_sid)
  | some sid ↦ unsubscribe fuel u (event_service obj) sid
]

-- The loop of `UpnpTryToSubscribe` that drops the subscriptions that have expired. To destruct NULL
-- is an access to no node.
unfoldable pub drop_loop : ℕ → ℕ → Store → Subscribers → Option ℕ → Outcome (Store × Subscribers)
unfolding load is_expired remove_subscriber_info destruct
drop_loop zero now st l info = spent
drop_loop (suc fuel) now st l none = done (st, l)
drop_loop (suc fuel) now st l (some a) = load st a >>= λ n.
    let dropped = remove_subscriber_info (suc fuel) st l n.subscription.sid >>= λ x.
    (elim x.1 [ none ↦ freed | some b ↦ destruct x.0.0 b ]) >>= λ st'.
    drop_loop fuel now st' x.0.1 n.next in
    let kept = drop_loop fuel now st l n.next in if is_expired now n then dropped else kept

-- `tv_sec + t` of a time and a `long`.
abbrev pub later_by : ℕ → ℤ → ℕ
later_by now (pos n) = now + n
later_by now (negsuc n) = now - (n + 1)

-- `(int)` of a `long`.
abbrev pub long_to_int : ℤ → ℤ
long_to_int (pos n) = to_int n
long_to_int (negsuc n) = negated (n + 1)

-- `sprintf("%ld")`.
abbrev pub decimal_long : ℤ → Bytes
decimal_long (pos n) = decimal_onto 19 n []
decimal_long (negsuc n) = b'-' ∷ decimal_onto 19 (n + 1) []

abbrev pub reply_subscribed : Bytes → ℤ → Bytes
reply_subscribed sid timeout =
    codes "HTTP/1.1 200 OK\r\nSERVER: POSIX, UPnP/1.0, NDi TV-Now/0.0.3\r\nSID: "
    ++ (sid ++ (codes "\r\nTIMEOUT: Second-" ++ (decimal_long timeout ++ no_content)))

-- `UpnpGetInitialEventBody_ConnectionManager` and `UpnpGetInitialEventBody_ContentDirectory`.
unfoldable pub initial_event_body : Stack → Service → Bytes
initial_event_body u connection_manager =
    codes "SourceProtocolInfo>"
    ++ (u.source_protocol_info
        ++ (codes "</SourceProtocolInfo></e:property><e:property><SinkProtocolInfo>"
            ++ (u.sink_protocol_info
                ++ (codes "</SinkProtocolInfo></e:property><e:property><CurrentConnectionIDs>"
                    ++ (u.current_connection_ids ++ codes "</CurrentConnectionIDs")))))
initial_event_body u content_directory =
    codes "SystemUpdateID>" ++ (u.system_update_id ++ codes "</SystemUpdateID")

-- The new node is put in front of the list.
unfoldable pub link_first : Store → Subscribers → ℕ → Subscription → Outcome (Store × Subscribers)
unfolding write update_node increment
link_first st l new s =
    let st1 = write st new (record { subscription = s; next = l.head; previous = none }) in
    (elim l.head [ none ↦ done st1 | some h ↦ update_node st1 h (set_previous (some new)) ])
    >>= λ st2. done (st2, record { head = some new; total = increment l.total })

-- The subscription, its reply and its first event.
unfoldable pub accept : Stack → Service → ℕ → ℕ → ℤ → ℕ → ℕ → Bytes → Outcome (Stack × Bytes)
accept u service new now timeout address port path =
    let sid = codes "uuid:" ++ decimal (pos u.sid) in
    let s : Subscription = record {
      sid = sid;
      seq = 0;
      address = address;
      port = port;
      path = path;
      ref_count = pos 1;
      renew_by = later_by now (long_to_int timeout);
    } in
    link_first u.store (subscribers u.services service) new s >>= λ x.
    let v = with_list u service x.0 x.1 in
    send_event_body v (initial_event_body v service) new >>= λ w.
    done (w, reply_subscribed sid timeout)

-- What a callback URL comes to. Releasing twice and copying behind the end are faults.
unfoldable pub subscribe_to : Stack → Service → ℕ → ℕ → ℤ → Callback → Outcome (Stack × Bytes)
subscribe_to u service new now timeout refused = done (u, reply_failed)
subscribe_to u service new now timeout crashed = freed
subscribe_to u service new now timeout freed_twice = freed
subscribe_to u service new now timeout (target address port path) =
    accept u service new now timeout address port path

-- `*TotalSubscribers < 10`.
abbrev pub has_room : ℤ → Bool
has_room (pos n) = ltb n 10
has_room (negsuc n) = true

-- `UpnpTryToSubscribe`, for what its URL comes to.
unfoldable pub try_to_subscribe :
    ℕ → Stack → Service → ℕ → ℕ → ℤ → Callback → Outcome (Stack × Bytes)
try_to_subscribe fuel u service new now timeout callback =
    let l = subscribers u.services service in
    drop_loop fuel now u.store l l.head >>= λ x.
    let v = with_list u service x.0 x.1 in
    if has_room x.1.total
    then subscribe_to (record v { sid = v.sid + 1 }) service new now timeout callback
    else done (v, reply_too_many)

-- `if(TimeoutVal>7200) {TimeoutVal=7200;}`.
abbrev pub at_most_7200 : ℤ → ℤ
at_most_7200 (pos n) = if ltb 7200 n then pos 7200 else pos n
at_most_7200 (negsuc n) = negsuc n

-- `UpnpSubscribeEvents`.
unfoldable pub subscribe_events : ℕ → Stack → Bytes → ℕ → ℕ → ℤ → Callback → Outcome (Stack × Bytes)
unfolding event_service try_to_subscribe
subscribe_events fuel u obj new now timeout callback = elim (event_service obj) [
  | none ↦ done (u, reply_no_service)
  | some service ↦ try_to_subscribe fuel u service new now (at_most_7200 timeout) callback
]

-- `while(info!=NULL && strcmp(info->SID,SID)!=0) {info = info->Next;}`, the node that is found, and its reply.
unfoldable pub renew_loop : ℕ → Stack → Option ℕ → Bytes → ℕ → ℤ → Outcome (Stack × Bytes)
unfolding load update_node equal decimal_onto
renew_loop zero u info sid now timeout = spent
renew_loop (suc fuel) u none sid now timeout = done (u, reply_failed)
renew_loop (suc fuel) u (some a) sid now timeout = load u.store a >>= λ n.
    let other = renew_loop fuel u n.next sid now timeout in
    let renewed = λ (m : SubscriberInfo). record m {
      subscription = record m.subscription { renew_by = later_by now timeout };
    } in
    let this = update_node u.store a renewed >>= λ st.
    done (record u { store = st }, reply_subscribed sid timeout) in
    if equal n.subscription.sid sid then this else other

-- `UpnpRenewEvents`.
unfoldable pub renew_events : ℕ → Stack → Bytes → Bytes → ℕ → ℤ → Outcome (Stack × Bytes)
unfolding event_service renew_loop
renew_events fuel u obj sid now timeout =
    let head : Option ℕ = elim (event_service obj) [
      | none ↦ none
      | some service ↦ (subscribers u.services service).head
    ] in
    renew_loop fuel u head sid now timeout

-- The time of the `Timeout` field: what stands behind the only `-`, or else two hours.
unfoldable pub timeout_text : Option Bytes → Bytes
unfolding parse_string strncasecmp_eq
timeout_text none = codes "7200"
timeout_text (some t) = elim (parse_string t 0 (length t) (b'-' ∷ [])) [
  | (f ∷ g ∷ []) ↦
      if g.datalength == 8 && strncasecmp_eq 8 (text g) (codes "INFINITE")
      then codes "7200"
      else text g
  | _ ↦ codes "7200"
]

abbrev pub no_url : Option Bytes → Bytes
no_url none = []
no_url (some url) = url

-- `UpnpProcessSUBSCRIBE`: a subscription, or with a SID its renewal. The flag is whether `errno` is ERANGE.
unfoldable pub process_subscribe :
    (Bytes → Option ℕ)
    → ℕ
    → Bool
    → ℕ
    → Stack
    → ℕ
    → ℕ
    → Bytes
    → List HeaderField
    → Outcome (Stack × Bytes)
unfolding header_data timeout_text get_long callback_target subscribe_events renew_events
process_subscribe inet_addr stale erange fuel u new now obj fields =
    let n = get_long erange (timeout_text (header_data (codes "Timeout") fields)) in
    let url = no_url (header_data (codes "Callback") fields) in
    elim (header_data (codes "SID") fields) [
      | none ↦
          subscribe_events fuel u obj new now n.value (callback_target inet_addr n.erange stale url)
      | some sid ↦ renew_events fuel u obj sid now n.value
    ]
