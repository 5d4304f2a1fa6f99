-- ===== src/Upnp/Eventing.antt =====
-- UpnpMicroStack.c: the event messages to subscribers, `UpnpSendEvent`, `UpnpSendEvent_Body`,
-- `UpnpSendEventSink` and the calls that change a state variable. The requests that go to
-- the web client are kept in `requests`, in order. The time of day is the same throughout a call.
pub mod Delivery
pub mod Message
use tv_now.Common.{
  ℕ, zero, suc, ◌+◌, ◌/◌, ◌%◌, Bool, true, false, not, ◌&&◌, Option, none, some, List, [], ◌∷◌,
  ◌++◌, Bytes, codes, length, if◌then◌else◌,
}
use tv_now.Common.Int.{ℤ, pos, negsuc, sub_ℕ}
use tv_now.Parsers.Packets.{decimal}
use tv_now.Parsers.XmlEscape.{xml_escape}
use tv_now.Upnp.Subscribers.{
  Subscription, SubscriberInfo, Subscribers, Store, Outcome, done, no_node, spent, ◌>>=◌, load,
  update_node, release, is_zero, decrement,
}
use tv_now.Upnp.Expiry.{Services, expire_subscriber_info, is_expired}

-- `struct SubscriberContainer`, with the request that it was made for.
pub record Request : Type 0 where
  pub subscriber : ℕ
  pub packet : Bytes
  pub disposing : Bool

-- Of `struct UpnpDataObject`, what events are about.
pub record Stack : Type 0 where
  pub store : Store
  pub services : Services
  pub sid : ℕ
  pub requests : List Request
  pub source_protocol_info : Bytes
  pub sink_protocol_info : Bytes
  pub current_connection_ids : Bytes
  pub system_update_id : Bytes

-- The body of an event message, around the bytes that tell the variables.
abbrev pub envelope : Bytes → Bytes
envelope body =
    codes
      "<?xml version=\"1.0\" encoding=\"utf-8\"?><e:propertyset xmlns:e=\"urn:schemas-upnp-org:event-1-0\"><e:property><"
    ++ (body ++ codes "></e:property></e:propertyset>")

-- `%d.%d.%d.%d` of the bytes of an address.
abbrev pub dotted : ℕ → Bytes
dotted a =
    decimal (pos (a % 256))
    ++ (b'.'
        ∷ (decimal (pos (a / 256 % 256))
            ++ (b'.'
                ∷ (decimal (pos (a / 65536 % 256))
                    ++ (b'.' ∷ decimal (pos (a / 16777216 % 256)))))))

-- `++` on an `int`.
unfoldable pub increment : ℤ → ℤ
increment (pos n) = pos (n + 1)
increment (negsuc n) = sub_ℕ 0 n

-- The event message for a subscription, as the format string of `UpnpSendEvent_Body` has it.
unfoldable pub notify_packet : Subscription → Bytes → Bytes
notify_packet s body =
    codes "NOTIFY "
    ++ (s.path
        ++ (codes " HTTP/1.1\r\nHOST: "
            ++ (dotted s.address
                ++ (b':'
                    ∷ (decimal (pos s.port)
                        ++ (codes
                              "\r\nContent-Type: text/xml\r\nNT: upnp:event\r\nNTS: upnp:propchange\r\nSID: "
                            ++ (s.sid
                                ++ (codes "\r\nSEQ: "
                                    ++ (decimal (pos s.seq)
                                        ++ (codes "\r\nContent-Length: "
                                            ++ (decimal (pos (length body + 137))
                                                ++ (codes "\r\n\r\n" ++ envelope body))))))))))))

-- What a subscription becomes when an event is on its way.
abbrev pub sent : SubscriberInfo → SubscriberInfo
sent n = record n {
  subscription = record n.subscription {
    seq = n.subscription.seq + 1;
    ref_count = increment n.subscription.ref_count;
  };
}

-- `UpnpSendEvent_Body`.
unfoldable pub send_event_body : Stack → Bytes → ℕ → Outcome Stack
unfolding load update_node increment notify_packet
send_event_body u body a = load u.store a >>= λ n. update_node u.store a sent >>= λ st.
    done (record u {
      store = st;
      requests =
          u.requests
          ++ (record {
            subscriber = a;
            packet = notify_packet n.subscription body;
            disposing = false;
          })
            ∷ [];
    })

-- `UpnpExpireSubscriberInfo` on the stack.
unfoldable pub expire_on : ℕ → Stack → ℕ → Outcome Stack
unfolding expire_subscriber_info
expire_on fuel u a = expire_subscriber_info fuel u.store u.services a >>= λ x.
    done (record u { store = x.0; services = x.1 })

-- The loop of `UpnpSendEvent`; each round has the same fuel for the walk to the first node.
unfoldable pub send_loop : ℕ → ℕ → ℕ → Stack → Bytes → Option ℕ → Outcome Stack
unfolding load is_expired send_event_body expire_on
send_loop zero walk now u body info = spent
send_loop (suc fuel) walk now u body none = done u
send_loop (suc fuel) walk now u body (some a) = load u.store a >>= λ n.
    let keep = send_event_body u body a >>= λ v.
    (load v.store a >>= λ m. send_loop fuel walk now v body m.next) in
    let drop_it = expire_on walk u a >>= λ v. send_loop fuel walk now v body n.next in
    if is_expired now n then drop_it else keep

pub data Service : Type 0 where
  connection_manager content_directory : Service

abbrev pub subscribers : Services → Service → Subscribers
subscribers d connection_manager = d.connection_manager
subscribers d content_directory = d.content_directory

-- `UpnpSendEvent`, for the service that its event name begins with.
unfoldable pub send_event : ℕ → ℕ → ℕ → Stack → Bytes → Service → Outcome Stack
unfolding send_loop
send_event fuel walk now u body service =
    send_loop fuel walk now u body (subscribers u.services service).head

-- `UpnpSendEventSink`: the container that the request was made with, whether there is an answer,
-- and whether this is the last call. The node is released, and if others hold it and there is no
-- answer, the container is taken for the node.
unfoldable pub send_event_sink : Stack → Request → Bool → Bool → Outcome (Stack × Request)
send_event_sink u r answered last =
    let a = r.subscriber in
    let r' = record r { disposing = true } in
    let ended = load u.store a >>= λ n.
    (release u.store a >>= λ st.
    (if is_zero (decrement n.subscription.ref_count)
      then done (record u { store = st }, r')
      else if not answered
      then no_node
      else done (record u { store = st }, r'))) in
    if last && not r.disposing then ended else done (u, r)

-- `%s>%s</%s` of a variable.
abbrev pub changed : Bytes → Bytes → Bytes
changed name value = name ++ (b'>' ∷ (value ++ (codes "</" ++ name)))

-- `UpnpSetState_ContentDirectory_SystemUpdateID`.
unfoldable pub set_system_update_id : ℕ → ℕ → ℕ → Stack → ℕ → Outcome Stack
unfolding send_event
set_system_update_id fuel walk now u value =
    let text = decimal (pos value) in
    send_event fuel walk now (record u { system_update_id = text })
      (changed (codes "SystemUpdateID") text) content_directory

-- `UpnpSetState_ConnectionManager_SourceProtocolInfo`.
unfoldable pub set_source_protocol_info : ℕ → ℕ → ℕ → Stack → Bytes → Outcome Stack
unfolding send_event xml_escape
set_source_protocol_info fuel walk now u value =
    let text = (xml_escape value).0 in
    send_event fuel walk now (record u { source_protocol_info = text })
      (changed (codes "SourceProtocolInfo") text) connection_manager

-- `UpnpSetState_ConnectionManager_SinkProtocolInfo`.
unfoldable pub set_sink_protocol_info : ℕ → ℕ → ℕ → Stack → Bytes → Outcome Stack
unfolding send_event xml_escape
set_sink_protocol_info fuel walk now u value =
    let text = (xml_escape value).0 in
    send_event fuel walk now (record u { sink_protocol_info = text })
      (changed (codes "SinkProtocolInfo") text) connection_manager

-- `UpnpSetState_ConnectionManager_CurrentConnectionIDs`.
unfoldable pub set_current_connection_ids : ℕ → ℕ → ℕ → Stack → Bytes → Outcome Stack
unfolding send_event xml_escape
set_current_connection_ids fuel walk now u value =
    let text = (xml_escape value).0 in
    send_event fuel walk now (record u { current_connection_ids = text })
      (changed (codes "CurrentConnectionIDs") text) connection_manager
