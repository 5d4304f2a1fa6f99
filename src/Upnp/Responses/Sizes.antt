-- ===== src/Upnp/Responses/Sizes.antt =====
-- The texts of the answers fit the buffers that are allocated for them.
use tv_now.Common.{ℕ, ◌+◌, ◌*◌, ◌≤◌, ◌≡◌, [], ◌∷◌, ◌++◌, Bytes, codes, length, length-append, arith}
use tv_now.Common.Int.{pos}
use tv_now.Parsers.Packets.{decimal}
use tv_now.Parsers.Packets.Decimals.{decimal_size, int_size}
use tv_now.Upnp.Responses.{
  escaped, tag, Written, Answer, browse, sort_capabilities, search_capabilities, system_update_id,
  connection_info, protocol_info, connection_ids, params, service_urn, method_name, envelope,
  error_body, error_head,
}

tag_size : (name t : Bytes) → length (tag name t) ≡ length name * 2 + 5 + length t
tag_size name t =
    let close = name ++ b'>' ∷ [] in
    omega (
      arith,
      length-append name (b'>' ∷ (t ++ (codes "</" ++ close))),
      length-append t (codes "</" ++ close),
      length-append name (b'>' ∷ []),
    )

abbrev pub Fits : Written → Type 0
Fits w = length w.text + 1 ≤ w.size

params-Fits : (a : Answer) → Fits (params a)
unfolding params
params-Fits (browse result n m u) =
    let a = tag (codes "Result") (escaped result) in
    let b = tag (codes "NumberReturned") (decimal (pos n)) in
    let c = tag (codes "TotalMatches") (decimal (pos m)) in
    let d = tag (codes "UpdateID") (decimal (pos u)) in
    omega (
      arith,
      length-append a (b ++ (c ++ d)),
      length-append b (c ++ d),
      length-append c d,
      tag_size (codes "Result") (escaped result),
      tag_size (codes "NumberReturned") (decimal (pos n)),
      tag_size (codes "TotalMatches") (decimal (pos m)),
      tag_size (codes "UpdateID") (decimal (pos u)),
      decimal_size n,
      decimal_size m,
      decimal_size u,
    )
params-Fits (sort_capabilities caps) = omega (arith, tag_size (codes "SortCaps") (escaped caps))
params-Fits (search_capabilities caps) = omega (arith, tag_size (codes "SearchCaps") (escaped caps))
params-Fits (system_update_id id) =
    omega (arith, tag_size (codes "Id") (decimal (pos id)), decimal_size id)
params-Fits (protocol_info source sink) = omega (
  arith,
  length-append (tag (codes "Source") (escaped source)) (tag (codes "Sink") (escaped sink)),
  tag_size (codes "Source") (escaped source),
  tag_size (codes "Sink") (escaped sink),
)
params-Fits (connection_ids ids) = omega (arith, tag_size (codes "ConnectionIDs") (escaped ids))
params-Fits (connection_info i) =
    let a = tag (codes "RcsID") (decimal i.rcs_id) in
    let b = tag (codes "AVTransportID") (decimal i.av_transport_id) in
    let c = tag (codes "ProtocolInfo") (escaped i.protocol_info) in
    let d = tag (codes "PeerConnectionManager") (escaped i.peer_connection_manager) in
    let e = tag (codes "PeerConnectionID") (decimal i.peer_connection_id) in
    let f = tag (codes "Direction") (escaped i.direction) in
    let g = tag (codes "Status") (escaped i.status) in
    omega (
      arith,
      length-append a (b ++ (c ++ (d ++ (e ++ (f ++ g))))),
      length-append b (c ++ (d ++ (e ++ (f ++ g)))),
      length-append c (d ++ (e ++ (f ++ g))),
      length-append d (e ++ (f ++ g)),
      length-append e (f ++ g),
      length-append f g,
      tag_size (codes "RcsID") (decimal i.rcs_id),
      tag_size (codes "AVTransportID") (decimal i.av_transport_id),
      tag_size (codes "ProtocolInfo") (escaped i.protocol_info),
      tag_size (codes "PeerConnectionManager") (escaped i.peer_connection_manager),
      tag_size (codes "PeerConnectionID") (decimal i.peer_connection_id),
      tag_size (codes "Direction") (escaped i.direction),
      tag_size (codes "Status") (escaped i.status),
      int_size i.rcs_id,
      int_size i.av_transport_id,
      int_size i.peer_connection_id,
    )

envelope-Fits : (service method arguments : Bytes) → Fits (envelope service method arguments)
envelope-Fits service method arguments =
    let end = codes "</u:" ++ (method ++ codes "Response></s:Body></s:Envelope>") in
    let inner = codes "\">" ++ (arguments ++ end) in
    omega (
      arith,
      length-append method (codes "Response xmlns:u=\"" ++ (service ++ inner)),
      length-append service inner,
      length-append arguments end,
      length-append method (codes "Response></s:Body></s:Envelope>"),
    )

error_body-Fits : (code : ℕ) (message : Bytes) → Fits (error_body (pos code) message)
error_body-Fits code message =
    let end = codes "</errorDescription></UPnPError></detail></s:Fault></s:Body></s:Envelope>" in
    omega (
      arith,
      length-append (decimal (pos code))
          (codes "</errorCode><errorDescription>" ++ (message ++ end)),
      length-append message end,
      decimal_size code,
    )

error_head-Fits : (body : Bytes) → Fits (error_head body)
error_head-Fits body = omega (
  arith,
  length-append (decimal (pos (length body))) (codes "\r\n\r\n"),
  decimal_size (length body),
)

-- What the functions `UpnpResponse_...` and `UpnpResponseGeneric` write for any action and its arguments fits, with the
-- closing NUL, the buffers that they allocate, and so do the body and the head that `UpnpResponse_Error` writes for
-- an error code that is not negative.
pub params-envelope-Fits :
    (a : Answer) (code : ℕ) (message : Bytes)
    → Fits (params a)
      × Fits (envelope (service_urn a) (method_name a) (params a).text)
      × Fits (error_body (pos code) message)
      × Fits (error_head (error_body (pos code) message).text)
params-envelope-Fits a code message = (
  params-Fits a,
  envelope-Fits (service_urn a) (method_name a) (params a).text,
  error_body-Fits code message,
  error_head-Fits (error_body (pos code) message).text,
)
