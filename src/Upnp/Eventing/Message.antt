-- ===== src/Upnp/Eventing/Message.antt =====
-- The event messages: their length header and the buffers that they are written to.
use tv_now.Common.{
  ℕ, ◌+◌, ◌/◌, ◌%◌, ◌≤◌, ◌≡◌, ap, ◌∷◌, ◌++◌, Bytes, codes, length, length-append, append_assoc,
  arith,
}
use tv_now.Common.Int.{pos}
use tv_now.Parsers.Packets.{decimal}
use tv_now.Upnp.Subscribers.{Subscription}
use tv_now.Parsers.Packets.Decimals.{decimal_size}
use tv_now.Upnp.Eventing.{dotted, envelope, notify_packet}

pub envelope_size : (body : Bytes) → length (envelope body) ≡ length body + 137
envelope_size body = omega (arith, length-append body (codes "></e:property></e:propertyset>"))

dotted_size : (a : ℕ) → length (dotted a) ≤ 43
dotted_size a =
    let d0 = decimal (pos (a % 256)) in
    let d1 = decimal (pos (a / 256 % 256)) in
    let d2 = decimal (pos (a / 65536 % 256)) in
    let d3 = decimal (pos (a / 16777216 % 256)) in
    omega (
      arith,
      length-append d0 (b'.' ∷ (d1 ++ (b'.' ∷ (d2 ++ (b'.' ∷ d3))))),
      length-append d1 (b'.' ∷ (d2 ++ (b'.' ∷ d3))),
      length-append d2 (b'.' ∷ d3),
      decimal_size (a % 256),
      decimal_size (a / 256 % 256),
      decimal_size (a / 65536 % 256),
      decimal_size (a / 16777216 % 256),
    )

-- Everything in front of the length of the body.
abbrev pub notify_head : Subscription → Bytes
notify_head s =
    codes "NOTIFY "
    ++ (s.path
        ++ (codes " HTTP/1.1\r\nHOST: "
            ++ (dotted s.address
                ++ (b':'
                    ∷ (decimal (pos s.port)
                        ++ (codes
                              "\r\nContent-Type: text/xml\r\nNT: upnp:event\r\nNTS: upnp:propchange\r\nSID: "
                            ++ (s.sid
                                ++ (codes "\r\nSEQ: "
                                    ++ (decimal (pos s.seq) ++ codes "\r\nContent-Length: ")))))))))

notify_packet-head :
    (s : Subscription) (body : Bytes)
    → notify_packet s body
      ≡ notify_head s
        ++ (decimal (pos (length (envelope body))) ++ (codes "\r\n\r\n" ++ envelope body))
unfolding notify_packet
notify_packet-head s body = simp (append_assoc, envelope_size body)

head_size : (s : Subscription) → length (notify_head s) ≤ length s.path + length s.sid + 185
head_size s =
    let last = decimal (pos s.seq) ++ codes "\r\nContent-Length: " in
    let seq = codes "\r\nSEQ: " ++ last in
    let types =
      codes "\r\nContent-Type: text/xml\r\nNT: upnp:event\r\nNTS: upnp:propchange\r\nSID: "
      ++ (s.sid ++ seq) in
    let port = decimal (pos s.port) ++ types in
    let host = codes " HTTP/1.1\r\nHOST: " ++ (dotted s.address ++ (b':' ∷ port)) in
    omega (
      arith,
      length-append s.path host,
      length-append (dotted s.address) (b':' ∷ port),
      dotted_size s.address,
      length-append (decimal (pos s.port)) types,
      decimal_size s.port,
      length-append s.sid seq,
      length-append (decimal (pos s.seq)) (codes "\r\nContent-Length: "),
      decimal_size s.seq,
    )

-- The event message that `UpnpSendEvent_Body` writes announces as `Content-Length` the exact
-- number of bytes behind its empty line, and with its closing NUL it fits the buffer, if
-- the SID has at most 34 bytes.
pub notify_packet-content_length :
    (s : Subscription) (body : Bytes)
    → length s.sid ≤ 34
    → (notify_packet s body
        ≡ notify_head s
          ++ (decimal (pos (length (envelope body))) ++ (codes "\r\n\r\n" ++ envelope body)))
      × (length (notify_packet s body) + 1 ≤ length s.path + length body + 383)
notify_packet-content_length s body h =
    let n = length (envelope body) in
    let end = codes "\r\n\r\n" ++ envelope body in
    let whole = ap length (notify_packet-head s body) in
    (
      notify_packet-head s body,
      omega (
        arith,
        whole,
        length-append (notify_head s) (decimal (pos n) ++ end),
        head_size s,
        length-append (decimal (pos n)) end,
        decimal_size n,
        envelope_size body,
      ),
    )
