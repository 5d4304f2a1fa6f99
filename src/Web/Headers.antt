-- ===== src/Web/Headers.antt =====
-- libIWeb/ILibWebServer.c: `ILibWebServer_StreamHeader_Raw`, on the session of `Web.Server`. The header of the
-- request and the results of `send` are arguments.
use tv_now.Common.{
  ℕ, true, false, Option, none, some, [], ◌∷◌, ◌++◌, Bytes, codes, ◌≡◌, ◌∙◌, refl, sym,
  if◌then◌else◌, append-nil, choose,
}
use tv_now.Common.Int.{ℤ, pos}
use tv_now.Parsers.Packets.{decimal}
use tv_now.Sockets.Output.{SendResult}
use tv_now.Web.Server.{Header, Session, is_1_0, send_raw, goes_on, crlf}
use tv_now.Web.Server.Stream.{
  Sends, send_raw-Sends, Sends-trans, IsOpenResult, send_raw-IsOpenResult, is_sent-true,
  is_sent-false,
}

-- A call of `send`, if the last one has left the socket open.
unfoldable pub send_if_open : Header → Session × ℤ → Bytes → SendResult → Session × ℤ
send_if_open h (s, k) b r = if goes_on k then send_raw h s b false r else (s, k)

abbrev pub status_line : ℕ → Bytes → Bytes
status_line status text = codes "HTTP/1.1 " ++ (decimal (pos status) ++ (b' ' ∷ text))

abbrev pub transfer_encoding : Bytes
transfer_encoding = codes "\r\nTransfer-Encoding: chunked"

-- An answer in HTTP/1.0 closes the connection and is not chunked.
unfoldable pub send_encoding : Header → Session × ℤ → SendResult → Session × ℤ
send_encoding h (s, k) r =
    if is_1_0 h
    then (record s { close_override = true }, k)
    else send_raw h s transfer_encoding false r

unfoldable pub send_headers : Header → Session × ℤ → Option Bytes → SendResult → Session × ℤ
unfolding send_if_open
send_headers h x none r = x
send_headers h x (some b) r = send_if_open h x b r

-- `ILibWebServer_StreamHeader_Raw`.
unfoldable pub stream_header_raw :
    Header
    → Session
    → ℕ
    → Bytes
    → Option Bytes
    → SendResult
    → SendResult
    → SendResult
    → SendResult
    → Session × ℤ
unfolding send_if_open send_encoding send_headers
stream_header_raw h s status text headers r1 r2 r3 r4 =
    let x = send_raw h s (status_line status text) false r1 in
    if goes_on x.1
    then send_if_open h (send_headers h (send_encoding h x r2) headers r3) (crlf ++ crlf) r4
    else x

-- One more call of `send` behind others.
send_if_open-Sends :
    (h : Header) (s : Session) (b c : Bytes) (x : Session × ℤ) (r : SendResult)
    → IsOpenResult x
    → Sends s b x
    → IsOpenResult (send_if_open h x c r) × Sends s (b ++ c) (send_if_open h x c r)
unfolding send_if_open
send_if_open-Sends h s b c x r o hx = (
  choose IsOpenResult (goes_on x.1) _ _ (λ _. send_raw-IsOpenResult h x.0 c r) (λ _. o),
  choose (Sends s (b ++ c)) (goes_on x.1) _ _
      (λ g.
        Sends-trans s b c x (send_raw h x.0 c false r) (is_sent-true x.1 (sym o ∙ g)) hx
          (send_raw-Sends h x.0 c false r))
      (λ g nz. absurd (nz (is_sent-false x.1 (sym o ∙ g)))),
)

abbrev pub headers_text : Option Bytes → Bytes
headers_text none = []
headers_text (some b) = b

send_encoding_lem :
    (h : Header) (x : Session × ℤ) (r : SendResult)
    → is_1_0 h ≡ false
    → send_encoding h x r ≡ send_raw h x.0 transfer_encoding false r
unfolding send_encoding
send_encoding_lem h x r v = rw v refl

send_headers-Sends :
    (h : Header) (s : Session) (b : Bytes) (headers : Option Bytes) (x : Session × ℤ)
    (r : SendResult)
    → IsOpenResult x
    → Sends s b x
    → IsOpenResult (send_headers h x headers r)
      × Sends s (b ++ headers_text headers) (send_headers h x headers r)
unfolding send_headers
send_headers-Sends h s b none x r o hx = (o, rw (append-nil b) hx)
send_headers-Sends h s b (some c) x r o hx = send_if_open-Sends h s b c x r o hx

-- The header of a chunked answer.
abbrev pub header_text : ℕ → Bytes → Option Bytes → Bytes
header_text status text headers =
    ((status_line status text ++ transfer_encoding) ++ headers_text headers) ++ (crlf ++ crlf)

abbrev OpenSends : Session → Bytes → Session × ℤ → Type 0
OpenSends s b x = IsOpenResult x × Sends s b x

-- Unless it returns 2, `ILibWebServer_StreamHeader_Raw` of an answer that is not HTTP/1.0 adds to the stream of the
-- socket the status line, the field that announces chunks, the given fields and an empty line.
pub stream_header_raw-Sends :
    (h : Header) (s : Session) (status : ℕ) (text : Bytes) (headers : Option Bytes)
    (r1 r2 r3 r4 : SendResult)
    → is_1_0 h ≡ false
    → IsOpenResult (stream_header_raw h s status text headers r1 r2 r3 r4)
      × Sends s
          (header_text status text headers)
          (stream_header_raw h s status text headers r1 r2 r3 r4)
unfolding stream_header_raw
stream_header_raw-Sends h s status text headers r1 r2 r3 r4 v =
    let line = status_line status text in
    let x = send_raw h s line false r1 in
    let o = send_raw-IsOpenResult h s line r1 in
    let y = send_raw h x.0 transfer_encoding false r2 in
    choose (OpenSends s (header_text status text headers)) (goes_on x.1) _ _
      (λ g. rw (send_encoding_lem h x r2 v) (
        let hy =
          Sends-trans s line transfer_encoding x y (is_sent-true x.1 (sym o ∙ g))
            (send_raw-Sends h s line false r1) (send_raw-Sends h x.0 transfer_encoding false r2) in
        let (oz, hz) =
          send_headers-Sends h s (line ++ transfer_encoding) headers y r3
            (send_raw-IsOpenResult h x.0 transfer_encoding r2) hy in
        send_if_open-Sends h s ((line ++ transfer_encoding) ++ headers_text headers) (crlf ++ crlf)
          (send_headers h y headers r3) r4 oz hz))
      (λ g. (o, λ nz. absurd (nz (is_sent-false x.1 (sym o ∙ g)))))
