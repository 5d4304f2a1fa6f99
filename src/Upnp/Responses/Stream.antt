-- ===== src/Upnp/Responses/Stream.antt =====
-- What the answer to an action adds to the stream of the socket.
use tv_now.Common.{
  true, false, ◌++◌, some, Bytes, codes, ◌≡◌, ◌≢◌, ◌∙◌, sym, ap, ltb, lt→ltb, length, if_true,
  choose, arith,
}
use tv_now.Common.Int.{pos}
use tv_now.Sockets.Output.Stream.{outgoing}
use tv_now.Web.Server.{Header, Session, is_1_0, goes_on, stream_body}
use tv_now.Web.Server.Stream.{
  Sends, cut, ending, is_sent-true, is_sent-false, stream_body-outgoing, Sends-trans,
}
use tv_now.Web.Chunks.Rounds.{chunk_text, last_chunk}
use tv_now.Web.Headers.{stream_header_raw, header_text, stream_header_raw-Sends}
use tv_now.Upnp.Responses.{
  Answer, SendResults, params, service_urn, method_name, envelope, response_headers,
  response_generic, respond,
}

-- The whole answer: header, a chunk with the envelope, and the last chunk.
abbrev pub answer_text : Bytes → Bytes
answer_text body =
    header_text 200 (codes "OK") (some response_headers) ++ (chunk_text body ++ last_chunk)

cut_text : (b : Bytes) → ltb 0 (length b) ≡ true → cut b ≡ chunk_text b
cut_text b h = if_true (ltb 0 (length b)) _ _ h

-- Unless the result of its last call is 2, the function `UpnpResponse_...` of an action adds to the stream of the socket, on a request
-- that is not HTTP/1.0, its whole answer: the header, one chunk with the envelope, and the last chunk.
pub respond-outgoing :
    (h : Header) (s : Session) (a : Answer) (r : SendResults)
    → is_1_0 h ≡ false
    → (respond h s a r).1 ≢ pos 2
    → outgoing (respond h s a r).0.socket
      ≡ outgoing s.socket
        ++ answer_text (envelope (service_urn a) (method_name a) (params a).text).text
unfolding respond response_generic
respond-outgoing h s a r v =
    let body = (envelope (service_urn a) (method_name a) (params a).text).text in
    let head = header_text 200 (codes "OK") (some response_headers) in
    let x = stream_header_raw h s 200 (codes "OK") (some response_headers) r.h1 r.h2 r.h3 r.h4 in
    let (o, hx) =
      stream_header_raw-Sends h s 200 (codes "OK") (some response_headers) r.h1 r.h2 r.h3 r.h4 v in
    let y = stream_body h x.0 body true r.b1 r.b2 r.b3 r.b4 in
    let whole : cut body ++ ending true ≡ chunk_text body ++ last_chunk =
      ap (λ (t : Bytes). t ++ last_chunk) (cut_text body (lt→ltb 0 (length body) (omega arith))) in
    choose (Sends s (answer_text body)) (goes_on x.1) _ _
      (λ g nz.
        Sends-trans s head (cut body ++ ending true) x y (is_sent-true x.1 (sym o ∙ g)) hx
          (stream_body-outgoing h x.0 body true r.b1 r.b2 r.b3 r.b4 v) nz
        ∙ ap (λ (t : Bytes). outgoing s.socket ++ (head ++ t)) whole)
      (λ g nz. absurd (nz (is_sent-false x.1 (sym o ∙ g))))
