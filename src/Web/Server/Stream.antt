-- ===== src/Web/Server/Stream.antt =====
-- What a session streams, and what the client's decoder reads of it.
use tv_now.Common.{
  ℕ, Bool, true, false, ◌&&◌, [], ◌++◌, none, ◌≡◌, ◌≢◌, refl, sym, ap, ◌∙◌, Bytes, ◌==◌, ltb,
  if◌then◌else◌, length, append_assoc, append-nil, Bool-cases, inl, inr, arith, choose,
}
use tv_now.Common.Int.{ℤ, pos, negsuc}
use tv_now.Sockets.Output.{SendResult, async_send, disconnect, clear_pending_send}
use tv_now.Sockets.Output.Stream.{queued, outgoing}
use tv_now.Sockets.Output.Sent.{async_send-sent}
use tv_now.Sockets.Output.Run.{async_send-Accepts}
use tv_now.Web.Chunks.Hex.{hex}
use tv_now.Web.Chunks.Rounds.{chunk_text, last_chunk}
use tv_now.Web.Server.{
  Header, Session, is_1_0, request_answered, is_persistent, send_raw, is_sent, goes_on, crlf,
  stream_chunk, stream_end, stream_body,
}

-- With nothing pending, the stream of the socket stays.
request_answered-outgoing :
    (h : Header) (s : Session)
    → s.socket.pending ≡ []
    → outgoing (request_answered h s).0.socket ≡ outgoing s.socket
unfolding request_answered disconnect clear_pending_send queued
request_answered-outgoing h s e =
    choose (λ (x : Session × ℤ). outgoing x.0.socket ≡ outgoing s.socket) s.method_called _ _
      (λ _. refl)
      (λ _.
        choose (λ (x : Session × ℤ). outgoing x.0.socket ≡ outgoing s.socket)
          (is_persistent h (record s { virtual_directory = none; method_called = true })) _ _
          (λ _. refl) (λ _. ap (λ ds. s.socket.wire ++ queued ds) (sym e)))

-- The stream grows by the bytes, unless the result is 2.
abbrev pub Sends : Session → Bytes → Session × ℤ → Type 0
Sends s b (t, k) = k ≢ pos 2 → outgoing t.socket ≡ outgoing s.socket ++ b

pub send_raw-Sends :
    (h : Header) (s : Session) (b : Bytes) (done : Bool) (r : SendResult)
    → Sends s b (send_raw h s b done r)
unfolding send_raw
send_raw-Sends h s b done r =
    let x = async_send s.socket b r in
    let grown : x.1 ≢ 2 → outgoing x.0 ≡ outgoing s.socket ++ b =
      λ nz. (async_send-Accepts s.socket b r nz).0 in
    choose (Sends s b) (x.1 == 0 && done) _ _
      (λ z _.
        let zero_sent : x.1 ≡ 0 = ground arith in
        request_answered-outgoing h (record s { answered = done; socket = x.0 })
          (async_send-sent s.socket b r zero_sent)
        ∙ grown (omega arith))
      (λ _ nz. grown (λ e. nz (ap pos e)))

abbrev size_of : ℤ → ℕ
size_of (pos n) = n
size_of (negsuc n) = n

pub is_sent-true : (k : ℤ) → is_sent k ≡ true → k ≢ pos 2
unfolding is_sent
is_sent-true (pos k) h e = let two : k ≡ 2 = ap size_of e in absurd (ground arith)
is_sent-true (negsuc k) h e = cc

pub is_sent-false : (k : ℤ) → is_sent k ≡ false → k ≡ pos 2
unfolding is_sent
is_sent-false (pos k) h = let two : k ≡ 2 = ground arith in ap pos two
is_sent-false (negsuc k) h = cc

pub Sends-trans :
    (s : Session) (b c : Bytes) (x y : Session × ℤ)
    → x.1 ≢ pos 2
    → Sends s b x
    → Sends x.0 c y
    → Sends s (b ++ c) y
Sends-trans s b c x y nz hx hy my =
    hy my ∙ (ap (λ t. t ++ c) (hx nz) ∙ append_assoc (outgoing s.socket) b c)

stream_chunk-Sends :
    (h : Header) (s : Session) (b : Bytes) (r1 r2 r3 : SendResult)
    → Sends s (chunk_text b) (stream_chunk h s b r1 r2 r3)
unfolding stream_chunk
stream_chunk-Sends h s b r1 r2 r3 =
    let size = hex (length b) ++ crlf in
    let x1 = send_raw h s size false r1 in
    let x2 = send_raw h x1.0 b false r2 in
    let x3 = send_raw h x2.0 crlf false r3 in
    let regroup : (size ++ b) ++ crlf ≡ chunk_text b =
      append_assoc size b crlf ∙ append_assoc (hex (length b)) crlf (b ++ crlf) in
    choose (Sends s (chunk_text b)) (is_sent x1.1) _ _
      (λ k1.
        choose (Sends s (chunk_text b)) (is_sent x2.1) _ _
          (λ k2 nz.
            Sends-trans s (size ++ b) crlf x2 x3 (is_sent-true x2.1 k2)
              (Sends-trans s size b x1 x2 (is_sent-true x1.1 k1) (send_raw-Sends h s size false r1)
                (send_raw-Sends h x1.0 b false r2))
              (send_raw-Sends h x2.0 crlf false r3) nz
            ∙ ap (λ t. outgoing s.socket ++ t) regroup)
          (λ _ nz. absurd (nz refl)))
      (λ _ nz. absurd (nz refl))

-- A result that is not the one of a disconnection.
abbrev pub IsOpenResult : Session × ℤ → Type 0
IsOpenResult x = goes_on x.1 ≡ is_sent x.1

pub send_raw-IsOpenResult :
    (h : Header) (s : Session) (b : Bytes) (r : SendResult) → IsOpenResult (send_raw h s b false r)
unfolding send_raw goes_on is_sent
send_raw-IsOpenResult h s b r =
    choose IsOpenResult ((async_send s.socket b r).1 == 0 && false) _ _ (λ z. absurd (ground arith))
      (λ _. refl)

stream_chunk-IsOpenResult :
    (h : Header) (s : Session) (b : Bytes) (r1 r2 r3 : SendResult)
    → IsOpenResult (stream_chunk h s b r1 r2 r3)
unfolding stream_chunk goes_on is_sent
stream_chunk-IsOpenResult h s b r1 r2 r3 =
    let x1 = send_raw h s (hex (length b) ++ crlf) false r1 in
    let x2 = send_raw h x1.0 b false r2 in
    choose IsOpenResult (is_sent x1.1) _ _
      (λ _.
        choose IsOpenResult (is_sent x2.1) _ _ (λ _. send_raw-IsOpenResult h x2.0 crlf r3)
          (λ _. refl))
      (λ _. refl)

-- What the end of a body adds.
abbrev pub ending : Bool → Bytes
ending true = last_chunk
ending false = []

stream_end-Sends :
    (h : Header) (s : Session) (b : Bytes) (x : Session × ℤ) (done : Bool) (r : SendResult)
    → IsOpenResult x
    → Sends s b x
    → Sends s (b ++ ending done) (stream_end h x done r)
unfolding stream_end
stream_end-Sends h s b x true r o hx =
    choose (Sends s (b ++ last_chunk)) (goes_on x.1) _ _
      (λ g.
        Sends-trans s b last_chunk x (send_raw h x.0 last_chunk true r)
          (is_sent-true x.1 (sym o ∙ g)) hx (send_raw-Sends h x.0 last_chunk true r))
      (λ g nz. absurd (nz (is_sent-false x.1 (sym o ∙ g))))
stream_end-Sends h s b x false r o hx =
    λ nz. hx nz ∙ ap (λ t. outgoing s.socket ++ t) (sym (append-nil b))

-- What the bytes of a call add.
abbrev pub cut : Bytes → Bytes
cut b = if ltb 0 (length b) then chunk_text b else []

-- Unless it returns 2, `ILibWebServer_StreamBody` of an answer that is not HTTP/1.0 adds to the stream of
-- the socket a chunk of its bytes, if there are any, and the last chunk, if the body is done.
pub stream_body-outgoing :
    (h : Header) (s : Session) (b : Bytes) (done : Bool) (r1 r2 r3 r4 : SendResult)
    → is_1_0 h ≡ false
    → (stream_body h s b done r1 r2 r3 r4).1 ≢ pos 2
    → outgoing (stream_body h s b done r1 r2 r3 r4).0.socket
      ≡ outgoing s.socket ++ (cut b ++ ending done)
unfolding stream_body goes_on is_sent
stream_body-outgoing h s b done r1 r2 r3 r4 v =
    let x = if ltb 0 (length b) then stream_chunk h s b r1 r2 r3 else (s, pos 0) in
    let open_result : IsOpenResult x =
      choose IsOpenResult (ltb 0 (length b)) _ _ (λ _. stream_chunk-IsOpenResult h s b r1 r2 r3)
        (λ _. refl) in
    let sent : Sends s (cut b) x = elim (Bool-cases (ltb 0 (length b))) [
      | inl some_bytes ↦ rw some_bytes (stream_chunk-Sends h s b r1 r2 r3)
      | inr empty ↦ rw empty (λ _. sym (append-nil (outgoing s.socket)))
    ] in
    choose (Sends s (cut b ++ ending done)) (is_1_0 h) _ _ (λ y. cc)
      (λ _. stream_end-Sends h s (cut b) x done r4 open_result sent)
