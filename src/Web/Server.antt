-- ===== src/Web/Server.antt =====
-- libIWeb/ILibWebServer.c: what a session sends, by `ILibWebServer_Send_Raw`
-- and `ILibWebServer_StreamBody`, and `ILibWebServer_RequestAnswered`, on the socket of
-- `Sockets.Output`. The header of the request, which the source reads from the session's data
-- object, is an argument. The timer, and the calls that let the data object go on with
-- the next request, are only recorded.
pub mod Stream
pub mod Answer
pub mod Tests
use tv_now.Common.{
  ℕ, ◌+◌, Bool, true, false, not, ◌&&◌, List, [], ◌∷◌, ◌++◌, Option, none, some, Bytes, codes, ◌==◌,
  ltb, if◌then◌else◌, length, equal,
}
use tv_now.Common.Int.{ℤ, pos, negsuc}
use tv_now.MyString.Libc.{strncasecmp_eq}
use tv_now.Parsers.Packets.{HeaderField}
use tv_now.Sockets.Output.{Socket, SendResult, async_send, disconnect}
use tv_now.Web.Chunks.Hex.{hex}

-- Of `struct packetheader`, the version and the fields.
pub record Header : Type 0 where
  pub version : Bytes
  pub fields : List HeaderField

pub data SessionEvent : Type 0 where
  idle_timer finished_response resumed : SessionEvent

-- `struct ILibWebServer_Session`: `answered` is Reserved4, `method_called` Reserved8, `close_override`
-- Reserved6 and `virtual_directory` Reserved7.
pub record Session : Type 0 where
  pub socket : Socket
  pub answered : Bool
  pub method_called : Bool
  pub close_override : Bool
  pub virtual_directory : Option ℕ
  pub events : List SessionEvent

-- `hdr->VersionLength==3 && memcmp(hdr->Version,"1.0",3)==0`.
unfoldable pub is_1_0 : Header → Bool
unfolding equal
is_1_0 h = equal h.version (codes "1.0")

-- The search for a token among the fields, as it is written: a field of 9 bytes, of which those of
-- "CONNECTION" are compared.
unfoldable pub has_token : Bytes → List HeaderField → Bool
unfolding strncasecmp_eq
has_token token [] = false
has_token token (f ∷ fs) =
    let later = has_token token fs in
    if length f.field == 9 && strncasecmp_eq 9 f.field (codes "CONNECTION")
    then (if length f.field_data == length token && strncasecmp_eq (length token) f.field_data token
        then true
        else later)
    else later

-- `PersistentConnection`.
unfoldable pub is_persistent : Header → Session → Bool
unfolding is_1_0 has_token
is_persistent h s =
    if s.close_override
    then false
    else if is_1_0 h
    then has_token (codes "KEEP-ALIVE") h.fields
    else not (has_token (codes "CLOSE") h.fields)

-- `ILibWebServer_RequestAnswered`; -2 is `ILibWebServer_SEND_RESULTED_IN_DISCONNECT`.
unfoldable pub request_answered : Header → Session → Session × ℤ
unfolding is_persistent disconnect
request_answered h s =
    let t = record s { virtual_directory = none } in
    let u = record t { method_called = true } in
    if s.method_called
    then (t, pos 0)
    else if is_persistent h u
    then (record u { events = u.events ++ idle_timer ∷ finished_response ∷ resumed ∷ [] }, pos 0)
    else (record u { socket = disconnect u.socket }, negsuc 1)

-- `ILibWebServer_Send_Raw`; 2 is `ILibAsyncSocket_SEND_ON_CLOSED_SOCKET_ERROR`.
unfoldable pub send_raw : Header → Session → Bytes → Bool → SendResult → Session × ℤ
unfolding async_send request_answered
send_raw h s buffer done r =
    let (socket', k) = async_send s.socket buffer r in
    let t = record s { answered = done; socket = socket' } in
    if k == 0 && done then request_answered h t else (t, pos k)

-- `RetVal != ILibAsyncSocket_SEND_ON_CLOSED_SOCKET_ERROR`, and also `!= ..._IN_DISCONNECT`.
unfoldable pub is_sent : ℤ → Bool
is_sent (pos k) = not (k == 2)
is_sent (negsuc k) = true

unfoldable pub goes_on : ℤ → Bool
goes_on (pos k) = not (k == 2)
goes_on (negsuc k) = not (k == 1)

abbrev pub crlf : Bytes
crlf = b'\r' ∷ b'\n' ∷ []

-- A chunk, of the three calls of `send` with their results.
unfoldable pub stream_chunk :
    Header → Session → Bytes → SendResult → SendResult → SendResult → Session × ℤ
unfolding send_raw is_sent
stream_chunk h s buffer r1 r2 r3 =
    let (s1, k1) = send_raw h s (hex (length buffer) ++ crlf) false r1 in
    let (s2, k2) = send_raw h s1 buffer false r2 in
    let third = send_raw h s2 crlf false r3 in
    if is_sent k1 then (if is_sent k2 then third else (s2, pos 2)) else (s1, pos 2)

-- The end of a body, if it is done and the last result admits it.
unfoldable pub stream_end : Header → Session × ℤ → Bool → SendResult → Session × ℤ
unfolding send_raw goes_on
stream_end h (s, k) done r =
    if done && goes_on k then send_raw h s (codes "0\r\n\r\n") true r else (s, k)

-- `ILibWebServer_StreamBody`.
unfoldable pub stream_body :
    Header
    → Session
    → Bytes
    → Bool
    → SendResult
    → SendResult
    → SendResult
    → SendResult
    → Session × ℤ
unfolding is_1_0 stream_chunk stream_end send_raw request_answered
stream_body h s buffer done r1 r2 r3 r4 =
    if is_1_0 h
    then (if ltb 0 (length buffer)
        then send_raw h s buffer done r1
        else if done
        then request_answered h s
        else (s, pos 0))
    else stream_end h
        (if ltb 0 (length buffer) then stream_chunk h s buffer r1 r2 r3 else (s, pos 0)) done r4
