-- ===== src/Web/Delivery.antt =====
-- A body from `ILibWebServer_StreamBody` over `ILibAsyncSocket_Send` and the write handling of
-- `ILibAsyncSocket_PostSelect` to `ILibWebClient_ProcessChunk`.
pub mod Tests
use tv_now.Common.{◌≤◌, Bool, true, false, List, [], ◌∷◌, ◌++◌, ◌≡◌, ◌≢◌, Bytes, if◌then◌else◌}
use tv_now.Common.Int.{pos}
use tv_now.Sockets.Output.{Socket, SendResult, finished, post_select_write}
use tv_now.Web.Chunks.Rounds.{chunk_text}
use tv_now.Web.Chunks.Decode.{FitsChunk}
use tv_now.Web.Server.{Header, Session, stream_body}

-- From a session on, the chunks that have been streamed, and whether the body is done: calls of
-- `stream_body` that do not return 2, and, at any time, write handlings in which no `send` fails.
pub data Streams (h : Header) (s : Session) : List Bytes → Bool → Session → Type 0 where
  begun : Streams h s [] false s
  bodies :
      {cs : List Bytes} {t : Session}
      → Streams h s cs false t
      → (c : Bytes) (r1 r2 r3 r4 : SendResult) → FitsChunk c
      → (stream_body h t c false r1 r2 r3 r4).1 ≢ pos 2
      → Streams h s (cs ++ (c ∷ [])) false (stream_body h t c false r1 r2 r3 r4).0
  ends :
      {cs : List Bytes} {t : Session}
      → Streams h s cs false t
      → (r1 r2 r3 r4 : SendResult) → (stream_body h t [] true r1 r2 r3 r4).1 ≢ pos 2
      → Streams h s cs true (stream_body h t [] true r1 r2 r3 r4).0
  writes :
      {cs : List Bytes} {done : Bool} {t : Session}
      → Streams h s cs done t
      → (w : Bool) (rs : List SendResult) (u : Socket)
      → post_select_write t.socket w rs ≡ finished u
      → Streams h s cs done (record t { socket = u })

chunks_text : List Bytes → Bytes
chunks_text [] = []
chunks_text (c ∷ cs) = chunk_text c ++ chunks_text cs
