-- ===== src/Sockets/Output.antt =====
-- libIWeb/ILibAsyncSocket.c: what a socket sends, by `ILibAsyncSocket_Send`,
-- `ILibAsyncSocket_ClearPendingSend`, `ILibAsyncSocket_Disconnect` and the write handling of
-- `ILibAsyncSocket_PostSelect`. The operating system's `send` is an input: how many bytes it is
-- ready to take, or that it would block, or that it fails. The bytes that it has taken are kept in
-- `wire`, which the program does not have. A buffer of the user's is copied when it is kept, so
-- that its bytes are those of the call.
pub mod Stream
pub mod Sent
pub mod Run
pub mod Progress
pub mod Tests
use Prim.Native.Nat.{min}
use tv_now.Common.{
  ℕ, ◌+◌, ◌-◌, ◌%◌, ◌^◌, Bool, true, false, not, ◌&&◌, List, [], ◌∷◌, ◌++◌, Bytes, ◌==◌, ltb,
  if◌then◌else◌, length, take, drop,
}

-- What a call of `send` comes to: -1 is `would_block` or `failed`, by `errno`; a socket that is
-- ready for `n` bytes takes as many as it is given, up to `n`.
pub data SendResult : Type 0 where
  ready : ℕ → SendResult
  would_block failed : SendResult

-- The callbacks that are called, in order.
pub data Event : Type 0 where
  on_disconnect on_send_ok : Event

-- `struct AsyncSocket_SendData`.
pub record SendData : Type 0 where
  pub buffer : Bytes
  pub bytes_sent : ℕ

-- `struct AsyncSocketModule`, as far as sending goes: `is_open` is `internalSocket!=~0`, and
-- `pending` is the list from `PendingSend_Head` to `PendingSend_Tail`.
pub record Socket : Type 0 where
  pub is_open : Bool
  pub fin_connect : Bool
  pub is_free : Bool
  pub pause : Bool
  pub pending : List SendData
  pub pending_bytes : ℕ
  pub total_sent : ℕ
  pub wire : Bytes
  pub events : List Event

-- `unsigned int` arithmetic.
abbrev pub u32_add : ℕ → ℕ → ℕ
u32_add a b = (a + b) % 4294967296

abbrev pub u32_sub : ℕ → ℕ → ℕ
u32_sub a b = (a + 4294967296 - b % 4294967296) % 4294967296

-- What is left to send of a block.
abbrev pub unsent : SendData → Bytes
unsent d = drop d.bytes_sent d.buffer

-- `ILibAsyncSocket_ClearPendingSend`.
unfoldable pub clear_pending_send : Socket → Socket
clear_pending_send s = record s { pending = [] }

-- `ILibAsyncSocket_Disconnect`.
unfoldable pub disconnect : Socket → Socket
unfolding clear_pending_send
disconnect s =
    let t = clear_pending_send (record s { is_free = true; pause = true; is_open = false }) in
    record t { events = t.events ++ on_disconnect ∷ [] }

-- The counters and the wire after `send` has taken `n` bytes of a block.
abbrev pub took : Socket → SendData → ℕ → Socket
took s d n = record s {
  pending_bytes = u32_sub s.pending_bytes n;
  total_sent = u32_add s.total_sent n;
  wire = s.wire ++ take n (unsent d);
}

-- The head of the list after that.
abbrev pub advanced : SendData → ℕ → SendData
advanced d n = record d { bytes_sent = d.bytes_sent + n }

-- `ILibAsyncSocket_Send` where nothing is pending, from its call of `send` on. The results are the
-- socket, and 2 for a closed socket, 1 if the chain is unblocked, 0 if all was sent.
unfoldable pub send_first : Socket → SendData → SendResult → Socket × ℕ
unfolding disconnect
send_first s d (ready c) =
    let n = min c (length (unsent d)) in
    let d' = advanced d n in
    let t = took s d n in
    if d'.bytes_sent == length d'.buffer
    then (record t { pending = [] }, 0)
    else (record t { pending = d' ∷ [] }, 1)
send_first s d would_block =
    if d.bytes_sent == length d.buffer
    then (record s { pending = [] }, 0)
    else (record s { pending = d ∷ [] }, 1)
send_first s d failed = (disconnect (record s { pending = [] }), 2)

-- By the list of pending blocks.
unfoldable pub send_next : Socket → SendData → SendResult → List SendData → Socket × ℕ
unfolding send_first
send_next s d r [] = send_first s d r
send_next s d r (h ∷ rest) = (record s { pending = (h ∷ rest) ++ d ∷ [] }, 1)

unfoldable pub async_send : Socket → Bytes → SendResult → Socket × ℕ
unfolding send_next
async_send s buffer r =
    let d : SendData = record { buffer = buffer; bytes_sent = 0 } in
    let t = record s { pending_bytes = u32_add s.pending_bytes (length buffer) } in
    if s.is_open then send_next t d r s.pending else (s, 2)

-- How the loop of the write handling ends: after a last `send` that did not fail, or that did;
-- still in the loop when there are no more results; or by a read through a NULL head.
pub data Drained : Type 0 where
  finished : Socket → Drained
  broken : Socket → Drained
  spinning : Socket → Drained
  null_head : Drained

-- A round of the loop at the block `d`, with `rest` behind it; `more` is the loop.
unfoldable pub drain_round :
    (Socket → Drained) → Socket → SendData → List SendData → SendResult → Drained
unfolding clear_pending_send
drain_round more s d rest (ready c) =
    let n = min c (length (unsent d)) in
    let d' = advanced d n in
    let t = took s d n in
    let again = more (record t { pending = d' ∷ rest }) in
    let next = more (record t { pending = rest }) in
    let same = more s in
    if n == 0
    then same
    else if d'.bytes_sent == length d'.buffer
    then elim rest [ [] ↦ finished (record t { pending = [] }) | _ ∷ _ ↦ next ]
    else again
drain_round more s d rest would_block = more s
drain_round more s d rest failed = broken (clear_pending_send s)

unfoldable pub drain_at : (Socket → Drained) → Socket → SendResult → List SendData → Drained
unfolding drain_round
drain_at more s r [] = null_head
drain_at more s r (d ∷ rest) = drain_round more s d rest r

unfoldable pub drain : List SendResult → Socket → Drained
unfolding drain_at
drain [] s = spinning s
drain (r ∷ rs) s = drain_at (drain rs) s r s.pending

-- `if(module->PendingSend_Head==NULL && bytesSent!=-1) {TriggerSendOK=1;}`, where the loop ended.
unfoldable pub after_drain : Drained → Drained
after_drain (finished s) = finished (record s { events = s.events ++ on_send_ok ∷ [] })
after_drain (broken s) = broken s
after_drain (spinning s) = spinning s
after_drain null_head = null_head

-- The write handling of `ILibAsyncSocket_PostSelect`, by whether `select` has found the socket
-- writable.
unfoldable pub post_select_write : Socket → Bool → List SendResult → Drained
unfolding drain after_drain
post_select_write s writable rs =
    if s.fin_connect && (s.is_open && writable) then after_drain (drain rs s) else finished s
