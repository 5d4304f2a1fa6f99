-- ===== src/Sockets/Output/Run.antt =====
-- libIWeb/ILibAsyncSocket.c: what `ILibAsyncSocket_Send` adds to the stream of a socket, and the
-- stream over any sequence of calls and write handlings.
use Prim.Native.Nat.{min}
use mathlib.Core.Path.{subst}
use tv_now.Common.{
  ℕ, Bool, false, ◌≡◌, ◌≢◌, refl, sym, ap, ◌∙◌, List, [], ◌∷◌, ◌++◌, append_assoc, append-nil,
  Bytes, ◌==◌, length, length-append, arith, choose, ◌&&◌,
}
use tv_now.Sockets.Output.{
  SendResult, ready, would_block, failed, SendData, Socket, finished, unsent, took, advanced,
  send_first, send_next, async_send, post_select_write, u32_add,
}
use tv_now.Sockets.Output.Stream.{
  queued, outgoing, Counted, Carries, Same, Keeps, holding, took-Same, taking-Same, finishing-Same,
  min_le, post_select_write-Keeps,
}

queued_append : (ds : List SendData) (d : SendData) → queued (ds ++ d ∷ []) ≡ queued ds ++ unsent d
unfolding queued
queued_append [] d = append-nil (unsent d)
queued_append (x ∷ ds) d =
    rw (queued_append ds d, append_assoc (unsent x) (queued ds) (unsent d)) refl

abbrev pub block : Bytes → SendData
block b = record { buffer = b; bytes_sent = 0 }

-- The socket with the list of its blocks, one of them not yet in the count of what is pending.
abbrev pub counting : Socket → Bytes → List SendData → Socket
counting s b ds = record s { pending_bytes = u32_add s.pending_bytes (length b); pending = ds }

counting-Carries :
    (s : Socket) (b : Bytes) (ds : List SendData)
    → Carries (record s { pending = ds }) b (counting s b (ds ++ block b ∷ []))
counting-Carries s b ds = rw (queued_append ds (block b)) (
  sym (append_assoc s.wire (queued ds) b),
  λ c. let a = length-append (queued ds) b in let p = c.0 in (omega arith, c.1),
)

Carries-Same : (s t u : Socket) (b : Bytes) → Carries s b t → Same t u → Carries s b u
Carries-Same s t u b (e, k) (f, l) = (f ∙ e, λ c. l (k c))

Carries-trans :
    (s t u : Socket) (b c : Bytes) → Carries s b t → Carries t c u → Carries s (b ++ c) u
Carries-trans s t u b c (e, k) (f, l) =
    (f ∙ (ap (λ x. x ++ c) e ∙ append_assoc (outgoing s) b c), λ x. l (k x))

-- Sent, unless the socket is closed or fails.
abbrev pub Accepts : Socket → Bytes → Socket × ℕ → Type 0
Accepts s b (t, k) = k ≢ 2 → Carries s b t

send_first-Accepts :
    (s : Socket) (b : Bytes) (r : SendResult)
    → Accepts (record s { pending = [] }) b (send_first (counting s b []) (block b) r)
unfolding send_first
send_first-Accepts s b (ready c) =
    let h = record s { pending = [] } in
    let g = counting s b [] in
    let n = min c (length b) in
    let le = min_le c (length b) in
    let pushed = counting-Carries s b [] in
    choose (Accepts h b) ((advanced (block b) n).bytes_sent == length b) _ _
      (λ full _.
        Carries-Same h (holding g (block b) []) (record (took g (block b) n) { pending = [] }) b
          pushed (taking-Same g (block b) n [] le full))
      (λ _ _.
        Carries-Same h (holding g (block b) [])
          (holding (took g (block b) n) (advanced (block b) n) []) b pushed
          (took-Same g (block b) n [] le))
send_first-Accepts s b would_block =
    let h = record s { pending = [] } in
    let g = counting s b [] in
    let pushed = counting-Carries s b [] in
    choose (Accepts h b) (0 == length b) _ _
      (λ full _.
        Carries-Same h (holding g (block b) []) g b pushed (finishing-Same g (block b) [] full))
      (λ _ _. pushed)
send_first-Accepts s b failed = λ h. absurd (h refl)

send_next-Accepts :
    (s : Socket) (b : Bytes) (r : SendResult) (ds : List SendData)
    → Accepts (record s { pending = ds }) b (send_next (counting s b ds) (block b) r ds)
unfolding send_next
send_next-Accepts s b r [] = send_first-Accepts s b r
send_next-Accepts s b r (d ∷ ds) = λ _. counting-Carries s b (d ∷ ds)

-- Unless it returns 2 (`ILibAsyncSocket_SEND_ON_CLOSED_SOCKET_ERROR`), `ILibAsyncSocket_Send` puts the
-- bytes of its buffer, all of them and nothing else, behind what was on the wire and pending.
pub async_send-Accepts : (s : Socket) (b : Bytes) (r : SendResult) → Accepts s b (async_send s b r)
unfolding async_send
async_send-Accepts s b r =
    choose (Accepts s b) s.is_open _ _ (λ _. send_next-Accepts s b r s.pending)
      (λ _ h. absurd (h refl))

-- What happens to a socket that does not fail, with the bytes that are handed over: a call of
-- `ILibAsyncSocket_Send`, or the write handling of `ILibAsyncSocket_PostSelect`.
pub data Step (s : Socket) : Bytes → Socket → Type 0 where
  sends : (b : Bytes) (r : SendResult) → (async_send s b r).1 ≢ 2 → Step s b (async_send s b r).0
  writes :
      (w : Bool) (rs : List SendResult) (t : Socket)
      → post_select_write s w rs ≡ finished t
      → Step s [] t

pub data Run (s : Socket) : Bytes → Socket → Type 0 where
  start : Run s [] s
  step : {a b : Bytes} {t u : Socket} → Run s a t → Step t b u → Run s (a ++ b) u

Step-Carries : {s : Socket} {b : Bytes} {t : Socket} → Step s b t → Carries s b t
Step-Carries {s} (sends b r h) = async_send-Accepts s b r h
Step-Carries {s} (writes w rs t e) =
    let (o, k) : Same s t = subst (Keeps s) e (post_select_write-Keeps s w rs) in
    (o ∙ sym (append-nil (outgoing s)), k)

Run-Carries : {s : Socket} {a : Bytes} {t : Socket} → Run s a t → Carries s a t
Run-Carries {s} start = (sym (append-nil (outgoing s)), λ c. c)
Run-Carries {s} (step {a} {b} {t} {u} r x) =
    Carries-trans s t u a b (Run-Carries r) (Step-Carries x)

-- Over any sequence of calls and write handlings in which no `send` fails, from counters that agree
-- with the stream: what is on the wire, with what is pending behind it, is what it was before with
-- all the buffers that were handed over, in the order of the calls; and the counters of pending
-- and of sent bytes still agree with it.
pub Run-outgoing :
    {s : Socket} {a : Bytes} {t : Socket}
    → Run s a t
    → Counted s
    → (outgoing t ≡ outgoing s ++ a) × Counted t
Run-outgoing r c = ((Run-Carries r).0, (Run-Carries r).1 c)

-- Closed, with nothing new on the wire since `s`: calls return 2 and change nothing, and
-- the write handling does nothing.
abbrev pub IsClosedSince : Socket → Socket → Type 0
IsClosedSince s t =
    (t.is_open ≡ false)
    × (t.wire ≡ s.wire)
    × ((b : Bytes) (r : SendResult) → async_send t b r ≡ (t, 2))
    × ((w : Bool) (rs : List SendResult) → post_select_write t w rs ≡ finished t)

abbrev IsRefused : Socket → Socket × ℕ → Type 0
IsRefused s (t, k) = k ≡ 2 → IsClosedSince s t

closed-async_send :
    (t : Socket) (b : Bytes) (r : SendResult) → t.is_open ≡ false → async_send t b r ≡ (t, 2)
unfolding async_send
closed-async_send t b r h =
    choose (λ x. x ≡ (t, 2)) t.is_open _ _ (λ y. absurd (ground arith)) (λ _. refl)

closed-post_select_write :
    (t : Socket) (w : Bool) (rs : List SendResult)
    → t.is_open ≡ false
    → post_select_write t w rs ≡ finished t
unfolding post_select_write
closed-post_select_write t w rs h =
    choose (λ x. x ≡ finished t) (t.fin_connect && (t.is_open && w)) _ _
      (λ y. absurd (ground arith)) (λ _. refl)

send_first-IsRefused : (s : Socket) (d : SendData) (r : SendResult) → IsRefused s (send_first s d r)
unfolding send_first
send_first-IsRefused s d (ready c) =
    choose (IsRefused s) ((advanced d (min c (length (unsent d)))).bytes_sent == length d.buffer) _
      _ (λ _ h. absurd (omega arith)) (λ _ h. absurd (omega arith))
send_first-IsRefused s d would_block =
    choose (IsRefused s) (d.bytes_sent == length d.buffer) _ _ (λ _ h. absurd (omega arith))
      (λ _ h. absurd (omega arith))
send_first-IsRefused s d failed = λ h. (
  refl,
  refl,
  λ b r. closed-async_send (send_first s d failed).0 b r refl,
  λ w rs. closed-post_select_write (send_first s d failed).0 w rs refl,
)

send_next-IsRefused :
    (s : Socket) (d : SendData) (r : SendResult) (ds : List SendData)
    → IsRefused s (send_next s d r ds)
unfolding send_next
send_next-IsRefused s d r [] = send_first-IsRefused s d r
send_next-IsRefused s d r (x ∷ xs) = λ h. absurd (omega arith)

async_send-IsRefused : (s : Socket) (b : Bytes) (r : SendResult) → IsRefused s (async_send s b r)
unfolding async_send
async_send-IsRefused s b r =
    choose (IsRefused s) s.is_open _ _
      (λ _.
        send_next-IsRefused (record s { pending_bytes = u32_add s.pending_bytes (length b) })
          (block b) r s.pending)
      (λ c _.
        (c, refl, (λ d q. closed-async_send s d q c), λ w rs. closed-post_select_write s w rs c))

-- A call of `ILibAsyncSocket_Send` that has returned 2 leaves the socket closed, with nothing new on
-- the wire, and closed it stays: later calls return 2 and change nothing, and the write handling
-- does nothing.
pub async_send-IsClosedSince :
    (s : Socket) (b : Bytes) (r : SendResult)
    → (async_send s b r).1 ≡ 2
    → IsClosedSince s (async_send s b r).0
async_send-IsClosedSince s b r h = async_send-IsRefused s b r h
