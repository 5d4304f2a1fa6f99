-- ===== src/Sockets/Output/Tests.antt =====
-- The sending side of a socket, run on short buffers.
use tv_now.Common.{ℕ, true, false, ◌≡◌, refl, [], ◌∷◌, arith, map, if◌then◌else◌}
use tv_now.Sockets.Output.{
  ready, would_block, failed, Socket, Drained, finished, broken, spinning, null_head, async_send,
  post_select_write, clear_pending_send, drain, after_drain, send_first, send_next, drain_at,
  drain_round,
}
use tv_now.Sockets.Output.Stream.{queued, outgoing, Counted}
use tv_now.Sockets.Output.Run.{
  Run, start, step, sends, writes, Run-outgoing, async_send-IsClosedSince, IsClosedSince,
}
use tv_now.Sockets.Output.Progress.{
  post_select_write-IsSentFrom, post_select_write-spinning, IsSentFrom, repeat,
}

abbrev connected : Socket
connected = record {
  is_open = true;
  fin_connect = true;
  is_free = false;
  pause = false;
  pending = [];
  pending_bytes = 0;
  total_sent = 0;
  wire = [];
  events = [];
}

-- Three bytes handed over, and one of them taken.
abbrev half : Socket
half = (async_send connected (1 ∷ 2 ∷ 3 ∷ []) (ready 1)).0

-- Two more, that wait behind the rest.
abbrev waiting : Socket
waiting = (async_send half (4 ∷ 5 ∷ []) (ready 9)).0

-- Then the socket takes one byte, none, and after that all it is given.
abbrev drained : Drained
drained = post_select_write waiting true (ready 1 ∷ would_block ∷ ready 9 ∷ ready 9 ∷ [])

wire_test : (elim drained [ finished t ↦ t.wire | _ ↦ [] ]) ≡ 1 ∷ 2 ∷ 3 ∷ 4 ∷ 5 ∷ []
unfolding async_send send_first send_next post_select_write drain drain_at drain_round after_drain
wire_test = refl

-- With nothing pending, a writable socket makes the loop read through a NULL head.
null_head_test : post_select_write connected true (ready 1 ∷ []) ≡ null_head
unfolding post_select_write drain drain_at after_drain
null_head_test = refl

-- A failed `send` in the loop drops what is pending; the socket stays open, and the count of pending
-- bytes stands.
abbrev count_if_open : Drained → ℕ
count_if_open (broken t) = if t.is_open then t.pending_bytes else 0
count_if_open _ = 0

broken_test : count_if_open (post_select_write waiting true (failed ∷ [])) ≡ 4
unfolding async_send send_first send_next post_select_write drain drain_at drain_round after_drain
    clear_pending_send
broken_test = refl

-- An empty buffer is never finished by the loop.
empty_block_test :
    (elim (post_select_write
      (async_send half [] (ready 9)).0
      true
      (ready 9 ∷ ready 9 ∷ ready 9 ∷ [])) [ spinning t ↦ t.wire | _ ↦ [] ])
    ≡ 1 ∷ 2 ∷ 3 ∷ []
unfolding async_send send_first send_next post_select_write drain drain_at drain_round after_drain
    clear_pending_send
empty_block_test = refl

abbrev final : Socket
final = elim drained [ finished t ↦ t | _ ↦ connected ]

trace : Run connected (1 ∷ 2 ∷ 3 ∷ 4 ∷ 5 ∷ []) final
unfolding async_send send_first send_next post_select_write drain drain_at drain_round after_drain
trace =
    step
      (step (step start (sends (1 ∷ 2 ∷ 3 ∷ []) (ready 1) (omega arith)))
        (sends (4 ∷ 5 ∷ []) (ready 9) (omega arith)))
      (writes true (ready 1 ∷ would_block ∷ ready 9 ∷ ready 9 ∷ []) final refl)

Run-outgoing_example : (outgoing final ≡ 1 ∷ 2 ∷ 3 ∷ 4 ∷ 5 ∷ []) × Counted final
unfolding queued
Run-outgoing_example = Run-outgoing trace (refl, refl)

post_select_write-IsSentFrom_example :
    IsSentFrom waiting (post_select_write waiting true (map ready (1 ∷ 9 ∷ 1 ∷ 1 ∷ [])))
unfolding async_send send_first send_next queued
post_select_write-IsSentFrom_example =
    post_select_write-IsSentFrom (1 ∷ 9 ∷ 1 ∷ 1 ∷ []) waiting refl refl
      (omega arith, (omega arith, (omega arith, (omega arith, tt))))
      ((λ e. cc), (omega arith, (omega arith, tt)), omega arith)

post_select_write-spinning_example : post_select_write waiting true (repeat 7) ≡ spinning waiting
unfolding async_send send_first send_next
post_select_write-spinning_example = post_select_write-spinning 7 waiting refl refl (λ e. cc)

async_send-IsClosedSince_example :
    IsClosedSince connected (async_send connected (1 ∷ 2 ∷ []) failed).0
unfolding async_send send_first send_next
async_send-IsClosedSince_example = async_send-IsClosedSince connected (1 ∷ 2 ∷ []) failed refl
