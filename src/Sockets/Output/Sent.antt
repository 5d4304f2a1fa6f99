-- ===== src/Sockets/Output/Sent.antt =====
-- libIWeb/ILibAsyncSocket.c: a call of `ILibAsyncSocket_Send` that returns 0 has sent all.
use Prim.Native.Nat.{min}
use tv_now.Common.{ℕ, ◌≡◌, refl, List, [], ◌∷◌, Bytes, ◌==◌, length, arith, choose}
use tv_now.Sockets.Output.{
  Socket, SendData, SendResult, ready, would_block, failed, async_send, send_next, send_first,
  advanced, unsent, u32_add,
}

-- Nothing is pending after a call that returns 0.
send_first-sent :
    (s : Socket) (d : SendData) (r : SendResult)
    → (send_first s d r).1 ≡ 0
    → (send_first s d r).0.pending ≡ []
unfolding send_first
send_first-sent s d (ready c) =
    choose (λ (x : Socket × ℕ). x.1 ≡ 0 → x.0.pending ≡ [])
      ((advanced d (min c (length (unsent d)))).bytes_sent == length d.buffer) _ _ (λ _ _. refl)
      (λ _ h. absurd (omega arith))
send_first-sent s d would_block =
    choose (λ (x : Socket × ℕ). x.1 ≡ 0 → x.0.pending ≡ []) (d.bytes_sent == length d.buffer) _ _
      (λ _ _. refl) (λ _ h. absurd (omega arith))
send_first-sent s d failed = λ h. absurd (omega arith)

send_next-sent :
    (s : Socket) (d : SendData) (r : SendResult) (ds : List SendData)
    → (send_next s d r ds).1 ≡ 0
    → (send_next s d r ds).0.pending ≡ []
unfolding send_next
send_next-sent s d r [] = send_first-sent s d r
send_next-sent s d r (x ∷ ds) = λ h. absurd (omega arith)

pub async_send-sent :
    (s : Socket) (b : Bytes) (r : SendResult)
    → (async_send s b r).1 ≡ 0
    → (async_send s b r).0.pending ≡ []
unfolding async_send
async_send-sent s b r =
    choose (λ (x : Socket × ℕ). x.1 ≡ 0 → x.0.pending ≡ []) s.is_open _ _
      (λ _.
        send_next-sent (record s { pending_bytes = u32_add s.pending_bytes (length b) })
          (record { buffer = b; bytes_sent = 0 }) r s.pending)
      (λ _ h. absurd (omega arith))
