-- ===== src/Sockets/Output/Progress.antt =====
-- libIWeb/ILibAsyncSocket.c: the loop of the write handling ends, where the socket takes something
-- in each round.
use Prim.Native.Nat.{min}
use mathlib.Core.Path.{subst}
use tv_now.Common.{
  ℕ, zero, suc, ◌≤◌, ◌<◌, true, ◌≡◌, ◌≢◌, refl, sym, ap, ◌∙◌, List, [], ◌∷◌, ◌++◌, append-nil, map,
  All, ◌==◌, length, length-drop, length-append, arith, choose, ◌&&◌,
}
use tv_now.Sockets.Output.{
  SendResult, ready, would_block, SendData, Socket, Drained, finished, broken, spinning, null_head,
  unsent, took, advanced, drain, drain_at, drain_round, after_drain, post_select_write, on_send_ok,
}
use tv_now.Sockets.Output.Stream.{queued, outgoing, Keeps, holding, drop_twice, drain-Keeps}

-- Something of the block is still to be sent.
abbrev pub IsUnsent : SendData → Type 0
IsUnsent d = d.bytes_sent < length d.buffer

-- The loop is over, with nothing left.
abbrev pub Empties : Socket → Drained → Type 0
Empties s (finished t) = (t.pending ≡ []) × (t.events ≡ s.events)
Empties s (broken t) = ⊥
Empties s (spinning t) = ⊥
Empties s null_head = ⊥

-- The socket has blocks, each with something to send, and at most `k` bytes in all.
abbrev pub Waiting : ℕ → List SendData → Type 0
Waiting k ds = (ds ≢ []) × All IsUnsent ds × (length (queued ds) ≤ k)

drain_round-Empties :
    (more : Socket → Drained) (s : Socket) (d : SendData) (rest : List SendData) (c k : ℕ)
    → 1 ≤ c
    → IsUnsent d
    → All IsUnsent rest
    → length (unsent d ++ queued rest) ≤ suc k
    → ((t : Socket) → Waiting k t.pending → Empties t (more t))
    → Empties s (drain_round more s d rest (ready c))
unfolding drain_round queued
drain_round-Empties more s d [] c k one hd hr le h =
    let a = length-append (unsent d) [] in
    let v = length-drop d.bytes_sent d.buffer in
    let n = min c (length (unsent d)) in
    let u = ap length (drop_twice d.bytes_sent n d.buffer) in
    let w = length-drop n (unsent d) in
    let a' = length-append (unsent (advanced d n)) [] in
    let pos : 1 ≤ n = omega arith in
    choose (Empties s) (n == 0) _ _ (λ z. absurd (ground arith))
      (λ _.
        choose (Empties s) ((advanced d n).bytes_sent == length d.buffer) _ _ (λ _. (refl, refl))
          (λ z.
            h (holding (took s d n) (advanced d n) [])
              ((λ e. cc), (ground arith, tt), omega arith)))
drain_round-Empties more s d (x ∷ xs) c k one hd (hx, hr) le h =
    let a = length-append (unsent d) (queued (x ∷ xs)) in
    let v = length-drop d.bytes_sent d.buffer in
    let n = min c (length (unsent d)) in
    let u = ap length (drop_twice d.bytes_sent n d.buffer) in
    let w = length-drop n (unsent d) in
    let a' = length-append (unsent (advanced d n)) (queued (x ∷ xs)) in
    let pos : 1 ≤ n = omega arith in
    choose (Empties s) (n == 0) _ _ (λ z. absurd (ground arith))
      (λ _.
        choose (Empties s) ((advanced d n).bytes_sent == length d.buffer) _ _
          (λ _. h (holding (took s d n) x xs) ((λ e. cc), (hx, hr), omega arith))
          (λ z.
            h (holding (took s d n) (advanced d n) (x ∷ xs))
              ((λ e. cc), (ground arith, (hx, hr)), omega arith)))

drain_at-Empties :
    (more : Socket → Drained) (s : Socket) (c k : ℕ) (ds : List SendData)
    → 1 ≤ c
    → Waiting (suc k) ds
    → ((t : Socket) → Waiting k t.pending → Empties t (more t))
    → Empties s (drain_at more s (ready c) ds)
unfolding drain_at queued
drain_at-Empties more s c k [] one (some_left, hs, le) h = absurd (some_left refl)
drain_at-Empties more s c k (d ∷ rest) one (some_left, (hd, hr), le) h =
    drain_round-Empties more s d rest c k one hd hr le h

Empties-trans : (s t : Socket) (o : Drained) → t.events ≡ s.events → Empties t o → Empties s o
Empties-trans s t (finished u) e (p, f) = (p, f ∙ e)
Empties-trans s t (broken u) e h = h
Empties-trans s t (spinning u) e h = h
Empties-trans s t null_head e h = h

Waiting_pos : {P : Type 0} (ds : List SendData) → Waiting 0 ds → P
unfolding queued
Waiting_pos [] (some_left, hs, le) = absurd (some_left refl)
Waiting_pos (d ∷ ds) (some_left, (hd, hs), le) =
    let a = length-append (unsent d) (queued ds) in
    let v = length-drop d.bytes_sent d.buffer in absurd (omega arith)

drain-Empties :
    (cs : List ℕ) (s : Socket)
    → All (λ c. 1 ≤ c) cs
    → Waiting (length cs) s.pending
    → Empties s (drain (map ready cs) s)
unfolding drain
drain-Empties [] s hc w = Waiting_pos s.pending w
drain-Empties (c ∷ cs) s (one, hc) w =
    drain_at-Empties (drain (map ready cs)) s c (length cs) s.pending one w
      (λ t v. drain-Empties cs t hc v)

-- What `s` has, after all that was pending has gone out and `OnSendOK` has been called.
abbrev pub IsSentFrom : Socket → Drained → Type 0
IsSentFrom s (finished t) =
    (t.pending ≡ [])
    × (t.wire ≡ s.wire ++ queued s.pending)
    × (t.events ≡ s.events ++ on_send_ok ∷ [])
IsSentFrom s (broken t) = ⊥
IsSentFrom s (spinning t) = ⊥
IsSentFrom s null_head = ⊥

after_drain-IsSentFrom :
    (s : Socket) (o : Drained) → Empties s o → Keeps s o → IsSentFrom s (after_drain o)
unfolding after_drain queued
after_drain-IsSentFrom s (finished t) (p, e) (o, _) = (
  p,
  sym (append-nil t.wire) ∙ subst (λ ds. t.wire ++ queued ds ≡ outgoing s) p o,
  ap (λ x. x ++ on_send_ok ∷ []) e,
)
after_drain-IsSentFrom s (broken t) h k = h
after_drain-IsSentFrom s (spinning t) h k = h
after_drain-IsSentFrom s null_head h k = h

-- The write handling of a connected and writable socket that has a block pending at least, and in each block
-- something left, ends within as many calls of `send` as there are bytes left, where each call takes at
-- least one byte: nothing is then pending, all that was pending is on the wire, in order, and
-- `OnSendOK` is called once.
pub post_select_write-IsSentFrom :
    (cs : List ℕ) (s : Socket)
    → s.fin_connect ≡ true
    → s.is_open ≡ true
    → All (λ c. 1 ≤ c) cs
    → Waiting (length cs) s.pending
    → IsSentFrom s (post_select_write s true (map ready cs))
unfolding post_select_write
post_select_write-IsSentFrom cs s f o hc w =
    choose (IsSentFrom s) (s.fin_connect && (s.is_open && true)) _ _
      (λ _.
        after_drain-IsSentFrom s (drain (map ready cs) s) (drain-Empties cs s hc w)
          (drain-Keeps (map ready cs) s))
      (λ z. absurd (ground arith))

-- So many times `would_block`.
unfoldable pub repeat : ℕ → List SendResult
repeat zero = []
repeat (suc n) = would_block ∷ repeat n

drain_at-would_block :
    (more : Socket → Drained) (s : Socket) (ds : List SendData)
    → ds ≢ []
    → drain_at more s would_block ds ≡ more s
unfolding drain_at drain_round
drain_at-would_block more s [] h = absurd (h refl)
drain_at-would_block more s (d ∷ ds) h = refl

drain-spinning : (n : ℕ) (s : Socket) → s.pending ≢ [] → drain (repeat n) s ≡ spinning s
unfolding drain repeat
drain-spinning zero s h = refl
drain-spinning (suc n) s h =
    drain_at-would_block (drain (repeat n)) s s.pending h ∙ drain-spinning n s h

-- While `send` would block, however often it is tried, the write handling of a connected and writable
-- socket with blocks pending is still in its loop, and the state is unchanged.
pub post_select_write-spinning :
    (n : ℕ) (s : Socket)
    → s.fin_connect ≡ true
    → s.is_open ≡ true
    → s.pending ≢ []
    → post_select_write s true (repeat n) ≡ spinning s
unfolding post_select_write after_drain
post_select_write-spinning n s f o h =
    choose (λ x. x ≡ spinning s) (s.fin_connect && (s.is_open && true)) _ _
      (λ _. ap after_drain (drain-spinning n s h)) (λ z. absurd (ground arith))
