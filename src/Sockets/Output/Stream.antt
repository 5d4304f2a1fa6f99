-- ===== src/Sockets/Output/Stream.antt =====
-- libIWeb/ILibAsyncSocket.c: the stream of bytes that a socket carries. What it has put on the wire
-- and what it still keeps, one behind the other, against what the callers have handed over.
use Prim.Native.Nat.{min}
use tv_now.Common.{
  ℕ, zero, suc, ◌+◌, ◌%◌, ◌≤◌, Bool, true, ◌≡◌, refl, sym, ap, ◌∙◌, List, [], ◌∷◌, ◌++◌,
  append_assoc, Bytes, ◌==◌, length, take, drop, length-drop, length-append, take-append-drop,
  arith, choose, ◌&&◌,
}
use tv_now.Sockets.Output.{
  SendResult, ready, would_block, failed, SendData, Socket, Drained, finished, broken, spinning,
  null_head, unsent, took, advanced, drain, drain_at, drain_round, after_drain, post_select_write,
}

-- The bytes that the pending blocks still hold, in order.
unfoldable pub queued : List SendData → Bytes
queued [] = []
queued (d ∷ ds) = unsent d ++ queued ds

-- All the bytes that have been handed over, in order, as the socket holds them.
abbrev pub outgoing : Socket → Bytes
outgoing s = s.wire ++ queued s.pending

-- The counters agree with the stream.
abbrev pub Counted : Socket → Type 0
Counted s =
    (s.pending_bytes ≡ length (queued s.pending) % 4294967296)
    × (s.total_sent ≡ length s.wire % 4294967296)

-- From one state to another the stream has grown by the bytes `b`, and the counters still agree.
abbrev pub Carries : Socket → Bytes → Socket → Type 0
Carries s b t = (outgoing t ≡ outgoing s ++ b) × (Counted s → Counted t)

module _ {ℓ} {A : Type ℓ} where
  pub drop_twice : (m n : ℕ) (xs : List A) → drop (m + n) xs ≡ drop n (drop m xs)
  drop_twice zero n xs = let e : 0 + n ≡ n = omega arith in rw e
  drop_twice (suc m) zero [] = let e : suc m + 0 ≡ suc m = omega arith in rw e
  drop_twice (suc m) (suc n) [] = let e : suc m + suc n ≡ suc (m + suc n) = omega arith in rw e
  drop_twice (suc m) n (x ∷ xs) =
      let e : suc m + n ≡ suc (m + n) = omega arith in rw e (drop_twice m n xs)

pub length-take : (n : ℕ) (xs : Bytes) → n ≤ length xs → length (take n xs) ≡ n
length-take zero xs h = refl
length-take (suc n) [] h = absurd (omega arith)
length-take (suc n) (x ∷ xs) h = ap suc (length-take n xs (omega arith))

-- Taking bytes of a block moves them to the wire.
pub took-outgoing :
    (s : Socket) (d : SendData) (n : ℕ) (rest : List SendData)
    → (took s d n).wire ++ (unsent (advanced d n) ++ queued rest)
      ≡ s.wire ++ (unsent d ++ queued rest)
took-outgoing s d n rest =
    rw
      (
        drop_twice d.bytes_sent n d.buffer,
        append_assoc s.wire (take n (unsent d)) (drop n (unsent d) ++ queued rest),
        sym (append_assoc (take n (unsent d)) (drop n (unsent d)) (queued rest)),
        take-append-drop n (unsent d),
      )
      refl

pub took-Counted :
    (s : Socket) (d : SendData) (n : ℕ) (rest : List SendData)
    → n ≤ length (unsent d)
    → s.pending_bytes ≡ length (unsent d ++ queued rest) % 4294967296
    → s.total_sent ≡ length s.wire % 4294967296
    → ((took s d n).pending_bytes ≡ length (unsent (advanced d n) ++ queued rest) % 4294967296)
      × ((took s d n).total_sent ≡ length (took s d n).wire % 4294967296)
took-Counted s d n rest le p w =
    let a = length-append (unsent d) (queued rest) in
    let b = length-append (unsent (advanced d n)) (queued rest) in
    let c = length-append s.wire (take n (unsent d)) in
    let t = length-take n (unsent d) le in
    let u = ap length (drop_twice d.bytes_sent n d.buffer) in
    let v = length-drop n (unsent d) in (omega arith, omega arith)

drop_out : (xs : Bytes) → drop (length xs) xs ≡ []
drop_out [] = refl
drop_out (x ∷ xs) = drop_out xs

pub unsent-nil : (d : SendData) → (d.bytes_sent == length d.buffer) ≡ true → unsent d ≡ []
unsent-nil d h =
    let e : d.bytes_sent ≡ length d.buffer = ground arith in
    ap (λ n. drop n d.buffer) e ∙ drop_out d.buffer

pub min_le : (m n : ℕ) → min m n ≤ n
min_le m n = omega arith

-- The socket with a block at the head of its list.
abbrev pub holding : Socket → SendData → List SendData → Socket
holding s d rest = record s { pending = d ∷ rest }

-- The stream is as long as it was.
abbrev pub Same : Socket → Socket → Type 0
Same s t = (outgoing t ≡ outgoing s) × (Counted s → Counted t)

Same-trans : (s t u : Socket) → Same s t → Same t u → Same s u
Same-trans s t u (e, k) (f, l) = (f ∙ e, λ c. l (k c))

pub took-Same :
    (s : Socket) (d : SendData) (n : ℕ) (rest : List SendData)
    → n ≤ length (unsent d)
    → Same (holding s d rest) (holding (took s d n) (advanced d n) rest)
unfolding queued
took-Same s d n rest le = (took-outgoing s d n rest, λ c. took-Counted s d n rest le c.0 c.1)

pub finishing-Same :
    (s : Socket) (d : SendData) (rest : List SendData)
    → (d.bytes_sent == length d.buffer) ≡ true
    → Same (holding s d rest) (record s { pending = rest })
unfolding queued
finishing-Same s d rest h = rw (unsent-nil d h) (refl, λ c. c)

pub taking-Same :
    (s : Socket) (d : SendData) (n : ℕ) (rest : List SendData)
    → n ≤ length (unsent d)
    → ((advanced d n).bytes_sent == length d.buffer) ≡ true
    → Same (holding s d rest) (record (took s d n) { pending = rest })
taking-Same s d n rest le h =
    Same-trans (holding s d rest) (holding (took s d n) (advanced d n) rest)
      (record (took s d n) { pending = rest }) (took-Same s d n rest le)
      (finishing-Same (took s d n) (advanced d n) rest h)

-- The loop ends with the stream that it began with.
abbrev pub Keeps : Socket → Drained → Type 0
Keeps s (finished t) = Same s t
Keeps s (broken t) = Unit
Keeps s (spinning t) = Same s t
Keeps s null_head = Unit

Keeps-after : (s t : Socket) (o : Drained) → Same s t → Keeps t o → Keeps s o
Keeps-after s t (finished u) h k = Same-trans s t u h k
Keeps-after s t (broken u) h k = tt
Keeps-after s t (spinning u) h k = Same-trans s t u h k
Keeps-after s t null_head h k = tt

drain_round-Keeps :
    (more : Socket → Drained) (s : Socket) (d : SendData) (rest : List SendData) (r : SendResult)
    → ((t : Socket) → Keeps t (more t))
    → Keeps (holding s d rest) (drain_round more (holding s d rest) d rest r)
unfolding drain_round
drain_round-Keeps more s d [] (ready c) k =
    let h = holding s d [] in
    let n = min c (length (unsent d)) in
    let le = min_le c (length (unsent d)) in
    let t = holding (took s d n) (advanced d n) [] in
    choose (Keeps h) (n == 0) (more h) _ (λ _. k h)
      (λ _.
        choose (Keeps h) ((advanced d n).bytes_sent == length d.buffer) _ _
          (λ full. taking-Same s d n [] le full)
          (λ _. Keeps-after h t (more t) (took-Same s d n [] le) (k t)))
drain_round-Keeps more s d (x ∷ xs) (ready c) k =
    let h = holding s d (x ∷ xs) in
    let n = min c (length (unsent d)) in
    let le = min_le c (length (unsent d)) in
    let t = holding (took s d n) (advanced d n) (x ∷ xs) in
    let u = holding (took s d n) x xs in
    choose (Keeps h) (n == 0) (more h) _ (λ _. k h)
      (λ _.
        choose (Keeps h) ((advanced d n).bytes_sent == length d.buffer) _ _
          (λ full. Keeps-after h u (more u) (taking-Same s d n (x ∷ xs) le full) (k u))
          (λ _. Keeps-after h t (more t) (took-Same s d n (x ∷ xs) le) (k t)))
drain_round-Keeps more s d rest would_block k = k (holding s d rest)
drain_round-Keeps more s d rest failed k = tt

drain_at-Keeps :
    (more : Socket → Drained) (s : Socket) (r : SendResult) (pending : List SendData)
    → ((t : Socket) → Keeps t (more t))
    → Keeps
        (record s { pending = pending })
        (drain_at more (record s { pending = pending }) r pending)
unfolding drain_at
drain_at-Keeps more s r [] k = tt
drain_at-Keeps more s r (d ∷ rest) k = drain_round-Keeps more s d rest r k

pub drain-Keeps : (rs : List SendResult) (s : Socket) → Keeps s (drain rs s)
unfolding drain
drain-Keeps [] s = (refl, λ c. c)
drain-Keeps (r ∷ rs) s = drain_at-Keeps (drain rs) s r s.pending (drain-Keeps rs)

after_drain-Keeps : (s : Socket) (o : Drained) → Keeps s o → Keeps s (after_drain o)
unfolding after_drain
after_drain-Keeps s (finished t) h = h
after_drain-Keeps s (broken t) h = h
after_drain-Keeps s (spinning t) h = h
after_drain-Keeps s null_head h = h

-- However the write handling goes, unless a `send` fails, what is on the wire with what is
-- pending behind it is the same stream of bytes as before, and the counters still agree with it.
pub post_select_write-Keeps :
    (s : Socket) (writable : Bool) (rs : List SendResult)
    → Keeps s (post_select_write s writable rs)
unfolding post_select_write
post_select_write-Keeps s writable rs =
    choose (Keeps s) (s.fin_connect && (s.is_open && writable)) _ _
      (λ _. after_drain-Keeps s (drain rs s) (drain-Keeps rs s)) (λ _. (refl, λ c. c))
