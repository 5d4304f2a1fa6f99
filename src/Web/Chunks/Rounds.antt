-- ===== src/Web/Chunks/Rounds.antt =====
-- The rounds of the decoder of chunked bodies over a chunk and over the end of a body.
use tv_now.Common.{
  ℕ, suc, ◌+◌, ◌-◌, ◌≤◌, ◌<◌, Bool, true, false, ◌&&◌, List, [], ◌∷◌, ◌++◌, some, ◌≡◌, refl, sym,
  ap, ◌∙◌, Bytes, ◌==◌, ==_refl, ltb, leb, if◌then◌else◌, if_true, if_false, starts, length, take,
  drop, take-append, drop-append, length-append, append_assoc, append-nil, Lacks, arith, choose,
}
use tv_now.Common.Int.{ℤ, pos, negsuc}
use tv_now.Parsers.Split.{parse_string, parse_loop, is_delimiter}
use tv_now.Parsers.Xml.Tags.Words.{parse_string-front}
use tv_now.MyString.Libc.{to_int}
use tv_now.Web.Chunks.{
  behind_prefix, digits_onto, digit_value, Flag, start_chunk, end_chunk, data_chunk, footer_chunk,
  ChunkData, Response, Outcome, going, finished, overrun, line_end, first_text, read_size, strtol16,
  keep, take_data, read_data, read_footer, process_flag, process_chunk, Read, waiting, complete,
  crashed, read_body,
}
use tv_now.Web.Chunks.Hex.{hex, hex-AreHex, AreHex, strtol16-hex}

abbrev pub line : Bytes
line = b'\r' ∷ b'\n' ∷ []

-- A chunk, and the end of a body.
abbrev pub chunk_text : Bytes → Bytes
chunk_text c = hex (length c) ++ (line ++ (c ++ line))

abbrev pub last_chunk : Bytes
last_chunk = b'0' ∷ (line ++ line)

-- A state in which the buffer of the decoder is empty.
abbrev pub state : Flag → Bytes → ℕ → ℤ → ChunkData
state flag memory allocated left = record {
  flag = flag;
  memory = memory;
  allocated = allocated;
  offset = 0;
  malloc_size = 2048;
  bytes_left = left;
}

line_end-hex :
    (t : Bytes) (c : ℕ) (s : Bytes) (i : ℕ)
    → AreHex t
    → line_end (t ++ (line ++ (c ∷ s))) i ≡ some (i + length t)
unfolding line_end
line_end-hex [] c s i h = ap some (omega arith)
line_end-hex (a ∷ []) c s i (ha, h) =
    if_false (a == b'\r' && b'\r' == b'\n') _ _ (ground arith) ∙ ap some (omega arith)
line_end-hex (a ∷ b ∷ []) c s i (ha, h) =
    if_false (a == b'\r' && b == b'\n') _ _ (ground arith)
    ∙ (line_end-hex (b ∷ []) c s (i + 1) h ∙ ap some (omega arith))
line_end-hex (a ∷ b ∷ d ∷ t) c s i (ha, h) =
    if_false (a == b'\r' && b == b'\n') _ _ (ground arith)
    ∙ (line_end-hex (b ∷ d ∷ t) c s (i + 1) h ∙ ap some (omega arith))

AreHex-Lacks : (t : Bytes) → AreHex t → Lacks b';' t
AreHex-Lacks [] h = tt
AreHex-Lacks (c ∷ t) (hc, h) = (ground arith, AreHex-Lacks t h)

size_text :
    (t rest : Bytes)
    → AreHex t
    → first_text (parse_string (t ++ rest) 0 (2 + length t - 2) (b';' ∷ [])) ≡ t
unfolding first_text
size_text t rest h =
    let z : 2 + length t - 2 ≡ length t = omega arith in
    rw z (
      ap first_text
        (parse_string-front b';' rest t [] (t ++ rest) (length t) (AreHex-Lacks t h, tt) refl refl)
      ∙ take-append t rest)

module _ (on_response : Bytes → Bool → ℕ) where
  -- A round that takes something.
  round :
      (f : ℕ) (c c' : ChunkData) (front : Bytes) (y : ℕ) (rest : Bytes) (rs more : List Response)
      → 0 < length front
      → process_chunk on_response (some c) (front ++ (y ∷ rest)) ≡ going c' (length front) more
      → read_body on_response (suc f) (some c) (front ++ (y ∷ rest)) rs
        ≡ read_body on_response f (some c') (y ∷ rest) (rs ++ more)
  unfolding read_body
  round f c c' [] y rest rs more pos_front h = absurd (omega arith)
  round f c c' (x ∷ front) y rest rs more pos_front h =
      let buffer = x ∷ (front ++ (y ∷ rest)) in
      let after : Outcome → Read = λ o. elim o [
        | going c2 n m2 ↦
            if n == 0
            then waiting (some c2) buffer (rs ++ m2)
            else read_body on_response f (some c2) (drop n buffer) (rs ++ m2)
        | finished n m2 ↦ complete (drop n buffer) (rs ++ m2)
        | overrun ↦ crashed
      ] in
      ap after h
      ∙ (if_false (length (x ∷ front) == 0) _ _ (ground arith)
          ∙ ap (λ b. read_body on_response f (some c') b (rs ++ more))
              (drop-append (x ∷ front) (y ∷ rest)))

  size_round :
      (m : Bytes) (a : ℕ) (left : ℤ) (n y : ℕ) (rest : Bytes)
      → 0 < n
      → n < 2147483648
      → process_chunk on_response
          (some (state start_chunk m a left))
          ((hex n ++ line) ++ (y ∷ rest))
        ≡ going (state data_chunk m a (pos n)) (length (hex n ++ line)) []
  unfolding process_chunk process_flag read_size
  size_round m a left n y rest some_bytes h =
      let chunk = state start_chunk m a left in
      let buffer = hex n ++ (line ++ (y ∷ rest)) in
      let sized : ℤ → ℕ → Outcome = λ size i.
        (let fl : Flag = elim size [
          | pos k ↦ (if k == 0 then footer_chunk else data_chunk)
          | negsuc k ↦ data_chunk
        ] in
          going (record chunk { bytes_left = size; flag = fl }) i []) in
      let end : 2 + length (hex n) ≡ length (hex n ++ line) =
        omega (arith, length-append (hex n) line) in
      ap (λ b. read_size chunk b (line_end b 2)) (append_assoc (hex n) line (y ∷ rest))
      ∙ (ap (read_size chunk buffer) (line_end-hex (hex n) y rest 2 (hex-AreHex n))
          ∙ (ap (λ t. sized (strtol16 t) (2 + length (hex n)))
                (size_text (hex n) (line ++ (y ∷ rest)) (hex-AreHex n))
              ∙ (ap (λ v. sized v (2 + length (hex n))) (strtol16-hex n h)
                  ∙ (ap (λ fl. going (state fl m a (pos n)) (2 + length (hex n)) [])
                        (if_false (n == 0) footer_chunk data_chunk (ground arith))
                      ∙ ap (λ i. going (state data_chunk m a (pos n)) i []) end))))

  data_round :
      (m : Bytes) (a : ℕ) (c : Bytes) (y : ℕ) (rest : Bytes)
      → length c ≤ 2048
      → 2048 ≤ a
      → on_response c false ≡ length c
      → (m' : Bytes) × (a' : ℕ) × (2048 ≤ a')
        × (process_chunk on_response
              (some (state data_chunk m a (pos (length c))))
              (c ++ (y ∷ rest))
            ≡ going
                (state end_chunk m' a' (pos 0))
                (length c)
                (record { body = c; done = false } ∷ []))
  unfolding process_chunk process_flag read_data take_data keep
  data_round m a c y rest le room eats =
      let n = length c in
      let buffer = c ++ (y ∷ rest) in
      let size = length-append c (y ∷ rest) in
      let a2 = if ltb 2048 (0 + length buffer) then 4096 else a in
      let a3 : 2048 ≤ a2 =
        choose (λ k. 2048 ≤ k) (ltb 2048 (0 + length buffer)) 4096 a (λ _. omega arith)
          (λ _. room) in
      let z : 0 + n ≡ n = omega arith in
      let fits : ltb a2 n ≡ false = ground arith in
      let t = take-append c (y ∷ rest) in
      let w = take-append c (drop n m) in
      let filled : ℕ → Bytes → ChunkData = λ k b. record {
        flag = end_chunk;
        memory = b ++ drop k m;
        allocated = a2;
        offset = k;
        malloc_size = 2048;
        bytes_left = pos 0;
      } in
      let given : Bytes → List Response = λ v. record { body = v; done = false } ∷ [] in
      let result : ℕ → Bytes → Bytes → Outcome = λ k b v.
        (if ltb a2 k
          then overrun
          else going (keep on_response (filled k b) n (on_response v false)) n (given v)) in
      (
        c ++ drop n m,
        a2,
        a3,
        if_true (leb n (length buffer)) _ _ (ground arith)
            ∙ (ap (λ k. result k (take n buffer) (take k (take n buffer ++ drop k m))) z
                ∙ (ap (λ b. result n b (take n (b ++ drop n m))) t
                    ∙ (ap (result n c) w
                        ∙ (if_false (ltb a2 n) _ _ fits
                            ∙ (ap (λ bp. going (keep on_response (filled n c) n bp) n (given c))
                                  eats
                                ∙ ap (λ st. going st n (given c))
                                    (if_true (n == n) _ _ (==_refl n))))))),
      )

  end_round :
      (m : Bytes) (a : ℕ) (y : ℕ) (rest : Bytes)
      → process_chunk on_response (some (state end_chunk m a (pos 0))) (line ++ (y ∷ rest))
        ≡ going (state start_chunk m a (pos 0)) 2 []
  unfolding process_chunk process_flag
  end_round m a y rest = if_true (leb 2 (length (line ++ (y ∷ rest)))) _ _ (ground arith)

  -- A chunk of at most 2048 bytes that the user takes whole.
  pub chunk_rounds :
      (f : ℕ) (m : Bytes) (a : ℕ) (c : Bytes) (y : ℕ) (rest : Bytes) (rs : List Response)
      (result : Read)
      → 0 < length c
      → length c ≤ 2048
      → 2048 ≤ a
      → on_response c false ≡ length c
      → ((m' : Bytes) (a' : ℕ)
          → 2048 ≤ a'
          → read_body on_response f
              (some (state start_chunk m' a' (pos 0)))
              (y ∷ rest)
              (rs ++ (record { body = c; done = false } ∷ []))
            ≡ result)
      → read_body on_response
          (suc (suc (suc f)))
          (some (state start_chunk m a (pos 0)))
          (chunk_text c ++ (y ∷ rest))
          rs
        ≡ result
  chunk_rounds f m a [] y rest rs result some_bytes le room eats more = absurd (omega arith)
  chunk_rounds f m a (x ∷ c) y rest rs result some_bytes le room eats more =
      let n = length (x ∷ c) in
      let h = hex n ++ line in
      let r2 = line ++ (y ∷ rest) in
      let (m', a', room', data_step) =
        data_round m a (x ∷ c) b'\r' (b'\n' ∷ y ∷ rest) le room eats in
      let given : List Response = record { body = x ∷ c; done = false } ∷ [] in
      let regroup : chunk_text (x ∷ c) ++ (y ∷ rest) ≡ h ++ ((x ∷ c) ++ r2) =
        append_assoc (hex n) (line ++ ((x ∷ c) ++ line)) (y ∷ rest)
        ∙ (ap (λ t. hex n ++ (line ++ t)) (append_assoc (x ∷ c) line (y ∷ rest))
            ∙ sym (append_assoc (hex n) line ((x ∷ c) ++ r2))) in
      let size_pos : 0 < length h = omega (arith, length-append (hex n) line) in
      ap
        (λ b. read_body on_response (suc (suc (suc f))) (some (state start_chunk m a (pos 0))) b rs)
        regroup
      ∙ (round (suc (suc f)) (state start_chunk m a (pos 0)) (state data_chunk m a (pos n)) h x
            (c ++ r2) rs [] size_pos (size_round m a (pos 0) n x (c ++ r2) some_bytes (omega arith))
          ∙ (ap
                (read_body on_response (suc (suc f)) (some (state data_chunk m a (pos n)))
                  ((x ∷ c) ++ r2))
                (append-nil rs)
              ∙ (round (suc f) (state data_chunk m a (pos n)) (state end_chunk m' a' (pos 0))
                    (x ∷ c) b'\r' (b'\n' ∷ y ∷ rest) rs given some_bytes data_step
                  ∙ (round f (state end_chunk m' a' (pos 0)) (state start_chunk m' a' (pos 0)) line
                        y rest (rs ++ given) [] (omega arith) (end_round m' a' y rest)
                      ∙ (ap
                            (read_body on_response f (some (state start_chunk m' a' (pos 0)))
                              (y ∷ rest))
                            (append-nil (rs ++ given))
                          ∙ more m' a' room')))))

  -- The end of a body.
  pub last_rounds :
      (f : ℕ) (m : Bytes) (a : ℕ) (tail : Bytes) (rs : List Response)
      → read_body on_response
          (suc (suc f))
          (some (state start_chunk m a (pos 0)))
          (last_chunk ++ tail)
          rs
        ≡ complete tail (rs ++ (record { body = []; done = true } ∷ []))
  unfolding read_body process_chunk process_flag read_size read_footer line_end first_text strtol16
      behind_prefix digits_onto digit_value to_int parse_string parse_loop is_delimiter starts
  last_rounds f m a tail rs =
      ap (λ q. complete tail (q ++ (record { body = []; done = true } ∷ []))) (append-nil rs)
