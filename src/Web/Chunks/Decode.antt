-- ===== src/Web/Chunks/Decode.antt =====
-- What the decoder of chunked bodies gives of a body that is cut into chunks.
use tv_now.Common.{
  ℕ, zero, suc, ◌+◌, ◌*◌, ◌≤◌, ◌<◌, Bool, true, false, List, [], ◌∷◌, ◌++◌, none, some, ◌≡◌, ◌≢◌,
  refl, sym, ap, ◌∙◌, Bytes, length, append_assoc, All, arith,
}
use tv_now.Common.Int.{pos}
use tv_now.Web.Chunks.{start_chunk, new_chunk, Response, process_chunk, complete, read_body}
use tv_now.Web.Chunks.Hex.{hex, hex-some}
use tv_now.Web.Chunks.Rounds.{line, chunk_text, last_chunk, state, chunk_rounds, last_rounds}

-- A body in chunks.
abbrev pub body_text : List Bytes → Bytes
body_text [] = last_chunk
body_text (c ∷ cs) = chunk_text c ++ body_text cs

first_byte : (s : Bytes) → s ≢ [] → (y : ℕ) × (rest : Bytes) × (s ≡ y ∷ rest)
first_byte [] h = absurd (h refl)
first_byte (y ∷ rest) h = (y, rest, refl)

append_some : (s t : Bytes) → s ≢ [] → s ++ t ≢ []
append_some [] t h = absurd (h refl)
append_some (c ∷ s) t h = λ z. cc

body_text_some : (cs : List Bytes) (tail : Bytes) → body_text cs ++ tail ≢ []
body_text_some [] tail = λ z. cc
body_text_some (c ∷ cs) tail = append_some (body_text (c ∷ cs)) tail (
    append_some (chunk_text c) (body_text cs)
      (append_some (hex (length c)) (line ++ (c ++ line)) (hex-some (length c))))

-- The calls of `OnResponse` for a body in chunks.
abbrev pub responses : List Bytes → List Response
responses [] = record { body = []; done = true } ∷ []
responses (c ∷ cs) = record { body = c; done = false } ∷ responses cs

-- A chunk that the decoder has room for.
abbrev pub FitsChunk : Bytes → Type 0
FitsChunk c = (0 < length c) × (length c ≤ 2048)

body_rounds :
    (on_response : Bytes → Bool → ℕ)
    → ((c : Bytes) → on_response c false ≡ length c)
    → (cs : List Bytes) (f : ℕ) (m : Bytes) (a : ℕ) (tail : Bytes) (rs : List Response)
    → All FitsChunk cs
    → 3 * length cs + 2 ≤ f
    → 2048 ≤ a
    → read_body on_response f (some (state start_chunk m a (pos 0))) (body_text cs ++ tail) rs
      ≡ complete tail (rs ++ responses cs)
body_rounds on eats [] zero m a tail rs h enough room = absurd (omega arith)
body_rounds on eats [] (suc zero) m a tail rs h enough room = absurd (omega arith)
body_rounds on eats [] (suc (suc f)) m a tail rs h enough room = last_rounds on f m a tail rs
body_rounds on eats (c ∷ cs) zero m a tail rs h enough room = absurd (omega arith)
body_rounds on eats (c ∷ cs) (suc zero) m a tail rs h enough room = absurd (omega arith)
body_rounds on eats (c ∷ cs) (suc (suc zero)) m a tail rs h enough room = absurd (omega arith)
body_rounds on eats (c ∷ cs) (suc (suc (suc f))) m a tail rs ((some_bytes, le), h) enough room =
    let given : List Response = record { body = c; done = false } ∷ [] in
    let (y, rest, e) = first_byte (body_text cs ++ tail) (body_text_some cs tail) in
    ap (λ b. read_body on (suc (suc (suc f))) (some (state start_chunk m a (pos 0))) b rs)
      (append_assoc (chunk_text c) (body_text cs) tail ∙ ap (◌++◌ (chunk_text c)) e)
    ∙ chunk_rounds on f m a c y rest rs (complete tail (rs ++ responses (c ∷ cs))) some_bytes le
        room (eats c)
        (λ m' a' room'.
          ap (λ b. read_body on f (some (state start_chunk m' a' (pos 0))) b (rs ++ given)) (sym e)
          ∙ (body_rounds on eats cs f m' a' tail (rs ++ given) h (omega arith) room'
              ∙ ap (complete tail) (append_assoc rs given (responses cs))))

read_body_new :
    (on_response : Bytes → Bool → ℕ) (f : ℕ) (buffer : Bytes)
    → buffer ≢ []
    → read_body on_response (suc f) none buffer []
      ≡ read_body on_response (suc f) (some new_chunk) buffer []
unfolding read_body process_chunk
read_body_new on f [] h = absurd (h refl)
read_body_new on f (x ∷ s) h = refl

-- A body cut into chunks that are not empty and have at most 2048 bytes each, with any bytes behind it,
-- all of it in the buffer, and a user that takes all it is given: within three rounds for each chunk and two
-- for the end the decoder has called `OnResponse` with each chunk, in order, and then for the
-- end, and leaves the bytes behind the body.
pub read_body-body_text :
    (on_response : Bytes → Bool → ℕ)
    → ((c : Bytes) → on_response c false ≡ length c)
    → (cs : List Bytes) (f : ℕ) (tail : Bytes) → All FitsChunk cs
    → 3 * length cs + 2 ≤ f
    → read_body on_response f none (body_text cs ++ tail) [] ≡ complete tail (responses cs)
read_body-body_text on eats cs zero tail h enough = absurd (omega arith)
read_body-body_text on eats cs (suc f) tail h enough =
    read_body_new on f (body_text cs ++ tail) (body_text_some cs tail)
    ∙ body_rounds on eats cs (suc f) [] 2048 tail [] h enough (omega arith)
