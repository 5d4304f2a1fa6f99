-- ===== src/Web/Chunks.antt =====
-- libIWeb/ILibWebClient.c: `ILibWebClient_ProcessChunk`, the decoder of a chunked body, and the loop
-- of libIWeb/ILibAsyncSocket.c (`ILibProcessAsyncSocket`) that calls it, through
-- `ILibWebClient_OnData`, until it takes nothing. The user's `OnResponse` is a parameter: by the bytes
-- it is given and whether they are the last, how many it takes.
pub mod Hex
pub mod Rounds
pub mod Decode
pub mod Tests
use tv_now.Common.{
  ℕ, zero, suc, ◌+◌, ◌-◌, ◌*◌, ◌%◌, Bool, true, false, not, ◌&&◌, ◌||◌, List, [], ◌∷◌, ◌++◌, Option,
  none, some, Bytes, ◌==◌, ltb, leb, if◌then◌else◌, length, take, drop,
}
use tv_now.Common.Int.{ℤ, pos, negsuc}
use tv_now.MyString.Libc.{is_space, to_int, negated}
use tv_now.Parsers.Split.{Field, text, parse_string}

-- The value of a hexadecimal digit.
unfoldable pub digit_value : ℕ → Option ℕ
digit_value c =
    if leb b'0' c && leb c b'9'
    then some (c - b'0')
    else if leb b'A' c && leb c b'F'
    then some (c - b'A' + 10)
    else if leb b'a' c && leb c b'f'
    then some (c - b'a' + 10)
    else none

-- The digits at the front of a text, onto a value.
unfoldable pub digits_onto : Bytes → ℕ → ℕ
unfolding digit_value
digits_onto [] n = n
digits_onto (c ∷ s) n = elim (digit_value c) [ none ↦ n | some v ↦ digits_onto s (n * 16 + v) ]

-- A text behind `0x`, if a digit follows.
unfoldable pub behind_prefix : Bytes → Bytes
unfolding digit_value
behind_prefix [] = []
behind_prefix (a ∷ []) = a ∷ []
behind_prefix (a ∷ b ∷ []) = a ∷ b ∷ []
behind_prefix (a ∷ b ∷ c ∷ s) =
    if a == b'0' && (b == b'x' || b == b'X')
    then elim (digit_value c) [ none ↦ a ∷ b ∷ c ∷ s | some v ↦ c ∷ s ]
    else a ∷ b ∷ c ∷ s

-- `(int)strtol(s, &hex, 16)`.
unfoldable pub strtol16 : Bytes → ℤ
unfolding to_int negated digits_onto behind_prefix
strtol16 [] = pos 0
strtol16 (c ∷ s) =
    let skipped = strtol16 s in
    if is_space c
    then skipped
    else if c == b'-'
    then negated (digits_onto (behind_prefix s) 0)
    else if c == b'+'
    then to_int (digits_onto (behind_prefix s) 0)
    else to_int (digits_onto (behind_prefix (c ∷ s)) 0)

-- STARTCHUNK, ENDCHUNK, DATACHUNK and FOOTERCHUNK.
pub data Flag : Type 0 where
  start_chunk end_chunk data_chunk footer_chunk : Flag

-- `struct ILibWebClient_ChunkData`: `memory` is what has been written to `buffer`, and `allocated`
-- the size that it has, which `malloc_size` does not follow.
pub record ChunkData : Type 0 where
  pub flag : Flag
  pub memory : Bytes
  pub allocated : ℕ
  pub offset : ℕ
  pub malloc_size : ℕ
  pub bytes_left : ℤ

abbrev pub new_chunk : ChunkData
new_chunk = record {
  flag = start_chunk;
  memory = [];
  allocated = 2048;
  offset = 0;
  malloc_size = 2048;
  bytes_left = pos 0;
}

-- A call of `OnResponse`: the bytes, and whether they are the last.
pub record Response : Type 0 where
  pub body : Bytes
  pub done : Bool

-- What a call comes to: the state, how many bytes it has taken and the responses; or the end of the
-- body; or a write behind the buffer.
pub data Outcome : Type 0 where
  going : ChunkData → ℕ → List Response → Outcome
  finished : ℕ → List Response → Outcome
  overrun : Outcome

-- The index behind the first line end, which a further byte must follow: the loop of STARTCHUNK with
-- `i` bytes from the start of the buffer to behind the next two.
unfoldable pub line_end : Bytes → ℕ → Option ℕ
line_end [] i = none
line_end (a ∷ []) i = none
line_end (a ∷ b ∷ []) i = none
line_end (a ∷ b ∷ c ∷ s) i =
    let later = line_end (b ∷ c ∷ s) (i + 1) in if a == b'\r' && b == b'\n' then some i else later

-- The text of the first result.
unfoldable pub first_text : List Field → Bytes
first_text [] = []
first_text (f ∷ fs) = text f

unfoldable pub read_size : ChunkData → Bytes → Option ℕ → Outcome
unfolding strtol16 parse_string first_text
read_size chunk buffer none = going chunk 0 []
read_size chunk buffer (some i) =
    let size = strtol16 (first_text (parse_string buffer 0 (i - 2) (b';' ∷ []))) in
    let flag' : Flag = elim size [
      | pos n ↦ (if n == 0 then footer_chunk else data_chunk)
      | negsuc n ↦ data_chunk
    ] in
    going (record chunk { bytes_left = size; flag = flag' }) i []

module _ (on_response : Bytes → Bool → ℕ) where
  -- What is kept of the buffer after `OnResponse` has taken `bp` of it; `i` bytes are new.
  unfoldable pub keep : ChunkData → ℕ → ℕ → ChunkData
  keep chunk i bp =
      if bp == i then record chunk { offset = 0 } else if bp == 0 then chunk else record chunk {
        memory = take bp chunk.memory ++ (take (i - bp) chunk.memory ++ drop i chunk.memory);
        offset = chunk.offset - bp;
      }

  -- DATACHUNK, with `i` bytes to take.
  unfoldable pub take_data : ChunkData → Bytes → ℕ → Outcome
  unfolding keep
  take_data chunk buffer i =
      let allocated' =
        if ltb chunk.malloc_size (chunk.offset + length buffer)
        then chunk.malloc_size + 2048
        else chunk.allocated in
      let filled = record chunk {
        allocated = allocated';
        memory =
            take chunk.offset chunk.memory
            ++ (take i buffer ++ drop (chunk.offset + i) chunk.memory);
        offset = chunk.offset + i;
      } in
      let window = take filled.offset filled.memory in
      if ltb allocated' (chunk.offset + i)
      then overrun
      else going (keep filled i (on_response window false)) i
          (record { body = window; done = false } ∷ [])

  unfoldable pub read_data : ChunkData → Bytes → ℤ → Outcome
  unfolding take_data
  read_data chunk buffer (negsuc n) = overrun
  read_data chunk buffer (pos n) =
      if leb n (length buffer)
      then take_data (record chunk { flag = end_chunk; bytes_left = pos 0 }) buffer n
      else take_data (record chunk { bytes_left = pos (n - length buffer) }) buffer (length buffer)

  -- FOOTERCHUNK: only an empty line at the front ends it.
  unfoldable pub read_footer : ChunkData → Bytes → Outcome
  read_footer chunk [] = going chunk 0 []
  read_footer chunk (a ∷ []) = going chunk 0 []
  read_footer chunk (a ∷ b ∷ s) =
      if a == b'\r' && b == b'\n'
      then finished 2 (record { body = take chunk.offset chunk.memory; done = true } ∷ [])
      else going chunk 0 []

  unfoldable pub process_flag : Flag → ChunkData → Bytes → Outcome
  unfolding read_size line_end read_data read_footer
  process_flag start_chunk chunk buffer = read_size chunk buffer (line_end buffer 2)
  process_flag end_chunk chunk buffer =
      if leb 2 (length buffer)
      then going (record chunk { flag = start_chunk }) 2 []
      else going chunk 0 []
  process_flag data_chunk chunk buffer = read_data chunk buffer chunk.bytes_left
  process_flag footer_chunk chunk buffer = read_footer chunk buffer

  unfoldable pub process_chunk : Option ChunkData → Bytes → Outcome
  unfolding process_flag
  process_chunk none buffer = process_flag start_chunk new_chunk buffer
  process_chunk (some chunk) buffer = process_flag chunk.flag chunk buffer

-- Where the loop around `OnData` stops: it waits for more bytes, or the body has ended.
pub data Read : Type 0 where
  waiting : Option ChunkData → Bytes → List Response → Read
  complete : Bytes → List Response → Read
  crashed : Read

module _ (on_response : Bytes → Bool → ℕ) where
  -- The loop, on the bytes that have arrived; each round takes at least one.
  unfoldable pub read_body : ℕ → Option ChunkData → Bytes → List Response → Read
  unfolding process_chunk
  read_body zero c buffer rs = waiting c buffer rs
  read_body (suc f) c [] rs = waiting c [] rs
  read_body (suc f) c (a ∷ s) rs = elim (process_chunk on_response c (a ∷ s)) [
    | going c' n more ↦
        let next = read_body f (some c') (drop n (a ∷ s)) (rs ++ more) in
        if n == 0 then waiting (some c') (a ∷ s) (rs ++ more) else next
    | finished n more ↦ complete (drop n (a ∷ s)) (rs ++ more)
    | overrun ↦ crashed
  ]
