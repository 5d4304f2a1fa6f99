-- ===== src/Parsers/Split.antt =====
-- libIWeb/ILibParsers.c: `ILibIsDelimiter`, `ILibParseString`, `ILibParseStringAdv`.
-- A result field is a pointer into the buffer (the bytes from there on) and a length.
-- `length` is the end index of the scan, as in the source, where `offset` is its first index.
pub mod Rounds
pub mod RoundTrip
pub mod Rejoin
pub mod Fields
pub mod Parts
pub mod Quoted
use tv_now.Common.{
  ℕ, zero, suc, ◌+◌, ◌-◌, Bool, true, false, not, ◌&&◌, ◌||◌, List, [], ◌∷◌, ◌++◌, map, Bytes, ltb,
  ◌==◌, if◌then◌else◌, length, take, drop, starts,
}

-- `struct parser_result_field`.
pub record Field : Type 0 where
  pub start : Bytes
  pub datalength : ℕ

-- The bytes that a field denotes.
abbrev pub text : Field → Bytes
text f = take f.datalength f.start

-- `p` points at `buffer[offset]`, and `left` is `buffersize - offset`.
unfoldable pub is_delimiter : Bytes → ℕ → Bytes → Bool
unfolding starts
is_delimiter p left delimiter = if ltb left (length delimiter) then false else starts delimiter p

-- The loop of `ILibParseString`: `p` points at `buffer[i]`, `left` is `length - i`. A round takes
-- at least one byte off `left` (for a delimiter with a byte), so `left` rounds end the loop.
unfoldable pub parse_loop : ℕ → Bytes → ℕ → Bytes → Bytes → ℕ → List Field
parse_loop zero p left delimiter token token_length =
    record { start = token; datalength = token_length } ∷ []
parse_loop (suc f) p left delimiter token token_length =
    let d = length delimiter in
    let next = drop (token_length + d) token in
    let cut = parse_loop f (drop d p) (left - d) delimiter next 0 in
    let longer = parse_loop f (drop 1 p) (left - 1) delimiter token (token_length + 1) in
    let here : Field = record { start = token; datalength = token_length } in
    if left == 0 then here ∷ [] else if is_delimiter p left delimiter then here ∷ cut else longer

unfoldable pub parse_string : Bytes → ℕ → ℕ → Bytes → List Field
unfolding parse_loop is_delimiter
parse_string buffer offset end delimiter =
    let p = drop offset buffer in parse_loop (end - offset) p (end - offset) delimiter p 0

-- The quote state of `ILibParseStringAdv`: `StringDelimiter` (0 for none) and `Ignore`.
pub record Quote : Type 0 where
  pub string_delimiter : ℕ
  pub ignore : Bool

-- What a round does to it at the byte `c`.
pub quote_step : Quote → ℕ → Quote
quote_step q c =
    if q.string_delimiter == 0
    then (if c == b'"'
        then record { string_delimiter = b'"'; ignore = true }
        else if c == b'\''
        then record { string_delimiter = b'\''; ignore = true }
        else q)
    else if c == q.string_delimiter
    then record q { ignore = not q.ignore }
    else q

-- The byte under the pointer.
abbrev pub first : Bytes → ℕ
first [] = 0
first (c ∷ s) = c

parse_loop_adv : ℕ → Bytes → ℕ → Bytes → Bytes → ℕ → Quote → List Field
parse_loop_adv zero p left delimiter token token_length q =
    record { start = token; datalength = token_length } ∷ []
parse_loop_adv (suc f) p left delimiter token token_length q =
    let d = length delimiter in
    let q' = quote_step q (first p) in
    let next = drop (token_length + d) token in
    let cut = parse_loop_adv f (drop d p) (left - d) delimiter next 0 q' in
    let longer = parse_loop_adv f (drop 1 p) (left - 1) delimiter token (token_length + 1) q' in
    let here : Field = record { start = token; datalength = token_length } in
    if left == 0
    then here ∷ []
    else if not q'.ignore && is_delimiter p left delimiter
    then here ∷ cut
    else longer

unfoldable pub parse_string_adv : Bytes → ℕ → ℕ → Bytes → List Field
unfolding parse_loop_adv is_delimiter quote_step
parse_string_adv buffer offset end delimiter =
    let p = drop offset buffer in
    parse_loop_adv (end - offset) p (end - offset) delimiter p 0
      (record { string_delimiter = 0; ignore = false })

-- The texts of the fields, in order.
abbrev pub texts : List Field → List Bytes
texts [] = []
texts (f ∷ fs) = text f ∷ texts fs

-- `RetVal->LastResult` of a result with this first field.
abbrev pub last_result : Field → List Field → Field
last_result f [] = f
last_result f (g ∷ gs) = last_result g gs
