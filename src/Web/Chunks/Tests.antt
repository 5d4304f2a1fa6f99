-- ===== src/Web/Chunks/Tests.antt =====
-- The decoder of chunked bodies, run on short ones.
use tv_now.Common.{
  ℕ, Bool, true, false, ◌≡◌, refl, List, [], ◌∷◌, ◌++◌, none, Bytes, codes, length, starts, arith,
}
use tv_now.Parsers.Split.{parse_string, parse_loop, is_delimiter}
use tv_now.MyString.Libc.{to_int, negated}
use tv_now.Web.Chunks.{
  Response, Read, waiting, complete, crashed, read_body, process_chunk, process_flag, read_size,
  read_data, read_footer, take_data, keep, line_end, first_text, strtol16, behind_prefix,
  digits_onto, digit_value,
}
use tv_now.Web.Chunks.Decode.{body_text, responses, read_body-body_text}

-- The bodies given, and after them a mark for the end.
abbrev given : List Response → List Bytes
given [] = []
given (r ∷ rs) = r.body ∷ given rs

abbrev outcome : Read → Bool × List Bytes
outcome (waiting c buffer rs) = (false, given rs)
outcome (complete buffer rs) = (true, given rs)
outcome crashed = (false, [])

abbrev all_of_it : Bytes → Bool → ℕ
all_of_it w done = length w

abbrev one_byte : Bytes → Bool → ℕ
one_byte w done = 1

read_body-body_text_example :
    read_body all_of_it 9 none (body_text (codes "ab" ∷ codes "c" ∷ []) ++ codes "HTTP") []
    ≡ complete (codes "HTTP") (responses (codes "ab" ∷ codes "c" ∷ []))
read_body-body_text_example =
    read_body-body_text all_of_it (λ c. refl) (codes "ab" ∷ codes "c" ∷ []) 9 (codes "HTTP")
      ((omega arith, omega arith), ((omega arith, omega arith), tt)) (omega arith)

-- A trailer behind the last chunk is never passed over.
trailer_test :
    outcome (read_body all_of_it 20 none (codes "2\r\nab\r\n0\r\nA: b\r\n\r\n") [])
    ≡ (false, codes "ab" ∷ [])
unfolding read_body process_chunk process_flag read_size read_data read_footer take_data keep
    line_end first_text strtol16 behind_prefix digits_onto digit_value to_int negated parse_string
    parse_loop is_delimiter starts
trailer_test = refl

-- A user that takes the first byte of two gets that byte again, not the second.
kept_test :
    outcome (read_body one_byte 20 none (codes "2\r\nab\r\n1\r\nc\r\n") [])
    ≡ (false, codes "ab" ∷ codes "ac" ∷ [])
unfolding read_body process_chunk process_flag read_size read_data read_footer take_data keep
    line_end first_text strtol16 behind_prefix digits_onto digit_value to_int negated parse_string
    parse_loop is_delimiter starts
kept_test = refl

-- An extension behind a `;` is passed over.
extension_test :
    outcome (read_body all_of_it 20 none (codes "2;a=1\r\nab\r\n0\r\n\r\n") [])
    ≡ (true, codes "ab" ∷ [] ∷ [])
unfolding read_body process_chunk process_flag read_size read_data read_footer take_data keep
    line_end first_text strtol16 behind_prefix digits_onto digit_value to_int negated parse_string
    parse_loop is_delimiter starts
extension_test = refl
