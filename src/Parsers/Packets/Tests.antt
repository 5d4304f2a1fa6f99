-- ===== src/Parsers/Packets/Tests.antt =====
-- Messages, written and read.
use tv_now.Common.{
  ℕ, ◌+◌, Bool, true, not, ◌&&◌, [], ◌∷◌, Option, none, some, ◌≡◌, ◌++◌, refl, Bytes, codes, ◌==◌,
  if◌then◌else◌, length, Lacks, starts, arith,
}
use tv_now.Common.Int.{ℤ, pos, negsuc}
use tv_now.MyString.Libc.{to_int, negated}
use tv_now.Parsers.Split.{parse_string, parse_loop, is_delimiter}
use tv_now.Parsers.Packets.{
  HeaderField, Packet, Parsed, parsed, refused, null_read, decimal, parse_packet_header,
  parse_message, parse_lines, parse_line, split_line, trim, first_no_blank, last_no_blank,
  start_line, behind_slash, last_text, atoi, decimals_onto, raw_lines, get_raw_packet, buffer_size,
  is_response,
}
use tv_now.Parsers.Packets.Lines.{IsField}
use tv_now.Parsers.Packets.Raw.{IsRequest, parse_packet_header-get_raw_packet}
use tv_now.Parsers.Packets.Size.{get_raw_packet-buffer_size}

abbrev host : HeaderField
host = record { field = codes "Host"; field_data = codes "a b" }

abbrev request : Packet
request = record {
  directive = codes "GET";
  directive_obj = codes "/";
  status_code = negsuc 0;
  status_data = [];
  version = codes "1.1";
  body = codes "x\r\ny";
  fields = host ∷ [];
}

raw_test : get_raw_packet request ≡ codes "GET / HTTP/1.1\r\nHost: a b\r\n\r\nx\r\ny"
unfolding get_raw_packet raw_lines
raw_test = refl

abbrev lacks : ℕ → Bytes → Bool
lacks b [] = true
lacks b (c ∷ s) = not (c == b) && lacks b s

lacks-Lacks : (b : ℕ) (s : Bytes) → lacks b s ≡ true → Lacks b s
lacks-Lacks b [] h = tt
lacks-Lacks b (c ∷ s) h = (ground arith, lacks-Lacks b s (ground arith))

host-IsField : IsField host
host-IsField = record {
  no_colon = lacks-Lacks b':' (codes "Host") refl;
  no_return = lacks-Lacks b'\r' (codes "Host: a b") refl;
  starts_plain = omega arith;
  ends_plain = omega arith;
}

request-IsRequest : IsRequest request
unfolding starts
request-IsRequest = record {
  is_request = refl;
  no_status = refl;
  directive_ends = lacks-Lacks b' ' (codes "GET") refl;
  obj_ends = lacks-Lacks b' ' (codes "/") refl;
  version_ends = lacks-Lacks b' ' (codes "1.1") refl;
  no_slash = lacks-Lacks b'/' (codes "1.1") refl;
  no_response = refl;
  no_return = lacks-Lacks b'\r' (codes "GET / HTTP/1.1") refl;
  fields_ok = (host-IsField, tt);
}

parse_packet_header-get_raw_packet_example :
    parse_packet_header (get_raw_packet request ++ codes "GET") 0 (length (get_raw_packet request))
    ≡ parsed (record request { body = [] })
parse_packet_header-get_raw_packet_example =
    parse_packet_header-get_raw_packet request (codes "GET") request-IsRequest

-- A status code of four decimals does not fit.
abbrev long_status : Packet
long_status = record request { status_code = pos 1000; status_data = codes "OK" }

get_raw_packet-buffer_size_example :
    length (get_raw_packet long_status) + 1 + 3
    ≡ buffer_size long_status
      + (if is_response long_status.status_code
          then length (decimal long_status.status_code)
          else length long_status.version)
get_raw_packet-buffer_size_example = get_raw_packet-buffer_size long_status

abbrev status_of : Parsed → Option (ℤ × Bytes)
status_of (parsed p) = some (p.status_code, p.status_data)
status_of refused = none
status_of null_read = none

-- Of the text of a status only the first word is kept.
status_test :
    status_of (parse_packet_header (codes "HTTP/1.1 404 Not Found") 0 22)
    ≡ some (pos 404, codes "Not")
unfolding parse_packet_header parse_message parse_lines start_line behind_slash last_text atoi
    decimals_onto to_int negated parse_string parse_loop is_delimiter starts
status_test = refl

-- A status line without a text is read through a NULL.
short_status_test : parse_packet_header (codes "HTTP/1.1 200") 0 12 ≡ null_read
unfolding parse_packet_header parse_message parse_lines start_line behind_slash last_text atoi
    decimals_onto to_int negated parse_string parse_loop is_delimiter starts
short_status_test = refl

-- Header data of blanks only keep them.
blank_test :
    parse_line (codes "A:  ") ≡ some (record { field = codes "A"; field_data = codes "  " })
unfolding parse_line split_line trim first_no_blank last_no_blank
blank_test = refl
