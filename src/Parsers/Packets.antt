-- ===== src/Parsers/Packets.antt =====
-- libIWeb/ILibParsers.c: HTTP messages, `ILibParsePacketHeader` and `ILibGetRawPacket`. The texts of a
-- packet are those that its pointers and lengths denote; the parser's NULs go to the bytes behind
-- them, so that they stay.
pub mod Decimals
pub mod Lines
pub mod Raw
pub mod Size
pub mod Tests
use tv_now.Common.{
  ℕ, zero, suc, ◌+◌, ◌-◌, ◌*◌, ◌/◌, ◌%◌, Bool, true, false, not, ◌&&◌, List, [], ◌∷◌, ◌++◌, Option,
  none, some, ◌>>=◌, Bytes, codes, ◌==◌, ltb, leb, if◌then◌else◌, length, take, drop, starts,
}
use tv_now.Common.Int.{ℤ, pos, negsuc}
use tv_now.MyString.Libc.{is_space, to_int, negated}
use tv_now.Parsers.Split.{Field, text, parse_string, last_result}

-- `struct packetheader_field_node`.
pub record HeaderField : Type 0 where
  pub field : Bytes
  pub field_data : Bytes

-- `struct packetheader`; a request has the status code -1.
pub record Packet : Type 0 where
  pub directive : Bytes
  pub directive_obj : Bytes
  pub status_code : ℤ
  pub status_data : Bytes
  pub version : Bytes
  pub body : Bytes
  pub fields : List HeaderField

-- NULL, or a read through a NULL, or a packet.
pub data Parsed : Type 0 where
  refused null_read : Parsed
  parsed : Packet → Parsed

-- The decimal digits at the front of a text, onto a value.
unfoldable pub decimals_onto : Bytes → ℕ → ℕ
decimals_onto [] n = n
decimals_onto (c ∷ s) n =
    let more = decimals_onto s (n * 10 + (c - b'0')) in if leb b'0' c && leb c b'9' then more else n

-- `(int)atoi(s)`.
unfoldable pub atoi : Bytes → ℤ
unfolding to_int negated decimals_onto
atoi [] = pos 0
atoi (c ∷ s) =
    let skipped = atoi s in
    if is_space c
    then skipped
    else if c == b'-'
    then negated (decimals_onto s 0)
    else if c == b'+'
    then to_int (decimals_onto s 0)
    else to_int (decimals_onto (c ∷ s) 0)

-- The name in front of the first `:`, and what is behind.
unfoldable pub split_line : Bytes → Option (Bytes × Bytes)
split_line [] = none
split_line (c ∷ s) =
    let later = split_line s >>= λ x. some (c ∷ x.0, x.1) in
    if c == b':' then some ([], s) else later

-- `FLNWS` from the byte `i` on, if there is a byte that is not a blank.
unfoldable pub first_no_blank : Bytes → ℕ → Option ℕ
first_no_blank [] i = none
first_no_blank (c ∷ s) i =
    let later = first_no_blank s (i + 1) in if not (c == b' ') then some i else later

-- `FTNWS` in the same way: the last such byte.
unfoldable pub last_no_blank : Bytes → ℕ → Option ℕ
last_no_blank [] i = none
last_no_blank (c ∷ s) i = elim (last_no_blank s (i + 1)) [
  | none ↦ if not (c == b' ') then some i else none
  | some k ↦ some k
]

abbrev pub or_else : Option ℕ → ℕ → ℕ
or_else none n = n
or_else (some k) n = k

-- The data of a header line: blanks at its ends are left out, unless there is nothing else.
unfoldable pub trim : Bytes → Bytes
unfolding first_no_blank last_no_blank
trim [] = []
trim (c ∷ s) =
    let first = or_else (first_no_blank (c ∷ s) 0) 0 in
    let last = or_else (last_no_blank (c ∷ s) 0) (length s) in
    take (last + 1 - first) (drop first (c ∷ s))

-- A header line.
unfoldable pub parse_line : Bytes → Option HeaderField
unfolding split_line trim
parse_line s = split_line s >>= λ x. some (record { field = x.0; field_data = trim x.1 })

-- The header lines, up to an empty one; none for a line without `:`.
unfoldable pub parse_lines : List Field → Option (List HeaderField)
unfolding parse_line
parse_lines [] = some []
parse_lines (f ∷ fs) =
    let later = parse_line (text f) >>= λ h. (parse_lines fs >>= λ hs. some (h ∷ hs)) in
    if f.datalength == 0 then some [] else later

-- The text of the last result.
unfoldable pub last_text : List Field → Bytes
last_text [] = []
last_text (g ∷ gs) = text (last_result g gs)

-- The text behind the last `/` of a field.
unfoldable pub behind_slash : Field → Bytes
unfolding parse_string last_text
behind_slash f = last_text (parse_string f.start 0 f.datalength (b'/' ∷ []))

-- The packet of the words of a start line and of the header fields.
unfoldable pub start_line : List Field → List HeaderField → Parsed
unfolding starts atoi behind_slash
start_line [] hs = refused
start_line (w ∷ []) hs = if starts (codes "HTTP/") w.start then null_read else refused
start_line (w ∷ v ∷ ws) hs =
    let response : Parsed = elim ws [
      | [] ↦ null_read
      | u ∷ us ↦ parsed (record {
        directive = [];
        directive_obj = [];
        status_code = atoi (text v);
        status_data = text u;
        version = behind_slash w;
        body = [];
        fields = hs;
      })
    ] in
    if starts (codes "HTTP/") w.start
    then response
    else parsed (record {
      directive = text w;
      directive_obj = text v;
      status_code = negsuc 0;
      status_data = [];
      version = behind_slash (last_result v ws);
      body = [];
      fields = hs;
    })

-- A header line that is refused makes the packet NULL, if the start line has made one.
abbrev pub without_lines : Parsed → Parsed
without_lines (parsed p) = refused
without_lines refused = refused
without_lines null_read = null_read

-- The packet of the lines of a message.
unfoldable pub parse_message : List Field → Parsed
unfolding parse_string start_line parse_lines
parse_message [] = refused
parse_message (f ∷ lines) =
    let words = parse_string f.start 0 f.datalength (b' ' ∷ []) in
    elim (parse_lines lines) [
      | none ↦ without_lines (start_line words [])
      | some hs ↦ start_line words hs
    ]

unfoldable pub parse_packet_header : Bytes → ℕ → ℕ → Parsed
unfolding parse_string parse_message
parse_packet_header buffer offset end =
    parse_message (parse_string buffer offset end (b'\r' ∷ b'\n' ∷ []))

-- `sprintf("%d")` of an `int`.
unfoldable pub decimal_onto : ℕ → ℕ → Bytes → Bytes
decimal_onto zero n s = s
decimal_onto (suc f) n s =
    let more = decimal_onto f (n / 10) ((b'0' + n % 10) ∷ s) in
    if ltb n 10 then (b'0' + n) ∷ s else more

abbrev pub decimal : ℤ → Bytes
decimal (pos n) = decimal_onto 10 n []
decimal (negsuc n) = b'-' ∷ decimal_onto 10 (n + 1) []

abbrev pub crlf : Bytes
crlf = b'\r' ∷ b'\n' ∷ []

-- `packet->StatusCode!=-1`.
abbrev pub is_response : ℤ → Bool
is_response (pos n) = true
is_response (negsuc n) = not (n == 0)

-- The start line that `ILibGetRawPacket` writes.
abbrev pub raw_start : Packet → Bytes
raw_start p =
    if is_response p.status_code
    then codes "HTTP/" ++ (p.version ++ (b' ' ∷ (decimal p.status_code ++ (b' ' ∷ p.status_data))))
    else p.directive ++ (b' ' ∷ (p.directive_obj ++ (codes " HTTP/" ++ p.version)))

abbrev pub raw_line : HeaderField → Bytes
raw_line h = h.field ++ (codes ": " ++ h.field_data)

unfoldable pub raw_lines : List HeaderField → Bytes
raw_lines [] = []
raw_lines (h ∷ hs) = raw_line h ++ (crlf ++ raw_lines hs)

-- What `ILibGetRawPacket` writes, but for the closing NUL.
unfoldable pub get_raw_packet : Packet → Bytes
unfolding decimal_onto raw_lines
get_raw_packet p = raw_start p ++ (crlf ++ (raw_lines p.fields ++ (crlf ++ p.body)))

-- The size of the fields as it counts them, and `BufferSize` where it allocates the buffer.
unfoldable pub lines_size : List HeaderField → ℕ
lines_size [] = 0
lines_size (h ∷ hs) = length h.field + length h.field_data + 4 + lines_size hs

unfoldable pub buffer_size : Packet → ℕ
unfolding lines_size
buffer_size p =
    (if is_response p.status_code
      then 12 + length p.version + length p.status_data
      else length p.directive + length p.directive_obj + 12)
    + lines_size p.fields
    + (3 + length p.body)
