-- ===== src/Parsers/Packets/Raw.antt =====
-- Requests that `ILibGetRawPacket` writes and `ILibParsePacketHeader` reads.
use native.Mathlib.Nat.{zero-add}
use tv_now.Common.{
  ℕ, false, ◌&&◌, List, [], ◌∷◌, ◌++◌, map, Option, none, some, ◌≡◌, refl, sym, ap, ◌∙◌, Bytes,
  codes, ◌==◌, if_false, length, take, take-append, append_assoc, All, Lacks, arith, starts,
}
use tv_now.Common.Int.{ℤ, negsuc}
use tv_now.Parsers.Split.{Field, parse_string}
use tv_now.Parsers.Split.Rounds.{join}
use tv_now.Parsers.Split.Fields.{cuts, parse_string-cuts, parse_string-empty_part}
use tv_now.Parsers.Packets.{
  HeaderField, Packet, Parsed, parsed, start_line, behind_slash, last_text, without_lines,
  parse_message, parse_packet_header, raw_start, raw_line, raw_lines, crlf, get_raw_packet,
  is_response,
}
use tv_now.Parsers.Packets.Lines.{IsField, parse_lines-raw_line, text_cut}

-- A request as it can be written.
pub record IsRequest (p : Packet) : Type 0 where
  pub is_request : p.status_code ≡ negsuc 0
  pub no_status : p.status_data ≡ []
  pub directive_ends : Lacks b' ' p.directive
  pub obj_ends : Lacks b' ' p.directive_obj
  pub version_ends : Lacks b' ' p.version
  pub no_slash : Lacks b'/' p.version
  pub no_response : starts (codes "HTTP/") (p.directive ++ (b' ' ∷ [])) ≡ false
  pub no_return : Lacks b'\r' (raw_start p)
  pub fields_ok : All IsField p.fields

-- The start line and the header lines.
abbrev pub head : Packet → Bytes
head p = join crlf (raw_start p ∷ map raw_line p.fields)

raw_lines-join :
    (a : Bytes) (hs : List HeaderField) (s : Bytes)
    → a ++ (crlf ++ (raw_lines hs ++ s)) ≡ join crlf (a ∷ map raw_line hs) ++ (crlf ++ s)
unfolding raw_lines
raw_lines-join a [] s = refl
raw_lines-join a (h ∷ hs) s =
    ap (λ t. a ++ (crlf ++ t))
      (append_assoc (raw_line h) (crlf ++ raw_lines hs) s ∙ raw_lines-join (raw_line h) hs s)
    ∙ sym (append_assoc a (crlf ++ join crlf (map raw_line (h ∷ hs))) (crlf ++ s))

pub get_raw_packet-head : (p : Packet) → get_raw_packet p ≡ head p ++ (crlf ++ (crlf ++ p.body))
unfolding get_raw_packet
get_raw_packet-head p = raw_lines-join (raw_start p) p.fields (crlf ++ p.body)

-- The fields of parts at the front of a buffer.
front_cuts :
    (a : ℕ) (d tail p : Bytes) (ps : List Bytes)
    → All (Lacks a) (p ∷ ps)
    → parse_string (join (a ∷ d) (p ∷ ps) ++ tail) 0 (length (join (a ∷ d) (p ∷ ps))) (a ∷ d)
      ≡ cuts (a ∷ d) (p ∷ ps) tail
front_cuts a d tail p ps h =
    ap (λ n. parse_string (join (a ∷ d) (p ∷ ps) ++ tail) 0 n (a ∷ d))
      (sym (zero-add (length (join (a ∷ d) (p ∷ ps)))))
    ∙ parse_string-cuts a d [] tail p ps h

lines-Lacks : (hs : List HeaderField) → All IsField hs → All (Lacks b'\r') (map raw_line hs)
lines-Lacks [] h = tt
lines-Lacks (f ∷ fs) (hf, h) = (hf.no_return, lines-Lacks fs h)

starts_word :
    (p u s : Bytes) → Lacks b' ' p → starts p (u ++ (b' ' ∷ s)) ≡ starts p (u ++ (b' ' ∷ []))
unfolding starts
starts_word [] u s h = refl
starts_word (a ∷ p) [] s (ha, h) =
    let e : (b' ' == a) ≡ false = ground arith in
    ap (λ b. b && starts p s) e ∙ sym (ap (λ b. b && starts p []) e)
starts_word (a ∷ p) (c ∷ u) s (ha, h) = ap (λ b. c == a && b) (starts_word p u s h)

behind_slash-version :
    (v tail : Bytes)
    → Lacks b'/' v
    → behind_slash
        (record { start = (codes "HTTP/" ++ v) ++ tail; datalength = length (codes "HTTP/" ++ v) })
      ≡ v
unfolding behind_slash last_text
behind_slash-version v tail h =
    ap last_text (
      front_cuts b'/' [] tail (codes "HTTP") (v ∷ [])
        ((omega arith, (omega arith, (omega arith, (omega arith, tt)))), (h, tt)))
    ∙ take-append v tail

-- The words of a request line.
abbrev words : Packet → List Bytes
words p = p.directive ∷ p.directive_obj ∷ (codes "HTTP/" ++ p.version) ∷ []

words-Lacks : (p : Packet) → IsRequest p → All (Lacks b' ') (words p)
words-Lacks p h = (
  h.directive_ends,
  (
    h.obj_ends,
    ((omega arith, (omega arith, (omega arith, (omega arith, (omega arith, h.version_ends))))), tt),
  ),
)

raw_start-words : (p : Packet) → IsRequest p → raw_start p ≡ join (b' ' ∷ []) (words p)
raw_start-words p h = if_false (is_response p.status_code) _ _ (ap is_response h.is_request)

-- The start line, with anything behind it.
start_line-request :
    (p : Packet) (tail : Bytes)
    → IsRequest p
    → start_line (cuts (b' ' ∷ []) (words p) tail) p.fields ≡ parsed (record p { body = [] })
unfolding start_line
start_line-request p tail h =
    let rest = b' ' ∷ (p.directive_obj ++ (b' ' ∷ (codes "HTTP/" ++ p.version))) in
    let no : starts (codes "HTTP/") (join (b' ' ∷ []) (words p) ++ tail) ≡ false =
      ap (starts (codes "HTTP/")) (append_assoc p.directive rest tail)
      ∙ (starts_word (codes "HTTP/") p.directive
            ((p.directive_obj ++ (b' ' ∷ (codes "HTTP/" ++ p.version))) ++ tail)
            (omega arith, (omega arith, (omega arith, (omega arith, (omega arith, tt)))))
          ∙ h.no_response) in
    let made : Bytes → Bytes → ℤ → Bytes → Bytes → Parsed = λ d o k t v. parsed (record {
      directive = d;
      directive_obj = o;
      status_code = k;
      status_data = t;
      version = v;
      body = [];
      fields = p.fields;
    }) in
    let o2 =
      take (length p.directive_obj)
        (join (b' ' ∷ []) (p.directive_obj ∷ (codes "HTTP/" ++ p.version) ∷ []) ++ tail) in
    let v2 = behind_slash (record {
      start = (codes "HTTP/" ++ p.version) ++ tail;
      datalength = length (codes "HTTP/" ++ p.version);
    }) in
    if_false (starts (codes "HTTP/") (join (b' ' ∷ []) (words p) ++ tail)) _ _ no
    ∙ (ap (λ d. made d o2 (negsuc 0) [] v2)
          (text_cut (b' ' ∷ []) p.directive (p.directive_obj ∷ (codes "HTTP/" ++ p.version) ∷ [])
            tail)
        ∙ (ap (λ o. made p.directive o (negsuc 0) [] v2)
              (text_cut (b' ' ∷ []) p.directive_obj ((codes "HTTP/" ++ p.version) ∷ []) tail)
            ∙ (ap (λ v. made p.directive p.directive_obj (negsuc 0) [] v)
                  (behind_slash-version p.version tail h.no_slash)
                ∙ (ap (λ k. made p.directive p.directive_obj k [] p.version) (sym h.is_request)
                    ∙ ap (λ t. made p.directive p.directive_obj p.status_code t p.version)
                        (sym h.no_status)))))

join_front :
    (d p : Bytes) (ps : List Bytes) (tail : Bytes)
    → (x : Bytes) × (join d (p ∷ ps) ++ tail ≡ p ++ x)
join_front d p [] tail = (tail, refl)
join_front d p (q ∷ ps) tail =
    ((d ++ join d (q ∷ ps)) ++ tail, append_assoc p (d ++ join d (q ∷ ps)) tail)

-- `ILibParsePacketHeader` of the whole message that `ILibGetRawPacket` writes for a request, with any bytes
-- behind it in the buffer, gives that request back, without its body: the directive, the object and the version
-- hold no blank, the version no `/`, the directive and a blank do not begin with `HTTP/`, the lines hold no
-- carriage return, a header name no `:`, header data begin and end with a byte other than a blank, and there is no
-- status text. The body may hold anything.
pub parse_packet_header-get_raw_packet :
    (p : Packet) (behind : Bytes)
    → IsRequest p
    → parse_packet_header (get_raw_packet p ++ behind) 0 (length (get_raw_packet p))
      ≡ parsed (record p { body = [] })
unfolding parse_packet_header parse_message
parse_packet_header-get_raw_packet p behind h =
    let tail = (crlf ++ (crlf ++ p.body)) ++ behind in
    let ls = map raw_line p.fields in
    let (x, e) = join_front crlf (raw_start p) ls tail in
    let (more, cut) =
      parse_string-empty_part b'\r' (b'\n' ∷ []) behind (raw_start p) ls p.body
        (h.no_return, lines-Lacks p.fields h.fields_ok) in
    let blank : Field = record { start = (crlf ++ p.body) ++ behind; datalength = 0 } in
    let message : Bytes → Option (List HeaderField) → Parsed = λ s o.
      (let ws = parse_string s 0 (length (raw_start p)) (b' ' ∷ []) in
        elim o [ none ↦ without_lines (start_line ws []) | some hs ↦ start_line ws hs ]) in
    ap (λ b. parse_packet_header (b ++ behind) 0 (length b)) (get_raw_packet-head p)
    ∙ (ap parse_message cut
        ∙ (ap (message (head p ++ tail))
              (parse_lines-raw_line p.fields tail blank more refl h.fields_ok)
            ∙ (ap (λ s. message s (some p.fields)) e
                ∙ (ap (λ r. start_line (parse_string (r ++ x) 0 (length r) (b' ' ∷ [])) p.fields)
                      (raw_start-words p h)
                    ∙ (ap (λ ws. start_line ws p.fields)
                          (front_cuts b' ' [] x p.directive
                            (p.directive_obj ∷ (codes "HTTP/" ++ p.version) ∷ []) (words-Lacks p h))
                        ∙ start_line-request p x h)))))
