-- ===== src/Parsers/Packets/Size.antt =====
-- The buffer that `ILibGetRawPacket` allocates, and what it writes there.
use tv_now.Common.{
  ◌+◌, List, [], ◌∷◌, ◌++◌, ◌≡◌, refl, ap, Bytes, codes, if◌then◌else◌, length, length-append,
  arith, Bool-cases, inl, inr, if_true, if_false,
}
use tv_now.Parsers.Packets.{
  HeaderField, Packet, decimal, raw_start, raw_line, raw_lines, crlf, get_raw_packet, is_response,
  lines_size, buffer_size,
}

raw_lines-lines_size : (hs : List HeaderField) → length (raw_lines hs) ≡ lines_size hs
unfolding raw_lines lines_size
raw_lines-lines_size [] = refl
raw_lines-lines_size (h ∷ hs) =
    let a = length-append (raw_line h) (crlf ++ raw_lines hs) in
    let b = length-append h.field (codes ": " ++ h.field_data) in
    let c = raw_lines-lines_size hs in omega arith

response_size :
    (v d s : Bytes)
    → length (codes "HTTP/" ++ (v ++ (b' ' ∷ (d ++ (b' ' ∷ s)))))
      ≡ 7 + length v + length d + length s
response_size v d s =
    let a = length-append v (b' ' ∷ (d ++ (b' ' ∷ s))) in
    let b = length-append d (b' ' ∷ s) in omega arith

request_size :
    (d o v : Bytes)
    → length (d ++ (b' ' ∷ (o ++ (codes " HTTP/" ++ v)))) ≡ 7 + length d + length o + length v
request_size d o v =
    let a = length-append d (b' ' ∷ (o ++ (codes " HTTP/" ++ v))) in
    let b = length-append o (codes " HTTP/" ++ v) in omega arith

-- What `ILibGetRawPacket` writes, with the closing NUL, is as long as the buffer that it allocates with 3 bytes
-- less and the decimals of the status code, or in a request the version, more: it fits exactly
-- if that has at most 3 bytes.
pub get_raw_packet-buffer_size :
    (p : Packet)
    → length (get_raw_packet p) + 1 + 3
      ≡ buffer_size p
        + (if is_response p.status_code then length (decimal p.status_code) else length p.version)
unfolding get_raw_packet buffer_size
get_raw_packet-buffer_size p =
    let a = length-append (raw_start p) (crlf ++ (raw_lines p.fields ++ (crlf ++ p.body))) in
    let b = length-append (raw_lines p.fields) (crlf ++ p.body) in
    let c = raw_lines-lines_size p.fields in
    elim (Bool-cases (is_response p.status_code)) [
      | inl r ↦
          let d = response_size p.version (decimal p.status_code) p.status_data in
          let e = ap length (
            if_true (is_response p.status_code)
              (codes "HTTP/"
                ++ (p.version ++ (b' ' ∷ (decimal p.status_code ++ (b' ' ∷ p.status_data)))))
              (p.directive ++ (b' ' ∷ (p.directive_obj ++ (codes " HTTP/" ++ p.version)))) r) in
          let f =
            if_true (is_response p.status_code) (12 + length p.version + length p.status_data)
              (length p.directive + length p.directive_obj + 12) r in
          let g =
            if_true (is_response p.status_code) (length (decimal p.status_code)) (length p.version)
              r in
          omega arith
      | inr r ↦
          let d = request_size p.directive p.directive_obj p.version in
          let e = ap length (
            if_false (is_response p.status_code)
              (codes "HTTP/"
                ++ (p.version ++ (b' ' ∷ (decimal p.status_code ++ (b' ' ∷ p.status_data)))))
              (p.directive ++ (b' ' ∷ (p.directive_obj ++ (codes " HTTP/" ++ p.version)))) r) in
          let f =
            if_false (is_response p.status_code) (12 + length p.version + length p.status_data)
              (length p.directive + length p.directive_obj + 12) r in
          let g =
            if_false (is_response p.status_code) (length (decimal p.status_code)) (length p.version)
              r in
          omega arith
    ]
