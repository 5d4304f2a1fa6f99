-- ===== src/Parsers/XmlEscape.antt =====
-- libIWeb/ILibParsers.c: `ILibXmlEscape`, `ILibXmlEscapeLength`, `ILibInPlaceXmlUnEscape`.
-- `char*` buffers are lists of bytes; the unescaping writes into the array that it reads.
pub mod RoundTrip
use tv_now.Common.{
  ℕ, zero, suc, ◌+◌, Bool, true, false, [], ◌∷◌, ◌++◌, Bytes, codes, ltb, ◌==◌, if◌then◌else◌,
  length, drop, set, starts,
}

-- What one round of `ILibXmlEscape` writes.
unfoldable pub escape_byte : ℕ → Bytes
escape_byte c =
    if c == b'"'
    then codes "&quot;"
    else if c == b'\''
    then codes "&apos;"
    else if c == b'<'
    then codes "&lt;"
    else if c == b'>'
    then codes "&gt;"
    else if c == b'&'
    then codes "&amp;"
    else c ∷ []

pub xml_escape_loop : Bytes → Bytes → Bytes
xml_escape_loop [] out = out
xml_escape_loop (c ∷ s) out = xml_escape_loop s (out ++ escape_byte c)

-- The text written, without its closing NUL, and the result `out - outdata`.
unfoldable pub xml_escape : Bytes → Bytes × ℕ
unfolding xml_escape_loop escape_byte
xml_escape indata = let out = xml_escape_loop indata [] in (out, length out)

-- The number of bytes that one case of the `switch` adds.
entity_length : ℕ → ℕ
entity_length c =
    if c == b'"'
    then 6
    else if c == b'\''
    then 6
    else if c == b'<'
    then 4
    else if c == b'>'
    then 4
    else if c == b'&'
    then 5
    else 1

xml_escape_length_loop : Bytes → ℕ → ℕ
xml_escape_length_loop [] j = j
xml_escape_length_loop (c ∷ s) j = xml_escape_length_loop s (j + entity_length c)

unfoldable pub xml_escape_length : Bytes → ℕ
unfolding xml_escape_length_loop entity_length
xml_escape_length s = xml_escape_length_loop s 0

-- The byte that a round of the unescaping stores, and by how much it advances `j`.
unfoldable pub unescape_entity : Bytes → ℕ × ℕ
unfolding starts
unescape_entity [] = (0, 1)
unescape_entity (c ∷ s) =
    if starts (codes "&quot;") (c ∷ s)
    then (b'"', 6)
    else if starts (codes "&apos;") (c ∷ s)
    then (b'\'', 6)
    else if starts (codes "&amp;") (c ∷ s)
    then (b'&', 5)
    else if starts (codes "&lt;") (c ∷ s)
    then (b'<', 4)
    else if starts (codes "&gt;") (c ∷ s)
    then (b'>', 4)
    else (c, 1)

-- `while (j < end)` over the array `buf`: `i` is the write index, `j` the read index.
unfoldable pub unescape_loop : ℕ → Bytes → ℕ → ℕ → ℕ → Bytes × ℕ
unescape_loop zero buf i j end = (set buf i 0, i)
unescape_loop (suc f) buf i j end =
    let e = unescape_entity (drop j buf) in
    let rest = unescape_loop f (set buf i e.0) (i + 1) (j + e.1) end in
    if ltb j end then rest else (set buf i 0, i)

-- The array after the call, and the new length. A round advances `j`, so `length data` rounds do.
unfoldable pub in_place_xml_unescape : Bytes → Bytes × ℕ
unfolding unescape_loop unescape_entity
in_place_xml_unescape s = unescape_loop (length s) (s ++ 0 ∷ []) 0 0 (length s)
