-- ===== src/Didl/Escape.antt =====
-- CdsObjectToDidl.c: `CdsObjectToDidl_Helper_DoubleEscape` and
-- `CdsObjectToDidl_Helper_DoubleEscapeLength`.
pub mod Twice
use tv_now.Common.{ℕ, ◌+◌, [], ◌∷◌, ◌++◌, Bytes, codes, ◌==◌, if◌then◌else◌, length}

-- The number of bytes that one case of the `switch` adds.
double_entity_length : ℕ → ℕ
double_entity_length c =
    if c == b'"'
    then 10
    else if c == b'\''
    then 10
    else if c == b'<'
    then 8
    else if c == b'>'
    then 8
    else if c == b'&'
    then 9
    else 1

double_escape_length_loop : Bytes → ℕ → ℕ
double_escape_length_loop [] j = j
double_escape_length_loop (c ∷ s) j = double_escape_length_loop s (j + double_entity_length c)

unfoldable pub double_escape_length : Bytes → ℕ
unfolding double_escape_length_loop double_entity_length
double_escape_length s = double_escape_length_loop s 0

-- What one round of the escaping writes.
double_escape_byte : ℕ → Bytes
double_escape_byte c =
    if c == b'"'
    then codes "&amp;quot;"
    else if c == b'\''
    then codes "&amp;apos;"
    else if c == b'<'
    then codes "&amp;lt;"
    else if c == b'>'
    then codes "&amp;gt;"
    else if c == b'&'
    then codes "&amp;amp;"
    else c ∷ []

double_escape_loop : Bytes → Bytes → Bytes
double_escape_loop [] out = out
double_escape_loop (c ∷ s) out = double_escape_loop s (out ++ double_escape_byte c)

-- The text written, without its closing NUL, and the result `out - outdata`.
unfoldable pub double_escape : Bytes → Bytes × ℕ
unfolding double_escape_loop double_escape_byte
double_escape s = let out = double_escape_loop s [] in (out, length out)
