-- ===== src/MyString/Encode.antt =====
-- MyString.c: `strUtf8Len`, `_strToUtf8`, `strToUtf8`, `strToEscapedUri`. A source array is the
-- list of its bytes with the closing NUL; a read behind its end is `out_of_range`. `out` is what
-- the loop has stored, and `length out` its index into `dest`.
pub mod Sizes
pub mod Wide
use Prim.Native.Nat.{bit_and, bit_or}
use tv_now.Common.{
  ℕ, zero, suc, ◌+◌, ◌-◌, ◌*◌, ◌/◌, ◌%◌, Bool, true, false, not, ◌&&◌, ◌||◌, Option, none, some, [],
  ◌∷◌, ◌++◌, Bytes, leb, ltb, ◌==◌, if◌then◌else◌, length,
}
use tv_now.Common.Int.{ℤ, pos, sub_ℕ}
use tv_now.MyString.Decode.{Outcome, done, out_of_range, out_of_fuel}

-- `_isUriPrintable`.
unfoldable pub is_uri_printable : ℕ → Bool
is_uri_printable c =
    (leb 0x30 c && leb c 0x39)
    || (leb 0x41 c && leb c 0x5A)
    || (leb 0x61 c && leb c 0x7A)
    || c == 0x2E
    || c == 0x2F
    || c == 0x3A
    || c == 0x36
    || c == 0x5F
    || c == 0x3F

-- One character of the source and the bytes behind it: a byte, or two with the low one first,
-- whose `|=` joins disjoint bits.
unfoldable pub read_char : Bool → Bytes → Option (ℕ × Bytes)
read_char is_wide [] = none
read_char false (b ∷ s) = some (b, s)
read_char true (b ∷ []) = none
read_char true (b ∷ h ∷ s) = some (b + h * 256, s)

-- How many bytes `strUtf8Len` counts for a character.
unfoldable pub char_len : ℕ → Bool → ℕ
unfolding is_uri_printable
char_len wcv as_escaped_uri =
    if ltb wcv 0x80
    then (if as_escaped_uri && not (is_uri_printable wcv) then 3 else 1)
    else if ltb wcv 0x800
    then (if as_escaped_uri then 6 else 2)
    else if ltb wcv 0x10000
    then (if as_escaped_uri then 9 else 3)
    else 0

-- A round at the character read: `more` is the loop from the next one on.
pub count_char : (Bytes → ℕ → Outcome ℕ) → Bool → ℕ → Option (ℕ × Bytes) → Outcome ℕ
count_char more uri j none = out_of_range
count_char more uri j (some (wcv, rest)) =
    let j' = j + char_len wcv uri in let next = more rest j' in if wcv == 0 then done j' else next

pub utf8_len_loop : ℕ → Bytes → Bool → Bool → ℕ → Outcome ℕ
utf8_len_loop zero src is_wide uri j = out_of_fuel
utf8_len_loop (suc f) src is_wide uri j =
    count_char (λ rest j'. utf8_len_loop f rest is_wide uri j') uri j (read_char is_wide src)

-- The count includes the closing NUL. A round reads a byte, so one round more than the
-- array's length is fuel enough.
unfoldable pub str_utf8_len : Bytes → Bool → Bool → Outcome ℕ
unfolding utf8_len_loop count_char read_char char_len
str_utf8_len src is_wide uri = utf8_len_loop (suc (length src)) src is_wide uri 0

-- A hexadecimal digit, and `sprintf("%%%x", v)` for a `v` below 256, without the NUL that it
-- leaves behind: the next round overwrites it.
unfoldable pub hex_digit : ℕ → ℕ
hex_digit d = if ltb d 10 then b'0' + d else b'a' + (d - 10)

unfoldable pub percent_hex : ℕ → Bytes
unfolding hex_digit
percent_hex v =
    if ltb v 16
    then b'%' ∷ hex_digit v ∷ []
    else b'%' ∷ hex_digit (v / 16) ∷ hex_digit (v % 16) ∷ []

-- The bytes of a character: of the second and of the third form.
pub two_bytes : ℕ → ℕ × ℕ
two_bytes wcv = (bit_or (wcv / 64) 0xC0, bit_or (bit_and wcv 0x3F) 0x80)

pub three_bytes : ℕ → ℕ × ℕ × ℕ
three_bytes wcv = (
  bit_or (wcv / 4096) 0xF0,
  bit_or (bit_and (wcv / 64) 0x3F) 0x80,
  bit_or (bit_and wcv 0x3F) 0x80,
)

-- What a round of `_strToUtf8` does: store bytes for a character, store nothing, or break.
pub data Put : Type 0 where
  put : Bytes → Put
  omit : Put
  full : Put

put_one : ℕ → ℕ → ℕ → Bool → Put
put_one wcv j dest_len uri =
    if uri
    then (if is_uri_printable wcv
        then put (wcv ∷ [])
        else if ltb (j + 3) dest_len
        then put (percent_hex wcv)
        else omit)
    else put (wcv ∷ [])

put_two : ℕ → ℕ → ℕ → Bool → Put
unfolding two_bytes
put_two wcv j dest_len uri =
    let (a, b) = two_bytes wcv in
    if uri
    then (if ltb (j + 6) dest_len then put (percent_hex a ++ percent_hex b) else omit)
    else put (a ∷ b ∷ [])

put_three : ℕ → ℕ → ℕ → Bool → Put
unfolding three_bytes
put_three wcv j dest_len uri =
    let (a, b, c) = three_bytes wcv in
    if uri
    then (if ltb (j + 9) dest_len
        then put (percent_hex a ++ (percent_hex b ++ percent_hex c))
        else omit)
    else put (a ∷ b ∷ c ∷ [])

unfoldable pub put_char : ℕ → ℕ → ℕ → Bool → Put
unfolding put_one put_two put_three is_uri_printable percent_hex
put_char wcv j dest_len uri =
    if ltb wcv 0x80 && ltb j dest_len
    then put_one wcv j dest_len uri
    else if ltb wcv 0x800 && ltb (j + 1) dest_len
    then put_two wcv j dest_len uri
    else if ltb wcv 0x10000 && ltb (j + 2) dest_len
    then put_three wcv j dest_len uri
    else if ltb (j + 3) dest_len
    then omit
    else full

-- The bytes stored in `dest` from its start, the result and `*charactersConverted`.
pub record Converted : Type 0 where
  pub written : Bytes
  pub result : ℤ
  pub characters : ℤ

-- What follows the loop: `wcv == 0`, or a NUL is stored behind a text that did not fit.
unfoldable pub finish : ℕ → Bytes → ℕ → Converted
finish wcv out cc =
    if wcv == 0
    then record { written = out; result = sub_ℕ (length out) 1; characters = sub_ℕ cc 1 }
    else record { written = out ++ 0 ∷ []; result = pos (length out); characters = pos cc }

-- The end of a round: `more` is the loop from the next character on.
pub store_put : (Bytes → ℕ → Outcome Converted) → ℕ → Bytes → ℕ → Put → Outcome Converted
store_put more wcv out cc (put bytes) =
    let rest = more (out ++ bytes) (cc + 1) in
    if wcv == 0 then done (finish wcv (out ++ bytes) (cc + 1)) else rest
store_put more wcv out cc omit =
    let rest = more out cc in if wcv == 0 then done (finish wcv out cc) else rest
store_put more wcv out cc full = done (finish wcv out cc)

pub to_utf8_loop : ℕ → Bytes → ℕ → Bool → Bool → Bytes → ℕ → Outcome Converted
to_utf8_loop zero src dest_len is_wide uri out cc = out_of_fuel
to_utf8_loop (suc f) src dest_len is_wide uri out cc = elim (read_char is_wide src) [
  | none ↦ out_of_range
  | some (wcv, rest) ↦
      store_put (to_utf8_loop f rest dest_len is_wide uri) wcv out cc
        (put_char wcv (length out) dest_len uri)
]

-- `_strToUtf8`. A round reads a byte, so one round more than the
-- array's length is fuel enough.
unfoldable pub convert : Bytes → ℕ → Bool → Bool → Outcome Converted
unfolding to_utf8_loop store_put read_char put_char finish
convert src dest_size is_wide uri =
    to_utf8_loop (suc (length src)) src (dest_size - 1) is_wide uri [] 0

unfoldable pub str_to_utf8 : Bytes → ℕ → Bool → Outcome Converted
unfolding convert
str_to_utf8 src dest_size is_wide = convert src dest_size is_wide false

unfoldable pub str_to_escaped_uri : Bytes → ℕ → Bool → Outcome Converted
unfolding convert
str_to_escaped_uri src dest_size is_wide = convert src dest_size is_wide true
