-- ===== src/Didl/Filter.antt =====
-- CdsObjectToDidl.c: `CdsToDidl_GetFilterBitString`, the properties that a Browse request asks for as a bit string.
pub mod Names
use Prim.Native.Nat.{bit_or}
use tv_now.Common.{
  ℕ, Bool, true, false, ◌||◌, ◌&&◌, Option, none, some, List, [], ◌∷◌, Bytes, codes, ◌==◌, leb,
  if◌then◌else◌, length,
}
use tv_now.MyString.Libc.{strncasecmp_eq}

-- A name of CdsStrings.h and the bits that it sets.
pub record FilterName : Type 0 where
  pub name : Bytes
  pub bits : ℕ

abbrev named : Bytes → ℕ → FilterName
named name bits = record { name = name; bits = bits }

-- The names that are tried at a byte, in order.
abbrev pub at_names : List FilterName
at_names = named (codes "@childCount") 0x80 ∷ named (codes "@searchable") 0x100 ∷ []

abbrev pub container_names : List FilterName
container_names =
    named (codes "container@childCount") 0x80 ∷ named (codes "container@searchable") 0x100 ∷ []

abbrev pub dc_names : List FilterName
dc_names = named (codes "dc:creator") 0x1 ∷ []

abbrev pub upnp_names : List FilterName
upnp_names = named (codes "upnp:album") 0x200 ∷ named (codes "upnp:genre") 0x400 ∷ []

-- `CdsFilter_Res` with an attribute; `res` itself comes last.
abbrev pub res_names : List FilterName
res_names =
    named (codes "res@bitrate") 0x12
    ∷ named (codes "res@bitsPerSample") 0x802
    ∷ named (codes "res@colorDepth") 0x22
    ∷ named (codes "res@duration") 0xA
    ∷ named (codes "res@nrAudioChannels") 0x2002
    ∷ named (codes "res@protection") 0x4002
    ∷ named (codes "res@resolution") 0x6
    ∷ named (codes "res@sampleFrequency") 0x1002
    ∷ named (codes "res@size") 0x42
    ∷ named (codes "res") 0x2
    ∷ []

-- The bits of the first name that the rest of the filter begins with, whatever its case.
unfoldable pub name_bits : Bytes → List FilterName → ℕ
unfolding strncasecmp_eq
name_bits s [] = 0
name_bits s (f ∷ fs) =
    let later = name_bits s fs in if strncasecmp_eq (length f.name) s f.name then f.bits else later

abbrev is_alpha : ℕ → Bool
is_alpha c = (leb b'A' c && leb c b'Z') || (leb b'a' c && leb c b'z')

-- The `switch` at a byte: the bits, and whether the next comma is looked for.
unfoldable pub at_byte : ℕ → Bytes → ℕ × Bool
unfolding name_bits
at_byte c s =
    if c == b'@'
    then (name_bits s at_names, true)
    else if c == b'c'
    then (name_bits s container_names, true)
    else if c == b'd'
    then (name_bits s dc_names, true)
    else if c == b'u'
    then (name_bits s upnp_names, true)
    else if c == b'r'
    then (name_bits s res_names, true)
    else (0, is_alpha c)

-- The loop: `next_comma` and `retVal` at a byte of the filter.
unfoldable pub filter_loop : Bool → ℕ → Bytes → ℕ
unfolding at_byte
filter_loop next_comma bits [] = bits
filter_loop true bits (c ∷ s) = filter_loop (if c == b',' then false else true) bits s
filter_loop false bits (c ∷ s) =
    let (more, next_comma) = at_byte c (c ∷ s) in filter_loop next_comma (bit_or bits more) s

-- `CdsToDidl_GetFilterBitString`, for NULL or a text without NUL.
unfoldable pub get_filter_bit_string : Option Bytes → ℕ
unfolding filter_loop
get_filter_bit_string none = 0
get_filter_bit_string (some []) = 0
get_filter_bit_string (some (c ∷ s)) = if c == b'*' then 0xFFFFFFFF else filter_loop false 0 (c ∷ s)
