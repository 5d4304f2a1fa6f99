-- ===== src/Server/Hex.antt =====
-- MicroMediaServer.c: `MungeHexDigit` and `GetCharFromHex`. The result -1 is `none`.
use tv_now.Common.{
  ℕ, ◌+◌, ◌-◌, ◌*◌, ◌/◌, ◌%◌, ◌<◌, ◌≡◌, refl, Bool, true, ◌&&◌, Option, none, some, ltb, leb, ◌==◌,
  if◌then◌else◌, holds_below, holds_at, ==_iff,
}

unfoldable pub munge_hex_digit : ℕ → Option ℕ
munge_hex_digit c =
    if leb b'0' c && leb c b'9'
    then some (c - b'0')
    else if leb b'A' c && leb c b'F'
    then some (c - b'A' + 10)
    else if leb b'a' c && leb c b'F'
    then some (c - b'a' + 10)
    else none

-- `result`, by the two digits.
pub hex_result : Option ℕ → Option ℕ → ℕ
hex_result (some c1) (some c2) = c1 * 16 + c2
hex_result none c2 = 0
hex_result (some c1) none = 0

unfoldable pub get_char_from_hex : ℕ → ℕ → ℕ
unfolding munge_hex_digit hex_result
get_char_from_hex a b = hex_result (munge_hex_digit a) (munge_hex_digit b)

-- The digit of a number below 16, with letters from `letter` on.
abbrev pub digit : ℕ → ℕ → ℕ
digit letter n = if ltb n 10 then b'0' + n else letter + (n - 10)

abbrev reads_upper : ℕ → Bool
reads_upper v = get_char_from_hex (digit b'A' (v / 16)) (digit b'A' (v % 16)) == v

abbrev reads_lower : ℕ → Bool
reads_lower v =
    get_char_from_hex (digit b'a' (v / 16)) (digit b'a' (v % 16))
    == (if ltb (v / 16) 10 && ltb (v % 16) 10 then v else 0)

upper_table : holds_below reads_upper 256 ≡ true
unfolding holds_below get_char_from_hex
upper_table = refl

lower_table : holds_below reads_lower 256 ≡ true
unfolding holds_below get_char_from_hex
lower_table = refl

-- `GetCharFromHex` gives back every byte from its two upper-case digits; from lower-case digits it
-- does only if neither is a letter, and else it gives 0.
pub get_char_from_hex-digit :
    (v : ℕ)
    → v < 256
    → (get_char_from_hex (digit b'A' (v / 16)) (digit b'A' (v % 16)) ≡ v)
      × (get_char_from_hex (digit b'a' (v / 16)) (digit b'a' (v % 16))
          ≡ (if ltb (v / 16) 10 && ltb (v % 16) 10 then v else 0))
get_char_from_hex-digit v h = (
  (==_iff _ _).0 (holds_at reads_upper 256 v h upper_table),
  (==_iff _ _).0 (holds_at reads_lower 256 v h lower_table),
)
