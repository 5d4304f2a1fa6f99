-- ===== src/MyString/Libc.antt =====
-- What the code uses of the C library on texts, in the C locale: `tolower`, `strncmp`,
-- `strncasecmp` and `strcasecmp`, of which only the comparison with 0 is read, and the conversions of
-- `strtol` and `atoi`.
use tv_now.Common.Int.{ℤ, pos, negsuc}
use tv_now.Common.{
  ℕ, zero, suc, ◌+◌, ◌-◌, ◌%◌, ltb, Bool, true, false, ◌&&◌, ◌||◌, [], ◌∷◌, map, Bytes, leb, ◌==◌,
  if◌then◌else◌, equal,
}

unfoldable pub tolower : ℕ → ℕ
tolower c = if leb b'A' c && leb c b'Z' then c + 32 else c

abbrev pub lower : Bytes → Bytes
lower = map tolower

-- `strncmp(s, t, n) == 0`: the first `n` characters agree, or both texts end before.
unfoldable pub strncmp_eq : ℕ → Bytes → Bytes → Bool
strncmp_eq zero s t = true
strncmp_eq (suc n) [] [] = true
strncmp_eq (suc n) [] (d ∷ t) = false
strncmp_eq (suc n) (c ∷ s) [] = false
strncmp_eq (suc n) (c ∷ s) (d ∷ t) = c == d && strncmp_eq n s t

-- `strncasecmp(s, t, n) == 0`.
unfoldable pub strncasecmp_eq : ℕ → Bytes → Bytes → Bool
unfolding tolower strncmp_eq
strncasecmp_eq n s t = strncmp_eq n (lower s) (lower t)

-- `strcasecmp(s, t) == 0`.
unfoldable pub strcasecmp_eq : Bytes → Bytes → Bool
unfolding tolower equal
strcasecmp_eq s t = equal (lower s) (lower t)

-- `isspace`.
abbrev pub is_space : ℕ → Bool
is_space c = c == b' ' || (leb 9 c && leb c 13)

-- `(int)` of a 64-bit `long` that is not negative, and of its negative.
unfoldable pub to_int : ℕ → ℤ
to_int n =
    let m = (if ltb n 9223372036854775808 then n else 9223372036854775807) % 4294967296 in
    if ltb m 2147483648 then pos m else negsuc (4294967295 - m)

unfoldable pub negated : ℕ → ℤ
unfolding to_int
negated n =
    let m = (if ltb n 9223372036854775808 then n else 9223372036854775808) % 4294967296 in
    if m == 0 then pos 0 else if leb m 2147483648 then negsuc (m - 1) else pos (4294967296 - m)
