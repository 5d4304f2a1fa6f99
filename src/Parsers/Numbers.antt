-- ===== src/Parsers/Numbers.antt =====
-- libIWeb/ILibParsers.c: `ILibGetLong` and `ILibGetULong`, with the C library's `strtol` and `strtoul` in
-- base 10. Whether `errno` is ERANGE is an argument and a result, since neither function clears it.
pub mod RoundTrip
pub mod Tests
use tv_now.Common.{
  ℕ, ◌+◌, ◌-◌, ◌*◌, ◌%◌, Bool, true, false, not, ◌&&◌, ◌||◌, [], ◌∷◌, Bytes, ◌==◌, ltb, leb,
  if◌then◌else◌,
}
use tv_now.Common.Int.{ℤ, pos, negsuc}
use tv_now.MyString.Libc.{is_space}

abbrev pub is_digit : ℕ → Bool
is_digit c = leb b'0' c && leb c b'9'

-- The digits at the front of a text, onto a value, and what is behind them.
unfoldable pub read_digits : Bytes → ℕ → ℕ × Bytes
read_digits [] n = (n, [])
read_digits (c ∷ s) n =
    let more = read_digits s (n * 10 + (c - b'0')) in if is_digit c then more else (n, c ∷ s)

abbrev pub starts_digit : Bytes → Bool
starts_digit [] = false
starts_digit (c ∷ s) = is_digit c

abbrev pub negative : ℕ → ℤ
negative n = if n == 0 then pos 0 else negsuc (n - 1)

-- A value, where the conversion stopped, and whether the number is out of range.
pub record Conversion : Type 0 where
  pub value : ℤ
  pub stop : Bytes
  pub overflow : Bool

abbrev pub to_long : Bool → ℕ × Bytes → Conversion
to_long minus (n, s) =
    if minus
    then (if ltb 9223372036854775808 n
        then record { value = negative 9223372036854775808; stop = s; overflow = true }
        else record { value = negative n; stop = s; overflow = false })
    else if ltb 9223372036854775807 n
    then record { value = pos 9223372036854775807; stop = s; overflow = true }
    else record { value = pos n; stop = s; overflow = false }

abbrev pub to_ulong : Bool → ℕ × Bytes → Conversion
to_ulong minus (n, s) =
    if ltb 18446744073709551615 n
    then record { value = pos 18446744073709551615; stop = s; overflow = true }
    else record {
      value = pos (if minus then (18446744073709551616 - n) % 18446744073709551616 else n);
      stop = s;
      overflow = false;
    }

-- A conversion behind blanks and a sign; with no digit there the text is not read.
unfoldable pub convert_text : (Bool → ℕ × Bytes → Conversion) → Bytes → Bytes → Conversion
unfolding read_digits
convert_text to whole [] = record { value = pos 0; stop = whole; overflow = false }
convert_text to whole (c ∷ s) =
    let skipped = convert_text to whole s in
    let nothing : Conversion = record { value = pos 0; stop = whole; overflow = false } in
    let signed = if starts_digit s then to (c == b'-') (read_digits s 0) else nothing in
    let plain = if is_digit c then to false (read_digits (c ∷ s) 0) else nothing in
    if is_space c then skipped else if c == b'-' || c == b'+' then signed else plain

-- A text that ends at its length or at a NUL.
abbrev pub at_end : Bytes → Bool
at_end [] = true
at_end (c ∷ s) = c == 0

-- The value, whether the function returns 0, and `errno==ERANGE` afterwards.
pub record Numeric : Type 0 where
  pub value : ℤ
  pub accepted : Bool
  pub erange : Bool

-- `ILibGetLong`.
unfoldable pub get_long : Bool → Bytes → Numeric
unfolding convert_text
get_long erange test_value =
    let c = convert_text to_long test_value test_value in
    let erange' = erange || c.overflow in
    record { value = c.value; accepted = at_end c.stop && not erange'; erange = erange' }

abbrev pub starts_minus : Bytes → Bool
starts_minus [] = false
starts_minus (c ∷ s) = c == b'-'

-- `ILibGetULong`.
unfoldable pub get_ulong : Bool → Bytes → Numeric
unfolding convert_text
get_ulong erange test_value =
    let c = convert_text to_ulong test_value test_value in
    let erange' = erange || c.overflow in
    record {
      value = c.value;
      accepted = at_end c.stop && (not erange' && not (starts_minus test_value));
      erange = erange';
    }
