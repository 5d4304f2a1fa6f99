-- ===== src/Parsers/Numbers/RoundTrip.antt =====
-- `ILibGetLong` and `ILibGetULong` read back the decimals that `sprintf` writes.
use native.Mathlib.Nat.{pow-suc}
use tv_now.Common.{
  ◌&&◌, ℕ, zero, suc, ◌+◌, ◌-◌, ◌*◌, ◌/◌, ◌%◌, ◌^◌, ◌<◌, ◌≤◌, ◌≡◌, ◌∙◌, refl, ap, inl, inr, Bool,
  true, false, [], ◌∷◌, Bytes, ltb, ◌==◌, Bool-cases, if_true, arith,
}
use tv_now.Common.Int.{pos}
use tv_now.MyString.Libc.{is_space}
use tv_now.Parsers.Packets.{decimal, decimal_onto}
use tv_now.Parsers.Numbers.{
  at_end, starts_digit, is_digit, read_digits, Conversion, to_long, to_ulong, convert_text,
  get_long, get_ulong, starts_minus,
}

-- A digit is read onto the value.
digit_step :
    (c : ℕ) (s : Bytes) (n : ℕ)
    → is_digit c ≡ true
    → read_digits (c ∷ s) n ≡ read_digits s (n * 10 + (c - b'0'))
unfolding read_digits
digit_step c s n h = if_true (is_digit c) _ _ h

is_digit_lem : (d : ℕ) → d < 10 → is_digit (b'0' + d) ≡ true
is_digit_lem d h = ground arith

module _ (f n : ℕ) (s : Bytes) where
  one : ltb n 10 ≡ true → read_digits (decimal_onto (suc f) n s) 0 ≡ read_digits ((b'0' + n) ∷ s) 0
  unfolding decimal_onto
  one h = rw h refl

  many :
      ltb n 10 ≡ false
      → read_digits (decimal_onto (suc f) n s) 0
        ≡ read_digits (decimal_onto f (n / 10) ((b'0' + n % 10) ∷ s)) 0
  unfolding decimal_onto
  many h = rw h refl

-- One digit more.
next_digit : (n : ℕ) (s : Bytes) → read_digits ((b'0' + n % 10) ∷ s) (n / 10) ≡ read_digits s n
next_digit n s =
    let e : n / 10 * 10 + ((b'0' + n % 10) - b'0') ≡ n = omega arith in
    digit_step (b'0' + n % 10) s (n / 10) (is_digit_lem (n % 10) (omega arith))
    ∙ ap (read_digits s) e

several :
    (f n : ℕ) (s : Bytes)
    → n < 10 ^ suc f
    → 10 ≤ n
    → read_digits (decimal_onto f (n / 10) ((b'0' + n % 10) ∷ s)) 0 ≡ read_digits s n
several zero n s h k = absurd (omega arith)
several (suc f) n s h k =
    let t = (b'0' + n % 10) ∷ s in
    let below : n / 10 < 10 ^ suc f = omega (arith, pow-suc 10 (suc f)) in
    elim (Bool-cases (ltb (n / 10) 10)) [
      | inl small ↦
          let e : 0 * 10 + ((b'0' + n / 10) - b'0') ≡ n / 10 = omega arith in
          one f (n / 10) t small
          ∙ (digit_step (b'0' + n / 10) t 0 (is_digit_lem (n / 10) (ground arith))
              ∙ ap (read_digits t) e)
          ∙ next_digit n s
      | inr large ↦
          many f (n / 10) t large ∙ several f (n / 10) t below (ground arith) ∙ next_digit n s
    ]

-- The decimals of a number that the rounds suffice for.
read_digits-decimal :
    (f n : ℕ) (s : Bytes)
    → n < 10 ^ suc f
    → read_digits (decimal_onto (suc f) n s) 0 ≡ read_digits s n
unfolding decimal_onto
read_digits-decimal f n s h = elim (Bool-cases (ltb n 10)) [
  | inl small ↦
      let e : 0 * 10 + ((b'0' + n) - b'0') ≡ n = omega arith in
      rw small (digit_step (b'0' + n) s 0 (is_digit_lem n (ground arith)) ∙ ap (read_digits s) e)
  | inr large ↦ rw large (several f n s h (ground arith))
]

decimal_onto-digit :
    (f n : ℕ) (s : Bytes) → starts_digit s ≡ true → starts_digit (decimal_onto f n s) ≡ true
unfolding decimal_onto
decimal_onto-digit zero n s h = h
decimal_onto-digit (suc f) n s h = elim (Bool-cases (ltb n 10)) [
  | inl small ↦ rw small (is_digit_lem n (ground arith))
  | inr large ↦
      rw large
        (decimal_onto-digit f (n / 10) ((b'0' + n % 10) ∷ s) (is_digit_lem (n % 10) (omega arith)))
]

decimal-digit : (n : ℕ) → starts_digit (decimal (pos n)) ≡ true
unfolding decimal_onto
decimal-digit n = elim (Bool-cases (ltb n 10)) [
  | inl small ↦ rw small (is_digit_lem n (ground arith))
  | inr large ↦
      rw large
        (decimal_onto-digit 9 (n / 10) ((b'0' + n % 10) ∷ []) (is_digit_lem (n % 10) (omega arith)))
]

-- A text that starts with a digit is converted from there.
convert_text-digit :
    (to : Bool → ℕ × Bytes → Conversion) (whole t : Bytes)
    → starts_digit t ≡ true
    → convert_text to whole t ≡ to false (read_digits t 0)
unfolding convert_text
convert_text-digit to whole [] h = cc
convert_text-digit to whole (c ∷ s) h =
    let low : 48 ≤ c = ground arith in
    let space : is_space c ≡ false = ground arith in
    let minus : (c == b'-') ≡ false = ground arith in
    let plus : (c == b'+') ≡ false = ground arith in rw (space, minus, plus, h) refl

read_back :
    (to : Bool → ℕ × Bytes → Conversion) (n : ℕ)
    → n < 10000000000
    → convert_text to (decimal (pos n)) (decimal (pos n)) ≡ to false (n, [])
unfolding read_digits
read_back to n h =
    convert_text-digit to (decimal (pos n)) (decimal (pos n)) (decimal-digit n)
    ∙ ap (to false) (read_digits-decimal 9 n [] h)

no_minus : (t : Bytes) → starts_digit t ≡ true → starts_minus t ≡ false
no_minus [] h = refl
no_minus (c ∷ s) h = ground arith

-- `ILibGetLong` and `ILibGetULong` accept the decimals that `sprintf` writes for a number of at most 10
-- digits and give the number back, if `errno` was not ERANGE; if it was, they refuse every text and leave it.
pub get_long-decimal :
    (n : ℕ) (t : Bytes)
    → n < 10000000000
    → (get_long false (decimal (pos n)) ≡ record { value = pos n; accepted = true; erange = false })
      × (get_ulong false (decimal (pos n))
          ≡ record { value = pos n; accepted = true; erange = false })
      × ((get_long true t).accepted ≡ false)
      × ((get_long true t).erange ≡ true)
      × ((get_ulong true t).accepted ≡ false)
      × ((get_ulong true t).erange ≡ true)
unfolding get_long get_ulong
get_long-decimal n t h =
    let fits : ltb 9223372036854775807 n ≡ false = ground arith in
    let fits' : ltb 18446744073709551615 n ≡ false = ground arith in
    (
      rw (read_back to_long n h, fits) refl,
      rw (read_back to_ulong n h, no_minus (decimal (pos n)) (decimal-digit n), fits') refl,
      refused (at_end (convert_text to_long t t).stop),
      refl,
      refused (at_end (convert_text to_ulong t t).stop),
      refl,
    )
  where
    refused : (b : Bool) → (b && false) ≡ false
    refused true = refl
    refused false = refl
