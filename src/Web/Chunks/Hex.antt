-- ===== src/Web/Chunks/Hex.antt =====
-- A chunk size as `sprintf("%X")` prints it, and as `strtol` reads it.
use tv_now.Common.{
  ℕ, zero, suc, ◌+◌, ◌-◌, ◌*◌, ◌/◌, ◌%◌, ◌≤◌, ◌<◌, Bool, true, ◌&&◌, ◌||◌, [], ◌∷◌, none, some, ◌≡◌,
  ◌≢◌, refl, ap, ◌∙◌, Bytes, ◌==◌, ltb, leb, if◌then◌else◌, if_true, if_false, All, arith, choose,
}
use tv_now.Common.Int.{pos}
use tv_now.MyString.Libc.{to_int, is_space}
use tv_now.Web.Chunks.{digit_value, digits_onto, behind_prefix, strtol16}

abbrev pub hex_digit : ℕ → ℕ
hex_digit v = if ltb v 10 then b'0' + v else b'A' + (v - 10)

-- `sprintf(hex, "%X", n)`; an `int` has at most 8 digits.
unfoldable pub hex_onto : ℕ → ℕ → Bytes → Bytes
hex_onto zero n s = s
hex_onto (suc f) n s =
    let more = hex_onto f (n / 16) (hex_digit (n % 16) ∷ s) in
    if ltb n 16 then hex_digit n ∷ s else more

abbrev pub hex : ℕ → Bytes
hex n = hex_onto 8 n []

-- An upper-case hexadecimal digit.
abbrev pub is_hex : ℕ → Bool
is_hex c = (leb b'0' c && leb c b'9') || (leb b'A' c && leb c b'F')

abbrev pub AreHex : Bytes → Type 0
AreHex = All (λ c. is_hex c ≡ true)

hex_digit-hex : (v : ℕ) → v < 16 → is_hex (hex_digit v) ≡ true
hex_digit-hex v h = ground arith

digit_value-hex_digit : (v : ℕ) → v < 16 → digit_value (hex_digit v) ≡ some v
unfolding digit_value
digit_value-hex_digit v h =
    choose (λ c. digit_value c ≡ some v) (ltb v 10) (b'0' + v) (b'A' + (v - 10))
      (λ z.
        let below : v < 10 = ground arith in
        if_true (leb b'0' (b'0' + v) && leb (b'0' + v) b'9') _ _ (ground arith)
        ∙ ap some (omega arith))
      (λ z.
        let from : 10 ≤ v = ground arith in
        if_false (leb b'0' (b'A' + (v - 10)) && leb (b'A' + (v - 10)) b'9') _ _ (ground arith)
        ∙ (if_true (leb b'A' (b'A' + (v - 10)) && leb (b'A' + (v - 10)) b'F') _ _ (ground arith)
            ∙ ap some (omega arith)))

hex_onto-AreHex : (f n : ℕ) (s : Bytes) → AreHex s → AreHex (hex_onto f n s)
unfolding hex_onto
hex_onto-AreHex zero n s h = h
hex_onto-AreHex (suc f) n s h =
    choose AreHex (ltb n 16) _ _ (λ z. (hex_digit-hex n (ground arith), h))
      (λ _.
        hex_onto-AreHex f (n / 16) (hex_digit (n % 16) ∷ s)
          (hex_digit-hex (n % 16) (omega arith), h))

-- The numbers with so many digits.
abbrev bound : ℕ → ℕ
bound zero = 1
bound (suc f) = 16 * bound f

digits_onto-digit :
    (v k : ℕ) (s : Bytes) → v < 16 → digits_onto (hex_digit v ∷ s) k ≡ digits_onto s (k * 16 + v)
unfolding digits_onto
digits_onto-digit v k s h =
    ap (λ o. elim o [ none ↦ k | some w ↦ digits_onto s (k * 16 + w) ]) (digit_value-hex_digit v h)

digits_onto-hex_onto :
    (f n : ℕ) (s : Bytes) → n < bound f → digits_onto (hex_onto f n s) 0 ≡ digits_onto s n
unfolding hex_onto
digits_onto-hex_onto zero n s h = let z : n ≡ 0 = omega arith in rw z refl
digits_onto-hex_onto (suc f) n s h =
    choose (λ t. digits_onto t 0 ≡ digits_onto s n) (ltb n 16) _ _
      (λ z. digits_onto-digit n 0 s (ground arith) ∙ ap (digits_onto s) (omega arith))
      (λ _.
        digits_onto-hex_onto f (n / 16) (hex_digit (n % 16) ∷ s) (omega arith)
        ∙ (digits_onto-digit (n % 16) (n / 16) s (omega arith) ∙ ap (digits_onto s) (omega arith)))

behind_prefix-hex : (t : Bytes) → AreHex t → behind_prefix t ≡ t
unfolding behind_prefix
behind_prefix-hex [] h = refl
behind_prefix-hex (a ∷ []) h = refl
behind_prefix-hex (a ∷ b ∷ []) h = refl
behind_prefix-hex (a ∷ b ∷ c ∷ s) (ha, (hb, h)) =
    if_false (a == b'0' && (b == b'x' || b == b'X')) _ _ (ground arith)

strtol16-digits : (t : Bytes) → AreHex t → t ≢ [] → strtol16 t ≡ to_int (digits_onto t 0)
unfolding strtol16
strtol16-digits [] h nz = absurd (nz refl)
strtol16-digits (c ∷ s) (hc, h) nz =
    if_false (is_space c) _ _ (ground arith)
    ∙ (if_false (c == b'-') _ _ (ground arith)
        ∙ (if_false (c == b'+') _ _ (ground arith)
            ∙ ap (λ t. to_int (digits_onto t 0)) (behind_prefix-hex (c ∷ s) (hc, h))))

to_int_pos : (n : ℕ) → n < 2147483648 → to_int n ≡ pos n
unfolding to_int
to_int_pos n h =
    let a : (if ltb n 9223372036854775808 then n else 9223372036854775807) ≡ n =
      if_true (ltb n 9223372036854775808) _ _ (ground arith) in
    let b : n % 4294967296 ≡ n = omega arith in
    rw (a, b) (if_true (ltb n 2147483648) _ _ (ground arith))

hex_onto-some : (f n : ℕ) (s : Bytes) → s ≢ [] → hex_onto f n s ≢ []
unfolding hex_onto
hex_onto-some zero n s h = h
hex_onto-some (suc f) n s h =
    choose (λ t. t ≢ []) (ltb n 16) _ _ (λ _ z. cc)
      (λ _. hex_onto-some f (n / 16) (hex_digit (n % 16) ∷ s) (λ z. cc))

pub hex-some : (n : ℕ) → hex n ≢ []
unfolding hex_onto
hex-some n =
    choose (λ t. t ≢ []) (ltb n 16) _ _ (λ _ z. cc)
      (λ _. hex_onto-some 7 (n / 16) (hex_digit (n % 16) ∷ []) (λ z. cc))

pub hex-AreHex : (n : ℕ) → AreHex (hex n)
hex-AreHex n = hex_onto-AreHex 8 n [] tt

-- `strtol` reads back what `sprintf` prints of an `int` that is not negative.
pub strtol16-hex : (n : ℕ) → n < 2147483648 → strtol16 (hex n) ≡ pos n
unfolding digits_onto
strtol16-hex n h =
    let b : bound 8 ≡ 4294967296 = refl in
    strtol16-digits (hex n) (hex-AreHex n) (hex-some n)
    ∙ (ap to_int (digits_onto-hex_onto 8 n [] (omega arith)) ∙ to_int_pos n h)
