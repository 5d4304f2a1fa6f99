-- ===== src/Server/Directive/RoundTrip.antt =====
-- Percent escapes in the directive of a request, and the size of the path that is made of it.
use native.Mathlib.Nat.{add-mul, one-mul, mul-le-mul_right}
use tv_now.Common.{
  ℕ, zero, suc, ◌+◌, ◌*◌, ◌/◌, ◌%◌, ◌≤◌, ◌<◌, Bool, true, false, not, ◌&&◌, List, [], ◌∷◌, ◌++◌,
  map, Option, none, some, ◌≡◌, ◌≢◌, refl, sym, ap, ◌∙◌, Bytes, ◌==◌, ltb, if◌then◌else◌, if_true,
  if_false, length, length-append, length-drop, drop, All, arith, Bool-cases, inl, inr,
}
use tv_now.Server.Hex.{get_char_from_hex, digit, get_char_from_hex-digit}
use tv_now.Server.Directive.{
  unescape, put_delimiter, append_path, full_path, slash_count, path_size,
}

-- Percent escapes with upper-case digits, for all bytes but the plain ones.
unfoldable pub escape : (ℕ → Bool) → Bytes → Bytes
escape plain [] = []
escape plain (c ∷ s) =
    let rest = escape plain s in
    if plain c then c ∷ rest else b'%' ∷ digit b'A' (c / 16) ∷ digit b'A' (c % 16) ∷ rest

unescape_plain : (c : ℕ) (s : Bytes) → c ≢ b'%' → unescape (c ∷ s) ≡ c ∷ unescape s
unfolding unescape
unescape_plain c [] h = refl
unescape_plain c (a ∷ []) h = refl
unescape_plain c (a ∷ b ∷ s) h =
    let e : (c == b'%') ≡ false = ground arith in
    if_false (c == b'%' && not (get_char_from_hex a b == 0)) _ _
      (ap (λ x. x && not (get_char_from_hex a b == 0)) e)

unescape_digits :
    (c : ℕ) (s : Bytes)
    → 0 < c
    → c < 256
    → unescape (b'%' ∷ digit b'A' (c / 16) ∷ digit b'A' (c % 16) ∷ s) ≡ c ∷ unescape s
unfolding unescape
unescape_digits c s some_byte h =
    let r : get_char_from_hex (digit b'A' (c / 16)) (digit b'A' (c % 16)) ≡ c =
      (get_char_from_hex-digit c h).0 in
    let nz : not (c == 0) ≡ true = ground arith in
    let a = digit b'A' (c / 16) in
    let b = digit b'A' (c % 16) in
    ap (λ x. if not (x == 0) then x ∷ unescape s else b'%' ∷ unescape (a ∷ b ∷ s)) r
    ∙ if_true (not (c == 0)) _ _ nz

-- The unescaping of `HandleWebRequest` gives back every text of bytes that are not NUL, from escapes with
-- upper-case digits for at least the percent signs in it.
pub unescape-escape :
    (plain : ℕ → Bool) (s : Bytes)
    → plain b'%' ≡ false
    → All (λ c. (0 < c) × (c < 256)) s
    → unescape (escape plain s) ≡ s
unfolding escape unescape
unescape-escape plain [] p h = refl
unescape-escape plain (c ∷ s) p ((some_byte, byte), h) =
    let rest = unescape-escape plain s p h in
    elim (Bool-cases (plain c)) [
      | inl y ↦
          let other : c ≢ b'%' = λ e. (let y' : plain b'%' ≡ true = ap plain (sym e) ∙ y in cc) in
          ap unescape (if_true (plain c) _ _ y)
          ∙ (unescape_plain c (escape plain s) other ∙ ap (◌∷◌ c) rest)
      | inr n ↦
          ap unescape (if_false (plain c) _ _ n)
          ∙ (unescape_digits c (escape plain s) some_byte byte ∙ ap (◌∷◌ c) rest)
    ]

put_delimiter_size : (d : Bytes) → length (put_delimiter d) ≡ length d
unfolding put_delimiter
put_delimiter_size [] = refl
put_delimiter_size (d ∷ []) = refl
put_delimiter_size (d ∷ e ∷ ds) =
    length-append (put_delimiter (e ∷ ds)) (none ∷ [])
    ∙ (let a = put_delimiter_size (e ∷ ds) in omega arith)

append_path_size : (d s : Bytes) → length (append_path d s) ≤ length s + slash_count s * length d
unfolding append_path slash_count
append_path_size d [] = omega arith
append_path_size d (c ∷ s) =
    let ih = append_path_size d s in
    let rest = append_path d s in
    elim (Bool-cases (c == b'/')) [
      | inl y ↦
          let a = length-append (put_delimiter d) rest in
          let b = put_delimiter_size d in
          let m = add-mul 1 (slash_count s) (length d) in
          let n = one-mul (length d) in
          rw
            (
              if_true (c == b'/') (put_delimiter d) (some c ∷ []) y,
              if_true {A = ℕ} (c == b'/') 1 0 y,
            )
            (omega arith)
      | inr n ↦
          let z : 0 + slash_count s ≡ slash_count s = omega arith in
          rw
            (
              if_false (c == b'/') (put_delimiter d) (some c ∷ []) n,
              if_false {A = ℕ} (c == b'/') 1 0 n,
              z,
            )
            (omega arith)
    ]

slash_count-drop : (n : ℕ) (s : Bytes) → slash_count (drop n s) ≤ slash_count s
unfolding slash_count
slash_count-drop zero s = omega arith
slash_count-drop (suc n) [] = omega arith
slash_count-drop (suc n) (c ∷ s) = let ih = slash_count-drop n s in omega arith

length-some : (s : Bytes) → length (map some s) ≡ length s
length-some [] = refl
length-some (c ∷ s) = ap suc (length-some s)

-- Of a root and a directive that reaches to where the path in the virtual directory begins
-- `HandleWebRequest` makes a path, which fits, with its closing NUL, the buffer that it allocates.
pub full_path-path_size :
    (root delimiter : Bytes) (vir_dir_len : ℕ) (directive : Bytes)
    → vir_dir_len + 2 ≤ length directive
    → (path : List (Option ℕ)) × (full_path root delimiter vir_dir_len directive ≡ some path)
      × (length path + 1 ≤ path_size root delimiter directive)
unfolding full_path path_size
full_path-path_size root d v s h =
    let rest = drop (v + 2) s in
    let e : ltb (length s) (v + 2) ≡ false = ground arith in
    let a = length-append (map some root) (append_path d rest) in
    let b = length-some root in
    let c = append_path_size d rest in
    let k = length-drop (v + 2) s in
    let m = mul-le-mul_right (length d) (slash_count-drop (v + 2) s) in
    (map some root ++ append_path d rest, if_false (ltb (length s) (v + 2)) _ _ e, omega arith)
