-- ===== src/MyString/Affix.antt =====
-- MyString.c: `EndsWith` and `StartsWith`. The results 1 and 0 are `true` and `false`.
use tv_now.Common.{
  length-drop, append-nil, ℕ, zero, suc, ◌-◌, ◌≡◌, ◌↔◌, refl, sym, ap, Bool, true, false, [], ◌∷◌,
  ◌++◌, Bytes, ltb, if◌then◌else◌, arith, length, take, drop, drop-append, length-append,
  take-append-drop, ◌∙◌,
}
use tv_now.MyString.Libc.{lower, strncmp_eq, strncasecmp_eq}

unfoldable pub ends_with : Bytes → Bytes → Bool → Bool
unfolding strncmp_eq strncasecmp_eq
ends_with str ends ignore_case =
    let str_len = length str in
    let ew_len = length ends in
    let offset = str_len - ew_len in
    if ltb str_len ew_len
    then false
    else if ignore_case
    then strncasecmp_eq ew_len (drop offset str) ends
    else strncmp_eq ew_len (drop offset str) ends

unfoldable pub starts_with : Bytes → Bytes → Bool → Bool
unfolding strncmp_eq strncasecmp_eq
starts_with str prefix ignore_case =
    if ignore_case
    then strncasecmp_eq (length prefix) str prefix
    else strncmp_eq (length prefix) str prefix

-- A text, as it is compared.
abbrev pub folded : Bool → Bytes → Bytes
folded true s = lower s
folded false s = s

prefix_sound : (s t : Bytes) → strncmp_eq (length t) s t ≡ true → s ≡ t ++ drop (length t) s
unfolding strncmp_eq
prefix_sound s [] h = refl
prefix_sound [] (d ∷ t) h = cc
prefix_sound (c ∷ s) (d ∷ t) h = ground (arith, prefix_sound s t)

prefix_complete : (t s : Bytes) → strncmp_eq (length t) (t ++ s) t ≡ true
unfolding strncmp_eq
prefix_complete [] s = refl
prefix_complete (d ∷ t) s = ground (arith, prefix_complete t s)

length-lower : (s : Bytes) → length (lower s) ≡ length s
length-lower [] = refl
length-lower (c ∷ s) = ap suc (length-lower s)

drop-lower : (n : ℕ) (s : Bytes) → drop n (lower s) ≡ lower (drop n s)
drop-lower zero s = refl
drop-lower (suc n) [] = refl
drop-lower (suc n) (c ∷ s) = drop-lower n s

prefix_iff : (s t : Bytes) → (strncmp_eq (length t) s t ≡ true) ↔ ((rest : Bytes) × (s ≡ t ++ rest))
prefix_iff s t =
    (λ h. (drop (length t) s, prefix_sound s t h), λ (rest, e). rw e (prefix_complete t rest))

abbrev suffix_test : Bytes → Bytes → Bool
suffix_test s t =
    if ltb (length s) (length t)
    then false
    else strncmp_eq (length t) (drop (length s - length t) s) t

equal_lengths : (s t : Bytes) → length s ≡ length t → strncmp_eq (length t) s t ≡ true → s ≡ t
unfolding strncmp_eq
equal_lengths [] [] e h = refl
equal_lengths [] (d ∷ t) e h = absurd (omega arith)
equal_lengths (c ∷ s) [] e h = absurd (omega arith)
equal_lengths (c ∷ s) (d ∷ t) e h = ground (arith, equal_lengths s t)

suffix_sound : (s t : Bytes) → suffix_test s t ≡ true → (front : Bytes) × (s ≡ front ++ t)
suffix_sound s t h =
    let n = length s - length t in
    let size : length (drop n s) ≡ length t = ground (arith, length-drop n s) in
    let same : drop n s ≡ t = equal_lengths (drop n s) t size (ground arith) in
    (take n s, sym (take-append-drop n s) ∙ ap (λ x. take n s ++ x) same)

suffix_complete : (front t : Bytes) → suffix_test (front ++ t) t ≡ true
suffix_complete front t =
    let n : length (front ++ t) - length t ≡ length front = omega (arith, length-append front t) in
    let here : strncmp_eq (length t) t t ≡ true = rw append-nil at (prefix_complete t []) in
    let room : ltb (length (front ++ t)) (length t) ≡ false =
      ground (arith, length-append front t) in
    rw (room, n, drop-append front t) here

suffix_iff : (s t : Bytes) → (suffix_test s t ≡ true) ↔ ((front : Bytes) × (s ≡ front ++ t))
suffix_iff s t = (suffix_sound s t, λ (front, e). rw e (suffix_complete front t))

-- `StartsWith` decides whether the text is the prefix and something more, both folded to lower
-- case if case is ignored.
pub starts_with_iff :
    (s t : Bytes) (ic : Bool)
    → (starts_with s t ic ≡ true) ↔ ((rest : Bytes) × (folded ic s ≡ folded ic t ++ rest))
unfolding starts_with strncasecmp_eq
starts_with_iff s t true = rw (← length-lower t) (prefix_iff (lower s) (lower t))
starts_with_iff s t false = prefix_iff s t

-- `EndsWith` decides whether the text is something and then the suffix, both folded to lower case
-- if case is ignored.
pub ends_with_iff :
    (s t : Bytes) (ic : Bool)
    → (ends_with s t ic ≡ true) ↔ ((front : Bytes) × (folded ic s ≡ front ++ folded ic t))
unfolding ends_with strncasecmp_eq
ends_with_iff s t true =
    rw (← length-lower t, ← length-lower s, ← drop-lower) (suffix_iff (lower s) (lower t))
ends_with_iff s t false = suffix_iff s t
