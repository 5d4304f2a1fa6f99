-- ===== src/Parsers/Split/Quoted.antt =====
-- `ILibParseStringAdv` on texts without quotes.
use tv_now.Common.{
  ℕ, zero, suc, ◌+◌, ◌-◌, ◌≡◌, ◌≢◌, refl, false, [], ◌∷◌, Bytes, length, drop, All, arith,
}
use tv_now.Parsers.Split.{
  parse_loop, parse_string, Quote, quote_step, first, parse_loop_adv, parse_string_adv,
}

abbrev pub IsPlain : ℕ → Type 0
IsPlain c = (c ≢ b'"') × (c ≢ b'\'')

abbrev outside : Quote
outside = record { string_delimiter = 0; ignore = false }

drop-All : (n : ℕ) (s : Bytes) → All IsPlain s → All IsPlain (drop n s)
drop-All zero s h = h
drop-All (suc n) [] h = tt
drop-All (suc n) (c ∷ s) (hc, h) = drop-All n s h

quote_step-outside : (p : Bytes) → All IsPlain p → quote_step outside (first p) ≡ outside
unfolding quote_step
quote_step-outside [] h = refl
quote_step-outside (c ∷ p) ((hd, hs), h) = ground arith

parse_loop_adv-parse_loop :
    (f : ℕ) (p : Bytes) (left : ℕ) (d token : Bytes) (n : ℕ)
    → All IsPlain p
    → parse_loop_adv f p left d token n outside ≡ parse_loop f p left d token n
unfolding parse_loop_adv parse_loop
parse_loop_adv-parse_loop zero p left d token n h = refl
parse_loop_adv-parse_loop (suc f) p left d token n h =
    rw
      (
        quote_step-outside p h,
        parse_loop_adv-parse_loop f (drop (length d) p) (left - length d) d
            (drop (n + length d) token) 0 (drop-All (length d) p h),
        parse_loop_adv-parse_loop f (drop 1 p) (left - 1) d token (n + 1) (drop-All 1 p h),
      )
      refl

-- On a buffer without quotes `ILibParseStringAdv` gives the fields of `ILibParseString`, for every
-- delimiter and range.
pub parse_string_adv-parse_string :
    (buffer : Bytes) (offset end : ℕ) (d : Bytes)
    → All IsPlain buffer
    → parse_string_adv buffer offset end d ≡ parse_string buffer offset end d
unfolding parse_string_adv parse_string
parse_string_adv-parse_string buffer offset end d h =
    parse_loop_adv-parse_loop (end - offset) (drop offset buffer) (end - offset) d
      (drop offset buffer) 0 (drop-All offset buffer h)
