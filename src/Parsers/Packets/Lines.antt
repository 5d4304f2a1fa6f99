-- ===== src/Parsers/Packets/Lines.antt =====
-- Header lines as `ILibGetRawPacket` writes them.
use tv_now.Common.{
  ℕ, suc, ◌+◌, ◌-◌, not, List, [], ◌∷◌, ◌++◌, map, none, some, ◌≡◌, ◌≢◌, refl, ap, ◌∙◌, Bytes,
  codes, ◌==◌, if◌then◌else◌, if_true, if_false, length, take, drop, take_all, take-append,
  append_assoc, length-append, All, Lacks, arith, ◌>>=◌,
}
use tv_now.Parsers.Split.{Field}
use tv_now.Parsers.Split.Rounds.{join}
use tv_now.Parsers.Split.Fields.{cuts}
use tv_now.Parsers.Packets.{
  HeaderField, split_line, first_no_blank, last_no_blank, or_else, trim, parse_line, parse_lines,
  raw_line, crlf,
}

split_line-append : (a s : Bytes) → Lacks b':' a → split_line (a ++ (b':' ∷ s)) ≡ some (a, s)
unfolding split_line
split_line-append [] s h = refl
split_line-append (c ∷ a) s (hc, h) =
    if_false (c == b':') _ _ (ground arith)
    ∙ ap (λ o. o >>= λ x. some (c ∷ x.0, x.1)) (split_line-append a s h)

-- Data that begin, and end, with a byte other than a blank.
abbrev pub StartsPlain : Bytes → Type 0
StartsPlain [] = ⊥
StartsPlain (c ∷ s) = c ≢ b' '

abbrev pub EndsPlain : Bytes → Type 0
EndsPlain [] = ⊥
EndsPlain (c ∷ []) = c ≢ b' '
EndsPlain (c ∷ d ∷ s) = EndsPlain (d ∷ s)

last_no_blank-EndsPlain :
    (c : ℕ) (s : Bytes) (i : ℕ) → EndsPlain (c ∷ s) → last_no_blank (c ∷ s) i ≡ some (i + length s)
unfolding last_no_blank
last_no_blank-EndsPlain c [] i h =
    if_true (not (c == b' ')) _ _ (ground arith) ∙ ap some (omega arith)
last_no_blank-EndsPlain c (d ∷ s) i h =
    let z : i + 1 + length s ≡ i + suc (length s) = omega arith in
    ap (λ o. elim o [ none ↦ (if not (c == b' ') then some i else none) | some k ↦ some k ])
      (last_no_blank-EndsPlain d s (i + 1) h)
    ∙ ap some z

trim-plain : (s : Bytes) → StartsPlain s → EndsPlain s → trim (b' ' ∷ s) ≡ s
unfolding trim first_no_blank last_no_blank
trim-plain [] h e = absurd h
trim-plain (c ∷ s) h e =
    let first : first_no_blank (c ∷ s) (0 + 1) ≡ some 1 =
      if_true (not (c == b' ')) _ _ (ground arith) in
    let last = last_no_blank-EndsPlain c s (0 + 1) e in
    let size : 0 + 1 + length s + 1 - 1 ≡ suc (length s) = omega arith in
    ap
      (λ o.
        take
          (or_else (elim (last_no_blank (c ∷ s) (0 + 1)) [ none ↦ none | some k ↦ some k ])
              (suc (length s))
            + 1
            - or_else o 0)
          (drop (or_else o 0) (b' ' ∷ c ∷ s)))
      first
    ∙ (ap
          (λ o.
            take (or_else (elim o [ none ↦ none | some k ↦ some k ]) (suc (length s)) + 1 - 1)
              (c ∷ s))
          last
        ∙ (ap (λ n. take n (c ∷ s)) size ∙ take_all (c ∷ s)))

-- A header field as it can be written on a line.
pub record IsField (h : HeaderField) : Type 0 where
  pub no_colon : Lacks b':' h.field
  pub no_return : Lacks b'\r' (raw_line h)
  pub starts_plain : StartsPlain h.field_data
  pub ends_plain : EndsPlain h.field_data

parse_line-raw_line : (h : HeaderField) → IsField h → parse_line (raw_line h) ≡ some h
unfolding parse_line
parse_line-raw_line h f =
    ap (λ o. o >>= λ x. some (record { field = x.0; field_data = trim x.1 }))
      (split_line-append h.field (b' ' ∷ h.field_data) f.no_colon)
    ∙ ap (λ d. some (record { field = h.field; field_data = d }))
        (trim-plain h.field_data f.starts_plain f.ends_plain)

-- The text of the first of such fields.
pub text_cut :
    (d p : Bytes) (ps : List Bytes) (tail : Bytes) → take (length p) (join d (p ∷ ps) ++ tail) ≡ p
text_cut d p [] tail = take-append p tail
text_cut d p (q ∷ ps) tail =
    ap (take (length p)) (append_assoc p (d ++ join d (q ∷ ps)) tail)
    ∙ take-append p ((d ++ join d (q ∷ ps)) ++ tail)

-- The lines of such fields, up to an empty line.
pub parse_lines-raw_line :
    (hs : List HeaderField) (tail : Bytes) (e : Field) (more : List Field)
    → e.datalength ≡ 0
    → All IsField hs
    → parse_lines (cuts crlf (map raw_line hs) tail ++ (e ∷ more)) ≡ some hs
unfolding parse_lines
parse_lines-raw_line [] tail e more z h = if_true (e.datalength == 0) _ _ (ground arith)
parse_lines-raw_line (f ∷ fs) tail e more z (hf, h) =
    let size = length-append f.field (codes ": " ++ f.field_data) in
    let others = parse_lines (cuts crlf (map raw_line fs) tail ++ (e ∷ more)) in
    if_false (length (raw_line f) == 0) _ _ (ground arith)
    ∙ (ap (λ t. parse_line t >>= λ x. (others >>= λ xs. some (x ∷ xs)))
          (text_cut crlf (raw_line f) (map raw_line fs) tail)
        ∙ (ap (λ o. o >>= λ x. (others >>= λ xs. some (x ∷ xs))) (parse_line-raw_line f hf)
            ∙ ap (λ o. o >>= λ xs. some (f ∷ xs)) (parse_lines-raw_line fs tail e more z h)))
