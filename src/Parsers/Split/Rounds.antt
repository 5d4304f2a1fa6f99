-- ===== src/Parsers/Split/Rounds.antt =====
-- The rounds of the loop of `ILibParseString`.
use tv_now.Common.{
  ℕ, zero, suc, ◌+◌, ◌-◌, ◌≤◌, ◌<◌, true, false, List, [], ◌∷◌, ◌++◌, ◌≡◌, ◌≢◌, refl, ◌∙◌,
  append_assoc, arith, Bytes, length, drop, drop-append, drop_more, take-append, length-append,
  starts,
}
use tv_now.Parsers.Split.{Field, texts, is_delimiter, parse_loop}

-- The texts with the delimiter between them.
abbrev pub join : Bytes → List Bytes → Bytes
join d [] = []
join d (p ∷ []) = p
join d (p ∷ q ∷ ps) = p ++ (d ++ join d (q ∷ ps))

pub join_cons : (d p : Bytes) (ps : List Bytes) → ps ≢ [] → join d (p ∷ ps) ≡ p ++ (d ++ join d ps)
join_cons d p [] h = absurd (h refl)
join_cons d p (q ∷ ps) h = refl

pub starts_window :
    (d p tail : Bytes)
    → length d ≤ length p
    → starts d (p ++ tail) ≡ true
    → p ≡ d ++ drop (length d) p
unfolding starts
starts_window [] p tail h e = refl
starts_window (a ∷ d) [] tail h e = absurd (omega arith)
starts_window (a ∷ d) (c ∷ p) tail h e = ground (arith, starts_window d p tail)

pub is_delimiter-split :
    (d p tail : Bytes) → is_delimiter (p ++ tail) (length p) d ≡ true → p ≡ d ++ drop (length d) p
unfolding is_delimiter
is_delimiter-split d p tail h = ground (arith, starts_window d p tail)

module _ (d token : Bytes) (n : ℕ) where
  abbrev here : Field
  here = record { start = token; datalength = n }

  pub parse_end : (f : ℕ) (p : Bytes) → parse_loop f p 0 d token n ≡ here ∷ []
  unfolding parse_loop
  parse_end zero p = refl
  parse_end (suc f) p = refl

  pub parse_found :
      (f left : ℕ) (p : Bytes)
      → 0 < left
      → is_delimiter p left d ≡ true
      → parse_loop (suc f) p left d token n
        ≡ here ∷ parse_loop f (drop (length d) p) (left - length d) d (drop (n + length d) token) 0
  unfolding parse_loop
  parse_found f left p h e = rw e (ground arith)

  pub parse_longer :
      (f left : ℕ) (p : Bytes)
      → 0 < left
      → is_delimiter p left d ≡ false
      → parse_loop (suc f) p left d token n ≡ parse_loop f (drop 1 p) (left - 1) d token (n + 1)
  unfolding parse_loop
  parse_longer f left p h e = rw e (ground arith)

module _ (d tail : Bytes) (hd : 0 < length d) where
  -- At a delimiter the current part ends, and the next begins behind it.
  pub texts_cut :
      (f : ℕ) (cur p : Bytes)
      → is_delimiter ((d ++ p) ++ tail) (length (d ++ p)) d ≡ true
      → texts (
          parse_loop
            (suc f)
            ((d ++ p) ++ tail)
            (length (d ++ p))
            d
            (cur ++ ((d ++ p) ++ tail))
            (length cur))
        ≡ cur ∷ texts (parse_loop f (p ++ tail) (length p) d (p ++ tail) 0)
  texts_cut f cur p found =
      let left : length (d ++ p) - length d ≡ length p = omega (arith, length-append d p) in
      let some_left : 0 < length (d ++ p) = omega (arith, length-append d p) in
      let next : drop (length d) ((d ++ p) ++ tail) ≡ p ++ tail =
        rw append_assoc (drop-append d (p ++ tail)) in
      let token : drop (length cur + length d) (cur ++ ((d ++ p) ++ tail)) ≡ p ++ tail =
        drop_more (length d) cur _ ∙ next in
      rw (
        parse_found d _ _ f _ _ some_left found,
        left,
        next,
        token,
        take-append cur ((d ++ p) ++ tail),
      )
