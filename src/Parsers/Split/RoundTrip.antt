-- ===== src/Parsers/Split/RoundTrip.antt =====
-- What the fields of `ILibParseString` spell.
use mathlib.Core.Path.{subst}
use tv_now.Common.{
  length-drop, take-append-drop, ℕ, zero, suc, ◌+◌, ◌-◌, ◌≤◌, ◌<◌, true, false, List, [], ◌∷◌, ◌++◌,
  ◌≡◌, ◌≢◌, refl, sym, ap, ◌∙◌, append-nil, append_assoc, arith, Bytes, length, take, drop,
  take-append, length-append, Bool-cases, inl, inr,
}
use tv_now.Parsers.Split.{texts, is_delimiter, parse_loop, parse_string}
use tv_now.Parsers.Split.Rounds.{
  join, join_cons, is_delimiter-split, parse_end, texts_cut, parse_longer,
}

-- The loop's state: `token` holds the current part, then what is unread, then what lies behind.
module _ (d tail : Bytes) (hd : 0 < length d) where
  loop-ne-nil : (f left n : ℕ) (p t : Bytes) → texts (parse_loop f p left d t n) ≢ []
  unfolding parse_loop
  loop-ne-nil zero left n p t = λ h. cc
  loop-ne-nil (suc f) left n p t = ground (arith, loop-ne-nil f (left - 1) (n + 1) (drop 1 p) t)

  abbrev Joins : ℕ → Bytes → Bytes → Type 0
  Joins f cur p =
      join d (texts (parse_loop f (p ++ tail) (length p) d (cur ++ (p ++ tail)) (length cur)))
      ≡ cur ++ p

  join_end : (f : ℕ) (cur : Bytes) → Joins f cur []
  join_end f cur = rw (parse_end d _ _ f tail) (take-append cur tail ∙ sym (append-nil cur))

  join_cut :
      (f : ℕ) (cur p : Bytes)
      → is_delimiter ((d ++ p) ++ tail) (length (d ++ p)) d ≡ true
      → Joins f [] p
      → Joins (suc f) cur (d ++ p)
  join_cut f cur p found ih =
      rw (texts_cut d tail hd f cur p found)
        (join_cons d _ _ (loop-ne-nil f (length p) 0 (p ++ tail) (p ++ tail)) ∙ rw ih)

  join_longer :
      (f c : ℕ) (cur p : Bytes)
      → is_delimiter ((c ∷ p) ++ tail) (length (c ∷ p)) d ≡ false
      → Joins f (cur ++ c ∷ []) p
      → Joins (suc f) cur (c ∷ p)
  join_longer f c cur p other ih =
      let left : length (c ∷ p) - 1 ≡ length p = omega arith in
      let ih' =
        rw
          (
            append_assoc cur (c ∷ []) (p ++ tail),
            length-append cur (c ∷ []),
            append_assoc cur (c ∷ []) p,
          )
          at ih in
      rw (parse_longer d _ _ f _ _ (omega arith) other, left) ih'

  join-loop : (f : ℕ) (cur p : Bytes) → length p ≤ f → Joins f cur p
  join-loop zero cur [] h = join_end zero cur
  join-loop (suc f) cur [] h = join_end (suc f) cur
  join-loop zero cur (c ∷ p) h = absurd (omega arith)
  join-loop (suc f) cur (c ∷ p) h =
      elim (Bool-cases (is_delimiter ((c ∷ p) ++ tail) (length (c ∷ p)) d)) [
        | inl found ↦
            let rest = drop (length d) (c ∷ p) in
            let e : c ∷ p ≡ d ++ rest = is_delimiter-split d (c ∷ p) tail found in
            let shorter : length rest ≤ f = omega (arith, ap length e, length-append d rest) in
            subst (Joins (suc f) cur) (sym e) (
              join_cut f cur rest
                (subst (λ (x : Bytes). is_delimiter (x ++ tail) (length x) d ≡ true) e found)
                (join-loop f [] rest shorter))
        | inr other ↦ join_longer f c cur p other (join-loop f (cur ++ c ∷ []) p (omega arith))
      ]

length-take {ℓ} : {A : Type ℓ} (n : ℕ) (xs : List A) → n ≤ length xs → length (take n xs) ≡ n
length-take zero xs h = refl
length-take (suc n) [] h = absurd (omega arith)
length-take (suc n) (x ∷ xs) h = ap suc (length-take n xs (omega arith))

-- The texts of the fields, with the delimiter between them, spell the scanned part of the buffer:
-- nothing is lost or added, for every delimiter with a byte and every range in the buffer.
pub join-parse_string :
    (d buffer : Bytes) (offset end : ℕ)
    → 0 < length d
    → offset ≤ end
    → end ≤ length buffer
    → join d (texts (parse_string buffer offset end d)) ≡ take (end - offset) (drop offset buffer)
unfolding parse_string
join-parse_string d buffer offset end hd ho he =
    let n = end - offset in
    let p = drop offset buffer in
    let size = length-take n p (omega (arith, length-drop offset buffer)) in
    let whole = join-loop d (drop n p) hd n [] (take n p) (omega arith) in
    rw (size, take-append-drop n p) at whole
