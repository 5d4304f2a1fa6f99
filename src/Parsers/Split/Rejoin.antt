-- ===== src/Parsers/Split/Rejoin.antt =====
-- `ILibParseString` on parts that a delimiter joins.
use native.Mathlib.Nat.{zero-add, add-zero}
use tv_now.Common.{
  starts-append, ℕ, zero, suc, ◌+◌, ◌-◌, ◌≤◌, true, false, List, [], ◌∷◌, ◌++◌, ◌≡◌, ◌≢◌, refl, ap,
  ◌∙◌, append_assoc, arith, Bytes, length, drop-append, take-append, length-append, starts, All,
  Lacks,
}
use tv_now.Parsers.Split.{texts, is_delimiter, parse_loop, parse_string}
use tv_now.Parsers.Split.Rounds.{join, parse_end, texts_cut, parse_longer}

lacks-starts :
    (a left : ℕ) (d s : Bytes) (c : ℕ) → c ≢ a → is_delimiter (c ∷ s) left (a ∷ d) ≡ false
unfolding is_delimiter starts
lacks-starts a left d s c h = ground arith

module _ (a : ℕ) (d tail : Bytes) where
  -- The loop passes over a part that lacks the delimiter's first byte.
  loop_part :
      (part rest token : Bytes) (n g left : ℕ)
      → Lacks a part
      → parse_loop (length part + g) (part ++ rest) (length part + left) (a ∷ d) token n
        ≡ parse_loop g rest left (a ∷ d) token (n + length part)
  loop_part [] rest token n g left h = simp (zero-add, add-zero)
  loop_part (c ∷ part) rest token n g left (hc, h) =
      let fuel : suc (length part) + g ≡ suc (length part + g) = omega arith in
      let fewer : suc (length part) + left - 1 ≡ length part + left = omega arith in
      let more : n + 1 + length part ≡ n + suc (length part) = omega arith in
      rw fuel (
        parse_longer (a ∷ d) token n _ _ _ (omega arith) (lacks-starts a _ d _ c hc)
        ∙ rw fewer (loop_part part rest token (n + 1) g left h ∙ rw more))

  pub loop_first_part :
      (part rest token : Bytes) (f g total left : ℕ)
      → f ≡ length part + g
      → total ≡ length part + left
      → Lacks a part
      → parse_loop f (part ++ rest) total (a ∷ d) token 0
        ≡ parse_loop g rest left (a ∷ d) token (length part)
  loop_first_part part rest token f g total left ef et h =
      rw (ef, et) (loop_part part rest token 0 g left h ∙ rw zero-add)

  pub delimiter_here :
      (r : Bytes) → is_delimiter (((a ∷ d) ++ r) ++ tail) (length ((a ∷ d) ++ r)) (a ∷ d) ≡ true
  unfolding is_delimiter
  delimiter_here r =
      rw append_assoc (ground (arith, length-append d r, starts-append (a ∷ d) (r ++ tail)))

  abbrev Recovers : ℕ → List Bytes → Type 0
  Recovers f ps =
      let s = join (a ∷ d) ps in
      texts (parse_loop f (s ++ tail) (length s) (a ∷ d) (s ++ tail) 0) ≡ ps

  last_field : (p : Bytes) (f : ℕ) → length p ≤ f → Lacks a p → Recovers f (p ∷ [])
  last_field p f hf hp =
      rw
        (loop_first_part p tail (p ++ tail) f (f - length p) (length p) 0 (omega arith)
          (omega arith) hp)
        (rw (parse_end (a ∷ d) (p ++ tail) (length p) (f - length p) tail, take-append p tail))

  more_fields :
      (p r : Bytes) (qs : List Bytes) (f : ℕ)
      → length (p ++ ((a ∷ d) ++ r)) ≤ suc f
      → Lacks a p
      → ((g : ℕ)
          → length r ≤ g
          → texts (parse_loop g (r ++ tail) (length r) (a ∷ d) (r ++ tail) 0) ≡ qs)
      → texts (
          parse_loop
            (suc f)
            ((p ++ ((a ∷ d) ++ r)) ++ tail)
            (length (p ++ ((a ∷ d) ++ r)))
            (a ∷ d)
            ((p ++ ((a ∷ d) ++ r)) ++ tail)
            0)
        ≡ p ∷ qs
  more_fields p r qs f hf hp ih =
      let g = f - length p in
      let size = length-append p ((a ∷ d) ++ r) in
      rw append_assoc (
        rw
          (loop_first_part p (((a ∷ d) ++ r) ++ tail) _ (suc f) (suc g) _ (length ((a ∷ d) ++ r))
            (omega arith) size hp)
          (texts_cut (a ∷ d) tail (omega arith) g p r (delimiter_here r)
            ∙ ap (◌∷◌ p) (ih g (omega (arith, length-append (a ∷ d) r)))))

  texts-join :
      (p : Bytes) (ps : List Bytes) (f : ℕ)
      → length (join (a ∷ d) (p ∷ ps)) ≤ f
      → All (Lacks a) (p ∷ ps)
      → Recovers f (p ∷ ps)
  texts-join p [] f hf (hp, _) = last_field p f hf hp
  texts-join p (q ∷ qs) zero hf (hp, hq) =
      absurd (omega (arith, length-append p ((a ∷ d) ++ join (a ∷ d) (q ∷ qs))))
  texts-join p (q ∷ qs) (suc f) hf (hp, hq) =
      more_fields p _ (q ∷ qs) f hf hp (λ g h. texts-join q qs g h hq)

-- Splitting the parts that a delimiter joins gives the parts back, wherever they stand in the
-- buffer, if there is a part and none holds the delimiter's first byte.
pub parse_string-join :
    (a : ℕ) (d front tail : Bytes) (ps : List Bytes)
    → ps ≢ []
    → All (Lacks a) ps
    → texts (
        parse_string
          (front ++ (join (a ∷ d) ps ++ tail))
          (length front)
          (length front + length (join (a ∷ d) ps))
          (a ∷ d))
      ≡ ps
unfolding parse_string
parse_string-join a d front tail [] h hp = absurd (h refl)
parse_string-join a d front tail (p ∷ ps) h hp =
    let s = join (a ∷ d) (p ∷ ps) in
    let size : length front + length s - length front ≡ length s = omega arith in
    rw (drop-append front (s ++ tail), size) (texts-join a d tail p ps (length s) (omega arith) hp)
