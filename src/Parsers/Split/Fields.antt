-- ===== src/Parsers/Split/Fields.antt =====
-- The fields of `ILibParseString` on parts that a delimiter joins: their pointers and lengths.
use tv_now.Common.{
  ℕ, zero, suc, ◌+◌, ◌-◌, ◌≤◌, List, [], ◌∷◌, ◌++◌, ◌≡◌, true, refl, sym, ap, ◌∙◌, append_assoc,
  arith, Bytes, length, drop, drop-append, length-append, All, Lacks, drop_more,
}
use tv_now.Parsers.Split.{Field, is_delimiter, parse_loop, parse_string}
use tv_now.Parsers.Split.Rounds.{join, parse_end, parse_found}
use tv_now.Parsers.Split.Rejoin.{loop_first_part, delimiter_here}

-- A field for every part, at the place of the part.
abbrev pub cuts : Bytes → List Bytes → Bytes → List Field
cuts d [] tail = []
cuts d (p ∷ ps) tail =
    record { start = join d (p ∷ ps) ++ tail; datalength = length p } ∷ cuts d ps tail

module _ (a : ℕ) (d tail : Bytes) where
  -- A part and the delimiter behind it.
  one_part :
      (p r : Bytes) (f : ℕ)
      → length (p ++ ((a ∷ d) ++ r)) ≤ suc f
      → Lacks a p
      → parse_loop
          (suc f)
          ((p ++ ((a ∷ d) ++ r)) ++ tail)
          (length (p ++ ((a ∷ d) ++ r)))
          (a ∷ d)
          ((p ++ ((a ∷ d) ++ r)) ++ tail)
          0
        ≡ record { start = (p ++ ((a ∷ d) ++ r)) ++ tail; datalength = length p }
          ∷ parse_loop (f - length p) (r ++ tail) (length r) (a ∷ d) (r ++ tail) 0
  one_part p r f hf hp =
      let s = (p ++ ((a ∷ d) ++ r)) ++ tail in
      let g = f - length p in
      let size = length-append p ((a ∷ d) ++ r) in
      let size2 = length-append (a ∷ d) r in
      let left : length ((a ∷ d) ++ r) - length (a ∷ d) ≡ length r = omega arith in
      let next : drop (length (a ∷ d)) (((a ∷ d) ++ r) ++ tail) ≡ r ++ tail =
        ap (drop (length (a ∷ d))) (append_assoc (a ∷ d) r tail)
        ∙ drop-append (a ∷ d) (r ++ tail) in
      let token : drop (length p + length (a ∷ d)) s ≡ r ++ tail =
        ap (drop (length p + length (a ∷ d))) (append_assoc p ((a ∷ d) ++ r) tail)
        ∙ (drop_more (length (a ∷ d)) p (((a ∷ d) ++ r) ++ tail) ∙ next) in
      ap (λ x. parse_loop (suc f) x (length (p ++ ((a ∷ d) ++ r))) (a ∷ d) s 0)
        (append_assoc p ((a ∷ d) ++ r) tail)
      ∙ (loop_first_part a d tail p (((a ∷ d) ++ r) ++ tail) s (suc f) (suc g) _
            (length ((a ∷ d) ++ r)) (omega arith) size hp
          ∙ (parse_found (a ∷ d) s (length p) g (length ((a ∷ d) ++ r)) (((a ∷ d) ++ r) ++ tail)
                (omega arith) (delimiter_here a d tail r)
              ∙ ap (◌∷◌ (record { start = s; datalength = length p }))
                  (rw (next, left, token) refl)))

  loop-cuts :
      (p : Bytes) (ps : List Bytes) (f : ℕ)
      → length (join (a ∷ d) (p ∷ ps)) ≤ f
      → All (Lacks a) (p ∷ ps)
      → parse_loop f
          (join (a ∷ d) (p ∷ ps) ++ tail)
          (length (join (a ∷ d) (p ∷ ps)))
          (a ∷ d)
          (join (a ∷ d) (p ∷ ps) ++ tail)
          0
        ≡ cuts (a ∷ d) (p ∷ ps) tail
  loop-cuts p [] f hf (hp, _) =
      loop_first_part a d tail p tail (p ++ tail) f (f - length p) (length p) 0 (omega arith)
        (omega arith) hp
      ∙ parse_end (a ∷ d) (p ++ tail) (length p) (f - length p) tail
  loop-cuts p (q ∷ qs) zero hf (hp, hq) =
      absurd (omega (arith, length-append p ((a ∷ d) ++ join (a ∷ d) (q ∷ qs))))
  loop-cuts p (q ∷ qs) (suc f) hf (hp, hq) =
      let r = join (a ∷ d) (q ∷ qs) in
      let size = length-append p ((a ∷ d) ++ r) in
      let size2 = length-append (a ∷ d) r in
      one_part p r f hf hp
      ∙ ap (◌∷◌ (record { start = (p ++ ((a ∷ d) ++ r)) ++ tail; datalength = length p }))
          (loop-cuts q qs (f - length p) (omega arith) hq)

  -- Parts in front of anything: the scan goes on behind the delimiter that follows them.
  loop-front :
      (p : Bytes) (ps : List Bytes) (x : Bytes) (f : ℕ)
      → length (join (a ∷ d) (p ∷ ps) ++ ((a ∷ d) ++ x)) ≤ f
      → All (Lacks a) (p ∷ ps)
      → (g : ℕ) × (length x ≤ g)
        × (parse_loop f
              ((join (a ∷ d) (p ∷ ps) ++ ((a ∷ d) ++ x)) ++ tail)
              (length (join (a ∷ d) (p ∷ ps) ++ ((a ∷ d) ++ x)))
              (a ∷ d)
              ((join (a ∷ d) (p ∷ ps) ++ ((a ∷ d) ++ x)) ++ tail)
              0
            ≡ cuts (a ∷ d) (p ∷ ps) (((a ∷ d) ++ x) ++ tail)
              ++ parse_loop g (x ++ tail) (length x) (a ∷ d) (x ++ tail) 0)
  loop-front p ps x zero hf h =
      absurd (omega (arith, length-append (join (a ∷ d) (p ∷ ps)) ((a ∷ d) ++ x)))
  loop-front p [] x (suc f) hf (hp, _) = (
    f - length p,
    omega (arith, length-append p ((a ∷ d) ++ x), length-append (a ∷ d) x),
    one_part p x f hf hp
        ∙ ap
            (λ s.
              record { start = s; datalength = length p }
              ∷ parse_loop (f - length p) (x ++ tail) (length x) (a ∷ d) (x ++ tail) 0)
            (append_assoc p ((a ∷ d) ++ x) tail),
  )
  loop-front p (q ∷ qs) x (suc f) hf (hp, hq) =
      let r = join (a ∷ d) (q ∷ qs) in
      let r' = r ++ ((a ∷ d) ++ x) in
      let e : (p ++ ((a ∷ d) ++ r)) ++ ((a ∷ d) ++ x) ≡ p ++ ((a ∷ d) ++ r') =
        append_assoc p ((a ∷ d) ++ r) ((a ∷ d) ++ x)
        ∙ ap (◌++◌ p) (append_assoc (a ∷ d) r ((a ∷ d) ++ x)) in
      let size = ap length e in
      let (g, hg, ih) =
        loop-front q qs x (f - length p)
          (omega (arith, length-append p ((a ∷ d) ++ r'), length-append (a ∷ d) r')) hq in
      (
        g,
        hg,
        ap (λ s. parse_loop (suc f) (s ++ tail) (length s) (a ∷ d) (s ++ tail) 0) e
            ∙ (one_part p r' f (omega (arith, size)) hp
                ∙ (ap
                      (λ s.
                        record { start = s; datalength = length p }
                        ∷ parse_loop (f - length p) (r' ++ tail) (length r') (a ∷ d) (r' ++ tail) 0)
                      (ap (λ s. s ++ tail) (sym e)
                        ∙ append_assoc (p ++ ((a ∷ d) ++ r)) ((a ∷ d) ++ x) tail)
                    ∙ ap
                        (◌∷◌ (record {
                          start = (p ++ ((a ∷ d) ++ r)) ++ (((a ∷ d) ++ x) ++ tail);
                          datalength = length p;
                        }))
                        ih)),
      )

-- `ILibParseString` of parts that a delimiter joins, none of which holds the delimiter's first byte.
pub parse_string-cuts :
    (a : ℕ) (d front tail p : Bytes) (ps : List Bytes)
    → All (Lacks a) (p ∷ ps)
    → parse_string
        (front ++ (join (a ∷ d) (p ∷ ps) ++ tail))
        (length front)
        (length front + length (join (a ∷ d) (p ∷ ps)))
        (a ∷ d)
      ≡ cuts (a ∷ d) (p ∷ ps) tail
unfolding parse_string
parse_string-cuts a d front tail p ps h =
    let s = join (a ∷ d) (p ∷ ps) in
    let size : length front + length s - length front ≡ length s = omega arith in
    rw (drop-append front (s ++ tail), size) (loop-cuts a d tail p ps (length s) (omega arith) h)

-- The same, with an empty part behind them and then anything: the fields of the parts, one without a byte, and others.
pub parse_string-empty_part :
    (a : ℕ) (d tail p : Bytes) (ps : List Bytes) (y : Bytes)
    → All (Lacks a) (p ∷ ps)
    → (more : List Field) × (parse_string
          ((join (a ∷ d) (p ∷ ps) ++ ((a ∷ d) ++ ((a ∷ d) ++ y))) ++ tail)
          0
          (length (join (a ∷ d) (p ∷ ps) ++ ((a ∷ d) ++ ((a ∷ d) ++ y))))
          (a ∷ d)
        ≡ cuts (a ∷ d) (p ∷ ps) (((a ∷ d) ++ ((a ∷ d) ++ y)) ++ tail)
          ++ (record { start = ((a ∷ d) ++ y) ++ tail; datalength = 0 } ∷ more))
unfolding parse_string
parse_string-empty_part a d tail p ps y h =
    let x = (a ∷ d) ++ y in
    let s = join (a ∷ d) (p ∷ ps) ++ ((a ∷ d) ++ x) in
    let (g, hg, e) = loop-front a d tail p ps x (length s) (omega arith) h in
    let (more, e') = behind g x tail (omega arith) (delimiter_here a d tail y) in
    let whole : length s - 0 ≡ length s = omega arith in
    (
      more,
      ap (λ n. parse_loop n (s ++ tail) n (a ∷ d) (s ++ tail) 0) whole
          ∙ (e ∙ ap (◌++◌ (cuts (a ∷ d) (p ∷ ps) (((a ∷ d) ++ x) ++ tail))) e'),
    )
  where
    behind :
        (g : ℕ) (x tail : Bytes)
        → length x ≤ g
        → is_delimiter (x ++ tail) (length x) (a ∷ d) ≡ true
        → (more : List Field) × (parse_loop g (x ++ tail) (length x) (a ∷ d) (x ++ tail) 0
            ≡ record { start = x ++ tail; datalength = 0 } ∷ more)
    behind zero [] tail hg found = ([], parse_end (a ∷ d) tail 0 0 tail)
    behind (suc g) [] tail hg found = ([], parse_end (a ∷ d) tail 0 (suc g) tail)
    behind zero (c ∷ x) tail hg found = absurd (omega arith)
    behind (suc g) (c ∷ x) tail hg found = (
      _,
      parse_found (a ∷ d) ((c ∷ x) ++ tail) 0 g (length (c ∷ x)) ((c ∷ x) ++ tail) (omega arith)
          found,
    )
