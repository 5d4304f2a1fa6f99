-- ===== src/Parsers/Split/Parts.antt =====
-- `ILibParseString` at a delimiter of one byte, against a definition by recursion on the text.
use tv_now.Common.{
  ℕ, ◌+◌, List, [], ◌∷◌, ◌++◌, ◌≡◌, ◌≢◌, refl, sym, ap, ◌∙◌, arith, Bytes, length, All, Lacks, ◌==◌,
  if◌then◌else◌, Bool-cases, inl, inr,
}
use tv_now.Parsers.Split.{texts, parse_string}
use tv_now.Parsers.Split.Rounds.{join}
use tv_now.Parsers.Split.Rejoin.{parse_string-join}

-- The text in front of the first delimiter.
unfoldable pub until : ℕ → Bytes → Bytes
until a [] = []
until a (c ∷ s) = if c == a then [] else c ∷ until a s

-- The parts behind the first delimiter.
unfoldable pub later_parts : ℕ → Bytes → List Bytes
unfolding until
later_parts a [] = []
later_parts a (c ∷ s) = if c == a then until a s ∷ later_parts a s else later_parts a s

join-cons :
    (a c : ℕ) (p : Bytes) (ps : List Bytes)
    → join (a ∷ []) ((c ∷ p) ∷ ps) ≡ c ∷ join (a ∷ []) (p ∷ ps)
join-cons a c p [] = refl
join-cons a c p (q ∷ qs) = refl

join-parts : (a : ℕ) (s : Bytes) → join (a ∷ []) (until a s ∷ later_parts a s) ≡ s
unfolding until later_parts
join-parts a [] = refl
join-parts a (c ∷ s) = elim (Bool-cases (c == a)) [
  | inl same ↦ rw same (let e : a ≡ c = ground arith in rw (join-parts a s) (ap (λ k. k ∷ s) e))
  | inr other ↦ rw other (join-cons a c (until a s) (later_parts a s) ∙ ap (◌∷◌ c) (join-parts a s))
]

parts-lack : (a : ℕ) (s : Bytes) → All (Lacks a) (until a s ∷ later_parts a s)
unfolding until later_parts
parts-lack a [] = (tt, tt)
parts-lack a (c ∷ s) = elim (Bool-cases (c == a)) [
  | inl same ↦ rw same (tt, parts-lack a s)
  | inr other ↦
      let (h, t) = parts-lack a s in let ne : c ≢ a = ground arith in rw other ((ne, h), t)
]

-- The texts of `ILibParseString` at a byte are the text in front of the first one and the parts behind it,
-- wherever the text stands in the buffer.
pub parse_string-parts :
    (a : ℕ) (front s tail : Bytes)
    → texts (parse_string (front ++ (s ++ tail)) (length front) (length front + length s) (a ∷ []))
      ≡ until a s ∷ later_parts a s
parse_string-parts a front s tail =
    let e = join-parts a s in
    ap
      (λ (t : Bytes).
        texts
          (parse_string (front ++ (t ++ tail)) (length front) (length front + length t) (a ∷ [])))
      (sym e)
    ∙ parse_string-join a [] front tail (until a s ∷ later_parts a s) (λ z. cc) (parts-lack a s)
