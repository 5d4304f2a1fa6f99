-- ===== src/Parsers/Xml/Tags/Words.antt =====
-- The parts of a tag: what the tokenizer gives of them, and its name.
use native.Mathlib.Nat.{zero-add}
use tv_now.Common.{
  ℕ, suc, ◌+◌, ◌-◌, Bool, true, false, not, ◌&&◌, List, [], ◌∷◌, ◌++◌, ◌≡◌, ◌≢◌, refl, sym, ap, ◌∙◌,
  append_assoc, arith, Bytes, length, length-append, All, Lacks, ◌==◌, if_true, if_false,
}
use tv_now.Parsers.Split.{Field, parse_string, parse_loop}
use tv_now.Parsers.Split.Rounds.{join, parse_found}
use tv_now.Parsers.Split.Rejoin.{loop_first_part, delimiter_here}
use tv_now.Parsers.Split.Fields.{cuts, parse_string-cuts}
use tv_now.Parsers.Xml.Tags.{first_result, last_is_slash, scan_name, ends_name}

abbrev pub field : Bytes → ℕ → Field
field s n = record { start = s; datalength = n }

-- At the front of a buffer, with the count of the bytes.
pub parse_string-front :
    (a : ℕ) (tail p : Bytes) (ps : List Bytes) (s : Bytes) (n : ℕ)
    → All (Lacks a) (p ∷ ps)
    → s ≡ join (a ∷ []) (p ∷ ps) ++ tail
    → n ≡ length (join (a ∷ []) (p ∷ ps))
    → parse_string s 0 n (a ∷ []) ≡ cuts (a ∷ []) (p ∷ ps) tail
parse_string-front a tail p ps s n h e f =
    rw (e, f)
      (ap (λ m. parse_string (join (a ∷ []) (p ∷ ps) ++ tail) 0 m (a ∷ []))
          (sym (zero-add (length (join (a ∷ []) (p ∷ ps)))))
        ∙ parse_string-cuts a [] [] tail p ps h)

-- The first field ends at the first delimiter.
pub first_result-word :
    (a : ℕ) (w r tail : Bytes) (n : ℕ)
    → Lacks a w
    → n ≡ length (w ++ (a ∷ r))
    → first_result (parse_string ((w ++ (a ∷ r)) ++ tail) 0 n (a ∷ []))
      ≡ field ((w ++ (a ∷ r)) ++ tail) (length w)
unfolding parse_string
first_result-word a w r tail n h e =
    let s = (w ++ (a ∷ r)) ++ tail in
    let size = length-append w (a ∷ r) in
    let all : n - 0 ≡ n = omega arith in
    rw all (
      ap first_result (
        ap (λ x. parse_loop n x n (a ∷ []) s 0) (append_assoc w (a ∷ r) tail)
        ∙ (loop_first_part a [] tail w ((a ∷ r) ++ tail) s n (suc (length r)) n (suc (length r))
              (omega arith) (omega arith) h
            ∙ parse_found (a ∷ []) s (length w) (length r) (suc (length r)) ((a ∷ r) ++ tail)
                (omega arith) (delimiter_here a [] tail r))))

pub last_is_slash-append : (s : Bytes) → last_is_slash (s ++ (b'/' ∷ [])) ≡ true
unfolding last_is_slash
last_is_slash-append [] = refl
last_is_slash-append (c ∷ []) = refl
last_is_slash-append (c ∷ d ∷ s) = last_is_slash-append (d ∷ s)

-- The bytes of a name.
abbrev pub IsName : Bytes → Type 0
IsName = All (λ c. ends_name c ≡ false)

pub scan_name-plain :
    (name : Bytes) (i : ℕ) (e : Bool) → IsName name → scan_name name i e ≡ (i + length name, e)
unfolding scan_name
scan_name-plain [] i e h = let z : i ≡ i + 0 = omega arith in ap (λ k. (k, e)) z
scan_name-plain (c ∷ s) i e (hc, h) =
    let z : i + 1 + length s ≡ i + suc (length s) = omega arith in
    if_false (ends_name c && not (i == 0)) _ _ (ap (λ b. b && not (i == 0)) hc)
    ∙ (scan_name-plain s (i + 1) e h ∙ ap (λ k. (k, e)) z)

pub scan_name-slash :
    (name : Bytes) (i : ℕ) (e : Bool)
    → IsName name
    → i + length name ≢ 0
    → scan_name (name ++ (b'/' ∷ [])) i e ≡ (i + length name, true)
unfolding scan_name
scan_name-slash [] i e h nz =
    let z : i ≡ i + 0 = omega arith in
    let t : not (i == 0) ≡ true = ground arith in
    if_true (not (i == 0)) _ _ t ∙ ap (λ k. (k, true)) z
scan_name-slash (c ∷ s) i e (hc, h) nz =
    let z : i + 1 + length s ≡ i + suc (length s) = omega arith in
    if_false (ends_name c && not (i == 0)) _ _ (ap (λ b. b && not (i == 0)) hc)
    ∙ (scan_name-slash s (i + 1) e h (omega arith) ∙ ap (λ k. (k, true)) z)
