-- ===== src/Upnp/Actions/Fields.antt =====
-- How the dispatch of an action reads an argument from its tags.
use native.Mathlib.Nat.{zero-add}
use tv_now.Common.{
  ℕ, Bool, true, false, not, ◌&&◌, ◌||◌, none, some, List, [], ◌∷◌, ◌++◌, ◌≡◌, refl, sym, ap, ◌∙◌,
  arith, Bytes, length, Lacks, ◌==◌, if◌then◌else◌, append-nil, Bool-cases, inl, inr, if_false,
}
use tv_now.Parsers.Split.{texts, parse_string}
use tv_now.Parsers.Split.Parts.{until, later_parts, parse_string-parts}
use tv_now.Parsers.Xml.Tags.{last_is_slash}
use tv_now.Upnp.Actions.{
  split, head_text, end_text, cut_name, var_name, field_name, field_value, Arguments,
  store_argument, read_arguments,
}

split-parts : (a : ℕ) (s : Bytes) → split a s ≡ until a s ∷ later_parts a s
unfolding split
split-parts a s =
    ap (λ (t : Bytes). texts (parse_string t 0 (length s) (a ∷ []))) (sym (append-nil s))
    ∙ (ap (λ (n : ℕ). texts (parse_string (s ++ []) 0 n (a ∷ []))) (sym (zero-add (length s)))
        ∙ parse_string-parts a [] s [])

-- A byte that may stand in the name of an argument.
abbrev pub is_plain : ℕ → Bool
is_plain c = not (c == b' ' || c == b'/' || c == b'>' || c == b':' || c == b'?')

abbrev pub is_word : Bytes → Bool
is_word [] = true
is_word (c ∷ s) = is_plain c && is_word s

plain_other : (c a : ℕ) → is_plain c ≡ true → is_plain a ≡ false → (c == a) ≡ false
plain_other c a h k = elim (Bool-cases (c == a)) [
  | inl same ↦ let e : c ≡ a = ground arith in absurd (let f = ap is_plain e in cc)
  | inr other ↦ other
]

until-word :
    (a : ℕ) (w s : Bytes)
    → is_plain a ≡ false
    → is_word w ≡ true
    → (until a (w ++ s) ≡ w ++ until a s) × (later_parts a (w ++ s) ≡ later_parts a s)
unfolding until later_parts
until-word a [] s ha h = (refl, refl)
until-word a (c ∷ w) s ha h =
    let e = plain_other c a (ground arith) ha in
    let (e1, e2) = until-word a w s ha (ground arith) in (rw e (ap (◌∷◌ c) e1), rw e e2)

cut_name-word : (w s : Bytes) → is_word w ≡ true → cut_name false (w ++ b'>' ∷ s) ≡ w
unfolding cut_name
cut_name-word [] s h = refl
cut_name-word (c ∷ w) s h =
    let e : (c == b' ' || c == b'/' || c == b'>') ≡ false = ground arith in
    rw e (ap (◌∷◌ c) (cut_name-word w s (ground arith)))

last_is_slash-word : (w : Bytes) → is_word w ≡ true → last_is_slash w ≡ false
unfolding last_is_slash
last_is_slash-word [] h = refl
last_is_slash-word (c ∷ []) h = ground arith
last_is_slash-word (c ∷ d ∷ w) h = last_is_slash-word (d ∷ w) (ground arith)

until_all : (a : ℕ) (s : Bytes) → Lacks a s → (until a s ≡ s) × (later_parts a s ≡ [])
unfolding until later_parts
until_all a [] h = (refl, refl)
until_all a (c ∷ s) (hc, h) =
    let e : (c == a) ≡ false = ground arith in
    let (e1, e2) = until_all a s h in (rw e (ap (◌∷◌ c) e1), rw e e2)

-- The parts at `>` of a name, `>` and a text.
split-word :
    (w s : Bytes)
    → is_word w ≡ true
    → split b'>' (w ++ b'>' ∷ s) ≡ w ∷ until b'>' s ∷ later_parts b'>' s
unfolding until later_parts
split-word w s h =
    let (e1, e2) = until-word b'>' w (b'>' ∷ s) refl h in
    split-parts b'>' (w ++ b'>' ∷ s)
    ∙ rw (e1, e2) (ap (λ (t : Bytes). t ∷ until b'>' s ∷ later_parts b'>' s) (append-nil w))

var_name-first :
    (w y : Bytes) (ps : List Bytes)
    → is_word w ≡ true
    → var_name ((w ++ b'>' ∷ y) ∷ ps) ≡ w ++ b'>' ∷ y
unfolding var_name
var_name-first w y [] h = refl
var_name-first w y (q ∷ ps) h = rw (var_name, split-word w y h) refl

field_name_lem :
    (c : ℕ) (w v : Bytes) → is_word (c ∷ w) ≡ true → field_name ((c ∷ w) ++ b'>' ∷ v) ≡ c ∷ w
unfolding field_name until cut_name
field_name_lem c w v h =
    let t = (c ∷ w) ++ b'>' ∷ v in
    let x = until b' ' v in
    let y = until b':' x in
    let p = (c ∷ w) ++ b'>' ∷ y in
    let word = (until-word b' ' (c ∷ w) (b'>' ∷ v) refl h).0 in
    let part = (until-word b':' (c ∷ w) (b'>' ∷ x) refl h).0 in
    ap (λ (ps : List Bytes). cut_name true (var_name (split b':' (head_text ps))))
      (split-parts b' ' t)
    ∙ (ap (λ (s : Bytes). cut_name true (var_name (split b':' s))) word
        ∙ (ap (λ (ps : List Bytes). cut_name true (var_name ps))
              (split-parts b':' ((c ∷ w) ++ b'>' ∷ x)
                ∙ ap (λ (s : Bytes). s ∷ later_parts b':' ((c ∷ w) ++ b'>' ∷ x)) part)
            ∙ (ap (cut_name true) (var_name-first (c ∷ w) y _ h)
                ∙ ap (◌∷◌ c) (cut_name-word w y (ground arith)))))

field_value_lem :
    (c : ℕ) (w v : Bytes)
    → is_word (c ∷ w) ≡ true
    → Lacks b'>' v
    → field_value ((c ∷ w) ++ b'>' ∷ v) ≡ some v
unfolding field_value end_text
field_value_lem c w v h k =
    let (e3, e4) = until_all b'>' v k in
    let parts : split b'>' ((c ∷ w) ++ b'>' ∷ v) ≡ (c ∷ w) ∷ v ∷ [] =
      split-word (c ∷ w) v h
      ∙ (ap (λ (s : Bytes). (c ∷ w) ∷ s ∷ later_parts b'>' v) e3
          ∙ ap (λ (l : List Bytes). (c ∷ w) ∷ v ∷ l) e4) in
    let value =
      λ (ps : List Bytes). (if last_is_slash (head_text ps) then none else some (end_text ps)) in
    ap value parts ∙ if_false (last_is_slash (c ∷ w)) _ _ (last_is_slash-word (c ∷ w) h)

-- An element of an action, its closing tag with it.
abbrev pub element : Bytes → Bytes → List Bytes
element name value = (name ++ b'>' ∷ value) ∷ (b'/' ∷ (name ++ b'>' ∷ [])) ∷ []

-- A named element stores its text, if that has no `>`.
pub read_arguments-element :
    (a : Arguments) (c : ℕ) (w v : Bytes) (fs : List Bytes)
    → is_word (c ∷ w) ≡ true
    → Lacks b'>' v
    → read_arguments a (element (c ∷ w) v ++ fs)
      ≡ read_arguments (store_argument a (c ∷ w) (some v)) fs
unfolding read_arguments
read_arguments-element a c w v fs h k =
    let q : (c == b'?') ≡ false = ground arith in
    let s : (c == b'/') ≡ false = ground arith in
    rw (q, s, field_name_lem c w v h, field_value_lem c w v h k) refl
