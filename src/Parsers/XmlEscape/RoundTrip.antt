-- ===== src/Parsers/XmlEscape/RoundTrip.antt =====
-- The length that `ILibXmlEscapeLength` predicts, and the round trip of the two routines.
use native.Mathlib.Nat.{zero-add}
use tv_now.Common.{
  ℕ, zero, suc, ◌+◌, ◌≤◌, ◌<◌, [], ◌∷◌, ◌++◌, ◌≡◌, refl, sym, ap, ◌∙◌, append-nil, append_assoc,
  arith, Bytes, length, take, drop, set, set-append, drop-append, length-append, lt→ltb, starts,
  drop_more,
}
use tv_now.Parsers.XmlEscape.{
  escape_byte, xml_escape_loop, xml_escape, entity_length, xml_escape_length_loop,
  xml_escape_length, unescape_entity, unescape_loop, in_place_xml_unescape,
}

abbrev pub escaped : Bytes → Bytes
escaped [] = []
escaped (c ∷ s) = escape_byte c ++ escaped s

pub xml_escape_loop-escaped : (s out : Bytes) → xml_escape_loop s out ≡ out ++ escaped s
unfolding xml_escape_loop
xml_escape_loop-escaped [] out = sym (append-nil out)
xml_escape_loop-escaped (c ∷ s) out =
    xml_escape_loop-escaped s (out ++ escape_byte c) ∙ append_assoc out _ _

length-escape_byte : (c : ℕ) → length (escape_byte c) ≡ entity_length c
unfolding escape_byte entity_length
length-escape_byte c = ground arith

length_loop-escaped : (s : Bytes) (j : ℕ) → xml_escape_length_loop s j ≡ j + length (escaped s)
unfolding xml_escape_length_loop
length_loop-escaped [] j = omega arith
length_loop-escaped (c ∷ s) j = omega (
  arith,
  length_loop-escaped s (j + entity_length c),
  length-escape_byte c,
  length-append (escape_byte c) (escaped s),
)

-- `ILibXmlEscapeLength` is exactly the number of bytes that `ILibXmlEscape` writes before the
-- closing NUL, and the number that it returns, for every text.
pub xml_escape_length-xml_escape :
    (s : Bytes)
    → (xml_escape_length s ≡ length (xml_escape s).0) × ((xml_escape s).1 ≡ xml_escape_length s)
unfolding xml_escape xml_escape_length
xml_escape_length-xml_escape s =
    let same = length_loop-escaped s 0 in
    let text = xml_escape_loop-escaped s [] in (rw text (omega arith), rw text (omega arith))

unescape_entity-escape_byte :
    (c : ℕ) (s : Bytes) → unescape_entity (escape_byte c ++ s) ≡ (c, length (escape_byte c))
unfolding unescape_entity escape_byte starts
unescape_entity-escape_byte c s = ground arith

escape_byte_pos : (c : ℕ) → 0 < length (escape_byte c)
unfolding escape_byte
escape_byte_pos c = ground arith

-- The cell that is written is the first of the gap between the two indices and what is read.
first_cell :
    (gap eb rest : Bytes)
    → 0 < length eb
    → (e : ℕ) × (gap' : Bytes) × (gap ++ (eb ++ rest) ≡ e ∷ (gap' ++ rest))
      × (length gap + length eb ≡ suc (length gap'))
first_cell [] [] rest h = absurd (omega arith)
first_cell [] (e ∷ es) rest h = (e, es, refl, omega arith)
first_cell (g ∷ gs) eb rest h =
    (g, gs ++ eb, ap (◌∷◌ g) (sym (append_assoc gs eb rest)), omega (arith, length-append gs eb))

drop_two :
    (out gap x : Bytes) (j : ℕ) → j ≡ length out + length gap → drop j (out ++ (gap ++ x)) ≡ x
drop_two out gap x j h = rw h (drop_more (length gap) out (gap ++ x) ∙ drop-append gap x)

loop_end : (f i j end : ℕ) (buf : Bytes) → end ≤ j → unescape_loop f buf i j end ≡ (set buf i 0, i)
unfolding unescape_loop
loop_end zero i j end buf h = refl
loop_end (suc f) i j end buf h = ground arith

loop_step :
    (f i j end c k : ℕ) (buf : Bytes)
    → j < end
    → unescape_entity (drop j buf) ≡ (c, k)
    → unescape_loop (suc f) buf i j end ≡ unescape_loop f (set buf i c) (i + 1) (j + k) end
unfolding unescape_loop
loop_step f i j end c k buf h e = rw (lt→ltb j end h, e)

set_end :
    (out gap : Bytes)
    → (rest : Bytes) × (set (out ++ (gap ++ 0 ∷ [])) (length out) 0 ≡ out ++ (0 ∷ rest))
set_end out [] = ([], set-append out [] 0 0)
set_end out (g ∷ gs) = (gs ++ 0 ∷ [], set-append out (gs ++ 0 ∷ []) g 0)

loop-escaped :
    (s out gap : Bytes) (f i j end : ℕ)
    → length s ≤ f
    → i ≡ length out
    → j ≡ length out + length gap
    → end ≡ j + length (escaped s)
    → (rest : Bytes) × (unescape_loop f (out ++ (gap ++ (escaped s ++ 0 ∷ []))) i j end
        ≡ (out ++ (s ++ 0 ∷ rest), i + length s))
loop-escaped [] out gap f i j end hf hi hj he =
    let (rest, e) = set_end out gap in
    (rest, loop_end f i j end _ (omega arith) ∙ (rw hi (ground (arith, e))))
loop-escaped (c ∷ s) out gap zero i j end hf hi hj he = absurd (omega arith)
loop-escaped (c ∷ s) out gap (suc f) i j end hf hi hj he =
    let tail = escaped s ++ 0 ∷ [] in
    let (e, gap', cell, size) = first_cell gap (escape_byte c) tail (escape_byte_pos c) in
    let (rest, ih) =
      loop-escaped s (out ++ c ∷ []) gap' f (i + 1) (j + length (escape_byte c)) end (omega arith)
        (omega (arith, length-append out (c ∷ []))) (omega (arith, length-append out (c ∷ [])))
        (omega (arith, length-append (escape_byte c) (escaped s))) in
    let buf : Bytes = out ++ (gap ++ ((escape_byte c ++ escaped s) ++ 0 ∷ [])) in
    let read : unescape_entity (drop j buf) ≡ (c, length (escape_byte c)) =
      rw (append_assoc (escape_byte c) (escaped s) (0 ∷ []), drop_two out gap _ j hj)
        (unescape_entity-escape_byte c _) in
    let written : set buf i c ≡ (out ++ c ∷ []) ++ (gap' ++ tail) =
      rw (append_assoc (escape_byte c) (escaped s) (0 ∷ []), cell, hi)
        (set-append out (gap' ++ tail) e c ∙ sym (append_assoc out (c ∷ []) _)) in
    let at_entity : j < end =
      omega (arith, escape_byte_pos c, length-append (escape_byte c) (escaped s)) in
    let count : i + 1 + length s ≡ i + length (c ∷ s) = omega arith in
    (
      rest,
      loop_step f i j end c (length (escape_byte c)) buf at_entity read
          ∙ (rw written (ih ∙ (λ k. (append_assoc out (c ∷ []) (s ++ 0 ∷ rest) k, count k)))),
    )

le-escaped : (s : Bytes) → length s ≤ length (escaped s)
le-escaped [] = omega arith
le-escaped (c ∷ s) =
    omega (arith, le-escaped s, escape_byte_pos c, length-append (escape_byte c) (escaped s))

pub unescaped :
    (s : Bytes)
    → (rest : Bytes) × (in_place_xml_unescape (xml_escape s).0 ≡ (s ++ 0 ∷ rest, length s))
unfolding in_place_xml_unescape xml_escape
unescaped s =
    let n = length (escaped s) in
    let whole = loop-escaped s [] [] n 0 0 n (le-escaped s) refl (omega arith) (omega arith) in
    rw (xml_escape_loop-escaped s []) (rw zero-add at whole)

take_string : (s rest : Bytes) → take (suc (length s)) (s ++ 0 ∷ rest) ≡ s ++ 0 ∷ []
take_string [] rest = refl
take_string (c ∷ s) rest = ap (◌∷◌ c) (take_string s rest)

-- Unescaping in place what was escaped gives the text back: the array then begins with the text
-- and a NUL behind it, and the result is the text's length.
pub in_place_xml_unescape-xml_escape :
    (s : Bytes)
    → (take (suc (length s)) (in_place_xml_unescape (xml_escape s).0).0 ≡ s ++ 0 ∷ [])
      × ((in_place_xml_unescape (xml_escape s).0).1 ≡ length s)
in_place_xml_unescape-xml_escape s =
    let (rest, e) = unescaped s in (rw e (take_string s rest), ap (λ (r : Bytes × ℕ). r.1) e)
