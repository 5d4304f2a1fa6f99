-- ===== src/Parsers/Xml/Tags/Documents.antt =====
-- Whole texts of nested tags: what `ILibParseXML` makes of them.
use tv_now.Common.{
  ◌-◌, Bool, true, false, not, List, [], ◌∷◌, ◌++◌, Option, none, some, ◌≡◌, ◌≢◌, refl, sym, ap,
  map, ◌∙◌, append_assoc, arith, Bytes, length, All, Lacks, ◌==◌, if◌then◌else◌, if_true, if_false,
  choose, Bool-cases, inl, inr,
}
use tv_now.Parsers.Split.{first, parse_string, parse_loop}
use tv_now.Parsers.Split.Rounds.{join}
use tv_now.Parsers.Split.Fields.{cuts}
use tv_now.Parsers.Xml.Nodes.{Node}
use tv_now.Parsers.Xml.Tags.{
  last_is_slash, scan_name, parse_tag, parse_field, parse_fields, parse_xml, qualified_name,
}
use tv_now.Parsers.Xml.Tags.Words.{field, parse_string-front, IsName}
use tv_now.Parsers.Xml.Tags.Print.{
  Tag, IsTag, head_with, head, body, qualified, tag_nodes, parse_tag-nodes,
}

-- A tag from behind its `<` on.
abbrev pub print_tag : Tag → Bytes
print_tag t = if t.is_closing then b'/' ∷ body t else body t

-- The tags, each behind its `<`.
abbrev pub document : List Tag → Bytes
document ts = join (b'<' ∷ []) ([] ∷ map print_tag ts)

-- What stands behind a tag.
abbrev pub behind : List Tag → Bytes → Bytes
behind [] tail = tail
behind (t ∷ ts) tail = b'<' ∷ (join (b'<' ∷ []) (map print_tag (t ∷ ts)) ++ tail)

-- `Reserved`, of a start tag the place behind it, of a closing tag the place of its `/`.
abbrev pub reserved_at : Tag → Bytes → Bytes
reserved_at t rest = if t.is_closing then print_tag t ++ rest else t.content ++ rest

abbrev pub nodes_from : List Tag → Bytes → List Node
nodes_from [] tail = []
nodes_from (t ∷ ts) tail = tag_nodes t (reserved_at t (behind ts tail)) ++ nodes_from ts tail

pub join-behind :
    (p : Bytes) (ts : List Tag) (tail : Bytes)
    → join (b'<' ∷ []) (p ∷ map print_tag ts) ++ tail ≡ p ++ behind ts tail
join-behind p [] tail = refl
join-behind p (t ∷ ts) tail = append_assoc p (b'<' ∷ join (b'<' ∷ []) (map print_tag (t ∷ ts))) tail

first_head :
    (q : Bytes) (a : Option Bytes) (e : Bool) (x : Bytes)
    → q ≢ []
    → first (head_with q a e ++ x) ≡ first q
first_head [] a e x h = absurd (h refl)
first_head (c ∷ q) none e x h = refl
first_head (c ∷ q) (some more) e x h = refl

qualified_some : (p : Option Bytes) (name : Bytes) → name ≢ [] → qualified p name ≢ []
qualified_some none name h = h
qualified_some (some []) name h = λ z. cc
qualified_some (some (c ∷ q)) name h = λ z. cc

name_no_slash : (q : Bytes) → q ≢ [] → IsName q → (first q == b'/') ≡ false
name_no_slash [] nz h = absurd (nz refl)
name_no_slash (c ∷ q) nz (hc, h) = ground arith

nothing_in_front : (s : Bytes) → parse_field (field (b'<' ∷ s) 0) ≡ []
unfolding parse_field parse_tag parse_string parse_loop qualified_name scan_name last_is_slash
nothing_in_front s = refl

field-opening :
    (t : Tag) (rest : Bytes)
    → IsTag t
    → t.is_closing ≡ false
    → parse_field (field (body t ++ rest) (length (body t))) ≡ tag_nodes t (t.content ++ rest)
unfolding parse_field
field-opening t rest h o =
    let q = qualified t.prefix t.name in
    let nz = qualified_some t.prefix t.name h.named in
    let neg : not t.is_closing ≡ true = ap not o in
    let fst : first (body t ++ rest) ≡ first q =
      ap first (append_assoc (head t) (b'>' ∷ t.content) rest)
      ∙ first_head q t.attributes t.is_empty ((b'>' ∷ t.content) ++ rest) nz in
    let f = field (body t ++ rest) (length (body t)) in
    if_false (first (body t ++ rest) == b'?') _ _ (ap (λ c. c == b'?') fst ∙ h.plain_start)
    ∙ (if_false (first (body t ++ rest) == b'/') _ _
          (ap (λ c. c == b'/') fst ∙ name_no_slash q nz h.qualified_bytes)
        ∙ (ap (λ b. parse_tag b f []) (sym neg)
            ∙ (parse_tag-nodes t rest [] h
                ∙ ap (tag_nodes t) (if_true (not t.is_closing) (t.content ++ rest) [] neg))))

field-closing :
    (t : Tag) (rest : Bytes)
    → IsTag t
    → t.is_closing ≡ true
    → parse_field (field ((b'/' ∷ body t) ++ rest) (length (b'/' ∷ body t)))
      ≡ tag_nodes t ((b'/' ∷ body t) ++ rest)
unfolding parse_field
field-closing t rest h o =
    let neg : not t.is_closing ≡ false = ap not o in
    let less : length (b'/' ∷ body t) - 1 ≡ length (body t) = omega arith in
    let closing = b'/' ∷ (body t ++ rest) in
    ap (λ n. parse_tag false (field (body t ++ rest) n) closing) less
    ∙ (ap (λ b. parse_tag b (field (body t ++ rest) (length (body t))) closing) (sym neg)
        ∙ (parse_tag-nodes t rest closing h
            ∙ ap (tag_nodes t) (if_false (not t.is_closing) (t.content ++ rest) closing neg)))

field-nodes :
    (t : Tag) (rest : Bytes)
    → IsTag t
    → parse_field (field (print_tag t ++ rest) (length (print_tag t)))
      ≡ tag_nodes t (reserved_at t rest)
field-nodes t rest h = elim (Bool-cases t.is_closing) [
  | inl o ↦
      let e = if_true t.is_closing (b'/' ∷ body t) (body t) o in
      ap (λ p. parse_field (field (p ++ rest) (length p))) e
      ∙ (field-closing t rest h o
          ∙ ap (tag_nodes t) (
              ap (λ p. p ++ rest) (sym e)
              ∙ sym (if_true t.is_closing (print_tag t ++ rest) (t.content ++ rest) o)))
  | inr o ↦
      ap (λ p. parse_field (field (p ++ rest) (length p)))
        (if_false t.is_closing (b'/' ∷ body t) (body t) o)
      ∙ (field-opening t rest h o
          ∙ ap (tag_nodes t)
              (sym (if_false t.is_closing (print_tag t ++ rest) (t.content ++ rest) o)))
]

fields-nodes :
    (ts : List Tag) (tail : Bytes)
    → All IsTag ts
    → parse_fields (cuts (b'<' ∷ []) (map print_tag ts) tail) ≡ nodes_from ts tail
unfolding parse_fields
fields-nodes [] tail h = refl
fields-nodes (t ∷ ts) tail (ht, h) =
    ap
      (λ s.
        parse_field (field s (length (print_tag t)))
        ++ parse_fields (cuts (b'<' ∷ []) (map print_tag ts) tail))
      (join-behind (print_tag t) ts tail)
    ∙ (ap (λ xs. xs ++ parse_fields (cuts (b'<' ∷ []) (map print_tag ts) tail))
          (field-nodes t (behind ts tail) ht)
        ∙ ap (λ xs. tag_nodes t (reserved_at t (behind ts tail)) ++ xs) (fields-nodes ts tail h))

print_tag-Lacks : (t : Tag) → IsTag t → Lacks b'<' (print_tag t)
print_tag-Lacks t h =
    choose (Lacks b'<') t.is_closing _ _ (λ _. (omega arith, h.body_ends)) (λ _. h.body_ends)

tags-Lacks : (ts : List Tag) → All IsTag ts → All (Lacks b'<') (map print_tag ts)
tags-Lacks [] h = tt
tags-Lacks (t ∷ ts) (ht, h) = (print_tag-Lacks t ht, tags-Lacks ts h)

-- `ILibParseXML` of a text of tags that are as they are written makes the nodes of each tag, in order:
-- two for an empty element and else one, with the name, the prefix, and the place behind a start tag or
-- at the `/` of a closing tag.
pub parse_xml-nodes :
    (ts : List Tag) (tail : Bytes)
    → All IsTag ts
    → parse_xml (document ts ++ tail) 0 (length (document ts)) ≡ nodes_from ts tail
unfolding parse_xml parse_fields
parse_xml-nodes [] tail h = refl
parse_xml-nodes (t ∷ ts) tail h =
    let ps = map print_tag (t ∷ ts) in
    let s = join (b'<' ∷ []) ps ++ tail in
    let z : (length (document (t ∷ ts)) == 0) ≡ false = ground arith in
    if_false (length (document (t ∷ ts)) == 0) _ _ z
    ∙ (ap parse_fields (
          parse_string-front b'<' tail [] ps (document (t ∷ ts) ++ tail)
            (length (document (t ∷ ts))) (tt, tags-Lacks (t ∷ ts) h) refl refl)
        ∙ (ap (λ xs. xs ++ parse_fields (cuts (b'<' ∷ []) ps tail)) (nothing_in_front s)
            ∙ fields-nodes (t ∷ ts) tail h))
