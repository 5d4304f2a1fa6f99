-- ===== src/Parsers/Xml/Tags/Trees.antt =====
-- Texts of nested elements through `ILibParseXML`, `ILibProcessXMLNodeList` and `ILibReadInnerXML`.
use tv_now.Common.{
  Bool, true, false, not, List, [], ◌∷◌, ◌++◌, Option, none, ◌≡◌, ◌≢◌, refl, sym, ap, ◌∙◌,
  append_assoc, append-nil, Bytes, length, All, All-append, if_true, if_false,
}
use tv_now.Common.Int.{pos}
use tv_now.Parsers.Xml.Nodes.{Node, process_xml_node_list}
use tv_now.Parsers.Xml.Nodes.Forest.{
  Forest, empty, element, tags, IsMatched, linked, process_xml_node_list-linked,
}
use tv_now.Parsers.Xml.Tags.{parse_xml, make_nodes, new_node}
use tv_now.Parsers.Xml.Tags.Print.{Tag, IsTag, tag_nodes, body}
use tv_now.Parsers.Xml.Tags.Documents.{
  print_tag, document, behind, reserved_at, nodes_from, parse_xml-nodes,
}

-- Elements next to each other: with a start tag, the elements inside and a closing tag, or empty.
pub data Tree : Type 0 where
  nothing : Tree
  around : Tag → Tree → Tag → Tree → Tree
  leaf : Tag → Tree → Tree

unfoldable pub tags_of : Tree → List Tag
tags_of nothing = []
tags_of (around o inner c next) = o ∷ (tags_of inner ++ (c ∷ tags_of next))
tags_of (leaf t next) = t ∷ tags_of next

-- The tags are as they are written, and each closing tag has the name of its start tag.
unfoldable pub IsTree : Tree → Type 0
IsTree nothing = Unit
IsTree (around o inner c next) =
    IsTag o
    × IsTag c
    × (o.is_closing ≡ false)
    × (o.is_empty ≡ false)
    × (c.is_closing ≡ true)
    × (c.is_empty ≡ false)
    × (o.name ≡ c.name)
    × IsTree inner
    × IsTree next
IsTree (leaf t next) = IsTag t × (t.is_closing ≡ false) × (t.is_empty ≡ true) × IsTree next

pub IsTree-IsTag : (d : Tree) → IsTree d → All IsTag (tags_of d)
unfolding tags_of IsTree
IsTree-IsTag nothing h = tt
IsTree-IsTag (around o inner c next) (ho, hc, _, _, _, _, _, hi, hn) = (
  ho,
  All-append IsTag (tags_of inner) (c ∷ tags_of next) (IsTree-IsTag inner hi)
      (hc, IsTree-IsTag next hn),
)
IsTree-IsTag (leaf t next) (ht, _, _, hn) = (ht, IsTree-IsTag next hn)

-- The node of a tag with `rest` behind it.
abbrev pub start_node : Tag → Bytes → Node
start_node t rest = new_node t.name t.prefix true t.is_empty (t.content ++ rest)

abbrev pub closing_node : Tag → Bytes → Node
closing_node t rest = new_node t.name t.prefix false false ((b'/' ∷ body t) ++ rest)

-- The elements of the text, with the tags `ts` behind it.
unfoldable pub forest : Tree → List Tag → Bytes → Forest
unfolding tags_of
forest nothing ts tail = empty
forest (around o inner c next) ts tail =
    element (start_node o (behind (tags_of inner ++ (c ∷ (tags_of next ++ ts))) tail))
      (forest inner (c ∷ (tags_of next ++ ts)) tail)
      (closing_node c (behind (tags_of next ++ ts) tail)) (forest next ts tail)
forest (leaf t next) ts tail =
    let rest = behind (tags_of next ++ ts) tail in
    element (start_node t rest) empty (new_node t.name t.prefix false false (t.content ++ rest))
      (forest next ts tail)

pub forest-IsMatched :
    (d : Tree) (ts : List Tag) (tail : Bytes) → IsTree d → IsMatched (forest d ts tail)
unfolding forest IsMatched IsTree
forest-IsMatched nothing ts tail h = tt
forest-IsMatched (around o inner c next) ts tail (_, _, _, _, _, _, n, hi, hn) =
    (refl, refl, n, forest-IsMatched inner _ tail hi, forest-IsMatched next ts tail hn)
forest-IsMatched (leaf t next) ts tail (_, _, _, hn) =
    (refl, refl, refl, tt, forest-IsMatched next ts tail hn)

nodes_one :
    (name : Bytes) (ns : Option Bytes) (s e : Bool) (r : Bytes)
    → name ≢ []
    → e ≡ false
    → make_nodes name ns s e r ≡ new_node name ns s e r ∷ []
nodes_one [] ns s e r nz h = absurd (nz refl)
nodes_one (c ∷ name) ns s e r nz h =
    if_false e _ _ h ∙ ap (λ b. new_node (c ∷ name) ns s b r ∷ []) (sym h)

nodes_two :
    (name : Bytes) (ns : Option Bytes) (s e : Bool) (r : Bytes)
    → name ≢ []
    → e ≡ true
    → make_nodes name ns s e r ≡ new_node name ns s e r ∷ new_node name ns false false r ∷ []
nodes_two [] ns s e r nz h = absurd (nz refl)
nodes_two (c ∷ name) ns s e r nz h =
    if_true e _ _ h
    ∙ ap (λ b. new_node (c ∷ name) ns s b r ∷ new_node (c ∷ name) ns false false r ∷ []) (sym h)

-- The nodes of a tag that does not close, by its place.
opening_nodes :
    (t : Tag) (rest : Bytes)
    → t.is_closing ≡ false
    → tag_nodes t (reserved_at t rest)
      ≡ make_nodes t.name t.prefix true t.is_empty (t.content ++ rest)
opening_nodes t rest o =
    ap (tag_nodes t) (if_false t.is_closing (print_tag t ++ rest) (t.content ++ rest) o)
    ∙ ap (λ s. make_nodes t.name t.prefix s t.is_empty (t.content ++ rest)) (ap not o)

pub start_nodes :
    (t : Tag) (rest : Bytes)
    → IsTag t
    → t.is_closing ≡ false
    → t.is_empty ≡ false
    → tag_nodes t (reserved_at t rest) ≡ start_node t rest ∷ []
start_nodes t rest h o e =
    opening_nodes t rest o ∙ nodes_one t.name t.prefix true t.is_empty (t.content ++ rest) h.named e

pub closing_nodes :
    (t : Tag) (rest : Bytes)
    → IsTag t
    → t.is_closing ≡ true
    → t.is_empty ≡ false
    → tag_nodes t (reserved_at t rest) ≡ closing_node t rest ∷ []
closing_nodes t rest h o e =
    let r = (b'/' ∷ body t) ++ rest in
    ap (tag_nodes t) (
      if_true t.is_closing (print_tag t ++ rest) (t.content ++ rest) o
      ∙ ap (λ p. p ++ rest) (if_true t.is_closing (b'/' ∷ body t) (body t) o))
    ∙ (ap (λ s. make_nodes t.name t.prefix s t.is_empty r) (ap not o)
        ∙ (nodes_one t.name t.prefix false t.is_empty r h.named e
            ∙ ap (λ b. new_node t.name t.prefix false b r ∷ []) e))

empty_nodes :
    (t : Tag) (rest : Bytes)
    → IsTag t
    → t.is_closing ≡ false
    → t.is_empty ≡ true
    → tag_nodes t (reserved_at t rest)
      ≡ start_node t rest ∷ new_node t.name t.prefix false false (t.content ++ rest) ∷ []
empty_nodes t rest h o e =
    opening_nodes t rest o ∙ nodes_two t.name t.prefix true t.is_empty (t.content ++ rest) h.named e

pub nodes_from-forest :
    (d : Tree) (ts : List Tag) (tail : Bytes)
    → IsTree d
    → nodes_from (tags_of d ++ ts) tail ≡ tags (forest d ts tail) ++ nodes_from ts tail
unfolding tags_of IsTree forest tags
nodes_from-forest nothing ts tail h = refl
nodes_from-forest (around o inner c next) ts tail (ho, hc, o1, o2, c1, c2, n, hi, hn) =
    let more = tags_of next ++ ts in
    let i = tags (forest inner (c ∷ more) tail) in
    let e = closing_node c (behind more tail) in
    ap (λ xs. nodes_from (o ∷ xs) tail) (append_assoc (tags_of inner) (c ∷ tags_of next) ts)
    ∙ (ap (λ xs. xs ++ nodes_from (tags_of inner ++ (c ∷ more)) tail)
          (start_nodes o (behind (tags_of inner ++ (c ∷ more)) tail) ho o1 o2)
        ∙ ap (◌∷◌ (start_node o (behind (tags_of inner ++ (c ∷ more)) tail))) (
            nodes_from-forest inner (c ∷ more) tail hi
            ∙ (ap (λ xs. i ++ (xs ++ nodes_from more tail))
                  (closing_nodes c (behind more tail) hc c1 c2)
                ∙ (ap (λ xs. i ++ (e ∷ xs)) (nodes_from-forest next ts tail hn)
                    ∙ sym (append_assoc i (e ∷ tags (forest next ts tail)) (nodes_from ts tail))))))
nodes_from-forest (leaf t next) ts tail (ht, t1, t2, hn) =
    let rest = behind (tags_of next ++ ts) tail in
    ap (λ xs. xs ++ nodes_from (tags_of next ++ ts) tail) (empty_nodes t rest ht t1 t2)
    ∙ ap (λ xs. start_node t rest ∷ new_node t.name t.prefix false false (t.content ++ rest) ∷ xs)
        (nodes_from-forest next ts tail hn)

-- `ILibParseXML` and then `ILibProcessXMLNodeList`, on the text of nested elements with any bytes behind it, in which
-- no text, name or attribute holds a `<` or `>`, names are not empty, names and prefixes hold no blank, `/`, `:`,
-- carriage return or line feed and do not begin with `?`, a start tag ends in `/` exactly if its element is empty, and
-- a closing tag has the name of its start tag:
-- the result is 0, and the nodes are the tags in their order, an empty element as a start tag and a closing
-- tag, each start tag linked with its parent, its peer and its closing tag.
pub process_xml_node_list-parse_xml :
    (d : Tree) (tail : Bytes)
    → IsTree d
    → process_xml_node_list
        (parse_xml (document (tags_of d) ++ tail) 0 (length (document (tags_of d))))
      ≡ (linked 0 none (forest d [] tail), pos 0)
process_xml_node_list-parse_xml d tail h =
    ap process_xml_node_list (
      parse_xml-nodes (tags_of d) tail (IsTree-IsTag d h)
      ∙ (ap (λ ts. nodes_from ts tail) (sym (append-nil (tags_of d)))
          ∙ (nodes_from-forest d [] tail h ∙ append-nil (tags (forest d [] tail)))))
    ∙ process_xml_node_list-linked (forest d [] tail) (forest-IsMatched d [] tail h)
