-- ===== src/Parsers/Xml/Tags/InnerText.antt =====
-- What `ILibReadInnerXML` gives of an element of a text.
use tv_now.Common.{
  ℕ, ◌-◌, true, List, [], ◌∷◌, ◌++◌, some, ◌≡◌, refl, sym, ap, ◌∙◌, append_assoc, arith, Bytes,
  length, take, take-append, length-append, if_true, All, All-append,
}
use tv_now.Parsers.Xml.Tags.{parse_xml}
use tv_now.Parsers.Xml.Nodes.{Node, read_inner_xml}
use tv_now.Parsers.Xml.Nodes.Forest.{tags}
use tv_now.Parsers.Xml.Nodes.Inner.{read_inner_xml-closing}
use tv_now.Parsers.Xml.Tags.Print.{Tag, IsTag, tag_nodes, body}
use tv_now.Parsers.Xml.Tags.Documents.{
  print_tag, document, behind, reserved_at, nodes_from, parse_xml-nodes, join-behind,
}
use tv_now.Parsers.Xml.Tags.Trees.{
  Tree, nothing, around, IsTree-IsTag, start_nodes, closing_nodes, nodes_from-forest, tags_of,
  IsTree, forest, forest-IsMatched, start_node, closing_node,
}

behind_append :
    (xs : List Tag) (c : Tag) (ys : List Tag) (tail : Bytes)
    → behind (xs ++ (c ∷ ys)) tail ≡ behind xs [] ++ (b'<' ∷ (print_tag c ++ behind ys tail))
behind_append [] c ys tail = ap (◌∷◌ b'<') (join-behind (print_tag c) ys tail)
behind_append (x ∷ xs) c ys tail = ap (◌∷◌ b'<') (
    join-behind (print_tag x) (xs ++ (c ∷ ys)) tail
    ∙ (ap (◌++◌ (print_tag x)) (behind_append xs c ys tail)
        ∙ (sym (append_assoc (print_tag x) (behind xs []) (b'<' ∷ (print_tag c ++ behind ys tail)))
            ∙ ap (λ s. s ++ (b'<' ∷ (print_tag c ++ behind ys tail)))
                (sym (join-behind (print_tag x) xs [])))))

-- The text of an element between its start tag and its closing tag.
abbrev pub inner_text : Tag → Tree → Bytes
inner_text o inner = o.content ++ behind (tags_of inner) []

closing_inner :
    (i : ℕ) (o : Tag) (inner : Tree) (c : Tag) (more : List Tag) (tail : Bytes) (rest : List Node)
    → IsTree inner
    → c.is_closing ≡ true
    → o.name ≡ c.name
    → let s = start_node o (behind (tags_of inner ++ (c ∷ more)) tail) in
      let e = closing_node c (behind more tail) in
      (read_inner_xml i s (tags (forest inner (c ∷ more) tail) ++ (e ∷ rest))
        ≡ some (s.reserved, length (inner_text o inner)))
      × (take (length (inner_text o inner)) s.reserved ≡ inner_text o inner)
closing_inner i o inner c more tail rest hi hc n =
    let s = start_node o (behind (tags_of inner ++ (c ∷ more)) tail) in
    let e = closing_node c (behind more tail) in
    let text = inner_text o inner in
    let split : s.reserved ≡ text ++ (b'<' ∷ e.reserved) =
      ap (◌++◌ o.content) (
        behind_append (tags_of inner) c more tail
        ∙ ap (λ p. behind (tags_of inner) [] ++ (b'<' ∷ (p ++ behind more tail)))
            (if_true c.is_closing (b'/' ∷ body c) (body c) hc))
      ∙ sym (append_assoc o.content (behind (tags_of inner) []) (b'<' ∷ e.reserved)) in
    let size = ap length split ∙ length-append text (b'<' ∷ e.reserved) in
    let diff : length s.reserved - length e.reserved - 1 ≡ length text = omega arith in
    (
      read_inner_xml-closing i s (forest inner (c ∷ more) tail) e rest refl refl n
            (forest-IsMatched inner (c ∷ more) tail hi)
          ∙ ap (λ k. some (s.reserved, k)) diff,
      ap (take (length text)) split ∙ take-append text (b'<' ∷ e.reserved),
    )

-- The nodes of the tags in front of others.
nodes_from-append :
    (xs ys : List Tag) (tail : Bytes)
    → (earlier : List Node) × (nodes_from (xs ++ ys) tail ≡ earlier ++ nodes_from ys tail)
nodes_from-append [] ys tail = ([], refl)
nodes_from-append (x ∷ xs) ys tail =
    let (earlier, e) = nodes_from-append xs ys tail in
    let own = tag_nodes x (reserved_at x (behind (xs ++ ys) tail)) in
    (own ++ earlier, ap (◌++◌ own) e ∙ sym (append_assoc own earlier (nodes_from ys tail)))

-- In the text of tags, in which no text, name or attribute holds a `<` or `>`, names are not empty, names and
-- prefixes hold no blank, `/`, `:`, carriage return or line feed and do not begin with `?`, and a start tag ends in `/`
-- exactly if its element is empty, an element stands with a start tag, nested elements and a closing tag of its name, with any tags before and
-- behind it: `ILibParseXML` gives a list with a node for that start tag, and `ILibReadInnerXML` of this node, with its
-- index and the list behind it, gives the place behind the start tag and the length of the text from there up to
-- the closing tag; those bytes are what was written between the two tags, the elements inside included.
pub read_inner_xml-inner_text :
    (before : List Tag) (o : Tag) (inner : Tree) (c : Tag) (more : List Tag) (tail : Bytes)
    → All IsTag before
    → IsTree (around o inner c nothing)
    → All IsTag more
    → let ts = before ++ (o ∷ (tags_of inner ++ (c ∷ more))) in
      let s = start_node o (behind (tags_of inner ++ (c ∷ more)) tail) in
      (earlier : List Node) × (next : List Node) × (parse_xml
          (document ts ++ tail)
          0
          (length (document ts))
        ≡ earlier ++ (s ∷ next))
      × (read_inner_xml (length earlier) s next ≡ some (s.reserved, length (inner_text o inner)))
      × (take (length (inner_text o inner)) s.reserved ≡ inner_text o inner)
unfolding IsTree
read_inner_xml-inner_text before o inner c more tail hb (ho, hc, o1, o2, c1, c2, n, hi, _) hm =
    let element = o ∷ (tags_of inner ++ (c ∷ more)) in
    let s = start_node o (behind (tags_of inner ++ (c ∷ more)) tail) in
    let e = closing_node c (behind more tail) in
    let next = tags (forest inner (c ∷ more) tail) ++ (e ∷ nodes_from more tail) in
    let all_tags =
      All-append IsTag before element hb
        (ho, All-append IsTag (tags_of inner) (c ∷ more) (IsTree-IsTag inner hi) (hc, hm)) in
    let (earlier, front) = nodes_from-append before element tail in
    let (found, bytes) =
      closing_inner (length earlier) o inner c more tail (nodes_from more tail) hi c1 n in
    (
      earlier,
      next,
      parse_xml-nodes (before ++ element) tail all_tags
          ∙ (front
              ∙ (ap (λ xs. earlier ++ (xs ++ nodes_from (tags_of inner ++ (c ∷ more)) tail))
                    (start_nodes o (behind (tags_of inner ++ (c ∷ more)) tail) ho o1 o2)
                  ∙ ap (λ xs. earlier ++ (s ∷ xs))
                      (nodes_from-forest inner (c ∷ more) tail hi
                        ∙ ap
                            (λ xs.
                              tags (forest inner (c ∷ more) tail) ++ (xs ++ nodes_from more tail))
                            (closing_nodes c (behind more tail) hc c1 c2)))),
      found,
      bytes,
    )
