-- ===== src/Parsers/Xml/Tags/Tests.antt =====
-- The XML parser, run on a short text.
use tv_now.Common.{
  ℕ, Bool, true, false, not, ◌&&◌, List, [], ◌∷◌, ◌++◌, none, some, ◌≡◌, refl, Bytes, codes, length,
  take, Lacks, ◌==◌, arith, equal,
}
use tv_now.Common.Int.{pos, negsuc}
use tv_now.Parsers.Split.{parse_string, parse_loop, is_delimiter}
use tv_now.Parsers.Xml.Nodes.{
  Node, process_xml_node_list, process_loop, process_close, push_stack, pop_stack, peek_stack,
  read_inner_xml,
}
use tv_now.Parsers.Xml.Nodes.Forest.{Forest, tags, IsMatched, linked}
use tv_now.Parsers.Xml.Nodes.Nesting.{process_xml_node_list-IsMatched}
use tv_now.Parsers.Xml.Tags.{
  parse_xml, parse_fields, parse_field, parse_tag, qualified_name, scan_name, last_is_slash,
  new_node,
}
use tv_now.Parsers.Xml.Tags.Print.{Tag, IsTag, head, body}
use tv_now.Parsers.Xml.Tags.Documents.{document, behind}
use tv_now.Parsers.Xml.Tags.Trees.{
  Tree, nothing, around, leaf, tags_of, IsTree, forest, process_xml_node_list-parse_xml, start_node,
  closing_node,
}
use tv_now.Parsers.Xml.Tags.InnerText.{inner_text, read_inner_xml-inner_text}

abbrev lacks : ℕ → Bytes → Bool
lacks b [] = true
lacks b (c ∷ s) = not (c == b) && lacks b s

lacks-Lacks : (b : ℕ) (s : Bytes) → lacks b s ≡ true → Lacks b s
lacks-Lacks b [] h = tt
lacks-Lacks b (c ∷ s) h = (ground arith, lacks-Lacks b s (ground arith))

abbrev opening : Tag
opening = record {
  is_closing = false;
  is_empty = false;
  prefix = some (codes "s");
  name = codes "a";
  attributes = some (codes "x=\"1\"");
  content = codes "t";
}

abbrev inside : Tag
inside = record {
  is_closing = false;
  is_empty = true;
  prefix = none;
  name = codes "b";
  attributes = none;
  content = codes "u";
}

abbrev closing : Tag
closing = record {
  is_closing = true;
  is_empty = false;
  prefix = some (codes "s");
  name = codes "a";
  attributes = none;
  content = [];
}

abbrev tree : Tree
tree = around opening (leaf inside nothing) closing nothing

document_test : document (tags_of tree) ≡ codes "<s:a x=\"1\">t<b/>u</s:a>"
unfolding tags_of
document_test = refl

-- White space in front of the first tag makes a node of its own, which nothing closes.
blank_test : (process_xml_node_list (parse_xml (codes "\r\n<a></a>") 0 9)).1 ≡ negsuc 2
unfolding process_xml_node_list process_loop process_close push_stack pop_stack peek_stack parse_xml
    parse_fields parse_field parse_tag qualified_name scan_name last_is_slash parse_string
    parse_loop is_delimiter equal
blank_test = refl

opening-IsTag : IsTag opening
unfolding last_is_slash
opening-IsTag = record {
  named = λ z. cc;
  name_bytes = (refl, tt);
  qualified_bytes = (refl, (refl, (refl, tt)));
  plain_start = refl;
  no_colon = (lacks-Lacks b':' (codes "s") refl, (lacks-Lacks b':' (codes "a") refl, tt));
  head_ends = lacks-Lacks b'>' (head opening) refl;
  content_ends = lacks-Lacks b'>' opening.content refl;
  body_ends = lacks-Lacks b'<' (body opening) refl;
  marked = refl;
}

inside-IsTag : IsTag inside
unfolding last_is_slash
inside-IsTag = record {
  named = λ z. cc;
  name_bytes = (refl, tt);
  qualified_bytes = (refl, tt);
  plain_start = refl;
  no_colon = (lacks-Lacks b':' (codes "b") refl, tt);
  head_ends = lacks-Lacks b'>' (head inside) refl;
  content_ends = lacks-Lacks b'>' inside.content refl;
  body_ends = lacks-Lacks b'<' (body inside) refl;
  marked = refl;
}

closing-IsTag : IsTag closing
unfolding last_is_slash
closing-IsTag = record {
  named = λ z. cc;
  name_bytes = (refl, tt);
  qualified_bytes = (refl, (refl, (refl, tt)));
  plain_start = refl;
  no_colon = (lacks-Lacks b':' (codes "s") refl, (lacks-Lacks b':' (codes "a") refl, tt));
  head_ends = lacks-Lacks b'>' (head closing) refl;
  content_ends = lacks-Lacks b'>' closing.content refl;
  body_ends = lacks-Lacks b'<' (body closing) refl;
  marked = refl;
}

tree-IsTree : IsTree tree
unfolding IsTree
tree-IsTree =
    (opening-IsTag, closing-IsTag, refl, refl, refl, refl, refl, (inside-IsTag, refl, refl, tt), tt)

process_xml_node_list-parse_xml_example :
    process_xml_node_list
      (parse_xml (document (tags_of tree) ++ codes "\r\n") 0 (length (document (tags_of tree))))
    ≡ (linked 0 none (forest tree [] (codes "\r\n")), pos 0)
process_xml_node_list-parse_xml_example =
    process_xml_node_list-parse_xml tree (codes "\r\n") tree-IsTree

-- The links of the four nodes.
links_test :
    (linked 0 none (forest tree [] []))
    ≡ record (start_node opening (codes "<b/>u</s:a>")) { closing_tag = some 3 }
      ∷ record (start_node inside (codes "</s:a>")) { parent = some 0; closing_tag = some 2 }
      ∷ new_node (codes "b") none false false (codes "u</s:a>")
      ∷ closing_node closing []
      ∷ []
unfolding linked forest tags tags_of
links_test = refl

inner : Tree
inner = leaf inside nothing

-- The element stands behind another one's start tag.
read_inner_xml-inner_text_example :
    let ts = opening ∷ opening ∷ (tags_of inner ++ (closing ∷ closing ∷ [])) in
    let t = start_node opening (behind (tags_of inner ++ (closing ∷ closing ∷ [])) []) in
    (earlier : List Node) × (next : List Node) × (parse_xml
        (document ts ++ [])
        0
        (length (document ts))
      ≡ earlier ++ (t ∷ next))
    × (read_inner_xml (length earlier) t next
        ≡ some (t.reserved, length (inner_text opening inner)))
    × (take (length (inner_text opening inner)) t.reserved ≡ inner_text opening inner)
unfolding IsTree inner
read_inner_xml-inner_text_example =
    read_inner_xml-inner_text (opening ∷ []) opening inner closing (closing ∷ []) []
      (opening-IsTag, tt)
      (
        opening-IsTag,
        closing-IsTag,
        refl,
        refl,
        refl,
        refl,
        refl,
        (inside-IsTag, refl, refl, tt),
        tt,
      )
      (closing-IsTag, tt)

abbrev two_tags : List Node
two_tags = new_node (codes "a") none true false [] ∷ new_node (codes "a") none false false [] ∷ []

process_xml_node_list-IsMatched_example : (f : Forest) × IsMatched f × (two_tags ≡ tags f)
unfolding process_xml_node_list process_loop process_close push_stack pop_stack peek_stack equal
process_xml_node_list-IsMatched_example = process_xml_node_list-IsMatched two_tags refl
