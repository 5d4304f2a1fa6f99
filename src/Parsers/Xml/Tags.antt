-- ===== src/Parsers/Xml/Tags.antt =====
-- libIWeb/ILibParsers.c: `ILibParseXML`, the list of the nodes of a text.
-- The links of the nodes are NULL. The closing node that is made for an empty element has no
-- `EmptyTag` of its own in the source, which leaves it as `MALLOC` gave it; here it is false.
pub mod Words
pub mod Print
pub mod Documents
pub mod Trees
pub mod InnerText
pub mod Tests
use tv_now.Common.{
  ℕ, zero, suc, ◌+◌, ◌-◌, Bool, true, false, not, ◌&&◌, ◌||◌, List, [], ◌∷◌, ◌++◌, Option, none,
  some, Bytes, ◌==◌, if◌then◌else◌, length, take, drop,
}
use tv_now.Parsers.Split.{Field, text, first, parse_string, last_result}
use tv_now.Parsers.Xml.Nodes.{Node}

-- `RetVal->FirstResult`; `ILibParseString` has always one.
abbrev pub first_result : List Field → Field
first_result [] = record { start = []; datalength = 0 }
first_result (f ∷ fs) = f

abbrev pub last_of : List Field → Field
last_of [] = record { start = []; datalength = 0 }
last_of (f ∷ fs) = last_result f fs

-- `data[datalength-1]=='/'`. For an empty field this reads the byte in front of it, and the answer is
-- not used, since the field has no tag name.
unfoldable pub last_is_slash : Bytes → Bool
last_is_slash [] = false
last_is_slash (c ∷ []) = c == b'/'
last_is_slash (c ∷ d ∷ s) = last_is_slash (d ∷ s)

-- The bytes that end a tag name.
abbrev pub ends_name : ℕ → Bool
ends_name c = c == b' ' || c == b'/' || c == b'>' || c == b'\r' || c == b'\n'

-- The loop over the tag name, at its byte `i`: `TagNameLength` and `EmptyTag` behind it.
unfoldable pub scan_name : Bytes → ℕ → Bool → ℕ × Bool
scan_name [] i empty_tag = (i, empty_tag)
scan_name (c ∷ s) i empty_tag =
    let further = scan_name s (i + 1) empty_tag in
    if ends_name c && not (i == 0) then (i, (if c == b'/' then true else empty_tag)) else further

-- `NSTag` and the tag name, from the parts of the name at `:`.
unfoldable pub qualified_name : List Field → Option Bytes × Bytes
qualified_name [] = (none, [])
qualified_name (f ∷ []) = (none, text f)
qualified_name (f ∷ g ∷ fs) = (some (text f), text g)

-- A new node.
abbrev pub new_node : Bytes → Option Bytes → Bool → Bool → Bytes → Node
new_node name ns_tag start_tag empty_tag reserved = record {
  name = name;
  ns_tag = ns_tag;
  start_tag = start_tag;
  empty_tag = empty_tag;
  reserved = reserved;
  parent = none;
  peer = none;
  closing_tag = none;
}

-- The nodes of a tag: none without a name, and two for an empty element.
abbrev pub make_nodes : Bytes → Option Bytes → Bool → Bool → Bytes → List Node
make_nodes [] ns_tag start_tag empty_tag reserved = []
make_nodes (c ∷ name) ns_tag start_tag empty_tag reserved =
    if empty_tag
    then new_node (c ∷ name) ns_tag start_tag true reserved
      ∷ new_node (c ∷ name) ns_tag false false reserved
      ∷ []
    else new_node (c ∷ name) ns_tag start_tag false reserved ∷ []

-- A field between two `<`: `field` without the `/` of a closing tag, `reserved` for its node if it
-- closes.
unfoldable pub parse_tag : Bool → Field → Bytes → List Node
unfolding parse_string last_is_slash scan_name qualified_name
parse_tag start_tag field closing =
    let temp2 = parse_string field.start 0 field.datalength (b'>' ∷ []) in
    let head = first_result temp2 in
    let empty_tag = start_tag && last_is_slash (text head) in
    let word = first_result (parse_string head.start 0 head.datalength (b' ' ∷ [])) in
    let (ns_tag, name) = qualified_name (parse_string word.start 0 word.datalength (b':' ∷ [])) in
    let (name_length, empty_tag') = scan_name name 0 empty_tag in
    make_nodes (take name_length name) ns_tag start_tag empty_tag'
      (if start_tag then (last_of temp2).start else closing)

unfoldable pub parse_field : Field → List Node
unfolding parse_tag
parse_field f =
    if first f.start == b'?'
    then []
    else if first f.start == b'/'
    then parse_tag false (record { start = drop 1 f.start; datalength = f.datalength - 1 }) f.start
    else parse_tag true f []

unfoldable pub parse_fields : List Field → List Node
unfolding parse_field
parse_fields [] = []
parse_fields (f ∷ fs) = parse_field f ++ parse_fields fs

unfoldable pub parse_xml : Bytes → ℕ → ℕ → List Node
unfolding parse_string parse_fields
parse_xml buffer offset end =
    if end == 0 then [] else parse_fields (parse_string buffer offset end (b'<' ∷ []))
