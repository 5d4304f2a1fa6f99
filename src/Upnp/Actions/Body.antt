-- ===== src/Upnp/Actions/Body.antt =====
-- The body of a `Browse` request as a control point writes it, and the arguments that are read from it.
use tv_now.Common.{
  ℕ, ◌+◌, Bool, true, false, not, ◌&&◌, some, List, [], ◌∷◌, ◌++◌, ◌≡◌, ◌≢◌, refl, ◌∙◌, arith,
  Bytes, codes, length, All, All-append, Lacks, equal, starts,
}
use tv_now.Common.Int.{pos}
use tv_now.Parsers.Split.{texts, parse_string, parse_loop, is_delimiter}
use tv_now.Parsers.Split.Rounds.{join}
use tv_now.Parsers.Split.Rejoin.{parse_string-join}
use tv_now.Parsers.Packets.{decimal}
use tv_now.Upnp.Actions.{
  Arguments, no_arguments, store_argument, read_arguments, field_name, field_value, split, cut_name,
  var_name, end_text,
}
use tv_now.Parsers.Xml.Tags.{last_is_slash}
use tv_now.Upnp.Actions.Fields.{is_word, element, read_arguments-element}
use tv_now.Upnp.Actions.Written.{
  has, has-Lacks, has_any-Lacks, angle, decimal_onto-Lacks, xml_text, xml_text-Lacks,
}

-- The arguments of `Browse`, with the flag by whether it asks for the children.
pub record BrowseRequest : Type 0 where
  pub object_id : Bytes
  pub children : Bool
  pub filter : Bytes
  pub starting_index : ℕ
  pub requested_count : ℕ
  pub sort_criteria : Bytes

abbrev pub flag : Bool → Bytes
flag true = codes "BrowseDirectChildren"
flag false = codes "BrowseMetadata"

abbrev pub opening : List Bytes
opening =
    []
    ∷ codes "?xml version=\"1.0\" encoding=\"utf-8\"?>"
    ∷ codes
        "s:Envelope xmlns:s=\"http://schemas.xmlsoap.org/soap/envelope/\" s:encodingStyle=\"http://schemas.xmlsoap.org/soap/encoding/\">"
    ∷ codes "s:Body>"
    ∷ codes "u:Browse xmlns:u=\"urn:schemas-upnp-org:service:ContentDirectory:1\">"
    ∷ []

abbrev closing : List Bytes
closing = codes "/u:Browse>" ∷ codes "/s:Body>" ∷ codes "/s:Envelope>" ∷ []

abbrev pub written : BrowseRequest → List (Bytes × Bytes)
written r =
    (codes "ObjectID", xml_text r.object_id)
    ∷ (codes "BrowseFlag", flag r.children)
    ∷ (codes "Filter", xml_text r.filter)
    ∷ (codes "StartingIndex", decimal (pos r.starting_index))
    ∷ (codes "RequestedCount", decimal (pos r.requested_count))
    ∷ (codes "SortCriteria", xml_text r.sort_criteria)
    ∷ []

abbrev pub elements : List (Bytes × Bytes) → List Bytes
elements [] = closing
elements ((name, value) ∷ xs) = element name value ++ elements xs

-- The body of the request.
unfoldable pub browse_body : BrowseRequest → Bytes
browse_body r = join (b'<' ∷ []) (opening ++ elements (written r))

flag-Lacks : (x children : Bool) → Lacks (angle x) (flag children)
flag-Lacks true true = has-Lacks b'<' (flag true) refl
flag-Lacks true false = has-Lacks b'<' (flag false) refl
flag-Lacks false true = has-Lacks b'>' (flag true) refl
flag-Lacks false false = has-Lacks b'>' (flag false) refl

read_opening :
    (fs : List Bytes) → read_arguments no_arguments (opening ++ fs) ≡ read_arguments no_arguments fs
unfolding read_arguments store_argument field_name field_value split parse_string parse_loop
    is_delimiter starts cut_name var_name end_text last_is_slash equal
read_opening fs = refl

element-Lacks :
    (name v : Bytes) → has b'<' name ≡ false → Lacks b'<' v → All (Lacks b'<') (element name v)
element-Lacks name v h k =
    let no_gt : b'>' ≢ b'<' = ground arith in
    let no_slash : b'/' ≢ b'<' = ground arith in
    let plain = λ (s : Bytes) (q : Lacks b'<' s).
      All-append (λ c. c ≢ b'<') name (b'>' ∷ s) (has-Lacks b'<' name h) (no_gt, q) in
    (plain v k, ((no_slash, plain [] tt), tt))

-- A name of an argument, and a value that an element can hold.
abbrev is_name : Bytes → Bool
is_name [] = false
is_name (c ∷ w) = is_word (c ∷ w) && not (has b'<' (c ∷ w))

abbrev IsWritten : Bytes × Bytes → Type 0
IsWritten (name, value) = (is_name name ≡ true) × ((x : Bool) → Lacks (angle x) value)

elements-Lacks : (xs : List (Bytes × Bytes)) → All IsWritten xs → All (Lacks b'<') (elements xs)
elements-Lacks [] h = has_any-Lacks b'<' closing refl
elements-Lacks (([], v) ∷ xs) ((h, k), hs) = cc
elements-Lacks ((c ∷ w, v) ∷ xs) ((h, k), hs) =
    All-append (Lacks b'<') (element (c ∷ w) v) (elements xs)
      (element-Lacks (c ∷ w) v (ground arith) (k true)) (elements-Lacks xs hs)

store_all : Arguments → List (Bytes × Bytes) → Arguments
unfolding store_argument
store_all a [] = a
store_all a ((name, value) ∷ xs) = store_all (store_argument a name (some value)) xs

read_arguments-elements :
    (a : Arguments) (xs : List (Bytes × Bytes))
    → All IsWritten xs
    → read_arguments a (elements xs) ≡ store_all a xs
unfolding store_all read_arguments
read_arguments-elements a [] h = refl
read_arguments-elements a (([], v) ∷ xs) ((h, k), hs) = cc
read_arguments-elements a ((c ∷ w, v) ∷ xs) ((h, k), hs) =
    read_arguments-element a c w v (elements xs) (ground arith) (k false)
    ∙ read_arguments-elements (store_argument a (c ∷ w) (some v)) xs hs

written-IsWritten : (r : BrowseRequest) → All IsWritten (written r)
written-IsWritten r =
    let text = λ (s : Bytes) (x : Bool). xml_text-Lacks x s in
    let number = λ (n : ℕ) (x : Bool). decimal_onto-Lacks x 10 n [] tt in
    (
      (refl, text r.object_id),
      (
        (refl, λ x. flag-Lacks x r.children),
        (
          (refl, text r.filter),
          (
            (refl, number r.starting_index),
            ((refl, number r.requested_count), ((refl, text r.sort_criteria), tt)),
          ),
        ),
      ),
    )

-- The arguments that are read.
abbrev pub read_back : BrowseRequest → Arguments
read_back r = record {
  object_id = some (xml_text r.object_id);
  browse_flag = some (flag r.children);
  filter = some (xml_text r.filter);
  sort_criteria = some (xml_text r.sort_criteria);
  starting_index = (true, some (decimal (pos r.starting_index)));
  requested_count = (true, some (decimal (pos r.requested_count)));
}

pub read_browse :
    (r : BrowseRequest)
    → read_arguments no_arguments (opening ++ elements (written r)) ≡ read_back r
unfolding store_all store_argument equal
read_browse r =
    read_opening (elements (written r))
    ∙ read_arguments-elements no_arguments (written r) (written-IsWritten r)

-- The body in a buffer is split into its parts.
pub split_body :
    (r : BrowseRequest) (front tail : Bytes)
    → texts (
        parse_string
          (front ++ (browse_body r ++ tail))
          (length front)
          (length front + length (browse_body r))
          (b'<' ∷ []))
      ≡ opening ++ elements (written r)
unfolding browse_body
split_body r front tail =
    parse_string-join b'<' [] front tail (opening ++ elements (written r)) (λ z. cc)
      (All-append (Lacks b'<') opening (elements (written r)) (has_any-Lacks b'<' opening refl)
        (elements-Lacks (written r) (written-IsWritten r)))
