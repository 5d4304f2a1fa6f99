-- ===== src/Upnp/Actions.antt =====
-- UpnpMicroStack.c: SOAP actions and their arguments, `UpnpProcessPOST`, `UpnpDispatch_ContentDirectory_Browse` and
-- `UpnpDispatch_ConnectionManager_GetCurrentConnectionInfo`. The functions of the application that an action calls are
-- parameters of the program: the model gives which is called and with what. A result of the tokenizer
-- is its text, and the body has no NUL.
pub mod Fields
pub mod Written
pub mod Body
pub mod Browse
pub mod Connection
pub mod Tests
use tv_now.Common.{
  ℕ, ◌-◌, ◌%◌, ◌^◌, Bool, true, false, not, ◌&&◌, ◌||◌, Option, none, some, List, [], ◌∷◌, Bytes,
  codes, ◌==◌, if◌then◌else◌, length, take, drop, equal,
}
use tv_now.Common.Int.{ℤ}
use tv_now.Parsers.Split.{first, texts, parse_string}
use tv_now.Parsers.XmlEscape.{in_place_xml_unescape}
use tv_now.Parsers.Packets.{HeaderField}
use tv_now.Parsers.Numbers.{get_long, get_ulong}
use tv_now.Parsers.Xml.Tags.{last_is_slash}
use tv_now.Upnp.Ssdp.{to_ulong_val}
use tv_now.Upnp.Subscribe.{header_data, long_to_int, no_url}

-- `ILibParseString(s,0,length,&c,1)`.
unfoldable pub split : ℕ → Bytes → List Bytes
unfolding parse_string
split c s = texts (parse_string s 0 (length s) (c ∷ []))

-- `FirstResult` and `LastResult`; the tokenizer has always one.
abbrev pub head_text : List Bytes → Bytes
head_text [] = []
head_text (t ∷ ts) = t

unfoldable pub end_text : List Bytes → Bytes
end_text [] = []
end_text (t ∷ []) = t
end_text (t ∷ u ∷ ts) = end_text (u ∷ ts)

-- The loop over `VarName`: a blank, `/` or `>` that is not the first byte ends it.
unfoldable pub cut_name : Bool → Bytes → Bytes
cut_name is_first [] = []
cut_name is_first (c ∷ s) =
    let more = c ∷ cut_name false s in
    if not is_first && (c == b' ' || c == b'/' || c == b'>') then [] else more

-- `VarName` before that loop, from the parts of the tag's first word at `:`.
unfoldable pub var_name : List Bytes → Bytes
unfolding split
var_name [] = []
var_name (p ∷ []) = p
var_name (p ∷ q ∷ ps) = elim (split b'>' p) [ (x ∷ []) ↦ q | _ ↦ p ]

unfoldable pub field_name : Bytes → Bytes
unfolding cut_name var_name split
field_name field = cut_name true (var_name (split b':' (head_text (split b' ' field))))

-- The text behind the last `>`, unless the tag is an empty element. The byte before a `>` that is the field's first
-- is never asked for, since the field has no name then.
unfoldable pub field_value : Bytes → Option Bytes
unfolding split last_is_slash
field_value field =
    let parts = split b'>' field in
    if last_is_slash (head_text parts) then none else some (end_text parts)

-- `memcmp(field->data,"?",1)!=0 && memcmp(field->data,"/",1)!=0`. An empty field has no name either way.
abbrev pub is_tag : Bytes → Bool
is_tag field = not (first field == b'?') && not (first field == b'/')

-- The arguments of `Browse` that have been read: the texts, and of a number whether it has been seen and the
-- pointer to its text, which is NULL for an empty element.
pub record Arguments : Type 0 where
  pub object_id : Option Bytes
  pub browse_flag : Option Bytes
  pub filter : Option Bytes
  pub sort_criteria : Option Bytes
  pub starting_index : Bool × Option Bytes
  pub requested_count : Bool × Option Bytes

abbrev pub no_arguments : Arguments
no_arguments = record {
  object_id = none;
  browse_flag = none;
  filter = none;
  sort_criteria = none;
  starting_index = (false, none);
  requested_count = (false, none);
}

-- An empty element leaves the pointer to a number as it is.
abbrev pub number_read : Bool × Option Bytes → Option Bytes → Bool × Option Bytes
number_read x none = (true, x.1)
number_read x (some t) = (true, some t)

-- The `else if`s over the name, with the value.
unfoldable pub store_argument : Arguments → Bytes → Option Bytes → Arguments
unfolding equal
store_argument a name value =
    let string = some (no_url value) in
    if equal name (codes "ObjectID")
    then record a { object_id = string }
    else if equal name (codes "BrowseFlag")
    then record a { browse_flag = string }
    else if equal name (codes "Filter")
    then record a { filter = string }
    else if equal name (codes "StartingIndex")
    then record a { starting_index = number_read a.starting_index value }
    else if equal name (codes "RequestedCount")
    then record a { requested_count = number_read a.requested_count value }
    else if equal name (codes "SortCriteria")
    then record a { sort_criteria = string }
    else a

unfoldable pub read_arguments : Arguments → List Bytes → Arguments
unfolding store_argument field_name field_value
read_arguments a [] = a
read_arguments a (f ∷ fs) =
    if is_tag f
    then read_arguments (store_argument a (field_name f) (field_value f)) fs
    else read_arguments a fs

-- What a request comes to: no call and no answer, an error reply, a read through NULL, or the call of a
-- function of the application.
pub data Dispatched : Type 0 where
  unanswered null_read : Dispatched
  refused : ℕ → Bytes → Dispatched
  browse : Bytes → Bytes → Bytes → ℕ → ℕ → Bytes → Dispatched
  get_sort_capabilities get_system_update_id get_search_capabilities : Dispatched
  get_current_connection_info : ℤ → Dispatched
  get_protocol_info get_current_connection_ids : Dispatched

-- The text that `ILibInPlaceXmlUnEscape` leaves.
unfoldable pub unescaped_text : Bytes → Bytes
unescaped_text s = let r = in_place_xml_unescape s in take r.1 r.0

abbrev pub is_browse_flag : Bytes → Bool
is_browse_flag flag =
    equal flag (codes "BrowseMetadata") || equal flag (codes "BrowseDirectChildren")

-- `ILibGetULong` of an argument: the value, if it is accepted, and `errno`. Of NULL it reads the first
-- byte, unless `errno` is ERANGE.
unfoldable pub read_number : Bool → Option Bytes → (ℕ → Bool → Dispatched) → Dispatched → Dispatched
unfolding get_ulong
read_number erange none then_call else_refuse = if erange then else_refuse else null_read
read_number erange (some t) then_call else_refuse =
    let n = get_ulong erange t in
    if n.accepted then then_call (to_ulong_val n.value % 2 ^ 32) n.erange else else_refuse

abbrev is_seen : Option Bytes → Bool
is_seen none = false
is_seen (some t) = true

-- `OK == 63`.
unfoldable pub all_seen : Arguments → Bool
all_seen a =
    is_seen a.object_id
    && is_seen a.browse_flag
    && is_seen a.filter
    && a.starting_index.0
    && a.requested_count.0
    && is_seen a.sort_criteria

-- `UpnpDispatch_ContentDirectory_Browse` behind its loop. The flag is whether `errno` is ERANGE.
unfoldable pub checked_browse : Bool → Arguments → Dispatched
unfolding read_number unescaped_text equal all_seen
checked_browse erange a =
    let flag = unescaped_text (no_url a.browse_flag) in
    let start = λ (n : ℕ) (e : Bool).
      read_number e a.requested_count.1
        (λ (m : ℕ) (e' : Bool).
          browse (unescaped_text (no_url a.object_id)) flag (unescaped_text (no_url a.filter)) n m
            (unescaped_text (no_url a.sort_criteria)))
        (refused 402 (codes "Argument[RequestedCount] illegal value")) in
    if not (all_seen a)
    then refused 402 (codes "Incorrect Arguments")
    else if not (is_browse_flag flag)
    then refused 402 (codes "Argument[BrowseFlag] contains a value that is not in AllowedValueList")
    else read_number erange a.starting_index.1 start
        (refused 402 (codes "Argument[StartingIndex] illegal value"))

-- `UpnpDispatch_ContentDirectory_Browse`.
unfoldable pub dispatch_browse : Bool → List Bytes → Dispatched
unfolding read_arguments checked_browse
dispatch_browse erange xml = checked_browse erange (read_arguments no_arguments xml)

-- The argument of `GetCurrentConnectionInfo`: whether it has been seen, and the pointer to its text.
unfoldable pub read_connection_id : Bool × Option Bytes → List Bytes → Bool × Option Bytes
unfolding field_name field_value equal
read_connection_id x [] = x
read_connection_id x (f ∷ fs) =
    let x' = number_read x (field_value f) in
    if is_tag f && equal (field_name f) (codes "ConnectionID")
    then read_connection_id x' fs
    else read_connection_id x fs

-- `UpnpDispatch_ConnectionManager_GetCurrentConnectionInfo`. For NULL `ILibGetLong` copies no byte.
unfoldable pub dispatch_connection_info : Bool → List Bytes → Dispatched
unfolding read_connection_id get_long
dispatch_connection_info erange xml =
    let (seen, id) = read_connection_id (false, none) xml in
    let n = get_long erange (no_url id) in
    if length (head_text xml) == 0
    then refused 501 (codes "Invalid XML")
    else if not seen
    then refused 402 (codes "Incorrect Arguments")
    else if n.accepted
    then get_current_connection_info (long_to_int n.value)
    else refused 402 (codes "Argument[ConnectionID] illegal value")

-- The action's name: what is behind the last `#` of the header field, without its last byte.
unfoldable pub soap_action : List HeaderField → Bytes
unfolding header_data split end_text
soap_action fields = elim (header_data (codes "SOAPACTION") fields) [
  | none ↦ []
  | some d ↦ let t = end_text (split b'#' d) in take (length t - 1) t
]

unfoldable pub content_directory_action : Bool → Bytes → List Bytes → Dispatched
unfolding equal dispatch_browse
content_directory_action erange action xml =
    if equal action (codes "Browse")
    then dispatch_browse erange xml
    else if equal action (codes "GetSortCapabilities")
    then get_sort_capabilities
    else if equal action (codes "GetSystemUpdateID")
    then get_system_update_id
    else if equal action (codes "GetSearchCapabilities")
    then get_search_capabilities
    else unanswered

unfoldable pub connection_manager_action : Bool → Bytes → List Bytes → Dispatched
unfolding equal dispatch_connection_info
connection_manager_action erange action xml =
    if equal action (codes "GetCurrentConnectionInfo")
    then dispatch_connection_info erange xml
    else if equal action (codes "GetProtocolInfo")
    then get_protocol_info
    else if equal action (codes "GetCurrentConnectionIDs")
    then get_current_connection_ids
    else unanswered

-- `UpnpProcessPOST`, for the directive's object, the header fields, and the buffer with the body from `offset` to `end`.
unfoldable pub process_post : Bool → Bytes → List HeaderField → Bytes → ℕ → ℕ → Dispatched
unfolding parse_string soap_action content_directory_action connection_manager_action equal
process_post erange obj fields body offset end =
    let xml = texts (parse_string body offset end (b'<' ∷ [])) in
    if length obj == 25 && equal (drop 1 obj) (codes "ContentDirectory/control")
    then content_directory_action erange (soap_action fields) xml
    else if length obj == 26 && equal (drop 1 obj) (codes "ConnectionManager/control")
    then connection_manager_action erange (soap_action fields) xml
    else unanswered
