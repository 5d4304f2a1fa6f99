-- ===== src/Upnp/Actions/Browse.antt =====
-- What `UpnpProcessPOST` makes of a `Browse` request as a control point writes it.
use tv_now.Common.{
  ℕ, ◌+◌, ◌%◌, ◌^◌, ◌<◌, Bool, true, false, not, some, List, [], ◌∷◌, ◌++◌, ◌≡◌, refl, ap, ◌∙◌,
  arith, Bytes, codes, length, if◌then◌else◌, if_false, equal,
}
use tv_now.Common.Int.{pos}
use tv_now.Parsers.XmlEscape.{in_place_xml_unescape, unescape_loop, unescape_entity}
use tv_now.Parsers.Packets.{HeaderField, decimal}
use tv_now.Parsers.Numbers.{Numeric, get_ulong}
use tv_now.Parsers.Numbers.RoundTrip.{get_long-decimal}
use tv_now.Upnp.Ssdp.{to_ulong_val}
use tv_now.Upnp.Actions.{
  all_seen, soap_action, content_directory_action, Dispatched, browse, refused, unescaped_text,
  is_browse_flag, read_number, checked_browse, dispatch_browse, process_post,
}
use tv_now.Upnp.Actions.Written.{unescaped_text-xml_escape, xml_text}
use tv_now.Upnp.Actions.Body.{BrowseRequest, flag, browse_body, read_back, read_browse, split_body}

flag_text :
    (children : Bool)
    → (unescaped_text (flag children) ≡ flag children) × (is_browse_flag (flag children) ≡ true)
unfolding unescaped_text in_place_xml_unescape unescape_loop unescape_entity equal
flag_text true = (refl, refl)
flag_text false = (refl, refl)

-- Decimals of 32 bits are accepted and give the number.
number_accepted :
    (n : ℕ)
    → n < 4294967296
    → (get_ulong false (decimal (pos n))
        ≡ record { value = pos n; accepted = true; erange = false })
      × (n % 2 ^ 32 ≡ n)
number_accepted n h = ((get_long-decimal n [] (omega arith)).1, omega arith)

read_number_lem :
    (n : ℕ) (then_call : ℕ → Bool → Dispatched) (else_refuse : Dispatched)
    → n < 4294967296
    → read_number false (some (decimal (pos n))) then_call else_refuse ≡ then_call n false
unfolding read_number
read_number_lem n then_call else_refuse h =
    let (e, m) = number_accepted n h in
    let next = λ (x : Numeric).
      (if x.accepted then then_call (to_ulong_val x.value % 2 ^ 32) x.erange else else_refuse) in
    ap next e ∙ ap (λ (k : ℕ). then_call k false) m

-- The tests on the flag and the numbers, and the call.
tested : Bytes → Bytes → Bytes → Bytes → ℕ → ℕ → Dispatched
unfolding equal
tested id flag filter sort n m =
    let start = λ (n' : ℕ) (e : Bool).
      read_number e (some (decimal (pos m)))
        (λ (m' : ℕ) (e' : Bool). browse id flag filter n' m' sort)
        (refused 402 (codes "Argument[RequestedCount] illegal value")) in
    if not (is_browse_flag flag)
    then refused 402 (codes "Argument[BrowseFlag] contains a value that is not in AllowedValueList")
    else read_number false (some (decimal (pos n))) start
        (refused 402 (codes "Argument[StartingIndex] illegal value"))

tested_lem :
    (id flag filter sort : Bytes) (n m : ℕ)
    → is_browse_flag flag ≡ true
    → n < 4294967296
    → m < 4294967296
    → tested id flag filter sort n m ≡ browse id flag filter n m sort
unfolding tested
tested_lem id flag filter sort n m q h k =
    if_false (not (is_browse_flag flag)) _ _ (ap not q)
    ∙ (read_number_lem n _ _ h ∙ read_number_lem m _ _ k)

-- The call that the request asks for.
abbrev pub asked : BrowseRequest → Dispatched
asked r =
    browse r.object_id (flag r.children) r.filter r.starting_index r.requested_count r.sort_criteria

checked_browse-read_back :
    (r : BrowseRequest)
    → r.starting_index < 4294967296
    → r.requested_count < 4294967296
    → checked_browse false (read_back r) ≡ asked r
unfolding checked_browse all_seen tested equal
checked_browse-read_back r h k =
    let (e, f) = flag_text r.children in
    let id = unescaped_text (xml_text r.object_id) in
    let filter = unescaped_text (xml_text r.filter) in
    let sort = unescaped_text (xml_text r.sort_criteria) in
    ap (λ (b : Bytes). tested id b filter sort r.starting_index r.requested_count) e
    ∙ (tested_lem id (flag r.children) filter sort r.starting_index r.requested_count f h k
        ∙ rw
            (
              unescaped_text-xml_escape r.object_id,
              unescaped_text-xml_escape r.filter,
              unescaped_text-xml_escape r.sort_criteria,
            )
            refl)

-- The header fields of the request.
abbrev pub browse_fields : Bytes → List HeaderField
browse_fields host =
    record { field = codes "HOST"; field_data = host }
    ∷ record {
      field = codes "SOAPACTION";
      field_data = codes "\"urn:schemas-upnp-org:service:ContentDirectory:1#Browse\"";
    }
    ∷ []

-- Of a `Browse` request as a control point writes it, with its texts escaped and its numbers in decimals below 2 ^ 32,
-- wherever its body stands in the buffer and while `errno` is not ERANGE, `UpnpProcessPOST` calls `UpnpContentDirectory_Browse` with
-- exactly those texts and numbers.
pub process_post-browse :
    (r : BrowseRequest) (host front tail : Bytes)
    → r.starting_index < 4294967296
    → r.requested_count < 4294967296
    → process_post false
        (codes "/ContentDirectory/control")
        (browse_fields host)
        (front ++ (browse_body r ++ tail))
        (length front)
        (length front + length (browse_body r))
      ≡ asked r
unfolding process_post soap_action content_directory_action dispatch_browse equal
process_post-browse r host front tail h k =
    ap (dispatch_browse false) (split_body r front tail)
    ∙ (ap (checked_browse false) (read_browse r) ∙ checked_browse-read_back r h k)
