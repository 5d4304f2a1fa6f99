-- ===== src/Upnp/Actions/Connection.antt =====
-- `GetCurrentConnectionInfo`, by the body of its request.
use tv_now.Common.{◌+◌, Bool, List, [], ◌∷◌, ◌++◌, ◌≡◌, ap, ◌∙◌, Bytes, codes, length, equal}
use tv_now.Parsers.Split.{texts, parse_string}
use tv_now.Parsers.Split.Parts.{until, parse_string-parts}
use tv_now.Parsers.Packets.{HeaderField}
use tv_now.Upnp.Actions.{
  refused, soap_action, dispatch_connection_info, connection_manager_action, process_post,
}

-- `UpnpProcessPOST` of the action `GetCurrentConnectionInfo` refuses every body that begins with `<` as invalid XML, whatever
-- follows and whatever its arguments are.
pub process_post-connection_info :
    (erange : Bool) (fields : List HeaderField) (front s tail : Bytes)
    → soap_action fields ≡ codes "GetCurrentConnectionInfo"
    → process_post erange
        (codes "/ConnectionManager/control")
        fields
        (front ++ ((b'<' ∷ s) ++ tail))
        (length front)
        (length front + length (b'<' ∷ s))
      ≡ refused 501 (codes "Invalid XML")
unfolding process_post connection_manager_action dispatch_connection_info equal until
process_post-connection_info erange fields front s tail h =
    let xml = texts (
      parse_string (front ++ ((b'<' ∷ s) ++ tail)) (length front) (length front + length (b'<' ∷ s))
        (b'<' ∷ [])) in
    ap (λ (a : Bytes). connection_manager_action erange a xml) h
    ∙ ap (dispatch_connection_info erange) (parse_string-parts b'<' front (b'<' ∷ s) tail)
