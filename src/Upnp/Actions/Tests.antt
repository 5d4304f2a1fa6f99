-- ===== src/Upnp/Actions/Tests.antt =====
-- Actions on concrete requests.
use tv_now.Common.{ℕ, ◌+◌, true, false, List, [], ◌∷◌, ◌++◌, ◌≡◌, refl, arith, codes, length, equal}
use tv_now.Parsers.Packets.{HeaderField}
use tv_now.Upnp.Actions.{refused, unanswered, soap_action, content_directory_action, process_post}
use tv_now.Upnp.Actions.Browse.{browse_fields, asked, process_post-browse}
use tv_now.Upnp.Actions.Body.{BrowseRequest, browse_body}
use tv_now.Upnp.Actions.Connection.{process_post-connection_info}

abbrev request : BrowseRequest
request = record {
  object_id = codes "0/a & b";
  children = true;
  filter = codes "*";
  starting_index = 0;
  requested_count = 4294967295;
  sort_criteria = [];
}

process_post-browse_example :
    process_post false
      (codes "/ContentDirectory/control")
      (browse_fields (codes "10.0.0.2:62080"))
      (codes "POST" ++ (browse_body request ++ []))
      (length (codes "POST"))
      (length (codes "POST") + length (browse_body request))
    ≡ asked request
process_post-browse_example =
    process_post-browse request (codes "10.0.0.2:62080") (codes "POST") [] (omega arith)
      (omega arith)

abbrev connection_fields : List HeaderField
connection_fields =
    record {
      field = codes "SOAPACTION";
      field_data =
          codes "\"urn:schemas-upnp-org:service:ConnectionManager:1#GetCurrentConnectionInfo\"";
    }
    ∷ []

process_post-connection_info_example :
    process_post false
      (codes "/ConnectionManager/control")
      connection_fields
      ([] ++ (codes "<ConnectionID>0</ConnectionID>" ++ []))
      (length {A = ℕ} [])
      (length {A = ℕ} [] + length (codes "<ConnectionID>0</ConnectionID>"))
    ≡ refused 501 (codes "Invalid XML")
unfolding soap_action
process_post-connection_info_example =
    process_post-connection_info false connection_fields [] (codes "ConnectionID>0</ConnectionID>")
      [] refl

-- An action that the service does not have gets no answer.
unknown_action : content_directory_action false (codes "Search") [] ≡ unanswered
unfolding content_directory_action equal
unknown_action = refl
