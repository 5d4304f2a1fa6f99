-- ===== src/Upnp/Responses.antt =====
-- UpnpMicroStack.c: the answers to actions, `UpnpResponseGeneric`, `UpnpResponse_Error` and the
-- `UpnpResponse_...` of each action, as the texts that are written and the sizes of the buffers that they are
-- written to, without and with the closing NUL. Integers are those of `%d`, and unsigned ones those of `%u`.
pub mod Sizes
pub mod Stream
pub mod Tests
use tv_now.Common.{
  ℕ, ◌+◌, ◌*◌, Bool, true, false, ◌&&◌, List, [], ◌∷◌, ◌++◌, some, Bytes, codes, length,
  if◌then◌else◌,
}
use tv_now.Common.Int.{ℤ, pos}
use tv_now.Parsers.Packets.{decimal}
use tv_now.Parsers.XmlEscape.{xml_escape}
use tv_now.Sockets.Output.{SendResult}
use tv_now.Web.Headers.{stream_header_raw}
use tv_now.Web.Server.{Header, Session, goes_on, send_raw, stream_body}

-- `ILibXmlEscape` of an argument.
abbrev pub escaped : Bytes → Bytes
escaped t = (xml_escape t).0

-- `<name>text</name>`.
abbrev pub tag : Bytes → Bytes → Bytes
tag name text = b'<' ∷ (name ++ (b'>' ∷ (text ++ (codes "</" ++ (name ++ b'>' ∷ [])))))

-- A text with the size of the buffer for it.
pub record Written : Type 0 where
  pub text : Bytes
  pub size : ℕ

-- `UpnpResponse_ContentDirectory_Browse`.
abbrev pub browse_params : Bytes → ℕ → ℕ → ℕ → Written
browse_params result returned matches update_id = record {
  text =
      tag (codes "Result") (escaped result)
      ++ (tag (codes "NumberReturned") (decimal (pos returned))
          ++ (tag (codes "TotalMatches") (decimal (pos matches))
              ++ tag (codes "UpdateID") (decimal (pos update_id))));
  size = 134 + length (escaped result);
}

-- `UpnpResponse_ContentDirectory_GetSortCapabilities`.
abbrev pub sort_capabilities_params : Bytes → Written
sort_capabilities_params caps = record {
  text = tag (codes "SortCaps") (escaped caps);
  size = 22 + length (escaped caps);
}

-- `UpnpResponse_ContentDirectory_GetSystemUpdateID`.
abbrev pub system_update_id_params : ℕ → Written
system_update_id_params id = record { text = tag (codes "Id") (decimal (pos id)); size = 21 }

-- `UpnpResponse_ContentDirectory_GetSearchCapabilities`.
abbrev pub search_capabilities_params : Bytes → Written
search_capabilities_params caps = record {
  text = tag (codes "SearchCaps") (escaped caps);
  size = 26 + length (escaped caps);
}

-- The arguments of `UpnpResponse_ConnectionManager_GetCurrentConnectionInfo`.
pub record ConnectionInfo : Type 0 where
  pub rcs_id : ℤ
  pub av_transport_id : ℤ
  pub protocol_info : Bytes
  pub peer_connection_manager : Bytes
  pub peer_connection_id : ℤ
  pub direction : Bytes
  pub status : Bytes

abbrev pub connection_info_params : ConnectionInfo → Written
connection_info_params c = record {
  text =
      tag (codes "RcsID") (decimal c.rcs_id)
      ++ (tag (codes "AVTransportID") (decimal c.av_transport_id)
          ++ (tag (codes "ProtocolInfo") (escaped c.protocol_info)
              ++ (tag (codes "PeerConnectionManager") (escaped c.peer_connection_manager)
                  ++ (tag (codes "PeerConnectionID") (decimal c.peer_connection_id)
                      ++ (tag (codes "Direction") (escaped c.direction)
                          ++ tag (codes "Status") (escaped c.status))))));
  size =
      233
      + length (escaped c.protocol_info)
      + length (escaped c.peer_connection_manager)
      + length (escaped c.direction)
      + length (escaped c.status);
}

-- `UpnpResponse_ConnectionManager_GetProtocolInfo`.
abbrev pub protocol_info_params : Bytes → Bytes → Written
protocol_info_params source sink = record {
  text = tag (codes "Source") (escaped source) ++ tag (codes "Sink") (escaped sink);
  size = 31 + length (escaped source) + length (escaped sink);
}

-- `UpnpResponse_ConnectionManager_GetCurrentConnectionIDs`.
abbrev pub connection_ids_params : Bytes → Written
connection_ids_params ids = record {
  text = tag (codes "ConnectionIDs") (escaped ids);
  size = 32 + length (escaped ids);
}

-- The answers to actions, with the arguments of the function for each.
pub data Answer : Type 0 where
  browse : Bytes → ℕ → ℕ → ℕ → Answer
  sort_capabilities search_capabilities : Bytes → Answer
  system_update_id : ℕ → Answer
  connection_info : ConnectionInfo → Answer
  protocol_info : Bytes → Bytes → Answer
  connection_ids : Bytes → Answer

unfoldable pub params : Answer → Written
params (browse result returned matches update_id) = browse_params result returned matches update_id
params (sort_capabilities caps) = sort_capabilities_params caps
params (search_capabilities caps) = search_capabilities_params caps
params (system_update_id id) = system_update_id_params id
params (connection_info c) = connection_info_params c
params (protocol_info source sink) = protocol_info_params source sink
params (connection_ids ids) = connection_ids_params ids

abbrev pub content_directory_urn : Bytes
content_directory_urn = codes "urn:schemas-upnp-org:service:ContentDirectory:1"

abbrev pub connection_manager_urn : Bytes
connection_manager_urn = codes "urn:schemas-upnp-org:service:ConnectionManager:1"

-- The service and the method that each function names.
unfoldable pub service_urn : Answer → Bytes
service_urn (connection_info c) = connection_manager_urn
service_urn (protocol_info source sink) = connection_manager_urn
service_urn (connection_ids ids) = connection_manager_urn
service_urn (browse result returned matches update_id) = content_directory_urn
service_urn (sort_capabilities caps) = content_directory_urn
service_urn (search_capabilities caps) = content_directory_urn
service_urn (system_update_id id) = content_directory_urn

unfoldable pub method_name : Answer → Bytes
method_name (browse result returned matches update_id) = codes "Browse"
method_name (sort_capabilities caps) = codes "GetSortCapabilities"
method_name (search_capabilities caps) = codes "GetSearchCapabilities"
method_name (system_update_id id) = codes "GetSystemUpdateID"
method_name (connection_info c) = codes "GetCurrentConnectionInfo"
method_name (protocol_info source sink) = codes "GetProtocolInfo"
method_name (connection_ids ids) = codes "GetCurrentConnectionIDs"

-- The text of `UpnpResponseGeneric`.
abbrev pub envelope : Bytes → Bytes → Bytes → Written
envelope service method arguments = record {
  text =
      codes
        "<?xml version=\"1.0\" encoding=\"utf-8\"?>\r\n<s:Envelope s:encodingStyle=\"http://schemas.xmlsoap.org/soap/encoding/\" xmlns:s=\"http://schemas.xmlsoap.org/soap/envelope/\"><s:Body><u:"
      ++ (method
          ++ (codes "Response xmlns:u=\""
              ++ (service
                  ++ (codes "\">"
                      ++ (arguments
                          ++ (codes "</u:"
                              ++ (method ++ codes "Response></s:Body></s:Envelope>")))))));
  size = 239 + length service + length arguments + length method * 2;
}

-- The body and the head of `UpnpResponse_Error`.
abbrev pub error_body : ℤ → Bytes → Written
error_body code message = record {
  text =
      codes
        "<s:Envelope\r\n xmlns:s=\"http://schemas.xmlsoap.org/soap/envelope/\" s:encodingStyle=\"http://schemas.xmlsoap.org/soap/encoding/\"><s:Body><s:Fault><faultcode>s:Client</faultcode><faultstring>UPnPError</faultstring><detail><UPnPError xmlns=\"urn:schemas-upnp-org:control-1-0\"><errorCode>"
      ++ (decimal code
          ++ (codes "</errorCode><errorDescription>"
              ++ (message
                  ++ codes
                      "</errorDescription></UPnPError></detail></s:Fault></s:Body></s:Envelope>")));
  size = 395 + length message;
}

abbrev pub error_head : Bytes → Written
error_head body = record {
  text =
      codes "HTTP/1.1 500 Internal\r\nContent-Length: "
      ++ (decimal (pos (length body)) ++ codes "\r\n\r\n");
  size = 59;
}

abbrev pub response_headers : Bytes
response_headers =
    codes "\r\nEXT:\r\nCONTENT-TYPE: text/xml\r\nSERVER: POSIX, UPnP/1.0, NDi TV-Now/0.0.3"

-- The results of `send` for a streamed answer: four for its header and four for its body.
pub record SendResults : Type 0 where
  pub h1 : SendResult
  pub h2 : SendResult
  pub h3 : SendResult
  pub h4 : SendResult
  pub b1 : SendResult
  pub b2 : SendResult
  pub b3 : SendResult
  pub b4 : SendResult

-- `UpnpResponseGeneric`.
unfoldable pub response_generic :
    Header → Session → Bytes → Bytes → Bytes → SendResults → Session × ℤ
unfolding stream_header_raw goes_on stream_body
response_generic h s service method arguments r =
    let x = stream_header_raw h s 200 (codes "OK") (some response_headers) r.h1 r.h2 r.h3 r.h4 in
    if goes_on x.1
    then stream_body h x.0 (envelope service method arguments).text true r.b1 r.b2 r.b3 r.b4
    else x

-- `UpnpResponse_...` of an action. The number is the local `RVAL` of `UpnpResponseGeneric`, which the source computes and
-- does not return.
unfoldable pub respond : Header → Session → Answer → SendResults → Session × ℤ
unfolding params service_urn method_name response_generic
respond h s a r = response_generic h s (service_urn a) (method_name a) (params a).text r

-- `UpnpResponse_Error`.
unfoldable pub response_error : Header → Session → ℤ → Bytes → SendResult → SendResult → Session × ℤ
unfolding send_raw
response_error h s code message r1 r2 =
    let body = (error_body code message).text in
    let x = send_raw h s (error_head body).text false r1 in send_raw h x.0 body true r2
