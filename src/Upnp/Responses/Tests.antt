-- ===== src/Upnp/Responses/Tests.antt =====
-- Answers on concrete inputs.
use tv_now.Common.{◌≡◌, ◌≢◌, refl, [], ◌++◌, false, true, none, codes, equal}
use tv_now.Common.Int.{ℤ, pos}
use tv_now.Parsers.Packets.{decimal_onto}
use tv_now.Web.Chunks.Hex.{hex_onto}
use tv_now.Sockets.Output.{Socket, ready}
use tv_now.Sockets.Output.Stream.{outgoing}
use tv_now.Web.Server.{Header, Session, is_1_0}
use tv_now.Upnp.Responses.{
  browse, system_update_id, SendResults, params, service_urn, method_name, envelope, error_body,
  error_head, respond,
}
use tv_now.Upnp.Responses.Sizes.{Fits, params-envelope-Fits}
use tv_now.Upnp.Responses.Stream.{answer_text, respond-outgoing}

abbrev connected : Socket
connected = record {
  is_open = true;
  fin_connect = true;
  is_free = false;
  pause = false;
  pending = [];
  pending_bytes = 0;
  total_sent = 0;
  wire = [];
  events = [];
}

abbrev session : Session
session = record {
  socket = connected;
  answered = false;
  method_called = false;
  close_override = false;
  virtual_directory = none;
  events = [];
}

abbrev header : Header
header = record { version = codes "1.1"; fields = [] }

-- Every call of `send` takes all it is given.
abbrev results : SendResults
results = record {
  h1 = ready 1000;
  h2 = ready 1000;
  h3 = ready 1000;
  h4 = ready 1000;
  b1 = ready 1000;
  b2 = ready 1000;
  b3 = ready 1000;
  b4 = ready 1000;
}

params-envelope-Fits_example :
    Fits (params (browse (codes "<a/>") 1 2 3))
    × Fits (
        envelope
          (service_urn (browse (codes "<a/>") 1 2 3))
          (method_name (browse (codes "<a/>") 1 2 3))
          (params (browse (codes "<a/>") 1 2 3)).text)
    × Fits (error_body (pos 402) (codes "Incorrect Arguments"))
    × Fits (error_head (error_body (pos 402) (codes "Incorrect Arguments")).text)
params-envelope-Fits_example =
    params-envelope-Fits (browse (codes "<a/>") 1 2 3) 402 (codes "Incorrect Arguments")

version_1_1 : is_1_0 header ≡ false
unfolding is_1_0 equal
version_1_1 = refl

zero_not_two : (k : ℤ) → k ≡ pos 0 → k ≢ pos 2
zero_not_two k e f = cc

returns_0 : (respond header session (system_update_id 7) results).1 ≡ pos 0
unfolding respond decimal_onto hex_onto
returns_0 = refl

open_result : (respond header session (system_update_id 7) results).1 ≢ pos 2
open_result = zero_not_two (respond header session (system_update_id 7) results).1 returns_0

respond-outgoing_example :
    outgoing (respond header session (system_update_id 7) results).0.socket
    ≡ outgoing connected
      ++ answer_text
          (envelope
            (service_urn (system_update_id 7))
            (method_name (system_update_id 7))
            (params (system_update_id 7)).text).text
respond-outgoing_example =
    respond-outgoing header session (system_update_id 7) results version_1_1 open_result
