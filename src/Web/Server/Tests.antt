-- ===== src/Web/Server/Tests.antt =====
-- The answers of a session, on a request that wants its connection closed.
use tv_now.Common.{true, false, ◌≡◌, refl, [], ◌∷◌, none, codes, equal, arith}
use tv_now.Common.Int.{pos}
use tv_now.MyString.Libc.{strncasecmp_eq, strncmp_eq, tolower}
use tv_now.Sockets.Output.{Socket}
use tv_now.Parsers.Packets.{HeaderField}
use tv_now.Web.Server.{Session, request_answered, is_persistent, has_token, is_1_0}
use tv_now.Web.Server.Answer.{request_answered-field}

abbrev connection_close : HeaderField
connection_close = record { field = codes "Connection"; field_data = codes "close" }

abbrev connected : Socket
connected = record {
  is_open = true;
  fin_connect = true;
  is_free = false;
  pause = false;
  pending = [];
  pending_bytes = 0;
  total_sent = 0;
  wire = [];
  events = [];
}

abbrev session : Session
session = record {
  socket = connected;
  answered = false;
  method_called = false;
  close_override = false;
  virtual_directory = none;
  events = [];
}

-- The connection is kept, although it is to be closed.
close_test :
    (request_answered (record { version = codes "1.1"; fields = connection_close ∷ [] }) session).1
    ≡ pos 0
unfolding request_answered is_persistent has_token is_1_0 strncasecmp_eq strncmp_eq tolower equal
close_test = refl

request_answered-field_run :
    request_answered (record { version = codes "1.1"; fields = connection_close ∷ [] }) session
    ≡ request_answered (record { version = codes "1.1"; fields = [] }) session
request_answered-field_run =
    request_answered-field (codes "1.1") connection_close [] [] session (omega arith)
