-- ===== src/Web/Delivery/Tests.antt =====
-- A short body, streamed and read.
use tv_now.Common.{ℕ, Bool, true, false, [], ◌∷◌, none, codes, Bytes, length}
use tv_now.Common.Int.{ℤ, pos, negsuc}
use tv_now.Sockets.Output.{Socket, ready, would_block, finished, Drained, post_select_write}
use tv_now.Web.Server.{Header, Session, stream_body}

abbrev connected : Socket
connected = record {
  is_open = true;
  fin_connect = true;
  is_free = false;
  pause = false;
  pending = [];
  pending_bytes = 0;
  total_sent = 0;
  wire = [];
  events = [];
}

abbrev session : Session
session = record {
  socket = connected;
  answered = false;
  method_called = false;
  close_override = false;
  virtual_directory = none;
  events = [];
}

abbrev request : Header
request = record { version = codes "1.1"; fields = [] }

-- The size line is taken at once, the rest by and by.
abbrev first : Session
first = (stream_body request session (codes "ab") false (ready 9) (ready 1) (ready 0) (ready 0)).0

abbrev second : Session
second = (stream_body request first [] true (ready 0) (ready 0) (ready 0) (ready 0)).0

abbrev sent : Drained → Socket
sent (finished t) = t
sent _ = connected

abbrev last : Socket
last = sent (
    post_select_write second.socket true (ready 9 ∷ would_block ∷ ready 9 ∷ ready 9 ∷ ready 9 ∷ []))

abbrev size_of : ℤ → ℕ
size_of (pos n) = n
size_of (negsuc n) = n

abbrev all_of_it : Bytes → Bool → ℕ
all_of_it w done = length w
