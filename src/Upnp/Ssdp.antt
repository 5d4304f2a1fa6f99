-- ===== src/Upnp/Ssdp.antt =====
-- UpnpMicroStack.c: the announcements and searches of SSDP, `UpnpSendNotify`, `UpnpSendByeBye`,
-- `UpnpPeriodicNotify`, `UpnpProcessMSEARCH` and `UpnpPostMX_MSEARCH`. The packets are those handed to `sendto`, in order;
-- whether the multicast interface of a socket can be set, the time and the random number are arguments.
pub mod Targets
pub mod Delay
pub mod Tests
use Prim.Native.Nat.{min}
use tv_now.Common.{
  ℕ, ◌+◌, ◌-◌, ◌/◌, ◌%◌, Bool, true, false, ◌&&◌, List, [], ◌∷◌, ◌++◌, map, Bytes, codes, ◌==◌, leb,
  if◌then◌else◌, length, equal, starts,
}
use tv_now.Common.Int.{ℤ, pos, negsuc}
use tv_now.MyString.Libc.{strncasecmp_eq}
use tv_now.Parsers.Packets.{HeaderField, decimal}
use tv_now.Parsers.Numbers.{get_ulong}
use tv_now.Upnp.Eventing.{dotted}

-- Of `struct UpnpDataObject`, what the packets tell. `UUID` is `uuid:` and then `UDN`.
pub record Device : Type 0 where
  pub udn : Bytes
  pub address_list : List ℕ
  pub web_socket_port : ℕ
  pub notify_cycle_time : ℕ

abbrev pub uuid : Device → Bytes
uuid d = codes "uuid:" ++ d.udn

-- What a device announces: what stands behind the UDN in its USN, and the target.
pub data Target : Type 0 where
  root_device device_uuid media_server content_directory connection_manager : Target

abbrev pub usn_extension : Target → Bytes
usn_extension root_device = codes "::upnp:rootdevice"
usn_extension device_uuid = []
usn_extension media_server = codes "::urn:schemas-upnp-org:device:MediaServer:1"
usn_extension content_directory = codes "::urn:schemas-upnp-org:service:ContentDirectory:1"
usn_extension connection_manager = codes "::urn:schemas-upnp-org:service:ConnectionManager:1"

abbrev pub target_text : Device → Target → Bytes
target_text d root_device = codes "upnp:rootdevice"
target_text d device_uuid = uuid d
target_text d media_server = codes "urn:schemas-upnp-org:device:MediaServer:1"
target_text d content_directory = codes "urn:schemas-upnp-org:service:ContentDirectory:1"
target_text d connection_manager = codes "urn:schemas-upnp-org:service:ConnectionManager:1"

abbrev pub all_targets : List Target
all_targets = root_device ∷ device_uuid ∷ media_server ∷ content_directory ∷ connection_manager ∷ []

abbrev pub location : Device → ℕ → Bytes
location d address =
    codes "\r\nLOCATION: http://"
    ++ (dotted address ++ (b':' ∷ (decimal (pos d.web_socket_port) ++ codes "/")))

abbrev pub server : Bytes
server = codes "\r\nSERVER: POSIX, UPnP/1.0, NDi TV-Now/0.0.3"

abbrev pub max_age : Device → Bytes
max_age d = codes "\r\nCACHE-CONTROL: max-age=" ++ decimal (pos d.notify_cycle_time)

abbrev pub usn : Device → Target → Bytes
usn d t = codes "\r\nUSN: uuid:" ++ (d.udn ++ usn_extension t)

-- `UpnpBuildSsdpResponsePacket`.
unfoldable pub response_packet : Device → Target → ℕ → Bytes
response_packet d t address =
    codes "HTTP/1.1 200 OK"
    ++ (location d address
        ++ (codes "\r\nEXT:"
            ++ (server
                ++ (usn d t
                    ++ (max_age d
                        ++ (codes "\r\nST: " ++ (target_text d t ++ codes "\r\n\r\n")))))))

-- `UpnpBuildSsdpNotifyPacket`.
unfoldable pub notify_packet : Device → Target → ℕ → Bytes
notify_packet d t address =
    codes "NOTIFY * HTTP/1.1"
    ++ (location d address
        ++ (codes "\r\nHOST: 239.255.255.250:1900"
            ++ (server
                ++ (codes "\r\nNTS: ssdp:alive"
                    ++ (usn d t
                        ++ (max_age d
                            ++ (codes "\r\nNT: " ++ (target_text d t ++ codes "\r\n\r\n"))))))))

-- `UpnpBuildSsdpByeByePacket`.
unfoldable pub byebye_packet : Device → Target → ℕ → Bytes
byebye_packet d t address =
    codes "NOTIFY * HTTP/1.0\r\nHOST: 239.255.255.250:1900\r\nNTS: ssdp:byebye"
    ++ (usn d t ++ (codes "\r\nNT: " ++ (target_text d t ++ codes "\r\nContent-Length: 0\r\n\r\n")))

-- The packets for each target, from each address.
unfoldable pub for_addresses : (Target → ℕ → Bytes) → List Target → List ℕ → List Bytes
for_addresses packet ts [] = []
for_addresses packet ts (a ∷ others) = map (λ t. packet t a) ts ++ for_addresses packet ts others

-- Two rounds of packets from each address whose socket can be set up.
unfoldable pub multicast : (ℕ → Bool) → (Target → ℕ → Bytes) → List ℕ → List Bytes
multicast can_set packet [] = []
multicast can_set packet (a ∷ others) =
    let rest = multicast can_set packet others in
    let round = map (λ t. packet t a) all_targets in
    if can_set a then round ++ (round ++ rest) else rest

-- `UpnpSendNotify`.
unfoldable pub send_notify : (ℕ → Bool) → Device → List Bytes
unfolding multicast notify_packet
send_notify can_set d = multicast can_set (notify_packet d) d.address_list

-- `UpnpSendByeBye`.
unfoldable pub send_bye_bye : (ℕ → Bool) → Device → List Bytes
unfolding multicast byebye_packet
send_bye_bye can_set d = multicast can_set (byebye_packet d) d.address_list

-- `UpnpPeriodicNotify`: the next time, the packets, and the seconds that it returns.
unfoldable pub periodic_notify : (ℕ → Bool) → Device → ℕ → ℕ → (ℕ × List Bytes) × ℕ
unfolding send_notify
periodic_notify can_set d now notify_time =
    let next = now + d.notify_cycle_time / 3 in
    if leb notify_time now
    then ((next, send_notify can_set d), next - now)
    else ((notify_time, []), notify_time - now)

-- The answers of `UpnpPostMX_MSEARCH` to a search for a target.
unfoldable pub post_mx_msearch : Device → Bytes → List Bytes
unfolding for_addresses response_packet equal starts
post_mx_msearch d st =
    let answers = λ (ts : List Target). for_addresses (response_packet d) ts d.address_list in
    (if equal st (codes "upnp:rootdevice")
      then answers (root_device ∷ [])
      else if equal st (codes "ssdp:all")
      then answers all_targets
      else [])
    ++ ((if equal st (uuid d) then answers (device_uuid ∷ []) else [])
        ++ ((if starts (target_text d media_server) st then answers (media_server ∷ []) else [])
            ++ ((if starts (target_text d content_directory) st
                  then answers (content_directory ∷ [])
                  else [])
                ++ (if starts (target_text d connection_manager) st
                    then answers (connection_manager ∷ [])
                    else []))))

-- What the fields of a search have said, with the value that `MXVal` has then.
pub record Search : Type 0 where
  pub st : Bytes
  pub man_ok : Bool
  pub mx_ok : Bool
  pub mx_val : ℕ
  pub erange : Bool

abbrev pub to_ulong_val : ℤ → ℕ
to_ulong_val (pos n) = n
to_ulong_val (negsuc n) = 0

-- One round of the loop over the fields.
unfoldable pub read_field : Search → HeaderField → Search
unfolding strncasecmp_eq starts
read_field s f =
    let n = get_ulong s.erange f.field_data in
    let v = to_ulong_val n.value in
    if strncasecmp_eq 2 f.field (codes "ST")
    then record s { st = f.field_data }
    else if strncasecmp_eq 3 f.field (codes "MAN")
        && starts (codes "\"ssdp:discover\"") f.field_data
    then record s { man_ok = true }
    else if strncasecmp_eq 2 f.field (codes "MX")
    then (if n.accepted
        then record s { mx_ok = true; mx_val = min v 10; erange = n.erange }
        else record s { mx_val = v; erange = n.erange })
    else s

unfoldable pub read_fields : Search → List HeaderField → Search
unfolding read_field
read_fields s [] = s
read_fields s (f ∷ fs) = read_fields (read_field s f) fs

-- Nothing, a division by zero, or the answers after some seconds.
pub data Searched : Type 0 where
  ignored division_by_zero : Searched
  scheduled : Bytes → ℕ → Searched

-- `UpnpProcessMSEARCH`, for the random number, whether `errno` is ERANGE, and what `MXVal` holds at first.
unfoldable pub process_msearch : ℕ → Bool → ℕ → Bytes → Bytes → List HeaderField → Searched
unfolding read_fields starts
process_msearch random erange stale obj version fields =
    let s =
      read_fields
        (record { st = []; man_ok = false; mx_ok = false; mx_val = stale; erange = erange })
        fields in
    if starts (codes "*") obj && starts (codes "1.1") version
    then (if s.man_ok && s.mx_ok
        then (if s.mx_val == 0
            then division_by_zero
            else scheduled s.st (random % 65536 % s.mx_val))
        else ignored)
    else ignored
