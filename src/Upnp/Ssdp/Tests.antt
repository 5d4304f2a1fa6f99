-- ===== src/Upnp/Ssdp/Tests.antt =====
-- Searches on concrete inputs.
use Prim.Native.Nat.{min}
use tv_now.Common.{◌≡◌, [], ◌∷◌, ◌%◌, false, codes, ◌==◌, if◌then◌else◌, arith}
use tv_now.Upnp.Ssdp.{
  Device, media_server, all_targets, post_mx_msearch, process_msearch, division_by_zero, scheduled,
}
use tv_now.Upnp.Ssdp.Targets.{answers, post_mx_msearch-target}
use tv_now.Upnp.Ssdp.Delay.{search_fields, process_msearch-delay}

abbrev device : Device
device = record {
  udn = codes "898f9738-d930-4db4-a3cf";
  address_list = 16885952 ∷ 16777343 ∷ [];
  web_socket_port = 62080;
  notify_cycle_time = 1800;
}

post_mx_msearch-target_run :
    (post_mx_msearch device (codes "urn:schemas-upnp-org:device:MediaServer:1")
      ≡ answers device (media_server ∷ []))
    × (post_mx_msearch device (codes "ssdp:all") ≡ answers device all_targets)
post_mx_msearch-target_run = post_mx_msearch-target device media_server

process_msearch-delay_example :
    process_msearch 41 false 0
      (codes "*")
      (codes "1.1")
      (search_fields (codes "239.255.255.250:1900") 3 (codes "ssdp:all"))
    ≡ (if 3 == 0 then division_by_zero else scheduled (codes "ssdp:all") (41 % 65536 % min 3 10))
process_msearch-delay_example =
    process_msearch-delay 41 0 3 (codes "239.255.255.250:1900") (codes "ssdp:all") (omega arith)
