-- ===== src/Upnp/Ssdp/Targets.antt =====
-- A search for what a device announces finds it.
use tv_now.Common.{◌≡◌, refl, List, [], ◌∷◌, append-nil, Bytes, codes, equal, equal_refl, starts}
use tv_now.Upnp.Ssdp.{
  Device, Target, root_device, device_uuid, media_server, content_directory, connection_manager,
  target_text, all_targets, response_packet, for_addresses, post_mx_msearch,
}

-- The answers for these targets.
abbrev pub answers : Device → List Target → List Bytes
answers d ts = for_addresses (response_packet d) ts d.address_list

-- `UpnpPostMX_MSEARCH` answers a search for a target that the device announces with one packet for that target
-- from each address, and a search for `ssdp:all` with one for each target from each address.
pub post_mx_msearch-target :
    (d : Device) (t : Target)
    → (post_mx_msearch d (target_text d t) ≡ answers d (t ∷ []))
      × (post_mx_msearch d (codes "ssdp:all") ≡ answers d all_targets)
unfolding post_mx_msearch equal starts
post_mx_msearch-target d t = (one d t, append-nil (answers d all_targets))
  where
    one : (d : Device) (t : Target) → post_mx_msearch d (target_text d t) ≡ answers d (t ∷ [])
    one d root_device = append-nil (answers d (root_device ∷ []))
    one d device_uuid = rw (equal_refl d.udn) (append-nil (answers d (device_uuid ∷ [])))
    one d media_server = append-nil (answers d (media_server ∷ []))
    one d content_directory = append-nil (answers d (content_directory ∷ []))
    one d connection_manager = refl
