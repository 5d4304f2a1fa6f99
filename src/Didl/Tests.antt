-- ===== src/Didl/Tests.antt =====
-- CdsObjectToDidl.c, run on a concrete text.
use tv_now.Common.{
  ℕ, zero, suc, ◌+◌, ◌<◌, ◌≡◌, refl, true, false, none, some, [], ◌∷◌, Bytes, codes, length,
  if◌then◌else◌, arith,
}
use tv_now.Common.Int.{pos}
use tv_now.Parsers.XmlEscape.{xml_escape}
use tv_now.Didl.Escape.{double_escape, double_escape_length}
use tv_now.Didl.Escape.Twice.{double_escape-xml_escape}
use tv_now.Didl.Filter.{get_filter_bit_string}
use tv_now.Didl.Filter.Names.{
  filter_text, bits_onto, get_filter_bit_string-filter_text, creator, duration,
}
use tv_now.Didl.Object.{MediaObject, allocate_object, allocate_resource, escape_length}
use tv_now.Didl.Count.{count_object, class_length, object_error}
use tv_now.Didl.Print.{made, overrun, footer, get_media_object_didl_escaped}
use tv_now.Didl.Plain.{PlainObject, media_object}
use tv_now.Didl.Plain.Fits.{get_media_object_didl_escaped-media_object}
use tv_now.Didl.Overrun.{get_media_object_didl_escaped-overrun}

abbrev title : Bytes
title = codes "<Tom & 'Jerry'>"

double_escape_test : (double_escape (codes "a&b")).0 ≡ codes "a&amp;amp;b"
unfolding double_escape
double_escape_test = refl

double_escape-xml_escape_example :
    ((double_escape title).0 ≡ (xml_escape (xml_escape title).0).0)
    × ((double_escape title).1 ≡ double_escape_length title)
double_escape-xml_escape_example = double_escape-xml_escape title

get_filter_bit_string_test :
    get_filter_bit_string (some (codes "dc:title,dc:creator,res@duration")) ≡ 0xB
unfolding get_filter_bit_string
get_filter_bit_string_test = refl

get_filter_bit_string-filter_text_example :
    get_filter_bit_string (some (filter_text (creator ∷ duration ∷ [])))
    ≡ bits_onto 0 (creator ∷ duration ∷ [])
get_filter_bit_string-filter_text_example =
    get_filter_bit_string-filter_text (creator ∷ duration ∷ [])

-- A video file at one address.
abbrev video : PlainObject
video = record {
  id = codes "0/1";
  parent_id = codes "0";
  ref_id = none;
  title = codes "a&b";
  creator = none;
  album = none;
  genre = some (codes "Talk");
  album_art_uri = none;
  long_description = none;
  channel_id = none;
  channel_nr = none;
  channel_name = none;
  episode_type = none;
  episode_season = none;
  episode_number = none;
  actor = none;
  media_class = 0x03000001;
  child_count = pos 0;
  flags = 0;
  res =
      record allocate_resource {
        value = some (codes "http://h/a");
        protocol_info = codes "http-get:*:video/mpeg:*";
        size = 1234567;
        duration = pos 60;
      }
      ∷ [];
}

abbrev no_date : ℕ → Bytes
no_date t = []

get_media_object_didl_escaped_test :
    get_media_object_didl_escaped true 0x4A false no_date [] (media_object video)
    ≡ made
        (codes
          "\r\n&lt;item id=&quot;0/1&quot; parentID=&quot;0&quot; restricted=&quot;0&quot;&gt;\r\n&lt;dc:title&gt;a&amp;b&lt;/dc:title&gt;\r\n&lt;upnp:class&gt;object.item.videoItem&lt;/upnp:class&gt;\r\n&lt;res protocolInfo=&quot;http-get:*:video/mpeg:*&quot; duration=&quot;00:01:00&quot; size=&quot;1234567&quot;&gt;http://h/a&lt;/res&gt;\r\n&lt;/item&gt;")
        337
unfolding get_media_object_didl_escaped
get_media_object_didl_escaped_test = refl

get_media_object_didl_escaped-media_object_example :
    (text : Bytes) × (n : ℕ) × (get_media_object_didl_escaped true 0x4A true no_date []
        (media_object video)
      ≡ made text n)
    × (length text < (count_object true 0x4A true (media_object video) 20).size)
    × (length text ≡ n + length (if true then footer else []))
unfolding object_error class_length
get_media_object_didl_escaped-media_object_example =
    get_media_object_didl_escaped-media_object true 0x4A true no_date [] video 20 refl refl
      ((λ h. cc), tt) (omega arith)

abbrev repeated : ℕ → Bytes
repeated zero = []
repeated (suc n) = b'x' ∷ repeated n

-- A broadcast with a call sign and a provider.
abbrev broadcast : MediaObject
broadcast = record allocate_object {
  id = some (codes "0/1");
  parent_id = some (codes "0");
  title = some (codes "News");
  call_sign = some (codes "C");
  epg_provider_name = some (repeated 600);
  media_class = 0x03060001;
}

get_media_object_didl_escaped-overrun_example :
    get_media_object_didl_escaped true 0xFFFFFFFF false no_date [] broadcast ≡ overrun
unfolding object_error class_length count_object escape_length
get_media_object_didl_escaped-overrun_example =
    get_media_object_didl_escaped-overrun true 0xFFFFFFFF false no_date [] broadcast 34
      (repeated 600) refl refl refl refl (omega arith)
