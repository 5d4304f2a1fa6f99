-- ===== src/Didl/Object.antt =====
-- CdsMediaObject.h and CdsObjectToDidl.c: media objects, the choice of the escaping, and the bits of a filter. A
-- string is NULL (`none`) or a text without NUL; a `time_t` is not negative.
use Prim.Native.Nat.{bit_and}
use tv_now.Common.{
  ℕ, Bool, true, false, not, Option, none, some, List, [], ◌∷◌, Bytes, ◌==◌, ◌^◌, ◌-◌,
  if◌then◌else◌,
}
use tv_now.Common.Int.{ℤ, pos, negsuc}
use tv_now.Parsers.XmlEscape.{xml_escape, xml_escape_length}
use tv_now.Didl.Escape.{double_escape, double_escape_length}

-- `struct CdsMediaResource`. A negative number is not set.
pub record MediaResource : Type 0 where
  pub value : Option Bytes
  pub protocol_info : Bytes
  pub resolution_x : ℤ
  pub resolution_y : ℤ
  pub duration : ℤ
  pub bitrate : ℤ
  pub color_depth : ℤ
  pub size : ℕ
  pub bits_per_sample : ℤ
  pub sample_frequency : ℤ
  pub nr_audio_channels : ℤ
  pub protection : Option Bytes

-- Of `struct CdsMediaObject`, what is printed.
pub record MediaObject : Type 0 where
  pub id : Option Bytes
  pub parent_id : Option Bytes
  pub ref_id : Option Bytes
  pub title : Option Bytes
  pub long_description : Option Bytes
  pub creator : Option Bytes
  pub album : Option Bytes
  pub album_art_uri : Option Bytes
  pub recordable : ℤ
  pub epg_provider_name : Option Bytes
  pub service_provider : Option Bytes
  pub genre : Option Bytes
  pub language : Option Bytes
  pub rating : Option Bytes
  pub date : ℕ
  pub scheduled_start_time : ℕ
  pub scheduled_end_time : ℕ
  pub scheduled_duration_time : ℕ
  pub range_start : ℕ
  pub range_duration : ℕ
  pub channel_id : Option Bytes
  pub channel_nr : Option Bytes
  pub channel_name : Option Bytes
  pub call_sign : Option Bytes
  pub network_affiliation : Option Bytes
  pub program_id : Option Bytes
  pub series_id : Option Bytes
  pub episode_type : Option Bytes
  pub episode_season : Option Bytes
  pub episode_number : Option Bytes
  pub actor : Option Bytes
  pub media_class : ℕ
  pub child_count : ℤ
  pub flags : ℕ
  pub res : List MediaResource

-- `CDS_AllocateObject` and `CDS_AllocateResource`, whose `ProtocolInfo` is NULL until the caller sets it: empty here.
abbrev pub allocate_object : MediaObject
allocate_object = record {
  id = none;
  parent_id = none;
  ref_id = none;
  title = none;
  long_description = none;
  creator = none;
  album = none;
  album_art_uri = none;
  recordable = negsuc 0;
  epg_provider_name = none;
  service_provider = none;
  genre = none;
  language = none;
  rating = none;
  date = 0;
  scheduled_start_time = 0;
  scheduled_end_time = 0;
  scheduled_duration_time = 0;
  range_start = 0;
  range_duration = 0;
  channel_id = none;
  channel_nr = none;
  channel_name = none;
  call_sign = none;
  network_affiliation = none;
  program_id = none;
  series_id = none;
  episode_type = none;
  episode_season = none;
  episode_number = none;
  actor = none;
  media_class = 0;
  child_count = pos 0;
  flags = 0;
  res = [];
}

abbrev pub allocate_resource : MediaResource
allocate_resource = record {
  value = none;
  protocol_info = [];
  resolution_x = negsuc 0;
  resolution_y = negsuc 0;
  duration = negsuc 0;
  bitrate = negsuc 0;
  color_depth = negsuc 0;
  size = 2 ^ 64 - 1;
  bits_per_sample = negsuc 0;
  sample_frequency = negsuc 0;
  nr_audio_channels = negsuc 0;
  protection = none;
}

-- `fnEscape` and `fnEscapeLength`, by `metadataXmlEscaped`.
unfoldable pub escape : Bool → Bytes → Bytes
unfolding xml_escape double_escape
escape metadata_escaped s = if metadata_escaped then (xml_escape s).0 else (double_escape s).0

unfoldable pub escape_length : Bool → Bytes → ℕ
unfolding xml_escape_length double_escape_length
escape_length metadata_escaped s =
    if metadata_escaped then xml_escape_length s else double_escape_length s

-- `s != NULL`, and `s != NULL && strlen(s) > 0`.
abbrev pub is_set : Option Bytes → Bool
is_set none = false
is_set (some s) = true

abbrev pub is_text : Option Bytes → Bool
is_text none = false
is_text (some []) = false
is_text (some (c ∷ s)) = true

-- The text of a string that is set.
abbrev pub the_text : Option Bytes → Bytes
the_text none = []
the_text (some s) = s

-- `n >= 0`, and `n > 0`.
abbrev pub is_natural : ℤ → Bool
is_natural (pos n) = true
is_natural (negsuc n) = false

abbrev pub is_positive : ℤ → Bool
is_positive (pos n) = not (n == 0)
is_positive (negsuc n) = false

-- `(filter & bits) != 0`.
unfoldable pub has_bits : ℕ → ℕ → Bool
has_bits filter bits = not (bit_and filter bits == 0)

-- `MediaClass & CDS_CLASS_MASK_CONTAINER` and `MediaClass & CDS_CLASS_MASK_ITEM`.
unfoldable pub is_container : MediaObject → Bool
unfolding has_bits
is_container o = has_bits o.media_class 2

unfoldable pub is_item : MediaObject → Bool
unfolding has_bits
is_item o = has_bits o.media_class 1
