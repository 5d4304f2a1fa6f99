-- ===== src/Didl/Print.antt =====
-- CdsObjectToDidl.c: the second half of `CdsToDidl_GetMediaObjectDidlEscaped`, which writes the text of a media object
-- into the buffer of `size + 128` bytes. `localtime` with `strftime` is the parameter `date_text`; `stale` is what
-- `timeString` holds at first.
use tv_now.Common.{
  ℕ, ◌+◌, ◌/◌, ◌%◌, Bool, true, ◌&&◌, Option, none, some, List, [], ◌∷◌, ◌++◌, Bytes, codes, ltb,
  leb, if◌then◌else◌, length,
}
use tv_now.Common.Int.{ℤ, pos, negsuc}
use tv_now.Parsers.Packets.{decimal, decimal_onto}
use tv_now.Media.Class.{class_text}
use tv_now.Didl.Object.{
  MediaResource, MediaObject, escape, is_set, is_text, the_text, is_natural, has_bits, is_container,
}
use tv_now.Didl.Count.{count_object, class_length, object_error}

-- One `if` that writes: whether its field is there, its bits, and the text.
pub record Piece : Type 0 where
  pub present : Bool
  pub bits : ℕ
  pub text : Bytes

abbrev pub piece : Bool → ℕ → Bytes → Piece
piece present bits text = record { present = present; bits = bits; text = text }

unfoldable pub print_piece : ℕ → Piece → Bytes
unfolding has_bits
print_piece print_these p = if p.present && has_bits print_these p.bits then p.text else []

unfoldable pub print_pieces : ℕ → List Piece → Bytes
unfolding print_piece
print_pieces print_these [] = []
print_pieces print_these (p ∷ ps) = print_piece print_these p ++ print_pieces print_these ps

-- The escaped tags of an element, around a text.
abbrev pub element : Bytes → Bytes → Bytes
element name text =
    codes "\r\n&lt;"
    ++ (name ++ (codes "&gt;" ++ (text ++ (codes "&lt;/" ++ (name ++ codes "&gt;")))))

-- An attribute of a resource.
abbrev pub attribute : Bytes → Bytes → Bytes
attribute name text = b' ' ∷ (name ++ (codes "=&quot;" ++ (text ++ codes "&quot;")))

abbrev pub string_piece : Bool → Option Bytes → ℕ → Bytes → Piece
string_piece m v bits name = piece (is_set v) bits (element name (escape m (the_text v)))

abbrev pub two_digits : ℕ → Bytes
two_digits n = (b'0' + n / 10) ∷ (b'0' + n % 10) ∷ []

-- `CdsObjectToDidl_Helper_WriteTimeString`: what the buffer holds afterwards.
unfoldable pub write_time_string : Bytes → ℕ → Bytes
write_time_string buffer t =
    if ltb 0 t
    then two_digits (t / 3600 % 60)
      ++ (b':' ∷ (two_digits (t / 60 % 60) ++ (b':' ∷ two_digits (t % 60))))
    else buffer

abbrev pub to_natural : ℤ → ℕ
to_natural (pos n) = n
to_natural (negsuc n) = 0

-- The attributes of a resource, with `timeString`.
unfoldable pub resource_pieces : Bool → Bytes → MediaResource → List Piece
unfolding escape decimal_onto
resource_pieces m time r =
    let number =
      λ (n : ℤ) (bits : ℕ) (name : Bytes). piece (is_natural n) bits (attribute name (decimal n)) in
    let size = codes "resolution" in
    piece (is_natural r.bitrate) 0x10
      (attribute (codes "bitrate") (decimal (pos (to_natural r.bitrate / 8))))
    ∷ number r.bits_per_sample 0x800 (codes "bitsPerSample")
    ∷ number r.color_depth 0x20 (codes "colorDepth")
    ∷ piece (is_natural r.duration) 0x8 (attribute (codes "duration") time)
    ∷ number r.nr_audio_channels 0x2000 (codes "nrAudioChannels")
    ∷ piece (is_set r.protection) 0x4000
        (attribute (codes "protection") (escape m (the_text r.protection)))
    ∷ piece (is_natural r.resolution_x && is_natural r.resolution_y) 0x4
        (attribute (codes "resolution") (decimal r.resolution_x ++ (b'x' ∷ decimal r.resolution_y)))
    ∷ number r.sample_frequency 0x1000 (codes "sampleFrequency")
    ∷ piece true 0x40 (attribute (codes "size") (decimal_onto 20 r.size []))
    ∷ []

-- `timeString` behind a resource.
unfoldable pub time_behind : ℕ → Bytes → MediaResource → Bytes
unfolding has_bits write_time_string
time_behind print_these time r =
    if is_natural r.duration && has_bits print_these 0x8
    then write_time_string time (to_natural r.duration)
    else time

-- The text of a resource.
unfoldable pub resource_text : Bool → ℕ → Bytes → MediaResource → Bytes
unfolding print_pieces resource_pieces escape
resource_text m print_these time r =
    let value = if is_set r.value then escape m (the_text r.value) else [] in
    codes "\r\n&lt;res protocolInfo=&quot;"
    ++ (escape m r.protocol_info
        ++ (codes "&quot;"
            ++ (print_pieces print_these (resource_pieces m time r)
                ++ (codes "&gt;" ++ (value ++ codes "&lt;/res&gt;")))))

-- The resources, and `timeString` behind them.
unfoldable pub print_resources : Bool → ℕ → Bytes → List MediaResource → Bytes × Bytes
unfolding resource_text time_behind
print_resources m print_these time [] = ([], time)
print_resources m print_these time (r ∷ rs) =
    let time' = time_behind print_these time r in
    let (rest, last) = print_resources m print_these time' rs in
    (resource_text m print_these time' r ++ rest, last)

-- The duration of a broadcast, whose days stand in front.
abbrev pub duration_text : Bytes → ℕ → Bytes
duration_text time t =
    if leb 86400 t
    then b'P' ∷ (decimal (pos (t / 86400)) ++ (b'D' ∷ write_time_string time (t % 86400)))
    else b'P' ∷ write_time_string time t

-- The fields behind the resources. The date has its opening tag at both ends.
unfoldable pub field_pieces : Bool → (ℕ → Bytes) → Bytes → MediaObject → List Piece
unfolding escape write_time_string
field_pieces m date_text time o =
    string_piece m o.epg_provider_name 0x80000 (codes "upnp:epgProviderName")
    ∷ string_piece m o.service_provider 0xA0000 (codes "upnp:serviceProvider")
    ∷ string_piece m o.channel_id 0x40000 (codes "upnp:channelID")
    ∷ string_piece m o.channel_nr 0x10000 (codes "upnp:channelNr")
    ∷ string_piece m o.channel_name 0x20000 (codes "upnp:channelName")
    ∷ string_piece m o.call_sign 0xC0000 (codes "upnp:callSign")
    ∷ string_piece m o.network_affiliation 0xE0000 (codes "upnp:networkAffiliation")
    ∷ piece (is_natural o.recordable) 0x100000
        (element (codes "upnp:recordable") (decimal o.recordable))
    ∷ string_piece m o.long_description 0x8000000 (codes "upnp:longDescription")
    ∷ string_piece m o.rating 0xC000000 (codes "upnp:rating")
    ∷ string_piece m o.creator 0x1 (codes "dc:creator")
    ∷ string_piece m o.genre 0x400 (codes "upnp:genre")
    ∷ string_piece m o.album 0x200 (codes "upnp:album")
    ∷ piece (ltb 0 o.range_start) 0x200000 (
        element (codes "upnp:dateTimeRange")
          (date_text o.range_start ++ (b'/' ∷ date_text (o.range_start + o.range_duration))))
    ∷ piece (ltb 0 o.scheduled_start_time) 0x400000
        (element (codes "upnp:scheduledStartTime") (escape m (date_text o.scheduled_start_time)))
    ∷ piece (ltb 0 o.scheduled_start_time) 0x800000 (
        element (codes "upnp:scheduledEndTime")
          (escape m (date_text (o.scheduled_start_time + o.scheduled_duration_time))))
    ∷ piece (ltb 0 o.scheduled_duration_time) 0xA00000 (
        element (codes "upnp:scheduledDurationTime") (duration_text time o.scheduled_duration_time))
    ∷ string_piece m o.program_id 0xC00000 (codes "upnp:programID")
    ∷ string_piece m o.series_id 0xE00000 (codes "upnp:seriesID")
    ∷ string_piece m o.episode_number 0x1000000 (codes "upnp:episodeNumber")
    ∷ string_piece m o.episode_season 0x2000000 (codes "upnp:episodeSeason")
    ∷ string_piece m o.episode_type 0x4000000 (codes "upnp:episodeType")
    ∷ string_piece m o.actor 0x10000000 (codes "upnp:actor")
    ∷ string_piece m o.language 0xE000000 (codes "dc:language")
    ∷ piece (ltb 0 o.date) 0xA000000 (
        codes "\r\n&lt;dc:date&gt;" ++ (escape m (date_text o.date) ++ codes "\r\n&lt;dc:date&gt;"))
    ∷ piece (is_set o.album_art_uri) 0x20000000 (
        codes
          "&lt;upnp:albumArtURI dlna:profileID=&quot;JPEG_TN&quot; xmlns:dlna=&quot;urn:schemas-dlna-org:metadata-1-0/&quot;&gt;"
        ++ (escape m (the_text o.album_art_uri) ++ codes "&lt;/upnp:albumArtURI&gt;"))
    ∷ []

-- `1` or `0`, by a flag of the object.
abbrev pub flag_digit : Bool → Bytes
flag_digit b = if b then b'1' ∷ [] else b'0' ∷ []

-- The opening tag.
unfoldable pub print_start : Bool → ℕ → MediaObject → Bytes
unfolding escape has_bits is_container
print_start m filter o =
    let ids =
      escape m (the_text o.id)
      ++ (codes "&quot; parentID=&quot;"
          ++ (escape m (the_text o.parent_id)
              ++ (codes "&quot; restricted=&quot;" ++ flag_digit (has_bits o.flags 1)))) in
    let searchable = codes "&quot; searchable=&quot;" ++ flag_digit (has_bits o.flags 2) in
    let children = codes "&quot; childCount=&quot;" ++ decimal o.child_count in
    let reference =
      codes "&quot; refID=&quot;" ++ (escape m (the_text o.ref_id) ++ codes "&quot;&gt;") in
    if is_container o
    then codes "\r\n&lt;container id=&quot;"
      ++ (ids
          ++ ((if has_bits filter 0x100 then searchable else [])
              ++ ((if has_bits filter 0x80 then children else []) ++ codes "&quot;&gt;")))
    else codes "\r\n&lt;item id=&quot;"
      ++ (ids ++ (if is_text o.ref_id then reference else codes "&quot;&gt;"))

-- The text from the opening tag to the closing tag.
unfoldable pub print_object : Bool → ℕ → ℕ → (ℕ → Bytes) → Bytes → Bytes → MediaObject → Bytes
unfolding escape has_bits print_start print_resources print_pieces field_pieces is_container
print_object m filter print_these date_text stale class o =
    let (resources, time) =
      if has_bits print_these 0x2 then print_resources m print_these stale o.res else ([], stale) in
    print_start m filter o
    ++ (element (codes "dc:title") (escape m (the_text o.title))
        ++ (element (codes "upnp:class") class
            ++ (resources
                ++ (print_pieces print_these (field_pieces m date_text time o)
                    ++ (if is_container o
                        then codes "\r\n&lt;/container&gt;"
                        else codes "\r\n&lt;/item&gt;")))))

abbrev pub header : Bytes
header =
    codes
      "&lt;DIDL-Lite xmlns=&quot;urn:schemas-upnp-org:metadata-1-0/DIDL-Lite/&quot; xmlns:dc=&quot;http://purl.org/dc/elements/1.1/&quot; xmlns:upnp=&quot;urn:schemas-upnp-org:metadata-1-0/upnp/&quot;&gt;"

abbrev pub footer : Bytes
footer = codes "\r\n&lt;/DIDL-Lite&gt;"

-- An error, a read behind the end of a table, a write behind the end of the buffer, or the text with the
-- length that is reported, which leaves the footer out.
pub data Didl : Type 0 where
  failed : ℤ → Didl
  beyond_table overrun : Didl
  made : Bytes → ℕ → Didl

-- The tests on what has been written into a buffer of `size + 128` bytes.
unfoldable pub finish : Bool → ℕ → Bytes → Didl
finish with_header size text =
    let front = if with_header then header else [] in
    let behind = if with_header then footer else [] in
    let len = length front + length text in
    if ltb (size + 128) (len + length behind + 1)
    then overrun
    else if leb size len
    then failed (negsuc 98)
    else made (front ++ (text ++ behind)) len

-- `CdsToDidl_GetMediaObjectDidlEscaped`.
unfoldable pub get_media_object_didl_escaped :
    Bool → ℕ → Bool → (ℕ → Bytes) → Bytes → MediaObject → Didl
unfolding object_error class_length class_text count_object print_object finish
get_media_object_didl_escaped m filter with_header date_text stale o = elim (object_error o) [
  | negsuc e ↦ failed (negsuc e)
  | pos z ↦ elim (class_length o.media_class) [
    | none ↦ beyond_table
    | some n ↦ elim (class_text o.media_class) [
      | none ↦ beyond_table
      | some class ↦
          let s = count_object m filter with_header o n in
          finish with_header s.size (print_object m filter s.print_these date_text stale class o)
    ]
  ]
]
