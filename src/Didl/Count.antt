-- ===== src/Didl/Count.antt =====
-- CdsObjectToDidl.c: the first half of `CdsToDidl_GetMediaObjectDidlEscaped`, which checks a media object, adds up the
-- size of its text and collects in `printThese` what will be printed.
use Prim.Native.Nat.{bit_or}
use tv_now.Common.{
  ℕ, ◌+◌, Bool, true, not, ◌&&◌, ◌||◌, Option, none, some, List, [], ◌∷◌, Bytes, ltb, ◌==◌,
  if◌then◌else◌, length, ◌>>=◌, get_elem?,
}
use tv_now.Common.Int.{ℤ, pos, negsuc}
use tv_now.Media.Class.{
  indices, class_object_type, class_major_type, class_minor1_type, class_minor2_type,
}
use tv_now.Didl.Object.{
  MediaResource, MediaObject, escape_length, is_set, is_text, the_text, is_natural, is_positive,
  has_bits, is_container, is_item,
}

-- One `if` that adds to the size: whether its field is there, its bits, and what it adds.
pub record Counted : Type 0 where
  pub present : Bool
  pub bits : ℕ
  pub amount : ℕ

-- `size` and `printThese`.
pub record Sizes : Type 0 where
  pub size : ℕ
  pub print_these : ℕ

unfoldable pub count : ℕ → Sizes → Counted → Sizes
unfolding has_bits
count filter s c =
    if c.present && has_bits filter c.bits
    then record { size = s.size + c.amount; print_these = bit_or s.print_these c.bits }
    else s

unfoldable pub count_all : ℕ → Sizes → List Counted → Sizes
unfolding count
count_all filter s [] = s
count_all filter s (c ∷ cs) = count_all filter (count filter s c) cs

abbrev pub counted : Bool → ℕ → ℕ → Counted
counted present bits amount = record { present = present; bits = bits; amount = amount }

-- A string with the length of its tags.
abbrev pub string_counted : Bool → Option Bytes → ℕ → ℕ → Counted
string_counted m v bits len = counted (is_set v) bits (len + escape_length m (the_text v))

abbrev pub add_size : ℕ → Sizes → Sizes
add_size n s = record s { size = s.size + n }

-- The attributes of a resource.
unfoldable pub resource_counted : Bool → MediaResource → List Counted
unfolding escape_length
resource_counted m r =
    counted (is_natural r.bitrate) 0x10 (21 + 12)
    ∷ counted (is_natural r.bits_per_sample) 0x800 (27 + 12)
    ∷ counted (is_natural r.color_depth) 0x20 (24 + 12)
    ∷ counted (is_natural r.duration) 0x8 (22 + 17)
    ∷ counted (is_natural r.nr_audio_channels) 0x2000 (29 + 12)
    ∷ counted (is_set r.protection) 0x4000 (24 + escape_length m (the_text r.protection) + 1)
    ∷ counted (is_natural r.resolution_x && is_positive r.resolution_y) 0x4 (24 + 12 + 12)
    ∷ counted (is_natural r.sample_frequency) 0x1000 (29 + 12)
    ∷ counted true 0x40 (18 + 24)
    ∷ []

unfoldable pub count_resources : Bool → ℕ → Sizes → List MediaResource → Sizes
unfolding count_all resource_counted escape_length
count_resources m filter s [] = s
count_resources m filter s (r ∷ rs) =
    let base = 35 + 16 + escape_length m r.protocol_info in
    let value = if is_set r.value then escape_length m (the_text r.value) else 0 in
    count_resources m filter (count_all filter (add_size (base + value) s) (resource_counted m r))
      rs

-- Creator, album and genre.
unfoldable pub music_counted : Bool → MediaObject → List Counted
unfolding escape_length
music_counted m o =
    string_counted m o.creator 0x1 39
    ∷ string_counted m o.album 0x200 39
    ∷ string_counted m o.genre 0x400 39
    ∷ []

-- The fields of a container. Every container passes the test for an EPG container, which has the bit of containers.
unfoldable pub guide_counted : Bool → MediaObject → List Counted
unfolding escape_length
guide_counted m o =
    string_counted m o.epg_provider_name 0x80000 59
    ∷ string_counted m o.service_provider 0xA0000 59
    ∷ string_counted m o.channel_id 0x40000 48
    ∷ counted (ltb 0 o.range_start && ltb 0 o.range_duration) 0x200000 (55 + 64)
    ∷ []

-- The fields behind the resources.
unfoldable pub broadcast_counted : Bool → MediaObject → List Counted
unfolding escape_length
broadcast_counted m o =
    string_counted m o.channel_nr 0x10000 47
    ∷ string_counted m o.channel_name 0x20000 51
    ∷ string_counted m o.channel_id 0x40000 48
    ∷ string_counted m o.call_sign 0xC0000 45
    ∷ string_counted m o.network_affiliation 0xE0000 65
    ∷ counted (is_natural o.recordable) 0x100000 (49 + 3)
    ∷ counted (ltb 0 o.date) 0xA000000 (33 + 32)
    ∷ counted (ltb 0 o.scheduled_start_time) 0x400000 (65 + 32)
    ∷ counted (ltb 0 o.scheduled_end_time) 0x800000 (61 + 32)
    ∷ counted (ltb 0 o.scheduled_duration_time) 0xA00000 (71 + 16)
    ∷ string_counted m o.program_id 0xC00000 47
    ∷ string_counted m o.series_id 0xE00000 55
    ∷ string_counted m o.episode_number 0x1000000 55
    ∷ string_counted m o.episode_season 0x2000000 55
    ∷ string_counted m o.episode_type 0x4000000 51
    ∷ string_counted m o.long_description 0x8000000 59
    ∷ string_counted m o.rating 0xC000000 41
    ∷ string_counted m o.language 0xE000000 41
    ∷ string_counted m o.actor 0x10000000 39
    ∷ string_counted m o.album_art_uri 0x20000000 142
    ∷ []

-- `strlen` of an entry of a table; `none` is a read behind its end.
unfoldable pub table_length : List Bytes → ℕ → Option ℕ
table_length table i = elim (get_elem? table i) [ none ↦ none | some t ↦ some (length t) ]

unfoldable pub class_length : ℕ → Option ℕ
unfolding indices table_length
class_length code = do
  let i = indices code
  a ← table_length class_object_type i.object_type
  b ← table_length class_major_type i.major
  c ← table_length class_minor1_type i.minor1
  d ← table_length class_minor2_type i.minor2
  some (a + b + c + d)

-- What a container, or an item, adds.
unfoldable pub count_kind : Bool → ℕ → MediaObject → Sizes → Sizes
unfolding count_all guide_counted is_container is_item
count_kind m filter o s =
    if is_container o
    then count_all filter (add_size (1 + 10 + 129 + 20) s) (guide_counted m o)
    else if is_item o
    then add_size ((if is_set o.ref_id then 95 else 76) + 15) s
    else s

-- What the resources add, if the filter has them.
unfoldable pub count_res : Bool → ℕ → MediaObject → Sizes → Sizes
unfolding count_resources has_bits
count_res m filter o s =
    if has_bits filter 0x2
    then count_resources m filter (record s { print_these = bit_or s.print_these 0x2 }) o.res
    else s

-- The size of a valid object, for the length of its class.
unfoldable pub count_object : Bool → ℕ → Bool → MediaObject → ℕ → Sizes
unfolding count_all music_counted count_kind broadcast_counted count_res escape_length
count_object m filter with_header o class =
    let ids =
      1
      + escape_length m (the_text o.id)
      + escape_length m (the_text o.parent_id)
      + (35 + escape_length m (the_text o.title))
      + (if is_set o.ref_id then escape_length m (the_text o.ref_id) else 0) in
    let s1 = count_all filter (record { size = ids; print_these = 0 }) (music_counted m o) in
    let s2 = count_kind m filter o (add_size (class + (39 + 4) + 1) s1) in
    let s3 = count_all filter (count_res m filter o s2) (broadcast_counted m o) in
    if with_header then add_size (197 + 20) s3 else s3

-- The object's errors, in the order of the tests; 0 if there is none.
unfoldable pub object_error : MediaObject → ℤ
unfolding indices is_container
object_error o =
    let i = indices o.media_class in
    if not (is_text o.id)
    then negsuc 7
    else if not (is_text o.parent_id)
    then negsuc 8
    else if not (is_text o.title)
    then negsuc 6
    else if o.media_class == 0
    then negsuc 0
    else if is_set o.ref_id && is_container o
    then negsuc 5
    else if ltb 3 i.object_type || ltb i.object_type 1
    then negsuc 1
    else if ltb 15 i.major
    then negsuc 2
    else if ltb 15 i.minor1
    then negsuc 3
    else if ltb 1 i.minor2
    then negsuc 4
    else pos 0
