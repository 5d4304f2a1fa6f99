-- ===== src/Didl/Filter/Names.antt =====
-- CdsObjectToDidl.c: `CdsToDidl_GetFilterBitString` on a filter that lists names.
use Prim.Native.Nat.{bit_or}
use tv_now.Common.{
  ℕ, false, ◌≡◌, ◌∙◌, ap, sym, append-nil, refl, some, List, [], ◌∷◌, ◌++◌, Bytes, codes,
}
use tv_now.MyString.Libc.{strncasecmp_eq, strncmp_eq, tolower}
use tv_now.Didl.Filter.{name_bits, at_byte, filter_loop, get_filter_bit_string}

-- The properties that a filter can ask for.
pub data Property : Type 0 where
  child_count searchable container_child_count container_searchable creator album genre res :
      Property
  bitrate bits_per_sample color_depth duration nr_audio_channels protection : Property
  resolution sample_frequency size : Property

abbrev pub name_of : Property → Bytes
name_of child_count = codes "@childCount"
name_of searchable = codes "@searchable"
name_of container_child_count = codes "container@childCount"
name_of container_searchable = codes "container@searchable"
name_of creator = codes "dc:creator"
name_of album = codes "upnp:album"
name_of genre = codes "upnp:genre"
name_of res = codes "res"
name_of bitrate = codes "res@bitrate"
name_of bits_per_sample = codes "res@bitsPerSample"
name_of color_depth = codes "res@colorDepth"
name_of duration = codes "res@duration"
name_of nr_audio_channels = codes "res@nrAudioChannels"
name_of protection = codes "res@protection"
name_of resolution = codes "res@resolution"
name_of sample_frequency = codes "res@sampleFrequency"
name_of size = codes "res@size"

-- Its bits in `enum CdsFilterBits`; an attribute of `res` asks for `res` as well.
abbrev pub bits_of : Property → ℕ
bits_of child_count = 0x80
bits_of searchable = 0x100
bits_of container_child_count = 0x80
bits_of container_searchable = 0x100
bits_of creator = 0x1
bits_of album = 0x200
bits_of genre = 0x400
bits_of res = 0x2
bits_of bitrate = 0x12
bits_of bits_per_sample = 0x802
bits_of color_depth = 0x22
bits_of duration = 0xA
bits_of nr_audio_channels = 0x2002
bits_of protection = 0x4002
bits_of resolution = 0x6
bits_of sample_frequency = 0x1002
bits_of size = 0x42

-- The bits of some, in order, onto others.
abbrev pub bits_onto : ℕ → List Property → ℕ
bits_onto bits [] = bits
bits_onto bits (p ∷ ps) = bits_onto (bit_or bits (bits_of p)) ps

-- The names, with a comma between them.
unfoldable pub filter_text : List Property → Bytes
filter_text [] = []
filter_text (p ∷ []) = name_of p
filter_text (p ∷ q ∷ ps) = name_of p ++ b',' ∷ filter_text (q ∷ ps)

one_name :
    (bits : ℕ) (p : Property) (s : Bytes)
    → filter_loop false bits (name_of p ++ b',' ∷ s) ≡ filter_loop false (bit_or bits (bits_of p)) s
unfolding filter_loop at_byte name_bits strncasecmp_eq strncmp_eq tolower
one_name bits child_count s = refl
one_name bits searchable s = refl
one_name bits container_child_count s = refl
one_name bits container_searchable s = refl
one_name bits creator s = refl
one_name bits album s = refl
one_name bits genre s = refl
one_name bits res s = refl
one_name bits bitrate s = refl
one_name bits bits_per_sample s = refl
one_name bits color_depth s = refl
one_name bits duration s = refl
one_name bits nr_audio_channels s = refl
one_name bits protection s = refl
one_name bits resolution s = refl
one_name bits sample_frequency s = refl
one_name bits size s = refl

last_name : (bits : ℕ) (p : Property) → filter_loop false bits (name_of p) ≡ bit_or bits (bits_of p)
unfolding filter_loop at_byte name_bits strncasecmp_eq strncmp_eq tolower
last_name bits child_count = refl
last_name bits searchable = refl
last_name bits container_child_count = refl
last_name bits container_searchable = refl
last_name bits creator = refl
last_name bits album = refl
last_name bits genre = refl
last_name bits res = refl
last_name bits bitrate = refl
last_name bits bits_per_sample = refl
last_name bits color_depth = refl
last_name bits duration = refl
last_name bits nr_audio_channels = refl
last_name bits protection = refl
last_name bits resolution = refl
last_name bits sample_frequency = refl
last_name bits size = refl

-- No name begins with `*`.
listed :
    (p : Property) (s : Bytes)
    → get_filter_bit_string (some (name_of p ++ s)) ≡ filter_loop false 0 (name_of p ++ s)
unfolding get_filter_bit_string
listed child_count s = refl
listed searchable s = refl
listed container_child_count s = refl
listed container_searchable s = refl
listed creator s = refl
listed album s = refl
listed genre s = refl
listed res s = refl
listed bitrate s = refl
listed bits_per_sample s = refl
listed color_depth s = refl
listed duration s = refl
listed nr_audio_channels s = refl
listed protection s = refl
listed resolution s = refl
listed sample_frequency s = refl
listed size s = refl

filter_loop-filter_text :
    (bits : ℕ) (p : Property) (ps : List Property)
    → filter_loop false bits (filter_text (p ∷ ps)) ≡ bits_onto bits (p ∷ ps)
unfolding filter_text
filter_loop-filter_text bits p [] = last_name bits p
filter_loop-filter_text bits p (q ∷ ps) =
    one_name bits p (filter_text (q ∷ ps)) ∙ filter_loop-filter_text (bit_or bits (bits_of p)) q ps

-- `CdsToDidl_GetFilterBitString` of any list of the names that it knows, with a comma between them, is the bits of
-- all of them, an attribute of `res` with the bit of `res`.
pub get_filter_bit_string-filter_text :
    (ps : List Property) → get_filter_bit_string (some (filter_text ps)) ≡ bits_onto 0 ps
unfolding filter_text
get_filter_bit_string-filter_text [] = unfold get_filter_bit_string in refl
get_filter_bit_string-filter_text (p ∷ []) =
    ap (λ (t : Bytes). get_filter_bit_string (some t)) (sym (append-nil (name_of p)))
    ∙ (listed p [] ∙ (ap (filter_loop false 0) (append-nil (name_of p)) ∙ last_name 0 p))
get_filter_bit_string-filter_text (p ∷ q ∷ ps) =
    listed p (b',' ∷ filter_text (q ∷ ps)) ∙ filter_loop-filter_text 0 p (q ∷ ps)
