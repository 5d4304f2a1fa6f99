-- ===== src/Media/Tests.antt =====
-- MimeTypes.c and CdsMediaClass.c, run on concrete extensions.
use mathlib.Core.Option
use tv_now.Common.{ℕ, true, ◌⊎◌, none, ◌≡◌, refl, false, some, Bytes, codes, ◌∷◌, [], ◌++◌, ◌>>=◌}
use tv_now.MyString.Libc.{strcasecmp_eq}
use tv_now.Media.Class.{indices, is_valid_class, class_text}
use tv_now.Media.Class.Checks.{InTables, AtEnd, class_text-is_valid_class}
use tv_now.Media.MimeTypes.{
  file_extension_to_mime_type, file_extension_to_protocol_info, file_extension_to_class_code,
  file_extension_to_upnp_class,
}
use tv_now.Media.MimeTypes.Laws.{
  http_get, file_extension_to_protocol_info-mime_type, class_text-file_extension_to_class_code,
}

abbrev mp3 : Bytes
mp3 = codes "mp3" ++ 0 ∷ []

mp3_test : file_extension_to_mime_type mp3 false ≡ some (codes "audio/mpeg")
unfolding file_extension_to_mime_type strcasecmp_eq
mp3_test = refl

mp3_class_test : file_extension_to_upnp_class mp3 false ≡ some (codes "object.item.audioItem")
unfolding file_extension_to_upnp_class strcasecmp_eq
mp3_class_test = refl

protocol_info_run :
    file_extension_to_protocol_info mp3 false
    ≡ Option.map http_get (file_extension_to_mime_type mp3 false)
protocol_info_run = file_extension_to_protocol_info-mime_type mp3 false

class_text-file_extension_to_class_code_run :
    (file_extension_to_class_code mp3 false >>= class_text) ≡ file_extension_to_upnp_class mp3 false
class_text-file_extension_to_class_code_run = class_text-file_extension_to_class_code mp3 false

-- A class with the major part 15 passes the checks, and its text cannot be read.
abbrev beyond_major : ℕ
beyond_major = 0x0F000001

beyond_major-is_valid_class : is_valid_class beyond_major ≡ true
unfolding is_valid_class
beyond_major-is_valid_class = refl

beyond_major_test : class_text beyond_major ≡ none
unfolding class_text
beyond_major_test = refl

class_text-is_valid_class_run :
    (InTables (indices beyond_major) × (s : Bytes) × (class_text beyond_major ≡ some s))
    ⊎ (AtEnd (indices beyond_major) × (class_text beyond_major ≡ none))
class_text-is_valid_class_run = class_text-is_valid_class beyond_major beyond_major-is_valid_class
