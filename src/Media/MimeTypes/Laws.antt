-- ===== src/Media/MimeTypes/Laws.antt =====
-- How the tables agree.
use mathlib.Core.Option
use tv_now.Common.{
  inl, inr, Option-cases, Bool, true, false, some, ◌++◌, ◌≡◌, refl, ap, Bytes, codes, if◌then◌else◌,
  ◌>>=◌,
}
use tv_now.Media.Class.{class_text}
use tv_now.Media.MimeTypes.{
  mime_type_of, protocol_info_of, upnp_class_of, class_code_of, file_extension_to_mime_type,
  file_extension_to_protocol_info, file_extension_to_upnp_class, file_extension_to_class_code,
  normalize,
}

if_map {ℓ κ} :
    {A : Type ℓ} {B : Type κ} (f : A → B) (b : Bool) (x y : A)
    → f (if b then x else y) ≡ (if b then f x else f y)
if_map f true x y = refl
if_map f false x y = refl

-- The protocol info that stands for a MIME type.
abbrev pub http_get : Bytes → Bytes
http_get mime = codes "http-get:*:" ++ (mime ++ codes ":*")

protocol_info_of-mime_type_of : (s : Bytes) → protocol_info_of s ≡ http_get (mime_type_of s)
unfolding protocol_info_of mime_type_of
protocol_info_of-mime_type_of s = simp (if_map http_get)

class_text-class_code_of : (s : Bytes) → class_text (class_code_of s) ≡ some (upnp_class_of s)
unfolding class_code_of upnp_class_of
class_text-class_code_of s =
    simp (if_map class_text, if_map {A = Bytes} some) (unfold class_text in refl)

-- The protocol info of an extension is that of its MIME type, for every array and both widths, and
-- the one fails where the other does.
pub file_extension_to_protocol_info-mime_type :
    (array : Bytes) (wide : Bool)
    → file_extension_to_protocol_info array wide
      ≡ Option.map http_get (file_extension_to_mime_type array wide)
unfolding file_extension_to_protocol_info file_extension_to_mime_type
file_extension_to_protocol_info-mime_type array wide = elim (Option-cases (normalize array wide)) [
  | inl e ↦ rw e
  | inr (s, e) ↦ rw e (ap some (protocol_info_of-mime_type_of s))
]

-- The class text printed for an extension's class code is the extension's UPnP class, for every
-- array and both widths, and the one fails where the other does.
pub class_text-file_extension_to_class_code :
    (array : Bytes) (wide : Bool)
    → (file_extension_to_class_code array wide >>= class_text)
      ≡ file_extension_to_upnp_class array wide
unfolding file_extension_to_class_code file_extension_to_upnp_class
class_text-file_extension_to_class_code array wide = elim (Option-cases (normalize array wide)) [
  | inl e ↦ rw e
  | inr (s, e) ↦ rw e (class_text-class_code_of s)
]
