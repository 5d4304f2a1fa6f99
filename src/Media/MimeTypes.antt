-- ===== src/Media/MimeTypes.antt =====
-- MimeTypes.c and MimeTypes.h: the tables from file extensions to MIME types, protocol infos, UPnP
-- classes and class codes. A result `none` is a copy of the extension behind the end of one of the
-- buffers of 10 bytes, or a read of such a buffer without a NUL.
pub mod Names
pub mod Laws
use mathlib.Core.Option
use tv_now.Common.{
  true, ℕ, suc, ◌+◌, Bool, Option, none, some, [], ◌∷◌, Bytes, codes, leb, ◌==◌, if◌then◌else◌,
  length, ◌>>=◌,
}
use tv_now.Media.Class.{
  mediaclass_item, mediaclass_audioitem, mediaclass_videoitem, mediaclass_imageitem,
  mediaclass_playlistcontainer,
}
use tv_now.Media.MimeTypes.Names.{
  extension_audio_mpeg, extension_audio_wma, extension_audio_ogg, extension_playlist_asx,
  extension_video_asf, extension_video_wmv, extension_video_mpeg, extension_video_mov,
  extension_image_jpg, extension_image_jpeg, extension_image_bmp, extension_playlist_m3u,
  mime_type_audio_mpeg, mime_type_audio_wma, mime_type_audio_ogg, mime_type_playlist_asx,
  mime_type_video_asf, mime_type_video_wmv, mime_type_video_mpeg, mime_type_video_mov,
  mime_type_image_jpg, mime_type_image_jpeg, mime_type_image_bmp, mime_type_playlist_m3u,
  protinfo_audio_mpeg, protinfo_audio_wma, protinfo_audio_ogg, protinfo_playlist_asx,
  protinfo_video_asf, protinfo_video_wmv, protinfo_video_mpeg, protinfo_video_mov,
  protinfo_image_jpg, protinfo_image_jpeg, protinfo_image_bmp, protinfo_playlist_m3u,
}
use tv_now.MyString.Decode.{Outcome, done, out_of_range, out_of_fuel}
use tv_now.MyString.Encode.{Converted, str_to_utf8}
use tv_now.MyString.Libc.{strcasecmp_eq}

-- The text in an array, up to its NUL.
pub c_string : Bytes → Option Bytes
c_string [] = none
c_string (c ∷ s) = let rest = c_string s in if c == 0 then some [] else Option.map (◌∷◌ c) rest

-- `strToUtf8(temp2, extension, _TMP_CHAR_BUFFER, 1, NULL)`, read back as a text.
narrow : Outcome Converted → Option Bytes
unfolding c_string
narrow (done c) = c_string c.written
narrow out_of_range = none
narrow out_of_fuel = none

-- `tempExtension` holds 10 bytes, of which the dot and the NUL take two.
with_dot : Bytes → Option Bytes
with_dot [] = some (codes ".")
with_dot (c ∷ s) =
    if c == b'.' then some (c ∷ s) else if leb (length (c ∷ s)) 8 then some (b'.' ∷ c ∷ s) else none

-- What each of the four functions on extensions does first, to the array that it is given.
unfoldable pub normalize : Bytes → Bool → Option Bytes
unfolding narrow with_dot c_string
normalize array wide =
    (if wide then narrow (str_to_utf8 array 10 true) else c_string array) >>= with_dot

pub mime_type_of : Bytes → Bytes
mime_type_of s =
    if strcasecmp_eq s extension_audio_mpeg
    then mime_type_audio_mpeg
    else if strcasecmp_eq s extension_audio_wma
    then mime_type_audio_wma
    else if strcasecmp_eq s extension_audio_ogg
    then mime_type_audio_ogg
    else if strcasecmp_eq s extension_playlist_asx
    then mime_type_playlist_asx
    else if strcasecmp_eq s extension_video_asf
    then mime_type_video_asf
    else if strcasecmp_eq s extension_video_wmv
    then mime_type_video_wmv
    else if strcasecmp_eq s extension_video_mpeg
    then mime_type_video_mpeg
    else if strcasecmp_eq s extension_video_mov
    then mime_type_video_mov
    else if strcasecmp_eq s extension_image_jpg
    then mime_type_image_jpg
    else if strcasecmp_eq s extension_image_jpeg
    then mime_type_image_jpeg
    else if strcasecmp_eq s extension_image_bmp
    then mime_type_image_bmp
    else if strcasecmp_eq s extension_playlist_m3u
    then mime_type_playlist_m3u
    else codes "application/octet-stream"

unfoldable pub file_extension_to_mime_type : Bytes → Bool → Option Bytes
unfolding normalize mime_type_of
file_extension_to_mime_type array wide = Option.map mime_type_of (normalize array wide)

pub protocol_info_of : Bytes → Bytes
protocol_info_of s =
    if strcasecmp_eq s extension_audio_mpeg
    then protinfo_audio_mpeg
    else if strcasecmp_eq s extension_audio_wma
    then protinfo_audio_wma
    else if strcasecmp_eq s extension_audio_ogg
    then protinfo_audio_ogg
    else if strcasecmp_eq s extension_playlist_asx
    then protinfo_playlist_asx
    else if strcasecmp_eq s extension_video_asf
    then protinfo_video_asf
    else if strcasecmp_eq s extension_video_wmv
    then protinfo_video_wmv
    else if strcasecmp_eq s extension_video_mpeg
    then protinfo_video_mpeg
    else if strcasecmp_eq s extension_video_mov
    then protinfo_video_mov
    else if strcasecmp_eq s extension_image_jpg
    then protinfo_image_jpg
    else if strcasecmp_eq s extension_image_jpeg
    then protinfo_image_jpeg
    else if strcasecmp_eq s extension_image_bmp
    then protinfo_image_bmp
    else if strcasecmp_eq s extension_playlist_m3u
    then protinfo_playlist_m3u
    else codes "http-get:*:application/octet-stream:*"

unfoldable pub file_extension_to_protocol_info : Bytes → Bool → Option Bytes
unfolding normalize protocol_info_of
file_extension_to_protocol_info array wide = Option.map protocol_info_of (normalize array wide)

pub mime_type_to_file_extension : Bytes → Bytes
mime_type_to_file_extension s =
    if strcasecmp_eq s mime_type_audio_mpeg
    then extension_audio_mpeg
    else if strcasecmp_eq s mime_type_audio_wma
    then extension_audio_wma
    else if strcasecmp_eq s mime_type_audio_ogg
    then extension_audio_ogg
    else if strcasecmp_eq s mime_type_playlist_asx
    then extension_playlist_asx
    else if strcasecmp_eq s mime_type_video_asf
    then extension_video_asf
    else if strcasecmp_eq s mime_type_video_wmv
    then extension_video_wmv
    else if strcasecmp_eq s mime_type_video_mpeg
    then extension_video_mpeg
    else if strcasecmp_eq s mime_type_video_mov
    then extension_video_mov
    else if strcasecmp_eq s mime_type_image_jpg
    then extension_image_jpg
    else if strcasecmp_eq s mime_type_image_jpeg
    then extension_image_jpeg
    else if strcasecmp_eq s mime_type_image_bmp
    then extension_image_bmp
    else if strcasecmp_eq s mime_type_playlist_m3u
    then extension_playlist_m3u
    else codes ".bin"

pub upnp_class_of : Bytes → Bytes
upnp_class_of s =
    if strcasecmp_eq s extension_audio_mpeg
    then codes "object.item.audioItem"
    else if strcasecmp_eq s extension_audio_wma
    then codes "object.item.audioItem"
    else if strcasecmp_eq s extension_audio_ogg
    then codes "object.item.audioItem"
    else if strcasecmp_eq s extension_video_asf
    then codes "object.item.videoItem"
    else if strcasecmp_eq s extension_video_wmv
    then codes "object.item.videoItem"
    else if strcasecmp_eq s extension_video_mpeg
    then codes "object.item.videoItem"
    else if strcasecmp_eq s extension_video_mov
    then codes "object.item.videoItem"
    else if strcasecmp_eq s extension_image_jpg
    then codes "object.item.imageItem"
    else if strcasecmp_eq s extension_image_jpeg
    then codes "object.item.imageItem"
    else if strcasecmp_eq s extension_image_bmp
    then codes "object.item.imageItem"
    else if strcasecmp_eq s extension_playlist_m3u
    then codes "object.container.playlistContainer"
    else if strcasecmp_eq s extension_playlist_asx
    then codes "object.container.playlistContainer"
    else codes "object.item"

unfoldable pub file_extension_to_upnp_class : Bytes → Bool → Option Bytes
unfolding normalize upnp_class_of
file_extension_to_upnp_class array wide = Option.map upnp_class_of (normalize array wide)

pub class_code_of : Bytes → ℕ
class_code_of s =
    if strcasecmp_eq s extension_audio_mpeg
    then mediaclass_audioitem
    else if strcasecmp_eq s extension_audio_wma
    then mediaclass_audioitem
    else if strcasecmp_eq s extension_audio_ogg
    then mediaclass_audioitem
    else if strcasecmp_eq s extension_video_asf
    then mediaclass_videoitem
    else if strcasecmp_eq s extension_video_wmv
    then mediaclass_videoitem
    else if strcasecmp_eq s extension_video_mpeg
    then mediaclass_videoitem
    else if strcasecmp_eq s extension_video_mov
    then mediaclass_videoitem
    else if strcasecmp_eq s extension_image_jpg
    then mediaclass_imageitem
    else if strcasecmp_eq s extension_image_jpeg
    then mediaclass_imageitem
    else if strcasecmp_eq s extension_image_bmp
    then mediaclass_imageitem
    else if strcasecmp_eq s extension_playlist_m3u
    then mediaclass_playlistcontainer
    else if strcasecmp_eq s extension_playlist_asx
    then mediaclass_playlistcontainer
    else mediaclass_item

unfoldable pub file_extension_to_class_code : Bytes → Bool → Option ℕ
unfolding normalize class_code_of
file_extension_to_class_code array wide = Option.map class_code_of (normalize array wide)
