-- ===== src/Media/MimeTypes/Names.antt =====
-- MimeTypes.h: the extensions, MIME types and protocol infos.
use tv_now.Common.{Bytes, codes}

abbrev pub extension_audio_mpeg : Bytes
extension_audio_mpeg = codes ".mp3"

abbrev pub extension_audio_wma : Bytes
extension_audio_wma = codes ".wma"

abbrev pub extension_audio_ogg : Bytes
extension_audio_ogg = codes ".ogg"

abbrev pub extension_playlist_asx : Bytes
extension_playlist_asx = codes ".asx"

abbrev pub extension_video_asf : Bytes
extension_video_asf = codes ".asf"

abbrev pub extension_video_wmv : Bytes
extension_video_wmv = codes ".wmv"

abbrev pub extension_video_mpeg : Bytes
extension_video_mpeg = codes ".mpg"

abbrev pub extension_video_mov : Bytes
extension_video_mov = codes ".mov"

abbrev pub extension_image_jpg : Bytes
extension_image_jpg = codes ".jpg"

abbrev pub extension_image_jpeg : Bytes
extension_image_jpeg = codes ".jpeg"

abbrev pub extension_image_bmp : Bytes
extension_image_bmp = codes ".bmp"

abbrev pub extension_playlist_m3u : Bytes
extension_playlist_m3u = codes ".m3u"

abbrev pub mime_type_audio_mpeg : Bytes
mime_type_audio_mpeg = codes "audio/mpeg"

abbrev pub mime_type_audio_wma : Bytes
mime_type_audio_wma = codes "audio/x-ms-wma"

abbrev pub mime_type_audio_ogg : Bytes
mime_type_audio_ogg = codes "audio/x-ogg"

abbrev pub mime_type_playlist_asx : Bytes
mime_type_playlist_asx = codes "audio/x-ms-asx"

abbrev pub mime_type_video_asf : Bytes
mime_type_video_asf = codes "video/x-ms-asf"

abbrev pub mime_type_video_wmv : Bytes
mime_type_video_wmv = codes "video/x-ms-wmv"

abbrev pub mime_type_video_mpeg : Bytes
mime_type_video_mpeg = codes "video/mpeg"

abbrev pub mime_type_video_mov : Bytes
mime_type_video_mov = codes "video/quicktime"

abbrev pub mime_type_image_jpg : Bytes
mime_type_image_jpg = codes "image/jpeg"

abbrev pub mime_type_image_jpeg : Bytes
mime_type_image_jpeg = codes "image/jpeg"

abbrev pub mime_type_image_bmp : Bytes
mime_type_image_bmp = codes "image/bmp"

abbrev pub mime_type_playlist_m3u : Bytes
mime_type_playlist_m3u = codes "audio/mpegurl"

abbrev pub protinfo_audio_mpeg : Bytes
protinfo_audio_mpeg = codes "http-get:*:audio/mpeg:*"

abbrev pub protinfo_audio_wma : Bytes
protinfo_audio_wma = codes "http-get:*:audio/x-ms-wma:*"

abbrev pub protinfo_audio_ogg : Bytes
protinfo_audio_ogg = codes "http-get:*:audio/x-ogg:*"

abbrev pub protinfo_playlist_asx : Bytes
protinfo_playlist_asx = codes "http-get:*:audio/x-ms-asx:*"

abbrev pub protinfo_video_asf : Bytes
protinfo_video_asf = codes "http-get:*:video/x-ms-asf:*"

abbrev pub protinfo_video_wmv : Bytes
protinfo_video_wmv = codes "http-get:*:video/x-ms-wmv:*"

abbrev pub protinfo_video_mpeg : Bytes
protinfo_video_mpeg = codes "http-get:*:video/mpeg:*"

abbrev pub protinfo_video_mov : Bytes
protinfo_video_mov = codes "http-get:*:video/quicktime:*"

abbrev pub protinfo_image_jpg : Bytes
protinfo_image_jpg = codes "http-get:*:image/jpeg:*"

abbrev pub protinfo_image_jpeg : Bytes
protinfo_image_jpeg = codes "http-get:*:image/jpeg:*"

abbrev pub protinfo_image_bmp : Bytes
protinfo_image_bmp = codes "http-get:*:image/bmp:*"

abbrev pub protinfo_playlist_m3u : Bytes
protinfo_playlist_m3u = codes "http-get:*:audio/mpegurl:*"
