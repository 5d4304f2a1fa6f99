-- ===== src/Media/Class.antt =====
-- CdsMediaClass.h and CdsMediaClass.c: media class codes, and the class text that
-- `CdsToDidl_GetMediaObjectDidlEscaped` (CdsObjectToDidl.c) prints for a code.
pub mod Checks
use tv_now.Common.{
  true, false, ℕ, ◌/◌, ◌%◌, ◌^◌, Bool, Option, some, List, [], ◌∷◌, ◌++◌, Bytes, codes, ltb,
  if◌then◌else◌, get_elem?, ◌>>=◌, ◌||◌,
}

abbrev pub mediaclass_item : ℕ
mediaclass_item = 0x00000001

abbrev pub mediaclass_container : ℕ
mediaclass_container = 0x00000002

abbrev pub mediaclass_imageitem : ℕ
mediaclass_imageitem = 0x01000001

abbrev pub mediaclass_audioitem : ℕ
mediaclass_audioitem = 0x02000001

abbrev pub mediaclass_videoitem : ℕ
mediaclass_videoitem = 0x03000001

abbrev pub mediaclass_playlistcontainer : ℕ
mediaclass_playlistcontainer = 0x07000002

abbrev pub class_object_type : List Bytes
class_object_type = codes "" ∷ codes "object.item" ∷ codes "object.container" ∷ []

abbrev pub class_major_type : List Bytes
class_major_type =
    codes ""
    ∷ codes "imageItem"
    ∷ codes "audioItem"
    ∷ codes "videoItem"
    ∷ codes "playlistItem"
    ∷ codes "textItem"
    ∷ codes "person"
    ∷ codes "playlistContainer"
    ∷ codes "album"
    ∷ codes "genre"
    ∷ codes "storageSystem"
    ∷ codes "storageVolume"
    ∷ codes "storageFolder"
    ∷ codes "epgContainer"
    ∷ codes "epgItem"
    ∷ []

abbrev pub class_minor1_type : List Bytes
class_minor1_type =
    codes ""
    ∷ codes "photo"
    ∷ codes "musicTrack"
    ∷ codes "audioBroadcast"
    ∷ codes "audioBook"
    ∷ codes "movie"
    ∷ codes "videoBroadcast"
    ∷ codes "musicVideClip"
    ∷ codes "musicArtist"
    ∷ codes "musicAlbum"
    ∷ codes "photoAlbum"
    ∷ codes "musicGenre"
    ∷ codes "movieGenre"
    ∷ codes "videoProgram"
    ∷ codes "audioProgram"
    ∷ []

abbrev pub class_minor2_type : List Bytes
class_minor2_type = codes "" ∷ []

-- The indices into the four tables.
pub record Indices : Type 0 where
  pub object_type : ℕ
  pub major : ℕ
  pub minor1 : ℕ
  pub minor2 : ℕ

unfoldable pub indices : ℕ → Indices
indices code = record {
  object_type = code % 4;
  major = code / 2 ^ 24 % 256;
  minor1 = code / 2 ^ 16 % 256;
  minor2 = code / 2 ^ 8 % 256;
}

-- The checks of an index against the length of its table, as the code makes them: the length
-- itself passes.
unfoldable pub is_valid_class : ℕ → Bool
unfolding indices
is_valid_class code =
    let i = indices code in
    if ltb 3 i.object_type || ltb i.object_type 1
    then false
    else if ltb 15 i.major
    then false
    else if ltb 15 i.minor1
    then false
    else if ltb 1 i.minor2
    then false
    else true

-- A part behind the first: printed with a dot in front if its index is not 0.
unfoldable pub part : List Bytes → ℕ → Option Bytes
part table i = if ltb 0 i then (do t ← get_elem? table i; some (b'.' ∷ t)) else some []

-- The class text of a code; `none` is a read behind the end of a table.
unfoldable pub class_text : ℕ → Option Bytes
unfolding indices part
class_text code = do
  let i = indices code
  a ← get_elem? class_object_type i.object_type
  b ← part class_major_type i.major
  c ← part class_minor1_type i.minor1
  d ← part class_minor2_type i.minor2
  some (a ++ (b ++ (c ++ d)))
