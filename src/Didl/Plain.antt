-- ===== src/Didl/Plain.antt =====
-- CdsMediaObject.h and CdsMediaObject.c: media objects with the fields of files, and the texts of broadcasts that have
-- a bit of the filter of their own.
pub mod Counted
pub mod Fields
pub mod Start
pub mod Printed
pub mod Fits
use Prim.Native.Nat.{bit_or}
use tv_now.Common.{
  ℕ, ◌+◌, ◌^◌, ◌≤◌, ◌<◌, ◌≡◌, ◌≢◌, ◌∙◌, refl, sym, ap, ◌⊎◌, inl, inr, Bool, true, false, not, ◌&&◌,
  ◌||◌, Option, none, some, List, [], ◌∷◌, Bytes, length, All, if◌then◌else◌, Bool-cases, arith,
}
use tv_now.Common.Int.{ℤ, pos, negsuc}
use tv_now.Common.Masks.{zero-bit_and}
use tv_now.Didl.Object.{
  MediaResource, MediaObject, allocate_object, escape_length, has_bits, is_container, is_item,
  is_set, the_text,
}
use tv_now.Didl.Count.{
  Sizes, count_all, count_kind, count_res, count_object, music_counted, guide_counted,
  broadcast_counted, add_size,
}
use tv_now.Didl.Totals.{total, Within, IsPlain, Within-bit_or, count_all_lem}
use tv_now.Didl.Resources.Text.{resources_total, count_resources_lem}

-- A media object of a file, or of a broadcast without the fields whose bits are those of others: `Recordable`, the
-- providers, the call sign, the network affiliation, the program and series ID, the rating, the language, the dates and
-- the times are as `CDS_AllocateObject` leaves them.
pub record PlainObject : Type 0 where
  pub id : Bytes
  pub parent_id : Bytes
  pub ref_id : Option Bytes
  pub title : Bytes
  pub creator : Option Bytes
  pub album : Option Bytes
  pub genre : Option Bytes
  pub album_art_uri : Option Bytes
  pub long_description : Option Bytes
  pub channel_id : Option Bytes
  pub channel_nr : Option Bytes
  pub channel_name : Option Bytes
  pub episode_type : Option Bytes
  pub episode_season : Option Bytes
  pub episode_number : Option Bytes
  pub actor : Option Bytes
  pub media_class : ℕ
  pub child_count : ℤ
  pub flags : ℕ
  pub res : List MediaResource

abbrev pub media_object : PlainObject → MediaObject
media_object f = record allocate_object {
  id = some f.id;
  parent_id = some f.parent_id;
  ref_id = f.ref_id;
  title = some f.title;
  long_description = f.long_description;
  creator = f.creator;
  album = f.album;
  album_art_uri = f.album_art_uri;
  genre = f.genre;
  channel_id = f.channel_id;
  channel_nr = f.channel_nr;
  channel_name = f.channel_name;
  episode_type = f.episode_type;
  episode_season = f.episode_season;
  episode_number = f.episode_number;
  actor = f.actor;
  media_class = f.media_class;
  child_count = f.child_count;
  flags = f.flags;
  res = f.res;
}
