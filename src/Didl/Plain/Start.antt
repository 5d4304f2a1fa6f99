-- ===== src/Didl/Plain/Start.antt =====
-- CdsObjectToDidl.c: the sizes of the opening and the closing tag of a media object.
use tv_now.Common.{
  ℕ, ◌+◌, ◌≤◌, ◌≡◌, refl, inl, inr, Bool, true, false, Option, none, some, [], ◌∷◌, ◌++◌, Bytes,
  codes, length, length-append, if◌then◌else◌, Bool-cases, arith,
}
use tv_now.Parsers.Packets.{decimal}
use tv_now.Parsers.Packets.Decimals.{int_size}
use tv_now.Didl.Object.{
  MediaObject, escape, escape_length, has_bits, is_container, is_set, is_text, the_text,
}
use tv_now.Didl.Print.{print_start, flag_digit}
use tv_now.Didl.Resources.{escape_size}
use tv_now.Didl.Plain.{PlainObject, media_object}
use tv_now.Didl.Plain.Counted.{ids_size, kind_size}

flag_digit-size : (b : Bool) → length (flag_digit b) ≡ 1
flag_digit-size true = refl
flag_digit-size false = refl

-- The identifiers behind the tag's name, up to `restricted`.
abbrev ids_text : Bool → PlainObject → Bytes
unfolding escape has_bits
ids_text m f =
    escape m f.id
    ++ (codes "&quot; parentID=&quot;"
        ++ (escape m f.parent_id
            ++ (codes "&quot; restricted=&quot;" ++ flag_digit (has_bits f.flags 1))))

ids_text_size :
    (m : Bool) (f : PlainObject)
    → length (ids_text m f) ≡ escape_length m f.id + escape_length m f.parent_id + 47
unfolding ids_text
ids_text_size m f = omega (
  arith,
  length-append (escape m f.id) (
      codes "&quot; parentID=&quot;"
      ++ (escape m f.parent_id
          ++ (codes "&quot; restricted=&quot;" ++ flag_digit (has_bits f.flags 1)))),
  length-append (escape m f.parent_id)
      (codes "&quot; restricted=&quot;" ++ flag_digit (has_bits f.flags 1)),
  escape_size m f.id,
  escape_size m f.parent_id,
  flag_digit-size (has_bits f.flags 1),
)

-- What stands behind the identifiers of a container.
abbrev container_text : ℕ → PlainObject → Bytes
unfolding has_bits
container_text filter f =
    (if has_bits filter 0x100
      then codes "&quot; searchable=&quot;" ++ flag_digit (has_bits f.flags 2)
      else [])
    ++ ((if has_bits filter 0x80
          then codes "&quot; childCount=&quot;" ++ decimal f.child_count
          else [])
        ++ codes "&quot;&gt;")

container_text_size : (filter : ℕ) (f : PlainObject) → length (container_text filter f) ≤ 70
unfolding container_text
container_text_size filter f = omega (
  arith,
  length-append
      (if has_bits filter 0x100
        then codes "&quot; searchable=&quot;" ++ flag_digit (has_bits f.flags 2)
        else [])
      ((if has_bits filter 0x80
          then codes "&quot; childCount=&quot;" ++ decimal f.child_count
          else [])
        ++ codes "&quot;&gt;"),
  length-append
      (if has_bits filter 0x80
        then codes "&quot; childCount=&quot;" ++ decimal f.child_count
        else [])
      (codes "&quot;&gt;"),
  optional_size (has_bits filter 0x100)
      (codes "&quot; searchable=&quot;" ++ flag_digit (has_bits f.flags 2)),
  optional_size (has_bits filter 0x80) (codes "&quot; childCount=&quot;" ++ decimal f.child_count),
  flag_digit-size (has_bits f.flags 2),
  int_size f.child_count,
)
  where
    optional_size : (b : Bool) (t : Bytes) → length (if b then t else []) ≤ length t
    optional_size true t = omega arith
    optional_size false t = omega arith

-- What stands behind the identifiers of an item.
abbrev item_text : Bool → Option Bytes → Bytes
unfolding escape
item_text m v =
    if is_text v
    then codes "&quot; refID=&quot;" ++ (escape m (the_text v) ++ codes "&quot;&gt;")
    else codes "&quot;&gt;"

item_text_size :
    (m : Bool) (v : Option Bytes)
    → length (item_text m v) + 66
      ≤ (if is_set v then 95 else 76) + (if is_set v then escape_length m (the_text v) else 0)
unfolding item_text
item_text_size m none = omega arith
item_text_size m (some []) = omega arith
item_text_size m (some (c ∷ s)) =
    omega (arith, length-append (escape m (c ∷ s)) (codes "&quot;&gt;"), escape_size m (c ∷ s))

unfoldable pub closing : MediaObject → Bytes
unfolding is_container
closing o = if is_container o then codes "\r\n&lt;/container&gt;" else codes "\r\n&lt;/item&gt;"

pub start_size :
    (m : Bool) (filter : ℕ) (f : PlainObject)
    → length (print_start m filter (media_object f))
        + length (closing (media_object f))
        + 36
        + escape_length m f.title
      ≤ ids_size m f + kind_size (media_object f) + 2
unfolding print_start ids_text container_text item_text ids_size kind_size closing
start_size m filter f = elim (Bool-cases (is_container (media_object f))) [
  | inl there ↦ rw there (
      omega (
        arith,
        length-append (ids_text m f) (container_text filter f),
        ids_text_size m f,
        container_text_size filter f,
      ))
  | inr lacks ↦ rw lacks (
      omega (
        arith,
        length-append (ids_text m f) (item_text m f.ref_id),
        ids_text_size m f,
        item_text_size m f.ref_id,
      ))
]
