-- ===== src/Didl/Overrun.antt =====
-- CdsObjectToDidl.c: a field that is printed and has not been counted.
use tv_now.Common.{
  ℕ, ◌+◌, ◌≤◌, ◌≡◌, refl, Bool, true, Option, some, List, [], ◌∷◌, ◌++◌, Bytes, codes, length,
  length-append, lt→ltb, if◌then◌else◌, arith,
}
use tv_now.Common.Int.{pos}
use tv_now.Didl.Object.{MediaObject, escape, escape_length, has_bits, is_container, the_text}
use tv_now.Didl.Count.{count_object, class_length, object_error}
use tv_now.Didl.Print.{
  Piece, overrun, finish, print_piece, print_pieces, string_piece, field_pieces, element, header,
  footer, print_start, print_resources, print_object, get_media_object_didl_escaped,
}
use tv_now.Didl.Resources.{escape_size}
use tv_now.Didl.Plain.Fields.{element_size}
use tv_now.Didl.Plain.Fits.{class_lem}

provider_size :
    (m : Bool) (p : ℕ) (v : Option Bytes) (name : Bytes)
    → v ≡ some name
    → has_bits p 0x80000 ≡ true
    → escape_length m name
      ≤ length (print_piece p (string_piece m v 0x80000 (codes "upnp:epgProviderName")))
unfolding print_piece
provider_size m p v name e there =
    rw (e, there)
      (omega
        (arith, element_size (codes "upnp:epgProviderName") (escape m name), escape_size m name))

first_size :
    (n p : ℕ) (x : Piece) (xs : List Piece)
    → n ≤ length (print_piece p x)
    → n ≤ length (print_pieces p (x ∷ xs))
unfolding print_pieces
first_size n p x xs h = omega (arith, length-append (print_piece p x) (print_pieces p xs))

fields_provider_size :
    (m : Bool) (p : ℕ) (date_text : ℕ → Bytes) (time : Bytes) (o : MediaObject) (name : Bytes)
    → o.epg_provider_name ≡ some name
    → has_bits p 0x80000 ≡ true
    → escape_length m name ≤ length (print_pieces p (field_pieces m date_text time o))
unfolding field_pieces
fields_provider_size m p date_text time o name e there =
    first_size (escape_length m name) p
      (string_piece m o.epg_provider_name 0x80000 (codes "upnp:epgProviderName")) _
      (provider_size m p o.epg_provider_name name e there)

print_object_size :
    (m : Bool) (filter p : ℕ) (date_text : ℕ → Bytes) (stale class : Bytes) (o : MediaObject)
    (name : Bytes)
    → o.epg_provider_name ≡ some name
    → has_bits p 0x80000 ≡ true
    → escape_length m name ≤ length (print_object m filter p date_text stale class o)
unfolding print_object
print_object_size m filter p date_text stale class o name e there =
    let printed = if has_bits p 0x2 then print_resources m p stale o.res else ([], stale) in
    let fields = print_pieces p (field_pieces m date_text printed.1 o) in
    let title = element (codes "dc:title") (escape m (the_text o.title)) in
    let tag = element (codes "upnp:class") class in
    let closing =
      if is_container o then codes "\r\n&lt;/container&gt;" else codes "\r\n&lt;/item&gt;" in
    omega (
      arith,
      length-append (print_start m filter o) (title ++ (tag ++ (printed.0 ++ (fields ++ closing)))),
      length-append title (tag ++ (printed.0 ++ (fields ++ closing))),
      length-append tag (printed.0 ++ (fields ++ closing)),
      length-append printed.0 (fields ++ closing),
      length-append fields closing,
      fields_provider_size m p date_text printed.1 o name e there,
    )

finish_overrun :
    (with_header : Bool) (size : ℕ) (text : Bytes)
    → size + 128 ≤ length text
    → finish with_header size text ≡ overrun
unfolding finish
finish_overrun with_header size text h =
    let front = if with_header then header else [] in
    let behind = if with_header then footer else [] in
    rw (lt→ltb (size + 128) (length front + length text + length behind + 1) (omega arith)) refl

-- For a valid object of a class in the tables with an EPG provider, whose `printThese` has the bit of the EPG provider,
-- as the bits of the call sign set it, and whose escaped provider is at least as long as the size that was counted and
-- the 128 bytes to spare, `CdsToDidl_GetMediaObjectDidlEscaped` writes behind the end of its buffer.
pub get_media_object_didl_escaped-overrun :
    (m : Bool) (filter : ℕ) (with_header : Bool) (date_text : ℕ → Bytes) (stale : Bytes)
    (o : MediaObject) (class : ℕ) (name : Bytes)
    → object_error o ≡ pos 0
    → class_length o.media_class ≡ some class
    → o.epg_provider_name ≡ some name
    → has_bits (count_object m filter with_header o class).print_these 0x80000 ≡ true
    → (count_object m filter with_header o class).size + 128 ≤ escape_length m name
    → get_media_object_didl_escaped m filter with_header date_text stale o ≡ overrun
unfolding get_media_object_didl_escaped
get_media_object_didl_escaped-overrun m filter with_header date_text stale o class name valid known
      e there long =
    let s = count_object m filter with_header o class in
    let (t, et, lt) = (class_lem o.media_class class known).1 in
    let size = print_object_size m filter s.print_these date_text stale t o name e there in
    rw (valid, known, et, get_media_object_didl_escaped)
      (finish_overrun with_header s.size (print_object m filter s.print_these date_text stale t o)
        (omega arith))
