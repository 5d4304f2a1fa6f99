-- ===== src/Didl/Plain/Printed.antt =====
-- CdsObjectToDidl.c: the size of the text of a media object.
use tv_now.Common.{
  ℕ, ◌+◌, ◌≤◌, ◌<◌, inl, inr, Bool, [], ◌++◌, Bytes, codes, length, length-append, All,
  if◌then◌else◌, Bool-cases, arith,
}
use tv_now.Didl.Object.{escape, has_bits}
use tv_now.Didl.Print.{
  print_pieces, element, field_pieces, print_start, print_resources, print_object,
}
use tv_now.Didl.Totals.{Within, Within-has_bits}
use tv_now.Didl.Resources.{escape_size, IsSized}
use tv_now.Didl.Resources.Text.{print_resources_lem}
use tv_now.Didl.Plain.{PlainObject, media_object}
use tv_now.Didl.Plain.Counted.{res_size, plain_size}
use tv_now.Didl.Plain.Fields.{element_size, fields_size}
use tv_now.Didl.Plain.Start.{closing, start_size}

resources_size :
    (m : Bool) (filter p : ℕ) (stale : Bytes) (f : PlainObject)
    → All IsSized f.res
    → length stale ≤ 17
    → Within p filter
    → length (if has_bits p 0x2 then print_resources m p stale f.res else ([], stale)).0
      ≤ res_size m filter (media_object f)
unfolding res_size
resources_size m filter p stale f sized short w = elim (Bool-cases (has_bits p 0x2)) [
  | inl there ↦
      rw (there, Within-has_bits p filter 1 (omega arith) there w)
        (print_resources_lem m filter p stale f.res sized w short).0
  | inr lacks ↦ rw lacks (omega arith)
]

pub print_object_lem :
    (m : Bool) (filter p : ℕ) (date_text : ℕ → Bytes) (stale class : Bytes) (f : PlainObject)
    (n : ℕ)
    → All IsSized f.res
    → length stale ≤ 17
    → Within p filter
    → length class ≤ n + 3
    → length (print_object m filter p date_text stale class (media_object f))
      < plain_size m filter f n
unfolding print_object plain_size closing
print_object_lem m filter p date_text stale class f n sized short w h =
    let o = media_object f in
    let printed = if has_bits p 0x2 then print_resources m p stale o.res else ([], stale) in
    let fields = print_pieces p (field_pieces m date_text printed.1 o) in
    let title = element (codes "dc:title") (escape m f.title) in
    let tag = element (codes "upnp:class") class in
    omega (
      arith,
      length-append (print_start m filter o)
          (title ++ (tag ++ (printed.0 ++ (fields ++ closing o)))),
      length-append title (tag ++ (printed.0 ++ (fields ++ closing o))),
      length-append tag (printed.0 ++ (fields ++ closing o)),
      length-append printed.0 (fields ++ closing o),
      length-append fields (closing o),
      start_size m filter f,
      element_size (codes "dc:title") (escape m f.title),
      escape_size m f.title,
      element_size (codes "upnp:class") class,
      resources_size m filter p stale f sized short w,
      fields_size m filter p date_text printed.1 f w,
    )
