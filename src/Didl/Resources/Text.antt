-- ===== src/Didl/Resources/Text.antt =====
-- CdsObjectToDidl.c: the sizes of the resources of a media object, as printed and as counted.
use tv_now.Common.{
  inr, ℕ, ◌+◌, ◌≤◌, ◌≡◌, refl, Bool, Option, none, some, List, [], ◌∷◌, ◌++◌, Bytes, codes, length,
  length-append, All, if◌then◌else◌, arith,
}
use tv_now.Didl.Object.{MediaResource, escape, escape_length, is_set, the_text}
use tv_now.Didl.Count.{Sizes, count_all, resource_counted, count_resources, add_size}
use tv_now.Didl.Print.{
  print_pieces, write_time_string, resource_pieces, time_behind, print_resources, resource_text,
}
use tv_now.Didl.Totals.{total, Within, IsPlain, count_all_lem}
use tv_now.Didl.Resources.{escape_size, Covered-total, pieces-Covered, IsSized}

-- What has been counted for a resource, beside its attributes.
abbrev pub resource_base : Bool → MediaResource → ℕ
unfolding escape_length
resource_base m r =
    35
    + 16
    + escape_length m r.protocol_info
    + (if is_set r.value then escape_length m (the_text r.value) else 0)

unfoldable pub resources_total : Bool → ℕ → List MediaResource → ℕ
unfolding total resource_counted escape_length
resources_total m filter [] = 0
resources_total m filter (r ∷ rs) =
    resource_base m r + total filter (resource_counted m r) + resources_total m filter rs

value_size :
    (m : Bool) (v : Option Bytes)
    → length (if is_set v then escape m (the_text v) else [])
      ≡ (if is_set v then escape_length m (the_text v) else 0)
value_size m none = refl
value_size m (some t) = escape_size m t

time_size :
    (p : ℕ) (time : Bytes) (r : MediaResource)
    → length time ≤ 17
    → length (time_behind p time r) ≤ 17
unfolding time_behind write_time_string
time_size p time r h = ground arith

resource_text_size :
    (m : Bool) (filter p : ℕ) (time : Bytes) (r : MediaResource)
    → IsSized r
    → length time ≤ 17
    → Within p filter
    → length (resource_text m p time r) ≤ resource_base m r + total filter (resource_counted m r)
unfolding resource_text resource_base
resource_text_size m filter p time r sized short w =
    let attributes = print_pieces p (resource_pieces m time r) in
    let value = if is_set r.value then escape m (the_text r.value) else [] in
    omega (
      arith,
      length-append (escape m r.protocol_info)
          (codes "&quot;" ++ (attributes ++ (codes "&gt;" ++ (value ++ codes "&lt;/res&gt;")))),
      length-append attributes (codes "&gt;" ++ (value ++ codes "&lt;/res&gt;")),
      length-append value (codes "&lt;/res&gt;"),
      escape_size m r.protocol_info,
      value_size m r.value,
      Covered-total filter p (resource_pieces m time r) (resource_counted m r)
          (pieces-Covered m time r sized short) w,
    )

pub print_resources_lem :
    (m : Bool) (filter p : ℕ) (time : Bytes) (rs : List MediaResource)
    → All IsSized rs
    → Within p filter
    → length time ≤ 17
    → (length (print_resources m p time rs).0 ≤ resources_total m filter rs)
      × (length (print_resources m p time rs).1 ≤ 17)
unfolding print_resources resources_total
print_resources_lem m filter p time [] h w short = (omega arith, short)
print_resources_lem m filter p time (r ∷ rs) (hr, h) w short =
    let short' = time_size p time r short in
    let (ih, last) = print_resources_lem m filter p (time_behind p time r) rs h w short' in
    (
      omega (
        arith,
        length-append (resource_text m p (time_behind p time r) r)
            (print_resources m p (time_behind p time r) rs).0,
        resource_text_size m filter p (time_behind p time r) r hr short' w,
      ),
      last,
    )

resource_counted-IsPlain : (m : Bool) (r : MediaResource) → All IsPlain (resource_counted m r)
unfolding resource_counted
resource_counted-IsPlain m r = (
  inr (4, omega arith, refl),
  (
    inr (11, omega arith, refl),
    (
      inr (5, omega arith, refl),
      (
        inr (3, omega arith, refl),
        (
          inr (13, omega arith, refl),
          (
            inr (14, omega arith, refl),
            (
              inr (2, omega arith, refl),
              (inr (12, omega arith, refl), (inr (6, omega arith, refl), tt)),
            ),
          ),
        ),
      ),
    ),
  ),
)

pub count_resources_lem :
    (m : Bool) (filter : ℕ) (s : Sizes) (rs : List MediaResource)
    → Within s.print_these filter
    → ((count_resources m filter s rs).size ≡ s.size + resources_total m filter rs)
      × Within (count_resources m filter s rs).print_these filter
unfolding count_resources resources_total
count_resources_lem m filter s [] w = (omega arith, w)
count_resources_lem m filter s (r ∷ rs) w =
    let s' = add_size (resource_base m r) s in
    let (e, w') = count_all_lem filter s' (resource_counted m r) (resource_counted-IsPlain m r) w in
    let (e', w'') =
      count_resources_lem m filter (count_all filter s' (resource_counted m r)) rs w' in
    (omega arith, w'')
