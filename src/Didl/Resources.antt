-- ===== src/Didl/Resources.antt =====
-- CdsObjectToDidl.c: the sizes of the attributes of a resource, as printed and as counted.
pub mod Text
use tv_now.Common.{
  inr, ℕ, ◌+◌, ◌/◌, ◌^◌, ◌≤◌, ◌<◌, ◌≡◌, ◌≢◌, refl, sym, Bool, true, false, ◌&&◌, Option, none, some,
  List, [], ◌∷◌, ◌++◌, Bytes, codes, length, length-append, All, if◌then◌else◌, arith,
}
use tv_now.Common.Int.{ℤ, pos, negsuc}
use tv_now.Parsers.XmlEscape.RoundTrip.{xml_escape_length-xml_escape}
use tv_now.Parsers.Packets.{decimal, decimal_onto}
use tv_now.Parsers.Packets.Decimals.{decimal_onto_size, int_size}
use tv_now.Didl.Escape.Twice.{double_escape-xml_escape}
use tv_now.Didl.Object.{
  MediaResource, escape, escape_length, is_set, the_text, is_natural, is_positive,
}
use tv_now.Didl.Escape.{double_escape}
use tv_now.Didl.Count.{Counted, Sizes, count_all, resource_counted, count_resources, add_size}
use tv_now.Didl.Print.{
  Piece, print_piece, print_pieces, attribute, write_time_string, to_natural, resource_pieces,
  time_behind, print_resources, resource_text,
}
use tv_now.Didl.Totals.{and_left, and_right, total, Within, IsPlain, count_all_lem, piece-shown}

-- The escaped text is as long as has been counted.
pub escape_size : (m : Bool) (s : Bytes) → length (escape m s) ≡ escape_length m s
unfolding escape escape_length double_escape
escape_size true s = sym (xml_escape_length-xml_escape s).0
escape_size false s = (double_escape-xml_escape s).1

-- A piece with what has been counted for it, on the same bit.
abbrev pub Covers : Piece → Counted → Type 0
Covers x c =
    (j : ℕ) × (j < 32)
    × (x.bits ≡ 2 ^ j)
    × (c.bits ≡ 2 ^ j)
    × (x.present ≡ true → c.present ≡ true)
    × (length x.text ≤ c.amount)

pub Covers-shown :
    (filter p : ℕ) (x : Piece) (c : Counted)
    → Covers x c
    → Within p filter
    → length (print_piece p x) ≤ total filter (c ∷ [])
unfolding total
Covers-shown filter p x c (j, hj, ex, ec, h, l) w =
    omega (arith, piece-shown filter p x c j hj ex ec h l w)

abbrev Covered : List Piece → List Counted → Type 0
Covered [] cs = Unit
Covered (x ∷ xs) [] = ⊥
Covered (x ∷ xs) (c ∷ cs) = Covers x c × Covered xs cs

pub Covered-total :
    (filter p : ℕ) (xs : List Piece) (cs : List Counted)
    → Covered xs cs
    → Within p filter
    → length (print_pieces p xs) ≤ total filter cs
unfolding total print_pieces
Covered-total filter p [] cs h w = omega arith
Covered-total filter p (x ∷ xs) [] h w = absurd h
Covered-total filter p (x ∷ xs) (c ∷ cs) (hx, h) w = omega (
  arith,
  length-append (print_piece p x) (print_pieces p xs),
  Covers-shown filter p x c hx w,
  Covered-total filter p xs cs h w,
)

-- A resource whose vertical resolution is not 0.
abbrev pub IsSized : MediaResource → Type 0
IsSized r = r.resolution_y ≢ pos 0

positive_of_natural : (n : ℤ) → n ≢ pos 0 → is_natural n ≡ true → is_positive n ≡ true
positive_of_natural (pos n) h k = ground arith
positive_of_natural (negsuc n) h k = cc

attribute_size :
    (name text : Bytes) (n : ℕ)
    → length name ≡ n
    → length (attribute name text) ≡ n + 14 + length text
attribute_size name text n h = omega (
  arith,
  length-append name (codes "=&quot;" ++ (text ++ codes "&quot;")),
  length-append (codes "=&quot;") (text ++ codes "&quot;"),
  length-append text (codes "&quot;"),
)

number_size :
    (name : Bytes) (k : ℤ) (n : ℕ)
    → length name ≡ n
    → length (attribute name (decimal k)) ≤ n + 14 + 12
number_size name k n h = omega (arith, attribute_size name (decimal k) n h, int_size k)

resolution_size :
    (x y : ℤ)
    → length (attribute (codes "resolution") (decimal x ++ (b'x' ∷ decimal y))) ≤ 24 + 12 + 12
resolution_size x y = omega (
  arith,
  attribute_size (codes "resolution") (decimal x ++ (b'x' ∷ decimal y)) 10 refl,
  length-append (decimal x) (b'x' ∷ decimal y),
  int_size x,
  int_size y,
)

resolution_there :
    (r : MediaResource)
    → IsSized r
    → (is_natural r.resolution_x && is_natural r.resolution_y) ≡ true
    → (is_natural r.resolution_x && is_positive r.resolution_y) ≡ true
resolution_there r sized h =
    let y = positive_of_natural r.resolution_y sized (and_right (is_natural r.resolution_x) _ h) in
    rw (and_left (is_natural r.resolution_x) _ h, y) refl

pub pieces-Covered :
    (m : Bool) (time : Bytes) (r : MediaResource)
    → IsSized r
    → length time ≤ 17
    → Covered (resource_pieces m time r) (resource_counted m r)
unfolding resource_pieces resource_counted
pieces-Covered m time r sized short = (
  (
    4,
    omega arith,
    refl,
    refl,
    λ h. h,
    number_size (codes "bitrate") (pos (to_natural r.bitrate / 8)) 7 refl,
  ),
  (
    (
      11,
      omega arith,
      refl,
      refl,
      λ h. h,
      number_size (codes "bitsPerSample") r.bits_per_sample 13 refl,
    ),
    (
      (5, omega arith, refl, refl, λ h. h, number_size (codes "colorDepth") r.color_depth 10 refl),
      (
        (
          3,
          omega arith,
          refl,
          refl,
          λ h. h,
          omega (arith, attribute_size (codes "duration") time 8 refl),
        ),
        (
          (
            13,
            omega arith,
            refl,
            refl,
            λ h. h,
            number_size (codes "nrAudioChannels") r.nr_audio_channels 15 refl,
          ),
          (
            (
              14,
              omega arith,
              refl,
              refl,
              λ h. h,
              omega (
                arith,
                escape_size m (the_text r.protection),
                attribute_size (codes "protection") (escape m (the_text r.protection)) 10 refl,
              ),
            ),
            (
              (
                2,
                omega arith,
                refl,
                refl,
                resolution_there r sized,
                resolution_size r.resolution_x r.resolution_y,
              ),
              (
                (
                  12,
                  omega arith,
                  refl,
                  refl,
                  λ h. h,
                  number_size (codes "sampleFrequency") r.sample_frequency 15 refl,
                ),
                (
                  (
                    6,
                    omega arith,
                    refl,
                    refl,
                    λ h. h,
                    omega (
                      arith,
                      decimal_onto_size 20 r.size [],
                      attribute_size (codes "size") (decimal_onto 20 r.size []) 4 refl,
                    ),
                  ),
                  tt,
                ),
              ),
            ),
          ),
        ),
      ),
    ),
  ),
)
