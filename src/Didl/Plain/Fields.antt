-- ===== src/Didl/Plain/Fields.antt =====
-- CdsObjectToDidl.c: the sizes of the fields of a media object, as printed and as counted.
use tv_now.Common.{
  ℕ, ◌+◌, ◌*◌, ◌^◌, ◌≤◌, ◌<◌, ◌≡◌, refl, Bool, false, Option, List, [], ◌∷◌, ◌++◌, Bytes, codes,
  length, length-append, arith,
}
use tv_now.Didl.Object.{escape, is_set, the_text}
use tv_now.Didl.Count.{string_counted, music_counted, broadcast_counted}
use tv_now.Didl.Print.{Piece, piece, print_piece, print_pieces, element, string_piece, field_pieces}
use tv_now.Didl.Totals.{shown, total, Within, piece-shown}
use tv_now.Didl.Resources.{escape_size}
use tv_now.Didl.Plain.{PlainObject, media_object}

-- The sizes of pieces, each at most a number.
abbrev Bounded : ℕ → List Piece → List ℕ → Type 0
Bounded p [] ns = Unit
Bounded p (x ∷ xs) [] = ⊥
Bounded p (x ∷ xs) (n ∷ ns) = (length (print_piece p x) ≤ n) × Bounded p xs ns

abbrev sum : List ℕ → ℕ
sum [] = 0
sum (n ∷ ns) = n + sum ns

Bounded-sum :
    (p : ℕ) (xs : List Piece) (ns : List ℕ) → Bounded p xs ns → length (print_pieces p xs) ≤ sum ns
unfolding print_pieces
Bounded-sum p [] ns h = omega arith
Bounded-sum p (x ∷ xs) [] h = absurd h
Bounded-sum p (x ∷ xs) (n ∷ ns) (hx, h) =
    omega (arith, length-append (print_piece p x) (print_pieces p xs), Bounded-sum p xs ns h)

pub element_size :
    (name text : Bytes) → length (element name text) ≡ 2 * length name + 19 + length text
element_size name text = omega (
  arith,
  length-append name (codes "&gt;" ++ (text ++ (codes "&lt;/" ++ (name ++ codes "&gt;")))),
  length-append text (codes "&lt;/" ++ (name ++ codes "&gt;")),
  length-append name (codes "&gt;"),
)

absent-size : (p bits : ℕ) (text : Bytes) → length (print_piece p (piece false bits text)) ≤ 0
unfolding print_piece
absent-size p bits text = omega arith

string_piece-shown :
    (m : Bool) (filter p : ℕ) (v : Option Bytes) (j : ℕ) (name : Bytes) (n : ℕ)
    → j < 32
    → 2 * length name + 19 ≤ n
    → Within p filter
    → length (print_piece p (string_piece m v (2 ^ j) name))
      ≤ shown filter (string_counted m v (2 ^ j) n)
string_piece-shown m filter p v j name n hj hn w =
    piece-shown filter p _ (string_counted m v (2 ^ j) n) j hj refl refl (λ h. h)
      (omega (arith, element_size name (escape m (the_text v)), escape_size m (the_text v))) w

art_piece-shown :
    (m : Bool) (filter p : ℕ) (v : Option Bytes)
    → Within p filter
    → length (
        print_piece p (
          piece (is_set v) 0x20000000 (
            codes
              "&lt;upnp:albumArtURI dlna:profileID=&quot;JPEG_TN&quot; xmlns:dlna=&quot;urn:schemas-dlna-org:metadata-1-0/&quot;&gt;"
            ++ (escape m (the_text v) ++ codes "&lt;/upnp:albumArtURI&gt;"))))
      ≤ shown filter (string_counted m v 0x20000000 142)
art_piece-shown m filter p v w =
    piece-shown filter p _ (string_counted m v 0x20000000 142) 29 (omega arith) refl refl (λ h. h)
      (omega (
        arith,
        length-append (escape m (the_text v)) (codes "&lt;/upnp:albumArtURI&gt;"),
        escape_size m (the_text v),
      ))
      w

pub fields_size :
    (m : Bool) (filter p : ℕ) (date_text : ℕ → Bytes) (time : Bytes) (f : PlainObject)
    → Within p filter
    → length (print_pieces p (field_pieces m date_text time (media_object f)))
      ≤ total filter (music_counted m (media_object f))
        + total filter (broadcast_counted m (media_object f))
unfolding field_pieces music_counted broadcast_counted total
fields_size m filter p date_text time f w =
    let absent = absent-size p in
    omega (
      arith,
      Bounded-sum p (field_pieces m date_text time (media_object f))
          (0
            ∷ 0
            ∷ shown filter (string_counted m f.channel_id 0x40000 48)
            ∷ shown filter (string_counted m f.channel_nr 0x10000 47)
            ∷ shown filter (string_counted m f.channel_name 0x20000 51)
            ∷ 0
            ∷ 0
            ∷ 0
            ∷ shown filter (string_counted m f.long_description 0x8000000 59)
            ∷ 0
            ∷ shown filter (string_counted m f.creator 0x1 39)
            ∷ shown filter (string_counted m f.genre 0x400 39)
            ∷ shown filter (string_counted m f.album 0x200 39)
            ∷ 0
            ∷ 0
            ∷ 0
            ∷ 0
            ∷ 0
            ∷ 0
            ∷ shown filter (string_counted m f.episode_number 0x1000000 55)
            ∷ shown filter (string_counted m f.episode_season 0x2000000 55)
            ∷ shown filter (string_counted m f.episode_type 0x4000000 51)
            ∷ shown filter (string_counted m f.actor 0x10000000 39)
            ∷ 0
            ∷ 0
            ∷ shown filter (string_counted m f.album_art_uri 0x20000000 142)
            ∷ [])
          (
            absent _ _,
            (
              absent _ _,
              (
                string_piece-shown m filter p f.channel_id 18 (codes "upnp:channelID") 48
                    (omega arith) (omega arith) w,
                (
                  string_piece-shown m filter p f.channel_nr 16 (codes "upnp:channelNr") 47
                      (omega arith) (omega arith) w,
                  (
                    string_piece-shown m filter p f.channel_name 17 (codes "upnp:channelName") 51
                        (omega arith) (omega arith) w,
                    (
                      absent _ _,
                      (
                        absent _ _,
                        (
                          absent _ _,
                          (
                            string_piece-shown m filter p f.long_description 27
                                (codes "upnp:longDescription") 59 (omega arith) (omega arith) w,
                            (
                              absent _ _,
                              (
                                string_piece-shown m filter p f.creator 0 (codes "dc:creator") 39
                                    (omega arith) (omega arith) w,
                                (
                                  string_piece-shown m filter p f.genre 10 (codes "upnp:genre") 39
                                      (omega arith) (omega arith) w,
                                  (
                                    string_piece-shown m filter p f.album 9 (codes "upnp:album") 39
                                        (omega arith) (omega arith) w,
                                    (
                                      absent _ _,
                                      (
                                        absent _ _,
                                        (
                                          absent _ _,
                                          (
                                            absent _ _,
                                            (
                                              absent _ _,
                                              (
                                                absent _ _,
                                                (
                                                  string_piece-shown m filter p f.episode_number 24
                                                      (codes "upnp:episodeNumber") 55 (omega arith)
                                                      (omega arith) w,
                                                  (
                                                    string_piece-shown m filter p f.episode_season
                                                        25 (codes "upnp:episodeSeason") 55
                                                        (omega arith) (omega arith) w,
                                                    (
                                                      string_piece-shown m filter p f.episode_type
                                                          26 (codes "upnp:episodeType") 51
                                                          (omega arith) (omega arith) w,
                                                      (
                                                        string_piece-shown m filter p f.actor 28
                                                            (codes "upnp:actor") 39 (omega arith)
                                                            (omega arith) w,
                                                        (
                                                          absent _ _,
                                                          (
                                                            absent _ _,
                                                            (
                                                            art_piece-shown m filter p
                                                            f.album_art_uri w,
                                                            tt,
                                                            ),
                                                          ),
                                                        ),
                                                      ),
                                                    ),
                                                  ),
                                                ),
                                              ),
                                            ),
                                          ),
                                        ),
                                      ),
                                    ),
                                  ),
                                ),
                              ),
                            ),
                          ),
                        ),
                      ),
                    ),
                  ),
                ),
              ),
            ),
          ),
    )
