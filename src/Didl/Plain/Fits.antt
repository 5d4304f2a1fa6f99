-- ===== src/Didl/Plain/Fits.antt =====
-- CdsObjectToDidl.c: the text of a media object in the buffer of its counted size.
use tv_now.Common.{
  ℕ, zero, suc, ◌+◌, ◌%◌, ◌≤◌, ◌<◌, ◌≡◌, refl, inl, inr, Bool, true, false, ◌||◌, Option, none,
  some, List, [], ◌∷◌, ◌++◌, Bytes, length, length-append, All, ltb, leb, if◌then◌else◌, get_elem?,
  Option-cases, ◌>>=◌, arith,
}
use tv_now.Common.Int.{pos}
use tv_now.Common.Masks.{bit_and-1, bit_and-2}
use tv_now.Media.Class.{
  indices, class_text, part, class_object_type, class_major_type, class_minor1_type,
  class_minor2_type,
}
use tv_now.Didl.Object.{has_bits, is_container, is_item}
use tv_now.Didl.Count.{count_object, class_length, table_length, object_error}
use tv_now.Didl.Print.{made, finish, header, footer, print_object, get_media_object_didl_escaped}
use tv_now.Didl.Resources.{IsSized}
use tv_now.Didl.Plain.{PlainObject, media_object}
use tv_now.Didl.Plain.Counted.{count_object_lem}
use tv_now.Didl.Plain.Printed.{print_object_lem}

some_inj : (a b : ℕ) → some a ≡ some b → a ≡ b
some_inj a b h = cc

entry_lem :
    (table : List Bytes) (i n : ℕ)
    → table_length table i ≡ some n
    → (t : Bytes) × (get_elem? table i ≡ some t) × (length t ≡ n)
unfolding table_length
entry_lem table i n h = elim (Option-cases (get_elem? table i)) [
  | inl out ↦ absurd (let h' = rw (out, table_length) at h in cc)
  | inr (t, e) ↦ (t, e, some_inj _ _ (rw (e, table_length) at h))
]

part_lem :
    (table : List Bytes) (i n : ℕ)
    → table_length table i ≡ some n
    → (t : Bytes) × (part table i ≡ some t) × (length t ≤ n + 1)
unfolding part
part_lem table zero n h = ([], refl, omega arith)
part_lem table (suc i) n h =
    let (t, e, l) = entry_lem table (suc i) n h in (b'.' ∷ t, rw e (ground arith), omega arith)

-- The four lengths of a sum.
four_lengths :
    (x y z w : Option ℕ) (n : ℕ)
    → (x >>= (λ a. y >>= (λ b. z >>= (λ c. w >>= (λ d. some (a + b + c + d)))))) ≡ some n
    → (a : ℕ) × (b : ℕ) × (c : ℕ) × (d : ℕ) × (x ≡ some a)
      × (y ≡ some b)
      × (z ≡ some c)
      × (w ≡ some d)
      × (some (a + b + c + d) ≡ some n)
four_lengths none y z w n h = cc
four_lengths (some a) none z w n h = cc
four_lengths (some a) (some b) none w n h = cc
four_lengths (some a) (some b) (some c) none n h = cc
four_lengths (some a) (some b) (some c) (some d) n h = (a, b, c, d, refl, refl, refl, refl, h)

entry_below : (xs : List Bytes) (i : ℕ) (x : Bytes) → get_elem? xs i ≡ some x → i < length xs
entry_below [] i x h = cc
entry_below (y ∷ xs) zero x h = omega arith
entry_below (y ∷ xs) (suc i) x h = omega (arith, entry_below xs i x h)

pub class_lem :
    (code n : ℕ)
    → class_length code ≡ some n
    → (code % 4 < 3) × ((t : Bytes) × (class_text code ≡ some t) × (length t ≤ n + 3))
unfolding class_length class_text indices
class_lem code n h =
    let (a, b, c, d, ea, eb, ec, ed, e) = four_lengths _ _ _ _ n h in
    let (s, es, ls) = entry_lem class_object_type (indices code).object_type a ea in
    let (t, et, lt) = part_lem class_major_type (indices code).major b eb in
    let (u, eu, lu) = part_lem class_minor1_type (indices code).minor1 c ec in
    let (v, ev, lv) = part_lem class_minor2_type (indices code).minor2 d ed in
    (
      entry_below class_object_type (code % 4) s es,
      (
        s ++ (t ++ (u ++ v)),
        rw (es, et, eu, ev) refl,
        omega (
          arith,
          length-append s (t ++ (u ++ v)),
          length-append t (u ++ v),
          length-append u v,
          some_inj _ _ e,
        ),
      ),
    )

object_type_lem : (f : PlainObject) → object_error (media_object f) ≡ pos 0 → 1 ≤ f.media_class % 4
unfolding object_error indices
object_type_lem f h = ground arith

-- An object with a valid class that stands in the tables is a container or an item.
kind_lem :
    (f : PlainObject) (n : ℕ)
    → object_error (media_object f) ≡ pos 0
    → class_length f.media_class ≡ some n
    → (is_container (media_object f) || is_item (media_object f)) ≡ true
unfolding is_container is_item has_bits
kind_lem f n h k =
    let low = object_type_lem f h in
    let high = (class_lem f.media_class n k).0 in
    ground (arith, bit_and-1 f.media_class, bit_and-2 f.media_class)

not_ltb : (a b : ℕ) → b ≤ a → ltb a b ≡ false
not_ltb a b h = ground arith

not_leb : (a b : ℕ) → b < a → leb a b ≡ false
not_leb a b h = ground arith

ends_size :
    (b : Bool)
    → length (if b then header else []) + length (if b then footer else []) ≡ (if b then 217 else 0)
ends_size true = refl
ends_size false = refl

finish_lem :
    (with_header : Bool) (size : ℕ) (text : Bytes)
    → length text + (if with_header then 217 else 0) < size
    → (t : Bytes) × (n : ℕ) × (finish with_header size text ≡ made t n)
      × (length t < size)
      × (length t ≡ n + length (if with_header then footer else []))
unfolding finish
finish_lem with_header size text h =
    let front = if with_header then header else [] in
    let behind = if with_header then footer else [] in
    let n = length front + length text in
    let ends = ends_size with_header in
    let all : length (front ++ (text ++ behind)) ≡ n + length behind =
      omega (arith, length-append front (text ++ behind), length-append text behind) in
    (
      front ++ (text ++ behind),
      n,
      rw (not_ltb (size + 128) (n + length behind + 1) (omega arith), not_leb size n (omega arith))
          refl,
      omega arith,
      all,
    )

-- For a valid object of a class in the tables, of whose other fields at most the reference, creator, album, genre, album
-- art, long description, channel ID, number and name, episode type, season and number, actor, child count, flags and
-- resources are set, and no resource with a vertical resolution of 0, for every filter and while `timeString` holds
-- at most 17 bytes at first, `CdsToDidl_GetMediaObjectDidlEscaped` returns a text, which is shorter than the size
-- that was counted, without the 128 bytes to spare; what it reports as its length is the length of the text
-- without the footer. Unset are `Recordable` (negative) and the EPG and service providers, call sign, network
-- affiliation, program and series ID, rating, language, dates and times.
pub get_media_object_didl_escaped-media_object :
    (m : Bool) (filter : ℕ) (with_header : Bool) (date_text : ℕ → Bytes) (stale : Bytes)
    (f : PlainObject) (class : ℕ)
    → object_error (media_object f) ≡ pos 0
    → class_length f.media_class ≡ some class
    → All IsSized f.res
    → length stale ≤ 17
    → (text : Bytes) × (n : ℕ) × (get_media_object_didl_escaped m filter with_header date_text stale
          (media_object f)
        ≡ made text n)
      × (length text < (count_object m filter with_header (media_object f) class).size)
      × (length text ≡ n + length (if with_header then footer else []))
unfolding get_media_object_didl_escaped
get_media_object_didl_escaped-media_object m filter with_header date_text stale f class valid known
      sized short =
    let s = count_object m filter with_header (media_object f) class in
    let (t, et, lt) = (class_lem f.media_class class known).1 in
    let (e, w) = count_object_lem m filter with_header f class (kind_lem f class valid known) in
    let printed =
      print_object_lem m filter s.print_these date_text stale t f class sized short w lt in
    rw (valid, known, et)
      (finish_lem with_header s.size
        (print_object m filter s.print_these date_text stale t (media_object f)) (omega arith))
