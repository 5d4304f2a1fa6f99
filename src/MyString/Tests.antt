-- ===== src/MyString/Tests.antt =====
-- MyString.c, run on concrete texts.
use tv_now.Common.{◌≡◌, refl, ◌↔◌, true, false, [], ◌∷◌, ◌++◌, List, ℕ, Bytes, codes, arith, All}
use tv_now.Common.Int.{pos}
use tv_now.MyString.Affix.{ends_with, starts_with, folded, starts_with_iff, ends_with_iff}
use tv_now.MyString.Search.{
  index_of, last_index_of, IsFirstIndex, IsLastIndex, index_of-IsFirstIndex,
  last_index_of-IsLastIndex,
}
use tv_now.MyString.Decode.{done, out_of_range}
use tv_now.MyString.Encode.{convert, str_utf8_len}
use tv_now.MyString.Encode.Sizes.{Fits, IsSized, IsBytes, convert-Fits, convert-str_utf8_len}
use tv_now.MyString.Encode.Wide.{recode, recode_short, recode_long, IsShort, wide_array}

abbrev name : Bytes
name = codes "Holiday.MP3"

abbrev mp3 : Bytes
mp3 = codes ".mp3"

starts_with_run :
    (starts_with name (codes "holi") true ≡ true)
    ↔ ((rest : Bytes) × (folded true name ≡ folded true (codes "holi") ++ rest))
starts_with_run = starts_with_iff name (codes "holi") true

ends_with_run :
    (ends_with name mp3 true ≡ true)
    ↔ ((front : Bytes) × (folded true name ≡ front ++ folded true mp3))
ends_with_run = ends_with_iff name mp3 true

index_of_run : IsFirstIndex (codes "a/b/c") (codes "/") (index_of (codes "a/b/c") (codes "/"))
index_of_run = index_of-IsFirstIndex (codes "a/b/c") (codes "/")

last_index_of_run :
    IsLastIndex (codes "a/b/c") (codes "/") (last_index_of (codes "a/b/c") (codes "/"))
last_index_of_run = last_index_of-IsLastIndex (codes "a/b/c") (codes "/")

index_of_test : index_of (codes "a/b/c") (codes "/") ≡ pos 1
unfolding index_of
index_of_test = refl

last_index_of_test : last_index_of (codes "a/b/c") (codes "/") ≡ pos 3
unfolding last_index_of
last_index_of_test = refl

ends_with_test : ends_with name mp3 true ≡ true
unfolding ends_with
ends_with_test = refl

convert-Fits_run : Fits 4 (convert (codes "Holiday" ++ 0 ∷ []) 4 false false)
convert-Fits_run = convert-Fits (codes "Holiday" ++ 0 ∷ []) 4 false false (omega arith)

abbrev wide_text : List ℕ
wide_text = 0x41 ∷ 0xE9 ∷ []

wide_text-IsBytes : IsBytes (wide_array wide_text)
wide_text-IsBytes =
    (omega arith, (omega arith, (omega arith, (omega arith, (omega arith, (omega arith, tt))))))

wide_text_len : str_utf8_len (wide_array wide_text) true false ≡ done 4
unfolding str_utf8_len
wide_text_len = refl

convert-str_utf8_len_run : IsSized 4 (convert (wide_array wide_text) 5 true false)
convert-str_utf8_len_run =
    convert-str_utf8_len (wide_array wide_text) 5 4 true wide_text-IsBytes wide_text_len
      (omega arith)

wide_text-IsShort : All IsShort wide_text
wide_text-IsShort = ((omega arith, omega arith), ((omega arith, omega arith), tt))

recode_short_example : recode 3 8 3 wide_text ≡ done wide_text
recode_short_example =
    recode_short wide_text 3 8 3 wide_text-IsShort (omega arith) (omega arith) (omega arith)

recode_long_run : recode 4 11 4 (wide_text ++ 0x20AC ∷ []) ≡ out_of_range
recode_long_run =
    recode_long wide_text 0x20AC 4 11 4 wide_text-IsShort (omega arith, omega arith) (omega arith)
      (omega arith) (omega arith)
