-- ===== src/Server/Directive/Tests.antt =====
-- Directives of requests, run on short ones.
use tv_now.Common.{
  ℕ, ◌+◌, ◌≤◌, Bool, ◌≡◌, refl, List, [], ◌∷◌, map, Option, none, some, codes, ◌==◌, length, arith,
}
use tv_now.Server.Directive.{
  without_slash, unescape, put_delimiter, append_path, full_path, path_size,
}
use tv_now.Server.Directive.RoundTrip.{escape, unescape-escape, full_path-path_size}

abbrev is_letter_a : ℕ → Bool
is_letter_a c = c == b'a'

escape_test : escape is_letter_a (codes "a/") ≡ codes "a%2F"
unfolding escape
escape_test = refl

unescape-escape_example : unescape (escape is_letter_a (codes "a/")) ≡ codes "a/"
unescape-escape_example =
    unescape-escape is_letter_a (codes "a/") refl
      ((omega arith, omega arith), ((omega arith, omega arith), tt))

slash_test : without_slash (codes "/d/") ≡ codes "/d"
unfolding without_slash
slash_test = refl

full_path-path_size_run :
    (path : List (Option ℕ)) × (full_path (codes "r/") (codes "/") 1 (codes "/d/x/y") ≡ some path)
    × (length path + 1 ≤ path_size (codes "r/") (codes "/") (codes "/d/x/y"))
full_path-path_size_run =
    full_path-path_size (codes "r/") (codes "/") 1 (codes "/d/x/y") (omega arith)

path_test : full_path (codes "r/") (codes "/") 1 (codes "/d/x/y") ≡ some (map some (codes "r/x/y"))
unfolding full_path append_path put_delimiter
path_test = refl

-- Of a delimiter of two bytes only the second is stored.
delimiter_test : full_path [] (codes "ab") 0 (codes "/d/") ≡ some (some b'b' ∷ none ∷ [])
unfolding full_path append_path put_delimiter
delimiter_test = refl
