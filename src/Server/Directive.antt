-- ===== src/Server/Directive.antt =====
-- MicroMediaServer.c: how `HandleWebRequest` turns the directive of a request into a local path. The
-- directive ends with a NUL, which is what is read behind its end.
pub mod RoundTrip
pub mod Tests
use tv_now.Common.{
  ℕ, zero, suc, ◌+◌, ◌-◌, ◌*◌, Bool, true, false, not, ◌&&◌, List, [], ◌∷◌, ◌++◌, map, Option, none,
  some, Bytes, ◌==◌, ltb, if◌then◌else◌, length, drop,
}
use tv_now.Server.Hex.{get_char_from_hex}

-- The directive without a trailing slash.
unfoldable pub without_slash : Bytes → Bytes
without_slash [] = []
without_slash (c ∷ []) = if c == b'/' then [] else c ∷ []
without_slash (c ∷ d ∷ s) = c ∷ without_slash (d ∷ s)

-- The loop from the escaped directive to the unescaped one, at `dj`.
unfoldable pub unescape : Bytes → Bytes
unfolding get_char_from_hex
unescape [] = []
unescape (c ∷ []) = c ∷ []
unescape (c ∷ a ∷ []) = c ∷ a ∷ []
unescape (c ∷ a ∷ b ∷ s) =
    let r = get_char_from_hex a b in
    let escaped = unescape s in
    let copied = unescape (a ∷ b ∷ s) in
    if c == b'%' && not (r == 0) then r ∷ escaped else c ∷ copied

-- What is stored for a `/`: every byte of the delimiter goes to the same place, and the others of
-- its places keep what the memory held, which is `none`.
unfoldable pub put_delimiter : Bytes → List (Option ℕ)
put_delimiter [] = []
put_delimiter (d ∷ []) = some d ∷ []
put_delimiter (d ∷ e ∷ ds) = put_delimiter (e ∷ ds) ++ none ∷ []

-- The loop that appends to the root; an unescaped directive holds no NUL.
unfoldable pub append_path : Bytes → Bytes → List (Option ℕ)
unfolding put_delimiter
append_path delimiter [] = []
append_path delimiter (c ∷ s) =
    (if c == b'/' then put_delimiter delimiter else some c ∷ []) ++ append_path delimiter s

-- `fullPath` without its closing NUL; none for a directive that ends before the path of the
-- virtual directory, where the loop reads behind it.
unfoldable pub full_path : Bytes → Bytes → ℕ → Bytes → Option (List (Option ℕ))
unfolding append_path
full_path root delimiter vir_dir_len directive =
    if ltb (length directive) (vir_dir_len + 2)
    then none
    else some (map some root ++ append_path delimiter (drop (vir_dir_len + 2) directive))

-- The slashes that are counted, and `fpBufLen`.
unfoldable pub slash_count : Bytes → ℕ
slash_count [] = 0
slash_count (c ∷ s) = (if c == b'/' then 1 else 0) + slash_count s

unfoldable pub path_size : Bytes → Bytes → Bytes → ℕ
unfolding slash_count
path_size root delimiter directive =
    length root + length directive + slash_count directive * length delimiter + 1
