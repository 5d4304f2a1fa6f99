-- ===== src/Server/Paths.antt =====
-- MicroMediaServer.c: `GetFileExtension`, `GetLastIndexOfParentPath`, `GetParentPath` and
-- `GetFileName`. A deep copy is the text that is copied.
pub mod Parts
use tv_now.Common.{
  ℕ, zero, suc, ◌+◌, ◌-◌, Bool, true, false, not, ◌&&◌, ◌||◌, Option, none, some, [], ◌∷◌, Bytes,
  codes, ltb, leb, ◌==◌, if◌then◌else◌, length, take, drop, starts,
}
use tv_now.Common.Int.{ℤ, pos, negsuc, sub_ℕ}
use tv_now.MyString.Affix.{ends_with}
use tv_now.MyString.Search.{last_index_of}

-- The byte at an index; behind the end it is the NUL.
byte_at : Bytes → ℕ → ℕ
byte_at [] i = 0
byte_at (c ∷ s) zero = c
byte_at (c ∷ s) (suc i) = byte_at s i

-- The loop of `GetFileExtension`, from the index below `i` down.
extension_loop : Bytes → Bool → ℕ → Option Bytes
extension_loop path return_copy zero = none
extension_loop path return_copy (suc i) =
    let c = byte_at path i in
    let rest = extension_loop path return_copy i in
    if c == b'\\' || c == b'/'
    then none
    else if c == b'.'
    then some (if return_copy then path else drop i path)
    else rest

unfoldable pub get_file_extension : Bytes → Bool → Option Bytes
unfolding extension_loop byte_at
get_file_extension path return_copy = extension_loop path return_copy (length path)

-- What the inner loop of `GetLastIndexOfParentPath` finds at `i`: the whole delimiter, which has a
-- byte, and something behind it.
pub is_parent_end : Bytes → Bytes → ℕ → Bool
unfolding starts
is_parent_end path [] i = false
is_parent_end path (a ∷ d) i =
    starts (a ∷ d) (drop i path) && ltb (i + length (a ∷ d)) (length path)

-- Its outer loop, from `i` down, to the index at which the delimiter was found.
pub parent_loop : Bytes → Bytes → ℕ → Option ℕ
parent_loop path d zero = if is_parent_end path d 0 then some 0 else none
parent_loop path d (suc i) =
    let rest = parent_loop path d i in if is_parent_end path d (suc i) then some (suc i) else rest

-- The result `len - 1`, or -1, and one more: the length of the parent path.
unfoldable pub parent_length : Bytes → Bytes → Bool → ℕ
unfolding parent_loop is_parent_end
parent_length path d include = elim (parent_loop path d (length path)) [
  | none ↦ 0
  | some i ↦ if include then i + length d else i
]

unfoldable pub get_last_index_of_parent_path : Bytes → Bytes → Bool → ℤ
unfolding parent_length
get_last_index_of_parent_path path d include = sub_ℕ (parent_length path d include) 1

unfoldable pub get_parent_path : Bytes → Bytes → Bool → Bytes
unfolding parent_length
get_parent_path path d include = take (parent_length path d include) path

-- The index at which the name ends; `start` is `pos + 1`.
name_end : Bytes → ℕ → Bool → ℕ
name_end path start true = length path
name_end path start false = elim (last_index_of path (codes ".")) [
  | pos dot ↦ if leb start (dot + 1) then dot else length path
  | negsuc n ↦ length path
]

without_delimiter : Bytes → Bytes → Bytes
without_delimiter name d =
    if ends_with name d false then take (length name - length d) name else name

-- `none` is the store in front of the buffer where the dot is the delimiter itself.
unfoldable pub get_file_name : Bytes → Bytes → Bool → Option Bytes
unfolding parent_length name_end without_delimiter
get_file_name path d return_extension =
    let start = parent_length path d true in
    let end = name_end path start return_extension in
    if ltb end start
    then none
    else some (without_delimiter (take (end - start) (drop start path)) d)
