-- ===== src/Server/Tests.antt =====
-- MicroMediaServer.c, run on concrete paths and digits.
use tv_now.Common.{
  ◌≡◌, ◌≢◌, refl, ap, inr, none, some, true, false, [], Bytes, codes, Lacks, length, arith,
}
use tv_now.Server.Hex.{get_char_from_hex, get_char_from_hex-digit}
use tv_now.Server.Paths.{get_file_extension, get_parent_path, get_file_name}
use tv_now.Server.Paths.Parts.{get_parent_path-get_file_name}

abbrev name : Bytes
name = codes "b.c"

name_lem : name ≢ []
name_lem e = let n : 3 ≡ 0 = ap length e in omega (arith, n)

name-Lacks : Lacks b'/' name
name-Lacks = (λ e. omega (arith, e), (λ e. omega (arith, e), (λ e. omega (arith, e), tt)))

get_parent_path-get_file_name_run :
    (get_parent_path (codes "/a/b.c/") (codes "/") true ≡ codes "/a/")
    × (get_parent_path (codes "/a/b.c/") (codes "/") false ≡ codes "/a")
    × (get_file_name (codes "/a/b.c/") (codes "/") true ≡ some (codes "b.c"))
get_parent_path-get_file_name_run =
    get_parent_path-get_file_name b'/' (codes "/a") name (codes "/") name_lem name-Lacks (inr refl)

extension_test : get_file_extension (codes "/a.b/c.mp3") false ≡ some (codes ".mp3")
unfolding get_file_extension
extension_test = refl

no_extension_test : get_file_extension (codes "/a.b/c") false ≡ none
unfolding get_file_extension
no_extension_test = refl

get_char_from_hex-digit_run : (get_char_from_hex b'2' b'F' ≡ 47) × (get_char_from_hex b'2' b'f' ≡ 0)
get_char_from_hex-digit_run = get_char_from_hex-digit 47 (omega arith)
