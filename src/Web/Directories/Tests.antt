-- ===== src/Web/Directories/Tests.antt =====
-- A virtual directory of an empty table.
use tv_now.Common.{◌≡◌, ◌≢◌, refl, ap, none, [], codes, length, arith}
use tv_now.Parsers.HashTree.{has_entry, find_entry}
use tv_now.Web.Directories.{
  VirDirData, Restored, un_register-register, un_register_virtual_directory,
}

abbrev content : VirDirData
content = record { callback = 1; user = 2 }

name_lem : codes "/content" ≢ []
name_lem e = let n : 8 ≡ 0 = ap length e in omega (arith, n)

un_register-register_example : Restored none (codes "/content") content
unfolding has_entry find_entry
un_register-register_example =
    un_register-register none (codes "/content") content name_lem (tt, tt) refl

-- Before the first registration there is no table to look into.
null_test : un_register_virtual_directory none (codes "/content") ≡ none
unfolding un_register_virtual_directory
null_test = refl
