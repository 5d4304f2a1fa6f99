-- ===== src/Web/Directories.antt =====
-- libIWeb/ILibWebServer.c: `ILibWebServer_RegisterVirtualDirectory` and
-- `ILibWebServer_UnRegisterVirtualDirectory`, on the table of `Parsers.HashTree`. The table is `none`
-- while it is NULL; a result of `none` is an access through a NULL.
pub mod Tests
use tv_now.Common.{
  ℕ, Bool, true, false, List, [], Option, none, some, ◌>>=◌, ◌≡◌, ◌≢◌, refl, sym, ap, ◌∙◌, Bytes,
  if◌then◌else◌, if_true, if_false, equal, equal_refl, equal_sound, Bool-cases, inl, inr,
}
use tv_now.Parsers.HashTree.{HashNode, has_entry, get_entry, add_entry, delete_entry}
use tv_now.Parsers.HashTree.Laws.{WellFormed}
use tv_now.Parsers.HashTree.Has.{has_entry-changed, has_entry-get_entry}
use tv_now.Parsers.HashTree.Map.{add_entry-get_entry, delete_entry-get_entry}

-- `struct ILibWebServer_VirDir_Data`.
pub record VirDirData : Type 0 where
  pub callback : ℕ
  pub user : ℕ

abbrev pub Table : Type 0
Table = List (HashNode VirDirData)

abbrev pub table_of : Option Table → Table
table_of none = []
table_of (some t) = t

unfoldable pub register_virtual_directory : Option Table → Bytes → VirDirData → Option (Table × ℕ)
register_virtual_directory table vd datum =
    if has_entry (table_of table) vd
    then some (table_of table, 1)
    else add_entry (table_of table) vd (some datum) >>= λ t. some (t, 0)

unfoldable pub un_register_virtual_directory : Option Table → Bytes → Option (Table × ℕ)
un_register_virtual_directory none vd = none
un_register_virtual_directory (some t) vd =
    if has_entry t vd then some (delete_entry t vd, 0) else some (t, 1)

-- The table after the one and then the other.
abbrev pub Restored : Option Table → Bytes → VirDirData → Type 0
Restored table vd datum =
    (t : Table) × (u : Table) × (register_virtual_directory table vd datum ≡ some (t, 0))
    × (un_register_virtual_directory (some t) vd ≡ some (u, 0))
    × WellFormed u
    × (get_entry t vd ≡ some datum)
    × ((k : Bytes) → get_entry u k ≡ get_entry (table_of table) k)

-- A virtual directory with a name that is not empty, which the table does not have, is registered with the
-- result 0 and then found; unregistering it gives 0, keeps the table well-formed, and every
-- directory is found as before.
pub un_register-register :
    (table : Option Table) (vd : Bytes) (datum : VirDirData)
    → vd ≢ []
    → WellFormed (table_of table)
    → has_entry (table_of table) vd ≡ false
    → Restored table vd datum
unfolding register_virtual_directory un_register_virtual_directory
un_register-register table vd datum nz w fresh =
    let tree = table_of table in
    let (t, added, wt, found) = add_entry-get_entry tree vd (some datum) nz w in
    let ((t2, added2, has), _) = has_entry-changed tree vd (some datum) nz w in
    let (wu, gone) = delete_entry-get_entry t vd wt in
    let same : t2 ≡ t = ap table_of (sym added2 ∙ added) in
    let has_it : has_entry t vd ≡ true = ap (λ x. has_entry x vd) (sym same) ∙ has in
    (
      t,
      delete_entry t vd,
      if_false (has_entry tree vd) _ _ fresh ∙ ap (λ o. o >>= λ x. some (x, 0)) added,
      if_true (has_entry t vd) _ _ has_it,
      wu,
      found vd ∙ if_true (equal vd vd) _ _ (equal_refl vd),
      λ k. gone k ∙ elim (Bool-cases (equal k vd)) [
        | inl e ↦
            if_true (equal k vd) _ _ e
            ∙ sym (ap (get_entry tree) (equal_sound k vd e) ∙ has_entry-get_entry tree vd fresh)
        | inr e ↦ if_false (equal k vd) _ _ e ∙ (found k ∙ if_false (equal k vd) _ _ e)
      ],
    )
