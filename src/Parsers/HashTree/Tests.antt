-- ===== src/Parsers/HashTree/Tests.antt =====
-- The table, run on concrete keys.
use tv_now.Common.{
  false, ℕ, ◌≡◌, ◌≢◌, refl, ap, none, some, List, [], ◌∷◌, Bytes, codes, arith, equal,
  if◌then◌else◌, true, length,
}
use tv_now.Parsers.HashTree.{
  HashNode, get_hash_value, find_entry, is_entry, get_entry, has_entry, add_entry, delete_entry,
}
use tv_now.Parsers.HashTree.Laws.{WellFormed}
use tv_now.Parsers.HashTree.Has.{has_entry-changed}
use tv_now.Parsers.HashTree.Map.{add_entry-get_entry, delete_entry-get_entry}

abbrev path : Bytes
path = codes "/content"

abbrev one_node : List (HashNode ℕ)
one_node =
    record { key_hash = get_hash_value path; key_value = path; key_length = 8; data_ptr = some 1 }
    ∷ []

one_node-WellFormed : WellFormed one_node
one_node-WellFormed = (((refl, refl), tt), (tt, tt))

event_lem : codes "/event" ≢ []
event_lem e = let n : 6 ≡ 0 = ap length e in omega (arith, n)

add_entry-get_entry_example :
    (tree' : List (HashNode ℕ)) × (add_entry one_node (codes "/event") (some 2) ≡ some tree')
    × WellFormed tree'
    × ((k : Bytes)
        → get_entry tree' k ≡ (if equal k (codes "/event") then some 2 else get_entry one_node k))
add_entry-get_entry_example =
    add_entry-get_entry one_node (codes "/event") (some 2) event_lem one_node-WellFormed

delete_entry-get_entry_example :
    WellFormed (delete_entry one_node path)
    × ((k : Bytes)
        → get_entry (delete_entry one_node path) k
          ≡ (if equal k path then none else get_entry one_node k))
delete_entry-get_entry_example = delete_entry-get_entry one_node path one_node-WellFormed

has_entry_test : has_entry one_node path ≡ true
unfolding has_entry get_hash_value equal find_entry is_entry
has_entry_test = refl

has_entry_run :
    ((tree' : List (HashNode ℕ)) × (add_entry one_node (codes "/event") (some 2) ≡ some tree')
      × (has_entry tree' (codes "/event") ≡ true))
    × (has_entry (delete_entry one_node (codes "/event")) (codes "/event") ≡ false)
has_entry_run = has_entry-changed one_node (codes "/event") (some 2) event_lem one_node-WellFormed
