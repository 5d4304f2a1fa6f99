-- ===== src/Parsers/HashTree/Has.antt =====
-- Which keys the table has.
use tv_now.Common.{
  ◌≡◌, ◌≢◌, refl, true, false, Option, none, some, List, [], ◌∷◌, Bytes, All, Bool-cases, inl, inr,
  equal_refl, length, ==_refl, Option-cases, ap, sym, ◌∙◌, ◌>>=◌,
}
use tv_now.Parsers.HashTree.{
  HashNode, get_hash_value, is_entry, find_entry, has_entry, get_entry, add_loop, add_entry,
  delete_loop, delete_entry,
}
use tv_now.Parsers.HashTree.Laws.{
  Stamped, Distinct, WellFormed, is_entry-equal, equal_cases, equal_no,
}

module _ {ℓ} {V : Type ℓ} where
  is_entry_new :
      (key : Bytes) (n : HashNode V)
      → n.key_hash ≡ get_hash_value key
      → n.key_length ≡ length key
      → n.key_value ≡ key
      → is_entry key n ≡ true
  unfolding is_entry
  is_entry_new key n h l v =
      rw (h, l, v, ==_refl (get_hash_value key), ==_refl (length key), equal_refl key) refl

  is_entry_updated :
      (key : Bytes) (n : HashNode V) (value : Option V)
      → is_entry key (record n { data_ptr = value }) ≡ is_entry key n
  unfolding is_entry
  is_entry_updated key n value = refl

  find_entry-add_loop :
      (tree : List (HashNode V)) (key : Bytes) (value : Option V)
      → (n : HashNode V) × (find_entry (add_loop tree key value) key ≡ some n)
  unfolding find_entry add_loop
  find_entry-add_loop [] key value =
      let n : HashNode V = record {
        key_hash = get_hash_value key;
        key_value = key;
        key_length = length key;
        data_ptr = value;
      } in
      (n, rw (is_entry_new key n refl refl refl) refl)
  find_entry-add_loop (n ∷ ns) key value = elim (Bool-cases (is_entry key n)) [
    | inl found ↦
        (record n { data_ptr = value }, rw found (rw (is_entry_updated key n value, found) refl))
    | inr other ↦ let (m, e) = find_entry-add_loop ns key value in (m, rw other (rw other e))
  ]

  find_absent :
      (tree : List (HashNode V)) (key : Bytes)
      → All Stamped tree
      → All (λ m. m.key_value ≢ key) tree
      → find_entry tree key ≡ none
  unfolding find_entry
  find_absent [] key hs h = refl
  find_absent (n ∷ ns) key (hn, hs) (ne, h) =
      rw (is_entry-equal key n hn, equal_no n.key_value key ne) (find_absent ns key hs h)

  find_entry-delete_loop :
      (tree : List (HashNode V)) (key : Bytes)
      → All Stamped tree
      → Distinct tree
      → find_entry (delete_loop tree key) key ≡ none
  unfolding find_entry delete_loop
  find_entry-delete_loop [] key hs h = refl
  find_entry-delete_loop (n ∷ ns) key (hn, hs) (hd, h) =
      rw (is_entry-equal key n hn) (elim (equal_cases n.key_value key) [
        | inl (e, t) ↦ rw t (find_absent ns key hs (rw e at hd))
        | inr (ne, t) ↦ rw t (rw (is_entry-equal key n hn, t) (find_entry-delete_loop ns key hs h))
      ])

  -- After `ILibAddEntry` with a key that is not empty `ILibHasEntry` finds the key, and after
  -- `ILibDeleteEntry` on a well-formed table it does not.
  pub has_entry-changed :
      (tree : List (HashNode V)) (key : Bytes) (value : Option V)
      → key ≢ []
      → WellFormed tree
      → ((tree' : List (HashNode V)) × (add_entry tree key value ≡ some tree')
          × (has_entry tree' key ≡ true))
        × (has_entry (delete_entry tree key) key ≡ false)
  unfolding has_entry add_entry delete_entry
  has_entry-changed tree [] value h w = absurd (h refl)
  has_entry-changed tree (b ∷ key) value h (hs, hd) =
      let (n, e) = find_entry-add_loop tree (b ∷ key) value in
      (
        (add_loop tree (b ∷ key) value, refl, rw (e, has_entry) refl),
        rw (find_entry-delete_loop tree (b ∷ key) hs hd, has_entry) refl,
      )

  -- What the table does not have is not found.
  pub has_entry-get_entry :
      (tree : List (HashNode V)) (key : Bytes)
      → has_entry tree key ≡ false
      → get_entry tree key ≡ none
  unfolding has_entry get_entry
  has_entry-get_entry tree [] h = refl
  has_entry-get_entry tree (b ∷ key) h = elim (Option-cases (find_entry tree (b ∷ key))) [
    | inl e ↦ ap (λ o. o >>= λ node. node.data_ptr) e
    | inr (n, e) ↦
        absurd (
          let t : true ≡ false = sym (ap (λ o. elim o [ none ↦ false | some m ↦ true ]) e) ∙ h in
          cc)
  ]
