-- ===== src/Parsers/HashTree/Map.antt =====
-- What the operations of the table promise.
use tv_now.Common.{
  ◌≡◌, ◌≢◌, refl, Option, none, some, List, [], ◌∷◌, Bytes, All, if◌then◌else◌, equal,
}
use tv_now.Parsers.HashTree.{HashNode, get_entry, add_loop, add_entry, delete_loop, delete_entry}
use tv_now.Parsers.HashTree.Laws.{
  Stamped, WellFormed, lookup, get_entry-lookup, lookup-add_loop, lookup-delete_loop, All-add_loop,
  All-delete_loop, Distinct-add_loop, Distinct-delete_loop,
}

module _ {ℓ} {V : Type ℓ} where
  get_entry-agrees :
      (tree tree' : List (HashNode V)) (key : Bytes)
      → All Stamped tree
      → All Stamped tree'
      → (e : Option V) → ((k : Bytes) → lookup tree' k ≡ (if equal k key then e else lookup tree k))
      → (b : _) (s k : Bytes) → key ≡ b ∷ s
      → get_entry tree' k ≡ (if equal k key then e else get_entry tree k)
  unfolding get_entry equal
  get_entry-agrees tree tree' key h h' e same b s [] ek = rw ek refl
  get_entry-agrees tree tree' key h h' e same b s (c ∷ k) ek =
      rw (get_entry-lookup tree (c ∷ k) h, get_entry-lookup tree' (c ∷ k) h') (same (c ∷ k))

  -- `ILibAddEntry` with a key that is not empty succeeds on a well-formed table, keeps it
  -- well-formed, and changes what `ILibGetEntry` finds under that key, to the value, and under no
  -- other.
  pub add_entry-get_entry :
      (tree : List (HashNode V)) (key : Bytes) (value : Option V)
      → key ≢ []
      → WellFormed tree
      → (tree' : List (HashNode V)) × (add_entry tree key value ≡ some tree')
        × WellFormed tree'
        × ((k : Bytes) → get_entry tree' k ≡ (if equal k key then value else get_entry tree k))
  unfolding add_entry
  add_entry-get_entry tree [] value h w = absurd (h refl)
  add_entry-get_entry tree (b ∷ key) value h (hs, hd) =
      let tree' = add_loop tree (b ∷ key) value in
      let hs' = All-add_loop Stamped tree (b ∷ key) value (refl, refl) (λ n x. x) hs in
      (
        tree',
        refl,
        (hs', Distinct-add_loop tree (b ∷ key) value hs hd),
        λ k.
            get_entry-agrees tree tree' (b ∷ key) hs hs' value
              (λ k'. lookup-add_loop tree (b ∷ key) k' value hs) b key k refl,
      )

  nothing :
      (tree : List (HashNode V)) (k : Bytes)
      → get_entry tree k ≡ (if equal k [] then none else get_entry tree k)
  unfolding get_entry equal
  nothing tree [] = refl
  nothing tree (c ∷ k) = refl

  -- `ILibDeleteEntry` keeps a well-formed table well-formed, and `ILibGetEntry` then finds nothing
  -- under that key, and what it found before under every other.
  pub delete_entry-get_entry :
      (tree : List (HashNode V)) (key : Bytes)
      → WellFormed tree
      → WellFormed (delete_entry tree key)
        × ((k : Bytes)
            → get_entry (delete_entry tree key) k
              ≡ (if equal k key then none else get_entry tree k))
  unfolding delete_entry
  delete_entry-get_entry tree [] w = (w, nothing tree)
  delete_entry-get_entry tree (b ∷ key) (hs, hd) =
      let tree' = delete_loop tree (b ∷ key) in
      let hs' = All-delete_loop Stamped tree (b ∷ key) hs in
      (
        (hs', Distinct-delete_loop tree (b ∷ key) hd),
        λ k.
            get_entry-agrees tree tree' (b ∷ key) hs hs' none
              (λ k'. lookup-delete_loop tree (b ∷ key) k' hs hd) b key k refl,
      )
