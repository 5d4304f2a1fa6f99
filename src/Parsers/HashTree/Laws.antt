-- ===== src/Parsers/HashTree/Laws.antt =====
-- The table is a map from the keys that are not empty.
use tv_now.Common.{
  ◌≡◌, ◌≢◌, ◌∙◌, ◌⊎◌, refl, sym, ap, true, false, Option, none, List, [], ◌∷◌, Bytes, All,
  Bool-cases, inl, inr, if◌then◌else◌, length, equal, equal_refl, equal_sound, arith, ==_refl,
  ◌>>=◌,
}
use tv_now.Parsers.HashTree.{HashNode, get_hash_value, is_entry, find_entry, add_loop, delete_loop}

pub equal_cases : (a b : Bytes) → ((a ≡ b) × (equal a b ≡ true)) ⊎ ((a ≢ b) × (equal a b ≡ false))
equal_cases a b = elim (Bool-cases (equal a b)) [
  | inl same ↦ inl (equal_sound a b same, same)
  | inr other ↦
      inr (λ e. let t : true ≡ false = sym (equal_refl a) ∙ (ap (equal a) e ∙ other) in cc, other)
]

pub equal_no : (a b : Bytes) → a ≢ b → equal a b ≡ false
equal_no a b h = elim (Bool-cases (equal a b)) [
  | inl same ↦ absurd (h (equal_sound a b same))
  | inr other ↦ other
]

module _ {ℓ} {V : Type ℓ} where
  -- A node holds its key's length and hash.
  abbrev pub Stamped : HashNode V → Type 0
  Stamped n = (n.key_hash ≡ get_hash_value n.key_value) × (n.key_length ≡ length n.key_value)

  -- No two nodes have the same key.
  abbrev pub Distinct : List (HashNode V) → Type 0
  Distinct [] = Unit
  Distinct (n ∷ ns) = All (λ m. m.key_value ≢ n.key_value) ns × Distinct ns

  abbrev pub WellFormed : List (HashNode V) → Type 0
  WellFormed tree = All Stamped tree × Distinct tree

  pub is_entry-equal :
      (key : Bytes) (n : HashNode V) → Stamped n → is_entry key n ≡ equal n.key_value key
  unfolding is_entry
  is_entry-equal key n (h, l) = elim (Bool-cases (equal n.key_value key)) [
    | inl same ↦
        let e = equal_sound n.key_value key same in
        rw (same, h, l, e, ==_refl (get_hash_value key), ==_refl (length key)) refl
    | inr other ↦ rw other (ground arith)
  ]

  -- The map that a table stands for.
  pub lookup : List (HashNode V) → Bytes → Option V
  lookup [] key = none
  lookup (n ∷ ns) key =
      let later = lookup ns key in if equal n.key_value key then n.data_ptr else later

  pub get_entry-lookup :
      (tree : List (HashNode V)) (key : Bytes)
      → All Stamped tree
      → (find_entry tree key >>= (λ n. n.data_ptr)) ≡ lookup tree key
  unfolding find_entry lookup
  get_entry-lookup [] key h = refl
  get_entry-lookup (n ∷ ns) key (hn, h) =
      rw (is_entry-equal key n hn) (elim (Bool-cases (equal n.key_value key)) [
        | inl same ↦ rw same refl
        | inr other ↦ rw other (get_entry-lookup ns key h)
      ])

  pub lookup-add_loop :
      (tree : List (HashNode V)) (key k : Bytes) (value : Option V)
      → All Stamped tree
      → lookup (add_loop tree key value) k ≡ (if equal k key then value else lookup tree k)
  unfolding add_loop lookup
  lookup-add_loop [] key k value h = elim (equal_cases k key) [
    | inl (e, t) ↦ rw (e, equal_refl key) refl
    | inr (ne, t) ↦ rw (t, equal_no key k (λ e. ne (sym e))) refl
  ]
  lookup-add_loop (n ∷ ns) key k value (hn, h) =
      rw (is_entry-equal key n hn) (elim (equal_cases n.key_value key) [
        | inl (e, t) ↦ rw t (elim (equal_cases k key) [
          | inl (e', t') ↦ rw (t', e, e', equal_refl key) refl
          | inr (ne, t') ↦ rw (t', equal_no n.key_value k (λ e'. ne (sym e' ∙ e))) refl
        ])
        | inr (ne, t) ↦
            rw (t, lookup-add_loop ns key k value h)
              (elim (equal_cases n.key_value k) [
                | inl (e', t') ↦ rw (t', equal_no k key (λ e''. ne (e' ∙ e''))) refl
                | inr (ne', t') ↦ rw t' refl
              ])
      ])

  pub All-add_loop :
      (P : HashNode V → Type 0) (tree : List (HashNode V)) (key : Bytes) (value : Option V)
      → P (record {
        key_hash = get_hash_value key;
        key_value = key;
        key_length = length key;
        data_ptr = value;
      })
      → ((n : HashNode V) → P n → P (record n { data_ptr = value }))
      → All P tree
      → All P (add_loop tree key value)
  unfolding add_loop
  All-add_loop P [] key value new old h = (new, tt)
  All-add_loop P (n ∷ ns) key value new old (hn, h) = elim (Bool-cases (is_entry key n)) [
    | inl found ↦ rw found (old n hn, h)
    | inr other ↦ rw other (hn, All-add_loop P ns key value new old h)
  ]

  pub Distinct-add_loop :
      (tree : List (HashNode V)) (key : Bytes) (value : Option V)
      → All Stamped tree
      → Distinct tree
      → Distinct (add_loop tree key value)
  unfolding add_loop
  Distinct-add_loop [] key value hs h = (tt, tt)
  Distinct-add_loop (n ∷ ns) key value (hn, hs) (hd, h) =
      rw (is_entry-equal key n hn) (elim (equal_cases n.key_value key) [
        | inl (e, t) ↦ rw t (hd, h)
        | inr (ne, t) ↦ rw t (
          All-add_loop (λ m. m.key_value ≢ n.key_value) ns key value (λ e. ne (sym e)) (λ m x. x)
              hd,
          Distinct-add_loop ns key value hs h,
        )
      ])

  lookup_absent :
      (tree : List (HashNode V)) (key k : Bytes)
      → k ≡ key
      → All (λ m. m.key_value ≢ key) tree
      → lookup tree k ≡ none
  unfolding lookup
  lookup_absent [] key k e h = refl
  lookup_absent (n ∷ ns) key k e (hn, h) =
      rw (equal_no n.key_value k (λ x. hn (x ∙ e))) (lookup_absent ns key k e h)

  pub lookup-delete_loop :
      (tree : List (HashNode V)) (key k : Bytes)
      → All Stamped tree
      → Distinct tree
      → lookup (delete_loop tree key) k ≡ (if equal k key then none else lookup tree k)
  unfolding delete_loop lookup
  lookup-delete_loop [] key k hs h = elim (Bool-cases (equal k key)) [
    | inl t ↦ rw t refl
    | inr t ↦ rw t refl
  ]
  lookup-delete_loop (n ∷ ns) key k (hn, hs) (hd, h) =
      rw (is_entry-equal key n hn) (elim (equal_cases n.key_value key) [
        | inl (e, t) ↦ rw t (elim (equal_cases k key) [
          | inl (e', t') ↦ rw t' (lookup_absent ns n.key_value k (e' ∙ sym e) hd)
          | inr (ne, t') ↦ rw (t', equal_no n.key_value k (λ e'. ne (sym e' ∙ e))) refl
        ])
        | inr (ne, t) ↦
            rw (t, lookup-delete_loop ns key k hs h)
              (elim (equal_cases n.key_value k) [
                | inl (e', t') ↦ rw (t', equal_no k key (λ e''. ne (e' ∙ e''))) refl
                | inr (ne', t') ↦ rw t' refl
              ])
      ])

  pub All-delete_loop :
      (P : HashNode V → Type 0) (tree : List (HashNode V)) (key : Bytes)
      → All P tree
      → All P (delete_loop tree key)
  unfolding delete_loop
  All-delete_loop P [] key h = tt
  All-delete_loop P (n ∷ ns) key (hn, h) = elim (Bool-cases (is_entry key n)) [
    | inl found ↦ rw found h
    | inr other ↦ rw other (hn, All-delete_loop P ns key h)
  ]

  pub Distinct-delete_loop :
      (tree : List (HashNode V)) (key : Bytes) → Distinct tree → Distinct (delete_loop tree key)
  unfolding delete_loop
  Distinct-delete_loop [] key h = tt
  Distinct-delete_loop (n ∷ ns) key (hn, h) = elim (Bool-cases (is_entry key n)) [
    | inl found ↦ rw found h
    | inr other ↦ rw other (All-delete_loop _ ns key hn, Distinct-delete_loop ns key h)
  ]
