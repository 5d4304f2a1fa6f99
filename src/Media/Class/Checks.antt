-- ===== src/Media/Class/Checks.antt =====
-- What the checks of a media class admit.
use tv_now.Common.{
  ℕ, zero, suc, ◌≤◌, ◌<◌, ◌≡◌, ◌∙◌, ◌⊎◌, refl, inl, inr, true, Option, none, some, List, [], ◌∷◌,
  ◌++◌, Bytes, length, get_elem?, ◌>>=◌, arith,
}
use tv_now.Media.Class.{
  Indices, indices, is_valid_class, part, class_text, class_object_type, class_major_type,
  class_minor1_type, class_minor2_type,
}

module _ {ℓ} {A : Type ℓ} where
  get_elem?-below : (xs : List A) (i : ℕ) → i < length xs → (x : A) × (get_elem? xs i ≡ some x)
  get_elem?-below [] i h = absurd (omega arith)
  get_elem?-below (x ∷ xs) zero h = (x, refl)
  get_elem?-below (x ∷ xs) (suc i) h = get_elem?-below xs i (omega arith)

  get_elem?-behind : (xs : List A) (i : ℕ) → length xs ≤ i → get_elem? xs i ≡ none
  get_elem?-behind [] i h = refl
  get_elem?-behind (x ∷ xs) zero h = absurd (omega arith)
  get_elem?-behind (x ∷ xs) (suc i) h = get_elem?-behind xs i (omega arith)

part-below : (t : List Bytes) (i : ℕ) → i < length t → (s : Bytes) × (part t i ≡ some s)
unfolding part
part-below t zero h = ([], refl)
part-below t (suc i) h = let (x, e) = get_elem?-below t (suc i) h in (b'.' ∷ x, rw e (ground arith))

part-behind : (t : List Bytes) (i : ℕ) → 0 < length t → length t ≤ i → part t i ≡ none
unfolding part
part-behind t zero p h = absurd (omega arith)
part-behind t (suc i) p h = rw (get_elem?-behind t (suc i) h) (ground arith)

-- Every index is within its table.
abbrev pub InTables : Indices → Type 0
InTables i = (i.object_type < 3) × (i.major < 15) × (i.minor1 < 15) × (i.minor2 < 1)

-- An index is the length of its table.
abbrev pub AtEnd : Indices → Type 0
AtEnd i = (i.object_type ≡ 3) ⊎ ((i.major ≡ 15) ⊎ ((i.minor1 ≡ 15) ⊎ (i.minor2 ≡ 1)))

admitted :
    (code : ℕ)
    → is_valid_class code ≡ true
    → ((indices code).object_type ≤ 3)
      × ((indices code).major ≤ 15)
      × ((indices code).minor1 ≤ 15)
      × ((indices code).minor2 ≤ 1)
unfolding is_valid_class
admitted code h = (ground arith, ground arith, ground arith, ground arith)

printed : (code : ℕ) → InTables (indices code) → (s : Bytes) × (class_text code ≡ some s)
unfolding class_text
printed code (ho, h1, h2, h3) =
    let (a, ea) = get_elem?-below class_object_type (indices code).object_type ho in
    let (b, eb) = part-below class_major_type (indices code).major h1 in
    let (c, ec) = part-below class_minor1_type (indices code).minor1 h2 in
    let (d, ed) = part-below class_minor2_type (indices code).minor2 h3 in
    (a ++ (b ++ (c ++ d)), rw (ea, eb, ec, ed) refl)

-- The four parts, as `class_text` joins them.
abbrev joined : Option Bytes → Option Bytes → Option Bytes → Option Bytes → Option Bytes
joined x y z w = x >>= (λ a. y >>= (λ b. z >>= (λ c. w >>= (λ d. some (a ++ (b ++ (c ++ d)))))))

no_second : (x z w : Option Bytes) → joined x none z w ≡ none
no_second none z w = refl
no_second (some a) z w = refl

no_third : (x y w : Option Bytes) → joined x y none w ≡ none
no_third none y w = refl
no_third (some a) none w = refl
no_third (some a) (some b) w = refl

no_fourth : (x y z : Option Bytes) → joined x y z none ≡ none
no_fourth none y z = refl
no_fourth (some a) none z = refl
no_fourth (some a) (some b) none = refl
no_fourth (some a) (some b) (some c) = refl

module _ (code : ℕ) where
  first_part : Option Bytes
  first_part = get_elem? class_object_type (indices code).object_type

  second_part : Option Bytes
  second_part = part class_major_type (indices code).major

  third_part : Option Bytes
  third_part = part class_minor1_type (indices code).minor1

  fourth_part : Option Bytes
  fourth_part = part class_minor2_type (indices code).minor2

  class_text-joined : class_text code ≡ joined first_part second_part third_part fourth_part
  unfolding class_text first_part second_part third_part fourth_part
  class_text-joined = refl

  fails : AtEnd (indices code) → class_text code ≡ none
  unfolding first_part second_part third_part fourth_part
  fails (inl e) = class_text-joined ∙ rw e refl
  fails (inr (inl e)) =
      class_text-joined
      ∙ rw (part-behind class_major_type (indices code).major (omega arith) (omega arith))
          (no_second first_part third_part fourth_part)
  fails (inr (inr (inl e))) =
      class_text-joined
      ∙ rw (part-behind class_minor1_type (indices code).minor1 (omega arith) (omega arith))
          (no_third first_part second_part fourth_part)
  fails (inr (inr (inr e))) =
      class_text-joined
      ∙ rw (part-behind class_minor2_type (indices code).minor2 (omega arith) (omega arith))
          (no_fourth first_part second_part third_part)

below_or_end : (i n : ℕ) → i ≤ n → (i < n) ⊎ (i ≡ n)
below_or_end i n h = grind arith

sort_out :
    (i : Indices)
    → i.object_type ≤ 3
    → i.major ≤ 15
    → i.minor1 ≤ 15
    → i.minor2 ≤ 1
    → InTables i ⊎ AtEnd i
sort_out i ho h1 h2 h3 = elim (below_or_end i.object_type 3 ho) [
  | inr e ↦ inr (inl e)
  | inl lo ↦ elim (below_or_end i.major 15 h1) [
    | inr e ↦ inr (inr (inl e))
    | inl l1 ↦ elim (below_or_end i.minor1 15 h2) [
      | inr e ↦ inr (inr (inr (inl e)))
      | inl l2 ↦ elim (below_or_end i.minor2 1 h3) [
        | inr e ↦ inr (inr (inr (inr e)))
        | inl l3 ↦ inl (lo, l1, l2, l3)
      ]
    ]
  ]
]

-- A media class that passes the checks has its class text if every index is within its table; if
-- one is the length of its table, which the checks admit, the text is read behind a table's end.
-- There is no third case.
pub class_text-is_valid_class :
    (code : ℕ)
    → is_valid_class code ≡ true
    → (InTables (indices code) × (s : Bytes) × (class_text code ≡ some s))
      ⊎ (AtEnd (indices code) × (class_text code ≡ none))
class_text-is_valid_class code h =
    let (ho, h1, h2, h3) = admitted code h in
    elim (sort_out (indices code) ho h1 h2 h3) [
      | inl within ↦ let (s, e) = printed code within in inl (within, s, e)
      | inr end ↦ inr (end, fails code end)
    ]
