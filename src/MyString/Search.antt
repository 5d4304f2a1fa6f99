-- ===== src/MyString/Search.antt =====
-- MyString.c: `IndexOf` and `LastIndexOf`.
use tv_now.Common.{
  ℕ, zero, suc, ◌+◌, ◌-◌, ◌≤◌, ◌<◌, ◌≡◌, ◌⊎◌, ◌∙◌, refl, sym, ap, true, false, [], ◌∷◌, ◌++◌, Bytes,
  leb, if◌then◌else◌, arith, length, drop, length-append, length-drop, Bool-cases, inl, inr, starts,
  starts-append, starts-split,
}
use tv_now.Common.Int.{ℤ, pos, negsuc}

-- The loop of `IndexOf` over the first index; `p` is `str + i`. The inner loop compares up to the
-- end of `findThis`, and stops at the NUL of `str`, which `findThis` does not hold.
index_loop : Bytes → Bytes → ℕ → ℤ
index_loop find [] i = negsuc 0
index_loop find (c ∷ p) i = if starts find (c ∷ p) then pos i else index_loop find p (i + 1)

unfoldable pub index_of : Bytes → Bytes → ℤ
unfolding index_loop starts
index_of str find = if leb (length find) (length str) then index_loop find str 0 else negsuc 0

-- `for (i = strLen - ftLen; i >= 0; i--)`.
last_index_loop : Bytes → Bytes → ℕ → ℤ
last_index_loop str find zero = if starts find str then pos 0 else negsuc 0
last_index_loop str find (suc i) =
    if starts find (drop (suc i) str) then pos (suc i) else last_index_loop str find i

unfoldable pub last_index_of : Bytes → Bytes → ℤ
unfolding last_index_loop starts
last_index_of str find =
    if leb (length find) (length str)
    then last_index_loop str find (length str - length find)
    else negsuc 0

-- `find` stands in `str` at the index `k`.
abbrev pub OccursAt : Bytes → Bytes → ℕ → Type 0
OccursAt str find k = (rest : Bytes) × (drop k str ≡ find ++ rest)

-- What a result of `IndexOf` says: the least index below the length at which the text occurs, or
-- -1 where there is none.
abbrev pub IsFirstIndex : Bytes → Bytes → ℤ → Type 0
IsFirstIndex str find (pos i) =
    (i < length str) × OccursAt str find i × ((k : ℕ) → k < i → ¬ OccursAt str find k)
IsFirstIndex str find (negsuc n) = (n ≡ 0) × ((k : ℕ) → k < length str → ¬ OccursAt str find k)

-- The same of `LastIndexOf`: the greatest index up to the length.
abbrev pub IsLastIndex : Bytes → Bytes → ℤ → Type 0
IsLastIndex str find (pos i) =
    OccursAt str find i × ((k : ℕ) → i < k → k ≤ length str → ¬ OccursAt str find k)
IsLastIndex str find (negsuc n) = (n ≡ 0) × ((k : ℕ) → k ≤ length str → ¬ OccursAt str find k)

occurs : (str find : Bytes) (k : ℕ) → starts find (drop k str) ≡ true → OccursAt str find k
occurs str find k h = (drop (length find) (drop k str), starts-split find (drop k str) h)

not_occurs : (str find : Bytes) (k : ℕ) → starts find (drop k str) ≡ false → ¬ OccursAt str find k
not_occurs str find k h (rest, e) =
    let t : true ≡ false = sym (starts-append find rest) ∙ (ap (starts find) (sym e) ∙ h) in cc

too_short :
    (str find : Bytes) (k : ℕ)
    → length str < length find + k
    → k ≤ length str
    → ¬ OccursAt str find k
too_short str find k h hk (rest, e) =
    omega (arith, ap length e, length-append find rest, length-drop k str)

lt_cases : (k i : ℕ) → k < i + 1 → (k < i) ⊎ (k ≡ i)
lt_cases k i h = grind arith

gt_cases : (k i : ℕ) → i < k → (suc i < k) ⊎ (k ≡ suc i)
gt_cases k i h = grind arith

drop_next : (i : ℕ) (s : Bytes) → drop (i + 1) s ≡ drop 1 (drop i s)
drop_next zero s = refl
drop_next (suc i) [] = let e : suc i + 1 ≡ suc (i + 1) = omega arith in rw e
drop_next (suc i) (c ∷ s) = let e : suc i + 1 ≡ suc (i + 1) = omega arith in rw e (drop_next i s)

module _ (str find : Bytes) where
  none_below_next :
      (i : ℕ)
      → starts find (drop i str) ≡ false
      → ((k : ℕ) → k < i → ¬ OccursAt str find k)
      → (k : ℕ) → k < i + 1
      → ¬ OccursAt str find k
  none_below_next i other h k hk = elim (lt_cases k i hk) [
    | inl below ↦ h k below
    | inr here ↦ rw here (not_occurs str find i other)
  ]

  none_above_next :
      (i : ℕ)
      → starts find (drop (suc i) str) ≡ false
      → ((k : ℕ) → suc i < k → k ≤ length str → ¬ OccursAt str find k)
      → (k : ℕ) → i < k
      → k ≤ length str
      → ¬ OccursAt str find k
  none_above_next i other h k hk hl = elim (gt_cases k i hk) [
    | inl above ↦ h k above hl
    | inr here ↦ rw here (not_occurs str find (suc i) other)
  ]

  -- The loop, with the bytes in front of `p` counted by `i`.
  index_loop_first :
      (p : Bytes) (i : ℕ)
      → p ≡ drop i str
      → i + length p ≡ length str
      → ((k : ℕ) → k < i → ¬ OccursAt str find k)
      → IsFirstIndex str find (index_loop find p i)
  unfolding index_loop
  index_loop_first [] i e n h = (refl, λ k hk. h k (omega arith))
  index_loop_first (c ∷ p) i e n h = elim (Bool-cases (starts find (c ∷ p))) [
    | inl found ↦ rw found (omega arith, occurs str find i (rw (← e) found), h)
    | inr other ↦ rw other (
        index_loop_first p (i + 1) (ap (drop 1) e ∙ sym (drop_next i str)) (omega arith)
          (none_below_next i (rw (← e) other) h))
  ]

  last_index_loop_last :
      (i : ℕ)
      → i ≤ length str
      → ((k : ℕ) → i < k → k ≤ length str → ¬ OccursAt str find k)
      → IsLastIndex str find (last_index_loop str find i)
  unfolding last_index_loop
  last_index_loop_last zero hi h = elim (Bool-cases (starts find str)) [
    | inl found ↦ rw found (occurs str find 0 found, h)
    | inr other ↦ rw other (refl, none_at_all other)
  ]
    where
      none_at_all : starts find str ≡ false → (k : ℕ) → k ≤ length str → ¬ OccursAt str find k
      none_at_all other zero hk = not_occurs str find 0 other
      none_at_all other (suc k) hk = h (suc k) (omega arith) hk
  last_index_loop_last (suc i) hi h = elim (Bool-cases (starts find (drop (suc i) str))) [
    | inl found ↦ rw found (occurs str find (suc i) found, h)
    | inr other ↦ rw other (last_index_loop_last i (omega arith) (none_above_next i other h))
  ]

-- `IndexOf` returns the least index below the length at which the text occurs, or -1 if there is
-- none, for all texts.
pub index_of-IsFirstIndex : (str find : Bytes) → IsFirstIndex str find (index_of str find)
unfolding index_of
index_of-IsFirstIndex str find = elim (Bool-cases (leb (length find) (length str))) [
  | inl fits ↦
      rw fits (index_loop_first str find str 0 refl (omega arith) (λ k hk. absurd (omega arith)))
  | inr long ↦ rw long (refl, λ k hk. too_short str find k (ground arith) (omega arith))
]

-- `LastIndexOf` returns the greatest index at which the text occurs, or -1 if there is none, for
-- all texts.
pub last_index_of-IsLastIndex : (str find : Bytes) → IsLastIndex str find (last_index_of str find)
unfolding last_index_of
last_index_of-IsLastIndex str find = elim (Bool-cases (leb (length find) (length str))) [
  | inl fits ↦ rw fits (
      last_index_loop_last str find (length str - length find) (omega arith)
        (λ k hk hl. too_short str find k (ground arith) hl))
  | inr long ↦ rw long (refl, λ k hk. too_short str find k (ground arith) hk)
]
