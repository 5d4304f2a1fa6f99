-- ===== src/Didl/Totals.antt =====
-- CdsObjectToDidl.c: a field as it is counted and as it is printed, by the bits of the filter.
use Prim.Native.Nat.{bit_and, bit_or}
use tv_now.Common.{
  ℕ, ◌+◌, ◌^◌, ◌≤◌, ◌<◌, ◌≡◌, ◌∙◌, refl, sym, ap, ◌⊎◌, inl, inr, Bool, true, false, not, ◌&&◌, List,
  [], ◌∷◌, length, All, ◌==◌, ==_iff, ◌≢◌, if_false, if◌then◌else◌, Bool-cases, holds_below,
  holds_at, arith,
}
use tv_now.Common.Masks.{bit_or-disjoint}
use tv_now.Didl.Object.{has_bits}
use tv_now.Didl.Count.{Counted, Sizes, count, count_all}
use tv_now.Didl.Print.{Piece, print_piece}

pub and_left : (a b : Bool) → (a && b) ≡ true → a ≡ true
and_left true b h = refl
and_left false b h = cc

pub and_right : (a b : Bool) → (a && b) ≡ true → b ≡ true
and_right true b h = h
and_right false b h = cc

-- What an `if` adds.
unfoldable pub shown : ℕ → Counted → ℕ
unfolding has_bits
shown filter c = if c.present && has_bits filter c.bits then c.amount else 0

unfoldable pub total : ℕ → List Counted → ℕ
unfolding shown
total filter [] = 0
total filter (c ∷ cs) = shown filter c + total filter cs

-- The bits that the filter lacks are not printed.
abbrev pub Within : ℕ → ℕ → Type 0
Within p filter = (k : ℕ) → k < 32 → bit_and filter (2 ^ k) ≡ 0 → bit_and p (2 ^ k) ≡ 0

-- An `if` that never adds, or that is about one bit.
abbrev pub IsPlain : Counted → Type 0
IsPlain c = (c.present ≡ false) ⊎ ((j : ℕ) × (j < 32) × (c.bits ≡ 2 ^ j))

abbrev apart : ℕ → ℕ → Bool
apart j k = if j == k then true else bit_and (2 ^ j) (2 ^ k) == 0

apart_table : holds_below (λ j. holds_below (apart j) 32) 32 ≡ true
unfolding holds_below
apart_table = refl

single_bits : (j k : ℕ) → j < 32 → k < 32 → (j == k) ≡ false → bit_and (2 ^ j) (2 ^ k) ≡ 0
single_bits j k hj hk ne =
    let row = holds_at (λ j. holds_below (apart j) 32) 32 j hj apart_table in
    let e = holds_at (apart j) 32 k hk row in (==_iff _ _).0 (sym (if_false (j == k) _ _ ne) ∙ e)

-- A test of bits that fails, and one that holds.
no_bits : (filter bits : ℕ) → has_bits filter bits ≡ false → bit_and filter bits ≡ 0
unfolding has_bits
no_bits filter bits h = (==_iff _ _).0 (not_false _ h)
  where
    not_false : (b : Bool) → not b ≡ false → b ≡ true
    not_false true h = refl
    not_false false h = cc

some_bits : (filter bits : ℕ) → has_bits filter bits ≡ true → bit_and filter bits ≢ 0
unfolding has_bits
some_bits filter bits h z = absurd (let e = (==_iff _ _).1 z in cc)

pub Within-bit_or :
    (p filter j : ℕ)
    → j < 32
    → has_bits filter (2 ^ j) ≡ true
    → Within p filter
    → Within (bit_or p (2 ^ j)) filter
Within-bit_or p filter j hj h w k hk z =
    bit_or-disjoint p (2 ^ j) (2 ^ k) (w k hk z) (elim (Bool-cases (j == k)) [
      | inl same ↦
          let e : j ≡ k = (==_iff _ _).0 same in
          absurd (some_bits filter (2 ^ j) h (ap (λ (i : ℕ). bit_and filter (2 ^ i)) e ∙ z))
      | inr other ↦ single_bits j k hj hk other
    ])

size_lem :
    (filter : ℕ) (s : Sizes) (c : Counted) → (count filter s c).size ≡ s.size + shown filter c
unfolding count shown
size_lem filter s c = elim (Bool-cases (c.present && has_bits filter c.bits)) [
  | inl there ↦ rw there refl
  | inr out ↦ rw out (omega arith)
]

print_lem :
    (filter : ℕ) (s : Sizes) (c : Counted)
    → IsPlain c
    → Within s.print_these filter
    → Within (count filter s c).print_these filter
unfolding count
print_lem filter s c (inl absent) w = rw absent w
print_lem filter s c (inr (j, hj, e)) w = elim (Bool-cases (c.present && has_bits filter c.bits)) [
  | inl there ↦
      let h : has_bits filter (2 ^ j) ≡ true =
        ap (has_bits filter) (sym e) ∙ and_right c.present (has_bits filter c.bits) there in
      rw (there, e) (Within-bit_or s.print_these filter j hj h w)
  | inr out ↦ rw out w
]

pub count_lem :
    (filter : ℕ) (s : Sizes) (c : Counted)
    → IsPlain c
    → Within s.print_these filter
    → ((count filter s c).size ≡ s.size + shown filter c)
      × Within (count filter s c).print_these filter
count_lem filter s c h w = (size_lem filter s c, print_lem filter s c h w)

pub count_all_lem :
    (filter : ℕ) (s : Sizes) (cs : List Counted)
    → All IsPlain cs
    → Within s.print_these filter
    → ((count_all filter s cs).size ≡ s.size + total filter cs)
      × Within (count_all filter s cs).print_these filter
unfolding count_all total
count_all_lem filter s [] h w = (omega arith, w)
count_all_lem filter s (c ∷ cs) (hc, h) w =
    let (e, w') = count_lem filter s c hc w in
    let (e', w'') = count_all_lem filter (count filter s c) cs h w' in (omega arith, w'')

-- A bit that is printed is one that the filter has.
pub Within-has_bits :
    (p filter j : ℕ)
    → j < 32
    → has_bits p (2 ^ j) ≡ true
    → Within p filter
    → has_bits filter (2 ^ j) ≡ true
Within-has_bits p filter j hj h w = elim (Bool-cases (has_bits filter (2 ^ j))) [
  | inl has ↦ has
  | inr lacks ↦ absurd (some_bits p (2 ^ j) h (w j hj (no_bits filter (2 ^ j) lacks)))
]

-- A piece is not longer than what its field has added.
pub piece-shown :
    (filter p : ℕ) (x : Piece) (c : Counted) (j : ℕ)
    → j < 32
    → x.bits ≡ 2 ^ j
    → c.bits ≡ 2 ^ j
    → (x.present ≡ true → c.present ≡ true)
    → length x.text ≤ c.amount
    → Within p filter
    → length (print_piece p x) ≤ shown filter c
unfolding print_piece shown
piece-shown filter p x c j hj ex ec h l w = elim (Bool-cases (x.present && has_bits p x.bits)) [
  | inl there ↦
      let present = h (and_left x.present _ there) in
      let printed : has_bits p (2 ^ j) ≡ true =
        ap (has_bits p) (sym ex) ∙ and_right x.present _ there in
      rw (there, present, ec, Within-has_bits p filter j hj printed w) l
  | inr out ↦ rw out (omega arith)
]
