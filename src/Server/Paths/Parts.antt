-- ===== src/Server/Paths/Parts.antt =====
-- The two parts of a path.
use tv_now.Common.{
  ℕ, zero, suc, ◌+◌, ◌-◌, ◌≤◌, ◌<◌, ◌≡◌, ◌≢◌, ◌∙◌, ◌⊎◌, refl, sym, ap, Bool, true, false, some, inl,
  inr, [], ◌∷◌, ◌++◌, Bytes, ltb, ==_refl, if◌then◌else◌, length, length-append, take-append,
  take_all, drop, drop-append, drop_more, append_assoc, append-nil, starts, Lacks, Bool-cases,
  arith,
}
use tv_now.MyString.Affix.{ends_with, ends_with_iff}
use tv_now.Server.Paths.{
  is_parent_end, parent_loop, parent_length, get_parent_path, without_delimiter, name_end,
  get_file_name,
}

-- Nothing, or one delimiter.
abbrev pub IsEnd : ℕ → Bytes → Type 0
IsEnd a s = (s ≡ []) ⊎ (s ≡ a ∷ [])

-- Behind the delimiter in front of the name, one can only stand at the very end.
only_last :
    (a : ℕ) (name tail : Bytes) (k : ℕ)
    → Lacks a name
    → IsEnd a tail
    → starts (a ∷ []) (drop k (name ++ tail)) ≡ true
    → length (name ++ tail) ≤ k + 1
unfolding starts
only_last a [] tail k h (inl e) s = rw e (omega arith)
only_last a [] tail k h (inr e) s = rw e (omega arith)
only_last a (c ∷ name) tail zero (hc, h) e s = absurd (hc (ground arith))
only_last a (c ∷ name) tail (suc k) (hc, h) e s = omega (arith, only_last a name tail k h e s)

length_some : (s : Bytes) → s ≢ [] → 0 < length s
length_some [] h = absurd (h refl)
length_some (c ∷ s) h = omega arith

module _ (a : ℕ) (front name tail : Bytes) (named : name ≢ []) (plain : Lacks a name)
    (ends : IsEnd a tail) where
  path : Bytes
  path = front ++ (a ∷ (name ++ tail))

  length-path : length path ≡ length front + (1 + length (name ++ tail))
  unfolding path
  length-path = omega (arith, length-append front (a ∷ (name ++ tail)))

  rest_size : 0 < length (name ++ tail)
  rest_size = omega (arith, length-append name tail, length_some name named)

  parent_here : is_parent_end path (a ∷ []) (length front) ≡ true
  unfolding path is_parent_end starts
  parent_here =
      rw (drop-append front (a ∷ (name ++ tail)), ==_refl a)
        (ground (arith, length-path, rest_size))

  drop_behind : (k : ℕ) → drop (length front + suc k) path ≡ drop k (name ++ tail)
  unfolding path
  drop_behind k = drop_more (suc k) front (a ∷ (name ++ tail))

  parent_not_behind : (k : ℕ) → is_parent_end path (a ∷ []) (length front + suc k) ≡ false
  unfolding is_parent_end
  parent_not_behind k = elim (Bool-cases (starts (a ∷ []) (drop (length front + suc k) path))) [
    | inl found ↦
        let last = only_last a name tail k plain ends (rw (drop_behind k) at found) in
        rw found (ground (arith, length-path, last))
    | inr other ↦ rw other refl
  ]

  parent_loop-here : (i : ℕ) → i ≡ length front → parent_loop path (a ∷ []) i ≡ some (length front)
  unfolding parent_loop
  parent_loop-here zero e = rw (e, parent_here) refl
  parent_loop-here (suc i) e = rw (e, parent_here) refl

  parent_loop-behind : (k : ℕ) → parent_loop path (a ∷ []) (length front + k) ≡ some (length front)
  unfolding parent_loop
  parent_loop-behind zero = parent_loop-here (length front + 0) (omega arith)
  parent_loop-behind (suc k) =
      let e : length front + suc k ≡ suc (length front + k) = omega arith in
      rw (e, (rw e at (parent_not_behind k))) (parent_loop-behind k)

  parent_loop-path : parent_loop path (a ∷ []) (length path) ≡ some (length front)
  parent_loop-path = rw length-path (parent_loop-behind (1 + length (name ++ tail)))

  parent_length-path :
      (include : Bool)
      → parent_length path (a ∷ []) include ≡ (if include then length front + 1 else length front)
  unfolding parent_length
  parent_length-path include = rw (parent_loop-path, parent_length) refl

  get_parent_path-path :
      (include : Bool)
      → get_parent_path path (a ∷ []) include ≡ (if include then front ++ a ∷ [] else front)
  unfolding get_parent_path path
  get_parent_path-path true =
      let size : length front + 1 ≡ length (front ++ a ∷ []) =
        omega (arith, length-append front (a ∷ [])) in
      let split : front ++ (a ∷ (name ++ tail)) ≡ (front ++ a ∷ []) ++ (name ++ tail) =
        sym (append_assoc front (a ∷ []) (name ++ tail)) in
      rw (parent_length-path true, size, split) (take-append (front ++ a ∷ []) (name ++ tail))
  get_parent_path-path false =
      rw (parent_length-path false) (take-append front (a ∷ (name ++ tail)))

no_end : (a : ℕ) (s rest : Bytes) → Lacks a s → s ≢ rest ++ a ∷ []
no_end a [] [] h e = cc
no_end a [] (c ∷ rest) h e = cc
no_end a (b ∷ s) [] (hb, h) e = hb cc
no_end a (b ∷ s) (c ∷ rest) (hb, h) e = no_end a s rest h cc

without_delimiter-name :
    (a : ℕ) (name tail : Bytes)
    → Lacks a name
    → IsEnd a tail
    → without_delimiter (name ++ tail) (a ∷ []) ≡ name
unfolding without_delimiter
without_delimiter-name a name tail h (inl e) =
    rw (e, append-nil name)
      (elim (Bool-cases (ends_with name (a ∷ []) false)) [
        | inl found ↦
            let (rest, same) = (ends_with_iff name (a ∷ []) false).0 found in
            absurd (no_end a name rest h same)
        | inr other ↦ rw other refl
      ])
without_delimiter-name a name tail h (inr e) =
    let found : ends_with (name ++ a ∷ []) (a ∷ []) false ≡ true =
      (ends_with_iff (name ++ a ∷ []) (a ∷ []) false).1 (name, refl) in
    let size : length (name ++ a ∷ []) - 1 ≡ length name =
      omega (arith, length-append name (a ∷ [])) in
    rw (e, found, size) (take-append name (a ∷ []))

name_of :
    (start : ℕ) (path rest d : Bytes)
    → parent_length path d true ≡ start
    → drop start path ≡ rest
    → length path ≡ start + length rest
    → get_file_name path d true ≡ some (without_delimiter rest d)
unfolding get_file_name name_end
name_of start path rest d e r n =
    let room : ltb (length path) start ≡ false = ground arith in
    let size : length path - start ≡ length rest = omega arith in
    rw (e, room, r, size, take_all rest) refl

-- For a delimiter of one byte, a name that is not empty and does not hold it, and at most one
-- delimiter behind: `GetParentPath` gives what stands in front of the name, with or without the
-- delimiter, and `GetFileName` gives the name.
pub get_parent_path-get_file_name :
    (a : ℕ) (front name tail : Bytes)
    → name ≢ []
    → Lacks a name
    → IsEnd a tail
    → (get_parent_path (front ++ (a ∷ (name ++ tail))) (a ∷ []) true ≡ front ++ a ∷ [])
      × (get_parent_path (front ++ (a ∷ (name ++ tail))) (a ∷ []) false ≡ front)
      × (get_file_name (front ++ (a ∷ (name ++ tail))) (a ∷ []) true ≡ some name)
unfolding path
get_parent_path-get_file_name a front name tail named plain ends =
    let whole = front ++ (a ∷ (name ++ tail)) in
    let size : length whole ≡ length front + 1 + length (name ++ tail) =
      omega (arith, length-append front (a ∷ (name ++ tail))) in
    (
      get_parent_path-path a front name tail named plain ends true,
      get_parent_path-path a front name tail named plain ends false,
      name_of (length front + 1) whole (name ++ tail) (a ∷ [])
            (parent_length-path a front name tail named plain ends true)
            (drop_more 1 front (a ∷ (name ++ tail))) size
          ∙ ap some (without_delimiter-name a name tail plain ends),
    )
