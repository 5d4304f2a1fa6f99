-- ===== src/Didl/Plain/Counted.antt =====
-- CdsObjectToDidl.c: the size of a media object as it is counted.
use Prim.Native.Nat.{bit_or}
use tv_now.Common.{
  ℕ, ◌+◌, ◌^◌, ◌≤◌, ◌≡◌, refl, inl, inr, Bool, true, false, ◌||◌, if◌then◌else◌, Bool-cases, arith,
}
use tv_now.Common.Masks.{zero-bit_and}
use tv_now.Didl.Object.{
  MediaObject, escape_length, has_bits, is_container, is_item, is_set, the_text,
}
use tv_now.Didl.Count.{
  Sizes, count_all, count_kind, count_res, count_object, music_counted, guide_counted,
  broadcast_counted, add_size,
}
use tv_now.Didl.Totals.{total, Within, Within-bit_or, count_all_lem}
use tv_now.Didl.Resources.Text.{resources_total, count_resources_lem}
use tv_now.Didl.Plain.{PlainObject, media_object}

-- What comes to the size, behind the bits that are printed.
abbrev pub Grows : ℕ → Sizes → ℕ → Sizes → Type 0
Grows filter s n s' = (s'.size ≡ s.size + n) × Within s'.print_these filter

music_lem :
    (m : Bool) (filter : ℕ) (f : PlainObject) (s : Sizes)
    → Within s.print_these filter
    → Grows filter s
        (total filter (music_counted m (media_object f)))
        (count_all filter s (music_counted m (media_object f)))
unfolding music_counted
music_lem m filter f s w =
    count_all_lem filter s _
      (inr (0, omega arith, refl), (inr (9, omega arith, refl), (inr (10, omega arith, refl), tt)))
      w

guide_lem :
    (m : Bool) (filter : ℕ) (f : PlainObject) (s : Sizes)
    → Within s.print_these filter
    → Grows filter s
        (total filter (guide_counted m (media_object f)))
        (count_all filter s (guide_counted m (media_object f)))
unfolding guide_counted
guide_lem m filter f s w =
    count_all_lem filter s (guide_counted m (media_object f))
      (inl refl, (inl refl, (inr (18, omega arith, refl), (inl refl, tt)))) w

broadcast_lem :
    (m : Bool) (filter : ℕ) (f : PlainObject) (s : Sizes)
    → Within s.print_these filter
    → Grows filter s
        (total filter (broadcast_counted m (media_object f)))
        (count_all filter s (broadcast_counted m (media_object f)))
unfolding broadcast_counted
broadcast_lem m filter f s w =
    count_all_lem filter s (broadcast_counted m (media_object f))
      (
        inr (16, omega arith, refl),
        (
          inr (17, omega arith, refl),
          (
            inr (18, omega arith, refl),
            (
              inl refl,
              (
                inl refl,
                (
                  inl refl,
                  (
                    inl refl,
                    (
                      inl refl,
                      (
                        inl refl,
                        (
                          inl refl,
                          (
                            inl refl,
                            (
                              inl refl,
                              (
                                inr (24, omega arith, refl),
                                (
                                  inr (25, omega arith, refl),
                                  (
                                    inr (26, omega arith, refl),
                                    (
                                      inr (27, omega arith, refl),
                                      (
                                        inl refl,
                                        (
                                          inl refl,
                                          (
                                            inr (28, omega arith, refl),
                                            (inr (29, omega arith, refl), tt),
                                          ),
                                        ),
                                      ),
                                    ),
                                  ),
                                ),
                              ),
                            ),
                          ),
                        ),
                      ),
                    ),
                  ),
                ),
              ),
            ),
          ),
        ),
      )
      w

or_right : (a b : Bool) → a ≡ false → (a || b) ≡ true → b ≡ true
or_right false b h k = k
or_right true b h k = cc

-- What the kind of an object adds at least.
unfoldable pub kind_size : MediaObject → ℕ
unfolding is_container
kind_size o = if is_container o then 160 else (if is_set o.ref_id then 95 else 76) + 15

kind_lem :
    (m : Bool) (filter : ℕ) (f : PlainObject) (s : Sizes)
    → (is_container (media_object f) || is_item (media_object f)) ≡ true
    → Within s.print_these filter
    → (n : ℕ) × (kind_size (media_object f) ≤ n)
      × Grows filter s n (count_kind m filter (media_object f) s)
unfolding count_kind kind_size
kind_lem m filter f s kind w = elim (Bool-cases (is_container (media_object f))) [
  | inl there ↦
      let (e, w') = guide_lem m filter f (add_size 160 s) w in
      (
        160 + total filter (guide_counted m (media_object f)),
        rw there (omega arith),
        rw there (omega arith, w'),
      )
  | inr lacks ↦
      let item : is_item (media_object f) ≡ true = or_right _ _ lacks kind in
      (
        (if is_set f.ref_id then 95 else 76) + 15,
        rw lacks (omega arith),
        rw (lacks, item) (omega arith, w),
      )
]

-- What the resources add.
unfoldable pub res_size : Bool → ℕ → MediaObject → ℕ
unfolding resources_total has_bits
res_size m filter o = if has_bits filter 0x2 then resources_total m filter o.res else 0

res_lem :
    (m : Bool) (filter : ℕ) (o : MediaObject) (s : Sizes)
    → Within s.print_these filter
    → Grows filter s (res_size m filter o) (count_res m filter o s)
unfolding count_res res_size resources_total
res_lem m filter o s w = elim (Bool-cases (has_bits filter 0x2)) [
  | inl there ↦ rw there (
      count_resources_lem m filter (record s { print_these = bit_or s.print_these 0x2 }) o.res
        (Within-bit_or s.print_these filter 1 (omega arith) there w))
  | inr lacks ↦ rw lacks (omega arith, w)
]

unfoldable pub ids_size : Bool → PlainObject → ℕ
unfolding escape_length
ids_size m f =
    1
    + escape_length m f.id
    + escape_length m f.parent_id
    + (35 + escape_length m f.title)
    + (if is_set f.ref_id then escape_length m (the_text f.ref_id) else 0)

-- The size of an object, at least.
unfoldable pub plain_size : Bool → ℕ → PlainObject → ℕ → ℕ
unfolding ids_size total music_counted broadcast_counted
plain_size m filter f class =
    ids_size m f
    + total filter (music_counted m (media_object f))
    + (class + 44)
    + kind_size (media_object f)
    + res_size m filter (media_object f)
    + total filter (broadcast_counted m (media_object f))

-- Without the header.
count_plain :
    (m : Bool) (filter : ℕ) (f : PlainObject) (class : ℕ)
    → (is_container (media_object f) || is_item (media_object f)) ≡ true
    → (plain_size m filter f class ≤ (count_object m filter false (media_object f) class).size)
      × Within (count_object m filter false (media_object f) class).print_these filter
unfolding count_object ids_size plain_size
count_plain m filter f class kind =
    let o = media_object f in
    let s0 : Sizes = record { size = ids_size m f; print_these = 0 } in
    let (e1, w1) = music_lem m filter f s0 (λ k hk z. zero-bit_and (2 ^ k)) in
    let s1 = count_all filter s0 (music_counted m o) in
    let (n, h, (e2, w2)) = kind_lem m filter f (add_size (class + (39 + 4) + 1) s1) kind w1 in
    let s2 = count_kind m filter o (add_size (class + (39 + 4) + 1) s1) in
    let (e3, w3) = res_lem m filter o s2 w2 in
    let (e4, w4) = broadcast_lem m filter f (count_res m filter o s2) w3 in (omega arith, w4)

pub count_object_lem :
    (m : Bool) (filter : ℕ) (with_header : Bool) (f : PlainObject) (class : ℕ)
    → (is_container (media_object f) || is_item (media_object f)) ≡ true
    → (plain_size m filter f class + (if with_header then 217 else 0)
        ≤ (count_object m filter with_header (media_object f) class).size)
      × Within (count_object m filter with_header (media_object f) class).print_these filter
unfolding count_object
count_object_lem m filter false f class kind =
    let (e, w) = count_plain m filter f class kind in (omega (arith, e), w)
count_object_lem m filter true f class kind =
    let (e, w) = count_plain m filter f class kind in (omega (arith, e), w)
