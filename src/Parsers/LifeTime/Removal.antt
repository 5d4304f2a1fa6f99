-- ===== src/Parsers/LifeTime/Removal.antt =====
-- Which timer a removal takes.
use tv_now.Common.{
  ℕ, ◌≡◌, ◌≢◌, refl, ap, List, [], ◌∷◌, ◌++◌, All, Bool-cases, inl, inr, ◌==◌, arith, ◌⊎◌,
}
use tv_now.Parsers.LifeTime.{Timer, remove}

-- The first timer with the datum is taken out, or there is none.
abbrev pub IsFirstRemoved : List Timer → ℕ → List Timer × List Timer → Type 0
IsFirstRemoved lm datum r =
    ((front : List Timer) × (t : Timer) × (back : List Timer) × (lm ≡ front ++ (t ∷ back))
      × All (λ u. u.data_ptr ≢ datum) front
      × (t.data_ptr ≡ datum)
      × (r ≡ (front ++ back, t ∷ [])))
    ⊎ (All (λ u. u.data_ptr ≢ datum) lm × (r ≡ (lm, [])))

-- `ILibLifeTime_Remove` takes out and destroys the first timer with the datum, and no later one;
-- if there is none, it changes nothing.
pub remove-IsFirstRemoved :
    (lm : List Timer) (datum : ℕ) → IsFirstRemoved lm datum (remove lm datum)
unfolding remove
remove-IsFirstRemoved [] datum = inr (tt, refl)
remove-IsFirstRemoved (t ∷ ts) datum = elim (Bool-cases (t.data_ptr == datum)) [
  | inl same ↦ rw same (inl ([], t, ts, refl, tt, ground arith, refl))
  | inr other ↦
      let ne : t.data_ptr ≢ datum = ground arith in
      rw other (elim (remove-IsFirstRemoved ts datum) [
        | inl (front, u, back, e, hf, hu, r) ↦ inl (
          t ∷ front,
          u,
          back,
          ap (◌∷◌ t) e,
          (ne, hf),
          hu,
          ap (λ (x : List Timer × List Timer). (t ∷ x.0, x.1)) r,
        )
        | inr (hs, r) ↦ inr ((ne, hs), ap (λ (x : List Timer × List Timer). (t ∷ x.0, x.1)) r)
      ])
]
