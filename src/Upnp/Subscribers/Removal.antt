-- ===== src/Upnp/Subscribers/Removal.antt =====
-- `UpnpRemoveSubscriberInfo` on the list of a service takes out the first entry with the SID.
use mathlib.Core.Path.{subst}
use tv_now.Common.{
  ℕ, zero, suc, ◌≡◌, ◌≢◌, ◌≤◌, ◌<◌, ◌⊎◌, refl, ap, inl, inr, false, Option, none, some, List, [],
  ◌∷◌, ◌++◌, All, Bytes, length, equal, equal_sound, equal_refl, Bool-cases, arith,
}
use tv_now.Common.Int.{pos}
use tv_now.Upnp.Subscribers.{
  Subscribers, Store, done, find_loop, is_bad_total, is_bad_sid, remove_subscriber_info,
}
use tv_now.Upnp.Subscribers.Chain.{Entry, node, pointer, last_pointer, Segment, Holds, load_lem}
use tv_now.Upnp.Subscribers.Relink.{Frame, TakenOut}
use tv_now.Upnp.Subscribers.TakeOut.{take_out-TakenOut}

-- None of the entries has the SID.
abbrev pub Others : Bytes → List Entry → Type 0
Others sid = All (λ (x : Entry). x.1.sid ≢ sid)

-- Where the first entry with the SID stands, if there is one.
abbrev pub Found : Bytes → List Entry → Type 0
Found sid xs =
    (ys : List Entry) × (x : Entry) × (zs : List Entry) × (xs ≡ ys ++ x ∷ zs)
    × Others sid ys
    × (x.1.sid ≡ sid)

module _ (st : Store) (sid : Bytes) where
  find_loop-Found :
      (fuel : ℕ) (before : Option ℕ) (xs : List Entry)
      → length xs < fuel
      → Segment st before xs none
      → ((f : Found sid xs) × (find_loop fuel st before (pointer xs none) sid
            ≡ done (some (f.1.0, last_pointer before f.0))))
        ⊎ (Others sid xs × (find_loop fuel st before (pointer xs none) sid ≡ done none))
  unfolding find_loop
  find_loop-Found zero before xs h s = absurd (omega arith)
  find_loop-Found (suc fuel) before [] h s = inr (tt, refl)
  find_loop-Found (suc fuel) before (x ∷ xs) h (e, s) =
      let here = load_lem st x.0 e in
      elim (Bool-cases (equal x.1.sid sid)) [
        | inl same ↦ inl (([], x, xs, refl, tt, equal_sound x.1.sid sid same), rw (here, same) refl)
        | inr other ↦
            let ne : x.1.sid ≢ sid = λ q. cc (rw q at other, equal_refl sid) in
            elim (find_loop-Found fuel (some x.0) xs (omega arith) s) [
              | inl ((ys, y, zs, split, o, k), found) ↦
                  inl ((x ∷ ys, y, zs, ap (◌∷◌ x) split, (ne, o), k), rw (here, other) found)
              | inr (o, found) ↦ inr ((ne, o), rw (here, other) found)
            ]
      ]

is_bad_sid_lem : (sid : Bytes) → 1 ≤ length sid → length sid ≤ 64 → is_bad_sid sid ≡ false
unfolding is_bad_sid
is_bad_sid_lem sid h k = ground arith

is_bad_total_lem : (n : ℕ) → 1 ≤ n → n ≤ 100 → is_bad_total (pos n) ≡ false
unfolding is_bad_total
is_bad_total_lem n h k = ground arith

-- The entry is returned and out of the list, and no node outside the list is changed.
abbrev pub Removed : ℕ → Store → Subscribers → Bytes → List Entry → Entry → List Entry → Type 0
Removed fuel st l sid ys x zs =
    (st' : Store) × (l' : Subscribers) × (remove_subscriber_info fuel st l sid
      ≡ done ((st', l'), some x.0))
    × Holds st' l' (ys ++ zs)
    × (st' x.0 ≡ some (node x.1 none none))
    × Frame st st' (ys ++ x ∷ zs)

removed :
    (fuel : ℕ) (st : Store) (l : Subscribers) (sid : Bytes) (ys : List Entry) (x : Entry)
    (zs : List Entry)
    → is_bad_total l.total ≡ false
    → is_bad_sid sid ≡ false
    → find_loop fuel st none l.head sid ≡ done (some (x.0, last_pointer none ys))
    → TakenOut st l ys x zs
    → Removed fuel st l sid ys x zs
unfolding remove_subscriber_info
removed fuel st l sid ys x zs bt bs found (st', l', e, held, own, frame) =
    (st', l', rw (bt, bs, found, e) refl, held, own, frame)

empty :
    (fuel : ℕ) (st : Store) (l : Subscribers) (sid : Bytes)
    → l.head ≡ none
    → l.total ≡ pos 0
    → remove_subscriber_info fuel st l sid ≡ done ((st, l), none)
unfolding remove_subscriber_info is_bad_total
empty fuel st l sid h t = simp (t, h)

absent :
    (fuel : ℕ) (st : Store) (l : Subscribers) (sid : Bytes)
    → is_bad_total l.total ≡ false
    → is_bad_sid sid ≡ false
    → find_loop fuel st none l.head sid ≡ done none
    → remove_subscriber_info fuel st l sid ≡ done ((st, l), none)
unfolding remove_subscriber_info
absent fuel st l sid bt bs found = rw (bt, bs, found) refl

-- On a well-formed list of at most 100 entries, with a SID of 1 to 64 bytes:
-- `UpnpRemoveSubscriberInfo` takes out the first entry with the SID, returns its node, keeps the
-- list well-formed and touches no node outside it; if there is no such entry, it returns NULL and
-- changes nothing.
pub remove_subscriber_info-Holds :
    (fuel : ℕ) (st : Store) (l : Subscribers) (xs : List Entry) (sid : Bytes)
    → Holds st l xs
    → length xs ≤ 100
    → 1 ≤ length sid
    → length sid ≤ 64
    → length xs < fuel
    → ((f : Found sid xs) × Removed fuel st l sid f.0 f.1 f.2)
      ⊎ (Others sid xs × (remove_subscriber_info fuel st l sid ≡ done ((st, l), none)))
unfolding remove_subscriber_info is_bad_total
remove_subscriber_info-Holds fuel st l [] sid (h, t, d, s) n a b f =
    inr (tt, empty fuel st l sid h t)
remove_subscriber_info-Holds fuel st l (x ∷ xs) sid (h, t, d, s) n a b f =
    let bs = is_bad_sid_lem sid a b in
    let bt : is_bad_total l.total ≡ false =
      rw t (is_bad_total_lem (suc (length xs)) (omega arith) n) in
    elim (find_loop-Found st sid fuel none (x ∷ xs) f s) [
      | inl ((ys, y, zs, split, o, k), found) ↦ inl (
        (ys, y, zs, split, o, k),
        removed fuel st l sid ys y zs bt bs (rw h found) (
            take_out-TakenOut st l ys y zs
              (subst (λ (v : List Entry). Holds st l v) split (h, t, d, s))),
      )
      | inr (o, found) ↦ inr (o, absent fuel st l sid bt bs (rw h found))
    ]
