-- ===== src/Parsers/Xml/Nodes/Nesting.antt =====
-- Node lists that `ILibProcessXMLNodeList` accepts nest.
use mathlib.Core.Path.{subst}
use tv_now.Common.{
  ℕ, zero, suc, ◌+◌, Bool, true, false, List, [], ◌∷◌, ◌++◌, some, ◌≡◌, ◌≢◌, refl, sym, ap, ◌∙◌,
  equal_sound, arith, if_true, if_false, append_assoc, Bool-cases, inl, inr,
}
use tv_now.Common.Int.{pos, negsuc}
use tv_now.Parsers.Xml.Nodes.{
  Node, Processed, process_loop, process_close, process_xml_node_list, update, name_at, has_name,
  close, starts_next, push_stack, pop_stack, peek_stack, settle,
}
use tv_now.Parsers.Xml.Nodes.Forest.{Forest, empty, element, tags, IsMatched}

-- The names in a store of nodes stay.
update-name_at :
    (g : Node → Node) (i k : ℕ) (ns : List Node)
    → ((x : Node) → (g x).name ≡ x.name)
    → name_at (update g i ns) k ≡ name_at ns k
update-name_at g i k [] h = refl
update-name_at g zero zero (x ∷ ns) h = ap some (h x)
update-name_at g zero (suc k) (x ∷ ns) h = refl
update-name_at g (suc i) zero (x ∷ ns) h = refl
update-name_at g (suc i) (suc k) (x ∷ ns) h = update-name_at g i k ns h

-- The open start tags, by their indices on the stack.
abbrev IsOpen : List Node → ℕ → Node → Type 0
IsOpen ns i s = (s.start_tag ≡ true) × (name_at ns i ≡ some s.name)

abbrev AreOpen : List Node → List ℕ → List Node → Type 0
AreOpen ns [] [] = Unit
AreOpen ns [] (s ∷ ss) = ⊥
AreOpen ns (i ∷ is) [] = ⊥
AreOpen ns (i ∷ is) (s ∷ ss) = IsOpen ns i s × AreOpen ns is ss

-- The rest of the list closes the open start tags, from the inside out.
abbrev Closes : List Node → List Node → Type 0
Closes [] ts = (f : Forest) × IsMatched f × (ts ≡ tags f)
Closes (s ∷ ss) ts =
    (f : Forest) × (e : Node) × (rest : List Node) × IsMatched f
    × (e.start_tag ≡ false)
    × (s.name ≡ e.name)
    × (ts ≡ tags f ++ (e ∷ rest))
    × Closes ss rest

AreOpen-update :
    (g : Node → Node) (i : ℕ) (ns : List Node) (is : List ℕ) (ss : List Node)
    → ((x : Node) → (g x).name ≡ x.name)
    → AreOpen ns is ss
    → AreOpen (update g i ns) is ss
AreOpen-update g i ns [] [] h o = tt
AreOpen-update g i ns [] (s ∷ ss) h o = o
AreOpen-update g i ns (k ∷ is) [] h o = o
AreOpen-update g i ns (k ∷ is) (s ∷ ss) h ((a, b), o) =
    ((a, update-name_at g i k ns h ∙ b), AreOpen-update g i ns is ss h o)

-- A start tag in front of what closes it.
Closes-start :
    (s : Node) (ss ts : List Node) → s.start_tag ≡ true → Closes (s ∷ ss) ts → Closes ss (s ∷ ts)
unfolding tags IsMatched
Closes-start s [] ts h (f, e, rest, m, he, n, eq, (g, m', eq')) =
    (element s f e g, (h, he, n, m, m'), ap (◌∷◌ s) (eq ∙ ap (λ r. tags f ++ (e ∷ r)) eq'))
Closes-start s (s' ∷ ss) ts h (f, e, rest, m, he, n, eq, (g, e', rest', m', he', n', eq', c)) = (
  element s f e g,
  e',
  rest',
  (h, he, n, m, m'),
  he',
  n',
  ap (◌∷◌ s) (
      eq
      ∙ (ap (λ r. tags f ++ (e ∷ r)) eq' ∙ sym (append_assoc (tags f) (e ∷ tags g) (e' ∷ rest')))),
  c,
)

-- No error, and nothing left open.
abbrev IsAccepted : Processed → Type 0
IsAccepted p = (settle p).1 ≡ pos 0

-- The store still has the names of the rest of the list, from index `i` on.
abbrev Reads : List Node → ℕ → List Node → Type 0
Reads ts i ns = (k : ℕ) → name_at ns (i + k) ≡ name_at ts k

Reads-update :
    (g : Node → Node) (t : Node) (ts : List Node) (i m : ℕ) (ns : List Node)
    → ((x : Node) → (g x).name ≡ x.name)
    → Reads (t ∷ ts) i ns
    → Reads ts (i + 1) (update g m ns)
Reads-update g t ts i m ns h r k =
    let e : i + 1 + k ≡ i + suc k = omega arith in
    update-name_at g m (i + 1 + k) ns h ∙ (ap (name_at ns) e ∙ r (suc k))

close_name : (i : ℕ) (b : Bool) (x : Node) → (close i b x).name ≡ x.name
close_name i true x = refl
close_name i false x = refl

not_accepted :
    (ns : List Node) (is : List ℕ) (n : ℕ)
    → (settle (record { nodes = ns; stack = is; ret_val = negsuc n })).1 ≢ pos 0
not_accepted ns [] n h = cc
not_accepted ns (i ∷ is) n h = cc

-- What is proved of the rest of a list.
abbrev Nests : List Node → ℕ → Type 0
Nests ts i =
    (is : List ℕ) (ns ss : List Node)
    → Reads ts i ns
    → AreOpen ns is ss
    → IsAccepted (process_loop ts i is ns)
    → Closes ss ts

closing-Closes :
    (t : Node) (ts : List Node) (i : ℕ)
    → t.start_tag ≡ false
    → Nests ts (i + 1)
    → (is : List ℕ) (ns ss : List Node) → Reads (t ∷ ts) i ns
    → AreOpen ns is ss
    → IsAccepted (
        process_close
          (λ xs s. process_loop ts (i + 1) s xs)
          t
          i
          ts
          ns
          (pop_stack is).0
          (pop_stack is).1)
    → Closes ss (t ∷ ts)
unfolding process_close pop_stack tags IsMatched
closing-Closes t ts i h ih [] ns [] r o a = absurd (not_accepted ns [] 0 a)
closing-Closes t ts i h ih [] ns (s ∷ ss) r o a = absurd o
closing-Closes t ts i h ih (k ∷ is) ns [] r o a = absurd o
closing-Closes t ts i h ih (k ∷ is) ns (s ∷ ss) r ((hs, n), o) a =
    elim (Bool-cases (has_name (name_at ns k) t.name)) [
      | inl same ↦
          let rest =
            ih is (update (close i (starts_next ts)) k ns) ss
              (Reads-update (close i (starts_next ts)) t ts i k ns (close_name i (starts_next ts))
                r)
              (AreOpen-update (close i (starts_next ts)) k ns is ss (close_name i (starts_next ts))
                o)
              (subst IsAccepted (if_true (has_name (name_at ns k) t.name) _ _ same) a) in
          (
            empty,
            t,
            ts,
            tt,
            h,
            equal_sound s.name t.name (sym (ap (λ x. has_name x t.name) n) ∙ same),
            refl,
            rest,
          )
      | inr other ↦ absurd (
          not_accepted ns is 1
            (subst IsAccepted (if_false (has_name (name_at ns k) t.name) _ _ other) a))
    ]

loop-Closes : (ts : List Node) (i : ℕ) → Nests ts i
unfolding process_loop tags IsMatched push_stack
loop-Closes [] i [] ns [] r o a = (empty, tt, refl)
loop-Closes [] i [] ns (s ∷ ss) r o a = absurd o
loop-Closes [] i (k ∷ is) ns ss r o a = cc
loop-Closes (t ∷ ts) i is ns ss r o a = elim (Bool-cases t.start_tag) [
  | inl h ↦
      let g : Node → Node = λ x. record x { parent = peek_stack is } in
      let z : i ≡ i + 0 = omega arith in
      Closes-start t ss ts h (
        loop-Closes ts (i + 1) (i ∷ is) (update g i ns) (t ∷ ss)
          (Reads-update g t ts i i ns (λ x. refl) r)
          (
            (h, update-name_at g i i ns (λ x. refl) ∙ (ap (name_at ns) z ∙ r 0)),
            AreOpen-update g i ns is ss (λ x. refl) o,
          )
          (subst IsAccepted (if_true t.start_tag _ _ h) a))
  | inr h ↦
      closing-Closes t ts i h (loop-Closes ts (i + 1)) is ns ss r o
        (subst IsAccepted (if_false t.start_tag _ _ h) a)
]

-- A list of nodes for which `ILibProcessXMLNodeList` returns 0 is the tags of a forest of elements, in
-- which every element has a start tag and a closing tag of its name.
pub process_xml_node_list-IsMatched :
    (ns : List Node)
    → (process_xml_node_list ns).1 ≡ pos 0
    → (f : Forest) × IsMatched f × (ns ≡ tags f)
unfolding process_xml_node_list
process_xml_node_list-IsMatched ns h =
    loop-Closes ns 0 [] ns [] (λ k. let z : 0 + k ≡ k = omega arith in ap (name_at ns) z) tt h
