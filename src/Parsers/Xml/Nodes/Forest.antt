-- ===== src/Parsers/Xml/Nodes/Forest.antt =====
-- Node lists whose tags nest, as forests of elements, and the links between their nodes.
use tv_now.Common.{
  ℕ, suc, ◌+◌, Bool, true, false, List, [], ◌∷◌, ◌++◌, Option, none, some, ◌≡◌, refl, sym, ap, ◌∙◌,
  equal, equal_refl, if_true, if_false, length, length-append, append_assoc, append-nil, arith,
}
use tv_now.Common.Int.{pos}
use tv_now.Parsers.Xml.Nodes.{
  Node, process_loop, process_close, process_xml_node_list, update, name_at, has_name, close,
  starts_next, push_stack, pop_stack, peek_stack, settle,
}

-- Elements next to each other: the start tag, the elements inside, the closing tag, the elements behind.
pub data Forest : Type 0 where
  empty : Forest
  element : Node → Forest → Node → Forest → Forest

-- The tags in the order of the text.
unfoldable pub tags : Forest → List Node
tags empty = []
tags (element s inner e next) = s ∷ (tags inner ++ (e ∷ tags next))

-- Every element has a start tag and a closing tag of its name.
unfoldable pub IsMatched : Forest → Type 0
IsMatched empty = Unit
IsMatched (element s inner e next) =
    (s.start_tag ≡ true)
    × (e.start_tag ≡ false)
    × (s.name ≡ e.name)
    × IsMatched inner
    × IsMatched next

abbrev is_element : Forest → Bool
is_element empty = false
is_element (element s inner e next) = true

-- The tags from index `i` on, in an element that starts at `p`, with their links: a start tag has
-- the element around it as its parent, the element behind it, if there is one, as its peer, and its
-- closing tag.
unfoldable pub linked : ℕ → Option ℕ → Forest → List Node
linked i p empty = []
linked i p (element s inner e next) =
    let j = i + 1 + length (tags inner) in
    close j (is_element next) (record s { parent = p })
    ∷ (linked (i + 1) (some i) inner ++ (e ∷ linked (j + 1) p next))

length-linked : (i : ℕ) (p : Option ℕ) (f : Forest) → length (linked i p f) ≡ length (tags f)
unfolding linked tags
length-linked i p empty = refl
length-linked i p (element s inner e next) =
    let j = i + 1 + length (tags inner) in
    let a = length-append (linked (i + 1) (some i) inner) (e ∷ linked (j + 1) p next) in
    let b = length-append (tags inner) (e ∷ tags next) in
    let c = length-linked (i + 1) (some i) inner in
    let d = length-linked (j + 1) p next in omega arith

update-append :
    (f : Node → Node) (pre : List Node) (x : Node) (xs : List Node)
    → update f (length pre) (pre ++ (x ∷ xs)) ≡ pre ++ (f x ∷ xs)
update-append f [] x xs = refl
update-append f (y ∷ pre) x xs = ap (◌∷◌ y) (update-append f pre x xs)

name_at-append :
    (pre : List Node) (x : Node) (xs : List Node)
    → name_at (pre ++ (x ∷ xs)) (length pre) ≡ some x.name
name_at-append [] x xs = refl
name_at-append (y ∷ pre) x xs = name_at-append pre x xs

-- A start tag at the end of `pre`.
start_step :
    (pre : List Node) (s : Node) (next : List Node) (stack : List ℕ)
    → s.start_tag ≡ true
    → process_loop (s ∷ next) (length pre) stack (pre ++ (s ∷ next))
      ≡ process_loop next
          (length pre + 1)
          (length pre ∷ stack)
          (pre ++ (record s { parent = peek_stack stack } ∷ next))
unfolding process_loop push_stack pop_stack
start_step pre s next stack h =
    if_true s.start_tag _ _ h
    ∙ ap (process_loop next (length pre + 1) (length pre ∷ stack))
        (update-append (λ x. record x { parent = peek_stack stack }) pre s next)

-- A closing tag behind `pre`, the tag `s` and `inner`.
close_step :
    (pre : List Node) (s : Node) (inner : List Node) (e : Node) (next : List Node) (stack : List ℕ)
    (j : ℕ)
    → e.start_tag ≡ false
    → s.name ≡ e.name
    → process_loop (e ∷ next) j (length pre ∷ stack) (pre ++ (s ∷ (inner ++ (e ∷ next))))
      ≡ process_loop next
          (j + 1)
          stack
          (pre ++ (close j (starts_next next) s ∷ (inner ++ (e ∷ next))))
unfolding process_loop process_close
close_step pre s inner e next stack j h n =
    let found : has_name (name_at (pre ++ (s ∷ (inner ++ (e ∷ next)))) (length pre)) e.name ≡ true =
      ap (λ o. has_name o e.name) (name_at-append pre s (inner ++ (e ∷ next)))
      ∙ (ap (λ b. equal b e.name) n ∙ equal_refl e.name) in
    if_false e.start_tag _ _ h
    ∙ (if_true (has_name (name_at (pre ++ (s ∷ (inner ++ (e ∷ next)))) (length pre)) e.name) _ _
          found
        ∙ ap (process_loop next (j + 1) stack)
            (update-append (close j (starts_next next)) pre s (inner ++ (e ∷ next))))

starts_next-tags :
    (f : Forest) (rest : List Node)
    → IsMatched f
    → starts_next rest ≡ false
    → starts_next (tags f ++ rest) ≡ is_element f
unfolding tags IsMatched
starts_next-tags empty rest m h = h
starts_next-tags (element s inner e next) rest (hs, he, n, m, m') h = hs

regroup_start :
    (pre : List Node) (s : Node) (ys : List Node) → (pre ++ (s ∷ [])) ++ ys ≡ pre ++ (s ∷ ys)
regroup_start pre s ys = append_assoc pre (s ∷ []) ys

regroup :
    (pre : List Node) (s : Node) (inner : List Node) (e : Node) (ys : List Node)
    → (pre ++ (s ∷ (inner ++ (e ∷ [])))) ++ ys ≡ pre ++ (s ∷ (inner ++ (e ∷ ys)))
regroup pre s inner e ys =
    append_assoc pre (s ∷ (inner ++ (e ∷ []))) ys
    ∙ ap (λ xs. pre ++ (s ∷ xs)) (append_assoc inner (e ∷ []) ys)

-- The loop goes through a forest, and leaves the stack as it was and the links in the nodes.
loop-linked :
    (f : Forest) (pre rest : List Node) (stack : List ℕ) (i : ℕ)
    → i ≡ length pre
    → IsMatched f
    → starts_next rest ≡ false
    → process_loop (tags f ++ rest) i stack (pre ++ (tags f ++ rest))
      ≡ process_loop rest
          (i + length (tags f))
          stack
          (pre ++ (linked i (peek_stack stack) f ++ rest))
unfolding tags linked IsMatched peek_stack
loop-linked empty pre rest stack i at m h = let z : i + 0 ≡ i = omega arith in rw z refl
loop-linked (element s inner e next) pre rest stack i at (hs, he, n, m, m') h =
    let k = length pre in
    let p = peek_stack stack in
    let s' : Node = record s { parent = p } in
    let x = e ∷ (tags next ++ rest) in
    let l = linked (k + 1) (some k) inner in
    let j = k + 1 + length (tags inner) in
    let s2 = close j (is_element next) s' in
    let pre2 = pre ++ (s2 ∷ (l ++ (e ∷ []))) in
    let after = linked (j + 1) p next in
    let size1 = length-append pre (s' ∷ []) in
    let size2 = length-append pre (s2 ∷ (l ++ (e ∷ []))) in
    let size3 = length-append l (e ∷ []) in
    let size4 = length-linked (k + 1) (some k) inner in
    let size5 = length-append (tags inner) (e ∷ tags next) in
    let end : j + 1 + length (tags next) ≡ k + suc (length (tags inner ++ (e ∷ tags next))) =
      omega arith in
    rw at (
      rw (append_assoc (tags inner) (e ∷ tags next) rest, append_assoc l (e ∷ after) rest)
        (start_step pre s (tags inner ++ x) stack hs
          ∙ (ap (process_loop (tags inner ++ x) (k + 1) (k ∷ stack))
                (sym (regroup_start pre s' (tags inner ++ x)))
              ∙ (loop-linked inner (pre ++ (s' ∷ [])) x (k ∷ stack) (k + 1) (omega arith) m he
                  ∙ (ap (process_loop x j (k ∷ stack)) (regroup_start pre s' (l ++ x))
                      ∙ (close_step pre s' l e (tags next ++ rest) stack j he n
                          ∙ (ap
                                (λ b.
                                  process_loop (tags next ++ rest) (j + 1) stack
                                    (pre ++ (close j b s' ∷ (l ++ x))))
                                (starts_next-tags next rest m' h)
                              ∙ (ap (process_loop (tags next ++ rest) (j + 1) stack)
                                    (sym (regroup pre s2 l e (tags next ++ rest)))
                                  ∙ (loop-linked next pre2 rest stack (j + 1) (omega arith) m' h
                                      ∙ (ap
                                            (λ t.
                                              process_loop rest t stack (pre2 ++ (after ++ rest)))
                                            end
                                          ∙ ap
                                              (process_loop rest
                                                (k + suc (length (tags inner ++ (e ∷ tags next))))
                                                stack)
                                              (regroup pre s2 l e (after ++ rest))))))))))))

-- `ILibProcessXMLNodeList` returns 0 on the tags of a forest of elements, in which every element has a
-- start tag and a closing tag of its name, and links every start tag with the element around it,
-- the element behind it in the same one, and its closing tag.
pub process_xml_node_list-linked :
    (f : Forest) → IsMatched f → process_xml_node_list (tags f) ≡ (linked 0 none f, pos 0)
unfolding process_xml_node_list process_loop peek_stack
process_xml_node_list-linked f m =
    ap (λ xs. settle (process_loop xs 0 [] xs)) (sym (append-nil (tags f)))
    ∙ (ap settle (loop-linked f [] [] [] 0 refl m refl)
        ∙ ap (λ xs. (xs, pos 0)) (append-nil (linked 0 none f)))
