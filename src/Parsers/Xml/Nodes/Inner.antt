-- ===== src/Parsers/Xml/Nodes/Inner.antt =====
-- What `ILibReadInnerXML` finds in a list of nodes that nests.
use tv_now.Common.{
  ℕ, suc, ◌+◌, ◌-◌, ◌<◌, true, false, List, [], ◌∷◌, ◌++◌, Option, some, ◌≡◌, refl, sym, ap, ◌∙◌,
  Bytes, equal, equal_refl, ◌>>=◌, ◌==◌, ==_refl, ◌&&◌, if_true, if_false, length, length-append,
  append_assoc, arith,
}
use tv_now.Parsers.Xml.Nodes.{Node, inner_loop, read_inner_xml, push_stack, pop_stack, is_top}
use tv_now.Parsers.Xml.Nodes.Forest.{Forest, empty, element, tags, IsMatched}

module _ (node : ℕ) (name : Bytes) where
  inner_start :
      (x : Node) (next : List Node) (i : ℕ) (stack : List ℕ)
      → x.start_tag ≡ true
      → inner_loop node name (x ∷ next) i stack ≡ inner_loop node name next (i + 1) (i ∷ stack)
  unfolding inner_loop push_stack pop_stack
  inner_start x next i [] h = if_true x.start_tag _ _ h
  inner_start x next i (k ∷ ks) h = if_true x.start_tag _ _ h

  inner_other :
      (x : Node) (next : List Node) (i k : ℕ) (stack : List ℕ)
      → x.start_tag ≡ false
      → node < k
      → inner_loop node name (x ∷ next) i (k ∷ stack) ≡ inner_loop node name next (i + 1) stack
  unfolding inner_loop push_stack pop_stack
  inner_other x next i k stack h lt =
      let e : (k == node) ≡ false = ground arith in
      if_false x.start_tag _ _ h
      ∙ if_false ((k == node) && equal x.name name) _ _ (ap (λ b. b && equal x.name name) e)

  -- The loop passes over the elements inside.
  inner_loop-tags :
      (f : Forest) (rest : List Node) (i : ℕ) (stack : List ℕ)
      → node < i
      → IsMatched f
      → inner_loop node name (tags f ++ rest) i stack
        ≡ inner_loop node name rest (i + length (tags f)) stack
  unfolding tags IsMatched
  inner_loop-tags empty rest i stack lt m = let e : i + 0 ≡ i = omega arith in rw e refl
  inner_loop-tags (element s inner e next) rest i stack lt (hs, he, n, m, m') =
      let size = length-append (tags inner) (e ∷ tags next) in
      let j = i + 1 + length (tags inner) in
      let end : j + 1 + length (tags next) ≡ i + suc (length (tags inner ++ (e ∷ tags next))) =
        omega arith in
      rw (append_assoc (tags inner) (e ∷ tags next) rest) (
        inner_start s (tags inner ++ (e ∷ (tags next ++ rest))) i stack hs
        ∙ (inner_loop-tags inner (e ∷ (tags next ++ rest)) (i + 1) (i ∷ stack) (omega arith) m
            ∙ (inner_other e (tags next ++ rest) j i stack he lt
                ∙ (inner_loop-tags next rest (j + 1) stack (omega arith) m'
                    ∙ ap (λ t. inner_loop node name rest t stack) end))))

-- `ILibReadInnerXML` of an element's start tag ends at the element's closing tag: it gives the
-- pointer behind the start tag, and one byte less than the distance from there to the
-- pointer of the closing tag, which stands at its `/`.
pub read_inner_xml-closing :
    (i : ℕ) (s : Node) (inner : Forest) (e : Node) (rest : List Node)
    → s.start_tag ≡ true
    → e.start_tag ≡ false
    → s.name ≡ e.name
    → IsMatched inner
    → read_inner_xml i s (tags inner ++ (e ∷ rest))
      ≡ some (s.reserved, length s.reserved - length e.reserved - 1)
unfolding read_inner_xml inner_loop push_stack pop_stack
read_inner_xml-closing i s inner e rest hs he n m =
    let f : Option Node → Option (Bytes × ℕ) =
      λ o. o >>= λ x. some (s.reserved, length s.reserved - length x.reserved - 1) in
    let j = i + 1 + length (tags inner) in
    let same : equal e.name s.name ≡ true = ap (λ b. equal b s.name) (sym n) ∙ equal_refl s.name in
    ap (λ st. f (inner_loop i s.name (tags inner ++ (e ∷ rest)) (i + 1) st))
      (if_true s.start_tag (i ∷ []) [] hs)
    ∙ (ap f (inner_loop-tags i s.name inner (e ∷ rest) (i + 1) (i ∷ []) (omega arith) m)
        ∙ ap f (
            if_false e.start_tag _ _ he
            ∙ if_true (is_top (some i) i && equal e.name s.name) _ _
                (ap (λ b. b && equal e.name s.name) (==_refl i) ∙ same)))
