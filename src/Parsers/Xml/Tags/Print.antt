-- ===== src/Parsers/Xml/Tags/Print.antt =====
-- Texts of tags, and the nodes that `ILibParseXML` makes of them.
use native.Mathlib.Nat.{zero-add}
use tv_now.Common.{
  Bool, true, false, not, ◌&&◌, List, [], ◌∷◌, ◌++◌, Option, none, some, ◌≡◌, ◌≢◌, refl, sym, ap,
  ◌∙◌, append_assoc, append-nil, arith, Bytes, length, take, take-append, All, All-append, Lacks,
  ◌==◌, if◌then◌else◌,
}
use tv_now.Parsers.Split.{first, text, parse_string}
use tv_now.Parsers.Split.Fields.{cuts}
use tv_now.Parsers.Xml.Nodes.{Node}
use tv_now.Parsers.Xml.Tags.{
  first_result, last_of, last_is_slash, scan_name, parse_tag, qualified_name, make_nodes,
}
use tv_now.Parsers.Xml.Tags.Words.{
  field, parse_string-front, first_result-word, IsName, scan_name-plain, scan_name-slash,
}

-- A tag with the text behind it. `attributes` is what stands behind the first blank.
pub record Tag : Type 0 where
  pub is_closing : Bool
  pub is_empty : Bool
  pub prefix : Option Bytes
  pub name : Bytes
  pub attributes : Option Bytes
  pub content : Bytes

abbrev pub slash : Bool → Bytes
slash true = b'/' ∷ []
slash false = []

abbrev pub qualified : Option Bytes → Bytes → Bytes
qualified none name = name
qualified (some p) name = p ++ (b':' ∷ name)

-- What stands between `<` and `>`.
abbrev pub head_with : Bytes → Option Bytes → Bool → Bytes
head_with q none e = q ++ slash e
head_with q (some more) e = q ++ (b' ' ∷ (more ++ slash e))

abbrev pub head : Tag → Bytes
head t = head_with (qualified t.prefix t.name) t.attributes t.is_empty

-- The tag from behind its `<` on, without the `/` of a closing tag.
abbrev pub body : Tag → Bytes
body t = head t ++ (b'>' ∷ t.content)

-- The `/` of an empty element ends up in the first word if there are no attributes.
abbrev word_slash : Option Bytes → Bool → Bytes
word_slash none e = slash e
word_slash (some more) e = []

abbrev word : Bytes → Option Bytes → Bool → Bytes
word q a e = q ++ word_slash a e

take_field : (p r tail : Bytes) → take (length p) ((p ++ r) ++ tail) ≡ p
take_field p r tail = ap (take (length p)) (append_assoc p r tail) ∙ take-append p (r ++ tail)

whole_word :
    (w tail : Bytes)
    → Lacks b' ' w
    → first_result (parse_string (w ++ tail) 0 (length w) (b' ' ∷ []))
      ≡ field (w ++ tail) (length w)
whole_word w tail h =
    ap first_result (parse_string-front b' ' tail w [] (w ++ tail) (length w) (h, tt) refl refl)

slash-Lacks : (e : Bool) → Lacks b' ' (slash e)
slash-Lacks true = (omega arith, tt)
slash-Lacks false = tt

first_word :
    (q : Bytes) (a : Option Bytes) (e : Bool) (tail : Bytes)
    → Lacks b' ' q
    → first_result (parse_string (head_with q a e ++ tail) 0 (length (head_with q a e)) (b' ' ∷ []))
      ≡ field (head_with q a e ++ tail) (length (word q a e))
first_word q none e tail h =
    whole_word (q ++ slash e) tail (All-append (λ c. c ≢ b' ') q (slash e) h (slash-Lacks e))
first_word q (some more) e tail h =
    first_result-word b' ' q (more ++ slash e) tail (length (q ++ (b' ' ∷ (more ++ slash e)))) h
      refl
    ∙ ap (λ w. field ((q ++ (b' ' ∷ (more ++ slash e))) ++ tail) (length w)) (sym (append-nil q))

parts_of_word :
    (p : Option Bytes) (v tail : Bytes)
    → All (Lacks b':') (elim p [ none ↦ v ∷ [] | some q ↦ q ∷ v ∷ [] ])
    → qualified_name (parse_string (qualified p v ++ tail) 0 (length (qualified p v)) (b':' ∷ []))
      ≡ (p, v)
unfolding qualified_name
parts_of_word none v tail h =
    ap qualified_name (parse_string-front b':' tail v [] _ _ h refl refl)
    ∙ ap (λ x. (none, x)) (take-append v tail)
parts_of_word (some q) v tail h =
    ap qualified_name (parse_string-front b':' tail q (v ∷ []) _ _ h refl refl)
    ∙ (ap (λ x. (some x, take (length v) (v ++ tail))) (take_field q (b':' ∷ v) tail)
        ∙ ap (λ x. (some q, x)) (take-append v tail))

qualified_append :
    (p : Option Bytes) (name s : Bytes) → qualified p name ++ s ≡ qualified p (name ++ s)
qualified_append none name s = refl
qualified_append (some q) name s = append_assoc q (b':' ∷ name) s

-- The name, with the `/` behind it or without.
scan_word :
    (name : Bytes) (a : Option Bytes) (e : Bool)
    → IsName name
    → name ≢ []
    → scan_name (name ++ word_slash a e) 0 e ≡ (length name, e)
scan_word [] a e h nz = absurd (nz refl)
scan_word (c ∷ s) none true h nz =
    scan_name-slash (c ∷ s) 0 true h (omega arith) ∙ ap (λ k. (k, true)) (zero-add (length (c ∷ s)))
scan_word (c ∷ s) none false h nz =
    ap (λ x. scan_name x 0 false) (append-nil (c ∷ s))
    ∙ (scan_name-plain (c ∷ s) 0 false h ∙ ap (λ k. (k, false)) (zero-add (length (c ∷ s))))
scan_word (c ∷ s) (some more) e h nz =
    ap (λ x. scan_name x 0 e) (append-nil (c ∷ s))
    ∙ (scan_name-plain (c ∷ s) 0 e h ∙ ap (λ k. (k, e)) (zero-add (length (c ∷ s))))

-- A tag as it is written: a name that is not empty, with a prefix or without, which has no `:`
-- and no byte that ends a name, does not begin with `?`; no `<` or `>` in the tag or the text
-- behind it; a `/` at the end of an empty element only, which a closing tag is not.
pub record IsTag (t : Tag) : Type 0 where
  pub named : t.name ≢ []
  pub name_bytes : IsName t.name
  pub qualified_bytes : IsName (qualified t.prefix t.name)
  pub plain_start : (first (qualified t.prefix t.name) == b'?') ≡ false
  pub no_colon : All (Lacks b':') (elim t.prefix [ none ↦ t.name ∷ [] | some q ↦ q ∷ t.name ∷ [] ])
  pub head_ends : Lacks b'>' (head t)
  pub content_ends : Lacks b'>' t.content
  pub body_ends : Lacks b'<' (body t)
  pub marked : (not t.is_closing && last_is_slash (head t)) ≡ t.is_empty

IsName-Lacks : (s : Bytes) → IsName s → Lacks b' ' s
IsName-Lacks [] h = tt
IsName-Lacks (c ∷ s) (hc, h) = (ground arith, IsName-Lacks s h)

slash_colon : (a : Option Bytes) (e : Bool) → Lacks b':' (word_slash a e)
slash_colon none true = (omega arith, tt)
slash_colon none false = tt
slash_colon (some more) e = tt

word_colon :
    (p : Option Bytes) (name s : Bytes)
    → Lacks b':' s
    → All (Lacks b':') (elim p [ none ↦ name ∷ [] | some q ↦ q ∷ name ∷ [] ])
    → All (Lacks b':') (elim p [ none ↦ (name ++ s) ∷ [] | some q ↦ q ∷ (name ++ s) ∷ [] ])
word_colon none name s h (hn, _) = (All-append (λ c. c ≢ b':') name s hn h, tt)
word_colon (some q) name s h (hq, (hn, _)) = (hq, (All-append (λ c. c ≢ b':') name s hn h, tt))

-- The nodes of a tag.
abbrev pub tag_nodes : Tag → Bytes → List Node
tag_nodes t reserved = make_nodes t.name t.prefix (not t.is_closing) t.is_empty reserved

abbrev behind_word : Option Bytes → Bool → Bytes
behind_word none e = []
behind_word (some more) e = b' ' ∷ (more ++ slash e)

head_split :
    (q : Bytes) (a : Option Bytes) (e : Bool) → head_with q a e ≡ word q a e ++ behind_word a e
head_split q none e = sym (append-nil (q ++ slash e))
head_split q (some more) e = ap (λ x. x ++ (b' ' ∷ (more ++ slash e))) (sym (append-nil q))

-- The name parts of the first word.
word_name :
    (t : Tag) (tail : Bytes)
    → IsTag t
    → let w = first_result (parse_string (head t ++ tail) 0 (length (head t)) (b' ' ∷ [])) in
      qualified_name (parse_string w.start 0 w.datalength (b':' ∷ []))
      ≡ (t.prefix, t.name ++ word_slash t.attributes t.is_empty)
word_name t tail h =
    let q = qualified t.prefix t.name in
    let v = t.name ++ word_slash t.attributes t.is_empty in
    let behind = behind_word t.attributes t.is_empty ++ tail in
    let w : word q t.attributes t.is_empty ≡ qualified t.prefix v =
      qualified_append t.prefix t.name (word_slash t.attributes t.is_empty) in
    let s : head t ++ tail ≡ qualified t.prefix v ++ behind =
      ap (λ x. x ++ tail) (head_split q t.attributes t.is_empty)
      ∙ (append_assoc (word q t.attributes t.is_empty) (behind_word t.attributes t.is_empty) tail
          ∙ ap (λ x. x ++ behind) w) in
    ap (λ x. qualified_name (parse_string x.start 0 x.datalength (b':' ∷ [])))
      (first_word q t.attributes t.is_empty tail (IsName-Lacks q h.qualified_bytes))
    ∙ (ap
          (λ x.
            qualified_name (parse_string x 0 (length (word q t.attributes t.is_empty)) (b':' ∷ [])))
          s
        ∙ (ap
              (λ x.
                qualified_name
                  (parse_string (qualified t.prefix v ++ behind) 0 (length x) (b':' ∷ [])))
              w
            ∙ parts_of_word t.prefix v behind (
                word_colon t.prefix t.name (word_slash t.attributes t.is_empty)
                  (slash_colon t.attributes t.is_empty) h.no_colon)))

-- What `parse_tag` makes of the parts of a tag.
nodes_of : Bool → Bool → Bytes → Option Bytes × Bytes → List Node
nodes_of start_tag empty_tag reserved (ns_tag, name) =
    let s = scan_name name 0 empty_tag in make_nodes (take s.0 name) ns_tag start_tag s.1 reserved

nodes_of-name :
    (t : Tag) (reserved : Bytes)
    → IsTag t
    → nodes_of
        (not t.is_closing)
        t.is_empty
        reserved
        (t.prefix, t.name ++ word_slash t.attributes t.is_empty)
      ≡ tag_nodes t reserved
unfolding nodes_of
nodes_of-name t reserved h =
    let v = t.name ++ word_slash t.attributes t.is_empty in
    ap (λ s. make_nodes (take s.0 v) t.prefix (not t.is_closing) s.1 reserved)
      (scan_word t.name t.attributes t.is_empty h.name_bytes h.named)
    ∙ ap (λ n. make_nodes n t.prefix (not t.is_closing) t.is_empty reserved)
        (take-append t.name (word_slash t.attributes t.is_empty))

-- `parse_tag` at a tag, with the text behind it.
pub parse_tag-nodes :
    (t : Tag) (tail closing : Bytes)
    → IsTag t
    → parse_tag (not t.is_closing) (field (body t ++ tail) (length (body t))) closing
      ≡ tag_nodes t (if not t.is_closing then t.content ++ tail else closing)
unfolding parse_tag nodes_of
parse_tag-nodes t tail closing h =
    let st = not t.is_closing in
    let rest = (b'>' ∷ t.content) ++ tail in
    let fs = cuts (b'>' ∷ []) (head t ∷ t.content ∷ []) tail in
    let two : parse_string (body t ++ tail) 0 (length (body t)) (b'>' ∷ []) ≡ fs =
      parse_string-front b'>' tail (head t) (t.content ∷ []) (body t ++ tail) (length (body t))
        (h.head_ends, (h.content_ends, tt)) refl refl in
    let reserved = if st then t.content ++ tail else closing in
    let name_of : Bytes → Option Bytes × Bytes = λ s.
      let w = first_result (parse_string s 0 (length (head t)) (b' ' ∷ [])) in
      qualified_name (parse_string w.start 0 w.datalength (b':' ∷ [])) in
    ap
      (λ xs.
        nodes_of st (st && last_is_slash (text (first_result xs)))
          (if st then (last_of xs).start else closing)
          (let w =
              first_result
                (parse_string (first_result xs).start 0 (first_result xs).datalength (b' ' ∷ [])) in
            qualified_name (parse_string w.start 0 w.datalength (b':' ∷ []))))
      two
    ∙ (ap (λ x. nodes_of st (st && last_is_slash x) reserved (name_of (body t ++ tail)))
          (take_field (head t) (b'>' ∷ t.content) tail)
        ∙ (ap (λ b. nodes_of st b reserved (name_of (body t ++ tail))) h.marked
            ∙ (ap (λ x. nodes_of st t.is_empty reserved (name_of x))
                  (append_assoc (head t) (b'>' ∷ t.content) tail)
                ∙ (ap (nodes_of st t.is_empty reserved) (word_name t rest h)
                    ∙ nodes_of-name t reserved h))))
