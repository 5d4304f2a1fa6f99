-- ===== src/Parsers/Xml/Nodes.antt =====
-- libIWeb/ILibParsers.c: `ILibProcessXMLNodeList`, `ILibReadInnerXML` and the stack functions.
-- A list of nodes is a list, and a pointer to a node of it is its index. A stack is the list of its
-- data, from the top.
pub mod Forest
pub mod Nesting
pub mod Inner
use tv_now.Common.{
  ℕ, zero, suc, ◌+◌, ◌-◌, Bool, true, false, List, [], ◌∷◌, ◌++◌, Option, none, some, Bytes, equal,
  if◌then◌else◌, length, ◌>>=◌, ◌==◌, ◌&&◌,
}
use tv_now.Common.Int.{ℤ, pos, negsuc}

-- `struct ILibXMLNode`. `reserved` is the pointer into the buffer.
pub record Node : Type 0 where
  pub name : Bytes
  pub ns_tag : Option Bytes
  pub start_tag : Bool
  pub empty_tag : Bool
  pub reserved : Bytes
  pub parent : Option ℕ
  pub peer : Option ℕ
  pub closing_tag : Option ℕ

-- `ILibPushStack`.
unfoldable pub push_stack : List ℕ → ℕ → List ℕ
push_stack stack datum = datum ∷ stack

-- `ILibPopStack`: the datum on top, or NULL, and the rest.
unfoldable pub pop_stack : List ℕ → Option ℕ × List ℕ
pop_stack [] = (none, [])
pop_stack (datum ∷ stack) = (some datum, stack)

-- `ILibPeekStack`.
unfoldable pub peek_stack : List ℕ → Option ℕ
peek_stack [] = none
peek_stack (datum ∷ stack) = some datum

-- A write through a pointer to a node.
abbrev pub update : (Node → Node) → ℕ → List Node → List Node
update f i [] = []
update f zero (x ∷ xs) = f x ∷ xs
update f (suc i) (x ∷ xs) = x ∷ update f i xs

-- `current->Next!=NULL && current->Next->StartTag!=0`, by what is behind.
abbrev pub starts_next : List Node → Bool
starts_next [] = false
starts_next (x ∷ xs) = x.start_tag

-- The name of the node at an index.
abbrev pub name_at : List Node → ℕ → Option Bytes
name_at [] i = none
name_at (x ∷ xs) zero = some x.name
name_at (x ∷ xs) (suc i) = name_at xs i

-- `temp->NameLength==current->NameLength && memcmp(...)==0`.
abbrev pub has_name : Option Bytes → Bytes → Bool
has_name none b = false
has_name (some a) b = equal a b

-- What a closing tag at `i` writes to the node that it closes.
abbrev pub close : ℕ → Bool → Node → Node
close i next x =
    if next
    then record x { peer = some (i + 1); closing_tag = some i }
    else record x { closing_tag = some i }

-- How the loop of `ILibProcessXMLNodeList` ends: the nodes, the stack and `RetVal`.
pub record Processed : Type 0 where
  pub nodes : List Node
  pub stack : List ℕ
  pub ret_val : ℤ

-- A closing tag, with what has been popped; `more` is the rest of the loop.
unfoldable pub process_close :
    (List Node → List ℕ → Processed)
    → Node
    → ℕ
    → List Node
    → List Node
    → Option ℕ
    → List ℕ
    → Processed
unfolding equal
process_close more current i next nodes none stack = record {
  nodes = nodes;
  stack = stack;
  ret_val = negsuc 0;
}
process_close more current i next nodes (some temp) stack =
    let rest = more (update (close i (starts_next next)) temp nodes) stack in
    if has_name (name_at nodes temp) current.name
    then rest
    else record { nodes = nodes; stack = stack; ret_val = negsuc 1 }

-- The loop, at the node `i`: what is left of the list, the stack and the nodes as they are.
unfoldable pub process_loop : List Node → ℕ → List ℕ → List Node → Processed
unfolding push_stack pop_stack peek_stack process_close
process_loop [] i stack nodes = record { nodes = nodes; stack = stack; ret_val = pos 0 }
process_loop (current ∷ next) i stack nodes =
    let opened =
      process_loop next (i + 1) (push_stack stack i)
        (update (λ x. record x { parent = peek_stack stack }) i nodes) in
    let (temp, popped) = pop_stack stack in
    if current.start_tag
    then opened
    else process_close (λ ns s. process_loop next (i + 1) s ns) current i next nodes temp popped

-- `if(TagStack!=NULL) {RetVal = -3; ...}`.
abbrev pub settle : Processed → List Node × ℤ
settle p = elim p.stack [ [] ↦ (p.nodes, p.ret_val) | _ ∷ _ ↦ (p.nodes, negsuc 2) ]

unfoldable pub process_xml_node_list : List Node → List Node × ℤ
unfolding process_loop
process_xml_node_list nodes = settle (process_loop nodes 0 [] nodes)

-- `ILibPopStack(&TagStack)==node`.
abbrev is_top : Option ℕ → ℕ → Bool
is_top none node = false
is_top (some k) node = k == node

-- The loop of `ILibReadInnerXML` behind the node at index `node`, at the node `i`: the tag at which
-- it ends, or a read through NULL behind the last node.
unfoldable pub inner_loop : ℕ → Bytes → List Node → ℕ → List ℕ → Option Node
unfolding push_stack pop_stack equal
inner_loop node name [] i stack = none
inner_loop node name (x ∷ next) i stack =
    let opened = inner_loop node name next (i + 1) (push_stack stack i) in
    let (top, popped) = pop_stack stack in
    let closed = inner_loop node name next (i + 1) popped in
    if x.start_tag then opened else if is_top top node && equal x.name name then some x else closed

-- `ILibReadInnerXML`, on the node at index `i` with those behind it: the pointer and the length.
unfoldable pub read_inner_xml : ℕ → Node → List Node → Option (Bytes × ℕ)
unfolding push_stack inner_loop
read_inner_xml i node next =
    let stack = if node.start_tag then push_stack [] i else [] in
    inner_loop i node.name next (i + 1) stack >>= λ x.
    some (node.reserved, length node.reserved - length x.reserved - 1)
