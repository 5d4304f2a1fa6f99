-- ===== src/Parsers/Queue.antt =====
-- libIWeb/ILibParsers.c: the `ILibQueue` operations on a store of nodes. An address is a number;
-- the address that MALLOC returns is a parameter, and a freed node is never read again.
pub mod Fifo
pub mod Tests
use tv_now.Common.{ℕ, Bool, true, false, Option, none, some, ◌==◌, if◌then◌else◌}

-- `struct ILibStackNode`.
pub record Node : Type 0 where
  pub datum : ℕ
  pub next : Option ℕ

-- `struct ILibQueueNode`.
pub record Queue : Type 0 where
  pub head : Option ℕ
  pub tail : Option ℕ

abbrev pub Store : Type 0
Store = ℕ → Node

-- The store after a node is written.
unfoldable pub write : Store → ℕ → Node → Store
write st a n b = if b == a then n else st b

-- `ILibQueue_Create`.
abbrev pub create : Queue
create = record { head = none; tail = none }

-- `ILibQueue_IsEmpty`.
unfoldable pub is_empty : Queue → Bool
is_empty q = elim q.head [ none ↦ true | some h ↦ false ]

-- `qn->Tail->Next = sn; qn->Tail = sn`; `none` is a store through NULL.
unfoldable pub link_tail : Store → Queue → ℕ → Option ℕ → Option (Store × Queue)
link_tail st q sn none = none
link_tail st q sn (some t) =
    some (write st t (record { datum = (st t).datum; next = some sn }), record q { tail = some sn })

-- The test of `ILibQueue_EnQueue` on the head.
unfoldable pub link_node : Store → Queue → ℕ → Option ℕ → Option (Store × Queue)
unfolding link_tail
link_node st q sn none = some (st, record { head = some sn; tail = some sn })
link_node st q sn (some h) = link_tail st q sn q.tail

-- `ILibQueue_EnQueue`, for the address of the new node.
unfoldable pub en_queue : Store → Queue → ℕ → ℕ → Option (Store × Queue)
unfolding link_node write
en_queue st q sn datum = link_node (write st sn (record { datum = datum; next = none })) q sn q.head

-- `ILibQueue_DeQueue`: the queue and the result, which is `none` for NULL.
unfoldable pub unlink_node : Store → Queue → Option ℕ → Queue × Option ℕ
unlink_node st q none = (q, none)
unlink_node st q (some h) =
    let head' = (st h).next in
    let tail' : Option ℕ = elim head' [ none ↦ none | some b ↦ q.tail ] in
    (record { head = head'; tail = tail' }, some (st h).datum)

unfoldable pub de_queue : Store → Queue → Queue × Option ℕ
unfolding unlink_node
de_queue st q = unlink_node st q q.head

-- `ILibQueue_PeekQueue`.
unfoldable pub peek_queue : Store → Queue → Option ℕ
peek_queue st q = elim q.head [ none ↦ none | some h ↦ some (st h).datum ]
