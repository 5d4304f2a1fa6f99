-- ===== src/Upnp/Subscribers.antt =====
-- UpnpMicroStack.c: the list of a service's event subscribers, `UpnpRemoveSubscriberInfo`,
-- `UpnpExpireSubscriberInfo` and `UpnpDestructSubscriberInfo`, on a store of nodes. An address is a
-- number; a node that is freed, or was never allocated, is none, and every access to it is a fault.
-- Loops over the links have their rounds as fuel.
pub mod Chain
pub mod Relink
pub mod TakeOut
pub mod Removal
use tv_now.Common.{
  ℕ, zero, suc, ◌+◌, Bool, true, false, ◌||◌, Option, none, some, Bytes, ◌==◌, ltb, if◌then◌else◌,
  length, equal,
}
use tv_now.Common.Int.{ℤ, pos, negsuc}

-- `struct SubscriberInfo`, its links apart.
pub record Subscription : Type 0 where
  pub sid : Bytes
  pub seq : ℕ
  pub address : ℕ
  pub port : ℕ
  pub path : Bytes
  pub ref_count : ℤ
  pub renew_by : ℕ

pub record SubscriberInfo : Type 0 where
  pub subscription : Subscription
  pub next : Option ℕ
  pub previous : Option ℕ

-- `HeadSubscriberPtr_...` and `NumberOfSubscribers_...` of a service.
pub record Subscribers : Type 0 where
  pub head : Option ℕ
  pub total : ℤ

abbrev pub Store : Type 0
Store = ℕ → Option SubscriberInfo

-- A result; or an access to a freed node or another fault of the memory; or an access to a container
-- as if it were a node; or a loop
-- whose fuel is spent.
pub data Outcome {ℓ} (A : Type ℓ) : Type ℓ where
  done : A → Outcome A
  freed no_node spent : Outcome A

infixl 5 ◌>>=◌
abbrev pub ◌>>=◌ {ℓ κ} : {A : Type ℓ} {B : Type κ} → Outcome A → (A → Outcome B) → Outcome B
done a >>= f = f a
freed >>= f = freed
no_node >>= f = no_node
spent >>= f = spent

-- The store after a node is written, and after it is freed.
unfoldable pub write : Store → ℕ → SubscriberInfo → Store
write st a n b = if b == a then some n else st b

unfoldable pub free : Store → ℕ → Store
free st a b = if b == a then none else st b

unfoldable pub load : Store → ℕ → Outcome SubscriberInfo
load st a = elim (st a) [ none ↦ freed | some n ↦ done n ]

-- A node is read and written back.
unfoldable pub update_node : Store → ℕ → (SubscriberInfo → SubscriberInfo) → Outcome Store
unfolding load write
update_node st a f = load st a >>= λ n. done (write st a (f n))

abbrev pub set_next : Option ℕ → SubscriberInfo → SubscriberInfo
set_next p n = record n { next = p }

abbrev pub set_previous : Option ℕ → SubscriberInfo → SubscriberInfo
set_previous p n = record n { previous = p }

-- `--` on an `int`.
unfoldable pub decrement : ℤ → ℤ
decrement (pos zero) = negsuc 0
decrement (pos (suc n)) = pos n
decrement (negsuc n) = negsuc (n + 1)

-- `*TotalSubscribers <= 0 || *TotalSubscribers > MAX_UPNP_SUBSCRIBERS`.
unfoldable pub is_bad_total : ℤ → Bool
is_bad_total (pos n) = n == 0 || ltb 100 n
is_bad_total (negsuc n) = true

-- `SIDLength <= 0 || SIDLength > 64`.
unfoldable pub is_bad_sid : Bytes → Bool
is_bad_sid sid = length sid == 0 || ltb 64 (length sid)

-- The search for a node with the SID: the node and the one whose link was followed, if there is one.
unfoldable pub find_loop : ℕ → Store → Option ℕ → Option ℕ → Bytes → Outcome (Option (ℕ × Option ℕ))
unfolding load equal
find_loop zero st before info sid = spent
find_loop (suc fuel) st before none sid = done none
find_loop (suc fuel) st before (some a) sid = load st a >>= λ n.
    let later = find_loop fuel st (some a) n.next sid in
    if equal n.subscription.sid sid then done (some (a, before)) else later

-- `*ptr = info->Next`.
unfoldable pub set_slot : Store → Subscribers → Option ℕ → Option ℕ → Outcome (Store × Subscribers)
unfolding update_node
set_slot st l none p = done (st, record l { head = p })
set_slot st l (some b) p = update_node st b (set_next p) >>= λ st'. done (st', l)

-- The links of the node `b` behind a node that is taken out, whose `Previous` is the last argument.
unfoldable pub link_behind : Store → ℕ → Option ℕ → Outcome Store
unfolding update_node
link_behind st b none = update_node st b (set_previous none)
link_behind st b (some q) = update_node st b (set_previous (some q)) >>= λ st1.
    update_node st1 q (set_next (some b)) >>= λ st2. update_node st2 b (set_previous (some q))

-- The body of the search's `if`, and the clearing of the node's own links.
unfoldable pub take_out : Store → Subscribers → ℕ → Option ℕ → Outcome (Store × Subscribers)
unfolding load set_slot link_behind update_node decrement
take_out st l a before = load st a >>= λ n. set_slot st l before n.next >>= λ x.
    (elim n.next [ none ↦ done x.0 | some b ↦ link_behind x.0 b n.previous ]) >>= λ st'.
    update_node st' a (λ m. record m { previous = none; next = none }) >>= λ st''.
    done (st'', record x.1 { total = decrement x.1.total })

-- `UpnpRemoveSubscriberInfo`, with the node that it returns, or NULL.
unfoldable pub remove_subscriber_info :
    ℕ → Store → Subscribers → Bytes → Outcome ((Store × Subscribers) × Option ℕ)
unfolding is_bad_total is_bad_sid find_loop take_out
remove_subscriber_info fuel st l sid =
    if is_bad_total l.total || is_bad_sid sid
    then done ((st, l), l.head)
    else find_loop fuel st none l.head sid >>= λ found. elim found [
      | none ↦ done ((st, l), none)
      | some (a, before) ↦ take_out st l a before >>= λ x. done (x, some a)
    ]

-- `UpnpDestructSubscriberInfo`.
unfoldable pub destruct : Store → ℕ → Outcome Store
unfolding load free
destruct st a = load st a >>= λ n. done (free st a)

abbrev pub is_zero : ℤ → Bool
is_zero (pos n) = n == 0
is_zero (negsuc n) = false

abbrev pub set_ref_count : ℤ → SubscriberInfo → SubscriberInfo
set_ref_count k n = record n { subscription = record n.subscription { ref_count = k } }

-- `--info->RefCount; if(info->RefCount==0) UpnpDestructSubscriberInfo(info)`.
unfoldable pub release : Store → ℕ → Outcome Store
unfolding load update_node decrement destruct
release st a = load st a >>= λ n.
    let count = decrement n.subscription.ref_count in
    update_node st a (set_ref_count count) >>= λ st'.
    if is_zero count then destruct st' a else done st'
