-- ===== src/Parsers/HashTree.antt =====
-- libIWeb/ILibParsers.c: the `ILibHashTree` table. It is a chain of nodes behind a first node of
-- zeros, which `ILibInitHashTree` makes and which is never taken out; the list here is that of
-- the nodes behind it. The keys are byte ranges with their length, and a value is any type's;
-- `none` stands for a NULL in a node.
pub mod Laws
pub mod Map
pub mod Has
pub mod Tests
use Prim.Native.Nat.{bit_xor}
use tv_now.Common.{
  ℕ, ◌>>=◌, ◌-◌, ◌+◌, ◌*◌, ◌/◌, Bool, true, false, ◌&&◌, Option, none, some, List, [], ◌∷◌, ◌++◌,
  Bytes, leb, ◌==◌, if◌then◌else◌, length, take, drop, equal,
}

-- `memcpy(TempValue, p, 4)` over zeros, read as an `int` with the low byte first.
word : Bytes → ℕ
word [] = 0
word (a ∷ []) = a
word (a ∷ b ∷ []) = a + b * 256
word (a ∷ b ∷ c ∷ []) = a + b * 256 + c * 65536
word (a ∷ b ∷ c ∷ d ∷ s) = a + b * 256 + c * 65536 + d * 16777216

-- `ILibGetHashValue`, as the unsigned number with the bits of the `int`.
unfoldable pub get_hash_value : Bytes → ℕ
unfolding word
get_hash_value key =
    let keylength = length key in
    let hash_value = bit_xor (word (take 4 key)) (word (drop (keylength - 4) key)) in
    if leb keylength 4
    then word key
    else if leb 10 keylength
    then bit_xor hash_value (word (take 4 (drop (keylength / 2) key)))
    else hash_value

-- `struct HashNode` without its links.
pub record HashNode {ℓ} (V : Type ℓ) : Type ℓ where
  pub key_hash : ℕ
  pub key_value : Bytes
  pub key_length : ℕ
  pub data_ptr : Option V

module _ {ℓ} {V : Type ℓ} where
  -- The test of `ILibFindEntry` at a node, for a key that is not empty.
  pub is_entry : Bytes → HashNode V → Bool
  is_entry key node =
      node.key_hash == get_hash_value key
      && (node.key_length == length key && equal node.key_value key)

  -- `ILibFindEntry` without `create`: the first node that passes the test. The first node of the
  -- chain does not, as its key length is 0.
  unfoldable pub find_entry : List (HashNode V) → Bytes → Option (HashNode V)
  find_entry [] key = none
  find_entry (node ∷ rest) key =
      let later = find_entry rest key in if is_entry key node then some node else later

  -- `ILibHasEntry`.
  unfoldable pub has_entry : List (HashNode V) → Bytes → Bool
  has_entry tree [] = false
  has_entry tree (b ∷ key) = elim (find_entry tree (b ∷ key)) [ none ↦ false | some node ↦ true ]

  -- `ILibGetEntry`.
  pub get_entry : List (HashNode V) → Bytes → Option V
  get_entry tree [] = none
  get_entry tree (b ∷ key) = find_entry tree (b ∷ key) >>= (λ node. node.data_ptr)

  -- The walk of `ILibFindEntry` with `create`, and the store of `ILibAddEntry` into the node found
  -- or made.
  pub add_loop : List (HashNode V) → Bytes → Option V → List (HashNode V)
  add_loop [] key value =
      record {
        key_hash = get_hash_value key;
        key_value = key;
        key_length = length key;
        data_ptr = value;
      }
      ∷ []
  add_loop (node ∷ rest) key value =
      let later = add_loop rest key value in
      if is_entry key node then record node { data_ptr = value } ∷ rest else node ∷ later

  -- `ILibAddEntry`; `none` is its store through the NULL that `ILibFindEntry` returns for an
  -- empty key.
  pub add_entry : List (HashNode V) → Bytes → Option V → Option (List (HashNode V))
  add_entry tree [] value = none
  add_entry tree (b ∷ key) value = some (add_loop tree (b ∷ key) value)

  -- `ILibDeleteEntry`.
  pub delete_loop : List (HashNode V) → Bytes → List (HashNode V)
  delete_loop [] key = []
  delete_loop (node ∷ rest) key =
      let later = delete_loop rest key in if is_entry key node then rest else node ∷ later

  pub delete_entry : List (HashNode V) → Bytes → List (HashNode V)
  delete_entry tree [] = tree
  delete_entry tree (b ∷ key) = delete_loop tree (b ∷ key)
