-- ===== src/Parsers/Base64.antt =====
-- libIWeb/ILibParsers.c: `ILibBase64Encode` and `ILibBase64Decode`. An array is the list of its
-- bytes; both functions read the byte behind the input's length too. In the encoder masks and
-- shifts are remainders and quotients, and `|` of bits that do not overlap is a sum.
pub mod RoundTrip
pub mod Bounds
pub mod Tests
use Prim.Native.Nat.{bit_and, bit_or}
use tv_now.Common.{
  ℕ, zero, suc, ◌+◌, ◌-◌, ◌*◌, ◌/◌, ◌%◌, Bool, true, false, ◌||◌, Option, none, some, [], ◌∷◌, ◌++◌,
  Bytes, codes, ltb, ◌==◌, if◌then◌else◌, length, take,
}

abbrev cb64 : Bytes
cb64 = codes "ABCDEFGHIJKLMNOPQRSTUVWXYZabcdefghijklmnopqrstuvwxyz0123456789+/"

abbrev cd64 : Bytes
cd64 = codes "|$$$}rstuvwxyz{$$$$$$$>?@ABCDEFGHIJKLMNOPQRSTUVW$$$$$$XYZ[\\]^_`abcdefghijklmnopq"

-- A byte of a table, whose closing NUL is 0.
entry : Bytes → ℕ → ℕ
entry [] i = 0
entry (c ∷ s) zero = c
entry (c ∷ s) (suc i) = entry s i

-- `cb64[k]`.
unfoldable pub symbol : ℕ → ℕ
unfolding entry
symbol k = entry cb64 k

-- `ILibencodeblock`, by `len`.
pub encode_block : ℕ → ℕ → ℕ → ℕ → Bytes
encode_block a b c len =
    symbol (a / 4)
    ∷ symbol (a % 4 * 16 + b / 16)
    ∷ (if ltb 1 len then symbol (b % 16 * 4 + c / 64) else b'=')
    ∷ (if ltb 2 len then symbol (c % 64) else b'=')
    ∷ []

-- The loop of `ILibBase64Encode` and what follows it; `behind` is the byte behind the input.
pub encode_loop : Bytes → ℕ → Bytes
encode_loop [] behind = []
encode_loop (a ∷ []) behind = encode_block a behind 0 1
encode_loop (a ∷ b ∷ []) behind = encode_block a b behind 2
encode_loop (a ∷ b ∷ c ∷ s) behind = encode_block a b c 3 ++ encode_loop s behind

-- `*output`, which is NULL for an empty input, and the result.
unfoldable pub base64_encode : Bytes → ℕ → Option Bytes × ℕ
unfolding encode_loop encode_block symbol
base64_encode [] behind = (none, 0)
base64_encode (a ∷ s) behind = let out = encode_loop (a ∷ s) behind in (some out, length out)

-- `v` for a byte: the symbol's number and 1, or 0 for a byte that is none.
unfoldable pub symbol_value : ℕ → ℕ
unfolding entry
symbol_value c =
    let v = if ltb c 43 || ltb 122 c then 0 else entry cd64 (c - 43) in
    if v == 0 then 0 else if v == b'$' then 0 else v - 61

-- The innermost loop: `v`, and the array from `inptr` on.
pub next_value : Bytes → ℕ × Bytes
next_value [] = (0, [])
next_value (c ∷ p) =
    let v = symbol_value c in let later = next_value p in if v == 0 then later else (v, p)

-- One of the four input bytes of a block, by how much `len` grows, and the array from `inptr` on.
pub settle : ℕ → ℕ × Bytes → ℕ × ℕ × Bytes
settle old (v, []) = (0, 0, [])
settle old (v, c ∷ p) = ((if v == 0 then old else v - 1), 1, c ∷ p)

pub read_symbol : ℕ → Bytes → ℕ × ℕ × Bytes
read_symbol old [] = (old, 0, [])
read_symbol old (c ∷ p) = settle old (next_value (c ∷ p))

-- The array `in` of four bytes.
pub record Block : Type 0 where
  pub in0 : ℕ
  pub in1 : ℕ
  pub in2 : ℕ
  pub in3 : ℕ

-- The `for` loop, from the block that the round before has left.
pub read_block : Block → Bytes → Block × ℕ × Bytes
read_block old p =
    let (a, k, p1) = read_symbol old.in0 p in
    let (b, l, p2) = read_symbol old.in1 p1 in
    let (c, m, p3) = read_symbol old.in2 p2 in
    let (d, n, p4) = read_symbol old.in3 p3 in
    (record { in0 = a; in1 = b; in2 = c; in3 = d }, k + l + m + n, p4)

-- `ILibdecodeblock`.
pub decode_block : Block → Bytes
decode_block i =
    bit_or (i.in0 * 4) (i.in1 / 16) % 256
    ∷ bit_or (i.in1 * 16) (i.in2 / 4) % 256
    ∷ bit_or (bit_and (i.in2 * 64) 0xC0) i.in3 % 256
    ∷ []

-- The outer loop; `out` is what stands before the pointer `out`. A round reads a byte, so the
-- array's length is fuel enough.
pub decode_loop : ℕ → Block → Bytes → Bytes → Bytes
decode_loop zero old p out = out
decode_loop (suc f) old [] out = out
decode_loop (suc f) old (c ∷ p) out =
    let (block, len, p') = read_block old (c ∷ p) in
    let more = decode_loop f block p' (out ++ take (len - 1) (decode_block block)) in
    let same = decode_loop f block p' out in if len == 0 then same else more

-- `behind` is the byte behind the input, and `old` what `in` holds at the start.
unfoldable pub base64_decode : Bytes → ℕ → Block → Option Bytes × ℕ
unfolding decode_loop read_block read_symbol settle next_value symbol_value decode_block
base64_decode [] behind old = (none, 0)
base64_decode (c ∷ s) behind old =
    let p = c ∷ (s ++ behind ∷ []) in
    let out = decode_loop (length p) old p [] in (some out, length out)
