-- ===== src/Parsers/Base64/RoundTrip.antt =====
-- The decoder gives back what was encoded.
use Prim.Native.Nat.{bit_and, bit_or}
use tv_now.Common.{
  ℕ, zero, suc, ◌+◌, ◌*◌, ◌/◌, ◌%◌, ◌<◌, ◌≡◌, ◌∙◌, ◌≢◌, refl, sym, Bool, true, some, [], ◌∷◌, ◌++◌,
  Bytes, arith, ◌==◌, length, length-append, append-nil, append_assoc, All, holds_below, holds_at,
}
use tv_now.Parsers.Base64.{
  symbol, encode_block, encode_loop, base64_encode, symbol_value, next_value, settle, read_symbol,
  Block, read_block, decode_block, decode_loop, base64_decode,
}

abbrev pub IsByte : ℕ → Type 0
IsByte c = c < 256

abbrev inverts : ℕ → Bool
inverts k = symbol_value (symbol k) == k + 1

inverts_table : holds_below inverts 64 ≡ true
unfolding holds_below symbol_value symbol
inverts_table = refl

symbol_value-symbol : (k : ℕ) → k < 64 → symbol_value (symbol k) ≡ k + 1
symbol_value-symbol k h = ground (arith, holds_at inverts 64 k h inverts_table)

-- The three bytes that are joined from four numbers.
abbrev joins_first : ℕ → Bool
joins_first a = bit_or (a / 4 * 4) (a % 4) % 256 == a

abbrev joins_second : ℕ → Bool
joins_second n = bit_or (n / 16 * 16) (n % 16) % 256 == n % 256

abbrev joins_third : ℕ → Bool
joins_third n = bit_or (bit_and (n / 64 * 64) 0xC0) (n % 64) % 256 == n % 256

first_table : holds_below joins_first 256 ≡ true
unfolding holds_below
first_table = refl

second_table : holds_below joins_second 1024 ≡ true
unfolding holds_below
second_table = refl

third_table : holds_below joins_third 4096 ≡ true
unfolding holds_below
third_table = refl

next_value-symbol : (k : ℕ) (p : Bytes) → k < 64 → next_value (symbol k ∷ p) ≡ (k + 1, p)
unfolding next_value
next_value-symbol k p h = rw (symbol_value-symbol k h) (ground arith)

read_symbol-symbol :
    (old k c : ℕ) (p : Bytes) → k < 64 → read_symbol old (symbol k ∷ c ∷ p) ≡ (k, 1, c ∷ p)
unfolding read_symbol settle
read_symbol-symbol old k c p h = rw (next_value-symbol k (c ∷ p) h) (ground arith)

-- The last byte of the array is read, and not taken.
next_value_last : (y : ℕ) → (next_value (y ∷ [])).1 ≡ []
unfolding next_value
next_value_last y = ground arith

next_value_pad : (p : Bytes) → next_value (b'=' ∷ p) ≡ next_value p
unfolding next_value symbol_value
next_value_pad p = refl

settle_end : (old : ℕ) (r : ℕ × Bytes) → r.1 ≡ [] → settle old r ≡ (0, 0, [])
unfolding settle
settle_end old (v, []) h = refl
settle_end old (v, c ∷ p) h = cc

first_byte :
    (a b : ℕ) → a < 256 → b < 256 → bit_or (a / 4 * 4) ((a % 4 * 16 + b / 16) / 16) % 256 ≡ a
first_byte a b ha hb =
    let e : (a % 4 * 16 + b / 16) / 16 ≡ a % 4 = omega arith in
    rw e (ground (arith, holds_at joins_first 256 a ha first_table))

second_byte :
    (a b c : ℕ)
    → a < 256
    → b < 256
    → c < 256
    → bit_or ((a % 4 * 16 + b / 16) * 16) ((b % 16 * 4 + c / 64) / 4) % 256 ≡ b
second_byte a b c ha hb hc =
    let n = a % 4 * 256 + b in
    let e : (a % 4 * 16 + b / 16) * 16 ≡ n / 16 * 16 = omega arith in
    let e' : (b % 16 * 4 + c / 64) / 4 ≡ n % 16 = omega arith in
    rw (e, e') (ground (arith, holds_at joins_second 1024 n (omega arith) second_table))

third_byte :
    (b c : ℕ)
    → b < 256
    → c < 256
    → bit_or (bit_and ((b % 16 * 4 + c / 64) * 64) 0xC0) (c % 64) % 256 ≡ c
third_byte b c hb hc =
    let n = b % 16 * 256 + c in
    let e : (b % 16 * 4 + c / 64) * 64 ≡ n / 64 * 64 = omega arith in
    let e' : c % 64 ≡ n % 64 = omega arith in
    rw (e, e') (ground (arith, holds_at joins_third 4096 n (omega arith) third_table))

decode_empty : (f : ℕ) (old : Block) (out : Bytes) → decode_loop f old [] out ≡ out
unfolding decode_loop
decode_empty zero old out = refl
decode_empty (suc f) old out = refl

module _ (f : ℕ) (old : Block) (out : Bytes) where
  decode_full :
      (a b c x : ℕ) (p : Bytes)
      → a < 256
      → b < 256
      → c < 256
      → (block : Block) × (decode_loop (suc f) old (encode_block a b c 3 ++ (x ∷ p)) out
          ≡ decode_loop f block (x ∷ p) (out ++ (a ∷ b ∷ c ∷ [])))
  unfolding decode_loop read_block encode_block decode_block
  decode_full a b c x p ha hb hc = (
    record { in0 = a / 4; in1 = a % 4 * 16 + b / 16; in2 = b % 16 * 4 + c / 64; in3 = c % 64 },
    rw
        (
          read_symbol-symbol old.in0 (a / 4) (symbol (a % 4 * 16 + b / 16)) _ (omega arith),
          read_symbol-symbol old.in1 (a % 4 * 16 + b / 16) (symbol (b % 16 * 4 + c / 64)) _
              (omega arith),
          read_symbol-symbol old.in2 (b % 16 * 4 + c / 64) (symbol (c % 64)) _ (omega arith),
          read_symbol-symbol old.in3 (c % 64) x p (omega arith),
          first_byte a b ha hb,
          second_byte a b c ha hb hc,
          third_byte b c hb hc,
        )
        refl,
  )

  read_end :
      (old' y : ℕ) (p : Bytes)
      → next_value p ≡ next_value (y ∷ [])
      → settle old' (next_value p) ≡ (0, 0, [])
  read_end old' y p e = rw e (settle_end old' (next_value (y ∷ [])) (next_value_last y))

  decode_two :
      (a b x y : ℕ)
      → a < 256
      → b < 256
      → x < 256
      → decode_loop (suc f) old (encode_block a b x 2 ++ (y ∷ [])) out
        ≡ decode_loop f
            (record { in0 = a / 4; in1 = a % 4 * 16 + b / 16; in2 = b % 16 * 4 + x / 64; in3 = 0 })
            []
            (out ++ (a ∷ b ∷ []))
  unfolding decode_loop read_block read_symbol encode_block decode_block
  decode_two a b x y ha hb hx =
      rw
        (
          read_symbol-symbol old.in0 (a / 4) (symbol (a % 4 * 16 + b / 16)) _ (omega arith),
          read_symbol-symbol old.in1 (a % 4 * 16 + b / 16) (symbol (b % 16 * 4 + x / 64)) _
              (omega arith),
          read_symbol-symbol old.in2 (b % 16 * 4 + x / 64) b'=' _ (omega arith),
          read_end old.in3 y (b'=' ∷ y ∷ []) (next_value_pad (y ∷ [])),
          first_byte a b ha hb,
          second_byte a b x ha hb hx,
        )
        refl

  decode_one :
      (a x y : ℕ)
      → a < 256
      → x < 256
      → decode_loop (suc f) old (encode_block a x 0 1 ++ (y ∷ [])) out
        ≡ decode_loop f
            (record { in0 = a / 4; in1 = a % 4 * 16 + x / 16; in2 = 0; in3 = old.in3 })
            []
            (out ++ (a ∷ []))
  unfolding decode_loop read_block read_symbol encode_block decode_block
  decode_one a x y ha hx =
      rw
        (
          read_symbol-symbol old.in0 (a / 4) (symbol (a % 4 * 16 + x / 16)) _ (omega arith),
          read_symbol-symbol old.in1 (a % 4 * 16 + x / 16) b'=' _ (omega arith),
          read_end old.in2 y (b'=' ∷ b'=' ∷ y ∷ [])
              (next_value_pad (b'=' ∷ y ∷ []) ∙ next_value_pad (y ∷ [])),
          first_byte a x ha hx,
        )
        refl

  decode_last : (y : ℕ) → decode_loop (suc f) old (y ∷ []) out ≡ out
  unfolding decode_loop read_block read_symbol
  decode_last y = rw (read_end old.in0 y (y ∷ []) refl) (decode_empty f _ out)

split_last : (e : Bytes) (y : ℕ) → (c : ℕ) × (p : Bytes) × (e ++ y ∷ [] ≡ c ∷ p)
split_last [] y = (y, [], refl)
split_last (c ∷ e) y = (c, e ++ y ∷ [], refl)

decodes :
    (s : Bytes) (x y f : ℕ) (old : Block) (out : Bytes)
    → All IsByte s
    → IsByte x
    → length (encode_loop s x) < f
    → decode_loop f old (encode_loop s x ++ y ∷ []) out ≡ out ++ s
unfolding encode_loop
decodes s x y zero old out hs hx hf = absurd (omega arith)
decodes [] x y (suc f) old out hs hx hf = decode_last f old out y ∙ sym (append-nil out)
decodes (a ∷ []) x y (suc f) old out (ha, hs) hx hf =
    decode_one f old out a x y ha hx ∙ decode_empty f _ (out ++ (a ∷ []))
decodes (a ∷ b ∷ []) x y (suc f) old out (ha, (hb, hs)) hx hf =
    decode_two f old out a b x y ha hb hx ∙ decode_empty f _ (out ++ (a ∷ b ∷ []))
decodes (a ∷ b ∷ c ∷ s) x y (suc f) old out (ha, (hb, (hc, hs))) hx hf =
    let (d, p, e) = split_last (encode_loop s x) y in
    let (block, step) = decode_full f old out a b c d p ha hb hc in
    let four : length (encode_block a b c 3) ≡ 4 = unfold encode_block in refl in
    let rest =
      decodes s x y f block (out ++ (a ∷ b ∷ c ∷ [])) hs hx
        (omega (arith, four, length-append (encode_block a b c 3) (encode_loop s x))) in
    rw (append_assoc, e, step, ← e, rest, append_assoc) refl

encode_loop-cons : (a : ℕ) (s : Bytes) (x : ℕ) → encode_loop (a ∷ s) x ≢ []
unfolding encode_loop encode_block
encode_loop-cons a [] x e = cc
encode_loop-cons a (b ∷ []) x e = cc
encode_loop-cons a (b ∷ c ∷ s) x e = cc

decoded :
    (t : Bytes) (y : ℕ) (old : Block) (s : Bytes)
    → t ≢ []
    → ((f : ℕ) → length t < f → decode_loop f old (t ++ y ∷ []) [] ≡ s)
    → base64_decode t y old ≡ (some s, length s)
unfolding base64_decode
decoded [] y old s h k = absurd (h refl)
decoded (c ∷ p) y old s h k =
    rw (k (length (c ∷ (p ++ y ∷ []))) (omega (arith, length-append p (y ∷ [])))) refl

-- Decoding what was encoded gives back every text of bytes that is not empty, with its length as
-- the result, whatever bytes stand behind the two inputs and in the decoder's block at the start.
pub base64_decode-base64_encode :
    (s : Bytes) (x y : ℕ) (old : Block)
    → s ≢ []
    → All IsByte s
    → IsByte x
    → (t : Bytes) × (base64_encode s x ≡ (some t, length t))
      × (base64_decode t y old ≡ (some s, length s))
unfolding base64_encode
base64_decode-base64_encode [] x y old h hs hx = absurd (h refl)
base64_decode-base64_encode (a ∷ s) x y old h hs hx =
    let t = encode_loop (a ∷ s) x in
    (
      t,
      refl,
      decoded t y old (a ∷ s) (encode_loop-cons a s x)
          (λ f hf. decodes (a ∷ s) x y f old [] hs hx hf),
    )
