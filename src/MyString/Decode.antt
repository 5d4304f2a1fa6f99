-- ===== src/MyString/Decode.antt =====
-- MyString.c: `Utf8ToAnsi` and `Utf8ToWide`. A source array is the list of its bytes with the
-- closing NUL; a read behind its end is `out_of_range`. The loop takes fuel; `out` is what it has
-- stored, and `length out` its index into `dest`.
use Prim.Native.Nat.{bit_and, bit_or}
use tv_now.Common.{
  ℕ, zero, suc, ◌-◌, ◌*◌, not, ◌&&◌, [], ◌∷◌, ◌++◌, Bytes, leb, ltb, ◌==◌, if◌then◌else◌, length,
  drop,
}

pub data Outcome {ℓ} (A : Type ℓ) : Type ℓ where
  done : A → Outcome A
  out_of_range : Outcome A
  out_of_fuel : Outcome A

-- What a round of a decoding loop does: store a character and advance, advance, or read behind
-- the end of the array.
pub data Round : Type 0 where
  store : ℕ → ℕ → Round
  advance : ℕ → Round
  beyond : Round

-- The branches of `Utf8ToAnsi`; no branch takes a byte above 0xF7.
unfoldable pub ansi_round : Bytes → Round
ansi_round [] = beyond
ansi_round (c ∷ []) =
    if leb c 0x7F
    then store c 1
    else if leb c 0xDF
    then (if bit_and c 0x1C == 0 then beyond else advance 2)
    else if leb c 0xEF
    then advance 3
    else if leb c 0xF7
    then advance 4
    else advance 0
ansi_round (c ∷ c2 ∷ s) =
    if leb c 0x7F
    then store c 1
    else if leb c 0xDF
    then (if bit_and c 0x1C == 0
        then store (bit_or (bit_and c 0x03 * 64) (bit_and c2 0x3F)) 2
        else advance 2)
    else if leb c 0xEF
    then advance 3
    else if leb c 0xF7
    then advance 4
    else advance 0

wide_two : ℕ → Bytes → Round
wide_two c [] = beyond
wide_two c (c2 ∷ s) = store (bit_or (bit_and c 0x1F * 64) (bit_and c2 0x3F)) 2

wide_three : ℕ → Bytes → Round
wide_three c (c2 ∷ c3 ∷ s) =
    store (bit_or (bit_or (bit_and c 0x0F * 4096) (bit_and c2 0x3F * 64)) (bit_and c3 0x3F)) 3
wide_three c s = beyond

-- The branches of `Utf8ToWide`.
unfoldable pub wide_round : Bytes → Round
unfolding wide_two wide_three
wide_round [] = beyond
wide_round (c ∷ s) =
    if leb c 0x7F
    then store c 1
    else if leb c 0xDF
    then wide_two c s
    else if leb c 0xEF
    then wide_three c s
    else if leb c 0xF7
    then advance 4
    else advance 0

-- The loop that both decoders share; the result is `dest` without its closing NUL.
unfoldable pub decode_loop : (Bytes → Round) → ℕ → Bytes → ℕ → Bytes → Outcome Bytes
decode_loop round zero src dest_len out = out_of_fuel
decode_loop round (suc f) [] dest_len out = out_of_range
decode_loop round (suc f) (c ∷ s) dest_len out =
    let next : Outcome Bytes = elim (round (c ∷ s)) [
      | store v k ↦ decode_loop round f (drop k (c ∷ s)) dest_len (out ++ v ∷ [])
      | advance k ↦ decode_loop round f (drop k (c ∷ s)) dest_len out
      | beyond ↦ out_of_range
    ] in
    if not (c == 0) && ltb (length out) dest_len then next else done out

-- The result `conv` of both is the number of characters stored.
unfoldable pub utf8_to_ansi : ℕ → Bytes → ℕ → Outcome Bytes
unfolding decode_loop ansi_round
utf8_to_ansi fuel src dest_len = decode_loop ansi_round fuel src (dest_len - 1) []

unfoldable pub utf8_to_wide : ℕ → Bytes → ℕ → Outcome Bytes
unfolding decode_loop wide_round
utf8_to_wide fuel src dest_len = decode_loop wide_round fuel src (dest_len - 1) []
